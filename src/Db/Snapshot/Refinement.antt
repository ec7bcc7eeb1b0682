-- ===== src/Db/Snapshot/Refinement.antt =====
-- The contract of the revoking database: a stack of views, one for each depth. A session is a
-- copy of the view below it, `Commit` puts the innermost view in the place of the one below, and
-- `Revoke` drops it.
use go_tron.Prelude.{none, List, [], ◌∷◌, ◌≡◌, refl, ap, if◌then◌else◌, arith, ◌∙◌}
use mathlib.Core.Path.{fun_ext}
use go_tron.Prelude.Bytes.{Bytes, bytes_eq, bytes_eq_instance}
use go_tron.Prelude.Map.{Map, lookup, insert-IsUnique}
use go_tron.Prelude.Result.{Result, ok, err}
use go_tron.Db.Kv.{Error, not_found, Kv}
use go_tron.Db.Snapshot.{
  Entry, Session, flush, Database, get, put, delete, commit, revoke, build_session,
}
use go_tron.Db.Snapshot.View.{AllUnique, IsValid, merge-IsUnique, get-put, get-delete, get-commit}
use go_tron.Db.Snapshot.Rollback.{Op, put_op, delete_op, build, commit_op, revoke_op, step, run}

-- What can be read under each key.
abbrev pub View : Type 0
View = Bytes → Result Error Bytes

abbrev pub update : Bytes → Result Error Bytes → View → View
update k r v j = if bytes_eq k j then r else v j

-- The specification: the innermost view first, the view of the engine last.
abbrev pub spec_step : List View → Op → List View
spec_step [] o = []
spec_step (v ∷ vs) (put_op k x) = update k (ok x) v ∷ vs
spec_step (v ∷ vs) (delete_op k) = update k (err not_found) v ∷ vs
spec_step (v ∷ vs) build = v ∷ v ∷ vs
spec_step (v ∷ []) commit_op = v ∷ []
spec_step (v ∷ w ∷ vs) commit_op = v ∷ vs
spec_step (v ∷ []) revoke_op = v ∷ []
spec_step (v ∷ w ∷ vs) revoke_op = w ∷ vs

abbrev pub spec_run : List View → List Op → List View
spec_run vs [] = vs
spec_run vs (o ∷ os) = spec_run (spec_step vs o) os

module _ (kv : Kv) where
  abbrev view : Database kv → View
  view d j = get kv j d

  abbrev at : kv.Store → List Session → Database kv
  at b ss = record { base = b; sessions = ss }

  abbrev outer : kv.Store → List Session → List View
  outer b [] = []
  outer b (_ ∷ ss) = view (record { base = b; sessions = ss }) ∷ outer b ss

  -- The views of a database: its own, and those below each session.
  abbrev pub views : Database kv → List View
  views d = view d ∷ outer d.base d.sessions

  -- A write to the engine does not fail, as in memory.
  pub record IsReliable : Type 0 where
    pub put_succeeds : (k v : Bytes) (s : kv.Store) → (kv.put k v s).1 ≡ none
    pub delete_succeeds : (k : Bytes) (s : kv.Store) → (kv.delete k s).1 ≡ none

  flush-IsWf : (w : Map Bytes Entry) (b : kv.Store) → kv.IsWf b → kv.IsWf (flush kv w b).0
  unfolding flush
  flush-IsWf [] b h = h
  flush-IsWf ((k, e) ∷ w) b h = ground (
    arith,
    kv.put-IsWf k e.value b h,
    kv.delete-IsWf k b h,
    flush-IsWf w (kv.put k e.value b).0,
    flush-IsWf w (kv.delete k b).0,
  )

  step-IsValid : (d : Database kv) (o : Op) → IsValid kv d → IsValid kv (step kv d o)
  unfolding step put delete commit revoke build_session
  step-IsValid d o h = go d.sessions d.base o h
    where
      go :
          (ss : List Session) (b : kv.Store) (o : Op)
          → kv.IsWf b × AllUnique ss
          → IsValid kv (step kv (record { base = b; sessions = ss }) o)
      go [] b (put_op k v) h = (kv.put-IsWf k v b h.0, tt)
      go [] b (delete_op k) h = (kv.delete-IsWf k b h.0, tt)
      go [] b build h = (h.0, (tt, tt))
      go [] b commit_op h = h
      go [] b revoke_op h = h
      go (s ∷ ss) b (put_op k v) h = (h.0, (insert-IsUnique k _ s.writes h.1.0, h.1.1))
      go (s ∷ ss) b (delete_op k) h = (h.0, (insert-IsUnique k _ s.writes h.1.0, h.1.1))
      go (s ∷ ss) b build h = (h.0, (tt, h.1))
      go (s ∷ []) b commit_op h = (flush-IsWf s.writes b h.0, tt)
      go (s ∷ p ∷ ss) b commit_op h = (h.0, (merge-IsUnique s.writes p.writes h.1.1.0, h.1.1.1))
      go (s ∷ ss) b revoke_op h = (h.0, h.1.1)

  -- The maps of the sessions stay maps along every run of calls, from a database without
  -- sessions.
  pub run-IsValid : (d : Database kv) (os : List Op) → IsValid kv d → IsValid kv (run kv d os)
  unfolding run
  run-IsValid d [] h = h
  run-IsValid d (o ∷ os) h = run-IsValid (step kv d o) os (step-IsValid d o h)

  module _ (r : IsReliable) where
    -- `Put` and `Delete` do not fail: in a session they never do, without one the engine does not.
    put_succeeds_all : (k v : Bytes) (d : Database kv) → (put kv k v d).1 ≡ none
    unfolding put
    put_succeeds_all k v d = ground (arith, r.put_succeeds k v d.base)

    delete_succeeds_all : (k : Bytes) (d : Database kv) → (delete kv k d).1 ≡ none
    unfolding delete
    delete_succeeds_all k d = ground (arith, r.delete_succeeds k d.base)

    flush_succeeds : (w : Map Bytes Entry) (b : kv.Store) → (flush kv w b).1 ≡ none
    unfolding flush
    flush_succeeds [] b = refl
    flush_succeeds ((k, e) ∷ w) b = ground (
      arith,
      r.put_succeeds k e.value b,
      r.delete_succeeds k b,
      flush_succeeds w (kv.put k e.value b).0,
      flush_succeeds w (kv.delete k b).0,
    )

    commit_succeeds : (d : Database kv) → (commit kv d).2 ≡ none
    unfolding commit
    commit_succeeds d = go d.sessions d.base
      where
        go :
            (ss : List Session) (b : kv.Store)
            → (commit kv (record { base = b; sessions = ss })).2 ≡ none
        go [] b = refl
        go (s ∷ []) b = flush_succeeds s.writes b
        go (s ∷ p ∷ ss) b = refl

    view-put : (k v : Bytes) (d : Database kv) → view (put kv k v d).0 ≡ update k (ok v) (view d)
    view-put k v d = fun_ext λ j. get-put kv k j v d (put_succeeds_all k v d)

    view-delete :
        (k : Bytes) (d : Database kv) → view (delete kv k d).0 ≡ update k (err not_found) (view d)
    view-delete k d = fun_ext λ j. get-delete kv k j d (delete_succeeds_all k d)

    view-commit : (d : Database kv) → IsValid kv d → view (commit kv d).0 ≡ view d
    view-commit d h = fun_ext λ j. get-commit kv j d h (commit_succeeds d)

    view-build_session : (d : Database kv) → view (build_session kv d).0 ≡ view d
    unfolding build_session get lookup
    view-build_session d = fun_ext λ j. refl

    views-step :
        (b : kv.Store) (ss : List Session) (o : Op)
        → kv.IsWf b × AllUnique ss
        → let d : Database kv = record { base = b; sessions = ss } in
          views (step kv d o) ≡ spec_step (views d) o
    unfolding step put delete commit revoke build_session
    views-step b [] (put_op k v) h = ap (λ w. w ∷ []) (view-put k v (at b []))
    views-step b (s ∷ ss) (put_op k v) h =
        ap (λ w. w ∷ outer b (s ∷ ss)) (view-put k v (at b (s ∷ ss)))
    views-step b [] (delete_op k) h = ap (λ w. w ∷ []) (view-delete k (at b []))
    views-step b (s ∷ ss) (delete_op k) h =
        ap (λ w. w ∷ outer b (s ∷ ss)) (view-delete k (at b (s ∷ ss)))
    views-step b ss build h =
        ap (λ w. w ∷ view (at b ss) ∷ outer b ss) (view-build_session (at b ss))
    views-step b [] commit_op h = refl
    views-step b (s ∷ []) commit_op h = ap (λ w. w ∷ []) (view-commit (at b (s ∷ [])) h)
    views-step b (s ∷ p ∷ ss) commit_op h =
        ap (λ w. w ∷ view (at b ss) ∷ outer b ss) (view-commit (at b (s ∷ p ∷ ss)) h)
    views-step b [] revoke_op h = refl
    views-step b (s ∷ ss) revoke_op h = refl

    -- Over an engine whose writes do not fail, every run of calls on a valid database refines the
    -- specification: the views at all depths are those of the stack of copied views.
    pub views-run :
        (d : Database kv) (os : List Op)
        → IsValid kv d
        → views (run kv d os) ≡ spec_run (views d) os
    unfolding run
    views-run d [] h = refl
    views-run d (o ∷ os) h =
        views-run (step kv d o) os (step-IsValid d o h)
        ∙ ap (λ vs. spec_run vs os) (views-step d.base d.sessions o h)
