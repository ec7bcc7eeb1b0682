-- ===== src/Db/Snapshot/Rollback.antt =====
-- Revoking sessions as the block pipeline uses them: what runs inside a session, nested sessions
-- included, is undone by `Revoke`.
use go_tron.Prelude.{
  ℕ, suc, true, Option, none, some, List, [], ◌∷◌, ◌++◌, ◌≡◌, refl, arith, length, ◌<◌,
  Option-cases, inl, inr,
}
use go_tron.Prelude.Bytes.{Bytes}
use go_tron.Db.Kv.{Kv}
use go_tron.Db.Snapshot.{Session, Database, put, delete, commit, revoke, build_session, new_session}

-- A call of the database that changes it.
pub data Op : Type 0 where
  put_op : Bytes → Bytes → Op
  delete_op : Bytes → Op
  build commit_op revoke_op : Op

-- The sessions open above a mark after a call, where there were so many before it; none where the
-- call would close the first of them.
abbrev pub level : ℕ → Op → Option ℕ
level n (put_op _ _) = some n
level n (delete_op _) = some n
level n build = some (suc n)
level (suc (suc n)) commit_op = some (suc n)
level (suc (suc n)) revoke_op = some (suc n)
level _ commit_op = none
level _ revoke_op = none

abbrev pub level_after : ℕ → List Op → Option ℕ
level_after n [] = some n
level_after n (o ∷ os) = elim (level n o) [ none ↦ none | some m ↦ level_after m os ]

module _ (kv : Kv) where
  unfoldable pub step : Database kv → Op → Database kv
  step d (put_op k v) = (put kv k v d).0
  step d (delete_op k) = (delete kv k d).0
  step d build = (build_session kv d).0
  step d commit_op = (commit kv d).0
  step d revoke_op = (revoke kv d).0

  unfoldable pub run : Database kv → List Op → Database kv
  unfolding step
  run d [] = d
  run d (o ∷ os) = run (step d o) os

  -- `d` with the sessions `new` above its own.
  abbrev under : List Session → Database kv → Database kv
  under new d = record d { sessions = new ++ d.sessions }

  -- One call in an inner session changes only the sessions above the mark.
  step-under :
      (d : Database kv) (new : List Session) (o : Op) (m : ℕ)
      → level (length new) o ≡ some m
      → 0 < length new
      → (new' : List Session) × (length new' ≡ m) × (0 < m) × (step (under new d) o ≡ under new' d)
  unfolding step put delete commit revoke build_session
  step-under d [] o m e h = absurd (omega arith)
  step-under d (s ∷ new) (put_op k v) m e h = (_ ∷ new, ground arith, ground arith, refl)
  step-under d (s ∷ new) (delete_op k) m e h = (_ ∷ new, ground arith, ground arith, refl)
  step-under d (s ∷ new) build m e h = (_ ∷ s ∷ new, ground arith, ground arith, refl)
  step-under d (s ∷ t ∷ new) commit_op m e h = (_ ∷ new, ground arith, ground arith, refl)
  step-under d (s ∷ t ∷ new) revoke_op m e h = (t ∷ new, ground arith, ground arith, refl)
  step-under d (s ∷ []) commit_op m e h = cc
  step-under d (s ∷ []) revoke_op m e h = cc

  run-under :
      (d : Database kv) (new : List Session) (os : List Op) (m : ℕ)
      → level_after (length new) os ≡ some m
      → 0 < length new
      → (new' : List Session) × (length new' ≡ m) × (run (under new d) os ≡ under new' d)
  unfolding run
  run-under d new [] m e h = (new, ground arith, refl)
  run-under d new (o ∷ os) m e h = elim (Option-cases (level (length new) o)) [
    | inl closed ↦ cc (rw (closed, level_after) at e)
    | inr (l, p) ↦
        let (new', q, r, t) = step-under d new o l p h in
        let (last, u, v) = run-under d new' os m (rw (p, level_after, ← q) at e) (rw q r) in
        (last, u, rw t v)
  ]

  -- Whatever puts, deletes and nested sessions run inside a session, as long as its own session
  -- is the innermost one at the end and was never closed on the way, `Revoke` gives back the
  -- database as it was before `BuildSession`: the engine and every outer session.
  pub revoke-run-build_session :
      (d : Database kv) (os : List Op)
      → level_after 1 os ≡ some 1
      → revoke kv (run (build_session kv d).0 os) ≡ (d, true)
  unfolding revoke build_session
  revoke-run-build_session d os h =
      let (new, l, e) = run-under d (new_session ∷ []) os 1 h (omega arith) in rw e (last new l)
    where
      last : (new : List Session) → length new ≡ 1 → revoke kv (under new d) ≡ (d, true)
      last [] l = absurd (omega arith)
      last (s ∷ []) l = refl
      last (s ∷ t ∷ new) l = absurd (omega arith)
