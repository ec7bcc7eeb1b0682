-- ===== src/Db/Snapshot.antt =====
-- snapshot.go: `Database`, a stack of revoking sessions over a committed engine. The innermost
-- session stands first in the list. Each call holds the lock throughout, so a call is one step.
pub mod View
pub mod Rollback
pub mod Refinement
pub mod Scan
use go_tron.Prelude.{
  ℕ, Bool, true, false, not, Option, none, some, List, [], ◌∷◌, if◌then◌else◌, length,
}
use go_tron.Prelude.Bytes.{Bytes, bytes_eq_instance}
use go_tron.Prelude.Map.{Map, lookup, insert, erase}
use go_tron.Prelude.Result.{Result, ok, err, ◌>>=◌}
use go_tron.Db.Sort.{has_prefix, sort}
use go_tron.Db.Kv.{Error, not_found, Kv}

pub record Entry : Type 0 where
  pub value : Bytes
  pub deleted : Bool

pub record Session : Type 0 where
  pub writes : Map Bytes Entry

unfoldable pub new_session : Session
new_session = record { writes = [] }

-- The loop of `Get` and `Has`: the innermost session that wrote the key decides.
unfoldable pub find : Bytes → List Session → Option Entry
find k [] = none
find k (s ∷ ss) = elim (lookup k s.writes) [ some e ↦ some e | none ↦ find k ss ]

-- The loop of `Commit` over the entries, where the session has a parent.
unfoldable pub merge : Map Bytes Entry → Map Bytes Entry → Map Bytes Entry
merge [] parent = parent
merge ((k, e) ∷ w) parent = merge w (insert k e parent)

-- The loop of `Scan` over the entries of one session.
unfoldable pub overlay : Bytes → Map Bytes Entry → Map Bytes Bytes → Map Bytes Bytes
overlay p [] merged = merged
overlay p ((k, e) ∷ w) merged = overlay p w (
    if has_prefix k p
    then if e.deleted then erase k merged else insert k e.value merged
    else merged)

-- The loop of `Scan` over the sessions, the outermost first.
unfoldable pub overlay_all : Bytes → List Session → Map Bytes Bytes → Map Bytes Bytes
unfolding overlay
overlay_all p [] merged = merged
overlay_all p (s ∷ ss) merged = overlay p s.writes (overlay_all p ss merged)

-- The loop of `Scan` over the engine's answer.
unfoldable pub collect : Map Bytes Bytes → Map Bytes Bytes → Map Bytes Bytes
collect [] merged = merged
collect ((k, v) ∷ ps) merged = collect ps (insert k v merged)

module _ (kv : Kv) where
  pub record Database : Type 0 where
    pub base : kv.Store
    pub sessions : List Session

  unfoldable pub new_database : kv.Store → Database
  new_database base = record { base = base; sessions = [] }

  unfoldable pub depth : Database → ℕ
  depth d = length d.sessions

  unfoldable pub build_session : Database → Database × ℕ
  unfolding new_session depth
  build_session d =
      let d' : Database = record d { sessions = new_session ∷ d.sessions } in (d', depth d')

  unfoldable pub get : Bytes → Database → Result Error Bytes
  unfolding find
  get key d = elim (find key d.sessions) [
    | some e ↦ if e.deleted then err not_found else ok e.value
    | none ↦ kv.get key d.base
  ]

  unfoldable pub has : Bytes → Database → Result Error Bool
  unfolding find
  has key d = elim (find key d.sessions) [ some e ↦ ok (not e.deleted) | none ↦ kv.has key d.base ]

  unfoldable pub scan : Bytes → Database → Result Error (Map Bytes Bytes)
  unfolding overlay_all collect
  scan prefix d = do
    base ← kv.scan prefix d.base
    ok (sort (overlay_all prefix d.sessions (collect base [])))

  write : Bytes → Entry → List Session → Option (List Session)
  write k e [] = none
  write k e (top ∷ rest) = some (record top { writes = insert k e top.writes } ∷ rest)

  abbrev on_base : Database → kv.Store × Option Error → Database × Option Error
  on_base d r = (record d { base = r.0 }, r.1)

  unfoldable pub put : Bytes → Bytes → Database → Database × Option Error
  unfolding write
  put key value d = elim (write key (record { value = value; deleted = false }) d.sessions) [
    | some ss ↦ (record d { sessions = ss }, none)
    | none ↦ on_base d (kv.put key value d.base)
  ]

  unfoldable pub delete : Bytes → Database → Database × Option Error
  unfolding write
  delete key d = elim (write key (record { value = []; deleted = true }) d.sessions) [
    | some ss ↦ (record d { sessions = ss }, none)
    | none ↦ on_base d (kv.delete key d.base)
  ]

  abbrev write_base : Bytes → Entry → kv.Store → kv.Store × Option Error
  write_base k e b = if e.deleted then kv.delete k b else kv.put k e.value b

  -- The loop of `Commit` over the entries, where the session is the only one: it stops at the
  -- first write that fails.
  unfoldable pub flush : Map Bytes Entry → kv.Store → kv.Store × Option Error
  flush [] b = (b, none)
  flush ((k, e) ∷ w) b =
      let (b', failed) = write_base k e b in
      elim failed [ some x ↦ (b', some x) | none ↦ flush w b' ]

  commit_top : List Session → Database → Database × Bool × Option Error
  unfolding merge flush
  commit_top [] d = (d, false, none)
  commit_top (top ∷ []) d =
      let (b, failed) = flush top.writes d.base in
      (record { base = b; sessions = [] }, true, failed)
  commit_top (top ∷ parent ∷ rest) d =
      let p = record parent { writes = merge top.writes parent.writes } in
      (record d { sessions = p ∷ rest }, true, none)

  unfoldable pub commit : Database → Database × Bool × Option Error
  unfolding commit_top
  commit d = commit_top d.sessions d

  revoke_top : List Session → Database → Database × Bool
  revoke_top [] d = (d, false)
  revoke_top (_ ∷ rest) d = (record d { sessions = rest }, true)

  unfoldable pub revoke : Database → Database × Bool
  unfolding revoke_top
  revoke d = revoke_top d.sessions d
