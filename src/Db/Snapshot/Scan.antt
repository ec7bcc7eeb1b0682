-- ===== src/Db/Snapshot/Scan.antt =====
-- `Scan` of the revoking database lists what `Get` shows under a prefix, in the order of the keys.
use go_tron.Prelude.{Option, none, some, List, [], ◌∷◌, ◌≡◌, refl, if◌then◌else◌, arith}
use go_tron.Prelude.Bytes.{Bytes, bytes_eq_iff, bytes_eq_instance}
use go_tron.Prelude.Map.{
  Map, lookup, insert, erase, IsUnique, lookup-insert, lookup-erase, insert-IsUnique,
  erase-IsUnique,
}
use go_tron.Prelude.Result.{ok, >>=-succeeds}
use go_tron.Db.Kv.{Kv, readable}
use go_tron.Db.Sort.{has_prefix, IsSorted, lookup-sort, sort-IsSorted}
use go_tron.Db.Snapshot.{Entry, Session, Database, find, overlay, overlay_all, collect, get, scan}
use go_tron.Db.Snapshot.View.{AllUnique, IsValid}

abbrev shown : Option Entry → Option Bytes → Option Bytes
shown none o = o
shown (some e) o = if e.deleted then none else some e.value

lookup-overlay :
    (p j : Bytes) (w : Map Bytes Entry) (m : Map Bytes Bytes)
    → IsUnique w
    → lookup j (overlay p w m)
      ≡ (if has_prefix j p then shown (lookup j w) (lookup j m) else lookup j m)
unfolding overlay lookup
lookup-overlay p j [] m h = ground arith
lookup-overlay p j ((k, e) ∷ w) m h = ground (
  arith,
  bytes_eq_iff k j,
  lookup-overlay p j w (erase k m) h.1,
  lookup-overlay p j w (insert k e.value m) h.1,
  lookup-overlay p j w m h.1,
  lookup-insert k j e.value m,
  lookup-erase k j m,
)

overlay-IsUnique :
    (p : Bytes) (w : Map Bytes Entry) (m : Map Bytes Bytes) → IsUnique m → IsUnique (overlay p w m)
unfolding overlay
overlay-IsUnique p [] m h = h
overlay-IsUnique p ((k, e) ∷ w) m h =
    overlay-IsUnique p w _ (ground (arith, insert-IsUnique k e.value m h, erase-IsUnique k m h))

lookup-overlay_all :
    (p j : Bytes) (ss : List Session) (m : Map Bytes Bytes)
    → AllUnique ss
    → lookup j (overlay_all p ss m)
      ≡ (if has_prefix j p then shown (find j ss) (lookup j m) else lookup j m)
unfolding overlay_all find
lookup-overlay_all p j [] m h = ground arith
lookup-overlay_all p j (s ∷ ss) m h =
    ground
      (arith, lookup-overlay p j s.writes (overlay_all p ss m) h.0, lookup-overlay_all p j ss m h.1)

overlay_all-IsUnique :
    (p : Bytes) (ss : List Session) (m : Map Bytes Bytes)
    → IsUnique m
    → IsUnique (overlay_all p ss m)
unfolding overlay_all
overlay_all-IsUnique p [] m h = h
overlay_all-IsUnique p (s ∷ ss) m h = overlay-IsUnique p s.writes _ (overlay_all-IsUnique p ss m h)

lookup-collect :
    (j : Bytes) (ps m : Map Bytes Bytes)
    → IsUnique ps
    → lookup j (collect ps m) ≡ elim (lookup j ps) [ none ↦ lookup j m | some v ↦ some v ]
unfolding collect lookup
lookup-collect j [] m h = refl
lookup-collect j ((k, v) ∷ ps) m h =
    ground (arith, bytes_eq_iff k j, lookup-collect j ps (insert k v m) h.1, lookup-insert k j v m)

collect-IsUnique : (ps m : Map Bytes Bytes) → IsUnique m → IsUnique (collect ps m)
unfolding collect
collect-IsUnique [] m h = h
collect-IsUnique ((k, v) ∷ ps) m h = collect-IsUnique ps _ (insert-IsUnique k v m h)

module _ (kv : Kv) where
  merged-IsUnique :
      (p : Bytes) (d : Database kv) (base : Map Bytes Bytes)
      → IsUnique (overlay_all p d.sessions (collect base []))
  merged-IsUnique p d base = overlay_all-IsUnique p d.sessions _ (collect-IsUnique base [] tt)

  -- The answer of a scan that succeeds holds exactly what `Get` shows under the prefix, with its
  -- value, and its keys rise strictly in byte order.
  pub scan-get :
      (p : Bytes) (d : Database kv) {m : Map Bytes Bytes}
      → IsValid kv d
      → scan kv p d ≡ ok m
      → ((k : Bytes) → lookup k m ≡ (if has_prefix k p then readable (get kv k d) else none))
        × IsSorted m
  unfolding scan get lookup
  scan-get p d {m} h q =
      let (base, f, e) = >>=-succeeds _ _ (kv.scan p d.base) q in
      let u = merged-IsUnique p d base in
      (
        λ k. ground (
          arith,
          f,
          lookup-sort k (overlay_all p d.sessions (collect base [])) u,
          lookup-overlay_all p k d.sessions (collect base []) h.1,
          lookup-collect k base [] (kv.scan-IsUnique p d.base h.0 e),
          kv.lookup-scan p k d.base h.0 e,
        ),
        ground (arith, f, sort-IsSorted (overlay_all p d.sessions (collect base [])) u),
      )
