-- ===== src/Db/MemKv.antt =====
-- kv.go, `MemKV`: the in-memory engine. Its lock guards each call, so a call is one step.

use go_tron.Prelude.{
  refl, Bool, true, false, Option, none, some, [], ◌∷◌, ◌≡◌, if◌then◌else◌, arith,
}
use go_tron.Prelude.Bytes.{Bytes, bytes_eq, bytes_eq_iff, bytes_eq_instance}
use go_tron.Prelude.Map.{
  Map, lookup, insert, erase, lookup-insert, lookup-erase, IsUnique, insert-IsUnique,
  erase-IsUnique,
}
use go_tron.Db.Sort.{has_prefix, sort, lookup-sort, sort-IsUnique}
use go_tron.Prelude.Result.{Result, ok, err}
use go_tron.Db.Kv.{Error, not_found, presence, readable, Kv}

pub record MemKv : Type 0 where
  pub m : Map Bytes Bytes

unfoldable pub new_mem_kv : MemKv
new_mem_kv = record { m = [] }

found : Option Bytes → Result Error Bytes
found none = err not_found
found (some v) = ok v

unfoldable pub get : Bytes → MemKv → Result Error Bytes
unfolding found
get key d = found (lookup key d.m)

unfoldable pub has : Bytes → MemKv → Result Error Bool
has key d = elim (lookup key d.m) [ none ↦ ok false | some _ ↦ ok true ]

unfoldable pub put : Bytes → Bytes → MemKv → MemKv × Option Error
put key value d = (record d { m = insert key value d.m }, none)

unfoldable pub delete : Bytes → MemKv → MemKv × Option Error
delete key d = (record d { m = erase key d.m }, none)

-- The loop of `Scan`: the entries under the prefix.
select : Bytes → Map Bytes Bytes → Map Bytes Bytes
select p [] = []
select p ((k, v) ∷ m) = let rest = select p m in if has_prefix k p then (k, v) ∷ rest else rest

unfoldable pub scan : Bytes → MemKv → Result Error (Map Bytes Bytes)
unfolding select
scan prefix d = ok (sort (select prefix d.m))

pub get-put :
    (k j v : Bytes) (d : MemKv) → get j (put k v d).0 ≡ (if bytes_eq k j then ok v else get j d)
unfolding get put
get-put k j v d = ground (arith, lookup-insert k j v d.m)

pub get-delete :
    (k j : Bytes) (d : MemKv)
    → get j (delete k d).0 ≡ (if bytes_eq k j then err not_found else get j d)
unfolding get delete
get-delete k j d = ground (arith, lookup-erase k j d.m)

pub has_lem : (k : Bytes) (d : MemKv) → has k d ≡ presence (get k d)
unfolding get has
has_lem k d = ground arith

pub put-IsWf : (k v : Bytes) (d : MemKv) → IsUnique d.m → IsUnique (put k v d).0.m
unfolding put
put-IsWf k v d h = insert-IsUnique k v d.m h

pub delete-IsWf : (k : Bytes) (d : MemKv) → IsUnique d.m → IsUnique (delete k d).0.m
unfolding delete
delete-IsWf k d h = erase-IsUnique k d.m h

lookup-select :
    (p k : Bytes) (m : Map Bytes Bytes)
    → lookup k (select p m) ≡ (if has_prefix k p then lookup k m else none)
unfolding select lookup
lookup-select p k [] = ground arith
lookup-select p k ((j, v) ∷ m) = ground (arith, bytes_eq_iff j k, lookup-select p k m)

select-IsUnique : (p : Bytes) (m : Map Bytes Bytes) → IsUnique m → IsUnique (select p m)
unfolding select
select-IsUnique p [] h = tt
select-IsUnique p ((j, v) ∷ m) h = ground (arith, lookup-select p j m, select-IsUnique p m h.1)

scanned :
    (a : Map Bytes Bytes) {b : Map Bytes Bytes} (r : Result Error (Map Bytes Bytes))
    → r ≡ ok a
    → r ≡ ok b
    → a ≡ b
scanned a r h g = cc

pub scan-IsUnique :
    (p : Bytes) (d : MemKv) {m : Map Bytes Bytes} → IsUnique d.m → scan p d ≡ ok m → IsUnique m
unfolding scan
scan-IsUnique p d h e =
    rw (← scanned _ _ refl e) (sort-IsUnique (select p d.m) (select-IsUnique p d.m h))

pub lookup-scan :
    (p k : Bytes) (d : MemKv) {m : Map Bytes Bytes}
    → IsUnique d.m
    → scan p d ≡ ok m
    → lookup k m ≡ (if has_prefix k p then readable (get k d) else none)
unfolding scan get
lookup-scan p k d h e = ground (
  arith,
  scanned _ _ refl e,
  lookup-sort k (select p d.m) (select-IsUnique p d.m h),
  lookup-select p k d.m,
)

-- The in-memory engine implements the interface, and its writes never fail.
abbrev pub mem_kv : Kv
mem_kv = record {
  Store = MemKv;
  IsWf = λ d. IsUnique d.m;
  get = get;
  has = has;
  put = put;
  delete = delete;
  scan = scan;
  has_lem = has_lem;
  get-put = λ k j v d _. get-put k j v d;
  get-delete = λ k j d _. get-delete k j d;
  put-IsWf = put-IsWf;
  delete-IsWf = delete-IsWf;
  scan-IsUnique = scan-IsUnique;
  lookup-scan = lookup-scan;
}
