-- ===== src/Db/Sort.antt =====
-- `sort.Slice` by `bytes.Compare` on the keys, as both scans of internal/db end.
use go_tron.Prelude.{
  Bool, true, false, ◌&&◌, ◌||◌, none, some, [], ◌∷◌, ◌≡◌, refl, if◌then◌else◌, arith, ltb, ◌==◌,
  ◌∙◌,
}
use go_tron.Prelude.Bytes.{Bytes, bytes_eq, bytes_eq_iff, bytes_eq_instance}
use go_tron.Prelude.Map.{Map, lookup, IsUnique}

-- `bytes.Compare(a, b) < 0`
abbrev pub bytes_ltb : Bytes → Bytes → Bool
bytes_ltb [] [] = false
bytes_ltb [] (y ∷ ys) = true
bytes_ltb (x ∷ xs) [] = false
bytes_ltb (x ∷ xs) (y ∷ ys) = ltb x y || ((x == y) && bytes_ltb xs ys)

-- `strings.HasPrefix(k, p)`
abbrev pub has_prefix : Bytes → Bytes → Bool
has_prefix k [] = true
has_prefix [] (y ∷ ys) = false
has_prefix (x ∷ xs) (y ∷ ys) = (x == y) && has_prefix xs ys

insert_sorted : Bytes → Bytes → Map Bytes Bytes → Map Bytes Bytes
insert_sorted k v [] = (k, v) ∷ []
insert_sorted k v ((j, w) ∷ m) =
    if bytes_ltb k j then (k, v) ∷ (j, w) ∷ m else (j, w) ∷ insert_sorted k v m

unfoldable pub sort : Map Bytes Bytes → Map Bytes Bytes
unfolding insert_sorted
sort [] = []
sort ((k, v) ∷ m) = insert_sorted k v (sort m)

bytes_ltb_total :
    (a b : Bytes) → bytes_ltb a b ≡ false → bytes_eq a b ≡ false → bytes_ltb b a ≡ true
bytes_ltb_total [] [] h q = cc
bytes_ltb_total [] (y ∷ ys) h q = cc
bytes_ltb_total (x ∷ xs) [] h q = refl
bytes_ltb_total (x ∷ xs) (y ∷ ys) h q = ground (arith, bytes_ltb_total xs ys)

-- The keys rise strictly.
abbrev pub IsSorted : Map Bytes Bytes → Type 0
IsSorted [] = Unit
IsSorted ((k, v) ∷ []) = Unit
IsSorted ((k, v) ∷ (j, w) ∷ m) = (bytes_ltb k j ≡ true) × IsSorted ((j, w) ∷ m)

lookup-insert_sorted :
    (k j v : Bytes) (m : Map Bytes Bytes)
    → lookup k m ≡ none
    → lookup j (insert_sorted k v m) ≡ (if bytes_eq k j then some v else lookup j m)
unfolding insert_sorted lookup
lookup-insert_sorted k j v [] h = refl
lookup-insert_sorted k j v ((i, w) ∷ m) h =
    ground
      (arith, bytes_eq_iff k j, bytes_eq_iff i k, bytes_eq_iff i j, lookup-insert_sorted k j v m)

pub lookup-sort : (j : Bytes) (m : Map Bytes Bytes) → IsUnique m → lookup j (sort m) ≡ lookup j m
unfolding sort lookup
lookup-sort j [] h = refl
lookup-sort j ((k, v) ∷ m) h =
    ground (arith, lookup-insert_sorted k j v (sort m), lookup-sort k m h.1, lookup-sort j m h.1)

insert_sorted-IsSorted :
    (k v : Bytes) (m : Map Bytes Bytes)
    → lookup k m ≡ none
    → IsSorted m
    → IsSorted (insert_sorted k v m)
unfolding insert_sorted lookup
insert_sorted-IsSorted k v [] h s = tt
insert_sorted-IsSorted k v ((j, w) ∷ []) h s =
    ground (arith, bytes_ltb_total k j, bytes_eq_iff j k, bytes_eq_iff k j)
insert_sorted-IsSorted k v ((j, w) ∷ (i, u) ∷ m) h s = ground (
  arith,
  bytes_ltb_total k j,
  bytes_eq_iff j k,
  bytes_eq_iff k j,
  insert_sorted-IsSorted k v ((i, u) ∷ m),
)

pub sort-IsSorted : (m : Map Bytes Bytes) → IsUnique m → IsSorted (sort m)
unfolding sort
sort-IsSorted [] h = tt
sort-IsSorted ((k, v) ∷ m) h =
    insert_sorted-IsSorted k v (sort m) (lookup-sort k m h.1 ∙ h.0) (sort-IsSorted m h.1)

insert_sorted-IsUnique :
    (k v : Bytes) (m : Map Bytes Bytes)
    → lookup k m ≡ none
    → IsUnique m
    → IsUnique (insert_sorted k v m)
unfolding insert_sorted lookup
insert_sorted-IsUnique k v [] h u = (refl, tt)
insert_sorted-IsUnique k v ((j, w) ∷ m) h u = ground (
  arith,
  bytes_eq_iff j k,
  bytes_eq_iff k j,
  insert_sorted-IsUnique k v m,
  lookup-insert_sorted k j v m,
)

pub sort-IsUnique : (m : Map Bytes Bytes) → IsUnique m → IsUnique (sort m)
unfolding sort
sort-IsUnique [] h = tt
sort-IsUnique ((k, v) ∷ m) h =
    insert_sorted-IsUnique k v (sort m) (lookup-sort k m h.1 ∙ h.0) (sort-IsUnique m h.1)
