-- ===== src/Tvm/Memory.antt =====
-- internal/tvm/memory.go. A slice expression out of range panics: `none`.
pub mod View
use go_tron.Prelude.{
  ℕ, zero, suc, ◌+◌, ◌-◌, ◌*◌, ◌/◌, ◌%◌, ◌^◌, Bool, true, false, if◌then◌else◌, ltb, leb, ◌==◌,
  length, take, drop, replicate, List, [], ◌∷◌, ◌++◌, Option, none, some,
}
use go_tron.Prelude.Bytes.{Bytes}

pub record Memory : Type 0 where
  pub store : Bytes

abbrev pub new_memory : Memory
new_memory = record { store = [] }

abbrev pub len : Memory → ℕ
len m = length m.store

abbrev pub words : Memory → ℕ
words m = len m / 32

unfoldable pub words_for_bytes : ℕ → ℕ
words_for_bytes n = (n + 31) % 2 ^ 64 / 32

unfoldable pub resize : Memory → ℕ → Memory
unfolding words_for_bytes
resize m size =
    let need = words_for_bytes size * 32 in
    if leb need (len m) then m else record { store = m.store ++ replicate (need - len m) 0 }

-- Go's `copy`: as many bytes as both slices have.
abbrev pub copy : Bytes → Bytes → Bytes
copy [] value = []
copy (x ∷ xs) [] = x ∷ xs
copy (x ∷ xs) (y ∷ ys) = y ∷ copy xs ys

-- `copy(store[offset:], value)`.
abbrev pub copy_at : Bytes → ℕ → Bytes → Bytes
copy_at xs zero value = copy xs value
copy_at [] (suc offset) value = []
copy_at (x ∷ xs) (suc offset) value = x ∷ copy_at xs offset value

abbrev write : Memory → ℕ → Bytes → Option Memory
write m offset value =
    if ltb (len m) offset then none else some (record { store = copy_at m.store offset value })

unfoldable pub set : Memory → ℕ → Bytes → Option Memory
unfolding resize
set m offset value =
    if length value == 0
    then some m
    else write (resize m ((offset + length value) % 2 ^ 64)) offset value

-- The slice that is written ends 32 bytes behind the offset.
unfoldable pub set32 : Memory → ℕ → Bytes → Option Memory
unfolding resize
set32 m offset value =
    let grown = resize m ((offset + 32) % 2 ^ 64) in
    if ltb (len grown) ((offset + 32) % 2 ^ 64) then none else write grown offset value

abbrev read : Memory → ℕ → ℕ → Option (Bytes × Memory)
read m offset size =
    if ltb (len m) (offset + size) then none else some (take size (drop offset m.store), m)

-- The bytes, and the memory that the read has expanded.
unfoldable pub get : Memory → ℕ → ℕ → Option (Bytes × Memory)
unfolding resize
get m offset size =
    if size == 0 then some ([], m) else read (resize m ((offset + size) % 2 ^ 64)) offset size
