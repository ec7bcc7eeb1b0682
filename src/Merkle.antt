-- ===== src/Merkle.antt =====
-- internal/merkle/merkle.go: the Merkle root of a block's transactions, over any hash of two nodes
-- (`crypto.Sha256(left, right)`, which calls a library).
pub mod Halves
use go_tron.Prelude.{ℕ, zero, suc, Option, none, some, List, [], ◌∷◌, length}
use go_tron.Prelude.Bytes.{Bytes}

module _ (hash : Bytes → Bytes → Bytes) where
  -- The inner loop: an odd node is promoted unchanged.
  unfoldable pub next_level : List Bytes → List Bytes
  next_level [] = []
  next_level (x ∷ []) = x ∷ []
  next_level (x ∷ y ∷ level) = hash x y ∷ next_level level

  -- The outer loop. `none` means that the fuel ran out, which the number of leaves prevents.
  unfoldable pub levels : ℕ → List Bytes → Option Bytes
  unfolding next_level
  levels zero level = none
  levels (suc fuel) [] = none
  levels (suc fuel) (x ∷ []) = some x
  levels (suc fuel) (x ∷ y ∷ level) = levels fuel (next_level (x ∷ y ∷ level))

  -- The source's `nil` for no leaves is the empty string.
  unfoldable pub root : List Bytes → Option Bytes
  unfolding levels
  root [] = some []
  root (x ∷ leaves) = levels (length (x ∷ leaves)) (x ∷ leaves)
