-- ===== src/Tests/Merkle.antt =====
-- Seven leaves, hashed by putting the two nodes beside each other.
use go_tron.Prelude.{◌≡◌, refl, some, List, [], ◌∷◌, ◌++◌, arith}
use go_tron.Prelude.Bytes.{Bytes}
use go_tron.Merkle.{root}
use go_tron.Merkle.Halves.{root-append}

abbrev beside : Bytes → Bytes → Bytes
beside l r = 0 ∷ l ++ r

abbrev four : List Bytes
four = (1 ∷ []) ∷ (2 ∷ []) ∷ (3 ∷ []) ∷ (4 ∷ []) ∷ []

abbrev three : List Bytes
three = (5 ∷ []) ∷ (6 ∷ []) ∷ (7 ∷ []) ∷ []

root-append_example :
    (a : Bytes) × (b : Bytes) × (root beside four ≡ some a)
    × (root beside three ≡ some b)
    × (root beside (four ++ three) ≡ some (beside a b))
root-append_example = root-append beside 2 four three refl (omega arith) (omega arith)
