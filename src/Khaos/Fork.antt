-- ===== src/Khaos/Fork.antt =====
-- `GetBranch` of internal/khaos/khaos.go: the two branches back to their common ancestor.
pub mod Paths
pub mod Levels
pub mod Ancestor
use go_tron.Prelude.{ℕ, zero, suc, true, false, Option, none, some, List, [], ◌∷◌, ◌++◌, ◌==◌}
use go_tron.Prelude.Int.{ℤ, ltb_ℤ}
use go_tron.Prelude.Bytes.{Bytes}
use go_tron.Prelude.Result.{Result, ok, err}
use go_tron.Khaos.{Error, no_common_ancestor, Nodes, KhaosDb, num_at, parent_at, get}

module _ {Block : Type 0} where
  -- The first two loops of `GetBranch`: from `n` towards the root, while its number is above the
  -- limit. `none` means that the fuel ran out.
  unfoldable pub climb : ℕ → Nodes Block → ℤ → ℕ → List ℕ → Option (Result Error (List ℕ × ℕ))
  unfolding num_at parent_at
  climb zero ns limit n branch = none
  climb (suc fuel) ns limit n branch = elim (ltb_ℤ limit (num_at ns n)) [
    | true ↦ elim (parent_at ns n) [
      | none ↦ some (err no_common_ancestor)
      | some p ↦ climb fuel ns limit p (branch ++ n ∷ [])
    ]
    | false ↦ some (ok (branch, n))
  ]

  -- The third loop: both sides together, until they are at one node.
  unfoldable pub meet :
      ℕ → Nodes Block → ℕ → ℕ → List ℕ → List ℕ → Option (Result Error (List ℕ × List ℕ))
  unfolding parent_at
  meet zero ns n1 n2 branch1 branch2 = none
  meet (suc fuel) ns n1 n2 branch1 branch2 = elim (n1 == n2) [
    | true ↦ some (ok (branch1, branch2))
    | false ↦ elim (parent_at ns n1) [
      | none ↦ some (err no_common_ancestor)
      | some p1 ↦ elim (parent_at ns n2) [
        | none ↦ some (err no_common_ancestor)
        | some p2 ↦ meet fuel ns p1 p2 (branch1 ++ n1 ∷ []) (branch2 ++ n2 ∷ [])
      ]
    ]
  ]

  -- The second and the third loop, from where the first one stopped. A node's address bounds the
  -- nodes above it, so each loop has enough fuel.
  unfoldable pub rest_of : Nodes Block → ℕ → List ℕ → ℕ → Option (Result Error (List ℕ × List ℕ))
  unfolding climb meet num_at
  rest_of ns n2 branch1 m1 = elim (climb (suc n2) ns (num_at ns m1) n2 []) [
    | none ↦ none
    | some (err e) ↦ some (err e)
    | some (ok (branch2, m2)) ↦ meet (suc m1) ns m1 m2 branch1 branch2
  ]

  unfoldable pub branches : Nodes Block → ℕ → ℕ → Option (Result Error (List ℕ × List ℕ))
  unfolding climb rest_of num_at
  branches ns n1 n2 = elim (climb (suc n1) ns (num_at ns n2) n1 []) [
    | none ↦ none
    | some (err e) ↦ some (err e)
    | some (ok (branch1, m1)) ↦ rest_of ns n2 branch1 m1
  ]

  unfoldable pub get_branch :
      Bytes → Bytes → KhaosDb Block → Option (Result Error (List ℕ × List ℕ))
  unfolding branches get
  get_branch id1 id2 k = elim (get id1 k) [
    | none ↦ some (err no_common_ancestor)
    | some n1 ↦ elim (get id2 k) [
      | none ↦ some (err no_common_ancestor)
      | some n2 ↦ branches k.nodes n1 n2
    ]
  ]
