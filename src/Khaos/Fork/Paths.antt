-- ===== src/Khaos/Fork/Paths.antt =====
-- `GetBranch` always ends, and its two answers are paths of parents to one node.
use go_tron.Prelude.{
  ℕ, zero, suc, ◌<◌, Option, none, some, List, [], ◌∷◌, ◌++◌, ◌==◌, ==_iff, ◌≡◌, refl, sym, arith,
  Bool-cases, Option-cases, inl, inr,
}
use mathlib.Core.Path.{subst}
use go_tron.Prelude.Int.{ℤ, ltb_ℤ}
use go_tron.Prelude.Bytes.{Bytes}
use go_tron.Prelude.Result.{Result, ok, err}
use go_tron.Khaos.{Error, no_common_ancestor, Nodes, KhaosDb, num_at, parent_at, get}
use go_tron.Khaos.Fork.{climb, meet, rest_of, branches, get_branch}
use go_tron.Khaos.Invariant.{IsWf, parent_at-lt}

module _ {Block : Type 0} where
  -- `branch` lists the nodes from `n` on, each the parent of the one before, up to `a` left out.
  abbrev pub Leads : Nodes Block → ℕ → List ℕ → ℕ → Type 0
  Leads ns n [] a = n ≡ a
  Leads ns n (x ∷ xs) a = (x ≡ n) × ((p : ℕ) × (parent_at ns n ≡ some p) × Leads ns p xs a)

  pub Leads-append :
      (ns : Nodes Block) (n m p : ℕ) (xs : List ℕ)
      → Leads ns n xs m
      → parent_at ns m ≡ some p
      → Leads ns n (xs ++ m ∷ []) p
  Leads-append ns n m p [] e q = (sym e, (p, rw e q, refl))
  Leads-append ns n m p (x ∷ xs) (e, (r, s, l)) q = (e, (r, s, Leads-append ns r m p xs l q))

  -- What the loop over one side has found when it stops.
  abbrev Climbed : Nodes Block → ℕ → Option (Result Error (List ℕ × ℕ)) → Type 0
  Climbed ns n none = ⊥
  Climbed ns n (some (err e)) = e ≡ no_common_ancestor
  Climbed ns n (some (ok (xs, m))) = Leads ns n xs m

  climb-Climbed :
      (fuel : ℕ) (ns : Nodes Block) (limit : ℤ) (s n : ℕ) (xs : List ℕ)
      → IsWf ns
      → n < fuel
      → Leads ns s xs n
      → Climbed ns s (climb fuel ns limit n xs)
  unfolding climb
  climb-Climbed zero ns limit s n xs w h l = absurd (omega arith)
  climb-Climbed (suc fuel) ns limit s n xs w h l = elim (Bool-cases (ltb_ℤ limit (num_at ns n))) [
    | inr stop ↦ rw (stop, Climbed) l
    | inl go ↦
        rw (go, Climbed)
          (elim (Option-cases (parent_at ns n)) [
            | inl root ↦ rw (root, Climbed) refl
            | inr (p, e) ↦
                rw (e, Climbed)
                  (climb-Climbed fuel ns limit s p (xs ++ n ∷ []) w
                    (omega (arith, parent_at-lt ns n p w e)) (Leads-append ns s n p xs l e))
          ])
  ]

  -- What the loop over both sides has found when it stops.
  abbrev pub Met : Nodes Block → ℕ → ℕ → Option (Result Error (List ℕ × List ℕ)) → Type 0
  Met ns n1 n2 none = ⊥
  Met ns n1 n2 (some (err e)) = e ≡ no_common_ancestor
  Met ns n1 n2 (some (ok (xs, ys))) = (a : ℕ) × Leads ns n1 xs a × Leads ns n2 ys a

  meet-Met :
      (fuel : ℕ) (ns : Nodes Block) (s1 s2 n1 n2 : ℕ) (xs ys : List ℕ)
      → IsWf ns
      → n1 < fuel
      → Leads ns s1 xs n1
      → Leads ns s2 ys n2
      → Met ns s1 s2 (meet fuel ns n1 n2 xs ys)
  unfolding meet
  meet-Met zero ns s1 s2 n1 n2 xs ys w h l m = absurd (omega arith)
  meet-Met (suc fuel) ns s1 s2 n1 n2 xs ys w h l m = elim (Bool-cases (n1 == n2)) [
    | inl same ↦
        rw (same, Met) (n1, l, subst (λ a. Leads ns s2 ys a) (sym ((==_iff n1 n2).0 same)) m)
    | inr apart ↦ elim (Option-cases (parent_at ns n1)) [
      | inl root ↦ rw (apart, root, Met) refl
      | inr (p1, e1) ↦ elim (Option-cases (parent_at ns n2)) [
        | inl root ↦ rw (apart, e1, root, Met) refl
        | inr (p2, e2) ↦
            rw (apart, e1, e2, Met)
              (meet-Met fuel ns s1 s2 p1 p2 (xs ++ n1 ∷ []) (ys ++ n2 ∷ []) w
                (omega (arith, parent_at-lt ns n1 p1 w e1)) (Leads-append ns s1 n1 p1 xs l e1)
                (Leads-append ns s2 n2 p2 ys m e2))
      ]
    ]
  ]

  rest_of-Met :
      (ns : Nodes Block) (n1 n2 m1 : ℕ) (xs : List ℕ)
      → IsWf ns
      → Leads ns n1 xs m1
      → Met ns n1 n2 (rest_of ns n2 xs m1)
  unfolding rest_of
  rest_of-Met ns n1 n2 m1 xs w l =
      go (climb (suc n2) ns (num_at ns m1) n2 [])
        (climb-Climbed (suc n2) ns (num_at ns m1) n2 n2 [] w (omega arith) refl)
    where
      go :
          (r : Option (Result Error (List ℕ × ℕ)))
          → Climbed ns n2 r
          → Met ns n1 n2 (elim r [
            | none ↦ none
            | some (err e) ↦ some (err e)
            | some (ok (ys, m2)) ↦ meet (suc m1) ns m1 m2 xs ys
          ])
      go none c = absurd c
      go (some (err e)) c = c
      go (some (ok (ys, m2))) c = meet-Met (suc m1) ns n1 n2 m1 m2 xs ys w (omega arith) l c

  pub branches-Met : (ns : Nodes Block) (n1 n2 : ℕ) → IsWf ns → Met ns n1 n2 (branches ns n1 n2)
  unfolding branches
  branches-Met ns n1 n2 w =
      go (climb (suc n1) ns (num_at ns n2) n1 [])
        (climb-Climbed (suc n1) ns (num_at ns n2) n1 n1 [] w (omega arith) refl)
    where
      go :
          (r : Option (Result Error (List ℕ × ℕ)))
          → Climbed ns n1 r
          → Met ns n1 n2 (elim r [
            | none ↦ none
            | some (err e) ↦ some (err e)
            | some (ok (xs, m1)) ↦ rest_of ns n2 xs m1
          ])
      go none c = absurd c
      go (some (err e)) c = c
      go (some (ok (xs, m1))) c = rest_of-Met ns n1 n2 m1 xs w c

  -- A common answer of `GetBranch`, for two ids that are in the tree.
  abbrev pub Outcome : KhaosDb Block → Bytes → Bytes → Result Error (List ℕ × List ℕ) → Type 0
  Outcome k id1 id2 (err e) = e ≡ no_common_ancestor
  Outcome k id1 id2 (ok (xs, ys)) =
      (n1 : ℕ) × (n2 : ℕ) × (a : ℕ) × (get id1 k ≡ some n1)
      × (get id2 k ≡ some n2)
      × Leads k.nodes n1 xs a
      × Leads k.nodes n2 ys a

  -- On a heap whose parents are older than their children, `GetBranch` always ends, with enough
  -- fuel in each loop. It answers `ErrNoCommonAncestor`, or both ids are in the tree, and the two
  -- branches are the paths of parents from their nodes, tip first, to one node, itself left out.
  pub get_branch-Outcome :
      (k : KhaosDb Block) (id1 id2 : Bytes)
      → IsWf k.nodes
      → (r : Result Error (List ℕ × List ℕ)) × (get_branch id1 id2 k ≡ some r) × Outcome k id1 id2 r
  unfolding get_branch
  get_branch-Outcome k id1 id2 w = elim (Option-cases (get id1 k)) [
    | inl absent ↦ (err no_common_ancestor, rw (absent, get_branch), refl)
    | inr (n1, e1) ↦ elim (Option-cases (get id2 k)) [
      | inl absent ↦ (err no_common_ancestor, rw (e1, get_branch, absent), refl)
      | inr (n2, e2) ↦ rw (e1, get_branch, e2) (found n1 n2 e1 e2)
    ]
  ]
    where
      go :
          (n1 n2 : ℕ) (o : Option (Result Error (List ℕ × List ℕ)))
          → get id1 k ≡ some n1
          → get id2 k ≡ some n2
          → Met k.nodes n1 n2 o
          → (r : Result Error (List ℕ × List ℕ)) × (o ≡ some r) × Outcome k id1 id2 r
      go n1 n2 none e1 e2 m = absurd m
      go n1 n2 (some (err e)) e1 e2 m = (err e, refl, m)
      go n1 n2 (some (ok (xs, ys))) e1 e2 (a, l1, l2) =
          (ok (xs, ys), refl, (n1, n2, a, e1, e2, l1, l2))

      found :
          (n1 n2 : ℕ)
          → get id1 k ≡ some n1
          → get id2 k ≡ some n2
          → (r : Result Error (List ℕ × List ℕ)) × (branches k.nodes n1 n2 ≡ some r)
            × Outcome k id1 id2 r
      found n1 n2 e1 e2 = go n1 n2 (branches k.nodes n1 n2) e1 e2 (branches-Met k.nodes n1 n2 w)
