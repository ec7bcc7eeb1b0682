-- ===== src/Khaos/Fork/Ancestor.antt =====
-- On a tree with one root, numbered from it upwards, `GetBranch` finds the common ancestor.
use go_tron.Prelude.{
  ℕ, zero, suc, ◌+◌, ◌<◌, Option, none, some, List, [], ◌∷◌, ◌++◌, ◌==◌, ◌≡◌, ◌≢◌, refl, sym, ◌∙◌,
  length, arith, Bool-cases, inl, inr,
}
use native.Mathlib.Decide.{dec_lt}
use go_tron.Prelude.Int.{◌≤ℤ◌, pos_part, neg_part}
use go_tron.Prelude.Bytes.{Bytes}
use go_tron.Prelude.Result.{Result, ok, err}
use go_tron.Khaos.{Error, Nodes, KhaosDb, num_at, get}
use go_tron.Khaos.Fork.{climb, meet, rest_of, branches, get_branch}
use go_tron.Khaos.Fork.Paths.{Leads, Met, branches-Met}
use go_tron.Khaos.Fork.Levels.{
  All, IsTree, IsSame, IsBelow, AllAbove, AllAbove-next, Level, climb-Level, has_parent,
  root_unique, root-lowest,
}

-- Two branches share no node.
abbrev pub IsApart : List ℕ → List ℕ → Type 0
IsApart xs ys = All (λ x. All (λ y. x ≢ y) ys) xs

IsApart-nil : (xs : List ℕ) → IsApart xs []
IsApart-nil [] = tt
IsApart-nil (x ∷ xs) = (tt, IsApart-nil xs)

module _ {Block : Type 0} where
  module _ (ns : Nodes Block) (t : IsTree ns) where
    abbrev Splits : Option (Result Error (List ℕ × List ℕ)) → Type 0
    Splits none = ⊥
    Splits (some (err e)) = ⊥
    Splits (some (ok (xs, ys))) = IsApart xs ys

    below-ne : (a b : ℕ) → IsBelow (num_at ns a) (num_at ns b) → b ≢ a
    below-ne a b h e = lt_irrefl a (rw e at h)
      where
        lt_irrefl : (a : ℕ) → ¬ IsBelow (num_at ns a) (num_at ns a)
        lt_irrefl a h = omega arith

    ne-All : (n : ℕ) (ys : List ℕ) → AllAbove ns t n ys → All (λ y. n ≢ y) ys
    ne-All n [] h = tt
    ne-All n (y ∷ ys) h = (λ e. below-ne n y h.0 (sym e), ne-All n ys h.1)

    All-append_one : (P : ℕ → Type 0) (xs : List ℕ) (x : ℕ) → All P xs → P x → All P (xs ++ x ∷ [])
    All-append_one P [] x h p = (p, tt)
    All-append_one P (y ∷ xs) x h p = (h.0, All-append_one P xs x h.1 p)

    IsApart-next :
        (n1 n2 : ℕ) (xs ys : List ℕ)
        → n1 ≢ n2
        → AllAbove ns t n2 xs
        → AllAbove ns t n1 ys
        → IsApart xs ys
        → IsApart (xs ++ n1 ∷ []) (ys ++ n2 ∷ [])
    IsApart-next n1 n2 [] ys d u v a = (All-append_one (λ y. n1 ≢ y) ys n2 (ne-All n1 ys v) d, tt)
    IsApart-next n1 n2 (x ∷ xs) ys d u v a = (
      All-append_one (λ y. x ≢ y) ys n2 a.0 (below-ne n2 x u.0),
      IsApart-next n1 n2 xs ys d u.1 v a.1,
    )

    AllAbove-same :
        (n m : ℕ) (xs : List ℕ)
        → IsSame (num_at ns n) (num_at ns m)
        → AllAbove ns t n xs
        → AllAbove ns t m xs
    AllAbove-same n m [] s h = tt
    AllAbove-same n m (x ∷ xs) s h = (omega arith, AllAbove-same n m xs s h.1)

    -- Two different nodes of one number are both above the root.
    above_root :
        (n1 n2 : ℕ)
        → n1 < length ns
        → n2 < length ns
        → IsSame (num_at ns n1) (num_at ns n2)
        → n1 ≢ n2
        → IsBelow (num_at ns 0) (num_at ns n1)
    above_root n1 n2 l1 l2 s d =
        elim (dec_lt (pos_part (num_at ns 0) + neg_part (num_at ns n1))
          (pos_part (num_at ns n1) + neg_part (num_at ns 0))) [
            | yes h ↦ h
            | no h ↦ absurd (
                d (
                  root_unique ns t n1 l1 (omega arith)
                  ∙ sym (root_unique ns t n2 l2 (omega arith))))
          ]

    meet-Splits :
        (fuel n1 n2 : ℕ) (xs ys : List ℕ)
        → n1 < fuel
        → n1 < length ns
        → n2 < length ns
        → IsSame (num_at ns n1) (num_at ns n2)
        → AllAbove ns t n1 xs
        → AllAbove ns t n2 xs
        → AllAbove ns t n1 ys
        → AllAbove ns t n2 ys
        → IsApart xs ys
        → Splits (meet fuel ns n1 n2 xs ys)
    unfolding meet
    meet-Splits zero n1 n2 xs ys h l1 l2 s u1 u2 v1 v2 a = absurd (omega arith)
    meet-Splits (suc fuel) n1 n2 xs ys h l1 l2 s u1 u2 v1 v2 a = elim (Bool-cases (n1 == n2)) [
      | inl same ↦ rw (same, Splits) a
      | inr apart ↦
          let d : n1 ≢ n2 = ground arith in
          let b : IsBelow (num_at ns 0) (num_at ns n1) = above_root n1 n2 l1 l2 s d in
          let (p1, e1, q1, s1) = has_parent ns t n1 l1 b in
          let (p2, e2, q2, s2) = has_parent ns t n2 l2 (omega arith) in
          rw (apart, e1, e2, Splits)
            (meet-Splits fuel p1 p2 (xs ++ n1 ∷ []) (ys ++ n2 ∷ []) (omega arith) (omega arith)
              (omega arith) (omega arith) (AllAbove-next ns t n1 p1 xs s1 u1)
              (AllAbove-next ns t n1 p2 xs (omega arith) u1)
              (AllAbove-next ns t n2 p1 ys (omega arith) v2) (AllAbove-next ns t n2 p2 ys s2 v2)
              (IsApart-next n1 n2 xs ys d u2 v1 a))
    ]

    -- From where the first loop stopped, the other two end in two branches that share no node.
    rest_of-Splits :
        (n1 n2 m1 : ℕ) (xs : List ℕ)
        → n1 < length ns
        → n2 < length ns
        → Level ns t (num_at ns n2) n1 [] (some (ok (xs, m1)))
        → Splits (rest_of ns n2 xs m1)
    unfolding rest_of
    rest_of-Splits n1 n2 m1 xs l1 l2 v = go (climb (suc n2) ns (num_at ns m1) n2 []) (
        climb-Level ns t (suc n2) (num_at ns m1) n2 [] (omega arith) l2
          (root-lowest ns t (suc m1) m1 (omega arith) v.0) tt)
      where
        -- `n2` is not below the node at which the first loop stopped.
        above : num_at ns m1 ≤ℤ num_at ns n2
        above =
            elim (dec_lt (pos_part (num_at ns n1) + neg_part (num_at ns n2))
              (pos_part (num_at ns n2) + neg_part (num_at ns n1))) [
                | yes h ↦ rw ((v.2 (omega arith)).0) (omega arith)
                | no h ↦ let s = v.1 (omega arith) in omega arith
              ]

        apart : (ys : List ℕ) → (num_at ns n2 ≤ℤ num_at ns m1 → ys ≡ []) → IsApart xs ys
        apart ys h =
            elim (dec_lt (pos_part (num_at ns n1) + neg_part (num_at ns n2))
              (pos_part (num_at ns n2) + neg_part (num_at ns n1))) [
                | yes b ↦ rw ((v.2 (omega arith)).1) tt
                | no b ↦ let s = v.1 (omega arith) in rw (h (omega arith)) (IsApart-nil xs)
              ]

        go :
            (r : Option (Result Error (List ℕ × ℕ)))
            → Level ns t (num_at ns m1) n2 [] r
            → Splits (elim r [
              | none ↦ none
              | some (err e) ↦ some (err e)
              | some (ok (ys, m2)) ↦ meet (suc m1) ns m1 m2 xs ys
            ])
        go none c = c
        go (some (err e)) c = c
        go (some (ok (ys, m2))) c =
            let same : IsSame (num_at ns m2) (num_at ns m1) = c.1 above in
            meet-Splits (suc m1) m1 m2 xs ys (omega arith) v.0 c.0 (omega arith) v.3
              (AllAbove-same m1 m2 xs (omega arith) v.3) (AllAbove-same m2 m1 ys (omega arith) c.3)
              c.3 (apart ys (λ q. (c.2 q).1))

    branches-Splits : (n1 n2 : ℕ) → n1 < length ns → n2 < length ns → Splits (branches ns n1 n2)
    unfolding branches
    branches-Splits n1 n2 l1 l2 = go (climb (suc n1) ns (num_at ns n2) n1 []) (
        climb-Level ns t (suc n1) (num_at ns n2) n1 [] (omega arith) l1
          (root-lowest ns t (suc n2) n2 (omega arith) l2) tt)
      where
        go :
            (r : Option (Result Error (List ℕ × ℕ)))
            → Level ns t (num_at ns n2) n1 [] r
            → Splits (elim r [
              | none ↦ none
              | some (err e) ↦ some (err e)
              | some (ok (xs, m1)) ↦ rest_of ns n2 xs m1
            ])
        go none c = c
        go (some (err e)) c = c
        go (some (ok (xs, m1))) c = rest_of-Splits n1 n2 m1 xs l1 l2 c

  -- In a tree with one root whose blocks are numbered one above their parents, `GetBranch` of two
  -- ids of the tree succeeds: its branches are the paths of parents from the two nodes, tip first,
  -- to a common ancestor, itself left out, and no node stands in both, so no later node is one.
  pub get_branch-common_ancestor :
      (k : KhaosDb Block) (id1 id2 : Bytes) (n1 n2 : ℕ)
      → IsTree k.nodes
      → get id1 k ≡ some n1
      → get id2 k ≡ some n2
      → n1 < length k.nodes
      → n2 < length k.nodes
      → (xs : List ℕ) × (ys : List ℕ) × (a : ℕ) × (get_branch id1 id2 k ≡ some (ok (xs, ys)))
        × Leads k.nodes n1 xs a
        × Leads k.nodes n2 ys a
        × IsApart xs ys
  unfolding get_branch
  get_branch-common_ancestor k id1 id2 n1 n2 t e1 e2 l1 l2 =
      rw (e1, get_branch, e2)
        (go (branches k.nodes n1 n2) (branches-Met k.nodes n1 n2 t.wf)
          (branches-Splits k.nodes t n1 n2 l1 l2))
    where
      go :
          (r : Option (Result Error (List ℕ × List ℕ)))
          → Met k.nodes n1 n2 r
          → Splits k.nodes t r
          → (xs : List ℕ) × (ys : List ℕ) × (a : ℕ) × (r ≡ some (ok (xs, ys)))
            × Leads k.nodes n1 xs a
            × Leads k.nodes n2 ys a
            × IsApart xs ys
      go none m s = absurd m
      go (some (err e)) m s = absurd s
      go (some (ok (xs, ys))) m s = (xs, ys, m.0, refl, m.1, m.2, s)
