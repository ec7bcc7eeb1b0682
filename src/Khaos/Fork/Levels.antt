-- ===== src/Khaos/Fork/Levels.antt =====
-- The numbers of a tree with one root, and where the loop over one side stops in it.
use go_tron.Prelude.{
  ℕ, zero, suc, ◌+◌, ltb→lt, ◌<◌, Option, none, some, List, [], ◌∷◌, ◌++◌, ◌≡◌, refl, length, arith,
  Bool-cases, Option-cases, inl, inr,
}
use go_tron.Prelude.Int.{ℤ, ◌≤ℤ◌, ltb_ℤ, pos_part, neg_part}
use go_tron.Prelude.Result.{Result, ok, err}
use go_tron.Khaos.{Error, Nodes, num_at, parent_at}
use go_tron.Khaos.Fork.{climb}
use go_tron.Khaos.Invariant.{IsWf, parent_at-lt}

-- a = b + 1, a = b and a < b, on the parts of the integers.
abbrev pub IsNext : ℤ → ℤ → Type 0
IsNext a b = pos_part a + neg_part b ≡ suc (pos_part b + neg_part a)

abbrev pub IsSame : ℤ → ℤ → Type 0
IsSame a b = pos_part a + neg_part b ≡ pos_part b + neg_part a

abbrev pub IsBelow : ℤ → ℤ → Type 0
IsBelow a b = pos_part a + neg_part b < pos_part b + neg_part a

abbrev pub All : (ℕ → Type 0) → List ℕ → Type 0
All P [] = Unit
All P (x ∷ xs) = P x × All P xs

module _ {Block : Type 0} where
  -- Every block is numbered one above its parent, and only the first node has none.
  pub record IsTree (ns : Nodes Block) : Type 0 where
    pub wf : IsWf ns
    pub numbered : (a p : ℕ) → parent_at ns a ≡ some p → IsNext (num_at ns a) (num_at ns p)
    pub rooted : (a : ℕ) → a < length ns → parent_at ns a ≡ none → a ≡ 0

  module _ (ns : Nodes Block) (t : IsTree ns) where
    pub root-lowest : (k a : ℕ) → a < k → a < length ns → num_at ns 0 ≤ℤ num_at ns a
    root-lowest zero a h l = absurd (omega arith)
    root-lowest (suc k) a h l = elim (Option-cases (parent_at ns a)) [
      | inl root ↦ rw (t.rooted a l root) (omega arith)
      | inr (p, e) ↦
          let q : p < a = parent_at-lt ns a p t.wf e in
          omega (arith, t.numbered a p e, root-lowest k p (omega arith) (omega arith))
    ]

    pub root_unique : (a : ℕ) → a < length ns → num_at ns a ≤ℤ num_at ns 0 → a ≡ 0
    root_unique a l h = elim (Option-cases (parent_at ns a)) [
      | inl root ↦ t.rooted a l root
      | inr (p, e) ↦
          let q : p < a = parent_at-lt ns a p t.wf e in
          absurd
            (omega (arith, t.numbered a p e, root-lowest (suc p) p (omega arith) (omega arith)))
    ]

    -- A node above the root's number has a parent, one number below.
    pub has_parent :
        (a : ℕ)
        → a < length ns
        → IsBelow (num_at ns 0) (num_at ns a)
        → (p : ℕ) × (parent_at ns a ≡ some p) × (p < a) × IsNext (num_at ns a) (num_at ns p)
    has_parent a l b = elim (Option-cases (parent_at ns a)) [
      | inl root ↦ absurd (above_itself a (t.rooted a l root) b)
      | inr (p, e) ↦ (p, e, parent_at-lt ns a p t.wf e, t.numbered a p e)
    ]
      where
        lt_irrefl : ¬ IsBelow (num_at ns 0) (num_at ns 0)
        lt_irrefl b = omega arith

        above_itself : (a : ℕ) → a ≡ 0 → ¬ IsBelow (num_at ns 0) (num_at ns a)
        above_itself a z b = lt_irrefl (rw z at b)

    abbrev pub AllAbove : ℕ → List ℕ → Type 0
    AllAbove n = All (λ x. IsBelow (num_at ns n) (num_at ns x))

    pub AllAbove-next :
        (n p : ℕ) (xs : List ℕ)
        → IsNext (num_at ns n) (num_at ns p)
        → AllAbove n xs
        → AllAbove p (xs ++ n ∷ [])
    AllAbove-next n p [] s h = (omega arith, tt)
    AllAbove-next n p (x ∷ xs) s h = (omega arith, AllAbove-next n p xs s h.1)

    -- Where the loop over one side stops: at the limit, or at once. What it passed is above.
    abbrev pub Level : ℤ → ℕ → List ℕ → Option (Result Error (List ℕ × ℕ)) → Type 0
    Level limit n xs none = ⊥
    Level limit n xs (some (err e)) = ⊥
    Level limit n xs (some (ok (ys, m))) =
        (m < length ns)
        × (limit ≤ℤ num_at ns n → IsSame (num_at ns m) limit)
        × (num_at ns n ≤ℤ limit → (m ≡ n) × (ys ≡ xs))
        × AllAbove m ys

    Level-next :
        (limit : ℤ) (n p : ℕ) (xs ys : List ℕ) (r : Option (Result Error (List ℕ × ℕ)))
        → IsBelow limit (num_at ns n)
        → IsNext (num_at ns n) (num_at ns p)
        → Level limit p ys r
        → Level limit n xs r
    Level-next limit n p xs ys none c s v = v
    Level-next limit n p xs ys (some (err e)) c s v = v
    Level-next limit n p xs ys (some (ok (zs, m))) c s v =
        (v.0, λ _. v.1 (omega arith), λ q. absurd (omega arith), v.3)

    pub climb-Level :
        (fuel : ℕ) (limit : ℤ) (n : ℕ) (xs : List ℕ)
        → n < fuel
        → n < length ns
        → num_at ns 0 ≤ℤ limit
        → AllAbove n xs
        → Level limit n xs (climb fuel ns limit n xs)
    unfolding climb
    climb-Level zero limit n xs h l b u = absurd (omega arith)
    climb-Level (suc fuel) limit n xs h l b u = elim (Bool-cases (ltb_ℤ limit (num_at ns n))) [
      | inr stop ↦ rw (stop, Level) (l, λ q. ground arith, λ _. (refl, refl), u)
      | inl go ↦
          let c : IsBelow limit (num_at ns n) = ltb→lt _ _ go in
          let (p, e, q, s) = has_parent n l (omega arith) in
          rw (go, e, Level)
            (Level-next limit n p xs (xs ++ n ∷ []) (climb fuel ns limit p (xs ++ n ∷ [])) c s (
              climb-Level fuel limit p (xs ++ n ∷ []) (omega arith) (omega arith) b
                (AllAbove-next n p xs s u)))
    ]
