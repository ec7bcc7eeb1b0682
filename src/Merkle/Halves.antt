-- ===== src/Merkle/Halves.antt =====
-- The root of a block is the hash of the roots of its two parts.
use go_tron.Merkle.{next_level, levels, root}
use go_tron.Prelude.{
  ℕ, zero, suc, ◌+◌, ◌*◌, ◌/◌, ◌^◌, ◌≤◌, ◌<◌, ◌≡◌, ◌∙◌, sym, refl, ap, some, List, [], ◌∷◌, ◌++◌,
  length, length-append, arith,
}
use go_tron.Prelude.Bytes.{Bytes}

module _ (hash : Bytes → Bytes → Bytes) where
  length-next_level : (l : List Bytes) → length (next_level hash l) ≡ (length l + 1) / 2
  unfolding next_level
  length-next_level [] = omega arith
  length-next_level (x ∷ []) = omega arith
  length-next_level (x ∷ y ∷ l) = omega (arith, length-next_level l)

  -- More fuel than nodes changes nothing.
  levels-fuel :
      (n m : ℕ) (l : List Bytes) → length l ≤ n → length l ≤ m → levels hash n l ≡ levels hash m l
  unfolding levels
  levels-fuel zero zero l h k = refl
  levels-fuel zero (suc m) [] h k = refl
  levels-fuel zero (suc m) (x ∷ l) h k = elim h [ ]
  levels-fuel (suc n) zero [] h k = refl
  levels-fuel (suc n) zero (x ∷ l) h k = elim k [ ]
  levels-fuel (suc n) (suc m) [] h k = refl
  levels-fuel (suc n) (suc m) (x ∷ []) h k = refl
  levels-fuel (suc n) (suc m) (x ∷ y ∷ l) h k =
      levels-fuel n m (next_level hash (x ∷ y ∷ l)) (omega (arith, length-next_level (x ∷ y ∷ l)))
        (omega (arith, length-next_level (x ∷ y ∷ l)))

  -- A level has the root of the next one.
  root-next_level : (l : List Bytes) → 0 < length l → root hash l ≡ root hash (next_level hash l)
  unfolding root levels next_level
  root-next_level [] p = elim p [ ]
  root-next_level (x ∷ []) p = refl
  root-next_level (x ∷ y ∷ l) p =
      levels-fuel (suc (length l)) (suc (length (next_level hash l))) (hash x y ∷ next_level hash l)
        (omega (arith, length-next_level l)) (omega arith)

  not_suc : (n : ℕ) → ¬ (suc n ≡ 0)
  not_suc n e = omega arith

  one_is_odd : (m : ℕ) → ¬ (1 ≡ 2 * m)
  one_is_odd m e = omega arith

  next_level-append :
      (m : ℕ) (xs ys : List Bytes)
      → length xs ≡ 2 * m
      → next_level hash (xs ++ ys) ≡ next_level hash xs ++ next_level hash ys
  unfolding next_level
  next_level-append m [] ys e = refl
  next_level-append m (x ∷ []) ys e = absurd (one_is_odd m e)
  next_level-append zero (x ∷ y ∷ xs) ys e = absurd (not_suc (suc (length xs)) (omega (arith, e)))
  next_level-append (suc m) (x ∷ y ∷ xs) ys e =
      ap (λ t. hash x y ∷ t) (next_level-append m xs ys (omega arith))

  two_leaves :
      (xs ys : List Bytes)
      → length xs ≡ 1
      → length ys ≡ 1
      → (a : Bytes) × (b : Bytes) × (root hash xs ≡ some a)
        × (root hash ys ≡ some b)
        × (root hash (xs ++ ys) ≡ some (hash a b))
  unfolding root levels next_level
  two_leaves [] ys e f = absurd (not_suc 0 (sym e))
  two_leaves (x ∷ []) [] e f = absurd (not_suc 0 (sym f))
  two_leaves (x ∷ []) (y ∷ []) e f = (x, y, refl, refl, refl)
  two_leaves (x ∷ []) (y ∷ z ∷ ys) e f = absurd (not_suc (length ys) (omega (arith, f)))
  two_leaves (x ∷ z ∷ xs) ys e f = absurd (not_suc (length xs) (omega (arith, e)))

  -- A full tree beside one that is at most as large: the root is the hash of both roots, whatever
  -- odd nodes were promoted in the second one, and each of the three loops ends with a root. It
  -- holds where the first part has a power of two of leaves, and the second part has some, at most
  -- as many.
  pub root-append :
      (k : ℕ) (xs ys : List Bytes)
      → length xs ≡ 2 ^ k
      → 0 < length ys
      → length ys ≤ 2 ^ k
      → (a : Bytes) × (b : Bytes) × (root hash xs ≡ some a)
        × (root hash ys ≡ some b)
        × (root hash (xs ++ ys) ≡ some (hash a b))
  root-append zero xs ys e p q = two_leaves xs ys (omega arith) (omega arith)
  root-append (suc k) xs ys e p q =
      let double : 2 ^ suc k ≡ 2 * 2 ^ k = omega arith in
      let (a, b, f, g, h) =
        root-append k (next_level hash xs) (next_level hash ys)
          (omega (arith, length-next_level xs)) (omega (arith, length-next_level ys))
          (omega (arith, length-next_level ys)) in
      (
        a,
        b,
        root-next_level xs (omega arith) ∙ f,
        root-next_level ys p ∙ g,
        root-next_level (xs ++ ys) (omega (arith, length-append xs ys))
            ∙ ap (root hash) (next_level-append (2 ^ k) xs ys (omega arith))
            ∙ h,
      )
