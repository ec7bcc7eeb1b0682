-- ===== src/Address/Positional.antt =====
-- Numbers and their digits in a base, in either order.
use go_tron.Address.Base58.{rev_append, le_digits, horner, leading}
use go_tron.Prelude.{
  ℕ, zero, suc, ◌+◌, ◌*◌, ◌/◌, ◌%◌, ◌≤◌, ◌<◌, ◌≡◌, ◌∙◌, refl, sym, ap, false, List, [], ◌∷◌, ◌++◌,
  ◌==◌, replicate, Bool-cases, inl, inr, arith,
}
use go_tron.Prelude.Arith.{mul_mono_left}

module _ {ℓ} {A : Type ℓ} where
  pub rev_append-rev_append :
      (xs ys zs : List A) → rev_append (rev_append xs ys) zs ≡ rev_append ys (xs ++ zs)
  rev_append-rev_append [] ys zs = refl
  rev_append-rev_append (x ∷ xs) ys zs = rev_append-rev_append xs (x ∷ ys) zs

  pub rev_append-append :
      (xs ys zs : List A) → rev_append (xs ++ ys) zs ≡ rev_append ys (rev_append xs zs)
  rev_append-append [] ys zs = refl
  rev_append-append (x ∷ xs) ys zs = rev_append-append xs ys (x ∷ zs)

  pub rev_append-replicate :
      (n : ℕ) (a : A) (xs : List A) → rev_append (replicate n a) xs ≡ replicate n a ++ xs
  rev_append-replicate zero a xs = refl
  rev_append-replicate (suc n) a xs = rev_append-replicate n a (a ∷ xs) ∙ replicate-cons n a xs
    where
      replicate-cons :
          (n : ℕ) (a : A) (xs : List A) → replicate n a ++ (a ∷ xs) ≡ a ∷ (replicate n a ++ xs)
      replicate-cons zero a xs = refl
      replicate-cons (suc n) a xs = ap (λ t. a ∷ t) (replicate-cons n a xs)

abbrev pub le_value : ℕ → List ℕ → ℕ
le_value base [] = 0
le_value base (d ∷ ds) = d + base * le_value base ds

pub horner-le_value :
    (base : ℕ) (ds acc : List ℕ)
    → horner base (le_value base acc) ds ≡ le_value base (rev_append ds acc)
horner-le_value base [] acc = refl
horner-le_value base (d ∷ ds) acc =
    ap (λ n. horner base n ds) (grind arith) ∙ horner-le_value base ds (d ∷ acc)

-- Digits below the base, the last of which is not 0.
abbrev pub IsCanonical : ℕ → List ℕ → Type 0
IsCanonical base [] = Unit
IsCanonical base (d ∷ []) = (d < base) × (0 < d)
IsCanonical base (d ∷ e ∷ ds) = (d < base) × IsCanonical base (e ∷ ds)

le_value-pos :
    (base : ℕ) (d : ℕ) (ds : List ℕ)
    → 0 < base
    → IsCanonical base (d ∷ ds)
    → 0 < le_value base (d ∷ ds)
le_value-pos base d [] p h = omega (arith, h)
le_value-pos base d (e ∷ ds) p h = grind (arith, le_value-pos base e ds p h.1)

remainder-step :
    (base d v : ℕ) → d < base → ((d + base * v) % base ≡ d) × ((d + base * v) / base ≡ v)
remainder-step base d v h = grind arith

IsCanonical-parts :
    (base d : ℕ) (ds : List ℕ) → IsCanonical base (d ∷ ds) → (d < base) × IsCanonical base ds
IsCanonical-parts base d [] h = (h.0, tt)
IsCanonical-parts base d (e ∷ ds) h = h

cons-IsCanonical :
    (base d : ℕ) (ds : List ℕ)
    → d < base
    → IsCanonical base ds
    → (ds ≡ [] → 0 < d)
    → IsCanonical base (d ∷ ds)
cons-IsCanonical base d [] h k f = (h, f refl)
cons-IsCanonical base d (e ∷ ds) h k f = (h, k)

quotient-lt : (n base : ℕ) → 1 < base → 0 < n → n / base < n
quotient-lt n base p h = grind arith

last_digit : (n base : ℕ) → 0 < n → n / base ≡ 0 → 0 < n % base
last_digit n base h e = grind arith

-- The digits of a value, and the value of the digits.
pub le_digits-le_value :
    (base fuel : ℕ) (ds : List ℕ)
    → 1 < base
    → IsCanonical base ds
    → le_value base ds ≤ fuel
    → le_digits base fuel (le_value base ds) ≡ ds
le_digits-le_value base zero [] p h l = refl
le_digits-le_value base (suc fuel) [] p h l = refl
le_digits-le_value base zero (d ∷ ds) p h l =
    absurd (no_value (le_value base (d ∷ ds)) (le_value-pos base d ds (omega arith) h) l)
  where
    no_value : (n : ℕ) → 0 < n → n ≤ 0 → ⊥
    no_value n a b = omega arith
le_digits-le_value base (suc fuel) (d ∷ ds) p h l =
    let v = le_value base ds in
    let (top, rest) = IsCanonical-parts base d ds h in
    let step = remainder-step base d v top in
    let some_value : (d + base * v == 0) ≡ false =
      ground (arith, le_value-pos base d ds (omega arith) h) in
    let smaller : v ≤ fuel = omega (arith, mul_mono_left 2 base v p) in
    rw (some_value, step.0, step.1)
      (ap (λ t. d ∷ t) (le_digits-le_value base fuel ds p rest smaller))

pub le_value-le_digits :
    (base fuel n : ℕ) → 1 < base → n ≤ fuel → le_value base (le_digits base fuel n) ≡ n
le_value-le_digits base zero n p l = omega arith
le_value-le_digits base (suc fuel) n p l = elim (Bool-cases (n == 0)) [
  | inl e ↦ rw e (ground arith)
  | inr e ↦
      let smaller : n / base ≤ fuel = omega (arith, quotient-lt n base p (ground arith)) in
      rw (e, le_value-le_digits base fuel (n / base) p smaller) (grind arith)
]

pub le_digits-IsCanonical :
    (base fuel n : ℕ) → 1 < base → n ≤ fuel → IsCanonical base (le_digits base fuel n)
le_digits-IsCanonical base zero n p l = tt
le_digits-IsCanonical base (suc fuel) n p l = elim (Bool-cases (n == 0)) [
  | inl e ↦ rw e tt
  | inr e ↦
      let some_value : 0 < n = ground arith in
      let smaller : n / base ≤ fuel = omega (arith, quotient-lt n base p some_value) in
      let back = le_value-le_digits base fuel (n / base) p smaller in
      rw e (
        cons-IsCanonical base (n % base) (le_digits base fuel (n / base)) (grind arith)
          (le_digits-IsCanonical base fuel (n / base) p smaller)
          (λ f. last_digit n base some_value (sym back ∙ ap (le_value base) f)))
]

-- A canonical string does not start with 0 when it is reversed.
pub leading-rev_append :
    (base d : ℕ) (ds acc : List ℕ)
    → IsCanonical base (d ∷ ds)
    → leading 0 (rev_append (d ∷ ds) acc) ≡ 0
leading-rev_append base d [] acc h = ground arith
leading-rev_append base d (e ∷ ds) acc h = leading-rev_append base e ds (d ∷ acc) h.1

pub leading-replicate : (c n : ℕ) (xs : List ℕ) → leading c (replicate n c ++ xs) ≡ n + leading c xs
leading-replicate c zero xs = omega arith
leading-replicate c (suc n) xs = ground (arith, leading-replicate c n xs)

-- A byte string is its leading zeros and a string that starts otherwise, or is empty.
abbrev pub IsBelow : ℕ → List ℕ → Type 0
IsBelow base [] = Unit
IsBelow base (d ∷ ds) = (d < base) × IsBelow base ds

pub rev_append-IsCanonical :
    (base : ℕ) (ds : List ℕ) (e : ℕ) (acc : List ℕ)
    → IsBelow base ds
    → IsCanonical base (e ∷ acc)
    → IsCanonical base (rev_append ds (e ∷ acc))
rev_append-IsCanonical base [] e acc h k = k
rev_append-IsCanonical base (d ∷ ds) e acc h k =
    rev_append-IsCanonical base ds d (e ∷ acc) h.1 (h.0, k)

pub leading-split :
    (base : ℕ) (xs : List ℕ)
    → IsBelow base xs
    → (t : List ℕ) × (xs ≡ replicate (leading 0 xs) 0 ++ t) × IsCanonical base (rev_append t [])
leading-split base [] h = ([], refl, tt)
leading-split base (zero ∷ xs) h =
    let (t, e, k) = leading-split base xs h.1 in (t, ap (λ u. 0 ∷ u) e, k)
leading-split base (suc x ∷ xs) h =
    let otherwise : (suc x == 0) ≡ false = ground arith in
    (
      suc x ∷ xs,
      rw otherwise refl,
      rev_append-IsCanonical base xs (suc x) [] h.1 (h.0, omega arith),
    )
