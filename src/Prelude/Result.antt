-- ===== src/Prelude/Result.antt =====
-- A Go result `(A, error)`: a value or an error of the component's own type.
use mathlib.Core.Path.{◌≡◌, refl}
use mathlib.Core.Logic.{◌⊎◌, inl, inr}

pub data Result {ℓ} (E A : Type ℓ) : Type ℓ where
  ok : A → Result E A
  err : E → Result E A

-- `do` stops at the first error, as `if err != nil { return err }` does.
infixl 5 ◌>>=◌ ◌>>◌
abbrev pub ◌>>=◌ {ℓ} : {E A B : Type ℓ} → Result E A → (A → Result E B) → Result E B
err e >>= next = err e
ok a >>= next = next a

abbrev pub ◌>>◌ {ℓ} : {E A B : Type ℓ} → Result E A → Result E B → Result E B
r >> next = r >>= λ _. next

module _ {ℓ} {E A : Type ℓ} where
  -- Which of the two a computed result is, with the equation.
  pub Result-cases : (r : Result E A) → ((a : A) × (r ≡ ok a)) ⊎ ((e : E) × (r ≡ err e))
  Result-cases (err e) = inr (e, refl)
  Result-cases (ok a) = inl (a, refl)

  -- Where a chain succeeds, its first call does.
  pub >>=-succeeds :
      {B : Type ℓ} (next : A → Result E B) (b : B) (r : Result E A)
      → (r >>= next) ≡ ok b
      → (a : A) × (next a ≡ ok b) × (r ≡ ok a)
  >>=-succeeds next b (err e) q = cc
  >>=-succeeds next b (ok a) q = (a, q, refl)
