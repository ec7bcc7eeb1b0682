-- ===== src/Tvm/JumpDest/Boundary.antt =====
-- The bitmap of `analyzeJumpDests` against the instructions of the code.
use go_tron.Tvm.JumpDest.{jumpdest, push_bytes, mark_dests, analyze_jump_dests}
use go_tron.Prelude.{
  ℕ, zero, suc, ◌+◌, ◌≡◌, ◌↔◌, ◌⊎◌, inl, inr, refl, ap, true, [], ◌∷◌, some, get_elem?, arith,
}
use go_tron.Prelude.Bytes.{Bytes}

-- An instruction starts at the position, when the first one starts at `skip`.
pub data Starts (skip : ℕ) (code : Bytes) : ℕ → Type 0 where
  first : Starts skip code skip
  next :
      {pc op after : ℕ}
      → Starts skip code pc
      → get_elem? code pc ≡ some op
      → after ≡ pc + 1 + push_bytes op
      → Starts skip code after

-- One more byte in front, skipped or read.
Starts-skip :
    {n : ℕ} {code : Bytes} (op : ℕ) {pc : ℕ}
    → Starts n code pc
    → Starts (suc n) (op ∷ code) (suc pc)
Starts-skip op first = first
Starts-skip op (next s e f) = next (Starts-skip op s) e (omega (arith, f))

Starts-first :
    {code : Bytes} (op : ℕ) {pc : ℕ}
    → Starts (push_bytes op) code pc
    → Starts 0 (op ∷ code) (suc pc)
Starts-first op first = next first refl (omega arith)
Starts-first op (next s e f) = next (Starts-first op s) e (omega (arith, f))

-- And the other way: what starts behind the first byte starts in the rest.
Starts-skip-inv :
    {n : ℕ} {op : ℕ} {code : Bytes} {pc : ℕ}
    → Starts (suc n) (op ∷ code) pc
    → (p : ℕ) × (pc ≡ suc p) × Starts n code p
Starts-skip-inv {n = n} first = (n, refl, first)
Starts-skip-inv (next {op = b} s e g) =
    let (p, f, t) = Starts-skip-inv s in
    (p + 1 + push_bytes b, omega (arith, f, g), next t (rw f at e) refl)

Starts-first-inv :
    {op : ℕ} {code : Bytes} {pc : ℕ}
    → Starts 0 (op ∷ code) pc
    → (pc ≡ 0) ⊎ ((p : ℕ) × (pc ≡ suc p) × Starts (push_bytes op) code p)
Starts-first-inv first = inl refl
Starts-first-inv {op = op} (next {op = b} s e g) = elim (Starts-first-inv s) [
  | inl f ↦
      let same : op ≡ b = let h = rw f at e in grind arith in
      inr (push_bytes op, omega (arith, f, g, ap push_bytes same), first)
  | inr (p, f, t) ↦ inr (p + 1 + push_bytes b, omega (arith, f, g), next t (rw f at e) refl)
]

-- The loop, from any number of bytes still to skip.
mark_dests-Starts :
    (code : Bytes) (skip pc : ℕ)
    → (get_elem? (mark_dests skip code) pc ≡ some true)
      ↔ (Starts skip code pc × (get_elem? code pc ≡ some jumpdest))
mark_dests-Starts [] skip pc = (λ e. cc, λ (s, e). cc)
mark_dests-Starts (op ∷ code) (suc n) zero =
    (λ e. cc, λ (s, e). let (p, f, t) = Starts-skip-inv s in cc)
mark_dests-Starts (op ∷ code) (suc n) (suc pc) =
    let (to, back) = mark_dests-Starts code n pc in
    (
      λ e. let (s, f) = to e in (Starts-skip op s, f),
      λ (s, e).
          let (p, f, t) = Starts-skip-inv s in
          let same : p ≡ pc = omega (arith, f) in back (rw same at t, e),
    )
mark_dests-Starts (op ∷ code) zero zero = (λ e. (first, ground arith), λ (s, e). ground arith)
mark_dests-Starts (op ∷ code) zero (suc pc) =
    let (to, back) = mark_dests-Starts code (push_bytes op) pc in
    (
      λ e. let (s, f) = to e in (Starts-first op s, f),
      λ (s, e). elim (Starts-first-inv s) [
        | inl f ↦ cc
        | inr (p, f, t) ↦ let same : p ≡ pc = omega (arith, f) in back (rw same at t, e)
      ],
    )

-- The bitmap marks exactly the positions at which an instruction starts and which hold the byte
-- of JUMPDEST: a byte inside the immediate data of a PUSH is never a destination.
pub analyze_jump_dests-Starts :
    (code : Bytes) (pc : ℕ)
    → (get_elem? (analyze_jump_dests code) pc ≡ some true)
      ↔ (Starts 0 code pc × (get_elem? code pc ≡ some jumpdest))
unfolding analyze_jump_dests
analyze_jump_dests-Starts code pc = mark_dests-Starts code 0 pc
