-- ===== src/Address/RoundTrip.antt =====
-- A base58 string decodes to the bytes that it was encoded from.
use go_tron.Address.Base58.{
  rev_append, le_digits, horner, leading, letter, index_of, b58_encode, decode_number, b58_decode,
}
use go_tron.Address.Positional.{
  rev_append-rev_append, rev_append-append, rev_append-replicate, le_value, horner-le_value,
  IsCanonical, le_digits-le_value, le_value-le_digits, le_digits-IsCanonical, leading-rev_append,
  leading-replicate, IsBelow, leading-split,
}
use go_tron.Prelude.Bytes.{Bytes}
use go_tron.Prelude.Result.{ok}
use go_tron.Prelude.{
  ℕ, zero, suc, ◌+◌, ◌*◌, ◌<◌, ◌≡◌, ◌∙◌, refl, sym, ap, Bool, true, false, ◌&&◌, Option, none, some,
  List, [], ◌∷◌, ◌++◌, map, ◌==◌, replicate, Bool-cases, inl, inr, arith,
}

-- Each letter of the alphabet stands at its own place only.
abbrev is_index : Option ℕ → ℕ → Bool
is_index none n = false
is_index (some i) n = i == n

abbrev all_indices : ℕ → Bool
all_indices zero = true
all_indices (suc n) = let rest = all_indices n in is_index (index_of (letter n)) n && rest

alphabet_indices : all_indices 58 ≡ true
unfolding index_of
alphabet_indices = refl

is_index-some : (o : Option ℕ) (n : ℕ) → is_index o n ≡ true → o ≡ some n
is_index-some none n h = cc
is_index-some (some i) n h = ap some (ground arith)

all_indices-letter : (n d : ℕ) → all_indices n ≡ true → d < n → index_of (letter d) ≡ some d
all_indices-letter zero d h k = elim k [ ]
all_indices-letter (suc n) d h k = elim (Bool-cases (is_index (index_of (letter n)) n)) [
  | inl e ↦ elim (Bool-cases (d == n)) [
    | inl f ↦
        let same : n ≡ d = ground arith in rw same at (is_index-some (index_of (letter n)) n e)
    | inr f ↦ all_indices-letter n d (ground arith) (ground arith)
  ]
  | inr e ↦ ground arith
]

index_of-letter : (d : ℕ) → d < 58 → index_of (letter d) ≡ some d
index_of-letter d h = all_indices-letter 58 d alphabet_indices h

index_of-one : index_of 49 ≡ some 0
unfolding index_of
index_of-one = refl

only_zero : (d : ℕ) → (d == 0) ≡ false → some d ≡ some 0 → ⊥
only_zero d e f = ground arith

letter-one : (d : ℕ) → d < 58 → (letter d == 49) ≡ (d == 0)
letter-one d h = elim (Bool-cases (d == 0)) [
  | inl e ↦ let zero_digit : d ≡ 0 = ground arith in rw zero_digit refl
  | inr e ↦ elim (Bool-cases (letter d == 49)) [
    | inl f ↦
        let one : letter d ≡ 49 = ground arith in
        let same = sym (index_of-letter d h) ∙ ap index_of one ∙ index_of-one in
        absurd (only_zero d e same)
    | inr f ↦ f ∙ sym e
  ]
]

-- The letters in place of the digits.
leading-letters : (ds : List ℕ) → IsBelow 58 ds → leading 49 (map letter ds) ≡ leading 0 ds
leading-letters [] h = refl
leading-letters (d ∷ ds) h = rw (letter-one d h.0, leading-letters ds h.1) refl

decode_number-letters :
    (n : ℕ) (ds : List ℕ) → IsBelow 58 ds → decode_number n (map letter ds) ≡ ok (horner 58 n ds)
unfolding decode_number
decode_number-letters n [] h = refl
decode_number-letters n (d ∷ ds) h =
    rw (decode_number, index_of-letter d h.0) (decode_number-letters (n * 58 + d) ds h.1)

map-rev_append :
    (xs ys : List ℕ) → rev_append (map letter xs) (map letter ys) ≡ map letter (rev_append xs ys)
map-rev_append [] ys = refl
map-rev_append (x ∷ xs) ys = map-rev_append xs (x ∷ ys)

map-zeros :
    (n : ℕ) (xs : List ℕ) → replicate n 49 ++ map letter xs ≡ map letter (replicate n 0 ++ xs)
map-zeros zero xs = refl
map-zeros (suc n) xs = ap (λ t. 49 ∷ t) (map-zeros n xs)

horner-zeros : (base n : ℕ) (xs : List ℕ) → horner base 0 (replicate n 0 ++ xs) ≡ horner base 0 xs
horner-zeros base zero xs = refl
horner-zeros base (suc n) xs =
    ap (λ a. horner base a (replicate n 0 ++ xs)) (omega arith) ∙ horner-zeros base n xs

append-nil : (xs : List ℕ) → xs ++ [] ≡ xs
append-nil [] = refl
append-nil (x ∷ xs) = ap (λ t. x ∷ t) (append-nil xs)

rev_append-twice : (xs : List ℕ) → rev_append (rev_append xs []) [] ≡ xs
rev_append-twice xs = rev_append-rev_append xs [] [] ∙ append-nil xs

IsBelow-rev_append :
    (base : ℕ) (xs ys : List ℕ)
    → IsBelow base xs
    → IsBelow base ys
    → IsBelow base (rev_append xs ys)
IsBelow-rev_append base [] ys h k = k
IsBelow-rev_append base (x ∷ xs) ys h k = IsBelow-rev_append base xs (x ∷ ys) h.1 (h.0, k)

IsBelow-zeros :
    (base n : ℕ) (xs : List ℕ) → 0 < base → IsBelow base xs → IsBelow base (replicate n 0 ++ xs)
IsBelow-zeros base zero xs p h = h
IsBelow-zeros base (suc n) xs p h = (p, IsBelow-zeros base n xs p h)

IsCanonical-IsBelow : (base : ℕ) (ds : List ℕ) → IsCanonical base ds → IsBelow base ds
IsCanonical-IsBelow base [] h = tt
IsCanonical-IsBelow base (d ∷ []) h = (h.0, tt)
IsCanonical-IsBelow base (d ∷ e ∷ ds) h = (h.0, IsCanonical-IsBelow base (e ∷ ds) h.1)

leading-reversed : (base : ℕ) (ds : List ℕ) → IsCanonical base ds → leading 0 (rev_append ds []) ≡ 0
leading-reversed base [] h = refl
leading-reversed base (d ∷ ds) h = leading-rev_append base d ds [] h

-- The digits of the code: as many zeros as the bytes start with, then the number.
abbrev code_digits : Bytes → List ℕ
code_digits b =
    let n = horner 256 0 b in replicate (leading 0 b) 0 ++ rev_append (le_digits 58 n n) []

b58_encode-letters : (b : Bytes) → b58_encode b ≡ map letter (code_digits b)
unfolding b58_encode
b58_encode-letters b =
    let n = horner 256 0 b in
    let ds = le_digits 58 n n in
    rev_append-append (map letter ds) (replicate (leading 0 b) 49) []
    ∙ rev_append-replicate (leading 0 b) 49 (rev_append (map letter ds) [])
    ∙ ap (λ t. replicate (leading 0 b) 49 ++ t) (map-rev_append ds [])
    ∙ map-zeros (leading 0 b) (rev_append ds [])

code_digits-IsBelow : (b : Bytes) → IsBelow 58 (code_digits b)
code_digits-IsBelow b =
    let n = horner 256 0 b in
    IsBelow-zeros 58 (leading 0 b) _ (omega arith) (
      IsBelow-rev_append 58 (le_digits 58 n n) []
        (IsCanonical-IsBelow 58 _ (le_digits-IsCanonical 58 n n (omega arith) (omega arith))) tt)

code_digits-horner : (b : Bytes) → horner 58 0 (code_digits b) ≡ horner 256 0 b
code_digits-horner b =
    let n = horner 256 0 b in
    let ds = le_digits 58 n n in
    horner-zeros 58 (leading 0 b) (rev_append ds [])
    ∙ horner-le_value 58 (rev_append ds []) []
    ∙ ap (le_value 58) (rev_append-twice ds)
    ∙ le_value-le_digits 58 n n (omega arith) (omega arith)

code_digits-leading : (b : Bytes) → leading 0 (code_digits b) ≡ leading 0 b
code_digits-leading b =
    let n = horner 256 0 b in
    let canonical = le_digits-IsCanonical 58 n n (omega arith) (omega arith) in
    omega (
      arith,
      leading-replicate 0 (leading 0 b) (rev_append (le_digits 58 n n) []),
      leading-reversed 58 (le_digits 58 n n) canonical,
    )

-- The bytes of the number, behind the zeros.
bytes-of-number :
    (b : Bytes)
    → IsBelow 256 b
    → replicate (leading 0 b) 0 ++ rev_append (le_digits 256 (horner 256 0 b) (horner 256 0 b)) []
      ≡ b
bytes-of-number b h =
    let (t, e, k) = leading-split 256 b h in
    let n = horner 256 0 b in
    let number : n ≡ le_value 256 (rev_append t []) =
      ap (horner 256 0) e ∙ horner-zeros 256 (leading 0 b) t ∙ horner-le_value 256 t [] in
    let digits : le_digits 256 n n ≡ rev_append t [] =
      ap (le_digits 256 n) number
      ∙ le_digits-le_value 256 n (rev_append t []) (omega arith) k (omega (arith, number)) in
    ap (λ ds. replicate (leading 0 b) 0 ++ rev_append ds []) digits
    ∙ ap (λ u. replicate (leading 0 b) 0 ++ u) (rev_append-twice t)
    ∙ sym e

-- Decoding gives back what was encoded, its leading zero bytes included. It holds of every string
-- of bytes.
pub b58_decode-b58_encode : (b : Bytes) → IsBelow 256 b → b58_decode (b58_encode b) ≡ ok b
unfolding b58_decode
b58_decode-b58_encode b h =
    let below = code_digits-IsBelow b in
    rw
      (
        b58_encode-letters b,
        decode_number-letters 0 (code_digits b) below,
        code_digits-horner b,
        leading-letters (code_digits b) below,
        code_digits-leading b,
      )
      (ap ok (bytes-of-number b h))
