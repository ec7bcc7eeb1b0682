-- ===== src/Address/Recovery.antt =====
-- An address is recovered from its printed form.
use go_tron.Address.Positional.{IsBelow}
use go_tron.Address.RoundTrip.{b58_decode-b58_encode}
use go_tron.Address.Checked.{
  from_bytes, checksum, b58_check_encode, b58_check_decode, from_base58, base58, prefix,
  address_length,
}
use go_tron.Prelude.{
  ℕ, zero, suc, ◌+◌, ◌-◌, ◌≡◌, refl, ap, false, List, [], ◌∷◌, ◌++◌, ltb, length, take, drop,
  get_or, length-append, length-take, arith,
}
use go_tron.Prelude.Bytes.{Bytes, bytes_eq_iff}
use go_tron.Prelude.Result.{ok}

take-append : (xs ys : Bytes) → take (length xs) (xs ++ ys) ≡ xs
take-append [] ys = refl
take-append (x ∷ xs) ys = ap (λ t. x ∷ t) (take-append xs ys)

drop-append : (xs ys : Bytes) → drop (length xs) (xs ++ ys) ≡ ys
drop-append [] ys = refl
drop-append (x ∷ xs) ys = drop-append xs ys

IsBelow-append :
    (base : ℕ) (xs ys : List ℕ) → IsBelow base xs → IsBelow base ys → IsBelow base (xs ++ ys)
IsBelow-append base [] ys h k = k
IsBelow-append base (x ∷ xs) ys h k = (h.0, IsBelow-append base xs ys h.1 k)

IsBelow-take : (base n : ℕ) (xs : List ℕ) → IsBelow base xs → IsBelow base (take n xs)
IsBelow-take base zero xs h = tt
IsBelow-take base (suc n) [] h = tt
IsBelow-take base (suc n) (x ∷ xs) h = (h.0, IsBelow-take base n xs h.1)

-- 21 bytes, the first one being the prefix.
abbrev pub IsAddress : Bytes → Type 0
IsAddress a = (length a ≡ address_length) × (get_or a 0 0 ≡ prefix) × IsBelow 256 a

-- What SHA-256 gives: 32 bytes.
abbrev pub IsDigest : (Bytes → Bytes) → Type 0
IsDigest sha256 = (x : Bytes) → (length (sha256 x) ≡ 32) × IsBelow 256 (sha256 x)

module _ (sha256 : Bytes → Bytes) (digest : IsDigest sha256) where
  length-checksum : (p : Bytes) → length (checksum sha256 p) ≡ 4
  unfolding checksum
  length-checksum p = omega (arith, length-take 4 (sha256 (sha256 p)), digest (sha256 p))

  checksum-IsBelow : (p : Bytes) → IsBelow 256 (checksum sha256 p)
  unfolding checksum
  checksum-IsBelow p = IsBelow-take 256 4 (sha256 (sha256 p)) (digest (sha256 p)).1

  b58_check_decode-b58_check_encode :
      (p : Bytes) → IsBelow 256 p → b58_check_decode sha256 (b58_check_encode sha256 p) ≡ ok p
  unfolding b58_check_decode b58_check_encode
  b58_check_decode-b58_check_encode p h =
      let sum = checksum sha256 p in
      let total : length (p ++ sum) ≡ length p + 4 =
        omega (arith, length-append p sum, length-checksum p) in
      let long : ltb (length p + 4) 4 ≡ false = ground arith in
      let cut : length p + 4 - 4 ≡ length p = omega arith in
      rw
        (
          b58_decode-b58_encode (p ++ sum) (IsBelow-append 256 p sum h (checksum-IsBelow p)),
          total,
          long,
          cut,
          take-append p sum,
          drop-append p sum,
        )
        (ground (arith, bytes_eq_iff sum sum))

  -- `FromBase58` gives back the address that `Base58` printed: prefix, length and checksum are
  -- accepted. It holds of every address of 21 bytes with the prefix, for any hash function in
  -- SHA-256's place that gives 32 bytes.
  pub from_base58-base58 : (a : Bytes) → IsAddress a → from_base58 sha256 (base58 sha256 a) ≡ ok a
  unfolding from_base58 base58 from_bytes
  from_base58-base58 a h = rw (b58_check_decode-b58_check_encode a h.2) (ground (arith, h))
