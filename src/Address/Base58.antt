-- ===== src/Address/Base58.antt =====
-- internal/address/base58.go without the checksum. `big.Int` of the standard library is a number,
-- `SetBytes` and `Bytes` are big-endian.
use go_tron.Prelude.{
  ℕ, zero, suc, ◌+◌, ◌*◌, ◌/◌, ◌%◌, Option, none, some, List, [], ◌∷◌, ◌++◌, map, if◌then◌else◌,
  ◌==◌, get_or, replicate,
}
use go_tron.Prelude.Bytes.{Bytes}
use go_tron.Prelude.Result.{Result, ok, err, ◌>>=◌}

pub data Error : Type 0 where
  invalid_character payload_too_short bad_checksum bad_length bad_prefix bad_public_key : Error

module _ {ℓ} {A : Type ℓ} where
  abbrev pub rev_append : List A → List A → List A
  rev_append [] ys = ys
  rev_append (x ∷ xs) ys = rev_append xs (x ∷ ys)

-- The digits of a number, the least one first, on fuel that the number itself is enough of.
abbrev pub le_digits : ℕ → ℕ → ℕ → List ℕ
le_digits base zero n = []
le_digits base (suc fuel) n =
    let rest = le_digits base fuel (n / base) in if n == 0 then [] else n % base ∷ rest

-- The number of a string of digits, the greatest one first.
abbrev pub horner : ℕ → ℕ → List ℕ → ℕ
horner base acc [] = acc
horner base acc (d ∷ ds) = horner base (acc * base + d) ds

abbrev pub leading : ℕ → List ℕ → ℕ
leading c [] = 0
leading c (x ∷ xs) = let rest = leading c xs in if x == c then suc rest else 0

-- "123456789ABCDEFGHJKLMNPQRSTUVWXYZabcdefghijkmnopqrstuvwxyz"
abbrev pub b58_alphabet : List ℕ
b58_alphabet =
    49 ∷ 50 ∷ 51 ∷ 52 ∷ 53 ∷ 54 ∷ 55 ∷ 56 ∷ 57 ∷ 65 ∷ 66 ∷ 67 ∷ 68 ∷ 69 ∷ 70 ∷ 71 ∷ 72 ∷ 74 ∷ 75
    ∷ 76 ∷ 77 ∷ 78 ∷ 80 ∷ 81 ∷ 82 ∷ 83 ∷ 84 ∷ 85 ∷ 86 ∷ 87 ∷ 88 ∷ 89 ∷ 90 ∷ 97 ∷ 98 ∷ 99 ∷ 100 ∷ 101
    ∷ 102 ∷ 103 ∷ 104 ∷ 105 ∷ 106 ∷ 107 ∷ 109 ∷ 110 ∷ 111 ∷ 112 ∷ 113 ∷ 114 ∷ 115 ∷ 116 ∷ 117 ∷ 118
    ∷ 119 ∷ 120 ∷ 121 ∷ 122 ∷ []

abbrev pub letter : ℕ → ℕ
letter d = get_or b58_alphabet d 0

abbrev pub index_from : ℕ → List ℕ → ℕ → Option ℕ
index_from i [] c = none
index_from i (x ∷ xs) c = let rest = index_from (suc i) xs c in if x == c then some i else rest

-- `strings.IndexRune(b58Alphabet, r)`; a rune outside ASCII is not in the alphabet either.
unfoldable pub index_of : ℕ → Option ℕ
index_of c = index_from 0 b58_alphabet c

-- The digits are appended from the least one on, then the leading ones, then all is reversed.
unfoldable pub b58_encode : Bytes → Bytes
b58_encode input =
    let zeros = leading 0 input in
    let num = horner 256 0 input in
    rev_append (map letter (le_digits 58 num num) ++ replicate zeros 49) []

-- The loop of `b58Decode`.
unfoldable pub decode_number : ℕ → Bytes → Result Error ℕ
decode_number num [] = ok num
decode_number num (r ∷ s) = elim (index_of r) [
  | none ↦ err invalid_character
  | some i ↦ decode_number (num * 58 + i) s
]

unfoldable pub b58_decode : Bytes → Result Error Bytes
unfolding decode_number
b58_decode s = do
  num ← decode_number 0 s
  ok (replicate (leading 49 s) 0 ++ rev_append (le_digits 256 num num) [])
