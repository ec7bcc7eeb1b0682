-- ===== src/Tests/Address.antt =====
-- An address of zero bytes behind the prefix, with a hash that is constant.
use go_tron.Address.Positional.{IsBelow}
use go_tron.Prelude.{ℕ, zero, suc, ◌≡◌, refl, [], ◌∷◌, replicate, arith}
use go_tron.Prelude.Bytes.{Bytes}
use go_tron.Prelude.Result.{ok}
use go_tron.Address.Base58.{b58_encode, b58_decode}
use go_tron.Address.RoundTrip.{b58_decode-b58_encode}
use go_tron.Address.Checked.{from_base58, base58}
use go_tron.Address.Recovery.{from_base58-base58}

-- Two zero bytes and 500 in base 58.
encoded : b58_encode (0 ∷ 0 ∷ 1 ∷ 244 ∷ []) ≡ 49 ∷ 49 ∷ 57 ∷ 100 ∷ []
unfolding b58_encode
encoded = refl

b58_decode-b58_encode_example :
    b58_decode (b58_encode (0 ∷ 0 ∷ 1 ∷ 244 ∷ [])) ≡ ok (0 ∷ 0 ∷ 1 ∷ 244 ∷ [])
b58_decode-b58_encode_example =
    b58_decode-b58_encode (0 ∷ 0 ∷ 1 ∷ 244 ∷ [])
      (omega arith, (omega arith, (omega arith, (omega arith, tt))))

abbrev zeros : ℕ → Bytes
zeros n = replicate n 0

abbrev constant : Bytes → Bytes
constant x = zeros 32

zeros-IsBelow : (n : ℕ) → IsBelow 256 (zeros n)
zeros-IsBelow zero = tt
zeros-IsBelow (suc n) = (omega arith, zeros-IsBelow n)

from_base58-base58_example :
    from_base58 constant (base58 constant (65 ∷ zeros 20)) ≡ ok (65 ∷ zeros 20)
from_base58-base58_example =
    from_base58-base58 constant (λ x. (refl, zeros-IsBelow 32)) (65 ∷ zeros 20)
      (refl, refl, (omega arith, zeros-IsBelow 20))
