-- ===== src/Address/Checked.antt =====
-- internal/address: the checksum of base58.go, and address.go. An address is its 21 bytes. The
-- hashes of internal/crypto call libraries.
use go_tron.Address.Base58.{
  Error, payload_too_short, bad_checksum, bad_length, bad_prefix, bad_public_key, b58_encode,
  b58_decode,
}
use go_tron.Prelude.{ℕ, ◌-◌, not, ◌∷◌, ◌++◌, if◌then◌else◌, ◌==◌, ltb, length, take, drop, get_or}
use go_tron.Prelude.Bytes.{Bytes, bytes_eq}
use go_tron.Prelude.Result.{Result, ok, err, ◌>>=◌}

abbrev pub prefix : ℕ
prefix = 65

abbrev pub address_length : ℕ
address_length = 21

abbrev pub hash_length : ℕ
hash_length = 20

unfoldable pub from_bytes : Bytes → Result Error Bytes
from_bytes b =
    if not (length b == address_length)
    then err bad_length
    else if not (get_or b 0 0 == prefix)
    then err bad_prefix
    else ok b

unfoldable pub from_hash : Bytes → Result Error Bytes
from_hash h = if not (length h == hash_length) then err bad_length else ok (prefix ∷ h)

-- The 20-byte form, without the prefix.
unfoldable pub hash : Bytes → Bytes
hash a = drop 1 a

-- The last 20 bytes of the hash of the key, without the leading 0x04 of the long form.
abbrev of_digest : Bytes → Result Error Bytes
of_digest h = from_hash (drop (length h - hash_length) h)

unfoldable pub from_public_key : (Bytes → Bytes) → Bytes → Result Error Bytes
unfolding from_hash
from_public_key keccak256 key =
    if length key == 65
    then if not (get_or key 0 0 == 4)
      then err bad_public_key
      else of_digest (keccak256 (drop 1 key))
    else if length key == 64
    then of_digest (keccak256 key)
    else err bad_public_key

module _ (sha256 : Bytes → Bytes) where
  unfoldable pub checksum : Bytes → Bytes
  checksum payload = take 4 (sha256 (sha256 payload))

  unfoldable pub b58_check_encode : Bytes → Bytes
  unfolding checksum
  b58_check_encode payload = b58_encode (payload ++ checksum payload)

  abbrev verify : Bytes → Bytes → Result Error Bytes
  verify payload sum =
      if not (bytes_eq (checksum payload) sum) then err bad_checksum else ok payload

  abbrev split_checked : Bytes → Result Error Bytes
  split_checked dec =
      if ltb (length dec) 4
      then err payload_too_short
      else verify (take (length dec - 4) dec) (drop (length dec - 4) dec)

  unfoldable pub b58_check_decode : Bytes → Result Error Bytes
  unfolding checksum
  b58_check_decode s = do dec ← b58_decode s; split_checked dec

  unfoldable pub from_base58 : Bytes → Result Error Bytes
  unfolding b58_check_decode from_bytes
  from_base58 s = do payload ← b58_check_decode s; from_bytes payload

  unfoldable pub base58 : Bytes → Bytes
  unfolding b58_check_encode
  base58 a = b58_check_encode a
