-- ===== src/Tvm/Uint256.antt =====
-- The 256-bit words of github.com/holiman/uint256, which is not part of the repository: a word is a
-- number below 2^256, and the operations that the machine calls are a record.
use go_tron.Prelude.{ℕ, ◌%◌, ◌^◌, ◌≡◌, Bool, length}
use go_tron.Prelude.Bytes.{Bytes}

pub record Uint256 : Type 0 where
  pub add : ℕ → ℕ → ℕ
  pub mul : ℕ → ℕ → ℕ
  pub sub : ℕ → ℕ → ℕ
  pub div : ℕ → ℕ → ℕ
  pub sdiv : ℕ → ℕ → ℕ
  pub mod_word : ℕ → ℕ → ℕ
  pub smod : ℕ → ℕ → ℕ
  pub add_mod : ℕ → ℕ → ℕ → ℕ
  pub mul_mod : ℕ → ℕ → ℕ → ℕ
  pub exp : ℕ → ℕ → ℕ
  pub extend_sign : ℕ → ℕ → ℕ
  pub lt : ℕ → ℕ → Bool
  pub gt : ℕ → ℕ → Bool
  pub slt : ℕ → ℕ → Bool
  pub sgt : ℕ → ℕ → Bool
  pub eq : ℕ → ℕ → Bool
  pub and_word : ℕ → ℕ → ℕ
  pub or_word : ℕ → ℕ → ℕ
  pub xor_word : ℕ → ℕ → ℕ
  pub not_word : ℕ → ℕ
  pub byte : ℕ → ℕ → ℕ
  pub lsh : ℕ → ℕ → ℕ
  pub rsh : ℕ → ℕ → ℕ
  pub srsh : ℕ → ℕ → ℕ
  pub byte_len : ℕ → ℕ
  pub set_bytes : Bytes → ℕ
  pub bytes32 : ℕ → Bytes
  pub length-bytes32 : (w : ℕ) → length (bytes32 w) ≡ 32

-- `Uint64`: the low 64 bits.
abbrev pub low64 : ℕ → ℕ
low64 w = w % 2 ^ 64
