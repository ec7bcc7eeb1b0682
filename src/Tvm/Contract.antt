-- ===== src/Tvm/Contract.antt =====
-- internal/tvm/contract.go: the frame's contract, the block, the result, and derived addresses. An
-- address is the number of its bytes; `keccak256` gives the number of its 32 bytes.
use go_tron.Prelude.{ℕ, ◌+◌, ◌*◌, ◌%◌, ◌^◌, Bool, Option, List}
use go_tron.Prelude.Int.{ℤ}
use go_tron.Prelude.Bytes.{Bytes}
use go_tron.Tvm.Errors.{Error}

pub record BlockContext : Type 0 where
  pub number : ℤ
  pub timestamp : ℤ
  pub coinbase : ℕ
  pub chain_id : Option ℕ

pub record Contract : Type 0 where
  pub self : ℕ
  pub code_addr : ℕ
  pub caller : ℕ
  pub origin : ℕ
  pub value : ℕ
  pub input : Bytes
  pub code : Bytes

pub record Outcome : Type 0 where
  pub return_bytes : Bytes
  pub reverted : Bool
  pub energy_used : ℕ
  pub error : Option Error

-- `sha3omit12`: the last 20 bytes of the hash, behind the prefix.
unfoldable pub sha3omit12 : (Bytes → ℕ) → Bytes → ℕ
sha3omit12 keccak256 preimage = 65 * 2 ^ 160 + keccak256 preimage % 2 ^ 160

pub record Log : Type 0 where
  pub address : ℕ
  pub topics : List ℕ
  pub bytes : Bytes
