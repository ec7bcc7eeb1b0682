-- ===== src/Tvm/Gas/Coverage.antt =====
-- An operation whose energy was charged finds its memory.
use go_tron.Tvm.Gas.{
  Scope, operand, gas_mload, gas_mstore, gas_mstore8, gas_keccak256, gas_copy, gas_return,
  gas_extcodecopy, gas_returndatacopy, gas_create, gas_create2, gas_call, gas_callcode,
  gas_call_no_value,
}
use go_tron.Tvm.Errors.{Error}
use go_tron.Tvm.Memory.{Memory, get}
use go_tron.Tvm.Cost.{mem_limit}
use go_tron.Tvm.Cost.Expansion.{HasWords}
use go_tron.Prelude.Bytes.{Bytes}
use go_tron.Tvm.Fork.{VmConfig}
use go_tron.Prelude.Result.{Result}
use go_tron.Prelude.{ℕ, ◌+◌, ◌≤◌, ◌≡◌, ◌⊎◌, length, some, Bool}

-- The range is empty, or it ends within the limit of 3 MB, in exact arithmetic.
abbrev pub IsWithin : ℕ × ℕ → Type 0
IsWithin (offset, size) = (size ≡ 0) ⊎ (offset + size ≤ mem_limit)

-- The operations that are charged for memory.
pub data MemoryOp : Type 0 where
  mload mstore mstore8 keccak256 copy_op return_op extcodecopy returndatacopy : MemoryOp
  create create2 call callcode call_no_value : MemoryOp

abbrev pub gas_of : MemoryOp → VmConfig → (ℕ → Bool) → Scope → Result Error ℕ
gas_of mload cfg exist sc = gas_mload cfg sc
gas_of mstore cfg exist sc = gas_mstore cfg sc
gas_of mstore8 cfg exist sc = gas_mstore8 cfg sc
gas_of keccak256 cfg exist sc = gas_keccak256 sc
gas_of copy_op cfg exist sc = gas_copy sc
gas_of return_op cfg exist sc = gas_return sc
gas_of extcodecopy cfg exist sc = gas_extcodecopy sc
gas_of returndatacopy cfg exist sc = gas_returndatacopy sc
gas_of create cfg exist sc = gas_create sc
gas_of create2 cfg exist sc = gas_create2 sc
gas_of call cfg exist sc = gas_call exist sc
gas_of callcode cfg exist sc = gas_callcode sc
gas_of call_no_value cfg exist sc = gas_call_no_value sc

-- The ranges that the operation reads or writes, from its operands: an independent table.
abbrev range : Scope → ℕ → ℕ → ℕ × ℕ
range sc i j = (operand sc i, operand sc j)

abbrev pub ranges : MemoryOp → Scope → (ℕ × ℕ) × (ℕ × ℕ)
ranges mload sc = ((operand sc 0, 32), (0, 0))
ranges mstore sc = ((operand sc 0, 32), (0, 0))
ranges mstore8 sc = ((operand sc 0, 1), (0, 0))
ranges keccak256 sc = (range sc 0 1, (0, 0))
ranges copy_op sc = (range sc 0 2, (0, 0))
ranges return_op sc = (range sc 0 1, (0, 0))
ranges extcodecopy sc = (range sc 1 3, (0, 0))
ranges returndatacopy sc = (range sc 0 2, (0, 0))
ranges create sc = (range sc 1 2, (0, 0))
ranges create2 sc = (range sc 1 2, (0, 0))
ranges call sc = (range sc 3 4, range sc 5 6)
ranges callcode sc = (range sc 3 4, range sc 5 6)
ranges call_no_value sc = (range sc 2 3, range sc 4 5)

-- A read of the range succeeds and gives as many bytes as the range has, and the memory that it
-- leaves consists of whole words within the limit.
abbrev pub IsServed : Memory → ℕ × ℕ → Type 0
IsServed m (offset, size) =
    (v : Bytes) × (m' : Memory) × (k : ℕ) × (get m offset size ≡ some (v, m'))
    × (length v ≡ size)
    × HasWords m' k
