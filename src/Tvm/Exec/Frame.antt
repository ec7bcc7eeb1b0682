-- ===== src/Tvm/Exec/Frame.antt =====
-- internal/tvm/instructions.go: the instructions that change only their own frame, and their energy.
use go_tron.Prelude.{ℕ, ◌+◌, ◌%◌, Bool, true, false, if◌then◌else◌, ltb, List, [], ◌∷◌, length}
use go_tron.Prelude.Bytes.{Bytes}
use go_tron.Prelude.Result.{Result, ok, err, ◌>>=◌}
use go_tron.Tvm.Errors.{
  Error, go_panic, return_data_out_of_bounds, invalid_opcode, staking_op_deferred,
}
use go_tron.Tvm.Uint256.{low64}
use go_tron.Tvm.Stack.{dup, swap}
use go_tron.Tvm.Memory.{get, set32}
use go_tron.Tvm.Cost.{mem_access_size, clamp_u64}
use go_tron.Tvm.Fork.{VmConfig}
use go_tron.Tvm.Gas.{
  Scope, word_to_addr, gas_exp, gas_mload, gas_mstore, gas_mstore8, gas_keccak256, gas_copy,
  gas_return, gas_extcodecopy, gas_returndatacopy,
}
use go_tron.Tvm.StateDb.{MemStateDb, get_code}
use go_tron.Tvm.Opcode.{
  Arith, add, sub, exp, Environment, selfbalance, Unary, iszero, not_op, calldataload, balance,
  extcodesize, extcodehash, iscontract, sload, CopyFrom, calldata, code_of_frame, FrameOp, stop,
  addmod, mulmod, keccak256, tokenbalance, arith_op, compare_op, bit_op, environment, unary,
  copy_op, extcodecopy, returndatacopy, pop_op, mload, mstore, mstore8, jump, jumpi, jumpdest,
  push_op, dup_op, swap_op, return_op, revert_op, invalid, staking_deferred,
}
use go_tron.Tvm.Exec.{
  Local, Scene, words_of_stack, with_stack, with_stack_result, top, rest, arith_value,
  compare_value, bit_value, copy_data_at, environment_value, unary_value, push_word, replace1,
  replace2, replace3, or_panic, write_mem, jump_to, exec_jumpi, push_value,
}

-- KECCAK256 and MLOAD overwrite the last operand with what the memory holds.
unfoldable pub exec_keccak : Scene → Local → List ℕ → Result Error Local
unfolding get
exec_keccak e l [] = err go_panic
exec_keccak e l (offset ∷ []) = err go_panic
exec_keccak e l (offset ∷ size ∷ ws) =
    or_panic (get l.mem (low64 offset) (low64 size))
      λ r. ok (record (with_stack l (e.keccak256 r.0 ∷ ws)) { mem = r.1 })

unfoldable pub exec_mload : Scene → Local → List ℕ → Result Error Local
unfolding get
exec_mload e l [] = err go_panic
exec_mload e l (offset ∷ ws) =
    or_panic (get l.mem (low64 offset) 32)
      λ r. ok (record (with_stack l (e.words.set_bytes r.0 ∷ ws)) { mem = r.1 })

unfoldable pub exec_mstore : Scene → Local → List ℕ → Result Error Local
unfolding set32
exec_mstore e l ws =
    or_panic (set32 l.mem (low64 (top ws)) (e.words.bytes32 (top (rest ws))))
      λ m. ok (record (with_stack l (rest (rest ws))) { mem = m })

unfoldable pub exec_mstore8 : Local → List ℕ → Result Error Local
unfolding write_mem
exec_mstore8 l ws = write_mem l (rest (rest ws)) (low64 (top ws)) (low64 (top (rest ws)) % 256 ∷ [])

abbrev pub source_bytes : Scene → CopyFrom → Bytes
source_bytes e calldata = e.contract.input
source_bytes e code_of_frame = e.contract.code

-- Memory offset, source offset and length are popped.
unfoldable pub exec_copy : Bytes → Local → List ℕ → Result Error Local
unfolding write_mem copy_data_at
exec_copy src l ws =
    let size = low64 (top (rest (rest ws))) in
    write_mem l (rest (rest (rest ws))) (low64 (top ws))
      (copy_data_at src (clamp_u64 (top (rest ws))) 0 size)

unfoldable pub exec_returndatacopy : Local → List ℕ → Result Error Local
unfolding write_mem copy_data_at
exec_returndatacopy l ws = do
  let offset = top (rest ws)
  let size = top (rest (rest ws))
  end ← mem_access_size offset size
  if ltb (length l.return_data) end
      then err return_data_out_of_bounds
      else write_mem l (rest (rest (rest ws))) (low64 (top ws))
          (copy_data_at l.return_data (low64 offset) 0 (low64 size))

-- RETURN and REVERT take their payload from the memory and end the frame.
unfoldable pub exec_return : Bool → Local → List ℕ → Result Error Local
unfolding get
exec_return reverts l ws = or_panic (get l.mem (low64 (top ws)) (low64 (top (rest ws)))) λ r.
    ok (record (with_stack l (rest (rest ws))) {
      mem = r.1;
      ret = r.0;
      reverted = reverts;
      stopped = true;
    })

unfoldable pub exec_pop : Local → List ℕ → Result Error Local
exec_pop l [] = err Error.stack_underflow
exec_pop l (w ∷ ws) = ok (with_stack l ws)

unfoldable pub exec_tokenbalance : Local → List ℕ → Result Error Local
exec_tokenbalance l ws = replace1 l (λ _. 0) (rest ws)

unfoldable pub exec_frame : Scene → MemStateDb → ℕ → Local → FrameOp → Result Error Local
exec_frame e s remaining l stop = ok (record l { stopped = true })
exec_frame e s remaining l (arith_op o) = replace2 l (arith_value e.words o) (words_of_stack l)
exec_frame e s remaining l (compare_op o) = replace2 l (compare_value e.words o) (words_of_stack l)
exec_frame e s remaining l (bit_op o) = replace2 l (bit_value e.words o) (words_of_stack l)
exec_frame e s remaining l addmod = replace3 l e.words.add_mod (words_of_stack l)
exec_frame e s remaining l mulmod = replace3 l e.words.mul_mod (words_of_stack l)
exec_frame e s remaining l keccak256 = exec_keccak e l (words_of_stack l)
exec_frame e s remaining l tokenbalance = exec_tokenbalance l (words_of_stack l)
exec_frame e s remaining l (environment o) = push_word l (environment_value e s remaining l o)
exec_frame e s remaining l (unary o) = replace1 l (unary_value e s o) (words_of_stack l)
exec_frame e s remaining l (copy_op o) = exec_copy (source_bytes e o) l (words_of_stack l)
exec_frame e s remaining l extcodecopy =
    exec_copy (get_code s (word_to_addr (top (words_of_stack l)))) l (rest (words_of_stack l))
exec_frame e s remaining l returndatacopy = exec_returndatacopy l (words_of_stack l)
exec_frame e s remaining l pop_op = exec_pop l (words_of_stack l)
exec_frame e s remaining l mload = exec_mload e l (words_of_stack l)
exec_frame e s remaining l mstore = exec_mstore e l (words_of_stack l)
exec_frame e s remaining l mstore8 = exec_mstore8 l (words_of_stack l)
exec_frame e s remaining l jump =
    jump_to e.contract (with_stack l (rest (words_of_stack l))) (top (words_of_stack l))
exec_frame e s remaining l jumpi =
    exec_jumpi e.contract (with_stack l (rest (rest (words_of_stack l)))) (top (words_of_stack l))
      (top (rest (words_of_stack l)))
exec_frame e s remaining l jumpdest = ok l
exec_frame e s remaining l (push_op size) =
    push_word (record l { pc = l.pc + size }) (push_value e l.pc size)
exec_frame e s remaining l (dup_op n) = with_stack_result l (dup l.stack n)
exec_frame e s remaining l (swap_op n) = with_stack_result l (swap l.stack n)
exec_frame e s remaining l return_op = exec_return false l (words_of_stack l)
exec_frame e s remaining l revert_op = exec_return true l (words_of_stack l)
exec_frame e s remaining l invalid = err invalid_opcode
exec_frame e s remaining l staking_deferred = err staking_op_deferred

-- The energy column of the table.
abbrev arith_gas : Arith → ℕ
arith_gas add = 3
arith_gas sub = 3
arith_gas _ = 5

abbrev gas_arith : (ℕ → ℕ) → Scope → Arith → Result Error ℕ
gas_arith byte_len sc exp = gas_exp byte_len sc
gas_arith byte_len sc o = ok (arith_gas o)

abbrev environment_gas : Environment → ℕ
environment_gas selfbalance = 5
environment_gas _ = 2

abbrev unary_gas : Unary → ℕ
unary_gas iszero = 3
unary_gas not_op = 3
unary_gas calldataload = 3
unary_gas balance = 20
unary_gas extcodesize = 20
unary_gas extcodehash = 400
unary_gas iscontract = 2
unary_gas sload = 50

unfoldable pub gas_frame : (ℕ → ℕ) → VmConfig → Scope → FrameOp → Result Error ℕ
gas_frame byte_len cfg sc stop = ok 0
gas_frame byte_len cfg sc (arith_op o) = gas_arith byte_len sc o
gas_frame byte_len cfg sc (compare_op _) = ok 3
gas_frame byte_len cfg sc (bit_op _) = ok 3
gas_frame byte_len cfg sc addmod = ok 8
gas_frame byte_len cfg sc mulmod = ok 8
gas_frame byte_len cfg sc keccak256 = gas_keccak256 sc
gas_frame byte_len cfg sc tokenbalance = ok 20
gas_frame byte_len cfg sc (environment o) = ok (environment_gas o)
gas_frame byte_len cfg sc (unary o) = ok (unary_gas o)
gas_frame byte_len cfg sc (copy_op _) = gas_copy sc
gas_frame byte_len cfg sc extcodecopy = gas_extcodecopy sc
gas_frame byte_len cfg sc returndatacopy = gas_returndatacopy sc
gas_frame byte_len cfg sc pop_op = ok 2
gas_frame byte_len cfg sc mload = gas_mload cfg sc
gas_frame byte_len cfg sc mstore = gas_mstore cfg sc
gas_frame byte_len cfg sc mstore8 = gas_mstore8 cfg sc
gas_frame byte_len cfg sc jump = ok 8
gas_frame byte_len cfg sc jumpi = ok 10
gas_frame byte_len cfg sc jumpdest = ok 1
gas_frame byte_len cfg sc (push_op _) = ok 3
gas_frame byte_len cfg sc (dup_op _) = ok 3
gas_frame byte_len cfg sc (swap_op _) = ok 3
gas_frame byte_len cfg sc return_op = gas_return sc
gas_frame byte_len cfg sc revert_op = gas_return sc
gas_frame byte_len cfg sc invalid = ok 0
gas_frame byte_len cfg sc staking_deferred = ok 0
