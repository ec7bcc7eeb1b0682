-- ===== src/Tvm/Gas.antt =====
-- internal/tvm/gas.go: the energy of the operations whose cost depends on their operands. The
-- operands are read from the stack before they are popped.
pub mod Coverage
pub mod Floor
use go_tron.Prelude.{
  ℕ, ◌+◌, ◌*◌, ◌%◌, ◌^◌, Bool, true, false, not, ◌&&◌, if◌then◌else◌, ltb, ◌==◌, Option, none, some,
}
use go_tron.Prelude.Result.{Result, ok, err, ◌>>=◌}
use go_tron.Tvm.Errors.{Error}
use go_tron.Tvm.Stack.{Stack, peek}
use go_tron.Tvm.Memory.{Memory, words_for_bytes}
use go_tron.Tvm.Meter.{add_u64}
use go_tron.Tvm.Cost.{mem_expand_cost, mem_access_size, to_uint64}
use go_tron.Tvm.Fork.{VmConfig}

-- The part of the frame that the costs read.
pub record Scope : Type 0 where
  pub stack : Stack
  pub mem : Memory

-- An address is the number of its 21 bytes; the first one is 0x41.
unfoldable pub word_to_addr : ℕ → ℕ
word_to_addr w = 65 * 2 ^ 160 + w % 2 ^ 160

abbrev pub operand : Scope → ℕ → ℕ
operand sc n = peek sc.stack n

unfoldable pub mem_special_tier : VmConfig → ℕ
mem_special_tier cfg = if cfg.legacy_mem_cost then 0 else 1

-- The expansion to cover a range.
unfoldable pub expand_to : Scope → ℕ → ℕ → Result Error ℕ
unfolding mem_access_size mem_expand_cost
expand_to sc offset size = do end ← mem_access_size offset size; mem_expand_cost sc.mem end

unfoldable pub gas_mload : VmConfig → Scope → Result Error ℕ
unfolding expand_to mem_special_tier
gas_mload cfg sc = do exp ← expand_to sc (operand sc 0) 32; ok (add_u64 (mem_special_tier cfg) exp)

unfoldable pub gas_mstore : VmConfig → Scope → Result Error ℕ
unfolding gas_mload
gas_mstore cfg sc = gas_mload cfg sc

unfoldable pub gas_mstore8 : VmConfig → Scope → Result Error ℕ
unfolding expand_to mem_special_tier
gas_mstore8 cfg sc = do exp ← expand_to sc (operand sc 0) 1; ok (add_u64 (mem_special_tier cfg) exp)

-- A base, the expansion, and an amount for each word of the size.
unfoldable pub with_words : Scope → ℕ → ℕ → ℕ → ℕ → Result Error ℕ
unfolding expand_to to_uint64 words_for_bytes
with_words sc base per_word offset size = do
  exp ← expand_to sc offset size
  sz ← to_uint64 size
  ok (add_u64 (add_u64 base exp) (per_word * words_for_bytes sz % 2 ^ 64))

unfoldable pub gas_keccak256 : Scope → Result Error ℕ
unfolding with_words
gas_keccak256 sc = with_words sc 30 6 (operand sc 0) (operand sc 1)

unfoldable pub gas_copy : Scope → Result Error ℕ
unfolding with_words
gas_copy sc = with_words sc 0 3 (operand sc 0) (operand sc 2)

unfoldable pub gas_return : Scope → Result Error ℕ
unfolding expand_to
gas_return sc = expand_to sc (operand sc 0) (operand sc 1)

unfoldable pub gas_extcodecopy : Scope → Result Error ℕ
unfolding with_words
gas_extcodecopy sc = with_words sc 20 3 (operand sc 1) (operand sc 3)

unfoldable pub gas_returndatacopy : Scope → Result Error ℕ
unfolding gas_copy
gas_returndatacopy sc = gas_copy sc

unfoldable pub gas_create : Scope → Result Error ℕ
unfolding expand_to
gas_create sc = do exp ← expand_to sc (operand sc 1) (operand sc 2); ok (add_u64 32000 exp)

unfoldable pub gas_create2 : Scope → Result Error ℕ
unfolding with_words
gas_create2 sc = with_words sc 32000 6 (operand sc 1) (operand sc 2)

-- The expansion to cover the input and the output of a call.
unfoldable pub call_args_mem : Scope → ℕ → ℕ → ℕ → ℕ → Result Error ℕ
unfolding mem_access_size mem_expand_cost
call_args_mem sc in_off in_size out_off out_size = do
  in_end ← mem_access_size in_off in_size
  out_end ← mem_access_size out_off out_size
  mem_expand_cost sc.mem (if ltb in_end out_end then out_end else in_end)

-- `in.evm.state.Exist`, of the interface StateDB.
unfoldable pub gas_call : (ℕ → Bool) → Scope → Result Error ℕ
unfolding call_args_mem word_to_addr
gas_call exist sc = do
  mem ← call_args_mem sc (operand sc 3) (operand sc 4) (operand sc 5) (operand sc 6)
  let cost = add_u64 40 mem
  ok (
      if operand sc 2 == 0
      then cost
      else if exist (word_to_addr (operand sc 1))
      then add_u64 cost 9000
      else add_u64 (add_u64 cost 9000) 25000)

unfoldable pub gas_callcode : Scope → Result Error ℕ
unfolding call_args_mem
gas_callcode sc = do
  mem ← call_args_mem sc (operand sc 3) (operand sc 4) (operand sc 5) (operand sc 6)
  let cost = add_u64 40 mem
  ok (if operand sc 2 == 0 then cost else add_u64 cost 9000)

unfoldable pub gas_call_no_value : Scope → Result Error ℕ
unfolding call_args_mem
gas_call_no_value sc = do
  mem ← call_args_mem sc (operand sc 2) (operand sc 3) (operand sc 4) (operand sc 5)
  ok (add_u64 40 mem)

-- `ByteLen` is a method of the library's 256-bit words.
unfoldable pub gas_exp : (ℕ → ℕ) → Scope → Result Error ℕ
gas_exp byte_len sc = ok (add_u64 10 (10 * byte_len (operand sc 1) % 2 ^ 64))

-- `GetStorage` of the interface StateDB gives the value of a slot that is present.
unfoldable pub gas_sstore : (ℕ → Option ℕ) → Scope → Result Error ℕ
gas_sstore storage sc =
    let present : Bool = elim (storage (operand sc 0)) [ some _ ↦ true | none ↦ false ] in
    if not present && not (operand sc 1 == 0)
    then ok 20000
    else if present && (operand sc 1 == 0)
    then ok 5000
    else ok 5000
