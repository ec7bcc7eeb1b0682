-- ===== src/Tvm/Exec.antt =====
-- internal/tvm/instructions.go: the executors of the instructions that change the frame only. A
-- pop of an empty stack gives 0, as the source ignores its error; a peek past the end panics.
pub mod Frame
pub mod Moves
use go_tron.Prelude.{
  ℕ, zero, suc, ◌+◌, ◌-◌, ◌%◌, ◌^◌, Bool, true, false, not, ◌&&◌, if◌then◌else◌, ltb, leb, ◌==◌,
  Option, none, some, List, [], ◌∷◌, ◌++◌, length, get_or, replicate,
}
use go_tron.Prelude.Bytes.{Bytes}
use go_tron.Prelude.Int64.{to_word}
use go_tron.Prelude.Result.{Result, ok, err, ◌>>=◌}
use go_tron.Tvm.Errors.{
  Error, go_panic, bad_jump_dest, return_data_out_of_bounds, invalid_opcode, staking_op_deferred,
}
use go_tron.Tvm.Uint256.{Uint256, low64}
use go_tron.Tvm.Stack.{Stack, push, pop, dup, swap}
use go_tron.Tvm.Memory.{Memory, len, set, set32, get}
use go_tron.Tvm.Meter.{add_u64}
use go_tron.Tvm.Cost.{mem_access_size, clamp_u64}
use go_tron.Tvm.Gas.{word_to_addr}
use go_tron.Tvm.JumpDest.{analyze_jump_dests}
use go_tron.Tvm.Contract.{BlockContext, Contract}
use go_tron.Tvm.StateDb.{
  MemStateDb, get_balance, get_code, get_code_size, get_code_hash, exist, get_storage,
}
use go_tron.Tvm.Opcode.{
  Arith, add, mul, sub, div, sdiv, mod_op, smod, exp, signextend, Compare, lt, gt, slt, sgt, eq,
  Bit, and_op, or_op, xor_op, byte, shl, shr, sar, Environment, address, origin, caller, callvalue,
  calldatasize, codesize, gasprice, returndatasize, coinbase, timestamp, number, zero_word, chainid,
  selfbalance, pc_op, msize, gas_op, calltokenvalue, calltokenid, Unary, iszero, not_op,
  calldataload, balance, extcodesize, extcodehash, iscontract, sload,
}

-- What a frame holds, and does not share with other frames.
pub record Local : Type 0 where
  pub stack : Stack
  pub mem : Memory
  pub pc : ℕ
  pub stopped : Bool
  pub ret : Bytes
  pub reverted : Bool
  pub return_data : Bytes

abbrev pub words_of_stack : Local → List ℕ
words_of_stack l = l.stack.data_of

abbrev pub with_stack : Local → List ℕ → Local
with_stack l ws = record l { stack = record { data_of = ws } }

-- A pop whose error is ignored.
abbrev pub top : List ℕ → ℕ
top [] = 0
top (w ∷ ws) = w

abbrev pub rest : List ℕ → List ℕ
rest [] = []
rest (w ∷ ws) = ws

-- What the instructions of a frame read.
pub record Scene : Type 0 where
  pub contract : Contract
  pub block : BlockContext
  pub keccak256 : Bytes → ℕ
  pub words : Uint256

unfoldable pub shift_amount : ℕ → ℕ
shift_amount shift = if ltb shift 256 then shift % 2 ^ 64 else 256

abbrev pub of_bool : Bool → ℕ
of_bool true = 1
of_bool false = 0

-- The first argument is popped, the second one is overwritten.
unfoldable pub arith_value : Uint256 → Arith → ℕ → ℕ → ℕ
arith_value u add x y = u.add x y
arith_value u mul x y = u.mul x y
arith_value u sub x y = u.sub x y
arith_value u div x y = u.div x y
arith_value u sdiv x y = u.sdiv x y
arith_value u mod_op x y = u.mod_word x y
arith_value u smod x y = u.smod x y
arith_value u exp x y = u.exp x y
arith_value u signextend x y = u.extend_sign y x

unfoldable pub compare_value : Uint256 → Compare → ℕ → ℕ → ℕ
compare_value u lt x y = of_bool (u.lt x y)
compare_value u gt x y = of_bool (u.gt x y)
compare_value u slt x y = of_bool (u.slt x y)
compare_value u sgt x y = of_bool (u.sgt x y)
compare_value u eq x y = of_bool (u.eq x y)

unfoldable pub bit_value : Uint256 → Bit → ℕ → ℕ → ℕ
unfolding shift_amount
bit_value u and_op x y = u.and_word x y
bit_value u or_op x y = u.or_word x y
bit_value u xor_op x y = u.xor_word x y
bit_value u byte x y = u.byte y x
bit_value u shl x y = u.lsh y (shift_amount x)
bit_value u shr x y = u.rsh y (shift_amount x)
bit_value u sar x y = u.srsh y (shift_amount x)

-- `copyDataAt` into as many zero bytes as are copied.
unfoldable pub copy_data_at : Bytes → ℕ → ℕ → ℕ → Bytes
copy_data_at src offset i zero = []
copy_data_at src offset i (suc length_left) =
    let j = add_u64 offset i in
    (if leb offset j && ltb j (length src) then get_or src j 0 else 0)
    ∷ copy_data_at src offset (suc i) length_left

unfoldable pub calldataload_value : Scene → ℕ → ℕ
unfolding copy_data_at
calldataload_value e offset =
    if ltb offset (2 ^ 64)
    then e.words.set_bytes (copy_data_at e.contract.input offset 0 32)
    else e.words.set_bytes (replicate 32 0)

unfoldable pub environment_value : Scene → MemStateDb → ℕ → Local → Environment → ℕ
unfolding get_balance to_word
environment_value e s remaining l address = e.contract.self
environment_value e s remaining l origin = e.contract.origin
environment_value e s remaining l caller = e.contract.caller
environment_value e s remaining l callvalue = e.contract.value
environment_value e s remaining l calldatasize = length e.contract.input
environment_value e s remaining l codesize = length e.contract.code
environment_value e s remaining l gasprice = 0
environment_value e s remaining l returndatasize = length l.return_data
environment_value e s remaining l coinbase = e.block.coinbase
environment_value e s remaining l timestamp = to_word e.block.timestamp
environment_value e s remaining l number = to_word e.block.number
environment_value e s remaining l zero_word = 0
environment_value e s remaining l chainid = elim e.block.chain_id [ some c ↦ c | none ↦ 0 ]
environment_value e s remaining l selfbalance = get_balance s e.contract.self
environment_value e s remaining l pc_op = l.pc
environment_value e s remaining l msize = len l.mem
environment_value e s remaining l gas_op = remaining
environment_value e s remaining l calltokenvalue = 0
environment_value e s remaining l calltokenid = 0

unfoldable pub unary_value : Scene → MemStateDb → Unary → ℕ → ℕ
unfolding word_to_addr get_balance get_code_size get_code_hash exist get_storage calldataload_value
unary_value e s iszero x = of_bool (x == 0)
unary_value e s not_op x = e.words.not_word x
unary_value e s calldataload x = calldataload_value e x
unary_value e s balance x = get_balance s (word_to_addr x)
unary_value e s extcodesize x = get_code_size s (word_to_addr x)
unary_value e s extcodehash x =
    if exist s (word_to_addr x) then get_code_hash e.keccak256 s (word_to_addr x) else 0
unary_value e s iscontract x = of_bool (ltb 0 (get_code_size s (word_to_addr x)))
unary_value e s sload x = elim (get_storage s e.contract.self x) [ some v ↦ v | none ↦ 0 ]

-- A value is pushed; the stack may be full.
unfoldable pub push_word : Local → ℕ → Result Error Local
unfolding push
push_word l w = do st ← push l.stack w; ok (record l { stack = st })

abbrev pub with_stack_result : Local → Result Error Stack → Result Error Local
with_stack_result l (ok st) = ok (record l { stack = st })
with_stack_result l (err e) = err e

-- The operands of an instruction that overwrites the last one.
unfoldable pub replace1 : Local → (ℕ → ℕ) → List ℕ → Result Error Local
replace1 l f [] = err go_panic
replace1 l f (x ∷ ws) = ok (with_stack l (f x ∷ ws))

unfoldable pub replace2 : Local → (ℕ → ℕ → ℕ) → List ℕ → Result Error Local
replace2 l f [] = err go_panic
replace2 l f (x ∷ []) = err go_panic
replace2 l f (x ∷ y ∷ ws) = ok (with_stack l (f x y ∷ ws))

unfoldable pub replace3 : Local → (ℕ → ℕ → ℕ → ℕ) → List ℕ → Result Error Local
replace3 l f [] = err go_panic
replace3 l f (x ∷ []) = err go_panic
replace3 l f (x ∷ y ∷ []) = err go_panic
replace3 l f (x ∷ y ∷ z ∷ ws) = ok (with_stack l (f x y z ∷ ws))

abbrev pub or_panic {ℓ} : {A : Type ℓ} → Option A → (A → Result Error Local) → Result Error Local
or_panic none next = err go_panic
or_panic (some a) next = next a

-- A write into memory behind the pops.
unfoldable pub write_mem : Local → List ℕ → ℕ → Bytes → Result Error Local
unfolding set
write_mem l ws offset value =
    or_panic (set l.mem offset value)
      λ m. ok (record l { stack = record { data_of = ws }; mem = m })

unfoldable pub jump_to : Contract → Local → ℕ → Result Error Local
unfolding analyze_jump_dests
jump_to c l dest =
    if ltb dest (2 ^ 64)
      && ltb dest (length c.code)
      && get_or (analyze_jump_dests c.code) dest false
    then ok (record l { pc = dest })
    else err bad_jump_dest

unfoldable pub exec_jumpi : Contract → Local → ℕ → ℕ → Result Error Local
unfolding jump_to
exec_jumpi c l dest cond = if cond == 0 then ok (record l { pc = l.pc + 1 }) else jump_to c l dest

-- The immediate bytes; those past the end of the code are 0.
abbrev immediate : Bytes → ℕ → ℕ → Bytes
immediate code start zero = []
immediate code start (suc n) = get_or code start 0 ∷ immediate code (suc start) n

-- They are right-aligned in 32 bytes.
unfoldable pub push_value : Scene → ℕ → ℕ → ℕ
push_value e pc size =
    e.words.set_bytes (replicate (32 - size) 0 ++ immediate e.contract.code (pc + 1) size)
