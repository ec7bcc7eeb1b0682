-- ===== src/Tvm/Machine.antt =====
-- internal/tvm/interpreter.go and evm.go: frames, and the calls between them.
pub mod Host
pub mod Step
pub mod Effect
pub mod Kept
pub mod Calls
pub mod Creates
pub mod Instructions
pub mod Soundness
pub mod Outcomes
pub mod Failure
pub mod Undone
pub mod Fuel
pub mod Spent
pub mod Yields
pub mod Turns
pub mod Progress
pub mod Termination
use go_tron.Prelude.{
  ℕ, zero, suc, ◌+◌, ◌-◌, ◌*◌, ◌/◌, ◌%◌, ◌^◌, Bool, true, false, not, ◌&&◌, ◌||◌, if◌then◌else◌,
  ltb, leb, ◌==◌, Option, none, some, List, [], ◌∷◌, ◌++◌, length, take, get_or,
}
use go_tron.Prelude.Bytes.{Bytes}
use go_tron.Prelude.Result.{Result, ok, err, ◌>>=◌}
use go_tron.Tvm.Errors.{Error, go_panic, static_state_change}
use go_tron.Tvm.Uint256.{Uint256, low64}
use go_tron.Tvm.Stack.{Stack}
use go_tron.Tvm.Memory.{Memory, get, set}
use go_tron.Tvm.Meter.{EnergyMeter, new_energy_meter, spend, remaining, restore, add_u64, sub_u64}
use go_tron.Tvm.Cost.{clamp_u64, mem_access_size, mem_expand_cost, to_uint64}
use go_tron.Tvm.Fork.{VmConfig}
use go_tron.Tvm.Gas.{
  Scope, word_to_addr, gas_call, gas_callcode, gas_call_no_value, gas_create, gas_create2,
  gas_sstore, with_words, expand_to,
}
use go_tron.Tvm.Contract.{BlockContext, Contract, Outcome, Log, sha3omit12}
use go_tron.Tvm.StateDb.{
  MemStateDb, exist, create_account, get_balance, add_balance, sub_balance, get_nonce, set_nonce,
  get_code, set_code, get_storage, set_storage, snapshot, revert_to_snapshot,
}
use go_tron.Tvm.Opcode.{
  Instr, frame, sstore, create, create2, log_op, call_op, CallKind, kind_call, kind_call_code,
  kind_delegate, kind_static,
}
use go_tron.Tvm.Exec.{Local, Scene, words_of_stack, with_stack, top, rest, push_word}
use go_tron.Tvm.Precompile.{Contracts, lookup_precompile, run_precompile}
use go_tron.Tvm.Exec.Frame.{exec_frame, gas_frame}

-- What all frames of a transaction share and change.
pub record Shared : Type 0 where
  pub world : MemStateDb
  pub logs : List Log

-- What they share and read.
pub record Setting : Type 0 where
  pub words : Uint256
  pub keccak256 : Bytes → ℕ
  pub block : BlockContext
  pub cfg : VmConfig
  pub root_tx_id : Bytes
  pub contracts : Contracts

pub record Frame : Type 0 where
  pub contract : Contract
  pub read_only : Bool
  pub depth : ℕ

pub record Machine : Type 0 where
  pub locals : Local
  pub meter : EnergyMeter
  pub shared : Shared

abbrev pub max_call_depth : ℕ
max_call_depth = 64

-- `run` of a child frame; `none` means that the fuel ran out.
abbrev pub Runner : Type 0
Runner = Frame → ℕ → Shared → Option (Outcome × Shared)

abbrev pub scene : Setting → Frame → Scene
scene g f = record {
  contract = f.contract;
  block = g.block;
  keccak256 = g.keccak256;
  words = g.words;
}

unfoldable pub call_energy : VmConfig → ℕ → ℕ → ℕ
call_energy cfg requested available =
    let capped = if cfg.forward6364 then available - available / 64 else available in
    if ltb requested capped then requested else capped

-- The child's contract.
unfoldable pub child_contract : MemStateDb → Contract → CallKind → ℕ → ℕ → Bytes → Contract
child_contract s c kind_call to value args = record {
  self = to;
  code_addr = to;
  caller = c.self;
  origin = c.origin;
  value = value;
  input = args;
  code = get_code s to;
}
child_contract s c kind_static to value args = record {
  self = to;
  code_addr = to;
  caller = c.self;
  origin = c.origin;
  value = value;
  input = args;
  code = get_code s to;
}
child_contract s c kind_call_code to value args = record {
  self = c.self;
  code_addr = to;
  caller = c.self;
  origin = c.origin;
  value = value;
  input = args;
  code = get_code s to;
}
child_contract s c kind_delegate to value args = record {
  self = c.self;
  code_addr = to;
  caller = c.caller;
  origin = c.origin;
  value = c.value;
  input = args;
  code = get_code s to;
}

abbrev pub moves_value : CallKind → Bool
moves_value kind_call = true
moves_value _ = false

abbrev pub is_static : CallKind → Bool
is_static kind_static = true
is_static _ = false

-- `SubBalance` and `AddBalance`, for CALL with a value.
unfoldable pub transfer : Uint256 → Bool → MemStateDb → ℕ → ℕ → ℕ → MemStateDb
transfer u applies s from to value =
    if applies then add_balance u (sub_balance u s from value) to value else s

unfoldable pub write_return : Memory → ℕ → Bytes → ℕ → Option Memory
unfolding set
write_return mem out_off bytes out_size =
    let n = if ltb out_size (length bytes) then out_size else length bytes in
    if ltb 0 n then set mem out_off (take n bytes) else some mem

-- Success or failure of a child is pushed.
abbrev pub finish : Machine → Local → EnergyMeter → Shared → ℕ → Result Error Machine
finish m l meter shared w = do
  l' ← push_word l w
  ok (record { locals = l'; meter = meter; shared = shared })

abbrev pub finish_with :
    Machine → Option Memory → Bytes → EnergyMeter → Shared → ℕ → Result Error Machine
finish_with m none bytes meter shared w = err go_panic
finish_with m (some mem) bytes meter shared w =
    finish m (record m.locals { mem = mem; return_data = bytes }) meter shared w

-- A panic ends the program, so it ends the caller too.
abbrev pub is_panic : Option Error → Bool
is_panic (some go_panic) = true
is_panic _ = false

-- The child's end: its energy is given back, and a failure reverts the state and the logs.
unfoldable pub after_call :
    Machine → EnergyMeter → ℕ → ℕ → ℕ → ℕ → Outcome × Shared → Result Error Machine
unfolding restore write_return revert_to_snapshot
after_call m spent budget snap out_off out_size (res, sh) =
    let meter = restore spent (sub_u64 budget res.energy_used) in
    let reverted : Shared = record {
      world = revert_to_snapshot snap sh.world;
      logs = take (length m.shared.logs) sh.logs;
    } in
    let wrote = write_return m.locals.mem out_off res.return_bytes out_size in
    if is_panic res.error then err go_panic else elim res.error [
      | some e ↦ finish m (record m.locals { return_data = [] }) meter reverted 0
      | none ↦
          if res.reverted
          then finish_with m wrote res.return_bytes meter reverted 0
          else finish_with m wrote res.return_bytes meter sh 1
    ]

-- The end of a precompiled contract.
unfoldable pub after_precompile :
    Machine → EnergyMeter → ℕ → ℕ → ℕ → ℕ → Shared → Bytes × ℕ × Bool → Result Error Machine
unfolding restore write_return revert_to_snapshot
after_precompile m spent budget snap out_off out_size sh (out, used, failed) =
    let meter = restore spent (sub_u64 budget used) in
    if failed
    then finish m (record m.locals { return_data = [] }) meter
        (record {
          world = revert_to_snapshot snap sh.world;
          logs = take (length m.shared.logs) sh.logs;
        })
        0
    else finish_with m (write_return m.locals.mem out_off out out_size) out meter sh 1

-- The depth and the balance, which a call needs.
abbrev pub cannot_run : Frame → Machine → ℕ → Bool
cannot_run f m value =
    leb max_call_depth f.depth
    || (not (value == 0) && ltb (get_balance m.shared.world f.contract.self) value)

abbrev pub call_not_run : Machine → Result Error Machine
call_not_run m = finish m (record m.locals { return_data = [] }) m.meter m.shared 0

-- The part of `doCall` behind its guards. The operands were popped already.
unfoldable pub run_call :
    Runner
    → Setting
    → Frame
    → Machine
    → CallKind
    → ℕ
    → ℕ
    → ℕ
    → Bytes
    → ℕ
    → ℕ
    → Option (Result Error Machine)
unfolding lookup_precompile run_precompile call_energy child_contract transfer after_call
    after_precompile spend remaining snapshot
run_call run g f m kind to value requested args out_off out_size =
    let child_gas = call_energy g.cfg requested (remaining m.meter) in
    let spent = (spend m.meter child_gas).0 in
    let budget = if value == 0 then child_gas else add_u64 child_gas 2300 in
    let (taken, snap) = snapshot m.shared.world in
    let child = child_contract taken f.contract kind to value args in
    let world =
      transfer g.words (moves_value kind && not (value == 0)) taken f.contract.self to value in
    let sh : Shared = record m.shared { world = world } in
    elim (lookup_precompile g.contracts g.cfg to) [
      | some pc ↦ some (
          after_precompile m spent budget snap out_off out_size sh
            (run_precompile pc args budget g.cfg))
      | none ↦
          elim (run
            (record {
              contract = child;
              read_only = f.read_only || is_static kind;
              depth = suc f.depth;
            })
            budget sh) [
              | none ↦ none
              | some r ↦ some (after_call m spent budget snap out_off out_size r)
            ]
    ]

unfoldable pub do_call :
    Runner
    → Setting
    → Frame
    → Machine
    → CallKind
    → ℕ
    → ℕ
    → ℕ
    → Bytes
    → ℕ
    → ℕ
    → Option (Result Error Machine)
unfolding run_call
do_call run g f m kind to value requested args out_off out_size =
    let transfers = not (value == 0) in
    if (is_static kind || f.read_only) && transfers
    then some (err static_state_change)
    else if cannot_run f m value
    then some (call_not_run m)
    else run_call run g f m kind to value requested args out_off out_size
