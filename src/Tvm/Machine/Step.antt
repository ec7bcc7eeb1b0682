-- ===== src/Tvm/Machine/Step.antt =====
-- internal/tvm/interpreter.go, instructions.go and logs.go: the execution of one instruction, and the
-- loop of a frame. `gas` and `exec` are the columns of the jump table.
use go_tron.Prelude.{
  ℕ, zero, suc, ◌+◌, ◌-◌, ◌*◌, true, false, ◌||◌, if◌then◌else◌, ltb, leb, Option, none, some, [],
  length, get_or,
}
use go_tron.Prelude.Result.{Result, ok, err, ◌>>=◌}
use go_tron.Tvm.Errors.{Error, invalid_opcode, stack_underflow, stack_overflow}
use go_tron.Tvm.Memory.{new_memory}
use go_tron.Tvm.Meter.{new_energy_meter, spend, remaining, add_u64}
use go_tron.Tvm.Cost.{to_uint64}
use go_tron.Tvm.Gas.{
  Scope, operand, expand_to, gas_call, gas_callcode, gas_call_no_value, gas_create, gas_create2,
  gas_sstore,
}
use go_tron.Tvm.Contract.{Contract, Outcome}
use go_tron.Tvm.StateDb.{exist, get_storage}
use go_tron.Tvm.Opcode.{
  Instr, frame, sstore, create, create2, log_op, call_op, kind_call, kind_call_code, kind_delegate,
  kind_static, op_table, Operation, is_enabled, halts, jumps,
}
use go_tron.Tvm.Exec.{Local, words_of_stack}
use go_tron.Tvm.Exec.Frame.{exec_frame, gas_frame}
use go_tron.Tvm.Machine.{Shared, Setting, Frame, Machine, Runner, scene}
use go_tron.Tvm.Machine.Host.{exec_call, exec_create, exec_log, exec_sstore}

unfoldable pub gas_log : ℕ → Scope → Result Error ℕ
unfolding expand_to to_uint64
gas_log n sc = do
  exp ← expand_to sc (operand sc 0) (operand sc 1)
  sz ← to_uint64 (operand sc 1)
  ok (add_u64 (375 + 375 * n + 8 * sz) exp)

unfoldable pub gas : Setting → Frame → Machine → Instr → Result Error ℕ
unfolding gas_frame gas_sstore gas_create gas_create2 gas_log gas_call gas_callcode
    gas_call_no_value exist get_storage
gas g f m i =
    let sc : Scope = record { stack = m.locals.stack; mem = m.locals.mem } in
    elim i [
      | frame o ↦ gas_frame g.words.byte_len g.cfg sc o
      | sstore ↦ gas_sstore (get_storage m.shared.world f.contract.self) sc
      | create ↦ gas_create sc
      | create2 ↦ gas_create2 sc
      | log_op n ↦ gas_log n sc
      | call_op kind ↦ elim kind [
        | kind_call ↦ gas_call (exist m.shared.world) sc
        | kind_call_code ↦ gas_callcode sc
        | kind_delegate ↦ gas_call_no_value sc
        | kind_static ↦ gas_call_no_value sc
      ]
    ]

abbrev pub with_locals : Machine → Result Error Local → Result Error Machine
with_locals m (ok l) = ok (record m { locals = l })
with_locals m (err e) = err e

unfoldable pub exec : Runner → Setting → Frame → Machine → Instr → Option (Result Error Machine)
unfolding exec_frame exec_sstore exec_create exec_log exec_call remaining
exec run g f m (frame o) =
    some (with_locals m (exec_frame (scene g f) m.shared.world (remaining m.meter) m.locals o))
exec run g f m sstore = some (exec_sstore f m)
exec run g f m create = exec_create run g f m false
exec run g f m create2 = exec_create run g f m true
exec run g f m (log_op n) = some (exec_log f m n)
exec run g f m (call_op kind) = exec_call run g f m kind

-- The program counter moves on, unless the instruction set it or ended the frame.
abbrev pub advance : Instr → Machine → Machine
advance i m =
    if jumps i || halts i then m else record m { locals = record m.locals { pc = m.locals.pc + 1 } }

abbrev pub then_advance : Instr → Option (Result Error Machine) → Option (Result Error Machine)
then_advance i none = none
then_advance i (some (err e)) = some (err e)
then_advance i (some (ok m)) = some (ok (advance i m))

-- The charge and the execution, behind the guards.
unfoldable pub charged : Runner → Setting → Frame → Machine → Instr → Option (Result Error Machine)
unfolding gas spend exec
charged run g f m i = elim (gas g f m i) [
  | err e ↦ some (err e)
  | ok cost ↦ elim ((spend m.meter cost).1) [
    | err e ↦ some (err e)
    | ok _ ↦ then_advance i (exec run g f (record m { meter = (spend m.meter cost).0 }) i)
  ]
]

unfoldable pub guarded :
    Runner → Setting → Frame → Machine → Operation → Option (Result Error Machine)
unfolding charged
guarded run g f m o =
    let size = length (words_of_stack m.locals) in
    if is_enabled o.enabled g.cfg
    then if ltb size o.pops
      then some (err stack_underflow)
      else if ltb 1024 (size - o.pops + o.pushes)
      then some (err stack_overflow)
      else charged run g f m o.instr
    else some (err invalid_opcode)

-- One turn of the loop.
unfoldable pub step : Runner → Setting → Frame → Machine → Option (Result Error Machine)
unfolding op_table guarded
step run g f m = elim (op_table (get_or f.contract.code m.locals.pc 0)) [
  | none ↦ some (err invalid_opcode)
  | some o ↦ guarded run g f m o
]

-- `fail`: all the energy is used. A panic has no outcome in the source; here its outcome is one that
-- every caller passes on.
abbrev pub fail : Machine → Error → Outcome × Shared
fail m e = (
  record { return_bytes = []; reverted = false; energy_used = m.meter.limit; error = some e },
  m.shared,
)

abbrev pub normal_end : Machine → Outcome × Shared
normal_end m = (
  record {
    return_bytes = m.locals.ret;
    reverted = m.locals.reverted;
    energy_used = m.meter.used;
    error = none;
  },
  m.shared,
)

-- `run`: a new frame.
abbrev pub new_machine : ℕ → Shared → Machine
new_machine limit sh = record {
  locals = record {
    stack = record { data_of = [] };
    mem = new_memory;
    pc = 0;
    stopped = false;
    ret = [];
    reverted = false;
    return_data = [];
  };
  meter = new_energy_meter limit;
  shared = sh;
}

-- The next turn, or the fault that ends the frame.
abbrev pub next_turn :
    Machine
    → Option (Result Error Machine)
    → (Machine → Option (Outcome × Shared))
    → Option (Outcome × Shared)
next_turn m none turn = none
next_turn m (some (err e)) turn = some (fail m e)
next_turn m (some (ok m')) turn = turn m'

-- `runFrame`, on fuel. The frames that it calls run on the fuel that is left.
unfoldable pub run_frame : ℕ → Setting → Frame → Machine → Option (Outcome × Shared)
unfolding step
run_frame zero g f m = none
run_frame (suc fuel) g f m =
    if m.locals.stopped || leb (length f.contract.code) m.locals.pc
    then some (normal_end m)
    else next_turn m (step (λ f' limit sh. run_frame fuel g f' (new_machine limit sh)) g f m)
        (λ m'. run_frame fuel g f m')

-- `run`
unfoldable pub run : ℕ → Setting → Runner
unfolding run_frame
run fuel g f limit sh = run_frame fuel g f (new_machine limit sh)

-- `Execute`: the outermost frame.
unfoldable pub execute : ℕ → Setting → Contract → ℕ → Shared → Option (Outcome × Shared)
unfolding run
execute fuel g c limit sh =
    run fuel g (record { contract = c; read_only = false; depth = 0 }) limit sh
