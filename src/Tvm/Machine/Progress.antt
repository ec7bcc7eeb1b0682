-- ===== src/Tvm/Machine/Progress.antt =====
-- instructions.go: every turn of the loop has a result.
use go_tron.Tvm.Machine.Turns.{
  sent_value, exec_call-Yields, exec_create-Yields, TurnsOf, advance-Turned, frame-Turned,
}
use go_tron.Tvm.Machine.Yields.{Children, Yields}
use go_tron.Tvm.Machine.{Setting, Frame, Machine, Runner, scene}
use go_tron.Tvm.Machine.Host.{exec_log, exec_sstore, add_log, read, nth, exec_call, exec_create}
use go_tron.Tvm.Machine.Step.{gas, exec, then_advance, charged, guarded, step}
use go_tron.Tvm.Machine.Kept.{spend-Keeps}
use go_tron.Tvm.Machine.Spent.{left, Costs, spend-left}
use go_tron.Tvm.Gas.Floor.{
  stipend, gas_call_floor, gas_callcode_floor, gas_call_no_value_floor, gas_create_floor,
  gas_create2_floor,
}
use go_tron.Tvm.StateDb.{exist}
use go_tron.Tvm.Exec.Moves.{exec_frame-Moves}
use go_tron.Tvm.Exec.Frame.{gas_frame}
use go_tron.Tvm.Opcode.{
  Instr, frame, sstore, create, create2, log_op, call_op, jump, jumpi, jumps, halts, Operation,
  is_enabled, op_table, CallKind, kind_call, kind_call_code, kind_delegate, kind_static,
}
use go_tron.Tvm.Errors.{invalid_opcode, stack_underflow, stack_overflow, Error}
use go_tron.Tvm.Exec.{words_of_stack}
use go_tron.Tvm.Memory.{Memory}
use go_tron.Tvm.Meter.{EnergyMeter, spend, remaining}
use go_tron.Tvm.Meter.Budget.{IsMeter}
use go_tron.Prelude.Bytes.{Bytes}
use go_tron.Prelude.Result.{Result, ok, err, Result-cases}
use go_tron.Prelude.{
  length, ◌∙◌, get_or, ap, [], ◌∷◌, List, ℕ, ◌+◌, ◌-◌, ◌≤◌, ◌<◌, true, false, ◌||◌, ◌⊎◌, ltb, ◌≡◌,
  refl, Option, none, some, inl, inr, arith, Option-cases, if_not, Bool-cases,
}

exec_sstore-Costs : (f : Frame) (m : Machine) → Costs m.locals.pc (left m.meter) (exec_sstore f m)
unfolding exec_sstore
exec_sstore-Costs f m = elim (Bool-cases f.read_only) [
  | inl e ↦ rw (exec_sstore, e) tt
  | inr e ↦ rw (exec_sstore, e) (omega arith, refl)
]

exec_log-Costs :
    (f : Frame) (m : Machine) (n : ℕ) → Costs m.locals.pc (left m.meter) (exec_log f m n)
unfolding exec_log
exec_log-Costs f m n = elim (Bool-cases f.read_only) [
  | inl e ↦ rw (exec_log, e) tt
  | inr e ↦ rw (exec_log, e) (go (read m _ _))
]
  where
    go : (r : Option (Bytes × Memory)) → Costs m.locals.pc (left m.meter) (add_log f m n r)
    go none = tt
    go (some (bytes, mem)) = (omega arith, refl)

-- A granted charge was covered.
spend-covered :
    (meter : EnergyMeter) (c n : ℕ) → IsMeter meter → (spend meter c).1 ≡ ok n → c ≤ left meter
unfolding spend
spend-covered meter c n i e = ground arith

jump_gas :
    (g : Setting) (f : Frame) (m : Machine) (o : Instr) (c : ℕ)
    → gas g f m o ≡ ok c
    → (o ≡ frame jump) ⊎ (o ≡ frame jumpi)
    → 8 ≤ c
unfolding gas gas_frame
jump_gas g f m o c e (inl q) =
    let same : gas g f m (frame jump) ≡ ok c = rw (q) at e in ground arith
jump_gas g f m o c e (inr q) =
    let same : gas g f m (frame jumpi) ≡ ok c = rw (q) at e in ground arith

third_operand : (ws : List ℕ) → get_or ws 2 0 ≡ nth ws 2
third_operand [] = refl
third_operand (x ∷ []) = refl
third_operand (x ∷ y ∷ []) = refl
third_operand (x ∷ y ∷ z ∷ ws) = refl

call_gas :
    (g : Setting) (f : Frame) (m : Machine) (kind : CallKind) (c : ℕ)
    → gas g f m (call_op kind) ≡ ok c
    → 40 + stipend (sent_value kind (words_of_stack m.locals)) ≤ c
unfolding gas
call_gas g f m kind_call c e = rw (third_operand (words_of_stack m.locals)) at (
    gas_call_floor (exist m.shared.world) (record { stack = m.locals.stack; mem = m.locals.mem }) c
      e)
call_gas g f m kind_call_code c e =
    rw (third_operand (words_of_stack m.locals)) at
      (gas_callcode_floor (record { stack = m.locals.stack; mem = m.locals.mem }) c e)
call_gas g f m kind_delegate c e =
    gas_call_no_value_floor (record { stack = m.locals.stack; mem = m.locals.mem }) c e
call_gas g f m kind_static c e =
    gas_call_no_value_floor (record { stack = m.locals.stack; mem = m.locals.mem }) c e

create_gas :
    (g : Setting) (f : Frame) (m : Machine) (o : Instr) (c : ℕ)
    → gas g f m o ≡ ok c
    → (o ≡ create) ⊎ (o ≡ create2)
    → 0 < c
unfolding gas
create_gas g f m o c e (inl q) =
    let same : gas g f m create ≡ ok c = rw (q) at e in
    let floor = gas_create_floor (record { stack = m.locals.stack; mem = m.locals.mem }) c same in
    omega arith
create_gas g f m o c e (inr q) =
    let same : gas g f m create2 ≡ ok c = rw (q) at e in
    let floor = gas_create2_floor (record { stack = m.locals.stack; mem = m.locals.mem }) c same in
    omega arith

-- From a result of the execution to one of the turn.
turn_of :
    (g : Setting) (o : Instr) (pc bound energy : ℕ) (instr : Runner → Option (Result Error Machine))
    → (jumps o || halts o) ≡ false
    → bound ≤ energy
    → Yields g pc bound instr
    → TurnsOf g pc energy (λ run. then_advance o (instr run))
turn_of g o pc bound energy instr q h (n, r, e, costs) =
    let (t, turned, moves) = advance-Turned o pc bound energy r q h costs in
    (n, t, ap (then_advance o) e ∙ turned, moves)

module _ (g : Setting) (f : Frame) (m : Machine) (i : IsMeter m.meter)
    (children : Children g (left m.meter)) where
  module _ (o : Instr) (cost n : ℕ) (granted : gas g f m o ≡ ok cost)
      (paid : (spend m.meter cost).1 ≡ ok n) where
    abbrev charged_machine : Machine
    charged_machine = record m { meter = (spend m.meter cost).0 }

    covered : cost ≤ left m.meter
    covered = spend-covered m.meter cost n i paid

    after_charge : left charged_machine.meter ≡ left m.meter - cost
    after_charge = spend-left m.meter cost i covered

    still : IsMeter charged_machine.meter
    still = (spend-Keeps m.meter cost i).0

  exec-Turns :
      (o : Instr) (cost n : ℕ) (granted : gas g f m o ≡ ok cost)
      (paid : (spend m.meter cost).1 ≡ ok n)
      → TurnsOf g m.locals.pc
          (left m.meter)
          (λ run. then_advance o (exec run g f (charged_machine o cost n granted paid) o))
  unfolding exec
  exec-Turns (frame o) cost n granted paid =
      let mc = charged_machine (frame o) cost n granted paid in
      let energy = after_charge (frame o) cost n granted paid in
      let enough = covered (frame o) cost n granted paid in
      let (t, turned, moves) =
        frame-Turned o mc (left m.meter) _ (omega arith)
          (λ q. let eight = jump_gas g f m (frame o) cost granted q in omega arith)
          (exec_frame-Moves (scene g f) m.shared.world (remaining mc.meter) m.locals o) in
      (0, t, turned, moves)
  exec-Turns sstore cost n granted paid =
      let mc = charged_machine sstore cost n granted paid in
      let energy = after_charge sstore cost n granted paid in
      turn_of g sstore m.locals.pc (left mc.meter) (left m.meter) (λ run. some (exec_sstore f mc))
        refl (omega arith) (0, exec_sstore f mc, refl, exec_sstore-Costs f mc)
  exec-Turns (log_op k) cost n granted paid =
      let mc = charged_machine (log_op k) cost n granted paid in
      let energy = after_charge (log_op k) cost n granted paid in
      turn_of g (log_op k) m.locals.pc (left mc.meter) (left m.meter)
        (λ run. some (exec_log f mc k)) refl (omega arith)
        (0, exec_log f mc k, refl, exec_log-Costs f mc k)
  exec-Turns create cost n granted paid =
      let mc = charged_machine create cost n granted paid in
      let energy = after_charge create cost n granted paid in
      let enough = covered create cost n granted paid in
      let positive = create_gas g f m create cost granted (inl refl) in
      turn_of g create m.locals.pc (left mc.meter) (left m.meter)
        (λ run. exec_create run g f mc false) refl (omega arith)
        (exec_create-Yields g (left m.meter) children f mc (still create cost n granted paid) false
          (omega arith))
  exec-Turns create2 cost n granted paid =
      let mc = charged_machine create2 cost n granted paid in
      let energy = after_charge create2 cost n granted paid in
      let enough = covered create2 cost n granted paid in
      let positive = create_gas g f m create2 cost granted (inr refl) in
      turn_of g create2 m.locals.pc (left mc.meter) (left m.meter)
        (λ run. exec_create run g f mc true) refl (omega arith)
        (exec_create-Yields g (left m.meter) children f mc (still create2 cost n granted paid) true
          (omega arith))
  exec-Turns (call_op kind) cost n granted paid =
      let mc = charged_machine (call_op kind) cost n granted paid in
      let energy = after_charge (call_op kind) cost n granted paid in
      let enough = covered (call_op kind) cost n granted paid in
      let floor = call_gas g f m kind cost granted in
      turn_of g (call_op kind) m.locals.pc
        (left mc.meter + stipend (sent_value kind (words_of_stack m.locals))) (left m.meter)
        (λ run. exec_call run g f mc kind) refl (omega arith)
        (exec_call-Yields g (left m.meter) children f mc (still (call_op kind) cost n granted paid)
          kind (omega arith))

  charged-Turns : (o : Instr) → TurnsOf g m.locals.pc (left m.meter) (λ run. charged run g f m o)
  unfolding charged
  charged-Turns o = elim (Result-cases (gas g f m o)) [
    | inr (e, q) ↦ (0, err e, rw (charged, q) refl, tt)
    | inl (cost, q) ↦ elim (Result-cases ((spend m.meter cost).1)) [
      | inr (e, q') ↦ (0, err e, rw (charged, q, q') refl, tt)
      | inl (c, q') ↦
          let (n, r, e, turned) = exec-Turns o cost c q q' in (n, r, rw (charged, q, q') e, turned)
    ]
  ]

  guarded-Turns :
      (o : Operation) → TurnsOf g m.locals.pc (left m.meter) (λ run. guarded run g f m o)
  unfolding guarded
  guarded-Turns o =
      let size = length (words_of_stack m.locals) in
      elim (Bool-cases (is_enabled o.enabled g.cfg)) [
        | inr e ↦ (0, err invalid_opcode, if_not _ _ _ e, tt)
        | inl e ↦ elim (Bool-cases (ltb size o.pops)) [
          | inl q ↦ (0, err stack_underflow, rw (guarded, e, q) refl, tt)
          | inr q ↦ elim (Bool-cases (ltb 1024 (size - o.pops + o.pushes))) [
            | inl u ↦ (0, err stack_overflow, rw (guarded, e, q, u) refl, tt)
            | inr u ↦
                let (n, r, t, turned) = charged-Turns o.instr in
                (n, r, rw (guarded, e, q, u) t, turned)
          ]
        ]
      ]

  pub step-Turns : TurnsOf g m.locals.pc (left m.meter) (λ run. step run g f m)
  unfolding step
  step-Turns = elim (Option-cases (op_table (get_or f.contract.code m.locals.pc 0))) [
    | inl e ↦ (0, err invalid_opcode, rw (step, e) refl, tt)
    | inr (o, e) ↦ let (n, r, t, turned) = guarded-Turns o in (n, r, rw (step, e) t, turned)
  ]
