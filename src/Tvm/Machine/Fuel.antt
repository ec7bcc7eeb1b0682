-- ===== src/Tvm/Machine/Fuel.antt =====
-- The fuel of the loop bounds it, and has no other effect: a frame that ends on some fuel ends in the
-- same way on more.
use go_tron.Tvm.Precompile.{lookup_precompile}
use go_tron.Tvm.Machine.{
  Shared, Setting, Frame, Machine, Runner, run_call, do_call, is_static, cannot_run, call_not_run,
}
use go_tron.Tvm.Machine.Host.{
  run_create, do_create, with_input, read, nth, call_with_value, call_without_value, exec_call,
  exec_create,
}
use go_tron.Tvm.Machine.Step.{
  gas, exec, then_advance, charged, guarded, step, next_turn, new_machine, run_frame, run,
}
use go_tron.Tvm.Machine.Calls
use go_tron.Tvm.Machine.Creates
use go_tron.Tvm.Opcode.{
  Instr, frame, sstore, create, create2, log_op, call_op, CallKind, kind_call, kind_call_code,
  kind_delegate, kind_static, Operation, op_table, is_enabled,
}
use go_tron.Tvm.Contract.{Outcome}
use go_tron.Tvm.Errors.{Error, static_state_change, stack_underflow, stack_overflow, invalid_opcode}
use go_tron.Tvm.Exec.{words_of_stack}
use go_tron.Tvm.Gas.{word_to_addr}
use go_tron.Tvm.Cost.{clamp_u64}
use go_tron.Tvm.Uint256.{low64}
use go_tron.Tvm.Memory.{Memory}
use go_tron.Tvm.Meter.{spend}
use go_tron.Prelude.Bytes.{Bytes}
use go_tron.Prelude.Result.{Result, ok, err, Result-cases}
use go_tron.Prelude.{
  ℕ, zero, suc, ◌+◌, ◌-◌, ◌≤◌, arith, Bool, true, false, not, ◌&&◌, ◌||◌, if◌then◌else◌, ltb, leb,
  ◌==◌, ◌≡◌, refl, Option, none, some, inl, inr, length, get_or, Option-cases,
}

-- The second result is the first one, if there is a first one.
abbrev pub AtMost {ℓ} : {A : Type ℓ} → Option A → Option A → Type ℓ
AtMost none b = Unit
AtMost (some r) b = b ≡ some r

abbrev pub IsBelow : Runner → Runner → Type 0
IsBelow run more = (f : Frame) (limit : ℕ) (sh : Shared) → AtMost (run f limit sh) (more f limit sh)

AtMost-refl {ℓ} : {A : Type ℓ} (a : Option A) → AtMost a a
AtMost-refl none = tt
AtMost-refl (some r) = refl

AtMost-if {ℓ} :
    {A : Type ℓ} (c : Bool) (a a' b b' : Option A)
    → AtMost a a'
    → AtMost b b'
    → AtMost (if c then a else b) (if c then a' else b')
AtMost-if true a a' b b' h k = h
AtMost-if false a a' b b' h k = k

module _ (run more : Runner) (g : Setting) (f : Frame) (below : IsBelow run more) where
  run_call-AtMost :
      (m : Machine) (kind : CallKind) (to value requested : ℕ) (args : Bytes) (out_off out_size : ℕ)
      → AtMost
          (run_call run g f m kind to value requested args out_off out_size)
          (run_call more g f m kind to value requested args out_off out_size)
  unfolding run_call
  run_call-AtMost m kind to value requested args out_off out_size =
      let budget = Calls.budget g f m kind to value requested args in
      let child = Calls.child g f m kind to value requested args in
      let sent = Calls.sent g f m kind to value requested args in
      elim (Option-cases (lookup_precompile g.contracts g.cfg to)) [
        | inr (native, e) ↦ rw (run_call, e) refl
        | inl e ↦ elim (Option-cases (run child budget sent)) [
          | inl q ↦ rw (run_call, e, q) tt
          | inr (r, q) ↦
              let same = rw q at (below child budget sent) in rw (run_call, e, q, same) refl
        ]
      ]

  do_call-AtMost :
      (m : Machine) (kind : CallKind) (to value requested : ℕ) (args : Bytes) (out_off out_size : ℕ)
      → AtMost
          (do_call run g f m kind to value requested args out_off out_size)
          (do_call more g f m kind to value requested args out_off out_size)
  unfolding do_call
  do_call-AtMost m kind to value requested args out_off out_size =
      AtMost-if ((is_static kind || f.read_only) && not (value == 0)) _ _ _ _
        (AtMost-refl (some (err static_state_change)))
        (AtMost-if (cannot_run f m value) _ _ _ _ (AtMost-refl (some (call_not_run m)))
          (run_call-AtMost m kind to value requested args out_off out_size))

  run_create-AtMost :
      (m : Machine) (value : ℕ) (init_code : Bytes) (salt : Option Bytes)
      → AtMost
          (run_create run g f m value init_code salt)
          (run_create more g f m value init_code salt)
  unfolding run_create
  run_create-AtMost m value init_code salt =
      let child = Creates.child g f m value init_code salt in
      let child_gas = Creates.child_gas g f m value init_code salt in
      let sent = Creates.sent g f m value init_code salt in
      elim (Option-cases (run child child_gas sent)) [
        | inl q ↦ rw (run_create, q) tt
        | inr (r, q) ↦
            let same = rw q at (below child child_gas sent) in rw (run_create, q, same) refl
      ]

  do_create-AtMost :
      (m : Machine) (value : ℕ) (init_code : Bytes) (salt : Option Bytes)
      → AtMost
          (do_create run g f m value init_code salt)
          (do_create more g f m value init_code salt)
  unfolding do_create
  do_create-AtMost m value init_code salt =
      AtMost-if f.read_only _ _ _ _ (AtMost-refl (some (err static_state_change))) (
        AtMost-if (cannot_run f m value) _ _ _ _ (AtMost-refl (some (call_not_run m)))
          (run_create-AtMost m value init_code salt))

with_input-AtMost :
    (m : Machine) (pops : ℕ) (input : Option (Bytes × Memory))
    (next more : Machine → Bytes → Option (Result Error Machine))
    → ((m' : Machine) (bytes : Bytes) → AtMost (next m' bytes) (more m' bytes))
    → AtMost (with_input m pops input next) (with_input m pops input more)
unfolding with_input
with_input-AtMost m pops none next more h = refl
with_input-AtMost m pops (some (bytes, mem)) next more h = h _ bytes

module _ (run more : Runner) (g : Setting) (f : Frame) (m : Machine)
    (below : IsBelow run more) where
  call_with_value-AtMost :
      (kind : CallKind) → AtMost (call_with_value run g f m kind) (call_with_value more g f m kind)
  unfolding call_with_value
  call_with_value-AtMost kind =
      let ws = words_of_stack m.locals in
      with_input-AtMost m 7 (read m (nth ws 3) (nth ws 4)) _ _ (λ m' args.
        do_call-AtMost run more g f below m' kind (word_to_addr (nth ws 1)) (nth ws 2)
          (clamp_u64 (nth ws 0)) args (low64 (nth ws 5)) (low64 (nth ws 6)))

  call_without_value-AtMost :
      (kind : CallKind)
      → AtMost (call_without_value run g f m kind) (call_without_value more g f m kind)
  unfolding call_without_value
  call_without_value-AtMost kind =
      let ws = words_of_stack m.locals in
      with_input-AtMost m 6 (read m (nth ws 2) (nth ws 3)) _ _ (λ m' args.
        do_call-AtMost run more g f below m' kind (word_to_addr (nth ws 1)) 0 (clamp_u64 (nth ws 0))
          args (low64 (nth ws 4)) (low64 (nth ws 5)))

  exec_call-AtMost :
      (kind : CallKind) → AtMost (exec_call run g f m kind) (exec_call more g f m kind)
  unfolding exec_call
  exec_call-AtMost kind_call = call_with_value-AtMost kind_call
  exec_call-AtMost kind_call_code = call_with_value-AtMost kind_call_code
  exec_call-AtMost kind_delegate = call_without_value-AtMost kind_delegate
  exec_call-AtMost kind_static = call_without_value-AtMost kind_static

  exec_create-AtMost :
      (salted : Bool) → AtMost (exec_create run g f m salted) (exec_create more g f m salted)
  unfolding exec_create
  exec_create-AtMost salted =
      let ws = words_of_stack m.locals in
      with_input-AtMost m (if salted then 4 else 3) (read m (nth ws 1) (nth ws 2)) _ _
        (λ m' code. do_create-AtMost run more g f below m' (nth ws 0) code _)

  exec-AtMost : (o : Instr) → AtMost (exec run g f m o) (exec more g f m o)
  unfolding exec
  exec-AtMost (frame o) = refl
  exec-AtMost sstore = refl
  exec-AtMost create = exec_create-AtMost false
  exec-AtMost create2 = exec_create-AtMost true
  exec-AtMost (log_op n) = refl
  exec-AtMost (call_op kind) = exec_call-AtMost kind

then_advance-AtMost :
    (o : Instr) (r r' : Option (Result Error Machine))
    → AtMost r r'
    → AtMost (then_advance o r) (then_advance o r')
then_advance-AtMost o none r' h = tt
then_advance-AtMost o (some (err e)) r' h = rw (h) refl
then_advance-AtMost o (some (ok m)) r' h = rw (h) refl

module _ (run more : Runner) (g : Setting) (f : Frame) (m : Machine)
    (below : IsBelow run more) where
  charged-AtMost : (o : Instr) → AtMost (charged run g f m o) (charged more g f m o)
  unfolding charged
  charged-AtMost o = elim (Result-cases (gas g f m o)) [
    | inr (e, q) ↦ rw (charged, q) refl
    | inl (cost, q) ↦ elim (Result-cases ((spend m.meter cost).1)) [
      | inr (e, q') ↦ rw (charged, q, q') refl
      | inl (c, q') ↦
          rw (charged, q, q')
            (then_advance-AtMost o _ _
              (exec-AtMost run more g f (record m { meter = (spend m.meter cost).0 }) below o))
    ]
  ]

  guarded-AtMost : (o : Operation) → AtMost (guarded run g f m o) (guarded more g f m o)
  unfolding guarded
  guarded-AtMost o =
      let size = length (words_of_stack m.locals) in
      AtMost-if (is_enabled o.enabled g.cfg) _ _ _ _
        (AtMost-if (ltb size o.pops) _ _ _ _ (AtMost-refl (some (err stack_underflow))) (
          AtMost-if (ltb 1024 (size - o.pops + o.pushes)) _ _ _ _
            (AtMost-refl (some (err stack_overflow))) (charged-AtMost o.instr)))
        (AtMost-refl (some (err invalid_opcode)))

  pub step-AtMost : AtMost (step run g f m) (step more g f m)
  unfolding step
  step-AtMost = elim (Option-cases (op_table (get_or f.contract.code m.locals.pc 0))) [
    | inl e ↦ rw (step, e) refl
    | inr (o, e) ↦ rw (step, e) (guarded-AtMost o)
  ]

next_turn-AtMost :
    (m : Machine) (r r' : Option (Result Error Machine))
    (turn turn' : Machine → Option (Outcome × Shared))
    → AtMost r r'
    → ((m' : Machine) → AtMost (turn m') (turn' m'))
    → AtMost (next_turn m r turn) (next_turn m r' turn')
next_turn-AtMost m none r' turn turn' h k = tt
next_turn-AtMost m (some (err e)) r' turn turn' h k = rw (h) refl
next_turn-AtMost m (some (ok m')) r' turn turn' h k = rw (h) (k m')

pub run_frame-AtMost :
    (fuel more : ℕ) (g : Setting) (f : Frame) (m : Machine)
    → fuel ≤ more
    → AtMost (run_frame fuel g f m) (run_frame more g f m)
unfolding run_frame
run_frame-AtMost zero more g f m h = tt
run_frame-AtMost (suc fuel) zero g f m h = absurd (omega arith)
run_frame-AtMost (suc fuel) (suc more) g f m h =
    AtMost-if (m.locals.stopped || leb (length f.contract.code) m.locals.pc) _ _ _ _ refl (
      next_turn-AtMost m _ _ _ _
        (step-AtMost _ _ g f m
          (λ f' limit sh. run_frame-AtMost fuel more g f' (new_machine limit sh) (omega arith)))
        (λ m'. run_frame-AtMost fuel more g f m' (omega arith)))

pub run-IsBelow : (fuel more : ℕ) (g : Setting) → fuel ≤ more → IsBelow (run fuel g) (run more g)
unfolding run
run-IsBelow fuel more g h f limit sh = run_frame-AtMost fuel more g f (new_machine limit sh) h
