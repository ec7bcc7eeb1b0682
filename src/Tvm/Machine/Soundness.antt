-- ===== src/Tvm/Machine/Soundness.antt =====
-- interpreter.go: what holds of every frame that ends, whatever code it runs.
use go_tron.Tvm.Machine.Instructions.{exec-Keeps}
use go_tron.Tvm.Machine.{Shared, Setting, Frame, Machine, Runner}
use go_tron.Tvm.Machine.Step.{
  gas, then_advance, charged, guarded, step, new_machine, run_frame, next_turn, run,
}
use go_tron.Tvm.Machine.Effect.{Effect-refl, Effect-trans}
use go_tron.Tvm.Machine.Kept.{Kept, Keeps, Ends, IsSound, Keeps-if, spend-Keeps}
use go_tron.Tvm.Opcode.{Instr, Operation, is_enabled, op_table, jumps, halts}
use go_tron.Tvm.Contract.{Outcome}
use go_tron.Tvm.Errors.{Error, stack_underflow, stack_overflow}
use go_tron.Tvm.Exec.{words_of_stack}
use go_tron.Tvm.Meter.{EnergyMeter, spend}
use go_tron.Tvm.Meter.Budget.{IsMeter}
use go_tron.Prelude.Bytes.{nat_eq}
use go_tron.Prelude.Result.{Result, ok, err, Result-cases}
use go_tron.Prelude.{
  ℕ, zero, suc, ◌+◌, ◌-◌, Bool, ◌||◌, ltb, leb, ◌≡◌, sym, ◌∙◌, Option, none, some, inl, inr, length,
  get_or, arith, Option-cases, Bool-cases,
}

advance-Keeps :
    (ro : Bool) (m : Machine) (o : Instr) (r : Option (Result Error Machine))
    → Keeps ro m r
    → Keeps ro m (then_advance o r)
advance-Keeps ro m o none h = tt
advance-Keeps ro m o (some (err e)) h = tt
advance-Keeps ro m o (some (ok m')) h = elim (Bool-cases (jumps o || halts o)) [
  | inl e ↦ rw (e) h
  | inr e ↦ rw (e) h
]

-- The meter behind a charge.
Keeps-meter :
    (ro : Bool) (m : Machine) (meter : EnergyMeter) (r : Option (Result Error Machine))
    → meter.limit ≡ m.meter.limit
    → Keeps ro (record m { meter = meter }) r
    → Keeps ro m r
Keeps-meter ro m meter none l h = tt
Keeps-meter ro m meter (some (err e)) l h = tt
Keeps-meter ro m meter (some (ok m')) l h = record {
  effect = h.effect;
  is_meter = h.is_meter;
  same_limit = h.same_limit ∙ l;
}

module _ (run : Runner) (g : Setting) (f : Frame) (m : Machine) (sound : IsSound run)
    (i : IsMeter m.meter) where
  charged-Keeps : (o : Instr) → Keeps f.read_only m (charged run g f m o)
  unfolding charged
  charged-Keeps o = elim (Result-cases (gas g f m o)) [
    | inr (e, q) ↦ rw (charged, q) tt
    | inl (cost, q) ↦
        let paid = spend-Keeps m.meter cost i in
        elim (Result-cases ((spend m.meter cost).1)) [
          | inr (e, q') ↦ rw (charged, q, q') tt
          | inl (c, q') ↦
              rw (charged, q, q')
                (advance-Keeps f.read_only m o _ (
                  Keeps-meter f.read_only m (spend m.meter cost).0 _ paid.1 (
                    exec-Keeps run g f (record m { meter = (spend m.meter cost).0 }) sound paid.0
                      o)))
        ]
  ]

  guarded-Keeps : (o : Operation) → Keeps f.read_only m (guarded run g f m o)
  unfolding guarded
  guarded-Keeps o =
      let size = length (words_of_stack m.locals) in
      Keeps-if _ m (is_enabled o.enabled g.cfg) _ _
        (λ _.
          Keeps-if _ m (ltb size o.pops) (some (err stack_underflow)) _ (λ _. tt)
            (λ _.
              Keeps-if _ m (ltb 1024 (size - o.pops + o.pushes)) (some (err stack_overflow)) _
                (λ _. tt) (λ _. charged-Keeps o.instr)))
        (λ _. tt)

  pub step-Keeps : Keeps f.read_only m (step run g f m)
  unfolding step
  step-Keeps = elim (Option-cases (op_table (get_or f.contract.code m.locals.pc 0))) [
    | inl e ↦ rw (step, e) tt
    | inr (o, e) ↦ rw (step, e) (guarded-Keeps o)
  ]

-- What a frame ends in, from what a running machine has kept.
Ends-Kept :
    (ro : Bool) (m m' : Machine) (r : Option (Outcome × Shared))
    → Kept ro m m'.meter m'.shared
    → Ends ro m'.meter.limit m'.shared r
    → Ends ro m.meter.limit m.shared r
Ends-Kept ro m m' none h k = tt
Ends-Kept ro m m' (some (o, t)) h k =
    (Effect-trans h.effect k.0, let same = h.same_limit in let bound = k.1 in rw (sym same) bound)

next_turn-Ends :
    (ro : Bool) (m : Machine) (r : Option (Result Error Machine))
    (turn : Machine → Option (Outcome × Shared))
    → Keeps ro m r
    → ((m' : Machine) → IsMeter m'.meter → Ends ro m'.meter.limit m'.shared (turn m'))
    → Ends ro m.meter.limit m.shared (next_turn m r turn)
next_turn-Ends ro m none turn h k = tt
next_turn-Ends ro m (some (err e)) turn h k = (Effect-refl ro m.shared, omega arith)
next_turn-Ends ro m (some (ok m')) turn h k = Ends-Kept ro m m' (turn m') h (k m' h.is_meter)

run_frame-Ends :
    (fuel : ℕ) (g : Setting) (f : Frame) (m : Machine)
    → IsMeter m.meter
    → Ends f.read_only m.meter.limit m.shared (run_frame fuel g f m)
unfolding run_frame
run_frame-Ends zero g f m i = tt
run_frame-Ends (suc fuel) g f m i =
    elim (Bool-cases (m.locals.stopped || leb (length f.contract.code) m.locals.pc)) [
      | inl e ↦ rw (run_frame, e) (Effect-refl f.read_only m.shared, i.1)
      | inr e ↦
          rw (run_frame, e)
            (next_turn-Ends f.read_only m _ _
              (step-Keeps _ g f m
                (λ f' limit sh h. run_frame-Ends fuel g f' (new_machine limit sh) (h, omega arith))
                i)
              (λ m' j. run_frame-Ends fuel g f m' j))
    ]

-- A frame that ends on any fuel used no more energy than its 64-bit limit, kept the snapshots it was
-- given, only added logs, and, where it may only read, changed neither the accounts nor the logs.
pub run-IsSound : (fuel : ℕ) (g : Setting) → IsSound (run fuel g)
unfolding run
run-IsSound fuel g f limit sh h = run_frame-Ends fuel g f (new_machine limit sh) (h, omega arith)
