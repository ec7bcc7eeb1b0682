-- ===== src/Tvm/Machine/Termination.antt =====
-- interpreter.go: the loop of every frame ends.
use go_tron.Tvm.Machine.Progress.{step-Turns}
use go_tron.Tvm.Machine.Turns.{Turned}
use go_tron.Tvm.Machine.Yields.{Children}
use go_tron.Tvm.Machine.{Shared, Setting, Frame, Machine}
use go_tron.Tvm.Machine.Step.{run, step, run_frame, fail, normal_end, new_machine}
use go_tron.Tvm.Machine.Fuel.{step-AtMost, run_frame-AtMost, run-IsBelow}
use go_tron.Tvm.Machine.Soundness.{run-IsSound, step-Keeps}
use go_tron.Tvm.Machine.Spent.{left}
use go_tron.Tvm.Contract.{Outcome}
use go_tron.Tvm.Errors.{Error}
use go_tron.Tvm.Meter.Budget.{IsMeter}
use go_tron.Prelude.Result.{Result, ok, err}
use go_tron.Prelude.{
  suc, zero, leb, length, ℕ, ◌+◌, ◌-◌, ◌^◌, ◌≤◌, ◌<◌, true, false, ◌||◌, ◌≡◌, refl, some, inl, inr,
  arith, Bool-cases,
}

abbrev EndsOn : Setting → Frame → Machine → Type 0
EndsOn g f m = (n : ℕ) × (r : Outcome × Shared) × (run_frame n g f m ≡ some r)

-- One turn, and the frame behind it.
ends_after :
    (g : Setting) (f : Frame) (m m' : Machine) (n : ℕ)
    → (m.locals.stopped || leb (length f.contract.code) m.locals.pc) ≡ false
    → step (run n g) g f m ≡ some (ok m')
    → EndsOn g f m'
    → EndsOn g f m
unfolding run run_frame
ends_after g f m m' n e turned (k, r, last) =
    let turned' =
      rw turned at
        (step-AtMost (run n g) (run (n + k) g) g f m (run-IsBelow n (n + k) g (omega arith))) in
    let last' = rw last at (run_frame-AtMost k (n + k) g f m' (omega arith)) in
    (suc (n + k), r, rw (run_frame, e, turned') last')

-- A turn with its result, where the frame ends behind every machine that the turn may leave.
turn_ends :
    (g : Setting) (f : Frame) (m : Machine) (n : ℕ) (r : Result Error Machine)
    → IsMeter m.meter
    → (m.locals.stopped || leb (length f.contract.code) m.locals.pc) ≡ false
    → step (run n g) g f m ≡ some r
    → Turned m.locals.pc (left m.meter) r
    → ((m' : Machine)
        → IsMeter m'.meter
        → Turned m.locals.pc (left m.meter) (ok m')
        → EndsOn g f m')
    → EndsOn g f m
unfolding run run_frame
turn_ends g f m n (err e) i q turned moved next = (suc n, fail m e, rw (run_frame, q, turned) refl)
turn_ends g f m n (ok m') i q turned moved next =
    let kept = rw turned at (step-Keeps (run n g) g f m (run-IsSound n g) i) in
    ends_after g f m m' n q turned (next m' kept.is_meter moved)

stopped_ends : (g : Setting) (f : Frame) (m : Machine) → m.locals.stopped ≡ true → EndsOn g f m
unfolding run_frame
stopped_ends g f m e = (1, normal_end m, rw (run_frame, e) refl)

-- Where the frames with less energy end, a frame ends, by the code that is ahead of its counter.
module _ (g : Setting) (energy : ℕ)
    (smaller : (f : Frame) (m : Machine)
      → IsMeter m.meter
      → left m.meter < energy
      → EndsOn g f m) where
  -- The loop's test, and then a turn.
  loop_ends :
      (f : Frame) (m : Machine)
      → IsMeter m.meter
      → left m.meter ≤ energy
      → (m.locals.pc < length f.contract.code
          → (m' : Machine) → IsMeter m'.meter
          → left m'.meter ≤ energy
          → m.locals.pc < m'.locals.pc
          → EndsOn g f m')
      → EndsOn g f m
  unfolding run_frame run
  loop_ends f m i h moved =
      elim (Bool-cases (m.locals.stopped || leb (length f.contract.code) m.locals.pc)) [
        | inl e ↦ (1, normal_end m, rw (run_frame, e) refl)
        | inr e ↦
            let children : Children g (left m.meter) =
              λ f' limit sh l. smaller f' (new_machine limit sh) (omega arith) (omega arith) in
            let (n, r, turned, moves) = step-Turns g f m i children in
            turn_ends g f m n r i e turned moves (λ m' j t. elim t [
              | inl less ↦ smaller f m' j (omega arith)
              | inr (le, inl stopped) ↦ stopped_ends g f m' stopped
              | inr (le, inr on) ↦ moved (ground arith) m' j (omega arith) on
            ])
      ]

  frame_ends :
      (ahead : ℕ) (f : Frame) (m : Machine)
      → IsMeter m.meter
      → left m.meter ≤ energy
      → length f.contract.code - m.locals.pc ≤ ahead
      → EndsOn g f m
  frame_ends zero f m i h k = loop_ends f m i h (λ inside m' j le on. absurd (omega arith))
  frame_ends (suc ahead) f m i h k =
      loop_ends f m i h (λ inside m' j le on. frame_ends ahead f m' j le (omega arith))

all_end :
    (g : Setting) (energy : ℕ) (f : Frame) (m : Machine)
    → IsMeter m.meter
    → left m.meter < energy
    → EndsOn g f m
all_end g zero f m i h = absurd (omega arith)
all_end g (suc energy) f m i h =
    frame_ends g energy (all_end g energy) (length f.contract.code) f m i (omega arith)
      (omega arith)

-- Every frame ends: whatever its code, its limit of energy below 2^64, the state it starts in and
-- the frames it calls, there is fuel on which it has an outcome, and it has the same outcome on all
-- larger fuel.
pub run-ends :
    (g : Setting) (f : Frame) (limit : ℕ) (sh : Shared)
    → limit < 2 ^ 64
    → (n : ℕ) × (r : Outcome × Shared) × ((fuel : ℕ) → n ≤ fuel → run fuel g f limit sh ≡ some r)
unfolding run
run-ends g f limit sh h =
    let (n, r, e) = all_end g (suc limit) f (new_machine limit sh) (h, omega arith) (omega arith) in
    (n, r, λ fuel le. rw e at (run_frame-AtMost n fuel g f (new_machine limit sh) le))
