-- ===== src/Tvm/Machine/Outcomes.antt =====
-- interpreter.go and evm.go: what an outcome says of the frame.
use go_tron.Tvm.Machine.Soundness.{run-IsSound}
use go_tron.Tvm.Machine.{Shared, Setting, Frame}
use go_tron.Tvm.Machine.Step.{run}
use go_tron.Tvm.Machine.Effect.{Effect}
use go_tron.Tvm.Contract.{Log, Outcome}
use go_tron.Prelude.Bytes.{nat_eq}
use go_tron.Prelude.{List, ◌++◌, ℕ, ◌^◌, ◌<◌, ◌≤◌, true, ◌≡◌, some}

-- What the outcome of a frame says, from its equation.
ends :
    (fuel : ℕ) (g : Setting) (f : Frame) (limit : ℕ) (sh : Shared) (o : Outcome) (t : Shared)
    → limit < 2 ^ 64
    → run fuel g f limit sh ≡ some (o, t)
    → Effect f.read_only sh t × (o.energy_used ≤ limit)
ends fuel g f limit sh o t h e = rw (e) at (run-IsSound fuel g f limit sh h)

-- A frame that ends, with whatever outcome, used no more energy than the 64-bit limit that it was
-- given, and only added to the logs of the transaction. It holds on any fuel with which the frame
-- ends.
pub run-energy_used :
    (fuel : ℕ) (g : Setting) (f : Frame) (limit : ℕ) (sh : Shared) (o : Outcome) (t : Shared)
    → limit < 2 ^ 64
    → run fuel g f limit sh ≡ some (o, t)
    → (o.energy_used ≤ limit) × ((added : List Log) × (t.logs ≡ sh.logs ++ added))
run-energy_used fuel g f limit sh o t h e =
    let sound = ends fuel g f limit sh o t h e in (sound.1, (sound.0.added, sound.0.logged))

-- A frame that may only read leaves every account and the logs as they were, with whatever outcome
-- it ends, and whatever it calls. It holds on any fuel with which the frame ends.
pub run-read_only :
    (fuel : ℕ) (g : Setting) (f : Frame) (limit : ℕ) (sh : Shared) (o : Outcome) (t : Shared)
    → limit < 2 ^ 64
    → f.read_only ≡ true
    → run fuel g f limit sh ≡ some (o, t)
    → (t.world.accounts ≡ sh.world.accounts) × (t.logs ≡ sh.logs)
run-read_only fuel g f limit sh o t h r e = (ends fuel g f limit sh o t h e).0.unchanged r
