-- ===== src/Tvm/Machine/Kept.antt =====
-- What an instruction keeps of its frame's meter and of what the frame shares: the steps of a call.
use go_tron.Tvm.Machine.{Shared, Frame, Machine, Runner, finish, finish_with, call_energy, transfer}
use go_tron.Tvm.Machine.Effect.{Effect, Effect-refl, Effect-trans, update-Effect}
use go_tron.Tvm.Contract.{Outcome}
use go_tron.Tvm.Errors.{Error}
use go_tron.Tvm.Exec.{Local, push_word}
use go_tron.Tvm.Memory.{Memory}
use go_tron.Tvm.Fork.{VmConfig}
use go_tron.Tvm.Uint256.{Uint256}
use go_tron.Tvm.StateDb.{add_balance, sub_balance}
use go_tron.Tvm.Meter.{EnergyMeter, spend, restore, remaining}
use go_tron.Tvm.Meter.Budget.{IsMeter}
use go_tron.Prelude.Bytes.{Bytes}
use go_tron.Prelude.Result.{Result, ok, err, ◌>>=◌}
use go_tron.Prelude.{
  ℕ, ◌^◌, ◌≤◌, ◌<◌, Bool, true, false, if◌then◌else◌, ◌≡◌, refl, Option, none, some, arith,
}

-- What a running instruction made of the meter and of what is shared.
pub record Kept (ro : Bool) (m : Machine) (meter : EnergyMeter) (sh : Shared) : Type 0 where
  pub effect : Effect ro m.shared sh
  pub is_meter : IsMeter meter
  pub same_limit : meter.limit ≡ m.meter.limit

-- A result of an instruction, if there is one.
abbrev pub Keeps : Bool → Machine → Option (Result Error Machine) → Type 0
Keeps ro m none = Unit
Keeps ro m (some (err e)) = Unit
Keeps ro m (some (ok m')) = Kept ro m m'.meter m'.shared

-- An outcome of a frame, if there is one.
abbrev pub Ends : Bool → ℕ → Shared → Option (Outcome × Shared) → Type 0
Ends ro limit sh none = Unit
Ends ro limit sh (some (o, t)) = Effect ro sh t × (o.energy_used ≤ limit)

-- A runner of frames that has the properties that are to be shown of `run`.
abbrev pub IsSound : Runner → Type 0
IsSound run =
    (f : Frame) (limit : ℕ) (sh : Shared)
    → limit < 2 ^ 64
    → Ends f.read_only limit sh (run f limit sh)

pub Kept-refl : (ro : Bool) (m : Machine) → IsMeter m.meter → Kept ro m m.meter m.shared
Kept-refl ro m i = record { effect = Effect-refl ro m.shared; is_meter = i; same_limit = refl }

-- Both branches of a test.
pub Keeps-if :
    (ro : Bool) (m : Machine) (c : Bool) (a b : Option (Result Error Machine))
    → (c ≡ true → Keeps ro m a)
    → (c ≡ false → Keeps ro m b)
    → Keeps ro m (if c then a else b)
Keeps-if ro m true a b h k = h refl
Keeps-if ro m false a b h k = k refl

pub finish-Keeps :
    {ro : Bool} {m : Machine} (m' : Machine) (l : Local) {meter : EnergyMeter} {sh : Shared} (w : ℕ)
    → Kept ro m meter sh
    → Keeps ro m (some (finish m' l meter sh w))
finish-Keeps {ro} {m} m' l {meter} {sh} w h = go (push_word l w)
  where
    go :
        (r : Result Error Local)
        → Keeps ro m (some (r >>= λ l'. ok (record { locals = l'; meter = meter; shared = sh })))
    go (err e) = tt
    go (ok l') = h

pub finish_with-Keeps :
    {ro : Bool} {m : Machine} (m' : Machine) (mem : Option Memory) (bytes : Bytes)
    {meter : EnergyMeter} {sh : Shared} (w : ℕ)
    → Kept ro m meter sh
    → Keeps ro m (some (finish_with m' mem bytes meter sh w))
finish_with-Keeps m' none bytes w h = tt
finish_with-Keeps m' (some mem) bytes w h =
    finish-Keeps m' (record m'.locals { mem = mem; return_data = bytes }) w h

pub restore-Keeps :
    (meter : EnergyMeter) (n : ℕ)
    → IsMeter meter
    → IsMeter (restore meter n) × ((restore meter n).limit ≡ meter.limit)
unfolding restore
restore-Keeps meter n h = ground arith

pub spend-Keeps :
    (meter : EnergyMeter) (n : ℕ)
    → IsMeter meter
    → IsMeter (spend meter n).0 × ((spend meter n).0.limit ≡ meter.limit)
unfolding spend
spend-Keeps meter n h = ground arith

pub remaining-IsMeter : (meter : EnergyMeter) → IsMeter meter → remaining meter < 2 ^ 64
unfolding remaining
remaining-IsMeter meter h = omega arith

-- A child is granted a 64-bit amount.
pub call_energy-remaining :
    (cfg : VmConfig) (requested available : ℕ)
    → available < 2 ^ 64
    → call_energy cfg requested available < 2 ^ 64
unfolding call_energy
call_energy-remaining cfg requested available h = ground arith

-- Where the frame may write, a transfer is an effect; without a value, there is none.
pub transfer-Effect :
    (u : Uint256) (ro applies : Bool) (s : Shared) (from to value : ℕ)
    → (ro ≡ true → applies ≡ false)
    → Effect ro s (record s { world = transfer u applies s.world from to value })
unfolding transfer sub_balance add_balance
transfer-Effect u ro false s from to value h = Effect-refl ro s
transfer-Effect u true true s from to value h = let absurd = h refl in cc
transfer-Effect u false true s from to value h =
    Effect-trans (update-Effect from (λ a. record a { balance = u.sub a.balance value }))
      (update-Effect to (λ a. record a { balance = u.add a.balance value }))
