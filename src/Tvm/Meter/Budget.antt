-- ===== src/Tvm/Meter/Budget.antt =====
-- The energy meter never spends more than its limit.
use go_tron.Tvm.Meter.{EnergyMeter, spend, restore}
use go_tron.Tvm.Errors.{Error, out_of_energy}
use go_tron.Prelude.Result.{Result, ok, err}
use go_tron.Prelude.{
  ℕ, ◌+◌, ◌-◌, ◌^◌, ◌≤◌, ◌<◌, ◌≡◌, refl, if◌then◌else◌, ltb, arith, List, [], ◌∷◌, inl, inr,
  Bool-cases,
}

-- The limit is a 64-bit word, and no more than it is used.
abbrev pub IsMeter : EnergyMeter → Type 0
IsMeter m = (m.limit < 2 ^ 64) × (m.used ≤ m.limit)

pub data Charge : Type 0 where
  charge : ℕ → Charge
  give_back : ℕ → Charge

-- A failed charge ends the calls, as it ends a frame.
abbrev after : EnergyMeter × Result Error ℕ → (EnergyMeter → EnergyMeter) → EnergyMeter
after (m, ok cost) k = k m
after (m, err e) k = m

-- A meter behind a sequence of calls.
abbrev pub run_charges : EnergyMeter → List Charge → EnergyMeter
run_charges m [] = m
run_charges m (give_back n ∷ cs) = run_charges (restore m n) cs
run_charges m (charge n ∷ cs) = after (spend m n) (λ t. run_charges t cs)

-- What a sequence of calls leaves used over exact arithmetic: the limit, once a charge is too
-- large.
abbrev pub exact_used : ℕ → ℕ → List Charge → ℕ
exact_used limit used [] = used
exact_used limit used (give_back n ∷ cs) = exact_used limit (used - n) cs
exact_used limit used (charge n ∷ cs) =
    if ltb limit (used + n) then limit else exact_used limit (used + n) cs

spend-IsMeter :
    (m : EnergyMeter) (n : ℕ)
    → IsMeter m
    → if ltb m.limit (m.used + n)
      then spend m n
        ≡ (record { limit = m.limit; used = m.limit; refund = m.refund }, err out_of_energy)
      else spend m n ≡ (record { limit = m.limit; used = m.used + n; refund = m.refund }, ok n)
unfolding spend
spend-IsMeter m n h = ground arith

restore-IsMeter :
    (m : EnergyMeter) (n : ℕ)
    → IsMeter m
    → restore m n ≡ record { limit = m.limit; used = m.used - n; refund = m.refund }
unfolding restore
restore-IsMeter m n h = ground arith

-- Whatever is charged and given back, the 64-bit meter counts as exact arithmetic does, its use
-- stays within the limit, and the limit stays what it was. It holds of every meter whose limit is
-- a 64-bit word and whose use is within it.
pub run_charges-IsMeter :
    (cs : List Charge) (m : EnergyMeter)
    → IsMeter m
    → IsMeter (run_charges m cs)
      × ((run_charges m cs).limit ≡ m.limit)
      × ((run_charges m cs).used ≡ exact_used m.limit m.used cs)
run_charges-IsMeter [] m h = (h, refl, refl)
run_charges-IsMeter (give_back n ∷ cs) m h =
    rw (run_charges, restore-IsMeter m n h)
      (run_charges-IsMeter cs (record { limit = m.limit; used = m.used - n; refund = m.refund })
        (ground arith))
run_charges-IsMeter (charge n ∷ cs) m h = elim (Bool-cases (ltb m.limit (m.used + n))) [
  | inl e ↦ let over = rw e at (spend-IsMeter m n h) in rw (e, run_charges, over) (ground arith)
  | inr e ↦
      let within = rw e at (spend-IsMeter m n h) in
      rw (e, run_charges, within)
        (run_charges-IsMeter cs (record { limit = m.limit; used = m.used + n; refund = m.refund })
          (ground arith))
]
