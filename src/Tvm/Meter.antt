-- ===== src/Tvm/Meter.antt =====
-- internal/tvm/energy.go: the energy meter, over 64-bit words.
pub mod Budget
use go_tron.Prelude.{ℕ, ◌+◌, ◌-◌, ◌%◌, ◌^◌, Bool, true, false, if◌then◌else◌, ltb}
use go_tron.Prelude.Result.{Result, ok, err}
use go_tron.Tvm.Errors.{Error, out_of_energy}

-- Unsigned 64-bit sums and differences wrap.
abbrev pub add_u64 : ℕ → ℕ → ℕ
add_u64 a b = (a + b) % 2 ^ 64

abbrev pub sub_u64 : ℕ → ℕ → ℕ
sub_u64 a b = (a + 2 ^ 64 - b) % 2 ^ 64

pub record EnergyMeter : Type 0 where
  pub limit : ℕ
  pub used : ℕ
  pub refund : ℕ

abbrev pub new_energy_meter : ℕ → EnergyMeter
new_energy_meter limit = record { limit = limit; used = 0; refund = 0 }

-- The meter behind the call, and the error if there is one.
unfoldable pub spend : EnergyMeter → ℕ → EnergyMeter × Result Error ℕ
spend m cost =
    if ltb (sub_u64 m.limit m.used) cost
    then (record { limit = m.limit; used = m.limit; refund = m.refund }, err out_of_energy)
    else (record { limit = m.limit; used = add_u64 m.used cost; refund = m.refund }, ok cost)

unfoldable pub remaining : EnergyMeter → ℕ
remaining m = sub_u64 m.limit m.used

unfoldable pub restore : EnergyMeter → ℕ → EnergyMeter
restore m n =
    if ltb m.used n
    then record { limit = m.limit; used = 0; refund = m.refund }
    else record { limit = m.limit; used = sub_u64 m.used n; refund = m.refund }

unfoldable pub add_refund : EnergyMeter → ℕ → EnergyMeter
add_refund m v = record { limit = m.limit; used = m.used; refund = add_u64 m.refund v }
