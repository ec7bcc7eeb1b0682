-- ===== src/Resource/Energy.antt =====
-- internal/resource/energy.go.
pub mod Split
pub mod Budget
use go_tron.Prelude.{Bool, true, false, if◌then◌else◌}
use go_tron.Prelude.Int.{ℤ, pos, ltb_ℤ, leb_ℤ}
use go_tron.Prelude.Int64.{add64, sub64, mul64, div64, min64, clamp64}

pub record Receipt : Type 0 where
  pub energy_usage : ℤ
  pub origin_energy_usage : ℤ
  pub energy_fee : ℤ
  pub energy_usage_total : ℤ

pub record Bill : Type 0 where
  pub energy_used : ℤ
  pub caller_energy : ℤ
  pub origin_energy : ℤ
  pub caller_is_origin : Bool
  pub consume_user_percent : ℤ
  pub origin_energy_limit : ℤ
  pub energy_price : ℤ

abbrev pub sun_per_energy_floor : ℤ
sun_per_energy_floor = pos 100

-- `EnergyPrice`
unfoldable pub effective_price : ℤ → ℤ
effective_price dynamic_fee =
    if ltb_ℤ sun_per_energy_floor dynamic_fee then dynamic_fee else sun_per_energy_floor

abbrev no_receipt : Receipt
no_receipt = record {
  energy_usage = pos 0;
  origin_energy_usage = pos 0;
  energy_fee = pos 0;
  energy_usage_total = pos 0;
}

-- The origin's share: a percentage, capped by its staked energy and by the contract's limit.
unfoldable pub origin_share : Bill → ℤ
origin_share b =
    if b.caller_is_origin
    then pos 0
    else let percent = clamp64 (sub64 (pos 100) b.consume_user_percent) in
      let share = div64 (mul64 b.energy_used percent) (pos 100) in
      let cap = min64 b.origin_energy b.origin_energy_limit in
      if ltb_ℤ cap share then cap else share

-- The caller's share: from its staked energy first, then burned at the price.
unfoldable pub settle : ℤ → ℤ → ℤ → ℤ → Receipt
settle total origin_usage caller_energy price =
    let caller_usage = sub64 total origin_usage in
    let covered = leb_ℤ caller_usage caller_energy in
    record {
      energy_usage = if covered then caller_usage else caller_energy;
      origin_energy_usage = origin_usage;
      energy_fee = if covered then pos 0 else mul64 (sub64 caller_usage caller_energy) price;
      energy_usage_total = total;
    }

unfoldable pub compute : Bill → Receipt
compute b =
    if leb_ℤ b.energy_used (pos 0)
    then no_receipt
    else settle b.energy_used (origin_share b) b.caller_energy (effective_price b.energy_price)

unfoldable pub account_energy_limit : ℤ → ℤ → ℤ → ℤ → ℤ → ℤ
unfolding effective_price
account_energy_limit frozen_energy balance call_value fee_limit dynamic_fee =
    let price = effective_price dynamic_fee in
    let spendable = clamp64 (sub64 balance call_value) in
    let available = add64 frozen_energy (div64 spendable price) in
    min64 available (div64 fee_limit price)
