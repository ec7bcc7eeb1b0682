-- ===== src/Resource/Stake.antt =====
-- internal/resource/stake.go: the staked energy of an account. Go's `float64` is an interface,
-- since the arithmetic of IEEE numbers is not the repository's.
pub mod Recovery
use go_tron.Prelude.{ℕ, Bool, true, false, if◌then◌else◌}
use go_tron.Prelude.Int.{ℤ, pos, pos_part, neg_part, ltb_ℤ, leb_ℤ, eqb_ℤ, ◌-ℤ◌, ◌*ℤ◌}
use go_tron.Prelude.Int64.{add64, sub64, mul64, div64, quot, wrap64}

-- The operations of `float64` that the source uses.
pub record Float64 : Type 1 where
  pub float : Type 0
  pub of_int64 : ℤ → float
  pub to_int64 : float → ℤ
  pub mul : float → float → float
  pub div : float → float → float
  pub add : float → float → float
  pub floor : float → float
  pub half : float

pub record StakedEnergyInput : Type 0 where
  pub frozen_balance_for_energy : ℤ
  pub energy_usage : ℤ
  pub latest_consume_slot : ℤ
  pub window_size : ℤ
  pub now_slot : ℤ
  pub total_energy_current_limit : ℤ
  pub total_energy_weight : ℤ
  pub support_unfreeze_delay : Bool
  pub allow_new_reward : Bool

abbrev pub trx_precision : ℤ
trx_precision = pos 1000000

abbrev pub usage_precision : ℤ
usage_precision = pos 1000000

abbrev pub window_size_precision : ℤ
window_size_precision = pos 1000

-- 86,400,000 ms by 3,000 ms.
abbrev pub default_energy_window : ℤ
default_energy_window = pos 28800

-- Go's `%` has the sign of the dividend.
abbrev rem64 : ℤ → ℤ → ℤ
rem64 a b = a -ℤ b *ℤ quot a b

unfoldable pub divide_ceil : ℤ → ℤ → ℤ
divide_ceil numerator denominator =
    let q = div64 numerator denominator in
    if ltb_ℤ (pos 0) (rem64 numerator denominator) then add64 q (pos 1) else q

unfoldable pub energy_window : ℤ → Bool → ℤ
energy_window stored optimized =
    if eqb_ℤ stored (pos 0)
    then default_energy_window
    else if optimized
    then if ltb_ℤ stored window_size_precision
      then default_energy_window
      else div64 stored window_size_precision
    else stored

module _ (f : Float64) where
  abbrev round_half_up : f.float → ℤ
  round_half_up x = f.to_int64 (f.floor (f.add x f.half))

  -- The stored average, decayed from the last slot to this one.
  unfoldable pub decayed : ℤ → ℤ → ℤ → ℤ → ℤ
  decayed average last_slot now_slot window =
      if eqb_ℤ last_slot now_slot
      then average
      else if ltb_ℤ now_slot (add64 last_slot window)
      then (let delta = sub64 now_slot last_slot in
          let decay = f.div (f.of_int64 (sub64 window delta)) (f.of_int64 window) in
          round_half_up (f.mul (f.of_int64 average) decay))
      else pos 0

  abbrev window_or_default : ℤ → ℤ
  window_or_default window = if leb_ℤ window (pos 0) then default_energy_window else window

  unfoldable pub increase_energy_usage : ℤ → ℤ → ℤ → ℤ → ℤ → ℤ
  increase_energy_usage last_usage add last_slot now_slot window_size =
      let window = window_or_default window_size in
      let average_last = divide_ceil (mul64 last_usage usage_precision) window in
      let average_add = divide_ceil (mul64 add usage_precision) window in
      let average = add64 (decayed average_last last_slot now_slot window) average_add in
      div64 (mul64 average window) usage_precision

  unfoldable pub recover_energy_usage : ℤ → ℤ → ℤ → ℤ → ℤ
  recover_energy_usage last_usage last_slot now_slot window_size =
      increase_energy_usage last_usage (pos 0) last_slot now_slot window_size

  unfoldable pub global_energy_limit : StakedEnergyInput → ℤ
  global_energy_limit i =
      let froze = i.frozen_balance_for_energy in
      let ratio =
        f.div (f.of_int64 i.total_energy_current_limit) (f.of_int64 i.total_energy_weight) in
      if i.support_unfreeze_delay
      then if eqb_ℤ i.total_energy_weight (pos 0)
        then pos 0
        else f.to_int64 (f.mul (f.div (f.of_int64 froze) (f.of_int64 trx_precision)) ratio)
      else if ltb_ℤ froze trx_precision
      then pos 0
      else if leb_ℤ i.total_energy_weight (pos 0)
      then pos 0
      else f.to_int64 (f.mul (f.of_int64 (div64 froze trx_precision)) ratio)

  unfoldable pub available_staked_energy : StakedEnergyInput → ℤ
  available_staked_energy i =
      let limit = global_energy_limit i in
      let used =
        recover_energy_usage i.energy_usage i.latest_consume_slot i.now_slot i.window_size in
      let left = sub64 limit used in if ltb_ℤ (pos 0) left then left else pos 0
