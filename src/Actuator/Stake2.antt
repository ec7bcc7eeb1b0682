-- ===== src/Actuator/Stake2.antt =====
-- internal/actuator/stake2.go: freezing, unfreezing and withdrawing under Stake 2.0.
use go_tron.Prelude.{ℕ, suc, Bool, List, [], ◌∷◌, ◌++◌, if◌then◌else◌, ◌||◌, not, ◌==◌, leb}
use go_tron.Prelude.Bytes.{Bytes}
use go_tron.Prelude.Int.{ℤ, pos, leb_ℤ, ltb_ℤ}
use go_tron.Prelude.Int64.{add64, sub64, mul64, div64}
use go_tron.Prelude.Result.{Result, ok, ◌>>=◌, ◌>>◌}
use go_tron.Resource.Stake.{Float64}
use go_tron.State.{
  State, Account, FreezeV2, UnfreezeV2, get_account, put_account, bandwidth, energy,
}
use go_tron.State.Property.{
  support_unfreeze_delay, unfreeze_delay_days, latest_block_header_timestamp, add_resource_weight,
}
use go_tron.Actuator.{
  Checked, Error, refuse_if, present, valid_address, account_missing, not_supported,
  frozen_balance_not_positive, frozen_balance_below_trx, frozen_balance_above, bad_resource,
  no_frozen_balance, bad_unfreeze_balance, unfreezing_over_limit, trx_precision, frozen_period_ms,
}
use go_tron.Actuator.Reward.{withdraw_reward}

abbrev pub unfreeze_max_times : ℕ
unfreeze_max_times = 32

unfoldable pub sum_frozen_v2 : ℕ → List FreezeV2 → ℤ → ℤ
sum_frozen_v2 code [] total = total
sum_frozen_v2 code (f ∷ fs) total =
    sum_frozen_v2 code fs (if f.code == code then add64 total f.amount else total)

unfoldable pub frozen_v2_amount : Account → ℕ → ℤ
unfolding sum_frozen_v2
frozen_v2_amount a code = sum_frozen_v2 code a.frozen_v2 (pos 0)

-- The first entry of the resource takes the change, or a new one at the end.
unfoldable pub add_entry : ℕ → ℤ → List FreezeV2 → List FreezeV2
add_entry code delta [] = record { code = code; amount = delta } ∷ []
add_entry code delta (f ∷ fs) =
    if f.code == code
    then record f { amount = add64 f.amount delta } ∷ fs
    else f ∷ add_entry code delta fs

unfoldable pub add_frozen_v2 : ℕ → ℤ → Account → Account
unfolding add_entry
add_frozen_v2 code delta a = record a { frozen_v2 = add_entry code delta a.frozen_v2 }

unfoldable pub delegated_out_v2 : Account → ℕ → ℤ
delegated_out_v2 a code =
    if code == bandwidth
    then a.delegated_frozen_v2_balance_for_bandwidth
    else a.account_resource.delegated_frozen_v2_balance_for_energy

unfoldable pub weight_v2 : Account → ℕ → ℤ
unfolding frozen_v2_amount delegated_out_v2
weight_v2 a code = div64 (add64 (frozen_v2_amount a code) (delegated_out_v2 a code)) trx_precision

unfoldable pub valid_v2_resource : ℕ → Bool
valid_v2_resource code = (code == bandwidth) || (code == energy)

unfoldable pub require_stake2 : State → Checked
unfolding support_unfreeze_delay
require_stake2 st = refuse_if (not (support_unfreeze_delay st)) not_supported

unfoldable pub validate_freeze_v2 : Bytes → ℤ → ℕ → State → Checked
unfolding require_stake2 get_account valid_v2_resource
validate_freeze_v2 owner frozen_balance code st = do
  require_stake2 st
  valid_address owner
  a ← present (get_account owner st) account_missing
  refuse_if (leb_ℤ frozen_balance (pos 0)) frozen_balance_not_positive
  refuse_if (ltb_ℤ frozen_balance trx_precision) frozen_balance_below_trx
  refuse_if (ltb_ℤ a.balance frozen_balance) frozen_balance_above
  refuse_if (not (valid_v2_resource code)) bad_resource

unfoldable pub execute_freeze_v2 : Bytes → ℤ → ℕ → State → Result Error State
unfolding get_account put_account weight_v2 add_frozen_v2 add_resource_weight
execute_freeze_v2 owner frozen_balance code st = do
  a ← present (get_account owner st) account_missing
  let frozen = add_frozen_v2 code frozen_balance a
  let weighed = add_resource_weight code (sub64 (weight_v2 frozen code) (weight_v2 a code)) st
  ok (put_account (record frozen { balance = sub64 frozen.balance frozen_balance }) weighed)

unfoldable pub unfreezing_v2_count : ℤ → List UnfreezeV2 → ℕ
unfreezing_v2_count now [] = 0
unfreezing_v2_count now (u ∷ us) =
    let rest = unfreezing_v2_count now us in
    if ltb_ℤ now u.unfreeze_expire_time then suc rest else rest

unfoldable pub validate_unfreeze_v2 : Bytes → ℤ → ℕ → State → Checked
unfolding require_stake2 get_account valid_v2_resource frozen_v2_amount
    latest_block_header_timestamp unfreezing_v2_count
validate_unfreeze_v2 owner unfreeze_balance code st = do
  require_stake2 st
  valid_address owner
  a ← present (get_account owner st) account_missing
  refuse_if (not (valid_v2_resource code)) bad_resource
  refuse_if (leb_ℤ (frozen_v2_amount a code) (pos 0)) no_frozen_balance
  refuse_if (leb_ℤ unfreeze_balance (pos 0) || ltb_ℤ (frozen_v2_amount a code) unfreeze_balance)
      bad_unfreeze_balance
  refuse_if
      (leb unfreeze_max_times
        (unfreezing_v2_count (latest_block_header_timestamp st) a.unfrozen_v2))
      unfreezing_over_limit

-- What has matured by now, in the order of the loop, and the entries that stay.
unfoldable pub matured : ℤ → List UnfreezeV2 → ℤ → ℤ
matured now [] withdrawn = withdrawn
matured now (u ∷ us) withdrawn =
    matured now us
      (if leb_ℤ u.unfreeze_expire_time now then add64 withdrawn u.unfreeze_amount else withdrawn)

unfoldable pub pending : ℤ → List UnfreezeV2 → List UnfreezeV2
pending now [] = []
pending now (u ∷ us) =
    let rest = pending now us in if leb_ℤ u.unfreeze_expire_time now then rest else u ∷ rest

unfoldable pub sweep_matured_unfrozen_v2 : ℤ → Account → Account
unfolding matured pending
sweep_matured_unfrozen_v2 now a = record a {
  unfrozen_v2 = pending now a.unfrozen_v2;
  balance = add64 a.balance (matured now a.unfrozen_v2 (pos 0));
}

unfoldable pub validate_withdraw_expire : Bytes → State → Checked
unfolding require_stake2 get_account
validate_withdraw_expire owner st = do
  require_stake2 st
  valid_address owner
  a ← present (get_account owner st) account_missing
  ok tt

unfoldable pub execute_withdraw_expire : Bytes → State → Result Error State
unfolding get_account put_account sweep_matured_unfrozen_v2 latest_block_header_timestamp
execute_withdraw_expire owner st = do
  a ← present (get_account owner st) account_missing
  ok (put_account (sweep_matured_unfrozen_v2 (latest_block_header_timestamp st) a) st)

-- The account with the entry that matures later, its frozen balance and votes taken off.
unfoldable pub unfrozen_account : ℤ → ℤ → ℤ → ℕ → Account → Account
unfolding sweep_matured_unfrozen_v2 add_frozen_v2
unfrozen_account now delay_days unfreeze_balance code a =
    let swept = sweep_matured_unfrozen_v2 now a in
    let entry : UnfreezeV2 = record {
      code = code;
      unfreeze_amount = unfreeze_balance;
      unfreeze_expire_time = add64 now (mul64 delay_days frozen_period_ms);
    } in
    record (add_frozen_v2 code (sub64 (pos 0) unfreeze_balance) swept) {
      unfrozen_v2 = swept.unfrozen_v2 ++ entry ∷ [];
      votes = [];
    }

module _ (f : Float64) where
  unfoldable pub execute_unfreeze_v2 : Bytes → ℤ → ℕ → State → Result Error State
  unfolding withdraw_reward get_account put_account latest_block_header_timestamp
      unfreeze_delay_days weight_v2 unfrozen_account add_resource_weight
  execute_unfreeze_v2 owner unfreeze_balance code st = do
    let settled = withdraw_reward f owner st
    a ← present (get_account owner settled) account_missing
    let b =
        unfrozen_account (latest_block_header_timestamp settled) (unfreeze_delay_days settled)
          unfreeze_balance code a
    ok (
        put_account b
          (add_resource_weight code (sub64 (weight_v2 b code) (weight_v2 a code)) settled))
