-- ===== src/State/Property.antt =====
-- internal/state/property.go: the named scalars of the chain.
use go_tron.Prelude.{ℕ, Bool, ◌&&◌, ◌==◌, Option, none, some, if◌then◌else◌, not}
use go_tron.Prelude.Bytes.{nat_eq}
use go_tron.Prelude.Int.{ℤ, pos, ltb_ℤ, eqb_ℤ}
use go_tron.Prelude.Int64.{add64, sub64, mul64, div64, max_int64}
use go_tron.Prelude.Map.{lookup, insert}
use go_tron.State.Names
use go_tron.State.{State, bandwidth}

unfoldable pub get_int64 : ℕ → State → Option ℤ
get_int64 key st = lookup key st.properties

unfoldable pub put_int64 : ℕ → ℤ → State → State
put_int64 key v st = record st { properties = insert key v st.properties }

unfoldable pub get_or_default : ℕ → ℤ → State → ℤ
unfolding get_int64
get_or_default key default st = elim (get_int64 key st) [ none ↦ default | some v ↦ v ]

unfoldable pub total_energy_weight : State → ℤ
unfolding get_or_default
total_energy_weight st = get_or_default Names.total_energy_weight (pos 0) st

unfoldable pub total_net_weight : State → ℤ
unfolding get_or_default
total_net_weight st = get_or_default Names.total_net_weight (pos 0) st

unfoldable pub unfreeze_delay_days : State → ℤ
unfolding get_or_default
unfreeze_delay_days st = get_or_default Names.unfreeze_delay_days (pos 0) st

unfoldable pub support_unfreeze_delay : State → Bool
unfolding get_or_default
support_unfreeze_delay st = ltb_ℤ (pos 0) (get_or_default Names.unfreeze_delay_days (pos 0) st)

unfoldable pub allow_new_reward : State → Bool
unfolding get_or_default
allow_new_reward st = eqb_ℤ (get_or_default Names.allow_new_reward (pos 0) st) (pos 1)

unfoldable pub latest_block_header_timestamp : State → ℤ
unfolding get_or_default
latest_block_header_timestamp st = get_or_default Names.latest_block_header_timestamp (pos 0) st

unfoldable pub maintenance_time_interval : State → ℤ
unfolding get_or_default
maintenance_time_interval st = get_or_default Names.maintenance_time_interval (pos 21600000) st

unfoldable pub next_maintenance_time : State → ℤ
unfolding get_or_default
next_maintenance_time st = get_or_default Names.next_maintenance_time (pos 0) st

unfoldable pub current_cycle_number : State → ℤ
unfolding get_or_default
current_cycle_number st = get_or_default Names.current_cycle_number (pos 0) st

unfoldable pub allow_change_delegation : State → Bool
unfolding get_or_default
allow_change_delegation st = eqb_ℤ (get_or_default Names.change_delegation (pos 0) st) (pos 1)

unfoldable pub new_reward_algorithm_effective_cycle : State → ℤ
unfolding get_or_default
new_reward_algorithm_effective_cycle st =
    get_or_default Names.new_reward_algo_effective_cycle (max_int64) st

unfoldable pub use_new_reward_algorithm : State → Bool
unfolding new_reward_algorithm_effective_cycle
use_new_reward_algorithm st = not (eqb_ℤ (new_reward_algorithm_effective_cycle st) max_int64)

unfoldable pub witness_allowance_frozen_time : State → ℤ
unfolding get_or_default
witness_allowance_frozen_time st = get_or_default Names.witness_allowance_frozen_time (pos 1) st

unfoldable pub update_next_maintenance_time : ℤ → State → State
unfolding maintenance_time_interval next_maintenance_time put_int64
update_next_maintenance_time block_time st =
    let interval = maintenance_time_interval st in
    let current = next_maintenance_time st in
    let round = div64 (sub64 block_time current) interval in
    put_int64 Names.next_maintenance_time (add64 current (mul64 (add64 round (pos 1)) interval)) st

-- A weight is clamped at 0 once ALLOW_NEW_REWARD is on.
unfoldable pub add_weight : ℕ → ℤ → State → State
unfolding get_or_default put_int64 allow_new_reward
add_weight key amount st =
    if eqb_ℤ amount (pos 0)
    then st
    else (let w = add64 (get_or_default key (pos 0) st) amount in
        put_int64 key (if allow_new_reward st && ltb_ℤ w (pos 0) then pos 0 else w) st)

-- `addResourceWeight` of internal/actuator/stake2.go, over both totals of the store.
unfoldable pub add_resource_weight : ℕ → ℤ → State → State
unfolding add_weight
add_resource_weight code delta st =
    add_weight (if code == bandwidth then Names.total_net_weight else Names.total_energy_weight)
      delta st
