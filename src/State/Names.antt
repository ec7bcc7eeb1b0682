-- ===== src/State/Names.antt =====
-- internal/state/property.go: the names of the properties.
use go_tron.Prelude.{ℕ}

abbrev pub total_energy_weight : ℕ
total_energy_weight = 0

abbrev pub total_energy_limit : ℕ
total_energy_limit = 1

abbrev pub total_energy_current_limit : ℕ
total_energy_current_limit = 2

abbrev pub total_net_weight : ℕ
total_net_weight = 3

abbrev pub unfreeze_delay_days : ℕ
unfreeze_delay_days = 4

abbrev pub allow_new_reward : ℕ
allow_new_reward = 5

abbrev pub allow_delegate_resource : ℕ
allow_delegate_resource = 6

abbrev pub min_frozen_time : ℕ
min_frozen_time = 7

abbrev pub max_frozen_time : ℕ
max_frozen_time = 8

abbrev pub latest_block_header_timestamp : ℕ
latest_block_header_timestamp = 9

abbrev pub allow_multi_sign : ℕ
allow_multi_sign = 10

abbrev pub allow_tvm_constantinople : ℕ
allow_tvm_constantinople = 11

abbrev pub allow_tvm_solidity059 : ℕ
allow_tvm_solidity059 = 12

abbrev pub allow_delegate_optimization : ℕ
allow_delegate_optimization = 13

abbrev pub energy_fee : ℕ
energy_fee = 14

abbrev pub maintenance_time_interval : ℕ
maintenance_time_interval = 15

abbrev pub next_maintenance_time : ℕ
next_maintenance_time = 16

abbrev pub current_cycle_number : ℕ
current_cycle_number = 17

abbrev pub change_delegation : ℕ
change_delegation = 18

abbrev pub new_reward_algo_effective_cycle : ℕ
new_reward_algo_effective_cycle = 19

abbrev pub witness_pay_per_block : ℕ
witness_pay_per_block = 20

abbrev pub witness_allowance_frozen_time : ℕ
witness_allowance_frozen_time = 21
