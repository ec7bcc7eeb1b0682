-- ===== src/Actuator.antt =====
-- internal/actuator: the native contracts. A contract stands unpacked, since its encoding is
-- protobuf's, and a call returns the new state or the error.
pub mod Funds
pub mod Settled
pub mod Settlement
pub mod Executes
pub mod Transfers
pub mod Lends
pub mod Conserved
pub mod Network
pub mod Weighed
pub mod Once
pub mod Paid
pub mod Payout
pub mod Ballot
pub mod Revote
pub mod Reward
pub mod Stake2
pub mod Delegate
pub mod Voting
pub mod Weights
pub mod Apply
use go_tron.Prelude.{ℕ, Bool, true, false, Option, none, some, List, [], if◌then◌else◌}
use go_tron.Prelude.Bytes.{Bytes, bytes_eq}
use go_tron.Prelude.Int.{ℤ, pos, leb_ℤ, ltb_ℤ}
use go_tron.Prelude.Int64.{add64, sub64}
use go_tron.Prelude.Result.{Result, ok, err, ◌>>=◌, ◌>>◌}
use go_tron.Address.Base58 as Base58
use go_tron.Address.Checked.{from_bytes}
use go_tron.State.{State, Account, AccountResource, Vote, get_account, put_account}

pub data Error : Type 0 where
  insufficient_balance amount_not_positive transfer_to_self account_missing : Error
  not_supported frozen_balance_not_positive frozen_balance_below_trx frozen_balance_above : Error
  bad_resource no_frozen_balance bad_unfreeze_balance unfreezing_over_limit : Error
  locked_delegate_deferred delegate_below_trx delegate_above receiver_is_owner : Error
  receiver_missing receiver_is_contract undelegate_not_positive : Error
  delegation_missing insufficient_delegation : Error
  no_votes too_many_votes vote_not_positive witness_missing votes_above_power : Error
  withdrawn_recently no_reward allowance_overflow : Error
  bad_address : Base58.Error → Error
  elsewhere_failed : ℕ → Error

pub data Contract : Type 0 where
  transfer : (owner_address to_address : Bytes) (amount : ℤ) → Contract
  freeze_balance_v2 : (owner_address : Bytes) (frozen_balance : ℤ) (code : ℕ) → Contract
  unfreeze_balance_v2 : (owner_address : Bytes) (unfreeze_balance : ℤ) (code : ℕ) → Contract
  withdraw_expire_unfreeze : (owner_address : Bytes) → Contract
  delegate_resource :
      (owner_address receiver_address : Bytes) (balance : ℤ) (code : ℕ) (lock : Bool) → Contract
  undelegate_resource : (owner_address receiver_address : Bytes) (balance : ℤ) (code : ℕ) → Contract
  vote_witness : (owner_address : Bytes) (votes : List Vote) → Contract
  withdraw_balance : (owner_address : Bytes) → Contract
  -- A contract of another type, in its encoding.
  elsewhere : (type : ℕ) (parameter : Bytes) → Contract

abbrev pub Checked : Type 0
Checked = Result Error (Unit {0})

-- `if … { return err }`.
abbrev pub refuse_if : Bool → Error → Checked
refuse_if true e = err e
refuse_if false e = ok tt

abbrev pub present : {A : Type 0} → Option A → Error → Result Error A
present none e = err e
present (some a) e = ok a

abbrev pub valid_address : Bytes → Checked
valid_address b = elim (from_bytes b) [ ok _ ↦ ok tt | err e ↦ err (bad_address e) ]

abbrev pub trx_precision : ℤ
trx_precision = pos 1000000

abbrev pub frozen_period_ms : ℤ
frozen_period_ms = pos 86400000

unfoldable pub validate_transfer : Bytes → Bytes → ℤ → State → Checked
unfolding get_account
validate_transfer owner_address to_address amount st = do
  refuse_if (leb_ℤ amount (pos 0)) amount_not_positive
  refuse_if (bytes_eq owner_address to_address) transfer_to_self
  owner ← present (get_account owner_address st) account_missing
  refuse_if (ltb_ℤ owner.balance amount) insufficient_balance

abbrev empty_resource : AccountResource
empty_resource = record {
  frozen_balance_for_energy = pos 0;
  delegated_frozen_balance_for_energy = pos 0;
  delegated_frozen_v2_balance_for_energy = pos 0;
  acquired_delegated_frozen_v2_balance_for_energy = pos 0;
}

-- A message with its address set alone.
abbrev pub new_account : Bytes → Account
new_account address = record {
  address = address;
  account_type = 0;
  balance = pos 0;
  allowance = pos 0;
  latest_withdraw_time = pos 0;
  votes = [];
  frozen = [];
  delegated_frozen_balance_for_bandwidth = pos 0;
  frozen_v2 = [];
  unfrozen_v2 = [];
  delegated_frozen_v2_balance_for_bandwidth = pos 0;
  acquired_delegated_frozen_v2_balance_for_bandwidth = pos 0;
  account_resource = empty_resource;
}

abbrev pub account_or_new : Bytes → Option Account → Account
account_or_new address none = new_account address
account_or_new address (some a) = a

unfoldable pub execute_transfer : Bytes → Bytes → ℤ → State → Result Error State
unfolding get_account put_account
execute_transfer owner_address to_address amount st = do
  owner ← present (get_account owner_address st) account_missing
  let to = account_or_new to_address (get_account to_address st)
  ok (
      put_account (record to { balance = add64 to.balance amount })
        (put_account (record owner { balance = sub64 owner.balance amount }) st))
