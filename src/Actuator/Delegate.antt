-- ===== src/Actuator/Delegate.antt =====
-- internal/actuator/stake2_delegate.go: resources lent to other accounts under Stake 2.0.
use go_tron.Prelude.{ℕ, Bool, false, Option, none, some, if◌then◌else◌, ◌&&◌, not, ◌==◌}
use go_tron.Prelude.Bytes.{Bytes, bytes_eq}
use go_tron.Prelude.Int.{ℤ, pos, leb_ℤ, ltb_ℤ, eqb_ℤ}
use go_tron.Prelude.Int64.{add64, sub64}
use go_tron.Prelude.Result.{Result, ok, ◌>>=◌, ◌>>◌}
use go_tron.State.{
  State, Account, DelegatedResource, get_account, put_account, get_v2, put_v2, delete_v2,
  delegate_v2, undelegate_v2, bandwidth, contract_type,
}
use go_tron.State.Property.{latest_block_header_timestamp}
use go_tron.Actuator.{
  Checked, Error, refuse_if, present, valid_address, account_missing, locked_delegate_deferred,
  delegate_below_trx, bad_resource, delegate_above, receiver_is_owner, receiver_missing,
  receiver_is_contract, undelegate_not_positive, delegation_missing, insufficient_delegation,
  trx_precision,
}
use go_tron.Actuator.Stake2.{require_stake2, valid_v2_resource, frozen_v2_amount, add_frozen_v2}

unfoldable pub add_delegated_v2 : ℕ → ℤ → Account → Account
add_delegated_v2 code d a =
    if code == bandwidth
    then record a {
      delegated_frozen_v2_balance_for_bandwidth =
          add64 a.delegated_frozen_v2_balance_for_bandwidth d;
    }
    else record a {
      account_resource = record a.account_resource {
        delegated_frozen_v2_balance_for_energy =
            add64 a.account_resource.delegated_frozen_v2_balance_for_energy d;
      };
    }

unfoldable pub acquired_delegated_v2 : ℕ → Account → ℤ
acquired_delegated_v2 code a =
    if code == bandwidth
    then a.acquired_delegated_frozen_v2_balance_for_bandwidth
    else a.account_resource.acquired_delegated_frozen_v2_balance_for_energy

unfoldable pub set_acquired_delegated_v2 : ℕ → ℤ → Account → Account
set_acquired_delegated_v2 code v a =
    if code == bandwidth
    then record a { acquired_delegated_frozen_v2_balance_for_bandwidth = v }
    else record a {
      account_resource = record a.account_resource {
        acquired_delegated_frozen_v2_balance_for_energy = v;
      };
    }

unfoldable pub add_acquired_delegated_v2 : ℕ → ℤ → Account → Account
unfolding set_acquired_delegated_v2 acquired_delegated_v2
add_acquired_delegated_v2 code d a =
    set_acquired_delegated_v2 code (add64 (acquired_delegated_v2 code a) d) a

unfoldable pub dr_balance : ℕ → DelegatedResource → ℤ
dr_balance code d =
    if code == bandwidth then d.frozen_balance_for_bandwidth else d.frozen_balance_for_energy

unfoldable pub add_dr_balance : ℕ → ℤ → DelegatedResource → DelegatedResource
add_dr_balance code delta d =
    if code == bandwidth
    then record d { frozen_balance_for_bandwidth = add64 d.frozen_balance_for_bandwidth delta }
    else record d { frozen_balance_for_energy = add64 d.frozen_balance_for_energy delta }

unfoldable pub validate_delegate : Bytes → Bytes → ℤ → ℕ → Bool → State → Checked
unfolding require_stake2 get_account valid_v2_resource frozen_v2_amount
validate_delegate owner receiver balance code lock st = do
  require_stake2 st
  refuse_if lock locked_delegate_deferred
  valid_address owner
  a ← present (get_account owner st) account_missing
  refuse_if (ltb_ℤ balance trx_precision) delegate_below_trx
  refuse_if (not (valid_v2_resource code)) bad_resource
  refuse_if (ltb_ℤ (frozen_v2_amount a code) balance) delegate_above
  valid_address receiver
  refuse_if (bytes_eq receiver owner) receiver_is_owner
  rc ← present (get_account receiver st) receiver_missing
  refuse_if (rc.account_type == contract_type) receiver_is_contract

abbrev pub resource_or_new : Bytes → Bytes → Option DelegatedResource → DelegatedResource
resource_or_new from to (some d) = d
resource_or_new from to none = record {
  from = from;
  to = to;
  frozen_balance_for_bandwidth = pos 0;
  frozen_balance_for_energy = pos 0;
}

-- The entry and the index of a new delegation.
unfoldable pub record_delegation : Bytes → Bytes → ℤ → ℕ → State → State
unfolding get_v2 put_v2 delegate_v2 add_dr_balance latest_block_header_timestamp
record_delegation owner receiver balance code st =
    let dr = resource_or_new owner receiver (get_v2 owner receiver false st) in
    let stored = put_v2 (add_dr_balance code balance dr) false st in
    delegate_v2 owner receiver (latest_block_header_timestamp stored) stored

-- The owner's slice moves from its frozen balance to what it lent.
unfoldable pub lend : ℕ → ℤ → Account → Account
unfolding add_delegated_v2 add_frozen_v2
lend code balance a = add_frozen_v2 code (sub64 (pos 0) balance) (add_delegated_v2 code balance a)

unfoldable pub reclaim : ℕ → ℤ → Account → Account
unfolding add_delegated_v2 add_frozen_v2
reclaim code balance a =
    add_frozen_v2 code balance (add_delegated_v2 code (sub64 (pos 0) balance) a)

unfoldable pub execute_delegate : Bytes → Bytes → ℤ → ℕ → State → Result Error State
unfolding get_account put_account record_delegation add_acquired_delegated_v2 lend
execute_delegate owner receiver balance code st = do
  a ← present (get_account owner st) account_missing
  rc ← present (get_account receiver st) account_missing
  ok (
      put_account (lend code balance a) (
        put_account (add_acquired_delegated_v2 code balance rc)
          (record_delegation owner receiver balance code st)))

unfoldable pub validate_undelegate : Bytes → Bytes → ℤ → ℕ → State → Checked
unfolding require_stake2 valid_v2_resource get_v2 dr_balance
validate_undelegate owner receiver balance code st = do
  require_stake2 st
  valid_address owner
  valid_address receiver
  refuse_if (not (valid_v2_resource code)) bad_resource
  refuse_if (leb_ℤ balance (pos 0)) undelegate_not_positive
  dr ← present (get_v2 owner receiver false st) delegation_missing
  refuse_if (ltb_ℤ (dr_balance code dr) balance) insufficient_delegation

-- A receiver that holds less is left with nothing.
unfoldable pub give_back : ℕ → ℤ → Account → Account
unfolding acquired_delegated_v2 set_acquired_delegated_v2 add_acquired_delegated_v2
give_back code balance rc =
    if ltb_ℤ (acquired_delegated_v2 code rc) balance
    then set_acquired_delegated_v2 code (pos 0) rc
    else add_acquired_delegated_v2 code (sub64 (pos 0) balance) rc

unfoldable pub take_from_receiver : Bytes → ℤ → ℕ → State → State
unfolding get_account put_account give_back
take_from_receiver receiver balance code st = elim (get_account receiver st) [
  | none ↦ st
  | some rc ↦ put_account (give_back code balance rc) st
]

-- An entry that is empty on both sides is deleted, with its edges.
unfoldable pub shrink_delegation : Bytes → Bytes → DelegatedResource → State → State
unfolding put_v2 delete_v2 undelegate_v2
shrink_delegation owner receiver dr st =
    if eqb_ℤ dr.frozen_balance_for_bandwidth (pos 0) && eqb_ℤ dr.frozen_balance_for_energy (pos 0)
    then undelegate_v2 owner receiver (delete_v2 owner receiver false st)
    else put_v2 dr false st

unfoldable pub execute_undelegate : Bytes → Bytes → ℤ → ℕ → State → Result Error State
unfolding get_account put_account take_from_receiver get_v2 add_dr_balance shrink_delegation reclaim
execute_undelegate owner receiver balance code st = do
  a ← present (get_account owner st) account_missing
  let taken = take_from_receiver receiver balance code st
  dr ← present (get_v2 owner receiver false taken) delegation_missing
  ok (
      put_account (reclaim code balance a)
        (shrink_delegation owner receiver (add_dr_balance code (sub64 (pos 0) balance) dr) taken))
