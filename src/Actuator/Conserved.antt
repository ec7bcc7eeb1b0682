-- ===== src/Actuator/Conserved.antt =====
-- internal/actuator/actuator.go: what `Apply` does with one modelled contract.
use go_tron.Prelude.{◌+◌, ◌%◌, ◌^◌, ◌≡◌, Option, none, some, [], arith}
use go_tron.Prelude.Bytes.{Bytes}
use go_tron.Prelude.Result.{Result, ok}
use go_tron.Resource.Stake.{Float64}
use go_tron.State.{State, Account, get_account}
use go_tron.Actuator.{
  Error, Contract, transfer, freeze_balance_v2, unfreeze_balance_v2, withdraw_expire_unfreeze,
  delegate_resource, undelegate_resource, vote_witness, withdraw_balance, elsewhere,
}
use go_tron.Actuator.Reward.{withdraw_reward}
use go_tron.Actuator.Apply.{Others, validate, execute}
use go_tron.Actuator.Funds.{IsKeyed, total_funds}
use go_tron.Actuator.Settlement.{Pays, Pays-refl, allowance_of, withdraw_reward-Pays}
use go_tron.Actuator.Settled.{Holds, withdraw_reward-Holds}
use go_tron.Actuator.Executes.{
  Conserves, execute_freeze_v2-Conserves, execute_withdraw_expire-Conserves,
  execute_unfreeze_v2-Conserves, execute_vote-Conserves, execute_withdraw_balance-Conserves,
}
use go_tron.Actuator.Transfers.{execute_transfer-Conserves}
use go_tron.Actuator.Lends.{execute_delegate-Conserves, execute_undelegate-Conserves}

-- The owner's account of a contract of a modelled type.
unfoldable pub account_of : Contract → State → Option Account
unfolding get_account
account_of (transfer owner to amount) st = get_account owner st
account_of (freeze_balance_v2 owner balance code) st = get_account owner st
account_of (unfreeze_balance_v2 owner balance code) st = get_account owner st
account_of (withdraw_expire_unfreeze owner) st = get_account owner st
account_of (delegate_resource owner receiver balance code lock) st = get_account owner st
account_of (undelegate_resource owner receiver balance code) st = get_account owner st
account_of (vote_witness owner votes) st = get_account owner st
account_of (withdraw_balance owner) st = get_account owner st
account_of (elsewhere type parameter) st = none

-- The state behind the settlement of rewards, which three of the types begin with.
abbrev pub settled : Float64 → Contract → State → State
settled f (unfreeze_balance_v2 owner balance code) st = withdraw_reward f owner st
settled f (vote_witness owner votes) st = withdraw_reward f owner st
settled f (withdraw_balance owner) st = withdraw_reward f owner st
settled f _ st = st

pub holds :
    (f : Float64) (owner : Bytes) (a : Account) (st : State)
    → IsKeyed st.accounts
    → get_account owner st ≡ some a
    → Holds owner (withdraw_reward f owner st)
holds f owner a st keyed found =
    withdraw_reward-Holds f owner st (record { keyed = keyed; account = a; found = found })

pub settles :
    (f : Float64) (owner : Bytes) (a : Account) (st : State)
    → IsKeyed st.accounts
    → get_account owner st ≡ some a
    → Pays owner st (withdraw_reward f owner st)
settles f owner a st keyed found =
    withdraw_reward-Pays f owner st (record { keyed = keyed; account = a; found = found })

-- The owner of a contract of a modelled type.
abbrev pub owner_of : Contract → Bytes
owner_of (transfer owner to amount) = owner
owner_of (freeze_balance_v2 owner balance code) = owner
owner_of (unfreeze_balance_v2 owner balance code) = owner
owner_of (withdraw_expire_unfreeze owner) = owner
owner_of (delegate_resource owner receiver balance code lock) = owner
owner_of (undelegate_resource owner receiver balance code) = owner
owner_of (vote_witness owner votes) = owner
owner_of (withdraw_balance owner) = owner
owner_of (elsewhere type parameter) = []

-- The call succeeds, and the total grows by what the owner's allowance grew by in the settlement.
pub record Balances (owner : Bytes) (st behind : State) (r : Result Error State) : Type 0 where
  pub next : State
  pub returns : r ≡ ok next
  pub keyed : IsKeyed next.accounts
  pub total :
      (total_funds next.accounts + allowance_of (get_account owner st)) % 2 ^ 64
      ≡ (total_funds st.accounts + allowance_of (get_account owner behind)) % 2 ^ 64

Conserves-Balances :
    (owner : Bytes) (st behind : State) (r : Result Error State)
    → Pays owner st behind
    → Conserves behind r
    → Balances owner st behind r
Conserves-Balances owner st behind r p c = record {
  next = c.next;
  returns = c.returns;
  keyed = c.kept.0;
  total = omega (arith, p.total, c.kept.1);
}

-- A valid contract of a modelled type, which are all but Stake 1.0 and the contracts that run the
-- virtual machine, executes without an error: a transfer, freezing, unfreezing and withdrawing
-- under Stake 2.0, lending and taking back, a vote, and WithdrawBalance. It keeps every account
-- filed once, under its own address, and makes and loses no funds but the rewards: balances,
-- allowances and what is frozen, unfreezing or lent under Stake 2.0 add up, modulo 2^64, to what
-- they were before the contract, more by what the settlement of the owner's rewards adds to the
-- owner's allowance. Only unfreezing, voting and WithdrawBalance begin with a settlement, so for
-- the others the sum is what it was. It holds where the accounts are so filed and the owner has
-- one.
pub execute-Conserves :
    (f : Float64) (o : Others) (c : Contract) (a : Account) (st : State)
    → IsKeyed st.accounts
    → account_of c st ≡ some a
    → validate f o c st ≡ ok tt
    → Balances (owner_of c) st (settled f c st) (execute f o c st)
unfolding validate execute account_of
execute-Conserves f o (transfer owner to amount) a st keyed found h =
    Conserves-Balances owner st st _ (Pays-refl owner st)
      (execute_transfer-Conserves owner to amount st a keyed found h)
execute-Conserves f o (freeze_balance_v2 owner balance code) a st keyed found h =
    Conserves-Balances owner st st _ (Pays-refl owner st)
      (execute_freeze_v2-Conserves owner a st keyed found balance code)
execute-Conserves f o (unfreeze_balance_v2 owner balance code) a st keyed found h =
    let held = holds f owner a st keyed found in
    Conserves-Balances owner st _ _ (settles f owner a st keyed found)
      (execute_unfreeze_v2-Conserves f owner held.account st held.keyed held.found balance code)
execute-Conserves f o (withdraw_expire_unfreeze owner) a st keyed found h =
    Conserves-Balances owner st st _ (Pays-refl owner st)
      (execute_withdraw_expire-Conserves owner a st keyed found)
execute-Conserves f o (delegate_resource owner receiver balance code lock) a st keyed found h =
    Conserves-Balances owner st st _ (Pays-refl owner st)
      (execute_delegate-Conserves owner receiver balance code lock st a keyed found h)
execute-Conserves f o (undelegate_resource owner receiver balance code) a st keyed found h =
    Conserves-Balances owner st st _ (Pays-refl owner st)
      (execute_undelegate-Conserves owner receiver balance code st a keyed found h)
execute-Conserves f o (vote_witness owner votes) a st keyed found h =
    let held = holds f owner a st keyed found in
    Conserves-Balances owner st _ _ (settles f owner a st keyed found)
      (execute_vote-Conserves f owner held.account st held.keyed held.found votes a found)
execute-Conserves f o (withdraw_balance owner) a st keyed found h =
    let held = holds f owner a st keyed found in
    Conserves-Balances owner st _ _ (settles f owner a st keyed found)
      (execute_withdraw_balance-Conserves f owner held.account st held.keyed held.found)
execute-Conserves f o (elsewhere type parameter) a st keyed found h = cc
