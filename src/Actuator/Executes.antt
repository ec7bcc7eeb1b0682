-- ===== src/Actuator/Executes.antt =====
-- internal/actuator: each modelled contract that changes one account, executed where the account
-- exists.
use go_tron.Prelude.{ℕ, ◌%◌, ◌^◌, ◌≡◌, refl, sym, ap, ◌∙◌, some, List, arith}
use go_tron.Prelude.Bytes.{Bytes, bytes_eq_instance}
use go_tron.Prelude.Int.{ℤ, pos}
use go_tron.Prelude.Int64.{add64, sub64}
use go_tron.Prelude.Result.{Result, ok}
use mathlib.Core.Path.{subst}
use go_tron.Resource.Stake.{Float64}
use go_tron.Actuator.Reward.{withdraw_reward, execute_withdraw_balance}
use go_tron.Actuator.Voting.{votes_or_new, execute_vote}
use go_tron.State.{State, Account, Vote, get_account, put_account, get_votes, put_votes}
use go_tron.State.Property.{add_resource_weight, latest_block_header_timestamp, unfreeze_delay_days}
use go_tron.Prelude.Map.{lookup}
use go_tron.Actuator.{Error}
use go_tron.Actuator.Stake2.{
  add_frozen_v2, sweep_matured_unfrozen_v2, weight_v2, execute_freeze_v2, execute_withdraw_expire,
  unfrozen_account, execute_unfreeze_v2,
}
use go_tron.Actuator.Funds.Moves.{
  funds-freeze, funds-sweep, funds-unfrozen_account, funds-withdraw_balance, funds-votes,
}
use go_tron.Actuator.Funds.{
  IsKeyed, funds, total_funds, total_funds-put_account, put_account-IsKeyed, get_account-address,
}

-- The accounts stay in order, and so does their total, modulo 2^64.
abbrev pub Kept : State → State → Type 0
Kept st next =
    IsKeyed next.accounts × (total_funds next.accounts % 2 ^ 64 ≡ total_funds st.accounts % 2 ^ 64)

-- The call succeeds and keeps the total.
pub record Conserves (st : State) (r : Result Error State) : Type 0 where
  pub next : State
  pub returns : r ≡ ok next
  pub kept : Kept st next

pub add_resource_weight-accounts :
    (code : ℕ) (d : ℤ) (st : State) → (add_resource_weight code d st).accounts ≡ st.accounts
unfolding add_resource_weight
add_resource_weight-accounts code d st = ground arith

pub get_account-same :
    (addr : Bytes) (st other : State)
    → other.accounts ≡ st.accounts
    → get_account addr other ≡ get_account addr st
unfolding get_account
get_account-same addr st other same = ap (λ m. lookup addr m) same

-- One account is replaced by a version with the same funds, beside changes of other stores.
pub put-Kept :
    (addr : Bytes) (a b : Account) (st other : State)
    → IsKeyed st.accounts
    → get_account addr st ≡ some a
    → other.accounts ≡ st.accounts
    → b.address ≡ a.address
    → funds b % 2 ^ 64 ≡ funds a % 2 ^ 64
    → Kept st (put_account b other)
put-Kept addr a b st other keyed found same named equal =
    let home : b.address ≡ addr = named ∙ get_account-address addr a st keyed found in
    let there : get_account b.address other ≡ some a =
      ap (λ k. get_account k other) home ∙ get_account-same addr st other same ∙ found in
    (
      put_account-IsKeyed b other (subst IsKeyed (sym same) keyed),
      omega (arith, total_funds-put_account b (some a) other there, ap total_funds same),
    )

module _ (owner : Bytes) (a : Account) (st : State) (keyed : IsKeyed st.accounts)
    (found : get_account owner st ≡ some a) where
  pub execute_freeze_v2-Conserves :
      (balance : ℤ) (code : ℕ) → Conserves st (execute_freeze_v2 owner balance code st)
  unfolding execute_freeze_v2 add_frozen_v2
  execute_freeze_v2-Conserves balance code =
      let frozen = add_frozen_v2 code balance a in
      let b : Account = record frozen { balance = sub64 frozen.balance balance } in
      let delta = sub64 (weight_v2 frozen code) (weight_v2 a code) in
      let weighed = add_resource_weight code delta st in
      record {
        next = put_account b weighed;
        returns = rw found;
        kept =
            put-Kept owner a b st weighed keyed found (add_resource_weight-accounts code delta st)
              refl (funds-freeze code balance a);
      }

  pub execute_withdraw_expire-Conserves : Conserves st (execute_withdraw_expire owner st)
  unfolding execute_withdraw_expire
  execute_withdraw_expire-Conserves =
      let b = sweep_matured_unfrozen_v2 (latest_block_header_timestamp st) a in
      record {
        next = put_account b st;
        returns = rw found;
        kept =
            put-Kept owner a b st st keyed found refl refl
              (funds-sweep (latest_block_header_timestamp st) a);
      }

-- Behind the settlement of the owner's rewards.
module _ (f : Float64) (owner : Bytes) (a : Account) (st : State)
    (keyed : IsKeyed (withdraw_reward f owner st).accounts)
    (found : get_account owner (withdraw_reward f owner st) ≡ some a) where
  pub execute_unfreeze_v2-Conserves :
      (balance : ℤ) (code : ℕ)
      → Conserves (withdraw_reward f owner st) (execute_unfreeze_v2 f owner balance code st)
  unfolding execute_unfreeze_v2 unfrozen_account
  execute_unfreeze_v2-Conserves balance code =
      let settled = withdraw_reward f owner st in
      let now = latest_block_header_timestamp settled in
      let delay = unfreeze_delay_days settled in
      let b = unfrozen_account now delay balance code a in
      let delta = sub64 (weight_v2 b code) (weight_v2 a code) in
      let weighed = add_resource_weight code delta settled in
      record {
        next = put_account b weighed;
        returns = rw found;
        kept =
            put-Kept owner a b settled weighed keyed found
              (add_resource_weight-accounts code delta settled) refl
              (funds-unfrozen_account now delay balance code a);
      }

  pub execute_vote-Conserves :
      (votes : List Vote) (before : Account)
      → get_account owner st ≡ some before
      → Conserves (withdraw_reward f owner st) (execute_vote f owner votes st)
  unfolding execute_vote
  execute_vote-Conserves votes before there =
      let settled = withdraw_reward f owner st in
      let b : Account = record a { votes = votes } in
      let entry = votes_or_new a owner (get_votes owner settled) in
      record {
        next = put_votes (record entry { new_votes = votes }) (put_account b settled);
        returns = rw (found, there);
        kept = put-Kept owner a b settled settled keyed found refl refl (funds-votes votes a);
      }

  pub execute_withdraw_balance-Conserves :
      Conserves (withdraw_reward f owner st) (execute_withdraw_balance f owner st)
  unfolding execute_withdraw_balance
  execute_withdraw_balance-Conserves =
      let settled = withdraw_reward f owner st in
      let b : Account = record a {
        balance = add64 a.balance a.allowance;
        allowance = pos 0;
        latest_withdraw_time = latest_block_header_timestamp settled;
      } in
      record {
        next = put_account b settled;
        returns = rw found;
        kept =
            put-Kept owner a b settled settled keyed found refl refl
              (funds-withdraw_balance (latest_block_header_timestamp settled) a);
      }
