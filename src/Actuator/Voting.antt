-- ===== src/Actuator/Voting.antt =====
-- internal/actuator/vote.go: votes for witnesses.
use go_tron.Prelude.{ℕ, Option, none, some, List, [], ◌∷◌, if◌then◌else◌, ◌==◌, ltb, length}
use go_tron.Prelude.Bytes.{Bytes}
use go_tron.Prelude.Int.{ℤ, pos, leb_ℤ, ltb_ℤ}
use go_tron.Prelude.Int64.{add64, mul64}
use go_tron.Prelude.Result.{Result, ok, ◌>>=◌, ◌>>◌}
use go_tron.Resource.Stake.{Float64}
use go_tron.State.{
  State, Account, FreezeV2, Vote, Votes, get_account, put_account, get_witness, get_votes,
  put_votes, tron_power_code,
}
use go_tron.Actuator.{
  Checked, Error, refuse_if, present, valid_address, account_missing, no_votes, too_many_votes,
  vote_not_positive, witness_missing, votes_above_power, trx_precision,
}
use go_tron.Actuator.Reward.{withdraw_reward}

abbrev pub max_vote_number : ℕ
max_vote_number = 30

-- `sumFrozen` of freeze.go.
unfoldable pub sum_frozen : List ℤ → ℤ → ℤ
sum_frozen [] total = total
sum_frozen (b ∷ bs) total = sum_frozen bs (add64 total b)

unfoldable pub add_voting_stake : List FreezeV2 → ℤ → ℤ
add_voting_stake [] power = power
add_voting_stake (f ∷ fs) power =
    add_voting_stake fs (if f.code == tron_power_code then power else add64 power f.amount)

unfoldable pub tron_power : Account → ℤ
unfolding sum_frozen add_voting_stake
tron_power a =
    let res = a.account_resource in
    let own = add64 (sum_frozen a.frozen (pos 0)) res.frozen_balance_for_energy in
    let lent =
      add64 (add64 own a.delegated_frozen_balance_for_bandwidth)
        res.delegated_frozen_balance_for_energy in
    let staked = add_voting_stake a.frozen_v2 lent in
    add64 (add64 staked a.delegated_frozen_v2_balance_for_bandwidth)
      res.delegated_frozen_v2_balance_for_energy

-- The loop over the votes, with its running sum.
unfoldable pub check_votes : List Vote → ℤ → State → Result Error ℤ
unfolding get_witness
check_votes [] sum st = ok sum
check_votes (v ∷ vs) sum st = do
  valid_address v.vote_address
  refuse_if (leb_ℤ v.vote_count (pos 0)) vote_not_positive
  w ← present (get_witness v.vote_address st) witness_missing
  check_votes vs (add64 sum v.vote_count) st

unfoldable pub validate_vote : Bytes → List Vote → State → Checked
unfolding get_account check_votes tron_power
validate_vote owner votes st = do
  valid_address owner
  refuse_if (length votes == 0) no_votes
  refuse_if (ltb max_vote_number (length votes)) too_many_votes
  a ← present (get_account owner st) account_missing
  sum ← check_votes votes (pos 0) st
  refuse_if (ltb_ℤ (tron_power a) (mul64 sum trx_precision)) votes_above_power

abbrev pub votes_or_new : Account → Bytes → Option Votes → Votes
votes_or_new a owner (some v) = v
votes_or_new a owner none = record { address = owner; old_votes = a.votes; new_votes = [] }

module _ (f : Float64) where
  unfoldable pub execute_vote : Bytes → List Vote → State → Result Error State
  unfolding get_account put_account get_votes put_votes withdraw_reward
  execute_vote owner votes st = do
    before ← present (get_account owner st) account_missing
    let settled = withdraw_reward f owner st
    a ← present (get_account owner settled) account_missing
    let entry = votes_or_new a owner (get_votes owner settled)
    ok (
        put_votes (record entry { new_votes = votes })
          (put_account (record a { votes = votes }) settled))
