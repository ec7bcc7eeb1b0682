-- ===== src/Tests/Actuator.antt =====
-- The actuators and the maintenance on concrete states.
use go_tron.Prelude.{
  ◌≡◌, ◌*◌, ◌^◌, refl, not, true, false, none, some, List, [], ◌∷◌, ◌++◌, replicate, arith,
}
use go_tron.Prelude.Bytes.{Bytes, bytes_eq_iff}
use go_tron.Prelude.Int.{pos, ◌≤ℤ◌, ◌+ℤ◌, ◌-ℤ◌, ◌*ℤ◌}
use go_tron.Prelude.Int64.{wrap64, add64, mul64, quot}
use go_tron.Prelude.Map.{lookup, insert, erase}
use go_tron.Prelude.Result.{ok}
use go_tron.State.{State, Account, Vote, Delegations, get_account, get_votes, get_witness}
use go_tron.Tests.Resource.{whole}
use go_tron.State.Names
use go_tron.State.Property.{allow_change_delegation, current_cycle_number}
use go_tron.Actuator.{new_account, vote_witness, valid_address}
use go_tron.Actuator.Apply.{Others, validate, execute}
use mathlib.Core.Option as Option
use go_tron.Address.Checked.{from_bytes}
use go_tron.State.Delegation.{get_begin_cycle, get_end_cycle}
use go_tron.Actuator.Reward.{closed_reward, compute_reward, withdraw_reward, query_reward}
use go_tron.Actuator.Voting.{validate_vote, execute_vote, tron_power}
use go_tron.Actuator.Stake2.{execute_unfreeze_v2}
use go_tron.Actuator.Funds.{IsKeyed}
use go_tron.Actuator.Conserved.{Balances, settled, account_of, execute-Conserves}
use go_tron.Actuator.Once.{withdraw_reward-withdraw_reward}
use go_tron.Actuator.Payout.{closed, voted, query_reward-withdraw_reward}
use go_tron.Actuator.Ballot.{total_votes, validate_vote-tron_power, validate_vote-wraps}
use go_tron.Actuator.Revote.{execute_vote-unfreeze_v2}
use go_tron.Node.Maintenance.{tally}
use go_tron.Node.Deltas.{pending_change}
use go_tron.Node.Counts.{recount, IsFiled}
use go_tron.Node.Tally.{tally_lem}

abbrev alice : Bytes
alice = 65 ∷ replicate 20 1

abbrev bob : Bytes
bob = 65 ∷ replicate 20 2

abbrev ballot : List Vote
ballot = record { vote_address = bob; vote_count = pos 3 } ∷ []

abbrev staked : Account
staked = record (new_account alice) {
  balance = pos 100;
  votes = ballot;
  frozen_v2 = record { code = 0; amount = pos 5000000 } ∷ [];
}

abbrev no_figures : Delegations
no_figures = record {
  rewards = [];
  vis = [];
  witness_votes = [];
  account_votes = [];
  begin_cycles = [];
  end_cycles = [];
  brokerages = [];
}

abbrev chain : State
chain = record {
  accounts = (alice, staked) ∷ [];
  witnesses = (bob, record { address = bob; vote_count = pos 3 }) ∷ [];
  properties = [];
  delegated = [];
  delegated_index = [];
  votes = [];
  delegation = no_figures;
}

abbrev nothing_else : Others
nothing_else = record { actuator = λ _. none }

chain-IsKeyed : IsKeyed chain.accounts
unfolding lookup
chain-IsKeyed = (refl, refl, tt)

-- Stakes are on, and alice can freeze more bandwidth.
abbrev staking : State
staking = record chain {
  accounts = (alice, record staked { balance = pos 9000000 }) ∷ [];
  properties = (Names.unfreeze_delay_days, pos 14) ∷ (Names.total_net_weight, pos 5) ∷ [];
}

-- The key of the witness in the first cycle.
abbrev first_cycle : Bytes
first_cycle = replicate 7 0 ++ 1 ∷ bob

-- Rewards are on, in the third cycle; in the first one the witness earned 12 for its voters.
abbrev rewarding : State
rewarding = record chain {
  properties = (Names.change_delegation, pos 1) ∷ (Names.current_cycle_number, pos 3) ∷ [];
  delegation = record no_figures {
    rewards = (first_cycle, pos 12) ∷ [];
    witness_votes = (first_cycle, pos 3) ∷ [];
  };
}

third_cycle : current_cycle_number rewarding ≡ pos 3
unfolding current_cycle_number lookup
third_cycle = refl

vote_valid : validate whole nothing_else (vote_witness alice ballot) rewarding ≡ ok tt
unfolding validate lookup tron_power add64 wrap64 ◌+ℤ◌ from_bytes mul64 ◌*ℤ◌
vote_valid = refl

-- The vote settles 12 of rewards first.
execute-Conserves_example :
    Balances alice rewarding
      (settled whole (vote_witness alice ballot) rewarding)
      (execute whole nothing_else (vote_witness alice ballot) rewarding)
unfolding account_of lookup
execute-Conserves_example =
    execute-Conserves whole nothing_else (vote_witness alice ballot) staked rewarding chain-IsKeyed
      refl vote_valid

withdraw_reward-withdraw_reward_example :
    withdraw_reward whole alice (withdraw_reward whole alice rewarding)
    ≡ withdraw_reward whole alice rewarding
withdraw_reward-withdraw_reward_example =
    withdraw_reward-withdraw_reward whole alice rewarding (rw third_cycle (omega arith))
      (rw third_cycle (omega arith))

earned : query_reward whole alice rewarding ≡ pos 12
unfolding query_reward lookup ◌*ℤ◌ quot add64 wrap64 ◌+ℤ◌ ◌-ℤ◌
earned = refl

closed_pos : pos 0 ≤ℤ closed whole alice staked rewarding
unfolding closed_reward get_begin_cycle get_end_cycle lookup
closed_pos = omega arith

voted_pos : pos 0 ≤ℤ voted whole alice staked rewarding
unfolding compute_reward get_begin_cycle get_end_cycle current_cycle_number lookup ◌*ℤ◌ quot add64
    wrap64 ◌+ℤ◌ ◌-ℤ◌
voted_pos = omega arith

rewards_on : not (allow_change_delegation rewarding) ≡ false
unfolding allow_change_delegation lookup
rewards_on = refl

alice_rewarded : get_account alice rewarding ≡ some staked
unfolding get_account lookup
alice_rewarded = refl

query_reward-withdraw_reward_example :
    (b : Account) × (get_account alice (withdraw_reward whole alice rewarding) ≡ some b)
    × (b.allowance ≡ query_reward whole alice rewarding)
query_reward-withdraw_reward_example =
    query_reward-withdraw_reward whole alice staked rewarding chain-IsKeyed alice_rewarded
      (omega arith) closed_pos voted_pos rewards_on

ballot_valid : validate_vote alice ballot chain ≡ ok tt
unfolding validate_vote lookup from_bytes add64 wrap64 mul64 ◌+ℤ◌ ◌*ℤ◌
ballot_valid = refl

alice_in_chain : get_account alice chain ≡ some staked
unfolding get_account lookup
alice_in_chain = refl

validate_vote-tron_power_example : pos (total_votes ballot * 1000000) ≤ℤ tron_power staked
validate_vote-tron_power_example =
    validate_vote-tron_power alice ballot chain staked alice_in_chain (omega arith) ballot_valid

alice_valid : valid_address alice ≡ ok tt
unfolding from_bytes
alice_valid = refl

bob_valid : valid_address bob ≡ ok tt
unfolding from_bytes
bob_valid = refl

bob_in_chain : get_witness bob chain ≡ some (record { address = bob; vote_count = pos 3 })
unfolding get_witness lookup
bob_in_chain = refl

some_power : pos 0 ≤ℤ tron_power staked
unfolding tron_power add64 wrap64 ◌+ℤ◌
some_power = omega arith

validate_vote-wraps_example :
    validate_vote alice (record { vote_address = bob; vote_count = pos (1 * 2 ^ 58) } ∷ []) chain
    ≡ ok tt
validate_vote-wraps_example =
    validate_vote-wraps alice bob 1 chain staked (record { address = bob; vote_count = pos 3 })
      alice_valid bob_valid alice_in_chain bob_in_chain some_power (omega arith) (omega arith)

-- A vote is pending.
abbrev pending : State
pending = record chain {
  votes = (alice, record { address = alice; old_votes = []; new_votes = ballot }) ∷ [];
}

pending-IsFiled : IsFiled pending
unfolding get_witness lookup
pending-IsFiled k w e = ground (arith, bytes_eq_iff bob k)

tally_lem_example :
    (get_witness bob (tally pending)
      ≡ Option.map (recount (wrap64 (pending_change bob pending.votes))) (get_witness bob pending))
    × (get_votes bob (tally pending) ≡ none)
tally_lem_example = tally_lem pending bob pending-IsFiled (refl, tt)

counted : get_witness bob (tally pending) ≡ some (record { address = bob; vote_count = pos 6 })
unfolding tally get_witness lookup insert erase add64 wrap64 ◌+ℤ◌
counted = refl

no_entry : get_votes alice chain ≡ none
unfolding get_votes lookup
no_entry = refl

rewards_off : not (allow_change_delegation chain) ≡ true
unfolding allow_change_delegation lookup
rewards_off = refl

execute_vote-unfreeze_v2_example :
    ((unfrozen next : State) × (execute_unfreeze_v2 whole alice (pos 1000000) 0 chain ≡ ok unfrozen)
      × (execute_vote whole alice ballot unfrozen ≡ ok next)
      × (get_votes alice next
          ≡ some (record { address = alice; old_votes = []; new_votes = ballot })))
    × ((next : State) × (execute_vote whole alice ballot chain ≡ ok next)
        × (get_votes alice next
            ≡ some (record { address = alice; old_votes = ballot; new_votes = ballot })))
execute_vote-unfreeze_v2_example =
    execute_vote-unfreeze_v2 whole alice staked chain (pos 1000000) 0 rewards_off chain-IsKeyed
      alice_in_chain no_entry
