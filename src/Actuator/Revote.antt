-- ===== src/Actuator/Revote.antt =====
-- internal/actuator: votes that are cast again behind an unfreezing.
use go_tron.Prelude.{
  ℕ, ◌≡◌, refl, ◌∙◌, ap, true, false, not, Bool-cases, inl, inr, if_so, if_not, Option, none, some,
  List, [], arith, if◌then◌else◌, ◌==◌,
}
use go_tron.Prelude.Bytes.{Bytes, bytes_eq, bytes_eq_instance, nat_eq}
use go_tron.Prelude.Int.{ℤ, pos, eqb_ℤ}
use go_tron.Prelude.Int64.{sub64}
use go_tron.Prelude.Map.{lookup-insert}
use go_tron.Prelude.Result.{ok}
use go_tron.Resource.Stake.{Float64}
use go_tron.State.{
  State, Account, Vote, Votes, get_account, put_account, get_votes, put_votes, bandwidth,
}
use go_tron.State.Names
use go_tron.State.Property.{
  allow_change_delegation, get_or_default, put_int64, add_weight, add_resource_weight,
  latest_block_header_timestamp, unfreeze_delay_days,
}
use go_tron.Actuator.Stake2.{unfrozen_account, weight_v2, execute_unfreeze_v2}
use go_tron.Actuator.Voting.{execute_vote}
use go_tron.Actuator.Reward.{withdraw_reward}
use go_tron.Actuator.Once.{withdraw_reward-off}
use go_tron.Actuator.Funds.{IsKeyed, get_account-put_account, get_account-address, bytes_eq_refl}

get_votes-put_votes : (v : Votes) (st : State) → get_votes v.address (put_votes v st) ≡ some v
unfolding get_votes put_votes
get_votes-put_votes v st =
    lookup-insert v.address v.address v st.votes ∙ if_so _ _ _ (bytes_eq_refl v.address)

get_votes-put_account :
    (k : Bytes) (a : Account) (st : State) → get_votes k (put_account a st) ≡ get_votes k st
unfolding get_votes put_account
get_votes-put_account k a st = refl

get_votes-add_resource_weight :
    (k : Bytes) (code : ℕ) (d : ℤ) (st : State)
    → get_votes k (add_resource_weight code d st) ≡ get_votes k st
unfolding get_votes add_resource_weight
get_votes-add_resource_weight k code d st = ground arith

allow_change_delegation-put_account :
    (a : Account) (st : State)
    → allow_change_delegation (put_account a st) ≡ allow_change_delegation st
unfolding allow_change_delegation put_account
allow_change_delegation-put_account a st = refl

get_or_default-put_int64 :
    (key k : ℕ) (x v : ℤ) (st : State)
    → (key == k) ≡ false
    → get_or_default k x (put_int64 key v st) ≡ get_or_default k x st
unfolding get_or_default put_int64
get_or_default-put_int64 key k x v st ne =
    ap (λ (o : Option ℤ). elim o as (λ _. ℤ) [ none ↦ x | some y ↦ y ])
      (lookup-insert key k v st.properties ∙ if_not _ _ _ ne)

allow_change_delegation-add_weight :
    (key : ℕ) (d : ℤ) (st : State)
    → (key == Names.change_delegation) ≡ false
    → allow_change_delegation (add_weight key d st) ≡ allow_change_delegation st
unfolding add_weight allow_change_delegation
allow_change_delegation-add_weight key d st ne = elim (Bool-cases (eqb_ℤ d (pos 0))) [
  | inl z ↦ rw z
  | inr z ↦ rw z (
      ap (λ x. eqb_ℤ x (pos 1))
        (get_or_default-put_int64 key Names.change_delegation (pos 0) _ st ne))
]

allow_change_delegation-add_resource_weight :
    (code : ℕ) (d : ℤ) (st : State)
    → allow_change_delegation (add_resource_weight code d st) ≡ allow_change_delegation st
unfolding add_resource_weight
allow_change_delegation-add_resource_weight code d st =
    allow_change_delegation-add_weight
      (if code == bandwidth then Names.total_net_weight else Names.total_energy_weight) d st
      (ground arith)

-- A vote by an account without a pending entry, while rewards are off: the votes that it has now
-- become the old ones.
module _ (f : Float64) (owner : Bytes) (a : Account) (st : State)
    (off : not (allow_change_delegation st) ≡ true) (found : get_account owner st ≡ some a) where
  abbrev voted_entry : List Vote → Votes
  voted_entry votes = record { address = owner; old_votes = a.votes; new_votes = votes }

  vote_enters :
      (votes : List Vote)
      → get_votes owner st ≡ none
      → (next : State) × (execute_vote f owner votes st ≡ ok next)
        × (get_votes owner next ≡ some (voted_entry votes))
  unfolding execute_vote
  vote_enters votes fresh =
      let settled = withdraw_reward f owner st in
      let same = withdraw_reward-off f owner st off in
      let there : get_account owner settled ≡ some a = ap (get_account owner) same ∙ found in
      let empty : get_votes owner settled ≡ none = ap (get_votes owner) same ∙ fresh in
      let voted = put_account (record a { votes = votes }) settled in
      (
        put_votes (voted_entry votes) voted,
        rw (there, empty, found),
        get_votes-put_votes (voted_entry votes) voted,
      )

-- What an unfreezing leaves for the next vote.
unfreeze_leaves :
    (f : Float64) (owner : Bytes) (a : Account) (st : State) (balance : ℤ) (code : ℕ)
    → not (allow_change_delegation st) ≡ true
    → IsKeyed st.accounts
    → get_account owner st ≡ some a
    → get_votes owner st ≡ none
    → (next : State) × (b : Account) × (execute_unfreeze_v2 f owner balance code st ≡ ok next)
      × (get_account owner next ≡ some b)
      × (b.votes ≡ [])
      × (not (allow_change_delegation next) ≡ true)
      × (get_votes owner next ≡ none)
unfolding execute_unfreeze_v2 unfrozen_account
unfreeze_leaves f owner a st balance code off keyed found fresh =
    let settled = withdraw_reward f owner st in
    let same = withdraw_reward-off f owner st off in
    let there : get_account owner settled ≡ some a = ap (get_account owner) same ∙ found in
    let b =
      unfrozen_account (latest_block_header_timestamp settled) (unfreeze_delay_days settled) balance
        code a in
    let delta = sub64 (weight_v2 b code) (weight_v2 a code) in
    let weighed = add_resource_weight code delta settled in
    (
      put_account b weighed,
      b,
      rw there,
      get_account-put_account b owner weighed
          ∙ if_so _ _ _ (
              ap (λ k. bytes_eq k owner) (get_account-address owner a st keyed found)
              ∙ bytes_eq_refl owner),
      refl,
      ap not (
            allow_change_delegation-put_account b weighed
            ∙ allow_change_delegation-add_resource_weight code delta settled
            ∙ ap allow_change_delegation same)
          ∙ off,
      get_votes-put_account owner b weighed
          ∙ get_votes-add_resource_weight owner code delta settled
          ∙ ap (get_votes owner) same
          ∙ fresh,
    )

-- Behind a maintenance, when no vote is pending, an account that unfreezes and casts its votes
-- again enters them as new beside no old ones, so the next tally adds them to the witnesses a
-- second time; cast again without the unfreezing they stand as old and new, and the tally adds
-- nothing. UnfreezeBalanceV2 clears the votes of the account and leaves the store of votes alone.
-- It holds while rewards are off, of every account that is filed under its address, and both calls
-- succeed.
pub execute_vote-unfreeze_v2 :
    (f : Float64) (owner : Bytes) (a : Account) (st : State) (balance : ℤ) (code : ℕ)
    → not (allow_change_delegation st) ≡ true
    → IsKeyed st.accounts
    → get_account owner st ≡ some a
    → get_votes owner st ≡ none
    → ((unfrozen next : State) × (execute_unfreeze_v2 f owner balance code st ≡ ok unfrozen)
        × (execute_vote f owner a.votes unfrozen ≡ ok next)
        × (get_votes owner next
            ≡ some (record { address = owner; old_votes = []; new_votes = a.votes })))
      × ((next : State) × (execute_vote f owner a.votes st ≡ ok next)
          × (get_votes owner next
              ≡ some (record { address = owner; old_votes = a.votes; new_votes = a.votes })))
execute_vote-unfreeze_v2 f owner a st balance code off keyed found fresh =
    let (unfrozen, b, done, there, cleared, still_off, empty) =
      unfreeze_leaves f owner a st balance code off keyed found fresh in
    let (next, voted, entry) = vote_enters f owner b unfrozen still_off there a.votes empty in
    (
      (
        unfrozen,
        next,
        done,
        voted,
        entry
            ∙ ap (λ vs. some (record { address = owner; old_votes = vs; new_votes = a.votes }))
                cleared,
      ),
      vote_enters f owner a st off found a.votes fresh,
    )
