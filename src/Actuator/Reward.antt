-- ===== src/Actuator/Reward.antt =====
-- internal/actuator/reward.go: the rewards of blocks and votes, and WithdrawBalance. `float64` is
-- the interface of Resource.Stake.
use go_tron.Prelude.{
  ℕ, zero, suc, Bool, true, false, Option, none, some, List, [], ◌∷◌, if◌then◌else◌, ◌&&◌, ◌||◌,
  not,
}
use go_tron.Prelude.Bytes.{Bytes}
use go_tron.Prelude.Int.{ℤ, pos, pos_part, leb_ℤ, ltb_ℤ, eqb_ℤ, ◌-ℤ◌, ◌*ℤ◌}
use go_tron.Prelude.Int64.{add64, sub64, mul64, wrap64, min64, max_int64}
use go_tron.Prelude.Result.{Result, ok, ◌>>=◌, ◌>>◌}
use go_tron.Resource.Stake.{Float64}
use go_tron.State.{State, Account, Vote, Delegations, get_account, put_account}
use go_tron.State.Property.{
  allow_change_delegation, current_cycle_number, new_reward_algorithm_effective_cycle,
  latest_block_header_timestamp, witness_allowance_frozen_time,
}
use go_tron.State.Delegation.{
  get_reward, add_reward, get_witness_vote, get_witness_vi, euclid_div, get_brokerage_at,
  get_begin_cycle, set_begin_cycle, get_end_cycle, set_end_cycle, get_account_vote,
  set_account_vote, decimal_of_vi_reward, remark_no_vote,
}
use go_tron.Actuator.{
  Checked, Error, refuse_if, present, valid_address, account_or_new, account_missing,
  withdrawn_recently, no_reward, allowance_overflow, frozen_period_ms,
}

unfoldable pub adjust_allowance : Bytes → ℤ → State → State
unfolding get_account put_account
adjust_allowance addr amount st =
    if leb_ℤ amount (pos 0)
    then st
    else (let a = account_or_new addr (get_account addr st) in
        put_account (record a { allowance = add64 a.allowance amount }) st)

-- One vote's share by the index of the new algorithm, of a span of cycles.
unfoldable pub vi_reward : ℤ → ℤ → Vote → Delegations → ℤ
unfolding get_witness_vi euclid_div
vi_reward begin end v d =
    let begin_vi = get_witness_vi (sub64 begin (pos 1)) v.vote_address d in
    let end_vi = get_witness_vi (sub64 end (pos 1)) v.vote_address d in
    if leb_ℤ (pos end_vi) (pos begin_vi)
    then pos 0
    else wrap64
        (euclid_div ((pos end_vi -ℤ pos begin_vi) *ℤ v.vote_count) (pos decimal_of_vi_reward))

unfoldable pub vi_rewards : ℤ → ℤ → List Vote → Delegations → ℤ → ℤ
unfolding vi_reward
vi_rewards begin end [] d reward = reward
vi_rewards begin end (v ∷ vs) d reward =
    vi_rewards begin end vs d (add64 reward (vi_reward begin end v d))

-- The cursors and the votes that the next settlement starts from.
unfoldable pub close_cycle : Bytes → ℤ → List Vote → State → State
unfolding set_begin_cycle set_end_cycle set_account_vote
close_cycle addr current votes st = record st {
  delegation =
      set_account_vote current addr votes
        (set_end_cycle addr (add64 current (pos 1)) (set_begin_cycle addr current st.delegation));
}

abbrev pub is_some : {A : Type 0} → Option A → Bool
is_some none = false
is_some (some a) = true

module _ (f : Float64) where
  unfoldable pub pay_reward : Bytes → ℤ → State → State
  unfolding current_cycle_number get_brokerage_at add_reward adjust_allowance
  pay_reward witness_addr value st =
      let cycle = current_cycle_number st in
      let brokerage = get_brokerage_at cycle witness_addr st.delegation in
      let amount =
        f.to_int64
          (f.mul (f.div (f.of_int64 brokerage) (f.of_int64 (pos 100))) (f.of_int64 value)) in
      adjust_allowance witness_addr amount (record st {
        delegation = add_reward cycle witness_addr (sub64 value amount) st.delegation;
      })

  unfoldable pub pay_block_reward : Bytes → ℤ → State → State
  unfolding allow_change_delegation pay_reward
  pay_block_reward witness_addr value st =
      if not (allow_change_delegation st) then st else pay_reward witness_addr value st

  -- One cycle of the old algorithm, with its truncation behind each vote.
  unfoldable pub compute_reward_old_cycle : ℤ → List Vote → Delegations → ℤ → ℤ
  unfolding get_reward get_witness_vote
  compute_reward_old_cycle cycle [] d reward = reward
  compute_reward_old_cycle cycle (v ∷ vs) d reward =
      let total_reward = get_reward cycle v.vote_address d in
      let total_vote = get_witness_vote cycle v.vote_address d in
      let rate = f.div (f.of_int64 v.vote_count) (f.of_int64 total_vote) in
      compute_reward_old_cycle cycle vs d (
        if leb_ℤ total_reward (pos 0)
          || (eqb_ℤ total_vote remark_no_vote || eqb_ℤ total_vote (pos 0))
        then reward
        else f.to_int64 (f.add (f.of_int64 reward) (f.mul rate (f.of_int64 total_reward))))

  -- The loop over the cycles from `cycle`, by how many are left.
  unfoldable pub get_old_reward : ℕ → ℤ → List Vote → Delegations → ℤ → ℤ
  unfolding compute_reward_old_cycle
  get_old_reward zero cycle votes d reward = reward
  get_old_reward (suc left) cycle votes d reward =
      get_old_reward left (add64 cycle (pos 1)) votes d
        (add64 reward (compute_reward_old_cycle cycle votes d (pos 0)))

  unfoldable pub compute_reward : ℤ → ℤ → List Vote → State → ℤ
  unfolding new_reward_algorithm_effective_cycle get_old_reward vi_rewards
  compute_reward begin end votes st =
      let algorithm_cycle = new_reward_algorithm_effective_cycle st in
      let old_end = min64 end algorithm_cycle in
      let old = get_old_reward (pos_part (old_end -ℤ begin)) begin votes st.delegation (pos 0) in
      if leb_ℤ end begin
      then pos 0
      else if ltb_ℤ begin algorithm_cycle
      then if ltb_ℤ old_end end then vi_rewards old_end end votes st.delegation old else old
      else vi_rewards begin end votes st.delegation (pos 0)

  -- The cycle that has just closed, where the cursor sits one cycle back: the reward by the votes
  -- kept for it, and the cursor behind it.
  unfoldable pub closed_reward : Bytes → ℤ → ℤ → State → ℤ
  unfolding get_account_vote compute_reward
  closed_reward addr begin end st = elim (get_account_vote begin addr st.delegation) [
    | none ↦ pos 0
    | some votes ↦ compute_reward begin end votes st
  ]

  abbrev pub just_closed : ℤ → ℤ → ℤ → Bool
  just_closed begin end current = eqb_ℤ (add64 begin (pos 1)) end && ltb_ℤ begin current

  abbrev pub after_closed : ℤ → ℤ → ℤ → ℤ
  after_closed begin end current =
      if just_closed begin end current then add64 begin (pos 1) else begin

  abbrev pub has_account_vote : ℤ → Bytes → Delegations → Bool
  has_account_vote cycle addr d = is_some (get_account_vote cycle addr d)

  -- From the settled cycle to the current one, by the votes that the account has now.
  unfoldable pub settle_votes : Bytes → ℤ → ℤ → List Vote → State → State
  unfolding set_begin_cycle compute_reward adjust_allowance close_cycle
  settle_votes addr begin current [] st = record st {
    delegation = set_begin_cycle addr (add64 current (pos 1)) st.delegation;
  }
  settle_votes addr begin current (v ∷ vs) st =
      let reward = compute_reward begin current (v ∷ vs) st in
      close_cycle addr current (v ∷ vs)
        (if ltb_ℤ begin current then adjust_allowance addr reward st else st)

  unfoldable pub withdraw_account_reward : Bytes → Account → State → State
  unfolding get_begin_cycle get_end_cycle current_cycle_number closed_reward settle_votes
      adjust_allowance
  withdraw_account_reward addr a st =
      let begin = get_begin_cycle addr st.delegation in
      let end = get_end_cycle addr st.delegation in
      let current = current_cycle_number st in
      if ltb_ℤ current begin || (eqb_ℤ begin current && has_account_vote begin addr st.delegation)
      then st
      else settle_votes addr (after_closed begin end current) current a.votes (
          if just_closed begin end current
          then adjust_allowance addr (closed_reward addr begin end st) st
          else st)

  unfoldable pub withdraw_reward : Bytes → State → State
  unfolding allow_change_delegation get_account withdraw_account_reward
  withdraw_reward addr st =
      if not (allow_change_delegation st)
      then st
      else elim (get_account addr st) [ none ↦ st | some a ↦ withdraw_account_reward addr a st ]

  unfoldable pub add_voted_reward : ℤ → ℤ → List Vote → State → ℤ → ℤ
  unfolding compute_reward
  add_voted_reward begin current [] st closed = closed
  add_voted_reward begin current (v ∷ vs) st closed =
      if ltb_ℤ begin current
      then add64 closed (compute_reward begin current (v ∷ vs) st)
      else closed

  unfoldable pub query_account_reward : Bytes → Account → State → ℤ
  unfolding get_begin_cycle get_end_cycle current_cycle_number closed_reward add_voted_reward
  query_account_reward addr a st =
      let begin = get_begin_cycle addr st.delegation in
      let end = get_end_cycle addr st.delegation in
      let current = current_cycle_number st in
      let closed : ℤ =
        if just_closed begin end current then closed_reward addr begin end st else pos 0 in
      if ltb_ℤ current begin
      then a.allowance
      else add64 (add_voted_reward (after_closed begin end current) current a.votes st closed)
          a.allowance

  unfoldable pub query_reward : Bytes → State → ℤ
  unfolding allow_change_delegation get_account query_account_reward
  query_reward addr st =
      if not (allow_change_delegation st)
      then pos 0
      else elim (get_account addr st) [ none ↦ pos 0 | some a ↦ query_account_reward addr a st ]

  unfoldable pub validate_withdraw_balance : Bytes → State → Checked
  unfolding get_account latest_block_header_timestamp witness_allowance_frozen_time query_reward
  validate_withdraw_balance owner st = do
    valid_address owner
    a ← present (get_account owner st) account_missing
    refuse_if
        (ltb_ℤ (sub64 (latest_block_header_timestamp st) a.latest_withdraw_time)
          (mul64 (witness_allowance_frozen_time st) frozen_period_ms))
        withdrawn_recently
    refuse_if (leb_ℤ a.allowance (pos 0) && leb_ℤ (query_reward owner st) (pos 0)) no_reward
    refuse_if (ltb_ℤ (sub64 max_int64 a.allowance) a.balance) allowance_overflow

  unfoldable pub execute_withdraw_balance : Bytes → State → Result Error State
  unfolding withdraw_reward get_account put_account latest_block_header_timestamp
  execute_withdraw_balance owner st = do
    let settled = withdraw_reward owner st
    a ← present (get_account owner settled) account_missing
    ok (
        put_account
          (record a {
            balance = add64 a.balance a.allowance;
            allowance = pos 0;
            latest_withdraw_time = latest_block_header_timestamp settled;
          })
          settled)
