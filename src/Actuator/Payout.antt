-- ===== src/Actuator/Payout.antt =====
-- internal/actuator/reward.go: what `queryReward` answers is what a settlement leaves.
use go_tron.Prelude.{
  ◌≡◌, refl, sym, ◌∙◌, ap, Bool, true, false, not, if_not, Bool-cases, inl, inr, Option, none, some,
  List, [], ◌∷◌, arith, if◌then◌else◌, ◌||◌, ◌&&◌,
}
use go_tron.Prelude.Bytes.{Bytes}
use go_tron.Prelude.Int.{ℤ, pos, ltb_ℤ, eqb_ℤ, ◌≤ℤ◌}
use go_tron.Prelude.Int64.{add64, IsInt64}
use go_tron.Resource.Stake.{Float64}
use go_tron.State.{State, Account, Vote, get_account}
use go_tron.State.Property.{allow_change_delegation, current_cycle_number}
use go_tron.State.Delegation.{get_begin_cycle, get_end_cycle}
use go_tron.Actuator.Reward.{
  adjust_allowance, after_closed, closed_reward, compute_reward, just_closed, settle_votes,
  add_voted_reward, query_account_reward, query_reward, withdraw_account_reward, withdraw_reward,
}
use go_tron.Actuator.Funds.{IsKeyed}
use mathlib.Core.Path.{subst}
use go_tron.Actuator.Once.{is_settled, withdraw_account_reward-settled, withdraw_reward-on}
use go_tron.Actuator.Paid.{
  Paid, add64-zero, if-Paid, compute_reward-paid, settle_votes-Paid, add64_comm,
  add_voted_reward-shift, closed_sum, if-IsInt64,
}

and_false : (b : Bool) → b && false ≡ false
and_false true = refl
and_false false = refl

module _ (f : Float64) (addr : Bytes) (a : Account) (st : State) where
  -- The two rewards that a settlement computes.
  abbrev pub closed : ℤ
  closed =
      closed_reward f addr (get_begin_cycle addr st.delegation) (get_end_cycle addr st.delegation)
        st

  abbrev pub voted : ℤ
  voted =
      let current = current_cycle_number st in
      compute_reward f
        (after_closed f (get_begin_cycle addr st.delegation) (get_end_cycle addr st.delegation)
          current)
        current a.votes st

  -- The account's cursor, where the first settlement leaves it, and the first reward.
  abbrev next : ℤ
  next =
      after_closed f (get_begin_cycle addr st.delegation) (get_end_cycle addr st.delegation)
        (current_cycle_number st)

  abbrev is_closed : Bool
  is_closed =
      just_closed f (get_begin_cycle addr st.delegation) (get_end_cycle addr st.delegation)
        (current_cycle_number st)

  abbrev paid : State
  paid = if is_closed then adjust_allowance addr closed st else st

  query_ahead :
      ltb_ℤ (current_cycle_number st) (get_begin_cycle addr st.delegation) ≡ true
      → query_account_reward f addr a st ≡ a.allowance
  unfolding query_account_reward
  query_ahead h = rw h

  query_behind :
      ltb_ℤ (current_cycle_number st) (get_begin_cycle addr st.delegation) ≡ false
      → query_account_reward f addr a st
        ≡ add64
            (add_voted_reward f next
              (current_cycle_number st)
              a.votes
              st
              (if is_closed then closed else pos 0))
            a.allowance
  unfolding query_account_reward
  query_behind h = rw h

  withdraw_unsettled :
      is_settled f addr st ≡ false
      → withdraw_account_reward f addr a st
        ≡ settle_votes f addr next (current_cycle_number st) a.votes paid
  unfolding withdraw_account_reward
  withdraw_unsettled h = rw h

  -- With nothing behind the current cycle there is no reward.
  nothing_behind :
      (votes : List Vote) (begin end current : ℤ)
      → ltb_ℤ begin current ≡ false
      → add_voted_reward f
          (after_closed f begin end current)
          current
          votes
          st
          (if just_closed f begin end current then closed else pos 0)
        ≡ pos 0
  unfolding add_voted_reward
  nothing_behind [] begin end current h = rw (h, and_false)
  nothing_behind (v ∷ vs) begin end current h = rw (h, and_false, h)

  is_current :
      (begin current : ℤ) (b : Bool)
      → ltb_ℤ current begin ≡ false
      → ltb_ℤ current begin || (eqb_ℤ begin current && b) ≡ true
      → ltb_ℤ begin current ≡ false
  is_current begin current b h k = ground arith

  module _ (keyed : IsKeyed st.accounts) (found : get_account addr st ≡ some a)
      (fits : IsInt64 a.allowance) (closed_pos : pos 0 ≤ℤ closed) (voted_pos : pos 0 ≤ℤ voted) where
    start : Paid addr st a.allowance
    start = record { keyed = keyed; account = a; found = found; amount = refl }

    unsettled-Paid :
        ltb_ℤ (current_cycle_number st) (get_begin_cycle addr st.delegation) ≡ false
        → Paid addr
            (settle_votes f addr next (current_cycle_number st) a.votes paid)
            (query_account_reward f addr a st)
    unsettled-Paid h =
        let same =
          compute_reward-paid f is_closed addr next (current_cycle_number st) closed a.votes st in
        let begun = if is_closed then add64 a.allowance closed else a.allowance in
        let answer : add_voted_reward f next (current_cycle_number st) a.votes paid begun
            ≡ query_account_reward f addr a st =
          add_voted_reward-shift f next (current_cycle_number st) begun
            (if is_closed then closed else pos 0) a.allowance a.votes st paid same
            (closed_sum is_closed a.allowance closed fits)
          ∙ sym (query_behind h) in
        subst (Paid addr (settle_votes f addr next (current_cycle_number st) a.votes paid)) answer (
          settle_votes-Paid f addr next (current_cycle_number st) begun a.votes paid
            (if-IsInt64 is_closed a.allowance closed fits)
            (subst (λ r. pos 0 ≤ℤ r) (sym same) voted_pos)
            (if-Paid is_closed addr a.allowance closed st fits closed_pos start))

    withdraw_account_reward-Paid :
        Paid addr (withdraw_account_reward f addr a st) (query_account_reward f addr a st)
    withdraw_account_reward-Paid =
        let begin = get_begin_cycle addr st.delegation in
        let current = current_cycle_number st in
        elim (Bool-cases (ltb_ℤ current begin)) [
          | inl ahead ↦
              rw (query_ahead ahead, withdraw_account_reward-settled f addr a st (rw ahead)) start
          | inr behind ↦ elim (Bool-cases (is_settled f addr st)) [
            | inl done ↦
                let zero_reward =
                  nothing_behind a.votes begin (get_end_cycle addr st.delegation) current
                    (is_current begin current _ behind done) in
                rw
                  (
                    query_behind behind,
                    withdraw_account_reward-settled f addr a st done,
                    zero_reward,
                    add64_comm (pos 0) a.allowance,
                    add64-zero a.allowance fits,
                  )
                  start
            | inr open_cycle ↦ rw (withdraw_unsettled open_cycle) (unsettled-Paid behind)
          ]
        ]

    query_reward-on :
        not (allow_change_delegation st) ≡ false
        → query_reward f addr st ≡ query_account_reward f addr a st
    unfolding query_reward
    query_reward-on on =
        if_not _ _ _ on
        ∙ ap
            (λ (o : Option Account). elim o as (λ _. ℤ) [
              | none ↦ pos 0
              | some b ↦ query_account_reward f addr b st
            ])
            found

    -- What `queryReward` answers is the allowance that the settlement leaves: the pending rewards
    -- and the allowance before, whichever cycles are settled, and whether the account votes or not.
    -- It holds while rewards are on, of an account filed under its address, where neither of the
    -- two rewards that the settlement computes is negative.
    pub query_reward-withdraw_reward :
        not (allow_change_delegation st) ≡ false
        → (b : Account) × (get_account addr (withdraw_reward f addr st) ≡ some b)
          × (b.allowance ≡ query_reward f addr st)
    query_reward-withdraw_reward on =
        let p = withdraw_account_reward-Paid in
        (
          p.account,
          ap (get_account addr) (withdraw_reward-on f addr a st on found) ∙ p.found,
          p.amount ∙ sym (query_reward-on on),
        )
