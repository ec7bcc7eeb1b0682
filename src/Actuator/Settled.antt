-- ===== src/Actuator/Settled.antt =====
-- internal/actuator/reward.go: settling rewards keeps the accounts in order.
use go_tron.Prelude.{
  ◌≡◌, ◌∙◌, ap, Bool, true, false, Bool-cases, inl, inr, some, List, [], ◌∷◌, not, if◌then◌else◌,
}
use go_tron.Prelude.Bytes.{Bytes, bytes_eq}
use go_tron.Prelude.Int.{ℤ, ltb_ℤ}
use go_tron.Resource.Stake.{Float64}
use go_tron.State.{State, Account, Vote, Delegations, get_account, put_account}
use go_tron.State.Property.{allow_change_delegation, current_cycle_number}
use go_tron.State.Delegation.{get_begin_cycle, get_end_cycle}
use go_tron.Actuator.{account_or_new}
use go_tron.Actuator.Reward.{
  adjust_allowance, after_closed, closed_reward, compute_reward, just_closed, settle_votes,
  close_cycle, withdraw_account_reward, withdraw_reward,
}
use go_tron.Actuator.Funds.{
  IsKeyed, put_account-IsKeyed, get_account-put_account, get_account-address, bytes_eq_refl,
}

-- The accounts are filed under their addresses, and this one is there.
pub record Holds (addr : Bytes) (st : State) : Type 0 where
  pub keyed : IsKeyed st.accounts
  pub account : Account
  pub found : get_account addr st ≡ some account

pub put_account-Holds :
    (addr : Bytes) (a : Account) (st : State)
    → IsKeyed st.accounts
    → a.address ≡ addr
    → Holds addr (put_account a st)
put_account-Holds addr a st h e = record {
  keyed = put_account-IsKeyed a st h;
  account = a;
  found = get_account-put_account a addr st ∙ rw (ap (λ k. bytes_eq k addr) e, bytes_eq_refl addr);
}

pub if-Holds :
    (addr : Bytes) (b : Bool) (x y : State)
    → Holds addr x
    → Holds addr y
    → Holds addr (if b then x else y)
if-Holds addr true x y h k = h
if-Holds addr false x y h k = k

delegation-Holds :
    (addr : Bytes) (st : State) (d : Delegations)
    → Holds addr st
    → Holds addr (record st { delegation = d })
unfolding get_account
delegation-Holds addr st d h = record { keyed = h.keyed; account = h.account; found = h.found }

paid-address :
    (addr : Bytes) (st : State)
    → Holds addr st
    → (account_or_new addr (get_account addr st)).address ≡ addr
paid-address addr st h =
    ap (λ o. (account_or_new addr o).address) h.found
    ∙ get_account-address addr h.account st h.keyed h.found

close_cycle-Holds :
    (addr owner : Bytes) (current : ℤ) (votes : List Vote) (st : State)
    → Holds owner st
    → Holds owner (close_cycle addr current votes st)
unfolding close_cycle
close_cycle-Holds addr owner current votes st h = delegation-Holds owner st _ h

pub adjust_allowance-Holds :
    (addr : Bytes) (amount : ℤ) (st : State)
    → Holds addr st
    → Holds addr (adjust_allowance addr amount st)
unfolding adjust_allowance
adjust_allowance-Holds addr amount st h =
    if-Holds addr _ _ _ h (put_account-Holds addr _ st h.keyed (paid-address addr st h))

settle_votes-Holds :
    (f : Float64) (addr : Bytes) (begin current : ℤ) (votes : List Vote) (st : State)
    → Holds addr st
    → Holds addr (settle_votes f addr begin current votes st)
unfolding settle_votes
settle_votes-Holds f addr begin current [] st h = delegation-Holds addr st _ h
settle_votes-Holds f addr begin current (v ∷ vs) st h =
    let reward = compute_reward f begin current (v ∷ vs) st in
    close_cycle-Holds addr addr current (v ∷ vs)
      (if ltb_ℤ begin current then adjust_allowance addr reward st else st)
      (if-Holds addr _ _ _ (adjust_allowance-Holds addr reward st h) h)

withdraw_account_reward-Holds :
    (f : Float64) (addr : Bytes) (a : Account) (st : State)
    → Holds addr st
    → Holds addr (withdraw_account_reward f addr a st)
unfolding withdraw_account_reward
withdraw_account_reward-Holds f addr a st h =
    let begin = get_begin_cycle addr st.delegation in
    let end = get_end_cycle addr st.delegation in
    let current = current_cycle_number st in
    let paid : State =
      if just_closed f begin end current
      then adjust_allowance addr (closed_reward f addr begin end st) st
      else st in
    if-Holds addr _ _ _ h (
      settle_votes-Holds f addr (after_closed f begin end current) current a.votes paid (
        if-Holds addr _ _ _ (adjust_allowance-Holds addr (closed_reward f addr begin end st) st h)
          h))

pub withdraw_reward-Holds :
    (f : Float64) (addr : Bytes) (st : State)
    → Holds addr st
    → Holds addr (withdraw_reward f addr st)
unfolding withdraw_reward
withdraw_reward-Holds f addr st h = elim (Bool-cases (not (allow_change_delegation st))) [
  | inl off ↦ rw off h
  | inr on ↦ rw (on, h.found) (withdraw_account_reward-Holds f addr h.account st h)
]
