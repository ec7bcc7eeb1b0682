-- ===== src/Actuator/Settlement.antt =====
-- internal/actuator/reward.go: what a settlement of rewards changes of the accounts is the allowance
-- of its account.
use go_tron.Prelude.{
  ℕ, ◌+◌, ◌≡◌, refl, ap, ◌∙◌, Bool, true, false, Bool-cases, inl, inr, Option, none, some, List, [],
  ◌∷◌, not, arith, if◌then◌else◌,
}
use go_tron.Prelude.Bytes.{Bytes, bytes_eq}
use go_tron.Prelude.Int.{ℤ, ltb_ℤ, leb_ℤ, pos}
use go_tron.Prelude.Int64.{to_word, add64}
use go_tron.Resource.Stake.{Float64}
use go_tron.State.{State, Account, Vote, Delegations, get_account, put_account}
use go_tron.State.Property.{allow_change_delegation, current_cycle_number}
use go_tron.State.Delegation.{get_begin_cycle, get_end_cycle}
use go_tron.Actuator.Stake2.{weight_v2, frozen_v2_amount, delegated_out_v2}
use go_tron.Actuator.Reward.{
  adjust_allowance, after_closed, closed_reward, compute_reward, just_closed, settle_votes,
  close_cycle, withdraw_account_reward, withdraw_reward,
}
use go_tron.Actuator.Funds.{
  IsKeyed, funds, total_funds, total_funds-put_account, get_account-address,
  get_account-put_account, bytes_eq_refl,
}
use go_tron.Actuator.Settled.{Holds, if-Holds, adjust_allowance-Holds}
use go_tron.Actuator.Weights.{total_weight, total_weight-put_same}

abbrev pub allowance_of : Option Account → ℕ
allowance_of none = 0
allowance_of (some a) = to_word a.allowance

-- The funds of all accounts grow by what the account's allowance grows by; no weight and no
-- property changes.
pub record Pays (addr : Bytes) (st next : State) : Type 0 where
  pub properties : next.properties ≡ st.properties
  pub weights : (q : ℕ) → total_weight q next.accounts ≡ total_weight q st.accounts
  pub total :
      total_funds next.accounts + allowance_of (get_account addr st)
      ≡ total_funds st.accounts + allowance_of (get_account addr next)

pub Pays-refl : (addr : Bytes) (st : State) → Pays addr st st
Pays-refl addr st = record { properties = refl; weights = λ q. refl; total = refl }

Pays-trans : (addr : Bytes) (a b c : State) → Pays addr a b → Pays addr b c → Pays addr a c
Pays-trans addr a b c h k = record {
  properties = k.properties ∙ h.properties;
  weights = λ q. k.weights q ∙ h.weights q;
  total = omega (arith, h.total, k.total);
}

delegation-Pays :
    (addr : Bytes) (st : State) (d : Delegations) → Pays addr st (record st { delegation = d })
unfolding get_account
delegation-Pays addr st d = record { properties = refl; weights = λ q. refl; total = refl }

if-Pays :
    (addr : Bytes) (b : Bool) (st x y : State)
    → Pays addr st x
    → Pays addr st y
    → Pays addr st (if b then x else y)
if-Pays addr true st x y h k = h
if-Pays addr false st x y h k = k

funds-allowance :
    (x : ℤ) (a : Account)
    → funds (record a { allowance = x }) + to_word a.allowance ≡ funds a + to_word x
unfolding funds
funds-allowance x a = omega arith

allowance-Pays :
    (addr : Bytes) (x : ℤ) (a : Account) (st : State)
    → IsKeyed st.accounts
    → get_account addr st ≡ some a
    → Pays addr st (put_account (record a { allowance = x }) st)
unfolding put_account weight_v2 frozen_v2_amount delegated_out_v2
allowance-Pays addr x a st keyed found =
    let b : Account = record a { allowance = x } in
    let home : a.address ≡ addr = get_account-address addr a st keyed found in
    let there : get_account b.address st ≡ some a = ap (λ k. get_account k st) home ∙ found in
    let now : get_account addr (put_account b st) ≡ some b =
      get_account-put_account b addr st ∙ rw (ap (λ k. bytes_eq k addr) home, bytes_eq_refl addr) in
    record {
      properties = refl;
      weights = λ q. total_weight-put_same q b (some a) st there refl;
      total = omega (
        arith,
        total_funds-put_account b (some a) st there,
        funds-allowance x a,
        ap allowance_of found,
        ap allowance_of now,
      );
    }

adjust_allowance-Pays :
    (addr : Bytes) (amount : ℤ) (st : State)
    → Holds addr st
    → Pays addr st (adjust_allowance addr amount st)
unfolding adjust_allowance
adjust_allowance-Pays addr amount st h = elim (Bool-cases (leb_ℤ amount (pos 0))) [
  | inl none_due ↦ rw (adjust_allowance, none_due) (Pays-refl addr st)
  | inr due ↦
      rw (adjust_allowance, due, h.found)
        (allowance-Pays addr (add64 h.account.allowance amount) h.account st h.keyed h.found)
]

close_cycle-Pays :
    (addr : Bytes) (current : ℤ) (votes : List Vote) (st next : State)
    → Pays addr st next
    → Pays addr st (close_cycle addr current votes next)
unfolding close_cycle
close_cycle-Pays addr current votes st next h =
    Pays-trans addr st next _ h (delegation-Pays addr next _)

settle_votes-Pays :
    (f : Float64) (addr : Bytes) (begin current : ℤ) (votes : List Vote) (st : State)
    → Holds addr st
    → Pays addr st (settle_votes f addr begin current votes st)
unfolding settle_votes
settle_votes-Pays f addr begin current [] st h = delegation-Pays addr st _
settle_votes-Pays f addr begin current (v ∷ vs) st h = close_cycle-Pays addr current (v ∷ vs) st _ (
    if-Pays addr (ltb_ℤ begin current) st _ _
      (adjust_allowance-Pays addr (compute_reward f begin current (v ∷ vs) st) st h)
      (Pays-refl addr st))

withdraw_account_reward-Pays :
    (f : Float64) (addr : Bytes) (a : Account) (st : State)
    → Holds addr st
    → Pays addr st (withdraw_account_reward f addr a st)
unfolding withdraw_account_reward
withdraw_account_reward-Pays f addr a st h =
    let begin = get_begin_cycle addr st.delegation in
    let end = get_end_cycle addr st.delegation in
    let current = current_cycle_number st in
    let due = closed_reward f addr begin end st in
    let just = just_closed f begin end current in
    let from = after_closed f begin end current in
    let paid : State = if just then adjust_allowance addr due st else st in
    let held : Holds addr paid = if-Holds addr just _ _ (adjust_allowance-Holds addr due st h) h in
    let earned : Pays addr st paid =
      if-Pays addr just st _ _ (adjust_allowance-Pays addr due st h) (Pays-refl addr st) in
    if-Pays addr _ st st (settle_votes f addr from current a.votes paid) (Pays-refl addr st)
      (Pays-trans addr st paid _ earned (settle_votes-Pays f addr from current a.votes paid held))

pub withdraw_reward-Pays :
    (f : Float64) (addr : Bytes) (st : State)
    → Holds addr st
    → Pays addr st (withdraw_reward f addr st)
unfolding withdraw_reward
withdraw_reward-Pays f addr st h = elim (Bool-cases (not (allow_change_delegation st))) [
  | inl off ↦ rw off (Pays-refl addr st)
  | inr on ↦ rw (on, h.found) (withdraw_account_reward-Pays f addr h.account st h)
]
