-- ===== src/Actuator/Once.antt =====
-- internal/actuator/reward.go: rewards are settled once a cycle.
use go_tron.Prelude.{
  ◌-◌, ◌^◌, ◌<◌, ◌≡◌, refl, sym, ◌∙◌, ap, Bool, true, false, not, if_not, Bool-cases, Option-cases,
  inl, inr, Option, none, some, List, [], ◌∷◌, arith, if◌then◌else◌, ◌||◌, ◌&&◌,
}
use go_tron.Prelude.Bytes.{Bytes, bytes_eq_instance}
use go_tron.Prelude.Int.{ℤ, pos, ltb_ℤ, eqb_ℤ, pos_part}
use go_tron.Prelude.Int64.{add64, add64_parts, IsInt64}
use go_tron.Prelude.Map.{Map, lookup, insert, lookup-insert}
use go_tron.Resource.Stake.{Float64}
use go_tron.State.{State, Account, Vote, Delegations, get_account}
use go_tron.State.Property.{allow_change_delegation, current_cycle_number}
use go_tron.State.Delegation.{
  get_begin_cycle, get_end_cycle, set_begin_cycle, set_end_cycle, set_account_vote,
  get_account_vote, cycle_key, or_default,
}
use go_tron.Actuator.Reward.{
  adjust_allowance, after_closed, close_cycle, closed_reward, compute_reward, just_closed,
  has_account_vote, settle_votes, withdraw_account_reward, withdraw_reward,
}
use go_tron.Actuator.Funds.{bytes_eq_refl}

-- The test behind which `WithdrawReward` does nothing.
abbrev pub is_settled : Float64 → Bytes → State → Bool
is_settled f addr st =
    let begin = get_begin_cycle addr st.delegation in
    let current = current_cycle_number st in
    ltb_ℤ current begin || (eqb_ℤ begin current && has_account_vote f begin addr st.delegation)

pub withdraw_account_reward-settled :
    (f : Float64) (addr : Bytes) (a : Account) (st : State)
    → is_settled f addr st ≡ true
    → withdraw_account_reward f addr a st ≡ st
unfolding withdraw_account_reward
withdraw_account_reward-settled f addr a st h = rw h

withdraw_reward-settled :
    (f : Float64) (addr : Bytes) (st : State)
    → is_settled f addr st ≡ true
    → withdraw_reward f addr st ≡ st
unfolding withdraw_reward
withdraw_reward-settled f addr st h = elim (Bool-cases (not (allow_change_delegation st))) [
  | inl off ↦ rw off
  | inr on ↦ elim (Option-cases (get_account addr st)) [
    | inl e ↦ rw (on, e)
    | inr (a, e) ↦ rw (on, e) (withdraw_account_reward-settled f addr a st h)
  ]
]

lookup_self : {V : Type 0} (k : Bytes) (v : V) (m : Map Bytes V) → lookup k (insert k v m) ≡ some v
lookup_self k v m = lookup-insert k k v m ∙ rw (bytes_eq_refl k)

begin-set :
    (addr : Bytes) (c : ℤ) (d : Delegations) → get_begin_cycle addr (set_begin_cycle addr c d) ≡ c
unfolding get_begin_cycle set_begin_cycle
begin-set addr c d = ap (or_default (pos 0)) (lookup_self addr c d.begin_cycles)

vote-set :
    (cycle : ℤ) (addr : Bytes) (votes : List Vote) (d : Delegations)
    → get_account_vote cycle addr (set_account_vote cycle addr votes d) ≡ some votes
unfolding get_account_vote set_account_vote
vote-set cycle addr votes d = lookup_self (cycle_key cycle addr) votes d.account_votes

-- The later writes of a closed cycle leave its first cursor alone.
begin_kept :
    (addr : Bytes) (cycle : ℤ) (votes : List Vote) (end : ℤ) (d : Delegations)
    → get_begin_cycle addr (set_account_vote cycle addr votes (set_end_cycle addr end d))
      ≡ get_begin_cycle addr d
unfolding get_begin_cycle set_account_vote set_end_cycle
begin_kept addr cycle votes end d = refl

later-is_settled :
    (f : Float64) (addr : Bytes) (begin current : ℤ) (st : State)
    → get_begin_cycle addr st.delegation ≡ begin
    → current_cycle_number st ≡ current
    → ltb_ℤ current begin ≡ true
    → is_settled f addr st ≡ true
later-is_settled f addr begin current st b c h = rw (b, c, h)

voted-is_settled :
    (f : Float64) (addr : Bytes) (current : ℤ) (votes : List Vote) (st : State)
    → get_begin_cycle addr st.delegation ≡ current
    → current_cycle_number st ≡ current
    → get_account_vote current addr st.delegation ≡ some votes
    → is_settled f addr st ≡ true
voted-is_settled f addr current votes st b c h = rw (b, c, h) (ground arith)

is_later : (c : ℤ) → IsInt64 c → pos_part c < 2 ^ 63 - 1 → ltb_ℤ c (add64 c (pos 1)) ≡ true
is_later c r h = ground (arith, add64_parts c (pos 1))

close_cycle-is_settled :
    (f : Float64) (addr : Bytes) (current : ℤ) (votes : List Vote) (st : State)
    → current_cycle_number st ≡ current
    → is_settled f addr (close_cycle addr current votes st) ≡ true
unfolding close_cycle current_cycle_number
close_cycle-is_settled f addr current votes st e =
    let begun = set_begin_cycle addr current st.delegation in
    let ended = set_end_cycle addr (add64 current (pos 1)) begun in
    voted-is_settled f addr current votes (close_cycle addr current votes st)
      (begin_kept addr current votes (add64 current (pos 1)) begun
        ∙ begin-set addr current st.delegation)
      e (vote-set current addr votes ended)

current_cycle_number-delegation :
    (st : State) (d : Delegations)
    → current_cycle_number (record st { delegation = d }) ≡ current_cycle_number st
unfolding current_cycle_number
current_cycle_number-delegation st d = refl

current_cycle_number-adjust_allowance :
    (addr : Bytes) (x : ℤ) (st : State)
    → current_cycle_number (adjust_allowance addr x st) ≡ current_cycle_number st
unfolding current_cycle_number adjust_allowance
current_cycle_number-adjust_allowance addr x st = ground arith

pub current_cycle_number-paid :
    (b : Bool) (addr : Bytes) (x : ℤ) (st : State)
    → current_cycle_number (if b then adjust_allowance addr x st else st) ≡ current_cycle_number st
current_cycle_number-paid true addr x st = current_cycle_number-adjust_allowance addr x st
current_cycle_number-paid false addr x st = refl

settle_votes-is_settled :
    (f : Float64) (addr : Bytes) (begin current : ℤ) (votes : List Vote) (st : State)
    → IsInt64 current
    → pos_part current < 2 ^ 63 - 1
    → current_cycle_number st ≡ current
    → is_settled f addr (settle_votes f addr begin current votes st) ≡ true
unfolding settle_votes
settle_votes-is_settled f addr begin current [] st r h e =
    later-is_settled f addr (add64 current (pos 1)) current
      (record st { delegation = set_begin_cycle addr (add64 current (pos 1)) st.delegation })
      (begin-set addr (add64 current (pos 1)) st.delegation)
      (current_cycle_number-delegation st
          (set_begin_cycle addr (add64 current (pos 1)) st.delegation)
        ∙ e)
      (is_later current r h)
settle_votes-is_settled f addr begin current (v ∷ vs) st r h e =
    close_cycle-is_settled f addr current (v ∷ vs) _ (
      current_cycle_number-paid (ltb_ℤ begin current) addr
        (compute_reward f begin current (v ∷ vs) st) st
      ∙ e)

withdraw_account_reward-once :
    (f : Float64) (addr : Bytes) (a : Account) (st : State)
    → IsInt64 (current_cycle_number st)
    → pos_part (current_cycle_number st) < 2 ^ 63 - 1
    → is_settled f addr (withdraw_account_reward f addr a st) ≡ true
unfolding withdraw_account_reward
withdraw_account_reward-once f addr a st r h =
    let begin = get_begin_cycle addr st.delegation in
    let end = get_end_cycle addr st.delegation in
    let current = current_cycle_number st in
    let reward = closed_reward f addr begin end st in
    elim (Bool-cases (is_settled f addr st)) [
      | inl e ↦ rw e e
      | inr e ↦ rw e (
          settle_votes-is_settled f addr (after_closed f begin end current) current a.votes
            (if just_closed f begin end current then adjust_allowance addr reward st else st) r h
            (current_cycle_number-paid (just_closed f begin end current) addr reward st))
    ]

withdraw_reward-none :
    (f : Float64) (addr : Bytes) (st : State)
    → get_account addr st ≡ none
    → withdraw_reward f addr st ≡ st
unfolding withdraw_reward
withdraw_reward-none f addr st e = elim (Bool-cases (not (allow_change_delegation st))) [
  | inl off ↦ rw off
  | inr on ↦ rw (on, e)
]

pub withdraw_reward-off :
    (f : Float64) (addr : Bytes) (st : State)
    → not (allow_change_delegation st) ≡ true
    → withdraw_reward f addr st ≡ st
unfolding withdraw_reward
withdraw_reward-off f addr st off = rw off

pub withdraw_reward-on :
    (f : Float64) (addr : Bytes) (a : Account) (st : State)
    → not (allow_change_delegation st) ≡ false
    → get_account addr st ≡ some a
    → withdraw_reward f addr st ≡ withdraw_account_reward f addr a st
unfolding withdraw_reward
withdraw_reward-on f addr a st on e =
    if_not _ _ _ on
    ∙ ap
        (λ (o : Option Account). elim o as (λ _. State) [
          | none ↦ st
          | some b ↦ withdraw_account_reward f addr b st
        ])
        e

-- Settling twice is settling once: the rewards of a cycle are paid to an account at most once,
-- however many contracts of it begin with their settlement. It holds of every state and account,
-- below the largest cycle number.
pub withdraw_reward-withdraw_reward :
    (f : Float64) (addr : Bytes) (st : State)
    → IsInt64 (current_cycle_number st)
    → pos_part (current_cycle_number st) < 2 ^ 63 - 1
    → withdraw_reward f addr (withdraw_reward f addr st) ≡ withdraw_reward f addr st
withdraw_reward-withdraw_reward f addr st r h =
    let again = withdraw_reward f addr in
    elim (Bool-cases (not (allow_change_delegation st))) [
      | inl off ↦ ap again (withdraw_reward-off f addr st off)
      | inr on ↦ elim (Option-cases (get_account addr st)) [
        | inl e ↦ ap again (withdraw_reward-none f addr st e)
        | inr (a, e) ↦
            let once = withdraw_reward-on f addr a st on e in
            ap again once
            ∙ withdraw_reward-settled f addr (withdraw_account_reward f addr a st)
                (withdraw_account_reward-once f addr a st r h)
            ∙ sym once
      ]
    ]
