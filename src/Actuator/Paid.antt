-- ===== src/Actuator/Paid.antt =====
-- internal/actuator/reward.go: the allowance of an account along a settlement.
use go_tron.Prelude.{
  ◌≡◌, refl, sym, ◌∙◌, ap, Bool, true, false, Bool-cases, inl, inr, some, List, [], ◌∷◌, arith,
  if◌then◌else◌,
}
use go_tron.Prelude.Bytes.{Bytes, bytes_eq}
use go_tron.Prelude.Int.{ℤ, pos, ltb_ℤ, leb_ℤ, ◌≤ℤ◌}
use go_tron.Prelude.Int64.{add64, IsInt64, wrap64-IsInt64}
use go_tron.Prelude.Word64.{to_word-add64, to_word-zero, to_word-injective, to_word-lt}
use go_tron.Resource.Stake.{Float64}
use go_tron.State.{State, Account, Vote, get_account, put_account}
use go_tron.Actuator.Reward.{
  adjust_allowance, close_cycle, compute_reward, settle_votes, add_voted_reward,
}
use go_tron.Actuator.Funds.{
  IsKeyed, put_account-IsKeyed, get_account-put_account, get_account-address, bytes_eq_refl,
}

add64-IsInt64 : (a b : ℤ) → IsInt64 (add64 a b)
unfolding add64
add64-IsInt64 a b = wrap64-IsInt64 _

pub add64-zero : (a : ℤ) → IsInt64 a → add64 a (pos 0) ≡ a
add64-zero a r =
    to_word-injective (add64 a (pos 0)) a (add64-IsInt64 a (pos 0)) r
      (omega (arith, to_word-add64 a (pos 0), to_word-zero, to_word-lt a))

-- The account at the address has this allowance.
pub record Paid (addr : Bytes) (st : State) (x : ℤ) : Type 0 where
  pub keyed : IsKeyed st.accounts
  pub account : Account
  pub found : get_account addr st ≡ some account
  pub amount : account.allowance ≡ x

credited :
    (addr : Bytes) (x r : ℤ) (st : State) (p : Paid addr st x)
    → Paid addr
        (put_account (record p.account { allowance = add64 p.account.allowance r }) st)
        (add64 x r)
credited addr x r st p =
    let b : Account = record p.account { allowance = add64 p.account.allowance r } in
    record {
      keyed = put_account-IsKeyed b st p.keyed;
      account = b;
      found =
          get_account-put_account b addr st
          ∙ rw (
            ap (λ k. bytes_eq k addr) (get_account-address addr p.account st p.keyed p.found),
            bytes_eq_refl addr,
          );
      amount = ap (λ y. add64 y r) p.amount;
    }

adjust_allowance-Paid :
    (addr : Bytes) (x r : ℤ) (st : State)
    → IsInt64 x
    → pos 0 ≤ℤ r
    → Paid addr st x
    → Paid addr (adjust_allowance addr r st) (add64 x r)
unfolding adjust_allowance
adjust_allowance-Paid addr x r st i h p = elim (Bool-cases (leb_ℤ r (pos 0))) [
  | inl nothing ↦
      let zero_reward : r ≡ pos 0 = ground arith in
      rw nothing (record {
        keyed = p.keyed;
        account = p.account;
        found = p.found;
        amount = p.amount ∙ sym (add64-zero x i) ∙ ap (add64 x) (sym zero_reward);
      })
  | inr positive ↦ rw (positive, p.found) (credited addr x r st p)
]

-- A condition decides whether a reward is added.
pub if-Paid :
    (c : Bool) (addr : Bytes) (x r : ℤ) (st : State)
    → IsInt64 x
    → pos 0 ≤ℤ r
    → Paid addr st x
    → Paid addr (if c then adjust_allowance addr r st else st) (if c then add64 x r else x)
if-Paid true addr x r st i h p = adjust_allowance-Paid addr x r st i h p
if-Paid false addr x r st i h p = p

close_cycle-Paid :
    (addr : Bytes) (current : ℤ) (votes : List Vote) (x : ℤ) (st : State)
    → Paid addr st x
    → Paid addr (close_cycle addr current votes st) x
unfolding close_cycle get_account
close_cycle-Paid addr current votes x st p = record {
  keyed = p.keyed;
  account = p.account;
  found = p.found;
  amount = p.amount;
}

compute_reward-put_account :
    (f : Float64) (begin end : ℤ) (votes : List Vote) (a : Account) (st : State)
    → compute_reward f begin end votes (put_account a st) ≡ compute_reward f begin end votes st
unfolding compute_reward put_account
compute_reward-put_account f begin end votes a st = refl

compute_reward-adjust_allowance :
    (f : Float64) (addr : Bytes) (begin end r : ℤ) (votes : List Vote) (st : State)
    → compute_reward f begin end votes (adjust_allowance addr r st)
      ≡ compute_reward f begin end votes st
unfolding adjust_allowance
compute_reward-adjust_allowance f addr begin end r votes st = elim (Bool-cases (leb_ℤ r (pos 0))) [
  | inl nothing ↦ rw nothing
  | inr positive ↦ rw positive (compute_reward-put_account f begin end votes _ st)
]

pub compute_reward-paid :
    (f : Float64) (c : Bool) (addr : Bytes) (begin end r : ℤ) (votes : List Vote) (st : State)
    → compute_reward f begin end votes (if c then adjust_allowance addr r st else st)
      ≡ compute_reward f begin end votes st
compute_reward-paid f true addr begin end r votes st =
    compute_reward-adjust_allowance f addr begin end r votes st
compute_reward-paid f false addr begin end r votes st = refl

pub settle_votes-Paid :
    (f : Float64) (addr : Bytes) (begin current x : ℤ) (votes : List Vote) (st : State)
    → IsInt64 x
    → pos 0 ≤ℤ compute_reward f begin current votes st
    → Paid addr st x
    → Paid addr
        (settle_votes f addr begin current votes st)
        (add_voted_reward f begin current votes st x)
unfolding settle_votes add_voted_reward
settle_votes-Paid f addr begin current x [] st i h p = record {
  keyed = p.keyed;
  account = p.account;
  found = p.found;
  amount = p.amount;
}
settle_votes-Paid f addr begin current x (v ∷ vs) st i h p =
    close_cycle-Paid addr current (v ∷ vs) _ _
      (if-Paid (ltb_ℤ begin current) addr x (compute_reward f begin current (v ∷ vs) st) st i h p)

add64-swap : (a b c : ℤ) → add64 (add64 a b) c ≡ add64 (add64 a c) b
add64-swap a b c =
    to_word-injective _ _ (add64-IsInt64 (add64 a b) c) (add64-IsInt64 (add64 a c) b) (
      omega (
        arith,
        to_word-add64 (add64 a b) c,
        to_word-add64 a b,
        to_word-add64 (add64 a c) b,
        to_word-add64 a c,
      ))

pub add64_comm : (a b : ℤ) → add64 a b ≡ add64 b a
add64_comm a b =
    to_word-injective _ _ (add64-IsInt64 a b) (add64-IsInt64 b a)
      (omega (arith, to_word-add64 a b, to_word-add64 b a))

-- The allowance may be added before the rewards or behind them.
pub add_voted_reward-shift :
    (f : Float64) (begin current x y z : ℤ) (votes : List Vote) (st next : State)
    → compute_reward f begin current votes next ≡ compute_reward f begin current votes st
    → x ≡ add64 y z
    → add_voted_reward f begin current votes next x
      ≡ add64 (add_voted_reward f begin current votes st y) z
unfolding add_voted_reward
add_voted_reward-shift f begin current x y z [] st next e h = h
add_voted_reward-shift f begin current x y z (v ∷ vs) st next e h =
    elim (Bool-cases (ltb_ℤ begin current)) [
      | inl c ↦ rw (c, e, h) (add64-swap y z (compute_reward f begin current (v ∷ vs) st))
      | inr c ↦ rw c h
    ]

-- The first of the two rewards: beside the allowance, and alone.
pub closed_sum :
    (c : Bool) (x r : ℤ)
    → IsInt64 x
    → (if c then add64 x r else x) ≡ add64 (if c then r else pos 0) x
closed_sum true x r i = add64_comm x r
closed_sum false x r i = sym (add64-zero x i) ∙ add64_comm x (pos 0)

pub if-IsInt64 : (c : Bool) (x r : ℤ) → IsInt64 x → IsInt64 (if c then add64 x r else x)
if-IsInt64 true x r i = add64-IsInt64 x r
if-IsInt64 false x r i = i
