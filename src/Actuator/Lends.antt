-- ===== src/Actuator/Lends.antt =====
-- internal/actuator: lending a resource and taking it back, executed where they are valid.
use go_tron.Prelude.{
  ℕ, ◌%◌, ◌^◌, ◌≡◌, ◌≢◌, refl, sym, ap, ◌∙◌, Bool, false, Option-cases, Bool-cases, inl, inr,
  Option, none, some, arith,
}
use go_tron.Prelude.Bytes.{Bytes, bytes_eq, bytes_eq_iff}
use go_tron.Prelude.Int.{ℤ, pos}
use go_tron.Prelude.Int64.{sub64}
use go_tron.Prelude.Result.{ok}
use go_tron.State.{State, Account, DelegatedResource, get_account, put_account, get_v2}
use go_tron.Actuator.{account_or_new}
use go_tron.Actuator.Delegate.{
  validate_delegate, execute_delegate, validate_undelegate, execute_undelegate, record_delegation,
  lend, reclaim, add_acquired_delegated_v2, give_back, take_from_receiver, shrink_delegation,
  add_dr_balance,
}
use go_tron.Actuator.Funds.{IsKeyed, funds, get_account-address, get_account-put_account}
use go_tron.Actuator.Funds.Moves.{
  funds-lend, funds-reclaim, funds-add_acquired_delegated_v2, funds-give_back,
}
use go_tron.Actuator.Transfers.{get_account-put_ne}
use go_tron.Actuator.Executes.{Kept, Conserves, put-Kept, get_account-same}

pub record_delegation-accounts :
    (owner receiver : Bytes) (balance : ℤ) (code : ℕ) (st : State)
    → (record_delegation owner receiver balance code st).accounts ≡ st.accounts
unfolding record_delegation
record_delegation-accounts owner receiver balance code st = refl

pub shrink_delegation-accounts :
    (owner receiver : Bytes) (dr : DelegatedResource) (st : State)
    → (shrink_delegation owner receiver dr st).accounts ≡ st.accounts
unfolding shrink_delegation
shrink_delegation-accounts owner receiver dr st = ground arith

pub lend-address : (code : ℕ) (d : ℤ) (a : Account) → (lend code d a).address ≡ a.address
unfolding lend
lend-address code d a = ground arith

pub reclaim-address : (code : ℕ) (d : ℤ) (a : Account) → (reclaim code d a).address ≡ a.address
unfolding reclaim
reclaim-address code d a = ground arith

pub acquired-address :
    (code : ℕ) (d : ℤ) (a : Account) → (add_acquired_delegated_v2 code d a).address ≡ a.address
unfolding add_acquired_delegated_v2
acquired-address code d a = ground arith

pub give_back-address : (code : ℕ) (d : ℤ) (a : Account) → (give_back code d a).address ≡ a.address
unfolding give_back
give_back-address code d a = ground arith

pub validate_delegate-ne :
    (owner receiver : Bytes) (balance : ℤ) (code : ℕ) (lock : Bool) (st : State)
    → validate_delegate owner receiver balance code lock st ≡ ok tt
    → bytes_eq receiver owner ≡ false
unfolding validate_delegate
validate_delegate-ne owner receiver balance code lock st h = ground arith

validate_delegate-missing :
    (owner receiver : Bytes) (balance : ℤ) (code : ℕ) (lock : Bool) (st : State)
    → get_account receiver st ≡ none
    → validate_delegate owner receiver balance code lock st ≢ ok tt
unfolding validate_delegate
validate_delegate-missing owner receiver balance code lock st e h = ground arith

pub validate_delegate-receiver :
    (owner receiver : Bytes) (balance : ℤ) (code : ℕ) (lock : Bool) (st : State)
    → validate_delegate owner receiver balance code lock st ≡ ok tt
    → (rc : Account) × (get_account receiver st ≡ some rc)
validate_delegate-receiver owner receiver balance code lock st h =
    elim (Option-cases (get_account receiver st)) [
      | inl e ↦ absurd (validate_delegate-missing owner receiver balance code lock st e h)
      | inr there ↦ there
    ]

Kept-trans : (a b c : State) → Kept a b → Kept b c → Kept a c
Kept-trans a b c h k = (k.0, k.1 ∙ h.1)

pub execute_delegate-Conserves :
    (owner receiver : Bytes) (balance : ℤ) (code : ℕ) (lock : Bool) (st : State) (a : Account)
    → IsKeyed st.accounts
    → get_account owner st ≡ some a
    → validate_delegate owner receiver balance code lock st ≡ ok tt
    → Conserves st (execute_delegate owner receiver balance code st)
unfolding execute_delegate
execute_delegate-Conserves owner receiver balance code lock st a keyed found h =
    let (rc, there) = validate_delegate-receiver owner receiver balance code lock st h in
    let ne = validate_delegate-ne owner receiver balance code lock st h in
    let gained = add_acquired_delegated_v2 code balance rc in
    let entered = record_delegation owner receiver balance code st in
    let middle = put_account gained entered in
    let away : gained.address ≡ receiver =
      acquired-address code balance rc ∙ get_account-address receiver rc st keyed there in
    let untouched : get_account owner middle ≡ some a =
      get_account-put_ne gained owner entered (ap (λ k. bytes_eq k owner) away ∙ ne)
      ∙ get_account-same owner st entered
          (record_delegation-accounts owner receiver balance code st)
      ∙ found in
    let first : Kept st middle =
      put-Kept receiver rc gained st entered keyed there
        (record_delegation-accounts owner receiver balance code st)
        (acquired-address code balance rc)
        (ap (λ n. n % 2 ^ 64) (funds-add_acquired_delegated_v2 code balance rc)) in
    record {
      next = put_account (lend code balance a) middle;
      returns = rw (found, there);
      kept = Kept-trans st middle (put_account (lend code balance a) middle) first (
          put-Kept owner a (lend code balance a) middle middle first.0 untouched refl
            (lend-address code balance a) (funds-lend code balance a));
    }

validate_undelegate-missing :
    (owner receiver : Bytes) (balance : ℤ) (code : ℕ) (st : State)
    → get_v2 owner receiver false st ≡ none
    → validate_undelegate owner receiver balance code st ≢ ok tt
unfolding validate_undelegate
validate_undelegate-missing owner receiver balance code st e h = ground arith

pub validate_undelegate-entry :
    (owner receiver : Bytes) (balance : ℤ) (code : ℕ) (st : State)
    → validate_undelegate owner receiver balance code st ≡ ok tt
    → (dr : DelegatedResource) × (get_v2 owner receiver false st ≡ some dr)
validate_undelegate-entry owner receiver balance code st h =
    elim (Option-cases (get_v2 owner receiver false st)) [
      | inl e ↦ absurd (validate_undelegate-missing owner receiver balance code st e h)
      | inr there ↦ there
    ]

-- The owner's account behind the receiver's: it is another one, or it gave back itself. What is
-- measured of an account, giving back does not change.
pub owner_after :
    {A : Type 0} (g : Account → A) (owner receiver : Bytes) (gave rc : Account) (st : State)
    (a : Account)
    → get_account owner st ≡ some a
    → get_account receiver st ≡ some rc
    → gave.address ≡ rc.address
    → rc.address ≡ receiver
    → g gave ≡ g rc
    → (b : Account) × (get_account owner (put_account gave st) ≡ some b)
      × (g b ≡ g a)
      × (b.address ≡ a.address)
owner_after g owner receiver gave rc st a found there named home same =
    let lookup_after = get_account-put_account gave owner st in
    elim (Bool-cases (bytes_eq gave.address owner)) [
      | inl e ↦
          let at_owner : receiver ≡ owner =
            sym home ∙ sym named ∙ (bytes_eq_iff gave.address owner).0 e in
          let one : some rc ≡ some a = sym there ∙ ap (λ k. get_account k st) at_owner ∙ found in
          (
            gave,
            lookup_after ∙ rw e,
            same ∙ ap (λ o. g (account_or_new owner o)) one,
            named ∙ ap (λ o. (account_or_new owner o).address) one,
          )
      | inr e ↦ (a, lookup_after ∙ rw e found, refl, refl)
    ]

pub take_from_receiver-none :
    (receiver : Bytes) (balance : ℤ) (code : ℕ) (st : State)
    → get_account receiver st ≡ none
    → take_from_receiver receiver balance code st ≡ st
unfolding take_from_receiver
take_from_receiver-none receiver balance code st e = ground arith

pub take_from_receiver-some :
    (receiver : Bytes) (balance : ℤ) (code : ℕ) (st : State) (rc : Account)
    → get_account receiver st ≡ some rc
    → take_from_receiver receiver balance code st ≡ put_account (give_back code balance rc) st
unfolding take_from_receiver
take_from_receiver-some receiver balance code st rc e =
    ap
      (λ (o : Option Account). elim o as (λ _. State) [
        | none ↦ st
        | some c ↦ put_account (give_back code balance c) st
      ])
      e

-- What the receiver gives back is no part of the funds, the owner's included where it is both.
take_from_receiver-Kept :
    (owner receiver : Bytes) (balance : ℤ) (code : ℕ) (st : State) (a : Account)
    → IsKeyed st.accounts
    → get_account owner st ≡ some a
    → Kept st (take_from_receiver receiver balance code st)
      × ((b : Account) × (get_account owner (take_from_receiver receiver balance code st) ≡ some b)
          × (funds b ≡ funds a)
          × (b.address ≡ a.address))
take_from_receiver-Kept owner receiver balance code st a keyed found =
    elim (Option-cases (get_account receiver st)) [
      | inl e ↦
          rw (take_from_receiver-none receiver balance code st e)
            ((keyed, refl), (a, found, refl, refl))
      | inr (rc, e) ↦
          let gave = give_back code balance rc in
          let named = give_back-address code balance rc in
          let same = funds-give_back code balance rc in
          rw (take_from_receiver-some receiver balance code st rc e) (
            put-Kept receiver rc gave st st keyed e refl named (ap (λ n. n % 2 ^ 64) same),
            owner_after funds owner receiver gave rc st a found e named
                (get_account-address receiver rc st keyed e) same,
          )
    ]

pub get_v2-take_from_receiver :
    (owner receiver to : Bytes) (balance : ℤ) (code : ℕ) (st : State)
    → get_v2 owner receiver false (take_from_receiver to balance code st)
      ≡ get_v2 owner receiver false st
unfolding get_v2 take_from_receiver
get_v2-take_from_receiver owner receiver to balance code st = ground arith

pub execute_undelegate-Conserves :
    (owner receiver : Bytes) (balance : ℤ) (code : ℕ) (st : State) (a : Account)
    → IsKeyed st.accounts
    → get_account owner st ≡ some a
    → validate_undelegate owner receiver balance code st ≡ ok tt
    → Conserves st (execute_undelegate owner receiver balance code st)
unfolding execute_undelegate
execute_undelegate-Conserves owner receiver balance code st a keyed found h =
    let (dr, entry) = validate_undelegate-entry owner receiver balance code st h in
    let taken = take_from_receiver receiver balance code st in
    let (kept, (b, held, same, named)) =
      take_from_receiver-Kept owner receiver balance code st a keyed found in
    let less = add_dr_balance code (sub64 (pos 0) balance) dr in
    let shrunk = shrink_delegation owner receiver less taken in
    record {
      next = put_account (reclaim code balance a) shrunk;
      returns =
          rw (found, get_v2-take_from_receiver owner receiver receiver balance code st ∙ entry);
      kept = Kept-trans st taken (put_account (reclaim code balance a) shrunk) kept (
          put-Kept owner b (reclaim code balance a) taken shrunk kept.0 held
            (shrink_delegation-accounts owner receiver less taken)
            (reclaim-address code balance a ∙ sym named)
            (funds-reclaim code balance a ∙ ap (λ n. n % 2 ^ 64) (sym same)));
    }
