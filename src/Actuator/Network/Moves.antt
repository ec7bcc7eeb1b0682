-- ===== src/Actuator/Network/Moves.antt =====
-- internal/actuator: a transfer, and resources lent and taken back, keep the weights of all accounts.
use go_tron.Prelude.{
  ℕ, ◌≡◌, refl, sym, ap, ◌∙◌, Bool, true, Option-cases, inl, inr, Option, none, some, ◌==◌, arith,
  if◌then◌else◌,
}
use go_tron.Prelude.Bytes.{Bytes, bytes_eq}
use go_tron.Prelude.Int.{ℤ, pos, ◌+ℤ◌}
use go_tron.Prelude.Int64.{add64, sub64, div64, wrap64, to_word, of_word, quot}
use go_tron.Prelude.Result.{ok}
use mathlib.Core.Path.{subst}
use go_tron.State.{State, Account, DelegatedResource, bandwidth, get_account, put_account}
use go_tron.Actuator.{trx_precision, account_or_new, execute_transfer, validate_transfer}
use go_tron.Actuator.Stake2.{
  weight_v2, frozen_v2_amount, sum_frozen_v2, delegated_out_v2, valid_v2_resource,
}
use go_tron.Actuator.Delegate.{
  validate_delegate, execute_delegate, validate_undelegate, execute_undelegate, record_delegation,
  lend, reclaim, add_acquired_delegated_v2, give_back, take_from_receiver, shrink_delegation,
  add_dr_balance,
}
use go_tron.Actuator.Funds.{IsKeyed, put_account-IsKeyed, get_account-address}
use go_tron.Actuator.Executes.{get_account-same}
use go_tron.Actuator.Transfers.{validate_transfer-ne, account_or_new-address, get_account-put_ne}
use go_tron.Actuator.Lends.{
  record_delegation-accounts, shrink_delegation-accounts, lend-address, reclaim-address,
  acquired-address, give_back-address, validate_delegate-ne, validate_delegate-receiver,
  validate_undelegate-entry, owner_after, take_from_receiver-none, take_from_receiver-some,
  get_v2-take_from_receiver,
}
use go_tron.Actuator.Weights.{
  total_weight, weight_of, weight_v2-lend, weight_v2-reclaim, weight_v2-add_acquired_delegated_v2,
  weight_v2-give_back, total_weight-put_same,
}
use go_tron.Actuator.Network.{Weighs, put_account-properties, same-Follows, put-total_weight}

nothing_lent : (q : ℕ) → (if q == bandwidth then pos 0 else pos 0) ≡ pos 0
nothing_lent q = ground arith

record_delegation-properties :
    (owner receiver : Bytes) (balance : ℤ) (code : ℕ) (st : State)
    → (record_delegation owner receiver balance code st).properties ≡ st.properties
unfolding record_delegation
record_delegation-properties owner receiver balance code st = refl

shrink_delegation-properties :
    (owner receiver : Bytes) (dr : DelegatedResource) (st : State)
    → (shrink_delegation owner receiver dr st).properties ≡ st.properties
unfolding shrink_delegation
shrink_delegation-properties owner receiver dr st = ground arith

take_from_receiver-properties :
    (receiver : Bytes) (balance : ℤ) (code : ℕ) (st : State)
    → (take_from_receiver receiver balance code st).properties ≡ st.properties
unfolding take_from_receiver put_account
take_from_receiver-properties receiver balance code st = ground arith

weight_v2-account_or_new :
    (q : ℕ) (addr : Bytes) (o : Option Account) (x : ℤ)
    → weight_v2 (record (account_or_new addr o) { balance = x }) q ≡ weight_of q o
unfolding weight_v2 frozen_v2_amount sum_frozen_v2 delegated_out_v2 div64 add64 wrap64 to_word
    of_word quot ◌+ℤ◌
weight_v2-account_or_new q addr none x =
    ap (λ z. div64 (add64 (pos 0) z) trx_precision) (nothing_lent q)
weight_v2-account_or_new q addr (some a) x = refl

pub execute_transfer-Weighs :
    (q : ℕ) (owner to : Bytes) (amount : ℤ) (st : State) (a : Account)
    → IsKeyed st.accounts
    → get_account owner st ≡ some a
    → validate_transfer owner to amount st ≡ ok tt
    → Weighs q st (execute_transfer owner to amount st)
unfolding execute_transfer put_account weight_v2 frozen_v2_amount delegated_out_v2
execute_transfer-Weighs q owner to amount st a keyed found h =
    let o = get_account to st in
    let r = account_or_new to o in
    let paid : Account = record a { balance = sub64 a.balance amount } in
    let credited : Account = record r { balance = add64 r.balance amount } in
    let middle = put_account paid st in
    let home : a.address ≡ owner = get_account-address owner a st keyed found in
    let away : r.address ≡ to = account_or_new-address to o st keyed refl in
    let apart : get_account to middle ≡ o =
      get_account-put_ne paid to st
        (ap (λ k. bytes_eq k to) home ∙ validate_transfer-ne owner to amount st h) in
    record {
      next = put_account credited middle;
      returns = rw found;
      follows = same-Follows q st (put_account credited middle) refl (
          total_weight-put_same q credited o middle (ap (λ k. get_account k middle) away ∙ apart)
            (weight_v2-account_or_new q to o (add64 r.balance amount))
          ∙ put-total_weight q owner a paid st st keyed found refl refl refl);
    }

pub execute_delegate-Weighs :
    (q : ℕ) (owner receiver : Bytes) (balance : ℤ) (code : ℕ) (lock : Bool) (st : State)
    (a : Account)
    → valid_v2_resource q ≡ true
    → valid_v2_resource code ≡ true
    → IsKeyed st.accounts
    → get_account owner st ≡ some a
    → validate_delegate owner receiver balance code lock st ≡ ok tt
    → Weighs q st (execute_delegate owner receiver balance code st)
unfolding execute_delegate put_account
execute_delegate-Weighs q owner receiver balance code lock st a hq hc keyed found h =
    let (rc, there) = validate_delegate-receiver owner receiver balance code lock st h in
    let ne = validate_delegate-ne owner receiver balance code lock st h in
    let gained = add_acquired_delegated_v2 code balance rc in
    let entered = record_delegation owner receiver balance code st in
    let same = record_delegation-accounts owner receiver balance code st in
    let middle = put_account gained entered in
    let away : gained.address ≡ receiver =
      acquired-address code balance rc ∙ get_account-address receiver rc st keyed there in
    let untouched : get_account owner middle ≡ some a =
      get_account-put_ne gained owner entered (ap (λ k. bytes_eq k owner) away ∙ ne)
      ∙ get_account-same owner st entered same
      ∙ found in
    let in_order : IsKeyed middle.accounts =
      put_account-IsKeyed gained entered (subst IsKeyed (sym same) keyed) in
    record {
      next = put_account (lend code balance a) middle;
      returns = rw (found, there);
      follows =
          same-Follows q st (put_account (lend code balance a) middle)
            (record_delegation-properties owner receiver balance code st)
            (put-total_weight q owner a (lend code balance a) middle middle in_order untouched refl
                (lend-address code balance a) (weight_v2-lend q code balance a hq hc)
              ∙ put-total_weight q receiver rc gained st entered keyed there same
                  (acquired-address code balance rc)
                  (weight_v2-add_acquired_delegated_v2 q code balance rc));
    }

-- What the receiver gives back is no part of a weight, the owner's included where it is both.
take_from_receiver-total_weight :
    (q : ℕ) (owner receiver : Bytes) (balance : ℤ) (code : ℕ) (st : State) (a : Account)
    → IsKeyed st.accounts
    → get_account owner st ≡ some a
    → IsKeyed (take_from_receiver receiver balance code st).accounts
      × (total_weight q (take_from_receiver receiver balance code st).accounts
          ≡ total_weight q st.accounts)
      × ((b : Account) × (get_account owner (take_from_receiver receiver balance code st) ≡ some b)
          × (weight_v2 b q ≡ weight_v2 a q)
          × (b.address ≡ a.address))
take_from_receiver-total_weight q owner receiver balance code st a keyed found =
    elim (Option-cases (get_account receiver st)) [
      | inl e ↦
          rw (take_from_receiver-none receiver balance code st e)
            (keyed, refl, (a, found, refl, refl))
      | inr (rc, e) ↦
          let gave = give_back code balance rc in
          let named = give_back-address code balance rc in
          let same = weight_v2-give_back q code balance rc in
          rw (take_from_receiver-some receiver balance code st rc e) (
            put_account-IsKeyed gave st keyed,
            put-total_weight q receiver rc gave st st keyed e refl named same,
            owner_after (λ b. weight_v2 b q) owner receiver gave rc st a found e named
                (get_account-address receiver rc st keyed e) same,
          )
    ]

pub execute_undelegate-Weighs :
    (q : ℕ) (owner receiver : Bytes) (balance : ℤ) (code : ℕ) (st : State) (a : Account)
    → valid_v2_resource q ≡ true
    → valid_v2_resource code ≡ true
    → IsKeyed st.accounts
    → get_account owner st ≡ some a
    → validate_undelegate owner receiver balance code st ≡ ok tt
    → Weighs q st (execute_undelegate owner receiver balance code st)
unfolding execute_undelegate
execute_undelegate-Weighs q owner receiver balance code st a hq hc keyed found h =
    let (dr, entry) = validate_undelegate-entry owner receiver balance code st h in
    let taken = take_from_receiver receiver balance code st in
    let (in_order, moved, (b, held, same, named)) =
      take_from_receiver-total_weight q owner receiver balance code st a keyed found in
    let less = add_dr_balance code (sub64 (pos 0) balance) dr in
    let shrunk = shrink_delegation owner receiver less taken in
    let back = reclaim code balance a in
    record {
      next = put_account back shrunk;
      returns =
          rw (found, get_v2-take_from_receiver owner receiver receiver balance code st ∙ entry);
      follows =
          same-Follows q st (put_account back shrunk)
            (put_account-properties back shrunk
              ∙ shrink_delegation-properties owner receiver less taken
              ∙ take_from_receiver-properties receiver balance code st)
            (put-total_weight q owner b back taken shrunk in_order held
                (shrink_delegation-accounts owner receiver less taken)
                (reclaim-address code balance a ∙ sym named)
                (weight_v2-reclaim q code balance a hq hc ∙ sym same)
              ∙ moved);
    }
