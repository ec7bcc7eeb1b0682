-- ===== src/Actuator/Transfers.antt =====
-- internal/actuator: a valid transfer, executed.
use go_tron.Prelude.{◌+◌, ◌≡◌, refl, ap, ◌∙◌, false, Option, none, some, arith}
use go_tron.Prelude.Bytes.{Bytes, bytes_eq}
use go_tron.Prelude.Int.{ℤ}
use go_tron.Prelude.Int64.{add64, sub64, to_word}
use go_tron.Prelude.Word64.{to_word-lt, to_word-add64, to_word-sub64}
use go_tron.Prelude.Result.{ok}
use go_tron.State.{State, Account, get_account, put_account}
use go_tron.Actuator.{account_or_new, validate_transfer, execute_transfer}
use go_tron.Actuator.Funds.{
  IsKeyed, funds, funds_of, total_funds-put_account, put_account-IsKeyed, get_account-address,
  get_account-put_account,
}
use go_tron.Actuator.Executes.{Conserves}

pub validate_transfer-ne :
    (owner to : Bytes) (amount : ℤ) (st : State)
    → validate_transfer owner to amount st ≡ ok tt
    → bytes_eq owner to ≡ false
unfolding validate_transfer
validate_transfer-ne owner to amount st h = ground arith

funds-balance :
    (x : ℤ) (a : Account)
    → funds (record a { balance = x }) + to_word a.balance ≡ funds a + to_word x
unfolding funds
funds-balance x a = omega arith

pub account_or_new-address :
    (addr : Bytes) (o : Option Account) (st : State)
    → IsKeyed st.accounts
    → get_account addr st ≡ o
    → (account_or_new addr o).address ≡ addr
account_or_new-address addr none st keyed e = refl
account_or_new-address addr (some a) st keyed e = get_account-address addr a st keyed e

funds-account_or_new :
    (addr : Bytes) (o : Option Account) → funds (account_or_new addr o) ≡ funds_of o
unfolding funds to_word
funds-account_or_new addr none = refl
funds-account_or_new addr (some a) = refl

pub get_account-put_ne :
    (a : Account) (k : Bytes) (st : State)
    → bytes_eq a.address k ≡ false
    → get_account k (put_account a st) ≡ get_account k st
get_account-put_ne a k st ne = get_account-put_account a k st ∙ rw ne

pub execute_transfer-Conserves :
    (owner to : Bytes) (amount : ℤ) (st : State) (a : Account)
    → IsKeyed st.accounts
    → get_account owner st ≡ some a
    → validate_transfer owner to amount st ≡ ok tt
    → Conserves st (execute_transfer owner to amount st)
unfolding execute_transfer
execute_transfer-Conserves owner to amount st a keyed found h =
    let o = get_account to st in
    let r = account_or_new to o in
    let paid : Account = record a { balance = sub64 a.balance amount } in
    let credited : Account = record r { balance = add64 r.balance amount } in
    let middle = put_account paid st in
    let home : a.address ≡ owner = get_account-address owner a st keyed found in
    let away : r.address ≡ to = account_or_new-address to o st keyed refl in
    let first : get_account paid.address st ≡ some a = ap (λ k. get_account k st) home ∙ found in
    let apart : get_account to middle ≡ o =
      get_account-put_ne paid to st
        (ap (λ k. bytes_eq k to) home ∙ validate_transfer-ne owner to amount st h) in
    let second : get_account credited.address middle ≡ o =
      ap (λ k. get_account k middle) away ∙ apart in
    record {
      next = put_account credited middle;
      returns = rw found;
      kept = (
        put_account-IsKeyed credited middle (put_account-IsKeyed paid st keyed),
        omega (
          arith,
          total_funds-put_account paid (some a) st first,
          total_funds-put_account credited o middle second,
          funds-account_or_new to o,
          funds-balance (sub64 a.balance amount) a,
          funds-balance (add64 r.balance amount) r,
          to_word-lt amount,
          to_word-lt a.balance,
          to_word-lt r.balance,
          to_word-sub64 a.balance amount,
          to_word-add64 r.balance amount,
        ),
      );
    }
