-- ===== src/Actuator/Funds.antt =====
-- internal/actuator: what the accounts own together, in sun, and how a store of one account moves
-- it. Amounts are counted by their 64-bit patterns, so sums are read modulo 2^64.
pub mod Moves
use go_tron.Prelude.{
  ℕ, ◌+◌, ◌-◌, ◌%◌, ◌^◌, ◌≡◌, refl, sym, ap, ◌∙◌, Option, none, some, true, List, [], ◌∷◌, ◌++◌,
  arith, if◌then◌else◌,
}
use go_tron.Prelude.Bytes.{Bytes, bytes_eq, bytes_eq_iff, bytes_eq_instance}
use go_tron.Prelude.Int64.{to_word}
use go_tron.Prelude.Map.{Map, lookup, insert, lookup-insert}
use go_tron.State.{State, Account, FreezeV2, UnfreezeV2, get_account, put_account}

abbrev pub frozen_funds : List FreezeV2 → ℕ
frozen_funds [] = 0
frozen_funds (f ∷ fs) = to_word f.amount + frozen_funds fs

abbrev pub unfrozen_funds : List UnfreezeV2 → ℕ
unfrozen_funds [] = 0
unfrozen_funds (u ∷ us) = to_word u.unfreeze_amount + unfrozen_funds us

-- The balance, the allowance, and what is frozen, unfreezing or lent under Stake 2.0.
unfoldable pub funds : Account → ℕ
funds a =
    to_word a.balance
    + to_word a.allowance
    + frozen_funds a.frozen_v2
    + unfrozen_funds a.unfrozen_v2
    + to_word a.delegated_frozen_v2_balance_for_bandwidth
    + to_word a.account_resource.delegated_frozen_v2_balance_for_energy

unfoldable pub total_funds : Map Bytes Account → ℕ
unfolding funds
total_funds [] = 0
total_funds ((k, a) ∷ m) = funds a + total_funds m

-- Every account stands under its own address, once.
abbrev pub IsKeyed : Map Bytes Account → Type 0
IsKeyed [] = Unit
IsKeyed ((k, a) ∷ m) = (a.address ≡ k) × (lookup k m ≡ none) × IsKeyed m

pub bytes_eq_refl : (b : Bytes) → bytes_eq b b ≡ true
bytes_eq_refl b = (bytes_eq_iff b b).1 refl

pub lookup-address :
    (k : Bytes) (a : Account) (m : Map Bytes Account)
    → IsKeyed m
    → lookup k m ≡ some a
    → a.address ≡ k
unfolding lookup
lookup-address k a [] h e = cc
lookup-address k a ((j, b) ∷ m) h e = ground (arith, bytes_eq_iff j k, lookup-address k a m h.2)

pub insert-IsKeyed :
    (a : Account) (m : Map Bytes Account) → IsKeyed m → IsKeyed (insert a.address a m)
unfolding lookup insert
insert-IsKeyed a [] h = (refl, refl, tt)
insert-IsKeyed a ((j, b) ∷ m) h = ground (
  arith,
  bytes_eq_iff j a.address,
  bytes_eq_iff a.address j,
  insert-IsKeyed a m h.2,
  lookup-insert a.address j a m,
)

total_funds-insert :
    (k : Bytes) (a b : Account) (m : Map Bytes Account)
    → lookup k m ≡ some b
    → total_funds (insert k a m) + funds b ≡ total_funds m + funds a
unfolding total_funds lookup insert
total_funds-insert k a b [] e = cc
total_funds-insert k a b ((j, c) ∷ m) e =
    ground (arith, bytes_eq_iff j k, total_funds-insert k a b m)

total_funds-insert_new :
    (k : Bytes) (a : Account) (m : Map Bytes Account)
    → lookup k m ≡ none
    → total_funds (insert k a m) ≡ total_funds m + funds a
unfolding total_funds lookup insert
total_funds-insert_new k a [] e = omega arith
total_funds-insert_new k a ((j, c) ∷ m) e =
    ground (arith, bytes_eq_iff j k, total_funds-insert_new k a m)

abbrev pub funds_of : Option Account → ℕ
funds_of none = 0
funds_of (some a) = funds a

-- A store moves the total by the difference to what stood there.
pub total_funds-put_account :
    (a : Account) (o : Option Account) (st : State)
    → get_account a.address st ≡ o
    → total_funds (put_account a st).accounts + funds_of o ≡ total_funds st.accounts + funds a
unfolding get_account put_account
total_funds-put_account a none st e =
    omega (arith, total_funds-insert_new a.address a st.accounts e)
total_funds-put_account a (some b) st e = total_funds-insert a.address a b st.accounts e

pub put_account-IsKeyed :
    (a : Account) (st : State) → IsKeyed st.accounts → IsKeyed (put_account a st).accounts
unfolding put_account
put_account-IsKeyed a st h = insert-IsKeyed a st.accounts h

pub get_account-put_account :
    (a : Account) (k : Bytes) (st : State)
    → get_account k (put_account a st) ≡ (if bytes_eq a.address k then some a else get_account k st)
unfolding get_account put_account
get_account-put_account a k st = lookup-insert a.address k a st.accounts

pub get_account-address :
    (k : Bytes) (a : Account) (st : State)
    → IsKeyed st.accounts
    → get_account k st ≡ some a
    → a.address ≡ k
unfolding get_account
get_account-address k a st h e = lookup-address k a st.accounts h e
