-- ===== src/Tvm/StateDb.antt =====
-- internal/tvm/state_db.go: MemStateDB. An address is the number of its bytes, a slot and its value
-- are words. A snapshot is a copy of the accounts.
pub mod Snapshots
use go_tron.Prelude.{
  ℕ, ◌+◌, ◌-◌, Bool, true, false, Option, none, some, List, [], ◌∷◌, ◌++◌, if◌then◌else◌, leb,
  length, take, get_elem?,
}
use go_tron.Prelude.Bytes.{Bytes, nat_eq}
use go_tron.Prelude.Map.{Map, lookup, insert}
use go_tron.Tvm.Uint256.{Uint256}

pub record Account : Type 0 where
  pub balance : ℕ
  pub nonce : ℕ
  pub code : Bytes
  pub storage : Map ℕ ℕ

abbrev pub Accounts : Type 0
Accounts = Map ℕ Account

pub record MemStateDb : Type 0 where
  pub accounts : Accounts
  pub snaps : List Accounts

abbrev pub new_mem_state_db : MemStateDb
new_mem_state_db = record { accounts = []; snaps = [] }

abbrev empty_account : Account
empty_account = record { balance = 0; nonce = 0; code = []; storage = [] }

unfoldable pub get : MemStateDb → ℕ → Option Account
get s addr = lookup addr s.accounts

-- `getOrCreate`, and the write through the pointer that it returns.
unfoldable pub update : MemStateDb → ℕ → (Account → Account) → MemStateDb
unfolding get
update s addr f =
    let a : Account = elim (get s addr) [ some a ↦ a | none ↦ empty_account ] in
    record s { accounts = insert addr (f a) s.accounts }

unfoldable pub exist : MemStateDb → ℕ → Bool
unfolding get
exist s addr = elim (get s addr) [ some _ ↦ true | none ↦ false ]

unfoldable pub create_account : MemStateDb → ℕ → MemStateDb
unfolding update
create_account s addr = update s addr (λ a. a)

unfoldable pub get_balance : MemStateDb → ℕ → ℕ
unfolding get
get_balance s addr = elim (get s addr) [ some a ↦ a.balance | none ↦ 0 ]

unfoldable pub add_balance : Uint256 → MemStateDb → ℕ → ℕ → MemStateDb
unfolding update
add_balance u s addr amount = update s addr (λ a. record a { balance = u.add a.balance amount })

unfoldable pub sub_balance : Uint256 → MemStateDb → ℕ → ℕ → MemStateDb
unfolding update
sub_balance u s addr amount = update s addr (λ a. record a { balance = u.sub a.balance amount })

unfoldable pub get_nonce : MemStateDb → ℕ → ℕ
unfolding get
get_nonce s addr = elim (get s addr) [ some a ↦ a.nonce | none ↦ 0 ]

unfoldable pub set_nonce : MemStateDb → ℕ → ℕ → MemStateDb
unfolding update
set_nonce s addr nonce = update s addr (λ a. record a { nonce = nonce })

unfoldable pub get_code : MemStateDb → ℕ → Bytes
unfolding get
get_code s addr = elim (get s addr) [ some a ↦ a.code | none ↦ [] ]

unfoldable pub set_code : MemStateDb → ℕ → Bytes → MemStateDb
unfolding update
set_code s addr code = update s addr (λ a. record a { code = code })

-- The hash is the number of its 32 bytes.
unfoldable pub get_code_hash : (Bytes → ℕ) → MemStateDb → ℕ → ℕ
unfolding get
get_code_hash keccak256 s addr = elim (get s addr) [ some a ↦ keccak256 a.code | none ↦ 0 ]

unfoldable pub get_code_size : MemStateDb → ℕ → ℕ
unfolding get_code
get_code_size s addr = length (get_code s addr)

-- The value of a slot that was ever set.
unfoldable pub get_storage : MemStateDb → ℕ → ℕ → Option ℕ
unfolding get
get_storage s addr key = elim (get s addr) [ some a ↦ lookup key a.storage | none ↦ none ]

unfoldable pub set_storage : MemStateDb → ℕ → ℕ → ℕ → MemStateDb
unfolding update
set_storage s addr key value =
    update s addr (λ a. record a { storage = insert key value a.storage })

unfoldable pub snapshot : MemStateDb → MemStateDb × ℕ
snapshot s = (record s { snaps = s.snaps ++ s.accounts ∷ [] }, length s.snaps)

-- An index that is out of range changes nothing.
unfoldable pub revert_to_snapshot : ℕ → MemStateDb → MemStateDb
revert_to_snapshot id s = elim (get_elem? s.snaps id) [
  | some accounts ↦ record { accounts = accounts; snaps = take id s.snaps }
  | none ↦ s
]
