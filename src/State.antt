-- ===== src/State.antt =====
-- internal/state: the stores over the revoking database. Each store is a map of its own, over the
-- keys behind its prefix. A store reads back what it wrote, as the encodings of protobuf do, and
-- its database is open, so a call fails only where a key is missing. Messages hold the fields that
-- the actuators use, and a missing sub-message reads as an empty one.
pub mod Names
pub mod Property
pub mod Delegation
use go_tron.Prelude.{ℕ, Bool, Option, List, ◌∷◌, ◌++◌, if◌then◌else◌}
use go_tron.Prelude.Bytes.{Bytes, bytes_eq_instance}
use go_tron.Prelude.Int.{ℤ}
use go_tron.Prelude.Map.{Map, lookup, insert, erase}

-- The values of the enumerations `ResourceCode` and `AccountType`, which protobuf leaves open.
abbrev pub bandwidth : ℕ
bandwidth = 0

abbrev pub energy : ℕ
energy = 1

abbrev pub tron_power_code : ℕ
tron_power_code = 2

abbrev pub contract_type : ℕ
contract_type = 2

pub record Vote : Type 0 where
  pub vote_address : Bytes
  pub vote_count : ℤ

pub record FreezeV2 : Type 0 where
  pub code : ℕ
  pub amount : ℤ

pub record UnfreezeV2 : Type 0 where
  pub code : ℕ
  pub unfreeze_amount : ℤ
  pub unfreeze_expire_time : ℤ

-- `AccountResource`, by its energy side.
pub record AccountResource : Type 0 where
  pub frozen_balance_for_energy : ℤ
  pub delegated_frozen_balance_for_energy : ℤ
  pub delegated_frozen_v2_balance_for_energy : ℤ
  pub acquired_delegated_frozen_v2_balance_for_energy : ℤ

pub record Account : Type 0 where
  pub address : Bytes
  pub account_type : ℕ
  pub balance : ℤ
  pub allowance : ℤ
  pub latest_withdraw_time : ℤ
  pub votes : List Vote
  -- The balances of the entries of `frozen`.
  pub frozen : List ℤ
  pub delegated_frozen_balance_for_bandwidth : ℤ
  pub frozen_v2 : List FreezeV2
  pub unfrozen_v2 : List UnfreezeV2
  pub delegated_frozen_v2_balance_for_bandwidth : ℤ
  pub acquired_delegated_frozen_v2_balance_for_bandwidth : ℤ
  pub account_resource : AccountResource

pub record Witness : Type 0 where
  pub address : Bytes
  pub vote_count : ℤ

pub record Votes : Type 0 where
  pub address : Bytes
  pub old_votes : List Vote
  pub new_votes : List Vote

pub record DelegatedResource : Type 0 where
  pub from : Bytes
  pub to : Bytes
  pub frozen_balance_for_bandwidth : ℤ
  pub frozen_balance_for_energy : ℤ

-- An edge of the index of delegations: the other endpoint and its time.
pub record Edge : Type 0 where
  pub account : Bytes
  pub timestamp : ℤ

-- The entries of the delegation store, one map for each kind of figure.
pub record Delegations : Type 0 where
  pub rewards : Map Bytes ℤ
  pub vis : Map Bytes ℕ
  pub witness_votes : Map Bytes ℤ
  pub account_votes : Map Bytes (List Vote)
  pub begin_cycles : Map Bytes ℤ
  pub end_cycles : Map Bytes ℤ
  pub brokerages : Map Bytes ℤ

pub record State : Type 0 where
  pub accounts : Map Bytes Account
  pub witnesses : Map Bytes Witness
  -- A property's key is its place in the source's list of names.
  pub properties : Map ℕ ℤ
  pub delegated : Map Bytes DelegatedResource
  pub delegated_index : Map Bytes Edge
  pub votes : Map Bytes Votes
  pub delegation : Delegations

unfoldable pub get_account : Bytes → State → Option Account
get_account a st = lookup a st.accounts

unfoldable pub put_account : Account → State → State
put_account a st = record st { accounts = insert a.address a st.accounts }

unfoldable pub get_witness : Bytes → State → Option Witness
get_witness a st = lookup a st.witnesses

unfoldable pub put_witness : Witness → State → State
put_witness w st = record st { witnesses = insert w.address w st.witnesses }

unfoldable pub get_votes : Bytes → State → Option Votes
get_votes a st = lookup a st.votes

unfoldable pub put_votes : Votes → State → State
put_votes v st = record st { votes = insert v.address v st.votes }

unfoldable pub delete_votes : Bytes → State → State
delete_votes a st = record st { votes = erase a st.votes }

-- The byte before the addresses keeps locked and unlocked entries apart.
unfoldable pub dr_v2_key : Bytes → Bytes → Bool → Bytes
dr_v2_key from to lock = (if lock then 2 else 1) ∷ (from ++ to)

unfoldable pub get_v2 : Bytes → Bytes → Bool → State → Option DelegatedResource
unfolding dr_v2_key
get_v2 from to lock st = lookup (dr_v2_key from to lock) st.delegated

unfoldable pub put_v2 : DelegatedResource → Bool → State → State
unfolding dr_v2_key
put_v2 d lock st = record st { delegated = insert (dr_v2_key d.from d.to lock) d st.delegated }

unfoldable pub delete_v2 : Bytes → Bytes → Bool → State → State
unfolding dr_v2_key
delete_v2 from to lock st = record st { delegated = erase (dr_v2_key from to lock) st.delegated }

unfoldable pub edge_key : ℕ → Bytes → Bytes → Bytes
edge_key prefix a b = prefix ∷ (a ++ b)

unfoldable pub put_edge : ℕ → Bytes → Bytes → Bytes → ℤ → State → State
unfolding edge_key
put_edge prefix a b other time st = record st {
  delegated_index =
      insert (edge_key prefix a b) (record { account = other; timestamp = time })
        st.delegated_index;
}

unfoldable pub delete_edge : ℕ → Bytes → Bytes → State → State
unfolding edge_key
delete_edge prefix a b st = record st {
  delegated_index = erase (edge_key prefix a b) st.delegated_index;
}

-- Both directions of a delegation of Stake 2.0.
unfoldable pub delegate_v2 : Bytes → Bytes → ℤ → State → State
unfolding put_edge
delegate_v2 from to time st = put_edge 4 to from from time (put_edge 3 from to to time st)

unfoldable pub undelegate_v2 : Bytes → Bytes → State → State
unfolding delete_edge
undelegate_v2 from to st = delete_edge 4 to from (delete_edge 3 from to st)
