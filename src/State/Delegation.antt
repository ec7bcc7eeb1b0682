-- ===== src/State/Delegation.antt =====
-- internal/state/delegation.go: the figures of the reward accounting, by cycle and account.
use go_tron.Prelude.{
  ℕ, suc, ◌+◌, ◌/◌, ◌^◌, ◌++◌, Option, none, some, List, if◌then◌else◌, ◌||◌, ◌==◌, not,
}
use go_tron.Prelude.Bytes.{Bytes, be_bytes, bytes_eq_instance}
use go_tron.Prelude.Int.{ℤ, pos, negsuc, minus, pos_part, neg_part, ◌+ℤ◌, ◌*ℤ◌, eqb_ℤ}
use go_tron.Prelude.Int64.{to_word, add64, sub64}
use go_tron.Prelude.Map.{lookup, insert, Map}
use go_tron.State.{Delegations, Vote}

unfoldable pub cycle_key : ℤ → Bytes → Bytes
unfolding to_word
cycle_key cycle addr = be_bytes 8 (to_word cycle) ++ addr

-- 10^18, the scale of the reward per vote.
abbrev pub decimal_of_vi_reward : ℕ
decimal_of_vi_reward = 10 ^ 18

abbrev pub remark_no_vote : ℤ
remark_no_vote = negsuc 0

abbrev pub default_brokerage : ℤ
default_brokerage = pos 20

abbrev pub or_default : {V : Type 0} → V → Option V → V
or_default default none = default
or_default default (some v) = v

abbrev pub found : {V : Type 0} → Bytes → V → Map Bytes V → V
found key default m = or_default default (lookup key m)

unfoldable pub get_reward : ℤ → Bytes → Delegations → ℤ
unfolding cycle_key
get_reward cycle addr d = found (cycle_key cycle addr) (pos 0) d.rewards

unfoldable pub add_reward : ℤ → Bytes → ℤ → Delegations → Delegations
unfolding get_reward cycle_key
add_reward cycle addr v d = record d {
  rewards = insert (cycle_key cycle addr) (add64 (get_reward cycle addr d) v) d.rewards;
}

unfoldable pub get_witness_vote : ℤ → Bytes → Delegations → ℤ
unfolding cycle_key
get_witness_vote cycle addr d = found (cycle_key cycle addr) remark_no_vote d.witness_votes

unfoldable pub set_witness_vote : ℤ → Bytes → ℤ → Delegations → Delegations
unfolding cycle_key
set_witness_vote cycle addr v d = record d {
  witness_votes = insert (cycle_key cycle addr) v d.witness_votes;
}

unfoldable pub get_witness_vi : ℤ → Bytes → Delegations → ℕ
unfolding cycle_key
get_witness_vi cycle addr d = found (cycle_key cycle addr) 0 d.vis

-- The bytes of a `big.Int` are those of its absolute value.
unfoldable pub set_witness_vi : ℤ → Bytes → ℤ → Delegations → Delegations
unfolding cycle_key
set_witness_vi cycle addr v d = record d {
  vis = insert (cycle_key cycle addr) (pos_part v + neg_part v) d.vis;
}

-- `Div` of `big.Int` is Euclidean: the remainder is not negative. A zero divisor panics there; the
-- source tests for it.
unfoldable pub euclid_div : ℤ → ℤ → ℤ
euclid_div (pos a) (pos b) = pos (a / b)
euclid_div (pos a) (negsuc b) = minus (pos (a / suc b))
euclid_div (negsuc a) (pos b) = negsuc (a / b)
euclid_div (negsuc a) (negsuc b) = pos (a / suc b + 1)

unfoldable pub accumulate_witness_vi : ℤ → Bytes → ℤ → Delegations → Delegations
unfolding get_witness_vi get_reward set_witness_vi euclid_div
accumulate_witness_vi cycle addr vote_count d =
    let previous = get_witness_vi (sub64 cycle (pos 1)) addr d in
    let reward = get_reward cycle addr d in
    if eqb_ℤ reward (pos 0) || eqb_ℤ vote_count (pos 0)
    then if not (previous == 0) then set_witness_vi cycle addr (pos previous) d else d
    else set_witness_vi cycle addr
        (pos previous +ℤ euclid_div (reward *ℤ pos decimal_of_vi_reward) vote_count) d

unfoldable pub get_brokerage_at : ℤ → Bytes → Delegations → ℤ
unfolding cycle_key
get_brokerage_at cycle addr d = found (cycle_key cycle addr) default_brokerage d.brokerages

unfoldable pub set_brokerage_at : ℤ → Bytes → ℤ → Delegations → Delegations
unfolding cycle_key
set_brokerage_at cycle addr percent d = record d {
  brokerages = insert (cycle_key cycle addr) percent d.brokerages;
}

-- The current brokerage stands at the cycle -1.
unfoldable pub get_brokerage : Bytes → Delegations → ℤ
unfolding get_brokerage_at
get_brokerage addr d = get_brokerage_at (negsuc 0) addr d

unfoldable pub get_begin_cycle : Bytes → Delegations → ℤ
get_begin_cycle addr d = found addr (pos 0) d.begin_cycles

unfoldable pub set_begin_cycle : Bytes → ℤ → Delegations → Delegations
set_begin_cycle addr c d = record d { begin_cycles = insert addr c d.begin_cycles }

unfoldable pub get_end_cycle : Bytes → Delegations → ℤ
get_end_cycle addr d = found addr remark_no_vote d.end_cycles

unfoldable pub set_end_cycle : Bytes → ℤ → Delegations → Delegations
set_end_cycle addr c d = record d { end_cycles = insert addr c d.end_cycles }

unfoldable pub get_account_vote : ℤ → Bytes → Delegations → Option (List Vote)
unfolding cycle_key
get_account_vote cycle addr d = lookup (cycle_key cycle addr) d.account_votes

unfoldable pub set_account_vote : ℤ → Bytes → List Vote → Delegations → Delegations
unfolding cycle_key
set_account_vote cycle addr votes d = record d {
  account_votes = insert (cycle_key cycle addr) votes d.account_votes;
}
