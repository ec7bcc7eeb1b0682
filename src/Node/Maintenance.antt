-- ===== src/Node/Maintenance.antt =====
-- internal/node/manager.go: the maintenance window, over the stores. A pass over a store visits its
-- entries in the order of the map; each visit writes figures of its own entry.
use go_tron.Prelude.{none, some, List, [], ◌∷◌, if◌then◌else◌}
use go_tron.Prelude.Bytes.{Bytes, bytes_eq_instance}
use go_tron.Prelude.Int.{ℤ, pos, eqb_ℤ}
use go_tron.Prelude.Int64.{add64, sub64}
use go_tron.Prelude.Map.{Map, insert}
use go_tron.State.{State, Vote, Votes, Witness, Delegations, get_witness, put_witness, delete_votes}
use go_tron.State.Names
use go_tron.State.Property.{
  current_cycle_number, use_new_reward_algorithm, allow_change_delegation, put_int64,
}
use go_tron.State.Delegation.{
  accumulate_witness_vi, get_brokerage, set_brokerage_at, set_witness_vote, found,
}

-- First phase: the index of each witness, by its votes during the cycle.
unfoldable pub accumulate_vis : ℤ → Map Bytes Witness → Delegations → Delegations
unfolding accumulate_witness_vi
accumulate_vis cycle [] d = d
accumulate_vis cycle ((_, w) ∷ ws) d =
    accumulate_vis cycle ws (accumulate_witness_vi cycle w.address w.vote_count d)

-- Second phase: the change of each candidate.
unfoldable pub take_votes : List Vote → Map Bytes ℤ → Map Bytes ℤ
take_votes [] m = m
take_votes (v ∷ vs) m =
    take_votes vs (insert v.vote_address (sub64 (found v.vote_address (pos 0) m) v.vote_count) m)

unfoldable pub give_votes : List Vote → Map Bytes ℤ → Map Bytes ℤ
give_votes [] m = m
give_votes (v ∷ vs) m =
    give_votes vs (insert v.vote_address (add64 (found v.vote_address (pos 0) m) v.vote_count) m)

unfoldable pub collect_deltas : Map Bytes Votes → Map Bytes ℤ → Map Bytes ℤ
unfolding take_votes give_votes
collect_deltas [] m = m
collect_deltas ((_, v) ∷ vs) m =
    collect_deltas vs (give_votes v.new_votes (take_votes v.old_votes m))

unfoldable pub voters_of : Map Bytes Votes → List Bytes
voters_of [] = []
voters_of ((_, v) ∷ vs) = v.address ∷ voters_of vs

unfoldable pub clear_votes : List Bytes → State → State
unfolding delete_votes
clear_votes [] st = st
clear_votes (a ∷ voters) st = clear_votes voters (delete_votes a st)

unfoldable pub apply_delta : Bytes → ℤ → State → State
unfolding get_witness put_witness
apply_delta addr delta st = if eqb_ℤ delta (pos 0) then st else elim (get_witness addr st) [
  | none ↦ st
  | some w ↦ put_witness (record w { vote_count = add64 w.vote_count delta }) st
]

unfoldable pub apply_deltas : Map Bytes ℤ → State → State
unfolding apply_delta
apply_deltas [] st = st
apply_deltas ((addr, delta) ∷ m) st = apply_deltas m (apply_delta addr delta st)

unfoldable pub tally : State → State
unfolding collect_deltas voters_of clear_votes apply_deltas
tally st =
    let deltas = collect_deltas st.votes [] in
    apply_deltas deltas (clear_votes (voters_of st.votes) st)

-- Third phase: the brokerage and the votes of each witness, for the next cycle.
unfoldable pub snapshot_witnesses : ℤ → Map Bytes Witness → Delegations → Delegations
unfolding get_brokerage set_brokerage_at set_witness_vote
snapshot_witnesses cycle [] d = d
snapshot_witnesses cycle ((_, w) ∷ ws) d =
    let kept = set_brokerage_at cycle w.address (get_brokerage w.address d) d in
    snapshot_witnesses cycle ws (set_witness_vote cycle w.address w.vote_count kept)

unfoldable pub run_maintenance : State → State
unfolding current_cycle_number use_new_reward_algorithm allow_change_delegation accumulate_vis tally
    put_int64 snapshot_witnesses
run_maintenance st =
    let cycle = current_cycle_number st in
    let accumulated : State =
      if use_new_reward_algorithm st
      then record st { delegation = accumulate_vis cycle st.witnesses st.delegation }
      else st in
    let tallied = tally accumulated in
    let next = add64 cycle (pos 1) in
    let advanced = put_int64 Names.current_cycle_number next tallied in
    if allow_change_delegation tallied
    then record advanced {
      delegation = snapshot_witnesses next advanced.witnesses advanced.delegation;
    }
    else tallied
