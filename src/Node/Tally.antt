-- ===== src/Node/Tally.antt =====
-- internal/node/manager.go: what the vote tally of the maintenance window comes to.
use go_tron.Prelude.{
  ◌≡◌, refl, sym, ◌∙◌, ap, Bool-cases, Option-cases, if_so, if_not, inl, inr, none, some, List, [],
  ◌∷◌, arith, if◌then◌else◌,
}
use go_tron.Prelude.Bytes.{Bytes, bytes_eq, bytes_eq_instance}
use go_tron.Prelude.Int.{ℤ}
use go_tron.Prelude.Int64.{wrap64}
use go_tron.Prelude.Map.{Map, lookup, lookup-erase}
use mathlib.Core.Option as Option
use go_tron.State.{State, Votes, get_witness, get_votes, delete_votes}
use go_tron.Node.Maintenance.{
  collect_deltas, voters_of, clear_votes, apply_delta, apply_deltas, tally,
}
use go_tron.Node.Deltas.{pending_change, collect_deltas-pending_change, collect_deltas-IsUnique}
use go_tron.Node.Counts.{recount, IsFiled, get_witness-apply_deltas}

get_witness-clear_votes :
    (k : Bytes) (voters : List Bytes) (st : State)
    → get_witness k (clear_votes voters st) ≡ get_witness k st
unfolding clear_votes get_witness
get_witness-clear_votes k [] st = refl
get_witness-clear_votes k (a ∷ voters) st = get_witness-clear_votes k voters (delete_votes a st)

get_votes-delete_votes :
    (a k : Bytes) (st : State)
    → get_votes k (delete_votes a st) ≡ (if bytes_eq a k then none else get_votes k st)
unfolding get_votes delete_votes
get_votes-delete_votes a k st = lookup-erase a k st.votes

still_none :
    (k a : Bytes) (st : State) → get_votes k st ≡ none → get_votes k (delete_votes a st) ≡ none
still_none k a st e = elim (Bool-cases (bytes_eq a k)) [
  | inl c ↦ get_votes-delete_votes a k st ∙ if_so _ _ _ c
  | inr c ↦ get_votes-delete_votes a k st ∙ if_not _ _ _ c ∙ e
]

get_votes-clear_votes :
    (k : Bytes) (voters : List Bytes) (st : State)
    → get_votes k st ≡ none
    → get_votes k (clear_votes voters st) ≡ none
unfolding clear_votes
get_votes-clear_votes k [] st e = e
get_votes-clear_votes k (a ∷ voters) st e =
    get_votes-clear_votes k voters (delete_votes a st) (still_none k a st e)

abbrev pub VotesFiled : Map Bytes Votes → Type 0
VotesFiled [] = Unit
VotesFiled ((k, v) ∷ m) = (v.address ≡ k) × VotesFiled m

get_votes-voters_of :
    (k : Bytes) (m : Map Bytes Votes) (v : Votes) (st : State)
    → VotesFiled m
    → lookup k m ≡ some v
    → get_votes k (clear_votes (voters_of m) st) ≡ none
unfolding clear_votes voters_of lookup
get_votes-voters_of k [] v st h e = cc
get_votes-voters_of k ((j, u) ∷ m) v st h e = elim (Bool-cases (bytes_eq j k)) [
  | inl c ↦
      get_votes-clear_votes k (voters_of m) (delete_votes u.address st)
        (get_votes-delete_votes u.address k st ∙ if_so _ _ _ (ap (λ a. bytes_eq a k) h.0 ∙ c))
  | inr c ↦ get_votes-voters_of k m v (delete_votes u.address st) h.1 (sym (if_not _ _ _ c) ∙ e)
]

get_votes-apply_delta :
    (k addr : Bytes) (d : ℤ) (st : State) → get_votes k (apply_delta addr d st) ≡ get_votes k st
unfolding get_votes apply_delta
get_votes-apply_delta k addr d st = ground arith

get_votes-apply_deltas :
    (k : Bytes) (m : Map Bytes ℤ) (st : State) → get_votes k (apply_deltas m st) ≡ get_votes k st
unfolding apply_deltas
get_votes-apply_deltas k [] st = refl
get_votes-apply_deltas k ((addr, d) ∷ m) st =
    get_votes-apply_deltas k m (apply_delta addr d st) ∙ get_votes-apply_delta k addr d st

same_store :
    (k : Bytes) (v : Votes) (st : State) → get_votes k st ≡ some v → lookup k st.votes ≡ some v
unfolding get_votes
same_store k v st e = e

clear_votes-IsFiled : (st : State) → IsFiled st → IsFiled (clear_votes (voters_of st.votes) st)
clear_votes-IsFiled st filed k w e =
    filed k w (sym (get_witness-clear_votes k (voters_of st.votes) st) ∙ e)

no_votes_left :
    (k : Bytes) (st : State)
    → VotesFiled st.votes
    → get_votes k (clear_votes (voters_of st.votes) st) ≡ none
no_votes_left k st h = elim (Option-cases (get_votes k st)) [
  | inl e ↦ get_votes-clear_votes k (voters_of st.votes) st e
  | inr (v, e) ↦ get_votes-voters_of k st.votes v st h (same_store k v st e)
]

-- The tally adds to every witness the votes that it gained since the last one, less those that it
-- lost, over all voters, and leaves no vote pending; a candidate that is no witness is passed over.
-- The change is the exact sum, wrapped once to 64 bits, whatever the order of the voters. It holds
-- where witnesses and pending votes stand under their own addresses.
pub tally_lem :
    (st : State) (k : Bytes)
    → IsFiled st
    → VotesFiled st.votes
    → (get_witness k (tally st)
        ≡ Option.map (recount (wrap64 (pending_change k st.votes))) (get_witness k st))
      × (get_votes k (tally st) ≡ none)
unfolding tally
tally_lem st k filed voters =
    let deltas = collect_deltas st.votes [] in
    let cleared = clear_votes (voters_of st.votes) st in
    (
      get_witness-apply_deltas k deltas cleared (clear_votes-IsFiled st filed)
            (collect_deltas-IsUnique st.votes [] tt)
          ∙ ap (λ d. Option.map (recount d) (get_witness k cleared))
              (collect_deltas-pending_change k st.votes)
          ∙ ap (Option.map (recount (wrap64 (pending_change k st.votes))))
              (get_witness-clear_votes k (voters_of st.votes) st),
      get_votes-apply_deltas k deltas cleared ∙ no_votes_left k st voters,
    )
