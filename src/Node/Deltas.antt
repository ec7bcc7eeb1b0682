-- ===== src/Node/Deltas.antt =====
-- internal/node/manager.go: the changes that the vote tally collects.
use go_tron.Prelude.{
  ◌+◌, ◌-◌, ◌%◌, ◌^◌, ◌≡◌, ◌∙◌, ap, true, Bool-cases, if_so, if_not, inl, inr, List, [], ◌∷◌, arith,
  if◌then◌else◌,
}
use go_tron.Prelude.Bytes.{Bytes, bytes_eq, bytes_eq_iff, bytes_eq_instance}
use go_tron.Prelude.Int.{ℤ, pos, ◌+ℤ◌, ◌-ℤ◌}
use go_tron.Prelude.Int64.{IsInt64, add64, sub64, to_word, wrap64, wrap64-IsInt64}
use go_tron.Prelude.Word64.{
  to_word-lt, to_word-zero, to_word-add, to_word-sub, to_word-add64, to_word-sub64, to_word-wrap64,
  to_word-injective,
}
use go_tron.Prelude.Map.{Map, lookup, insert, IsUnique, insert-IsUnique, lookup-insert}
use go_tron.State.{Vote, Votes}
use go_tron.State.Delegation.{found, or_default}
use go_tron.Node.Maintenance.{take_votes, give_votes, collect_deltas}

-- The votes of a list for one candidate, and the change that the pending entries ask for, in exact
-- arithmetic.
abbrev pub votes_for : Bytes → List Vote → ℤ
votes_for w [] = pos 0
votes_for w (v ∷ vs) =
    if bytes_eq v.vote_address w then v.vote_count +ℤ votes_for w vs else votes_for w vs

abbrev pub pending_change : Bytes → Map Bytes Votes → ℤ
pending_change w [] = pos 0
pending_change w ((_, v) ∷ vs) =
    votes_for w v.new_votes -ℤ votes_for w v.old_votes +ℤ pending_change w vs

found-insert :
    (k w : Bytes) (x : ℤ) (m : Map Bytes ℤ)
    → found w (pos 0) (insert k x m) ≡ (if bytes_eq k w then x else found w (pos 0) m)
found-insert k w x m = elim (Bool-cases (bytes_eq k w)) [
  | inl e ↦ rw e (ap (or_default (pos 0)) (lookup-insert k w x m ∙ if_so _ _ _ e))
  | inr e ↦ rw e (ap (or_default (pos 0)) (lookup-insert k w x m ∙ if_not _ _ _ e))
]

found-here :
    (k w : Bytes) (m : Map Bytes ℤ) → bytes_eq k w ≡ true → found k (pos 0) m ≡ found w (pos 0) m
found-here k w m e = ap (λ a. found a (pos 0) m) ((bytes_eq_iff k w).0 e)

take_votes-word :
    (w : Bytes) (vs : List Vote) (m : Map Bytes ℤ)
    → to_word (found w (pos 0) (take_votes vs m))
      ≡ (to_word (found w (pos 0) m) + 2 ^ 64 - to_word (votes_for w vs)) % 2 ^ 64
unfolding take_votes
take_votes-word w [] m = omega (arith, to_word-zero, to_word-lt (found w (pos 0) m))
take_votes-word w (v ∷ vs) m =
    let k = v.vote_address in
    let x = sub64 (found k (pos 0) m) v.vote_count in
    let later = take_votes-word w vs (insert k x m) in
    elim (Bool-cases (bytes_eq k w)) [
      | inl e ↦ rw e (
          omega (
            arith,
            later,
            ap to_word (found-insert k w x m ∙ if_so _ _ _ e),
            ap to_word (found-here k w m e),
            to_word-sub64 (found k (pos 0) m) v.vote_count,
            to_word-lt v.vote_count,
            to_word-lt (votes_for w vs),
            to_word-add v.vote_count (votes_for w vs),
          ))
      | inr e ↦ rw e (omega (arith, later, ap to_word (found-insert k w x m ∙ if_not _ _ _ e)))
    ]

give_votes-word :
    (w : Bytes) (vs : List Vote) (m : Map Bytes ℤ)
    → to_word (found w (pos 0) (give_votes vs m))
      ≡ (to_word (found w (pos 0) m) + to_word (votes_for w vs)) % 2 ^ 64
unfolding give_votes
give_votes-word w [] m = omega (arith, to_word-zero, to_word-lt (found w (pos 0) m))
give_votes-word w (v ∷ vs) m =
    let k = v.vote_address in
    let x = add64 (found k (pos 0) m) v.vote_count in
    let later = give_votes-word w vs (insert k x m) in
    elim (Bool-cases (bytes_eq k w)) [
      | inl e ↦ rw e (
          omega (
            arith,
            later,
            ap to_word (found-insert k w x m ∙ if_so _ _ _ e),
            ap to_word (found-here k w m e),
            to_word-add64 (found k (pos 0) m) v.vote_count,
            to_word-lt v.vote_count,
            to_word-lt (votes_for w vs),
            to_word-add v.vote_count (votes_for w vs),
          ))
      | inr e ↦ rw e (omega (arith, later, ap to_word (found-insert k w x m ∙ if_not _ _ _ e)))
    ]

collect_deltas-word :
    (w : Bytes) (vs : Map Bytes Votes) (m : Map Bytes ℤ)
    → to_word (found w (pos 0) (collect_deltas vs m))
      ≡ (to_word (found w (pos 0) m) + to_word (pending_change w vs)) % 2 ^ 64
unfolding collect_deltas
collect_deltas-word w [] m = omega (arith, to_word-zero, to_word-lt (found w (pos 0) m))
collect_deltas-word w ((k, v) ∷ vs) m = omega (
  arith,
  collect_deltas-word w vs (give_votes v.new_votes (take_votes v.old_votes m)),
  give_votes-word w v.new_votes (take_votes v.old_votes m),
  take_votes-word w v.old_votes m,
  to_word-lt (votes_for w v.old_votes),
  to_word-lt (votes_for w v.new_votes),
  to_word-sub (votes_for w v.new_votes) (votes_for w v.old_votes),
  to_word-add (votes_for w v.new_votes -ℤ votes_for w v.old_votes) (pending_change w vs),
)

take_votes-IsUnique : (vs : List Vote) (m : Map Bytes ℤ) → IsUnique m → IsUnique (take_votes vs m)
unfolding take_votes
take_votes-IsUnique [] m h = h
take_votes-IsUnique (v ∷ vs) m h = take_votes-IsUnique vs _ (insert-IsUnique v.vote_address _ m h)

give_votes-IsUnique : (vs : List Vote) (m : Map Bytes ℤ) → IsUnique m → IsUnique (give_votes vs m)
unfolding give_votes
give_votes-IsUnique [] m h = h
give_votes-IsUnique (v ∷ vs) m h = give_votes-IsUnique vs _ (insert-IsUnique v.vote_address _ m h)

pub collect_deltas-IsUnique :
    (vs : Map Bytes Votes) (m : Map Bytes ℤ) → IsUnique m → IsUnique (collect_deltas vs m)
unfolding collect_deltas
collect_deltas-IsUnique [] m h = h
collect_deltas-IsUnique ((k, v) ∷ vs) m h =
    collect_deltas-IsUnique vs _
      (give_votes-IsUnique v.new_votes _ (take_votes-IsUnique v.old_votes m h))

-- Every change is an int64.
fits-insert :
    (k w : Bytes) (x : ℤ) (m : Map Bytes ℤ)
    → IsInt64 x
    → IsInt64 (found w (pos 0) m)
    → IsInt64 (found w (pos 0) (insert k x m))
fits-insert k w x m i h = elim (Bool-cases (bytes_eq k w)) [
  | inl c ↦ rw (found-insert k w x m ∙ if_so _ _ _ c) i
  | inr c ↦ rw (found-insert k w x m ∙ if_not _ _ _ c) h
]

take_votes-fits :
    (w : Bytes) (vs : List Vote) (m : Map Bytes ℤ)
    → IsInt64 (found w (pos 0) m)
    → IsInt64 (found w (pos 0) (take_votes vs m))
unfolding take_votes sub64
take_votes-fits w [] m h = h
take_votes-fits w (v ∷ vs) m h =
    take_votes-fits w vs _ (fits-insert v.vote_address w _ m (wrap64-IsInt64 _) h)

give_votes-fits :
    (w : Bytes) (vs : List Vote) (m : Map Bytes ℤ)
    → IsInt64 (found w (pos 0) m)
    → IsInt64 (found w (pos 0) (give_votes vs m))
unfolding give_votes add64
give_votes-fits w [] m h = h
give_votes-fits w (v ∷ vs) m h =
    give_votes-fits w vs _ (fits-insert v.vote_address w _ m (wrap64-IsInt64 _) h)

collect_deltas-fits :
    (w : Bytes) (vs : Map Bytes Votes) (m : Map Bytes ℤ)
    → IsInt64 (found w (pos 0) m)
    → IsInt64 (found w (pos 0) (collect_deltas vs m))
unfolding collect_deltas
collect_deltas-fits w [] m h = h
collect_deltas-fits w ((k, v) ∷ vs) m h =
    collect_deltas-fits w vs _ (give_votes-fits w v.new_votes _ (take_votes-fits w v.old_votes m h))

-- The change that the pass collects for a candidate is the exact one, wrapped once.
pub collect_deltas-pending_change :
    (w : Bytes) (vs : Map Bytes Votes)
    → found w (pos 0) (collect_deltas vs []) ≡ wrap64 (pending_change w vs)
unfolding lookup
collect_deltas-pending_change w vs =
    to_word-injective _ _ (collect_deltas-fits w vs [] (omega arith)) (wrap64-IsInt64 _) (
      omega (
        arith,
        collect_deltas-word w vs [],
        to_word-zero,
        to_word-lt (pending_change w vs),
        to_word-wrap64 (pending_change w vs),
      ))
