-- ===== src/Actuator/Ballot.antt =====
-- internal/actuator/vote.go: what a valid vote says about the voter's power, and what it does not.
use go_tron.Prelude.{
  ℕ, ◌+◌, ◌*◌, ◌^◌, ◌<◌, ◌≡◌, refl, sym, ◌∙◌, ap, false, inl, inr, some, List, [], ◌∷◌, arith,
}
use mathlib.Core.Path.{subst}
use go_tron.Prelude.Bytes.{Bytes}
use go_tron.Prelude.Int.{ℤ, pos, negsuc, pos_part, ltb_ℤ, leb_ℤ, ◌≤ℤ◌, ◌*ℤ◌}
use go_tron.Prelude.Int64.{add64, add64-pos, mul64, mul64-pos, wrap64}
use go_tron.Prelude.Result.{ok, Result-cases}
use go_tron.State.{State, Account, Vote, Witness, get_account, get_witness}
use go_tron.Actuator.{valid_address, trx_precision}
use go_tron.Actuator.Voting.{check_votes, validate_vote, tron_power}

-- The votes in exact arithmetic.
abbrev pub total_votes : List Vote → ℕ
total_votes [] = 0
total_votes (v ∷ vs) = pos_part v.vote_count + total_votes vs

check_votes-positive :
    (v : Vote) (vs : List Vote) (s : ℤ) (st : State) (r : ℤ)
    → check_votes (v ∷ vs) s st ≡ ok r
    → leb_ℤ v.vote_count (pos 0) ≡ false
unfolding check_votes
check_votes-positive v vs s st r h = ground arith

check_votes-rest :
    (v : Vote) (vs : List Vote) (s : ℤ) (st : State) (r : ℤ)
    → check_votes (v ∷ vs) s st ≡ ok r
    → check_votes vs (add64 s v.vote_count) st ≡ ok r
unfolding check_votes
check_votes-rest v vs s st r h = ground arith

positive-pos : (z : ℤ) → leb_ℤ z (pos 0) ≡ false → z ≡ pos (pos_part z)
positive-pos (pos n) h = refl
positive-pos (negsuc n) h = ground arith

check_votes-total :
    (votes : List Vote) (s : ℕ) (st : State) (r : ℤ)
    → check_votes votes (pos s) st ≡ ok r
    → s + total_votes votes < 2 ^ 63
    → r ≡ pos (s + total_votes votes)
unfolding check_votes
check_votes-total [] s st r h k = ground arith
check_votes-total (v ∷ vs) s st r h k =
    let n = pos_part v.vote_count in
    let exact : v.vote_count ≡ pos n =
      positive-pos v.vote_count (check_votes-positive v vs (pos s) st r h) in
    let sum : add64 (pos s) v.vote_count ≡ pos (s + n) =
      ap (add64 (pos s)) exact ∙ add64-pos s n (omega arith) in
    let rest =
      check_votes-total vs (s + n) st r
        (subst (λ t. check_votes vs t st ≡ ok r) sum (check_votes-rest v vs (pos s) st r h))
        (omega arith) in
    rest ∙ ap pos (omega arith)

not_below : (a b : ℤ) → ltb_ℤ a b ≡ false → b ≤ℤ a
not_below a b h = ground arith

validate_vote-checks :
    (owner : Bytes) (votes : List Vote) (st : State) (a : Account)
    → get_account owner st ≡ some a
    → validate_vote owner votes st ≡ ok tt
    → (sum : ℤ) × (check_votes votes (pos 0) st ≡ ok sum)
      × (ltb_ℤ (tron_power a) (mul64 sum trx_precision) ≡ false)
unfolding validate_vote
validate_vote-checks owner votes st a e h = elim (Result-cases (check_votes votes (pos 0) st)) [
  | inl (sum, c) ↦ (sum, c, ground arith)
  | inr (x, c) ↦ absurd (ground arith)
]

-- The votes that a valid VoteWitness casts cost at most the voter's power, at one TRX each, and so
-- they do in exact arithmetic. It holds where the votes together cost less than 2^63 sun, so that
-- the sum and the product of the source do not wrap.
pub validate_vote-tron_power :
    (owner : Bytes) (votes : List Vote) (st : State) (a : Account)
    → get_account owner st ≡ some a
    → total_votes votes * 1000000 < 2 ^ 63
    → validate_vote owner votes st ≡ ok tt
    → pos (total_votes votes * 1000000) ≤ℤ tron_power a
validate_vote-tron_power owner votes st a e fits h =
    let (sum, checked, within) = validate_vote-checks owner votes st a e h in
    let exact : sum ≡ pos (total_votes votes) =
      check_votes-total votes 0 st sum checked (omega arith) ∙ ap pos (omega arith) in
    let cost : mul64 sum trx_precision ≡ pos (total_votes votes * 1000000) =
      ap (λ t. mul64 t trx_precision) exact ∙ mul64-pos (total_votes votes) 1000000 fits in
    not_below (tron_power a) (pos (total_votes votes * 1000000))
      (ap (ltb_ℤ (tron_power a)) (sym cost) ∙ within)

product_wraps : (n k : ℕ) → n ≡ k * 2 ^ 58 → mul64 (pos n) trx_precision ≡ pos 0
unfolding mul64 wrap64 ◌*ℤ◌
product_wraps n k e = ground arith

wrapped_cost : (k : ℕ) → k < 32 → mul64 (add64 (pos 0) (pos (k * 2 ^ 58))) trx_precision ≡ pos 0
wrapped_cost k h =
    ap (λ t. mul64 t trx_precision) (add64-pos 0 (k * 2 ^ 58) (omega arith))
    ∙ product_wraps (0 + k * 2 ^ 58) k (omega arith)

check_one_vote :
    (v : Vote) (w : Witness) (s : ℤ) (st : State)
    → valid_address v.vote_address ≡ ok tt
    → leb_ℤ v.vote_count (pos 0) ≡ false
    → get_witness v.vote_address st ≡ some w
    → check_votes (v ∷ []) s st ≡ ok (add64 s v.vote_count)
unfolding check_votes
check_one_vote v w s st valid positive there = ground arith

validate_vote-passes :
    (owner : Bytes) (v : Vote) (st : State) (a : Account) (sum : ℤ)
    → valid_address owner ≡ ok tt
    → get_account owner st ≡ some a
    → check_votes (v ∷ []) (pos 0) st ≡ ok sum
    → ltb_ℤ (tron_power a) (mul64 sum trx_precision) ≡ false
    → validate_vote owner (v ∷ []) st ≡ ok tt
unfolding validate_vote
validate_vote-passes owner v st a sum valid there checked within = ground arith

-- Votes of k times 2^58 for a witness pass the validation whatever the power of the voter: their
-- cost in sun is a multiple of 2^64, which the product of the source wraps to 0. It holds for
-- 0 < k < 32, of every voter whose power is not negative and every witness.
pub validate_vote-wraps :
    (owner witness : Bytes) (k : ℕ) (st : State) (a : Account) (w : Witness)
    → valid_address owner ≡ ok tt
    → valid_address witness ≡ ok tt
    → get_account owner st ≡ some a
    → get_witness witness st ≡ some w
    → pos 0 ≤ℤ tron_power a
    → 0 < k
    → k < 32
    → validate_vote owner (record { vote_address = witness; vote_count = pos (k * 2 ^ 58) } ∷ []) st
      ≡ ok tt
validate_vote-wraps owner witness k st a w vo vw ea ew power lower upper =
    let v : Vote = record { vote_address = witness; vote_count = pos (k * 2 ^ 58) } in
    validate_vote-passes owner v st a (add64 (pos 0) (pos (k * 2 ^ 58))) vo ea
      (check_one_vote v w (pos 0) st vw (ground arith) ew)
      (ap (ltb_ℤ (tron_power a)) (wrapped_cost k upper) ∙ ground arith)
