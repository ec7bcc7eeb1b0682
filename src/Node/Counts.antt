-- ===== src/Node/Counts.antt =====
-- internal/node/manager.go: the changes of the vote tally, applied to the witnesses.
use go_tron.Prelude.{
  ◌≡◌, refl, sym, ◌∙◌, ap, Bool, true, false, Bool-cases, Option-cases, if_so, if_not, inl, inr,
  ◌⊎◌, Option, none, some, [], ◌∷◌, arith, if◌then◌else◌,
}
use go_tron.Prelude.Bytes.{Bytes, bytes_eq, bytes_eq_iff, bytes_eq_instance}
use go_tron.Prelude.Int.{ℤ, pos, eqb_ℤ}
use go_tron.Prelude.Int64.{add64}
use go_tron.Prelude.Map.{Map, lookup, IsUnique, lookup-insert}
use mathlib.Core.Option as Option
use go_tron.State.{State, Witness, get_witness, put_witness}
use go_tron.State.Delegation.{found, or_default}
use go_tron.Node.Maintenance.{apply_delta, apply_deltas}

-- A witness with a change of its votes.
abbrev pub recount : ℤ → Witness → Witness
recount d w = if eqb_ℤ d (pos 0) then w else record w { vote_count = add64 w.vote_count d }

-- Witnesses stand under their own addresses.
abbrev pub IsFiled : State → Type 0
IsFiled st = (k : Bytes) (w : Witness) → get_witness k st ≡ some w → w.address ≡ k

recount_none : (d : ℤ) (o : Option Witness) → eqb_ℤ d (pos 0) ≡ true → Option.map (recount d) o ≡ o
recount_none d none e = refl
recount_none d (some w) e = ap some (if_so _ _ _ e)

recount-address : (d : ℤ) (w : Witness) → (recount d w).address ≡ w.address
recount-address d w = ground arith

apply_delta-none :
    (addr : Bytes) (d : ℤ) (st : State)
    → eqb_ℤ d (pos 0) ≡ true ⊎ get_witness addr st ≡ none
    → apply_delta addr d st ≡ st
unfolding apply_delta
apply_delta-none addr d st (inl e) = rw e
apply_delta-none addr d st (inr e) = elim (Bool-cases (eqb_ℤ d (pos 0))) [
  | inl z ↦ rw z
  | inr z ↦ rw (z, e)
]

apply_delta-some :
    (addr : Bytes) (d : ℤ) (w : Witness) (st : State)
    → eqb_ℤ d (pos 0) ≡ false
    → get_witness addr st ≡ some w
    → apply_delta addr d st ≡ put_witness (recount d w) st
unfolding apply_delta
apply_delta-some addr d w st z e =
    if_not _ _ _ z
    ∙ ap
        (λ (o : Option Witness). elim o as (λ _. State) [
          | none ↦ st
          | some c ↦ put_witness (record c { vote_count = add64 c.vote_count d }) st
        ])
        e
    ∙ ap (λ c. put_witness c st) (sym (if_not _ _ _ z))

get_witness-put_witness :
    (w : Witness) (k : Bytes) (st : State)
    → get_witness k (put_witness w st) ≡ (if bytes_eq w.address k then some w else get_witness k st)
unfolding get_witness put_witness
get_witness-put_witness w k st = lookup-insert w.address k w st.witnesses

abbrev recounted : Bytes → Bytes → ℤ → State → Option Witness
recounted addr k d st =
    if bytes_eq addr k then Option.map (recount d) (get_witness k st) else get_witness k st

same_here :
    (addr k : Bytes) (d : ℤ) (st : State)
    → eqb_ℤ d (pos 0) ≡ true ⊎ get_witness addr st ≡ none
    → bytes_eq addr k ≡ true
    → get_witness k st ≡ Option.map (recount d) (get_witness k st)
same_here addr k d st (inl z) c = sym (recount_none d (get_witness k st) z)
same_here addr k d st (inr e) c =
    let there : get_witness k st ≡ none =
      ap (λ a. get_witness a st) (sym ((bytes_eq_iff addr k).0 c)) ∙ e in
    there ∙ sym (ap (Option.map (recount d)) there)

recounted-there :
    (addr k : Bytes) (d : ℤ) (w : Witness) (st : State)
    → get_witness addr st ≡ some w
    → (if bytes_eq addr k then some (recount d w) else get_witness k st) ≡ recounted addr k d st
recounted-there addr k d w st e = elim (Bool-cases (bytes_eq addr k)) [
  | inl c ↦ rw c (
      sym (
        ap (Option.map (recount d))
          (ap (λ a. get_witness a st) (sym ((bytes_eq_iff addr k).0 c)) ∙ e)))
  | inr c ↦ rw c
]

recounted-same :
    (addr k : Bytes) (d : ℤ) (st : State)
    → eqb_ℤ d (pos 0) ≡ true ⊎ get_witness addr st ≡ none
    → get_witness k st ≡ recounted addr k d st
recounted-same addr k d st h = elim (Bool-cases (bytes_eq addr k)) [
  | inl c ↦ rw c (same_here addr k d st h c)
  | inr c ↦ rw c
]

get_witness-apply_delta :
    (addr k : Bytes) (d : ℤ) (st : State)
    → IsFiled st
    → get_witness k (apply_delta addr d st) ≡ recounted addr k d st
get_witness-apply_delta addr k d st filed = elim (Bool-cases (eqb_ℤ d (pos 0))) [
  | inl z ↦
      ap (get_witness k) (apply_delta-none addr d st (inl z)) ∙ recounted-same addr k d st (inl z)
  | inr z ↦ elim (Option-cases (get_witness addr st)) [
    | inl e ↦
        ap (get_witness k) (apply_delta-none addr d st (inr e)) ∙ recounted-same addr k d st (inr e)
    | inr (w, e) ↦
        ap (get_witness k) (apply_delta-some addr d w st z e)
        ∙ get_witness-put_witness (recount d w) k st
        ∙ ap (λ a. if bytes_eq a k then some (recount d w) else get_witness k st)
            (recount-address d w ∙ filed addr w e)
        ∙ recounted-there addr k d w st e
  ]
]

recounted-address :
    (d : ℤ) (c : Bool) (o : Option Witness) (w : Witness)
    → (if c then Option.map (recount d) o else o) ≡ some w
    → (v : Witness) × (o ≡ some v) × (w.address ≡ v.address)
recounted-address d true none w h = cc
recounted-address d true (some v) w h =
    (v, refl, ap (λ o. (or_default v o).address) (sym h) ∙ recount-address d v)
recounted-address d false none w h = cc
recounted-address d false (some v) w h = (v, refl, ap (λ o. (or_default v o).address) (sym h))

apply_delta-IsFiled :
    (addr : Bytes) (d : ℤ) (st : State) → IsFiled st → IsFiled (apply_delta addr d st)
apply_delta-IsFiled addr d st filed k w e =
    let (v, there, same) =
      recounted-address d (bytes_eq addr k) (get_witness k st) w
        (sym (get_witness-apply_delta addr k d st filed) ∙ e) in
    same ∙ filed k v there

lookup_first :
    (j k : Bytes) (d : ℤ) (m : Map Bytes ℤ)
    → lookup k ((j, d) ∷ m) ≡ (if bytes_eq j k then some d else lookup k m)
unfolding lookup
lookup_first j k d m = refl

-- A key that stands once in the changes is counted once.
one_change :
    (j k : Bytes) (d : ℤ) (m : Map Bytes ℤ) (st : State)
    → lookup j m ≡ none
    → Option.map (recount (found k (pos 0) m)) (recounted j k d st)
      ≡ Option.map (recount (found k (pos 0) ((j, d) ∷ m))) (get_witness k st)
one_change j k d m st u = elim (Bool-cases (bytes_eq j k)) [
  | inl c ↦
      let nothing : found k (pos 0) m ≡ pos 0 =
        ap (λ a. found a (pos 0) m) (sym ((bytes_eq_iff j k).0 c)) ∙ ap (or_default (pos 0)) u in
      ap (Option.map (recount (found k (pos 0) m))) (if_so _ _ _ c)
      ∙ ap (λ x. Option.map (recount x) (Option.map (recount d) (get_witness k st))) nothing
      ∙ recount_none (pos 0) (Option.map (recount d) (get_witness k st)) refl
      ∙ ap (λ x. Option.map (recount x) (get_witness k st))
          (sym (ap (or_default (pos 0)) (lookup_first j k d m ∙ if_so _ _ _ c)))
  | inr c ↦
      ap (Option.map (recount (found k (pos 0) m))) (if_not _ _ _ c)
      ∙ ap (λ x. Option.map (recount x) (get_witness k st))
          (sym (ap (or_default (pos 0)) (lookup_first j k d m ∙ if_not _ _ _ c)))
]

pub get_witness-apply_deltas :
    (k : Bytes) (m : Map Bytes ℤ) (st : State)
    → IsFiled st
    → IsUnique m
    → get_witness k (apply_deltas m st)
      ≡ Option.map (recount (found k (pos 0) m)) (get_witness k st)
unfolding apply_deltas lookup
get_witness-apply_deltas k [] st filed u = sym (recount_none (pos 0) (get_witness k st) refl)
get_witness-apply_deltas k ((j, d) ∷ m) st filed u =
    let rest =
      get_witness-apply_deltas k m (apply_delta j d st) (apply_delta-IsFiled j d st filed) u.1 in
    rest
    ∙ ap (Option.map (recount (found k (pos 0) m))) (get_witness-apply_delta j k d st filed)
    ∙ one_change j k d m st u.0
