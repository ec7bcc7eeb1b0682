-- ===== src/Actuator/Network.antt =====
-- internal/actuator and internal/state/property.go: the network's total weight under the modelled
-- contracts.
pub mod Moves
use go_tron.Prelude.{
  ℕ, ◌+◌, ◌%◌, ◌^◌, ◌⊎◌, ◌==◌, ◌≡◌, refl, sym, ap, ◌∙◌, Bool, true, false, Bool-cases, inl, inr,
  Option, none, some, arith, if◌then◌else◌, ◌||◌, ◌&&◌,
}
use go_tron.Prelude.{==_iff}
use go_tron.Prelude.Bytes.{Bytes, bytes_eq, nat_eq, bytes_eq_instance}
use go_tron.Prelude.Int.{ℤ, pos, negsuc, eqb_ℤ, ltb_ℤ}
use go_tron.Prelude.Int64.{to_word, add64, sub64}
use go_tron.Prelude.Word64.{to_word-lt, to_word-add64, to_word-sub64}
use go_tron.Prelude.Map.{lookup, insert, lookup-insert}
use go_tron.Prelude.Result.{Result, ok}
use go_tron.State.Names
use go_tron.State.{State, Account, bandwidth, energy, get_account, put_account}
use go_tron.State.Property.{
  allow_new_reward, get_or_default, get_int64, add_weight, add_resource_weight, total_net_weight,
  total_energy_weight,
}
use go_tron.Actuator.{Error}
use go_tron.Actuator.Funds.{IsKeyed, get_account-address}
use go_tron.Actuator.Stake2.{weight_v2, valid_v2_resource}
use go_tron.Actuator.Weights.{
  total_weight, weight_of, total_weight-put_account, total_weight-put_same, sub64_self,
}
use go_tron.Actuator.Executes.{add_resource_weight-accounts, get_account-same}

-- The network's total for a resource.
unfoldable pub network_weight : ℕ → State → ℤ
unfolding total_net_weight total_energy_weight
network_weight q st = if q == bandwidth then total_net_weight st else total_energy_weight st

-- The network's total, less the weights of all accounts, is what it was, modulo 2^64. Or it is 0
-- instead: with ALLOW_NEW_REWARD on, where it would have become negative.
abbrev pub Follows : ℕ → State → State → Type 0
Follows q st next =
    ((to_word (network_weight q next) + to_word (total_weight q st.accounts)) % 2 ^ 64
      ≡ (to_word (network_weight q st) + to_word (total_weight q next.accounts)) % 2 ^ 64)
    ⊎ ((allow_new_reward st ≡ true)
        × (network_weight q next ≡ pos 0)
        × (ltb_ℤ
              (add64 (network_weight q st)
                (sub64 (total_weight q next.accounts) (total_weight q st.accounts)))
              (pos 0)
            ≡ true))

-- The same by the call that the code makes.
abbrev IsAdded : ℕ → State → State → Type 0
IsAdded q st next =
    network_weight q next
    ≡ network_weight q (
        add_resource_weight q (sub64 (total_weight q next.accounts) (total_weight q st.accounts))
          st)

-- The call succeeds, and the network's total follows the accounts.
pub record Weighs (q : ℕ) (st : State) (r : Result Error State) : Type 0 where
  pub next : State
  pub returns : r ≡ ok next
  pub follows : Follows q st next

add_resource_weight-zero : (q : ℕ) (st : State) → add_resource_weight q (pos 0) st ≡ st
unfolding add_resource_weight
add_resource_weight-zero q st = ground arith

pub network_weight-same :
    (q : ℕ) (st next : State)
    → next.properties ≡ st.properties
    → network_weight q next ≡ network_weight q st
unfolding network_weight
network_weight-same q st next e = ground arith

unmoved :
    (q : ℕ) (st next : State)
    → total_weight q next.accounts ≡ total_weight q st.accounts
    → network_weight q st
      ≡ network_weight q (
          add_resource_weight q
            (sub64 (total_weight q next.accounts) (total_weight q st.accounts))
            st)
unmoved q st next same = sym (
    ap (λ d. network_weight q (add_resource_weight q d st))
      (ap (λ x. sub64 x (total_weight q st.accounts)) same
        ∙ sub64_self (total_weight q st.accounts))
    ∙ ap (λ s. network_weight q s) (add_resource_weight-zero q st))

to_word-none : (d : ℤ) → eqb_ℤ d (pos 0) ≡ true → to_word d ≡ 0
unfolding to_word
to_word-none (pos n) e = ground arith
to_word-none (negsuc n) e = ground arith

add_weight-value :
    (key : ℕ) (d : ℤ) (st : State)
    → let w = add64 (get_or_default key (pos 0) st) d in
      get_or_default key (pos 0) (add_weight key d st) ≡ (
        if eqb_ℤ d (pos 0)
        then get_or_default key (pos 0) st
        else if allow_new_reward st && ltb_ℤ w (pos 0)
        then pos 0
        else w)
unfolding add_weight get_or_default get_int64
add_weight-value key d st =
    let w = add64 (get_or_default key (pos 0) st) d in
    let v = if allow_new_reward st && ltb_ℤ w (pos 0) then pos 0 else w in
    ground (arith, lookup-insert key key v st.properties)

add_weight-same :
    (key : ℕ) (d : ℤ) (st : State)
    → let w = get_or_default key (pos 0) st in
      let moved = get_or_default key (pos 0) (add_weight key d st) in
      (to_word moved % 2 ^ 64 ≡ (to_word w + to_word d) % 2 ^ 64)
      ⊎ ((allow_new_reward st ≡ true) × (moved ≡ pos 0) × (ltb_ℤ (add64 w d) (pos 0) ≡ true))
add_weight-same key d st =
    let w = get_or_default key (pos 0) st in
    let moved = get_or_default key (pos 0) (add_weight key d st) in
    let value = add_weight-value key d st in
    elim (Bool-cases (eqb_ℤ d (pos 0))) [
      | inl e ↦
          let none_added : to_word d ≡ 0 = to_word-none d e in
          let kept : moved ≡ w = value ∙ rw e in inl (omega (arith, ap to_word kept, none_added))
      | inr ne ↦ elim (Bool-cases (allow_new_reward st)) [
        | inl on ↦ elim (Bool-cases (ltb_ℤ (add64 w d) (pos 0))) [
          | inl below ↦ inr (on, value ∙ rw (ne, on, below), below)
          | inr above ↦
              let added : moved ≡ add64 w d = value ∙ rw (ne, on, above) in
              inl (omega (arith, ap to_word added, to_word-add64 w d))
        ]
        | inr off ↦
            let added : moved ≡ add64 w d = value ∙ rw (ne, off) in
            inl (omega (arith, ap to_word added, to_word-add64 w d))
      ]
    ]

abbrev total_key : ℕ → ℕ
total_key q = if q == bandwidth then Names.total_net_weight else Names.total_energy_weight

network_weight-key :
    (q : ℕ) (st : State) → network_weight q st ≡ get_or_default (total_key q) (pos 0) st
unfolding network_weight total_net_weight total_energy_weight
network_weight-key q st = ground arith

network_weight-add_resource_weight :
    (q : ℕ) (d : ℤ) (st : State)
    → network_weight q (add_resource_weight q d st)
      ≡ get_or_default (total_key q) (pos 0) (add_weight (total_key q) d st)
unfolding add_resource_weight
network_weight-add_resource_weight q d st = network_weight-key q (add_resource_weight q d st)

IsAdded-Follows : (q : ℕ) (st next : State) → IsAdded q st next → Follows q st next
IsAdded-Follows q st next h =
    let after = total_weight q next.accounts in
    let before = total_weight q st.accounts in
    let d = sub64 after before in
    let moved = h ∙ network_weight-add_resource_weight q d st in
    elim (add_weight-same (total_key q) d st) [
      | inl e ↦ inl (
          omega (
            arith,
            ap to_word moved,
            ap to_word (network_weight-key q st),
            to_word-lt (network_weight q next),
            to_word-lt before,
            to_word-lt after,
            to_word-sub64 after before,
            e,
          ))
      | inr (on, none_left, below) ↦ inr (
        on,
        moved ∙ none_left,
        ap (λ w. ltb_ℤ (add64 w d) (pos 0)) (network_weight-key q st) ∙ below,
      )
    ]

pub same-Follows :
    (q : ℕ) (st next : State)
    → next.properties ≡ st.properties
    → total_weight q next.accounts ≡ total_weight q st.accounts
    → Follows q st next
same-Follows q st next e same =
    IsAdded-Follows q st next (network_weight-same q st next e ∙ unmoved q st next same)

add_weight-other :
    (key other : ℕ) (d : ℤ) (st : State)
    → (key == other) ≡ false
    → get_or_default other (pos 0) (add_weight key d st) ≡ get_or_default other (pos 0) st
unfolding add_weight get_or_default get_int64
add_weight-other key other d st ne =
    let w = add64 (get_or_default key (pos 0) st) d in
    let v = if allow_new_reward st && ltb_ℤ w (pos 0) then pos 0 else w in
    ground (arith, lookup-insert key other v st.properties)

network_weight-other :
    (q c : ℕ) (d : ℤ) (st : State)
    → valid_v2_resource q ≡ true
    → valid_v2_resource c ≡ true
    → (c == q) ≡ false
    → network_weight q (add_resource_weight c d st) ≡ network_weight q st
unfolding network_weight total_net_weight total_energy_weight add_resource_weight valid_v2_resource
network_weight-other q c d st hq hc ne = ground (
  arith,
  add_weight-other Names.total_net_weight Names.total_energy_weight d st refl,
  add_weight-other Names.total_energy_weight Names.total_net_weight d st refl,
)

-- One account is replaced by a version with the same weight, beside changes of other stores.
pub put-total_weight :
    (q : ℕ) (addr : Bytes) (a b : Account) (st other : State)
    → IsKeyed st.accounts
    → get_account addr st ≡ some a
    → other.accounts ≡ st.accounts
    → b.address ≡ a.address
    → weight_v2 b q ≡ weight_v2 a q
    → total_weight q (put_account b other).accounts ≡ total_weight q st.accounts
put-total_weight q addr a b st other keyed found same named equal =
    let home : b.address ≡ addr = named ∙ get_account-address addr a st keyed found in
    let there : get_account b.address other ≡ some a =
      ap (λ k. get_account k other) home ∙ get_account-same addr st other same ∙ found in
    total_weight-put_same q b (some a) other there equal ∙ ap (λ m. total_weight q m) same

pub put_account-properties :
    (a : Account) (st : State) → (put_account a st).properties ≡ st.properties
unfolding put_account
put_account-properties a st = refl

pub put-Follows :
    (q : ℕ) (addr : Bytes) (a b : Account) (st : State)
    → IsKeyed st.accounts
    → get_account addr st ≡ some a
    → b.address ≡ a.address
    → weight_v2 b q ≡ weight_v2 a q
    → Follows q st (put_account b st)
put-Follows q addr a b st keyed found named equal =
    same-Follows q st (put_account b st) (put_account-properties b st)
      (put-total_weight q addr a b st st keyed found refl named equal)

-- One account's stake of a resource changes, and the network's total with it.
pub stake-Follows :
    (q c : ℕ) (addr : Bytes) (a b : Account) (st : State)
    → valid_v2_resource q ≡ true
    → valid_v2_resource c ≡ true
    → IsKeyed st.accounts
    → get_account addr st ≡ some a
    → b.address ≡ a.address
    → ((c == q) ≡ false → weight_v2 b q ≡ weight_v2 a q)
    → Follows q st
        (put_account b (add_resource_weight c (sub64 (weight_v2 b c) (weight_v2 a c)) st))
stake-Follows q c addr a b st hq hc keyed found named apart =
    let delta = sub64 (weight_v2 b c) (weight_v2 a c) in
    let other = add_resource_weight c delta st in
    let next = put_account b other in
    let same = add_resource_weight-accounts c delta st in
    let home : b.address ≡ addr = named ∙ get_account-address addr a st keyed found in
    let there : get_account b.address other ≡ some a =
      ap (λ k. get_account k other) home ∙ get_account-same addr st other same ∙ found in
    let stored = network_weight-same q other next (put_account-properties b other) in
    let moved : sub64 (total_weight q next.accounts) (total_weight q st.accounts)
        ≡ sub64 (weight_v2 b q) (weight_v2 a q) =
      ap (λ m. sub64 (total_weight q next.accounts) (total_weight q m)) (sym same)
      ∙ total_weight-put_account q b (some a) other there in
    IsAdded-Follows q st next (elim (Bool-cases (c == q)) [
      | inl e ↦
          stored
          ∙ ap
              (λ r.
                network_weight q (add_resource_weight r (sub64 (weight_v2 b r) (weight_v2 a r)) st))
              ((==_iff c q).0 e)
          ∙ ap (λ d. network_weight q (add_resource_weight q d st)) (sym moved)
      | inr ne ↦
          stored
          ∙ network_weight-other q c delta st hq hc ne
          ∙ unmoved q st next
              (put-total_weight q addr a b st other keyed found same named (apart ne))
    ])
