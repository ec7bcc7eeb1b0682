-- ===== src/Actuator/Weights.antt =====
-- internal/actuator/stake2.go and stake2_delegate.go: the staked weight of an account, and of all
-- accounts together, under the changes that the actuators make.
use go_tron.Prelude.{
  ℕ, ◌+◌, ◌%◌, ◌^◌, ◌==◌, ◌≡◌, ap, true, false, Option, none, some, List, [], ◌∷◌, arith,
  if◌then◌else◌,
}
use go_tron.Prelude.Bytes.{Bytes, bytes_eq_instance}
use go_tron.Prelude.Int.{ℤ, pos, ◌+ℤ◌, ◌-ℤ◌}
use go_tron.Prelude.Int64.{to_word, add64, sub64, div64, wrap64-IsInt64, IsInt64}
use go_tron.Prelude.Word64.{
  to_word-lt, to_word-add64, to_word-sub64, to_word-zero, to_word-injective,
}
use go_tron.Prelude.Map.{Map, lookup, insert}
use go_tron.State.{State, Account, FreezeV2, get_account, put_account}
use go_tron.Actuator.{trx_precision}
use go_tron.Actuator.Stake2.{
  sum_frozen_v2, frozen_v2_amount, delegated_out_v2, weight_v2, add_entry, add_frozen_v2,
  valid_v2_resource,
}
use go_tron.Actuator.Delegate.{
  add_delegated_v2, lend, reclaim, give_back, add_acquired_delegated_v2,
}

-- The weights of all accounts for a resource, in the wrapped sum of the network's total.
unfoldable pub total_weight : ℕ → Map Bytes Account → ℤ
total_weight q [] = pos 0
total_weight q ((k, a) ∷ m) = add64 (weight_v2 a q) (total_weight q m)

abbrev frozen_of : ℕ → List FreezeV2 → ℕ
frozen_of q [] = 0
frozen_of q (f ∷ fs) = (if f.code == q then to_word f.amount else 0) + frozen_of q fs

sum_frozen_v2-word :
    (q : ℕ) (fs : List FreezeV2) (t : ℤ)
    → to_word (sum_frozen_v2 q fs t) ≡ (to_word t + frozen_of q fs) % 2 ^ 64
unfolding sum_frozen_v2
sum_frozen_v2-word q [] t = omega (arith, to_word-lt t)
sum_frozen_v2-word q (f ∷ fs) t = ground (
  arith,
  to_word-add64 t f.amount,
  sum_frozen_v2-word q fs t,
  sum_frozen_v2-word q fs (add64 t f.amount),
)

frozen_of-add_entry :
    (q c : ℕ) (d : ℤ) (fs : List FreezeV2)
    → frozen_of q (add_entry c d fs) % 2 ^ 64
      ≡ (frozen_of q fs + (if c == q then to_word d else 0)) % 2 ^ 64
unfolding add_entry
frozen_of-add_entry q c d [] = ground arith
frozen_of-add_entry q c d (f ∷ fs) =
    ground (arith, to_word-add64 f.amount d, frozen_of-add_entry q c d fs)

-- The weight is a function of the 64-bit pattern of what is frozen and lent.
unfoldable staked : ℕ → Account → ℕ
staked q a = frozen_of q a.frozen_v2 + to_word (delegated_out_v2 a q)

add64-IsInt64 : (x y : ℤ) → IsInt64 (add64 x y)
unfolding add64
add64-IsInt64 x y = wrap64-IsInt64 (x +ℤ y)

weight_v2-staked :
    (q : ℕ) (a b : Account)
    → staked q b % 2 ^ 64 ≡ staked q a % 2 ^ 64
    → weight_v2 b q ≡ weight_v2 a q
unfolding weight_v2 frozen_v2_amount staked
weight_v2-staked q a b h =
    let sum_a = sum_frozen_v2 q a.frozen_v2 (pos 0) in
    let sum_b = sum_frozen_v2 q b.frozen_v2 (pos 0) in
    ap (λ z. div64 z trx_precision)
      (to_word-injective (add64 sum_b (delegated_out_v2 b q)) (add64 sum_a (delegated_out_v2 a q))
        (add64-IsInt64 sum_b (delegated_out_v2 b q)) (add64-IsInt64 sum_a (delegated_out_v2 a q))
        (omega (
          arith,
          to_word-zero,
          to_word-add64 sum_a (delegated_out_v2 a q),
          to_word-add64 sum_b (delegated_out_v2 b q),
          sum_frozen_v2-word q a.frozen_v2 (pos 0),
          sum_frozen_v2-word q b.frozen_v2 (pos 0),
        )))

-- What is lent stays in the weight, for either resource.
pub weight_v2-lend :
    (q c : ℕ) (d : ℤ) (a : Account)
    → valid_v2_resource q ≡ true
    → valid_v2_resource c ≡ true
    → weight_v2 (lend c d a) q ≡ weight_v2 a q
unfolding lend add_delegated_v2 add_frozen_v2 staked delegated_out_v2 valid_v2_resource
weight_v2-lend q c d a hq hc = weight_v2-staked q a (lend c d a) (
    ground (
      arith,
      to_word-lt d,
      to_word-zero,
      to_word-sub64 (pos 0) d,
      to_word-add64 a.delegated_frozen_v2_balance_for_bandwidth d,
      to_word-add64 a.account_resource.delegated_frozen_v2_balance_for_energy d,
      frozen_of-add_entry q c (sub64 (pos 0) d) a.frozen_v2,
    ))

pub weight_v2-reclaim :
    (q c : ℕ) (d : ℤ) (a : Account)
    → valid_v2_resource q ≡ true
    → valid_v2_resource c ≡ true
    → weight_v2 (reclaim c d a) q ≡ weight_v2 a q
unfolding reclaim add_delegated_v2 add_frozen_v2 staked delegated_out_v2 valid_v2_resource
weight_v2-reclaim q c d a hq hc = weight_v2-staked q a (reclaim c d a) (
    ground (
      arith,
      to_word-lt d,
      to_word-zero,
      to_word-sub64 (pos 0) d,
      to_word-add64 a.delegated_frozen_v2_balance_for_bandwidth (sub64 (pos 0) d),
      to_word-add64 a.account_resource.delegated_frozen_v2_balance_for_energy (sub64 (pos 0) d),
      frozen_of-add_entry q c d a.frozen_v2,
    ))

-- A change of one resource's stake leaves the other's weight alone.
pub weight_v2-add_frozen_v2 :
    (q c : ℕ) (d : ℤ) (a : Account)
    → (c == q) ≡ false
    → weight_v2 (add_frozen_v2 c d a) q ≡ weight_v2 a q
unfolding add_frozen_v2 staked delegated_out_v2
weight_v2-add_frozen_v2 q c d a ne =
    weight_v2-staked q a (add_frozen_v2 c d a)
      (ground (arith, frozen_of-add_entry q c d a.frozen_v2))

pub weight_v2-add_acquired_delegated_v2 :
    (q c : ℕ) (d : ℤ) (a : Account) → weight_v2 (add_acquired_delegated_v2 c d a) q ≡ weight_v2 a q
unfolding weight_v2 frozen_v2_amount delegated_out_v2 add_acquired_delegated_v2
weight_v2-add_acquired_delegated_v2 q c d a = ground arith

pub weight_v2-give_back :
    (q c : ℕ) (d : ℤ) (a : Account) → weight_v2 (give_back c d a) q ≡ weight_v2 a q
unfolding weight_v2 frozen_v2_amount delegated_out_v2 give_back
weight_v2-give_back q c d a = ground arith

abbrev pub weight_of : ℕ → Option Account → ℤ
weight_of q none = pos 0
weight_of q (some a) = weight_v2 a q

total_weight-insert :
    (q : ℕ) (k : Bytes) (a : Account) (o : Option Account) (m : Map Bytes Account)
    → lookup k m ≡ o
    → (to_word (total_weight q (insert k a m)) + to_word (weight_of q o)) % 2 ^ 64
      ≡ (to_word (total_weight q m) + to_word (weight_v2 a q)) % 2 ^ 64
unfolding total_weight lookup insert
total_weight-insert q k a none [] e =
    omega (arith, to_word-zero, to_word-add64 (weight_v2 a q) (pos 0))
total_weight-insert q k a (some b) [] e = cc
total_weight-insert q k a o ((j, c) ∷ m) e = ground (
  arith,
  to_word-add64 (weight_v2 a q) (total_weight q m),
  to_word-add64 (weight_v2 c q) (total_weight q m),
  to_word-add64 (weight_v2 c q) (total_weight q (insert k a m)),
  total_weight-insert q k a o m,
)

total_weight-IsInt64 : (q : ℕ) (m : Map Bytes Account) → IsInt64 (total_weight q m)
unfolding total_weight
total_weight-IsInt64 q [] = ground arith
total_weight-IsInt64 q ((k, a) ∷ m) = add64-IsInt64 (weight_v2 a q) (total_weight q m)

sub64-IsInt64 : (x y : ℤ) → IsInt64 (sub64 x y)
unfolding sub64
sub64-IsInt64 x y = wrap64-IsInt64 (x -ℤ y)

pub sub64_self : (x : ℤ) → sub64 x x ≡ pos 0
sub64_self x =
    to_word-injective (sub64 x x) (pos 0) (sub64-IsInt64 x x) (ground arith)
      (omega (arith, to_word-lt x, to_word-zero, to_word-sub64 x x))

-- A store moves the sum by the difference of the weights.
pub total_weight-put_account :
    (q : ℕ) (a : Account) (o : Option Account) (st : State)
    → get_account a.address st ≡ o
    → sub64 (total_weight q (put_account a st).accounts) (total_weight q st.accounts)
      ≡ sub64 (weight_v2 a q) (weight_of q o)
unfolding get_account put_account
total_weight-put_account q a o st e =
    let next = total_weight q (insert a.address a st.accounts) in
    let before = total_weight q st.accounts in
    to_word-injective (sub64 next before) (sub64 (weight_v2 a q) (weight_of q o))
      (sub64-IsInt64 next before) (sub64-IsInt64 (weight_v2 a q) (weight_of q o))
      (omega (
        arith,
        to_word-lt next,
        to_word-lt before,
        to_word-lt (weight_v2 a q),
        to_word-lt (weight_of q o),
        to_word-sub64 next before,
        to_word-sub64 (weight_v2 a q) (weight_of q o),
        total_weight-insert q a.address a o st.accounts e,
      ))

pub total_weight-put_same :
    (q : ℕ) (a : Account) (o : Option Account) (st : State)
    → get_account a.address st ≡ o
    → weight_v2 a q ≡ weight_of q o
    → total_weight q (put_account a st).accounts ≡ total_weight q st.accounts
unfolding get_account put_account
total_weight-put_same q a o st e same =
    let next = total_weight q (insert a.address a st.accounts) in
    let before = total_weight q st.accounts in
    to_word-injective next before (total_weight-IsInt64 q (insert a.address a st.accounts))
      (total_weight-IsInt64 q st.accounts)
      (omega (
        arith,
        to_word-lt next,
        to_word-lt before,
        ap to_word same,
        total_weight-insert q a.address a o st.accounts e,
      ))
