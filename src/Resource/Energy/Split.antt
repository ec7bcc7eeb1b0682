-- ===== src/Resource/Energy/Split.antt =====
-- Who pays the energy of a contract transaction: `Compute` against exact arithmetic.
use go_tron.Prelude.Arith.{mul_mono_left, mul_mono_right}
use go_tron.Prelude.{
  ℕ, zero, suc, ◌-◌, ◌*◌, ◌/◌, ◌^◌, ◌≤◌, ◌<◌, ◌≡◌, refl, Bool, true, false, if◌then◌else◌, arith,
  ltb,
}
use go_tron.Prelude.Int.{pos, leb_ℤ}
use go_tron.Prelude.Int64.{sub64-pos, mul64-pos, div64-pos, clamp64-sub64}
use go_tron.Resource.Energy.{Bill, Receipt, effective_price, origin_share, settle, compute}

-- A bill over numbers that are not negative.
abbrev pub bill_of : ℕ → ℕ → ℕ → Bool → ℕ → ℕ → ℕ → Bill
bill_of used caller origin same percent limit price = record {
  energy_used = pos used;
  caller_energy = pos caller;
  origin_energy = pos origin;
  caller_is_origin = same;
  consume_user_percent = pos percent;
  origin_energy_limit = pos limit;
  energy_price = pos price;
}

-- The same split over exact arithmetic.
abbrev pub min_of : ℕ → ℕ → ℕ
min_of a b = if ltb b a then b else a

abbrev pub exact_price : ℕ → ℕ
exact_price fee = if ltb 100 fee then fee else 100

abbrev pub exact_origin : ℕ → ℕ → Bool → ℕ → ℕ → ℕ
exact_origin used origin same percent limit =
    if same then 0 else min_of (used * (100 - percent) / 100) (min_of origin limit)

pub effective_price-pos : (p : ℕ) → effective_price (pos p) ≡ pos (exact_price p)
unfolding effective_price
effective_price-pos p = ground arith

origin_share-pos :
    (used caller origin : ℕ) (same : Bool) (percent limit price : ℕ)
    → used * 100 < 2 ^ 63
    → percent < 2 ^ 63
    → origin_share (bill_of used caller origin same percent limit price)
      ≡ pos (exact_origin used origin same percent limit)
unfolding origin_share
origin_share-pos used caller origin true percent limit price h k = refl
origin_share-pos used caller origin false percent limit price h k =
    rw (clamp64-sub64 100 percent (omega arith) k) (
      rw (mul64-pos used (100 - percent) (omega (arith, mul_mono_right used (100 - percent) 100))) (
        rw
          (div64-pos (used * (100 - percent)) 100
            (omega (arith, mul_mono_right used (100 - percent) 100)))
          (ground arith)))

exact_origin-le :
    (used origin : ℕ) (same : Bool) (percent limit : ℕ)
    → exact_origin used origin same percent limit ≤ used
exact_origin-le used origin true percent limit = omega arith
exact_origin-le used origin false percent limit =
    let h : used * (100 - percent) ≤ used * 100 =
      mul_mono_right used (100 - percent) 100 (omega arith) in
    ground arith

-- The bill that `Compute` gives over exact arithmetic.
abbrev pub exact_receipt : ℕ → ℕ → ℕ → ℕ → Receipt
exact_receipt used caller origin price = record {
  energy_usage = pos (min_of (used - origin) caller);
  origin_energy_usage = pos origin;
  energy_fee = pos ((used - origin - caller) * price);
  energy_usage_total = pos used;
}

settle-exact_receipt :
    (used caller origin price : ℕ)
    → origin ≤ used
    → used * price < 2 ^ 63
    → 0 < price
    → settle (pos used) (pos origin) (pos caller) (pos price)
      ≡ exact_receipt used caller origin price
unfolding settle
settle-exact_receipt used caller origin price h f p =
    let small : used < 2 ^ 63 = omega (arith, mul_mono_right used 1 price p) in
    let fits : (used - origin - caller) * price < 2 ^ 63 =
      omega (arith, mul_mono_left (used - origin - caller) used price (omega arith)) in
    rw (sub64-pos used origin h small) (
      ground
        (arith, sub64-pos (used - origin) caller, mul64-pos (used - origin - caller) price fits))

-- The bill that `Compute` writes, in wrapped 64-bit arithmetic, is the one of exact arithmetic:
-- the origin pays its percentage, capped by its staked energy and by the contract's limit, the
-- caller pays from its staked energy, and the rest is burned at the price. It holds of every bill
-- over numbers that are not negative whose products fit.
pub compute-exact_receipt :
    (used caller origin : ℕ) (same : Bool) (percent limit price : ℕ)
    → used * 100 < 2 ^ 63
    → percent < 2 ^ 63
    → used * exact_price price < 2 ^ 63
    → compute (bill_of used caller origin same percent limit price)
      ≡ exact_receipt used caller (exact_origin used origin same percent limit) (exact_price price)
unfolding compute
compute-exact_receipt zero caller origin same percent limit price h k f =
    ground (arith, exact_origin-le zero origin same percent limit)
compute-exact_receipt (suc used) caller origin same percent limit price h k f =
    let some_used : leb_ℤ (pos (suc used)) (pos 0) ≡ false = ground arith in
    rw
      (
        some_used,
        origin_share-pos (suc used) caller origin same percent limit price h k,
        effective_price-pos price,
      )
      (settle-exact_receipt (suc used) caller (exact_origin (suc used) origin same percent limit)
        (exact_price price) (exact_origin-le (suc used) origin same percent limit) f (ground arith))
