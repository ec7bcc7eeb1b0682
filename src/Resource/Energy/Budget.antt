-- ===== src/Resource/Energy/Budget.antt =====
-- The energy budget of a contract transaction against the bill for the energy it used.
use go_tron.Prelude.Arith.{mul_mono_left, div-mul-le}
use go_tron.Prelude.{ℕ, ◌+◌, ◌-◌, ◌*◌, ◌/◌, ◌^◌, ◌≤◌, ◌<◌, ◌≡◌, Bool, arith}
use go_tron.Prelude.Int.{pos, ◌≤ℤ◌}
use go_tron.Prelude.Int64.{add64-pos, div64-pos, clamp64-sub64}
use go_tron.Resource.Energy.{compute, account_energy_limit}
use go_tron.Resource.Energy.Split.{
  bill_of, exact_price, exact_origin, effective_price-pos, compute-exact_receipt, min_of,
}

-- The budget over exact arithmetic.
abbrev pub exact_limit : ℕ → ℕ → ℕ → ℕ → ℕ → ℕ
exact_limit frozen balance call_value fee_limit fee =
    min_of (frozen + (balance - call_value) / exact_price fee) (fee_limit / exact_price fee)

account_energy_limit-pos :
    (frozen balance call_value fee_limit fee : ℕ)
    → frozen + balance < 2 ^ 63
    → call_value < 2 ^ 63
    → fee_limit < 2 ^ 63
    → account_energy_limit (pos frozen) (pos balance) (pos call_value) (pos fee_limit) (pos fee)
      ≡ pos (exact_limit frozen balance call_value fee_limit fee)
unfolding account_energy_limit
account_energy_limit-pos frozen balance call_value fee_limit fee h k l =
    let q = (balance - call_value) / exact_price fee in
    let q_le : q ≤ balance = omega arith in
    rw
      (
        effective_price-pos fee,
        clamp64-sub64 balance call_value (omega arith) k,
        div64-pos (balance - call_value) (exact_price fee) (omega arith),
        div64-pos fee_limit (exact_price fee) l,
        add64-pos frozen q (omega (arith, q_le)),
      )
      (ground arith)

exact_price-pos : (fee : ℕ) → 0 < exact_price fee
exact_price-pos fee = ground arith

-- Over exact arithmetic a bill within the budget is paid.
fee-within :
    (used frozen origin spendable fee_limit price : ℕ)
    → used ≤ min_of (frozen + spendable / price) (fee_limit / price)
    → ((used - origin - frozen) * price ≤ spendable) × (used * price ≤ fee_limit)
fee-within used frozen origin spendable fee_limit price h =
    let burned : used - origin - frozen ≤ spendable / price = ground arith in
    let covered : used ≤ fee_limit / price = ground arith in
    let fst = mul_mono_left (used - origin - frozen) (spendable / price) price burned in
    let snd = mul_mono_left used (fee_limit / price) price covered in
    (omega (arith, fst, div-mul-le spendable price), omega (arith, snd, div-mul-le fee_limit price))

-- A contract transaction that stays within the budget of `AccountEnergyLimit` can be paid for:
-- the fee that `Compute` writes is at most what the caller's balance holds beyond the call value,
-- and at most the fee limit of the transaction. It holds for every split with the contract's
-- origin, of numbers that are not negative and small enough for their products.
pub compute-account_energy_limit :
    (used frozen balance call_value fee_limit origin percent limit fee : ℕ) (same : Bool)
    → frozen + balance < 2 ^ 63
    → call_value < 2 ^ 63
    → fee_limit < 2 ^ 63
    → used * 100 < 2 ^ 63
    → percent < 2 ^ 63
    → pos used
      ≤ℤ account_energy_limit (pos frozen) (pos balance) (pos call_value) (pos fee_limit) (pos fee)
    → ((compute (bill_of used frozen origin same percent limit fee)).energy_fee
        ≤ℤ pos (balance - call_value))
      × ((compute (bill_of used frozen origin same percent limit fee)).energy_fee ≤ℤ pos fee_limit)
compute-account_energy_limit used frozen balance call_value fee_limit origin percent limit fee same
      h1 h2 h3 h4 h5 h6 =
    let from = exact_origin used origin same percent limit in
    let within =
      rw (account_energy_limit-pos frozen balance call_value fee_limit fee h1 h2 h3) at h6 in
    let fits : used ≤ exact_limit frozen balance call_value fee_limit fee = omega (arith, within) in
    let paid =
      fee-within used frozen from (balance - call_value) fee_limit (exact_price fee) fits in
    let receipt =
      compute-exact_receipt used frozen origin same percent limit fee h4 h5 (omega (arith, paid)) in
    let burned = mul_mono_left (used - from - frozen) used (exact_price fee) (omega arith) in
    rw receipt (omega (arith, paid), omega (arith, paid, burned))
