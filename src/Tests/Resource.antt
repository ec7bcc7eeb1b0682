-- ===== src/Tests/Resource.antt =====
-- The energy of a transaction that used 5,000 units, and of an account over a day's window.
use go_tron.Prelude.{◌-◌, ◌≡◌, refl, false, arith}
use go_tron.Prelude.Int.{ℤ, pos, ◌+ℤ◌, ◌-ℤ◌, ◌*ℤ◌, ◌≤ℤ◌}
use go_tron.Prelude.Int64.{quot, add64, sub64, mul64, div64, wrap64}
use go_tron.Resource.Energy.{compute, settle, origin_share, effective_price, account_energy_limit}
use go_tron.Resource.Energy.Split.{
  bill_of, exact_receipt, exact_origin, exact_price, compute-exact_receipt,
}
use go_tron.Resource.Energy.Budget.{compute-account_energy_limit}
use go_tron.Resource.Stake.{Float64, increase_energy_usage}
use go_tron.Resource.Stake.Recovery.{increase_energy_usage-exact}

-- 40% of 5,000 are the caller's; the origin has 1,000 staked.
burned : (compute (bill_of 5000 2000 1000 false 40 9000 420)).energy_fee ≡ pos 840000
unfolding compute settle origin_share effective_price add64 sub64 mul64 div64 wrap64 quot ◌-ℤ◌ ◌*ℤ◌
burned = refl

compute-exact_receipt_example :
    compute (bill_of 5000 2000 1000 false 40 9000 420)
    ≡ exact_receipt 5000 2000 (exact_origin 5000 1000 false 40 9000) (exact_price 420)
compute-exact_receipt_example =
    compute-exact_receipt 5000 2000 1000 false 40 9000 420 (omega arith) (omega arith) (omega arith)

-- 21,426 units can be bought next to the staked ones.
budget :
    account_energy_limit (pos 2000) (pos 9000000) (pos 1000) (pos 100000000) (pos 420) ≡ pos 23426
unfolding account_energy_limit effective_price add64 sub64 div64 wrap64 quot ◌+ℤ◌ ◌-ℤ◌
budget = refl

compute-account_energy_limit_example :
    ((compute (bill_of 5000 2000 1000 false 40 9000 420)).energy_fee ≤ℤ pos (9000000 - 1000))
    × ((compute (bill_of 5000 2000 1000 false 40 9000 420)).energy_fee ≤ℤ pos 100000000)
compute-account_energy_limit_example =
    compute-account_energy_limit 5000 2000 9000000 1000 100000000 1000 40 9000 420 false
      (omega arith) (omega arith) (omega arith) (omega arith) (omega arith)
      (rw budget (omega arith))

-- Whole numbers for `float64`.
abbrev pub whole : Float64
whole = record {
  float = ℤ;
  of_int64 = λ z. z;
  to_int64 = λ z. z;
  mul = ◌*ℤ◌;
  div = quot;
  add = ◌+ℤ◌;
  floor = λ z. z;
  half = pos 0;
}

increase_energy_usage-exact_example :
    (increase_energy_usage whole (pos 700) (pos 300) (pos 10) (pos 10) (pos 28800) ≡ pos 1000)
    × (increase_energy_usage whole (pos 700) (pos 300) (pos 10) (pos 40000) (pos 28800) ≡ pos 300)
increase_energy_usage-exact_example =
    increase_energy_usage-exact whole 700 300 10 40000 28800 (omega arith) (omega arith)
      (omega arith) (omega arith) (omega arith) (omega arith)
