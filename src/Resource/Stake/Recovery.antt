-- ===== src/Resource/Stake/Recovery.antt =====
-- The recovery of spent energy: what the fixed-point average gives back.
use go_tron.Resource.Stake.{Float64, divide_ceil, decayed, increase_energy_usage}
use go_tron.Prelude.Arith.{mul_mono_left, mul_mono_right, div-mul-le, lt-div-mul}
use go_tron.Prelude.{
  ℕ, ◌+◌, ◌-◌, ◌*◌, ◌/◌, ◌^◌, ◌≤◌, ◌<◌, ◌≡◌, refl, ap, ◌∙◌, false, if◌then◌else◌, arith, ltb,
}
use go_tron.Prelude.Int.{pos, leb_ℤ, ◌-ℤ◌, ◌*ℤ◌}
use go_tron.Prelude.Int64.{quot, add64-pos, mul64-pos, div64-pos}

-- The quotient rounded up.
abbrev pub ceil : ℕ → ℕ → ℕ
ceil n d = if ltb 0 (n - d * (n / d)) then n / d + 1 else n / d

divide_ceil-pos : (n d : ℕ) → n < 2 ^ 62 → divide_ceil (pos n) (pos d) ≡ pos (ceil n d)
unfolding divide_ceil quot ◌-ℤ◌ ◌*ℤ◌
divide_ceil-pos n d h = rw (div64-pos n d (omega arith)) (ground (arith, add64-pos (n / d) 1))

-- Up to the unit of the average, `ceil` undoes the division.
ceil-bounds : (n d : ℕ) → 0 < d → (n ≤ ceil n d * d) × (ceil n d * d < n + d)
ceil-bounds n d h = grind (arith, div-mul-le n d, lt-div-mul n d)

module _ (f : Float64) where
  decayed-same : (n slot w : ℕ) → decayed f (pos n) (pos slot) (pos slot) (pos w) ≡ pos n
  unfolding decayed
  decayed-same n slot w = ground arith

  decayed-past :
      (n slot later w : ℕ)
      → 0 < w
      → later < 2 ^ 62
      → slot + w ≤ later
      → decayed f (pos n) (pos slot) (pos later) (pos w) ≡ pos 0
  unfolding decayed
  decayed-past n slot later w h k l = rw (add64-pos slot w (omega arith)) (ground arith)

  -- The new usage, from the decayed average.
  increase-average :
      (usage add last now w d : ℕ)
      → 0 < w
      → w ≤ 500000
      → usage < 2 ^ 40
      → add < 2 ^ 40
      → decayed f (pos (ceil (usage * 1000000) w)) (pos last) (pos now) (pos w) ≡ pos d
      → d ≤ ceil (usage * 1000000) w
      → increase_energy_usage f (pos usage) (pos add) (pos last) (pos now) (pos w)
        ≡ pos ((d + ceil (add * 1000000) w) * w / 1000000)
  unfolding increase_energy_usage
  increase-average usage add last now w d h1 h2 h3 h4 h5 h6 =
      let some_window : leb_ℤ (pos w) (pos 0) ≡ false = ground arith in
      let added = ceil-bounds (add * 1000000) w h1 in
      let stored = ceil-bounds (usage * 1000000) w h1 in
      let c = ceil (add * 1000000) w in
      let decay = mul_mono_left d (ceil (usage * 1000000) w) w h6 in
      let split : (d + c) * w ≡ d * w + c * w = grind arith in
      let small : d + c ≤ (d + c) * w = omega (arith, mul_mono_right (d + c) 1 w h1) in
      rw
        (
          some_window,
          mul64-pos usage 1000000 (omega arith),
          divide_ceil-pos (usage * 1000000) w (omega arith),
          h5,
          mul64-pos add 1000000 (omega arith),
          divide_ceil-pos (add * 1000000) w (omega arith),
          add64-pos d c (omega (arith, added, stored, decay, split, small)),
          mul64-pos (d + c) w (omega (arith, added, stored, decay, split)),
          div64-pos ((d + c) * w) 1000000 (omega (arith, added, stored, decay, split)),
        )
        refl

  -- Energy spent in one slot adds up exactly, and past the recovery window nothing of the earlier
  -- usage is left: the new usage is what was added. It holds for windows of at most half the
  -- precision (the source's default of 28,800 slots is one) and usages below 2^40, whatever the
  -- arithmetic of `float64` is.
  pub increase_energy_usage-exact :
      (usage add slot later w : ℕ)
      → 0 < w
      → w ≤ 500000
      → usage < 2 ^ 40
      → add < 2 ^ 40
      → later < 2 ^ 62
      → slot + w ≤ later
      → (increase_energy_usage f (pos usage) (pos add) (pos slot) (pos slot) (pos w)
          ≡ pos (usage + add))
        × (increase_energy_usage f (pos usage) (pos add) (pos slot) (pos later) (pos w) ≡ pos add)
  increase_energy_usage-exact usage add slot later w h1 h2 h3 h4 h5 h6 =
      let a = usage * 1000000 in
      let b = add * 1000000 in
      let now =
        increase-average usage add slot slot w (ceil a w) h1 h2 h3 h4
          (decayed-same (ceil a w) slot w) (omega arith) in
      let past =
        increase-average usage add slot later w 0 h1 h2 h3 h4
          (decayed-past (ceil a w) slot later w h1 h5 h6) (omega arith) in
      let added = ceil-bounds b w h1 in
      let stored = ceil-bounds a w h1 in
      let split : (ceil a w + ceil b w) * w ≡ ceil a w * w + ceil b w * w = grind arith in
      (now ∙ ap pos (omega (arith, added, stored, split)), past ∙ ap pos (omega (arith, added)))
