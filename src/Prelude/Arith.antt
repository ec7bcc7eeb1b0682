-- ===== src/Prelude/Arith.antt =====
-- Products and quotients of native numbers, where they are monotone.
use go_tron.Prelude.{ℕ, ◌+◌, ◌*◌, ◌/◌, ◌≤◌, ◌<◌, arith}

pub mul_mono_right : (a b c : ℕ) → b ≤ c → a * b ≤ a * c
mul_mono_right a b c h = grind arith

pub mul_mono_left : (a b c : ℕ) → a ≤ b → a * c ≤ b * c
mul_mono_left a b c h = grind arith

-- A quotient times its divisor is at most the number.
pub div-mul-le : (a b : ℕ) → a / b * b ≤ a
div-mul-le a b = grind arith

-- A number is below the next multiple.
pub lt-div-mul : (a b : ℕ) → 0 < b → a < a / b * b + b
lt-div-mul a b h = grind arith

pub div-le : (a b : ℕ) → a / b ≤ a
div-le a b = omega arith
