-- ===== src/Prelude/Word64.antt =====
-- The bit patterns of wrapped arithmetic: it is addition and subtraction modulo 2^64.
use go_tron.Prelude.{ℕ, ◌+◌, ◌-◌, ◌%◌, ◌^◌, ◌<◌, ◌≡◌, ◌∙◌, ap, refl, arith}
use go_tron.Prelude.Int.{ℤ, pos, negsuc, ◌+ℤ◌, ◌-ℤ◌}
use go_tron.Prelude.Int64.{IsInt64, to_word, of_word, wrap64, add64, sub64}

pub to_word-lt : (z : ℤ) → to_word z < 2 ^ 64
unfolding to_word
to_word-lt (pos n) = omega arith
to_word-lt (negsuc n) = omega arith

to_word-of_word : (w : ℕ) → w < 2 ^ 64 → to_word (of_word w) ≡ w
unfolding to_word of_word
to_word-of_word w h = ground arith

pub to_word-wrap64 : (z : ℤ) → to_word (wrap64 z) ≡ to_word z
unfolding wrap64
to_word-wrap64 z = to_word-of_word (to_word z) (to_word-lt z)

pub to_word-add : (a b : ℤ) → to_word (a +ℤ b) ≡ (to_word a + to_word b) % 2 ^ 64
unfolding to_word ◌+ℤ◌
to_word-add (pos a) (pos b) = ground arith
to_word-add (pos a) (negsuc b) = ground arith
to_word-add (negsuc a) (pos b) = ground arith
to_word-add (negsuc a) (negsuc b) = ground arith

pub to_word-sub : (a b : ℤ) → to_word (a -ℤ b) ≡ (to_word a + 2 ^ 64 - to_word b) % 2 ^ 64
unfolding to_word ◌-ℤ◌
to_word-sub (pos a) (pos b) = ground arith
to_word-sub (pos a) (negsuc b) = ground arith
to_word-sub (negsuc a) (pos b) = ground arith
to_word-sub (negsuc a) (negsuc b) = ground arith

pub to_word-add64 : (a b : ℤ) → to_word (add64 a b) ≡ (to_word a + to_word b) % 2 ^ 64
unfolding add64
to_word-add64 a b = to_word-wrap64 (a +ℤ b) ∙ to_word-add a b

pub to_word-sub64 : (a b : ℤ) → to_word (sub64 a b) ≡ (to_word a + 2 ^ 64 - to_word b) % 2 ^ 64
unfolding sub64
to_word-sub64 a b = to_word-wrap64 (a -ℤ b) ∙ to_word-sub a b

pub ruleset words = (arith, to_word-lt, to_word-add64, to_word-sub64)

pub to_word-zero : to_word (pos 0) ≡ 0
unfolding to_word
to_word-zero = refl

-- An int64 is known by its bit pattern.
pub to_word-injective : (a b : ℤ) → IsInt64 a → IsInt64 b → to_word a ≡ to_word b → a ≡ b
unfolding to_word
to_word-injective (pos a) (pos b) h k e = ground arith
to_word-injective (pos a) (negsuc b) h k e = ground arith
to_word-injective (negsuc a) (pos b) h k e = ground arith
to_word-injective (negsuc a) (negsuc b) h k e = ground arith
