-- ===== src/Tvm/Cost/Expansion.antt =====
-- The energy of memory expansion.
use Prim.Native.Nat.{max}
use go_tron.Prelude.Arith.{mul_mono_left, mul_mono_right}
use go_tron.Tvm.Cost.{mem_limit, mem_cost_words, mem_expand_cost}
use go_tron.Tvm.Memory.{Memory, len, resize, words_for_bytes}
use go_tron.Prelude.Result.{ok}
use go_tron.Prelude.{
  ℕ, ◌+◌, ◌-◌, ◌*◌, ◌/◌, ◌^◌, ◌≤◌, ◌<◌, ◌≡◌, ap, ◌∙◌, arith, replicate, length-append,
  length-replicate,
}

pub mem_cost_words-eq : (w : ℕ) → w < 2 ^ 20 → mem_cost_words w ≡ 3 * w + w * w / 512
unfolding mem_cost_words
mem_cost_words-eq w h = let square : w * w < 2 ^ 40 = grind arith in omega (arith, square)

abbrev pub words_of : ℕ → ℕ
words_of n = (n + 31) / 32

abbrev pub price_of : ℕ → ℕ
price_of w = 3 * w + w * w / 512

pub price_of_mono : (a b : ℕ) → a ≤ b → price_of a ≤ price_of b
price_of_mono a b h =
    let square : a * a ≤ b * b = grind (arith, mul_mono_left a b a, mul_mono_right b a b) in
    omega (arith, square)

-- The memory has k words and is within its limit.
abbrev pub HasWords : Memory → ℕ → Type 0
HasWords m k = (len m ≡ k * 32) × (k ≤ 98304)

pub resize-HasWords :
    (m : Memory) (k n : ℕ)
    → HasWords m k
    → n ≤ mem_limit
    → HasWords (resize m n) (max k (words_of n))
unfolding resize words_for_bytes
resize-HasWords m k n h l = ground (
  arith,
  length-append m.store (replicate (words_of n * 32 - len m) 0),
  length-replicate {A = ℕ} (words_of n * 32 - len m) 0,
)

mem_expand_cost-eq :
    (m : Memory) (k n : ℕ)
    → HasWords m k
    → n ≤ mem_limit
    → mem_expand_cost m n ≡ ok (price_of (max k (words_of n)) - price_of k)
unfolding mem_expand_cost words_for_bytes
mem_expand_cost-eq m k n h l =
    ground
      (arith, mem_cost_words-eq k, mem_cost_words-eq (words_of n), price_of_mono k (words_of n))

-- Memory is paid for once: growing it to cover one range and then another costs as much as
-- growing it to cover the larger of the two. It holds of a memory of whole words and ranges within
-- the 3 MB limit, where no charge fails.
pub mem_expand_cost-resize :
    (m : Memory) (k a b : ℕ)
    → HasWords m k
    → a ≤ mem_limit
    → b ≤ mem_limit
    → (c : ℕ) × (d : ℕ) × (mem_expand_cost m a ≡ ok c)
      × (mem_expand_cost (resize m a) b ≡ ok d)
      × (mem_expand_cost m (max a b) ≡ ok (c + d))
mem_expand_cost-resize m k a b h i j =
    let w = max k (words_of a) in
    let v = max w (words_of b) in
    let both : max k (words_of (max a b)) ≡ v = omega arith in
    let up = price_of_mono k w (omega arith) in
    let upper = price_of_mono w v (omega arith) in
    (
      price_of w - price_of k,
      price_of v - price_of w,
      mem_expand_cost-eq m k a h i,
      mem_expand_cost-eq (resize m a) w b (resize-HasWords m k a h i) j,
      mem_expand_cost-eq m k (max a b) h (omega arith) ∙ ap ok (rw both (omega (arith, up, upper))),
    )
