-- ===== src/Tvm/Cost.antt =====
-- internal/tvm/interpreter.go: the energy of memory, and conversions of 256-bit words to 64 bits.
pub mod Expansion
use go_tron.Prelude.{
  ℕ, ◌+◌, ◌-◌, ◌*◌, ◌/◌, ◌%◌, ◌^◌, Bool, true, false, if◌then◌else◌, ltb, leb, ◌==◌,
}
use go_tron.Prelude.Result.{Result, ok, err, ◌>>=◌}
use go_tron.Tvm.Errors.{Error, memory_overflow, gas_uint_overflow}
use go_tron.Tvm.Memory.{Memory, len, words_for_bytes}
use go_tron.Tvm.Meter.{sub_u64}

abbrev pub mem_limit : ℕ
mem_limit = 3145728

unfoldable pub mem_cost_words : ℕ → ℕ
mem_cost_words words = (3 * words + words * words % 2 ^ 64 / 512) % 2 ^ 64

unfoldable pub mem_expand_cost : Memory → ℕ → Result Error ℕ
unfolding words_for_bytes mem_cost_words
mem_expand_cost mem new_byte_size =
    if new_byte_size == 0
    then ok 0
    else if ltb mem_limit new_byte_size
    then err memory_overflow
    else let new_size = words_for_bytes new_byte_size * 32 in
      if leb new_size (len mem)
      then ok 0
      else ok (sub_u64 (mem_cost_words (new_size / 32)) (mem_cost_words (len mem / 32)))

unfoldable pub to_uint64 : ℕ → Result Error ℕ
to_uint64 v = if ltb v (2 ^ 64) then ok v else err gas_uint_overflow

unfoldable pub clamp_u64 : ℕ → ℕ
clamp_u64 v = if ltb v (2 ^ 64) then v else 2 ^ 64 - 1

unfoldable pub mem_access_size : ℕ → ℕ → Result Error ℕ
unfolding to_uint64
mem_access_size offset size = if size == 0 then ok 0 else do
  off ← to_uint64 offset
  sz ← to_uint64 size
  let end = (off + sz) % 2 ^ 64
  if ltb end off then err gas_uint_overflow else ok end
