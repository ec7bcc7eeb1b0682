-- ===== src/Tvm/Gas/Floor.antt =====
-- A call and a creation cost at least what the child may be given for free.
use go_tron.Tvm.Gas.{
  Scope, operand, expand_to, with_words, call_args_mem, gas_call, gas_callcode, gas_call_no_value,
  gas_create, gas_create2,
}
use go_tron.Tvm.Memory.{Memory, len, words_for_bytes}
use go_tron.Tvm.Cost.{mem_expand_cost, mem_access_size, to_uint64}
use go_tron.Tvm.Cost.Expansion.{mem_cost_words-eq, price_of_mono}
use go_tron.Prelude.Result.{ok, >>=-succeeds}
use go_tron.Prelude.{ℕ, ◌+◌, ◌/◌, ◌^◌, ◌≤◌, ◌<◌, Bool, if◌then◌else◌, ltb, ◌==◌, ◌≡◌, arith}

-- The energy of an expansion is small.
expansion_bound : (m : Memory) (n c : ℕ) → mem_expand_cost m n ≡ ok c → c < 2 ^ 32
unfolding mem_expand_cost words_for_bytes
expansion_bound m n c e = ground (
  arith,
  mem_cost_words-eq ((n + 31) / 32),
  mem_cost_words-eq (len m / 32),
  price_of_mono (len m / 32) ((n + 31) / 32),
  price_of_mono ((n + 31) / 32) 98304,
)

call_args_bound : (sc : Scope) (a b c d n : ℕ) → call_args_mem sc a b c d ≡ ok n → n < 2 ^ 32
unfolding call_args_mem
call_args_bound sc a b c d n e =
    let (in_end, next, _) = >>=-succeeds _ n (mem_access_size a b) e in
    let (out_end, last, _) = >>=-succeeds _ n (mem_access_size c d) next in
    expansion_bound sc.mem (if ltb in_end out_end then out_end else in_end) n last

-- The stipend of a call with a value.
abbrev pub stipend : ℕ → ℕ
stipend value = if value == 0 then 0 else 2300

pub gas_call_floor :
    (exist : ℕ → Bool) (sc : Scope) (c : ℕ)
    → gas_call exist sc ≡ ok c
    → 40 + stipend (operand sc 2) ≤ c
unfolding gas_call
gas_call_floor exist sc c e =
    let (mem, next, q) =
      >>=-succeeds _ c
        (call_args_mem sc (operand sc 3) (operand sc 4) (operand sc 5) (operand sc 6)) e in
    let small =
      call_args_bound sc (operand sc 3) (operand sc 4) (operand sc 5) (operand sc 6) mem q in
    ground arith

pub gas_callcode_floor :
    (sc : Scope) (c : ℕ) → gas_callcode sc ≡ ok c → 40 + stipend (operand sc 2) ≤ c
unfolding gas_callcode
gas_callcode_floor sc c e =
    let (mem, next, q) =
      >>=-succeeds _ c
        (call_args_mem sc (operand sc 3) (operand sc 4) (operand sc 5) (operand sc 6)) e in
    let small =
      call_args_bound sc (operand sc 3) (operand sc 4) (operand sc 5) (operand sc 6) mem q in
    ground arith

pub gas_call_no_value_floor : (sc : Scope) (c : ℕ) → gas_call_no_value sc ≡ ok c → 40 ≤ c
unfolding gas_call_no_value
gas_call_no_value_floor sc c e =
    let (mem, next, q) =
      >>=-succeeds _ c
        (call_args_mem sc (operand sc 2) (operand sc 3) (operand sc 4) (operand sc 5)) e in
    let small =
      call_args_bound sc (operand sc 2) (operand sc 3) (operand sc 4) (operand sc 5) mem q in
    ground arith

-- An expansion that is granted is small, and so is the range.
range_bound :
    (sc : Scope) (offset size c : ℕ)
    → expand_to sc offset size ≡ ok c
    → (c < 2 ^ 32) × (size < 2 ^ 32)
unfolding expand_to mem_access_size mem_expand_cost to_uint64
range_bound sc offset size c e =
    let (end, next, q) = >>=-succeeds _ c (mem_access_size offset size) e in
    let small = expansion_bound sc.mem end c next in (small, ground arith)

pub gas_create_floor : (sc : Scope) (c : ℕ) → gas_create sc ≡ ok c → 32000 ≤ c
unfolding gas_create
gas_create_floor sc c e =
    let (exp, next, q) = >>=-succeeds _ c (expand_to sc (operand sc 1) (operand sc 2)) e in
    let small = range_bound sc (operand sc 1) (operand sc 2) exp q in ground arith

pub gas_create2_floor : (sc : Scope) (c : ℕ) → gas_create2 sc ≡ ok c → 32000 ≤ c
unfolding gas_create2 with_words to_uint64 words_for_bytes
gas_create2_floor sc c e =
    let (exp, next, q) = >>=-succeeds _ c (expand_to sc (operand sc 1) (operand sc 2)) e in
    let small = range_bound sc (operand sc 1) (operand sc 2) exp q in ground arith
