-- ===== src/Tvm/Stack.antt =====
-- internal/tvm/stack.go. The list holds the top first; the source's slice holds it last.
pub mod Guards
use go_tron.Prelude.{
  ℕ, zero, suc, ◌+◌, ◌-◌, Bool, true, false, if◌then◌else◌, ltb, leb, length, get_or, set, List, [],
  ◌∷◌,
}
use go_tron.Prelude.Result.{Result, ok, err}
use go_tron.Tvm.Errors.{Error, stack_underflow, stack_overflow}

abbrev pub max_stack : ℕ
max_stack = 1024

pub record Stack : Type 0 where
  pub data_of : List ℕ

abbrev pub new_stack : Stack
new_stack = record { data_of = [] }

abbrev pub len : Stack → ℕ
len s = length s.data_of

unfoldable pub push : Stack → ℕ → Result Error Stack
push s v =
    if leb max_stack (len s) then err stack_overflow else ok (record { data_of = v ∷ s.data_of })

abbrev pop_list : List ℕ → Result Error (ℕ × Stack)
pop_list [] = err stack_underflow
pop_list (v ∷ vs) = ok (v, record { data_of = vs })

unfoldable pub pop : Stack → Result Error (ℕ × Stack)
pop s = pop_list s.data_of

-- The source panics past the end; its callers test `require` first.
abbrev pub peek : Stack → ℕ → ℕ
peek s n = get_or s.data_of n 0

unfoldable pub require : Stack → ℕ → ℕ → Result Error Stack
require s pops pushes =
    if ltb (len s) pops
    then err stack_underflow
    else if ltb max_stack (len s - pops + pushes)
    then err stack_overflow
    else ok s

unfoldable pub dup : Stack → ℕ → Result Error Stack
dup s n =
    if ltb (len s) n
    then err stack_underflow
    else if leb max_stack (len s)
    then err stack_overflow
    else ok (record { data_of = get_or s.data_of (n - 1) 0 ∷ s.data_of })

unfoldable pub swap : Stack → ℕ → Result Error Stack
swap s n =
    if ltb (len s) (n + 1)
    then err stack_underflow
    else let top = get_or s.data_of 0 0 in
      let other = get_or s.data_of n 0 in
      ok (record { data_of = set (set s.data_of 0 other) n top })
