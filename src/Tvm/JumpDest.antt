-- ===== src/Tvm/JumpDest.antt =====
-- internal/tvm/interpreter.go and opcodes.go: the positions that a jump may go to.
pub mod Boundary
use go_tron.Prelude.{
  ℕ, zero, suc, ◌+◌, ◌-◌, Bool, true, false, ◌&&◌, if◌then◌else◌, leb, ◌==◌, List, [], ◌∷◌,
}
use go_tron.Prelude.Bytes.{Bytes}

abbrev pub jumpdest : ℕ
jumpdest = 91

-- `pushBytes`: PUSH1 is 0x60, PUSH32 is 0x7f; 0 stands for the source's `0, false`, which a PUSH
-- never returns.
abbrev pub push_bytes : ℕ → ℕ
push_bytes op = if leb 96 op && leb op 127 then op - 96 + 1 else 0

-- The loop of `analyzeJumpDests`: the first argument counts the immediate bytes still to skip.
abbrev pub mark_dests : ℕ → Bytes → List Bool
mark_dests skip [] = []
mark_dests (suc n) (op ∷ code) = false ∷ mark_dests n code
mark_dests zero (op ∷ code) = (op == jumpdest) ∷ mark_dests (push_bytes op) code

unfoldable pub analyze_jump_dests : Bytes → List Bool
analyze_jump_dests code = mark_dests 0 code
