-- ===== src/Tests/Tvm.antt =====
-- A small memory, a stack of three words, a meter of 100 units, and the code `PUSH1 0x5b JUMPDEST`.
use go_tron.Prelude.{
  ℕ, ◌≡◌, ◌↔◌, ◌++◌, refl, true, false, ◌&&◌, if◌then◌else◌, ltb, leb, ◌+◌, ◌-◌, get_or, length,
  List, [], ◌∷◌, some, get_elem?, arith,
}
use Prim.Native.Nat.{max}
use go_tron.Prelude.Int.{pos}
use go_tron.Prelude.Result.{ok}
use go_tron.Tvm.Stack.{Stack, require}
use go_tron.Tvm.Stack.Guards.{pop_all, push_all, stacked, require-pop_all-push_all}
use go_tron.Tvm.Memory.{Memory, set, get, resize}
use go_tron.Tvm.Memory.View.{byte_at, set-byte_at}
use go_tron.Tvm.Meter.{EnergyMeter, new_energy_meter}
use go_tron.Tvm.Meter.Budget.{
  Charge, charge, give_back, IsMeter, run_charges, exact_used, run_charges-IsMeter,
}
use go_tron.Tvm.Cost.{mem_expand_cost}
use go_tron.Tvm.Cost.Expansion.{mem_expand_cost-resize}
use go_tron.Tvm.JumpDest.{jumpdest, analyze_jump_dests}
use go_tron.Tvm.JumpDest.Boundary.{Starts, analyze_jump_dests-Starts}
use go_tron.Tvm.Gas.{Scope}
use go_tron.Tvm.Fork.{vm_config_for_version, latest_vm_config}
use go_tron.Tvm.Fork.Gates.{IsEarlier, vm_config_for_version-IsEarlier}

abbrev stack : Stack
stack = record { data_of = 5 ∷ 6 ∷ 7 ∷ [] }

require-pop_all-push_all_example :
    (ws : List ℕ) × (rest : List ℕ) × (pop_all 2 stack ≡ ok (ws, record { data_of = rest }))
    × (push_all (9 ∷ []) (record { data_of = rest })
        ≡ ok (record { data_of = stacked (9 ∷ []) rest }))
    × (stack.data_of ≡ ws ++ rest)
    × (length ws ≡ 2)
unfolding require
require-pop_all-push_all_example = require-pop_all-push_all stack 2 (9 ∷ []) refl

-- One word, of which the fourth byte is 9.
abbrev memory : Memory
memory = record {
  store =
      0 ∷ 0 ∷ 0 ∷ 9 ∷ 0 ∷ 0 ∷ 0 ∷ 0 ∷ 0 ∷ 0 ∷ 0 ∷ 0 ∷ 0 ∷ 0 ∷ 0 ∷ 0 ∷ 0 ∷ 0 ∷ 0 ∷ 0 ∷ 0 ∷ 0 ∷ 0 ∷ 0
      ∷ 0 ∷ 0 ∷ 0 ∷ 0 ∷ 0 ∷ 0 ∷ 0 ∷ 0 ∷ [];
}

abbrev two_bytes : List ℕ
two_bytes = 1 ∷ 2 ∷ []

set-byte_at_example :
    (m' : Memory) × (set memory 31 two_bytes ≡ some m')
    × ((i : ℕ)
        → byte_at m' i ≡ (
            if leb 31 i && ltb i (31 + length two_bytes)
            then get_or two_bytes (i - 31) 0
            else byte_at memory i))
    × (get m' 31 (length two_bytes) ≡ some (two_bytes, m'))
set-byte_at_example = set-byte_at memory 31 two_bytes (omega arith)

mem_expand_cost-resize_example :
    (c : ℕ) × (d : ℕ) × (mem_expand_cost memory 100 ≡ ok c)
    × (mem_expand_cost (resize memory 100) 5000 ≡ ok d)
    × (mem_expand_cost memory (max 100 5000) ≡ ok (c + d))
mem_expand_cost-resize_example =
    mem_expand_cost-resize memory 1 100 5000 (refl, omega arith) (omega arith) (omega arith)

abbrev meter : EnergyMeter
meter = new_energy_meter 100

abbrev charges : List Charge
charges = charge 60 ∷ give_back 20 ∷ charge 50 ∷ charge 30 ∷ []

run_charges-IsMeter_example :
    IsMeter (run_charges meter charges)
    × ((run_charges meter charges).limit ≡ 100)
    × ((run_charges meter charges).used ≡ exact_used 100 0 charges)
run_charges-IsMeter_example = run_charges-IsMeter charges meter (omega arith, omega arith)

abbrev code : List ℕ
code = 96 ∷ 91 ∷ 91 ∷ []

dests : analyze_jump_dests code ≡ false ∷ false ∷ true ∷ []
unfolding analyze_jump_dests
dests = refl

analyze_jump_dests-Starts_example :
    (get_elem? (analyze_jump_dests code) 2 ≡ some true)
    ↔ (Starts 0 code 2 × (get_elem? code 2 ≡ some jumpdest))
analyze_jump_dests-Starts_example = analyze_jump_dests-Starts code 2

vm_config_for_version-IsEarlier_example :
    IsEarlier (vm_config_for_version (pos 8)) (vm_config_for_version (pos 20))
    × (vm_config_for_version (pos 35) ≡ latest_vm_config)
vm_config_for_version-IsEarlier_example =
    vm_config_for_version-IsEarlier (pos 8) (pos 20) (pos 35) (omega arith) (omega arith)

-- MLOAD of the second word.
abbrev frame : Scope
frame = record { stack = record { data_of = 32 ∷ [] }; mem = memory }
