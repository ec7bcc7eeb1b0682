-- ===== src/Tvm/Machine/Host.antt =====
-- internal/tvm/evm.go, logs.go and instructions.go: CREATE, and the instructions that reach outside
-- their frame.
use go_tron.Prelude.{
  ℕ, zero, suc, ◌+◌, ◌*◌, ◌%◌, ◌^◌, Bool, false, not, if◌then◌else◌, ltb, ◌==◌, Option, none, some,
  List, [], ◌∷◌, ◌++◌, length, take,
}
use go_tron.Prelude.Bytes.{Bytes, be_bytes}
use go_tron.Prelude.Result.{Result, ok, err}
use go_tron.Tvm.Errors.{Error, go_panic, static_state_change}
use go_tron.Tvm.Uint256.{low64}
use go_tron.Tvm.Memory.{Memory, get}
use go_tron.Tvm.Meter.{EnergyMeter, spend, remaining, restore, add_u64, sub_u64}
use go_tron.Tvm.Cost.{clamp_u64}
use go_tron.Tvm.Gas.{word_to_addr}
use go_tron.Tvm.Contract.{Contract, Outcome, sha3omit12}
use go_tron.Tvm.StateDb.{
  create_account, get_nonce, set_nonce, set_code, set_storage, snapshot, revert_to_snapshot,
}
use go_tron.Tvm.Opcode.{CallKind, kind_call, kind_call_code, kind_delegate, kind_static}
use go_tron.Tvm.Exec.{words_of_stack, with_stack, top, rest}
use go_tron.Tvm.Machine.{
  Shared, Setting, Frame, Machine, Runner, is_panic, cannot_run, call_not_run, call_energy,
  transfer, finish, do_call,
}

unfoldable pub create_address : (Bytes → ℕ) → Bytes → ℕ → ℕ
unfolding sha3omit12
create_address keccak256 root_tx_id nonce = sha3omit12 keccak256 (root_tx_id ++ be_bytes 8 nonce)

unfoldable pub create2_address : (Bytes → ℕ) → ℕ → Bytes → Bytes → ℕ
unfolding sha3omit12
create2_address keccak256 sender salt init_code =
    sha3omit12 keccak256 (be_bytes 21 sender ++ (salt ++ be_bytes 32 (keccak256 init_code)))

-- The end of a creation: the deposit of the code is paid from what the child left.
unfoldable pub after_create :
    Machine → EnergyMeter → ℕ → ℕ → ℕ → Outcome × Shared → Result Error Machine
unfolding restore revert_to_snapshot set_code
after_create m spent child_gas snap new_addr (res, sh) =
    let leftover = sub_u64 child_gas res.energy_used in
    let reverted : Shared = record {
      world = revert_to_snapshot snap sh.world;
      logs = take (length m.shared.logs) sh.logs;
    } in
    let cost = length res.return_bytes * 200 % 2 ^ 64 in
    if is_panic res.error then err go_panic else elim res.error [
      | some e ↦ finish m (record m.locals { return_data = [] }) (restore spent leftover) reverted 0
      | none ↦
          if res.reverted
          then finish m (record m.locals { return_data = res.return_bytes })
              (restore spent leftover) reverted 0
          else if ltb leftover cost
          then finish m (record m.locals { return_data = [] }) spent reverted 0
          else finish m (record m.locals { return_data = [] })
              (restore spent (sub_u64 leftover cost))
              (record sh { world = set_code sh.world new_addr res.return_bytes }) new_addr
    ]

-- The part of `doCreate` behind its guards.
unfoldable pub run_create :
    Runner → Setting → Frame → Machine → ℕ → Bytes → Option Bytes → Option (Result Error Machine)
unfolding call_energy transfer spend remaining snapshot create_account get_nonce set_nonce
    create_address create2_address after_create
run_create run g f m value init_code salt =
    let nonce = get_nonce m.shared.world f.contract.self in
    let numbered = set_nonce m.shared.world f.contract.self (add_u64 nonce 1) in
    let new_addr : ℕ = elim salt [
      | some bytes ↦ create2_address g.keccak256 f.contract.self bytes init_code
      | none ↦ create_address g.keccak256 g.root_tx_id nonce
    ] in
    let child_gas = call_energy g.cfg (remaining m.meter) (remaining m.meter) in
    let spent = (spend m.meter child_gas).0 in
    let (taken, snap) = snapshot numbered in
    let world =
      transfer g.words (not (value == 0)) (create_account taken new_addr) f.contract.self new_addr
        value in
    let child : Contract = record {
      self = new_addr;
      code_addr = new_addr;
      caller = f.contract.self;
      origin = f.contract.origin;
      value = value;
      input = [];
      code = init_code;
    } in
    elim (run (record { contract = child; read_only = false; depth = suc f.depth }) child_gas
      (record m.shared { world = world })) [
        | none ↦ none
        | some r ↦ some (after_create m spent child_gas snap new_addr r)
      ]

unfoldable pub do_create :
    Runner → Setting → Frame → Machine → ℕ → Bytes → Option Bytes → Option (Result Error Machine)
unfolding run_create
do_create run g f m value init_code salt =
    if f.read_only
    then some (err static_state_change)
    else if cannot_run f m value
    then some (call_not_run m)
    else run_create run g f m value init_code salt

abbrev pop_n : ℕ → List ℕ → List ℕ
pop_n zero ws = ws
pop_n (suc n) ws = pop_n n (rest ws)

abbrev pub nth : List ℕ → ℕ → ℕ
nth ws n = top (pop_n n ws)

-- The operands are popped, and the input is what was read, which may have expanded the memory.
unfoldable pub with_input :
    Machine
    → ℕ
    → Option (Bytes × Memory)
    → (Machine → Bytes → Option (Result Error Machine))
    → Option (Result Error Machine)
with_input m pops none next = some (err go_panic)
with_input m pops (some (bytes, mem)) next =
    next
      (record m {
        locals = record (with_stack m.locals (pop_n pops (words_of_stack m.locals))) { mem = mem };
      })
      bytes

unfoldable pub read : Machine → ℕ → ℕ → Option (Bytes × Memory)
unfolding get
read m offset size = get m.locals.mem (low64 offset) (low64 size)

-- CALL and CALLCODE; DELEGATECALL and STATICCALL take no value.
unfoldable pub call_with_value :
    Runner → Setting → Frame → Machine → CallKind → Option (Result Error Machine)
unfolding do_call word_to_addr with_input read
call_with_value run g f m kind =
    let ws = words_of_stack m.locals in
    with_input m 7 (read m (nth ws 3) (nth ws 4)) λ m' args.
      do_call run g f m' kind (word_to_addr (nth ws 1)) (nth ws 2) (clamp_u64 (nth ws 0)) args
        (low64 (nth ws 5)) (low64 (nth ws 6))

unfoldable pub call_without_value :
    Runner → Setting → Frame → Machine → CallKind → Option (Result Error Machine)
unfolding do_call word_to_addr with_input read
call_without_value run g f m kind =
    let ws = words_of_stack m.locals in
    with_input m 6 (read m (nth ws 2) (nth ws 3)) λ m' args.
      do_call run g f m' kind (word_to_addr (nth ws 1)) 0 (clamp_u64 (nth ws 0)) args
        (low64 (nth ws 4)) (low64 (nth ws 5))

unfoldable pub exec_call :
    Runner → Setting → Frame → Machine → CallKind → Option (Result Error Machine)
unfolding call_with_value call_without_value
exec_call run g f m kind_call = call_with_value run g f m kind_call
exec_call run g f m kind_call_code = call_with_value run g f m kind_call_code
exec_call run g f m kind_delegate = call_without_value run g f m kind_delegate
exec_call run g f m kind_static = call_without_value run g f m kind_static

unfoldable pub exec_create :
    Runner → Setting → Frame → Machine → Bool → Option (Result Error Machine)
unfolding do_create with_input read
exec_create run g f m salted =
    let ws = words_of_stack m.locals in
    let salt : Option Bytes = if salted then some (g.words.bytes32 (nth ws 3)) else none in
    with_input m (if salted then 4 else 3) (read m (nth ws 1) (nth ws 2))
      λ m' init_code. do_create run g f m' (nth ws 0) init_code salt

abbrev topics_of : ℕ → List ℕ → List ℕ
topics_of zero ws = []
topics_of (suc n) ws = top ws ∷ topics_of n (rest ws)

-- The log is added behind those of the whole transaction.
abbrev pub add_log : Frame → Machine → ℕ → Option (Bytes × Memory) → Result Error Machine
add_log f m n none = err go_panic
add_log f m n (some (bytes, mem)) =
    let ws = words_of_stack m.locals in
    ok (record m {
      locals = record (with_stack m.locals (pop_n (2 + n) ws)) { mem = mem };
      shared = record m.shared {
        logs =
            m.shared.logs
            ++ record {
              address = f.contract.self;
              topics = topics_of n (pop_n 2 ws);
              bytes = bytes;
            }
              ∷ [];
      };
    })

unfoldable pub exec_log : Frame → Machine → ℕ → Result Error Machine
unfolding read
exec_log f m n =
    let ws = words_of_stack m.locals in
    if f.read_only then err static_state_change else add_log f m n (read m (nth ws 0) (nth ws 1))

unfoldable pub exec_sstore : Frame → Machine → Result Error Machine
unfolding set_storage
exec_sstore f m =
    let ws = words_of_stack m.locals in
    if f.read_only
    then err static_state_change
    else ok (record m {
      locals = with_stack m.locals (pop_n 2 ws);
      shared = record m.shared {
        world = set_storage m.shared.world f.contract.self (nth ws 0) (nth ws 1);
      };
    })
