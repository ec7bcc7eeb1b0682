-- ===== src/Tests/Machine.antt =====
-- A contract that writes its storage and then fails, one that calls it, and a frame that may only
-- read.
use go_tron.Prelude.{
  ℕ, zero, suc, ◌+◌, ◌-◌, ◌*◌, ◌/◌, ◌%◌, ◌^◌, ◌≤◌, ◌≡◌, refl, Bool, true, false, if◌then◌else◌, ltb,
  ◌==◌, Option, some, none, List, [], ◌∷◌, ◌++◌, arith,
}
use go_tron.Prelude.Bytes.{Bytes}
use go_tron.Prelude.Int.{pos}
use go_tron.Prelude.Map.{lookup}
use go_tron.Tvm.Exec.{push_word, push_value}
use go_tron.Tvm.Cost.{clamp_u64}
use go_tron.Tvm.Machine.Failure.{do_call-run}
use go_tron.Tvm.Machine.Undone.{do_create-run}
use go_tron.Tvm.Machine.Host.{do_create}
use go_tron.Tvm.Meter.{add_u64}
use go_tron.Tvm.StateDb.{get_nonce}
use go_tron.Prelude.{◌⊎◌}
use go_tron.Tvm.Opcode.{kind_call}
use go_tron.Prelude.Result.{ok}
use go_tron.Tvm.Uint256.{Uint256}
use go_tron.Tvm.Fork.{latest_vm_config}
use go_tron.Tvm.Precompile.{Precompile}
use go_tron.Tvm.Contract.{Outcome, Log}
use go_tron.Tvm.StateDb.{MemStateDb, get_code, snapshot, set_nonce, revert_to_snapshot}
use go_tron.Tvm.StateDb.Snapshots.{
  Extends, Extends-refl, update-Extends, revert_to_snapshot-snapshot,
}
use go_tron.Tvm.Machine.{Shared, Setting, Frame, Machine}
use go_tron.Tvm.Errors.{static_state_change}
use go_tron.Tvm.Machine.Outcomes.{run-energy_used, run-read_only}
use go_tron.Tvm.Machine.Termination.{run-ends}
use go_tron.Tvm.Machine.Step.{run, run_frame, step, guarded, charged, gas, exec, new_machine}
use go_tron.Tvm.Opcode.{op_table}
use go_tron.Tvm.Exec.Frame.{gas_frame, exec_frame}
use go_tron.Tvm.Machine.Host.{exec_call, call_with_value, with_input, read}
use go_tron.Tvm.Machine.{do_call, run_call}

abbrev from_bytes : ℕ → Bytes → ℕ
from_bytes acc [] = acc
from_bytes acc (b ∷ bs) = from_bytes (acc * 256 + b) bs

abbrev to_bytes : ℕ → ℕ → Bytes
to_bytes zero n = []
to_bytes (suc k) n = to_bytes k (n / 256) ++ n % 256 ∷ []

abbrev word : ℕ → ℕ
word n = n % 2 ^ 256

abbrev safe_div : ℕ → ℕ → ℕ
safe_div x y = if y == 0 then 0 else x / y

abbrev safe_mod : ℕ → ℕ → ℕ
safe_mod x y = if y == 0 then 0 else x % y

-- The operations on unsigned words; no code that runs here has signed or bitwise operations.
abbrev words : Uint256
words = record {
  add = λ x y. word (x + y);
  mul = λ x y. word (x * y);
  sub = λ x y. word (x + 2 ^ 256 - y);
  div = safe_div;
  sdiv = safe_div;
  mod_word = safe_mod;
  smod = safe_mod;
  add_mod = λ x y n. safe_mod (x + y) n;
  mul_mod = λ x y n. safe_mod (x * y) n;
  exp = λ x y. word (x ^ y);
  extend_sign = λ x y. x;
  lt = λ x y. ltb x y;
  gt = λ x y. ltb y x;
  slt = λ x y. ltb x y;
  sgt = λ x y. ltb y x;
  eq = λ x y. x == y;
  and_word = λ x y. x;
  or_word = λ x y. x;
  xor_word = λ x y. x;
  not_word = λ x. 2 ^ 256 - 1 - x;
  byte = λ x y. x;
  lsh = λ x n. word (x * 2 ^ n);
  rsh = λ x n. x / 2 ^ n;
  srsh = λ x n. x / 2 ^ n;
  byte_len = λ x. 32;
  set_bytes = from_bytes 0;
  bytes32 = to_bytes 32;
  length-bytes32 = λ w. refl;
}

-- A contract that gives its input back.
abbrev identity : Precompile
identity = record { energy = λ cfg input. 15; run = λ input. some input }

abbrev setting : Setting
setting = record {
  words = words;
  keccak256 = from_bytes 0;
  block = record { number = pos 7; timestamp = pos 7000; coinbase = 9; chain_id = none };
  cfg = latest_vm_config;
  root_tx_id = 1 ∷ [];
  contracts = record {
    ecrecover = identity;
    sha256_hash = identity;
    tron_ripemd160 = identity;
    data_copy = identity;
    big_mod_exp = identity;
    bn128_add = identity;
    bn128_scalar_mul = identity;
    bn128_pairing = identity;
    eth_ripemd160 = identity;
    blake2f = identity;
    batch_validate_sign = identity;
    validate_multi_sign = identity;
    shielded_deferred = λ energy. identity;
  };
}

abbrev address : ℕ → ℕ
address n = 65 * 2 ^ 160 + n

-- PUSH1 1 PUSH1 0 SSTORE INVALID
abbrev failing_code : Bytes
failing_code = 96 ∷ 1 ∷ 96 ∷ 0 ∷ 85 ∷ 254 ∷ []

-- A call of address 100 without value, and STOP.
abbrev calling_code : Bytes
calling_code = 96 ∷ 0 ∷ 96 ∷ 0 ∷ 96 ∷ 0 ∷ 96 ∷ 0 ∷ 96 ∷ 0 ∷ 96 ∷ 100 ∷ 97 ∷ 250 ∷ 0 ∷ 241 ∷ 0 ∷ []

abbrev world : MemStateDb
world = record {
  accounts =
      (address 100, record { balance = 5; nonce = 0; code = failing_code; storage = [] }) ∷ [];
  snaps = [];
}

abbrev sh : Shared
sh = record { world = world; logs = [] }

abbrev frame : Bytes → Bool → Frame
frame code read_only = record {
  contract = record {
    self = address 1;
    code_addr = address 1;
    caller = address 2;
    origin = address 2;
    value = 0;
    input = [];
    code = code;
  };
  read_only = read_only;
  depth = 0;
}

abbrev result : Option (Outcome × Shared)
result = run 20 setting (frame calling_code false) 100000 sh

abbrev outcome : Outcome
outcome = record { return_bytes = []; reverted = false; energy_used = 64061; error = none }

-- The callee's write is undone.
calls : run 20 setting (frame calling_code false) 100000 sh ≡ some (outcome, sh)
unfolding run run_frame step guarded charged gas exec op_table gas_frame exec_frame exec_call
    call_with_value with_input read do_call run_call push_word lookup push_value latest_vm_config
    get_code clamp_u64
calls = refl

run-energy_used_example :
    (outcome.energy_used ≤ 100000) × ((added : List Log) × (sh.logs ≡ sh.logs ++ added))
run-energy_used_example =
    run-energy_used 20 setting (frame calling_code false) 100000 sh outcome sh (omega arith) calls

abbrev denied : Outcome
denied = record {
  return_bytes = [];
  reverted = false;
  energy_used = 100000;
  error = some static_state_change;
}

-- The same write in a frame that may only read.
writes : run 20 setting (frame failing_code true) 100000 sh ≡ some (denied, sh)
unfolding run run_frame step guarded charged gas exec op_table gas_frame exec_frame push_word lookup
    push_value
writes = refl

run-read_only_example : (sh.world.accounts ≡ sh.world.accounts) × (sh.logs ≡ sh.logs)
run-read_only_example =
    run-read_only 20 setting (frame failing_code true) 100000 sh denied sh (omega arith) refl writes

run-ends_example :
    (n : ℕ) × (r : Outcome × Shared) × ((fuel : ℕ)
      → n ≤ fuel
      → run fuel setting (frame calling_code false) 100000 sh ≡ some r)
run-ends_example = run-ends setting (frame calling_code false) 100000 sh (omega arith)

abbrev caller : Frame
caller = frame [] false

abbrev before : Machine
before = new_machine 100000 sh

abbrev after : Machine
after = record {
  locals = record before.locals { stack = record { data_of = 0 ∷ [] } };
  meter = record { limit = 100000; used = 64000; refund = 0 };
  shared = sh;
}

fails :
    do_call (run 20 setting) setting caller before kind_call (address 100) 0 64000 [] 0 0
    ≡ some (ok after)
unfolding run run_frame step guarded charged gas exec op_table gas_frame exec_frame do_call run_call
    push_word lookup push_value latest_vm_config get_code
fails = refl

do_call-run_example : after.shared ≡ before.shared
do_call-run_example =
    do_call-run 20 setting caller before kind_call (address 100) 0 64000 [] 0 0
      (omega arith, omega arith) after fails refl

-- A write behind the snapshot is undone.
written : Extends (snapshot world).0 (set_nonce (snapshot world).0 (address 100) 1)
unfolding set_nonce
written =
    update-Extends (snapshot world).0 (snapshot world).0 (address 100) (λ a. record a { nonce = 1 })
      (Extends-refl (snapshot world).0)

revert_to_snapshot-snapshot_example :
    revert_to_snapshot (snapshot world).1 (set_nonce (snapshot world).0 (address 100) 1) ≡ world
revert_to_snapshot-snapshot_example =
    revert_to_snapshot-snapshot world (set_nonce (snapshot world).0 (address 100) 1) written

-- INVALID as init code: the nonce counts the attempt.
abbrev numbered : Machine
numbered = record {
  locals = record before.locals { stack = record { data_of = 0 ∷ [] } };
  meter = record { limit = 100000; used = 98438; refund = 0 };
  shared = record sh { world = set_nonce world (address 1) 1 };
}

aborts : do_create (run 20 setting) setting caller before 0 (254 ∷ []) none ≡ some (ok numbered)
unfolding do_create run lookup latest_vm_config push_word
aborts = refl

do_create-run_example :
    (numbered.shared ≡ before.shared)
    ⊎ (numbered.shared ≡ record before.shared {
      world =
          set_nonce before.shared.world
            (address 1)
            (add_u64 (get_nonce before.shared.world (address 1)) 1);
    })
do_create-run_example =
    do_create-run 20 setting caller before 0 (254 ∷ []) none (omega arith, omega arith) numbered
      aborts refl
