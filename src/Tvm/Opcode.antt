-- ===== src/Tvm/Opcode.antt =====
-- internal/tvm/instructions.go and opcodes.go: the jump table. Operations of one shape are one
-- constructor over the operation.
use go_tron.Prelude.{ℕ, ◌+◌, ◌-◌, Bool, true, false, ◌&&◌, Option, some, if◌then◌else◌, leb}
use go_tron.Prelude.Map.{Map, lookup}
use go_tron.Prelude.Bytes.{nat_eq}
use go_tron.Prelude.{[], ◌∷◌}
use go_tron.Tvm.Fork.{VmConfig}

pub data Arith : Type 0 where
  add mul sub div sdiv mod_op smod exp signextend : Arith

pub data Compare : Type 0 where
  lt gt slt sgt eq : Compare

pub data Bit : Type 0 where
  and_op or_op xor_op byte shl shr sar : Bit

-- These push one word.
pub data Environment : Type 0 where
  address origin caller callvalue calldatasize codesize gasprice returndatasize : Environment
  coinbase timestamp number zero_word chainid selfbalance : Environment
  pc_op msize gas_op calltokenvalue calltokenid : Environment

-- These replace the top word.
pub data Unary : Type 0 where
  iszero not_op calldataload balance extcodesize extcodehash iscontract sload : Unary

pub data CopyFrom : Type 0 where
  calldata code_of_frame : CopyFrom

pub data CallKind : Type 0 where
  kind_call kind_call_code kind_delegate kind_static : CallKind

-- The instructions that change only their own frame.
pub data FrameOp : Type 0 where
  stop addmod mulmod keccak256 tokenbalance : FrameOp
  arith_op : Arith → FrameOp
  compare_op : Compare → FrameOp
  bit_op : Bit → FrameOp
  environment : Environment → FrameOp
  unary : Unary → FrameOp
  copy_op : CopyFrom → FrameOp
  extcodecopy returndatacopy pop_op mload mstore mstore8 : FrameOp
  jump jumpi jumpdest : FrameOp
  push_op dup_op swap_op : ℕ → FrameOp
  return_op revert_op invalid staking_deferred : FrameOp

pub data Instr : Type 0 where
  frame : FrameOp → Instr
  sstore create create2 : Instr
  log_op : ℕ → Instr
  call_op : CallKind → Instr

pub data Gate : Type 0 where
  always constantinople solidity059 istanbul transfer_trc10 tvm_freeze tvm_vote tvm_freeze_v2 : Gate

abbrev pub is_enabled : Gate → VmConfig → Bool
is_enabled always c = true
is_enabled constantinople c = c.allow_constantinople
is_enabled solidity059 c = c.allow_solidity059
is_enabled istanbul c = c.allow_istanbul
is_enabled transfer_trc10 c = c.allow_transfer_trc10
is_enabled tvm_freeze c = c.allow_tvm_freeze
is_enabled tvm_vote c = c.allow_tvm_vote
is_enabled tvm_freeze_v2 c = c.allow_tvm_freeze_v2

-- The stack effect; `gas` and `exec` of the source are functions of the instruction.
pub record Operation : Type 0 where
  pub instr : Instr
  pub pops : ℕ
  pub pushes : ℕ
  pub enabled : Gate

abbrev shared_op : Instr → ℕ → ℕ → Operation
shared_op i pops pushes = record { instr = i; pops = pops; pushes = pushes; enabled = always }

abbrev op : FrameOp → ℕ → ℕ → Operation
op i pops pushes = shared_op (frame i) pops pushes

abbrev gated : Gate → Instr → ℕ → ℕ → Operation
gated g i pops pushes = record { instr = i; pops = pops; pushes = pushes; enabled = g }

abbrev staking : Gate → ℕ → Operation
staking g pops = gated g (frame staking_deferred) pops 1

-- The entries of `buildTable` but for the ranges.
abbrev entries : Map ℕ Operation
entries =
    (0, op stop 0 0)
    ∷ (1, op (arith_op add) 2 1)
    ∷ (2, op (arith_op mul) 2 1)
    ∷ (3, op (arith_op sub) 2 1)
    ∷ (4, op (arith_op div) 2 1)
    ∷ (5, op (arith_op sdiv) 2 1)
    ∷ (6, op (arith_op mod_op) 2 1)
    ∷ (7, op (arith_op smod) 2 1)
    ∷ (8, op addmod 3 1)
    ∷ (9, op mulmod 3 1)
    ∷ (10, op (arith_op exp) 2 1)
    ∷ (11, op (arith_op signextend) 2 1)
    ∷ (16, op (compare_op lt) 2 1)
    ∷ (17, op (compare_op gt) 2 1)
    ∷ (18, op (compare_op slt) 2 1)
    ∷ (19, op (compare_op sgt) 2 1)
    ∷ (20, op (compare_op eq) 2 1)
    ∷ (21, op (unary iszero) 1 1)
    ∷ (22, op (bit_op and_op) 2 1)
    ∷ (23, op (bit_op or_op) 2 1)
    ∷ (24, op (bit_op xor_op) 2 1)
    ∷ (25, op (unary not_op) 1 1)
    ∷ (26, op (bit_op byte) 2 1)
    ∷ (27, gated constantinople (frame (bit_op shl)) 2 1)
    ∷ (28, gated constantinople (frame (bit_op shr)) 2 1)
    ∷ (29, gated constantinople (frame (bit_op sar)) 2 1)
    ∷ (32, op keccak256 2 1)
    ∷ (48, op (environment address) 0 1)
    ∷ (49, op (unary balance) 1 1)
    ∷ (50, op (environment origin) 0 1)
    ∷ (51, op (environment caller) 0 1)
    ∷ (52, op (environment callvalue) 0 1)
    ∷ (53, op (unary calldataload) 1 1)
    ∷ (54, op (environment calldatasize) 0 1)
    ∷ (55, op (copy_op calldata) 3 0)
    ∷ (56, op (environment codesize) 0 1)
    ∷ (57, op (copy_op code_of_frame) 3 0)
    ∷ (58, op (environment gasprice) 0 1)
    ∷ (59, op (unary extcodesize) 1 1)
    ∷ (60, op extcodecopy 4 0)
    ∷ (61, op (environment returndatasize) 0 1)
    ∷ (62, op returndatacopy 3 0)
    ∷ (63, gated constantinople (frame (unary extcodehash)) 1 1)
    ∷ (65, op (environment coinbase) 0 1)
    ∷ (66, op (environment timestamp) 0 1)
    ∷ (67, op (environment number) 0 1)
    ∷ (68, op (environment zero_word) 0 1)
    ∷ (69, op (environment zero_word) 0 1)
    ∷ (70, gated istanbul (frame (environment chainid)) 0 1)
    ∷ (71, gated istanbul (frame (environment selfbalance)) 0 1)
    ∷ (80, op pop_op 1 0)
    ∷ (81, op mload 1 1)
    ∷ (82, op mstore 2 0)
    ∷ (83, op mstore8 2 0)
    ∷ (84, op (unary sload) 1 1)
    ∷ (85, shared_op sstore 2 0)
    ∷ (86, op jump 1 0)
    ∷ (87, op jumpi 2 0)
    ∷ (88, op (environment pc_op) 0 1)
    ∷ (89, op (environment msize) 0 1)
    ∷ (90, op (environment gas_op) 0 1)
    ∷ (91, op jumpdest 0 0)
    ∷ (209, gated transfer_trc10 (frame tokenbalance) 2 1)
    ∷ (210, gated transfer_trc10 (frame (environment calltokenvalue)) 0 1)
    ∷ (211, gated transfer_trc10 (frame (environment calltokenid)) 0 1)
    ∷ (212, gated solidity059 (frame (unary iscontract)) 1 1)
    ∷ (213, staking tvm_freeze 3)
    ∷ (214, staking tvm_freeze 2)
    ∷ (215, staking tvm_freeze 2)
    ∷ (216, staking tvm_vote 4)
    ∷ (217, staking tvm_vote 0)
    ∷ (218, staking tvm_freeze_v2 2)
    ∷ (219, staking tvm_freeze_v2 2)
    ∷ (220, staking tvm_freeze_v2 0)
    ∷ (221, staking tvm_freeze_v2 0)
    ∷ (222, staking tvm_freeze_v2 3)
    ∷ (223, staking tvm_freeze_v2 3)
    ∷ (240, shared_op create 3 1)
    ∷ (241, shared_op (call_op kind_call) 7 1)
    ∷ (242, shared_op (call_op kind_call_code) 7 1)
    ∷ (243, op return_op 2 0)
    ∷ (244, shared_op (call_op kind_delegate) 6 1)
    ∷ (245, gated constantinople create2 4 1)
    ∷ (250, shared_op (call_op kind_static) 6 1)
    ∷ (253, op revert_op 2 0)
    ∷ (254, op invalid 0 0)
    ∷ []

-- `None` is a byte that is no operation. PUSH1 to PUSH32, DUP1 to DUP16, SWAP1 to SWAP16 and LOG0 to
-- LOG4 are ranges.
unfoldable pub op_table : ℕ → Option Operation
op_table c =
    if leb 96 c && leb c 127
    then some (op (push_op (c - 95)) 0 1)
    else if leb 128 c && leb c 143
    then some (op (dup_op (c - 127)) (c - 127) (c - 126))
    else if leb 144 c && leb c 159
    then some (op (swap_op (c - 143)) (c - 142) (c - 142))
    else if leb 160 c && leb c 164
    then some (shared_op (log_op (c - 160)) (2 + (c - 160)) 0)
    else lookup c entries

abbrev pub halts : Instr → Bool
halts (frame stop) = true
halts (frame return_op) = true
halts (frame revert_op) = true
halts _ = false

-- These set the program counter themselves.
abbrev pub jumps : Instr → Bool
jumps (frame jump) = true
jumps (frame jumpi) = true
jumps _ = false
