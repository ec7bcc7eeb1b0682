-- ===== src/Lib.antt =====
-- go-tron: a verification library for a TRON full node in Go.
--
-- The program keeps its state in a revoking database, decides between forks in a tree of recent
-- blocks, runs contracts in a virtual machine, and bills their energy. Actuators execute the native
-- contracts (transfers, stakes, delegations, votes and rewards) on stores over the database, and a
-- maintenance tallies the votes at the end of a cycle. The node manager applies a block inside a
-- session of the database: it commits the session where every transaction succeeds and revokes it
-- otherwise; where the fork tree's head moves to another branch, it revokes the old branch back to
-- the common ancestor and applies the new one.
--
-- The files, and the code they model (paths from the repository's root):
--   Prelude      shared names; wrapped int64 (Int64), byte strings, association maps, results
--   Db           internal/db: the interface KV and its in-memory engine (Kv, MemKv), the sort of Scan
--                (Sort), Database with its sessions (Snapshot)
--   Khaos        internal/khaos/khaos.go: KhaosDB, with GetBranch in Fork
--   Node         internal/node/manager.go: the manager, over Db and Khaos; the work of a block is an
--                interface, the calls that it makes of the database and its error; RunMaintenance in
--                Maintenance
--   State        internal/state: the stores as typed maps; property.go (Property, its names in
--                Names), delegation.go (Delegation), the others in State
--   Actuator     internal/actuator: actuator.go (Actuator, Apply), reward.go (Reward), stake2.go
--                (Stake2), stake2_delegate.go (Delegate), vote.go (Voting)
--   Resource     internal/resource: energy.go (Energy) and stake.go (Stake)
--   Tvm          internal/tvm: stack.go (Stack), memory.go (Memory), energy.go (Meter), the memory
--                costs and jump destinations of interpreter.go (Cost, JumpDest), gas.go (Gas), fork.go
--                (Fork), the jump table of instructions.go and opcodes.go (Opcode), the instructions
--                of a frame (Exec), state_db.go (StateDb), contract.go and logs.go (Contract), the
--                addresses and the charge of precompiles.go (Precompile), the calls of evm.go
--                (Machine), creations and the instructions that reach outside the frame
--                (Machine.Host), the loop of interpreter.go (Machine.Step)
--   Address      internal/address: base58.go (Base58; its checksum in Checked), address.go (Checked)
--   Merkle       internal/merkle/merkle.go, over any hash function
--   Tests        runs on concrete inputs
-- A child module of one of these holds its proofs, and is named for what they prove. A definition
-- has the source's name in snake case: `push` of Khaos is KhaosDB.Push, `build_session` of
-- Db.Snapshot is Database.BuildSession.
--
-- How the code is translated. A method that mutates its receiver takes the receiver's value and
-- returns the new one; a Go error is a constructor of the component's error type. A pointer
-- to a block of the fork tree is an address of a heap of nodes. An int64 is an integer that every
-- operation wraps to 64 bits, a uint64 is a number below 2^64 with `% 2 ^ 64` written out, and a
-- 256-bit word is a number, whose operations are the record Uint256 of the library's methods. A
-- map is an association list with one entry for each key, so a range over it runs in the list's
-- order; no result that is stated here depends on that order. The locks are held throughout a call,
-- so a call is one step. A store of the state is a map of values, not of their encodings; funds
-- over all accounts are counted modulo 2^64, as the int64 fields are.
--
-- Bounds. The loops of GetBranch run on fuel: a node is allocated later than its parent, so its
-- address bounds the length of its chain, and that much fuel is always enough. Every other loop is
-- a structural recursion, but the levels of the Merkle tree, for which the number of leaves is
-- enough fuel, and the digits of a number, for which the number is; and the loop of a frame of the
-- virtual machine, whose called frames run on the fuel that is left. There a result `none` means
-- that the fuel ran out: enough of it always exists, since every turn uses energy or moves the
-- program counter on. A panic of a frame is an error value that every caller passes on, and so is
-- that of a slice of the manager's applied blocks.
--
-- Not modelled: block.ID, block.ParentHash and block.Number (they hash protobuf encodings), the
-- key-value engine, SHA-256 and Keccak are parameters, the precompiled contracts are behind their
-- interface, and float64 is an interface. The V1 stakes of freeze.go and the contracts that run
-- the virtual machine stand behind the record Others of Actuator.Apply. The signatures, the
-- encodings of the stores, the stores of contracts, processBlock and the genesis are left out so
-- far, so the stores of State and the database of Db are not joined. The configuration, the
-- networking and the replay harness call other libraries or do input and output.
pub mod Prelude
pub mod Db
pub mod Khaos
pub mod Node
pub mod Resource
pub mod Tvm
pub mod Actuator
pub mod Address
pub mod State
pub mod Merkle
pub mod Tests
