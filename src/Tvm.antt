-- ===== src/Tvm.antt =====
-- internal/tvm: the virtual machine's stack, memory, energy meter, costs and fork gates.
pub mod Errors
pub mod Stack
pub mod Memory
pub mod Meter
pub mod Cost
pub mod JumpDest
pub mod Fork
pub mod Gas
pub mod Uint256
pub mod StateDb
pub mod Contract
pub mod Opcode
pub mod Exec
pub mod Precompile
pub mod Machine
