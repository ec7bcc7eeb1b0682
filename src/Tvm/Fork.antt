-- ===== src/Tvm/Fork.antt =====
-- internal/tvm/fork.go and the VMConfig of interpreter.go: the hardfork gates.
pub mod Gates
use go_tron.Prelude.{Bool, true, false, not}
use go_tron.Prelude.Int.{ℤ, pos, leb_ℤ}

pub record VmConfig : Type 0 where
  pub legacy_mem_cost : Bool
  pub forward6364 : Bool
  pub allow_transfer_trc10 : Bool
  pub allow_constantinople : Bool
  pub allow_solidity059 : Bool
  pub allow_istanbul : Bool
  pub allow_london : Bool
  pub allow_shielded_trc20_transaction : Bool
  pub allow_tvm_freeze : Bool
  pub allow_tvm_vote : Bool
  pub allow_tvm_freeze_v2 : Bool

-- The fields that a literal leaves out are false.
unfoldable pub latest_vm_config : VmConfig
latest_vm_config = record {
  legacy_mem_cost = false;
  forward6364 = true;
  allow_transfer_trc10 = true;
  allow_constantinople = true;
  allow_solidity059 = true;
  allow_istanbul = true;
  allow_london = true;
  allow_shielded_trc20_transaction = false;
  allow_tvm_freeze = false;
  allow_tvm_vote = false;
  allow_tvm_freeze_v2 = false;
}

unfoldable pub constantinople_vm_config : VmConfig
constantinople_vm_config = record {
  legacy_mem_cost = false;
  forward6364 = false;
  allow_transfer_trc10 = true;
  allow_constantinople = true;
  allow_solidity059 = false;
  allow_istanbul = false;
  allow_london = false;
  allow_shielded_trc20_transaction = false;
  allow_tvm_freeze = false;
  allow_tvm_vote = false;
  allow_tvm_freeze_v2 = false;
}

-- The header's version is an `int32`; the gate `on(v)` is `v <= version`.
unfoldable pub vm_config_for_version : ℤ → VmConfig
vm_config_for_version version = record {
  legacy_mem_cost = not (leb_ℤ (pos 24) version);
  forward6364 = leb_ℤ (pos 23) version;
  allow_transfer_trc10 = leb_ℤ (pos 6) version;
  allow_constantinople = leb_ℤ (pos 8) version;
  allow_solidity059 = leb_ℤ (pos 9) version;
  allow_istanbul = leb_ℤ (pos 19) version;
  allow_london = leb_ℤ (pos 23) version;
  allow_shielded_trc20_transaction = false;
  allow_tvm_freeze = false;
  allow_tvm_vote = false;
  allow_tvm_freeze_v2 = false;
}
