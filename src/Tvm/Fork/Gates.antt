-- ===== src/Tvm/Fork/Gates.antt =====
-- The fork gates of a block's version: they open in order and none closes again.
use go_tron.Tvm.Fork.{VmConfig, vm_config_for_version, latest_vm_config}
use go_tron.Prelude.{Bool, true, not, ◌||◌, ◌≡◌, refl, arith}
use go_tron.Prelude.Int.{ℤ, pos, leb_ℤ, ◌≤ℤ◌}

abbrev Implies : Bool → Bool → Type 0
Implies a b = (not a || b) ≡ true

-- Each feature of the first configuration is one of the second's, which is later.
pub record IsEarlier (a b : VmConfig) : Type 0 where
  legacy : Implies b.legacy_mem_cost a.legacy_mem_cost
  forward : Implies a.forward6364 b.forward6364
  trc10 : Implies a.allow_transfer_trc10 b.allow_transfer_trc10
  constantinople : Implies a.allow_constantinople b.allow_constantinople
  solidity059 : Implies a.allow_solidity059 b.allow_solidity059
  istanbul : Implies a.allow_istanbul b.allow_istanbul
  london : Implies a.allow_london b.allow_london
  shielded : a.allow_shielded_trc20_transaction ≡ b.allow_shielded_trc20_transaction
  freeze : a.allow_tvm_freeze ≡ b.allow_tvm_freeze
  vote : a.allow_tvm_vote ≡ b.allow_tvm_vote
  freeze_v2 : a.allow_tvm_freeze_v2 ≡ b.allow_tvm_freeze_v2

test-Implies : (v a b : ℤ) → a ≤ℤ b → Implies (leb_ℤ v a) (leb_ℤ v b)
test-Implies v a b h = ground arith

-- A later block version never closes a gate that an earlier one opens, and a version of 24 or more
-- has the latest configuration.
pub vm_config_for_version-IsEarlier :
    (v w x : ℤ)
    → v ≤ℤ w
    → pos 24 ≤ℤ x
    → IsEarlier (vm_config_for_version v) (vm_config_for_version w)
      × (vm_config_for_version x ≡ latest_vm_config)
unfolding vm_config_for_version latest_vm_config
vm_config_for_version-IsEarlier v w x h k = (
  record {
    legacy = ground arith;
    forward = test-Implies (pos 23) v w h;
    trc10 = test-Implies (pos 6) v w h;
    constantinople = test-Implies (pos 8) v w h;
    solidity059 = test-Implies (pos 9) v w h;
    istanbul = test-Implies (pos 19) v w h;
    london = test-Implies (pos 23) v w h;
    shielded = refl;
    freeze = refl;
    vote = refl;
    freeze_v2 = refl;
  },
  ground arith,
)
