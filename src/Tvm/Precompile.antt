-- ===== src/Tvm/Precompile.antt =====
-- internal/tvm/precompiles.go: the addresses of the precompiled contracts, their gates, and their
-- charge. The contracts themselves are behind the interface Precompile.
use go_tron.Prelude.{
  ℕ, ◌+◌, ◌*◌, ◌^◌, Bool, true, false, ◌&&◌, if◌then◌else◌, ltb, ◌==◌, Option, none, some, [], ◌∷◌,
}
use go_tron.Prelude.Bytes.{Bytes, nat_eq}
use go_tron.Prelude.Map.{Map, lookup}
use go_tron.Tvm.Fork.{VmConfig}

-- `energy` is requiredEnergyCfg where the contract has it, and RequiredEnergy elsewhere; a failing
-- `run` gives `none`.
pub record Precompile : Type 0 where
  pub energy : VmConfig → Bytes → ℕ
  pub run : Bytes → Option Bytes

pub record Contracts : Type 0 where
  pub ecrecover : Precompile
  pub sha256_hash : Precompile
  pub tron_ripemd160 : Precompile
  pub data_copy : Precompile
  pub big_mod_exp : Precompile
  pub bn128_add : Precompile
  pub bn128_scalar_mul : Precompile
  pub bn128_pairing : Precompile
  pub eth_ripemd160 : Precompile
  pub blake2f : Precompile
  pub batch_validate_sign : Precompile
  pub validate_multi_sign : Precompile
  pub shielded_deferred : ℕ → Precompile

-- An address is the number of its 21 bytes.
abbrev pub precompile_addr : ℕ → ℕ
precompile_addr v = 65 * 2 ^ 160 + v

-- The contracts without a gate.
abbrev pub precompiles : Contracts → Map ℕ Precompile
precompiles c =
    (precompile_addr 1, c.ecrecover)
    ∷ (precompile_addr 2, c.sha256_hash)
    ∷ (precompile_addr 3, c.tron_ripemd160)
    ∷ (precompile_addr 4, c.data_copy)
    ∷ (precompile_addr 5, c.big_mod_exp)
    ∷ (precompile_addr 6, c.bn128_add)
    ∷ (precompile_addr 7, c.bn128_scalar_mul)
    ∷ (precompile_addr 8, c.bn128_pairing)
    ∷ (precompile_addr 131075, c.eth_ripemd160)
    ∷ []

abbrev signatures : Contracts → Map ℕ Precompile
signatures c =
    (precompile_addr 9, c.batch_validate_sign) ∷ (precompile_addr 10, c.validate_multi_sign) ∷ []

abbrev shielded : Contracts → Map ℕ Precompile
shielded c =
    (precompile_addr 16777217, c.shielded_deferred 150000)
    ∷ (precompile_addr 16777218, c.shielded_deferred 200000)
    ∷ (precompile_addr 16777219, c.shielded_deferred 150000)
    ∷ (precompile_addr 16777220, c.shielded_deferred 500)
    ∷ []

-- The first of two results.
abbrev or_else : Option Precompile → Option Precompile → Option Precompile
or_else (some p) q = some p
or_else none q = q

unfoldable pub lookup_precompile : Contracts → VmConfig → ℕ → Option Precompile
lookup_precompile c cfg addr = or_else (lookup addr (precompiles c)) (
    if cfg.forward6364 && (addr == precompile_addr 131081)
    then some c.blake2f
    else or_else (if cfg.allow_solidity059 then lookup addr (signatures c) else none)
        (if cfg.allow_shielded_trc20_transaction then lookup addr (shielded c) else none))

-- The output, the energy used, and whether the contract failed. A failure uses the whole budget.
unfoldable pub run_precompile : Precompile → Bytes → ℕ → VmConfig → Bytes × ℕ × Bool
run_precompile p input budget cfg =
    let cost = p.energy cfg input in
    if ltb budget cost
    then ([], budget, true)
    else elim (p.run input) [ none ↦ ([], budget, true) | some out ↦ (out, cost, false) ]
