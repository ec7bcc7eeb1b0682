-- ===== src/Resource.antt =====
-- internal/resource: the energy bill of a contract transaction (energy.go) and the staked energy
-- of an account (stake.go).
pub mod Energy
pub mod Stake
