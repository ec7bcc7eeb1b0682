-- ===== src/Address.antt =====
-- internal/address: Base58Check (base58.go) and addresses (address.go).
pub mod Base58
pub mod Positional
pub mod RoundTrip
pub mod Checked
pub mod Recovery
