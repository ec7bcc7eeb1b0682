-- ===== src/Db.antt =====
-- internal/db: the committed key-value engines (kv.go) and the revoking database over them
-- (snapshot.go).
pub mod Sort
pub mod Kv
pub mod MemKv
pub mod Snapshot
