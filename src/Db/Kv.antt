-- ===== src/Db/Kv.antt =====
-- kv.go, the interface `KV`: what the revoking database takes from a committed engine.
-- A write returns the engine after it, and the error if it failed.
use go_tron.Prelude.{Bool, true, false, Option, none, some, ◌≡◌, if◌then◌else◌}
use go_tron.Prelude.Bytes.{Bytes, bytes_eq, bytes_eq_instance}
use go_tron.Prelude.Map.{Map, lookup, IsUnique}
use go_tron.Db.Sort.{has_prefix}
use go_tron.Prelude.Result.{Result, ok, err}

-- A `KVPair` is a pair of byte strings; a scan's answer is read as a map.

-- `ErrNotFound`, `ErrClosed`, and whatever else an engine reports.
pub data Error : Type 0 where
  not_found closed engine_failure : Error

-- `Has` answers as `Get` does: absence is no error for it.
abbrev pub presence : Result Error Bytes → Result Error Bool
presence (ok _) = ok true
presence (err not_found) = ok false
presence (err closed) = err closed
presence (err engine_failure) = err engine_failure

abbrev pub readable : Result Error Bytes → Option Bytes
readable (ok v) = some v
readable (err _) = none

-- The operations and the laws that the snapshots rest on. Only a write that succeeded is
-- promised to have an effect. `IsWf` is what the engine keeps true of its own representation.
pub record Kv : Type 1 where
  pub Store : Type 0
  pub IsWf : Store → Type 0
  pub get : Bytes → Store → Result Error Bytes
  pub has : Bytes → Store → Result Error Bool
  pub put : Bytes → Bytes → Store → Store × Option Error
  pub delete : Bytes → Store → Store × Option Error
  pub scan : Bytes → Store → Result Error (Map Bytes Bytes)
  pub has_lem : (k : Bytes) (s : Store) → has k s ≡ presence (get k s)
  pub get-put :
      (k j v : Bytes) (s : Store)
      → (put k v s).1 ≡ none
      → get j (put k v s).0 ≡ (if bytes_eq k j then ok v else get j s)
  pub get-delete :
      (k j : Bytes) (s : Store)
      → (delete k s).1 ≡ none
      → get j (delete k s).0 ≡ (if bytes_eq k j then err not_found else get j s)
  pub put-IsWf : (k v : Bytes) (s : Store) → IsWf s → IsWf (put k v s).0
  pub delete-IsWf : (k : Bytes) (s : Store) → IsWf s → IsWf (delete k s).0
  pub scan-IsUnique :
      (p : Bytes) (s : Store) {m : Map Bytes Bytes} → IsWf s → scan p s ≡ ok m → IsUnique m
  pub lookup-scan :
      (p k : Bytes) (s : Store) {m : Map Bytes Bytes}
      → IsWf s
      → scan p s ≡ ok m
      → lookup k m ≡ (if has_prefix k p then readable (get k s) else none)
