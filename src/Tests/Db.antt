-- ===== src/Tests/Db.antt =====
-- The revoking database over the in-memory engine.
use go_tron.Prelude.{◌≡◌, refl, true, false, none, List, [], ◌∷◌, if◌then◌else◌}
use go_tron.Prelude.Bytes.{Bytes, bytes_eq_instance}
use go_tron.Prelude.Map.{Map, lookup, insert, erase}
use go_tron.Prelude.Result.{ok, err}
use go_tron.Db.Sort.{sort, IsSorted, has_prefix}
use go_tron.Db.Kv.{not_found, readable}
use go_tron.Db.MemKv
use go_tron.Db.MemKv.{MemKv, mem_kv}
use go_tron.Db.Snapshot.{Database, Session, get, put, delete, scan, commit, revoke, build_session}
use go_tron.Db.Snapshot.View.{get-commit}
use go_tron.Db.Snapshot.Rollback.{
  Op, put_op, delete_op, build, commit_op, revoke_op, step, run, revoke-run-build_session,
}
use go_tron.Db.Snapshot.Refinement.{views, spec_run, views-run}
use go_tron.Db.Snapshot.Scan.{scan-get}

-- One committed key, and a session that wrote one key and deleted another.
abbrev committed : MemKv
committed = record { m = ((1 ∷ []), (10 ∷ [])) ∷ ((2 ∷ []), (20 ∷ [])) ∷ [] }

abbrev open_session : Session
open_session = record {
  writes =
      ((1 ∷ 5 ∷ []), record { value = 15 ∷ []; deleted = false })
      ∷ ((2 ∷ []), record { value = []; deleted = true })
      ∷ [];
}

abbrev db : Database mem_kv
db = record { base = committed; sessions = open_session ∷ [] }

abbrev nested : List Op
nested =
    put_op (3 ∷ []) (30 ∷ [])
    ∷ build
    ∷ delete_op (1 ∷ [])
    ∷ build
    ∷ put_op (1 ∷ []) (11 ∷ [])
    ∷ revoke_op
    ∷ commit_op
    ∷ []

reads_nested :
    (get mem_kv (1 ∷ []) (run mem_kv db nested) ≡ err not_found)
    × (get mem_kv (3 ∷ []) (run mem_kv db nested) ≡ ok (30 ∷ []))
    × (get mem_kv (2 ∷ []) (run mem_kv db nested) ≡ err not_found)
unfolding run step get put delete commit revoke build_session lookup insert MemKv.get
reads_nested = (refl, refl, refl)

scans_prefix : scan mem_kv (1 ∷ []) db ≡ ok (((1 ∷ []), (10 ∷ [])) ∷ ((1 ∷ 5 ∷ []), (15 ∷ [])) ∷ [])
unfolding scan sort lookup insert erase MemKv.scan
scans_prefix = refl

views-run_example : views mem_kv (run mem_kv db nested) ≡ spec_run (views mem_kv db) nested
unfolding lookup MemKv.put MemKv.delete
views-run_example =
    views-run mem_kv (record { put_succeeds = λ k v s. refl; delete_succeeds = λ k s. refl }) db
      nested ((refl, (refl, tt)), ((refl, (refl, tt)), tt))

revoke-run-build_session_example :
    revoke mem_kv (run mem_kv (build_session mem_kv db).0 nested) ≡ (db, true)
revoke-run-build_session_example = revoke-run-build_session mem_kv db nested refl

get-commit_example : get mem_kv (2 ∷ []) (commit mem_kv db).0 ≡ get mem_kv (2 ∷ []) db
unfolding lookup commit MemKv.put MemKv.delete
get-commit_example =
    get-commit mem_kv (2 ∷ []) db ((refl, (refl, tt)), ((refl, (refl, tt)), tt)) refl

scan-get_example :
    let m : Map Bytes Bytes = ((1 ∷ []), (10 ∷ [])) ∷ ((1 ∷ 5 ∷ []), (15 ∷ [])) ∷ [] in
    ((k : Bytes)
      → lookup k m ≡ (if has_prefix k (1 ∷ []) then readable (get mem_kv k db) else none))
    × IsSorted m
unfolding lookup
scan-get_example =
    scan-get mem_kv (1 ∷ []) db ((refl, (refl, tt)), ((refl, (refl, tt)), tt)) scans_prefix
