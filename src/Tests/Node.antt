-- ===== src/Tests/Node.antt =====
-- A chain of two blocks over a root, a rival branch of three, and rivals that fail.
use go_tron.Node.{
  Ended, process_error, slice_out_of_range, Blocks, Manager, AppliedRef, apply_block, apply_branch,
  apply_on_top, switch_branches, push_block,
}
use go_tron.Khaos
use go_tron.Node.Rollback.{apply_on_top-apply_block, switch_branches-apply_branch}
use go_tron.Node.Aligned.{push_block-IsAligned}
use go_tron.Db.Snapshot
use mathlib.Core.Option as Option
use go_tron.Khaos.{KBlock, KhaosDb, reject_tip}
use go_tron.Db.MemKv
use go_tron.Db.MemKv.{mem_kv}
use go_tron.Db.Snapshot.{Session, depth, build_session, put, revoke}
use go_tron.Db.Snapshot.Rollback.{put_op, run, step}
use go_tron.Prelude.Map.{insert, lookup, erase}
use go_tron.Prelude.Int.{pos, ◌-ℤ◌}
use go_tron.Prelude.Int64.{sub64, wrap64}
use go_tron.Prelude.Result.{ok, err}
use go_tron.Prelude.{
  ℕ, Bool, true, false, if◌then◌else◌, Option, none, some, List, [], ◌∷◌, ◌≡◌, ◌==◌, refl, length,
}

record TestBlock : Type 0 where
  id : ℕ
  parent : ℕ
  num : ℕ
  fails : Bool

-- A block writes its number under its id.
abbrev blocks : Blocks mem_kv
blocks = record {
  Block = TestBlock;
  Failure = ℕ;
  block_id = λ b. ok (b.id ∷ []);
  parent_hash = λ b. b.parent ∷ [];
  number = λ b. pos b.num;
  calc_tx_trie_root = λ b. some [];
  tx_trie_root = λ b. [];
  calls = λ b d. put_op (b.id ∷ []) (b.num ∷ []) ∷ [];
  failure = λ b d. if b.fails then some b.id else none;
  balanced = λ b d. refl;
}

abbrev block : ℕ → ℕ → ℕ → Bool → TestBlock
block id parent num fails = record { id = id; parent = parent; num = num; fails = fails }

abbrev started : Manager blocks
started = record {
  db = record { base = record { m = [] }; sessions = [] };
  khaos =
      (Khaos.start blocks.block_id blocks.parent_hash blocks.number (block 0 9 0 false)
        (Khaos.new (pos 10))).0;
  applied = [];
}

abbrev push_all : List TestBlock → Manager blocks → Option (Manager blocks)
push_all [] m = some m
push_all (b ∷ bs) m = elim (push_block blocks b m) [ none ↦ none | some r ↦ push_all bs r.0 ]

-- Two blocks, then three of a rival branch, of which the last one overtakes.
abbrev switched_head : Option (Manager blocks)
switched_head =
    push_all
      (block 1 0 1 false
        ∷ block 2 1 2 false
        ∷ block 11 0 1 false
        ∷ block 12 11 2 false
        ∷ block 13 12 3 false
        ∷ [])
      started

-- The same, where the second block of the rival branch fails.
abbrev half_applied : Option (Manager blocks)
half_applied =
    push_all
      (block 1 0 1 false
        ∷ block 2 1 2 false
        ∷ block 11 0 1 false
        ∷ block 12 11 2 true
        ∷ block 13 12 3 false
        ∷ [])
      started

abbrev node : TestBlock → KBlock TestBlock
node b = record {
  block = b;
  id = b.id ∷ [];
  parent_id = b.parent ∷ [];
  num = pos b.num;
  parent = none;
}

abbrev old_branch : List (KBlock TestBlock)
old_branch = node (block 1 0 1 false) ∷ node (block 2 1 2 false) ∷ []

abbrev new_branch : List (KBlock TestBlock)
new_branch = node (block 11 0 1 false) ∷ node (block 12 11 2 false) ∷ []

abbrev ref : ℕ → ℕ → AppliedRef
ref id num = record { id = id ∷ []; num = pos num }

abbrev session : ℕ → ℕ → Session
session id num = record { writes = ((id ∷ []), record { value = num ∷ []; deleted = false }) ∷ [] }

abbrev with_blocks : List Session → List AppliedRef → Manager blocks
with_blocks ss refs = record {
  db = record { base = record { m = [] }; sessions = ss };
  khaos = started.khaos;
  applied = refs;
}

abbrev on_old : Manager blocks
on_old = with_blocks (session 2 2 ∷ session 1 1 ∷ []) (ref 2 2 ∷ ref 1 1 ∷ [])

abbrev on_new : Manager blocks
on_new = with_blocks (session 12 2 ∷ session 11 1 ∷ []) (ref 12 2 ∷ ref 11 1 ∷ [])

abbrev on_front : Manager blocks
on_front = with_blocks (session 11 1 ∷ []) (ref 11 1 ∷ [])

-- The old branch on top of a block of the new one.
abbrev on_both : Manager blocks
on_both =
    with_blocks (session 2 2 ∷ session 1 1 ∷ session 11 1 ∷ []) (ref 2 2 ∷ ref 1 1 ∷ ref 11 1 ∷ [])

old_applied : apply_branch blocks old_branch started ≡ (on_old, none)
unfolding apply_branch apply_block build_session run step put revoke insert
old_applied = refl

new_applied : apply_branch blocks new_branch started ≡ (on_new, none)
unfolding apply_branch apply_block build_session run step put revoke insert
new_applied = refl

switch_branches-apply_branch_example :
    switch_branches blocks (12 ∷ []) 2 new_branch old_branch on_old ≡ (on_new, none)
switch_branches-apply_branch_example =
    switch_branches-apply_branch blocks (12 ∷ []) 2 new_branch old_branch started on_old on_new
      old_applied new_applied

abbrev rejected_top : Manager blocks
rejected_top = record on_front { khaos = (reject_tip (12 ∷ []) (some 0) on_front.khaos).0 }

top_fails :
    apply_on_top blocks (node (block 12 11 2 true)) 0 on_front
    ≡ (rejected_top, some (process_error 12))
unfolding apply_on_top apply_block build_session run step put revoke
top_fails = refl

apply_on_top-apply_block_example :
    rejected_top ≡ record on_front { khaos = (reject_tip (12 ∷ []) (some 0) on_front.khaos).0 }
apply_on_top-apply_block_example =
    apply_on_top-apply_block blocks (node (block 12 11 2 true)) 0 on_front rejected_top
      (process_error 12) top_fails

abbrev first : Manager blocks
first = record {
  db = record { base = record { m = [] }; sessions = session 1 1 ∷ [] };
  khaos =
      (Khaos.push blocks.block_id blocks.parent_hash blocks.number (block 1 0 1 false)
        started.khaos).0;
  applied = ref 1 1 ∷ [];
}

pushed : push_block blocks (block 1 0 1 false) started ≡ some (first, none)
unfolding push_block lookup Khaos.start insert Khaos.new Khaos.push put
pushed = refl

push_block-IsAligned_example : depth mem_kv first.db ≡ length first.applied
unfolding depth
push_block-IsAligned_example =
    push_block-IsAligned blocks (block 1 0 1 false) started first none refl pushed

-- Blocks 1 and 2 under the head, and 11 and 12 beside them.
abbrev grow : TestBlock → KhaosDb TestBlock → KhaosDb TestBlock
grow b k = (Khaos.push blocks.block_id blocks.parent_hash blocks.number b k).0

abbrev forked : KhaosDb TestBlock
forked =
    grow (block 12 11 2 false) (
      grow (block 11 0 1 false) (grow (block 2 1 2 false) (grow (block 1 0 1 false) started.khaos)))

-- Block 1 fails where the rival block 11 was applied before it.
abbrev touchy : Blocks mem_kv
touchy = record blocks {
  failure = λ b d.
      if b.fails
      then some b.id
      else if b.id == 1
      then elim (Snapshot.get mem_kv (11 ∷ []) d) [ ok _ ↦ some 1 | err _ ↦ none ]
      else none;
}

abbrev push_each : List TestBlock → Ended touchy → Option (Ended touchy)
push_each [] r = some r
push_each (b ∷ bs) r = elim (push_block touchy b r.0) [ none ↦ none | some r' ↦ push_each bs r' ]

-- The rival branch fails at 12, and restoring the old branch stops at 1; block 14 on 12 then moves
-- the head again, and the old branch of two blocks meets one block that is applied.
overrun :
    Option.map
      (λ r. r.1)
      (push_each
        (block 1 0 1 false
          ∷ block 2 1 2 false
          ∷ block 11 0 1 false
          ∷ block 12 11 2 true
          ∷ block 13 12 3 false
          ∷ block 14 12 3 false
          ∷ [])
        (record { db = started.db; khaos = started.khaos; applied = [] }, none))
    ≡ some (some slice_out_of_range)
unfolding push_block lookup insert Khaos.start Khaos.new Khaos.push Snapshot.get MemKv.get sub64
    wrap64 ◌-ℤ◌ put erase
overrun = refl
