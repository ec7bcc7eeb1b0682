-- ===== src/Node.antt =====
-- internal/node/manager.go: the manager, which applies blocks to the database along the fork tree.
pub mod Rollback
pub mod Maintenance
pub mod Deltas
pub mod Counts
pub mod Tally
pub mod Aligned
pub mod Returns
use go_tron.Prelude.{
  ℕ, suc, Bool, true, false, if◌then◌else◌, Option, none, some, List, [], ◌∷◌, ◌++◌, ◌≡◌, not,
}
use go_tron.Prelude.Bytes.{Bytes, bytes_eq}
use go_tron.Prelude.Int.{ℤ}
use go_tron.Prelude.Result.{Result, ok, err}
use go_tron.Db.Kv.{Kv}
use go_tron.Db.Snapshot.{Database, build_session, revoke}
use go_tron.Db.Snapshot.Rollback.{Op, run, level_after}
use go_tron.Khaos
use go_tron.Khaos.{KBlock, KhaosDb, Nodes, node_at, contains, reject_tip}
use go_tron.Khaos.Fork.{get_branch}

-- `slice_out_of_range` is the panic of a slice of `applied`; no caller recovers from it.
pub data Error (E : Type 0) : Type 0 where
  khaos_error : Khaos.Error → Error E
  root_error tx_trie_root_mismatch before_init_genesis slice_out_of_range : Error E
  process_error : E → Error E

pub record AppliedRef : Type 0 where
  pub id : Bytes
  pub num : ℤ

-- What the manager takes from internal/block, and `processBlock`: the calls that the actuators and
-- the stores make of the database, and the error it ends in. They run inside the block's session,
-- which they leave open, the innermost one.
pub record Blocks (kv : Kv) : Type 1 where
  pub Block : Type 0
  pub Failure : Type 0
  pub block_id : Block → Result Khaos.Error Bytes
  pub parent_hash : Block → Bytes
  pub number : Block → ℤ
  pub calc_tx_trie_root : Block → Option Bytes
  pub tx_trie_root : Block → Bytes
  pub calls : Block → Database kv → List Op
  pub failure : Block → Database kv → Option Failure
  pub balanced : (b : Block) (d : Database kv) → level_after 1 (calls b d) ≡ some 1

module _ {kv : Kv} (o : Blocks kv) where
  -- `applied` holds the head branch, its tip first.
  pub record Manager : Type 0 where
    pub db : Database kv
    pub khaos : KhaosDb o.Block
    pub applied : List AppliedRef

  abbrev pub Ended : Type 0
  Ended = Manager × Option (Error o.Failure)

  -- A block in a new session, which a failure revokes.
  unfoldable pub apply_block : KBlock o.Block → Manager → Ended
  unfolding build_session run revoke
  apply_block n m =
      let opened = (build_session kv m.db).0 in
      let d = run kv opened (o.calls n.block opened) in
      elim (o.failure n.block opened) [
        | some e ↦ (record m { db = (revoke kv d).0 }, some (process_error e))
        | none ↦
            (record m { db = d; applied = record { id = n.id; num = n.num } ∷ m.applied }, none)
      ]

  abbrev pub go_on : Ended → (Manager → Ended) → Ended
  go_on (m, some e) next = (m, some e)
  go_on (m, none) next = next m

  -- Both loops over a branch, ancestor first: they stop at the first failure.
  unfoldable pub apply_branch : List (KBlock o.Block) → Manager → Ended
  unfolding apply_block
  apply_branch [] m = (m, none)
  apply_branch (n ∷ ns) m = go_on (apply_block n m) (λ m'. apply_branch ns m')

  abbrev pub rejected : Bytes → ℕ → Ended → Ended
  rejected id old_head (m, none) = (m, none)
  rejected id old_head (m, some e) =
      (record m { khaos = (reject_tip id (some old_head) m.khaos).0 }, some e)

  unfoldable pub apply_on_top : KBlock o.Block → ℕ → Manager → Ended
  unfolding apply_block reject_tip
  apply_on_top node old_head m = rejected node.id old_head (apply_block node m)

  -- The loop that revokes the old branch. Where no block is left in `applied`, the slice without its
  -- last element panics, behind the call of Revoke.
  unfoldable pub revoke_branch : List (KBlock o.Block) → Manager → Ended
  unfolding revoke
  revoke_branch [] m = (m, none)
  revoke_branch (_ ∷ ns) m = elim m.applied [
    | [] ↦ (record m { db = (revoke kv m.db).0 }, some slice_out_of_range)
    | _ ∷ rest ↦ revoke_branch ns (record m { db = (revoke kv m.db).0; applied = rest })
  ]

  -- The blocks of a branch, which `GetBranch` gives tip first, the ancestor's child first.
  abbrev pub ancestor_first : Nodes o.Block → List ℕ → List (KBlock o.Block)
  unfolding node_at
  ancestor_first ns [] = []
  ancestor_first ns (a ∷ rest) = elim (node_at ns a) [
    | none ↦ ancestor_first ns rest
    | some n ↦ ancestor_first ns rest ++ n ∷ []
  ]

  -- Where a block of the new branch fails, the old one is applied again and the tip is rejected.
  unfoldable pub settle : Bytes → ℕ → List (KBlock o.Block) → Ended → Ended
  unfolding apply_branch reject_tip
  settle id old_head old (m, none) = (m, none)
  settle id old_head old (m, some e) = rejected id old_head ((apply_branch old m).0, some e)

  -- The old branch is revoked and the new one is applied; a panic of the first loop ends it.
  unfoldable pub switch_branches :
      Bytes → ℕ → List (KBlock o.Block) → List (KBlock o.Block) → Manager → Ended
  unfolding revoke_branch apply_branch settle
  switch_branches id old_head new old m =
      go_on (revoke_branch old m) (λ m'. settle id old_head old (apply_branch new m'))

  -- Behind the answer of `GetBranch`.
  unfoldable pub switched :
      KBlock o.Block → ℕ → Manager → Option (Result Khaos.Error (List ℕ × List ℕ)) → Option Ended
  unfolding switch_branches
  switched node old_head m none = none
  switched node old_head m (some (err e)) = some (m, some (khaos_error e))
  switched node old_head m (some (ok (new, old))) = some (
      switch_branches node.id old_head (ancestor_first m.khaos.nodes new)
        (ancestor_first m.khaos.nodes old) m)

  unfoldable pub switch_fork : KBlock o.Block → ℕ → KBlock o.Block → Manager → Option Ended
  unfolding get_branch switched
  switch_fork node old_head old m = switched node old_head m (get_branch node.id old.id m.khaos)

  unfoldable pub validate_block : o.Block → Option (Error o.Failure)
  validate_block b = elim (o.calc_tx_trie_root b) [
    | none ↦ some root_error
    | some got ↦ if bytes_eq got (o.tx_trie_root b) then none else some tx_trie_root_mismatch
  ]

  -- The new node is the head, and it extends the old one or overtook another branch.
  unfoldable pub route : ℕ → ℕ → Manager → Option Ended
  unfolding node_at apply_on_top switch_fork
  route a old_head m = elim (node_at m.khaos.nodes a) [
    | none ↦ some (m, none)
    | some node ↦ elim (node_at m.khaos.nodes old_head) [
      | none ↦ some (m, none)
      | some old ↦
          if bytes_eq node.parent_id old.id
          then some (apply_on_top node old_head m)
          else switch_fork node old_head old m
    ]
  ]

  abbrev pub is_head : ℕ → KhaosDb o.Block → Bool
  unfolding node_at
  is_head a k = elim k.head [
    | none ↦ false
    | some h ↦ elim (node_at k.nodes h) [
      | none ↦ false
      | some head ↦ elim (node_at k.nodes a) [ none ↦ false | some n ↦ bytes_eq head.id n.id ]
    ]
  ]

  -- The part of `PushBlock` behind the look-up and the validation.
  unfoldable pub push_new : o.Block → Manager → Option Ended
  unfolding route
  push_new b m = elim m.khaos.head [
    | none ↦ some (m, some before_init_genesis)
    | some old_head ↦
        let (k, pushed) = Khaos.push o.block_id o.parent_hash o.number b m.khaos in
        elim pushed [
          | err e ↦ some (record m { khaos = k }, some (khaos_error e))
          | ok a ↦
              if is_head a k
              then route a old_head (record m { khaos = k })
              else some (record m { khaos = k }, none)
        ]
  ]

  -- `none` would mean that GetBranch ran out of fuel, which it never does.
  unfoldable pub push_block : o.Block → Manager → Option Ended
  unfolding push_new validate_block contains
  push_block b m = elim (o.block_id b) [
    | err e ↦ some (m, some (khaos_error e))
    | ok id ↦
        if contains id m.khaos
        then some (m, none)
        else elim (validate_block b) [ some e ↦ some (m, some e) | none ↦ push_new b m ]
  ]
