-- ===== src/Node/Returns.antt =====
-- manager.go: PushBlock returns, whatever the block, and where it panics.
use go_tron.Node.{slice_out_of_range, Blocks, Manager, Ended}
use go_tron.Khaos
use go_tron.Khaos.{KBlock, node_at}
use go_tron.Khaos.Fork.{get_branch}
use go_tron.Db.Kv.{Kv}
use go_tron.Prelude.Bytes.{Bytes, bytes_eq}
use go_tron.Prelude.Result.{ok}
use go_tron.Prelude.{false, ℕ, ◌<◌, ◌≡◌, ◌≢◌, Option, some, List, length}

module _ {kv : Kv} (o : Blocks kv) where
  -- The call does not end in a panic.
  abbrev pub IsCalm : Ended o → Type 0
  IsCalm r = r.1 ≢ some slice_out_of_range

  -- `GetBranch` of a node and of the old head gives an old branch that is longer than the list of
  -- the blocks that are applied.
  abbrev pub IsOutrun : KBlock o.Block → KBlock o.Block → Manager o → Type 0
  IsOutrun node old m =
      (new : List ℕ) × ((back : List ℕ) × (get_branch node.id old.id m.khaos
          ≡ some (ok (new, back)))
        × (length m.applied < length back))

  abbrev Returns : (Ended o → Type 0) → Option (Ended o) → Type 0
  Returns P r = (e : Ended o) × (r ≡ some e) × P e

  -- The new node and the old head, of which the new node is on another branch.
  abbrev pub IsOverrun : ℕ → ℕ → Manager o → Type 0
  IsOverrun a old_head m =
      (node : KBlock o.Block) × ((old : KBlock o.Block) × (node_at m.khaos.nodes a ≡ some node)
        × (node_at m.khaos.nodes old_head ≡ some old)
        × (bytes_eq node.parent_id old.id ≡ false)
        × IsOutrun node old m)

  -- The manager behind `Push` of the fork tree.
  abbrev pub linked : o.Block → Manager o → Manager o
  linked b m = record m { khaos = (Khaos.push o.block_id o.parent_hash o.number b m.khaos).0 }

  -- The new block's node becomes the head in place of a node of another branch, which is longer,
  -- back to the common ancestor, than the list of the blocks that are applied.
  abbrev pub IsShort : o.Block → Manager o → Type 0
  IsShort b m =
      (a : ℕ) × ((h : ℕ) × (m.khaos.head ≡ some h)
        × ((Khaos.push o.block_id o.parent_hash o.number b m.khaos).1 ≡ ok a)
        × IsOverrun a h (linked b m))
