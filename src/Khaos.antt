-- ===== src/Khaos.antt =====
-- internal/khaos/khaos.go: the fork tree. A `*KBlock` is an address of the heap of nodes, so that
-- `Parent` pointers outlive the map, and `n1 != n2` compares addresses.
pub mod Invariant
pub mod Tip
pub mod Seated
pub mod Reject
pub mod Fork
use go_tron.Prelude.{
  ℕ, zero, suc, ◌+◌, Bool, true, false, ◌&&◌, ◌||◌, not, Option, none, some, List, [], ◌∷◌, ◌++◌,
  length, ◌==◌, if◌then◌else◌,
}
use go_tron.Prelude.Int.{ℤ, pos, ltb_ℤ, leb_ℤ}
use go_tron.Prelude.Int64.{sub64}
use go_tron.Prelude.Bytes.{Bytes, bytes_eq, bytes_eq_instance}
use go_tron.Prelude.Map.{Map, lookup, insert, erase}
use go_tron.Prelude.Result.{Result, ok, err}

-- `ErrUnlinked`, `ErrNoCommonAncestor`, and an error of `block.ID`.
pub data Error : Type 0 where
  unlinked no_common_ancestor bad_block : Error

pub record KBlock (Block : Type 0) : Type 0 where
  pub block : Block
  pub id : Bytes
  pub parent_id : Bytes
  pub num : ℤ
  pub parent : Option ℕ

-- The nodes that were allocated, the latest first; the n-th allocated has the address n.
abbrev pub Nodes : Type 0 → Type 0
Nodes Block = List (KBlock Block)

module _ {Block : Type 0} where
  unfoldable pub node_at : Nodes Block → ℕ → Option (KBlock Block)
  node_at [] a = none
  node_at (n ∷ ns) a = if a == length ns then some n else node_at ns a

  -- `n.Num` and `n.Parent`; addresses are never dangling, see `Invariant`.
  unfoldable pub num_at : Nodes Block → ℕ → ℤ
  unfolding node_at
  num_at ns a = elim (node_at ns a) [ some n ↦ n.num | none ↦ pos 0 ]

  unfoldable pub parent_at : Nodes Block → ℕ → Option ℕ
  unfolding node_at
  parent_at ns a = elim (node_at ns a) [ some n ↦ n.parent | none ↦ none ]

-- The map is keyed by the ids themselves, where the source keys it by their hexadecimal form.
pub record KhaosDb (Block : Type 0) : Type 0 where
  pub nodes : Nodes Block
  pub blocks : Map Bytes ℕ
  pub head : Option ℕ
  pub max_size : ℤ

module _ {Block : Type 0} where
  unfoldable pub new : ℤ → KhaosDb Block
  new max_size = record { nodes = []; blocks = []; head = none; max_size = max_size }

  -- The loop of `prune` over the map.
  unfoldable pub prune_blocks : Nodes Block → ℤ → Map Bytes ℕ → Map Bytes ℕ
  unfolding num_at
  prune_blocks ns floor [] = []
  prune_blocks ns floor ((id, a) ∷ m) =
      let rest = prune_blocks ns floor m in
      if ltb_ℤ (num_at ns a) floor then rest else (id, a) ∷ rest

  unfoldable pub prune : KhaosDb Block → KhaosDb Block
  unfolding prune_blocks num_at
  prune k = elim k.head [
    | none ↦ k
    | some h ↦ if leb_ℤ k.max_size (pos 0) then k else record k {
      blocks = prune_blocks k.nodes (sub64 (num_at k.nodes h) k.max_size) k.blocks;
    }
  ]

  unfoldable pub get : Bytes → KhaosDb Block → Option ℕ
  get id k = lookup id k.blocks

  unfoldable pub contains : Bytes → KhaosDb Block → Bool
  contains id k = elim (lookup id k.blocks) [ none ↦ false | some _ ↦ true ]

  unfoldable pub size : KhaosDb Block → ℕ
  size k = length k.blocks

  -- A new node, filed under its id; its address is the count of the nodes before it.
  abbrev file : Block → Bytes → Bytes → ℤ → Option ℕ → KhaosDb Block → KhaosDb Block
  file b id parent_id num parent k = record k {
    nodes =
        record { block = b; id = id; parent_id = parent_id; num = num; parent = parent } ∷ k.nodes;
    blocks = insert id (length k.nodes) k.blocks;
  }

  -- `k.head == nil || node.Num > k.head.Num`
  abbrev overtakes : ℤ → KhaosDb Block → Bool
  overtakes num k = elim k.head [ none ↦ true | some h ↦ ltb_ℤ (num_at k.nodes h) num ]

  same_id : Bytes → KhaosDb Block → Bool
  unfolding node_at
  same_id id k = elim k.head [
    | none ↦ false
    | some h ↦ elim (node_at k.nodes h) [ none ↦ false | some n ↦ bytes_eq n.id id ]
  ]

  abbrev retained : Option ℕ → KhaosDb Block → Bool
  retained none k = true
  retained (some p) k = elim (node_at k.nodes p) [ none ↦ false | some n ↦ contains n.id k ]

  unfoldable pub reject_tip : Bytes → Option ℕ → KhaosDb Block → KhaosDb Block × Bool
  unfolding same_id contains node_at
  reject_tip id previous k =
      if not (same_id id k)
      then (k, false)
      else if not (retained previous k)
      then (k, false)
      else (record k { blocks = erase id k.blocks; head = previous }, true)

-- What the tree reads of a block, from internal/block.
module _ {Block : Type 0} (block_id : Block → Result Error Bytes) (parent_hash : Block → Bytes)
    (number : Block → ℤ) where
  unfoldable pub start : Block → KhaosDb Block → KhaosDb Block × Option Error
  start root k = elim (block_id root) [
    | err e ↦ (k, some e)
    | ok id ↦ (
      record (file root id (parent_hash root) (number root) none k) {
        head = some (length k.nodes);
      },
      none,
    )
  ]

  -- The part of `Push` behind the look-ups.
  unfoldable pub link : Block → Bytes → ℕ → KhaosDb Block → KhaosDb Block
  unfolding prune num_at
  link b id parent k =
      let k' = file b id (parent_hash b) (number b) (some parent) k in
      if overtakes (number b) k then prune (record k' { head = some (length k.nodes) }) else k'

  unfoldable pub push : Block → KhaosDb Block → KhaosDb Block × Result Error ℕ
  unfolding link
  push b k = elim (block_id b) [
    | err e ↦ (k, err e)
    | ok id ↦ elim (lookup id k.blocks) [
      | some existing ↦ (k, ok existing)
      | none ↦ elim (lookup (parent_hash b) k.blocks) [
        | none ↦ (k, err unlinked)
        | some parent ↦ (link b id parent k, ok (length k.nodes))
      ]
    ]
  ]
