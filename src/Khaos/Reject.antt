-- ===== src/Khaos/Reject.antt =====
-- `RejectTip` behind `Push`, as the block pipeline uses it when a new tip does not execute.
use go_tron.Prelude.{ℕ, ◌<◌, true, none, some, ◌∷◌, ◌≡◌, refl, length, arith}
use go_tron.Prelude.Int.{ℤ, pos, ltb_ℤ, leb_ℤ}
use go_tron.Prelude.Bytes.{Bytes, bytes_eq_iff, bytes_eq_instance}
use go_tron.Prelude.Map.{lookup, insert, erase, lookup-insert, lookup-erase}
use go_tron.Prelude.Result.{Result, ok}
use go_tron.Khaos.{Error, KBlock, KhaosDb, node_at, num_at, prune, link, push, reject_tip, contains}
use go_tron.Khaos.Invariant.{IsValid, node_at-lt}
use go_tron.Khaos.Tip.{node_of}

module _ {Block : Type 0} (block_id : Block → Result Error Bytes) (parent_hash : Block → Bytes)
    (number : Block → ℤ) where
  -- The tree behind a push of a new tip, where nothing is pruned.
  abbrev tipped : Block → Bytes → ℕ → KhaosDb Block → KhaosDb Block
  tipped b id p k = record k {
    nodes = node_of parent_hash number b id (some p) ∷ k.nodes;
    blocks = insert id (length k.nodes) k.blocks;
    head = some (length k.nodes);
  }

  push-tipped :
      (b : Block) (k : KhaosDb Block) (id : Bytes) (h p : ℕ)
      → leb_ℤ k.max_size (pos 0) ≡ true
      → k.head ≡ some h
      → block_id b ≡ ok id
      → lookup id k.blocks ≡ none
      → lookup (parent_hash b) k.blocks ≡ some p
      → ltb_ℤ (num_at k.nodes h) (number b) ≡ true
      → (push block_id parent_hash number b k).0 ≡ tipped b id p k
  unfolding push link prune
  push-tipped b k id h p un eh eb new_id par above =
      rw (eb, push, new_id, par, eh, link, above, prune, un)

  reject_tip-tipped :
      (b : Block) (k : KhaosDb Block) (id head_id : Bytes) (h p : ℕ) (n : KBlock Block)
      → h < length k.nodes
      → node_at k.nodes h ≡ some n
      → n.id ≡ head_id
      → lookup head_id k.blocks ≡ some h
      → lookup id k.blocks ≡ none
      → reject_tip id (some h) (tipped b id p k) ≡ (
        record (tipped b id p k) {
          blocks = erase id (insert id (length k.nodes) k.blocks);
          head = some h;
        },
        true,
      )
  unfolding reject_tip node_at contains
  reject_tip-tipped b k id head_id h p n lt at_h ni fh new_id = ground (
    arith,
    bytes_eq_iff id id,
    bytes_eq_iff id n.id,
    bytes_eq_iff n.id id,
    lookup-insert id n.id (length k.nodes) k.blocks,
  )

  lookup-erase-insert :
      (k : KhaosDb Block) (id j : Bytes)
      → lookup id k.blocks ≡ none
      → lookup j (erase id (insert id (length k.nodes) k.blocks)) ≡ lookup j k.blocks
  lookup-erase-insert k id j new_id = ground (
    arith,
    bytes_eq_iff id j,
    lookup-erase id j (insert id (length k.nodes) k.blocks),
    lookup-insert id j (length k.nodes) k.blocks,
  )

  -- A tree without a size bound whose head is filed: a new block that overtakes the head and is
  -- rejected afterwards leaves the old head and the old look-ups behind.
  pub reject_tip-push :
      (b : Block) (k : KhaosDb Block) (id head_id : Bytes) (h p : ℕ)
      → IsValid k
      → leb_ℤ k.max_size (pos 0) ≡ true
      → k.head ≡ some h
      → lookup head_id k.blocks ≡ some h
      → block_id b ≡ ok id
      → lookup id k.blocks ≡ none
      → lookup (parent_hash b) k.blocks ≡ some p
      → ltb_ℤ (num_at k.nodes h) (number b) ≡ true
      → let (k', done) = reject_tip id (some h) (push block_id parent_hash number b k).0 in
        (done ≡ true) × (k'.head ≡ some h) × ((j : Bytes) → lookup j k'.blocks ≡ lookup j k.blocks)
  reject_tip-push b k id head_id h p v un eh fh eb new_id par above =
      let (n, at_h, ni) = v.filed head_id h fh in
      let lt : h < length k.nodes = node_at-lt k.nodes h n at_h in
      rw (push-tipped b k id h p un eh eb new_id par above) (
        rw (reject_tip-tipped b k id head_id h p n lt at_h ni fh new_id)
          (refl, refl, λ j. lookup-erase-insert k id j new_id))
