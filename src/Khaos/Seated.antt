-- ===== src/Khaos/Seated.antt =====
-- khaos.go: `Push` keeps the head among the blocks that are filed.
use go_tron.Prelude.{
  ℕ, none, some, ◌∷◌, ◌≡◌, refl, sym, ap, length, arith, ◌∙◌, Option-cases, inl, inr, Bool-cases,
}
use go_tron.Prelude.Int.{ℤ, pos, ltb_ℤ, leb_ℤ, ◌≤ℤ◌}
use go_tron.Prelude.Int64.{IsInt64, sub64, sub64_parts, one_part}
use go_tron.Prelude.Bytes.{Bytes, bytes_eq_iff, bytes_eq_instance}
use go_tron.Prelude.Map.{lookup, insert, IsUnique, lookup-insert, insert-IsUnique}
use go_tron.Prelude.Result.{Result, Result-cases}
use go_tron.Khaos.{Error, KBlock, KhaosDb, node_at, num_at, prune, link, push}
use go_tron.Khaos.Invariant.{IsValid, lookup-prune_blocks, node_at-cons}
use go_tron.Khaos.Tip.{node_of, node_at-new, push-IsValid}

module _ {Block : Type 0} where
  -- The head is a node, and the map files it under its own id.
  abbrev pub IsSeated : KhaosDb Block → Type 0
  IsSeated k =
      (h : ℕ)
      → k.head ≡ some h
      → (n : KBlock Block) × (node_at k.nodes h ≡ some n) × (lookup n.id k.blocks ≡ some h)

  -- The head stays out of what `prune` drops: a number that is not negative, less the size, does
  -- not wrap.
  prune-keeps :
      (k : KhaosDb Block) (h : ℕ) (n : KBlock Block)
      → IsUnique k.blocks
      → IsInt64 k.max_size
      → pos 0 ≤ℤ n.num
      → IsInt64 n.num
      → k.head ≡ some h
      → node_at k.nodes h ≡ some n
      → lookup n.id k.blocks ≡ some h
      → lookup n.id (prune k).blocks ≡ some h
  unfolding prune num_at
  prune-keeps k h n u room low small e at_h there = elim (Bool-cases (leb_ℤ k.max_size (pos 0))) [
    | inl off ↦ rw (e, prune, off) there
    | inr on ↦ ground (
      arith,
      sub64_parts n.num k.max_size,
      one_part n.num,
      lookup-prune_blocks k.nodes (sub64 (num_at k.nodes h) k.max_size) n.id k.blocks u,
    )
  ]

  prune-shape : (k : KhaosDb Block) → ((prune k).head ≡ k.head) × ((prune k).nodes ≡ k.nodes)
  unfolding prune
  prune-shape k = ground arith

module _ {Block : Type 0} (block_id : Block → Result Error Bytes) (parent_hash : Block → Bytes)
    (number : Block → ℤ) where
  link-IsSeated :
      (b : Block) (id : Bytes) (p : ℕ) (k : KhaosDb Block)
      → IsValid k
      → IsSeated k
      → IsInt64 k.max_size
      → pos 0 ≤ℤ number b
      → IsInt64 (number b)
      → lookup id k.blocks ≡ none
      → lookup (parent_hash b) k.blocks ≡ some p
      → IsSeated (link block_id parent_hash number b id p k)
  unfolding link
  link-IsSeated b id p k v s room low small new_id e = elim (Option-cases k.head) [
    | inl q ↦ cc (v.seeded q (parent_hash b))
    | inr (h, q) ↦ elim (Bool-cases (ltb_ℤ (num_at k.nodes h) (number b))) [
      | inl above ↦
          rw (q, link, above)
            (λ g f.
              let at_new : g ≡ length k.nodes = ground (arith, prune-shape ahead) in
              (
                n,
                ap (λ ns. node_at ns g) (prune-shape ahead).1 ∙ node_at-new k v n g at_new,
                prune-keeps ahead (length k.nodes) n
                      (insert-IsUnique id (length k.nodes) k.blocks v.unique) room low small refl
                      (node_at-new k v n (length k.nodes) refl) filed_new
                    ∙ ap some (sym at_new),
              ))
      | inr level ↦
          rw (q, link, level)
            (λ g f.
              let (m, at_g, there) = s g (q ∙ f) in
              (m, node_at-cons n k.nodes g (v.live g (q ∙ f)) ∙ at_g, still g m there))
    ]
  ]
    where
      n : KBlock Block
      n = node_of parent_hash number b id (some p)

      ahead : KhaosDb Block
      ahead = record k {
        nodes = n ∷ k.nodes;
        blocks = insert id (length k.nodes) k.blocks;
        head = some (length k.nodes);
      }

      filed_new : lookup id (insert id (length k.nodes) k.blocks) ≡ some (length k.nodes)
      filed_new = ground (arith, lookup-insert id id (length k.nodes) k.blocks, bytes_eq_iff id id)

      still :
          (g : ℕ) (m : KBlock Block)
          → lookup m.id k.blocks ≡ some g
          → lookup m.id (insert id (length k.nodes) k.blocks) ≡ some g
      still g m there =
          ground (arith, lookup-insert id m.id (length k.nodes) k.blocks, bytes_eq_iff id m.id)

  seated :
      (b : Block) (k : KhaosDb Block)
      → IsValid k
      → IsSeated k
      → IsInt64 k.max_size
      → pos 0 ≤ℤ number b
      → IsInt64 (number b)
      → IsSeated (push block_id parent_hash number b k).0
  unfolding push
  seated b k v s room low small = elim (Result-cases (block_id b)) [
    | inr (e, q) ↦ rw (q, push) s
    | inl (id, q) ↦ elim (Option-cases (lookup id k.blocks)) [
      | inr (a, p) ↦ rw (q, push, p) s
      | inl new_id ↦ elim (Option-cases (lookup (parent_hash b) k.blocks)) [
        | inl orphan ↦ rw (q, push, new_id, orphan) s
        | inr (a, p) ↦ rw (q, push, new_id, p) (link-IsSeated b id a k v s room low small new_id p)
      ]
    ]
  ]

  -- `Push` keeps the tree valid on each of its paths, and its head among the blocks that are filed:
  -- parents are older than children, nodes stand under their own ids, and the head is the first seen
  -- of the highest-numbered blocks, is a node, and is filed under its own id, also behind a `prune`.
  -- It holds of a block whose number is an int64 that is not negative, on a tree whose size bound is
  -- an int64.
  pub push-IsSeated :
      (b : Block) (k : KhaosDb Block)
      → IsValid k
      → IsSeated k
      → IsInt64 k.max_size
      → pos 0 ≤ℤ number b
      → IsInt64 (number b)
      → IsValid (push block_id parent_hash number b k).0
        × IsSeated (push block_id parent_hash number b k).0
  push-IsSeated b k v s room low small =
      (push-IsValid block_id parent_hash number b k v, seated b k v s room low small)
