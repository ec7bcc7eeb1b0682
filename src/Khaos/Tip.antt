-- ===== src/Khaos/Tip.antt =====
-- The head of the fork tree: `Start`, `Push` and `RejectTip`.
use go_tron.Prelude.{
  ℕ, suc, ◌+◌, ◌<◌, ◌≤◌, true, false, Option, none, some, ◌∷◌, ◌≡◌, ◌≢◌, ltb→lt, refl, length,
  arith, ◌∙◌, Option-cases, inl, inr, Bool-cases, ◌⊎◌,
}
use go_tron.Prelude.Int.{ℤ, ltb_ℤ, ◌≤ℤ◌, pos_part, neg_part}
use go_tron.Prelude.Bytes.{Bytes, bytes_eq_iff, bytes_eq_instance}
use go_tron.Prelude.Map.{lookup, insert, lookup-insert, insert-IsUnique}
use go_tron.Prelude.Result.{Result, ok, err, Result-cases}
use go_tron.Khaos.{Error, KBlock, KhaosDb, node_at, num_at, link, push, start, new}
use go_tron.Khaos.Invariant.{
  IsValid, node_at-lt, node_at-cons, num_at-cons, num_at-new, prune-IsValid,
}

-- a < b, on the parts of the integers.
abbrev IsBelow : ℤ → ℤ → Type 0
IsBelow a b = pos_part a + neg_part b < pos_part b + neg_part a

module _ {Block : Type 0} where
  -- A node is added and filed under its id.
  abbrev filed_with : KBlock Block → Option ℕ → KhaosDb Block → KhaosDb Block
  filed_with n head k = record k {
    nodes = n ∷ k.nodes;
    blocks = insert n.id (length k.nodes) k.blocks;
    head = head;
  }

  module _ (k : KhaosDb Block) (v : IsValid k) (n : KBlock Block) where
    -- A look-up behind the insertion finds the new node or an old one.
    found :
        (j : Bytes) (a : ℕ)
        → lookup j (insert n.id (length k.nodes) k.blocks) ≡ some a
        → (a ≡ length k.nodes) × (n.id ≡ j) ⊎ (lookup j k.blocks ≡ some a)
    found j a e =
        ground (arith, lookup-insert n.id j (length k.nodes) k.blocks, bytes_eq_iff n.id j)

    old_lt : (j : Bytes) (a : ℕ) → lookup j k.blocks ≡ some a → a < length k.nodes
    old_lt j a e = let (m, p, q) = v.filed j a e in node_at-lt k.nodes a m p

    pub node_at-new : (a : ℕ) → a ≡ length k.nodes → node_at (n ∷ k.nodes) a ≡ some n
    unfolding node_at
    node_at-new a e = ground arith

    still_filed :
        (j : Bytes) (a : ℕ)
        → lookup j (insert n.id (length k.nodes) k.blocks) ≡ some a
        → (m : KBlock Block) × (node_at (n ∷ k.nodes) a ≡ some m) × (m.id ≡ j)
    still_filed j a e = elim (found j a e) [
      | inl (new, same) ↦ (n, node_at-new a new, same)
      | inr old ↦
          let (m, p, q) = v.filed j a old in (m, node_at-cons n k.nodes a (old_lt j a old) ∙ p, q)
    ]

    -- The number of a filed node is an old one or the new node's.
    bounded :
        (j : Bytes) (a : ℕ) (top : ℤ)
        → lookup j (insert n.id (length k.nodes) k.blocks) ≡ some a
        → n.num ≤ℤ top
        → ((i : Bytes) (b : ℕ) → lookup i k.blocks ≡ some b → num_at k.nodes b ≤ℤ top)
        → num_at (n ∷ k.nodes) a ≤ℤ top
    bounded j a top e hn ho = elim (found j a e) [
      | inl (new, same) ↦ rw (new, num_at-new n k.nodes) hn
      | inr old ↦ rw (num_at-cons n k.nodes a (old_lt j a old)) (ho j a old)
    ]

    filed_with-IsValid :
        (head : Option ℕ)
        → head ≢ none
        → ((p : ℕ) → n.parent ≡ some p → p < length k.nodes)
        → ((h : ℕ) → head ≡ some h → h < suc (length k.nodes))
        → ((h : ℕ) → head ≡ some h → n.num ≤ℤ num_at (n ∷ k.nodes) h)
        → ((i : Bytes) (b h : ℕ)
            → lookup i k.blocks ≡ some b
            → head ≡ some h
            → num_at k.nodes b ≤ℤ num_at (n ∷ k.nodes) h)
        → ((i : Bytes) (b h : ℕ)
            → lookup i k.blocks ≡ some b
            → head ≡ some h
            → num_at (n ∷ k.nodes) h ≤ℤ num_at k.nodes b
            → h ≤ b)
        → IsValid (filed_with n head k)
    filed_with-IsValid head hd wp hl hn ho hf = record {
      wf = (wp, v.wf);
      unique = insert-IsUnique n.id (length k.nodes) k.blocks v.unique;
      filed = still_filed;
      seeded = λ e. absurd (hd e);
      live = hl;
      highest =
          λ j a h e q. bounded j a (num_at (n ∷ k.nodes) h) e (hn h q) (λ i b f. ho i b h f q);
      first_seen = λ j a h e q t. elim (found j a e) [
        | inl (new, same) ↦ omega (arith, hl h q)
        | inr old ↦ hf j a h old q (rw (num_at-cons n k.nodes a (old_lt j a old)) at t)
      ];
    }

  -- The head advances to a node with a higher number.
  ahead-IsValid :
      (k : KhaosDb Block) (n : KBlock Block)
      → IsValid k
      → ((p : ℕ) → n.parent ≡ some p → p < length k.nodes)
      → ((i : Bytes) (b : ℕ) → lookup i k.blocks ≡ some b → IsBelow (num_at k.nodes b) n.num)
      → IsValid (filed_with n (some (length k.nodes)) k)
  ahead-IsValid k n v wp ho =
      filed_with-IsValid k v n (some (length k.nodes)) (λ e. cc) wp (λ h e. ground arith)
        (λ h e. rw (at_head h e) (omega arith))
        (λ i b h f e. rw (at_head h e) (omega (arith, ho i b f)))
        (λ i b h f e t. absurd (omega (arith, ho i b f, rw (at_head h e) at t)))
    where
      at_head : (h : ℕ) → some (length k.nodes) ≡ some h → num_at (n ∷ k.nodes) h ≡ n.num
      at_head h e = let g : h ≡ length k.nodes = ground arith in rw g (num_at-new n k.nodes)

  -- The head stays, since the new node's number is not higher.
  aside-IsValid :
      (k : KhaosDb Block) (n : KBlock Block) (h : ℕ)
      → IsValid k
      → k.head ≡ some h
      → ((p : ℕ) → n.parent ≡ some p → p < length k.nodes)
      → n.num ≤ℤ num_at k.nodes h
      → IsValid (filed_with n (some h) k)
  aside-IsValid k n h v e wp hn =
      filed_with-IsValid k v n (some h) (λ q. cc) wp (λ g q. omega (arith, v.live g (top g q)))
        (λ g q. rw (num_at-cons n k.nodes g (v.live g (top g q))) (rw (same g q) hn))
        (λ i b g f q.
          rw (num_at-cons n k.nodes g (v.live g (top g q))) (v.highest i b g f (top g q)))
        (λ i b g f q t.
          v.first_seen i b g f (top g q) (rw (num_at-cons n k.nodes g (v.live g (top g q))) at t))
    where
      same : (g : ℕ) → some h ≡ some g → g ≡ h
      same g q = ground arith

      top : (g : ℕ) → some h ≡ some g → k.head ≡ some g
      top g q = e ∙ q

module _ {Block : Type 0} (parent_hash : Block → Bytes) (number : Block → ℤ) where
  -- The node that `Push` makes of a block.
  abbrev pub node_of : Block → Bytes → Option ℕ → KBlock Block
  node_of b id parent = record {
    block = b;
    id = id;
    parent_id = parent_hash b;
    num = number b;
    parent = parent;
  }

module _ {Block : Type 0} (block_id : Block → Result Error Bytes) (parent_hash : Block → Bytes)
    (number : Block → ℤ) where
  -- Seeding an empty tree makes it valid, or changes nothing where the block has no id.
  pub start-IsValid :
      (size : ℤ) (root : Block) → IsValid (start block_id parent_hash number root (new size)).0
  unfolding start new lookup
  start-IsValid size root = go (block_id root) refl
    where
      empty : IsValid {Block = Block} (new size)
      empty = record {
        wf = tt;
        unique = tt;
        filed = λ j a e. cc;
        seeded = λ e j. refl;
        live = λ h e. cc;
        highest = λ j a h e. cc;
        first_seen = λ j a h e. cc;
      }

      go :
          (r : Result Error Bytes)
          → block_id root ≡ r
          → IsValid (start block_id parent_hash number root (new size)).0
      go (err e) q = rw (q, start) empty
      go (ok id) q =
          rw (q, start)
            (ahead-IsValid (new size) (node_of parent_hash number root id none) empty (λ p e. cc)
              (λ i b e. cc))

  link-IsValid :
      (b : Block) (id : Bytes) (p : ℕ) (k : KhaosDb Block)
      → IsValid k
      → lookup (parent_hash b) k.blocks ≡ some p
      → IsValid (link block_id parent_hash number b id p k)
  unfolding link
  link-IsValid b id p k v e = go k.head refl
    where
      n : KBlock Block
      n = node_of parent_hash number b id (some p)

      older : (q : ℕ) → some p ≡ some q → q < length k.nodes
      older q f = let g : q ≡ p = ground arith in rw g (old_lt k v n (parent_hash b) p e)

      headless : k.head ≡ none → ⊥
      headless q = cc (v.seeded q (parent_hash b))

      strictly :
          (h : ℕ)
          → k.head ≡ some h
          → ltb_ℤ (num_at k.nodes h) (number b) ≡ true
          → (i : Bytes) (a : ℕ) → lookup i k.blocks ≡ some a
          → IsBelow (num_at k.nodes a) (number b)
      strictly h q t i a f = omega (arith, v.highest i a h f q, ltb→lt _ _ t)

      not_above :
          (h : ℕ) → ltb_ℤ (num_at k.nodes h) (number b) ≡ false → number b ≤ℤ num_at k.nodes h
      not_above h t = ground arith

      go : (o : Option ℕ) → k.head ≡ o → IsValid (link block_id parent_hash number b id p k)
      go none q = absurd (headless q)
      go (some h) q = elim (Bool-cases (ltb_ℤ (num_at k.nodes h) (number b))) [
        | inl above ↦
            rw (q, link, above)
              (prune-IsValid (filed_with n (some (length k.nodes)) k)
                (ahead-IsValid k n v older (strictly h q above)))
        | inr level ↦ rw (q, link, level) (aside-IsValid k n h v q older (not_above h level))
      ]

  -- `Push` keeps the tree valid on each of its paths: parents are older than children, nodes stand
  -- under their own ids, and the head is the first seen of the highest-numbered blocks.
  pub push-IsValid :
      (b : Block) (k : KhaosDb Block) → IsValid k → IsValid (push block_id parent_hash number b k).0
  unfolding push
  push-IsValid b k v = elim (Result-cases (block_id b)) [
    | inr (e, q) ↦ rw (q, push) v
    | inl (id, q) ↦ elim (Option-cases (lookup id k.blocks)) [
      | inr (a, p) ↦ rw (q, push, p) v
      | inl new_id ↦ elim (Option-cases (lookup (parent_hash b) k.blocks)) [
        | inl orphan ↦ rw (q, push, new_id, orphan) v
        | inr (a, p) ↦ rw (q, push, new_id, p) (link-IsValid b id a k v p)
      ]
    ]
  ]
