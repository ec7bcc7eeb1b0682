-- ===== src/Khaos/Invariant.antt =====
-- What holds of the fork tree between two calls.
use go_tron.Prelude.{
  ℕ, ◌<◌, ◌≤◌, Option, none, some, [], ◌∷◌, ◌≡◌, refl, length, ◌==◌, if◌then◌else◌, arith, inl, inr,
  Bool-cases,
}
use go_tron.Prelude.Int.{ℤ, pos, ltb_ℤ, leb_ℤ, ◌≤ℤ◌}
use go_tron.Prelude.Int64.{sub64}
use go_tron.Prelude.Bytes.{Bytes, bytes_eq_iff, bytes_eq_instance}
use go_tron.Prelude.Map.{Map, lookup, IsUnique}
use go_tron.Khaos.{KBlock, Nodes, KhaosDb, node_at, num_at, parent_at, prune_blocks, prune}

module _ {Block : Type 0} where
  -- A node's parent was allocated before it.
  abbrev pub IsWf : Nodes Block → Type 0
  IsWf [] = Unit
  IsWf (n ∷ ns) = ((p : ℕ) → n.parent ≡ some p → p < length ns) × IsWf ns

  pub node_at-lt :
      (ns : Nodes Block) (a : ℕ) (n : KBlock Block) → node_at ns a ≡ some n → a < length ns
  unfolding node_at
  node_at-lt [] a n h = cc
  node_at-lt (m ∷ ns) a n h = ground (arith, node_at-lt ns a n)

  pub parent_at-lt : (ns : Nodes Block) (a p : ℕ) → IsWf ns → parent_at ns a ≡ some p → p < a
  unfolding parent_at node_at
  parent_at-lt [] a p w h = cc
  parent_at-lt (m ∷ ns) a p w h = ground (arith, w.0 p, parent_at-lt ns a p w.1)

  pub node_at-exists :
      (ns : Nodes Block) (a : ℕ) → a < length ns → (n : KBlock Block) × (node_at ns a ≡ some n)
  unfolding node_at
  node_at-exists [] a h = absurd (omega arith)
  node_at-exists (m ∷ ns) a h = elim (Bool-cases (a == length ns)) [
    | inl e ↦ (m, rw e)
    | inr e ↦ let (n, p) = node_at-exists ns a (ground arith) in (n, rw e p)
  ]

  -- A node that is added moves no other.
  pub node_at-cons :
      (n : KBlock Block) (ns : Nodes Block) (a : ℕ)
      → a < length ns
      → node_at (n ∷ ns) a ≡ node_at ns a
  unfolding node_at
  node_at-cons n ns a h = ground arith

  pub num_at-cons :
      (n : KBlock Block) (ns : Nodes Block) (a : ℕ)
      → a < length ns
      → num_at (n ∷ ns) a ≡ num_at ns a
  unfolding num_at
  num_at-cons n ns a h = rw (num_at, node_at-cons n ns a h)

  pub num_at-new : (n : KBlock Block) (ns : Nodes Block) → num_at (n ∷ ns) (length ns) ≡ n.num
  unfolding num_at
  num_at-new n ns = ground arith

  -- What `prune` keeps of the map: the entries whose number is not below the floor.
  pub lookup-prune_blocks :
      (ns : Nodes Block) (floor : ℤ) (j : Bytes) (m : Map Bytes ℕ)
      → IsUnique m
      → lookup j (prune_blocks ns floor m) ≡ elim (lookup j m) [
        | none ↦ none
        | some a ↦ if ltb_ℤ (num_at ns a) floor then none else some a
      ]
  unfolding prune_blocks lookup
  lookup-prune_blocks ns floor j [] u = refl
  lookup-prune_blocks ns floor j ((id, a) ∷ m) u =
      ground (arith, bytes_eq_iff id j, lookup-prune_blocks ns floor j m u.1)

  prune_blocks-IsUnique :
      (ns : Nodes Block) (floor : ℤ) (m : Map Bytes ℕ)
      → IsUnique m
      → IsUnique (prune_blocks ns floor m)
  unfolding prune_blocks
  prune_blocks-IsUnique ns floor [] u = tt
  prune_blocks-IsUnique ns floor ((id, a) ∷ m) u =
      ground (arith, lookup-prune_blocks ns floor id m u.1, prune_blocks-IsUnique ns floor m u.1)

  -- Parents are older than their children; the map is a map, and files every node under its own
  -- id; without a head nothing is filed; the head is a node, no filed node has a number above the head's, and of the filed nodes
  -- with the head's number the head is the oldest.
  pub record IsValid (k : KhaosDb Block) : Type 0 where
    pub wf : IsWf k.nodes
    pub unique : IsUnique k.blocks
    pub filed :
        (j : Bytes) (a : ℕ)
        → lookup j k.blocks ≡ some a
        → (n : KBlock Block) × (node_at k.nodes a ≡ some n) × (n.id ≡ j)
    pub seeded : k.head ≡ none → (j : Bytes) → lookup j k.blocks ≡ none
    pub live : (h : ℕ) → k.head ≡ some h → h < length k.nodes
    pub highest :
        (j : Bytes) (a h : ℕ)
        → lookup j k.blocks ≡ some a
        → k.head ≡ some h
        → num_at k.nodes a ≤ℤ num_at k.nodes h
    pub first_seen :
        (j : Bytes) (a h : ℕ)
        → lookup j k.blocks ≡ some a
        → k.head ≡ some h
        → num_at k.nodes h ≤ℤ num_at k.nodes a
        → h ≤ a

  pub prune-IsValid : (k : KhaosDb Block) → IsValid k → IsValid (prune k)
  unfolding prune
  prune-IsValid k v = go k.head refl
    where
      kept :
          (h : ℕ) (j : Bytes) (a : ℕ)
          → lookup j (prune_blocks k.nodes (sub64 (num_at k.nodes h) k.max_size) k.blocks) ≡ some a
          → lookup j k.blocks ≡ some a
      kept h j a e = ground (
        arith,
        lookup-prune_blocks k.nodes (sub64 (num_at k.nodes h) k.max_size) j k.blocks v.unique,
      )

      headless : (h : ℕ) → k.head ≡ some h → ¬ (k.head ≡ none)
      headless h e q = cc

      go : (o : Option ℕ) → k.head ≡ o → IsValid (prune k)
      go none e = rw (e, prune) v
      go (some h) e = elim (Bool-cases (leb_ℤ k.max_size (pos 0))) [
        | inl off ↦ rw (e, prune, off) v
        | inr on ↦
            rw (e, prune, on)
              (record {
                wf = v.wf;
                unique = prune_blocks-IsUnique k.nodes _ k.blocks v.unique;
                filed = λ j a q. v.filed j a (kept h j a q);
                seeded = λ q. absurd (headless h e q);
                live = v.live;
                highest = λ j a g q. v.highest j a g (kept h j a q);
                first_seen = λ j a g q. v.first_seen j a g (kept h j a q);
              })
      ]
