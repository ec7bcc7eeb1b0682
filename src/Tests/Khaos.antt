-- ===== src/Tests/Khaos.antt =====
-- A fork tree of blocks given by their id, their parent's id and their number.
use go_tron.Prelude.{ℕ, ◌≡◌, refl, true, some, List, [], ◌∷◌, arith}
use go_tron.Prelude.Int.{ℤ, pos, ◌-ℤ◌}
use go_tron.Prelude.Int64.{sub64, wrap64}
use go_tron.Prelude.Bytes.{Bytes, bytes_eq_instance}
use go_tron.Prelude.Map.{lookup, insert}
use go_tron.Prelude.Result.{Result, ok}
use go_tron.Khaos.{
  Error, KBlock, KhaosDb, node_at, new, start, push, get, num_at, parent_at, reject_tip,
}
use go_tron.Khaos.Invariant.{IsValid}
use go_tron.Khaos.Tip.{start-IsValid, push-IsValid}
use go_tron.Khaos.Seated.{IsSeated, push-IsSeated}
use mathlib.Core.Path.{subst}
use go_tron.Khaos.Reject.{reject_tip-push}
use go_tron.Khaos.Fork.{get_branch}
use go_tron.Khaos.Fork.Paths.{Leads, Outcome, get_branch-Outcome}
use go_tron.Khaos.Fork.Levels.{IsTree}
use go_tron.Khaos.Fork.Ancestor.{IsApart, get_branch-common_ancestor}

abbrev Block : Type 0
Block = Bytes × Bytes × ℤ

abbrev block_id : Block → Result Error Bytes
block_id b = ok b.0

abbrev parent_hash : Block → Bytes
parent_hash b = b.1

abbrev number : Block → ℤ
number b = b.2

abbrev add : Block → KhaosDb Block → KhaosDb Block
add b k = (push block_id parent_hash number b k).0

abbrev root : KhaosDb Block
root = (start block_id parent_hash number ((0 ∷ []), [], pos 0) (new (pos 0))).0

-- 0 - 1 - 3 and 0 - 2, in the order of their ids.
abbrev tree : KhaosDb Block
tree =
    add ((3 ∷ []), (1 ∷ []), pos 2)
      (add ((2 ∷ []), (0 ∷ []), pos 1) (add ((1 ∷ []), (0 ∷ []), pos 1) root))

head_of_tree : tree.head ≡ some 3
unfolding push start new lookup insert
head_of_tree = refl

tree-IsValid : IsValid tree
unfolding push
tree-IsValid =
    push-IsValid block_id parent_hash number ((3 ∷ []), (1 ∷ []), pos 2) _
      (push-IsValid block_id parent_hash number ((2 ∷ []), (0 ∷ []), pos 1) _
        (push-IsValid block_id parent_hash number ((1 ∷ []), (0 ∷ []), pos 1) root
          (start-IsValid block_id parent_hash number (pos 0) ((0 ∷ []), [], pos 0))))

-- A tree that keeps the blocks one below its head.
abbrev short_root : KhaosDb Block
short_root = (start block_id parent_hash number ((0 ∷ []), [], pos 0) (new (pos 1))).0

short_root-IsSeated : IsSeated short_root
unfolding start new lookup insert node_at
short_root-IsSeated h e =
    let g : 0 ≡ h = ground arith in
    subst
      (λ a.
        (n : KBlock Block) × (node_at short_root.nodes a ≡ some n)
        × (lookup n.id short_root.blocks ≡ some a))
      g (_, refl, refl)

abbrev short_tree : KhaosDb Block
short_tree = add ((1 ∷ []), (0 ∷ []), pos 1) short_root

short_tree-IsSeated : IsValid short_tree × IsSeated short_tree
unfolding start new
short_tree-IsSeated =
    push-IsSeated block_id parent_hash number ((1 ∷ []), (0 ∷ []), pos 1) short_root
      (start-IsValid block_id parent_hash number (pos 1) ((0 ∷ []), [], pos 0)) short_root-IsSeated
      (ground arith) (ground arith) (ground arith)

-- The new block overtakes the head, and the root is pruned.
push-IsSeated_example :
    IsValid (add ((2 ∷ []), (1 ∷ []), pos 2) short_tree)
    × IsSeated (add ((2 ∷ []), (1 ∷ []), pos 2) short_tree)
unfolding push start new lookup insert
push-IsSeated_example =
    push-IsSeated block_id parent_hash number ((2 ∷ []), (1 ∷ []), pos 2) short_tree
      short_tree-IsSeated.0 short_tree-IsSeated.1 (ground arith) (ground arith) (ground arith)

pruned_root : (add ((2 ∷ []), (1 ∷ []), pos 2) short_tree).blocks ≡ (1 ∷ [], 1) ∷ (2 ∷ [], 2) ∷ []
unfolding push start new lookup insert sub64 wrap64 ◌-ℤ◌
pruned_root = refl

branches_of_tree : get_branch (3 ∷ []) (2 ∷ []) tree ≡ some (ok (3 ∷ 1 ∷ [], 2 ∷ []))
unfolding get_branch push start new lookup insert
branches_of_tree = refl

get_branch-Outcome_example :
    (r : Result Error (List ℕ × List ℕ)) × (get_branch (3 ∷ []) (2 ∷ []) tree ≡ some r)
    × Outcome tree (3 ∷ []) (2 ∷ []) r
get_branch-Outcome_example = get_branch-Outcome tree (3 ∷ []) (2 ∷ []) tree-IsValid.wf

-- 0 - 1 and 0 - 2.
abbrev fork : KhaosDb Block
fork = add ((2 ∷ []), (0 ∷ []), pos 1) (add ((1 ∷ []), (0 ∷ []), pos 1) root)

fork-IsValid : IsValid fork
fork-IsValid =
    push-IsValid block_id parent_hash number ((2 ∷ []), (0 ∷ []), pos 1)
      (add ((1 ∷ []), (0 ∷ []), pos 1) root)
      (push-IsValid block_id parent_hash number ((1 ∷ []), (0 ∷ []), pos 1) root
        (start-IsValid block_id parent_hash number (pos 0) ((0 ∷ []), [], pos 0)))

fork-IsTree : IsTree fork.nodes
unfolding push start new lookup insert parent_at num_at
fork-IsTree = record {
  wf = (λ p e. ground arith, (λ p e. ground arith, (λ p e. cc, tt)));
  numbered = λ a p e. ground arith;
  rooted = λ a l e. ground arith;
}

get_branch-common_ancestor_example :
    (xs : List ℕ) × (ys : List ℕ) × (a : ℕ) × (get_branch (1 ∷ []) (2 ∷ []) fork
      ≡ some (ok (xs, ys)))
    × Leads fork.nodes 1 xs a
    × Leads fork.nodes 2 ys a
    × IsApart xs ys
unfolding push start new lookup insert get
get_branch-common_ancestor_example =
    get_branch-common_ancestor fork (1 ∷ []) (2 ∷ []) 1 2 fork-IsTree refl refl (omega arith)
      (omega arith)

reject_tip-push_example :
    let (k', done) = reject_tip (4 ∷ []) (some 1) (add ((4 ∷ []), (2 ∷ []), pos 2) fork) in
    (done ≡ true) × (k'.head ≡ some 1) × ((j : Bytes) → lookup j k'.blocks ≡ lookup j fork.blocks)
unfolding push start new lookup insert num_at
reject_tip-push_example =
    reject_tip-push block_id parent_hash number ((4 ∷ []), (2 ∷ []), pos 2) fork (4 ∷ []) (1 ∷ []) 1
      2 fork-IsValid refl refl refl refl refl refl refl
