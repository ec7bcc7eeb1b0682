-- ===== src/Node/Rollback.antt =====
-- manager.go: what the manager undoes, where a block fails and where the head moves to another
-- branch.
use go_tron.Node.{
  Error, process_error, AppliedRef, Blocks, Manager, Ended, apply_block, apply_branch, apply_on_top,
  revoke_branch, switch_branches, settle, go_on,
}
use go_tron.Khaos.{KBlock, KhaosDb, reject_tip}
use go_tron.Db.Kv.{Kv}
use go_tron.Db.Snapshot.{Database, build_session, revoke}
use go_tron.Db.Snapshot.Rollback.{run, revoke-run-build_session}
use go_tron.Prelude.Bytes.{Bytes}
use go_tron.Prelude.{
  ℕ, ◌≡◌, refl, sym, ap, ◌∙◌, none, some, List, [], ◌∷◌, inl, inr, Option-cases, true, ◌⊎◌,
}

module _ {kv : Kv} (o : Blocks kv) where
  abbrev ref_of : KBlock o.Block → AppliedRef
  ref_of n = record { id = n.id; num = n.num }

  -- A block that fails leaves the manager as it was; behind one that succeeds, Revoke would.
  pub apply_block-cases :
      (n : KBlock o.Block) (m : Manager o)
      → ((e : Error o.Failure) × (apply_block o n m ≡ (m, some e)))
        ⊎ ((d : Database kv) × (apply_block o n m
              ≡ (record m { db = d; applied = ref_of n ∷ m.applied }, none))
            × (revoke kv d ≡ (m.db, true)))
  unfolding apply_block
  apply_block-cases n m =
      let opened = (build_session kv m.db).0 in
      let undone =
        revoke-run-build_session kv m.db (o.calls n.block opened) (o.balanced n.block opened) in
      elim (Option-cases (o.failure n.block opened)) [
        | inr (x, f) ↦ inl (process_error x, rw (apply_block, f, undone) refl)
        | inl f ↦ inr (run kv opened (o.calls n.block opened), rw (apply_block, f) refl, undone)
      ]

  revoke_branch-last :
      (n k : KBlock o.Block) (ns : List (KBlock o.Block)) (db : Database kv)
      (tree : KhaosDb o.Block) (applied : List AppliedRef)
      → let m : Manager o = record { db = db; khaos = tree; applied = applied } in
        revoke_branch o (n ∷ ns) m ≡ go_on o (revoke_branch o ns m) (revoke_branch o (k ∷ []))
  unfolding revoke_branch
  revoke_branch-last n k [] db tree applied = refl
  revoke_branch-last n k (x ∷ ns) db tree [] = refl
  revoke_branch-last n k (x ∷ ns) db tree (r ∷ rest) =
      revoke_branch-last n k ns (revoke kv db).0 tree rest

  -- Revoking a branch that was applied whole gives back the manager as it was.
  revoke_branch-apply_branch :
      (ns : List (KBlock o.Block)) (m t : Manager o)
      → apply_branch o ns m ≡ (t, none)
      → revoke_branch o ns t ≡ (m, none)
  unfolding apply_branch revoke_branch
  revoke_branch-apply_branch [] m t e = sym e
  revoke_branch-apply_branch (n ∷ ns) m t e = elim (apply_block-cases n m) [
    | inl (x, q) ↦
        let stopped : ◌≡◌ {A = Ended o} (m, some x) (t, none) =
          sym (ap (λ r. go_on o r (λ b. apply_branch o ns b)) q) ∙ e in
        cc
    | inr (d, q, undone) ↦
        let m1 : Manager o = record m { db = d; applied = ref_of n ∷ m.applied } in
        let later : apply_branch o ns m1 ≡ (t, none) =
          sym (ap (λ r. go_on o r (λ b. apply_branch o ns b)) q) ∙ e in
        revoke_branch-last n n ns t.db t.khaos t.applied
        ∙ ap (λ r. go_on o r (revoke_branch o (n ∷ []))) (revoke_branch-apply_branch ns m1 t later)
        ∙ ap (λ b. (record m { db = b.0 }, none)) undone
  ]

  -- A block on top of the head that fails leaves the database and the applied branch as they were,
  -- and its node is rejected from the fork tree.
  pub apply_on_top-apply_block :
      (n : KBlock o.Block) (old_head : ℕ) (m m' : Manager o) (e : Error o.Failure)
      → apply_on_top o n old_head m ≡ (m', some e)
      → m' ≡ record m { khaos = (reject_tip n.id (some old_head) m.khaos).0 }
  unfolding apply_on_top
  apply_on_top-apply_block n old_head m m' e q = elim (apply_block-cases n m) [
    | inl (x, f) ↦ ap (λ r. r.0) (sym (rw (apply_on_top, f) at q))
    | inr (d, f, undone) ↦ cc (rw (apply_on_top, f) at q)
  ]

  -- Where the head moves to another branch whose blocks all succeed, the manager is what it would be
  -- had the old branch never been applied: that of the new branch on their common ancestor. It
  -- holds of a manager that applied the old branch whole on that ancestor.
  pub switch_branches-apply_branch :
      (id : Bytes) (old_head : ℕ) (new old : List (KBlock o.Block)) (base m t : Manager o)
      → apply_branch o old base ≡ (m, none)
      → apply_branch o new base ≡ (t, none)
      → switch_branches o id old_head new old m ≡ (t, none)
  unfolding switch_branches settle
  switch_branches-apply_branch id old_head new old base m t e q =
      ap (λ r. go_on o r (λ b. settle o id old_head old (apply_branch o new b)))
        (revoke_branch-apply_branch old base m e)
      ∙ ap (settle o id old_head old) q
