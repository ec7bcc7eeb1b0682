-- ===== src/Node/Aligned.antt =====
-- manager.go: the sessions of the database are those of the applied branch.
use go_tron.Node.{
  Error, AppliedRef, Blocks, Manager, Ended, apply_block, apply_branch, go_on, rejected,
  apply_on_top, revoke_branch, settle, switch_branches, switched, switch_fork, ancestor_first,
  validate_block, route, is_head, push_new, push_block,
}
use go_tron.Node.Rollback.{apply_block-cases}
use go_tron.Khaos
use go_tron.Khaos.{KBlock, KhaosDb, node_at, contains}
use go_tron.Db.Kv.{Kv}
use go_tron.Db.Snapshot.{Session, Database, revoke, depth}
use go_tron.Prelude.Bytes.{Bytes, bytes_eq}
use go_tron.Prelude.Result.{Result, ok, err, Result-cases}
use go_tron.Prelude.{
  ℕ, suc, ◌≡◌, sym, ap, ◌∙◌, true, false, Option, none, some, List, [], ◌∷◌, length, inl, inr,
  arith, Bool-cases, Option-cases,
}

module _ {kv : Kv} (o : Blocks kv) where
  -- As many sessions are open as blocks are applied.
  abbrev pub IsAligned : Manager o → Type 0
  IsAligned m = depth kv m.db ≡ length m.applied

  depth-revoke :
      (b : kv.Store) (ss : List Session) (d' : Database kv)
      → revoke kv (record { base = b; sessions = ss }) ≡ (d', true)
      → length ss ≡ suc (depth kv d')
  unfolding revoke depth
  depth-revoke b [] d' e = let wrong : false ≡ true = ap (λ r. r.1) e in cc
  depth-revoke b (s ∷ rest) d' e = ap (λ r. suc (length r.0.sessions)) e

  apply_block-IsAligned :
      (n : KBlock o.Block) (m : Manager o) → IsAligned m → IsAligned (apply_block o n m).0
  unfolding depth
  apply_block-IsAligned n m h = elim (apply_block-cases o n m) [
    | inl (e, q) ↦ ap (λ r. depth kv r.0.db) q ∙ h ∙ ap (λ r. length r.0.applied) (sym q)
    | inr (d, q, undone) ↦
        ap (λ r. depth kv r.0.db) q
        ∙ depth-revoke d.base d.sessions m.db undone
        ∙ ap suc h
        ∙ ap (λ r. length r.0.applied) (sym q)
  ]

  go_on-IsAligned :
      (r : Ended o) (next : Manager o → Ended o)
      → IsAligned r.0
      → ((m : Manager o) → IsAligned m → IsAligned (next m).0)
      → IsAligned (go_on o r next).0
  go_on-IsAligned (m, some e) next h k = h
  go_on-IsAligned (m, none) next h k = k m h

  apply_branch-IsAligned :
      (ns : List (KBlock o.Block)) (m : Manager o) → IsAligned m → IsAligned (apply_branch o ns m).0
  unfolding apply_branch
  apply_branch-IsAligned [] m h = h
  apply_branch-IsAligned (n ∷ ns) m h =
      go_on-IsAligned (apply_block o n m) (λ b. apply_branch o ns b) (apply_block-IsAligned n m h)
        (λ b. apply_branch-IsAligned ns b)

  -- Also where the loop panics: then nothing is applied, and no session is open.
  revoke_branch-IsAligned :
      (ns : List (KBlock o.Block)) (base : kv.Store) (ss : List Session) (k : KhaosDb o.Block)
      (applied : List AppliedRef)
      → length ss ≡ length applied
      → IsAligned
          (revoke_branch o ns
            (record { db = record { base = base; sessions = ss }; khaos = k; applied = applied })).0
  unfolding revoke_branch revoke depth
  revoke_branch-IsAligned [] base ss k applied h = h
  revoke_branch-IsAligned (n ∷ ns) base [] k [] h = h
  revoke_branch-IsAligned (n ∷ ns) base [] k (a ∷ applied) h = absurd (omega arith)
  revoke_branch-IsAligned (n ∷ ns) base (s ∷ rest) k [] h = absurd (omega arith)
  revoke_branch-IsAligned (n ∷ ns) base (s ∷ rest) k (a ∷ applied) h =
      revoke_branch-IsAligned ns base rest k applied (omega arith)

  rejected-IsAligned :
      (id : Bytes) (old_head : ℕ) (r : Ended o)
      → IsAligned r.0
      → IsAligned (rejected o id old_head r).0
  rejected-IsAligned id old_head (m, none) h = h
  rejected-IsAligned id old_head (m, some e) h = h

  settle-IsAligned :
      (id : Bytes) (old_head : ℕ) (old : List (KBlock o.Block)) (r : Ended o)
      → IsAligned r.0
      → IsAligned (settle o id old_head old r).0
  unfolding settle
  settle-IsAligned id old_head old (m, none) h = h
  settle-IsAligned id old_head old (m, some e) h = apply_branch-IsAligned old m h

  -- What a call gives, if it gives anything.
  abbrev Gives : Option (Ended o) → Type 0
  Gives none = Unit
  Gives (some r) = IsAligned r.0

  switched-Gives :
      (node : KBlock o.Block) (old_head : ℕ) (m : Manager o)
      (r : Option (Result Khaos.Error (List ℕ × List ℕ)))
      → IsAligned m
      → Gives (switched o node old_head m r)
  unfolding switched switch_branches
  switched-Gives node old_head m none h = tt
  switched-Gives node old_head m (some (err e)) h = h
  switched-Gives node old_head m (some (ok (new, old))) h =
      let back = ancestor_first o m.khaos.nodes old in
      let on = ancestor_first o m.khaos.nodes new in
      go_on-IsAligned (revoke_branch o back m)
        (λ b. settle o node.id old_head back (apply_branch o on b))
        (revoke_branch-IsAligned back m.db.base m.db.sessions m.khaos m.applied h)
        (λ b a.
          settle-IsAligned node.id old_head back (apply_branch o on b)
            (apply_branch-IsAligned on b a))

  route-Gives : (a old_head : ℕ) (m : Manager o) → IsAligned m → Gives (route o a old_head m)
  unfolding route apply_on_top switch_fork
  route-Gives a old_head m h = elim (Option-cases (node_at m.khaos.nodes a)) [
    | inl e ↦ rw (route, e) h
    | inr (node, e) ↦ elim (Option-cases (node_at m.khaos.nodes old_head)) [
      | inl q ↦ rw (route, e, q) h
      | inr (old, q) ↦ elim (Bool-cases (bytes_eq node.parent_id old.id)) [
        | inl c ↦
            rw (route, e, q, c)
              (rejected-IsAligned node.id old_head (apply_block o node m)
                (apply_block-IsAligned node m h))
        | inr c ↦ rw (route, e, q, c) (switched-Gives node old_head m _ h)
      ]
    ]
  ]

  push_new-Gives : (b : o.Block) (m : Manager o) → IsAligned m → Gives (push_new o b m)
  unfolding push_new
  push_new-Gives b m h = elim (Option-cases m.khaos.head) [
    | inl e ↦ rw (push_new, e) h
    | inr (old_head, e) ↦
        let k = Khaos.push o.block_id o.parent_hash o.number b m.khaos in
        elim (Result-cases k.1) [
          | inr (x, q) ↦ rw (push_new, e, q) h
          | inl (a, q) ↦ elim (Bool-cases (is_head o a k.0)) [
            | inl c ↦ rw (push_new, e, q, c) (route-Gives a old_head (record m { khaos = k.0 }) h)
            | inr c ↦ rw (push_new, e, q, c) h
          ]
        ]
  ]

  push_block-Gives : (b : o.Block) (m : Manager o) → IsAligned m → Gives (push_block o b m)
  unfolding push_block
  push_block-Gives b m h = elim (Result-cases (o.block_id b)) [
    | inr (e, q) ↦ rw (push_block, q) h
    | inl (id, q) ↦ elim (Bool-cases (contains id m.khaos)) [
      | inl c ↦ rw (push_block, q, c) h
      | inr c ↦ elim (Option-cases (validate_block o b)) [
        | inl v ↦ rw (push_block, q, c, v) (push_new-Gives b m h)
        | inr (e, v) ↦ rw (push_block, q, c, v) h
      ]
    ]
  ]

  -- PushBlock keeps one session of the database open for each applied block, on every path: a block
  -- that is known, invalid, unlinked or on a side branch, one that extends the head, and one that
  -- moves the head to another branch, whether its blocks succeed or fail, or the loop over the old
  -- branch panics because fewer blocks are applied.
  pub push_block-IsAligned :
      (b : o.Block) (m m' : Manager o) (e : Option (Error o.Failure))
      → IsAligned m
      → push_block o b m ≡ some (m', e)
      → IsAligned m'
  push_block-IsAligned b m m' e h q = rw q at (push_block-Gives b m h)
