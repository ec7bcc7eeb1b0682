-- ===== src/Tvm/StateDb/Snapshots.antt =====
-- A snapshot is given back, whatever ran since, as long as it was not reverted itself.
use go_tron.Tvm.StateDb.{Account, Accounts, MemStateDb, update, snapshot, revert_to_snapshot}
use go_tron.Prelude.{ℕ, ◌≡◌, refl, sym, ap, ◌∙◌, some, List, [], ◌∷◌, ◌++◌, length, take, get_elem?}
use mathlib.Core.List.{append_assoc, append-nil}

-- The second state holds the snapshots of the first one, below its own.
pub record Extends (s t : MemStateDb) : Type 0 where
  pub above : List Accounts
  pub kept : t.snaps ≡ s.snaps ++ above

pub Extends-refl : (s : MemStateDb) → Extends s s
Extends-refl s = record { above = []; kept = sym (append-nil s.snaps) }

pub Extends-trans : {s t u : MemStateDb} → Extends s t → Extends t u → Extends s u
Extends-trans {s} h k = record {
  above = h.above ++ k.above;
  kept = k.kept ∙ ap (λ l. l ++ k.above) h.kept ∙ append_assoc s.snaps h.above k.above;
}

-- A write of an account leaves the snapshots alone.
pub update-Extends :
    (s t : MemStateDb) (addr : ℕ) (f : Account → Account)
    → Extends s t
    → Extends s (update t addr f)
unfolding update
update-Extends s t addr f h = record { above = h.above; kept = h.kept }

pub snapshot-Extends : (s : MemStateDb) → Extends s (snapshot s).0
unfolding snapshot
snapshot-Extends s = record { above = s.accounts ∷ []; kept = refl }

get_elem?-middle {ℓ} :
    {A : Type ℓ} (xs : List A) (a : A) (ys : List A)
    → get_elem? ((xs ++ a ∷ []) ++ ys) (length xs) ≡ some a
get_elem?-middle [] a ys = refl
get_elem?-middle (x ∷ xs) a ys = get_elem?-middle xs a ys

take-front {ℓ} :
    {A : Type ℓ} (xs : List A) (a : A) (ys : List A) → take (length xs) ((xs ++ a ∷ []) ++ ys) ≡ xs
take-front [] a ys = refl
take-front (x ∷ xs) a ys = ap (λ t. x ∷ t) (take-front xs a ys)

revert_found :
    (now taken : Accounts) (before above : List Accounts)
    → revert_to_snapshot
        (length before)
        (record { accounts = now; snaps = (before ++ taken ∷ []) ++ above })
      ≡ record { accounts = taken; snaps = before }
unfolding revert_to_snapshot
revert_found now taken before above =
    rw (revert_to_snapshot, get_elem?-middle before taken above, take-front before taken above) refl

-- Reverting to a snapshot gives back the state it was taken of, snapshots included, from every
-- state that still holds the snapshot and those below it, whatever its accounts are.
pub revert_to_snapshot-snapshot :
    (s t : MemStateDb) → Extends (snapshot s).0 t → revert_to_snapshot (snapshot s).1 t ≡ s
unfolding snapshot
revert_to_snapshot-snapshot s t h =
    ap (λ l. revert_to_snapshot (length s.snaps) (record { accounts = t.accounts; snaps = l }))
      h.kept
    ∙ revert_found t.accounts s.accounts s.snaps h.above
