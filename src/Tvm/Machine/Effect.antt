-- ===== src/Tvm/Machine/Effect.antt =====
-- What a frame may do to what it shares, and how a snapshot undoes it.
use go_tron.Tvm.Machine.{Shared}
use go_tron.Tvm.Contract.{Log}
use go_tron.Tvm.StateDb.{Account, update, snapshot, revert_to_snapshot}
use go_tron.Tvm.StateDb.Snapshots.{
  Extends, Extends-refl, Extends-trans, update-Extends, snapshot-Extends,
  revert_to_snapshot-snapshot,
}
use go_tron.Prelude.{
  ℕ, Bool, true, false, ◌≡◌, refl, sym, ap, ◌∙◌, List, [], ◌∷◌, ◌++◌, length, take,
}
use mathlib.Core.List.{append_assoc, append-nil}

-- The snapshots are kept, logs are only added, and a frame that may only read changes neither the
-- accounts nor the logs.
pub record Effect (read_only : Bool) (s t : Shared) : Type 0 where
  pub extends : Extends s.world t.world
  pub added : List Log
  pub logged : t.logs ≡ s.logs ++ added
  pub unchanged : read_only ≡ true → (t.world.accounts ≡ s.world.accounts) × (t.logs ≡ s.logs)

pub Effect-refl : (ro : Bool) (s : Shared) → Effect ro s s
Effect-refl ro s = record {
  extends = Extends-refl s.world;
  added = [];
  logged = sym (append-nil s.logs);
  unchanged = λ _. (refl, refl);
}

pub Effect-trans : {ro : Bool} {s t u : Shared} → Effect ro s t → Effect ro t u → Effect ro s u
Effect-trans {ro} {s} h k = record {
  extends = Extends-trans h.extends k.extends;
  added = h.added ++ k.added;
  logged = k.logged ∙ ap (λ l. l ++ k.added) h.logged ∙ append_assoc s.logs h.added k.added;
  unchanged = λ e. ((k.unchanged e).0 ∙ (h.unchanged e).0, (k.unchanged e).1 ∙ (h.unchanged e).1);
}

-- A child that may only read does no more than its caller may.
pub Effect-weaken :
    {ro child : Bool} {s t : Shared} → (ro ≡ true → child ≡ true) → Effect child s t → Effect ro s t
Effect-weaken w h = record {
  extends = h.extends;
  added = h.added;
  logged = h.logged;
  unchanged = λ e. h.unchanged (w e);
}

-- A write of an account, where the frame may write.
pub update-Effect :
    {s : Shared} (addr : ℕ) (f : Account → Account)
    → Effect false s (record s { world = update s.world addr f })
update-Effect {s} addr f = record {
  extends = update-Extends s.world s.world addr f (Extends-refl s.world);
  added = [];
  logged = sym (append-nil s.logs);
  unchanged = λ e. cc;
}

pub log-Effect : {s : Shared} (l : Log) → Effect false s (record s { logs = s.logs ++ l ∷ [] })
log-Effect {s} l = record {
  extends = Extends-refl s.world;
  added = l ∷ [];
  logged = refl;
  unchanged = λ e. cc;
}

pub snapshot-Effect :
    {ro : Bool} (s : Shared) → Effect ro s (record s { world = (snapshot s.world).0 })
unfolding snapshot
snapshot-Effect s = record {
  extends = snapshot-Extends s.world;
  added = [];
  logged = sym (append-nil s.logs);
  unchanged = λ _. (refl, refl);
}

take-front {ℓ} : {A : Type ℓ} (xs ys : List A) → take (length xs) (xs ++ ys) ≡ xs
take-front [] ys = refl
take-front (x ∷ xs) ys = ap (λ t. x ∷ t) (take-front xs ys)

-- What ran since the snapshot is undone.
pub reverted_lem :
    {ro : Bool} (s t : Shared)
    → Effect ro (record s { world = (snapshot s.world).0 }) t
    → record {
      world = revert_to_snapshot (snapshot s.world).1 t.world;
      logs = take (length s.logs) t.logs;
    }
      ≡ s
reverted_lem s t h =
    rw (revert_to_snapshot-snapshot s.world t.world h.extends, h.logged, take-front s.logs h.added)
      refl
