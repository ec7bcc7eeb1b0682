-- ===== src/Tvm/Machine/Calls.antt =====
-- evm.go: a call keeps the meter within its limit, and has the effect that its frame may have.
use go_tron.Tvm.Precompile.{lookup_precompile, run_precompile}
use go_tron.Tvm.Machine.{
  is_panic, Shared, Setting, Frame, Machine, Runner, call_energy, transfer, moves_value, is_static,
  write_return, after_call, after_precompile, run_call, do_call, child_contract, cannot_run,
  call_not_run,
}
use go_tron.Tvm.Opcode.{CallKind}
use go_tron.Tvm.Machine.Effect.{
  Effect, Effect-refl, Effect-trans, Effect-weaken, snapshot-Effect, reverted_lem,
}
use go_tron.Tvm.Machine.Kept.{
  Kept, Kept-refl, Keeps, IsSound, Keeps-if, finish-Keeps, finish_with-Keeps, restore-Keeps,
  spend-Keeps, remaining-IsMeter, call_energy-remaining, transfer-Effect,
}
use go_tron.Tvm.Errors.{Error}
use go_tron.Tvm.StateDb.{snapshot, revert_to_snapshot}
use go_tron.Tvm.Meter.{EnergyMeter, spend, restore, remaining, sub_u64, add_u64}
use go_tron.Tvm.Meter.Budget.{IsMeter}
use mathlib.Core.Path.{subst}
use go_tron.Prelude.Bytes.{Bytes}
use go_tron.Prelude.{
  ℕ, ◌^◌, ◌<◌, Bool, true, false, not, ◌&&◌, ◌||◌, if◌then◌else◌, suc, inl, inr, Option-cases,
  Bool-cases, ◌==◌, ◌≡◌, sym, ◌∙◌, Option, none, some, arith, length, take, [],
}

-- The state with a snapshot on top.
abbrev pub taken : Shared → Shared
taken s = record s { world = (snapshot s.world).0 }

abbrev pub undone : Shared → Shared → Shared
undone s t = record {
  world = revert_to_snapshot (snapshot s.world).1 t.world;
  logs = take (length s.logs) t.logs;
}

-- Where a child is undone, the frame goes on in what it had.
pub undone-Kept :
    {ro child : Bool} (m : Machine) {meter : EnergyMeter} (s t : Shared)
    → IsMeter meter
    → meter.limit ≡ m.meter.limit
    → Effect ro m.shared s
    → Effect child (taken s) t
    → Kept ro m meter (undone s t)
undone-Kept {ro} m {meter} s t i l before h = record {
  effect = subst (λ r. Effect ro m.shared r) (sym (reverted_lem s t h)) before;
  is_meter = i;
  same_limit = l;
}

-- The end of a child that may do what its caller may.
module _ {ro child : Bool} (m : Machine) (spent : EnergyMeter) (budget : ℕ) (t : Shared)
    (i : IsMeter spent) (l : spent.limit ≡ m.meter.limit) (w : ro ≡ true → child ≡ true)
    (h : Effect child (taken m.shared) t) where
  kept_undone : (n : ℕ) → Kept ro m (restore spent n) (undone m.shared t)
  kept_undone n =
      undone-Kept m m.shared t (restore-Keeps spent n i).0 ((restore-Keeps spent n i).1 ∙ l)
        (Effect-refl ro m.shared) h

  kept_done : (n : ℕ) → Kept ro m (restore spent n) t
  kept_done n = record {
    effect = Effect-trans (snapshot-Effect m.shared) (Effect-weaken w h);
    is_meter = (restore-Keeps spent n i).0;
    same_limit = (restore-Keeps spent n i).1 ∙ l;
  }

  pub after_call-Keeps :
      (out_off out_size : ℕ) (bytes : Bytes) (reverted : Bool) (used : ℕ) (error : Option Error)
      → Keeps ro m (
          some (
            after_call m spent budget (snapshot m.shared.world).1 out_off out_size (
              record {
                return_bytes = bytes;
                reverted = reverted;
                energy_used = used;
                error = error;
              },
              t,
            )))
  unfolding after_call
  after_call-Keeps out_off out_size bytes reverted used (some e) =
      elim (Bool-cases (is_panic (some e))) [
        | inl p ↦ rw (after_call, p) tt
        | inr p ↦
            rw (after_call, p)
              (finish-Keeps m (record m.locals { return_data = [] }) 0
                (kept_undone (sub_u64 budget used)))
      ]
  after_call-Keeps out_off out_size bytes true used none =
      finish_with-Keeps m (write_return m.locals.mem out_off bytes out_size) bytes 0
        (kept_undone (sub_u64 budget used))
  after_call-Keeps out_off out_size bytes false used none =
      finish_with-Keeps m (write_return m.locals.mem out_off bytes out_size) bytes 1
        (kept_done (sub_u64 budget used))

  pub after_precompile-Keeps :
      (out_off out_size : ℕ) (out : Bytes) (used : ℕ) (failed : Bool)
      → Keeps ro m (
          some (
            after_precompile m spent budget
              (snapshot m.shared.world).1
              out_off
              out_size
              t
              (out, used, failed)))
  unfolding after_precompile
  after_precompile-Keeps out_off out_size out used true =
      finish-Keeps m (record m.locals { return_data = [] }) 0 (kept_undone (sub_u64 budget used))
  after_precompile-Keeps out_off out_size out used false =
      finish_with-Keeps m (write_return m.locals.mem out_off out out_size) out 1
        (kept_done (sub_u64 budget used))

-- A call behind its guards, where a frame that may only read sends no value.
module _ (g : Setting) (f : Frame) (m : Machine) (kind : CallKind) (to value requested : ℕ)
    (args : Bytes) where
  abbrev pub child_gas : ℕ
  child_gas = call_energy g.cfg requested (remaining m.meter)

  abbrev pub budget : ℕ
  budget = if value == 0 then child_gas else add_u64 child_gas 2300

  abbrev pub child : Frame
  child = record {
    contract = child_contract (snapshot m.shared.world).0 f.contract kind to value args;
    read_only = f.read_only || is_static kind;
    depth = suc f.depth;
  }

  abbrev pub sent : Shared
  sent = record m.shared {
    world =
        transfer g.words (moves_value kind && not (value == 0)) (snapshot m.shared.world).0
          f.contract.self to value;
  }

  pub budget_bound : IsMeter m.meter → budget < 2 ^ 64
  budget_bound i =
      let granted =
        call_energy-remaining g.cfg requested (remaining m.meter) (remaining-IsMeter m.meter i) in
      ground arith

  pub sent-Effect :
      (child.read_only ≡ true → not (value == 0) ≡ false)
      → Effect child.read_only (taken m.shared) sent
  sent-Effect free =
      transfer-Effect g.words child.read_only (moves_value kind && not (value == 0))
        (taken m.shared) f.contract.self to value (λ e. let none_sent = free e in ground arith)

  -- The child may not do more than its caller.
  child_weaker : f.read_only ≡ true → child.read_only ≡ true
  child_weaker e = ground arith

  pub run_call-Keeps :
      (run : Runner) (out_off out_size : ℕ)
      → IsSound run
      → IsMeter m.meter
      → (child.read_only ≡ true → not (value == 0) ≡ false)
      → Keeps f.read_only m (run_call run g f m kind to value requested args out_off out_size)
  unfolding run_call
  run_call-Keeps run out_off out_size sound i free =
      elim (Option-cases (lookup_precompile g.contracts g.cfg to)) [
        | inr (native, e) ↦
            let r = run_precompile native args budget g.cfg in
            rw (run_call, e)
              (after_precompile-Keeps m (spend m.meter child_gas).0 budget sent
                (spend-Keeps m.meter child_gas i).0 (spend-Keeps m.meter child_gas i).1 child_weaker
                (sent-Effect free) out_off out_size r.0 r.1 r.2)
        | inl e ↦ elim (Option-cases (run child budget sent)) [
          | inl stuck ↦ rw (run_call, e, stuck) tt
          | inr (r, q) ↦
              let ends = rw q at (sound child budget sent (budget_bound i)) in
              rw (run_call, e, q)
                (after_call-Keeps m (spend m.meter child_gas).0 budget r.1
                  (spend-Keeps m.meter child_gas i).0 (spend-Keeps m.meter child_gas i).1
                  child_weaker (Effect-trans (sent-Effect free) ends.0) out_off out_size
                  r.0.return_bytes r.0.reverted r.0.energy_used r.0.error)
        ]
      ]

-- What the guard against a change in a frame that may only read gives.
pub guard_lem :
    (ro static transfers : Bool)
    → ((static || ro) && transfers) ≡ false
    → (ro || static) ≡ true
    → transfers ≡ false
guard_lem ro static transfers h k = ground arith

pub do_call-Keeps :
    (run : Runner) (g : Setting) (f : Frame) (m : Machine) (kind : CallKind)
    (to value requested : ℕ) (args : Bytes) (out_off out_size : ℕ)
    → IsSound run
    → IsMeter m.meter
    → Keeps f.read_only m (do_call run g f m kind to value requested args out_off out_size)
unfolding do_call
do_call-Keeps run g f m kind to value requested args out_off out_size sound i =
    Keeps-if _ m ((is_static kind || f.read_only) && not (value == 0)) _ _ (λ _. tt)
      (λ free.
        Keeps-if _ m (cannot_run f m value) (some (call_not_run m)) _
          (λ _. finish-Keeps m (record m.locals { return_data = [] }) 0 (Kept-refl f.read_only m i))
          (λ _.
            run_call-Keeps g f m kind to value requested args run out_off out_size sound i
              (guard_lem f.read_only (is_static kind) (not (value == 0)) free)))
