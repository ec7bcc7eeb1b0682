-- ===== src/Tvm/Machine/Failure.antt =====
-- evm.go: a call that reports failure to its caller changed nothing but the caller's energy.
use go_tron.Tvm.Precompile.{lookup_precompile, run_precompile}
use go_tron.Tvm.Machine.{
  is_panic, Shared, Setting, Frame, Machine, finish, finish_with, write_return, after_call,
  after_precompile, run_call, do_call, cannot_run, is_static,
}
use go_tron.Tvm.Machine.Step.{run}
use go_tron.Tvm.Machine.Effect.{Effect, Effect-trans, reverted_lem}
use go_tron.Tvm.Machine.Calls
use go_tron.Tvm.Machine.Calls.{taken, guard_lem}
use go_tron.Tvm.Machine.Soundness.{run-IsSound}
use go_tron.Tvm.Opcode.{CallKind}
use go_tron.Tvm.Errors.{Error}
use go_tron.Tvm.Exec.{Local, words_of_stack, top, push_word}
use go_tron.Tvm.Memory.{Memory}
use go_tron.Tvm.Stack.{push}
use go_tron.Tvm.StateDb.{snapshot}
use go_tron.Tvm.Meter.{EnergyMeter}
use go_tron.Tvm.Meter.Budget.{IsMeter}
use go_tron.Prelude.Bytes.{Bytes}
use go_tron.Prelude.Result.{Result, ok, err}
use go_tron.Prelude.{
  ℕ, Bool, true, false, not, ◌&&◌, ◌||◌, ◌==◌, leb, ◌≡◌, refl, sym, Option, none, some, inl, inr,
  length, Option-cases, Bool-cases,
}

-- A result of a call whose word is 0 left the shared state as it was.
abbrev pub Reports : Shared → Option (Result Error Machine) → Type 0
Reports s none = Unit
Reports s (some (err e)) = Unit
Reports s (some (ok m)) = top (words_of_stack m.locals) ≡ 0 → m.shared ≡ s

pub reports :
    (s : Shared) (m' : Machine) (r : Option (Result Error Machine))
    → r ≡ some (ok m')
    → top (words_of_stack m'.locals) ≡ 0
    → Reports s r
    → m'.shared ≡ s
reports s m' none e z h = cc
reports s m' (some (err no_machine)) e z h = cc
reports s m' (some (ok last)) e z h = let same : last ≡ m' = cc in rw (sym same) (h (rw (same) z))

pub finish-Reports :
    {s : Shared} (m : Machine) (l : Local) (meter : EnergyMeter) (sh : Shared) (w : ℕ)
    → (w ≡ 0 → sh ≡ s)
    → Reports s (some (finish m l meter sh w))
unfolding push_word push
finish-Reports {s} m l meter sh w h = elim (Bool-cases (leb 1024 (length (words_of_stack l)))) [
  | inl e ↦ rw (finish, push_word, push, e) tt
  | inr e ↦ rw (finish, push_word, push, e) h
]

finish_with-Reports :
    {s : Shared} (m : Machine) (mem : Option Memory) (bytes : Bytes) (meter : EnergyMeter)
    (sh : Shared) (w : ℕ)
    → (w ≡ 0 → sh ≡ s)
    → Reports s (some (finish_with m mem bytes meter sh w))
finish_with-Reports m none bytes meter sh w h = tt
finish_with-Reports m (some mem) bytes meter sh w h =
    finish-Reports m (record m.locals { mem = mem; return_data = bytes }) meter sh w h

module _ (m : Machine) (spent : EnergyMeter) (budget : ℕ) (child : Bool) (t : Shared)
    (h : Effect child (taken m.shared) t) where
  after_call-Reports :
      (out_off out_size : ℕ) (bytes : Bytes) (reverted : Bool) (used : ℕ) (error : Option Error)
      → Reports m.shared (
          some (
            after_call m spent budget (snapshot m.shared.world).1 out_off out_size (
              record {
                return_bytes = bytes;
                reverted = reverted;
                energy_used = used;
                error = error;
              },
              t,
            )))
  unfolding after_call
  after_call-Reports out_off out_size bytes reverted used (some e) =
      elim (Bool-cases (is_panic (some e))) [
        | inl p ↦ rw (after_call, p) tt
        | inr p ↦ rw (after_call, p) (finish-Reports m _ _ _ 0 (λ _. reverted_lem m.shared t h))
      ]
  after_call-Reports out_off out_size bytes true used none =
      finish_with-Reports m (write_return m.locals.mem out_off bytes out_size) bytes _ _ 0
        (λ _. reverted_lem m.shared t h)
  after_call-Reports out_off out_size bytes false used none =
      finish_with-Reports m (write_return m.locals.mem out_off bytes out_size) bytes _ _ 1 (λ e. cc)

  after_precompile-Reports :
      (out_off out_size : ℕ) (out : Bytes) (used : ℕ) (failed : Bool)
      → Reports m.shared (
          some (
            after_precompile m spent budget
              (snapshot m.shared.world).1
              out_off
              out_size
              t
              (out, used, failed)))
  unfolding after_precompile
  after_precompile-Reports out_off out_size out used true =
      finish-Reports m _ _ _ 0 (λ _. reverted_lem m.shared t h)
  after_precompile-Reports out_off out_size out used false =
      finish_with-Reports m (write_return m.locals.mem out_off out out_size) out _ _ 1 (λ e. cc)

module _ (fuel : ℕ) (g : Setting) (f : Frame) (m : Machine) (kind : CallKind)
    (to value requested : ℕ) (args : Bytes) (out_off out_size : ℕ) (i : IsMeter m.meter) where
  run_call-Reports :
      ((f.read_only || is_static kind) ≡ true → not (value == 0) ≡ false)
      → Reports m.shared (run_call (run fuel g) g f m kind to value requested args out_off out_size)
  unfolding run_call
  run_call-Reports free =
      let budget = Calls.budget g f m kind to value requested args in
      let child = Calls.child g f m kind to value requested args in
      let sent = Calls.sent g f m kind to value requested args in
      let before = Calls.sent-Effect g f m kind to value requested args free in
      elim (Option-cases (lookup_precompile g.contracts g.cfg to)) [
        | inr (native, e) ↦
            let r = run_precompile native args budget g.cfg in
            rw (run_call, e)
              (after_precompile-Reports m _ budget child.read_only sent before out_off out_size r.0
                r.1 r.2)
        | inl e ↦ elim (Option-cases (run fuel g child budget sent)) [
          | inl stuck ↦ rw (run_call, e, stuck) tt
          | inr (r, q) ↦
              let ends = rw q at (
                run-IsSound fuel g child budget sent
                  (Calls.budget_bound g f m kind to value requested args i)) in
              rw (run_call, e, q)
                (after_call-Reports m _ budget child.read_only r.1 (Effect-trans before ends.0)
                  out_off out_size r.0.return_bytes r.0.reverted r.0.energy_used r.0.error)
        ]
      ]

  -- A call that pushes 0, because it could not run, its child or the precompiled contract failed,
  -- or the child reverted, leaves the state of the accounts, the snapshots and the logs as they
  -- were, whatever the child ran. It holds on any fuel with which the call returns, in a frame
  -- whose meter is within its 64-bit limit.
  pub do_call-run :
      (m' : Machine)
      → do_call (run fuel g) g f m kind to value requested args out_off out_size ≡ some (ok m')
      → top (words_of_stack m'.locals) ≡ 0
      → m'.shared ≡ m.shared
  unfolding do_call
  do_call-run m' e z =
      reports m.shared m' _ e z
        (elim (Bool-cases ((is_static kind || f.read_only) && not (value == 0))) [
          | inl guard ↦ rw (do_call, guard) tt
          | inr guard ↦ elim (Bool-cases (cannot_run f m value)) [
            | inl c ↦ rw (do_call, guard, c) (finish-Reports m _ _ _ 0 (λ _. refl))
            | inr c ↦
                rw (do_call, guard, c)
                  (run_call-Reports
                    (guard_lem f.read_only (is_static kind) (not (value == 0)) guard))
          ]
        ])
