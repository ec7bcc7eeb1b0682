-- ===== src/Tvm/Machine/Yields.antt =====
-- evm.go: a call and a creation return, where every frame with less energy ends.
use go_tron.Tvm.Precompile.{Precompile, lookup_precompile, run_precompile}
use go_tron.Tvm.Machine.{
  Shared, Setting, Frame, Machine, Runner, run_call, do_call, is_static, cannot_run, call_not_run,
  call_energy, after_call, after_precompile,
}
use go_tron.Tvm.Machine.Host.{after_create, run_create, do_create}
use go_tron.Tvm.Machine.Step.{run}
use go_tron.Tvm.Machine.Calls
use go_tron.Tvm.Machine.Creates
use go_tron.Tvm.Machine.Kept.{spend-Keeps}
use go_tron.Tvm.Machine.Soundness.{run-IsSound}
use go_tron.Tvm.Machine.Spent.{
  left, Costs, Costs-le, remaining-left, call_energy-le, spend-left, finish-Costs, after_call-Costs,
  after_precompile-Costs, after_create-Costs,
}
use go_tron.Tvm.Gas.Floor.{stipend}
use go_tron.Tvm.Fork.{VmConfig}
use go_tron.Tvm.StateDb.{snapshot}
use go_tron.Tvm.Opcode.{CallKind}
use go_tron.Tvm.Contract.{Outcome}
use go_tron.Tvm.Errors.{Error, static_state_change}
use go_tron.Tvm.Meter.{spend, remaining}
use go_tron.Tvm.Meter.Budget.{IsMeter}
use go_tron.Prelude.Bytes.{Bytes}
use go_tron.Prelude.Result.{Result, err}
use go_tron.Prelude.{
  ℕ, ◌+◌, ◌^◌, ◌≤◌, ◌<◌, not, ◌&&◌, ◌||◌, ◌==◌, ltb, ◌≡◌, refl, ◌∙◌, Option, some, inl, inr, arith,
  Option-cases, Bool-cases, if_not,
}

-- A precompiled contract uses no more than its budget.
run_precompile-budget :
    (p : Precompile) (input : Bytes) (budget : ℕ) (cfg : VmConfig)
    → (run_precompile p input budget cfg).1 ≤ budget
unfolding run_precompile
run_precompile-budget p input budget cfg = elim (Bool-cases (ltb budget (p.energy cfg input))) [
  | inl e ↦ rw (run_precompile, e) (omega arith)
  | inr e ↦ elim (Option-cases (p.run input)) [
    | inl q ↦ rw (run_precompile, e, q) (omega arith)
    | inr (out, q) ↦ rw (run_precompile, e, q) (ground arith)
  ]
]

-- Frames with less energy than a bound end.
abbrev pub Children : Setting → ℕ → Type 0
Children g bound =
    (f : Frame) (limit : ℕ) (sh : Shared)
    → limit < bound
    → (n : ℕ) × (r : Outcome × Shared) × (run n g f limit sh ≡ some r)

-- On some fuel there is a result, and it leaves the frame at a counter with some energy.
abbrev pub Yields : Setting → ℕ → ℕ → (Runner → Option (Result Error Machine)) → Type 0
Yields g pc bound instr =
    (n : ℕ) × (r : Result Error Machine) × (instr (run n g) ≡ some r) × Costs pc bound r

module _ (g : Setting) (bound : ℕ) (children : Children g bound) (f : Frame) (m : Machine)
    (i : IsMeter m.meter) where
  module _ (kind : CallKind) (to value requested : ℕ) (args : Bytes) (out_off out_size : ℕ)
      (enough : left m.meter + stipend value < bound) where
    abbrev budget : ℕ
    budget = Calls.budget g f m kind to value requested args

    abbrev granted : ℕ
    granted = call_energy g.cfg requested (remaining m.meter)

    granted_le : granted ≤ left m.meter
    granted_le =
        let le = call_energy-le g.cfg requested (remaining m.meter) in
        let same = remaining-left m.meter i in omega arith

    -- The meter behind the reservation, and what the child may give back.
    reserved : left (spend m.meter granted).0 + budget ≤ left m.meter + stipend value
    reserved =
        let le = granted_le in let same = spend-left m.meter granted i granted_le in ground arith

    run_call-Yields :
        Yields g m.locals.pc
          (left m.meter + stipend value)
          (λ run. run_call run g f m kind to value requested args out_off out_size)
    unfolding run_call
    run_call-Yields =
        let child = Calls.child g f m kind to value requested args in
        let sent = Calls.sent g f m kind to value requested args in
        let small = Calls.budget_bound g f m kind to value requested args i in
        let spent = (spend m.meter granted).0 in
        let kept = spend-Keeps m.meter granted i in
        elim (Option-cases (lookup_precompile g.contracts g.cfg to)) [
          | inr (native, e) ↦
              let r = run_precompile native args budget g.cfg in
              (
                0,
                after_precompile m spent budget (snapshot m.shared.world).1 out_off out_size sent r,
                rw (run_call, e) refl,
                Costs-le m.locals.pc (left spent + budget) (left m.meter + stipend value) _ reserved
                    (after_precompile-Costs m spent budget (snapshot m.shared.world).1 kept.0 small
                      out_off out_size sent r.0 r.1 r.2
                      (run_precompile-budget native args budget g.cfg)),
              )
          | inl e ↦
              let within = reserved in
              let (n, r, q) = children child budget sent (omega arith) in
              let ends = rw q at (run-IsSound n g child budget sent small) in
              (
                n,
                after_call m spent budget (snapshot m.shared.world).1 out_off out_size r,
                rw (run_call, e, q) refl,
                Costs-le m.locals.pc (left spent + budget) (left m.meter + stipend value) _ reserved
                    (after_call-Costs m spent budget (snapshot m.shared.world).1 kept.0 small
                      out_off out_size r.0.return_bytes r.0.reverted r.0.energy_used r.0.error r.1
                      ends.1),
              )
        ]

    pub do_call-Yields :
        Yields g m.locals.pc
          (left m.meter + stipend value)
          (λ run. do_call run g f m kind to value requested args out_off out_size)
    unfolding do_call
    do_call-Yields = elim (Bool-cases ((is_static kind || f.read_only) && not (value == 0))) [
      | inl e ↦ (0, err static_state_change, rw (do_call, e) refl, tt)
      | inr e ↦ elim (Bool-cases (cannot_run f m value)) [
        | inl q ↦ (
          0,
          call_not_run m,
          rw (do_call, e, q) refl,
          finish-Costs m _ m.meter m.shared 0 (omega arith) refl,
        )
        | inr q ↦
            let (n, r, runs, costs) = run_call-Yields in (n, r, rw (do_call, e, q) runs, costs)
      ]
    ]

  module _ (value : ℕ) (init_code : Bytes) (salt : Option Bytes)
      (enough : left m.meter < bound) where
    abbrev creation : ℕ
    creation = call_energy g.cfg (remaining m.meter) (remaining m.meter)

    creation_le : creation ≤ left m.meter
    creation_le =
        let le = call_energy-le g.cfg (remaining m.meter) (remaining m.meter) in
        let same = remaining-left m.meter i in omega arith

    kept_back : left (spend m.meter creation).0 + creation ≤ left m.meter
    kept_back =
        let le = creation_le in let same = spend-left m.meter creation i creation_le in omega arith

    run_create-Yields :
        Yields g m.locals.pc (left m.meter) (λ run. run_create run g f m value init_code salt)
    unfolding run_create
    run_create-Yields =
        let child = Creates.child g f m value init_code salt in
        let sent = Creates.sent g f m value init_code salt in
        let numbered = Creates.numbered g f m value init_code salt in
        let new_addr = Creates.new_addr g f m value init_code salt in
        let spent = (spend m.meter creation).0 in
        let le = creation_le in
        let small : creation < 2 ^ 64 = omega arith in
        let (n, r, q) = children child creation sent (omega arith) in
        let ends = rw q at (run-IsSound n g child creation sent small) in
        (
          n,
          after_create m spent creation (snapshot numbered).1 new_addr r,
          rw (run_create, q) refl,
          Costs-le m.locals.pc (left spent + creation) (left m.meter) _ kept_back (
              after_create-Costs m spent creation (snapshot numbered).1
                (spend-Keeps m.meter creation i).0 small new_addr r.0.return_bytes r.0.reverted
                r.0.energy_used r.0.error r.1 ends.1),
        )

    pub do_create-Yields :
        Yields g m.locals.pc (left m.meter) (λ run. do_create run g f m value init_code salt)
    unfolding do_create
    do_create-Yields = elim (Bool-cases f.read_only) [
      | inl e ↦ (0, err static_state_change, rw (do_create, e) refl, tt)
      | inr e ↦ elim (Bool-cases (cannot_run f m value)) [
        | inl q ↦ (
          0,
          call_not_run m,
          rw (do_create, e, q) refl,
          finish-Costs m _ m.meter m.shared 0 (omega arith) refl,
        )
        | inr q ↦
            let (n, r, runs, costs) = run_create-Yields in
            (n, r, if_not _ _ _ e ∙ if_not _ _ _ q ∙ runs, costs)
      ]
    ]
