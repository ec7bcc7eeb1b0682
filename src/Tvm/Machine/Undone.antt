-- ===== src/Tvm/Machine/Undone.antt =====
-- evm.go: a creation that reports failure changed nothing but a nonce and the creator's energy.
use go_tron.Tvm.Machine.{is_panic, Shared, Setting, Frame, Machine, cannot_run, call_not_run}
use go_tron.Tvm.Machine.Host.{after_create, run_create, do_create, create_address, create2_address}
use go_tron.Tvm.Contract.{sha3omit12}
use go_tron.Tvm.Machine.Step.{run}
use go_tron.Tvm.Machine.Effect.{Effect, Effect-trans, reverted_lem}
use go_tron.Tvm.Machine.Kept.{remaining-IsMeter, call_energy-remaining}
use go_tron.Tvm.Machine.Calls.{taken}
use go_tron.Tvm.Machine.Creates
use go_tron.Tvm.Machine.Failure.{Reports, reports, finish-Reports}
use go_tron.Tvm.Machine.Soundness.{run-IsSound}
use go_tron.Tvm.Errors.{Error}
use go_tron.Tvm.Exec.{words_of_stack, top}
use go_tron.Tvm.StateDb.{MemStateDb, snapshot, get_nonce, set_nonce}
use go_tron.Tvm.Meter.{EnergyMeter, remaining, sub_u64, add_u64}
use go_tron.Tvm.Meter.Budget.{IsMeter}
use go_tron.Prelude.Bytes.{Bytes}
use go_tron.Prelude.Result.{ok}
use go_tron.Prelude.{
  ℕ, ◌*◌, ◌%◌, ◌^◌, ◌<◌, Bool, true, false, ltb, ◌≡◌, ◌⊎◌, refl, Option, none, some, inl, inr,
  length, arith, sym, ◌∙◌, if_so, if_not, Option-cases, Bool-cases,
}

-- A derived address is not 0.
new_addr-positive :
    (g : Setting) (f : Frame) (m : Machine) (value : ℕ) (init_code : Bytes) (salt : Option Bytes)
    → 0 < Creates.new_addr g f m value init_code salt
unfolding create_address create2_address sha3omit12
new_addr-positive g f m value init_code none = omega arith
new_addr-positive g f m value init_code (some bytes) = omega arith

after_create-Reports :
    (m : Machine) (spent : EnergyMeter) (child_gas new_addr : ℕ) (numbered : MemStateDb)
    (t : Shared) (bytes : Bytes) (reverted : Bool) (used : ℕ) (error : Option Error)
    → 0 < new_addr
    → Effect false (taken (record m.shared { world = numbered })) t
    → Reports
        (record m.shared { world = numbered })
        (some (
          after_create m spent child_gas (snapshot numbered).1 new_addr (
            record { return_bytes = bytes; reverted = reverted; energy_used = used; error = error },
            t,
          )))
unfolding after_create
after_create-Reports m spent child_gas new_addr numbered t bytes reverted used (some e) p h =
    elim (Bool-cases (is_panic (some e))) [
      | inl x ↦ rw (after_create, x) tt
      | inr x ↦
          rw (after_create, x)
            (finish-Reports m _ _ _ 0
              (λ _. reverted_lem (record m.shared { world = numbered }) t h))
    ]
after_create-Reports m spent child_gas new_addr numbered t bytes true used none p h =
    finish-Reports m _ _ _ 0 (λ _. reverted_lem (record m.shared { world = numbered }) t h)
after_create-Reports m spent child_gas new_addr numbered t bytes false used none p h =
    elim (Bool-cases (ltb (sub_u64 child_gas used) (length bytes * 200 % 2 ^ 64))) [
      | inl x ↦
          rw (after_create, x)
            (finish-Reports m _ _ _ 0
              (λ _. reverted_lem (record m.shared { world = numbered }) t h))
      | inr x ↦ rw (after_create, x) (finish-Reports m _ _ _ new_addr (λ z. absurd (omega arith)))
    ]

module _ (fuel : ℕ) (g : Setting) (f : Frame) (m : Machine) (value : ℕ) (init_code : Bytes)
    (salt : Option Bytes) (i : IsMeter m.meter) where
  abbrev numbered_shared : Shared
  numbered_shared = record m.shared { world = Creates.numbered g f m value init_code salt }

  run_create-Reports : Reports numbered_shared (run_create (run fuel g) g f m value init_code salt)
  unfolding run_create
  run_create-Reports =
      let child = Creates.child g f m value init_code salt in
      let child_gas = Creates.child_gas g f m value init_code salt in
      let sent = Creates.sent g f m value init_code salt in
      let small =
        call_energy-remaining g.cfg (remaining m.meter) (remaining m.meter)
          (remaining-IsMeter m.meter i) in
      elim (Option-cases (run fuel g child child_gas sent)) [
        | inl stuck ↦ rw (run_create, stuck) tt
        | inr (r, q) ↦
            let ends = rw q at (run-IsSound fuel g child child_gas sent small) in
            rw (run_create, q)
              (after_create-Reports m _ child_gas _ _ r.1 r.0.return_bytes r.0.reverted
                r.0.energy_used r.0.error (new_addr-positive g f m value init_code salt)
                (Effect-trans (Creates.sent-Effect g f m value init_code salt) ends.0))
      ]

  -- A creation that pushes 0 left the shared state as it was, where it could not run, and otherwise
  -- changed only the nonce of the creator, by one: the new account, its code, the value that it
  -- was sent and the logs of its init code are undone. It holds on any fuel with which the
  -- creation returns, in a frame whose meter is within its 64-bit limit.
  pub do_create-run :
      (m' : Machine)
      → do_create (run fuel g) g f m value init_code salt ≡ some (ok m')
      → top (words_of_stack m'.locals) ≡ 0
      → (m'.shared ≡ m.shared)
        ⊎ (m'.shared ≡ record m.shared {
          world =
              set_nonce m.shared.world f.contract.self
                (add_u64 (get_nonce m.shared.world f.contract.self) 1);
        })
  unfolding do_create
  do_create-run m' e z = elim (Bool-cases f.read_only) [
    | inl c ↦ cc (rw (do_create, c) at e)
    | inr c ↦ elim (Bool-cases (cannot_run f m value)) [
      | inl q ↦ inl (
          reports m.shared m' (some (call_not_run m))
            (sym (if_so _ _ _ q) ∙ sym (if_not _ _ _ c) ∙ e) z
            (finish-Reports m _ _ _ 0 (λ _. refl)))
      | inr q ↦ inr (
          reports numbered_shared m' (run_create (run fuel g) g f m value init_code salt)
            (sym (if_not _ _ _ q) ∙ sym (if_not _ _ _ c) ∙ e) z run_create-Reports)
    ]
  ]
