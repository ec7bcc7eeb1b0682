-- ===== src/Tvm/Machine/Creates.antt =====
-- evm.go: a creation keeps the meter within its limit, and is undone where it fails.
use go_tron.Tvm.Machine.{
  is_panic, Shared, Setting, Frame, Machine, Runner, call_energy, transfer, cannot_run,
  call_not_run,
}
use go_tron.Tvm.Machine.Host.{after_create, run_create, do_create, create_address, create2_address}
use go_tron.Tvm.Machine.Effect.{Effect, Effect-trans, snapshot-Effect, update-Effect}
use go_tron.Tvm.Machine.Kept.{
  Kept, Kept-refl, Keeps, IsSound, Keeps-if, finish-Keeps, restore-Keeps, spend-Keeps,
  remaining-IsMeter, call_energy-remaining, transfer-Effect,
}
use go_tron.Tvm.Machine.Calls.{taken, undone, undone-Kept}
use go_tron.Tvm.Errors.{Error}
use go_tron.Tvm.StateDb.{MemStateDb, snapshot, create_account, get_nonce, set_nonce, set_code}
use go_tron.Tvm.Meter.{EnergyMeter, spend, restore, remaining, sub_u64, add_u64}
use go_tron.Tvm.Meter.Budget.{IsMeter}
use go_tron.Prelude.Bytes.{Bytes}
use go_tron.Prelude.{
  ℕ, suc, ◌*◌, ◌%◌, ◌^◌, Bool, true, false, not, ltb, ◌==◌, ◌≡◌, ◌∙◌, [], Option, none, some, inl,
  inr, length, Option-cases, Bool-cases,
}

-- The end of a creation, whose frame numbered its account before the snapshot.
module _ (m : Machine) (spent : EnergyMeter) (child_gas new_addr : ℕ) (numbered : MemStateDb)
    (t : Shared) (i : IsMeter spent) (l : spent.limit ≡ m.meter.limit)
    (before : Effect false m.shared (record m.shared { world = numbered }))
    (h : Effect false (taken (record m.shared { world = numbered })) t) where
  deployed :
      (n : ℕ) (code : Bytes)
      → Kept false m (restore spent n) (record t { world = set_code t.world new_addr code })
  unfolding set_code
  deployed n code = record {
    effect = Effect-trans before (
        Effect-trans (snapshot-Effect (record m.shared { world = numbered }))
          (Effect-trans h (update-Effect new_addr (λ a. record a { code = code }))));
    is_meter = (restore-Keeps spent n i).0;
    same_limit = (restore-Keeps spent n i).1 ∙ l;
  }

  failed :
      (meter : EnergyMeter)
      → IsMeter meter
      → meter.limit ≡ m.meter.limit
      → Kept false m meter (undone (record m.shared { world = numbered }) t)
  failed meter j k = undone-Kept m (record m.shared { world = numbered }) t j k before h

  failed_with :
      (n : ℕ) → Kept false m (restore spent n) (undone (record m.shared { world = numbered }) t)
  failed_with n =
      failed (restore spent n) (restore-Keeps spent n i).0 ((restore-Keeps spent n i).1 ∙ l)

  pub after_create-Keeps :
      (bytes : Bytes) (reverted : Bool) (used : ℕ) (error : Option Error)
      → Keeps false m (
          some (
            after_create m spent child_gas (snapshot numbered).1 new_addr (
              record {
                return_bytes = bytes;
                reverted = reverted;
                energy_used = used;
                error = error;
              },
              t,
            )))
  unfolding after_create
  after_create-Keeps bytes reverted used (some e) = elim (Bool-cases (is_panic (some e))) [
    | inl p ↦ rw (after_create, p) tt
    | inr p ↦
        rw (after_create, p)
          (finish-Keeps m (record m.locals { return_data = [] }) 0
            (failed_with (sub_u64 child_gas used)))
  ]
  after_create-Keeps bytes true used none =
      finish-Keeps m (record m.locals { return_data = bytes }) 0
        (failed_with (sub_u64 child_gas used))
  after_create-Keeps bytes false used none =
      let leftover = sub_u64 child_gas used in
      let cost = length bytes * 200 % 2 ^ 64 in
      elim (Bool-cases (ltb leftover cost)) [
        | inl e ↦
            rw (after_create, e)
              (finish-Keeps m (record m.locals { return_data = [] }) 0 (failed spent i l))
        | inr e ↦
            rw (after_create, e)
              (finish-Keeps m (record m.locals { return_data = [] }) new_addr
                (deployed (sub_u64 leftover cost) bytes))
      ]

-- The creation of an account, where the frame may write.
module _ (g : Setting) (f : Frame) (m : Machine) (value : ℕ) (init_code : Bytes)
    (salt : Option Bytes) where
  abbrev pub nonce : ℕ
  nonce = get_nonce m.shared.world f.contract.self

  abbrev pub numbered : MemStateDb
  numbered = set_nonce m.shared.world f.contract.self (add_u64 nonce 1)

  abbrev pub new_addr : ℕ
  new_addr = elim salt [
    | some bytes ↦ create2_address g.keccak256 f.contract.self bytes init_code
    | none ↦ create_address g.keccak256 g.root_tx_id nonce
  ]

  abbrev pub child_gas : ℕ
  child_gas = call_energy g.cfg (remaining m.meter) (remaining m.meter)

  abbrev pub child : Frame
  child = record {
    contract = record {
      self = new_addr;
      code_addr = new_addr;
      caller = f.contract.self;
      origin = f.contract.origin;
      value = value;
      input = [];
      code = init_code;
    };
    read_only = false;
    depth = suc f.depth;
  }

  abbrev pub sent : Shared
  sent = record m.shared {
    world =
        transfer g.words (not (value == 0)) (create_account (snapshot numbered).0 new_addr)
          f.contract.self new_addr value;
  }

  numbered-Effect : Effect false m.shared (record m.shared { world = numbered })
  unfolding set_nonce
  numbered-Effect = update-Effect f.contract.self (λ a. record a { nonce = add_u64 nonce 1 })

  pub sent-Effect : Effect false (taken (record m.shared { world = numbered })) sent
  unfolding create_account
  sent-Effect = Effect-trans (update-Effect new_addr (λ a. a)) (
      transfer-Effect g.words false (not (value == 0))
        (record m.shared { world = create_account (snapshot numbered).0 new_addr }) f.contract.self
        new_addr value (λ e. let absurd = e in cc))

  pub run_create-Keeps :
      (run : Runner)
      → IsSound run
      → IsMeter m.meter
      → Keeps false m (run_create run g f m value init_code salt)
  unfolding run_create
  run_create-Keeps run sound i = elim (Option-cases (run child child_gas sent)) [
    | inl stuck ↦ rw (run_create, stuck) tt
    | inr (r, q) ↦
        let ends = rw q at (
          sound child child_gas sent (
            call_energy-remaining g.cfg (remaining m.meter) (remaining m.meter)
              (remaining-IsMeter m.meter i))) in
        rw (run_create, q)
          (after_create-Keeps m (spend m.meter child_gas).0 child_gas new_addr numbered r.1
            (spend-Keeps m.meter child_gas i).0 (spend-Keeps m.meter child_gas i).1 numbered-Effect
            (Effect-trans sent-Effect ends.0) r.0.return_bytes r.0.reverted r.0.energy_used
            r.0.error)
  ]

pub do_create-Keeps :
    (run : Runner) (g : Setting) (f : Frame) (m : Machine) (value : ℕ) (init_code : Bytes)
    (salt : Option Bytes)
    → IsSound run
    → IsMeter m.meter
    → Keeps f.read_only m (do_create run g f m value init_code salt)
unfolding do_create
do_create-Keeps run g f m value init_code salt sound i = elim (Bool-cases f.read_only) [
  | inl e ↦ rw (do_create, e) tt
  | inr e ↦
      rw (do_create, e)
        (Keeps-if false m (cannot_run f m value) (some (call_not_run m)) _
          (λ _. finish-Keeps m (record m.locals { return_data = [] }) 0 (Kept-refl false m i))
          (λ _. run_create-Keeps g f m value init_code salt run sound i))
]
