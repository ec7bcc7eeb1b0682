-- ===== src/Tvm/Machine/Spent.antt =====
-- evm.go: what the end of a call leaves of the energy of its frame, and where its frame goes on.
use go_tron.Tvm.Machine.{
  is_panic, Shared, Machine, call_energy, finish, finish_with, write_return, after_call,
  after_precompile,
}
use go_tron.Tvm.Machine.Host.{after_create}
use go_tron.Tvm.Fork.{VmConfig}
use go_tron.Tvm.Errors.{Error}
use go_tron.Tvm.Exec.{Local, words_of_stack, push_word}
use go_tron.Tvm.Stack.{push}
use go_tron.Tvm.Memory.{Memory}
use go_tron.Tvm.Meter.{EnergyMeter, spend, restore, remaining, sub_u64}
use go_tron.Tvm.Meter.Budget.{IsMeter}
use go_tron.Prelude.Bytes.{Bytes}
use go_tron.Prelude.Result.{Result, ok, err}
use go_tron.Prelude.{
  ℕ, ◌+◌, ◌-◌, ◌*◌, ◌%◌, ◌^◌, ◌≤◌, ◌<◌, Bool, true, false, ltb, leb, ◌≡◌, refl, Option, none, some,
  inl, inr, length, arith, Bool-cases,
}

abbrev pub left : EnergyMeter → ℕ
left meter = meter.limit - meter.used

-- The frame goes on at a given program counter with at most a given energy.
abbrev pub Costs : ℕ → ℕ → Result Error Machine → Type 0
Costs pc bound (err e) = Unit
Costs pc bound (ok m) = (left m.meter ≤ bound) × (m.locals.pc ≡ pc)

pub Costs-le :
    (pc bound more : ℕ) (r : Result Error Machine)
    → bound ≤ more
    → Costs pc bound r
    → Costs pc more r
Costs-le pc bound more (err e) h k = tt
Costs-le pc bound more (ok m) h k = (omega arith, k.1)

pub remaining-left : (meter : EnergyMeter) → IsMeter meter → remaining meter ≡ left meter
unfolding remaining
remaining-left meter i = omega arith

pub call_energy-le :
    (cfg : VmConfig) (requested available : ℕ) → call_energy cfg requested available ≤ available
unfolding call_energy
call_energy-le cfg requested available = ground arith

pub spend-left :
    (meter : EnergyMeter) (n : ℕ)
    → IsMeter meter
    → n ≤ left meter
    → left (spend meter n).0 ≡ left meter - n
unfolding spend
spend-left meter n i h = ground arith

pub restore-left :
    (meter : EnergyMeter) (n : ℕ) → IsMeter meter → left (restore meter n) ≤ left meter + n
unfolding restore
restore-left meter n i = ground arith

pub finish-Costs :
    {pc bound : ℕ} (m : Machine) (l : Local) (meter : EnergyMeter) (sh : Shared) (w : ℕ)
    → left meter ≤ bound
    → l.pc ≡ pc
    → Costs pc bound (finish m l meter sh w)
unfolding push_word push
finish-Costs m l meter sh w h k = elim (Bool-cases (leb 1024 (length (words_of_stack l)))) [
  | inl e ↦ rw (finish, push_word, push, e) tt
  | inr e ↦ rw (finish, push_word, push, e) (h, k)
]

finish_with-Costs :
    {bound : ℕ} (m : Machine) (mem : Option Memory) (bytes : Bytes) (meter : EnergyMeter)
    (sh : Shared) (w : ℕ)
    → left meter ≤ bound
    → Costs m.locals.pc bound (finish_with m mem bytes meter sh w)
finish_with-Costs m none bytes meter sh w h = tt
finish_with-Costs m (some mem) bytes meter sh w h =
    finish-Costs m (record m.locals { mem = mem; return_data = bytes }) meter sh w h refl

-- What is given back is at most what was granted.
given_back :
    (spent : EnergyMeter) (budget used : ℕ)
    → IsMeter spent
    → used ≤ budget
    → budget < 2 ^ 64
    → left (restore spent (sub_u64 budget used)) ≤ left spent + budget
given_back spent budget used i h k =
    let back = restore-left spent (sub_u64 budget used) i in
    let less : sub_u64 budget used ≤ budget = omega arith in omega arith

module _ (m : Machine) (spent : EnergyMeter) (budget snap : ℕ) (i : IsMeter spent)
    (k : budget < 2 ^ 64) where
  pub after_call-Costs :
      (out_off out_size : ℕ) (bytes : Bytes) (reverted : Bool) (used : ℕ) (error : Option Error)
      (t : Shared)
      → used ≤ budget
      → Costs m.locals.pc (left spent + budget) (
          after_call m spent budget snap out_off out_size (
            record { return_bytes = bytes; reverted = reverted; energy_used = used; error = error },
            t,
          ))
  unfolding after_call
  after_call-Costs out_off out_size bytes reverted used (some e) t h =
      elim (Bool-cases (is_panic (some e))) [
        | inl p ↦ rw (after_call, p) tt
        | inr p ↦
            rw (after_call, p) (finish-Costs m _ _ _ 0 (given_back spent budget used i h k) refl)
      ]
  after_call-Costs out_off out_size bytes true used none t h =
      finish_with-Costs m (write_return m.locals.mem out_off bytes out_size) bytes _ _ 0
        (given_back spent budget used i h k)
  after_call-Costs out_off out_size bytes false used none t h =
      finish_with-Costs m (write_return m.locals.mem out_off bytes out_size) bytes _ _ 1
        (given_back spent budget used i h k)

  pub after_precompile-Costs :
      (out_off out_size : ℕ) (t : Shared) (out : Bytes) (used : ℕ) (failed : Bool)
      → used ≤ budget
      → Costs m.locals.pc
          (left spent + budget)
          (after_precompile m spent budget snap out_off out_size t (out, used, failed))
  unfolding after_precompile
  after_precompile-Costs out_off out_size t out used true h =
      finish-Costs m _ _ _ 0 (given_back spent budget used i h k) refl
  after_precompile-Costs out_off out_size t out used false h =
      finish_with-Costs m (write_return m.locals.mem out_off out out_size) out _ _ 1
        (given_back spent budget used i h k)

  pub after_create-Costs :
      (new_addr : ℕ) (bytes : Bytes) (reverted : Bool) (used : ℕ) (error : Option Error)
      (t : Shared)
      → used ≤ budget
      → Costs m.locals.pc (left spent + budget) (
          after_create m spent budget snap new_addr (
            record { return_bytes = bytes; reverted = reverted; energy_used = used; error = error },
            t,
          ))
  unfolding after_create
  after_create-Costs new_addr bytes reverted used (some e) t h =
      elim (Bool-cases (is_panic (some e))) [
        | inl p ↦ rw (after_create, p) tt
        | inr p ↦
            rw (after_create, p) (finish-Costs m _ _ _ 0 (given_back spent budget used i h k) refl)
      ]
  after_create-Costs new_addr bytes true used none t h =
      finish-Costs m _ _ _ 0 (given_back spent budget used i h k) refl
  after_create-Costs new_addr bytes false used none t h =
      let leftover = sub_u64 budget used in
      let cost = length bytes * 200 % 2 ^ 64 in
      elim (Bool-cases (ltb leftover cost)) [
        | inl e ↦ rw (after_create, e) (finish-Costs m _ _ _ 0 (omega arith) refl)
        | inr e ↦
            let back = restore-left spent (sub_u64 leftover cost) i in
            let less : sub_u64 leftover cost ≤ budget = ground arith in
            rw (after_create, e) (finish-Costs m _ _ _ new_addr (omega arith) refl)
      ]
