-- ===== src/Tvm/Machine/Turns.antt =====
-- interpreter.go: every turn of the loop returns, and uses energy or moves the program counter on.
use go_tron.Tvm.Machine.Yields.{Children, Yields, do_call-Yields, do_create-Yields}
use go_tron.Tvm.Machine.{Setting, Frame, Machine, Runner, do_call}
use go_tron.Tvm.Machine.Host.{
  do_create, with_input, read, nth, call_with_value, call_without_value, exec_call, exec_create,
}
use go_tron.Tvm.Machine.Step.{run, then_advance, with_locals}
use go_tron.Tvm.Machine.Spent.{left, Costs}
use go_tron.Tvm.Gas.Floor.{stipend}
use go_tron.Tvm.Gas.{word_to_addr}
use go_tron.Tvm.Cost.{clamp_u64}
use go_tron.Tvm.Uint256.{low64}
use go_tron.Tvm.Exec.Moves.{Moves}
use go_tron.Tvm.Opcode.{
  Instr, FrameOp, frame, jump, jumpi, jumps, halts, CallKind, kind_call, kind_call_code,
  kind_delegate, kind_static,
}
use go_tron.Tvm.Errors.{Error, go_panic}
use go_tron.Tvm.Exec.{Local, words_of_stack}
use go_tron.Tvm.Memory.{Memory}
use go_tron.Tvm.Meter.Budget.{IsMeter}
use go_tron.Prelude.Bytes.{Bytes}
use go_tron.Prelude.Result.{Result, ok, err}
use go_tron.Prelude.{
  List, ℕ, ◌+◌, ◌≤◌, ◌<◌, Bool, true, false, ◌||◌, ◌⊎◌, if◌then◌else◌, ◌≡◌, refl, Option, none,
  some, inl, inr, arith,
}

with_input-Yields :
    (g : Setting) (m : Machine) (bound pops : ℕ) (input : Option (Bytes × Memory))
    (next : Runner → Machine → Bytes → Option (Result Error Machine))
    → ((l : Local) (bytes : Bytes)
        → l.pc ≡ m.locals.pc
        → Yields g l.pc bound (λ run. next run (record m { locals = l }) bytes))
    → Yields g m.locals.pc bound (λ run. with_input m pops input (next run))
unfolding with_input
with_input-Yields g m bound pops none next h = (0, err go_panic, refl, tt)
with_input-Yields g m bound pops (some (bytes, mem)) next h = h _ bytes refl

-- The value that a call sends.
abbrev pub sent_value : CallKind → List ℕ → ℕ
sent_value kind_call ws = nth ws 2
sent_value kind_call_code ws = nth ws 2
sent_value _ ws = 0

module _ (g : Setting) (bound : ℕ) (children : Children g bound) (f : Frame) (m : Machine)
    (i : IsMeter m.meter) where
  module _ (kind : CallKind)
      (enough : left m.meter + stipend (nth (words_of_stack m.locals) 2) < bound) where
    with_value-Yields :
        Yields g m.locals.pc
          (left m.meter + stipend (nth (words_of_stack m.locals) 2))
          (λ run. call_with_value run g f m kind)
    unfolding call_with_value
    with_value-Yields =
        let ws = words_of_stack m.locals in
        with_input-Yields g m _ 7 (read m (nth ws 3) (nth ws 4))
          (λ run m' args.
            do_call run g f m' kind (word_to_addr (nth ws 1)) (nth ws 2) (clamp_u64 (nth ws 0)) args
              (low64 (nth ws 5)) (low64 (nth ws 6)))
          (λ l args e.
            do_call-Yields g bound children f (record m { locals = l }) i kind
              (word_to_addr (nth ws 1)) (nth ws 2) (clamp_u64 (nth ws 0)) args (low64 (nth ws 5))
              (low64 (nth ws 6)) enough)

  module _ (kind : CallKind) (enough : left m.meter < bound) where
    without_value-Yields :
        Yields g m.locals.pc (left m.meter + 0) (λ run. call_without_value run g f m kind)
    unfolding call_without_value
    without_value-Yields =
        let ws = words_of_stack m.locals in
        with_input-Yields g m _ 6 (read m (nth ws 2) (nth ws 3))
          (λ run m' args.
            do_call run g f m' kind (word_to_addr (nth ws 1)) 0 (clamp_u64 (nth ws 0)) args
              (low64 (nth ws 4)) (low64 (nth ws 5)))
          (λ l args e.
            do_call-Yields g bound children f (record m { locals = l }) i kind
              (word_to_addr (nth ws 1)) 0 (clamp_u64 (nth ws 0)) args (low64 (nth ws 4))
              (low64 (nth ws 5)) (omega arith))

  pub exec_call-Yields :
      (kind : CallKind)
      → left m.meter + stipend (sent_value kind (words_of_stack m.locals)) < bound
      → Yields g m.locals.pc
          (left m.meter + stipend (sent_value kind (words_of_stack m.locals)))
          (λ run. exec_call run g f m kind)
  unfolding exec_call
  exec_call-Yields kind_call h = with_value-Yields kind_call h
  exec_call-Yields kind_call_code h = with_value-Yields kind_call_code h
  exec_call-Yields kind_delegate h = without_value-Yields kind_delegate (omega arith)
  exec_call-Yields kind_static h = without_value-Yields kind_static (omega arith)

  pub exec_create-Yields :
      (salted : Bool)
      → left m.meter < bound
      → Yields g m.locals.pc (left m.meter) (λ run. exec_create run g f m salted)
  unfolding exec_create
  exec_create-Yields salted h =
      let ws = words_of_stack m.locals in
      let salt : Option Bytes = if salted then some (g.words.bytes32 (nth ws 3)) else none in
      with_input-Yields g m _ (if salted then 4 else 3) (read m (nth ws 1) (nth ws 2))
        (λ run m' code. do_create run g f m' (nth ws 0) code salt)
        (λ l code e.
          do_create-Yields g bound children f (record m { locals = l }) i (nth ws 0) code salt h)

-- A turn uses energy, ends the frame, or moves the counter on.
abbrev pub Turned : ℕ → ℕ → Result Error Machine → Type 0
Turned pc energy (err e) = Unit
Turned pc energy (ok m) =
    (left m.meter < energy)
    ⊎ ((left m.meter ≤ energy) × ((m.locals.stopped ≡ true) ⊎ (pc < m.locals.pc)))

abbrev pub TurnsOf : Setting → ℕ → ℕ → (Runner → Option (Result Error Machine)) → Type 0
TurnsOf g pc energy turn =
    (n : ℕ) × (r : Result Error Machine) × (turn (run n g) ≡ some r) × Turned pc energy r

-- An instruction that does not set the counter itself.
pub advance-Turned :
    (o : Instr) (pc bound energy : ℕ) (r : Result Error Machine)
    → (jumps o || halts o) ≡ false
    → bound ≤ energy
    → Costs pc bound r
    → (t : Result Error Machine) × (then_advance o (some r) ≡ some t) × Turned pc energy t
advance-Turned o pc bound energy (err e) q h k = (err e, refl, tt)
advance-Turned o pc bound energy (ok m) q h k = (
  ok (record m { locals = record m.locals { pc = m.locals.pc + 1 } }),
  rw (q) refl,
  inr (omega arith, inr (omega arith)),
)

jumps_lem : (o : Instr) → (o ≡ frame jump) ⊎ (o ≡ frame jumpi) → (jumps o || halts o) ≡ true
jumps_lem o (inl e) = rw (e) refl
jumps_lem o (inr e) = rw (e) refl

-- An instruction of the frame, which costs 8 where it jumps.
pub frame-Turned :
    (o : FrameOp) (m : Machine) (energy : ℕ) (r : Result Error Local)
    → left m.meter ≤ energy
    → ((frame o ≡ frame jump) ⊎ (frame o ≡ frame jumpi) → left m.meter < energy)
    → Moves (frame o) m.locals.pc r
    → (t : Result Error Machine) × (then_advance (frame o) (some (with_locals m r)) ≡ some t)
      × Turned m.locals.pc energy t
frame-Turned o m energy (err e) h j k = (err e, refl, tt)
frame-Turned o m energy (ok l) h j (inl jumped) =
    let leaps : (jumps (frame o) || halts (frame o)) ≡ true = jumps_lem (frame o) jumped in
    (ok (record m { locals = l }), rw (leaps) refl, inl (j jumped))
frame-Turned o m energy (ok l) h j (inr (inl (q, stopped))) =
    (ok (record m { locals = l }), rw (q) refl, inr (h, inl stopped))
frame-Turned o m energy (ok l) h j (inr (inr (q, k))) =
    (ok (record m { locals = record l { pc = l.pc + 1 } }), rw (q) refl, inr (h, inr (omega arith)))
