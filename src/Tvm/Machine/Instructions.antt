-- ===== src/Tvm/Machine/Instructions.antt =====
-- instructions.go: what every instruction keeps, where the frames that it calls are sound.
use go_tron.Tvm.Machine.{Setting, Frame, Machine, Runner, do_call, scene}
use go_tron.Tvm.Machine.Host.{
  with_input, read, nth, call_with_value, call_without_value, exec_call, exec_create, exec_log,
  exec_sstore, add_log,
}
use go_tron.Tvm.Machine.Step.{exec, with_locals}
use go_tron.Tvm.Machine.Effect.{update-Effect, log-Effect}
use go_tron.Tvm.Machine.Kept.{Kept-refl, Keeps, IsSound}
use go_tron.Tvm.Machine.Calls.{do_call-Keeps}
use go_tron.Tvm.Machine.Creates.{do_create-Keeps}
use go_tron.Tvm.Opcode.{
  Instr, frame, sstore, create, create2, log_op, call_op, CallKind, kind_call, kind_call_code,
  kind_delegate, kind_static,
}
use go_tron.Tvm.Errors.{Error}
use go_tron.Tvm.Exec.{Local, words_of_stack}
use go_tron.Tvm.Exec.Frame.{exec_frame}
use go_tron.Tvm.Memory.{Memory}
use go_tron.Tvm.Gas.{word_to_addr}
use go_tron.Tvm.Cost.{clamp_u64}
use go_tron.Tvm.Uint256.{low64}
use go_tron.Tvm.StateDb.{set_storage}
use go_tron.Prelude.Map.{insert}
use go_tron.Tvm.Meter.{remaining}
use go_tron.Tvm.Meter.Budget.{IsMeter}
use go_tron.Prelude.Bytes.{Bytes, nat_eq}
use go_tron.Prelude.Result.{Result, ok, err}
use go_tron.Prelude.{
  ℕ, Bool, true, false, if◌then◌else◌, refl, Option, none, some, inl, inr, Bool-cases,
}

-- What is kept does not depend on the frame's own data.
Keeps-locals :
    (ro : Bool) (m : Machine) (l : Local) (r : Option (Result Error Machine))
    → Keeps ro (record m { locals = l }) r
    → Keeps ro m r
Keeps-locals ro m l none h = tt
Keeps-locals ro m l (some (err e)) h = tt
Keeps-locals ro m l (some (ok m')) h = record {
  effect = h.effect;
  is_meter = h.is_meter;
  same_limit = h.same_limit;
}

with_input-Keeps :
    (ro : Bool) (m : Machine) (pops : ℕ) (input : Option (Bytes × Memory))
    (next : Machine → Bytes → Option (Result Error Machine))
    → ((l : Local) (bytes : Bytes)
        → Keeps ro (record m { locals = l }) (next (record m { locals = l }) bytes))
    → Keeps ro m (with_input m pops input next)
unfolding with_input
with_input-Keeps ro m pops none next h = tt
with_input-Keeps ro m pops (some (bytes, mem)) next h = Keeps-locals ro m _ _ (h _ bytes)

-- The instructions that reach outside their frame.
module _ (run : Runner) (g : Setting) (f : Frame) (m : Machine) (sound : IsSound run)
    (i : IsMeter m.meter) where
  input_call-Keeps :
      (pops : ℕ) (input : Option (Bytes × Memory)) (kind : CallKind)
      (to value requested out_off out_size : ℕ)
      → Keeps f.read_only m (
          with_input m pops input
            (λ m' args. do_call run g f m' kind to value requested args out_off out_size))
  input_call-Keeps pops input kind to value requested out_off out_size =
      with_input-Keeps f.read_only m pops input _ (λ l args.
        do_call-Keeps run g f (record m { locals = l }) kind to value requested args out_off
          out_size sound i)

  call_with_value-Keeps : (kind : CallKind) → Keeps f.read_only m (call_with_value run g f m kind)
  unfolding call_with_value
  call_with_value-Keeps kind =
      let ws = words_of_stack m.locals in
      input_call-Keeps 7 (read m (nth ws 3) (nth ws 4)) kind (word_to_addr (nth ws 1)) (nth ws 2)
        (clamp_u64 (nth ws 0)) (low64 (nth ws 5)) (low64 (nth ws 6))

  call_without_value-Keeps :
      (kind : CallKind) → Keeps f.read_only m (call_without_value run g f m kind)
  unfolding call_without_value
  call_without_value-Keeps kind =
      let ws = words_of_stack m.locals in
      input_call-Keeps 6 (read m (nth ws 2) (nth ws 3)) kind (word_to_addr (nth ws 1)) 0
        (clamp_u64 (nth ws 0)) (low64 (nth ws 4)) (low64 (nth ws 5))

  exec_call-Keeps : (kind : CallKind) → Keeps f.read_only m (exec_call run g f m kind)
  unfolding exec_call
  exec_call-Keeps kind_call = call_with_value-Keeps kind_call
  exec_call-Keeps kind_call_code = call_with_value-Keeps kind_call_code
  exec_call-Keeps kind_delegate = call_without_value-Keeps kind_delegate
  exec_call-Keeps kind_static = call_without_value-Keeps kind_static

  exec_create-Keeps : (salted : Bool) → Keeps f.read_only m (exec_create run g f m salted)
  unfolding exec_create
  exec_create-Keeps salted =
      let ws = words_of_stack m.locals in
      with_input-Keeps f.read_only m (if salted then 4 else 3) (read m (nth ws 1) (nth ws 2)) _
        (λ l code. do_create-Keeps run g f (record m { locals = l }) (nth ws 0) code _ sound i)

  exec_log-Keeps : (n : ℕ) → Keeps f.read_only m (some (exec_log f m n))
  unfolding exec_log
  exec_log-Keeps n = elim (Bool-cases f.read_only) [
    | inl e ↦ rw (exec_log, e) tt
    | inr e ↦ rw (exec_log, e) (go (read m _ _))
  ]
    where
      go : (r : Option (Bytes × Memory)) → Keeps false m (some (add_log f m n r))
      go none = tt
      go (some (bytes, mem)) = record { effect = log-Effect _; is_meter = i; same_limit = refl }

  exec_sstore-Keeps : Keeps f.read_only m (some (exec_sstore f m))
  unfolding exec_sstore set_storage
  exec_sstore-Keeps =
      let ws = words_of_stack m.locals in
      elim (Bool-cases f.read_only) [
        | inl e ↦ rw (exec_sstore, e) tt
        | inr e ↦
            rw (exec_sstore, e)
              (record {
                effect =
                    update-Effect f.contract.self
                      (λ a. record a { storage = insert (nth ws 0) (nth ws 1) a.storage });
                is_meter = i;
                same_limit = refl;
              })
      ]

  pub exec-Keeps : (o : Instr) → Keeps f.read_only m (exec run g f m o)
  unfolding exec
  exec-Keeps (frame o) = go (exec_frame (scene g f) m.shared.world (remaining m.meter) m.locals o)
    where
      go : (r : Result Error Local) → Keeps f.read_only m (some (with_locals m r))
      go (err e) = tt
      go (ok l) =
          Keeps-locals f.read_only m l (some (ok (record m { locals = l })))
            (Kept-refl f.read_only (record m { locals = l }) i)
  exec-Keeps sstore = exec_sstore-Keeps
  exec-Keeps create = exec_create-Keeps false
  exec-Keeps create2 = exec_create-Keeps true
  exec-Keeps (log_op n) = exec_log-Keeps n
  exec-Keeps (call_op kind) = exec_call-Keeps kind
