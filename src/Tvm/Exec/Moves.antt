-- ===== src/Tvm/Exec/Moves.antt =====
-- instructions.go: where an instruction of a frame leaves the program counter.
use go_tron.Tvm.Exec.{
  Local, Scene, words_of_stack, with_stack, with_stack_result, top, rest, push_word, replace1,
  replace2, replace3, or_panic, write_mem, push_value, arith_value, compare_value, bit_value,
  unary_value, environment_value,
}
use go_tron.Tvm.Exec.Frame.{
  exec_keccak, exec_mload, exec_mstore, exec_mstore8, exec_copy, exec_returndatacopy, exec_return,
  exec_pop, exec_tokenbalance, exec_frame, source_bytes,
}
use go_tron.Tvm.Opcode.{
  Instr, halts, jumps, FrameOp, frame, stop, addmod, mulmod, keccak256, tokenbalance, arith_op,
  compare_op, bit_op, environment, unary, copy_op, extcodecopy, returndatacopy, pop_op, mload,
  mstore, mstore8, jump, jumpi, jumpdest, push_op, dup_op, swap_op, return_op, revert_op, invalid,
  staking_deferred,
}
use go_tron.Tvm.Errors.{Error}
use go_tron.Tvm.Stack.{Stack, push, dup, swap}
use go_tron.Tvm.Memory.{Memory, get, set, set32}
use go_tron.Tvm.Cost.{mem_access_size}
use go_tron.Tvm.Gas.{word_to_addr}
use go_tron.Tvm.StateDb.{MemStateDb, get_code}
use go_tron.Tvm.Uint256.{low64}
use go_tron.Prelude.Bytes.{Bytes}
use go_tron.Prelude.Result.{Result, ok, err, Result-cases}
use go_tron.Prelude.{
  ℕ, ◌+◌, ◌≤◌, ◌%◌, Bool, true, false, ltb, leb, ◌≡◌, refl, ◌⊎◌, ◌||◌, inl, inr, List, [], ◌∷◌,
  Option, none, some, length, arith, Bool-cases,
}

abbrev Continues : ℕ → Result Error Local → Type 0
Continues pc (err e) = Unit
Continues pc (ok l) = pc ≤ l.pc

abbrev Stops : Result Error Local → Type 0
Stops (err e) = Unit
Stops (ok l) = l.stopped ≡ true

-- An instruction jumps, ends its frame, or does not move the counter back.
abbrev pub Moves : Instr → ℕ → Result Error Local → Type 0
Moves i pc (err e) = Unit
Moves i pc (ok l) =
    ((i ≡ frame jump) ⊎ (i ≡ frame jumpi))
    ⊎ ((((jumps i || halts i) ≡ true) × (l.stopped ≡ true))
        ⊎ (((jumps i || halts i) ≡ false) × (pc ≤ l.pc)))

continues :
    (i : Instr) (pc : ℕ) (r : Result Error Local)
    → (jumps i || halts i) ≡ false
    → Continues pc r
    → Moves i pc r
continues i pc (err e) n h = tt
continues i pc (ok l) n h = inr (inr (n, h))

stops :
    (i : Instr) (pc : ℕ) (r : Result Error Local)
    → (jumps i || halts i) ≡ true
    → Stops r
    → Moves i pc r
stops i pc (err e) e' h = tt
stops i pc (ok l) e h = inr (inl (e, h))

leaps :
    (i : Instr) (pc : ℕ) (r : Result Error Local)
    → (i ≡ frame jump) ⊎ (i ≡ frame jumpi)
    → Moves i pc r
leaps i pc (err e) e' = tt
leaps i pc (ok l) e = inl e

module _ (l : Local) where
  replace1-Continues : (f : ℕ → ℕ) (ws : List ℕ) → Continues l.pc (replace1 l f ws)
  unfolding replace1
  replace1-Continues f [] = tt
  replace1-Continues f (x ∷ ws) = omega arith

  replace2-Continues : (f : ℕ → ℕ → ℕ) (ws : List ℕ) → Continues l.pc (replace2 l f ws)
  unfolding replace2
  replace2-Continues f [] = tt
  replace2-Continues f (x ∷ []) = tt
  replace2-Continues f (x ∷ y ∷ ws) = omega arith

  replace3-Continues : (f : ℕ → ℕ → ℕ → ℕ) (ws : List ℕ) → Continues l.pc (replace3 l f ws)
  unfolding replace3
  replace3-Continues f [] = tt
  replace3-Continues f (x ∷ []) = tt
  replace3-Continues f (x ∷ y ∷ []) = tt
  replace3-Continues f (x ∷ y ∷ z ∷ ws) = omega arith

  push_word-Continues : (size w : ℕ) → Continues l.pc (push_word (record l { pc = l.pc + size }) w)
  unfolding push_word push
  push_word-Continues size w = elim (Bool-cases (leb 1024 (length (words_of_stack l)))) [
    | inl e ↦ rw (push_word, push, e) tt
    | inr e ↦ rw (push_word, push, e) (omega arith)
  ]

  push-Continues : (w : ℕ) → Continues l.pc (push_word l w)
  unfolding push_word push
  push-Continues w = elim (Bool-cases (leb 1024 (length (words_of_stack l)))) [
    | inl e ↦ rw (push_word, push, e) tt
    | inr e ↦ rw (push_word, push, e) (omega arith)
  ]

  stack-Continues : (r : Result Error Stack) → Continues l.pc (with_stack_result l r)
  stack-Continues (err e) = tt
  stack-Continues (ok st) = omega arith

  or_panic-Continues {ℓ} :
      {A : Type ℓ} (o : Option A) (next : A → Result Error Local)
      → ((a : A) → Continues l.pc (next a))
      → Continues l.pc (or_panic o next)
  or_panic-Continues none next h = tt
  or_panic-Continues (some a) next h = h a

  write_mem-Continues :
      (ws : List ℕ) (offset : ℕ) (value : Bytes) → Continues l.pc (write_mem l ws offset value)
  unfolding write_mem
  write_mem-Continues ws offset value =
      or_panic-Continues (set l.mem offset value) _ (λ m. omega arith)

  keccak-Continues : (e : Scene) (ws : List ℕ) → Continues l.pc (exec_keccak e l ws)
  unfolding exec_keccak
  keccak-Continues e [] = tt
  keccak-Continues e (offset ∷ []) = tt
  keccak-Continues e (offset ∷ size ∷ ws) =
      or_panic-Continues (get l.mem (low64 offset) (low64 size)) _ (λ m. omega arith)

  mload-Continues : (e : Scene) (ws : List ℕ) → Continues l.pc (exec_mload e l ws)
  unfolding exec_mload
  mload-Continues e [] = tt
  mload-Continues e (offset ∷ ws) =
      or_panic-Continues (get l.mem (low64 offset) 32) _ (λ m. omega arith)

  mstore-Continues : (e : Scene) (ws : List ℕ) → Continues l.pc (exec_mstore e l ws)
  unfolding exec_mstore
  mstore-Continues e ws =
      or_panic-Continues (set32 l.mem (low64 (top ws)) (e.words.bytes32 (top (rest ws)))) _
        (λ m. omega arith)

  copy-Continues : (src : Bytes) (ws : List ℕ) → Continues l.pc (exec_copy src l ws)
  unfolding exec_copy
  copy-Continues src ws = write_mem-Continues _ _ _

  returndatacopy-Continues : (ws : List ℕ) → Continues l.pc (exec_returndatacopy l ws)
  unfolding exec_returndatacopy
  returndatacopy-Continues ws =
      elim (Result-cases (mem_access_size (top (rest ws)) (top (rest (rest ws))))) [
        | inr (e, q) ↦ rw (exec_returndatacopy, q) tt
        | inl (end, q) ↦ elim (Bool-cases (ltb (length l.return_data) end)) [
          | inl e ↦ rw (exec_returndatacopy, q, e) tt
          | inr e ↦ rw (exec_returndatacopy, q, e) (write_mem-Continues _ _ _)
        ]
      ]

  return-Stops : (reverts : Bool) (ws : List ℕ) → Stops (exec_return reverts l ws)
  unfolding exec_return
  return-Stops reverts ws = go (get l.mem (low64 (top ws)) (low64 (top (rest ws))))
    where
      go :
          (o : Option (Bytes × Memory))
          → Stops (
              or_panic o λ r. ok (record (with_stack l (rest (rest ws))) {
                mem = r.1;
                ret = r.0;
                reverted = reverts;
                stopped = true;
              }))
      go none = tt
      go (some r) = refl

  pop-Continues : (ws : List ℕ) → Continues l.pc (exec_pop l ws)
  unfolding exec_pop
  pop-Continues [] = tt
  pop-Continues (w ∷ ws) = omega arith

module _ (e : Scene) (s : MemStateDb) (remaining : ℕ) (l : Local) where
  -- Every instruction of a frame.
  pub exec_frame-Moves : (o : FrameOp) → Moves (frame o) l.pc (exec_frame e s remaining l o)
  unfolding exec_frame exec_tokenbalance exec_mstore8
  exec_frame-Moves stop = inr (inl (refl, refl))
  exec_frame-Moves (arith_op o) =
      continues (frame (arith_op o)) l.pc _ refl
        (replace2-Continues l (arith_value e.words o) (words_of_stack l))
  exec_frame-Moves (compare_op o) =
      continues (frame (compare_op o)) l.pc _ refl
        (replace2-Continues l (compare_value e.words o) (words_of_stack l))
  exec_frame-Moves (bit_op o) =
      continues (frame (bit_op o)) l.pc _ refl
        (replace2-Continues l (bit_value e.words o) (words_of_stack l))
  exec_frame-Moves addmod =
      continues (frame addmod) l.pc _ refl (replace3-Continues l e.words.add_mod (words_of_stack l))
  exec_frame-Moves mulmod =
      continues (frame mulmod) l.pc _ refl (replace3-Continues l e.words.mul_mod (words_of_stack l))
  exec_frame-Moves keccak256 =
      continues (frame keccak256) l.pc _ refl (keccak-Continues l e (words_of_stack l))
  exec_frame-Moves tokenbalance =
      continues (frame tokenbalance) l.pc _ refl
        (replace1-Continues l (λ _. 0) (rest (words_of_stack l)))
  exec_frame-Moves (environment o) =
      continues (frame (environment o)) l.pc _ refl
        (push-Continues l (environment_value e s remaining l o))
  exec_frame-Moves (unary o) =
      continues (frame (unary o)) l.pc _ refl
        (replace1-Continues l (unary_value e s o) (words_of_stack l))
  exec_frame-Moves (copy_op o) =
      continues (frame (copy_op o)) l.pc _ refl
        (copy-Continues l (source_bytes e o) (words_of_stack l))
  exec_frame-Moves extcodecopy = continues (frame extcodecopy) l.pc _ refl (
      copy-Continues l (get_code s (word_to_addr (top (words_of_stack l))))
        (rest (words_of_stack l)))
  exec_frame-Moves returndatacopy =
      continues (frame returndatacopy) l.pc _ refl (returndatacopy-Continues l (words_of_stack l))
  exec_frame-Moves pop_op =
      continues (frame pop_op) l.pc _ refl (pop-Continues l (words_of_stack l))
  exec_frame-Moves mload =
      continues (frame mload) l.pc _ refl (mload-Continues l e (words_of_stack l))
  exec_frame-Moves mstore =
      continues (frame mstore) l.pc _ refl (mstore-Continues l e (words_of_stack l))
  exec_frame-Moves mstore8 = continues (frame mstore8) l.pc _ refl (
      write_mem-Continues l (rest (rest (words_of_stack l))) (low64 (top (words_of_stack l)))
        (low64 (top (rest (words_of_stack l))) % 256 ∷ []))
  exec_frame-Moves jump = leaps (frame jump) l.pc _ (inl refl)
  exec_frame-Moves jumpi = leaps (frame jumpi) l.pc _ (inr refl)
  exec_frame-Moves jumpdest = inr (inr (refl, omega arith))
  exec_frame-Moves (push_op size) =
      continues (frame (push_op size)) l.pc _ refl
        (push_word-Continues l size (push_value e l.pc size))
  exec_frame-Moves (dup_op n) =
      continues (frame (dup_op n)) l.pc _ refl (stack-Continues l (dup l.stack n))
  exec_frame-Moves (swap_op n) =
      continues (frame (swap_op n)) l.pc _ refl (stack-Continues l (swap l.stack n))
  exec_frame-Moves return_op =
      stops (frame return_op) l.pc _ refl (return-Stops l false (words_of_stack l))
  exec_frame-Moves revert_op =
      stops (frame revert_op) l.pc _ refl (return-Stops l true (words_of_stack l))
  exec_frame-Moves invalid = tt
  exec_frame-Moves staking_deferred = tt
