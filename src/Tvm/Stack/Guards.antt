-- ===== src/Tvm/Stack/Guards.antt =====
-- The stack's guards.
use go_tron.Tvm.Stack.{Stack, len, push, pop, require, max_stack}
use go_tron.Tvm.Errors.{Error}
use go_tron.Prelude.Result.{Result, ok, ◌>>=◌}
use go_tron.Prelude.{
  ℕ, zero, suc, ◌+◌, ◌-◌, ◌≤◌, ◌≡◌, ◌∙◌, refl, ap, length-append, false, leb, length, arith, List,
  [], ◌∷◌, ◌++◌,
}

-- The words that n calls of `pop` give, the first one first.
abbrev pub pop_all : ℕ → Stack → Result Error (List ℕ × Stack)
pop_all zero s = ok ([], s)
pop_all (suc n) s = do (v, t) ← pop s; (vs, u) ← pop_all n t; ok (v ∷ vs, u)

abbrev pub push_all : List ℕ → Stack → Result Error Stack
push_all [] s = ok s
push_all (v ∷ vs) s = do t ← push s v; push_all vs t

-- The words go on top, the last one uppermost.
abbrev pub stacked : List ℕ → List ℕ → List ℕ
stacked [] xs = xs
stacked (v ∷ vs) xs = stacked vs (v ∷ xs)

push_all-stacked :
    (vs xs : List ℕ)
    → length xs + length vs ≤ max_stack
    → push_all vs (record { data_of = xs }) ≡ ok (record { data_of = stacked vs xs })
unfolding push
push_all-stacked [] xs h = refl
push_all-stacked (v ∷ vs) xs h =
    let room : leb max_stack (length xs) ≡ false = ground arith in
    rw room (push_all-stacked vs (v ∷ xs) (omega arith))

pop_all-append :
    (n : ℕ) (xs : List ℕ)
    → n ≤ length xs
    → (ws : List ℕ) × (rest : List ℕ) × (pop_all n (record { data_of = xs })
        ≡ ok (ws, record { data_of = rest }))
      × (xs ≡ ws ++ rest)
      × (length ws ≡ n)
unfolding pop
pop_all-append zero xs h = ([], xs, refl, refl, refl)
pop_all-append (suc n) [] h = elim h [ ]
pop_all-append (suc n) (x ∷ xs) h =
    let (ws, rest, e, f, g) = pop_all-append n xs (omega arith) in
    (x ∷ ws, rest, rw e refl, ap (λ t. x ∷ t) f, ap suc g)

-- The test of `require` is enough for the operation behind it: where it succeeds, that many calls
-- of `pop` succeed, then pushing that many words does, the popped words lay on top of the rest, and
-- the pushed ones lie there now.
pub require-pop_all-push_all :
    (s : Stack) (n : ℕ) (vs : List ℕ)
    → require s n (length vs) ≡ ok s
    → (ws : List ℕ) × (rest : List ℕ) × (pop_all n s ≡ ok (ws, record { data_of = rest }))
      × (push_all vs (record { data_of = rest }) ≡ ok (record { data_of = stacked vs rest }))
      × (s.data_of ≡ ws ++ rest)
      × (length ws ≡ n)
unfolding require
require-pop_all-push_all s n vs h =
    let enough : n ≤ len s = ground arith in
    let (ws, rest, e, f, g) = pop_all-append n s.data_of enough in
    let split : length s.data_of ≡ length ws + length rest = ap length f ∙ length-append ws rest in
    let below : len s - n + length vs ≤ max_stack = ground arith in
    let room : length rest + length vs ≤ max_stack = omega (arith, split, below, g) in
    (ws, rest, e, push_all-stacked vs rest room, f, g)
