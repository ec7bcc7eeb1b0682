-- ===== src/Tvm/Memory/View.antt =====
-- The memory as its readers see it: a function that is 0 past the end.
use go_tron.Tvm.Memory.{Memory, len, resize, copy, copy_at, set, get, words_for_bytes}
use go_tron.Prelude.{
  ℕ, zero, suc, ◌+◌, ◌-◌, ◌*◌, ◌%◌, ◌^◌, ◌≤◌, ◌<◌, ◌≡◌, refl, sym, ap, false, ◌&&◌, if◌then◌else◌,
  ltb, leb, ◌==◌, arith, [], ◌∷◌, ◌++◌, length, take, drop, get_or, replicate, length-append,
  length-replicate, length-take, length-drop, some,
}
use go_tron.Prelude.Bytes.{Bytes}

abbrev pub byte_at : Memory → ℕ → ℕ
byte_at m i = get_or m.store i 0

get_or-replicate : (n i : ℕ) → get_or {A = ℕ} (replicate n 0) i 0 ≡ 0
get_or-replicate zero i = refl
get_or-replicate (suc n) zero = refl
get_or-replicate (suc n) (suc i) = get_or-replicate n i

get_or-zeros : (xs : Bytes) (n i : ℕ) → get_or (xs ++ replicate n 0) i 0 ≡ get_or xs i 0
get_or-zeros [] n i = get_or-replicate n i
get_or-zeros (x ∷ xs) n zero = refl
get_or-zeros (x ∷ xs) n (suc i) = get_or-zeros xs n i

length-copy : (xs v : Bytes) → length (copy xs v) ≡ length xs
length-copy [] v = refl
length-copy (x ∷ xs) [] = refl
length-copy (x ∷ xs) (y ∷ v) = ap suc (length-copy xs v)

length-copy_at : (xs : Bytes) (o : ℕ) (v : Bytes) → length (copy_at xs o v) ≡ length xs
length-copy_at xs zero v = length-copy xs v
length-copy_at [] (suc o) v = refl
length-copy_at (x ∷ xs) (suc o) v = ap suc (length-copy_at xs o v)

get_or-copy :
    (xs v : Bytes) (i : ℕ)
    → length v ≤ length xs
    → get_or (copy xs v) i 0 ≡ (if ltb i (length v) then get_or v i 0 else get_or xs i 0)
get_or-copy [] [] i h = ground arith
get_or-copy [] (y ∷ v) i h = elim h [ ]
get_or-copy (x ∷ xs) [] i h = ground arith
get_or-copy (x ∷ xs) (y ∷ v) zero h = ground arith
get_or-copy (x ∷ xs) (y ∷ v) (suc i) h = ground (arith, get_or-copy xs v i)

get_or-copy_at :
    (xs : Bytes) (o : ℕ) (v : Bytes) (i : ℕ)
    → o + length v ≤ length xs
    → get_or (copy_at xs o v) i 0
      ≡ (if leb o i && ltb i (o + length v) then get_or v (i - o) 0 else get_or xs i 0)
get_or-copy_at xs zero v i h = ground (arith, get_or-copy xs v i)
get_or-copy_at [] (suc o) v i h = ground arith
get_or-copy_at (x ∷ xs) (suc o) v zero h = ground arith
get_or-copy_at (x ∷ xs) (suc o) v (suc i) h = ground (arith, get_or-copy_at xs o v i)

take-copy : (xs v : Bytes) → length v ≤ length xs → take (length v) (copy xs v) ≡ v
take-copy [] [] h = refl
take-copy [] (y ∷ v) h = elim h [ ]
take-copy (x ∷ xs) [] h = refl
take-copy (x ∷ xs) (y ∷ v) h = ap (λ t. y ∷ t) (take-copy xs v (omega arith))

not_below_zero : (o n : ℕ) → ¬ (suc o + n ≤ 0)
not_below_zero o n h = omega arith

take-drop-copy_at :
    (xs : Bytes) (o : ℕ) (v : Bytes)
    → o + length v ≤ length xs
    → take (length v) (drop o (copy_at xs o v)) ≡ v
take-drop-copy_at xs zero v h = take-copy xs v (omega arith)
take-drop-copy_at [] (suc o) v h = absurd (not_below_zero o (length v) h)
take-drop-copy_at (x ∷ xs) (suc o) v h = take-drop-copy_at xs o v (omega arith)

-- Growing changes no byte, and makes room.
resize-byte_at : (m : Memory) (n i : ℕ) → byte_at (resize m n) i ≡ byte_at m i
unfolding resize
resize-byte_at m n i = ground (arith, get_or-zeros m.store (words_for_bytes n * 32 - len m) i)

resize-room : (m : Memory) (n : ℕ) → words_for_bytes n * 32 ≤ len (resize m n)
unfolding resize
resize-room m n = ground (
  arith,
  length-append m.store (replicate (words_for_bytes n * 32 - len m) 0),
  length-replicate {A = ℕ} (words_for_bytes n * 32 - len m) 0,
)

resize-idle : (m : Memory) (n : ℕ) → words_for_bytes n * 32 ≤ len m → resize m n ≡ m
unfolding resize
resize-idle m n h = ground arith

words_for_bytes-le : (n : ℕ) → n < 2 ^ 63 → n ≤ words_for_bytes n * 32
unfolding words_for_bytes
words_for_bytes-le n h = omega arith

length-take-drop : (n o : ℕ) (xs : Bytes) → o + n ≤ length xs → length (take n (drop o xs)) ≡ n
length-take-drop n o xs h = omega (arith, length-take n (drop o xs), length-drop o xs)

-- A read gives as many bytes as it asks for, and leaves the memory grown.
pub get-read :
    (m : Memory) (o n : ℕ)
    → o + n < 2 ^ 63
    → 0 < n
    → (v : Bytes) × (get m o n ≡ some (v, resize m (o + n))) × (length v ≡ n)
unfolding get
get-read m o n h p =
    let grown = resize m (o + n) in
    let fits : (o + n) % 2 ^ 64 ≡ o + n = omega arith in
    let room : o + n ≤ len grown =
      omega (arith, words_for_bytes-le (o + n) h, resize-room m (o + n)) in
    let some_size : (n == 0) ≡ false = ground arith in
    let inside : ltb (len grown) (o + n) ≡ false = ground (arith, room) in
    (
      take n (drop o grown.store),
      rw (some_size, fits, inside) refl,
      length-take-drop n o grown.store room,
    )

-- `Memory.set` on a memory succeeds, and a reader sees the bytes of the value where it was written
-- and what was there before elsewhere; `Memory.get` of that range gives the value back and leaves
-- the memory as it is. It holds for ranges that end below 2^63.
pub set-byte_at :
    (m : Memory) (o : ℕ) (v : Bytes)
    → o + length v < 2 ^ 63
    → (m' : Memory) × (set m o v ≡ some m')
      × ((i : ℕ)
          → byte_at m' i
            ≡ (if leb o i && ltb i (o + length v) then get_or v (i - o) 0 else byte_at m i))
      × (get m' o (length v) ≡ some (v, m'))
unfolding set get
set-byte_at m o [] h = (m, refl, λ i. ground arith, refl)
set-byte_at m o (y ∷ v) h =
    let n = o + suc (length v) in
    let grown = resize m n in
    let fits : n % 2 ^ 64 ≡ n = omega arith in
    let room : n ≤ len grown = omega (arith, words_for_bytes-le n h, resize-room m n) in
    let some_size : (suc (length v) == 0) ≡ false = ground arith in
    let same = length-copy_at grown.store o (y ∷ v) in
    let m' : Memory = record { store = copy_at grown.store o (y ∷ v) } in
    let idle : resize m' n ≡ m' = resize-idle m' n (rw same (resize-room m n)) in
    let inside : ltb (length m'.store) n ≡ false = ground (arith, same, room) in
    (
      m',
      rw (some_size, fits) (ground arith),
      λ i. rw (sym (resize-byte_at m n i)) (get_or-copy_at grown.store o (y ∷ v) i room),
      rw (some_size, fits, idle, inside)
          (ap (λ t. some (t, m')) (take-drop-copy_at grown.store o (y ∷ v) room)),
    )
