-- ===== src/Radio/Split.antt =====
-- splitChunk of pkg/Radio/Utils.go: the bytes, the bounds and the number of the parts.
use native.Mathlib.Nat.{pow-suc, div-add-mod', div-lt_iff_lt-mul}
use paintty_server_go.Prelude.{
  ℕ, zero, suc, ◌+◌, ◌*◌, ◌/◌, ◌%◌, ◌^◌, ◌≤◌, ◌<◌, ◌≡◌, refl, sym, ap, ◌∙◌, [], ◌∷◌, ◌++◌, Bytes,
  arith, ltb, length, take, drop, Bool-cases, inl, inr, take-add, drop-drop, append-nil,
  append_assoc,
}
use paintty_server_go.Prelude.Int.{ℤ, pos, ◌+ℤ◌, int64, int64-pos, pos-+ℤ}
use paintty_server_go.Radio.Tasks.{
  chunk_size, max_chunks_in_queue, RadioChunk, ram, file, TaskList, grow, grow_fuel, parts,
  split_chunk,
}

-- The bytes of the log at a range, none for a negative bound.
abbrev pub range : Bytes → ℤ → ℤ → Bytes
range l (pos o) (pos n) = take n (drop o l)
range l _ _ = []

-- What a chunk stands for, over the log of the radio's file.
abbrev pub payload : Bytes → RadioChunk → Bytes
payload l (ram d) = d
payload l (file c) = range l c.start c.length

abbrev pub payloads : Bytes → TaskList → Bytes
payloads l [] = []
payloads l (c ∷ cs) = payload l c ++ payloads l cs

pub payloads-append :
    (l : Bytes) (xs ys : TaskList) → payloads l (xs ++ ys) ≡ payloads l xs ++ payloads l ys
payloads-append l [] ys = refl
payloads-append l (x ∷ xs) ys =
    ap (◌++◌ (payload l x)) (payloads-append l xs ys)
    ∙ sym (append_assoc (payload l x) (payloads l xs) (payloads l ys))

-- A range that is not empty and lies between 0 and 2 ^ 63.
abbrev pub IsRange : ℤ → ℤ → Type 0
IsRange (pos o) (pos n) = (0 < n) × (o + n < 2 ^ 63)
IsRange _ _ = ⊥

abbrev pub IsTask : RadioChunk → Type 0
IsTask (ram d) = Unit
IsTask (file c) = IsRange c.start c.length

abbrev pub AllTasks : TaskList → Type 0
AllTasks [] = Unit
AllTasks (c ∷ cs) = IsTask c × AllTasks cs

pub AllTasks-append : (xs ys : TaskList) → AllTasks xs → AllTasks ys → AllTasks (xs ++ ys)
AllTasks-append [] ys hx hy = hy
AllTasks-append (x ∷ xs) ys hx hy = (hx.0, AllTasks-append xs ys hx.1 hy)

pub AllTasks-front : (xs ys : TaskList) → AllTasks (xs ++ ys) → AllTasks xs × AllTasks ys
AllTasks-front [] ys h = (tt, h)
AllTasks-front (x ∷ xs) ys h = let (front, back) = AllTasks-front xs ys h.1 in ((h.0, front), back)

pub step-pos : (o size : ℕ) → o + size < 2 ^ 63 → int64 (pos o +ℤ pos size) ≡ pos (o + size)
step-pos o size h = rw (pos-+ℤ o size) (int64-pos (o + size) h)

-- The parts from offset o on, in one induction.
parts_lem :
    (l : Bytes) (k o size left : ℕ)
    → 0 < size
    → o + (k * size + left) < 2 ^ 63
    → (payloads l (parts k (pos o) size left) ≡ take (k * size + left) (drop o l))
      × AllTasks (parts k (pos o) size left)
      × (length (parts k (pos o) size left) ≤ k + 1)
unfolding parts
parts_lem l zero o size left h fits = elim (Bool-cases (ltb 0 left)) [
  | inl some_left ↦
      let e : 0 * size + left ≡ left = omega arith in
      let positive : 0 < left = ground arith in
      rw (some_left, e)
        (append-nil (take left (drop o l)), ((positive, omega arith), tt), omega arith)
  | inr none_left ↦
      let e : 0 * size + left ≡ 0 = ground arith in rw (none_left, e) (refl, tt, omega arith)
]
parts_lem l (suc k) o size left h fits =
    let inside : o + size < 2 ^ 63 = omega arith in
    let (bytes, tasks, count) = parts_lem l k (o + size) size left h (omega arith) in
    let e : suc k * size + left ≡ size + (k * size + left) = omega arith in
    rw (step-pos o size inside, e)
      (
        ap (◌++◌ (take size (drop o l)))
              (bytes ∙ ap (take (k * size + left)) (sym (drop-drop o size l)))
            ∙ sym (take-add size (k * size + left) (drop o l)),
        ((h, inside), tasks),
        omega (arith, count),
      )

grow-pos : (fuel n size : ℕ) → 0 < size → 0 < grow fuel n size
unfolding grow
grow-pos zero n size h = h
grow-pos (suc fuel) n size h = ground (arith, grow-pos fuel n (size * 2))

div_small : (n size : ℕ) → 0 < size → n < 2049 * size → n / size ≤ 2048
div_small n size h k = grind (arith, (div-lt_iff_lt-mul {k = size} {x = n} {y = 2049} h).1)

grow_bound : (fuel n size : ℕ) → 0 < size → n < 2049 * size * 2 ^ fuel → n / grow fuel n size ≤ 2048
unfolding grow
grow_bound zero n size h k = div_small n size h (omega arith)
grow_bound (suc fuel) n size h k = elim (Bool-cases (ltb 2048 (n / size))) [
  | inl many ↦ rw many (
      grow_bound fuel n (size * 2) (omega arith)
        (omega (arith, pow-suc 2 fuel, ap (λ (t : ℕ). 2049 * size * t) (pow-suc 2 fuel))))
  | inr few ↦ rw few (ground arith)
]

-- The parts of a chunk between offsets 0 and 2 ^ 63 hold exactly its bytes, in order; none of them
-- is empty, each lies between 0 and 2 ^ 63, and there are at most 2049.
pub split_chunk-payloads :
    (l : Bytes) (o n : ℕ)
    → o + n < 2 ^ 63
    → (payloads l (split_chunk (record { start = pos o; length = pos n })) ≡ take n (drop o l))
      × AllTasks (split_chunk (record { start = pos o; length = pos n }))
      × (length (split_chunk (record { start = pos o; length = pos n })) ≤ max_chunks_in_queue + 1)
unfolding split_chunk
split_chunk-payloads l o n fits =
    let size : ℕ = grow grow_fuel n chunk_size in
    let positive : 0 < grow grow_fuel n chunk_size =
      grow-pos grow_fuel n chunk_size (omega arith) in
    let e : n / size * size + n % size ≡ n = div-add-mod' n size in
    let few : n / grow grow_fuel n chunk_size ≤ 2048 =
      grow_bound grow_fuel n chunk_size (omega arith) (omega arith) in
    let (bytes, tasks, count) =
      parts_lem l (n / size) o size (n % size) positive (omega (arith, e)) in
    (bytes ∙ ap (λ (k : ℕ). take k (drop o l)) e, tasks, omega (arith, count, few))
