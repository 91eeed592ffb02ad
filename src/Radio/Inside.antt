-- ===== src/Radio/Inside.antt =====
-- Pending tasks that lie inside the archive, while it grows and chunks are appended to them.
use paintty_server_go.Prelude.{
  ℕ, zero, suc, ◌+◌, ◌*◌, ◌/◌, ◌%◌, ◌^◌, ◌≤◌, ◌<◌, ◌≡◌, refl, sym, ap, ◌∙◌, true, [], ◌∷◌, ◌++◌,
  Bytes, some, arith, ltb, length, take, drop, Bool-cases, inl, inr, length-append,
  drop-append_left, take-append_left, length-drop,
}
use paintty_server_go.Prelude.Int.{ℤ, pos, negsuc, ◌+ℤ◌, eqb_ℤ, int64}
use paintty_server_go.Radio.Tasks.{
  FileChunk, RadioChunk, ram, file, TaskList, pop_back, append, grow, grow_fuel, parts, chunk_size,
  split_chunk, push_large_chunk, append_after, append_to_pendings,
}
use paintty_server_go.Radio.Split.{payloads, range, step-pos}
use paintty_server_go.Radio.Pending.{pop_back-snoc, last_split}
use native.Mathlib.Nat.{div-add-mod'}
use mathlib.Core.Option
use mathlib.Core.Option.{some-injective}
use mathlib.Core.Path.{subst}
use paintty_server_go.Radio.Serve.{IsIn, AllIn}

abbrev pub AllIn-payload : RadioChunk → Bytes → Type 0
AllIn-payload c l = AllIn (c ∷ []) l

pub AllIn-append : (xs ys : TaskList) (l : Bytes) → AllIn xs l → AllIn ys l → AllIn (xs ++ ys) l
AllIn-append [] ys l hx hy = hy
AllIn-append (ram d ∷ xs) ys l hx hy = AllIn-append xs ys l hx hy
AllIn-append (file k ∷ xs) ys l hx hy = (hx.0, AllIn-append xs ys l hx.1 hy)

AllIn-parts :
    (l : Bytes) (k o size left : ℕ)
    → o + (k * size + left) ≤ length l
    → length l < 2 ^ 63
    → AllIn (parts k (pos o) size left) l
unfolding parts
AllIn-parts l zero o size left fits small = elim (Bool-cases (ltb 0 left)) [
  | inl more ↦ rw more ((omega arith, omega arith), tt)
  | inr none_left ↦ rw none_left tt
]
AllIn-parts l (suc k) o size left fits small =
    rw (step-pos o size (omega arith))
      ((omega arith, omega arith), AllIn-parts l k (o + size) size left (omega arith) small)

-- A longer archive.
range-grown :
    (l e : Bytes) (o n : ℕ)
    → o + n ≤ length l
    → range (l ++ e) (pos o) (pos n) ≡ range l (pos o) (pos n)
range-grown l e o n h =
    ap (take n) (drop-append_left o l e (omega arith))
    ∙ take-append_left n (drop o l) e (omega (arith, length-drop o l))

IsIn-grown : (l e : Bytes) (s n : ℤ) → IsIn s n l → length (l ++ e) < 2 ^ 63 → IsIn s n (l ++ e)
IsIn-grown l e (pos o) (pos n) h small = (omega (arith, h.0, length-append l e), h.1)
IsIn-grown l e (pos o) (negsuc n) h small = h
IsIn-grown l e (negsuc o) n h small = h

pub AllIn-grown :
    (l e : Bytes) (list : TaskList) → AllIn list l → length (l ++ e) < 2 ^ 63 → AllIn list (l ++ e)
AllIn-grown l e [] h small = h
AllIn-grown l e (ram d ∷ list) h small = AllIn-grown l e list h small
AllIn-grown l e (file k ∷ list) h small =
    (IsIn-grown l e k.start k.length h.0 small, AllIn-grown l e list h.1 small)

pub payload-grown : (l e : Bytes) (s n : ℤ) → IsIn s n l → range (l ++ e) s n ≡ range l s n
payload-grown l e (pos o) (pos n) h = range-grown l e o n h.0
payload-grown l e (pos o) (negsuc n) h = refl
payload-grown l e (negsuc o) n h = refl

pub payloads-grown :
    (l e : Bytes) (list : TaskList) → AllIn list l → payloads (l ++ e) list ≡ payloads l list
payloads-grown l e [] h = refl
payloads-grown l e (ram d ∷ list) h = ap (◌++◌ d) (payloads-grown l e list h)
payloads-grown l e (file k ∷ list) h =
    rw (payload-grown l e k.start k.length h.0, payloads-grown l e list h.1) refl

pub AllIn-front : (xs ys : TaskList) (l : Bytes) → AllIn (xs ++ ys) l → AllIn xs l × AllIn ys l
AllIn-front [] ys l h = (tt, h)
AllIn-front (ram d ∷ xs) ys l h = AllIn-front xs ys l h
AllIn-front (file k ∷ xs) ys l h =
    let (front, back) = AllIn-front xs ys l h.1 in ((h.0, front), back)

eqb_ℤ_eq : (a b : ℤ) → eqb_ℤ a b ≡ true → a ≡ b
eqb_ℤ_eq (pos a) (pos b) h = ap pos (ground arith)
eqb_ℤ_eq (pos a) (negsuc b) h = absurd (ground arith)
eqb_ℤ_eq (negsuc a) (pos b) h = absurd (ground arith)
eqb_ℤ_eq (negsuc a) (negsuc b) h = ap negsuc (ground arith)

module _ (l : Bytes) (small : length l < 2 ^ 63) where
  pub AllIn-split_chunk :
      (s n : ℤ) → IsIn s n l → AllIn (split_chunk (record { start = s; length = n })) l
  unfolding split_chunk
  AllIn-split_chunk (pos o) (pos n) h =
      let size : ℕ = grow grow_fuel n chunk_size in
      let e : n / size * size + n % size ≡ n = div-add-mod' n size in
      AllIn-parts l (n / size) o size (n % size) (omega (arith, e, h.0)) small
  AllIn-split_chunk (pos o) (negsuc n) h = absurd h
  AllIn-split_chunk (negsuc o) n h = absurd h

  AllIn-push :
      (c : FileChunk) (list : TaskList)
      → AllIn list l
      → IsIn c.start c.length l
      → AllIn (push_large_chunk c list) l
  unfolding append
  AllIn-push c list h inside =
      AllIn-append list (split_chunk c) l h (AllIn-split_chunk c.start c.length inside)

  -- Two neighbours inside the archive are inside it as one range.
  IsIn-merged :
      (s n p m : ℤ) → IsIn s n l → IsIn p m l → int64 (s +ℤ n) ≡ p → IsIn s (int64 (n +ℤ m)) l
  IsIn-merged (pos o) (pos n) (pos p) (pos m) h k e =
      let next : o + n ≡ p = ground (arith, sym (step-pos o n h.1) ∙ e) in
      rw (step-pos n m (omega (arith, next, k))) (omega (arith, next, k), omega (arith, next, k))
  IsIn-merged (pos o) (pos n) (pos p) (negsuc m) h k e = absurd k
  IsIn-merged (pos o) (pos n) (negsuc p) m h k e = absurd k
  IsIn-merged (pos o) (negsuc n) p m h k e = absurd h
  IsIn-merged (negsuc o) n p m h k e = absurd h

  AllIn-append_after :
      (c : FileChunk) (b : RadioChunk) (list : TaskList)
      → AllIn (list ++ b ∷ []) l
      → IsIn c.start c.length l
      → AllIn (append_after c b list) l
  unfolding append_after append
  AllIn-append_after c (ram d) list h inside = AllIn-push c (list ++ ram d ∷ []) h inside
  AllIn-append_after c (file b) list h inside =
      elim (Bool-cases (eqb_ℤ (int64 (b.start +ℤ b.length)) c.start)) [
        | inl near ↦
            let (front, last) = AllIn-front list (file b ∷ []) l h in
            rw near (
              AllIn-push (record { start = b.start; length = int64 (b.length +ℤ c.length) }) list
                front
                (IsIn-merged b.start b.length c.start c.length last.0 inside
                  (eqb_ℤ_eq (int64 (b.start +ℤ b.length)) c.start near)))
        | inr far ↦ rw far (AllIn-push c (list ++ file b ∷ []) h inside)
      ]

  AllIn-append_file :
      (c : FileChunk) (list : TaskList)
      → AllIn list l
      → IsIn c.start c.length l
      → (list' : TaskList) × (append_to_pendings (file c) list ≡ some list') × AllIn list' l
  unfolding append_to_pendings
  AllIn-append_file c list h inside = elim (Bool-cases (ltb 0 (length list))) [
    | inr empty ↦ (push_large_chunk c list, rw empty refl, AllIn-push c list h inside)
    | inl more ↦
        let (b, front, e) = last_split list (ground arith) in
        (
          append_after c b front,
          rw more (
              ap
                (λ (r : TaskList).
                  Option.map (λ (x : RadioChunk × TaskList). append_after c x.0 x.1) (pop_back r))
                e
              ∙ rw (pop_back-snoc front b) refl),
          AllIn-append_after c b front (subst (λ (r : TaskList). AllIn r l) e h) inside,
        )
  ]

  -- Appending a chunk inside the archive to tasks inside it.
  pub append_to_pendings-AllIn :
      (c : RadioChunk) (list list' : TaskList)
      → AllIn list l
      → AllIn (c ∷ []) l
      → append_to_pendings c list ≡ some list'
      → AllIn list' l
  append_to_pendings-AllIn (ram d) list list' h inside e =
      subst (λ (r : TaskList). AllIn r l)
        (some-injective (list ++ ram d ∷ []) list' (unfold append_to_pendings append in e))
        (AllIn-append list (ram d ∷ []) l h tt)
  append_to_pendings-AllIn (file c) list list' h inside e =
      let (found, same, all) = AllIn-append_file c list h inside.0 in
      subst (λ (r : TaskList). AllIn r l) (some-injective found list' (sym same ∙ e)) all
