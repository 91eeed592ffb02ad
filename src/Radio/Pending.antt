-- ===== src/Radio/Pending.antt =====
-- appendToPendings and fetchAndSend: what is pending and what is sent, as bytes.
use mathlib.Core.Option
use paintty_server_go.Prelude.{
  ℕ, suc, ◌+◌, ◌-◌, ◌^◌, ◌<◌, ◌≡◌, refl, sym, ap, ◌∙◌, true, false, [], ◌∷◌, ◌++◌, Bytes, some,
  arith, ltb, ◌==◌, length, take, drop, Bool-cases, inl, inr, take-add, drop-drop, append-nil,
  append_assoc, length-snoc, get_elem?-snoc, take-length-append,
}
use paintty_server_go.Prelude.Int.{ℤ, pos, negsuc, eqb_ℤ}
use paintty_server_go.Radio.Tasks.{
  FileChunk, RadioChunk, ram, file, TaskList, append, pop_back, push_front, split_chunk,
  push_large_chunk, append_after, append_to_pendings,
}
use paintty_server_go.Radio.Split.{
  range, payload, payloads, payloads-append, IsRange, step-pos, AllTasks-front, IsTask, AllTasks,
  AllTasks-append, split_chunk-payloads,
}

-- PushFront puts the chunk in front.
pub push_front-cons : (r : TaskList) (c : RadioChunk) → push_front r c ≡ c ∷ r
unfolding push_front
push_front-cons [] c = refl
push_front-cons (x ∷ xs) c =
    let e : suc (length (xs ++ c ∷ [])) - 1 ≡ suc (length xs) = omega (arith, length-snoc xs c) in
    rw e (ap (λ (r : TaskList). c ∷ x ∷ r) (take-length-append xs (c ∷ [])))

-- PopBack takes the last chunk off.
pub pop_back-snoc : (r : TaskList) (c : RadioChunk) → pop_back (r ++ c ∷ []) ≡ some (c, r)
unfolding pop_back
pop_back-snoc r c =
    let e : length (r ++ c ∷ []) - 1 ≡ length r = omega (arith, length-snoc r c) in
    rw (e, get_elem?-snoc r c, take-length-append r (c ∷ []))

-- A list that is not empty has a last chunk.
pub last_split :
    (r : TaskList) → 0 < length r → (c : RadioChunk) × (front : TaskList) × (r ≡ front ++ c ∷ [])
last_split [] h = absurd (omega arith)
last_split (c ∷ []) h = (c, [], refl)
last_split (c ∷ d ∷ r) h =
    let (e, front, q) = last_split (d ∷ r) (omega arith) in (e, c ∷ front, ap (◌∷◌ c) q)

-- What appending a chunk is meant to do to the bytes that are pending.
abbrev pub Appends : Bytes → RadioChunk → TaskList → TaskList → Type 0
Appends l c list list' = (payloads l list' ≡ payloads l list ++ payload l c) × AllTasks list'

abbrev pub piece : ℕ → ℕ → FileChunk
piece o n = record { start = pos o; length = pos n }

module _ (l : Bytes) where
  push_large-Appends :
      (o n : ℕ) (list : TaskList)
      → o + n < 2 ^ 63
      → AllTasks list
      → Appends l (file (piece o n)) list (push_large_chunk (piece o n) list)
  unfolding append
  push_large-Appends o n list h tasks =
      let (bytes, parts, few) = split_chunk-payloads l o n h in
      (
        payloads-append l list (split_chunk (piece o n)) ∙ ap (◌++◌ (payloads l list)) bytes,
        AllTasks-append list (split_chunk (piece o n)) tasks parts,
      )

  -- The chunk `piece p m` behind its neighbour `piece o n`: one range.
  merged :
      (o n m : ℕ)
      → range l (pos o) (pos (n + m)) ≡ range l (pos o) (pos n) ++ range l (pos (o + n)) (pos m)
  merged o n m =
      take-add n m (drop o l) ∙ ap (λ (b : Bytes). take n (drop o l) ++ take m b) (drop-drop o n l)

  append_after-file :
      (o n p m : ℕ) (list : TaskList)
      → o + n < 2 ^ 63
      → p + m < 2 ^ 63
      → AllTasks (list ++ file (piece o n) ∷ [])
      → Appends l
          (file (piece p m))
          (list ++ file (piece o n) ∷ [])
          (append_after (piece p m) (file (piece o n)) list)
  unfolding append_after append
  append_after-file o n p m list ho hp tasks =
      rw (step-pos o n ho) (elim (Bool-cases ((o + n) == p)) [
        | inl near ↦
            let next : o + n ≡ p = ground arith in
            let test : eqb_ℤ (pos (o + n)) (pos p) ≡ true = ground arith in
            let (bytes, parts) = push_large-Appends o (n + m) list (omega arith) front in
            rw (test, step-pos n m (omega arith)) (bytes ∙ sym (behind next), parts)
        | inr far ↦
            let test : eqb_ℤ (pos (o + n)) (pos p) ≡ false = ground arith in
            rw test (push_large-Appends p m (list ++ file (piece o n) ∷ []) hp tasks)
      ])
    where
      front : AllTasks list
      front = (AllTasks-front list (file (piece o n) ∷ []) tasks).0

      behind :
          o + n ≡ p
          → payloads l (list ++ file (piece o n) ∷ []) ++ range l (pos p) (pos m)
            ≡ payloads l list ++ range l (pos o) (pos (n + m))
      behind next =
          ap (λ (b : Bytes). b ++ range l (pos p) (pos m))
            (payloads-append l list (file (piece o n) ∷ []))
          ∙ append_assoc (payloads l list) (range l (pos o) (pos n) ++ []) (range l (pos p) (pos m))
          ∙ ap (◌++◌ (payloads l list)) (
              ap (λ (b : Bytes). b ++ range l (pos p) (pos m))
                (append-nil (range l (pos o) (pos n)))
              ∙ rw (← next) (sym (merged o n m)))

  append_after-Appends :
      (p m : ℕ) (b : RadioChunk) (list : TaskList)
      → p + m < 2 ^ 63
      → AllTasks (list ++ b ∷ [])
      → Appends l (file (piece p m)) (list ++ b ∷ []) (append_after (piece p m) b list)
  unfolding append_after append
  append_after-Appends p m (ram d) list fits tasks =
      push_large-Appends p m (list ++ ram d ∷ []) fits tasks
  append_after-Appends p m (file b) list fits tasks =
      go b.start b.length (AllTasks-front list (file b ∷ []) tasks).1.0 tasks
    where
      go :
          (s n : ℤ)
          → IsRange s n
          → AllTasks (list ++ file (record { start = s; length = n }) ∷ [])
          → Appends l
              (file (piece p m))
              (list ++ file (record { start = s; length = n }) ∷ [])
              (append_after (piece p m) (file (record { start = s; length = n })) list)
      go (pos o) (pos n) h t = append_after-file o n p m list h.1 fits t
      go (pos o) (negsuc n) h t = absurd h
      go (negsuc o) n h t = absurd h

  append_file-Appends :
      (p m : ℕ) (list : TaskList)
      → p + m < 2 ^ 63
      → AllTasks list
      → (list' : TaskList) × (append_to_pendings (file (piece p m)) list ≡ some list')
        × Appends l (file (piece p m)) list list'
  unfolding append_to_pendings
  append_file-Appends p m list fits tasks = elim (Bool-cases (ltb 0 (length list))) [
    | inr empty ↦
        (push_large_chunk (piece p m) list, rw empty, push_large-Appends p m list fits tasks)
    | inl more ↦
        let (b, front, e) = last_split list (ground arith) in
        (
          append_after (piece p m) b front,
          rw more (
              ap
                (λ (r : TaskList).
                  Option.map (λ (x : RadioChunk × TaskList). append_after (piece p m) x.0 x.1)
                    (pop_back r))
                e
              ∙ rw (pop_back-snoc front b)),
          rw e (append_after-Appends p m b front fits (rw e at tasks)),
        )
  ]

  -- Appending a chunk to pending tasks never panics, and the bytes of the chunk are pending behind
  -- those that were pending before, also where the chunk is merged with its neighbour. The chunk
  -- and the tasks lie between offsets 0 and 2 ^ 63 and are not empty, and so are the new tasks.
  pub append_to_pendings-Appends :
      (c : RadioChunk) (list : TaskList)
      → IsTask c
      → AllTasks list
      → (list' : TaskList) × (append_to_pendings c list ≡ some list') × Appends l c list list'
  append_to_pendings-Appends (ram d) list h tasks = (
    list ++ ram d ∷ [],
    unfold append_to_pendings append in refl,
    (
      payloads-append l list (ram d ∷ []) ∙ ap (◌++◌ (payloads l list)) (append-nil d),
      AllTasks-append list (ram d ∷ []) tasks (tt, tt),
    ),
  )
  append_to_pendings-Appends (file c) list h tasks = go c.start c.length h
    where
      go :
          (s n : ℤ)
          → IsRange s n
          → (list' : TaskList) × (append_to_pendings (file (record { start = s; length = n })) list
              ≡ some list')
            × Appends l (file (record { start = s; length = n })) list list'
      go (pos p) (pos m) h = append_file-Appends p m list h.1 tasks
      go (pos p) (negsuc m) h = absurd h
      go (negsuc p) m h = absurd h
