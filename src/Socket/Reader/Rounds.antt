-- ===== src/Socket/Reader/Rounds.antt =====
-- One round of OnData's loop: what it does when more bytes stand behind the buffer, and that it
-- shortens the buffer.
use paintty_server_go.Prelude.{
  ℕ, ◌≤◌, ◌<◌, ◌≡◌, ◌≢◌, refl, ◌⊎◌, inl, inr, false, ◌++◌, Bytes, arith, ltb, ◌==◌, length, take,
  Bool-cases, length-append, length-drop, take-append_left, drop-append_left, get_or-append_left,
}
use paintty_server_go.Common.{Zlib}
use paintty_server_go.Socket.Reader.{
  Reader, Round, waits, emits, fails, panics, Parsed, parsed, refused, index_panic, package_size,
  get_package_size, parse_package, after_parse, read_package, read_sized, round, push,
}

module _ (z : Zlib) (more : Bytes) where
  -- What the same round is with `more` behind the buffer.
  abbrev pub Extends : Round → Round → Type 0
  Extends (waits r) x = x ≡ round z (push r more)
  Extends (emits p r) x = x ≡ emits p (push r more)
  Extends (fails e r) x = x ≡ fails e (push r more)
  Extends (panics r) x = x ≡ panics (push r more)

  after_parse-push :
      (r : Reader) (x : Parsed) → Extends (after_parse r x) (after_parse (push r more) x)
  after_parse-push r (parsed p) = refl
  after_parse-push r (refused e) = refl
  after_parse-push r index_panic = refl

  read_package-push :
      (r : Reader)
      → r.data_size ≤ length r.buffer
      → Extends (read_package z r) (read_package z (push r more))
  read_package-push r h =
      rw
        (take-append_left r.data_size r.buffer more h, drop-append_left r.data_size r.buffer more h)
        (after_parse-push _ (parse_package z (take r.data_size r.buffer)))

  read_sized-push : (r : Reader) → Extends (read_sized z r) (read_sized z (push r more))
  unfolding read_sized round
  read_sized-push r = elim (Bool-cases (ltb (length r.buffer) r.data_size)) [
    | inl short ↦ let sized : (r.data_size == 0) ≡ false = ground arith in rw (short, sized) refl
    | inr full ↦
        let fits : r.data_size ≤ length r.buffer = ground arith in
        let still : ltb (length (r.buffer ++ more)) r.data_size ≡ false =
          ground (arith, length-append r.buffer more) in
        rw (full, still) (read_package-push r fits)
  ]

  package_size-append : (b : Bytes) → 4 ≤ length b → package_size (b ++ more) ≡ package_size b
  unfolding package_size
  package_size-append b h = rw (
    get_or-append_left b more 0 0 (omega arith),
    get_or-append_left b more 1 0 (omega arith),
    get_or-append_left b more 2 0 (omega arith),
    get_or-append_left b more 3 0 (omega arith),
  )

  get_package_size-push :
      (r : Reader)
      → 4 ≤ length r.buffer
      → get_package_size (push r more) ≡ push (get_package_size r) more
  get_package_size-push r h =
      ground (arith, drop-append_left 4 r.buffer more h, package_size-append r.buffer h)

  pub round-push : (r : Reader) → Extends (round z r) (round z (push r more))
  unfolding round
  round-push r = elim (Bool-cases (r.data_size == 0)) [
    | inr known ↦ rw known (read_sized-push r)
    | inl unknown ↦ elim (Bool-cases (ltb (length r.buffer) 4)) [
      | inl short ↦ rw (unknown, short) (rw unknown)
      | inr full ↦
          let four : 4 ≤ length r.buffer = ground arith in
          let still : ltb (length (r.buffer ++ more)) 4 ≡ false =
            ground (arith, length-append r.buffer more) in
          rw (unknown, full, still, get_package_size-push r four)
            (read_sized-push (get_package_size r))
    ]
  ]

-- A round that goes on has taken bytes from the buffer, and one that waits has added none.
abbrev pub Shrinks : ℕ → Round → Type 0
Shrinks n (waits r) = length r.buffer ≤ n
Shrinks n (emits p r) = length r.buffer < n
Shrinks n _ = Unit

module _ (z : Zlib) where
  after_parse-Shrinks :
      (r : Reader) (n : ℕ) (x : Parsed) → length r.buffer < n → Shrinks n (after_parse r x)
  after_parse-Shrinks r n (parsed p) h = h
  after_parse-Shrinks r n (refused e) h = tt
  after_parse-Shrinks r n index_panic h = tt

  read_sized-Shrinks :
      (r : Reader) (n : ℕ)
      → (length r.buffer < n) ⊎ ((length r.buffer ≡ n) × (r.data_size ≢ 0))
      → Shrinks n (read_sized z r)
  unfolding read_sized
  read_sized-Shrinks r n h = elim (Bool-cases (ltb (length r.buffer) r.data_size)) [
    | inl short ↦ rw short (ground arith)
    | inr full ↦ rw full (
        after_parse-Shrinks _ n (parse_package z (take r.data_size r.buffer))
          (ground (arith, length-drop r.data_size r.buffer)))
  ]

  pub round-Shrinks : (r : Reader) → Shrinks (length r.buffer) (round z r)
  unfolding round
  round-Shrinks r = elim (Bool-cases (r.data_size == 0)) [
    | inr known ↦ rw known (read_sized-Shrinks r _ (inr (refl, ground arith)))
    | inl unknown ↦ elim (Bool-cases (ltb (length r.buffer) 4)) [
      | inl short ↦ rw (unknown, short) (omega arith)
      | inr full ↦
          rw (unknown, full) (read_sized-Shrinks _ _ (inl (ground (arith, length-drop 4 r.buffer))))
    ]
  ]
