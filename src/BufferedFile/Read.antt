-- ===== src/BufferedFile/Read.antt =====
-- ReadAt against the log: which bytes it returns, and when it refuses or panics.
use mathlib.Core.Path.{ap₂}
use paintty_server_go.Prelude.{
  ℕ, zero, suc, ◌+◌, ◌-◌, ◌^◌, ◌≤◌, ◌<◌, ◌≡◌, refl, sym, ap, ◌∙◌, Bool, true, false, not, ◌&&◌,
  ◌||◌, [], ◌++◌, Bytes, none, some, cannot_read_so_much, arith, ltb, ◌==◌, length, take, drop,
  replicate, Bool-cases, inl, inr, length-append, length-take, length-drop, take-length,
  take-append_left, take-append_right, drop-append_left, drop-append_right, take-take,
  take-drop-take, append-nil,
}
use paintty_server_go.Prelude.Int.{
  pos, negsuc, ◌+ℤ◌, int64, int64-pos, int64-negsuc, negsuc-+ℤ, pos-+ℤ, pos_sub, ltb_ℤ, leb_ℤ,
}
use paintty_server_go.BufferedFile.Disk.{File}
use paintty_server_go.BufferedFile.Disk
use paintty_server_go.BufferedFile.{Buffered, read, panics, filled, read_buffer, read_both, read_at}
use paintty_server_go.BufferedFile.Log.{log, IsValid, IsCalm, length-log}

-- The end of the range that a call asks for.
end_pos : (o n : ℕ) → o + n < 2 ^ 63 → int64 (pos o +ℤ pos n) ≡ pos (o + n)
end_pos o n h = rw (pos-+ℤ o n) (int64-pos (o + n) h)

filled_self : (n : ℕ) (b : Bytes) → length b ≡ n → filled n b ≡ b
filled_self n b h = let e : n - length b ≡ 0 = omega arith in rw e (append-nil b)

read-content :
    (f : File) (n o : ℕ)
    → f.is_open ≡ true
    → f.outcomes ≡ []
    → o + n ≤ length f.content
    → Disk.read f n (pos o) ≡ (take n (drop o f.content), none)
unfolding Disk.read
read-content f zero o open' c h = refl
read-content f (suc n) o open' c h =
    let some_bytes : (suc n == 0) ≡ false = ground arith in
    let whole : (length (take (suc n) (drop o f.content)) == suc n) ≡ true =
      ground (arith, length-take (suc n) (drop o f.content), length-drop o f.content) in
    rw (some_bytes, open', c, whole)

module _ (f : Buffered) (o n : ℕ) (v : IsValid f) (c : IsCalm f) where
  bytes : Bytes
  bytes = take n (drop o (log f))

  read_file_lem :
      o + n ≤ f.file_size
      → (filled n (take n (drop o f.file.content)) ≡ bytes)
        × (length (take n (drop o f.file.content)) ≡ n)
  unfolding bytes
  read_file_lem h =
      let size : length (take n (drop o f.file.content)) ≡ n =
        omega
          (arith, length-take n (drop o f.file.content), length-drop o f.file.content, v.on_file) in
      (
        filled_self n _ size
            ∙ sym (
                ap (take n) (
                  drop-append_left o f.file.content (take f.water_mark f.buffer)
                    (omega (arith, v.on_file)))
                ∙ take-append_left n (drop o f.file.content) (take f.water_mark f.buffer)
                    (omega (arith, length-drop o f.file.content, v.on_file))),
        size,
      )

  read_buffer_lem :
      f.file_size < o
      → o + n ≤ f.file_size + f.water_mark
      → read_buffer f (o - f.file_size) n ≡ read bytes n none
  unfolding bytes
  read_buffer_lem h k =
      let fits : ltb (length f.buffer) (o - f.file_size + n) ≡ false =
        ground (arith, v.in_buffer) in
      rw fits (
        ap (λ (b : Bytes). read b n none)
          (sym (
            ap (take n) (
              drop-append_right o f.file.content (take f.water_mark f.buffer)
                (omega (arith, v.on_file)))
            ∙ rw (← v.on_file)
                (take-drop-take n (o - f.file_size) f.water_mark f.buffer (omega arith)))))

  read_both_lem :
      o ≤ f.file_size
      → f.file_size ≤ o + n
      → o + n ≤ f.file_size + f.water_mark
      → read_both f n (pos o) (f.file_size - o) (o + n - f.file_size) ≡ read bytes n none
  unfolding bytes
  read_both_lem h k m = rw (got, no_panic) (ap (λ (b : Bytes). read b n none) (joined ∙ sym split))
    where
      tail : Bytes
      tail = drop o f.file.content

      length_tail : length tail ≡ f.file_size - o
      length_tail = omega (arith, length-drop o f.file.content, v.on_file)

      got : Disk.read f.file (f.file_size - o) (pos o) ≡ (tail, none)
      got =
          read-content f.file (f.file_size - o) o v.opened c (omega (arith, v.on_file))
          ∙ ap (λ (b : Bytes). (b, none))
              (take-length (f.file_size - o) tail (omega (arith, length_tail)))

      no_panic :
          (ltb (length f.buffer) (o + n - f.file_size)
            || ltb n (f.file_size - o + (o + n - f.file_size)))
          ≡ false
      no_panic = ground (arith, v.in_buffer)

      joined :
          filled n (filled (f.file_size - o) tail ++ take (o + n - f.file_size) f.buffer)
          ≡ tail ++ take (o + n - f.file_size) f.buffer
      joined = rw (filled_self (f.file_size - o) tail length_tail) (
          filled_self n _ (
            omega (
              arith,
              length-append tail (take (o + n - f.file_size) f.buffer),
              length-take (o + n - f.file_size) f.buffer,
              length_tail,
              v.in_buffer,
            )))

      split : take n (drop o (log f)) ≡ tail ++ take (o + n - f.file_size) f.buffer
      split =
          ap (take n) (
            drop-append_left o f.file.content (take f.water_mark f.buffer)
              (omega (arith, v.on_file)))
          ∙ take-append_right n tail (take f.water_mark f.buffer) (omega (arith, length_tail))
          ∙ ap (◌++◌ tail) (
              let e : n - length tail ≡ o + n - f.file_size = omega (arith, length_tail) in
              rw e (take-take (o + n - f.file_size) f.water_mark f.buffer (omega arith)))

  -- Between the start and the end of the log ReadAt fills the whole slice, with no error, with the
  -- bytes of the log at that offset, whether they lie in the file, in the buffer or in both.
  pub read_at-log :
      o + n ≤ length (log f)
      → o + n < 2 ^ 63
      → read_at f n (pos o) ≡ read (take n (drop o (log f))) n none
  unfolding read_at bytes
  read_at-log h small =
      rw (end_pos o n small, in_log)
        (elim (Bool-cases in_file_test) [
          | inl in_file ↦
              let fits : o + n ≤ f.file_size = ground arith in
              let (same, size) = read_file_lem fits in
              rw (in_file, read-content f.file n o v.opened c (omega (arith, v.on_file)))
                (ap₂ (λ (b : Bytes) (k : ℕ). read b k none) same size)
          | inr other ↦ elim (Bool-cases (ltb_ℤ (pos f.file_size) (pos o))) [
            | inl after ↦
                rw (other, after, pos_sub o f.file_size (ground arith))
                  (read_buffer_lem (ground arith) (omega (arith, log_size)))
            | inr before ↦
                let lo : o ≤ f.file_size = ground arith in
                let hi : f.file_size ≤ o + n = ground arith in
                let whole : ltb_ℤ (pos (o + n)) (pos f.file_size) ≡ false = ground arith in
                rw (other, before, whole, pos_sub f.file_size o lo, pos_sub (o + n) f.file_size hi)
                  (read_both_lem lo hi (omega (arith, log_size)))
          ]
        ])
    where
      log_size : length (log f) ≡ f.file_size + f.water_mark
      log_size = length-log f v

      in_log : ltb_ℤ (pos (f.file_size + f.water_mark)) (pos (o + n)) ≡ false
      in_log = ground (arith, log_size)

      in_file_test : Bool
      in_file_test = leb_ℤ (pos (o + n)) (pos f.file_size) && not (f.file_size == 0)

  -- A range that ends behind the log, and before offset 2 ^ 63, is refused: ReadAt reads nothing and
  -- returns its error. The file is valid, and no call of the operating system fails.
  pub read_at_past :
      length (log f) < o + n
      → o + n < 2 ^ 63
      → read_at f n (pos o) ≡ read (replicate n 0) 0 (some cannot_read_so_much)
  unfolding read_at
  read_at_past h small =
      let past : ltb_ℤ (pos (f.file_size + f.water_mark)) (pos (o + n)) ≡ true =
        ground (arith, length-log f v) in
      rw (end_pos o n small, past)

-- Where no byte is on file yet, reading n bytes from a negative offset -(k + 1), with n ≤ k and k
-- below 2 ^ 63, makes ReadAt panic.
pub read_at_negative :
    (f : Buffered) (n k : ℕ)
    → f.file_size ≡ 0
    → n ≤ k
    → k < 2 ^ 63
    → read_at f n (negsuc k) ≡ panics
unfolding read_at
read_at_negative f n k empty h small =
    let end : int64 (negsuc k +ℤ pos n) ≡ negsuc (k - n) =
      ap int64 (negsuc-+ℤ k n h) ∙ int64-negsuc (k - n) (omega arith) in
    let low : ltb_ℤ (pos (f.file_size + f.water_mark)) (negsuc (k - n)) ≡ false = ground arith in
    let none_on_file : not (f.file_size == 0) ≡ false = ground arith in
    let tested : (leb_ℤ (negsuc (k - n)) (pos f.file_size) && not (f.file_size == 0)) ≡ false =
      ground arith in
    let before : ltb_ℤ (pos f.file_size) (negsuc k) ≡ false = ground arith in
    let below : ltb_ℤ (negsuc (k - n)) (pos f.file_size) ≡ true = ground arith in
    rw (end, low, tested, before, below)
