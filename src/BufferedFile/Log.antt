-- ===== src/BufferedFile/Log.antt =====
-- The file and its buffer as one log of bytes: Write appends to it, Sync and the timer leave it
-- alone, Clear empties it.
use paintty_server_go.Prelude.{
  ℕ, zero, suc, ◌+◌, ◌-◌, ◌≤◌, ◌<◌, ◌≡◌, refl, sym, ap, ◌∙◌, true, false, [], ◌∷◌, ◌++◌, Bytes,
  none, arith, ltb, leb, length, take, set, Bool-cases, inl, inr, length-append, length-take,
  length-set, take-length, drop-length, append-nil, append_assoc,
}
use paintty_server_go.BufferedFile.Disk.{File, works, breaks, written, write_at}
use paintty_server_go.BufferedFile.Disk
use paintty_server_go.BufferedFile.{Buffered, reopen, sync, copy_in, store, write}

-- What was written since the last Clear, and what the file held before.
abbrev pub log : Buffered → Bytes
log f = f.file.content ++ take f.water_mark f.buffer

pub record IsValid (f : Buffered) : Type 0 where
  pub opened : f.file.is_open ≡ true
  pub at_end : f.file.cursor ≡ length f.file.content
  pub on_file : f.file_size ≡ length f.file.content
  pub in_buffer : f.water_mark ≤ length f.buffer
  pub whole : f.whole_size ≡ f.file_size + f.water_mark

pub length-log : (f : Buffered) → IsValid f → length (log f) ≡ f.file_size + f.water_mark
length-log f v = omega (
  arith,
  length-append f.file.content (take f.water_mark f.buffer),
  length-take f.water_mark f.buffer,
  v.in_buffer,
  v.on_file,
)

-- No call of the operating system is going to fail.
abbrev pub IsCalm : Buffered → Type 0
IsCalm f = f.file.outcomes ≡ []

-- A write at the end of the file appends.
pub write_at_end : (i : ℕ) (d c : Bytes) → i ≡ length c → write_at i d c ≡ c ++ d
write_at_end i d c e =
    let none_missing : i - length c ≡ 0 = omega arith in
    rw (
      take-length i c (omega arith),
      none_missing,
      drop-length (i + length d) c (omega arith),
      append-nil d,
    )

take-suc-set :
    (i : ℕ) (d : ℕ) (b : Bytes) → i < length b → take (i + 1) (set b i d) ≡ take i b ++ d ∷ []
take-suc-set i d [] h = absurd (omega arith)
take-suc-set zero d (x ∷ xs) h = refl
take-suc-set (suc i) d (x ∷ xs) h =
    let e : suc i + 1 ≡ suc (i + 1) = omega arith in
    rw e (ap (◌∷◌ x) (take-suc-set i d xs (omega arith)))

length-copy_in : (i : ℕ) (d b : Bytes) → length (copy_in i d b) ≡ length b
unfolding copy_in
length-copy_in i [] b = refl
length-copy_in i (x ∷ d) b = ground (arith, length-copy_in (i + 1) d (set b i x), length-set b i x)

take-copy_in :
    (i : ℕ) (d b : Bytes)
    → i + length d ≤ length b
    → take (i + length d) (copy_in i d b) ≡ take i b ++ d
unfolding copy_in
take-copy_in i [] b h = let e : i + 0 ≡ i = omega arith in rw (e, append-nil)
take-copy_in i (x ∷ d) b h =
    let e : i + suc (length d) ≡ i + 1 + length d = omega arith in
    let room : ltb i (length b) ≡ true = ground arith in
    rw (e, room)
      (take-copy_in (i + 1) d (set b i x) (omega (arith, length-set b i x))
        ∙ rw (take-suc-set i x b (omega arith), append_assoc))

-- What Sync is meant to do: `g` is `f` with the whole log on disk and nothing in the buffer.
pub record Flushed (f g : Buffered) : Type 0 where
  pub on_disk : g.file.content ≡ log f
  pub emptied : g.water_mark ≡ 0
  pub same_buffer : g.buffer ≡ f.buffer
  pub same_whole : g.whole_size ≡ f.whole_size
  pub valid : IsValid g
  pub calm : IsCalm g

Flushed-idle : (f : Buffered) → IsValid f → IsCalm f → f.water_mark ≡ 0 → Flushed f (reopen f)
unfolding Disk.open_file
Flushed-idle f v c empty = rw c (record {
  on_disk = rw (empty, append-nil);
  emptied = empty;
  same_buffer = refl;
  same_whole = refl;
  valid = record {
    opened = refl;
    at_end = refl;
    on_file = v.on_file;
    in_buffer = v.in_buffer;
    whole = v.whole;
  };
  calm = refl;
})

-- The file after a write at its end that works.
extended : File → Bytes → File
extended f d = record {
  content = f.content ++ d;
  cursor = length (f.content ++ d);
  is_open = true;
  outcomes = [];
}

write-extended :
    (f : File) (d : Bytes)
    → f.is_open ≡ true
    → f.outcomes ≡ []
    → f.cursor ≡ length f.content
    → Disk.write f d ≡ (extended f d, length d, none)
unfolding Disk.write extended
write-extended f d o c e =
    rw (o, c) (ground (arith, write_at_end f.cursor d f.content e, length-append f.content d))

pub sync-Flushed :
    (f : Buffered) → IsValid f → IsCalm f → ((sync f).1 ≡ none) × Flushed f (sync f).0
unfolding sync Disk.open_file extended
sync-Flushed f v c = elim (Bool-cases (ltb f.water_mark 1)) [
  | inl idle ↦ rw idle (refl, Flushed-idle f v c (ground arith))
  | inr busy ↦
      rw (busy, write-extended f.file (take f.water_mark f.buffer) v.opened c v.at_end)
        (
          refl,
          record {
            on_disk = refl;
            emptied = refl;
            same_buffer = refl;
            same_whole = refl;
            valid = record {
              opened = refl;
              at_end = refl;
              on_file = omega (
                arith,
                v.on_file,
                v.in_buffer,
                length-append f.file.content (take f.water_mark f.buffer),
                length-take f.water_mark f.buffer,
              );
              in_buffer = omega arith;
              whole = omega (arith, v.whole);
            };
            calm = refl;
          },
        )
]

-- What Write is meant to do: `g` is `f` with the bytes `d` at the end of the log.
pub record Appended (f : Buffered) (d : Bytes) (g : Buffered) : Type 0 where
  pub appended : log g ≡ log f ++ d
  pub same_size : length g.buffer ≡ length f.buffer
  pub valid : IsValid g
  pub calm : IsCalm g

store-buffered :
    (f : Buffered) (d : Bytes)
    → IsValid f
    → IsCalm f
    → f.water_mark + length d ≤ length f.buffer
    → ((store f d).1 ≡ length d) × ((store f d).2 ≡ none) × Appended f d (store f d).0
unfolding store
store-buffered f d v c room =
    let small : ltb (length f.buffer) (length d) ≡ false = ground arith in
    rw small (
      refl,
      refl,
      record {
        appended =
            ap (◌++◌ f.file.content) (take-copy_in f.water_mark d f.buffer room)
            ∙ sym (append_assoc f.file.content (take f.water_mark f.buffer) d);
        same_size = length-copy_in f.water_mark d f.buffer;
        valid = record {
          opened = v.opened;
          at_end = v.at_end;
          on_file = v.on_file;
          in_buffer = omega (arith, length-copy_in f.water_mark d f.buffer);
          whole = omega (arith, v.whole);
        };
        calm = c;
      },
    )

store-large :
    (f : Buffered) (d : Bytes)
    → IsValid f
    → IsCalm f
    → f.water_mark ≡ 0
    → length f.buffer < length d
    → ((store f d).1 ≡ length d) × ((store f d).2 ≡ none) × Appended f d (store f d).0
unfolding store extended
store-large f d v c empty large =
    let big : ltb (length f.buffer) (length d) ≡ true = ground arith in
    rw (big, write-extended f.file d v.opened c v.at_end)
      (
        refl,
        refl,
        record {
          appended = rw (empty, append-nil, append-nil);
          same_size = refl;
          valid = record {
            opened = refl;
            at_end = refl;
            on_file = omega (arith, v.on_file, length-append f.file.content d);
            in_buffer = v.in_buffer;
            whole = omega (arith, v.whole);
          };
          calm = refl;
        },
      )

-- The log after Sync, and after whatever is appended to it then.
pub Flushed-log : {f g : Buffered} → Flushed f g → log g ≡ log f
Flushed-log {f} {g} s = rw (s.on_disk, s.emptied) (append-nil (log f))

Appended-Flushed : {f g h : Buffered} {d : Bytes} → Flushed f g → Appended g d h → Appended f d h
Appended-Flushed {d = d} s a = record {
  appended = a.appended ∙ ap (λ (l : Bytes). l ++ d) (Flushed-log s);
  same_size = a.same_size ∙ ap length s.same_buffer;
  valid = a.valid;
  calm = a.calm;
}

store-Flushed :
    (f g : Buffered) (d : Bytes)
    → Flushed f g
    → ((store g d).1 ≡ length d) × ((store g d).2 ≡ none) × Appended f d (store g d).0
store-Flushed f g d s = elim (Bool-cases (ltb (length g.buffer) (length d))) [
  | inl large ↦
      let (n, e, a) = store-large g d s.valid s.calm s.emptied (ground arith) in
      (n, e, Appended-Flushed s a)
  | inr small ↦
      let (n, e, a) = store-buffered g d s.valid s.calm (ground (arith, s.emptied)) in
      (n, e, Appended-Flushed s a)
]

-- On a valid file, while no call of the operating system fails, Write takes all its bytes with no
-- error: they stand at the end of the log, the buffer keeps its size, and the file is valid after it.
pub write-Appended :
    (f : Buffered) (d : Bytes)
    → IsValid f
    → IsCalm f
    → ((write f d).1 ≡ length d) × ((write f d).2 ≡ none) × Appended f d (write f d).0
unfolding write
write-Appended f d v c = elim (Bool-cases (leb (length f.buffer - f.water_mark) (length d))) [
  | inr room ↦ rw room (store-buffered f d v c (ground arith))
  | inl little ↦ let (e, s) = sync-Flushed f v c in rw (little, e) (store-Flushed f (sync f).0 d s)
]
