-- ===== src/BufferedFile/History.antt =====
-- Histories of calls while no call of the operating system fails: the file and its buffer refine a
-- log to which bytes are appended and which is sometimes emptied.
use paintty_server_go.Prelude.{
  ℕ, ◌+◌, ◌^◌, ◌≤◌, ◌<◌, ◌≡◌, refl, ap, ◌∙◌, true, false, List, [], ◌∷◌, ◌++◌, Bytes, none, some,
  arith, length, take, drop, append-nil,
}
use paintty_server_go.Prelude.Int.{pos}
use paintty_server_go.BufferedFile.Disk.{File}
use paintty_server_go.BufferedFile.Disk
use paintty_server_go.BufferedFile.{
  Buffered, sync, write, clear, close, make_buffered_file, read, read_at,
}
use paintty_server_go.BufferedFile.Log.{
  log, IsValid, IsCalm, length-log, sync-Flushed, Flushed-log, write-Appended,
}
use paintty_server_go.BufferedFile.Read.{read_at-log}

-- The calls that change the log or where it is kept.
pub data Call : Type 0 where
  writes : Bytes → Call
  syncs : Call
  clears : Call

unfoldable pub step : Buffered → Call → Buffered
step f (writes d) = (write f d).0
step f syncs = (sync f).0
step f clears = (clear f).0

unfoldable pub run : Buffered → List Call → Buffered
run f [] = f
run f (c ∷ cs) = run (step f c) cs

-- The specification: a list of bytes.
abbrev pub spec_step : Bytes → Call → Bytes
spec_step l (writes d) = l ++ d
spec_step l syncs = l
spec_step l clears = []

abbrev pub spec_run : Bytes → List Call → Bytes
spec_run l [] = l
spec_run l (c ∷ cs) = spec_run (spec_step l c) cs

clear_lem :
    (f : Buffered)
    → IsValid f
    → IsCalm f
    → ((clear f).1 ≡ none) × IsValid (clear f).0 × IsCalm (clear f).0 × (log (clear f).0 ≡ [])
unfolding clear Disk.truncate
clear_lem f v c =
    rw (c, v.opened)
      (
        refl,
        record {
          opened = refl;
          at_end = refl;
          on_file = refl;
          in_buffer = omega arith;
          whole = refl;
        },
        refl,
        refl,
      )

step_lem :
    (f : Buffered) (c : Call)
    → IsValid f
    → IsCalm f
    → IsValid (step f c) × IsCalm (step f c) × (log (step f c) ≡ spec_step (log f) c)
unfolding step
step_lem f (writes d) v c = let a = (write-Appended f d v c).2 in (a.valid, a.calm, a.appended)
step_lem f syncs v c = let s = (sync-Flushed f v c).1 in (s.valid, s.calm, Flushed-log s)
step_lem f clears v c = let (e, v', c', l) = clear_lem f v c in (v', c', l)

-- After any history of calls the counters are right, and the log is what the specification says.
pub run-log :
    (f : Buffered) (cs : List Call)
    → IsValid f
    → IsCalm f
    → IsValid (run f cs) × IsCalm (run f cs) × (log (run f cs) ≡ spec_run (log f) cs)
unfolding run
run-log f [] v c = (v, c, refl)
run-log f (k ∷ cs) v c =
    let (v', c', l) = step_lem f k v c in
    let (v'', c'', l') = run-log (step f k) cs v' c' in
    (v'', c'', l' ∙ ap (λ (b : Bytes). spec_run b cs) l)

-- The handle that an open gives.
at_end : File → File
at_end file = record {
  content = file.content;
  cursor = length file.content;
  is_open = true;
  outcomes = [];
}

open_file-at_end : (file : File) → file.outcomes ≡ [] → Disk.open_file file ≡ (at_end file, true)
unfolding Disk.open_file at_end
open_file-at_end file c = ground (arith)

-- A new buffered file takes up the file as it stands.
make_lem :
    (size : ℕ) (file : File)
    → file.outcomes ≡ []
    → ((make_buffered_file size file).1 ≡ none)
      × IsValid (make_buffered_file size file).0
      × IsCalm (make_buffered_file size file).0
      × (log (make_buffered_file size file).0 ≡ file.content)
unfolding make_buffered_file at_end Disk.stat
make_lem size file c = simp (open_file-at_end file c) (
  refl,
  record {
    opened = refl;
    at_end = refl;
    on_file = refl;
    in_buffer = omega arith;
    whole = omega arith;
  },
  refl,
  append-nil file.content,
)

-- Close writes the whole log out and closes the handle; a buffered file that is made over the same
-- file afterwards, of any buffer size, has that log. No call of the operating system fails, and
-- Close has not been called before.
pub make-close :
    (f : Buffered) (size : ℕ)
    → IsValid f
    → IsCalm f
    → f.going_close ≡ false
    → (g : Buffered) × (close f ≡ some (g, none))
      × (g.file.content ≡ log f)
      × (g.file.is_open ≡ false)
      × (log (make_buffered_file size g.file).0 ≡ log f)
unfolding close
make-close f size v c open' =
    let (e, s) =
      sync-Flushed (record f { going_close = true })
        (record {
          opened = v.opened;
          at_end = v.at_end;
          on_file = v.on_file;
          in_buffer = v.in_buffer;
          whole = v.whole;
        })
        c in
    let closed : Buffered = (sync (record f { going_close = true })).0 in
    let g : Buffered = record closed { file = Disk.close closed.file } in
    (g, rw (open', e), s.on_disk, refl, (make_lem size g.file s.calm).3 ∙ s.on_disk)

-- A buffered file is made over a file, and any history of writes, syncs and clears follows. Then
-- WholeSize is the length of the specified log, and reading a range of that log with ReadAt fills
-- the slice with those bytes. No call of the operating system fails, and the range ends before
-- offset 2 ^ 63.
pub read_at-run :
    (size : ℕ) (file : File) (cs : List Call) (o n : ℕ)
    → file.outcomes ≡ []
    → o + n ≤ length (spec_run file.content cs)
    → o + n < 2 ^ 63
    → ((run (make_buffered_file size file).0 cs).whole_size ≡ length (spec_run file.content cs))
      × (read_at (run (make_buffered_file size file).0 cs) n (pos o)
          ≡ read (take n (drop o (spec_run file.content cs))) n none)
read_at-run size file cs o n calm inside small =
    let (e, v, c, l) = make_lem size file calm in
    let (v', c', l') = run-log (make_buffered_file size file).0 cs v c in
    let same = l' ∙ ap (λ (b : Bytes). spec_run b cs) l in
    (
      omega (arith, v'.whole, length-log _ v', ap length same),
      read_at-log _ o n v' c' (omega (arith, ap length same)) small
          ∙ ap (λ (b : Bytes). read (take n (drop o b)) n none) same,
    )
