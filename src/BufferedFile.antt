-- ===== src/BufferedFile.antt =====
-- pkg/BufferedFile/BufferedFile.go: a file behind a write buffer.
-- The mutex makes each call one step, so a call is a function of the state. The counters are int64
-- in the source and numbers here: they count bytes that were written, far fewer than 2 ^ 63.
pub mod Disk
pub mod Log
pub mod Read
pub mod History
pub mod Faults
mod Runs
use paintty_server_go.Prelude.{
  ℕ, zero, suc, ◌+◌, ◌-◌, ◌≤◌, Bool, true, false, List, [], ◌∷◌, ◌++◌, Bytes, Option, none, some,
  Error, io_failure, cannot_read_so_much, ltb, leb, ◌==◌, if◌then◌else◌, length, take, drop, set,
  replicate, ◌||◌, ◌&&◌, not, Result, ok, err,
}
use paintty_server_go.Prelude.Int.{
  ℤ, pos, negsuc, ◌+ℤ◌, ◌-ℤ◌, ltb_ℤ, leb_ℤ, int64, pos_part, neg_part,
}
use Disk.{File}
use Disk

pub record Buffered : Type 0 where
  pub buffer : Bytes
  pub water_mark : ℕ
  pub file_size : ℕ
  pub whole_size : ℕ
  pub file : File
  pub going_close : Bool

-- openForRead, and whether it succeeds.
abbrev pub open_for_read : Buffered → Buffered × Bool
open_for_read f = let (file, good) = Disk.open_file f.file in (record f { file = file }, good)

-- The deferred calls of Sync and innerSync. The error of openForRead is dropped.
abbrev pub reopen : Buffered → Buffered
reopen f = (open_for_read (record f { file = Disk.close f.file })).0

abbrev pub flush : Buffered → Buffered × Option Error
flush f =
    let (file, n, e) = Disk.write f.file (take f.water_mark f.buffer) in
    (record f { file = file; file_size = f.file_size + f.water_mark; water_mark = 0 }, e)

-- innerSync, and Sync, which is the same under the lock.
unfoldable pub sync : Buffered → Buffered × Option Error
sync f = if ltb f.water_mark 1 then (reopen f, none) else (let (f', e) = flush f in (reopen f', e))

-- The copying loop of Write, `i` from the water mark on.
unfoldable pub copy_in : ℕ → Bytes → Bytes → Bytes
copy_in i [] b = b
copy_in i (d ∷ ds) b = if ltb i (length b) then copy_in (i + 1) ds (set b i d) else b

-- The second half of Write, with room made if there was too little.
unfoldable pub store : Buffered → Bytes → Buffered × ℕ × Option Error
store f d =
    let n : ℕ = length d in
    if ltb (length f.buffer) n
    then (let (file, l, e) = Disk.write f.file d in
        (
          record f { file = file; whole_size = f.whole_size + n; file_size = f.file_size + n },
          l,
          e,
        ))
    else (
      record f {
        buffer = copy_in f.water_mark d f.buffer;
        water_mark = f.water_mark + n;
        whole_size = f.whole_size + n;
      },
      n,
      none,
    )

-- Write: the state afterwards, the count and the error.
unfoldable pub write : Buffered → Bytes → Buffered × ℕ × Option Error
write f d =
    if leb (length f.buffer - f.water_mark) (length d)
    then (let (f', e) = sync f in elim e [ none ↦ store f' d | some x ↦ (f', 0, some x) ])
    else store f d

-- ReadAt: what the caller's slice holds afterwards, the count and the error; or a run-time panic.
pub data Reading : Type 0 where
  read : Bytes → ℕ → Option Error → Reading
  panics : Reading

-- The bytes that File.ReadAt left in a zeroed slice of n bytes.
abbrev pub filled : ℕ → Bytes → Bytes
filled n b = b ++ replicate (n - length b) 0

-- "all in buffer": `f.buffer[start:start+length]`, with `start` above zero.
abbrev pub read_buffer : Buffered → ℕ → ℕ → Reading
read_buffer f start n =
    if ltb (length f.buffer) (start + n) then panics else read (take n (drop start f.buffer)) n none

-- "half in buffer, and the other half in file": `n` bytes are asked for, `head` of them from the
-- file, `rest` from the buffer. The loops index past a slice if there are too many of either.
abbrev pub read_both : Buffered → ℕ → ℤ → ℕ → ℕ → Reading
read_both f n off head rest =
    let (got, e) = Disk.read f.file head off in
    if ltb (length f.buffer) rest || ltb n (head + rest)
    then panics
    else read (filled n (filled head got ++ take rest f.buffer)) n e

unfoldable pub read_at : Buffered → ℕ → ℤ → Reading
read_at f n off =
    let end : ℤ = int64 (off +ℤ pos n) in
    let (got, e) = Disk.read f.file n off in
    if ltb_ℤ (pos (f.file_size + f.water_mark)) end
    then read (replicate n 0) 0 (some cannot_read_so_much)
    else if leb_ℤ end (pos f.file_size) && not (f.file_size == 0)
    then read (filled n got) (length got) e
    else if ltb_ℤ (pos f.file_size) off
    then read_buffer f (pos_part (off -ℤ pos f.file_size)) n
    else if ltb_ℤ end (pos f.file_size)
    then panics
    else read_both f n off (pos_part (pos f.file_size -ℤ off)) (pos_part (end -ℤ pos f.file_size))

-- Clear: the buffer's bytes stay, the counters say that there are none.
unfoldable pub clear : Buffered → Buffered × Option Error
clear f =
    let (file, e) = Disk.truncate (Disk.rewind f.file) in
    (record f { whole_size = 0; water_mark = 0; file_size = 0; file = file }, e)

-- Close. `none` is the panic of closing a closed channel.
unfoldable pub close : Buffered → Option (Buffered × Option Error)
close f =
    if f.going_close
    then none
    else (let (f', e) = sync (record f { going_close = true }) in
        some (elim e [
          | none ↦ (record f' { file = Disk.close f'.file }, none)
          | some x ↦ (f', some x)
        ]))

unfoldable pub remove : Buffered → Buffered
remove f = record f { file = Disk.remove f.file }

-- A round of the goroutine of startWriteTimer when the write cycle is over: Sync, with a panic on
-- its error (`none`). Once `goingClose` is closed the goroutine is gone.
unfoldable pub write_timer : Buffered → Option Buffered
write_timer f =
    if f.going_close
    then some f
    else (let (f', e) = sync f in elim e [ none ↦ some f' | some x ↦ none ])

abbrev pub fetch_file_size : Buffered → Buffered × Option Error
fetch_file_size f =
    let (file, size) = Disk.stat f.file in
    elim size [
      | ok n ↦ (record f { file = file; file_size = n }, none)
      | err e ↦ (record f { file = file }, some e)
    ]

-- MakeBufferedFile, on the file of that name as it stands, with no handle open.
unfoldable pub make_buffered_file : ℕ → File → Buffered × Option Error
make_buffered_file buffer_size file =
    let start : Buffered = record {
      buffer = replicate buffer_size 0;
      water_mark = 0;
      file_size = 0;
      whole_size = 0;
      file = file;
      going_close = false;
    } in
    let (opened, good) = open_for_read start in
    let (sized, e) = fetch_file_size opened in
    if good
    then elim e [
      | none ↦ (record sized { whole_size = sized.file_size }, none)
      | some x ↦ (sized, some x)
    ]
    else (opened, some io_failure)
