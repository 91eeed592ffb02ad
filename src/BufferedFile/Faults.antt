-- ===== src/BufferedFile/Faults.antt =====
-- What a failing write leaves behind.
use paintty_server_go.Prelude.{
  ℕ, ◌+◌, ◌-◌, ◌≤◌, ◌<◌, ◌≡◌, refl, ap, ◌∙◌, true, false, List, [], ◌∷◌, ◌++◌, Bytes, none, some,
  io_failure, arith, ltb, leb, length, take, length-append, length-take, take-take, append-nil,
}
use paintty_server_go.BufferedFile.Disk.{File, Outcome, works, breaks, later}
use paintty_server_go.BufferedFile.Disk
use paintty_server_go.BufferedFile.{Buffered, sync, write, write_timer}
use paintty_server_go.BufferedFile.Log.{log, IsValid, write_at_end}

open_file-content : (file : File) → (Disk.open_file file).0.content ≡ file.content
unfolding Disk.open_file
open_file-content file = ground arith

write-breaks :
    (f : File) (d : Bytes) (n : ℕ) (os : List Outcome)
    → f.is_open ≡ true
    → f.outcomes ≡ breaks n ∷ os
    → Disk.write f d ≡ (Disk.written f (take n d), length (take n d), some io_failure)
unfolding Disk.write
write-breaks f d n os o e = ground arith

-- The log after a flush that breaks off.
log-short :
    (f : Buffered) (n : ℕ) (file : File)
    → f.file.cursor ≡ length f.file.content
    → n < f.water_mark
    → file.content ≡ (Disk.written f.file (take n (take f.water_mark f.buffer))).content
    → file.content ++ [] ≡ f.file.content ++ take n f.buffer
log-short f n file e short c =
    append-nil file.content
    ∙ c
    ∙ write_at_end f.file.cursor (take n (take f.water_mark f.buffer)) f.file.content e
    ∙ ap (◌++◌ f.file.content) (take-take n f.water_mark f.buffer (omega arith))

sync_broken :
    (f : Buffered) (n : ℕ) (os : List Outcome)
    → IsValid f
    → f.file.outcomes ≡ breaks n ∷ os
    → n < f.water_mark
    → ((sync f).1 ≡ some io_failure)
      × ((sync f).0.water_mark ≡ 0)
      × (log (sync f).0 ≡ f.file.content ++ take n f.buffer)
      × ((sync f).0.whole_size ≡ f.whole_size)
unfolding sync Disk.open_file
sync_broken f n os v e short =
    let busy : ltb f.water_mark 1 ≡ false = ground arith in
    let left : File = Disk.close (Disk.written f.file (take n (take f.water_mark f.buffer))) in
    rw (busy, write-breaks f.file (take f.water_mark f.buffer) n os v.opened e)
      (
        refl,
        refl,
        log-short f n (Disk.open_file left).0 v.at_end short (open_file-content left),
        refl,
      )

-- If the write of Sync on a valid file breaks off after n of the buffered bytes, and these are not
-- all, Sync reports the error, but it has emptied the buffer: the log is what the file held and those
-- n bytes, WholeSize is what it was, and so it is above the length of the log.
pub sync_fault :
    (f : Buffered) (n : ℕ) (os : List Outcome)
    → IsValid f
    → f.file.outcomes ≡ breaks n ∷ os
    → n < f.water_mark
    → ((sync f).1 ≡ some io_failure)
      × ((sync f).0.water_mark ≡ 0)
      × (log (sync f).0 ≡ f.file.content ++ take n f.buffer)
      × ((sync f).0.whole_size ≡ f.whole_size)
      × (length (log (sync f).0) < (sync f).0.whole_size)
sync_fault f n os v e short =
    let (failed, empty, kept, whole) = sync_broken f n os v e short in
    (
      failed,
      empty,
      kept,
      whole,
      omega (
        arith,
        ap length kept,
        whole,
        v.whole,
        v.on_file,
        length-append f.file.content (take n f.buffer),
        length-take n f.buffer,
      ),
    )

-- The goroutine of the write timer turns such an error of Sync into a panic, if Close has not been
-- called: on a valid file whose next write breaks off before all buffered bytes are written.
pub write_timer_fault :
    (f : Buffered) (n : ℕ) (os : List Outcome)
    → IsValid f
    → f.going_close ≡ false
    → f.file.outcomes ≡ breaks n ∷ os
    → n < f.water_mark
    → write_timer f ≡ none
unfolding write_timer
write_timer_fault f n os v o e short = ground (arith, (sync_fault f n os v e short).0)

-- A Write to a valid file that has to make room first, and whose Sync breaks off after n of the
-- buffered bytes and these are not all, reports the error and takes none of its bytes, and the log is
-- what the file held and those n bytes.
pub write_fault :
    (f : Buffered) (d : Bytes) (n : ℕ) (os : List Outcome)
    → IsValid f
    → f.file.outcomes ≡ breaks n ∷ os
    → n < f.water_mark
    → length f.buffer ≤ f.water_mark + length d
    → ((write f d).2 ≡ some io_failure)
      × ((write f d).1 ≡ 0)
      × (log (write f d).0 ≡ f.file.content ++ take n f.buffer)
unfolding write
write_fault f d n os v e short full =
    let little : leb (length f.buffer - f.water_mark) (length d) ≡ true = ground arith in
    let lost = sync_fault f n os v e short in rw (little, lost.0) (refl, refl, lost.2)
