-- ===== src/BufferedFile/Runs.antt =====
-- Runs of the buffered file at concrete inputs, and its theorems at them.
use paintty_server_go.Prelude.{
  ◌<◌, ◌≡◌, refl, true, false, [], ◌∷◌, none, some, io_failure, cannot_read_so_much, arith, length,
}
use paintty_server_go.Prelude.Int.{pos, negsuc, ◌+ℤ◌, ◌-ℤ◌, int64}
use paintty_server_go.BufferedFile.Disk.{File, Outcome, breaks}
use paintty_server_go.BufferedFile.Disk
use paintty_server_go.BufferedFile.{
  Buffered, sync, copy_in, store, write, close, write_timer, make_buffered_file, read, panics,
  read_at,
}
use paintty_server_go.BufferedFile.Log.{log, IsValid, Appended, write-Appended}
use paintty_server_go.BufferedFile.Read.{read_at_negative, read_at_past}
use paintty_server_go.BufferedFile.History.{writes, syncs, run, read_at-run, make-close}
use paintty_server_go.BufferedFile.Faults.{sync_fault, write_timer_fault, write_fault}

abbrev old_file : File
old_file = record { content = 9 ∷ 8 ∷ []; cursor = 0; is_open = false; outcomes = [] }

-- Two bytes on file and two in a buffer of four.
abbrev half_full : Buffered
half_full = record {
  buffer = 1 ∷ 2 ∷ 0 ∷ 0 ∷ [];
  water_mark = 2;
  file_size = 2;
  whole_size = 4;
  file = record { content = 9 ∷ 8 ∷ []; cursor = 2; is_open = true; outcomes = [] };
  going_close = false;
}

abbrev failing : Buffered
failing = record half_full {
  file = record { content = 9 ∷ 8 ∷ []; cursor = 2; is_open = true; outcomes = breaks 1 ∷ [] };
}

abbrev empty_file : Buffered
empty_file = record {
  buffer = 0 ∷ 0 ∷ [];
  water_mark = 0;
  file_size = 0;
  whole_size = 0;
  file = record { content = []; cursor = 0; is_open = true; outcomes = [] };
  going_close = false;
}

half_full-IsValid : IsValid half_full
half_full-IsValid = record {
  opened = refl;
  at_end = refl;
  on_file = refl;
  in_buffer = omega arith;
  whole = refl;
}

failing-IsValid : IsValid failing
failing-IsValid = record {
  opened = refl;
  at_end = refl;
  on_file = refl;
  in_buffer = omega arith;
  whole = refl;
}

-- Three bytes do not fit into the two that are left: the buffer is written out first.
write_three : (write half_full (5 ∷ 6 ∷ 7 ∷ [])).0.file.content ≡ 9 ∷ 8 ∷ 1 ∷ 2 ∷ []
unfolding write store sync copy_in Disk.open_file Disk.write
write_three = refl

read_across : read_at half_full 3 (pos 1) ≡ read (8 ∷ 1 ∷ 2 ∷ []) 3 none
unfolding read_at Disk.read ◌+ℤ◌ ◌-ℤ◌ int64
read_across = refl

write-Appended_run :
    ((write half_full (5 ∷ 6 ∷ 7 ∷ [])).1 ≡ 3)
    × ((write half_full (5 ∷ 6 ∷ 7 ∷ [])).2 ≡ none)
    × Appended half_full (5 ∷ 6 ∷ 7 ∷ []) (write half_full (5 ∷ 6 ∷ 7 ∷ [])).0
write-Appended_run = write-Appended half_full (5 ∷ 6 ∷ 7 ∷ []) half_full-IsValid refl

read_at-run_example :
    ((run
        (make_buffered_file 4 old_file).0
        (writes (1 ∷ 2 ∷ []) ∷ syncs ∷ writes (3 ∷ []) ∷ [])).whole_size
      ≡ 5)
    × (read_at
          (run
            (make_buffered_file 4 old_file).0
            (writes (1 ∷ 2 ∷ []) ∷ syncs ∷ writes (3 ∷ []) ∷ []))
          3
          (pos 2)
        ≡ read (1 ∷ 2 ∷ 3 ∷ []) 3 none)
read_at-run_example =
    read_at-run 4 old_file (writes (1 ∷ 2 ∷ []) ∷ syncs ∷ writes (3 ∷ []) ∷ []) 2 3 refl
      (omega arith) (omega arith)

make-close_example :
    (g : Buffered) × (close half_full ≡ some (g, none))
    × (g.file.content ≡ 9 ∷ 8 ∷ 1 ∷ 2 ∷ [])
    × (g.file.is_open ≡ false)
    × (log (make_buffered_file 8 g.file).0 ≡ 9 ∷ 8 ∷ 1 ∷ 2 ∷ [])
make-close_example = make-close half_full 8 half_full-IsValid refl refl

read_at_negative_run : read_at empty_file 3 (negsuc 9) ≡ panics
read_at_negative_run = read_at_negative empty_file 3 9 refl (omega arith) (omega arith)

sync_fault_example :
    ((sync failing).1 ≡ some io_failure)
    × ((sync failing).0.water_mark ≡ 0)
    × (log (sync failing).0 ≡ 9 ∷ 8 ∷ 1 ∷ [])
    × ((sync failing).0.whole_size ≡ 4)
    × (length (log (sync failing).0) < (sync failing).0.whole_size)
sync_fault_example = sync_fault failing 1 [] failing-IsValid refl (omega arith)

write_timer_fault_run : write_timer failing ≡ none
write_timer_fault_run = write_timer_fault failing 1 [] failing-IsValid refl refl (omega arith)

write_fault_run :
    ((write failing (5 ∷ 6 ∷ [])).2 ≡ some io_failure)
    × ((write failing (5 ∷ 6 ∷ [])).1 ≡ 0)
    × (log (write failing (5 ∷ 6 ∷ [])).0 ≡ 9 ∷ 8 ∷ 1 ∷ [])
write_fault_run =
    write_fault failing (5 ∷ 6 ∷ []) 1 [] failing-IsValid refl (omega arith) (omega arith)

read_at_past_run : read_at half_full 2 (pos 3) ≡ read (0 ∷ 0 ∷ []) 0 (some cannot_read_so_much)
read_at_past_run = read_at_past half_full 3 2 half_full-IsValid refl (omega arith) (omega arith)
