-- ===== src/Radio/Agreement/Runs.antt =====
-- Two clients of a radio, which take what is written in another order.
use paintty_server_go.Prelude.{
  ◌≡◌, refl, true, false, List, [], ◌∷◌, ◌++◌, Bytes, Option, none, Error, ℕ, arith,
}
use paintty_server_go.Prelude.Int.{◌+ℤ◌, ◌-ℤ◌, int64}
use paintty_server_go.BufferedFile.{Buffered, read_at, store, copy_in}
use paintty_server_go.BufferedFile
use paintty_server_go.BufferedFile.Disk
use paintty_server_go.BufferedFile.Log.{IsValid}
use paintty_server_go.Radio.{RadioClient, Delivery, Radio, done, write, deliver, tick, take_chunk}
use paintty_server_go.Radio.Tasks.{
  TaskList, file, pop_front, fetch_chunk, fetch_and_send, append_to_pendings, append, append_after,
  pop_back, split_chunk, parts, grow,
}
use paintty_server_go.Radio.Pending.{piece}
use paintty_server_go.Radio.Owed.{IsFine}
use paintty_server_go.Radio.Pieces.{settled, underway}
use mathlib.Core.List.{flatten, Permᴰ}
use paintty_server_go.Radio.Agreement.{
  History, ends, written, arrived, fired, sent_to, broadcasts, History-pieces,
}

abbrev archive : Buffered
archive = record {
  buffer = 3 ∷ 4 ∷ 0 ∷ 0 ∷ 0 ∷ [];
  water_mark = 2;
  file_size = 2;
  whole_size = 4;
  file = record { content = 1 ∷ 2 ∷ []; cursor = 2; is_open = true; outcomes = [] };
  going_close = false;
}

archive-IsValid : IsValid archive
archive-IsValid = record {
  opened = refl;
  at_end = refl;
  on_file = refl;
  in_buffer = omega arith;
  whole = refl;
}

abbrev viewer : ℕ → TaskList → RadioClient
viewer c list = record { client = c; list = list; running = true }

abbrev on_air : Buffered → TaskList → TaskList → List Delivery → Radio
on_air f first second in_flight = record {
  heap = viewer 7 first ∷ viewer 8 second ∷ [];
  clients = (7, 0) ∷ (8, 1) ∷ [];
  file = f;
  signature = "sign";
  in_flight = in_flight;
  closed = false;
  locked = false;
}

abbrev before : Radio
before = on_air archive [] [] []

abbrev grown : Buffered
grown = record archive { buffer = 3 ∷ 4 ∷ 5 ∷ 0 ∷ 0 ∷ []; water_mark = 3; whole_size = 5 }

abbrev grown_again : Buffered
grown_again = record archive { buffer = 3 ∷ 4 ∷ 5 ∷ 6 ∷ 0 ∷ []; water_mark = 4; whole_size = 6 }

abbrev on_way : ℕ → ℕ → Delivery
on_way a start = record { to = a; chunk = file (piece start 1) }

abbrev quiet : Bytes → Option Error
quiet d = none

abbrev after_one : Radio
after_one = on_air grown [] [] (on_way 0 4 ∷ on_way 1 4 ∷ [])

abbrev after_two : Radio
after_two = on_air grown_again [] [] (on_way 0 4 ∷ on_way 1 4 ∷ on_way 0 5 ∷ on_way 1 5 ∷ [])

abbrev second_first : Radio
second_first =
    on_air grown_again (file (piece 5 1) ∷ []) [] (on_way 0 4 ∷ on_way 1 4 ∷ on_way 1 5 ∷ [])

abbrev first_last : Radio
first_last =
    on_air grown_again (file (piece 5 1) ∷ file (piece 4 1) ∷ []) [] (on_way 1 4 ∷ on_way 1 5 ∷ [])

abbrev overtaken : Radio
overtaken = on_air grown_again (file (piece 4 1) ∷ []) [] (on_way 1 4 ∷ on_way 1 5 ∷ [])

write_one : write before (5 ∷ []) ≡ done after_one
unfolding write BufferedFile.write store copy_in
write_one = refl

write_two : write after_one (6 ∷ []) ≡ done after_two
unfolding write BufferedFile.write store copy_in
write_two = refl

arrive_second : deliver after_two 2 ≡ done second_first
unfolding deliver take_chunk append_to_pendings append split_chunk parts grow
arrive_second = refl

arrive_first : deliver second_first 0 ≡ done first_last
unfolding deliver take_chunk append_to_pendings append append_after split_chunk parts grow pop_back
    int64 ◌+ℤ◌
arrive_first = refl

fire_first : tick quiet first_last 0 ≡ done (overtaken, 6 ∷ [])
unfolding tick fetch_and_send pop_front fetch_chunk read_at Disk.read ◌+ℤ◌ ◌-ℤ◌ int64
fire_first = refl

-- The second byte overtakes the first on the way to the first client; both are still on their way to
-- the second client.
abbrev both : History before ((0, 6 ∷ []) ∷ []) overtaken
both = written (5 ∷ []) (omega arith) (omega arith) write_one (
    written (6 ∷ []) (omega arith) (omega arith) write_two (
      arrived 2 (on_way 0 5) (viewer 7 []) refl refl refl arrive_second (
        arrived 0 (on_way 0 4) (viewer 7 (file (piece 5 1) ∷ [])) refl refl refl arrive_first (
          fired quiet 0 (viewer 7 (file (piece 5 1) ∷ file (piece 4 1) ∷ [])) refl refl fire_first
            ends))))

first-IsFine : IsFine before 0
first-IsFine = record {
  free = refl;
  valid = archive-IsValid;
  calm = refl;
  small = omega arith;
  tasks = tt;
  inside = tt;
}

second-IsFine : IsFine before 1
second-IsFine = record {
  free = refl;
  valid = archive-IsValid;
  calm = refl;
  small = omega arith;
  tasks = tt;
  inside = tt;
}

History-pieces_example :
    (xs : List Bytes) × (ys : List Bytes) × (sent_to 0 ((0, 6 ∷ []) ∷ []) ++ settled overtaken 0
      ≡ settled before 0 ++ flatten xs)
    × (sent_to 1 ((0, 6 ∷ []) ∷ []) ++ settled overtaken 1 ≡ settled before 1 ++ flatten ys)
    × Permᴰ (xs ++ underway overtaken 0) (underway before 0 ++ broadcasts both)
    × Permᴰ (xs ++ underway overtaken 0) (ys ++ underway overtaken 1)
History-pieces_example =
    History-pieces 0 1 both first-IsFine second-IsFine Permᴰ.nil (refl, (refl, tt))
      (refl, (refl, tt))
