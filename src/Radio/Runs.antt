-- ===== src/Radio/Runs.antt =====
-- Chunks and task lists at concrete inputs, and their theorems at them.
use paintty_server_go.Prelude.{
  ℕ, ◌++◌, ◌+◌, ◌≤◌, ◌≡◌, refl, true, false, [], ◌∷◌, Bytes, Option, none, some, Error, io_failure,
  arith, length,
}
use paintty_server_go.Prelude.Int.{pos, ◌+ℤ◌, int64}
use paintty_server_go.BufferedFile.{Buffered}
use paintty_server_go.BufferedFile.Log.{log, IsValid}
use paintty_server_go.Radio.{RadioClient, Delivery, Radio, done, write, deliver, tick}
use paintty_server_go.Radio.Owed.{owed, IsFine, write-owed}
use paintty_server_go.Radio.Arrivals.{deliver-owed}
use paintty_server_go.Radio.Timer.{tick-owed}
use paintty_server_go.Radio.Deaf.{listens, tick-close}
use paintty_server_go.Socket.Client.{SocketClient, unused, register_close_callback, close}
use paintty_server_go.Radio.{take_chunk}
use paintty_server_go.Radio.Tasks.{pop_front, fetch_chunk, fetch_and_send}
use paintty_server_go.BufferedFile.{read_at}
use paintty_server_go.BufferedFile.Disk
use paintty_server_go.Prelude.Int.{◌-ℤ◌}
use paintty_server_go.Radio.Tasks.{
  max_chunks_in_queue, ram, file, TaskList, split_chunk, grow, parts, append, pop_back,
  append_after, append_to_pendings, serve,
}
use paintty_server_go.Radio.Split.{payloads, AllTasks, split_chunk-payloads}
use paintty_server_go.Radio.Pending.{piece, Appends, append_to_pendings-Appends}
use paintty_server_go.Radio.Serve.{Sends, fetch_and_send-payloads, serve-payloads}

-- Two bytes on file and two in a buffer of four.
abbrev archive : Buffered
archive = record {
  buffer = 3 ∷ 4 ∷ 0 ∷ 0 ∷ [];
  water_mark = 2;
  file_size = 2;
  whole_size = 4;
  file = record { content = 1 ∷ 2 ∷ []; cursor = 2; is_open = true; outcomes = [] };
  going_close = false;
}

archive-IsValid : IsValid archive
archive-IsValid = record {
  opened = refl;
  at_end = refl;
  on_file = refl;
  in_buffer = omega arith;
  whole = refl;
}

-- A megabyte has three parts; the third is what is left over.
split_megabyte :
    split_chunk (record { start = pos 5; length = pos 1000000 })
    ≡ file (record { start = pos 5; length = pos 409600 })
      ∷ file (record { start = pos 409605; length = pos 409600 })
      ∷ file (record { start = pos 819205; length = pos 180800 })
      ∷ []
unfolding split_chunk grow parts ◌+ℤ◌ int64
split_megabyte = refl

abbrev near_task : TaskList
near_task = file (piece 0 1) ∷ []

-- A chunk right behind the last one is merged with it.
merge_near : append_to_pendings (file (piece 1 2)) near_task ≡ some (file (piece 0 3) ∷ [])
unfolding append_to_pendings append_after pop_back append split_chunk grow parts ◌+ℤ◌ int64
merge_near = refl

split_chunk-payloads_run :
    (payloads (1 ∷ 2 ∷ 3 ∷ []) (split_chunk (record { start = pos 1; length = pos 2 }))
      ≡ 2 ∷ 3 ∷ [])
    × AllTasks (split_chunk (record { start = pos 1; length = pos 2 }))
    × (length (split_chunk (record { start = pos 1; length = pos 2 })) ≤ max_chunks_in_queue + 1)
split_chunk-payloads_run = split_chunk-payloads (1 ∷ 2 ∷ 3 ∷ []) 1 2 (omega arith)

append_to_pendings-Appends_run :
    (list' : TaskList) × (append_to_pendings (file (piece 1 2)) near_task ≡ some list')
    × Appends (1 ∷ 2 ∷ 3 ∷ []) (file (piece 1 2)) near_task list'
append_to_pendings-Appends_run =
    append_to_pendings-Appends (1 ∷ 2 ∷ 3 ∷ []) (file (piece 1 2)) near_task
      (omega arith, omega arith) ((omega arith, omega arith), tt)

abbrev broken_pipe : Bytes → Option Error
broken_pipe d = some io_failure

abbrev two_tasks : TaskList
two_tasks = file (piece 1 2) ∷ ram (9 ∷ []) ∷ []

fetch_and_send-payloads_run : Sends broken_pipe archive archive-IsValid refl two_tasks
fetch_and_send-payloads_run =
    fetch_and_send-payloads broken_pipe archive archive-IsValid refl two_tasks
      ((omega arith, omega arith), (tt, tt))

serve-payloads_example :
    serve 2 (λ d. none) two_tasks archive
    ≡ some (record { list = []; sent = 2 ∷ 3 ∷ 9 ∷ []; error = none })
serve-payloads_example =
    serve-payloads archive archive-IsValid refl two_tasks ((omega arith, omega arith), tt)

-- A radio with one client, 7, which has one pending task, and one chunk on its way to it.
abbrev painter : RadioClient
painter = record { client = 7; list = file (piece 0 2) ∷ []; running = true }

abbrev note : Delivery
note = record { to = 0; chunk = ram (8 ∷ []) }

abbrev on_air : Radio
on_air = record {
  heap = painter ∷ [];
  clients = (7, 0) ∷ [];
  file = archive;
  signature = "sign";
  in_flight = note ∷ [];
  closed = false;
  locked = false;
}

on_air-IsFine : IsFine on_air 0
on_air-IsFine = record {
  free = refl;
  valid = archive-IsValid;
  calm = refl;
  small = omega arith;
  tasks = ((omega arith, omega arith), (tt, tt));
  inside = ((omega arith, omega arith), tt);
}

write-owed_run :
    (r' : Radio) × (write on_air (5 ∷ 6 ∷ []) ≡ done r')
    × (log r'.file ≡ 1 ∷ 2 ∷ 3 ∷ 4 ∷ 5 ∷ 6 ∷ [])
    × (owed r' 0 ≡ 1 ∷ 2 ∷ 8 ∷ 5 ∷ 6 ∷ [])
    × IsFine r' 0
write-owed_run = write-owed on_air 0 (5 ∷ 6 ∷ []) on_air-IsFine (omega arith) (omega arith)

deliver-owed_run :
    (r' : Radio) × (deliver on_air 0 ≡ done r')
    × (r'.file ≡ archive)
    × (owed r' 0 ≡ 1 ∷ 2 ∷ 8 ∷ [])
    × IsFine r' 0
deliver-owed_run = deliver-owed on_air 0 0 note painter on_air-IsFine refl refl refl refl refl

tick-owed_run :
    (r' : Radio) × (sent : Bytes) × (tick broken_pipe on_air 0 ≡ done (r', sent))
    × (sent ≡ 1 ∷ 2 ∷ [])
    × (sent ++ owed r' 0 ≡ 1 ∷ 2 ∷ 8 ∷ [])
    × IsFine r' 0
tick-owed_run = tick-owed broken_pipe on_air 0 painter on_air-IsFine refl refl

abbrev quiet : Bytes → Option Error
quiet d = none

-- The client's pending task is sent, and then the note arrives.
abbrev idle_painter : RadioClient
idle_painter = record { client = 7; list = []; running = true }

abbrev sent_radio : Radio
sent_radio = record on_air { heap = idle_painter ∷ [] }

abbrev note_radio : Radio
note_radio = record on_air {
  heap = record { client = 7; list = ram (8 ∷ []) ∷ []; running = true } ∷ [];
  in_flight = [];
}

first_round : tick quiet on_air 0 ≡ done (sent_radio, 1 ∷ 2 ∷ [])
unfolding tick fetch_and_send pop_front fetch_chunk read_at Disk.read ◌+ℤ◌ ◌-ℤ◌ int64
first_round = refl

note_arrives : deliver sent_radio 0 ≡ done note_radio
unfolding deliver take_chunk append_to_pendings append
note_arrives = refl

abbrev connection : SocketClient
connection = record {
  con_open = true;
  channel_open = true;
  callbacks = 0 ∷ [];
  close_flag = unused;
}

tick-close_example :
    (r' : Radio) × (sent : Bytes) × (tick broken_pipe on_air 0 ≡ done (r', sent))
    × ((close (listens r') connection).returns ≡ false)
    × ((b : ℕ) → (register_close_callback b (close (listens r') connection).client).returns ≡ false)
tick-close_example =
    tick-close broken_pipe on_air 0 painter (file (piece 0 2)) [] io_failure connection []
      on_air-IsFine refl refl refl refl refl refl

-- Two notes are on their way, and the second one arrives first.
abbrev hurried : Radio
hurried = record on_air { in_flight = note ∷ record { to = 0; chunk = ram (9 ∷ []) } ∷ [] }

abbrev overtaken : Radio
overtaken = record hurried {
  heap = record painter { list = file (piece 0 2) ∷ ram (9 ∷ []) ∷ [] } ∷ [];
  in_flight = note ∷ [];
}

note_overtaken :
    (deliver hurried 1 ≡ done overtaken)
    × (owed hurried 0 ≡ 1 ∷ 2 ∷ 8 ∷ 9 ∷ [])
    × (owed overtaken 0 ≡ 1 ∷ 2 ∷ 9 ∷ 8 ∷ [])
unfolding deliver take_chunk append_to_pendings append_after pop_back append
note_overtaken = (refl, refl, refl)
