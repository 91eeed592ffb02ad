-- ===== src/Room/Order/Runs.antt =====
-- Two strokes in a room with one other client and one stroke in its archive, handled the wrong way
-- round; their chunks overtake each other on the way to the other client.
use mathlib.Core.List.{Permᴰ}
use paintty_server_go.Prelude.{
  ℕ, ◌++◌, Bytes, ◌≡◌, refl, true, false, List, [], ◌∷◌, none, some, arith,
}
use paintty_server_go.Prelude.Int.{pos}
use paintty_server_go.Common.{Zlib}
use paintty_server_go.BufferedFile.{Buffered}
use paintty_server_go.Radio.{Radio, done}
use paintty_server_go.Radio.Loop
use paintty_server_go.Room.{Room}
use paintty_server_go.Room.Handlers.{Surroundings}
use paintty_server_go.Room.Serving.{Json}
use paintty_server_go.Radio.{RadioClient, Delivery, write, deliver, tick, take_chunk}
use paintty_server_go.Radio.Tasks.{
  RadioChunk, TaskList, file, append_to_pendings, append, append_after, split_chunk, parts, grow,
  pop_back, pop_front, fetch_chunk, fetch_and_send,
}
use paintty_server_go.Radio.Pending.{piece}
use paintty_server_go.Radio.Overtaking.{Muddle, over, writes, arrives, fires}
use paintty_server_go.BufferedFile
use paintty_server_go.BufferedFile.Disk
use paintty_server_go.BufferedFile.{store, copy_in, read_at}
use paintty_server_go.Prelude.Int.{◌+ℤ◌, ◌-ℤ◌, int64}

abbrev stored : Zlib
stored = record { deflate = λ d. d; inflate = λ d. some d; inflate-deflate = λ d. refl }

abbrev nothing : Bytes
nothing = 0 ∷ 0 ∷ 0 ∷ 0 ∷ 0 ∷ 0 ∷ 0 ∷ 0 ∷ 0 ∷ 0 ∷ []

abbrev archive : Buffered
archive = record {
  buffer = 0 ∷ 0 ∷ 0 ∷ 6 ∷ 5 ∷ 0 ∷ 0 ∷ 0 ∷ 1 ∷ 9 ∷ (nothing ++ nothing ++ 0 ∷ []);
  water_mark = 10;
  file_size = 0;
  whole_size = 10;
  file = record { content = []; cursor = 0; is_open = true; outcomes = [] };
  going_close = false;
}

-- Client 1 draws, and client 2 listens at address 0 of the radio.
abbrev on_air : Radio
on_air = record {
  heap = record { client = 2; list = []; running = true } ∷ [];
  clients = (2, 0) ∷ [];
  file = archive;
  signature = "sign";
  in_flight = [];
  closed = false;
  locked = false;
}

abbrev studio : Room
studio = record {
  radio = on_air;
  clients = (1, record { client_id = "a"; nick_name = "ann" }) ∷ [];
  current_clients_count = pos 1;
  expiration = pos 48;
  key = "key";
  archive_sign = "sign";
  port = 4000;
  options = record {
    max_load = pos 8;
    width = pos 720;
    height = pos 480;
    password = "";
    welcome_msg = "";
    name = "studio";
    empty_close = false;
  };
  last_check = 0;
  going_close = false;
}

abbrev around : Surroundings
around = record { client_id = "b"; sign = "next"; now = 7 }

abbrev json : Json
json = record {
  unmarshal = λ d. none;
  join_request = λ d. record { password = ""; name = "" };
  timestamp = λ d. pos 0;
  archive_request = λ d. record { start = pos 0; data_length = pos 0 };
  clear_all_key = λ d. "";
  kick_request = λ d. record { key = ""; client_id = "" };
  close_key = λ d. "";
  checkout_key = λ d. "";
}

abbrev frame_with : ℕ → Bytes
frame_with x = 0 ∷ 0 ∷ 0 ∷ 6 ∷ 5 ∷ 0 ∷ 0 ∷ 0 ∷ 1 ∷ x ∷ []

abbrev grown : Buffered
grown = record archive {
  buffer = frame_with 9 ++ frame_with 8 ++ nothing ++ 0 ∷ [];
  water_mark = 20;
  whole_size = 20;
}

abbrev grown_again : Buffered
grown_again = record archive {
  buffer = frame_with 9 ++ frame_with 8 ++ frame_with 7 ++ 0 ∷ [];
  water_mark = 30;
  whole_size = 30;
}

abbrev chunk_at : ℕ → RadioChunk
chunk_at start = file (piece start 10)

abbrev on_way : ℕ → Delivery
on_way start = record { to = 0; chunk = chunk_at start }

abbrev viewer : TaskList → RadioClient
viewer list = record { client = 2; list = list; running = true }

abbrev later : Buffered → TaskList → List Delivery → Radio
later f list in_flight = record on_air { heap = viewer list ∷ []; file = f; in_flight = in_flight }

abbrev both : TaskList
both = chunk_at 20 ∷ chunk_at 10 ∷ []

write_eight : write on_air (frame_with 8) ≡ done (later grown [] (on_way 10 ∷ []))
unfolding write BufferedFile.write store copy_in
write_eight = refl

write_seven :
    write (later grown [] (on_way 10 ∷ [])) (frame_with 7)
    ≡ done (later grown_again [] (on_way 10 ∷ on_way 20 ∷ []))
unfolding write BufferedFile.write store copy_in
write_seven = refl

deliver_seven :
    deliver (later grown_again [] (on_way 10 ∷ on_way 20 ∷ [])) 1
    ≡ done (later grown_again (chunk_at 20 ∷ []) (on_way 10 ∷ []))
unfolding deliver take_chunk append_to_pendings append split_chunk parts grow
deliver_seven = refl

deliver_eight :
    deliver (later grown_again (chunk_at 20 ∷ []) (on_way 10 ∷ [])) 0
    ≡ done (later grown_again both [])
unfolding deliver take_chunk append_to_pendings append append_after split_chunk parts grow pop_back
    int64 ◌+ℤ◌
deliver_eight = refl

fire_seven :
    tick (λ d. none) (later grown_again both []) 0
    ≡ done (later grown_again (chunk_at 10 ∷ []) [], frame_with 7)
unfolding tick fetch_and_send pop_front fetch_chunk read_at Disk.read ◌+ℤ◌ ◌-ℤ◌ int64
fire_seven = refl

fire_eight :
    tick (λ d. none) (later grown_again (chunk_at 10 ∷ []) []) 0
    ≡ done (later grown_again [] [], frame_with 8)
unfolding tick fetch_and_send pop_front fetch_chunk read_at Disk.read ◌+ℤ◌ ◌-ℤ◌ int64
fire_eight = refl

abbrev schedule :
    Muddle 0 on_air
      (frame_with 7 ++ frame_with 8)
      (frame_with 8 ++ frame_with 7)
      (later grown_again [] [])
schedule = writes (frame_with 8) (omega arith) (omega arith) write_eight (
    writes (frame_with 7) (omega arith) (omega arith) write_seven (
      arrives 1 (on_way 20) (viewer []) refl refl refl refl deliver_seven (
        arrives 0 (on_way 10) (viewer (chunk_at 20 ∷ [])) refl refl refl refl deliver_eight (
          fires (λ d. none) (viewer both) refl refl fire_seven
            (fires (λ d. none) (viewer (chunk_at 10 ∷ [])) refl refl fire_eight over)))))

abbrev cut : List Bytes
cut = (0 ∷ 0 ∷ 0 ∷ []) ∷ (6 ∷ 5 ∷ 0 ∷ 0 ∷ 0 ∷ 1 ∷ 7 ∷ []) ∷ frame_with 8 ∷ []

abbrev seven_eight : List Bytes
seven_eight = (7 ∷ []) ∷ (8 ∷ []) ∷ []

abbrev eight_seven : List Bytes
eight_seven = (8 ∷ []) ∷ (7 ∷ []) ∷ []
