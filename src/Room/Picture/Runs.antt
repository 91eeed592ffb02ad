-- ===== src/Room/Picture/Runs.antt =====
-- A newcomer to a room in which one stroke was drawn, and another is drawn later.
use paintty_server_go.Prelude.{
  ◌≡◌, refl, true, false, List, [], ◌∷◌, ◌++◌, Bytes, none, some, arith,
}
use paintty_server_go.Prelude.Int.{pos, ◌+ℤ◌, ◌-ℤ◌, int64}
use paintty_server_go.Prelude.Maps
use paintty_server_go.Common.{Zlib}
use paintty_server_go.BufferedFile.{Buffered, read_at}
use paintty_server_go.BufferedFile.Disk
use paintty_server_go.Radio.{Radio, RadioClient, done, make_radio, tick, first_tasks, first_length}
use paintty_server_go.Radio.Tasks.{
  pop_front, fetch_chunk, fetch_and_send, split_chunk, grow, parts, append,
}
use paintty_server_go.Radio.Overtaking.{Muddle, over, writes, arrives, fires}
use paintty_server_go.Radio.{write, deliver, take_chunk}
use paintty_server_go.Radio.Tasks.{RadioChunk, file, append_to_pendings}
use paintty_server_go.Radio.Pending.{piece}
use paintty_server_go.BufferedFile.{store, copy_in}
use paintty_server_go.BufferedFile
use paintty_server_go.Room.{Room}
use paintty_server_go.Room.Archive.{new_client, archived}

abbrev stored : Zlib
stored = record { deflate = λ d. d; inflate = λ d. some d; inflate-deflate = λ d. refl }

-- Four bytes of the frame are on file, and the others in the buffer.
abbrev archive : Buffered
archive = record {
  buffer = 5 ∷ 0 ∷ 0 ∷ 0 ∷ 1 ∷ 7 ∷ 0 ∷ 0 ∷ 0 ∷ 0 ∷ 0 ∷ 0 ∷ 0 ∷ 0 ∷ 0 ∷ 0 ∷ 0 ∷ [];
  water_mark = 6;
  file_size = 4;
  whole_size = 10;
  file = record { content = 0 ∷ 0 ∷ 0 ∷ 6 ∷ []; cursor = 4; is_open = true; outcomes = [] };
  going_close = false;
}

abbrev studio : Room
studio = record {
  radio = make_radio archive "sign";
  clients = (1, record { client_id = "a"; nick_name = "ann" }) ∷ [];
  current_clients_count = pos 1;
  expiration = pos 48;
  key = "key";
  archive_sign = "sign";
  port = 4000;
  options = record {
    max_load = pos 8;
    width = pos 720;
    height = pos 480;
    password = "";
    welcome_msg = "";
    name = "studio";
    empty_close = false;
  };
  last_check = 0;
  going_close = false;
}

abbrev newcomer : RadioClient
newcomer = new_client studio.radio 1 (pos 0) (pos 10)

abbrev served : Radio
served = record (archived studio 1 0).radio { heap = record newcomer { list = [] } ∷ [] }

abbrev frame_bytes : Bytes
frame_bytes = 0 ∷ 0 ∷ 0 ∷ 6 ∷ 5 ∷ 0 ∷ 0 ∷ 0 ∷ 1 ∷ 7 ∷ []

first_round : tick (λ d. none) (archived studio 1 0).radio 0 ≡ done (served, frame_bytes)
unfolding tick fetch_and_send pop_front fetch_chunk read_at Disk.read ◌+ℤ◌ ◌-ℤ◌ int64 make_radio
    split_chunk grow parts first_tasks first_length append
first_round = refl

abbrev later_bytes : Bytes
later_bytes = 0 ∷ 0 ∷ 0 ∷ 6 ∷ 5 ∷ 0 ∷ 0 ∷ 0 ∷ 1 ∷ 8 ∷ []

abbrev grown : Buffered
grown = record archive {
  buffer = 5 ∷ 0 ∷ 0 ∷ 0 ∷ 1 ∷ 7 ∷ (later_bytes ++ 0 ∷ []);
  water_mark = 16;
  whole_size = 20;
}

abbrev second : RadioChunk
second = file (piece 10 10)

abbrev written : Radio
written = record served { file = grown; in_flight = record { to = 0; chunk = second } ∷ [] }

abbrev delivered : Radio
delivered = record served { heap = record newcomer { list = second ∷ [] } ∷ []; file = grown }

abbrev all_sent : Radio
all_sent = record served { file = grown }

write_second : write served later_bytes ≡ done written
unfolding write BufferedFile.write store copy_in make_radio Maps.store
write_second = refl

deliver_second : deliver written 0 ≡ done delivered
unfolding deliver take_chunk append_to_pendings append split_chunk parts grow make_radio
deliver_second = refl

second_round : tick (λ d. none) delivered 0 ≡ done (all_sent, later_bytes)
unfolding tick fetch_and_send pop_front fetch_chunk read_at Disk.read ◌+ℤ◌ ◌-ℤ◌ int64 make_radio
second_round = refl

abbrev schedule :
    Muddle 0 (archived studio 1 0).radio (frame_bytes ++ later_bytes) later_bytes all_sent
unfolding make_radio Maps.store
schedule =
    fires (λ d. none) newcomer refl refl first_round
      (writes later_bytes (omega arith) (omega arith) write_second (
        arrives 0 (record { to = 0; chunk = second }) (record newcomer { list = [] }) refl refl refl
          refl deliver_second
          (fires (λ d. none) (record newcomer { list = second ∷ [] }) refl refl second_round over)))

abbrev cut : List Bytes
cut = (0 ∷ 0 ∷ 0 ∷ 6 ∷ 5 ∷ 0 ∷ []) ∷ (0 ∷ 0 ∷ 1 ∷ 7 ∷ []) ∷ later_bytes ∷ []
