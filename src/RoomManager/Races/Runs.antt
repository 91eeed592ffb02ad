-- ===== src/RoomManager/Races/Runs.antt =====
-- Two requests for a room named lobby at once.
use paintty_server_go.Prelude.{◌≡◌, refl, true, false, [], ◌∷◌, none, some, String}
use paintty_server_go.Prelude.Int.{pos, ◌*ℤ◌, int64}
use paintty_server_go.Prelude.Maps.{string_Eq, load}
use paintty_server_go.BufferedFile.{Buffered}
use paintty_server_go.Config.{read_conf_int}
use paintty_server_go.ErrorCode.{new_room_name_collission}
use paintty_server_go.Radio.{make_radio}
use paintty_server_go.Room.{Room, RoomOption}
use paintty_server_go.Room.Serving.{World, init, serve_room}
use paintty_server_go.RoomManager.{
  RoomManager, refused, db_key, db_delete, limit_room_option, handle_new_room, open_room,
  wait_room_closed,
}
use paintty_server_go.RoomManager.Races.{stored, reply, open_room-wait_room_closed}

abbrev lobby : String → RoomOption
lobby password = record {
  max_load = pos 8;
  width = pos 720;
  height = pos 480;
  password = password;
  welcome_msg = "hi";
  name = "lobby";
  empty_close = false;
}

abbrev no_archive : Buffered
no_archive = record {
  buffer = 0 ∷ [];
  water_mark = 0;
  file_size = 0;
  whole_size = 0;
  file = record { content = []; cursor = 0; is_open = true; outcomes = [] };
  going_close = false;
}

-- The first request finds port 4000 free, the second 4001.
abbrev here : World
here = record {
  signed_key = λ name password. password;
  archive_sign = λ name. "sign";
  open_archive = λ sign. no_archive;
  listen = λ port. some 4000;
  now = 0;
}

abbrev there : World
there = record here { listen = λ port. some 4001 }

abbrev ann : Room
ann = record {
  radio = make_radio no_archive "sign";
  clients = [];
  current_clients_count = pos 0;
  expiration = pos 0;
  key = "ann";
  archive_sign = "sign";
  port = 4000;
  options = lobby "ann";
  last_check = 0;
  going_close = false;
}

abbrev bob : Room
bob = record ann { key = "bob"; port = 4001; options = lobby "bob" }

abbrev empty : RoomManager
empty = record { rooms = []; current_room_count = pos 0 }

open_room-wait_room_closed_example :
    (m₁ m₂ : RoomManager) × (handle_new_room [] here (lobby "ann") empty
      ≡ some (m₁, stored ann, reply ann))
    × (handle_new_room [] there (lobby "bob") m₁ ≡ some (m₁, [], refused new_room_name_collission))
    × (open_room [] there (lobby "bob") m₁ ≡ some (m₂, stored bob, reply bob))
    × (load "lobby" m₂.rooms ≡ some bob)
    × (load "lobby" (wait_room_closed "lobby" m₂).0.rooms ≡ none)
    × ((wait_room_closed "lobby" m₂).1 ≡ db_delete (db_key "lobby") ∷ [])
unfolding limit_room_option read_conf_int load serve_room init int64 ◌*ℤ◌
open_room-wait_room_closed_example =
    open_room-wait_room_closed [] here there (lobby "ann") (lobby "bob") empty ann bob refl refl
      refl refl refl
