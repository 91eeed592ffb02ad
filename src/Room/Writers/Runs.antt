-- ===== src/Room/Writers/Runs.antt =====
-- One stroke in a room with one other client, who may draw.
use paintty_server_go.Prelude.{◌≡◌, refl, true, false, [], ◌∷◌, none}
use paintty_server_go.Prelude.Int.{pos}
use paintty_server_go.Prelude.Maps.{load}
use paintty_server_go.BufferedFile.{Buffered}
use paintty_server_go.Radio.{Radio, done}
use paintty_server_go.Room.{Room, write_chan, has_user}
use paintty_server_go.Room.Handlers.{Surroundings}
use paintty_server_go.Room.Serving.{Json, process_package}
use paintty_server_go.Room.Writers.{MaySend, process_package-MaySend}
use paintty_server_go.Socket.Reader.{Package}

abbrev archive : Buffered
archive = record {
  buffer = 3 ∷ 0 ∷ [];
  water_mark = 1;
  file_size = 0;
  whole_size = 1;
  file = record { content = []; cursor = 0; is_open = true; outcomes = [] };
  going_close = false;
}

-- Client 1 draws, and client 2 listens at address 0 of the radio.
abbrev on_air : Radio
on_air = record {
  heap = record { client = 2; list = []; running = true } ∷ [];
  clients = (2, 0) ∷ [];
  file = archive;
  signature = "sign";
  in_flight = [];
  closed = false;
  locked = false;
}

abbrev studio : Room
studio = record {
  radio = on_air;
  clients = (1, record { client_id = "a"; nick_name = "ann" }) ∷ [];
  current_clients_count = pos 1;
  expiration = pos 48;
  key = "key";
  archive_sign = "sign";
  port = 4000;
  options = record {
    max_load = pos 8;
    width = pos 720;
    height = pos 480;
    password = "";
    welcome_msg = "";
    name = "studio";
    empty_close = false;
  };
  last_check = 0;
  going_close = false;
}

abbrev around : Surroundings
around = record { client_id = "b"; sign = "next"; now = 7 }

abbrev json : Json
json = record {
  unmarshal = λ d. none;
  join_request = λ d. record { password = ""; name = "" };
  timestamp = λ d. pos 0;
  archive_request = λ d. record { start = pos 0; data_length = pos 0 };
  clear_all_key = λ d. "";
  kick_request = λ d. record { key = ""; client_id = "" };
  close_key = λ d. "";
  checkout_key = λ d. "";
}

abbrev stroke : Package
stroke = record { package_type = 2; unpacked = 7 ∷ []; repacked = 0 ∷ 0 ∷ 0 ∷ 2 ∷ 4 ∷ 7 ∷ [] }

stroke_passes :
    process_package around json stroke studio 1
    ≡ done (studio, write_chan stroke.repacked ∷ [], true)
unfolding process_package has_user load
stroke_passes = refl

process_package-MaySend_example :
    MaySend json stroke studio 1 (studio, write_chan stroke.repacked ∷ [], true)
process_package-MaySend_example =
    process_package-MaySend around json stroke studio studio 1 (write_chan stroke.repacked ∷ [])
      true stroke_passes
