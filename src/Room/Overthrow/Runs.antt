-- ===== src/Room/Overthrow/Runs.antt =====
-- A room of two, of whom one is kicked.
use paintty_server_go.Prelude.{◌≡◌, refl, true, false, [], ◌∷◌, none, arith}
use paintty_server_go.Prelude.Int.{pos}
use paintty_server_go.Prelude.Maps.{pointer_Eq, load}
use paintty_server_go.BufferedFile.{Buffered}
use paintty_server_go.Socket.Pack.{drawing}
use paintty_server_go.Socket.Reader.{Package}
use paintty_server_go.Radio.{done, panics, make_radio}
use paintty_server_go.Room.{Room, close_later, kick_client, connection_closed, has_user}
use paintty_server_go.Room.Handlers.{Surroundings}
use paintty_server_go.Room.Serving.{Json, process_package}
use paintty_server_go.Room.Overthrow.{kick_client-process_package}

abbrev archive : Buffered
archive = record {
  buffer = 0 ∷ [];
  water_mark = 0;
  file_size = 0;
  whole_size = 0;
  file = record { content = []; cursor = 0; is_open = true; outcomes = [] };
  going_close = false;
}

-- Clients 1 and 2 have logged in.
abbrev duet : Room
duet = record {
  radio = make_radio archive "sign";
  clients =
      (1, record { client_id = "a"; nick_name = "ann" })
      ∷ (2, record { client_id = "b"; nick_name = "bob" })
      ∷ [];
  current_clients_count = pos 2;
  expiration = pos 48;
  key = "key";
  archive_sign = "sign";
  port = 4000;
  options = record {
    max_load = pos 8;
    width = pos 720;
    height = pos 480;
    password = "";
    welcome_msg = "";
    name = "duet";
    empty_close = true;
  };
  last_check = 0;
  going_close = false;
}

abbrev around : Surroundings
around = record { client_id = "c"; sign = "next"; now = 7 }

abbrev json : Json
json = record {
  unmarshal = λ d. none;
  join_request = λ d. record { password = ""; name = "" };
  timestamp = λ d. pos 0;
  archive_request = λ d. record { start = pos 0; data_length = pos 0 };
  clear_all_key = λ d. "";
  kick_request = λ d. record { key = ""; client_id = "" };
  close_key = λ d. "";
  checkout_key = λ d. "";
}

abbrev stroke : Package
stroke = record { package_type = drawing; unpacked = 7 ∷ []; repacked = 0 ∷ 0 ∷ 0 ∷ 2 ∷ 4 ∷ 7 ∷ [] }

kick_client-process_package_example :
    (kicked left : Room) × (kick_client duet 1 ≡ done (kicked, close_later 1 ∷ []))
    × (connection_closed kicked 1 ≡ done left)
    × (left.going_close ≡ true)
    × (has_user left 2 ≡ true)
    × (process_package around json stroke left 2 ≡ panics)
unfolding has_user load make_radio
kick_client-process_package_example =
    kick_client-process_package around json stroke duet 1 2 refl refl refl refl refl refl
      (λ e. ground (arith, e)) refl refl
