-- ===== src/Room/Keys/Runs.antt =====
-- Two rooms with the same key, and what a user does with it.
use paintty_server_go.Prelude.{
  ℕ, ◌≡◌, ◌==◌, refl, true, false, List, [], ◌∷◌, Bytes, none, some, String, str_eq, if◌then◌else◌,
}
use paintty_server_go.Prelude.Int.{pos}
use paintty_server_go.Prelude.Maps.{string_Eq, load}
use paintty_server_go.BufferedFile.{Buffered}
use paintty_server_go.Config.{ConfMap, bytes, read_conf_bytes}
use paintty_server_go.Radio.{done, make_radio}
use paintty_server_go.Room.{Room, RoomOption, Effect, has_user, set_empty_close}
use paintty_server_go.Room.Messages.{close}
use paintty_server_go.Room.Handlers.{Surroundings, handle}
use paintty_server_go.Room.Serving.{init, serve_room}
use paintty_server_go.Room.Keys.{
  Hashing, world, gen_signed_key, gen_archive_sign, gen_client_id, serve_room-close,
}

-- A hash that gives the second byte.
abbrev second : Bytes → ℕ
second (a ∷ b ∷ rest) = b
second _ = 0

abbrev bytes_of : String → Bytes
bytes_of s =
    if str_eq s "a"
    then 97 ∷ []
    else if str_eq s "ab"
    then 97 ∷ 98 ∷ []
    else if str_eq s "bc"
    then 98 ∷ 99 ∷ []
    else if str_eq s "c"
    then 99 ∷ []
    else []

abbrev toy : Hashing
toy = record {
  sum64 = second;
  format_uint = λ n. if n == 98 then "b" else "none";
  utf8 = bytes_of;
  encode_to_string = λ b. "00";
}

abbrev salted : ConfMap
salted = ("globalSaltHash", bytes (7 ∷ [])) ∷ []

abbrev no_archive : String → Buffered
no_archive sign = record {
  buffer = 0 ∷ [];
  water_mark = 0;
  file_size = 0;
  whole_size = 0;
  file = record { content = []; cursor = 0; is_open = true; outcomes = [] };
  going_close = false;
}

abbrev option : String → String → RoomOption
option name password = record {
  max_load = pos 8;
  width = pos 720;
  height = pos 480;
  password = password;
  welcome_msg = "";
  name = name;
  empty_close = false;
}

abbrev room : String → String → Room
room name password = record {
  radio = make_radio (no_archive "none") "none";
  clients = [];
  current_clients_count = pos 0;
  expiration = pos 48;
  key = "b";
  archive_sign = "none";
  port = 4000;
  options = option name password;
  last_check = 0;
  going_close = false;
}

-- Client 1 is a user of the second room.
abbrev used : Room
used = record (room "a" "bc") {
  clients = (1, record { client_id = "x"; nick_name = "eve" }) ∷ [];
  current_clients_count = pos 1;
}

abbrev here : Surroundings
here = record { client_id = "b"; sign = "next"; now = 7 }

serve_room-close_example :
    (effects : List Effect) × ((room "ab" "c").key ≡ (room "a" "bc").key)
    × (handle here (close "b") used 1 ≡ done (set_empty_close used, effects))
unfolding serve_room init world gen_signed_key gen_archive_sign read_conf_bytes load has_user
serve_room-close_example =
    serve_room-close toy salted salted [] (1 ∷ []) no_archive (λ port. some 4000)
      (λ port. some 4000) 0 0 (pos 48) (pos 48) (option "ab" "c") (option "a" "bc") (room "ab" "c")
      (room "a" "bc") used here 1 refl refl refl refl refl refl

-- A user whose time cannot be read.
gen_client_id_run : gen_client_id toy salted none (room "a" "c") ≡ "none"
unfolding gen_client_id read_conf_bytes load
gen_client_id_run = refl
