-- ===== src/Server/Runs.antt =====
-- A server that is asked for its rooms and reads its configuration again.
use mathlib.Core.Logic.{◌↔◌}
use paintty_server_go.Prelude.{◌≡◌, refl, true, List, [], ◌∷◌, Bytes, Option, none, some, String}
use paintty_server_go.Prelude.Int.{pos}
use paintty_server_go.Prelude.Maps.{string_Eq, load, store}
use paintty_server_go.Config.{
  Value, int, bytes, apply_default_simple_config_values, load_conf, apply_default_int,
  apply_default_string, read_conf_int, read_conf_bytes,
}
use paintty_server_go.Config.Files.{
  Files, Os, Libraries, open_file, read_salt_from_file, load_conf_file, init_conf, reload_conf,
}
use paintty_server_go.Config.Salt.{salt_hash}
use paintty_server_go.RoomManager.Serving.{init, listen_loop}
use paintty_server_go.RoomManager
use paintty_server_go.Server.{Server, Event, ten_minutes, room_closed, step, run, main}
use paintty_server_go.Server.Reload.{AllLoad, main-AllLoad}
use paintty_server_go.Server.Salt.{main-salt_hash}

-- Nothing is refused, and a path is its own file.
abbrev machine : Os
machine = record {
  working_dir = some "/srv";
  join = λ dir name. name;
  place = λ path. path;
  opens = λ file. true;
  reads = λ file. true;
  creates = λ file. true;
}

-- The first byte of a configuration is the number of users that it allows, and the second, if there is
-- one, the hash of the salt.
abbrev read_pairs : Bytes → Option (List (String × Value))
read_pairs [] = none
read_pairs (x ∷ []) = some (("max_load", int (pos x)) ∷ [])
read_pairs (x ∷ y ∷ d) = some (("max_load", int (pos x)) ∷ ("globalSaltHash", bytes (y ∷ [])) ∷ [])

-- The bytes stand for their hash.
abbrev libraries : Libraries
libraries = record { yaml = read_pairs; sum512 = λ d. d }

abbrev on_disk : Files
on_disk = ("config.yml", 20 ∷ []) ∷ ("./data/salt.key", 3 ∷ 4 ∷ []) ∷ []

abbrev emptied : Files
emptied = ("config.yml", []) ∷ []

abbrev events : List Event
events = room_closed "lobby" ∷ ten_minutes machine on_disk ∷ []

abbrev running : Option Server
running = main machine libraries (1 ∷ []) on_disk (λ i. true) [] []

running_lem :
    elim running [ none ↦ none | some s ↦ some (read_conf_int "max_load" (pos 8) s.confs) ]
    ≡ some (pos 20)
unfolding main init_conf load_conf_file open_file read_salt_from_file load load_conf store init
    listen_loop run read_conf_int apply_default_simple_config_values apply_default_int
    apply_default_string RoomManager.recovery
running_lem = refl

abbrev got : Option Server → Server
got none = record { confs = []; hall = record { rooms = []; current_room_count = pos 0 } }
got (some s) = s

main-AllLoad_example :
    ((s : Server) × (main machine libraries (1 ∷ []) on_disk (λ i. true) [] events ≡ some s))
    ↔ AllLoad libraries events
unfolding main init_conf load_conf_file open_file read_salt_from_file load load_conf store init
    listen_loop run apply_default_simple_config_values apply_default_int apply_default_string
    RoomManager.recovery
main-AllLoad_example =
    main-AllLoad machine libraries (1 ∷ []) on_disk (λ i. true) [] events (got running) refl

main-salt_hash_example :
    salt_hash (init_conf machine libraries (1 ∷ []) on_disk [])
    ≡ some (
        read_conf_bytes "globalSaltHash"
          (got (main machine libraries (1 ∷ []) on_disk (λ i. true) [] events)).confs)
unfolding main init_conf load_conf_file open_file read_salt_from_file load load_conf store init
    listen_loop run step reload_conf apply_default_simple_config_values apply_default_int
    apply_default_string RoomManager.recovery RoomManager.wait_room_closed
main-salt_hash_example =
    main-salt_hash machine libraries (1 ∷ []) on_disk (λ i. true) [] events
      (got (main machine libraries (1 ∷ []) on_disk (λ i. true) [] events)) (refl, tt) refl

-- An empty file when the timer fires.
emptied_lem :
    main machine libraries (1 ∷ []) on_disk (λ i. true) [] (ten_minutes machine emptied ∷ []) ≡ none
unfolding main init_conf load_conf_file open_file read_salt_from_file load load_conf store init
    listen_loop run step reload_conf apply_default_simple_config_values apply_default_int
    apply_default_string RoomManager.recovery
emptied_lem = refl
