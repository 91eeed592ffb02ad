-- ===== src/Config/Runs.antt =====
-- The configuration at concrete values.
use paintty_server_go.Prelude.{◌≡◌, refl, true, [], ◌∷◌, some, arith, eq_iff}
use paintty_server_go.Prelude.Int.{pos}
use paintty_server_go.Prelude.Maps.{string_Eq, load, store}
use paintty_server_go.Config.{
  str, int, ConfMap, as_int, apply_default_simple_config_values, load_conf, apply_default_int,
  apply_default_string, read_conf_int,
}
use paintty_server_go.Config.Defaults.{or_else, read_conf_int-defaults}
use paintty_server_go.Config.Files.{
  Files, Os, Libraries, open_file, read_salt_from_file, load_conf_file, init_conf,
}
use paintty_server_go.Config.Salt.{salt_hash, init_conf-salt, init_conf_lost}

abbrev given : ConfMap
given = ("max_load", int (pos 20)) ∷ ("expiration", str "soon") ∷ []

-- A string for the expiration is replaced by the default.
reload_given :
    load "expiration" (apply_default_simple_config_values (load_conf given []))
    ≡ some (int (pos 48))
unfolding load_conf load apply_default_simple_config_values apply_default_int apply_default_string
    store
reload_given = refl

read_conf_int-defaults_run :
    (read_conf_int "max_load" (pos 8) (apply_default_simple_config_values given)
      ≡ or_else (as_int (load "max_load" given)) (pos 8))
    × (read_conf_int "max_room_count" (pos 8) (apply_default_simple_config_values given)
        ≡ or_else (as_int (load "max_room_count" given)) (pos 1000))
    × (read_conf_int "expiration" (pos 8) (apply_default_simple_config_values given)
        ≡ or_else (as_int (load "expiration" given)) (pos 48))
read_conf_int-defaults_run = read_conf_int-defaults given (pos 8)

-- Nothing is refused, and a path is its own file.
abbrev machine : Os
machine = record {
  working_dir = some "/srv";
  join = λ dir name. name;
  place = λ path. path;
  opens = λ file. true;
  reads = λ file. true;
  creates = λ file. true;
}

-- Every configuration is empty, and the bytes stand for their hash.
abbrev libraries : Libraries
libraries = record { yaml = λ d. some []; sum512 = λ d. d }

abbrev fresh_files : Files
fresh_files = ("config.yml", 7 ∷ []) ∷ []

abbrev salted_files : Files
salted_files = ("config.yml", 7 ∷ []) ∷ ("./data/salt.key", 3 ∷ 4 ∷ []) ∷ []

config_loads :
    (files : Files)
    → load "config.yml" files ≡ some (7 ∷ [])
    → load_conf_file machine libraries "config.yml" files [] ≡ (files, some [])
unfolding load_conf_file open_file load_conf
config_loads files h = ground (arith, h)

init_conf-salt_run :
    ((init_conf machine libraries (1 ∷ []) salted_files []).0 ≡ salted_files)
    × (salt_hash (init_conf machine libraries (1 ∷ []) salted_files []) ≡ some (3 ∷ 4 ∷ []))
    × (salt_hash (
          init_conf machine libraries
            (2 ∷ [])
            (init_conf machine libraries (1 ∷ []) salted_files []).0
            [])
        ≡ some (3 ∷ 4 ∷ []))
unfolding load read_salt_from_file open_file apply_default_string store
init_conf-salt_run =
    init_conf-salt machine libraries (1 ∷ []) (2 ∷ []) salted_files [] (3 ∷ 4 ∷ [])
      (config_loads salted_files refl) refl

init_conf_lost_example :
    (salt_hash (init_conf machine libraries (1 ∷ []) fresh_files []) ≡ some (1 ∷ []))
    × (salt_hash (
          init_conf machine libraries
            (2 ∷ [])
            (init_conf machine libraries (1 ∷ []) fresh_files []).0
            [])
        ≡ some (2 ∷ []))
unfolding load apply_default_string store
init_conf_lost_example =
    init_conf_lost machine libraries (1 ∷ []) (2 ∷ []) "/srv" fresh_files [] refl
      (λ e. ground (arith, (eq_iff "salt.key" "./data/salt.key").1 e))
      (λ e. ground (arith, (eq_iff "salt.key" "config.yml").1 e)) refl refl
      (config_loads fresh_files refl)
