-- ===== src/Config/Files.antt =====
-- The files of pkg/Config/ConfigReader.go: the configuration and the salt.
-- The files are a map from what a path leads to. What the operating system refuses, yaml, sha512 and
-- the random bytes are parameters.
use paintty_server_go.Prelude.{
  Bool, List, [], Bytes, Option, none, some, String, length, ◌==◌, if◌then◌else◌,
}
use paintty_server_go.Prelude.Maps.{string_Eq, load, store}
use paintty_server_go.Config.{
  Value, bytes, ConfMap, as_string, apply_default_string, apply_default_simple_config_values,
  load_conf,
}

abbrev pub Files : Type 0
Files = List (String × Bytes)

pub record Os : Type 0 where
  -- Getwd, and filepath.Join of a directory and a name; none is an error
  pub working_dir : Option String
  pub join : String → String → String
  -- the file that a path leads to
  pub place : String → String
  -- whether Open of a file that exists, Stat and Read of one that is open, and Create succeed
  pub opens : String → Bool
  pub reads : String → Bool
  pub creates : String → Bool

pub record Libraries : Type 0 where
  -- yaml.Unmarshal, and the assertion that the result is a map
  pub yaml : Bytes → Option (List (String × Value))
  pub sum512 : Bytes → Bytes

unfoldable pub open_file : Os → Files → String → Option Bytes
open_file os files name = if os.opens (os.place name) then load (os.place name) files else none

unfoldable pub read_salt_from_file : Os → Files → String → Option Bytes
read_salt_from_file os files name = elim (open_file os files name) [
  | none ↦ none
  | some d ↦ if os.reads (os.place name) then some d else none
]

-- The 4096 random bytes and the files afterwards; none is a panic.
unfoldable pub create_salt_file : Os → Bytes → Files → Option (Bytes × Files)
create_salt_file os random files = elim os.working_dir [
  | none ↦ none
  | some dir ↦
      if os.creates (os.place (os.join dir "salt.key"))
      then some (random, store (os.place (os.join dir "salt.key")) random files)
      else none
]

-- A configuration that cannot be opened is created, and is then empty, which is a panic.
unfoldable pub load_conf_file : Os → Libraries → String → Files → ConfMap → Files × Option ConfMap
load_conf_file os lib name files confs = elim (open_file os files name) [
  | none ↦
      if os.creates (os.place name) then (store (os.place name) [] files, none) else (files, none)
  | some d ↦
      if os.reads (os.place name)
      then if length d == 0
        then (files, none)
        else (files, elim (lib.yaml d) [ none ↦ none | some pairs ↦ some (load_conf pairs confs) ])
      else (files, none)
]

-- The configuration with the default for the path of the salt, and that path.
abbrev pub with_salt_path : ConfMap → ConfMap
with_salt_path confs = apply_default_string "salt" "./data/salt.key" confs

abbrev pub salt_path : ConfMap → String
salt_path confs = elim (as_string (load "salt" (with_salt_path confs))) [
  | none ↦ ""
  | some name ↦ name
]

-- The end of InitConf, from the salt on.
abbrev pub salted : Libraries → Bytes → ConfMap → ConfMap
salted lib salt confs =
    apply_default_simple_config_values
      (store "globalSaltHash" (bytes (lib.sum512 salt)) (with_salt_path confs))

-- InitConf, once loadConfFile has returned; none is a panic.
abbrev pub after_load : Os → Libraries → Bytes → Files × Option ConfMap → Files × Option ConfMap
after_load os lib random x = elim x.1 [
  | none ↦ (x.0, none)
  | some c ↦ elim (read_salt_from_file os x.0 (salt_path c)) [
    | some salt ↦ (x.0, some (salted lib salt c))
    | none ↦ elim (create_salt_file os random x.0) [
      | none ↦ (x.0, none)
      | some y ↦ (y.1, some (salted lib y.0 c))
    ]
  ]
]

-- It goes on without a working directory.
abbrev pub config : Os → String
config os = os.join (elim os.working_dir [ none ↦ "" | some dir ↦ dir ]) "config.yml"

unfoldable pub init_conf : Os → Libraries → Bytes → Files → ConfMap → Files × Option ConfMap
init_conf os lib random files confs =
    after_load os lib random (load_conf_file os lib (config os) files confs)

-- ReloadConf changes nothing without a working directory.
unfoldable pub reload_conf : Os → Libraries → Files → ConfMap → Files × Option ConfMap
reload_conf os lib files confs = elim os.working_dir [
  | none ↦ (files, some confs)
  | some dir ↦
      let x : Files × Option ConfMap =
        load_conf_file os lib (os.join dir "config.yml") files confs in
      (x.0, elim x.1 [ none ↦ none | some c ↦ some (apply_default_simple_config_values c) ])
]
