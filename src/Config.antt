-- ===== src/Config.antt =====
-- pkg/Config/ConfigReader.go: the configuration map, its defaults and how it is read.
pub mod Files
pub mod Defaults
pub mod Salt
mod Runs
use paintty_server_go.Prelude.{
  ℕ, ◌≡◌, List, [], ◌∷◌, Bytes, Option, none, some, String, arith, eq_iff, if◌then◌else◌,
}
use paintty_server_go.Prelude.Int.{ℤ, pos}
use paintty_server_go.Prelude.Maps.{Eq, string_Eq, load, store, load-store}

-- A value of an `interface{}`, by the types that the code asserts.
pub data Value : Type 0 where
  str : String → Value
  int : ℤ → Value
  bytes : Bytes → Value
  other : Value

abbrev pub ConfMap : Type 0
ConfMap = List (String × Value)

abbrev pub as_string : Option Value → Option String
as_string (some (str s)) = some s
as_string _ = none

abbrev pub as_int : Option Value → Option ℤ
as_int (some (int n)) = some n
as_int _ = none

-- applyDefaultString and applyDefaultInt: a missing value, and one of another type, is replaced.
unfoldable pub apply_default_string : String → String → ConfMap → ConfMap
apply_default_string key value confs = elim (as_string (load key confs)) [
  | some s ↦ confs
  | none ↦ store key (str value) confs
]

unfoldable pub apply_default_int : String → ℤ → ConfMap → ConfMap
apply_default_int key value confs = elim (as_int (load key confs)) [
  | some n ↦ confs
  | none ↦ store key (int value) confs
]

unfoldable pub apply_default_simple_config_values : ConfMap → ConfMap
apply_default_simple_config_values confs = apply_default_int "max_room_count" (pos 1000) (
    apply_default_int "max_load" (pos 8)
      (apply_default_int "expiration" (pos 48) (apply_default_string "announcement" "" confs)))

-- The loop at the end of loadConfFile: the pairs of the file over what is there.
unfoldable pub load_conf : List (String × Value) → ConfMap → ConfMap
load_conf [] confs = confs
load_conf ((k, v) ∷ file) confs = load_conf file (store k v confs)

unfoldable pub read_conf_string : String → String → ConfMap → String
read_conf_string key value confs = elim (as_string (load key confs)) [ some s ↦ s | none ↦ value ]

unfoldable pub read_conf_int : String → ℤ → ConfMap → ℤ
read_conf_int key value confs = elim (as_int (load key confs)) [ some n ↦ n | none ↦ value ]

unfoldable pub read_conf_bytes : String → ConfMap → Bytes
read_conf_bytes key confs = elim (load key confs) [
  | none ↦ []
  | some v ↦ elim v [ bytes b ↦ b | _ ↦ [] ]
]
