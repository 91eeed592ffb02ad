-- ===== src/Config/Defaults.antt =====
-- What the configuration holds after it was loaded: which values are read, and with which defaults.
use paintty_server_go.Prelude.{
  ◌≡◌, refl, ap, ◌∙◌, false, Option, none, some, String, arith, eq_iff, str_eq,
}
use paintty_server_go.Prelude.Int.{ℤ, pos}
use paintty_server_go.Prelude.Maps.{string_Eq, load, load-store}
use paintty_server_go.Config.{
  str, int, ConfMap, as_int, apply_default_string, apply_default_int,
  apply_default_simple_config_values, read_conf_int,
}

abbrev pub or_else {ℓ} : {A : Type ℓ} → Option A → A → A
or_else (some a) d = a
or_else none d = d

-- Applying a default to a key: reading it gives the configured integer, or else the default; other
-- keys are not touched.
int-default :
    (key : String) (value : ℤ) (confs : ConfMap)
    → as_int (load key (apply_default_int key value confs))
      ≡ some (or_else (as_int (load key confs)) value)
unfolding apply_default_int
int-default key value confs = ground (arith, load-store key key (int value) confs, eq_iff key key)

pub int-other :
    (key j : String) (value : ℤ) (confs : ConfMap)
    → str_eq key j ≡ false
    → load j (apply_default_int key value confs) ≡ load j confs
unfolding apply_default_int
int-other key j value confs h = ground (arith, load-store key j (int value) confs)

pub string-other :
    (key j : String) (value : String) (confs : ConfMap)
    → str_eq key j ≡ false
    → load j (apply_default_string key value confs) ≡ load j confs
unfolding apply_default_string
string-other key j value confs h = ground (arith, load-store key j (str value) confs)

-- What ReadConfInt gives, from what is stored.
read_lem :
    (key : String) (d n : ℤ) (confs : ConfMap)
    → as_int (load key confs) ≡ some n
    → read_conf_int key d confs ≡ n
unfolding read_conf_int
read_lem key d n confs h = ground (arith, h)

module _ (confs : ConfMap) (d : ℤ) where
  abbrev c1 : ConfMap
  c1 = apply_default_string "announcement" "" confs

  abbrev c2 : ConfMap
  c2 = apply_default_int "expiration" (pos 48) c1

  abbrev c3 : ConfMap
  c3 = apply_default_int "max_load" (pos 8) c2

  -- After the defaults were applied, `max_load` and `max_room_count` read as the integers of the
  -- map, or else as 8 and 1000, and `expiration` as its integer or else 48, whatever default the
  -- reader passes.
  pub read_conf_int-defaults :
      (read_conf_int "max_load" d (apply_default_simple_config_values confs)
        ≡ or_else (as_int (load "max_load" confs)) (pos 8))
      × (read_conf_int "max_room_count" d (apply_default_simple_config_values confs)
          ≡ or_else (as_int (load "max_room_count" confs)) (pos 1000))
      × (read_conf_int "expiration" d (apply_default_simple_config_values confs)
          ≡ or_else (as_int (load "expiration" confs)) (pos 48))
  unfolding apply_default_simple_config_values
  read_conf_int-defaults = (
    read_lem "max_load" d (or_else (as_int (load "max_load" confs)) (pos 8))
        (apply_default_simple_config_values confs)
        (ap as_int (int-other "max_room_count" "max_load" (pos 1000) c3 refl)
          ∙ int-default "max_load" (pos 8) c2
          ∙ ap (λ o. some (or_else (as_int o) (pos 8)))
              (int-other "expiration" "max_load" (pos 48) c1 refl
                ∙ string-other "announcement" "max_load" "" confs refl)),
    read_lem "max_room_count" d (or_else (as_int (load "max_room_count" confs)) (pos 1000))
        (apply_default_simple_config_values confs)
        (int-default "max_room_count" (pos 1000) c3
          ∙ ap (λ o. some (or_else (as_int o) (pos 1000)))
              (int-other "max_load" "max_room_count" (pos 8) c2 refl
                ∙ int-other "expiration" "max_room_count" (pos 48) c1 refl
                ∙ string-other "announcement" "max_room_count" "" confs refl)),
    read_lem "expiration" d (or_else (as_int (load "expiration" confs)) (pos 48))
        (apply_default_simple_config_values confs)
        (ap as_int (
            int-other "max_room_count" "expiration" (pos 1000) c3 refl
            ∙ int-other "max_load" "expiration" (pos 8) c2 refl)
          ∙ int-default "expiration" (pos 48) c1
          ∙ ap (λ o. some (or_else (as_int o) (pos 48)))
              (string-other "announcement" "expiration" "" confs refl)),
  )
