-- ===== src/Server/Salt.antt =====
-- What the ticker's ReloadConf leaves of a running server's salt.
use mathlib.Core.Option.{some-injective}
use paintty_server_go.Prelude.{
  ℕ, ◌≡◌, inl, inr, refl, sym, ap, ◌∙◌, Bool, false, List, [], ◌∷◌, Bytes, Option, none, some,
  String, str_eq, arith, Option-cases, Bool-cases,
}
use paintty_server_go.Prelude.Maps.{string_Eq, load, store, load-store}
use paintty_server_go.Config.{
  Value, ConfMap, load_conf, read_conf_bytes, apply_default_simple_config_values,
}
use paintty_server_go.Config.Files.{
  Files, Os, Libraries, open_file, load_conf_file, reload_conf, init_conf,
}
use paintty_server_go.Config.Salt.{salt_hash, salt-defaults}
use paintty_server_go.Room.Serving.{World, RoomRuntimeInfo}
use paintty_server_go.RoomManager.Serving.{init}
use paintty_server_go.Server.{Server, Event, ten_minutes, asks, room_closed, step, run, main}
use paintty_server_go.Server.Reload.{reload_conf-Loads}

-- A file without the key of the salt's hash leaves it as it was.
load_conf-load :
    (key : String) (pairs : List (String × Value)) (confs : ConfMap)
    → load key pairs ≡ none
    → load key (load_conf pairs confs) ≡ load key confs
unfolding load_conf load
load_conf-load key [] confs gone = refl
load_conf-load key ((k, v) ∷ pairs) confs gone =
    let (other, rest) = load_cons key k v pairs gone in
    load_conf-load key pairs (store k v confs) rest
    ∙ ground (arith, load-store k key v confs, other)
  where
    load_cons :
        (key k : String) (v : Value) (pairs : List (String × Value))
        → load key ((k, v) ∷ pairs) ≡ none
        → (str_eq k key ≡ false) × (load key pairs ≡ none)
    load_cons key k v pairs gone = elim (Bool-cases (str_eq k key)) [
      | inl same ↦ absurd (ground (arith, same, gone))
      | inr other ↦ (other, ground (arith, other, gone))
    ]

-- The entry globalSaltHash of the configuration that a tick finds, if it finds one that yaml reads.
abbrev hash_at : Libraries → Os → Files → Option Value
hash_at lib os files = elim os.working_dir [
  | none ↦ none
  | some dir ↦ elim (open_file os files (os.join dir "config.yml")) [
    | none ↦ none
    | some d ↦ elim (lib.yaml d) [ none ↦ none | some pairs ↦ load "globalSaltHash" pairs ]
  ]
]

-- No tick finds a configuration with that entry.
abbrev pub NoneHashed : Libraries → List Event → Type 0
NoneHashed lib [] = Unit
NoneHashed lib (ten_minutes os files ∷ events) =
    (hash_at lib os files ≡ none) × NoneHashed lib events
NoneHashed lib (asks w j p ∷ events) = NoneHashed lib events
NoneHashed lib (room_closed name ∷ events) = NoneHashed lib events

reload_conf-load :
    (lib : Libraries) (os : Os) (files : Files) (confs c : ConfMap)
    → hash_at lib os files ≡ none
    → (reload_conf os lib files confs).1 ≡ some c
    → load "globalSaltHash" c ≡ load "globalSaltHash" confs
unfolding reload_conf load_conf_file
reload_conf-load lib os files confs c free e = elim (reload_conf-Loads lib os files confs c e) [
  | inl lost ↦ ground (arith, lost, e)
  | inr (dir, d, pairs, wd, opens, reads, full, yaml) ↦
      let now : some (apply_default_simple_config_values (load_conf pairs confs)) ≡ some c =
        ground (arith, wd, opens, reads, full, yaml, e) in
      sym (ap (λ x. elim x [ none ↦ none | some m ↦ load "globalSaltHash" m ]) now)
      ∙ salt-defaults (load_conf pairs confs)
      ∙ load_conf-load "globalSaltHash" pairs confs (ground (arith, free, wd, opens, yaml))
]

run-load :
    (lib : Libraries) (events : List Event) (s s' : Server)
    → NoneHashed lib events
    → run lib events s ≡ some s'
    → load "globalSaltHash" s'.confs ≡ load "globalSaltHash" s.confs
unfolding run step
run-load lib [] s s' free e =
    ap (λ (x : Server). load "globalSaltHash" x.confs) (sym (some-injective s s' e))
run-load lib (ten_minutes os files ∷ events) s s' free e =
    elim (Option-cases (reload_conf os lib files s.confs).1) [
      | inl fails ↦ absurd (ground (arith, fails, e))
      | inr (c, loads) ↦
          run-load lib events (record s { confs = c }) s' free.1 (ground (arith, loads, e))
          ∙ reload_conf-load lib os files s.confs c free.0 loads
    ]
run-load lib (asks w j p ∷ events) s s' free e = run-load lib events _ s' free e
run-load lib (room_closed name ∷ events) s s' free e = run-load lib events _ s' free e

-- The salt of the keys stays that of the start: if none of the configurations that the ticks of the
-- timer find has an entry globalSaltHash, then ReadConfBytes gives, whatever has happened to the server since, the hash that
-- InitConf computed.
pub main-salt_hash :
    (os : Os) (lib : Libraries) (random : Bytes) (files : Files) (ok : ℕ → Bool)
    (found : List (RoomRuntimeInfo × World)) (events : List Event) (s : Server)
    → NoneHashed lib events
    → main os lib random files ok found events ≡ some s
    → salt_hash (init_conf os lib random files []) ≡ some (read_conf_bytes "globalSaltHash" s.confs)
unfolding main read_conf_bytes
main-salt_hash os lib random files ok found events s free e =
    elim (Option-cases (init_conf os lib random files []).1) [
      | inl fails ↦ absurd (ground (arith, fails, e))
      | inr (c, loads) ↦ elim (Option-cases (init ok found)) [
        | inl deaf ↦ absurd (ground (arith, loads, deaf, e))
        | inr (m, listens) ↦
            let runs : run lib events (record { confs = c; hall = m }) ≡ some s =
              ground (arith, loads, listens, e) in
            let same = run-load lib events (record { confs = c; hall = m }) s free runs in
            ground (arith, loads, same)
      ]
    ]
