-- ===== src/Server/Reload.antt =====
-- What the ticker's ReloadConf does to a running server: when it ends the process.
use mathlib.Core.Logic.{◌↔◌}
use paintty_server_go.Prelude.{
  ℕ, ◌<◌, ◌≡◌, ◌⊎◌, inl, inr, refl, sym, ◌∙◌, Bool, true, List, [], ◌∷◌, Bytes, none, some, String,
  arith, length, Option-cases,
}
use paintty_server_go.Prelude.Maps.{string_Eq}
use paintty_server_go.Config.{Value, ConfMap, load_conf, apply_default_simple_config_values}
use paintty_server_go.Config.Files.{
  Files, Os, Libraries, open_file, load_conf_file, reload_conf, init_conf,
}
use paintty_server_go.Room.Serving.{World, RoomRuntimeInfo}
use paintty_server_go.RoomManager.Serving.{init}
use paintty_server_go.Server.{Server, Event, ten_minutes, asks, room_closed, step, run, main}

-- A configuration that ReloadConf can read: there is no working directory, so that it does nothing, or
-- config.yml in it opens, can be read, is not empty, and yaml makes a map of it.
abbrev pub Loads : Libraries → Os → Files → Type 0
Loads lib os files =
    (os.working_dir ≡ none)
    ⊎ ((dir : String) × (d : Bytes) × (pairs : List (String × Value)) × (os.working_dir ≡ some dir)
        × (open_file os files (os.join dir "config.yml") ≡ some d)
        × (os.reads (os.place (os.join dir "config.yml")) ≡ true)
        × (0 < length d)
        × (lib.yaml d ≡ some pairs))

abbrev pub AllLoad : Libraries → List Event → Type 0
AllLoad lib [] = Unit
AllLoad lib (ten_minutes os files ∷ events) = Loads lib os files × AllLoad lib events
AllLoad lib (asks w j p ∷ events) = AllLoad lib events
AllLoad lib (room_closed name ∷ events) = AllLoad lib events

Loads-reload_conf :
    (lib : Libraries) (os : Os) (files : Files) (confs : ConfMap)
    → Loads lib os files
    → (c : ConfMap) × ((reload_conf os lib files confs).1 ≡ some c)
unfolding reload_conf load_conf_file
Loads-reload_conf lib os files confs (inl lost) = (confs, rw lost refl)
Loads-reload_conf lib os files confs (inr (dir, d, pairs, wd, opens, reads, full, yaml)) = (
  apply_default_simple_config_values (load_conf pairs confs),
  ground (arith, wd, opens, reads, full, yaml),
)

pub reload_conf-Loads :
    (lib : Libraries) (os : Os) (files : Files) (confs c : ConfMap)
    → (reload_conf os lib files confs).1 ≡ some c
    → Loads lib os files
unfolding reload_conf load_conf_file
reload_conf-Loads lib os files confs c e = elim (Option-cases os.working_dir) [
  | inl lost ↦ inl lost
  | inr (dir, wd) ↦ elim (Option-cases (open_file os files (os.join dir "config.yml"))) [
    | inl gone ↦ absurd (ground (arith, wd, gone, e))
    | inr (d, opens) ↦ elim (Option-cases (lib.yaml d)) [
      | inl bad ↦ absurd (ground (arith, wd, opens, bad, e))
      | inr (pairs, yaml) ↦ inr (
        dir,
        d,
        pairs,
        wd,
        opens,
        ground (arith, wd, opens, yaml, e),
        ground (arith, wd, opens, yaml, e),
        yaml,
      )
    ]
  ]
]

AllLoad-run :
    (lib : Libraries) (events : List Event) (s : Server)
    → AllLoad lib events
    → (s' : Server) × (run lib events s ≡ some s')
unfolding run step
AllLoad-run lib [] s fine = (s, refl)
AllLoad-run lib (ten_minutes os files ∷ events) s (first, fine) =
    let (c, e) = Loads-reload_conf lib os files s.confs first in
    let (s', e') = AllLoad-run lib events (record s { confs = c }) fine in
    (s', ground (arith, e, e'))
AllLoad-run lib (asks w j p ∷ events) s fine = AllLoad-run lib events _ fine
AllLoad-run lib (room_closed name ∷ events) s fine = AllLoad-run lib events _ fine

run-AllLoad :
    (lib : Libraries) (events : List Event) (s s' : Server)
    → run lib events s ≡ some s'
    → AllLoad lib events
unfolding run step
run-AllLoad lib [] s s' e = tt
run-AllLoad lib (ten_minutes os files ∷ events) s s' e =
    elim (Option-cases (reload_conf os lib files s.confs).1) [
      | inl fails ↦ absurd (ground (arith, fails, e))
      | inr (c, loads) ↦
          let later : run lib events (record s { confs = c }) ≡ some s' =
            ground (arith, loads, e) in
          (
            reload_conf-Loads lib os files s.confs c loads,
            run-AllLoad lib events (record s { confs = c }) s' later,
          )
    ]
run-AllLoad lib (asks w j p ∷ events) s s' e = run-AllLoad lib events _ s' e
run-AllLoad lib (room_closed name ∷ events) s s' e = run-AllLoad lib events _ s' e

-- The server lives on as long as its configuration can be read: once it has started, it comes through
-- any packages, closed rooms and ticks of its timer exactly if at each tick there is no working
-- directory or config.yml in it opens, can be read, is not empty, and is a map for yaml. A file that is
-- empty or half written when the timer fires ends the process with all its rooms. What goroutines of
-- rooms do is not among these events.
pub main-AllLoad :
    (os : Os) (lib : Libraries) (random : Bytes) (files : Files) (ok : ℕ → Bool)
    (found : List (RoomRuntimeInfo × World)) (events : List Event) (s : Server)
    → main os lib random files ok found [] ≡ some s
    → ((s' : Server) × (main os lib random files ok found events ≡ some s')) ↔ AllLoad lib events
unfolding main run
main-AllLoad os lib random files ok found events s starts =
    let goes_on : main os lib random files ok found events ≡ run lib events s =
      elim (Option-cases (init_conf os lib random files []).1) [
        | inl fails ↦ absurd (ground (arith, starts, fails))
        | inr (c, loads) ↦ elim (Option-cases (init ok found)) [
          | inl deaf ↦ absurd (ground (arith, starts, loads, deaf))
          | inr (m, listens) ↦ ground (arith, starts, loads, listens)
        ]
      ] in
    (
      (λ x. run-AllLoad lib events s x.0 (sym goes_on ∙ x.1)),
      (λ fine. let (s', e) = AllLoad-run lib events s fine in (s', goes_on ∙ e)),
    )
