-- ===== src/Server.antt =====
-- src/server/painttyServer.go: the process of the server, its configuration and its hall. The
-- goroutine of the ticker reads the configuration again every ten minutes, while manager.Run serves;
-- what happens to the process is a list of events, in the order in which they are done.
pub mod Reload
pub mod Salt
mod Runs
use paintty_server_go.Prelude.{ℕ, Bool, List, [], ◌∷◌, Bytes, Option, none, some, String}
use paintty_server_go.Socket.Reader.{Package}
use paintty_server_go.Config.{ConfMap}
use paintty_server_go.Config.Files.{Files, Os, Libraries, init_conf, reload_conf}
use paintty_server_go.Room.Serving.{World, RoomRuntimeInfo}
use paintty_server_go.RoomManager.{RoomManager, wait_room_closed}
use paintty_server_go.RoomManager.Serving.{Json, init, process_package}

pub record Server : Type 0 where
  pub confs : ConfMap
  pub hall : RoomManager

-- The ticker fires, with what the operating system then does and the files as they then are; a client
-- of the hall sends a package; the goroutine of a room ends.
pub data Event : Type 0 where
  ten_minutes : Os → Files → Event
  asks : World → Json → Package → Event
  room_closed : String → Event

-- none is the end of the process: nothing recovers a panic of ReloadConf.
unfoldable pub step : Libraries → Event → Server → Option Server
step lib (ten_minutes os files) s = elim (reload_conf os lib files s.confs).1 [
  | none ↦ none
  | some confs ↦ some (record s { confs = confs })
]
step lib (asks w j p) s = some (record s { hall = (process_package s.confs w j p s.hall).after })
step lib (room_closed name) s = some (record s { hall = (wait_room_closed name s.hall).0 })

unfoldable pub run : Libraries → List Event → Server → Option Server
run lib [] s = some s
run lib (e ∷ events) s = elim (step lib e s) [ none ↦ none | some s' ↦ run lib events s' ]

-- main: the configuration, the hall with the rooms that are stored, and then the events. A panic of
-- InitConf and an error of manager.Run end the process.
unfoldable pub main :
    Os
    → Libraries
    → Bytes
    → Files
    → (ℕ → Bool)
    → List (RoomRuntimeInfo × World)
    → List Event
    → Option Server
main os lib random files ok found events = elim (init_conf os lib random files []).1 [
  | none ↦ none
  | some confs ↦ elim (init ok found) [
    | none ↦ none
    | some hall ↦ run lib events (record { confs = confs; hall = hall })
  ]
]
