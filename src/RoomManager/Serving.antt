-- ===== src/RoomManager/Serving.antt =====
-- The rest of pkg/RoomManager/RoomManager.go: how the hall starts, and how packages reach its
-- handlers.
use paintty_server_go.Prelude.{
  ℕ, zero, suc, ◌+◌, Bool, true, false, List, [], ◌∷◌, ◌++◌, Bytes, Option, none, some, leb, ◌==◌,
  if◌then◌else◌,
}
use paintty_server_go.Prelude.Int.{pos}
use paintty_server_go.Config.{ConfMap}
use paintty_server_go.Socket.Pack.{manager}
use paintty_server_go.Socket.Reader.{Package}
use paintty_server_go.Router.{
  Unmarshal, Router, fails, ignored, routed, make_router, register, on_message,
}
use paintty_server_go.Room.{RoomOption, Turn, at_test, in_accept, returned}
use paintty_server_go.Room.Serving.{World, RoomRuntimeInfo}
use paintty_server_go.RoomManager.{
  RoomManager, DbCall, NewRoomResponse, RoomPublicInfo, handle_new_room, handle_room_list, recovery,
}

-- The loop of init around ListenTCP: `ok i` says whether attempt i succeeds. It sleeps five seconds
-- between attempts.
pub data Listening : Type 0 where
  bound : ℕ → Listening
  refused_port : Listening
  stuck : Listening

unfoldable pub listen_loop : ℕ → ℕ → (ℕ → Bool) → Listening
listen_loop zero i ok = stuck
listen_loop (suc fuel) i ok =
    let rest : Listening = listen_loop fuel (i + 1) ok in
    if ok i then bound i else if leb 19 i then refused_port else rest

abbrev pub listen : (ℕ → Bool) → Listening
listen ok = listen_loop 20 0 ok

-- The rest of init: what is stored is recovered, once the hall listens; none is its error.
unfoldable pub init : (ℕ → Bool) → List (RoomRuntimeInfo × World) → Option RoomManager
init ok found = elim (listen ok) [
  | bound i ↦ some (recovery found (record { rooms = []; current_room_count = pos 0 }))
  | _ ↦ none
]

-- The requests of the hall, and what json.Unmarshal makes of them; none is the panic of handleNewRoom
-- on an error.
pub data Request : Type 0 where
  room_list : Request
  new_room : Option RoomOption → Request

pub record Json : Type 0 where
  pub unmarshal : Unmarshal
  pub new_room_request : Bytes → Option RoomOption

pub data Reply : Type 0 where
  rooms : List RoomPublicInfo → Reply
  answer : NewRoomResponse → Reply

-- What a package does: the manager afterwards, the calls of the database, what the client is sent,
-- and whether it is closed.
pub record Served : Type 0 where
  pub after : RoomManager
  pub calls : List DbCall
  pub replies : List Reply
  pub closes : Bool

unfoldable pub router : Json → Router (Bytes → Request)
unfolding make_router register
router j =
    register "newroom" (λ d. new_room (j.new_room_request d))
      (register "roomlist" (λ d. room_list) (make_router "request"))

abbrev pub nothing : Bool → RoomManager → Served
nothing closes m = record { after = m; calls = []; replies = []; closes = closes }

-- A handler; a panic of it is recovered by OnMessage, whose error closes the client.
unfoldable pub handle : ConfMap → World → Request → RoomManager → Served
handle confs w room_list m = record {
  after = m;
  calls = [];
  replies = rooms (handle_room_list m) ∷ [];
  closes = false;
}
handle confs w (new_room none) m = nothing true m
handle confs w (new_room (some o)) m = elim (handle_new_room confs w o m) [
  | none ↦ nothing true m
  | some (m', calls, resp) ↦ record {
    after = m';
    calls = calls;
    replies = answer resp ∷ [];
    closes = false;
  }
]

-- The package branch of processClient.
unfoldable pub process_package : ConfMap → World → Json → Package → RoomManager → Served
process_package confs w j p m =
    if p.package_type == manager
    then elim (on_message j.unmarshal (router j) p.unpacked) [
      | fails ↦ nothing true m
      | ignored ↦ nothing false m
      | routed request ↦ handle confs w (request p.unpacked) m
    ]
    else nothing false m

-- Close of the hall: closing goingClose a second time is a panic, none. The database and the listener
-- are outside.
unfoldable pub close : Bool → Option Bool
close going_close = if going_close then none else some true

-- The next step of Run's loop, once init has succeeded, with what AcceptTCP gives, none being an error:
-- where the loop is afterwards, and the clients for which a goroutine of processClient starts.
unfoldable pub run_step : Bool → Turn → Option ℕ → Turn × List ℕ
run_step going_close at_test conn = (if going_close then returned else in_accept, [])
run_step going_close in_accept none = (at_test, [])
run_step going_close in_accept (some c) = (at_test, c ∷ [])
run_step going_close returned conn = (returned, [])

-- processClient over the packages of a client, each with what a new room takes from outside then. A
-- package that closes the client is the last one.
unfoldable pub process_packages : ConfMap → Json → List (World × Package) → RoomManager → Served
process_packages confs j [] m = nothing false m
process_packages confs j ((w, p) ∷ packages) m =
    let s : Served = process_package confs w j p m in
    let later : Served = process_packages confs j packages s.after in
    if s.closes
    then s
    else record later { calls = s.calls ++ later.calls; replies = s.replies ++ later.replies }
