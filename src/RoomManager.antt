-- ===== src/RoomManager.antt =====
-- pkg/RoomManager: the rooms of the server, the requests of the hall and what the database holds.
-- leveldb stays outside: an operation gives the calls that it makes of the database, and takes what
-- an iterator over the keys that begin with "room-" finds.
pub mod Count
pub mod Database
pub mod Restart
pub mod Serving
pub mod Listening
pub mod Replies
pub mod Races
pub mod Sessions
mod Runs
use paintty_server_go.Prelude.{
  ℕ, Bool, true, false, ◌&&◌, ◌||◌, List, [], ◌∷◌, map, Option, none, some, String, len, ltb,
  if◌then◌else◌,
}
use Prim.Native.String.{◌++◌}
use paintty_server_go.Prelude.Int.{ℤ, pos, ◌-ℤ◌, ◌*ℤ◌, ltb_ℤ, leb_ℤ, int64, int32}
use paintty_server_go.Prelude.Maps.{string_Eq, load, store, delete}
use paintty_server_go.Config.{ConfMap, read_conf_int}
use paintty_server_go.ErrorCode.{
  new_room_name_collission, new_room_invalid_name, new_room_invalid_maxload,
  new_room_invalid_welcmsg, new_room_invalid_pwd, new_room_too_many_rooms, new_room_invalid_canvas,
}
use paintty_server_go.Room.{Room, RoomOption, current_load}
use paintty_server_go.Room.Serving.{RoomRuntimeInfo, dump_room, World, serve_room, recover_room}

pub record RoomManager : Type 0 where
  pub rooms : List (String × Room)
  pub current_room_count : ℤ

-- The calls of the database: Put and Delete, alone or in a batch.
pub data DbCall : Type 0 where
  db_put : String → RoomRuntimeInfo → DbCall
  db_delete : String → DbCall

pub record NewRoomInfoForReply : Type 0 where
  pub port : ℕ
  pub key : String
  pub password : String

-- NewRoomResponse: the information of the new room, or an error code.
pub data NewRoomResponse : Type 0 where
  opened : NewRoomInfoForReply → NewRoomResponse
  refused : ℕ → NewRoomResponse

pub record RoomPublicInfo : Type 0 where
  pub name : String
  pub current_load : ℤ
  pub max_load : ℤ
  pub private : Bool
  pub server_address : String
  pub port : ℕ

unfoldable pub limit_room_option : ConfMap → RoomManager → RoomOption → ℕ
limit_room_option confs m option =
    let max_load : ℤ = read_conf_int "max_load" (pos 8) confs in
    let canvas_size : ℤ = int64 (option.width *ℤ option.height) in
    let max_room_count : ℤ = read_conf_int "max_room_count" (pos 1000) confs in
    if ltb_ℤ max_load option.max_load || ltb_ℤ option.max_load (pos 1)
    then new_room_invalid_maxload
    else if ltb_ℤ (pos 6998400) canvas_size || leb_ℤ canvas_size (pos 0)
    then new_room_invalid_canvas
    else if ltb 20 (len option.name)
    then new_room_invalid_name
    else elim (load option.name m.rooms) [
      | some room ↦ new_room_name_collission
      | none ↦
          if ltb 40 (len option.welcome_msg)
          then new_room_invalid_welcmsg
          else if ltb 16 (len option.password)
          then new_room_invalid_pwd
          else if leb_ℤ max_room_count m.current_room_count
          then new_room_too_many_rooms
          else 0
    ]

-- What handleNewRoom and the goroutines of rooms have in common: a room is stored, and the count
-- goes down by one.
abbrev pub store_room : Room → RoomManager → RoomManager
store_room room m = record m {
  rooms = store room.options.name room m.rooms;
  current_room_count = int32 (m.current_room_count -ℤ pos 1);
}

abbrev pub db_key : String → String
db_key name = "room-" ++ name

-- handleNewRoom behind its test of the options. `none` is the panic when the room cannot listen.
abbrev pub open_room :
    ConfMap
    → World
    → RoomOption
    → RoomManager
    → Option (RoomManager × List DbCall × NewRoomResponse)
open_room confs w options m =
    elim (serve_room w (read_conf_int "expiration" (pos 0) confs) options) [
      | none ↦ none
      | some room ↦ some (
        store_room room m,
        db_put (db_key room.options.name) (dump_room room) ∷ [],
        opened (record { port = room.port; key = room.key; password = room.options.password }),
      )
    ]

-- handleNewRoom, for the options of the request, when no other handler runs between its test and the
-- rest. RoomManager/Races has two of them side by side.
unfoldable pub handle_new_room :
    ConfMap
    → World
    → RoomOption
    → RoomManager
    → Option (RoomManager × List DbCall × NewRoomResponse)
handle_new_room confs w options m =
    let code : ℕ = limit_room_option confs m options in
    if ltb 0 code then some (m, [], refused code) else open_room confs w options m

abbrev public_info : String × Room → RoomPublicInfo
public_info (key, room) = record {
  name = room.options.name;
  current_load = current_load room;
  max_load = room.options.max_load;
  private = ltb 0 (len room.options.password);
  server_address = "0.0.0.0";
  port = room.port;
}

-- The list that handleRoomList sends, in the order of Range.
unfoldable pub handle_room_list : RoomManager → List RoomPublicInfo
handle_room_list m = map public_info m.rooms

unfoldable pub wait_room_closed : String → RoomManager → RoomManager × List DbCall
wait_room_closed name m = (
  record m {
    rooms = delete name m.rooms;
    current_room_count = int32 (m.current_room_count -ℤ pos 1);
  },
  db_delete (db_key name) ∷ [],
)

-- The loop of recovery over the rooms that the iterator finds, each with what its init takes from
-- outside. A room that cannot listen is skipped.
unfoldable pub recovery : List (RoomRuntimeInfo × World) → RoomManager → RoomManager
recovery [] m = m
recovery ((info, w) ∷ found) m = elim (recover_room w info) [
  | none ↦ recovery found m
  | some room ↦ recovery found (store_room room m)
]

-- A round of shortenRooms over the entries that the iterator finds: the batch that it writes.
unfoldable pub shorten_rooms : List (String × RoomRuntimeInfo) → List DbCall
shorten_rooms [] = []
shorten_rooms ((key, info) ∷ found) =
    let rest : List DbCall = shorten_rooms found in
    if ltb_ℤ (pos 1) info.expiration
    then db_put key (record info { expiration = info.expiration -ℤ pos 1 }) ∷ rest
    else db_delete key ∷ rest
