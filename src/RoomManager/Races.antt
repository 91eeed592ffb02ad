-- ===== src/RoomManager/Races.antt =====
-- handleNewRoom for two clients of the hall at once: the router runs handlers side by side, and the
-- test of a new room's options is one step, storing the room another.
mod Runs
use paintty_server_go.Prelude.{
  ◌≡◌, refl, sym, ap, ◌∙◌, List, [], ◌∷◌, Option, none, some, String, arith, eq_iff, Option-cases,
  inl, inr,
}
use paintty_server_go.Prelude.Int.{pos}
use paintty_server_go.Prelude.Maps.{string_Eq, load, store, delete, load-store, load-delete}
use paintty_server_go.ErrorCode.{new_room_name_collission}
use paintty_server_go.Config.{ConfMap, read_conf_int}
use paintty_server_go.Room.{Room, RoomOption}
use paintty_server_go.Room.Serving.{World, init, serve_room, dump_room}
use paintty_server_go.RoomManager.{
  RoomManager, NewRoomResponse, refused, handle_new_room, DbCall, db_put, db_delete, db_key, opened,
  store_room, open_room, wait_room_closed, limit_room_option,
}

-- A room has the options that it was asked for.
serve_room-options :
    (w : World) (confs : ConfMap) (o : RoomOption) (room : Room)
    → serve_room w (read_conf_int "expiration" (pos 0) confs) o ≡ some room
    → room.options ≡ o
unfolding serve_room init
serve_room-options w confs o room e = elim (Option-cases (w.listen 0)) [
  | inl deaf ↦ absurd (ground (arith, deaf, e))
  | inr (port, listens) ↦ ground (arith, listens, e)
]

-- What the database is told of a new room, and what its client is answered.
abbrev pub stored : Room → List DbCall
stored room = db_put (db_key room.options.name) (dump_room room) ∷ []

abbrev pub reply : Room → NewRoomResponse
reply room = opened (record { port = room.port; key = room.key; password = room.options.password })

-- A name that is taken is refused, if nothing else is wrong with the request.
name_taken :
    (confs : ConfMap) (m m' : RoomManager) (o : RoomOption) (room : Room)
    → limit_room_option confs m o ≡ 0
    → load o.name m'.rooms ≡ some room
    → limit_room_option confs m' o ≡ new_room_name_collission
unfolding limit_room_option
name_taken confs m m' o room fine taken = ground (arith, fine, taken)

-- Two clients that ask for a room of the same name: one after the other, the first gets a room and the
-- second is refused. But when both requests pass the test before either room is stored, the second is
-- answered with a room of its own, too; the hall lists this room alone, and the entry of the database
-- is its own. When the first room closes, its goroutine takes the second off the list and out of the
-- database, though it still runs. Both requests are allowed at first, and both rooms can listen.
pub open_room-wait_room_closed :
    (confs : ConfMap) (w w' : World) (o o' : RoomOption) (m : RoomManager) (room room' : Room)
    → limit_room_option confs m o ≡ 0
    → limit_room_option confs m o' ≡ 0
    → o'.name ≡ o.name
    → serve_room w (read_conf_int "expiration" (pos 0) confs) o ≡ some room
    → serve_room w' (read_conf_int "expiration" (pos 0) confs) o' ≡ some room'
    → (m₁ m₂ : RoomManager) × (handle_new_room confs w o m ≡ some (m₁, stored room, reply room))
      × (handle_new_room confs w' o' m₁ ≡ some (m₁, [], refused new_room_name_collission))
      × (open_room confs w' o' m₁ ≡ some (m₂, stored room', reply room'))
      × (load o.name m₂.rooms ≡ some room')
      × (load o.name (wait_room_closed o.name m₂).0.rooms ≡ none)
      × ((wait_room_closed o.name m₂).1 ≡ db_delete (db_key room'.options.name) ∷ [])
unfolding handle_new_room wait_room_closed
open_room-wait_room_closed confs w w' o o' m room room' fine fine' same serves serves' =
    let m₁ : RoomManager = store_room room m in
    let m₂ : RoomManager = store_room room' m₁ in
    let name : room.options.name ≡ o.name =
      ap (λ (x : RoomOption). x.name) (serve_room-options w confs o room serves) in
    let name' : room'.options.name ≡ o.name =
      ap (λ (x : RoomOption). x.name) (serve_room-options w' confs o' room' serves') ∙ same in
    let listed : load o'.name m₁.rooms ≡ some room = ground (
      arith,
      load-store room.options.name o'.name room m.rooms,
      eq_iff room.options.name o'.name,
      name,
      same,
    ) in
    (
      m₁,
      m₂,
      ground (arith, fine, serves),
      ground (arith, name_taken confs m m₁ o' room fine' listed),
      ground (arith, serves'),
      ground (
        arith,
        load-store room'.options.name o.name room' m₁.rooms,
        eq_iff room'.options.name o.name,
        name',
      ),
      ground (arith, load-delete o.name o.name m₂.rooms, eq_iff o.name o.name),
      ap (λ n. db_delete (db_key n) ∷ []) (sym name'),
    )
