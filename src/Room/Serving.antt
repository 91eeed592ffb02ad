-- ===== src/Room/Serving.antt =====
-- The rest of pkg/Room/Room.go, and the saved state of pkg/Room/Utils.go: how packages reach the
-- handlers, and how a room is made, saved and recovered.
use paintty_server_go.Prelude.{
  ℕ, Bool, true, false, List, [], ◌∷◌, Bytes, Option, none, some, String, len, ltb, ◌==◌, ◌&&◌,
  if◌then◌else◌,
}
use paintty_server_go.Prelude.Int.{ℤ, pos}
use paintty_server_go.Socket.Pack.{command, drawing, message}
use paintty_server_go.Socket.Reader.{Package}
use paintty_server_go.BufferedFile.{Buffered}
use paintty_server_go.Radio.{Outcome, done, blocks, panics, ◌>>=◌, make_radio}
use paintty_server_go.Router.{
  Unmarshal, Router, fails, ignored, routed, make_router, register, on_message,
}
use paintty_server_go.Room.{
  Room, RoomOption, Effect, through_radio, write_chan, send_chan, Handled, has_user, remove_client,
  kick_client,
}
use paintty_server_go.Room.Messages.{
  JoinRoomRequest, ArchiveRequest, KickRequest, Request, login, heartbeat, archivesign, archive,
  clearall, kick, onlinelist, close, checkout,
}
use paintty_server_go.Room.Handlers.{Surroundings, handle}

-- encoding/json, as a room uses it: a message as an object, and each request as json.Unmarshal
-- leaves it in its struct (the handlers drop the error).
pub record Json : Type 0 where
  pub unmarshal : Unmarshal
  pub join_request : Bytes → JoinRoomRequest
  pub timestamp : Bytes → ℤ
  pub archive_request : Bytes → ArchiveRequest
  pub clear_all_key : Bytes → String
  pub kick_request : Bytes → KickRequest
  pub close_key : Bytes → String
  pub checkout_key : Bytes → String

-- The table that Room.init fills.
unfoldable pub router : Json → Router (Bytes → Request)
unfolding make_router register
router j =
    register "checkout" (λ d. checkout (j.checkout_key d))
      (register "close" (λ d. close (j.close_key d))
        (register "onlinelist" (λ d. onlinelist)
          (register "kick" (λ d. kick (j.kick_request d))
            (register "clearall" (λ d. clearall (j.clear_all_key d))
              (register "archive" (λ d. archive (j.archive_request d))
                (register "archivesign" (λ d. archivesign)
                  (register "heartbeat" (λ d. heartbeat (j.timestamp d))
                    (register "login" (λ d. login (j.join_request d))
                      (make_router "request")))))))))

-- Whether something goes to the radio's SingleSendChan.
abbrev pub single_sends : List Effect → Bool
single_sends [] = false
single_sends (through_radio resp c ∷ effects) = true
single_sends (_ ∷ effects) = single_sends effects

-- A COMMAND package. An error of OnMessage, a recovered panic of the handler among them, kicks the
-- client. Once the radio is closed SingleSendChan is, too, and to send on it is such a panic.
unfoldable pub process_command : Surroundings → Json → Bytes → Room → ℕ → Handled
process_command s j unpacked m c = elim (on_message j.unmarshal (router j) unpacked) [
  | fails ↦ kick_client m c
  | ignored ↦ done (m, [])
  | routed request ↦ elim (handle s (request unpacked) m c) [
    | done r ↦ if m.radio.closed && single_sends r.1 then kick_client m c else done r
    | blocks ↦ blocks
    | panics ↦ kick_client m c
  ]
]

-- A package that goes to the radio: only users may send one; any other client is removed, and its
-- goroutine ends. The flag says whether the goroutine goes on. Once the radio is closed its channels
-- are, too, and to send on a closed channel is a panic, also in a select.
abbrev pub pass_on : Effect → Room → ℕ → Outcome (Room × List Effect × Bool)
pass_on e m c =
    if has_user m c
    then (if m.radio.closed then panics else done (m, e ∷ [], true))
    else (do m' ← remove_client m c; done (m', [], false))

-- The package branch of processClient, by the type of the package.
unfoldable pub process_package :
    Surroundings → Json → Package → Room → ℕ → Outcome (Room × List Effect × Bool)
process_package s j p m c =
    if p.package_type == command
    then (do (m', effects) ← process_command s j p.unpacked m c; done (m', effects, true))
    else if p.package_type == drawing
    then pass_on (write_chan p.repacked) m c
    else if p.package_type == message
    then pass_on (send_chan p.repacked) m c
    else done (m, [], true)

-- RoomRuntimeInfo, which dumpRoom writes as JSON.
pub record RoomRuntimeInfo : Type 0 where
  pub key : String
  pub archive_sign : String
  pub port : ℕ
  pub expiration : ℤ
  pub options : RoomOption

unfoldable pub dump_room : Room → RoomRuntimeInfo
dump_room m = record {
  key = m.key;
  archive_sign = m.archive_sign;
  port = m.port;
  expiration = m.expiration;
  options = m.options;
}

-- What Room.init takes from outside: the keys and signs that genSignedKey and genArchiveSign give a
-- new room, the buffered file of an archive sign, and the port that the listener gets when it asks
-- for one, 0 for any; none is an error of the listener.
pub record World : Type 0 where
  pub signed_key : String → String → String
  pub archive_sign : String → String
  pub open_archive : String → Buffered
  pub listen : ℕ → Option ℕ
  pub now : ℕ

-- Room.init, on the fields that ServeRoom or RecoverRoom have set. A room with a key is recovered:
-- it keeps its key and archive sign and asks for its port.
unfoldable pub init : World → RoomRuntimeInfo → Option Room
init w info =
    let recovered : Bool = ltb 0 (len info.key) in
    let key : String =
      if recovered then info.key else w.signed_key info.options.name info.options.password in
    let sign : String = if recovered then info.archive_sign else w.archive_sign info.options.name in
    elim (w.listen (if recovered then info.port else 0)) [
      | none ↦ none
      | some port ↦ some (record {
        radio = make_radio (w.open_archive sign) sign;
        clients = [];
        current_clients_count = pos 0;
        expiration = info.expiration;
        key = key;
        archive_sign = sign;
        port = port;
        options = info.options;
        last_check = w.now;
        going_close = false;
      })
    ]

-- ServeRoom, with the configured expiration, and RecoverRoom.
unfoldable pub serve_room : World → ℤ → RoomOption → Option Room
serve_room w expiration options =
    init w
      (record { key = ""; archive_sign = ""; port = 0; expiration = expiration; options = options })

unfoldable pub recover_room : World → RoomRuntimeInfo → Option Room
recover_room w info = init w info
