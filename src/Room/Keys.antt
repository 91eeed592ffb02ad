-- ===== src/Room/Keys.antt =====
-- The keys, ids and signs of pkg/Room/Utils.go, and what Room.init and the handlers make of them.
-- xxhash, the base-32 format of strconv, the bytes of a string and hex are parameters.
mod Runs
use Prim.Native.String
use paintty_server_go.Prelude.{
  ℕ, ◌≡◌, refl, sym, ap, ◌∙◌, true, List, [], ◌∷◌, ◌++◌, Bytes, Option, none, some, String, len,
  arith, eq_iff, ltb, str_eq, if◌then◌else◌, Option-cases, inl, inr,
}
use paintty_server_go.Prelude.Int.{ℤ}
use paintty_server_go.BufferedFile.{Buffered}
use paintty_server_go.Config.{ConfMap, read_conf_bytes}
use paintty_server_go.Radio.{done}
use paintty_server_go.Room.{
  Room, RoomOption, Effect, through_radio, broadcast_command, has_user, set_empty_close,
}
use paintty_server_go.Room.Messages.{close, closed, action, close_action}
use paintty_server_go.Room.Handlers.{Surroundings, handle, handle_close}
use paintty_server_go.Room.Serving.{World, init, serve_room}

pub record Hashing : Type 0 where
  pub sum64 : Bytes → ℕ
  pub format_uint : ℕ → String
  pub utf8 : String → Bytes
  pub encode_to_string : Bytes → String

unfoldable pub gen_signed_key : Hashing → ConfMap → Bytes → String
gen_signed_key h confs source =
    h.format_uint (h.sum64 (source ++ read_conf_bytes "globalSaltHash" confs))

-- `time` is what MarshalBinary makes of the time, none its error.
unfoldable pub gen_client_id : Hashing → ConfMap → Option Bytes → Room → String
gen_client_id h confs time m =
    let time_data : Bytes = elim time [
      | none ↦ h.utf8 "asdasdasdfuweyfiaiuehmoixzwe"
      | some d ↦ d
    ] in
    let source : Bytes =
      (time_data ++ h.utf8 m.options.name) ++ read_conf_bytes "globalSaltHash" confs in
    h.format_uint (h.sum64 source)

-- `buf` is what randbo gives.
unfoldable pub gen_archive_sign : Hashing → Bytes → String → String
gen_archive_sign h buf name =
    h.format_uint (h.sum64 (h.utf8 (String.◌++◌ name (h.encode_to_string buf))))

-- What Room.init takes from outside, with its keys and signs.
unfoldable pub world : Hashing → ConfMap → Bytes → (String → Buffered) → (ℕ → Option ℕ) → ℕ → World
world h confs buf open_archive listen now = record {
  signed_key = λ name password. gen_signed_key h confs (h.utf8 name ++ h.utf8 password);
  archive_sign = gen_archive_sign h buf;
  open_archive = open_archive;
  listen = listen;
  now = now;
}

-- What a handler takes from outside.
unfoldable pub surroundings : Hashing → ConfMap → Option Bytes → Bytes → ℕ → Room → Surroundings
surroundings h confs time buf now m = record {
  client_id = gen_client_id h confs time m;
  sign = gen_archive_sign h buf m.radio.signature;
  now = now;
}

serve_room_key :
    (w : World) (expiration : ℤ) (o : RoomOption) (m : Room)
    → serve_room w expiration o ≡ some m
    → m.key ≡ w.signed_key o.name o.password
unfolding serve_room init
serve_room_key w expiration o m e = elim (Option-cases (w.listen 0)) [
  | inl deaf ↦ absurd (ground (arith, deaf, e))
  | inr (port, listens) ↦ ground (arith, listens, e)
]

-- Two rooms whose name and password make the same bytes, one after the other, have the same key, as
-- long as the salt is the same: the name ab with the password c, and the name a with the password bc,
-- or a name and password that someone else used before. With the key of the one, any user of the
-- other has it closed as soon as it is empty.
pub serve_room-close :
    (h : Hashing) (confs confs' : ConfMap) (buf buf' : Bytes) (open_archive : String → Buffered)
    (listen listen' : ℕ → Option ℕ) (now now' : ℕ) (expiration expiration' : ℤ) (o o' : RoomOption)
    (m m' r : Room) (s : Surroundings) (c : ℕ)
    → read_conf_bytes "globalSaltHash" confs ≡ read_conf_bytes "globalSaltHash" confs'
    → h.utf8 o.name ++ h.utf8 o.password ≡ h.utf8 o'.name ++ h.utf8 o'.password
    → serve_room (world h confs buf open_archive listen now) expiration o ≡ some m
    → serve_room (world h confs' buf' open_archive listen' now') expiration' o' ≡ some m'
    → r.key ≡ m'.key
    → has_user r c ≡ true
    → (effects : List Effect) × (m.key ≡ m'.key)
      × (handle s (close m.key) r c ≡ done (set_empty_close r, effects))
unfolding world gen_signed_key handle handle_close
serve_room-close h confs confs' buf buf' open_archive listen listen' now now' expiration expiration'
      o o' m m' r s c salt same opens opens' key user =
    let hash : Bytes → String = λ b. h.format_uint (h.sum64 b) in
    let keys : m.key ≡ m'.key =
      serve_room_key (world h confs buf open_archive listen now) expiration o m opens
      ∙ ap (λ b. hash (b ++ read_conf_bytes "globalSaltHash" confs)) same
      ∙ ap (λ b. hash ((h.utf8 o'.name ++ h.utf8 o'.password) ++ b)) salt
      ∙ sym (
          serve_room_key (world h confs' buf' open_archive listen' now') expiration' o' m'
            opens') in
    let fits : str_eq m.key r.key ≡ true = (eq_iff m.key r.key).1 (keys ∙ sym key) in
    (
      through_radio (closed true) c ∷ broadcast_command (action (close_action 501)) r.clients,
      keys,
      ground (arith, fits, user),
    )
