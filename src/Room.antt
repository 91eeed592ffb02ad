-- ===== src/Room.antt =====
-- pkg/Room: a room, its users and the requests that it answers.
-- A client is a number, which stands for its pointer. What a handler sends is listed, in order.
pub mod Messages
pub mod Handlers
pub mod Serving
pub mod Access
pub mod Writers
pub mod Counting
pub mod Archive
pub mod Stream
pub mod Strokes
pub mod Drawing
pub mod Order
pub mod Keys
pub mod Picture
pub mod Private
pub mod Quiet
pub mod Greetings
pub mod Clients
pub mod Changes
pub mod Life
pub mod Kicks
pub mod Overthrow
pub mod Ending
mod Runs
use paintty_server_go.Prelude.{
  ℕ, zero, suc, ◌+◌, ◌-◌, ◌*◌, ◌^◌, Bool, true, false, not, ◌&&◌, ◌||◌, List, [], ◌∷◌, ◌++◌, map,
  Bytes, Option, none, some, String, len, str_eq, ltb, leb, ◌==◌, if◌then◌else◌,
}
use paintty_server_go.Prelude.Int.{ℤ, pos, negsuc, ◌+ℤ◌, ◌-ℤ◌, ◌*ℤ◌, ltb_ℤ, eqb_ℤ, int64, int32}
use paintty_server_go.Prelude.Maps.{pointer_Eq, load, store, delete}
use paintty_server_go.Radio.{Radio, Outcome, done, panics, ◌>>=◌}
use paintty_server_go.Radio
use Messages.{OnlineListItem, Response}

pub record RoomOption : Type 0 where
  pub max_load : ℤ
  pub width : ℤ
  pub height : ℤ
  pub password : String
  pub welcome_msg : String
  pub name : String
  pub empty_close : Bool

pub record RoomUser : Type 0 where
  pub client_id : String
  pub nick_name : String

-- Times are in nanoseconds, `last_check` from a fixed start.
pub record Room : Type 0 where
  pub radio : Radio
  pub clients : List (ℕ × RoomUser)
  pub current_clients_count : ℤ
  pub expiration : ℤ
  pub key : String
  pub archive_sign : String
  pub port : ℕ
  pub options : RoomOption
  pub last_check : ℕ
  pub going_close : Bool

-- What a handler does besides changing the room.
pub data Effect : Type 0 where
  -- directSendCommand and directSendMessage: written to the connection at once
  direct_command : Response → ℕ → Effect
  direct_message : Response → ℕ → Effect
  -- sendCommandTo: through the radio's SingleSendChan
  through_radio : Response → ℕ → Effect
  -- the goroutine that greets a new user after a second
  greet_later : ℕ → Effect
  -- a part for the radio's WriteChan or SendChan, dropped if the radio takes none for five seconds
  write_chan : Bytes → Effect
  send_chan : Bytes → Effect
  -- time.AfterFunc(10 s, target.Close)
  close_later : ℕ → Effect

-- What a method of a room gives: it returns with the room changed and what it sent, waits for ever,
-- or panics.
abbrev pub Handled : Type 0
Handled = Outcome (Room × List Effect)

abbrev pub current_load : Room → ℤ
current_load m = m.current_clients_count

-- OnlineList, in the order in which Range meets the users.
abbrev pub online_items : List (ℕ × RoomUser) → List OnlineListItem
online_items [] = []
online_items ((c, u) ∷ us) =
    record { name = u.nick_name; client_id = u.client_id } ∷ online_items us

-- hasUser: the client is in the map, and its login gave it an id.
unfoldable pub has_user : Room → ℕ → Bool
has_user m c = elim (load c m.clients) [ none ↦ false | some u ↦ ltb 0 (len u.client_id) ]

unfoldable pub find_client_by_id : String → List (ℕ × RoomUser) → Option ℕ
find_client_by_id i [] = none
find_client_by_id i ((c, u) ∷ us) = if str_eq u.client_id i then some c else find_client_by_id i us

-- broadcastCommand: to every client that has logged in.
unfoldable pub broadcast_command : Response → List (ℕ × RoomUser) → List Effect
broadcast_command resp [] = []
broadcast_command resp ((c, u) ∷ us) =
    if ltb 0 (len u.client_id)
    then direct_command resp c ∷ broadcast_command resp us
    else broadcast_command resp us

unfoldable pub remove_client : Room → ℕ → Outcome Room
remove_client m c = do
  radio ← Radio.remove_client m.radio c
  done (record m {
    radio = radio;
    clients = delete c m.clients;
    current_clients_count = int32 (m.current_clients_count -ℤ pos 1);
  })

-- removeAllClient. The count stays as it is.
unfoldable pub remove_all_client : Room → Outcome Room
remove_all_client m = do
  radio ← Radio.remove_all_clients m.radio
  done (record m { radio = radio; clients = [] })

unfoldable pub kick_client : Room → ℕ → Handled
kick_client m c = do m' ← remove_client m c; done (m', close_later c ∷ [])

-- Close: closing GoingClose a second time panics. The listener is not modelled.
unfoldable pub close : Room → Outcome Room
close m = if m.going_close then panics else (do
  radio ← Radio.close m.radio
  radio' ← Radio.remove radio
  done (record m { radio = radio'; going_close = true }))

unfoldable pub process_empty_close : Room → Outcome Room
process_empty_close m =
    if eqb_ℤ m.current_clients_count (pos 0) && m.options.empty_close then close m else done m

abbrev pub hour : ℕ
hour = 3600 * 10 ^ 9

abbrev pub set_empty_close : Room → Room
set_empty_close m = record m { options = record m.options { empty_close = true } }

-- A round of processExpire, an hour after the last, at the time `now`. Once GoingClose is closed
-- its goroutine ends.
unfoldable pub process_expire : ℕ → Room → Outcome Room
process_expire now m =
    if m.going_close
    then done m
    else if ltb_ℤ (int64 (pos hour *ℤ m.expiration)) (pos now -ℤ pos m.last_check)
    then (if eqb_ℤ m.current_clients_count (pos 0) then close m else done (set_empty_close m))
    else done m

-- The branch of Run that accepts a connection.
unfoldable pub accept : Room → ℕ → Room
accept m c = record m {
  clients = store c (record { client_id = ""; nick_name = "" }) m.clients;
  current_clients_count = int32 (m.current_clients_count +ℤ pos 1);
}

-- Where the loop of Run is: before its test of GoingClose, in AcceptTCP, or behind its return.
pub data Turn : Type 0 where
  at_test : Turn
  in_accept : Turn
  returned : Turn

-- The next step of Run's loop, with what AcceptTCP gives, none being an error. Other goroutines have
-- their steps between two of these.
unfoldable pub run_step : Turn → Option ℕ → Room → Turn × Room
run_step at_test conn m = if m.going_close then (returned, m) else (in_accept, m)
run_step in_accept none m = (at_test, m)
run_step in_accept (some c) m = (at_test, accept m c)
run_step returned conn m = (returned, m)

-- The branches of processClient: GoingClose is closed, the package channel is closed, or nothing
-- has come for thirty seconds.
unfoldable pub connection_closed : Room → ℕ → Outcome Room
connection_closed m c = do m' ← remove_client m c; process_empty_close m'

unfoldable pub connection_idle : Room → ℕ → Handled
connection_idle m c = kick_client m c
