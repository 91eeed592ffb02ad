-- ===== src/RoomManager/Runs.antt =====
-- The hall at concrete inputs, and its theorems at them.
use paintty_server_go.Prelude.{
  ℕ, ◌<◌, ◌≡◌, ◌≢◌, ◌⊎◌, refl, sym, ap, ◌∙◌, true, false, List, [], ◌∷◌, some, none, String, arith,
  leb, if◌then◌else◌,
}
use paintty_server_go.Prelude.Int.{pos, negsuc, ◌-ℤ◌, ◌*ℤ◌, int64, int32}
use paintty_server_go.Prelude.Maps.{string_Eq, load, store, delete, load-store, load-delete}
use paintty_server_go.BufferedFile.{Buffered}
use paintty_server_go.Config.{ConfMap, int, read_conf_int}
use paintty_server_go.ErrorCode.{new_room_too_many_rooms}
use paintty_server_go.Room.{RoomOption}
use paintty_server_go.Room.Serving.{World, init, serve_room}
use paintty_server_go.RoomManager.{limit_room_option, handle_new_room, recovery}
use paintty_server_go.RoomManager.Count.{request, closed, step, run, fresh, run-ne-too_many_rooms}
use mathlib.Core.Option
use mathlib.Core.Path.{subst}
use paintty_server_go.Socket.Pack.{manager}
use paintty_server_go.Socket.Reader.{Package}
use paintty_server_go.Room.Serving.{RoomRuntimeInfo, dump_room}
use paintty_server_go.RoomManager.{wait_room_closed, shorten_rooms, db_key}
use paintty_server_go.RoomManager.Count.{Event}
use paintty_server_go.RoomManager.Database.{
  Database, perform, calls_of, run_db, Mirrors, run_db-Mirrors, db_key_same,
}
use paintty_server_go.RoomManager.Restart.{
  last_named, recovery-run_db, Hours, now, later, shorten_rooms-Hours,
}
use paintty_server_go.RoomManager.Serving.{
  Json, bound, refused_port, listen, process_package, process_packages,
}
use paintty_server_go.RoomManager.Sessions.{served, process_packages-Mirrors}
use paintty_server_go.RoomManager.Listening.{listen-first}
use paintty_server_go.RoomManager.Replies.{IsOrderly, process_package-IsOrderly}

abbrev one_room : ConfMap
one_room = ("max_room_count", int (pos 1)) ∷ []

abbrev lobby : RoomOption
lobby = record {
  max_load = pos 8;
  width = pos 720;
  height = pos 480;
  password = "";
  welcome_msg = "hi";
  name = "lobby";
  empty_close = false;
}

abbrev attic : RoomOption
attic = record lobby { name = "attic" }

abbrev no_archive : Buffered
no_archive = record {
  buffer = 0 ∷ [];
  water_mark = 0;
  file_size = 0;
  whole_size = 0;
  file = record { content = []; cursor = 0; is_open = true; outcomes = [] };
  going_close = false;
}

abbrev here : World
here = record {
  signed_key = λ name password. "key";
  archive_sign = λ name. "sign";
  open_archive = λ sign. no_archive;
  listen = λ port. some 4000;
  now = 0;
}

-- Each of two new rooms takes one off the count.
count_two :
    (run one_room (request here lobby ∷ request here attic ∷ []) fresh).current_room_count
    ≡ negsuc 1
unfolding run step handle_new_room limit_room_option serve_room init read_conf_int load store int32
    int64 ◌-ℤ◌ ◌*ℤ◌
count_two = refl

-- A product that wraps around to 2 is in the range of a canvas.
wrapped_canvas :
    limit_room_option one_room fresh
      (record lobby { width = pos 3; height = pos 6148914691236517206 })
    ≡ 0
unfolding limit_room_option read_conf_int load int64 ◌*ℤ◌
wrapped_canvas = refl

run-ne-too_many_rooms_example :
    limit_room_option one_room
      (run one_room
        (request here lobby ∷ closed "lobby" ∷ request here lobby ∷ [])
        (recovery [] fresh))
      attic
    ≢ new_room_too_many_rooms
unfolding read_conf_int load
run-ne-too_many_rooms_example =
    run-ne-too_many_rooms one_room []
      (request here lobby ∷ closed "lobby" ∷ request here lobby ∷ []) attic (omega arith)
      (omega arith)

-- leveldb as an association list.
abbrev table : Database
table = record {
  State = List (String × RoomRuntimeInfo);
  get = load;
  put = store;
  delete = delete;
  get-put = λ k j info d. load-store k j info d;
  get-delete = λ k j d. load-delete k j d;
}

abbrev history : List Event
history = request here lobby ∷ request here attic ∷ closed "lobby" ∷ []

run_db-Mirrors_run : Mirrors table (run_db table one_room history (fresh, []))
run_db-Mirrors_run = run_db-Mirrors table one_room history fresh [] (λ name. unfold load in refl)

-- The attic is what is left in the database.
abbrev kept : RoomRuntimeInfo
kept = record {
  expiration = pos 0;
  key = "key";
  archive_sign = "sign";
  port = 4000;
  options = attic;
}

history_test : (run_db table one_room history (fresh, [])).1 ≡ ("room-attic", kept) ∷ []
unfolding run_db perform calls_of step handle_new_room wait_room_closed limit_room_option serve_room
    init dump_room read_conf_int load store delete int32 int64 ◌-ℤ◌ ◌*ℤ◌
history_test = refl

abbrev two_hours : RoomRuntimeInfo
two_hours = record kept { expiration = pos 2 }

-- The only key of the table.
only_attic :
    (n : String)
    → last_named n ((kept, here) ∷ []) none ≡ load (db_key n) (("room-attic", kept) ∷ [])
unfolding load
only_attic n = sym (ap (λ b. if b then some kept else none) (db_key_same "attic" n))

recovery-run_db_example :
    Option.map dump_room (load "attic" (recovery ((kept, here) ∷ []) fresh).rooms)
    ≡ Option.map dump_room (load "attic" (run_db table one_room history (fresh, [])).0.rooms)
recovery-run_db_example =
    recovery-run_db table one_room history [] ((kept, here) ∷ []) "attic" (λ k. unfold load in refl)
      ((omega arith, refl), tt) (λ n. only_attic n ∙ ap (load (db_key n)) (sym history_test))

abbrev stored_rooms : List (String × RoomRuntimeInfo)
stored_rooms = ("room-attic", two_hours) ∷ []

abbrev an_hour_later : List (String × RoomRuntimeInfo)
an_hour_later = ("room-attic", record two_hours { expiration = pos 1 }) ∷ []

round_test : perform table (shorten_rooms stored_rooms) stored_rooms ≡ an_hour_later
unfolding perform shorten_rooms store ◌-ℤ◌
round_test = refl

one_hour_later : Hours table 1 stored_rooms an_hour_later
unfolding load
one_hour_later = later stored_rooms (refl, tt) (λ k. refl) (subst (Hours table 0 _) round_test now)

stored_attic : load {K = String} "room-attic" stored_rooms ≡ some two_hours
unfolding load
stored_attic = refl

shorten_rooms-Hours_example :
    load {K = String} "room-attic" an_hour_later ≡ some (record two_hours { expiration = pos 1 })
shorten_rooms-Hours_example =
    shorten_rooms-Hours table "room-attic" 2 two_hours stored_attic refl (omega arith)
      one_hour_later

listen-first_run :
    ((k : ℕ) × (k < 20)
      × (leb 3 k ≡ true)
      × ((j : ℕ) → j < k → leb 3 j ≡ false)
      × (listen (leb 3) ≡ bound k))
    ⊎ (((j : ℕ) → j < 20 → leb 3 j ≡ false) × (listen (leb 3) ≡ refused_port))
listen-first_run = listen-first (leb 3)

-- Every package is a request of the room list, or of the lobby.
abbrev parser : Json
parser = record {
  unmarshal = λ d. some (λ key. some "newroom");
  new_room_request = λ d. some lobby;
}

abbrev newroom_package : Package
newroom_package = record { package_type = manager; unpacked = []; repacked = [] }

process_package-IsOrderly_example :
    IsOrderly fresh (process_package one_room here parser newroom_package fresh)
process_package-IsOrderly_example =
    process_package-IsOrderly one_room here parser newroom_package fresh

-- The first request opens the lobby, and the second is refused, as its name is taken.
process_packages-Mirrors_example : Mirrors table (
    served table
      (process_packages one_room parser
        ((here, newroom_package) ∷ (here, newroom_package) ∷ [])
        fresh)
      [])
process_packages-Mirrors_example =
    process_packages-Mirrors table one_room parser
      ((here, newroom_package) ∷ (here, newroom_package) ∷ []) fresh []
      (λ name. unfold load in refl)
