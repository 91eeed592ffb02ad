-- ===== src/Room/Runs.antt =====
-- A room at concrete inputs, and its theorems at them.
use mathlib.Core.Logic.{◌↔◌}
use paintty_server_go.Prelude.{
  ℕ, ◌+◌, ◌≡◌, ◌≢◌, refl, true, false, List, [], ◌∷◌, some, none, eq_iff, arith, drop,
}
use paintty_server_go.Prelude.Int.{pos}
use paintty_server_go.Prelude.Maps.{pointer_Eq, load, delete}
use paintty_server_go.BufferedFile.{Buffered}
use paintty_server_go.BufferedFile.Log.{log, IsValid}
use paintty_server_go.Radio.{done, make_radio}
use paintty_server_go.Radio.Tasks.{TaskList}
use paintty_server_go.Radio.Split.{payloads, AllTasks}
use paintty_server_go.Room.{
  Room, Effect, direct_command, close_later, has_user, kick_client, connection_closed,
}
use paintty_server_go.Room.Messages.{clearall, onlinelist, archive_info}
use paintty_server_go.Room.Handlers.{
  Surroundings, refuse_login, handle, handle_join, handle_archive,
}
use paintty_server_go.Room.Serving.{World, dump_room, recover_room}
use paintty_server_go.Room.Access.{
  MayJoin, Kept, handle-guest, handle-wrong_key, handle_join-MayJoin,
}
use paintty_server_go.Room.Counting.{kick_client-connection_closed, recover_room-dump_room}
use paintty_server_go.Radio.{Radio, RadioClient, tick, first_tasks, first_length}
use paintty_server_go.Radio.Tasks.{
  pop_front, fetch_chunk, fetch_and_send, split_chunk, grow, parts, append,
}
use paintty_server_go.BufferedFile.{read_at}
use paintty_server_go.BufferedFile.Disk
use paintty_server_go.Prelude.Int.{◌-ℤ◌, ◌+ℤ◌, int64}
use paintty_server_go.Room.{accept}
use paintty_server_go.Room.Messages.{Request, login}
use paintty_server_go.ErrorCode.{login_pwd_incorrect}
use paintty_server_go.Room.Life.{
  IsCounted, Steps, here as done_steps, step_then, accepts, asks, Steps-IsCounted,
}
use paintty_server_go.Room.Archive.{tasks_of, new_client, archived, handle_archive-tasks_of}
use paintty_server_go.Room.Stream.{IsReady}

-- Two bytes on file and two in a buffer of four.
abbrev strokes : Buffered
strokes = record {
  buffer = 3 ∷ 4 ∷ 0 ∷ 0 ∷ [];
  water_mark = 2;
  file_size = 2;
  whole_size = 4;
  file = record { content = 1 ∷ 2 ∷ []; cursor = 2; is_open = true; outcomes = [] };
  going_close = false;
}

strokes-IsValid : IsValid strokes
strokes-IsValid = record {
  opened = refl;
  at_end = refl;
  on_file = refl;
  in_buffer = omega arith;
  whole = refl;
}

-- Client 1 has logged in, client 2 has not, and client 3 has.
abbrev studio : Room
studio = record {
  radio = make_radio strokes "sign";
  clients =
      (1, record { client_id = "a"; nick_name = "ann" })
      ∷ (2, record { client_id = ""; nick_name = "" })
      ∷ (3, record { client_id = "c"; nick_name = "cid" })
      ∷ [];
  current_clients_count = pos 3;
  expiration = pos 48;
  key = "key";
  archive_sign = "sign";
  port = 4000;
  options = record {
    max_load = pos 8;
    width = pos 720;
    height = pos 480;
    password = "pw";
    welcome_msg = "hi";
    name = "studio";
    empty_close = false;
  };
  last_check = 0;
  going_close = false;
}

abbrev around : Surroundings
around = record { client_id = "b"; sign = "next"; now = 7 }

abbrev here : World
here = record {
  signed_key = λ name password. "other";
  archive_sign = λ name. "other";
  open_archive = λ sign. strokes;
  listen = λ port. some port;
  now = 9;
}

handle-guest_example : handle around onlinelist studio 2 ≡ done (studio, [])
unfolding has_user load
handle-guest_example = handle-guest around onlinelist studio 2 refl refl

handle-wrong_key_example : Kept studio 1 (handle around (clearall "guess") studio 1)
handle-wrong_key_example =
    handle-wrong_key around (clearall "guess") studio 1
      (λ e. ground (arith, (eq_iff "guess" "key").1 e))

handle_join-MayJoin_example :
    (m' : Room) × (effects : List Effect) × (handle_join around
        (record { password = "pw"; name = "bob" })
        studio
        2
      ≡ done (m', effects))
    × ((has_user m' 2 ≡ true) ↔ MayJoin (record { password = "pw"; name = "bob" }) studio 2)
    × ((d : ℕ) → d ≢ 2 → has_user m' d ≡ has_user studio d)
unfolding has_user load
handle_join-MayJoin_example =
    handle_join-MayJoin around (record { password = "pw"; name = "bob" }) studio 2 refl
      (omega arith)

kick_client-connection_closed_run :
    (m₁ m₂ : Room) × (kick_client studio 2 ≡ done (m₁, close_later 2 ∷ []))
    × (connection_closed m₁ 2 ≡ done m₂)
    × (m₂.current_clients_count ≡ pos (0 + 1))
    × (m₂.clients ≡ delete 2 (delete 2 studio.clients))
unfolding make_radio
kick_client-connection_closed_run = kick_client-connection_closed studio 2 0 refl refl (omega arith)

recover_room-dump_room_run :
    (m' : Room) × (recover_room here (dump_room studio) ≡ some m')
    × (dump_room m' ≡ record (dump_room studio) { port = 4000 })
    × (m'.radio ≡ make_radio strokes "sign")
    × (m'.clients ≡ [])
    × (m'.current_clients_count ≡ pos 0)
recover_room-dump_room_run = recover_room-dump_room here studio 4000 (omega arith) refl

handle_archive-tasks_of_example :
    (m' : Room) × (tasks : TaskList) × (handle_archive
        (record { start = pos 1; data_length = pos 2 })
        studio
        1
      ≡ done (
        m',
        direct_command
              (archive_info
                (record { result = true; signature = "sign"; data_length = pos 3; errcode = 0 }))
              1
            ∷ [],
      ))
    × (tasks_of m'.radio 1 ≡ some tasks)
    × (payloads (log strokes) tasks ≡ drop 1 (log strokes))
    × AllTasks tasks
unfolding has_user load make_radio
handle_archive-tasks_of_example =
    handle_archive-tasks_of studio 1 1 2 refl refl strokes-IsValid (omega arith) (omega arith)

studio-IsReady : IsReady studio
unfolding make_radio
studio-IsReady = record {
  free = refl;
  valid = strokes-IsValid;
  calm = refl;
  small = omega arith;
  fresh = refl;
}

abbrev opened : Room
opened = archived studio 1 1

abbrev newcomer : RadioClient
newcomer = new_client studio.radio 1 (pos 1) (pos 3)

abbrev served : Radio
served = record opened.radio { heap = record newcomer { list = [] } ∷ [] }

-- The archive is asked for from its second byte on, and the first round of the new client's timer
-- sends it.
first_round : tick (λ d. none) opened.radio 0 ≡ done (served, 2 ∷ 3 ∷ 4 ∷ [])
unfolding tick fetch_and_send pop_front fetch_chunk read_at Disk.read ◌+ℤ◌ ◌-ℤ◌ int64 make_radio
    split_chunk grow parts first_tasks first_length append
first_round = refl

unknown : load 4 studio.clients ≡ none
unfolding load
unknown = refl

studio-IsCounted : IsCounted studio
studio-IsCounted = record {
  counted = refl;
  nodup = (unfold load in refl, (unfold load in refl, (unfold load in refl, tt)));
  few = omega arith;
}

abbrev joined : Room
joined = accept studio 4

abbrev wrong_login : Request
wrong_login = login (record { password = "wrong"; name = "dan" })

refused : handle around wrong_login joined 4 ≡ refuse_login joined 4 login_pwd_incorrect
unfolding handle handle_join accept
refused = refl

-- Client 4 connects, and its login with a wrong password is refused.
join_and_fail : Steps studio joined
join_and_fail =
    step_then (accepts 4 unknown (omega arith))
      (step_then (asks around wrong_login 4 refl refused) done_steps)

Steps-IsCounted_example : IsCounted joined
Steps-IsCounted_example = Steps-IsCounted studio-IsCounted join_and_fail
