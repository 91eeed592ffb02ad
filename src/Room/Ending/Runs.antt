-- ===== src/Room/Ending/Runs.antt =====
-- A room of two, which its owner closes.
use mathlib.Core.Option.{some-ne-none}
use paintty_server_go.Prelude.{◌≡◌, refl, true, false, List, [], ◌∷◌, none, arith}
use paintty_server_go.Prelude.Int.{pos, negsuc}
use paintty_server_go.Prelude.Maps.{pointer_Eq, string_Eq, load, delete}
use paintty_server_go.BufferedFile.{Buffered}
use paintty_server_go.Radio.{done, make_radio}
use paintty_server_go.Room.{Room, Effect, has_user, at_test, returned, run_step}
use paintty_server_go.Room.Handlers.{Surroundings, handle}
use paintty_server_go.Room.Messages.{close}
use paintty_server_go.Room.Life.{IsCounted}
use paintty_server_go.RoomManager.{RoomManager, wait_room_closed, db_delete, db_key}
use paintty_server_go.Room.Ending.{IsOpen, leave_all, handle-leave_all}

abbrev archive : Buffered
archive = record {
  buffer = 0 ∷ [];
  water_mark = 0;
  file_size = 0;
  whole_size = 0;
  file = record { content = []; cursor = 0; is_open = true; outcomes = [] };
  going_close = false;
}

-- Clients 1 and 2 have logged in.
abbrev duet : Room
duet = record {
  radio = make_radio archive "sign";
  clients =
      (1, record { client_id = "a"; nick_name = "ann" })
      ∷ (2, record { client_id = "b"; nick_name = "bob" })
      ∷ [];
  current_clients_count = pos 2;
  expiration = pos 48;
  key = "key";
  archive_sign = "sign";
  port = 4000;
  options = record {
    max_load = pos 8;
    width = pos 720;
    height = pos 480;
    password = "";
    welcome_msg = "";
    name = "duet";
    empty_close = true;
  };
  last_check = 0;
  going_close = false;
}

abbrev around : Surroundings
around = record { client_id = "c"; sign = "next"; now = 7 }

-- A hall in which the room is listed.
abbrev hall : RoomManager
hall = record { rooms = ("duet", duet) ∷ []; current_room_count = negsuc 0 }

duet-IsCounted : IsCounted duet
unfolding load
duet-IsCounted = record { counted = refl; nodup = (refl, (refl, tt)); few = omega arith }

duet-IsOpen : IsOpen duet
unfolding make_radio
duet-IsOpen = record { runs = refl; on_air = refl; free = refl; file_open = refl }

handle-leave_all_example :
    (m₁ m₂ : Room) × (effects : List Effect) × (handle around (close "key") duet 1
      ≡ done (m₁, effects))
    × (leave_all (2 ∷ 1 ∷ []) m₁ ≡ done m₂)
    × (m₂.clients ≡ [])
    × (run_step at_test none m₂ ≡ (returned, m₂))
    × (load "duet" (wait_room_closed "duet" hall).0.rooms ≡ none)
    × ((wait_room_closed "duet" hall).1 ≡ db_delete (db_key "duet") ∷ [])
unfolding has_user load delete
handle-leave_all_example =
    handle-leave_all around duet hall 1 (2 ∷ 1 ∷ []) duet-IsCounted duet-IsOpen refl
      ((λ e. some-ne-none _ e), ((λ e. some-ne-none _ e), refl))
