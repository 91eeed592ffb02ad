-- ===== src/Room/Kicks/Runs.antt =====
-- A room in which one client is kicked, and another one logs in.
use paintty_server_go.Prelude.{ℕ, ◌≡◌, refl, true, false, List, [], ◌∷◌, arith}
use paintty_server_go.Prelude.Int.{pos, ◌+ℤ◌, ◌-ℤ◌, ◌≤ℤ◌, int32}
use paintty_server_go.Prelude.Maps.{load, delete}
use paintty_server_go.BufferedFile.{Buffered}
use paintty_server_go.Radio.{Radio, done, make_radio}
use paintty_server_go.Radio
use paintty_server_go.Room.{
  Room, RoomUser, Effect, close_later, kick_client, remove_client, connection_closed,
  process_empty_close, has_user,
}
use paintty_server_go.Room.Handlers.{Surroundings, handle_join}
use paintty_server_go.Room.Life.{IsCounted}
use paintty_server_go.Room.Kicks.{
  Steps, here, step_then, kicks, ends, Steps-count, Steps-handle_join,
}
use paintty_server_go.Room.Clients.{Clients}
use paintty_server_go.Prelude.Int.{ℤ}

abbrev archive : Buffered
archive = record {
  buffer = 0 ∷ [];
  water_mark = 0;
  file_size = 0;
  whole_size = 0;
  file = record { content = []; cursor = 0; is_open = true; outcomes = [] };
  going_close = false;
}

abbrev studio : Clients → ℤ → Room
studio clients count = record {
  radio = make_radio archive "sign";
  clients = clients;
  current_clients_count = count;
  expiration = pos 48;
  key = "key";
  archive_sign = "sign";
  port = 4000;
  options = record {
    max_load = pos 8;
    width = pos 720;
    height = pos 480;
    password = "pw";
    welcome_msg = "";
    name = "studio";
    empty_close = false;
  };
  last_check = 0;
  going_close = false;
}

abbrev ann : ℕ × RoomUser
ann = (1, record { client_id = "a"; nick_name = "ann" })

abbrev guest : ℕ × RoomUser
guest = (2, record { client_id = ""; nick_name = "" })

abbrev full : Room
full = studio (ann ∷ guest ∷ []) (pos 2)

abbrev after : Room
after = studio (guest ∷ []) (pos 0)

full-IsCounted : IsCounted full
full-IsCounted = record {
  counted = refl;
  nodup = (unfold load in refl, (unfold load in refl, tt));
  few = omega arith;
}

kick_ann : kick_client full 1 ≡ done (studio (guest ∷ []) (pos 1), close_later 1 ∷ [])
unfolding kick_client remove_client Radio.remove_client make_radio delete int32 ◌-ℤ◌
kick_ann = refl

end_ann : connection_closed (studio (guest ∷ []) (pos 1)) 1 ≡ done after
unfolding connection_closed remove_client process_empty_close Radio.remove_client make_radio delete
    int32 ◌-ℤ◌
end_ann = refl

kicked : Steps 2 full after
kicked = step_then (kicks 1 kick_ann) (step_then (ends 1 end_ann) here)

Steps-count_example : (pos 0 ≤ℤ pos 1) × (pos 1 ≤ℤ pos 0 +ℤ pos 2)
Steps-count_example = Steps-count (omega arith) full-IsCounted kicked

abbrev around : Surroundings
around = record { client_id = "b"; sign = "next"; now = 7 }

guest_waits : has_user after 2 ≡ false
unfolding has_user load
guest_waits = refl

Steps-handle_join_example :
    (m'' : Room) × (effects : List Effect) × (handle_join around
        (record { password = "pw"; name = "bob" })
        after
        2
      ≡ done (m'', effects))
    × (has_user m'' 2 ≡ true)
unfolding load
Steps-handle_join_example =
    Steps-handle_join around (record { password = "pw"; name = "bob" }) 2 (omega arith)
      full-IsCounted kicked (omega arith) refl (omega arith) (omega arith) (λ e. ground (arith, e))
      guest_waits (omega arith)
