-- ===== src/Room/Greetings/Runs.antt =====
-- A room whose time is half over.
use paintty_server_go.Prelude.{◌+◌, ◌*◌, ◌<◌, ◌≡◌, ◌⊎◌, refl, true, false, [], ◌∷◌, arith}
use paintty_server_go.Prelude.Int.{pos, int64, ◌-ℤ◌, ◌*ℤ◌}
use paintty_server_go.Prelude.Maps.{load}
use paintty_server_go.BufferedFile.{Buffered}
use paintty_server_go.Radio.{done, make_radio}
use paintty_server_go.Room.{Room, direct_command, direct_message, hour, process_expire}
use paintty_server_go.Room.Messages.{action, notify_action, welcome_msg}
use paintty_server_go.Config.{str, read_conf_string}
use paintty_server_go.Room.Greetings.{
  left_hours, greet, send_announcement, send_welcome_msg, send_expiration_msg,
}
use paintty_server_go.Room.Greetings.Hours.{expired, left_hours-process_expire}

abbrev archive : Buffered
archive = record {
  buffer = 0 ∷ [];
  water_mark = 0;
  file_size = 0;
  whole_size = 0;
  file = record { content = []; cursor = 0; is_open = true; outcomes = [] };
  going_close = false;
}

abbrev studio : Room
studio = record {
  radio = make_radio archive "sign";
  clients = [];
  current_clients_count = pos 1;
  expiration = pos 48;
  key = "key";
  archive_sign = "sign";
  port = 4000;
  options = record {
    max_load = pos 8;
    width = pos 720;
    height = pos 480;
    password = "";
    welcome_msg = "hi";
    name = "studio";
    empty_close = false;
  };
  last_check = 0;
  going_close = false;
}

greet_test :
    greet (λ n. "24") (("announcement", str "news") ∷ []) (24 * hour) studio 1
    ≡ direct_command (action (notify_action "news\n")) 1
      ∷ direct_message (action (welcome_msg "24\n")) 1
      ∷ direct_message (action (welcome_msg "hi\n")) 1
      ∷ []
unfolding greet send_announcement send_welcome_msg send_expiration_msg read_conf_string load
    left_hours
greet_test = refl

half_over : left_hours (24 * hour) studio ≡ pos 24
unfolding left_hours int64 ◌-ℤ◌ ◌*ℤ◌
half_over = refl

left_hours-process_expire_example :
    ((24 * hour + hour * 24 < 49 * hour) ⊎ (process_expire (49 * hour) studio ≡ done studio))
    × ((49 * hour < 24 * hour + hour * 25) ⊎ (process_expire (49 * hour) studio ≡ expired studio))
left_hours-process_expire_example =
    left_hours-process_expire studio 48 (24 * hour) 24 (49 * hour) refl (omega arith) (omega arith)
      refl (omega arith) (omega arith) half_over
