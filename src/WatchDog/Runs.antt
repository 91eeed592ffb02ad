-- ===== src/WatchDog/Runs.antt =====
-- The watchdog at concrete inputs, and its theorems at them.
use mathlib.Core.List.{flatten}
use paintty_server_go.Prelude.{
  ◌+◌, ◌*◌, ◌≤◌, ◌≡◌, refl, true, false, List, [], ◌∷◌, Bytes, Option, none, some, Error, arith,
}
use paintty_server_go.Prelude.Int.{pos}
use paintty_server_go.Common.{Zlib, qcompress}
use paintty_server_go.BufferedFile.{Buffered}
use paintty_server_go.Socket.Pack.{
  manager, protocol_pack, header_bits, buffer_to_pack, assamble_pack,
}
use paintty_server_go.Socket.Reader.{Package}
use paintty_server_go.Socket.Client.{
  make_socket_client, close, run, send_manager_pack, send_pack, write_raw,
}
use paintty_server_go.Router.{Unmarshal, make_router, on_message}
use paintty_server_go.Room.Serving.{World}
use paintty_server_go.RoomManager.{RoomManager, handle_room_list}
use paintty_server_go.RoomManager.Serving.{Json, rooms, process_package}
use paintty_server_go.WatchDog.{
  questions, silence, ends, comes, closes, killed, waits, Start, start_proc, dial, round, main,
  send_message, watch, seems_dead,
}
use paintty_server_go.WatchDog.Silence.{
  Packages, AllNear, total, after, round-silence, round-near, main-ends,
}
use paintty_server_go.WatchDog.Questions.{answers as in_time, round-answers, round_late}
use paintty_server_go.WatchDog.Answers.{send_message-answer}

-- Every message is an object in which each member is "roomlist".
abbrev parse : Unmarshal
parse d = some (λ key. some "roomlist")

abbrev answer : Package
answer = record { package_type = manager; unpacked = 5 ∷ []; repacked = [] }

abbrev answers : Packages
answers = (11, answer) ∷ (10, answer) ∷ []

answer_fine : closes parse answer ≡ false
unfolding closes on_message make_router
answer_fine = ground arith

answers-AllNear : AllNear parse answers
answers-AllNear = (omega arith, answer_fine, (omega arith, answer_fine, tt))

-- Two answers, and then nothing.
abbrev hanging : Start
hanging = record { starts = true; dials = true; traffic = after answers silence; exit = none }

round-silence_example : round parse hanging ≡ some (killed 61)
round-silence_example =
    round-silence parse hanging answers silence refl refl refl answers-AllNear tt
      (λ e h. ground (arith, h))

-- The kill that round-near_run is about.
hanging_killed : round parse hanging ≡ some (killed 61)
unfolding round start_proc dial watch seems_dead closes on_message make_router
hanging_killed = ground arith

round-near_run : 40 + 11 ≤ 61
round-near_run =
    round-near parse hanging ((11, answer) ∷ []) (comes 10 answer silence) 61 refl
      (omega arith, answer_fine, tt) hanging_killed

-- Another answer.
abbrev short_answer : Package
short_answer = record { package_type = manager; unpacked = []; repacked = 6 ∷ [] }

short_answer_fine : closes parse short_answer ≡ false
unfolding closes on_message make_router
short_answer_fine = ground arith

abbrev both_answers : Packages
both_answers = (11, answer) ∷ (10, short_answer) ∷ []

abbrev hanging_later : Start
hanging_later = record hanging { traffic = after both_answers silence }

hanging_later_killed : round parse hanging_later ≡ some (killed 61)
unfolding round start_proc dial watch seems_dead closes on_message make_router
hanging_later_killed = ground arith

-- Both answers come a second after their questions.
round-answers_example :
    (40 + total (in_time 10 (questions 2 none 10) ((1, answer) ∷ (1, short_answer) ∷ [])) ≤ 61)
    × (40 + 10 * 2 ≤ 61)
unfolding questions
round-answers_example =
    round-answers parse hanging_later ((1, answer) ∷ (1, short_answer) ∷ []) silence 61 refl
      (omega arith, omega arith, answer_fine, (omega arith, omega arith, short_answer_fine, tt))
      hanging_later_killed

abbrev slow : Start
slow = record { starts = true; dials = true; traffic = comes 30 answer silence; exit = none }

round_late_run : round parse slow ≡ some (killed 40)
unfolding questions
round_late_run =
    round_late parse slow answer 20 silence refl refl refl (omega arith) (λ e h. ground (arith, h))

abbrev cut_off : Start
cut_off = record { starts = true; dials = true; traffic = after answers (ends 4); exit = none }

main-ends_example : main parse (cut_off ∷ hanging ∷ []) ≡ waits ∷ []
main-ends_example =
    main-ends parse cut_off (hanging ∷ []) answers 4 refl refl refl (omega arith) answers-AllNear
      refl

-- A stored stream.
abbrev stored : Zlib
stored = record { deflate = λ d. d; inflate = λ d. some d; inflate-deflate = λ d. refl }

abbrev no_archive : Buffered
no_archive = record {
  buffer = 0 ∷ [];
  water_mark = 0;
  file_size = 0;
  whole_size = 0;
  file = record { content = []; cursor = 0; is_open = true; outcomes = [] };
  going_close = false;
}

abbrev outside : World
outside = record {
  signed_key = λ name password. "key";
  archive_sign = λ name. "sign";
  open_archive = λ sign. no_archive;
  listen = λ port. none;
  now = 0;
}

abbrev hall : RoomManager
hall = record { rooms = []; current_room_count = pos 0 }

abbrev json : Json
json = record { unmarshal = parse; new_room_request = λ d. none }

abbrev write : Bytes → Option Error
write d = none

-- The one byte 5 stands for the question as for the answer.
abbrev chunks : List Bytes
chunks = (0 ∷ 0 ∷ 0 ∷ 6 ∷ 1 ∷ 0 ∷ []) ∷ (0 ∷ 0 ∷ 1 ∷ 5 ∷ []) ∷ []

send_message-answer_example :
    (question answer : Package) × (run stored (λ a. true) make_socket_client chunks
      ≡ some (question ∷ [], close (λ a. true) make_socket_client))
    × (process_package [] outside json question hall ≡ record {
      after = hall;
      calls = [];
      replies = rooms (handle_room_list hall) ∷ [];
      closes = false;
    })
    × (run stored (λ a. true) make_socket_client chunks
        ≡ some (answer ∷ [], close (λ a. true) make_socket_client))
    × (closes parse answer ≡ false)
unfolding send_message send_manager_pack send_pack write_raw assamble_pack buffer_to_pack
    header_bits protocol_pack qcompress flatten
send_message-answer_example =
    send_message-answer stored [] outside json hall parse (λ s. 5 ∷ []) (λ r. 5 ∷ []) write write
      chunks chunks (λ a. true) (λ a. true) make_socket_client make_socket_client
      (λ key. some "roomlist") (λ key. some "roomlist") "roomlist" (omega arith) (omega arith) refl
      refl refl refl refl refl
