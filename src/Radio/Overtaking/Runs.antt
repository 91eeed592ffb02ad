-- ===== src/Radio/Overtaking/Runs.antt =====
-- A client whose two chunks arrive the wrong way round.
use mathlib.Core.List.{Permᴰ}
use paintty_server_go.Prelude.{
  ◌≡◌, refl, true, false, List, [], ◌∷◌, ◌++◌, Bytes, Option, none, Error, arith,
}
use paintty_server_go.BufferedFile.{Buffered}
use paintty_server_go.BufferedFile.Log.{IsValid}
use paintty_server_go.Radio.{RadioClient, Delivery, Radio, done, deliver, tick, take_chunk}
use paintty_server_go.Radio.Tasks.{
  TaskList, ram, pop_front, fetch_chunk, fetch_and_send, append_to_pendings, append, append_after,
  pop_back,
}
use paintty_server_go.Radio.Owed.{owed, IsFine}
use paintty_server_go.Radio.Overtaking.{Muddle, over, arrives, fires, Muddle-owed}

abbrev archive : Buffered
archive = record {
  buffer = 3 ∷ 4 ∷ 0 ∷ 0 ∷ [];
  water_mark = 2;
  file_size = 2;
  whole_size = 4;
  file = record { content = 1 ∷ 2 ∷ []; cursor = 2; is_open = true; outcomes = [] };
  going_close = false;
}

archive-IsValid : IsValid archive
archive-IsValid = record {
  opened = refl;
  at_end = refl;
  on_file = refl;
  in_buffer = omega arith;
  whole = refl;
}

abbrev viewer : TaskList → RadioClient
viewer list = record { client = 7; list = list; running = true }

abbrev on_air : TaskList → List Delivery → Radio
on_air list in_flight = record {
  heap = viewer list ∷ [];
  clients = (7, 0) ∷ [];
  file = archive;
  signature = "sign";
  in_flight = in_flight;
  closed = false;
  locked = false;
}

abbrev on_way : Bytes → Delivery
on_way d = record { to = 0; chunk = ram d }

abbrev hurried : Radio
hurried = on_air [] (on_way (8 ∷ []) ∷ on_way (9 ∷ []) ∷ [])

abbrev quiet : Bytes → Option Error
quiet d = none

nine_first : deliver hurried 1 ≡ done (on_air (ram (9 ∷ []) ∷ []) (on_way (8 ∷ []) ∷ []))
unfolding deliver take_chunk append_to_pendings append
nine_first = refl

eight_later :
    deliver (on_air (ram (9 ∷ []) ∷ []) (on_way (8 ∷ []) ∷ [])) 0
    ≡ done (on_air (ram (9 ∷ []) ∷ ram (8 ∷ []) ∷ []) [])
unfolding deliver take_chunk append_to_pendings append append_after pop_back
eight_later = refl

nine_goes :
    tick quiet (on_air (ram (9 ∷ []) ∷ ram (8 ∷ []) ∷ []) []) 0
    ≡ done (on_air (ram (8 ∷ []) ∷ []) [], 9 ∷ [])
unfolding tick fetch_and_send pop_front fetch_chunk
nine_goes = refl

abbrev muddled : Muddle 0 hurried (9 ∷ []) [] (on_air (ram (8 ∷ []) ∷ []) [])
muddled = arrives 1 (on_way (9 ∷ [])) (viewer []) refl refl refl refl nine_first (
    arrives 0 (on_way (8 ∷ [])) (viewer (ram (9 ∷ []) ∷ [])) refl refl refl refl eight_later
      (fires quiet (viewer (ram (9 ∷ []) ∷ ram (8 ∷ []) ∷ [])) refl refl nine_goes over))

hurried-IsFine : IsFine hurried 0
hurried-IsFine = record {
  free = refl;
  valid = archive-IsValid;
  calm = refl;
  small = omega arith;
  tasks = (omega arith, (omega arith, tt));
  inside = tt;
}

-- 9 was sent and 8 is owed, while 8 and 9 were owed in that order.
Muddle-owed_example :
    Permᴰ ((9 ∷ []) ++ owed (on_air (ram (8 ∷ []) ∷ []) []) 0) (owed hurried 0 ++ [])
    × IsFine (on_air (ram (8 ∷ []) ∷ []) []) 0
Muddle-owed_example = Muddle-owed 0 hurried-IsFine muddled
