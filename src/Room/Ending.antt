-- ===== src/Room/Ending.antt =====
-- The end of a room: its owner closes it, and its clients leave.
mod Runs
use paintty_server_go.Prelude.{
  ℕ, zero, suc, ◌+◌, ◌^◌, ◌<◌, ◌≡◌, ◌≢◌, refl, sym, ap, ◌∙◌, true, false, List, [], ◌∷◌, Option,
  none, some, arith, length, eq_iff, str_eq,
}
use paintty_server_go.Prelude.Int.{ℤ, pos, ◌-ℤ◌, int32, eqb_ℤ}
use paintty_server_go.Prelude.Maps.{pointer_Eq, string_Eq, load, delete, load-delete}
use paintty_server_go.Radio.{Radio, Outcome, done, ◌>>=◌}
use paintty_server_go.Room.{
  Room, RoomUser, Effect, through_radio, broadcast_command, connection_closed, remove_client,
  process_empty_close, close, has_user, set_empty_close, Turn, at_test, returned, run_step,
}
use paintty_server_go.Room.Messages.{closed, action, close_action}
use paintty_server_go.Room.Messages
use paintty_server_go.Room.Handlers.{Surroundings, handle, handle_close}
use paintty_server_go.Room.Clients.{Clients, NodupClients, delete-NodupClients, length-delete}
use paintty_server_go.Room.Life.{IsCounted, one_less}
use paintty_server_go.Room.Counting.{removed, remove_client_lem, stays_open}
use paintty_server_go.Room.Overthrow.{close_lem}
use paintty_server_go.RoomManager.{RoomManager, db_delete, db_key, wait_room_closed}

-- Clients leave, one after the other.
abbrev pub leave_all : List ℕ → Room → Outcome Room
leave_all [] m = done m
leave_all (c ∷ cs) m = connection_closed m c >>= leave_all cs

-- The room is open, its radio on the air, its archive not closed, and no mutex held for ever.
pub record IsOpen (m : Room) : Type 0 where
  pub runs : m.going_close ≡ false
  pub on_air : m.radio.closed ≡ false
  pub free : m.radio.locked ≡ false
  pub file_open : m.radio.file.going_close ≡ false

-- The clients are those of the map, each once, in some order.
abbrev pub Leaving : List ℕ → Clients → Type 0
Leaving [] clients = length clients ≡ 0
Leaving (c ∷ cs) clients = (load c clients ≢ none) × Leaving cs (delete c clients)

nobody : (clients : Clients) → length clients ≡ 0 → clients ≡ []
nobody [] h = refl
nobody (x ∷ clients) h = absurd (omega (arith, h))

no_user : (m : Room) (c : ℕ) → m.clients ≡ [] → has_user m c ≡ false
unfolding has_user load
no_user m c empty = rw empty refl

-- A room whose count is the number of its clients, and that closes when it is empty.
record IsEnding (m : Room) : Type 0 where
  at_work : IsOpen m
  ending : m.options.empty_close ≡ true
  counted : IsCounted m

-- The room without a client of its map.
removed-IsCounted :
    (m : Room) (c : ℕ) → IsCounted m → load c m.clients ≢ none → IsCounted (removed m c)
removed-IsCounted m c h there =
    let shorter : suc (length (delete c m.clients)) ≡ length m.clients =
      length-delete c m.clients h.nodup there in
    record {
      counted =
          ap (λ (x : ℤ). int32 (x -ℤ pos 1)) (h.counted ∙ ap pos (sym shorter))
          ∙ one_less (length (delete c m.clients)) (omega (arith, shorter, h.few));
      nodup = delete-NodupClients c m.clients h.nodup;
      few = omega (arith, shorter, h.few);
    }

removed-IsEnding :
    (m : Room) (c : ℕ) → IsEnding m → load c m.clients ≢ none → IsEnding (removed m c)
removed-IsEnding m c h there = record {
  at_work = record {
    runs = h.at_work.runs;
    on_air = h.at_work.on_air;
    free = h.at_work.free;
    file_open = h.at_work.file_open;
  };
  ending = h.ending;
  counted = removed-IsCounted m c h.counted there;
}

leave_all-IsEnding :
    (c : ℕ) (cs : List ℕ) (m : Room)
    → IsEnding m
    → Leaving (c ∷ cs) m.clients
    → (m' : Room) × (leave_all (c ∷ cs) m ≡ done m') × (m'.clients ≡ []) × (m'.going_close ≡ true)
unfolding connection_closed process_empty_close
leave_all-IsEnding c [] m h (there, last) =
    let gone : Room = removed m c in
    let e : IsEnding gone = removed-IsEnding m c h there in
    let (r, closes, shut) =
      close_lem gone e.at_work.runs e.at_work.on_air e.at_work.free e.at_work.file_open in
    let zero_left : gone.current_clients_count ≡ pos 0 = e.counted.counted ∙ ap pos last in
    (
      record gone { radio = r; going_close = true },
      ap (λ (o : Outcome Room). (o >>= process_empty_close) >>= done)
            (remove_client_lem m c h.at_work.free)
          ∙ ground (arith, zero_left, h.ending, closes),
      nobody (delete c m.clients) last,
      refl,
    )
leave_all-IsEnding c (d ∷ ds) m h (there, left) =
    let gone : Room = removed m c in
    let e : IsEnding gone = removed-IsEnding m c h there in
    let (n, more) = some_left gone.clients d left.0 in
    let open_still : process_empty_close gone ≡ done gone =
      stays_open gone n (e.counted.counted ∙ ap pos more) in
    let (m', leaves, nobody_left, closes) = leave_all-IsEnding d ds gone e left in
    (
      m',
      ap (λ (o : Outcome Room). (o >>= process_empty_close) >>= leave_all (d ∷ ds))
            (remove_client_lem m c h.at_work.free)
          ∙ ap (λ (o : Outcome Room). o >>= leave_all (d ∷ ds)) open_still
          ∙ leaves,
      nobody_left,
      closes,
    )
  where
    some_left :
        (clients : Clients) (d : ℕ) → load d clients ≢ none → (n : ℕ) × (length clients ≡ n + 1)
    some_left [] d h = absurd (h (unfold load in refl))
    some_left (x ∷ clients) d h = (length clients, omega arith)

-- A room that its owner closes ends when its clients have left: if a user asks for the close with the
-- key, and the clients then leave, in any order, each gets out, and with the last of them the room
-- closes, so that Run returns at its next test and the room is taken off the list of the hall and out
-- of the database. The count of the room is the number of its clients, it is open, its
-- radio on the air and its archive not closed, and no mutex of the radio is held for ever.
pub handle-leave_all :
    (s : Surroundings) (m : Room) (hall : RoomManager) (c : ℕ) (order : List ℕ)
    → IsCounted m
    → IsOpen m
    → has_user m c ≡ true
    → Leaving order m.clients
    → (m₁ m₂ : Room) × (effects : List Effect) × (handle s (Messages.close m.key) m c
        ≡ done (m₁, effects))
      × (leave_all order m₁ ≡ done m₂)
      × (m₂.clients ≡ [])
      × (run_step at_test none m₂ ≡ (returned, m₂))
      × (load m.options.name (wait_room_closed m.options.name hall).0.rooms ≡ none)
      × ((wait_room_closed m.options.name hall).1 ≡ db_delete (db_key m.options.name) ∷ [])
unfolding handle handle_close run_step has_user wait_room_closed
handle-leave_all s m hall c [] counted fine user empty =
    absurd (ground (arith, user, no_user m c (nobody m.clients empty)))
handle-leave_all s m hall c (d ∷ ds) counted fine user leaving =
    let fits : str_eq m.key m.key ≡ true = (eq_iff m.key m.key).1 refl in
    let h : IsEnding (set_empty_close m) = record {
      at_work = record {
        runs = fine.runs;
        on_air = fine.on_air;
        free = fine.free;
        file_open = fine.file_open;
      };
      ending = refl;
      counted = record { counted = counted.counted; nodup = counted.nodup; few = counted.few };
    } in
    let (m₂, leaves, nobody_left, closes) = leave_all-IsEnding d ds (set_empty_close m) h leaving in
    (
      set_empty_close m,
      m₂,
      through_radio (closed true) c ∷ broadcast_command (action (close_action 501)) m.clients,
      ground (arith, fits, user),
      leaves,
      nobody_left,
      ground (arith, closes),
      ground (
        arith,
        load-delete m.options.name m.options.name hall.rooms,
        eq_iff m.options.name m.options.name,
      ),
      refl,
    )
