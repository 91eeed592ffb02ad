-- ===== src/Room/Counting.antt =====
-- The count of a room's clients, and what a restart keeps of a room.
use paintty_server_go.Prelude.{
  ℕ, ◌+◌, ◌^◌, ◌<◌, ◌≡◌, refl, ap, ◌∙◌, true, false, [], ◌∷◌, some, len, arith, ltb,
}
use paintty_server_go.Prelude.Int.{ℤ, pos, ◌-ℤ◌, int32, eqb_ℤ}
use paintty_server_go.Prelude.Maps.{pointer_Eq, delete}
use paintty_server_go.Radio.{Radio, Outcome, done, ◌>>=◌, make_radio}
use paintty_server_go.Radio
use paintty_server_go.Room.{
  Room, close_later, kick_client, remove_client, connection_closed, process_empty_close,
  current_load,
}
use paintty_server_go.Room.Serving.{World, init, dump_room, recover_room}

abbrev pub removed : Room → ℕ → Room
removed m c = record m {
  radio = record m.radio { clients = delete c m.radio.clients };
  clients = delete c m.clients;
  current_clients_count = int32 (m.current_clients_count -ℤ pos 1);
}

pub remove_client_lem :
    (m : Room) (c : ℕ) → m.radio.locked ≡ false → remove_client m c ≡ done (removed m c)
unfolding remove_client Radio.remove_client
remove_client_lem m c h = rw h refl

minus_two : (n : ℕ) → n + 3 < 2 ^ 31 → int32 (int32 (pos (n + 3) -ℤ pos 1) -ℤ pos 1) ≡ pos (n + 1)
unfolding int32 ◌-ℤ◌
minus_two n h = ground arith

pub stays_open :
    (m : Room) (n : ℕ) → m.current_clients_count ≡ pos (n + 1) → process_empty_close m ≡ done m
unfolding process_empty_close
stays_open m n h =
    let e : eqb_ℤ m.current_clients_count (pos 0) ≡ false = rw h (ground arith) in rw e refl

-- A client that is kicked, for a request that fails or by another user, and whose connection ends ten
-- seconds later is taken off the count twice, though it was counted once: of n + 3 clients n + 1 are
-- counted after it. No mutex of the radio is held for ever, and the count is below 2 ^ 31.
pub kick_client-connection_closed :
    (m : Room) (c n : ℕ)
    → m.radio.locked ≡ false
    → m.current_clients_count ≡ pos (n + 3)
    → n + 3 < 2 ^ 31
    → (m₁ m₂ : Room) × (kick_client m c ≡ done (m₁, close_later c ∷ []))
      × (connection_closed m₁ c ≡ done m₂)
      × (m₂.current_clients_count ≡ pos (n + 1))
      × (m₂.clients ≡ delete c (delete c m.clients))
unfolding kick_client connection_closed
kick_client-connection_closed m c n free counted small =
    let count : int32 (int32 (m.current_clients_count -ℤ pos 1) -ℤ pos 1) ≡ pos (n + 1) =
      ap (λ (x : ℤ). int32 (int32 (x -ℤ pos 1) -ℤ pos 1)) counted ∙ minus_two n small in
    (
      removed m c,
      removed (removed m c) c,
      rw (remove_client_lem m c free) refl,
      ap (λ (r : Outcome Room). r >>= process_empty_close) (remove_client_lem (removed m c) c free)
          ∙ stays_open (removed (removed m c) c) n count,
      count,
      refl,
    )

abbrev recovered : World → Room → ℕ → Room
recovered w m port = record {
  radio = make_radio (w.open_archive m.archive_sign) m.archive_sign;
  clients = [];
  current_clients_count = pos 0;
  expiration = m.expiration;
  key = m.key;
  archive_sign = m.archive_sign;
  port = port;
  options = m.options;
  last_check = w.now;
  going_close = false;
}

recover_lem :
    (w : World) (m : Room) (port : ℕ)
    → 0 < len m.key
    → w.listen m.port ≡ some port
    → recover_room w (dump_room m) ≡ some (recovered w m port)
unfolding recover_room dump_room init
recover_lem w m port keyed listens =
    let has_key : ltb 0 (len m.key) ≡ true = ground arith in ground (arith, listens)

-- A room that was saved by dumpRoom and has a key comes back from RecoverRoom with its key, archive
-- sign, expiration and options, with the port that the listener gives it, an empty list of clients
-- and the archive file of its sign; what dumpRoom saves of it is as before if the port is.
pub recover_room-dump_room :
    (w : World) (m : Room) (port : ℕ)
    → 0 < len m.key
    → w.listen m.port ≡ some port
    → (m' : Room) × (recover_room w (dump_room m) ≡ some m')
      × (dump_room m' ≡ record (dump_room m) { port = port })
      × (m'.radio ≡ make_radio (w.open_archive m.archive_sign) m.archive_sign)
      × (m'.clients ≡ [])
      × (current_load m' ≡ pos 0)
unfolding dump_room
recover_room-dump_room w m port keyed listens =
    (recovered w m port, recover_lem w m port keyed listens, refl, refl, refl, refl)
