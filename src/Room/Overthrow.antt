-- ===== src/Room/Overthrow.antt =====
-- What the count of a room means for those who stay when another client is kicked.
mod Runs
use paintty_server_go.Prelude.{
  ℕ, ◌≡◌, ◌≢◌, refl, ap, ◌∙◌, true, false, List, [], ◌∷◌, Option, none, some, Error, arith, ◌==◌,
  if◌then◌else◌, len, ltb, eq_iff, Option-cases, inl, inr,
}
use paintty_server_go.Prelude.Int.{ℤ, pos, ◌-ℤ◌, int32, eqb_ℤ}
use paintty_server_go.Prelude.Maps.{pointer_Eq, load, delete, load-delete}
use paintty_server_go.BufferedFile
use paintty_server_go.BufferedFile.{Buffered}
use paintty_server_go.Socket.Pack.{drawing, command}
use paintty_server_go.Socket.Reader.{Package}
use paintty_server_go.Radio.{Radio, Outcome, done, panics, ◌>>=◌}
use paintty_server_go.Radio
use paintty_server_go.Room.{
  Room, RoomUser, Effect, close_later, kick_client, remove_client, connection_closed,
  process_empty_close, close, has_user, Turn, at_test, in_accept, returned, run_step,
}
use paintty_server_go.Room.Handlers.{Surroundings}
use paintty_server_go.Room.Serving.{Json, process_package}
use paintty_server_go.Room.Counting.{removed, remove_client_lem}

close-some :
    (f : Buffered)
    → f.going_close ≡ false
    → (x : Buffered × Option Error) × (BufferedFile.close f ≡ some x)
unfolding BufferedFile.close
close-some f there = elim (Option-cases (BufferedFile.close f)) [
  | inl twice ↦ absurd (ground (arith, there, twice))
  | inr found ↦ found
]

-- Close of a room with its radio on the air.
pub close_lem :
    (m : Room)
    → m.going_close ≡ false
    → m.radio.closed ≡ false
    → m.radio.locked ≡ false
    → m.radio.file.going_close ≡ false
    → (r : Radio) × (close m ≡ done (record m { radio = r; going_close = true }))
      × (r.closed ≡ true)
unfolding close Radio.close Radio.remove
close_lem m runs on_air free there =
    let ((f, e), q) = close-some m.radio.file there in
    (
      record m.radio { closed = true; file = BufferedFile.remove f },
      ground (arith, runs, on_air, free, q),
      refl,
    )

minus_one_two : int32 (int32 (pos 2 -ℤ pos 1) -ℤ pos 1) ≡ pos 0
unfolding int32 ◌-ℤ◌
minus_one_two = refl

-- A kick can end the server. Two clients are counted in a room that closes when it is empty; one is
-- kicked, by another user or for a request that fails, and its connection ends: the count is 0, and
-- the room closes, though the other client, a user, is still in it. If that client then draws, and
-- its goroutine takes the package and not the news that the room is closing, the send on the closed
-- WriteChan panics in a goroutine in which nothing recovers. The room was open, with its radio on the
-- air, its archive not closed, and no mutex of the radio held for ever.
pub kick_client-process_package :
    (s : Surroundings) (j : Json) (p : Package) (m : Room) (a b : ℕ)
    → m.current_clients_count ≡ pos 2
    → m.options.empty_close ≡ true
    → m.going_close ≡ false
    → m.radio.closed ≡ false
    → m.radio.locked ≡ false
    → m.radio.file.going_close ≡ false
    → b ≢ a
    → has_user m b ≡ true
    → p.package_type ≡ drawing
    → (m₁ m₂ : Room) × (kick_client m a ≡ done (m₁, close_later a ∷ []))
      × (connection_closed m₁ a ≡ done m₂)
      × (m₂.going_close ≡ true)
      × (has_user m₂ b ≡ true)
      × (process_package s j p m₂ b ≡ panics)
unfolding kick_client connection_closed process_empty_close has_user process_package
kick_client-process_package s j p m a b count empty runs on_air free there other user draws =
    let m₁ : Room = removed m a in
    let m' : Room = removed m₁ a in
    let (r, closes, shut) = close_lem m' runs on_air free there in
    let m₂ : Room = record m' { radio = r; going_close = true } in
    let zero_left : m'.current_clients_count ≡ pos 0 =
      ap (λ (x : ℤ). int32 (int32 (x -ℤ pos 1) -ℤ pos 1)) count ∙ minus_one_two in
    let stays : load b m'.clients ≡ load b m.clients =
      ground (arith, load-delete a b m.clients, load-delete a b m₁.clients, other) in
    let user' : has_user m₂ b ≡ true = ground (arith, stays, user) in
    (
      m₁,
      m₂,
      ap (λ (o : Outcome Room). o >>= λ x. done (x, close_later a ∷ []))
          (remove_client_lem m a free),
      ap (λ (o : Outcome Room). o >>= process_empty_close) (remove_client_lem m₁ a free)
          ∙ ground (arith, zero_left, empty, closes),
      refl,
      user',
      ground (arith, user', shut, draws),
    )

-- Once GoingClose is closed, Run returns after at most two of its steps, and from its test at once.
-- Another connection is accepted only if it was already waiting in AcceptTCP.
run_step-returned :
    (t : Turn) (x y : Option ℕ) (m m' : Room)
    → m.going_close ≡ true
    → m'.going_close ≡ true
    → ((run_step (run_step t x m).0 y m').0 ≡ returned) × (run_step at_test x m ≡ (returned, m))
unfolding run_step
run_step-returned at_test x y m m' h h' = ground (arith, h, h')
run_step-returned in_accept x y m m' h h' = ground (arith, h, h')
run_step-returned returned x y m m' h h' = ground (arith, h, h')
