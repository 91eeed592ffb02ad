-- ===== src/Radio/Shown.antt =====
-- send, which hands bytes to every client without recording them.
use paintty_server_go.Prelude.{
  ℕ, ◌≡◌, sym, ap, ◌∙◌, List, [], ◌∷◌, ◌++◌, Bytes, arith, ◌==◌, Bool-cases, inl, inr, append_assoc,
}
use paintty_server_go.BufferedFile.Log.{log}
use paintty_server_go.Radio.{Radio, done, deliveries, send}
use paintty_server_go.Radio.Tasks.{ram}
use paintty_server_go.Radio.Split.{payloads, payloads-append, AllTasks, AllTasks-append}
use paintty_server_go.Radio.Serve.{AllIn}
use paintty_server_go.Radio.Inside.{AllIn-append}
use paintty_server_go.Radio.Owed.{
  pending, flying, owed, gained, IsFine, flying-append, payloads-deliveries,
}

deliveries-AllTasks_ram :
    (a : ℕ) (d : Bytes) (m : List (ℕ × ℕ)) → AllTasks (flying a (deliveries (ram d) m))
deliveries-AllTasks_ram a d [] = tt
deliveries-AllTasks_ram a d ((x, b) ∷ m) = elim (Bool-cases (b == a)) [
  | inl here ↦ rw here (tt, deliveries-AllTasks_ram a d m)
  | inr other ↦ rw other (deliveries-AllTasks_ram a d m)
]

deliveries-AllIn_ram :
    (a : ℕ) (d : Bytes) (m : List (ℕ × ℕ)) (l : Bytes) → AllIn (flying a (deliveries (ram d) m)) l
deliveries-AllIn_ram a d [] l = tt
deliveries-AllIn_ram a d ((x, b) ∷ m) l = elim (Bool-cases (b == a)) [
  | inl here ↦ rw here (deliveries-AllIn_ram a d m l)
  | inr other ↦ rw other (deliveries-AllIn_ram a d m l)
]

module _ (r : Radio) (a : ℕ) (d : Bytes) (fine : IsFine r a) where
  abbrev pub shown : Radio
  shown = record r { in_flight = r.in_flight ++ deliveries (ram d) r.clients }

  shown_tasks :
      pending shown a ++ flying a shown.in_flight
      ≡ (pending r a ++ flying a r.in_flight) ++ flying a (deliveries (ram d) r.clients)
  shown_tasks =
      ap (◌++◌ (pending r a)) (flying-append a r.in_flight (deliveries (ram d) r.clients))
      ∙ sym (
          append_assoc (pending r a) (flying a r.in_flight)
            (flying a (deliveries (ram d) r.clients)))

  pub send_lem : send r d ≡ done shown
  unfolding send
  send_lem = ground (arith, fine.free)

  -- send puts d behind what a client is owed, as often as its address stands in the map, without a
  -- trace in the archive; it returns, and the radio is as fine for the client as before.
  pub send-owed :
      (r' : Radio) × (send r d ≡ done r')
      × (owed r' a ≡ owed r a ++ gained a r.clients d)
      × IsFine r' a
  send-owed = (
    shown,
    send_lem,
    ap (payloads (log r.file)) shown_tasks
        ∙ payloads-append (log r.file) (pending r a ++ flying a r.in_flight)
            (flying a (deliveries (ram d) r.clients))
        ∙ ap (◌++◌ (owed r a)) (payloads-deliveries (log r.file) a (ram d) r.clients),
    record {
      free = fine.free;
      valid = fine.valid;
      calm = fine.calm;
      small = fine.small;
      tasks = rw shown_tasks (
          AllTasks-append (pending r a ++ flying a r.in_flight)
            (flying a (deliveries (ram d) r.clients)) fine.tasks
            (deliveries-AllTasks_ram a d r.clients));
      inside = rw shown_tasks (
          AllIn-append (pending r a ++ flying a r.in_flight)
            (flying a (deliveries (ram d) r.clients)) (log r.file) fine.inside
            (deliveries-AllIn_ram a d r.clients (log r.file)));
    },
  )
