-- ===== src/Radio/Timer.antt =====
-- The timer of processClient: how a client's pending tasks get to its connection.
use mathlib.Core.Path.{subst}
use paintty_server_go.Prelude.{
  ℕ, ◌≡◌, refl, sym, ap, ◌∙◌, true, false, [], ◌∷◌, ◌++◌, Bytes, Option, none, some, Error, arith,
  set, get_elem?,
}
use paintty_server_go.Prelude.Maps.{pointer_Eq, delete}
use paintty_server_go.BufferedFile.Log.{log, IsValid, IsCalm}
use paintty_server_go.BufferedFile.{Buffered}
use paintty_server_go.Prelude.Int.{ℤ, pos, negsuc}
use paintty_server_go.Radio.{RadioClient, Radio, done, tick, ticked, remove_client}
use paintty_server_go.Radio.Tasks.{
  ram, file, TaskList, fetch_chunk, pop_front, fetch_and_send, Fetched,
}
use paintty_server_go.Radio.Split.{range, payload, payloads, AllTasks}
use paintty_server_go.Radio.Serve.{IsIn, AllIn, fetch_inside}
use paintty_server_go.Radio.Inside.{AllIn-front}
use paintty_server_go.Radio.Owed.{pending, flying, owed, IsFine}
use paintty_server_go.Radio.Arrivals.{get_elem?-set}

-- The radio after the timer of client `rc` at address `a` made a round, with or without an error of the
-- connection.
abbrev pub ticked_radio : Radio → ℕ → RadioClient → Option Error → TaskList → Radio
ticked_radio r a rc none list = record r { heap = set r.heap a (record rc { list = list }) }
ticked_radio r a rc (some e) list = record r {
  clients = delete rc.client r.clients;
  heap = set r.heap a (record rc { list = list; running = false });
}

module _ (r : Radio) (a : ℕ) (rc : RadioClient) where
  pub ticked_lem :
      (list : TaskList) (sent : Bytes) (error : Option Error)
      → r.locked ≡ false
      → ticked r a rc (record { list = list; sent = sent; error = error })
        ≡ done (ticked_radio r a rc error list, sent)
  unfolding remove_client
  ticked_lem list sent none free = refl
  ticked_lem list sent (some e) free = ground (arith, free)

  pub ticked_now :
      (list : TaskList) (error : Option Error)
      → get_elem? r.heap a ≡ some rc
      → pending (ticked_radio r a rc error list) a ≡ list
  ticked_now list none found =
      ground (arith, get_elem?-set r.heap a (record rc { list = list }) rc found)
  ticked_now list (some e) found =
      ground (arith, get_elem?-set r.heap a (record rc { list = list; running = false }) rc found)

  ticked-owed :
      (list : TaskList) (error : Option Error)
      → get_elem? r.heap a ≡ some rc
      → owed (ticked_radio r a rc error list) a
        ≡ payloads (log r.file) (list ++ flying a r.in_flight)
  ticked-owed list none found =
      ap (λ (t : TaskList). payloads (log r.file) (t ++ flying a r.in_flight))
        (ticked_now list none found)
  ticked-owed list (some e) found =
      ap (λ (t : TaskList). payloads (log r.file) (t ++ flying a r.in_flight))
        (ticked_now list (some e) found)

  ticked-IsFine :
      (list : TaskList) (error : Option Error)
      → get_elem? r.heap a ≡ some rc
      → IsFine r a
      → AllTasks (list ++ flying a r.in_flight)
      → AllIn (list ++ flying a r.in_flight) (log r.file)
      → IsFine (ticked_radio r a rc error list) a
  ticked-IsFine list none found fine tasks inside = record {
    free = fine.free;
    valid = fine.valid;
    calm = fine.calm;
    small = fine.small;
    tasks =
        subst (λ (t : TaskList). AllTasks (t ++ flying a r.in_flight))
          (sym (ticked_now list none found)) tasks;
    inside =
        subst (λ (t : TaskList). AllIn (t ++ flying a r.in_flight) (log r.file))
          (sym (ticked_now list none found)) inside;
  }
  ticked-IsFine list (some e) found fine tasks inside = record {
    free = fine.free;
    valid = fine.valid;
    calm = fine.calm;
    small = fine.small;
    tasks =
        subst (λ (t : TaskList). AllTasks (t ++ flying a r.in_flight))
          (sym (ticked_now list (some e) found)) tasks;
    inside =
        subst (λ (t : TaskList). AllIn (t ++ flying a r.in_flight) (log r.file))
          (sym (ticked_now list (some e) found)) inside;
  }

-- A round of the timer on tasks inside the archive.
abbrev pub fetched : (Bytes → Option Error) → Bytes → TaskList → Fetched
fetched write_raw l [] = record { list = []; sent = []; error = none }
fetched write_raw l (c ∷ rest) = record {
  list = rest;
  sent = payload l c;
  error = write_raw (payload l c);
}

module _ (write_raw : Bytes → Option Error) (f : Buffered) (v : IsValid f) (c : IsCalm f) where
  fetch_range :
      (s n : ℤ) (rest : TaskList)
      → IsIn s n (log f)
      → fetch_and_send write_raw (file (record { start = s; length = n }) ∷ rest) f
        ≡ some (record {
          list = rest;
          sent = range (log f) s n;
          error = write_raw (range (log f) s n);
        })
  fetch_range (pos o) (pos n) rest h = fetch_inside write_raw f v c o n rest h.0 h.1
  fetch_range (pos o) (negsuc n) rest h = absurd h
  fetch_range (negsuc o) n rest h = absurd h

  pub fetch_lem :
      (list : TaskList)
      → AllIn list (log f)
      → fetch_and_send write_raw list f ≡ some (fetched write_raw (log f) list)
  unfolding fetch_and_send pop_front fetch_chunk
  fetch_lem [] h = refl
  fetch_lem (ram d ∷ rest) h = refl
  fetch_lem (file k ∷ rest) h = fetch_range k.start k.length rest h.0

-- The bytes of the first pending task.
abbrev pub first_bytes : Bytes → TaskList → Bytes
first_bytes l [] = []
first_bytes l (c ∷ cs) = payload l c

pub fetched-payloads :
    (write_raw : Bytes → Option Error) (l : Bytes) (list more : TaskList)
    → ((fetched write_raw l list).sent ≡ first_bytes l list)
      × ((fetched write_raw l list).sent ++ payloads l ((fetched write_raw l list).list ++ more)
          ≡ payloads l (list ++ more))
      × (AllTasks (list ++ more) → AllTasks ((fetched write_raw l list).list ++ more))
      × (AllIn (list ++ more) l → AllIn ((fetched write_raw l list).list ++ more) l)
fetched-payloads write_raw l [] more = (refl, refl, (λ h. h), (λ h. h))
fetched-payloads write_raw l (ram d ∷ list) more = (refl, refl, (λ h. h.1), (λ h. h))
fetched-payloads write_raw l (file k ∷ list) more = (refl, refl, (λ h. h.1), (λ h. h.1))

module _ (write_raw : Bytes → Option Error) (r : Radio) (a : ℕ) (rc : RadioClient) where
  pub tick_lem :
      (x : Fetched)
      → get_elem? r.heap a ≡ some rc
      → rc.running ≡ true
      → fetch_and_send write_raw rc.list r.file ≡ some x
      → tick write_raw r a ≡ ticked r a rc x
  unfolding tick
  tick_lem x found runs e = ground (arith, found, runs, e)

  -- The timer of a client that runs hands the bytes of its first pending task to the connection,
  -- whatever this says: what was handed over, with what the client is owed afterwards, is what it was
  -- owed before. It neither panics nor waits for ever, and the radio is fine for that client, before
  -- and after.
  pub tick-owed :
      IsFine r a
      → get_elem? r.heap a ≡ some rc
      → rc.running ≡ true
      → (r' : Radio) × (sent : Bytes) × (tick write_raw r a ≡ done (r', sent))
        × (sent ≡ first_bytes (log r.file) rc.list)
        × (sent ++ owed r' a ≡ owed r a)
        × IsFine r' a
  tick-owed fine found runs =
      let x : Fetched = fetched write_raw (log r.file) rc.list in
      let now : pending r a ≡ rc.list = ground (arith, found) in
      let tasks : AllTasks (rc.list ++ flying a r.in_flight) =
        subst (λ (t : TaskList). AllTasks (t ++ flying a r.in_flight)) now fine.tasks in
      let inside : AllIn (rc.list ++ flying a r.in_flight) (log r.file) =
        subst (λ (t : TaskList). AllIn (t ++ flying a r.in_flight) (log r.file)) now fine.inside in
      let (first, bytes, tasks', inside') =
        fetched-payloads write_raw (log r.file) rc.list (flying a r.in_flight) in
      let e =
        fetch_lem write_raw r.file fine.valid fine.calm rc.list
          (AllIn-front rc.list (flying a r.in_flight) (log r.file) inside).0 in
      (
        ticked_radio r a rc x.error x.list,
        x.sent,
        tick_lem x found runs e ∙ ticked_lem r a rc x.list x.sent x.error fine.free,
        first,
        ap (◌++◌ x.sent) (ticked-owed r a rc x.list x.error found)
            ∙ bytes
            ∙ ap (λ (t : TaskList). payloads (log r.file) (t ++ flying a r.in_flight)) (sym now),
        ticked-IsFine r a rc x.list x.error found fine (tasks' tasks) (inside' inside),
      )
