-- ===== src/Radio/Serve.antt =====
-- fetchAndSend and the rounds of processClient, from the pending tasks to the connection.
use paintty_server_go.Prelude.{
  ℕ, suc, ◌+◌, ◌^◌, ◌≤◌, ◌<◌, ◌≡◌, refl, true, [], ◌∷◌, ◌++◌, Bytes, Option, none, some, Error,
  arith, ltb, ◌==◌, length, take, drop, Bool-cases, inl, inr,
}
use paintty_server_go.Prelude.Int.{ℤ, pos, negsuc}
use paintty_server_go.BufferedFile.{Buffered}
use paintty_server_go.BufferedFile.Log.{log, IsValid, IsCalm}
use paintty_server_go.BufferedFile.Read.{read_at-log, read_at_past}
use paintty_server_go.Radio.Tasks.{
  ram, file, TaskList, pop_front, Fetched, fetch_chunk, fetch_and_send, serve,
}
use paintty_server_go.Radio.Split.{range, payloads, IsRange, AllTasks}
use paintty_server_go.Radio.Pending.{piece, push_front-cons}

module _ (write_raw : Bytes → Option Error) (f : Buffered) (v : IsValid f) (c : IsCalm f) where
  pub fetch_inside :
      (o n : ℕ) (rest : TaskList)
      → o + n ≤ length (log f)
      → o + n < 2 ^ 63
      → fetch_and_send write_raw (file (piece o n) ∷ rest) f
        ≡ some (record {
          list = rest;
          sent = take n (drop o (log f));
          error = write_raw (take n (drop o (log f)));
        })
  unfolding fetch_and_send fetch_chunk pop_front
  fetch_inside o n rest inside small =
      let same : (n == n) ≡ true = ground arith in rw (read_at-log f o n v c inside small, same)

  fetch_past :
      (o n : ℕ) (rest : TaskList)
      → length (log f) < o + n
      → o + n < 2 ^ 63
      → fetch_and_send write_raw (file (piece o n) ∷ rest) f
        ≡ some (record { list = file (piece o n) ∷ rest; sent = []; error = none })
  unfolding fetch_and_send fetch_chunk pop_front
  fetch_past o n rest past small =
      rw (read_at_past f o n v c past small, push_front-cons rest (file (piece o n)))

  -- What a round is meant to do.
  abbrev pub Sends : TaskList → Type 0
  Sends list =
      (r : Fetched) × (fetch_and_send write_raw list f ≡ some r)
      × (r.sent ++ payloads (log f) r.list ≡ payloads (log f) list)
      × AllTasks r.list

  fetch_file :
      (s n : ℤ) (rest : TaskList)
      → IsRange s n
      → AllTasks rest
      → Sends (file (record { start = s; length = n }) ∷ rest)
  fetch_file (pos o) (negsuc n) rest h tasks = absurd h
  fetch_file (negsuc o) n rest h tasks = absurd h
  fetch_file (pos o) (pos n) rest h tasks = elim (Bool-cases (ltb (length (log f)) (o + n))) [
    | inl past ↦ (_, fetch_past o n rest (ground arith) h.1, refl, (h, tasks))
    | inr inside ↦ (_, fetch_inside o n rest (ground arith) h.1, refl, tasks)
  ]

  -- A round never panics: the bytes that it hands to the connection, with those that are still
  -- pending after it, are those that were pending before it, in order. The tasks lie between
  -- offsets 0 and 2 ^ 63, and no call of the operating system fails; the connection may fail.
  pub fetch_and_send-payloads : (list : TaskList) → AllTasks list → Sends list
  unfolding fetch_and_send pop_front fetch_chunk
  fetch_and_send-payloads [] tasks = (_, refl, refl, tt)
  fetch_and_send-payloads (ram d ∷ rest) tasks = (_, refl, refl, tasks.1)
  fetch_and_send-payloads (file k ∷ rest) tasks = fetch_file k.start k.length rest tasks.0 tasks.1

-- A range of the log.
abbrev pub IsIn : ℤ → ℤ → Bytes → Type 0
IsIn (pos o) (pos n) l = (o + n ≤ length l) × (o + n < 2 ^ 63)
IsIn _ _ l = ⊥

abbrev pub AllIn : TaskList → Bytes → Type 0
AllIn [] l = Unit
AllIn (ram d ∷ cs) l = AllIn cs l
AllIn (file k ∷ cs) l = IsIn k.start k.length l × AllIn cs l

abbrev no_error : Bytes → Option Error
no_error d = none

module _ (f : Buffered) (v : IsValid f) (c : IsCalm f) where
  serve_file :
      (s n : ℤ) (rest : TaskList)
      → IsIn s n (log f)
      → fetch_and_send no_error (file (record { start = s; length = n }) ∷ rest) f
        ≡ some (record { list = rest; sent = range (log f) s n; error = none })
  serve_file (pos o) (pos n) rest h = fetch_inside no_error f v c o n rest h.0 h.1
  serve_file (pos o) (negsuc n) rest h = absurd h
  serve_file (negsuc o) n rest h = absurd h

  serve_ram :
      (d : Bytes) (rest : TaskList)
      → fetch_and_send no_error (ram d ∷ rest) f
        ≡ some (record { list = rest; sent = d; error = none })
  unfolding fetch_and_send pop_front fetch_chunk
  serve_ram d rest = refl

  serve_step :
      (n : ℕ) (d : Bytes) (list rest : TaskList) (later : Bytes)
      → fetch_and_send no_error list f ≡ some (record { list = rest; sent = d; error = none })
      → serve n no_error rest f ≡ some (record { list = []; sent = later; error = none })
      → serve (suc n) no_error list f ≡ some (record { list = []; sent = d ++ later; error = none })
  unfolding serve
  serve_step n d list rest later e h = rw (e, serve) (rw h)

  -- Tasks inside the log are all sent, in order, in as many rounds as there are tasks, if neither
  -- the connection nor a call of the operating system fails.
  pub serve-payloads :
      (list : TaskList)
      → AllIn list (log f)
      → serve (length list) (λ d. none) list f
        ≡ some (record { list = []; sent = payloads (log f) list; error = none })
  unfolding serve
  serve-payloads [] h = refl
  serve-payloads (ram d ∷ rest) h =
      serve_step (length rest) d (ram d ∷ rest) rest (payloads (log f) rest) (serve_ram d rest)
        (serve-payloads rest h)
  serve-payloads (file k ∷ rest) h =
      serve_step (length rest) (range (log f) k.start k.length) (file k ∷ rest) rest
        (payloads (log f) rest) (serve_file k.start k.length rest h.0) (serve-payloads rest h.1)
