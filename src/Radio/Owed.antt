-- ===== src/Radio/Owed.antt =====
-- write, the delivery of its chunk and the timer of processClient, for one client of a radio: what
-- the client is still owed.
use paintty_server_go.Prelude.{
  ℕ, ◌+◌, ◌^◌, ◌≤◌, ◌<◌, ◌≡◌, refl, sym, ap, ◌∙◌, false, List, [], ◌∷◌, ◌++◌, Bytes, none, some,
  arith, ◌==◌, if◌then◌else◌, length, take, drop, get_elem?, Bool-cases, inl, inr, append-nil,
  append_assoc, length-append, take-length-append, drop-length-append,
}
use paintty_server_go.BufferedFile.{Buffered}
use paintty_server_go.BufferedFile
use paintty_server_go.BufferedFile.Log.{log, IsValid, IsCalm, Appended, write-Appended, length-log}
use paintty_server_go.Radio.{Delivery, Radio, done, deliveries, write}
use paintty_server_go.Radio.Tasks.{RadioChunk, file, TaskList}
use paintty_server_go.Radio.Split.{payload, payloads, payloads-append, AllTasks, AllTasks-append}
use paintty_server_go.Radio.Pending.{piece}
use paintty_server_go.Radio.Serve.{AllIn}
use paintty_server_go.Radio.Inside.{AllIn-grown, payloads-grown, AllIn-append}

-- The pending tasks of the client at an address, and the chunks on their way to it, oldest first.
abbrev pub pending : Radio → ℕ → TaskList
pending r a = elim (get_elem? r.heap a) [ none ↦ [] | some rc ↦ rc.list ]

abbrev pub flying : ℕ → List Delivery → TaskList
flying a [] = []
flying a (d ∷ ds) = if d.to == a then d.chunk ∷ flying a ds else flying a ds

-- The bytes that a client is still to be sent, in their order.
abbrev pub owed : Radio → ℕ → Bytes
owed r a = payloads (log r.file) (pending r a ++ flying a r.in_flight)

-- What a client gains by d: d once for each time that its address stands in the map.
abbrev pub gained : ℕ → List (ℕ × ℕ) → Bytes → Bytes
gained a [] d = []
gained a ((c, b) ∷ m) d = if b == a then d ++ gained a m d else gained a m d

-- Nothing is broken for the client at an address: the mutex is not held for ever, the file is valid
-- and its calls are not going to fail, the archive is shorter than 2 ^ 63, and what the client is
-- owed are ranges of it that are not empty.
pub record IsFine (r : Radio) (a : ℕ) : Type 0 where
  pub free : r.locked ≡ false
  pub valid : IsValid r.file
  pub calm : IsCalm r.file
  pub small : length (log r.file) < 2 ^ 63
  pub tasks : AllTasks (pending r a ++ flying a r.in_flight)
  pub inside : AllIn (pending r a ++ flying a r.in_flight) (log r.file)

pub flying-append :
    (a : ℕ) (ds es : List Delivery) → flying a (ds ++ es) ≡ flying a ds ++ flying a es
flying-append a [] es = refl
flying-append a (d ∷ ds) es = ground (arith, flying-append a ds es)

pub payloads-deliveries :
    (l : Bytes) (a : ℕ) (c : RadioChunk) (m : List (ℕ × ℕ))
    → payloads l (flying a (deliveries c m)) ≡ gained a m (payload l c)
payloads-deliveries l a c [] = refl
payloads-deliveries l a c ((x, b) ∷ m) = elim (Bool-cases (b == a)) [
  | inl here ↦ rw here (ap (◌++◌ (payload l c)) (payloads-deliveries l a c m))
  | inr other ↦ rw other (payloads-deliveries l a c m)
]

deliveries-AllTasks :
    (a : ℕ) (o n : ℕ) (m : List (ℕ × ℕ))
    → 0 < n
    → o + n < 2 ^ 63
    → AllTasks (flying a (deliveries (file (piece o n)) m))
deliveries-AllTasks a o n [] h k = tt
deliveries-AllTasks a o n ((x, b) ∷ m) h k = elim (Bool-cases (b == a)) [
  | inl here ↦ rw here ((h, k), deliveries-AllTasks a o n m h k)
  | inr other ↦ rw other (deliveries-AllTasks a o n m h k)
]

deliveries-AllIn :
    (a : ℕ) (o n : ℕ) (m : List (ℕ × ℕ)) (l : Bytes)
    → o + n ≤ length l
    → o + n < 2 ^ 63
    → AllIn (flying a (deliveries (file (piece o n)) m)) l
deliveries-AllIn a o n [] l h k = tt
deliveries-AllIn a o n ((x, b) ∷ m) l h k = elim (Bool-cases (b == a)) [
  | inl here ↦ rw here ((h, k), deliveries-AllIn a o n m l h k)
  | inr other ↦ rw other (deliveries-AllIn a o n m l h k)
]

-- The radio after write.
abbrev pub wrote : Radio → Bytes → Radio
wrote r d = record r {
  file = (BufferedFile.write r.file d).0;
  in_flight = r.in_flight ++ deliveries (file (piece r.file.whole_size (length d))) r.clients;
}

pub write_lem :
    (r : Radio) (d : Bytes)
    → r.locked ≡ false
    → (BufferedFile.write r.file d).2 ≡ none
    → write r d ≡ done (wrote r d)
unfolding write
write_lem r d free e = ground (arith, free, e)

module _ (r : Radio) (a : ℕ) (d : Bytes) (fine : IsFine r a) (more : 0 < length d)
    (fits : length (log r.file) + length d < 2 ^ 63) where
  pub appended : Appended r.file d (wrote r d).file
  appended = (write-Appended r.file d fine.valid fine.calm).2

  -- The new chunk, over the archive with d at its end.
  whole : r.file.whole_size ≡ length (log r.file)
  whole = fine.valid.whole ∙ sym (length-log r.file fine.valid)

  pub new_payload : take (length d) (drop r.file.whole_size (log r.file ++ d)) ≡ d
  new_payload =
      rw (whole, drop-length-append (log r.file) d)
        (ap (take (length d)) (sym (append-nil d)) ∙ take-length-append d [])

  abbrev old : TaskList
  old = pending r a ++ flying a r.in_flight

  abbrev new : TaskList
  new = flying a (deliveries (file (piece r.file.whole_size (length d))) r.clients)

  tasks_now : pending (wrote r d) a ++ flying a (wrote r d).in_flight ≡ old ++ new
  tasks_now =
      ap (◌++◌ (pending r a)) (
        flying-append a r.in_flight
          (deliveries (file (piece r.file.whole_size (length d))) r.clients))
      ∙ sym (
          append_assoc (pending r a) (flying a r.in_flight)
            (flying a (deliveries (file (piece r.file.whole_size (length d))) r.clients)))

  owed-wrote : owed (wrote r d) a ≡ owed r a ++ gained a r.clients d
  owed-wrote =
      rw (tasks_now, appended.appended, payloads-append (log r.file ++ d) old new)
        (rw
          (
            payloads-grown (log r.file) d old fine.inside,
            payloads-deliveries (log r.file ++ d) a (file (piece r.file.whole_size (length d)))
                r.clients,
            new_payload,
          )
          refl)

  end : r.file.whole_size + length d ≡ length (log r.file ++ d)
  end = omega (arith, whole, length-append (log r.file) d)

  wrote-IsFine : IsFine (wrote r d) a
  wrote-IsFine = record {
    free = fine.free;
    valid = appended.valid;
    calm = appended.calm;
    small = rw appended.appended (omega (arith, length-append (log r.file) d, fits));
    tasks = rw tasks_now (
        AllTasks-append old new fine.tasks (
          deliveries-AllTasks a r.file.whole_size (length d) r.clients more
            (omega (arith, whole, fits))));
    inside =
        rw (tasks_now, appended.appended)
          (AllIn-append old new (log r.file ++ d)
            (AllIn-grown (log r.file) d old fine.inside
              (omega (arith, length-append (log r.file) d, fits)))
            (deliveries-AllIn a r.file.whole_size (length d) r.clients (log r.file ++ d)
              (omega (arith, end)) (omega (arith, whole, fits))));
  }

  -- write puts d at the end of the archive, and behind what the client at an address is owed, once
  -- for each time that this address stands in the map; it neither panics nor waits for ever, and the
  -- radio is as fine for the client as before. d is not empty, and the archive stays below 2 ^ 63.
  pub write-owed :
      (r' : Radio) × (write r d ≡ done r')
      × (log r'.file ≡ log r.file ++ d)
      × (owed r' a ≡ owed r a ++ gained a r.clients d)
      × IsFine r' a
  write-owed = (
    wrote r d,
    write_lem r d fine.free (write-Appended r.file d fine.valid fine.calm).1,
    appended.appended,
    owed-wrote,
    wrote-IsFine,
  )
