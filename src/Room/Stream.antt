-- ===== src/Room/Stream.antt =====
-- An archive request and the schedule of the radio that follows it: the whole stream of a client.
use mathlib.Core.Path.{subst}
use paintty_server_go.Prelude.{
  ℕ, ◌+◌, ◌-◌, ◌^◌, ◌≤◌, ◌<◌, ◌≡◌, sym, ap, ◌∙◌, true, false, List, [], ◌++◌, Bytes, arith, ◌==◌,
  length, drop, get_elem?-snoc, Bool-cases, inl, inr, append-nil,
}
use paintty_server_go.Prelude.Int.{pos}
use paintty_server_go.BufferedFile.Log.{log, IsValid, IsCalm, length-log}
use paintty_server_go.Radio.{Radio, done, first_tasks}
use paintty_server_go.Radio.Split.{payloads, AllTasks}
use paintty_server_go.Radio.Serve.{AllIn}
use paintty_server_go.Radio.Inside.{AllIn-split_chunk}
use paintty_server_go.Radio.Owed.{pending, flying, IsFine}
use mathlib.Core.List.{flatten, Permᴰ}
use paintty_server_go.Radio.Returns.{done-injective}
use paintty_server_go.Radio.Tasks.{TaskList}
use paintty_server_go.Radio.Overtaking.{Muddle}
use paintty_server_go.Radio.Pieces.{settled, underway, pieces, given}
use paintty_server_go.Radio.Pieces.Conserved.{Muddle-pieces}
use paintty_server_go.Room.{Room, Effect, has_user}
use paintty_server_go.Room.Handlers.{handle_archive}
use paintty_server_go.Room.Archive.{
  new_client, archived, archive_answer, handle_archive_lem, first_tasks_rest, first_tasks_cases,
}

-- The tasks of a new client are inside the archive.
first_tasks-AllIn :
    (l : Bytes) (w o : ℕ)
    → length l ≡ w
    → o ≤ w
    → w < 2 ^ 63
    → AllIn (first_tasks w (pos o) (pos (w - o))) l
first_tasks-AllIn l w o size h small = elim (Bool-cases ((w - o) == 0)) [
  | inl none_left ↦ rw (first_tasks_cases w o h small, none_left) tt
  | inr some_left ↦
      rw (first_tasks_cases w o h small, some_left)
        (AllIn-split_chunk l (omega arith) (pos o) (pos (w - o)) (omega arith, omega arith))
]

-- A room whose radio is ready for a new client: the mutex is not held for ever, the file is valid
-- and its calls are not going to fail, the archive is shorter than 2 ^ 63, and nothing is on its way
-- to a goroutine that has not been started.
pub record IsReady (m : Room) : Type 0 where
  pub free : m.radio.locked ≡ false
  pub valid : IsValid m.radio.file
  pub calm : IsCalm m.radio.file
  pub small : m.radio.file.whole_size < 2 ^ 63
  pub fresh : flying (length m.radio.heap) m.radio.in_flight ≡ []

module _ (m : Room) (c o : ℕ) (ready : IsReady m) (h : o ≤ m.radio.file.whole_size) where
  abbrev new_tasks : TaskList
  new_tasks = first_tasks m.radio.file.whole_size (pos o) (pos (m.radio.file.whole_size - o))

  size : length (log m.radio.file) ≡ m.radio.file.whole_size
  size = length-log m.radio.file ready.valid ∙ sym ready.valid.whole

  started :
      pending (archived m c o).radio (length m.radio.heap)
        ++ flying (length m.radio.heap) m.radio.in_flight
      ≡ new_tasks
  started =
      let client = new_client m.radio c (pos o) (pos (m.radio.file.whole_size - o)) in
      let now : pending (archived m c o).radio (length m.radio.heap) ≡ new_tasks =
        ground (arith, get_elem?-snoc m.radio.heap client) in
      rw (now, ready.fresh) (append-nil new_tasks)

  archived-settled :
      settled (archived m c o).radio (length m.radio.heap) ≡ drop o (log m.radio.file)
  archived-settled =
      ap (payloads (log m.radio.file)) (
        sym (append-nil (pending (archived m c o).radio (length m.radio.heap)))
        ∙ ap (◌++◌ (pending (archived m c o).radio (length m.radio.heap))) (sym ready.fresh)
        ∙ started)
      ∙ (first_tasks_rest m.radio.file.whole_size o h ready.small (log m.radio.file) size).0

  archived-IsFine : IsFine (archived m c o).radio (length m.radio.heap)
  archived-IsFine = record {
    free = ready.free;
    valid = ready.valid;
    calm = ready.calm;
    small = rw size ready.small;
    tasks =
        subst AllTasks (sym started)
          (first_tasks_rest m.radio.file.whole_size o h ready.small (log m.radio.file) size).1;
    inside =
        subst (λ (t : TaskList). AllIn t (log m.radio.file)) (sym started)
          (first_tasks-AllIn (log m.radio.file) m.radio.file.whole_size o size h ready.small);
  }

-- What a user gets that asks for the archive from offset o on: in every schedule of the radio after
-- the request, with overtaking, the bytes that were handed to its connection, with its pending tasks
-- at the end, are the archive of the time of the request from that offset on, and behind it whole
-- pieces; these, with the pieces still on their way to it, are all that was written or sent for it
-- since, in some order. The radio is ready for the client, and the range asked for lies in the archive.
pub handle_archive-Muddle :
    (m m' : Room) (effects : List Effect) (c o n : ℕ) {r : Radio} {sent more : Bytes}
    → IsReady m
    → has_user m c ≡ true
    → o + n ≤ m.radio.file.whole_size
    → handle_archive (record { start = pos o; data_length = pos n }) m c ≡ done (m', effects)
    → (later : Muddle (length m.radio.heap) m'.radio sent more r)
    → (arrived : List Bytes) × (sent ++ settled r (length m.radio.heap)
        ≡ drop o (log m.radio.file) ++ flatten arrived)
      × Permᴰ (arrived ++ underway r (length m.radio.heap)) (given later)
handle_archive-Muddle m m' effects c o n {r} {sent} {more} ready user inside e =
    let a : ℕ = length m.radio.heap in
    let lem = handle_archive_lem m c o n user ready.free inside ready.small in
    let same : (archived m c o, archive_answer m c o) ≡ (m', effects) =
      done-injective (archived m c o, archive_answer m c o) (m', effects) (sym lem ∙ e) in
    let gets : (later : Muddle a (archived m c o).radio sent more r)
        → (arrived : List Bytes) × (sent ++ settled r a
            ≡ drop o (log m.radio.file) ++ flatten arrived)
          × Permᴰ (arrived ++ underway r a) (given later) =
      λ later.
        let ((arrived, bytes, p), fine) =
          Muddle-pieces a (archived-IsFine m c o ready (omega (arith, inside))) later in
        (
          arrived,
          bytes
              ∙ ap (λ (b : Bytes). b ++ flatten arrived)
                  (archived-settled m c o ready (omega (arith, inside))),
          subst
              (λ (ds : TaskList).
                Permᴰ (arrived ++ underway r a) (pieces (log m.radio.file) ds ++ given later))
              ready.fresh p,
        ) in
    subst
      (λ (x : Room × List Effect).
        (later : Muddle a x.0.radio sent more r)
        → (arrived : List Bytes) × (sent ++ settled r a
            ≡ drop o (log m.radio.file) ++ flatten arrived)
          × Permᴰ (arrived ++ underway r a) (given later))
      same gets
