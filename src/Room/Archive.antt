-- ===== src/Room/Archive.antt =====
-- handleArchive and AddClient together: what a client that asks for the archive is going to be sent.
use paintty_server_go.Prelude.{
  List, ℕ, ◌+◌, ◌-◌, ◌^◌, ◌≤◌, ◌<◌, ◌≡◌, refl, sym, ◌∙◌, true, false, [], ◌∷◌, ◌++◌, Bytes, none,
  some, Option, arith, ◌==◌, if◌then◌else◌, length, drop, Bool-cases, inl, inr, get_elem?,
  get_elem?-snoc, drop-length, take-length, length-drop,
}
use paintty_server_go.Prelude.Int.{ℤ, pos, ◌+ℤ◌, ◌-ℤ◌, int64, int64-pos, pos-+ℤ, pos_sub}
use paintty_server_go.Prelude.Maps.{pointer_Eq, load, store, load-store}
use paintty_server_go.BufferedFile.Log.{log, IsValid, length-log}
use paintty_server_go.Radio.{
  Radio, RadioClient, done, start_pos, first_length, first_tasks, add_client,
}
use paintty_server_go.Radio.Tasks.{TaskList, append, split_chunk}
use paintty_server_go.Radio.Split.{payloads, AllTasks, split_chunk-payloads}
use paintty_server_go.Room.{Effect, Room, direct_command, has_user}
use paintty_server_go.Room.Messages.{archive_info}
use paintty_server_go.Room.Handlers.{archive_length, handle_archive}

-- The tasks of a client of the radio.
abbrev pub tasks_of : Radio → ℕ → Option TaskList
tasks_of r c = elim (load c r.clients) [
  | none ↦ none
  | some a ↦ elim (get_elem? r.heap a) [ none ↦ none | some rc ↦ some rc.list ]
]

-- The difference of two positions in order, and the end of a range.
difference : (w o : ℕ) → o ≤ w → w < 2 ^ 63 → int64 (pos w -ℤ pos o) ≡ pos (w - o)
difference w o h small = rw (pos_sub w o h) (int64-pos (w - o) (omega arith))

end_of : (o n : ℕ) → o + n < 2 ^ 63 → int64 (pos o +ℤ pos n) ≡ pos (o + n)
end_of o n h = rw (pos-+ℤ o n) (int64-pos (o + n) h)

-- An archive request inside the archive is for all the rest of it.
archive_length_rest :
    (w o n : ℕ)
    → o + n ≤ w
    → w < 2 ^ 63
    → archive_length w (record { start = pos o; data_length = pos n }) ≡ pos (w - o)
unfolding archive_length
archive_length_rest w o n h small = ground (
  arith,
  difference w o (omega arith) small,
  end_of o (w - o) (omega arith),
  end_of o n (omega arith),
)

-- The rest of an archive of w bytes from offset o on.
module _ (w o : ℕ) (h : o ≤ w) (small : w < 2 ^ 63) where
  start_pos_inside : start_pos w (pos o) ≡ pos o
  start_pos_inside = ground arith

  first_length_rest : first_length w (pos o) (pos (w - o)) ≡ pos (w - o)
  unfolding first_length
  first_length_rest = ground (arith, difference w o h small, end_of o (w - o) (omega arith))

  pub first_tasks_cases :
      first_tasks w (pos o) (pos (w - o))
      ≡ (if (w - o) == 0 then [] else split_chunk (record { start = pos o; length = pos (w - o) }))
  unfolding first_tasks append
  first_tasks_cases = ground (arith, start_pos_inside, first_length_rest)

  -- The first tasks of a client for the rest of the archive hold exactly that rest.
  pub first_tasks_rest :
      (l : Bytes)
      → length l ≡ w
      → (payloads l (first_tasks w (pos o) (pos (w - o))) ≡ drop o l)
        × AllTasks (first_tasks w (pos o) (pos (w - o)))
  first_tasks_rest l size = elim (Bool-cases ((w - o) == 0)) [
    | inl none_left ↦
        let at_end : drop o l ≡ [] = drop-length o l (ground arith) in
        rw (first_tasks_cases, none_left) (sym at_end, tt)
    | inr some_left ↦
        let (bytes, tasks, few) = split_chunk-payloads l o (w - o) (omega arith) in
        rw (first_tasks_cases, some_left)
          (bytes ∙ take-length (w - o) (drop o l) (omega (arith, length-drop o l)), tasks)
  ]

-- The radio's client after AddClient.
abbrev pub new_client : Radio → ℕ → ℤ → ℤ → RadioClient
new_client r c start size = record {
  client = c;
  list = first_tasks r.file.whole_size start size;
  running = true;
}

abbrev pub added : Radio → ℕ → ℤ → ℤ → Radio
added r c start size = record r {
  heap = r.heap ++ new_client r c start size ∷ [];
  clients = store c (length r.heap) r.clients;
}

add_client_lem :
    (r : Radio) (c : ℕ) (start size : ℤ)
    → r.locked ≡ false
    → add_client r c start size ≡ done (added r c start size)
unfolding add_client
add_client_lem r c start size free = rw free refl

tasks_of-added :
    (r : Radio) (c : ℕ) (start size : ℤ)
    → tasks_of (added r c start size) c ≡ some (first_tasks r.file.whole_size start size)
tasks_of-added r c start size =
    let found : load c (store c (length r.heap) r.clients) ≡ some (length r.heap) =
      ground (arith, load-store c c (length r.heap) r.clients) in
    ground (arith, found, get_elem?-snoc r.heap (new_client r c start size))

-- The room after an archive request from offset o on, and the answer.
abbrev pub archived : Room → ℕ → ℕ → Room
archived m c o = record m { radio = added m.radio c (pos o) (pos (m.radio.file.whole_size - o)) }

abbrev pub archive_answer : Room → ℕ → ℕ → List Effect
archive_answer m c o =
    direct_command
      (archive_info (record {
        result = true;
        signature = m.radio.signature;
        data_length = pos (m.radio.file.whole_size - o);
        errcode = 0;
      }))
      c
    ∷ []

pub handle_archive_lem :
    (m : Room) (c o n : ℕ)
    → has_user m c ≡ true
    → m.radio.locked ≡ false
    → o + n ≤ m.radio.file.whole_size
    → m.radio.file.whole_size < 2 ^ 63
    → handle_archive (record { start = pos o; data_length = pos n }) m c
      ≡ done (archived m c o, archive_answer m c o)
unfolding handle_archive
handle_archive_lem m c o n user free inside small =
    let w : ℕ = m.radio.file.whole_size in
    let asked : archive_length w (record { start = pos o; data_length = pos n }) ≡ pos (w - o) =
      archive_length_rest w o n inside small in
    rw (user, asked, add_client_lem m.radio c (pos o) (pos (w - o)) free) refl

-- A user that asks for the archive from an offset on, with a length of 0 or one that stays inside
-- the archive, is told the number of bytes from that offset to the end, whatever length it asked
-- for, and gets pending tasks that hold exactly these bytes, in order. The radio's mutex is not held for ever,
-- its file is valid, and the archive is shorter than 2 ^ 63 bytes.
pub handle_archive-tasks_of :
    (m : Room) (c o n : ℕ)
    → has_user m c ≡ true
    → m.radio.locked ≡ false
    → IsValid m.radio.file
    → o + n ≤ m.radio.file.whole_size
    → m.radio.file.whole_size < 2 ^ 63
    → (m' : Room) × (tasks : TaskList) × (handle_archive
          (record { start = pos o; data_length = pos n })
          m
          c
        ≡ done (
          m',
          direct_command
                (archive_info (record {
                  result = true;
                  signature = m.radio.signature;
                  data_length = pos (m.radio.file.whole_size - o);
                  errcode = 0;
                }))
                c
              ∷ [],
        ))
      × (tasks_of m'.radio c ≡ some tasks)
      × (payloads (log m.radio.file) tasks ≡ drop o (log m.radio.file))
      × AllTasks tasks
handle_archive-tasks_of m c o n user free v inside small =
    let w : ℕ = m.radio.file.whole_size in
    let size : length (log m.radio.file) ≡ w = length-log m.radio.file v ∙ sym v.whole in
    let (bytes, tasks) = first_tasks_rest w o (omega arith) small (log m.radio.file) size in
    (
      archived m c o,
      first_tasks w (pos o) (pos (w - o)),
      handle_archive_lem m c o n user free inside small,
      tasks_of-added m.radio c (pos o) (pos (w - o)),
      bytes,
      tasks,
    )
