-- ===== src/Radio.antt =====
-- pkg/Radio/Radio.go: the radio of a room, which keeps the archive and sends it to its clients.
-- A pointer to a client is a number. A RadioClient lives at an address of `heap`, since a goroutine
-- goes on with the one it was started with after the map `clients` has a newer one for its client.
-- The goroutines that `send` and `write` start stand in `in_flight` until they end.
pub mod Tasks
pub mod Split
pub mod Pending
pub mod Serve
pub mod Inside
pub mod Owed
pub mod Shown
pub mod Arrivals
pub mod Timer
pub mod Returns
pub mod Same
pub mod Others
pub mod Deaf
pub mod Agreement
pub mod Overtaking
pub mod Pieces
pub mod Loop
mod Runs
use paintty_server_go.Prelude.{
  ℕ, suc, ◌+◌, Bool, true, false, List, [], ◌∷◌, ◌++◌, map, Bytes, Option, none, some, Error,
  String, zero, if◌then◌else◌, length as count, get_elem?, set, ltb,
}
use paintty_server_go.Prelude.Int.{ℤ, pos, negsuc, ◌+ℤ◌, ◌-ℤ◌, ltb_ℤ, eqb_ℤ, int64}
use paintty_server_go.Prelude.Maps.{pointer_Eq, load, store, delete}
use paintty_server_go.BufferedFile.{Buffered}
use paintty_server_go.BufferedFile
use Tasks.{
  TaskList, FileChunk, RadioChunk, ram, file, append, split_chunk, append_to_pendings,
  fetch_and_send, Fetched,
}

pub record RadioClient : Type 0 where
  pub client : ℕ
  pub list : TaskList
  -- whether its goroutine processClient still runs
  pub running : Bool

pub record Delivery : Type 0 where
  pub to : ℕ
  pub chunk : RadioChunk

pub record Radio : Type 0 where
  pub heap : List RadioClient
  pub clients : List (ℕ × ℕ)
  pub file : Buffered
  pub signature : String
  pub in_flight : List Delivery
  -- whether the channels have been closed, and whether a goroutine holds the mutex for ever
  pub closed : Bool
  pub locked : Bool

-- A call on the radio: it returns with a new state, waits for ever on the mutex, or panics.
pub data Outcome {ℓ} (A : Type ℓ) : Type ℓ where
  done : A → Outcome A
  blocks : Outcome A
  panics : Outcome A

infixl 5 ◌>>=◌
abbrev pub ◌>>=◌ {ℓ κ} : {A : Type ℓ} {B : Type κ} → Outcome A → (A → Outcome B) → Outcome B
done a >>= f = f a
blocks >>= f = blocks
panics >>= f = panics

-- Lock and the deferred Unlock around a body.
abbrev pub with_lock : Radio → Outcome Radio → Outcome Radio
with_lock r body = if r.locked then blocks else body

unfoldable pub make_radio : Buffered → String → Radio
make_radio f sign = record {
  heap = [];
  clients = [];
  file = f;
  signature = sign;
  in_flight = [];
  closed = false;
  locked = false;
}

unfoldable pub close : Radio → Outcome Radio
close r = if r.closed then panics else done (record r { closed = true })

-- Remove: the error of file.Close is dropped; closing the file a second time panics.
unfoldable pub remove : Radio → Outcome Radio
remove r = with_lock r (elim (BufferedFile.close r.file) [
  | none ↦ panics
  | some (f, e) ↦ done (record r { file = BufferedFile.remove f })
])

-- A new, empty RadioTaskList for one client.
abbrev pub empty_list : List RadioClient → ℕ → List RadioClient
empty_list heap a = elim (get_elem? heap a) [
  | none ↦ heap
  | some c ↦ set heap a (record c { list = [] })
]

unfoldable pub empty_lists : List RadioClient → List (ℕ × ℕ) → List RadioClient
empty_lists heap [] = heap
empty_lists heap ((c, a) ∷ m) = empty_lists (empty_list heap a) m

-- Prune, with `sign` the new signature of genArchiveSign.
unfoldable pub prune : String → Radio → Outcome Radio
prune sign r = with_lock r (
    let (f, e) = BufferedFile.clear r.file in
    elim e [
      | some x ↦ panics
      | none ↦ done (record r { heap = empty_lists r.heap r.clients; file = f; signature = sign })
    ])

-- The tasks of a new client: where its first chunk starts, and how long that is.
abbrev pub start_pos : ℕ → ℤ → ℤ
start_pos file_size start = if ltb_ℤ (pos file_size) start then pos file_size else start

unfoldable pub first_length : ℕ → ℤ → ℤ → ℤ
first_length file_size from length =
    if ltb_ℤ (pos file_size) (int64 (from +ℤ length)) then length else int64 (pos file_size -ℤ from)

unfoldable pub first_tasks : ℕ → ℤ → ℤ → TaskList
first_tasks file_size start length =
    let from : ℤ = start_pos file_size start in
    let size : ℤ = first_length file_size from length in
    if eqb_ℤ size (pos 0)
    then []
    else append [] (split_chunk (record { start = from; length = size }))

unfoldable pub add_client : Radio → ℕ → ℤ → ℤ → Outcome Radio
add_client r client start length = with_lock r (
    done (record r {
      heap =
          r.heap
          ++ record {
            client = client;
            list = first_tasks r.file.whole_size start length;
            running = true;
          }
            ∷ [];
      clients = store client (count r.heap) r.clients;
    }))

unfoldable pub remove_client : Radio → ℕ → Outcome Radio
remove_client r client = with_lock r (done (record r { clients = delete client r.clients }))

unfoldable pub remove_all_clients : Radio → Outcome Radio
remove_all_clients r = with_lock r (done (record r { clients = [] }))

abbrev pub file_size : Radio → ℕ
file_size r = r.file.whole_size

-- processClient takes a chunk from one of its channels, if it still runs.
unfoldable pub take_chunk : Radio → ℕ → RadioChunk → Outcome Radio
take_chunk r a c = elim (get_elem? r.heap a) [
  | none ↦ done r
  | some rc ↦
      if rc.running
      then elim (append_to_pendings c rc.list) [
        | none ↦ panics
        | some list ↦ done (record r { heap = set r.heap a (record rc { list = list }) })
      ]
      else done r
]

-- The connection of the client closes: its goroutine removes it and ends.
unfoldable pub client_closed : Radio → ℕ → Outcome Radio
client_closed r a = elim (get_elem? r.heap a) [
  | none ↦ done r
  | some rc ↦
      if rc.running
      then remove_client (record r { heap = set r.heap a (record rc { running = false }) })
          rc.client
      else done r
]

-- singleSend. The send on the client's channel happens under the lock; `taken` says whether
-- processClient takes it within ten seconds. If not, RemoveClient waits for the lock that
-- singleSend itself holds.
unfoldable pub single_send : Bool → Radio → Bytes → ℕ → Outcome Radio
single_send taken r d client = with_lock r (elim (load client r.clients) [
  | none ↦ done r
  | some a ↦ if taken then take_chunk r a (ram d) else done (record r { locked = true })
])

-- send and write start a goroutine for each client of the map, in the order of the map.
abbrev pub deliveries : RadioChunk → List (ℕ × ℕ) → List Delivery
deliveries c m = map (λ (entry : ℕ × ℕ). record { to = entry.1; chunk = c }) m

unfoldable pub send : Radio → Bytes → Outcome Radio
send r d = with_lock r (done (record r { in_flight = r.in_flight ++ deliveries (ram d) r.clients }))

-- write has written to the file before it takes the lock; an error of the file is a panic.
unfoldable pub write : Radio → Bytes → Outcome Radio
write r d =
    let old_pos : ℕ = r.file.whole_size in
    let c : RadioChunk = file (record { start = pos old_pos; length = pos (count d) }) in
    let (f, n, e) = BufferedFile.write r.file d in
    elim e [
      | some x ↦ panics
      | none ↦
          with_lock r
            (done (record r { file = f; in_flight = r.in_flight ++ deliveries c r.clients }))
    ]

-- A goroutine of send_helper or write_helper ends: its client takes the chunk, if that still has a
-- goroutine, or, after ten seconds, the client is removed from the map.
abbrev pub without : ℕ → List Delivery → List Delivery
without i [] = []
without zero (d ∷ ds) = ds
without (suc i) (d ∷ ds) = d ∷ without i ds

unfoldable pub deliver : Radio → ℕ → Outcome Radio
deliver r i = elim (get_elem? r.in_flight i) [
  | none ↦ done r
  | some d ↦ elim (get_elem? r.heap d.to) [
    | none ↦ done r
    | some rc ↦
        if rc.running
        then take_chunk (record r { in_flight = without i r.in_flight }) d.to d.chunk
        else done r
  ]
]

unfoldable pub give_up : Radio → ℕ → Outcome Radio
give_up r i = elim (get_elem? r.in_flight i) [
  | none ↦ done r
  | some d ↦ elim (get_elem? r.heap d.to) [
    | none ↦ done r
    | some rc ↦ remove_client (record r { in_flight = without i r.in_flight }) rc.client
  ]
]

-- The timer branch of processClient, every 100 ms: bytes for the connection of the client. On an
-- error the client is removed and its goroutine ends.
abbrev pub ticked : Radio → ℕ → RadioClient → Fetched → Outcome (Radio × Bytes)
ticked r a rc x = elim x.error [
  | none ↦ done (record r { heap = set r.heap a (record rc { list = x.list }) }, x.sent)
  | some e ↦ remove_client r rc.client >>= λ r'.
      done
        (record r' { heap = set r.heap a (record rc { list = x.list; running = false }) }, x.sent)
]

unfoldable pub tick : (Bytes → Option Error) → Radio → ℕ → Outcome (Radio × Bytes)
tick write_raw r a = elim (get_elem? r.heap a) [
  | none ↦ done (r, [])
  | some rc ↦
      if rc.running
      then elim (fetch_and_send write_raw rc.list r.file) [
        | none ↦ panics
        | some x ↦ ticked r a rc x
      ]
      else done (r, [])
]
