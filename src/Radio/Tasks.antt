-- ===== src/Radio/Tasks.antt =====
-- pkg/Radio/Utils.go: the list of chunks that a client still has to be sent.
use mathlib.Core.Option
use paintty_server_go.Prelude.{
  ℕ, zero, suc, ◌-◌, ◌*◌, ◌/◌, ◌%◌, List, [], ◌∷◌, ◌++◌, Bytes, Option, none, some, Error, ltb,
  ◌==◌, if◌then◌else◌, length, take, set, get_elem?,
}
use paintty_server_go.Prelude.Int.{ℤ, pos, negsuc, ◌+ℤ◌, eqb_ℤ, int64}
use paintty_server_go.BufferedFile.{Buffered, Reading, read, panics, read_at}

abbrev pub chunk_size : ℕ
chunk_size = 1024 * 400

abbrev pub max_chunks_in_queue : ℕ
max_chunks_in_queue = 2048

pub record FileChunk : Type 0 where
  pub start : ℤ
  pub length : ℤ

-- RadioChunk, by the types that implement it: RAMChunk and FileChunk.
pub data RadioChunk : Type 0 where
  ram : Bytes → RadioChunk
  file : FileChunk → RadioChunk

-- RadioTaskList; its mutex makes each of the operations below one step.
abbrev pub TaskList : Type 0
TaskList = List RadioChunk

unfoldable pub append : TaskList → List RadioChunk → TaskList
append r chunks = r ++ chunks

-- `none` is the panic of an index out of range.
unfoldable pub pop_back : TaskList → Option (RadioChunk × TaskList)
pop_back r = Option.map (λ c. (c, take (length r - 1) r)) (get_elem? r (length r - 1))

unfoldable pub pop_front : TaskList → Option (RadioChunk × TaskList)
pop_front [] = none
pop_front (c ∷ cs) = some (c, cs)

-- `copy(tasks[1:], tasks[0:])` moves all but the last place up by one; then place 0 is set.
unfoldable pub push_front : TaskList → RadioChunk → TaskList
push_front r c =
    let longer : TaskList = r ++ (c ∷ []) in
    let moved : TaskList = take 1 longer ++ take (length longer - 1) longer in set moved 0 c

-- The loop that doubles the chunk size while a chunk of n bytes has too many parts.
unfoldable pub grow : ℕ → ℕ → ℕ → ℕ
grow zero n size = size
grow (suc fuel) n size =
    let bigger : ℕ = grow fuel n (size * 2) in
    if ltb max_chunks_in_queue (n / size) then bigger else size

-- An int64 length is doubled past in fewer rounds.
abbrev pub grow_fuel : ℕ
grow_fuel = 64

-- `k` full parts from `c_pos` on, and behind them what the division left over.
unfoldable pub parts : ℕ → ℤ → ℕ → ℕ → List RadioChunk
parts zero c_pos size left =
    if ltb 0 left then file (record { start = c_pos; length = pos left }) ∷ [] else []
parts (suc k) c_pos size left =
    file (record { start = c_pos; length = pos size })
    ∷ parts k (int64 (c_pos +ℤ pos size)) size left

-- splitChunk. Go divides towards zero, so a negative length has no part and nothing left over.
unfoldable pub split_chunk : FileChunk → List RadioChunk
split_chunk c = elim c.length [
  | negsuc m ↦ []
  | pos n ↦ let size : ℕ = grow grow_fuel n chunk_size in parts (n / size) c.start size (n % size)
]

abbrev pub push_large_chunk : FileChunk → TaskList → TaskList
push_large_chunk c queue = append queue (split_chunk c)

abbrev pub push_ram_chunk : Bytes → TaskList → TaskList
push_ram_chunk d queue = append queue (ram d ∷ [])

-- The branch of appendToPendings on the last chunk of a list, which was taken off `list`.
unfoldable pub append_after : FileChunk → RadioChunk → TaskList → TaskList
append_after c (ram d) list = push_large_chunk c (append list (ram d ∷ []))
append_after c (file b) list =
    let new_length : ℤ = int64 (b.length +ℤ c.length) in
    if eqb_ℤ (int64 (b.start +ℤ b.length)) c.start
    then push_large_chunk (record { start = b.start; length = new_length }) list
    else push_large_chunk c (append list (file b ∷ []))

-- appendToPendings, without its log line. `none` is a panic.
unfoldable pub append_to_pendings : RadioChunk → TaskList → Option TaskList
append_to_pendings (ram d) list = some (push_ram_chunk d list)
append_to_pendings (file c) list =
    if ltb 0 (length list)
    then Option.map (λ x. append_after c x.0 x.1) (pop_back list)
    else some (push_large_chunk c list)

-- fetchAndSend: the list afterwards, the bytes handed to WriteRaw, and the error. `write_raw` is
-- what the connection says to a write. `none` is a panic, of ReadAt or of a negative length.
pub record Fetched : Type 0 where
  pub list : TaskList
  pub sent : Bytes
  pub error : Option Error

abbrev pub send_read : (Bytes → Option Error) → FileChunk → ℕ → TaskList → Reading → Option Fetched
send_read write_raw c n rest panics = none
send_read write_raw c n rest (read buf count (some e)) =
    some (record { list = push_front rest (file c); sent = []; error = none })
send_read write_raw c n rest (read buf count none) =
    if count == n
    then some (record { list = rest; sent = buf; error = write_raw buf })
    else some (record { list = push_front rest (file c); sent = []; error = none })

unfoldable pub fetch_chunk :
    (Bytes → Option Error) → RadioChunk → TaskList → Buffered → Option Fetched
fetch_chunk write_raw (ram d) rest f = some (record { list = rest; sent = d; error = write_raw d })
fetch_chunk write_raw (file c) rest f = elim c.length [
  | negsuc m ↦ none
  | pos n ↦ send_read write_raw c n rest (read_at f n c.start)
]

unfoldable pub fetch_and_send : (Bytes → Option Error) → TaskList → Buffered → Option Fetched
fetch_and_send write_raw list f = elim (pop_front list) [
  | none ↦ some (record { list = list; sent = []; error = none })
  | some (c, rest) ↦ fetch_chunk write_raw c rest f
]

-- The branch of processClient that its timer takes, n times on one state of the file: the rounds
-- go on until WriteRaw fails, after which processClient removes the client and returns.
unfoldable pub serve : ℕ → (Bytes → Option Error) → TaskList → Buffered → Option Fetched
serve zero write_raw list f = some (record { list = list; sent = []; error = none })
serve (suc n) write_raw list f = elim (fetch_and_send write_raw list f) [
  | none ↦ none
  | some r ↦ elim r.error [
    | some e ↦ some r
    | none ↦
        Option.map (λ (s : Fetched). record s { sent = r.sent ++ s.sent })
          (serve n write_raw r.list f)
  ]
]
