-- ===== src/WatchDog.antt =====
-- src/watchDog/watchDog.go: the process that starts the server, asks it for its rooms every ten
-- seconds, and kills it when it has been silent for thirty. Times are in seconds from the start of
-- the server's process.
pub mod Silence
pub mod Answers
pub mod Questions
mod Runs
use paintty_server_go.Prelude.{
  ℕ, zero, suc, ◌+◌, Bool, true, false, List, [], ◌∷◌, Bytes, Option, none, some, Error, String,
  ◌==◌, ltb, if◌then◌else◌,
}
use paintty_server_go.Common.{Zlib}
use paintty_server_go.Socket.Pack.{manager}
use paintty_server_go.Socket.Reader.{Package}
use paintty_server_go.Socket.Client.{Sent, send_manager_pack}
use paintty_server_go.Router.{Unmarshal, Router, fails, ignored, routed, make_router, on_message}

-- sendMessage: json.Marshal of a RoomListRequest with the request "roomlist".
unfoldable pub send_message : Zlib → (String → Bytes) → (Bytes → Option Error) → Sent
send_message z marshal con = send_manager_pack z con (marshal "roomlist")

-- The first goroutine of `loop`, from a time on: when it sends its next n questions, of one every ten
-- seconds, until the close callback is called.
unfoldable pub questions : ℕ → Option ℕ → ℕ → List ℕ
questions zero closed t = []
questions (suc n) closed t =
    let later : List ℕ = (t + 10) ∷ questions n closed (t + 10) in
    elim closed [ none ↦ later | some end ↦ if ltb (t + 10) end then later else [] ]

-- The router of `loop`, for which no handler is registered.
abbrev pub router : Router (Unit {0})
router = make_router "response"

-- Whether a package makes `loop` close the connection.
unfoldable pub closes : Unmarshal → Package → Bool
closes unmarshal p =
    if p.package_type == manager
    then elim (on_message unmarshal router p.unpacked) [
      | fails ↦ true
      | ignored ↦ false
      | routed h ↦ false
    ]
    else false

-- What `loop` gets from the server: a package some seconds after the one before, the end of the
-- connection, or nothing any more.
pub data Traffic : Type 0 where
  silence : Traffic
  ends : ℕ → Traffic
  comes : ℕ → Package → Traffic → Traffic

-- The second goroutine of `loop`, which listens from a time on: when it first sends on `dead`. At
-- thirty seconds the timer comes first. A package that closes the connection is the last one.
unfoldable pub seems_dead : Unmarshal → Traffic → ℕ → Option ℕ
seems_dead u silence t = some (t + 30)
seems_dead u (ends n) t = if ltb n 30 then none else some (t + 30)
seems_dead u (comes n p later) t =
    let rest : Option ℕ = seems_dead u later (t + n) in
    if ltb n 30 then if closes u p then none else rest else some (t + 30)

-- The end of `watch`: the process is killed, it has ended by itself, or neither happens.
pub data Watched : Type 0 where
  killed : ℕ → Watched
  exited : ℕ → Watched
  waits : Watched

-- watch: the time of the report and that of the end of the process, if there are any.
unfoldable pub watch : Option ℕ → Option ℕ → Watched
watch none none = waits
watch none (some e) = exited e
watch (some d) none = killed d
watch (some d) (some e) = if ltb d e then killed d else exited e

-- What a start of the server meets: whether the process starts and the dial succeeds ten seconds
-- later, what comes over the connection, and when the process ends by itself.
pub record Start : Type 0 where
  pub starts : Bool
  pub dials : Bool
  pub traffic : Traffic
  pub exit : Option ℕ

-- startProc: the process, by when it ends; none is the panic when it cannot be started.
unfoldable pub start_proc : Start → Option (Option ℕ)
start_proc s = if s.starts then some s.exit else none

-- dial: the connection, by what comes over it; none is the panic when nobody listens.
unfoldable pub dial : Start → Option Traffic
dial s = if s.dials then some s.traffic else none

-- A round of main; none is a panic.
unfoldable pub round : Unmarshal → Start → Option Watched
round u s = elim (start_proc s) [
  | none ↦ none
  | some exit ↦ elim (dial s) [
    | none ↦ none
    | some traffic ↦ some (watch (seems_dead u traffic 10) exit)
  ]
]

-- main, as long as there are starts: how each of its rounds ends.
unfoldable pub main : Unmarshal → List Start → List Watched
main u [] = []
main u (s ∷ later) =
    let rest : List Watched = main u later in
    elim (round u s) [ none ↦ [] | some w ↦ elim w [ waits ↦ waits ∷ [] | ended ↦ ended ∷ rest ] ]
