-- ===== src/Radio/Pieces.antt =====
-- Schedules, piece by piece: what is written or sent for a client, as whole pieces.
pub mod Conserved
pub mod Steps
use mathlib.Core.List.{flatten, Permᴰ}
use mathlib.Core.List.Permᴰ
use mathlib.Core.List.Permᴰ.{trans, cons}
use mathlib.Core.Path.{subst}
use paintty_server_go.Prelude.{
  ℕ, suc, ◌+◌, ◌^◌, ◌<◌, ◌≡◌, refl, sym, ap, ◌∙◌, true, List, [], ◌∷◌, ◌++◌, map, Bytes, Option,
  none, some, Error, length, take, drop, get_elem?, append-nil, append_assoc, arith, ◌==◌,
  if◌then◌else◌, Bool-cases, inl, inr,
}
use paintty_server_go.BufferedFile.{Buffered}
use paintty_server_go.BufferedFile.Log.{log, write-Appended}
use paintty_server_go.Radio.{
  RadioClient, Delivery, Radio, done, deliveries, write, send, deliver, tick,
}
use paintty_server_go.Radio.Tasks.{RadioChunk, ram, file, TaskList, Fetched}
use paintty_server_go.Radio.Split.{payload, payloads}
use paintty_server_go.Radio.Serve.{AllIn}
use paintty_server_go.Radio.Inside.{AllIn-front, payloads-grown, payload-grown}
use paintty_server_go.Radio.Pending.{piece, append_to_pendings-Appends}
use paintty_server_go.Radio.Owed.{
  pending, flying, IsFine, flying-append, wrote, write_lem, write-owed, new_payload, appended,
}
use paintty_server_go.Radio.Shown.{shown, send_lem, send-owed}
use paintty_server_go.Radio.Same.{Same}
use paintty_server_go.Radio.Others.{Other, act, IsOther, act-Same, act-owed}
use paintty_server_go.Radio.Returns.{Returns-at}
use paintty_server_go.Radio.Arrivals
use paintty_server_go.Radio.Arrivals.{
  flying_split, flying-without, delivered, deliver_lem, deliver_now, tasks_before, delivered-IsFine,
}
use paintty_server_go.Radio.Timer.{
  ticked_radio, ticked_lem, ticked_now, fetched, fetched-payloads, fetch_lem, tick_lem, tick-owed,
}
use paintty_server_go.Radio.Returns.{done-injective}
use paintty_server_go.Radio.Loop.{Part, write_part, send_part}
use paintty_server_go.Radio.Overtaking.{Muddle, over, writes, arrives, fires, shows, elsewhere}

-- The bytes of some chunks, each apart.
abbrev pub pieces : Bytes → TaskList → List Bytes
pieces l cs = map (payload l) cs

-- The bytes of a client's pending tasks, which are in their final order.
abbrev pub settled : Radio → ℕ → Bytes
settled r a = payloads (log r.file) (pending r a)

-- The pieces on their way to a client.
abbrev pub underway : Radio → ℕ → List Bytes
underway r a = pieces (log r.file) (flying a r.in_flight)

-- d once for each time that the address stands in the map.
abbrev pub gains : ℕ → List (ℕ × ℕ) → Bytes → List Bytes
gains a [] d = []
gains a ((c, b) ∷ m) d = if b == a then d ∷ gains a m d else gains a m d

-- All that was written or sent for the client in a schedule.
abbrev pub given : {a : ℕ} {r r' : Radio} {sent more : Bytes} → Muddle a r sent more r' → List Bytes
given over = []
given {a} (writes {r = r} d full fits e later) = gains a r.clients d ++ given later
given (arrives i d rc here to_a found runs e later) = given later
given (fires write_raw rc found runs e later) = given later
given {a} (shows {r = r} d e later) = gains a r.clients d ++ given later
given (elsewhere o other e later) = given later

pub pieces-append :
    (l : Bytes) (xs ys : TaskList) → pieces l (xs ++ ys) ≡ pieces l xs ++ pieces l ys
pieces-append l [] ys = refl
pieces-append l (x ∷ xs) ys = ap (λ (ps : List Bytes). payload l x ∷ ps) (pieces-append l xs ys)

pub pieces-grown :
    (l e : Bytes) (list : TaskList) → AllIn list l → pieces (l ++ e) list ≡ pieces l list
pieces-grown l e [] h = refl
pieces-grown l e (ram d ∷ list) h = ap (λ (ps : List Bytes). d ∷ ps) (pieces-grown l e list h)
pieces-grown l e (file k ∷ list) h =
    rw (payload-grown l e k.start k.length h.0, pieces-grown l e list h.1) refl

pub pieces-deliveries :
    (l : Bytes) (a : ℕ) (c : RadioChunk) (m : List (ℕ × ℕ))
    → pieces l (flying a (deliveries c m)) ≡ gains a m (payload l c)
pieces-deliveries l a c [] = refl
pieces-deliveries l a c ((x, b) ∷ m) = elim (Bool-cases (b == a)) [
  | inl here ↦ rw here (ap (λ (ps : List Bytes). payload l c ∷ ps) (pieces-deliveries l a c m))
  | inr other ↦ rw other (pieces-deliveries l a c m)
]

-- All that was written and sent in a schedule, as the radio took it from WriteChan and SendChan.
abbrev pub told : {a : ℕ} {r r' : Radio} {sent more : Bytes} → Muddle a r sent more r' → List Part
told over = []
told (writes d full fits e later) = write_part d ∷ told later
told (arrives i d rc here to_a found runs e later) = told later
told (fires write_raw rc found runs e later) = told later
told (shows d e later) = send_part d ∷ told later
told (elsewhere o other e later) = told later

-- The client's address stands once in the map whenever something is written or sent.
abbrev pub Listens : {a : ℕ} {r r' : Radio} {sent more : Bytes} → Muddle a r sent more r' → Type 0
Listens over = Unit
Listens {a} (writes {r = r} d full fits e later) = (gains a r.clients d ≡ d ∷ []) × Listens later
Listens (arrives i d rc here to_a found runs e later) = Listens later
Listens (fires write_raw rc found runs e later) = Listens later
Listens {a} (shows {r = r} d e later) = (gains a r.clients d ≡ d ∷ []) × Listens later
Listens (elsewhere o other e later) = Listens later

abbrev pub bytes_of : List Part → List Bytes
bytes_of [] = []
bytes_of (write_part d ∷ ps) = d ∷ bytes_of ps
bytes_of (send_part d ∷ ps) = d ∷ bytes_of ps
bytes_of (_ ∷ ps) = bytes_of ps

pub given-told :
    {a : ℕ} {r r' : Radio} {sent more : Bytes} (m : Muddle a r sent more r')
    → Listens m
    → given m ≡ bytes_of (told m)
given-told over h = refl
given-told (writes d full fits e later) (once, h) = cc (once, given-told later h)
given-told (arrives i d rc here to_a found runs e later) h = given-told later h
given-told (fires write_raw rc found runs e later) h = given-told later h
given-told (shows d e later) (once, h) = cc (once, given-told later h)
given-told (elsewhere o other e later) h = given-told later h
