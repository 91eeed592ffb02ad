-- ===== src/Radio/Deaf.antt =====
-- processClient and the close callback that it registers: what happens to a client's Close when its
-- goroutine has ended by itself.
use mathlib.Core.Path.{subst}
use paintty_server_go.Prelude.{
  ◌++◌, ℕ, ◌≡◌, refl, ◌∙◌, Bool, true, false, List, [], ◌∷◌, Bytes, Option, none, some, Error,
  arith, get_elem?,
}
use paintty_server_go.BufferedFile.Log.{log}
use paintty_server_go.Socket.Client.{unused, SocketClient, register_close_callback, close}
use paintty_server_go.Socket.Client.Closing.{close_deaf}
use paintty_server_go.Radio.{RadioClient, Radio, done, tick}
use paintty_server_go.Radio.Tasks.{RadioChunk, TaskList, Fetched, fetch_and_send}
use paintty_server_go.Radio.Split.{payload}
use paintty_server_go.Radio.Serve.{AllIn}
use paintty_server_go.Radio.Inside.{AllIn-front}
use paintty_server_go.Radio.Owed.{pending, flying, IsFine}
use paintty_server_go.Radio.Arrivals.{get_elem?-set}
use paintty_server_go.Radio.Timer.{ticked_radio, ticked_lem, fetch_lem, tick_lem}

-- The goroutine of a close callback of the radio listens while processClient runs at that address.
abbrev pub listens : Radio → ℕ → Bool
listens r a = elim (get_elem? r.heap a) [ none ↦ false | some rc ↦ rc.running ]

module _ (write_raw : Bytes → Option Error) (r : Radio) (a : ℕ) (rc : RadioClient) where
  rest_inside : (found : get_elem? r.heap a ≡ some rc) → IsFine r a → AllIn rc.list (log r.file)
  rest_inside found fine =
      let now : pending r a ≡ rc.list = ground (arith, found) in
      (AllIn-front rc.list (flying a r.in_flight) (log r.file) (
        subst (λ (t : TaskList). AllIn (t ++ flying a r.in_flight) (log r.file)) now fine.inside)).0

  -- If the connection refuses the bytes of a client's first pending task, the client's goroutine ends,
  -- and its close callback is no longer heard: the radio returns, but when the connection is closed
  -- after it, Close never returns, and neither does a later registration of a callback. The radio is
  -- fine for the client, which runs and has registered its callback first.
  pub tick-close :
      (c : RadioChunk) (list : TaskList) (fault : Error) (con : SocketClient) (after : List ℕ)
      → IsFine r a
      → get_elem? r.heap a ≡ some rc
      → rc.running ≡ true
      → rc.list ≡ c ∷ list
      → write_raw (payload (log r.file) c) ≡ some fault
      → con.close_flag ≡ unused
      → con.callbacks ≡ a ∷ after
      → (r' : Radio) × (sent : Bytes) × (tick write_raw r a ≡ done (r', sent))
        × ((close (listens r') con).returns ≡ false)
        × ((b : ℕ) → (register_close_callback b (close (listens r') con).client).returns ≡ false)
  tick-close c list fault con after fine found runs first fails flag cs =
      let x : Fetched = record { list = list; sent = payload (log r.file) c; error = some fault } in
      let e : fetch_and_send write_raw rc.list r.file ≡ some x =
        fetch_lem write_raw r.file fine.valid fine.calm rc.list (rest_inside found fine)
        ∙ rw (first, fails) refl in
      let r' : Radio = ticked_radio r a rc (some fault) list in
      let there : get_elem? r'.heap a ≡ some (record rc { list = list; running = false }) =
        get_elem?-set r.heap a (record rc { list = list; running = false }) rc found in
      let deaf : listens r' a ≡ false = ground (arith, there) in
      let (called, stops, shut, later, registers) =
        close_deaf (listens r') con [] a after flag cs tt deaf in
      (
        r',
        x.sent,
        tick_lem write_raw r a rc x found runs e
            ∙ ticked_lem r a rc list x.sent (some fault) fine.free,
        stops,
        registers,
      )
