-- ===== src/Socket/Client/Closing.antt =====
-- Close of pkg/Socket/Socket.go, and the close callbacks of a client.
use paintty_server_go.Prelude.{ℕ, ◌≡◌, refl, ap, ◌∙◌, Bool, true, false, List, [], ◌∷◌, ◌++◌, arith}
use paintty_server_go.Socket.Client.{
  Once, unused, running, over, SocketClient, register_close_callback, run_callbacks, close,
}

abbrev pub AllListen : (ℕ → Bool) → List ℕ → Type 0
AllListen listens [] = Unit
AllListen listens (a ∷ rest) = (listens a ≡ true) × AllListen listens rest

run_callbacks-AllListen :
    (listens : ℕ → Bool) (cs : List ℕ)
    → AllListen listens cs
    → run_callbacks listens cs ≡ (cs, true)
unfolding run_callbacks
run_callbacks-AllListen listens [] h = refl
run_callbacks-AllListen listens (a ∷ rest) h =
    ground (arith, h.0, run_callbacks-AllListen listens rest h.1)

run_callbacks_deaf :
    (listens : ℕ → Bool) (before : List ℕ) (a : ℕ) (after : List ℕ)
    → AllListen listens before
    → listens a ≡ false
    → run_callbacks listens (before ++ a ∷ after) ≡ (before, false)
unfolding run_callbacks
run_callbacks_deaf listens [] a after h deaf = ground (arith, deaf)
run_callbacks_deaf listens (b ∷ before) a after h deaf =
    ground (arith, h.0, run_callbacks_deaf listens before a after h.1 deaf)

-- A client whose connection and channel are closed.
abbrev shut : List ℕ → Once → SocketClient
shut cs flag = record { con_open = false; channel_open = false; callbacks = cs; close_flag = flag }

-- The first Close of a client whose callbacks are all heard calls each of them once, in the order in
-- which they were registered, closes the connection and the channel, and returns; a second Close
-- returns at once and calls none.
pub close-close :
    (listens : ℕ → Bool) (c : SocketClient)
    → c.close_flag ≡ unused
    → AllListen listens c.callbacks
    → ((close listens c).called ≡ c.callbacks)
      × ((close listens c).returns ≡ true)
      × ((close listens c).client.con_open ≡ false)
      × ((close listens c).client.channel_open ≡ false)
      × (close listens (close listens c).client
          ≡ record { client = (close listens c).client; called = []; returns = true })
unfolding close
close-close listens c first h =
    let e : close listens c
        ≡ record { client = shut [] over; called = c.callbacks; returns = true } =
      ground (arith, first, run_callbacks-AllListen listens c.callbacks h) in
    rw e (refl, refl, refl, refl, refl)

-- If a callback is not heard, Close has closed the connection and the channel and called those before
-- it, but it never returns; then no later Close returns either, nor does RegisterCloseCallback.
pub close_deaf :
    (listens : ℕ → Bool) (c : SocketClient) (before : List ℕ) (a : ℕ) (after : List ℕ)
    → c.close_flag ≡ unused
    → c.callbacks ≡ before ++ a ∷ after
    → AllListen listens before
    → listens a ≡ false
    → ((close listens c).called ≡ before)
      × ((close listens c).returns ≡ false)
      × ((close listens c).client.con_open ≡ false)
      × ((later : ℕ → Bool) → (close later (close listens c).client).returns ≡ false)
      × ((b : ℕ) → (register_close_callback b (close listens c).client).returns ≡ false)
unfolding close register_close_callback
close_deaf listens c before a after first cs h deaf =
    let heard : run_callbacks listens c.callbacks ≡ (before, false) =
      ap (run_callbacks listens) cs ∙ run_callbacks_deaf listens before a after h deaf in
    let e : close listens c
        ≡ record { client = shut c.callbacks running; called = before; returns = false } =
      ground (arith, first, heard) in
    rw e (refl, refl, refl, (λ later. refl), (λ b. refl))
