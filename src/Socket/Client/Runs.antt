-- ===== src/Socket/Client/Runs.antt =====
-- A client at concrete inputs, and its theorems at them.
use mathlib.Core.List.{flatten}
use paintty_server_go.Prelude.{
  ℕ, ◌≡◌, refl, Bool, true, false, List, [], ◌∷◌, Bytes, none, some, arith, ◌==◌, map,
}
use paintty_server_go.Common.{Zlib, qcompress}
use paintty_server_go.Socket.Pack.{protocol_pack, header_bits, buffer_to_pack, assamble_pack}
use paintty_server_go.Socket.Client.{
  SocketClient, make_socket_client, register_close_callback, close, run, write_raw, send_pack,
  send_data_pack, send_command_pack,
}
use paintty_server_go.Socket.Client.Wire.{Message, data_message, command_message, pack_of, run-send}
use paintty_server_go.Socket.Reader.RoundTrip.{received}
use paintty_server_go.Socket.Client.Closing.{close-close, close_deaf}

-- A stored stream.
abbrev stored : Zlib
stored = record { deflate = λ d. d; inflate = λ d. some d; inflate-deflate = λ d. refl }

abbrev said : List Message
said = data_message (7 ∷ []) ∷ command_message (5 ∷ 6 ∷ []) ∷ []

-- The two frames, in reads that do not end where a frame does.
abbrev cut : List Bytes
cut =
    (0 ∷ 0 ∷ 0 ∷ 6 ∷ 5 ∷ 0 ∷ [])
    ∷ (0 ∷ 0 ∷ 1 ∷ 7 ∷ 0 ∷ 0 ∷ [])
    ∷ (0 ∷ 7 ∷ 3 ∷ 0 ∷ 0 ∷ 0 ∷ 2 ∷ 5 ∷ 6 ∷ [])
    ∷ []

abbrev listener : SocketClient
listener = record make_socket_client { callbacks = 0 ∷ 1 ∷ 2 ∷ [] }

run-send_example :
    run stored (λ a. true) listener cut
    ≡ some (map (received stored) (map pack_of said), close (λ a. true) listener)
unfolding assamble_pack buffer_to_pack header_bits protocol_pack qcompress flatten send_data_pack
    send_command_pack send_pack write_raw
run-send_example =
    run-send stored (λ d. none) said cut (λ a. true) listener (omega arith, (omega arith, tt)) refl

close-close_run :
    ((close (λ a. true) listener).called ≡ 0 ∷ 1 ∷ 2 ∷ [])
    × ((close (λ a. true) listener).returns ≡ true)
    × ((close (λ a. true) listener).client.con_open ≡ false)
    × ((close (λ a. true) listener).client.channel_open ≡ false)
    × (close (λ a. true) (close (λ a. true) listener).client
        ≡ record { client = (close (λ a. true) listener).client; called = []; returns = true })
close-close_run = close-close (λ a. true) listener refl (refl, (refl, (refl, tt)))

-- The callback 1 is not heard.
close_deaf_run :
    ((close (λ a. a == 0) listener).called ≡ 0 ∷ [])
    × ((close (λ a. a == 0) listener).returns ≡ false)
    × ((close (λ a. a == 0) listener).client.con_open ≡ false)
    × ((later : ℕ → Bool) → (close later (close (λ a. a == 0) listener).client).returns ≡ false)
    × ((b : ℕ) → (register_close_callback b (close (λ a. a == 0) listener).client).returns ≡ false)
close_deaf_run = close_deaf (λ a. a == 0) listener (0 ∷ []) 1 (2 ∷ []) refl refl (refl, tt) refl
