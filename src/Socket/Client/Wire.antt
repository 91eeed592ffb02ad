-- ===== src/Socket/Client/Wire.antt =====
-- The four senders of pkg/Socket/Socket.go, and the read loop at the other end of the connection.
use mathlib.Core.List.{flatten}
use paintty_server_go.Prelude.{
  ℕ, ◌≡◌, refl, ap, ◌∙◌, Bool, true, List, [], ◌∷◌, ◌++◌, map, Bytes, Option, some, Error, arith,
}
use paintty_server_go.Common.{Zlib, qcompress}
use paintty_server_go.Socket.Pack.{
  assamble_pack, buffer_to_pack, manager, command, drawing, message,
}
use paintty_server_go.Socket.Reader.{Package, Status, new_reader, waiting, run_read_loop}
use paintty_server_go.Socket.Reader.RoundTrip.{Pack, wire, received, AllFit, run_read_loop-wire}
use paintty_server_go.Socket.Client.{
  Sent, SocketClient, write_raw, send_pack, send_data_pack, send_message_pack, send_command_pack,
  send_manager_pack, close, run,
}

-- A call of one of the four senders.
pub data Message : Type 0 where
  data_message : Bytes → Message
  text_message : Bytes → Message
  command_message : Bytes → Message
  manager_message : Bytes → Message

abbrev pub send : Zlib → (Bytes → Option Error) → Message → Sent
send z con (data_message d) = send_data_pack z con d
send z con (text_message d) = send_message_pack z con d
send z con (command_message d) = send_command_pack z con d
send z con (manager_message d) = send_manager_pack z con d

abbrev packed : ℕ → Bytes → Pack
packed t d = record { header = record { compress = true; pack_type = t }; content = d }

abbrev pub pack_of : Message → Pack
pack_of (data_message d) = packed drawing d
pack_of (text_message d) = packed message d
pack_of (command_message d) = packed command d
pack_of (manager_message d) = packed manager d

module _ (z : Zlib) (con : Bytes → Option Error) where
  -- Each sender hands exactly the frame that AssamblePack builds to the connection, and returns the
  -- connection's error.
  pub send-frame :
      (k : Message)
      → ((send z con k).handed ≡ assamble_pack z (pack_of k).header (pack_of k).content)
        × ((send z con k).error ≡ con (assamble_pack z (pack_of k).header (pack_of k).content))
  unfolding send_data_pack send_message_pack send_command_pack send_manager_pack send_pack write_raw
      assamble_pack buffer_to_pack qcompress
  send-frame (data_message d) = (refl, refl)
  send-frame (text_message d) = (refl, refl)
  send-frame (command_message d) = (refl, refl)
  send-frame (manager_message d) = (refl, refl)

  -- Everything that was handed to the connection.
  abbrev pub stream : List Message → Bytes
  stream [] = []
  stream (k ∷ ks) = (send z con k).handed ++ stream ks

  pub stream-wire : (ks : List Message) → stream ks ≡ wire z (map pack_of ks)
  stream-wire [] = refl
  stream-wire (k ∷ ks) =
      ap (λ (b : Bytes). b ++ stream ks) (send-frame k).0
      ∙ ap (◌++◌ (assamble_pack z (pack_of k).header (pack_of k).content)) (stream-wire ks)

  -- What one side sends with the four senders, the read loop of the other side hands on: a package
  -- for each call, in order, with its type and its bytes, however the network cuts the stream into
  -- reads; and at the end of the stream the client is closed. Each frame fits the size field.
  pub run-send :
      (ks : List Message) (chunks : List Bytes) (listens : ℕ → Bool) (c : SocketClient)
      → AllFit z (map pack_of ks)
      → flatten chunks ≡ stream ks
      → run z listens c chunks ≡ some (map (received z) (map pack_of ks), close listens c)
  unfolding run
  run-send ks chunks listens c fit e =
      let ends = run_read_loop-wire z (map pack_of ks) chunks fit (e ∙ stream-wire ks) in
      let out : (run_read_loop z new_reader chunks).out ≡ map (received z) (map pack_of ks) =
        ap (λ (x : List Package × Status). x.0) ends in
      let status : (run_read_loop z new_reader chunks).status ≡ waiting =
        ap (λ (x : List Package × Status). x.1) ends in
      ground (arith, out, status)
