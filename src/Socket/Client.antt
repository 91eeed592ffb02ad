-- ===== src/Socket/Client.antt =====
-- pkg/Socket/Socket.go: a client's connection, what is sent over it, and how it is closed.
-- The connection is a parameter: what its Write says to some bytes. A close callback is a number, and
-- stands for the goroutine that waits for its signal.
pub mod Wire
pub mod Closing
mod Runs
use paintty_server_go.Prelude.{
  ℕ, Bool, true, false, List, [], ◌∷◌, ◌++◌, Bytes, Result, ok, err, Error, Option, none, some,
  if◌then◌else◌,
}
use paintty_server_go.Common.{Zlib}
use paintty_server_go.Socket.Pack.{
  PackHeader, protocol_pack, buffer_to_pack, manager, command, drawing, message,
}
use paintty_server_go.Socket.Reader.{
  Package, Reader, new_reader, Run, Status, waiting, failed, panicked, stuck, run_read_loop,
}

-- What a send hands to the connection, and its error.
pub record Sent : Type 0 where
  pub handed : Bytes
  pub error : Option Error

unfoldable pub write_raw : (Bytes → Option Error) → Bytes → Sent
write_raw con d = record { handed = d; error = con d }

unfoldable pub send_pack : (Bytes → Option Error) → Bytes → Sent
send_pack con d = write_raw con (protocol_pack d)

-- What the four senders share: a compressed pack of some type.
abbrev pub send_type : ℕ → Zlib → (Bytes → Option Error) → Bytes → Sent
send_type t z con d = elim (buffer_to_pack z d (record { compress = true; pack_type = t })) [
  | err e ↦ record { handed = []; error = some e }
  | ok result ↦ send_pack con result
]

unfoldable pub send_data_pack : Zlib → (Bytes → Option Error) → Bytes → Sent
send_data_pack = send_type drawing

unfoldable pub send_message_pack : Zlib → (Bytes → Option Error) → Bytes → Sent
send_message_pack = send_type message

unfoldable pub send_command_pack : Zlib → (Bytes → Option Error) → Bytes → Sent
send_command_pack = send_type command

unfoldable pub send_manager_pack : Zlib → (Bytes → Option Error) → Bytes → Sent
send_manager_pack = send_type manager

-- closeFlag, a sync.Once: not used, with its function running, and done.
pub data Once : Type 0 where
  unused : Once
  running : Once
  over : Once

pub record SocketClient : Type 0 where
  pub con_open : Bool
  pub channel_open : Bool
  pub callbacks : List ℕ
  pub close_flag : Once

-- MakeSocketClient, without the options of the connection and the goroutine of its read loop.
abbrev pub make_socket_client : SocketClient
make_socket_client = record {
  con_open = true;
  channel_open = true;
  callbacks = [];
  close_flag = unused;
}

-- What a call on a client gives: the client, the callbacks that were called, in order, and whether
-- the call returns.
pub record Called : Type 0 where
  pub client : SocketClient
  pub called : List ℕ
  pub returns : Bool

-- RegisterCloseCallback, which waits for the lock that a running Close holds.
unfoldable pub register_close_callback : ℕ → SocketClient → Called
register_close_callback a c = elim c.close_flag [
  | running ↦ record { client = c; called = []; returns = false }
  | _ ↦ record {
    client = record c { callbacks = c.callbacks ++ a ∷ [] };
    called = [];
    returns = true;
  }
]

-- The loop over the callbacks. A callback sends on a channel without a buffer: it returns if its
-- goroutine listens.
unfoldable pub run_callbacks : (ℕ → Bool) → List ℕ → List ℕ × Bool
run_callbacks listens [] = ([], true)
run_callbacks listens (a ∷ later) =
    let (called, returns) = run_callbacks listens later in
    if listens a then (a ∷ called, returns) else ([], false)

-- The function of closeFlag: the connection and the channel are closed, and the callbacks are called.
abbrev pub close_first : (ℕ → Bool) → SocketClient → Called
close_first listens c =
    let (called, returns) = run_callbacks listens c.callbacks in
    record {
      client = record {
        con_open = false;
        channel_open = false;
        callbacks = if returns then [] else c.callbacks;
        close_flag = if returns then over else running;
      };
      called = called;
      returns = returns;
    }

-- Close: a second call waits for the first, and then does nothing.
unfoldable pub close : (ℕ → Bool) → SocketClient → Called
close listens c = elim c.close_flag [
  | unused ↦ close_first listens c
  | running ↦ record { client = c; called = []; returns = false }
  | over ↦ record { client = c; called = []; returns = true }
]

-- RunReadLoop: what it hands on and its end. The reads of the connection are cut at 128 bytes, and
-- their end is an error of Read; any error closes the client. None is the panic of OnData, or that
-- the fuel of its loop ran out.
unfoldable pub run : Zlib → (ℕ → Bool) → SocketClient → List Bytes → Option (List Package × Called)
run z listens c chunks =
    let r : Run = run_read_loop z new_reader chunks in
    elim r.status [
      | waiting ↦ some (r.out, close listens c)
      | failed e ↦ some (r.out, close listens c)
      | panicked ↦ none
      | stuck ↦ none
    ]
