-- ===== src/WatchDog/Answers.antt =====
-- The watchdog's question to the hall and the hall's answer, over the connection.
use mathlib.Core.List.{flatten}
use paintty_server_go.Prelude.{
  ℕ, ◌≡◌, refl, ◌∙◌, Bool, false, List, [], ◌∷◌, Bytes, Option, some, Error, String, arith,
  append-nil, sym,
}
use paintty_server_go.Common.{Zlib}
use paintty_server_go.Prelude.Maps.{string_Eq, load, store}
use paintty_server_go.Config.{ConfMap}
use paintty_server_go.Socket.Pack.{manager}
use paintty_server_go.Socket.Reader.{Package}
use paintty_server_go.Socket.Reader.RoundTrip.{received, Fits}
use paintty_server_go.Socket.Client.{SocketClient, close, run, send_manager_pack}
use paintty_server_go.Socket.Client.Wire.{manager_message, pack_of, run-send}
use paintty_server_go.Router.{Unmarshal, make_router, register, on_message}
use paintty_server_go.Room.Serving.{World}
use paintty_server_go.RoomManager.{RoomManager, handle_room_list}
use paintty_server_go.RoomManager.Serving.{Json, Reply, rooms, router, handle, process_package}
use paintty_server_go.WatchDog.{send_message, closes}

-- The only package of a client that sent some bytes as a manager pack.
abbrev pub manager_package : Zlib → Bytes → Package
manager_package z d = received z (pack_of (manager_message d))

run-manager :
    (z : Zlib) (con : Bytes → Option Error) (d : Bytes) (chunks : List Bytes) (listens : ℕ → Bool)
    (c : SocketClient)
    → Fits z (pack_of (manager_message d))
    → flatten chunks ≡ (send_manager_pack z con d).handed
    → run z listens c chunks ≡ some (manager_package z d ∷ [], close listens c)
run-manager z con d chunks listens c fits e =
    run-send z con (manager_message d ∷ []) chunks listens c (fits, tt)
      (e ∙ sym (append-nil (send_manager_pack z con d).handed))

room_list-process_package :
    (confs : ConfMap) (w : World) (j : Json) (p : Package) (m : RoomManager)
    (member : String → Option String)
    → p.package_type ≡ manager
    → j.unmarshal p.unpacked ≡ some member
    → member "request" ≡ some "roomlist"
    → process_package confs w j p m
      ≡ record { after = m; calls = []; replies = rooms (handle_room_list m) ∷ []; closes = false }
unfolding process_package on_message router make_router register handle load store
room_list-process_package confs w j p m member hall parsed request =
    ground (arith, hall, parsed, request)

closes_reply :
    (u : Unmarshal) (p : Package) (member : String → Option String) (v : String)
    → u p.unpacked ≡ some member
    → member "response" ≡ some v
    → closes u p ≡ false
unfolding closes on_message make_router load
closes_reply u p member v parsed reply = ground (arith, parsed, reply)

-- The watchdog's question reaches the hall, however the network cuts it, as one package, which
-- changes nothing there and is answered with the list of the rooms; the answer reaches the watchdog
-- as one package, which does not close its connection. Both frames fit the size field; each side's
-- json.Unmarshal finds the member that its router looks for, which is "roomlist" in the question.
pub send_message-answer :
    (z : Zlib) (confs : ConfMap) (w : World) (j : Json) (m : RoomManager) (u : Unmarshal)
    (marshal : String → Bytes) (marshal_reply : Reply → Bytes) (con con' : Bytes → Option Error)
    (chunks chunks' : List Bytes) (listens listens' : ℕ → Bool) (c c' : SocketClient)
    (request reply : String → Option String) (v : String)
    → Fits z (pack_of (manager_message (marshal "roomlist")))
    → Fits z (pack_of (manager_message (marshal_reply (rooms (handle_room_list m)))))
    → flatten chunks ≡ (send_message z marshal con).handed
    → flatten chunks'
      ≡ (send_manager_pack z con' (marshal_reply (rooms (handle_room_list m)))).handed
    → j.unmarshal (marshal "roomlist") ≡ some request
    → request "request" ≡ some "roomlist"
    → u (marshal_reply (rooms (handle_room_list m))) ≡ some reply
    → reply "response" ≡ some v
    → (question answer : Package) × (run z listens c chunks ≡ some (question ∷ [], close listens c))
      × (process_package confs w j question m ≡ record {
        after = m;
        calls = [];
        replies = rooms (handle_room_list m) ∷ [];
        closes = false;
      })
      × (run z listens' c' chunks' ≡ some (answer ∷ [], close listens' c'))
      × (closes u answer ≡ false)
unfolding send_message
send_message-answer z confs w j m u marshal marshal_reply con con' chunks chunks' listens listens' c
      c' request reply v fits fits' e e' parsed asks parsed' says =
    let d : Bytes = marshal "roomlist" in
    let d' : Bytes = marshal_reply (rooms (handle_room_list m)) in
    (
      manager_package z d,
      manager_package z d',
      run-manager z con d chunks listens c fits e,
      room_list-process_package confs w j (manager_package z d) m request refl parsed asks,
      run-manager z con' d' chunks' listens' c' fits' e',
      closes_reply u (manager_package z d') reply v parsed' says,
    )
