-- ===== src/RoomManager/Count.antt =====
-- The count of the rooms of a hall, over requests for new rooms and rooms that close.
use paintty_server_go.Prelude.{
  ℕ, suc, ◌+◌, ◌^◌, ◌≤◌, ◌<◌, ◌≡◌, ◌≢◌, refl, false, List, [], ◌∷◌, none, some, String, arith, ltb,
  length, Bool-cases, Option-cases, inl, inr,
}
use paintty_server_go.Prelude.Int.{ℤ, pos, negsuc, ◌-ℤ◌, ◌≤ℤ◌, leb_ℤ, int32}
use paintty_server_go.Prelude.Maps.{string_Eq}
use paintty_server_go.Config.{ConfMap, read_conf_int}
use paintty_server_go.ErrorCode.{new_room_too_many_rooms}
use paintty_server_go.Room.{RoomOption}
use paintty_server_go.Room.Serving.{RoomRuntimeInfo, World, serve_room, recover_room}
use paintty_server_go.RoomManager.{
  RoomManager, limit_room_option, store_room, handle_new_room, wait_room_closed, recovery,
}

-- What happens to the manager: a request for a new room, and a room that has closed.
pub data Event : Type 0 where
  request : World → RoomOption → Event
  closed : String → Event

-- A request that panics is recovered by the router and changes nothing.
unfoldable pub step : ConfMap → Event → RoomManager → RoomManager
step confs (request w o) m = elim (handle_new_room confs w o m) [ none ↦ m | some r ↦ r.0 ]
step confs (closed name) m = (wait_room_closed name m).0

unfoldable pub run : ConfMap → List Event → RoomManager → RoomManager
run confs [] m = m
run confs (e ∷ events) m = run confs events (step confs e m)

-- A manager when the server starts.
abbrev pub fresh : RoomManager
fresh = record { rooms = []; current_room_count = pos 0 }

-- Not above zero, and not more than k below.
abbrev Fallen : ℕ → ℤ → Type 0
Fallen k (pos n) = n ≡ 0
Fallen k (negsuc n) = suc n ≤ k

Fallen-less : (k : ℕ) (c : ℤ) → k < 2 ^ 31 → Fallen k c → Fallen (suc k) (int32 (c -ℤ pos 1))
unfolding int32 ◌-ℤ◌
Fallen-less k (pos n) small h = ground arith
Fallen-less k (negsuc n) small h = ground arith

Fallen-more : (j k : ℕ) (c : ℤ) → j ≤ k → Fallen j c → Fallen k c
Fallen-more j k (pos n) le h = h
Fallen-more j k (negsuc n) le h = omega arith

Fallen-step :
    (confs : ConfMap) (e : Event) (m : RoomManager) (k : ℕ)
    → k < 2 ^ 31
    → Fallen k m.current_room_count
    → Fallen (suc k) (step confs e m).current_room_count
unfolding step handle_new_room wait_room_closed
Fallen-step confs (closed name) m k small h = Fallen-less k m.current_room_count small h
Fallen-step confs (request w o) m k small h =
    elim (Bool-cases (ltb 0 (limit_room_option confs m o))) [
      | inl bad ↦ rw (bad, Fallen) (Fallen-more k (suc k) m.current_room_count (omega arith) h)
      | inr good ↦ elim (Option-cases (serve_room w (read_conf_int "expiration" (pos 0) confs) o)) [
        | inl fails ↦
            rw (good, fails, Fallen) (Fallen-more k (suc k) m.current_room_count (omega arith) h)
        | inr (room, e) ↦ rw (good, e, Fallen) (Fallen-less k m.current_room_count small h)
      ]
    ]

Fallen-run :
    (confs : ConfMap) (events : List Event) (m : RoomManager) (k : ℕ)
    → k + length events ≤ 2 ^ 31
    → Fallen k m.current_room_count
    → Fallen (k + length events) (run confs events m).current_room_count
unfolding run
Fallen-run confs [] m k small h = Fallen-more k (k + 0) m.current_room_count (omega arith) h
Fallen-run confs (e ∷ events) m k small h =
    Fallen-more (suc k + length events) (k + suc (length events))
      (run confs (e ∷ events) m).current_room_count (omega arith)
      (Fallen-run confs events (step confs e m) (suc k) (omega arith)
        (Fallen-step confs e m k (omega arith) h))

Fallen-recovery :
    (found : List (RoomRuntimeInfo × World)) (m : RoomManager) (k : ℕ)
    → k + length found ≤ 2 ^ 31
    → Fallen k m.current_room_count
    → Fallen (k + length found) (recovery found m).current_room_count
unfolding recovery
Fallen-recovery [] m k small h = Fallen-more k (k + 0) m.current_room_count (omega arith) h
Fallen-recovery ((info, w) ∷ found) m k small h = elim (Option-cases (recover_room w info)) [
  | inl e ↦
      rw (e, Fallen)
        (Fallen-more (suc k + length found) (k + suc (length found))
          (recovery found m).current_room_count (omega arith)
          (Fallen-recovery found m (suc k) (omega arith)
            (Fallen-more k (suc k) m.current_room_count (omega arith) h)))
  | inr (room, e) ↦
      rw (e, Fallen)
        (Fallen-more (suc k + length found) (k + suc (length found))
          (recovery found (store_room room m)).current_room_count (omega arith)
          (Fallen-recovery found (store_room room m) (suc k) (omega arith)
            (Fallen-less k m.current_room_count (omega arith) h)))
]

Fallen-low : (k : ℕ) (c top : ℤ) → Fallen k c → pos 1 ≤ℤ top → leb_ℤ top c ≡ false
Fallen-low k (pos n) (pos t) h one = ground arith
Fallen-low k (negsuc n) (pos t) h one = ground arith
Fallen-low k (pos n) (negsuc t) h one = ground arith
Fallen-low k (negsuc n) (negsuc t) h one = ground arith

low_allows :
    (confs : ConfMap) (m : RoomManager) (o : RoomOption)
    → leb_ℤ (read_conf_int "max_room_count" (pos 1000) confs) m.current_room_count ≡ false
    → limit_room_option confs m o ≢ new_room_too_many_rooms
unfolding limit_room_option
low_allows confs m o h = ground (arith, h)

-- The bound on the number of rooms is not enforced: from the start of the server, after the
-- recovery of any rooms and any new rooms and closed rooms, up to 2 ^ 31 of them, no request is
-- refused because there are too many rooms, for any configured bound of at least one.
pub run-ne-too_many_rooms :
    (confs : ConfMap) (found : List (RoomRuntimeInfo × World)) (events : List Event)
    (o : RoomOption)
    → length found + length events ≤ 2 ^ 31
    → pos 1 ≤ℤ read_conf_int "max_room_count" (pos 1000) confs
    → limit_room_option confs (run confs events (recovery found fresh)) o ≢ new_room_too_many_rooms
run-ne-too_many_rooms confs found events o small one =
    let start =
      Fallen-more (0 + length found) (length found) (recovery found fresh).current_room_count
        (omega arith) (Fallen-recovery found fresh 0 (omega arith) refl) in
    let after = Fallen-run confs events (recovery found fresh) (length found) small start in
    low_allows confs (run confs events (recovery found fresh)) o (
      Fallen-low (length found + length events)
        (run confs events (recovery found fresh)).current_room_count
        (read_conf_int "max_room_count" (pos 1000) confs) after one)
