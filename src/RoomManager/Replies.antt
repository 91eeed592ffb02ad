-- ===== src/RoomManager/Replies.antt =====
-- What a package of the hall changes, and what its client is told.
use paintty_server_go.Prelude.{
  ℕ, ◌<◌, ◌≡◌, ◌⊎◌, inl, inr, refl, sym, Bytes, eq_iff, true, false, [], ◌∷◌, none, some, arith,
  ltb, ◌==◌, Bool-cases, Option-cases,
}
use mathlib.Core.Path.{subst}
use paintty_server_go.Socket.Pack.{manager}
use paintty_server_go.Prelude.Int.{pos}
use paintty_server_go.Prelude.Maps.{string_Eq, load, load-store}
use paintty_server_go.Config.{ConfMap, read_conf_int}
use paintty_server_go.Socket.Reader.{Package}
use paintty_server_go.Router.{Routed, fails, ignored, routed, on_message}
use paintty_server_go.Room.{Room}
use paintty_server_go.Room.Serving.{World, serve_room, dump_room}
use paintty_server_go.RoomManager.{
  RoomManager, opened, refused, handle_new_room, handle_room_list, limit_room_option, store_room,
  db_put, db_key, NewRoomInfoForReply,
}
use paintty_server_go.RoomManager.Serving.{
  Json, Served, rooms, answer, Request, room_list, new_room, nothing, handle, router,
  process_package,
}

-- Nothing changed: the manager is as before, and the database is not called.
abbrev pub Unchanged : RoomManager → Served → Type 0
Unchanged m s = (s.after ≡ m) × (s.calls ≡ [])

-- What may come of a package.
abbrev pub IsOrderly : RoomManager → Served → Type 0
IsOrderly m s =
    (Unchanged m s × (s.replies ≡ []))
    ⊎ (Unchanged m s × (s.replies ≡ rooms (handle_room_list m) ∷ []))
    ⊎ (Unchanged m s × ((code : ℕ) × (0 < code) × (s.replies ≡ answer (refused code) ∷ [])))
    ⊎ ((room : Room) × (s.after ≡ store_room room m)
        × (load room.options.name s.after.rooms ≡ some room)
        × ((info : NewRoomInfoForReply) × (s.replies ≡ answer (opened info) ∷ [])
            × (info.port ≡ room.port)
            × (info.key ≡ room.key)))

handle-IsOrderly :
    (confs : ConfMap) (w : World) (req : Request) (m : RoomManager)
    → IsOrderly m (handle confs w req m)
unfolding handle handle_new_room
handle-IsOrderly confs w room_list m = inr (inl ((refl, refl), refl))
handle-IsOrderly confs w (new_room none) m = inl ((refl, refl), refl)
handle-IsOrderly confs w (new_room (some o)) m =
    elim (Bool-cases (ltb 0 (limit_room_option confs m o))) [
      | inl bad ↦
          became
            (record {
              after = m;
              calls = [];
              replies = answer (refused (limit_room_option confs m o)) ∷ [];
              closes = false;
            })
            (ground (arith, bad))
            (inr (inr (inl ((refl, refl), (limit_room_option confs m o, ground arith, refl)))))
      | inr good ↦ elim (Option-cases (serve_room w (read_conf_int "expiration" (pos 0) confs) o)) [
        | inl none_opened ↦
            became (nothing true m) (ground (arith, good, none_opened)) (inl ((refl, refl), refl))
        | inr (room, e) ↦
            became
              (record {
                after = store_room room m;
                calls = db_put (db_key room.options.name) (dump_room room) ∷ [];
                replies =
                    answer (
                      opened (record {
                        port = room.port;
                        key = room.key;
                        password = room.options.password;
                      }))
                    ∷ [];
                closes = false;
              })
              (ground (arith, good, e))
              (inr (inr (inr (room, refl, stored room, (_, refl, refl, refl)))))
      ]
    ]
  where
    became :
        (s : Served)
        → handle confs w (new_room (some o)) m ≡ s
        → IsOrderly m s
        → IsOrderly m (handle confs w (new_room (some o)) m)
    became s e h = subst (IsOrderly m) (sym e) h

    stored : (room : Room) → load room.options.name (store_room room m).rooms ≡ some room
    stored room = ground (
      arith,
      load-store room.options.name room.options.name room m.rooms,
      eq_iff room.options.name room.options.name,
    )

-- A package of the hall is answered in one of four ways: with nothing, and nothing changes; with the
-- list of the rooms there are, and nothing changes; with an error code that is not 0, and nothing
-- changes; or with the port and key of a new room, which is stored under its name. Where nothing
-- changes, the database is not called.
pub process_package-IsOrderly :
    (confs : ConfMap) (w : World) (j : Json) (p : Package) (m : RoomManager)
    → IsOrderly m (process_package confs w j p m)
unfolding process_package
process_package-IsOrderly confs w j p m = elim (Bool-cases (p.package_type == manager)) [
  | inr other ↦ rw (other, IsOrderly) (inl ((refl, refl), refl))
  | inl hall ↦
      rw (hall, IsOrderly) (routed-IsOrderly (on_message j.unmarshal (router j) p.unpacked))
]
  where
    routed-IsOrderly :
        (x : Routed (Bytes → Request))
        → IsOrderly m (elim x [
          | fails ↦ nothing true m
          | ignored ↦ nothing false m
          | routed request ↦ handle confs w (request p.unpacked) m
        ])
    routed-IsOrderly fails = inl ((refl, refl), refl)
    routed-IsOrderly ignored = inl ((refl, refl), refl)
    routed-IsOrderly (routed request) = handle-IsOrderly confs w (request p.unpacked) m
