-- ===== src/RoomManager/Sessions.antt =====
-- The packages of a client of the hall, and the database.
use mathlib.Core.Path.{subst}
use paintty_server_go.Prelude.{
  ◌≡◌, refl, sym, Bool, true, false, List, [], ◌∷◌, ◌++◌, Bytes, none, some, arith, ◌==◌,
  Bool-cases, Option-cases, inl, inr,
}
use paintty_server_go.Prelude.Maps.{string_Eq}
use paintty_server_go.Config.{ConfMap}
use paintty_server_go.Socket.Pack.{manager}
use paintty_server_go.Socket.Reader.{Package}
use paintty_server_go.Router.{Routed, fails, ignored, routed, on_message}
use paintty_server_go.Room.Serving.{World}
use paintty_server_go.RoomManager.{RoomManager, DbCall, db_put, db_delete, handle_new_room}
use paintty_server_go.RoomManager.Count.{request, step}
use paintty_server_go.RoomManager.Database.{Database, perform, calls_of, Mirrors, step-Mirrors}
use paintty_server_go.RoomManager.Serving.{
  Json, Served, Request, room_list, new_room, nothing, handle, router, process_package,
  process_packages,
}

module _ (db : Database) where
  perform-append :
      (xs ys : List DbCall) (d : db.State)
      → perform db (xs ++ ys) d ≡ perform db ys (perform db xs d)
  unfolding perform
  perform-append [] ys d = refl
  perform-append (db_put k info ∷ xs) ys d = perform-append xs ys (db.put k info d)
  perform-append (db_delete k ∷ xs) ys d = perform-append xs ys (db.delete k d)

  -- The manager and the database after what was served.
  abbrev pub served : Served → db.State → RoomManager × db.State
  served s d = (s.after, perform db s.calls d)

  nothing-Mirrors :
      (closes : Bool) (m : RoomManager) (d : db.State)
      → Mirrors db (m, d)
      → Mirrors db (served (nothing closes m) d)
  unfolding perform
  nothing-Mirrors closes m d h = h

  handle-Mirrors :
      (confs : ConfMap) (w : World) (req : Request) (m : RoomManager) (d : db.State)
      → Mirrors db (m, d)
      → Mirrors db (served (handle confs w req m) d)
  unfolding handle perform step calls_of
  handle-Mirrors confs w room_list m d h = h
  handle-Mirrors confs w (new_room none) m d h = h
  handle-Mirrors confs w (new_room (some o)) m d h =
      let s : Served = handle confs w (new_room (some o)) m in
      let (after, calls) = as_step in
      let same : served s d
          ≡ (step confs (request w o) m, perform db (calls_of db confs (request w o) m) d) =
        λ i. (after i, perform db (calls i) d) in
      subst (Mirrors db) (sym same) (step-Mirrors db confs (request w o) m d h)
    where
      as_step :
          ((handle confs w (new_room (some o)) m).after ≡ step confs (request w o) m)
          × ((handle confs w (new_room (some o)) m).calls ≡ calls_of db confs (request w o) m)
      as_step = elim (Option-cases (handle_new_room confs w o m)) [
        | inl gone ↦ (ground (arith, gone), ground (arith, gone))
        | inr (r, e) ↦ (ground (arith, e), ground (arith, e))
      ]

  routed-Mirrors :
      (confs : ConfMap) (w : World) (p : Package) (x : Routed (Bytes → Request)) (m : RoomManager)
      (d : db.State)
      → Mirrors db (m, d)
      → Mirrors db (
          served
            (elim x [
              | fails ↦ nothing true m
              | ignored ↦ nothing false m
              | routed req ↦ handle confs w (req p.unpacked) m
            ])
            d)
  routed-Mirrors confs w p fails m d h = nothing-Mirrors true m d h
  routed-Mirrors confs w p ignored m d h = nothing-Mirrors false m d h
  routed-Mirrors confs w p (routed req) m d h = handle-Mirrors confs w (req p.unpacked) m d h

  process_package-Mirrors :
      (confs : ConfMap) (w : World) (j : Json) (p : Package) (m : RoomManager) (d : db.State)
      → Mirrors db (m, d)
      → Mirrors db (served (process_package confs w j p m) d)
  unfolding process_package
  process_package-Mirrors confs w j p m d h = elim (Bool-cases (p.package_type == manager)) [
    | inr other ↦ rw other (nothing-Mirrors false m d h)
    | inl hall ↦
        rw hall (routed-Mirrors confs w p (on_message j.unmarshal (router j) p.unpacked) m d h)
  ]

  -- Whatever a client of the hall sends, the database mirrors the rooms: if under the key of each name
  -- it held what dumpRoom made of the room of that name, and nothing where there is no such room, then it
  -- does so when the packages of the client have been handled, up to the first that closes its
  -- connection, if any does, and the calls of the handlers have been made.
  pub process_packages-Mirrors :
      (confs : ConfMap) (j : Json) (packages : List (World × Package)) (m : RoomManager)
      (d : db.State)
      → Mirrors db (m, d)
      → Mirrors db (served (process_packages confs j packages m) d)
  unfolding process_packages
  process_packages-Mirrors confs j [] m d h = nothing-Mirrors false m d h
  process_packages-Mirrors confs j ((w, p) ∷ packages) m d h =
      let s : Served = process_package confs w j p m in
      let first : Mirrors db (served s d) = process_package-Mirrors confs w j p m d h in
      elim (Bool-cases s.closes) [
        | inl ends ↦ rw ends first
        | inr goes_on ↦
            let later : Served = process_packages confs j packages s.after in
            let rest : Mirrors db (served later (perform db s.calls d)) =
              process_packages-Mirrors confs j packages s.after (perform db s.calls d) first in
            rw (goes_on, perform-append s.calls later.calls d) rest
      ]
