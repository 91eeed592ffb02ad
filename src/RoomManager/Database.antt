-- ===== src/RoomManager/Database.antt =====
-- The database of the room manager, as it is used, against what is in memory.
use text.Mathlib.TextLemmas.{append_cancel_left}
use mathlib.Core.Option
use mathlib.Core.Path.{subst}
use paintty_server_go.Prelude.{
  ◌≡◌, refl, sym, ap, ◌∙◌, Bool, true, false, List, [], ◌∷◌, Option, none, some, String, arith,
  eq_iff, str_eq, ltb, if◌then◌else◌, Bool-cases, Option-cases, inl, inr,
}
use paintty_server_go.Prelude.Int.{pos}
use paintty_server_go.Prelude.Maps.{string_Eq, load, load-store, load-delete}
use paintty_server_go.Config.{ConfMap, read_conf_int}
use paintty_server_go.Room.{Room}
use paintty_server_go.Room.Serving.{RoomRuntimeInfo, dump_room, serve_room}
use paintty_server_go.RoomManager.{
  RoomManager, DbCall, db_put, db_delete, db_key, limit_room_option, store_room, handle_new_room,
  wait_room_closed,
}
use paintty_server_go.RoomManager.Count.{Event, request, closed, step}

-- leveldb, as far as the manager relies on it: a key holds what was last put there, until it is
-- deleted.
pub record Database : Type 1 where
  pub State : Type 0
  pub get : String → State → Option RoomRuntimeInfo
  pub put : String → RoomRuntimeInfo → State → State
  pub delete : String → State → State
  pub get-put :
      (k j : String) (info : RoomRuntimeInfo) (d : State)
      → get j (put k info d) ≡ (if str_eq k j then some info else get j d)
  pub get-delete :
      (k j : String) (d : State) → get j (delete k d) ≡ (if str_eq k j then none else get j d)

pub db_key_same : (a b : String) → str_eq (db_key a) (db_key b) ≡ str_eq a b
db_key_same a b = elim (Bool-cases (str_eq a b)) [
  | inl same ↦ rw same ((eq_iff (db_key a) (db_key b)).1 (ap db_key ((eq_iff a b).0 same)))
  | inr other ↦ elim (Bool-cases (str_eq (db_key a) (db_key b))) [
    | inr e ↦ rw (other, e) refl
    | inl e ↦ ground (
      arith,
      other,
      eq_iff a b,
      append_cancel_left "room-" a b ((eq_iff (db_key a) (db_key b)).0 e),
    )
  ]
]

pub map-if {ℓ κ} :
    {A : Type ℓ} {B : Type κ} (b : Bool) (f : A → B) (x y : Option A)
    → Option.map f (if b then x else y) ≡ (if b then Option.map f x else Option.map f y)
map-if true f x y = refl
map-if false f x y = refl

module _ (db : Database) where
  -- The calls of an operation, one after the other.
  unfoldable pub perform : List DbCall → db.State → db.State
  perform [] d = d
  perform (db_put k info ∷ calls) d = perform calls (db.put k info d)
  perform (db_delete k ∷ calls) d = perform calls (db.delete k d)

  -- The calls that an event makes.
  unfoldable pub calls_of : ConfMap → Event → RoomManager → List DbCall
  calls_of confs (request w o) m = elim (handle_new_room confs w o m) [ none ↦ [] | some r ↦ r.1 ]
  calls_of confs (closed name) m = (wait_room_closed name m).1

  -- The manager and its database after a history of events.
  unfoldable pub run_db : ConfMap → List Event → RoomManager × db.State → RoomManager × db.State
  run_db confs [] s = s
  run_db confs (e ∷ events) (m, d) =
      run_db confs events (step confs e m, perform (calls_of confs e m) d)

  -- Under the key of each name, the database holds what dumpRoom made of the room of that name when
  -- it was stored, and nothing if there is no such room.
  abbrev pub Mirrors : RoomManager × db.State → Type 0
  Mirrors s =
      (name : String) → db.get (db_key name) s.1 ≡ Option.map dump_room (load name s.0.rooms)

  store_room-Mirrors :
      (m : RoomManager) (d : db.State) (room : Room)
      → Mirrors (m, d)
      → Mirrors (store_room room m, db.put (db_key room.options.name) (dump_room room) d)
  store_room-Mirrors m d room h name =
      db.get-put (db_key room.options.name) (db_key name) (dump_room room) d
      ∙ rw
          (
            db_key_same room.options.name name,
            load-store room.options.name name room m.rooms,
            h name,
          )
          (sym (map-if (str_eq room.options.name name) dump_room (some room) (load name m.rooms)))

  closed-Mirrors :
      (m : RoomManager) (d : db.State) (gone : String)
      → Mirrors (m, d)
      → Mirrors ((wait_room_closed gone m).0, db.delete (db_key gone) d)
  unfolding wait_room_closed
  closed-Mirrors m d gone h name =
      db.get-delete (db_key gone) (db_key name) d
      ∙ rw (db_key_same gone name, load-delete gone name m.rooms, h name)
          (sym (map-if (str_eq gone name) dump_room none (load name m.rooms)))

  pub step-Mirrors :
      (confs : ConfMap) (e : Event) (m : RoomManager) (d : db.State)
      → Mirrors (m, d)
      → Mirrors (step confs e m, perform (calls_of confs e m) d)
  unfolding step handle_new_room wait_room_closed calls_of perform
  step-Mirrors confs (closed name) m d h = closed-Mirrors m d name h
  step-Mirrors confs (request w o) m d h = elim (Bool-cases (ltb 0 (limit_room_option confs m o))) [
    | inl bad ↦ became m [] (ground (arith, bad)) (ground (arith, bad)) h
    | inr good ↦ elim (Option-cases (serve_room w (read_conf_int "expiration" (pos 0) confs) o)) [
      | inl fails ↦ became m [] (ground (arith, good, fails)) (ground (arith, good, fails)) h
      | inr (room, e) ↦
          became (store_room room m) (db_put (db_key room.options.name) (dump_room room) ∷ [])
            (ground (arith, good, e)) (ground (arith, good, e)) (store_room-Mirrors m d room h)
    ]
  ]
    where
      became :
          (m' : RoomManager) (calls : List DbCall)
          → step confs (request w o) m ≡ m'
          → calls_of confs (request w o) m ≡ calls
          → Mirrors (m', perform calls d)
          → Mirrors (step confs (request w o) m, perform (calls_of confs (request w o) m) d)
      became m' calls e k g =
          subst (λ (x : RoomManager × List DbCall). Mirrors (x.0, perform x.1 d))
            (λ i. (sym e i, sym k i)) g

  -- If the database holds what is in memory, it does so after every history of requests for rooms,
  -- refused and failed ones among them, and of rooms that close.
  pub run_db-Mirrors :
      (confs : ConfMap) (events : List Event) (m : RoomManager) (d : db.State)
      → Mirrors (m, d)
      → Mirrors (run_db confs events (m, d))
  unfolding run_db
  run_db-Mirrors confs [] m d h = h
  run_db-Mirrors confs (e ∷ events) m d h =
      run_db-Mirrors confs events (step confs e m) (perform (calls_of confs e m) d)
        (step-Mirrors confs e m d h)
