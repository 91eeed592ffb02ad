-- ===== src/RoomManager/Restart.antt =====
-- recovery after a restart of the server, and the hourly rounds of shortenRooms.
use mathlib.Core.Option
use paintty_server_go.Prelude.{
  ℕ, zero, suc, ◌-◌, ◌<◌, ◌≡◌, refl, ap, ◌∙◌, true, false, List, [], ◌∷◌, Option, none, some,
  String, len, arith, eq_iff, str_eq, ltb, if◌then◌else◌, Option-cases, inl, inr,
}
use paintty_server_go.Prelude.Int.{pos, ◌-ℤ◌, ltb_ℤ, pos_sub}
use paintty_server_go.Prelude.Maps.{string_Eq, load, load-store}
use paintty_server_go.Config.{ConfMap}
use paintty_server_go.Radio.{make_radio}
use paintty_server_go.Room.{Room}
use paintty_server_go.Room.Serving.{RoomRuntimeInfo, World, dump_room, recover_room, init}
use paintty_server_go.RoomManager.{RoomManager, db_key, store_room, recovery, shorten_rooms}
use paintty_server_go.RoomManager.Count.{Event, fresh}
use paintty_server_go.RoomManager.Database.{Database, perform, run_db, run_db-Mirrors, map-if}

-- A stored room that comes back: it has a key, and gets its port again.
abbrev pub Recovers : RoomRuntimeInfo × World → Type 0
Recovers (info, w) = (0 < len info.key) × (w.listen info.port ≡ some info.port)

abbrev pub AllRecover : List (RoomRuntimeInfo × World) → Type 0
AllRecover [] = Unit
AllRecover (x ∷ found) = Recovers x × AllRecover found

-- The last of the rooms found that has a name.
abbrev pub last_named :
    String → List (RoomRuntimeInfo × World) → Option RoomRuntimeInfo → Option RoomRuntimeInfo
last_named name [] before = before
last_named name ((info, w) ∷ found) before =
    last_named name found (if str_eq info.options.name name then some info else before)

abbrev back : RoomRuntimeInfo → World → Room
back info w = record {
  radio = make_radio (w.open_archive info.archive_sign) info.archive_sign;
  clients = [];
  current_clients_count = pos 0;
  expiration = info.expiration;
  key = info.key;
  archive_sign = info.archive_sign;
  port = info.port;
  options = info.options;
  last_check = w.now;
  going_close = false;
}

recover_room-back :
    (info : RoomRuntimeInfo) (w : World)
    → Recovers (info, w)
    → recover_room w info ≡ some (back info w)
unfolding recover_room init
recover_room-back info w (keyed, listens) =
    let has_key : ltb 0 (len info.key) ≡ true = ground arith in ground (arith, has_key, listens)

load-back :
    (info : RoomRuntimeInfo) (w : World) (m : RoomManager) (name : String)
    → Option.map dump_room (load name (store_room (back info w) m).rooms) ≡ (
        if str_eq info.options.name name
        then some info
        else Option.map dump_room (load name m.rooms))
unfolding dump_room
load-back info w m name =
    ap (Option.map dump_room) (load-store info.options.name name (back info w) m.rooms)
    ∙ map-if (str_eq info.options.name name) dump_room (some (back info w)) (load name m.rooms)

recovery-load :
    (found : List (RoomRuntimeInfo × World)) (m : RoomManager) (name : String)
    → AllRecover found
    → Option.map dump_room (load name (recovery found m).rooms)
      ≡ last_named name found (Option.map dump_room (load name m.rooms))
unfolding recovery
recovery-load [] m name all = refl
recovery-load ((info, w) ∷ found) m name all =
    let e : recovery ((info, w) ∷ found) m ≡ recovery found (store_room (back info w) m) =
      ground (arith, recover_room-back info w all.0) in
    ap (λ (x : RoomManager). Option.map dump_room (load name x.rooms)) e
    ∙ recovery-load found (store_room (back info w) m) name all.1
    ∙ ap (last_named name found) (load-back info w m name)

-- A server runs from empty memory and an empty database through any history of requests for rooms and
-- rooms that close, and is started again on that database. If the iterator finds what the database
-- holds, and every stored room has a key and gets its port again, then under each name there is a
-- room again exactly if there was one, with the state that dumpRoom saves.
pub recovery-run_db :
    (db : Database) (confs : ConfMap) (events : List Event) (d : db.State)
    (found : List (RoomRuntimeInfo × World)) (name : String)
    → ((k : String) → db.get k d ≡ none)
    → AllRecover found
    → ((n : String)
        → last_named n found none ≡ db.get (db_key n) (run_db db confs events (fresh, d)).1)
    → Option.map dump_room (load name (recovery found fresh).rooms)
      ≡ Option.map dump_room (load name (run_db db confs events (fresh, d)).0.rooms)
unfolding load
recovery-run_db db confs events d found name empty all finds =
    recovery-load found fresh name all
    ∙ finds name
    ∙ run_db-Mirrors db confs events fresh d (λ n. empty (db_key n)) name

-- Each key once.
abbrev pub NodupKeys : List (String × RoomRuntimeInfo) → Type 0
NodupKeys [] = Unit
NodupKeys ((k, info) ∷ found) = (load k found ≡ none) × NodupKeys found

-- What an hour leaves of an entry.
abbrev pub an_hour_less : Option RoomRuntimeInfo → Option RoomRuntimeInfo
an_hour_less none = none
an_hour_less (some info) =
    if ltb_ℤ (pos 1) info.expiration
    then some (record info { expiration = info.expiration -ℤ pos 1 })
    else none

module _ (db : Database) where
  shorten-get :
      (found : List (String × RoomRuntimeInfo)) (d : db.State) (k : String)
      → NodupKeys found
      → db.get k (perform db (shorten_rooms found) d)
        ≡ (elim (load k found) [ none ↦ db.get k d | some info ↦ an_hour_less (some info) ])
  unfolding perform shorten_rooms load
  shorten-get [] d k once = refl
  shorten-get ((j, info) ∷ found) d k once =
      let less : RoomRuntimeInfo = record info { expiration = info.expiration -ℤ pos 1 } in
      ground (
        arith,
        shorten-get found (db.put j less d) k once.1,
        shorten-get found (db.delete j d) k once.1,
        db.get-put j k less d,
        db.get-delete j k d,
        eq_iff j k,
        once.0,
      )

  -- n rounds of shortenRooms, an hour apart, while no one else writes to the database: each iterator
  -- finds every entry once.
  pub data Hours : ℕ → db.State → db.State → Type 0 where
    now : {d : db.State} → Hours 0 d d
    later :
        {n : ℕ} {d d' : db.State} (found : List (String × RoomRuntimeInfo))
        → NodupKeys found
        → ((k : String) → load k found ≡ db.get k d)
        → Hours n (perform db (shorten_rooms found) d) d'
        → Hours (suc n) d d'

  an_hour-get :
      (found : List (String × RoomRuntimeInfo)) (d : db.State) (k : String)
      → NodupKeys found
      → ((j : String) → load j found ≡ db.get j d)
      → db.get k (perform db (shorten_rooms found) d) ≡ an_hour_less (db.get k d)
  an_hour-get found d k once finds = elim (Option-cases (load k found)) [
    | inl gone ↦ ground (arith, shorten-get found d k once, finds k, gone)
    | inr (info, e) ↦ ground (arith, shorten-get found d k once, finds k, e)
  ]

  Hours-none :
      {n : ℕ} {d d' : db.State} (k : String) → db.get k d ≡ none → Hours n d d' → db.get k d' ≡ none
  Hours-none k e now = e
  Hours-none {d = d} k e (later found once finds rest) =
      Hours-none k (an_hour-get found d k once finds ∙ ap an_hour_less e) rest

  last_hour : (info : RoomRuntimeInfo) → info.expiration ≡ pos 1 → an_hour_less (some info) ≡ none
  last_hour info h = let test : ltb_ℤ (pos 1) info.expiration ≡ false = rw h refl in rw test refl

  one_hour :
      (info : RoomRuntimeInfo) (e : ℕ)
      → info.expiration ≡ pos (suc (suc e))
      → an_hour_less (some info) ≡ some (record info { expiration = pos (suc e) })
  one_hour info e h =
      let test : ltb_ℤ (pos 1) info.expiration ≡ true = rw h (ground arith) in
      let less : info.expiration -ℤ pos 1 ≡ pos (suc e) =
        rw h (pos_sub (suc (suc e)) 1 (omega arith) ∙ ap pos (omega arith)) in
      rw (test, less) refl

  -- A stored room whose expiration is e hours is in the database, with what is left of them, after any
  -- n rounds of shortenRooms with n below e, and is gone after e or more rounds, if e is not 0.
  pub shorten_rooms-Hours :
      {n : ℕ} {d d' : db.State} (k : String) (e : ℕ) (info : RoomRuntimeInfo)
      → db.get k d ≡ some info
      → info.expiration ≡ pos e
      → 0 < e
      → Hours n d d'
      → db.get k d' ≡ (if ltb n e then some (record info { expiration = pos (e - n) }) else none)
  shorten_rooms-Hours {d = d} k e info stored hours positive now =
      let test : ltb 0 e ≡ true = ground arith in
      let all : e - 0 ≡ e = omega arith in rw (test, all, ← hours) stored
  shorten_rooms-Hours k zero info stored hours positive (later found once finds rest) =
      absurd (omega arith)
  shorten_rooms-Hours {n = suc n} {d = d} k (suc zero) info stored hours positive
        (later found once finds rest) =
      let test : ltb (suc n) 1 ≡ false = ground arith in
      rw test (
        Hours-none k
          (an_hour-get found d k once finds ∙ ap an_hour_less stored ∙ last_hour info hours) rest)
  shorten_rooms-Hours {n = suc n} {d = d} k (suc (suc e)) info stored hours positive
        (later found once finds rest) =
      let test : ltb (suc n) (suc (suc e)) ≡ ltb n (suc e) = ground arith in
      let left : suc (suc e) - suc n ≡ suc e - n = omega arith in
      rw (test, left)
        (shorten_rooms-Hours k (suc e) (record info { expiration = pos (suc e) })
          (an_hour-get found d k once finds ∙ ap an_hour_less stored ∙ one_hour info e hours) refl
          (omega arith) rest)
