-- ===== src/Room/Access.antt =====
-- Who may do what in a room: logging in, and the requests of guests and of users without the key.
use mathlib.Core.Logic.{◌↔◌}
use paintty_server_go.Prelude.{
  ℕ, ◌≤◌, ◌<◌, ◌≡◌, ◌≢◌, refl, Bool, true, false, ◌||◌, List, [], ◌∷◌, none, String, len, str_eq,
  eq_iff, arith, ltb, ◌==◌, Bool-cases, Option-cases, inl, inr, ◌⊎◌, ◌∙◌,
}
use paintty_server_go.Prelude.Int.{◌≤ℤ◌, ltb_ℤ}
use paintty_server_go.Prelude.Maps.{pointer_Eq, load, store, load-store}
use paintty_server_go.ErrorCode.{
  checkout_key_incorrect, login_pwd_incorrect, login_room_is_full, login_invalid_name, login_unkown,
}
use paintty_server_go.Radio.{done}
use paintty_server_go.Room.{Room, RoomUser, Effect, through_radio, Handled, has_user, current_load}
use paintty_server_go.Room.Messages.{
  JoinRoomRequest, Request, Response, login, heartbeat, archivesign, archive, clearall, kick,
  onlinelist, close, checkout, cleared, kicked, closed,
}
use paintty_server_go.Room.Handlers.{
  Surroundings, handle, handle_join, handle_archive_sign, handle_archive, handle_clear_all,
  handle_checkout, handle_kick, handle_close, handle_online_list, for_users, checkout_answer,
  refuse_login, accept_login,
}

-- The requests that a client may make before it has logged in.
abbrev pub is_open : Request → Bool
is_open (login r) = true
is_open (heartbeat t) = true
is_open _ = false

-- A client that has not logged in gets no answer to any request but a login and a heartbeat, and
-- such a request changes nothing.
pub handle-guest :
    (s : Surroundings) (req : Request) (m : Room) (c : ℕ)
    → has_user m c ≡ false
    → is_open req ≡ false
    → handle s req m c ≡ done (m, [])
unfolding handle handle_archive_sign handle_archive handle_clear_all handle_checkout handle_kick
    handle_close handle_online_list
handle-guest s (login r) m c h needs = ground arith
handle-guest s (heartbeat t) m c h needs = ground arith
handle-guest s archivesign m c h needs = rw h refl
handle-guest s (archive r) m c h needs = rw h refl
handle-guest s (clearall k) m c h needs = rw h refl
handle-guest s (kick r) m c h needs = rw h refl
handle-guest s onlinelist m c h needs = rw h refl
handle-guest s (close k) m c h needs = rw h refl
handle-guest s (checkout k) m c h needs = rw h refl

-- The key that a request carries, if it needs the room's.
abbrev pub key_of : Request → Room → String
key_of (clearall k) m = k
key_of (kick r) m = r.key
key_of (close k) m = k
key_of (checkout k) m = k
key_of _ m = m.key

-- The room is as before, and no one is answered but the client.
abbrev pub Kept : Room → ℕ → Handled → Type 0
Kept m c r =
    (r ≡ done (m, [])) ⊎ ((answer : Response) × (r ≡ done (m, through_radio answer c ∷ [])))

for_users-Kept :
    (m : Room) (c : ℕ) (answer : Response)
    → Kept m c (for_users m c (done (m, through_radio answer c ∷ [])))
for_users-Kept m c answer = elim (Bool-cases (has_user m c)) [
  | inl user ↦ inr (answer, rw user refl)
  | inr guest ↦ inl (rw guest refl)
]

other_key : (k key : String) → k ≢ key → str_eq k key ≡ false
other_key k key wrong = ground (arith, eq_iff k key)

-- A request that needs the key of the room and has another one changes nothing, and the only answer,
-- if any, goes to the client that made it.
pub handle-wrong_key :
    (s : Surroundings) (req : Request) (m : Room) (c : ℕ)
    → key_of req m ≢ m.key
    → Kept m c (handle s req m c)
unfolding handle handle_clear_all handle_checkout handle_kick handle_close
handle-wrong_key s (login r) m c wrong = absurd (wrong refl)
handle-wrong_key s (heartbeat t) m c wrong = absurd (wrong refl)
handle-wrong_key s archivesign m c wrong = absurd (wrong refl)
handle-wrong_key s (archive r) m c wrong = absurd (wrong refl)
handle-wrong_key s onlinelist m c wrong = absurd (wrong refl)
handle-wrong_key s (clearall k) m c wrong =
    rw (other_key k m.key wrong) (for_users-Kept m c (cleared false))
handle-wrong_key s (kick r) m c wrong =
    rw (other_key r.key m.key wrong) (for_users-Kept m c (kicked false))
handle-wrong_key s (close k) m c wrong =
    rw (other_key k m.key wrong) (for_users-Kept m c (closed false))
handle-wrong_key s (checkout k) m c wrong =
    rw (other_key k m.key wrong) (for_users-Kept m c (checkout_answer checkout_key_incorrect false))

-- What a login needs: the password of the room, a load not above the bound, a name of 1 to 32 bytes,
-- and a client that the room has accepted.
abbrev pub MayJoin : JoinRoomRequest → Room → ℕ → Type 0
MayJoin req m c =
    (req.password ≡ m.options.password)
    × (current_load m ≤ℤ m.options.max_load)
    × (0 < len req.name)
    × (len req.name ≤ 32)
    × (load c m.clients ≢ none)

-- What a login comes to.
abbrev LetsIn : JoinRoomRequest → Room → ℕ → Handled → Type 0
LetsIn req m c r =
    (m' : Room) × (effects : List Effect) × (r ≡ done (m', effects))
    × ((has_user m' c ≡ true) ↔ MayJoin req m c)
    × ((d : ℕ) → d ≢ c → has_user m' d ≡ has_user m d)

LetsIn-same :
    (req : JoinRoomRequest) (m : Room) (c : ℕ) (r r' : Handled)
    → r ≡ r'
    → LetsIn req m c r'
    → LetsIn req m c r
LetsIn-same req m c r r' e (m', effects, q, may, others) = (m', effects, e ∙ q, may, others)

module _ (s : Surroundings) (req : JoinRoomRequest) (m : Room) (c : ℕ) where
  refused :
      (code : ℕ) → has_user m c ≡ false → ¬ MayJoin req m c → LetsIn req m c (refuse_login m c code)
  refused code h denied =
      (m, _, refl, ((λ e. ground (arith, e, h)), (λ y. absurd (denied y))), (λ d ne. refl))

  accepted : 0 < len s.client_id → MayJoin req m c → LetsIn req m c (accept_login s req m c)
  unfolding has_user
  accepted id may = (_, _, refl, ((λ e. may), (λ y. mine)), others)
    where
      u : RoomUser
      u = record { client_id = s.client_id; nick_name = req.name }

      mine : has_user (record m { clients = store c u m.clients }) c ≡ true
      mine = ground (arith, load-store c c u m.clients)

      others :
          (d : ℕ) → d ≢ c → has_user (record m { clients = store c u m.clients }) d ≡ has_user m d
      others d ne = ground (arith, load-store c d u m.clients)

  -- A login makes a client a user exactly if it may join, when the client was none before and its
  -- new id is not empty; the others are users after it exactly if they were before.
  pub handle_join-MayJoin :
      has_user m c ≡ false
      → 0 < len s.client_id
      → (m' : Room) × (effects : List Effect) × (handle_join s req m c ≡ done (m', effects))
        × ((has_user m' c ≡ true) ↔ MayJoin req m c)
        × ((d : ℕ) → d ≢ c → has_user m' d ≡ has_user m d)
  unfolding handle_join
  handle_join-MayJoin h id = elim (Bool-cases (str_eq req.password m.options.password)) [
    | inr pwd ↦ rw pwd (
        refused login_pwd_incorrect h (λ y. ground (arith, eq_iff req.password m.options.password)))
    | inl pwd ↦ elim (Bool-cases (ltb_ℤ m.options.max_load (current_load m))) [
      | inl full ↦ rw (pwd, full) (refused login_room_is_full h (λ y. ground (arith, y.1)))
      | inr room ↦ elim (Bool-cases (ltb 32 (len req.name) || (len req.name == 0))) [
        | inl bad ↦
            rw (pwd, room, bad) (refused login_invalid_name h (λ y. ground (arith, y.2, y.3)))
        | inr good ↦ elim (Option-cases (load c m.clients)) [
          | inl unknown ↦
              LetsIn-same req m c (handle_join s req m c) (refuse_login m c login_unkown)
                (rw (pwd, room, good, unknown) refl) (refused login_unkown h (λ y. y.4 unknown))
          | inr (u, e) ↦
              LetsIn-same req m c (handle_join s req m c) (accept_login s req m c)
                (rw (pwd, room, good, e) refl)
                (accepted id (
                  (eq_iff req.password m.options.password).0 pwd,
                  ground arith,
                  ground arith,
                  ground arith,
                  λ empty. ground (arith, empty, e),
                ))
        ]
      ]
    ]
  ]
