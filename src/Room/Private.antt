-- ===== src/Room/Private.antt =====
-- Which handlers of a room concern the client that asks alone, and which reach the others.
use paintty_server_go.Prelude.{
  ℕ, ◌≡◌, ◌≢◌, ◌⊎◌, inl, inr, refl, Bool, true, false, not, ◌||◌, if◌then◌else◌, List, [], ◌∷◌,
  Option, none, some, String, len, str_eq, eq_iff, arith, ltb, ◌==◌,
}
use paintty_server_go.Prelude.Int.{ltb_ℤ}
use paintty_server_go.Prelude.Maps.{pointer_Eq, load, load-store, load-delete}
use paintty_server_go.ErrorCode.{login_pwd_incorrect, login_room_is_full, login_invalid_name}
use paintty_server_go.Radio.{Radio, Outcome, done, blocks, panics, ◌>>=◌}
use paintty_server_go.Radio
use paintty_server_go.Radio.Returns.{
  Returns, Returns-map, Returns-if, Returns-test, bind-Returns, any-Returns,
}
use paintty_server_go.Room.{
  Room, RoomUser, Effect, direct_command, direct_message, through_radio, greet_later, write_chan,
  send_chan, close_later, Handled, remove_client, kick_client, has_user, current_load,
}
use paintty_server_go.Room.Messages.{
  JoinRoomRequest, Request, Response, login, heartbeat, archivesign, archive, clearall, kick,
  onlinelist, checkout, cleared, kicked, closed,
}
use paintty_server_go.Room.Messages
use paintty_server_go.Room.Handlers.{
  Surroundings, handle, for_users, handle_join, handle_heartbeat, handle_archive_sign,
  handle_archive, handle_clear_all, handle_checkout, handle_kick, handle_close, handle_online_list,
  refuse_login, accept_login,
}

-- An effect that only the client c notices.
abbrev pub is_to : ℕ → Effect → Bool
is_to c (direct_command resp d) = d == c
is_to c (direct_message resp d) = d == c
is_to c (through_radio resp d) = d == c
is_to c (greet_later d) = d == c
is_to c (close_later d) = d == c
is_to c (write_chan d) = false
is_to c (send_chan d) = false

abbrev pub AllTo : ℕ → List Effect → Type 0
AllTo c [] = Unit
AllTo c (e ∷ es) = (is_to c e ≡ true) × AllTo c es

-- Whatever is sent goes to the client c, and every other client is in the map as before.
abbrev pub Private : Room → ℕ → Room × List Effect → Type 0
Private m c x = AllTo c x.1 × ((d : ℕ) → d ≢ c → load d x.0.clients ≡ load d m.clients)

-- A request to clear, to kick or to close, with the key of the room.
abbrev pub HasKey : Request → Room → Type 0
HasKey (clearall k) m = k ≡ m.key
HasKey (kick r) m = r.key ≡ m.key
HasKey (Messages.close k) m = k ≡ m.key
HasKey _ m = ⊥

-- A request of a user with the key, or one that concerns its client alone.
abbrev pub Reaches : Request → Room → ℕ → Room × List Effect → Type 0
Reaches req m c x = Private m c x ⊎ ((has_user m c ≡ true) × HasKey req m)

is_self : (c : ℕ) → (c == c) ≡ true
is_self c = ground arith

remove_client-others :
    (m : Room) (c : ℕ)
    → Returns (λ m'. (d : ℕ) → d ≢ c → load d m'.clients ≡ load d m.clients) (remove_client m c)
unfolding remove_client
remove_client-others m c =
    bind-Returns (λ r. Unit) (λ m'. (d : ℕ) → d ≢ c → load d m'.clients ≡ load d m.clients)
      (Radio.remove_client m.radio c) _ (any-Returns (Radio.remove_client m.radio c))
      (λ r h d ne. ground (arith, load-delete c d m.clients, ne))

pub kick_client-Private : (m : Room) (c : ℕ) → Returns (Private m c) (kick_client m c)
unfolding kick_client
kick_client-Private m c =
    bind-Returns (λ m'. (d : ℕ) → d ≢ c → load d m'.clients ≡ load d m.clients) (Private m c)
      (remove_client m c) _ (remove_client-others m c) (λ m' h. ((is_self c, tt), h))

pub removed-Private :
    (m : Room) (c : ℕ)
    → Returns
        (λ (x : Room × List Effect × Bool). Private m c (x.0, x.1))
        (do m' ← remove_client m c; done (m', [], false))
removed-Private m c =
    bind-Returns (λ m'. (d : ℕ) → d ≢ c → load d m'.clients ≡ load d m.clients)
      (λ (x : Room × List Effect × Bool). Private m c (x.0, x.1)) (remove_client m c) _
      (remove_client-others m c) (λ m' h. (tt, h))

-- One answer, in a room with the same clients.
answer-Private : (m : Room) (c : ℕ) (e : Effect) → is_to c e ≡ true → Private m c (m, e ∷ [])
answer-Private m c e to = ((to, tt), (λ d ne. refl))

users-Reaches :
    (req : Request) (m : Room) (c : ℕ) (body : Handled)
    → ((has_user m c ≡ true) → Returns (Reaches req m c) body)
    → Returns (Reaches req m c) (for_users m c body)
users-Reaches req m c body h =
    Returns-test (Reaches req m c) (has_user m c) body (done (m, [])) h
      (λ guest. inl (tt, (λ d ne. refl)))

-- A handler that needs the key answers its client alone if it has another one.
keyed-Reaches :
    (req : Request) (m : Room) (c : ℕ) (k : String) (answer : Response) (body : Handled)
    → ((k ≡ m.key) → HasKey req m)
    → Returns (Reaches req m c) (
        for_users m c
          (if not (str_eq k m.key) then done (m, through_radio answer c ∷ []) else body))
keyed-Reaches req m c k answer body key = users-Reaches req m c _ (λ user.
    Returns-test (Reaches req m c) (not (str_eq k m.key)) _ _
      (λ wrong. inl (answer-Private m c (through_radio answer c) (is_self c)))
      (λ right.
        Returns-map (λ x. Unit) (Reaches req m c) body
          (λ x h. inr (user, key (ground (arith, right, eq_iff k m.key)))) (any-Returns body)))

found-Private :
    (s : Surroundings) (req : JoinRoomRequest) (m : Room) (c code : ℕ) (o : Option RoomUser)
    → Returns
        (Private m c)
        (elim o [ none ↦ refuse_login m c code | some u ↦ accept_login s req m c ])
found-Private s req m c code none = ((is_self c, tt), (λ d ne. refl))
found-Private s req m c code (some u) =
    let joined : RoomUser = record { client_id = s.client_id; nick_name = req.name } in
    ((is_self c, (is_self c, tt)), (λ d ne. ground (arith, load-store c d joined m.clients, ne)))

join-Private :
    (s : Surroundings) (req : JoinRoomRequest) (m : Room) (c : ℕ)
    → Returns (Private m c) (handle_join s req m c)
unfolding handle_join
join-Private s req m c =
    let no : (code : ℕ) → Returns (Private m c) (refuse_login m c code) =
      λ code. ((is_self c, tt), (λ d ne. refl)) in
    Returns-if (Private m c) (not (str_eq req.password m.options.password)) _ _
      (no login_pwd_incorrect)
      (Returns-if (Private m c) (ltb_ℤ m.options.max_load (current_load m)) _ _
        (no login_room_is_full)
        (Returns-if (Private m c) (ltb 32 (len req.name) || (len req.name == 0)) _ _
          (no login_invalid_name) (found-Private s req m c _ (load c m.clients))))

pub handle-Reaches :
    (s : Surroundings) (req : Request) (m : Room) (c : ℕ)
    → Returns (Reaches req m c) (handle s req m c)
unfolding handle handle_heartbeat handle_archive_sign handle_archive handle_clear_all
    handle_checkout handle_kick handle_close handle_online_list
handle-Reaches s (login r) m c =
    Returns-map (Private m c) (Reaches (login r) m c) (handle_join s r m c) (λ x h. inl h)
      (join-Private s r m c)
handle-Reaches s (heartbeat t) m c = inl ((is_self c, tt), (λ d ne. refl))
handle-Reaches s archivesign m c =
    users-Reaches archivesign m c _ (λ user. inl ((is_self c, tt), (λ d ne. refl)))
handle-Reaches s (archive r) m c = users-Reaches (archive r) m c _ (λ user.
    bind-Returns (λ x. Unit) (Reaches (archive r) m c) (Radio.add_client m.radio c r.start _) _
      (any-Returns _) (λ x h. inl ((is_self c, tt), (λ d ne. refl))))
handle-Reaches s (clearall k) m c = keyed-Reaches (clearall k) m c k (cleared false) _ (λ e. e)
handle-Reaches s (kick r) m c = keyed-Reaches (kick r) m c r.key (kicked false) _ (λ e. e)
handle-Reaches s onlinelist m c =
    users-Reaches onlinelist m c _ (λ user. inl ((is_self c, tt), (λ d ne. refl)))
handle-Reaches s (Messages.close k) m c =
    keyed-Reaches (Messages.close k) m c k (closed false) _ (λ e. e)
handle-Reaches s (checkout k) m c = users-Reaches (checkout k) m c _ (λ user.
    Returns-if (Reaches (checkout k) m c) (not (str_eq k m.key)) _ _
      (inl ((is_self c, tt), (λ d ne. refl)))
      (Returns-if (Reaches (checkout k) m c) m.options.empty_close _ _
        (inl ((is_self c, tt), (λ d ne. refl))) (inl ((is_self c, tt), (λ d ne. refl)))))
