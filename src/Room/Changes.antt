-- ===== src/Room/Changes.antt =====
-- What the operations of a room do to the map of its clients and to their count.
use paintty_server_go.Prelude.{
  ◌⊎◌, inl, inr, ℕ, ◌≡◌, refl, Bool, true, false, not, ◌||◌, [], ◌∷◌, ◌++◌, none, some, Option, len,
  str_eq, arith, ltb, ◌==◌, if◌then◌else◌, length,
}
use paintty_server_go.Prelude.Int.{pos, ◌-ℤ◌, ltb_ℤ, int32}
use paintty_server_go.Prelude.Maps.{pointer_Eq, load, delete}
use paintty_server_go.Radio.{Radio, Outcome, done, blocks, panics, ◌>>=◌, with_lock}
use paintty_server_go.Radio
use paintty_server_go.Radio.Returns.{Returns, Returns-map, Returns-if, bind-Returns, any-Returns}
use paintty_server_go.Room.{
  Room, RoomUser, Effect, Handled, has_user, remove_client, kick_client, connection_closed,
  process_empty_close, close, current_load, find_client_by_id, through_radio,
}
use paintty_server_go.Room.Messages.{
  JoinRoomRequest, KickRequest, kicked, action, kick_action, Request, login, heartbeat, archivesign,
  archive, clearall, kick, onlinelist, checkout,
}
use paintty_server_go.Room.Messages
use paintty_server_go.ErrorCode.{login_unkown}
use paintty_server_go.Room.Handlers.{
  Surroundings, handle, handle_join, handle_heartbeat, handle_archive_sign, handle_archive,
  handle_clear_all, handle_kick, handle_checkout, handle_close, handle_online_list, for_users,
  refuse_login, accept_login,
}
use paintty_server_go.Room.Serving.{pass_on}
use paintty_server_go.Room.Clients.{NodupClients, length-store_old, store-NodupClients}

abbrev pub is_kick : Request → Bool
is_kick (kick r) = true
is_kick _ = false

-- The count and the number of clients are as before.
abbrev pub SameCount : Room → Room → Type 0
SameCount m m' =
    (m'.current_clients_count ≡ m.current_clients_count)
    × (length m'.clients ≡ length m.clients)
    × (NodupClients m.clients → NodupClients m'.clients)

abbrev pub Keeps : Room → Handled → Type 0
Keeps m o = Returns (λ x. SameCount m x.0) o

pub SameCount-refl : (m : Room) → SameCount m m
SameCount-refl m = (refl, refl, (λ h. h))

Keeps-bind :
    (m : Room) (o : Outcome Radio) (f : Radio → Handled)
    → ((r : Radio) → Keeps m (f r))
    → Keeps m (o >>= f)
Keeps-bind m (done r) f h = h r
Keeps-bind m blocks f h = tt
Keeps-bind m panics f h = tt

Keeps-if :
    (m : Room) (b : Bool) (x y : Handled) → Keeps m x → Keeps m y → Keeps m (if b then x else y)
Keeps-if m true x y h k = h
Keeps-if m false x y h k = k

pub Keeps-users : (m : Room) (c : ℕ) (body : Handled) → Keeps m body → Keeps m (for_users m c body)
Keeps-users m c body h = Keeps-if m (has_user m c) body (done (m, [])) h (SameCount-refl m)

Keeps-found :
    (s : Surroundings) (req : JoinRoomRequest) (m : Room) (c : ℕ) (o : Option RoomUser)
    → load c m.clients ≡ o
    → Keeps m (elim o [ none ↦ refuse_login m c login_unkown | some u ↦ accept_login s req m c ])
Keeps-found s req m c none e = SameCount-refl m
Keeps-found s req m c (some u) e =
    let new : RoomUser = record { client_id = s.client_id; nick_name = req.name } in
    (
      refl,
      length-store_old c new m.clients (λ q. ground (arith, e, q)),
      store-NodupClients c new m.clients,
    )

Keeps-join :
    (s : Surroundings) (req : JoinRoomRequest) (m : Room) (c : ℕ) → Keeps m (handle_join s req m c)
unfolding handle_join
Keeps-join s req m c =
    Keeps-if m (not (str_eq req.password m.options.password)) _ _ (SameCount-refl m) (
      Keeps-if m (ltb_ℤ m.options.max_load (current_load m)) _ _ (SameCount-refl m) (
        Keeps-if m (ltb 32 (len req.name) || (len req.name == 0)) _ _ (SameCount-refl m)
          (Keeps-found s req m c (load c m.clients) refl)))

pub handle-Keeps :
    (s : Surroundings) (req : Request) (m : Room) (c : ℕ)
    → is_kick req ≡ false
    → Keeps m (handle s req m c)
unfolding handle handle_heartbeat handle_archive_sign handle_archive handle_clear_all
    handle_checkout handle_close handle_online_list
handle-Keeps s (login r) m c h = Keeps-join s r m c
handle-Keeps s (heartbeat t) m c h = SameCount-refl m
handle-Keeps s archivesign m c h = Keeps-users m c _ (SameCount-refl m)
handle-Keeps s (archive r) m c h =
    Keeps-users m c _
      (Keeps-bind m (Radio.add_client m.radio c r.start _) _ (λ x. (refl, refl, λ n. n)))
handle-Keeps s (clearall k) m c h = Keeps-users m c _ (
    Keeps-if m (not (str_eq k m.key)) _ _ (SameCount-refl m)
      (Keeps-bind m (Radio.prune s.sign m.radio) _ (λ x. (refl, refl, λ n. n))))
handle-Keeps s (kick r) m c h = ground (arith, h)
handle-Keeps s onlinelist m c h = Keeps-users m c _ (SameCount-refl m)
handle-Keeps s (Messages.close k) m c h =
    Keeps-users m c _
      (Keeps-if m (not (str_eq k m.key)) _ _ (SameCount-refl m) (refl, refl, λ n. n))
handle-Keeps s (checkout k) m c h = Keeps-users m c _ (
    Keeps-if m (not (str_eq k m.key)) _ _ (SameCount-refl m)
      (Keeps-if m m.options.empty_close _ _ (SameCount-refl m) (refl, refl, λ n. n)))

-- The room without a client.
abbrev pub Without : Room → ℕ → Room → Type 0
Without m c m' =
    (m'.clients ≡ delete c m.clients)
    × (m'.current_clients_count ≡ int32 (m.current_clients_count -ℤ pos 1))

pub remove_client-Without : (m : Room) (c : ℕ) → Returns (Without m c) (remove_client m c)
unfolding remove_client
remove_client-Without m c =
    bind-Returns (λ r. Unit) (Without m c) (Radio.remove_client m.radio c) _
      (any-Returns (Radio.remove_client m.radio c)) (λ r h. (refl, refl))

close-Without : (m : Room) (c : ℕ) (m' : Room) → Without m c m' → Returns (Without m c) (close m')
unfolding close
close-Without m c m' h =
    let last : (r : Radio) → Returns (Without m c) (Radio.remove r >>= _) = (λ r.
      bind-Returns (λ x. Unit) (Without m c) (Radio.remove r) _ (any-Returns (Radio.remove r))
        (λ x u. h)) in
    Returns-if (Without m c) m'.going_close panics _ tt (
      bind-Returns (λ x. Unit) (Without m c) (Radio.close m'.radio) _
        (any-Returns (Radio.close m'.radio)) (λ r u. last r))

pub connection_closed-Without : (m : Room) (c : ℕ) → Returns (Without m c) (connection_closed m c)
unfolding connection_closed process_empty_close
connection_closed-Without m c =
    bind-Returns (Without m c) (Without m c) (remove_client m c) process_empty_close
      (remove_client-Without m c)
      (λ m' h. Returns-if (Without m c) _ (close m') (done m') (close-Without m c m' h) h)

-- The room after a package for the radio.
abbrev pub Passed : Room → ℕ → Room → Type 0
Passed m c m' = (m' ≡ m) ⊎ Without m c m'

pub pass_on-Passed : (e : Effect) (m : Room) (c : ℕ) → Returns (λ x. Passed m c x.0) (pass_on e m c)
pass_on-Passed e m c =
    Returns-if (λ x. Passed m c x.0) (has_user m c) _ _
      (Returns-if (λ x. Passed m c x.0) m.radio.closed _ _ tt (inl refl))
      (bind-Returns (Without m c) (λ x. Passed m c x.0) (remove_client m c) _
        (remove_client-Without m c) (λ m' h. inr h))

-- What any request comes to: the same clients, or one client taken off.
abbrev pub Moved : Room → Room → Type 0
Moved m m' = SameCount m m' ⊎ ((c : ℕ) × Without m c m')

abbrev Moves : Room → Handled → Type 0
Moves m o = Returns (λ x. Moved m x.0) o

pub kick_client-Moves : (m : Room) (c : ℕ) → Moves m (kick_client m c)
unfolding kick_client
kick_client-Moves m c =
    bind-Returns (Without m c) (λ x. Moved m x.0) (remove_client m c) _ (remove_client-Without m c)
      (λ m' h. inr (c, h))

found-Moves :
    (m : Room) (c : ℕ) (o : Option ℕ)
    → Moves m (elim o [
      | none ↦ done (m, through_radio (kicked true) c ∷ [])
      | some target ↦ (do
        (m', effects) ← kick_client m target
        done (
          m',
          through_radio (action kick_action) target
              ∷ (effects ++ through_radio (kicked true) c ∷ []),
        ))
    ])
found-Moves m c none = inl (SameCount-refl m)
found-Moves m c (some target) =
    bind-Returns (λ x. Moved m x.0) (λ x. Moved m x.0) (kick_client m target) _
      (kick_client-Moves m target) (λ x h. h)

handle_kick-Moves : (req : KickRequest) (m : Room) (c : ℕ) → Moves m (handle_kick req m c)
unfolding handle_kick
handle_kick-Moves req m c =
    let same : Moved m m = inl (SameCount-refl m) in
    Returns-if (λ x. Moved m x.0) (has_user m c) _ _
      (Returns-if (λ x. Moved m x.0) (not (str_eq req.key m.key)) _ _ same
        (found-Moves m c (find_client_by_id req.client_id m.clients)))
      same

pub handle-Moves :
    (s : Surroundings) (req : Request) (m : Room) (c : ℕ) → Moves m (handle s req m c)
unfolding handle
handle-Moves s (kick r) m c = handle_kick-Moves r m c
handle-Moves s req m c =
    Returns-map (λ x. SameCount m x.0) (λ x. Moved m x.0) (handle s req m c) (λ x h. inl h)
      (handle-Keeps s req m c refl)
