-- ===== src/Room/Quiet.antt =====
-- The handlers of a room put nothing into WriteChan or SendChan.
use paintty_server_go.Prelude.{
  ℕ, ◌≡◌, inl, inr, refl, Bool, true, false, not, ◌||◌, List, [], ◌∷◌, ◌++◌, Option, none, some,
  len, str_eq, ltb, ◌==◌, Bool-cases,
}
use paintty_server_go.Prelude.Int.{ltb_ℤ}
use paintty_server_go.Prelude.Maps.{pointer_Eq, load}
use paintty_server_go.Radio.{Radio, Outcome, done, blocks, panics, ◌>>=◌}
use paintty_server_go.Radio
use paintty_server_go.Radio.Returns.{Returns, Returns-if, bind-Returns, any-Returns}
use paintty_server_go.Room.{
  Room, RoomUser, Effect, through_radio, write_chan, send_chan, Handled, broadcast_command,
  remove_client, kick_client, find_client_by_id, has_user, current_load,
}
use paintty_server_go.Room.Messages.{
  Response, JoinRoomRequest, KickRequest, Request, login, heartbeat, archivesign, archive, clearall,
  kick, onlinelist, checkout,
}
use paintty_server_go.Room.Messages
use paintty_server_go.Room.Handlers.{
  Surroundings, handle, for_users, handle_join, handle_heartbeat, handle_archive_sign,
  handle_archive, handle_clear_all, handle_checkout, handle_kick, handle_close, handle_online_list,
  refuse_login, accept_login,
}

-- A part for WriteChan or SendChan.
abbrev pub is_part : Effect → Bool
is_part (write_chan d) = true
is_part (send_chan d) = true
is_part _ = false

abbrev pub NoParts : List Effect → Type 0
NoParts [] = Unit
NoParts (e ∷ es) = (is_part e ≡ false) × NoParts es

abbrev pub Quiet : Handled → Type 0
Quiet o = Returns (λ x. NoParts x.1) o

NoParts-append : (es fs : List Effect) → NoParts es → NoParts fs → NoParts (es ++ fs)
NoParts-append [] fs h k = k
NoParts-append (e ∷ es) fs h k = (h.0, NoParts-append es fs h.1 k)

broadcast_command-NoParts :
    (resp : Response) (us : List (ℕ × RoomUser)) → NoParts (broadcast_command resp us)
unfolding broadcast_command
broadcast_command-NoParts resp [] = tt
broadcast_command-NoParts resp ((c, u) ∷ us) = elim (Bool-cases (ltb 0 (len u.client_id))) [
  | inl user ↦ rw user (refl, broadcast_command-NoParts resp us)
  | inr guest ↦ rw guest (broadcast_command-NoParts resp us)
]

kick_client-Quiet : (m : Room) (c : ℕ) → Quiet (kick_client m c)
unfolding kick_client
kick_client-Quiet m c =
    bind-Returns (λ x. Unit) (λ x. NoParts x.1) (remove_client m c) _
      (any-Returns (remove_client m c)) (λ m' h. (refl, tt))

users-Quiet : (m : Room) (c : ℕ) (body : Handled) → Quiet body → Quiet (for_users m c body)
users-Quiet m c body h = Returns-if (λ x. NoParts x.1) (has_user m c) body (done (m, [])) h tt

found-Quiet :
    (s : Surroundings) (req : JoinRoomRequest) (m : Room) (c code : ℕ) (o : Option RoomUser)
    → Quiet (elim o [ none ↦ refuse_login m c code | some u ↦ accept_login s req m c ])
found-Quiet s req m c code none = (refl, tt)
found-Quiet s req m c code (some u) = (refl, (refl, tt))

join-Quiet :
    (s : Surroundings) (req : JoinRoomRequest) (m : Room) (c : ℕ) → Quiet (handle_join s req m c)
unfolding handle_join
join-Quiet s req m c =
    Returns-if (λ x. NoParts x.1) (not (str_eq req.password m.options.password)) _ _ (refl, tt)
      (Returns-if (λ x. NoParts x.1) (ltb_ℤ m.options.max_load (current_load m)) _ _ (refl, tt)
        (Returns-if (λ x. NoParts x.1) (ltb 32 (len req.name) || (len req.name == 0)) _ _ (refl, tt)
          (found-Quiet s req m c _ (load c m.clients))))

kicked-Quiet :
    (m : Room) (c : ℕ) (o : Option ℕ)
    → Quiet (elim o [
      | none ↦ done (m, through_radio (Messages.kicked true) c ∷ [])
      | some target ↦ (do
        (m', effects) ← kick_client m target
        done (
          m',
          through_radio (Messages.action Messages.kick_action) target
              ∷ (effects ++ through_radio (Messages.kicked true) c ∷ []),
        ))
    ])
kicked-Quiet m c none = (refl, tt)
kicked-Quiet m c (some target) =
    bind-Returns (λ x. NoParts x.1) (λ x. NoParts x.1) (kick_client m target) _
      (kick_client-Quiet m target)
      (λ x h. (refl, NoParts-append x.1 (through_radio (Messages.kicked true) c ∷ []) h (refl, tt)))

pub handle-Quiet : (s : Surroundings) (req : Request) (m : Room) (c : ℕ) → Quiet (handle s req m c)
unfolding handle handle_heartbeat handle_archive_sign handle_archive handle_clear_all
    handle_checkout handle_kick handle_close handle_online_list
handle-Quiet s (login r) m c = join-Quiet s r m c
handle-Quiet s (heartbeat t) m c = (refl, tt)
handle-Quiet s archivesign m c = users-Quiet m c _ (refl, tt)
handle-Quiet s (archive r) m c = users-Quiet m c _ (
    bind-Returns (λ x. Unit) (λ x. NoParts x.1) (Radio.add_client m.radio c r.start _) _
      (any-Returns _) (λ x h. (refl, tt)))
handle-Quiet s (clearall k) m c = users-Quiet m c _ (
    Returns-if (λ x. NoParts x.1) (not (str_eq k m.key)) _ _ (refl, tt)
      (bind-Returns (λ x. Unit) (λ x. NoParts x.1) (Radio.prune s.sign m.radio) _ (any-Returns _)
        (λ x h. (refl, broadcast_command-NoParts _ m.clients))))
handle-Quiet s (kick r) m c = users-Quiet m c _ (
    Returns-if (λ x. NoParts x.1) (not (str_eq r.key m.key)) _ _ (refl, tt)
      (kicked-Quiet m c (find_client_by_id r.client_id m.clients)))
handle-Quiet s onlinelist m c = users-Quiet m c _ (refl, tt)
handle-Quiet s (Messages.close k) m c = users-Quiet m c _ (
    Returns-if (λ x. NoParts x.1) (not (str_eq k m.key)) _ _ (refl, tt)
      (refl, broadcast_command-NoParts _ m.clients))
handle-Quiet s (checkout k) m c = users-Quiet m c _ (
    Returns-if (λ x. NoParts x.1) (not (str_eq k m.key)) _ _ (refl, tt)
      (Returns-if (λ x. NoParts x.1) m.options.empty_close _ _ (refl, tt) (refl, tt)))
