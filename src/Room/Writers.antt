-- ===== src/Room/Writers.antt =====
-- Whom a package reaches: whose bytes reach WriteChan and SendChan of a room's radio, and who may
-- trouble other clients.
mod Runs
use paintty_server_go.Prelude.{
  Bytes, ℕ, ◌≡◌, ◌⊎◌, inl, inr, refl, Bool, true, false, not, ◌||◌, List, [], ◌∷◌, ◌++◌, Option,
  none, some, len, str_eq, arith, ltb, ◌==◌, ◌&&◌, if◌then◌else◌, Bool-cases,
}
use paintty_server_go.Prelude.Int.{ltb_ℤ}
use paintty_server_go.Prelude.Maps.{pointer_Eq, load}
use paintty_server_go.Socket.Pack.{drawing, message, command}
use paintty_server_go.Socket.Reader.{Package}
use paintty_server_go.Router.{Routed, fails, ignored, routed, on_message}
use paintty_server_go.Radio.{Radio, Outcome, done, blocks, panics, ◌>>=◌}
use paintty_server_go.Radio
use paintty_server_go.Radio.Returns.{
  Returns, Returns-at, Returns-map, Returns-if, Returns-test, bind-Returns, any-Returns,
}
use paintty_server_go.Room.{
  Room, RoomUser, Effect, through_radio, write_chan, send_chan, Handled, broadcast_command,
  remove_client, kick_client, find_client_by_id, has_user, current_load,
}
use paintty_server_go.Room.Messages.{
  Response, JoinRoomRequest, KickRequest, Request, login, heartbeat, archivesign, archive, clearall,
  kick, onlinelist, checkout,
}
use paintty_server_go.Room.Messages
use paintty_server_go.Room.Handlers.{
  Surroundings, handle, for_users, handle_join, handle_heartbeat, handle_archive_sign,
  handle_archive, handle_clear_all, handle_checkout, handle_kick, handle_close, handle_online_list,
  refuse_login, accept_login,
}
use paintty_server_go.Room.Private.{
  Private, HasKey, Reaches, kick_client-Private, removed-Private, handle-Reaches,
}
use paintty_server_go.Room.Serving.{
  Json, process_command, process_package, pass_on, router, single_sends,
}
use paintty_server_go.Room.Quiet.{NoParts, handle-Quiet}

-- The request of a package is one that carries the key of the room.
abbrev pub Carries : Json → Package → Room → Type 0
Carries j p m =
    (request : Bytes → Request) × (on_message j.unmarshal (router j) p.unpacked ≡ routed request)
    × HasKey (request p.unpacked) m

-- Whom a package reaches: its own client alone; or it is a drawing or a message of a user and passed
-- on, in a room that is as before; or it is a command of a user, which clears, kicks or closes with the
-- key of the room, and sends no part.
abbrev pub MaySend : Json → Package → Room → ℕ → Room × List Effect × Bool → Type 0
MaySend j p m c x =
    Private m c (x.0, x.1)
    ⊎ ((has_user m c ≡ true)
        × (p.package_type ≡ drawing)
        × (x ≡ (m, write_chan p.repacked ∷ [], true)))
    ⊎ ((has_user m c ≡ true)
        × (p.package_type ≡ message)
        × (x ≡ (m, send_chan p.repacked ∷ [], true)))
    ⊎ ((has_user m c ≡ true) × (p.package_type ≡ command) × Carries j p m × NoParts x.1)

pass_on-MaySend :
    (j : Json) (e : Effect) (p : Package) (m : Room) (c : ℕ)
    → ((has_user m c ≡ true) → MaySend j p m c (m, e ∷ [], true))
    → Returns (MaySend j p m c) (pass_on e m c)
pass_on-MaySend j e p m c sends =
    Returns-test (MaySend j p m c) (has_user m c) _ _
      (λ user. Returns-if (MaySend j p m c) m.radio.closed _ _ tt (sends user))
      (λ guest.
        Returns-map (λ (x : Room × List Effect × Bool). Private m c (x.0, x.1)) (MaySend j p m c) _
          (λ x h. inl h) (removed-Private m c))

-- What a command comes to.
abbrev Commands : Json → Package → Room → ℕ → Room × List Effect → Type 0
Commands j p m c x = Private m c x ⊎ ((has_user m c ≡ true) × Carries j p m × NoParts x.1)

kicked-Commands :
    (j : Json) (p : Package) (m : Room) (c : ℕ) → Returns (Commands j p m c) (kick_client m c)
kicked-Commands j p m c =
    Returns-map (Private m c) (Commands j p m c) (kick_client m c) (λ x h. inl h)
      (kick_client-Private m c)

handled-Commands :
    (j : Json) (p : Package) (m : Room) (c : ℕ) (o : Handled)
    → Returns (Commands j p m c) o
    → Returns (Commands j p m c) (elim o [
      | done r ↦ if m.radio.closed && single_sends r.1 then kick_client m c else done r
      | blocks ↦ blocks
      | panics ↦ kick_client m c
    ])
handled-Commands j p m c (done r) h =
    Returns-if (Commands j p m c) (m.radio.closed && single_sends r.1) _ _ (kicked-Commands j p m c)
      h
handled-Commands j p m c blocks h = tt
handled-Commands j p m c panics h = kicked-Commands j p m c

both-Returns {ℓ} :
    {A : Type ℓ} (P Q : A → Type 0) (o : Outcome A)
    → Returns P o
    → Returns Q o
    → Returns (λ x. P x × Q x) o
both-Returns P Q (done a) h k = (h, k)
both-Returns P Q blocks h k = tt
both-Returns P Q panics h k = tt

routed-Commands :
    (s : Surroundings) (j : Json) (p : Package) (m : Room) (c : ℕ) (x : Routed (Bytes → Request))
    → on_message j.unmarshal (router j) p.unpacked ≡ x
    → Returns (Commands j p m c) (elim x [
      | fails ↦ kick_client m c
      | ignored ↦ done (m, [])
      | routed request ↦ elim (handle s (request p.unpacked) m c) [
        | done r ↦ if m.radio.closed && single_sends r.1 then kick_client m c else done r
        | blocks ↦ blocks
        | panics ↦ kick_client m c
      ]
    ])
routed-Commands s j p m c fails e = kicked-Commands j p m c
routed-Commands s j p m c ignored e = inl (tt, (λ d ne. refl))
routed-Commands s j p m c (routed request) e =
    let req : Request = request p.unpacked in
    handled-Commands j p m c (handle s req m c) (
      Returns-map (λ x. Reaches req m c x × NoParts x.1) (Commands j p m c) (handle s req m c)
        (λ x (h, quiet). elim h [
          | inl own ↦ inl own
          | inr (user, key) ↦ inr (user, (request, e, key), quiet)
        ])
        (both-Returns (Reaches req m c) (λ x. NoParts x.1) (handle s req m c)
          (handle-Reaches s req m c) (handle-Quiet s req m c)))

package-MaySend :
    (s : Surroundings) (j : Json) (p : Package) (m : Room) (c : ℕ)
    → Returns (MaySend j p m c) (process_package s j p m c)
unfolding process_package process_command
package-MaySend s j p m c =
    Returns-test (MaySend j p m c) (p.package_type == command) _ _
      (λ commands.
        bind-Returns (Commands j p m c) (MaySend j p m c) (process_command s j p.unpacked m c) _
          (routed-Commands s j p m c (on_message j.unmarshal (router j) p.unpacked) refl)
          (λ x h. elim h [
            | inl own ↦ inl own
            | inr (user, key, quiet) ↦ inr (inr (inr (user, ground (arith, commands), key, quiet)))
          ]))
      (λ no_command.
        Returns-test (MaySend j p m c) (p.package_type == drawing) _ _
          (λ draws.
            pass_on-MaySend j (write_chan p.repacked) p m c
              (λ user. inr (inl (user, ground (arith, draws), refl))))
          (λ no_drawing.
            Returns-test (MaySend j p m c) (p.package_type == message) _ _
              (λ says.
                pass_on-MaySend j (send_chan p.repacked) p m c
                  (λ user. inr (inr (inl (user, ground (arith, says), refl)))))
              (λ other. inl (tt, (λ d ne. refl)))))

-- Only users reach the other painters, and only the room's key gives power over them: whatever a
-- package makes the room do, either all that is sent, directly, through the radio or later, goes to the
-- package's own client, and every other client is in the room's map as before; or the client has logged
-- in and the package is a drawing or a message, which goes to WriteChan or SendChan unchanged, alone,
-- in a room that is unchanged; or the client has logged in and the package is a request to clear, to
-- kick or to close that carries the key of the room, and then nothing goes to those channels.
pub process_package-MaySend :
    (s : Surroundings) (j : Json) (p : Package) (m m' : Room) (c : ℕ) (effects : List Effect)
    (goes : Bool)
    → process_package s j p m c ≡ done (m', effects, goes)
    → MaySend j p m c (m', effects, goes)
process_package-MaySend s j p m m' c effects goes e =
    Returns-at (MaySend j p m c) (process_package s j p m c) (m', effects, goes)
      (package-MaySend s j p m c) e
