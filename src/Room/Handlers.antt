-- ===== src/Room/Handlers.antt =====
-- pkg/Room/Handlers.go: the requests of a room, one function for each.
use paintty_server_go.Prelude.{
  ℕ, Bool, true, false, not, ◌||◌, [], ◌∷◌, ◌++◌, none, some, String, len, str_eq, ltb, ◌==◌,
  if◌then◌else◌,
}
use paintty_server_go.Prelude.Int.{ℤ, pos, ◌+ℤ◌, ◌-ℤ◌, ltb_ℤ, leb_ℤ, eqb_ℤ, int64}
use paintty_server_go.Prelude.Maps.{pointer_Eq, load, store}
use paintty_server_go.ErrorCode.{
  login_unkown, login_invalid_name, login_pwd_incorrect, login_room_is_full, checkout_unknown,
  checkout_key_incorrect, checkout_timeout,
}
use paintty_server_go.Radio.{done, panics, ◌>>=◌, file_size}
use paintty_server_go.Radio
use paintty_server_go.Room.{
  Room, direct_command, through_radio, greet_later, Handled, current_load, online_items, has_user,
  find_client_by_id, broadcast_command, kick_client, set_empty_close,
}
use paintty_server_go.Room.Messages.{
  JoinRoomRequest, ArchiveRequest, KickRequest, Request, login, heartbeat, archivesign, archive,
  clearall, kick, onlinelist, close, checkout, JoinRoomInfo, Response, logged_in, beat,
  archive_sign, archive_info, cleared, kicked, closed, checked_out, online_list, action,
  clearall_action, close_action, kick_action,
}

-- What the handlers take from outside: the next results of genClientId and genArchiveSign, and the
-- time.
pub record Surroundings : Type 0 where
  pub client_id : String
  pub sign : String
  pub now : ℕ

abbrev no_info : JoinRoomInfo
no_info = record {
  name = "";
  history_size = pos 0;
  size = record { width = pos 0; height = pos 0 };
  client_id = "";
}

-- `resp` with an error code, sent at once.
abbrev pub refuse_login : Room → ℕ → ℕ → Handled
refuse_login m c code = done (
  m,
  direct_command (logged_in (record { result = false; room_list = no_info; err_code = code })) c
      ∷ [],
)

abbrev pub accept_login : Surroundings → JoinRoomRequest → Room → ℕ → Handled
accept_login s req m c = done (
  record m {
    clients = store c (record { client_id = s.client_id; nick_name = req.name }) m.clients;
  },
  greet_later c
      ∷ direct_command
          (logged_in (record {
            result = true;
            room_list = record {
              name = m.options.name;
              history_size = pos (file_size m.radio);
              size = record { width = m.options.width; height = m.options.height };
              client_id = s.client_id;
            };
            err_code = 0;
          }))
          c
      ∷ [],
)

unfoldable pub handle_join : Surroundings → JoinRoomRequest → Room → ℕ → Handled
handle_join s req m c =
    if not (str_eq req.password m.options.password)
    then refuse_login m c login_pwd_incorrect
    else if ltb_ℤ m.options.max_load (current_load m)
    then refuse_login m c login_room_is_full
    else if ltb 32 (len req.name) || (len req.name == 0)
    then refuse_login m c login_invalid_name
    else elim (load c m.clients) [
      | none ↦ refuse_login m c login_unkown
      | some u ↦ accept_login s req m c
    ]

unfoldable pub handle_heartbeat : ℤ → Room → ℕ → Handled
handle_heartbeat timestamp m c = done (m, through_radio (beat timestamp) c ∷ [])

-- The guard of all other handlers: a client that has not logged in gets no answer.
abbrev pub for_users : Room → ℕ → Handled → Handled
for_users m c body = if has_user m c then body else done (m, [])

unfoldable pub handle_archive_sign : Room → ℕ → Handled
handle_archive_sign m c = for_users m c (
    done (
      m,
      direct_command
            (archive_sign (record { result = true; signature = m.radio.signature; errcode = 0 })) c
          ∷ [],
    ))

-- The `dataLength` of handleArchive, for an archive of `real_length` bytes.
unfoldable pub archive_length : ℕ → ArchiveRequest → ℤ
archive_length real_length req =
    let rest : ℤ = int64 (pos real_length -ℤ req.start) in
    let asked : ℤ = if eqb_ℤ req.data_length (pos 0) then rest else req.data_length in
    if leb_ℤ (int64 (req.start +ℤ asked)) (pos real_length) then rest else asked

unfoldable pub handle_archive : ArchiveRequest → Room → ℕ → Handled
handle_archive req m c =
    let size : ℤ = archive_length (file_size m.radio) req in
    for_users m c (do
      radio ← Radio.add_client m.radio c req.start size
      done (
        record m { radio = radio },
        direct_command
              (archive_info (record {
                result = true;
                signature = m.radio.signature;
                data_length = size;
                errcode = 0;
              }))
              c
            ∷ [],
      ))

unfoldable pub handle_clear_all : Surroundings → String → Room → ℕ → Handled
handle_clear_all s key m c = for_users m c (
    if not (str_eq key m.key) then done (m, through_radio (cleared false) c ∷ []) else (do
      radio ← Radio.prune s.sign m.radio
      done (
        record m { radio = radio; archive_sign = radio.signature },
        through_radio (cleared true) c
            ∷ broadcast_command (action (clearall_action radio.signature)) m.clients,
      )))

-- The answer of handleCheckout leaves `Cycle` at 0.
abbrev pub checkout_answer : ℕ → Bool → Response
checkout_answer code good = checked_out (record { result = good; cycle = pos 0; errcode = code })

unfoldable pub handle_checkout : Surroundings → String → Room → ℕ → Handled
handle_checkout s key m c = for_users m c (
    if not (str_eq key m.key)
    then done (m, through_radio (checkout_answer checkout_key_incorrect false) c ∷ [])
    else if m.options.empty_close
    then done (m, through_radio (checkout_answer checkout_timeout false) c ∷ [])
    else done (
      record m { last_check = s.now },
      through_radio (checkout_answer checkout_unknown true) c ∷ [],
    ))

unfoldable pub handle_kick : KickRequest → Room → ℕ → Handled
handle_kick req m c = for_users m c (
    if not (str_eq req.key m.key)
    then done (m, through_radio (kicked false) c ∷ [])
    else elim (find_client_by_id req.client_id m.clients) [
      | none ↦ done (m, through_radio (kicked true) c ∷ [])
      | some target ↦ (do
        (m', effects) ← kick_client m target
        done (
          m',
          through_radio (action kick_action) target
              ∷ (effects ++ through_radio (kicked true) c ∷ []),
        ))
    ])

unfoldable pub handle_close : String → Room → ℕ → Handled
handle_close key m c = for_users m c (
    if not (str_eq key m.key)
    then done (m, through_radio (closed false) c ∷ [])
    else done (
      set_empty_close m,
      through_radio (closed true) c ∷ broadcast_command (action (close_action 501)) m.clients,
    ))

unfoldable pub handle_online_list : Room → ℕ → Handled
handle_online_list m c =
    for_users m c (done (m, through_radio (online_list true (online_items m.clients)) c ∷ []))

-- The handler that Room.init registers for each request.
unfoldable pub handle : Surroundings → Request → Room → ℕ → Handled
handle s (login req) m c = handle_join s req m c
handle s (heartbeat t) m c = handle_heartbeat t m c
handle s archivesign m c = handle_archive_sign m c
handle s (archive req) m c = handle_archive req m c
handle s (clearall key) m c = handle_clear_all s key m c
handle s (kick req) m c = handle_kick req m c
handle s onlinelist m c = handle_online_list m c
handle s (close key) m c = handle_close key m c
handle s (checkout key) m c = handle_checkout s key m c
