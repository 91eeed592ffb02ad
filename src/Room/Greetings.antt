-- ===== src/Room/Greetings.antt =====
-- The messages of pkg/Room/Utils.go, and the goroutine of handleJoin that sends them to a new user
-- after a second. fmt.Sprintf of the hours is a parameter.
pub mod Hours
mod Runs
use Prim.Native.String.{◌++◌ as str_append}
use paintty_server_go.Prelude.{
  ℕ, ◌/◌, ◌⊎◌, inl, inr, Bool-cases, ltb, ◌∙◌, ap, suc, ◌+◌, ◌-◌, ◌*◌, ◌^◌, ◌≤◌, ◌<◌, ◌≡◌, refl,
  Bool, true, false, List, [], ◌∷◌, ◌++◌, String, len, arith, ◌==◌, if◌then◌else◌,
}
use paintty_server_go.Prelude.Int.{
  ℤ, pos, negsuc, ◌-ℤ◌, ◌*ℤ◌, int64, ltb_ℤ, eqb_ℤ, int64-pos, pos_sub,
}
use paintty_server_go.Config.{ConfMap, read_conf_string}
use paintty_server_go.Radio.{Outcome, done}
use paintty_server_go.Room.{
  Room, Effect, direct_command, direct_message, hour, process_expire, set_empty_close, close,
}
use paintty_server_go.Room.Messages.{action, notify_action, welcome_msg}

unfoldable pub send_announcement : ConfMap → ℕ → List Effect
send_announcement confs c =
    let msg : String = read_conf_string "announcement" "" confs in
    if len msg == 0
    then []
    else direct_command (action (notify_action (str_append msg "\n"))) c ∷ []

unfoldable pub send_welcome_msg : Room → ℕ → List Effect
send_welcome_msg m c =
    if len m.options.welcome_msg == 0
    then []
    else direct_message (action (welcome_msg (str_append m.options.welcome_msg "\n"))) c ∷ []

-- Division of durations, towards zero.
abbrev pub hours : ℤ → ℤ
hours (pos n) = pos (n / hour)
hours (negsuc n) = pos 0 -ℤ pos (suc n / hour)

unfoldable pub left_hours : ℕ → Room → ℤ
left_hours now m = hours (int64 (int64 (pos hour *ℤ m.expiration) -ℤ (pos now -ℤ pos m.last_check)))

unfoldable pub send_expiration_msg : (ℤ → String) → ℕ → Room → ℕ → List Effect
send_expiration_msg text now m c =
    direct_message (action (welcome_msg (str_append (text (left_hours now m)) "\n"))) c ∷ []

-- The goroutine, when its second is over.
unfoldable pub greet : (ℤ → String) → ConfMap → ℕ → Room → ℕ → List Effect
greet text confs now m c =
    send_announcement confs c ++ send_expiration_msg text now m c ++ send_welcome_msg m c
