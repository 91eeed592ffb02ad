-- ===== src/ErrorCode.antt =====
-- pkg/ErrorCode/ErrorCode.go.
use paintty_server_go.Prelude.{ℕ}

abbrev new_room_unkown : ℕ
new_room_unkown = 200

abbrev new_room_server_busy : ℕ
new_room_server_busy = 201

abbrev pub new_room_name_collission : ℕ
new_room_name_collission = 202

abbrev pub new_room_invalid_name : ℕ
new_room_invalid_name = 203

abbrev pub new_room_invalid_maxload : ℕ
new_room_invalid_maxload = 204

abbrev pub new_room_invalid_welcmsg : ℕ
new_room_invalid_welcmsg = 205

abbrev new_room_invalid_emptyclose : ℕ
new_room_invalid_emptyclose = 206

abbrev pub new_room_invalid_pwd : ℕ
new_room_invalid_pwd = 207

abbrev pub new_room_too_many_rooms : ℕ
new_room_too_many_rooms = 210

abbrev pub new_room_invalid_canvas : ℕ
new_room_invalid_canvas = 211

abbrev pub login_unkown : ℕ
login_unkown = 300

abbrev pub login_invalid_name : ℕ
login_invalid_name = 301

abbrev pub login_pwd_incorrect : ℕ
login_pwd_incorrect = 302

abbrev pub login_room_is_full : ℕ
login_room_is_full = 303

abbrev pub checkout_unknown : ℕ
checkout_unknown = 700

abbrev pub checkout_key_incorrect : ℕ
checkout_key_incorrect = 701

abbrev pub checkout_timeout : ℕ
checkout_timeout = 702
