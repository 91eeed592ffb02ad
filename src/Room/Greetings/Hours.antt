-- ===== src/Room/Greetings/Hours.antt =====
-- The hours that a new user is told, against the time at which the room expires.
use paintty_server_go.Prelude.{
  ℕ, ◌/◌, ◌⊎◌, inl, inr, Bool-cases, ltb, ◌∙◌, ap, sym, suc, ◌+◌, ◌-◌, ◌*◌, ◌^◌, ◌≤◌, ◌<◌, ◌≡◌,
  Bool, false, arith, if◌then◌else◌,
}
use paintty_server_go.Prelude.Int.{ℤ, pos, ◌-ℤ◌, ◌*ℤ◌, int64, eqb_ℤ, int64-pos, pos_sub, pos_part}
use paintty_server_go.Radio.{Outcome, done}
use paintty_server_go.Room.{Room, hour, process_expire, set_empty_close, close}
use paintty_server_go.Room.Greetings.{hours, left_hours}

-- What a round of processExpire does once the time of the room is over.
abbrev pub expired : Room → Outcome Room
expired m = if eqb_ℤ m.current_clients_count (pos 0) then close m else done (set_empty_close m)

pos-*ℤ : (a b : ℕ) → pos a *ℤ pos b ≡ pos (a * b)
unfolding ◌*ℤ◌
pos-*ℤ a b = ground arith

module _ (m : Room) (e now : ℕ) (exp : m.expiration ≡ pos e) (small : hour * e < 2 ^ 63)
    (checked : m.last_check ≤ now) (alive : m.going_close ≡ false) where
  term : int64 (pos hour *ℤ m.expiration) ≡ pos (hour * e)
  term =
      ap (λ (x : ℤ). int64 (pos hour *ℤ x)) exp
      ∙ ap int64 (pos-*ℤ hour e)
      ∙ int64-pos (hour * e) small

  left_hours_lem :
      now - m.last_check ≤ hour * e
      → left_hours now m ≡ pos ((hour * e - (now - m.last_check)) / hour)
  unfolding left_hours
  left_hours_lem h = ap hours (
      ap (λ (x : ℤ). int64 (x -ℤ (pos now -ℤ pos m.last_check))) term
      ∙ ap (λ (x : ℤ). int64 (pos (hour * e) -ℤ x)) (pos_sub now m.last_check checked)
      ∙ ap int64 (pos_sub (hour * e) (now - m.last_check) h)
      ∙ int64-pos (hour * e - (now - m.last_check)) (omega (arith, small)))

  process_expire_lem :
      process_expire now m ≡ (if ltb (hour * e) (now - m.last_check) then expired m else done m)
  unfolding process_expire
  process_expire_lem = ground (arith, alive, term, pos_sub now m.last_check checked)

-- A new user of a room is told the truth about how long it lasts: if it is told n hours, and nobody
-- checks the room out, then a round of processExpire at any later time does nothing, unless more than
-- n hours have passed; and unless less than n + 1 have passed, it closes the room, or has it close
-- when it is empty. The room is open and not over its time yet, which is below 2 ^ 63 nanoseconds.
pub left_hours-process_expire :
    (m : Room) (e now n later : ℕ)
    → m.expiration ≡ pos e
    → hour * e < 2 ^ 63
    → m.last_check ≤ now
    → m.going_close ≡ false
    → now - m.last_check ≤ hour * e
    → now ≤ later
    → left_hours now m ≡ pos n
    → ((now + hour * n < later) ⊎ (process_expire later m ≡ done m))
      × ((later < now + hour * suc n) ⊎ (process_expire later m ≡ expired m))
left_hours-process_expire m e now n later exp small checked alive h after told =
    let left : ℕ = hour * e - (now - m.last_check) in
    let same : left / hour ≡ n =
      ap pos_part (sym (left_hours_lem m e now exp small checked alive h) ∙ told) in
    let choose : Bool → Outcome Room = λ b. if b then expired m else done m in
    let round = process_expire_lem m e later exp small (omega (arith, checked, after)) alive in
    elim (Bool-cases (ltb (hour * e) (later - m.last_check))) [
      | inl over ↦
          (inl (ground (arith, over, same, checked, after, h)), inr (round ∙ ap choose over))
      | inr open_yet ↦ (
        inr (round ∙ ap choose open_yet),
        inl (ground (arith, open_yet, same, checked, after, h)),
      )
    ]
