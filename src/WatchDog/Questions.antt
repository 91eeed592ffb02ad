-- ===== src/WatchDog/Questions.antt =====
-- The questions of the watchdog, and how fast a server has to answer them.
use paintty_server_go.Prelude.{
  ℕ, ◌+◌, ◌*◌, ◌-◌, ◌≤◌, ◌<◌, ◌≡◌, true, false, List, [], ◌∷◌, none, some, arith, length,
}
use paintty_server_go.Socket.Reader.{Package}
use paintty_server_go.Router.{Unmarshal}
use paintty_server_go.WatchDog.{Traffic, questions, closes, killed, Start, round}
use paintty_server_go.WatchDog.Silence.{Packages, AllNear, total, after, round-silence, round-near}

-- The answers to questions, each with its delay: what comes, each with the seconds since the one
-- before, which came at `last`.
abbrev pub answers : ℕ → List ℕ → List (ℕ × Package) → Packages
answers last (q ∷ qs) ((d, p) ∷ ds) = (q + d - last, p) ∷ answers (q + d) qs ds
answers last qs ds = []

-- Each delay is below twenty seconds, no answer overtakes the one before, which had the delay
-- `before`, and none of them closes the connection.
abbrev pub InTime : Unmarshal → ℕ → List (ℕ × Package) → Type 0
InTime u before [] = Unit
InTime u before ((d, p) ∷ ds) = (d < 20) × (before ≤ d + 10) × (closes u p ≡ false) × InTime u d ds

answers-AllNear :
    (u : Unmarshal) (t before : ℕ) (ds : List (ℕ × Package))
    → before < 20
    → InTime u before ds
    → AllNear u (answers (t + before) (questions (length ds) none t) ds)
unfolding questions
answers-AllNear u t before [] small h = tt
answers-AllNear u t before ((d, p) ∷ ds) small (quick, order, fine, h) =
    (omega (arith, quick, order), fine, answers-AllNear u (t + 10) d ds quick h)

answers-total :
    (u : Unmarshal) (t before : ℕ) (ds : List (ℕ × Package))
    → InTime u before ds
    → t + 10 * length ds
      ≤ t + before + total (answers (t + before) (questions (length ds) none t) ds)
unfolding questions
answers-total u t before [] h = omega arith
answers-total u t before ((d, p) ∷ ds) (quick, order, fine, h) =
    omega (arith, order, answers-total u (t + 10) d ds h)

-- A server that answers in time is not killed: if the watchdog's connection stays open, and each of its
-- first n questions, one every ten seconds, is answered within twenty seconds, whatever the answer
-- says, no answer overtaking another and none closing the connection, then whatever comes later, the
-- watchdog does not kill the server before thirty seconds after the last of these answers, so not
-- before forty seconds and ten for each question.
pub round-answers :
    (u : Unmarshal) (s : Start) (ds : List (ℕ × Package)) (tr : Traffic) (d : ℕ)
    → s.traffic ≡ after (answers 10 (questions (length ds) none 10) ds) tr
    → InTime u 0 ds
    → round u s ≡ some (killed d)
    → (40 + total (answers 10 (questions (length ds) none 10) ds) ≤ d) × (40 + 10 * length ds ≤ d)
round-answers u s ds tr d comes_in quick kills =
    let late =
      round-near u s (answers 10 (questions (length ds) none 10) ds) tr d comes_in
        (answers-AllNear u 10 0 ds (omega arith) quick) kills in
    (late, omega (arith, late, answers-total u 10 0 ds quick))

-- Twenty seconds are too many: if the first answer comes twenty seconds after its question, or later,
-- and the server's process was started and dialled and does not end before, the server is killed forty seconds after its start.
pub round_late :
    (u : Unmarshal) (s : Start) (p : Package) (d : ℕ) (tr : Traffic)
    → s.starts ≡ true
    → s.dials ≡ true
    → s.traffic ≡ after (answers 10 (questions 1 none 10) ((d, p) ∷ [])) tr
    → 20 ≤ d
    → ((e : ℕ) → s.exit ≡ some e → 40 < e)
    → round u s ≡ some (killed 40)
unfolding questions
round_late u s p d tr starts dials comes_in slow later =
    round-silence u s [] (after (answers 10 (questions 1 none 10) ((d, p) ∷ [])) tr) starts dials
      comes_in tt (omega (arith, slow)) later
