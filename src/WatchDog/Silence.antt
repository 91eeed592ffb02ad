-- ===== src/WatchDog/Silence.antt =====
-- When the watchdog kills the server, and when it does not start it again.
use paintty_server_go.Prelude.{
  ℕ, ◌+◌, ◌≤◌, ◌<◌, ◌≡◌, refl, sym, ap, ◌∙◌, true, false, List, [], ◌∷◌, Option, none, some, arith,
  ltb, Bool-cases, Option-cases, inl, inr,
}
use paintty_server_go.Socket.Reader.{Package}
use paintty_server_go.Router.{Unmarshal}
use paintty_server_go.WatchDog.{
  Traffic, silence, ends, comes, closes, seems_dead, killed, waits, watch, Start, start_proc, dial,
  round, main,
}

-- Packages, each with the seconds since the one before.
abbrev pub Packages : Type 0
Packages = List (ℕ × Package)

-- Each comes within thirty seconds, and none makes the watchdog close the connection.
abbrev pub AllNear : Unmarshal → Packages → Type 0
AllNear u [] = Unit
AllNear u ((n, p) ∷ ps) = (n < 30) × (closes u p ≡ false) × AllNear u ps

abbrev pub total : Packages → ℕ
total [] = 0
total ((n, p) ∷ ps) = n + total ps

abbrev pub after : Packages → Traffic → Traffic
after [] tr = tr
after ((n, p) ∷ ps) tr = comes n p (after ps tr)

-- Nothing comes for thirty seconds, and the connection stays open meanwhile.
abbrev pub IsQuiet : Traffic → Type 0
IsQuiet silence = Unit
IsQuiet (ends n) = 30 ≤ n
IsQuiet (comes n p later) = 30 ≤ n

seems_dead-after :
    (u : Unmarshal) (ps : Packages) (tr : Traffic) (t : ℕ)
    → AllNear u ps
    → seems_dead u (after ps tr) t ≡ seems_dead u tr (t + total ps)
unfolding seems_dead
seems_dead-after u [] tr t near = ap (seems_dead u tr) (omega arith)
seems_dead-after u ((n, p) ∷ ps) tr t (h, fine, near) =
    let test : ltb n 30 ≡ true = ground arith in
    rw (test, fine) (seems_dead-after u ps tr (t + n) near ∙ ap (seems_dead u tr) (omega arith))

seems_dead-IsQuiet :
    (u : Unmarshal) (tr : Traffic) (t : ℕ) → IsQuiet tr → seems_dead u tr t ≡ some (t + 30)
unfolding seems_dead
seems_dead-IsQuiet u silence t h = refl
seems_dead-IsQuiet u (ends n) t h = ground arith
seems_dead-IsQuiet u (comes n p later) t h = ground arith

-- No report comes before thirty seconds have passed.
seems_dead-late : (u : Unmarshal) (tr : Traffic) (t d : ℕ) → seems_dead u tr t ≡ some d → t + 30 ≤ d
unfolding seems_dead
seems_dead-late u silence t d e = ground (arith, e)
seems_dead-late u (ends n) t d e = ground (arith, e)
seems_dead-late u (comes n p later) t d e = ground (arith, e, seems_dead-late u later (t + n) d)

watch_killed : (x y : Option ℕ) (d : ℕ) → watch x y ≡ killed d → x ≡ some d
unfolding watch
watch_killed none none d h = ground (arith, h)
watch_killed none (some e) d h = ground (arith, h)
watch_killed (some x) none d h = ground (arith, h)
watch_killed (some x) (some e) d h = ground (arith, h)

-- A server that stops answering is killed: packages come, each within thirty seconds of the one
-- before, none of which closes the connection, and then nothing for thirty seconds, while the
-- connection stays open and the process does not end by then. It is killed thirty seconds after the
-- last package; the process was started, and the connection made ten seconds later.
pub round-silence :
    (u : Unmarshal) (s : Start) (ps : Packages) (tr : Traffic)
    → s.starts ≡ true
    → s.dials ≡ true
    → s.traffic ≡ after ps tr
    → AllNear u ps
    → IsQuiet tr
    → ((e : ℕ) → s.exit ≡ some e → 40 + total ps < e)
    → round u s ≡ some (killed (40 + total ps))
unfolding round start_proc dial watch
round-silence u s ps tr starts dials e near quiet later =
    let dead : seems_dead u s.traffic 10 ≡ some (40 + total ps) =
      ap (λ (x : Traffic). seems_dead u x 10) e
      ∙ seems_dead-after u ps tr 10 near
      ∙ seems_dead-IsQuiet u tr (10 + total ps) quiet
      ∙ ap some (omega arith) in
    elim (Option-cases s.exit) [
      | inl runs ↦ ground (arith, starts, dials, dead, runs)
      | inr (x, ends_at) ↦ ground (arith, starts, dials, dead, ends_at, later x ends_at)
    ]

-- A server that answers is not killed: while packages come, each within thirty seconds of the one
-- before, none of which closes the connection, and for thirty seconds after the last of them, the
-- watchdog does not kill it, whatever comes later.
pub round-near :
    (u : Unmarshal) (s : Start) (ps : Packages) (tr : Traffic) (d : ℕ)
    → s.traffic ≡ after ps tr
    → AllNear u ps
    → round u s ≡ some (killed d)
    → 40 + total ps ≤ d
unfolding round start_proc dial
round-near u s ps tr d e near kills = elim (Bool-cases s.starts) [
  | inr fails ↦ absurd (ground (arith, kills, fails))
  | inl starts ↦ elim (Bool-cases s.dials) [
    | inr fails ↦ absurd (ground (arith, kills, starts, fails))
    | inl dials ↦
        let ended : watch (seems_dead u s.traffic 10) s.exit ≡ killed d =
          ground (arith, kills, starts, dials) in
        let dead : seems_dead u tr (10 + total ps) ≡ some d =
          sym (seems_dead-after u ps tr 10 near)
          ∙ ap (λ (x : Traffic). seems_dead u x 10) (sym e)
          ∙ watch_killed (seems_dead u s.traffic 10) s.exit d ended in
        ground (arith, seems_dead-late u tr (10 + total ps) d dead)
  ]
]

-- If the process was started and dialled, and the connection ends within thirty seconds of the last package while the server's process goes on,
-- the watchdog waits for ever: it neither kills the server nor starts it again, whatever the starts
-- after it would be.
pub main-ends :
    (u : Unmarshal) (s : Start) (later : List Start) (ps : Packages) (n : ℕ)
    → s.starts ≡ true
    → s.dials ≡ true
    → s.traffic ≡ after ps (ends n)
    → n < 30
    → AllNear u ps
    → s.exit ≡ none
    → main u (s ∷ later) ≡ waits ∷ []
unfolding main round start_proc dial seems_dead watch
main-ends u s later ps n starts dials e soon near runs =
    let dead : seems_dead u s.traffic 10 ≡ none =
      ap (λ (x : Traffic). seems_dead u x 10) e
      ∙ seems_dead-after u ps (ends n) 10 near
      ∙ ground (arith, soon) in
    ground (arith, starts, dials, dead, runs)
