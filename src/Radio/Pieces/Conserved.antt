-- ===== src/Radio/Pieces/Conserved.antt =====
-- Schedules with overtaking, piece by piece: what is written or sent for a client reaches its pending
-- tasks whole, and only the order of these pieces is open.
use mathlib.Core.List.{flatten, Permᴰ}
use mathlib.Core.List.Permᴰ
use mathlib.Core.List.Permᴰ.{trans, cons}
use mathlib.Core.Path.{subst}
use paintty_server_go.Prelude.{
  ℕ, ◌≡◌, refl, sym, ap, ◌∙◌, List, [], ◌∷◌, ◌++◌, Bytes, append-nil, append_assoc,
}
use paintty_server_go.Radio.{Radio}
use paintty_server_go.Radio.Owed.{IsFine}
use paintty_server_go.Radio.Overtaking.{Muddle, over, writes, arrives, fires, shows, elsewhere}
use paintty_server_go.Radio.Pieces.{settled, underway, gains, given}
use paintty_server_go.Radio.Pieces.Steps.{
  write-pieces, send-pieces, tick-pieces, other-pieces, deliver-pieces,
}

-- What a schedule with overtaking makes of the pieces: some have come to the pending tasks, each whole,
-- and they are with those on their way at the end the pieces that were on their way at the start and
-- all that was given since, in some order.
abbrev pub Arrived : (a : ℕ) → Radio → Bytes → List Bytes → Radio → Type 0
Arrived a r sent more r' =
    (arrived : List Bytes) × (sent ++ settled r' a ≡ settled r a ++ flatten arrived)
    × Permᴰ (arrived ++ underway r' a) (underway r a ++ more)

same_list : {xs ys : List Bytes} → xs ≡ ys → Permᴰ xs ys
same_list {xs} e = subst (λ (ys : List Bytes). Permᴰ xs ys) e (Permᴰ.refl xs)

-- A step that gives pieces.
gave :
    (a : ℕ) (r r' r'' : Radio) (sent : Bytes) (gain more : List Bytes)
    → settled r' a ≡ settled r a
    → underway r' a ≡ underway r a ++ gain
    → Arrived a r' sent more r''
    → Arrived a r sent (gain ++ more) r''
gave a r r' r'' sent gain more bytes flight (arrived, e, p) = (
  arrived,
  e ∙ ap (λ (b : Bytes). b ++ flatten arrived) bytes,
  trans p (
      same_list
        (ap (λ (ps : List Bytes). ps ++ more) flight ∙ append_assoc (underway r a) gain more)),
)

pub Muddle-pieces :
    (a : ℕ) {r r' : Radio} {sent more : Bytes}
    → IsFine r a
    → (m : Muddle a r sent more r') → Arrived a r sent (given m) r' × IsFine r' a
unfolding flatten
Muddle-pieces a {r} fine over =
    (([], sym (append-nil (settled r a)), same_list (sym (append-nil (underway r a)))), fine)
Muddle-pieces a {r} {r' = r''} {sent = sent} fine (writes {r' = r'} d full fits e later) =
    let (bytes, flight, fine') = write-pieces r a fine d r' full fits e in
    let (rest, fine'') = Muddle-pieces a fine' later in
    (gave a r r' r'' sent (gains a r.clients d) (given later) bytes flight rest, fine'')
Muddle-pieces a {r} {r' = r''} {sent = sent} fine (shows {r' = r'} d e later) =
    let (bytes, flight, fine') = send-pieces r a fine d r' e in
    let (rest, fine'') = Muddle-pieces a fine' later in
    (gave a r r' r'' sent (gains a r.clients d) (given later) bytes flight rest, fine'')
Muddle-pieces a {r} {r' = r''} fine (arrives {r' = r'} i d rc here to_a found runs e later) =
    let (x, es, ls, bytes, before, now, fine') =
      deliver-pieces r a fine i d rc r' here to_a found runs e in
    let ((arrived, same, p), fine'') = Muddle-pieces a fine' later in
    (
      (
        x ∷ arrived,
        same
            ∙ ap (λ (b : Bytes). b ++ flatten arrived) bytes
            ∙ append_assoc (settled r a) x (flatten arrived),
        trans (cons refl (trans p (same_list (ap (λ (ps : List Bytes). ps ++ given later) now)))) (
            Permᴰ.append_right (given later)
              (trans (Permᴰ.symm (Permᴰ.middle x es ls)) (same_list (sym before)))),
      ),
      fine'',
    )
Muddle-pieces a {r} {r' = r''} fine
      (fires {r' = r'} {now = now} {sent = sent} write_raw rc found runs e later) =
    let (bytes, flight, fine') = tick-pieces r a fine write_raw rc r' now found runs e in
    let ((arrived, same, p), fine'') = Muddle-pieces a fine' later in
    (
      (
        arrived,
        append_assoc now sent (settled r'' a)
            ∙ ap (◌++◌ now) same
            ∙ sym (append_assoc now (settled r' a) (flatten arrived))
            ∙ ap (λ (b : Bytes). b ++ flatten arrived) bytes,
        trans p (same_list (ap (λ (ps : List Bytes). ps ++ given later) flight)),
      ),
      fine'',
    )
Muddle-pieces a {r} {r' = r''} fine (elsewhere {r' = r'} o other e later) =
    let (bytes, flight, fine') = other-pieces r a fine o r' other e in
    let ((arrived, same, p), fine'') = Muddle-pieces a fine' later in
    (
      (
        arrived,
        same ∙ ap (λ (b : Bytes). b ++ flatten arrived) bytes,
        trans p (same_list (ap (λ (ps : List Bytes). ps ++ given later) flight)),
      ),
      fine'',
    )
