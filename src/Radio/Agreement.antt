-- ===== src/Radio/Agreement.antt =====
-- The history of a radio as a whole, its goroutines in any order, and what any two of its clients get.
mod Runs
use mathlib.Core.List.{flatten, Permᴰ}
use mathlib.Core.List.Permᴰ
use mathlib.Core.List.Permᴰ.{trans}
use mathlib.Core.Path.{subst}
use paintty_server_go.Prelude.{
  ℕ, ◌+◌, ◌^◌, ◌<◌, ◌≤◌, ◌≡◌, ◌≢◌, refl, sym, ap, ◌∙◌, true, false, Bool, List, [], ◌∷◌, ◌++◌,
  Bytes, Option, none, some, Error, arith, ◌==◌, if◌then◌else◌, length, take, get_elem?, Bool-cases,
  inl, inr,
}
use paintty_server_go.Prelude.Int.{ℤ}
use paintty_server_go.BufferedFile.Log.{log}
use paintty_server_go.Radio.{
  RadioClient, Delivery, Radio, Outcome, done, blocks, panics, ◌>>=◌, write, send, deliver, tick,
  give_up, single_send, client_closed, add_client, remove_client,
}
use paintty_server_go.Radio.Owed.{flying, owed, gained, IsFine}
use paintty_server_go.Radio.Others.{
  Other, act, hands_over, gives_up, sends, closes, joins, leaves, single, IsOther,
}
use paintty_server_go.Radio.Overtaking.{Muddle, over, writes, shows, arrives, fires, elsewhere}
use paintty_server_go.Radio.Pieces.{settled, underway, gains, given}
use paintty_server_go.Radio.Pieces.Conserved.{Arrived, Muddle-pieces}

-- `History r out r'`: from r to r', with `out` handed to the connections, each piece with the address
-- of its client, oldest first.
pub data History : Radio → List (ℕ × Bytes) → Radio → Type 0 where
  ends : {r : Radio} → History r [] r
  written :
      {r r' r'' : Radio} {out : List (ℕ × Bytes)} (d : Bytes)
      → 0 < length d
      → length (log r.file) + length d < 2 ^ 63
      → write r d ≡ done r'
      → History r' out r''
      → History r out r''
  shown :
      {r r' r'' : Radio} {out : List (ℕ × Bytes)} (d : Bytes)
      → send r d ≡ done r'
      → History r' out r''
      → History r out r''
  -- a chunk on its way to some client arrives, maybe before older ones
  arrived :
      {r r' r'' : Radio} {out : List (ℕ × Bytes)} (i : ℕ) (d : Delivery) (rc : RadioClient)
      → get_elem? r.in_flight i ≡ some d
      → get_elem? r.heap d.to ≡ some rc
      → rc.running ≡ true
      → deliver r i ≡ done r'
      → History r' out r''
      → History r out r''
  fired :
      {r r' r'' : Radio} {out : List (ℕ × Bytes)} {now : Bytes} (write_raw : Bytes → Option Error)
      (b : ℕ) (rc : RadioClient)
      → get_elem? r.heap b ≡ some rc
      → rc.running ≡ true
      → tick write_raw r b ≡ done (r', now)
      → History r' out r''
      → History r ((b, now) ∷ out) r''
  -- what the room sends to one client alone
  told_alone :
      {r r' r'' : Radio} {out : List (ℕ × Bytes)} (d : Bytes) (c : ℕ)
      → single_send true r d c ≡ done r'
      → History r' out r''
      → History r out r''
  joined :
      {r r' r'' : Radio} {out : List (ℕ × Bytes)} (c : ℕ) (start size : ℤ)
      → add_client r c start size ≡ done r'
      → History r' out r''
      → History r out r''
  left :
      {r r' r'' : Radio} {out : List (ℕ × Bytes)} (c : ℕ)
      → remove_client r c ≡ done r'
      → History r' out r''
      → History r out r''
  gave_up :
      {r r' r'' : Radio} {out : List (ℕ × Bytes)} (i : ℕ) (d : Delivery)
      → get_elem? r.in_flight i ≡ some d
      → give_up r i ≡ done r'
      → History r' out r''
      → History r out r''
  hung_up :
      {r r' r'' : Radio} {out : List (ℕ × Bytes)} (b : ℕ)
      → client_closed r b ≡ done r'
      → History r' out r''
      → History r out r''

-- What was handed to the connection of the client at an address.
abbrev pub sent_to : ℕ → List (ℕ × Bytes) → Bytes
sent_to a [] = []
sent_to a ((b, d) ∷ out) = if b == a then d ++ sent_to a out else sent_to a out

-- All that was written or shown, piece by piece.
abbrev pub broadcasts : {r r' : Radio} {out : List (ℕ × Bytes)} → History r out r' → List Bytes
broadcasts ends = []
broadcasts (written d full fits e later) = d ∷ broadcasts later
broadcasts (shown d e later) = d ∷ broadcasts later
broadcasts (arrived i d rc there found runs e later) = broadcasts later
broadcasts (fired write_raw b rc found runs e later) = broadcasts later
broadcasts (told_alone d c e later) = broadcasts later
broadcasts (joined c start size e later) = broadcasts later
broadcasts (left c e later) = broadcasts later
broadcasts (gave_up i d there e later) = broadcasts later
broadcasts (hung_up b e later) = broadcasts later

-- The client at an address stays: its goroutine was started before, its address stands once in the
-- map whenever something is written or shown, nothing is sent to it alone, no chunk for it is given up,
-- and its connection stays open.
abbrev pub Stays : ℕ → {r r' : Radio} {out : List (ℕ × Bytes)} → History r out r' → Type 0
Stays a ends = Unit
Stays a (written {r = r} d full fits e later) = (gains a r.clients d ≡ d ∷ []) × Stays a later
Stays a (shown {r = r} d e later) = (gains a r.clients d ≡ d ∷ []) × Stays a later
Stays a (arrived i d rc there found runs e later) = Stays a later
Stays a (fired write_raw b rc found runs e later) = Stays a later
Stays a (told_alone {r = r} d c e later) = IsOther a r (single true d c) × Stays a later
Stays a (joined {r = r} c start size e later) = (a < length r.heap) × Stays a later
Stays a (left c e later) = Stays a later
Stays a (gave_up i d there e later) = (d.to ≢ a) × Stays a later
Stays a (hung_up b e later) = (b ≢ a) × Stays a later

some-injective {ℓ} : {A : Type ℓ} (x y : A) → some x ≡ some y → x ≡ y
some-injective x y e = ap (λ o. elim o [ none ↦ x | some z ↦ z ]) e

-- A chunk for another client.
other_delivery :
    (ds : List Delivery) (i a : ℕ) (d : Delivery)
    → get_elem? ds i ≡ some d
    → d.to ≢ a
    → (d' : Delivery) → get_elem? ds i ≡ some d'
    → d'.to ≢ a
other_delivery ds i a d there ne d' e q =
    ne (ap (λ (x : Delivery). x.to) (some-injective d d' (sym there ∙ e)) ∙ q)

-- A schedule of one client, with overtaking, in which it is given some pieces.
abbrev View : ℕ → Radio → Bytes → List Bytes → Radio → Type 0
View a r sent ps r' = (more : Bytes) × (mu : Muddle a r sent more r') × (given mu ≡ ps)

gives :
    (ps qs : List Bytes) (d : Bytes) {gs : List Bytes} → gs ≡ d ∷ [] → ps ≡ qs → gs ++ ps ≡ d ∷ qs
gives ps qs d once e = ap (λ (gs : List Bytes). gs ++ ps) once ∙ ap (λ (xs : List Bytes). d ∷ xs) e

-- What one client sees of a history.
Stays-View :
    (a : ℕ) {r r' : Radio} {out : List (ℕ × Bytes)} (h : History r out r')
    → Stays a h
    → View a r (sent_to a out) (broadcasts h) r'
unfolding act
Stays-View a ends stays = ([], over, refl)
Stays-View a {r} (written d full fits e later) (once, stays) =
    let (more, mu, q) = Stays-View a later stays in
    (
      gained a r.clients d ++ more,
      writes d full fits e mu,
      gives (given mu) (broadcasts later) d once q,
    )
Stays-View a {r} (shown d e later) (once, stays) =
    let (more, mu, q) = Stays-View a later stays in
    (gained a r.clients d ++ more, shows d e mu, gives (given mu) (broadcasts later) d once q)
Stays-View a {r} (arrived i d rc there found runs e later) stays =
    let (more, mu, q) = Stays-View a later stays in
    elim (Bool-cases (d.to == a)) [
      | inl here ↦
          let same : d.to ≡ a = ground arith in
          (more, arrives i d rc there same (rw same at found) runs e mu, q)
      | inr other ↦ (
        more,
        elsewhere (hands_over i) (other_delivery r.in_flight i a d there (ground (arith, other))) e
            mu,
        q,
      )
    ]
Stays-View a {r} {r'} (fired {out = out} {now = now} write_raw b rc found runs e later) stays =
    let (more, mu, q) = Stays-View a later stays in
    elim (Bool-cases (b == a)) [
      | inl here ↦
          let same : b ≡ a = ground arith in
          subst (λ (s : Bytes). View a r s (broadcasts later) r')
            (sym (ap (λ (x : Bool). if x then now ++ sent_to a out else sent_to a out) here))
            (more, fires write_raw rc (rw same at found) runs (rw same at e) mu, q)
      | inr other ↦
          subst (λ (s : Bytes). View a r s (broadcasts later) r')
            (sym (ap (λ (x : Bool). if x then now ++ sent_to a out else sent_to a out) other))
            (
              more,
              elsewhere (sends write_raw b) (ground (arith, other))
                  (ap (λ o. o >>= λ x. done x.0) e) mu,
              q,
            )
    ]
Stays-View a (told_alone d c e later) (other, stays) =
    let (more, mu, q) = Stays-View a later stays in
    (more, elsewhere (single true d c) other e mu, q)
Stays-View a (joined c start size e later) (there, stays) =
    let (more, mu, q) = Stays-View a later stays in
    (more, elsewhere (joins c start size) there e mu, q)
Stays-View a (left c e later) stays =
    let (more, mu, q) = Stays-View a later stays in (more, elsewhere (leaves c) tt e mu, q)
Stays-View a {r} (gave_up i d there e later) (ne, stays) =
    let (more, mu, q) = Stays-View a later stays in
    (more, elsewhere (gives_up i) (other_delivery r.in_flight i a d there ne) e mu, q)
Stays-View a (hung_up b e later) (ne, stays) =
    let (more, mu, q) = Stays-View a later stays in (more, elsewhere (closes b) ne e mu, q)

Stays-Arrived :
    (a : ℕ) {r r' : Radio} {out : List (ℕ × Bytes)} (h : History r out r')
    → IsFine r a
    → Stays a h
    → Arrived a r (sent_to a out) (broadcasts h) r'
Stays-Arrived a {r} {r'} {out} h fine stays =
    let (more, mu, q) = Stays-View a h stays in
    subst (λ (ps : List Bytes). Arrived a r (sent_to a out) ps r') q (Muddle-pieces a fine mu).0

-- Any two clients of a radio get the same pieces, each whole, but maybe in another order: if the same
-- pieces are on their way to both at the start of a history, in some order, and both stay, then what the
-- radio handed to the connection of each, with its pending tasks at the end, is its pending tasks at the
-- start and then whole pieces; these, with the pieces still on their way to it, are those that were
-- on their way to it at the start and all that was written or shown since, in some order, and they are
-- those of the other client, in some order. The radio is fine for both, and sends nothing to them alone.
pub History-pieces :
    {r r' : Radio} {out : List (ℕ × Bytes)} (a b : ℕ) (h : History r out r')
    → IsFine r a
    → IsFine r b
    → Permᴰ (underway r a) (underway r b)
    → Stays a h
    → Stays b h
    → (xs : List Bytes) × (ys : List Bytes) × (sent_to a out ++ settled r' a
        ≡ settled r a ++ flatten xs)
      × (sent_to b out ++ settled r' b ≡ settled r b ++ flatten ys)
      × Permᴰ (xs ++ underway r' a) (underway r a ++ broadcasts h)
      × Permᴰ (xs ++ underway r' a) (ys ++ underway r' b)
History-pieces a b h fine_a fine_b same stays_a stays_b =
    let (xs, e, p) = Stays-Arrived a h fine_a stays_a in
    let (ys, e', p') = Stays-Arrived b h fine_b stays_b in
    (xs, ys, e, e', p, trans p (trans (Permᴰ.append_right (broadcasts h) same) (Permᴰ.symm p')))
