-- ===== src/Radio/Overtaking.antt =====
-- Schedules of a radio, as one client sees them: writes and sends, arrivals of its chunks, rounds of
-- its timer, and whatever the other clients do, in any order. The chunks of a client may overtake each
-- other, as the goroutines of send_helper and write_helper do.
mod Runs
use mathlib.Core.List.{Permᴰ}
use mathlib.Core.List.Permᴰ
use mathlib.Core.List.Permᴰ.{trans}
use mathlib.Core.Path.{subst}
use paintty_server_go.Prelude.{
  ℕ, ◌+◌, ◌^◌, ◌<◌, ◌≡◌, refl, sym, ap, ◌∙◌, true, List, [], ◌++◌, Bytes, Option, some, Error,
  length, suc, take, drop, get_elem?, append-nil, append_assoc,
}
use paintty_server_go.BufferedFile.Log.{log}
use paintty_server_go.Radio.{RadioClient, Delivery, Radio, done, write, send, deliver, tick}
use paintty_server_go.Radio.Split.{payload, payloads}
use paintty_server_go.Radio.Owed.{flying, owed, gained, IsFine, write-owed}
use paintty_server_go.Radio.Shown.{send-owed}
use paintty_server_go.Radio.Others.{Other, act, IsOther, act-owed}
use paintty_server_go.Radio.Arrivals.{deliver-overtakes}
use paintty_server_go.Radio.Timer.{tick-owed}
use paintty_server_go.Radio.Returns.{done-injective}

-- `Muddle a r sent more r'`: from r to r', with `sent` handed over for the connection of the client at
-- address a, while what was written or sent for it is `more`.
pub data Muddle (a : ℕ) : Radio → Bytes → Bytes → Radio → Type 0 where
  over : {r : Radio} → Muddle a r [] [] r
  writes :
      {r r' r'' : Radio} {sent more : Bytes} (d : Bytes)
      → 0 < length d
      → length (log r.file) + length d < 2 ^ 63
      → write r d ≡ done r'
      → Muddle a r' sent more r''
      → Muddle a r sent (gained a r.clients d ++ more) r''
  arrives :
      {r r' r'' : Radio} {sent more : Bytes} (i : ℕ) (d : Delivery) (rc : RadioClient)
      → get_elem? r.in_flight i ≡ some d
      → d.to ≡ a
      → get_elem? r.heap a ≡ some rc
      → rc.running ≡ true
      → deliver r i ≡ done r'
      → Muddle a r' sent more r''
      → Muddle a r sent more r''
  fires :
      {r r' r'' : Radio} {now sent more : Bytes} (write_raw : Bytes → Option Error)
      (rc : RadioClient)
      → get_elem? r.heap a ≡ some rc
      → rc.running ≡ true
      → tick write_raw r a ≡ done (r', now)
      → Muddle a r' sent more r''
      → Muddle a r (now ++ sent) more r''
  -- `send`: bytes for every client of the map, which are not recorded
  shows :
      {r r' r'' : Radio} {sent more : Bytes} (d : Bytes)
      → send r d ≡ done r'
      → Muddle a r' sent more r''
      → Muddle a r sent (gained a r.clients d ++ more) r''
  elsewhere :
      {r r' r'' : Radio} {sent more : Bytes} (o : Other)
      → IsOther a r o
      → act o r ≡ done r'
      → Muddle a r' sent more r''
      → Muddle a r sent more r''

reordered : {xs ys : Bytes} → xs ≡ ys → Permᴰ xs ys
reordered {xs} e = subst (λ (ys : Bytes). Permᴰ xs ys) e (Permᴰ.refl xs)

-- The bytes of a chunk that overtakes others.
overtaken : (p x e l : Bytes) → Permᴰ (p ++ (x ++ (e ++ l))) (p ++ (e ++ (x ++ l)))
overtaken p x e l = Permᴰ.append_left p (
    trans (reordered (sym (append_assoc x e l)))
      (trans (Permᴰ.append_right l (Permᴰ.append_comm x e)) (reordered (append_assoc e x l))))

-- A step that puts bytes behind what is owed.
behind :
    {all now : Bytes} (old gain more : Bytes)
    → now ≡ old ++ gain
    → Permᴰ all (now ++ more)
    → Permᴰ all (old ++ (gain ++ more))
behind old gain more step rest =
    trans rest (reordered (ap (λ (b : Bytes). b ++ more) step ∙ append_assoc old gain more))

-- Nothing is lost or doubled when chunks overtake each other: in every such schedule of a client for
-- which the radio is fine, the bytes that were handed to its connection, with those that it is still
-- owed at the end, are a reordering of those that it was owed at the start and all that was written for
-- it meanwhile; and the radio is still fine for it.
pub Muddle-owed :
    (a : ℕ) {r r' : Radio} {sent more : Bytes}
    → IsFine r a
    → Muddle a r sent more r'
    → Permᴰ (sent ++ owed r' a) (owed r a ++ more) × IsFine r' a
Muddle-owed a {r} fine over = (reordered (sym (append-nil (owed r a))), fine)
Muddle-owed a {r} fine (writes {r' = r'} {more = more} d full fits e later) =
    let (r₁, e₁, grown, step, fine₁) = write-owed r a d fine full fits in
    let same : r₁ ≡ r' = done-injective r₁ r' (sym e₁ ∙ e) in
    let (rest, fine₂) = Muddle-owed a (subst (λ (x : Radio). IsFine x a) same fine₁) later in
    (
      behind (owed r a) (gained a r.clients d) more (ap (λ (x : Radio). owed x a) (sym same) ∙ step)
          rest,
      fine₂,
    )
Muddle-owed a {r} fine (arrives {r' = r'} {more = more} i d rc here to_a found runs e later) =
    let (r₁, e₁, before, now, file, fine₁) =
      deliver-overtakes r a i d rc fine (here, to_a, found, runs) in
    let same : r₁ ≡ r' = done-injective r₁ r' (sym e₁ ∙ e) in
    let (rest, fine₂) = Muddle-owed a (subst (λ (x : Radio). IsFine x a) same fine₁) later in
    let l : Bytes = log r.file in
    let passed : Permᴰ (owed r₁ a) (owed r a) = trans (reordered now) (
      trans
        (overtaken (payloads l rc.list) (payload l d.chunk)
          (payloads l (flying a (take i r.in_flight)))
          (payloads l (flying a (drop (suc i) r.in_flight))))
        (reordered (sym before))) in
    (
      trans rest (
          Permᴰ.append_right more
            (trans (reordered (ap (λ (x : Radio). owed x a) (sym same))) passed)),
      fine₂,
    )
Muddle-owed a {r} {r' = r''} fine
      (fires {r' = r'} {now = now} {sent = sent} {more = more} write_raw rc found runs e later) =
    let (r₁, now₁, e₁, first, step, fine₁) = tick-owed write_raw r a rc fine found runs in
    let both : (r₁, now₁) ≡ (r', now) = done-injective (r₁, now₁) (r', now) (sym e₁ ∙ e) in
    let (rest, fine₂) =
      Muddle-owed a (subst (λ (x : Radio × Bytes). IsFine x.0 a) both fine₁) later in
    (
      trans (reordered (append_assoc now sent (owed r'' a))) (
          trans (Permᴰ.append_left now rest) (
            reordered (
              sym (append_assoc now (owed r' a) more)
              ∙ ap (λ (x : Radio × Bytes). (x.1 ++ owed x.0 a) ++ more) (sym both)
              ∙ ap (λ (b : Bytes). b ++ more) step))),
      fine₂,
    )
Muddle-owed a {r} fine (shows {r' = r'} {more = more} d e later) =
    let (r₁, e₁, step, fine₁) = send-owed r a d fine in
    let same : r₁ ≡ r' = done-injective r₁ r' (sym e₁ ∙ e) in
    let (rest, fine₂) = Muddle-owed a (subst (λ (x : Radio). IsFine x a) same fine₁) later in
    (
      behind (owed r a) (gained a r.clients d) more (ap (λ (x : Radio). owed x a) (sym same) ∙ step)
          rest,
      fine₂,
    )
Muddle-owed a {r} fine (elsewhere {r' = r'} {more = more} o other e later) =
    let (step, fine₁) = act-owed a r r' o fine other e in
    let (rest, fine₂) = Muddle-owed a fine₁ later in
    (trans rest (reordered (ap (λ (b : Bytes). b ++ more) step)), fine₂)
