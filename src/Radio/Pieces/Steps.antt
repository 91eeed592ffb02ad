-- ===== src/Radio/Pieces/Steps.antt =====
-- What each step of a schedule does to the pieces of a client.
use mathlib.Core.Path.{subst}
use paintty_server_go.Prelude.{
  ℕ, suc, ◌+◌, ◌^◌, ◌<◌, ◌≡◌, refl, sym, ap, ◌∙◌, true, List, [], ◌∷◌, ◌++◌, Bytes, Option, none,
  some, Error, length, take, drop, get_elem?, append-nil, arith,
}
use paintty_server_go.BufferedFile.{Buffered}
use paintty_server_go.BufferedFile.Log.{log, write-Appended}
use paintty_server_go.Radio.{
  RadioClient, Delivery, Radio, done, deliveries, write, send, deliver, tick,
}
use paintty_server_go.Radio.Tasks.{RadioChunk, ram, file, TaskList, Fetched}
use paintty_server_go.Radio.Split.{payload, payloads}
use paintty_server_go.Radio.Serve.{AllIn}
use paintty_server_go.Radio.Inside.{AllIn-front, payloads-grown}
use paintty_server_go.Radio.Pending.{piece, append_to_pendings-Appends}
use paintty_server_go.Radio.Owed.{
  pending, flying, IsFine, flying-append, wrote, write_lem, write-owed, new_payload, appended,
}
use paintty_server_go.Radio.Shown.{shown, send_lem, send-owed}
use paintty_server_go.Radio.Same.{Same}
use paintty_server_go.Radio.Others.{Other, act, IsOther, act-Same, act-owed}
use paintty_server_go.Radio.Returns.{Returns-at}
use paintty_server_go.Radio.Arrivals
use paintty_server_go.Radio.Arrivals.{
  flying_split, flying-without, delivered, deliver_lem, deliver_now, tasks_before, delivered-IsFine,
}
use paintty_server_go.Radio.Timer.{
  ticked_radio, ticked_lem, ticked_now, fetched, fetched-payloads, fetch_lem, tick_lem, tick-owed,
}
use paintty_server_go.Radio.Returns.{done-injective}
use paintty_server_go.Radio.Pieces.{
  pieces, settled, underway, gains, pieces-append, pieces-grown, pieces-deliveries,
}

-- What a step does to a client: bytes that come to its pending tasks, and the pieces on their way.
module _ (r : Radio) (a : ℕ) (fine : IsFine r a) where
  inside : AllIn (pending r a) (log r.file) × AllIn (flying a r.in_flight) (log r.file)
  inside = AllIn-front (pending r a) (flying a r.in_flight) (log r.file) fine.inside

  pub write-pieces :
      (d : Bytes) (r' : Radio)
      → 0 < length d
      → length (log r.file) + length d < 2 ^ 63
      → write r d ≡ done r'
      → (settled r' a ≡ settled r a)
        × (underway r' a ≡ underway r a ++ gains a r.clients d)
        × IsFine r' a
  write-pieces d r' full fits e =
      let (r₁, e₁, grown, step, fine₁) = write-owed r a d fine full fits in
      let now : wrote r d ≡ r' =
        done-injective (wrote r d) r'
          (sym (write_lem r d fine.free (write-Appended r.file d fine.valid fine.calm).1) ∙ e) in
      let log_now : log (wrote r d).file ≡ log r.file ++ d =
        (appended r a d fine full fits).appended in
      let chunk : RadioChunk = file (piece r.file.whole_size (length d)) in
      (
        ap (λ (x : Radio). settled x a) (sym now)
            ∙ ap (λ (l : Bytes). payloads l (pending r a)) log_now
            ∙ payloads-grown (log r.file) d (pending r a) inside.0,
        ap (λ (x : Radio). underway x a) (sym now)
            ∙ ap (pieces (log (wrote r d).file))
                (flying-append a r.in_flight (deliveries chunk r.clients))
            ∙ pieces-append (log (wrote r d).file) (flying a r.in_flight)
                (flying a (deliveries chunk r.clients))
            ∙ ap
                (λ (l : Bytes).
                  pieces l (flying a r.in_flight)
                  ++ pieces l (flying a (deliveries chunk r.clients)))
                log_now
            ∙ ap
                (λ (ps : List Bytes).
                  ps ++ pieces (log r.file ++ d) (flying a (deliveries chunk r.clients)))
                (pieces-grown (log r.file) d (flying a r.in_flight) inside.1)
            ∙ ap (◌++◌ (underway r a)) (
                pieces-deliveries (log r.file ++ d) a chunk r.clients
                ∙ ap (gains a r.clients) (new_payload r a d fine full fits)),
        subst (λ (x : Radio). IsFine x a) (done-injective r₁ r' (sym e₁ ∙ e)) fine₁,
      )

  pub send-pieces :
      (d : Bytes) (r' : Radio)
      → send r d ≡ done r'
      → (settled r' a ≡ settled r a)
        × (underway r' a ≡ underway r a ++ gains a r.clients d)
        × IsFine r' a
  send-pieces d r' e =
      let (r₁, e₁, step, fine₁) = send-owed r a d fine in
      let now : shown r a d fine ≡ r' =
        done-injective (shown r a d fine) r' (sym (send_lem r a d fine) ∙ e) in
      (
        ap (λ (x : Radio). settled x a) (sym now),
        ap (λ (x : Radio). underway x a) (sym now)
            ∙ ap (pieces (log r.file)) (flying-append a r.in_flight (deliveries (ram d) r.clients))
            ∙ pieces-append (log r.file) (flying a r.in_flight)
                (flying a (deliveries (ram d) r.clients))
            ∙ ap (◌++◌ (underway r a)) (pieces-deliveries (log r.file) a (ram d) r.clients),
        subst (λ (x : Radio). IsFine x a) (done-injective r₁ r' (sym e₁ ∙ e)) fine₁,
      )

  ticked-pieces :
      (rc : RadioClient) (list : TaskList) (error : Option Error)
      → get_elem? r.heap a ≡ some rc
      → (settled (ticked_radio r a rc error list) a ≡ payloads (log r.file) list)
        × (underway (ticked_radio r a rc error list) a ≡ underway r a)
  ticked-pieces rc list none found =
      (ap (payloads (log r.file)) (ticked_now r a rc list none found), refl)
  ticked-pieces rc list (some x) found =
      (ap (payloads (log r.file)) (ticked_now r a rc list (some x) found), refl)

  pub tick-pieces :
      (write_raw : Bytes → Option Error) (rc : RadioClient) (r' : Radio) (now : Bytes)
      → get_elem? r.heap a ≡ some rc
      → rc.running ≡ true
      → tick write_raw r a ≡ done (r', now)
      → (now ++ settled r' a ≡ settled r a) × (underway r' a ≡ underway r a) × IsFine r' a
  tick-pieces write_raw rc r' now found runs e =
      let l : Bytes = log r.file in
      let x : Fetched = fetched write_raw l rc.list in
      let before : pending r a ≡ rc.list = ground (arith, found) in
      let (r₁, now₁, e₁, first, step, fine₁) = tick-owed write_raw r a rc fine found runs in
      let fetches =
        fetch_lem write_raw r.file fine.valid fine.calm rc.list
          (subst (λ (t : TaskList). AllIn t l) before inside.0) in
      let both : (ticked_radio r a rc x.error x.list, x.sent) ≡ (r', now) =
        done-injective (ticked_radio r a rc x.error x.list, x.sent) (r', now)
          (sym (
              tick_lem write_raw r a rc x found runs fetches
              ∙ ticked_lem r a rc x.list x.sent x.error fine.free)
            ∙ e) in
      let (bytes, flight) = ticked-pieces rc x.list x.error found in
      let sum : x.sent ++ payloads l (x.list ++ []) ≡ payloads l (rc.list ++ []) =
        (fetched-payloads write_raw l rc.list []).1 in
      (
        ap (λ (y : Radio × Bytes). y.1 ++ settled y.0 a) (sym both)
            ∙ ap (◌++◌ x.sent) (bytes ∙ ap (payloads l) (sym (append-nil x.list)))
            ∙ sum
            ∙ ap (payloads l) (append-nil rc.list ∙ sym before),
        ap (λ (y : Radio × Bytes). underway y.0 a) (sym both) ∙ flight,
        subst (λ (y : Radio × Bytes). IsFine y.0 a)
            (done-injective (r₁, now₁) (r', now) (sym e₁ ∙ e)) fine₁,
      )

  pub other-pieces :
      (o : Other) (r' : Radio)
      → IsOther a r o
      → act o r ≡ done r'
      → (settled r' a ≡ settled r a) × (underway r' a ≡ underway r a) × IsFine r' a
  other-pieces o r' other e =
      let (heap, flight, same_file, locked) =
        Returns-at (Same a r) (act o r) r' (act-Same a r o other) e in
      let now : pending r' a ≡ pending r a = ground (arith, heap) in
      (
        ap (payloads (log r'.file)) now
            ∙ ap (λ (f : Buffered). payloads (log f) (pending r a)) same_file,
        ap (pieces (log r'.file)) flight
            ∙ ap (λ (f : Buffered). pieces (log f) (flying a r.in_flight)) same_file,
        (act-owed a r r' o fine other e).1,
      )

  -- The chunk at place i comes to the pending tasks whole, before those that it overtakes.
  pub deliver-pieces :
      (i : ℕ) (d : Delivery) (rc : RadioClient) (r' : Radio)
      → get_elem? r.in_flight i ≡ some d
      → d.to ≡ a
      → get_elem? r.heap a ≡ some rc
      → rc.running ≡ true
      → deliver r i ≡ done r'
      → (x : Bytes) × (es : List Bytes) × (ls : List Bytes) × (settled r' a ≡ settled r a ++ x)
        × (underway r a ≡ es ++ x ∷ ls)
        × (underway r' a ≡ es ++ ls)
        × IsFine r' a
  deliver-pieces i d rc r' here to_a found runs e =
      let l : Bytes = log r.file in
      let es : TaskList = flying a (take i r.in_flight) in
      let ls : TaskList = flying a (drop (suc i) r.in_flight) in
      let before : pending r a ≡ rc.list = ground (arith, found) in
      let there : Arrivals.IsThere r a i d rc = (here, to_a, found, runs) in
      let (olds, (first, news)) = tasks_before r a i d rc there fine in
      let (list, appends, (bytes, tasks)) =
        append_to_pendings-Appends l d.chunk rc.list news.0 olds in
      let now : delivered r i a rc list ≡ r' =
        done-injective (delivered r i a rc list) r'
          (sym (deliver_lem r a i d rc list here to_a found runs appends) ∙ e) in
      (
        payload l d.chunk,
        pieces l es,
        pieces l ls,
        ap (λ (y : Radio). settled y a) (sym now)
            ∙ ap (payloads l) (deliver_now r a i d rc list found)
            ∙ bytes
            ∙ ap (λ (t : TaskList). payloads l t ++ payload l d.chunk) (sym before),
        ap (pieces l) (flying_split r.in_flight i a d here to_a)
            ∙ pieces-append l es (d.chunk ∷ ls),
        ap (λ (y : Radio). underway y a) (sym now)
            ∙ ap (pieces l) (flying-without r.in_flight i a)
            ∙ pieces-append l es ls,
        subst (λ (y : Radio). IsFine y a) now
            (delivered-IsFine r a i d rc list there fine tasks appends),
      )
