-- ===== src/Radio/Same.antt =====
-- Steps on a radio that change nothing for the client at an address.
use mathlib.Core.Path.{subst}
use paintty_server_go.Prelude.{
  ℕ, zero, suc, ◌<◌, ◌^◌, ◌≡◌, ◌≢◌, refl, sym, ap, ◌∙◌, false, List, [], ◌∷◌, ◌++◌, Bytes, Option,
  some, Error, arith, length, set, get_elem?, get_elem?-set_ne, Bool-cases, Option-cases, inl, inr,
}
use paintty_server_go.Prelude.Maps.{pointer_Eq, delete}
use paintty_server_go.BufferedFile.{Buffered}
use paintty_server_go.BufferedFile.Log.{log, IsValid, IsCalm}
use paintty_server_go.Radio.Split.{payloads, AllTasks}
use paintty_server_go.Radio.Serve.{AllIn}
use paintty_server_go.Radio.{
  RadioClient, Delivery, Radio, done, blocks, panics, with_lock, deliver, without, take_chunk, tick,
  ticked, give_up, client_closed, remove_client,
}
use paintty_server_go.Radio.Tasks.{
  TaskList, RadioChunk, append_to_pendings, fetch_and_send, Fetched,
}
use paintty_server_go.Radio.Owed.{pending, flying, owed, IsFine}
use paintty_server_go.Radio.Returns.{Returns, Returns-of, Returns-map}

-- Nothing has changed for the client at address a.
abbrev pub Same : ℕ → Radio → Radio → Type 0
Same a r r' =
    (get_elem? r'.heap a ≡ get_elem? r.heap a)
    × (flying a r'.in_flight ≡ flying a r.in_flight)
    × (r'.file ≡ r.file)
    × (r'.locked ≡ r.locked)

Same-trans : (a : ℕ) (r r' r'' : Radio) → Same a r r' → Same a r' r'' → Same a r r''
Same-trans a r r' r'' x y = (y.0 ∙ x.0, y.1 ∙ x.1, y.2 ∙ x.2, y.3 ∙ x.3)

pub Same-refl : (a : ℕ) (r : Radio) → Same a r r
Same-refl a r = (refl, refl, refl, refl)

Same-tasks :
    (a : ℕ) (r r' : Radio)
    → Same a r r'
    → pending r' a ++ flying a r'.in_flight ≡ pending r a ++ flying a r.in_flight
Same-tasks a r r' (heap, flight, file, locked) =
    let now : pending r' a ≡ pending r a = ground (arith, heap) in
    ap (λ (t : TaskList). t ++ flying a r'.in_flight) now ∙ ap (◌++◌ (pending r a)) flight

pub Same-owed :
    (a : ℕ) (r r' : Radio) → Same a r r' → IsFine r a → (owed r' a ≡ owed r a) × IsFine r' a
Same-owed a r r' same fine =
    let (heap, flight, files, locks) = same in
    let tasks = Same-tasks a r r' same in
    (
      ap (λ (t : TaskList). payloads (log r'.file) t) tasks
          ∙ ap (λ (f : Buffered). payloads (log f) (pending r a ++ flying a r.in_flight)) files,
      record {
        free = locks ∙ fine.free;
        valid = subst IsValid (sym files) fine.valid;
        calm = subst IsCalm (sym files) fine.calm;
        small = subst (λ (f : Buffered). length (log f) < 2 ^ 63) (sym files) fine.small;
        tasks = subst AllTasks (sym tasks) fine.tasks;
        inside =
            subst (λ (t : TaskList). AllIn t (log r'.file)) (sym tasks)
              (subst (λ (f : Buffered). AllIn (pending r a ++ flying a r.in_flight) (log f))
                (sym files) fine.inside);
      },
    )

pub take_chunk-Same :
    (a b : ℕ) (c : RadioChunk) (r : Radio) → b ≢ a → Returns (Same a r) (take_chunk r b c)
unfolding take_chunk
take_chunk-Same a b c r ne = elim (Option-cases (get_elem? r.heap b)) [
  | inl gone ↦
      Returns-of (Same a r) (take_chunk r b c) (done r) (ground (arith, gone)) (Same-refl a r)
  | inr (rc, found) ↦ elim (Bool-cases rc.running) [
    | inr ended ↦
        Returns-of (Same a r) (take_chunk r b c) (done r) (ground (arith, found, ended))
          (Same-refl a r)
    | inl runs ↦ elim (Option-cases (append_to_pendings c rc.list)) [
      | inl bad ↦
          Returns-of (Same a r) (take_chunk r b c) panics (ground (arith, found, runs, bad)) tt
      | inr (list, e) ↦
          Returns-of (Same a r) (take_chunk r b c)
            (done (record r { heap = set r.heap b (record rc { list = list }) }))
            (ground (arith, found, runs, e))
            (get_elem?-set_ne r.heap (record rc { list = list }) ne, refl, refl, refl)
    ]
  ]
]

flying-without_other :
    (ds : List Delivery) (i a : ℕ) (d : Delivery)
    → get_elem? ds i ≡ some d
    → d.to ≢ a
    → flying a (without i ds) ≡ flying a ds
flying-without_other [] i a d e ne = refl
flying-without_other (x ∷ ds) zero a d e ne = ground (arith, e, ne)
flying-without_other (x ∷ ds) (suc i) a d e ne = ground (arith, flying-without_other ds i a d e ne)

-- RemoveClient on a radio in which nothing has changed for the client at address a.
remove_client-Same :
    (a c : ℕ) (r r' : Radio) → Same a r r' → Returns (Same a r) (remove_client r' c)
unfolding remove_client
remove_client-Same a c r r' same = elim (Bool-cases r'.locked) [
  | inl held ↦ Returns-of (Same a r) (remove_client r' c) blocks (ground (arith, held)) tt
  | inr free ↦
      Returns-of (Same a r) (remove_client r' c)
        (done (record r' { clients = delete c r'.clients })) (ground (arith, free)) same
]

module _ (a i : ℕ) (r : Radio) (d : Delivery) (e : get_elem? r.in_flight i ≡ some d)
    (ne : d.to ≢ a) where
  abbrev flown : Radio
  flown = record r { in_flight = without i r.in_flight }

  flown-Same : Same a r flown
  flown-Same = (refl, flying-without_other r.in_flight i a d e ne, refl, refl)

  pub deliver-Same : Returns (Same a r) (deliver r i)
  unfolding deliver
  deliver-Same = elim (Option-cases (get_elem? r.heap d.to)) [
    | inl gone ↦
        Returns-of (Same a r) (deliver r i) (done r) (ground (arith, e, gone)) (Same-refl a r)
    | inr (rc, found) ↦ elim (Bool-cases rc.running) [
      | inr ended ↦
          Returns-of (Same a r) (deliver r i) (done r) (ground (arith, e, found, ended))
            (Same-refl a r)
      | inl runs ↦
          Returns-of (Same a r) (deliver r i) (take_chunk flown d.to d.chunk)
            (ground (arith, e, found, runs))
            (Returns-map (Same a flown) (Same a r) (take_chunk flown d.to d.chunk)
              (λ r'. Same-trans a r flown r' flown-Same) (take_chunk-Same a d.to d.chunk flown ne))
    ]
  ]

  pub give_up-Same : Returns (Same a r) (give_up r i)
  unfolding give_up
  give_up-Same = elim (Option-cases (get_elem? r.heap d.to)) [
    | inl gone ↦
        Returns-of (Same a r) (give_up r i) (done r) (ground (arith, e, gone)) (Same-refl a r)
    | inr (rc, found) ↦
        Returns-of (Same a r) (give_up r i) (remove_client flown rc.client)
          (ground (arith, e, found)) (remove_client-Same a rc.client r flown flown-Same)
  ]

module _ (a b : ℕ) (r : Radio) (ne : b ≢ a) where
  -- The client at address b, in another state.
  abbrev changed : RadioClient → Radio
  changed rc = record r { heap = set r.heap b rc }

  changed-Same : (rc : RadioClient) → Same a r (changed rc)
  changed-Same rc = (get_elem?-set_ne r.heap rc ne, refl, refl, refl)

  abbrev SameBut : Radio × Bytes → Type 0
  SameBut x = Same a r x.0

  ticked-Same : (rc : RadioClient) (x : Fetched) → Returns SameBut (ticked r b rc x)
  unfolding remove_client
  ticked-Same rc x = elim (Option-cases x.error) [
    | inl fine ↦
        Returns-of SameBut (ticked r b rc x) (done (changed (record rc { list = x.list }), x.sent))
          (ground (arith, fine)) (changed-Same (record rc { list = x.list }))
    | inr (e, fails) ↦ elim (Bool-cases r.locked) [
      | inl held ↦ Returns-of SameBut (ticked r b rc x) blocks (ground (arith, fails, held)) tt
      | inr free ↦
          Returns-of SameBut (ticked r b rc x)
            (done (
              record r {
                clients = delete rc.client r.clients;
                heap = set r.heap b (record rc { list = x.list; running = false });
              },
              x.sent,
            ))
            (ground (arith, fails, free))
            (changed-Same (record rc { list = x.list; running = false }))
    ]
  ]

  pub tick-Same : (write_raw : Bytes → Option Error) → Returns SameBut (tick write_raw r b)
  unfolding tick
  tick-Same write_raw = elim (Option-cases (get_elem? r.heap b)) [
    | inl gone ↦
        Returns-of SameBut (tick write_raw r b) (done (r, [])) (ground (arith, gone))
          (Same-refl a r)
    | inr (rc, found) ↦ elim (Bool-cases rc.running) [
      | inr ended ↦
          Returns-of SameBut (tick write_raw r b) (done (r, [])) (ground (arith, found, ended))
            (Same-refl a r)
      | inl runs ↦ elim (Option-cases (fetch_and_send write_raw rc.list r.file)) [
        | inl bad ↦
            Returns-of SameBut (tick write_raw r b) panics (ground (arith, found, runs, bad)) tt
        | inr (x, e) ↦
            Returns-of SameBut (tick write_raw r b) (ticked r b rc x)
              (ground (arith, found, runs, e)) (ticked-Same rc x)
      ]
    ]
  ]

  pub client_closed-Same : Returns (Same a r) (client_closed r b)
  unfolding client_closed
  client_closed-Same = elim (Option-cases (get_elem? r.heap b)) [
    | inl gone ↦
        Returns-of (Same a r) (client_closed r b) (done r) (ground (arith, gone)) (Same-refl a r)
    | inr (rc, found) ↦ elim (Bool-cases rc.running) [
      | inr ended ↦
          Returns-of (Same a r) (client_closed r b) (done r) (ground (arith, found, ended))
            (Same-refl a r)
      | inl runs ↦
          Returns-of (Same a r) (client_closed r b)
            (remove_client (changed (record rc { running = false })) rc.client)
            (ground (arith, found, runs))
            (remove_client-Same a rc.client r (changed (record rc { running = false }))
              (changed-Same (record rc { running = false })))
    ]
  ]

pub get_elem?-append_left :
    (xs ys : List RadioClient) (a : ℕ) → a < length xs → get_elem? (xs ++ ys) a ≡ get_elem? xs a
get_elem?-append_left [] ys a h = absurd (omega arith)
get_elem?-append_left (x ∷ xs) ys zero h = refl
get_elem?-append_left (x ∷ xs) ys (suc a) h = get_elem?-append_left xs ys a (omega arith)

pub with_lock-Same :
    (a : ℕ) (r r' : Radio) → Same a r r' → Returns (Same a r) (with_lock r (done r'))
with_lock-Same a r r' same = elim (Bool-cases r.locked) [
  | inl held ↦ Returns-of (Same a r) (with_lock r (done r')) blocks (ground (arith, held)) tt
  | inr free ↦ Returns-of (Same a r) (with_lock r (done r')) (done r') (ground (arith, free)) same
]
