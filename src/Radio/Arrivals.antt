-- ===== src/Radio/Arrivals.antt =====
-- The goroutines of send_helper and write_helper: how a chunk gets to the pending tasks of a client.
use mathlib.Core.Path.{subst}
use paintty_server_go.Prelude.{
  ℕ, zero, suc, ◌≡◌, refl, sym, ap, ◌∙◌, true, List, [], ◌∷◌, ◌++◌, Bytes, some, arith, take, drop,
  set, get_elem?, append_assoc,
}
use paintty_server_go.Prelude.Maps.{pointer_Eq}
use paintty_server_go.BufferedFile.Log.{log}
use paintty_server_go.Radio.{RadioClient, Delivery, Radio, done, deliver, without, take_chunk}
use paintty_server_go.Radio.Tasks.{TaskList, append_to_pendings}
use paintty_server_go.Radio.Split.{
  payload, payloads, payloads-append, AllTasks, AllTasks-append, AllTasks-front,
}
use paintty_server_go.Radio.Pending.{append_to_pendings-Appends}
use paintty_server_go.Radio.Serve.{AllIn}
use paintty_server_go.Radio.Inside.{append_to_pendings-AllIn, AllIn-append, AllIn-front}
use paintty_server_go.Radio.Owed.{pending, flying, owed, IsFine}

pub get_elem?-set :
    (xs : List RadioClient) (a : ℕ) (x y : RadioClient)
    → get_elem? xs a ≡ some y
    → get_elem? (set xs a x) a ≡ some x
get_elem?-set [] a x y e = ground (arith, e)
get_elem?-set (z ∷ xs) zero x y e = refl
get_elem?-set (z ∷ xs) (suc a) x y e = get_elem?-set xs a x y e

-- The chunks on their way to a client, before and behind one of them.
pub flying_split :
    (ds : List Delivery) (i a : ℕ) (d : Delivery)
    → get_elem? ds i ≡ some d
    → d.to ≡ a
    → flying a ds ≡ flying a (take i ds) ++ d.chunk ∷ flying a (drop (suc i) ds)
flying_split [] i a d e to_a = ground (arith, e)
flying_split (x ∷ ds) zero a d e to_a = ground (arith, e, to_a)
flying_split (x ∷ ds) (suc i) a d e to_a = ground (arith, flying_split ds i a d e to_a)

pub flying-without :
    (ds : List Delivery) (i a : ℕ)
    → flying a (without i ds) ≡ flying a (take i ds) ++ flying a (drop (suc i) ds)
flying-without [] zero a = refl
flying-without [] (suc i) a = refl
flying-without (x ∷ ds) zero a = refl
flying-without (x ∷ ds) (suc i) a = ground (arith, flying-without ds i a)

-- The radio after client `rc` at address `a` took the chunk at place `i`.
abbrev pub delivered : Radio → ℕ → ℕ → RadioClient → TaskList → Radio
delivered r i a rc list = record r {
  in_flight = without i r.in_flight;
  heap = set r.heap a (record rc { list = list });
}

module _ (r : Radio) (a i : ℕ) (d : Delivery) (rc : RadioClient) where
  pub deliver_lem :
      (list : TaskList)
      → get_elem? r.in_flight i ≡ some d
      → d.to ≡ a
      → get_elem? r.heap a ≡ some rc
      → rc.running ≡ true
      → append_to_pendings d.chunk rc.list ≡ some list
      → deliver r i ≡ done (delivered r i a rc list)
  unfolding deliver take_chunk
  deliver_lem list e to_a found runs appends = ground (arith, e, to_a, found, runs, appends)

  pub deliver_now :
      (list : TaskList) → get_elem? r.heap a ≡ some rc → pending (delivered r i a rc list) a ≡ list
  deliver_now list found =
      let e : get_elem? (set r.heap a (record rc { list = list })) a
          ≡ some (record rc { list = list }) =
        get_elem?-set r.heap a (record rc { list = list }) rc found in
      ground (arith, e)

  abbrev pub l : Bytes
  l = log r.file

  -- The chunks on their way to the client before and behind this one.
  abbrev pub early : TaskList
  early = flying a (take i r.in_flight)

  abbrev pub late : TaskList
  late = flying a (drop (suc i) r.in_flight)

  -- What is needed of the delivery: it is one to a client that runs.
  abbrev pub IsThere : Type 0
  IsThere =
      (get_elem? r.in_flight i ≡ some d)
      × (d.to ≡ a)
      × (get_elem? r.heap a ≡ some rc)
      × (rc.running ≡ true)

  before_split :
      IsThere → pending r a ++ flying a r.in_flight ≡ rc.list ++ (early ++ d.chunk ∷ late)
  before_split h =
      let split : flying a r.in_flight ≡ early ++ d.chunk ∷ late =
        flying_split r.in_flight i a d h.0 h.1 in
      let now : pending r a ≡ rc.list = ground (arith, h.2) in
      ap (λ (t : TaskList). t ++ flying a r.in_flight) now ∙ ap (◌++◌ rc.list) split

  after_split :
      (list : TaskList)
      → IsThere
      → pending (delivered r i a rc list) a ++ flying a (without i r.in_flight)
        ≡ list ++ (early ++ late)
  after_split list h =
      ap (λ (t : TaskList). t ++ flying a (without i r.in_flight)) (deliver_now list h.2)
      ∙ ap (◌++◌ list) (flying-without r.in_flight i a)

  pub tasks_before :
      IsThere → IsFine r a → AllTasks rc.list × (AllTasks early × AllTasks (d.chunk ∷ late))
  tasks_before h fine =
      let (olds, news) =
        AllTasks-front rc.list (early ++ d.chunk ∷ late)
          (subst AllTasks (before_split h) fine.tasks) in
      (olds, AllTasks-front early (d.chunk ∷ late) news)

  inside_before :
      IsThere → IsFine r a → AllIn rc.list l × (AllIn early l × AllIn (d.chunk ∷ late) l)
  inside_before h fine =
      let (olds, news) =
        AllIn-front rc.list (early ++ d.chunk ∷ late) l
          (subst (λ (t : TaskList). AllIn t l) (before_split h) fine.inside) in
      (olds, AllIn-front early (d.chunk ∷ late) l news)

  owed_before :
      IsThere
      → owed r a
        ≡ payloads l rc.list ++ (payloads l early ++ (payload l d.chunk ++ payloads l late))
  owed_before h =
      ap (payloads l) (before_split h)
      ∙ payloads-append l rc.list (early ++ d.chunk ∷ late)
      ∙ ap (◌++◌ (payloads l rc.list)) (payloads-append l early (d.chunk ∷ late))

  owed_after :
      (list : TaskList)
      → IsThere
      → payloads l list ≡ payloads l rc.list ++ payload l d.chunk
      → owed (delivered r i a rc list) a
        ≡ payloads l rc.list ++ (payload l d.chunk ++ (payloads l early ++ payloads l late))
  owed_after list h bytes =
      ap (payloads l) (after_split list h)
      ∙ payloads-append l list (early ++ late)
      ∙ ap (λ (b : Bytes). b ++ payloads l (early ++ late)) bytes
      ∙ append_assoc (payloads l rc.list) (payload l d.chunk) (payloads l (early ++ late))
      ∙ ap (λ (b : Bytes). payloads l rc.list ++ (payload l d.chunk ++ b))
          (payloads-append l early late)

  pub delivered-IsFine :
      (list : TaskList)
      → IsThere
      → IsFine r a
      → AllTasks list
      → append_to_pendings d.chunk rc.list ≡ some list
      → IsFine (delivered r i a rc list) a
  delivered-IsFine list h fine tasks e =
      let (olds, (first, news)) = inside_before h fine in
      let (chunk, others) = AllIn-front (d.chunk ∷ []) late l news in
      let (old_tasks, (first_tasks, new_tasks)) = tasks_before h fine in
      let inside : AllIn list l =
        append_to_pendings-AllIn l fine.small d.chunk rc.list list olds chunk e in
      record {
        free = fine.free;
        valid = fine.valid;
        calm = fine.calm;
        small = fine.small;
        tasks = subst AllTasks (sym (after_split list h)) (
            AllTasks-append list (early ++ late) tasks
              (AllTasks-append early late first_tasks new_tasks.1));
        inside =
            subst (λ (t : TaskList). AllIn t l) (sym (after_split list h))
              (AllIn-append list (early ++ late) l inside (AllIn-append early late l first others));
      }

  -- A goroutine of send_helper or write_helper for a client that still runs hands its chunk over, which
  -- may overtake the chunks before it: it neither panics nor waits for ever, and what the client is
  -- owed is the same but that the bytes of this chunk come before those of the chunks that it overtook.
  -- The radio is fine for that client, before and after.
  pub deliver-overtakes :
      IsFine r a
      → IsThere
      → (r' : Radio) × (deliver r i ≡ done r')
        × (owed r a
            ≡ payloads l rc.list ++ (payloads l early ++ (payload l d.chunk ++ payloads l late)))
        × (owed r' a
            ≡ payloads l rc.list ++ (payload l d.chunk ++ (payloads l early ++ payloads l late)))
        × (r'.file ≡ r.file)
        × IsFine r' a
  deliver-overtakes fine h =
      let (olds, (first, news)) = tasks_before h fine in
      let (list, appends, (bytes, tasks)) =
        append_to_pendings-Appends l d.chunk rc.list news.0 olds in
      (
        delivered r i a rc list,
        deliver_lem list h.0 h.1 h.2 h.3 appends,
        owed_before h,
        owed_after list h bytes,
        refl,
        delivered-IsFine list h fine tasks appends,
      )

  -- A goroutine of send_helper or write_helper that is the oldest on its way to a client, which still
  -- runs, hands its chunk over: it neither panics nor waits for ever, and the client is owed the same
  -- bytes as before. The radio is fine for that client, before and after.
  pub deliver-owed :
      IsFine r a
      → get_elem? r.in_flight i ≡ some d
      → d.to ≡ a
      → flying a (take i r.in_flight) ≡ []
      → get_elem? r.heap a ≡ some rc
      → rc.running ≡ true
      → (r' : Radio) × (deliver r i ≡ done r')
        × (r'.file ≡ r.file)
        × (owed r' a ≡ owed r a)
        × IsFine r' a
  deliver-owed fine e to_a first found runs =
      let (r', delivers, before, now, file, fine') =
        deliver-overtakes fine (e, to_a, found, runs) in
      let none_before : payloads l early ≡ [] = ap (payloads l) first in
      (
        r',
        delivers,
        file,
        now
            ∙ ap
                (λ (b : Bytes). payloads l rc.list ++ (payload l d.chunk ++ (b ++ payloads l late)))
                none_before
            ∙ ap
                (λ (b : Bytes). payloads l rc.list ++ (b ++ (payload l d.chunk ++ payloads l late)))
                (sym none_before)
            ∙ sym before,
        fine',
      )
