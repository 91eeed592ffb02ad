-- ===== src/Room/Kicks.antt =====
-- The count of a room's clients, kicks included, and what it means for max load.
mod Runs
use mathlib.Core.Path.{subst}
use paintty_server_go.Prelude.{
  ℕ, zero, suc, ◌+◌, ◌-◌, ◌^◌, ◌≤◌, ◌<◌, ◌≡◌, ◌≢◌, ◌⊎◌, inl, inr, refl, sym, ap, ◌∙◌, Bool, true,
  false, not, List, [], ◌∷◌, ◌++◌, none, some, Option, String, len, str_eq, arith, length,
  Bool-cases, Option-cases,
}
use paintty_server_go.Prelude.Int.{ℤ, pos, negsuc, ◌+ℤ◌, ◌-ℤ◌, ◌≤ℤ◌, int32, sub_ℕ}
use paintty_server_go.Prelude.Maps.{pointer_Eq, load, store, delete}
use paintty_server_go.Radio.{Outcome, done, ◌>>=◌}
use paintty_server_go.Radio.Returns.{Returns, Returns-at, Returns-map, Returns-if, bind-Returns}
use paintty_server_go.Room.{
  Room, RoomUser, Effect, Handled, accept, kick_client, remove_client, connection_closed,
  connection_idle, find_client_by_id, through_radio, has_user, current_load,
}
use paintty_server_go.Room.Messages.{
  Request, KickRequest, JoinRoomRequest, kick, kicked, kick_action,
}
use paintty_server_go.Room.Handlers.{Surroundings, handle, handle_kick, handle_join, for_users}
use paintty_server_go.Room.Serving.{pass_on}
use paintty_server_go.Room.Access.{handle_join-MayJoin}
use paintty_server_go.Room.Clients.{
  Clients, NodupClients, length-store_new, store-NodupClients, delete-NodupClients, length-delete,
  delete-absent,
}
use paintty_server_go.Room.Changes.{
  is_kick, SameCount, SameCount-refl, Without, Passed, handle-Keeps, remove_client-Without, Moved,
  kick_client-Moves, handle-Moves, connection_closed-Without, pass_on-Passed,
}
use paintty_server_go.Room.Life.{IsCounted}

-- The count is k behind the number of clients, and no client is in the map twice.
pub record IsBehind (k : ℕ) (m : Room) : Type 0 where
  pub count : m.current_clients_count ≡ sub_ℕ (length m.clients) k
  pub nodup : NodupClients m.clients
  pub few : length m.clients < 2 ^ 31

-- The steps of an open room: a new connection, the end of one, whether it is still in the map or was
-- kicked before, a kick of an idle client or of one whose message cannot be routed, any request, and a
-- package for the radio.
pub data Step : Room → Room → Type 0 where
  accepts :
      {m : Room} (c : ℕ)
      → load c m.clients ≡ none
      → suc (length m.clients) < 2 ^ 31
      → Step m (accept m c)
  ends : {m m' : Room} (c : ℕ) → connection_closed m c ≡ done m' → Step m m'
  kicks :
      {m m' : Room} {effects : List Effect} (c : ℕ)
      → kick_client m c ≡ done (m', effects)
      → Step m m'
  asks :
      {m m' : Room} {effects : List Effect} (s : Surroundings) (req : Request) (c : ℕ)
      → handle s req m c ≡ done (m', effects)
      → Step m m'
  draws :
      {m m' : Room} {effects : List Effect} {goes : Bool} (e : Effect) (c : ℕ)
      → pass_on e m c ≡ done (m', effects, goes)
      → Step m m'

-- The number of steps, and where they lead.
pub data Steps : ℕ → Room → Room → Type 0 where
  here : {m : Room} → Steps 0 m m
  step_then : {n : ℕ} {m m' m'' : Room} → Step m m' → Steps n m' m'' → Steps (suc n) m m''

one_more : (a k : ℕ) → suc a < 2 ^ 31 → k < 2 ^ 31 → int32 (sub_ℕ a k +ℤ pos 1) ≡ sub_ℕ (suc a) k
unfolding int32 ◌+ℤ◌
one_more a k h j = ground arith

one_less : (a k : ℕ) → suc a < 2 ^ 31 → k < 2 ^ 31 → int32 (sub_ℕ (suc a) k -ℤ pos 1) ≡ sub_ℕ a k
unfolding int32 ◌-ℤ◌
one_less a k h j = ground arith

one_further : (a k : ℕ) → a < 2 ^ 31 → suc k < 2 ^ 31 → int32 (sub_ℕ a k -ℤ pos 1) ≡ sub_ℕ a (suc k)
unfolding int32 ◌-ℤ◌
one_further a k h j = ground arith

-- Behind by k, or by one more.
abbrev Near : ℕ → Room → Type 0
Near k m = IsBehind k m ⊎ IsBehind (suc k) m

SameCount-IsBehind : (k : ℕ) (m m' : Room) → IsBehind k m → SameCount m m' → IsBehind k m'
SameCount-IsBehind k m m' h (count, size, nodup) = record {
  count = count ∙ h.count ∙ ap (λ (x : ℕ). sub_ℕ x k) (sym size);
  nodup = nodup h.nodup;
  few = omega (arith, size, h.few);
}

Without-Near :
    (k : ℕ) (m m' : Room) (c : ℕ) → suc k < 2 ^ 31 → IsBehind k m → Without m c m' → Near k m'
Without-Near k m m' c small h (cs, count) =
    let now : length m'.clients ≡ length (delete c m.clients) = ap (λ (x : Clients). length x) cs in
    let nodup : NodupClients m'.clients =
      subst NodupClients (sym cs) (delete-NodupClients c m.clients h.nodup) in
    elim (Option-cases (load c m.clients)) [
      | inl gone ↦
          let same : length (delete c m.clients) ≡ length m.clients =
            ap (λ (x : Clients). length x) (delete-absent c m.clients gone) in
          inr (record {
            count =
                count
                ∙ ap (λ (x : ℤ). int32 (x -ℤ pos 1)) h.count
                ∙ one_further (length m.clients) k h.few small
                ∙ ap (λ (x : ℕ). sub_ℕ x (suc k)) (sym (now ∙ same));
            nodup = nodup;
            few = omega (arith, now, same, h.few);
          })
      | inr (u, e) ↦
          let shorter : suc (length (delete c m.clients)) ≡ length m.clients =
            length-delete c m.clients h.nodup (λ q. ground (arith, e, q)) in
          inl (record {
            count =
                count
                ∙ ap (λ (x : ℤ). int32 (x -ℤ pos 1))
                    (h.count ∙ ap (λ (x : ℕ). sub_ℕ x k) (sym shorter))
                ∙ one_less (length (delete c m.clients)) k (omega (arith, shorter, h.few))
                    (omega (arith, small))
                ∙ ap (λ (x : ℕ). sub_ℕ x k) (sym now);
            nodup = nodup;
            few = omega (arith, now, shorter, h.few);
          })
    ]

Moved-Near : (k : ℕ) (m m' : Room) → suc k < 2 ^ 31 → IsBehind k m → Moved m m' → Near k m'
Moved-Near k m m' small h (inl same) = inl (SameCount-IsBehind k m m' h same)
Moved-Near k m m' small h (inr (c, without)) = Without-Near k m m' c small h without

Step-Near : {m m' : Room} (k : ℕ) → suc k < 2 ^ 31 → IsBehind k m → Step m m' → Near k m'
unfolding accept
Step-Near {m} k small h (accepts c new room) =
    let u : RoomUser = record { client_id = ""; nick_name = "" } in
    let longer : length (store c u m.clients) ≡ suc (length m.clients) =
      length-store_new c u m.clients new in
    inl (record {
      count =
          ap (λ (x : ℤ). int32 (x +ℤ pos 1)) h.count
          ∙ one_more (length m.clients) k room (omega (arith, small))
          ∙ ap (λ (x : ℕ). sub_ℕ x k) (sym longer);
      nodup = store-NodupClients c u m.clients h.nodup;
      few = rw longer room;
    })
Step-Near {m} {m'} k small h (ends c e) =
    Without-Near k m m' c small h
      (Returns-at (Without m c) (connection_closed m c) m' (connection_closed-Without m c) e)
Step-Near {m} {m'} k small h (kicks {effects = effects} c e) =
    Moved-Near k m m' small h
      (Returns-at (λ x. Moved m x.0) (kick_client m c) (m', effects) (kick_client-Moves m c) e)
Step-Near {m} {m'} k small h (asks {effects = effects} s req c e) =
    Moved-Near k m m' small h
      (Returns-at (λ x. Moved m x.0) (handle s req m c) (m', effects) (handle-Moves s req m c) e)
Step-Near {m} {m'} k small h (draws {effects = effects} {goes = goes} e c q) =
    elim (Returns-at (λ x. Passed m c x.0) (pass_on e m c) (m', effects, goes)
      (pass_on-Passed e m c) q) [
        | inl same ↦ inl (subst (IsBehind k) (sym same) h)
        | inr without ↦ Without-Near k m m' c small h without
      ]

Steps-IsBehind :
    {n : ℕ} {m m' : Room} (k : ℕ)
    → k + n < 2 ^ 31
    → IsBehind k m
    → Steps n m m'
    → (j : ℕ) × (j ≤ k + n) × IsBehind j m'
Steps-IsBehind k small h here = (k, omega arith, h)
Steps-IsBehind k small h (step_then {n = n} s rest) =
    elim (Step-Near k (omega (arith, small)) h s) [
      | inl same ↦
          let (j, le, b) = Steps-IsBehind k (omega (arith, small)) same rest in
          (j, omega (arith, le), b)
      | inr more ↦
          let (j, le, b) = Steps-IsBehind (suc k) (omega (arith, small)) more rest in
          (j, omega (arith, le), b)
    ]

-- However often clients are kicked, the count of an open room is never above the number of clients in
-- its map, and below it by at most the number of steps since the two were equal, if there were less
-- than 2 ^ 31 of them.
pub Steps-count :
    {n : ℕ} {m m' : Room}
    → n < 2 ^ 31
    → IsCounted m
    → Steps n m m'
    → (m'.current_clients_count ≤ℤ pos (length m'.clients))
      × (pos (length m'.clients) ≤ℤ m'.current_clients_count +ℤ pos n)
unfolding ◌+ℤ◌
Steps-count {n} {m} {m'} small h steps =
    let start : IsBehind 0 m = record {
      count = h.counted ∙ zero_behind (length m.clients);
      nodup = h.nodup;
      few = h.few;
    } in
    let (j, le, b) = Steps-IsBehind 0 (omega (arith, small)) start steps in
    rw b.count (near_count (length m'.clients) j n (omega (arith, le)))
  where
    zero_behind : (a : ℕ) → pos a ≡ sub_ℕ a 0
    zero_behind a = ground arith

    near_count : (a j n : ℕ) → j ≤ n → (sub_ℕ a j ≤ℤ pos a) × (pos a ≤ℤ sub_ℕ a j +ℤ pos n)
    near_count a j n le = ground arith

-- So kicks never keep anyone out: after any such steps, a login with the right password and a name of
-- 1 to 32 bytes, of a client that the room has accepted and that is no user yet, succeeds if there are
-- no more clients in the map than max load. The new id is not empty.
pub Steps-handle_join :
    {n : ℕ} {m m' : Room} (s : Surroundings) (req : JoinRoomRequest) (c : ℕ)
    → n < 2 ^ 31
    → IsCounted m
    → Steps n m m'
    → pos (length m'.clients) ≤ℤ m'.options.max_load
    → req.password ≡ m'.options.password
    → 0 < len req.name
    → len req.name ≤ 32
    → load c m'.clients ≢ none
    → has_user m' c ≡ false
    → 0 < len s.client_id
    → (m'' : Room) × (effects : List Effect) × (handle_join s req m' c ≡ done (m'', effects))
      × (has_user m'' c ≡ true)
Steps-handle_join {m' = m'} s req c small h steps room pwd some_name short there guest id =
    let below : m'.current_clients_count ≤ℤ m'.options.max_load =
      omega (arith, (Steps-count small h steps).0, room) in
    let (m'', effects, e, user, others) = handle_join-MayJoin s req m' c guest id in
    (m'', effects, e, user.1 (pwd, below, some_name, short, there))
