-- ===== src/Room/Life.antt =====
-- The goroutines of a room as steps, and the count of its clients while nobody is kicked.
use mathlib.Core.Path.{subst}
use paintty_server_go.Prelude.{
  inl, inr, ℕ, suc, ◌^◌, ◌<◌, ◌≡◌, ◌≢◌, sym, ap, ◌∙◌, Bool, false, List, none, arith, length,
}
use paintty_server_go.Prelude.Int.{ℤ, pos, ◌+ℤ◌, ◌-ℤ◌, int32}
use paintty_server_go.Prelude.Maps.{pointer_Eq, load, store, delete}
use paintty_server_go.Radio.{done}
use paintty_server_go.Radio.Returns.{Returns-at}
use paintty_server_go.Room.{Room, RoomUser, Effect, accept, connection_closed}
use paintty_server_go.Room.Messages.{Request}
use paintty_server_go.Room.Handlers.{Surroundings, handle}
use paintty_server_go.Room.Serving.{pass_on}
use paintty_server_go.Room.Clients.{
  Clients, NodupClients, length-store_new, store-NodupClients, delete-NodupClients, length-delete,
}
use paintty_server_go.Room.Changes.{
  is_kick, SameCount, Without, Passed, handle-Keeps, connection_closed-Without, pass_on-Passed,
}

-- The count is the number of clients in the map, and below 2 ^ 31.
pub record IsCounted (m : Room) : Type 0 where
  pub counted : m.current_clients_count ≡ pos (length m.clients)
  pub nodup : NodupClients m.clients
  pub few : length m.clients < 2 ^ 31

-- The steps of a room in which nobody is kicked: a new connection, the end of one that is in the
-- map, a request of any client, and a package for the radio of one in the map, which is removed if it
-- has not logged in.
pub data Step : Room → Room → Type 0 where
  accepts :
      {m : Room} (c : ℕ)
      → load c m.clients ≡ none
      → suc (length m.clients) < 2 ^ 31
      → Step m (accept m c)
  ends :
      {m m' : Room} (c : ℕ) → load c m.clients ≢ none → connection_closed m c ≡ done m' → Step m m'
  asks :
      {m m' : Room} {effects : List Effect} (s : Surroundings) (req : Request) (c : ℕ)
      → is_kick req ≡ false
      → handle s req m c ≡ done (m', effects)
      → Step m m'
  draws :
      {m m' : Room} {effects : List Effect} {goes : Bool} (e : Effect) (c : ℕ)
      → load c m.clients ≢ none
      → pass_on e m c ≡ done (m', effects, goes)
      → Step m m'

pub data Steps : Room → Room → Type 0 where
  here : {m : Room} → Steps m m
  step_then : {m m' m'' : Room} → Step m m' → Steps m' m'' → Steps m m''

one_more : (n : ℕ) → suc n < 2 ^ 31 → int32 (pos n +ℤ pos 1) ≡ pos (suc n)
unfolding int32 ◌+ℤ◌
one_more n h = ground arith

pub one_less : (n : ℕ) → suc n < 2 ^ 31 → int32 (pos (suc n) -ℤ pos 1) ≡ pos n
unfolding int32 ◌-ℤ◌
one_less n h = ground arith

Without-IsCounted :
    (m m' : Room) (c : ℕ) → IsCounted m → load c m.clients ≢ none → Without m c m' → IsCounted m'
Without-IsCounted m m' c h there (cs, count) =
    let shorter : suc (length (delete c m.clients)) ≡ length m.clients =
      length-delete c m.clients h.nodup there in
    let now : length m'.clients ≡ length (delete c m.clients) = ap (λ (x : Clients). length x) cs in
    record {
      counted =
          count
          ∙ ap (λ (x : ℤ). int32 (x -ℤ pos 1)) (h.counted ∙ ap pos (sym shorter))
          ∙ one_less (length (delete c m.clients)) (omega (arith, shorter, h.few))
          ∙ ap pos (sym now);
      nodup = subst NodupClients (sym cs) (delete-NodupClients c m.clients h.nodup);
      few = omega (arith, now, shorter, h.few);
    }

Step-IsCounted : {m m' : Room} → IsCounted m → Step m m' → IsCounted m'
unfolding accept
Step-IsCounted {m} h (accepts c new room) =
    let u : RoomUser = record { client_id = ""; nick_name = "" } in
    let longer : length (store c u m.clients) ≡ suc (length m.clients) =
      length-store_new c u m.clients new in
    record {
      counted =
          ap (λ (x : ℤ). int32 (x +ℤ pos 1)) h.counted
          ∙ one_more (length m.clients) room
          ∙ ap pos (sym longer);
      nodup = store-NodupClients c u m.clients h.nodup;
      few = rw longer room;
    }
Step-IsCounted {m} {m'} h (ends c there e) =
    Without-IsCounted m m' c h there
      (Returns-at (Without m c) (connection_closed m c) m' (connection_closed-Without m c) e)
Step-IsCounted {m} {m'} h (draws {effects = effects} {goes = goes} e c there q) =
    elim (Returns-at (λ x. Passed m c x.0) (pass_on e m c) (m', effects, goes)
      (pass_on-Passed e m c) q) [
        | inl same ↦ subst IsCounted (sym same) h
        | inr without ↦ Without-IsCounted m m' c h there without
      ]
Step-IsCounted {m} {m'} h (asks {effects = effects} s req c no_kick e) =
    let (count, size, nodup) =
      Returns-at (λ x. SameCount m x.0) (handle s req m c) (m', effects)
        (handle-Keeps s req m c no_kick) e in
    record {
      counted = count ∙ h.counted ∙ ap pos (sym size);
      nodup = nodup h.nodup;
      few = omega (arith, size, h.few);
    }

-- Without kicks, the count stays the number of clients in the map, and none is there twice: new
-- connections, ends of connections, requests of all other kinds and packages for the radio keep that,
-- in any order.
pub Steps-IsCounted : {m m' : Room} → IsCounted m → Steps m m' → IsCounted m'
Steps-IsCounted h here = h
Steps-IsCounted h (step_then s rest) = Steps-IsCounted (Step-IsCounted h s) rest
