-- ===== src/Room/Clients.antt =====
-- The map of the clients of a room: its length, and whether a client is in it twice.
use paintty_server_go.Prelude.{
  ℕ, suc, ◌≡◌, ◌≢◌, refl, ap, List, [], ◌∷◌, none, arith, ◌==◌, length, Bool-cases, inl, inr,
}
use paintty_server_go.Prelude.Maps.{pointer_Eq, load, store, delete, load-store, load-delete}
use paintty_server_go.Room.{RoomUser}

abbrev pub Clients : Type 0
Clients = List (ℕ × RoomUser)

-- No client stands in the map twice.
abbrev pub NodupClients : Clients → Type 0
NodupClients [] = Unit
NodupClients ((c, u) ∷ cs) = (load c cs ≡ none) × NodupClients cs

pub length-store_new :
    (c : ℕ) (u : RoomUser) (cs : Clients)
    → load c cs ≡ none
    → length (store c u cs) ≡ suc (length cs)
unfolding load store
length-store_new c u [] h = refl
length-store_new c u ((d, w) ∷ cs) h = ground (arith, h, length-store_new c u cs)

pub length-store_old :
    (c : ℕ) (u : RoomUser) (cs : Clients) → load c cs ≢ none → length (store c u cs) ≡ length cs
unfolding load store
length-store_old c u [] h = absurd (h refl)
length-store_old c u ((d, w) ∷ cs) h = ground (arith, h, length-store_old c u cs)

pub store-NodupClients :
    (c : ℕ) (u : RoomUser) (cs : Clients) → NodupClients cs → NodupClients (store c u cs)
unfolding store
store-NodupClients c u [] h = (unfold load in refl, tt)
store-NodupClients c u ((d, w) ∷ cs) h =
    ground (arith, h.0, h.1, store-NodupClients c u cs h.1, load-store c d u cs)

pub delete-absent : (c : ℕ) (cs : Clients) → load c cs ≡ none → delete c cs ≡ cs
unfolding load delete
delete-absent c [] h = refl
delete-absent c ((d, w) ∷ cs) h = ground (arith, h, delete-absent c cs)

pub length-delete :
    (c : ℕ) (cs : Clients)
    → NodupClients cs
    → load c cs ≢ none
    → suc (length (delete c cs)) ≡ length cs
unfolding load delete
length-delete c [] h k = absurd (k refl)
length-delete c ((d, w) ∷ cs) h k = elim (Bool-cases (d == c)) [
  | inl same ↦
      let e : d ≡ c = ground arith in
      let gone : load c cs ≡ none = rw (← e) h.0 in
      rw same (ap (λ (x : Clients). suc (length x)) (delete-absent c cs gone))
  | inr other ↦
      let there : load c cs ≢ none = (λ q. k (ground (arith, other, q))) in
      rw other (ap suc (length-delete c cs h.1 there))
]

pub delete-NodupClients : (c : ℕ) (cs : Clients) → NodupClients cs → NodupClients (delete c cs)
unfolding delete
delete-NodupClients c [] h = tt
delete-NodupClients c ((d, w) ∷ cs) h =
    ground (arith, h.0, h.1, delete-NodupClients c cs h.1, load-delete c d cs)
