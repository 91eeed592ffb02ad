-- ===== src/Radio/Others.antt =====
-- What the other clients of a radio do, and the changes of its map.
use paintty_server_go.Prelude.{
  ℕ, ◌<◌, ◌≡◌, ◌≢◌, refl, true, false, Bool, Bytes, Option, some, Error, arith, length, get_elem?,
  Bool-cases, Option-cases, inl, inr,
}
use paintty_server_go.Prelude.Int.{ℤ}
use paintty_server_go.Prelude.Maps.{pointer_Eq, load}
use paintty_server_go.Radio.{
  Delivery, Radio, Outcome, done, blocks, panics, ◌>>=◌, deliver, take_chunk, tick, give_up,
  client_closed, add_client, remove_client, remove_all_clients, single_send,
}
use paintty_server_go.Radio.Tasks.{ram}
use paintty_server_go.Radio.Owed.{owed, IsFine}
use paintty_server_go.Radio.Returns.{Returns, Returns-at, Returns-of}
use paintty_server_go.Radio.Same.{
  Same, Same-refl, Same-owed, take_chunk-Same, deliver-Same, give_up-Same, tick-Same,
  client_closed-Same, get_elem?-append_left, with_lock-Same,
}

-- What other goroutines do on the radio.
pub data Other : Type 0 where
  -- the goroutine of place i on its way hands its chunk over, or gives up after ten seconds
  hands_over : ℕ → Other
  gives_up : ℕ → Other
  -- a round of the timer of the client at an address, and the close of its connection
  sends : (Bytes → Option Error) → ℕ → Other
  closes : ℕ → Other
  -- AddClient, RemoveClient and RemoveAllClients
  joins : ℕ → ℤ → ℤ → Other
  leaves : ℕ → Other
  all_leave : Other
  -- singleSend, and whether its client takes the bytes
  single : Bool → Bytes → ℕ → Other

unfoldable pub act : Other → Radio → Outcome Radio
act (hands_over i) r = deliver r i
act (gives_up i) r = give_up r i
act (sends write_raw b) r = tick write_raw r b >>= λ x. done x.0
act (closes b) r = client_closed r b
act (joins c start size) r = add_client r c start size
act (leaves c) r = remove_client r c
act all_leave r = remove_all_clients r
act (single taken d c) r = single_send taken r d c

-- It is not about the client at address a, whose goroutine was started before.
abbrev pub IsOther : ℕ → Radio → Other → Type 0
IsOther a r (hands_over i) = (d : Delivery) → get_elem? r.in_flight i ≡ some d → d.to ≢ a
IsOther a r (gives_up i) = (d : Delivery) → get_elem? r.in_flight i ≡ some d → d.to ≢ a
IsOther a r (sends write_raw b) = b ≢ a
IsOther a r (closes b) = b ≢ a
IsOther a r (joins c start size) = a < length r.heap
IsOther a r (leaves c) = Unit
IsOther a r all_leave = Unit
IsOther a r (single taken d c) = (taken ≡ true) × ((b : ℕ) → load c r.clients ≡ some b → b ≢ a)

single_send-Same :
    (a : ℕ) (r : Radio) (d : Bytes) (c : ℕ)
    → IsOther a r (single true d c)
    → Returns (Same a r) (single_send true r d c)
unfolding single_send
single_send-Same a r d c other = elim (Bool-cases r.locked) [
  | inl held ↦ Returns-of (Same a r) (single_send true r d c) blocks (ground (arith, held)) tt
  | inr free ↦ elim (Option-cases (load c r.clients)) [
    | inl gone ↦
        Returns-of (Same a r) (single_send true r d c) (done r) (ground (arith, free, gone))
          (Same-refl a r)
    | inr (b, found) ↦
        Returns-of (Same a r) (single_send true r d c) (take_chunk r b (ram d))
          (ground (arith, free, found)) (take_chunk-Same a b (ram d) r (other.1 b found))
  ]
]

tick_Same :
    (a b : ℕ) (r : Radio) (o : Outcome (Radio × Bytes))
    → Returns (λ x. Same a r x.0) o
    → Returns (Same a r) (o >>= λ x. done x.0)
tick_Same a b r (done x) h = h
tick_Same a b r blocks h = tt
tick_Same a b r panics h = tt

hands_over-Same :
    (a i : ℕ) (r : Radio) → IsOther a r (hands_over i) → Returns (Same a r) (deliver r i)
unfolding deliver
hands_over-Same a i r other = elim (Option-cases (get_elem? r.in_flight i)) [
  | inl none_there ↦
      Returns-of (Same a r) (deliver r i) (done r) (ground (arith, none_there)) (Same-refl a r)
  | inr (d, e) ↦ deliver-Same a i r d e (other d e)
]

gives_up-Same : (a i : ℕ) (r : Radio) → IsOther a r (gives_up i) → Returns (Same a r) (give_up r i)
unfolding give_up
gives_up-Same a i r other = elim (Option-cases (get_elem? r.in_flight i)) [
  | inl none_there ↦
      Returns-of (Same a r) (give_up r i) (done r) (ground (arith, none_there)) (Same-refl a r)
  | inr (d, e) ↦ give_up-Same a i r d e (other d e)
]

pub act-Same : (a : ℕ) (r : Radio) (o : Other) → IsOther a r o → Returns (Same a r) (act o r)
unfolding act add_client remove_client remove_all_clients
act-Same a r (hands_over i) other = hands_over-Same a i r other
act-Same a r (gives_up i) other = gives_up-Same a i r other
act-Same a r (sends write_raw b) other =
    tick_Same a b r (tick write_raw r b) (tick-Same a b r other write_raw)
act-Same a r (closes b) other = client_closed-Same a b r other
act-Same a r (joins c start size) other =
    with_lock-Same a r _ (get_elem?-append_left r.heap _ a other, refl, refl, refl)
act-Same a r (leaves c) other = with_lock-Same a r _ (Same-refl a r)
act-Same a r all_leave other = with_lock-Same a r _ (Same-refl a r)
act-Same a r (single true d c) other = single_send-Same a r d c other
act-Same a r (single false d c) other = ground (arith, other.0)

-- What other goroutines do on the radio, if it returns, leaves a client what it is owed, and the radio
-- fine for it: their deliveries, rounds and closes, clients that join after it, and any that leave
-- the map.
pub act-owed :
    (a : ℕ) (r r' : Radio) (o : Other)
    → IsFine r a
    → IsOther a r o
    → act o r ≡ done r'
    → (owed r' a ≡ owed r a) × IsFine r' a
act-owed a r r' o fine other e =
    Same-owed a r r' (Returns-at (Same a r) (act o r) r' (act-Same a r o other) e) fine
