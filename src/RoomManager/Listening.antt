-- ===== src/RoomManager/Listening.antt =====
-- The loop of the hall's init around ListenTCP.
use paintty_server_go.Prelude.{
  ℕ, zero, suc, ◌+◌, ◌≤◌, ◌<◌, ◌≡◌, ◌⊎◌, inl, inr, refl, Bool, true, false, arith, leb, ◌==◌,
  Bool-cases,
}
use paintty_server_go.RoomManager.Serving.{Listening, bound, refused_port, listen_loop, listen}

abbrev FirstFrom : ℕ → (ℕ → Bool) → Listening → Type 0
FirstFrom i ok l =
    ((k : ℕ) × (i ≤ k)
      × (k < 20)
      × (ok k ≡ true)
      × ((j : ℕ) → i ≤ j → j < k → ok j ≡ false)
      × (l ≡ bound k))
    ⊎ (((j : ℕ) → i ≤ j → j < 20 → ok j ≡ false) × (l ≡ refused_port))

from_first :
    (i j : ℕ) (ok : ℕ → Bool) → ok i ≡ false → i ≤ j → (i + 1 ≤ j → ok j ≡ false) → ok j ≡ false
from_first i j ok first h later = elim (Bool-cases (j == i)) [
  | inl same ↦ (let e : j ≡ i = ground arith in rw e first)
  | inr other ↦ later (ground arith)
]

listen_loop-FirstFrom :
    (fuel i : ℕ) (ok : ℕ → Bool) → fuel + i ≡ 20 → 0 < fuel → FirstFrom i ok (listen_loop fuel i ok)
unfolding listen_loop
listen_loop-FirstFrom zero i ok sum h = absurd (omega arith)
listen_loop-FirstFrom (suc fuel) i ok sum h = elim (Bool-cases (ok i)) [
  | inl yes_i ↦
      inl (i, omega arith, omega arith, yes_i, (λ j a b. absurd (omega arith)), rw yes_i refl)
  | inr no_i ↦ elim (Bool-cases (leb 19 i)) [
    | inl last ↦ inr (
      (λ j a b. from_first i j ok no_i a (λ x. absurd (ground (arith, x, last, b)))),
      rw (no_i, last) refl,
    )
    | inr more ↦ elim (listen_loop-FirstFrom fuel (i + 1) ok (omega arith) (ground arith)) [
      | inl (k, a, b, c, d, e) ↦ inl (
        k,
        omega arith,
        b,
        c,
        (λ j x y. from_first i j ok no_i x (λ z. d j z y)),
        rw (no_i, more) e,
      )
      | inr (d, e) ↦ inr ((λ j x y. from_first i j ok no_i x (λ z. d j z y)), rw (no_i, more) e)
    ]
  ]
]

-- init listens at the first of its attempts that succeeds, if that is one of the first twenty, and
-- gives up after twenty that fail; its loop always ends.
pub listen-first :
    (ok : ℕ → Bool)
    → ((k : ℕ) × (k < 20)
        × (ok k ≡ true)
        × ((j : ℕ) → j < k → ok j ≡ false)
        × (listen ok ≡ bound k))
      ⊎ (((j : ℕ) → j < 20 → ok j ≡ false) × (listen ok ≡ refused_port))
listen-first ok = elim (listen_loop-FirstFrom 20 0 ok refl (omega arith)) [
  | inl (k, a, b, c, d, e) ↦ inl (k, b, c, (λ j x. d j (omega arith) x), e)
  | inr (d, e) ↦ inr ((λ j x. d j (omega arith) x), e)
]
