-- ===== src/Prelude/Maps.antt =====
-- Go's maps and sync.Map as association lists; their order stands for the order in which Range
-- meets the entries. A key is compared by an instance.
use Prim.Native.Nat.{ℕ}
use Prim.Native.String.{String}
use mathlib.Core.Path.{◌≡◌, refl}
use mathlib.Core.Logic.{◌↔◌}
use mathlib.Core.Bool.{Bool, true}
use mathlib.Core.Option.{Option, none, some}
use mathlib.Core.List.{List, [], ◌∷◌}
use native.Mathlib.Omega.{arith}
use text.Mathlib.Text.{◌==◌ as str_eq}
use text.Mathlib.TextEquality.{eq_iff}
use paintty_server_go.Prelude.Tests.{◌==◌ as nat_eq, if◌then◌else◌}

pub record Eq {ℓ} (A : Type ℓ) : Type ℓ where
  pub beq : A → A → Bool
  pub beq_iff : (a b : A) → (beq a b ≡ true) ↔ (a ≡ b)

pub nat_eq_iff : (a b : ℕ) → (nat_eq a b ≡ true) ↔ (a ≡ b)
nat_eq_iff a b = ground arith

-- Pointers are numbers.
instance abbrev pub pointer_Eq : Eq ℕ
pointer_Eq = record { beq = nat_eq; beq_iff = nat_eq_iff }

instance abbrev pub string_Eq : Eq String
string_Eq = record { beq = str_eq; beq_iff = eq_iff }

module _ {ℓ κ} {K : Type ℓ} {V : Type κ} ⦃e : Eq K⦄ where
  unfoldable pub load : K → List (K × V) → Option V
  load k [] = none
  load k ((j, v) ∷ m) = if e.beq j k then some v else load k m

  unfoldable pub store : K → V → List (K × V) → List (K × V)
  store k v [] = (k, v) ∷ []
  store k v ((j, w) ∷ m) = if e.beq j k then (k, v) ∷ m else (j, w) ∷ store k v m

  -- Every entry of the key goes; there is at most one.
  unfoldable pub delete : K → List (K × V) → List (K × V)
  delete k [] = []
  delete k ((j, w) ∷ m) = if e.beq j k then delete k m else (j, w) ∷ delete k m

  pub load-store :
      (k j : K) (v : V) (m : List (K × V))
      → load j (store k v m) ≡ (if e.beq k j then some v else load j m)
  unfolding load store
  load-store k j v [] = refl
  load-store k j v ((i, w) ∷ m) =
      ground (arith, e.beq_iff k j, e.beq_iff i k, e.beq_iff i j, load-store k j v m)

  pub load-delete :
      (k j : K) (m : List (K × V)) → load j (delete k m) ≡ (if e.beq k j then none else load j m)
  unfolding load delete
  load-delete k j [] = ground arith
  load-delete k j ((i, w) ∷ m) =
      ground (arith, e.beq_iff k j, e.beq_iff i k, e.beq_iff i j, load-delete k j m)
