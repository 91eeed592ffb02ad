-- ===== src/Radio/Returns.antt =====
-- What holds of the state after a call on a radio or a room, if it returns.
use mathlib.Core.Path.{subst}
use paintty_server_go.Prelude.{◌≡◌, refl, sym, ap, true, false, Bool, if◌then◌else◌}
use paintty_server_go.Prelude.Maps.{pointer_Eq}
use paintty_server_go.Radio.{Outcome, done, blocks, panics, ◌>>=◌}

-- A predicate of the state in which a call returns.
abbrev pub Returns {ℓ} : {A : Type ℓ} → (A → Type 0) → Outcome A → Type 0
Returns P (done a) = P a
Returns P blocks = Unit
Returns P panics = Unit

pub Returns-at {ℓ} :
    {A : Type ℓ} (P : A → Type 0) (o : Outcome A) (a : A) → Returns P o → o ≡ done a → P a
Returns-at P o a h e = subst (Returns P) e h

pub Returns-map {ℓ} :
    {A : Type ℓ} (P Q : A → Type 0) (o : Outcome A)
    → ((a : A) → P a → Q a)
    → Returns P o
    → Returns Q o
Returns-map P Q (done a) f h = f a h
Returns-map P Q blocks f h = tt
Returns-map P Q panics f h = tt

pub Returns-of {ℓ} :
    {A : Type ℓ} (P : A → Type 0) (o o' : Outcome A) → o ≡ o' → Returns P o' → Returns P o
Returns-of P o o' e h = subst (Returns P) (sym e) h

pub bind-Returns {ℓ κ} :
    {A : Type ℓ} {B : Type κ} (P : A → Type 0) (Q : B → Type 0) (o : Outcome A) (f : A → Outcome B)
    → Returns P o
    → ((a : A) → P a → Returns Q (f a))
    → Returns Q (o >>= f)
bind-Returns P Q (done a) f h k = k a h
bind-Returns P Q blocks f h k = tt
bind-Returns P Q panics f h k = tt

pub Returns-if {ℓ} :
    {A : Type ℓ} (P : A → Type 0) (b : Bool) (x y : Outcome A)
    → Returns P x
    → Returns P y
    → Returns P (if b then x else y)
Returns-if P true x y h k = h
Returns-if P false x y h k = k

-- The same, with what the test says.
pub Returns-test {ℓ} :
    {A : Type ℓ} (P : A → Type 0) (b : Bool) (x y : Outcome A)
    → ((b ≡ true) → Returns P x)
    → ((b ≡ false) → Returns P y)
    → Returns P (if b then x else y)
Returns-test P true x y h k = h refl
Returns-test P false x y h k = k refl

pub any-Returns {ℓ} : {A : Type ℓ} (o : Outcome A) → Returns (λ a. Unit) o
any-Returns (done a) = tt
any-Returns blocks = tt
any-Returns panics = tt

abbrev result {ℓ} : {A : Type ℓ} → A → Outcome A → A
result a (done b) = b
result a blocks = a
result a panics = a

pub done-injective {ℓ} : {A : Type ℓ} (x y : A) → done x ≡ done y → x ≡ y
done-injective x y e = ap (result x) e
