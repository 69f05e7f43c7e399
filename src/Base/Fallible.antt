-- ===== src/Base/Fallible.antt =====
-- The result of code that may return an error or panic.
use Prim.Native.Nat.{ℕ}
use mathlib.Core.Path.{◌≡◌, refl, ap}
use mathlib.Core.Logic.{◌⊎◌, inl, inr, ◌≢◌}
use mathlib.Core.List.{List}
use mathlib.Core.Bool.{Bool, true, false}
use mathlib.Core.Option.{Option, none, some}
use rusty_dhcp.Base.Lists.{get_elem?}

-- `Result<A, E>`, with the panic of a failed assertion, index or slice.
pub data Outcome {ℓ κ} (E : Type κ) (A : Type ℓ) : Type (ℓ ⊔ κ) where
  ok : A → Outcome E A
  err : E → Outcome E A
  panic : Outcome E A

infixl 5 ◌>>=◌ ◌>>◌
abbrev pub ◌>>=◌ {ℓ κ μ} :
    {E : Type μ} {A : Type ℓ} {B : Type κ} → Outcome E A → (A → Outcome E B) → Outcome E B
ok a >>= f = f a
err e >>= f = err e
panic >>= f = panic

abbrev pub ◌>>◌ {ℓ μ} : {E : Type μ} {B : Type ℓ} → Outcome E (Unit {0}) → Outcome E B → Outcome E B
m >> k = m >>= λ _. k

-- `if !test { return Err(e) }`.
abbrev pub require {μ} : {E : Type μ} → Bool → E → Outcome E (Unit {0})
require true e = ok tt
require false e = err e

-- `.ok_or(e)?`.
abbrev pub ok_or {ℓ μ} : {E : Type μ} {A : Type ℓ} → Option A → E → Outcome E A
ok_or (some a) e = ok a
ok_or none e = err e

-- `xs[i]`, which panics out of range.
abbrev pub index {ℓ μ} : {E : Type μ} {A : Type ℓ} → List A → ℕ → Outcome E A
index {E} {A} xs i = elim (get_elem? xs i) [ some a ↦ ok a | none ↦ panic ]

pub ok-injective {ℓ μ} :
    {E : Type μ} {A : Type ℓ} {x y : A} → ◌≡◌ {A = Outcome E A} (ok x) (ok y) → x ≡ y
ok-injective {x} h = ap (λ r. elim r [ ok z ↦ z | _ ↦ x ]) h

-- A chain that returns has steps that return.
pub >>=-eq-ok {ℓ κ μ} :
    {E : Type μ} {A : Type ℓ} {B : Type κ} {b : B} (r : Outcome E A) (k : A → Outcome E B)
    → (r >>= k) ≡ ok b
    → (a : A) × (r ≡ ok a) × (k a ≡ ok b)
>>=-eq-ok (ok a) k h = (a, refl, h)
>>=-eq-ok (err why) k h = cc
>>=-eq-ok panic k h = cc

pub Outcome-cases {ℓ κ} :
    {E : Type κ} {A : Type ℓ} (r : Outcome E A)
    → ((a : A) × (r ≡ ok a)) ⊎ ((e : E) × (r ≡ err e)) ⊎ (r ≡ panic)
Outcome-cases (ok a) = inl (a, refl)
Outcome-cases (err e) = inr (inl (e, refl))
Outcome-cases panic = inr (inr refl)

-- A chain does not panic if none of its steps does.
pub >>=-ne-panic {ℓ κ μ} :
    {E : Type μ} {A : Type ℓ} {B : Type κ} (r : Outcome E A) (k : A → Outcome E B)
    → r ≢ panic
    → ((a : A) → r ≡ ok a → k a ≢ panic)
    → (r >>= k) ≢ panic
>>=-ne-panic (ok a) k h g = g a refl
>>=-ne-panic (err why) k h g = λ e. cc
>>=-ne-panic panic k h g = λ e. h refl

-- Whether the code has panicked, for results that can be computed.
abbrev pub panics {ℓ κ} : {E : Type κ} {A : Type ℓ} → Outcome E A → Bool
panics panic = true
panics _ = false

pub panics-ne_panic {ℓ κ} :
    {E : Type κ} {A : Type ℓ} (r : Outcome E A) → panics r ≡ false → r ≢ panic
panics-ne_panic (ok a) h = λ e. cc
panics-ne_panic (err why) h = λ e. cc
panics-ne_panic panic h = cc
