-- ===== src/Base/Slots.antt =====
-- Arrays of optional entries, such as the slot arrays of the lease pools.
use rusty_dhcp.Base.Lists.{length, get_elem?, set, replicate}
use rusty_dhcp.Base.Fallible.{ok, index}
use Prim.Native.Nat.{ℕ, zero, suc, ◌+◌, ◌≤◌, ◌<◌}
use mathlib.Core.Path.{◌≡◌, refl, ap}
use mathlib.Core.Option.{Option, none, some}
use mathlib.Core.List.{List, [], ◌∷◌}
use native.Mathlib.Omega.{arith}

module _ {ℓ} {A : Type ℓ} where
  -- 1 for an entry, 0 for none.
  abbrev pub weight : Option A → ℕ
  weight none = 0
  weight (some a) = 1

  abbrev pub count_some : List (Option A) → ℕ
  count_some [] = 0
  count_some (o ∷ os) = weight o + count_some os

  -- The entry at an index; out of range there is none.
  abbrev pub entry_at : List (Option A) → ℕ → Option A
  entry_at [] i = none
  entry_at (o ∷ os) zero = o
  entry_at (o ∷ os) (suc i) = entry_at os i

module _ {ℓ} {A : Type ℓ} where
  pub get_elem?-entry_at :
      (os : List (Option A)) (i : ℕ) → i < length os → get_elem? os i ≡ some (entry_at os i)
  get_elem?-entry_at [] i h = elim h [ ]
  get_elem?-entry_at (o ∷ os) zero h = refl
  get_elem?-entry_at (o ∷ os) (suc i) h = get_elem?-entry_at os i (omega arith)

  pub entry_at-lt : (os : List (Option A)) (i : ℕ) (a : A) → entry_at os i ≡ some a → i < length os
  entry_at-lt [] i a h = ground arith
  entry_at-lt (o ∷ os) zero a h = omega arith
  entry_at-lt (o ∷ os) (suc i) a h = omega (arith, entry_at-lt os i a h)

  pub count_some-set :
      (os : List (Option A)) (i : ℕ) (v : Option A)
      → i < length os
      → count_some (set os i v) + weight (entry_at os i) ≡ count_some os + weight v
  count_some-set [] i v h = elim h [ ]
  count_some-set (o ∷ os) zero v h = omega arith
  count_some-set (o ∷ os) (suc i) v h = omega (arith, count_some-set os i v (omega arith))

  pub entry_at-set_self :
      (os : List (Option A)) (i : ℕ) (v : Option A) → i < length os → entry_at (set os i v) i ≡ v
  entry_at-set_self [] i v h = elim h [ ]
  entry_at-set_self (o ∷ os) zero v h = refl
  entry_at-set_self (o ∷ os) (suc i) v h = entry_at-set_self os i v (omega arith)

  pub entry_at-set_ne :
      (os : List (Option A)) (i j : ℕ) (v : Option A)
      → ¬ (i ≡ j)
      → entry_at (set os i v) j ≡ entry_at os j
  entry_at-set_ne [] i j v h = refl
  entry_at-set_ne (o ∷ os) zero zero v h = absurd (h refl)
  entry_at-set_ne (o ∷ os) zero (suc j) v h = refl
  entry_at-set_ne (o ∷ os) (suc i) zero v h = refl
  entry_at-set_ne (o ∷ os) (suc i) (suc j) v h = entry_at-set_ne os i j v (λ e. h (ap suc e))

  pub weight-le-count_some : (os : List (Option A)) (i : ℕ) → weight (entry_at os i) ≤ count_some os
  weight-le-count_some [] i = omega arith
  weight-le-count_some (o ∷ os) zero = omega arith
  weight-le-count_some (o ∷ os) (suc i) = omega (arith, weight-le-count_some os i)

  pub entry_at-empty : (os : List (Option A)) (i : ℕ) → count_some os ≡ 0 → entry_at os i ≡ none
  entry_at-empty os i h = ground (arith, weight-le-count_some os i)

  pub index-entry_at {μ} :
      {E : Type μ} (os : List (Option A)) (i : ℕ)
      → i < length os
      → index {E = E} os i ≡ ok (entry_at os i)
  index-entry_at {E} os i h = rw (get_elem?-entry_at os i h, index)

pub count_some-replicate {ℓ} :
    (A : Type ℓ) (n : ℕ) → count_some (replicate {A = Option A} n none) ≡ 0
count_some-replicate A zero = refl
count_some-replicate A (suc n) = omega (arith, count_some-replicate A n)
