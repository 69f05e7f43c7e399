-- ===== src/Base/HashMap.antt =====
-- `HashMap` of the standard library: its entries, in the order in which it iterates.
-- That order is not specified, so no statement below or elsewhere rests on it.
use rusty_dhcp.Base.Tests.{Eq, if◌then◌else◌, Bool-cases, is_none, if_true, if_false}
use mathlib.Core.Path.{◌≡◌, refl, sym, ap, ◌∙◌}
use mathlib.Core.Logic.{inl, inr}
use mathlib.Core.Bool.{true}
use mathlib.Core.Option.{Option, none, some, some-injective}
use mathlib.Core.List.{List, [], ◌∷◌}
use native.Mathlib.Omega.{arith}

abbrev pub HashMap {ℓ κ} : Type ℓ → Type κ → Type (ℓ ⊔ κ)
HashMap K V = List (K × V)

module _ {ℓ κ} {K : Type ℓ} {V : Type κ} ⦃e : Eq K⦄ where
  unfoldable pub get : K → HashMap K V → Option V
  get k [] = none
  get k ((j, v) ∷ m) = if e.beq j k then some v else get k m

  unfoldable pub insert : K → V → HashMap K V → HashMap K V
  insert k v [] = (k, v) ∷ []
  insert k v ((j, w) ∷ m) = if e.beq j k then (k, v) ∷ m else (j, w) ∷ insert k v m

  unfoldable pub remove : K → HashMap K V → HashMap K V
  remove k [] = []
  remove k ((j, v) ∷ m) = if e.beq j k then remove k m else (j, v) ∷ remove k m

  pub get-insert :
      (k j : K) (v : V) (m : HashMap K V)
      → get j (insert k v m) ≡ (if e.beq k j then some v else get j m)
  unfolding get insert
  get-insert k j v [] = refl
  get-insert k j v ((i, w) ∷ m) =
      ground (arith, e.beq_iff k j, e.beq_iff i k, e.beq_iff i j, get-insert k j v m)

  pub get-remove :
      (k j : K) (m : HashMap K V) → get j (remove k m) ≡ (if e.beq k j then none else get j m)
  unfolding get remove
  get-remove k j [] = ground arith
  get-remove k j ((i, w) ∷ m) =
      ground (arith, e.beq_iff k j, e.beq_iff i k, e.beq_iff i j, get-remove k j m)

  -- What is already there is inserted to no effect.
  pub insert_self : (k : K) (v : V) (m : HashMap K V) → get k m ≡ some v → insert k v m ≡ m
  unfolding get insert
  insert_self k v [] h = cc
  insert_self k v ((j, w) ∷ m) h = elim (Bool-cases (e.beq j k)) [
    | inl t ↦
        let same : j ≡ k = (e.beq_iff j k).0 t in
        let hit : some w ≡ some v = sym (if_true _ _ _ t) ∙ h in
        rw t (λ i. (sym same i, sym (some-injective w v hit) i) ∷ m)
    | inr t ↦ rw t (ap (◌∷◌ (j, w)) (insert_self k v m (sym (if_false _ _ _ t) ∙ h)))
  ]

  -- Every key of the map is in `P`.
  abbrev pub Keys {μ} : (K → Type μ) → HashMap K V → Type μ
  Keys P [] = Unit {μ}
  Keys P ((k, v) ∷ m) = P k × Keys P m

  pub insert-Keys {μ} :
      (P : K → Type μ) (k : K) (v : V) (m : HashMap K V) → P k → Keys P m → Keys P (insert k v m)
  unfolding insert
  insert-Keys P k v [] p h = (p, tt)
  insert-Keys P k v ((j, w) ∷ m) p h = elim (Bool-cases (e.beq j k)) [
    | inl t ↦ rw t (p, h.1)
    | inr t ↦ rw t (h.0, insert-Keys P k v m p h.1)
  ]

  pub remove-Keys {μ} : (P : K → Type μ) (k : K) (m : HashMap K V) → Keys P m → Keys P (remove k m)
  unfolding remove
  remove-Keys P k [] h = h
  remove-Keys P k ((j, w) ∷ m) h = elim (Bool-cases (e.beq j k)) [
    | inl t ↦ rw t (remove-Keys P k m h.1)
    | inr t ↦ rw t (h.0, remove-Keys P k m h.1)
  ]

  -- No key stands twice: what a `HashMap` keeps by itself.
  abbrev pub Distinct : HashMap K V → Type 0
  Distinct [] = Unit {0}
  Distinct ((k, v) ∷ m) = (is_none (get k m) ≡ true) × Distinct m

  pub insert-Distinct : (k : K) (v : V) (m : HashMap K V) → Distinct m → Distinct (insert k v m)
  unfolding insert get
  insert-Distinct k v [] h = (refl, tt)
  insert-Distinct k v ((j, w) ∷ m) h =
      ground (arith, e.beq_iff j k, e.beq_iff k j, get-insert k j v m, insert-Distinct k v m h.1)

  pub remove-Distinct : (k : K) (m : HashMap K V) → Distinct m → Distinct (remove k m)
  unfolding remove
  remove-Distinct k [] h = h
  remove-Distinct k ((j, w) ∷ m) h = ground (arith, get-remove k j m, remove-Distinct k m h.1)
