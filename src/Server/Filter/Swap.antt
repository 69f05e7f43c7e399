-- ===== src/Server/Filter/Swap.antt =====
-- src/server.rs, the option filter: the swaps of its two vectors.
use Prim.Native.String.{String}
use rusty_dhcp.Base.{
  ℕ, zero, suc, ◌+◌, ◌<◌, ◌≡◌, refl, sym, ap, ◌∙◌, List, [], ◌∷◌, ◌++◌, map, length, set, Outcome,
  ok, ok-injective, >>=-eq-ok, index, arith, length-set,
}
use rusty_dhcp.Server.Filter.{swap}

pub ok_ap {ℓ κ} :
    {A : Type ℓ} {B : Type κ} (f : A → B) {x y : A}
    → ◌≡◌ {A = Outcome String A} (ok x) (ok y)
    → ◌≡◌ {A = Outcome String B} (ok (f x)) (ok (f y))
ok_ap f h = ap (λ z. ok (f z)) (ok-injective {E = String} h)

zero_add : (i : ℕ) → 0 + i ≡ i
zero_add i = omega arith

suc_add : (n i : ℕ) → suc n + i ≡ suc (n + i)
suc_add n i = omega arith

-- A swap behind `front`.
module _ {ℓ} {A : Type ℓ} where
  pub index-append_add :
      (front xs : List A) (i : ℕ) → index {E = String} (front ++ xs) (length front + i) ≡ index xs i
  index-append_add [] xs i = ap (index xs) (zero_add i)
  index-append_add (f ∷ front) xs i =
      ap (index (f ∷ (front ++ xs))) (suc_add (length front) i) ∙ index-append_add front xs i

  pub set-append_add :
      (front xs : List A) (i : ℕ) (v : A)
      → set (front ++ xs) (length front + i) v ≡ front ++ set xs i v
  set-append_add [] xs i v = ap (λ k. set xs k v) (zero_add i)
  set-append_add (f ∷ front) xs i v =
      ap (λ k. set (f ∷ (front ++ xs)) k v) (suc_add (length front) i)
      ∙ ap (◌∷◌ f) (set-append_add front xs i v)

  pub swap-behind :
      (front xs ys : List A) (i j : ℕ)
      → swap i j xs ≡ ok ys
      → swap (length front + i) (length front + j) (front ++ xs) ≡ ok (front ++ ys)
  swap-behind front xs ys i j h =
      let (a, p, h') = >>=-eq-ok (index xs i) _ h in
      let (b, q, h'') = >>=-eq-ok (index xs j) _ h' in
      rw (index-append_add front xs i ∙ p, index-append_add front xs j ∙ q)
        (rw (set-append_add front xs i b, set-append_add front (set xs i b) j a)
          (ok_ap (front ++◌) h''))

-- A swap of images, in front of `tail`.
module _ {ℓ κ} {A : Type ℓ} {B : Type κ} (f : A → B) (tail : List B) where
  pub index-map :
      (xs : List A) (i : ℕ) (a : A)
      → index {E = String} xs i ≡ ok a
      → index {E = String} (map f xs ++ tail) i ≡ ok (f a)
  index-map [] i a h = cc
  index-map (x ∷ xs) zero a h = ok_ap f h
  index-map (x ∷ xs) (suc i) a h = index-map xs i a h

  set-map :
      (xs : List A) (i : ℕ) (v : A)
      → i < length xs
      → set (map f xs ++ tail) i (f v) ≡ map f (set xs i v) ++ tail
  set-map [] i v h = absurd (omega arith)
  set-map (x ∷ xs) zero v h = refl
  set-map (x ∷ xs) (suc i) v h = ap (◌∷◌ (f x)) (set-map xs i v (omega arith))

  pub index-lt : (xs : List A) (i : ℕ) (a : A) → index {E = String} xs i ≡ ok a → i < length xs
  index-lt [] i a h = cc
  index-lt (x ∷ xs) zero a h = omega arith
  index-lt (x ∷ xs) (suc i) a h = omega (arith, index-lt xs i a h)

  pub swap-map :
      (xs ys : List A) (i j : ℕ)
      → swap i j xs ≡ ok ys
      → swap i j (map f xs ++ tail) ≡ ok (map f ys ++ tail)
  swap-map xs ys i j h =
      let (a, p, h') = >>=-eq-ok (index xs i) _ h in
      let (b, q, h'') = >>=-eq-ok (index xs j) _ h' in
      rw (index-map xs i a p, index-map xs j b q)
        (rw
          (
            set-map xs i b (index-lt xs i a p),
            set-map (set xs i b) j a (omega (arith, length-set xs i b, index-lt xs j b q)),
          )
          (ok_ap (λ zs. map f zs ++ tail) h''))

pub swap-length {ℓ} :
    {A : Type ℓ} (xs ys : List A) (i j : ℕ) → swap i j xs ≡ ok ys → length ys ≡ length xs
swap-length xs ys i j h =
    let (a, p, h') = >>=-eq-ok (index xs i) _ h in
    let (b, q, h'') = >>=-eq-ok (index xs j) _ h' in
    ap length (sym (ok-injective {E = String} h''))
    ∙ length-set (set xs i b) j a
    ∙ length-set xs i b
