-- ===== src/Base/Buffer.antt =====
-- Byte buffers: `out[at..at + n].copy_from_slice(bytes)` on a `&mut [u8]`, and `fill`.
use rusty_dhcp.Base.Tests.{leb, if◌then◌else◌}
use rusty_dhcp.Base.Lists.{length, take, drop, length-append, length-take, length-drop}
use rusty_dhcp.Base.Fallible.{Outcome, ok, panic}
use Prim.Native.Nat.{ℕ, suc, ◌+◌, ◌≤◌}
use mathlib.Core.Path.{◌≡◌, ap, ◌∙◌}
use mathlib.Core.List.{List, [], ◌∷◌, ◌++◌}
use native.Mathlib.Omega.{arith}

-- The buffer with `bytes` written over it from `at` on.
abbrev pub overwrite {ℓ} : {A : Type ℓ} → ℕ → List A → List A → List A
overwrite at bytes out = take at out ++ (bytes ++ drop (at + length bytes) out)

-- A slice that does not fit the buffer panics.
abbrev pub copy_to {ℓ μ} : {E : Type μ} {A : Type ℓ} → ℕ → List A → List A → Outcome E (List A)
copy_to at bytes out =
    if leb (at + length bytes) (length out) then ok (overwrite at bytes out) else panic

module _ {ℓ} {A : Type ℓ} where
  pub length-overwrite :
      (at : ℕ) (bytes out : List A)
      → at + length bytes ≤ length out
      → length (overwrite at bytes out) ≡ length out
  length-overwrite at bytes out h = omega (
    arith,
    length-append (take at out) (bytes ++ drop (at + length bytes) out),
    length-append bytes (drop (at + length bytes) out),
    length-take at out,
    length-drop (at + length bytes) out,
  )

  -- Behind a prefix that ends at `at`, the write replaces what stands there.
  pub overwrite-append :
      (front bytes out : List A)
      → overwrite (length front) bytes (front ++ out) ≡ front ++ (bytes ++ drop (length bytes) out)
  overwrite-append [] bytes out = ap (λ n. bytes ++ drop n out) (omega arith)
  overwrite-append (x ∷ front) bytes out =
      let e : suc (length front) + length bytes ≡ suc (length front + length bytes) = omega arith in
      rw e (ap (◌∷◌ x) (overwrite-append front bytes out))

  pub copy_to-append {μ} :
      {E : Type μ} (front bytes out : List A)
      → length bytes ≤ length out
      → copy_to {E = E} (length front) bytes (front ++ out)
        ≡ ok (front ++ (bytes ++ drop (length bytes) out))
  copy_to-append {E} front bytes out h = fits ∙ ap (λ x. ok x) (overwrite-append front bytes out)
    where
      fits :
          copy_to {E = E} (length front) bytes (front ++ out)
          ≡ ok (overwrite (length front) bytes (front ++ out))
      fits = ground (arith, length-append front out)
