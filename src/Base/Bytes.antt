-- ===== src/Base/Bytes.antt =====
-- `to_be_bytes`, `from_be_bytes`, `octets` and `str::from_utf8` of the standard library.
use rusty_dhcp.Base.Lists.{length, All}
use Prim.Native.Nat.{ℕ, zero, suc, ◌+◌, ◌*◌, ◌/◌, ◌%◌, ◌^◌, ◌<◌}
use mathlib.Core.Path.{◌≡◌, ap, ◌∙◌}
use mathlib.Core.List.{List, [], ◌∷◌}
use native.Mathlib.Omega.{arith}
use native.Mathlib.Nat.{pow-suc}

abbrev pub IsByte : ℕ → Type 0
IsByte b = b < 256

-- The lowest `n` bytes of `x`, highest first, in front of `out`.
unfoldable pub be_onto : ℕ → ℕ → List ℕ → List ℕ
be_onto zero x out = out
be_onto (suc n) x out = be_onto n (x / 256) (x % 256 ∷ out)

unfoldable pub to_be : ℕ → ℕ → List ℕ
unfolding be_onto
to_be n x = be_onto n x []

unfoldable pub be_from : ℕ → List ℕ → ℕ
be_from acc [] = acc
be_from acc (b ∷ bs) = be_from (acc * 256 + b) bs

unfoldable pub from_be : List ℕ → ℕ
unfolding be_from
from_be bs = be_from 0 bs

length-be_onto : (n x : ℕ) (out : List ℕ) → length (be_onto n x out) ≡ n + length out
unfolding be_onto
length-be_onto zero x out = omega arith
length-be_onto (suc n) x out = omega (arith, length-be_onto n (x / 256) (x % 256 ∷ out))

pub length-to_be : (n x : ℕ) → length (to_be n x) ≡ n
unfolding to_be
length-to_be n x = omega (arith, length-be_onto n x [])

be_from-be_onto :
    (n x acc : ℕ) (out : List ℕ)
    → x < 256 ^ n
    → be_from acc (be_onto n x out) ≡ be_from (acc * 256 ^ n + x) out
unfolding be_onto be_from
be_from-be_onto zero x acc out h = ap (λ k. be_from k out) (omega arith)
be_from-be_onto (suc n) x acc out h =
    be_from-be_onto n (x / 256) acc (x % 256 ∷ out) (omega (arith, pow-suc 256 n))
    ∙ ap (λ k. be_from k out) (omega (arith, ap (λ (t : ℕ). acc * t) (pow-suc 256 n)))

-- Reading back what was written.
pub from_be-to_be : (n x : ℕ) → x < 256 ^ n → from_be (to_be n x) ≡ x
unfolding from_be to_be be_from
from_be-to_be n x h = be_from-be_onto n x 0 [] h ∙ omega arith

be_onto-All : (n x : ℕ) (out : List ℕ) → All IsByte out → All IsByte (be_onto n x out)
unfolding be_onto
be_onto-All zero x out h = h
be_onto-All (suc n) x out h = be_onto-All n (x / 256) (x % 256 ∷ out) (omega arith, h)

pub to_be-All : (n x : ℕ) → All IsByte (to_be n x)
unfolding to_be
to_be-All n x = be_onto-All n x [] tt

be_from-lt :
    (bs : List ℕ) (acc m : ℕ) → All IsByte bs → acc < m → be_from acc bs < m * 256 ^ length bs
unfolding be_from
be_from-lt [] acc m h k = omega arith
be_from-lt (b ∷ bs) acc m h k = omega (
  arith,
  be_from-lt bs (acc * 256 + b) (m * 256) h.1 (omega arith),
  pow-suc 256 (length bs),
  ap (λ (t : ℕ). m * t) (pow-suc 256 (length bs)),
)

pub from_be-lt : (bs : List ℕ) → All IsByte bs → from_be bs < 256 ^ length bs
unfolding from_be
from_be-lt bs h = omega (arith, be_from-lt bs 0 1 h (omega arith))
