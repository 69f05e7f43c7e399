-- ===== src/Base/Slices.antt =====
-- Slices `bytes[from..to]` and the numbers read from them, which panic out of range.
use rusty_dhcp.Base.Tests.{leb, le→leb, if◌then◌else◌}
use rusty_dhcp.Base.Lists.{length, take, drop}
use rusty_dhcp.Base.Fallible.{Outcome, ok, panic, ◌>>=◌}
use rusty_dhcp.Base.Bytes.{from_be}
use Prim.Native.Nat.{ℕ, ◌+◌, ◌≤◌}
use mathlib.Core.Path.{◌≡◌}
use mathlib.Core.List.{List}

-- `bytes[from..from + n]`.
unfoldable pub slice {μ} : {E : Type μ} → ℕ → ℕ → List ℕ → Outcome E (List ℕ)
slice from n bytes = if leb (from + n) (length bytes) then ok (take n (drop from bytes)) else panic

-- `bytes[n..]`.
unfoldable pub skip {μ} : {E : Type μ} → ℕ → List ℕ → Outcome E (List ℕ)
skip n bytes = if leb n (length bytes) then ok (drop n bytes) else panic

-- `from_be_bytes` of `[bytes[from], ...]`, or `Ipv6Addr::from`, on `n` bytes from an offset.
unfoldable pub number {μ} : {E : Type μ} → ℕ → ℕ → List ℕ → Outcome E ℕ
number from n bytes = do part ← slice from n bytes; ok (from_be part)

-- The number there, as far as there are bytes.
abbrev pub value : ℕ → ℕ → List ℕ → ℕ
value from n bytes = from_be (take n (drop from bytes))

module _ {μ} {E : Type μ} (bytes : List ℕ) where
  pub slice-ok :
      (from n : ℕ)
      → from + n ≤ length bytes
      → slice {E = E} from n bytes ≡ ok (take n (drop from bytes))
  unfolding slice
  slice-ok from n h = rw (le→leb (from + n) (length bytes) h)

  pub skip-ok : (n : ℕ) → n ≤ length bytes → skip {E = E} n bytes ≡ ok (drop n bytes)
  unfolding skip
  skip-ok n h = rw (le→leb n (length bytes) h)

  pub number-ok :
      (from n : ℕ) → from + n ≤ length bytes → number {E = E} from n bytes ≡ ok (value from n bytes)
  unfolding number
  number-ok from n h = rw (slice-ok from n h)
