-- ===== src/Base/Split.antt =====
-- `str::split` at a character of one byte.
use rusty_dhcp.Base.Tests.{◌==◌, if◌then◌else◌}
use Prim.Native.Nat.{ℕ}
use mathlib.Core.List.{List, [], ◌∷◌, ◌++◌}

-- The pieces between the separators.
unfoldable pub split_on : ℕ → List ℕ → List ℕ → List (List ℕ)
split_on c [] piece = piece ∷ []
split_on c (b ∷ text) piece =
    let cut = split_on c text [] in
    let more = split_on c text (piece ++ (b ∷ [])) in if b == c then piece ∷ cut else more

unfoldable pub split : ℕ → List ℕ → List (List ℕ)
unfolding split_on
split c text = split_on c text []
