-- ===== src/Base/RoundRobin.antt =====
-- A search that takes the offsets below `count` in turn, from the one behind `last` on.
use native.Mathlib.Nat.{mod-add-mod, mod-eq_of_lt, add-mod_right}
use rusty_dhcp.Base.Tests.{Bool-cases, ltb, ltb→lt, ltb_false→le}
use Prim.Native.Nat.{ℕ, zero, suc, ◌+◌, ◌-◌, ◌%◌, ◌<◌}
use mathlib.Core.Path.{◌≡◌, ap, subst, ◌∙◌}
use mathlib.Core.Logic.{inl, inr}
use mathlib.Core.Bool.{Bool, false}
use native.Mathlib.Omega.{arith}

-- Every offset comes up in one turn of the search.
turn :
    (last count i : ℕ)
    → last < count
    → i < count
    → (r : ℕ) × (r < count) × ((last + 1 + r) % count ≡ i)
turn last count i h k = elim (Bool-cases (ltb last i)) [
  | inl up ↦
      let lt = ltb→lt last i up in
      let e : last + 1 + (i - (last + 1)) ≡ i = omega arith in
      (i - (last + 1), omega arith, ap (λ m. m % count) e ∙ mod-eq_of_lt k)
  | inr down ↦
      let le = ltb_false→le last i down in
      let e : last + 1 + (i + count - (last + 1)) ≡ i + count = omega arith in
      (
        i + count - (last + 1),
        omega arith,
        ap (λ m. m % count) e ∙ add-mod_right i count ∙ mod-eq_of_lt k,
      )
]

-- None of the `rounds` offsets behind `last` is free.
abbrev pub Missed : (ℕ → Bool) → ℕ → ℕ → ℕ → Type 0
Missed free last count rounds = (r : ℕ) → r < rounds → free ((last + 1 + r) % count) ≡ false

-- A round more, in front of the others.
pub Missed-suc :
    (free : ℕ → Bool) (last count rounds : ℕ)
    → free ((last + 1) % count) ≡ false
    → Missed free ((last + 1) % count) count rounds
    → Missed free last count (suc rounds)
Missed-suc free last count rounds first later zero h =
    let e : last + 1 + 0 ≡ last + 1 = omega arith in rw e first
Missed-suc free last count rounds first later (suc r) h =
    let regroup : (last + 1) % count + 1 + r ≡ (last + 1) % count + (1 + r) = omega arith in
    let whole : last + 1 + (1 + r) ≡ last + 1 + suc r = omega arith in
    let e : ((last + 1) % count + 1 + r) % count ≡ (last + 1 + suc r) % count =
      ap (λ k. k % count) regroup
      ∙ mod-add-mod (last + 1) count (1 + r)
      ∙ ap (λ k. k % count) whole in
    rw (← e) (later r (omega arith))

-- If a whole turn missed, no offset is free.
pub Missed-all :
    (free : ℕ → Bool) (last count : ℕ)
    → last < count
    → Missed free last count count
    → (i : ℕ) → i < count
    → free i ≡ false
Missed-all free last count h m i k =
    let (r, lt, e) = turn last count i h k in subst (λ j. free j ≡ false) e (m r lt)
