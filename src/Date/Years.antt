-- ===== src/Date/Years.antt =====
-- src/main.rs, `ymd_from_days`: the year that a day of an era lies in.
use rusty_dhcp.Base.{
  ℕ, zero, suc, ◌+◌, ◌-◌, ◌*◌, ◌/◌, ◌≤◌, ◌<◌, ◌≡◌, refl, ap, inl, inr, Bool, true, ◌&&◌, ltb, leb,
  ◌==◌, if◌then◌else◌, arith, Bool-cases, ==_iff, ltb→lt, ltb_false→le,
}
use native.Mathlib.Nat.{le_refl, le_trans}
use native.Mathlib.Decide.{le_ind}
use rusty_dhcp.Date.{yoe_of}

-- Whether a test succeeds on each of the first `count` days or years.
unfoldable pub passes : (ℕ → Bool) → ℕ → Bool
passes test zero = true
passes test (suc count) = passes test count && test count

pub passes-at :
    (test : ℕ → Bool) (count i : ℕ) → i < count → passes test count ≡ true → test i ≡ true
unfolding passes
passes-at test zero i lt ok_ = elim lt [ ]
passes-at test (suc count) i lt ok_ = elim (Bool-cases (i == count)) [
  | inl t ↦ let e : i ≡ count = (==_iff i count).0 t in rw e (ground arith)
  | inr f ↦ passes-at test count i (ground arith) (ground arith)
]

-- The first day of a year of the era, and the last; a year starts in March.
unfoldable pub start : ℕ → ℕ
start y = 365 * y + y / 4 - y / 100

unfoldable pub last : ℕ → ℕ
last y = if y == 399 then 146096 else start (y + 1) - 1

-- The dividend of `yoe_of`.
unfoldable pub spread : ℕ → ℕ
spread doe = doe - doe / 1460 + doe / 36524 - doe / 146096

spread_step : (doe : ℕ) → spread doe ≤ spread (suc doe)
unfolding spread
spread_step doe = omega arith

spread_mono : (a b : ℕ) → a ≤ b → spread a ≤ spread b
spread_mono a b h =
    le_ind (λ n. spread a ≤ spread n) (le_refl (spread a)) (λ n le ih. le_trans ih (spread_step n))
      b h

-- The dividend at both ends of a year.
abbrev in_place : ℕ → Bool
in_place y = leb (365 * y) (spread (start y)) && ltb (spread (last y)) (365 * (y + 1))

years_in_place : passes in_place 400 ≡ true
unfolding passes spread start last
years_in_place = refl

ends : (y : ℕ) → y < 400 → (365 * y ≤ spread (start y)) × (spread (last y) < 365 * (y + 1))
ends y h = let t = passes-at in_place 400 y h years_in_place in ground arith

-- A year follows on the one before.
pub last-start : (y : ℕ) → y < 399 → last y + 1 ≡ start (y + 1)
unfolding last start
last-start y h = ground arith

-- The year of a day, by the dividend.
yoe_of-spread : (doe : ℕ) → (365 * yoe_of doe ≤ spread doe) × (spread doe < 365 * (yoe_of doe + 1))
unfolding yoe_of spread
yoe_of-spread doe = omega arith

spread_top : (doe : ℕ) → doe < 146097 → spread doe ≤ 145999
unfolding spread
spread_top doe h = omega arith

last-lt : (y : ℕ) → y < 400 → last y < 146097
unfolding last start
last-lt y h = ground arith

before : (a b : ℕ) → spread a < spread b → a < b
before a b h = elim (Bool-cases (ltb a b)) [
  | inl t ↦ ltb→lt a b t
  | inr f ↦ absurd (omega (arith, spread_mono b a (ltb_false→le a b f)))
]

-- The day lies in its year.
pub yoe_of-bounds :
    (doe : ℕ)
    → doe < 146097
    → (yoe_of doe < 400) × (start (yoe_of doe) ≤ doe) × (doe ≤ last (yoe_of doe))
yoe_of-bounds doe h =
    let (lo, hi) = yoe_of-spread doe in
    let small : yoe_of doe < 400 = omega (arith, spread_top doe h) in
    (small, not_before (yoe_of doe) small lo, not_after (yoe_of doe) small hi)
  where
    not_before : (y : ℕ) → y < 400 → 365 * y ≤ spread doe → start y ≤ doe
    not_before zero small lo = unfold start in omega arith
    not_before (suc y) small lo =
        let e : y + 1 ≡ suc y = omega arith in
        omega (
          arith,
          before (last y) doe (omega (arith, (ends y (omega arith)).1)),
          last-start y (omega arith),
          ap start e,
        )

    not_after : (y : ℕ) → y < 400 → spread doe < 365 * (y + 1) → doe ≤ last y
    not_after y small hi = elim (Bool-cases (y == 399)) [
      | inl t ↦ unfold last in rw t (omega arith)
      | inr f ↦
          let lt : y < 399 = ground arith in
          omega (
            arith,
            before doe (start (y + 1)) (omega (arith, (ends (y + 1) (omega arith)).0)),
            last-start y lt,
          )
    ]

-- There is no other such year.
pub yoe_of-eq : (doe y : ℕ) → y < 400 → start y ≤ doe → doe ≤ last y → yoe_of doe ≡ y
yoe_of-eq doe y h lo hi =
    omega (
      arith,
      yoe_of-spread doe,
      ends y h,
      spread_mono (start y) doe lo,
      spread_mono doe (last y) hi,
    )
