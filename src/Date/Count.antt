-- ===== src/Date/Count.antt =====
-- The calendar from 1970 on: the number of a day, from the lengths of the years and months before it.
use native.Mathlib.Nat.{le_refl, le_trans}
use native.Mathlib.Decide.{le_ind}
use rusty_dhcp.Base.{
  ℕ, zero, suc, ◌+◌, ◌-◌, ◌≤◌, ◌<◌, ◌≡◌, refl, ap, sym, subst, ◌∙◌, inl, inr, Bool, true, false,
  ◌&&◌, ltb, leb, if◌then◌else◌, arith, Bool-cases, ltb→lt, ltb_false→le,
}
use rusty_dhcp.Base.Int.{pos, ◌+ℤ◌}
use rusty_dhcp.Date.{Date}
use rusty_dhcp.Date.Calendar.{is_leap, days_in_month, next_day, days_after}
use rusty_dhcp.Date.Days.{epoch}

unfoldable pub days_in_year : ℕ → ℕ
days_in_year y = if is_leap (pos y) then 366 else 365

-- The days of the `k` years from 1970 on.
unfoldable pub days_before_year : ℕ → ℕ
days_before_year zero = 0
days_before_year (suc k) = days_before_year k + days_in_year (1970 + k)

-- The days of the months of a year before a month.
unfoldable pub days_before_month : ℕ → ℕ → ℕ
days_before_month y zero = 0
days_before_month y (suc zero) = 0
days_before_month y (suc (suc m)) = days_before_month y (suc m) + days_in_month (pos y) (suc m)

-- The days from 1970-01-01 to a date.
unfoldable pub day_number : ℕ → ℕ → ℕ → ℕ
day_number y m d = days_before_year (y - 1970) + days_before_month y m + (d - 1)

-- The calendar has the day, and 1970 is not after it.
unfoldable pub is_date : ℕ → ℕ → ℕ → Bool
is_date y m d = leb 1970 y && leb 1 m && leb m 12 && leb 1 d && leb d (days_in_month (pos y) m)

-- A date of the calendar with its number.
pub record Counted (n : ℕ) (t : Date) : Type 0 where
  pub y : ℕ
  pub m : ℕ
  pub d : ℕ
  pub is : t ≡ (pos y, m, d)
  pub valid : is_date y m d ≡ true
  pub number : day_number y m d ≡ n

next_month :
    (y m : ℕ)
    → 1 ≤ m
    → days_before_month y (m + 1) ≡ days_before_month y m + days_in_month (pos y) m
unfolding days_before_month
next_month y zero h = absurd (omega arith)
next_month y (suc m) h = let e : suc m + 1 ≡ suc (suc m) = omega arith in ap (days_before_month y) e

january : (y : ℕ) → days_before_month y 1 ≡ 0
unfolding days_before_month
january y = refl

december : (y : ℕ) → days_before_month y 12 + 31 ≡ days_in_year y
unfolding days_before_month days_in_month days_in_year
december y = ground arith

next_year :
    (y : ℕ)
    → 1970 ≤ y
    → days_before_year (y + 1 - 1970) ≡ days_before_year (y - 1970) + days_in_year y
unfolding days_before_year
next_year y h =
    let e : y + 1 - 1970 ≡ suc (y - 1970) = omega arith in
    let e' : 1970 + (y - 1970) ≡ y = omega arith in
    ap days_before_year e ∙ ap (λ k. days_before_year (y - 1970) + days_in_year k) e'

month_has_days : (y m : ℕ) → 28 ≤ days_in_month (pos y) m
unfolding days_in_month
month_has_days y m = ground arith

december_length : (y : ℕ) → days_in_month (pos y) 12 ≡ 31
unfolding days_in_month
december_length y = refl

pos-suc : (y : ℕ) → pos y +ℤ pos 1 ≡ pos (y + 1)
unfolding ◌+ℤ◌
pos-suc y = ground arith

-- The number of the next day is one more.
module _ (n y m d : ℕ) (v : is_date y m d ≡ true) (e : day_number y m d ≡ n) where
  same_month : ltb d (days_in_month (pos y) m) ≡ true → Counted (suc n) (next_day (pos y, m, d))
  unfolding is_date day_number next_day
  same_month t = record {
    y = y;
    m = m;
    d = d + 1;
    is = rw t refl;
    valid = ground arith;
    number = ground (arith, e);
  }

  same_year :
      ltb d (days_in_month (pos y) m) ≡ false
      → ltb m 12 ≡ true
      → Counted (suc n) (next_day (pos y, m, d))
  unfolding is_date day_number next_day
  same_year f t = record {
    y = y;
    m = m + 1;
    d = 1;
    is = rw (f, t) refl;
    valid = ground (arith, month_has_days y (m + 1));
    number = ground (arith, e, next_month y m);
  }

  year_ends :
      ltb d (days_in_month (pos y) m) ≡ false
      → ltb m 12 ≡ false
      → Counted (suc n) (next_day (pos y, m, d))
  unfolding is_date day_number next_day
  year_ends f g =
      let last : m ≡ 12 = ground arith in
      let length : days_in_month (pos y) m ≡ 31 =
        ap (days_in_month (pos y)) last ∙ december_length y in
      let whole : days_before_month y m + 31 ≡ days_in_year y =
        ap (λ k. days_before_month y k + 31) last ∙ december y in
      record {
        y = y + 1;
        m = 1;
        d = 1;
        is = rw (f, g, pos-suc y) refl;
        valid = ground (arith, month_has_days (y + 1) 1);
        number = ground (arith, e, length, whole, next_year y, january (y + 1));
      }

  next_triple : Counted (suc n) (next_day (pos y, m, d))
  next_triple = elim (Bool-cases (ltb d (days_in_month (pos y) m))) [
    | inl t ↦ same_month t
    | inr f ↦ elim (Bool-cases (ltb m 12)) [ inl t ↦ same_year f t | inr g ↦ year_ends f g ]
  ]

next_day-Counted : (n : ℕ) (t : Date) → Counted n t → Counted (suc n) (next_day t)
next_day-Counted n t c =
    subst (λ t. Counted (suc n) (next_day t)) (sym c.is)
      (next_triple n c.y c.m c.d c.valid c.number)

-- The calendar and the numbers of the days agree.
pub days_after-Counted : (n : ℕ) → Counted n (days_after n epoch)
unfolding days_after
days_after-Counted zero = record {
  y = 1970;
  m = 1;
  d = 1;
  is = refl;
  valid = unfold is_date in unfold days_in_month in unfold is_leap in refl;
  number = unfold day_number in unfold days_before_year in unfold days_before_month in refl;
}
days_after-Counted (suc n) = next_day-Counted n (days_after n epoch) (days_after-Counted n)

days_before_year-step : (k : ℕ) → days_before_year k ≤ days_before_year (suc k)
unfolding days_before_year
days_before_year-step k = omega arith

days_before_year_mono : (j k : ℕ) → j ≤ k → days_before_year j ≤ days_before_year k
days_before_year_mono j k h =
    le_ind (λ n. days_before_year j ≤ days_before_year n) (le_refl (days_before_year j))
      (λ n le ih. le_trans ih (days_before_year-step n)) k h

ten_thousand : days_before_year 8030 ≡ 2932897
unfolding days_before_year days_in_year is_leap
ten_thousand = refl

-- The days before the year 10000 are of a year before it.
pub Counted-year : (n : ℕ) (t : Date) (c : Counted n t) → n < 2932897 → c.y < 10000
unfolding day_number
Counted-year n t c h = elim (Bool-cases (ltb c.y 10000)) [
  | inl b ↦ ltb→lt c.y 10000 b
  | inr f ↦ absurd (
      omega (
        arith,
        c.number,
        ltb_false→le c.y 10000 f,
        ten_thousand,
        days_before_year_mono 8030 (c.y - 1970) (omega (arith, ltb_false→le c.y 10000 f)),
      ))
]
