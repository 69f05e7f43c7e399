-- ===== src/Date/Months.antt =====
-- src/main.rs, `ymd_from_days`: the month and the day of a day of the year.
use rusty_dhcp.Base.{
  ℕ, ◌+◌, ◌≤◌, ◌<◌, ◌≡◌, ◌⊎◌, refl, inl, inr, Bool, true, false, not, ◌&&◌, ◌||◌, ltb, leb, ◌==◌,
  if◌then◌else◌, arith, Bool-cases, ==_iff, ltb→lt,
}
use rusty_dhcp.Base.Int.{ℤ, pos, ◌+ℤ◌}
use rusty_dhcp.Date.{Date, month_of, day_of}
use rusty_dhcp.Date.Calendar.{is_leap, days_in_month, next_day}
use rusty_dhcp.Date.Years.{passes, passes-at}

-- The length of a month in a leap year.
unfoldable pub longest : ℕ → ℕ
longest m = if m == 2 then 29 else if m == 4 || m == 6 || m == 9 || m == 11 then 30 else 31

-- What becomes of the month and the day from one day to the next.
abbrev stays : ℕ → ℕ → ℕ → ℕ → Bool
stays m d m' d' = m' == m && d' == d + 1 && ltb d (longest m)

abbrev turns : ℕ → ℕ → ℕ → ℕ → Bool
turns m d m' d' =
    (if m == 12 then m' == 1 else m' == m + 1)
    && d' == 1
    && d == longest m
    && not (m == 2)
    && leb m 12

unfoldable pub steps : ℕ → Bool
steps doy =
    (stays (month_of doy) (day_of doy) (month_of (doy + 1)) (day_of (doy + 1))
      || turns (month_of doy) (day_of doy) (month_of (doy + 1)) (day_of (doy + 1)))
    && (not (month_of doy == 2) || ltb (day_of doy) 28 || leb 364 doy)

all_steps : passes steps 365 ≡ true
unfolding passes steps longest month_of day_of
all_steps = refl

-- The date of a day of the year that starts in March of the year `y`.
unfoldable pub date_in : ℤ → ℕ → Date
date_in y doy = (if leb (month_of doy) 2 then y +ℤ pos 1 else y, month_of doy, day_of doy)

-- The year of a month, which is the next one for January and February.
abbrev year_for : ℤ → ℕ → ℤ
year_for y m = if leb m 2 then y +ℤ pos 1 else y

module _ (y : ℤ) (m d m' d' : ℕ) where
  abbrev Next : Type 0
  Next = next_day (year_for y m, m, d) ≡ (year_for y m', m', d')

  room :
      ltb d (longest m) ≡ true
      → (m ≡ 2 → (d < 28) ⊎ (is_leap (y +ℤ pos 1) ≡ true))
      → ltb d (days_in_month (year_for y m) m) ≡ true
  unfolding days_in_month longest
  room h feb = elim (Bool-cases (m == 2)) [
    | inr f ↦ rw f (ground arith)
    | inl t ↦
        let e : m ≡ 2 = (==_iff m 2).0 t in
        elim (feb e) [ inl short ↦ rw e (ground arith) | inr leap ↦ rw (e, leap) (ground arith) ]
  ]

  next_stays : stays m d m' d' ≡ true → (m ≡ 2 → (d < 28) ⊎ (is_leap (y +ℤ pos 1) ≡ true)) → Next
  unfolding next_day
  next_stays h feb =
      let r = room (ground arith) feb in
      let same : m' ≡ m = ground arith in
      let more : d' ≡ d + 1 = ground arith in rw (r, same, more) refl

  next_turns : turns m d m' d' ≡ true → Next
  unfolding next_day days_in_month longest
  next_turns h = elim (Bool-cases (m == 12)) [
    | inl t ↦
        let e : m ≡ 12 = (==_iff m 12).0 t in
        let new : m' ≡ 1 = ground arith in
        let first : d' ≡ 1 = ground arith in
        let end : d ≡ 31 = ground arith in rw (e, new, first, end) refl
    | inr f ↦
        let new : m' ≡ m + 1 = ground arith in
        let first : d' ≡ 1 = ground arith in rw (new, first) (ground arith)
  ]

-- Within a year that starts in March one day follows on the other.
pub next_day-date_in :
    (y : ℤ) (doy : ℕ)
    → doy < 365
    → (364 ≤ doy → is_leap (y +ℤ pos 1) ≡ true)
    → next_day (date_in y doy) ≡ date_in y (doy + 1)
unfolding date_in steps
next_day-date_in y doy lt leap = via (passes-at steps 365 doy lt all_steps)
  where
    m : ℕ
    m = month_of doy

    d : ℕ
    d = day_of doy

    m' : ℕ
    m' = month_of (doy + 1)

    d' : ℕ
    d' = day_of (doy + 1)

    february :
        not (m == 2) || ltb d 28 || leb 364 doy ≡ true
        → m ≡ 2
        → (d < 28) ⊎ (is_leap (y +ℤ pos 1) ≡ true)
    february h e = elim (Bool-cases (ltb d 28)) [
      | inl t ↦ inl (ltb→lt d 28 t)
      | inr f ↦ inr (leap (ground arith))
    ]

    via :
        (stays m d m' d' || turns m d m' d') && (not (m == 2) || ltb d 28 || leb 364 doy) ≡ true
        → next_day (date_in y doy) ≡ date_in y (doy + 1)
    via h = elim (Bool-cases (stays m d m' d')) [
      | inl t ↦ next_stays y m d m' d' t (february (ground arith))
      | inr f ↦ next_turns y m d m' d' (ground arith)
    ]

-- The last day of February, which ends such a year.
pub next_day-date_in_364 :
    (y : ℤ) → is_leap (y +ℤ pos 1) ≡ false → next_day (date_in y 364) ≡ date_in (y +ℤ pos 1) 0
unfolding date_in month_of day_of next_day days_in_month
next_day-date_in_364 y h = rw h refl

pub next_day-date_in_365 :
    (y : ℤ) → is_leap (y +ℤ pos 1) ≡ true → next_day (date_in y 365) ≡ date_in (y +ℤ pos 1) 0
unfolding date_in month_of day_of next_day days_in_month
next_day-date_in_365 y h = rw h refl
