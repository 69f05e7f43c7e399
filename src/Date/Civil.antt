-- ===== src/Date/Civil.antt =====
-- src/main.rs, `ymd_from_days`: its dates are those of the calendar.
use rusty_dhcp.Base.{
  ℕ, zero, suc, ◌+◌, ◌-◌, ◌≤◌, ◌<◌, ◌≡◌, refl, ap, sym, ◌∙◌, inl, inr, true, false, ltb,
  if◌then◌else◌, arith, Bool-cases, ltb→lt, ltb_false→le,
}
use rusty_dhcp.Base.Int.{ℤ, pos, negsuc, ◌+ℤ◌, ◌*ℤ◌}
use rusty_dhcp.Date.{yoe_of, doy_of, date_of}
use rusty_dhcp.Date.Calendar.{is_leap, next_day}
use rusty_dhcp.Date.Years.{start, last, last-start, yoe_of-bounds, yoe_of-eq}
use rusty_dhcp.Date.Months.{date_in, next_day-date_in, next_day-date_in_364, next_day-date_in_365}

-- The year of the calendar for a year of an era.
abbrev year : ℤ → ℕ → ℤ
year era y = pos y +ℤ era *ℤ pos 400

date_of-date_in :
    (era : ℤ) (doe : ℕ)
    → date_of era doe ≡ date_in (year era (yoe_of doe)) (doe - start (yoe_of doe))
unfolding date_of date_in doy_of start
date_of-date_in era doe = refl

-- Eras of 400 years have the same leap years.
is_leap-year : (era : ℤ) (y : ℕ) → y < 400 → is_leap (year era y +ℤ pos 1) ≡ is_leap (pos (y + 1))
unfolding is_leap ◌+ℤ◌ ◌*ℤ◌
is_leap-year (pos e) y h = ground arith
is_leap-year (negsuc e) y h = ground arith

length_of : (y : ℕ) → y < 400 → last y ≡ start y + (if is_leap (pos (y + 1)) then 365 else 364)
unfolding last start is_leap
length_of y h = ground arith

length_leap : (y : ℕ) → y < 400 → is_leap (pos (y + 1)) ≡ true → last y ≡ start y + 365
length_leap y h t = rw t at (length_of y h)

length_common : (y : ℕ) → y < 400 → is_leap (pos (y + 1)) ≡ false → last y ≡ start y + 364
length_common y h f = rw f at (length_of y h)

year-suc : (era : ℤ) (y : ℕ) → year era (y + 1) ≡ year era y +ℤ pos 1
unfolding ◌+ℤ◌ ◌*ℤ◌
year-suc (pos e) y = ground arith
year-suc (negsuc e) y = ground arith

year-era : (era : ℤ) → year (era +ℤ pos 1) 0 ≡ year era 399 +ℤ pos 1
unfolding ◌+ℤ◌ ◌*ℤ◌
year-era (pos e) = ground arith
year-era (negsuc zero) = refl
year-era (negsuc (suc e)) = ground arith

length_bounds : (y : ℕ) → y < 400 → (start y + 364 ≤ last y) × (last y ≤ start y + 365)
length_bounds y h = elim (Bool-cases (is_leap (pos (y + 1)))) [
  | inl t ↦ omega (arith, length_leap y h t)
  | inr f ↦ omega (arith, length_common y h f)
]

-- A day of a year, by its distance from the first.
at_day :
    (era : ℤ) (y doy : ℕ)
    → y < 400
    → start y + doy ≤ last y
    → date_of era (start y + doy) ≡ date_in (year era y) doy
at_day era y doy h le =
    let e : yoe_of (start y + doy) ≡ y = yoe_of-eq (start y + doy) y h (omega arith) le in
    let e' : start y + doy - start y ≡ doy = omega arith in
    date_of-date_in era (start y + doy) ∙ rw (e, e') refl

-- The last day of a year and the first of the next.
last_day :
    (era : ℤ) (y : ℕ) → y < 400 → next_day (date_of era (last y)) ≡ date_in (year era y +ℤ pos 1) 0
last_day era y h = elim (Bool-cases (is_leap (pos (y + 1)))) [
  | inl t ↦
      let e : last y ≡ start y + 365 = length_leap y h t in
      ap (λ n. next_day (date_of era n)) e
      ∙ ap next_day (at_day era y 365 h (omega (arith, e)))
      ∙ next_day-date_in_365 (year era y) (is_leap-year era y h ∙ t)
  | inr f ↦
      let e : last y ≡ start y + 364 = length_common y h f in
      ap (λ n. next_day (date_of era n)) e
      ∙ ap next_day (at_day era y 364 h (omega (arith, e)))
      ∙ next_day-date_in_364 (year era y) (is_leap-year era y h ∙ f)
]

-- Two days of one year.
inner_day :
    (era : ℤ) (y doy : ℕ)
    → y < 400
    → start y + doy < last y
    → next_day (date_of era (start y + doy)) ≡ date_of era (start y + (doy + 1))
inner_day era y doy h lt =
    ap next_day (at_day era y doy h (omega arith))
    ∙ next_day-date_in (year era y) doy (omega (arith, (length_bounds y h).1)) leap
    ∙ sym (at_day era y (doy + 1) h (omega arith))
  where
    leap : 364 ≤ doy → is_leap (year era y +ℤ pos 1) ≡ true
    leap le = elim (Bool-cases (is_leap (pos (y + 1)))) [
      | inl t ↦ is_leap-year era y h ∙ t
      | inr f ↦ absurd (omega (arith, length_common y h f))
    ]

first_day : (era : ℤ) (y : ℕ) → y < 400 → date_of era (start y) ≡ date_in (year era y) 0
first_day era y h =
    ap (date_of era) (omega arith) ∙ at_day era y 0 h (omega (arith, (length_bounds y h).0))

not_last : (y : ℕ) → y < 400 → last y < 146096 → y < 399
unfolding last
not_last y h lt = ground arith

-- One day of an era follows on the other.
pub next_day-date_of :
    (era : ℤ) (doe : ℕ) → doe < 146096 → next_day (date_of era doe) ≡ date_of era (doe + 1)
next_day-date_of era doe h = elim (Bool-cases (ltb doe (last y))) [
  | inl t ↦
      ap (λ n. next_day (date_of era n)) (sym here)
      ∙ inner_day era y doy small (omega (arith, here, ltb→lt doe (last y) t))
      ∙ ap (date_of era) (omega (arith, here))
  | inr f ↦
      let end : doe ≡ last y = omega (arith, hi, ltb_false→le doe (last y) f) in
      let lt : y < 399 = not_last y small (omega (arith, end)) in
      let e : start (y + 1) ≡ doe + 1 = omega (arith, end, last-start y lt) in
      ap (λ n. next_day (date_of era n)) end
      ∙ last_day era y small
      ∙ ap (λ z. date_in z 0) (sym (year-suc era y))
      ∙ sym (first_day era (y + 1) (omega arith))
      ∙ ap (date_of era) e
]
  where
    y : ℕ
    y = yoe_of doe

    doy : ℕ
    doy = doe - start y

    small : y < 400
    small = (yoe_of-bounds doe (omega arith)).0

    hi : doe ≤ last y
    hi = (yoe_of-bounds doe (omega arith)).2

    here : start y + doy ≡ doe
    here = omega (arith, (yoe_of-bounds doe (omega arith)).1)

-- The last day of an era and the first of the next.
pub next_day-era : (era : ℤ) → next_day (date_of era 146096) ≡ date_of (era +ℤ pos 1) 0
unfolding last
next_day-era era =
    last_day era 399 (omega arith)
    ∙ ap (λ z. date_in z 0) (sym (year-era era))
    ∙ sym (unfold start in first_day (era +ℤ pos 1) 0 (omega arith))
