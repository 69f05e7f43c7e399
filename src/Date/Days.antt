-- ===== src/Date/Days.antt =====
-- src/main.rs, `ymd_from_days`: the days before and after 1970-01-01.
use Prim.Native.String.{String}
use rusty_dhcp.Base.{
  ℕ, zero, suc, ◌+◌, ◌-◌, ◌/◌, ◌%◌, ◌^◌, ◌≤◌, ◌<◌, ◌≡◌, refl, ap, sym, subst, ◌∙◌, inl, inr, ltb,
  arith, Bool-cases, ltb→lt, lt→ltb, ltb_false→le, Outcome, ok, panic,
}
use rusty_dhcp.Base.Int.{ℤ, pos, negsuc, ◌+ℤ◌, ◌-ℤ◌, ◌*ℤ◌, quotient}
use rusty_dhcp.Date.{
  Date, i64, as_u64, era_of, doe_of, yoe_of, doy_of, month_of, day_of, date_of, ymd_from_days,
}
use rusty_dhcp.Date.Calendar.{next_day, days_after}
use rusty_dhcp.Date.Civil.{next_day-date_of, next_day-era}

era_of-pos : (n : ℕ) → era_of (pos n) ≡ pos (n / 146097)
unfolding era_of quotient
era_of-pos n = refl

era_of-negsuc : (n : ℕ) → era_of (negsuc n) ≡ negsuc (n / 146097)
unfolding era_of quotient ◌-ℤ◌
era_of-negsuc n = ground arith

doe_of-pos : (n : ℕ) → doe_of (pos n) ≡ n % 146097
unfolding doe_of ◌-ℤ◌ ◌*ℤ◌ as_u64
doe_of-pos n = rw (era_of-pos n) (ground arith)

doe_of-negsuc : (n : ℕ) → doe_of (negsuc n) ≡ 146096 - n % 146097
unfolding doe_of ◌-ℤ◌ ◌*ℤ◌ as_u64
doe_of-negsuc n = rw (era_of-negsuc n) (ground arith)

-- The date of a day after the start of the first era.
unfoldable date_at : ℤ → Date
date_at z = date_of (era_of z) (doe_of z)

date_at-eq : (z era : ℤ) (doe : ℕ) → era_of z ≡ era → doe_of z ≡ doe → date_at z ≡ date_of era doe
unfolding date_at
date_at-eq z era doe e d = rw (e, d) refl

next_inner :
    (z z' era : ℤ) (doe : ℕ)
    → date_at z ≡ date_of era doe
    → date_at z' ≡ date_of era (doe + 1)
    → doe < 146096
    → next_day (date_at z) ≡ date_at z'
next_inner z z' era doe e e' lt = ap next_day e ∙ next_day-date_of era doe lt ∙ sym e'

next_outer :
    (z z' era : ℤ)
    → date_at z ≡ date_of era 146096
    → date_at z' ≡ date_of (era +ℤ pos 1) 0
    → next_day (date_at z) ≡ date_at z'
next_outer z z' era e e' = ap next_day e ∙ next_day-era era ∙ sym e'

next_day-pos : (n : ℕ) → next_day (date_at (pos n)) ≡ date_at (pos (suc n))
next_day-pos n = elim (Bool-cases (ltb (n % 146097) 146096)) [
  | inl t ↦
      let e : suc n / 146097 ≡ n / 146097 = ground arith in
      let d : suc n % 146097 ≡ n % 146097 + 1 = ground arith in
      next_inner (pos n) (pos (suc n)) (pos (n / 146097)) (n % 146097)
        (date_at-eq _ _ _ (era_of-pos n) (doe_of-pos n))
        (date_at-eq _ _ _ (era_of-pos (suc n) ∙ ap pos e) (doe_of-pos (suc n) ∙ d)) (ltb→lt _ _ t)
  | inr f ↦
      let e : suc n / 146097 ≡ n / 146097 + 1 = ground arith in
      let d : suc n % 146097 ≡ 0 = ground arith in
      let d' : n % 146097 ≡ 146096 = ground arith in
      next_outer (pos n) (pos (suc n)) (pos (n / 146097))
        (date_at-eq _ _ _ (era_of-pos n) (doe_of-pos n ∙ d'))
        (date_at-eq _ _ _ (era_of-pos (suc n) ∙ ap pos e ∙ sym (unfold ◌+ℤ◌ in ground arith))
          (doe_of-pos (suc n) ∙ d))
]

next_day-negsuc : (n : ℕ) → next_day (date_at (negsuc (suc n))) ≡ date_at (negsuc n)
next_day-negsuc n = elim (Bool-cases (ltb (n % 146097) 146096)) [
  | inl t ↦
      let e : suc n / 146097 ≡ n / 146097 = ground arith in
      let d : 146096 - n % 146097 ≡ 146096 - suc n % 146097 + 1 = ground arith in
      next_inner (negsuc (suc n)) (negsuc n) (negsuc (n / 146097)) (146096 - suc n % 146097)
        (date_at-eq _ _ _ (era_of-negsuc (suc n) ∙ ap negsuc e) (doe_of-negsuc (suc n)))
        (date_at-eq _ _ _ (era_of-negsuc n) (doe_of-negsuc n ∙ d)) (ground arith)
  | inr f ↦
      let e : suc n / 146097 ≡ suc (n / 146097) = ground arith in
      let d : 146096 - n % 146097 ≡ 0 = ground arith in
      let d' : 146096 - suc n % 146097 ≡ 146096 = ground arith in
      next_outer (negsuc (suc n)) (negsuc n) (negsuc (suc (n / 146097)))
        (date_at-eq _ _ _ (era_of-negsuc (suc n) ∙ ap negsuc e) (doe_of-negsuc (suc n) ∙ d'))
        (date_at-eq _ _ _ (era_of-negsuc n ∙ sym (unfold ◌+ℤ◌ in ground arith))
          (doe_of-negsuc n ∙ d))
]

next_day-start : next_day (date_at (negsuc 0)) ≡ date_at (pos 0)
unfolding ◌+ℤ◌
next_day-start =
    next_outer (negsuc 0) (pos 0) (negsuc 0) (date_at-eq _ _ _ (era_of-negsuc 0) (doe_of-negsuc 0))
      (date_at-eq _ _ _ (era_of-pos 0) (doe_of-pos 0))

-- 1970-01-01.
abbrev pub epoch : Date
epoch = (pos 1970, 1, 1)

date_at-epoch : date_at (pos 719468) ≡ epoch
unfolding date_at era_of doe_of quotient as_u64 date_of yoe_of doy_of month_of day_of ◌+ℤ◌ ◌-ℤ◌ ◌*ℤ◌
date_at-epoch = refl

after_pos : (n m : ℕ) → days_after n (date_at (pos m)) ≡ date_at (pos (n + m))
unfolding days_after
after_pos zero m = ap (λ k. date_at (pos k)) (omega arith)
after_pos (suc n) m =
    ap next_day (after_pos n m) ∙ next_day-pos (n + m) ∙ ap (λ k. date_at (pos k)) (omega arith)

days_after-next_day : (n : ℕ) (t : Date) → days_after n (next_day t) ≡ next_day (days_after n t)
unfolding days_after
days_after-next_day zero t = refl
days_after-next_day (suc n) t = ap next_day (days_after-next_day n t)

days_after-add : (n m : ℕ) (t : Date) → days_after (n + m) t ≡ days_after n (days_after m t)
unfolding days_after
days_after-add zero m t = ap (λ k. days_after k t) (omega arith)
days_after-add (suc n) m t =
    let e : suc n + m ≡ suc (n + m) = omega arith in
    ap (λ k. days_after k t) e ∙ ap next_day (days_after-add n m t)

after_negsuc : (n : ℕ) → days_after (suc n) (date_at (negsuc n)) ≡ date_at (pos 0)
unfolding days_after
after_negsuc zero = next_day-start
after_negsuc (suc n) =
    sym (days_after-next_day (suc n) (date_at (negsuc (suc n))))
    ∙ ap (days_after (suc n)) (next_day-negsuc n)
    ∙ after_negsuc n

-- The days before the epoch, where the shifted number is one of the first era or later.
before_pos : (n : ℕ) → n < 719468 → days_after (suc n) (date_at (pos (719467 - n))) ≡ epoch
before_pos n h =
    after_pos (suc n) (719467 - n) ∙ ap (λ k. date_at (pos k)) (omega arith) ∙ date_at-epoch

before_negsuc : (n : ℕ) → 719468 ≤ n → days_after (suc n) (date_at (negsuc (n - 719468))) ≡ epoch
before_negsuc n h =
    ap (λ k. days_after k (date_at (negsuc (n - 719468)))) (omega arith)
    ∙ days_after-add 719468 (suc (n - 719468)) (date_at (negsuc (n - 719468)))
    ∙ ap (days_after 719468) (after_negsuc (n - 719468))
    ∙ after_pos 719468 0
    ∙ date_at-epoch

-- The date for a number of days since the epoch, counted by the calendar.
pub data Dates : ℤ → Outcome String Date → Type 0 where
  since : (n : ℕ) → n + 719468 < 2 ^ 63 → Dates (pos n) (ok (days_after n epoch))
  until : (n : ℕ) (t : Date) → days_after (suc n) t ≡ epoch → Dates (negsuc n) (ok t)
  overflow : (n : ℕ) → 2 ^ 63 ≤ n + 719468 → Dates (pos n) panic

-- The integers of 64 bits.
abbrev pub IsI64 : ℤ → Type 0
IsI64 (pos n) = n < 2 ^ 63
IsI64 (negsuc n) = n < 2 ^ 63

by_shift :
    (days z : ℤ) → days +ℤ pos 719468 ≡ z → i64 z ≡ ok z → ymd_from_days days ≡ ok (date_at z)
unfolding ymd_from_days date_at
by_shift days z e f = rw (e, f) refl

by_overflow : (days z : ℤ) → days +ℤ pos 719468 ≡ z → i64 z ≡ panic → ymd_from_days days ≡ panic
unfolding ymd_from_days
by_overflow days z e f = rw (e, f) refl

shift_pos : (n : ℕ) → pos n +ℤ pos 719468 ≡ pos (n + 719468)
unfolding ◌+ℤ◌
shift_pos n = ground arith

shift_near : (n : ℕ) → n < 719468 → negsuc n +ℤ pos 719468 ≡ pos (719467 - n)
unfolding ◌+ℤ◌
shift_near n h = ground arith

shift_far : (n : ℕ) → 719468 ≤ n → negsuc n +ℤ pos 719468 ≡ negsuc (n - 719468)
unfolding ◌+ℤ◌
shift_far n h = ground arith

pub ymd_from_days-since :
    (n : ℕ) → n + 719468 < 2 ^ 63 → ymd_from_days (pos n) ≡ ok (days_after n epoch)
unfolding i64
ymd_from_days-since n h =
    by_shift (pos n) (pos (n + 719468)) (shift_pos n) (rw (lt→ltb (n + 719468) (2 ^ 63) h) refl)
    ∙ ap (λ t. ok t) (sym (after_pos n 719468) ∙ ap (days_after n) date_at-epoch)

-- For every number of days in 64 bits `ymd_from_days` gives the date that the Gregorian calendar
-- counts so many days after 1970-01-01, or so many before it; it overflows exactly on the last
-- 719468 numbers.
pub ymd_from_days-Dates : (days : ℤ) → IsI64 days → Dates days (ymd_from_days days)
unfolding i64
ymd_from_days-Dates (pos n) h = elim (Bool-cases (ltb (n + 719468) (2 ^ 63))) [
  | inl t ↦
      let lt : n + 719468 < 2 ^ 63 = ltb→lt _ _ t in
      subst (Dates (pos n)) (sym (ymd_from_days-since n lt)) (since n lt)
  | inr f ↦
      subst (Dates (pos n)) (sym (by_overflow (pos n) (pos (n + 719468)) (shift_pos n) (rw f refl)))
        (overflow n (ltb_false→le _ _ f))
]
ymd_from_days-Dates (negsuc n) h = elim (Bool-cases (ltb n 719468)) [
  | inl t ↦
      let lt : n < 719468 = ltb→lt n 719468 t in
      subst (Dates (negsuc n))
        (sym (
          by_shift (negsuc n) (pos (719467 - n)) (shift_near n lt)
            (rw (lt→ltb (719467 - n) (2 ^ 63) (omega arith)) refl)))
        (until n _ (before_pos n lt))
  | inr f ↦
      let le : 719468 ≤ n = ltb_false→le n 719468 f in
      subst (Dates (negsuc n))
        (sym (
          by_shift (negsuc n) (negsuc (n - 719468)) (shift_far n le)
            (rw (lt→ltb (n - 719468) (2 ^ 63) (omega arith)) refl)))
        (until n _ (before_negsuc n le))
]
