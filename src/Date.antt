-- ===== src/Date.antt =====
-- src/main.rs, `ymd_from_days` and `utc_now_iso`: the date and time of the log.
pub mod Calendar
pub mod Years
pub mod Months
pub mod Civil
pub mod Days
pub mod Count
pub mod Text
mod Tests
use Prim.Native.String.{String}
use rusty_dhcp.Base.{
  ℕ, zero, suc, ◌+◌, ◌-◌, ◌*◌, ◌/◌, ◌%◌, ◌^◌, Bool, true, false, List, [], ◌∷◌, ◌++◌, length, ltb,
  leb, replicate, if◌then◌else◌, Outcome, ok, err, panic, ◌>>=◌,
}
use rusty_dhcp.Base.Int.{
  ℤ, pos, negsuc, pos_part, neg_part, ◌+ℤ◌, ◌-ℤ◌, ◌*ℤ◌, quotient, is_negative,
}
use rusty_dhcp.Options.{Str}

-- An `i64`, or the panic of a checked build where the integer is none.
unfoldable pub i64 : ℤ → Outcome String ℤ
i64 (pos n) = if ltb n (2 ^ 63) then ok (pos n) else panic
i64 (negsuc n) = if ltb n (2 ^ 63) then ok (negsuc n) else panic

-- `as u64`, which wraps.
unfoldable pub as_u64 : ℤ → ℕ
as_u64 (pos n) = n % 2 ^ 64
as_u64 (negsuc n) = 2 ^ 64 - 1 - n % 2 ^ 64

-- The era of 400 years; `z - 146096` does not overflow where `z` is negative.
unfoldable pub era_of : ℤ → ℤ
era_of z = quotient (if is_negative z then z -ℤ pos 146096 else z) 146097

unfoldable pub doe_of : ℤ → ℕ
doe_of z = as_u64 (z -ℤ era_of z *ℤ pos 146097)

-- The year of the era. A quotient of `doe` is no larger than `doe`, so nothing here and below stops
-- at 0.
unfoldable pub yoe_of : ℕ → ℕ
yoe_of doe = (doe - doe / 1460 + doe / 36524 - doe / 146096) / 365

unfoldable pub doy_of : ℕ → ℕ
doy_of doe = doe - (365 * yoe_of doe + yoe_of doe / 4 - yoe_of doe / 100)

-- The month and the day of a day of the year that starts in March.
unfoldable pub month_of : ℕ → ℕ
month_of doy =
    if ltb ((5 * doy + 2) / 153) 10 then (5 * doy + 2) / 153 + 3 else (5 * doy + 2) / 153 - 9

unfoldable pub day_of : ℕ → ℕ
day_of doy = doy - (153 * ((5 * doy + 2) / 153) + 2) / 5 + 1

-- A year, a month and a day.
abbrev pub Date : Type 0
Date = ℤ × ℕ × ℕ

-- The date of a day of an era.
unfoldable pub date_of : ℤ → ℕ → Date
date_of era doe =
    let y = pos (yoe_of doe) +ℤ era *ℤ pos 400 in
    let m = month_of (doy_of doe) in (if leb m 2 then y +ℤ pos 1 else y, m, day_of (doy_of doe))

unfoldable pub ymd_from_days : ℤ → Outcome String Date
ymd_from_days days = do z ← i64 (days +ℤ pos 719468); ok (date_of (era_of z) (doe_of z))

-- The decimal digits of a number of at most `fuel` digits; the most that a `u64` has is 20.
unfoldable pub decimal : ℕ → ℕ → Str
decimal zero n = []
decimal (suc fuel) n =
    let front = decimal fuel (n / 10) in
    if ltb n 10 then (48 + n) ∷ [] else front ++ ((48 + n % 10) ∷ [])

unfoldable pub pad : ℕ → Str → Str
pad width text = replicate (width - length text) 48 ++ text

-- `{:02}`, and `{:04}` of an `i64`, whose sign counts.
unfoldable pub two_digits : ℕ → Str
two_digits n = pad 2 (decimal 20 n)

unfoldable pub four_digits : ℤ → Str
four_digits (pos n) = pad 4 (decimal 20 n)
four_digits (negsuc n) = 45 ∷ pad 3 (decimal 20 (n + 1))

-- The text for a time after the epoch in seconds, a `u64`, which `SystemTime` gives.
unfoldable pub utc_now_iso : ℕ → Outcome String Str
utc_now_iso secs = do
  (y, m, d) ← ymd_from_days (pos (secs / 86400))
  let t = secs % 86400
  ok (
      four_digits y
      ++ (45
          ∷ (two_digits m
              ++ (45
                  ∷ (two_digits d
                      ++ (84
                          ∷ (two_digits (t / 3600)
                              ++ (58
                                  ∷ (two_digits (t % 3600 / 60)
                                      ++ (58 ∷ two_digits (t % 60)))))))))))
