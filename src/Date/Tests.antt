-- ===== src/Date/Tests.antt =====
-- src/main.rs, `ymd_from_days` and `utc_now_iso` at concrete inputs.
use rusty_dhcp.Base.{◌≡◌, refl, [], ◌∷◌, arith, some, ok}
use rusty_dhcp.Base.Int.{pos, negsuc, ◌+ℤ◌, ◌-ℤ◌, ◌*ℤ◌, quotient}
use rusty_dhcp.Options.{Str}
use rusty_dhcp.Date.{
  i64, as_u64, era_of, doe_of, yoe_of, doy_of, month_of, day_of, date_of, ymd_from_days, decimal,
  pad, two_digits, four_digits, utc_now_iso,
}
use rusty_dhcp.Date.Days.{Dates, ymd_from_days-Dates}
use rusty_dhcp.Date.Text.{read_iso, read_iso-utc_now_iso}

-- The leap day of 2000, and the last day of the year before year 0.
leap_day : ymd_from_days (pos 11016) ≡ ok (pos 2000, 2, 29)
unfolding ymd_from_days i64 ◌+ℤ◌ ◌-ℤ◌ ◌*ℤ◌ quotient as_u64 era_of doe_of date_of yoe_of doy_of
    month_of day_of
leap_day = refl

before_zero : ymd_from_days (negsuc 719528) ≡ ok (negsuc 0, 12, 31)
unfolding ymd_from_days i64 ◌+ℤ◌ ◌-ℤ◌ ◌*ℤ◌ quotient as_u64 era_of doe_of date_of yoe_of doy_of
    month_of day_of
before_zero = refl

-- "2001-09-09T01:46:40"
abbrev billennium : Str
billennium =
    50 ∷ 48 ∷ 48 ∷ 49 ∷ 45 ∷ 48 ∷ 57 ∷ 45 ∷ 48 ∷ 57 ∷ 84 ∷ 48 ∷ 49 ∷ 58 ∷ 52 ∷ 54 ∷ 58 ∷ 52 ∷ 48
    ∷ []

billennium_text : utc_now_iso 1_000_000_000 ≡ ok billennium
unfolding utc_now_iso decimal pad two_digits four_digits ymd_from_days i64 ◌+ℤ◌ ◌-ℤ◌ ◌*ℤ◌ quotient
    as_u64 era_of doe_of date_of yoe_of doy_of month_of day_of
billennium_text = refl

ymd_from_days-Dates_example : Dates (negsuc 719528) (ymd_from_days (negsuc 719528))
ymd_from_days-Dates_example = ymd_from_days-Dates (negsuc 719528) (omega arith)

read_iso-utc_now_iso_example :
    (text : Str) × (utc_now_iso 1_000_000_000 ≡ ok text) × (read_iso text ≡ some 1_000_000_000)
read_iso-utc_now_iso_example = read_iso-utc_now_iso 1_000_000_000 (omega arith)
