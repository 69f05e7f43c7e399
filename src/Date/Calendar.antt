-- ===== src/Date/Calendar.antt =====
-- The Gregorian calendar, by its leap years and the lengths of its months.
use rusty_dhcp.Base.{ℕ, zero, suc, ◌+◌, ◌%◌, Bool, not, ◌&&◌, ◌||◌, ltb, ◌==◌, if◌then◌else◌}
use rusty_dhcp.Base.Int.{ℤ, pos, negsuc, ◌+ℤ◌}
use rusty_dhcp.Date.{Date}

-- `k` divides the integer.
abbrev pub divides : ℕ → ℤ → Bool
divides k (pos n) = n % k == 0
divides k (negsuc n) = (n + 1) % k == 0

unfoldable pub is_leap : ℤ → Bool
is_leap y = divides 4 y && not (divides 100 y) || divides 400 y

unfoldable pub days_in_month : ℤ → ℕ → ℕ
days_in_month y m =
    if m == 2
    then (if is_leap y then 29 else 28)
    else if m == 4 || m == 6 || m == 9 || m == 11
    then 30
    else 31

unfoldable pub next_day : Date → Date
next_day (y, m, d) =
    if ltb d (days_in_month y m)
    then (y, m, d + 1)
    else if ltb m 12
    then (y, m + 1, 1)
    else (y +ℤ pos 1, 1, 1)

unfoldable pub days_after : ℕ → Date → Date
days_after zero t = t
days_after (suc n) t = next_day (days_after n t)
