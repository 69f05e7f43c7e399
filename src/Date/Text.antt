-- ===== src/Date/Text.antt =====
-- src/main.rs, `utc_now_iso`: the text of the log can be read back.
use mathlib.Core.List.{append-nil}
use rusty_dhcp.Base.{
  ℕ, zero, suc, ◌+◌, ◌-◌, ◌*◌, ◌/◌, ◌%◌, ◌≤◌, ◌<◌, ◌≡◌, refl, ap, sym, ◌∙◌, inl, inr, true, ◌&&◌,
  [], ◌∷◌, ◌++◌, Option, none, some, ltb, leb, ◌==◌, if◌then◌else◌, arith, Bool-cases, ltb→lt,
  lt→ltb, le→ltb, ltb_false→le, ok,
}
use rusty_dhcp.Base.Int.{pos}
use rusty_dhcp.Options.{Str}
use rusty_dhcp.Date.{decimal, pad, two_digits, four_digits, utc_now_iso}
use rusty_dhcp.Date.Calendar.{days_in_month, days_after}
use rusty_dhcp.Date.Days.{epoch, ymd_from_days-since}
use rusty_dhcp.Date.Count.{is_date, day_number, Counted, days_after-Counted, Counted-year}

-- Readers of the front of a text.
abbrev Reader : Type 0 → Type 0
Reader A = Str → Option (A × Str)

-- `k` decimal digits, after those of `acc`.
unfoldable pub read_digits : ℕ → ℕ → Reader ℕ
read_digits zero acc s = some (acc, s)
read_digits (suc k) acc [] = none
read_digits (suc k) acc (c ∷ s) =
    if leb 48 c && leb c 57 then read_digits k (acc * 10 + (c - 48)) s else none

-- A number of `k` digits and the character behind it.
unfoldable pub read_field : ℕ → ℕ → Reader ℕ
read_field k c s = elim (read_digits k 0 s) [
  | some (n, x ∷ rest) ↦ if x == c then some (n, rest) else none
  | some (n, []) ↦ none
  | none ↦ none
]

digit_step :
    (k acc v : ℕ) (s : Str)
    → v < 10
    → read_digits (suc k) acc ((48 + v) ∷ s) ≡ read_digits k (acc * 10 + v) s
unfolding read_digits
digit_step k acc v s h = ground arith

decimal_last : (f n : ℕ) → n < 10 → decimal (suc f) n ≡ (48 + n) ∷ []
unfolding decimal
decimal_last f n h = rw (lt→ltb n 10 h) refl

decimal_more : (f n : ℕ) → 10 ≤ n → decimal (suc f) n ≡ decimal f (n / 10) ++ ((48 + n % 10) ∷ [])
unfolding decimal
decimal_more f n h = rw (le→ltb n 10 h) refl

read_done : (n m : ℕ) (s : Str) → n ≡ m → read_digits 0 n s ≡ some (m, s)
unfolding read_digits
read_done n m s e = rw e refl

two_digits_lem : (n : ℕ) → n < 100 → two_digits n ≡ (48 + n / 10) ∷ (48 + n % 10) ∷ []
unfolding two_digits pad
two_digits_lem n h = elim (Bool-cases (ltb n 10)) [
  | inl t ↦ let lt : n < 10 = ltb→lt n 10 t in rw (decimal_last 19 n lt) (ground arith)
  | inr f ↦
      rw (decimal_more 19 n (ltb_false→le n 10 f), decimal_last 18 (n / 10) (omega arith)) refl
]

four_digits_lem :
    (n : ℕ)
    → n < 10000
    → four_digits (pos n)
      ≡ (48 + n / 1000) ∷ (48 + n / 100 % 10) ∷ (48 + n / 10 % 10) ∷ (48 + n % 10) ∷ []
unfolding four_digits pad
four_digits_lem n h = elim (Bool-cases (ltb n 10)) [
  | inl t ↦ let lt : n < 10 = ltb→lt n 10 t in rw (decimal_last 19 n lt) (ground arith)
  | inr f ↦ rw (decimal_more 19 n (ltb_false→le n 10 f)) (elim (Bool-cases (ltb (n / 10) 10)) [
    | inl t ↦ rw (decimal_last 18 (n / 10) (ltb→lt _ _ t)) (ground arith)
    | inr g ↦
        rw (decimal_more 18 (n / 10) (ltb_false→le _ _ g))
          (elim (Bool-cases (ltb (n / 10 / 10) 10)) [
            | inl t ↦ rw (decimal_last 17 (n / 10 / 10) (ltb→lt _ _ t)) (ground arith)
            | inr k ↦
                rw
                  (
                    decimal_more 17 (n / 10 / 10) (ltb_false→le _ _ k),
                    decimal_last 16 (n / 10 / 10 / 10) (omega arith),
                  )
                  (ground arith)
          ])
  ])
]

read_two : (n : ℕ) (s : Str) → n < 100 → read_digits 2 0 (two_digits n ++ s) ≡ some (n, s)
read_two n s h =
    ap (λ t. read_digits 2 0 (t ++ s)) (two_digits_lem n h)
    ∙ digit_step 1 0 (n / 10) ((48 + n % 10) ∷ s) (omega arith)
    ∙ digit_step 0 (0 * 10 + n / 10) (n % 10) s (omega arith)
    ∙ read_done ((0 * 10 + n / 10) * 10 + n % 10) n s (omega arith)

read_four : (n : ℕ) (s : Str) → n < 10000 → read_digits 4 0 (four_digits (pos n) ++ s) ≡ some (n, s)
read_four n s h =
    ap (λ t. read_digits 4 0 (t ++ s)) (four_digits_lem n h)
    ∙ digit_step 3 0 (n / 1000) _ (omega arith)
    ∙ digit_step 2 _ (n / 100 % 10) _ (omega arith)
    ∙ digit_step 1 _ (n / 10 % 10) _ (omega arith)
    ∙ digit_step 0 _ (n % 10) s (omega arith)
    ∙ read_done ((((0 * 10 + n / 1000) * 10 + n / 100 % 10) * 10 + n / 10 % 10) * 10 + n % 10) n s
        (omega arith)

read_field-eq :
    (k n c : ℕ) (s t : Str) → read_digits k 0 s ≡ some (n, c ∷ t) → read_field k c s ≡ some (n, t)
unfolding read_field
read_field-eq k n c s t h = rw (h, read_field) (ground arith)

-- The next step of a reader, if there is something to read.
unfoldable pub then_read : Option (ℕ × Str) → (ℕ → Str → Option ℕ) → Option ℕ
then_read none next = none
then_read (some (n, s)) next = next n s

then_some :
    {o : Option (ℕ × Str)} {n : ℕ} {t : Str} {r : Option ℕ} (next : ℕ → Str → Option ℕ)
    → o ≡ some (n, t)
    → next n t ≡ r
    → then_read o next ≡ r
unfolding then_read
then_some next e f = rw (e, then_read) f

-- The seconds from the epoch on to a time of a date, if there is such a time and nothing follows it.
unfoldable pub seconds_at : ℕ → ℕ → ℕ → ℕ → ℕ → ℕ → Str → Option ℕ
seconds_at y m d h min sec [] =
    if is_date y m d && ltb h 24 && ltb min 60 && ltb sec 60
    then some (day_number y m d * 86400 + h * 3600 + min * 60 + sec)
    else none
seconds_at y m d h min sec (c ∷ s) = none

-- `YYYY-MM-DDTHH:MM:SS`, of a time since 1970.
unfoldable pub read_iso : Str → Option ℕ
read_iso s = then_read (read_field 4 45 s) λ y s. then_read (read_field 2 45 s) λ m s.
    then_read (read_field 2 84 s) λ d s. then_read (read_field 2 58 s) λ h s.
      then_read (read_field 2 58 s)
        λ min s. then_read (read_digits 2 0 s) λ sec s. seconds_at y m d h min sec s

-- The text of a time, field by field.
unfoldable pub iso : ℕ → ℕ → ℕ → ℕ → ℕ → ℕ → Str
iso y m d h min sec =
    four_digits (pos y)
    ++ (45
        ∷ (two_digits m
            ++ (45
                ∷ (two_digits d
                    ++ (84 ∷ (two_digits h ++ (58 ∷ (two_digits min ++ (58 ∷ two_digits sec)))))))))

read_iso-iso :
    (y m d h min sec : ℕ)
    → y < 10000
    → m < 100
    → d < 100
    → h < 100
    → min < 100
    → sec < 100
    → read_iso (iso y m d h min sec) ≡ seconds_at y m d h min sec []
unfolding read_iso iso
read_iso-iso y m d h min sec hy hm hd hh hmin hsec =
    then_some _ (read_field-eq 4 y 45 _ _ (read_four y _ hy)) (
      then_some _ (read_field-eq 2 m 45 _ _ (read_two m _ hm)) (
        then_some _ (read_field-eq 2 d 84 _ _ (read_two d _ hd)) (
          then_some _ (read_field-eq 2 h 58 _ _ (read_two h _ hh)) (
            then_some _ (read_field-eq 2 min 58 _ _ (read_two min _ hmin)) (
              then_some _
                (ap (read_digits 2 0) (sym (append-nil (two_digits sec))) ∙ read_two sec [] hsec)
                refl)))))

-- What the text of a time is.
iso-seconds :
    (y m d t : ℕ)
    → is_date y m d ≡ true
    → t < 86400
    → seconds_at y m d (t / 3600) (t % 3600 / 60) (t % 60) [] ≡ some (day_number y m d * 86400 + t)
unfolding seconds_at
iso-seconds y m d t v h = rw v (ground arith)

is_date_bounds : (y m d : ℕ) → is_date y m d ≡ true → (m < 100) × (d < 100)
unfolding is_date days_in_month
is_date_bounds y m d v = ground arith

-- Before the year 10000 `utc_now_iso` does not fail, and its text denotes the time that it is given:
-- it has four digits for a year and two each for a month, a day of the calendar and an hour, a minute
-- and a second, from which the seconds since 1970 come out.
pub read_iso-utc_now_iso :
    (secs : ℕ)
    → secs < 253_402_300_800
    → (text : Str) × (utc_now_iso secs ≡ ok text) × (read_iso text ≡ some secs)
unfolding utc_now_iso
read_iso-utc_now_iso secs h = (
  iso c.y c.m c.d (t / 3600) (t % 3600 / 60) (t % 60),
  rw (ymd_from_days-since n (omega arith) ∙ ap (λ x. ok x) c.is) (unfold iso in refl),
  read_iso-iso c.y c.m c.d (t / 3600) (t % 3600 / 60) (t % 60) (Counted-year n _ c (omega arith))
        (is_date_bounds c.y c.m c.d c.valid).0 (is_date_bounds c.y c.m c.d c.valid).1 (omega arith)
        (omega arith) (omega arith)
      ∙ iso-seconds c.y c.m c.d t c.valid (omega arith)
      ∙ ap (λ x. some x) (omega (arith, c.number)),
)
  where
    n : ℕ
    n = secs / 86400

    t : ℕ
    t = secs % 86400

    c : Counted n (days_after n epoch)
    c = days_after-Counted n
