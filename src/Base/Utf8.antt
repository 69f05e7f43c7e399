-- ===== src/Base/Utf8.antt =====
-- `str::from_utf8` of the standard library: the byte sequences that it accepts.
use rusty_dhcp.Base.Tests.{ltb, leb, ◌==◌, if◌then◌else◌}
use Prim.Native.Nat.{ℕ, zero, suc}
use mathlib.Core.Bool.{Bool, true, false, ◌&&◌}
use mathlib.Core.List.{List, [], ◌∷◌}

-- How many continuation bytes are awaited, and the range of the next one.
pub record Utf8State : Type 0 where
  pub valid : Bool
  pub awaited : ℕ
  pub low : ℕ
  pub high : ℕ

abbrev between : ℕ → ℕ → ℕ → Bool
between lo hi b = leb lo b && leb b hi

-- The first byte of a character. Overlong forms, surrogates and numbers above 10FFFF are out.
pub utf8_lead : ℕ → Utf8State
utf8_lead b =
    if ltb b 0x80
    then record { valid = true; awaited = 0; low = 0; high = 0 }
    else if between 0xc2 0xdf b
    then record { valid = true; awaited = 1; low = 0x80; high = 0xbf }
    else if b == 0xe0
    then record { valid = true; awaited = 2; low = 0xa0; high = 0xbf }
    else if b == 0xed
    then record { valid = true; awaited = 2; low = 0x80; high = 0x9f }
    else if between 0xe1 0xef b
    then record { valid = true; awaited = 2; low = 0x80; high = 0xbf }
    else if b == 0xf0
    then record { valid = true; awaited = 3; low = 0x90; high = 0xbf }
    else if b == 0xf4
    then record { valid = true; awaited = 3; low = 0x80; high = 0x8f }
    else if between 0xf1 0xf3 b
    then record { valid = true; awaited = 3; low = 0x80; high = 0xbf }
    else record { valid = false; awaited = 0; low = 0; high = 0 }

pub utf8_next : Utf8State → ℕ → ℕ → Utf8State
unfolding utf8_lead
utf8_next s zero b = utf8_lead b
utf8_next s (suc n) b = record {
  valid = between s.low s.high b;
  awaited = n;
  low = 0x80;
  high = 0xbf;
}

pub utf8_run : Utf8State → List ℕ → Bool
unfolding utf8_next
utf8_run s [] = s.valid && s.awaited == 0
utf8_run s (b ∷ bs) = s.valid && utf8_run (utf8_next s s.awaited b) bs

-- `str::from_utf8(bytes).is_ok()`.
unfoldable pub is_utf8 : List ℕ → Bool
unfolding utf8_run
is_utf8 bs = utf8_run (record { valid = true; awaited = 0; low = 0; high = 0 }) bs
