-- ===== src/Config/Duid.antt =====
-- src/config.rs, `parse_duid_hex`, and src/main.rs, `chaddr`: byte strings written in hexadecimal.
use Prim.Native.String.{String}
use mathlib.Core.List.{append_assoc, append-nil}
use rusty_dhcp.Base.{
  ℕ, ◌+◌, ◌-◌, ◌*◌, ◌/◌, ◌%◌, ◌<◌, ◌≡◌, refl, sym, ap, ◌∙◌, Bool, true, false, ◌&&◌, ◌||◌, List, [],
  ◌∷◌, ◌++◌, Option, none, some, ◌==◌, ltb, leb, if◌then◌else◌, Outcome, ok, err, panic, ◌>>=◌,
  ok_or, arith, All,
}
use rusty_dhcp.Options.{Str}

unfoldable pub hex_val : ℕ → Option ℕ
hex_val b =
    if leb 48 b && leb b 57
    then some (b - 48)
    else if leb 97 b && leb b 102
    then some (b - 97 + 10)
    else if leb 65 b && leb b 70
    then some (b - 65 + 10)
    else none

-- A colon, a dash, a space or a tab.
unfoldable pub is_separator : ℕ → Bool
is_separator c = c == 58 || c == 45 || c == 32 || c == 9

-- A digit completes the byte that waits for it, or waits itself. `(h << 4) | v`, where `v` has four
-- bits, is a sum; `h << 4` fits a byte.
unfoldable pub add_digit : Option ℕ → ℕ → List ℕ → Option ℕ × List ℕ
add_digit (some h) v out = (none, out ++ ((h * 16 + v) ∷ []))
add_digit none v out = (some v, out)

-- The loop over the characters.
unfoldable pub hex_loop : List ℕ → Option ℕ → List ℕ → Outcome String (Option ℕ × List ℕ)
hex_loop [] hi out = ok (hi, out)
hex_loop (c ∷ bytes) hi out = elim (is_separator c) [
  | true ↦ hex_loop bytes hi out
  | false ↦ do
    v ← ok_or (hex_val c) "invalid hex"
    hex_loop bytes (add_digit hi v out).0 (add_digit hi v out).1
]

-- The bytes, if there are any and no digit is left over.
unfoldable pub whole_bytes : Option ℕ × List ℕ → Outcome String (List ℕ)
whole_bytes (some h, out) = err "odd-length hex"
whole_bytes (none, []) = err "odd-length hex"
whole_bytes (none, b ∷ out) = ok (b ∷ out)

-- The texts of the errors are shortened: they do not quote the input.
unfoldable pub parse_duid_hex : Str → Outcome String (List ℕ)
parse_duid_hex s = do found ← hex_loop s none []; whole_bytes found

-- The lower-case digit of a number below 16.
unfoldable pub hex_digit : ℕ → ℕ
hex_digit v = if ltb v 10 then 48 + v else 87 + v

-- `{:02x}`
unfoldable pub hex_pair : ℕ → Str
hex_pair b = hex_digit (b / 16) ∷ hex_digit (b % 16) ∷ []

-- The `fold` of `chaddr`.
unfoldable pub colon_pairs : List ℕ → Str
colon_pairs [] = []
colon_pairs (b ∷ bytes) = 58 ∷ (hex_pair b ++ colon_pairs bytes)

-- An empty slice has no byte 0 and no tail from byte 1 on.
unfoldable pub chaddr : List ℕ → Outcome String Str
chaddr [] = panic
chaddr (a ∷ bytes) = ok (hex_pair a ++ colon_pairs bytes)

hex_val-hex_digit : (v : ℕ) → v < 16 → hex_val (hex_digit v) ≡ some v
unfolding hex_val hex_digit
hex_val-hex_digit v h = ground arith

is_separator-hex_digit : (v : ℕ) → v < 16 → is_separator (hex_digit v) ≡ false
unfolding is_separator hex_digit
is_separator-hex_digit v h = ground arith

digit_step :
    (v : ℕ) (bytes : List ℕ) (hi : Option ℕ) (out : List ℕ)
    → v < 16
    → hex_loop (hex_digit v ∷ bytes) hi out
      ≡ hex_loop bytes (add_digit hi v out).0 (add_digit hi v out).1
unfolding hex_loop
digit_step v bytes hi out h =
    rw (is_separator-hex_digit v h, hex_loop) (rw (hex_val-hex_digit v h) refl)

pair_byte : (b : ℕ) → b / 16 * 16 + b % 16 ≡ b
pair_byte b = omega arith

pair_step :
    (b : ℕ) (bytes : List ℕ) (out : List ℕ)
    → b < 256
    → hex_loop (hex_pair b ++ bytes) none out ≡ hex_loop bytes none (out ++ (b ∷ []))
unfolding hex_pair add_digit
pair_step b bytes out h =
    digit_step (b / 16) (hex_digit (b % 16) ∷ bytes) none out (omega arith)
    ∙ digit_step (b % 16) bytes (some (b / 16)) out (omega arith)
    ∙ ap (λ x. hex_loop bytes none (out ++ (x ∷ []))) (pair_byte b)

colon_step : (bytes out : List ℕ) → hex_loop (58 ∷ bytes) none out ≡ hex_loop bytes none out
unfolding hex_loop is_separator
colon_step bytes out = refl

colon_pairs_step :
    (bytes : List ℕ) (out : List ℕ)
    → All (λ b. b < 256) bytes
    → hex_loop (colon_pairs bytes) none out ≡ ok (none, out ++ bytes)
unfolding colon_pairs
colon_pairs_step [] out h = unfold hex_loop in ap (λ x. ok (none, x)) (sym (append-nil out))
colon_pairs_step (b ∷ bytes) out h =
    colon_step (hex_pair b ++ colon_pairs bytes) out
    ∙ pair_step b (colon_pairs bytes) out h.0
    ∙ colon_pairs_step bytes (out ++ (b ∷ [])) h.1
    ∙ ap (λ x. ok (none, x)) (append_assoc out (b ∷ []) bytes)

-- The text that `chaddr` writes for a nonempty byte string is read back by `parse_duid_hex`.
pub parse_duid_hex-chaddr :
    (a : ℕ) (bytes : List ℕ)
    → All (λ b. b < 256) (a ∷ bytes)
    → (text : Str) × (chaddr (a ∷ bytes) ≡ ok text) × (parse_duid_hex text ≡ ok (a ∷ bytes))
unfolding chaddr parse_duid_hex
parse_duid_hex-chaddr a bytes h = (
  hex_pair a ++ colon_pairs bytes,
  refl,
  rw (pair_step a (colon_pairs bytes) [] h.0 ∙ colon_pairs_step bytes (a ∷ []) h.1)
      (unfold whole_bytes in refl),
)
