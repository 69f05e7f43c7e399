-- ===== src/Config/Tests.antt =====
-- src/config.rs: the properties of the settings at concrete inputs.
use rusty_dhcp.Base.{ℕ, ◌-◌, ◌++◌, Option, none, some, ◌≡◌, [], ◌∷◌, ◌==◌, ◌||◌, ok, List, arith}
use rusty_dhcp.Config.{Config, defaults, broadcasts, is_in}
use rusty_dhcp.Config.Duid.{chaddr, parse_duid_hex, parse_duid_hex-chaddr}
use rusty_dhcp.Options.{Str}
use rusty_dhcp.Config.Parse.{StrApi, settings}
use rusty_dhcp.Config.Parse.Keys.{lease_num}
use rusty_dhcp.Config.Parse.Settings.{settings-IsValid}
use rusty_dhcp.Config.Valid.{IsValid, Distinct, broadcasts-Distinct}

-- The primary address stands among the extra ones again.
abbrev two_nets : Config
two_nets = record defaults { broadcast_ip = 255; extra_broadcast_ips = 511 ∷ 255 ∷ 511 ∷ [] }

broadcasts-Distinct_example :
    Distinct (broadcasts two_nets)
    × ((a : ℕ)
        → is_in a (broadcasts two_nets)
          ≡ two_nets.broadcast_ip == a || is_in a two_nets.extra_broadcast_ips)
broadcasts-Distinct_example = broadcasts-Distinct two_nets

parse_duid_hex-chaddr_example :
    (text : List ℕ) × (chaddr (0 ∷ 94 ∷ 255 ∷ []) ≡ ok text)
    × (parse_duid_hex text ≡ ok (0 ∷ 94 ∷ 255 ∷ []))
parse_duid_hex-chaddr_example =
    parse_duid_hex-chaddr 0 (94 ∷ 255 ∷ []) (omega arith, (omega arith, (omega arith, tt)))

-- Texts of one line without spaces, and numbers of one digit.
abbrev one_digit : Str → Option ℕ
one_digit (b ∷ []) = some (b - 48)
one_digit text = none

abbrev plain : StrApi
plain = record {
  lines = λ text. text ∷ [];
  trim = λ text. text;
  trim_end = λ text. text;
  to_lowercase = λ text. text;
  parse_ipv4 = one_digit;
  parse_ipv6 = one_digit;
  parse_u32 = one_digit;
  parse_u64 = one_digit;
  parse_socket = λ text. none;
}

-- "lease_num=7"
abbrev seven : Str
seven = lease_num ++ (61 ∷ 55 ∷ [])

settings-IsValid_example : IsValid (settings plain (some seven))
settings-IsValid_example = settings-IsValid plain (some seven)
