-- ===== src/Config/Parse.antt =====
-- src/config.rs, `Config::parse`: the settings from the text of `dhcp.conf`. The functions of `str`
-- that depend on Unicode or that parse are parameters, in a record. The texts of the errors are
-- shortened: they do not name the key and the line.
pub mod Keys
pub mod Settings
use Prim.Native.String.{String}
use rusty_dhcp.Base.{
  ℕ, ◌+◌, ◌==◌, ◌++◌, Bool, true, false, not, ◌||◌, leb, List, [], ◌∷◌, Option, none, some, length,
  take, list_beq, if◌then◌else◌, Outcome, ok, err, panic, ◌>>=◌, ◌>>◌, require, ok_or,
}
use rusty_dhcp.Options.{Ipv4Addr, Str}
use rusty_dhcp.Server.{SocketAddr}
use rusty_dhcp.Dhcpv6.Pool.{Ipv6Addr}
use rusty_dhcp.Base.Split.{split}
use rusty_dhcp.Config
use rusty_dhcp.Config.{Config, validate}
use rusty_dhcp.Config.Duid.{parse_duid_hex}

-- What `str` provides.
pub record StrApi : Type 0 where
  pub lines : Str → List Str
  pub trim : Str → Str
  pub trim_end : Str → Str
  pub to_lowercase : Str → Str
  pub parse_ipv4 : Str → Option Ipv4Addr
  pub parse_ipv6 : Str → Option Ipv6Addr
  pub parse_u32 : Str → Option ℕ
  pub parse_u64 : Str → Option ℕ
  pub parse_socket : Str → Option SocketAddr

-- `line.find('=')`, and what is on both sides of it.
unfoldable pub split_at_eq : Str → Str → Option (Str × Str)
split_at_eq before [] = none
split_at_eq before (b ∷ text) =
    let rest = split_at_eq (before ++ (b ∷ [])) text in
    if b == 61 then some (before, text) else rest

abbrev pub starts_with : ℕ → Str → Bool
starts_with b [] = false
starts_with b (a ∷ text) = a == b

-- The text in front of the first " #".
unfoldable pub before_space_hash : Str → Str → Option Str
before_space_hash before [] = none
before_space_hash before (b ∷ text) =
    let rest = before_space_hash (before ++ (b ∷ [])) text in
    if b == 32 then (if starts_with 35 text then some before else rest) else rest

-- The text in front of the first tab, if a '#' follows that.
unfoldable pub before_tab_hash : Str → Str → Option Str
before_tab_hash before [] = none
before_tab_hash before (b ∷ text) =
    let rest = before_tab_hash (before ++ (b ∷ [])) text in
    if b == 9 then (if starts_with 35 text then some before else none) else rest

module _ (std : StrApi) where
  unfoldable pub strip_comment : Str → Str
  strip_comment value = elim (before_space_hash [] value) [
    | some text ↦ std.trim_end text
    | none ↦ elim (before_tab_hash [] value) [ some text ↦ std.trim_end text | none ↦ value ]
  ]

  unfoldable pub parse_bool : Str → Option Bool
  parse_bool text =
      let word = std.to_lowercase text in
      if list_beq word Keys.word_true
        || list_beq word Keys.word_yes
        || list_beq word Keys.word_on
        || list_beq word Keys.word_one
      then some true
      else if list_beq word Keys.word_false
          || list_beq word Keys.word_no
          || list_beq word Keys.word_off
          || list_beq word Keys.word_zero
      then some false
      else none

  -- `parse_ipv4_list` and `parse_ipv6_list`, by the parser of an address.
  unfoldable pub address_list : (Str → Option ℕ) → List Str → Outcome String (List ℕ)
  address_list parse [] = ok []
  address_list parse (part ∷ parts) = do
    a ← ok_or (parse (std.trim part)) "invalid list"
    rest ← address_list parse parts
    ok (a ∷ rest)

  -- The first address is the primary one, the others are extra.
  unfoldable pub set_broadcasts : Config → List Str → Outcome String Config
  set_broadcasts c [] = err "invalid IPv4 address"
  set_broadcasts c (first ∷ parts) = do
    a ← ok_or (std.parse_ipv4 (std.trim first)) "invalid IPv4 address"
    rest ← address_list std.parse_ipv4 parts
    ok (record c { broadcast_ip = a; extra_broadcast_ips = c.extra_broadcast_ips ++ rest })

  unfoldable pub apply : Config → Str → Str → Outcome String Config
  apply c key value =
      if list_beq key Keys.server_ip
      then (do
        x ← ok_or (std.parse_ipv4 value) "invalid IPv4 address"
        ok (record c { server_ip = x }))
      else if list_beq key Keys.ip_start
      then (do
        x ← ok_or (std.parse_ipv4 value) "invalid IPv4 address"
        ok (record c { ip_start = x }))
      else if list_beq key Keys.lease_num
      then (do x ← ok_or (std.parse_u32 value) "invalid u32"; ok (record c { lease_num = x }))
      else if list_beq key Keys.subnet_mask
      then (do
        x ← ok_or (std.parse_ipv4 value) "invalid IPv4 address"
        ok (record c { subnet_mask = x }))
      else if list_beq key Keys.router_ip
      then (do
        x ← ok_or (std.parse_ipv4 value) "invalid IPv4 address"
        ok (record c { router_ip = x }))
      else if list_beq key Keys.dns_ips
      then (do x ← address_list std.parse_ipv4 (split 44 value); ok (record c { dns_ips = x }))
      else if list_beq key Keys.enable_ntp
      then (do x ← ok_or (parse_bool value) "invalid bool"; ok (record c { enable_ntp = x }))
      else if list_beq key Keys.ntp_ips
      then (do x ← address_list std.parse_ipv4 (split 44 value); ok (record c { ntp_ips = x }))
      else if list_beq key Keys.enable_rapid_commit
      then (do
        x ← ok_or (parse_bool value) "invalid bool"
        ok (record c { enable_rapid_commit = x }))
      else if list_beq key Keys.broadcast_ip
      then set_broadcasts c (split 44 value)
      else if list_beq key Keys.extra_broadcast_ips
      then (do
        x ← address_list std.parse_ipv4 (split 44 value)
        ok (record c { extra_broadcast_ips = c.extra_broadcast_ips ++ x }))
      else if list_beq key Keys.lease_duration_secs
      then (do
        x ← ok_or (std.parse_u32 value) "invalid u32"
        ok (record c { lease_duration_secs = x }))
      else if list_beq key Keys.leases_file
      then ok (record c { leases_file = value })
      else if list_beq key Keys.listen_addr
      then (do
        x ← ok_or (std.parse_socket value) "invalid socket address"
        ok (record c { listen_addr = x }))
      else if list_beq key Keys.enable_dhcpv6
      then (do x ← ok_or (parse_bool value) "invalid bool"; ok (record c { enable_dhcpv6 = x }))
      else if list_beq key Keys.server_duid
      then (do x ← parse_duid_hex value; ok (record c { server_duid = x }))
      else if list_beq key Keys.ipv6_start
      then (do
        x ← ok_or (std.parse_ipv6 value) "invalid IPv6 address"
        ok (record c { ipv6_start = x }))
      else if list_beq key Keys.ipv6_lease_num
      then (do x ← ok_or (std.parse_u64 value) "invalid u64"; ok (record c { ipv6_lease_num = x }))
      else if list_beq key Keys.ipv6_dns
      then (do x ← address_list std.parse_ipv6 (split 44 value); ok (record c { ipv6_dns = x }))
      else if list_beq key Keys.ipv6_lease_duration_secs
      then (do
        x ← ok_or (std.parse_u32 value) "invalid u32"
        ok (record c { ipv6_lease_duration_secs = x }))
      else if list_beq key Keys.leases_file_v6
      then ok (record c { leases_file_v6 = value })
      else if list_beq key Keys.listen_addr_v6
      then (do
        x ← ok_or (std.parse_socket value) "invalid socket address"
        ok (record c { listen_addr_v6 = x }))
      else ok c

  -- A line that says something.
  unfoldable pub apply_line : Config → Str → Outcome String Config
  apply_line c line = do
    (before, after) ← ok_or (split_at_eq [] line) "expected `key = value`"
    require (not (leb (length (std.to_lowercase (std.trim before))) 0)) "empty key"
    require (not (leb (length (strip_comment (std.trim after))) 0)) "empty value"
    apply c (std.to_lowercase (std.trim before)) (strip_comment (std.trim after))

  -- A blank line or a comment.
  unfoldable pub is_blank : Str → Bool
  is_blank line = leb (length line) 0 || starts_with 35 line || starts_with 59 line

  unfoldable pub apply_lines : Config → List Str → Outcome String Config
  apply_lines c [] = ok c
  apply_lines c (raw ∷ lines) = do
    c' ← if is_blank (std.trim raw) then ok c else apply_line c (std.trim raw)
    apply_lines c' lines

  unfoldable pub parse : Str → Outcome String Config
  parse text = do c ← apply_lines Config.defaults (std.lines text); validate c

  -- The settings of `main`: those of the file, or the defaults if it cannot be read or parsed.
  unfoldable pub settings : Option Str → Config
  settings none = Config.defaults
  settings (some text) = elim (parse text) [
    | ok c ↦ c
    | err e ↦ Config.defaults
    | panic ↦ Config.defaults
  ]
