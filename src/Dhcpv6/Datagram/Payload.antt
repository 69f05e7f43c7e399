-- ===== src/Dhcpv6/Datagram/Payload.antt =====
-- src/dhcpv6.rs: the payload that an option is written with decodes to the option.
mod Bytes
use mathlib.Core.List.{append_assoc}
use rusty_dhcp.Base.{
  ℕ, ◌/◌, ◌%◌, ◌^◌, ◌<◌, ◌≡◌, ◌≢◌, refl, ◌∙◌, true, false, List, [], ◌++◌, arith, length,
  length-append, ltb, le→ltb, ne→==, All, ok, ◌==◌,
}
use rusty_dhcp.Base.Bytes.{to_be, from_be-to_be, length-to_be}
use rusty_dhcp.Base.Utf8.{is_utf8}
use rusty_dhcp.Dhcpv6.Codes
use rusty_dhcp.Dhcpv6.Codec.{IaNa, RawDhcpv6Option, Dhcpv6Option, extend_pieces, to_raw6}
use rusty_dhcp.Dhcpv6.Codec.Wire.{extend_pieces-subs}
use rusty_dhcp.Dhcpv6.Datagram.Ranges.{decode_status_lem}
use rusty_dhcp.Dhcpv6.Datagram.{decode_payload6}
use rusty_dhcp.Dhcpv6.Datagram.Payload.Bytes.{
  iana_bytes, decode_iana-bytes, length-ips_bytes, front, behind, decode_ips-bytes,
  extend_subs-subs, extend_ips-bytes,
}
pub use rusty_dhcp.Dhcpv6.Datagram.Payload.Bytes.{IsBinding, IsIaNa}
unfoldable pub use rusty_dhcp.Dhcpv6.Datagram.Payload.Bytes.{subs, ips_bytes}

raw_iana :
    (ia : IaNa)
    → extend_pieces ia.addrs ((to_be 4 ia.iaid ++ to_be 4 ia.t1) ++ to_be 4 ia.t2) ≡ iana_bytes ia
raw_iana ia =
    extend_pieces-subs ia.addrs _
    ∙ extend_subs-subs ia.addrs _
    ∙ append_assoc (to_be 4 ia.iaid ++ to_be 4 ia.t1) (to_be 4 ia.t2) (subs ia.addrs)
    ∙ append_assoc (to_be 4 ia.iaid) (to_be 4 ia.t1) (to_be 4 ia.t2 ++ subs ia.addrs)

-- A code that `decode_option` keeps as an unrecognised option.
pub record IsUntyped6 (c : ℕ) : Type 0 where
  pub fits : c < 2 ^ 16
  pub not_clientid : c ≢ Codes.opt_clientid
  pub not_serverid : c ≢ Codes.opt_serverid
  pub not_ia_na : c ≢ Codes.opt_ia_na
  pub not_dns_servers : c ≢ Codes.opt_dns_servers
  pub not_status_code : c ≢ Codes.opt_status_code

-- An option whose numbers fit their widths, whose text is UTF-8 and whose code is its own.
abbrev pub IsReadable6 : Dhcpv6Option → Type 0
IsReadable6 (Dhcpv6Option.client_id d) = Unit {0}
IsReadable6 (Dhcpv6Option.server_id d) = Unit {0}
IsReadable6 (Dhcpv6Option.ia_na ia) = IsIaNa ia
IsReadable6 (Dhcpv6Option.dns_servers ips) = All (λ ip. ip < 2 ^ 128) ips
IsReadable6 (Dhcpv6Option.status_code c m) = (c < 2 ^ 16) × (is_utf8 m ≡ true)
IsReadable6 (Dhcpv6Option.unrecognized r) = IsUntyped6 r.code

status_bytes :
    (c : ℕ) (m : List ℕ)
    → c < 2 ^ 16
    → is_utf8 m ≡ true
    → decode_payload6 Codes.opt_status_code (to_be 2 c ++ m) ≡ ok (Dhcpv6Option.status_code c m)
status_bytes c m h u =
    let room : ltb (length (to_be 2 c ++ m)) 2 ≡ false =
      le→ltb _ 2 (omega (arith, length-append (to_be 2 c) m, length-to_be 2 c)) in
    rw (decode_status_lem (to_be 2 c ++ m), room, behind 2 c m, u, front 2 c m, from_be-to_be 2 c h)

dns_bytes :
    (ips : List ℕ)
    → All (λ ip. ip < 2 ^ 128) ips
    → decode_payload6 Codes.opt_dns_servers (ips_bytes ips) ≡ ok (Dhcpv6Option.dns_servers ips)
unfolding decode_payload6
dns_bytes ips h =
    let whole : (length (ips_bytes ips) % 16 == 0) ≡ true = ground (arith, length-ips_bytes ips) in
    let count : length (ips_bytes ips) / 16 ≡ length ips = omega (arith, length-ips_bytes ips) in
    rw (whole, count, decode_ips-bytes ips h)

untyped_bytes :
    (r : RawDhcpv6Option)
    → IsUntyped6 r.code
    → decode_payload6 r.code r.bytes ≡ ok (Dhcpv6Option.unrecognized r)
unfolding decode_payload6
untyped_bytes r h = rw (
  ne→== r.code Codes.opt_clientid h.not_clientid,
  ne→== r.code Codes.opt_serverid h.not_serverid,
  ne→== r.code Codes.opt_ia_na h.not_ia_na,
  ne→== r.code Codes.opt_dns_servers h.not_dns_servers,
  ne→== r.code Codes.opt_status_code h.not_status_code,
)

pub decode_payload6-to_raw6 :
    (o : Dhcpv6Option) → IsReadable6 o → decode_payload6 (to_raw6 o).code (to_raw6 o).bytes ≡ ok o
unfolding to_raw6 decode_payload6
decode_payload6-to_raw6 (Dhcpv6Option.client_id d) h = refl
decode_payload6-to_raw6 (Dhcpv6Option.server_id d) h = refl
decode_payload6-to_raw6 (Dhcpv6Option.ia_na ia) h = rw (raw_iana ia, decode_iana-bytes ia h)
decode_payload6-to_raw6 (Dhcpv6Option.dns_servers ips) h =
    rw (extend_ips-bytes ips []) (dns_bytes ips h)
decode_payload6-to_raw6 (Dhcpv6Option.status_code c m) h = status_bytes c m h.0 h.1
decode_payload6-to_raw6 (Dhcpv6Option.unrecognized r) h = untyped_bytes r h

pub code_fits : (o : Dhcpv6Option) → IsReadable6 o → (to_raw6 o).code < 2 ^ 16
unfolding to_raw6
code_fits (Dhcpv6Option.client_id d) h = omega arith
code_fits (Dhcpv6Option.server_id d) h = omega arith
code_fits (Dhcpv6Option.ia_na ia) h = omega arith
code_fits (Dhcpv6Option.dns_servers ips) h = omega arith
code_fits (Dhcpv6Option.status_code c m) h = omega arith
code_fits (Dhcpv6Option.unrecognized r) h = h.fits
