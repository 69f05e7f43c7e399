-- ===== src/Packet/RoundTrip/Options.antt =====
-- src/packet.rs and src/options.rs: an option, as code, length and payload, decodes to itself.
use rusty_dhcp.Base.{
  ℕ, ◌^◌, ◌<◌, ◌≡◌, refl, sym, ap, ◌∙◌, true, false, List, [], ◌∷◌, ◌++◌, arith, length, take, drop,
  ◌==◌, ltb, ok, length-append, drop-append, take-append, ◌≢◌, le→ltb, All, some,
}
use rusty_dhcp.Base.Bytes.{to_be, from_be-to_be, length-to_be}
use rusty_dhcp.Base.Utf8.{is_utf8}
use rusty_dhcp.Options.{
  Ipv4Addr, octets, MessageType, discriminant, from_option, DhcpOption, to_raw,
}
use rusty_dhcp.Options.Codes
use rusty_dhcp.Packet.Ranges.{ipv4_of_lem, lease_time_of_lem, decode_option_lem}
use rusty_dhcp.Packet.{
  end, decode_payload, decode_option, at_end, message_type_of, ipv4_of, utf8_of, lease_time_of,
}
use rusty_dhcp.Packet.Encode.{tlv, tlvs}
use rusty_dhcp.Packet.Decode.{Reads}
use mathlib.Core.List.{append_assoc, append-nil}

-- A code that `decode_option` keeps as an unrecognised option.
pub record IsUntyped (c : ℕ) : Type 0 where
  pub not_end : c ≢ end
  pub not_message_type : c ≢ Codes.dhcp_message_type
  pub not_parameter_request_list : c ≢ Codes.parameter_request_list
  pub not_server_identifier : c ≢ Codes.server_identifier
  pub not_requested_ip_address : c ≢ Codes.requested_ip_address
  pub not_host_name : c ≢ Codes.host_name
  pub not_router : c ≢ Codes.router
  pub not_domain_name_server : c ≢ Codes.domain_name_server
  pub not_lease_time : c ≢ Codes.ip_address_lease_time
  pub not_subnet_mask : c ≢ Codes.subnet_mask
  pub not_message : c ≢ Codes.message

-- An option that the decoder reads back: addresses and times are 32 bits, texts are UTF-8, and it
-- is no Router or Domain Name Server option, which `decode_option` always refuses.
abbrev pub IsReadable : DhcpOption → Type 0
IsReadable (DhcpOption.dhcp_message_type m) = Unit {0}
IsReadable (DhcpOption.server_identifier a) = a < 2 ^ 32
IsReadable (DhcpOption.parameter_request_list p) = Unit {0}
IsReadable (DhcpOption.requested_ip_address a) = a < 2 ^ 32
IsReadable (DhcpOption.host_name s) = is_utf8 s ≡ true
IsReadable (DhcpOption.router addrs) = ⊥
IsReadable (DhcpOption.domain_name_server addrs) = ⊥
IsReadable (DhcpOption.ip_address_lease_time s) = s < 2 ^ 32
IsReadable (DhcpOption.subnet_mask a) = a < 2 ^ 32
IsReadable (DhcpOption.message s) = is_utf8 s ≡ true
IsReadable (DhcpOption.unrecognized r) = IsUntyped r.code

pub from_option-discriminant : (m : MessageType) → from_option (discriminant m) ≡ some m
unfolding from_option discriminant
from_option-discriminant MessageType.discover = refl
from_option-discriminant _ = refl

pub take_front : (n : ℕ) (xs ys : List ℕ) → length xs ≡ n → take n (xs ++ ys) ≡ xs
take_front n xs ys e = rw (← e) (take-append xs ys)

pub drop_front : (n : ℕ) (xs ys : List ℕ) → length xs ≡ n → drop n (xs ++ ys) ≡ ys
drop_front n xs ys e = rw (← e) (drop-append xs ys)

take_all : (n : ℕ) (xs : List ℕ) → length xs ≡ n → take n xs ≡ xs
take_all n xs e = rw (← e) (ap (take (length xs)) (sym (append-nil xs)) ∙ take-append xs [])

ipv4_of-octets : (a : Ipv4Addr) → a < 2 ^ 32 → ipv4_of (octets a) ≡ ok a
ipv4_of-octets a h =
    let four = length-to_be 4 a in
    let room : ltb (length (octets a)) 4 ≡ false = le→ltb _ _ (omega (arith, four)) in
    rw (ipv4_of_lem (octets a), room, take_all 4 (octets a) four, from_be-to_be 4 a h)

lease_time_of-to_be : (s : ℕ) → s < 2 ^ 32 → lease_time_of (to_be 4 s) ≡ ok s
lease_time_of-to_be s h =
    let four = length-to_be 4 s in
    let room : ltb (length (to_be 4 s)) 4 ≡ false = le→ltb _ _ (omega (arith, four)) in
    rw (
      lease_time_of_lem (to_be 4 s),
      ipv4_of_lem (to_be 4 s),
      room,
      take_all 4 (to_be 4 s) four,
      from_be-to_be 4 s h,
    )

message_type_of-discriminant : (m : MessageType) → message_type_of (discriminant m ∷ []) ≡ ok m
unfolding message_type_of
message_type_of-discriminant m = rw (from_option-discriminant m)

utf8_of-is_utf8 : (s : List ℕ) → is_utf8 s ≡ true → utf8_of s ≡ ok s
unfolding utf8_of
utf8_of-is_utf8 s h = rw h

-- The payload of `to_raw` decodes to the option.
decode_payload-to_raw :
    (o : DhcpOption) → IsReadable o → decode_payload (to_raw o).code (to_raw o).payload ≡ ok o
unfolding decode_payload to_raw
decode_payload-to_raw (DhcpOption.dhcp_message_type m) h = rw (message_type_of-discriminant m)
decode_payload-to_raw (DhcpOption.server_identifier a) h = rw (ipv4_of-octets a h)
decode_payload-to_raw (DhcpOption.parameter_request_list p) h = refl
decode_payload-to_raw (DhcpOption.requested_ip_address a) h = rw (ipv4_of-octets a h)
decode_payload-to_raw (DhcpOption.host_name s) h = rw (utf8_of-is_utf8 s h)
decode_payload-to_raw (DhcpOption.router addrs) h = absurd h
decode_payload-to_raw (DhcpOption.domain_name_server addrs) h = absurd h
decode_payload-to_raw (DhcpOption.ip_address_lease_time s) h = rw (lease_time_of-to_be s h)
decode_payload-to_raw (DhcpOption.subnet_mask a) h = rw (ipv4_of-octets a h)
decode_payload-to_raw (DhcpOption.message s) h = rw (utf8_of-is_utf8 s h)
decode_payload-to_raw (DhcpOption.unrecognized r) h = ground arith

-- An option that is read back does not start with END.
code-ne-end : (o : DhcpOption) → IsReadable o → ((to_raw o).code == end) ≡ false
unfolding to_raw
code-ne-end (DhcpOption.dhcp_message_type m) h = refl
code-ne-end (DhcpOption.router addrs) h = absurd h
code-ne-end (DhcpOption.domain_name_server addrs) h = absurd h
code-ne-end (DhcpOption.unrecognized r) h = ground arith
code-ne-end _ h = refl

at_end-tlv : (o : DhcpOption) (rest : List ℕ) → IsReadable o → at_end (tlv o ++ rest) ≡ false
unfolding at_end tlv
at_end-tlv o rest h = code-ne-end o h

-- An option that can be read, as code, length and payload, decodes to itself and leaves what
-- follows it.
pub decode_option-tlv :
    (o : DhcpOption) (rest : List ℕ) → IsReadable o → decode_option (tlv o ++ rest) ≡ ok (rest, o)
unfolding tlv
decode_option-tlv o rest h =
    let bytes = (to_raw o).payload in
    let room : ltb (length (bytes ++ rest)) (length bytes) ≡ false =
      le→ltb _ _ (omega (arith, length-append bytes rest)) in
    rw (
      decode_option_lem (to_raw o).code (length bytes) (bytes ++ rest),
      code-ne-end o h,
      room,
      take-append bytes rest,
      drop-append bytes rest,
      decode_payload-to_raw o h,
    )

-- The options of a message up to END.
pub Reads-tlvs :
    (o : DhcpOption) (os : List DhcpOption) (left : List ℕ)
    → All IsReadable (o ∷ os)
    → Reads (tlvs (o ∷ os) ++ (end ∷ left)) (o ∷ os) (end ∷ left)
unfolding tlvs
Reads-tlvs o [] left h =
    let e = append_assoc (tlv o) [] (end ∷ left) in
    rw e (Reads.last o (decode_option-tlv o (end ∷ left) h.0) (unfold at_end in refl))
Reads-tlvs o (o' ∷ os) left h =
    let rest = tlvs (o' ∷ os) ++ (end ∷ left) in
    let e = append_assoc (tlv o) (tlvs (o' ∷ os)) (end ∷ left) in
    rw e (
      Reads.more o (o' ∷ os) (decode_option-tlv o rest h.0)
        (rw (append_assoc (tlv o') (tlvs os) (end ∷ left)) (at_end-tlv o' _ h.1.0))
        (Reads-tlvs o' os left h.1))
