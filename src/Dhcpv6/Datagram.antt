-- ===== src/Dhcpv6/Datagram.antt =====
-- src/dhcpv6.rs: DHCPv6 datagrams, decoded strictly and encoded. The two `while` loops run on fuel:
-- each round takes four bytes at least, so as many rounds as there are bytes are enough, and the
-- `panic` of the clauses without fuel is never reached.
mod Ranges
pub mod Decode
pub mod Payload
pub mod RoundTrip
pub mod Harvest
mod Tests
use rusty_dhcp.Base.{
  ℕ, zero, suc, ◌+◌, ◌-◌, ◌/◌, ◌%◌, ◌^◌, Bool, false, not, List, [], ◌∷◌, Option, none, some,
  length, take, drop, index, ◌==◌, ltb, list_beq, if◌then◌else◌, Outcome, ok, err, panic, ◌>>=◌,
}
use rusty_dhcp.Base.Bytes.{from_be}
use rusty_dhcp.Base.Slices.{slice, skip, number}
use rusty_dhcp.Base.Utf8.{is_utf8}
use rusty_dhcp.Dhcpv6.Codes.{
  opt_clientid, opt_serverid, opt_ia_na, opt_iaaddr, opt_dns_servers, opt_status_code,
}
use rusty_dhcp.Dhcpv6.Codec.{
  MsgType, DecodeError, EncodeError, msg_type_number, msg_type_from, IaAddr, IaNa, Dhcpv6Option,
  code6, encode_into,
}

-- One round of the loop of `decode_iana`: the bytes that are left, and the address if there is one.
unfoldable pub decode_sub : List ℕ → Outcome DecodeError (List ℕ × Option IaAddr)
decode_sub rest = if ltb (length rest) 4 then err DecodeError.malformed else do
  slen ← number 2 2 rest
  if ltb (length rest - 4) slen then err DecodeError.malformed else do
    c ← number 0 2 rest
    body ← slice 4 slen rest
    next ← skip (4 + slen) rest
    if not (c == opt_iaaddr)
        then ok (next, none)
        else if ltb (length body) 24
        then err DecodeError.malformed
        else do
          addr ← number 0 16 body
          preferred ← number 16 4 body
          valid ← number 20 4 body
          ok (next, some (record { addr = addr; preferred = preferred; valid = valid }))

-- `addrs.push`, if there is an address.
abbrev push_found : Option IaAddr → List IaAddr → List IaAddr
push_found none addrs = addrs
push_found (some a) addrs = a ∷ addrs

unfoldable pub decode_subs : ℕ → List ℕ → Outcome DecodeError (List IaAddr)
decode_subs fuel [] = ok []
decode_subs zero (b ∷ rest) = panic
decode_subs (suc fuel) (b ∷ rest) = do
  (next, found) ← decode_sub (b ∷ rest)
  addrs ← decode_subs fuel next
  ok (push_found found addrs)

unfoldable pub decode_iana : List ℕ → Outcome DecodeError IaNa
decode_iana bytes = if ltb (length bytes) 12 then err DecodeError.malformed else do
  iaid ← number 0 4 bytes
  t1 ← number 4 4 bytes
  t2 ← number 8 4 bytes
  rest ← skip 12 bytes
  addrs ← decode_subs (length bytes) rest
  ok (record { iaid = iaid; t1 = t1; t2 = t2; addrs = addrs })

-- `chunks_exact(16)`, each chunk an address.
unfoldable pub decode_ips : ℕ → List ℕ → List ℕ
decode_ips zero bytes = []
decode_ips (suc n) bytes = from_be (take 16 bytes) ∷ decode_ips n (drop 16 bytes)

-- The `match code` of `decode_option`, on the bytes of the option.
unfoldable pub decode_payload6 : ℕ → List ℕ → Outcome DecodeError Dhcpv6Option
decode_payload6 c bytes =
    if c == opt_clientid
    then ok (Dhcpv6Option.client_id bytes)
    else if c == opt_serverid
    then ok (Dhcpv6Option.server_id bytes)
    else if c == opt_ia_na
    then (do ia ← decode_iana bytes; ok (Dhcpv6Option.ia_na ia))
    else if c == opt_dns_servers
    then (if not (length bytes % 16 == 0)
        then err DecodeError.malformed
        else ok (Dhcpv6Option.dns_servers (decode_ips (length bytes / 16) bytes)))
    else if c == opt_status_code
    then (if ltb (length bytes) 2 then err DecodeError.malformed else do
      status ← number 0 2 bytes
      text ← skip 2 bytes
      if is_utf8 text then ok (Dhcpv6Option.status_code status text) else err DecodeError.bad_utf8)
    else ok (Dhcpv6Option.unrecognized (record { code = c; bytes = bytes }))

-- `decode_option`: the bytes that are left, and the option.
unfoldable pub decode_option6 : List ℕ → Outcome DecodeError (List ℕ × Dhcpv6Option)
decode_option6 input = if ltb (length input) 4 then err DecodeError.truncated else do
  c ← number 0 2 input
  len ← number 2 2 input
  if ltb (length input - 4) len then err DecodeError.truncated else do
    bytes ← slice 4 len input
    rest ← skip (4 + len) input
    option ← decode_payload6 c bytes
    ok (rest, option)

-- `dhcpv6::Packet`.
pub record Datagram : Type 0 where
  pub msg_type : MsgType
  pub transaction_id : ℕ
  pub options : List Dhcpv6Option

-- The loop of `Packet::from`: unlike that of version 4 it passes each error on.
unfoldable pub decode_options6 : ℕ → List ℕ → Outcome DecodeError (List Dhcpv6Option)
decode_options6 fuel [] = ok []
decode_options6 zero (b ∷ rest) = panic
decode_options6 (suc fuel) (b ∷ rest) = do
  (new_rest, option) ← decode_option6 (b ∷ rest)
  options ← decode_options6 fuel new_rest
  ok (option ∷ options)

-- `Packet::from`.
unfoldable pub from6 : List ℕ → Outcome DecodeError Datagram
from6 input = if ltb (length input) 4 then err DecodeError.truncated else do
  first ← index input 0
  m ← msg_type_from first
  tid ← number 1 3 input
  rest ← skip 4 input
  options ← decode_options6 (length input) rest
  ok (record { msg_type = m; transaction_id = tid; options = options })

-- The loop of `Packet::encode`.
unfoldable pub encode_options6 : List Dhcpv6Option → List ℕ → Outcome EncodeError (List ℕ)
encode_options6 [] out = ok out
encode_options6 (o ∷ options) out = do out' ← encode_into o out; encode_options6 options out'

-- `Packet::encode`.
unfoldable pub encode6 : Datagram → Outcome EncodeError (List ℕ)
encode6 p =
    let tid = p.transaction_id % 2 ^ 24 in
    encode_options6 p.options
      (msg_type_number p.msg_type ∷ tid / 2 ^ 16 % 256 ∷ tid / 2 ^ 8 % 256 ∷ tid % 256 ∷ [])

-- The loop of `Packet::option`.
unfoldable pub first_option6 : List Dhcpv6Option → ℕ → Option Dhcpv6Option
first_option6 [] c = none
first_option6 (o ∷ options) c = if code6 o == c then some o else first_option6 options c

abbrev pub option6 : Datagram → ℕ → Option Dhcpv6Option
option6 p c = first_option6 p.options c

-- The loop of `first_iana`.
unfoldable pub iana_of : List Dhcpv6Option → Option IaNa
iana_of [] = none
iana_of (Dhcpv6Option.ia_na ia ∷ options) = some ia
iana_of (o ∷ options) = iana_of options

abbrev pub first_iana : Datagram → Option IaNa
first_iana p = iana_of p.options

-- The loop of `client_iana`, which ends early when both have been found.
unfoldable pub harvest :
    List Dhcpv6Option → Option (List ℕ) → Option IaNa → Option (List ℕ) × Option IaNa
harvest [] c ia = (c, ia)
harvest (Dhcpv6Option.client_id d ∷ options) none none = harvest options (some d) none
harvest (Dhcpv6Option.client_id d ∷ options) none (some ia) = (some d, some ia)
harvest (Dhcpv6Option.ia_na a ∷ options) none none = harvest options none (some a)
harvest (Dhcpv6Option.ia_na a ∷ options) (some d) none = (some d, some a)
harvest (o ∷ options) (some d) (some ia) = (some d, some ia)
harvest (o ∷ options) c ia = harvest options c ia

abbrev pub client_iana : Datagram → Option (List ℕ) × Option IaNa
client_iana p = harvest p.options none none

unfoldable pub is_for_server : List ℕ → Datagram → Bool
is_for_server our_duid p = elim (option6 p opt_serverid) [
  | some (Dhcpv6Option.server_id d) ↦ list_beq d our_duid
  | _ ↦ false
]
