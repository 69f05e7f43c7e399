-- ===== src/Packet.antt =====
-- src/packet.rs: the DHCPv4 packet, its decoder and its encoder.
-- A slice is the list of its bytes. Decoding may panic, which `Outcome` shows.
mod Ranges
pub mod Encode
pub mod Decode
pub mod RoundTrip
pub mod Lookup
mod Tests
use Prim.Native.String.{String}
use rusty_dhcp.Base.{
  ℕ, zero, suc, ◌+◌, ◌-◌, ◌/◌, ◌%◌, ◌^◌, Bool, true, false, not, ◌||◌, List, [], ◌∷◌, Option, none,
  some, length, take, drop, replicate, get_or, ◌==◌, ltb, leb, list_beq, if◌then◌else◌, index,
  Outcome, ok, err, panic, ◌>>=◌, ok_or, bit_and,
}
use rusty_dhcp.Base.Slices.{slice, skip, number, value}
use rusty_dhcp.Base.Utf8.{is_utf8}
use rusty_dhcp.Base.Buffer.{copy_to, overwrite}
use rusty_dhcp.Options.{
  Ipv4Addr, octets, MessageType, from_option, DhcpOption, code, data_len, write_data,
}
use rusty_dhcp.Options.Codes

pub data ErrorKind : Type 0 where
  tag map_res many_till eof : ErrorKind
  custom : ℕ → ErrorKind

pub data CustomErr : Type 0 where
  nom_error : List ℕ → ErrorKind → CustomErr
  non_utf8_string unrecognized_message_type invalid_hlen : CustomErr

pub record Packet : Type 0 where
  pub reply : Bool
  pub hops : ℕ
  pub xid : ℕ
  pub secs : ℕ
  pub broadcast : Bool
  pub ciaddr : Ipv4Addr
  pub yiaddr : Ipv4Addr
  pub siaddr : Ipv4Addr
  pub giaddr : Ipv4Addr
  pub chaddr : List ℕ
  pub options : List DhcpOption

abbrev pub wire_max : ℕ
wire_max = 300

abbrev pub cookie : List ℕ
cookie = 99 ∷ 130 ∷ 83 ∷ 99 ∷ []

abbrev pub boot_request : ℕ
boot_request = 1

abbrev pub boot_reply : ℕ
boot_reply = 2

abbrev pub end : ℕ
end = 255

abbrev pub pad : ℕ
pad = 0

-- `Ipv4Addr::new(data[0], data[1], data[2], data[3])`, on at least four bytes.
unfoldable pub ipv4_of : List ℕ → Outcome CustomErr Ipv4Addr
ipv4_of bytes = if ltb (length bytes) 4 then err invalid_hlen else number 0 4 bytes

-- `str::from_utf8`; the string is its bytes.
unfoldable pub utf8_of : List ℕ → Outcome CustomErr (List ℕ)
utf8_of bytes = if is_utf8 bytes then ok bytes else err non_utf8_string

unfoldable pub message_type_of : List ℕ → Outcome CustomErr MessageType
message_type_of [] = err invalid_hlen
message_type_of (b ∷ bytes) = ok_or (from_option b) unrecognized_message_type

unfoldable pub lease_time_of : List ℕ → Outcome CustomErr ℕ
lease_time_of bytes = if ltb (length bytes) 4 then err invalid_hlen else number 0 4 bytes

abbrev raw_option : ℕ → List ℕ → DhcpOption
raw_option c bytes = DhcpOption.unrecognized (record { code = c; payload = bytes })

-- The `match code` of `decode_option`, on the payload.
unfoldable pub decode_payload : ℕ → List ℕ → Outcome CustomErr DhcpOption
decode_payload c bytes =
    if c == Codes.dhcp_message_type
    then (do m ← message_type_of bytes; ok (DhcpOption.dhcp_message_type m))
    else if c == Codes.parameter_request_list
    then ok (DhcpOption.parameter_request_list bytes)
    else if c == Codes.server_identifier
    then (do ip ← ipv4_of bytes; ok (DhcpOption.server_identifier ip))
    else if c == Codes.requested_ip_address
    then (do ip ← ipv4_of bytes; ok (DhcpOption.requested_ip_address ip))
    else if c == Codes.host_name
    then (do s ← utf8_of bytes; ok (DhcpOption.host_name s))
    else if c == Codes.router || c == Codes.domain_name_server
    then err invalid_hlen
    else if c == Codes.ip_address_lease_time
    then (do n ← lease_time_of bytes; ok (DhcpOption.ip_address_lease_time n))
    else if c == Codes.subnet_mask
    then (do ip ← ipv4_of bytes; ok (DhcpOption.subnet_mask ip))
    else if c == Codes.message
    then (do s ← utf8_of bytes; ok (DhcpOption.message s))
    else ok (raw_option c bytes)

-- The rest of the input and the option. `assert!(code != END)` comes before the length is read.
unfoldable pub decode_option : List ℕ → Outcome CustomErr (List ℕ × DhcpOption)
unfolding decode_payload
decode_option [] = err invalid_hlen
decode_option (c ∷ []) = if c == end then panic else err invalid_hlen
decode_option (c ∷ len ∷ body) =
    if c == end then panic else if ltb (length body) len then err invalid_hlen else do
      payload ← slice 0 len body
      rest ← skip len body
      option ← decode_payload c payload
      ok (rest, option)

-- `rest.first().copied() == Some(END)`
unfoldable pub at_end : List ℕ → Bool
at_end [] = false
at_end (b ∷ rest) = b == end

-- The `while let` loop, on fuel: an option takes two bytes at least, so one round more than there
-- are bytes is enough, and the first clause is never reached.
unfoldable pub decode_options : ℕ → List ℕ → Outcome CustomErr (List ℕ × List DhcpOption)
decode_options zero rest = panic
decode_options (suc fuel) rest = elim (decode_option rest) [
  | ok (new_rest, option) ↦ elim (at_end new_rest) [
    | true ↦ ok (new_rest, option ∷ [])
    | false ↦ do (last, options) ← decode_options fuel new_rest; ok (last, option ∷ options)
  ]
  | err e ↦ ok (rest, [])
  | panic ↦ panic
]

-- `rest.split_at(1).1`
unfoldable pub skip_end : List ℕ → Outcome CustomErr (List ℕ)
skip_end [] = panic
skip_end (b ∷ rest) = ok rest

-- The bytes of the buffer that `get_mut` has found there.
abbrev window : ℕ → ℕ → List ℕ → List ℕ
window from n bytes = take n (drop from bytes)

-- The header fields, at fixed offsets of `hdr`, which `split_at` makes 236 bytes long.
unfoldable pub decode_header : List ℕ → List DhcpOption → Packet
decode_header hdr options = record {
  reply = get_or hdr 0 0 == boot_reply;
  hops = get_or hdr 3 0;
  xid = value 4 4 hdr;
  secs = value 8 2 hdr;
  broadcast = bit_and (value 10 2 hdr) 128 == 128;
  ciaddr = value 12 4 hdr;
  yiaddr = value 16 4 hdr;
  siaddr = value 20 4 hdr;
  giaddr = value 24 4 hdr;
  chaddr = window 28 6 hdr;
  options = options;
}

unfoldable pub decode : List ℕ → Outcome CustomErr (List ℕ × Packet)
unfolding skip_end
decode input = if ltb (length input) 236 then err invalid_hlen else do
  hdr ← slice 0 236 input
  rest ← skip 236 input
  hlen ← index hdr 2
  if not (hlen == 6)
      then err invalid_hlen
      else if ltb (length rest) 4
      then err (nom_error rest tag)
      else do
        magic ← slice 0 4 rest
        if not (list_beq magic cookie) then err (nom_error rest tag) else do
          body ← skip 4 rest
          (last, options) ← decode_options (suc (length body)) body
          input' ← skip_end last
          ok (input', decode_header hdr options)

unfoldable pub from : List ℕ → Outcome CustomErr Packet
from input = do (rest, packet) ← decode input; ok packet

first_option : List DhcpOption → ℕ → Option DhcpOption
first_option [] c = none
first_option (o ∷ os) c = if code o == c then some o else first_option os c

unfoldable pub option : Packet → ℕ → Option DhcpOption
unfolding first_option
option p c = first_option p.options c

-- The scan of `message_type`; the message of the first error names the code 53.
first_message_type : List DhcpOption → Outcome String MessageType
first_message_type [] = err "Packet does not have MessageType option"
first_message_type (DhcpOption.dhcp_message_type m ∷ os) = ok m
first_message_type (DhcpOption.unrecognized r ∷ os) =
    if r.code == Codes.dhcp_message_type
    then err "Got wrong enum code 53 for DHCP_MESSAGE_TYPE"
    else first_message_type os
first_message_type (o ∷ os) = first_message_type os

unfoldable pub message_type : Packet → Outcome String MessageType
unfolding first_message_type
message_type p = first_message_type p.options

-- `if let Some(dest) = p.get_mut(n..n + 2 + len) { ... }`; `option_len as u8` wraps.
unfoldable pub put_option : DhcpOption → ℕ → ℕ → List ℕ → Outcome CustomErr (List ℕ)
put_option o len n p =
    if leb (n + 2 + len) (length p)
    then (do
      (body, written) ← write_data o (window (n + 2) len p)
      ok (overwrite n (code o ∷ (len % 256) ∷ body) p))
    else ok p

-- The loop over the options; an option that does not fit ends it.
unfoldable pub encode_options : List DhcpOption → ℕ → List ℕ → Outcome CustomErr (List ℕ × ℕ)
unfolding put_option
encode_options [] n p = ok (p, n)
encode_options (o ∷ os) n p =
    let len = data_len o in
    let rest = (do p' ← put_option o len n p; encode_options os (n + 2 + len) p') in
    if leb wire_max (n + 2 + len) then ok (p, n) else rest

unfoldable pub first_twelve : Packet → List ℕ
first_twelve p =
    (if p.reply then boot_reply else boot_request)
    ∷ 1
    ∷ 6
    ∷ p.hops
    ∷ (p.xid / 2 ^ 24 % 256)
    ∷ (p.xid / 2 ^ 16 % 256)
    ∷ (p.xid / 2 ^ 8 % 256)
    ∷ (p.xid % 256)
    ∷ (p.secs / 2 ^ 8 % 256)
    ∷ (p.secs % 256)
    ∷ (if p.broadcast then 128 else 0)
    ∷ 0
    ∷ []

-- `if let Some(segment) = p.get_mut(from..to) { segment.fill(value) }`
unfoldable pub fill_range : ℕ → ℕ → ℕ → List ℕ → List ℕ
fill_range from to value p =
    if leb from to
    then (if leb to (length p) then overwrite from (replicate (to - from) value) p else p)
    else p

-- The bytes of `p[34..236].fill(0)`: `sname` and `file` are not used.
unfoldable pub zeros : List ℕ
zeros = replicate 202 0

-- The writes of `encode` up to the cookie.
unfoldable pub encode_header : Packet → List ℕ → Outcome CustomErr (List ℕ)
encode_header p buffer = do
  p1 ← copy_to 0 (first_twelve p) buffer
  p2 ← copy_to 12 (octets p.ciaddr) p1
  p3 ← copy_to 16 (octets p.yiaddr) p2
  p4 ← copy_to 20 (octets p.siaddr) p3
  p5 ← copy_to 24 (octets p.giaddr) p4
  p6 ← copy_to 28 p.chaddr p5
  p7 ← copy_to 34 zeros p6
  copy_to 236 cookie p7

-- The bytes to send, which are `&p[..length]`, and the buffer as it is left.
unfoldable pub encode : Packet → List ℕ → Outcome CustomErr (List ℕ × List ℕ)
encode p buffer = do
  p1 ← encode_header p buffer
  (p2, length_) ← encode_options p.options 240 p1
  let p3 = fill_range length_ (length_ + 1) end p2
  let p4 = fill_range (length_ + 1) wire_max pad p3
  if leb (length_ + 1) (length p4) then ok (take (length_ + 1) p4, p4) else panic
