-- ===== src/Dhcpv6/Codec.antt =====
-- src/dhcpv6.rs: DHCPv6 message types and options, and how an option is written.
-- An address is the 128-bit number of its octets, a `String` its UTF-8 bytes.
pub mod Wire
use rusty_dhcp.Base.{
  ℕ, ◌+◌, ◌-◌, ◌*◌, List, [], ◌∷◌, ◌++◌, length, ◌==◌, ltb, if◌then◌else◌, Outcome, ok, err,
}
use rusty_dhcp.Base.Bytes.{to_be}
use rusty_dhcp.Dhcpv6.Codes.{
  opt_clientid, opt_serverid, opt_ia_na, opt_iaaddr, opt_dns_servers, opt_status_code,
}

pub data MsgType : Type 0 where
  solicit advertise request confirm renew rebind reply release decline reconfigure
        information_request relay_forward relay_reply :
      MsgType

pub data DecodeError : Type 0 where
  truncated bad_utf8 malformed : DecodeError
  bad_message_type : ℕ → DecodeError

pub data EncodeError : Type 0 where
  option_too_large : EncodeError

-- `MsgType as u8`.
unfoldable pub msg_type_number : MsgType → ℕ
msg_type_number MsgType.solicit = 1
msg_type_number MsgType.advertise = 2
msg_type_number MsgType.request = 3
msg_type_number MsgType.confirm = 4
msg_type_number MsgType.renew = 5
msg_type_number MsgType.rebind = 6
msg_type_number MsgType.reply = 7
msg_type_number MsgType.release = 8
msg_type_number MsgType.decline = 9
msg_type_number MsgType.reconfigure = 10
msg_type_number MsgType.information_request = 11
msg_type_number MsgType.relay_forward = 12
msg_type_number MsgType.relay_reply = 13

-- `MsgType::from`.
unfoldable pub msg_type_from : ℕ → Outcome DecodeError MsgType
msg_type_from v =
    if v == 1
    then ok MsgType.solicit
    else if v == 2
    then ok MsgType.advertise
    else if v == 3
    then ok MsgType.request
    else if v == 4
    then ok MsgType.confirm
    else if v == 5
    then ok MsgType.renew
    else if v == 6
    then ok MsgType.rebind
    else if v == 7
    then ok MsgType.reply
    else if v == 8
    then ok MsgType.release
    else if v == 9
    then ok MsgType.decline
    else if v == 10
    then ok MsgType.reconfigure
    else if v == 11
    then ok MsgType.information_request
    else if v == 12
    then ok MsgType.relay_forward
    else if v == 13
    then ok MsgType.relay_reply
    else err (DecodeError.bad_message_type v)

pub record IaAddr : Type 0 where
  pub addr : ℕ
  pub preferred : ℕ
  pub valid : ℕ

pub record IaNa : Type 0 where
  pub iaid : ℕ
  pub t1 : ℕ
  pub t2 : ℕ
  pub addrs : List IaAddr

pub record RawDhcpv6Option : Type 0 where
  pub code : ℕ
  pub bytes : List ℕ

pub data Dhcpv6Option : Type 0 where
  client_id server_id : List ℕ → Dhcpv6Option
  ia_na : IaNa → Dhcpv6Option
  dns_servers : List ℕ → Dhcpv6Option
  status_code : ℕ → List ℕ → Dhcpv6Option
  unrecognized : RawDhcpv6Option → Dhcpv6Option

unfoldable pub code6 : Dhcpv6Option → ℕ
code6 (Dhcpv6Option.client_id d) = opt_clientid
code6 (Dhcpv6Option.server_id d) = opt_serverid
code6 (Dhcpv6Option.ia_na ia) = opt_ia_na
code6 (Dhcpv6Option.dns_servers a) = opt_dns_servers
code6 (Dhcpv6Option.status_code c m) = opt_status_code
code6 (Dhcpv6Option.unrecognized r) = r.code

unfoldable pub wire_len : Dhcpv6Option → ℕ
wire_len (Dhcpv6Option.client_id d) = 4 + length d
wire_len (Dhcpv6Option.server_id d) = 4 + length d
wire_len (Dhcpv6Option.ia_na ia) = 4 + (12 + length ia.addrs * 28)
wire_len (Dhcpv6Option.dns_servers a) = 4 + length a * 16
wire_len (Dhcpv6Option.status_code c m) = 4 + (2 + length m)
wire_len (Dhcpv6Option.unrecognized r) = 4 + length r.bytes

-- `for ip in a { out.extend_from_slice(&ip.octets()) }`
unfoldable pub extend_ips : List ℕ → List ℕ → List ℕ
extend_ips [] out = out
extend_ips (ip ∷ ips) out = extend_ips ips (out ++ to_be 16 ip)

-- The array `sub` of 28 bytes, which its five writes fill.
unfoldable pub iaaddr_sub : IaAddr → List ℕ
iaaddr_sub a =
    to_be 2 opt_iaaddr
    ++ (to_be 2 24 ++ (to_be 16 a.addr ++ (to_be 4 a.preferred ++ to_be 4 a.valid)))

-- The loop of `encode_into` over the bindings of an IA_NA.
unfoldable pub extend_subs : List IaAddr → List ℕ → List ℕ
extend_subs [] out = out
extend_subs (a ∷ addrs) out = extend_subs addrs (out ++ iaaddr_sub a)

-- The loop of `to_raw`, which extends the vector piece by piece.
unfoldable pub extend_pieces : List IaAddr → List ℕ → List ℕ
extend_pieces [] out = out
extend_pieces (a ∷ addrs) out = extend_pieces addrs (
    ((((out ++ to_be 2 opt_iaaddr) ++ to_be 2 24) ++ to_be 16 a.addr) ++ to_be 4 a.preferred)
    ++ to_be 4 a.valid)

-- The `match` of `encode_into`.
unfoldable pub write_payload : Dhcpv6Option → List ℕ → List ℕ
write_payload (Dhcpv6Option.client_id d) out = out ++ d
write_payload (Dhcpv6Option.server_id d) out = out ++ d
write_payload (Dhcpv6Option.ia_na ia) out =
    extend_subs ia.addrs (((out ++ to_be 4 ia.iaid) ++ to_be 4 ia.t1) ++ to_be 4 ia.t2)
write_payload (Dhcpv6Option.dns_servers a) out = extend_ips a out
write_payload (Dhcpv6Option.status_code c m) out = (out ++ to_be 2 c) ++ m
write_payload (Dhcpv6Option.unrecognized r) out = out ++ r.bytes

unfoldable pub encode_into : Dhcpv6Option → List ℕ → Outcome EncodeError (List ℕ)
encode_into o out =
    if ltb 65535 (wire_len o - 4)
    then err EncodeError.option_too_large
    else ok (write_payload o ((out ++ to_be 2 (code6 o)) ++ to_be 2 (wire_len o - 4)))

abbrev raw6 : ℕ → List ℕ → RawDhcpv6Option
raw6 c bytes = record { code = c; bytes = bytes }

unfoldable pub to_raw6 : Dhcpv6Option → RawDhcpv6Option
to_raw6 (Dhcpv6Option.client_id d) = raw6 opt_clientid d
to_raw6 (Dhcpv6Option.server_id d) = raw6 opt_serverid d
to_raw6 (Dhcpv6Option.ia_na ia) =
    raw6 opt_ia_na
      (extend_pieces ia.addrs ((([] ++ to_be 4 ia.iaid) ++ to_be 4 ia.t1) ++ to_be 4 ia.t2))
to_raw6 (Dhcpv6Option.dns_servers a) = raw6 opt_dns_servers (extend_ips a [])
to_raw6 (Dhcpv6Option.status_code c m) = raw6 opt_status_code (([] ++ to_be 2 c) ++ m)
to_raw6 (Dhcpv6Option.unrecognized r) = r
