-- ===== src/Options.antt =====
-- src/options.rs: DHCP options and message types.
-- An `Ipv4Addr` is the 32-bit number that it stands for (`to_bits`), a `String` its UTF-8 bytes.
pub mod Codes
pub mod Wire
pub mod Title
mod Tests
use rusty_dhcp.Base.{
  ℕ, suc, ◌+◌, ◌*◌, ◌≡◌, Bool, List, [], ◌∷◌, ◌++◌, Option, none, some, length, ◌==◌, if◌then◌else◌,
  Outcome, ok, err, panic, ◌>>=◌, ◌>>◌,
}
use rusty_dhcp.Base.Bytes.{to_be}
use rusty_dhcp.Base.Buffer.{copy_to}
use Codes

abbrev pub Ipv4Addr : Type 0
Ipv4Addr = ℕ

-- `String`.
abbrev pub Str : Type 0
Str = List ℕ

-- `Ipv4Addr::octets`.
abbrev pub octets : Ipv4Addr → List ℕ
octets ip = to_be 4 ip

pub data MessageType : Type 0 where
  discover offer request decline ack nak release inform : MessageType

-- `MessageType as u8`.
unfoldable pub discriminant : MessageType → ℕ
discriminant discover = 1
discriminant offer = 2
discriminant request = 3
discriminant decline = 4
discriminant ack = 5
discriminant nak = 6
discriminant release = 7
discriminant inform = 8

unfoldable pub from_option : ℕ → Option MessageType
from_option v =
    if v == 1
    then some discover
    else if v == 2
    then some offer
    else if v == 3
    then some request
    else if v == 4
    then some decline
    else if v == 5
    then some ack
    else if v == 6
    then some nak
    else if v == 7
    then some release
    else if v == 8
    then some inform
    else none

pub record RawDhcpOption : Type 0 where
  pub code : ℕ
  pub payload : List ℕ

pub data DhcpOption : Type 0 where
  dhcp_message_type : MessageType → DhcpOption
  server_identifier : Ipv4Addr → DhcpOption
  parameter_request_list : List ℕ → DhcpOption
  requested_ip_address : Ipv4Addr → DhcpOption
  host_name : Str → DhcpOption
  router : List Ipv4Addr → DhcpOption
  domain_name_server : List Ipv4Addr → DhcpOption
  ip_address_lease_time : ℕ → DhcpOption
  subnet_mask : Ipv4Addr → DhcpOption
  message : Str → DhcpOption
  unrecognized : RawDhcpOption → DhcpOption

unfoldable pub code : DhcpOption → ℕ
code (dhcp_message_type m) = Codes.dhcp_message_type
code (server_identifier a) = Codes.server_identifier
code (parameter_request_list p) = Codes.parameter_request_list
code (requested_ip_address a) = Codes.requested_ip_address
code (host_name s) = Codes.host_name
code (router addrs) = Codes.router
code (domain_name_server addrs) = Codes.domain_name_server
code (ip_address_lease_time s) = Codes.ip_address_lease_time
code (subnet_mask a) = Codes.subnet_mask
code (message s) = Codes.message
code (unrecognized r) = r.code

unfoldable pub data_len : DhcpOption → ℕ
data_len (dhcp_message_type m) = 1
data_len (server_identifier a) = 4
data_len (parameter_request_list p) = length p
data_len (requested_ip_address a) = 4
data_len (host_name s) = length s
data_len (router addrs) = length addrs * 4
data_len (domain_name_server addrs) = length addrs * 4
data_len (ip_address_lease_time s) = 4
data_len (subnet_mask a) = 4
data_len (message s) = length s
data_len (unrecognized r) = length r.payload

-- The loop over the addresses of a list option, from index `n` on.
pub write_addrs {ℓ} : {E : Type ℓ} → ℕ → List Ipv4Addr → List ℕ → Outcome E (List ℕ × ℕ)
write_addrs n [] out = ok (out, n)
write_addrs n (a ∷ addrs) out = do out' ← copy_to n (octets a) out; write_addrs (n + 4) addrs out'

-- A write of `bytes` at the front of the buffer, with the count that is returned.
abbrev write_front {ℓ} : {E : Type ℓ} → List ℕ → ℕ → List ℕ → Outcome E (List ℕ × ℕ)
write_front bytes n out = do out' ← copy_to 0 bytes out; ok (out', n)

-- The new contents of `out`, and the number of bytes written. A short buffer panics.
unfoldable pub write_data {ℓ} : {E : Type ℓ} → DhcpOption → List ℕ → Outcome E (List ℕ × ℕ)
unfolding write_addrs
write_data (dhcp_message_type m) out = write_front (discriminant m ∷ []) 1 out
write_data (server_identifier a) out = write_front (octets a) 4 out
write_data (parameter_request_list p) out = write_front p (length p) out
write_data (requested_ip_address a) out = write_front (octets a) 4 out
write_data (host_name s) out = write_front s (length s) out
write_data (router addrs) out = write_addrs 0 addrs out
write_data (domain_name_server addrs) out = write_addrs 0 addrs out
write_data (ip_address_lease_time s) out = write_front (to_be 4 s) 4 out
write_data (subnet_mask a) out = write_front (octets a) 4 out
write_data (message s) out = write_front s (length s) out
write_data (unrecognized r) out = write_front r.payload (length r.payload) out

-- `for a in addrs { v.extend_from_slice(&a.octets()) }`
unfoldable pub all_octets : List Ipv4Addr → List ℕ
all_octets [] = []
all_octets (a ∷ addrs) = octets a ++ all_octets addrs

abbrev raw : ℕ → List ℕ → RawDhcpOption
raw c bytes = record { code = c; payload = bytes }

unfoldable pub to_raw : DhcpOption → RawDhcpOption
unfolding all_octets
to_raw (dhcp_message_type m) = raw Codes.dhcp_message_type (discriminant m ∷ [])
to_raw (server_identifier a) = raw Codes.server_identifier (octets a)
to_raw (parameter_request_list p) = raw Codes.parameter_request_list p
to_raw (requested_ip_address a) = raw Codes.requested_ip_address (octets a)
to_raw (host_name s) = raw Codes.host_name s
to_raw (router addrs) = raw Codes.router (all_octets addrs)
to_raw (domain_name_server addrs) = raw Codes.domain_name_server (all_octets addrs)
to_raw (ip_address_lease_time s) = raw Codes.ip_address_lease_time (to_be 4 s)
to_raw (subnet_mask a) = raw Codes.subnet_mask (octets a)
to_raw (message s) = raw Codes.message s
to_raw (unrecognized r) = r
