-- ===== src/Config.antt =====
-- src/config.rs: the settings of the services, their defaults and their validation.
-- A `String` is its UTF-8 bytes, an address its number.
pub mod Valid
pub mod Duid
pub mod Parse
mod Tests
use Prim.Native.String.{String}
use rusty_dhcp.Base.{
  ℕ, ◌+◌, ◌-◌, ◌*◌, ◌^◌, Bool, true, false, not, ◌&&◌, ◌||◌, List, [], ◌∷◌, ◌++◌, Option, none,
  some, is_none, length, ◌==◌, ltb, leb, if◌then◌else◌, Outcome, ok, err,
}
use rusty_dhcp.Options.{Ipv4Addr, Str}
use rusty_dhcp.Server.{SocketAddr, IpAddr, v4, v6}
use rusty_dhcp.Dhcpv6.Pool.{Ipv6Addr, checked_add}

pub record Config : Type 0 where
  pub server_ip : Ipv4Addr
  pub ip_start : Ipv4Addr
  pub lease_num : ℕ
  pub subnet_mask : Ipv4Addr
  pub router_ip : Ipv4Addr
  pub dns_ips : List Ipv4Addr
  pub enable_ntp : Bool
  pub ntp_ips : List Ipv4Addr
  pub enable_rapid_commit : Bool
  pub broadcast_ip : Ipv4Addr
  pub extra_broadcast_ips : List Ipv4Addr
  pub lease_duration_secs : ℕ
  pub leases_file : Str
  pub listen_addr : SocketAddr
  pub enable_dhcpv6 : Bool
  pub server_duid : List ℕ
  pub ipv6_start : Ipv6Addr
  pub ipv6_lease_num : ℕ
  pub ipv6_dns : List Ipv6Addr
  pub ipv6_lease_duration_secs : ℕ
  pub leases_file_v6 : Str
  pub listen_addr_v6 : SocketAddr

unfoldable pub defaults : Config
defaults = record {
  server_ip = 192 * 2 ^ 24 + 168 * 2 ^ 16 + 2 * 2 ^ 8 + 1;
  ip_start = 192 * 2 ^ 24 + 168 * 2 ^ 16 + 2 * 2 ^ 8 + 2;
  lease_num = 252;
  subnet_mask = 255 * 2 ^ 24 + 255 * 2 ^ 16 + 255 * 2 ^ 8;
  router_ip = 192 * 2 ^ 24 + 168 * 2 ^ 16 + 2 * 2 ^ 8 + 1;
  dns_ips = (8 * 2 ^ 24 + 8 * 2 ^ 16 + 8 * 2 ^ 8 + 8) ∷ [];
  enable_ntp = false;
  ntp_ips = [];
  enable_rapid_commit = false;
  broadcast_ip = 192 * 2 ^ 24 + 168 * 2 ^ 16 + 2 * 2 ^ 8 + 255;
  extra_broadcast_ips = [];
  lease_duration_secs = 86400;
  leases_file = 108 ∷ 101 ∷ 97 ∷ 115 ∷ 101 ∷ 115 ∷ [];
  listen_addr = record { ip = IpAddr.v4 0; port = 67 };
  enable_dhcpv6 = false;
  server_duid = 0 ∷ 3 ∷ 0 ∷ 1 ∷ 2 ∷ 0 ∷ 94 ∷ 170 ∷ 187 ∷ 204 ∷ [];
  ipv6_start = 64768 * 2 ^ 112 + 256;
  ipv6_lease_num = 1000;
  ipv6_dns = (8193 * 2 ^ 112 + 18528 * 2 ^ 96 + 18528 * 2 ^ 80 + 34952) ∷ [];
  ipv6_lease_duration_secs = 86400;
  leases_file_v6 = 108 ∷ 101 ∷ 97 ∷ 115 ∷ 101 ∷ 115 ∷ 54 ∷ [];
  listen_addr_v6 = record { ip = IpAddr.v6 0; port = 547 };
}

-- `out.contains(ip)`
unfoldable pub is_in : Ipv4Addr → List Ipv4Addr → Bool
is_in ip [] = false
is_in ip (a ∷ out) = a == ip || is_in ip out

-- The loop over the extra addresses.
unfoldable pub add_broadcasts : List Ipv4Addr → List Ipv4Addr → List Ipv4Addr
add_broadcasts [] out = out
add_broadcasts (ip ∷ extra) out =
    add_broadcasts extra (if not (is_in ip out) then out ++ (ip ∷ []) else out)

unfoldable pub broadcasts : Config → List Ipv4Addr
broadcasts c = add_broadcasts c.extra_broadcast_ips (c.broadcast_ip ∷ [])

unfoldable pub validate : Config → Outcome String Config
validate c =
    if leb (length c.server_duid) 0 || ltb 128 (length c.server_duid)
    then err "server_duid must be 1..=128 bytes"
    else if ltb (2 ^ 32 - 1 + 1) (c.ip_start + c.lease_num)
    then err "ip_start + lease_num overflows IPv4 space"
    else if is_none (checked_add c.ipv6_start c.ipv6_lease_num)
    then err "ipv6_start + ipv6_lease_num overflows IPv6 space"
    else ok c
