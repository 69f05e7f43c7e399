-- ===== src/Dhcpv6.antt =====
-- src/dhcpv6.rs: the DHCPv6 side. An `Ipv6Addr` is the 128-bit number that it stands for.
pub mod Codes
pub mod Codec
pub mod Datagram
pub mod Times
pub mod Pool
