-- ===== src/Leases/Settings.antt =====
-- src/main.rs, `MyServer`: the operations leave the settings of the server as they are.
use rusty_dhcp.Base.{ℕ, ◌≡◌, Bool, List, Option, arith, ok, nat_eq, bytes_eq}
use rusty_dhcp.Options.{Ipv4Addr, Str, DhcpOption}
use rusty_dhcp.Leases.{Mac, MyServer, insert_lease, vacate, repair, remember_hostname}

-- What `main` sets and no operation writes.
abbrev pub settings : MyServer → Bool × List Ipv4Addr × List DhcpOption
settings s = (s.enable_rapid_commit, s.broadcasts, s.cached_offer)

module _ (s t : MyServer) where
  pub insert_lease-settings :
      (ip : Ipv4Addr) (mac : Mac) (expiry : Option ℕ) (hostname : Option Str)
      → insert_lease s ip mac expiry hostname ≡ ok t
      → settings t ≡ settings s
  unfolding insert_lease
  insert_lease-settings ip mac expiry hostname h = ground arith

  pub remember_hostname-settings :
      (ip : Ipv4Addr) (hostname : Option Str)
      → remember_hostname s ip hostname ≡ ok t
      → settings t ≡ settings s
  unfolding remember_hostname
  remember_hostname-settings ip hostname h = ground arith

  pub vacate-settings : (ip : Ipv4Addr) → vacate s ip ≡ ok t → settings t ≡ settings s
  unfolding vacate
  vacate-settings ip h = ground arith

  pub repair-settings : (mac : Mac) → repair s mac ≡ ok t → settings t ≡ settings s
  unfolding repair
  repair-settings mac h = ground arith
