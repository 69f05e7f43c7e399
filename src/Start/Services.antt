-- ===== src/Start/Services.antt =====
-- src/main.rs: both services, from the settings and the files to whatever is received.
use rusty_dhcp.Base.{ℕ, ◌≡◌, List, Option, ok, All}
use rusty_dhcp.Options.{Ipv4Addr, Str}
use rusty_dhcp.Server.{SocketAddr, Sent, Received, before_receipt, serve_with_broadcasts}
use rusty_dhcp.Config.{Config, broadcasts}
use rusty_dhcp.Config.Valid.{IsValid}
use rusty_dhcp.Leases.{MyServer}
use rusty_dhcp.Leases.Table.{IsTable}
use rusty_dhcp.Dhcpv6.Pool.{Ipv6Addr, V6Pool}
use rusty_dhcp.Dhcpv6.Pool.Invariant.{Inv}
use rusty_dhcp.Service.Send.{IsSocket}
use rusty_dhcp.Service.Run.{IsHarmless, receive_all-IsTable}
use rusty_dhcp.Service6.Serves.{receive_all6-Inv}
use rusty_dhcp.Start
use rusty_dhcp.Base.Split.{split}
use rusty_dhcp.Start.Reserved.{IsReadableLine, start-IsReserved}
use rusty_dhcp.Start.Reserved6.{start6-IsReserved6}

module _ (trim : Str → Str) (parse_ipv4 : Str → Option Ipv4Addr)
    (parse_ipv6 : Str → Option Ipv6Addr) (from_hex : Str → Option ℕ) {W E : Type 0}
    (send_to : W → List ℕ → SocketAddr → Sent W E) (now : W → W × ℕ) (works : IsSocket send_to)
    (c : Config) (valid : IsValid c) (lines : List Str) (w : W) (events : List (Received E)) where
  -- With a valid configuration and a socket whose calls return, neither a line of the reservations
  -- file nor a datagram makes `serve_v6` panic, however malformed it is; the pool meets the
  -- invariant to the end.
  pub serve_v6-Inv :
      (why : Option E) × (p : V6Pool) × (w' : W) × (Start.serve_v6 trim parse_ipv4 parse_ipv6
          from_hex send_to now c lines w events
        ≡ ok (why, (p, w')))
      × Inv p
  unfolding Start.serve_v6
  serve_v6-Inv =
      let (p, e, r) = start6-IsReserved6 trim parse_ipv4 parse_ipv6 from_hex c lines valid in
      let (why, q, w', e', v, _) = receive_all6-Inv send_to now c works p w events r.inv in
      (why, q, w', rw e e', v)

  -- With a valid configuration and a socket whose calls return, if each address in the leases file
  -- can be read and no datagram panics in the decoder, then `main` starts the DHCPv4 service, which
  -- handles all that it receives without a panic and has a table that meets the invariant to the
  -- end.
  pub run_v4-IsTable :
      All (λ line. IsReadableLine trim parse_ipv4 parse_ipv6 from_hex (split 44 line)) lines
      → All IsHarmless events
      → (why : Option E) × (s : MyServer) × (w' : W) × (Start.run_v4 trim parse_ipv4 parse_ipv6
            from_hex send_to now c lines w events
          ≡ ok (why, (s, w')))
        × IsTable s
  unfolding Start.run_v4 serve_with_broadcasts
  run_v4-IsTable readable harmless =
      let (s, e, r, _) =
        start-IsReserved trim parse_ipv4 parse_ipv6 from_hex c lines valid readable in
      let (why, t, w', e', v, _) =
        receive_all-IsTable send_to now works (before_receipt c.server_ip (broadcasts c)) s w events
          r.table harmless in
      (why, t, w', rw e e', v)
