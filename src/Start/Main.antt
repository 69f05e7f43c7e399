-- ===== src/Start/Main.antt =====
-- src/main.rs, `main`, from the configuration file on: the settings, the files of reserved addresses,
-- and both services. What the file system holds is a parameter, as the functions of `str` are.
use Prim.Native.String.{String}
use rusty_dhcp.Base.{
  ℕ, ◌+◌, ◌-◌, ◌%◌, ◌^◌, ◌≤◌, ◌≡◌, ◌⊎◌, refl, inl, inr, true, false, List, [], ◌∷◌, Option, none,
  some, All, arith, ◌==◌, if◌then◌else◌, Outcome, ok, ◌>>=◌, Bool-cases, if_true, ◌∙◌, ◌++◌, ap,
  Bool,
}
use rusty_dhcp.Base.Split.{split}
use rusty_dhcp.Options.{Ipv4Addr, Str}
use rusty_dhcp.Server.{
  SocketAddr, Sent, Received, before_receipt, route_dests, serve_with_broadcasts,
}
use rusty_dhcp.Config.{Config, is_in, add_broadcasts, broadcasts}
use rusty_dhcp.Config.Valid.{IsValid}
use rusty_dhcp.Config.Parse.{StrApi, settings}
use rusty_dhcp.Config.Parse.Settings.{settings-IsValid}
use rusty_dhcp.Leases.{MyServer, in_pool}
use rusty_dhcp.Leases.Settings
use rusty_dhcp.Leases.Table.{IsTable}
use rusty_dhcp.Dhcpv6.Pool.{V6Pool}
use rusty_dhcp.Dhcpv6.Pool.Invariant.{Inv}
use rusty_dhcp.Service.{dsts_for}
use rusty_dhcp.Service.Send.{IsSocket}
use rusty_dhcp.Service.Run.{IsHarmless}
use rusty_dhcp.Service.Traffic.{IsKeptFrom}
use rusty_dhcp.Service.Traffic.Served.{receive_all_replies}
use rusty_dhcp.Start
use rusty_dhcp.Start.{initial}
use rusty_dhcp.Start.Reserved.{IsReadableLine, start-IsReserved}
use rusty_dhcp.Start.Services.{serve_v6-Inv}

-- "dhcp.conf"
abbrev cfg_path : Str
cfg_path = 100 ∷ 104 ∷ 99 ∷ 112 ∷ 46 ∷ 99 ∷ 111 ∷ 110 ∷ 102 ∷ []

-- The last address of the pool in the message at the start; a pool of no address has none. The sum is
-- one of 64 bits, the cast to 32 bits wraps.
unfoldable pub v4_last : Config → Option Ipv4Addr
v4_last c = if c.lease_num == 0 then none else some ((c.ip_start + c.lease_num - 1) % 2 ^ 32)

-- With a valid configuration the address in the message is the greatest of the pool; there is none
-- exactly if the pool has no address.
pub v4_last-in_pool :
    (c : Config)
    → IsValid c
    → (v4_last c ≡ none) × ((b : Ipv4Addr) → in_pool (initial c) b ≡ false)
      ⊎ ((a : Ipv4Addr) × (v4_last c ≡ some a)
          × (in_pool (initial c) a ≡ true)
          × ((b : Ipv4Addr) → in_pool (initial c) b ≡ true → b ≤ a))
unfolding v4_last in_pool initial
v4_last-in_pool c v = elim (Bool-cases (c.lease_num == 0)) [
  | inl empty ↦ inl (rw empty refl, λ b. ground arith)
  | inr some_ ↦
      let e : (c.ip_start + c.lease_num - 1) % 2 ^ 32 ≡ c.ip_start + c.lease_num - 1 =
        omega (arith, v.v4_range) in
      inr (c.ip_start + c.lease_num - 1, rw (some_, e) refl, ground arith, λ b h. ground arith)
]

add_broadcasts-cons :
    (extra out : List Ipv4Addr) (a : Ipv4Addr)
    → (rest : List Ipv4Addr) × (add_broadcasts extra (a ∷ out) ≡ a ∷ rest)
unfolding add_broadcasts
add_broadcasts-cons [] out a = (out, refl)
add_broadcasts-cons (ip ∷ extra) out a = elim (Bool-cases (is_in ip (a ∷ out))) [
  | inl old ↦ let (rest, e) = add_broadcasts-cons extra out a in (rest, rw old e)
  | inr new ↦ let (rest, e) = add_broadcasts-cons extra (out ++ (ip ∷ [])) a in (rest, rw new e)
]

-- The log of a reply names the addresses to which it goes, whatever the service has done.
pub dsts_for-route_dests :
    (c : Config) (t : MyServer) (src : SocketAddr) (broadcast : Bool) (ip : Ipv4Addr)
    → Settings.settings t ≡ Settings.settings (initial c)
    → dsts_for t (record (before_receipt c.server_ip (broadcasts c)) { src = src }) broadcast ip
      ≡ route_dests src broadcast ip (before_receipt c.server_ip (broadcasts c)).broadcasts
unfolding dsts_for initial broadcasts
dsts_for-route_dests c t src broadcast ip same =
    let (rest, e) = add_broadcasts-cons c.extra_broadcast_ips [] c.broadcast_ip in
    ap (λ x. route_dests src broadcast ip x.1) same ∙ rw e refl

-- A text file by its name, if it can be read, and the lines of a file; one that cannot be opened has
-- none.
module _ (std : StrApi) (from_hex : Str → Option ℕ) (read_to_string : Str → Option Str)
    (read_lines : Str → List Str) where
  -- `Config::load`, or the defaults.
  unfoldable pub config : Config
  config = settings std (read_to_string cfg_path)

  module _ {W E : Type 0} (send_to : W → List ℕ → SocketAddr → Sent W E) (now : W → W × ℕ) where
    -- The DHCPv4 service, which `main` runs itself.
    unfoldable pub main : W → List (Received E) → Outcome String (Option E × (MyServer × W))
    main w events =
        Start.run_v4 std.trim std.parse_ipv4 std.parse_ipv6 from_hex send_to now config
          (read_lines config.leases_file) w events

    -- The DHCPv6 service, which runs in a thread of its own if it is enabled.
    unfoldable pub spawned :
        W → List (Received E) → Outcome String (Option (Option E × (V6Pool × W)))
    spawned w events =
        if config.enable_dhcpv6
        then (do
          r ←
              Start.serve_v6 std.trim std.parse_ipv4 std.parse_ipv6 from_hex send_to now config
                (read_lines config.leases_file_v6) w events
          ok (some r))
        else ok none

    config-IsValid : IsValid config
    unfolding config
    config-IsValid = settings-IsValid std (read_to_string cfg_path)

    -- Whatever the configuration file holds, if the calls of the socket return, each address in the
    -- leases file can be read and no datagram panics in the decoder, then `main` handles all that it
    -- receives without a panic, keeps a table that meets the invariant and sends nothing but replies to
    -- the packet being handled, in the name of the configured server: what these, the clock and each
    -- receipt leave intact holds at the end.
    pub main_serves :
        (P : List (Received E) → W → Type 0)
        → IsSocket send_to
        → (ticks : (events : List (Received E)) (w : W) → P events w → P events (now w).0)
        → (next : (e : Received E) (events : List (Received E)) (w : W)
            → P (e ∷ events) w
            → P events w)
        → IsKeptFrom send_to P (before_receipt config.server_ip (broadcasts config))
        → (w : W) (events : List (Received E))
        → All
            (λ line. IsReadableLine std.trim std.parse_ipv4 std.parse_ipv6 from_hex (split 44 line))
            (read_lines config.leases_file)
        → All IsHarmless events
        → P events w
        → (why : Option E) × (s : MyServer) × (w' : W) × (main w events ≡ ok (why, (s, w')))
          × IsTable s
          × P [] w'
    unfolding main Start.run_v4 serve_with_broadcasts
    main_serves P works ticks next keep w events readable harmless p =
        let (s, e, r, _) =
          start-IsReserved std.trim std.parse_ipv4 std.parse_ipv6 from_hex config
            (read_lines config.leases_file) config-IsValid readable in
        let (why, t, w', e', p', v, _) =
          receive_all_replies send_to now works P ticks next
            (before_receipt config.server_ip (broadcasts config)) s w events keep r.table
            r.additional harmless p in
        (why, t, w', rw e e', v, p')

    -- Whatever the files hold, if the calls of the socket return then no datagram makes the thread of
    -- the DHCPv6 service panic. It runs exactly if it is enabled, and its pool meets the invariant to
    -- the end.
    pub spawned-Inv :
        IsSocket send_to
        → (w : W) (events : List (Received E))
        → (config.enable_dhcpv6 ≡ false) × (spawned w events ≡ ok none)
          ⊎ (config.enable_dhcpv6 ≡ true)
            × ((why : Option E) × (p : V6Pool) × (w' : W) × (spawned w events
                  ≡ ok (some (why, (p, w'))))
                × Inv p)
    unfolding spawned
    spawned-Inv works w events = elim (Bool-cases config.enable_dhcpv6) [
      | inr off ↦ inl (off, rw off refl)
      | inl on ↦
          let (why, p, w', e, v) =
            serve_v6-Inv std.trim std.parse_ipv4 std.parse_ipv6 from_hex send_to now works config
              config-IsValid (read_lines config.leases_file_v6) w events in
          inr (on, (why, p, w', if_true config.enable_dhcpv6 _ _ on ∙ rw e refl, v))
    ]
