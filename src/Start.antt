-- ===== src/Start.antt =====
-- src/main.rs: the start of both services, with the files of reserved addresses.
-- A file is the list of its lines. Functions of `str` are parameters but for `split` at a character
-- of one byte, which `split` below is.
pub mod Reserved
pub mod Reserved6
pub mod Services
pub mod Main
mod Tests
use Prim.Native.String.{String}
use rusty_dhcp.Base.{
  ℕ, ◌+◌, ◌==◌, ◌++◌, Bool, true, false, not, leb, List, [], ◌∷◌, replicate, Option, none, some,
  is_none, length, set, if◌then◌else◌, Outcome, ok, err, panic, ◌>>=◌, index, nat_eq, bytes_eq,
}
use rusty_dhcp.Base.HashMap
use rusty_dhcp.Base.Split.{split}
use rusty_dhcp.Base.HashMap.{HashMap}
use rusty_dhcp.Options.{Ipv4Addr, Str}
use rusty_dhcp.Config.{Config, broadcasts}
use rusty_dhcp.Config.Duid.{parse_duid_hex}
use rusty_dhcp.Leases.{Mac, Lease, MyServer, idx, in_pool}
use rusty_dhcp.Leases
use rusty_dhcp.Server.{SocketAddr, Sent, Received, serve_with_broadcasts}
use rusty_dhcp.Service.{build_offer_options, handle_request}
use rusty_dhcp.Service6.{receive_all6}
use rusty_dhcp.Dhcpv6.Pool
use rusty_dhcp.Dhcpv6.Pool.{Ipv6Addr, Duid, V6Pool}

-- The tables that `main` fills, as the fields of the server that they become.
unfoldable pub initial : Config → MyServer
initial c =
    let use_slots = leb c.lease_num 100_000 in
    record {
      use_slots = use_slots;
      slots = if use_slots then replicate c.lease_num none else [];
      filled = 0;
      overflow = [];
      by_mac = [];
      last_lease = 0;
      lease_duration = c.lease_duration_secs;
      ip_start_num = c.ip_start;
      lease_num = c.lease_num;
      enable_rapid_commit = c.enable_rapid_commit;
      broadcasts = broadcasts c;
      cached_offer =
          build_offer_options c.subnet_mask c.router_ip c.dns_ips c.ntp_ips c.enable_ntp
            c.lease_duration_secs;
    }

-- `(mac, INFINITE_LEASE, None)`
abbrev pub reservation : Mac → Lease
reservation mac = record { mac = mac; expiry = none; hostname = none }

abbrev spill : MyServer → Ipv4Addr → Mac → HashMap Mac Ipv4Addr → MyServer
spill s ip mac hints = record s {
  overflow = HashMap.insert ip (reservation mac) s.overflow;
  by_mac = HashMap.insert mac ip hints;
}

-- A line of the leases file: `slot_idx` is `idx`. Without slots an address out of range is inserted
-- on its own, in the same way.
unfoldable pub reserve : MyServer → Ipv4Addr → Mac → Outcome String MyServer
reserve s ip mac = elim (idx s ip) [
  | some i ↦ do
    old ← index s.slots i
    ok (record s {
      slots = set s.slots i (some (reservation mac));
      filled = if is_none old then s.filled + 1 else s.filled;
      by_mac = HashMap.insert mac ip (Leases.drop_hint old mac ip s.by_mac);
    })
  | none ↦
      let hints = Leases.drop_hint (HashMap.get ip s.overflow) mac ip s.by_mac in
      if not s.use_slots
      then (if not (in_pool s ip) then ok (spill s ip mac hints) else ok (spill s ip mac hints))
      else ok (spill s ip mac hints)
]

-- The functions of `str`: `trim`, `parse`, and `u8::from_str_radix` to base 16.
module _ (trim : Str → Str) (parse_ipv4 : Str → Option Ipv4Addr)
    (parse_ipv6 : Str → Option Ipv6Addr) (from_hex : Str → Option ℕ) where
  -- `filter_map(|part| u8::from_str_radix(part, 16).ok())`
  unfoldable pub mac_bytes : List Str → List ℕ
  mac_bytes [] = []
  mac_bytes (part ∷ parts) = elim (from_hex part) [
    | some b ↦ b ∷ mac_bytes parts
    | none ↦ mac_bytes parts
  ]

  -- The `unwrap` of the address.
  abbrev pub reserve_parsed : MyServer → Mac → Option Ipv4Addr → Outcome String MyServer
  reserve_parsed s mac (some ip) = reserve s ip mac
  reserve_parsed s mac none = panic

  unfoldable pub load_parts : MyServer → List Str → Outcome String MyServer
  load_parts s (mac_text ∷ ip_text ∷ []) =
      if length (mac_bytes (split 58 mac_text)) == 6
      then reserve_parsed s (mac_bytes (split 58 mac_text)) (parse_ipv4 (trim ip_text))
      else ok s
  load_parts s parts = ok s

  unfoldable pub load_leases : MyServer → List Str → Outcome String MyServer
  load_leases s [] = ok s
  load_leases s (line ∷ lines) = do s' ← load_parts s (split 44 line); load_leases s' lines

  -- `if let (Ok(duid), Ok(ip)) = ..`, and `!duid.is_empty()`.
  abbrev pub insert_parsed :
      V6Pool → Outcome String (List ℕ) → Option Ipv6Addr → Outcome String V6Pool
  insert_parsed p (ok []) (some ip) = ok p
  insert_parsed p (ok (b ∷ duid)) (some ip) = Pool.insert p ip (b ∷ duid) none
  insert_parsed p (ok duid) none = ok p
  insert_parsed p (err e) ip = ok p
  insert_parsed p panic ip = panic

  unfoldable pub load_parts6 : V6Pool → List Str → Outcome String V6Pool
  load_parts6 p (duid_text ∷ ip_text ∷ []) =
      insert_parsed p (parse_duid_hex (trim duid_text)) (parse_ipv6 (trim ip_text))
  load_parts6 p parts = ok p

  unfoldable pub load_leases6 : V6Pool → List Str → Outcome String V6Pool
  load_leases6 p [] = ok p
  load_leases6 p (line ∷ lines) = do p' ← load_parts6 p (split 44 line); load_leases6 p' lines

  -- The server that `main` runs; a leases file that cannot be opened has no lines.
  unfoldable pub start : Config → List Str → Outcome String MyServer
  start c lines = load_leases (initial c) lines

  -- The pool of `serve_v6`.
  unfoldable pub start6 : Config → List Str → Outcome String V6Pool
  start6 c lines =
      load_leases6 (Pool.new c.ipv6_start c.ipv6_lease_num c.ipv6_lease_duration_secs) lines

  -- The socket and the clock, as in the services.
  module _ {W E : Type 0} (send_to : W → List ℕ → SocketAddr → Sent W E) (now : W → W × ℕ) where
    -- `main`, from the settings and the lines of the leases file to the end of the service.
    unfoldable pub run_v4 :
        Config → List Str → W → List (Received E) → Outcome String (Option E × (MyServer × W))
    run_v4 c lines w events = do
      s ← start c lines
      serve_with_broadcasts (handle_request send_to now) c.server_ip (broadcasts c) (s, w) events

    -- `serve_v6`
    unfoldable pub serve_v6 :
        Config → List Str → W → List (Received E) → Outcome String (Option E × (V6Pool × W))
    serve_v6 c lines w events = do p ← start6 c lines; receive_all6 send_to now c p w events
