-- ===== src/Service/Tests.antt =====
-- src/main.rs, the handler of `MyServer`: its properties at concrete inputs.
use Prim.Native.String.{String}
use rusty_dhcp.Base.{
  panics, panics-ne_panic, ℕ, ◌+◌, ◌≡◌, ◌≢◌, refl, [], ◌∷◌, List, arith, true, false, Option, none,
  some, ok, replicate, ◌++◌, nat_eq, bytes_eq,
}
use rusty_dhcp.Base.HashMap
use rusty_dhcp.Options.{MessageType, DhcpOption, from_option}
use rusty_dhcp.Base.Slices.{slice, skip}
use rusty_dhcp.Packet.{
  Packet, cookie, from, decode, decode_options, decode_option, message_type_of, at_end,
}
use rusty_dhcp.Server.{IpAddr, SocketAddr, Server, Sent, Received, receive_all}
use rusty_dhcp.Dhcpv6.Pool
use rusty_dhcp.Dhcpv6.Pool.{Entry, checked_add}
use rusty_dhcp.Dhcpv6.Pool.Invariant.{held_at}
use rusty_dhcp.Dhcpv6.Pool.Update.{entry}
use rusty_dhcp.Dhcpv6.Pool.Exclusive.{OneLease}
use rusty_dhcp.Leases.{Mac, MyServer}
use rusty_dhcp.Leases.Image.{entry_of, overflow_of, pool_of}
use rusty_dhcp.Leases.Writes.{lease}
use rusty_dhcp.Leases.Table.{IsTable, holds}
use rusty_dhcp.Service.{handle_request, handle_discover, handle_lease_request, handle_release}
use rusty_dhcp.Service.Send.{IsSocket}
use rusty_dhcp.Service.Answers.{Discovers, Requests, Releases}
use rusty_dhcp.Service.Handlers.{
  handle_discover-Discovers, handle_lease_request-Requests, handle_release-Releases,
}
use rusty_dhcp.Service.Effect.{Returns, handle_request-Returns}
use rusty_dhcp.Service.Run.{handle_request_protects, receive_all-IsTable}

abbrev pub alice : Mac
alice = 2 ∷ 0 ∷ 0 ∷ 0 ∷ 0 ∷ 1 ∷ []

abbrev pub bob : Mac
bob = 2 ∷ 0 ∷ 0 ∷ 0 ∷ 0 ∷ 2 ∷ []

-- A state of the socket and the clock: how much has been sent, and the time.
abbrev pub World : Type 0
World = ℕ × ℕ

-- A socket that counts what it sends and has no route to version 6.
abbrev count_to : World → IpAddr → Sent World String
count_to w (IpAddr.v4 a) = Sent.sent (w.0 + 1, w.1) 300
count_to w (IpAddr.v6 a) = Sent.failed w "no route"

abbrev pub send_to : World → List ℕ → SocketAddr → Sent World String
send_to w bytes dst = count_to w dst.ip

count_to-works : (w : World) (ip : IpAddr) → count_to w ip ≢ Sent.panicked
count_to-works w (IpAddr.v4 a) = λ e. cc
count_to-works w (IpAddr.v6 a) = λ e. cc

pub send_to-IsSocket : IsSocket send_to
send_to-IsSocket w bytes dst = count_to-works w dst.ip

-- A clock that moves on by one.
abbrev pub tick : World → World × ℕ
tick w = ((w.0, w.1 + 1), w.1)

abbrev pub server : Server
server = record {
  src = record { ip = IpAddr.v4 0; port = 68 };
  server_ip = 9;
  broadcasts = 4294967295 ∷ [];
}

-- Three addresses from 10 on; `alice` has the second until 50.
abbrev pub table : MyServer
table = record {
  use_slots = true;
  slots = none ∷ some (lease alice (some 50) none) ∷ none ∷ [];
  filled = 1;
  overflow = [];
  by_mac = (alice, 11) ∷ [];
  last_lease = 0;
  lease_duration = 30;
  ip_start_num = 10;
  lease_num = 3;
  enable_rapid_commit = false;
  broadcasts = 4294967295 ∷ [];
  cached_offer = DhcpOption.ip_address_lease_time 30 ∷ [];
}

pub table-IsTable : IsTable table
unfolding checked_add Pool.idx HashMap.get entry_of overflow_of
table-IsTable = record {
  fits = omega arith;
  inv = record {
    start_fits = omega arith;
    ends = refl;
    last_in_range = omega arith;
    sized = refl;
    counted = refl;
    closed_empty = λ e. cc;
    spilled = tt;
    distinct = tt;
  };
}

abbrev pub packet : Mac → List DhcpOption → Packet
packet mac opts = record {
  reply = false;
  hops = 0;
  xid = 77;
  secs = 0;
  broadcast = true;
  ciaddr = 0;
  yiaddr = 0;
  siaddr = 0;
  giaddr = 0;
  chaddr = mac;
  options = opts;
}

abbrev pub discover : Packet
discover = packet bob (DhcpOption.dhcp_message_type MessageType.discover ∷ [])

-- `bob` asks for the address of `alice`.
abbrev grab : Packet
grab =
    packet bob
      (DhcpOption.dhcp_message_type MessageType.request ∷ DhcpOption.requested_ip_address 11 ∷ [])

abbrev release : Packet
release =
    packet alice
      (DhcpOption.dhcp_message_type MessageType.release ∷ DhcpOption.server_identifier 9 ∷ [])

handle_discover-Discovers_example :
    Discovers send_to tick table
      (0, 40)
      server
      discover
      (handle_discover send_to tick table (0, 40) server discover)
handle_discover-Discovers_example =
    handle_discover-Discovers send_to tick send_to-IsSocket server discover refl table table-IsTable
      (0, 40)

handle_lease_request-Requests_example :
    Requests send_to tick table
      (0, 40)
      server
      grab
      (handle_lease_request send_to tick table (0, 40) server grab)
handle_lease_request-Requests_example =
    handle_lease_request-Requests send_to tick send_to-IsSocket server grab refl table table-IsTable
      (0, 40)

handle_release-Releases_example :
    Releases send_to tick table
      (0, 40)
      server
      release
      (handle_release send_to tick table (0, 40) server release)
handle_release-Releases_example =
    handle_release-Releases send_to tick send_to-IsSocket server release refl table table-IsTable
      (0, 40)

handle_request-Returns_example :
    Returns send_to tick server grab table table-IsTable
      (0, 40)
      (handle_request send_to tick (table, (0, 40)) server grab)
handle_request-Returns_example =
    handle_request-Returns send_to tick server grab table table-IsTable (0, 40) send_to-IsSocket
      refl

handle_request_protects_example :
    (t : MyServer) × (w : World) × (handle_request send_to tick (table, (0, 40)) server grab
      ≡ ok (t, w))
    × (holds t 11 ≡ some (entry alice (some 50)))
unfolding Pool.idx held_at entry_of checked_add
handle_request_protects_example =
    let (t, w, q, _, _) =
      handle_request-Returns send_to tick server grab table table-IsTable (0, 40) send_to-IsSocket
        refl in
    (
      t,
      w,
      q,
      handle_request_protects send_to tick send_to-IsSocket server grab table t (0, 40) w 11
          (entry alice (some 50)) 50 table-IsTable refl q refl refl refl (omega arith),
    )

-- The bytes of a Discover of `bob`.
abbrev discover_bytes : List ℕ
discover_bytes =
    1
    ∷ 1
    ∷ 6
    ∷ (replicate 25 0 ++ (bob ++ (replicate 202 0 ++ (cookie ++ (53 ∷ 1 ∷ 1 ∷ 255 ∷ [])))))

-- A datagram that does not decode, one that does, and an error.
abbrev events : List (Received String)
events =
    Received.datagram (1 ∷ 2 ∷ []) server.src
    ∷ Received.datagram discover_bytes server.src
    ∷ Received.no_datagram "closed"
    ∷ []

discover_decodes : panics (from discover_bytes) ≡ false
unfolding from decode decode_options decode_option message_type_of from_option at_end slice skip
discover_decodes = refl

short_decodes : panics (from (1 ∷ 2 ∷ [])) ≡ false
unfolding from decode
short_decodes = refl

receive_all-IsTable_example :
    (why : Option String) × (t : MyServer) × (w : World) × (receive_all
        (handle_request send_to tick)
        server
        (table, (0, 40))
        events
      ≡ ok (why, (t, w)))
    × IsTable t
    × (OneLease (pool_of table) → OneLease (pool_of t))
receive_all-IsTable_example =
    receive_all-IsTable send_to tick send_to-IsSocket server table (0, 40) events table-IsTable
      (
        panics-ne_panic (from (1 ∷ 2 ∷ [])) short_decodes,
        (panics-ne_panic (from discover_bytes) discover_decodes, (tt, tt)),
      )
