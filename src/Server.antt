-- ===== src/Server.antt =====
-- src/server.rs: the DHCPv4 server between the socket and its handler.
-- The socket and the handler are parameters: a state and the function of each call on it.
pub mod Filter
pub mod Route
pub mod Reply
pub mod Serve
mod Tests
use Prim.Native.String.{String}
use rusty_dhcp.Base.{
  ℕ, zero, suc, Bool, true, false, not, ◌&&◌, ◌||◌, List, [], ◌∷◌, ◌++◌, Option, none, some, length,
  ◌==◌, replicate, ◌-◌, ◌^◌, if◌then◌else◌, Outcome, ok, err, panic, ◌>>=◌,
}
use rusty_dhcp.Options.{Ipv4Addr, MessageType, DhcpOption}
use rusty_dhcp.Options.Codes
use rusty_dhcp.Packet.{CustomErr, Packet, option, encode, from, wire_max}
use rusty_dhcp.Server.Filter.{filter_options_by_req}

-- `std::net::IpAddr`, an address of either version as its number.
pub data IpAddr : Type 0 where
  v4 v6 : ℕ → IpAddr

pub record SocketAddr : Type 0 where
  pub ip : IpAddr
  pub port : ℕ

abbrev pub is_unspecified : IpAddr → Bool
is_unspecified (IpAddr.v4 a) = a == 0
is_unspecified (IpAddr.v6 a) = a == 0

-- A `Server` without its socket.
pub record Server : Type 0 where
  pub src : SocketAddr
  pub server_ip : Ipv4Addr
  pub broadcasts : List Ipv4Addr

unfoldable pub describe_decode_error : CustomErr → String
describe_decode_error (CustomErr.nom_error input kind) = "bad magic cookie"
describe_decode_error CustomErr.non_utf8_string = "non-UTF8 string option"
describe_decode_error CustomErr.unrecognized_message_type = "unrecognized message type"
describe_decode_error CustomErr.invalid_hlen = "truncated header or option"

-- `for b in broadcasts { dst.set_ip(b); out.push(dst) }`, with the peer's port.
pub to_each : SocketAddr → List Ipv4Addr → List SocketAddr
to_each peer [] = []
to_each peer (b ∷ broadcasts) =
    record { ip = IpAddr.v4 b; port = peer.port } ∷ to_each peer broadcasts

unfoldable pub route_dests : SocketAddr → Bool → Ipv4Addr → List Ipv4Addr → List SocketAddr
unfolding to_each
route_dests peer broadcast yiaddr broadcasts =
    if broadcast || is_unspecified peer.ip
    then to_each peer broadcasts
      ++ (if not broadcast && is_unspecified peer.ip && not (yiaddr == 0)
          then record { ip = IpAddr.v4 yiaddr; port = peer.port } ∷ []
          else [])
    else peer ∷ []

-- The options of a reply: the two that `reply` adds go first.
abbrev pub reply_options : Server → MessageType → List DhcpOption → List DhcpOption
reply_options s m additional =
    DhcpOption.dhcp_message_type m ∷ DhcpOption.server_identifier s.server_ip ∷ additional

-- `if let Some(ParameterRequestList(prl)) = found { filter_options_by_req(&mut opts, prl) }`
unfoldable pub filter_requested :
    Option DhcpOption → List DhcpOption → Outcome String (List DhcpOption)
filter_requested (some (DhcpOption.parameter_request_list prl)) opts =
    filter_options_by_req opts prl
filter_requested found opts = ok opts

abbrev ciaddr_for : MessageType → Packet → Ipv4Addr
ciaddr_for MessageType.nak req = 0
ciaddr_for m req = req.ciaddr

-- The packet that `reply` sends, with its options.
abbrev pub reply_with : MessageType → Ipv4Addr → Packet → List DhcpOption → Packet
reply_with m offer_ip req opts = record {
  reply = true;
  hops = 0;
  xid = req.xid;
  secs = 0;
  broadcast = req.broadcast;
  ciaddr = ciaddr_for m req;
  yiaddr = offer_ip;
  siaddr = 0;
  giaddr = req.giaddr;
  chaddr = req.chaddr;
  options = opts;
}

unfoldable pub reply_packet :
    Server → MessageType → List DhcpOption → Ipv4Addr → Packet → Outcome String Packet
reply_packet s m additional offer_ip req = do
  opts ← filter_requested (option req Codes.parameter_request_list) (reply_options s m additional)
  ok (reply_with m offer_ip req opts)

unfoldable pub for_this_server : Server → Packet → Bool
for_this_server s packet = elim (option packet Codes.server_identifier) [
  | some (DhcpOption.server_identifier x) ↦ x == s.server_ip
  | _ ↦ false
]

-- The result of a call that sends: the socket, with the last byte count, or the error.
pub data Sent (S E : Type 0) : Type 0 where
  sent : S → ℕ → Sent S E
  failed : S → E → Sent S E
  panicked : Sent S E

-- `socket.send_to(bytes, addr)`, a parameter.
module _ {S E : Type 0} (send_to : S → List ℕ → SocketAddr → Sent S E) where
  -- `for dst in dests { sent = socket.send_to(wire, dst)? }`
  unfoldable pub fan_out : S → List ℕ → ℕ → List SocketAddr → Sent S E
  fan_out socket bytes count [] = Sent.sent socket count
  fan_out socket bytes count (dst ∷ dests) = elim (send_to socket bytes dst) [
    | sent socket' n ↦ fan_out socket' bytes n dests
    | failed socket' e ↦ Sent.failed socket' e
    | panicked ↦ Sent.panicked
  ]

  -- `send` behind `encode`; the first test is the fast path.
  abbrev pub deliver : Server → S → Packet → Outcome CustomErr (List ℕ × List ℕ) → Sent S E
  deliver s socket p (ok (bytes, buffer)) =
      if not p.broadcast && not (is_unspecified s.src.ip)
      then send_to socket bytes s.src
      else fan_out socket bytes 0 (route_dests s.src p.broadcast p.yiaddr s.broadcasts)
  deliver s socket p (err e) = Sent.panicked
  deliver s socket p panic = Sent.panicked

  -- `[0u8; WIRE_MAX]` is the buffer.
  unfoldable pub send : Server → S → Packet → Sent S E
  send s socket p = deliver s socket p (encode p (replicate wire_max 0))

  -- `reply` behind the packet that it builds.
  abbrev pub send_built : Server → S → Outcome String Packet → Sent S E
  send_built s socket (ok p) = send s socket p
  send_built s socket (err e) = Sent.panicked
  send_built s socket panic = Sent.panicked

  unfoldable pub reply : Server → S → MessageType → List DhcpOption → Ipv4Addr → Packet → Sent S E
  reply s socket m additional offer_ip req =
      send_built s socket (reply_packet s m additional offer_ip req)

-- `Ipv4Addr::BROADCAST` stands in for an empty list.
abbrev or_limited : List Ipv4Addr → List Ipv4Addr
or_limited [] = (2 ^ 32 - 1) ∷ []
or_limited (b ∷ broadcasts) = b ∷ broadcasts

-- The server before the first datagram.
abbrev pub before_receipt : Ipv4Addr → List Ipv4Addr → Server
before_receipt server_ip broadcasts = record {
  src = record { ip = IpAddr.v4 0; port = 0 };
  server_ip = server_ip;
  broadcasts = or_limited broadcasts;
}

-- What `recv_from` returns: an error, or the bytes that came, at most 1500, and their sender.
pub data Received (E : Type 0) : Type 0 where
  no_datagram : E → Received E
  datagram : List ℕ → SocketAddr → Received E

-- The handler, with all that it changes in `H`.
module _ {H : Type 0} (handle_request : H → Server → Packet → Outcome String H) where
  -- One datagram; a malformed one is logged, which is left out.
  unfoldable pub on_datagram : Server → H → List ℕ → SocketAddr → Outcome String (Server × H)
  on_datagram s h bytes src = elim (from bytes) [
    | ok p ↦ do h' ← handle_request h (record s { src = src }) p; ok (record s { src = src }, h')
    | err e ↦ ok (s, h)
    | panic ↦ panic
  ]

module _ {H E : Type 0} (handle_request : H → Server → Packet → Outcome String H) where
  -- The loop over what is received, up to the first error, or to the end of the list.
  unfoldable pub receive_all : Server → H → List (Received E) → Outcome String (Option E × H)
  receive_all s h [] = ok (none, h)
  receive_all s h (no_datagram e ∷ events) = ok (some e, h)
  receive_all s h (datagram bytes src ∷ events) = do
    (s', h') ← on_datagram handle_request s h bytes src
    receive_all s' h' events

  unfoldable pub serve_with_broadcasts :
      Ipv4Addr → List Ipv4Addr → H → List (Received E) → Outcome String (Option E × H)
  serve_with_broadcasts server_ip broadcasts h events =
      receive_all (before_receipt server_ip broadcasts) h events

  unfoldable pub serve : Ipv4Addr → Ipv4Addr → H → List (Received E) → Outcome String (Option E × H)
  serve server_ip broadcast_ip h events =
      serve_with_broadcasts server_ip (broadcast_ip ∷ []) h events
