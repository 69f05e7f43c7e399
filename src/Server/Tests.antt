-- ===== src/Server/Tests.antt =====
-- src/server.rs: the properties of the server at concrete inputs.
use Prim.Native.String.{String}
use rusty_dhcp.Base.{ℕ, ◌+◌, ◌≡◌, refl, false, List, [], ◌∷◌, Outcome, ok}
use rusty_dhcp.Options.{MessageType, DhcpOption, code}
use rusty_dhcp.Packet.{Packet}
use rusty_dhcp.Packet.Encode.{wire}
use rusty_dhcp.Server.{
  IpAddr, v4, v6, SocketAddr, Server, route_dests, Sent, fan_out, send, reply_packet, Received,
  receive_all,
}
use rusty_dhcp.Server.Route.{send-route_dests}
use rusty_dhcp.Server.Reply.{Answers, reply_packet-Answers}
use rusty_dhcp.Server.Serve.{decodable, receive_all-decodable}

abbrev server : Server
server = record {
  src = record { ip = IpAddr.v4 0; port = 68 };
  server_ip = 3232235777;
  broadcasts = 4294967295 ∷ 3232236031 ∷ [];
}

-- A mask_request that asks for the mask and the router.
abbrev mask_request : Packet
mask_request = record {
  reply = false;
  hops = 0;
  xid = 77;
  secs = 0;
  broadcast = false;
  ciaddr = 0;
  yiaddr = 3232235876;
  siaddr = 0;
  giaddr = 0;
  chaddr = 2 ∷ 0 ∷ 0 ∷ 0 ∷ 0 ∷ 1 ∷ [];
  options = DhcpOption.parameter_request_list (1 ∷ 3 ∷ []) ∷ [];
}

-- A socket that records where it has sent something and has no route to version 6.
abbrev send_to : List SocketAddr → List ℕ → SocketAddr → Sent (List SocketAddr) String
send_to log bytes dst = elim dst.ip [
  | v4 a ↦ Sent.sent (dst ∷ log) a
  | v6 a ↦ Sent.failed log "no route"
]

send-route_dests_example :
    send send_to server [] mask_request
    ≡ fan_out send_to []
        (wire mask_request)
        0
        (route_dests server.src mask_request.broadcast mask_request.yiaddr server.broadcasts)
send-route_dests_example = send-route_dests send_to server [] mask_request refl

reply_packet-Answers_example :
    (p : Packet) × (reply_packet server MessageType.offer
        (DhcpOption.subnet_mask 4294967040 ∷ DhcpOption.host_name [] ∷ [])
        3232235876
        mask_request
      ≡ ok p)
    × Answers server MessageType.offer 3232235876 mask_request p
unfolding code
reply_packet-Answers_example =
    reply_packet-Answers server MessageType.offer
      (DhcpOption.subnet_mask 4294967040 ∷ DhcpOption.host_name [] ∷ []) 3232235876 mask_request
      ((refl, refl), ((refl, refl), tt))

-- A handler that counts.
abbrev count_requests : ℕ → Server → Packet → Outcome String ℕ
count_requests n s p = ok (n + 1)

abbrev events : List (Received String)
events = Received.datagram (1 ∷ 2 ∷ []) server.src ∷ Received.no_datagram "closed" ∷ []

receive_all-decodable_example :
    receive_all count_requests server 0 events
    ≡ receive_all count_requests server 0 (decodable events)
receive_all-decodable_example = receive_all-decodable count_requests server 0 events
