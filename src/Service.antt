-- ===== src/Service.antt =====
-- src/main.rs, the handler of `MyServer`: what the DHCPv4 service does with a packet.
-- The socket and the clock are parameters, on a state that both share. Log lines are left out.
pub mod Send
pub mod Answers
pub mod Handlers
pub mod Effect
pub mod Run
pub mod Exchange
pub mod Traffic
mod Tests
use Prim.Native.String.{String}
use rusty_dhcp.Base.{
  ℕ, ◌+◌, ◌==◌, Bool, true, false, not, ◌&&◌, List, [], ◌∷◌, Option, none, some, is_none, leb,
  length, if◌then◌else◌, Outcome, ok, err, panic, ◌>>=◌,
}
use rusty_dhcp.Options.{Ipv4Addr, Str, MessageType, RawDhcpOption, DhcpOption, all_octets}
use rusty_dhcp.Options.Codes
use rusty_dhcp.Packet.{Packet, option, message_type}
use rusty_dhcp.Server
use rusty_dhcp.Server.{Server, SocketAddr, Sent, for_this_server, route_dests}
use rusty_dhcp.Leases.{
  MyServer, available_at, current_lease, insert_lease, remove_lease, remember_hostname, search_free,
}

unfoldable pub hostname_of : Packet → Option Str
hostname_of p = elim (option p Codes.host_name) [
  | some (DhcpOption.host_name name) ↦ some name
  | _ ↦ none
]

-- The NTP option, `if enable_ntp && !ntp_ips.is_empty()`.
unfoldable pub ntp_option : List Ipv4Addr → Bool → List DhcpOption
ntp_option ntp_ips enable_ntp =
    if enable_ntp && not (leb (length ntp_ips) 0)
    then DhcpOption.unrecognized
        (record { code = Codes.network_time_protocol_servers; payload = all_octets ntp_ips })
      ∷ []
    else []

unfoldable pub build_offer_options :
    Ipv4Addr → Ipv4Addr → List Ipv4Addr → List Ipv4Addr → Bool → ℕ → List DhcpOption
build_offer_options subnet_mask router_ip dns_ips ntp_ips enable_ntp lease_secs =
    DhcpOption.ip_address_lease_time lease_secs
    ∷ DhcpOption.subnet_mask subnet_mask
    ∷ DhcpOption.router (router_ip ∷ [])
    ∷ DhcpOption.domain_name_server dns_ips
    ∷ ntp_option ntp_ips enable_ntp

abbrev pub offer_options : MyServer → List DhcpOption
offer_options s = s.cached_offer

-- The address that a Request is about.
unfoldable pub requested_ip : Packet → Ipv4Addr
requested_ip p = elim (option p Codes.requested_ip_address) [
  | some (DhcpOption.requested_ip_address a) ↦ a
  | _ ↦ p.ciaddr
]

-- "Requested IP not available"
abbrev pub not_available : Str
not_available =
    82 ∷ 101 ∷ 113 ∷ 117 ∷ 101 ∷ 115 ∷ 116 ∷ 101 ∷ 100 ∷ 32 ∷ 73 ∷ 80 ∷ 32 ∷ 110 ∷ 111 ∷ 116 ∷ 32
    ∷ 97 ∷ 118 ∷ 97 ∷ 105 ∷ 108 ∷ 97 ∷ 98 ∷ 108 ∷ 101 ∷ []

-- `if let Err(e) = s.reply(..) { eprintln!(..) }`
abbrev pub logged : {W E : Type 0} → Sent W E → Outcome String W
logged (Sent.sent w n) = ok w
logged (Sent.failed w e) = ok w
logged Sent.panicked = panic

-- Whether a Discover is to be committed at once.
unfoldable pub is_rapid : MyServer → Packet → Bool
is_rapid s p = s.enable_rapid_commit && not (is_none (option p Codes.rapid_commit))

-- Where a reply goes, for the log.
unfoldable pub dsts_for : MyServer → Server → Bool → Ipv4Addr → List SocketAddr
dsts_for s server broadcast yiaddr = route_dests server.src broadcast yiaddr s.broadcasts

-- `socket.send_to(bytes, addr)` and `Instant::now()`, as parameters.
module _ {W E : Type 0} (send_to : W → List ℕ → SocketAddr → Sent W E) (now : W → W × ℕ) where
  unfoldable pub reply : MyServer → W → Server → MessageType → Packet → Ipv4Addr → Outcome String W
  reply s w server m req ip = logged (Server.reply send_to server w m (offer_options s) ip req)

  unfoldable pub nak : W → Server → Packet → Str → Outcome String W
  nak w server req text =
      logged (Server.reply send_to server w MessageType.nak (DhcpOption.message text ∷ []) 0 req)

  -- The answer to a client that has a lease: its name is remembered.
  unfoldable pub answer_existing :
      MyServer → W → Server → MessageType → Packet → Ipv4Addr → Outcome String (MyServer × W)
  answer_existing s w server m req ip = do
    s' ← remember_hostname s ip (hostname_of req)
    w' ← reply s' w server m req ip
    ok (s', w')

  -- A new lease, and its acknowledgement.
  unfoldable pub grant :
      MyServer → W → Server → Packet → Ipv4Addr → ℕ → Outcome String (MyServer × W)
  grant s w server req ip expiry = do
    s' ← insert_lease s ip req.chaddr (some expiry) (hostname_of req)
    w' ← reply s' w server MessageType.ack req ip
    ok (s', w')

  -- A lease on the first free address, if there is one.
  unfoldable pub commit_free : MyServer → W → Server → Packet → ℕ → Outcome String (MyServer × W)
  commit_free s w server req time = do
    (s', cand) ← search_free s.lease_num s req.chaddr time
    elim cand [ none ↦ ok (s', w) | some ip ↦ grant s' w server req ip (time + s'.lease_duration) ]

  -- An offer of the first free address, if there is one.
  unfoldable pub offer_free : MyServer → W → Server → Packet → ℕ → Outcome String (MyServer × W)
  offer_free s w server req time = do
    (s', cand) ← search_free s.lease_num s req.chaddr time
    elim cand [
      | none ↦ ok (s', w)
      | some ip ↦ do w' ← reply s' w server MessageType.offer req ip; ok (s', w')
    ]

  unfoldable pub handle_rapid : MyServer → W → Server → Packet → Outcome String (MyServer × W)
  handle_rapid s w server req = do
    current ← current_lease s req.chaddr
    elim current [
      | some ip ↦ answer_existing s w server MessageType.ack req ip
      | none ↦ let (w', time) = now w in commit_free s w' server req time
    ]

  unfoldable pub handle_offer : MyServer → W → Server → Packet → Outcome String (MyServer × W)
  handle_offer s w server req = do
    current ← current_lease s req.chaddr
    elim current [
      | some ip ↦ answer_existing s w server MessageType.offer req ip
      | none ↦ let (w', time) = now w in offer_free s w' server req time
    ]

  unfoldable pub handle_discover : MyServer → W → Server → Packet → Outcome String (MyServer × W)
  handle_discover s w server req =
      if is_rapid s req then handle_rapid s w server req else handle_offer s w server req

  -- A lease on the address that is asked for, or a refusal.
  unfoldable pub grant_requested :
      MyServer → W → Server → Packet → ℕ → Outcome String (MyServer × W)
  grant_requested s w server req time = do
    free ← available_at s req.chaddr (requested_ip req) time
    elim free [
      | true ↦ grant s w server req (requested_ip req) (time + s.lease_duration)
      | false ↦ do w' ← nak w server req not_available; ok (s, w')
    ]

  -- A Request that names another server is served like any other.
  unfoldable pub handle_lease_request :
      MyServer → W → Server → Packet → Outcome String (MyServer × W)
  handle_lease_request s w server req = do
    current ← current_lease s req.chaddr
    elim current [
      | some ip ↦ answer_existing s w server MessageType.ack req ip
      | none ↦ let (w', time) = now w in grant_requested s w' server req time
    ]

  -- Release and Decline.
  unfoldable pub handle_release : MyServer → W → Server → Packet → Outcome String (MyServer × W)
  handle_release s w server req = if not (for_this_server server req) then ok (s, w) else do
    current ← current_lease s req.chaddr
    elim current [ none ↦ ok (s, w) | some ip ↦ do s' ← remove_lease s req.chaddr; ok (s', w) ]

  -- Any other message is ignored.
  unfoldable pub handle_request : MyServer × W → Server → Packet → Outcome String (MyServer × W)
  handle_request (s, w) server req = elim (message_type req) [
    | ok MessageType.discover ↦ handle_discover s w server req
    | ok MessageType.request ↦ handle_lease_request s w server req
    | ok MessageType.release ↦ handle_release s w server req
    | ok MessageType.decline ↦ handle_release s w server req
    | _ ↦ ok (s, w)
  ]
