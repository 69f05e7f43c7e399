-- ===== src/Service6.antt =====
-- src/main.rs, `serve_v6`: the DHCPv6 service, from a datagram that comes in to the one that goes
-- out. The socket and the clock are parameters, on a state that both share; a call on the pool
-- reads the clock. Log lines are left out.
pub mod Serves
use Prim.Native.String.{String}
use rusty_dhcp.Base.{
  ℕ, Bool, true, false, not, ◌&&◌, List, [], ◌∷◌, ◌++◌, Option, none, some, is_none, leb, length,
  if◌then◌else◌, Outcome, ok, err, panic, ◌>>=◌,
}
use rusty_dhcp.Server.{SocketAddr, Sent, Received, no_datagram, datagram}
use rusty_dhcp.Config.{Config}
use rusty_dhcp.Service.{logged}
use rusty_dhcp.Dhcpv6.Codes.{opt_clientid, opt_rapid_commit}
use rusty_dhcp.Dhcpv6.Codec.{MsgType, EncodeError, IaAddr, IaNa, Dhcpv6Option}
use rusty_dhcp.Dhcpv6.Times.{default_t1_t2}
use rusty_dhcp.Dhcpv6.Datagram.{Datagram, from6, encode6, option6, first_iana, is_for_server}
use rusty_dhcp.Dhcpv6.Pool.{Ipv6Addr, Duid, V6Pool, discover, request, release}

abbrev pub status_no_addrs_avail : ℕ
status_no_addrs_avail = 2

-- "NoAddrsAvail"
abbrev no_addrs_text : List ℕ
no_addrs_text = 78 ∷ 111 ∷ 65 ∷ 100 ∷ 100 ∷ 114 ∷ 115 ∷ 65 ∷ 118 ∷ 97 ∷ 105 ∷ 108 ∷ []

unfoldable pub iaid_of : Datagram → ℕ
iaid_of req = elim (first_iana req) [ some ia ↦ ia.iaid | none ↦ 0 ]

-- The DNS option, `if !dns.is_empty()`.
unfoldable pub dns_option : List Ipv6Addr → List Dhcpv6Option
dns_option [] = []
dns_option (a ∷ dns) = Dhcpv6Option.dns_servers (a ∷ dns) ∷ []

-- The packet of `send_v6`.
unfoldable pub lease_reply :
    List ℕ → Duid → Datagram → MsgType → Ipv6Addr → List Ipv6Addr → ℕ → Datagram
lease_reply server_duid client_duid req m ip dns lease_secs =
    let (t1, t2) = default_t1_t2 lease_secs in
    record {
      msg_type = m;
      transaction_id = req.transaction_id;
      options =
          Dhcpv6Option.server_id server_duid
          ∷ Dhcpv6Option.client_id client_duid
          ∷ Dhcpv6Option.ia_na (record {
            iaid = iaid_of req;
            t1 = t1;
            t2 = t2;
            addrs = record { addr = ip; preferred = lease_secs; valid = lease_secs } ∷ [];
          })
          ∷ dns_option dns;
    }

-- The packet of `send_v6_nodata`.
unfoldable pub nodata_reply : List ℕ → Duid → Datagram → MsgType → Datagram
nodata_reply server_duid client_duid req m = record {
  msg_type = m;
  transaction_id = req.transaction_id;
  options =
      Dhcpv6Option.server_id server_duid
      ∷ Dhcpv6Option.client_id client_duid
      ∷ Dhcpv6Option.ia_na (record { iaid = iaid_of req; t1 = 0; t2 = 0; addrs = [] })
      ∷ Dhcpv6Option.status_code status_no_addrs_avail no_addrs_text
      ∷ [];
}

-- The address that a Request, Renew or Rebind is about.
unfoldable pub wanted : Datagram → Option Ipv6Addr
wanted req = elim (first_iana req) [
  | none ↦ none
  | some ia ↦ elim ia.addrs [ [] ↦ none | a ∷ addrs ↦ some a.addr ]
]

-- Whether a Solicit is to be committed at once.
unfoldable pub is_rapid6 : Config → Datagram → Bool
is_rapid6 c req = c.enable_rapid_commit && not (is_none (option6 req opt_rapid_commit))

-- The client's DUID.
unfoldable pub client_duid : Datagram → Option Duid
client_duid req = elim (option6 req opt_clientid) [
  | some (Dhcpv6Option.client_id d) ↦ some d
  | _ ↦ none
]

-- `socket.send_to(bytes, addr)` and `Instant::now()`, as parameters.
module _ {W E : Type 0} (send_to : W → List ℕ → SocketAddr → Sent W E) (now : W → W × ℕ)
    (config : Config) where
  -- `let _ = ..`: an error of the encoder or of the socket is dropped.
  unfoldable pub transmit : W → SocketAddr → Datagram → Outcome String W
  transmit w dst p = elim (encode6 p) [
    | ok bytes ↦ logged (send_to w bytes dst)
    | err e ↦ ok w
    | panic ↦ panic
  ]

  unfoldable pub send_v6 : W → SocketAddr → Duid → Datagram → MsgType → Ipv6Addr → Outcome String W
  send_v6 w dst duid req m ip =
      transmit w dst (
        lease_reply config.server_duid duid req m ip config.ipv6_dns
          config.ipv6_lease_duration_secs)

  unfoldable pub send_v6_nodata : W → SocketAddr → Duid → Datagram → MsgType → Outcome String W
  send_v6_nodata w dst duid req m = transmit w dst (nodata_reply config.server_duid duid req m)

  -- The reply to a request for `addr`: a lease or a refusal.
  unfoldable pub answer_request :
      V6Pool → W → SocketAddr → Duid → Datagram → Ipv6Addr → Outcome String (V6Pool × W)
  answer_request p w src duid req addr =
      let (w', time) = now w in
      elim (request p duid addr time) [
        | ok (p', ip) ↦ do w'' ← send_v6 w' src duid req MsgType.reply ip; ok (p', w'')
        | err e ↦ do w'' ← send_v6_nodata w' src duid req MsgType.reply; ok (p, w'')
        | panic ↦ panic
      ]

  unfoldable pub on_solicit :
      V6Pool → W → SocketAddr → Duid → Datagram → Outcome String (V6Pool × W)
  on_solicit p w src duid req = do
    (p', offer) ← discover p duid (now w).1
    elim offer [
      | some ip ↦
          if is_rapid6 config req
          then answer_request p' (now w).0 src duid req ip
          else (do w' ← send_v6 (now w).0 src duid req MsgType.advertise ip; ok (p', w'))
      | none ↦ do
        w' ←
            send_v6_nodata (now w).0 src duid req
              (if is_rapid6 config req then MsgType.reply else MsgType.advertise)
        ok (p', w')
    ]

  -- Request, Renew and Rebind.
  unfoldable pub on_request :
      V6Pool → W → SocketAddr → Duid → Datagram → Outcome String (V6Pool × W)
  on_request p w src duid req = elim (wanted req) [
    | none ↦ ok (p, w)
    | some addr ↦ answer_request p w src duid req addr
  ]

  -- Release and Decline.
  unfoldable pub on_release : V6Pool → W → Duid → Datagram → Outcome String (V6Pool × W)
  on_release p w duid req =
      if is_for_server config.server_duid req
      then (do (p', gone) ← release p duid; ok (p', w))
      else ok (p, w)

  -- Any other message is ignored.
  unfoldable pub on_message :
      V6Pool → W → SocketAddr → Duid → Datagram → Outcome String (V6Pool × W)
  on_message p w src duid req = elim req.msg_type [
    | MsgType.solicit ↦ on_solicit p w src duid req
    | MsgType.request ↦ on_request p w src duid req
    | MsgType.renew ↦ on_request p w src duid req
    | MsgType.rebind ↦ on_request p w src duid req
    | MsgType.release ↦ on_release p w duid req
    | MsgType.decline ↦ on_release p w duid req
    | _ ↦ ok (p, w)
  ]

  -- One datagram; one that does not decode, or that names no client, is ignored.
  unfoldable pub on_datagram6 : V6Pool → W → List ℕ → SocketAddr → Outcome String (V6Pool × W)
  on_datagram6 p w bytes src = elim (from6 bytes) [
    | ok req ↦ elim (client_duid req) [ some duid ↦ on_message p w src duid req | none ↦ ok (p, w) ]
    | err e ↦ ok (p, w)
    | panic ↦ panic
  ]

  -- The loop over what is received, up to the first error of the socket, or to the end of the list.
  unfoldable pub receive_all6 :
      V6Pool → W → List (Received E) → Outcome String (Option E × (V6Pool × W))
  receive_all6 p w [] = ok (none, (p, w))
  receive_all6 p w (no_datagram e ∷ events) = ok (some e, (p, w))
  receive_all6 p w (datagram bytes src ∷ events) = do
    (p', w') ← on_datagram6 p w bytes src
    receive_all6 p' w' events
