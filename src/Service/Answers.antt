-- ===== src/Service/Answers.antt =====
-- src/main.rs, the handler of `MyServer`: what each packet does to the leases and what is answered.
use Prim.Native.String.{String}
use rusty_dhcp.Base.{
  ℕ, ◌+◌, ◌-◌, ◌≤◌, ◌<◌, ◌≡◌, true, false, List, none, some, length, if◌then◌else◌, Outcome, ok,
}
use rusty_dhcp.Options.{Ipv4Addr, Str, MessageType}
use rusty_dhcp.Packet.{Packet}
use rusty_dhcp.Server.{Server, SocketAddr, Sent, for_this_server}
use rusty_dhcp.Dhcpv6.Pool.Update.{entry}
use rusty_dhcp.Dhcpv6.Pool.Lease.{Finds}
use rusty_dhcp.Leases.{MyServer}
use rusty_dhcp.Leases.Table.{IsTable, holds, Changes, insert_lease-Changes}
use rusty_dhcp.Leases.Hostname.{Names, remember_hostname-Names}
use rusty_dhcp.Leases.Search.{is_free, at}
use rusty_dhcp.Service
use rusty_dhcp.Service.{hostname_of, offer_options, requested_ip, not_available, is_rapid, logged}
use rusty_dhcp.Service.Send.{IsSocket, reply-logged}

module _ {W E : Type 0} (send_to : W → List ℕ → SocketAddr → Sent W E) (now : W → W × ℕ) where
  abbrev pub Result : Type 0
  Result = Outcome String (MyServer × W)

  -- The client has a lease: it is told its address in a message `m`, and its name is remembered.
  pub data Renews (s : MyServer) (w : W) (server : Server) (req : Packet) (m : MessageType)
      : Result → Type 0 where
    renewed :
        (ip : Ipv4Addr) (t : MyServer) (w' : W)
        → Finds (holds s) req.chaddr (some ip)
        → Names s t ip (hostname_of req)
        → Service.reply send_to now t w server m req ip ≡ ok w'
        → Renews s w server req m (ok (t, w'))

  -- The client gets a lease on `ip`, which runs out at `expiry`, and is told so.
  pub data Grants (s : MyServer) (w : W) (server : Server) (req : Packet) (ip : Ipv4Addr)
      (expiry : ℕ) : Result → Type 0 where
    granted :
        (t : MyServer) (w' : W)
        → Changes s t ip (some (entry req.chaddr (some expiry)))
        → Service.reply send_to now t w server MessageType.ack req ip ≡ ok w'
        → Grants s w server req ip expiry (ok (t, w'))

  -- The answer to a Discover, in whose time the clock stands at `time` and the state of the socket
  -- at `w'`.
  pub data Discovers (s : MyServer) (w : W) (server : Server) (req : Packet) : Result → Type 0 where
    known :
        {x : Result}
        → Renews s w server req (if is_rapid s req then MessageType.ack else MessageType.offer) x
        → Discovers s w server req x
    offered :
        (n : ℕ) (w' : W)
        → is_rapid s req ≡ false
        → Finds (holds s) req.chaddr none
        → n < s.lease_num
        → is_free s req.chaddr (now w).1 (s.ip_start_num + n) ≡ true
        → Service.reply send_to now
            (at s n)
            (now w).0
            server
            MessageType.offer
            req
            (s.ip_start_num + n)
          ≡ ok w'
        → Discovers s w server req (ok (at s n, w'))
    committed :
        {x : Result} (n : ℕ)
        → is_rapid s req ≡ true
        → Finds (holds s) req.chaddr none
        → n < s.lease_num
        → is_free s req.chaddr (now w).1 (s.ip_start_num + n) ≡ true
        → Grants (at s n) (now w).0 server req (s.ip_start_num + n) ((now w).1 + s.lease_duration) x
        → Discovers s w server req x
    silent :
        (n : ℕ)
        → Finds (holds s) req.chaddr none
        → n ≤ s.lease_num - 1
        → ((a : Ipv4Addr) → is_free s req.chaddr (now w).1 a ≡ false)
        → Discovers s w server req (ok (at s n, (now w).0))

  -- The answer to a Request.
  pub data Requests (s : MyServer) (w : W) (server : Server) (req : Packet) : Result → Type 0 where
    known : {x : Result} → Renews s w server req MessageType.ack x → Requests s w server req x
    acknowledged :
        {x : Result}
        → Finds (holds s) req.chaddr none
        → is_free s req.chaddr (now w).1 (requested_ip req) ≡ true
        → Grants s (now w).0 server req (requested_ip req) ((now w).1 + s.lease_duration) x
        → Requests s w server req x
    refused :
        (w' : W)
        → Finds (holds s) req.chaddr none
        → is_free s req.chaddr (now w).1 (requested_ip req) ≡ false
        → Service.nak send_to now (now w).0 server req not_available ≡ ok w'
        → Requests s w server req (ok (s, w'))

  -- What a Release or a Decline does; neither is answered.
  pub data Releases (s : MyServer) (w : W) (server : Server) (req : Packet) : Result → Type 0 where
    not_ours : for_this_server server req ≡ false → Releases s w server req (ok (s, w))
    nothing :
        for_this_server server req ≡ true
        → Finds (holds s) req.chaddr none
        → Releases s w server req (ok (s, w))
    freed :
        (ip : Ipv4Addr) (t : MyServer)
        → for_this_server server req ≡ true
        → Finds (holds s) req.chaddr (some ip)
        → Changes s t ip none
        → Releases s w server req (ok (t, w))

  module _ (works : IsSocket send_to) (server : Server) (req : Packet)
      (six : length req.chaddr ≡ 6) where
    pub reply-ok :
        (s : MyServer) (w : W) (m : MessageType) (ip : Ipv4Addr)
        → (w' : W) × (Service.reply send_to now s w server m req ip ≡ ok w')
    unfolding Service.reply
    reply-ok s w m ip = reply-logged send_to works w server m (offer_options s) ip req six

    pub nak-ok :
        (w : W) (text : Str) → (w' : W) × (Service.nak send_to now w server req text ≡ ok w')
    unfolding Service.nak
    nak-ok w text = reply-logged send_to works w server MessageType.nak _ 0 req six

    module _ (s : MyServer) (v : IsTable s) (w : W) where
      pub answer_existing-Renews :
          (m : MessageType) (ip : Ipv4Addr)
          → Finds (holds s) req.chaddr (some ip)
          → Renews s w server req m (Service.answer_existing send_to now s w server m req ip)
      unfolding Service.answer_existing
      answer_existing-Renews m ip f =
          let (t, e, n) = remember_hostname-Names s ip (hostname_of req) v in
          let (w', r) = reply-ok t w m ip in rw (e, r) (renewed ip t w' f n r)

      pub grant-Grants :
          (ip : Ipv4Addr) (expiry : ℕ)
          → Grants s w server req ip expiry (Service.grant send_to now s w server req ip expiry)
      unfolding Service.grant
      grant-Grants ip expiry =
          let (t, e, c) = insert_lease-Changes s v ip req.chaddr (some expiry) (hostname_of req) in
          let (w', r) = reply-ok t w MessageType.ack ip in rw (e, r) (granted t w' c r)
