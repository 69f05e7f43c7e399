-- ===== src/Service/Exchange/Handshake.antt =====
-- src/main.rs, the handler of `MyServer`: a Discover and then a Request for the address offered.
use rusty_dhcp.Base.{
  ℕ, ◌+◌, ◌-◌, ◌≤◌, ◌≡◌, refl, sym, ap, subst, ◌∙◌, true, false, List, none, some, arith, length,
  ok, nat_eq, bytes_eq,
}
use rusty_dhcp.Options.{Ipv4Addr, MessageType}
use rusty_dhcp.Packet.{Packet, message_type}
use rusty_dhcp.Server.{Server, SocketAddr, Sent}
use rusty_dhcp.Dhcpv6.Pool.Invariant.{held}
use rusty_dhcp.Dhcpv6.Pool.Lease.{Finds}
use rusty_dhcp.Dhcpv6.Pool.Exclusive.{OneLease}
use rusty_dhcp.Leases.{Mac, MyServer}
use rusty_dhcp.Leases.Image.{pool_of}
use rusty_dhcp.Leases.Table.{IsTable, holds}
use rusty_dhcp.Leases.Search.{is_free, at, at-IsTable, holds-at, is_free-at}
use rusty_dhcp.Service
use rusty_dhcp.Service.{requested_ip, is_rapid}
use rusty_dhcp.Service.Send.{IsSocket}
use rusty_dhcp.Service.Answers.{
  Result, Renews, renewed, Discovers, known, offered, committed, silent,
}
use rusty_dhcp.Service.Handlers.{handle_discover-Discovers}
use rusty_dhcp.Service.Effect.{pool_of-IsTable}
use rusty_dhcp.Service.Exchange.{
  Told, Answered, is_free_later, handle_request-discover, request-holder, request-free,
}

-- The Request of a client for an address, as a function of the address.
pub record Asks (mac : Mac) (request : Ipv4Addr → Packet) : Type 0 where
  pub same_client : (ip : Ipv4Addr) → (request ip).chaddr ≡ mac
  pub is_request : (ip : Ipv4Addr) → message_type (request ip) ≡ ok MessageType.request
  pub asks_for : (ip : Ipv4Addr) → requested_ip (request ip) ≡ ip

module _ {W E : Type 0} (send_to : W → List ℕ → SocketAddr → Sent W E) (now : W → W × ℕ)
    (server : Server) (disc : Packet) (request : Ipv4Addr → Packet) (later : W) where
  -- The handler comes back with an offer passed on, and answers the Request for it by an Ack.
  pub record Leads (x : Result send_to now) : Type 0 where
    pub ip : Ipv4Addr
    pub table : MyServer
    pub world : W
    pub returns : x ≡ ok (table, world)
    pub offer : Told send_to now server table world MessageType.offer disc ip
    pub answered :
        Answered send_to now server
          (request ip)
          MessageType.ack
          ip
          (Service.handle_request send_to now (table, later) server (request ip))

  module _ (works : IsSocket send_to) (six : length disc.chaddr ≡ 6)
      (asks : Asks disc.chaddr request) (s : MyServer) (v : IsTable s) (w : W) where
    six_again : (ip : Ipv4Addr) → length (request ip).chaddr ≡ 6
    six_again ip = ap length (asks.same_client ip) ∙ six

    -- A client with a lease is offered that.
    offered_again :
        (x : Result send_to now)
        → OneLease (pool_of s)
        → Renews send_to now s w server disc MessageType.offer x
        → Leads x
    offered_again x one (renewed ip t w' f n r) =
        let f' : Finds (holds t) disc.chaddr (some ip) =
          (f.0, ap (λ p. held p ip) n.same_leases ∙ f.1, f.2) in
        record {
          ip = ip;
          table = t;
          world = w';
          returns = refl;
          offer = record { before = w; sent = r };
          answered =
              request-holder send_to now server works t (pool_of-IsTable s t n.same_leases v) later
                (request ip) ip (six_again ip) (asks.is_request ip)
                (subst OneLease (sym n.same_leases) one)
                (subst (λ m. Finds (holds t) m (some ip)) (sym (asks.same_client ip)) f');
        }

    -- Any other client is offered an address that is free, and stays so.
    offered_free :
        (n : ℕ) (w' : W)
        → (now w).1 ≤ (now later).1
        → Finds (holds s) disc.chaddr none
        → n ≤ s.lease_num - 1
        → is_free s disc.chaddr (now w).1 (s.ip_start_num + n) ≡ true
        → Service.reply send_to now
            (at s n)
            (now w).0
            server
            MessageType.offer
            disc
            (s.ip_start_num + n)
          ≡ ok w'
        → Leads (ok (at s n, w'))
    offered_free n w' le f bound free r =
        let ip = s.ip_start_num + n in
        let f' : Finds (holds (at s n)) disc.chaddr none =
          λ b e h. f b e (sym (holds-at s n b) ∙ h) in
        record {
          ip = s.ip_start_num + n;
          table = at s n;
          world = w';
          returns = refl;
          offer = record { before = (now w).0; sent = r };
          answered =
              request-free send_to now server works (at s n) (at-IsTable s n v bound) later
                (request ip) ip (six_again ip) (asks.is_request ip)
                (subst (λ m. Finds (holds (at s n)) m none) (sym (asks.same_client ip)) f')
                (asks.asks_for ip)
                (ap (λ m. is_free (at s n) m (now later).1 ip) (asks.same_client ip)
                  ∙ is_free-at s n disc.chaddr (now later).1 ip
                  ∙ is_free_later s disc.chaddr (now w).1 (now later).1 ip le free);
        }

    -- If some address is free for a client, then with a table of at most one lease for each its
    -- Discover without rapid commit is answered by an offer, and its Request for the address of the
    -- offer, handled next, by an Ack that leaves it with a lease on that address. The calls of the
    -- socket return, and hardware addresses have six bytes.
    pub handshake-Leads :
        (a : Ipv4Addr)
        → OneLease (pool_of s)
        → message_type disc ≡ ok MessageType.discover
        → is_rapid s disc ≡ false
        → is_free s disc.chaddr (now w).1 a ≡ true
        → (now w).1 ≤ (now later).1
        → Leads (Service.handle_request send_to now (s, w) server disc)
    handshake-Leads a one m slow free le =
        rw (handle_request-discover send_to now server works s w disc m)
          (via _ (handle_discover-Discovers send_to now works server disc six s v w))
      where
        via : (x : Result send_to now) → Discovers send_to now s w server disc x → Leads x
        via x (known k) = offered_again x one (rw slow at k)
        via x (offered n w' r f lt free' q) = offered_free n w' le f (omega (arith, lt)) free' q
        via x (committed n r f lt free' g) = cc
        via x (silent n f bound none_) = absurd (ground (arith, none_ a))
