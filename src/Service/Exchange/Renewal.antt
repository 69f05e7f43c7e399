-- ===== src/Service/Exchange/Renewal.antt =====
-- src/main.rs, the handler of `MyServer`: what a renewal does to the end of a lease.
use rusty_dhcp.Base.{
  ℕ, ◌<◌, ◌≡◌, refl, sym, ap, subst, ◌∙◌, true, List, none, some, arith, length, list_beq_iff, ok,
  nat_eq, bytes_eq, lt→ltb,
}
use rusty_dhcp.Options.{Ipv4Addr, MessageType}
use rusty_dhcp.Packet.{Packet, message_type}
use rusty_dhcp.Server.{Server, SocketAddr, Sent}
use rusty_dhcp.Dhcpv6.Pool.Invariant.{held}
use rusty_dhcp.Dhcpv6.Pool.Update.{entry}
use rusty_dhcp.Dhcpv6.Pool.Lease.{Finds}
use rusty_dhcp.Dhcpv6.Pool.Exchange.{one_address}
use rusty_dhcp.Leases.{Mac, MyServer, in_pool}
use rusty_dhcp.Leases.Image.{pool_of}
use rusty_dhcp.Leases.Table.{holds}
use rusty_dhcp.Leases.Search.{is_free}
use rusty_dhcp.Service
use rusty_dhcp.Service.{requested_ip}
use rusty_dhcp.Service.Send.{IsSocket}
use rusty_dhcp.Service.Answers.{Result, Renews, renewed, Requests, known, acknowledged, refused}
use rusty_dhcp.Service.Handlers.{handle_lease_request-Requests}
use rusty_dhcp.Service.Effect.{pool_of-IsTable}
use rusty_dhcp.Service.Exchange.{Told, Answered, handle_request-request, request-free}
use rusty_dhcp.Service.Exchange.Holder.{Keeps}

in_pool-image : (s t : MyServer) (a : Ipv4Addr) → pool_of t ≡ pool_of s → in_pool t a ≡ in_pool s a
unfolding in_pool
in_pool-image s t a e = ground (arith, ap (λ p. p.start) e, ap (λ p. p.count) e)

module _ {W E : Type 0} (send_to : W → List ℕ → SocketAddr → Sent W E) (now : W → W × ℕ)
    (server : Server) where
  -- The renewal has come back with an Ack, and the Request of the other client `taker` then gets one
  -- for the same address.
  pub record Loses (req taker : Packet) (b : Ipv4Addr) (later : W) (x : Result send_to now)
      : Type 0 where
    pub table : MyServer
    pub world : W
    pub returns : x ≡ ok (table, world)
    pub told : Told send_to now server table world MessageType.ack req b
    pub taken :
        Answered send_to now server taker MessageType.ack b
          (Service.handle_request send_to now (table, later) server taker)

  module _ (works : IsSocket send_to) (mac : Mac) (exp : ℕ) (b : Ipv4Addr) (s : MyServer)
      (k : Keeps send_to now server mac exp b s) (w later : W) (req taker : Packet)
      (mine : req.chaddr ≡ mac) (six' : length taker.chaddr ≡ 6)
      (m' : message_type taker ≡ ok MessageType.request) (wants : requested_ip taker ≡ b)
      (in_ : in_pool s b ≡ true) (over : exp < (now later).1)
      (none_ : Finds (holds s) taker.chaddr none) where
    lease_of : Finds (holds s) req.chaddr (some b)
    lease_of = (entry mac (some exp), k.lease, (list_beq_iff mac req.chaddr).1 (sym mine))

    -- The leases of the table after the renewal are those before, so the end of the lease has passed.
    free_after :
        (t : MyServer) → pool_of t ≡ pool_of s → is_free t taker.chaddr (now later).1 b ≡ true
    free_after t e =
        let h : holds t b ≡ some (entry mac (some exp)) = ap (λ p. held p b) e ∙ k.lease in
        rw h (ground (arith, in_pool-image s t b e, lt→ltb exp (now later).1 over))

    renewal-Loses :
        (x : Result send_to now)
        → Renews send_to now s w server req MessageType.ack x
        → Loses req taker b later x
    renewal-Loses x (renewed ip t w' f n r) =
        let same : ip ≡ b = one_address (pool_of s) req.chaddr ip b k.one f lease_of in
        record {
          table = t;
          world = w';
          returns = refl;
          told = record {
            before = w;
            sent =
                subst (λ a. Service.reply send_to now t w server MessageType.ack req a ≡ ok w') same
                  r;
          };
          taken =
              request-free send_to now server works t (pool_of-IsTable s t n.same_leases k.table)
                later taker b six' m'
                (λ a e h. none_ a e (sym (ap (λ p. held p a) n.same_leases) ∙ h)) wants
                (free_after t n.same_leases);
        }

    -- If no client has two addresses in a table, and one has a lease with an end on an address in the
    -- range, then its Request is answered by an Ack, but the lease still ends when it did: a client
    -- without a lease that asks for the address past that end gets it, whenever the Ack was sent. The
    -- calls of the socket have to return and hardware addresses to have six bytes.
    pub handle_request-Loses :
        length req.chaddr ≡ 6
        → message_type req ≡ ok MessageType.request
        → Loses req taker b later (Service.handle_request send_to now (s, w) server req)
    handle_request-Loses six m =
        rw (handle_request-request send_to now server works s w req m)
          (via _ (handle_lease_request-Requests send_to now works server req six s k.table w))
      where
        via :
            (x : Result send_to now)
            → Requests send_to now s w server req x
            → Loses req taker b later x
        via x (known r) = renewal-Loses x r
        via x (acknowledged n free g) =
            absurd (ground (arith, n b lease_of.0 lease_of.1, lease_of.2))
        via x (refused w' n t q) = absurd (ground (arith, n b lease_of.0 lease_of.1, lease_of.2))
