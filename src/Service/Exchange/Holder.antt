-- ===== src/Service/Exchange/Holder.antt =====
-- src/main.rs, the handler of `MyServer`: a lease while the packets of other clients are handled, and
-- what a renewal does to its end.
use Prim.Native.String.{String}
use rusty_dhcp.Base.{
  ℕ, ◌≤◌, ◌≡◌, refl, sym, ap, subst, ◌∙◌, false, List, some, length, list_beq, list_beq_iff, ok,
  nat_eq, bytes_eq, ok-injective,
}
use rusty_dhcp.Options.{Ipv4Addr, MessageType}
use rusty_dhcp.Packet.{Packet, message_type}
use rusty_dhcp.Server.{Server, SocketAddr, Sent}
use rusty_dhcp.Dhcpv6.Pool.Update.{entry}
use rusty_dhcp.Dhcpv6.Pool.Exclusive.{OneLease}
use rusty_dhcp.Leases.{Mac, MyServer}
use rusty_dhcp.Leases.Image.{pool_of}
use rusty_dhcp.Leases.Table.{IsTable, holds}
use rusty_dhcp.Service
use rusty_dhcp.Service.{requested_ip}
use rusty_dhcp.Service.Send.{IsSocket}
use rusty_dhcp.Service.Effect.{handle_request-Returns, Effect-OneLease}
use rusty_dhcp.Service.Run.{handle_request_protects}
use rusty_dhcp.Service.Exchange.{Answered, request-holder}

module _ {W E : Type 0} (send_to : W → List ℕ → SocketAddr → Sent W E) (now : W → W × ℕ)
    (server : Server) where
  -- The tables that `s` becomes while packets of clients other than `mac` are handled, none later
  -- than `exp`. The socket and the clock may be in any state before each.
  pub data Others (mac : Mac) (exp : ℕ) (s : MyServer) : MyServer → Type 0 where
    at_once : Others mac exp s s
    handled :
        {t u : MyServer} (w w' : W) (req : Packet)
        → Others mac exp s t
        → length req.chaddr ≡ 6
        → list_beq mac req.chaddr ≡ false
        → (now w).1 ≤ exp
        → Service.handle_request send_to now (t, w) server req ≡ ok (u, w')
        → Others mac exp s u

  -- A table in which no client has two addresses and `mac` has `b` until `exp`.
  pub record Keeps (mac : Mac) (exp : ℕ) (b : Ipv4Addr) (t : MyServer) : Type 0 where
    pub table : IsTable t
    pub one : OneLease (pool_of t)
    pub lease : holds t b ≡ some (entry mac (some exp))

  module _ (works : IsSocket send_to) (mac : Mac) (exp : ℕ) (b : Ipv4Addr) where
    Others-Keeps : {s t : MyServer} → Keeps mac exp b s → Others mac exp s t → Keeps mac exp b t
    Others-Keeps k at_once = k
    Others-Keeps k (handled {t} {u} w w' req before six other fresh r) =
        let k' = Others-Keeps k before in
        let (u', w'', q, v, c) =
          handle_request-Returns send_to now server req t k'.table w works six in
        let same : u' ≡ u = ap (λ p. p.0) (ok-injective {E = String} (sym q ∙ r)) in
        record {
          table = subst IsTable same v;
          one =
              subst (λ t. OneLease (pool_of t)) same
                (Effect-OneLease t req.chaddr (now w).1 u' c k'.one);
          lease =
              handle_request_protects send_to now works server req t u w w' b (entry mac (some exp))
                exp k'.table six r k'.lease other refl fresh;
        }

    -- If a table has at most one lease for each client and `mac` has one that ends at `exp`, then
    -- whatever packets of others are handled by that time, the next Request of `mac`, for any address,
    -- is answered by an Ack of its own. The calls of the socket return, and hardware addresses have six
    -- bytes.
    pub others-Answered :
        (s t : MyServer) (w : W) (req : Packet)
        → Keeps mac exp b s
        → Others mac exp s t
        → length req.chaddr ≡ 6
        → req.chaddr ≡ mac
        → message_type req ≡ ok MessageType.request
        → Answered send_to now server req MessageType.ack b
            (Service.handle_request send_to now (t, w) server req)
    others-Answered s t w req k o six mine m =
        let k' = Others-Keeps k o in
        request-holder send_to now server works t k'.table w req b six m k'.one
          (entry mac (some exp), k'.lease, (list_beq_iff mac req.chaddr).1 (sym mine))
