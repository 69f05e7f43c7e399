-- ===== src/Service/Exchange.antt =====
-- src/main.rs, the handler of `MyServer`: when a client is told that it has an address.
pub mod Handshake
pub mod Holder
pub mod Renewal
mod Tests
use Prim.Native.String.{String}
use rusty_dhcp.Base.{
  ℕ, ◌+◌, ◌≤◌, ◌≡◌, refl, sym, ap, subst, ◌∙◌, true, false, List, Option, none, some, arith, length,
  list_beq, list_beq_iff, ok, nat_eq, bytes_eq,
}
use rusty_dhcp.Options.{Ipv4Addr, MessageType}
use rusty_dhcp.Packet.{Packet, message_type}
use rusty_dhcp.Server.{Server, SocketAddr, Sent}
use rusty_dhcp.Dhcpv6.Pool.{Entry}
use rusty_dhcp.Dhcpv6.Pool.Invariant.{held}
use rusty_dhcp.Dhcpv6.Pool.Update.{entry}
use rusty_dhcp.Dhcpv6.Pool.Lease.{Finds}
use rusty_dhcp.Dhcpv6.Pool.Grant.{read_updated}
use rusty_dhcp.Dhcpv6.Pool.Exclusive.{OneLease}
use rusty_dhcp.Dhcpv6.Pool.Exchange.{one_address}
use rusty_dhcp.Leases.{Mac, MyServer, stealable}
use rusty_dhcp.Leases.Image.{pool_of}
use rusty_dhcp.Leases.Table.{IsTable, holds}
use rusty_dhcp.Leases.Search.{vacant, is_free, at, at-IsTable, holds-at, is_free-at}
use rusty_dhcp.Service
use rusty_dhcp.Service.{requested_ip, is_rapid}
use rusty_dhcp.Service.Send.{IsSocket}
use rusty_dhcp.Service.Answers.{
  Result, Renews, renewed, Grants, granted, Discovers, known, offered, committed, silent, Requests,
  acknowledged, refused,
}
use rusty_dhcp.Service.Handlers.{handle_discover-Discovers, handle_lease_request-Requests}
use rusty_dhcp.Service.Effect.{pool_of-IsTable}

stealable_later :
    (o : Option ℕ) (now later : ℕ) → now ≤ later → stealable o now ≡ true → stealable o later ≡ true
stealable_later none now later le h = refl
stealable_later (some exp) now later le h = ground arith

-- What is free stays free.
vacant_later :
    (o : Option Entry) (mac : Mac) (now later : ℕ)
    → now ≤ later
    → vacant o mac now ≡ true
    → vacant o mac later ≡ true
vacant_later none mac now later le h = refl
vacant_later (some e) mac now later le h = ground (arith, stealable_later e.expiry now later)

is_free_later :
    (s : MyServer) (mac : Mac) (now later : ℕ) (a : Ipv4Addr)
    → now ≤ later
    → is_free s mac now a ≡ true
    → is_free s mac later a ≡ true
is_free_later s mac now later a le h = ground (arith, vacant_later (holds s a) mac now later)

module _ {W E : Type 0} (send_to : W → List ℕ → SocketAddr → Sent W E) (now : W → W × ℕ)
    (server : Server) where
  -- The handler has passed a message `m` about `ip` to the socket, in answer to `req`.
  pub record Told (t : MyServer) (w' : W) (m : MessageType) (req : Packet) (ip : Ipv4Addr)
      : Type 0 where
    pub before : W
    pub sent : Service.reply send_to now t before server m req ip ≡ ok w'

  -- The handler comes back with a table in which the client of `req` has `ip`, and has told it so.
  pub record Answered (req : Packet) (m : MessageType) (ip : Ipv4Addr) (x : Result send_to now)
      : Type 0 where
    pub table : MyServer
    pub world : W
    pub returns : x ≡ ok (table, world)
    pub told : Told table world m req ip
    pub is_table : IsTable table
    pub lease : Finds (holds table) req.chaddr (some ip)

  module _ (works : IsSocket send_to) where
    pub handle_request-discover :
        (s : MyServer) (w : W) (req : Packet)
        → message_type req ≡ ok MessageType.discover
        → Service.handle_request send_to now (s, w) server req
          ≡ Service.handle_discover send_to now s w server req
    unfolding Service.handle_request
    handle_request-discover s w req e = rw (e, Service.handle_request) refl

    pub handle_request-request :
        (s : MyServer) (w : W) (req : Packet)
        → message_type req ≡ ok MessageType.request
        → Service.handle_request send_to now (s, w) server req
          ≡ Service.handle_lease_request send_to now s w server req
    unfolding Service.handle_request
    handle_request-request s w req e = rw (e, Service.handle_request) refl

    module _ (s : MyServer) (v : IsTable s) (w : W) (req : Packet) (ip : Ipv4Addr) where
      Renews-Answered :
          (m : MessageType) (x : Result send_to now)
          → OneLease (pool_of s)
          → Finds (holds s) req.chaddr (some ip)
          → Renews send_to now s w server req m x
          → Answered req m ip x
      Renews-Answered m x one f (renewed ip' t w' g n r) =
          let same : ip' ≡ ip = one_address (pool_of s) req.chaddr ip' ip one g f in
          record {
            table = t;
            world = w';
            returns = refl;
            told = record {
              before = w;
              sent = subst (λ a. Service.reply send_to now t w server m req a ≡ ok w') same r;
            };
            is_table = pool_of-IsTable s t n.same_leases v;
            lease = (f.0, ap (λ p. held p ip) n.same_leases ∙ f.1, f.2);
          }

      Grants-Answered :
          (w1 : W) (expiry : ℕ) (x : Result send_to now)
          → Grants send_to now s w1 server req ip expiry x
          → Answered req MessageType.ack ip x
      Grants-Answered w1 expiry x (granted t w' c r) = record {
        table = t;
        world = w';
        returns = refl;
        told = record { before = w1; sent = r };
        is_table = c.table;
        lease = (
          entry req.chaddr (some expiry),
          read_updated (pool_of s) (pool_of t) ip _ c.updates,
          (list_beq_iff req.chaddr req.chaddr).1 refl,
        );
      }

      -- A client that has the address is told so.
      pub request-holder :
          length req.chaddr ≡ 6
          → message_type req ≡ ok MessageType.request
          → OneLease (pool_of s)
          → Finds (holds s) req.chaddr (some ip)
          → Answered req MessageType.ack ip (Service.handle_request send_to now (s, w) server req)
      request-holder six m one f =
          rw (handle_request-request s w req m)
            (via _ (handle_lease_request-Requests send_to now works server req six s v w))
        where
          via :
              (x : Result send_to now)
              → Requests send_to now s w server req x
              → Answered req MessageType.ack ip x
          via x (known k) = Renews-Answered MessageType.ack x one f k
          via x (acknowledged n free g) = absurd (ground (arith, n ip f.0 f.1, f.2))
          via x (refused w' n taken q) = absurd (ground (arith, n ip f.0 f.1, f.2))

      -- A client without a lease gets the address that it asks for, if that is free for it.
      pub request-free :
          length req.chaddr ≡ 6
          → message_type req ≡ ok MessageType.request
          → Finds (holds s) req.chaddr none
          → requested_ip req ≡ ip
          → is_free s req.chaddr (now w).1 ip ≡ true
          → Answered req MessageType.ack ip (Service.handle_request send_to now (s, w) server req)
      request-free six m none_ wants free =
          rw (handle_request-request s w req m)
            (via _ (handle_lease_request-Requests send_to now works server req six s v w))
        where
          via :
              (x : Result send_to now)
              → Requests send_to now s w server req x
              → Answered req MessageType.ack ip x
          via x (known (renewed ip' t w' g n r)) = absurd (ground (arith, none_ ip' g.0 g.1, g.2))
          via x (acknowledged n free' g) = Grants-Answered (now w).0 _ x (
              subst
                (λ a. Grants send_to now s (now w).0 server req a ((now w).1 + s.lease_duration) x)
                wants g)
          via x (refused w' n taken q) = absurd (ground (arith, wants))
