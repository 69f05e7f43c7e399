-- ===== src/Service/Handlers.antt =====
-- src/main.rs, the handler of `MyServer`: each handler does what its answers say.
use Prim.Native.String.{String}
use rusty_dhcp.Base.{
  ℕ, ◌+◌, ◌≡◌, refl, ap, ◌∙◌, inl, inr, true, false, List, Option, none, some, arith, length,
  Outcome, ok, Bool-cases,
}
use rusty_dhcp.Options.{Ipv4Addr, MessageType}
use rusty_dhcp.Packet.{Packet}
use rusty_dhcp.Server.{Server, SocketAddr, Sent, for_this_server}
use rusty_dhcp.Dhcpv6.Pool.Lease.{Finds}
use rusty_dhcp.Leases.{MyServer, current_lease, search_free}
use rusty_dhcp.Leases.Table.{IsTable, holds, current_lease-holds, remove_lease-Changes}
use rusty_dhcp.Leases.Search.{
  is_free, at, at-IsTable, available_at_lem, Searches, chosen, exhausted, search_free-Searches,
}
use rusty_dhcp.Service
use rusty_dhcp.Service.{requested_ip, not_available, is_rapid}
use rusty_dhcp.Service.Send.{IsSocket}
use rusty_dhcp.Service.Answers.{
  Discovers, known, offered, committed, silent, Requests, acknowledged, refused, Releases, not_ours,
  nothing, freed, reply-ok, nak-ok, answer_existing-Renews, grant-Grants,
}

module _ {W E : Type 0} (send_to : W → List ℕ → SocketAddr → Sent W E) (now : W → W × ℕ)
    (works : IsSocket send_to) (server : Server) (req : Packet) (six : length req.chaddr ≡ 6)
    (s : MyServer) (v : IsTable s) (w : W) where
  abbrev time : ℕ
  time = (now w).1

  commit_free-Discovers :
      is_rapid s req ≡ true
      → Finds (holds s) req.chaddr none
      → Discovers send_to now s w server req
          (Service.commit_free send_to now s (now w).0 server req time)
  unfolding Service.commit_free
  commit_free-Discovers r f =
      via (search_free s.lease_num s req.chaddr time) (search_free-Searches s req.chaddr time v)
        refl
    where
      via :
          (x : Outcome String (MyServer × Option Ipv4Addr))
          → Searches s req.chaddr time x
          → search_free s.lease_num s req.chaddr time ≡ x
          → Discovers send_to now s w server req
              (Service.commit_free send_to now s (now w).0 server req time)
      via x (chosen n lt free) e = rw e (
          committed n r f lt free (
            grant-Grants send_to now works server req six (at s n)
              (at-IsTable s n v (omega (arith, lt))) (now w).0 (s.ip_start_num + n)
              (time + s.lease_duration)))
      via x (exhausted n le none_) e = rw e (silent n f le none_)

  offer_free-Discovers :
      is_rapid s req ≡ false
      → Finds (holds s) req.chaddr none
      → Discovers send_to now s w server req
          (Service.offer_free send_to now s (now w).0 server req time)
  unfolding Service.offer_free
  offer_free-Discovers r f =
      via (search_free s.lease_num s req.chaddr time) (search_free-Searches s req.chaddr time v)
        refl
    where
      via :
          (x : Outcome String (MyServer × Option Ipv4Addr))
          → Searches s req.chaddr time x
          → search_free s.lease_num s req.chaddr time ≡ x
          → Discovers send_to now s w server req
              (Service.offer_free send_to now s (now w).0 server req time)
      via x (chosen n lt free) e =
          let (w', q) =
            reply-ok send_to now works server req six (at s n) (now w).0 MessageType.offer
              (s.ip_start_num + n) in
          rw (e, q) (offered n w' r f lt free q)
      via x (exhausted n le none_) e = rw e (silent n f le none_)

  -- If the calls of the socket return then on a table a Discover from a six-byte hardware address
  -- is handled without a panic. A client with a lease is told its address; any other gets an offer
  -- of a free address, or with rapid commit a lease on one, and no answer only if no address is
  -- free for it.
  pub handle_discover-Discovers :
      Discovers send_to now s w server req (Service.handle_discover send_to now s w server req)
  unfolding Service.handle_discover Service.handle_rapid Service.handle_offer
  handle_discover-Discovers = via (current_lease-holds s v req.chaddr)
    where
      via :
          (o : Option Ipv4Addr) × (current_lease s req.chaddr ≡ ok o) × Finds (holds s) req.chaddr o
          → Discovers send_to now s w server req
              (Service.handle_discover send_to now s w server req)
      via (some ip, c, f) = elim (Bool-cases (is_rapid s req)) [
        | inl r ↦
            rw (r, c)
              (known (
                rw r (
                  answer_existing-Renews send_to now works server req six s v w MessageType.ack ip
                    f)))
        | inr r ↦
            rw (r, c)
              (known (
                rw r (
                  answer_existing-Renews send_to now works server req six s v w MessageType.offer ip
                    f)))
      ]
      via (none, c, f) = elim (Bool-cases (is_rapid s req)) [
        | inl r ↦ rw (r, c) (commit_free-Discovers r f)
        | inr r ↦ rw (r, c) (offer_free-Discovers r f)
      ]

  -- If the calls of the socket return then on a table a Request from a six-byte hardware address,
  -- whichever server it names, is handled without a panic. A client with a lease is told its
  -- address; any other gets the address it asks for exactly if that is free for it, else a Nak and
  -- no change.
  pub handle_lease_request-Requests :
      Requests send_to now s w server req (Service.handle_lease_request send_to now s w server req)
  unfolding Service.handle_lease_request Service.grant_requested
  handle_lease_request-Requests = via (current_lease-holds s v req.chaddr)
    where
      via :
          (o : Option Ipv4Addr) × (current_lease s req.chaddr ≡ ok o) × Finds (holds s) req.chaddr o
          → Requests send_to now s w server req
              (Service.handle_lease_request send_to now s w server req)
      via (some ip, c, f) = rw c (
          known
            (answer_existing-Renews send_to now works server req six s v w MessageType.ack ip f))
      via (none, c, f) =
          let a = available_at_lem s v req.chaddr (requested_ip req) time in
          elim (Bool-cases (is_free s req.chaddr time (requested_ip req))) [
            | inl free ↦ rw c (
                rw (a ∙ ap (λ b. ok b) free) (
                  acknowledged f free (
                    grant-Grants send_to now works server req six s v (now w).0 (requested_ip req)
                      (time + s.lease_duration))))
            | inr taken ↦
                let (w', q) = nak-ok send_to now works server req six (now w).0 not_available in
                rw c (rw (a ∙ ap (λ b. ok b) taken) (rw q (refused w' f taken q)))
          ]

  -- On a table a Release or a Decline is handled without a panic. It takes one lease of the client
  -- away if it names this server and the client has one, and changes nothing otherwise.
  pub handle_release-Releases :
      Releases send_to now s w server req (Service.handle_release send_to now s w server req)
  unfolding Service.handle_release
  handle_release-Releases = elim (Bool-cases (for_this_server server req)) [
    | inr away ↦ rw away (not_ours away)
    | inl ours ↦ via ours (current_lease-holds s v req.chaddr)
  ]
    where
      via :
          for_this_server server req ≡ true
          → (o : Option Ipv4Addr) × (current_lease s req.chaddr ≡ ok o)
            × Finds (holds s) req.chaddr o
          → Releases send_to now s w server req (Service.handle_release send_to now s w server req)
      via ours (none, c, f) = rw (ours, c) (nothing ours f)
      via ours (some ip, c, (e, h, t)) =
          let (q, r, d) = remove_lease-Changes s v req.chaddr in
          rw (ours, c, r)
            (elim d [
              | inl (none_, _) ↦ absurd (ground (arith, none_ ip e h, t))
              | inr (a, f, change) ↦ freed a q ours f change
            ])
