-- ===== src/Service/Run.antt =====
-- src/main.rs and src/server.rs: the DHCPv4 service over all that it receives.
use Prim.Native.String.{String}
use rusty_dhcp.Base.{
  ℕ, ◌≡◌, ◌≢◌, ◌≤◌, refl, sym, ap, subst, ◌∙◌, inl, inr, false, List, [], ◌∷◌, Option, none, some,
  length, list_beq, ok, panic, Outcome-cases, All, ok-injective,
}
use rusty_dhcp.Options.{Ipv4Addr}
use rusty_dhcp.Packet.{Packet, from}
use rusty_dhcp.Packet.Decode.{from-chaddr}
use rusty_dhcp.Server.{
  Server, SocketAddr, Sent, Received, no_datagram, datagram, on_datagram, receive_all,
}
use rusty_dhcp.Dhcpv6.Pool.{Entry}
use rusty_dhcp.Dhcpv6.Pool.Exclusive.{OneLease}
use rusty_dhcp.Leases.{MyServer}
use rusty_dhcp.Leases.Image.{pool_of}
use rusty_dhcp.Leases.Table.{IsTable, holds}
use rusty_dhcp.Service
use rusty_dhcp.Service.Send.{IsSocket}
use rusty_dhcp.Service.Effect.{handle_request-Returns, Effect-protects, Effect-OneLease}

-- A datagram that does not stop the decoder.
abbrev pub IsHarmless : {E : Type 0} → Received E → Type 0
IsHarmless (no_datagram e) = Unit {0}
IsHarmless (datagram bytes src) = from bytes ≢ panic

-- A table in which, if `X` holds, no client has two addresses.
record IsServing (X : Type 0) (s : MyServer) : Type 0 where
  pub table : IsTable s
  pub one : X → OneLease (pool_of s)

module _ {W E : Type 0} (send_to : W → List ℕ → SocketAddr → Sent W E) (now : W → W × ℕ)
    (works : IsSocket send_to) where
  -- If the calls of the socket return then on a table the lease of another client that has an
  -- expiry and has not run out stays as it is, whatever packet from a six-byte hardware address is
  -- handled.
  pub handle_request_protects :
      (server : Server) (req : Packet) (s t : MyServer) (w w' : W) (b : Ipv4Addr) (e : Entry)
      (exp : ℕ)
      → IsTable s
      → length req.chaddr ≡ 6
      → Service.handle_request send_to now (s, w) server req ≡ ok (t, w')
      → holds s b ≡ some e
      → list_beq e.duid req.chaddr ≡ false
      → e.expiry ≡ some exp
      → (now w).1 ≤ exp
      → holds t b ≡ some e
  handle_request_protects server req s t w w' b e exp v six r h other x fresh =
      let (t', w'', q, _, c) = handle_request-Returns send_to now server req s v w works six in
      let same : (t', w'') ≡ (t, w') = ok-injective {E = String} (sym q ∙ r) in
      subst (λ p. holds p b ≡ some e) (ap (λ p. p.0) same)
        (Effect-protects s req.chaddr (now w).1 t' c b e h other exp x fresh)

  on_datagram-ok :
      (X : Type 0) (server : Server) (s : MyServer) (w : W) (bytes : List ℕ) (src : SocketAddr)
      → IsServing X s
      → from bytes ≢ panic
      → (server' : Server) × (t : MyServer) × (w' : W) × (on_datagram
            (Service.handle_request send_to now)
            server
            (s, w)
            bytes
            src
          ≡ ok (server', (t, w')))
        × IsServing X t
  unfolding on_datagram
  on_datagram-ok X server s w bytes src v safe = elim (Outcome-cases (from bytes)) [
    | inr (inr e) ↦ absurd (safe e)
    | inr (inl (why, e)) ↦ (server, s, w, rw (e, on_datagram) refl, v)
    | inl (p, e) ↦
        let server' = record server { src = src } in
        let (t, w', q, v', c) =
          handle_request-Returns send_to now server' p s v.table w works (from-chaddr bytes p e) in
        (
          server',
          t,
          w',
          rw (e, on_datagram) (rw q refl),
          record { table = v'; one = λ k. Effect-OneLease s p.chaddr (now w).1 t c (v.one k) },
        )
  ]

  receive_all-IsServing :
      (X : Type 0) (server : Server) (s : MyServer) (w : W) (events : List (Received E))
      → IsServing X s
      → All IsHarmless events
      → (why : Option E) × (t : MyServer) × (w' : W) × (receive_all
            (Service.handle_request send_to now)
            server
            (s, w)
            events
          ≡ ok (why, (t, w')))
        × IsServing X t
  unfolding receive_all
  receive_all-IsServing X server s w [] v h = (none, s, w, refl, v)
  receive_all-IsServing X server s w (no_datagram e ∷ events) v h = (some e, s, w, refl, v)
  receive_all-IsServing X server s w (datagram bytes src ∷ events) v h =
      let (server', t, w', q, v') = on_datagram-ok X server s w bytes src v h.0 in
      let (why, t', w'', q', v'') = receive_all-IsServing X server' t w' events v' h.1 in
      (why, t', w'', rw q q', v'')

  -- If the calls of the socket return and no datagram panics in the decoder, then the service
  -- handles all that it receives without a panic. It keeps a table a table, and if no client has
  -- two addresses at first then none has at the end.
  pub receive_all-IsTable :
      (server : Server) (s : MyServer) (w : W) (events : List (Received E))
      → IsTable s
      → All IsHarmless events
      → (why : Option E) × (t : MyServer) × (w' : W) × (receive_all
            (Service.handle_request send_to now)
            server
            (s, w)
            events
          ≡ ok (why, (t, w')))
        × IsTable t
        × (OneLease (pool_of s) → OneLease (pool_of t))
  receive_all-IsTable server s w events v h =
      let (why, t, w', e, k) =
        receive_all-IsServing (OneLease (pool_of s)) server s w events
          (record { table = v; one = λ o. o }) h in
      (why, t, w', e, k.table, k.one)
