-- ===== src/Service/Traffic/Served.antt =====
-- src/main.rs and src/server.rs: all that the DHCPv4 service sends, whatever it receives.
use rusty_dhcp.Base.{
  ℕ, ◌≡◌, ◌≢◌, refl, ap, subst, ◌∙◌, sym, inl, inr, List, [], ◌∷◌, All, Option, none, some, ok,
  panic, Outcome-cases,
}
use rusty_dhcp.Packet.{Packet, from}
use rusty_dhcp.Packet.Decode.{from-chaddr}
use rusty_dhcp.Server.{
  Server, SocketAddr, Sent, Received, no_datagram, datagram, on_datagram, receive_all,
}
use rusty_dhcp.Server.Reply.{IsAdditional}
use rusty_dhcp.Leases.{MyServer}
use rusty_dhcp.Leases.Settings.{settings}
use rusty_dhcp.Leases.Table.{IsTable}
use rusty_dhcp.Service
use rusty_dhcp.Service.Send.{IsSocket}
use rusty_dhcp.Service.Effect.{handle_request-Returns}
use rusty_dhcp.Service.Run.{IsHarmless}
use rusty_dhcp.Service.Traffic.{IsKept, IsKeptFrom}
use rusty_dhcp.Service.Traffic.Handled.{Kept, handle_request-Kept}

module _ {W E : Type 0} (send_to : W → List ℕ → SocketAddr → Sent W E) (now : W → W × ℕ)
    (works : IsSocket send_to) (P : W → Type 0) (ticks : (w : W) → P w → P (now w).0) where
  -- A table whose offers can be sent, and a state in which `P` holds.
  record IsQuiet (s : MyServer) (w : W) : Type 0 where
    pub table : IsTable s
    pub additional : All IsAdditional s.cached_offer
    pub state : P w

  on_datagram-IsQuiet :
      (server : Server) (s : MyServer) (w : W) (bytes : List ℕ) (src : SocketAddr)
      → ((req : Packet) → from bytes ≡ ok req → IsKept send_to P (record server { src = src }) req)
      → IsQuiet s w
      → from bytes ≢ panic
      → (src' : SocketAddr) × (t : MyServer) × (w' : W) × (on_datagram
            (Service.handle_request send_to now)
            server
            (s, w)
            bytes
            src
          ≡ ok (record server { src = src' }, (t, w')))
        × IsQuiet t w'
        × (settings t ≡ settings s)
  unfolding on_datagram
  on_datagram-IsQuiet server s w bytes src keep q safe = elim (Outcome-cases (from bytes)) [
    | inr (inr e) ↦ absurd (safe e)
    | inr (inl (why, e)) ↦ (server.src, s, w, rw (e, on_datagram) refl, q, refl)
    | inl (p, e) ↦
        let server' = record server { src = src } in
        let six = from-chaddr bytes p e in
        let (t, w', r, v, _) = handle_request-Returns send_to now server' p s q.table w works six in
        let (state', same) = subst (Kept send_to now P ticks s) r (
          handle_request-Kept send_to now P ticks server' p (keep p e) six s w works q.table
            q.additional q.state) in
        (
          src,
          t,
          w',
          rw (e, on_datagram) (rw r refl),
          record {
            table = v;
            additional = subst (All IsAdditional) (ap (λ x. x.2) (sym same)) q.additional;
            state = state';
          },
          same,
        )
  ]

module _ {W E : Type 0} (send_to : W → List ℕ → SocketAddr → Sent W E) (now : W → W × ℕ)
    (works : IsSocket send_to) (P : List (Received E) → W → Type 0)
    (ticks : (events : List (Received E)) (w : W) → P events w → P events (now w).0)
    (next : (e : Received E) (events : List (Received E)) (w : W)
      → P (e ∷ events) w
      → P events w) where
  to_end : (events : List (Received E)) (w : W) → P events w → P [] w
  to_end [] w p = p
  to_end (e ∷ events) w p = to_end events w (next e events w p)

  -- If the calls of the socket return and no datagram panics in the decoder, then a table whose offer
  -- `reply` can send stays a table with its settings, and all that is sent are replies to the packet
  -- being handled, in the name of this server, to the addresses that `route_dests` gives for where it
  -- came from: what `P` says of the socket, given what is still to come, holds at the end, if these
  -- replies, the clock and each receipt leave it intact.
  pub receive_all_replies :
      (server : Server) (s : MyServer) (w : W) (events : List (Received E))
      → IsKeptFrom send_to P server
      → IsTable s
      → All IsAdditional s.cached_offer
      → All IsHarmless events
      → P events w
      → (why : Option E) × (t : MyServer) × (w' : W) × (receive_all
            (Service.handle_request send_to now)
            server
            (s, w)
            events
          ≡ ok (why, (t, w')))
        × P [] w'
        × IsTable t
        × (settings t ≡ settings s)
  unfolding receive_all
  receive_all_replies server s w [] keep v a h p = (none, s, w, refl, p, v, refl)
  receive_all_replies server s w (no_datagram e ∷ events) keep v a h p =
      (some e, s, w, refl, to_end (no_datagram e ∷ events) w p, v, refl)
  receive_all_replies server s w (datagram bytes src ∷ events) keep v a h p =
      let seen = datagram bytes src ∷ events in
      let (src', t, w', r, q, same) =
        on_datagram-IsQuiet send_to now works (P seen) (ticks seen) server s w bytes src
          (keep bytes src events) (record { table = v; additional = a; state = p }) h.0 in
      let (why, t', w'', r', p', v', same') =
        receive_all_replies (record server { src = src' }) t w' events keep q.table q.additional h.1
          (next (datagram bytes src) events w' q.state) in
      (why, t', w'', rw r r', p', v', same' ∙ same)
