-- ===== src/Service/Traffic.antt =====
-- src/main.rs and src/server.rs: what the DHCPv4 service sends.
pub mod Handled
pub mod Served
use Prim.Native.String.{String}
use rusty_dhcp.Base.{
  ℕ, ◌≡◌, refl, ap, subst, ◌∙◌, ◌⊎◌, inl, inr, List, [], ◌∷◌, All, length, ok, ok-injective,
}
use rusty_dhcp.Options.{Ipv4Addr, MessageType, DhcpOption}
use rusty_dhcp.Packet.{Packet, from}
use rusty_dhcp.Packet.Encode.{wire}
use rusty_dhcp.Server
use rusty_dhcp.Server.{
  Server, SocketAddr, Received, datagram, Sent, sent, failed, panicked, fan_out, route_dests,
}
use rusty_dhcp.Server.Reply.{IsAdditional, Answers, reply_packet-Answers}
use rusty_dhcp.Server.Route.{send-route_dests}
use rusty_dhcp.Service.{logged}

-- One of the addresses.
abbrev pub Among : SocketAddr → List SocketAddr → Type 0
Among dst [] = ⊥
Among dst (d ∷ dests) = (dst ≡ d) ⊎ Among dst dests

-- The bytes and the address are those of a reply of the server to the request.
pub record IsReply (server : Server) (req : Packet) (bytes : List ℕ) (dst : SocketAddr)
    : Type 0 where
  pub m : MessageType
  pub ip : Ipv4Addr
  pub packet : Packet
  pub answers : Answers server m ip req packet
  pub encoded : bytes ≡ wire packet
  pub routed : Among dst (route_dests server.src packet.broadcast packet.yiaddr server.broadcasts)

-- A state that is left satisfies `P`.
abbrev pub Leaves : {W E : Type 0} → (W → Type 0) → Sent W E → Type 0
Leaves P (sent w n) = P w
Leaves P (failed w e) = P w
Leaves P panicked = Unit {0}

module _ {W E : Type 0} (send_to : W → List ℕ → SocketAddr → Sent W E) (P : W → Type 0) where
  fan_out-Leaves :
      (bytes : List ℕ) (w : W) (n : ℕ) (dests : List SocketAddr)
      → ((w : W) (dst : SocketAddr) → Among dst dests → P w → Leaves P (send_to w bytes dst))
      → P w
      → Leaves P (fan_out send_to w bytes n dests)
  unfolding fan_out
  fan_out-Leaves bytes w n [] h p = p
  fan_out-Leaves bytes w n (dst ∷ dests) h p =
      via (send_to w bytes dst) (h w dst (inl refl) p)
        (λ w' m p'. fan_out-Leaves bytes w' m dests (λ w d a. h w d (inr a)) p')
    where
      via :
          (r : Sent W E)
          → Leaves P r
          → ((w' : W) (m : ℕ) → P w' → Leaves P (fan_out send_to w' bytes m dests))
          → Leaves P (elim r [
            | sent w' m ↦ fan_out send_to w' bytes m dests
            | failed w' e ↦ Sent.failed w' e
            | panicked ↦ Sent.panicked
          ])
      via (sent w' m) p' rest = rest w' m p'
      via (failed w' e) p' rest = p'
      via panicked p' rest = tt

  -- `P` is a property of the state of the socket that a reply of the server leaves intact.
  abbrev pub IsKept : Server → Packet → Type 0
  IsKept server req =
      (w : W) (bytes : List ℕ) (dst : SocketAddr)
      → IsReply server req bytes dst
      → P w
      → Leaves P (send_to w bytes dst)

  pub reply-Leaves :
      (server : Server) (w : W) (m : MessageType) (opts : List DhcpOption) (ip : Ipv4Addr)
      (req : Packet)
      → IsKept server req
      → All IsAdditional opts
      → length req.chaddr ≡ 6
      → P w
      → Leaves P (Server.reply send_to server w m opts ip req)
  unfolding Server.reply
  reply-Leaves server w m opts ip req keep additional six p =
      let (packet, q, a) = reply_packet-Answers server m opts ip req additional in
      let six' : length packet.chaddr ≡ 6 = ap length a.same_transaction.1 ∙ six in
      rw (q, send-route_dests send_to server w packet six')
        (fan_out-Leaves (wire packet) w 0
          (route_dests server.src packet.broadcast packet.yiaddr server.broadcasts)
          (λ w dst among p.
            keep w (wire packet) dst
              (record {
                m = m;
                ip = ip;
                packet = packet;
                answers = a;
                encoded = refl;
                routed = among;
              })
              p)
          p)

  pub logged-Leaves : (r : Sent W E) (w : W) → Leaves P r → logged r ≡ ok w → P w
  logged-Leaves (sent w' n) w p h = subst P (ok-injective {E = String} h) p
  logged-Leaves (failed w' e) w p h = subst P (ok-injective {E = String} h) p
  logged-Leaves panicked w p h = cc

-- What is known of the state of the socket depends on what is still to come. While a packet is
-- handled, with `rest` behind it, replies to this packet leave it intact, if they go out in the name
-- of this server and to where the packet came from.
abbrev pub IsKeptFrom :
    {W E : Type 0} (send_to : W → List ℕ → SocketAddr → Sent W E)
    → (List (Received E) → W → Type 0)
    → Server
    → Type 0
IsKeptFrom {E} send_to P server =
    (bytes : List ℕ) (src : SocketAddr) (rest : List (Received E)) (req : Packet)
    → from bytes ≡ ok req
    → IsKept send_to (P (datagram bytes src ∷ rest)) (record server { src = src }) req
