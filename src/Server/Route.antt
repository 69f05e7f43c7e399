-- ===== src/Server/Route.antt =====
-- src/server.rs: where a reply goes.
use rusty_dhcp.Base.{
  ℕ, ◌≡◌, refl, sym, ap, ◌∙◌, Bool, true, false, not, ◌&&◌, ◌||◌, List, [], ◌∷◌, arith, length,
  replicate, if◌then◌else◌,
}
use rusty_dhcp.Packet.{Packet, wire_max}
use rusty_dhcp.Packet.Encode.{wire, encode-wire}
use rusty_dhcp.Server.{
  SocketAddr, is_unspecified, Server, route_dests, Sent, fan_out, deliver, send,
}

module _ {S E : Type 0} (send_to : S → List ℕ → SocketAddr → Sent S E) where
  fan_out-one :
      (socket : S) (bytes : List ℕ) (dst : SocketAddr)
      → fan_out send_to socket bytes 0 (dst ∷ []) ≡ send_to socket bytes dst
  unfolding fan_out
  fan_out-one socket bytes dst = ground arith

  same_branch :
      (b u : Bool) (src : SocketAddr) (dests : List SocketAddr) (F : List SocketAddr → Sent S E)
      (x : Sent S E)
      → F (src ∷ []) ≡ x
      → (if not b && not u then x else F (if b || u then dests else src ∷ []))
        ≡ F (if b || u then dests else src ∷ [])
  same_branch true u src dests F x h = refl
  same_branch false true src dests F x h = refl
  same_branch false false src dests F x h = sym h

  -- `send` never panics of its own on a packet with a six-byte hardware address: it sends the
  -- message of the packet to each destination of `route_dests`, in this order and up to the first
  -- error, and the fast path does so too.
  pub send-route_dests :
      (s : Server) (socket : S) (p : Packet)
      → length p.chaddr ≡ 6
      → send send_to s socket p
        ≡ fan_out send_to socket (wire p) 0 (route_dests s.src p.broadcast p.yiaddr s.broadcasts)
  unfolding send route_dests
  send-route_dests s socket p six =
      ap (deliver send_to s socket p) (encode-wire p (replicate wire_max 0) six (omega arith)).0
      ∙ same_branch p.broadcast (is_unspecified s.src.ip) s.src _
          (fan_out send_to socket (wire p) 0) (send_to socket (wire p) s.src)
          (fan_out-one socket (wire p) s.src)
