-- ===== src/Service/Send.antt =====
-- src/main.rs, `reply` and `nak`: an answer to a packet is sent or its failure is logged.
use rusty_dhcp.Base.{ℕ, ◌≡◌, ◌≢◌, refl, ap, ◌∙◌, List, [], ◌∷◌, length, ok}
use rusty_dhcp.Options.{Ipv4Addr, MessageType, DhcpOption}
use rusty_dhcp.Options.Codes
use rusty_dhcp.Packet.{Packet, option}
use rusty_dhcp.Packet.Encode.{wire}
use rusty_dhcp.Server
use rusty_dhcp.Server.{
  Server, SocketAddr, Sent, sent, failed, panicked, fan_out, route_dests, reply_options, reply_with,
  reply_packet, send,
}
use rusty_dhcp.Server.Reply.{filtered}
use rusty_dhcp.Server.Route.{send-route_dests}
use rusty_dhcp.Service.{logged}

-- A socket whose calls return.
abbrev pub IsSocket : {W E : Type 0} → (W → List ℕ → SocketAddr → Sent W E) → Type 0
IsSocket {W} send_to =
    (w : W) (bytes : List ℕ) (dst : SocketAddr) → send_to w bytes dst ≢ Sent.panicked

-- `reply` builds a packet with the hardware address of the request, whatever the options.
reply_packet-ok :
    (server : Server) (m : MessageType) (opts : List DhcpOption) (ip : Ipv4Addr) (req : Packet)
    → (p : Packet) × (reply_packet server m opts ip req ≡ ok p) × (p.chaddr ≡ req.chaddr)
unfolding reply_packet
reply_packet-ok server m opts ip req =
    let (kept, q, _, _) =
      filtered (option req Codes.parameter_request_list) (reply_options server m opts) in
    (reply_with m ip req kept, rw q refl, refl)

module _ {W E : Type 0} (send_to : W → List ℕ → SocketAddr → Sent W E)
    (works : IsSocket send_to) where
  fan_out-logged :
      (w : W) (bytes : List ℕ) (n : ℕ) (dests : List SocketAddr)
      → (w' : W) × (logged (fan_out send_to w bytes n dests) ≡ ok w')
  unfolding fan_out
  fan_out-logged w bytes n [] = (w, refl)
  fan_out-logged w bytes n (dst ∷ dests) =
      via (send_to w bytes dst) refl (λ w' m. fan_out-logged w' bytes m dests)
    where
      via :
          (r : Sent W E)
          → send_to w bytes dst ≡ r
          → ((w' : W) (m : ℕ) → (w'' : W) × (logged (fan_out send_to w' bytes m dests) ≡ ok w''))
          → (w' : W) × (logged (fan_out send_to w bytes n (dst ∷ dests)) ≡ ok w')
      via (sent w' m) e rest = ((rest w' m).0, rw (e, fan_out) (rest w' m).1)
      via (failed w' why) e rest = (w', rw (e, fan_out) refl)
      via panicked e rest = absurd (works w bytes dst e)

  -- If the calls of the socket return then so does `reply`, to a packet with a six-byte hardware
  -- address, and an error is logged.
  pub reply-logged :
      (w : W) (server : Server) (m : MessageType) (opts : List DhcpOption) (ip : Ipv4Addr)
      (req : Packet)
      → length req.chaddr ≡ 6
      → (w' : W) × (logged (Server.reply send_to server w m opts ip req) ≡ ok w')
  unfolding Server.reply
  reply-logged w server m opts ip req six =
      let (p, q, same) = reply_packet-ok server m opts ip req in
      let (w', e) =
        fan_out-logged w (wire p) 0
          (route_dests server.src p.broadcast p.yiaddr server.broadcasts) in
      (
        w',
        ap (λ r. logged (Server.send_built send_to server w r)) q
            ∙ ap logged (send-route_dests send_to server w p (ap length same ∙ six))
            ∙ e,
      )
