-- ===== src/Service/Traffic/Handled.antt =====
-- src/main.rs and src/server.rs: what the handler sends, and the settings that it keeps.
use rusty_dhcp.Base.{ℕ, ◌≡◌, refl, ap, subst, sym, List, [], ◌∷◌, All, length, ok, err, panic}
use rusty_dhcp.Options.{Ipv4Addr, MessageType, DhcpOption, code}
use rusty_dhcp.Packet.{Packet}
use rusty_dhcp.Server.{Server, SocketAddr, Sent}
use rusty_dhcp.Server.Reply.{IsAdditional}
use rusty_dhcp.Leases.{MyServer}
use rusty_dhcp.Leases.Settings.{settings}
use rusty_dhcp.Leases.Table.{IsTable}
use rusty_dhcp.Service
use rusty_dhcp.Service.{offer_options, not_available}
use rusty_dhcp.Service.Send.{IsSocket}
use rusty_dhcp.Service.Answers.{
  Result, Renews, renewed, Grants, granted, Discovers, known, offered, committed, silent, Requests,
  acknowledged, refused, Releases, not_ours, nothing, freed,
}
use rusty_dhcp.Service.Handlers.{
  handle_discover-Discovers, handle_lease_request-Requests, handle_release-Releases,
}
use rusty_dhcp.Service.Effect.{handle_request-cases}
use rusty_dhcp.Service.Traffic.{IsKept, reply-Leaves, logged-Leaves}

module _ {W E : Type 0} (send_to : W → List ℕ → SocketAddr → Sent W E) (now : W → W × ℕ)
    (P : W → Type 0) (ticks : (w : W) → P w → P (now w).0) where
  -- The state of the socket satisfies `P` and the settings are those of `s`.
  abbrev pub Kept : MyServer → Result send_to now → Type 0
  Kept s (ok (t, w)) = P w × (settings t ≡ settings s)
  Kept s (err e) = Unit {0}
  Kept s panic = Unit {0}

  module _ (server : Server) (req : Packet) (keep : IsKept send_to P server req)
      (six : length req.chaddr ≡ 6) where
    reply-P :
        (t : MyServer) (w w' : W) (m : MessageType) (ip : Ipv4Addr)
        → All IsAdditional t.cached_offer
        → P w
        → Service.reply send_to now t w server m req ip ≡ ok w'
        → P w'
    unfolding Service.reply
    reply-P t w w' m ip additional p r =
        logged-Leaves send_to P _ w'
          (reply-Leaves send_to P server w m (offer_options t) ip req keep additional six p) r

    nak-P : (w w' : W) → P w → Service.nak send_to now w server req not_available ≡ ok w' → P w'
    unfolding Service.nak code
    nak-P w w' p r =
        logged-Leaves send_to P _ w'
          (reply-Leaves send_to P server w MessageType.nak (DhcpOption.message not_available ∷ []) 0
            req keep ((refl, refl), tt) six p)
          r

    module _ (s : MyServer) (additional : All IsAdditional s.cached_offer) where
      -- The options of an offer are among the settings.
      still : (t : MyServer) → settings t ≡ settings s → All IsAdditional t.cached_offer
      still t e = subst (All IsAdditional) (ap (λ x. x.2) (sym e)) additional

      Renews-Kept :
          (w : W) (m : MessageType) (x : Result send_to now)
          → P w
          → Renews send_to now s w server req m x
          → Kept s x
      Renews-Kept w m x p (renewed ip t w' f n r) =
          (reply-P t w w' m ip (still t n.same_settings) p r, n.same_settings)

      Grants-Kept :
          (w : W) (ip : Ipv4Addr) (expiry : ℕ) (x : Result send_to now)
          → P w
          → Grants send_to now s w server req ip expiry x
          → Kept s x
      Grants-Kept w ip expiry x p (granted t w' c r) =
          (reply-P t w w' MessageType.ack ip (still t c.same_settings) p r, c.same_settings)

      Requests-Kept :
          (w : W) (x : Result send_to now) → P w → Requests send_to now s w server req x → Kept s x
      Requests-Kept w x p (known k) = Renews-Kept w MessageType.ack x p k
      Requests-Kept w x p (acknowledged f free g) = Grants-Kept (now w).0 _ _ x (ticks w p) g
      Requests-Kept w x p (refused w' f taken q) = (nak-P (now w).0 w' (ticks w p) q, refl)

      Releases-Kept :
          (w : W) (x : Result send_to now) → P w → Releases send_to now s w server req x → Kept s x
      Releases-Kept w x p (not_ours away) = (p, refl)
      Releases-Kept w x p (nothing ours f) = (p, refl)
      Releases-Kept w x p (freed ip t ours f c) = (p, c.same_settings)

    Discovers-Kept :
        (s : MyServer) (w : W) (x : Result send_to now)
        → All IsAdditional s.cached_offer
        → P w
        → Discovers send_to now s w server req x
        → Kept s x
    Discovers-Kept s w x a p (known k) = Renews-Kept s a w _ x p k
    Discovers-Kept s w x a p (offered n w' r f lt free q) =
        (reply-P _ (now w).0 w' MessageType.offer _ a (ticks w p) q, refl)
    Discovers-Kept s w x a p (committed n r f lt free g) =
        Grants-Kept _ a (now w).0 _ _ x (ticks w p) g
    Discovers-Kept s w x a p (silent n f le none_) = (ticks w p, refl)

    pub handle_request-Kept :
        (s : MyServer) (w : W)
        → IsSocket send_to
        → IsTable s
        → All IsAdditional s.cached_offer
        → P w
        → Kept s (Service.handle_request send_to now (s, w) server req)
    handle_request-Kept s w works v a p =
        handle_request-cases send_to now server req s w (Kept s)
          (Discovers-Kept s w _ a p
            (handle_discover-Discovers send_to now works server req six s v w))
          (Requests-Kept s a w _ p
            (handle_lease_request-Requests send_to now works server req six s v w))
          (Releases-Kept s a w _ p (handle_release-Releases send_to now works server req six s v w))
          (p, refl)
