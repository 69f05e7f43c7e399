-- ===== src/Service6/Serves.antt =====
-- src/main.rs, `serve_v6`: the service keeps its pool in order, whatever it receives.
mod Encode
use Prim.Native.String.{String}
use rusty_dhcp.Base.{
  ℕ, ◌+◌, ◌-◌, ◌≤◌, ◌≡◌, refl, sym, ◌∙◌, inl, inr, Bool, List, [], ◌∷◌, Option, none, some, arith,
  ◌==◌, if◌then◌else◌, Outcome, ok, ◌>>=◌, Bool-cases, Option-cases, Outcome-cases,
}
use rusty_dhcp.Server.{SocketAddr, Sent, sent, failed, panicked, Received, no_datagram, datagram}
use rusty_dhcp.Config.{Config}
use rusty_dhcp.Service.{logged}
use rusty_dhcp.Service.Send.{IsSocket}
use rusty_dhcp.Dhcpv6.Codec.{MsgType}
use rusty_dhcp.Dhcpv6.Datagram.{Datagram, encode6, is_for_server}
use rusty_dhcp.Dhcpv6.Datagram.Decode.{from6-total}
use rusty_dhcp.Dhcpv6.Pool.{Ipv6Addr, Duid, Entry, V6Pool, discover, request, release}
use rusty_dhcp.Dhcpv6.Pool.Invariant.{held, Inv}
use rusty_dhcp.Dhcpv6.Pool.Update.{Updates}
use rusty_dhcp.Dhcpv6.Pool.Grant.{Requests, renewed, refused, granted, request-Requests}
use rusty_dhcp.Dhcpv6.Pool.Release.{Releases, nothing, freed, release-Releases}
use rusty_dhcp.Dhcpv6.Pool.Discover.{
  Discovers, existing, offered, exhausted, discover-Discovers, with_last, with_last-Inv,
  held-with_last,
}
use rusty_dhcp.Dhcpv6.Pool.Exclusive.{OneLease, request-OneLease}
use rusty_dhcp.Service6
use rusty_dhcp.Service6.{wanted, client_duid, is_rapid6}
use rusty_dhcp.Service6.Serves.Encode.{encode6-ne-panic}

-- A pool in order: it meets the invariant and, if `X` holds, no client has two addresses.
record IsOrdered (X : Type 0) (p : V6Pool) : Type 0 where
  pub inv : Inv p
  pub one : X → OneLease p

with_last-IsOrdered :
    (X : Type 0) (p : V6Pool) (n : ℕ)
    → IsOrdered X p
    → n ≤ p.count - 1
    → IsOrdered X (with_last p n)
with_last-IsOrdered X p n v h = record {
  inv = with_last-Inv p n v.inv h;
  one = λ k a b e f x y d.
      v.one k a b e f (sym (held-with_last p n a) ∙ x) (sym (held-with_last p n b) ∙ y) d;
}

emptied-OneLease : (p q : V6Pool) (ip : Ipv6Addr) → Updates p q ip none → OneLease p → OneLease q
emptied-OneLease p q ip u one a b e f x y d =
    one a b e f (still a e (sym (u.holds a) ∙ x)) (still b f (sym (u.holds b) ∙ y)) d
  where
    still :
        (a : Ipv6Addr) (e : Entry)
        → (if ip == a then none else held p a) ≡ some e
        → held p a ≡ some e
    still a e h = ground arith

module _ {W E : Type 0} (send_to : W → List ℕ → SocketAddr → Sent W E) (now : W → W × ℕ)
    (config : Config) (works : IsSocket send_to) (X : Type 0) where
  logged-ok :
      (w : W) (bytes : List ℕ) (dst : SocketAddr)
      → (w' : W) × (logged (send_to w bytes dst) ≡ ok w')
  logged-ok w bytes dst = via (send_to w bytes dst) refl
    where
      via :
          (r : Sent W E)
          → send_to w bytes dst ≡ r
          → (w' : W) × (logged (send_to w bytes dst) ≡ ok w')
      via (sent w' n) e = (w', rw e refl)
      via (failed w' why) e = (w', rw e refl)
      via panicked e = absurd (works w bytes dst e)

  transmit-ok :
      (w : W) (dst : SocketAddr) (p : Datagram)
      → (w' : W) × (Service6.transmit send_to now config w dst p ≡ ok w')
  unfolding Service6.transmit
  transmit-ok w dst p = elim (Outcome-cases (encode6 p)) [
    | inl (bytes, e) ↦ let (w', q) = logged-ok w bytes dst in (w', rw (e, Service6.transmit) q)
    | inr (inl (why, e)) ↦ (w, rw (e, Service6.transmit) refl)
    | inr (inr e) ↦ absurd (encode6-ne-panic p e)
  ]

  -- A result whose pool is in order.
  abbrev Keeps : Outcome String (V6Pool × W) → Type 0
  Keeps x = (q : V6Pool) × (w : W) × (x ≡ ok (q, w)) × IsOrdered X q

  sends :
      (p : V6Pool) (w : W) (dst : SocketAddr) (req : Datagram)
      → IsOrdered X p
      → Keeps (do w' ← Service6.transmit send_to now config w dst req; ok (p, w'))
  sends p w dst req v = let (w', e) = transmit-ok w dst req in (p, w', rw e refl, v)

  answer_request-Keeps :
      (p : V6Pool) (w : W) (src : SocketAddr) (duid : Duid) (req : Datagram) (addr : Ipv6Addr)
      → IsOrdered X p
      → Keeps (Service6.answer_request send_to now config p w src duid req addr)
  unfolding Service6.answer_request Service6.send_v6 Service6.send_v6_nodata
  answer_request-Keeps p w src duid req addr v =
      via (request p duid addr (now w).1) (request-Requests p v.inv duid addr (now w).1) refl
    where
      via :
          (x : Outcome String (V6Pool × Ipv6Addr))
          → Requests p duid addr (now w).1 x
          → request p duid addr (now w).1 ≡ x
          → Keeps (Service6.answer_request send_to now config p w src duid req addr)
      via x (renewed ip f) e = rw (e, Service6.answer_request) (sends p (now w).0 src _ v)
      via x (refused why f t) e = rw (e, Service6.answer_request) (sends p (now w).0 src _ v)
      via x (granted q f t u) e =
          rw (e, Service6.answer_request)
            (sends q (now w).0 src _ (record {
              inv = u.keeps;
              one = λ k. request-OneLease p duid addr (now w).1 q addr v.inv (v.one k) e;
            }))

  module _ (w : W) (src : SocketAddr) (duid : Duid) (req : Datagram) where
    advertise-Keeps :
        (p q : V6Pool) (ip : Ipv6Addr)
        → IsOrdered X q
        → discover p duid (now w).1 ≡ ok (q, some ip)
        → Keeps (Service6.on_solicit send_to now config p w src duid req)
    unfolding Service6.on_solicit Service6.send_v6
    advertise-Keeps p q ip v e = elim (Bool-cases (is_rapid6 config req)) [
      | inl r ↦ rw e (rw r (answer_request-Keeps q (now w).0 src duid req ip v))
      | inr r ↦ rw e (rw r (sends q (now w).0 src _ v))
    ]

    on_solicit-Keeps :
        (p : V6Pool)
        → IsOrdered X p
        → Keeps (Service6.on_solicit send_to now config p w src duid req)
    unfolding Service6.on_solicit Service6.send_v6_nodata
    on_solicit-Keeps p v =
        via (discover p duid (now w).1) (discover-Discovers p v.inv duid (now w).1) refl
      where
        via :
            (x : Outcome String (V6Pool × Option Ipv6Addr))
            → Discovers p duid (now w).1 x
            → discover p duid (now w).1 ≡ x
            → Keeps (Service6.on_solicit send_to now config p w src duid req)
        via x (existing ip f) e = advertise-Keeps p p ip v e
        via x (offered n f lt free) e =
            advertise-Keeps p (with_last p n) (p.start + n)
              (with_last-IsOrdered X p n v (omega (arith, lt))) e
        via x (exhausted n f le free) e =
            rw e (sends (with_last p n) (now w).0 src _ (with_last-IsOrdered X p n v le))

    on_request-Keeps :
        (p : V6Pool)
        → IsOrdered X p
        → Keeps (Service6.on_request send_to now config p w src duid req)
    unfolding Service6.on_request
    on_request-Keeps p v = elim (Option-cases (wanted req)) [
      | inl n ↦ (p, w, rw (n, Service6.on_request) refl, v)
      | inr (addr, e) ↦ rw (e, Service6.on_request) (answer_request-Keeps p w src duid req addr v)
    ]

    on_release-Keeps :
        (p : V6Pool) → IsOrdered X p → Keeps (Service6.on_release send_to now config p w duid req)
    unfolding Service6.on_release
    on_release-Keeps p v = elim (Bool-cases (is_for_server config.server_duid req)) [
      | inr away ↦ (p, w, rw (away, Service6.on_release) refl, v)
      | inl ours ↦
          rw (ours, Service6.on_release) (via (release p duid) (release-Releases p v.inv duid))
    ]
      where
        via :
            (x : Outcome String (V6Pool × Bool))
            → Releases p duid x
            → Keeps (do (q, gone) ← x; ok (q, w))
        via x (nothing f) = (p, w, refl, v)
        via x (freed q ip f u) =
            (q, w, refl, record { inv = u.keeps; one = λ k. emptied-OneLease p q ip u (v.one k) })

    on_message-Keeps :
        (p : V6Pool)
        → IsOrdered X p
        → Keeps (Service6.on_message send_to now config p w src duid req)
    unfolding Service6.on_message
    on_message-Keeps p v = via req.msg_type refl
      where
        via :
            (m : MsgType)
            → req.msg_type ≡ m
            → Keeps (Service6.on_message send_to now config p w src duid req)
        via MsgType.solicit e = rw (e, Service6.on_message) (on_solicit-Keeps p v)
        via MsgType.request e = rw (e, Service6.on_message) (on_request-Keeps p v)
        via MsgType.renew e = rw (e, Service6.on_message) (on_request-Keeps p v)
        via MsgType.rebind e = rw (e, Service6.on_message) (on_request-Keeps p v)
        via MsgType.release e = rw (e, Service6.on_message) (on_release-Keeps p v)
        via MsgType.decline e = rw (e, Service6.on_message) (on_release-Keeps p v)
        via MsgType.advertise e = rw (e, Service6.on_message) (p, w, refl, v)
        via MsgType.confirm e = rw (e, Service6.on_message) (p, w, refl, v)
        via MsgType.reply e = rw (e, Service6.on_message) (p, w, refl, v)
        via MsgType.reconfigure e = rw (e, Service6.on_message) (p, w, refl, v)
        via MsgType.information_request e = rw (e, Service6.on_message) (p, w, refl, v)
        via MsgType.relay_forward e = rw (e, Service6.on_message) (p, w, refl, v)
        via MsgType.relay_reply e = rw (e, Service6.on_message) (p, w, refl, v)

  on_datagram6-Keeps :
      (p : V6Pool) (w : W) (bytes : List ℕ) (src : SocketAddr)
      → IsOrdered X p
      → Keeps (Service6.on_datagram6 send_to now config p w bytes src)
  unfolding Service6.on_datagram6
  on_datagram6-Keeps p w bytes src v = elim (from6-total bytes) [
    | inr (why, e) ↦ (p, w, rw (e, Service6.on_datagram6) refl, v)
    | inl (req, e) ↦ elim (Option-cases (client_duid req)) [
      | inl n ↦ (p, w, rw (e, Service6.on_datagram6) (rw n refl), v)
      | inr (duid, d) ↦ rw (e, Service6.on_datagram6) (rw d (on_message-Keeps w src duid req p v))
    ]
  ]

  receive_all6-Keeps :
      (p : V6Pool) (w : W) (events : List (Received E))
      → IsOrdered X p
      → (why : Option E) × (q : V6Pool) × (w' : W) × (Service6.receive_all6 send_to now config p w
            events
          ≡ ok (why, (q, w')))
        × IsOrdered X q
  unfolding Service6.receive_all6
  receive_all6-Keeps p w [] v = (none, p, w, refl, v)
  receive_all6-Keeps p w (no_datagram e ∷ events) v = (some e, p, w, refl, v)
  receive_all6-Keeps p w (datagram bytes src ∷ events) v =
      let (q, w', e, v') = on_datagram6-Keeps p w bytes src v in
      let (why, q', w'', e', v'') = receive_all6-Keeps q w' events v' in
      (why, q', w'', rw e e', v'')

-- If the calls of the socket return then the DHCPv6 service, on a pool that meets the invariant,
-- handles whatever it receives without a panic, malformed datagrams included. The invariant is
-- kept, and if no client holds two addresses at first then none does at the end.
pub receive_all6-Inv :
    {W E : Type 0} (send_to : W → List ℕ → SocketAddr → Sent W E) (now : W → W × ℕ)
    (config : Config)
    → IsSocket send_to
    → (p : V6Pool) (w : W) (events : List (Received E)) → Inv p
    → (why : Option E) × (q : V6Pool) × (w' : W) × (Service6.receive_all6 send_to now config p w
          events
        ≡ ok (why, (q, w')))
      × Inv q
      × (OneLease p → OneLease q)
receive_all6-Inv send_to now config works p w events v =
    let (why, q, w', e, o) =
      receive_all6-Keeps send_to now config works (OneLease p) p w events
        (record { inv = v; one = λ k. k }) in
    (why, q, w', e, o.inv, o.one)
