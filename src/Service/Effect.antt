-- ===== src/Service/Effect.antt =====
-- src/main.rs, the handler of `MyServer`: what one packet can do to the leases.
use Prim.Native.String.{String}
use mathlib.Core.Option.{some-injective}
use rusty_dhcp.Base.{
  ℕ, ◌+◌, ◌≤◌, ◌≡◌, refl, sym, ap, subst, ◌∙◌, inl, inr, Bool, true, false, ◌&&◌, List, none, some,
  arith, length, list_beq, ◌==◌, ==_iff, if◌then◌else◌, Outcome, ok, err, panic, Bool-cases,
  if_false, le→ltb,
}
use rusty_dhcp.Options.{Ipv4Addr, MessageType}
use rusty_dhcp.Packet.{Packet, message_type}
use rusty_dhcp.Server.{Server, SocketAddr, Sent}
use rusty_dhcp.Dhcpv6.Pool.{Entry}
use rusty_dhcp.Dhcpv6.Pool.Invariant.{held, Inv}
use rusty_dhcp.Dhcpv6.Pool.Update.{entry}
use rusty_dhcp.Dhcpv6.Pool.Lease.{Finds}
use rusty_dhcp.Dhcpv6.Pool.Exclusive.{OneLease, granted-OneLease}
use rusty_dhcp.Leases.{Mac, MyServer, in_pool}
use rusty_dhcp.Leases.Image.{pool_of}
use rusty_dhcp.Leases.Table.{IsTable, holds}
use rusty_dhcp.Leases.Search.{is_free, at, at-IsTable, holds-at}
use rusty_dhcp.Service
use rusty_dhcp.Service.Send.{IsSocket}
use rusty_dhcp.Service.Answers.{
  Result, Renews, renewed, Grants, granted, Discovers, known, offered, committed, silent, Requests,
  acknowledged, refused, Releases, not_ours, nothing, freed,
}
use rusty_dhcp.Service.Handlers.{
  handle_discover-Discovers, handle_lease_request-Requests, handle_release-Releases,
}

-- What a packet of the client `mac` at the time `time` may make of the leases of `s`.
pub data Effect (s : MyServer) (mac : Mac) (time : ℕ) (t : MyServer) : Type 0 where
  keeps : ((b : Ipv4Addr) → holds t b ≡ holds s b) → Effect s mac time t
  grants :
      (ip : Ipv4Addr) (expiry : ℕ)
      → Finds (holds s) mac none
      → is_free s mac time ip ≡ true
      → ((b : Ipv4Addr)
          → holds t b ≡ (if ip == b then some (entry mac (some expiry)) else holds s b))
      → Effect s mac time t
  frees :
      (ip : Ipv4Addr)
      → Finds (holds s) mac (some ip)
      → ((b : Ipv4Addr) → holds t b ≡ (if ip == b then none else holds s b))
      → Effect s mac time t

-- The leases of a table with a table's other fields.
pub pool_of-IsTable : (s t : MyServer) → pool_of t ≡ pool_of s → IsTable s → IsTable t
pool_of-IsTable s t e v = record {
  fits = ground (arith, ap (λ p. p.start) e, ap (λ p. p.count) e, v.fits);
  inv = subst Inv (sym e) v.inv;
}

-- A property of a result that holds for each kind of packet holds for any.
module _ {W E : Type 0} (send_to : W → List ℕ → SocketAddr → Sent W E) (now : W → W × ℕ)
    (server : Server) (req : Packet) (s : MyServer) (w : W) (Q : Result send_to now → Type 0)
    (discovers : Q (Service.handle_discover send_to now s w server req))
    (requests : Q (Service.handle_lease_request send_to now s w server req))
    (releases : Q (Service.handle_release send_to now s w server req))
    (ignores : Q (ok (s, w))) where
  pub handle_request-cases : Q (Service.handle_request send_to now (s, w) server req)
  unfolding Service.handle_request
  handle_request-cases = via (message_type req) refl
    where
      via :
          (m : Outcome String MessageType)
          → message_type req ≡ m
          → Q (Service.handle_request send_to now (s, w) server req)
      via (ok MessageType.discover) e = rw (e, Service.handle_request) discovers
      via (ok MessageType.request) e = rw (e, Service.handle_request) requests
      via (ok MessageType.release) e = rw (e, Service.handle_request) releases
      via (ok MessageType.decline) e = rw (e, Service.handle_request) releases
      via (ok MessageType.offer) e = rw (e, Service.handle_request) ignores
      via (ok MessageType.ack) e = rw (e, Service.handle_request) ignores
      via (ok MessageType.nak) e = rw (e, Service.handle_request) ignores
      via (ok MessageType.inform) e = rw (e, Service.handle_request) ignores
      via (err why) e = rw (e, Service.handle_request) ignores
      via panic e = rw (e, Service.handle_request) ignores

module _ {W E : Type 0} (send_to : W → List ℕ → SocketAddr → Sent W E) (now : W → W × ℕ)
    (server : Server) (req : Packet) (s : MyServer) (v : IsTable s) (w : W) where
  -- A result that is a table, and what became of the leases.
  abbrev pub Returns : Result send_to now → Type 0
  Returns x =
      (t : MyServer) × (w' : W) × (x ≡ ok (t, w')) × IsTable t × Effect s req.chaddr (now w).1 t

  Renews-Returns :
      (m : MessageType) (x : Result send_to now) → Renews send_to now s w server req m x → Returns x
  Renews-Returns m x (renewed ip t w' f n r) = (
    t,
    w',
    refl,
    pool_of-IsTable s t n.same_leases v,
    keeps (λ b. ap (λ p. held p b) n.same_leases),
  )

  Grants-Returns :
      (r : MyServer) (w1 : W) (ip : Ipv4Addr) (expiry : ℕ) (x : Result send_to now)
      → ((b : Ipv4Addr) → holds r b ≡ holds s b)
      → Finds (holds s) req.chaddr none
      → is_free s req.chaddr (now w).1 ip ≡ true
      → Grants send_to now r w1 server req ip expiry x
      → Returns x
  Grants-Returns r w1 ip expiry x same f free (granted t w' c q) = (
    t,
    w',
    refl,
    c.table,
    grants ip expiry f free (λ b.
        c.updates.holds b
        ∙ ap (λ h. if ip == b then some (entry req.chaddr (some expiry)) else h) (same b)),
  )

  Discovers-Returns : (x : Result send_to now) → Discovers send_to now s w server req x → Returns x
  Discovers-Returns x (known k) = Renews-Returns _ x k
  Discovers-Returns x (offered n w' r f lt free q) =
      (at s n, w', refl, at-IsTable s n v (omega (arith, lt)), keeps (holds-at s n))
  Discovers-Returns x (committed n r f lt free g) =
      Grants-Returns (at s n) (now w).0 (s.ip_start_num + n) _ x (holds-at s n) f free g
  Discovers-Returns x (silent n f le none_) =
      (at s n, (now w).0, refl, at-IsTable s n v le, keeps (holds-at s n))

  Requests-Returns : (x : Result send_to now) → Requests send_to now s w server req x → Returns x
  Requests-Returns x (known k) = Renews-Returns _ x k
  Requests-Returns x (acknowledged f free g) = Grants-Returns s (now w).0 _ _ x (λ b. refl) f free g
  Requests-Returns x (refused w' f taken q) = (s, w', refl, v, keeps (λ b. refl))

  Releases-Returns : (x : Result send_to now) → Releases send_to now s w server req x → Returns x
  Releases-Returns x (not_ours away) = (s, w, refl, v, keeps (λ b. refl))
  Releases-Returns x (nothing ours f) = (s, w, refl, v, keeps (λ b. refl))
  Releases-Returns x (freed ip t ours f c) = (t, w, refl, c.table, frees ip f c.updates.holds)

  unchanged : Returns (ok (s, w))
  unchanged = (s, w, refl, v, keeps (λ b. refl))

  -- If the calls of the socket return then on a table no packet from a six-byte hardware address
  -- makes the handler panic: the result is a table, in which at most one lease differs: one that
  -- the client had is gone, or a client without one has got an address that was free for it.
  pub handle_request-Returns :
      IsSocket send_to
      → length req.chaddr ≡ 6
      → Returns (Service.handle_request send_to now (s, w) server req)
  handle_request-Returns works six =
      handle_request-cases send_to now server req s w Returns
        (Discovers-Returns _ (handle_discover-Discovers send_to now works server req six s v w))
        (Requests-Returns _ (handle_lease_request-Requests send_to now works server req six s v w))
        (Releases-Returns _ (handle_release-Releases send_to now works server req six s v w))
        unchanged

and_false : (b : Bool) → b && false ≡ false
and_false true = refl
and_false false = refl

clash : (b : Bool) → b ≡ true → b ≡ false → ⊥
clash b t f = cc

module _ (s : MyServer) (mac : Mac) (time : ℕ) (t : MyServer) (c : Effect s mac time t) where
  taken :
      (b : Ipv4Addr) (e : Entry)
      → holds s b ≡ some e
      → list_beq e.duid mac ≡ false
      → (exp : ℕ) → e.expiry ≡ some exp
      → time ≤ exp
      → is_free s mac time b ≡ false
  taken b e h other exp x fresh =
      rw (h, other, x) (rw (le→ltb exp time fresh) (and_false (in_pool s b)))

  -- The lease of another client that has an expiry and has not run out stays, whatever a packet
  -- does.
  pub Effect-protects :
      (b : Ipv4Addr) (e : Entry)
      → holds s b ≡ some e
      → list_beq e.duid mac ≡ false
      → (exp : ℕ) → e.expiry ≡ some exp
      → time ≤ exp
      → holds t b ≡ some e
  Effect-protects b e h other exp x fresh = via c
    where
      via : Effect s mac time t → holds t b ≡ some e
      via (keeps same) = same b ∙ h
      via (grants ip expiry f free now_) = now_ b ∙ elim (Bool-cases (ip == b)) [
        | inr away ↦ if_false _ _ _ away ∙ h
        | inl here ↦
            let blocked : is_free s mac time ip ≡ false =
              subst (λ a. is_free s mac time a ≡ false) (sym ((==_iff ip b).0 here))
                (taken b e h other exp x fresh) in
            absurd (clash (is_free s mac time ip) free blocked)
      ]
      via (frees ip f now_) = now_ b ∙ elim (Bool-cases (ip == b)) [
        | inr away ↦ if_false _ _ _ away ∙ h
        | inl here ↦
            let mine : holds s b ≡ some f.0 =
              subst (λ a. holds s a ≡ some f.0) ((==_iff ip b).0 here) f.1 in
            let same : f.0 ≡ e = some-injective f.0 e (sym mine ∙ h) in
            absurd
              (clash (list_beq e.duid mac) (ap (λ g. list_beq g.duid mac) (sym same) ∙ f.2) other)
      ]

  -- No client gets a second address.
  pub Effect-OneLease : OneLease (pool_of s) → OneLease (pool_of t)
  Effect-OneLease one = via c
    where
      via : Effect s mac time t → OneLease (pool_of t)
      via (keeps same) a b e f h k d = one a b e f (sym (same a) ∙ h) (sym (same b) ∙ k) d
      via (grants ip expiry n free now_) a b e f h k d =
          granted-OneLease (pool_of s) (pool_of t) ip mac (some expiry) n now_ one a b e f h k d
      via (frees ip f now_) a b e g h k d =
          one a b e g (still a e (sym (now_ a) ∙ h)) (still b g (sym (now_ b) ∙ k)) d
        where
          still :
              (a : Ipv4Addr) (e : Entry)
              → (if ip == a then none else holds s a) ≡ some e
              → holds s a ≡ some e
          still a e h = ground arith
