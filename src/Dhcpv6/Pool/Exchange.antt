-- ===== src/Dhcpv6/Pool/Exchange.antt =====
-- src/dhcpv6.rs, `V6Pool`: a `discover` and then a `request` of the address that it offers.
use Prim.Native.String.{String}
use rusty_dhcp.Base.{
  ℕ, ◌+◌, ◌≤◌, ◌≡◌, refl, sym, ap, ◌∙◌, true, Option, none, some, arith, list_beq_iff, Outcome, ok,
  nat_eq, bytes_eq,
}
use rusty_dhcp.Dhcpv6.Pool.{
  Ipv6Addr, Duid, Entry, V6Pool, has_expired, entry_available, discover, request,
}
use rusty_dhcp.Dhcpv6.Pool.Invariant.{held, Inv}
use rusty_dhcp.Dhcpv6.Pool.Update.{entry}
use rusty_dhcp.Dhcpv6.Pool.Lease.{Finds}
use rusty_dhcp.Dhcpv6.Pool.Grant.{
  Requests, renewed, refused, granted, request-Requests, read_updated,
}
use rusty_dhcp.Dhcpv6.Pool.Exclusive.{OneLease}
use rusty_dhcp.Dhcpv6.Pool.Discover.{
  is_free, with_last, with_last-Inv, held-with_last, is_free-with_last, Discovers, existing,
  offered, exhausted, discover-Discovers,
}

has_expired_later :
    (o : Option ℕ) (now later : ℕ)
    → now ≤ later
    → has_expired o now ≡ true
    → has_expired o later ≡ true
unfolding has_expired
has_expired_later none now later le h = h
has_expired_later (some exp) now later le h = ground arith

-- What is available stays available.
available_later :
    (o : Option Entry) (duid : Duid) (now later : ℕ)
    → now ≤ later
    → entry_available o duid now ≡ true
    → entry_available o duid later ≡ true
unfolding entry_available
available_later none duid now later le h = refl
available_later (some e) duid now later le h = ground (arith, has_expired_later e.expiry now later)

is_free_later :
    (p : V6Pool) (duid : Duid) (now later : ℕ) (a : Ipv6Addr)
    → now ≤ later
    → is_free p duid now a ≡ true
    → is_free p duid later a ≡ true
is_free_later p duid now later a le h = ground (arith, available_later (held p a) duid now later)

-- The client with the identifier `duid` has the address, and the pool is in order.
pub record Leased (p : V6Pool) (duid : Duid) (ip : Ipv6Addr) : Type 0 where
  pub keeps : Inv p
  pub lease : Finds (held p) duid (some ip)

-- The client has one address at most.
abbrev pub HasOne : V6Pool → Duid → Type 0
HasOne p duid =
    (a b : Ipv6Addr) → Finds (held p) duid (some a) → Finds (held p) duid (some b) → a ≡ b

-- It has if no two entries are of one client.
pub one_address :
    (p : V6Pool) (duid : Duid) (a b : Ipv6Addr)
    → OneLease p
    → Finds (held p) duid (some a)
    → Finds (held p) duid (some b)
    → a ≡ b
one_address p duid a b one f g =
    one a b f.0 g.0 f.1 g.1
      ((list_beq_iff f.0.duid duid).0 f.2 ∙ sym ((list_beq_iff g.0.duid duid).0 g.2))

module _ (duid : Duid) (ip : Ipv6Addr) (q : V6Pool) (v : Inv q) (later : ℕ) where
  abbrev Result : Outcome String (V6Pool × Ipv6Addr) → Type 0
  Result x = (r : V6Pool) × (x ≡ ok (r, ip)) × Leased r duid ip

  -- A client that has the address, or for which it is free, gets it.
  request-holder : HasOne q duid → Finds (held q) duid (some ip) → Result (request q duid ip later)
  request-holder one f = via _ (request-Requests q v duid ip later)
    where
      via : (x : Outcome String (V6Pool × Ipv6Addr)) → Requests q duid ip later x → Result x
      via x (renewed ip' g) =
          (q, ap (λ a. ok (q, a)) (one ip' ip g f), record { keeps = v; lease = f })
      via x (refused why n t) = absurd (ground (arith, n ip f.0 f.1, f.2))
      via x (granted r n t u) = absurd (ground (arith, n ip f.0 f.1, f.2))

  request-free :
      Finds (held q) duid none → is_free q duid later ip ≡ true → Result (request q duid ip later)
  request-free none_ free = via _ (request-Requests q v duid ip later)
    where
      via : (x : Outcome String (V6Pool × Ipv6Addr)) → Requests q duid ip later x → Result x
      via x (renewed ip' (e, h, t)) = absurd (ground (arith, none_ ip' e h, t))
      via x (refused why n t) = absurd (ground arith)
      via x (granted r n t u) = (
        r,
        refl,
        record {
          keeps = u.keeps;
          lease = (
            entry duid (some (later + q.lease_duration)),
            read_updated q r ip _ u,
            (list_beq_iff duid duid).1 refl,
          );
        },
      )

-- On a pool that meets the invariant, if an address is free for a client, which has at most one, then
-- `discover` offers one, and a `request` of the address that is offered, then or later, is granted:
-- the client has it. What other clients have does not matter.
pub discover-request :
    (p : V6Pool) (duid : Duid) (now later : ℕ) (a : Ipv6Addr)
    → Inv p
    → HasOne p duid
    → is_free p duid now a ≡ true
    → now ≤ later
    → (q : V6Pool) × (ip : Ipv6Addr) × (r : V6Pool) × (discover p duid now ≡ ok (q, some ip))
      × (request q duid ip later ≡ ok (r, ip))
      × Leased r duid ip
discover-request p duid now later a v one free le = via _ (discover-Discovers p v duid now)
  where
    via :
        (x : Outcome String (V6Pool × Option Ipv6Addr))
        → Discovers p duid now x
        → (q : V6Pool) × (ip : Ipv6Addr) × (r : V6Pool) × (x ≡ ok (q, some ip))
          × (request q duid ip later ≡ ok (r, ip))
          × Leased r duid ip
    via x (existing ip f) =
        let (r, e, l) = request-holder duid ip p v later one f in (p, ip, r, refl, e, l)
    via x (offered n f lt free_n) =
        let (r, e, l) =
          request-free duid (p.start + n) (with_last p n) (with_last-Inv p n v (omega (arith, lt)))
            later (λ b e h. f b e (sym (held-with_last p n b) ∙ h))
            (is_free-with_last p n duid later (p.start + n)
              ∙ is_free_later p duid now later (p.start + n) le free_n) in
        (with_last p n, p.start + n, r, refl, e, l)
    via x (exhausted n f h none_) = absurd (ground (arith, none_ a))
