-- ===== src/Dhcpv6/Pool/Grant.antt =====
-- src/dhcpv6.rs, `V6Pool`: `available_at`, `request` and `release` against the map of entries.
use Prim.Native.String.{String}
use rusty_dhcp.Base.{
  ℕ, ◌+◌, ◌≡◌, refl, sym, subst, ◌∙◌, ◌≢◌, ◌⊎◌, inl, inr, true, false, ◌&&◌, Option, none, some,
  arith, ◌==◌, list_beq, is_none, Outcome, ok, err, Bool-cases, Option-cases, nat_eq, bytes_eq,
  ==_iff, ne→==,
}
use rusty_dhcp.Base.Slots.{index-entry_at}
use rusty_dhcp.Dhcpv6.Pool.{
  Ipv6Addr, Duid, Entry, V6Pool, idx, in_range, before_end, has_expired, entry_available,
  slot_available, available_at, current_lease, request,
}
use rusty_dhcp.Dhcpv6.Pool.Invariant.{held_at, held, Inv, idx-some, slot_in_range, open_end}
use rusty_dhcp.Dhcpv6.Pool.Update.{entry, Updates, commit-Updates}
use rusty_dhcp.Dhcpv6.Pool.Lease.{Finds, current_lease-Finds}

-- The addresses of the pool are those of the range, and every one with a slot is among them.
pub in_range-slot :
    (p : V6Pool) (v : Inv p) (addr i : ℕ) → idx p addr ≡ some i → in_range p addr ≡ true
unfolding in_range before_end
in_range-slot p v addr i s =
    let (u, o, e, lt) = idx-some p addr i s in
    let (end_, _) = open_end p v o in rw end_ (ground arith)

in_range-no_slot :
    (p : V6Pool) (v : Inv p) (addr : ℕ)
    → idx p addr ≡ none
    → p.use_slots ≡ true
    → in_range p addr ≡ false
unfolding in_range idx before_end
in_range-no_slot p v addr n u = elim (Bool-cases (is_none p.end)) [
  | inl closed ↦ ground arith
  | inr o ↦ let (end_, _) = open_end p v o in ground arith
]

-- On a pool that meets the invariant `available_at` never panics: an address is available exactly
-- if it is in range and has no entry, or one of the same client, or one that has run out.
pub available_at_lem :
    (p : V6Pool) (v : Inv p) (duid : Duid) (addr now : ℕ)
    → available_at p duid addr now ≡ ok (in_range p addr && entry_available (held p addr) duid now)
unfolding available_at slot_available held_at
available_at_lem p v duid addr now = elim (Option-cases (idx p addr)) [
  | inr (i, s) ↦
      rw (s, available_at)
        (rw (
          index-entry_at {E = String} p.slots i (slot_in_range p v addr i s),
          in_range-slot p v addr i s,
        ))
  | inl n ↦ elim (Bool-cases p.use_slots) [
    | inl u ↦ rw (n, available_at) (rw (in_range-no_slot p v addr n u, u))
    | inr u ↦ elim (Bool-cases (in_range p addr)) [
      | inl r ↦ rw (n, available_at) (rw (r, u))
      | inr r ↦ rw (n, available_at) (rw (r, u))
    ]
  ]
]

-- What an answer to `request` says and does.
pub data Requests (p : V6Pool) (duid : Duid) (addr now : ℕ)
    : Outcome String (V6Pool × Ipv6Addr) → Type 0 where
  renewed : (ip : Ipv6Addr) → Finds (held p) duid (some ip) → Requests p duid addr now (ok (p, ip))
  refused :
      (why : String)
      → Finds (held p) duid none
      → in_range p addr && entry_available (held p addr) duid now ≡ false
      → Requests p duid addr now (err why)
  granted :
      (q : V6Pool)
      → Finds (held p) duid none
      → in_range p addr && entry_available (held p addr) duid now ≡ true
      → Updates p q addr (some (entry duid (some (now + p.lease_duration))))
      → Requests p duid addr now (ok (q, addr))

module _ (p : V6Pool) (v : Inv p) (duid : Duid) (addr now : ℕ) where
  -- On a pool that meets the invariant `request` never panics. A client with a lease gets an
  -- address that it holds and nothing changes. Any other gets the address asked for exactly if that
  -- is in the pool and free, for the lease duration; all other entries and the invariant stay.
  pub request-Requests : Requests p duid addr now (request p duid addr now)
  unfolding request
  request-Requests = via (current_lease-Finds p v duid) (Bool-cases _)
    where
      via :
          (o : Option Ipv6Addr) × (current_lease p duid ≡ ok o) × Finds (held p) duid o
          → (in_range p addr && entry_available (held p addr) duid now ≡ true)
            ⊎ (in_range p addr && entry_available (held p addr) duid now ≡ false)
          → Requests p duid addr now (request p duid addr now)
      via (some ip, q, f) free = rw q (renewed ip f)
      via (none, q, f) (inr taken) =
          rw (q, available_at_lem p v duid addr now, taken) (refused _ f taken)
      via (none, q, f) (inl free) =
          let (r, s, u) = commit-Updates p v addr duid (now + p.lease_duration) in
          rw (q, available_at_lem p v duid addr now, free, s) (granted r f free u)

-- A committed address: `duid` held none before and holds this one now.
module _ (p q : V6Pool) (addr : Ipv6Addr) (o : Option Entry) (u : Updates p q addr o) where
  pub read_updated : held q addr ≡ o
  read_updated = u.holds addr ∙ rw ((==_iff addr addr).1 refl)

  pub read_other : (b : Ipv6Addr) → b ≢ addr → held q b ≡ held p b
  read_other b n = u.holds b ∙ rw (ne→== addr b (λ e. n (sym e)))

not_available :
    (p : V6Pool) (duid : Duid) (now addr b : ℕ) (e : Entry)
    → addr ≡ b
    → held p b ≡ some e
    → list_beq e.duid duid ≡ false
    → has_expired e.expiry now ≡ false
    → in_range p addr && entry_available (held p addr) duid now ≡ true
    → ⊥
unfolding entry_available
not_available p duid now addr b e same h other fresh t =
    let here : held p addr ≡ some e = rw same h in
    let free : entry_available (held p addr) duid now ≡ true = ground arith in ground (arith, here)

-- On a pool that meets the invariant, an entry of another client that has not run out stays as it
-- is whatever is requested and granted. So does a permanent reservation, which never runs out.
pub request_protects :
    (p : V6Pool) (duid : Duid) (addr now : ℕ) (q : V6Pool) (ip b : Ipv6Addr) (e : Entry)
    → Inv p
    → request p duid addr now ≡ ok (q, ip)
    → held p b ≡ some e
    → list_beq e.duid duid ≡ false
    → has_expired e.expiry now ≡ false
    → held q b ≡ some e
request_protects p duid addr now q ip b e v r h other fresh =
    via (request p duid addr now) (request-Requests p v duid addr now) r
  where
    via :
        (x : Outcome String (V6Pool × Ipv6Addr))
        → Requests p duid addr now x
        → x ≡ ok (q, ip)
        → held q b ≡ some e
    via x (renewed ip' f) eq = let same : p ≡ q = cc in subst (λ s. held s b ≡ some e) same h
    via x (refused why f t) eq = cc
    via x (granted q' f t u) eq =
        let same : q' ≡ q = cc in
        subst (λ s. held s b ≡ some e) same
          (elim (Bool-cases (addr == b)) [
            | inr ne ↦ u.holds b ∙ rw ne h
            | inl hit ↦
                absurd (not_available p duid now addr b e ((==_iff addr b).0 hit) h other fresh t)
          ])
