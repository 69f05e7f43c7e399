-- ===== src/Dhcpv6/Pool/Release.antt =====
-- src/dhcpv6.rs, `V6Pool::release`: one lease goes, and only the hints may change besides.
use Prim.Native.String.{String}
use rusty_dhcp.Base.{
  ◌+◌, ◌≡◌, ◌∙◌, inl, inr, Bool, true, false, Option, none, some, arith, Outcome, ok, Bool-cases,
  nat_eq, bytes_eq,
}
use rusty_dhcp.Base.HashMap
use rusty_dhcp.Base.HashMap.{HashMap}
use rusty_dhcp.Dhcpv6.Pool.{
  Ipv6Addr, Duid, Entry, V6Pool, idx, repointed, repoint, points_to, current_lease, release,
}
use rusty_dhcp.Dhcpv6.Pool.Invariant.{held_at, held, Inv}
use rusty_dhcp.Dhcpv6.Pool.Update.{Updates, vacate-Updates}
use rusty_dhcp.Dhcpv6.Pool.Lease.{Finds, current_lease-Finds, scan_slots-SlotScan, slots_fit}

abbrev pub with_hints : V6Pool → HashMap Duid Ipv6Addr → V6Pool
with_hints p hints = record p { by_duid = hints }

-- The hints carry no part of the state that counts.
with_hints-Inv : (p : V6Pool) (hints : HashMap Duid Ipv6Addr) → Inv p → Inv (with_hints p hints)
unfolding idx
with_hints-Inv p hints v = record {
  start_fits = v.start_fits;
  ends = v.ends;
  last_in_range = v.last_in_range;
  sized = v.sized;
  counted = v.counted;
  closed_empty = v.closed_empty;
  spilled = v.spilled;
  distinct = v.distinct;
}

held-with_hints :
    (p : V6Pool) (hints : HashMap Duid Ipv6Addr) (b : Ipv6Addr)
    → held (with_hints p hints) b ≡ held p b
unfolding idx held_at
held-with_hints p hints b = ground arith

pub with_hints-Updates :
    (p q : V6Pool) (addr : Ipv6Addr) (o : Option Entry) (hints : HashMap Duid Ipv6Addr)
    → Updates p q addr o
    → Updates p (with_hints q hints) addr o
with_hints-Updates p q addr o hints u = record {
  keeps = with_hints-Inv q hints u.keeps;
  holds = λ b. held-with_hints q hints b ∙ u.holds b;
  same_range = u.same_range;
  same_storage = u.same_storage;
}

pub repoint_hints :
    (p : V6Pool) (duid : Duid)
    → Inv p
    → (hints : HashMap Duid Ipv6Addr) × (repoint p duid ≡ ok (with_hints p hints))
unfolding repoint
repoint_hints p duid v = elim (Bool-cases p.use_slots) [
  | inr u ↦ (repointed p duid none, rw u)
  | inl u ↦ elim (scan_slots-SlotScan p.start 0 p.slots duid (slots_fit p v duid)) [
    | inl (q, _) ↦ (repointed p duid none, rw (u, q))
    | inr (j, e, q, _, _) ↦ (repointed p duid (some (p.start + (0 + j))), rw (u, q))
  ]
]

-- What `release` says and does.
pub data Releases (p : V6Pool) (duid : Duid) : Outcome String (V6Pool × Bool) → Type 0 where
  nothing : Finds (held p) duid none → Releases p duid (ok (p, false))
  freed :
      (q : V6Pool) (ip : Ipv6Addr)
      → Finds (held p) duid (some ip)
      → Updates p q ip none
      → Releases p duid (ok (q, true))

module _ (p : V6Pool) (v : Inv p) (duid : Duid) where
  drop_lease :
      (ip : Ipv6Addr)
      → current_lease p duid ≡ ok (some ip)
      → Finds (held p) duid (some ip)
      → Releases p duid (release p duid)
  unfolding release
  drop_lease ip c f =
      let (q, e, u) = vacate-Updates p v ip duid f.0 f.1 in
      elim (Bool-cases (points_to (HashMap.get duid q.by_duid) ip)) [
        | inr away ↦ rw (c, e, away) (freed q ip f u)
        | inl here ↦
            let (hints, r) = repoint_hints q duid u.keeps in
            rw (c, e, here, r)
              (freed (with_hints q hints) ip f (with_hints-Updates p q ip none hints u))
      ]

  -- On a pool that meets the invariant `release` never panics. It answers whether `duid` held a
  -- lease; if so, it takes one lease of `duid` away and keeps every other entry and the invariant.
  pub release-Releases : Releases p duid (release p duid)
  unfolding release
  release-Releases = via (current_lease-Finds p v duid)
    where
      via :
          (o : Option Ipv6Addr) × (current_lease p duid ≡ ok o) × Finds (held p) duid o
          → Releases p duid (release p duid)
      via (none, c, f) = rw c (nothing f)
      via (some ip, c, f) = drop_lease ip c f
