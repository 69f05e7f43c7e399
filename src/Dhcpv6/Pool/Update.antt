-- ===== src/Dhcpv6/Pool/Update.antt =====
-- src/dhcpv6.rs, `V6Pool`: what the writes of `insert`, `request` and `release` do to the entries.
mod Writes
use rusty_dhcp.Base.{
  nat_eq, bytes_eq, ℕ, zero, suc, ◌+◌, ◌-◌, ◌≤◌, ◌≡◌, refl, inl, inr, Option, none, some, arith,
  set, ◌==◌, if◌then◌else◌, is_none, ok, Option-cases,
}
use rusty_dhcp.Base.Slots.{entry_at, weight, index-entry_at, weight-le-count_some}
use Prim.Native.String.{String}
use rusty_dhcp.Base.HashMap
use rusty_dhcp.Base.HashMap.{HashMap}
use rusty_dhcp.Dhcpv6.Pool.{
  Ipv6Addr, Duid, Entry, V6Pool, idx, fill_slot, insert, drop_hint, commit, require_nonzero, vacate,
}
use rusty_dhcp.Dhcpv6.Pool.Invariant.{held_at, held, Inv, slot_in_range}
use rusty_dhcp.Dhcpv6.Pool.Update.Writes.{
  with_slots, with_overflow, set_slot-Inv, held-set_slot, insert_overflow-Inv, remove_overflow-Inv,
  held-insert_overflow, held-remove_overflow,
}

abbrev pub entry : Duid → Option ℕ → Entry
entry duid expiry = record { duid = duid; expiry = expiry }

-- `q` is `p` with the entry `o` for one address.
pub record Updates (p q : V6Pool) (addr : Ipv6Addr) (o : Option Entry) : Type 0 where
  pub keeps : Inv q
  pub holds : (b : Ipv6Addr) → held q b ≡ (if addr == b then o else held p b)
  pub same_range : (q.start ≡ p.start) × (q.count ≡ p.count) × (q.end ≡ p.end)
  pub same_storage : q.use_slots ≡ p.use_slots

filled_weight :
    (o : Option Entry) (n : ℕ) (e : Entry)
    → (if is_none o then n + 1 else n) + weight o ≡ n + weight (some e)
filled_weight none n e = omega arith
filled_weight (some e') n e = omega arith

require_nonzero_lem : (n : ℕ) → 1 ≤ n → require_nonzero n ≡ ok tt
unfolding require_nonzero
require_nonzero_lem zero h = absurd (omega arith)
require_nonzero_lem (suc n) h = refl

module _ (p : V6Pool) (v : Inv p) (addr : Ipv6Addr) (duid : Duid) where
  fill_slot-Updates :
      (i : ℕ) (e : Entry) (hints : HashMap Duid Ipv6Addr)
      → idx p addr ≡ some i
      → Updates p (fill_slot p i e (entry_at p.slots i) hints) addr (some e)
  fill_slot-Updates i e hints s = record {
    keeps =
        set_slot-Inv p v addr hints i s (some e) _ (filled_weight (entry_at p.slots i) p.filled e);
    holds = held-set_slot p v addr hints i s (some e) _;
    same_range = (refl, refl, refl);
    same_storage = refl;
  }

  spill-Updates :
      (e : Entry) (hints : HashMap Duid Ipv6Addr)
      → idx p addr ≡ none
      → Updates p (with_overflow p (HashMap.insert addr e p.overflow) hints) addr (some e)
  spill-Updates e hints n = record {
    keeps = insert_overflow-Inv p v addr hints n e;
    holds = held-insert_overflow p v addr hints n e;
    same_range = (refl, refl, refl);
    same_storage = refl;
  }

  -- On a pool that meets the invariant `insert` never panics. It gives the address to the DUID,
  -- whoever held it before, and keeps all other entries and the invariant.
  pub insert-Updates :
      (expiry : Option ℕ)
      → (q : V6Pool) × (insert p addr duid expiry ≡ ok q)
        × Updates p q addr (some (entry duid expiry))
  unfolding insert
  insert-Updates expiry = elim (Option-cases (idx p addr)) [
    | inl n ↦
        let hints =
          HashMap.insert duid addr (drop_hint (HashMap.get addr p.overflow) duid addr p.by_duid) in
        (
          with_overflow p (HashMap.insert addr (entry duid expiry) p.overflow) hints,
          rw (n, insert),
          spill-Updates (entry duid expiry) hints n,
        )
    | inr (i, s) ↦
        let old = entry_at p.slots i in
        let hints = HashMap.insert duid addr (drop_hint old duid addr p.by_duid) in
        (
          fill_slot p i (entry duid expiry) old hints,
          rw (s, insert) (rw (index-entry_at {E = String} p.slots i (slot_in_range p v addr i s))),
          fill_slot-Updates i (entry duid expiry) hints s,
        )
  ]

  -- So does `commit`.
  pub commit-Updates :
      (expiry : ℕ)
      → (q : V6Pool) × (commit p duid addr expiry ≡ ok (q, addr))
        × Updates p q addr (some (entry duid (some expiry)))
  unfolding commit
  commit-Updates expiry =
      let e = entry duid (some expiry) in
      let hints = HashMap.insert duid addr p.by_duid in
      elim (Option-cases (idx p addr)) [
        | inl n ↦ (
          with_overflow p (HashMap.insert addr e p.overflow) hints,
          rw (n, commit),
          spill-Updates e hints n,
        )
        | inr (i, s) ↦ (
          fill_slot p i e (entry_at p.slots i) hints,
          rw (s, commit) (rw (index-entry_at {E = String} p.slots i (slot_in_range p v addr i s))),
          fill_slot-Updates i e hints s,
        )
      ]

  -- `vacate` never panics on an address that is held, and takes only its entry away.
  pub vacate-Updates :
      (e : Entry)
      → held p addr ≡ some e
      → (q : V6Pool) × (vacate p addr ≡ ok q) × Updates p q addr none
  unfolding vacate held_at
  vacate-Updates e h = elim (Option-cases (idx p addr)) [
    | inl n ↦ (
      with_overflow p (HashMap.remove addr p.overflow) p.by_duid,
      rw (n, vacate),
      record {
        keeps = remove_overflow-Inv p v addr p.by_duid n;
        holds = held-remove_overflow p v addr p.by_duid n;
        same_range = (refl, refl, refl);
        same_storage = refl;
      },
    )
    | inr (i, s) ↦
        let found : entry_at p.slots i ≡ some e = rw s at h in
        let occupied : 1 ≤ p.filled = ground (arith, v.counted, weight-le-count_some p.slots i) in
        (
          with_slots p (set p.slots i none) (p.filled - 1) p.by_duid,
          rw (s, vacate)
              (rw (
                index-entry_at {E = String} p.slots i (slot_in_range p v addr i s),
                require_nonzero_lem p.filled occupied,
              )),
          record {
            keeps =
                set_slot-Inv p v addr p.by_duid i s none (p.filled - 1)
                  (rw found (omega (arith, occupied)));
            holds = held-set_slot p v addr p.by_duid i s none (p.filled - 1);
            same_range = (refl, refl, refl);
            same_storage = refl;
          },
        )
  ]
