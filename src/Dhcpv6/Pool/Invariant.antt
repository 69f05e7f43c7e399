-- ===== src/Dhcpv6/Pool/Invariant.antt =====
-- src/dhcpv6.rs, `V6Pool`: the invariant of a pool, and the map from addresses to entries that its
-- slots and its overflow stand for.
use rusty_dhcp.Base.{
  ℕ, ◌+◌, ◌-◌, ◌≤◌, ◌<◌, ◌≡◌, inl, inr, true, false, Option, none, some, arith, length,
  if◌then◌else◌, is_none, ok, Bool-cases, Option-cases, nat_eq, bytes_eq,
}
use rusty_dhcp.Base.Slots.{count_some, entry_at, index-entry_at, weight-le-count_some, entry_at-lt}
use rusty_dhcp.Base.HashMap
use rusty_dhcp.Base.HashMap.{HashMap, Keys, Distinct}
use rusty_dhcp.Dhcpv6.Pool.{Ipv6Addr, Entry, V6Pool, u128_mod, checked_add, idx, lookup}

-- The entry that stands for an address: in its slot, or in the overflow if it has none.
unfoldable pub held_at : Option ℕ → V6Pool → Ipv6Addr → Option Entry
held_at (some i) p addr = entry_at p.slots i
held_at none p addr = HashMap.get addr p.overflow

abbrev pub held : V6Pool → Ipv6Addr → Option Entry
held p addr = held_at (idx p addr) p addr

-- The addresses of the overflow have no slot.
abbrev pub IsSpilled : V6Pool → Ipv6Addr → Type 0
IsSpilled p addr = idx p addr ≡ none

pub record Inv (p : V6Pool) : Type 0 where
  pub start_fits : p.start < u128_mod
  pub ends : p.end ≡ checked_add p.start p.count
  pub last_in_range : p.last ≤ p.count - 1
  pub sized : length p.slots ≡ (if p.use_slots then p.count else 0)
  pub counted : p.filled ≡ count_some p.slots
  pub closed_empty : is_none p.end ≡ true → p.filled ≡ 0
  pub spilled : Keys (IsSpilled p) p.overflow
  pub distinct : Distinct p.overflow

-- An address with a slot.
pub idx-some :
    (p : V6Pool) (addr i : ℕ)
    → idx p addr ≡ some i
    → (p.use_slots ≡ true) × (is_none p.end ≡ false) × (addr ≡ p.start + i) × (i < p.count)
unfolding idx
idx-some p addr i h = ground arith

pub idx-slot :
    (p : V6Pool) (i : ℕ)
    → p.use_slots ≡ true
    → is_none p.end ≡ false
    → i < p.count
    → idx p (p.start + i) ≡ some i
unfolding idx
idx-slot p i u e h = ground arith

module _ (p : V6Pool) (v : Inv p) where
  pub slot_in_range : (addr i : ℕ) → idx p addr ≡ some i → i < length p.slots
  slot_in_range addr i h = let (u, _, _, lt) = idx-some p addr i h in ground arith

  -- An open pool ends within the address space.
  pub open_end :
      is_none p.end ≡ false → (p.end ≡ some (p.start + p.count)) × (p.start + p.count < u128_mod)
  unfolding checked_add
  open_end h = ground arith

  -- A slot with an entry is the slot of an address.
  pub occupied :
      (i : ℕ) (e : Entry)
      → entry_at p.slots i ≡ some e
      → (idx p (p.start + i) ≡ some i) × (p.start + i < u128_mod)
  occupied i e h = elim (Bool-cases (is_none p.end)) [
    | inl closed ↦ absurd (ground (arith, v.closed_empty closed, weight-le-count_some p.slots i))
    | inr open_ ↦
        let (u, lt) = in_slots in (idx-slot p i u open_ lt, omega (arith, (open_end open_).1))
  ]
    where
      in_slots : (p.use_slots ≡ true) × (i < p.count)
      in_slots = ground (arith, entry_at-lt p.slots i e)

  -- `lookup` never panics.
  pub lookup-held : (addr : ℕ) → lookup p addr ≡ ok (held p addr)
  unfolding lookup held_at
  lookup-held addr = elim (Option-cases (idx p addr)) [
    | inl n ↦ rw (n, lookup)
    | inr (i, s) ↦ rw (s, lookup) (index-entry_at p.slots i (slot_in_range addr i s))
  ]
