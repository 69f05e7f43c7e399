-- ===== src/Dhcpv6/Pool/Update/Writes.antt =====
-- src/dhcpv6.rs, `V6Pool`: pools that differ in one slot or in one entry of the overflow.
use rusty_dhcp.Base.{
  ℕ, ◌+◌, ◌≡◌, refl, sym, ap, ◌∙◌, inl, inr, Bool, true, false, List, Option, none, some, arith,
  set, ◌==◌, if◌then◌else◌, Bool-cases, Option-cases, nat_eq, bytes_eq, length-set, ==_iff,
}
use rusty_dhcp.Base.Slots.{entry_at, weight, entry_at-set_self, entry_at-set_ne, count_some-set}
use mathlib.Core.Option.{none-ne-some}
use rusty_dhcp.Base.HashMap
use rusty_dhcp.Base.HashMap.{
  HashMap, Keys, Distinct, get-insert, get-remove, insert-Keys, remove-Keys, insert-Distinct,
  remove-Distinct,
}
use rusty_dhcp.Dhcpv6.Pool.{Ipv6Addr, Duid, Entry, V6Pool, idx}
use rusty_dhcp.Dhcpv6.Pool.Invariant.{held_at, held, IsSpilled, Inv, idx-some, slot_in_range}

-- The pool with other slots, another count and other hints.
abbrev pub with_slots : V6Pool → List (Option Entry) → ℕ → HashMap Duid Ipv6Addr → V6Pool
with_slots p slots filled hints = record p { slots = slots; filled = filled; by_duid = hints }

-- The pool with another overflow and other hints.
abbrev pub with_overflow : V6Pool → HashMap Ipv6Addr Entry → HashMap Duid Ipv6Addr → V6Pool
with_overflow p overflow hints = record p { overflow = overflow; by_duid = hints }

module _ (p : V6Pool) where
  idx-with_slots :
      (slots : List (Option Entry)) (filled : ℕ) (hints : HashMap Duid Ipv6Addr) (b : Ipv6Addr)
      → idx (with_slots p slots filled hints) b ≡ idx p b
  unfolding idx
  idx-with_slots slots filled hints b = refl

  idx-with_overflow :
      (overflow : HashMap Ipv6Addr Entry) (hints : HashMap Duid Ipv6Addr) (b : Ipv6Addr)
      → idx (with_overflow p overflow hints) b ≡ idx p b
  unfolding idx
  idx-with_overflow overflow hints b = refl

ne_true : (b : Bool) → b ≡ false → b ≡ true → ⊥
ne_true b f t = cc

module _ (p : V6Pool) (v : Inv p) (addr : Ipv6Addr) (hints : HashMap Duid Ipv6Addr) where
  module _ (i : ℕ) (slot : idx p addr ≡ some i) (o : Option Entry) (filled : ℕ) where
    pub set_slot-Inv :
        filled + weight (entry_at p.slots i) ≡ p.filled + weight o
        → Inv (with_slots p (set p.slots i o) filled hints)
    unfolding idx
    set_slot-Inv e = record {
      start_fits = v.start_fits;
      ends = v.ends;
      last_in_range = v.last_in_range;
      sized = length-set p.slots i o ∙ v.sized;
      counted =
          omega (arith, v.counted, count_some-set p.slots i o (slot_in_range p v addr i slot));
      closed_empty = λ c. absurd (ground (arith, idx-some p addr i slot));
      spilled = v.spilled;
      distinct = v.distinct;
    }

    -- An address without a slot is another one.
    other : (b : Ipv6Addr) → idx p b ≡ none → (addr == b) ≡ false
    other b n = elim (Bool-cases (addr == b)) [
      | inr ne ↦ ne
      | inl same ↦
          absurd (none-ne-some i (sym n ∙ ap (idx p) (sym ((==_iff addr b).0 same)) ∙ slot))
    ]

    read_slot :
        (b : Ipv6Addr) (j : ℕ)
        → idx p b ≡ some j
        → entry_at (set p.slots i o) j ≡ (if addr == b then o else entry_at p.slots j)
    read_slot b j s =
        let here = (idx-some p addr i slot).2 in
        let there = (idx-some p b j s).2 in
        elim (Bool-cases (addr == b)) [
          | inl same ↦
              let e : i ≡ j = omega (arith, (==_iff addr b).0 same) in
              rw same (rw (← e) (entry_at-set_self p.slots i o (slot_in_range p v addr i slot)))
          | inr ne ↦ rw ne (
              entry_at-set_ne p.slots i j o
                (λ e. ne_true (addr == b) ne ((==_iff addr b).1 (omega arith))))
        ]

    pub held-set_slot :
        (b : Ipv6Addr)
        → held (with_slots p (set p.slots i o) filled hints) b ≡ (if addr == b then o else held p b)
    unfolding held_at
    held-set_slot b = rw (idx-with_slots p) (elim (Option-cases (idx p b)) [
      | inl n ↦ rw (n, other b n, held_at)
      | inr (j, s) ↦ rw (s, held_at) (read_slot b j s)
    ])

  module _ (spill : idx p addr ≡ none) where
    pub insert_overflow-Inv :
        (e : Entry) → Inv (with_overflow p (HashMap.insert addr e p.overflow) hints)
    unfolding idx
    insert_overflow-Inv e = record {
      start_fits = v.start_fits;
      ends = v.ends;
      last_in_range = v.last_in_range;
      sized = v.sized;
      counted = v.counted;
      closed_empty = v.closed_empty;
      spilled = insert-Keys (IsSpilled p) addr e p.overflow spill v.spilled;
      distinct = insert-Distinct addr e p.overflow v.distinct;
    }

    pub remove_overflow-Inv : Inv (with_overflow p (HashMap.remove addr p.overflow) hints)
    unfolding idx
    remove_overflow-Inv = record {
      start_fits = v.start_fits;
      ends = v.ends;
      last_in_range = v.last_in_range;
      sized = v.sized;
      counted = v.counted;
      closed_empty = v.closed_empty;
      spilled = remove-Keys (IsSpilled p) addr p.overflow v.spilled;
      distinct = remove-Distinct addr p.overflow v.distinct;
    }

    -- An address with a slot is another one.
    slotted : (b : Ipv6Addr) (j : ℕ) → idx p b ≡ some j → (addr == b) ≡ false
    slotted b j s = elim (Bool-cases (addr == b)) [
      | inr ne ↦ ne
      | inl same ↦ absurd (none-ne-some j (sym spill ∙ ap (idx p) ((==_iff addr b).0 same) ∙ s))
    ]

    pub held-insert_overflow :
        (e : Entry) (b : Ipv6Addr)
        → held (with_overflow p (HashMap.insert addr e p.overflow) hints) b
          ≡ (if addr == b then some e else held p b)
    unfolding held_at
    held-insert_overflow e b = rw (idx-with_overflow p) (elim (Option-cases (idx p b)) [
      | inl n ↦ rw (n, held_at) (get-insert addr b e p.overflow)
      | inr (j, s) ↦ rw (s, slotted b j s, held_at)
    ])

    pub held-remove_overflow :
        (b : Ipv6Addr)
        → held (with_overflow p (HashMap.remove addr p.overflow) hints) b
          ≡ (if addr == b then none else held p b)
    unfolding held_at
    held-remove_overflow b = rw (idx-with_overflow p) (elim (Option-cases (idx p b)) [
      | inl n ↦ rw (n, held_at) (get-remove addr b p.overflow)
      | inr (j, s) ↦ rw (s, slotted b j s, held_at)
    ])
