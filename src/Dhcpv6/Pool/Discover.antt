-- ===== src/Dhcpv6/Pool/Discover.antt =====
-- src/dhcpv6.rs, `V6Pool::discover`: the round-robin search offers a free address if there is one.
use Prim.Native.String.{String}
use native.Mathlib.Nat.{mod-lt}
use rusty_dhcp.Base.{
  ℕ, zero, suc, ◌+◌, ◌-◌, ◌%◌, ◌≤◌, ◌<◌, ◌≡◌, refl, sym, ap, subst, ◌∙◌, inl, inr, Bool, true,
  false, ◌&&◌, Option, none, some, arith, is_none, ◌==◌, Outcome, ok, Bool-cases, Option-cases,
  nat_eq, bytes_eq, lt→ltb, ==_iff, if_true, if_false,
}
use rusty_dhcp.Base.Slots.{index-entry_at}
use rusty_dhcp.Base.RoundRobin.{Missed, Missed-suc, Missed-all}
use rusty_dhcp.Dhcpv6.Pool.{
  Ipv6Addr, Duid, V6Pool, u128_mod, checked_add, idx, in_range, before_end, entry_available,
  slot_available, candidate_free, advance, search_free, current_lease, discover,
}
use rusty_dhcp.Dhcpv6.Pool.Invariant.{held_at, held, Inv, idx-slot, slot_in_range, open_end}
use rusty_dhcp.Dhcpv6.Pool.Lease.{Finds, current_lease-Finds}
use rusty_dhcp.Dhcpv6.Pool.Grant.{available_at_lem, in_range-slot}

-- An address that `duid` may have.
abbrev pub is_free : V6Pool → Duid → ℕ → Ipv6Addr → Bool
is_free p duid now addr = in_range p addr && entry_available (held p addr) duid now

abbrev pub with_last : V6Pool → ℕ → V6Pool
with_last p n = record p { last = n }

pub with_last-Inv : (p : V6Pool) (n : ℕ) → Inv p → n ≤ p.count - 1 → Inv (with_last p n)
unfolding idx
with_last-Inv p n v h = record {
  start_fits = v.start_fits;
  ends = v.ends;
  last_in_range = h;
  sized = v.sized;
  counted = v.counted;
  closed_empty = v.closed_empty;
  spilled = v.spilled;
  distinct = v.distinct;
}

pub is_free-with_last :
    (p : V6Pool) (n : ℕ) (duid : Duid) (now : ℕ) (addr : Ipv6Addr)
    → is_free (with_last p n) duid now addr ≡ is_free p duid now addr
unfolding idx held_at in_range
is_free-with_last p n duid now addr = ground arith

before_end-none : (o : Option ℕ) (pos : ℕ) → is_none o ≡ true → before_end o pos ≡ false
unfolding before_end
before_end-none none pos h = refl
before_end-none (some e) pos h = cc

module _ (p : V6Pool) (v : Inv p) (duid : Duid) (now : ℕ) where
  closed_not_free : (addr : Ipv6Addr) → is_none p.end ≡ true → is_free p duid now addr ≡ false
  unfolding in_range
  closed_not_free addr closed = rw (before_end-none p.end addr closed) (ground arith)

  closed_candidate : is_none p.end ≡ true → candidate_free p duid now ≡ ok false
  unfolding candidate_free
  closed_candidate closed = elim (Option-cases (checked_add p.start p.last)) [
    | inl n ↦ rw (n, candidate_free)
    | inr (pos, s) ↦ rw (s, candidate_free) (rw (before_end-none p.end pos closed))
  ]

  candidate_pos :
      is_none p.end ≡ false
      → p.last < p.count
      → (checked_add p.start p.last ≡ some (p.start + p.last))
        × (before_end p.end (p.start + p.last) ≡ true)
  unfolding checked_add before_end
  candidate_pos open_ lt =
      let (e, bound) = open_end p v open_ in
      (rw (lt→ltb (p.start + p.last) u128_mod (omega arith)), rw e (lt→ltb _ _ (omega arith)))

  slot_candidate :
      p.use_slots ≡ true
      → is_none p.end ≡ false
      → p.last < p.count
      → slot_available p p.last duid now ≡ ok (is_free p duid now (p.start + p.last))
  unfolding slot_available held_at
  slot_candidate u open_ lt =
      let s = idx-slot p p.last u open_ lt in
      rw (
        in_range-slot p v (p.start + p.last) p.last s,
        s,
        index-entry_at {E = String} p.slots p.last (slot_in_range p v _ p.last s),
      )

  -- The candidate is tested like any other address.
  candidate_free_lem :
      p.last < p.count → candidate_free p duid now ≡ ok (is_free p duid now (p.start + p.last))
  unfolding candidate_free
  candidate_free_lem lt = elim (Bool-cases (is_none p.end)) [
    | inl closed ↦ rw (closed_not_free (p.start + p.last) closed) (closed_candidate closed)
    | inr open_ ↦
        let (c, b) = candidate_pos open_ lt in
        elim (Bool-cases p.use_slots) [
          | inl u ↦
              rw (c, candidate_free) (rw b (if_true p.use_slots _ _ u ∙ slot_candidate u open_ lt))
          | inr u ↦
              rw (c, candidate_free)
                (rw b
                  (if_false p.use_slots _ _ u ∙ available_at_lem p v duid (p.start + p.last) now))
        ]
  ]

-- What the search over `rounds` candidates finds.
data Searches (p : V6Pool) (duid : Duid) (now rounds : ℕ)
    : Outcome String (V6Pool × Option Ipv6Addr) → Type 0 where
  found :
      (n : ℕ)
      → n < p.count
      → is_free p duid now (p.start + n) ≡ true
      → Searches p duid now rounds (ok (with_last p n, some (p.start + n)))
  missed :
      (n : ℕ)
      → n ≤ p.count - 1
      → Missed (λ i. is_free p duid now (p.start + i)) p.last p.count rounds
      → Searches p duid now rounds (ok (with_last p n, none))

search_free-Searches :
    (rounds : ℕ) (p : V6Pool) (duid : Duid) (now : ℕ)
    → Inv p
    → 0 < p.count
    → Searches p duid now rounds (search_free rounds p duid now)
unfolding search_free
search_free-Searches zero p duid now v pos = missed p.last v.last_in_range (λ r h. elim h [ ])
search_free-Searches (suc rounds) p duid now v pos =
    elim (Bool-cases (is_free p duid now (p.start + n))) [
      | inl free ↦ rw (tried, free) (found n lt free)
      | inr taken ↦
          rw (tried, taken) (retry taken (search_free-Searches rounds (advance p) duid now v' pos))
    ]
  where
    n : ℕ
    n = (p.last + 1) % p.count

    lt : n < p.count
    lt = mod-lt (p.last + 1) pos

    v' : Inv (advance p)
    v' = with_last-Inv p n v (omega (arith, lt))

    tried : candidate_free (advance p) duid now ≡ ok (is_free p duid now (p.start + n))
    tried =
        candidate_free_lem (advance p) v' duid now lt
        ∙ ap (λ b. ok b) (is_free-with_last p n duid now (p.start + n))

    same : (a : Ipv6Addr) → is_free (advance p) duid now a ≡ is_free p duid now a
    same a = is_free-with_last p n duid now a

    retry :
        {x : Outcome String (V6Pool × Option Ipv6Addr)}
        → is_free p duid now (p.start + n) ≡ false
        → Searches (advance p) duid now rounds x
        → Searches p duid now (suc rounds) x
    retry taken (found m h free) = found m h (sym (same (p.start + m)) ∙ free)
    retry taken (missed m h none_free) = missed m h (
        Missed-suc (λ i. is_free p duid now (p.start + i)) p.last p.count rounds taken
          (λ r lt'. sym (same _) ∙ none_free r lt'))

-- What `discover` answers, and the pool that it leaves.
pub data Discovers (p : V6Pool) (duid : Duid) (now : ℕ)
    : Outcome String (V6Pool × Option Ipv6Addr) → Type 0 where
  existing :
      (ip : Ipv6Addr) → Finds (held p) duid (some ip) → Discovers p duid now (ok (p, some ip))
  offered :
      (n : ℕ)
      → Finds (held p) duid none
      → n < p.count
      → is_free p duid now (p.start + n) ≡ true
      → Discovers p duid now (ok (with_last p n, some (p.start + n)))
  exhausted :
      (n : ℕ)
      → Finds (held p) duid none
      → n ≤ p.count - 1
      → ((addr : Ipv6Addr) → is_free p duid now addr ≡ false)
      → Discovers p duid now (ok (with_last p n, none))

module _ (p : V6Pool) (v : Inv p) (duid : Duid) (now : ℕ) where
  in_range_offset :
      (addr : Ipv6Addr) → in_range p addr ≡ true → (p.start ≤ addr) × (addr < p.start + p.count)
  unfolding in_range before_end
  in_range_offset addr r = elim (Bool-cases (is_none p.end)) [
    | inl closed ↦ absurd (ground arith)
    | inr o ↦ let (e, _) = open_end p v o in ground arith
  ]

  none_free :
      ((i : ℕ) → i < p.count → is_free p duid now (p.start + i) ≡ false)
      → (addr : Ipv6Addr) → is_free p duid now addr ≡ false
  none_free all addr = elim (Bool-cases (in_range p addr)) [
    | inr out ↦ rw out
    | inl r ↦
        let (lo, hi) = in_range_offset addr r in
        let e : p.start + (addr - p.start) ≡ addr = omega arith in
        subst (λ a. is_free p duid now a ≡ false) e (all (addr - p.start) (omega arith))
  ]

  -- On a pool that meets the invariant `discover` never panics. A client with a lease is offered an
  -- address that it holds; any other is offered a free address of the pool, and nothing only if no
  -- address is free for it. At most the position of the search changes, which stays in range.
  pub discover-Discovers : Discovers p duid now (discover p duid now)
  unfolding discover
  discover-Discovers = via (current_lease-Finds p v duid)
    where
      fresh :
          {x : Outcome String (V6Pool × Option Ipv6Addr)}
          → Finds (held p) duid none
          → 0 < p.count
          → Searches p duid now p.count x
          → Discovers p duid now x
      fresh f pos (found n h free) = offered n f h free
      fresh f pos (missed n h m) = exhausted n f h (
          none_free (
            Missed-all (λ i. is_free p duid now (p.start + i)) p.last p.count
              (omega (arith, v.last_in_range)) m))

      via :
          (o : Option Ipv6Addr) × (current_lease p duid ≡ ok o) × Finds (held p) duid o
          → Discovers p duid now (discover p duid now)
      via (some ip, c, f) = rw c (existing ip f)
      via (none, c, f) = elim (Bool-cases (p.count == 0)) [
        | inl zero_ ↦
            rw (c, zero_)
              (exhausted p.last f v.last_in_range
                (none_free (λ i h. absurd (omega (arith, (==_iff p.count 0).0 zero_)))))
        | inr pos ↦
            rw (c, pos)
              (fresh f (ground arith) (search_free-Searches p.count p duid now v (ground arith)))
      ]

pub held-with_last :
    (p : V6Pool) (n : ℕ) (addr : Ipv6Addr) → held (with_last p n) addr ≡ held p addr
unfolding idx held_at
held-with_last p n addr = ground arith
