-- ===== src/Dhcpv6/Pool/Lease.antt =====
-- src/dhcpv6.rs, `V6Pool::current_lease`: the hint and the scans find a lease exactly if there is
-- one.
use Prim.Native.String.{String}
use mathlib.Core.Option.{none-ne-some, some-injective}
use rusty_dhcp.Base.{
  ℕ, zero, suc, ◌+◌, ◌<◌, ◌≡◌, refl, sym, ap, subst, ◌∙◌, ◌⊎◌, inl, inr, true, false, List, [], ◌∷◌,
  Option, none, some, arith, length, ◌==◌, list_beq, if◌then◌else◌, is_none, Outcome, ok,
  Bool-cases, Option-cases, nat_eq, bytes_eq, lt→ltb, ==_iff,
}
use rusty_dhcp.Base.Slots.{entry_at, entry_at-lt, entry_at-empty}
use rusty_dhcp.Base.HashMap
use rusty_dhcp.Base.HashMap.{HashMap, Keys, Distinct}
use rusty_dhcp.Dhcpv6.Pool.{
  Ipv6Addr, Duid, Entry, V6Pool, u128_mod, idx, add_addr, is_empty, scan_slots, scan_overflow, scan,
  hinted, current_lease,
}
use rusty_dhcp.Dhcpv6.Pool.Invariant.{held_at, held, IsSpilled, Inv, occupied, lookup-held}

-- What a search for the entries of `duid` among `read` gives: an address of such an entry, or
-- nothing if there is none.
abbrev pub Finds : (Ipv6Addr → Option Entry) → Duid → Option Ipv6Addr → Type 0
Finds read duid none = (ip : Ipv6Addr) (e : Entry) → read ip ≡ some e → list_beq e.duid duid ≡ false
Finds read duid (some ip) = (e : Entry) × (read ip ≡ some e) × (list_beq e.duid duid ≡ true)

add_addr_fits : (a b : ℕ) → a + b < u128_mod → add_addr a b ≡ ok (a + b)
unfolding add_addr
add_addr_fits a b h = rw (lt→ltb _ _ h)

-- The outcome `r` of a scan of the slots from `i` on.
abbrev pub SlotScan : ℕ → ℕ → List (Option Entry) → Duid → Outcome String (Option Ipv6Addr) → Type 0
SlotScan start i slots duid r =
    ((r ≡ ok none)
      × ((j : ℕ) (e : Entry) → entry_at slots j ≡ some e → list_beq e.duid duid ≡ false))
    ⊎ ((j : ℕ) × (e : Entry) × (r ≡ ok (some (start + (i + j))))
        × (entry_at slots j ≡ some e)
        × (list_beq e.duid duid ≡ true))

miss_cons :
    (o : Option Entry) (slots : List (Option Entry)) (duid : Duid)
    → ((e : Entry) → o ≡ some e → list_beq e.duid duid ≡ false)
    → ((j : ℕ) (e : Entry) → entry_at slots j ≡ some e → list_beq e.duid duid ≡ false)
    → (j : ℕ) (e : Entry) → entry_at (o ∷ slots) j ≡ some e
    → list_beq e.duid duid ≡ false
miss_cons o slots duid here there zero e h = here e h
miss_cons o slots duid here there (suc j) e h = there j e h

SlotScan-cons :
    (start i : ℕ) (o : Option Entry) (slots : List (Option Entry)) (duid : Duid)
    {r : Outcome String (Option Ipv6Addr)}
    → ((e : Entry) → o ≡ some e → list_beq e.duid duid ≡ false)
    → SlotScan start (i + 1) slots duid r
    → SlotScan start i (o ∷ slots) duid r
SlotScan-cons start i o slots duid here (inl (q, miss)) = inl (q, miss_cons o slots duid here miss)
SlotScan-cons start i o slots duid here (inr (j, e, q, h, t)) =
    let same : start + (i + 1 + j) ≡ start + (i + suc j) = omega arith in
    inr (suc j, e, q ∙ ap (λ k. ok (some k)) same, h, t)

-- Each slot with an entry must have an address.
pub scan_slots-SlotScan :
    (start i : ℕ) (slots : List (Option Entry)) (duid : Duid)
    → ((j : ℕ) (e : Entry) → entry_at slots j ≡ some e → start + (i + j) < u128_mod)
    → SlotScan start i slots duid (scan_slots start i slots duid)
unfolding scan_slots
scan_slots-SlotScan start i [] duid fits = inl (refl, λ j e h. cc)
scan_slots-SlotScan start i (none ∷ slots) duid fits =
    SlotScan-cons start i none slots duid (λ e h. cc)
      (scan_slots-SlotScan start (i + 1) slots duid (λ j e h. omega (arith, fits (suc j) e h)))
scan_slots-SlotScan start i (some e ∷ slots) duid fits = elim (Bool-cases (list_beq e.duid duid)) [
  | inl hit ↦
      let at_i : start + i ≡ start + (i + 0) = omega arith in
      inr (
        0,
        e,
        rw (hit, add_addr_fits start i (omega (arith, fits 0 e refl))) (ap (λ k. ok (some k)) at_i),
        refl,
        hit,
      )
  | inr miss ↦ rw miss (
      SlotScan-cons start i (some e) slots duid (λ e' h. cc)
        (scan_slots-SlotScan start (i + 1) slots duid (λ j e h. omega (arith, fits (suc j) e h))))
]

Finds-cons :
    (ip : Ipv6Addr) (e : Entry) (m : HashMap Ipv6Addr Entry) (duid : Duid) (o : Option Ipv6Addr)
    → is_none (HashMap.get ip m) ≡ true
    → list_beq e.duid duid ≡ false
    → Finds (λ a. HashMap.get a m) duid o
    → Finds (λ a. HashMap.get a ((ip, e) ∷ m)) duid o
unfolding HashMap.get
Finds-cons ip e m duid none fresh miss f = λ a e' h. read a e' h
  where
    read :
        (a : Ipv6Addr) (e' : Entry)
        → (if ip == a then some e else HashMap.get a m) ≡ some e'
        → list_beq e'.duid duid ≡ false
    read a e' h = ground (arith, f a e')
Finds-cons ip e m duid (some a) fresh miss (e', h, t) = (e', ground arith, t)

scan_overflow-Finds :
    (m : HashMap Ipv6Addr Entry) (duid : Duid)
    → Distinct m
    → Finds (λ a. HashMap.get a m) duid (scan_overflow m duid)
unfolding scan_overflow
scan_overflow-Finds [] duid d = unfold HashMap.get in λ a e h. cc
scan_overflow-Finds ((ip, e) ∷ m) duid d = elim (Bool-cases (list_beq e.duid duid)) [
  | inl hit ↦ rw hit (e, unfold HashMap.get in ground arith, hit)
  | inr miss ↦
      rw miss
        (Finds-cons ip e m duid (scan_overflow m duid) d.0 miss (scan_overflow-Finds m duid d.1))
]

-- A key of the overflow has no slot.
spilled_key :
    (p : V6Pool) (m : HashMap Ipv6Addr Entry) (a : Ipv6Addr) (e : Entry)
    → Keys (IsSpilled p) m
    → HashMap.get a m ≡ some e
    → idx p a ≡ none
unfolding HashMap.get
spilled_key p [] a e k h = cc
spilled_key p ((ip, e') ∷ m) a e k h = elim (Bool-cases (ip == a)) [
  | inl same ↦ rw (← (==_iff ip a).0 same) k.0
  | inr other ↦ spilled_key p m a e k.1 (rw other at h)
]

get-empty : (m : HashMap Ipv6Addr Entry) (a : Ipv6Addr) → length m ≡ 0 → HashMap.get a m ≡ none
unfolding HashMap.get
get-empty [] a h = refl
get-empty (x ∷ m) a h = absurd (omega arith)

module _ (p : V6Pool) (v : Inv p) (duid : Duid) where
  overflow-Finds : Finds (λ a. HashMap.get a p.overflow) duid (scan_overflow p.overflow duid)
  overflow-Finds = scan_overflow-Finds p.overflow duid v.distinct

  -- If no slot has an entry of `duid`, the overflow decides.
  held-Finds :
      (o : Option Ipv6Addr)
      → ((j : ℕ) (e : Entry) → entry_at p.slots j ≡ some e → list_beq e.duid duid ≡ false)
      → Finds (λ a. HashMap.get a p.overflow) duid o
      → Finds (held p) duid o
  unfolding held_at
  held-Finds none miss f = λ a e h. elim (Option-cases (idx p a)) [
    | inl n ↦ f a e (rw n at h)
    | inr (j, s) ↦ miss j e (rw s at h)
  ]
  held-Finds (some a) miss (e, h, t) = (e, rw (spilled_key p p.overflow a e v.spilled h) h, t)

  pub slots_fit : (j : ℕ) (e : Entry) → entry_at p.slots j ≡ some e → p.start + (0 + j) < u128_mod
  slots_fit j e h = omega (arith, (occupied p v j e h).1)

  -- Without slots no entry is in one.
  no_slots :
      p.use_slots ≡ false
      → (j : ℕ) (e : Entry) → entry_at p.slots j ≡ some e
      → list_beq e.duid duid ≡ false
  no_slots u j e h = absurd (ground (arith, v.sized, entry_at-lt p.slots j e h))

  scan-Finds : (o : Option Ipv6Addr) × (scan p duid ≡ ok o) × Finds (held p) duid o
  unfolding scan held_at
  scan-Finds = elim (Bool-cases p.use_slots) [
    | inr u ↦ (
      scan_overflow p.overflow duid,
      rw u,
      held-Finds (scan_overflow p.overflow duid) (no_slots u) overflow-Finds,
    )
    | inl u ↦ elim (scan_slots-SlotScan p.start 0 p.slots duid slots_fit) [
      | inl (q, miss) ↦ (
        scan_overflow p.overflow duid,
        rw (u, q),
        held-Finds (scan_overflow p.overflow duid) miss overflow-Finds,
      )
      | inr (j, e, q, h, t) ↦
          let z : 0 + j ≡ j = omega arith in
          (some (p.start + (0 + j)), rw (u, q), (e, rw (z, (occupied p v j e h).0) h, t))
    ]
  ]

  hinted-Finds :
      (o : Option Ipv6Addr) × (hinted p duid ≡ ok o)
      × ((ip : Ipv6Addr) → o ≡ some ip → Finds (held p) duid (some ip))
  unfolding hinted
  hinted-Finds = elim (Option-cases (HashMap.get duid p.by_duid)) [
    | inl n ↦ (none, rw (n, hinted), λ ip h. cc)
    | inr (ip, s) ↦ elim (Option-cases (held p ip)) [
      | inl n ↦ (none, rw (s, hinted) (rw (lookup-held p v ip, n)), λ ip h. cc)
      | inr (e, h) ↦ elim (Bool-cases (list_beq e.duid duid)) [
        | inr miss ↦ (none, rw (s, hinted) (rw (lookup-held p v ip, h) (rw miss)), λ ip h. cc)
        | inl hit ↦ (
          some ip,
          rw (s, hinted) (rw (lookup-held p v ip, h) (rw hit)),
          λ a q. subst (λ x. Finds (held p) duid (some x)) (some-injective ip a q) (e, h, hit),
        )
      ]
    ]
  ]

  held-is_empty : is_empty p ≡ true → Finds (held p) duid none
  unfolding is_empty held_at
  held-is_empty h = λ a e r. elim (Option-cases (idx p a)) [
    | inl n ↦ absurd (none-ne-some e (sym (get-empty p.overflow a (ground arith)) ∙ (rw n at r)))
    | inr (i, s) ↦
        absurd (
          none-ne-some e (sym (entry_at-empty p.slots i (ground (arith, v.counted))) ∙ (rw s at r)))
  ]

  -- On a pool that meets the invariant `current_lease` never panics. It returns an address that
  -- `duid` holds, or nothing if `duid` holds none, whatever the hints say.
  pub current_lease-Finds :
      (o : Option Ipv6Addr) × (current_lease p duid ≡ ok o) × Finds (held p) duid o
  unfolding current_lease
  current_lease-Finds = elim (Bool-cases (is_empty p)) [
    | inl empty ↦ (none, rw empty, held-is_empty empty)
    | inr more ↦ via more hinted-Finds
  ]
    where
      via :
          is_empty p ≡ false
          → (o : Option Ipv6Addr) × (hinted p duid ≡ ok o)
            × ((ip : Ipv6Addr) → o ≡ some ip → Finds (held p) duid (some ip))
          → (o : Option Ipv6Addr) × (current_lease p duid ≡ ok o) × Finds (held p) duid o
      via more (none, q, f) = let (o, r, s) = scan-Finds in (o, rw (more, q) r, s)
      via more (some ip, q, f) = (some ip, rw (more, q), f ip refl)
