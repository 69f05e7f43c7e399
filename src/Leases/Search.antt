-- ===== src/Leases/Search.antt =====
-- src/main.rs, `MyServer`: `available_at`, and the round-robin search for an address to offer.
use Prim.Native.String.{String}
use native.Mathlib.Nat.{mod-lt}
use rusty_dhcp.Base.{
  ℕ, zero, suc, ◌+◌, ◌-◌, ◌≤◌, ◌<◌, ◌^◌, ◌%◌, ◌≡◌, refl, sym, ap, ◌∙◌, inl, inr, Bool, true, false,
  not, ◌&&◌, ◌||◌, Option, none, some, arith, ◌==◌, list_beq, if◌then◌else◌, Outcome, ok,
  Bool-cases, Option-cases, ==_iff, nat_eq, bytes_eq, subst, ok-injective,
}
use rusty_dhcp.Base.RoundRobin.{Missed, Missed-suc, Missed-all}
use rusty_dhcp.Base.HashMap
use rusty_dhcp.Options.{Ipv4Addr}
use rusty_dhcp.Dhcpv6.Pool.{Entry}
use rusty_dhcp.Dhcpv6.Pool.Invariant.{lookup-held}
use rusty_dhcp.Dhcpv6.Pool.Discover.{with_last-Inv, held-with_last}
use rusty_dhcp.Leases.{
  Mac, Lease, MyServer, idx, lookup, add_ip, in_pool, stealable, lease_available, available_at,
  advance, search_free,
}
use rusty_dhcp.Leases.Image.{entry_of, entry_of?, pool_of, map_ok, lookup-image}
use rusty_dhcp.Leases.Table.{IsTable, holds}
use rusty_dhcp.Leases.Hostname.{lookup-ok, lookup-slot, lookup-spilled}

-- Whether a client may have an address with this entry: it has none, or one of the client, or one
-- that has run out; one without an expiry counts as run out.
abbrev pub vacant : Option Entry → Mac → ℕ → Bool
vacant none mac now = true
vacant (some e) mac now = list_beq e.duid mac || stealable e.expiry now

-- An address that `mac` may have.
abbrev pub is_free : MyServer → Mac → ℕ → Ipv4Addr → Bool
is_free s mac now addr = in_pool s addr && vacant (holds s addr) mac now

lease_available-vacant :
    (o : Option Lease) (mac : Mac) (now : ℕ)
    → lease_available o mac now ≡ vacant (entry_of? o) mac now
unfolding lease_available entry_of
lease_available-vacant none mac now = refl
lease_available-vacant (some e) mac now = refl

module _ (s : MyServer) (v : IsTable s) where
  lookup-holds : (a : Ipv4Addr) (e : Option Lease) → lookup s a ≡ ok e → holds s a ≡ entry_of? e
  lookup-holds a e h =
      ok-injective {E = String}
        (sym (lookup-held (pool_of s) v.inv a) ∙ lookup-image s v.fits a ∙ ap (map_ok entry_of?) h)

  in_pool-slot : (a : Ipv4Addr) (i : ℕ) → idx s a ≡ some i → in_pool s a ≡ true
  unfolding idx in_pool
  in_pool-slot a i h = ground arith

  in_pool-none : (a : Ipv4Addr) → idx s a ≡ none → s.use_slots ≡ true → in_pool s a ≡ false
  unfolding idx in_pool
  in_pool-none a n u = ground arith

  elsewhere :
      (a : Ipv4Addr) (b : Bool)
      → idx s a ≡ none
      → ◌≡◌ {A = Outcome String Bool}
          (if not s.use_slots && in_pool s a then ok b else ok false)
          (ok (in_pool s a && b))
  elsewhere a b n = elim (Bool-cases s.use_slots) [
    | inl u ↦ rw (in_pool-none a n u, u)
    | inr u ↦ elim (Bool-cases (in_pool s a)) [ inl r ↦ rw (r, u) | inr r ↦ rw (r, u) ]
  ]

  -- On a table `available_at` never panics: an address is available exactly if it is in the range
  -- and has no lease, or one of the client, or one that has run out or has no expiry.
  pub available_at_lem :
      (mac : Mac) (a : Ipv4Addr) (now : ℕ) → available_at s mac a now ≡ ok (is_free s mac now a)
  unfolding available_at
  available_at_lem mac a now =
      let (e, q) = lookup-ok s v a in
      let same : holds s a ≡ entry_of? e = lookup-holds a e q in
      elim (Option-cases (idx s a)) [
        | inr (i, k) ↦
            rw (k, available_at)
              (rw (
                sym (lookup-slot s a i k) ∙ q,
                same,
                in_pool-slot a i k,
                lease_available-vacant e mac now,
              ))
        | inl n ↦
            let found : HashMap.get a s.overflow ≡ e =
              ok-injective {E = String} (sym (lookup-spilled s a n) ∙ q) in
            rw (n, available_at)
              (rw (found, same, lease_available-vacant e mac now)
                (elsewhere a (vacant (entry_of? e) mac now) n))
      ]

-- The server with another position of the search.
abbrev pub at : MyServer → ℕ → MyServer
at s n = record s { last_lease = n }

pub at-IsTable : (s : MyServer) (n : ℕ) → IsTable s → n ≤ s.lease_num - 1 → IsTable (at s n)
at-IsTable s n v h = record { fits = v.fits; inv = with_last-Inv (pool_of s) n v.inv h }

pub holds-at : (s : MyServer) (n : ℕ) (a : Ipv4Addr) → holds (at s n) a ≡ holds s a
holds-at s n a = held-with_last (pool_of s) n a

pub is_free-at :
    (s : MyServer) (n : ℕ) (mac : Mac) (now : ℕ) (a : Ipv4Addr)
    → is_free (at s n) mac now a ≡ is_free s mac now a
unfolding in_pool
is_free-at s n mac now a = ap (λ o. in_pool s a && vacant o mac now) (holds-at s n a)

-- Which of the offsets of the range are free.
abbrev free_offset : MyServer → Mac → ℕ → ℕ → Bool
free_offset s mac now i = is_free s mac now (s.ip_start_num + i)

-- What the search over `rounds` candidates finds.
data Tries (s : MyServer) (mac : Mac) (now rounds : ℕ)
    : Outcome String (MyServer × Option Ipv4Addr) → Type 0 where
  found :
      (n : ℕ)
      → n < s.lease_num
      → free_offset s mac now n ≡ true
      → Tries s mac now rounds (ok (at s n, some (s.ip_start_num + n)))
  missed :
      (n : ℕ)
      → n ≤ s.lease_num - 1
      → Missed (free_offset s mac now) s.last_lease s.lease_num rounds
      → Tries s mac now rounds (ok (at s n, none))

add_ip_fits : (a b : ℕ) → a + b < 2 ^ 32 → add_ip a b ≡ ok (a + b)
unfolding add_ip
add_ip_fits a b h = ground arith

search_free-Tries :
    (rounds : ℕ) (s : MyServer) (mac : Mac) (now : ℕ)
    → IsTable s
    → 0 < s.lease_num
    → Tries s mac now rounds (search_free rounds s mac now)
unfolding search_free
search_free-Tries zero s mac now v pos = missed s.last_lease v.inv.last_in_range (λ r h. elim h [ ])
search_free-Tries (suc rounds) s mac now v pos = elim (Bool-cases (free_offset s mac now n)) [
  | inl free ↦ rw (cand, tried, free) (found n lt free)
  | inr taken ↦
      rw (cand, tried, taken) (retry taken (search_free-Tries rounds (advance s) mac now v' pos))
]
  where
    n : ℕ
    n = (s.last_lease + 1) % s.lease_num

    lt : n < s.lease_num
    lt = mod-lt (s.last_lease + 1) pos

    v' : IsTable (advance s)
    v' = at-IsTable s n v (omega (arith, lt))

    cand : add_ip s.ip_start_num n ≡ ok (s.ip_start_num + n)
    cand = add_ip_fits s.ip_start_num n (omega (arith, lt, v.fits))

    tried : available_at (advance s) mac (s.ip_start_num + n) now ≡ ok (free_offset s mac now n)
    tried =
        available_at_lem (advance s) v' mac (s.ip_start_num + n) now
        ∙ ap (λ b. ok b) (is_free-at s n mac now (s.ip_start_num + n))

    retry :
        {x : Outcome String (MyServer × Option Ipv4Addr)}
        → free_offset s mac now n ≡ false
        → Tries (advance s) mac now rounds x
        → Tries s mac now (suc rounds) x
    retry taken (found m h free) =
        found m h (sym (is_free-at s n mac now (s.ip_start_num + m)) ∙ free)
    retry taken (missed m h later) = missed m h (
        Missed-suc (free_offset s mac now) s.last_lease s.lease_num rounds taken
          (λ r lt'. sym (is_free-at s n mac now _) ∙ later r lt'))

-- What the search over the whole range finds, and the table that it leaves.
pub data Searches (s : MyServer) (mac : Mac) (now : ℕ)
    : Outcome String (MyServer × Option Ipv4Addr) → Type 0 where
  chosen :
      (n : ℕ)
      → n < s.lease_num
      → is_free s mac now (s.ip_start_num + n) ≡ true
      → Searches s mac now (ok (at s n, some (s.ip_start_num + n)))
  exhausted :
      (n : ℕ)
      → n ≤ s.lease_num - 1
      → ((a : Ipv4Addr) → is_free s mac now a ≡ false)
      → Searches s mac now (ok (at s n, none))

in_pool-offset :
    (s : MyServer) (a : Ipv4Addr)
    → in_pool s a ≡ true
    → (s.ip_start_num ≤ a) × (a < s.ip_start_num + s.lease_num)
unfolding in_pool
in_pool-offset s a h = ground arith

module _ (s : MyServer) (mac : Mac) (now : ℕ) where
  none_free :
      ((i : ℕ) → i < s.lease_num → free_offset s mac now i ≡ false)
      → (a : Ipv4Addr) → is_free s mac now a ≡ false
  none_free all a = elim (Bool-cases (in_pool s a)) [
    | inr out ↦ rw out
    | inl r ↦
        let (lo, hi) = in_pool-offset s a r in
        let e : s.ip_start_num + (a - s.ip_start_num) ≡ a = omega arith in
        subst (λ a. is_free s mac now a ≡ false) e (all (a - s.ip_start_num) (omega arith))
  ]

  conclude :
      {x : Outcome String (MyServer × Option Ipv4Addr)}
      → IsTable s
      → 0 < s.lease_num
      → Tries s mac now s.lease_num x
      → Searches s mac now x
  conclude v pos (found n h free) = chosen n h free
  conclude v pos (missed n h m) = exhausted n h (
      none_free (
        Missed-all (free_offset s mac now) s.last_lease s.lease_num
          (omega (arith, v.inv.last_in_range)) m))

  no_round : (rounds : ℕ) → rounds ≡ 0 → search_free rounds s mac now ≡ ok (s, none)
  unfolding search_free
  no_round zero h = refl
  no_round (suc rounds) h = absurd (omega arith)

  -- On a table the search over as many rounds as there are addresses never panics. It chooses an
  -- address that is free for the client, and none only if no address is. At most the position of
  -- the search changes.
  pub search_free-Searches : IsTable s → Searches s mac now (search_free s.lease_num s mac now)
  search_free-Searches v = elim (Bool-cases (s.lease_num == 0)) [
    | inr pos ↦
        let some_ : 0 < s.lease_num = ground arith in
        conclude v some_ (search_free-Tries s.lease_num s mac now v some_)
    | inl zero_ ↦
        let e : s.lease_num ≡ 0 = (==_iff s.lease_num 0).0 zero_ in
        rw (no_round s.lease_num e)
          (exhausted s.last_lease v.inv.last_in_range (none_free (λ i h. absurd (omega arith))))
  ]
