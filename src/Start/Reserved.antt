-- ===== src/Start/Reserved.antt =====
-- src/main.rs, `main`: the table with which the DHCPv4 service starts.
use mathlib.Core.Option.{none-ne-some, some-injective}
use rusty_dhcp.Base.{
  ℕ, zero, suc, ◌≡◌, ◌≢◌, ◌⊎◌, refl, sym, ap, ◌∙◌, inl, inr, Bool, true, false, not, List, [], ◌∷◌,
  map, replicate, Option, none, some, arith, length, leb, ◌==◌, if◌then◌else◌, ok, Bool-cases,
  Option-cases, All, if_true, if_false, subst, ◌&&◌,
}
use rusty_dhcp.Base.Slots.{count_some, entry_at-empty}
use rusty_dhcp.Base.HashMap
use rusty_dhcp.Options.{Ipv4Addr, Str, code}
use rusty_dhcp.Config.{Config}
use rusty_dhcp.Config.Valid.{IsValid}
use rusty_dhcp.Dhcpv6.Pool
use rusty_dhcp.Dhcpv6.Pool.{Ipv6Addr, Duid, Entry, V6Pool}
use rusty_dhcp.Dhcpv6.Pool.Invariant.{held, held_at}
use rusty_dhcp.Dhcpv6.Pool.Update.{entry, Updates}
use rusty_dhcp.Leases.{Mac, MyServer, insert_lease, idx, in_pool, available_at}
use rusty_dhcp.Leases.Image.{entry_of?, overflow_of, pool_of}
use rusty_dhcp.Leases.Table.{IsTable, holds, insert_lease-Changes}
use rusty_dhcp.Leases.Search.{is_free, available_at_lem}
use rusty_dhcp.Server.Reply.{IsAdditional}
use rusty_dhcp.Service.{ntp_option, build_offer_options}
use rusty_dhcp.Start
use rusty_dhcp.Base.Split.{split}
use rusty_dhcp.Start.{initial, reserve}

all_same {ℓ} : {A : Type ℓ} (b c : Bool) (x : A) → (if b then (if c then x else x) else x) ≡ x
all_same true true x = refl
all_same true false x = refl
all_same false c x = refl

-- A reserved address is inserted as the server would insert a lease with neither expiry nor name.
reserve-insert_lease :
    (s : MyServer) (ip : Ipv4Addr) (mac : Mac) → reserve s ip mac ≡ insert_lease s ip mac none none
unfolding reserve insert_lease
reserve-insert_lease s ip mac = elim (Option-cases (idx s ip)) [
  | inr (i, e) ↦ rw (e, reserve, insert_lease) refl
  | inl n ↦ rw (n, reserve, insert_lease) (all_same (not s.use_slots) (not (in_pool s ip)) _)
]

-- No lease of the table has an expiry.
abbrev pub HasNoExpiry : (ℕ → Option Entry) → Type 0
HasNoExpiry read = (a : ℕ) (e : Entry) → read a ≡ some e → e.expiry ≡ none

pub updated-HasNoExpiry :
    (p q : V6Pool) (addr : ℕ) (duid : Duid)
    → Updates p q addr (some (entry duid none))
    → HasNoExpiry (held p)
    → HasNoExpiry (held q)
updated-HasNoExpiry p q addr duid u h a e r = elim (Bool-cases (addr == a)) [
  | inr away ↦ h a e (sym (if_false _ _ _ away) ∙ sym (u.holds a) ∙ r)
  | inl here ↦
      let same : some (entry duid none) ≡ some e = sym (if_true _ _ _ here) ∙ sym (u.holds a) ∙ r in
      ap (λ x. x.expiry) (sym (some-injective (entry duid none) e same))
]

initial_slots :
    (u : Bool) (n : ℕ)
    → (length (map entry_of? (if u then replicate n none else [])) ≡ (if u then n else 0))
      × (count_some (map entry_of? (if u then replicate n none else [])) ≡ 0)
initial_slots true zero = (refl, refl)
initial_slots true (suc n) = let (a, b) = initial_slots true n in (ap suc a, omega (arith, b))
initial_slots false n = (refl, refl)

-- A valid configuration gives a table that holds nothing.
pub initial-IsTable : (c : Config) → IsValid c → IsTable (initial c)
unfolding initial overflow_of
initial-IsTable c v =
    let (sized_, counted_) = initial_slots (leb c.lease_num 100_000) c.lease_num in
    record {
      fits = v.v4_range;
      inv = record {
        start_fits = omega (arith, v.v4_range);
        ends = refl;
        last_in_range = omega arith;
        sized = sized_;
        counted = sym counted_;
        closed_empty = λ e. refl;
        spilled = tt;
        distinct = tt;
      };
    }

holds-initial : (c : Config) (a : ℕ) → holds (initial c) a ≡ none
unfolding initial overflow_of held_at HashMap.get
holds-initial c a = elim (Option-cases (Pool.idx (pool_of (initial c)) a)) [
  | inl n ↦ rw (n, held_at) refl
  | inr (i, s) ↦
      let (sized_, counted_) = initial_slots (leb c.lease_num 100_000) c.lease_num in
      rw (s, held_at) (entry_at-empty _ i counted_)
]

ntp_option-IsAdditional : (ips : List Ipv4Addr) (b : Bool) → All IsAdditional (ntp_option ips b)
unfolding ntp_option code
ntp_option-IsAdditional ips b = elim (Bool-cases (b && not (leb (length ips) 0))) [
  | inl t ↦ rw t ((refl, refl), tt)
  | inr f ↦ rw f tt
]

-- The options of an offer carry neither option that `reply` adds.
pub initial_offer : (c : Config) → All IsAdditional (initial c).cached_offer
unfolding initial build_offer_options code
initial_offer c = (
  (refl, refl),
  ((refl, refl), ((refl, refl), ((refl, refl), ntp_option-IsAdditional c.ntp_ips c.enable_ntp))),
)

module _ (trim : Str → Str) (parse_ipv4 : Str → Option Ipv4Addr)
    (parse_ipv6 : Str → Option Ipv6Addr) (from_hex : Str → Option ℕ) where
  -- A line that names a hardware address has an address that can be read.
  abbrev pub IsReadableLine : List Str → Type 0
  IsReadableLine (mac_text ∷ ip_text ∷ []) =
      length (Start.mac_bytes trim parse_ipv4 parse_ipv6 from_hex (split 58 mac_text)) == 6 ≡ true
      → parse_ipv4 (trim ip_text) ≢ none
  IsReadableLine parts = Unit {0}

  -- A table of reservations, whose offers carry neither option that `reply` adds.
  pub record IsReserved (s : MyServer) : Type 0 where
    pub table : IsTable s
    pub no_expiry : HasNoExpiry (holds s)
    pub additional : All IsAdditional s.cached_offer

  reserve-IsReserved :
      (s : MyServer) (ip : Ipv4Addr) (mac : Mac)
      → IsReserved s
      → (t : MyServer) × (reserve s ip mac ≡ ok t) × IsReserved t
  reserve-IsReserved s ip mac v =
      let (t, e, c) = insert_lease-Changes s v.table ip mac none none in
      (
        t,
        reserve-insert_lease s ip mac ∙ e,
        record {
          table = c.table;
          no_expiry = updated-HasNoExpiry (pool_of s) (pool_of t) ip mac c.updates v.no_expiry;
          additional = subst (All IsAdditional) (ap (λ x. x.2) (sym c.same_settings)) v.additional;
        },
      )

  load_parts-IsReserved :
      (s : MyServer) (parts : List Str)
      → IsReserved s
      → IsReadableLine parts
      → (t : MyServer) × (Start.load_parts trim parse_ipv4 parse_ipv6 from_hex s parts ≡ ok t)
        × IsReserved t
  unfolding Start.load_parts
  load_parts-IsReserved s [] v h = (s, refl, v)
  load_parts-IsReserved s (a ∷ []) v h = (s, refl, v)
  load_parts-IsReserved s (a ∷ b ∷ c ∷ parts) v h = (s, refl, v)
  load_parts-IsReserved s (mac_text ∷ ip_text ∷ []) v h =
      let mac = Start.mac_bytes trim parse_ipv4 parse_ipv6 from_hex (split 58 mac_text) in
      elim (Bool-cases (length mac == 6)) [
        | inr other ↦ (s, rw other refl, v)
        | inl six ↦ elim (Option-cases (parse_ipv4 (trim ip_text))) [
          | inl n ↦ absurd (h six n)
          | inr (ip, e) ↦ let (t, q, w) = reserve-IsReserved s ip mac v in (t, rw six (rw e q), w)
        ]
      ]

  load_leases-IsReserved :
      (s : MyServer) (lines : List Str)
      → IsReserved s
      → All (λ line. IsReadableLine (split 44 line)) lines
      → (t : MyServer) × (Start.load_leases trim parse_ipv4 parse_ipv6 from_hex s lines ≡ ok t)
        × IsReserved t
  unfolding Start.load_leases
  load_leases-IsReserved s [] v h = (s, refl, v)
  load_leases-IsReserved s (line ∷ lines) v h =
      let (t, e, w) = load_parts-IsReserved s (split 44 line) v h.0 in
      let (t', e', w') = load_leases-IsReserved t lines w h.1 in (t', rw e e', w')

  -- A lease without an expiry protects nothing.
  reserved-available :
      (s : MyServer)
      → IsReserved s
      → (mac : Mac) (a : Ipv4Addr) (now : ℕ) → available_at s mac a now ≡ ok (in_pool s a)
  reserved-available s v mac a now =
      available_at_lem s v.table mac a now ∙ ap ok (free (Option-cases (holds s a)))
    where
      free :
          (holds s a ≡ none) ⊎ ((e : Entry) × (holds s a ≡ some e))
          → is_free s mac now a ≡ in_pool s a
      free (inl n) = rw n (ground arith)
      free (inr (e, h)) = rw (h, v.no_expiry a e h) (ground arith)

  -- If the configuration is valid, and each line of the leases file that names a hardware address
  -- has an address that can be read, then `main` does not panic over it: it starts with a table
  -- that meets the invariant and whose leases have no expiry. `available_at` counts such a lease as
  -- run out: in this table each address of the range, reserved or not, is available to every client.
  pub start-IsReserved :
      (c : Config) (lines : List Str)
      → IsValid c
      → All (λ line. IsReadableLine (split 44 line)) lines
      → (s : MyServer) × (Start.start trim parse_ipv4 parse_ipv6 from_hex c lines ≡ ok s)
        × IsReserved s
        × ((mac : Mac) (a : Ipv4Addr) (now : ℕ) → available_at s mac a now ≡ ok (in_pool s a))
  unfolding Start.start
  start-IsReserved c lines v h =
      let (s, e, r) =
        load_leases-IsReserved (initial c) lines
          (record {
            table = initial-IsTable c v;
            no_expiry = λ a e r. absurd (none-ne-some e (sym (holds-initial c a) ∙ r));
            additional = initial_offer c;
          })
          h in
      (s, e, r, reserved-available s r)
