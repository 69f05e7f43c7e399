-- ===== src/Leases/Image.antt =====
-- src/main.rs, `MyServer`, and src/dhcpv6.rs, `V6Pool`: the lease table of the DHCPv4 service as an
-- address pool, by the forgetting of the host names.
use Prim.Native.String.{String}
use rusty_dhcp.Base.{
  ℕ, zero, suc, ◌+◌, ◌≤◌, ◌<◌, ◌^◌, ◌≡◌, refl, ap, inl, inr, List, [], ◌∷◌, map, Option, none, some,
  arith, length, set, ◌==◌, list_beq, if◌then◌else◌, Outcome, ok, err, panic, ◌>>=◌, index,
  Bool-cases, Option-cases, Outcome-cases, nat_eq, bytes_eq,
}
use rusty_dhcp.Base.HashMap
use rusty_dhcp.Base.HashMap.{HashMap, get-insert, get-remove}
use rusty_dhcp.Options.{Ipv4Addr}
use rusty_dhcp.Dhcpv6.Pool
use rusty_dhcp.Dhcpv6.Pool.{Entry, V6Pool, checked_add, u128_mod, add_addr, repointed}
use rusty_dhcp.Leases
use rusty_dhcp.Leases.{Mac, Lease, MyServer, add_ip}

unfoldable pub entry_of : Lease → Entry
entry_of e = record { duid = e.mac; expiry = e.expiry }

abbrev pub entry_of? : Option Lease → Option Entry
entry_of? none = none
entry_of? (some e) = some (entry_of e)

unfoldable pub overflow_of : HashMap Ipv4Addr Lease → HashMap ℕ Entry
overflow_of [] = []
overflow_of ((ip, e) ∷ m) = (ip, entry_of e) ∷ overflow_of m

-- The table as a pool of 128-bit addresses.
abbrev pub pool_of : MyServer → V6Pool
pool_of s = record {
  start = s.ip_start_num;
  end = checked_add s.ip_start_num s.lease_num;
  count = s.lease_num;
  last = s.last_lease;
  lease_duration = s.lease_duration;
  use_slots = s.use_slots;
  slots = map entry_of? s.slots;
  filled = s.filled;
  overflow = overflow_of s.overflow;
  by_duid = s.by_mac;
}

-- The range of the pool is one of 32-bit addresses.
abbrev pub Fits : MyServer → Type 0
Fits s = s.ip_start_num + s.lease_num ≤ 2 ^ 32

abbrev pub map_ok {ℓ κ} : {A : Type ℓ} {B : Type κ} → (A → B) → Outcome String A → Outcome String B
map_ok f (ok a) = ok (f a)
map_ok f (err e) = err e
map_ok f panic = panic

length-overflow_of : (m : HashMap Ipv4Addr Lease) → length (overflow_of m) ≡ length m
unfolding overflow_of
length-overflow_of [] = refl
length-overflow_of ((ip, e) ∷ m) = ap suc (length-overflow_of m)

pub get-overflow_of :
    (a : Ipv4Addr) (m : HashMap Ipv4Addr Lease)
    → HashMap.get a (overflow_of m) ≡ entry_of? (HashMap.get a m)
unfolding overflow_of HashMap.get
get-overflow_of a [] = refl
get-overflow_of a ((ip, e) ∷ m) = elim (Bool-cases (ip == a)) [
  | inl t ↦ rw t refl
  | inr t ↦ rw t (get-overflow_of a m)
]

pub insert-overflow_of :
    (a : Ipv4Addr) (e : Lease) (m : HashMap Ipv4Addr Lease)
    → HashMap.insert a (entry_of e) (overflow_of m) ≡ overflow_of (HashMap.insert a e m)
unfolding overflow_of HashMap.insert
insert-overflow_of a e [] = refl
insert-overflow_of a e ((ip, f) ∷ m) = elim (Bool-cases (ip == a)) [
  | inl t ↦ rw t refl
  | inr t ↦ rw t (ap (◌∷◌ (ip, entry_of f)) (insert-overflow_of a e m))
]

pub remove-overflow_of :
    (a : Ipv4Addr) (m : HashMap Ipv4Addr Lease)
    → HashMap.remove a (overflow_of m) ≡ overflow_of (HashMap.remove a m)
unfolding overflow_of HashMap.remove
remove-overflow_of a [] = refl
remove-overflow_of a ((ip, f) ∷ m) = elim (Bool-cases (ip == a)) [
  | inl t ↦ rw t (remove-overflow_of a m)
  | inr t ↦ rw t (ap (◌∷◌ (ip, entry_of f)) (remove-overflow_of a m))
]

pub length-map_entry_of : (os : List (Option Lease)) → length (map entry_of? os) ≡ length os
length-map_entry_of [] = refl
length-map_entry_of (o ∷ os) = ap suc (length-map_entry_of os)

pub index-map_entry_of :
    (os : List (Option Lease)) (i : ℕ)
    → index {E = String} (map entry_of? os) i ≡ map_ok entry_of? (index os i)
index-map_entry_of [] i = refl
index-map_entry_of (o ∷ os) zero = refl
index-map_entry_of (o ∷ os) (suc i) = index-map_entry_of os i

pub set-map_entry_of :
    (os : List (Option Lease)) (i : ℕ) (o : Option Lease)
    → set (map entry_of? os) i (entry_of? o) ≡ map entry_of? (set os i o)
set-map_entry_of [] i o = refl
set-map_entry_of (x ∷ os) zero o = refl
set-map_entry_of (x ∷ os) (suc i) o = ap (◌∷◌ (entry_of? x)) (set-map_entry_of os i o)

pub scan_overflow-image :
    (m : HashMap Ipv4Addr Lease) (mac : Mac)
    → Pool.scan_overflow (overflow_of m) mac ≡ Leases.scan_overflow m mac
unfolding overflow_of Pool.scan_overflow Leases.scan_overflow entry_of
scan_overflow-image [] mac = refl
scan_overflow-image ((ip, e) ∷ m) mac = elim (Bool-cases (list_beq e.mac mac)) [
  | inl t ↦ rw t refl
  | inr t ↦ rw t (scan_overflow-image m mac)
]

add_addr-image : (a b : ℕ) → a + b < 2 ^ 32 → add_addr a b ≡ add_ip a b
unfolding add_addr add_ip
add_addr-image a b h = ground arith

scan_slots-image :
    (start i : ℕ) (os : List (Option Lease)) (mac : Mac)
    → start + i + length os ≤ 2 ^ 32
    → Pool.scan_slots start i (map entry_of? os) mac ≡ Leases.scan_slots start i os mac
unfolding Pool.scan_slots Leases.scan_slots entry_of
scan_slots-image start i [] mac h = refl
scan_slots-image start i (none ∷ os) mac h = scan_slots-image start (i + 1) os mac (omega arith)
scan_slots-image start i (some e ∷ os) mac h = elim (Bool-cases (list_beq e.mac mac)) [
  | inl t ↦ rw (t, add_addr-image start i (omega arith)) refl
  | inr t ↦ rw t (scan_slots-image start (i + 1) os mac (omega arith))
]

-- The number of slots.
abbrev pub Sized : MyServer → Type 0
Sized s = length s.slots ≡ (if s.use_slots then s.lease_num else 0)

module _ (s : MyServer) (fits : Fits s) where
  pub idx-image : (a : Ipv4Addr) → Pool.idx (pool_of s) a ≡ Leases.idx s a
  unfolding Pool.idx Leases.idx checked_add
  idx-image a = ground arith

  pub lookup-image :
      (a : Ipv4Addr) → Pool.lookup (pool_of s) a ≡ map_ok entry_of? (Leases.lookup s a)
  unfolding Pool.lookup Leases.lookup
  lookup-image a =
      rw (Pool.lookup, Leases.lookup, idx-image a)
        (elim (Option-cases (Leases.idx s a)) [
          | inl n ↦ rw (n, Leases.lookup) (ap ok (get-overflow_of a s.overflow))
          | inr (i, e) ↦ rw (e, Leases.lookup) (index-map_entry_of s.slots i)
        ])

  is_empty-image : Pool.is_empty (pool_of s) ≡ Leases.is_empty s
  unfolding Pool.is_empty Leases.is_empty
  is_empty-image = rw (length-overflow_of s.overflow) refl

  hinted-image : (mac : Mac) → Pool.hinted (pool_of s) mac ≡ Leases.hinted s mac
  unfolding Pool.hinted Leases.hinted entry_of
  hinted-image mac = elim (Option-cases (HashMap.get mac s.by_mac)) [
    | inl n ↦ rw (n, Pool.hinted, Leases.hinted) refl
    | inr (ip, h) ↦
        rw (h, Pool.hinted, Leases.hinted)
          (rw (lookup-image ip) (elim (Outcome-cases (Leases.lookup s ip)) [
            | inl (none, e) ↦ rw e refl
            | inl (some l, e) ↦ rw e refl
            | inr (inl (why, e)) ↦ rw e refl
            | inr (inr e) ↦ rw e refl
          ]))
  ]

  -- A table whose range fits 32 bits and that has a slot per address finds the lease that the pool
  -- finds.
  module _ (sized : Sized s) where
    pub scan_used-image :
        (mac : Mac)
        → (if s.use_slots
            then Pool.scan_slots s.ip_start_num 0 (map entry_of? s.slots) mac
            else ok none)
          ≡ Leases.scan_used s mac
    unfolding Leases.scan_used
    scan_used-image mac = elim (Bool-cases s.use_slots) [
      | inl u ↦ rw u (scan_slots-image s.ip_start_num 0 s.slots mac (ground arith))
      | inr u ↦ rw u refl
    ]

    scan-image :
        (mac : Mac)
        → Pool.scan (pool_of s) mac ≡ (do
          found ← Leases.scan_used s mac
          ok (Leases.or_else found (Leases.scan_overflow s.overflow mac)))
    unfolding Pool.scan
    scan-image mac =
        rw (Pool.scan, scan_used-image mac)
          (elim (Outcome-cases (Leases.scan_used s mac)) [
            | inl (none, e) ↦ rw e (ap ok (scan_overflow-image s.overflow mac))
            | inl (some ip, e) ↦ rw e refl
            | inr (inl (why, e)) ↦ rw e refl
            | inr (inr e) ↦ rw e refl
          ])

    pub current_lease-image :
        (mac : Mac) → Pool.current_lease (pool_of s) mac ≡ Leases.current_lease s mac
    unfolding Pool.current_lease Leases.current_lease
    current_lease-image mac =
        rw (is_empty-image, hinted-image mac)
          (elim (Bool-cases (Leases.is_empty s)) [
            | inl t ↦ rw t refl
            | inr t ↦ rw t (elim (Outcome-cases (Leases.hinted s mac)) [
              | inl (none, e) ↦ rw e (scan-image mac)
              | inl (some ip, e) ↦ rw e refl
              | inr (inl (why, e)) ↦ rw e refl
              | inr (inr e) ↦ rw e refl
            ])
          ])
