-- ===== src/Leases.antt =====
-- src/main.rs, `MyServer`: the lease table of the DHCPv4 service. `Instant` is a number; `now +
-- lease_duration` does not overflow. An address is a 32-bit number, and an overflow of its
-- arithmetic, which a checked build refuses, is `panic`.
pub mod Image
pub mod Writes
pub mod Table
pub mod Hostname
pub mod Search
pub mod Settings
mod Tests
use Prim.Native.String.{String}
use rusty_dhcp.Base.{
  ℕ, zero, suc, ◌+◌, ◌-◌, ◌%◌, ◌^◌, Bool, true, false, not, ◌&&◌, ◌||◌, List, [], ◌∷◌, Option, none,
  some, length, set, ◌==◌, ltb, leb, list_beq, if◌then◌else◌, is_none, Outcome, ok, err, panic,
  ◌>>=◌, index, nat_eq, bytes_eq,
}
use rusty_dhcp.Base.HashMap
use rusty_dhcp.Base.HashMap.{HashMap}
use rusty_dhcp.Options.{Ipv4Addr, Str, DhcpOption}

-- `[u8; 6]`.
abbrev pub Mac : Type 0
Mac = List ℕ

pub record Lease : Type 0 where
  pub mac : Mac
  pub expiry : Option ℕ
  pub hostname : Option Str

pub record MyServer : Type 0 where
  pub use_slots : Bool
  pub slots : List (Option Lease)
  pub filled : ℕ
  pub overflow : HashMap Ipv4Addr Lease
  pub by_mac : HashMap Mac Ipv4Addr
  pub last_lease : ℕ
  pub lease_duration : ℕ
  pub ip_start_num : ℕ
  pub lease_num : ℕ
  pub enable_rapid_commit : Bool
  pub broadcasts : List Ipv4Addr
  pub cached_offer : List DhcpOption

-- `a + b` on `u32`.
unfoldable pub add_ip : ℕ → ℕ → Outcome String Ipv4Addr
add_ip a b = if ltb (a + b) (2 ^ 32) then ok (a + b) else panic

-- Whether `addr - start`, if there is such a number, is below the size of the pool.
unfoldable pub in_pool : MyServer → Ipv4Addr → Bool
in_pool s addr = if ltb addr s.ip_start_num then false else ltb (addr - s.ip_start_num) s.lease_num

unfoldable pub idx : MyServer → Ipv4Addr → Option ℕ
idx s addr =
    if not s.use_slots
    then none
    else if ltb addr s.ip_start_num
    then none
    else if ltb (addr - s.ip_start_num) s.lease_num
    then some (addr - s.ip_start_num)
    else none

unfoldable pub lookup : MyServer → Ipv4Addr → Outcome String (Option Lease)
lookup s addr = elim (idx s addr) [
  | some i ↦ index s.slots i
  | none ↦ ok (HashMap.get addr s.overflow)
]

unfoldable pub is_empty : MyServer → Bool
is_empty s = s.filled == 0 && leb (length s.overflow) 0

-- `expiry.map_or(true, |exp| now > exp)`: a lease without an expiry counts as run out.
abbrev pub stealable : Option ℕ → ℕ → Bool
stealable none now = true
stealable (some exp) now = ltb exp now

-- The test that a slot and an overflow entry share.
unfoldable pub lease_available : Option Lease → Mac → ℕ → Bool
lease_available none chaddr now = true
lease_available (some e) chaddr now = list_beq e.mac chaddr || stealable e.expiry now

unfoldable pub available_at : MyServer → Mac → Ipv4Addr → ℕ → Outcome String Bool
available_at s chaddr addr now = elim (idx s addr) [
  | some i ↦ do e ← index s.slots i; ok (lease_available e chaddr now)
  | none ↦
      if not s.use_slots && in_pool s addr
      then ok (lease_available (HashMap.get addr s.overflow) chaddr now)
      else ok false
]

-- `for (i, s) in self.slots.iter().enumerate()`: the address of the first slot of `chaddr`.
unfoldable pub scan_slots : ℕ → ℕ → List (Option Lease) → Mac → Outcome String (Option Ipv4Addr)
scan_slots start i [] chaddr = ok none
scan_slots start i (none ∷ slots) chaddr = scan_slots start (i + 1) slots chaddr
scan_slots start i (some e ∷ slots) chaddr =
    let rest = scan_slots start (i + 1) slots chaddr in
    if list_beq e.mac chaddr then (do ip ← add_ip start i; ok (some ip)) else rest

unfoldable pub scan_overflow : HashMap Ipv4Addr Lease → Mac → Option Ipv4Addr
scan_overflow [] chaddr = none
scan_overflow ((ip, e) ∷ m) chaddr =
    if list_beq e.mac chaddr then some ip else scan_overflow m chaddr

-- The search of the slots, if the server uses them.
unfoldable pub scan_used : MyServer → Mac → Outcome String (Option Ipv4Addr)
scan_used s chaddr = if s.use_slots then scan_slots s.ip_start_num 0 s.slots chaddr else ok none

-- The first address that a search found, or else the second.
abbrev or_else : Option Ipv4Addr → Option Ipv4Addr → Option Ipv4Addr
or_else (some ip) other = some ip
or_else none other = other

-- The address that the hint names, if `chaddr` holds it.
unfoldable pub hinted : MyServer → Mac → Outcome String (Option Ipv4Addr)
hinted s chaddr = elim (HashMap.get chaddr s.by_mac) [
  | none ↦ ok none
  | some ip ↦ do
    e ← lookup s ip
    ok (elim e [ none ↦ none | some e ↦ if list_beq e.mac chaddr then some ip else none ])
]

unfoldable pub current_lease : MyServer → Mac → Outcome String (Option Ipv4Addr)
current_lease s chaddr = if is_empty s then ok none else do
  hint ← hinted s chaddr
  elim hint [
    | some ip ↦ ok (some ip)
    | none ↦ do found ← scan_used s chaddr; ok (or_else found (scan_overflow s.overflow chaddr))
  ]

-- The hint of the address's former holder goes, if it points here.
unfoldable pub drop_hint :
    Option Lease → Mac → Ipv4Addr → HashMap Mac Ipv4Addr → HashMap Mac Ipv4Addr
drop_hint none mac ip hints = hints
drop_hint (some old) mac ip hints =
    if not (list_beq old.mac mac)
    then elim (HashMap.get old.mac hints) [
      | some a ↦ if a == ip then HashMap.remove old.mac hints else hints
      | none ↦ hints
    ]
    else hints

unfoldable pub insert_lease :
    MyServer → Ipv4Addr → Mac → Option ℕ → Option Str → Outcome String MyServer
insert_lease s ip mac expiry hostname =
    let e : Lease = record { mac = mac; expiry = expiry; hostname = hostname } in
    elim (idx s ip) [
      | some i ↦ do
        old ← index s.slots i
        ok (record s {
          slots = set s.slots i (some e);
          filled = if is_none old then s.filled + 1 else s.filled;
          by_mac = HashMap.insert mac ip (drop_hint old mac ip s.by_mac);
        })
      | none ↦ ok (record s {
        overflow = HashMap.insert ip e s.overflow;
        by_mac = HashMap.insert mac ip (drop_hint (HashMap.get ip s.overflow) mac ip s.by_mac);
      })
    ]

-- `n - 1` on an unsigned `n`, which a checked build refuses at 0.
unfoldable pub decrement : ℕ → Outcome String ℕ
decrement zero = panic
decrement (suc n) = ok n

-- `self.slots[i] = None; self.filled -= 1` or `self.overflow.remove(&ip)`.
unfoldable pub vacate : MyServer → Ipv4Addr → Outcome String MyServer
vacate s ip = elim (idx s ip) [
  | some i ↦ do
    old ← index s.slots i
    filled' ← decrement s.filled
    ok (record s { slots = set s.slots i none; filled = filled' })
  | none ↦ ok (record s { overflow = HashMap.remove ip s.overflow })
]

-- `hints.insert(chaddr, ip)`, if an address was found.
abbrev add_hint : Option Ipv4Addr → Mac → HashMap Mac Ipv4Addr → HashMap Mac Ipv4Addr
add_hint none chaddr hints = hints
add_hint (some ip) chaddr hints = HashMap.insert chaddr ip hints

-- The hint goes; if another slot of the client is found the hint is repaired with that, or else
-- with an entry of the overflow.
unfoldable pub repair : MyServer → Mac → Outcome String MyServer
repair s chaddr = do
  found ← scan_used s chaddr
  ok (record s {
    by_mac =
        add_hint (or_else found (scan_overflow s.overflow chaddr)) chaddr
          (HashMap.remove chaddr s.by_mac);
  })

abbrev pub points_to : Option Ipv4Addr → Ipv4Addr → Bool
points_to none ip = false
points_to (some a) ip = a == ip

unfoldable pub remove_lease : MyServer → Mac → Outcome String MyServer
remove_lease s chaddr = do
  current ← current_lease s chaddr
  elim current [
    | none ↦ ok s
    | some ip ↦ do
      s' ← vacate s ip
      if points_to (HashMap.get chaddr s'.by_mac) ip then repair s' chaddr else ok s'
  ]

-- `*slot = Some(name)`.
abbrev renamed : Lease → Str → Lease
renamed e name = record e { hostname = some name }

-- A write to the entry of an address, which is in its slot or in the overflow.
abbrev pub write_at : MyServer → Ipv4Addr → Lease → Option ℕ → MyServer
write_at s ip e (some i) = record s { slots = set s.slots i (some e) }
write_at s ip e none = record s { overflow = HashMap.insert ip e s.overflow }

-- The entry is borrowed first; it changes if there is one and the client announces a name.
unfoldable pub remember_hostname : MyServer → Ipv4Addr → Option Str → Outcome String MyServer
remember_hostname s ip hostname = do
  entry ← lookup s ip
  elim hostname [
    | none ↦ ok s
    | some name ↦ elim entry [
      | none ↦ ok s
      | some e ↦ ok (write_at s ip (renamed e name) (idx s ip))
    ]
  ]

abbrev pub advance : MyServer → MyServer
advance s = record s { last_lease = (s.last_lease + 1) % s.lease_num }

-- The round-robin loop, `rounds` times: the first candidate that is available for `chaddr`. Since
-- `last_lease` is below `lease_num`, `last_lease + 1` fits 32 bits.
unfoldable pub search_free : ℕ → MyServer → Mac → ℕ → Outcome String (MyServer × Option Ipv4Addr)
search_free zero s chaddr now = ok (s, none)
search_free (suc rounds) s chaddr now = do
  cand ← add_ip s.ip_start_num ((s.last_lease + 1) % s.lease_num)
  free ← available_at (advance s) chaddr cand now
  elim free [ true ↦ ok (advance s, some cand) | false ↦ search_free rounds (advance s) chaddr now ]
