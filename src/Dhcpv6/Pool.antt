-- ===== src/Dhcpv6/Pool.antt =====
-- src/dhcpv6.rs, `V6Pool`: the allocator of one managed range of IPv6 addresses.
-- `Instant` is a number and each call takes the time; `now + lease_duration` does not overflow.
-- A method returns the new pool and its result; `panic` is a failed index, or an overflow that a
-- checked build refuses.
pub mod Invariant
pub mod Update
pub mod Lease
pub mod Grant
pub mod Release
pub mod Discover
pub mod Exclusive
pub mod History
pub mod Exchange
mod Tests
use Prim.Native.String.{String}
use rusty_dhcp.Base.{
  ℕ, zero, suc, ◌+◌, ◌-◌, ◌%◌, ◌^◌, ◌<◌, Bool, true, false, not, ◌&&◌, ◌||◌, List, [], ◌∷◌, Option,
  none, some, length, replicate, set, ◌==◌, ltb, leb, list_beq, if◌then◌else◌, is_none, Outcome, ok,
  err, panic, ◌>>=◌, ◌>>◌, index, require, nat_eq, bytes_eq,
}
use rusty_dhcp.Base.HashMap
use rusty_dhcp.Base.HashMap.{HashMap}

abbrev pub Ipv6Addr : Type 0
Ipv6Addr = ℕ

abbrev pub Duid : Type 0
Duid = List ℕ

pub record Entry : Type 0 where
  pub duid : Duid
  pub expiry : Option ℕ

pub record V6Pool : Type 0 where
  pub start : ℕ
  pub end : Option ℕ
  pub count : ℕ
  pub last : ℕ
  pub lease_duration : ℕ
  pub use_slots : Bool
  pub slots : List (Option Entry)
  pub filled : ℕ
  pub overflow : HashMap Ipv6Addr Entry
  pub by_duid : HashMap Duid Ipv6Addr

abbrev pub max_slots : ℕ
max_slots = 100_000

abbrev pub u128_mod : ℕ
u128_mod = 2 ^ 128

-- `u128::checked_add`
unfoldable pub checked_add : ℕ → ℕ → Option ℕ
checked_add a b = if ltb (a + b) u128_mod then some (a + b) else none

-- `a + b`, which a checked build refuses to overflow.
unfoldable pub add_addr : ℕ → ℕ → Outcome String Ipv6Addr
add_addr a b = if ltb (a + b) u128_mod then ok (a + b) else panic

unfoldable pub new : Ipv6Addr → ℕ → ℕ → V6Pool
new start count lease_duration =
    let use_slots : Bool = leb count max_slots && leb count (2 ^ 64 - 1) in
    record {
      start = start;
      end = checked_add start count;
      count = count;
      last = 0;
      lease_duration = lease_duration;
      use_slots = use_slots;
      slots = if use_slots then replicate count none else [];
      filled = 0;
      overflow = [];
      by_duid = [];
    }

unfoldable pub len : V6Pool → ℕ
len p = p.filled + length p.overflow

unfoldable pub is_empty : V6Pool → Bool
is_empty p = p.filled == 0 && leb (length p.overflow) 0

unfoldable pub before_end : Option ℕ → ℕ → Bool
before_end none pos = false
before_end (some e) pos = ltb pos e

unfoldable pub in_range : V6Pool → Ipv6Addr → Bool
in_range p addr = leb p.start addr && before_end p.end addr

unfoldable pub idx : V6Pool → Ipv6Addr → Option ℕ
idx p addr =
    if not p.use_slots || is_none p.end
    then none
    else if ltb addr p.start
    then none
    else if ltb (addr - p.start) p.count
    then some (addr - p.start)
    else none

unfoldable pub lookup : V6Pool → Ipv6Addr → Outcome String (Option Entry)
lookup p addr = elim (idx p addr) [
  | some i ↦ index p.slots i
  | none ↦ ok (HashMap.get addr p.overflow)
]

-- `expiry.map_or(false, |exp| now > exp)`: a reservation with no expiry never runs out.
unfoldable pub has_expired : Option ℕ → ℕ → Bool
has_expired none now = false
has_expired (some exp) now = ltb exp now

-- The test that a slot and an overflow entry share.
unfoldable pub entry_available : Option Entry → Duid → ℕ → Bool
entry_available none duid now = true
entry_available (some e) duid now = list_beq e.duid duid || has_expired e.expiry now

unfoldable pub slot_available : V6Pool → ℕ → Duid → ℕ → Outcome String Bool
slot_available p i duid now = do s ← index p.slots i; ok (entry_available s duid now)

-- The hint of the address's former holder goes, if it points here.
unfoldable pub drop_hint :
    Option Entry → Duid → Ipv6Addr → HashMap Duid Ipv6Addr → HashMap Duid Ipv6Addr
drop_hint none duid addr hints = hints
drop_hint (some old) duid addr hints =
    if not (list_beq old.duid duid)
    then elim (HashMap.get old.duid hints) [
      | some a ↦ if a == addr then HashMap.remove old.duid hints else hints
      | none ↦ hints
    ]
    else hints

-- The slots, their count and the hints after an entry is put into slot `i`.
abbrev pub fill_slot : V6Pool → ℕ → Entry → Option Entry → HashMap Duid Ipv6Addr → V6Pool
fill_slot p i e old hints = record p {
  slots = set p.slots i (some e);
  filled = if is_none old then p.filled + 1 else p.filled;
  by_duid = hints;
}

-- The two branches of the source for an address without a slot do the same.
unfoldable pub insert : V6Pool → Ipv6Addr → Duid → Option ℕ → Outcome String V6Pool
unfolding drop_hint
insert p addr duid expiry = elim (idx p addr) [
  | some i ↦ do
    old ← index p.slots i
    ok (
        fill_slot p i (record { duid = duid; expiry = expiry }) old
          (HashMap.insert duid addr (drop_hint old duid addr p.by_duid)))
  | none ↦ ok (record p {
    by_duid =
        HashMap.insert duid addr (drop_hint (HashMap.get addr p.overflow) duid addr p.by_duid);
    overflow = HashMap.insert addr (record { duid = duid; expiry = expiry }) p.overflow;
  })
]

unfoldable pub available_at : V6Pool → Duid → Ipv6Addr → ℕ → Outcome String Bool
available_at p duid addr now = elim (idx p addr) [
  | some i ↦ slot_available p i duid now
  | none ↦
      if not p.use_slots && in_range p addr
      then ok (entry_available (HashMap.get addr p.overflow) duid now)
      else ok false
]

-- `for (i, s) in self.slots.iter().enumerate()`: the address of the first slot of `duid`.
unfoldable pub scan_slots : ℕ → ℕ → List (Option Entry) → Duid → Outcome String (Option Ipv6Addr)
scan_slots start i [] duid = ok none
scan_slots start i (none ∷ slots) duid = scan_slots start (i + 1) slots duid
scan_slots start i (some e ∷ slots) duid =
    let rest = scan_slots start (i + 1) slots duid in
    if list_beq e.duid duid then (do ip ← add_addr start i; ok (some ip)) else rest

-- A hash map has no fixed order; here it is that of the list.
unfoldable pub scan_overflow : HashMap Ipv6Addr Entry → Duid → Option Ipv6Addr
scan_overflow [] duid = none
scan_overflow ((ip, e) ∷ m) duid = if list_beq e.duid duid then some ip else scan_overflow m duid

-- The slots, if there are any, and then the overflow.
unfoldable pub scan : V6Pool → Duid → Outcome String (Option Ipv6Addr)
scan p duid = do
  found ← if p.use_slots then scan_slots p.start 0 p.slots duid else ok none
  ok (elim found [ some ip ↦ some ip | none ↦ scan_overflow p.overflow duid ])

-- The address that the hint names, if `duid` holds it.
unfoldable pub hinted : V6Pool → Duid → Outcome String (Option Ipv6Addr)
hinted p duid = elim (HashMap.get duid p.by_duid) [
  | none ↦ ok none
  | some ip ↦ do
    e ← lookup p ip
    ok (elim e [ none ↦ none | some e ↦ if list_beq e.duid duid then some ip else none ])
]

unfoldable pub current_lease : V6Pool → Duid → Outcome String (Option Ipv6Addr)
current_lease p duid =
    if is_empty p
    then ok none
    else do hint ← hinted p duid; elim hint [ some ip ↦ ok (some ip) | none ↦ scan p duid ]

-- Whether the candidate `start + last` is inside the pool and free.
unfoldable pub candidate_free : V6Pool → Duid → ℕ → Outcome String Bool
candidate_free p duid now = elim (checked_add p.start p.last) [
  | none ↦ ok false
  | some pos ↦
      if before_end p.end pos
      then (if p.use_slots then slot_available p p.last duid now else available_at p duid pos now)
      else ok false
]

abbrev pub advance : V6Pool → V6Pool
advance p = record p { last = (p.last + 1) % p.count }

-- The round-robin loop, `rounds` times. Since `last` is below `count`, `last + 1` fits 64 bits.
unfoldable pub search_free : ℕ → V6Pool → Duid → ℕ → Outcome String (V6Pool × Option Ipv6Addr)
search_free zero p duid now = ok (p, none)
search_free (suc rounds) p duid now = do
  free ← candidate_free (advance p) duid now
  elim free [
    | true ↦ ok (advance p, some (p.start + (p.last + 1) % p.count))
    | false ↦ search_free rounds (advance p) duid now
  ]

unfoldable pub discover : V6Pool → Duid → ℕ → Outcome String (V6Pool × Option Ipv6Addr)
discover p duid now = do
  current ← current_lease p duid
  elim current [
    | some ip ↦ ok (p, some ip)
    | none ↦ if p.count == 0 then ok (p, none) else search_free p.count p duid now
  ]

-- The entry of a new timed lease, where `request` puts it.
unfoldable pub commit : V6Pool → Duid → Ipv6Addr → ℕ → Outcome String (V6Pool × Ipv6Addr)
commit p duid addr expiry =
    let e : Entry = record { duid = duid; expiry = some expiry } in
    let hints = HashMap.insert duid addr p.by_duid in
    elim (idx p addr) [
      | some i ↦ do old ← index p.slots i; ok (fill_slot p i e old hints, addr)
      | none ↦ ok (record p { by_duid = hints; overflow = HashMap.insert addr e p.overflow }, addr)
    ]

-- An error leaves the pool as it was.
unfoldable pub request : V6Pool → Duid → Ipv6Addr → ℕ → Outcome String (V6Pool × Ipv6Addr)
request p duid addr now = do
  current ← current_lease p duid
  elim current [
    | some ip ↦ ok (p, ip)
    | none ↦ do
      free ← available_at p duid addr now
      require free "Requested address not available"
      commit p duid addr (now + p.lease_duration)
  ]

-- `n - 1` on an unsigned `n`, which a checked build refuses at 0.
unfoldable pub require_nonzero : ℕ → Outcome String (Unit {0})
require_nonzero zero = panic
require_nonzero (suc n) = ok tt

-- `self.slots[i] = None; self.filled -= 1` or `self.overflow.remove(&ip)`.
unfoldable pub vacate : V6Pool → Ipv6Addr → Outcome String V6Pool
vacate p ip = elim (idx p ip) [
  | some i ↦ do
    old ← index p.slots i
    require_nonzero p.filled
    ok (record p { slots = set p.slots i none; filled = p.filled - 1 })
  | none ↦ ok (record p { overflow = HashMap.remove ip p.overflow })
]

-- The hints with one for `duid`, if an address was found.
unfoldable pub add_hint : Option Ipv6Addr → Duid → HashMap Duid Ipv6Addr → HashMap Duid Ipv6Addr
add_hint none duid hints = hints
add_hint (some ip) duid hints = HashMap.insert duid ip hints

-- The hints without the old one of `duid`, and with one for the slot that was found or else for
-- an overflow entry.
unfoldable pub repointed : V6Pool → Duid → Option Ipv6Addr → HashMap Duid Ipv6Addr
repointed p duid found =
    let hints = add_hint found duid (HashMap.remove duid p.by_duid) in
    let spilled = add_hint (scan_overflow p.overflow duid) duid hints in
    if is_none (HashMap.get duid hints) then spilled else hints

-- The hint of `duid` is moved to another of its addresses, if there is one.
unfoldable pub repoint : V6Pool → Duid → Outcome String V6Pool
unfolding repointed
repoint p duid = do
  found ← if p.use_slots then scan_slots p.start 0 p.slots duid else ok none
  ok (record p { by_duid = repointed p duid found })

unfoldable pub points_to : Option Ipv6Addr → Ipv6Addr → Bool
points_to none ip = false
points_to (some a) ip = a == ip

unfoldable pub release : V6Pool → Duid → Outcome String (V6Pool × Bool)
release p duid = do
  current ← current_lease p duid
  elim current [
    | none ↦ ok (p, false)
    | some ip ↦ do
      p' ← vacate p ip
      p'' ← if points_to (HashMap.get duid p'.by_duid) ip then repoint p' duid else ok p'
      ok (p'', true)
  ]
