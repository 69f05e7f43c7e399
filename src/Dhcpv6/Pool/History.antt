-- ===== src/Dhcpv6/Pool/History.antt =====
-- src/dhcpv6.rs, `V6Pool`: any sequence of calls on a pool, from `new` on.
use Prim.Native.String.{String}
use rusty_dhcp.Base.{
  ℕ, ◌-◌, ◌^◌, ◌<◌, ◌≡◌, refl, sym, inl, inr, Bool, true, false, ◌&&◌, List, [], ◌∷◌, Option, none,
  arith, leb, if◌then◌else◌, Outcome, ok, err, panic, ◌>>=◌, Option-cases, nat_eq, bytes_eq, length,
  replicate, length-replicate,
}
use rusty_dhcp.Base.Slots.{count_some, count_some-replicate, entry_at-empty}
use rusty_dhcp.Base.HashMap
use rusty_dhcp.Dhcpv6.Pool.{
  Ipv6Addr, Duid, Entry, V6Pool, max_slots, u128_mod, idx, new, insert, discover, request, release,
}
use rusty_dhcp.Dhcpv6.Pool.Invariant.{held_at, held, Inv}
use rusty_dhcp.Dhcpv6.Pool.Update.{insert-Updates}
use rusty_dhcp.Dhcpv6.Pool.Grant.{Requests, renewed, refused, granted, request-Requests}
use rusty_dhcp.Dhcpv6.Pool.Release.{Releases, nothing, freed, release-Releases}
use rusty_dhcp.Dhcpv6.Pool.Discover.{
  Discovers, existing, offered, exhausted, discover-Discovers, with_last, with_last-Inv,
}

-- The slots of a new pool hold nothing.
slots_new :
    (u : Bool) (count : ℕ)
    → (length {A = Option Entry} (if u then replicate count none else [])
        ≡ (if u then count else 0))
      × (count_some {A = Entry} (if u then replicate count none else []) ≡ 0)
slots_new true count = (length-replicate count none, count_some-replicate Entry count)
slots_new false count = (refl, refl)

-- A new pool meets the invariant, whatever its range; `count` is a `u64`.
pub new-Inv : (start count duration : ℕ) → start < u128_mod → Inv (new start count duration)
unfolding new
new-Inv start count duration h =
    let (sized_, counted_) = slots_new (leb count max_slots && leb count (2 ^ 64 - 1)) count in
    record {
      start_fits = h;
      ends = refl;
      last_in_range = omega arith;
      sized = sized_;
      counted = sym counted_;
      closed_empty = λ e. refl;
      spilled = tt;
      distinct = tt;
    }

-- It holds no lease.
pub held-new :
    (start count duration : ℕ) (addr : Ipv6Addr) → held (new start count duration) addr ≡ none
unfolding new held_at HashMap.get
held-new start count duration addr = elim (Option-cases (idx (new start count duration) addr)) [
  | inl n ↦ rw (n, held_at) refl
  | inr (i, s) ↦
      let (sized_, counted_) = slots_new (leb count max_slots && leb count (2 ^ 64 - 1)) count in
      rw (s, held_at) (entry_at-empty _ i counted_)
]

pub data Call : Type 0 where
  inserts : Ipv6Addr → Duid → Option ℕ → Call
  discovers : Duid → ℕ → Call
  requests : Duid → Ipv6Addr → ℕ → Call
  releases : Duid → Call

-- The pool behind a call; one that fails leaves it as it was.
abbrev after : {A : Type 0} → V6Pool → Outcome String (V6Pool × A) → Outcome String V6Pool
after p (ok (q, a)) = ok q
after p (err why) = ok p
after p panic = panic

pub step : V6Pool → Call → Outcome String V6Pool
step p (inserts addr duid expiry) = insert p addr duid expiry
step p (discovers duid now) = after p (discover p duid now)
step p (requests duid addr now) = after p (request p duid addr now)
step p (releases duid) = after p (release p duid)

pub run : V6Pool → List Call → Outcome String V6Pool
run p [] = ok p
run p (c ∷ cs) = do q ← step p c; run q cs

-- The pool after a call that returns.
abbrev Steps : (V6Pool → Type 0) → Outcome String V6Pool → Type 0
Steps P r = (q : V6Pool) × (r ≡ ok q) × P q

insert-Steps :
    (p : V6Pool) (addr : Ipv6Addr) (duid : Duid) (expiry : Option ℕ)
    → Inv p
    → Steps Inv (insert p addr duid expiry)
insert-Steps p addr duid expiry v =
    let (q, e, u) = insert-Updates p v addr duid expiry in (q, e, u.keeps)

after-Discovers :
    (p : V6Pool) (duid : Duid) (now : ℕ) (x : Outcome String (V6Pool × Option Ipv6Addr))
    → Inv p
    → Discovers p duid now x
    → Steps Inv (after p x)
after-Discovers p duid now x v (existing ip f) = (p, refl, v)
after-Discovers p duid now x v (offered n f h free) =
    (with_last p n, refl, with_last-Inv p n v (omega arith))
after-Discovers p duid now x v (exhausted n f h free) = (with_last p n, refl, with_last-Inv p n v h)

after-Requests :
    (p : V6Pool) (duid : Duid) (addr now : ℕ) (x : Outcome String (V6Pool × Ipv6Addr))
    → Inv p
    → Requests p duid addr now x
    → Steps Inv (after p x)
after-Requests p duid addr now x v (renewed ip f) = (p, refl, v)
after-Requests p duid addr now x v (refused why f t) = (p, refl, v)
after-Requests p duid addr now x v (granted q f t u) = (q, refl, u.keeps)

after-Releases :
    (p : V6Pool) (duid : Duid) (x : Outcome String (V6Pool × Bool))
    → Inv p
    → Releases p duid x
    → Steps Inv (after p x)
after-Releases p duid x v (nothing f) = (p, refl, v)
after-Releases p duid x v (freed q ip f u) = (q, refl, u.keeps)

step-Inv : (p : V6Pool) (c : Call) → Inv p → Steps Inv (step p c)
unfolding step
step-Inv p (inserts addr duid expiry) v = insert-Steps p addr duid expiry v
step-Inv p (discovers duid now) v =
    after-Discovers p duid now (discover p duid now) v (discover-Discovers p v duid now)
step-Inv p (requests duid addr now) v =
    after-Requests p duid addr now (request p duid addr now) v (request-Requests p v duid addr now)
step-Inv p (releases duid) v = after-Releases p duid (release p duid) v (release-Releases p v duid)

run-keeps : (p : V6Pool) (cs : List Call) → Inv p → Steps Inv (run p cs)
unfolding run
run-keeps p [] v = (p, refl, v)
run-keeps p (c ∷ cs) v =
    let (q, e, w) = step-Inv p c v in let (r, f, x) = run-keeps q cs w in (r, rw e f, x)

-- Whatever calls are made on a new pool of a 128-bit start address, none panics and the pool that
-- results meets the invariant.
pub run-Inv :
    (start count duration : ℕ) (cs : List Call)
    → start < u128_mod
    → (q : V6Pool) × (run (new start count duration) cs ≡ ok q) × Inv q
run-Inv start count duration cs h =
    run-keeps (new start count duration) cs (new-Inv start count duration h)
