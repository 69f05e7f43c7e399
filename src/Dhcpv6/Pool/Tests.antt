-- ===== src/Dhcpv6/Pool/Tests.antt =====
-- src/dhcpv6.rs, `V6Pool`: runs, and the properties of the pool at concrete inputs.
use rusty_dhcp.Base.{◌≡◌, refl, [], ◌∷◌, arith, true, none, some, ok, nat_eq, bytes_eq}
use rusty_dhcp.Base.HashMap
use rusty_dhcp.Dhcpv6.Pool
use rusty_dhcp.Dhcpv6.Pool.{
  Ipv6Addr, Duid, Entry, V6Pool, u128_mod, checked_add, idx, in_range, entry_available, has_expired,
  new, insert, available_at, current_lease, discover, request, release,
}
use rusty_dhcp.Dhcpv6.Pool.Invariant.{held_at, held, Inv}
use rusty_dhcp.Dhcpv6.Pool.Update.{entry}
use rusty_dhcp.Dhcpv6.Pool.Grant.{Requests, request-Requests, request_protects}
use rusty_dhcp.Dhcpv6.Pool.Exclusive.{OneLease, request-OneLease}
use rusty_dhcp.Dhcpv6.Pool.Release.{Releases, release-Releases}
use rusty_dhcp.Dhcpv6.Pool.Discover.{is_free, Discovers, discover-Discovers}
use rusty_dhcp.Dhcpv6.Pool.Exchange.{Leased, one_address, discover-request}
use rusty_dhcp.Dhcpv6.Pool.History.{Call, run, new-Inv, held-new, run-Inv}

abbrev alice : Duid
alice = 1 ∷ 2 ∷ []

abbrev bob : Duid
bob = 7 ∷ []

-- Three addresses from 10 on; `alice` holds the second until 50, and an address outside.
abbrev pool : V6Pool
pool = record {
  start = 10;
  end = some 13;
  count = 3;
  last = 0;
  lease_duration = 30;
  use_slots = true;
  slots = none ∷ some (entry alice (some 50)) ∷ none ∷ [];
  filled = 1;
  overflow = (99, entry bob none) ∷ [];
  by_duid = [];
}

pool-Inv : Inv pool
unfolding checked_add idx HashMap.get
pool-Inv = record {
  start_fits = omega arith;
  ends = refl;
  last_in_range = omega arith;
  sized = refl;
  counted = refl;
  closed_empty = λ e. cc;
  spilled = (refl, tt);
  distinct = (refl, tt);
}

discover-Discovers_example : Discovers pool (5 ∷ []) 40 (discover pool (5 ∷ []) 40)
discover-Discovers_example = discover-Discovers pool pool-Inv (5 ∷ []) 40

request-Requests_example : Requests pool (5 ∷ []) 11 60 (request pool (5 ∷ []) 11 60)
request-Requests_example = request-Requests pool pool-Inv (5 ∷ []) 11 60

release-Releases_example : Releases pool alice (release pool alice)
release-Releases_example = release-Releases pool pool-Inv alice

-- `bob` takes the first address; the entry of `alice` stays.
abbrev granted_pool : V6Pool
granted_pool = record pool {
  slots = some (entry (5 ∷ []) (some 70)) ∷ some (entry alice (some 50)) ∷ none ∷ [];
  filled = 2;
  by_duid = (5 ∷ [], 10) ∷ [];
}

granted_run : request pool (5 ∷ []) 10 40 ≡ ok (granted_pool, 10)
unfolding request current_lease available_at Pool.commit Pool.is_empty Pool.hinted Pool.scan
    Pool.scan_slots Pool.scan_overflow Pool.slot_available entry_available idx HashMap.get
    HashMap.insert
granted_run = refl

request_protects_example : held granted_pool 11 ≡ some (entry alice (some 50))
unfolding held_at idx has_expired
request_protects_example =
    request_protects pool (5 ∷ []) 10 40 granted_pool 10 11 (entry alice (some 50)) pool-Inv
      granted_run refl refl refl

run-Inv_example :
    (q : V6Pool) × (run
        (new 10 3 30)
        (Call.discovers alice 1 ∷ Call.requests alice 11 2 ∷ Call.releases alice ∷ [])
      ≡ ok q)
    × Inv q
run-Inv_example =
    run-Inv 10 3 30 (Call.discovers alice 1 ∷ Call.requests alice 11 2 ∷ Call.releases alice ∷ [])
      (omega arith)

-- Nobody holds two addresses of a new pool, and the first grant keeps it so.
abbrev first_pool : V6Pool
first_pool = record (new 10 2 30) {
  slots = some (entry alice (some 70)) ∷ none ∷ [];
  filled = 1;
  by_duid = (alice, 10) ∷ [];
}

new_pool-OneLease : OneLease (new 10 2 30)
new_pool-OneLease a b e f h k same =
    let empty : held (new 10 2 30) a ≡ none = held-new 10 2 30 a in cc

first_run : request (new 10 2 30) alice 10 40 ≡ ok (first_pool, 10)
unfolding request new current_lease available_at Pool.commit Pool.is_empty Pool.slot_available
    entry_available idx HashMap.get HashMap.insert checked_add
first_run = refl

request-OneLease_example : OneLease first_pool
request-OneLease_example =
    request-OneLease (new 10 2 30) alice 10 40 first_pool 10 (new-Inv 10 2 30 (omega arith))
      new_pool-OneLease first_run

fresh-is_free : is_free (new 10 2 30) alice 40 11 ≡ true
unfolding new checked_add idx held_at in_range Pool.before_end entry_available HashMap.get
fresh-is_free = refl

discover-request_example :
    (q : V6Pool) × (ip : Ipv6Addr) × (r : V6Pool) × (discover (new 10 2 30) alice 40
      ≡ ok (q, some ip))
    × (request q alice ip 45 ≡ ok (r, ip))
    × Leased r alice ip
discover-request_example =
    discover-request (new 10 2 30) alice 40 45 11 (new-Inv 10 2 30 (omega arith))
      (λ a b f g. one_address (new 10 2 30) alice a b new_pool-OneLease f g) fresh-is_free
      (omega arith)
