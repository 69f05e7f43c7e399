-- ===== src/Leases/Tests.antt =====
-- src/main.rs, `MyServer`: the properties of the lease table at concrete inputs.
use rusty_dhcp.Base.{◌≡◌, refl, [], ◌∷◌, arith, true, false, none, some, ok, nat_eq, bytes_eq}
use rusty_dhcp.Base.HashMap
use rusty_dhcp.Options.{Str}
use rusty_dhcp.Dhcpv6.Pool
use rusty_dhcp.Dhcpv6.Pool.{checked_add}
use rusty_dhcp.Leases.{Mac, MyServer, remember_hostname}
use rusty_dhcp.Leases.Image.{entry_of, overflow_of}
use rusty_dhcp.Leases.Writes.{lease}
use rusty_dhcp.Leases.Table.{IsTable}
use rusty_dhcp.Leases.Hostname.{Names, remember_hostname-Names}

abbrev alice : Mac
alice = 2 ∷ 0 ∷ 0 ∷ 0 ∷ 0 ∷ 1 ∷ []

abbrev bob : Mac
bob = 2 ∷ 0 ∷ 0 ∷ 0 ∷ 0 ∷ 2 ∷ []

abbrev laptop : Str
laptop = 108 ∷ 97 ∷ 112 ∷ []

-- Three addresses from 10 on; `alice` has the second until 50, and `bob` one outside.
abbrev table : MyServer
table = record {
  use_slots = true;
  slots = none ∷ some (lease alice (some 50) none) ∷ none ∷ [];
  filled = 1;
  overflow = (99, lease bob none none) ∷ [];
  by_mac = [];
  last_lease = 0;
  lease_duration = 30;
  ip_start_num = 10;
  lease_num = 3;
  enable_rapid_commit = false;
  broadcasts = [];
  cached_offer = [];
}

table-IsTable : IsTable table
unfolding checked_add Pool.idx HashMap.get entry_of overflow_of
table-IsTable = record {
  fits = omega arith;
  inv = record {
    start_fits = omega arith;
    ends = refl;
    last_in_range = omega arith;
    sized = refl;
    counted = refl;
    closed_empty = λ e. cc;
    spilled = (refl, tt);
    distinct = (refl, tt);
  };
}

remember_hostname-Names_example :
    (t : MyServer) × (remember_hostname table 11 (some laptop) ≡ ok t)
    × Names table t 11 (some laptop)
remember_hostname-Names_example = remember_hostname-Names table 11 (some laptop) table-IsTable
