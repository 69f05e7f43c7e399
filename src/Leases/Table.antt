-- ===== src/Leases/Table.antt =====
-- src/main.rs, `MyServer`: what the operations of the lease table do to its leases.
use Prim.Native.String.{String}
use rusty_dhcp.Base.{
  ℕ, ◌≡◌, refl, sym, ◌∙◌, ◌⊎◌, inl, inr, [], Option, none, some, arith, Outcome, ok, err, panic,
  Bool-cases, nat_eq, bytes_eq, subst,
}
use rusty_dhcp.Base.HashMap
use rusty_dhcp.Base.HashMap.{HashMap}
use rusty_dhcp.Options.{Ipv4Addr, Str}
use rusty_dhcp.Dhcpv6.Pool.{Entry, V6Pool}
use rusty_dhcp.Dhcpv6.Pool.Invariant.{held, Inv}
use rusty_dhcp.Dhcpv6.Pool.Update.{entry, Updates, insert-Updates, vacate-Updates}
use rusty_dhcp.Dhcpv6.Pool.Lease.{Finds, current_lease-Finds}
use rusty_dhcp.Dhcpv6.Pool.Release.{with_hints, with_hints-Updates, repoint_hints}
use rusty_dhcp.Leases.{
  Mac, Lease, MyServer, current_lease, insert_lease, vacate, repair, remove_lease,
  remember_hostname,
}
use rusty_dhcp.Leases
use rusty_dhcp.Leases.Image.{pool_of, Fits, Sized, map_ok, current_lease-image, length-map_entry_of}
use rusty_dhcp.Leases.Settings.{settings, insert_lease-settings, vacate-settings, repair-settings}
use rusty_dhcp.Leases.Writes.{insert_lease-image, vacate-image, repair-image}

-- The range is one of 32-bit addresses and the table, as a pool, meets the invariant of pools.
pub record IsTable (s : MyServer) : Type 0 where
  pub fits : Fits s
  pub inv : Inv (pool_of s)

pub IsTable-Sized : (s : MyServer) → IsTable s → Sized s
IsTable-Sized s t = sym (length-map_entry_of s.slots) ∙ t.inv.sized

-- The lease of an address, without the host name.
abbrev pub holds : MyServer → Ipv4Addr → Option Entry
holds s addr = held (pool_of s) addr

-- A result of the table, from that of the pool.
module _ {ℓ κ} {A : Type ℓ} {B : Type κ} where
  pub map_ok-eq-ok :
      (f : A → B) (r : Outcome String A) (b : B)
      → map_ok f r ≡ ok b
      → (a : A) × (r ≡ ok a) × (f a ≡ b)
  map_ok-eq-ok f (ok a) b h = (a, refl, cc)
  map_ok-eq-ok f (err e) b h = cc
  map_ok-eq-ok f panic b h = cc

-- `t` is a table, and is `s` with the entry `o` for one address.
pub record Changes (s t : MyServer) (addr : Ipv4Addr) (o : Option Entry) : Type 0 where
  pub table : IsTable t
  pub updates : Updates (pool_of s) (pool_of t) addr o
  pub same_settings : settings t ≡ settings s

Updates-Changes :
    (s t : MyServer) (q : V6Pool) (addr : Ipv4Addr) (o : Option Entry)
    → IsTable s
    → pool_of t ≡ q
    → Updates (pool_of s) q addr o
    → settings t ≡ settings s
    → Changes s t addr o
Updates-Changes s t q addr o v e u same =
    let u' : Updates (pool_of s) (pool_of t) addr o =
      subst (λ q. Updates (pool_of s) q addr o) (sym e) u in
    record {
      table = record { fits = ground (arith, u'.same_range, v.fits); inv = u'.keeps };
      updates = u';
      same_settings = same;
    }

module _ (s : MyServer) (v : IsTable s) where
  -- The lease that `current_lease` finds is one of the client, and it finds one if there is one.
  pub current_lease-holds :
      (mac : Mac) → (o : Option Ipv4Addr) × (current_lease s mac ≡ ok o) × Finds (holds s) mac o
  current_lease-holds mac =
      let (o, e, f) = current_lease-Finds (pool_of s) v.inv mac in
      (o, sym (current_lease-image s v.fits (IsTable-Sized s v) mac) ∙ e, f)

  pub insert_lease-Changes :
      (ip : Ipv4Addr) (mac : Mac) (expiry : Option ℕ) (hostname : Option Str)
      → (t : MyServer) × (insert_lease s ip mac expiry hostname ≡ ok t)
        × Changes s t ip (some (entry mac expiry))
  insert_lease-Changes ip mac expiry hostname =
      let (q, e, u) = insert-Updates (pool_of s) v.inv ip mac expiry in
      let (t, e', same) =
        map_ok-eq-ok pool_of (insert_lease s ip mac expiry hostname) q
          (insert_lease-image s v.fits ip mac expiry hostname ∙ e) in
      (
        t,
        e',
        Updates-Changes s t q ip _ v same u (insert_lease-settings s t ip mac expiry hostname e'),
      )

  vacate-Changes :
      (ip : Ipv4Addr) (e : Entry)
      → holds s ip ≡ some e
      → (t : MyServer) × (vacate s ip ≡ ok t) × Changes s t ip none
  vacate-Changes ip f h =
      let (q, e, u) = vacate-Updates (pool_of s) v.inv ip [] f h in
      let (t, e', same) = map_ok-eq-ok pool_of (vacate s ip) q (vacate-image s v.fits ip ∙ e) in
      (t, e', Updates-Changes s t q ip none v same u (vacate-settings s t ip e'))

  -- The hints are no part of the table that counts.
  repair-Changes :
      (t : MyServer) (ip : Ipv4Addr) (o : Option Entry) (mac : Mac)
      → Changes s t ip o
      → (t' : MyServer) × (repair t mac ≡ ok t') × Changes s t' ip o
  repair-Changes t ip o mac c =
      let (hints, r) = repoint_hints (pool_of t) mac c.table.inv in
      let (t', e, same) =
        map_ok-eq-ok pool_of (repair t mac) (with_hints (pool_of t) hints)
          (repair-image t c.table.fits mac (IsTable-Sized t c.table) ∙ r) in
      (
        t',
        e,
        Updates-Changes s t' (with_hints (pool_of t) hints) ip o v same
            (with_hints-Updates (pool_of s) (pool_of t) ip o hints c.updates)
            (repair-settings t t' mac e ∙ c.same_settings),
      )

  -- `remove_lease` never panics. A client without a lease changes nothing; from any other one
  -- of its leases is taken.
  pub remove_lease-Changes :
      (mac : Mac)
      → (t : MyServer) × (remove_lease s mac ≡ ok t)
        × (Finds (holds s) mac none × (t ≡ s)
            ⊎ ((ip : Ipv4Addr) × Finds (holds s) mac (some ip) × Changes s t ip none))
  unfolding remove_lease
  remove_lease-Changes mac = via (current_lease-holds mac)
    where
      via :
          (o : Option Ipv4Addr) × (current_lease s mac ≡ ok o) × Finds (holds s) mac o
          → (t : MyServer) × (remove_lease s mac ≡ ok t)
            × (Finds (holds s) mac none × (t ≡ s)
                ⊎ ((ip : Ipv4Addr) × Finds (holds s) mac (some ip) × Changes s t ip none))
      via (none, c, f) = (s, rw c refl, inl (f, refl))
      via (some ip, c, f) =
          let (t, e, u) = vacate-Changes ip f.0 f.1 in
          elim (Bool-cases (Leases.points_to (HashMap.get mac t.by_mac) ip)) [
            | inr away ↦ (t, rw (c, e, away) refl, inr (ip, f, u))
            | inl here ↦
                let (t', r, u') = repair-Changes t ip none mac u in
                (t', rw (c, e, here) r, inr (ip, f, u'))
          ]
