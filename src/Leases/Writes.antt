-- ===== src/Leases/Writes.antt =====
-- src/main.rs, `MyServer`, and src/dhcpv6.rs, `V6Pool`: the writes to the lease table are those to
-- the pool that stands for it.
use Prim.Native.String.{String}
use rusty_dhcp.Base.{
  ℕ, zero, suc, ◌+◌, ◌-◌, ◌≡◌, refl, sym, ap, ◌∙◌, inl, inr, map, Option, none, some, arith, set,
  list_beq_iff, if◌then◌else◌, is_none, ok, ◌>>=◌, index, Option-cases, Outcome-cases, nat_eq,
  bytes_eq, if_true, ◌>>◌,
}
use rusty_dhcp.Base.HashMap
use rusty_dhcp.Base.HashMap.{HashMap, get-insert, get-remove}
use rusty_dhcp.Options.{Ipv4Addr, Str}
use rusty_dhcp.Dhcpv6.Pool
use rusty_dhcp.Dhcpv6.Pool.{Entry, V6Pool, fill_slot}
use rusty_dhcp.Leases
use rusty_dhcp.Leases.{
  Mac, Lease, MyServer, insert_lease, vacate, repair, remove_lease, remember_hostname,
}
use rusty_dhcp.Leases.Image.{
  entry_of, entry_of?, pool_of, Fits, Sized, map_ok, get-overflow_of, insert-overflow_of,
  remove-overflow_of, index-map_entry_of, set-map_entry_of, idx-image, scan_used-image,
  scan_overflow-image,
}

drop_hint-image :
    (o : Option Lease) (mac : Mac) (ip : Ipv4Addr) (hints : HashMap Mac Ipv4Addr)
    → Pool.drop_hint (entry_of? o) mac ip hints ≡ Leases.drop_hint o mac ip hints
unfolding Pool.drop_hint Leases.drop_hint entry_of
drop_hint-image none mac ip hints = refl
drop_hint-image (some e) mac ip hints = refl

is_none-entry_of : (o : Option Lease) → is_none (entry_of? o) ≡ is_none o
is_none-entry_of none = refl
is_none-entry_of (some e) = refl

add_hint-image :
    (o : Option Ipv4Addr) (mac : Mac) (hints : HashMap Mac Ipv4Addr)
    → Pool.add_hint o mac hints ≡ Leases.add_hint o mac hints
unfolding Pool.add_hint
add_hint-image none mac hints = refl
add_hint-image (some ip) mac hints = refl

pub points_to-image :
    (o : Option Ipv4Addr) (ip : Ipv4Addr) → Pool.points_to o ip ≡ Leases.points_to o ip
unfolding Pool.points_to
points_to-image none ip = refl
points_to-image (some a) ip = refl

-- The entry of a new lease.
abbrev pub lease : Mac → Option ℕ → Option Str → Lease
lease mac expiry hostname = record { mac = mac; expiry = expiry; hostname = hostname }

abbrev with_slot : MyServer → ℕ → Lease → Option Lease → HashMap Mac Ipv4Addr → MyServer
with_slot s i e old hints = record s {
  slots = set s.slots i (some e);
  filled = if is_none old then s.filled + 1 else s.filled;
  by_mac = hints;
}

module _ (s : MyServer) (fits : Fits s) where
  module _ (ip : Ipv4Addr) (mac : Mac) (expiry : Option ℕ) (hostname : Option Str) where
    fill-image :
        (i : ℕ) (old : Option Lease)
        → pool_of (
            with_slot s i
              (lease mac expiry hostname)
              old
              (HashMap.insert mac ip (Leases.drop_hint old mac ip s.by_mac)))
          ≡ fill_slot
              (pool_of s)
              i
              (record { duid = mac; expiry = expiry })
              (entry_of? old)
              (HashMap.insert mac ip (Pool.drop_hint (entry_of? old) mac ip s.by_mac))
    unfolding entry_of
    fill-image i old = λ k. record (pool_of s) {
      slots = sym (set-map_entry_of s.slots i (some (lease mac expiry hostname))) k;
      filled = if sym (is_none-entry_of old) k then s.filled + 1 else s.filled;
      by_duid = HashMap.insert mac ip (sym (drop_hint-image old mac ip s.by_mac) k);
    }

    -- If the range fits 32 bits then a lease is inserted in the table as it is in the pool.
    pub insert_lease-image :
        map_ok pool_of (insert_lease s ip mac expiry hostname)
        ≡ Pool.insert (pool_of s) ip mac expiry
    unfolding insert_lease Pool.insert entry_of
    insert_lease-image = elim (Option-cases (Leases.idx s ip)) [
      | inl n ↦
          rw (n, insert_lease)
            (rw (idx-image s fits ip ∙ n, Pool.insert)
              (λ k. ok (record (pool_of s) {
                by_duid = HashMap.insert mac ip (
                    sym
                      (ap (λ o. Pool.drop_hint o mac ip s.by_mac) (get-overflow_of ip s.overflow)
                        ∙ drop_hint-image (HashMap.get ip s.overflow) mac ip s.by_mac)
                      k);
                overflow = sym (insert-overflow_of ip (lease mac expiry hostname) s.overflow) k;
              })))
      | inr (i, e) ↦
          rw (e, insert_lease)
            (rw (idx-image s fits ip ∙ e, Pool.insert)
              (rw (index-map_entry_of s.slots i)
                (elim (Outcome-cases (index {E = String} s.slots i)) [
                  | inl (old, f) ↦ rw f (ap ok (fill-image i old))
                  | inr (inl (why, f)) ↦ rw f refl
                  | inr (inr f) ↦ rw f refl
                ])))
    ]

  emptied :
      (n i : ℕ)
      → map_ok pool_of
          (do m ← Leases.decrement n; ok (record s { slots = set s.slots i none; filled = m }))
        ≡ (do
          Pool.require_nonzero n
          ok (record (pool_of s) { slots = set (map entry_of? s.slots) i none; filled = n - 1 }))
  unfolding Leases.decrement Pool.require_nonzero
  emptied zero i = refl
  emptied (suc n) i = λ k.
      ok (record (pool_of s) {
        slots = sym (set-map_entry_of s.slots i none) k;
        filled = pred_suc k;
      })
    where
      pred_suc : n ≡ suc n - 1
      pred_suc = omega arith

  pub vacate-image : (ip : Ipv4Addr) → map_ok pool_of (vacate s ip) ≡ Pool.vacate (pool_of s) ip
  unfolding vacate Pool.vacate
  vacate-image ip = elim (Option-cases (Leases.idx s ip)) [
    | inl n ↦
        rw (n, vacate)
          (rw (idx-image s fits ip ∙ n, Pool.vacate)
            (λ k. ok (record (pool_of s) { overflow = sym (remove-overflow_of ip s.overflow) k })))
    | inr (i, e) ↦
        rw (e, vacate)
          (rw (idx-image s fits ip ∙ e, Pool.vacate)
            (rw (index-map_entry_of s.slots i)
              (elim (Outcome-cases (index {E = String} s.slots i)) [
                | inl (old, f) ↦ rw f (emptied s.filled i)
                | inr (inl (why, f)) ↦ rw f refl
                | inr (inr f) ↦ rw f refl
              ])))
  ]

  -- The hint of the slots, or else of the overflow.
  repointed-image :
      (mac : Mac) (found : Option Ipv4Addr)
      → Pool.repointed (pool_of s) mac found
        ≡ Leases.add_hint
            (Leases.or_else found (Leases.scan_overflow s.overflow mac))
            mac
            (HashMap.remove mac s.by_mac)
  unfolding Pool.repointed Pool.add_hint
  repointed-image mac none =
      let gone : HashMap.get mac (HashMap.remove mac s.by_mac) ≡ none =
        get-remove mac mac s.by_mac ∙ if_true _ _ _ ((list_beq_iff mac mac).1 refl) in
      rw (gone, Pool.repointed)
        (rw (scan_overflow-image s.overflow mac)
          (add_hint-image (Leases.scan_overflow s.overflow mac) mac (HashMap.remove mac s.by_mac)))
  repointed-image mac (some ip) =
      let here : HashMap.get mac (HashMap.insert mac ip (HashMap.remove mac s.by_mac)) ≡ some ip =
        get-insert mac mac ip (HashMap.remove mac s.by_mac)
        ∙ if_true _ _ _ ((list_beq_iff mac mac).1 refl) in
      rw (here, Pool.repointed) refl

  pub repair-image :
      (mac : Mac) → Sized s → map_ok pool_of (repair s mac) ≡ Pool.repoint (pool_of s) mac
  unfolding repair Pool.repoint
  repair-image mac sized =
      rw (Pool.repoint, scan_used-image s fits sized mac)
        (elim (Outcome-cases (Leases.scan_used s mac)) [
          | inl (found, e) ↦
              rw (e, repair)
                (λ k. ok (record (pool_of s) { by_duid = sym (repointed-image mac found) k }))
          | inr (inl (why, e)) ↦ rw (e, repair) refl
          | inr (inr e) ↦ rw (e, repair) refl
        ])
