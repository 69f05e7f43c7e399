-- ===== src/Leases/Hostname.antt =====
-- src/main.rs, `MyServer::remember_hostname`: the name that a lease carries.
use Prim.Native.String.{String}
use rusty_dhcp.Base.{
  ℕ, zero, suc, ◌≡◌, refl, sym, ap, ◌∙◌, inl, inr, List, [], ◌∷◌, map, Option, none, some, set, ok,
  index, Option-cases, ==_self, nat_eq, bytes_eq, if_true, if_false, get_elem?-set_ne, ◌==◌, ◌≢◌,
  false, arith, panic, ok-injective,
}
use rusty_dhcp.Base.HashMap
use rusty_dhcp.Base.HashMap.{HashMap, insert_self, get-insert}
use rusty_dhcp.Options.{Ipv4Addr, Str}
use rusty_dhcp.Dhcpv6.Pool.Invariant.{lookup-held}
use rusty_dhcp.Leases.{Mac, Lease, MyServer, lookup, remember_hostname, renamed}
use rusty_dhcp.Leases
use rusty_dhcp.Leases.Image.{
  entry_of, entry_of?, overflow_of, pool_of, map_ok, lookup-image, insert-overflow_of,
  get-overflow_of,
}
use rusty_dhcp.Leases.Settings.{settings}
use rusty_dhcp.Leases.Table.{map_ok-eq-ok, holds, IsTable}

-- The entry with the name that was announced, if one was.
abbrev pub named : Option Str → Option Lease → Option Lease
named none e = e
named (some name) none = none
named (some name) (some e) = some (renamed e name)

rename_slot :
    (os : List (Option Lease)) (i : ℕ) (e : Lease) (name : Str)
    → index {E = String} os i ≡ ok (some e)
    → map entry_of? (set os i (some (renamed e name))) ≡ map entry_of? os
unfolding entry_of
rename_slot [] i e name h = refl
rename_slot (x ∷ os) zero e name h =
    ap (λ o. entry_of? o ∷ map entry_of? os) (sym (ok-injective {E = String} h))
rename_slot (x ∷ os) (suc i) e name h = ap (◌∷◌ (entry_of? x)) (rename_slot os i e name h)

index-set_self :
    (os : List (Option Lease)) (i : ℕ) (o v : Option Lease)
    → index {E = String} os i ≡ ok o
    → index {E = String} (set os i v) i ≡ ok v
index-set_self [] i o v h = cc
index-set_self (x ∷ os) zero o v h = refl
index-set_self (x ∷ os) (suc i) o v h = index-set_self os i o v h

rename_overflow :
    (m : HashMap Ipv4Addr Lease) (ip : Ipv4Addr) (e : Lease) (name : Str)
    → HashMap.get ip m ≡ some e
    → overflow_of (HashMap.insert ip (renamed e name) m) ≡ overflow_of m
unfolding entry_of
rename_overflow m ip e name h =
    sym (insert-overflow_of ip (renamed e name) m)
    ∙ insert_self ip (entry_of e) (overflow_of m) (get-overflow_of ip m ∙ ap entry_of? h)

-- `t` has the leases of `s`, of the same clients and with the same ends; the one of `ip` has the name
-- that was announced, and all others have the names that they had.
pub record Names (s t : MyServer) (ip : Ipv4Addr) (hostname : Option Str) : Type 0 where
  pub same_leases : pool_of t ≡ pool_of s
  pub same_settings : settings t ≡ settings s
  pub name_of : lookup t ip ≡ map_ok (named hostname) (lookup s ip)
  pub same_others : (b : Ipv4Addr) → (ip == b) ≡ false → lookup t b ≡ lookup s b

pub lookup-slot :
    (s : MyServer) (ip : Ipv4Addr) (i : ℕ)
    → Leases.idx s ip ≡ some i
    → lookup s ip ≡ index s.slots i
unfolding lookup
lookup-slot s ip i h = rw (h, lookup) refl

pub lookup-spilled :
    (s : MyServer) (ip : Ipv4Addr)
    → Leases.idx s ip ≡ none
    → lookup s ip ≡ ok (HashMap.get ip s.overflow)
unfolding lookup
lookup-spilled s ip h = rw (h, lookup) refl

idx-with_slots :
    (s : MyServer) (slots : List (Option Lease)) (ip : Ipv4Addr)
    → Leases.idx (record s { slots = slots }) ip ≡ Leases.idx s ip
unfolding Leases.idx
idx-with_slots s slots ip = refl

idx-with_overflow :
    (s : MyServer) (overflow : HashMap Ipv4Addr Lease) (ip : Ipv4Addr)
    → Leases.idx (record s { overflow = overflow }) ip ≡ Leases.idx s ip
unfolding Leases.idx
idx-with_overflow s overflow ip = refl

-- Different addresses have different slots.
idx_apart :
    (s : MyServer) (a b : Ipv4Addr) (i j : ℕ)
    → Leases.idx s a ≡ some i
    → Leases.idx s b ≡ some j
    → (a == b) ≡ false
    → i ≢ j
unfolding Leases.idx Leases.in_pool
idx_apart s a b i j h k ne = λ e. ground arith

-- Another address reads what it did, when a slot is written.
lookup-other_slot :
    (s : MyServer) (ip b : Ipv4Addr) (i : ℕ) (v : Option Lease)
    → Leases.idx s ip ≡ some i
    → (ip == b) ≡ false
    → lookup (record s { slots = set s.slots i v }) b ≡ lookup s b
lookup-other_slot s ip b i v h ne =
    let t = record s { slots = set s.slots i v } in
    let same = idx-with_slots s (set s.slots i v) b in
    elim (Option-cases (Leases.idx s b)) [
      | inl n ↦ lookup-spilled t b (same ∙ n) ∙ sym (lookup-spilled s b n)
      | inr (j, k) ↦
          lookup-slot t b j (same ∙ k)
          ∙ ap (λ o. elim o [ some e ↦ ok e | none ↦ panic ])
              (get_elem?-set_ne s.slots i j v (idx_apart s ip b i j h k ne))
          ∙ sym (lookup-slot s b j k)
    ]

-- The same, when an entry of the overflow is.
lookup-other_spilled :
    (s : MyServer) (ip b : Ipv4Addr) (e : Lease)
    → (ip == b) ≡ false
    → lookup (record s { overflow = HashMap.insert ip e s.overflow }) b ≡ lookup s b
lookup-other_spilled s ip b e ne =
    let t = record s { overflow = HashMap.insert ip e s.overflow } in
    let same = idx-with_overflow s (HashMap.insert ip e s.overflow) b in
    elim (Option-cases (Leases.idx s b)) [
      | inl n ↦
          lookup-spilled t b (same ∙ n)
          ∙ ap ok (get-insert ip b e s.overflow ∙ if_false _ _ _ ne)
          ∙ sym (lookup-spilled s b n)
      | inr (j, k) ↦ lookup-slot t b j (same ∙ k) ∙ sym (lookup-slot s b j k)
    ]

-- A table has every slot that it reads.
pub lookup-ok :
    (s : MyServer) → IsTable s → (ip : Ipv4Addr) → (e : Option Lease) × (lookup s ip ≡ ok e)
lookup-ok s v ip =
    let (e, q, same) =
      map_ok-eq-ok entry_of? (lookup s ip) (holds s ip)
        (sym (lookup-image s v.fits ip) ∙ lookup-held (pool_of s) v.inv ip) in
    (e, q)

module _ (s : MyServer) (ip : Ipv4Addr) where
  rename :
      (name : Str) (e : Lease)
      → lookup s ip ≡ ok (some e)
      → (t : MyServer) × (remember_hostname s ip (some name) ≡ ok t) × Names s t ip (some name)
  unfolding remember_hostname
  rename name e h = elim (Option-cases (Leases.idx s ip)) [
    | inl n ↦
        let found : HashMap.get ip s.overflow ≡ some e =
          ok-injective {E = String} (sym (lookup-spilled s ip n) ∙ h) in
        let t = record s { overflow = HashMap.insert ip (renamed e name) s.overflow } in
        (
          t,
          rw (remember_hostname, h, n) refl,
          record {
            same_leases =
                λ i. record (pool_of s) { overflow = rename_overflow s.overflow ip e name found i };
            same_settings = refl;
            name_of =
                lookup-spilled t ip
                  (idx-with_overflow s (HashMap.insert ip (renamed e name) s.overflow) ip ∙ n)
                ∙ ap ok (get-insert ip ip (renamed e name) s.overflow ∙ if_true _ _ _ (==_self ip))
                ∙ sym (ap (map_ok (named (some name))) h);
            same_others = λ b ne. lookup-other_spilled s ip b (renamed e name) ne;
          },
        )
    | inr (i, k) ↦
        let found : index {E = String} s.slots i ≡ ok (some e) = sym (lookup-slot s ip i k) ∙ h in
        let t = record s { slots = set s.slots i (some (renamed e name)) } in
        (
          t,
          rw (remember_hostname, h, k) refl,
          record {
            same_leases = λ j. record (pool_of s) { slots = rename_slot s.slots i e name found j };
            same_settings = refl;
            name_of =
                lookup-slot t ip i (idx-with_slots s (set s.slots i (some (renamed e name))) ip ∙ k)
                ∙ index-set_self s.slots i (some e) (some (renamed e name)) found
                ∙ sym (ap (map_ok (named (some name))) h);
            same_others = λ b ne. lookup-other_slot s ip b i (some (renamed e name)) k ne;
          },
        )
  ]

  -- On a table `remember_hostname` never panics. The leases stay with the clients that have them, and
  -- end when they did; the one of the address carries the name that the client announces, and keeps
  -- its own if it announces none, and those of all other addresses keep their names.
  pub remember_hostname-Names :
      (hostname : Option Str)
      → IsTable s
      → (t : MyServer) × (remember_hostname s ip hostname ≡ ok t) × Names s t ip hostname
  unfolding remember_hostname
  remember_hostname-Names hostname v = via hostname (lookup-ok s v ip)
    where
      via :
          (h : Option Str)
          → (e : Option Lease) × (lookup s ip ≡ ok e)
          → (t : MyServer) × (remember_hostname s ip h ≡ ok t) × Names s t ip h
      via none (e, q) = (
        s,
        rw q refl,
        record {
          same_leases = refl;
          same_settings = refl;
          name_of = rw q refl;
          same_others = λ b ne. refl;
        },
      )
      via (some name) (none, q) = (
        s,
        rw q refl,
        record {
          same_leases = refl;
          same_settings = refl;
          name_of = rw q refl;
          same_others = λ b ne. refl;
        },
      )
      via (some name) (some e, q) = rename name e q
