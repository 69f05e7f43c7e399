-- ===== src/Dhcpv6/Pool/Exclusive.antt =====
-- src/dhcpv6.rs, `V6Pool`: `request` gives no client a second address.
use Prim.Native.String.{String}
use rusty_dhcp.Base.{
  ℕ, ◌≡◌, sym, subst, ◌∙◌, inl, inr, true, false, Option, none, some, arith, ◌==◌, list_beq,
  list_beq_iff, Outcome, ok, ◌⊎◌, if_true, if_false, Bool-cases, nat_eq, bytes_eq, ==_iff,
  if◌then◌else◌,
}
use rusty_dhcp.Dhcpv6.Pool.{Ipv6Addr, Duid, Entry, V6Pool, request}
use rusty_dhcp.Dhcpv6.Pool.Invariant.{held, Inv}
use rusty_dhcp.Dhcpv6.Pool.Update.{entry}
use rusty_dhcp.Dhcpv6.Pool.Lease.{Finds}
use rusty_dhcp.Dhcpv6.Pool.Grant.{Requests, renewed, refused, granted, request-Requests}

-- No client holds two addresses.
abbrev pub OneLease : V6Pool → Type 0
OneLease p =
    (a b : Ipv6Addr) (e f : Entry) → held p a ≡ some e → held p b ≡ some f → e.duid ≡ f.duid → a ≡ b

-- An entry at the new address is the new one; any other is an old one of another client.
module _ (p q : V6Pool) (addr : Ipv6Addr) (duid : Duid) (expiry : Option ℕ) where
  -- `q` has a new entry at `addr`.
  abbrev pub IsGranted : Type 0
  IsGranted = (b : Ipv6Addr) → held q b ≡ (if addr == b then some (entry duid expiry) else held p b)

  new_or_old :
      Finds (held p) duid none
      → IsGranted
      → (b : Ipv6Addr) (f : Entry) → held q b ≡ some f
      → ((addr ≡ b) × (f.duid ≡ duid)) ⊎ ((held p b ≡ some f) × (list_beq f.duid duid ≡ false))
  new_or_old none_held u b f h = elim (Bool-cases (addr == b)) [
    | inl here ↦
        let same : some (entry duid expiry) ≡ some f = sym (if_true _ _ _ here) ∙ sym (u b) ∙ h in
        inl ((==_iff addr b).0 here, cc)
    | inr away ↦
        let old : held p b ≡ some f = sym (if_false _ _ _ away) ∙ sym (u b) ∙ h in
        inr (old, none_held b f old)
  ]

  differ : (e f : Entry) → e.duid ≡ f.duid → e.duid ≡ duid → list_beq f.duid duid ≡ false → ⊥
  differ e f same mine other =
      let hit : list_beq f.duid duid ≡ true = (list_beq_iff f.duid duid).1 (sym same ∙ mine) in
      ground (arith, hit)

  pub granted-OneLease : Finds (held p) duid none → IsGranted → OneLease p → OneLease q
  granted-OneLease n u one a b e f h k same = elim (new_or_old n u a e h) [
    | inl (x, d) ↦ elim (new_or_old n u b f k) [
      | inl (y, d') ↦ sym x ∙ y
      | inr (old, other) ↦ absurd (differ e f same d other)
    ]
    | inr (old, other) ↦ elim (new_or_old n u b f k) [
      | inl (y, d) ↦ absurd (differ f e (sym same) d other)
      | inr (old', other') ↦ one a b e f old old' same
    ]
  ]

-- If a pool meets the invariant and no client holds two addresses, then `request` keeps it so.
pub request-OneLease :
    (p : V6Pool) (duid : Duid) (addr now : ℕ) (q : V6Pool) (ip : Ipv6Addr)
    → Inv p
    → OneLease p
    → request p duid addr now ≡ ok (q, ip)
    → OneLease q
request-OneLease p duid addr now q ip v one r =
    via (request p duid addr now) (request-Requests p v duid addr now) r
  where
    via :
        (x : Outcome String (V6Pool × Ipv6Addr))
        → Requests p duid addr now x
        → x ≡ ok (q, ip)
        → OneLease q
    via x (renewed ip' f) eq = let same : p ≡ q = cc in subst OneLease same one
    via x (refused why f t) eq = cc
    via x (granted q' f t u) eq =
        let same : q' ≡ q = cc in
        subst OneLease same (granted-OneLease p q' addr duid _ f u.holds one)
