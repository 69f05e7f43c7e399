-- ===== src/Config/Valid.antt =====
-- src/config.rs: what a validated configuration keeps, and to whom replies are broadcast.
use Prim.Native.String.{String}
use rusty_dhcp.Base.{
  ◌+◌, ◌-◌, ◌^◌, ◌≤◌, ◌<◌, ◌≡◌, ◌↔◌, inl, inr, refl, ap, ◌∙◌, Bool, true, false, ◌||◌, List, [],
  ◌∷◌, ◌++◌, is_none, length, ◌==◌, ltb, leb, if◌then◌else◌, ok, err, arith, Bool-cases,
  ok-injective, subst, ==_iff,
}
use rusty_dhcp.Options.{Ipv4Addr}
use rusty_dhcp.Dhcpv6.Pool.{checked_add}
use rusty_dhcp.Config.{Config, validate, defaults, is_in, add_broadcasts, broadcasts}

-- The server DUID has a length that RFC 8415 allows and both ranges end within their address space.
pub record IsValid (c : Config) : Type 0 where
  pub duid_length : (1 ≤ length c.server_duid) × (length c.server_duid ≤ 128)
  pub v4_range : c.ip_start + c.lease_num ≤ 2 ^ 32
  pub v6_range : c.ipv6_start + c.ipv6_lease_num < 2 ^ 128

-- Three guards in a row that let a value pass.
three_guards :
    (b1 b2 b3 : Bool) (e1 e2 e3 : String) (c d : Config)
    → (if b1 then err e1 else if b2 then err e2 else if b3 then err e3 else ok c) ≡ ok d
    → (b1 ≡ false) × (b2 ≡ false) × (b3 ≡ false) × (c ≡ d)
three_guards true b2 b3 e1 e2 e3 c d h = cc
three_guards false true b3 e1 e2 e3 c d h = cc
three_guards false false true e1 e2 e3 c d h = cc
three_guards false false false e1 e2 e3 c d h = (refl, refl, refl, ok-injective {E = String} h)

-- `validate` accepts exactly the valid configurations, and hands them on unchanged.
pub validate-IsValid : (c d : Config) → (validate c ≡ ok d) ↔ ((c ≡ d) × IsValid c)
unfolding validate checked_add
validate-IsValid c d = (accepted, λ h. passes h.1 ∙ ap ok h.0)
  where
    accepted : validate c ≡ ok d → (c ≡ d) × IsValid c
    accepted h =
        let (duid, v4_end, v6_end, same) =
          three_guards (leb (length c.server_duid) 0 || ltb 128 (length c.server_duid))
            (ltb (2 ^ 32 - 1 + 1) (c.ip_start + c.lease_num))
            (is_none (checked_add c.ipv6_start c.ipv6_lease_num))
            "server_duid must be 1..=128 bytes" "ip_start + lease_num overflows IPv4 space"
            "ipv6_start + ipv6_lease_num overflows IPv6 space" c d h in
        (
          same,
          record {
            duid_length = (ground (arith, duid), ground (arith, duid));
            v4_range = ground (arith, v4_end);
            v6_range = ground (arith, v6_end);
          },
        )

    passes : IsValid c → validate c ≡ ok c
    passes v = ground (arith, v.duid_length, v.v4_range, v.v6_range)

pub defaults-IsValid : IsValid defaults
unfolding defaults
defaults-IsValid = record {
  duid_length = (omega arith, omega arith);
  v4_range = omega arith;
  v6_range = omega arith;
}

-- The addresses that occur once.
abbrev pub Distinct : List Ipv4Addr → Type 0
Distinct [] = Unit {0}
Distinct (a ∷ xs) = (is_in a xs ≡ false) × Distinct xs

is_in-append :
    (ip : Ipv4Addr) (xs ys : List Ipv4Addr) → is_in ip (xs ++ ys) ≡ is_in ip xs || is_in ip ys
unfolding is_in
is_in-append ip [] ys = refl
is_in-append ip (a ∷ xs) ys = ground (arith, is_in-append ip xs ys)

Distinct-snoc :
    (xs : List Ipv4Addr) (ip : Ipv4Addr)
    → Distinct xs
    → is_in ip xs ≡ false
    → Distinct (xs ++ (ip ∷ []))
unfolding is_in
Distinct-snoc [] ip d h = (refl, tt)
Distinct-snoc (a ∷ xs) ip d h =
    ground (arith, is_in-append a xs (ip ∷ []), Distinct-snoc xs ip d.1, ==_iff a ip, ==_iff ip a)

add_broadcasts-Distinct :
    (extra out : List Ipv4Addr) → Distinct out → Distinct (add_broadcasts extra out)
unfolding add_broadcasts
add_broadcasts-Distinct [] out d = d
add_broadcasts-Distinct (ip ∷ extra) out d = elim (Bool-cases (is_in ip out)) [
  | inl t ↦ rw t (add_broadcasts-Distinct extra out d)
  | inr t ↦ rw t (add_broadcasts-Distinct extra (out ++ (ip ∷ [])) (Distinct-snoc out ip d t))
]

or_regroup : (x y z : Bool) → (x || (y || false)) || z ≡ x || (y || z)
or_regroup true y z = refl
or_regroup false true z = refl
or_regroup false false z = refl

or_absorb : (x y z : Bool) → (y ≡ true → x ≡ true) → x || z ≡ x || (y || z)
or_absorb true y z h = refl
or_absorb false true z h = let e : false ≡ true = h refl in cc
or_absorb false false z h = refl

add_broadcasts-is_in :
    (a : Ipv4Addr) (extra out : List Ipv4Addr)
    → is_in a (add_broadcasts extra out) ≡ is_in a out || is_in a extra
unfolding add_broadcasts is_in
add_broadcasts-is_in a [] out = ground arith
add_broadcasts-is_in a (ip ∷ extra) out = elim (Bool-cases (is_in ip out)) [
  | inr t ↦ rw t (
      add_broadcasts-is_in a extra (out ++ (ip ∷ []))
      ∙ ap (λ b. b || is_in a extra) (is_in-append a out (ip ∷ []))
      ∙ or_regroup (is_in a out) (ip == a) (is_in a extra))
  | inl t ↦ rw t (
      add_broadcasts-is_in a extra out
      ∙ or_absorb (is_in a out) (ip == a) (is_in a extra)
          (λ h. subst (λ x. is_in x out ≡ true) ((==_iff ip a).0 h) t))
]

-- The broadcast destinations are the primary address and the extra ones, each once.
pub broadcasts-Distinct :
    (c : Config)
    → Distinct (broadcasts c)
      × ((a : Ipv4Addr)
          → is_in a (broadcasts c) ≡ c.broadcast_ip == a || is_in a c.extra_broadcast_ips)
unfolding broadcasts is_in
broadcasts-Distinct c = (
  add_broadcasts-Distinct c.extra_broadcast_ips (c.broadcast_ip ∷ []) (refl, tt),
  λ a.
      add_broadcasts-is_in a c.extra_broadcast_ips (c.broadcast_ip ∷ [])
      ∙ or_regroup false (c.broadcast_ip == a) (is_in a c.extra_broadcast_ips),
)
