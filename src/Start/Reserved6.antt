-- ===== src/Start/Reserved6.antt =====
-- src/main.rs, `serve_v6`: the pool with which the DHCPv6 service starts.
use Prim.Native.String.{String}
use mathlib.Core.Option.{none-ne-some}
use rusty_dhcp.Base.{
  ℕ, ◌≡◌, ◌≢◌, refl, sym, ◌∙◌, inl, inr, List, [], ◌∷◌, Option, none, some, arith, Outcome, ok, err,
  panic, Bool-cases, Option-cases, >>=-ne-panic,
}
use rusty_dhcp.Options.{Ipv4Addr, Str}
use rusty_dhcp.Config.{Config}
use rusty_dhcp.Config.Valid.{IsValid}
use rusty_dhcp.Config.Duid.{hex_val, is_separator, add_digit, hex_loop, whole_bytes, parse_duid_hex}
use rusty_dhcp.Dhcpv6.Pool
use rusty_dhcp.Dhcpv6.Pool.{Ipv6Addr, Duid, Entry, V6Pool}
use rusty_dhcp.Dhcpv6.Pool.Invariant.{held, Inv}
use rusty_dhcp.Dhcpv6.Pool.Update.{insert-Updates}
use rusty_dhcp.Dhcpv6.Pool.History.{new-Inv, held-new}
use rusty_dhcp.Start
use rusty_dhcp.Base.Split.{split}
use rusty_dhcp.Start.{initial, reserve}
use rusty_dhcp.Start.Reserved.{HasNoExpiry, updated-HasNoExpiry}

hex_loop-ne-panic : (bytes : List ℕ) (hi : Option ℕ) (out : List ℕ) → hex_loop bytes hi out ≢ panic
unfolding hex_loop
hex_loop-ne-panic [] hi out = λ e. cc
hex_loop-ne-panic (c ∷ bytes) hi out = elim (Bool-cases (is_separator c)) [
  | inl t ↦ rw (t, hex_loop) (hex_loop-ne-panic bytes hi out)
  | inr t ↦ elim (Option-cases (hex_val c)) [
    | inl n ↦ rw (t, hex_loop) (rw n (λ e. cc))
    | inr (v, n) ↦
        rw (t, hex_loop)
          (rw n (hex_loop-ne-panic bytes (add_digit hi v out).0 (add_digit hi v out).1))
  ]
]

whole_bytes-ne-panic : (found : Option ℕ × List ℕ) → whole_bytes found ≢ panic
unfolding whole_bytes
whole_bytes-ne-panic (some h, out) = λ e. cc
whole_bytes-ne-panic (none, []) = λ e. cc
whole_bytes-ne-panic (none, b ∷ out) = λ e. cc

parse_duid_hex-ne-panic : (s : Str) → parse_duid_hex s ≢ panic
unfolding parse_duid_hex
parse_duid_hex-ne-panic s =
    >>=-ne-panic (hex_loop s none []) _ (hex_loop-ne-panic s none [])
      (λ found e. whole_bytes-ne-panic found)

module _ (trim : Str → Str) (parse_ipv4 : Str → Option Ipv4Addr)
    (parse_ipv6 : Str → Option Ipv6Addr) (from_hex : Str → Option ℕ) where
  -- A pool of reservations.
  pub record IsReserved6 (p : V6Pool) : Type 0 where
    pub inv : Inv p
    pub permanent : HasNoExpiry (held p)

  insert_parsed-IsReserved6 :
      (p : V6Pool) (found : Outcome String (List ℕ)) (ip : Option Ipv6Addr)
      → found ≢ panic
      → IsReserved6 p
      → (q : V6Pool) × (Start.insert_parsed trim parse_ipv4 parse_ipv6 from_hex p found ip ≡ ok q)
        × IsReserved6 q
  insert_parsed-IsReserved6 p (ok []) (some ip) h v = (p, refl, v)
  insert_parsed-IsReserved6 p (ok []) none h v = (p, refl, v)
  insert_parsed-IsReserved6 p (ok (b ∷ duid)) none h v = (p, refl, v)
  insert_parsed-IsReserved6 p (err why) ip h v = (p, refl, v)
  insert_parsed-IsReserved6 p panic ip h v = absurd (h refl)
  insert_parsed-IsReserved6 p (ok (b ∷ duid)) (some ip) h v =
      let (q, e, u) = insert-Updates p v.inv ip (b ∷ duid) none in
      (
        q,
        e,
        record { inv = u.keeps; permanent = updated-HasNoExpiry p q ip (b ∷ duid) u v.permanent },
      )

  load_parts6-IsReserved6 :
      (p : V6Pool) (parts : List Str)
      → IsReserved6 p
      → (q : V6Pool) × (Start.load_parts6 trim parse_ipv4 parse_ipv6 from_hex p parts ≡ ok q)
        × IsReserved6 q
  unfolding Start.load_parts6
  load_parts6-IsReserved6 p [] v = (p, refl, v)
  load_parts6-IsReserved6 p (a ∷ []) v = (p, refl, v)
  load_parts6-IsReserved6 p (a ∷ b ∷ c ∷ parts) v = (p, refl, v)
  load_parts6-IsReserved6 p (duid_text ∷ ip_text ∷ []) v =
      insert_parsed-IsReserved6 p (parse_duid_hex (trim duid_text)) (parse_ipv6 (trim ip_text))
        (parse_duid_hex-ne-panic (trim duid_text)) v

  load_leases6-IsReserved6 :
      (p : V6Pool) (lines : List Str)
      → IsReserved6 p
      → (q : V6Pool) × (Start.load_leases6 trim parse_ipv4 parse_ipv6 from_hex p lines ≡ ok q)
        × IsReserved6 q
  unfolding Start.load_leases6
  load_leases6-IsReserved6 p [] v = (p, refl, v)
  load_leases6-IsReserved6 p (line ∷ lines) v =
      let (q, e, w) = load_parts6-IsReserved6 p (split 44 line) v in
      let (q', e', w') = load_leases6-IsReserved6 q lines w in (q', rw e e', w')

  -- If the configuration is valid then no line of the reservations file makes `serve_v6` panic,
  -- however malformed it is: the pool meets the invariant and its leases do not run out.
  pub start6-IsReserved6 :
      (c : Config) (lines : List Str)
      → IsValid c
      → (p : V6Pool) × (Start.start6 trim parse_ipv4 parse_ipv6 from_hex c lines ≡ ok p)
        × IsReserved6 p
  unfolding Start.start6
  start6-IsReserved6 c lines v =
      load_leases6-IsReserved6 (Pool.new c.ipv6_start c.ipv6_lease_num c.ipv6_lease_duration_secs)
        lines
        (record {
          inv = new-Inv _ _ _ (omega (arith, v.v6_range));
          permanent = λ a e r. absurd (none-ne-some e (sym (held-new _ _ _ a) ∙ r));
        })
