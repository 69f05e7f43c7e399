-- ===== src/Dhcpv6/Datagram/Payload/Bytes.antt =====
-- src/dhcpv6.rs: the bytes of bindings and addresses decode to them, and the loops of the encoder
-- write them.
use mathlib.Core.List.{append_assoc, append-nil}
use rusty_dhcp.Base.{
  ℕ, zero, suc, ◌+◌, ◌-◌, ◌*◌, ◌^◌, ◌≤◌, ◌<◌, ◌≡◌, refl, sym, ap, ◌∙◌, false, List, [], ◌∷◌, ◌++◌,
  some, arith, length, length-append, take, drop, take-append, drop-append, ltb, le→ltb, All, ok,
}
use rusty_dhcp.Base.Bytes.{to_be, from_be, from_be-to_be, length-to_be}
use rusty_dhcp.Dhcpv6.Codec.{IaAddr, IaNa, extend_ips, iaaddr_sub, extend_subs}
use rusty_dhcp.Dhcpv6.Datagram.Ranges.{decode_sub_lem, decode_iana_lem}
use rusty_dhcp.Dhcpv6.Datagram.{decode_sub, decode_subs, decode_iana, decode_ips}

-- An address binding whose numbers fit.
abbrev pub IsBinding : IaAddr → Type 0
IsBinding a = (a.addr < 2 ^ 128) × (a.preferred < 2 ^ 32) × (a.valid < 2 ^ 32)

-- The bindings one after the other.
unfoldable pub subs : List IaAddr → List ℕ
subs [] = []
subs (a ∷ addrs) = iaaddr_sub a ++ subs addrs

two_bytes : (a b : ℕ) → from_be (a ∷ b ∷ []) ≡ a * 256 + b
unfolding from_be
two_bytes a b = omega arith

decode_sub-iaaddr_sub :
    (a : IaAddr) (rest : List ℕ)
    → IsBinding a
    → decode_sub (iaaddr_sub a ++ rest) ≡ ok (rest, some a)
unfolding iaaddr_sub to_be
decode_sub-iaaddr_sub a rest h =
    let room : ltb (length (iaaddr_sub a ++ rest)) 4 ≡ false = le→ltb _ 4 (omega arith) in
    let fits : ltb (length (iaaddr_sub a ++ rest) - 4) 24 ≡ false = le→ltb _ 24 (omega arith) in
    rw (decode_sub_lem (iaaddr_sub a ++ rest), room, two_bytes 0 24)
      (rw (fits, two_bytes 0 5)
        (λ i. ok (
          rest,
          some (record {
            addr = from_be-to_be 16 a.addr h.0 i;
            preferred = from_be-to_be 4 a.preferred h.1 i;
            valid = from_be-to_be 4 a.valid h.2 i;
          }),
        )))

length-iaaddr_sub : (a : IaAddr) → length (iaaddr_sub a) ≡ 28
unfolding iaaddr_sub to_be
length-iaaddr_sub a = refl

length-subs : (addrs : List IaAddr) → length (subs addrs) ≡ length addrs * 28
unfolding subs
length-subs [] = omega arith
length-subs (a ∷ addrs) =
    omega (arith, length-append (iaaddr_sub a) (subs addrs), length-iaaddr_sub a, length-subs addrs)

-- A round on bytes that are there.
decode_subs-suc :
    (fuel : ℕ) (rest next : List ℕ) (a : IaAddr) (addrs : List IaAddr)
    → decode_sub rest ≡ ok (next, some a)
    → 0 < length rest
    → decode_subs fuel next ≡ ok addrs
    → decode_subs (suc fuel) rest ≡ ok (a ∷ addrs)
unfolding decode_subs
decode_subs-suc fuel [] next a addrs e h r = absurd (omega arith)
decode_subs-suc fuel (b ∷ rest) next a addrs e h r = rw (e, r)

decode_subs-subs :
    (addrs : List IaAddr) (fuel : ℕ)
    → All IsBinding addrs
    → length addrs ≤ fuel
    → decode_subs fuel (subs addrs) ≡ ok addrs
unfolding subs
decode_subs-subs [] zero h f = unfold decode_subs in refl
decode_subs-subs [] (suc fuel) h f = unfold decode_subs in refl
decode_subs-subs (a ∷ addrs) zero h f = absurd (omega arith)
decode_subs-subs (a ∷ addrs) (suc fuel) h f =
    decode_subs-suc fuel (iaaddr_sub a ++ subs addrs) (subs addrs) a addrs
      (decode_sub-iaaddr_sub a (subs addrs) h.0)
      (omega (arith, length-append (iaaddr_sub a) (subs addrs), length-iaaddr_sub a))
      (decode_subs-subs addrs fuel h.1 (omega arith))

-- The payload of an IA_NA.
abbrev pub IsIaNa : IaNa → Type 0
IsIaNa ia = (ia.iaid < 2 ^ 32) × (ia.t1 < 2 ^ 32) × (ia.t2 < 2 ^ 32) × All IsBinding ia.addrs

abbrev pub iana_bytes : IaNa → List ℕ
iana_bytes ia = to_be 4 ia.iaid ++ (to_be 4 ia.t1 ++ (to_be 4 ia.t2 ++ subs ia.addrs))

pub decode_iana-bytes : (ia : IaNa) → IsIaNa ia → decode_iana (iana_bytes ia) ≡ ok ia
unfolding to_be
decode_iana-bytes ia h =
    let room : ltb (length (iana_bytes ia)) 12 ≡ false = le→ltb _ 12 (omega arith) in
    rw
      (
        decode_iana_lem (iana_bytes ia),
        room,
        decode_subs-subs ia.addrs (length (iana_bytes ia)) h.3
            (omega (arith, length-subs ia.addrs)),
      )
      (λ i. ok (record {
        iaid = from_be-to_be 4 ia.iaid h.0 i;
        t1 = from_be-to_be 4 ia.t1 h.1 i;
        t2 = from_be-to_be 4 ia.t2 h.2 i;
        addrs = ia.addrs;
      }))

-- The bytes of addresses.
unfoldable pub ips_bytes : List ℕ → List ℕ
ips_bytes [] = []
ips_bytes (ip ∷ ips) = to_be 16 ip ++ ips_bytes ips

pub length-ips_bytes : (ips : List ℕ) → length (ips_bytes ips) ≡ length ips * 16
unfolding ips_bytes
length-ips_bytes [] = omega arith
length-ips_bytes (ip ∷ ips) =
    omega
      (arith, length-append (to_be 16 ip) (ips_bytes ips), length-to_be 16 ip, length-ips_bytes ips)

pub front : (n x : ℕ) (rest : List ℕ) → take n (to_be n x ++ rest) ≡ to_be n x
front n x rest =
    ap (λ k. take k (to_be n x ++ rest)) (sym (length-to_be n x)) ∙ take-append (to_be n x) rest

pub behind : (n x : ℕ) (rest : List ℕ) → drop n (to_be n x ++ rest) ≡ rest
behind n x rest =
    ap (λ k. drop k (to_be n x ++ rest)) (sym (length-to_be n x)) ∙ drop-append (to_be n x) rest

pub decode_ips-bytes :
    (ips : List ℕ) → All (λ ip. ip < 2 ^ 128) ips → decode_ips (length ips) (ips_bytes ips) ≡ ips
unfolding decode_ips ips_bytes
decode_ips-bytes [] h = refl
decode_ips-bytes (ip ∷ ips) h = rw (
  front 16 ip (ips_bytes ips),
  behind 16 ip (ips_bytes ips),
  from_be-to_be 16 ip h.0,
  decode_ips-bytes ips h.1,
)

-- The loops of the encoder append.
pub extend_subs-subs :
    (addrs : List IaAddr) (out : List ℕ) → extend_subs addrs out ≡ out ++ subs addrs
unfolding extend_subs subs
extend_subs-subs [] out = sym (append-nil out)
extend_subs-subs (a ∷ addrs) out =
    extend_subs-subs addrs (out ++ iaaddr_sub a) ∙ append_assoc out (iaaddr_sub a) (subs addrs)

pub extend_ips-bytes : (ips out : List ℕ) → extend_ips ips out ≡ out ++ ips_bytes ips
unfolding extend_ips ips_bytes
extend_ips-bytes [] out = sym (append-nil out)
extend_ips-bytes (ip ∷ ips) out =
    extend_ips-bytes ips (out ++ to_be 16 ip) ∙ append_assoc out (to_be 16 ip) (ips_bytes ips)
