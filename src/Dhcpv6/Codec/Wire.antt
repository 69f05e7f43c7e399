-- ===== src/Dhcpv6/Codec/Wire.antt =====
-- src/dhcpv6.rs: `encode_into` with `wire_len` writes the option that `to_raw` builds.
use mathlib.Core.List.{append_assoc, append-nil}
use rusty_dhcp.Base.{
  ℕ, ◌+◌, ◌-◌, ◌*◌, ◌≡◌, refl, sym, ap, ◌∙◌, List, [], ◌∷◌, ◌++◌, arith, length, length-append, ltb,
  if◌then◌else◌, ok, err,
}
use rusty_dhcp.Base.Bytes.{to_be, length-to_be}
use rusty_dhcp.Dhcpv6.Codes
use rusty_dhcp.Dhcpv6.Codec.{
  IaAddr, IaNa, Dhcpv6Option, EncodeError, code6, wire_len, extend_ips, iaaddr_sub, extend_subs,
  extend_pieces, write_payload, encode_into, to_raw6,
}

length-extend_ips : (ips out : List ℕ) → length (extend_ips ips out) ≡ length out + length ips * 16
unfolding extend_ips
length-extend_ips [] out = omega arith
length-extend_ips (ip ∷ ips) out = omega (
  arith,
  length-extend_ips ips (out ++ to_be 16 ip),
  length-append out (to_be 16 ip),
  length-to_be 16 ip,
)

extend_ips-append :
    (ips front out : List ℕ) → extend_ips ips (front ++ out) ≡ front ++ extend_ips ips out
unfolding extend_ips
extend_ips-append [] front out = refl
extend_ips-append (ip ∷ ips) front out =
    ap (extend_ips ips) (append_assoc front out (to_be 16 ip))
    ∙ extend_ips-append ips front (out ++ to_be 16 ip)

-- The array and the pieces are the same bytes.
pieces-sub :
    (a : IaAddr) (out : List ℕ)
    → (((((out ++ to_be 2 Codes.opt_iaaddr) ++ to_be 2 24) ++ to_be 16 a.addr)
          ++ to_be 4 a.preferred)
        ++ to_be 4 a.valid)
      ≡ out ++ iaaddr_sub a
unfolding iaaddr_sub
pieces-sub a out = simp append_assoc

pub extend_pieces-subs :
    (addrs : List IaAddr) (out : List ℕ) → extend_pieces addrs out ≡ extend_subs addrs out
unfolding extend_pieces extend_subs
extend_pieces-subs [] out = refl
extend_pieces-subs (a ∷ addrs) out =
    ap (extend_pieces addrs) (pieces-sub a out) ∙ extend_pieces-subs addrs (out ++ iaaddr_sub a)

extend_subs-append :
    (addrs : List IaAddr) (front out : List ℕ)
    → extend_subs addrs (front ++ out) ≡ front ++ extend_subs addrs out
unfolding extend_subs
extend_subs-append [] front out = refl
extend_subs-append (a ∷ addrs) front out =
    ap (extend_subs addrs) (append_assoc front out (iaaddr_sub a))
    ∙ extend_subs-append addrs front (out ++ iaaddr_sub a)

length-iaaddr_sub : (a : IaAddr) → length (iaaddr_sub a) ≡ 28
unfolding iaaddr_sub to_be
length-iaaddr_sub a = refl

length-extend_subs :
    (addrs : List IaAddr) (out : List ℕ)
    → length (extend_subs addrs out) ≡ length out + length addrs * 28
unfolding extend_subs
length-extend_subs [] out = omega arith
length-extend_subs (a ∷ addrs) out = omega (
  arith,
  length-extend_subs addrs (out ++ iaaddr_sub a),
  length-append out (iaaddr_sub a),
  length-iaaddr_sub a,
)

-- The twelve bytes before the bindings.
times : IaNa → List ℕ
times ia = (to_be 4 ia.iaid ++ to_be 4 ia.t1) ++ to_be 4 ia.t2

length-times : (ia : IaNa) → length (times ia) ≡ 12
unfolding times to_be
length-times ia = refl

wire_len-to_raw6 : (o : Dhcpv6Option) → wire_len o - 4 ≡ length (to_raw6 o).bytes
unfolding wire_len to_raw6 times
wire_len-to_raw6 (Dhcpv6Option.client_id d) = omega arith
wire_len-to_raw6 (Dhcpv6Option.server_id d) = omega arith
wire_len-to_raw6 (Dhcpv6Option.ia_na ia) = omega (
  arith,
  ap length (extend_pieces-subs ia.addrs (times ia)),
  length-extend_subs ia.addrs (times ia),
  length-times ia,
)
wire_len-to_raw6 (Dhcpv6Option.dns_servers a) = omega (arith, length-extend_ips a [])
wire_len-to_raw6 (Dhcpv6Option.status_code c m) =
    omega (arith, length-append (to_be 2 c) m, length-to_be 2 c)
wire_len-to_raw6 (Dhcpv6Option.unrecognized r) = omega arith

code6-to_raw6 : (o : Dhcpv6Option) → code6 o ≡ (to_raw6 o).code
unfolding code6 to_raw6
code6-to_raw6 (Dhcpv6Option.client_id d) = refl
code6-to_raw6 _ = refl

write_payload-to_raw6 :
    (o : Dhcpv6Option) (out : List ℕ) → write_payload o out ≡ out ++ (to_raw6 o).bytes
unfolding write_payload to_raw6 times
write_payload-to_raw6 (Dhcpv6Option.client_id d) out = refl
write_payload-to_raw6 (Dhcpv6Option.server_id d) out = refl
write_payload-to_raw6 (Dhcpv6Option.ia_na ia) out =
    ap (extend_subs ia.addrs) front
    ∙ extend_subs-append ia.addrs out (times ia)
    ∙ ap (out ++◌) (sym (extend_pieces-subs ia.addrs (times ia)))
  where
    front : ((out ++ to_be 4 ia.iaid) ++ to_be 4 ia.t1) ++ to_be 4 ia.t2 ≡ out ++ times ia
    front = simp append_assoc
write_payload-to_raw6 (Dhcpv6Option.dns_servers a) out =
    ap (extend_ips a) (sym (append-nil out)) ∙ extend_ips-append a out []
write_payload-to_raw6 (Dhcpv6Option.status_code c m) out = append_assoc out (to_be 2 c) m
write_payload-to_raw6 (Dhcpv6Option.unrecognized r) out = refl

-- `encode_into` refuses an option exactly if the payload that `to_raw` builds is longer than 65535
-- bytes; else it appends the code, the length of that payload, both in two bytes, and the payload.
pub encode_into-to_raw :
    (o : Dhcpv6Option) (out : List ℕ)
    → encode_into o out ≡ (
        if ltb 65535 (length (to_raw6 o).bytes)
        then err EncodeError.option_too_large
        else ok (
            ((out ++ to_be 2 (to_raw6 o).code) ++ to_be 2 (length (to_raw6 o).bytes))
            ++ (to_raw6 o).bytes))
unfolding encode_into
encode_into-to_raw o out =
    rw (write_payload-to_raw6 o ((out ++ to_be 2 (code6 o)) ++ to_be 2 (wire_len o - 4)))
      (rw (code6-to_raw6 o, wire_len-to_raw6 o))
