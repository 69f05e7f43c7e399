-- ===== src/Dhcpv6/Datagram/Decode.antt =====
-- src/dhcpv6.rs: the decoder of DHCPv6 returns a datagram or an error on any bytes.
use rusty_dhcp.Base.{
  ℕ, zero, suc, ◌+◌, ◌≤◌, ◌≢◌, ◌⊎◌, inl, inr, List, [], ◌∷◌, Option, arith, length, length-drop,
  take, drop, sym, ◌∙◌, ◌≡◌, ltb, ok, err, panic, Outcome-cases, >>=-ne-panic, Bool-cases, get_or,
}
use rusty_dhcp.Dhcpv6.Codec.{DecodeError, IaAddr, Dhcpv6Option, msg_type_from}
use rusty_dhcp.Dhcpv6.Datagram.{
  decode_sub, decode_subs, decode_iana, decode_payload6, decode_option6, decode_options6, from6,
  Datagram,
}
use rusty_dhcp.Base.Slices.{slice, skip, number, value}
use rusty_dhcp.Dhcpv6.Datagram.Ranges.{
  sub_of, decode_sub_lem, decode_iana_lem, decode_option6_lem, from6_lem,
}

-- A round of the loop of `decode_iana` takes four bytes at least.
decode_sub-takes :
    (rest next : List ℕ) (found : Option IaAddr)
    → decode_sub rest ≡ ok (next, found)
    → length next + 4 ≤ length rest
decode_sub-takes rest next found h =
    let e : sub_of rest ≡ ok (next, found) = sym (decode_sub_lem rest) ∙ h in
    ground (arith, length-drop (4 + value 2 2 rest) rest, e)

decode_sub-ne-panic : (rest : List ℕ) → decode_sub rest ≢ panic
decode_sub-ne-panic rest h =
    let e : sub_of rest ≡ panic = sym (decode_sub_lem rest) ∙ h in ground (arith, e)

decode_subs-ne-panic :
    (fuel : ℕ) (rest : List ℕ) → length rest ≤ fuel → decode_subs fuel rest ≢ panic
unfolding decode_subs
decode_subs-ne-panic zero [] h = λ e. cc
decode_subs-ne-panic (suc fuel) [] h = λ e. cc
decode_subs-ne-panic zero (b ∷ rest) h = absurd (omega arith)
decode_subs-ne-panic (suc fuel) (b ∷ rest) h =
    >>=-ne-panic (decode_sub (b ∷ rest)) _ (decode_sub-ne-panic (b ∷ rest)) (λ (next, found) e.
      let fewer = decode_sub-takes (b ∷ rest) next found e in
      >>=-ne-panic (decode_subs fuel next) _ (decode_subs-ne-panic fuel next (omega arith))
        (λ addrs q r. cc))

decode_iana-ne-panic : (bytes : List ℕ) → decode_iana bytes ≢ panic
decode_iana-ne-panic bytes = rw (decode_iana_lem bytes) (elim (Bool-cases (ltb (length bytes) 12)) [
  | inl t ↦ rw t (λ e. cc)
  | inr t ↦ rw t (
      >>=-ne-panic (decode_subs (length bytes) (drop 12 bytes)) _
        (decode_subs-ne-panic (length bytes) (drop 12 bytes) (omega (arith, length-drop 12 bytes)))
        (λ addrs q e. cc))
])

decode_payload6-ne-panic : (c : ℕ) (bytes : List ℕ) → decode_payload6 c bytes ≢ panic
unfolding decode_payload6 number slice skip
decode_payload6-ne-panic c bytes h = ground (arith, decode_iana-ne-panic bytes)

-- An option takes four bytes at least, or is refused.
decode_option6-takes :
    (input rest : List ℕ) (o : Dhcpv6Option)
    → decode_option6 input ≡ ok (rest, o)
    → length rest + 4 ≤ length input
decode_option6-takes input rest o h =
    let len = value 2 2 input in
    let e = sym (decode_option6_lem input) ∙ h in ground (arith, length-drop (4 + len) input, e)

decode_option6-ne-panic : (input : List ℕ) → decode_option6 input ≢ panic
decode_option6-ne-panic input h =
    let e = sym (decode_option6_lem input) ∙ h in
    ground
      (arith, e, decode_payload6-ne-panic (value 0 2 input) (take (value 2 2 input) (drop 4 input)))

decode_options6-ne-panic :
    (fuel : ℕ) (rest : List ℕ) → length rest ≤ fuel → decode_options6 fuel rest ≢ panic
unfolding decode_options6
decode_options6-ne-panic zero [] h = λ e. cc
decode_options6-ne-panic (suc fuel) [] h = λ e. cc
decode_options6-ne-panic zero (b ∷ rest) h = absurd (omega arith)
decode_options6-ne-panic (suc fuel) (b ∷ rest) h =
    >>=-ne-panic (decode_option6 (b ∷ rest)) _ (decode_option6-ne-panic (b ∷ rest)) (λ (next, o) e.
      let fewer = decode_option6-takes (b ∷ rest) next o e in
      >>=-ne-panic (decode_options6 fuel next) _ (decode_options6-ne-panic fuel next (omega arith))
        (λ options q r. cc))

msg_type_from-ne-panic : (v : ℕ) → msg_type_from v ≢ panic
unfolding msg_type_from
msg_type_from-ne-panic v h = ground arith

-- On any bytes the decoder of DHCPv6 returns a datagram or an error: it never panics, and its loops
-- end.
pub from6-total :
    (input : List ℕ)
    → ((p : Datagram) × (from6 input ≡ ok p)) ⊎ ((e : DecodeError) × (from6 input ≡ err e))
from6-total input = elim (Outcome-cases (from6 input)) [
  | inl r ↦ inl r
  | inr (inl r) ↦ inr r
  | inr (inr e) ↦ absurd (no_panic e)
]
  where
    no_panic : from6 input ≢ panic
    no_panic = rw (from6_lem input) (elim (Bool-cases (ltb (length input) 4)) [
      | inl t ↦ rw t (λ e. cc)
      | inr t ↦ rw t (
          >>=-ne-panic (msg_type_from (get_or input 0 0)) _
            (msg_type_from-ne-panic (get_or input 0 0))
            (λ m q.
              >>=-ne-panic (decode_options6 (length input) (drop 4 input)) _
                (decode_options6-ne-panic (length input) (drop 4 input)
                  (omega (arith, length-drop 4 input)))
                (λ options q r. cc)))
    ])
