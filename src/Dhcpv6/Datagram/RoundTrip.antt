-- ===== src/Dhcpv6/Datagram/RoundTrip.antt =====
-- src/dhcpv6.rs: what `Packet::encode` writes, `Packet::from` reads back.
use mathlib.Core.List.{append_assoc, append-nil}
use rusty_dhcp.Base.{
  ℕ, zero, suc, ◌+◌, ◌-◌, ◌/◌, ◌%◌, ◌^◌, ◌≤◌, ◌<◌, ◌≡◌, refl, sym, ap, ◌∙◌, false, List, [], ◌∷◌,
  ◌++◌, arith, length, length-append, drop, take-append, drop-append, ltb, le→ltb, All, ok,
  if_false,
}
use rusty_dhcp.Base.Bytes.{to_be, from_be, from_be-to_be}
use rusty_dhcp.Dhcpv6.Codec.{
  Dhcpv6Option, encode_into, to_raw6, MsgType, msg_type_number, msg_type_from,
}
use rusty_dhcp.Dhcpv6.Codec.Wire.{encode_into-to_raw}
use rusty_dhcp.Base.Slices.{value}
use rusty_dhcp.Dhcpv6.Datagram.Ranges.{decode_option6_lem, from6_lem}
use rusty_dhcp.Dhcpv6.Datagram.{
  decode_option6, Datagram, decode_options6, from6, encode_options6, encode6,
}
use rusty_dhcp.Dhcpv6.Datagram.Payload.{IsReadable6, decode_payload6-to_raw6, code_fits}

-- An option as it is sent: its code and its length in two bytes each, and its payload.
unfoldable pub tlv6 : Dhcpv6Option → List ℕ
tlv6 o = to_be 2 (to_raw6 o).code ++ (to_be 2 (length (to_raw6 o).bytes) ++ (to_raw6 o).bytes)

unfoldable pub tlvs6 : List Dhcpv6Option → List ℕ
tlvs6 [] = []
tlvs6 (o ∷ options) = tlv6 o ++ tlvs6 options

-- An option that can be read back, short enough for the length field.
abbrev pub IsSendable : Dhcpv6Option → Type 0
IsSendable o = IsReadable6 o × (length (to_raw6 o).bytes ≤ 65535)

encode_into-tlv6 :
    (o : Dhcpv6Option) (out : List ℕ)
    → length (to_raw6 o).bytes ≤ 65535
    → encode_into o out ≡ ok (out ++ tlv6 o)
unfolding tlv6
encode_into-tlv6 o out h =
    encode_into-to_raw o out
    ∙ if_false _ _ _ (le→ltb 65535 (length (to_raw6 o).bytes) h)
    ∙ ap (λ x. ok x) (simp append_assoc)

-- The four numbers that a decoder reads off, on any list that starts with two of two bytes.
module _ (c n : ℕ) (rest : List ℕ) where
  framed : List ℕ
  framed = to_be 2 c ++ (to_be 2 n ++ rest)

  number-code : c < 2 ^ 16 → value 0 2 framed ≡ c
  unfolding framed to_be
  number-code h = from_be-to_be 2 c h

  number-length : n < 2 ^ 16 → value 2 2 framed ≡ n
  unfolding framed to_be
  number-length h = from_be-to_be 2 n h

  drop-framed : (k : ℕ) → drop (4 + k) framed ≡ drop k rest
  unfolding framed to_be
  drop-framed k =
      let four : 4 + k ≡ suc (suc (suc (suc k))) = omega arith in ap (λ j. drop j framed) four

  drop_four : drop 4 framed ≡ rest
  unfolding framed to_be
  drop_four = refl

  length-framed : length framed ≡ 4 + length rest
  unfolding framed to_be
  length-framed = omega arith

-- One option, whatever follows it.
pub decode_option6-tlv6 :
    (o : Dhcpv6Option) (rest : List ℕ)
    → IsSendable o
    → decode_option6 (tlv6 o ++ rest) ≡ ok (rest, o)
unfolding tlv6
decode_option6-tlv6 o rest h =
    let bytes = (to_raw6 o).bytes in
    let c = (to_raw6 o).code in
    let n = length bytes in
    let whole : (to_be 2 c ++ (to_be 2 n ++ bytes)) ++ rest ≡ framed c n (bytes ++ rest) =
      unfold framed in
      append_assoc (to_be 2 c) (to_be 2 n ++ bytes) rest
      ∙ ap (to_be 2 c ++◌) (append_assoc (to_be 2 n) bytes rest) in
    let size = length-framed c n (bytes ++ rest) in
    let room : ltb (length (framed c n (bytes ++ rest))) 4 ≡ false =
      le→ltb _ 4 (omega (arith, size)) in
    let fits : ltb (length (framed c n (bytes ++ rest)) - 4) n ≡ false =
      le→ltb _ n (omega (arith, size, length-append bytes rest)) in
    rw (
      whole,
      decode_option6_lem (framed c n (bytes ++ rest)),
      room,
      number-length c n (bytes ++ rest) (omega (arith, h.1)),
      fits,
      number-code c n (bytes ++ rest) (code_fits o h.0),
      drop-framed c n (bytes ++ rest),
      drop_four c n (bytes ++ rest),
      take-append bytes rest,
      drop-append bytes rest,
      decode_payload6-to_raw6 o h.0,
    )

length-tlv6 : (o : Dhcpv6Option) → 4 ≤ length (tlv6 o)
unfolding tlv6 to_be
length-tlv6 o = omega arith

-- A round on bytes that are there.
decode_options6-suc :
    (fuel : ℕ) (rest next : List ℕ) (o : Dhcpv6Option) (options : List Dhcpv6Option)
    → decode_option6 rest ≡ ok (next, o)
    → 0 < length rest
    → decode_options6 fuel next ≡ ok options
    → decode_options6 (suc fuel) rest ≡ ok (o ∷ options)
unfolding decode_options6
decode_options6-suc fuel [] next o options e h r = absurd (omega arith)
decode_options6-suc fuel (b ∷ rest) next o options e h r = rw (e, r)

decode_options6-tlvs6 :
    (options : List Dhcpv6Option) (fuel : ℕ)
    → All IsSendable options
    → length (tlvs6 options) ≤ fuel
    → decode_options6 fuel (tlvs6 options) ≡ ok options
unfolding tlvs6
decode_options6-tlvs6 [] zero h f = unfold decode_options6 in refl
decode_options6-tlvs6 [] (suc fuel) h f = unfold decode_options6 in refl
decode_options6-tlvs6 (o ∷ options) zero h f =
    absurd (omega (arith, length-tlv6 o, length-append (tlv6 o) (tlvs6 options)))
decode_options6-tlvs6 (o ∷ options) (suc fuel) h f =
    let size = length-append (tlv6 o) (tlvs6 options) in
    let four = length-tlv6 o in
    decode_options6-suc fuel (tlv6 o ++ tlvs6 options) (tlvs6 options) o options
      (decode_option6-tlv6 o (tlvs6 options) h.0) (omega (arith, size, four))
      (decode_options6-tlvs6 options fuel h.1 (omega (arith, size, four)))

encode_options6-tlvs6 :
    (options : List Dhcpv6Option) (out : List ℕ)
    → All IsSendable options
    → encode_options6 options out ≡ ok (out ++ tlvs6 options)
unfolding encode_options6 tlvs6
encode_options6-tlvs6 [] out h = ap (λ x. ok x) (sym (append-nil out))
encode_options6-tlvs6 (o ∷ options) out h = rw (encode_into-tlv6 o out h.0.1) (
    encode_options6-tlvs6 options (out ++ tlv6 o) h.1
    ∙ ap (λ x. ok x) (append_assoc out (tlv6 o) (tlvs6 options)))

msg_type_from-number : (m : MsgType) → msg_type_from (msg_type_number m) ≡ ok m
unfolding msg_type_from msg_type_number
msg_type_from-number MsgType.solicit = refl
msg_type_from-number _ = refl

-- The four bytes in front of the options.
abbrev head6 : Datagram → List ℕ
head6 p =
    let tid = p.transaction_id % 2 ^ 24 in
    msg_type_number p.msg_type ∷ tid / 2 ^ 16 % 256 ∷ tid / 2 ^ 8 % 256 ∷ tid % 256 ∷ []

three_bytes :
    (x : ℕ)
    → x < 2 ^ 24
    → from_be ((x % 2 ^ 24 / 2 ^ 16 % 256) ∷ (x % 2 ^ 24 / 2 ^ 8 % 256) ∷ (x % 2 ^ 24 % 256) ∷ [])
      ≡ x
unfolding from_be
three_bytes x h = omega (arith, h)

from6-head :
    (p : Datagram) (bytes : List ℕ)
    → p.transaction_id < 2 ^ 24
    → decode_options6 (4 + length bytes) bytes ≡ ok p.options
    → from6 (head6 p ++ bytes) ≡ ok p
from6-head p bytes h r =
    let room : ltb (length (head6 p ++ bytes)) 4 ≡ false = le→ltb _ 4 (omega arith) in
    let fuel : length (head6 p ++ bytes) ≡ 4 + length bytes = omega arith in
    rw (from6_lem (head6 p ++ bytes), room, msg_type_from-number p.msg_type, fuel, r)
      (λ i. ok (record p { transaction_id = three_bytes p.transaction_id h i }))

-- A datagram whose options can be read back and are short enough, and whose transaction id has 24
-- bits, is encoded without an error, and comes back from the bytes as it was.
pub from6-encode6 :
    (p : Datagram)
    → p.transaction_id < 2 ^ 24
    → All IsSendable p.options
    → (bytes : List ℕ) × (encode6 p ≡ ok bytes) × (from6 bytes ≡ ok p)
unfolding encode6
from6-encode6 p h a = (
  head6 p ++ tlvs6 p.options,
  encode_options6-tlvs6 p.options (head6 p) a,
  from6-head p (tlvs6 p.options) h
      (decode_options6-tlvs6 p.options (4 + length (tlvs6 p.options)) a (omega arith)),
)
