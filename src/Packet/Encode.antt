-- ===== src/Packet/Encode.antt =====
-- src/packet.rs: what `Packet::encode` puts on the wire.
mod Writes
use rusty_dhcp.Base.{
  ℕ, ◌+◌, ◌-◌, ◌%◌, ◌≤◌, ◌<◌, ◌≡◌, refl, sym, ap, ◌∙◌, true, false, List, [], ◌∷◌, ◌++◌, arith,
  length, drop, replicate, ltb, leb, if◌then◌else◌, ok, length-append, drop-drop, length-drop,
  Bool-cases, ltb→lt, inl, inr,
}
use rusty_dhcp.Base.Buffer.{overwrite-append}
use rusty_dhcp.Base.Bytes.{length-to_be}
use rusty_dhcp.Options.{octets, DhcpOption, data_len, to_raw}
use rusty_dhcp.Options.Wire.{code-to_raw, data_len-to_raw}
use rusty_dhcp.Packet.{
  Packet, wire_max, cookie, end, pad, put_option, encode_options, first_twelve, zeros,
  encode_header, encode,
}
use mathlib.Core.List.{append_assoc, append-nil}
use mathlib.Core.Path.{ap₂}
use rusty_dhcp.Packet.Encode.Writes.{write_slice, write_field, take_sent, fill_end}

-- The options that fit behind `n` bytes: up to the first that would reach the limit.
unfoldable pub fitting : ℕ → List DhcpOption → List DhcpOption
fitting n [] = []
fitting n (o ∷ os) =
    if ltb (n + 2 + data_len o) wire_max then o ∷ fitting (n + 2 + data_len o) os else []

-- An option as code, length and payload.
unfoldable pub tlv : DhcpOption → List ℕ
tlv o = (to_raw o).code ∷ length (to_raw o).payload ∷ (to_raw o).payload

unfoldable pub tlvs : List DhcpOption → List ℕ
tlvs [] = []
tlvs (o ∷ os) = tlv o ++ tlvs os

-- The fixed part of a packet: 236 bytes of BOOTP header and the cookie.
unfoldable pub header : Packet → List ℕ
header p =
    (((((((first_twelve p ++ octets p.ciaddr) ++ octets p.yiaddr) ++ octets p.siaddr)
            ++ octets p.giaddr)
          ++ p.chaddr)
        ++ zeros)
      ++ cookie)

-- The message of a packet.
unfoldable pub wire : Packet → List ℕ
wire p = (header p ++ tlvs (fitting 240 p.options)) ++ (end ∷ [])

put_option_behind :
    (o : DhcpOption) (n : ℕ) (front out : List ℕ)
    → length front ≡ n
    → data_len o < 256
    → 2 + data_len o ≤ length out
    → put_option o (data_len o) n (front ++ out)
      ≡ ok ((front ++ tlv o) ++ drop (length (tlv o)) out)
unfolding put_option tlv
put_option_behind o n front out e small h =
    rw (room, write_slice o n front out e h, code-to_raw o, size)
      (rw (← e) (
        ap (λ x. ok x)
          (overwrite-append front (tlv o) out
            ∙ sym (append_assoc front (tlv o) (drop (length (tlv o)) out)))))
  where
    room : leb (n + 2 + data_len o) (length (front ++ out)) ≡ true
    room = ground (arith, length-append front out)

    size : data_len o % 256 ≡ length (to_raw o).payload
    size = omega (arith, data_len-to_raw o)

length-tlv : (o : DhcpOption) → length (tlv o) ≡ 2 + data_len o
unfolding tlv
length-tlv o = omega (arith, data_len-to_raw o)

-- The loop appends the options that fit, if the buffer is long enough.
encode_options_behind :
    (os : List DhcpOption) (n : ℕ) (front out : List ℕ)
    → length front ≡ n
    → 240 ≤ n
    → n < wire_max
    → wire_max ≤ n + length out
    → (encode_options os n (front ++ out)
        ≡ ok (
          (front ++ tlvs (fitting n os)) ++ drop (length (tlvs (fitting n os))) out,
          n + length (tlvs (fitting n os)),
        ))
      × (n + length (tlvs (fitting n os)) < wire_max)
unfolding encode_options tlvs fitting
encode_options_behind [] n front out e low lt h =
    (ap₂ (λ x (k : ℕ). ok (x ++ out, k)) (sym (append-nil front)) (omega arith), omega arith)
encode_options_behind (o ∷ os) n front out e low lt h =
    elim (Bool-cases (ltb (n + 2 + data_len o) wire_max)) [
      | inl fits ↦
          let room : leb wire_max (n + 2 + data_len o) ≡ false = ground arith in
          let len = length-tlv o in
          let rest = fitting (n + 2 + data_len o) os in
          let (coded, short) =
            encode_options_behind os (n + 2 + data_len o) (front ++ tlv o)
              (drop (length (tlv o)) out) (omega (arith, length-append front (tlv o), len))
              (omega arith) (ltb→lt _ _ fits)
              (omega (arith, length-drop (length (tlv o)) out, len)) in
          rw
            (
              fits,
              room,
              put_option_behind o n front out e (omega (arith, ltb→lt _ _ fits))
                  (omega (arith, ltb→lt _ _ fits)),
            )
            (
              coded
                  ∙ ap₂ (λ x (k : ℕ). ok (x, k)) (simp (append_assoc, drop-drop, length-append))
                      (omega (arith, length-append (tlv o) (tlvs rest), len)),
              omega (arith, length-append (tlv o) (tlvs rest), len, short),
            )
      | inr full ↦
          let stop : leb wire_max (n + 2 + data_len o) ≡ true = ground arith in
          rw (stop, full)
            (
              ap₂ (λ x (k : ℕ). ok (x ++ out, k)) (sym (append-nil front)) (omega arith),
              omega arith,
            )
    ]

length-first_twelve : (p : Packet) → length (first_twelve p) ≡ 12
unfolding first_twelve
length-first_twelve p = refl

length-zeros : length zeros ≡ 202
unfolding zeros
length-zeros = refl

encode_header_lem :
    (p : Packet) (buffer : List ℕ)
    → length p.chaddr ≡ 6
    → 240 ≤ length buffer
    → (encode_header p buffer ≡ ok (header p ++ drop 240 buffer)) × (length (header p) ≡ 240)
unfolding encode_header header
encode_header_lem p b six room =
    let f1 = first_twelve p in
    let f2 = f1 ++ octets p.ciaddr in
    let f3 = f2 ++ octets p.yiaddr in
    let f4 = f3 ++ octets p.siaddr in
    let f5 = f4 ++ octets p.giaddr in
    let f6 = f5 ++ p.chaddr in
    let f7 = f6 ++ zeros in
    let (c1, l1) = write_field 0 12 [] f1 b refl (length-first_twelve p) (omega arith) in
    let (c2, l2) = write_field 12 4 f1 (octets p.ciaddr) b l1 (length-to_be 4 _) (omega arith) in
    let (c3, l3) = write_field 16 4 f2 (octets p.yiaddr) b l2 (length-to_be 4 _) (omega arith) in
    let (c4, l4) = write_field 20 4 f3 (octets p.siaddr) b l3 (length-to_be 4 _) (omega arith) in
    let (c5, l5) = write_field 24 4 f4 (octets p.giaddr) b l4 (length-to_be 4 _) (omega arith) in
    let (c6, l6) = write_field 28 6 f5 p.chaddr b l5 six (omega arith) in
    let (c7, l7) = write_field 34 202 f6 zeros b l6 length-zeros (omega arith) in
    let (c8, l8) = write_field 236 4 f7 cookie b l7 refl (omega arith) in
    (rw (c1, c2, c3, c4, c5, c6, c7) c8, l8)

-- With a six-byte hardware address and a buffer of at least 300 bytes `encode` never panics: it
-- returns the message, of at most 300 bytes, which is the header, the cookie, the options up to the
-- first that does not fit and END. The buffer holds it, zeros up to 300 bytes and the old rest.
pub encode-wire :
    (p : Packet) (buffer : List ℕ)
    → length p.chaddr ≡ 6
    → wire_max ≤ length buffer
    → (encode p buffer
        ≡ ok (
          wire p,
          wire p ++ (replicate (wire_max - length (wire p)) pad ++ drop wire_max buffer),
        ))
      × (length (wire p) ≤ wire_max)
unfolding encode wire
encode-wire p buffer six room =
    let hdr = header p in
    let opts = tlvs (fitting 240 p.options) in
    let n = 240 + length opts in
    let sent = (hdr ++ opts) ++ (end ∷ []) in
    let (headed, l) = encode_header_lem p buffer six (omega arith) in
    let (coded, short) =
      encode_options_behind p.options 240 hdr (drop 240 buffer) l (omega arith) (omega arith)
        (omega (arith, length-drop 240 buffer)) in
    let behind = drop (length opts) (drop 240 buffer) in
    let l2 : length (hdr ++ opts) ≡ n = omega (arith, length-append hdr opts, l) in
    let filled =
      fill_end n (hdr ++ opts) behind l2 short
        (omega (arith, length-drop (length opts) (drop 240 buffer), length-drop 240 buffer)) in
    let l3 : length sent ≡ n + 1 = omega (arith, length-append (hdr ++ opts) (end ∷ []), l2) in
    let whole : 240 + (length opts + (wire_max - n)) ≡ wire_max = omega (arith, short) in
    (
      rw (headed, coded)
          (take_sent (n + 1) sent _ _ filled l3
            ∙ ap₂ (λ k x. ok (sent, sent ++ (replicate k pad ++ x))) (omega (arith, l3))
                (drop-drop (wire_max - n) (length opts) (drop 240 buffer)
                  ∙ drop-drop (length opts + (wire_max - n)) 240 buffer
                  ∙ ap (λ k. drop k buffer) whole)),
      omega (arith, l3, short),
    )
