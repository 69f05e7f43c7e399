-- ===== src/Packet/RoundTrip.antt =====
-- src/packet.rs: what `Packet::encode` writes, `Packet::from` reads back.
mod Options
use rusty_dhcp.Base.{
  ℕ, ◌/◌, ◌%◌, ◌^◌, ◌≤◌, ◌<◌, ◌≡◌, refl, ap, ◌∙◌, bit_and, Bool, true, false, List, [], ◌∷◌, ◌++◌,
  arith, length, take, drop, get_or, ◌==◌, if◌then◌else◌, ok, ◌>>=◌, length-append, ◌≢◌, All,
}
use rusty_dhcp.Base.Bytes.{to_be, from_be, from_be-to_be}
use rusty_dhcp.Options.{octets, DhcpOption}
use rusty_dhcp.Packet.{
  Packet, wire_max, cookie, end, skip_end, decode_header, decode, encode, from, first_twelve, zeros,
}
use rusty_dhcp.Packet.Encode.{tlvs, fitting, header, wire, encode-wire}
use rusty_dhcp.Packet.Decode.{HasHeader, Reads, decode-Reads}
use mathlib.Core.List.{append_assoc, append-nil}
use rusty_dhcp.Packet.RoundTrip.Options.{take_front, drop_front, Reads-tlvs}
pub use rusty_dhcp.Packet.RoundTrip.Options.{
  IsUntyped, IsReadable, from_option-discriminant, decode_option-tlv,
}

-- A packet as the server builds it: each field is within its width and every option can be read.
pub record IsEncodable (p : Packet) : Type 0 where
  pub xid_fits : p.xid < 2 ^ 32
  pub secs_fits : p.secs < 2 ^ 16
  pub ciaddr_fits : p.ciaddr < 2 ^ 32
  pub yiaddr_fits : p.yiaddr < 2 ^ 32
  pub siaddr_fits : p.siaddr < 2 ^ 32
  pub giaddr_fits : p.giaddr < 2 ^ 32
  pub chaddr_six : length p.chaddr ≡ 6
  pub readable : All IsReadable p.options

-- The header without the cookie.
abbrev fields : Packet → List ℕ
fields p =
    ((((((first_twelve p ++ octets p.ciaddr) ++ octets p.yiaddr) ++ octets p.siaddr)
          ++ octets p.giaddr)
        ++ p.chaddr)
      ++ zeros)

reply_flag : (b : Bool) → ((if b then 2 else 1) == 2) ≡ b
reply_flag true = refl
reply_flag false = refl

broadcast_flag :
    (b : Bool) → (bit_and (from_be ((if b then 128 else 0) ∷ 0 ∷ [])) 128 == 128) ≡ false
unfolding from_be
broadcast_flag true = refl
broadcast_flag false = refl

decode_header-fields :
    (p : Packet) (os : List DhcpOption)
    → IsEncodable p
    → decode_header (fields p) os ≡ record p { broadcast = false; options = os }
unfolding decode_header first_twelve to_be from_be
decode_header-fields p os v = λ i. record {
  reply = reply_flag p.reply i;
  hops = p.hops;
  xid = xid' i;
  secs = secs' i;
  broadcast = broadcast_flag p.broadcast i;
  ciaddr = four p.ciaddr v.ciaddr_fits i;
  yiaddr = four p.yiaddr v.yiaddr_fits i;
  siaddr = four p.siaddr v.siaddr_fits i;
  giaddr = four p.giaddr v.giaddr_fits i;
  chaddr = six i;
  options = os;
}
  where
    xid' :
        from_be (
          (p.xid / 2 ^ 24 % 256)
          ∷ (p.xid / 2 ^ 16 % 256)
          ∷ (p.xid / 2 ^ 8 % 256)
          ∷ (p.xid % 256)
          ∷ [])
        ≡ p.xid
    xid' = omega (arith, v.xid_fits)

    secs' : from_be ((p.secs / 2 ^ 8 % 256) ∷ (p.secs % 256) ∷ []) ≡ p.secs
    secs' = omega (arith, v.secs_fits)

    four : (a : ℕ) → a < 2 ^ 32 → from_be (to_be 4 a) ≡ a
    four a h = from_be-to_be 4 a h

    six : take 6 (p.chaddr ++ zeros) ≡ p.chaddr
    six = take_front 6 p.chaddr zeros v.chaddr_six

-- A message, cut where `decode` cuts it.
wire-fields :
    (p : Packet) (more : List ℕ)
    → wire p ++ more ≡ fields p ++ (cookie ++ (tlvs (fitting 240 p.options) ++ (end ∷ more)))
unfolding wire header
wire-fields p more =
    append_assoc (header p ++ tlvs (fitting 240 p.options)) (end ∷ []) more
    ∙ append_assoc (header p) (tlvs (fitting 240 p.options)) (end ∷ more)
    ∙ append_assoc (fields p) cookie (tlvs (fitting 240 p.options) ++ (end ∷ more))

length-fields : (p : Packet) → length p.chaddr ≡ 6 → length (fields p) ≡ 236
unfolding first_twelve to_be zeros
length-fields p six = omega (arith, length-append p.chaddr zeros, six)

-- `decode` on 236 bytes of header, the cookie and options.
decode_framed :
    (hdr body left : List ℕ) (os : List DhcpOption)
    → length hdr ≡ 236
    → get_or hdr 2 0 ≡ 6
    → Reads body os left
    → decode (hdr ++ (cookie ++ body))
      ≡ (do input' ← skip_end left; ok (input', decode_header hdr os))
decode_framed hdr body left os size six d =
    decode-Reads {left = left} {os = os} headed (rw behind d)
    ∙ ap (λ x. skip_end left >>= λ input'. ok (input', decode_header x os)) front
  where
    front : take 236 (hdr ++ (cookie ++ body)) ≡ hdr
    front = take_front 236 hdr (cookie ++ body) size

    behind : drop 236 (hdr ++ (cookie ++ body)) ≡ cookie ++ body
    behind = drop_front 236 hdr (cookie ++ body) size

    headed : HasHeader (hdr ++ (cookie ++ body))
    headed = record {
      long = omega (arith, length-append hdr (cookie ++ body), size);
      hlen = rw front six;
      magic = rw behind;
    }

Reads-options :
    (os : List DhcpOption) (left : List ℕ)
    → All IsReadable os
    → os ≢ []
    → Reads (tlvs os ++ (end ∷ left)) os (end ∷ left)
Reads-options [] left a n = absurd (n refl)
Reads-options (o ∷ os) left a n = Reads-tlvs o os left a

hlen-fields : (p : Packet) → get_or (fields p) 2 0 ≡ 6
unfolding first_twelve
hlen-fields p = refl

-- If a packet has options, all of them fit and can be read, and its fields fit their widths, then
-- `decode` reads its message back, whatever bytes follow it, but for the broadcast flag, which is
-- read as clear.
pub decode-wire :
    (p : Packet) (more : List ℕ)
    → IsEncodable p
    → p.options ≢ []
    → fitting 240 p.options ≡ p.options
    → decode (wire p ++ more) ≡ ok (more, record p { broadcast = false })
unfolding skip_end
decode-wire p more v some_options fit =
    ap decode (wire-fields p more)
    ∙ ap (λ os. decode (fields p ++ (cookie ++ (tlvs os ++ (end ∷ more))))) fit
    ∙ decode_framed (fields p) _ (end ∷ more) p.options (length-fields p v.chaddr_six)
        (hlen-fields p) (Reads-options p.options more v.readable some_options)
    ∙ ap (λ x. ok (more, x)) (decode_header-fields p p.options v)

-- With a buffer of at least 300 bytes, a packet that has options, all of which fit and can be read,
-- and whose fields fit their widths, comes back from the bytes that `encode` sends as it was, but
-- for the broadcast flag, which is read as clear.
pub from-encode :
    (p : Packet) (buffer : List ℕ)
    → wire_max ≤ length buffer
    → IsEncodable p
    → p.options ≢ []
    → fitting 240 p.options ≡ p.options
    → (sent : List ℕ) × (left : List ℕ) × (encode p buffer ≡ ok (sent, left))
      × (from sent ≡ ok (record p { broadcast = false }))
unfolding from
from-encode p buffer room v some_options fit = (
  wire p,
  _,
  (encode-wire p buffer v.chaddr_six room).0,
  rw (← append-nil (wire p), decode-wire p [] v some_options fit),
)
