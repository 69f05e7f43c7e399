-- ===== src/Packet/Tests.antt =====
-- src/packet.rs: runs, and the properties of the codec at concrete inputs.
use mathlib.Core.Logic.{◌↔◌}
use rusty_dhcp.Base.{
  ℕ, ◌-◌, ◌≤◌, ◌≡◌, ◌≢◌, ◌⊎◌, inr, refl, List, [], ◌∷◌, ◌++◌, arith, true, false, length, drop,
  replicate, ok, panic,
}
use rusty_dhcp.Options
use rusty_dhcp.Base.Slices.{slice, skip}
use rusty_dhcp.Packet
use rusty_dhcp.Options.{MessageType, DhcpOption, to_raw, data_len}
use rusty_dhcp.Packet.{
  Packet, CustomErr, wire_max, pad, end, decode_option, at_end, decode_options, decode, from,
  encode, first_twelve, zeros, skip_end, decode_header,
}
use rusty_dhcp.Packet.Encode.{fitting, wire, encode-wire}
use rusty_dhcp.Packet.Decode.{Reads, HasHeader, area, decode_options-Reads, decode-panic}
use rusty_dhcp.Packet.RoundTrip.{IsEncodable, from-encode}

abbrev lease_time : DhcpOption
lease_time = DhcpOption.ip_address_lease_time 3600

abbrev offer : Packet
offer = record {
  reply = true;
  hops = 0;
  xid = 305419896;
  secs = 0;
  broadcast = true;
  ciaddr = 0;
  yiaddr = 3232235876;
  siaddr = 0;
  giaddr = 0;
  chaddr = 2 ∷ 0 ∷ 0 ∷ 0 ∷ 0 ∷ 1 ∷ [];
  options = DhcpOption.dhcp_message_type MessageType.offer ∷ lease_time ∷ [];
}

abbrev buffer : List ℕ
buffer = replicate 300 0

offer-IsEncodable : IsEncodable offer
offer-IsEncodable = record {
  xid_fits = omega arith;
  secs_fits = omega arith;
  ciaddr_fits = omega arith;
  yiaddr_fits = omega arith;
  siaddr_fits = omega arith;
  giaddr_fits = omega arith;
  chaddr_six = refl;
  readable = (tt, (omega arith, tt));
}

offer-fitting : fitting 240 offer.options ≡ offer.options
unfolding fitting data_len
offer-fitting = refl

offer_options : offer.options ≢ []
offer_options h = cc

encode-wire_example :
    (encode offer buffer
      ≡ ok (
        wire offer,
        wire offer ++ (replicate (wire_max - length (wire offer)) pad ++ drop wire_max buffer),
      ))
    × (length (wire offer) ≤ wire_max)
encode-wire_example = encode-wire offer buffer refl (omega arith)

from-encode_example :
    (sent : List ℕ) × (left : List ℕ) × (encode offer buffer ≡ ok (sent, left))
    × (from sent ≡ ok (record offer { broadcast = false }))
from-encode_example =
    from-encode offer buffer (omega arith) offer-IsEncodable offer_options offer-fitting

-- A message of type 1, and END.
abbrev discover_area : List ℕ
discover_area = 53 ∷ 1 ∷ 1 ∷ 255 ∷ []

decode_options-Reads_example :
    (left : List ℕ) × (os : List DhcpOption) × (decode_options 5 discover_area ≡ ok (left, os))
    × Reads discover_area os left
decode_options-Reads_example =
    decode_options-Reads 5 discover_area (omega arith) (unfold at_end in refl)

-- A datagram whose one option has no END behind it.
abbrev cut_off : List ℕ
cut_off = 1 ∷ 1 ∷ 6 ∷ (replicate 233 0 ++ (99 ∷ 130 ∷ 83 ∷ 99 ∷ 53 ∷ 1 ∷ 1 ∷ []))

decode-panic_example : (decode cut_off ≡ panic) ↔ (
    HasHeader cut_off
    × ((at_end (area cut_off) ≡ true) ⊎ ((os : List DhcpOption) × Reads (area cut_off) os [])))
decode-panic_example = decode-panic cut_off

cut_off-HasHeader : HasHeader cut_off
cut_off-HasHeader = record { long = omega arith; hlen = refl; magic = refl }

cut_off-Reads : Reads (area cut_off) (DhcpOption.dhcp_message_type MessageType.discover ∷ []) []
unfolding decode_option at_end Packet.decode_payload Packet.message_type_of Options.from_option
    slice skip
cut_off-Reads =
    Reads.more (DhcpOption.dhcp_message_type MessageType.discover) [] refl refl
      (Reads.stop CustomErr.invalid_hlen refl)

cut_off_panics : decode cut_off ≡ panic
cut_off_panics = (decode-panic cut_off).1 (cut_off-HasHeader, inr (_, cut_off-Reads))
