-- ===== src/Dhcpv6/Datagram/Tests.antt =====
-- src/dhcpv6.rs: the properties of DHCPv6 datagrams at concrete inputs.
use rusty_dhcp.Base.{ℕ, ◌≡◌, ◌⊎◌, arith, List, [], ◌∷◌, ok, err}
use rusty_dhcp.Base.Bytes.{to_be}
use rusty_dhcp.Dhcpv6.Codec.{MsgType, DecodeError, Dhcpv6Option, to_raw6, extend_pieces}
use rusty_dhcp.Dhcpv6.Datagram.{Datagram, from6, encode6, client_iana, first_iana}
use rusty_dhcp.Dhcpv6.Datagram.Decode.{from6-total}
use rusty_dhcp.Dhcpv6.Datagram.RoundTrip.{from6-encode6}
use rusty_dhcp.Dhcpv6.Datagram.Harvest.{client_of, client_iana-first}

-- An IA_NA whose length field says more than there is.
abbrev cut_short : List ℕ
cut_short = 1 ∷ 0 ∷ 0 ∷ 7 ∷ 0 ∷ 3 ∷ 0 ∷ 12 ∷ 1 ∷ []

from6-total_example :
    ((p : Datagram) × (from6 cut_short ≡ ok p)) ⊎ ((e : DecodeError) × (from6 cut_short ≡ err e))
from6-total_example = from6-total cut_short

-- A Solicit of a client that wants an address.
abbrev solicit : Datagram
solicit = record {
  msg_type = MsgType.solicit;
  transaction_id = 70_000;
  options =
      Dhcpv6Option.client_id (1 ∷ 2 ∷ [])
      ∷ Dhcpv6Option.ia_na (record { iaid = 5; t1 = 0; t2 = 0; addrs = [] })
      ∷ [];
}

from6-encode6_example : (bytes : List ℕ) × (encode6 solicit ≡ ok bytes) × (from6 bytes ≡ ok solicit)
unfolding to_raw6 extend_pieces to_be
from6-encode6_example =
    from6-encode6 solicit (omega arith)
      ((tt, omega arith), (((omega arith, omega arith, omega arith, tt), omega arith), tt))

client_iana-first_example : client_iana solicit ≡ (client_of solicit.options, first_iana solicit)
client_iana-first_example = client_iana-first solicit
