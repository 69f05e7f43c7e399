-- ===== src/Service6/Serves/Encode.antt =====
-- src/dhcpv6.rs: `encode` of a datagram never panics.
use rusty_dhcp.Base.{ℕ, ◌≢◌, List, [], ◌∷◌, arith, panic, >>=-ne-panic}
use rusty_dhcp.Dhcpv6.Codec.{Dhcpv6Option, encode_into}
use rusty_dhcp.Dhcpv6.Codec.Wire.{encode_into-to_raw}
use rusty_dhcp.Dhcpv6.Datagram.{Datagram, encode6, encode_options6}

encode_into-ne-panic : (o : Dhcpv6Option) (out : List ℕ) → encode_into o out ≢ panic
encode_into-ne-panic o out = rw (encode_into-to_raw o out) (λ h. ground arith)

encode_options6-ne-panic : (os : List Dhcpv6Option) (out : List ℕ) → encode_options6 os out ≢ panic
unfolding encode_options6
encode_options6-ne-panic [] out = λ e. cc
encode_options6-ne-panic (o ∷ os) out =
    >>=-ne-panic (encode_into o out) _ (encode_into-ne-panic o out)
      (λ out' e. encode_options6-ne-panic os out')

pub encode6-ne-panic : (p : Datagram) → encode6 p ≢ panic
unfolding encode6
encode6-ne-panic p = encode_options6-ne-panic p.options _
