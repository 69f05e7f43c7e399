-- ===== src/Options/Wire.antt =====
-- src/options.rs: the two serialisations, `to_raw` and `data_len` with `write_data`, agree.
use rusty_dhcp.Base.{
  ℕ, ◌+◌, ◌*◌, ◌≤◌, ◌≡◌, refl, sym, ◌∙◌, List, [], ◌∷◌, ◌++◌, arith, length, length-append, drop,
  drop-drop, ok, length-drop,
}
use rusty_dhcp.Base.Bytes.{to_be, length-to_be}
use rusty_dhcp.Base.Buffer.{copy_to-append}
use rusty_dhcp.Options.{
  Ipv4Addr, octets, discriminant, DhcpOption, code, data_len, write_front, write_addrs, write_data,
  all_octets, to_raw,
}
use mathlib.Core.List.{append_assoc}

length-all_octets : (addrs : List Ipv4Addr) → length (all_octets addrs) ≡ length addrs * 4
unfolding all_octets
length-all_octets [] = omega arith
length-all_octets (a ∷ addrs) =
    omega (
      arith,
      length-append (octets a) (all_octets addrs),
      length-to_be 4 a,
      length-all_octets addrs,
    )

-- `data_len` is the length of the payload that `to_raw` builds.
pub data_len-to_raw : (o : DhcpOption) → data_len o ≡ length (to_raw o).payload
unfolding data_len to_raw
data_len-to_raw (DhcpOption.dhcp_message_type m) = refl
data_len-to_raw (DhcpOption.server_identifier a) = sym (length-to_be 4 a)
data_len-to_raw (DhcpOption.parameter_request_list p) = refl
data_len-to_raw (DhcpOption.requested_ip_address a) = sym (length-to_be 4 a)
data_len-to_raw (DhcpOption.host_name s) = refl
data_len-to_raw (DhcpOption.router addrs) = sym (length-all_octets addrs)
data_len-to_raw (DhcpOption.domain_name_server addrs) = sym (length-all_octets addrs)
data_len-to_raw (DhcpOption.ip_address_lease_time s) = sym (length-to_be 4 s)
data_len-to_raw (DhcpOption.subnet_mask a) = sym (length-to_be 4 a)
data_len-to_raw (DhcpOption.message s) = refl
data_len-to_raw (DhcpOption.unrecognized r) = refl

pub code-to_raw : (o : DhcpOption) → code o ≡ (to_raw o).code
unfolding code to_raw
code-to_raw (DhcpOption.dhcp_message_type m) = refl
code-to_raw _ = refl

write_front_fits {ℓ} :
    {E : Type ℓ} (bytes out : List ℕ) (n : ℕ)
    → length bytes ≡ n
    → n ≤ length out
    → write_front {E = E} bytes n out ≡ ok (bytes ++ drop n out, n)
write_front_fits {E} bytes out n e h = rw (copy_to-append {E = E} [] bytes out (omega arith)) (rw e)

-- The loop writes the octets one address after the other, behind what it has written.
write_addrs_fits {ℓ} :
    {E : Type ℓ} (addrs : List Ipv4Addr) (front out : List ℕ) (n : ℕ)
    → length front ≡ n
    → length addrs * 4 ≤ length out
    → write_addrs {E = E} n addrs (front ++ out)
      ≡ ok (front ++ (all_octets addrs ++ drop (length addrs * 4) out), n + length addrs * 4)
unfolding write_addrs all_octets
write_addrs_fits [] front out n e h = ground arith
write_addrs_fits {E} (a ∷ addrs) front out n e h =
    let four = length-to_be 4 a in
    let rest = drop (length (octets a)) out in
    rw (← e, copy_to-append {E = E} front (octets a) out (omega (arith, four)))
      (rw (← append_assoc front (octets a) rest) (
        write_addrs_fits addrs (front ++ octets a) rest (length front + 4)
          (omega (arith, length-append front (octets a), four))
          (omega (arith, length-drop (length (octets a)) out, four))
        ∙ simp (append_assoc, drop-drop, length-to_be) (ground arith)))

-- In a buffer that is long enough, `write_data` writes the payload of `to_raw` in front, leaves
-- the rest alone and returns the length.
pub write_data_fits {ℓ} :
    {E : Type ℓ} (o : DhcpOption) (out : List ℕ)
    → data_len o ≤ length out
    → write_data {E = E} o out ≡ ok ((to_raw o).payload ++ drop (data_len o) out, data_len o)
unfolding data_len to_raw write_data
write_data_fits (DhcpOption.dhcp_message_type m) out h =
    write_front_fits (discriminant m ∷ []) out 1 refl h
write_data_fits (DhcpOption.server_identifier a) out h =
    write_front_fits (octets a) out 4 (length-to_be 4 a) h
write_data_fits (DhcpOption.parameter_request_list p) out h = write_front_fits p out _ refl h
write_data_fits (DhcpOption.requested_ip_address a) out h =
    write_front_fits (octets a) out 4 (length-to_be 4 a) h
write_data_fits (DhcpOption.host_name s) out h = write_front_fits s out _ refl h
write_data_fits (DhcpOption.router addrs) out h =
    write_addrs_fits addrs [] out 0 refl h ∙ ground arith
write_data_fits (DhcpOption.domain_name_server addrs) out h =
    write_addrs_fits addrs [] out 0 refl h ∙ ground arith
write_data_fits (DhcpOption.ip_address_lease_time s) out h =
    write_front_fits (to_be 4 s) out 4 (length-to_be 4 s) h
write_data_fits (DhcpOption.subnet_mask a) out h =
    write_front_fits (octets a) out 4 (length-to_be 4 a) h
write_data_fits (DhcpOption.message s) out h = write_front_fits s out _ refl h
write_data_fits (DhcpOption.unrecognized r) out h = write_front_fits r.payload out _ refl h
