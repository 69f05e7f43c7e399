-- ===== src/Packet/Decode/Loop.antt =====
-- src/packet.rs: what `decode_option` does on any bytes, and one round of the option loop of `decode`.
use rusty_dhcp.Base.{
  ℕ, sym, ◌∙◌, suc, ◌+◌, ◌≤◌, ◌≡◌, true, false, List, [], ◌∷◌, arith, length, take, ok, err, panic,
  length-drop, ◌↔◌, ◌≢◌,
}
use rusty_dhcp.Options.{DhcpOption}
use rusty_dhcp.Base.Slices.{slice, number}
use rusty_dhcp.Packet.Ranges.{decode_option_lem}
use rusty_dhcp.Packet.{
  CustomErr, decode_payload, decode_option, at_end, decode_options, message_type_of, ipv4_of,
  utf8_of, lease_time_of,
}

decode_payload-ne-panic : (c : ℕ) (bytes : List ℕ) → decode_payload c bytes ≢ panic
unfolding decode_payload ipv4_of utf8_of message_type_of lease_time_of number slice
decode_payload-ne-panic c [] = ground arith
decode_payload-ne-panic c (b ∷ bytes) = ground arith

-- A decoded option takes its code, its length byte and its payload off the input.
pub decode_option_takes :
    (input rest : List ℕ) (o : DhcpOption)
    → decode_option input ≡ ok (rest, o)
    → length rest + 2 ≤ length input
unfolding decode_option
decode_option_takes [] rest o h = cc
decode_option_takes (c ∷ []) rest o h = ground arith
decode_option_takes (c ∷ n ∷ body) rest o h =
    let e = sym (decode_option_lem c n body) ∙ h in ground (arith, length-drop n body, e)

-- `decode_option` panics on the END code, and on nothing else.
pub decode_option-panic : (input : List ℕ) → (decode_option input ≡ panic) ↔ (at_end input ≡ true)
unfolding decode_option at_end
decode_option-panic [] = (λ h. cc, λ h. cc)
decode_option-panic (c ∷ []) = (λ h. ground arith, λ h. ground arith)
decode_option-panic (c ∷ n ∷ body) =
    rw (decode_option_lem c n body)
      (λ h. ground (arith, decode_payload-ne-panic c (take n body)), λ h. ground arith)

-- What the option loop is meant to do with the bytes behind the cookie: options are taken off
-- one by one up to the END byte, or up to the first bytes that are no option.
pub data Reads : List ℕ → List DhcpOption → List ℕ → Type 0 where
  stop : {rest : List ℕ} (e : CustomErr) → decode_option rest ≡ err e → Reads rest [] rest
  last :
      {input rest : List ℕ} (o : DhcpOption)
      → decode_option input ≡ ok (rest, o)
      → at_end rest ≡ true
      → Reads input (o ∷ []) rest
  more :
      {input rest left : List ℕ} (o : DhcpOption) (os : List DhcpOption)
      → decode_option input ≡ ok (rest, o)
      → at_end rest ≡ false
      → Reads rest os left
      → Reads input (o ∷ os) left

-- One round of the loop, on each of its branches.
module _ (fuel : ℕ) (input : List ℕ) where
  pub loop_stops :
      (e : CustomErr)
      → decode_option input ≡ err e
      → decode_options (suc fuel) input ≡ ok (input, [])
  unfolding decode_options
  loop_stops e h = ground arith

  pub loop_ends :
      (rest : List ℕ) (o : DhcpOption)
      → decode_option input ≡ ok (rest, o)
      → at_end rest ≡ true
      → decode_options (suc fuel) input ≡ ok (rest, o ∷ [])
  unfolding decode_options
  loop_ends rest o h t = ground arith

  pub loop_goes_on :
      (rest left : List ℕ) (o : DhcpOption) (os : List DhcpOption)
      → decode_option input ≡ ok (rest, o)
      → at_end rest ≡ false
      → decode_options fuel rest ≡ ok (left, os)
      → decode_options (suc fuel) input ≡ ok (left, o ∷ os)
  unfolding decode_options
  loop_goes_on rest left o os h t r = ground arith

  pub loop_panics : at_end input ≡ true → decode_options (suc fuel) input ≡ panic
  unfolding decode_options
  loop_panics t = ground (arith, (decode_option-panic input).1 t)
