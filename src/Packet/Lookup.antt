-- ===== src/Packet/Lookup.antt =====
-- src/packet.rs: `Packet::option` and `Packet::message_type`, where one option carries the code.
use rusty_dhcp.Base.{
  ℕ, ◌≡◌, refl, ap, inl, inr, Bool, true, false, ◌||◌, List, [], ◌∷◌, arith, All, some, ok,
  Bool-cases, ◌==◌,
}
use rusty_dhcp.Packet.{Packet, option, first_option, message_type, first_message_type}
use rusty_dhcp.Options.{MessageType, DhcpOption, RawDhcpOption, code}
use rusty_dhcp.Options.Codes

-- Whether an option carries a code.
unfoldable pub carries : ℕ → List DhcpOption → Bool
carries c [] = false
carries c (o ∷ opts) = code o == c || carries c opts

-- No other option than `o` carries the code.
abbrev pub Only : ℕ → DhcpOption → List DhcpOption → Type 0
Only c o opts = All (λ x. (code x == c) ≡ true → x ≡ o) opts

first_option-Only :
    (c : ℕ) (o : DhcpOption) (opts : List DhcpOption)
    → Only c o opts
    → carries c opts ≡ true
    → first_option opts c ≡ some o
unfolding first_option carries
first_option-Only c o [] h t = cc
first_option-Only c o (x ∷ opts) h t = elim (Bool-cases (code x == c)) [
  | inl e ↦ rw e (ap (λ y. some y) (h.0 e))
  | inr e ↦ rw e (first_option-Only c o opts h.1 (ground arith))
]

-- `option` returns the one option of its code.
pub option-Only :
    (p : Packet) (c : ℕ) (o : DhcpOption)
    → Only c o p.options
    → carries c p.options ≡ true
    → option p c ≡ some o
unfolding option
option-Only p c o h t = first_option-Only c o p.options h t

is_message :
    (m : MessageType) (r : RawDhcpOption)
    → DhcpOption.unrecognized r ≡ DhcpOption.dhcp_message_type m
    → ⊥
is_message m r e = cc

first_message_type-Only :
    (m : MessageType) (opts : List DhcpOption)
    → Only Codes.dhcp_message_type (DhcpOption.dhcp_message_type m) opts
    → carries Codes.dhcp_message_type opts ≡ true
    → first_message_type opts ≡ ok m
unfolding first_message_type carries code
first_message_type-Only m [] h t = cc
first_message_type-Only m (DhcpOption.dhcp_message_type k ∷ opts) h t =
    let same : DhcpOption.dhcp_message_type k ≡ DhcpOption.dhcp_message_type m = h.0 refl in cc
first_message_type-Only m (DhcpOption.unrecognized r ∷ opts) h t =
    elim (Bool-cases (r.code == Codes.dhcp_message_type)) [
      | inl e ↦ absurd (is_message m r (h.0 e))
      | inr e ↦ rw e (first_message_type-Only m opts h.1 (ground arith))
    ]
first_message_type-Only m (o ∷ opts) h t = first_message_type-Only m opts h.1 t

-- `message_type` returns the message of the one option of code 53.
pub message_type-Only :
    (p : Packet) (m : MessageType)
    → Only Codes.dhcp_message_type (DhcpOption.dhcp_message_type m) p.options
    → carries Codes.dhcp_message_type p.options ≡ true
    → message_type p ≡ ok m
unfolding message_type
message_type-Only p m h t = first_message_type-Only m p.options h t
