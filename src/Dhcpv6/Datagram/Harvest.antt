-- ===== src/Dhcpv6/Datagram/Harvest.antt =====
-- src/dhcpv6.rs: `client_iana` finds in one pass the first client DUID, and what `first_iana` finds.
use rusty_dhcp.Base.{ℕ, ◌≡◌, refl, List, [], ◌∷◌, Option, none, some, arith}
use rusty_dhcp.Dhcpv6.Codec.{IaNa, Dhcpv6Option}
use rusty_dhcp.Dhcpv6.Datagram.{Datagram, first_iana, iana_of, harvest, client_iana}

-- The first client DUID, wherever it stands.
unfoldable pub client_of : List Dhcpv6Option → Option (List ℕ)
client_of [] = none
client_of (Dhcpv6Option.client_id d ∷ options) = some d
client_of (o ∷ options) = client_of options

abbrev or_else {ℓ} : {A : Type ℓ} → Option A → Option A → Option A
or_else none y = y
or_else (some a) y = some a

harvest-first :
    (options : List Dhcpv6Option) (c : Option (List ℕ)) (ia : Option IaNa)
    → harvest options c ia ≡ (or_else c (client_of options), or_else ia (iana_of options))
unfolding harvest client_of iana_of
harvest-first [] c ia = ground arith
harvest-first (Dhcpv6Option.client_id d ∷ options) none none = harvest-first options (some d) none
harvest-first (Dhcpv6Option.client_id d ∷ options) none (some ia) = refl
harvest-first (Dhcpv6Option.ia_na a ∷ options) none none = harvest-first options none (some a)
harvest-first (Dhcpv6Option.ia_na a ∷ options) (some d) none = refl
harvest-first (o ∷ options) (some d) (some ia) = refl
harvest-first (o ∷ options) c ia = harvest-first options c ia

-- `client_iana` returns the first client DUID and the first IA_NA of the packet, in whichever order
-- they stand and whatever stands between them, each exactly if there is one.
pub client_iana-first : (p : Datagram) → client_iana p ≡ (client_of p.options, first_iana p)
client_iana-first p = harvest-first p.options none none
