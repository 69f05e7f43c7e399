-- ===== src/Options/Tests.antt =====
-- src/options.rs: runs, and the properties of the options at concrete inputs.
use rusty_dhcp.Base.{◌≡◌, refl, [], ◌∷◌}
use rusty_dhcp.Options.{DhcpOption, to_raw}
use rusty_dhcp.Base.Bytes.{to_be}

abbrev two_routers : DhcpOption
two_routers = DhcpOption.router (3232235777 ∷ 3232235778 ∷ [])

routers_raw : (to_raw two_routers).payload ≡ 192 ∷ 168 ∷ 1 ∷ 1 ∷ 192 ∷ 168 ∷ 1 ∷ 2 ∷ []
unfolding to_raw to_be
routers_raw = refl
