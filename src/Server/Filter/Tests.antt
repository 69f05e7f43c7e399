-- ===== src/Server/Filter/Tests.antt =====
-- src/server.rs, the option filter: runs, and its properties at a concrete input.
use rusty_dhcp.Base.{ℕ, ◌≡◌, refl, List, [], ◌∷◌, ◌++◌, ok}
use rusty_dhcp.Options.{MessageType, DhcpOption}
use rusty_dhcp.Options
use rusty_dhcp.Server.Filter
use rusty_dhcp.Server.Filter.{essentials, filter_options_by_req, filter_options_by_req_slow}
use rusty_dhcp.Server.Filter.Pick.{pick}
use rusty_dhcp.Server.Filter.Kept.{Keeps, filter_options_by_req-Keeps}
use rusty_dhcp.Server.Filter.Fast.{filter_options_by_req-slow}

abbrev ack_options : List DhcpOption
ack_options =
    DhcpOption.dhcp_message_type MessageType.ack
    ∷ DhcpOption.host_name (104 ∷ [])
    ∷ DhcpOption.server_identifier 1
    ∷ DhcpOption.subnet_mask 4294967040
    ∷ []

-- The client asks for the mask and for a code that no option has.
abbrev asked_for : List ℕ
asked_for = 1 ∷ 42 ∷ []

filter_options_by_req-slow_example :
    (filter_options_by_req ack_options asked_for ≡ filter_options_by_req_slow ack_options asked_for)
    × (filter_options_by_req_slow ack_options asked_for
        ≡ ok (pick (asked_for ++ essentials) ack_options))
filter_options_by_req-slow_example = filter_options_by_req-slow ack_options asked_for

filter_options_by_req-Keeps_example :
    (kept : List DhcpOption) × (filter_options_by_req ack_options asked_for ≡ ok kept)
    × Keeps ack_options asked_for kept
filter_options_by_req-Keeps_example = filter_options_by_req-Keeps ack_options asked_for

-- The mask comes first, then the type and the server; the name goes.
filter_run :
    filter_options_by_req_slow ack_options asked_for
    ≡ ok (
        DhcpOption.subnet_mask 4294967040
        ∷ DhcpOption.dhcp_message_type MessageType.ack
        ∷ DhcpOption.server_identifier 1
        ∷ [])
unfolding filter_options_by_req_slow Filter.slow_rounds Filter.position essentials Options.code
filter_run = refl
