-- ===== src/Config/Parse/Keys.antt =====
-- src/config.rs: the keys of the settings and the words of a Boolean, as bytes.
use rusty_dhcp.Base.{[], ◌∷◌}
use rusty_dhcp.Options.{Str}

abbrev pub server_ip : Str
server_ip = 115 ∷ 101 ∷ 114 ∷ 118 ∷ 101 ∷ 114 ∷ 95 ∷ 105 ∷ 112 ∷ []

abbrev pub ip_start : Str
ip_start = 105 ∷ 112 ∷ 95 ∷ 115 ∷ 116 ∷ 97 ∷ 114 ∷ 116 ∷ []

abbrev pub lease_num : Str
lease_num = 108 ∷ 101 ∷ 97 ∷ 115 ∷ 101 ∷ 95 ∷ 110 ∷ 117 ∷ 109 ∷ []

abbrev pub subnet_mask : Str
subnet_mask = 115 ∷ 117 ∷ 98 ∷ 110 ∷ 101 ∷ 116 ∷ 95 ∷ 109 ∷ 97 ∷ 115 ∷ 107 ∷ []

abbrev pub router_ip : Str
router_ip = 114 ∷ 111 ∷ 117 ∷ 116 ∷ 101 ∷ 114 ∷ 95 ∷ 105 ∷ 112 ∷ []

abbrev pub dns_ips : Str
dns_ips = 100 ∷ 110 ∷ 115 ∷ 95 ∷ 105 ∷ 112 ∷ 115 ∷ []

abbrev pub enable_ntp : Str
enable_ntp = 101 ∷ 110 ∷ 97 ∷ 98 ∷ 108 ∷ 101 ∷ 95 ∷ 110 ∷ 116 ∷ 112 ∷ []

abbrev pub ntp_ips : Str
ntp_ips = 110 ∷ 116 ∷ 112 ∷ 95 ∷ 105 ∷ 112 ∷ 115 ∷ []

abbrev pub enable_rapid_commit : Str
enable_rapid_commit =
    101 ∷ 110 ∷ 97 ∷ 98 ∷ 108 ∷ 101 ∷ 95 ∷ 114 ∷ 97 ∷ 112 ∷ 105 ∷ 100 ∷ 95 ∷ 99 ∷ 111 ∷ 109 ∷ 109
    ∷ 105 ∷ 116 ∷ []

abbrev pub broadcast_ip : Str
broadcast_ip = 98 ∷ 114 ∷ 111 ∷ 97 ∷ 100 ∷ 99 ∷ 97 ∷ 115 ∷ 116 ∷ 95 ∷ 105 ∷ 112 ∷ []

abbrev pub extra_broadcast_ips : Str
extra_broadcast_ips =
    101 ∷ 120 ∷ 116 ∷ 114 ∷ 97 ∷ 95 ∷ 98 ∷ 114 ∷ 111 ∷ 97 ∷ 100 ∷ 99 ∷ 97 ∷ 115 ∷ 116 ∷ 95 ∷ 105
    ∷ 112 ∷ 115 ∷ []

abbrev pub lease_duration_secs : Str
lease_duration_secs =
    108 ∷ 101 ∷ 97 ∷ 115 ∷ 101 ∷ 95 ∷ 100 ∷ 117 ∷ 114 ∷ 97 ∷ 116 ∷ 105 ∷ 111 ∷ 110 ∷ 95 ∷ 115 ∷ 101
    ∷ 99 ∷ 115 ∷ []

abbrev pub leases_file : Str
leases_file = 108 ∷ 101 ∷ 97 ∷ 115 ∷ 101 ∷ 115 ∷ 95 ∷ 102 ∷ 105 ∷ 108 ∷ 101 ∷ []

abbrev pub listen_addr : Str
listen_addr = 108 ∷ 105 ∷ 115 ∷ 116 ∷ 101 ∷ 110 ∷ 95 ∷ 97 ∷ 100 ∷ 100 ∷ 114 ∷ []

abbrev pub enable_dhcpv6 : Str
enable_dhcpv6 = 101 ∷ 110 ∷ 97 ∷ 98 ∷ 108 ∷ 101 ∷ 95 ∷ 100 ∷ 104 ∷ 99 ∷ 112 ∷ 118 ∷ 54 ∷ []

abbrev pub server_duid : Str
server_duid = 115 ∷ 101 ∷ 114 ∷ 118 ∷ 101 ∷ 114 ∷ 95 ∷ 100 ∷ 117 ∷ 105 ∷ 100 ∷ []

abbrev pub ipv6_start : Str
ipv6_start = 105 ∷ 112 ∷ 118 ∷ 54 ∷ 95 ∷ 115 ∷ 116 ∷ 97 ∷ 114 ∷ 116 ∷ []

abbrev pub ipv6_lease_num : Str
ipv6_lease_num = 105 ∷ 112 ∷ 118 ∷ 54 ∷ 95 ∷ 108 ∷ 101 ∷ 97 ∷ 115 ∷ 101 ∷ 95 ∷ 110 ∷ 117 ∷ 109 ∷ []

abbrev pub ipv6_dns : Str
ipv6_dns = 105 ∷ 112 ∷ 118 ∷ 54 ∷ 95 ∷ 100 ∷ 110 ∷ 115 ∷ []

abbrev pub ipv6_lease_duration_secs : Str
ipv6_lease_duration_secs =
    105 ∷ 112 ∷ 118 ∷ 54 ∷ 95 ∷ 108 ∷ 101 ∷ 97 ∷ 115 ∷ 101 ∷ 95 ∷ 100 ∷ 117 ∷ 114 ∷ 97 ∷ 116 ∷ 105
    ∷ 111 ∷ 110 ∷ 95 ∷ 115 ∷ 101 ∷ 99 ∷ 115 ∷ []

abbrev pub leases_file_v6 : Str
leases_file_v6 = 108 ∷ 101 ∷ 97 ∷ 115 ∷ 101 ∷ 115 ∷ 95 ∷ 102 ∷ 105 ∷ 108 ∷ 101 ∷ 95 ∷ 118 ∷ 54 ∷ []

abbrev pub listen_addr_v6 : Str
listen_addr_v6 = 108 ∷ 105 ∷ 115 ∷ 116 ∷ 101 ∷ 110 ∷ 95 ∷ 97 ∷ 100 ∷ 100 ∷ 114 ∷ 95 ∷ 118 ∷ 54 ∷ []

abbrev pub word_true : Str
word_true = 116 ∷ 114 ∷ 117 ∷ 101 ∷ []

abbrev pub word_yes : Str
word_yes = 121 ∷ 101 ∷ 115 ∷ []

abbrev pub word_on : Str
word_on = 111 ∷ 110 ∷ []

abbrev pub word_one : Str
word_one = 49 ∷ []

abbrev pub word_false : Str
word_false = 102 ∷ 97 ∷ 108 ∷ 115 ∷ 101 ∷ []

abbrev pub word_no : Str
word_no = 110 ∷ 111 ∷ []

abbrev pub word_off : Str
word_off = 111 ∷ 102 ∷ 102 ∷ []

abbrev pub word_zero : Str
word_zero = 48 ∷ []
