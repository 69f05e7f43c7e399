-- ===== src/Dhcpv6/Codes.antt =====
-- src/dhcpv6.rs: the option codes of DHCPv6, with their titles.
use Prim.Native.String.{String}
use rusty_dhcp.Base.{ℕ, ◌==◌, Option, none, some, if◌then◌else◌}

abbrev pub opt_clientid : ℕ
opt_clientid = 1

abbrev pub opt_serverid : ℕ
opt_serverid = 2

abbrev pub opt_ia_na : ℕ
opt_ia_na = 3

abbrev pub opt_ia_ta : ℕ
opt_ia_ta = 4

abbrev pub opt_iaaddr : ℕ
opt_iaaddr = 5

abbrev pub opt_oro : ℕ
opt_oro = 6

abbrev pub opt_preference : ℕ
opt_preference = 7

abbrev pub opt_elapsed_time : ℕ
opt_elapsed_time = 8

abbrev pub opt_relay_msg : ℕ
opt_relay_msg = 9

abbrev pub opt_auth : ℕ
opt_auth = 11

abbrev pub opt_unicast : ℕ
opt_unicast = 12

abbrev pub opt_status_code : ℕ
opt_status_code = 13

abbrev pub opt_rapid_commit : ℕ
opt_rapid_commit = 14

abbrev pub opt_user_class : ℕ
opt_user_class = 15

abbrev pub opt_vendor_class : ℕ
opt_vendor_class = 16

abbrev pub opt_vendor_opts : ℕ
opt_vendor_opts = 17

abbrev pub opt_interface_id : ℕ
opt_interface_id = 18

abbrev pub opt_reconf_msg : ℕ
opt_reconf_msg = 19

abbrev pub opt_reconf_accept : ℕ
opt_reconf_accept = 20

abbrev pub opt_dns_servers : ℕ
opt_dns_servers = 23

abbrev pub opt_domain_list : ℕ
opt_domain_list = 24

abbrev pub opt_ia_pd : ℕ
opt_ia_pd = 25

abbrev pub opt_iaprefix : ℕ
opt_iaprefix = 26

unfoldable pub title : ℕ → Option String
title c =
    if c == opt_clientid
    then some "Client Identifier"
    else if c == opt_serverid
    then some "Server Identifier"
    else if c == opt_ia_na
    then some "Identity Association for Non-temporary Addresses"
    else if c == opt_ia_ta
    then some "Identity Association for Temporary Addresses"
    else if c == opt_iaaddr
    then some "IA Address"
    else if c == opt_oro
    then some "Option Request"
    else if c == opt_preference
    then some "Preference"
    else if c == opt_elapsed_time
    then some "Elapsed Time"
    else if c == opt_relay_msg
    then some "Relay Message"
    else if c == opt_auth
    then some "Authentication"
    else if c == opt_unicast
    then some "Server Unicast"
    else if c == opt_status_code
    then some "Status Code"
    else if c == opt_rapid_commit
    then some "Rapid Commit"
    else if c == opt_user_class
    then some "User Class"
    else if c == opt_vendor_class
    then some "Vendor Class"
    else if c == opt_vendor_opts
    then some "Vendor-specific Information"
    else if c == opt_interface_id
    then some "Interface-Id"
    else if c == opt_reconf_msg
    then some "Reconfigure Message"
    else if c == opt_reconf_accept
    then some "Reconfigure Accept"
    else if c == opt_dns_servers
    then some "DNS Recursive Name Server"
    else if c == opt_domain_list
    then some "Domain Search List"
    else if c == opt_ia_pd
    then some "Identity Association for Prefix Delegation"
    else if c == opt_iaprefix
    then some "IA Prefix"
    else none
