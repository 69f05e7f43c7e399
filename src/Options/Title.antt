-- ===== src/Options/Title.antt =====
-- src/options.rs: the titles of the option codes.
use Prim.Native.String.{String}
use rusty_dhcp.Base.{ℕ, ◌==◌, Option, none, some, if◌then◌else◌}
use rusty_dhcp.Options.Codes

unfoldable pub title : ℕ → Option String
title c =
    if c == Codes.subnet_mask
    then some "Subnet Mask"
    else if c == Codes.time_offset
    then some "Time Offset"
    else if c == Codes.router
    then some "Router"
    else if c == Codes.time_server
    then some "Time Server"
    else if c == Codes.name_server
    then some "Name Server"
    else if c == Codes.domain_name_server
    then some "Domain Name Server"
    else if c == Codes.log_server
    then some "Log Server"
    else if c == Codes.cookie_server
    then some "Cookie Server"
    else if c == Codes.lpr_server
    then some "LPR Server"
    else if c == Codes.impress_server
    then some "Impress Server"
    else if c == Codes.resource_location_server
    then some "Resource Location Server"
    else if c == Codes.host_name
    then some "Host Name"
    else if c == Codes.boot_file_size
    then some "Boot File Size"
    else if c == Codes.merit_dump_file
    then some "Merit Dump File"
    else if c == Codes.domain_name
    then some "Domain Name"
    else if c == Codes.swap_server
    then some "Swap Server"
    else if c == Codes.root_path
    then some "Root Path"
    else if c == Codes.extensions_path
    then some "Extensions Path"
    else if c == Codes.ip_forwarding_enable_disable
    then some "IP Forwarding Enable/Disable"
    else if c == Codes.non_local_source_routing_enable_disable
    then some "Non-Local Source Routing Enable/Disable"
    else if c == Codes.policy_filter
    then some "Policy Filter"
    else if c == Codes.maximum_datagram_reassembly_size
    then some "Maximum Datagram Reassembly Size"
    else if c == Codes.default_ip_time_to_live
    then some "Default IP Time-to-live"
    else if c == Codes.path_mtu_aging_timeout
    then some "Path MTU Aging Timeout"
    else if c == Codes.path_mtu_plateau_table
    then some "Path MTU Plateau Table"
    else if c == Codes.interface_mtu
    then some "Interface MTU"
    else if c == Codes.all_subnets_are_local
    then some "All Subnets are Local"
    else if c == Codes.broadcast_address
    then some "Broadcast Address"
    else if c == Codes.perform_mask_discovery
    then some "Perform Mask Discovery"
    else if c == Codes.mask_supplier
    then some "Mask Supplier"
    else if c == Codes.perform_router_discovery
    then some "Perform Router Discovery"
    else if c == Codes.router_solicitation_address
    then some "Router Solicitation Address"
    else if c == Codes.static_route
    then some "Static Route"
    else if c == Codes.trailer_encapsulation
    then some "Trailer Encapsulation"
    else if c == Codes.arp_cache_timeout
    then some "ARP Cache Timeout"
    else if c == Codes.ethernet_encapsulation
    then some "Ethernet Encapsulation"
    else if c == Codes.tcp_default_ttl
    then some "TCP Default TTL"
    else if c == Codes.tcp_keepalive_interval
    then some "TCP Keepalive Interval"
    else if c == Codes.tcp_keepalive_garbage
    then some "TCP Keepalive Garbage"
    else if c == Codes.network_information_service_domain
    then some "Network Information Service Domain"
    else if c == Codes.network_information_servers
    then some "Network Information Servers"
    else if c == Codes.network_time_protocol_servers
    then some "Network Time Protocol Servers"
    else if c == Codes.vendor_specific_information
    then some "Vendor Specific Information"
    else if c == Codes.netbios_over_tcpip_name_server
    then some "NetBIOS over TCP/IP Name Server"
    else if c == Codes.netbios_over_tcpip_datagram_distribution_server
    then some "NetBIOS over TCP/IP Datagram Distribution Server"
    else if c == Codes.netbios_over_tcpip_node_type
    then some "NetBIOS over TCP/IP Node Type"
    else if c == Codes.netbios_over_tcpip_scope
    then some "NetBIOS over TCP/IP Scope"
    else if c == Codes.xwindow_system_font_server
    then some "X Window System Font Server"
    else if c == Codes.xwindow_system_display_manager
    then some "X Window System Display Manager"
    else if c == Codes.network_information_serviceplus_domain
    then some "Network Information Service+ Domain"
    else if c == Codes.network_information_serviceplus_servers
    then some "Network Information Service+ Servers"
    else if c == Codes.mobile_ip_home_agent
    then some "Mobile IP Home Agent"
    else if c == Codes.simple_mail_transport_protocol
    then some "Simple Mail Transport Protocol (SMTP) Server"
    else if c == Codes.post_office_protocol_server
    then some "Post Office Protocol (POP3) Server"
    else if c == Codes.network_news_transport_protocol
    then some "Network News Transport Protocol (NNTP) Server"
    else if c == Codes.default_world_wide_web_server
    then some "Default World Wide Web (WWW) Server"
    else if c == Codes.default_finger_server
    then some "Default Finger Server"
    else if c == Codes.default_internet_relay_chat_server
    then some "Default Internet Relay Chat (IRC) Server"
    else if c == Codes.streettalk_server
    then some "StreetTalk Server"
    else if c == Codes.streettalk_directory_assistance
    then some "StreetTalk Directory Assistance (STDA) Server"
    else if c == Codes.relay_agent_information
    then some "Relay Agent Information"
    else if c == Codes.requested_ip_address
    then some "Requested IP Address"
    else if c == Codes.ip_address_lease_time
    then some "IP Address Lease Time"
    else if c == Codes.overload
    then some "Overload"
    else if c == Codes.dhcp_message_type
    then some "DHCP Message Type"
    else if c == Codes.server_identifier
    then some "Server Identifier"
    else if c == Codes.parameter_request_list
    then some "Parameter Request List"
    else if c == Codes.message
    then some "Message"
    else if c == Codes.maximum_dhcp_message_size
    then some "Maximum DHCP Message Size"
    else if c == Codes.renewal_time_value
    then some "Renewal (T1) Time Value"
    else if c == Codes.rebinding_time_value
    then some "Rebinding (T2) Time Value"
    else if c == Codes.vendor_class_identifier
    then some "Vendor class identifier"
    else if c == Codes.client_identifier
    then some "Client-identifier"
    else if c == Codes.tftp_server_name
    then some "TFTP server name"
    else if c == Codes.bootfile_name
    then some "Bootfile name"
    else if c == Codes.user_class
    then some "User Class"
    else if c == Codes.rapid_commit
    then some "Rapid Commit"
    else if c == Codes.client_architecture
    then some "Client Architecture"
    else if c == Codes.tz_posix_string
    then some "TZ-POSIX String"
    else if c == Codes.tz_database_string
    then some "TZ-Database String"
    else if c == Codes.classless_route_format
    then some "Classless Route Format"
    else none
