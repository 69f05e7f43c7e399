-- ===== src/Options/Codes.antt =====
-- The DHCP option codes of src/options.rs.
use Prim.Native.Nat.{ℕ}

abbrev pub subnet_mask : ℕ
subnet_mask = 1

abbrev pub time_offset : ℕ
time_offset = 2

abbrev pub router : ℕ
router = 3

abbrev pub time_server : ℕ
time_server = 4

abbrev pub name_server : ℕ
name_server = 5

abbrev pub domain_name_server : ℕ
domain_name_server = 6

abbrev pub log_server : ℕ
log_server = 7

abbrev pub cookie_server : ℕ
cookie_server = 8

abbrev pub lpr_server : ℕ
lpr_server = 9

abbrev pub impress_server : ℕ
impress_server = 10

abbrev pub resource_location_server : ℕ
resource_location_server = 11

abbrev pub host_name : ℕ
host_name = 12

abbrev pub boot_file_size : ℕ
boot_file_size = 13

abbrev pub merit_dump_file : ℕ
merit_dump_file = 14

abbrev pub domain_name : ℕ
domain_name = 15

abbrev pub swap_server : ℕ
swap_server = 16

abbrev pub root_path : ℕ
root_path = 17

abbrev pub extensions_path : ℕ
extensions_path = 18

abbrev pub ip_forwarding_enable_disable : ℕ
ip_forwarding_enable_disable = 19

abbrev pub non_local_source_routing_enable_disable : ℕ
non_local_source_routing_enable_disable = 20

abbrev pub policy_filter : ℕ
policy_filter = 21

abbrev pub maximum_datagram_reassembly_size : ℕ
maximum_datagram_reassembly_size = 22

abbrev pub default_ip_time_to_live : ℕ
default_ip_time_to_live = 23

abbrev pub path_mtu_aging_timeout : ℕ
path_mtu_aging_timeout = 24

abbrev pub path_mtu_plateau_table : ℕ
path_mtu_plateau_table = 25

abbrev pub interface_mtu : ℕ
interface_mtu = 26

abbrev pub all_subnets_are_local : ℕ
all_subnets_are_local = 27

abbrev pub broadcast_address : ℕ
broadcast_address = 28

abbrev pub perform_mask_discovery : ℕ
perform_mask_discovery = 29

abbrev pub mask_supplier : ℕ
mask_supplier = 30

abbrev pub perform_router_discovery : ℕ
perform_router_discovery = 31

abbrev pub router_solicitation_address : ℕ
router_solicitation_address = 32

abbrev pub static_route : ℕ
static_route = 33

abbrev pub trailer_encapsulation : ℕ
trailer_encapsulation = 34

abbrev pub arp_cache_timeout : ℕ
arp_cache_timeout = 35

abbrev pub ethernet_encapsulation : ℕ
ethernet_encapsulation = 36

abbrev pub tcp_default_ttl : ℕ
tcp_default_ttl = 37

abbrev pub tcp_keepalive_interval : ℕ
tcp_keepalive_interval = 38

abbrev pub tcp_keepalive_garbage : ℕ
tcp_keepalive_garbage = 39

abbrev pub network_information_service_domain : ℕ
network_information_service_domain = 40

abbrev pub network_information_servers : ℕ
network_information_servers = 41

abbrev pub network_time_protocol_servers : ℕ
network_time_protocol_servers = 42

abbrev pub vendor_specific_information : ℕ
vendor_specific_information = 43

abbrev pub netbios_over_tcpip_name_server : ℕ
netbios_over_tcpip_name_server = 44

abbrev pub netbios_over_tcpip_datagram_distribution_server : ℕ
netbios_over_tcpip_datagram_distribution_server = 45

abbrev pub netbios_over_tcpip_node_type : ℕ
netbios_over_tcpip_node_type = 46

abbrev pub netbios_over_tcpip_scope : ℕ
netbios_over_tcpip_scope = 47

abbrev pub xwindow_system_font_server : ℕ
xwindow_system_font_server = 48

abbrev pub xwindow_system_display_manager : ℕ
xwindow_system_display_manager = 49

abbrev pub network_information_serviceplus_domain : ℕ
network_information_serviceplus_domain = 64

abbrev pub network_information_serviceplus_servers : ℕ
network_information_serviceplus_servers = 65

abbrev pub mobile_ip_home_agent : ℕ
mobile_ip_home_agent = 68

abbrev pub simple_mail_transport_protocol : ℕ
simple_mail_transport_protocol = 69

abbrev pub post_office_protocol_server : ℕ
post_office_protocol_server = 70

abbrev pub network_news_transport_protocol : ℕ
network_news_transport_protocol = 71

abbrev pub default_world_wide_web_server : ℕ
default_world_wide_web_server = 72

abbrev pub default_finger_server : ℕ
default_finger_server = 73

abbrev pub default_internet_relay_chat_server : ℕ
default_internet_relay_chat_server = 74

abbrev pub streettalk_server : ℕ
streettalk_server = 75

abbrev pub streettalk_directory_assistance : ℕ
streettalk_directory_assistance = 76

abbrev pub relay_agent_information : ℕ
relay_agent_information = 82

abbrev pub requested_ip_address : ℕ
requested_ip_address = 50

abbrev pub ip_address_lease_time : ℕ
ip_address_lease_time = 51

abbrev pub overload : ℕ
overload = 52

abbrev pub dhcp_message_type : ℕ
dhcp_message_type = 53

abbrev pub server_identifier : ℕ
server_identifier = 54

abbrev pub parameter_request_list : ℕ
parameter_request_list = 55

abbrev pub message : ℕ
message = 56

abbrev pub maximum_dhcp_message_size : ℕ
maximum_dhcp_message_size = 57

abbrev pub renewal_time_value : ℕ
renewal_time_value = 58

abbrev pub rebinding_time_value : ℕ
rebinding_time_value = 59

abbrev pub vendor_class_identifier : ℕ
vendor_class_identifier = 60

abbrev pub client_identifier : ℕ
client_identifier = 61

abbrev pub tftp_server_name : ℕ
tftp_server_name = 66

abbrev pub bootfile_name : ℕ
bootfile_name = 67

abbrev pub user_class : ℕ
user_class = 77

abbrev pub rapid_commit : ℕ
rapid_commit = 80

abbrev pub client_architecture : ℕ
client_architecture = 93

abbrev pub tz_posix_string : ℕ
tz_posix_string = 100

abbrev pub tz_database_string : ℕ
tz_database_string = 101

abbrev pub classless_route_format : ℕ
classless_route_format = 121
