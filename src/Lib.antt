-- ===== src/Lib.antt =====
-- A verification library for rusty-DHCP, a DHCPv4 server with a DHCPv6 address pool.
--
-- The program has these parts. src/options.rs holds the DHCPv4 options and their two serialisations,
-- src/packet.rs the packet with its decoder and encoder, src/server.rs the receive loop, the replies
-- and where they go, and src/dhcpv6.rs a DHCPv6 codec and the allocator of one range of addresses.
-- src/main.rs joins them: `MyServer` is the lease table and the handler of the DHCPv4 service,
-- `serve_v6` the DHCPv6 service, and `main` starts both from the settings that src/config.rs holds.
-- The DHCPv4 server decodes each datagram with `Packet::from`, passes it to the handler, and the
-- handler answers with `Server::reply`, which filters the options, encodes the packet and sends it.
--
-- The files:
-- - Base: shared names, lists over native numbers, Boolean tests, `Outcome` for code that returns an
--   error or panics, big-endian bytes, UTF-8, slices that panic out of range, buffers that are
--   overwritten, hash maps as association lists and arrays of optional entries.
-- - Options: `DhcpOption`, `MessageType`, `data_len`, `write_data` and `to_raw`, with the code
--   constants in Options/Codes and the titles in Options/Title. Options/Wire compares the two
--   serialisations.
-- - Packet: `Packet`, `decode_option`, `decode`, `Packet::from`, `option`, `message_type` and `encode`.
--   Packet/Ranges shows that the guards of the decoder keep its slices in range. Packet/Encode has the
--   message that is sent, Packet/Decode the runs of the decoder and its panics, Packet/RoundTrip both
--   together, Packet/Lookup the lookups of an option.
-- - Server: `route_dests`, `send`, `reply`, `for_this_server` and the receive loop. Server/Filter is
--   `filter_options_by_req` with its slow twin; Server/Filter/Pick, Fast and Kept are its proofs.
--   Server/Route, Server/Reply and Server/Serve are those of the rest.
-- - Dhcpv6/Pool: `V6Pool`, field by field, with `insert`, `current_lease`, `discover`, `request` and
--   `release`. Dhcpv6/Pool/Invariant has the invariant and the map of entries that a pool stands for,
--   Update, Lease, Grant, Discover and Release one operation each, Exclusive the one address of a
--   client, Exchange a `discover` with the `request` after it, and History any sequence of calls.
-- - Dhcpv6/Codec: DHCPv6 message types and options with `encode_into`, `wire_len` and `to_raw` (here
--   `to_raw6` and `code6`), and the option codes in Dhcpv6/Codes. Dhcpv6/Codec/Wire compares the two
--   serialisations. Dhcpv6/Times is `default_t1_t2`.
-- - Dhcpv6/Datagram: `dhcpv6::Packet` (here `Datagram`) with `from`, `encode`, `option`,
--   `first_iana`, `client_iana`, `decode_option` and `decode_iana`; names that the DHCPv4 codec has
--   too end in 6. Ranges has its slices, Decode the totality of the decoder, Payload and RoundTrip
--   the way back from the bytes, Harvest the lookup in one pass.
-- - Leases: the fields of `MyServer` and `insert_lease`, `remove_lease`, `current_lease`,
--   `available_at`, `remember_hostname` and the search of the handler. Leases/Image and Leases/Writes
--   show the table to be a `V6Pool`, once its host names are forgotten, which carries the lemmas on
--   pools over; Leases/Table, Hostname and Search say what the operations do, and Leases/Settings
--   which fields they leave alone.
-- - Service: the handler, `handle_request`, branch by branch, with `reply` and `nak`. Service/Answers
--   describes each answer, Handlers shows that the code gives it, Effect what one packet can do to the
--   leases, and Run what all packets do, through the receive loop of Server. Service/Exchange is about
--   several packets: Handshake a Discover and a Request, Holder a lease among the packets of others,
--   Renewal the end of a lease. Service/Traffic, with Handled and Served, is about what is sent.
-- - Service6: `serve_v6` from its loop on, with `send_v6` and `send_v6_nodata`; Service6/Serves is what
--   it keeps.
-- - Config: `Config`, `defaults`, `validate` and `broadcasts`; Config/Valid has their properties,
--   Config/Duid is `parse_duid_hex` and the text of `chaddr`. Config/Parse is `parse` and `apply`, with
--   the keys in Config/Parse/Keys; Config/Parse/Settings has what `main` makes of the file.
-- - Start: the tables that `main` and `serve_v6` build from the settings and the files of reserved
--   addresses; Start/Reserved and Start/Reserved6 are their properties, Start/Services those of the
--   services from there on. Start/Main is `main` from the name of the configuration file on.
-- - Date: `ymd_from_days` and `utc_now_iso`, which date the log. Date/Calendar is the calendar, one day
--   after the other; Years, Months, Civil and Days compare the code with it, Count numbers its days, and
--   Text reads the text back. Base/Int has the signed integers.
--
-- Where a file of proofs has modules below it, such as Packet/Encode/Writes, Packet/Decode/Loop,
-- Packet/RoundTrip/Options, Server/Filter/Fast/Rounds, Dhcpv6/Pool/Update/Writes,
-- Dhcpv6/Datagram/Payload/Bytes and Service6/Serves/Encode, they have the lemmas that it applies.
--
-- An address is the number that its octets stand for, a `String` the bytes of its UTF-8, a slice the
-- list of its bytes. A method on a mutable object takes the object and returns the new one. An index
-- out of range, a failed assertion and an overflow that a checked build refuses are `panic`.
--
-- Fuel: the option loop of `decode` runs on one round more than there are bytes, which suffices since
-- each option takes two bytes at least. Those of the DHCPv6 decoder run on as many rounds as there are
-- bytes; each takes four at least. The searches for a free address run `count` or `lease_num` rounds,
-- as in the source. A number has at most 20 digits, as one of 64 bits does. All other loops go over a
-- list.
--
-- Parameters: the UDP socket (`send_to`, with its own state and error), what `recv_from` returns, the
-- clock (`Instant::now`), on a state shared with the socket, the text of a file by its name, and
-- functions of `str` such as `trim` and `parse`. Server takes the handler as a parameter too, which
-- Service provides. In Pool and Leases the time is an argument of each call that reads the clock.
--
-- Not modelled: sockets and threads stay outside, as do the log lines, but for the date, the addresses
-- and the hexadecimal text in them, and the texts of most errors. examples/bench.rs is a benchmark of
-- the library and holds no part of the program. Helpers that nothing calls (`be_u16`, `be_u32`, `take`,
-- `candidate`) and plain getters are left out.
pub mod Base
pub mod Options
pub mod Packet
pub mod Dhcpv6
pub mod Server
pub mod Leases
pub mod Service
pub mod Config
pub mod Service6
pub mod Start
pub mod Date
