-- ===== src/Service/Exchange/Tests.antt =====
-- src/main.rs, the handler of `MyServer`: exchanges at concrete inputs.
use rusty_dhcp.Base.{
  ℕ, zero, suc, ◌≡◌, refl, sym, ap, subst, ◌∙◌, inl, inr, [], ◌∷◌, arith, true, false, none, some,
  Option-cases, ok, list_beq, nat_eq, bytes_eq,
}
use rusty_dhcp.Base.HashMap
use rusty_dhcp.Base.Slots.{entry_at}
use rusty_dhcp.Options.{Ipv4Addr, MessageType, DhcpOption, code}
use rusty_dhcp.Packet.{Packet, option, message_type}
use rusty_dhcp.Dhcpv6.Pool
use rusty_dhcp.Dhcpv6.Pool.{Entry, checked_add}
use rusty_dhcp.Dhcpv6.Pool.Invariant.{held_at, idx-some}
use rusty_dhcp.Dhcpv6.Pool.Update.{entry}
use rusty_dhcp.Dhcpv6.Pool.Exclusive.{OneLease}
use rusty_dhcp.Leases.{Mac, MyServer, in_pool}
use rusty_dhcp.Leases.Image.{entry_of, overflow_of, pool_of}
use rusty_dhcp.Leases.Table.{holds}
use rusty_dhcp.Leases.Search.{is_free}
use rusty_dhcp.Service.{handle_request, requested_ip, is_rapid}
use rusty_dhcp.Service.Tests.{
  alice, bob, send_to, send_to-IsSocket, tick, server, table, table-IsTable, packet, discover,
}
use rusty_dhcp.Service.Effect.{handle_request-Returns}
use rusty_dhcp.Service.Exchange.{Answered}
use rusty_dhcp.Service.Exchange.Handshake.{Asks, Leads, handshake-Leads}
use rusty_dhcp.Service.Exchange.Holder.{Others, Keeps, others-Answered}
use rusty_dhcp.Service.Exchange.Renewal.{Loses, handle_request-Loses}

-- The second slot is the only one that is taken.
second : (x e : Entry) (i : ℕ) → entry_at (none ∷ some x ∷ none ∷ []) i ≡ some e → (i ≡ 1) × (x ≡ e)
second x e zero h = cc
second x e (suc zero) h = (refl, cc)
second x e (suc (suc zero)) h = cc
second x e (suc (suc (suc i))) h = cc

only_alice :
    (a : Ipv4Addr) (e : Entry) → holds table a ≡ some e → (a ≡ 11) × (entry alice (some 50) ≡ e)
unfolding held_at entry_of overflow_of HashMap.get
only_alice a e h = elim (Option-cases (Pool.idx (pool_of table) a)) [
  | inl n ↦ let h' = rw n at h in cc
  | inr (i, s) ↦
      let (_, _, at_, _) = idx-some (pool_of table) a i s in
      let (one, same) = second (entry alice (some 50)) e i (rw s at h) in (omega arith, same)
]

table-OneLease : OneLease (pool_of table)
table-OneLease a b e f h k d = (only_alice a e h).0 ∙ sym (only_alice b f k).0

abbrev request : Mac → Ipv4Addr → Packet
request mac ip =
    packet mac
      (DhcpOption.dhcp_message_type MessageType.request ∷ DhcpOption.requested_ip_address ip ∷ [])

request-Asks : (mac : Mac) → Asks mac (request mac)
unfolding requested_ip option message_type code
request-Asks mac = record {
  same_client = λ ip. refl;
  is_request = λ ip. refl;
  asks_for = λ ip. refl;
}

discover-slow : is_rapid table discover ≡ false
unfolding is_rapid
discover-slow = refl

discover-message : message_type discover ≡ ok MessageType.discover
unfolding message_type
discover-message = refl

ten-free : is_free table bob 40 10 ≡ true
unfolding in_pool Pool.idx held_at entry_of overflow_of checked_add
ten-free = refl

-- `bob` asks for an address at 40 and takes the one offered at 45, when more has been sent.
handshake-Leads_example :
    Leads send_to tick server discover
      (request bob)
      (5, 45)
      (handle_request send_to tick (table, (0, 40)) server discover)
handshake-Leads_example =
    handshake-Leads send_to tick server discover (request bob) (5, 45) send_to-IsSocket refl
      (request-Asks bob) table table-IsTable (0, 40) 10 table-OneLease discover-message
      discover-slow ten-free (omega arith)

table-Keeps : Keeps send_to tick server alice 50 11 table
unfolding Pool.idx held_at entry_of overflow_of checked_add
table-Keeps = record { table = table-IsTable; one = table-OneLease; lease = refl }

-- The table after the Discover of `bob`.
after : (t : MyServer) × Others send_to tick server alice 50 table t
after =
    let (t, w, q, _, _) =
      handle_request-Returns send_to tick server discover table table-IsTable (0, 40)
        send_to-IsSocket refl in
    (t, Others.handled (0, 40) w discover Others.at_once refl refl (omega arith) q)

request-message :
    (mac : Mac) (ip : Ipv4Addr) → message_type (request mac ip) ≡ ok MessageType.request
request-message mac ip = (request-Asks mac).is_request ip

-- `alice` asks for another address, at 70.
others-Answered_example :
    Answered send_to tick server
      (request alice 12)
      MessageType.ack
      11
      (handle_request send_to tick (after.0, (5, 70)) server (request alice 12))
others-Answered_example =
    others-Answered send_to tick server send_to-IsSocket alice 50 11 table after.0 (5, 70)
      (request alice 12) table-Keeps after.1 refl refl (request-message alice 12)

bob-none : (a : Ipv4Addr) (e : Entry) → holds table a ≡ some e → alice ≡ e.duid
bob-none a e h = ap (λ x. x.duid) (only_alice a e h).1

-- `alice` renews at 45 the lease that ends at 50; at 60 `bob` gets the address.
handle_request-Loses_example :
    Loses send_to tick server
      (request alice 11)
      (request bob 11)
      11
      (5, 60)
      (handle_request send_to tick (table, (0, 45)) server (request alice 11))
unfolding in_pool
handle_request-Loses_example =
    handle_request-Loses send_to tick server send_to-IsSocket alice 50 11 table table-Keeps (0, 45)
      (5, 60) (request alice 11) (request bob 11) refl refl (request-message bob 11)
      ((request-Asks bob).asks_for 11) refl (omega arith)
      (λ a e h. subst (λ m. list_beq m bob ≡ false) (bob-none a e h) refl) refl
      (request-message alice 11)
