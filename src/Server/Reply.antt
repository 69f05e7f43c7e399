-- ===== src/Server/Reply.antt =====
-- src/server.rs, `reply`: what a client can rely on in each reply.
use rusty_dhcp.Base.{
  ℕ, ◌≡◌, refl, true, false, List, [], ◌∷◌, ◌++◌, arith, All, Option, none, some, ok, ◌==◌, ==_self,
}
use rusty_dhcp.Packet.{Packet, option, message_type}
use rusty_dhcp.Packet.Lookup.{carries, Only, option-Only, message_type-Only}
use rusty_dhcp.Options.{Ipv4Addr, MessageType, DhcpOption, code}
use rusty_dhcp.Options.Codes
use rusty_dhcp.Server.{
  Server, reply_options, filter_requested, reply_with, reply_packet, for_this_server,
}
use rusty_dhcp.Server.Filter.{essentials}
use rusty_dhcp.Server.Filter.Pick.{pick}
use rusty_dhcp.Server.Filter.Kept.{contains, pick-carries, pick-All}
use rusty_dhcp.Server.Filter.Fast.{filter_options_by_req-pick}

-- The additional options carry neither code that `reply` adds, as its documentation asks.
abbrev pub IsAdditional : DhcpOption → Type 0
IsAdditional o =
    ((code o == Codes.dhcp_message_type) ≡ false) × ((code o == Codes.server_identifier) ≡ false)

contains-append :
    (c : ℕ) (rs more : List ℕ) → contains c more ≡ true → contains c (rs ++ more) ≡ true
contains-append c [] more h = h
contains-append c (r ∷ rs) more h = ground (arith, contains-append c rs more h)

-- The options of a reply, filtered or not.
pub filtered :
    (found : Option DhcpOption) (opts : List DhcpOption)
    → (kept : List DhcpOption) × (filter_requested found opts ≡ ok kept)
      × ((P : DhcpOption → Type 0) → All P opts → All P kept)
      × ((c : ℕ) → contains c essentials ≡ true → carries c opts ≡ true → carries c kept ≡ true)
unfolding filter_requested
filtered none opts = (opts, refl, λ P h. h, λ c e h. h)
filtered (some (DhcpOption.parameter_request_list prl)) opts =
    let rs = prl ++ essentials in
    (
      pick rs opts,
      filter_options_by_req-pick opts prl,
      λ P h. pick-All P rs opts h,
      λ c e h. pick-carries rs opts c (contains-append c prl essentials e) h,
    )
filtered (some o) opts = (opts, refl, λ P h. h, λ c e h. h)

-- The two options that `reply` adds are the only ones of their codes.
Only-dhcp_message_type :
    (m : MessageType) (opts : List DhcpOption)
    → All IsAdditional opts
    → Only Codes.dhcp_message_type (DhcpOption.dhcp_message_type m) opts
Only-dhcp_message_type m [] h = tt
Only-dhcp_message_type m (o ∷ opts) h =
    (λ e. ground (arith, h.0), Only-dhcp_message_type m opts h.1)

Only-server_identifier :
    (a : Ipv4Addr) (opts : List DhcpOption)
    → All IsAdditional opts
    → Only Codes.server_identifier (DhcpOption.server_identifier a) opts
Only-server_identifier a [] h = tt
Only-server_identifier a (o ∷ opts) h =
    (λ e. ground (arith, h.0), Only-server_identifier a opts h.1)

names_this :
    (s : Server) (p : Packet)
    → option p Codes.server_identifier ≡ some (DhcpOption.server_identifier s.server_ip)
    → for_this_server s p ≡ true
unfolding for_this_server
names_this s p h = rw (h, for_this_server) (==_self s.server_ip)

-- What every reply says, whatever options the client asked for.
pub record Answers (s : Server) (m : MessageType) (offer_ip : Ipv4Addr) (req p : Packet)
    : Type 0 where
  pub typed : message_type p ≡ ok m
  pub identified : for_this_server s p ≡ true
  pub marked_reply : p.reply ≡ true
  pub same_transaction : (p.xid ≡ req.xid) × (p.chaddr ≡ req.chaddr) × (p.giaddr ≡ req.giaddr)
  pub offered : p.yiaddr ≡ offer_ip
  pub nak_clears : m ≡ MessageType.nak → p.ciaddr ≡ 0

-- `reply` never panics while it builds its packet. If the additional options have neither code that
-- it adds, the packet is a reply of the given type that names this server, in the transaction of
-- the request, whatever options the client asked for.
pub reply_packet-Answers :
    (s : Server) (m : MessageType) (additional : List DhcpOption) (offer_ip : Ipv4Addr)
    (req : Packet)
    → All IsAdditional additional
    → (p : Packet) × (reply_packet s m additional offer_ip req ≡ ok p) × Answers s m offer_ip req p
unfolding reply_packet essentials carries code
reply_packet-Answers s m additional offer_ip req h =
    let opts = reply_options s m additional in
    let (kept, q, all, kept_one) = filtered (option req Codes.parameter_request_list) opts in
    let p : Packet = reply_with m offer_ip req kept in
    let id : option p Codes.server_identifier ≡ some (DhcpOption.server_identifier s.server_ip) =
      option-Only p Codes.server_identifier _
        (all _ ((λ e. cc), ((λ e. refl), Only-server_identifier s.server_ip additional h)))
        (kept_one Codes.server_identifier refl refl) in
    (
      p,
      rw q,
      record {
        typed =
            message_type-Only p m
              (all _ ((λ e. refl), ((λ e. cc), Only-dhcp_message_type m additional h)))
              (kept_one Codes.dhcp_message_type refl refl);
        identified = names_this s p id;
        marked_reply = refl;
        same_transaction = (refl, refl, refl);
        offered = refl;
        nak_clears = λ e. rw e refl;
      },
    )
