-- ===== src/Start/Tests.antt =====
-- src/main.rs: the start of both services at concrete inputs.
use Prim.Native.String.{String}
use mathlib.Core.List.{append_assoc}
use rusty_dhcp.Base.{
  panics, panics-ne_panic, ◌≤◌, ◌++◌, ◌⊎◌, refl, ap, sym, subst, ◌∙◌, true, false, Bool, All,
  length, replicate, arith, Outcome, ℕ, ◌+◌, ◌-◌, ◌*◌, ◌≡◌, List, [], ◌∷◌, Option, none, some, ok,
  panic, ◌≢◌,
}
use rusty_dhcp.Options.{Str, Ipv4Addr, from_option}
use rusty_dhcp.Config.{defaults, broadcasts, validate}
use rusty_dhcp.Config.Valid.{defaults-IsValid}
use rusty_dhcp.Dhcpv6.Pool.{V6Pool}
use rusty_dhcp.Leases.{MyServer, Mac, available_at, in_pool}
use rusty_dhcp.Base.Split.{split, split_on}
use rusty_dhcp.Start.{initial, start, start6}
use rusty_dhcp.Start.Main.{
  v4_last, config, main, spawned, v4_last-in_pool, main_serves, spawned-Inv,
}
use rusty_dhcp.Config.Parse
use rusty_dhcp.Config.Parse.{StrApi}
use rusty_dhcp.Dhcpv6.Pool.{checked_add}
use rusty_dhcp.Config.Parse.Keys.{enable_dhcpv6}
use rusty_dhcp.Packet.Encode.{encode-wire}
use rusty_dhcp.Packet.Decode.{from-chaddr}
use rusty_dhcp.Leases.Settings.{settings}
use rusty_dhcp.Service.{handle_request}
use rusty_dhcp.Service.Traffic.{IsReply, IsKeptFrom}
use rusty_dhcp.Service.Traffic.Served.{receive_all_replies}
use rusty_dhcp.Start.Reserved.{initial_offer, initial-IsTable}
use rusty_dhcp.Base.Slices.{slice, skip}
use rusty_dhcp.Service.Run.{IsHarmless}
use rusty_dhcp.Packet.{
  Packet, from, decode, cookie, decode_options, decode_option, message_type_of, at_end,
}
use rusty_dhcp.Server.{Server, before_receipt, receive_all, IpAddr, SocketAddr, Sent, Received}
use rusty_dhcp.Service.Send.{IsSocket}
use rusty_dhcp.Leases.Table.{IsTable}
use rusty_dhcp.Dhcpv6.Pool.Invariant.{Inv}
use rusty_dhcp.Start.Reserved.{IsReserved, start-IsReserved}
use rusty_dhcp.Start.Reserved6.{IsReserved6, start6-IsReserved6}

-- A text without spaces, an address of two digits, and one hexadecimal digit below 10.
abbrev trim : Str → Str
trim text = text

abbrev parse_number : Str → Option ℕ
parse_number (a ∷ b ∷ []) = some ((a - 48) * 10 + (b - 48))
parse_number text = none

abbrev from_hex : Str → Option ℕ
from_hex (a ∷ []) = some (a - 48)
from_hex text = none

-- "2:0:0:0:0:1,10", and a line of one part.
abbrev lines : List Str
lines = (50 ∷ 58 ∷ 48 ∷ 58 ∷ 48 ∷ 58 ∷ 48 ∷ 58 ∷ 48 ∷ 58 ∷ 49 ∷ 44 ∷ 49 ∷ 48 ∷ []) ∷ (50 ∷ []) ∷ []

start-IsReserved_example :
    (s : MyServer) × (start trim parse_number parse_number from_hex defaults lines ≡ ok s)
    × IsReserved trim parse_number parse_number from_hex s
    × ((mac : Mac) (a : Ipv4Addr) (now : ℕ) → available_at s mac a now ≡ ok (in_pool s a))
unfolding split split_on
start-IsReserved_example =
    start-IsReserved trim parse_number parse_number from_hex defaults lines defaults-IsValid
      ((λ six e. cc), (tt, tt))

-- "0a1,10", whose DUID has an odd digit, and "0a1b,10".
abbrev lines6 : List Str
lines6 = (48 ∷ 97 ∷ 49 ∷ 44 ∷ 49 ∷ 48 ∷ []) ∷ (48 ∷ 97 ∷ 49 ∷ 98 ∷ 44 ∷ 49 ∷ 48 ∷ []) ∷ []

start6-IsReserved6_example :
    (p : V6Pool) × (start6 trim parse_number parse_number from_hex defaults lines6 ≡ ok p)
    × IsReserved6 trim parse_number parse_number from_hex p
start6-IsReserved6_example =
    start6-IsReserved6 trim parse_number parse_number from_hex defaults lines6 defaults-IsValid

-- A socket that keeps what it sends, and a clock that stands still.
abbrev World : Type 0
World = List (List ℕ)

abbrev send_to : World → List ℕ → SocketAddr → Sent World String
send_to w bytes dst = Sent.sent (bytes ∷ w) 0

send_to-IsSocket : IsSocket send_to
send_to-IsSocket w bytes dst = λ e. cc

abbrev still : World → World × ℕ
still w = (w, 40)

-- A Discover of the hardware address of zeros.
abbrev discover_bytes : List ℕ
discover_bytes = 1 ∷ 1 ∷ 6 ∷ (replicate 233 0 ++ (cookie ++ (53 ∷ 1 ∷ 1 ∷ 255 ∷ [])))

-- Three bytes, which do not decode, a Discover, and an error.
abbrev events : List (Received String)
events =
    Received.datagram (1 ∷ 2 ∷ 3 ∷ []) (record { ip = IpAddr.v4 5; port = 68 })
    ∷ Received.datagram discover_bytes (record { ip = IpAddr.v4 0; port = 68 })
    ∷ Received.no_datagram "closed"
    ∷ []

-- A Solicit, a datagram that is cut short, and an error.
abbrev events6 : List (Received String)
events6 =
    Received.datagram (1 ∷ 0 ∷ 0 ∷ 7 ∷ 0 ∷ 1 ∷ 0 ∷ 2 ∷ 4 ∷ 4 ∷ [])
      (record { ip = IpAddr.v6 5; port = 546 })
    ∷ Received.datagram (1 ∷ 0 ∷ 0 ∷ 7 ∷ 0 ∷ []) (record { ip = IpAddr.v6 5; port = 546 })
    ∷ Received.no_datagram "closed"
    ∷ []

three_bytes : from (1 ∷ 2 ∷ 3 ∷ []) ≢ panic
unfolding from decode
three_bytes = λ e. cc

discover_decodes : panics (from discover_bytes) ≡ false
unfolding from decode decode_options decode_option message_type_of from_option at_end slice skip
discover_decodes = refl

harmless : All IsHarmless events
harmless = (three_bytes, (panics-ne_panic (from discover_bytes) discover_decodes, (tt, tt)))

-- No message is longer than 300 bytes.
abbrev Short : List (Received String) → World → Type 0
Short left w = All (λ bytes. length bytes ≤ 300) w

Short-kept : (server : Server) → IsKeptFrom send_to Short server
Short-kept server bytes src rest req e w sent_ dst r p =
    let six = from-chaddr bytes req e in
    let same : length r.packet.chaddr ≡ 6 = ap length r.answers.same_transaction.1 ∙ six in
    let bound = (encode-wire r.packet (replicate 300 0) same (omega arith)).1 in
    (subst (λ b. length b ≤ 300) (sym r.encoded) bound, p)

-- The server of the settings that are built in.
abbrev at_start : Server
at_start = before_receipt defaults.server_ip (broadcasts defaults)

-- The message is a reply of this server to a packet among those received, with what came before it
-- and after it.
abbrev AnswersSome : List ℕ → Type 0
AnswersSome m =
    (done : List (Received String)) × (rest : List (Received String)) × (bytes : List ℕ)
    × (src : SocketAddr) × (req : Packet) × (dst : SocketAddr) × (done
          ++ (Received.datagram bytes src ∷ rest)
        ≡ events)
    × (from bytes ≡ ok req)
    × IsReply (record at_start { src = src }) req m dst

-- What is to come is the end of what is received, and each message is such a reply.
abbrev Replied : List (Received String) → World → Type 0
Replied left w = ((done : List (Received String)) × (done ++ left ≡ events)) × All AnswersSome w

Replied-next :
    (e : Received String) (left : List (Received String)) (w : World)
    → Replied (e ∷ left) w
    → Replied left w
Replied-next e left w ((done, h), a) = ((done ++ (e ∷ []), append_assoc done (e ∷ []) left ∙ h), a)

Replied-kept : IsKeptFrom send_to Replied at_start
Replied-kept bytes src rest req e w m dst r ((done, h), a) =
    ((done, h), ((done, rest, bytes, src, req, dst, h, e, r), a))

receive_all_replies_example :
    (why : Option String) × (t : MyServer) × (w : World) × (receive_all
        (handle_request send_to still)
        at_start
        (initial defaults, [])
        events
      ≡ ok (why, (t, w)))
    × Replied [] w
    × IsTable t
    × (settings t ≡ settings (initial defaults))
receive_all_replies_example =
    receive_all_replies send_to still send_to-IsSocket Replied (λ left w p. p) Replied-next at_start
      (initial defaults) [] events Replied-kept (initial-IsTable defaults defaults-IsValid)
      (initial_offer defaults) harmless (([], refl), tt)

-- Texts of one line, as above; the only file is one of two lines.
abbrev plain : StrApi
plain = record {
  lines = λ text. text ∷ [];
  trim = trim;
  trim_end = trim;
  to_lowercase = trim;
  parse_ipv4 = parse_number;
  parse_ipv6 = parse_number;
  parse_u32 = parse_number;
  parse_u64 = parse_number;
  parse_socket = λ text. none;
}

-- "enable_dhcpv6=1"
abbrev dhcp_conf : Str
dhcp_conf = enable_dhcpv6 ++ (61 ∷ 49 ∷ [])

abbrev read_to_string : Str → Option Str
read_to_string name = some dhcp_conf

abbrev read_lines : Str → List Str
read_lines name = lines

abbrev served : Server
served =
    let c = config plain from_hex read_to_string read_lines in
    before_receipt c.server_ip (broadcasts c)

main_serves_example :
    (why : Option String) × (s : MyServer) × (w : World) × (main plain from_hex read_to_string
        read_lines send_to still [] events
      ≡ ok (why, (s, w)))
    × IsTable s
    × Short [] w
unfolding split split_on
main_serves_example =
    main_serves plain from_hex read_to_string read_lines send_to still Short send_to-IsSocket
      (λ left w p. p) (λ e left w p. p) (Short-kept served) [] events ((λ six e. cc), (tt, tt))
      harmless tt

-- The configuration file turns the DHCPv6 service on.
enabled : (config plain from_hex read_to_string read_lines).enable_dhcpv6 ≡ true
unfolding config Parse.settings Parse.parse Parse.apply_lines Parse.apply_line Parse.is_blank
    Parse.split_at_eq Parse.strip_comment Parse.before_space_hash Parse.before_tab_hash Parse.apply
    Parse.parse_bool validate Parse.starts_with checked_add defaults
enabled = refl

v4_last-in_pool_example :
    (v4_last defaults ≡ none) × ((b : ℕ) → in_pool (initial defaults) b ≡ false)
    ⊎ ((a : ℕ) × (v4_last defaults ≡ some a)
        × (in_pool (initial defaults) a ≡ true)
        × ((b : ℕ) → in_pool (initial defaults) b ≡ true → b ≤ a))
v4_last-in_pool_example = v4_last-in_pool defaults defaults-IsValid

abbrev enables : Bool
enables = (config plain from_hex read_to_string read_lines).enable_dhcpv6

abbrev runs : Outcome String (Option (Option String × (V6Pool × World)))
runs = spawned plain from_hex read_to_string read_lines send_to still [] events6

spawned-Inv_example :
    (enables ≡ false) × (runs ≡ ok none)
    ⊎ (enables ≡ true)
      × ((why : Option String) × (p : V6Pool) × (w : World) × (runs ≡ ok (some (why, (p, w))))
          × Inv p)
spawned-Inv_example =
    spawned-Inv plain from_hex read_to_string read_lines send_to still send_to-IsSocket [] events6
