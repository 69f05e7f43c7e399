-- ===== src/Server/Filter.antt =====
-- src/server.rs, `filter_options_by_req` and `filter_options_by_req_slow`: the options of a reply
-- are put in the order that the client asks for, and the others are dropped.
-- The mutable vectors are passed on; `panic` is an index out of range.
pub mod Swap
pub mod Pick
pub mod Fast
pub mod Kept
mod Tests
use Prim.Native.String.{String}
use rusty_dhcp.Base.{
  ℕ, zero, suc, ◌+◌, ◌-◌, Bool, true, false, List, [], ◌∷◌, Option, none, some, length, drop, take,
  set, replicate, ◌==◌, leb, ltb, if◌then◌else◌, Outcome, ok, err, panic, ◌>>=◌, index,
}
use mathlib.Core.Option
use rusty_dhcp.Options.{DhcpOption, code}
use rusty_dhcp.Options.Codes

-- `H` of the fast path and `h` of the slow one.
unfoldable pub essentials : List ℕ
essentials =
    Codes.dhcp_message_type ∷ Codes.server_identifier ∷ Codes.subnet_mask
    ∷ Codes.ip_address_lease_time ∷ Codes.domain_name_server ∷ Codes.router ∷ []

-- `xs[i] = v`.
abbrev store {ℓ} : {A : Type ℓ} → ℕ → A → List A → Outcome String (List A)
store i v xs = do old ← index xs i; ok (set xs i v)

-- `xs.swap(i, j)`.
abbrev swap {ℓ} : {A : Type ℓ} → ℕ → ℕ → List A → Outcome String (List A)
swap i j xs = do a ← index xs i; b ← index xs j; ok (set (set xs i b) j a)

-- `&opts[pos..]`.
abbrev tail_from : ℕ → List DhcpOption → Outcome String (List DhcpOption)
tail_from pos opts = if leb pos (length opts) then ok (drop pos opts) else panic

-- The index of the first option with a code.
pub position : List DhcpOption → ℕ → Option ℕ
position [] r = none
position (o ∷ opts) r = if code o == r then some 0 else Option.map suc (position opts r)

-- The body of the slow loops once the search is over; `pos + i` is the option that was found.
abbrev move_up : List DhcpOption × ℕ → Option ℕ → Outcome String (List DhcpOption × ℕ)
move_up (opts, pos) none = ok (opts, pos)
move_up (opts, pos) (some i) = do
  opts' ← if pos + i == pos then ok opts else swap (pos + i) pos opts
  ok (opts', pos + 1)

-- One round of the slow loops, on the options and `pos`.
abbrev slow_round : List DhcpOption × ℕ → ℕ → Outcome String (List DhcpOption × ℕ)
slow_round (opts, pos) r = do rest ← tail_from pos opts; move_up (opts, pos) (position rest r)

unfoldable pub slow_rounds : List ℕ → List DhcpOption × ℕ → Outcome String (List DhcpOption × ℕ)
slow_rounds [] s = ok s
slow_rounds (r ∷ rs) s = do s' ← slow_round s r; slow_rounds rs s'

unfoldable pub filter_options_by_req_slow :
    List DhcpOption → List ℕ → Outcome String (List DhcpOption)
filter_options_by_req_slow opts req_params = do
  s ← slow_rounds req_params (opts, 0)
  (opts', pos) ← slow_rounds essentials s
  ok (take pos opts')

-- `for (i, o) in opts.iter().enumerate() { codes[i] = o.code() }`, from `i` on.
pub fill_codes : ℕ → List DhcpOption → List ℕ → Outcome String (List ℕ)
fill_codes i [] codes = ok codes
fill_codes i (o ∷ opts) codes = do codes' ← store i (code o) codes; fill_codes (i + 1) opts codes'

-- `for i in i..i + rounds { if codes[i] == r { found = Some(i); break } }`.
pub find_code : ℕ → ℕ → List ℕ → ℕ → Outcome String (Option ℕ)
find_code zero i codes r = ok none
find_code (suc rounds) i codes r = do
  c ← index codes i
  elim (c == r) [ true ↦ ok (some i) | false ↦ find_code rounds (i + 1) codes r ]

-- The options, the cached codes and `pos`.
pub record Cached : Type 0 where
  pub opts : List DhcpOption
  pub codes : List ℕ
  pub pos : ℕ

-- The body of the fast loops once the search is over.
abbrev move_both : Cached → Option ℕ → Outcome String Cached
move_both s none = ok s
move_both s (some i) = do
  opts' ← if i == s.pos then ok s.opts else swap i s.pos s.opts
  codes' ← if i == s.pos then ok s.codes else swap i s.pos s.codes
  ok (record { opts = opts'; codes = codes'; pos = s.pos + 1 })

-- One round of the fast loops, on `n` options.
abbrev fast_round : ℕ → Cached → ℕ → Outcome String Cached
fast_round n s r = do found ← find_code (n - s.pos) s.pos s.codes r; move_both s found

unfoldable pub fast_rounds : ℕ → List ℕ → Cached → Outcome String Cached
unfolding find_code
fast_rounds n [] s = ok s
fast_rounds n (r ∷ rs) s = do s' ← fast_round n s r; fast_rounds n rs s'

unfoldable pub filter_options_by_req : List DhcpOption → List ℕ → Outcome String (List DhcpOption)
unfolding fill_codes
filter_options_by_req opts req_params =
    if length opts == 0
    then ok opts
    else if ltb 64 (length opts)
    then filter_options_by_req_slow opts req_params
    else do
      codes ← fill_codes 0 opts (replicate 64 0)
      s ← fast_rounds (length opts) req_params (record { opts = opts; codes = codes; pos = 0 })
      s' ← fast_rounds (length opts) essentials s
      ok (take s'.pos s'.opts)
