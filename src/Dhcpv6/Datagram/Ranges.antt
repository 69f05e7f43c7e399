-- ===== src/Dhcpv6/Datagram/Ranges.antt =====
-- src/dhcpv6.rs: behind its guards each slice and index of the decoder is in range, so that the
-- decoder reads what stands there.
use rusty_dhcp.Base.{
  ℕ, ◌+◌, ◌-◌, ◌≤◌, ◌≡◌, inl, inr, false, not, List, [], ◌∷◌, Option, none, some, arith, length,
  take, drop, get_or, index, ◌==◌, ltb, if◌then◌else◌, Outcome, ok, err, ◌>>=◌, Bool-cases,
  ltb_false→le,
}
use rusty_dhcp.Base.Slices.{skip, number, value, slice-ok, skip-ok, number-ok}
use rusty_dhcp.Base.Utf8.{is_utf8}
use rusty_dhcp.Dhcpv6.Codes.{opt_iaaddr, opt_status_code}
use rusty_dhcp.Dhcpv6.Codec.{DecodeError, MsgType, msg_type_from, IaAddr, Dhcpv6Option}
use rusty_dhcp.Dhcpv6.Datagram.{
  Datagram, decode_sub, decode_subs, decode_iana, decode_payload6, decode_option6, decode_options6,
  from6,
}

-- A binding of 24 bytes at least.
abbrev pub binding : List ℕ → IaAddr
binding body = record {
  addr = value 0 16 body;
  preferred = value 16 4 body;
  valid = value 20 4 body;
}

binding-ok :
    (next body : List ℕ)
    → 24 ≤ length body
    → ◌≡◌ {A = Outcome DecodeError (List ℕ × Option IaAddr)}
        (do
          addr ← number 0 16 body
          preferred ← number 16 4 body
          valid ← number 20 4 body
          ok (next, some (record { addr = addr; preferred = preferred; valid = valid })))
        (ok (next, some (binding body)))
binding-ok next body h = rw (
  number-ok {E = DecodeError} body 0 16 (omega arith),
  number-ok {E = DecodeError} body 16 4 (omega arith),
  number-ok {E = DecodeError} body 20 4 (omega arith),
)

-- What `decode_sub` returns.
abbrev pub sub_of : List ℕ → Outcome DecodeError (List ℕ × Option IaAddr)
sub_of rest =
    if ltb (length rest) 4
    then err DecodeError.malformed
    else let slen = value 2 2 rest in
      let body = take slen (drop 4 rest) in
      let next = drop (4 + slen) rest in
      if ltb (length rest - 4) slen
      then err DecodeError.malformed
      else if not (value 0 2 rest == opt_iaaddr)
      then ok (next, none)
      else if ltb (length body) 24
      then err DecodeError.malformed
      else ok (next, some (binding body))

pub decode_sub_lem : (rest : List ℕ) → decode_sub rest ≡ sub_of rest
unfolding decode_sub
decode_sub_lem rest = elim (Bool-cases (ltb (length rest) 4)) [
  | inl t ↦ rw t
  | inr t ↦
      let four : 4 ≤ length rest = ltb_false→le (length rest) 4 t in
      let slen = value 2 2 rest in
      let body = take slen (drop 4 rest) in
      rw (t, number-ok {E = DecodeError} rest 2 2 four)
        (elim (Bool-cases (ltb (length rest - 4) slen)) [
          | inl u ↦ rw u
          | inr u ↦
              let room : slen ≤ length rest - 4 = ltb_false→le (length rest - 4) slen u in
              rw
                (
                  u,
                  number-ok {E = DecodeError} rest 0 2 (omega arith),
                  slice-ok {E = DecodeError} rest 4 slen (omega arith),
                  skip-ok {E = DecodeError} rest (4 + slen) (omega arith),
                )
                (elim (Bool-cases (value 0 2 rest == opt_iaaddr)) [
                  | inr c ↦ rw c
                  | inl c ↦ rw c (elim (Bool-cases (ltb (length body) 24)) [
                    | inl v ↦ rw v
                    | inr v ↦
                        rw v
                          (binding-ok (drop (4 + slen) rest) body (ltb_false→le (length body) 24 v))
                  ])
                ])
        ])
]

pub decode_iana_lem :
    (bytes : List ℕ)
    → decode_iana bytes ≡ (
        if ltb (length bytes) 12 then err DecodeError.malformed else do
          addrs ← decode_subs (length bytes) (drop 12 bytes)
          ok (record {
            iaid = value 0 4 bytes;
            t1 = value 4 4 bytes;
            t2 = value 8 4 bytes;
            addrs = addrs;
          }))
unfolding decode_iana
decode_iana_lem bytes = elim (Bool-cases (ltb (length bytes) 12)) [
  | inl t ↦ rw t
  | inr t ↦
      let long : 12 ≤ length bytes = ltb_false→le (length bytes) 12 t in
      rw (
        t,
        number-ok {E = DecodeError} bytes 0 4 (omega arith),
        number-ok {E = DecodeError} bytes 4 4 (omega arith),
        number-ok {E = DecodeError} bytes 8 4 (omega arith),
        skip-ok {E = DecodeError} bytes 12 long,
      )
]

pub decode_status_lem :
    (bytes : List ℕ)
    → decode_payload6 opt_status_code bytes ≡ (
        if ltb (length bytes) 2
        then err DecodeError.malformed
        else if is_utf8 (drop 2 bytes)
        then ok (Dhcpv6Option.status_code (value 0 2 bytes) (drop 2 bytes))
        else err DecodeError.bad_utf8)
unfolding decode_payload6
decode_status_lem bytes = elim (Bool-cases (ltb (length bytes) 2)) [
  | inl t ↦ rw t
  | inr t ↦
      let long : 2 ≤ length bytes = ltb_false→le (length bytes) 2 t in
      rw (t, number-ok {E = DecodeError} bytes 0 2 long, skip-ok {E = DecodeError} bytes 2 long)
]

pub decode_option6_lem :
    (input : List ℕ)
    → decode_option6 input ≡ (
        if ltb (length input) 4
        then err DecodeError.truncated
        else let len = value 2 2 input in
          if ltb (length input - 4) len then err DecodeError.truncated else do
            option ← decode_payload6 (value 0 2 input) (take len (drop 4 input))
            ok (drop (4 + len) input, option))
unfolding decode_option6
decode_option6_lem input = elim (Bool-cases (ltb (length input) 4)) [
  | inl t ↦ rw t
  | inr t ↦
      let four : 4 ≤ length input = ltb_false→le (length input) 4 t in
      let len = value 2 2 input in
      rw
        (
          t,
          number-ok {E = DecodeError} input 0 2 (omega arith),
          number-ok {E = DecodeError} input 2 2 four,
        )
        (elim (Bool-cases (ltb (length input - 4) len)) [
          | inl u ↦ rw u
          | inr u ↦
              let room : len ≤ length input - 4 = ltb_false→le (length input - 4) len u in
              rw (
                u,
                slice-ok {E = DecodeError} input 4 len (omega arith),
                skip-ok {E = DecodeError} input (4 + len) (omega arith),
              )
        ])
]

abbrev pub built : MsgType → ℕ → List Dhcpv6Option → Datagram
built m tid options = record { msg_type = m; transaction_id = tid; options = options }

pub from6_lem :
    (input : List ℕ)
    → from6 input ≡ (
        if ltb (length input) 4 then err DecodeError.truncated else do
          m ← msg_type_from (get_or input 0 0)
          options ← decode_options6 (length input) (drop 4 input)
          ok (built m (value 1 3 input) options))
unfolding from6
from6_lem input = elim (Bool-cases (ltb (length input) 4)) [
  | inl t ↦ rw t
  | inr t ↦ rw t (long input t)
]
  where
    long :
        (input : List ℕ)
        → ltb (length input) 4 ≡ false
        → (do
          first ← index {E = DecodeError} input 0
          m ← msg_type_from first
          tid ← number 1 3 input
          rest ← skip 4 input
          options ← decode_options6 (length input) rest
          ok (built m tid options))
          ≡ (do
            m ← msg_type_from (get_or input 0 0)
            options ← decode_options6 (length input) (drop 4 input)
            ok (built m (value 1 3 input) options))
    long [] t = cc
    long (b ∷ input) t =
        let four : 4 ≤ length (b ∷ input) = ltb_false→le (length (b ∷ input)) 4 t in
        rw (
          number-ok {E = DecodeError} (b ∷ input) 1 3 four,
          skip-ok {E = DecodeError} (b ∷ input) 4 four,
        )
