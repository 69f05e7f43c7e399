-- ===== src/Packet/Ranges.antt =====
-- src/packet.rs: behind its guards each slice and index of the decoder is in range, so that the
-- decoder reads what stands there.
use rusty_dhcp.Base.{
  ℕ, zero, suc, ◌≤◌, ◌≡◌, refl, inl, inr, not, List, [], ◌∷◌, arith, length, take, drop,
  length-take, get_or, index, ◌==◌, ltb, list_beq, if◌then◌else◌, Outcome, ok, err, panic, ◌>>=◌,
  Bool-cases, ltb_false→le,
}
use rusty_dhcp.Base.Bytes.{from_be}
use rusty_dhcp.Base.Slices.{slice, skip, slice-ok, skip-ok, number-ok}
use rusty_dhcp.Packet.{
  Packet, CustomErr, ErrorKind, cookie, end, ipv4_of, lease_time_of, decode_payload, decode_option,
  decode_options, skip_end, decode_header, decode,
}

pub ipv4_of_lem :
    (bytes : List ℕ)
    → ipv4_of bytes
      ≡ (if ltb (length bytes) 4 then err CustomErr.invalid_hlen else ok (from_be (take 4 bytes)))
unfolding ipv4_of
ipv4_of_lem bytes = elim (Bool-cases (ltb (length bytes) 4)) [
  | inl t ↦ rw t
  | inr t ↦ rw (t, number-ok {E = CustomErr} bytes 0 4 (ltb_false→le (length bytes) 4 t))
]

pub lease_time_of_lem : (bytes : List ℕ) → lease_time_of bytes ≡ ipv4_of bytes
unfolding ipv4_of lease_time_of
lease_time_of_lem bytes = refl

pub decode_option_lem :
    (c n : ℕ) (body : List ℕ)
    → decode_option (c ∷ n ∷ body) ≡ (
        if c == end
        then panic
        else if ltb (length body) n
        then err CustomErr.invalid_hlen
        else do option ← decode_payload c (take n body); ok (drop n body, option))
unfolding decode_option
decode_option_lem c n body = elim (Bool-cases (ltb (length body) n)) [
  | inl t ↦ rw t
  | inr t ↦
      let room : n ≤ length body = ltb_false→le (length body) n t in
      rw (t, slice-ok {E = CustomErr} body 0 n (omega arith), skip-ok {E = CustomErr} body n room)
]

index-get_or :
    (xs : List ℕ) (i : ℕ) → suc i ≤ length xs → index {E = CustomErr} xs i ≡ ok (get_or xs i 0)
index-get_or [] i h = absurd (omega arith)
index-get_or (x ∷ xs) zero h = refl
index-get_or (x ∷ xs) (suc i) h = index-get_or xs i (omega arith)

-- `decode` behind the check of the cookie.
abbrev pub decode_body : List ℕ → List ℕ → Outcome CustomErr (List ℕ × Packet)
decode_body hdr body = do
  (last, options) ← decode_options (suc (length body)) body
  input' ← skip_end last
  ok (input', decode_header hdr options)

cookie_lem :
    (hdr rest : List ℕ)
    → 4 ≤ length rest
    → (do
      magic ← slice 0 4 rest
      if not (list_beq magic cookie)
          then err (CustomErr.nom_error rest ErrorKind.tag)
          else do body ← skip 4 rest; decode_body hdr body)
      ≡ (if not (list_beq (take 4 rest) cookie)
          then err (CustomErr.nom_error rest ErrorKind.tag)
          else decode_body hdr (drop 4 rest))
cookie_lem hdr rest h = rw (slice-ok {E = CustomErr} rest 0 4 h, skip-ok {E = CustomErr} rest 4 h)

pub decode_lem :
    (input : List ℕ)
    → decode input ≡ (
        if ltb (length input) 236
        then err CustomErr.invalid_hlen
        else if not (get_or (take 236 input) 2 0 == 6)
        then err CustomErr.invalid_hlen
        else if ltb (length (drop 236 input)) 4
        then err (CustomErr.nom_error (drop 236 input) ErrorKind.tag)
        else if not (list_beq (take 4 (drop 236 input)) cookie)
        then err (CustomErr.nom_error (drop 236 input) ErrorKind.tag)
        else decode_body (take 236 input) (drop 4 (drop 236 input)))
unfolding decode
decode_lem input = elim (Bool-cases (ltb (length input) 236)) [
  | inl t ↦ rw t
  | inr t ↦
      let long : 236 ≤ length input = ltb_false→le (length input) 236 t in
      let hdr = take 236 input in
      let rest = drop 236 input in
      rw
        (
          t,
          slice-ok {E = CustomErr} input 0 236 long,
          skip-ok {E = CustomErr} input 236 long,
          index-get_or hdr 2 (omega (arith, length-take 236 input)),
        )
        (elim (Bool-cases (ltb (length rest) 4)) [
          | inl u ↦ rw u
          | inr u ↦ rw (u, cookie_lem hdr rest (ltb_false→le (length rest) 4 u))
        ])
]
