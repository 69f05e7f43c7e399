-- ===== src/Packet/Decode.antt =====
-- src/packet.rs: what the option loop of `decode`, `decode` and `from` do on any bytes.
mod Loop
use rusty_dhcp.Packet.Decode.Loop.{
  loop_stops, loop_ends, loop_goes_on, loop_panics, stop, last, more,
}
use rusty_dhcp.Base.{
  Outcome-cases, ℕ, zero, suc, ◌≤◌, ◌<◌, ◌≡◌, refl, sym, subst, ◌∙◌, true, false, List, [], ◌∷◌,
  arith, length, take, drop, ◌==◌, ==_iff, ltb_false→le, ltb, get_or, list_beq, list_beq_iff,
  Outcome, ok, err, panic, ◌>>=◌, >>=-eq-ok, ok-injective, length-drop, length-take, ap, Bool-cases,
  ◌⊎◌, ◌↔◌, inl, inr, ◌≢◌, le→ltb,
}
use mathlib.Core.Bool.{false≢true}
use rusty_dhcp.Options.{DhcpOption}
use rusty_dhcp.Packet.Ranges.{decode_lem}
use rusty_dhcp.Packet.{
  Packet, CustomErr, ErrorKind, cookie, decode_option, at_end, decode_options, skip_end,
  decode_header, decode, from,
}
pub use rusty_dhcp.Packet.Decode.Loop.{decode_option_takes, decode_option-panic, Reads}

-- With more fuel than there are bytes the option loop ends with a result, unless the bytes start
-- with END; the options and the bytes left are those that the relation `Reads` describes.
pub decode_options-Reads :
    (fuel : ℕ) (input : List ℕ)
    → length input < fuel
    → at_end input ≡ false
    → (left : List ℕ) × (os : List DhcpOption) × (decode_options fuel input ≡ ok (left, os))
      × Reads input os left
decode_options-Reads zero input h s = absurd (omega arith)
decode_options-Reads (suc fuel) input h s = elim (Outcome-cases (decode_option input)) [
  | inl ((rest, o), e) ↦ elim (Bool-cases (at_end rest)) [
    | inl t ↦ (rest, o ∷ [], loop_ends fuel input rest o e t, last o e t)
    | inr t ↦
        let (left, os, r, d) =
          decode_options-Reads fuel rest (omega (arith, decode_option_takes input rest o e)) t in
        (left, o ∷ os, loop_goes_on fuel input rest left o os e t r, more o os e t d)
  ]
  | inr (inl (e, q)) ↦ (input, [], loop_stops fuel input e q, stop e q)
  | inr (inr q) ↦ absurd (false≢true (sym s ∙ (decode_option-panic input).0 q))
]

Reads-decode_options :
    {input left : List ℕ} {os : List DhcpOption} (fuel : ℕ)
    → Reads input os left
    → length input < fuel
    → decode_options fuel input ≡ ok (left, os)
Reads-decode_options zero d h = absurd (omega arith)
Reads-decode_options (suc fuel) (stop e q) h = loop_stops fuel _ e q
Reads-decode_options (suc fuel) (last o e t) h = loop_ends fuel _ _ o e t
Reads-decode_options (suc fuel) (more o os e t d) h =
    loop_goes_on fuel _ _ _ o os e t
      (Reads-decode_options fuel d (omega (arith, decode_option_takes _ _ o e)))

-- The bytes behind the header and the cookie.
abbrev pub area : List ℕ → List ℕ
area input = drop 4 (drop 236 input)

-- A datagram that gets as far as the options: long enough, six-byte hardware addresses, cookie.
pub record HasHeader (input : List ℕ) : Type 0 where
  pub long : 240 ≤ length input
  pub hlen : get_or (take 236 input) 2 0 ≡ 6
  pub magic : take 4 (drop 236 input) ≡ cookie

-- `decode` on such a datagram is the loop and the skip of the END byte.
abbrev decode_area : List ℕ → Outcome CustomErr (List ℕ × Packet)
decode_area input = do
  (left, options) ← decode_options (suc (length (area input))) (area input)
  input' ← skip_end left
  ok (input', decode_header (take 236 input) options)

decode-HasHeader : (input : List ℕ) → HasHeader input → decode input ≡ decode_area input
decode-HasHeader input v =
    let size : ltb (length input) 236 ≡ false = le→ltb _ _ (omega arith) in
    let six : (get_or (take 236 input) 2 0 == 6) ≡ true = ground arith in
    let room : ltb (length (drop 236 input)) 4 ≡ false =
      le→ltb _ _ (omega (arith, length-drop 236 input)) in
    let magic = (list_beq_iff (take 4 (drop 236 input)) cookie).1 v.magic in
    rw (decode_lem input, size, six, room, magic)

-- Any other datagram is refused with an error.
decode-cases : (input : List ℕ) → HasHeader input ⊎ ((e : CustomErr) × (decode input ≡ err e))
decode-cases input = rw (decode_lem input) (elim (Bool-cases (ltb (length input) 236)) [
  | inl t ↦ inr (CustomErr.invalid_hlen, rw t)
  | inr t ↦ elim (Bool-cases (get_or (take 236 input) 2 0 == 6)) [
    | inr u ↦ inr (CustomErr.invalid_hlen, rw (t, u))
    | inl u ↦ elim (Bool-cases (ltb (length (drop 236 input)) 4)) [
      | inl r ↦ inr (CustomErr.nom_error (drop 236 input) ErrorKind.tag, rw (t, u, r))
      | inr r ↦ elim (Bool-cases (list_beq (take 4 (drop 236 input)) cookie)) [
        | inr m ↦ inr (CustomErr.nom_error (drop 236 input) ErrorKind.tag, rw (t, u, r, m))
        | inl m ↦ inl (record {
          long = omega (
            arith,
            ltb_false→le (length (drop 236 input)) 4 r,
            ltb_false→le (length input) 236 t,
            length-drop 236 input,
          );
          hlen = (==_iff _ 6).0 u;
          magic = (list_beq_iff (take 4 (drop 236 input)) cookie).0 m;
        })
      ]
    ]
  ]
])

decode-at_end :
    (input : List ℕ) → HasHeader input → at_end (area input) ≡ true → decode input ≡ panic
decode-at_end input v t =
    decode-HasHeader input v ∙ rw (loop_panics (length (area input)) (area input) t)

-- On a datagram with a good header whose option area reads as `os`, with `left` behind, `decode`
-- returns the header's fields with these options, and the bytes behind the first byte of `left`,
-- whatever that byte is; it panics if `left` is empty.
pub decode-Reads :
    {input left : List ℕ} {os : List DhcpOption}
    → HasHeader input
    → Reads (area input) os left
    → decode input ≡ (do input' ← skip_end left; ok (input', decode_header (take 236 input) os))
decode-Reads {input} {left} {os} v d =
    decode-HasHeader input v ∙ rw (Reads-decode_options (suc (length (area input))) d (omega arith))

skip_end-nil :
    (left : List ℕ) (k : List ℕ → List ℕ × Packet)
    → ◌≡◌ {A = Outcome CustomErr (List ℕ × Packet)} (skip_end left >>= λ x. ok (k x)) panic
    → left ≡ []
unfolding skip_end
skip_end-nil [] k h = refl
skip_end-nil (b ∷ left) k h = cc

err-ne-panic : (e : CustomErr) → ◌≢◌ {A = Outcome CustomErr (List ℕ × Packet)} (err e) panic
err-ne-panic e h = cc

nothing_left :
    (os : List DhcpOption) (hdr : List ℕ)
    → ◌≡◌ {A = Outcome CustomErr (List ℕ × Packet)}
        (do input' ← skip_end []; ok (input', decode_header hdr os))
        panic
unfolding skip_end
nothing_left os hdr = refl

-- `decode` panics exactly on a datagram with a good header whose options start with END, or whose
-- bytes end with the last option that is read, with no byte left for END.
pub decode-panic :
    (input : List ℕ)
    → (decode input ≡ panic) ↔ (
        HasHeader input
        × ((at_end (area input) ≡ true) ⊎ ((os : List DhcpOption) × Reads (area input) os [])))
decode-panic input = (to, from_)
  where
    to :
        decode input ≡ panic
        → HasHeader input
          × ((at_end (area input) ≡ true) ⊎ ((os : List DhcpOption) × Reads (area input) os []))
    to h = elim (decode-cases input) [
      | inr (e, q) ↦ absurd (err-ne-panic e (sym q ∙ h))
      | inl v ↦ elim (Bool-cases (at_end (area input))) [
        | inl t ↦ (v, inl t)
        | inr t ↦
            let (left, os, _, d) =
              decode_options-Reads (suc (length (area input))) (area input) (omega arith) t in
            let nothing =
              skip_end-nil left (λ x. (x, decode_header (take 236 input) os))
                (sym (decode-Reads v d) ∙ h) in
            (v, inr (os, subst (λ x. Reads (area input) os x) nothing d))
      ]
    ]

    from_ :
        HasHeader input
          × ((at_end (area input) ≡ true) ⊎ ((os : List DhcpOption) × Reads (area input) os []))
        → decode input ≡ panic
    from_ (v, inl t) = decode-at_end input v t
    from_ (v, inr (os, d)) = decode-Reads v d ∙ nothing_left os (take 236 input)

header_chaddr :
    (input : List ℕ) (os : List DhcpOption)
    → 240 ≤ length input
    → length (decode_header (take 236 input) os).chaddr ≡ 6
unfolding decode_header
header_chaddr input os h = omega (
  arith,
  length-take 6 (drop 28 (take 236 input)),
  length-drop 28 (take 236 input),
  length-take 236 input,
)

-- A packet that is decoded has a six-byte hardware address.
pub from-chaddr : (input : List ℕ) (p : Packet) → from input ≡ ok p → length p.chaddr ≡ 6
unfolding from
from-chaddr input p h = elim (decode-cases input) [
  | inr (e, q) ↦ let refused : err e ≡ ok p = sym (rw (q, from) refl) ∙ h in cc
  | inl v ↦
      let (x, d, same) = >>=-eq-ok (decode input) _ h in
      let ((left, os), _, d') =
        >>=-eq-ok (decode_options _ _) _ (sym (decode-HasHeader input v) ∙ d) in
      let (rest, _, d'') = >>=-eq-ok (skip_end left) _ d' in
      let built : decode_header (take 236 input) os ≡ p =
        ap (λ y. y.1) (ok-injective {E = CustomErr} d'') ∙ ok-injective {E = CustomErr} same in
      subst (λ q. length q.chaddr ≡ 6) built (header_chaddr input os v.long)
]
