-- ===== src/Packet/Encode/Writes.antt =====
-- src/packet.rs: writes into the buffer behind what `Packet::encode` has put there.
use rusty_dhcp.Base.{
  ℕ, ◌+◌, ◌-◌, ◌≤◌, ◌<◌, ◌≡◌, sym, ap, ◌∙◌, true, List, [], ◌∷◌, ◌++◌, arith, length, take, drop,
  replicate, leb, if◌then◌else◌, Outcome, ok, panic, length-append, drop-drop, drop-take_self,
  length-take, length-drop, length-replicate, take-append,
}
use rusty_dhcp.Base.Buffer.{copy_to, overwrite, copy_to-append, overwrite-append}
use rusty_dhcp.Options.{DhcpOption, data_len, write_data, to_raw}
use rusty_dhcp.Options.Wire.{write_data_fits}
use rusty_dhcp.Packet.{CustomErr, wire_max, end, pad, window, fill_range}
use mathlib.Core.List.{append_assoc, append-nil}

-- A write behind `front`.
pub copy_behind :
    (n : ℕ) (front bytes out : List ℕ)
    → length front ≡ n
    → length bytes ≤ length out
    → copy_to {E = CustomErr} n bytes (front ++ out)
      ≡ ok ((front ++ bytes) ++ drop (length bytes) out)
copy_behind n front bytes out e h =
    rw (← e, copy_to-append {E = CustomErr} front bytes out h)
      (ap (λ x. ok x) (sym (append_assoc front bytes (drop (length bytes) out))))

fill_range_fits :
    (from to v : ℕ) (p : List ℕ)
    → from ≤ to
    → to ≤ length p
    → fill_range from to v p ≡ overwrite from (replicate (to - from) v) p
unfolding fill_range
fill_range_fits from to v p h k = ground arith

-- `fill` behind `front`, where the buffer is long enough.
fill_behind :
    (from to v : ℕ) (front out : List ℕ)
    → length front ≡ from
    → from ≤ to
    → to ≤ from + length out
    → fill_range from to v (front ++ out)
      ≡ (front ++ replicate (to - from) v) ++ drop (to - from) out
fill_behind from to v front out e h k =
    let bytes = replicate (to - from) v in
    fill_range_fits from to v (front ++ out) h (omega (arith, length-append front out))
    ∙ rw (← e) (overwrite-append front (replicate (to - length front) v) out)
    ∙ sym (append_assoc front bytes (drop (length bytes) out))
    ∙ ap (λ n. (front ++ bytes) ++ drop n out) (length-replicate (to - from) v)

-- `write_data` into the slice of its own length.
pub write_slice :
    (o : DhcpOption) (n : ℕ) (front out : List ℕ)
    → length front ≡ n
    → 2 + data_len o ≤ length out
    → write_data {E = CustomErr} o (window (n + 2) (data_len o) (front ++ out))
      ≡ ok ((to_raw o).payload, data_len o)
write_slice o n front out e h =
    let room = window (n + 2) (data_len o) (front ++ out) in
    write_data_fits {E = CustomErr} o room (
      omega (
        arith,
        length-take (data_len o) (drop (n + 2) (front ++ out)),
        length-drop (n + 2) (front ++ out),
        length-append front out,
      ))
    ∙ ap (λ s. ok ((to_raw o).payload ++ s, data_len o))
        (drop-take_self (data_len o) (drop (n + 2) (front ++ out)))
    ∙ ap (λ s. ok (s, data_len o)) (append-nil (to_raw o).payload)

-- One more field of `m` bytes behind the `n` that are written.
pub write_field :
    (n m : ℕ) (front bytes buffer : List ℕ)
    → length front ≡ n
    → length bytes ≡ m
    → n + m ≤ length buffer
    → (copy_to {E = CustomErr} n bytes (front ++ drop n buffer)
        ≡ ok ((front ++ bytes) ++ drop (n + m) buffer))
      × (length (front ++ bytes) ≡ n + m)
write_field n m front bytes buffer e k h = (
  copy_behind n front bytes (drop n buffer) e (omega (arith, length-drop n buffer))
      ∙ ap (λ (j : ℕ). ok ((front ++ bytes) ++ drop j (drop n buffer))) k
      ∙ ap (λ x. ok ((front ++ bytes) ++ x)) (drop-drop m n buffer),
  omega (arith, length-append front bytes),
)

-- The end of `encode`: the END byte, the padding and the slice to send.
pub take_sent :
    (n : ℕ) (sent tail p : List ℕ)
    → p ≡ sent ++ tail
    → length sent ≡ n
    → ◌≡◌ {A = Outcome CustomErr (List ℕ × List ℕ)}
        (if leb n (length p) then ok (take n p, p) else panic)
        (ok (sent, sent ++ tail))
take_sent n sent tail p e k =
    rw (e, ← k, room) (ap (λ x. ok (x, sent ++ tail)) (take-append sent tail))
  where
    room : leb (length sent) (length (sent ++ tail)) ≡ true
    room = ground (arith, length-append sent tail)

pub fill_end :
    (n : ℕ) (front out : List ℕ)
    → length front ≡ n
    → n < wire_max
    → wire_max ≤ n + length out
    → fill_range (n + 1) wire_max pad (fill_range n (n + 1) end (front ++ out))
      ≡ (front ++ (end ∷ [])) ++ (replicate (wire_max - (n + 1)) pad ++ drop (wire_max - n) out)
fill_end n front out e lt h =
    let one : n + 1 - n ≡ 1 = omega arith in
    let sent = front ++ (end ∷ []) in
    let padding = replicate (wire_max - (n + 1)) pad in
    let rest : 1 + (wire_max - (n + 1)) ≡ wire_max - n = omega arith in
    ap (λ x. fill_range (n + 1) wire_max pad x)
      (fill_behind n (n + 1) end front out e (omega arith) (omega arith)
        ∙ ap (λ k. (front ++ replicate k end) ++ drop k out) one)
    ∙ fill_behind (n + 1) wire_max pad sent (drop 1 out)
        (omega (arith, length-append front (end ∷ []))) (omega arith)
        (omega (arith, length-drop 1 out))
    ∙ append_assoc sent padding _
    ∙ ap (λ x. sent ++ (padding ++ x)) (drop-drop (wire_max - (n + 1)) 1 out)
    ∙ ap (λ k. sent ++ (padding ++ drop k out)) rest
