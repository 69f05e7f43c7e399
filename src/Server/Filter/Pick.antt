-- ===== src/Server/Filter/Pick.antt =====
-- src/server.rs: both loops of the option filter take one option after the other out of a list.
use Prim.Native.String.{String}
use mathlib.Core.Option
use mathlib.Core.List.{append_assoc, append-nil}
use mathlib.Core.Path.{ap₂}
use rusty_dhcp.Base.{
  ℕ, suc, ◌+◌, ◌≡◌, refl, sym, ap, ◌∙◌, ◌⊎◌, inl, inr, true, false, List, [], ◌∷◌, ◌++◌, Option,
  none, some, length, set, ◌==◌, if◌then◌else◌, ok, ◌>>=◌, index, arith, Bool-cases, Option-cases,
  ne→==, if_true, if_false, le→leb, drop-append, take-append, length-append,
}
use rusty_dhcp.Options.{DhcpOption, code}
use rusty_dhcp.Server.Filter.Swap.{ok_ap, swap-behind}
use rusty_dhcp.Server.Filter.{
  essentials, swap, tail_from, position, move_up, slow_round, slow_rounds,
  filter_options_by_req_slow,
}

-- The first option of a code, with `y` put in its place.
unfoldable pub replace_first :
    ℕ → DhcpOption → List DhcpOption → Option (DhcpOption × List DhcpOption)
replace_first r y [] = none
replace_first r y (o ∷ opts) =
    if code o == r
    then some (o, y ∷ opts)
    else Option.map (λ t. (t.0, o ∷ t.1)) (replace_first r y opts)

-- The first option of a code and the others, the first of which takes its place.
unfoldable pub extract : ℕ → List DhcpOption → Option (DhcpOption × List DhcpOption)
unfolding replace_first
extract r [] = none
extract r (y ∷ opts) = if code y == r then some (y, opts) else replace_first r y opts

-- What the filter keeps: for each code in turn the first option that is left, if there is one.
unfoldable pub pick : List ℕ → List DhcpOption → List DhcpOption
pick [] opts = []
pick (r ∷ rs) opts = elim (extract r opts) [
  | none ↦ pick rs opts
  | some (x, opts') ↦ x ∷ pick rs opts'
]

-- The options that are left then.
unfoldable pub left : List ℕ → List DhcpOption → List DhcpOption
left [] opts = opts
left (r ∷ rs) opts = elim (extract r opts) [ none ↦ left rs opts | some (x, opts') ↦ left rs opts' ]

add_zero : (n : ℕ) → n ≡ n + 0
add_zero n = omega arith

-- The search that both loops make, against `extract`.
abbrev Replaces : ℕ → DhcpOption → List DhcpOption → Type 0
Replaces r y opts =
    ((position opts r ≡ none) × (replace_first r y opts ≡ none))
    ⊎ ((i : ℕ) × (x : DhcpOption) × (position opts r ≡ some i)
        × (replace_first r y opts ≡ some (x, set opts i y))
        × (index {E = String} opts i ≡ ok x))

replace_first-Replaces : (r : ℕ) (y : DhcpOption) (opts : List DhcpOption) → Replaces r y opts
unfolding position replace_first
replace_first-Replaces r y [] = inl (refl, refl)
replace_first-Replaces r y (o ∷ opts) = elim (Bool-cases (code o == r)) [
  | inl t ↦ inr (0, o, rw t, rw t, refl)
  | inr t ↦ elim (replace_first-Replaces r y opts) [
    | inl (p, q) ↦ inl (rw (t, p), rw (t, q))
    | inr (i, x, p, q, e) ↦ inr (suc i, x, rw (t, p), rw (t, q), e)
  ]
]

abbrev pub Takes : ℕ → List DhcpOption → Type 0
Takes r rest =
    ((position rest r ≡ none) × (extract r rest ≡ none))
    ⊎ ((i : ℕ) × (x : DhcpOption) × (rest' : List DhcpOption) × (position rest r ≡ some i)
        × (extract r rest ≡ some (x, rest'))
        × ((if i == 0 then ok rest else swap i 0 rest) ≡ ok (x ∷ rest')))

pub extract-Takes : (r : ℕ) (rest : List DhcpOption) → Takes r rest
unfolding position extract
extract-Takes r [] = inl (refl, refl)
extract-Takes r (y ∷ opts) = elim (Bool-cases (code y == r)) [
  | inl t ↦ inr (0, y, opts, rw t, rw t, refl)
  | inr t ↦ elim (replace_first-Replaces r y opts) [
    | inl (p, q) ↦ inl (rw (t, p), rw (t, q))
    | inr (i, x, p, q, e) ↦
        inr
          (suc i, x, set opts i y, rw (t, p), rw (t, q), rw (ne→== (suc i) 0 (omega arith)) (rw e))
  ]
]

-- One round of the slow loop, behind the options that are kept.
module _ (kept rest : List DhcpOption) where
  tail_from_kept : tail_from (length kept) (kept ++ rest) ≡ ok rest
  tail_from_kept =
      rw (le→leb (length kept) (length (kept ++ rest)) (omega (arith, length-append kept rest)))
        (ap (λ xs. ok xs) (drop-append kept rest))

  pub one_more : (x : DhcpOption) → length kept + 1 ≡ length (kept ++ (x ∷ []))
  one_more x = omega (arith, length-append kept (x ∷ []))

  -- The options after the swap, which a round leaves out if it would swap one with itself.
  pub swap_kept :
      (i : ℕ) (x : DhcpOption) (rest' : List DhcpOption)
      → (if i == 0 then ok rest else swap i 0 rest) ≡ ok (x ∷ rest')
      → (if length kept + i == length kept
          then ok (kept ++ rest)
          else swap (length kept + i) (length kept) (kept ++ rest))
        ≡ ok (kept ++ (x ∷ rest'))
  swap_kept i x rest' s = elim (Bool-cases (i == 0)) [
    | inl z ↦
        let here : (length kept + i == length kept) ≡ true = ground arith in
        if_true _ _ _ here ∙ ok_ap (kept ++◌) (sym (if_true _ _ _ z) ∙ s)
    | inr z ↦
        let away : (length kept + i == length kept) ≡ false = ground arith in
        if_false _ _ _ away
        ∙ ap (λ k. swap (length kept + i) k (kept ++ rest)) (add_zero (length kept))
        ∙ swap-behind kept rest (x ∷ rest') i 0 (sym (if_false _ _ _ z) ∙ s)
  ]

  slow_round-none :
      (r : ℕ)
      → position rest r ≡ none
      → slow_round (kept ++ rest, length kept) r ≡ ok (kept ++ rest, length kept)
  slow_round-none r h =
      ap (λ t. t >>= λ xs. move_up (kept ++ rest, length kept) (position xs r)) tail_from_kept
      ∙ ap (move_up (kept ++ rest, length kept)) h

  slow_round-some :
      (r i : ℕ) (x : DhcpOption) (rest' : List DhcpOption)
      → position rest r ≡ some i
      → (if i == 0 then ok rest else swap i 0 rest) ≡ ok (x ∷ rest')
      → slow_round (kept ++ rest, length kept) r
        ≡ ok ((kept ++ (x ∷ [])) ++ rest', length (kept ++ (x ∷ [])))
  slow_round-some r i x rest' h s =
      ap (λ t. t >>= λ xs. move_up (kept ++ rest, length kept) (position xs r)) tail_from_kept
      ∙ ap (move_up (kept ++ rest, length kept)) h
      ∙ rw (swap_kept i x rest' s)
          (ap₂ (λ xs n. ok (xs, n)) (sym (append_assoc kept (x ∷ []) rest')) (one_more x))

pub pick-none :
    (r : ℕ) (rs : List ℕ) (rest : List DhcpOption)
    → extract r rest ≡ none
    → pick (r ∷ rs) rest ≡ pick rs rest
unfolding pick
pick-none r rs rest e = rw (e, pick)

pub pick-some :
    (r : ℕ) (rs : List ℕ) (rest rest' : List DhcpOption) (x : DhcpOption)
    → extract r rest ≡ some (x, rest')
    → pick (r ∷ rs) rest ≡ x ∷ pick rs rest'
unfolding pick
pick-some r rs rest rest' x e = rw (e, pick)

pub left-none :
    (r : ℕ) (rs : List ℕ) (rest : List DhcpOption)
    → extract r rest ≡ none
    → left (r ∷ rs) rest ≡ left rs rest
unfolding left
left-none r rs rest e = rw (e, left)

pub left-some :
    (r : ℕ) (rs : List ℕ) (rest rest' : List DhcpOption) (x : DhcpOption)
    → extract r rest ≡ some (x, rest')
    → left (r ∷ rs) rest ≡ left rs rest'
unfolding left
left-some r rs rest rest' x e = rw (e, left)

-- Codes in two parts are served one part after the other.
pub pick-append :
    (rs more : List ℕ) (rest : List DhcpOption)
    → pick (rs ++ more) rest ≡ pick rs rest ++ pick more (left rs rest)
unfolding pick left
pick-append [] more rest = refl
pick-append (r ∷ rs) more rest = elim (Option-cases (extract r rest)) [
  | inl e ↦
      pick-none r (rs ++ more) rest e
      ∙ pick-append rs more rest
      ∙ ap₂ (λ k l. k ++ pick more l) (sym (pick-none r rs rest e)) (sym (left-none r rs rest e))
  | inr ((x, xs), e) ↦
      pick-some r (rs ++ more) rest xs x e
      ∙ ap (◌∷◌ x) (pick-append rs more xs)
      ∙ ap₂ (λ k l. k ++ pick more l) (sym (pick-some r rs rest xs x e))
          (sym (left-some r rs rest xs x e))
]

-- The state of the slow loops: `pos` counts the options that are kept.
abbrev slow_state : List DhcpOption → List DhcpOption → List DhcpOption × ℕ
slow_state kept rest = (kept ++ rest, length kept)

slow_rounds-pick :
    (rs : List ℕ) (kept rest : List DhcpOption)
    → slow_rounds rs (slow_state kept rest) ≡ ok (slow_state (kept ++ pick rs rest) (left rs rest))
unfolding slow_rounds pick left
slow_rounds-pick [] kept rest = ap (λ k. ok (slow_state k rest)) (sym (append-nil kept))
slow_rounds-pick (r ∷ rs) kept rest = elim (extract-Takes r rest) [
  | inl (h, e) ↦
      ap (λ t. t >>= slow_rounds rs) (slow_round-none kept rest r h)
      ∙ slow_rounds-pick rs kept rest
      ∙ ap₂ (λ k l. ok (slow_state (kept ++ k) l)) (sym (pick-none r rs rest e))
          (sym (left-none r rs rest e))
  | inr (i, x, xs, h, e, s) ↦
      ap (λ t. t >>= slow_rounds rs) (slow_round-some kept rest r i x xs h s)
      ∙ slow_rounds-pick rs (kept ++ (x ∷ [])) xs
      ∙ ap₂ (λ k l. ok (slow_state k l))
          (append_assoc kept (x ∷ []) (pick rs xs)
            ∙ ap (kept ++◌) (sym (pick-some r rs rest xs x e)))
          (sym (left-some r rs rest xs x e))
]

-- The slow path returns what is picked for the codes asked for, and then for the essential ones.
pub filter_options_by_req_slow-pick :
    (opts : List DhcpOption) (req_params : List ℕ)
    → filter_options_by_req_slow opts req_params ≡ ok (pick (req_params ++ essentials) opts)
unfolding filter_options_by_req_slow
filter_options_by_req_slow-pick opts req_params =
    let kept = pick req_params opts ++ pick essentials (left req_params opts) in
    rw
      (
        slow_rounds-pick req_params [] opts,
        slow_rounds-pick essentials (pick req_params opts) (left req_params opts),
      )
      (ap (λ k. ok k)
        (take-append kept (left essentials (left req_params opts))
          ∙ sym (pick-append req_params essentials opts)))
