-- ===== src/Server/Filter/Fast/Rounds.antt =====
-- src/server.rs, `filter_options_by_req`: the rounds of the fast path, with the cached codes in
-- lockstep with the options.
use Prim.Native.String.{String}
use mathlib.Core.Option
use mathlib.Core.Path.{ap₂}
use mathlib.Core.List.{append_assoc, append-nil, map-append}
use rusty_dhcp.Base.{
  ℕ, suc, ◌+◌, ◌-◌, ◌≡◌, refl, sym, ap, ◌∙◌, inl, inr, Bool, true, false, List, [], ◌∷◌, ◌++◌, map,
  Option, none, some, length, ◌==◌, if◌then◌else◌, Outcome, ok, ok-injective, ◌>>=◌, index, arith,
  Bool-cases, length-append, if_true, if_false,
}
use rusty_dhcp.Options.{DhcpOption, code}
use rusty_dhcp.Server.Filter.{swap, position, find_code, Cached, move_both, fast_round, fast_rounds}
use rusty_dhcp.Server.Filter.Swap.{ok_ap, swap-map, swap-length, index-append_add}
use rusty_dhcp.Server.Filter.Pick.{
  pick, left, extract-Takes, swap_kept, one_more, pick-none, pick-some, left-none, left-some,
}

length-map {ℓ κ} :
    {A : Type ℓ} {B : Type κ} (f : A → B) (xs : List A) → length (map f xs) ≡ length xs
length-map f [] = refl
length-map f (x ∷ xs) = ap suc (length-map f xs)

shift : (n : ℕ) (p : Option ℕ) → Option.map (n + 1 +◌) p ≡ Option.map (n +◌) (Option.map suc p)
shift n none = refl
shift n (some i) = ap (λ k. some k) (omega arith)

pub index_here :
    (front xs : List ℕ) (c : ℕ) → index {E = String} (front ++ (c ∷ xs)) (length front) ≡ ok c
index_here front xs c =
    let z : length front ≡ length front + 0 = omega arith in
    ap (index (front ++ (c ∷ xs))) z ∙ index-append_add front (c ∷ xs) 0

-- The search in the cached codes is the search in the options.
find_code-position :
    (rest : List DhcpOption) (front tail : List ℕ) (r : ℕ)
    → find_code (length rest) (length front) (front ++ (map code rest ++ tail)) r
      ≡ ok (Option.map (length front +◌) (position rest r))
unfolding find_code position
find_code-position [] front tail r = refl
find_code-position (o ∷ rest) front tail r = elim (Bool-cases (code o == r)) [
  | inl t ↦ enter ∙ ap branch t ∙ ap (λ k. ok (some k)) z ∙ rw t
  | inr t ↦
      enter
      ∙ ap branch t
      ∙ ap₂ (λ k l. find_code (length rest) k l r) (sym n) (sym cs)
      ∙ find_code-position rest (front ++ (code o ∷ [])) tail r
      ∙ ap (λ k. ok (Option.map (k +◌) (position rest r))) n
      ∙ ap (λ k. ok k) (shift (length front) (position rest r))
      ∙ rw t
]
  where
    codes : List ℕ
    codes = front ++ (code o ∷ (map code rest ++ tail))

    branch : Bool → Outcome String (Option ℕ)
    branch b = elim b [
      | true ↦ ok (some (length front))
      | false ↦ find_code (length rest) (length front + 1) codes r
    ]

    enter : find_code (suc (length rest)) (length front) codes r ≡ branch (code o == r)
    enter = ap (λ c. c >>= λ x. branch (x == r)) (index_here front (map code rest ++ tail) (code o))

    z : length front ≡ length front + 0
    z = omega arith

    n : length (front ++ (code o ∷ [])) ≡ length front + 1
    n = omega (arith, length-append front (code o ∷ []))

    cs : (front ++ (code o ∷ [])) ++ (map code rest ++ tail) ≡ codes
    cs = append_assoc front (code o ∷ []) (map code rest ++ tail)

ok-length :
    {xs ys : List DhcpOption}
    → ◌≡◌ {A = Outcome String (List DhcpOption)} (ok xs) (ok ys)
    → length ys ≡ length xs
ok-length h = ap length (sym (ok-injective {E = String} h))

-- The state of the fast loops, with the codes in lockstep.
unfoldable pub fast_state : List ℕ → List DhcpOption → List DhcpOption → Cached
fast_state tail kept rest = record {
  opts = kept ++ rest;
  codes = map code (kept ++ rest) ++ tail;
  pos = length kept;
}

module _ (tail : List ℕ) (n : ℕ) (kept rest : List DhcpOption)
    (size : n ≡ length kept + length rest) where
  codes_front : map code (kept ++ rest) ++ tail ≡ map code kept ++ (map code rest ++ tail)
  codes_front =
      ap (◌++ tail) (map-append code kept rest) ∙ append_assoc (map code kept) (map code rest) tail

  find_rest :
      (r : ℕ)
      → find_code (n - length kept) (length kept) (map code (kept ++ rest) ++ tail) r
        ≡ ok (Option.map (length kept +◌) (position rest r))
  find_rest r =
      let rounds : n - length kept ≡ length rest = omega (arith, size) in
      let front = length-map code kept in
      ap₂ (λ k l. find_code k (length kept) l r) rounds codes_front
      ∙ ap (λ k. find_code (length rest) k (map code kept ++ (map code rest ++ tail)) r) (sym front)
      ∙ find_code-position rest (map code kept) tail r
      ∙ ap (λ k. ok (Option.map (k +◌) (position rest r))) front

  fast_round-none :
      (r : ℕ)
      → position rest r ≡ none
      → fast_round n (fast_state tail kept rest) r ≡ ok (fast_state tail kept rest)
  unfolding fast_state
  fast_round-none r h =
      ap (λ t. t >>= move_both (fast_state tail kept rest)) (find_rest r)
      ∙ ap (λ p. move_both (fast_state tail kept rest) (Option.map (length kept +◌) p)) h

  swap_codes :
      (i : ℕ) (x : DhcpOption) (rest' : List DhcpOption)
      → (if length kept + i == length kept
          then ok (kept ++ rest)
          else swap (length kept + i) (length kept) (kept ++ rest))
        ≡ ok (kept ++ (x ∷ rest'))
      → (if length kept + i == length kept
          then ok (map code (kept ++ rest) ++ tail)
          else swap (length kept + i) (length kept) (map code (kept ++ rest) ++ tail))
        ≡ ok (map code (kept ++ (x ∷ rest')) ++ tail)
  swap_codes i x rest' h = elim (Bool-cases (length kept + i == length kept)) [
    | inl t ↦ if_true _ _ _ t ∙ ok_ap (λ zs. map code zs ++ tail) (sym (if_true _ _ _ t) ∙ h)
    | inr t ↦
        if_false _ _ _ t
        ∙ swap-map code tail (kept ++ rest) (kept ++ (x ∷ rest')) (length kept + i) (length kept)
            (sym (if_false _ _ _ t) ∙ h)
  ]

  fast_round-some :
      (r i : ℕ) (x : DhcpOption) (rest' : List DhcpOption)
      → position rest r ≡ some i
      → (if i == 0 then ok rest else swap i 0 rest) ≡ ok (x ∷ rest')
      → fast_round n (fast_state tail kept rest) r ≡ ok (fast_state tail (kept ++ (x ∷ [])) rest')
  unfolding fast_state
  fast_round-some r i x rest' h s =
      let moved = swap_kept kept rest i x rest' s in
      ap (λ t. t >>= move_both (fast_state tail kept rest)) (find_rest r)
      ∙ ap (λ p. move_both (fast_state tail kept rest) (Option.map (length kept +◌) p)) h
      ∙ rw (moved, swap_codes i x rest' moved)
          (ap₂ (λ xs k. ok (record { opts = xs; codes = map code xs ++ tail; pos = k }))
            (sym (append_assoc kept (x ∷ []) rest')) (one_more kept rest x))

  left_size :
      (i : ℕ) (x : DhcpOption) (rest' : List DhcpOption)
      → (if i == 0 then ok rest else swap i 0 rest) ≡ ok (x ∷ rest')
      → n ≡ length (kept ++ (x ∷ [])) + length rest'
  left_size i x rest' s = omega (arith, size, same, length-append kept (x ∷ []))
    where
      same : length (x ∷ rest') ≡ length rest
      same = elim (Bool-cases (i == 0)) [
        | inl t ↦ ok-length (sym (if_true _ _ _ t) ∙ s)
        | inr t ↦ swap-length rest (x ∷ rest') i 0 (sym (if_false _ _ _ t) ∙ s)
      ]

pub fast_rounds-pick :
    (rs tail : List ℕ) (n : ℕ) (kept rest : List DhcpOption)
    → n ≡ length kept + length rest
    → fast_rounds n rs (fast_state tail kept rest)
      ≡ ok (fast_state tail (kept ++ pick rs rest) (left rs rest))
unfolding fast_rounds pick left
fast_rounds-pick [] tail n kept rest size =
    ap (λ k. ok (fast_state tail k rest)) (sym (append-nil kept))
fast_rounds-pick (r ∷ rs) tail n kept rest size = elim (extract-Takes r rest) [
  | inl (h, e) ↦
      ap (λ t. t >>= fast_rounds n rs) (fast_round-none tail n kept rest size r h)
      ∙ fast_rounds-pick rs tail n kept rest size
      ∙ ap₂ (λ k l. ok (fast_state tail (kept ++ k) l)) (sym (pick-none r rs rest e))
          (sym (left-none r rs rest e))
  | inr (i, x, xs, h, e, s) ↦
      ap (λ t. t >>= fast_rounds n rs) (fast_round-some tail n kept rest size r i x xs h s)
      ∙ fast_rounds-pick rs tail n (kept ++ (x ∷ [])) xs (left_size tail n kept rest size i x xs s)
      ∙ ap₂ (λ k l. ok (fast_state tail k l))
          (append_assoc kept (x ∷ []) (pick rs xs)
            ∙ ap (kept ++◌) (sym (pick-some r rs rest xs x e)))
          (sym (left-some r rs rest xs x e))
]

pub length-pick-left :
    (rs : List ℕ) (rest : List DhcpOption)
    → length rest ≡ length (pick rs rest) + length (left rs rest)
unfolding pick left
length-pick-left [] rest = omega arith
length-pick-left (r ∷ rs) rest = elim (extract-Takes r rest) [
  | inl (h, e) ↦ rw (pick-none r rs rest e, left-none r rs rest e) (length-pick-left rs rest)
  | inr (i, x, xs, h, e, s) ↦
      rw (pick-some r rs rest xs x e, left-some r rs rest xs x e)
        (omega (
          arith,
          length-pick-left rs xs,
          left_size [] (length rest) [] rest (omega arith) i x xs s,
        ))
]
