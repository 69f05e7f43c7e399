-- ===== src/Server/Filter/Kept.antt =====
-- src/server.rs, the option filter: what stays in a reply and what goes.
use mathlib.Core.List.{Perm, Permᴰ}
use mathlib.Core.List.Permᴰ
use rusty_dhcp.Base.{
  ℕ, ◌≡◌, refl, sym, ap, subst, ◌∙◌, ◌⊎◌, inl, inr, Bool, true, false, ◌||◌, List, [], ◌∷◌, ◌++◌,
  Option, none, some, ◌==◌, ok, arith, Bool-cases, All, ==_iff, if_false,
}
use rusty_dhcp.Options.{DhcpOption, code}
use rusty_dhcp.Packet.Lookup.{carries}
use rusty_dhcp.Server.Filter.{essentials, filter_options_by_req}
use rusty_dhcp.Server.Filter.Pick.{
  replace_first, extract, pick, left, pick-none, pick-some, left-none, left-some,
}
use rusty_dhcp.Server.Filter.Fast.{filter_options_by_req-pick}

-- Whether a code is among those asked for.
abbrev pub contains : ℕ → List ℕ → Bool
contains c [] = false
contains c (r ∷ rs) = c == r || contains c rs

or_swap : (a b c : Bool) → (a || (b || c)) ≡ (b || (a || c))
or_swap true true c = refl
or_swap true false c = refl
or_swap false b c = refl

-- A rearrangement carries the same codes.
carries-Permᴰ : (c : ℕ) {xs ys : List DhcpOption} → Permᴰ xs ys → carries c xs ≡ carries c ys
unfolding carries
carries-Permᴰ c Permᴰ.nil = refl
carries-Permᴰ c (Permᴰ.cons e d) = rw (e, carries-Permᴰ c d)
carries-Permᴰ c (Permᴰ.swap {a = a} {b = b} {l = l} e f) =
    or_swap (code a == c) (code b == c) (carries c l) ∙ rw (e, f)
carries-Permᴰ c (Permᴰ.trans d e) = carries-Permᴰ c d ∙ carries-Permᴰ c e

-- An option that `extract` may take, with `front` in front of the others.
abbrev TakesOut : ℕ → List DhcpOption → Option (DhcpOption × List DhcpOption) → Type 0
TakesOut r opts o =
    ((o ≡ none) × (carries r opts ≡ false))
    ⊎ ((x : DhcpOption) × (opts' : List DhcpOption) × (o ≡ some (x, opts'))
        × ((code x == r) ≡ true)
        × Permᴰ opts (x ∷ opts'))

replace_first-TakesOut :
    (r : ℕ) (y : DhcpOption) (opts : List DhcpOption)
    → (code y == r) ≡ false
    → TakesOut r (y ∷ opts) (replace_first r y opts)
unfolding replace_first carries
replace_first-TakesOut r y [] h = inl (refl, rw h)
replace_first-TakesOut r y (o ∷ opts) h = elim (Bool-cases (code o == r)) [
  | inl t ↦ inr (o, y ∷ opts, rw t, t, Permᴰ.swap refl refl)
  | inr t ↦ elim (replace_first-TakesOut r y opts h) [
    | inl (e, n) ↦ inl (
      rw (t, e),
      or_swap (code y == r) (code o == r) (carries r opts) ∙ ap (◌||◌ (code o == r)) n ∙ rw t,
    )
    | inr (x, xs, e, c, d) ↦ inr (
      x,
      o ∷ xs,
      rw (t, e),
      c,
      Permᴰ.trans (Permᴰ.swap refl refl) (Permᴰ.trans (Permᴰ.cons refl d) (Permᴰ.swap refl refl)),
    )
  ]
]

extract-TakesOut : (r : ℕ) (opts : List DhcpOption) → TakesOut r opts (extract r opts)
unfolding extract carries
extract-TakesOut r [] = inl (refl, refl)
extract-TakesOut r (y ∷ opts) = elim (Bool-cases (code y == r)) [
  | inl t ↦ inr (y, opts, rw t, t, Permᴰ.refl (y ∷ opts))
  | inr t ↦
      subst (TakesOut r (y ∷ opts)) (sym (if_false (code y == r) _ _ t))
        (replace_first-TakesOut r y opts t)
]

-- What is kept and what is left are the options of the start, in some order.
pick-Permᴰ : (rs : List ℕ) (opts : List DhcpOption) → Permᴰ (pick rs opts ++ left rs opts) opts
unfolding pick left
pick-Permᴰ [] opts = Permᴰ.refl opts
pick-Permᴰ (r ∷ rs) opts = elim (extract-TakesOut r opts) [
  | inl (e, n) ↦ rw (pick-none r rs opts e, left-none r rs opts e) (pick-Permᴰ rs opts)
  | inr (x, xs, e, c, d) ↦
      rw (pick-some r rs opts xs x e, left-some r rs opts xs x e)
        (Permᴰ.trans (Permᴰ.cons refl (pick-Permᴰ rs xs)) (Permᴰ.symm d))
]

All-Permᴰ : (P : DhcpOption → Type 0) {xs ys : List DhcpOption} → Permᴰ xs ys → All P xs → All P ys
All-Permᴰ P Permᴰ.nil h = h
All-Permᴰ P (Permᴰ.cons e d) h = (subst P e h.0, All-Permᴰ P d h.1)
All-Permᴰ P (Permᴰ.swap e f) h = (subst P f h.1.0, (subst P e h.0, h.1.1))
All-Permᴰ P (Permᴰ.trans d e) h = All-Permᴰ P e (All-Permᴰ P d h)

All-front : (P : DhcpOption → Type 0) (xs ys : List DhcpOption) → All P (xs ++ ys) → All P xs
All-front P [] ys h = tt
All-front P (x ∷ xs) ys h = (h.0, All-front P xs ys h.1)

pub pick-All :
    (P : DhcpOption → Type 0) (rs : List ℕ) (opts : List DhcpOption)
    → All P opts
    → All P (pick rs opts)
pick-All P rs opts h =
    All-front P (pick rs opts) (left rs opts) (All-Permᴰ P (Permᴰ.symm (pick-Permᴰ rs opts)) h)

-- Each option that is kept was asked for.
pick-contains :
    (rs : List ℕ) (opts : List DhcpOption) (c : ℕ)
    → carries c (pick rs opts) ≡ true
    → contains c rs ≡ true
unfolding pick carries
pick-contains [] opts c h = cc
pick-contains (r ∷ rs) opts c h = elim (extract-TakesOut r opts) [
  | inl (e, n) ↦
      let later = pick-contains rs opts c (ap (carries c) (sym (pick-none r rs opts e)) ∙ h) in
      ground (arith, later)
  | inr (x, xs, e, t, d) ↦
      let now : (code x == c || carries c (pick rs xs)) ≡ true =
        ap (carries c) (sym (pick-some r rs opts xs x e)) ∙ h in
      elim (Bool-cases (code x == c)) [
        | inl s ↦ ground arith
        | inr s ↦ let later = pick-contains rs xs c (ground arith) in ground (arith, later)
      ]
]

-- A code that is asked for is served if an option carries it.
pub pick-carries :
    (rs : List ℕ) (opts : List DhcpOption) (c : ℕ)
    → contains c rs ≡ true
    → carries c opts ≡ true
    → carries c (pick rs opts) ≡ true
unfolding pick carries
pick-carries [] opts c h t = cc
pick-carries (r ∷ rs) opts c h t = elim (extract-TakesOut r opts) [
  | inl (e, n) ↦ elim (Bool-cases (c == r)) [
    | inl same ↦
        let away : carries c opts ≡ false = rw ((==_iff c r).0 same) n in absurd (ground arith)
    | inr other ↦ ap (carries c) (pick-none r rs opts e) ∙ pick-carries rs opts c (ground arith) t
  ]
  | inr (x, xs, e, s, d) ↦
      let there : (code x == c || carries c xs) ≡ true = sym (carries-Permᴰ c d) ∙ t in
      ap (carries c) (pick-some r rs opts xs x e) ∙ elim (Bool-cases (code x == c)) [
        | inl here ↦ rw here
        | inr other ↦ rw other (pick-carries rs xs c (ground arith) (ground arith))
      ]
]

-- What the filter says and does.
pub record Keeps (opts : List DhcpOption) (req_params : List ℕ) (kept : List DhcpOption)
    : Type 0 where
  pub rest : List DhcpOption
  pub from_opts : Perm (kept ++ rest) opts
  pub asked : (c : ℕ) → carries c kept ≡ true → contains c (req_params ++ essentials) ≡ true
  pub served :
      (c : ℕ)
      → contains c (req_params ++ essentials) ≡ true
      → carries c opts ≡ true
      → carries c kept ≡ true

-- The filter never panics. What it keeps are options that it got, each with a code that the client
-- asked for or that is essential, and each such code that an option has is kept with one.
pub filter_options_by_req-Keeps :
    (opts : List DhcpOption) (req_params : List ℕ)
    → (kept : List DhcpOption) × (filter_options_by_req opts req_params ≡ ok kept)
      × Keeps opts req_params kept
filter_options_by_req-Keeps opts req_params =
    let rs = req_params ++ essentials in
    (
      pick rs opts,
      filter_options_by_req-pick opts req_params,
      record {
        rest = left rs opts;
        from_opts = ∣ pick-Permᴰ rs opts ∣₁;
        asked = λ c h. pick-contains rs opts c h;
        served = λ c h t. pick-carries rs opts c h t;
      },
    )
