-- ===== src/Server/Filter/Fast.antt =====
-- src/server.rs, `filter_options_by_req`: the cached codes stay in lockstep with the options, so
-- the fast path returns what the slow one does.
mod Rounds
use Prim.Native.String.{String}
use mathlib.Core.Path.{ap₂}
use mathlib.Core.List.{append_assoc}
use rusty_dhcp.Base.{
  ℕ, ◌+◌, ◌≤◌, ◌≡◌, refl, sym, ap, ◌∙◌, inl, inr, true, List, [], ◌∷◌, ◌++◌, map, length, drop,
  take, set, replicate, ◌==◌, ltb, Outcome, ok, ◌>>=◌, arith, Bool-cases, take-append,
  length-append, if_true, if_false, ltb_false→le,
}
use rusty_dhcp.Options.{DhcpOption, code}
use rusty_dhcp.Server.Filter.{
  essentials, store, filter_options_by_req_slow, fill_codes, fast_rounds, filter_options_by_req,
}
use rusty_dhcp.Server.Filter.Swap.{set-append_add}
use rusty_dhcp.Server.Filter.Pick.{
  extract, pick, left, pick-append, filter_options_by_req_slow-pick,
}
use rusty_dhcp.Server.Filter.Fast.Rounds.{
  index_here, fast_state, fast_rounds-pick, length-pick-left,
}

-- The cache is filled with the codes of all options.
fill_codes-map :
    (opts : List DhcpOption) (front back : List ℕ)
    → length opts ≤ length back
    → fill_codes (length front) opts (front ++ back)
      ≡ ok (front ++ (map code opts ++ drop (length opts) back))
unfolding fill_codes
fill_codes-map [] front back h = refl
fill_codes-map (o ∷ opts) front [] h = absurd (omega arith)
fill_codes-map (o ∷ opts) front (b ∷ back) h =
    ap (λ t. t >>= λ cs. fill_codes (length front + 1) opts cs) stored
    ∙ ap₂ (λ k l. fill_codes k opts l) (sym n) (sym (append_assoc front (code o ∷ []) back))
    ∙ fill_codes-map opts (front ++ (code o ∷ [])) back (omega arith)
    ∙ ap (λ k. ok k) (append_assoc front (code o ∷ []) (map code opts ++ drop (length opts) back))
  where
    n : length (front ++ (code o ∷ [])) ≡ length front + 1
    n = omega (arith, length-append front (code o ∷ []))

    z : length front + 0 ≡ length front
    z = omega arith

    stored : store (length front) (code o) (front ++ (b ∷ back)) ≡ ok (front ++ (code o ∷ back))
    stored = rw (index_here front back b) (
        ap (λ k. ok (set (front ++ (b ∷ back)) k (code o))) (sym z)
        ∙ ap (λ k. ok k) (set-append_add front (b ∷ back) 0 (code o)))

pick-empty : (rs : List ℕ) → pick rs [] ≡ []
unfolding pick extract
pick-empty [] = refl
pick-empty (r ∷ rs) = pick-empty rs

no_options : (opts : List DhcpOption) → (length opts == 0) ≡ true → opts ≡ []
no_options [] h = refl
no_options (o ∷ opts) h = absurd (ground arith)

-- The fast path behind its two early returns.
abbrev cached_path : ℕ → List DhcpOption → List ℕ → List ℕ → Outcome String (List DhcpOption)
cached_path n opts codes req_params = do
  s ← fast_rounds n req_params (record { opts = opts; codes = codes; pos = 0 })
  s' ← fast_rounds n essentials s
  ok (take s'.pos s'.opts)

cached_path-pick :
    (opts : List DhcpOption) (tail req_params : List ℕ)
    → cached_path (length opts) opts (map code opts ++ tail) req_params
      ≡ ok (pick (req_params ++ essentials) opts)
unfolding fast_state
cached_path-pick opts tail req_params =
    ap (λ t. t >>= λ s. fast_rounds n essentials s >>= λ s'. ok (take s'.pos s'.opts))
      (fast_rounds-pick req_params tail n [] opts (omega arith))
    ∙ ap (λ t. t >>= λ s'. ok (take s'.pos s'.opts))
        (fast_rounds-pick essentials tail n kept rest (length-pick-left req_params opts))
    ∙ ap (λ k. ok k)
        (take-append (kept ++ pick essentials rest) (left essentials rest)
          ∙ sym (pick-append req_params essentials opts))
  where
    n : ℕ
    n = length opts

    kept : List DhcpOption
    kept = pick req_params opts

    rest : List DhcpOption
    rest = left req_params opts

pub filter_options_by_req-pick :
    (opts : List DhcpOption) (req_params : List ℕ)
    → filter_options_by_req opts req_params ≡ ok (pick (req_params ++ essentials) opts)
unfolding filter_options_by_req
filter_options_by_req-pick opts req_params = elim (Bool-cases (length opts == 0)) [
  | inl z ↦
      if_true _ _ _ z
      ∙ rw (no_options opts z) (ap (λ k. ok k) (sym (pick-empty (req_params ++ essentials))))
  | inr z ↦ elim (Bool-cases (ltb 64 (length opts))) [
    | inl t ↦ if_false _ _ _ z ∙ if_true _ _ _ t ∙ filter_options_by_req_slow-pick opts req_params
    | inr t ↦
        if_false _ _ _ z
        ∙ if_false _ _ _ t
        ∙ ap (λ c. c >>= λ codes. cached_path (length opts) opts codes req_params)
            (fill_codes-map opts [] (replicate 64 0) (ltb_false→le 64 (length opts) t))
        ∙ cached_path-pick opts (drop (length opts) (replicate 64 0)) req_params
  ]
]

-- The fast path returns what the slow one returns, for any options and any codes, and neither
-- panics: both return what `pick` takes for the codes asked for, and then for the essential ones.
pub filter_options_by_req-slow :
    (opts : List DhcpOption) (req_params : List ℕ)
    → (filter_options_by_req opts req_params ≡ filter_options_by_req_slow opts req_params)
      × (filter_options_by_req_slow opts req_params ≡ ok (pick (req_params ++ essentials) opts))
filter_options_by_req-slow opts req_params =
    let slow = filter_options_by_req_slow-pick opts req_params in
    (filter_options_by_req-pick opts req_params ∙ sym slow, slow)
