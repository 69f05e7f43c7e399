-- ===== src/Config/Parse/Settings.antt =====
-- src/config.rs, `Config::parse`, and src/main.rs, `main`: the settings of the services are valid.
use rusty_dhcp.Base.{
  ◌≡◌, refl, subst, inl, inr, List, [], ◌∷◌, Option, none, some, if◌then◌else◌, ok, ◌>>=◌,
  >>=-eq-ok, Outcome-cases, Bool-cases,
}
use rusty_dhcp.Options.{Str}
use rusty_dhcp.Config.{Config, defaults}
use rusty_dhcp.Config.Valid.{IsValid, validate-IsValid, defaults-IsValid}
use rusty_dhcp.Config.Parse.{StrApi, is_blank, apply_line, apply_lines, parse, settings}

module _ (std : StrApi) where
  -- Whatever the text, the settings that `parse` returns are valid.
  parse-IsValid : (text : Str) (c : Config) → parse std text ≡ ok c → IsValid c
  unfolding parse
  parse-IsValid text c h =
      let (d, _, e) = >>=-eq-ok (apply_lines std defaults (std.lines text)) _ h in
      let (same, v) = (validate-IsValid d c).0 e in subst IsValid same v

  -- The settings with which the services start are valid, whatever the file holds and whether it
  -- can be read.
  pub settings-IsValid : (file : Option Str) → IsValid (settings std file)
  unfolding settings
  settings-IsValid none = defaults-IsValid
  settings-IsValid (some text) = elim (Outcome-cases (parse std text)) [
    | inl (c, e) ↦ rw (e, settings) (parse-IsValid text c e)
    | inr (inl (why, e)) ↦ rw (e, settings) defaults-IsValid
    | inr (inr e) ↦ rw (e, settings) defaults-IsValid
  ]

  -- The lines that say something.
  unfoldable pub significant : List Str → List Str
  significant [] = []
  significant (raw ∷ lines) =
      if is_blank std (std.trim raw) then significant lines else raw ∷ significant lines

  -- Blank lines and comments change nothing, an error or a setting of another line included.
  pub apply_lines-significant :
      (c : Config) (lines : List Str)
      → apply_lines std c lines ≡ apply_lines std c (significant lines)
  unfolding apply_lines significant
  apply_lines-significant c [] = refl
  apply_lines-significant c (raw ∷ lines) = elim (Bool-cases (is_blank std (std.trim raw))) [
    | inl t ↦ rw t (apply_lines-significant c lines)
    | inr t ↦
        rw t
          (rw t (λ i. apply_line std c (std.trim raw) >>= λ c'. apply_lines-significant c' lines i))
  ]
