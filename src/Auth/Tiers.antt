-- ===== src/Auth/Tiers.antt =====
-- MatchesAllowedModel and allowedModelPatternNarrows of pkg/auth/macaroon.go.
use diverge.Base.{
  ℕ, suc, Bool, true, not, ◌&&◌, List, [], ◌∷◌, ◌≡◌, refl, sym, inl, inr, arith, Text, codes,
  text_eq, All, All-mono, any, all, leb, ltb, Bool-cases,
}
use diverge.Auth.Types.{Go}
use diverge.Auth.Models.{tier_patterns, matches_trimmed, matches_fuel, matches_allowed_model}

-- Visible ASCII without upper-case letters.
abbrev pub is_plain : ℕ → Bool
is_plain c = leb 33 c && ltb c 127 && not (leb 65 c && leb c 90)

any-ext :
    {A : Type 0} (p q : A → Bool) (xs : List A) → All (λ x. p x ≡ q x) xs → any p xs ≡ any q xs
unfolding any
any-ext p q [] h = refl
any-ext p q (x ∷ xs) h = cc (h.0, any-ext p q xs h.1)

-- No pattern of a tier names a tier.
tier_patterns-flat :
    (tier : Text) → All (λ p. (all is_plain p ≡ true) × (tier_patterns p ≡ [])) (tier_patterns tier)
unfolding tier_patterns text_eq all
tier_patterns-flat tier = elim (Bool-cases (text_eq tier (codes "fast"))) [
  | inl fast ↦ rw fast (ground arith)
  | inr slow ↦ rw slow (ground arith)
]

module _ (go : Go) where
  open go use {match_glob, trim_space, to_lower}

  -- strings.TrimSpace and strings.ToLower return such a text as it is.
  abbrev pub PlainIsFixed : Type 0
  PlainIsFixed = (s : Text) → all is_plain s ≡ true → (trim_space s ≡ s) × (to_lower s ≡ s)

  same_tiers :
      (tiers tiers' : List Text → Bool) (pattern model : Text)
      → tiers (tier_patterns (to_lower pattern)) ≡ tiers' (tier_patterns (to_lower pattern))
      → matches_trimmed go tiers pattern model ≡ matches_trimmed go tiers' pattern model
  unfolding matches_trimmed
  same_tiers tiers tiers' pattern model e = rw e

  flat_pattern :
      (n : ℕ) (p m : Text)
      → tier_patterns (to_lower (trim_space p)) ≡ []
      → matches_fuel go (suc n) p m ≡ matches_fuel go 1 p m
  unfolding matches_fuel any
  flat_pattern n p m e = same_tiers _ _ (trim_space p) (trim_space m) (rw e)

  -- Where trimming and lower-casing keep a text of visible ASCII without upper-case letters,
  -- MatchesAllowedModel equals its own body with itself in place of the recursive call on the
  -- patterns of a tier.
  matches_allowed_model_unfolds :
      PlainIsFixed
      → (pattern model : Text)
      → matches_allowed_model go pattern model
        ≡ matches_trimmed go
            (λ ps. any (λ tp. matches_allowed_model go tp (to_lower (trim_space model))) ps)
            (trim_space pattern)
            (trim_space model)
  unfolding matches_allowed_model matches_fuel
  matches_allowed_model_unfolds fixed pattern model =
      let tier = to_lower (trim_space pattern) in
      let deeper =
        any-ext (λ tp. matches_fuel go 1 tp (to_lower (trim_space model)))
          (λ tp. matches_fuel go 2 tp (to_lower (trim_space model))) (tier_patterns tier)
          (All-mono _ _ (tier_patterns tier)
            (λ tp h.
              let f = fixed tp h.0 in
              sym (flat_pattern 1 tp (to_lower (trim_space model)) (rw (f.0, f.1) h.1)))
            (tier_patterns-flat tier)) in
      same_tiers (λ ps. any (λ tp. matches_fuel go 1 tp (to_lower (trim_space model))) ps) _
        (trim_space pattern) (trim_space model) deeper
