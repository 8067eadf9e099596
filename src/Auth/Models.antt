-- ===== src/Auth/Models.antt =====
-- Model patterns of pkg/auth/macaroon.go: MatchesAllowedModel and allowedModelPatternNarrows.
use mathlib.Core.List.{reverse}
use diverge.Base.{
  ℕ, zero, suc, ◌-◌, Bool, true, false, not, ◌&&◌, ◌||◌, List, [], ◌∷◌, Option, none, some, Text,
  codes, text_eq, is_empty, has_prefix, contains, if◌then◌else◌, leb, ltb, ◌==◌, length, take, drop,
  any,
}
use diverge.Auth.Types.{Go}

-- strings.HasSuffix and strings.TrimSuffix.
unfoldable pub has_suffix : Text → Text → Bool
has_suffix s p = leb (length p) (length s) && text_eq (drop (length s - length p) s) p

unfoldable pub trim_suffix : Text → Text → Text
unfolding has_suffix
trim_suffix s p = if has_suffix s p then take (length s - length p) s else s

trim_left : ℕ → Text → Text
trim_left b [] = []
trim_left b (c ∷ s) = let rest = trim_left b s in if c == b then rest else c ∷ s

-- strings.Trim with a cutset of one byte.
unfoldable pub trim : ℕ → Text → Text
unfolding trim_left
trim b s = reverse (trim_left b (reverse (trim_left b s)))

-- strings.ContainsAny
unfoldable pub contains_any : Text → Text → Bool
contains_any s chars = any (λ c. any (λ d. c == d) chars) s

abbrev pub star : Text
star = codes "*"

abbrev pub fast_patterns : List Text
fast_patterns =
    codes "*flash*"
    ∷ codes "*haiku*"
    ∷ codes "*mini*"
    ∷ codes "gpt-4o*"
    ∷ codes "claude-3-5-sonnet*"
    ∷ codes "claude-3-7-sonnet*"
    ∷ codes "claude-sonnet*"
    ∷ codes "gemini-2.5-*"
    ∷ []

abbrev pub smart_patterns : List Text
smart_patterns =
    codes "claude-*"
    ∷ codes "gpt-4*"
    ∷ codes "gpt-5*"
    ∷ codes "o1*"
    ∷ codes "o3*"
    ∷ codes "o4*"
    ∷ codes "gemini-*"
    ∷ []

abbrev pub lite_patterns : List Text
lite_patterns =
    codes "*lite*" ∷ codes "*flash*" ∷ codes "*haiku*" ∷ codes "*mini*" ∷ codes "*nano*" ∷ []

-- The map capabilityTierModelPatterns; a name that is no tier has no patterns.
unfoldable pub tier_patterns : Text → List Text
tier_patterns tier =
    if text_eq tier (codes "fast")
    then fast_patterns
    else if text_eq tier (codes "smart")
    then smart_patterns
    else if text_eq tier (codes "lite")
    then lite_patterns
    else []

module _ (go : Go) where
  open go use {match_glob, trim_space, to_lower}

  unfoldable pub is_match : Option Bool → Bool
  is_match none = false
  is_match (some b) = b

  -- The tests of MatchesAllowedModel on a trimmed pattern and model, where `tiers` decides the
  -- patterns of a tier.
  unfoldable pub matches_trimmed : (List Text → Bool) → Text → Text → Bool
  unfolding is_match
  matches_trimmed tiers pattern model =
      if is_empty pattern || is_empty model
      then false
      else if text_eq pattern star || text_eq pattern model
      then true
      else if tiers (tier_patterns (to_lower pattern))
      then true
      else if has_suffix pattern star
          && not (has_prefix pattern star)
          && has_prefix model (trim_suffix pattern star)
      then true
      else if has_prefix pattern star
          && has_suffix pattern star
          && ltb 2 (length pattern)
          && contains model (trim b'*' pattern)
      then true
      else is_match (match_glob pattern model)

  -- MatchesAllowedModel calls itself on the patterns of a tier; the fuel bounds that depth.
  unfoldable pub matches_fuel : ℕ → Text → Text → Bool
  matches_fuel zero pattern model = false
  matches_fuel (suc fuel) pattern model =
      let p = trim_space pattern in
      let m = trim_space model in
      matches_trimmed (λ ps. any (λ tp. matches_fuel fuel tp (to_lower m)) ps) p m

  -- No pattern of a tier names a tier, so two levels are enough.
  unfoldable pub matches_allowed_model : Text → Text → Bool
  matches_allowed_model = matches_fuel 2

  abbrev pub glob_meta : Text
  glob_meta = codes "*?[\\"

  narrows_prefix : Text → Text → Bool
  narrows_prefix existing candidate =
      has_suffix existing star
      && has_suffix candidate star
      && not (contains_any (trim_suffix existing star) glob_meta)
      && not (contains_any (trim_suffix candidate star) glob_meta)
      && has_prefix (trim_suffix candidate star) (trim_suffix existing star)

  narrows_trimmed : Text → Text → Bool
  unfolding narrows_prefix
  narrows_trimmed existing candidate =
      if is_empty existing || is_empty candidate
      then false
      else if text_eq existing candidate || text_eq existing star
      then true
      else if not (contains_any candidate glob_meta)
      then matches_allowed_model existing candidate
      else narrows_prefix existing candidate

  unfoldable pub allowed_model_pattern_narrows : Text → Text → Bool
  unfolding narrows_trimmed
  allowed_model_pattern_narrows existing candidate =
      narrows_trimmed (trim_space existing) (trim_space candidate)
