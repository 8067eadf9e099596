-- ===== src/Auth/Extraction.antt =====
-- The loop of VerifyAndExtract (pkg/auth/macaroon.go), caveat by caveat.
use diverge.Base.{
  ℕ, [], ◌≡◌, refl, ◌⊎◌, inl, inr, arith, Text, Bool, true, false, ok, text_eq_iff, is_empty_iff,
  split, Option-cases,
}
use diverge.Base.Int.{ℤ, pos, ltb_ℤ, ◌≤ℤ◌}
use diverge.Base.Decimal.{parse_int, parse_int-IsInt64}
use diverge.Auth.Types.{Go, CaveatKey}
use diverge.Auth.Caveats.{parsed, is_positive_cost}
use diverge.Auth.Models.{allowed_model_pattern_narrows}
use diverge.Auth.Extract.{
  Extracting, is_nil, tool_covers, tighten_cost, tighten_tokens, extract_key,
}
use diverge.Auth.Narrowing.{
  ClaimsNarrow, ListNarrows-refl, ListNarrows-narrow, Sooner-refl, Sooner-earlier, CostNarrows,
  TokensNarrow, StaysBound,
}

module _ (go : Go) where
  open go use {Float, zero_float, float_lt, parse_float}

  -- Each flag says whether its claim is set.
  pub record IsTracked (s : Extracting Float) : Type 0 where
    pub tokens :
        ((s.has_max_tokens ≡ true) × (ltb_ℤ (pos 0) s.claims.max_tokens ≡ true))
        ⊎ ((s.has_max_tokens ≡ false) × (s.claims.max_tokens ≡ pos 0))
    pub cost :
        ((s.has_max_cost_usd ≡ true) × (is_positive_cost go s.claims.max_cost_usd ≡ true))
        ⊎ ((s.has_max_cost_usd ≡ false) × (s.claims.max_cost_usd ≡ zero_float))
    pub tools :
        ((s.has_allowed_tools ≡ true) × (is_nil s.claims.allowed_tools ≡ false))
        ⊎ ((s.has_allowed_tools ≡ false) × (s.claims.allowed_tools ≡ []))
    pub models :
        ((s.has_allowed_models ≡ true) × (is_nil s.claims.allowed_models ≡ false))
        ⊎ ((s.has_allowed_models ≡ false) × (s.claims.allowed_models ≡ []))

  StaysBound-refl : (v : Text) → StaysBound v v
  StaysBound-refl v = inr refl

  abbrev CostSet : Bool → Float → Type 0
  CostSet has cost =
      ((has ≡ true) × (is_positive_cost go cost ≡ true)) ⊎ ((has ≡ false) × (cost ≡ zero_float))

  CostNarrows-refl : (has : Bool) (cost : Float) → CostSet has cost → CostNarrows go cost cost
  CostNarrows-refl has cost h = ground arith

  TokensNarrow-refl :
      (has : Bool) (n : ℤ)
      → ((has ≡ true) × (ltb_ℤ (pos 0) n ≡ true)) ⊎ ((has ≡ false) × (n ≡ pos 0))
      → TokensNarrow n n
  TokensNarrow-refl has n h = ground arith

  -- The step keeps the flags right and narrows the claims.
  abbrev pub Good : Extracting Float → Extracting Float → Type 0
  Good s t = IsTracked t × ClaimsNarrow go s.claims t.claims

  pub same_claims : (s : Extracting Float) → IsTracked s → ClaimsNarrow go s.claims s.claims
  same_claims s h = record {
    task = refl;
    namespace = inr refl;
    repo = inr refl;
    branch = inr refl;
    expiry = Sooner-refl s.claims.expires_at;
    tokens = TokensNarrow-refl s.has_max_tokens s.claims.max_tokens h.tokens;
    cost = CostNarrows-refl s.has_max_cost_usd s.claims.max_cost_usd h.cost;
    tools = ListNarrows-refl _ s.claims.allowed_tools;
    models = ListNarrows-refl _ s.claims.allowed_models;
  }

  module _ (i : ℕ) (op value : Text) (now : ℤ) (p : pos 0 ≤ℤ now) (s t : Extracting Float)
      (h : IsTracked s) where
    abbrev Steps : CaveatKey → Type 0
    Steps k = extract_key go k i s.claims.task_id op value now s ≡ ok t

    task_Good : Steps CaveatKey.task_id → Good s t
    unfolding extract_key
    task_Good e = ground (arith, same_claims s h, text_eq_iff value s.claims.task_id)

    namespace_Good : Steps CaveatKey.namespace → Good s t
    unfolding extract_key
    namespace_Good e = ground (
      arith,
      same_claims s h,
      text_eq_iff s.claims.namespace value,
      is_empty_iff s.claims.namespace,
    )

    repo_Good : Steps CaveatKey.repo → Good s t
    unfolding extract_key
    repo_Good e = ground (
      arith,
      same_claims s h,
      text_eq_iff s.claims.repo_url value,
      is_empty_iff s.claims.repo_url,
    )

    branch_Good : Steps CaveatKey.branch → Good s t
    unfolding extract_key
    branch_Good e =
        ground
          (arith, same_claims s h, text_eq_iff s.claims.branch value, is_empty_iff s.claims.branch)

    expiry_Good : Steps CaveatKey.expires_at → Good s t
    unfolding extract_key parsed
    expiry_Good e = elim (Option-cases (parse_int value)) [
      | inl none_e ↦ absurd (ground (arith, none_e))
      | inr (n, some_e) ↦ ground (
        arith,
        some_e,
        same_claims s h,
        Sooner-earlier s.claims.expires_at n (parse_int-IsInt64 value n some_e),
      )
    ]

    tokens_Good : Steps CaveatKey.max_tokens → Good s t
    unfolding extract_key parsed tighten_tokens
    tokens_Good e = elim (Option-cases (parse_int value)) [
      | inl none_e ↦ absurd (ground (arith, none_e))
      | inr (n, some_e) ↦ ground (arith, some_e, same_claims s h)
    ]

    cost_Good : Steps CaveatKey.max_cost_usd → Good s t
    unfolding extract_key parsed tighten_cost
    cost_Good e = elim (Option-cases (parse_float value)) [
      | inl none_e ↦ absurd (ground (arith, none_e))
      | inr (n, some_e) ↦ ground (arith, some_e, same_claims s h)
    ]

    tools_Good : Steps CaveatKey.allowed_tools → Good s t
    unfolding extract_key
    tools_Good e = ground (
      arith,
      same_claims s h,
      ListNarrows-narrow (tool_covers go) s.claims.allowed_tools (split b',' value),
    )

    models_Good : Steps CaveatKey.allowed_models → Good s t
    unfolding extract_key
    models_Good e = ground (
      arith,
      same_claims s h,
      ListNarrows-narrow (allowed_model_pattern_narrows go) s.claims.allowed_models
          (split b',' value),
    )

    nonce-Good : Steps CaveatKey.nonce → Good s t
    unfolding extract_key
    nonce-Good e = ground (arith, same_claims s h)

  pub extract_key-Good :
      (k : CaveatKey) (i : ℕ) (op value : Text) (now : ℤ) (p : pos 0 ≤ℤ now)
      (s t : Extracting Float)
      → IsTracked s
      → extract_key go k i s.claims.task_id op value now s ≡ ok t
      → Good s t
  extract_key-Good CaveatKey.task_id i op value now p s t h = task_Good i op value now p s t h
  extract_key-Good CaveatKey.namespace i op value now p s t h =
      namespace_Good i op value now p s t h
  extract_key-Good CaveatKey.repo i op value now p s t h = repo_Good i op value now p s t h
  extract_key-Good CaveatKey.branch i op value now p s t h = branch_Good i op value now p s t h
  extract_key-Good CaveatKey.expires_at i op value now p s t h = expiry_Good i op value now p s t h
  extract_key-Good CaveatKey.allowed_tools i op value now p s t h =
      tools_Good i op value now p s t h
  extract_key-Good CaveatKey.allowed_models i op value now p s t h =
      models_Good i op value now p s t h
  extract_key-Good CaveatKey.max_cost_usd i op value now p s t h = cost_Good i op value now p s t h
  extract_key-Good CaveatKey.max_tokens i op value now p s t h = tokens_Good i op value now p s t h
  extract_key-Good CaveatKey.nonce i op value now p s t h = nonce-Good i op value now p s t h
  extract_key-Good CaveatKey.unrecognized i op value now p s t h = unfold extract_key in λ e. cc
