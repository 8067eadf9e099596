-- ===== src/Auth/Minted.antt =====
-- Which requests Verify of pkg/auth/macaroon.go accepts from a token fresh from Mint.
use diverge.Base.{
  List, [], ◌∷◌, Option, none, some, ◌≡◌, ◌≢◌, refl, sym, ◌↔◌, ◌⊎◌, inl, inr, arith, Text, codes,
  Bool, true, false, All, any, ok, text_eq, text_eq_iff, is_empty_iff, join, split-join, Lacks, ltb,
  length, Option-cases, subst,
}
use diverge.Base.Int.{ℤ, pos, ltb_ℤ, IsInt64, ◌≤ℤ◌}
use diverge.Base.Decimal.{format_int, parse_int-format_int}
use diverge.Base.Hex.{hex_encode, hex_encode-ne-nil}
use diverge.Auth.Types.{
  Go, Caveat, Claims, Macaroon, op_equal, op_in, op_less_than, op_before, op_glob,
}
use diverge.Auth.Mint.{caveat, when, expiry_caveats, mint, mint_caveats, cost_value}
use diverge.Auth.Models.{matches_allowed_model}
use diverge.Auth.Caveats.{caveat_key, evaluate_caveat, evaluate_key, tool_matches, is_positive_cost}
use diverge.Auth.Verify.{verify_macaroon}
use diverge.Auth.Signatures.{mint-eq-ok}
use diverge.Auth.Soundness.{Meets, is_task_caveat, is_namespace_caveat, verify_macaroon_iff}
use diverge.Auth.Needs.{
  Needs, opt_iff, cons_iff, append_iff, last_iff, given_ne, given_iff, listed_iff, IsFresh,
  ExpiryIsInt64, not-ltb_ℤ_iff, asked_covered,
}

module _ (go : Go) (required : Claims (go.Float)) (now : ℤ) where
  open go use {Float, zero_float, float_lt, parse_float}

  abbrev Met : Text → Text → Text → Type 0
  Met key op value = Meets go required now (caveat key op value)

  Met-task : (v : Text) → v ≢ [] → Met (codes "task_id") op_equal v ↔ (required.task_id ≡ v)
  unfolding evaluate_caveat evaluate_key caveat_key text_eq
  Met-task v h = ground (arith, text_eq_iff required.task_id v, is_empty_iff required.task_id)

  Met-namespace :
      (v : Text)
      → Met (codes "namespace") op_equal v ↔ ((required.namespace ≡ []) ⊎ (required.namespace ≡ v))
  unfolding evaluate_caveat evaluate_key caveat_key text_eq
  Met-namespace v =
      ground (arith, text_eq_iff required.namespace v, is_empty_iff required.namespace)

  Met-repo : (v : Text) → v ≢ [] → Met (codes "repo") op_equal v ↔ (required.repo_url ≡ v)
  unfolding evaluate_caveat evaluate_key caveat_key text_eq
  Met-repo v h = ground (arith, text_eq_iff required.repo_url v, is_empty_iff required.repo_url)

  Met-branch : (v : Text) → v ≢ [] → Met (codes "branch") op_equal v ↔ (required.branch ≡ v)
  unfolding evaluate_caveat evaluate_key caveat_key text_eq
  Met-branch v h = ground (arith, text_eq_iff required.branch v, is_empty_iff required.branch)

  Met-expiry : (e : ℤ) → IsInt64 e → Met (codes "expires_at") op_before (format_int e) ↔ (now ≤ℤ e)
  unfolding evaluate_caveat evaluate_key caveat_key text_eq
  Met-expiry e h = rw (parse_int-format_int e h, evaluate_key) (ground (arith, not-ltb_ℤ_iff e now))

  Met-tokens :
      (n : ℤ)
      → IsInt64 n
      → ltb_ℤ (pos 0) n ≡ true
      → Met (codes "max_tokens") op_less_than (format_int n) ↔ (required.tokens_consumed ≤ℤ n)
  unfolding evaluate_caveat evaluate_key caveat_key text_eq
  Met-tokens n h p =
      rw (parse_int-format_int n h, evaluate_key)
        (ground (arith, not-ltb_ℤ_iff n required.tokens_consumed))

  -- The request's cost is within a limit that the text spells.
  abbrev pub CostWithin : Text → Type 0
  CostWithin v =
      (limit : Float) × (parse_float v ≡ some limit)
      × (is_positive_cost go limit ≡ true)
      × (float_lt limit required.max_cost_usd ≡ false)

  Met-cost : (v : Text) → Met (codes "max_cost_usd") op_less_than v ↔ CostWithin v
  unfolding evaluate_caveat evaluate_key caveat_key text_eq
  Met-cost v = elim (Option-cases (parse_float v)) [
    | inl e ↦ rw (e, evaluate_key) ((λ h. cc), (λ h. cc))
    | inr (limit, e) ↦
        rw (e, evaluate_key)
          ((λ h. (limit, refl, ground arith, ground arith)), (λ h. ground (arith, h)))
  ]

  -- Every tool, or model, of a non-empty request is covered by a pattern.
  abbrev pub Covered : (Text → Text → Bool) → List Text → List Text → Type 0
  Covered covers patterns asked =
      (asked ≢ []) × All (λ x. any (λ pat. covers pat x) patterns ≡ true) asked

  Met-tools :
      (p : Text) (ps : List Text)
      → All (Lacks b',') (p ∷ ps)
      → Met (codes "allowed_tools") op_glob (join b',' (p ∷ ps))
        ↔ Covered (tool_matches go) (p ∷ ps) required.allowed_tools
  unfolding evaluate_caveat evaluate_key caveat_key text_eq
  Met-tools p ps h =
      rw (split-join b',' p ps h, evaluate_key)
        (asked_covered (λ x. any (λ pat. tool_matches go pat x) (p ∷ ps)) required.allowed_tools)

  Met-models :
      (p : Text) (ps : List Text)
      → All (Lacks b',') (p ∷ ps)
      → Met (codes "allowed_models") op_in (join b',' (p ∷ ps))
        ↔ Covered (matches_allowed_model go) (p ∷ ps) required.allowed_models
  unfolding evaluate_caveat evaluate_key caveat_key text_eq
  Met-models p ps h =
      rw (split-join b',' p ps h, evaluate_key)
        (asked_covered (λ x. any (λ pat. matches_allowed_model go pat x) (p ∷ ps))
          required.allowed_models)

  Met-nonce : (v : Text) → v ≢ [] → Met (codes "nonce") op_equal v
  unfolding evaluate_caveat evaluate_key caveat_key text_eq
  Met-nonce v h = ground (arith, is_empty_iff v)

  abbrev Asks : List Caveat → Type 0 → Type 0
  Asks = Needs (Meets go required now)

  Met-expiry_caveats : (e : Option ℤ) → ExpiryIsInt64 e → Asks (expiry_caveats e) (IsFresh e now)
  Met-expiry_caveats none h = record { iff = ((λ h. tt), (λ h. tt)) }
  Met-expiry_caveats (some e) h =
      let m = Met-expiry e h in record { iff = ((λ a. m.0 a.0), (λ f. (m.1 f, tt))) }

  Met-tools_listed :
      (l : List Text)
      → All (Lacks b',') l
      → Asks
          (when (ltb 0 (length l)) (caveat (codes "allowed_tools") op_glob (join b',' l)))
          ((l ≡ []) ⊎ Covered (tool_matches go) l required.allowed_tools)
  Met-tools_listed [] h = record { iff = ((λ _. inl refl), (λ _. ground arith)) }
  Met-tools_listed (p ∷ ps) h =
      opt_iff (Meets go required now) _ _ (listed_iff (p ∷ ps)) (λ _. Met-tools p ps h)

  Met-models_listed :
      (l : List Text)
      → All (Lacks b',') l
      → Asks
          (when (ltb 0 (length l)) (caveat (codes "allowed_models") op_in (join b',' l)))
          ((l ≡ []) ⊎ Covered (matches_allowed_model go) l required.allowed_models)
  Met-models_listed [] h = record { iff = ((λ _. inl refl), (λ _. ground arith)) }
  Met-models_listed (p ∷ ps) h =
      opt_iff (Meets go required now) _ _ (listed_iff (p ∷ ps)) (λ _. Met-models p ps h)

  -- Claims that fit a token's text: numbers of int64, and patterns that hold no comma.
  pub record IsPrintable (claims : Claims Float) : Type 0 where
    pub expiry : ExpiryIsInt64 claims.expires_at
    pub tokens : IsInt64 claims.max_tokens
    pub tools : All (Lacks b',') claims.allowed_tools
    pub models : All (Lacks b',') claims.allowed_models

  -- What a request must meet, in terms of the claims that were minted. A claim that is left empty
  -- restricts nothing.
  abbrev pub Permits : Claims Float → Type 0
  Permits claims =
      (required.task_id ≡ claims.task_id)
      × (((required.namespace ≡ []) ⊎ (required.namespace ≡ claims.namespace))
          × (((claims.repo_url ≡ []) ⊎ (required.repo_url ≡ claims.repo_url))
              × (((claims.branch ≡ []) ⊎ (required.branch ≡ claims.branch))
                  × (IsFresh claims.expires_at now
                      × (((float_lt zero_float claims.max_cost_usd ≡ false)
                            ⊎ CostWithin (cost_value go claims.max_cost_usd))
                          × (((ltb_ℤ (pos 0) claims.max_tokens ≡ false)
                                ⊎ (required.tokens_consumed ≤ℤ claims.max_tokens))
                              × (((claims.allowed_tools ≡ [])
                                    ⊎ Covered (tool_matches go) claims.allowed_tools
                                        required.allowed_tools)
                                  × ((claims.allowed_models ≡ [])
                                      ⊎ Covered (matches_allowed_model go) claims.allowed_models
                                          required.allowed_models))))))))

  Met-mint_caveats :
      (claims : Claims Float) (nonce : Text)
      → claims.task_id ≢ []
      → nonce ≢ []
      → IsPrintable claims
      → Asks (mint_caveats go claims nonce) (Permits claims)
  unfolding mint_caveats
  Met-mint_caveats claims nonce task n fits =
      let P = Meets go required now in
      cons_iff P (Met-task claims.task_id task) (
        cons_iff P (Met-namespace claims.namespace) (
          append_iff P
            (opt_iff P _ _ (given_iff claims.repo_url)
              (λ b. Met-repo claims.repo_url (given_ne claims.repo_url b)))
            (append_iff P
              (opt_iff P _ _ (given_iff claims.branch)
                (λ b. Met-branch claims.branch (given_ne claims.branch b)))
              (append_iff P (Met-expiry_caveats claims.expires_at fits.expiry) (
                append_iff P
                  (opt_iff P _ _ ((λ e. e), (λ e. e))
                    (λ _. Met-cost (cost_value go claims.max_cost_usd)))
                  (append_iff P
                    (opt_iff P _ _ ((λ e. e), (λ e. e)) (Met-tokens claims.max_tokens fits.tokens))
                    (append_iff P (Met-tools_listed claims.allowed_tools fits.tools) (
                      last_iff P (Met-models_listed claims.allowed_models fits.models)
                        (Met-nonce (hex_encode nonce) (hex_encode-ne-nil nonce n))))))))))

module _ (go : Go) (root_key : Text) (claims : Claims (go.Float)) (nonce : Text)
    {mac : Macaroon} where
  minted_names :
      mint go (some root_key) claims (some nonce) ≡ ok mac
      → (any is_task_caveat mac.caveat_seq ≡ true) × (any is_namespace_caveat mac.caveat_seq ≡ true)
  unfolding any is_task_caveat is_namespace_caveat caveat_key text_eq mint_caveats
  minted_names e =
      let (_, seq, _, task, ns, _) = mint-eq-ok go root_key claims nonce mac e in ground arith

  -- For a token that Mint made, with a non-empty nonce, from claims whose numbers are int64 and
  -- whose patterns hold no comma, Verify accepts exactly the requests that the claims permit, claim
  -- by claim.
  pub verify-mint_iff :
      (required : Claims (go.Float)) (now : ℤ)
      → nonce ≢ []
      → IsPrintable go required now claims
      → mint go (some root_key) claims (some nonce) ≡ ok mac
      → (verify_macaroon go root_key mac required now ≡ ok tt) ↔ Permits go required now claims
  verify-mint_iff required now n fits e =
      let (_, seq, sealed, task, _, _) = mint-eq-ok go root_key claims nonce mac e in
      let accepted = verify_macaroon_iff go root_key mac required now in
      let met =
        Met-mint_caveats go required now claims nonce
          (λ z. ground (arith, is_empty_iff claims.task_id)) n fits in
      let names = minted_names e in
      let P = Meets go required now in
      (
        (λ h. met.iff.0 (subst (All P) seq (accepted.0 h).1)),
        (λ h. accepted.1 (sealed, subst (All P) (sym seq) (met.iff.1 h), names.0, names.1)),
      )
