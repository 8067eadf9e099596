-- ===== src/Auth/Caveats.antt =====
-- evaluateCaveat of pkg/auth/macaroon.go: does a caveat hold of a request at a time?
use diverge.Base.{
  Bool, not, ◌&&◌, ◌||◌, Option, none, some, Text, codes, text_eq, is_empty, split, if◌then◌else◌,
  ltb, length, any, all, Result, ok, err, ◌>>=◌, ◌>>◌, guard,
}
use diverge.Base.Decimal.{parse_int}
use diverge.Base.Int.{ℤ, pos, ltb_ℤ}
use diverge.Auth.Types.{
  Go, Caveat, Claims, AuthError, Checked, CaveatKey, op_equal, op_in, op_less_than, op_before,
  op_glob,
}
use diverge.Auth.Models.{matches_allowed_model, is_match}

-- The switch on c.Key, which Verify, VerifyAndExtract and evaluateCaveat share.
unfoldable pub caveat_key : Text → CaveatKey
caveat_key k =
    if text_eq k (codes "task_id")
    then CaveatKey.task_id
    else if text_eq k (codes "namespace")
    then CaveatKey.namespace
    else if text_eq k (codes "repo")
    then CaveatKey.repo
    else if text_eq k (codes "branch")
    then CaveatKey.branch
    else if text_eq k (codes "expires_at")
    then CaveatKey.expires_at
    else if text_eq k (codes "allowed_tools")
    then CaveatKey.allowed_tools
    else if text_eq k (codes "allowed_models")
    then CaveatKey.allowed_models
    else if text_eq k (codes "max_cost_usd")
    then CaveatKey.max_cost_usd
    else if text_eq k (codes "max_tokens")
    then CaveatKey.max_tokens
    else if text_eq k (codes "nonce")
    then CaveatKey.nonce
    else CaveatKey.unrecognized

-- A parsed number, or ErrMalformedToken.
unfoldable pub parsed {ℓ} : {A : Type ℓ} → Option A → Result AuthError A
parsed none = err AuthError.malformed_token
parsed (some a) = ok a

-- `if !b { return ErrCaveatFailed }`
abbrev pub holds : Bool → Checked (Unit {0})
holds b = guard b AuthError.caveat_failed

module _ (go : Go) where
  open go use {Float, zero_float, float_lt, is_nan, is_inf, parse_float, match_glob}

  -- `ok, _ := filepath.Match(pat, tool); ok`
  unfoldable pub tool_matches : Text → Text → Bool
  unfolding is_match
  tool_matches pat tool = is_match go (match_glob pat tool)

  -- `math.IsNaN(x) || math.IsInf(x, 0) || x <= 0`, negated: on a number `x <= 0` is the failure
  -- of `0 < x`.
  unfoldable pub is_positive_cost : Float → Bool
  is_positive_cost x = not (is_nan x) && not (is_inf x) && float_lt zero_float x

  -- The cases of the switch, for the caveat's operator and value, the request and the Unix time.
  unfoldable pub evaluate_key : CaveatKey → Text → Text → Claims Float → ℤ → Checked (Unit {0})
  unfolding parsed tool_matches is_positive_cost
  evaluate_key CaveatKey.task_id op value req now = do
    holds (text_eq op op_equal)
    holds (not (is_empty req.task_id) && text_eq req.task_id value)
  evaluate_key CaveatKey.namespace op value req now = do
    holds (text_eq op op_equal)
    holds (is_empty req.namespace || text_eq req.namespace value)
  evaluate_key CaveatKey.repo op value req now = do
    holds (text_eq op op_equal)
    holds (not (is_empty req.repo_url) && text_eq req.repo_url value)
  evaluate_key CaveatKey.branch op value req now = do
    holds (text_eq op op_equal)
    holds (not (is_empty req.branch) && text_eq req.branch value)
  evaluate_key CaveatKey.expires_at op value req now = do
    holds (text_eq op op_before)
    unix_sec ← parsed (parse_int value)
    guard (not (ltb_ℤ unix_sec now)) AuthError.token_expired
  evaluate_key CaveatKey.allowed_tools op value req now = do
    holds (text_eq op op_glob)
    holds (ltb 0 (length req.allowed_tools))
    holds (all (λ tool. any (λ pat. tool_matches pat tool) (split b',' value)) req.allowed_tools)
  evaluate_key CaveatKey.allowed_models op value req now = do
    holds (text_eq op op_in)
    holds (ltb 0 (length req.allowed_models))
    holds (
        all (λ model. any (λ pat. matches_allowed_model go pat model) (split b',' value))
          req.allowed_models)
  evaluate_key CaveatKey.max_cost_usd op value req now = do
    holds (text_eq op op_less_than)
    max_limit ← parsed (parse_float value)
    holds (is_positive_cost max_limit)
    holds (not (float_lt max_limit req.max_cost_usd))
  evaluate_key CaveatKey.max_tokens op value req now = do
    holds (text_eq op op_less_than)
    max_tokens ← parsed (parse_int value)
    holds (ltb_ℤ (pos 0) max_tokens)
    holds (not (ltb_ℤ max_tokens req.tokens_consumed))
  evaluate_key CaveatKey.nonce op value req now = do
    holds (text_eq op op_equal)
    holds (not (is_empty value))
  evaluate_key CaveatKey.unrecognized op value req now = err AuthError.caveat_failed

  unfoldable pub evaluate_caveat : Caveat → Claims Float → ℤ → Checked (Unit {0})
  evaluate_caveat c req now = evaluate_key (caveat_key c.key) c.op c.value req now
