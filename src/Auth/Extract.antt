-- ===== src/Auth/Extract.antt =====
-- VerifyAndExtract of pkg/auth/macaroon.go: the effective claims of a token.
use diverge.Base.{
  ℕ, suc, Bool, true, false, not, ◌&&◌, ◌||◌, List, [], ◌∷◌, Option, none, some, Text, text_eq,
  is_empty, split, if◌then◌else◌, ◌==◌, any, all, keep, ok, err, ◌>>=◌, ◌>>◌, guard,
}
use diverge.Base.Hex.{hex_encode}
use diverge.Base.Decimal.{parse_int}
use diverge.Base.Int.{ℤ, pos, ltb_ℤ, eqb_ℤ, ◌+ℤ◌, wrap_int64}
use diverge.Auth.Types.{
  Go, Caveat, Claims, Macaroon, AuthError, Checked, CaveatKey, op_equal, op_in, op_less_than,
  op_before, op_glob,
}
use diverge.Auth.Models.{allowed_model_pattern_narrows}
use diverge.Auth.Mint.{Provider, usable_key, compute_hmac, serialize_caveat_canonical}
use diverge.Auth.Caveats.{caveat_key, parsed, holds, tool_matches, is_positive_cost}

-- The variables of the loop.
pub record Extracting (Float : Type 0) : Type 0 where
  pub sig : Text
  pub claims : Claims Float
  pub has_task_id : Bool
  pub has_namespace : Bool
  pub has_allowed_tools : Bool
  pub has_allowed_models : Bool
  pub has_max_cost_usd : Bool
  pub has_max_tokens : Bool

-- A caveat that must repeat the value bound before it, if any.
abbrev pub agrees : Text → Text → Bool
agrees bound value = is_empty bound || text_eq bound value

-- What time.Time keeps of time.Unix(s, 0): the seconds since the start of year 1, as an int64.
unfoldable pub internal_sec : ℤ → ℤ
internal_sec s = wrap_int64 (s +ℤ pos 62135596800)

-- `time.Unix(s, 0)`, by its Unix seconds: the zero time has no internal seconds.
unfoldable pub unix_time : ℤ → Option ℤ
unix_time s = if eqb_ℤ (internal_sec s) (pos 0) then none else some s

-- `time.Unix(a, 0).Before(time.Unix(b, 0))`
abbrev pub is_before : ℤ → ℤ → Bool
is_before a b = ltb_ℤ (internal_sec a) (internal_sec b)

-- `claims.ExpiresAt.IsZero() || exp.Before(claims.ExpiresAt)`, with `exp := time.Unix(unixSec, 0)`.
unfoldable pub earlier : Option ℤ → ℤ → Option ℤ
earlier none unix_sec = unix_time unix_sec
earlier (some t) unix_sec = if is_before unix_sec t then unix_time unix_sec else some t

-- The patterns of `news` that some pattern of `existing` covers; a first caveat keeps them all.
unfoldable pub narrow : (Text → Text → Bool) → Bool → List Text → List Text → List Text
narrow covers false existing news = news
narrow covers true existing news = keep (λ np. any (λ ex. covers ex np) existing) news

abbrev pub is_nil : List Text → Bool
is_nil [] = true
is_nil (x ∷ xs) = false

module _ (go : Go) where
  open go use {Float, float_lt, zero_float, parse_float, unmarshal}

  -- `ok, _ := filepath.Match(existing, np); ok || np == existing`
  unfoldable pub tool_covers : Text → Text → Bool
  tool_covers existing np = tool_matches go existing np || text_eq np existing

  -- `if !has || limit < claims.MaxCostUSD`
  unfoldable pub tighten_cost : Float → Extracting Float → Extracting Float
  tighten_cost limit s =
      if not s.has_max_cost_usd || float_lt limit s.claims.max_cost_usd
      then record s { claims = record (s.claims) { max_cost_usd = limit }; has_max_cost_usd = true }
      else s

  unfoldable pub tighten_tokens : ℤ → Extracting Float → Extracting Float
  tighten_tokens limit s =
      if not s.has_max_tokens || ltb_ℤ limit s.claims.max_tokens
      then record s { claims = record (s.claims) { max_tokens = limit }; has_max_tokens = true }
      else s

  -- The cases of the switch, for the caveat at index `i` of the token `id`.
  unfoldable pub extract_key :
      CaveatKey → ℕ → Text → Text → Text → ℤ → Extracting Float → Checked (Extracting Float)
  unfolding parsed
  extract_key CaveatKey.task_id i id op value now s = do
    holds (
        text_eq op op_equal
        && not (is_empty value)
        && text_eq value id
        && (s.has_task_id || i == 0))
    ok (record s { claims = record (s.claims) { task_id = value }; has_task_id = true })
  extract_key CaveatKey.namespace i id op value now s = do
    holds (text_eq op op_equal && not (is_empty value) && (s.has_namespace || i == 1))
    holds (agrees s.claims.namespace value)
    ok (record s { claims = record (s.claims) { namespace = value }; has_namespace = true })
  extract_key CaveatKey.repo i id op value now s = do
    holds (text_eq op op_equal && not (is_empty value))
    holds (agrees s.claims.repo_url value)
    ok (record s { claims = record (s.claims) { repo_url = value } })
  extract_key CaveatKey.branch i id op value now s = do
    holds (text_eq op op_equal && not (is_empty value))
    holds (agrees s.claims.branch value)
    ok (record s { claims = record (s.claims) { branch = value } })
  extract_key CaveatKey.expires_at i id op value now s = do
    holds (text_eq op op_before)
    unix_sec ← parsed (parse_int value)
    guard (not (ltb_ℤ unix_sec now)) AuthError.token_expired
    ok (record s {
      claims = record (s.claims) { expires_at = earlier s.claims.expires_at unix_sec };
    })
  extract_key CaveatKey.allowed_tools i id op value now s = do
    holds (text_eq op op_glob && not (is_empty value))
    let patterns = split b',' value
    holds (all (λ np. not (is_empty np)) patterns)
    let narrowed = narrow tool_covers s.has_allowed_tools s.claims.allowed_tools patterns
    holds (not (is_nil narrowed))
    ok (record s {
      claims = record (s.claims) { allowed_tools = narrowed };
      has_allowed_tools = true;
    })
  extract_key CaveatKey.allowed_models i id op value now s = do
    holds (text_eq op op_in && not (is_empty value))
    let models = split b',' value
    holds (all (λ m. not (is_empty m)) models)
    let narrowed =
        narrow (allowed_model_pattern_narrows go) s.has_allowed_models s.claims.allowed_models
          models
    holds (not (is_nil narrowed))
    ok (record s {
      claims = record (s.claims) { allowed_models = narrowed };
      has_allowed_models = true;
    })
  extract_key CaveatKey.max_cost_usd i id op value now s = do
    holds (text_eq op op_less_than)
    max_limit ← parsed (parse_float value)
    holds (is_positive_cost go max_limit)
    ok (tighten_cost max_limit s)
  extract_key CaveatKey.max_tokens i id op value now s = do
    holds (text_eq op op_less_than)
    max_tokens ← parsed (parse_int value)
    holds (ltb_ℤ (pos 0) max_tokens)
    ok (tighten_tokens max_tokens s)
  extract_key CaveatKey.nonce i id op value now s = do
    holds (text_eq op op_equal && not (is_empty value))
    ok s
  extract_key CaveatKey.unrecognized i id op value now s = err AuthError.caveat_failed

  -- One round of the loop.
  unfoldable pub extract_caveat :
      ℕ → Text → Caveat → ℤ → Extracting Float → Checked (Extracting Float)
  extract_caveat i id c now s =
      extract_key (caveat_key c.key) i id c.op c.value now
        (record s { sig = compute_hmac go s.sig (serialize_caveat_canonical c) })

  unfoldable pub extract_all :
      ℕ → Text → List Caveat → ℤ → Extracting Float → Checked (Extracting Float)
  extract_all i id [] now s = ok s
  extract_all i id (c ∷ cs) now s = extract_caveat i id c now s >>= extract_all (suc i) id cs now

  -- The state before the loop: the claims hold the token's id alone.
  unfoldable pub extract_start : Text → Text → Extracting Float
  extract_start root_key id = record {
    sig = compute_hmac go root_key id;
    claims = record {
      task_id = id;
      namespace = [];
      repo_url = [];
      branch = [];
      allowed_tools = [];
      allowed_models = [];
      max_cost_usd = zero_float;
      max_tokens = pos 0;
      tokens_consumed = pos 0;
      expires_at = none;
    };
    has_task_id = false;
    has_namespace = false;
    has_allowed_tools = false;
    has_allowed_models = false;
    has_max_cost_usd = false;
    has_max_tokens = false;
  }

  unfoldable pub extract_macaroon : Text → Macaroon → ℤ → Checked (Claims Float)
  unfolding extract_start
  extract_macaroon root_key mac now = do
    guard (not (is_empty mac.token_id)) AuthError.malformed_token
    s ← extract_all 0 mac.token_id mac.caveat_seq now (extract_start root_key mac.token_id)
    guard (text_eq (hex_encode s.sig) mac.signature) AuthError.invalid_signature
    holds s.has_task_id
    holds s.has_namespace
    ok s.claims

  unfoldable pub verify_and_extract : Provider → Text → ℤ → Checked (Macaroon × Claims Float)
  unfolding usable_key
  verify_and_extract p raw now = do
    root_key ← usable_key AuthError.invalid_signature p
    mac ← parsed (unmarshal raw)
    claims ← extract_macaroon root_key mac now
    ok (mac, claims)
