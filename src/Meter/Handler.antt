-- ===== src/Meter/Handler.antt =====
-- ServeHTTP of internal/server/llm_meter.go.
use diverge.Base.{
  ℕ, Bool, true, false, not, ◌&&◌, ◌||◌, List, [], ◌∷◌, ◌++◌, Option, none, some, Text, codes,
  is_empty, text_eq, has_prefix, if◌then◌else◌, ltb, leb, ◌+◌, ◌==◌, length, any, Result, ok, err,
  ◌>>◌, guard,
}
use diverge.Base.Int.{pos, ltb_ℤ, eqb_ℤ}
use diverge.Auth.Types.{Go, Claims}
use diverge.Auth.Models.{matches_allowed_model}
use diverge.Meter.Task.{MeterRequest, Totals}

-- LLMMeterResponse and its HTTP status; the totals are those of a task that was loaded.
pub record MeterResponse (Float : Type 0) : Type 0 where
  pub status : ℕ
  pub allowed : Bool
  pub suspended : Bool
  pub reason : Text
  pub totals : Option (Totals Float)

pub record HttpRequest : Type 0 where
  pub method : Text
  pub authorization : Text
  pub body : Text

-- Decoders of base64 in the order that they are tried, the JSON decoder behind a limit of 64 KiB,
-- url.Parse with its scheme and host name, and the verb %q.
pub record Wire (Float : Type 0) : Type 0 where
  pub base64_decoders : List (Text → Option Text)
  pub decode_request : Text → Option (MeterRequest Float)
  pub parse_url : Text → Option (Text × Text)
  pub quote : Text → Text

abbrev pub lower_ascii : ℕ → ℕ
lower_ascii c = if leb b'A' c && leb c b'Z' then c + 32 else c

-- strings.EqualFold with a lower-case ASCII text without 'k' and 's'.
unfoldable pub equal_fold : Text → Text → Bool
equal_fold [] [] = true
equal_fold [] (d ∷ t) = false
equal_fold (c ∷ s) [] = false
equal_fold (c ∷ s) (d ∷ t) = lower_ascii c == d && equal_fold s t

abbrev pub onto_first : ℕ → Option (Text × Text) → Option (Text × Text)
onto_first c none = none
onto_first c (some (a, b)) = some (c ∷ a, b)

-- strings.SplitN(s, sep, 2) where it has two parts.
unfoldable pub cut : ℕ → Text → Option (Text × Text)
cut sep [] = none
cut sep (c ∷ s) = let rest = onto_first c (cut sep s) in if c == sep then some ([], s) else rest

-- The first decoder whose result starts with '{'.
unfoldable pub first_decoded : List (Text → Option Text) → Text → Option Text
first_decoded [] t = none
first_decoded (d ∷ ds) t =
    let rest = first_decoded ds t in
    elim (d t) [ none ↦ rest | some raw ↦ if has_prefix raw (codes "{") then some raw else rest ]

module _ (go : Go) (wire : Wire (go.Float)) where
  open go use {Float, zero_float, float_lt, float_eq, is_nan, is_inf, trim_space}
  open wire use {base64_decoders, decode_request, parse_url, quote}

  abbrev pub Answered : Type 0 → Type 0
  Answered = Result (MeterResponse Float)

  abbrev pub refusal : ℕ → Text → MeterResponse Float
  refusal status reason = record {
    status = status;
    allowed = false;
    suspended = false;
    reason = reason;
    totals = none;
  }

  abbrev pub given : {A : Type 0} → MeterResponse Float → Option A → Answered A
  given r none = err r
  given r (some a) = ok a

  abbrev pub accepted : {E A : Type 0} → MeterResponse Float → Result E A → Answered A
  accepted r (err e) = err r
  accepted r (ok a) = ok a

  unfoldable pub extract_meter_bearer_token : Text → Text
  extract_meter_bearer_token header = elim (cut b' ' header) [
    | none ↦ []
    | some (scheme, rest) ↦ if equal_fold scheme (codes "bearer") then trim_space rest else []
  ]

  unfoldable pub decode_meter_macaroon_token : Text → Option Text
  decode_meter_macaroon_token token =
      let trimmed = trim_space token in
      if is_empty trimmed
      then none
      else if has_prefix trimmed (codes "{")
      then some trimmed
      else first_decoded base64_decoders trimmed

  unfoldable pub is_valid_usage : MeterRequest Float → Bool
  is_valid_usage req = not (
      ltb_ℤ req.tokens_used (pos 0)
      || float_lt req.cost_usd zero_float
      || is_nan req.cost_usd
      || is_inf req.cost_usd)

  abbrev pub is_web_url : Option (Text × Text) → Bool
  is_web_url none = false
  is_web_url (some (scheme, host)) =
      (text_eq scheme (codes "http") || text_eq scheme (codes "https")) && not (is_empty host)

  unfoldable pub is_valid_pr_url : Text → Bool
  is_valid_pr_url trimmed = is_empty trimmed || is_web_url (parse_url trimmed)

  unfoldable pub is_zero_cost_pr_report : MeterRequest Float → Bool
  is_zero_cost_pr_report req =
      not (is_empty (trim_space req.pr_url))
      && eqb_ℤ req.tokens_used (pos 0)
      && float_eq req.cost_usd zero_float
      && is_empty (trim_space req.model)

  -- The capability check on the model of the request.
  unfoldable pub check_model : Claims Float → MeterRequest Float → Answered (Unit {0})
  check_model claims req =
      if ltb 0 (length claims.allowed_models) && not (is_zero_cost_pr_report req)
      then guard (not (is_empty (trim_space req.model)))
          (refusal 403 (codes "model is required when token restricts allowed_models"))
        >> guard (any (λ m. matches_allowed_model go m req.model) claims.allowed_models)
            (refusal 403 (codes "model " ++ (quote req.model ++ codes " is not allowed")))
      else ok tt
