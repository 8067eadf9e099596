-- ===== src/Meter/Tests.antt =====
-- A task under a budget of tokens (internal/server/llm_meter.go), and the theorems on it.
use diverge.Base.{
  ℕ, true, false, [], none, some, ◌≡◌, refl, arith, codes, is_empty, text_eq, any, all, split, join,
  contains, has_prefix, Result, ok, err, if◌then◌else◌,
}
use diverge.Base.Int.{pos, IsInt64, ◌+ℤ◌, ◌-ℤ◌, wrap_int64}
use diverge.Base.Decimal.{format_int, parse_int}
use diverge.Auth.Types.{Go, Claims}
use diverge.Auth.Small.{sum, cents, small_go, root_key, token}
use diverge.Meter.Task.{
  MeterRequest, AgentTask, Metered, MeterError, Phase, meter_task, already_counted, is_active,
  overflows, counted, count_request, remember, enforce, pause, prev_cost, read_totals, spec_usd,
  exceeds_tokens,
}
use diverge.Meter.Count.{
  meter_task-tokens, meter_task_twice, meter_task-IsWithin, meter_task-paused, IsWithin,
}
use diverge.Meter.Handler.{
  MeterResponse, HttpRequest, Wire, check_model, extract_meter_bearer_token, cut, equal_fold,
  decode_meter_macaroon_token, is_valid_pr_url, is_valid_usage, is_zero_cost_pr_report,
}
use diverge.Base.Hex.{hex_encode}
use diverge.Auth.Mint.{
  mint, append_caveats, mint_caveats, cost_value, nonce_bytes, serialize_caveat_canonical,
  usable_key,
}
use diverge.Auth.Caveats.{parsed, caveat_key, is_positive_cost}
use diverge.Auth.Extract.{
  verify_and_extract, extract_macaroon, extract_all, extract_caveat, extract_key, extract_start,
  narrow, tighten_cost, tighten_tokens,
}
use diverge.Auth.Models.{
  has_suffix, is_match, matches_allowed_model, matches_fuel, matches_trimmed, tier_patterns, trim,
  trim_suffix,
}
use diverge.Meter.Serve.{
  TaskApi, serve_http, authorize, check_token_revoked, conclude, ensure_not_revoked, meter_attempt,
  meter_request, update_task_status, namespace_of,
}
use diverge.Meter.Safety.{serve_http_allowed, IsAuthorized}
use diverge.Meter.Saved.{IsMetered}

abbrev usage : MeterRequest ℕ
usage = record {
  request_id = codes "r1";
  iteration = pos 2;
  model = codes "gpt-4o";
  tokens_used = pos 60;
  cost_usd = 5;
  pr_url = [];
}

abbrev limits : Claims ℕ
limits = record {
  task_id = codes "t1";
  namespace = codes "dev";
  repo_url = [];
  branch = [];
  allowed_tools = [];
  allowed_models = [];
  max_cost_usd = 0;
  max_tokens = pos 1000;
  tokens_consumed = pos 0;
  expires_at = none;
}

abbrev task : AgentTask
task = record {
  suspended = false;
  budget_usd = [];
  budget_tokens = pos 100;
  max_iterations = pos 5;
  guidance = [];
  preview_url = [];
  phase = Phase.running (codes "Active");
  message = [];
  tokens_consumed = pos 30;
  cost_usd = [];
  iteration = pos 1;
  pr_url = [];
  last_meter_request_ids = [];
}

abbrev unmetered : AgentTask → Metered ℕ
unmetered t = record {
  task = t;
  totals = read_totals small_go t;
  budget_exceeded = false;
  exceed_reason = [];
}

abbrev metered_of : AgentTask → Result MeterError (Metered ℕ) → Metered ℕ
metered_of t (ok m) = m
metered_of t (err e) = unmetered t

abbrev first : Metered ℕ
first = metered_of task (meter_task small_go usage [] limits task)

abbrev again : Metered ℕ
again = metered_of task (meter_task small_go usage [] limits first.task)

abbrev other_usage : MeterRequest ℕ
other_usage = record usage { request_id = codes "r2" }

abbrev over : Metered ℕ
over = metered_of task (meter_task small_go other_usage [] limits first.task)

first_metered : meter_task small_go usage [] limits task ≡ ok first
unfolding meter_task wrap_int64 ◌-ℤ◌ is_empty any ◌+ℤ◌
first_metered = refl

again_metered : meter_task small_go usage [] limits first.task ≡ ok again
unfolding meter_task wrap_int64 ◌-ℤ◌ is_empty any ◌+ℤ◌
again_metered = refl

over_metered : meter_task small_go other_usage [] limits first.task ≡ ok over
unfolding meter_task wrap_int64 ◌-ℤ◌ is_empty any ◌+ℤ◌
over_metered = refl

named : is_empty usage.request_id ≡ false
unfolding is_empty
named = refl

first_within : first.budget_exceeded ≡ false
unfolding meter_task wrap_int64 ◌-ℤ◌ is_empty any ◌+ℤ◌
first_within = refl

over_exceeded : over.budget_exceeded ≡ true
unfolding meter_task wrap_int64 ◌-ℤ◌ is_empty any ◌+ℤ◌ text_eq
over_exceeded = refl

meter_task-tokens_example :
    IsInt64 first.task.tokens_consumed
    × (first.task.tokens_consumed ≡ (
        if already_counted usage.request_id task.last_meter_request_ids
        then task.tokens_consumed
        else task.tokens_consumed +ℤ usage.tokens_used))
    × (first.totals.total_tokens ≡ first.task.tokens_consumed)
meter_task-tokens_example =
    meter_task-tokens small_go usage [] limits task first (ground arith) (ground arith)
      (ground arith) first_metered

meter_task_twice_example :
    (again.task.tokens_consumed ≡ first.task.tokens_consumed)
    × (again.task.cost_usd ≡ first.task.cost_usd)
    × (again.task.last_meter_request_ids ≡ first.task.last_meter_request_ids)
meter_task_twice_example =
    meter_task_twice small_go usage [] limits task first again named first_metered again_metered

meter_task-IsWithin_example : IsWithin small_go usage [] limits first.task
meter_task-IsWithin_example =
    meter_task-IsWithin small_go usage [] limits task first first_metered first_within

meter_task-paused_example :
    meter_task small_go usage [] limits over.task ≡ err MeterError.task_not_active
meter_task-paused_example =
    meter_task-paused small_go other_usage usage [] [] limits limits first.task over over_metered
      over_exceeded

-- A cluster with one task, whose API never fails, and a token that stands for any text.
abbrev one_task : TaskApi ℕ AgentTask
one_task = record {
  get_task = λ ns name t. ok t;
  update_status = λ ns name t old. ok t;
  update_task = λ ns name t old. ok t;
  retry_meter = λ attempt t. attempt t;
  retry_suspend = λ attempt t. attempt t;
}

abbrev decoding_go : Go
decoding_go = record small_go { unmarshal = λ t. some token }

abbrev wire : Wire ℕ
wire = record {
  base64_decoders = [];
  decode_request = λ t. some usage;
  parse_url = λ t. none;
  quote = λ t. t;
}

abbrev post : HttpRequest
post = record { method = codes "POST"; authorization = codes "Bearer {}"; body = [] }

abbrev served : MeterResponse ℕ × AgentTask
served =
    serve_http decoding_go wire none one_task (some root_key) true (pos 1700) (λ t. t) post task

served_allowed : served.0.allowed ≡ true
unfolding serve_http authorize text_eq is_empty extract_meter_bearer_token cut equal_fold
    decode_meter_macaroon_token has_prefix verify_and_extract parsed extract_macaroon mint
    extract_all append_caveats mint_caveats extract_caveat extract_key caveat_key is_positive_cost
    extract_start narrow tighten_cost tighten_tokens cost_value nonce_bytes
    serialize_caveat_canonical usable_key has_suffix is_match matches_allowed_model matches_fuel
    matches_trimmed tier_patterns trim trim_suffix contains join split format_int parse_int
    hex_encode wrap_int64 ◌+ℤ◌ ◌-ℤ◌ all any check_model is_valid_pr_url is_valid_usage
    is_zero_cost_pr_report check_token_revoked conclude ensure_not_revoked meter_attempt
    meter_request update_task_status already_counted count_request counted enforce exceeds_tokens
    is_active meter_task overflows pause prev_cost read_totals remember spec_usd sum cents
served_allowed = refl

serve_http_allowed_example :
    (c : Claims ℕ) × (req : MeterRequest ℕ) × IsAuthorized decoding_go wire none one_task
      (some root_key)
      (pos 1700)
      post
      c
      req
    × (check_token_revoked decoding_go wire none one_task none c.task_id
          (namespace_of decoding_go wire none one_task c)
          task
        ≡ ok false)
    × IsMetered decoding_go wire none one_task c req served.1
serve_http_allowed_example =
    serve_http_allowed decoding_go wire none one_task (λ attempt s r e. (s, e)) (some root_key) true
      (pos 1700) (λ t. t) post task served_allowed
