-- ===== src/Meter/Task.antt =====
-- The attempt of ServeHTTP (internal/server/llm_meter.go) that counts a request against a task.
use diverge.Base.{
  ◌-◌, Bool, true, false, not, ◌&&◌, ◌||◌, List, [], ◌∷◌, ◌++◌, Option, none, some, Text, codes,
  is_empty, text_eq, if◌then◌else◌, ltb, length, drop, any, Result, ok, err,
}
use diverge.Base.Int.{ℤ, pos, ltb_ℤ, ◌+ℤ◌, ◌-ℤ◌, wrap_int64, max_int64}
use diverge.Auth.Types.{Go, Claims}

-- LLMMeterRequest
pub record MeterRequest (Float : Type 0) : Type 0 where
  pub request_id : Text
  pub iteration : ℤ
  pub model : Text
  pub tokens_used : ℤ
  pub cost_usd : Float
  pub pr_url : Text

-- AgentTaskPhase, as far as the meter tells phases apart.
pub data Phase : Type 0 where
  paused completed failed : Phase
  running : Text → Phase

-- The fields of an AgentTask that the meter reads or writes: `budget_usd`, `budget_tokens`,
-- `max_iterations` and `suspended` of its spec, two annotations, and the rest of its status.
pub record AgentTask : Type 0 where
  pub suspended : Bool
  pub budget_usd : Text
  pub budget_tokens : ℤ
  pub max_iterations : ℤ
  pub guidance : Text
  pub preview_url : Text
  pub phase : Phase
  pub message : Text
  pub tokens_consumed : ℤ
  pub cost_usd : Text
  pub iteration : ℤ
  pub pr_url : Text
  pub last_meter_request_ids : List Text

-- The totals that every answer on a loaded task reports.
pub record Totals (Float : Type 0) : Type 0 where
  pub total_cost : Float
  pub total_tokens : ℤ
  pub cur_iteration : ℤ
  pub max_iterations : ℤ
  pub guidance : Text
  pub preview_url : Text
  pub pr_url : Text

pub data MeterError : Type 0 where
  task_not_active tokens_overflow : MeterError

pub record Metered (Float : Type 0) : Type 0 where
  pub task : AgentTask
  pub totals : Totals Float
  pub budget_exceeded : Bool
  pub exceed_reason : Text

abbrev pub is_over : Phase → Bool
is_over Phase.paused = true
is_over Phase.completed = true
is_over Phase.failed = true
is_over (Phase.running p) = false

unfoldable pub is_active : AgentTask → Bool
is_active t = not (t.suspended || is_over t.phase)

-- `req.TokensUsed > math.MaxInt64-task.Status.TokensConsumed`
unfoldable pub overflows : ℤ → ℤ → Bool
overflows used consumed = ltb_ℤ (wrap_int64 (pos max_int64 -ℤ consumed)) used

unfoldable pub already_counted : Text → List Text → Bool
already_counted id ids = not (is_empty id) && any (text_eq id) ids

-- The request's id behind the others; the last 32 are kept.
unfoldable pub remember : Text → List Text → List Text
remember id ids =
    let all = ids ++ id ∷ [] in
    if is_empty id then ids else if ltb 32 (length all) then drop (length all - 32) all else all

-- The two messages of a task that is paused.
abbrev pub max_iterations_exceeded : Text
max_iterations_exceeded = codes "max iterations exceeded"

abbrev pub budget_exceeded_reason : Text
budget_exceeded_reason = codes "budget exceeded"

module _ (go : Go) where
  open go use {
    Float, zero_float, float_lt, float_add, is_nan, is_inf, parse_float, format_four_decimals,
    trim_space,
  }

  abbrev pub finite : Option Float → Float
  finite none = zero_float
  finite (some x) = if not (is_nan x) && not (is_inf x) then x else zero_float

  -- The cost so far; a text that is no finite number counts as zero.
  unfoldable pub prev_cost : AgentTask → Float
  prev_cost t = if is_empty t.cost_usd then zero_float else finite (parse_float t.cost_usd)

  unfoldable pub read_totals : AgentTask → Totals Float
  unfolding prev_cost
  read_totals t = record {
    total_cost = prev_cost t;
    total_tokens = t.tokens_consumed;
    cur_iteration = t.iteration;
    max_iterations = t.max_iterations;
    guidance = trim_space t.guidance;
    preview_url = trim_space t.preview_url;
    pr_url = t.pr_url;
  }

  -- `if !alreadyCounted { … }` on the task's status.
  unfoldable pub count_request : MeterRequest Float → Text → AgentTask → AgentTask
  unfolding remember prev_cost
  count_request req trimmed_pr_url t = record t {
    tokens_consumed = wrap_int64 (t.tokens_consumed +ℤ req.tokens_used);
    cost_usd = format_four_decimals (float_add (prev_cost t) req.cost_usd);
    iteration = if ltb_ℤ t.iteration req.iteration then req.iteration else t.iteration;
    pr_url = if is_empty trimmed_pr_url then t.pr_url else trimmed_pr_url;
    last_meter_request_ids = remember req.request_id t.last_meter_request_ids;
  }

  -- The cost and the task after the request; a request that was counted before changes nothing.
  unfoldable pub counted : MeterRequest Float → Text → AgentTask → Float × AgentTask
  unfolding count_request already_counted prev_cost
  counted req trimmed_pr_url t =
      if already_counted req.request_id t.last_meter_request_ids
      then (prev_cost t, t)
      else (float_add (prev_cost t) req.cost_usd, count_request req trimmed_pr_url t)

  -- The USD budget of the spec, if it has a positive one.
  abbrev pub positive : Option Float → Option Float
  positive none = none
  positive (some b) = if float_lt zero_float b then some b else none

  unfoldable pub spec_usd : AgentTask → Option Float
  spec_usd t = if is_empty t.budget_usd then none else positive (parse_float t.budget_usd)

  abbrev pub exceeds_usd : Option Float → Claims Float → Float → Bool
  exceeds_usd (some budget) claims cost = float_lt budget cost
  exceeds_usd none claims cost =
      float_lt zero_float claims.max_cost_usd && float_lt claims.max_cost_usd cost

  unfoldable pub exceeds_tokens : AgentTask → Claims Float → ℤ → Bool
  exceeds_tokens t claims total =
      if ltb_ℤ (pos 0) t.budget_tokens
      then ltb_ℤ t.budget_tokens total
      else ltb_ℤ (pos 0) claims.max_tokens && ltb_ℤ claims.max_tokens total

  abbrev pub exceeds_iterations : AgentTask → Bool
  exceeds_iterations t = ltb_ℤ (pos 0) t.max_iterations && ltb_ℤ t.max_iterations t.iteration

  unfoldable pub pause : Text → AgentTask → AgentTask
  pause message t = record t { phase = Phase.paused; message = message }

  -- The budgets against the totals after the request.
  unfoldable pub enforce : Claims Float → Float → AgentTask → Metered Float
  unfolding spec_usd exceeds_tokens pause read_totals
  enforce claims cost t =
      let over_budget =
        exceeds_usd (spec_usd t) claims cost || exceeds_tokens t claims t.tokens_consumed in
      let over_iterations = not over_budget && exceeds_iterations t in
      record {
        task =
            if over_budget
            then pause (codes "Budget exceeded") t
            else if over_iterations
            then pause (codes "Max iterations exceeded") t
            else t;
        totals = record (read_totals t) { total_cost = cost };
        budget_exceeded = over_budget || over_iterations;
        exceed_reason = if over_iterations then max_iterations_exceeded else budget_exceeded_reason;
      }

  -- The attempt, on the task as loaded.
  unfoldable pub meter_task :
      MeterRequest Float → Text → Claims Float → AgentTask → Result MeterError (Metered Float)
  unfolding is_active overflows counted enforce
  meter_task req trimmed_pr_url claims t =
      let (cost, t') = counted req trimmed_pr_url t in
      if not (is_active t)
      then err MeterError.task_not_active
      else if overflows req.tokens_used t.tokens_consumed
      then err MeterError.tokens_overflow
      else ok (enforce claims cost t')
