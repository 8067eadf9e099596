-- ===== src/Meter/Serve.antt =====
-- ServeHTTP of internal/server/llm_meter.go over the stores of tokens and tasks.
use diverge.Base.{
  Bool, true, false, not, [], Option, none, some, Text, codes, is_empty, text_eq, if◌then◌else◌,
  Result, ok, err, ◌>>=◌, ◌>>◌, guard,
}
use diverge.Base.Int.{ℤ}
use diverge.Auth.Types.{Go, Claims}
use diverge.Auth.Mint.{Provider}
use diverge.Auth.Extract.{verify_and_extract}
use diverge.Auth.Secrets.{ApiError}
use diverge.Meter.Task.{
  AgentTask, MeterRequest, Totals, Metered, MeterError, meter_task, read_totals,
}
use diverge.Meter.Handler.{
  MeterResponse, HttpRequest, Wire, Answered, refusal, given, accepted, check_model,
  extract_meter_bearer_token, decode_meter_macaroon_token, is_valid_usage, is_valid_pr_url,
}

-- The store of tokens: CheckRevoked and RevokeToken, whose error is only logged.
pub record TokenStore (S : Type 0) : Type 0 where
  pub check_revoked : Text → Text → S → Result ApiError Bool
  pub revoke_token : Text → Text → S → S

-- What may end an attempt: the task is inactive, its tokens overflow, or the API fails to load or
-- to save it.
pub data MeterFailure (Float : Type 0) : Type 0 where
  not_active : Text → Totals Float → MeterFailure Float
  overflow : MeterFailure Float
  load_failed save_failed : ApiError → MeterFailure Float

-- The cluster's API on AgentTasks, by namespace and name, with retry.RetryOnConflict for the two
-- kinds of attempt.
pub record TaskApi (Float S : Type 0) : Type 0 where
  pub get_task : Text → Text → S → Result ApiError AgentTask
  pub update_status : Text → Text → AgentTask → S → Result ApiError S
  pub update_task : Text → Text → AgentTask → S → Result ApiError S
  pub retry_meter :
      (S → Result (MeterFailure Float) (Metered Float × S))
      → S
      → Result (MeterFailure Float) (Metered Float × S)
  pub retry_suspend : (S → Result ApiError S) → S → Result ApiError S

module _ (go : Go) (wire : Wire (go.Float)) {S : Type 0} (tokens : Option (TokenStore S))
    (api : TaskApi (go.Float) S) where
  open go use {Float, trim_space}
  open api use {get_task, update_status, update_task, retry_meter, retry_suspend}

  unfoldable pub check_token_revoked :
      Option (TokenStore S) → Text → Text → S → Result ApiError Bool
  check_token_revoked none task_id namespace s = ok false
  check_token_revoked (some store) task_id namespace s = store.check_revoked task_id namespace s

  -- The two refusals around a check of revocation.
  unfoldable pub ensure_not_revoked : Text → Text → S → Answered go wire (Unit {0})
  unfolding check_token_revoked
  ensure_not_revoked task_id namespace s = do
    revoked ←
        accepted go wire (refusal go wire 503 (codes "failed to verify token revocation status"))
          (check_token_revoked tokens task_id namespace s)
    guard (not revoked) (refusal go wire 401 (codes "token revoked"))

  unfoldable pub update_task_status : Text → Text → AgentTask → S → Result ApiError S
  update_task_status namespace name t s = elim (update_status namespace name t s) [
    | err ApiError.not_found ↦ update_task namespace name t s
    | err e ↦ err e
    | ok s' ↦ ok s'
  ]

  abbrev pub attempt_result :
      AgentTask → Result MeterError (Metered Float) → Result (MeterFailure Float) (Metered Float)
  attempt_result t (ok m) = ok m
  attempt_result t (err MeterError.task_not_active) =
      err (MeterFailure.not_active t.message (read_totals go t))
  attempt_result t (err MeterError.tokens_overflow) = err MeterFailure.overflow

  abbrev pub saved :
      Metered Float → Result ApiError S → Result (MeterFailure Float) (Metered Float × S)
  saved m (ok s) = ok (m, s)
  saved m (err e) = err (MeterFailure.save_failed e)

  -- One attempt: load the task, count the request, save the status.
  unfoldable pub meter_attempt :
      Text → Claims Float → MeterRequest Float → S → Result (MeterFailure Float) (Metered Float × S)
  meter_attempt namespace claims req s = elim (get_task namespace claims.task_id s) [
    | err e ↦ err (MeterFailure.load_failed e)
    | ok t ↦
        attempt_result t (meter_task go req (trim_space req.pr_url) claims t)
        >>= (λ m. saved m (update_task_status namespace claims.task_id m.task s))
  ]

  abbrev pub or_default : Text → Text → Text
  or_default default t = if is_empty t then default else t

  -- The answers to a failed attempt.
  abbrev pub failure_response : MeterFailure Float → MeterResponse Float
  failure_response (MeterFailure.not_active message totals) = record {
    status = 429;
    allowed = false;
    suspended = true;
    reason = or_default (codes "task is paused or in terminal state") (trim_space message);
    totals = some totals;
  }
  failure_response MeterFailure.overflow =
      refusal go wire 400 (codes "tokensUsed overflows accumulated usage")
  failure_response (MeterFailure.load_failed ApiError.not_found) =
      refusal go wire 404 (codes "agent task not found")
  failure_response (MeterFailure.load_failed e) =
      refusal go wire 500 (codes "failed to load agent task")
  failure_response (MeterFailure.save_failed ApiError.not_found) =
      refusal go wire 404 (codes "agent task not found")
  failure_response (MeterFailure.save_failed e) =
      refusal go wire 500 (codes "failed to update task status")

  -- One attempt to suspend the task's spec.
  unfoldable pub suspend_attempt : Text → Text → S → Result ApiError S
  suspend_attempt namespace name s =
      get_task namespace name s
      >>= (λ t. update_task namespace name (record t { suspended = true }) s)

  abbrev pub revoke_with : Option (TokenStore S) → Text → Text → S → S
  revoke_with none task_id namespace s = s
  revoke_with (some store) task_id namespace s = store.revoke_token task_id namespace s

  -- The answer to an attempt that was saved, and the suspension where a budget is exceeded.
  unfoldable pub conclude : Text → Text → Metered Float → S → MeterResponse Float × S
  conclude namespace task_id m s =
      if m.budget_exceeded
      then elim (retry_suspend (suspend_attempt namespace task_id) s) [
        | err e ↦ (refusal go wire 500 (codes "failed to suspend task"), s)
        | ok s' ↦ (
          record {
            status = 429;
            allowed = false;
            suspended = true;
            reason = m.exceed_reason;
            totals = some m.totals;
          },
          revoke_with tokens task_id namespace s',
        )
      ]
      else (
        record {
          status = 200;
          allowed = true;
          suspended = false;
          reason = [];
          totals = some m.totals;
        },
        s,
      )

  -- `ns := claims.Namespace; if ns == "" { ns = "default" }`
  abbrev pub namespace_of : Claims Float → Text
  namespace_of claims = or_default (codes "default") claims.namespace

  -- Everything before the task's lock: who asks, and for what.
  unfoldable pub authorize :
      Provider → Bool → ℤ → HttpRequest → S → Answered go wire (Claims Float × MeterRequest Float)
  authorize verifier has_client now r s = do
    guard (text_eq r.method (codes "POST")) (refusal go wire 405 (codes "method not allowed"))
    let bearer = extract_meter_bearer_token go wire r.authorization
    guard (not (is_empty bearer))
        (refusal go wire 401 (codes "missing or invalid authorization header"))
    raw ←
        given go wire (refusal go wire 401 (codes "malformed capability token"))
          (decode_meter_macaroon_token go wire bearer)
    _ ← given go wire (refusal go wire 503 (codes "macaroon verifier not configured")) verifier
    verified ←
        accepted go wire (refusal go wire 401 (codes "invalid or expired capability token"))
          (verify_and_extract go verifier raw now)
    let claims = verified.1
    ensure_not_revoked claims.task_id (namespace_of claims) s
    req ←
        given go wire (refusal go wire 400 (codes "invalid JSON request body"))
          (wire.decode_request r.body)
    guard (is_valid_usage go wire req)
        (refusal go wire 400 (codes "tokensUsed and costUSD must be non-negative"))
    guard (is_valid_pr_url go wire (trim_space req.pr_url))
        (refusal go wire 400 (codes "invalid prUrl: must be a valid http or https URL"))
    check_model go wire claims req
    guard has_client (refusal go wire 503 (codes "crd client not configured"))
    ok (claims, req)

  -- Under the lock, on a token that is not revoked.
  unfoldable pub meter_request : Claims Float → MeterRequest Float → S → MeterResponse Float × S
  meter_request claims req s =
      elim (retry_meter (meter_attempt (namespace_of claims) claims req) s) [
        | err e ↦ (failure_response e, s)
        | ok (m, s') ↦ conclude (namespace_of claims) claims.task_id m s'
      ]

  -- ServeHTTP; `wait` is what other requests do to the state while this one waits for the lock.
  unfoldable pub serve_http :
      Provider → Bool → ℤ → (S → S) → HttpRequest → S → MeterResponse Float × S
  serve_http verifier has_client now wait r s = elim (authorize verifier has_client now r s) [
    | err response ↦ (response, s)
    | ok (claims, req) ↦ elim (ensure_not_revoked claims.task_id (namespace_of claims) (wait s)) [
      | err response ↦ (response, wait s)
      | ok _ ↦ meter_request claims req (wait s)
    ]
  ]
