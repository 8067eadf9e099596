-- ===== src/Meter/Saved.antt =====
-- The attempts of ServeHTTP (internal/server/llm_meter.go) that are counted and saved.
use diverge.Base.{
  true, false, Option, ◌≡◌, refl, sym, ap, ◌∙◌, inl, inr, arith, Text, Result, ok, err,
  Result-cases, Bool-cases, subst,
}
use diverge.Auth.Types.{Go, Claims}
use diverge.Auth.Secrets.{ApiError}
use diverge.Meter.Task.{AgentTask, MeterRequest, Metered, MeterError, meter_task}
use diverge.Meter.Count.{IsWithin, meter_task-IsWithin}
use diverge.Meter.Handler.{MeterResponse, Wire}
use diverge.Meter.Serve.{
  TokenStore, TaskApi, MeterFailure, namespace_of, update_task_status, meter_attempt, meter_request,
  conclude, failure_response, suspend_attempt,
}

module _ (go : Go) (wire : Wire (go.Float)) {S : Type 0} (tokens : Option (TokenStore S))
    (api : TaskApi (go.Float) S) where
  open go use {Float}

  -- An attempt that was saved is concluded with 200 exactly if no budget is exceeded.
  conclude-allowed :
      (namespace task_id : Text) (m : Metered Float) (s : S)
      → (conclude go wire tokens api namespace task_id m s).0.allowed ≡ true
      → (m.budget_exceeded ≡ false) × ((conclude go wire tokens api namespace task_id m s).1 ≡ s)
  unfolding conclude
  conclude-allowed namespace task_id m s h = elim (Bool-cases m.budget_exceeded) [
    | inr within ↦ (within, rw within)
    | inl exceeded ↦
        elim (Result-cases
          (api.retry_suspend (suspend_attempt go wire tokens api namespace task_id) s)) [
            | inl (s', e) ↦ absurd (ground (arith, e))
            | inr (x, e) ↦ absurd (ground (arith, e))
          ]
  ]

  -- The task of the claims, as it was found, was counted to `m`, and saving it left the state s'.
  abbrev pub IsCounted : Claims Float → MeterRequest Float → S → Metered Float → S → Type 0
  IsCounted c req s m s' =
      let ns = namespace_of go wire tokens api c in
      (t : AgentTask) × (api.get_task ns c.task_id s ≡ ok t)
      × (meter_task go req (go.trim_space req.pr_url) c t ≡ ok m)
      × (update_task_status go wire tokens api ns c.task_id m.task s ≡ ok s')

  -- In some state the request was counted and saved, and the saved task is within its budgets.
  abbrev pub IsMetered : Claims Float → MeterRequest Float → S → Type 0
  IsMetered c req s' =
      (s : S) × (m : Metered Float) × IsCounted c req s m s'
      × (m.budget_exceeded ≡ false)
      × IsWithin go req (go.trim_space req.pr_url) c m.task

  -- retry.RetryOnConflict succeeds with what one of its attempts returns, in the state of that attempt.
  abbrev pub ReturnsAnAttempt : Type 0
  ReturnsAnAttempt =
      (attempt : S → Result (MeterFailure Float) (Metered Float × S)) (s : S)
      (r : Metered Float × S)
      → api.retry_meter attempt s ≡ ok r
      → (s' : S) × (attempt s' ≡ ok r)

  meter_attempt_inv :
      (c : Claims Float) (req : MeterRequest Float) (s s' : S) (m : Metered Float)
      → meter_attempt go wire tokens api (namespace_of go wire tokens api c) c req s ≡ ok (m, s')
      → IsCounted c req s m s'
  unfolding meter_attempt
  meter_attempt_inv c req s s' m h =
      let ns = namespace_of go wire tokens api c in
      elim (Result-cases (api.get_task ns c.task_id s)) [
        | inr (x, e) ↦ absurd (ground (arith, e))
        | inl (t, e) ↦ elim (Result-cases (meter_task go req (go.trim_space req.pr_url) c t)) [
          | inr (MeterError.task_not_active, f) ↦ absurd (ground (arith, e, f))
          | inr (MeterError.tokens_overflow, f) ↦ absurd (ground (arith, e, f))
          | inl (n, f) ↦
              elim (Result-cases (update_task_status go wire tokens api ns c.task_id n.task s)) [
                | inr (y, g) ↦ absurd (ground (arith, e, f, g))
                | inl (u, g) ↦
                    let same : (n ≡ m) × (u ≡ s') = ground (arith, e, f, g) in
                    (
                      t,
                      e,
                      f ∙ ap (λ x. ok x) same.0,
                      subst
                          (λ (x : Metered Float).
                            update_task_status go wire tokens api ns c.task_id x.task s ≡ ok s')
                          same.0 (g ∙ ap (λ x. ok x) same.1),
                    )
              ]
        ]
      ]

  failure-refused :
      (e : MeterFailure Float) → (failure_response go wire tokens api e).allowed ≡ false
  failure-refused (MeterFailure.not_active message totals) = refl
  failure-refused MeterFailure.overflow = refl
  failure-refused (MeterFailure.load_failed ApiError.not_found) = refl
  failure-refused (MeterFailure.load_failed _) = refl
  failure-refused (MeterFailure.save_failed ApiError.not_found) = refl
  failure-refused (MeterFailure.save_failed _) = refl

  meter_request-eq-conclude :
      (c : Claims Float) (req : MeterRequest Float) (s s' : S) (m : Metered Float)
      → api.retry_meter
          (meter_attempt go wire tokens api (namespace_of go wire tokens api c) c req)
          s
        ≡ ok (m, s')
      → meter_request go wire tokens api c req s
        ≡ conclude go wire tokens api (namespace_of go wire tokens api c) c.task_id m s'
  unfolding meter_request conclude
  meter_request-eq-conclude c req s s' m e = rw (e, meter_request)

  meter_request-eq-failure :
      (c : Claims Float) (req : MeterRequest Float) (s : S) (x : MeterFailure Float)
      → api.retry_meter
          (meter_attempt go wire tokens api (namespace_of go wire tokens api c) c req)
          s
        ≡ err x
      → meter_request go wire tokens api c req s ≡ (failure_response go wire tokens api x, s)
  unfolding meter_request
  meter_request-eq-failure c req s x e = rw (e, meter_request)

  -- What is let through was counted and saved.
  pub meter_request-allowed :
      (retries : ReturnsAnAttempt) (c : Claims Float) (req : MeterRequest Float) (s : S)
      → (meter_request go wire tokens api c req s).0.allowed ≡ true
      → IsMetered c req (meter_request go wire tokens api c req s).1
  meter_request-allowed retries c req s h =
      let ns = namespace_of go wire tokens api c in
      elim (Result-cases (api.retry_meter (meter_attempt go wire tokens api ns c req) s)) [
        | inl ((m, s'), e) ↦
            let q = meter_request-eq-conclude c req s s' m e in
            let done =
              conclude-allowed ns c.task_id m s'
                (subst (λ (x : MeterResponse Float × S). x.0.allowed ≡ true) q h) in
            let attempt = meter_attempt go wire tokens api ns c req in
            let (s1, tried) = retries attempt s (m, s') e in
            let counted = meter_attempt_inv c req s1 s' m tried in
            let (t, _, count, _) = counted in
            let within = meter_task-IsWithin go req (go.trim_space req.pr_url) c t m count done.0 in
            let metered : IsMetered c req s' = (s1, m, counted, done.0, within) in
            subst (λ (x : MeterResponse Float × S). IsMetered c req x.1) (sym q)
              (subst (λ u. IsMetered c req u) (sym done.1) metered)
        | inr (x, e) ↦
            let q = meter_request-eq-failure c req s x e in
            absurd (
              cc (
                failure-refused x,
                subst (λ (y : MeterResponse Float × S). y.0.allowed ≡ true) q h,
              ))
      ]
