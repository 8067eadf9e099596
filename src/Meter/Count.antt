-- ===== src/Meter/Count.antt =====
-- What an attempt of the meter (internal/server/llm_meter.go) guarantees of a task.
use diverge.Base.{
  ℕ, zero, suc, ◌-◌, ◌≤◌, true, false, List, [], ◌∷◌, ◌++◌, ◌≡◌, refl, inl, inr, ◌⊎◌, arith, Text,
  is_empty, text_eq, text_eq_refl, Bool-cases, if◌then◌else◌, ltb, length, length-append,
  length-drop, drop, any_complete, In, In-append_right, ok, err,
}
use diverge.Base.Int.{
  ℤ, pos, ltb_ℤ, ◌+ℤ◌, ◌-ℤ◌, +ℤ_parts, -ℤ_parts, ◌≤ℤ◌, IsInt64, wrap_int64_of_IsInt64, max_int64,
}
use diverge.Auth.Types.{Go, Claims}
use diverge.Meter.Task.{
  MeterRequest, AgentTask, Metered, MeterError, is_active, overflows, already_counted, remember,
  prev_cost, count_request, counted, enforce, meter_task, exceeds_tokens, pause, read_totals,
}

drop-append :
    {A : Type 0} (n : ℕ) (xs ys : List A) → n ≤ length xs → drop n (xs ++ ys) ≡ drop n xs ++ ys
drop-append zero xs ys h = refl
drop-append (suc n) [] ys h = absurd (ground arith)
drop-append (suc n) (x ∷ xs) ys h = drop-append n xs ys (ground arith)

In-drop_last : (x : Text) (n : ℕ) (xs : List Text) → n ≤ length xs → In x (drop n (xs ++ x ∷ []))
In-drop_last x n xs h =
    rw (drop-append n xs (x ∷ []) h) (In-append_right x (drop n xs) (x ∷ []) (inl refl))

-- A non-empty id is known once it is remembered.
already_counted-remember :
    (id : Text) (ids : List Text)
    → is_empty id ≡ false
    → already_counted id (remember id ids) ≡ true
unfolding already_counted remember
already_counted-remember id ids given =
    let n = length-append ids (id ∷ []) in
    let known =
      λ (l : List Text) (i : In id l). any_complete (text_eq id) id l i (text_eq_refl id) in
    elim (Bool-cases (ltb 32 (length (ids ++ id ∷ [])))) [
      | inl long ↦ rw (given, long) (known _ (In-drop_last id _ ids (ground (arith, n))))
      | inr short ↦ rw (given, short) (known _ (In-append_right id ids (id ∷ []) (inl refl)))
    ]

-- At most 32 ids are kept.
length-remember : (id : Text) (ids : List Text) → length ids ≤ 32 → length (remember id ids) ≤ 32
unfolding remember
length-remember id ids fits =
    let n = length-append ids (id ∷ []) in
    let m = length-drop (length (ids ++ id ∷ []) - 32) (ids ++ id ∷ []) in ground (arith, n, m)

room-IsInt64 : (c : ℤ) → pos 0 ≤ℤ c → IsInt64 c → IsInt64 (pos max_int64 -ℤ c)
unfolding ◌-ℤ◌
room-IsInt64 c h fits = ground arith

sum-IsInt64 :
    (c u : ℤ) → IsInt64 c → pos 0 ≤ℤ c → pos 0 ≤ℤ u → overflows u c ≡ false → IsInt64 (c +ℤ u)
unfolding overflows
sum-IsInt64 c u fits hc hu h =
    let room = wrap_int64_of_IsInt64 (pos max_int64 -ℤ c) (room-IsInt64 c hc fits) in
    let parts = -ℤ_parts (pos max_int64) c in let sum = +ℤ_parts c u in ground (arith, room)

module _ (go : Go) (req : MeterRequest (go.Float)) (url : Text) (claims : Claims (go.Float)) where
  open go use {Float}

  -- An attempt that succeeds was on an active task, and is the budgets applied to the count.
  meter_task_inv :
      (t : AgentTask) (m : Metered Float)
      → meter_task go req url claims t ≡ ok m
      → (is_active t ≡ true)
        × (overflows req.tokens_used t.tokens_consumed ≡ false)
        × (m ≡ enforce go claims (counted go req url t).0 (counted go req url t).1)
  unfolding meter_task
  meter_task_inv t m e = ground arith

  enforce-status :
      (cost : Float) (t : AgentTask)
      → ((enforce go claims cost t).task.tokens_consumed ≡ t.tokens_consumed)
        × ((enforce go claims cost t).task.cost_usd ≡ t.cost_usd)
        × ((enforce go claims cost t).task.last_meter_request_ids ≡ t.last_meter_request_ids)
        × ((enforce go claims cost t).totals.total_tokens ≡ t.tokens_consumed)
  unfolding enforce pause read_totals
  enforce-status cost t = ground arith

  counted-tokens :
      (t : AgentTask)
      → IsInt64 t.tokens_consumed
      → pos 0 ≤ℤ t.tokens_consumed
      → pos 0 ≤ℤ req.tokens_used
      → overflows req.tokens_used t.tokens_consumed ≡ false
      → IsInt64 ((counted go req url t).1.tokens_consumed)
        × ((counted go req url t).1.tokens_consumed ≡ (
            if already_counted req.request_id t.last_meter_request_ids
            then t.tokens_consumed
            else t.tokens_consumed +ℤ req.tokens_used))
  unfolding counted count_request
  counted-tokens t fits c u o =
      let sum = sum-IsInt64 t.tokens_consumed req.tokens_used fits c u o in
      let plain = wrap_int64_of_IsInt64 (t.tokens_consumed +ℤ req.tokens_used) sum in
      elim (Bool-cases (already_counted req.request_id t.last_meter_request_ids)) [
        | inl old ↦ rw old (fits, refl)
        | inr new ↦ rw (new, plain) (sum, refl)
      ]

  -- For a task and a request with non-negative tokens, where those of the task are an int64: a
  -- request that is let through leaves the task's tokens as they were if it was counted before, and
  -- otherwise the exact sum, which is an int64; the totals report the same.
  pub meter_task-tokens :
      (t : AgentTask) (m : Metered Float)
      → IsInt64 t.tokens_consumed
      → pos 0 ≤ℤ t.tokens_consumed
      → pos 0 ≤ℤ req.tokens_used
      → meter_task go req url claims t ≡ ok m
      → IsInt64 m.task.tokens_consumed
        × (m.task.tokens_consumed ≡ (
            if already_counted req.request_id t.last_meter_request_ids
            then t.tokens_consumed
            else t.tokens_consumed +ℤ req.tokens_used))
        × (m.totals.total_tokens ≡ m.task.tokens_consumed)
  meter_task-tokens t m fits c u e =
      let (_, o, same) = meter_task_inv t m e in
      let (tokens, _, _, totals) =
        enforce-status (counted go req url t).0 (counted go req url t).1 in
      let (int, sum) = counted-tokens t fits c u o in rw (same, tokens, totals) (int, sum, refl)

  counted-ids :
      (t : AgentTask)
      → is_empty req.request_id ≡ false
      → already_counted req.request_id (counted go req url t).1.last_meter_request_ids ≡ true
  unfolding counted count_request
  counted-ids t given =
      elim (Bool-cases (already_counted req.request_id t.last_meter_request_ids)) [
        | inl old ↦ rw old old
        | inr new ↦ rw new (already_counted-remember req.request_id t.last_meter_request_ids given)
      ]

  counted_again :
      (t : AgentTask)
      → already_counted req.request_id t.last_meter_request_ids ≡ true
      → counted go req url t ≡ (prev_cost go t, t)
  unfolding counted
  counted_again t old = rw old

  -- A request with an id that is let through twice in a row changes neither tokens nor cost nor
  -- remembered ids the second time.
  pub meter_task_twice :
      (t : AgentTask) (m m' : Metered Float)
      → is_empty req.request_id ≡ false
      → meter_task go req url claims t ≡ ok m
      → meter_task go req url claims m.task ≡ ok m'
      → (m'.task.tokens_consumed ≡ m.task.tokens_consumed)
        × (m'.task.cost_usd ≡ m.task.cost_usd)
        × (m'.task.last_meter_request_ids ≡ m.task.last_meter_request_ids)
  meter_task_twice t m m' given e e' =
      let (_, _, same) = meter_task_inv t m e in
      let (_, _, same') = meter_task_inv m.task m' e' in
      let (_, _, ids, _) = enforce-status (counted go req url t).0 (counted go req url t).1 in
      let known : already_counted req.request_id m.task.last_meter_request_ids ≡ true =
        rw (same, ids) (counted-ids t given) in
      let again = counted_again m.task known in
      let (tokens', cost', ids', _) = enforce-status (prev_cost go m.task) m.task in
      rw (same', again) (tokens', cost', ids')

  -- The tokens are within the task's own budget, or those of the token where the task has none, and
  -- the iterations within their maximum. A limit that is not positive limits nothing.
  abbrev pub IsWithin : AgentTask → Type 0
  IsWithin t =
      ((t.budget_tokens ≤ℤ pos 0) ⊎ (t.tokens_consumed ≤ℤ t.budget_tokens))
      × ((ltb_ℤ (pos 0) t.budget_tokens ≡ true)
          ⊎ ((claims.max_tokens ≤ℤ pos 0) ⊎ (t.tokens_consumed ≤ℤ claims.max_tokens)))
      × ((t.max_iterations ≤ℤ pos 0) ⊎ (t.iteration ≤ℤ t.max_iterations))

  enforce-IsWithin :
      (cost : Float) (t : AgentTask)
      → (enforce go claims cost t).budget_exceeded ≡ false
      → IsWithin (enforce go claims cost t).task
  unfolding enforce exceeds_tokens pause
  enforce-IsWithin cost t h = ground arith

  -- A request that is let through without exceeding a budget leaves the task within its budget of
  -- tokens, or that of the token where the task has none, and within its iterations.
  pub meter_task-IsWithin :
      (t : AgentTask) (m : Metered Float)
      → meter_task go req url claims t ≡ ok m
      → m.budget_exceeded ≡ false
      → IsWithin m.task
  meter_task-IsWithin t m e within =
      let (_, _, same) = meter_task_inv t m e in
      rw same
        (enforce-IsWithin (counted go req url t).0 (counted go req url t).1 (rw same at within))

  enforce-paused :
      (cost : Float) (t : AgentTask)
      → (enforce go claims cost t).budget_exceeded ≡ true
      → is_active (enforce go claims cost t).task ≡ false
  unfolding enforce pause is_active
  enforce-paused cost t h = ground arith

  inactive-refused :
      (t : AgentTask)
      → is_active t ≡ false
      → meter_task go req url claims t ≡ err MeterError.task_not_active
  unfolding meter_task
  inactive-refused t h = rw h

module _ (go : Go) where
  open go use {Float}

  -- A request that exceeds a budget leaves a task that lets no further request through.
  pub meter_task-paused :
      (req next : MeterRequest Float) (url url' : Text) (claims claims' : Claims Float)
      (t : AgentTask) (m : Metered Float)
      → meter_task go req url claims t ≡ ok m
      → m.budget_exceeded ≡ true
      → meter_task go next url' claims' m.task ≡ err MeterError.task_not_active
  meter_task-paused req next url url' claims claims' t m e exceeded =
      let (_, _, same) = meter_task_inv go req url claims t m e in
      let paused = enforce-paused go req url claims _ _ (rw same at exceeded) in
      inactive-refused go next url' claims' m.task (rw same paused)
