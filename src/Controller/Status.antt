-- ===== src/Controller/Status.antt =====
-- The phase of an environment, from its conditions: internal/controller/environment_status.go.
use diverge.Base.{Bool, true, false, ◌&&◌, List, [], ◌∷◌, codes, text_eq, if◌then◌else◌}
use diverge.Controller.Types.{
  Condition, ConditionStatus, condition_true, condition_false, condition_unknown, EnvironmentPhase,
  pending, deploying, running, failed,
}

-- What one condition says of the phase: nothing, that it is not ready yet, or that it failed.
pub data Verdict : Type 0 where
  is_ready not_ready has_failed : Verdict

unfoldable pub by_status : Condition → ConditionStatus → Verdict
by_status c condition_false =
    if text_eq c.type_name (codes "MigrationReady") && text_eq c.reason (codes "MigrationRunning")
    then not_ready
    else has_failed
by_status c condition_true = is_ready
by_status c condition_unknown = not_ready

unfoldable pub judge : Condition → Verdict
unfolding by_status
judge c =
    if text_eq c.type_name (codes "BaselineDriftDetected") then is_ready else by_status c c.status

-- What a verdict does: go on, go on as not ready, or stop.
unfoldable pub proceed : Verdict → EnvironmentPhase → EnvironmentPhase → EnvironmentPhase
proceed is_ready on waiting = on
proceed not_ready on waiting = waiting
proceed has_failed on waiting = failed

-- The loop of derivePhase, where `all_ready` holds so far.
unfoldable pub derive_loop : Bool → List Condition → EnvironmentPhase
unfolding judge proceed
derive_loop all_ready [] = if all_ready then running else deploying
derive_loop all_ready (c ∷ cs) = proceed (judge c) (derive_loop all_ready cs) (derive_loop false cs)

unfoldable pub derive_phase : List Condition → EnvironmentPhase
unfolding derive_loop
derive_phase [] = pending
derive_phase (c ∷ cs) = derive_loop true (c ∷ cs)
