-- ===== src/Controller/Quota.antt =====
-- The quota of a namespace: reconcileNamespaceQuota of internal/controller/environment_quota.go.
-- The lock of a namespace and the events are left out; a call is one step.
use diverge.Base.{
  ◌+◌, Bool, true, false, ◌&&◌, ◌==◌, List, [], ◌∷◌, ◌++◌, Option, none, some, Text, codes, text_eq,
  if◌then◌else◌, ltb, length, Result, ok, err,
}
use diverge.Base.Decimal.{format_uint}
use diverge.Controller.Types.{
  ConditionStatus, condition_true, condition_false, Condition, Environment, Annotations, ApiError,
  not_found, forbidden, other_error, Cluster,
}
use diverge.Controller.Status.{derive_phase}
use diverge.Controller.Limits.{
  uses_cnpg_cluster, read_limits, is_hibernated, other_cnpg_count, other_active, choose_victims,
  Limits,
}

abbrev pub quota_ready : Text
quota_ready = codes "QuotaReady"

-- What is left of a call: the environment with its conditions, whether the reconciler stops, the
-- environments hibernated for it, and an error.
pub record Outcome : Type 0 where
  pub env : Environment
  pub stops : Bool
  pub victims : List Environment
  pub error : Option Text

module _ {F : Type 0} (cluster : Cluster F) where
  open cluster use {
    set_condition, find_condition, get_namespace, list_environments, claim_namespace,
    hibernate_environment, patch_status,
  }

  unfoldable pub with_condition : Environment → ConditionStatus → Text → Text → Environment
  with_condition env status reason message = record env {
    conditions =
        set_condition
          (record { type_name = quota_ready; status = status; reason = reason; message = message })
          env.conditions;
  }

  unfoldable pub leave : Environment → Outcome
  leave env = record { env = env; stops = false; victims = []; error = none }

  unfoldable pub fail : Environment → List Environment → Text → Outcome
  fail env victims e = record { env = env; stops = false; victims = victims; error = some e }

  -- A refusal: the condition, the phase that follows from it, and the update of the status.
  unfoldable pub refuse : Environment → Text → Text → Outcome
  unfolding with_condition
  refuse env reason message =
      let env' = with_condition env condition_false reason message in
      let env'' = record env' { phase = derive_phase env'.conditions } in
      record {
        env = env'';
        stops = true;
        victims = [];
        error = elim (patch_status env'') [
          | none ↦ none
          | some e ↦ some (codes "failed to update status: " ++ e)
        ];
      }

  -- `alreadyAdmitted`
  unfoldable pub is_admitted : Option Condition → Bool
  is_admitted none = false
  is_admitted (some c) = elim c.status [
    | condition_true ↦ text_eq c.reason (codes "WithinQuota")
    | _ ↦ false
  ]

  -- The claim on the namespace; a forbidden update is passed over.
  unfoldable pub claim_error : Option ApiError → Option Text
  claim_error none = none
  claim_error (some forbidden) = none
  claim_error (some not_found) = some (codes "not found")
  claim_error (some (other_error e)) = some e

  -- The loop that hibernates the victims: those that were, and the error that stopped it.
  unfoldable pub hibernate_all : List Environment → List Environment × Option Text
  hibernate_all [] = ([], none)
  hibernate_all (victim ∷ victims) =
      let (done, error) = hibernate_all victims in
      elim (hibernate_environment victim) [
        | none ↦ (victim ∷ done, error)
        | some e ↦ (
          [],
          some (
              codes "failed to hibernate oldest environment "
              ++ victim.name
              ++ codes " for quota: "
              ++ e),
        )
      ]

  unfoldable pub after_hibernation : Environment → List Environment × Option Text → Outcome
  unfolding fail with_condition
  after_hibernation env (done, some e) = fail env done e
  after_hibernation env (done, none) = record {
    env =
        with_condition env condition_true (codes "WithinQuota")
          (codes "Namespace FinOps and concurrency quotas satisfied");
    stops = false;
    victims = done;
    error = none;
  }

  unfoldable pub after_claim : Environment → List Environment → Option Text → Outcome
  unfolding hibernate_all after_hibernation fail
  after_claim env victims none = after_hibernation env (hibernate_all victims)
  after_claim env victims (some e) =
      fail env [] (
        codes "failed to record namespace quota admission claim for "
        ++ env.name
        ++ codes ": "
        ++ e)

  -- The environment is admitted at the price of the victims.
  unfoldable pub admit : Environment → List Environment → Outcome
  unfolding is_admitted claim_error after_claim
  admit env victims =
      let already_admitted = is_admitted (find_condition quota_ready env.conditions) in
      after_claim env victims (
        if already_admitted && length victims == 0
        then none
        else claim_error (claim_namespace env.namespace))

  unfoldable pub decide : Environment → Result Text (List Environment × List Environment) → Outcome
  unfolding refuse admit
  decide env (err message) = refuse env (codes "NamespaceQuotaExceeded") message
  decide env (ok (victims, remaining)) = admit env victims

  -- The part that compares the environments of the namespace with its limits.
  unfoldable pub enforce_limits : Limits F → Environment → List Environment → Outcome
  unfolding other_cnpg_count other_active choose_victims decide
  enforce_limits limits env items =
      if (ltb 0 limits.max_cnpg && uses_cnpg_cluster cluster env)
        && ltb limits.max_cnpg (other_cnpg_count cluster env items + 1)
      then refuse env (codes "MaxCNPGClustersExceeded") (
          codes "namespace "
          ++ env.namespace
          ++ codes " quota exceeded: max-cnpg-clusters="
          ++ format_uint limits.max_cnpg)
      else decide env (choose_victims cluster limits env [] (other_active cluster env items))

  -- `maxActive <= 0 && maxCNPG <= 0 && maxHourlyCost <= 0`
  unfoldable pub sets_no_limit : Limits F → Bool
  sets_no_limit limits =
      limits.max_active == 0
      && (limits.max_cnpg == 0 && elim limits.max_hourly_cost [ none ↦ true | some c ↦ false ])

  unfoldable pub with_environments :
      Limits F → Environment → Result Text (List Environment) → Outcome
  unfolding fail enforce_limits
  with_environments limits env (err e) =
      fail env []
        (codes "failed to list environments in namespace " ++ env.namespace ++ codes ": " ++ e)
  with_environments limits env (ok items) = enforce_limits limits env items

  unfoldable pub check_annotations : Environment → Annotations → Outcome
  unfolding read_limits sets_no_limit leave with_environments is_hibernated with_condition
  check_annotations env annotations =
      let limits = read_limits cluster annotations in
      let asleep = record (leave env) {
        env =
            with_condition env condition_true (codes "Hibernated")
              (codes "Environment is hibernated");
      } in
      if length annotations == 0
      then leave env
      else if sets_no_limit limits
      then leave env
      else if is_hibernated cluster env
      then asleep
      else with_environments limits env (list_environments env.namespace)

  unfoldable pub with_namespace : Environment → Result ApiError Annotations → Outcome
  unfolding check_annotations leave fail
  with_namespace env (ok annotations) = check_annotations env annotations
  with_namespace env (err not_found) = leave env
  with_namespace env (err forbidden) = leave env
  with_namespace env (err (other_error e)) =
      fail env []
        (codes "failed to get namespace " ++ env.namespace ++ codes " for quota check: " ++ e)

  unfoldable pub reconcile_namespace_quota : Environment → Outcome
  unfolding with_namespace
  reconcile_namespace_quota env = with_namespace env (get_namespace env.namespace)
