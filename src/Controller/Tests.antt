-- ===== src/Controller/Tests.antt =====
-- A small cluster for internal/controller, and the theorems on it.
use diverge.Base.{
  All, ℕ, ◌+◌, false, List, [], ◌∷◌, none, Text, codes, text_eq, is_empty, keep, ok, ◌≡◌, ◌↔◌, refl,
  ltb,
}
use diverge.Base.Decimal.{parse_int}
use diverge.Topology.Sets.{has, text_lt, insert, sort}
use diverge.Controller.Types.{
  Condition, condition_false, running, failed, Environment, Annotations, annotation, Cluster,
}
use diverge.Controller.EnvVars.{EnvVar, blocked_env_vars, validate_env_var_mapping, merge_env_vars}
use diverge.Controller.Merged.{
  MergePromise, merge_env_vars-MergePromise, validate_env_var_mapping_iff,
}
use diverge.Controller.Status.{derive_phase}
use diverge.Controller.Phases.{AnyFails, derive_phase-failed_iff}
use diverge.Controller.Limits.{
  read_limits, positive_int, positive_cost, is_hibernated, choose_victims, exceeds_quota,
  other_active, other_cnpg_count, uses_cnpg_cluster, is_cnpg_mode, is_other, is_finished, is_older,
  environment_lru_timestamp, creation_time, sum_hourly_cost,
}
use diverge.Controller.Quota.{
  sets_no_limit, reconcile_namespace_quota, with_namespace, check_annotations, with_environments,
  enforce_limits, decide, admit, after_claim, after_hibernation, hibernate_all, claim_error,
  is_admitted, with_condition,
}
use diverge.Controller.Admission.{KeepsQuota, reconcile_namespace_quota-KeepsQuota}

abbrev environment : Text → ℕ → Environment
environment name created = record {
  name = name;
  namespace = codes "team";
  annotations = [];
  database_mode = [];
  database_provider = [];
  creation_timestamp = created;
  created_at = none;
  is_deleting = false;
  phase = running;
  conditions = [];
}

abbrev quota : Annotations
quota = (codes "divergedev.com/max-active-environments", codes "2") ∷ []

abbrev newest : Environment
newest = environment (codes "c") 30

abbrev items : List Environment
items = environment (codes "b") 20 ∷ newest ∷ environment (codes "a") 10 ∷ []

abbrev small_cluster : Cluster ℕ
small_cluster = record {
  trim_space = λ s. s;
  to_lower = λ s. s;
  trim_dollar = λ s. s;
  parse_time = λ s. none;
  parse_float = λ s. none;
  is_positive = λ c. ltb 0 c;
  zero_cost = 0;
  add_cost = λ a b. a + b;
  exceeds_cost = λ total max. ltb max total;
  format_cost = λ c. [];
  hourly_cost = λ env. 1;
  set_condition = λ c cs. c ∷ cs;
  find_condition = λ name cs. none;
  get_namespace = λ name. ok quota;
  list_environments = λ name. ok items;
  claim_namespace = λ name. none;
  hibernate_environment = λ env. none;
  patch_status = λ env. none;
}

limited : sets_no_limit small_cluster (read_limits small_cluster quota) ≡ false
unfolding sets_no_limit read_limits annotation positive_int parse_int text_eq positive_cost is_empty
limited = refl

awake : is_hibernated small_cluster newest ≡ false
unfolding is_hibernated annotation text_eq
awake = refl

-- The oldest of the three environments is hibernated.
goes_on :
    ((reconcile_namespace_quota small_cluster newest).stops ≡ false)
    × ((reconcile_namespace_quota small_cluster newest).error ≡ none)
    × ((reconcile_namespace_quota small_cluster newest).victims ≡ environment (codes "a") 10 ∷ [])
unfolding reconcile_namespace_quota with_namespace check_annotations with_environments
    enforce_limits decide admit after_claim after_hibernation hibernate_all choose_victims
    exceeds_quota other_active other_cnpg_count uses_cnpg_cluster is_cnpg_mode is_other is_finished
    is_older environment_lru_timestamp creation_time claim_error is_admitted with_condition
    sum_hourly_cost sets_no_limit read_limits annotation positive_int parse_int text_eq
    positive_cost is_empty is_hibernated keep sort insert text_lt
goes_on = (refl, refl, refl)

reconcile_namespace_quota-KeepsQuota_example :
    KeepsQuota small_cluster
      (read_limits small_cluster quota)
      newest
      items
      (reconcile_namespace_quota small_cluster newest)
reconcile_namespace_quota-KeepsQuota_example =
    reconcile_namespace_quota-KeepsQuota small_cluster newest quota items refl refl refl limited
      awake goes_on.0 goes_on.1

abbrev broken : Condition
broken = record {
  type_name = codes "DatabaseReady";
  status = condition_false;
  reason = codes "Down";
  message = [];
}

derive_phase-failed_iff_example : (derive_phase (broken ∷ []) ≡ failed) ↔ AnyFails (broken ∷ [])
derive_phase-failed_iff_example = derive_phase-failed_iff (broken ∷ [])

abbrev url : EnvVar
url = record { name = codes "URL"; value = codes "a" }

abbrev queue : EnvVar
queue = record { name = codes "QUEUE"; value = codes "q" }

merge_env_vars-MergePromise_example :
    MergePromise (url ∷ []) (queue ∷ url ∷ []) (merge_env_vars (url ∷ []) (queue ∷ url ∷ []))
merge_env_vars-MergePromise_example = merge_env_vars-MergePromise (url ∷ []) (queue ∷ url ∷ [])

validate_env_var_mapping_iff_example :
    (validate_env_var_mapping ((codes "URL", codes "PATH") ∷ []) ≡ ok tt)
    ↔ All
        (λ (e : Text × Text).
          (has blocked_env_vars e.0 ≡ false) × (has blocked_env_vars e.1 ≡ false))
        ((codes "URL", codes "PATH") ∷ [])
validate_env_var_mapping_iff_example =
    validate_env_var_mapping_iff ((codes "URL", codes "PATH") ∷ [])
