-- ===== src/Controller/Types.antt =====
-- What the quota and the status of environments read (api/v1alpha1/environment_types.go), and what
-- they use of Go's library and of the cluster.
use diverge.Base.{ℕ, Bool, List, [], ◌∷◌, Option, Text, text_eq, Result, if◌then◌else◌}

pub data ConditionStatus : Type 0 where
  condition_true condition_false condition_unknown : ConditionStatus

-- metav1.Condition
pub record Condition : Type 0 where
  pub type_name : Text
  pub status : ConditionStatus
  pub reason : Text
  pub message : Text

pub data EnvironmentPhase : Type 0 where
  pending deploying migrating running failed terminating expired : EnvironmentPhase

-- A map[string]string, as the list of its entries.
abbrev pub Annotations : Type 0
Annotations = List (Text × Text)

-- `annotations[key]`, which is empty for a missing key.
unfoldable pub annotation : Text → Annotations → Text
annotation key [] = []
annotation key ((k, v) ∷ rest) =
    let later = annotation key rest in if text_eq key k then v else later

-- Times are nanoseconds since the zero time.
pub record Environment : Type 0 where
  pub name : Text
  pub namespace : Text
  pub annotations : Annotations
  pub database_mode : Text
  pub database_provider : Text
  pub creation_timestamp : ℕ
  pub created_at : Option ℕ
  pub is_deleting : Bool
  pub phase : EnvironmentPhase
  pub conditions : List Condition

-- An error of the API: not found, forbidden, or another.
pub data ApiError : Type 0 where
  not_found forbidden : ApiError
  other_error : Text → ApiError

-- Packages strings, time and meta, the floats of Go (F) with the estimate of internal/metrics for an
-- environment's cost per hour, and the calls of the cluster.
pub record Cluster (F : Type 0) : Type 0 where
  pub trim_space : Text → Text
  pub to_lower : Text → Text
  pub trim_dollar : Text → Text
  pub parse_time : Text → Option ℕ
  pub parse_float : Text → Option F
  pub is_positive : F → Bool
  pub zero_cost : F
  pub add_cost : F → F → F
  pub exceeds_cost : F → F → Bool
  pub format_cost : F → Text
  pub hourly_cost : Environment → F
  pub set_condition : Condition → List Condition → List Condition
  pub find_condition : Text → List Condition → Option Condition
  pub get_namespace : Text → Result ApiError Annotations
  pub list_environments : Text → Result Text (List Environment)
  pub claim_namespace : Text → Option ApiError
  pub hibernate_environment : Environment → Option Text
  pub patch_status : Environment → Option Text
