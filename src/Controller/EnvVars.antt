-- ===== src/Controller/EnvVars.antt =====
-- The variables of an environment: mergeEnvVars and validateEnvVarMapping of
-- internal/controller/environment_status.go.
use diverge.Base.{
  List, [], ◌∷◌, ◌++◌, Option, none, some, Text, codes, text_eq, if◌then◌else◌, Result, ok, err,
  ◌>>=◌,
}
use diverge.Topology.Sets.{has}

pub record EnvVar : Type 0 where
  pub name : Text
  pub value : Text

-- blockedEnvVars
abbrev pub blocked_env_vars : List Text
blocked_env_vars =
    codes "KUBERNETES_SERVICE_HOST"
    ∷ codes "KUBERNETES_SERVICE_PORT"
    ∷ codes "KUBECONFIG"
    ∷ codes "HOME"
    ∷ codes "PATH"
    ∷ codes "LD_PRELOAD"
    ∷ codes "LD_LIBRARY_PATH"
    ∷ codes "DYLD_INSERT_LIBRARIES"
    ∷ codes "PYTHONPATH"
    ∷ codes "NODE_PATH"
    ∷ codes "RUBYLIB"
    ∷ codes "PERL5LIB"
    ∷ codes "CLASSPATH"
    ∷ codes "GEM_HOME"
    ∷ codes "GOPATH"
    ∷ codes "NODE_OPTIONS"
    ∷ codes "JAVA_TOOL_OPTIONS"
    ∷ []

-- The errors of validateEnvVarMapping and mergeEnvVars, with the names and values they report.
pub data EnvVarError : Type 0 where
  restricted_key restricted_var : Text → EnvVarError
  conflict : Text → Text → Text → EnvVarError

-- validateEnvVarMapping, over the entries of the map in the order of its range loop.
unfoldable pub validate_env_var_mapping : List (Text × Text) → Result EnvVarError (Unit {0})
validate_env_var_mapping [] = ok tt
validate_env_var_mapping ((k, v) ∷ mapping) =
    let rest = validate_env_var_mapping mapping in
    if has blocked_env_vars k
    then err (restricted_key k)
    else if has blocked_env_vars v
    then err (restricted_var v)
    else rest

-- The value of the first variable with a name.
unfoldable pub find_var : Text → List EnvVar → Option Text
find_var name [] = none
find_var name (e ∷ out) =
    let later = find_var name out in if text_eq name e.name then some e.value else later

-- One round of mergeEnvVars, where `found` is the value that the variable has already.
unfoldable pub merge_var : EnvVar → List EnvVar → Option Text → Result EnvVarError (List EnvVar)
merge_var v out none = ok (out ++ v ∷ [])
merge_var v out (some existing) =
    if text_eq existing v.value then ok out else err (conflict v.name existing v.value)

unfoldable pub merge_env_vars : List EnvVar → List EnvVar → Result EnvVarError (List EnvVar)
unfolding merge_var find_var
merge_env_vars out [] = ok out
merge_env_vars out (v ∷ async_vars) =
    merge_var v out (find_var v.name out) >>= (λ out'. merge_env_vars out' async_vars)
