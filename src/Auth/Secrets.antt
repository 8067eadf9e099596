-- ===== src/Auth/Secrets.antt =====
-- KubernetesSecretTokenStore of pkg/auth/store.go over the API of a cluster.
use diverge.Base.{
  Bool, true, false, not, none, some, Text, codes, is_empty, text_eq, Result, ok, err, ◌>>=◌,
  if◌then◌else◌,
}
use diverge.Base.Maps.{Map, empty_map, put, delete}
use diverge.Auth.Labels.{
  label_agent_task, label_revoked, managed_by_label, token_index_secret_name, lookup,
  task_label_value, matches_task_label, secret_name, revoked_index_key,
}

-- corev1.Secret, as far as the store uses it. An absent map is an empty one: the code tests for nil
-- before it writes, and reads a nil map as an empty one.
pub record Secret : Type 0 where
  pub name : Text
  pub namespace : Text
  pub labels : Map Text
  pub annotations : Map Text
  pub data_map : Map Text

pub data ApiError : Type 0 where
  not_found already_exists conflict other : ApiError

pub data StoreError : Type 0 where
  token_not_found token_revoked not_owned : StoreError
  api : ApiError → StoreError

abbrev pub Stored : Type 0 → Type 0
Stored = Result StoreError

-- The cluster's API on Secrets and retry.RetryOnConflict, over a type of cluster states. A call that
-- fails leaves the state alone.
pub record Api (S : Type 0) : Type 0 where
  pub get : Text → Text → S → Result ApiError Secret
  pub create : Secret → S → Result ApiError S
  pub update : Secret → S → Result ApiError S
  pub remove : Secret → S → Result ApiError S
  pub retry_on_conflict : (S → Stored S) → S → Stored S

abbrev pub api_result : {A : Type 0} → Result ApiError A → Stored A
api_result (ok a) = ok a
api_result (err e) = err (StoreError.api e)

-- `sec.Labels[LabelRevoked] == "true"`, and the like for annotations.
abbrev pub is_true : Map Text → Text → Bool
is_true m key = text_eq (lookup m key) (codes "true")

-- `tok, ok := sec.Data[key]; if !ok || len(tok) == 0 { return ErrTokenNotFound }`
unfoldable pub token_in : Map Text → Text → Stored Text
token_in entries key = elim (entries key) [
  | none ↦ err StoreError.token_not_found
  | some tok ↦ if is_empty tok then err StoreError.token_not_found else ok tok
]

module _ {S : Type 0} (k8s : Api S) (sha256 : Text → Text) (index_only : Bool) where
  open k8s use {get, create, update, remove, retry_on_conflict}

  -- `if apierrors.IsNotFound(err) { return absent }`, and the error otherwise.
  abbrev pub on_missing : {A : Type 0} → Stored A → ApiError → Stored A
  on_missing absent ApiError.not_found = absent
  on_missing absent e = err (StoreError.api e)

  unfoldable pub is_revoked_in_index : Text → Text → S → Stored Bool
  is_revoked_in_index task_id namespace s = elim (get namespace token_index_secret_name s) [
    | err e ↦ on_missing (ok false) e
    | ok sec ↦ ok (is_true sec.annotations (revoked_index_key sha256 task_id))
  ]

  unfoldable pub get_token_from_index : Text → Text → S → Stored Text
  get_token_from_index task_id namespace s = elim (get namespace token_index_secret_name s) [
    | err e ↦ on_missing (err StoreError.token_not_found) e
    | ok sec ↦
        if is_true sec.annotations (revoked_index_key sha256 task_id)
        then err StoreError.token_revoked
        else token_in sec.data_map task_id
  ]

  unfoldable pub get_token_secret : Text → Text → S → Stored Text
  get_token_secret task_id namespace s =
      if index_only
      then get_token_from_index task_id namespace s
      else elim (get namespace (secret_name sha256 task_id) s) [
        | err e ↦ on_missing (err StoreError.token_not_found) e
        | ok sec ↦
            if not (matches_task_label sha256 sec.labels task_id)
            then err StoreError.token_not_found
            else if is_true sec.labels label_revoked
            then err StoreError.token_revoked
            else is_revoked_in_index task_id namespace s >>= (λ revoked.
              if revoked
              then err StoreError.token_revoked
              else token_in sec.data_map (codes "token"))
      ]

  abbrev pub new_index : Text → Text → Text → Secret
  new_index task_id namespace token = record {
    name = token_index_secret_name;
    namespace = namespace;
    labels = put managed_by_label (codes "diverge") empty_map;
    annotations = empty_map;
    data_map = put task_id token empty_map;
  }

  -- A lost race to create the index counts as a conflict.
  abbrev pub created : Result ApiError S → Stored S
  created (ok s) = ok s
  created (err ApiError.already_exists) = err (StoreError.api ApiError.conflict)
  created (err e) = err (StoreError.api e)

  -- One attempt of upsertTokenIndex.
  unfoldable pub upsert_attempt : Text → Text → Text → S → Stored S
  upsert_attempt task_id namespace token s = elim (get namespace token_index_secret_name s) [
    | err ApiError.not_found ↦ created (create (new_index task_id namespace token) s)
    | err e ↦ err (StoreError.api e)
    | ok idx ↦ api_result (
        update
          (record idx {
            data_map = put task_id token idx.data_map;
            annotations = delete (revoked_index_key sha256 task_id) idx.annotations;
          })
          s)
  ]

  unfoldable pub upsert_token_index : Text → Text → Text → S → Stored S
  upsert_token_index task_id namespace token =
      retry_on_conflict (upsert_attempt task_id namespace token)

  -- One attempt of markRevokedInIndex.
  unfoldable pub mark_attempt : Text → Text → S → Stored S
  mark_attempt task_id namespace s = elim (get namespace token_index_secret_name s) [
    | err e ↦ on_missing (if index_only then err StoreError.token_not_found else ok s) e
    | ok idx ↦ api_result (
        update
          (record idx {
            data_map = delete task_id idx.data_map;
            annotations = put (revoked_index_key sha256 task_id) (codes "true") idx.annotations;
          })
          s)
  ]

  unfoldable pub mark_revoked_in_index : Text → Text → S → Stored S
  mark_revoked_in_index task_id namespace = retry_on_conflict (mark_attempt task_id namespace)

  -- One attempt of removeFromTokenIndex.
  unfoldable pub remove_attempt : Text → Text → S → Stored S
  remove_attempt task_id namespace s = elim (get namespace token_index_secret_name s) [
    | err e ↦ on_missing (ok s) e
    | ok idx ↦ api_result (
        update
          (record idx {
            data_map = delete task_id idx.data_map;
            annotations = delete (revoked_index_key sha256 task_id) idx.annotations;
          })
          s)
  ]

  unfoldable pub remove_from_token_index : Text → Text → S → Stored S
  remove_from_token_index task_id namespace = retry_on_conflict (remove_attempt task_id namespace)

  abbrev pub new_secret : Text → Text → Text → Secret
  new_secret task_id namespace token = record {
    name = secret_name sha256 task_id;
    namespace = namespace;
    labels =
        put managed_by_label (codes "diverge")
          (put label_agent_task (task_label_value sha256 task_id) empty_map);
    annotations = empty_map;
    data_map = put (codes "token") token empty_map;
  }

  abbrev pub renewed : Text → Text → Secret → Secret
  renewed task_id token sec = record sec {
    labels =
        delete label_revoked (put label_agent_task (task_label_value sha256 task_id) sec.labels);
    data_map = put (codes "token") token sec.data_map;
  }

  unfoldable pub save_token_secret : Text → Text → Text → S → Stored S
  save_token_secret task_id namespace token s =
      elim (get namespace (secret_name sha256 task_id) s) [
        | err ApiError.not_found ↦
            api_result (create (new_secret task_id namespace token) s)
            >>= upsert_token_index task_id namespace token
        | err e ↦ err (StoreError.api e)
        | ok sec ↦
            if not (matches_task_label sha256 sec.labels task_id)
            then err StoreError.not_owned
            else api_result (update (renewed task_id token sec) s)
              >>= upsert_token_index task_id namespace token
      ]

  -- `err != nil && !apierrors.IsNotFound(err)` after Delete.
  abbrev pub removed : S → Result ApiError S → Stored S
  removed s (ok s') = ok s'
  removed s (err e) = on_missing (ok s) e

  unfoldable pub delete_token_secret : Text → Text → S → Stored S
  delete_token_secret task_id namespace s = elim (get namespace (secret_name sha256 task_id) s) [
    | err ApiError.not_found ↦ remove_from_token_index task_id namespace s
    | err e ↦ err (StoreError.api e)
    | ok sec ↦
        if not (matches_task_label sha256 sec.labels task_id)
        then err StoreError.not_owned
        else removed s (remove sec s) >>= remove_from_token_index task_id namespace
  ]

  unfoldable pub revoke_token_secret : Text → Text → S → Stored S
  revoke_token_secret task_id namespace s =
      if index_only
      then mark_revoked_in_index task_id namespace s
      else elim (get namespace (secret_name sha256 task_id) s) [
        | err e ↦ on_missing (err StoreError.token_not_found) e
        | ok sec ↦
            if not (matches_task_label sha256 sec.labels task_id)
            then err StoreError.not_owned
            else api_result (
                update
                  (record sec {
                    labels =
                        put label_revoked (codes "true")
                          (put label_agent_task (task_label_value sha256 task_id) sec.labels);
                  })
                  s)
              >>= mark_revoked_in_index task_id namespace
      ]

  unfoldable pub check_revoked : Text → Text → S → Stored Bool
  check_revoked task_id namespace s =
      if index_only
      then is_revoked_in_index task_id namespace s
      else elim (get namespace (secret_name sha256 task_id) s) [
        | err e ↦ on_missing (is_revoked_in_index task_id namespace s) e
        | ok sec ↦
            if not (matches_task_label sha256 sec.labels task_id)
            then ok false
            else if is_true sec.labels label_revoked
            then ok true
            else is_revoked_in_index task_id namespace s
      ]

  abbrev pub or_false : Stored Bool → Bool
  or_false (ok b) = b
  or_false (err e) = false

  unfoldable pub is_revoked_secret : Text → Text → S → Bool
  unfolding check_revoked
  is_revoked_secret task_id namespace s = or_false (check_revoked task_id namespace s)
