-- ===== src/Auth/ClusterTests.antt =====
-- A small cluster of Secrets, and revocation on it (pkg/auth/store.go).
use diverge.Base.{
  true, false, ◌&&◌, [], ◌∷◌, Option, none, some, ◌≡◌, ◌≢◌, refl, arith, subst, Text, codes,
  is_empty, all, text_eq, text_eq_refl, text_ne, Result, ok, err, if◌then◌else◌,
}
use diverge.Base.Maps.{put}
use diverge.Auth.Labels.{
  secret_name, matches_task_label, task_label_value, is_valid_k8s_label, first_is, last_is,
}
use diverge.Auth.Secrets.{
  Secret, ApiError, StoreError, Stored, Api, get_token_secret, check_revoked, revoke_token_secret,
  save_token_secret, upsert_token_index, upsert_attempt, mark_revoked_in_index, mark_attempt,
}
use diverge.Auth.Revocation.{IsSequential, get_token-revoke_token}

abbrev Cluster : Type 0
Cluster = Text → Text → Option Secret

abbrev read : Text → Text → Option Secret → Result ApiError Secret
read ns name none = err ApiError.not_found
read ns name (some sec) = ok (record sec { name = name; namespace = ns })

unfoldable write : Secret → Cluster → Cluster
write sec s ns name =
    if text_eq ns sec.namespace && text_eq name sec.name then some sec else s ns name

abbrev small_api : Api Cluster
small_api = record {
  get = λ ns name s. read ns name (s ns name);
  create = λ sec s. ok (write sec s);
  update = λ sec s. ok (write sec s);
  remove = λ sec s. ok s;
  retry_on_conflict = λ f s. f s;
}

get-write :
    (sec : Secret) (s : Cluster) → small_api.get sec.namespace sec.name (write sec s) ≡ ok sec
unfolding write
get-write sec s = rw (text_eq_refl sec.namespace, text_eq_refl sec.name) refl

get-write_other :
    (sec : Secret) (ns name : Text) (s : Cluster)
    → name ≢ sec.name
    → small_api.get ns name (write sec s) ≡ small_api.get ns name s
unfolding write
get-write_other sec ns name s other =
    let differ = text_ne name sec.name other in ground (arith, differ)

small_named :
    (sec : Secret) (ns name : Text) (o : Option Secret)
    → read ns name o ≡ ok sec
    → (sec.name ≡ name) × (sec.namespace ≡ ns)
small_named sec ns name none h = absurd (cc h)
small_named sec ns name (some x) h = ground (arith, h)

small_api-IsSequential : IsSequential small_api
small_api-IsSequential = record {
  get_updated = λ sec s s' h.
      let same : write sec s ≡ s' = cc h in
      subst (λ (t : Cluster). small_api.get sec.namespace sec.name t ≡ ok sec) same
        (get-write sec s);
  get_others = λ sec ns name s s' h other.
      let same : write sec s ≡ s' = cc h in
      subst (λ (t : Cluster). small_api.get ns name t ≡ small_api.get ns name s) same
        (get-write_other sec ns name s other);
  get_named = λ sec ns name s h. small_named sec ns name (s ns name) h;
  retried = λ f s s' h. h;
}

-- A digest of eight bytes.
abbrev digest : Text → Text
digest t = 1 ∷ 2 ∷ 3 ∷ 4 ∷ 5 ∷ 6 ∷ 7 ∷ 8 ∷ []

abbrev state_of : Stored Cluster → Cluster
state_of (ok s) = s
state_of (err e) = λ ns name. none

abbrev saved : Cluster
saved = state_of (
    save_token_secret small_api digest false (codes "t1") (codes "dev") (codes "tok")
      (λ ns name. none))

abbrev revoked : Cluster
revoked = state_of (revoke_token_secret small_api digest false (codes "t1") (codes "dev") saved)

revoked_ok :
    revoke_token_secret small_api digest false (codes "t1") (codes "dev") saved ≡ ok revoked
unfolding revoke_token_secret save_token_secret upsert_token_index upsert_attempt write text_eq
    secret_name matches_task_label is_empty put task_label_value is_valid_k8s_label first_is last_is
    all mark_revoked_in_index mark_attempt
revoked_ok = refl

get_token-revoke_token_example :
    (get_token_secret small_api digest false (codes "t1") (codes "dev") revoked
      ≡ err StoreError.token_revoked)
    × (check_revoked small_api digest false (codes "t1") (codes "dev") revoked ≡ ok true)
get_token-revoke_token_example =
    get_token-revoke_token small_api small_api-IsSequential digest (codes "t1") (codes "dev") false
      saved revoked (λ e. cc) revoked_ok
