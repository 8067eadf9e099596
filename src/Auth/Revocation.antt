-- ===== src/Auth/Revocation.antt =====
-- Revocation by KubernetesSecretTokenStore of pkg/auth/store.go.
use diverge.Base.{
  ℕ, ◌-◌, ◌≤◌, Bool, true, false, [], ◌∷◌, ◌++◌, ◌≡◌, ◌≢◌, refl, sym, ap, ◌∙◌, inl, inr, arith,
  Text, codes, is_empty, is_empty_iff, text_eq, text_eq_refl, Bool-cases, Result, ok, err,
  Result-cases, length, length-append, length-take, take, leb, ◌==◌,
}
use diverge.Base.Hex.{hex_encode-ne-nil, length-hex_encode}
use diverge.Base.Maps.{Map, put, delete, get-put_self}
use diverge.Auth.Labels.{
  label_agent_task, label_revoked, token_index_secret_name, lookup, task_label_value,
  matches_task_label, secret_name, revoked_index_key, short_hash, label_prefix, is_valid_k8s_label,
  last_is,
}
use diverge.Auth.Secrets.{
  Secret, ApiError, StoreError, Stored, Api, api_result, is_true, get_token_secret,
  get_token_from_index, is_revoked_in_index, mark_attempt, mark_revoked_in_index,
  revoke_token_secret, check_revoked,
}

last_is-append :
    (p : ℕ → Bool) (s : Text) (c : ℕ) (t : Text) → last_is p (s ++ c ∷ t) ≡ last_is p (c ∷ t)
unfolding last_is
last_is-append p [] c t = refl
last_is-append p (d ∷ []) c t = refl
last_is-append p (d ∷ e ∷ s) c t = last_is-append p (e ∷ s) c t

lookup-put : (k v : Text) (m : Map Text) → lookup (put k v m) k ≡ v
unfolding lookup
lookup-put k v m = rw (get-put_self k v m, lookup)

is_true-put : (k : Text) (m : Map Text) → is_true (put k (codes "true") m) k ≡ true
is_true-put k m = rw (lookup-put k (codes "true") m) (text_eq_refl (codes "true"))

valid-ne-nil : (s : Text) → is_valid_k8s_label s ≡ true → is_empty s ≡ false
unfolding is_valid_k8s_label
valid-ne-nil s h = ground arith

append-ne-nil : (s : Text) (c : ℕ) (t : Text) → is_empty (s ++ c ∷ t) ≡ false
unfolding is_empty
append-ne-nil [] c t = refl
append-ne-nil (d ∷ s) c t = refl

module _ (sha256 : Text → Text) where
  length-short_hash : (task : Text) → length (short_hash sha256 task) ≤ 16
  length-short_hash task =
      let n = length-hex_encode (take 8 (sha256 task)) in
      let m = length-take 8 (sha256 task) in ground (arith, n, m)

  -- The Secret of a task is never the index.
  secret_name-ne-index : (task : Text) → secret_name sha256 task ≢ token_index_secret_name
  unfolding secret_name
  secret_name-ne-index task e = elim (Bool-cases (leb (length (task ++ codes "-token")) 253)) [
    | inl short ↦
        let same : task ++ codes "-token" ≡ token_index_secret_name = rw short at e in
        let ends = last_is-append (λ c. c == b's') task b'-' (codes "token") in
        absurd (
          cc (
            let f : false ≡ true =
              unfold last_is in (sym ends ∙ ap (last_is (λ c. c == b's')) same) in
            f))
    | inr long ↦
        let h = length-short_hash task in
        let cut = take (253 - 7 - length (short_hash sha256 task)) task in
        let a = length-append task (codes "-token") in
        let b = length-append cut (codes "-token-" ++ short_hash sha256 task) in
        let c = length-take (253 - 7 - length (short_hash sha256 task)) task in
        let same : length (cut ++ (codes "-token-" ++ short_hash sha256 task)) ≡ 24 =
          ap length (rw long at e) in
        absurd (ground (arith, h, a, b, c, same, long))
  ]

  task_label_value-ne-nil :
      (task : Text) → take 8 (sha256 task) ≢ [] → is_empty (task_label_value sha256 task) ≡ false
  unfolding task_label_value
  task_label_value-ne-nil task hashed =
      let filled = hex_encode-ne-nil (take 8 (sha256 task)) hashed in
      let hash : is_empty (short_hash sha256 task) ≡ false =
        ground (arith, filled, is_empty_iff (short_hash sha256 task)) in
      elim (Bool-cases (is_valid_k8s_label task)) [
        | inl valid ↦ rw valid (valid-ne-nil task valid)
        | inr other ↦ elim (Bool-cases (is_empty (label_prefix sha256 task))) [
          | inl bare ↦ rw (other, bare) hash
          | inr prefixed ↦
              rw (other, prefixed)
                (append-ne-nil (label_prefix sha256 task) b'-' (short_hash sha256 task))
        ]
      ]

api_result_inv : {A : Type 0} (r : Result ApiError A) (a : A) → api_result r ≡ ok a → r ≡ ok a
api_result_inv (ok b) a h = cc h
api_result_inv (err e) a h = absurd (cc h)

-- What the API and the retries do when nobody else writes: an update is read back and leaves the
-- other Secrets alone, a Secret is read under its own name, and a retried attempt that succeeds did
-- so on the state that it was given.
pub record IsSequential {S : Type 0} (k8s : Api S) : Type 0 where
  pub get_updated :
      (sec : Secret) (s s' : S)
      → k8s.update sec s ≡ ok s'
      → k8s.get sec.namespace sec.name s' ≡ ok sec
  pub get_others :
      (sec : Secret) (ns name : Text) (s s' : S)
      → k8s.update sec s ≡ ok s'
      → name ≢ sec.name
      → k8s.get ns name s' ≡ k8s.get ns name s
  pub get_named :
      (sec : Secret) (ns name : Text) (s : S)
      → k8s.get ns name s ≡ ok sec
      → (sec.name ≡ name) × (sec.namespace ≡ ns)
  pub retried : (f : S → Stored S) (s s' : S) → k8s.retry_on_conflict f s ≡ ok s' → f s ≡ ok s'

module _ {S : Type 0} (k8s : Api S) (sequential : IsSequential k8s) (sha256 : Text → Text)
    (task ns : Text) where
  -- Marking in the index leaves a revoked entry there, or finds no index.
  marked-index :
      (s s' : S)
      → mark_attempt k8s sha256 true task ns s ≡ ok s'
      → (idx : Secret) × (k8s.get ns token_index_secret_name s' ≡ ok idx)
        × (is_true idx.annotations (revoked_index_key sha256 task) ≡ true)
  unfolding mark_attempt
  marked-index s s' h = elim (Result-cases (k8s.get ns token_index_secret_name s)) [
    | inr (ApiError.not_found, e) ↦ absurd (ground (arith, e))
    | inr (ApiError.already_exists, e) ↦ absurd (ground (arith, e))
    | inr (ApiError.conflict, e) ↦ absurd (ground (arith, e))
    | inr (ApiError.other, e) ↦ absurd (ground (arith, e))
    | inl (idx, e) ↦
        let key = revoked_index_key sha256 task in
        let after : Secret = record idx {
          data_map = delete task idx.data_map;
          annotations = put key (codes "true") idx.annotations;
        } in
        let h' : api_result (k8s.update after s) ≡ ok s' = rw (e, mark_attempt) at h in
        let written = sequential.get_updated after s s' (api_result_inv _ s' h') in
        let (name, namespace) = sequential.get_named idx ns token_index_secret_name s e in
        (after, rw (sym name, sym namespace) written, is_true-put key idx.annotations)
  ]

  marked-others :
      (index_only : Bool) (name : Text) (s s' : S)
      → name ≢ token_index_secret_name
      → mark_attempt k8s sha256 index_only task ns s ≡ ok s'
      → k8s.get ns name s' ≡ k8s.get ns name s
  unfolding mark_attempt
  marked-others index_only name s s' other h =
      elim (Result-cases (k8s.get ns token_index_secret_name s)) [
        | inr (ApiError.not_found, e) ↦
            let same : s ≡ s' = ground (arith, e) in ap (k8s.get ns name) (sym same)
        | inr (ApiError.already_exists, e) ↦ absurd (ground (arith, e))
        | inr (ApiError.conflict, e) ↦ absurd (ground (arith, e))
        | inr (ApiError.other, e) ↦ absurd (ground (arith, e))
        | inl (idx, e) ↦
            let named = (sequential.get_named idx ns token_index_secret_name s e).0 in
            let after : Secret = record idx {
              data_map = delete task idx.data_map;
              annotations = put (revoked_index_key sha256 task) (codes "true") idx.annotations;
            } in
            let h' : api_result (k8s.update after s) ≡ ok s' = rw (e, mark_attempt) at h in
            sequential.get_others after ns name s s' (api_result_inv _ s' h')
              (λ x. other (x ∙ named))
      ]

  index-refuses :
      (idx : Secret) (s : S)
      → k8s.get ns token_index_secret_name s ≡ ok idx
      → is_true idx.annotations (revoked_index_key sha256 task) ≡ true
      → get_token_from_index k8s sha256 true task ns s ≡ err StoreError.token_revoked
  unfolding get_token_from_index
  index-refuses idx s at set = rw (at, set, get_token_from_index)

  index-reports :
      (idx : Secret) (s : S)
      → k8s.get ns token_index_secret_name s ≡ ok idx
      → is_true idx.annotations (revoked_index_key sha256 task) ≡ true
      → is_revoked_in_index k8s sha256 true task ns s ≡ ok true
  unfolding is_revoked_in_index
  index-reports idx s at set = rw (at, set, is_revoked_in_index)

  -- A Secret that carries the task's label and the mark of revocation.
  abbrev relabelled : Secret → Secret
  relabelled sec = record sec {
    labels =
        put label_revoked (codes "true")
          (put label_agent_task (task_label_value sha256 task) sec.labels);
  }

  relabelled-owned :
      (sec : Secret)
      → take 8 (sha256 task) ≢ []
      → matches_task_label sha256 (relabelled sec).labels task ≡ true
  unfolding matches_task_label lookup put text_eq
  relabelled-owned sec hashed =
      rw (task_label_value-ne-nil sha256 task hashed, text_eq_refl (task_label_value sha256 task))
        refl

  -- For the Secret store, where nobody else writes and SHA-256 yields bytes: once RevokeToken
  -- succeeds, on the task's Secret or on the index alone, GetToken refuses the task as revoked and
  -- CheckRevoked reports it.
  pub get_token-revoke_token :
      (index_only : Bool) (s s' : S)
      → take 8 (sha256 task) ≢ []
      → revoke_token_secret k8s sha256 index_only task ns s ≡ ok s'
      → (get_token_secret k8s sha256 index_only task ns s' ≡ err StoreError.token_revoked)
        × (check_revoked k8s sha256 index_only task ns s' ≡ ok true)
  unfolding revoke_token_secret mark_revoked_in_index get_token_secret check_revoked
  get_token-revoke_token true s s' hashed h =
      let (idx, at, set) = marked-index s s' (sequential.retried _ s s' h) in
      (index-refuses idx s' at set, index-reports idx s' at set)
  get_token-revoke_token false s s' hashed h =
      elim (Result-cases (k8s.get ns (secret_name sha256 task) s)) [
        | inr (ApiError.not_found, e) ↦ absurd (ground (arith, e))
        | inr (ApiError.already_exists, e) ↦ absurd (ground (arith, e))
        | inr (ApiError.conflict, e) ↦ absurd (ground (arith, e))
        | inr (ApiError.other, e) ↦ absurd (ground (arith, e))
        | inl (sec, e) ↦ elim (Bool-cases (matches_task_label sha256 sec.labels task)) [
          | inr foreign ↦ absurd (ground (arith, e, foreign))
          | inl owned ↦ elim (Result-cases (k8s.update (relabelled sec) s)) [
            | inr (x, u) ↦ absurd (ground (arith, e, owned, u))
            | inl (s1, u) ↦
                let m : mark_revoked_in_index k8s sha256 false task ns s1 ≡ ok s' =
                  ground (arith, e, owned, u) in
                let (name, namespace) = sequential.get_named sec ns (secret_name sha256 task) s e in
                let written : k8s.get ns (secret_name sha256 task) s1 ≡ ok (relabelled sec) =
                  rw (sym name, sym namespace) (sequential.get_updated (relabelled sec) s s1 u) in
                let kept =
                  marked-others false (secret_name sha256 task) s1 s'
                    (secret_name-ne-index sha256 task) (sequential.retried _ s1 s' m) in
                let at = kept ∙ written in
                let mine = relabelled-owned sec hashed in
                let set =
                  is_true-put label_revoked
                    (put label_agent_task (task_label_value sha256 task) sec.labels) in
                (rw (at, mine, set) refl, rw (at, mine, set) refl)
          ]
        ]
      ]
