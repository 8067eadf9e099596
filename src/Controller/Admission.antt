-- ===== src/Controller/Admission.antt =====
-- What reconcileNamespaceQuota of internal/controller/environment_quota.go guarantees when it goes on.
use diverge.Base.{
  ◌+◌, ◌≤◌, ◌<◌, true, false, ◌&&◌, ◌==◌, List, [], ◌++◌, none, ◌≡◌, refl, ap, ◌∙◌, subst, inl, inr,
  arith, In, Bool-cases, ok, ltb, length,
}
use diverge.Controller.Types.{Environment, Annotations, Cluster}
use diverge.Controller.Limits.{
  Limits, other_active, environment_lru_timestamp, is_older, exceeds_quota, read_limits,
  is_hibernated,
}
use diverge.Controller.Quota.{
  Outcome, enforce_limits, sets_no_limit, check_annotations, with_environments, with_namespace,
  reconcile_namespace_quota,
}
use diverge.Controller.Oldest.{
  IsSorted, sort-IsSorted, IsSorted-split, is_older-asym, is_older-negtrans, is_older-lru,
}
use diverge.Controller.Victims.{AllNeeded, enforce_limits-admits}

module _ {F : Type 0} (cluster : Cluster F) where
  other_active-oldest :
      (env : Environment) (items victims remaining : List Environment) (v r : Environment)
      → other_active cluster env items ≡ victims ++ remaining
      → In v victims
      → In r remaining
      → environment_lru_timestamp cluster v ≤ environment_lru_timestamp cluster r
  unfolding other_active
  other_active-oldest env items victims remaining v r whole i j =
      let sorted =
        sort-IsSorted (is_older cluster) (is_older-asym cluster) (is_older-negtrans cluster) _ in
      is_older-lru cluster r v (
        IsSorted-split (is_older cluster) victims remaining v r
          (subst (IsSorted (is_older cluster)) whole sorted) i j)

  exceeds_quota-active :
      (limits : Limits F) (env : Environment) (others : List Environment)
      → exceeds_quota cluster limits env others ≡ none
      → 0 < limits.max_active
      → length others < limits.max_active
  unfolding exceeds_quota
  exceeds_quota-active limits env others h set =
      elim (Bool-cases (ltb 0 limits.max_active && ltb limits.max_active (length others + 1))) [
        | inl over ↦ absurd (cc (rw (over, exceeds_quota) at h))
        | inr fits ↦ ground arith
      ]

  -- The environments that go on running beside a new one are within the limits, and those that are
  -- hibernated for it are needed and the oldest.
  abbrev pub KeepsQuota : Limits F → Environment → List Environment → Outcome → Type 0
  KeepsQuota limits env items o =
      (remaining : List Environment) × (other_active cluster env items ≡ o.victims ++ remaining)
      × (exceeds_quota cluster limits env remaining ≡ none)
      × (0 < limits.max_active → length remaining < limits.max_active)
      × AllNeeded cluster limits env o.victims remaining
      × (limits.rejects ≡ true → o.victims ≡ [])
      × ((v r : Environment)
          → In v o.victims
          → In r remaining
          → environment_lru_timestamp cluster v ≤ environment_lru_timestamp cluster r)

  enforce_limits-KeepsQuota :
      (limits : Limits F) (env : Environment) (items : List Environment)
      → (enforce_limits cluster limits env items).stops ≡ false
      → (enforce_limits cluster limits env items).error ≡ none
      → KeepsQuota limits env items (enforce_limits cluster limits env items)
  enforce_limits-KeepsQuota limits env items go done =
      let (remaining, whole, within, needed, never) =
        enforce_limits-admits cluster limits env items go done in
      (
        remaining,
        whole,
        within,
        exceeds_quota-active limits env remaining within,
        needed,
        never,
        (λ v r i j. other_active-oldest env items _ remaining v r whole i j),
      )

  module _ (env : Environment) (annotations : Annotations) (items : List Environment)
      (found : cluster.get_namespace env.namespace ≡ ok annotations)
      (listed : cluster.list_environments env.namespace ≡ ok items)
      (annotated : length annotations == 0 ≡ false)
      (limited : sets_no_limit cluster (read_limits cluster annotations) ≡ false)
      (awake : is_hibernated cluster env ≡ false) where
    reconcile_enforces :
        reconcile_namespace_quota cluster env
        ≡ enforce_limits cluster (read_limits cluster annotations) env items
    unfolding reconcile_namespace_quota with_namespace check_annotations with_environments
    reconcile_enforces =
        let limits = read_limits cluster annotations in
        let checked : check_annotations cluster env annotations
            ≡ with_environments cluster limits env (cluster.list_environments env.namespace) =
          rw (annotated, limited, awake, check_annotations) refl in
        ap (with_namespace cluster env) found
        ∙ (checked ∙ ap (with_environments cluster limits env) listed)

    -- For an environment that is not hibernated, in a namespace that has annotations and sets a
    -- limit, and whose environments can be listed: if reconcileNamespaceQuota neither stops nor
    -- fails, then the other active environments are its victims followed by those that remain; the
    -- remaining ones beside the new one do not exceed the quota and are fewer than the limit of
    -- active environments, if there is one; with the last victims still running the quota would be
    -- exceeded, whichever victim one starts from; under the policy 'reject' there are no victims;
    -- and no victim had traffic, or was created, later than one that remains.
    pub reconcile_namespace_quota-KeepsQuota :
        (reconcile_namespace_quota cluster env).stops ≡ false
        → (reconcile_namespace_quota cluster env).error ≡ none
        → KeepsQuota
            (read_limits cluster annotations)
            env
            items
            (reconcile_namespace_quota cluster env)
    reconcile_namespace_quota-KeepsQuota =
        rw reconcile_enforces
          (enforce_limits-KeepsQuota (read_limits cluster annotations) env items)
