-- ===== src/Controller/Victims.antt =====
-- The environments that reconcileNamespaceQuota of internal/controller/environment_quota.go
-- hibernates for another.
use diverge.Base.{
  ◌+◌, true, false, ◌&&◌, List, [], ◌∷◌, ◌++◌, append_assoc, append-nil, Option, none, some, Text,
  ◌≡◌, ◌≢◌, refl, sym, ap, ◌∙◌, subst, inl, inr, Bool-cases, Option-cases, ok, Result-cases, ltb,
}
use diverge.Controller.Types.{Environment, Cluster}
use diverge.Controller.Limits.{
  Limits, uses_cnpg_cluster, other_cnpg_count, other_active, exceeds_quota, choose_victims,
}
use diverge.Controller.Quota.{
  hibernate_all, after_hibernation, after_claim, admit, refuse, decide, fail, enforce_limits,
}
use diverge.Controller.Oldest.{}

module _ {F : Type 0} (cluster : Cluster F) (limits : Limits F) (env : Environment) where
  -- Without the last of these environments, the quota would still be exceeded, and so on.
  abbrev pub AllNeeded : List Environment → List Environment → Type 0
  AllNeeded [] remaining = Unit {0}
  AllNeeded (v ∷ vs) remaining =
      (exceeds_quota cluster limits env (v ∷ vs ++ remaining) ≢ none) × AllNeeded vs remaining

  -- What the loop moves from the candidates to the victims.
  abbrev Chosen : List Environment → List Environment → List Environment → List Environment → Type 0
  Chosen before active victims remaining =
      (moved : List Environment) × (victims ≡ before ++ moved)
      × (active ≡ moved ++ remaining)
      × (exceeds_quota cluster limits env remaining ≡ none)
      × AllNeeded moved remaining
      × (limits.rejects ≡ true → moved ≡ [])

  choose_victims_sound :
      (before active victims remaining : List Environment)
      → choose_victims cluster limits env before active ≡ ok (victims, remaining)
      → Chosen before active victims remaining
  unfolding choose_victims
  choose_victims_sound before [] victims remaining h =
      elim (Option-cases (exceeds_quota cluster limits env [])) [
        | inr (msg, e) ↦ absurd (cc (rw (e, choose_victims) at h))
        | inl e ↦
            let h' : ok (before, []) ≡ ok (victims, remaining) = rw (e, choose_victims) at h in
            let hv : before ≡ victims = cc h' in
            let hr : [] ≡ remaining = cc h' in
            (
              [],
              sym hv ∙ sym (append-nil before),
              hr,
              subst (λ r. exceeds_quota cluster limits env r ≡ none) hr e,
              tt,
              (λ _. refl),
            )
      ]
  choose_victims_sound before (oldest ∷ rest) victims remaining h =
      elim (Option-cases (exceeds_quota cluster limits env (oldest ∷ rest))) [
        | inl e ↦
            let h' : ok (before, oldest ∷ rest) ≡ ok (victims, remaining) =
              rw (e, choose_victims) at h in
            let hv : before ≡ victims = cc h' in
            let hr : oldest ∷ rest ≡ remaining = cc h' in
            (
              [],
              sym hv ∙ sym (append-nil before),
              hr,
              subst (λ r. exceeds_quota cluster limits env r ≡ none) hr e,
              tt,
              (λ _. refl),
            )
        | inr (msg, e) ↦ elim (Bool-cases limits.rejects) [
          | inl r ↦ absurd (cc (rw (e, r, choose_victims) at h))
          | inr r ↦
              let h' : choose_victims cluster limits env (before ++ oldest ∷ []) rest
                  ≡ ok (victims, remaining) =
                rw (e, r, choose_victims) at h in
              let (moved, hv, hr, within, needed, _) =
                choose_victims_sound (before ++ oldest ∷ []) rest victims remaining h' in
              (
                oldest ∷ moved,
                hv ∙ append_assoc before (oldest ∷ []) moved,
                ap (λ l. oldest ∷ l) hr,
                within,
                (
                  (λ n. absurd (
                      cc (
                        sym (
                          subst (λ l. exceeds_quota cluster limits env (oldest ∷ l) ≡ some msg) hr
                            e)
                        ∙ n))),
                  needed,
                ),
                (λ q. absurd (cc (sym q ∙ r))),
              )
        ]
      ]

module _ {F : Type 0} (cluster : Cluster F) where
  hibernate_all_done :
      (vs : List Environment)
      → (hibernate_all cluster vs).1 ≡ none
      → (hibernate_all cluster vs).0 ≡ vs
  unfolding hibernate_all
  hibernate_all_done [] h = refl
  hibernate_all_done (v ∷ vs) h = elim (Option-cases (cluster.hibernate_environment v)) [
    | inl e ↦
        rw (e, hibernate_all) (ap (λ l. v ∷ l) (hibernate_all_done vs (rw (e, hibernate_all) at h)))
    | inr (msg, e) ↦ absurd (cc (rw (e, hibernate_all) at h))
  ]

  after_hibernation-victims :
      (env : Environment) (r : List Environment × Option Text)
      → (after_hibernation cluster env r).error ≡ none
      → (r.1 ≡ none) × ((after_hibernation cluster env r).victims ≡ r.0)
  unfolding after_hibernation fail
  after_hibernation-victims env (done, none) h = (refl, refl)
  after_hibernation-victims env (done, some e) h = absurd (cc h)

  after_claim-victims :
      (env : Environment) (vs : List Environment) (claimed : Option Text)
      → (after_claim cluster env vs claimed).error ≡ none
      → (after_claim cluster env vs claimed).victims ≡ vs
  unfolding after_claim fail
  after_claim-victims env vs none h =
      let (done, same) = after_hibernation-victims env (hibernate_all cluster vs) h in
      same ∙ hibernate_all_done vs done
  after_claim-victims env vs (some e) h = absurd (cc h)

  -- What a call that goes on has chosen.
  abbrev pub Admitted : Limits F → Environment → List Environment → List Environment → Type 0
  Admitted limits env candidates victims =
      (remaining : List Environment) × (candidates ≡ victims ++ remaining)
      × (exceeds_quota cluster limits env remaining ≡ none)
      × AllNeeded cluster limits env victims remaining
      × (limits.rejects ≡ true → victims ≡ [])

  decide-Admitted :
      (limits : Limits F) (env : Environment) (candidates : List Environment)
      → (decide cluster env (choose_victims cluster limits env [] candidates)).stops ≡ false
      → (decide cluster env (choose_victims cluster limits env [] candidates)).error ≡ none
      → Admitted limits env candidates
          (decide cluster env (choose_victims cluster limits env [] candidates)).victims
  unfolding decide refuse admit
  decide-Admitted limits env candidates go done =
      elim (Result-cases (choose_victims cluster limits env [] candidates)) [
        | inr (msg, e) ↦ absurd (cc (sym (ap (λ r. (decide cluster env r).stops) e) ∙ go))
        | inl ((victims, remaining), e) ↦
            let (moved, same, whole, within, needed, never) =
              choose_victims_sound cluster limits env [] candidates victims remaining e in
            let all =
              after_claim-victims env victims _
                (sym (ap (λ r. (decide cluster env r).error) e) ∙ done) in
            let out : (decide cluster env (choose_victims cluster limits env [] candidates)).victims
                ≡ moved =
              ap (λ r. (decide cluster env r).victims) e ∙ (all ∙ same) in
            subst (λ vs. Admitted limits env candidates vs) (sym out)
              (remaining, whole, within, needed, never)
      ]

  pub enforce_limits-admits :
      (limits : Limits F) (env : Environment) (items : List Environment)
      → (enforce_limits cluster limits env items).stops ≡ false
      → (enforce_limits cluster limits env items).error ≡ none
      → Admitted limits env
          (other_active cluster env items)
          (enforce_limits cluster limits env items).victims
  unfolding enforce_limits refuse
  enforce_limits-admits limits env items go done =
      elim (Bool-cases (
        (ltb 0 limits.max_cnpg && uses_cnpg_cluster cluster env)
        && ltb limits.max_cnpg (other_cnpg_count cluster env items + 1))) [
          | inl over ↦ absurd (cc (rw (over, enforce_limits) at go))
          | inr fits ↦
              rw (fits, enforce_limits)
                (decide-Admitted limits env (other_active cluster env items)
                  (rw (fits, enforce_limits) at go) (rw (fits, enforce_limits) at done))
        ]
