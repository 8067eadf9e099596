-- ===== src/Controller/Phases.antt =====
-- What derivePhase of internal/controller/environment_status.go returns.
use diverge.Base.{
  Bool, true, false, ◌&&◌, List, [], ◌∷◌, Text, codes, text_eq, text_eq_iff, text_eq_sound, arith,
  ◌≡◌, ◌≢◌, ◌↔◌, refl, sym, ◌∙◌, subst, inl, inr, ◌⊎◌, In, Bool-cases,
}
use diverge.Controller.Types.{
  Condition, ConditionStatus, condition_true, condition_false, condition_unknown, EnvironmentPhase,
  failed,
}
use diverge.Controller.Status.{
  Verdict, by_status, proceed, is_ready, not_ready, has_failed, judge, derive_loop, derive_phase,
}

-- The condition says that the environment failed: it is false, and neither the drift of a baseline
-- nor a migration that runs.
abbrev pub IsFailure : Condition → Type 0
IsFailure c =
    (c.type_name ≢ codes "BaselineDriftDetected")
    × (c.status ≡ condition_false)
    × (¬ ((c.type_name ≡ codes "MigrationReady") × (c.reason ≡ codes "MigrationRunning")))

both_eq : (a b c d : Text) → text_eq a b && text_eq c d ≡ true → (a ≡ b) × (c ≡ d)
both_eq a b c d h = (text_eq_sound a b (ground arith), text_eq_sound c d (ground arith))

both_ne : (a b c d : Text) → (a ≡ b) × (c ≡ d) → text_eq a b && text_eq c d ≡ false → true ≡ false
both_ne a b c d q h =
    let e = (text_eq_iff a b).1 q.0 in let f = (text_eq_iff c d).1 q.1 in ground (arith, e, f)

by_status-failed_iff :
    (c : Condition) (s : ConditionStatus)
    → (by_status c s ≡ has_failed) ↔ (
        (s ≡ condition_false)
        × (¬ ((c.type_name ≡ codes "MigrationReady") × (c.reason ≡ codes "MigrationRunning"))))
unfolding by_status
by_status-failed_iff c condition_true = ((λ h. absurd (cc h)), (λ h. absurd (cc h.0)))
by_status-failed_iff c condition_unknown = ((λ h. absurd (cc h)), (λ h. absurd (cc h.0)))
by_status-failed_iff c condition_false =
    elim (Bool-cases (
      text_eq c.type_name (codes "MigrationReady")
      && text_eq c.reason (codes "MigrationRunning"))) [
        | inl e ↦ rw e ((λ h. absurd (cc h)), (λ h. absurd (h.1 (both_eq _ _ _ _ e))))
        | inr e ↦ rw e ((λ h. (refl, (λ q. absurd (cc (both_ne _ _ _ _ q e))))), (λ h. refl))
      ]

judge-failed_iff : (c : Condition) → (judge c ≡ has_failed) ↔ IsFailure c
unfolding judge
judge-failed_iff c = elim (Bool-cases (text_eq c.type_name (codes "BaselineDriftDetected"))) [
  | inl e ↦ rw e ((λ h. absurd (cc h)), (λ h. absurd (h.0 (text_eq_sound _ _ e))))
  | inr e ↦
      let by = by_status-failed_iff c c.status in
      let ne : c.type_name ≢ codes "BaselineDriftDetected" =
        λ q. absurd (cc (sym ((text_eq_iff _ _).1 q) ∙ e)) in
      rw e ((λ h. (ne, (by.0 h).0, (by.0 h).1)), (λ h. by.1 (h.1, h.2)))
]

proceed-failed_iff :
    (v : Verdict) (on waiting : EnvironmentPhase) (P : Type 0)
    → (on ≡ failed) ↔ P
    → (waiting ≡ failed) ↔ P
    → (proceed v on waiting ≡ failed) ↔ ((v ≡ has_failed) ⊎ P)
unfolding proceed
proceed-failed_iff is_ready on waiting P h k =
    ((λ e. inr (h.0 e)), (λ e. elim e [ inl q ↦ absurd (cc q) | inr p ↦ h.1 p ]))
proceed-failed_iff not_ready on waiting P h k =
    ((λ e. inr (k.0 e)), (λ e. elim e [ inl q ↦ absurd (cc q) | inr p ↦ k.1 p ]))
proceed-failed_iff has_failed on waiting P h k = ((λ e. inl refl), (λ e. refl))

abbrev pub AnyFails : List Condition → Type 0
AnyFails cs = (c : Condition) × In c cs × IsFailure c

derive_loop-failed_iff :
    (all_ready : Bool) (cs : List Condition) → (derive_loop all_ready cs ≡ failed) ↔ AnyFails cs
unfolding derive_loop
derive_loop-failed_iff true [] = ((λ h. absurd (cc h)), (λ h. absurd h.1))
derive_loop-failed_iff false [] = ((λ h. absurd (cc h)), (λ h. absurd h.1))
derive_loop-failed_iff all_ready (c ∷ cs) =
    let step =
      proceed-failed_iff (judge c) _ _ (AnyFails cs) (derive_loop-failed_iff all_ready cs)
        (derive_loop-failed_iff false cs) in
    (
      (λ h. elim (step.0 h) [
        | inl e ↦ (c, inl refl, (judge-failed_iff c).0 e)
        | inr (x, i, f) ↦ (x, inr i, f)
      ]),
      (λ h.
          let (x, i, f) = h in
          step.1 (elim i [
            | inl e ↦ inl ((judge-failed_iff c).1 (subst IsFailure e f))
            | inr j ↦ inr (x, j, f)
          ])),
    )

-- derivePhase of a list of conditions is 'Failed' exactly if some condition is false and is neither
-- the drift of a baseline nor a migration that runs.
pub derive_phase-failed_iff : (cs : List Condition) → (derive_phase cs ≡ failed) ↔ AnyFails cs
unfolding derive_phase
derive_phase-failed_iff [] = ((λ h. absurd (cc h)), (λ h. absurd h.1))
derive_phase-failed_iff (c ∷ cs) = derive_loop-failed_iff true (c ∷ cs)
