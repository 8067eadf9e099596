-- ===== src/Controller/Merged.antt =====
-- What mergeEnvVars and validateEnvVarMapping of internal/controller/environment_status.go return.
use diverge.Base.{
  false, List, [], ◌∷◌, ◌++◌, append_assoc, append-nil, Option, none, some, Text, text_eq,
  text_eq_iff, text_eq_sound, text_eq_refl, ◌≡◌, ◌↔◌, refl, sym, ap, subst, ◌∙◌, inl, inr, Result,
  ok, err, >>=-ok, >>=-err, Result-cases, ◌≢◌, In, All, Bool-cases, Option-cases,
}
use diverge.Topology.Sets.{has}
use diverge.Controller.EnvVars.{
  EnvVar, EnvVarError, conflict, blocked_env_vars, validate_env_var_mapping, find_var, merge_var,
  merge_env_vars,
}

-- `o`, or else `p`.
abbrev pub or_else : Option Text → Option Text → Option Text
or_else none p = p
or_else (some a) p = some a

or_else-none : (o : Option Text) → or_else o none ≡ o
or_else-none none = refl
or_else-none (some a) = refl

or_else_assoc : (o p q : Option Text) → or_else (or_else o p) q ≡ or_else o (or_else p q)
or_else_assoc none p q = refl
or_else_assoc (some a) p q = refl

find_var-append :
    (n : Text) (xs ys : List EnvVar)
    → find_var n (xs ++ ys) ≡ or_else (find_var n xs) (find_var n ys)
unfolding find_var
find_var-append n [] ys = refl
find_var-append n (e ∷ xs) ys = elim (Bool-cases (text_eq n e.name)) [
  | inl same ↦ rw same refl
  | inr other ↦ rw other (find_var-append n xs ys)
]

find_var_one : (v : EnvVar) → find_var v.name (v ∷ []) ≡ some v.value
unfolding find_var
find_var_one v = rw (text_eq_refl v.name) refl

-- What one round does to every name, and to the variable's own.
abbrev Placed : EnvVar → List EnvVar → List EnvVar → Type 0
Placed v out out' =
    (added : List EnvVar) × (out' ≡ out ++ added)
    × ((n : Text) → find_var n out' ≡ or_else (find_var n out) (find_var n (v ∷ [])))
    × (find_var v.name out' ≡ some v.value)

merge_var-none :
    (v : EnvVar) (out : List EnvVar) → find_var v.name out ≡ none → Placed v out (out ++ v ∷ [])
merge_var-none v out e =
    let all = λ (n : Text). find_var-append n out (v ∷ []) in
    (
      v ∷ [],
      refl,
      all,
      all v.name ∙ (ap (λ o. or_else o (find_var v.name (v ∷ []))) e ∙ find_var_one v),
    )

merge_var-some :
    (v : EnvVar) (out : List EnvVar) → find_var v.name out ≡ some v.value → Placed v out out
unfolding find_var
merge_var-some v out e = (
  [],
  sym (append-nil out),
  (λ n. elim (Bool-cases (text_eq n v.name)) [
    | inl same ↦
        let at : find_var n out ≡ some v.value =
          ap (λ m. find_var m out) (text_eq_sound n v.name same) ∙ e in
        rw at refl
    | inr other ↦ rw other (sym (or_else-none (find_var n out)))
  ]),
  e,
)

merge_var_sound :
    (v : EnvVar) (out out' : List EnvVar)
    → merge_var v out (find_var v.name out) ≡ ok out'
    → Placed v out out'
unfolding merge_var
merge_var_sound v out out' h = elim (Option-cases (find_var v.name out)) [
  | inl e ↦
      let h' : ok (out ++ v ∷ []) ≡ ok out' = sym (ap (merge_var v out) e) ∙ h in
      let same : out ++ v ∷ [] ≡ out' = cc h' in subst (Placed v out) same (merge_var-none v out e)
  | inr (existing, e) ↦
      let h' : merge_var v out (some existing) ≡ ok out' = sym (ap (merge_var v out) e) ∙ h in
      elim (Bool-cases (text_eq existing v.value)) [
        | inr other ↦ absurd (cc (rw other at h'))
        | inl same ↦
            let h'' : ok out ≡ ok out' = rw same at h' in
            let kept : out ≡ out' = cc h'' in
            subst (Placed v out) kept
              (merge_var-some v out (e ∙ ap (λ t. some t) (text_eq_sound existing v.value same)))
      ]
]

-- The value that a name has in a merge: the existing one, or else that of the others.
abbrev pub merged_value : Text → List EnvVar → List EnvVar → Option Text
merged_value n existing async_vars = or_else (find_var n existing) (find_var n async_vars)

merged_value-round :
    (v : EnvVar) (existing out async_vars : List EnvVar) (n : Text)
    → Placed v existing out
    → merged_value n out async_vars ≡ merged_value n existing (v ∷ async_vars)
merged_value-round v existing out async_vars n (added, grown, names, own) =
    ap (λ o. or_else o (find_var n async_vars)) (names n)
    ∙ (or_else_assoc (find_var n existing) (find_var n (v ∷ [])) (find_var n async_vars)
        ∙ ap (or_else (find_var n existing)) (sym (find_var-append n (v ∷ []) async_vars)))

-- The merged variables: the existing ones first, each name with its existing value or else the one
-- of the others, and each of the others present.
abbrev pub IsMerged : List EnvVar → List EnvVar → List EnvVar → Type 0
IsMerged existing async_vars merged =
    (added : List EnvVar) × (merged ≡ existing ++ added)
    × ((n : Text) → find_var n merged ≡ merged_value n existing async_vars)
    × All (λ v. find_var v.name merged ≡ some v.value) async_vars

merge_env_vars-IsMerged :
    (existing async_vars merged : List EnvVar)
    → merge_env_vars existing async_vars ≡ ok merged
    → IsMerged existing async_vars merged
unfolding merge_env_vars
merge_env_vars-IsMerged existing [] merged h =
    let same : existing ≡ merged = cc h in
    (
      [],
      sym same ∙ sym (append-nil existing),
      (λ n. sym (ap (find_var n) same) ∙ sym (or_else-none (find_var n existing))),
      tt,
    )
merge_env_vars-IsMerged existing (v ∷ async_vars) merged h =
    let (out, one, rest) =
      >>=-ok (merge_var v existing (find_var v.name existing))
        (λ out'. merge_env_vars out' async_vars) merged h in
    let (first, grown, names, own) = merge_var_sound v existing out one in
    let (added, whole, all, present) = merge_env_vars-IsMerged out async_vars merged rest in
    (
      first ++ added,
      whole ∙ (ap (λ l. l ++ added) grown ∙ append_assoc existing first added),
      (λ n. all n ∙ merged_value-round v existing out async_vars n (first, grown, names, own)),
      (all v.name ∙ ap (λ o. or_else o (find_var v.name async_vars)) own, present),
    )

-- A variable of the others has a name that has another value in the merge.
abbrev pub IsConflict : List EnvVar → List EnvVar → EnvVarError → Type 0
IsConflict existing async_vars e =
    (v : EnvVar) × (value : Text) × In v async_vars
    × (merged_value v.name existing async_vars ≡ some value)
    × (value ≢ v.value)
    × (e ≡ conflict v.name value v.value)

merge_var_err :
    (v : EnvVar) (out : List EnvVar) (found : Option Text) (e : EnvVarError)
    → merge_var v out found ≡ err e
    → (value : Text) × (found ≡ some value)
      × (value ≢ v.value)
      × (e ≡ conflict v.name value v.value)
unfolding merge_var
merge_var_err v out none e h = absurd (cc h)
merge_var_err v out (some value) e h = elim (Bool-cases (text_eq value v.value)) [
  | inl same ↦ absurd (cc (rw same at h))
  | inr other ↦
      let h' : err (conflict v.name value v.value) ≡ err e = rw other at h in
      let same : conflict v.name value v.value ≡ e = cc h' in
      (value, refl, (λ q. absurd (cc (sym ((text_eq_iff value v.value).1 q) ∙ other))), sym same)
]

merge_env_vars-IsConflict :
    (existing async_vars : List EnvVar) (e : EnvVarError)
    → merge_env_vars existing async_vars ≡ err e
    → IsConflict existing async_vars e
unfolding merge_env_vars
merge_env_vars-IsConflict existing [] e h = absurd (cc h)
merge_env_vars-IsConflict existing (v ∷ async_vars) e h =
    elim (>>=-err (merge_var v existing (find_var v.name existing))
      (λ out'. merge_env_vars out' async_vars) e h) [
        | inl first ↦
            let (value, found, ne, is) =
              merge_var_err v existing (find_var v.name existing) e first in
            (
              v,
              value,
              inl refl,
              ap (λ o. or_else o (find_var v.name (v ∷ async_vars))) found,
              ne,
              is,
            )
        | inr (out, one, later) ↦
            let placed = merge_var_sound v existing out one in
            let (w, value, i, has_value, ne, is) =
              merge_env_vars-IsConflict out async_vars e later in
            (
              w,
              value,
              inr i,
              sym (merged_value-round v existing out async_vars w.name placed) ∙ has_value,
              ne,
              is,
            )
      ]

-- What a merge promises, of its result or of its error.
abbrev pub MergePromise : List EnvVar → List EnvVar → Result EnvVarError (List EnvVar) → Type 0
MergePromise existing async_vars (ok merged) = IsMerged existing async_vars merged
MergePromise existing async_vars (err e) = IsConflict existing async_vars e

-- mergeEnvVars returns the existing variables followed by others, in which each name has its
-- existing value or else that of the first of the others, and each of the others is present with
-- its value; or it reports one of the others whose value is not the one that its name has by this
-- rule.
pub merge_env_vars-MergePromise :
    (existing async_vars : List EnvVar)
    → MergePromise existing async_vars (merge_env_vars existing async_vars)
merge_env_vars-MergePromise existing async_vars =
    elim (Result-cases (merge_env_vars existing async_vars)) [
      | inl (merged, e) ↦ rw e (merge_env_vars-IsMerged existing async_vars merged e)
      | inr (error, e) ↦ rw e (merge_env_vars-IsConflict existing async_vars error e)
    ]

-- validateEnvVarMapping succeeds exactly if no key and no value of the mapping is a blocked
-- variable.
pub validate_env_var_mapping_iff :
    (mapping : List (Text × Text))
    → (validate_env_var_mapping mapping ≡ ok tt)
      ↔ All (λ e. (has blocked_env_vars e.0 ≡ false) × (has blocked_env_vars e.1 ≡ false)) mapping
unfolding validate_env_var_mapping
validate_env_var_mapping_iff [] = ((λ h. tt), (λ h. refl))
validate_env_var_mapping_iff ((k, v) ∷ mapping) =
    let rest = validate_env_var_mapping_iff mapping in
    elim (Bool-cases (has blocked_env_vars k)) [
      | inl e ↦ rw e ((λ h. absurd (cc h)), (λ h. absurd (cc h.0.0)))
      | inr e ↦ elim (Bool-cases (has blocked_env_vars v)) [
        | inl f ↦ rw (e, f) ((λ h. absurd (cc h)), (λ h. absurd (cc h.0.1)))
        | inr f ↦ rw (e, f) ((λ h. ((refl, refl), rest.0 h)), (λ h. rest.1 h.1))
      ]
    ]
