-- ===== src/Replay/Same.antt =====
-- JSON values as the comparison of pkg/replay/diff.go sees them.
use diverge.Base.{
  List, [], ◌∷◌, ◌++◌, Option, none, some, Text, text_eq, text_eq_iff, ◌≡◌, ◌≢◌, ◌↔◌, ◌⊎◌, inl, inr,
  refl, sym, ◌∙◌, subst, if◌then◌else◌, In, Bool-cases, Option-cases,
}
use diverge.Topology.Sets.{add, text_lt, In-add_iff, In-sort_iff}
use diverge.Replay.Types.{
  Json, Items, Fields, null, boolean, number, string, array, object, nil, item, empty, field,
  ContractDiff,
}
use diverge.Replay.Json.{lookup, add_keys, sorted_keys, each_key}

-- Two JSON values are the same up to the order of an object's keys.
abbrev mutual
  pub Same : Json → Json → Type 0
  Same null null = Unit
  Same (boolean a) (boolean b) = a ≡ b
  Same (number m) (number n) = m ≡ n
  Same (string s) (string t) = s ≡ t
  Same (array xs) (array ys) = SameItems xs ys
  Same (object bs) (object ps) = (k : Text) → SameAt bs k (lookup k ps)
  Same _ _ = ⊥

  pub SameItems : Items → Items → Type 0
  SameItems nil nil = Unit
  SameItems (item x xs) (item y ys) = Same x y × SameItems xs ys
  SameItems _ _ = ⊥

  -- What a list of entries has at a key is the same as what a map has there.
  pub SameAt : Fields → Text → Option Json → Type 0
  SameAt empty k o = o ≡ none
  SameAt (field j v fs) k o =
      let here : Type 0 = elim o [ none ↦ ⊥ | some w ↦ Same v w ] in
      let later = SameAt fs k o in if text_eq k j then here else later

pub append_nil_iff : {A : Type 0} (xs ys : List A) → (xs ++ ys ≡ []) ↔ ((xs ≡ []) × (ys ≡ []))
append_nil_iff [] ys = ((λ h. (refl, h)), (λ h. h.1))
append_nil_iff (x ∷ xs) ys = ((λ h. absurd (cc h)), (λ h. absurd (cc h.0)))

pub each_key_nil_iff :
    (visit : Text → List ContractDiff) (ks : List Text)
    → (each_key visit ks ≡ []) ↔ ((k : Text) → In k ks → visit k ≡ [])
unfolding each_key
each_key_nil_iff visit [] = ((λ h k i. elim i [ ]), (λ h. refl))
each_key_nil_iff visit (k ∷ ks) =
    let both = append_nil_iff (visit k) (each_key visit ks) in
    let rest = each_key_nil_iff visit ks in
    (
      (λ h j i. elim i [
        | inl e ↦ subst (λ x. visit x ≡ []) (sym e) (both.0 h).0
        | inr later ↦ rest.0 (both.0 h).1 j later
      ]),
      (λ h. both.1 (h k (inl refl), rest.1 (λ j i. h j (inr i)))),
    )

In-add_keys :
    (k : Text) (fs : Fields) (keys : List Text)
    → In k keys ⊎ (lookup k fs ≢ none)
    → In k (add_keys fs keys)
unfolding add_keys lookup
In-add_keys k empty keys (inl i) = i
In-add_keys k empty keys (inr n) = absurd (n refl)
In-add_keys k (field j v fs) keys (inl i) =
    In-add_keys k fs (add j keys) (inl ((In-add_iff j k keys).1 (inl i)))
In-add_keys k (field j v fs) keys (inr n) = elim (Bool-cases (text_eq k j)) [
  | inl e ↦
      In-add_keys k fs (add j keys) (inl ((In-add_iff j k keys).1 (inr ((text_eq_iff k j).0 e))))
  | inr e ↦ In-add_keys k fs (add j keys) (inr (rw e at n))
]

-- Every key of either object is among the sorted keys.
In-sorted_keys :
    (k : Text) (bs ps : Fields)
    → (lookup k bs ≢ none) ⊎ (lookup k ps ≢ none)
    → In k (sorted_keys bs ps)
unfolding sorted_keys
In-sorted_keys k bs ps h = (In-sort_iff text_lt k _).1 (
    In-add_keys k ps (add_keys bs [])
      (elim h [ inl n ↦ inl (In-add_keys k bs [] (inr n)) | inr n ↦ inr n ]))

pub key_or_none :
    (k : Text) (bs ps : Fields)
    → In k (sorted_keys bs ps) ⊎ ((lookup k bs ≡ none) × (lookup k ps ≡ none))
key_or_none k bs ps = elim (Option-cases (lookup k bs)) [
  | inr (v, e) ↦ inl (In-sorted_keys k bs ps (inl (λ n. absurd (cc (sym e ∙ n)))))
  | inl e ↦ elim (Option-cases (lookup k ps)) [
    | inr (w, f) ↦ inl (In-sorted_keys k bs ps (inr (λ n. absurd (cc (sym f ∙ n)))))
    | inl f ↦ inr (e, f)
  ]
]
