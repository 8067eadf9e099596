-- ===== src/Replay/Equal.antt =====
-- When the comparison of two JSON values in pkg/replay/diff.go finds nothing.
use diverge.Base.{
  ℕ, suc, Bool, true, false, ◌==◌, List, [], ◌∷◌, ◌++◌, Option, none, some, Text, codes, text_eq,
  text_eq_iff, any, ◌≡◌, ◌≢◌, ◌↔◌, inl, inr, refl, sym, ap, ◌∙◌, arith, if◌then◌else◌, Bool-cases,
}
use diverge.Replay.Types.{
  Json, Items, Fields, null, boolean, number, string, array, object, nil, item, empty, field,
  ContractDiff, DiffOptions, Std,
}
use diverge.Replay.Json.{
  describe_json_type, lookup, sorted_keys, count, index_path, should_ignore_field, diff_scalars,
  count_mismatch, diff_key, same_type, diff_items, diff_extra, diff_field, diff_typed,
  diff_json_values, format_json_scalar, type_mismatch,
}
use diverge.Replay.Same.{Same, SameItems, SameAt, append_nil_iff, each_key_nil_iff, key_or_none}
use diverge.Replay.Clauses.{
  IsScalar, visit_key, diff_typed_array, diff_typed_object, diff_field_here, diff_field_later,
  diff_items_nil, diff_items_item, diff_typed_scalar, diff_key-none, diff_key_ext,
}

module _ (std : Std) (opts : DiffOptions)
    (never : (path : Text) → should_ignore_field std opts path ≡ false) where
  differ :
      (path : Text) (b p : Json) (typed : List ContractDiff)
      → text_eq (describe_json_type b) (describe_json_type p) ≡ false
      → same_type std opts path b p typed ≢ []
  unfolding same_type type_mismatch
  differ path b p typed e h = cc (rw (never path, e) at h)

  unless_ignored :
      (path : Text) (ds : List ContractDiff)
      → (if should_ignore_field std opts path then [] else ds) ≡ ds
  unless_ignored path ds = rw (never path)

  alike :
      (path : Text) (b p : Json) (typed : List ContractDiff)
      → text_eq (describe_json_type b) (describe_json_type p) ≡ true
      → same_type std opts path b p typed ≡ typed
  unfolding same_type
  alike path b p typed e = rw (never path, e)

  module _ (values : opts.compare_values ≡ true)
      (quote_injective : (s t : Text) → std.quote s ≡ std.quote t → s ≡ t) where
    diff_scalars_iff :
        (path : Text) (b p : Json)
        → (diff_scalars std opts path b p ≡ [])
          ↔ (format_json_scalar std opts b ≡ format_json_scalar std opts p)
    unfolding diff_scalars
    diff_scalars_iff path b p =
        elim (Bool-cases
          (text_eq (format_json_scalar std opts b) (format_json_scalar std opts p))) [
            | inl e ↦ rw (values, e) ((λ h. (text_eq_iff _ _).0 e), (λ h. refl))
            | inr e ↦
                rw (values, e) ((λ h. absurd (cc h)), (λ h. absurd (cc (e, (text_eq_iff _ _).1 h))))
          ]

    scalars_iff :
        (path : Text) (b p : Json)
        → IsScalar b
        → text_eq (describe_json_type b) (describe_json_type p) ≡ true
        → (same_type std opts path b p (diff_typed std opts path b p) ≡ [])
          ↔ (format_json_scalar std opts b ≡ format_json_scalar std opts p)
    scalars_iff path b p scalar e =
        rw
          (
            alike path b p (diff_typed std opts path b p) e,
            diff_typed_scalar std opts path b p scalar,
          )
          (diff_scalars_iff path b p)

    boolean_text :
        (a b : Bool)
        → format_json_scalar std opts (boolean a) ≡ format_json_scalar std opts (boolean b)
        → a ≡ b
    unfolding format_json_scalar
    boolean_text true true h = refl
    boolean_text false false h = refl
    boolean_text true false h = absurd (cc h)
    boolean_text false true h = absurd (cc h)

    count_mismatch_iff :
        (path : Text) (bs ps : Items)
        → (count_mismatch std opts path bs ps ≡ []) ↔ (count bs ≡ count ps)
    unfolding count_mismatch
    count_mismatch_iff path bs ps = elim (Bool-cases (count bs == count ps)) [
      | inl e ↦ rw (values, e) ((λ h. ground arith), (λ h. refl))
      | inr e ↦ rw (values, e) ((λ h. absurd (cc h)), (λ h. absurd (ground arith)))
    ]

    diff_extra-nil : (path : Text) (bs ps : Items) → diff_extra std opts path bs ps ≡ []
    unfolding diff_extra
    diff_extra-nil path nil ps = refl
    diff_extra-nil path (item b bs) ps = rw values refl

    SameItems-count : (bs ps : Items) → SameItems bs ps → count bs ≡ count ps
    unfolding count
    SameItems-count nil nil s = refl
    SameItems-count (item b bs) (item p ps) s = ap suc (SameItems-count bs ps s.1)
    SameItems-count nil (item p ps) s = absurd s
    SameItems-count (item b bs) nil s = absurd s

    -- The whole of two arrays, from the comparison of their elements.
    array_iff :
        (path : Text) (bs ps : Items)
        → (count bs ≡ count ps → (diff_items std opts path 0 bs ps ≡ []) ↔ SameItems bs ps)
        → (diff_typed std opts path (array bs) (array ps) ≡ []) ↔ SameItems bs ps
    array_iff path bs ps elements =
        let joined = diff_typed_array std opts path bs ps in
        let counts = count_mismatch_iff path bs ps in
        let rest =
          append_nil_iff (diff_items std opts path 0 bs ps) (diff_extra std opts path bs ps) in
        let whole =
          append_nil_iff (count_mismatch std opts path bs ps)
            (diff_items std opts path 0 bs ps ++ diff_extra std opts path bs ps) in
        (
          (λ h. let (c, r) = whole.0 (sym joined ∙ h) in (elements (counts.0 c)).0 (rest.0 r).0),
          (λ s.
              let same = SameItems-count bs ps s in
              joined
              ∙ whole.1 (counts.1 same, rest.1 ((elements same).1 s, diff_extra-nil path bs ps))),
        )

    -- The whole of two objects, from the comparison at each key.
    object_iff :
        (path : Text) (bs ps : Fields)
        → ((q k : Text) (o : Option Json)
            → (diff_key std opts (λ q v. diff_field std opts q k bs v) q (lookup k bs) o ≡ [])
              ↔ SameAt bs k o)
        → (diff_typed std opts path (object bs) (object ps) ≡ [])
          ↔ ((k : Text) → SameAt bs k (lookup k ps))
    object_iff path bs ps at_key =
        let keys = each_key_nil_iff (visit_key std opts path bs ps) (sorted_keys bs ps) in
        let whole = diff_typed_object std opts path bs ps in
        let here : (k : Text) → (visit_key std opts path bs ps k ≡ []) ↔ SameAt bs k (lookup k ps) =
          λ k.
            let open_key = unless_ignored (path ++ b'.' ∷ k) (
              diff_key std opts (λ q v. diff_field std opts q k bs v) (path ++ b'.' ∷ k)
                (lookup k bs) (lookup k ps)) in
            (
              (λ h. (at_key (path ++ b'.' ∷ k) k (lookup k ps)).0 (sym open_key ∙ h)),
              (λ s. open_key ∙ (at_key (path ++ b'.' ∷ k) k (lookup k ps)).1 s),
            ) in
        (
          (λ h k. elim (key_or_none k bs ps) [
            | inl i ↦ (here k).0 (keys.0 (sym whole ∙ h) k i)
            | inr (e, f) ↦ (at_key (path ++ b'.' ∷ k) k (lookup k ps)).0 (
                ap
                  (λ o.
                    diff_key std opts (λ q v. diff_field std opts q k bs v) (path ++ b'.' ∷ k) o
                      (lookup k ps))
                  e
                ∙ (ap
                      (λ o.
                        diff_key std opts (λ q v. diff_field std opts q k bs v) (path ++ b'.' ∷ k)
                          none o)
                      f
                    ∙ diff_key-none std opts _ _))
          ]),
          (λ s. whole ∙ keys.1 (λ k i. (here k).1 (s k))),
        )

    later_iff :
        (path k j : Text) (b : Json) (bs : Fields) (o : Option Json)
        → text_eq k j ≡ false
        → (diff_key std opts (λ q v. diff_field std opts q k bs v) path (lookup k bs) o ≡ [])
          ↔ SameAt bs k o
        → (diff_key std opts
              (λ q v. diff_field std opts q k (field j b bs) v)
              path
              (lookup k (field j b bs))
              o
            ≡ [])
          ↔ SameAt (field j b bs) k o
    unfolding lookup
    later_iff path k j b bs o e ih =
        let same =
          diff_key_ext std opts (λ q v. diff_field std opts q k (field j b bs) v)
            (λ q v. diff_field std opts q k bs v) path (lookup k bs) o
            (λ v. diff_field_later std opts path k j b bs v e) in
        rw e ((λ h. ih.0 (sym same ∙ h)), (λ s. same ∙ ih.1 s))

    mutual
      unfolding describe_json_type format_json_scalar lookup text_eq diff_key count

      value_iff :
          (path : Text) (b p : Json)
          → (same_type std opts path b p (diff_typed std opts path b p) ≡ []) ↔ Same b p
      value_iff path null null = ((λ h. tt), (λ s. (scalars_iff path null null tt refl).1 refl))
      value_iff path (boolean a) (boolean b) =
          let scalars = scalars_iff path (boolean a) (boolean b) tt refl in
          (
            (λ h. boolean_text a b (scalars.0 h)),
            (λ s. scalars.1 (ap (λ c. format_json_scalar std opts (boolean c)) s)),
          )
      value_iff path (number m) (number n) = scalars_iff path (number m) (number n) tt refl
      value_iff path (string s) (string t) =
          let scalars = scalars_iff path (string s) (string t) tt refl in
          ((λ h. quote_injective s t (scalars.0 h)), (λ e. scalars.1 (ap std.quote e)))
      value_iff path (array bs) (array ps) =
          rw
            (alike path (array bs) (array ps) (diff_typed std opts path (array bs) (array ps)) refl)
            (array_iff path bs ps (λ same. items_iff path 0 bs ps same))
      value_iff path (object bs) (object ps) =
          rw
            (alike path (object bs) (object ps) (diff_typed std opts path (object bs) (object ps))
              refl)
            (object_iff path bs ps (λ q k o. field_iff q k bs o))
      value_iff path b p =
          ((λ h. absurd (differ path b p (diff_typed std opts path b p) refl h)), (λ s. absurd s))

      items_iff :
          (path : Text) (i : ℕ) (bs ps : Items)
          → count bs ≡ count ps
          → (diff_items std opts path i bs ps ≡ []) ↔ SameItems bs ps
      items_iff path i nil nil same = ((λ h. tt), (λ s. diff_items_nil std opts path i))
      items_iff path i nil (item p ps) same = absurd (omega arith)
      items_iff path i (item b bs) nil same = absurd (omega arith)
      items_iff path i (item b bs) (item p ps) same =
          let first = value_iff (index_path path i) b p in
          let rest = items_iff path (suc i) bs ps (omega arith) in
          let both =
            append_nil_iff
              (same_type std opts (index_path path i) b p
                (diff_typed std opts (index_path path i) b p))
              (diff_items std opts path (suc i) bs ps) in
          let joined = diff_items_item std opts path i b p bs ps in
          (
            (λ h. let (x, y) = both.0 (sym joined ∙ h) in (first.0 x, rest.0 y)),
            (λ s. joined ∙ both.1 (first.1 s.0, rest.1 s.1)),
          )

      field_iff :
          (path k : Text) (fs : Fields) (o : Option Json)
          → (diff_key std opts (λ q v. diff_field std opts q k fs v) path (lookup k fs) o ≡ [])
            ↔ SameAt fs k o
      field_iff path k empty none = ((λ h. refl), (λ s. refl))
      field_iff path k empty (some p) = ((λ h. absurd (cc h)), (λ s. absurd (cc s)))
      field_iff path k (field j b bs) none = elim (Bool-cases (text_eq k j)) [
        | inl e ↦ rw e ((λ h. absurd (cc h)), (λ s. absurd s))
        | inr e ↦ later_iff path k j b bs none e (field_iff path k bs none)
      ]
      field_iff path k (field j b bs) (some p) = elim (Bool-cases (text_eq k j)) [
        | inl e ↦
            let here = diff_field_here std opts path k j b bs p e in
            let ih = value_iff path b p in rw e ((λ h. ih.0 (sym here ∙ h)), (λ s. here ∙ ih.1 s))
        | inr e ↦ later_iff path k j b bs (some p) e (field_iff path k bs (some p))
      ]

-- Where values are compared, no field is ignored and quoting is injective: diffJSONValues reports
-- nothing on two JSON values exactly if they are the same up to the order of an object's keys.
pub diff_json_values-Same_iff :
    (std : Std) (opts : DiffOptions)
    → opts.compare_values ≡ true
    → opts.ignore_fields ≡ []
    → ((s t : Text) → std.quote s ≡ std.quote t → s ≡ t)
    → (b p : Json) → (diff_json_values std opts (codes "$") b p ≡ []) ↔ Same b p
unfolding diff_json_values should_ignore_field any
diff_json_values-Same_iff std opts values unignored quote_injective b p =
    value_iff std opts (λ path. rw unignored refl) values quote_injective (codes "$") b p
