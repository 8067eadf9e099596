-- ===== src/Replay/Reflexive.antt =====
-- The comparison of pkg/replay/diff.go finds nothing between a JSON value and itself.
use diverge.Base.{
  ℕ, suc, true, ◌==◌, List, [], ◌∷◌, ◌++◌, some, Text, text_eq, text_eq_refl, ◌≡◌, inl, inr, refl,
  ◌∙◌, arith, Bool-cases, Option-cases,
}
use diverge.Replay.Types.{
  Json, Items, Fields, array, object, nil, item, empty, field, ContractDiff, DiffOptions, Std,
}
use diverge.Replay.Json.{
  describe_json_type, lookup, sorted_keys, count, from, each_extra, index_path, should_ignore_field,
  diff_scalars, count_mismatch, diff_key, same_type, diff_items, diff_extra, diff_field, diff_typed,
  diff_json_values, format_json_scalar,
}
use diverge.Replay.Same.{append_nil_iff, each_key_nil_iff}
use diverge.Replay.Clauses.{
  visit_key, diff_typed_array, diff_typed_object, diff_typed_scalar, diff_field_here,
  diff_field_later, diff_items_nil, diff_items_item,
}

from-count : (xs : Items) → from (count xs) xs ≡ nil
unfolding from count
from-count nil = refl
from-count (item x xs) = from-count xs

module _ (std : Std) (opts : DiffOptions) where
  same_type_self :
      (path : Text) (v : Json) (typed : List ContractDiff)
      → typed ≡ []
      → same_type std opts path v v typed ≡ []
  unfolding same_type
  same_type_self path v typed h = elim (Bool-cases (should_ignore_field std opts path)) [
    | inl e ↦ rw e refl
    | inr e ↦ rw (e, text_eq_refl (describe_json_type v)) h
  ]

  diff_scalars_self : (path : Text) (v : Json) → diff_scalars std opts path v v ≡ []
  unfolding diff_scalars
  diff_scalars_self path v = elim (Bool-cases opts.compare_values) [
    | inl e ↦ rw (text_eq_refl (format_json_scalar std opts v), e) refl
    | inr e ↦ rw e refl
  ]

  count_mismatch_self : (path : Text) (xs : Items) → count_mismatch std opts path xs xs ≡ []
  unfolding count_mismatch
  count_mismatch_self path xs =
      let e : count xs == count xs ≡ true = ground arith in
      elim (Bool-cases opts.compare_values) [ inl v ↦ rw (e, v) refl | inr v ↦ rw v refl ]

  diff_extra_self : (path : Text) (xs : Items) → diff_extra std opts path xs xs ≡ []
  unfolding diff_extra each_extra from
  diff_extra_self path nil = refl
  diff_extra_self path (item x xs) = elim (Bool-cases opts.compare_values) [
    | inl v ↦ rw v refl
    | inr v ↦ rw (v, from-count xs) refl
  ]

  visit_key_self :
      (path k : Text) (fs : Fields)
      → ((p : Json) → lookup k fs ≡ some p → diff_field std opts (path ++ b'.' ∷ k) k fs p ≡ [])
      → visit_key std opts path fs fs k ≡ []
  unfolding diff_key
  visit_key_self path k fs h = elim (Bool-cases (should_ignore_field std opts (path ++ b'.' ∷ k))) [
    | inl e ↦ rw e refl
    | inr e ↦ elim (Option-cases (lookup k fs)) [
      | inl none_at ↦ rw (e, none_at) refl
      | inr (p, at) ↦ rw (e, at) (h p at)
    ]
  ]

  mutual
    unfolding lookup

    value_self :
        (path : Text) (v : Json) → same_type std opts path v v (diff_typed std opts path v v) ≡ []
    value_self path (array xs) =
        let rest : diff_items std opts path 0 xs xs ++ diff_extra std opts path xs xs ≡ [] =
          (append_nil_iff _ _).1 (items_self path 0 xs, diff_extra_self path xs) in
        same_type_self path (array xs) _ (
          diff_typed_array std opts path xs xs
          ∙ (append_nil_iff _ _).1 (count_mismatch_self path xs, rest))
    value_self path (object fs) = same_type_self path (object fs) _ (
        diff_typed_object std opts path fs fs
        ∙ (each_key_nil_iff (visit_key std opts path fs fs) (sorted_keys fs fs)).1
            (λ k i. visit_key_self path k fs (λ p at. field_self (path ++ b'.' ∷ k) k fs p at)))
    value_self path v =
        same_type_self path v _ (diff_typed_scalar std opts path v v tt ∙ diff_scalars_self path v)

    items_self : (path : Text) (i : ℕ) (xs : Items) → diff_items std opts path i xs xs ≡ []
    items_self path i nil = diff_items_nil std opts path i
    items_self path i (item x xs) =
        diff_items_item std opts path i x x xs xs
        ∙ (append_nil_iff _ _).1 (value_self (index_path path i) x, items_self path (suc i) xs)

    field_self :
        (path k : Text) (fs : Fields) (p : Json)
        → lookup k fs ≡ some p
        → diff_field std opts path k fs p ≡ []
    field_self path k empty p at = absurd (cc at)
    field_self path k (field j v fs) p at = elim (Bool-cases (text_eq k j)) [
      | inl e ↦
          let same : some v ≡ some p = rw e at at in
          let here : v ≡ p = cc same in
          rw (← here) (diff_field_here std opts path k j v fs v e ∙ value_self path v)
      | inr e ↦ diff_field_later std opts path k j v fs p e ∙ field_self path k fs p (rw e at at)
    ]

  -- Nothing is reported between a value and itself, whatever the options.
  pub diff_json_values_self : (path : Text) (v : Json) → diff_json_values std opts path v v ≡ []
  unfolding diff_json_values
  diff_json_values_self path v = value_self path v
