-- ===== src/Replay/Json.antt =====
-- The comparison of JSON values in pkg/replay/diff.go.
use diverge.Base.{
  ℕ, zero, suc, Bool, true, false, not, ◌&&◌, ◌||◌, ◌==◌, List, [], ◌∷◌, ◌++◌, Option, none, some,
  Text, codes, text_eq, is_empty, if◌then◌else◌, leb, any, length, take,
}
use diverge.Base.Decimal.{format_uint}
use diverge.Topology.Sets.{add, text_lt, sort}
use diverge.Replay.Types.{
  Json, Items, Fields, null, boolean, number, string, array, object, nil, item, empty, field,
  ContractDiff, DiffOptions, Std,
}
use diverge.Replay.Media.{has_suffix}

-- `s[:maxLen] + "..."`
unfoldable pub truncate_sample : Text → ℕ → Text
truncate_sample s max_len = if leb (length s) max_len then s else take max_len s ++ codes "..."

unfoldable pub describe_json_type : Json → Text
describe_json_type null = codes "null"
describe_json_type (object fs) = codes "object"
describe_json_type (array xs) = codes "array"
describe_json_type (string s) = codes "string"
describe_json_type (number n) = codes "number"
describe_json_type (boolean b) = codes "boolean"

-- `bTyped[k]`
unfoldable pub lookup : Text → Fields → Option Json
lookup k empty = none
lookup k (field j v fs) = let rest = lookup k fs in if text_eq k j then some v else rest

-- The keys of two maps, each once and sorted.
unfoldable pub add_keys : Fields → List Text → List Text
add_keys empty keys = keys
add_keys (field k v fs) keys = add_keys fs (add k keys)

unfoldable pub sorted_keys : Fields → Fields → List Text
unfolding add_keys
sorted_keys bs ps = sort text_lt (add_keys ps (add_keys bs []))

-- `len(bTyped)`
unfoldable pub count : Items → ℕ
count nil = 0
count (item x xs) = suc (count xs)

unfoldable pub from : ℕ → Items → Items
from zero xs = xs
from (suc n) nil = nil
from (suc n) (item x xs) = from n xs

-- `fmt.Sprintf("%s[%d]", path, i)`
unfoldable pub index_path : Text → ℕ → Text
index_path path i = path ++ b'[' ∷ format_uint i ++ b']' ∷ []

abbrev pub breaking_diff : Text → Text → Text → Text → ContractDiff
breaking_diff path kind baseline preview = record {
  path = path;
  kind = kind;
  baseline = baseline;
  preview = preview;
  breaking = true;
}

-- The loop over the keys of two objects.
unfoldable pub each_key : (Text → List ContractDiff) → List Text → List ContractDiff
each_key visit [] = []
each_key visit (k ∷ ks) = visit k ++ each_key visit ks

-- The loop over elements of the preview that the baseline has no counterpart for, from index `i`.
unfoldable pub each_extra : (Text → Json → List ContractDiff) → Text → ℕ → Items → List ContractDiff
unfolding index_path
each_extra visit path i nil = []
each_extra visit path i (item p ps) =
    visit (index_path path i) p ++ each_extra visit path (suc i) ps

module _ (std : Std) (opts : DiffOptions) where
  open std use {trim_space, quote}
  open opts use {compare_values, fail_on_extra_fields, ignore_fields}

  unfoldable pub should_ignore_field : Text → Bool
  unfolding has_suffix
  should_ignore_field path =
      any
        (λ raw_ignore.
          let ig = trim_space raw_ignore in
          not (is_empty ig) && (text_eq path ig || has_suffix path (b'.' ∷ ig)))
        ignore_fields

  unfoldable pub format_json_scalar : Json → Text
  format_json_scalar null = codes "null"
  format_json_scalar (string s) = quote s
  format_json_scalar (number n) = n
  format_json_scalar (boolean true) = codes "true"
  format_json_scalar (boolean false) = codes "false"
  format_json_scalar (array xs) = []
  format_json_scalar (object fs) = []

  -- The default case: two scalars of one type.
  unfoldable pub diff_scalars : Text → Json → Json → List ContractDiff
  unfolding format_json_scalar truncate_sample
  diff_scalars path b p =
      let b_str = format_json_scalar b in
      let p_str = format_json_scalar p in
      if compare_values && not (text_eq b_str p_str)
      then breaking_diff path (codes "value_mismatch") (truncate_sample b_str 80)
          (truncate_sample p_str 80)
        ∷ []
      else []

  unfoldable pub type_mismatch : Text → Json → Json → List ContractDiff
  unfolding describe_json_type
  type_mismatch path b p =
      breaking_diff path (codes "type_mismatch") (describe_json_type b) (describe_json_type p) ∷ []

  unfoldable pub count_mismatch : Text → Items → Items → List ContractDiff
  unfolding count
  count_mismatch path bs ps =
      if compare_values && not (count bs == count ps)
      then breaking_diff path (codes "count_mismatch") (codes "len=" ++ format_uint (count bs))
          (codes "len=" ++ format_uint (count ps))
        ∷ []
      else []

  -- One key of two objects, where `child` compares the values that both have.
  unfoldable pub diff_key :
      (Text → Json → List ContractDiff) → Text → Option Json → Option Json → List ContractDiff
  unfolding describe_json_type
  diff_key child path (some b) none =
      breaking_diff path (codes "missing_field") (describe_json_type b) (codes "absent") ∷ []
  diff_key child path none (some p) =
      record {
        path = path;
        kind = codes "extra_field";
        baseline = codes "absent";
        preview = describe_json_type p;
        breaking = fail_on_extra_fields;
      }
      ∷ []
  diff_key child path (some b) (some p) = child path p
  diff_key child path none none = []

  -- The first steps of diffJSONValues, where `typed` is what the switch on the type appends.
  unfoldable pub same_type : Text → Json → Json → List ContractDiff → List ContractDiff
  unfolding should_ignore_field describe_json_type type_mismatch
  same_type path b p typed =
      if should_ignore_field path
      then []
      else if not (text_eq (describe_json_type b) (describe_json_type p))
      then type_mismatch path b p
      else typed

  unfoldable mutual
    unfolding diff_scalars same_type count_mismatch diff_key each_key each_extra lookup sorted_keys
        index_path should_ignore_field count from

    -- Two values of one type.
    pub diff_typed : Text → Json → Json → List ContractDiff
    diff_typed path (object bs) (object ps) =
        each_key
          (λ k.
            let child_path = path ++ b'.' ∷ k in
            if should_ignore_field child_path
            then []
            else diff_key (λ q v. diff_field q k bs v) child_path (lookup k bs) (lookup k ps))
          (sorted_keys bs ps)
    diff_typed path (array bs) (array ps) =
        count_mismatch path bs ps ++ (diff_items path 0 bs ps ++ diff_extra path bs ps)
    diff_typed path b p = diff_scalars path b p

    -- `diffJSONValues(path, bTyped[k], …)`
    pub diff_field : Text → Text → Fields → Json → List ContractDiff
    diff_field path k empty p = []
    diff_field path k (field j b bs) p =
        let here = same_type path b p (diff_typed path b p) in
        let later = diff_field path k bs p in if text_eq k j then here else later

    -- The elements that both arrays have, from index `i`.
    pub diff_items : Text → ℕ → Items → Items → List ContractDiff
    diff_items path i nil ps = []
    diff_items path i (item b bs) nil = []
    diff_items path i (item b bs) (item p ps) =
        let q = index_path path i in
        same_type q b p (diff_typed q b p) ++ diff_items path (suc i) bs ps

    -- The further elements of the preview, against the first of the baseline.
    pub diff_extra : Text → Items → Items → List ContractDiff
    diff_extra path nil ps = []
    diff_extra path (item b bs) ps =
        let n = suc (count bs) in
        let extra = each_extra (λ q p. same_type q b p (diff_typed q b p)) path n (from n ps) in
        if compare_values then [] else extra

  unfoldable pub diff_json_values : Text → Json → Json → List ContractDiff
  unfolding same_type diff_typed
  diff_json_values path b p = same_type path b p (diff_typed path b p)
