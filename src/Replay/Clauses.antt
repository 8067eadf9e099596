-- ===== src/Replay/Clauses.antt =====
-- The clauses of diffJSONValues of pkg/replay/diff.go, as equations.
use diverge.Base.{
  ℕ, suc, true, false, List, [], ◌∷◌, ◌++◌, Option, none, some, Text, text_eq, ◌≡◌, refl,
  if◌then◌else◌,
}
use diverge.Replay.Types.{
  Json, Items, Fields, null, boolean, number, string, array, object, nil, item, field, ContractDiff,
  DiffOptions, Std,
}
use diverge.Replay.Json.{
  lookup, sorted_keys, each_key, index_path, should_ignore_field, diff_scalars, count_mismatch,
  diff_key, same_type, diff_items, diff_extra, diff_field, diff_typed,
}

abbrev pub IsScalar : Json → Type 0
IsScalar (array xs) = ⊥
IsScalar (object fs) = ⊥
IsScalar _ = Unit {0}

-- The clauses of the comparison, as equations.
module _ (std : Std) (opts : DiffOptions) where
  pub diff_typed_array :
      (path : Text) (bs ps : Items)
      → diff_typed std opts path (array bs) (array ps)
        ≡ count_mismatch std opts path bs ps
          ++ (diff_items std opts path 0 bs ps ++ diff_extra std opts path bs ps)
  unfolding diff_typed
  diff_typed_array path bs ps = refl

  abbrev pub visit_key : Text → Fields → Fields → Text → List ContractDiff
  visit_key path bs ps k =
      if should_ignore_field std opts (path ++ b'.' ∷ k)
      then []
      else diff_key std opts (λ q v. diff_field std opts q k bs v) (path ++ b'.' ∷ k) (lookup k bs)
          (lookup k ps)

  pub diff_typed_object :
      (path : Text) (bs ps : Fields)
      → diff_typed std opts path (object bs) (object ps)
        ≡ each_key (visit_key path bs ps) (sorted_keys bs ps)
  unfolding diff_typed
  diff_typed_object path bs ps = refl

  pub diff_field_here :
      (path k j : Text) (b : Json) (bs : Fields) (p : Json)
      → text_eq k j ≡ true
      → diff_field std opts path k (field j b bs) p
        ≡ same_type std opts path b p (diff_typed std opts path b p)
  unfolding diff_typed
  diff_field_here path k j b bs p e = rw e

  pub diff_field_later :
      (path k j : Text) (b : Json) (bs : Fields) (p : Json)
      → text_eq k j ≡ false
      → diff_field std opts path k (field j b bs) p ≡ diff_field std opts path k bs p
  unfolding diff_typed
  diff_field_later path k j b bs p e = rw e

  pub diff_items_nil : (path : Text) (i : ℕ) → diff_items std opts path i nil nil ≡ []
  unfolding diff_typed
  diff_items_nil path i = refl

  pub diff_items_item :
      (path : Text) (i : ℕ) (b p : Json) (bs ps : Items)
      → diff_items std opts path i (item b bs) (item p ps)
        ≡ same_type std opts (index_path path i) b p (diff_typed std opts (index_path path i) b p)
          ++ diff_items std opts path (suc i) bs ps
  unfolding diff_typed
  diff_items_item path i b p bs ps = refl

  pub diff_typed_scalar :
      (path : Text) (b p : Json)
      → IsScalar b
      → diff_typed std opts path b p ≡ diff_scalars std opts path b p
  unfolding diff_typed
  diff_typed_scalar path null p s = refl
  diff_typed_scalar path (boolean b) p s = refl
  diff_typed_scalar path (number n) p s = refl
  diff_typed_scalar path (string t) p s = refl
  diff_typed_scalar path (array bs) p s = absurd s
  diff_typed_scalar path (object bs) p s = absurd s

  pub diff_key-none :
      (child : Text → Json → List ContractDiff) (path : Text)
      → diff_key std opts child path none none ≡ []
  unfolding diff_key
  diff_key-none child path = refl

  pub diff_key_ext :
      (child child' : Text → Json → List ContractDiff) (path : Text) (b p : Option Json)
      → ((v : Json) → child path v ≡ child' path v)
      → diff_key std opts child path b p ≡ diff_key std opts child' path b p
  unfolding diff_key
  diff_key_ext child child' path none none h = refl
  diff_key_ext child child' path none (some p) h = refl
  diff_key_ext child child' path (some b) none h = refl
  diff_key_ext child child' path (some b) (some p) h = h p
