-- ===== src/Base/Maps.antt =====
-- A Go map keyed by strings, as a function from keys. A map that the program ranges over is a list of
-- entries instead, in the component that does so.
use mathlib.Core.Path.{◌≡◌}
use mathlib.Core.Logic.{◌≢◌}
use mathlib.Core.Option.{Option, none, some}
use diverge.Base.Tests.{if◌then◌else◌}
use diverge.Base.Bytes.{Text, text_eq, text_eq_refl, text_ne}

abbrev pub Map : Type 0 → Type 0
Map V = Text → Option V

module _ {V : Type 0} where
  -- `make(map[string]V)`
  abbrev pub empty_map : Map V
  empty_map k = none

  -- `m[k] = v`
  unfoldable pub put : Text → V → Map V → Map V
  put k v m j = if text_eq j k then some v else m j

  -- `delete(m, k)`
  unfoldable pub delete : Text → Map V → Map V
  delete k m j = if text_eq j k then none else m j

  pub get-put_self : (k : Text) (v : V) (m : Map V) → put k v m k ≡ some v
  unfolding put
  get-put_self k v m = rw (text_eq_refl k)

  pub get-put_ne : (k j : Text) (v : V) (m : Map V) → j ≢ k → put k v m j ≡ m j
  unfolding put
  get-put_ne k j v m h = rw (text_ne j k h)

  pub get-delete_self : (k : Text) (m : Map V) → delete k m k ≡ none
  unfolding delete
  get-delete_self k m = rw (text_eq_refl k)

  pub get-delete_ne : (k j : Text) (m : Map V) → j ≢ k → delete k m j ≡ m j
  unfolding delete
  get-delete_ne k j m h = rw (text_ne j k h)
