-- ===== src/Base/Distinct.antt =====
-- Lists without repetition, and how long they can be.
use Prim.Native.Nat.{suc, ◌≤◌}
use mathlib.Core.Path.{◌≡◌, refl, sym, subst, ◌∙◌}
use mathlib.Core.Logic.{◌≢◌, inl, inr}
use mathlib.Core.List.{List, [], ◌∷◌}
use native.Mathlib.Omega.{arith}
use diverge.Base.Lists.{length, In}

module _ {A : Type 0} where
  abbrev pub IsDistinct : List A → Type 0
  IsDistinct [] = Unit {0}
  IsDistinct (x ∷ xs) = (¬ In x xs) × IsDistinct xs

  -- The list without the occurrence that the proof points at.
  without : (x : A) (ys : List A) → In x ys → List A
  without x [] i = elim i [ ]
  without x (y ∷ ys) (inl e) = ys
  without x (y ∷ ys) (inr i) = y ∷ without x ys i

  length-without : (x : A) (ys : List A) (i : In x ys) → suc (length (without x ys i)) ≡ length ys
  unfolding without
  length-without x [] i = elim i [ ]
  length-without x (y ∷ ys) (inl e) = omega arith
  length-without x (y ∷ ys) (inr i) = omega (arith, length-without x ys i)

  In-without : (x z : A) (ys : List A) (i : In x ys) → In z ys → z ≢ x → In z (without x ys i)
  unfolding without
  In-without x z [] i j ne = elim i [ ]
  In-without x z (y ∷ ys) (inl e) (inl f) ne = absurd (ne (f ∙ sym e))
  In-without x z (y ∷ ys) (inl e) (inr j) ne = j
  In-without x z (y ∷ ys) (inr i) (inl f) ne = inl f
  In-without x z (y ∷ ys) (inr i) (inr j) ne = inr (In-without x z ys i j ne)

  -- A list without repetition is no longer than any list that holds its elements.
  pub length-le-of_distinct :
      (xs ys : List A) → IsDistinct xs → ((x : A) → In x xs → In x ys) → length xs ≤ length ys
  length-le-of_distinct [] ys d h = omega arith
  length-le-of_distinct (x ∷ xs) ys d h =
      let i = h x (inl refl) in
      let shorter =
        length-le-of_distinct xs (without x ys i) d.1
          (λ z j. In-without x z ys i (h z (inr j)) (λ e. d.0 (subst (λ w. In w xs) e j))) in
      omega (arith, length-without x ys i, shorter)
