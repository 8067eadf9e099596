-- ===== src/Topology/Sets.antt =====
-- Sets of strings (`map[string]bool`) as lists in the order of the range loop, and package sort.
use diverge.Base.{
  Bool, true, false, ◌&&◌, ◌||◌, List, [], ◌∷◌, ◌++◌, ◌≡◌, sym, ◌⊎◌, inl, inr, ◌↔◌, Text, text_eq,
  text_eq_iff, text_eq_refl, if◌then◌else◌, ltb, ◌==◌, any, In, any_sound, any_complete, Bool-cases,
  subst, In-append_left, In-append_right, In-append_cases,
}

-- `set[x]`
unfoldable pub has : List Text → Text → Bool
has set x = any (text_eq x) set

-- `set[x] = true`
unfoldable pub add : Text → List Text → List Text
add x set = if has set x then set else set ++ x ∷ []

pub has_iff : (set : List Text) (x : Text) → (has set x ≡ true) ↔ In x set
unfolding has
has_iff set x = (
  (λ h.
      let (y, i, e) = any_sound (text_eq x) set h in
      subst (λ z. In z set) (sym ((text_eq_iff x y).0 e)) i),
  (λ i. any_complete (text_eq x) x set i (text_eq_refl x)),
)

pub In-add_iff : (x y : Text) (set : List Text) → In y (add x set) ↔ (In y set ⊎ (y ≡ x))
unfolding add
In-add_iff x y set = elim (Bool-cases (has set x)) [
  | inl e ↦ rw e (
    (λ i. inl i),
    (λ h. elim h [ inl i ↦ i | inr same ↦ subst (λ z. In z set) (sym same) ((has_iff set x).0 e) ]),
  )
  | inr e ↦ rw e (
    (λ i. elim (In-append_cases y set (x ∷ []) i) [
      | inl j ↦ inl j
      | inr (inl same) ↦ inr same
      | inr (inr never) ↦ absurd never
    ]),
    (λ h. elim h [
      | inl i ↦ In-append_left y set (x ∷ []) i
      | inr same ↦ In-append_right y set (x ∷ []) (inl same)
    ]),
  )
]

-- `a < b` on strings: by bytes.
unfoldable pub text_lt : Text → Text → Bool
text_lt [] [] = false
text_lt [] (d ∷ t) = true
text_lt (c ∷ s) [] = false
text_lt (c ∷ s) (d ∷ t) = ltb c d || (c == d && text_lt s t)

module _ {A : Type 0} (less : A → A → Bool) where
  unfoldable pub insert : A → List A → List A
  insert x [] = x ∷ []
  insert x (y ∷ ys) = let rest = insert x ys in if less y x then y ∷ rest else x ∷ y ∷ ys

  -- sort.Slice and sort.Strings, as an insertion sort. On strings any sort has this result; where
  -- two edges have equal ends sort.Slice may leave them in another order.
  unfoldable pub sort : List A → List A
  unfolding insert
  sort [] = []
  sort (x ∷ xs) = insert x (sort xs)

  pub In-insert_iff : (a x : A) (ys : List A) → In a (insert x ys) ↔ ((a ≡ x) ⊎ In a ys)
  unfolding insert
  In-insert_iff a x [] = ((λ i. i), (λ i. i))
  In-insert_iff a x (y ∷ ys) = elim (Bool-cases (less y x)) [
    | inl e ↦
        let ih = In-insert_iff a x ys in
        rw e (
          (λ i. elim i [
            | inl same ↦ inr (inl same)
            | inr j ↦ elim (ih.0 j) [ inl same ↦ inl same | inr k ↦ inr (inr k) ]
          ]),
          (λ i. elim i [
            | inl same ↦ inr (ih.1 (inl same))
            | inr (inl same) ↦ inl same
            | inr (inr k) ↦ inr (ih.1 (inr k))
          ]),
        )
    | inr e ↦ rw e ((λ i. i), (λ i. i))
  ]

  pub In-sort_iff : (a : A) (xs : List A) → In a (sort xs) ↔ In a xs
  unfolding sort
  In-sort_iff a [] = ((λ i. i), (λ i. i))
  In-sort_iff a (x ∷ xs) =
      let here = In-insert_iff a x (sort xs) in
      let rest = In-sort_iff a xs in
      (
        (λ i. elim (here.0 i) [ inl same ↦ inl same | inr j ↦ inr (rest.0 j) ]),
        (λ i. here.1 (elim i [ inl same ↦ inl same | inr j ↦ inr (rest.1 j) ])),
      )
