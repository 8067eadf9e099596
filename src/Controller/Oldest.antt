-- ===== src/Controller/Oldest.antt =====
-- The order of the candidates for hibernation: sort.Slice in internal/controller/environment_quota.go.
use diverge.Base.{
  ◌≤◌, Bool, true, false, List, [], ◌∷◌, ◌++◌, Text, ◌≡◌, refl, sym, subst, inl, inr, arith, In,
  All, All-append_right, In-All, All-intro, Bool-cases,
}
use diverge.Topology.Sets.{text_lt, insert, sort, In-insert_iff}
use diverge.Controller.Types.{Environment, Cluster}
use diverge.Controller.Limits.{environment_lru_timestamp, is_older}

text_lt-asym : (a b : Text) → text_lt a b ≡ true → text_lt b a ≡ false
unfolding text_lt
text_lt-asym [] [] h = refl
text_lt-asym [] (d ∷ t) h = refl
text_lt-asym (c ∷ s) [] h = absurd (cc h)
text_lt-asym (c ∷ s) (d ∷ t) h = ground (arith, text_lt-asym s t)

text_lt-negtrans : (a b c : Text) → text_lt a b ≡ false → text_lt b c ≡ false → text_lt a c ≡ false
unfolding text_lt
text_lt-negtrans [] [] c h k = k
text_lt-negtrans [] (y ∷ b) c h k = absurd (cc h)
text_lt-negtrans (x ∷ a) b [] h k = refl
text_lt-negtrans (x ∷ a) [] (z ∷ c) h k = absurd (cc k)
text_lt-negtrans (x ∷ a) (y ∷ b) (z ∷ c) h k = ground (arith, text_lt-negtrans a b c)

-- No later element is before an earlier one.
module _ {A : Type 0} (less : A → A → Bool) where
  abbrev pub IsSorted : List A → Type 0
  IsSorted [] = Unit {0}
  IsSorted (x ∷ xs) = All (λ y. less y x ≡ false) xs × IsSorted xs

  module _ (asym : (a b : A) → less a b ≡ true → less b a ≡ false)
      (negtrans : (a b c : A) → less a b ≡ false → less b c ≡ false → less a c ≡ false) where
    insert-IsSorted : (x : A) (ys : List A) → IsSorted ys → IsSorted (insert less x ys)
    unfolding insert
    insert-IsSorted x [] s = (tt, tt)
    insert-IsSorted x (y ∷ ys) (first, s) = elim (Bool-cases (less y x)) [
      | inl e ↦ rw e (
        All-intro _ (insert less x ys) (λ z i. elim ((In-insert_iff less z x ys).0 i) [
          | inl here ↦ subst (λ w. less w y ≡ false) (sym here) (asym y x e)
          | inr later ↦ In-All _ z ys first later
        ]),
        insert-IsSorted x ys s,
      )
      | inr e ↦
          rw e ((e, All-intro _ ys (λ z i. negtrans z y x (In-All _ z ys first i) e)), (first, s))
    ]

    pub sort-IsSorted : (xs : List A) → IsSorted (sort less xs)
    unfolding sort
    sort-IsSorted [] = tt
    sort-IsSorted (x ∷ xs) = insert-IsSorted x (sort less xs) (sort-IsSorted xs)

  pub IsSorted-split :
      (xs ys : List A) (x y : A) → IsSorted (xs ++ ys) → In x xs → In y ys → less y x ≡ false
  IsSorted-split [] ys x y s i j = elim i [ ]
  IsSorted-split (a ∷ xs) ys x y s (inl e) j =
      subst (λ w. less y w ≡ false) (sym e) (In-All _ y ys (All-append_right _ xs ys s.0) j)
  IsSorted-split (a ∷ xs) ys x y s (inr i) j = IsSorted-split xs ys x y s.1 i j

module _ {F : Type 0} (cluster : Cluster F) where
  pub is_older-asym :
      (a b : Environment) → is_older cluster a b ≡ true → is_older cluster b a ≡ false
  unfolding is_older
  is_older-asym a b h = ground (arith, text_lt-asym a.name b.name)

  pub is_older-negtrans :
      (a b c : Environment)
      → is_older cluster a b ≡ false
      → is_older cluster b c ≡ false
      → is_older cluster a c ≡ false
  unfolding is_older
  is_older-negtrans a b c h k = ground (arith, text_lt-negtrans a.name b.name c.name)

  pub is_older-lru :
      (a b : Environment)
      → is_older cluster a b ≡ false
      → environment_lru_timestamp cluster b ≤ environment_lru_timestamp cluster a
  unfolding is_older
  is_older-lru a b h = ground arith
