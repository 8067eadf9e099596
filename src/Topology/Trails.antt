-- ===== src/Topology/Trails.antt =====
-- The walks that AllIngressPaths of pkg/topology/graph.go looks for, as trails from the current
-- service.
use diverge.Base.{
  List, [], ◌∷◌, ◌++◌, append_assoc, ◌≡◌, refl, sym, ap, ◌∙◌, inl, inr, Text, In, In-append_left,
  In-append_right, subst,
}
use diverge.Base.Distinct.{IsDistinct}
use diverge.Topology.Graph.{ServiceGraph, neighbors}
use diverge.Topology.Paths.{Walk, start, step}

-- The rest of a walk to the target that leaves `c`, having seen other services before it.
abbrev pub Trail : ServiceGraph → Text → List Text → Text → List Text → Type 0
Trail g target seen c [] = c ≡ target
Trail g target seen c (n ∷ rest) =
    In n (neighbors g c) × (¬ In n (c ∷ seen)) × Trail g target (c ∷ seen) n rest

module _ (g : ServiceGraph) (target : Text) where
  pub Trail-mono :
      (seen seen' : List Text) (c : Text) (rest : List Text)
      → ((x : Text) → In x seen' → In x seen)
      → Trail g target seen c rest
      → Trail g target seen' c rest
  Trail-mono seen seen' c [] h t = t
  Trail-mono seen seen' c (n ∷ rest) h (near, fresh, t) =
      let wider : (x : Text) → In x (c ∷ seen') → In x (c ∷ seen) =
        λ x i. elim i [ inl e ↦ inl e | inr j ↦ inr (h x j) ] in
      (near, (λ i. fresh (wider n i)), Trail-mono (c ∷ seen) (c ∷ seen') n rest wider t)

  Trail-fresh :
      (seen : List Text) (c : Text) (rest : List Text) (x : Text)
      → Trail g target seen c rest
      → In x rest
      → ¬ In x (c ∷ seen)
  Trail-fresh seen c [] x t i = elim i [ ]
  Trail-fresh seen c (n ∷ rest) x (near, fresh, t) (inl e) =
      λ i. fresh (subst (λ y. In y (c ∷ seen)) e i)
  Trail-fresh seen c (n ∷ rest) x (near, fresh, t) (inr j) =
      λ i. Trail-fresh (c ∷ seen) n rest x t j (inr i)

  pub Trail-IsDistinct :
      (seen : List Text) (c : Text) (rest : List Text)
      → Trail g target seen c rest
      → IsDistinct (c ∷ rest)
  Trail-IsDistinct seen c [] t = ((λ i. i), tt)
  Trail-IsDistinct seen c (n ∷ rest) t = (
    (λ i. Trail-fresh seen c (n ∷ rest) c t i (inl refl)),
    Trail-IsDistinct (c ∷ seen) n rest t.2,
  )

  -- A trail that goes on ends at a service that was not met before.
  pub Trail-ends :
      (seen : List Text) (c n : Text) (rest : List Text)
      → Trail g target seen c (n ∷ rest)
      → ¬ In target (c ∷ seen)
  Trail-ends seen c n [] (near, fresh, t) = λ i. fresh (subst (λ y. In y (c ∷ seen)) (sym t) i)
  Trail-ends seen c n (m ∷ rest) (near, fresh, t) = λ i. Trail-ends (c ∷ seen) n m rest t (inr i)

  -- A trail from the target goes nowhere.
  pub Trail-stops :
      (seen : List Text) (c : Text) (rest : List Text)
      → c ≡ target
      → Trail g target seen c rest
      → rest ≡ []
  Trail-stops seen c [] at t = refl
  Trail-stops seen c (n ∷ rest) at t = absurd (Trail-ends seen c n rest t (inl (sym at)))

  Walk-end : {a b : Text} {hops : List Text} → Walk g a hops b → In b hops
  Walk-end start = inl refl
  Walk-end (step {hops} {hops'} {b} c w near fresh e) =
      subst (In c) (sym e) (In-append_right c hops (c ∷ []) (inl refl))

  -- A walk that a trail goes on is a trail from its start.
  pub Walk-Trail :
      {a b : Text} {hops : List Text} (rest : List Text)
      → Walk g a hops b
      → Trail g target hops b rest
      → (rest' : List Text) × (hops ++ rest ≡ a ∷ rest') × Trail g target [] a rest'
  Walk-Trail {a} rest start t = (rest, refl, Trail-mono (a ∷ []) [] a rest (λ x i. absurd i) t)
  Walk-Trail {a} rest (step {hops} {hops'} {b} c w near fresh e) t =
      let at_end = Walk-end w in
      let new : ¬ In c (b ∷ hops) = λ i. elim i [
        | inl same ↦ fresh (subst (λ y. In y hops) (sym same) at_end)
        | inr j ↦ fresh j
      ] in
      let less : (x : Text) → In x (b ∷ hops) → In x hops' = λ x i. subst (In x) (sym e) (
        In-append_left x hops (c ∷ [])
          (elim i [ inl same ↦ subst (λ y. In y hops) (sym same) at_end | inr j ↦ j ])) in
      let (rest', eq, t') =
        Walk-Trail (c ∷ rest) w (near, new, Trail-mono hops' (b ∷ hops) c rest less t) in
      (rest', ap (λ l. l ++ rest) e ∙ (append_assoc hops (c ∷ []) rest ∙ eq), t')
