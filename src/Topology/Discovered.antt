-- ===== src/Topology/Discovered.antt =====
-- What the discoverers of pkg/topology find.
use diverge.Base.{
  List, [], ◌∷◌, ◌++◌, ◌≡◌, refl, sym, inl, inr, ◌⊎◌, ◌↔◌, Text, In, subst, ok, err, Result-cases,
  All,
}
use diverge.Topology.Graph.{ServiceGraph, new_service_graph, merge}
use diverge.Topology.Invariant.{IsWellFormed, new_service_graph-IsWellFormed}
use diverge.Topology.Preserved.{}
use diverge.Topology.Union.{
  Connects, NamesFit, merge-IsWellFormed, NamesFit-merge, Connects-merge_iff,
}
use diverge.Topology.Discover.{GraphDiscoverer, discover_each, composite_discover}

-- A well-formed graph with names that an edge key can hold.
abbrev pub IsSound : ServiceGraph → Type 0
IsSound g = IsWellFormed g × NamesFit g

-- Some discoverer answers with a graph that connects the two services.
abbrev pub Finds : List Text → Text → Text → GraphDiscoverer → Type 0
Finds namespaces a b d = (g : ServiceGraph) × (d.discover namespaces ≡ ok g) × Connects g a b

abbrev pub AnyFinds : List Text → Text → Text → List GraphDiscoverer → Type 0
AnyFinds namespaces a b ds = (d : GraphDiscoverer) × In d ds × Finds namespaces a b d

-- What a discoverer answers is sound.
abbrev pub AnswersSoundly : List Text → GraphDiscoverer → Type 0
AnswersSoundly namespaces d = (g : ServiceGraph) → d.discover namespaces ≡ ok g → IsSound g

empty-IsSound : IsSound new_service_graph
empty-IsSound = (new_service_graph-IsWellFormed, (λ x h. absurd h))

module _ (namespaces : List Text) where
  abbrev Each : List GraphDiscoverer → List Text → ServiceGraph → Text → Text → Type 0
  Each ds sources combined a b =
      Connects (discover_each ds namespaces sources combined).1 a b
      ↔ (Connects combined a b ⊎ AnyFinds namespaces a b ds)

  module _ (d : GraphDiscoverer) (ds : List GraphDiscoverer) (sources : List Text)
      (combined : ServiceGraph) where
    discover_each_failed :
        (e : Text)
        → d.discover namespaces ≡ err e
        → discover_each (d ∷ ds) namespaces sources combined
          ≡ discover_each ds namespaces sources combined
    unfolding discover_each
    discover_each_failed e q = rw (q, discover_each)

    discover_each_found :
        (g : ServiceGraph)
        → d.discover namespaces ≡ ok g
        → discover_each (d ∷ ds) namespaces sources combined
          ≡ discover_each ds namespaces (sources ++ d.name ∷ []) (merge combined g)
    unfolding discover_each
    discover_each_found g q = rw (q, discover_each)

    -- Whether the first discoverer contributes decides the case of a later one.
    AnyFinds-iff :
        (a b : Text)
        → AnyFinds namespaces a b (d ∷ ds) ↔ (Finds namespaces a b d ⊎ AnyFinds namespaces a b ds)
    AnyFinds-iff a b = (
      (λ h.
          let (x, i, f) = h in
          elim i [
            | inl same ↦ inl (subst (Finds namespaces a b) same f)
            | inr later ↦ inr (x, later, f)
          ]),
      (λ h. elim h [ inl f ↦ (d, inl refl, f) | inr (x, i, f) ↦ (x, inr i, f) ]),
    )

  discover_each-Connects :
      (ds : List GraphDiscoverer) (sources : List Text) (combined : ServiceGraph)
      → All (AnswersSoundly namespaces) ds
      → IsSound combined
      → IsSound (discover_each ds namespaces sources combined).1
        × ((a b : Text) → Each ds sources combined a b)
  unfolding discover_each
  discover_each-Connects [] sources combined sound s =
      (s, (λ a b. ((λ c. inl c), (λ c. elim c [ inl old ↦ old | inr (d, i, _) ↦ elim i [ ] ]))))
  discover_each-Connects (d ∷ ds) sources combined sound s =
      elim (Result-cases (d.discover namespaces)) [
        | inr (e, failed) ↦
            let (still, each) = discover_each-Connects ds sources combined sound.1 s in
            rw (discover_each_failed d ds sources combined e failed) (
              still,
              (λ a b.
                  let first = AnyFinds-iff d ds sources combined a b in
                  (
                    (λ c. elim ((each a b).0 c) [
                      | inl old ↦ inl old
                      | inr f ↦ inr (first.1 (inr f))
                    ]),
                    (λ c. (each a b).1 (elim c [
                      | inl old ↦ inl old
                      | inr f ↦ elim (first.0 f) [
                        | inl (g, found, _) ↦ absurd (cc (failed, found))
                        | inr later ↦ inr later
                      ]
                    ])),
                  )),
            )
        | inl (g, found) ↦
            let sg = sound.0 g found in
            let joined : IsSound (merge combined g) = (
              merge-IsWellFormed combined g s.0 sg.0,
              NamesFit-merge combined g s.0 sg.0 s.1 sg.1,
            ) in
            let (still, each) =
              discover_each-Connects ds (sources ++ d.name ∷ []) (merge combined g) sound.1
                joined in
            rw (discover_each_found d ds sources combined g found) (
              still,
              (λ a b.
                  let first = AnyFinds-iff d ds sources combined a b in
                  let union = Connects-merge_iff combined g s.0 sg.0 s.1 sg.1 a b in
                  (
                    (λ c. elim ((each a b).0 c) [
                      | inr f ↦ inr (first.1 (inr f))
                      | inl m ↦ elim (union.0 m) [
                        | inl old ↦ inl old
                        | inr c ↦ inr (first.1 (inl (g, found, c)))
                      ]
                    ]),
                    (λ c. (each a b).1 (elim c [
                      | inl old ↦ inl (union.1 (inl old))
                      | inr f ↦ elim (first.0 f) [
                        | inr later ↦ inr later
                        | inl (h, found', c) ↦
                            let same : g ≡ h = cc (found, found') in
                            inl (union.1 (inr (subst (λ k. Connects k a b) (sym same) c)))
                      ]
                    ])),
                  )),
            )
      ]

  -- If what the discoverers answer is well-formed and has no '>' in the names that edges start at,
  -- then so is the graph of CompositeDiscoverer.Discover, and it connects two services exactly if
  -- the answer of some discoverer does; a discoverer that fails is passed over.
  pub composite_discover-Connects_iff :
      (ds : List GraphDiscoverer)
      → All (AnswersSoundly namespaces) ds
      → IsSound (composite_discover ds namespaces).1
        × ((a b : Text)
            → Connects (composite_discover ds namespaces).1 a b ↔ AnyFinds namespaces a b ds)
  unfolding composite_discover
  composite_discover-Connects_iff ds sound =
      let (still, each) = discover_each-Connects ds [] new_service_graph sound empty-IsSound in
      (
        still,
        (λ a b. (
          (λ c. elim ((each a b).0 c) [ inl (x, h, _, _) ↦ elim h [ ] | inr f ↦ f ]),
          (λ f. (each a b).1 (inr f)),
        )),
      )
