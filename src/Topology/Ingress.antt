-- ===== src/Topology/Ingress.antt =====
-- What AllIngressPaths of pkg/topology/graph.go returns.
use diverge.Base.{
  ℕ, suc, ◌≤◌, List, [], ◌∷◌, inl, inr, arith, Text, text_eq, text_eq_iff, In, Bool-cases, leb,
  length, All, All-append, All-intro, subst,
}
use diverge.Topology.Sets.{text_lt, In-sort_iff}
use diverge.Topology.Graph.{ServiceGraph, entrypoint_names}
use diverge.Topology.Paths.{
  IngressPath, max_ingress_paths, from_entrypoints, all_ingress_paths, Walk, start, IsRoute, dfs,
  dfs-Routes, dfs-bound, one_more,
}

module _ (fuel : ℕ) (g : ServiceGraph) (target : Text) where
  from_entrypoints-Routes :
      (eps : List Text) (ps : List IngressPath)
      → All (λ ep. In ep g.entrypoints) eps
      → All (IsRoute g target) ps
      → All (IsRoute g target) (from_entrypoints fuel g target eps ps)
  unfolding from_entrypoints
  from_entrypoints-Routes [] ps entries good = good
  from_entrypoints-Routes (ep ∷ eps) ps entries good =
      let searched = from_entrypoints-Routes eps (dfs fuel g target ep ep [] [] ps) entries.1 (
        dfs-Routes g target ep entries.0 fuel ep [] [] ps start (λ x. ((λ i. i), (λ i. i))) good) in
      elim (Bool-cases (leb max_ingress_paths (length ps))) [
        | inl full ↦ rw full good
        | inr more ↦ elim (Bool-cases (text_eq ep target)) [
          | inl same ↦
              rw (more, same)
                (from_entrypoints-Routes eps _ entries.1 (
                  All-append (IsRoute g target) ps _ good (
                    (
                      entries.0,
                      subst (λ t. Walk g ep (ep ∷ []) t) ((text_eq_iff ep target).0 same) start,
                    ),
                    tt,
                  )))
          | inr other ↦ rw (more, other) searched
        ]
      ]

  from_entrypoints-bound :
      (eps : List Text) (ps : List IngressPath)
      → length ps ≤ 100
      → length (from_entrypoints fuel g target eps ps) ≤ 100
  unfolding from_entrypoints
  from_entrypoints-bound [] ps fits = fits
  from_entrypoints-bound (ep ∷ eps) ps fits =
      let searched =
        from_entrypoints-bound eps (dfs fuel g target ep ep [] [] ps)
          (dfs-bound g target ep fuel ep [] [] ps fits) in
      elim (Bool-cases (leb max_ingress_paths (length ps))) [
        | inl full ↦ rw full fits
        | inr more ↦ elim (Bool-cases (text_eq ep target)) [
          | inl same ↦ rw (more, same) (from_entrypoints-bound eps _ (one_more ps _ more))
          | inr other ↦ rw (more, other) searched
        ]
      ]

-- Every path of AllIngressPaths starts at an entrypoint of the graph, follows its neighbors without
-- meeting a service twice and ends at the target; there are at most 100.
pub all_ingress_paths_sound :
    (g : ServiceGraph) (target : Text)
    → All (IsRoute g target) (all_ingress_paths g target)
      × (length (all_ingress_paths g target) ≤ 100)
unfolding all_ingress_paths entrypoint_names
all_ingress_paths_sound g target =
    let entries =
      All-intro (λ ep. In ep g.entrypoints) (entrypoint_names g)
        (λ ep i. (In-sort_iff text_lt ep g.entrypoints).0 i) in
    (
      from_entrypoints-Routes (suc (length g.nodes)) g target (entrypoint_names g) [] entries tt,
      from_entrypoints-bound (suc (length g.nodes)) g target (entrypoint_names g) [] (ground arith),
    )
