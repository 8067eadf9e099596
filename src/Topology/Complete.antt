-- ===== src/Topology/Complete.antt =====
-- AllIngressPaths of pkg/topology/graph.go finds every path, unless it stops at its limit.
use diverge.Base.{
  ℕ, zero, suc, ◌≤◌, ◌<◌, true, false, List, [], ◌∷◌, ◌++◌, append_assoc, append-nil, ◌≡◌, refl,
  sym, ◌∙◌, inl, inr, ◌↔◌, arith, Text, text_eq, text_eq_iff, In, In-append_left, In-append_right,
  In-append_cases, Bool-cases, subst, leb, length, length-append, In-All,
}
use diverge.Base.Distinct.{length-le-of_distinct}
use diverge.Topology.Sets.{has, add, has_iff, In-sort_iff, text_lt}
use diverge.Topology.Graph.{ServiceGraph, neighbors, entrypoint_names}
use diverge.Topology.Invariant.{IsWellFormed}
use diverge.Topology.Neighbors.{neighbors-Connects_iff}
use diverge.Topology.Paths.{
  visited-path_iff, IngressPath, max_ingress_paths, visit_each, dfs, from_entrypoints,
  all_ingress_paths, IsRoute,
}
use diverge.Topology.Ingress.{all_ingress_paths_sound}
use diverge.Topology.Trails.{
  Trail-stops, Trail, Trail-mono, Trail-IsDistinct, Trail-ends, Walk-Trail,
}

-- Nothing found before is lost.
abbrev Grows : List IngressPath → List IngressPath → Type 0
Grows ps qs = ((p : IngressPath) → In p ps → In p qs) × (length ps ≤ length qs)

Grows-refl : (ps : List IngressPath) → Grows ps ps
Grows-refl ps = ((λ p i. i), omega arith)

Grows-trans : (ps qs rs : List IngressPath) → Grows ps qs → Grows qs rs → Grows ps rs
Grows-trans ps qs rs a b = ((λ p i. b.0 p (a.0 p i)), omega (arith, a.1, b.1))

Grows-append : (ps qs : List IngressPath) → Grows ps (ps ++ qs)
Grows-append ps qs = ((λ p i. In-append_left p ps qs i), omega (arith, length-append ps qs))

module _ (visit : Text → List IngressPath → List IngressPath) (visited : List Text)
    (grows : (n : Text) (ps : List IngressPath) → Grows ps (visit n ps)) where
  visit_each-Grows :
      (ns : List Text) (ps : List IngressPath) → Grows ps (visit_each visit visited ns ps)
  unfolding visit_each
  visit_each-Grows [] ps = Grows-refl ps
  visit_each-Grows (n ∷ ns) ps = elim (Bool-cases (has visited n)) [
    | inl old ↦ rw old (visit_each-Grows ns ps)
    | inr new ↦ rw new (Grows-trans ps _ _ (grows n ps) (visit_each-Grows ns (visit n ps)))
  ]

  visit_each_finds :
      (p : IngressPath) (n : Text)
      → has visited n ≡ false
      → ((ps : List IngressPath) → length (visit n ps) < 100 → In p (visit n ps))
      → (ns : List Text) (ps : List IngressPath) → In n ns
      → length (visit_each visit visited ns ps) < 100
      → In p (visit_each visit visited ns ps)
  unfolding visit_each
  visit_each_finds p n new hit [] ps i few = elim i [ ]
  visit_each_finds p n new hit (m ∷ ms) ps (inr i) few = visit_each_finds p n new hit ms _ i few
  visit_each_finds p n new hit (m ∷ ms) ps (inl e) few =
      let new' : has visited m ≡ false = rw (← e) new in
      let more = visit_each-Grows ms (visit n ps) in
      let few' : length (visit_each visit visited ms (visit n ps)) < 100 = rw e (rw new' at few) in
      let found = more.0 p (hit ps (omega (arith, more.1, few'))) in rw new' (rw (← e) found)

on_path :
    (current x : Text) (path : List Text) → In x (path ++ current ∷ []) → In x (current ∷ path)
on_path current x path i = elim (In-append_cases x path (current ∷ []) i) [
  | inl old ↦ inr old
  | inr (inl here) ↦ inl here
  | inr (inr never) ↦ absurd never
]

module _ (g : ServiceGraph) (target ep : Text) where
  dfs-Grows :
      (fuel : ℕ) (current : Text) (path visited : List Text) (ps : List IngressPath)
      → Grows ps (dfs fuel g target ep current path visited ps)
  unfolding dfs
  dfs-Grows zero current path visited ps = Grows-refl ps
  dfs-Grows (suc fuel) current path visited ps =
      let rest =
        visit_each-Grows
          (λ n ps. dfs fuel g target ep n (path ++ current ∷ []) (add current visited) ps)
          (add current visited)
          (λ n ps. dfs-Grows fuel n (path ++ current ∷ []) (add current visited) ps)
          (neighbors g current) ps in
      elim (Bool-cases (leb max_ingress_paths (length ps))) [
        | inl full ↦ rw full (Grows-refl ps)
        | inr more ↦ elim (Bool-cases (text_eq current target)) [
          | inl found ↦ rw (more, found) (Grows-append ps _)
          | inr on ↦ rw (more, on) rest
        ]
      ]

  dfs_finds :
      (fuel : ℕ) (current : Text) (path visited rest : List Text) (ps : List IngressPath)
      → ((x : Text) → In x visited ↔ In x path)
      → Trail g target path current rest
      → length rest < fuel
      → length (dfs fuel g target ep current path visited ps) < 100
      → In
          (record { entrypoint = ep; hops = path ++ current ∷ rest })
          (dfs fuel g target ep current path visited ps)
  unfolding dfs
  dfs_finds zero current path visited rest ps same t deep few = absurd (omega arith)
  dfs_finds (suc fuel) current path visited [] ps same t deep few =
      let found : text_eq current target ≡ true = (text_eq_iff current target).1 t in
      elim (Bool-cases (leb max_ingress_paths (length ps))) [
        | inl full ↦ let few' : length ps < 100 = rw full at few in absurd (ground arith)
        | inr more ↦ rw (more, found) (In-append_right _ ps _ (inl refl))
      ]
  dfs_finds (suc fuel) current path visited (n ∷ rest) ps same (near, fresh, t) deep few =
      let other : text_eq current target ≡ false = elim (Bool-cases (text_eq current target)) [
        | inl e ↦ absurd (
            Trail-ends g target path current n rest (near, fresh, t)
              (inl (sym ((text_eq_iff current target).0 e))))
        | inr e ↦ e
      ] in
      let path' = path ++ current ∷ [] in
      let visited' = add current visited in
      let same' = visited-path_iff current path visited same in
      let unseen : has visited' n ≡ false = elim (Bool-cases (has visited' n)) [
        | inl old ↦
            absurd (fresh (on_path current n path ((same' n).0 ((has_iff visited' n).0 old))))
        | inr new ↦ new
      ] in
      let t' =
        Trail-mono g target (current ∷ path) path' n rest (λ x i. on_path current x path i) t in
      let shape = append_assoc path (current ∷ []) (n ∷ rest) in
      elim (Bool-cases (leb max_ingress_paths (length ps))) [
        | inl full ↦ let few' : length ps < 100 = rw full at few in absurd (ground arith)
        | inr more ↦
            let few' = rw (more, other) at few in
            rw (more, other)
              (visit_each_finds (λ n ps. dfs fuel g target ep n path' visited' ps) visited'
                (λ n ps. dfs-Grows fuel n path' visited' ps) _ n unseen
                (λ ps few.
                  subst
                    (λ hops.
                      In (record { entrypoint = ep; hops = hops })
                        (dfs fuel g target ep n path' visited' ps))
                    shape
                    (dfs_finds fuel n path' visited' rest ps same' t' (omega (arith, deep)) few))
                (neighbors g current) ps near few')
      ]

module _ (fuel : ℕ) (g : ServiceGraph) (target : Text) where
  from_entrypoints-Grows :
      (eps : List Text) (ps : List IngressPath) → Grows ps (from_entrypoints fuel g target eps ps)
  unfolding from_entrypoints
  from_entrypoints-Grows [] ps = Grows-refl ps
  from_entrypoints-Grows (ep ∷ eps) ps =
      let direct =
        from_entrypoints-Grows eps (ps ++ record { entrypoint = ep; hops = ep ∷ [] } ∷ []) in
      let searched = from_entrypoints-Grows eps (dfs fuel g target ep ep [] [] ps) in
      elim (Bool-cases (leb max_ingress_paths (length ps))) [
        | inl full ↦ rw full (Grows-refl ps)
        | inr more ↦ elim (Bool-cases (text_eq ep target)) [
          | inl same ↦ rw (more, same) (Grows-trans ps _ _ (Grows-append ps _) direct)
          | inr other ↦
              rw (more, other)
                (Grows-trans ps _ _ (dfs-Grows g target ep fuel ep [] [] ps) searched)
        ]
      ]

  from_entrypoints_finds :
      (ep : Text) (rest : List Text)
      → Trail g target [] ep rest
      → length rest < fuel
      → (eps : List Text) (ps : List IngressPath) → In ep eps
      → length (from_entrypoints fuel g target eps ps) < 100
      → In (record { entrypoint = ep; hops = ep ∷ rest }) (from_entrypoints fuel g target eps ps)
  unfolding from_entrypoints
  from_entrypoints_finds ep rest t deep [] ps i few = elim i [ ]
  from_entrypoints_finds ep rest t deep (e ∷ eps) ps i few =
      elim (Bool-cases (leb max_ingress_paths (length ps))) [
        | inl full ↦ let few' : length ps < 100 = rw full at few in absurd (ground arith)
        | inr more ↦ elim (Bool-cases (text_eq e target)) [
          | inl same ↦
              let few' = rw (more, same) at few in
              rw (more, same)
                (elim i [
                  | inr later ↦ from_entrypoints_finds ep rest t deep eps _ later few'
                  | inl here ↦
                      let nil =
                        Trail-stops g target [] ep rest (here ∙ (text_eq_iff e target).0 same) t in
                      let eq : record { entrypoint = ep; hops = ep ∷ rest }
                          ≡ record { entrypoint = e; hops = e ∷ [] } =
                        rw (nil, here) in
                      (from_entrypoints-Grows eps _).0 _ (In-append_right _ ps _ (inl eq))
                ])
          | inr other ↦
              let few' = rw (more, other) at few in
              rw (more, other)
                (elim i [
                  | inr later ↦ from_entrypoints_finds ep rest t deep eps _ later few'
                  | inl here ↦
                      let more = from_entrypoints-Grows eps (dfs fuel g target e e [] [] ps) in
                      let t' : Trail g target [] e rest =
                        subst (λ c. Trail g target [] c rest) here t in
                      let found =
                        dfs_finds g target e fuel e [] [] rest ps (λ x. ((λ i. i), (λ i. i))) t'
                          deep (omega (arith, more.1, few')) in
                      rw here (more.0 _ found)
                ])
        ]
      ]

-- In a well-formed graph a trail leads over services only, so it is shorter than their number.
module _ (g : ServiceGraph) (target : Text) (w : IsWellFormed g) where
  Trail-nodes :
      (seen : List Text) (c : Text) (rest : List Text)
      → Trail g target seen c rest
      → (x : Text) → In x rest
      → In x g.nodes
  Trail-nodes seen c [] t x i = elim i [ ]
  Trail-nodes seen c (n ∷ rest) (near, fresh, t) x (inr i) = Trail-nodes (c ∷ seen) n rest t x i
  Trail-nodes seen c (n ∷ rest) (near, fresh, t) x (inl e) =
      let (y, h, _, to) = (neighbors-Connects_iff g w c n).0 near in
      subst (λ z. In z g.nodes) (to ∙ sym e) (w.to_node y h)

  -- In a well-formed graph, unless AllIngressPaths returns 100 paths, it returns exactly the paths
  -- that start at an entrypoint, follow neighbors without meeting a service twice and end at the
  -- target: the bound on the depth of the search cuts nothing off.
  pub all_ingress_paths_iff :
      (p : IngressPath)
      → length (all_ingress_paths g target) < 100
      → In p (all_ingress_paths g target) ↔ IsRoute g target p
  unfolding all_ingress_paths entrypoint_names
  all_ingress_paths_iff p few = (
    (λ i. In-All (IsRoute g target) p _ (all_ingress_paths_sound g target).0 i),
    (λ r.
        let (rest, shape, t) = Walk-Trail g target [] r.1 refl in
        let nodes : (x : Text) → In x (p.entrypoint ∷ rest) → In x g.nodes = λ x i. elim i [
          | inl e ↦ subst (λ z. In z g.nodes) (sym e) (w.entry_node p.entrypoint r.0)
          | inr j ↦ Trail-nodes [] p.entrypoint rest t x j
        ] in
        let short =
          length-le-of_distinct (p.entrypoint ∷ rest) g.nodes
            (Trail-IsDistinct g target [] p.entrypoint rest t) nodes in
        let found =
          from_entrypoints_finds (suc (length g.nodes)) g target p.entrypoint rest t
            (omega (arith, short)) (entrypoint_names g) []
            ((In-sort_iff text_lt p.entrypoint g.entrypoints).1 r.0) few in
        subst
          (λ hops.
            In (record { entrypoint = p.entrypoint; hops = hops }) (all_ingress_paths g target))
          (sym shape ∙ append-nil p.hops) found),
  )
