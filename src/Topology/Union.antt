-- ===== src/Topology/Union.antt =====
-- Merge of pkg/topology/graph.go is a union that prefers the first graph.
use diverge.Base.{List, [], ◌≡◌, sym, ◌∙◌, ap, ◌⊎◌, inl, inr, ◌↔◌, Text, Lacks, In, subst}
use diverge.Topology.Sets.{text_lt, In-sort_iff}
use diverge.Topology.Graph.{
  Edge, ServiceGraph, new_service_graph, add_nodes, add_entrypoints, merge_edges, merge, edge_key,
  range_edges, all_edges, services,
}
use diverge.Topology.Invariant.{Holds, IsWellFormed, new_service_graph-IsWellFormed}
use diverge.Topology.Preserved.{}
use diverge.Topology.Keys.{
  range-Holds_iff, all_edges-Holds_iff, edge_key-injective, edge_key_of_ends, tombstone_keys-nil,
}
use diverge.Topology.Extends.{Extends, add_nodes-Extends, add_entrypoints-Extends}
use diverge.Topology.Merge.{KeyHeld, Merged, merge_edges-Merged}

-- An edge between two services, of any protocol and source.
abbrev pub Connects : ServiceGraph → Text → Text → Type 0
Connects g a b = (e : Edge) × Holds g e × (e.from ≡ a) × (e.to ≡ b)

-- No name holds the '>' of an edge key's arrow; service names never do.
abbrev pub NamesFit : ServiceGraph → Type 0
NamesFit g = (e : Edge) → Holds g e → Lacks b'>' e.from

module _ (g o : ServiceGraph) (wg : IsWellFormed g) (wo : IsWellFormed o) where
  abbrev theirs : List Edge
  theirs = range_edges o.edges.keys o.edges.at

  abbrev seen_first : List Text
  seen_first = (merge_edges [] (all_edges g) [] new_service_graph).0

  abbrev first : ServiceGraph
  first = (merge_edges [] (all_edges g) [] new_service_graph).1

  abbrev seen_second : List Text
  seen_second = (merge_edges [] theirs seen_first first).0

  abbrev second : ServiceGraph
  second = (merge_edges [] theirs seen_first first).1

  first-Merged : Merged (all_edges g) new_service_graph seen_first first
  first-Merged =
      merge_edges-Merged (all_edges g) [] new_service_graph new_service_graph-IsWellFormed
        (record { held = λ k i. absurd i; noted = λ y h. absurd h })

  second-Merged : Merged theirs first seen_second second
  second-Merged =
      merge_edges-Merged theirs seen_first first first-Merged.well_formed first-Merged.matches

  merge-second :
      merge g o
      ≡ add_nodes o.nodes
          (add_nodes g.nodes (add_entrypoints o.entrypoints (add_entrypoints g.entrypoints second)))
  unfolding merge
  merge-second = rw (tombstone_keys-nil o wo)

  add_first : Extends second (add_entrypoints g.entrypoints second) [] g.entrypoints
  add_first = add_entrypoints-Extends g.entrypoints second second-Merged.well_formed

  abbrev with_entries : ServiceGraph
  with_entries = add_entrypoints o.entrypoints (add_entrypoints g.entrypoints second)

  add_second : Extends (add_entrypoints g.entrypoints second) with_entries [] o.entrypoints
  add_second = add_entrypoints-Extends o.entrypoints _ add_first.well_formed

  add_third : Extends with_entries (add_nodes g.nodes with_entries) g.nodes []
  add_third = add_nodes-Extends g.nodes with_entries add_second.well_formed

  add_fourth :
      Extends
        (add_nodes g.nodes with_entries)
        (add_nodes o.nodes (add_nodes g.nodes with_entries))
        o.nodes
        []
  add_fourth = add_nodes-Extends o.nodes _ add_third.well_formed

  -- Merging two well-formed graphs gives a well-formed graph.
  pub merge-IsWellFormed : IsWellFormed (merge g o)
  merge-IsWellFormed = subst IsWellFormed (sym merge-second) add_fourth.well_formed

  merge-edges : (merge g o).edges ≡ second.edges
  merge-edges =
      ap (λ (h : ServiceGraph). h.edges) merge-second
      ∙ (add_fourth.edges ∙ (add_third.edges ∙ (add_second.edges ∙ add_first.edges)))

  Holds-merge_iff : (x : Edge) → Holds (merge g o) x ↔ Holds second x
  Holds-merge_iff x = rw merge-edges ((λ h. h), (λ h. h))

  Holds-first : (x : Edge) → Holds first x → Holds g x
  Holds-first x h = elim (first-Merged.only x h) [
    | inl never ↦ absurd never
    | inr (i, _) ↦ (all_edges-Holds_iff g wg x).0 i
  ]

  first_covers : (x : Edge) → Holds g x → KeyHeld first (edge_key x)
  first_covers x h = first-Merged.covers x ((all_edges-Holds_iff g wg x).1 h) (wg.live x h)

  Holds-second :
      (x : Edge) → Holds second x → Holds g x ⊎ (Holds o x × (¬ KeyHeld first (edge_key x)))
  Holds-second x h = elim (second-Merged.only x h) [
    | inl mine ↦ inl (Holds-first x mine)
    | inr (i, n) ↦ inr ((range-Holds_iff o wo x).0 i, n)
  ]

  second_covers : (x : Edge) → Holds g x ⊎ Holds o x → KeyHeld second (edge_key x)
  second_covers x (inl h) = let (y, i, q) = first_covers x h in (y, second-Merged.grows y i, q)
  second_covers x (inr h) = second-Merged.covers x ((range-Holds_iff o wo x).1 h) (wo.live x h)

  -- For two well-formed graphs: where the first has an edge between two services, every edge of the
  -- merged graph between them is an edge of the first.
  pub merge_prefers_first :
      (x y : Edge) → Holds (merge g o) x → Holds g y → y.from ≡ x.from → y.to ≡ x.to → Holds g x
  merge_prefers_first x y h hy f t = elim (Holds-second x ((Holds-merge_iff x).0 h)) [
    | inl mine ↦ mine
    | inr (_, n) ↦ absurd (n (subst (KeyHeld first) (edge_key_of_ends y x f t) (first_covers y hy)))
  ]

  second_from : (x : Edge) → NamesFit g → NamesFit o → Holds second x → Lacks b'>' x.from
  second_from x fg fo h = elim (Holds-second x h) [
    | inl mine ↦ fg x mine
    | inr (other, _) ↦ fo x other
  ]

  pub NamesFit-merge : NamesFit g → NamesFit o → NamesFit (merge g o)
  NamesFit-merge fg fo x h = second_from x fg fo ((Holds-merge_iff x).0 h)

  -- For two well-formed graphs whose edges start at names without a '>', Merge connects two
  -- services exactly if one of the graphs does.
  pub Connects-merge_iff :
      NamesFit g
      → NamesFit o
      → (a b : Text) → Connects (merge g o) a b ↔ (Connects g a b ⊎ Connects o a b)
  Connects-merge_iff fg fo a b = (
    (λ c.
        let (x, h, f, t) = c in
        elim (Holds-second x ((Holds-merge_iff x).0 h)) [
          | inl mine ↦ inl (x, mine, f, t)
          | inr (other, _) ↦ inr (x, other, f, t)
        ]),
    (λ c.
        let (x, h, f, t) : (x : Edge) × (Holds g x ⊎ Holds o x) × (x.from ≡ a) × (x.to ≡ b) =
          elim c [ inl (x, h, f, t) ↦ (x, inl h, f, t) | inr (x, h, f, t) ↦ (x, inr h, f, t) ] in
        let (y, hy, q) = second_covers x h in
        let fits : Lacks b'>' x.from = elim h [ inl m ↦ fg x m | inr m ↦ fo x m ] in
        let (qf, qt) = edge_key-injective y x (second_from y fg fo hy) fits q in
        (y, (Holds-merge_iff y).1 hy, qf ∙ f, qt ∙ t)),
  )

  edges_known : (s : Text) → In s second.nodes → In s g.nodes ⊎ In s o.nodes
  edges_known s i = elim (second-Merged.ends s i) [
    | inr (x, j, at) ↦
        let h = (range-Holds_iff o wo x).0 j in
        inr (elim at [
          | inl e ↦ subst (λ t. In t o.nodes) (sym e) (wo.from_node x h)
          | inr e ↦ subst (λ t. In t o.nodes) (sym e) (wo.to_node x h)
        ])
    | inl j ↦ elim (first-Merged.ends s j) [
      | inl never ↦ absurd never
      | inr (x, k, at) ↦
          let h = (all_edges-Holds_iff g wg x).0 k in
          inl (elim at [
            | inl e ↦ subst (λ t. In t g.nodes) (sym e) (wg.from_node x h)
            | inr e ↦ subst (λ t. In t g.nodes) (sym e) (wg.to_node x h)
          ])
    ]
  ]

  entries_known : (s : Text) → In s with_entries.nodes → In s g.nodes ⊎ In s o.nodes
  entries_known s i = elim ((add_second.nodes s).0 i) [
    | inr (inl j) ↦ absurd j
    | inr (inr j) ↦ inr (wo.entry_node s j)
    | inl j ↦ elim ((add_first.nodes s).0 j) [
      | inr (inl k) ↦ absurd k
      | inr (inr k) ↦ inl (wg.entry_node s k)
      | inl k ↦ edges_known s k
    ]
  ]

  -- For two well-formed graphs, Services of the merged graph lists the services of both and no
  -- other.
  pub services-merge_iff :
      (s : Text) → In s (services (merge g o)) ↔ (In s (services g) ⊎ In s (services o))
  unfolding services
  services-merge_iff s =
      let sorted = λ (l : List Text). In-sort_iff text_lt s l in
      let all = ap (λ (h : ServiceGraph). h.nodes) merge-second in
      (
        (λ i. elim ((add_fourth.nodes s).0 (subst (In s) all ((sorted (merge g o).nodes).0 i))) [
          | inr (inl j) ↦ inr ((sorted o.nodes).1 j)
          | inr (inr j) ↦ absurd j
          | inl j ↦ elim ((add_third.nodes s).0 j) [
            | inr (inl k) ↦ inl ((sorted g.nodes).1 k)
            | inr (inr k) ↦ absurd k
            | inl k ↦ elim (entries_known s k) [
              | inl a ↦ inl ((sorted g.nodes).1 a)
              | inr b ↦ inr ((sorted o.nodes).1 b)
            ]
          ]
        ]),
        (λ i. (sorted (merge g o).nodes).1 (
            subst (In s) (sym all) (
              (add_fourth.nodes s).1 (elim i [
                | inl j ↦ inl ((add_third.nodes s).1 (inr (inl ((sorted g.nodes).0 j))))
                | inr j ↦ inr (inl ((sorted o.nodes).0 j))
              ])))),
      )
