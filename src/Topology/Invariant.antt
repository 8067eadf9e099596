-- ===== src/Topology/Invariant.antt =====
-- The invariant of ServiceGraph (pkg/topology/graph.go) and the operations that add to a graph.
use diverge.Base.{
  true, false, [], ◌∷◌, ◌≡◌, refl, ap, ◌⊎◌, inl, inr, ◌↔◌, Text, text_eq, text_eq_iff, In,
  In-append_left, In-append_right, In-append_cases, Bool-cases,
}
use diverge.Topology.Sets.{add, In-add_iff}
use diverge.Topology.Graph.{Edge, Adjacency, ServiceGraph, new_service_graph, append_edge, add_edge}

pub In-append_edge_iff :
    (k j : Text) (e x : Edge) (m : Adjacency)
    → In x ((append_edge k e m).at j) ↔ (In x (m.at j) ⊎ ((j ≡ k) × (x ≡ e)))
unfolding append_edge
In-append_edge_iff k j e x m = elim (Bool-cases (text_eq j k)) [
  | inl same ↦
      let at_k = (text_eq_iff j k).0 same in
      rw same (
        (λ i. elim (In-append_cases x (m.at j) (e ∷ []) i) [
          | inl old ↦ inl old
          | inr (inl new) ↦ inr (at_k, new)
          | inr (inr never) ↦ absurd never
        ]),
        (λ i. elim i [
          | inl old ↦ In-append_left x (m.at j) (e ∷ []) old
          | inr (_, new) ↦ In-append_right x (m.at j) (e ∷ []) (inl new)
        ]),
      )
  | inr other ↦ rw other (
    (λ i. inl i),
    (λ i. elim i [
      | inl old ↦ old
      | inr (at_k, _) ↦ absurd (cc (let s : text_eq j k ≡ true = (text_eq_iff j k).1 at_k in s))
    ]),
  )
]

-- An edge that the graph holds.
abbrev pub Holds : ServiceGraph → Edge → Type 0
Holds g e = In e (g.edges.at e.from)

-- Every list of edges stands under its own key, which is known, and holds no tombstone; the ends
-- of an edge are nodes; the reverse map mirrors the edges; the entrypoints are nodes.
pub record IsWellFormed (g : ServiceGraph) : Type 0 where
  pub keyed : (k : Text) (e : Edge) → In e (g.edges.at k) → e.from ≡ k
  pub live : (e : Edge) → Holds g e → e.tombstone ≡ false
  pub known : (e : Edge) → Holds g e → In e.from g.edges.keys
  pub from_node : (e : Edge) → Holds g e → In e.from g.nodes
  pub to_node : (e : Edge) → Holds g e → In e.to g.nodes
  pub mirrored : (k : Text) (e : Edge) → In e (g.reverse.at k) ↔ ((e.to ≡ k) × Holds g e)
  pub entry_node : (s : Text) → In s g.entrypoints → In s g.nodes

-- The empty graph is well-formed.
pub new_service_graph-IsWellFormed : IsWellFormed new_service_graph
new_service_graph-IsWellFormed = record {
  keyed = λ k e i. absurd i;
  live = λ e i. absurd i;
  known = λ e i. absurd i;
  from_node = λ e i. absurd i;
  to_node = λ e i. absurd i;
  mirrored = λ k e. ((λ i. absurd i), (λ i. absurd i.1));
  entry_node = λ s i. absurd i;
}

-- Adding an edge adds that edge and no other, and nothing if it is a tombstone.
pub Holds-add_edge_iff :
    (e x : Edge) (g : ServiceGraph)
    → Holds (add_edge e g) x ↔ (Holds g x ⊎ ((e.tombstone ≡ false) × (x ≡ e)))
unfolding add_edge
Holds-add_edge_iff e x g = elim (Bool-cases e.tombstone) [
  | inl dead ↦ simp dead ((λ i. inl i), (λ i. elim i [ inl j ↦ j | inr (d, _) ↦ absurd (cc d) ]))
  | inr live ↦
      let at = In-append_edge_iff e.from x.from e x g.edges in
      simp live (
        (λ i. elim (at.0 i) [ inl old ↦ inl old | inr (_, new) ↦ inr (refl, new) ]),
        (λ i. at.1 (elim i [
          | inl old ↦ inl old
          | inr (_, new) ↦ inr (ap (λ (y : Edge). y.from) new, new)
        ])),
      )
]

pub add_edge-nodes :
    (e : Edge) (g : ServiceGraph) → (add_edge e g).nodes ≡ add e.to (add e.from g.nodes)
unfolding add_edge
add_edge-nodes e g = elim (Bool-cases e.tombstone) [ inl dead ↦ simp dead | inr live ↦ simp live ]

pub add_edge-entrypoints :
    (e : Edge) (g : ServiceGraph) → (add_edge e g).entrypoints ≡ g.entrypoints
unfolding add_edge
add_edge-entrypoints e g = elim (Bool-cases e.tombstone) [
  | inl dead ↦ simp dead
  | inr live ↦ simp live
]

pub In-add_edge_nodes :
    (e : Edge) (s : Text) (g : ServiceGraph)
    → In s (add_edge e g).nodes ↔ (In s g.nodes ⊎ ((s ≡ e.from) ⊎ (s ≡ e.to)))
In-add_edge_nodes e s g = rw (add_edge-nodes e g) (
  (λ i. elim ((In-add_iff e.to s (add e.from g.nodes)).0 i) [
    | inr at_to ↦ inr (inr at_to)
    | inl j ↦ elim ((In-add_iff e.from s g.nodes).0 j) [
      | inl old ↦ inl old
      | inr at_from ↦ inr (inl at_from)
    ]
  ]),
  (λ i. (In-add_iff e.to s (add e.from g.nodes)).1 (elim i [
    | inl old ↦ inl ((In-add_iff e.from s g.nodes).1 (inl old))
    | inr (inl at_from) ↦ inl ((In-add_iff e.from s g.nodes).1 (inr at_from))
    | inr (inr at_to) ↦ inr at_to
  ])),
)
