-- ===== src/Topology/Preserved.antt =====
-- The operations of ServiceGraph (pkg/topology/graph.go) keep its invariant.
use diverge.Base.{true, false, ◌≡◌, refl, sym, ◌∙◌, ap, inl, inr, ◌↔◌, Text, In, Bool-cases, subst}
use diverge.Topology.Sets.{In-add_iff}
use diverge.Topology.Graph.{
  Edge, Adjacency, ServiceGraph, append_edge, add_edge, add_node, add_entrypoint,
}
use diverge.Topology.Invariant.{
  Holds, IsWellFormed, Holds-add_edge_iff, In-append_edge_iff, In-add_edge_nodes,
  add_edge-entrypoints,
}

In-append_edge_keys :
    (k j : Text) (e : Edge) (m : Adjacency) → In j m.keys → In j (append_edge k e m).keys
unfolding append_edge
In-append_edge_keys k j e m i = (In-add_iff k j m.keys).1 (inl i)

In-append_edge_key : (k : Text) (e : Edge) (m : Adjacency) → In k (append_edge k e m).keys
unfolding append_edge
In-append_edge_key k e m = (In-add_iff k k m.keys).1 (inr refl)

module _ (e : Edge) (g : ServiceGraph) (w : IsWellFormed g) where
  module _ (live : e.tombstone ≡ false) where
    live_edges : (add_edge e g).edges ≡ append_edge e.from e g.edges
    unfolding add_edge
    live_edges = simp live

    live_reverse : (add_edge e g).reverse ≡ append_edge e.to e g.reverse
    unfolding add_edge
    live_reverse = simp live

    live_keyed : (k : Text) (x : Edge) → In x ((add_edge e g).edges.at k) → x.from ≡ k
    live_keyed k x i =
        elim ((In-append_edge_iff e.from k e x g.edges).0
          (subst (λ (m : Adjacency). In x (m.at k)) live_edges i)) [
            | inl old ↦ w.keyed k x old
            | inr (at_k, new) ↦ ap (λ (y : Edge). y.from) new ∙ sym at_k
          ]

    live_known : (x : Edge) → Holds (add_edge e g) x → In x.from (add_edge e g).edges.keys
    live_known x h =
        subst (λ (m : Adjacency). In x.from m.keys) (sym live_edges)
          (elim ((Holds-add_edge_iff e x g).0 h) [
            | inl old ↦ In-append_edge_keys e.from x.from e g.edges (w.known x old)
            | inr (_, new) ↦
                subst (λ (y : Edge). In y.from (append_edge e.from e g.edges).keys) (sym new)
                  (In-append_edge_key e.from e g.edges)
          ])

    live_mirrored :
        (k : Text) (x : Edge)
        → In x ((add_edge e g).reverse.at k) ↔ ((x.to ≡ k) × Holds (add_edge e g) x)
    live_mirrored k x =
        let rev = In-append_edge_iff e.to k e x g.reverse in
        let fwd = Holds-add_edge_iff e x g in
        (
          (λ i. elim (rev.0 (subst (λ (m : Adjacency). In x (m.at k)) live_reverse i)) [
            | inl old ↦ (((w.mirrored k x).0 old).0, fwd.1 (inl ((w.mirrored k x).0 old).1))
            | inr (at_k, new) ↦ (ap (λ (y : Edge). y.to) new ∙ sym at_k, fwd.1 (inr (live, new)))
          ]),
          (λ h.
              subst (λ (m : Adjacency). In x (m.at k)) (sym live_reverse)
                (rev.1 (elim (fwd.0 h.1) [
                  | inl old ↦ inl ((w.mirrored k x).1 (h.0, old))
                  | inr (_, new) ↦ inr (sym h.0 ∙ ap (λ (y : Edge). y.to) new, new)
                ]))),
        )

  module _ (dead : e.tombstone ≡ true) where
    dead_edges : (add_edge e g).edges ≡ g.edges
    unfolding add_edge
    dead_edges = simp dead

    dead_reverse : (add_edge e g).reverse ≡ g.reverse
    unfolding add_edge
    dead_reverse = simp dead

  add_edge_live : (x : Edge) → Holds (add_edge e g) x → x.tombstone ≡ false
  add_edge_live x h = elim ((Holds-add_edge_iff e x g).0 h) [
    | inl old ↦ w.live x old
    | inr (live, new) ↦ ap (λ (y : Edge). y.tombstone) new ∙ live
  ]

  add_edge_from : (x : Edge) → Holds (add_edge e g) x → In x.from (add_edge e g).nodes
  add_edge_from x h = (In-add_edge_nodes e x.from g).1 (elim ((Holds-add_edge_iff e x g).0 h) [
    | inl old ↦ inl (w.from_node x old)
    | inr (_, new) ↦ inr (inl (ap (λ (y : Edge). y.from) new))
  ])

  add_edge_to : (x : Edge) → Holds (add_edge e g) x → In x.to (add_edge e g).nodes
  add_edge_to x h = (In-add_edge_nodes e x.to g).1 (elim ((Holds-add_edge_iff e x g).0 h) [
    | inl old ↦ inl (w.to_node x old)
    | inr (_, new) ↦ inr (inr (ap (λ (y : Edge). y.to) new))
  ])

  add_edge_entry : (s : Text) → In s (add_edge e g).entrypoints → In s (add_edge e g).nodes
  add_edge_entry s i =
      (In-add_edge_nodes e s g).1 (inl (w.entry_node s (subst (In s) (add_edge-entrypoints e g) i)))

  -- Adding an edge, a tombstone or not, keeps a graph well-formed.
  pub add_edge-IsWellFormed : IsWellFormed (add_edge e g)
  add_edge-IsWellFormed = elim (Bool-cases e.tombstone) [
    | inr live ↦ record {
      keyed = live_keyed live;
      live = add_edge_live;
      known = live_known live;
      from_node = add_edge_from;
      to_node = add_edge_to;
      mirrored = live_mirrored live;
      entry_node = add_edge_entry;
    }
    | inl dead ↦ record {
      keyed = λ k x i. w.keyed k x (subst (λ (m : Adjacency). In x (m.at k)) (dead_edges dead) i);
      live = add_edge_live;
      known = λ x h.
          subst (λ (m : Adjacency). In x.from m.keys) (sym (dead_edges dead))
            (w.known x (subst (λ (m : Adjacency). In x (m.at x.from)) (dead_edges dead) h));
      from_node = add_edge_from;
      to_node = add_edge_to;
      mirrored = λ k x. (
        (λ i.
            let (at_k, h) =
              (w.mirrored k x).0 (subst (λ (m : Adjacency). In x (m.at k)) (dead_reverse dead) i) in
            (at_k, subst (λ (m : Adjacency). In x (m.at x.from)) (sym (dead_edges dead)) h)),
        (λ h.
            subst (λ (m : Adjacency). In x (m.at k)) (sym (dead_reverse dead))
              ((w.mirrored k x).1
                (h.0, subst (λ (m : Adjacency). In x (m.at x.from)) (dead_edges dead) h.1))),
      );
      entry_node = add_edge_entry;
    }
  ]

module _ (s : Text) (g : ServiceGraph) (w : IsWellFormed g) where
  pub add_node-IsWellFormed : IsWellFormed (add_node s g)
  unfolding add_node
  add_node-IsWellFormed = record {
    keyed = w.keyed;
    live = w.live;
    known = w.known;
    from_node = λ x h. (In-add_iff s x.from g.nodes).1 (inl (w.from_node x h));
    to_node = λ x h. (In-add_iff s x.to g.nodes).1 (inl (w.to_node x h));
    mirrored = w.mirrored;
    entry_node = λ t i. (In-add_iff s t g.nodes).1 (inl (w.entry_node t i));
  }

  pub add_entrypoint-IsWellFormed : IsWellFormed (add_entrypoint s g)
  unfolding add_entrypoint
  add_entrypoint-IsWellFormed = record {
    keyed = w.keyed;
    live = w.live;
    known = w.known;
    from_node = λ x h. (In-add_iff s x.from g.nodes).1 (inl (w.from_node x h));
    to_node = λ x h. (In-add_iff s x.to g.nodes).1 (inl (w.to_node x h));
    mirrored = w.mirrored;
    entry_node = λ t i. (In-add_iff s t g.nodes).1 (elim ((In-add_iff s t g.entrypoints).0 i) [
      | inl old ↦ inl (w.entry_node t old)
      | inr new ↦ inr new
    ]);
  }
