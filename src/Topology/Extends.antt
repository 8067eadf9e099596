-- ===== src/Topology/Extends.antt =====
-- The loops of Merge (pkg/topology/graph.go) that add nodes and entrypoints.
use diverge.Base.{List, [], ◌∷◌, ◌≡◌, refl, ◌⊎◌, inl, inr, ◌↔◌, Text, In}
use diverge.Topology.Sets.{In-add_iff}
use diverge.Topology.Graph.{ServiceGraph, add_node, add_nodes, add_entrypoint, add_entrypoints}
use diverge.Topology.Invariant.{IsWellFormed}
use diverge.Topology.Preserved.{add_node-IsWellFormed, add_entrypoint-IsWellFormed}
use diverge.Topology.Keys.{}

-- The last loops of Merge leave the edges alone, and add the nodes and the entrypoints.
pub record Extends (g h : ServiceGraph) (ns eps : List Text) : Type 0 where
  pub well_formed : IsWellFormed h
  pub edges : h.edges ≡ g.edges
  pub nodes : (s : Text) → In s h.nodes ↔ (In s g.nodes ⊎ (In s ns ⊎ In s eps))
  pub entrypoints : (s : Text) → In s h.entrypoints ↔ (In s g.entrypoints ⊎ In s eps)

pub add_nodes-Extends :
    (ns : List Text) (g : ServiceGraph) → IsWellFormed g → Extends g (add_nodes ns g) ns []
unfolding add_nodes add_node
add_nodes-Extends [] g w = record {
  well_formed = w;
  edges = refl;
  nodes = λ s.
      ((λ i. inl i), (λ i. elim i [ inl j ↦ j | inr (inl n) ↦ absurd n | inr (inr n) ↦ absurd n ]));
  entrypoints = λ s. ((λ i. inl i), (λ i. elim i [ inl j ↦ j | inr n ↦ absurd n ]));
}
add_nodes-Extends (n ∷ ns) g w =
    let r = add_nodes-Extends ns (add_node n g) (add_node-IsWellFormed n g w) in
    record {
      well_formed = r.well_formed;
      edges = r.edges;
      nodes = λ s. (
        (λ i. elim ((r.nodes s).0 i) [
          | inl j ↦ elim ((In-add_iff n s g.nodes).0 j) [
            | inl k ↦ inl k
            | inr e ↦ inr (inl (inl e))
          ]
          | inr (inl j) ↦ inr (inl (inr j))
          | inr (inr j) ↦ absurd j
        ]),
        (λ i. (r.nodes s).1 (elim i [
          | inl j ↦ inl ((In-add_iff n s g.nodes).1 (inl j))
          | inr (inl (inl e)) ↦ inl ((In-add_iff n s g.nodes).1 (inr e))
          | inr (inl (inr j)) ↦ inr (inl j)
          | inr (inr j) ↦ absurd j
        ])),
      );
      entrypoints = r.entrypoints;
    }

pub add_entrypoints-Extends :
    (eps : List Text) (g : ServiceGraph) → IsWellFormed g → Extends g (add_entrypoints eps g) [] eps
unfolding add_entrypoints add_entrypoint
add_entrypoints-Extends [] g w = record {
  well_formed = w;
  edges = refl;
  nodes = λ s.
      ((λ i. inl i), (λ i. elim i [ inl j ↦ j | inr (inl n) ↦ absurd n | inr (inr n) ↦ absurd n ]));
  entrypoints = λ s. ((λ i. inl i), (λ i. elim i [ inl j ↦ j | inr n ↦ absurd n ]));
}
add_entrypoints-Extends (n ∷ ns) g w =
    let r = add_entrypoints-Extends ns (add_entrypoint n g) (add_entrypoint-IsWellFormed n g w) in
    record {
      well_formed = r.well_formed;
      edges = r.edges;
      nodes = λ s. (
        (λ i. elim ((r.nodes s).0 i) [
          | inl j ↦ elim ((In-add_iff n s g.nodes).0 j) [
            | inl k ↦ inl k
            | inr e ↦ inr (inr (inl e))
          ]
          | inr (inl j) ↦ absurd j
          | inr (inr j) ↦ inr (inr (inr j))
        ]),
        (λ i. (r.nodes s).1 (elim i [
          | inl j ↦ inl ((In-add_iff n s g.nodes).1 (inl j))
          | inr (inl j) ↦ absurd j
          | inr (inr (inl e)) ↦ inl ((In-add_iff n s g.nodes).1 (inr e))
          | inr (inr (inr j)) ↦ inr (inr j)
        ])),
      );
      entrypoints = λ s. (
        (λ i. elim ((r.entrypoints s).0 i) [
          | inl j ↦ elim ((In-add_iff n s g.entrypoints).0 j) [
            | inl k ↦ inl k
            | inr e ↦ inr (inl e)
          ]
          | inr j ↦ inr (inr j)
        ]),
        (λ i. (r.entrypoints s).1 (elim i [
          | inl j ↦ inl ((In-add_iff n s g.entrypoints).1 (inl j))
          | inr (inl e) ↦ inl ((In-add_iff n s g.entrypoints).1 (inr e))
          | inr (inr j) ↦ inr j
        ])),
      );
    }
