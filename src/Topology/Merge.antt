-- ===== src/Topology/Merge.antt =====
-- What Merge of pkg/topology/graph.go keeps of two graphs.
use diverge.Base.{
  true, false, List, [], ◌∷◌, ◌≡◌, refl, sym, ◌∙◌, ap, ◌⊎◌, inl, inr, Text, In, any, Bool-cases,
  subst,
}
use diverge.Topology.Sets.{has, add, has_iff, In-add_iff}
use diverge.Topology.Graph.{Edge, ServiceGraph, add_edge, merge_edges, edge_key}
use diverge.Topology.Invariant.{
  Holds, IsWellFormed, Holds-add_edge_iff, In-add_edge_nodes, add_edge-entrypoints,
}
use diverge.Topology.Preserved.{add_edge-IsWellFormed}
use diverge.Topology.Keys.{}

abbrev pub KeyHeld : ServiceGraph → Text → Type 0
KeyHeld g k = (y : Edge) × Holds g y × (edge_key y ≡ k)

-- The keys seen are those of the edges merged so far.
pub record Matches (seen : List Text) (g : ServiceGraph) : Type 0 where
  pub held : (k : Text) → In k seen → KeyHeld g k
  pub noted : (y : Edge) → Holds g y → In (edge_key y) seen

-- What one of Merge's loops makes of the edges `es`.
pub record Merged (es : List Edge) (before : ServiceGraph) (seen' : List Text)
    (after : ServiceGraph) : Type 0 where
  pub well_formed : IsWellFormed after
  pub matches : Matches seen' after
  pub grows : (x : Edge) → Holds before x → Holds after x
  pub covers : (x : Edge) → In x es → x.tombstone ≡ false → KeyHeld after (edge_key x)
  pub only :
      (x : Edge) → Holds after x → Holds before x ⊎ (In x es × (¬ KeyHeld before (edge_key x)))
  pub ends :
      (s : Text)
      → In s after.nodes
      → In s before.nodes ⊎ ((x : Edge) × In x es × ((s ≡ x.from) ⊎ (s ≡ x.to)))
  pub entries : after.entrypoints ≡ before.entrypoints

Matches-add_edge :
    (e : Edge) (seen : List Text) (g : ServiceGraph)
    → e.tombstone ≡ false
    → Matches seen g
    → Matches (add (edge_key e) seen) (add_edge e g)
Matches-add_edge e seen g live m = record {
  held = λ k i. elim ((In-add_iff (edge_key e) k seen).0 i) [
    | inl old ↦ let (y, h, q) = m.held k old in (y, (Holds-add_edge_iff e y g).1 (inl h), q)
    | inr new ↦ (e, (Holds-add_edge_iff e e g).1 (inr (live, refl)), sym new)
  ];
  noted = λ y h.
      (In-add_iff (edge_key e) (edge_key y) seen).1 (elim ((Holds-add_edge_iff e y g).0 h) [
        | inl old ↦ inl (m.noted y old)
        | inr (_, new) ↦ inr (ap edge_key new)
      ]);
}

merge_edges_take :
    (e : Edge) (es : List Edge) (seen : List Text) (g : ServiceGraph)
    → e.tombstone ≡ false
    → has seen (edge_key e) ≡ false
    → merge_edges [] (e ∷ es) seen g ≡ merge_edges [] es (add (edge_key e) seen) (add_edge e g)
unfolding merge_edges has any
merge_edges_take e es seen g live new = simp (live, new)

merge_edges_seen :
    (e : Edge) (es : List Edge) (seen : List Text) (g : ServiceGraph)
    → has seen (edge_key e) ≡ true
    → merge_edges [] (e ∷ es) seen g ≡ merge_edges [] es seen g
unfolding merge_edges has any
merge_edges_seen e es seen g old = elim (Bool-cases e.tombstone) [
  | inl dead ↦ simp dead
  | inr live ↦ simp (live, old)
]

merge_edges_dead :
    (e : Edge) (es : List Edge) (seen : List Text) (g : ServiceGraph)
    → e.tombstone ≡ true
    → merge_edges [] (e ∷ es) seen g ≡ merge_edges [] es seen g
unfolding merge_edges
merge_edges_dead e es seen g dead = simp dead

module _ (e : Edge) (es : List Edge) (seen : List Text) (g : ServiceGraph) (m : Matches seen g)
    (seen' : List Text) (after : ServiceGraph) where
  Merged-skip :
      (e.tombstone ≡ true) ⊎ (has seen (edge_key e) ≡ true)
      → Merged es g seen' after
      → Merged (e ∷ es) g seen' after
  Merged-skip why r = record {
    well_formed = r.well_formed;
    matches = r.matches;
    grows = r.grows;
    covers = λ x i live. elim i [
      | inr later ↦ r.covers x later live
      | inl same ↦ elim why [
        | inl dead ↦ absurd (cc (sym live ∙ ap (λ (y : Edge). y.tombstone) same ∙ dead))
        | inr old ↦
            let (y, h, q) = m.held (edge_key e) ((has_iff seen (edge_key e)).0 old) in
            (y, r.grows y h, q ∙ ap edge_key (sym same))
      ]
    ];
    only = λ x h. elim (r.only x h) [ inl old ↦ inl old | inr (i, n) ↦ inr (inr i, n) ];
    ends = λ s i. elim (r.ends s i) [ inl old ↦ inl old | inr (x, j, at) ↦ inr (x, inr j, at) ];
    entries = r.entries;
  }

  Merged-take :
      e.tombstone ≡ false
      → has seen (edge_key e) ≡ false
      → Merged es (add_edge e g) seen' after
      → Merged (e ∷ es) g seen' after
  Merged-take live new r =
      let added = λ (x : Edge). Holds-add_edge_iff e x g in
      let fresh : ¬ KeyHeld g (edge_key e) = λ k.
        cc (new, (has_iff seen (edge_key e)).1 (subst (λ z. In z seen) k.2 (m.noted k.0 k.1))) in
      record {
        well_formed = r.well_formed;
        matches = r.matches;
        grows = λ x h. r.grows x ((added x).1 (inl h));
        covers = λ x i l. elim i [
          | inr later ↦ r.covers x later l
          | inl same ↦ (e, r.grows e ((added e).1 (inr (live, refl))), ap edge_key (sym same))
        ];
        only = λ x h. elim (r.only x h) [
          | inl old ↦ elim ((added x).0 old) [
            | inl before ↦ inl before
            | inr (_, same) ↦
                inr (inl same, subst (λ (z : Edge). ¬ KeyHeld g (edge_key z)) (sym same) fresh)
          ]
          | inr (i, n) ↦ inr (inr i, (λ k. n (k.0, (added k.0).1 (inl k.1), k.2)))
        ];
        ends = λ s i. elim (r.ends s i) [
          | inl old ↦ elim ((In-add_edge_nodes e s g).0 old) [
            | inl before ↦ inl before
            | inr at ↦ inr (e, inl refl, at)
          ]
          | inr (x, j, at) ↦ inr (x, inr j, at)
        ];
        entries = r.entries ∙ add_edge-entrypoints e g;
      }

pub merge_edges-Merged :
    (es : List Edge) (seen : List Text) (g : ServiceGraph)
    → IsWellFormed g
    → Matches seen g
    → Merged es g (merge_edges [] es seen g).0 (merge_edges [] es seen g).1
merge_edges-Merged [] seen g w m =
    unfold merge_edges in
    record {
      well_formed = w;
      matches = m;
      grows = λ x h. h;
      covers = λ x i. absurd i;
      only = λ x h. inl h;
      ends = λ s i. inl i;
      entries = refl;
    }
merge_edges-Merged (e ∷ es) seen g w m = elim (Bool-cases e.tombstone) [
  | inl dead ↦
      rw (merge_edges_dead e es seen g dead)
        (Merged-skip e es seen g m _ _ (inl dead) (merge_edges-Merged es seen g w m))
  | inr live ↦ elim (Bool-cases (has seen (edge_key e))) [
    | inl old ↦
        rw (merge_edges_seen e es seen g old)
          (Merged-skip e es seen g m _ _ (inr old) (merge_edges-Merged es seen g w m))
    | inr new ↦ rw (merge_edges_take e es seen g live new) (
        Merged-take e es seen g m _ _ live new (
          merge_edges-Merged es (add (edge_key e) seen) (add_edge e g) (add_edge-IsWellFormed e g w)
            (Matches-add_edge e seen g live m)))
  ]
]
