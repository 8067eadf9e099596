-- ===== src/Topology/Keys.antt =====
-- The edge keys of Merge (pkg/topology/graph.go), and the edges that a graph lists.
use diverge.Base.{
  true, false, List, [], ◌∷◌, ◌++◌, ◌≡◌, refl, sym, inl, inr, ◌↔◌, arith, Text, Lacks, In,
  In-append_left, In-append_right, In-append_cases, In-keep, In-keep_inv, subst, keep,
}
use diverge.Topology.Sets.{In-sort_iff}
use diverge.Topology.Graph.{
  Edge, ServiceGraph, range_edges, all_edges, edge_less, edge_key, is_live, tombstone_keys,
}
use diverge.Topology.Invariant.{Holds, IsWellFormed}

-- The first '>' ends the name before it.
pub key_split :
    (a b c d : Text)
    → Lacks b'>' a
    → Lacks b'>' c
    → a ++ b'-' ∷ b'>' ∷ b ≡ c ++ b'-' ∷ b'>' ∷ d
    → (a ≡ c) × (b ≡ d)
key_split [] b [] d ha hc e = ground arith
key_split [] b (y ∷ []) d ha hc e = absurd (ground arith)
key_split [] b (y ∷ z ∷ c) d ha hc e = absurd (ground (arith, hc.1.0))
key_split (x ∷ []) b [] d ha hc e = absurd (ground arith)
key_split (x ∷ z ∷ a) b [] d ha hc e = absurd (ground (arith, ha.1.0))
key_split (x ∷ a) b (y ∷ c) d ha hc e = ground (arith, key_split a b c d ha.1 hc.1)

pub edge_key-injective :
    (x y : Edge)
    → Lacks b'>' x.from
    → Lacks b'>' y.from
    → edge_key x ≡ edge_key y
    → (x.from ≡ y.from) × (x.to ≡ y.to)
unfolding edge_key
edge_key-injective x y hx hy e = key_split x.from x.to y.from y.to hx hy e

pub edge_key_of_ends : (x y : Edge) → x.from ≡ y.from → x.to ≡ y.to → edge_key x ≡ edge_key y
unfolding edge_key
edge_key_of_ends x y f t = cc

In-range_edges :
    (e : Edge) (k : Text) (ks : List Text) (at : Text → List Edge)
    → In k ks
    → In e (at k)
    → In e (range_edges ks at)
unfolding range_edges
In-range_edges e k [] at i j = absurd i
In-range_edges e k (x ∷ ks) at (inl same) j =
    In-append_left e (at x) (range_edges ks at) (subst (λ z. In e (at z)) same j)
In-range_edges e k (x ∷ ks) at (inr i) j =
    In-append_right e (at x) (range_edges ks at) (In-range_edges e k ks at i j)

In-range_edges_inv :
    (e : Edge) (ks : List Text) (at : Text → List Edge)
    → In e (range_edges ks at)
    → (k : Text) × In e (at k)
unfolding range_edges
In-range_edges_inv e [] at i = absurd i
In-range_edges_inv e (x ∷ ks) at i = elim (In-append_cases e (at x) (range_edges ks at) i) [
  | inl here ↦ (x, here)
  | inr later ↦ In-range_edges_inv e ks at later
]

module _ (g : ServiceGraph) (w : IsWellFormed g) where
  -- A range over the map of edges meets the edges that the graph holds.
  pub range-Holds_iff : (e : Edge) → In e (range_edges g.edges.keys g.edges.at) ↔ Holds g e
  range-Holds_iff e = (
    (λ i.
        let (k, j) = In-range_edges_inv e g.edges.keys g.edges.at i in
        subst (λ z. In e (g.edges.at z)) (sym (w.keyed k e j)) j),
    (λ h. In-range_edges e e.from g.edges.keys g.edges.at (w.known e h) h),
  )

  -- Edges lists exactly the edges that the graph holds.
  pub all_edges-Holds_iff : (e : Edge) → In e (all_edges g) ↔ Holds g e
  unfolding all_edges
  all_edges-Holds_iff e =
      let sorted = In-sort_iff edge_less e (keep is_live (range_edges g.edges.keys g.edges.at)) in
      (
        (λ i. (range-Holds_iff e).0 (In-keep_inv is_live e _ (sorted.0 i)).0),
        (λ h.
            let live : is_live e ≡ true = let d = w.live e h in ground arith in
            sorted.1 (In-keep is_live e _ ((range-Holds_iff e).1 h) live)),
      )

tombstone_keys_of_live :
    (out : List Text) (es : List Edge)
    → ((e : Edge) → In e es → e.tombstone ≡ false)
    → tombstone_keys out es ≡ out
unfolding tombstone_keys
tombstone_keys_of_live out [] h = refl
tombstone_keys_of_live out (e ∷ es) h =
    simp (h e (inl refl)) (tombstone_keys_of_live out es (λ x i. h x (inr i)))

-- A well-formed graph has no tombstone for Merge to find.
pub tombstone_keys-nil :
    (g : ServiceGraph)
    → IsWellFormed g
    → tombstone_keys [] (range_edges g.edges.keys g.edges.at) ≡ []
tombstone_keys-nil g w = tombstone_keys_of_live [] _ (λ e i. w.live e ((range-Holds_iff g w e).0 i))
