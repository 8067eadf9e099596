-- ===== src/Topology/Neighbors.antt =====
-- Neighbors and UpstreamCallers of pkg/topology/graph.go.
use diverge.Base.{
  true, false, List, [], ◌∷◌, ◌≡◌, ◌≢◌, refl, sym, ◌∙◌, ap, ◌⊎◌, inl, inr, ◌↔◌, Text, text_eq,
  text_eq_iff, In, Bool-cases, subst,
}
use diverge.Topology.Sets.{has, add, has_iff, In-add_iff, text_lt, sort, In-sort_iff}
use diverge.Topology.Graph.{Edge, ServiceGraph, distinct_ends, neighbors, upstream_callers}
use diverge.Topology.Invariant.{IsWellFormed}
use diverge.Topology.Union.{Connects}

-- An edge of a list that is no tombstone and has the given end, which was not seen.
abbrev EndsAt : (Edge → Text) → List Text → List Edge → Text → Type 0
EndsAt end seen es t = (¬ In t seen) × (e : Edge) × In e es × (e.tombstone ≡ false) × (end e ≡ t)

module _ (end : Edge → Text) where
  distinct_ends_sound :
      (seen : List Text) (es : List Edge) (t : Text)
      → In t (distinct_ends end seen es)
      → EndsAt end seen es t
  unfolding distinct_ends
  distinct_ends_sound seen [] t i = absurd i
  distinct_ends_sound seen (e ∷ es) t i =
      let later : In t (distinct_ends end seen es) → EndsAt end seen (e ∷ es) t = λ j.
        let (new, x, k, live, at) = distinct_ends_sound seen es t j in (new, x, inr k, live, at) in
      elim (Bool-cases e.tombstone) [
        | inl dead ↦ later (simp dead at i)
        | inr live ↦ elim (Bool-cases (has seen (end e))) [
          | inl old ↦ later (simp (live, old) at i)
          | inr new ↦
              elim (let j : (t ≡ end e) ⊎ In t (distinct_ends end (add (end e) seen) es) =
                  simp (live, new) at i in
                j) [
                  | inl here ↦ (
                    (λ s. cc (new, (has_iff seen (end e)).1 (subst (λ z. In z seen) here s))),
                    e,
                    inl refl,
                    live,
                    sym here,
                  )
                  | inr j ↦
                      let (n, x, k, l, at) = distinct_ends_sound (add (end e) seen) es t j in
                      ((λ s. n ((In-add_iff (end e) t seen).1 (inl s))), x, inr k, l, at)
                ]
        ]
      ]

  later_ends :
      (seen : List Text) (e : Edge) (es : List Edge) (t : Text)
      → (e.tombstone ≡ true) ⊎ (t ≢ end e)
      → EndsAt end seen (e ∷ es) t
      → EndsAt end seen es t
  later_ends seen e es t why (n, x, i, live, at) = elim i [
    | inr later ↦ (n, x, later, live, at)
    | inl same ↦ elim why [
      | inl dead ↦ absurd (cc (sym live ∙ ap (λ (y : Edge). y.tombstone) same ∙ dead))
      | inr ne ↦ absurd (ne (sym at ∙ ap end same))
    ]
  ]

  distinct_ends_complete :
      (seen : List Text) (es : List Edge) (t : Text)
      → EndsAt end seen es t
      → In t (distinct_ends end seen es)
  unfolding distinct_ends
  distinct_ends_complete seen [] t (n, x, i, live, at) = absurd i
  distinct_ends_complete seen (e ∷ es) t h = elim (Bool-cases e.tombstone) [
    | inl dead ↦ simp dead (distinct_ends_complete seen es t (later_ends seen e es t (inl dead) h))
    | inr alive ↦ elim (Bool-cases (has seen (end e))) [
      | inl old ↦
          let ne : t ≢ end e =
            λ q. h.0 (subst (λ z. In z seen) (sym q) ((has_iff seen (end e)).0 old)) in
          simp (alive, old) (distinct_ends_complete seen es t (later_ends seen e es t (inr ne) h))
      | inr new ↦
          simp (alive, new)
            (elim (Bool-cases (text_eq t (end e))) [
              | inl q ↦ inl ((text_eq_iff t (end e)).0 q)
              | inr q ↦
                  let ne : t ≢ end e = λ p. cc (q, (text_eq_iff t (end e)).1 p) in
                  let (n, x, i, live, at) = later_ends seen e es t (inr ne) h in
                  let unseen : ¬ In t (add (end e) seen) =
                    λ j. elim ((In-add_iff (end e) t seen).0 j) [ inl a ↦ n a | inr b ↦ ne b ] in
                  inr (distinct_ends_complete (add (end e) seen) es t (unseen, x, i, live, at))
            ])
    ]
  ]

  In-distinct_ends_iff :
      (es : List Edge) (t : Text)
      → In t (sort text_lt (distinct_ends end [] es))
        ↔ ((e : Edge) × In e es × (e.tombstone ≡ false) × (end e ≡ t))
  In-distinct_ends_iff es t =
      let sorted = In-sort_iff text_lt t (distinct_ends end [] es) in
      (
        (λ i.
            let (_, x, j, live, at) = distinct_ends_sound [] es t (sorted.0 i) in (x, j, live, at)),
        (λ h. sorted.1 (distinct_ends_complete [] es t ((λ never. never), h.0, h.1, h.2, h.3))),
      )

module _ (g : ServiceGraph) (w : IsWellFormed g) where
  -- In a well-formed graph the neighbors of a service are exactly the services that an edge leads
  -- to from it.
  pub neighbors-Connects_iff : (a b : Text) → In b (neighbors g a) ↔ Connects g a b
  unfolding neighbors
  neighbors-Connects_iff a b =
      let ends = In-distinct_ends_iff (λ e. e.to) (g.edges.at a) b in
      (
        (λ i.
            let (x, j, _, at) = ends.0 i in
            let from = w.keyed a x j in
            (x, subst (λ k. In x (g.edges.at k)) (sym from) j, from, at)),
        (λ c.
            let (x, h, f, t) = c in
            ends.1 (x, subst (λ k. In x (g.edges.at k)) f h, w.live x h, t)),
      )

  -- In a well-formed graph the upstream callers of a service are exactly the services that it is a
  -- neighbor of.
  pub upstream_callers-neighbors_iff :
      (a b : Text) → In a (upstream_callers g b) ↔ In b (neighbors g a)
  unfolding upstream_callers
  upstream_callers-neighbors_iff a b =
      let ends = In-distinct_ends_iff (λ e. e.from) (g.reverse.at b) a in
      let fwd = neighbors-Connects_iff a b in
      (
        (λ i.
            let (x, j, _, at) = ends.0 i in
            let (to, h) = (w.mirrored b x).0 j in fwd.1 (x, h, at, to)),
        (λ i. let (x, h, f, t) = fwd.0 i in ends.1 (x, (w.mirrored b x).1 (t, h), w.live x h, f)),
      )
