-- ===== src/Topology/Declared.antt =====
-- The static discoverer of pkg/topology/discover_static.go finds what the configuration declares.
use diverge.Base.{
  List, [], ◌∷◌, ◌≡◌, refl, sym, ap, ◌∙◌, inl, inr, ◌⊎◌, ◌↔◌, Text, In, Bool-cases, subst,
  if◌then◌else◌,
}
use diverge.Topology.Graph.{
  Edge, ServiceGraph, new_service_graph, add_node, add_entrypoint, add_edge,
}
use diverge.Topology.Invariant.{IsWellFormed, new_service_graph-IsWellFormed, Holds-add_edge_iff}
use diverge.Topology.Preserved.{
  add_edge-IsWellFormed, add_node-IsWellFormed, add_entrypoint-IsWellFormed,
}
use diverge.Topology.Union.{Connects}
use diverge.Topology.Discover.{
  StaticServiceConfig, static_edge, add_dependencies, static_services, static_discover,
}

-- A service of the configuration with a dependency.
abbrev pub Declares : List (Text × StaticServiceConfig) → Text → Text → Type 0
Declares services a b =
    (config : StaticServiceConfig) × In (a, config) services × In b config.depends_on

Connects-static_edge_iff :
    (svc dep : Text) (g : ServiceGraph) (a b : Text)
    → Connects (add_edge (static_edge svc dep) g) a b ↔ (Connects g a b ⊎ ((a ≡ svc) × (b ≡ dep)))
Connects-static_edge_iff svc dep g a b = (
  (λ c.
      let (x, h, f, t) = c in
      elim ((Holds-add_edge_iff (static_edge svc dep) x g).0 h) [
        | inl old ↦ inl (x, old, f, t)
        | inr (_, new) ↦
            inr (sym f ∙ ap (λ (y : Edge). y.from) new, sym t ∙ ap (λ (y : Edge). y.to) new)
      ]),
  (λ c. elim c [
    | inl (x, h, f, t) ↦ (x, (Holds-add_edge_iff (static_edge svc dep) x g).1 (inl h), f, t)
    | inr (from, to) ↦ (
      static_edge svc dep,
      (Holds-add_edge_iff (static_edge svc dep) (static_edge svc dep) g).1 (inr (refl, refl)),
      sym from,
      sym to,
    )
  ]),
)

-- Adding edges of one service keeps a graph well-formed and adds just these connections.
abbrev Adds : ServiceGraph → ServiceGraph → (Text → Text → Type 0) → Type 0
Adds g h New = IsWellFormed h × ((a b : Text) → Connects h a b ↔ (Connects g a b ⊎ New a b))

add_dependencies-Adds :
    (svc : Text) (deps : List Text) (g : ServiceGraph)
    → IsWellFormed g
    → Adds g (add_dependencies svc deps g) (λ a b. (a ≡ svc) × In b deps)
unfolding add_dependencies
add_dependencies-Adds svc [] g w =
    (w, (λ a b. ((λ c. inl c), (λ c. elim c [ inl old ↦ old | inr (_, i) ↦ elim i [ ] ]))))
add_dependencies-Adds svc (dep ∷ deps) g w =
    let (still, rest) =
      add_dependencies-Adds svc deps (add_edge (static_edge svc dep) g)
        (add_edge-IsWellFormed (static_edge svc dep) g w) in
    (
      still,
      (λ a b.
          let one = Connects-static_edge_iff svc dep g a b in
          (
            (λ c. elim ((rest a b).0 c) [
              | inr (f, i) ↦ inr (f, inr i)
              | inl m ↦ elim (one.0 m) [ inl old ↦ inl old | inr (f, t) ↦ inr (f, inl t) ]
            ]),
            (λ c. (rest a b).1 (elim c [
              | inl old ↦ inl (one.1 (inl old))
              | inr (f, inl t) ↦ inl (one.1 (inr (f, t)))
              | inr (f, inr i) ↦ inr (f, i)
            ])),
          )),
    )

-- Registering a service adds no edge.
registered :
    (svc : Text) (config : StaticServiceConfig) (g : ServiceGraph)
    → IsWellFormed g
    → Adds g
        (if config.entrypoint then add_entrypoint svc (add_node svc g) else add_node svc g)
        (λ a b. ⊥)
unfolding add_node add_entrypoint
registered svc config g w = elim (Bool-cases config.entrypoint) [
  | inl entry ↦ rw entry (
    add_entrypoint-IsWellFormed svc _ (add_node-IsWellFormed svc g w),
    (λ a b. ((λ c. inl c), (λ c. elim c [ inl old ↦ old | inr never ↦ absurd never ]))),
  )
  | inr other ↦ rw other (
    add_node-IsWellFormed svc g w,
    (λ a b. ((λ c. inl c), (λ c. elim c [ inl old ↦ old | inr never ↦ absurd never ]))),
  )
]

static_services-Adds :
    (services : List (Text × StaticServiceConfig)) (g : ServiceGraph)
    → IsWellFormed g
    → Adds g (static_services services g) (Declares services)
unfolding static_services
static_services-Adds [] g w =
    (w, (λ a b. ((λ c. inl c), (λ c. elim c [ inl old ↦ old | inr (_, i, _) ↦ elim i [ ] ]))))
static_services-Adds ((svc, config) ∷ services) g w =
    let (w1, node) = registered svc config g w in
    let (w2, deps) = add_dependencies-Adds svc config.depends_on _ w1 in
    let (w3, rest) = static_services-Adds services _ w2 in
    (
      w3,
      (λ a b. (
        (λ c. elim ((rest a b).0 c) [
          | inr (k, i, d) ↦ inr (k, inr i, d)
          | inl m ↦ elim ((deps a b).0 m) [
            | inr (f, i) ↦ inr (config, inl (ap (λ n. (n, config)) f), i)
            | inl n ↦ elim ((node a b).0 n) [ inl old ↦ inl old | inr never ↦ absurd never ]
          ]
        ]),
        (λ c. (rest a b).1 (elim c [
          | inl old ↦ inl ((deps a b).1 (inl ((node a b).1 (inl old))))
          | inr (k, inr i, d) ↦ inr (k, i, d)
          | inr (k, inl same, d) ↦ inl (
              (deps a b).1 (
                inr (
                  ap (λ p. p.0) same,
                  subst (λ (p : Text × StaticServiceConfig). In b p.1.depends_on) same d,
                )))
        ])),
      )),
    )

-- The graph of StaticDiscoverer is well-formed and connects two services exactly if the
-- configuration of the first lists the second as a dependency.
pub static_discover-Connects_iff :
    (services : List (Text × StaticServiceConfig))
    → IsWellFormed (static_discover services)
      × ((a b : Text) → Connects (static_discover services) a b ↔ Declares services a b)
unfolding static_discover
static_discover-Connects_iff services =
    let (w, adds) =
      static_services-Adds services new_service_graph new_service_graph-IsWellFormed in
    (
      w,
      (λ a b. (
        (λ c. elim ((adds a b).0 c) [ inl (x, h, _, _) ↦ elim h [ ] | inr d ↦ d ]),
        (λ d. (adds a b).1 (inr d)),
      )),
    )
