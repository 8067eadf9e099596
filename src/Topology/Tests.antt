-- ===== src/Topology/Tests.antt =====
-- A small graph of pkg/topology/graph.go, and the theorems on it.
use diverge.Base.{
  true, List, [], ◌∷◌, ok, err, subst, ◌≡◌, refl, ◌⊎◌, ◌↔◌, inl, inr, arith, Text, codes, false,
  All, In, Lacks, text_eq, any, keep, length, ◌≤◌,
}
use diverge.Topology.Sets.{add, has, sort, insert, text_lt}
use diverge.Topology.Graph.{
  Edge, ServiceGraph, new_service_graph, append_edge, add_edge, add_node, add_entrypoint,
  range_edges, all_edges, entrypoint_names, distinct_ends, merge, neighbors, services,
  upstream_callers,
}
use diverge.Topology.Invariant.{
  Holds, IsWellFormed, new_service_graph-IsWellFormed, Holds-add_edge_iff,
}
use diverge.Topology.Preserved.{add_edge-IsWellFormed, add_entrypoint-IsWellFormed}
use diverge.Topology.Union.{
  Connects, NamesFit, merge-IsWellFormed, merge_prefers_first, Connects-merge_iff,
  services-merge_iff,
}
use diverge.Topology.Neighbors.{neighbors-Connects_iff, upstream_callers-neighbors_iff}
use diverge.Topology.Paths.{IsRoute, all_ingress_paths, from_entrypoints, dfs, visit_each}
use diverge.Topology.Discover.{
  GraphDiscoverer, composite_discover, StaticServiceConfig, static_discover,
}
use diverge.Topology.Discovered.{IsSound, AnswersSoundly, AnyFinds, composite_discover-Connects_iff}
use diverge.Topology.Declared.{Declares, static_discover-Connects_iff}
use diverge.Topology.Complete.{all_ingress_paths_iff}
use diverge.Topology.Ingress.{all_ingress_paths_sound}

abbrev edge : Text → Text → Text → Edge
edge from to source = record {
  from = from;
  to = to;
  protocol = codes "http";
  source = source;
  tombstone = false;
}

abbrev web_api : Edge
web_api = edge (codes "web") (codes "api") (codes "crd")

abbrev api_db : Edge
api_db = edge (codes "api") (codes "db") (codes "crd")

abbrev web_api_traced : Edge
web_api_traced = edge (codes "web") (codes "api") (codes "trace")

abbrev entry_graph : ServiceGraph
entry_graph = add_entrypoint (codes "web") (add_edge web_api new_service_graph)

abbrev data_graph : ServiceGraph
data_graph = add_edge api_db (add_edge web_api_traced new_service_graph)

one_edge-IsWellFormed : IsWellFormed (add_edge web_api new_service_graph)
one_edge-IsWellFormed =
    add_edge-IsWellFormed web_api new_service_graph new_service_graph-IsWellFormed

entry-IsWellFormed : IsWellFormed entry_graph
entry-IsWellFormed = add_entrypoint-IsWellFormed (codes "web") _ one_edge-IsWellFormed

traced-IsWellFormed : IsWellFormed (add_edge web_api_traced new_service_graph)
traced-IsWellFormed =
    add_edge-IsWellFormed web_api_traced new_service_graph new_service_graph-IsWellFormed

data-IsWellFormed : IsWellFormed data_graph
data-IsWellFormed = add_edge-IsWellFormed api_db _ traced-IsWellFormed

NamesFit-add_edge :
    (e : Edge) (g : ServiceGraph) → Lacks b'>' e.from → NamesFit g → NamesFit (add_edge e g)
NamesFit-add_edge e g lacks fit x h = elim ((Holds-add_edge_iff e x g).0 h) [
  | inl old ↦ fit x old
  | inr (_, new) ↦ rw new lacks
]

empty-NamesFit : NamesFit new_service_graph
empty-NamesFit x h = absurd h

entry-NamesFit : NamesFit entry_graph
unfolding add_entrypoint
entry-NamesFit = NamesFit-add_edge web_api new_service_graph (ground arith) empty-NamesFit

data-NamesFit : NamesFit data_graph
data-NamesFit =
    NamesFit-add_edge api_db _ (ground arith)
      (NamesFit-add_edge web_api_traced new_service_graph (ground arith) empty-NamesFit)

merged_edge : Holds (merge entry_graph data_graph) web_api
unfolding merge add_edge add has any text_eq add_node add_entrypoint range_edges all_edges sort keep
merged_edge = inl refl

entry_edge : Holds entry_graph web_api
unfolding add_entrypoint add_edge append_edge text_eq
entry_edge = inl refl

Connects-merge_iff_example : Connects (merge entry_graph data_graph) (codes "api") (codes "db") ↔ (
    Connects entry_graph (codes "api") (codes "db")
    ⊎ Connects data_graph (codes "api") (codes "db"))
Connects-merge_iff_example =
    Connects-merge_iff entry_graph data_graph entry-IsWellFormed data-IsWellFormed entry-NamesFit
      data-NamesFit (codes "api") (codes "db")

merge_prefers_first_example : Holds entry_graph web_api
merge_prefers_first_example =
    merge_prefers_first entry_graph data_graph entry-IsWellFormed data-IsWellFormed web_api web_api
      merged_edge entry_edge refl refl

merge-IsWellFormed_example : IsWellFormed (merge entry_graph data_graph)
merge-IsWellFormed_example =
    merge-IsWellFormed entry_graph data_graph entry-IsWellFormed data-IsWellFormed

services-merge_iff_example :
    In (codes "db") (services (merge entry_graph data_graph))
    ↔ (In (codes "db") (services entry_graph) ⊎ In (codes "db") (services data_graph))
services-merge_iff_example =
    services-merge_iff entry_graph data_graph entry-IsWellFormed data-IsWellFormed (codes "db")

add_edge-IsWellFormed_example : IsWellFormed (add_edge web_api entry_graph)
add_edge-IsWellFormed_example = add_edge-IsWellFormed web_api entry_graph entry-IsWellFormed

Holds-add_edge_iff_example :
    Holds (add_edge web_api new_service_graph) web_api
    ↔ (Holds new_service_graph web_api ⊎ ((web_api.tombstone ≡ false) × (web_api ≡ web_api)))
Holds-add_edge_iff_example = Holds-add_edge_iff web_api web_api new_service_graph

neighbors-Connects_iff_example :
    In (codes "api") (neighbors entry_graph (codes "web"))
    ↔ Connects entry_graph (codes "web") (codes "api")
neighbors-Connects_iff_example =
    neighbors-Connects_iff entry_graph entry-IsWellFormed (codes "web") (codes "api")

upstream_callers-neighbors_iff_example :
    In (codes "web") (upstream_callers entry_graph (codes "api"))
    ↔ In (codes "api") (neighbors entry_graph (codes "web"))
upstream_callers-neighbors_iff_example =
    upstream_callers-neighbors_iff entry_graph entry-IsWellFormed (codes "web") (codes "api")

all_ingress_paths_sound_example :
    All (IsRoute entry_graph (codes "api")) (all_ingress_paths entry_graph (codes "api"))
    × (length (all_ingress_paths entry_graph (codes "api")) ≤ 100)
all_ingress_paths_sound_example = all_ingress_paths_sound entry_graph (codes "api")

one_path :
    all_ingress_paths entry_graph (codes "api")
    ≡ record { entrypoint = codes "web"; hops = codes "web" ∷ codes "api" ∷ [] } ∷ []
unfolding all_ingress_paths from_entrypoints entrypoint_names dfs visit_each neighbors distinct_ends
    insert text_lt add_entrypoint add_edge append_edge add has any text_eq sort
one_path = refl

all_ingress_paths_iff_example :
    In
      (record { entrypoint = codes "web"; hops = codes "web" ∷ codes "api" ∷ [] })
      (all_ingress_paths entry_graph (codes "api"))
    ↔ IsRoute entry_graph
        (codes "api")
        (record { entrypoint = codes "web"; hops = codes "web" ∷ codes "api" ∷ [] })
all_ingress_paths_iff_example =
    all_ingress_paths_iff entry_graph (codes "api") entry-IsWellFormed _
      (rw one_path (ground arith))

abbrev discoverers : List GraphDiscoverer
discoverers =
    record { name = codes "static"; discover = λ namespaces. ok entry_graph }
    ∷ record { name = codes "prometheus"; discover = λ namespaces. err (codes "no route") }
    ∷ []

discoverers-AnswerSoundly : All (AnswersSoundly []) discoverers
discoverers-AnswerSoundly = (
  (λ g q.
      let same : entry_graph ≡ g = cc q in subst IsSound same (entry-IsWellFormed, entry-NamesFit)),
  ((λ g q. absurd (cc q)), tt),
)

composite_discover-Connects_iff_example :
    IsSound (composite_discover discoverers []).1
    × ((a b : Text)
        → Connects (composite_discover discoverers []).1 a b ↔ AnyFinds [] a b discoverers)
composite_discover-Connects_iff_example =
    composite_discover-Connects_iff [] discoverers discoverers-AnswerSoundly

abbrev declared : List (Text × StaticServiceConfig)
declared =
    (codes "web", record { depends_on = codes "api" ∷ codes "db" ∷ []; entrypoint = true }) ∷ []

static_discover-Connects_iff_example :
    IsWellFormed (static_discover declared)
    × ((a b : Text) → Connects (static_discover declared) a b ↔ Declares declared a b)
static_discover-Connects_iff_example = static_discover-Connects_iff declared
