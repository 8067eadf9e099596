-- ===== src/Topology/Discover.antt =====
-- The discoverers of pkg/topology/discover.go and pkg/topology/discover_static.go.
-- A discoverer is a record of operations that CompositeDiscoverer calls; loggers and the mutex
-- around lastSource are left out.
use diverge.Base.{
  Bool, false, List, [], ◌∷◌, ◌++◌, Text, codes, join, if◌then◌else◌, Result, ok, err,
}
use diverge.Topology.Graph.{
  Edge, ServiceGraph, new_service_graph, add_node, add_entrypoint, add_edge, merge,
}

-- GraphDiscoverer, with error values as texts.
pub record GraphDiscoverer : Type 0 where
  pub name : Text
  pub discover : List Text → Result Text ServiceGraph

-- The loop over the discoverers: the names of those that answered, and the merged graph.
unfoldable pub discover_each :
    List GraphDiscoverer → List Text → List Text → ServiceGraph → List Text × ServiceGraph
discover_each [] namespaces sources combined = (sources, combined)
discover_each (d ∷ ds) namespaces sources combined = elim (d.discover namespaces) [
  | err e ↦ discover_each ds namespaces sources combined
  | ok graph ↦ discover_each ds namespaces (sources ++ d.name ∷ []) (merge combined graph)
]

-- CompositeDiscoverer.Discover: the new lastSource, and the graph.
unfoldable pub composite_discover : List GraphDiscoverer → List Text → Text × ServiceGraph
unfolding discover_each
composite_discover discoverers namespaces =
    let (sources, combined) = discover_each discoverers namespaces [] new_service_graph in
    (join b'+' sources, combined)

pub record StaticServiceConfig : Type 0 where
  pub depends_on : List Text
  pub entrypoint : Bool

-- A dependency of the configuration file.
abbrev pub static_edge : Text → Text → Edge
static_edge svc dep = record {
  from = svc;
  to = dep;
  protocol = [];
  source = codes "static";
  tombstone = false;
}

unfoldable pub add_dependencies : Text → List Text → ServiceGraph → ServiceGraph
add_dependencies svc [] graph = graph
add_dependencies svc (dep ∷ deps) graph =
    add_dependencies svc deps (add_edge (static_edge svc dep) graph)

-- The loop of StaticDiscoverer.Discover over the map of services, in some order.
unfoldable pub static_services : List (Text × StaticServiceConfig) → ServiceGraph → ServiceGraph
unfolding add_dependencies
static_services [] graph = graph
static_services ((svc, config) ∷ services) graph =
    let graph' = add_node svc graph in
    let graph'' = if config.entrypoint then add_entrypoint svc graph' else graph' in
    static_services services (add_dependencies svc config.depends_on graph'')

unfoldable pub static_discover : List (Text × StaticServiceConfig) → ServiceGraph
unfolding static_services
static_discover services = static_services services new_service_graph

-- StaticDiscoverer as a GraphDiscoverer.
unfoldable pub static_discoverer : List (Text × StaticServiceConfig) → GraphDiscoverer
unfolding static_discover
static_discoverer services = record {
  name = codes "static";
  discover = λ namespaces. ok (static_discover services);
}
