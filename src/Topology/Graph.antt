-- ===== src/Topology/Graph.antt =====
-- ServiceGraph of pkg/topology/graph.go and its operations.
use diverge.Base.{Bool, not, ◌&&◌, List, [], ◌∷◌, ◌++◌, Text, text_eq, if◌then◌else◌, keep}
use diverge.Topology.Sets.{has, add, text_lt, sort}

pub record Edge : Type 0 where
  pub from : Text
  pub to : Text
  pub protocol : Text
  pub source : Text
  pub tombstone : Bool

-- map[string][]Edge: the keys in the order of a range loop, and the list under each key.
pub record Adjacency : Type 0 where
  pub keys : List Text
  pub at : Text → List Edge

pub record ServiceGraph : Type 0 where
  pub edges : Adjacency
  pub reverse : Adjacency
  pub entrypoints : List Text
  pub nodes : List Text

abbrev pub empty_adjacency : Adjacency
empty_adjacency = record { keys = []; at = λ k. [] }

-- NewServiceGraph
abbrev pub new_service_graph : ServiceGraph
new_service_graph = record {
  edges = empty_adjacency;
  reverse = empty_adjacency;
  entrypoints = [];
  nodes = [];
}

-- `m[k] = append(m[k], e)`
unfoldable pub append_edge : Text → Edge → Adjacency → Adjacency
append_edge k e m = record {
  keys = add k m.keys;
  at = λ j. if text_eq j k then m.at j ++ e ∷ [] else m.at j;
}

unfoldable pub add_edge : Edge → ServiceGraph → ServiceGraph
unfolding append_edge
add_edge e g =
    let g' = record g { nodes = add e.to (add e.from g.nodes) } in
    if e.tombstone
    then g'
    else record g' { edges = append_edge e.from e g.edges; reverse = append_edge e.to e g.reverse }

unfoldable pub add_node : Text → ServiceGraph → ServiceGraph
add_node service g = record g { nodes = add service g.nodes }

unfoldable pub add_entrypoint : Text → ServiceGraph → ServiceGraph
add_entrypoint service g = record g {
  entrypoints = add service g.entrypoints;
  nodes = add service g.nodes;
}

-- `for _, es := range m { for _, e := range es { … } }`
unfoldable pub range_edges : List Text → (Text → List Edge) → List Edge
range_edges [] at = []
range_edges (k ∷ ks) at = at k ++ range_edges ks at

unfoldable pub edge_less : Edge → Edge → Bool
edge_less a b = if text_eq a.from b.from then text_lt a.to b.to else text_lt a.from b.from

abbrev pub is_live : Edge → Bool
is_live e = not e.tombstone

unfoldable pub all_edges : ServiceGraph → List Edge
unfolding range_edges edge_less
all_edges g = sort edge_less (keep is_live (range_edges g.edges.keys g.edges.at))

unfoldable pub entrypoint_names : ServiceGraph → List Text
entrypoint_names g = sort text_lt g.entrypoints

unfoldable pub services : ServiceGraph → List Text
services g = sort text_lt g.nodes

-- The loop of Neighbors and UpstreamCallers: the other ends of the live edges, each once.
unfoldable pub distinct_ends : (Edge → Text) → List Text → List Edge → List Text
distinct_ends end seen [] = []
distinct_ends end seen (e ∷ es) =
    let fresh = end e ∷ distinct_ends end (add (end e) seen) es in
    let skip = distinct_ends end seen es in
    if e.tombstone then skip else if has seen (end e) then skip else fresh

unfoldable pub neighbors : ServiceGraph → Text → List Text
unfolding distinct_ends
neighbors g service = sort text_lt (distinct_ends (λ e. e.to) [] (g.edges.at service))

unfoldable pub upstream_callers : ServiceGraph → Text → List Text
unfolding distinct_ends
upstream_callers g service = sort text_lt (distinct_ends (λ e. e.from) [] (g.reverse.at service))

-- `e.From + "->" + e.To`
unfoldable pub edge_key : Edge → Text
edge_key e = e.from ++ b'-' ∷ b'>' ∷ e.to

-- The keys of the tombstone edges that a graph holds.
unfoldable pub tombstone_keys : List Text → List Edge → List Text
tombstone_keys out [] = out
tombstone_keys out (e ∷ es) = tombstone_keys (if e.tombstone then add (edge_key e) out else out) es

-- The loops of Merge that add edges: the keys seen so far, and the merged graph.
unfoldable pub merge_edges :
    List Text → List Edge → List Text → ServiceGraph → List Text × ServiceGraph
unfolding edge_key
merge_edges tombstones [] seen merged = (seen, merged)
merge_edges tombstones (e ∷ es) seen merged =
    let key = edge_key e in
    let take = merge_edges tombstones es (add key seen) (add_edge e merged) in
    let skip = merge_edges tombstones es seen merged in
    if not e.tombstone && not (has tombstones key) && not (has seen key) then take else skip

unfoldable pub add_entrypoints : List Text → ServiceGraph → ServiceGraph
add_entrypoints [] g = g
add_entrypoints (ep ∷ eps) g = add_entrypoints eps (add_entrypoint ep g)

unfoldable pub add_nodes : List Text → ServiceGraph → ServiceGraph
add_nodes [] g = g
add_nodes (n ∷ ns) g = add_nodes ns (add_node n g)

unfoldable pub merge : ServiceGraph → ServiceGraph → ServiceGraph
unfolding merge_edges tombstone_keys add_entrypoints add_nodes
merge g other =
    let theirs = range_edges other.edges.keys other.edges.at in
    let tombstones = tombstone_keys [] theirs in
    let (seen, mine) = merge_edges tombstones (all_edges g) [] new_service_graph in
    let (_, both) = merge_edges tombstones theirs seen mine in
    add_nodes other.nodes
      (add_nodes g.nodes (add_entrypoints other.entrypoints (add_entrypoints g.entrypoints both)))

-- The loops of Subgraph.
unfoldable pub keep_nodes : List Text → List Text → ServiceGraph → ServiceGraph
keep_nodes nodes [] sub = sub
keep_nodes nodes (s ∷ ss) sub = keep_nodes nodes ss (if has nodes s then add_node s sub else sub)

unfoldable pub keep_edges : List Text → List Edge → ServiceGraph → ServiceGraph
keep_edges svcs [] sub = sub
keep_edges svcs (e ∷ es) sub =
    keep_edges svcs es (if has svcs e.from && has svcs e.to then add_edge e sub else sub)

unfoldable pub keep_entrypoints : List Text → List Text → ServiceGraph → ServiceGraph
keep_entrypoints svcs [] sub = sub
keep_entrypoints svcs (ep ∷ eps) sub =
    keep_entrypoints svcs eps (if has svcs ep then add_entrypoint ep sub else sub)

unfoldable pub subgraph : ServiceGraph → List Text → ServiceGraph
unfolding keep_nodes keep_edges keep_entrypoints
subgraph g svcs =
    keep_entrypoints svcs g.entrypoints
      (keep_edges svcs (all_edges g) (keep_nodes g.nodes svcs new_service_graph))
