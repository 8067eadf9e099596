-- ===== src/Topology.antt =====
-- pkg/topology/graph.go: the graph of service dependencies.
pub mod Sets
pub mod Graph
pub mod Invariant
pub mod Preserved
pub mod Keys
pub mod Merge
pub mod Extends
pub mod Union
pub mod Neighbors
pub mod Paths
pub mod Ingress
pub mod Trails
pub mod Complete
pub mod Discover
pub mod Discovered
pub mod Declared
mod Tests
