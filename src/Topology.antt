-- ===== src/Topology.antt =====
-- utils/topology/rocketfuel-map-reader.cpp: the graph that the reader builds, the types of its
-- vertices, its components and its links; annotated-topology-reader.cpp beside it.
pub mod Graph
pub mod Classes
pub mod Components
pub mod Lines
pub mod Annotated
pub mod Read
