-- ===== src/Tests.antt =====
-- Runs of the model on small inputs, in a module for each part of the program. The libraries that
-- the model takes as parameters are instantiated by small implementations.
mod Graphs
mod Paths
mod Simulations
mod Containers
mod Apps
mod Lfid
mod Loops
mod Routing
mod Tracers
mod Undirected
mod Topology
mod LinkSection
mod Rtt
