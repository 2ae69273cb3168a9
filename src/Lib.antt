-- ===== src/Lib.antt =====
-- ndnSIM: a simulator of Named Data Networking on top of NS-3. This library models the parts of it
-- that hold logic of their own.
--
-- The LFID routing helper (helper/lfid) computes routes of the nodes of a topology, stores them in
-- an abstract FIB for each node, and then takes out the upward nexthops that may loop or lead to a
-- dead end.
--   Prelude/           shared types, results with errors, ordered sets, maps, whole numbers
--   Lfid/NextHop       helper/lfid/fib-nexthop.hpp and .cpp: FibNextHop, its checks and its order
--   Lfid/Fib           helper/lfid/abstract-fib.hpp and .cpp: AbstractFib with insert, erase,
--                      getNexthops, getUpwardNexthops and checkFib. Child modules: the lemmas on one
--                      write (Sets), the invariant (Invariant), Insertion, Erasure, the lookups
--                      (Queries) and what checkFib accepts (Consistency)
--   Lfid/AllNodes      the FIBs of all nodes, and histories of erasures: the downward nexthops (Downward),
--                      one erasure (Removal) and the maps and sets (Shape) over them
--   Lfid/Graph         what removeLoops uses of the Boost Graph Library, a parameter
--   Lfid/Loops         helper/lfid/remove-loops.cpp: getDigraphFromFib, NodePrio and removeLoops, with
--                      the termination of its loop (Termination), whole runs (Run), the nexthops in its
--                      queue (Pending), the removals that it counts (Counted) and their number (Total)
--   Lfid/DeadEnds      helper/lfid/remove-loops.cpp: removeDeadEnds. The set of pairs when it is filled
--                      (Collect), after a removal (Pushes, Loop), to the end of its loop (Drain), and
--                      for all destinations (Cleaned)
-- The routing helpers (helper) compute the routes of all nodes over the links of their routers, and
-- send them to the forwarders. The LFID helper fills the abstract FIBs, has them pruned as above, and
-- sends what is left.
--   Routing/Network    model/ndn-global-router.hpp and .cpp: GlobalRouter; the nodes, faces and routers
--   Routing/Origins    helper/ndn-global-routing-helper.cpp: AddOrigin, AddOrigins, AddOriginsForAll
--   Routing/Install    helper/ndn-global-routing-helper.cpp: Install and InstallAll, with the links of a
--                      node or channel (Described), what the calls leave of the routers (Grown), the
--                      links of one router (Linked) and whole runs (Whole)
--   Routing/Weights    helper/boost-graph-ndn-global-routing-helper.hpp: the weights of links and paths
--   Routing/Routes     helper/ndn-global-routing-helper.cpp: CalculateRoutes, with the paths of its routes
--                      (Reach); helper/ndn-fib-helper.cpp: AddRoute for a face
--   Routing/AllRoutes  helper/ndn-global-routing-helper.cpp: CalculateAllPossibleRoutes; what it remembers
--                      (Restored), its rounds (Rounds) and whole runs (Metrics),
--                      and the faces that are disabled (CutOff) and enabled (Enabled) when a route is added
--   Routing/Links      helper/ndn-fib-helper.cpp: AddRoute and RemoveRoute for a node (add_route_to and
--                      remove_route_to), which agree (Undo), and their links (Found); the numbers of faces
--                      and the names of nodes (Named);
--                      model/ndn-l3-protocol.cpp: getFaceByNetDevice and getFaceById
--   Routing/FillFib    helper/lfid/ndn-global-routing-helper-lfid.cpp: step 4 of CalculateLfidRoutes
--   Routing/Lfid       helper/lfid/ndn-global-routing-helper-lfid.cpp: CalculateLfidRoutes, with the ends of
--                      its calls (Endings), the FIBs that it fills (Filled), the reset of the
--                      metrics of the links (Resets) and all steps (Pipeline)
-- The Rocketfuel reader (utils/topology) makes a topology of a map: it reads lines into a graph, gives
-- the vertices types by their degrees, connects the backbone, and creates routers and links.
--   Topology/Graph     the undirected graphs of Boost, a parameter, with walks and components
--   Topology/Lines     utils/topology/rocketfuel-map-reader.cpp: GenerateFromMapsFile; what it keeps (Valid)
--   Topology/Classes   the same file: assignGw (Gateways), AssignClients (Clients), and the types of all
--                      vertices (Types)
--   Topology/Components  the same file: KeepOnlyBiggestConnectedComponent (Sizes, Removal, Biggest) and
--                      ConnectBackboneRouters (Bridges, Backbone)
--   Topology/Read      the same file: Read, with its loops (Cleaning) and whole runs (Whole)
--   Topology/Annotated  utils/topology/annotated-topology-reader.cpp: the section of links of Read, and the
--                      links that it makes (Duplicates)
-- The estimator of round-trip times (utils) is what the applications take their timeouts from.
--   Rtt                utils/ndn-rtt-estimator.hpp and .cpp: the base class
--   Rtt/MeanDeviation  utils/ndn-rtt-mean-deviation.hpp and .cpp: RttMeanDeviation; the history of what
--                      was sent (History) and the timeout (Timeout) have their own modules
-- The applications (apps) request numbered data, and send again what times out. They read their
-- timeouts from the estimator; a subclass of the consumer decides when the next packet is due.
--   Apps/Platform      doubles, containers of Boost and names of ndn-cxx, the parameters of what follows;
--                      Apps/Timeouts and Apps/Names hold the last two
--   Apps/Consumer      apps/ndn-consumer.hpp and .cpp: Consumer, with whole runs (Tracking), the check of
--                      the timeouts (Retransmission) and replies (Replies)
--   Apps/Window        apps/ndn-consumer-window.hpp and .cpp: ConsumerWindow, with its Limits
--   Apps/Batches       apps/ndn-consumer-batches.hpp and .cpp: ConsumerBatches
--   Apps/Cbr           apps/ndn-consumer-cbr.hpp and .cpp: ConsumerCbr
--   Apps/Zipf          apps/ndn-consumer-zipf-mandelbrot.hpp and .cpp: ConsumerZipfMandelbrot, with the
--                      table and the search (Tables)
--   Apps/Pcon          apps/ndn-consumer-pcon.hpp and .cpp: ConsumerPcon, with its Handlers and Decrease
-- The tracers (utils/tracers) count what happens on a node, and print it after each period.
--   Tracers/L3Rate     utils/tracers/ndn-l3-rate-tracer.hpp and .cpp, ndn-l3-tracer.hpp: L3RateTracer, with
--                      the counters over whole runs (Counts), Print (Printing) and the descriptions of
--                      the faces (Infos)
--   Tests/             runs on small inputs
--
-- A std::set is a list in rising order, a map an association list, a priority queue the list of its
-- elements with a search for the greatest. A call that stops or throws returns an error. A time is
-- a whole number of nanoseconds. An event of the simulator is the time at which it is due. Doubles,
-- sequence numbers that wrap, Boost's containers, graphs and search for shortest paths, std::pow,
-- and the names of ndn-cxx are parameters, with their documented behaviour as laws. The loop over
-- the priority queue has as fuel the number of upward nexthops that the queue holds, which falls in
-- every round; that over the pairs of removeDeadEnds has n * (n + 1) for the n entries of all FIBs,
-- and the size of its set. assignGw has the number of vertices, each of which gets a type once.
-- CheckRetxTimeout has the size of its container, from which each round takes an entry. Install has
-- as the bound of its depth the number of nodes and channels, and one: each deeper call has given
-- one of them a router.
--
-- Not modelled: NFD and ndn-cxx, which are submodules; the helpers that only configure NS-3 nodes;
-- the network stack but for its searches of a face; the trace-driven consumers; the other tracers and
-- the layout of the text that tracers print; the other readers of topology files; the bindings.
pub mod Prelude
pub mod Lfid
pub mod Rtt
pub mod Apps
pub mod Routing
pub mod Tracers
pub mod Topology
pub mod Tests
