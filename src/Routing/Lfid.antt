-- ===== src/Routing/Lfid.antt =====
-- helper/lfid/ndn-global-routing-helper-lfid.cpp, CalculateLfidRoutes. For each node the metrics of
-- its faces are set to infinity while the shortest paths of its neighbours are computed; what these
-- give fills its abstract FIB. The loops over maps go in the order of the lists. A node without a
-- router is skipped: there the source has already read through the null pointer.
pub mod Endings
pub mod Filled
pub mod Pipeline
pub mod Resets
use ndn_sim.Prelude.{
  ℕ, ◌+◌, ◌^◌, ◌%◌, ◌≡◌, Bool, true, false, not, ◌&&◌, List, [], ◌∷◌, ◌++◌, length, Option, none,
  some, arith, ltb, leb, ◌==◌, if◌then◌else◌, Result, ok, err, abort, out_of_range, ◌>>=◌, ◌>>◌,
  guard, or_fail,
}
use ndn_sim.Prelude.AssocMap
use ndn_sim.Prelude.AssocMap.{lookup}
use ndn_sim.Lfid.NextHop.{FibNextHop}
use ndn_sim.Lfid.Fib.{AbstractFib, abstract_fib, check_fib}
use ndn_sim.Lfid.AllNodes.{AllNodeFib}
use ndn_sim.Lfid.Graph.{GraphLibrary}
use ndn_sim.Lfid.Loops.{remove_loops}
use ndn_sim.Lfid.DeadEnds.{remove_dead_ends}
use ndn_sim.Routing.Network.{Face, Incidency, GlobalRouter, Node, Network}
use ndn_sim.Routing.Weights.{Weight, inf_cost}
use ndn_sim.Routing.Routes.{ShortestPaths, Command, add_route, add_prefixes}
use ndn_sim.Routing.AllRoutes.{set_metric}
use ndn_sim.Routing.FillFib.{fill_fib, node_of}

-- `originalMetrics` and `faceMap` of a node, by the id of the neighbour.
pub record Saved : Type 0 where
  pub metrics : List (ℕ × ℕ)
  pub face_map : List (ℕ × ℕ)

-- Step 1: the links to the neighbours get the metric WeightInf.
unfoldable pub cut_links :
    List (ℕ × GlobalRouter)
    → ℕ
    → List Incidency
    → Saved
    → List (ℕ × Face)
    → Result (Saved × List (ℕ × Face))
cut_links routers node_id [] saved faces = ok (saved, faces)
cut_links routers node_id (neighbor ∷ neighbors) saved faces = do
  nb_id ← node_of routers neighbor.other
  guard (not (nb_id == node_id)) abort
  id ← or_fail neighbor.face abort
  face ← or_fail (lookup id faces) abort
  cut_links routers node_id neighbors
      (record {
        metrics = AssocMap.insert nb_id face.metric saved.metrics;
        face_map = AssocMap.insert nb_id id saved.face_map;
      })
      (set_metric id inf_cost faces)

-- Step 2: the distances of the neighbours, by their ids. The map of a neighbour is filled again
-- where there are two links to it, with the same distances.
unfoldable pub neighbor_distances :
    ShortestPaths
    → List (ℕ × GlobalRouter)
    → List (ℕ × Face)
    → ℕ
    → ℕ
    → List Incidency
    → List (ℕ × List (ℕ × Weight))
    → Result (List (ℕ × List (ℕ × Weight)))
neighbor_distances sp routers faces node_id source [] sp_map = ok sp_map
neighbor_distances sp routers faces node_id source (neighbor ∷ neighbors) sp_map = do
  nb_id ← node_of routers neighbor.other
  guard (not (neighbor.other == source) && not (nb_id == node_id)) abort
  guard (neighbor.own == source) abort
  neighbor_distances sp routers faces node_id source neighbors
      (AssocMap.insert nb_id (sp.distances faces routers neighbor.other) sp_map)

-- Step 3: the metrics are reset.
unfoldable pub reset_links :
    List (ℕ × GlobalRouter)
    → ℕ
    → List (ℕ × ℕ)
    → List Incidency
    → List (ℕ × Face)
    → Result (List (ℕ × Face))
reset_links routers node_id metrics [] faces = ok faces
reset_links routers node_id metrics (neighbor ∷ neighbors) faces = do
  nb_id ← node_of routers neighbor.other
  guard (not (nb_id == node_id)) abort
  id ← or_fail neighbor.face abort
  face ← or_fail (lookup id faces) abort
  guard (face.metric == inf_cost) abort
  metric ← or_fail (lookup nb_id metrics) out_of_range
  reset_links routers node_id metrics neighbors (set_metric id metric faces)

-- Steps 1 to 3 of a node: the face of each neighbour, the distances of the neighbours, and the
-- faces after it.
unfoldable pub neighbor_paths :
    ShortestPaths
    → List (ℕ × GlobalRouter)
    → ℕ
    → ℕ
    → List Incidency
    → List (ℕ × Face)
    → Result (List (ℕ × ℕ) × (List (ℕ × List (ℕ × Weight)) × List (ℕ × Face)))
unfolding cut_links neighbor_distances reset_links
neighbor_paths sp routers node_id source neighbors faces = do
  (saved, cut) ← cut_links routers node_id neighbors (record { metrics = []; face_map = [] }) faces
  sp_map ← neighbor_distances sp routers cut node_id source neighbors []
  faces' ← reset_links routers node_id saved.metrics neighbors cut
  ok (saved.face_map, (sp_map, faces'))

-- Steps 1 to 4 of a node. `num_nodes` is NodeList::GetNNodes().
unfoldable pub node_fib :
    ShortestPaths
    → List (ℕ × GlobalRouter)
    → ℕ
    → Node
    → ℕ
    → GlobalRouter
    → List (ℕ × Face)
    → Result (AbstractFib × (List (ℕ × ℕ) × List (ℕ × Face)))
unfolding neighbor_paths fill_fib
node_fib sp routers num_nodes node source gr faces = do
  fib ← abstract_fib node.node_id node.name num_nodes (length gr.incidencies) source
  let dist_map = sp.distances faces routers source
  (face_map, (sp_map, faces')) ← neighbor_paths sp routers node.node_id source gr.incidencies faces
  fib' ← fill_fib routers source face_map sp_map faces' dist_map fib
  check_fib fib'
  ok (fib', (face_map, faces'))

-- `emplace` of a map: an entry that is there stays.
abbrev pub emplace : ℕ → AbstractFib → AllNodeFib → AllNodeFib
emplace id fib fibs = elim (lookup id fibs) [ none ↦ fibs ++ ((id, fib) ∷ []) | some f ↦ fibs ]

-- `allNodeFIB`, `faceMap` and the faces
pub record LfidState : Type 0 where
  pub fibs : AllNodeFib
  pub face_maps : List (ℕ × List (ℕ × ℕ))
  pub faces : List (ℕ × Face)

unfoldable pub fill_routed :
    ShortestPaths → List (ℕ × GlobalRouter) → ℕ → Node → LfidState → ℕ → Result LfidState
unfolding node_fib
fill_routed sp routers num_nodes node s source = or_fail (lookup source routers) abort >>= λ gr.
    node_fib sp routers num_nodes node source gr s.faces >>= λ r. ok (record {
      fibs = emplace node.node_id r.0 s.fibs;
      face_maps = AssocMap.insert node.node_id r.1.0 s.face_maps;
      faces = r.1.1;
    })

unfoldable pub fill_node :
    ShortestPaths → List (ℕ × GlobalRouter) → ℕ → Node → LfidState → Result LfidState
unfolding fill_routed
fill_node sp routers num_nodes node s = elim node.router [
  | none ↦ ok s
  | some source ↦ fill_routed sp routers num_nodes node s source
]

unfoldable pub fill_nodes :
    ShortestPaths → List (ℕ × GlobalRouter) → ℕ → List Node → LfidState → Result LfidState
unfolding fill_node
fill_nodes sp routers num_nodes [] s = ok s
fill_nodes sp routers num_nodes (node ∷ nodes) s =
    fill_node sp routers num_nodes node s >>= λ s'. fill_nodes sp routers num_nodes nodes s'

-- Step 5: the routes for a destination, by the faces of the node.
unfoldable pub install_nexthops :
    ℕ → List (ℕ × ℕ) → List (List ℕ) → List FibNextHop → Result (List Command)
install_nexthops node_id face_map prefixes [] = ok []
install_nexthops node_id face_map prefixes (nh ∷ nhs) =
    let rest = install_nexthops node_id face_map prefixes nhs in
    if length prefixes == 0
    then rest
    else (or_fail (lookup nh.nh_id face_map) out_of_range >>= λ face.
        rest >>= λ cs. ok (add_prefixes node_id face nh.cost prefixes ++ cs))

unfoldable pub install_dsts :
    List (ℕ × GlobalRouter)
    → AllNodeFib
    → ℕ
    → List (ℕ × ℕ)
    → List (ℕ × List FibNextHop)
    → Result (List Command)
unfolding install_nexthops
install_dsts routers fibs node_id face_map [] = ok []
install_dsts routers fibs node_id face_map ((dst, set) ∷ sets) = do
  fib ← or_fail (lookup dst fibs) out_of_range
  gr ← or_fail (lookup fib.own_router routers) abort
  cs ← install_nexthops node_id face_map gr.local_prefixes set
  rest ← install_dsts routers fibs node_id face_map sets
  ok (cs ++ rest)

unfoldable pub install_all :
    List (ℕ × GlobalRouter)
    → List (ℕ × List (ℕ × ℕ))
    → AllNodeFib
    → AllNodeFib
    → Result (List Command)
unfolding install_dsts
install_all routers face_maps fibs [] = ok []
install_all routers face_maps fibs ((node_id, fib) ∷ entries) = do
  face_map ← or_fail (lookup node_id face_maps) out_of_range
  cs ← install_dsts routers fibs node_id face_map fib.per_dst_fib
  rest ← install_all routers face_maps fibs entries
  ok (cs ++ rest)

abbrev pub no_fibs : Network → LfidState
no_fibs net = record { fibs = []; face_maps = []; faces = net.faces }

-- The FIBs after removeLoops and removeDeadEnds.
unfoldable pub remove_upward : (lib : GraphLibrary) → AllNodeFib → Result AllNodeFib
remove_upward lib fibs = do
  (fibs', loops) ← remove_loops lib fibs
  (fibs'', dead) ← remove_dead_ends fibs'
  ok fibs''

-- The faces afterwards, and the routes.
unfoldable pub calculate_lfid_routes :
    GraphLibrary → ShortestPaths → Network → Result (List (ℕ × Face) × List Command)
unfolding fill_nodes remove_upward install_all
calculate_lfid_routes lib sp net = do
  s ← fill_nodes sp net.routers (length net.nodes) net.nodes (no_fibs net)
  fibs ← remove_upward lib s.fibs
  commands ← install_all net.routers s.face_maps fibs fibs
  ok (s.faces, commands)
