-- ===== src/Topology/Components.antt =====
-- utils/topology/rocketfuel-map-reader.cpp: KeepOnlyBiggestConnectedComponent and
-- ConnectBackboneRouters. A vertex of the backbone graph is named by the vertex it stands for.
pub mod Sizes
pub mod Removal
pub mod Biggest
pub mod Bridges
pub mod Backbone
use ndn_sim.Prelude.{
  ℕ, zero, suc, ◌+◌, ◌-◌, ◌*◌, Bool, true, false, List, [], ◌∷◌, length, ltb, ◌==◌, if◌then◌else◌,
  Result, ok, out_of_range, ◌>>=◌, or_fail, filter, get_elem?,
}
use ndn_sim.Topology.Graph.{Graph, UndirectedGraphs}
use ndn_sim.Topology.Classes.{NodeType, unknown, client, gateway, backbone, Properties}

-- `sizes[i]++`, for an index in range
unfoldable pub count_up : ℕ → List ℕ → List ℕ
count_up i [] = []
count_up zero (n ∷ ns) = suc n ∷ ns
count_up (suc i) (n ∷ ns) = n ∷ count_up i ns

abbrev pub zeros : ℕ → List ℕ
zeros zero = []
zeros (suc n) = 0 ∷ zeros n

-- The loop that counts the vertices of each component.
unfoldable pub count_sizes : (ℕ → ℕ) → List ℕ → List ℕ → List ℕ
unfolding count_up
count_sizes label [] sizes = sizes
count_sizes label (v ∷ vs) sizes = count_sizes label vs (count_up (label v) sizes)

-- The loop of std::max_element: the index of the first greatest element so far, and the element.
unfoldable pub max_from : ℕ → ℕ → ℕ → List ℕ → ℕ
max_from largest best i [] = largest
max_from largest best i (n ∷ ns) =
    let better = ltb best n in
    max_from (if better then i else largest) (if better then n else best) (i + 1) ns

-- `max_element(sizes.begin(), sizes.end()) - sizes.begin()`
unfoldable pub max_element : List ℕ → ℕ
unfolding max_from
max_element [] = 0
max_element (n ∷ ns) = max_from 0 n 1 ns

-- The loop that gives the vertices new numbers.
unfoldable pub renumber : ℕ → List ℕ → Properties → Properties
renumber index [] s = s
renumber index (v ∷ vs) s =
    renumber (index + 1) vs (λ x. if x == v then record (s x) { index = index } else s x)

-- m_graph and its property maps.
pub record Topology : Type 0 where
  pub graph : Graph
  pub properties : Properties

abbrev pub is_backbone : NodeType → Bool
is_backbone unknown = false
is_backbone client = false
is_backbone gateway = false
is_backbone backbone = true

abbrev pub is_listed : ℕ → List ℕ → Bool
is_listed x [] = false
is_listed x (y ∷ ys) = if x == y then true else is_listed x ys

-- The keys of nodeMap.
abbrev pub node_map_of : Topology → List ℕ
node_map_of t = filter (λ v. is_backbone (t.properties v).rank) t.graph.vertices

-- A random member of a component, which is never empty; `draw` numbers the calls of GetInteger.
unfoldable pub pick : (ℕ → ℕ → ℕ) → ℕ → List ℕ → Result ℕ
pick get_integer draw subgraph =
    or_fail (get_elem? subgraph (get_integer draw (length subgraph - 1))) out_of_range

module _ (lib : UndirectedGraphs) where
  -- The loop that removes the edges of the other components.
  unfoldable pub clear_others : (ℕ → ℕ) → ℕ → List ℕ → Graph → Graph
  clear_others label largest [] g = g
  clear_others label largest (v ∷ vs) g =
      clear_others label largest vs (if label v == largest then g else lib.clear_vertex v g)

  -- The loop that removes their vertices.
  unfoldable pub remove_others : (ℕ → ℕ) → ℕ → List ℕ → Graph → Graph
  remove_others label largest [] g = g
  remove_others label largest (v ∷ vs) g =
      remove_others label largest vs (if label v == largest then g else lib.remove_vertex v g)

  unfoldable pub largest_component : Graph → ℕ
  unfolding count_sizes max_element
  largest_component g =
      let (label, number) = lib.connected_components g in
      max_element (count_sizes label g.vertices (zeros number))

  unfoldable pub keep_component : Graph → Graph
  unfolding clear_others remove_others
  keep_component g =
      let label = (lib.connected_components g).0 in
      let largest = largest_component g in
      remove_others label largest g.vertices (clear_others label largest g.vertices g)

  unfoldable pub keep_only_biggest_connected_component : Topology → Topology
  unfolding keep_component renumber
  keep_only_biggest_connected_component t =
      let graph = keep_component t.graph in
      record { graph = graph; properties = renumber 0 graph.vertices t.properties }

  -- The first loop of ConnectBackboneRouters; `vs` are the keys of nodeMap.
  unfoldable pub add_vertices : List ℕ → Graph → Graph
  add_vertices [] bb = bb
  add_vertices (v ∷ vs) bb = add_vertices vs (lib.add_vertex v bb)

  unfoldable pub add_links_of : List ℕ → ℕ → List ℕ → Graph → Graph
  add_links_of node_map v [] bb = bb
  add_links_of node_map v (u ∷ us) bb =
      add_links_of node_map v us (if is_listed u node_map then lib.add_edge v u bb else bb)

  -- The second loop.
  unfoldable pub add_links : Graph → List ℕ → List ℕ → Graph → Graph
  unfolding add_links_of
  add_links g node_map [] bb = bb
  add_links g node_map (v ∷ vs) bb =
      add_links g node_map vs (add_links_of node_map v (lib.adjacent_vertices g v) bb)

  unfoldable pub backbone_graph : Topology → Graph
  unfolding add_vertices add_links
  backbone_graph t =
      let bb = add_vertices (node_map_of t) (record { vertices = []; edges = [] }) in
      add_links t.graph (node_map_of t) bb.vertices bb

  module _ (get_integer : ℕ → ℕ → ℕ) where
    -- The loop from the component `i + 1` on.
    unfoldable pub connect_from : (ℕ → List ℕ) → ℕ → ℕ → Graph → Result Graph
    unfolding pick
    connect_from subgraphs zero i g = ok g
    connect_from subgraphs (suc rounds) i g = pick get_integer (2 * i) (subgraphs i) >>= λ v1.
        pick get_integer (2 * i + 1) (subgraphs (i + 1)) >>= λ v2.
        connect_from subgraphs rounds (i + 1) (lib.add_edge v1 v2 g)

    unfoldable pub connect_backbone_routers : Topology → Result Topology
    unfolding connect_from
    connect_backbone_routers t =
        let bb = backbone_graph t in
        let (label, number) = lib.connected_components bb in
        if number == 1
        then ok t
        else (connect_from (λ i. filter (λ v. label v == i) bb.vertices) (number - 1) 0 t.graph
            >>= λ g. ok (record t { graph = g }))
