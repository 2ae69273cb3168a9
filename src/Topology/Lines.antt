-- ===== src/Topology/Lines.antt =====
-- utils/topology/rocketfuel-map-reader.cpp, GenerateFromMapsFile: a line of the file that matches the
-- regular expression adds a vertex and its edges. The expression is matched by a library, which
-- gives the groups. A text is a list of characters.
pub mod Valid
use ndn_sim.Prelude.{
  ℕ, suc, ◌+◌, ◌-◌, ◌*◌, Bool, true, false, ◌&&◌, ◌||◌, List, [], ◌∷◌, ◌++◌, Option, none, some,
  ltb, leb, ◌==◌, if◌then◌else◌, Result, ok, err, out_of_range, ◌>>=◌,
}
use ndn_sim.Topology.Graph.{Graph, UndirectedGraphs}
use ndn_sim.Topology.Classes.{unknown, no_color, NodeProperty, Properties}
use ndn_sim.Topology.Components.{Topology}

abbrev pub Text : Type 0
Text = List ℕ

abbrev pub eq_text : Text → Text → Bool
eq_text [] [] = true
eq_text [] (d ∷ ds) = false
eq_text (c ∷ cs) [] = false
eq_text (c ∷ cs) (d ∷ ds) = (c == d) && eq_text cs ds

-- The groups 1, 7 and 10 of a line: argv[0], argv[6] and argv[9].
pub record MapsLine : Type 0 where
  pub uid : Text
  pub neighbors : Option Text
  pub radius : Text

abbrev pub is_space : ℕ → Bool
is_space c = (c == 32) || (c == 9)

abbrev pub drop_first : Text → Text
drop_first [] = []
drop_first (c ∷ cs) = cs

abbrev pub drop_last : Text → Text
drop_last [] = []
drop_last (c ∷ []) = []
drop_last (c ∷ d ∷ cs) = c ∷ drop_last (d ∷ cs)

-- The loop over strsep. A token loses its first and its last character. For an empty token the
-- pointer stands at the end of the token, and what follows is the rest of the line; at the end of
-- the line it would be read beyond its end.
unfoldable pub split_neighbors : Text → Text → Result (List Text)
split_neighbors [] [] = err out_of_range
split_neighbors (t ∷ ts) [] = ok (drop_last ts ∷ [])
split_neighbors token (c ∷ cs) =
    let first : Text = elim token [ [] ↦ cs | t ∷ ts ↦ drop_last ts ] in
    let split = split_neighbors [] cs >>= λ rest. ok (first ∷ rest) in
    let more = split_neighbors (token ++ c ∷ []) cs in if is_space c then split else more

abbrev pub is_digit : ℕ → Bool
is_digit c = leb 48 c && leb c 57

-- `atoi`, of a text with neither spaces nor a sign
unfoldable pub atoi : ℕ → Text → ℕ
atoi value [] = value
atoi value (c ∷ cs) = if is_digit c then atoi (value * 10 + (c - 48)) cs else value

-- m_graph, m_graphNodes and m_maxNodeId. A vertex has as descriptor the number it gets.
pub record Reader : Type 0 where
  pub topology : Topology
  pub graph_nodes : List (Text × ℕ)
  pub max_node_id : ℕ

abbrev pub find_node : Text → List (Text × ℕ) → Option ℕ
find_node uid [] = none
find_node uid ((name, v) ∷ nodes) = if eq_text uid name then some v else find_node uid nodes

abbrev pub is_empty_text : Text → Bool
is_empty_text [] = true
is_empty_text (c ∷ cs) = false

module _ (lib : UndirectedGraphs) where
  -- `add_vertex(nodeProperty(uid), m_graph)`, the entry of m_graphNodes, and the index
  abbrev pub add_node : Text → Reader → Reader
  add_node uid r = record {
    topology = record {
      graph = lib.add_vertex r.max_node_id r.topology.graph;
      properties = λ x.
          if x == r.max_node_id
          then record { name = uid; index = r.max_node_id; rank = unknown; color = no_color }
          else r.topology.properties x;
    };
    graph_nodes = r.graph_nodes ++ (uid, r.max_node_id) ∷ [];
    max_node_id = r.max_node_id + 1;
  }

  unfoldable pub find_or_add : Text → Reader → ℕ × Reader
  find_or_add uid r = elim (find_node uid r.graph_nodes) [
    | some v ↦ (v, r)
    | none ↦ (r.max_node_id, add_node uid r)
  ]

  -- The loop over the neighbours.
  unfoldable pub add_neighbors : ℕ → List Text → Reader → Reader
  unfolding find_or_add
  add_neighbors v [] r = r
  add_neighbors v (nuid ∷ nuids) r =
      let (u, r') = find_or_add nuid r in
      let linked = record r' {
        topology = record r'.topology { graph = lib.add_edge v u r'.topology.graph };
      } in
      add_neighbors v nuids (if is_empty_text nuid then r else linked)

  unfoldable pub generate_from_maps_file : MapsLine → Reader → Result Reader
  unfolding add_neighbors find_or_add split_neighbors atoi
  generate_from_maps_file line r = do
    neigh_list ← elim line.neighbors [ none ↦ ok [] | some text ↦ split_neighbors [] text ]
    if ltb 0 (atoi 0 (drop_first line.radius)) || is_empty_text line.uid
        then ok r
        else (let (v, r') = find_or_add line.uid r in ok (add_neighbors v neigh_list r'))

  -- The lines that match.
  unfoldable pub read_lines : List MapsLine → Reader → Result Reader
  unfolding generate_from_maps_file
  read_lines [] r = ok r
  read_lines (line ∷ lines) r = generate_from_maps_file line r >>= read_lines lines
