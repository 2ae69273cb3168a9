-- ===== src/Topology/Read.antt =====
-- utils/topology/rocketfuel-map-reader.cpp, Read: from the lines of the file to the routers and the
-- links. The attributes that CreateLink and CreateResourcesJSON draw are left out.
pub mod Cleaning
pub mod Whole
use ndn_sim.Prelude.{
  ℕ, ◌+◌, Bool, true, false, ◌&&◌, ◌||◌, List, [], ◌∷◌, ◌++◌, ◌==◌, Option, none, some,
  if◌then◌else◌, Result, ok, abort, ◌>>=◌, or_fail, err,
}
use ndn_sim.Topology.Graph.{Graph, UndirectedGraphs}
use ndn_sim.Topology.Classes.{
  NodeType, unknown, client, gateway, backbone, no_color, Properties, assign_types,
}
use ndn_sim.Topology.Components.{
  Topology, keep_only_biggest_connected_component, connect_backbone_routers,
}
use ndn_sim.Topology.Lines.{Text, MapsLine, Reader, read_lines}

-- The three groups of parameters of a link.
pub data LinkKind : Type 0 where
  b2b b2g g2c : LinkKind

abbrev pub eq_type : NodeType → NodeType → Bool
eq_type unknown unknown = true
eq_type client client = true
eq_type gateway gateway = true
eq_type backbone backbone = true
eq_type _ _ = false

-- The chain of tests of the types of the ends, for the links that are kept.
unfoldable pub is_right_link : NodeType → NodeType → Bool
is_right_link u v =
    (eq_type u backbone && eq_type v backbone)
    || (((eq_type u gateway && eq_type v backbone) || (eq_type u backbone && eq_type v gateway))
        || ((eq_type u gateway && eq_type v gateway)
            || ((eq_type u gateway && eq_type v client)
                || (eq_type u client && eq_type v gateway))))

-- The chain for the links that are created.
unfoldable pub link_kind : NodeType → NodeType → Option LinkKind
link_kind u v =
    if eq_type u backbone && eq_type v backbone
    then some b2b
    else (if (eq_type u gateway && eq_type v backbone) || (eq_type u backbone && eq_type v gateway)
        then some b2g
        else (if eq_type u gateway && eq_type v gateway
            then some b2g
            else (if (eq_type u gateway && eq_type v client)
                  || (eq_type u client && eq_type v gateway)
                then some g2c
                else none)))

pub record Link : Type 0 where
  pub from_name : Text
  pub to_name : Text
  pub kind : LinkKind

-- m_backboneRouters, m_customerRouters and m_gatewayRouters. The node that CreateNode makes for a
-- vertex is written as the vertex.
pub record Routers : Type 0 where
  pub backbones : List ℕ
  pub customers : List ℕ
  pub gateways : List ℕ

-- The name with the prefix of the type.
abbrev pub typed_name : NodeType → Text → Text
typed_name backbone name = b'b' ∷ b'b' ∷ b'-' ∷ name
typed_name client name = b'l' ∷ b'e' ∷ b'a' ∷ b'f' ∷ b'-' ∷ name
typed_name gateway name = b'g' ∷ b'w' ∷ b'-' ∷ name
typed_name unknown name = name

abbrev pub rename : ℕ → Properties → Properties
rename v s x = if x == v then record (s x) { name = typed_name (s x).rank (s x).name } else s x

-- One round of the loop that creates the nodes.
unfoldable pub create_node : ℕ → Properties → Routers → Result (Properties × Routers)
create_node v s r = elim (s v).rank [
  | backbone ↦ ok (rename v s, record r { backbones = r.backbones ++ v ∷ [] })
  | client ↦ ok (rename v s, record r { customers = r.customers ++ v ∷ [] })
  | gateway ↦ ok (rename v s, record r { gateways = r.gateways ++ v ∷ [] })
  | unknown ↦ err abort
]

unfoldable pub create_nodes : List ℕ → Properties → Routers → Result (Properties × Routers)
unfolding create_node
create_nodes [] s r = ok (s, r)
create_nodes (v ∷ vs) s r = create_node v s r >>= λ (s', r'). create_nodes vs s' r'

-- The loop that creates the links.
unfoldable pub create_links : Properties → List (ℕ × ℕ) → Result (List Link)
unfolding link_kind
create_links s [] = ok []
create_links s ((u, v) ∷ es) = or_fail (link_kind (s u).rank (s v).rank) abort >>= λ kind.
    create_links s es >>= λ links.
    ok (record { from_name = (s u).name; to_name = (s v).name; kind = kind } ∷ links)

abbrev pub empty_reader : Reader
empty_reader = record {
  topology = record {
    graph = record { vertices = []; edges = [] };
    properties = λ v. record { name = []; index = 0; rank = unknown; color = no_color };
  };
  graph_nodes = [];
  max_node_id = 0;
}

module _ (lib : UndirectedGraphs) where
  -- The loop that removes the links of a wrong type.
  unfoldable pub remove_wrong_links : Properties → List (ℕ × ℕ) → Graph → Graph
  unfolding is_right_link
  remove_wrong_links s [] g = g
  remove_wrong_links s ((u, v) ∷ es) g =
      remove_wrong_links s es
        (if is_right_link (s u).rank (s v).rank then g else lib.remove_edge (u, v) g)

  unfoldable pub keep_if : Bool → Topology → Topology
  keep_if keep t = if keep then keep_only_biggest_connected_component lib t else t

  -- Read up to the types of the vertices.
  unfoldable pub classify : ℕ → Bool → Topology → Result Topology
  unfolding keep_if
  classify client_node_degrees keep t =
      let kept = keep_if keep t in
      assign_types lib kept.graph client_node_degrees kept.properties >>= λ s.
      ok (record { graph = kept.graph; properties = s })

  unfoldable pub connect_if : (ℕ → ℕ → ℕ) → Bool → Topology → Result Topology
  connect_if get_integer connect t =
      if connect then connect_backbone_routers lib get_integer t else ok t

  -- Read from there on.
  unfoldable pub build : Bool → Topology → Result (Topology × Routers × List Link)
  unfolding keep_if remove_wrong_links create_nodes create_links
  build keep t = do
    let cleaned = record t { graph = remove_wrong_links t.properties t.graph.edges t.graph }
    let kept = keep_if keep cleaned
    (s, routers) ←
        create_nodes kept.graph.vertices kept.properties
          (record { backbones = []; customers = []; gateways = [] })
    links ← create_links s kept.graph.edges
    ok (record kept { properties = s }, routers, links)

  -- Read, for the lines that match
  unfoldable pub read :
      (ℕ → ℕ → ℕ) → ℕ → Bool → Bool → List MapsLine → Result (Topology × Routers × List Link)
  unfolding read_lines classify connect_if build
  read get_integer client_node_degrees keep connect lines = do
    r ← read_lines lib lines empty_reader
    t ← classify client_node_degrees keep r.topology
    t' ← connect_if get_integer connect t
    build keep t'
