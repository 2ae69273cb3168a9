-- ===== src/Topology/Classes.antt =====
-- utils/topology/rocketfuel-map-reader.cpp: assignGw, AssignClients and the part of Read that calls
-- them: the types of the vertices. A name is a text, a list of characters.
pub mod Gateways
pub mod Clients
pub mod Types
use ndn_sim.Prelude.{
  ℕ, zero, suc, ◌+◌, min, Bool, true, false, List, [], ◌∷◌, length, ltb, ◌==◌, if◌then◌else◌,
  Result, ok, err, no_fuel, ◌>>=◌,
}
use ndn_sim.Topology.Graph.{Graph, UndirectedGraphs}

-- node_type_t
pub data NodeType : Type 0 where
  unknown client gateway backbone : NodeType

abbrev pub is_unknown : NodeType → Bool
is_unknown unknown = true
is_unknown client = false
is_unknown gateway = false
is_unknown backbone = false

pub data Color : Type 0 where
  no_color green red blue : Color

-- The properties of a vertex.
pub record NodeProperty : Type 0 where
  pub name : List ℕ
  pub index : ℕ
  pub rank : NodeType
  pub color : Color

-- The property maps of the graph.
abbrev pub Properties : Type 0
Properties = ℕ → NodeProperty

-- `put(vertex_rank, ...)` and `put(vertex_color, ...)`
abbrev pub put_type : ℕ → NodeType → Color → Properties → Properties
put_type v type color s x = if x == v then record (s x) { rank = type; color = color } else s x

-- The loop that makes all others backbone routers.
unfoldable pub assign_backbone : List ℕ → Properties → Properties
assign_backbone [] s = s
assign_backbone (v ∷ vs) s =
    assign_backbone vs (if is_unknown (s v).rank then put_type v backbone blue s else s)

module _ (lib : UndirectedGraphs) (g : Graph) where
  abbrev pub out_degree : ℕ → ℕ
  out_degree v = length (lib.adjacent_vertices g v)

  -- The loop of assignGw over the neighbours, with its recursive call.
  unfoldable pub visit :
      (ℕ → Properties → Result Properties) → ℕ → NodeType → List ℕ → Properties → Result Properties
  visit recur degree type [] s = ok s
  visit recur degree type (u ∷ us) s =
      (if is_unknown (s u).rank
        then (if ltb (out_degree u) degree
            then recur u (put_type u type green s)
            else ok (put_type u type green s))
        else ok s)
      >>= λ s'. visit recur degree type us s'

  unfoldable pub assign_gw : ℕ → ℕ → NodeType → ℕ → Properties → Result Properties
  unfolding visit
  assign_gw zero degree type v s = err no_fuel
  assign_gw (suc fuel) degree type v s =
      visit (assign_gw fuel degree backbone) degree type (lib.adjacent_vertices g v) s

  -- Each call of assignGw gives a type to a vertex that has none.
  abbrev pub gw_fuel : ℕ
  gw_fuel = length g.vertices + 1

  -- The loop of AssignClients.
  unfoldable pub assign_clients_of : ℕ → ℕ → List ℕ → Properties → Result Properties
  unfolding assign_gw
  assign_clients_of client_degree gw_degree [] s = ok s
  assign_clients_of client_degree gw_degree (v ∷ vs) s =
      (if out_degree v == client_degree
        then assign_gw gw_fuel (gw_degree + 1) gateway v (put_type v client red s)
        else ok s)
      >>= λ s'. assign_clients_of client_degree gw_degree vs s'

  unfoldable pub assign_clients : ℕ → ℕ → Properties → Result Properties
  unfolding assign_clients_of
  assign_clients client_degree gw_degree s = assign_clients_of client_degree gw_degree g.vertices s

  -- The loop of Read over the degrees of clients: `rounds` degrees from `client_degree` on.
  unfoldable pub assign_degrees : ℕ → ℕ → Properties → Result Properties
  unfolding assign_clients
  assign_degrees zero client_degree s = ok s
  assign_degrees (suc rounds) client_degree s =
      assign_clients client_degree (min client_degree 3) s >>= λ s'.
      assign_degrees rounds (client_degree + 1) s'

  unfoldable pub assign_types : ℕ → Properties → Result Properties
  unfolding assign_degrees assign_backbone
  assign_types client_node_degrees s =
      assign_degrees client_node_degrees 1 s >>= λ s'. ok (assign_backbone g.vertices s')
