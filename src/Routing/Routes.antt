-- ===== src/Routing/Routes.antt =====
-- helper/ndn-global-routing-helper.cpp: CalculateRoutes and CalculateAllPossibleRoutes, and the
-- route that helper/ndn-fib-helper.cpp adds for a face. The commands that are sent to the
-- forwarders of the nodes are kept in a list. The Boost Graph Library is not part of the
-- repository: its search for shortest paths is a parameter.
pub mod Reach
use ndn_sim.Prelude.{
  ℕ, ◌+◌, ◌-◌, ◌^◌, ◌%◌, ◌≡◌, Bool, true, false, not, List, [], ◌∷◌, ◌++◌, Option, none, some,
  arith, ltb, ◌==◌, if◌then◌else◌, All, Result, ok, err, assertion, ◌>>=◌, or_fail,
}
use mathlib.Core.List.{Memᴰ}
use ndn_sim.Prelude.AssocMap
use ndn_sim.Prelude.AssocMap.{lookup, update}
use ndn_sim.Routing.Network.{Face, Incidency, GlobalRouter, Node, Network}
use ndn_sim.Routing.Weights.{Weight, weight_zero, path_weight}

-- The links lead from one router to the other, each from the router to which the last one led.
abbrev pub IsPath : List (ℕ × GlobalRouter) → ℕ → List Incidency → ℕ → Type 0
IsPath routers source [] target = source ≡ target
IsPath routers source (edge ∷ edges) target =
    (gr : GlobalRouter) × (lookup source routers ≡ some gr)
    × Memᴰ edge gr.incidencies
    × IsPath routers edge.other edges target

-- An entry with a face is the weight of a path.
abbrev pub IsReached : List (ℕ × Face) → List (ℕ × GlobalRouter) → ℕ → ℕ × Weight → Type 0
IsReached faces routers source e =
    (f : ℕ)
    → e.1.face ≡ some f
    → (edges : List Incidency) × IsPath routers source edges e.0
      × (path_weight faces weight_zero edges ≡ e.1)

-- The map of distances that `dijkstra_shortest_paths` writes for a source, in the order of the map.
pub record ShortestPaths : Type 0 where
  pub distances : List (ℕ × Face) → List (ℕ × GlobalRouter) → ℕ → List (ℕ × Weight)
  pub reached :
      (faces : List (ℕ × Face)) (routers : List (ℕ × GlobalRouter)) (source : ℕ)
      → All (IsReached faces routers source) (distances faces routers source)

-- The command "add-nexthop" of a node.
pub record Command : Type 0 where
  pub node : ℕ
  pub name : List ℕ
  pub face_id : ℕ
  pub cost : ℕ

-- FibHelper::AddRoute: the cost, a uint32_t, is passed as int32_t and set as uint64_t.
unfoldable pub add_route : ℕ → List ℕ → ℕ → ℕ → Command
add_route node prefix face metric = record {
  node = node;
  name = prefix;
  face_id = face;
  cost = if ltb metric (2 ^ 31) then metric else metric + (2 ^ 64 - 2 ^ 32);
}

unfoldable pub add_prefixes : ℕ → ℕ → ℕ → List (List ℕ) → List Command
unfolding add_route
add_prefixes node face metric [] = []
add_prefixes node face metric (prefix ∷ prefixes) =
    add_route node prefix face metric ∷ add_prefixes node face metric prefixes

abbrev pub local_prefixes_at : List (ℕ × GlobalRouter) → ℕ → List (List ℕ)
local_prefixes_at routers router = elim (lookup router routers) [
  | none ↦ []
  | some gr ↦ gr.local_prefixes
]

-- The loop over the distances, in CalculateRoutes.
unfoldable pub add_distance : ℕ → ℕ → List (ℕ × GlobalRouter) → ℕ × Weight → List Command
unfolding add_prefixes
add_distance node source routers (router, dist) = if router == source then [] else elim dist.face [
  | none ↦ []
  | some face ↦ add_prefixes node face dist.cost (local_prefixes_at routers router)
]

unfoldable pub add_distances : ℕ → ℕ → List (ℕ × GlobalRouter) → List (ℕ × Weight) → List Command
unfolding add_distance
add_distances node source routers [] = []
add_distances node source routers (dist ∷ dists) =
    add_distance node source routers dist ++ add_distances node source routers dists

module _ (sp : ShortestPaths) where
  unfoldable pub calculate_node : Network → Node → List Command
  unfolding add_distances
  calculate_node net node = elim node.router [
    | none ↦ []
    | some source ↦
        add_distances node.node_id source net.routers (sp.distances net.faces net.routers source)
  ]

  unfoldable pub calculate_nodes : Network → List Node → List Command
  unfolding calculate_node
  calculate_nodes net [] = []
  calculate_nodes net (node ∷ nodes) = calculate_node net node ++ calculate_nodes net nodes

  -- CalculateRoutes
  unfoldable pub calculate_routes : Network → List Command
  unfolding calculate_nodes
  calculate_routes net = calculate_nodes net net.nodes
