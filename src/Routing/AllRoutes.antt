-- ===== src/Routing/AllRoutes.antt =====
-- helper/ndn-global-routing-helper.cpp, CalculateAllPossibleRoutes: the faces of a node are disabled
-- by a high metric, and enabled one by one.
pub mod Restored
pub mod Rounds
pub mod Metrics
pub mod CutOff
pub mod Enabled
use ndn_sim.Prelude.{
  ℕ, ◌+◌, ◌-◌, ◌^◌, ◌%◌, ◌≡◌, Bool, true, false, not, List, [], ◌∷◌, ◌++◌, Option, none, some,
  arith, ltb, ◌==◌, if◌then◌else◌, Result, ok, err, assertion, ◌>>=◌, or_fail,
}
use mathlib.Core.Option.{get_or}
use ndn_sim.Prelude.AssocMap
use ndn_sim.Prelude.AssocMap.{lookup, update}
use ndn_sim.Routing.Network.{Face, GlobalRouter, Node, Network}
use ndn_sim.Routing.Weights.{Weight}
use ndn_sim.Routing.Routes.{ShortestPaths, Command, add_prefixes, local_prefixes_at}

-- numeric_limits<uint16_t>::max() - 1
abbrev pub disabled_metric : ℕ
disabled_metric = 65534

abbrev pub with_metric : ℕ → Face → Face
with_metric metric face = record face { metric = metric }

-- `face->setMetric(metric)`, for the face of a key
abbrev pub set_metric : ℕ → ℕ → List (ℕ × Face) → List (ℕ × Face)
set_metric face metric = update face (with_metric metric)

-- The loop that remembers the metrics, as uint16_t, and disables all faces.
unfoldable pub disable_all :
    List ℕ → List (ℕ × ℕ) → List (ℕ × Face) → Result (List (ℕ × ℕ) × List (ℕ × Face))
disable_all [] original faces = ok (original, faces)
disable_all (id ∷ ids) original faces = or_fail (lookup id faces) assertion >>= λ face.
    disable_all ids (AssocMap.insert id (face.metric % (2 ^ 16)) original)
      (set_metric id disabled_metric faces)

-- One round of the loop over the distances: nothing is added by a face that is disabled.
unfoldable pub add_enabled :
    List (ℕ × Face) → ℕ → ℕ → List (ℕ × GlobalRouter) → ℕ × Weight → Result (List Command)
add_enabled faces node source routers (router, dist) =
    if router == source then ok [] else elim dist.face [
      | none ↦ ok []
      | some id ↦ or_fail (lookup id faces) assertion >>= λ face.
          if face.metric == disabled_metric
          then ok []
          else ok (add_prefixes node id dist.cost (local_prefixes_at routers router))
    ]

unfoldable pub add_all_enabled :
    List (ℕ × Face) → ℕ → ℕ → List (ℕ × GlobalRouter) → List (ℕ × Weight) → Result (List Command)
unfolding add_enabled
add_all_enabled faces node source routers [] = ok []
add_all_enabled faces node source routers (dist ∷ dists) =
    add_enabled faces node source routers dist >>= λ c.
    add_all_enabled faces node source routers dists >>= λ cs. ok (c ++ cs)

-- The metrics of all faces, and the commands so far.
abbrev pub RouteState : Type 0
RouteState = List (ℕ × Face) × List Command

-- The loop that recovers the metrics.
unfoldable pub recover : List (ℕ × ℕ) → List (ℕ × Face) → Result (List (ℕ × Face))
recover [] faces = ok faces
recover ((id, metric) ∷ original) faces =
    or_fail (lookup id faces) assertion >>= λ face. recover original (set_metric id metric faces)

module _ (sp : ShortestPaths) (routers : List (ℕ × GlobalRouter)) where
  -- The body of the loop over the faces, for a face that is a net device.
  unfoldable pub enable_one : ℕ → ℕ → List (ℕ × ℕ) → ℕ → RouteState → Result RouteState
  unfolding add_all_enabled
  enable_one node source original id s =
      let faces = set_metric id (get_or (lookup id original) 0) s.0 in
      add_all_enabled faces node source routers (sp.distances faces routers source) >>= λ cs.
      ok (set_metric id disabled_metric faces, s.1 ++ cs)

  unfoldable pub enable_each : ℕ → ℕ → List (ℕ × ℕ) → List ℕ → RouteState → Result RouteState
  unfolding enable_one
  enable_each node source original [] s = ok s
  enable_each node source original (id ∷ ids) s = or_fail (lookup id s.0) assertion >>= λ face.
      (if face.net_device then enable_one node source original id s else ok s) >>= λ s'.
      enable_each node source original ids s'

  unfoldable pub all_routes_from : Node → ℕ → RouteState → Result RouteState
  unfolding disable_all enable_each recover
  all_routes_from node source s = do
    (original, faces) ← disable_all node.face_table [] s.0
    (faces', commands) ← enable_each node.node_id source original node.face_table (faces, s.1)
    faces'' ← recover original faces'
    ok (faces'', commands)

  unfoldable pub all_routes_of : Node → RouteState → Result RouteState
  unfolding all_routes_from
  all_routes_of node s = elim node.router [
    | none ↦ ok s
    | some source ↦ all_routes_from node source s
  ]

  unfoldable pub all_routes_of_each : List Node → RouteState → Result RouteState
  unfolding all_routes_of
  all_routes_of_each [] s = ok s
  all_routes_of_each (node ∷ nodes) s = all_routes_of node s >>= λ s'. all_routes_of_each nodes s'

unfoldable pub calculate_all_possible_routes : ShortestPaths → Network → Result RouteState
unfolding all_routes_of_each
calculate_all_possible_routes sp net = all_routes_of_each sp net.routers net.nodes (net.faces, [])
