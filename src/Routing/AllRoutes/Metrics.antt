-- ===== src/Routing/AllRoutes/Metrics.antt =====
-- helper/ndn-global-routing-helper.cpp, CalculateAllPossibleRoutes: whole runs.
use ndn_sim.Prelude.{
  ℕ, ◌≡◌, refl, ◌∙◌, List, [], ◌∷◌, arith, All, All-map, ok, Option-cases, Bool-cases, inl, inr,
}
use ndn_sim.Routing.Network.{GlobalRouter, Node, Network}
use ndn_sim.Routing.Routes.{ShortestPaths}
use ndn_sim.Routing.AllRoutes.{
  RouteState, all_routes_from, all_routes_of, all_routes_of_each, calculate_all_possible_routes,
}
use ndn_sim.Routing.AllRoutes.Restored.{
  Faces, SameFaces, SameDevices-trans, AreDistinctIds, IsBounded, disable_all_lem, recover_lem,
  has_key,
}
use ndn_sim.Routing.AllRoutes.Rounds.{
  AreLinked, AreLinked-SameDevices, SameFaces-SameDevices, enable_each-ok,
}

-- The faces of a node's table are different and there, with metrics below 2 ^ 16.
abbrev pub IsTable : Faces → List ℕ → Type 0
IsTable faces ids = AreDistinctIds ids × All (IsBounded faces) ids

module _ (sp : ShortestPaths) (routers : List (ℕ × GlobalRouter)) where
  all_routes_from-ok :
      (node : Node) (source : ℕ) (s : RouteState)
      → AreLinked routers s.0
      → IsTable s.0 node.face_table
      → (t : RouteState) × (all_routes_from sp routers node source s ≡ ok t) × SameFaces s.0 t.0
  unfolding all_routes_from
  all_routes_from-ok node source s l (d, b) =
      let ((original, faces), e, g) =
        disable_all_lem s.0 node.face_table [] s.0 d b (All-map _ (λ id _. refl) b) tt in
      let (u, f, same) =
        enable_each-ok routers node.node_id source sp original node.face_table (faces, s.1)
          (AreLinked-SameDevices routers s.0 faces g.devices l) g.down in
      let (faces', k, h) =
        recover_lem s.0 original u.0 g.metrics
          (SameDevices-trans s.0 faces u.0 g.devices (SameFaces-SameDevices faces u.0 same)) in
      (
        (faces', u.1),
        rw (e, f, k) refl,
        λ i. elim (Bool-cases (has_key i original)) [
          | inl y ↦ h i ∙ rw y refl
          | inr n ↦ h i ∙ rw n (same i ∙ g.rest i (g.keys i n).0)
        ],
      )

  all_routes_of-ok :
      (node : Node) (s : RouteState)
      → AreLinked routers s.0
      → IsTable s.0 node.face_table
      → (t : RouteState) × (all_routes_of sp routers node s ≡ ok t) × SameFaces s.0 t.0
  unfolding all_routes_of
  all_routes_of-ok node s l b = elim (Option-cases node.router) [
    | inl e ↦ (s, rw e refl, λ f. refl)
    | inr (source, e) ↦
        let (t, g, h) = all_routes_from-ok node source s l b in (t, ground (arith, e, g), h)
  ]

  IsTable-SameFaces :
      (faces faces' : Faces) (nodes : List Node)
      → SameFaces faces faces'
      → All (λ n. IsTable faces n.face_table) nodes
      → All (λ n. IsTable faces' n.face_table) nodes
  IsTable-SameFaces faces faces' nodes s =
      All-map nodes (λ n (d, b). (d, All-map n.face_table (λ id (x, e, m). (x, s id ∙ e, m)) b))

  all_routes_of_each-ok :
      (nodes : List Node) (s : RouteState)
      → AreLinked routers s.0
      → All (λ n. IsTable s.0 n.face_table) nodes
      → (t : RouteState) × (all_routes_of_each sp routers nodes s ≡ ok t) × SameFaces s.0 t.0
  unfolding all_routes_of_each
  all_routes_of_each-ok [] s l b = (s, refl, λ f. refl)
  all_routes_of_each-ok (node ∷ nodes) s l b =
      let (u, e, same) = all_routes_of-ok node s l b.0 in
      let (t, f, h) =
        all_routes_of_each-ok nodes u
          (AreLinked-SameDevices routers s.0 u.0 (SameFaces-SameDevices s.0 u.0 same) l)
          (IsTable-SameFaces s.0 u.0 nodes same b.1) in
      (t, rw e f, λ i. h i ∙ same i)

-- Where the faces of each node's table are different and there, the faces of all links are there,
-- and every metric is below 2 ^ 16, CalculateAllPossibleRoutes returns, and all faces have the
-- metrics that they had before.
pub calculate_all_possible_routes-ok :
    (sp : ShortestPaths) (net : Network)
    → AreLinked net.routers net.faces
    → All (λ n. IsTable net.faces n.face_table) net.nodes
    → (t : RouteState) × (calculate_all_possible_routes sp net ≡ ok t) × SameFaces net.faces t.0
unfolding calculate_all_possible_routes
calculate_all_possible_routes-ok sp net l b =
    all_routes_of_each-ok sp net.routers net.nodes (net.faces, []) l b
