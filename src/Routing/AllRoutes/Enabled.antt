-- ===== src/Routing/AllRoutes/Enabled.antt =====
-- helper/ndn-global-routing-helper.cpp, CalculateAllPossibleRoutes: the faces that are enabled when
-- a route is added.
use ndn_sim.Prelude.{
  ℕ, ◌≡◌, refl, sym, subst, false, List, [], ◌∷◌, none, some, ok, arith, ◌==◌, All, All-map,
  Option-cases, Bool-cases, inl, inr, assertion, Ends, returns, Ends-bind, Ends-bind_eq,
  Ends-or_fail, Ends-map, or_fail-some,
}
use mathlib.Core.Option.{get_or}
use mathlib.Core.List.{Memᴰ}
use ndn_sim.Prelude.AssocMap.{lookup}
use ndn_sim.Routing.Network.{Face, Node, Network}
use ndn_sim.Routing.Weights.{Weight}
use ndn_sim.Routing.Routes.{IsReached, ShortestPaths, Command, add_route, local_prefixes_at}
use ndn_sim.Routing.Routes.Reach.{
  LeadsToPrefix, reached-LeadsToPrefix, All-append, add_prefixes-All,
}
use ndn_sim.Routing.AllRoutes.{
  disabled_metric, set_metric, add_enabled, add_all_enabled, RouteState, enable_one, enable_each,
  all_routes_from, all_routes_of, all_routes_of_each, calculate_all_possible_routes,
}
use ndn_sim.Routing.AllRoutes.Restored.{
  Faces, SameDevices, SameDevices-trans, lookup-set_metric, set_metric-SameDevices,
}
use ndn_sim.Routing.AllRoutes.CutOff.{
  IsDown, AreDownBut, AreDownBut-enabled, disable_all-IsCutOff, recover-SameDevices,
}

-- The route was added for a node with a router when the metrics of the faces were those of `faces`:
-- it leads to its prefix, its face is not disabled, and if this is a face of the node's table, all
-- others of the table are disabled.
pub record IsEnabledRoute (net : Network) (c : Command) : Type 0 where
  pub at : Node
  pub member : Memᴰ at net.nodes
  pub source : ℕ
  pub routed : at.router ≡ some source
  pub faces : Faces
  pub devices : SameDevices net.faces faces
  pub leads : LeadsToPrefix faces net.routers at.node_id source c
  pub face : Face
  pub found : lookup c.face_id faces ≡ some face
  pub enabled : (face.metric == disabled_metric) ≡ false
  pub alone : Memᴰ c.face_id at.face_table → AreDownBut faces c.face_id at.face_table

module _ (net : Network) (node : Node) (source : ℕ) (member : Memᴰ node net.nodes)
    (routed : node.router ≡ some source) where
  -- What the rounds of a node keep.
  pub record IsRound (s : RouteState) : Type 0 where
    pub devices : SameDevices net.faces s.0
    pub down : All (IsDown s.0) node.face_table
    pub routes : All (IsEnabledRoute net) s.1

  module _ (faces : Faces) (id : ℕ) (devices : SameDevices net.faces faces)
      (others : AreDownBut faces id node.face_table) where
    add_route-IsEnabledRoute :
        (target f : ℕ) (dist : Weight) (name : List ℕ) (x : Face)
        → (target == source) ≡ false
        → dist.face ≡ some f
        → IsReached faces net.routers source (target, dist)
        → Memᴰ name (local_prefixes_at net.routers target)
        → lookup f faces ≡ some x
        → (x.metric == disabled_metric) ≡ false
        → IsEnabledRoute net (add_route node.node_id name f dist.cost)
    unfolding add_route
    add_route-IsEnabledRoute target f dist name x t e r m h d = record {
      at = node;
      member = member;
      source = source;
      routed = routed;
      faces = faces;
      devices = devices;
      leads =
          reached-LeadsToPrefix faces net.routers node.node_id source target f dist name t e r m;
      face = x;
      found = h;
      enabled = d;
      alone = λ k.
          let own = AreDownBut-enabled faces id f x node.face_table others h d k in
          let same : id ≡ f = ground arith in
          subst (λ g. AreDownBut faces g node.face_table) same others;
    }

    add_enabled-All :
        (dist : ℕ × Weight)
        → IsReached faces net.routers source dist
        → Ends (All (IsEnabledRoute net)) (add_enabled faces node.node_id source net.routers dist)
    unfolding add_enabled
    add_enabled-All (target, dist) r = elim (Bool-cases (target == source)) [
      | inl t ↦ rw t (returns tt)
      | inr t ↦ rw t (elim (Option-cases dist.face) [
        | inl e ↦ rw e (returns tt)
        | inr (f, e) ↦ rw e (
            Ends-bind_eq (Ends-or_fail (lookup f faces) assertion tt) λ x h.
              elim (Bool-cases (x.metric == disabled_metric)) [
                | inl d ↦ rw d (returns tt)
                | inr d ↦ rw d (
                    returns (
                      add_prefixes-All _ node.node_id f dist.cost
                        (local_prefixes_at net.routers target)
                        λ name m.
                          add_route-IsEnabledRoute target f dist name x t e r m
                            (or_fail-some (lookup f faces) assertion x h) d))
              ])
      ])
    ]

    add_all_enabled-All :
        (dists : List (ℕ × Weight))
        → All (IsReached faces net.routers source) dists
        → Ends
            (All (IsEnabledRoute net))
            (add_all_enabled faces node.node_id source net.routers dists)
    unfolding add_all_enabled
    add_all_enabled-All [] a = returns tt
    add_all_enabled-All (dist ∷ dists) a =
        Ends-bind _ (add_enabled-All dist a.0)
          λ c h. Ends-bind _ (add_all_enabled-All dists a.1) λ cs k. returns (All-append _ c cs h k)

  module _ (sp : ShortestPaths) (original : List (ℕ × ℕ)) where
    enable_one-IsRound :
        (id : ℕ) (s : RouteState)
        → IsRound s
        → Ends IsRound (enable_one sp net.routers node.node_id source original id s)
    unfolding enable_one
    enable_one-IsRound id s h =
        let metric = get_or (lookup id original) 0 in
        let faces = set_metric id metric s.0 in
        let devices =
          SameDevices-trans net.faces s.0 faces h.devices (set_metric-SameDevices id metric s.0) in
        Ends-bind _
          (add_all_enabled-All faces id devices
            (All-map node.face_table
              (λ g (x, e, d) n. (x, ground (arith, lookup-set_metric id metric g s.0, e, n), d))
              h.down)
            (sp.distances faces net.routers source) (sp.reached faces net.routers source))
          λ cs k. returns (record {
            devices =
                SameDevices-trans net.faces faces _ devices
                  (set_metric-SameDevices id disabled_metric faces);
            down =
                All-map node.face_table
                  (λ g (x, e, d). ground (
                    arith,
                    lookup-set_metric id disabled_metric g faces,
                    lookup-set_metric id metric g s.0,
                    e,
                    d,
                  ))
                  h.down;
            routes = All-append _ s.1 cs h.routes k;
          })

    enable_each-IsRound :
        (ids : List ℕ) (s : RouteState)
        → IsRound s
        → Ends IsRound (enable_each sp net.routers node.node_id source original ids s)
    unfolding enable_each
    enable_each-IsRound [] s h = returns h
    enable_each-IsRound (id ∷ ids) s h =
        Ends-bind (λ _. Unit {0}) (Ends-or_fail (lookup id s.0) assertion tt)
          λ x _. elim (Bool-cases x.net_device) [
            | inl n ↦ rw n (Ends-bind _ (enable_one-IsRound id s h) (enable_each-IsRound ids))
            | inr n ↦ rw n (enable_each-IsRound ids s h)
          ]

-- What the loop over the nodes keeps.
abbrev IsRouted : Network → RouteState → Type 0
IsRouted net s = SameDevices net.faces s.0 × All (IsEnabledRoute net) s.1

module _ (sp : ShortestPaths) (net : Network) where
  all_routes_from-IsRouted :
      (node : Node) (source : ℕ) (s : RouteState)
      → Memᴰ node net.nodes
      → node.router ≡ some source
      → IsRouted net s
      → Ends (IsRouted net) (all_routes_from sp net.routers node source s)
  unfolding all_routes_from
  all_routes_from-IsRouted node source s m e h =
      Ends-bind _ (disable_all-IsCutOff node.face_table [] s.0) λ r d.
        Ends-bind _
          (enable_each-IsRound net node source m e sp r.0 node.face_table (r.1, s.1)
            (record {
              devices = SameDevices-trans net.faces s.0 r.1 h.0 d.devices;
              down = d.down;
              routes = h.1;
            }))
          λ u k.
            Ends-bind _ (recover-SameDevices r.0 u.0)
              λ faces same. returns (SameDevices-trans net.faces u.0 faces k.devices same, k.routes)

  all_routes_of-IsRouted :
      (node : Node) (s : RouteState)
      → Memᴰ node net.nodes
      → IsRouted net s
      → Ends (IsRouted net) (all_routes_of sp net.routers node s)
  unfolding all_routes_of
  all_routes_of-IsRouted node s m h = elim (Option-cases node.router) [
    | inl e ↦
        subst
          (λ r.
            Ends (IsRouted net)
              (elim r [ none ↦ ok s | some x ↦ all_routes_from sp net.routers node x s ]))
          (sym e) (returns h)
    | inr (source, e) ↦
        subst
          (λ r.
            Ends (IsRouted net)
              (elim r [ none ↦ ok s | some x ↦ all_routes_from sp net.routers node x s ]))
          (sym e) (all_routes_from-IsRouted node source s m e h)
  ]

  all_routes_of_each-IsRouted :
      (nodes : List Node) (s : RouteState)
      → ((n : Node) → Memᴰ n nodes → Memᴰ n net.nodes)
      → IsRouted net s
      → Ends (IsRouted net) (all_routes_of_each sp net.routers nodes s)
  unfolding all_routes_of_each
  all_routes_of_each-IsRouted [] s k h = returns h
  all_routes_of_each-IsRouted (node ∷ nodes) s k h =
      Ends-bind _ (all_routes_of-IsRouted node s (k node (Memᴰ.head refl)) h)
        λ u i. all_routes_of_each-IsRouted nodes u (λ n m. k n (Memᴰ.tail m)) i

  -- Every route that CalculateAllPossibleRoutes adds, if it returns, is that of a node with a
  -- router. At some metrics of the faces, it leads from this router along a path to another router,
  -- which has the route's name among its prefixes, by the first face of the path, and its cost is
  -- the sum of these metrics along the path, cast as on the way. At them the route's face is not
  -- disabled, and if it is in the node's face table, then all other faces of the table are disabled.
  pub calculate_all_possible_routes-All :
      Ends (λ t. All (IsEnabledRoute net) t.1) (calculate_all_possible_routes sp net)
  unfolding calculate_all_possible_routes
  calculate_all_possible_routes-All =
      Ends-map (all_routes_of_each-IsRouted net.nodes (net.faces, []) (λ n m. m) ((λ f. refl), tt))
        λ t h. h.1
