-- ===== src/Routing/Routes/Reach.antt =====
-- helper/ndn-global-routing-helper.cpp, CalculateRoutes: the paths along which the routes lead.
use ndn_sim.Prelude.{
  ℕ, ◌^◌, ◌%◌, ◌≡◌, refl, sym, ap, ◌∙◌, false, List, [], ◌∷◌, ◌++◌, some, ◌==◌, All, All-map,
  Option-cases, Bool-cases, inl, inr,
}
use mathlib.Core.List.{Memᴰ}
use ndn_sim.Routing.Network.{Face, Incidency, GlobalRouter, Node, Network}
use ndn_sim.Routing.Weights.{Weight, path_weight_lem, first_face, total_cost}
use ndn_sim.Routing.Routes.{
  IsPath, IsReached, ShortestPaths, Command, add_route, add_prefixes, local_prefixes_at,
  add_distance, add_distances, calculate_node, calculate_nodes, calculate_routes,
}

-- The route leads from the router of its node along a path to another router, which has its name
-- among its prefixes: by the first face of the path, with the cost of the path.
pub record LeadsToPrefix (faces : List (ℕ × Face)) (routers : List (ℕ × GlobalRouter))
    (node source : ℕ) (c : Command) : Type 0 where
  pub own : c.node ≡ node
  pub target : ℕ
  pub foreign : (target == source) ≡ false
  pub edges : List Incidency
  pub path : IsPath routers source edges target
  pub first : first_face edges ≡ some c.face_id
  pub served : Memᴰ c.name (local_prefixes_at routers target)
  pub length : c ≡ add_route c.node c.name c.face_id (total_cost faces edges % (2 ^ 32))

pub All-append {ℓ κ} :
    {A : Type ℓ} (P : A → Type κ) (xs ys : List A) → All P xs → All P ys → All P (xs ++ ys)
All-append P [] ys h k = k
All-append P (x ∷ xs) ys h k = (h.0, All-append P xs ys h.1 k)

pub add_prefixes-All :
    (P : Command → Type 0) (node face metric : ℕ) (prefixes : List (List ℕ))
    → ((name : List ℕ) → Memᴰ name prefixes → P (add_route node name face metric))
    → All P (add_prefixes node face metric prefixes)
unfolding add_prefixes
add_prefixes-All P node face metric [] h = tt
add_prefixes-All P node face metric (name ∷ names) h =
    (h name (Memᴰ.head refl), add_prefixes-All P node face metric names (λ n m. h n (Memᴰ.tail m)))

module _ (faces : List (ℕ × Face)) (routers : List (ℕ × GlobalRouter)) (node source : ℕ) where
  pub reached-LeadsToPrefix :
      (target face : ℕ) (dist : Weight) (name : List ℕ)
      → (target == source) ≡ false
      → dist.face ≡ some face
      → IsReached faces routers source (target, dist)
      → Memᴰ name (local_prefixes_at routers target)
      → LeadsToPrefix faces routers node source (add_route node name face dist.cost)
  unfolding add_route
  reached-LeadsToPrefix target face dist name t e r m =
      let (edges, path, w) = r face e in
      let (f, c) = path_weight_lem faces edges in
      record {
        own = refl;
        target = target;
        foreign = t;
        edges = edges;
        path = path;
        first = sym f ∙ (ap (λ x. x.face) w ∙ e);
        served = m;
        length = ap (λ k. add_route node name face k) (sym (ap (λ x. x.cost) w) ∙ c);
      }

  add_distance-All :
      (dist : ℕ × Weight)
      → IsReached faces routers source dist
      → All (LeadsToPrefix faces routers node source) (add_distance node source routers dist)
  unfolding add_distance
  add_distance-All (target, dist) r = elim (Bool-cases (target == source)) [
    | inl e ↦ rw e tt
    | inr e ↦ rw e (elim (Option-cases dist.face) [
      | inl f ↦ rw f tt
      | inr (face, f) ↦ rw f (
          add_prefixes-All _ node face dist.cost (local_prefixes_at routers target)
            (λ name m. reached-LeadsToPrefix target face dist name e f r m))
    ])
  ]

  pub add_distances-All :
      (dists : List (ℕ × Weight))
      → All (IsReached faces routers source) dists
      → All (LeadsToPrefix faces routers node source) (add_distances node source routers dists)
  unfolding add_distances
  add_distances-All [] a = tt
  add_distances-All (dist ∷ dists) a =
      All-append _ (add_distance node source routers dist) _ (add_distance-All dist a.0)
        (add_distances-All dists a.1)

-- The route of a node that is there and has a router.
pub record IsRoute (net : Network) (c : Command) : Type 0 where
  pub at : Node
  pub member : Memᴰ at net.nodes
  pub source : ℕ
  pub routed : at.router ≡ some source
  pub leads : LeadsToPrefix net.faces net.routers at.node_id source c

module _ (sp : ShortestPaths) (net : Network) where
  calculate_node-All :
      (node : Node) → Memᴰ node net.nodes → All (IsRoute net) (calculate_node sp net node)
  unfolding calculate_node
  calculate_node-All node m = elim (Option-cases node.router) [
    | inl e ↦ rw e tt
    | inr (source, e) ↦ rw e (
        All-map _ (λ c l. record { at = node; member = m; source = source; routed = e; leads = l })
          (add_distances-All net.faces net.routers node.node_id source _
            (sp.reached net.faces net.routers source)))
  ]

  calculate_nodes-All :
      (nodes : List Node)
      → ((n : Node) → Memᴰ n nodes → Memᴰ n net.nodes)
      → All (IsRoute net) (calculate_nodes sp net nodes)
  unfolding calculate_nodes
  calculate_nodes-All [] k = tt
  calculate_nodes-All (node ∷ nodes) k =
      All-append _ (calculate_node sp net node) _
        (calculate_node-All node (k node (Memᴰ.head refl)))
        (calculate_nodes-All nodes (λ n m. k n (Memᴰ.tail m)))

  -- Every route that CalculateRoutes adds is that of a node with a router. It leads from this
  -- router along a path to another router, which has the route's name among its prefixes, by the
  -- first face of the path, and its cost is the sum of the metrics of the path, cast as on the way.
  pub calculate_routes-All : All (IsRoute net) (calculate_routes sp net)
  unfolding calculate_routes
  calculate_routes-All = calculate_nodes-All net.nodes (λ n m. m)
