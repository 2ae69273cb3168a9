-- ===== src/Topology/Components/Backbone.antt =====
-- utils/topology/rocketfuel-map-reader.cpp, ConnectBackboneRouters: the backbone is connected.
use ndn_sim.Prelude.{
  ℕ, zero, suc, ◌+◌, ◌-◌, ◌≤◌, ◌<◌, ◌≡◌, ◌⊎◌, refl, ◌∙◌, sym, List, [], ◌∷◌, length, ok, arith,
  filter, mem-filter, ◌==◌, Bool-cases, inl, inr,
}
use mathlib.Core.List.{Memᴰ}
use ndn_sim.Topology.Graph.{
  Graph, UndirectedGraphs, IsEdge, IsEdge-sym, Connects, here, step, IsComponents,
}
use ndn_sim.Topology.Components.{Topology, node_map_of, backbone_graph, connect_backbone_routers}
use ndn_sim.Topology.Components.Bridges.{IsPart, backbone_graph-IsPart, IsBridged, connect_from-ok}

-- A walk from `u` that after it meets only vertices of a list.
pub data Joins (g : Graph) (among : List ℕ) (u : ℕ) : ℕ → Type 0 where
  start : Joins g among u u
  next : {v w : ℕ} → Joins g among u v → IsEdge g v w → Memᴰ w among → Joins g among u w

mem-pos : (xs : List ℕ) (v : ℕ) → Memᴰ v xs → 0 < length xs
mem-pos [] v m = elim m [ ]
mem-pos (x ∷ xs) v m = omega arith

module _ (g : Graph) (among : List ℕ) where
  Joins-trans : {u v w : ℕ} → Joins g among u v → Joins g among v w → Joins g among u w
  Joins-trans p start = p
  Joins-trans p (next q e m) = next (Joins-trans p q) e m

  Joins-mem : (u v : ℕ) → Memᴰ u among → Joins g among u v → Memᴰ v among
  Joins-mem u v m start = m
  Joins-mem u v m (next p e n) = n

  Joins-sym : (u v : ℕ) → Memᴰ u among → Joins g among u v → Joins g among v u
  Joins-sym u v m start = start
  Joins-sym u w m (next {v = v} p e n) =
      Joins-trans (next start (IsEdge-sym g v w e) (Joins-mem u v m p)) (Joins-sym u v m p)

  -- A walk in a part of the graph.
  Connects-Joins : (bb : Graph) (u v : ℕ) → IsPart g among bb → Connects bb u v → Joins g among u v
  Connects-Joins bb u v p here = start
  Connects-Joins bb u w p (step {v = v} c e) =
      let (f, a, b) = p v w e in next (Connects-Joins bb u v p c) f b

  module _ (label : ℕ → ℕ) (number : ℕ)
      (same : (u v : ℕ) → Memᴰ u among → Memᴰ v among → label u ≡ label v → Joins g among u v)
      (bridge : (j : ℕ)
        → suc j < number
        → (a : ℕ) × (b : ℕ) × Memᴰ a among
          × (label a ≡ j)
          × Memᴰ b among
          × (label b ≡ suc j)
          × IsEdge g a b) where
    -- From a vertex of the first component, by the bridges.
    from_first :
        (r j v : ℕ)
        → Memᴰ r among
        → label r ≡ 0
        → Memᴰ v among
        → label v ≡ j
        → j < number
        → Joins g among r v
    from_first r zero v m l n k b = same r v m n (l ∙ sym k)
    from_first r (suc j) v m l n k b =
        let (x, y, in_x, at_x, in_y, at_y, e) = bridge j b in
        Joins-trans (next (from_first r j x m l in_x at_x (omega arith)) e in_y)
          (same y v in_y n (at_y ∙ sym k))

    all_joined :
        (r u v : ℕ)
        → Memᴰ r among
        → label r ≡ 0
        → Memᴰ u among × (label u < number)
        → Memᴰ v among × (label v < number)
        → Joins g among u v
    all_joined r u v m l (a, b) (c, d) =
        Joins-trans (Joins-sym r u m (from_first r (label u) u m l a refl b))
          (from_first r (label v) v m l c refl d)

module _ (lib : UndirectedGraphs) (get_integer : ℕ → ℕ → ℕ)
    (within : (draw n : ℕ) → get_integer draw n ≤ n) (t : Topology) where
  abbrev label : ℕ → ℕ
  label = (lib.connected_components (backbone_graph lib t)).0

  abbrev number : ℕ
  number = (lib.connected_components (backbone_graph lib t)).1

  abbrev subgraphs : ℕ → List ℕ
  subgraphs i = filter (λ v. label v == i) (backbone_graph lib t).vertices

  module _ (right : IsComponents (backbone_graph lib t) label number) where
    subgraphs-mem : (i v : ℕ) → Memᴰ v (subgraphs i) → Memᴰ v (node_map_of t) × (label v ≡ i)
    subgraphs-mem i v m =
        let (n, e) = (mem-filter (λ x. label x == i) (backbone_graph lib t).vertices v).0 m in
        (((backbone_graph-IsPart lib t).1 v).0 n, ground arith)

    subgraphs-pos : (i : ℕ) → i < number → 0 < length (subgraphs i)
    subgraphs-pos i h =
        let (v, m, e) = right.used i h in
        let n =
          (mem-filter (λ x. label x == i) (backbone_graph lib t).vertices v).1 (m, ground arith) in
        mem-pos (subgraphs i) v n

    -- The vertices of one component are joined, in any graph with the edges of the first.
    same_component :
        (g : Graph) (u v : ℕ)
        → ((a b : ℕ) → IsEdge t.graph a b → IsEdge g a b)
        → Memᴰ u (node_map_of t)
        → Memᴰ v (node_map_of t)
        → label u ≡ label v
        → Joins g (node_map_of t) u v
    same_component g u v keeps m n e =
        let (part, listed) = backbone_graph-IsPart lib t in
        Connects-Joins g (node_map_of t) (backbone_graph lib t) u v
          (λ a b i. let (j, k, l) = part a b i in (keeps a b j, k, l))
          ((right.same u v ((listed u).1 m) ((listed v).1 n)).0 e)

    connected_by :
        (g : Graph)
        → ((a b : ℕ) → IsEdge t.graph a b → IsEdge g a b)
        → ((j : ℕ) → suc j < number → IsBridged subgraphs g j)
        → (u v : ℕ) → Memᴰ u (node_map_of t)
        → Memᴰ v (node_map_of t)
        → Joins g (node_map_of t) u v
    connected_by g keeps bridges u v m n =
        let listed = (backbone_graph-IsPart lib t).1 in
        let low_u = right.below u ((listed u).1 m) in
        let low_v = right.below v ((listed v).1 n) in
        let (r, i, e) = right.used 0 (omega (arith, low_u)) in
        all_joined g (node_map_of t) label number (λ a b. same_component g a b keeps)
          (λ j h.
            let (a, b, k, l, f) = bridges j h in
            let (in_a, at_a) = subgraphs-mem j a k in
            let (in_b, at_b) = subgraphs-mem (j + 1) b l in
            (a, b, in_a, at_a, in_b, omega (arith, at_b), f))
          r u v ((listed r).0 i) e (m, low_u) (n, low_v)

-- What ConnectBackboneRouters gives: the graph has the edges that it had, new ones only between
-- backbone routers, and any two of these are joined by a walk over backbone routers.
pub record IsConnected (t t' : Topology) : Type 0 where
  pub properties : t'.properties ≡ t.properties
  pub vertices : t'.graph.vertices ≡ t.graph.vertices
  pub keeps : (u v : ℕ) → IsEdge t.graph u v → IsEdge t'.graph u v
  pub new :
      (u v : ℕ)
      → IsEdge t'.graph u v
      → IsEdge t.graph u v ⊎ (Memᴰ u (node_map_of t) × Memᴰ v (node_map_of t))
  pub joined :
      (u v : ℕ)
      → Memᴰ u (node_map_of t)
      → Memᴰ v (node_map_of t)
      → Joins t'.graph (node_map_of t) u v

-- Where the random numbers are in their range and the components of the backbone graph are right,
-- ConnectBackboneRouters returns, keeps the vertices, the properties and the edges, adds edges
-- between backbone routers alone, and leaves a graph in which any two backbone routers are joined by
-- a walk over backbone routers.
pub connect_backbone_routers-ok :
    (lib : UndirectedGraphs) (get_integer : ℕ → ℕ → ℕ) (t : Topology)
    → ((draw n : ℕ) → get_integer draw n ≤ n)
    → IsComponents
        (backbone_graph lib t)
        (lib.connected_components (backbone_graph lib t)).0
        (lib.connected_components (backbone_graph lib t)).1
    → (t' : Topology) × (connect_backbone_routers lib get_integer t ≡ ok t') × IsConnected t t'
unfolding connect_backbone_routers
connect_backbone_routers-ok lib get_integer t within right =
    let count = (lib.connected_components (backbone_graph lib t)).1 in
    let groups = subgraphs lib get_integer within t in
    elim (Bool-cases (count == 1)) [
      | inl y ↦ (
        t,
        rw y refl,
        record {
          properties = refl;
          vertices = refl;
          keeps = λ u v e. e;
          new = λ u v e. inl e;
          joined =
              connected_by lib get_integer within t right t.graph (λ a b e. e)
                (λ j h. absurd (ground arith));
        },
      )
      | inr n ↦
          let (g, e, same, keeps, bridges, new) =
            connect_from-ok lib get_integer within groups (count - 1) 0 t.graph (λ j h. (
              subgraphs-pos lib get_integer within t right j (omega arith),
              subgraphs-pos lib get_integer within t right (j + 1) (omega arith),
            )) in
          (
            record t { graph = g },
            rw (n, e) refl,
            record {
              properties = refl;
              vertices = same;
              keeps = keeps;
              new = λ u v k. elim (new u v k) [
                | inl old ↦ inl old
                | inr ((i, m), (j, n)) ↦ inr (
                  (subgraphs-mem lib get_integer within t right i u m).0,
                  (subgraphs-mem lib get_integer within t right j v n).0,
                )
              ];
              joined =
                  connected_by lib get_integer within t right g keeps
                    (λ j h. bridges j (omega arith) (omega arith));
            },
          )
    ]
