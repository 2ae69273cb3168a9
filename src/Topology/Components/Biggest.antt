-- ===== src/Topology/Components/Biggest.antt =====
-- utils/topology/rocketfuel-map-reader.cpp, KeepOnlyBiggestConnectedComponent: what is left.
use ndn_sim.Prelude.{
  ℕ, ◌≤◌, ◌≡◌, ◌↔◌, ◌⊎◌, ◌∙◌, sym, ap, subst, List, length, arith, ◌==◌, filter, mem-filter,
}
use mathlib.Core.List.{Memᴰ}
use ndn_sim.Topology.Graph.{
  Graph, UndirectedGraphs, IsEdge, IsClosed, Connects, here, step, IsComponents,
}
use ndn_sim.Topology.Components.{
  Topology, clear_others, largest_component, keep_component, keep_only_biggest_connected_component,
}
use ndn_sim.Topology.Components.Sizes.{members, max_element-count_sizes}
use ndn_sim.Topology.Components.Removal.{
  filter-ext, is_listed-mem, clear_others-vertices, clear_others-edges, clear_others-keeps, is_kept,
  remove_others-edges, remove_others-vertices,
}

-- `g'` is the part of `g` that belongs to one component.
pub record IsBiggest (g g' : Graph) : Type 0 where
  pub part : (v : ℕ) → Memᴰ v g'.vertices → Memᴰ v g.vertices
  pub whole : (u v : ℕ) → Memᴰ u g'.vertices → Connects g u v → Memᴰ v g'.vertices
  pub edges : (u v : ℕ) → IsEdge g' u v ↔ (IsEdge g u v × Memᴰ u g'.vertices)
  pub connected : (u v : ℕ) → Memᴰ u g'.vertices → Memᴰ v g'.vertices → Connects g' u v

module _ (lib : UndirectedGraphs) (g : Graph) (closed : IsClosed g) where
  abbrev pub label : ℕ → ℕ
  label = (lib.connected_components g).0

  abbrev pub kept : List ℕ
  kept = members label (largest_component lib g) g.vertices

  keep_component-vertices : (keep_component lib g).vertices ≡ kept
  unfolding keep_component
  keep_component-vertices =
      let largest = largest_component lib g in
      let cleared = clear_others lib label largest g.vertices g in
      remove_others-vertices lib label largest g.vertices cleared
      ∙ ap (filter (is_kept lib label largest g.vertices))
          (clear_others-vertices lib label largest g.vertices g)
      ∙ filter-ext (is_kept lib label largest g.vertices) (λ v. label v == largest) g.vertices
          (λ v m. ground (arith, is_listed-mem v g.vertices m))

  pub keep_component-mem :
      (v : ℕ)
      → Memᴰ v (keep_component lib g).vertices
        ↔ (Memᴰ v g.vertices × (label v ≡ largest_component lib g))
  keep_component-mem v =
      let at_v = mem-filter (λ x. label x == largest_component lib g) g.vertices v in
      (
        λ m. let (i, e) = at_v.0 (subst (Memᴰ v) keep_component-vertices m) in (i, ground arith),
        λ (i, e). subst (Memᴰ v) (sym keep_component-vertices) (at_v.1 (i, ground arith)),
      )

  pub keep_component-edges :
      (u v : ℕ)
      → IsEdge (keep_component lib g) u v
        ↔ (IsEdge g u v × (label u ≡ largest_component lib g) × (label v ≡ largest_component lib g))
  unfolding keep_component
  keep_component-edges u v =
      let largest = largest_component lib g in
      let cleared = clear_others lib label largest g.vertices g in
      let same = remove_others-edges lib label largest g.vertices cleared in
      (
        λ e.
            let (f, a, b) =
              clear_others-edges lib label largest g.vertices g u v
                (subst (λ es. Memᴰ (u, v) es ⊎ Memᴰ (v, u) es) same e) in
            (f, a (closed u v f).0, b (closed u v f).1),
        λ (f, a, b).
            subst (λ es. Memᴰ (u, v) es ⊎ Memᴰ (v, u) es) (sym same)
              (clear_others-keeps lib label largest g.vertices g u v f a b),
      )

  module _ (right : IsComponents g label (lib.connected_components g).1) where
    edge_same : (u v : ℕ) → IsEdge g u v → label u ≡ label v
    edge_same u v e = (right.same u v (closed u v e).0 (closed u v e).1).1 (step here e)

    connected_mem : (u v : ℕ) → Memᴰ u g.vertices → Connects g u v → Memᴰ v g.vertices
    connected_mem u v m here = m
    connected_mem u v m (step {v = w} p e) = (closed w v e).1

    Connects-kept :
        (u v : ℕ)
        → label u ≡ largest_component lib g
        → Memᴰ u g.vertices
        → Connects g u v
        → Connects (keep_component lib g) u v
    Connects-kept u v l m here = here
    Connects-kept u v l m (step {v = w} p e) =
        let w_label : label w ≡ largest_component lib g =
          sym ((right.same u w m (closed w v e).0).1 p) ∙ l in
        step (Connects-kept u w l m p)
          ((keep_component-edges w v).1 (e, w_label, sym (edge_same w v e) ∙ w_label))

    keep_component-IsBiggest : IsBiggest g (keep_component lib g)
    keep_component-IsBiggest = record {
      part = λ v m. ((keep_component-mem v).0 m).0;
      whole = λ u v m p.
          let (i, l) = (keep_component-mem u).0 m in
          let n = connected_mem u v i p in
          (keep_component-mem v).1 (n, sym ((right.same u v i n).1 p) ∙ l);
      edges = λ u v. (
        λ e.
            let (f, a, b) = (keep_component-edges u v).0 e in
            (f, (keep_component-mem u).1 ((closed u v f).0, a)),
        λ (f, m).
            let (i, l) = (keep_component-mem u).0 m in
            (keep_component-edges u v).1 (f, l, sym (edge_same u v f) ∙ l),
      );
      connected = λ u v m n.
          let (i, l) = (keep_component-mem u).0 m in
          let (j, k) = (keep_component-mem v).0 n in
          Connects-kept u v l i ((right.same u v i j).0 (l ∙ sym k));
    }

-- Where the ends of edges are vertices and the components are right, what
-- KeepOnlyBiggestConnectedComponent leaves is one whole component: its vertices are connected, it
-- has all vertices connected with them and all edges of these. Every component has at most as many
-- vertices.
pub keep_only_biggest_connected_component_lem :
    (lib : UndirectedGraphs) (t : Topology)
    → IsClosed t.graph
    → IsComponents t.graph (lib.connected_components t.graph).0 (lib.connected_components t.graph).1
    → IsBiggest t.graph (keep_only_biggest_connected_component lib t).graph
      × ((i : ℕ)
          → length (members (lib.connected_components t.graph).0 i t.graph.vertices)
            ≤ length (keep_only_biggest_connected_component lib t).graph.vertices)
unfolding keep_only_biggest_connected_component largest_component
keep_only_biggest_connected_component_lem lib t closed right = (
  keep_component-IsBiggest lib t.graph closed right,
  λ i.
      subst (λ vs. length (members (label lib t.graph closed) i t.graph.vertices) ≤ length vs)
        (sym (keep_component-vertices lib t.graph closed))
        (max_element-count_sizes (label lib t.graph closed) (lib.connected_components t.graph).1
          t.graph.vertices i right.below),
)
