-- ===== src/Topology/Graph.antt =====
-- The graphs of the Boost Graph Library, as utils/topology/rocketfuel-map-reader.cpp uses them: an
-- undirected adjacency_list of sets. The library is not part of the repository: its operations are
-- parameters. A vertex descriptor is a number.
use ndn_sim.Prelude.{ℕ, ◌<◌, ◌≡◌, ◌≢◌, ◌↔◌, ◌⊎◌, List, ◌==◌, not, filter, inl, inr}
use mathlib.Core.List.{Memᴰ}

-- What `vertices` and `edges` give, in their order.
pub record Graph : Type 0 where
  pub vertices : List ℕ
  pub edges : List (ℕ × ℕ)

abbrev pub IsEdge : Graph → ℕ → ℕ → Type 0
IsEdge g u v = Memᴰ (u, v) g.edges ⊎ Memᴰ (v, u) g.edges

-- The ends of edges are vertices.
abbrev pub IsClosed : Graph → Type 0
IsClosed g = (u v : ℕ) → IsEdge g u v → Memᴰ u g.vertices × Memᴰ v g.vertices

abbrev pub IsPair : ℕ → ℕ → ℕ → ℕ → Type 0
IsPair a b u v = ((u ≡ a) × (v ≡ b)) ⊎ ((u ≡ b) × (v ≡ a))

pub record UndirectedGraphs : Type 0 where
  pub adjacent_vertices : Graph → ℕ → List ℕ
  pub adjacent : (g : Graph) (u v : ℕ) → Memᴰ v (adjacent_vertices g u) ↔ IsEdge g u v
  -- `add_vertex`, which gives a vertex its descriptor
  pub add_vertex : ℕ → Graph → Graph
  pub vertex_added :
      (x : ℕ) (g : Graph) (v : ℕ) → Memᴰ v (add_vertex x g).vertices ↔ ((v ≡ x) ⊎ Memᴰ v g.vertices)
  pub no_edge_added : (x : ℕ) (g : Graph) → (add_vertex x g).edges ≡ g.edges
  pub add_edge : ℕ → ℕ → Graph → Graph
  pub vertices_added : (a b : ℕ) (g : Graph) → (add_edge a b g).vertices ≡ g.vertices
  pub edges_added :
      (a b : ℕ) (g : Graph) (u v : ℕ)
      → IsEdge (add_edge a b g) u v ↔ (IsEdge g u v ⊎ IsPair a b u v)
  pub clear_vertex : ℕ → Graph → Graph
  pub vertices_cleared : (x : ℕ) (g : Graph) → (clear_vertex x g).vertices ≡ g.vertices
  pub edges_cleared :
      (x : ℕ) (g : Graph) (u v : ℕ)
      → IsEdge (clear_vertex x g) u v ↔ (IsEdge g u v × (u ≢ x) × (v ≢ x))
  -- of a vertex without edges
  pub remove_vertex : ℕ → Graph → Graph
  pub vertices_removed :
      (x : ℕ) (g : Graph) → (remove_vertex x g).vertices ≡ filter (λ v. not (v == x)) g.vertices
  pub edges_kept : (x : ℕ) (g : Graph) → (remove_vertex x g).edges ≡ g.edges
  pub remove_edge : ℕ × ℕ → Graph → Graph
  pub vertices_kept : (e : ℕ × ℕ) (g : Graph) → (remove_edge e g).vertices ≡ g.vertices
  pub edges_removed :
      (a b : ℕ) (g : Graph) (u v : ℕ)
      → Memᴰ (u, v) (remove_edge (a, b) g).edges ↔ (Memᴰ (u, v) g.edges × ((u ≢ a) ⊎ (v ≢ b)))
  -- the number of the component of each vertex, and the number of components
  pub connected_components : Graph → (ℕ → ℕ) × ℕ

-- A walk from `u`.
pub data Connects (g : Graph) (u : ℕ) : ℕ → Type 0 where
  here : Connects g u u
  step : {v w : ℕ} → Connects g u v → IsEdge g v w → Connects g u w

pub Connects-trans : {g : Graph} {u v w : ℕ} → Connects g u v → Connects g v w → Connects g u w
Connects-trans p here = p
Connects-trans p (step q e) = step (Connects-trans p q) e

pub IsEdge-sym : (g : Graph) (u v : ℕ) → IsEdge g u v → IsEdge g v u
IsEdge-sym g u v (inl m) = inr m
IsEdge-sym g u v (inr m) = inl m

pub Connects-sym : (g : Graph) (u v : ℕ) → Connects g u v → Connects g v u
Connects-sym g u v here = here
Connects-sym g u w (step {v} p e) =
    Connects-trans (step here (IsEdge-sym g v w e)) (Connects-sym g u v p)

-- What `connected_components` is documented to give for a graph.
pub record IsComponents (g : Graph) (label : ℕ → ℕ) (number : ℕ) : Type 0 where
  pub below : (v : ℕ) → Memᴰ v g.vertices → label v < number
  pub used : (i : ℕ) → i < number → (v : ℕ) × Memᴰ v g.vertices × (label v ≡ i)
  pub same :
      (u v : ℕ) → Memᴰ u g.vertices → Memᴰ v g.vertices → (label u ≡ label v) ↔ Connects g u v
