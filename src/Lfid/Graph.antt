-- ===== src/Lfid/Graph.antt =====
-- DiGraph of helper/lfid/remove-loops.hpp: what removeLoops uses of the Boost Graph Library, which
-- is not part of the repository. Parallel arcs are allowed; every arc has weight 1.
use ndn_sim.Prelude.{ℕ, suc, ◌-◌, ◌≡◌, Bool, ◌&&◌, ltb, ◌==◌, if◌then◌else◌, max}

pub record GraphLibrary : Type 1 where
  pub DiGraph : Type 0
  -- after `clear()`
  pub empty : DiGraph
  pub add_edge : ℕ → ℕ → DiGraph → DiGraph
  -- `remove_edge(edge(u, v, g).first, g)`
  pub remove_edge : ℕ → ℕ → DiGraph → DiGraph
  -- how many arcs lead from one vertex to another
  pub arcs : ℕ → ℕ → DiGraph → ℕ
  pub num_vertices : DiGraph → ℕ
  -- the entry of a vertex in the distances that `dijkstra_shortest_paths` writes for a source
  pub distance : DiGraph → ℕ → ℕ → ℕ
  pub arcs-empty : (u v : ℕ) → arcs u v empty ≡ 0
  pub arcs-add_edge :
      (u v a b : ℕ) (g : DiGraph)
      → arcs u v (add_edge a b g) ≡ (if (a == u) && (b == v) then suc (arcs u v g) else arcs u v g)
  pub arcs-remove_edge :
      (u v a b : ℕ) (g : DiGraph)
      → arcs u v (remove_edge a b g) ≡ (if (a == u) && (b == v) then arcs u v g - 1 else arcs u v g)
  pub num_vertices-add_edge :
      (a b : ℕ) (g : DiGraph) → num_vertices (add_edge a b g) ≡ max (num_vertices g) (suc (max a b))
  pub num_vertices-remove_edge :
      (a b : ℕ) (g : DiGraph) → num_vertices (remove_edge a b g) ≡ num_vertices g

-- `edge(u, v, g).second`
abbrev pub has_edge : (lib : GraphLibrary) → ℕ → ℕ → lib.DiGraph → Bool
has_edge lib u v g = ltb 0 (lib.arcs u v g)
