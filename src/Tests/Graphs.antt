-- ===== src/Tests/Graphs.antt =====
-- A graph library: the number of arcs between each two vertices, and distances by counting hops.
use ndn_sim.Prelude.{
  ℕ, zero, suc, ◌+◌, ◌-◌, refl, Bool, false, ◌&&◌, ◌||◌, ltb, ◌==◌, if◌then◌else◌, max,
}
use ndn_sim.Lfid.Graph.{GraphLibrary}
use ndn_sim.Lfid.Loops.{int_max}

pub record Arcs : Type 0 where
  pub count : ℕ → ℕ → ℕ
  pub vertices : ℕ

abbrev add_arc : ℕ → ℕ → Arcs → Arcs
add_arc a b g = record {
  count = λ u v. if (a == u) && (b == v) then suc (g.count u v) else g.count u v;
  vertices = max g.vertices (suc (max a b));
}

abbrev drop_arc : ℕ → ℕ → Arcs → Arcs
drop_arc a b g = record g {
  count = λ u v. if (a == u) && (b == v) then g.count u v - 1 else g.count u v;
}

-- Whether one vertex is reached from another: `hops` arcs or fewer, over vertices below `n`.
abbrev via : (ℕ → Bool) → ℕ → Bool
via f zero = false
via f (suc n) = f n || via f n

abbrev reached : Arcs → ℕ → ℕ → ℕ → Bool
reached g zero u v = u == v
reached g (suc hops) u v =
    (u == v) || via (λ w. ltb 0 (g.count u w) && reached g hops w v) g.vertices

abbrev search_hops : Arcs → ℕ → ℕ → ℕ → ℕ → ℕ
search_hops g zero hops u v = int_max
search_hops g (suc rounds) hops u v =
    if reached g hops u v then hops else search_hops g rounds (hops + 1) u v

abbrev pub arc_counts : GraphLibrary
arc_counts = record {
  DiGraph = Arcs;
  empty = record { count = λ u v. 0; vertices = 0 };
  add_edge = add_arc;
  remove_edge = drop_arc;
  arcs = λ u v g. g.count u v;
  num_vertices = λ g. g.vertices;
  distance = λ g u v. search_hops g g.vertices 0 u v;
  arcs-empty = λ u v. refl;
  arcs-add_edge = λ u v a b g. refl;
  arcs-remove_edge = λ u v a b g. refl;
  num_vertices-add_edge = λ a b g. refl;
  num_vertices-remove_edge = λ a b g. refl;
}
