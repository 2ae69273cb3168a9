-- ===== src/Topology/Components/Bridges.antt =====
-- utils/topology/rocketfuel-map-reader.cpp, ConnectBackboneRouters: the backbone graph, and the
-- edges that are added between its components.
use ndn_sim.Prelude.{
  ℕ, zero, suc, ◌+◌, ◌-◌, ◌*◌, ◌≤◌, ◌<◌, ◌≡◌, ◌⊎◌, refl, ◌∙◌, sym, subst, true, List, [], ◌∷◌,
  length, ok, arith, get_elem?-some, ◌==◌, Bool-cases, inl, inr,
}
use mathlib.Core.List.{Memᴰ}
use mathlib.Core.List.Memᴰ
use ndn_sim.Topology.Graph.{Graph, UndirectedGraphs, IsEdge, IsEdge-sym}
use ndn_sim.Topology.Components.{
  is_listed, Topology, add_vertices, add_links_of, add_links, node_map_of, backbone_graph, pick,
  connect_from,
}

mem-is_listed : (x : ℕ) (ys : List ℕ) → is_listed x ys ≡ true → Memᴰ x ys
mem-is_listed x [] h = cc
mem-is_listed x (y ∷ ys) h = elim (Bool-cases (x == y)) [
  | inl e ↦ Memᴰ.head (ground arith)
  | inr n ↦ Memᴰ.tail (mem-is_listed x ys (rw n at h))
]

-- The edges of the backbone graph are edges of the graph between vertices of nodeMap.
abbrev pub IsPart : Graph → List ℕ → Graph → Type 0
IsPart g node_map bb = (a b : ℕ) → IsEdge bb a b → IsEdge g a b × Memᴰ a node_map × Memᴰ b node_map

-- An edge between two neighbouring components.
abbrev pub IsBridged : (ℕ → List ℕ) → Graph → ℕ → Type 0
IsBridged subgraphs g j =
    (a : ℕ) × (b : ℕ) × Memᴰ a (subgraphs j) × Memᴰ b (subgraphs (j + 1)) × IsEdge g a b

abbrev pub IsMember : (ℕ → List ℕ) → ℕ → Type 0
IsMember subgraphs v = (j : ℕ) × Memᴰ v (subgraphs j)

module _ (lib : UndirectedGraphs) where
  add_vertices-mem :
      (vs : List ℕ) (bb : Graph) (v : ℕ)
      → Memᴰ v (add_vertices lib vs bb).vertices
      → Memᴰ v vs ⊎ Memᴰ v bb.vertices
  unfolding add_vertices
  add_vertices-mem [] bb v m = inr m
  add_vertices-mem (x ∷ vs) bb v m = elim (add_vertices-mem vs (lib.add_vertex x bb) v m) [
    | inl n ↦ inl (Memᴰ.tail n)
    | inr n ↦ elim ((lib.vertex_added x bb v).0 n) [ inl e ↦ inl (Memᴰ.head e) | inr o ↦ inr o ]
  ]

  mem-add_vertices :
      (vs : List ℕ) (bb : Graph) (v : ℕ)
      → Memᴰ v vs ⊎ Memᴰ v bb.vertices
      → Memᴰ v (add_vertices lib vs bb).vertices
  unfolding add_vertices
  mem-add_vertices [] bb v (inl m) = elim m [ ]
  mem-add_vertices [] bb v (inr m) = m
  mem-add_vertices (x ∷ vs) bb v (inl m) = elim (Memᴰ.cases_cons m) [
    | inl e ↦
        mem-add_vertices vs (lib.add_vertex x bb) v (inr ((lib.vertex_added x bb v).1 (inl e)))
    | inr n ↦ mem-add_vertices vs (lib.add_vertex x bb) v (inl n)
  ]
  mem-add_vertices (x ∷ vs) bb v (inr m) =
      mem-add_vertices vs (lib.add_vertex x bb) v (inr ((lib.vertex_added x bb v).1 (inr m)))

  add_vertices-edges : (vs : List ℕ) (bb : Graph) → (add_vertices lib vs bb).edges ≡ bb.edges
  unfolding add_vertices
  add_vertices-edges [] bb = refl
  add_vertices-edges (x ∷ vs) bb =
      add_vertices-edges vs (lib.add_vertex x bb) ∙ lib.no_edge_added x bb

  module _ (g : Graph) (node_map : List ℕ) where
    add_links_of-IsPart :
        (v : ℕ) (us : List ℕ) (bb : Graph)
        → Memᴰ v node_map
        → ((u : ℕ) → Memᴰ u us → IsEdge g v u)
        → IsPart g node_map bb
        → IsPart g node_map (add_links_of lib node_map v us bb)
          × ((add_links_of lib node_map v us bb).vertices ≡ bb.vertices)
    unfolding add_links_of
    add_links_of-IsPart v [] bb m near p = (p, refl)
    add_links_of-IsPart v (u ∷ us) bb m near p =
        let later = λ (w : ℕ) (n : Memᴰ w us). near w (Memᴰ.tail n) in
        elim (Bool-cases (is_listed u node_map)) [
          | inr n ↦ rw (n, add_links_of) (add_links_of-IsPart v us bb m later p)
          | inl y ↦
              let first = near u (Memᴰ.head refl) in
              let listed = mem-is_listed u node_map y in
              let (q, e) = add_links_of-IsPart v us (lib.add_edge v u bb) m later (λ a b i.
                elim ((lib.edges_added v u bb a b).0 i) [
                  | inl old ↦ p a b old
                  | inr (inl (s, t)) ↦ rw (s, t) (first, m, listed)
                  | inr (inr (s, t)) ↦ rw (s, t) (IsEdge-sym g v u first, listed, m)
                ]) in
              rw (y, add_links_of) (q, e ∙ lib.vertices_added v u bb)
        ]

    add_links-IsPart :
        (vs : List ℕ) (bb : Graph)
        → ((v : ℕ) → Memᴰ v vs → Memᴰ v node_map)
        → IsPart g node_map bb
        → IsPart g node_map (add_links lib g node_map vs bb)
          × ((add_links lib g node_map vs bb).vertices ≡ bb.vertices)
    unfolding add_links
    add_links-IsPart [] bb m p = (p, refl)
    add_links-IsPart (v ∷ vs) bb m p =
        let (q, e) =
          add_links_of-IsPart v (lib.adjacent_vertices g v) bb (m v (Memᴰ.head refl))
            (λ u n. (lib.adjacent g v u).0 n) p in
        let (r, f) = add_links-IsPart vs _ (λ w n. m w (Memᴰ.tail n)) q in (r, f ∙ e)

  pub backbone_graph-IsPart :
      (t : Topology)
      → IsPart t.graph (node_map_of t) (backbone_graph lib t)
        × ((v : ℕ)
            → (Memᴰ v (backbone_graph lib t).vertices → Memᴰ v (node_map_of t))
              × (Memᴰ v (node_map_of t) → Memᴰ v (backbone_graph lib t).vertices))
  unfolding backbone_graph
  backbone_graph-IsPart t =
      let node_map = node_map_of t in
      let start = add_vertices lib node_map (record { vertices = []; edges = [] }) in
      let in_map : (v : ℕ) → Memᴰ v start.vertices → Memᴰ v node_map = λ v m.
        elim (add_vertices-mem node_map (record { vertices = []; edges = [] }) v m) [
          | inl n ↦ n
          | inr n ↦ elim n [ ]
        ] in
      let none_yet = add_vertices-edges node_map (record { vertices = []; edges = [] }) in
      let (p, e) = add_links-IsPart t.graph node_map start.vertices start in_map (λ a b i.
        elim (subst (λ es. Memᴰ (a, b) es ⊎ Memᴰ (b, a) es) none_yet i) [
          | inl n ↦ elim n [ ]
          | inr n ↦ elim n [ ]
        ]) in
      (
        p,
        λ v. (
          λ m. in_map v (subst (Memᴰ v) e m),
          λ m. subst (Memᴰ v) (sym e) (mem-add_vertices node_map _ v (inl m)),
        ),
      )

  module _ (get_integer : ℕ → ℕ → ℕ) (within : (draw n : ℕ) → get_integer draw n ≤ n)
      (subgraphs : ℕ → List ℕ) where
    pick-ok :
        (draw i : ℕ)
        → 0 < length (subgraphs i)
        → (v : ℕ) × (pick get_integer draw (subgraphs i) ≡ ok v) × Memᴰ v (subgraphs i)
    unfolding pick
    pick-ok draw i h =
        let size = length (subgraphs i) in
        let low = within draw (size - 1) in
        let (v, e, m) =
          get_elem?-some (subgraphs i) (get_integer draw (size - 1)) (omega (arith, low)) in
        (v, rw e refl, m)

    pub connect_from-ok :
        (rounds i : ℕ) (g : Graph)
        → ((j : ℕ) → j < i + rounds → (0 < length (subgraphs j)) × (0 < length (subgraphs (j + 1))))
        → (g' : Graph) × (connect_from lib get_integer subgraphs rounds i g ≡ ok g')
          × (g'.vertices ≡ g.vertices)
          × ((u v : ℕ) → IsEdge g u v → IsEdge g' u v)
          × ((j : ℕ) → i ≤ j → j < i + rounds → IsBridged subgraphs g' j)
          × ((u v : ℕ)
              → IsEdge g' u v
              → IsEdge g u v ⊎ (IsMember subgraphs u × IsMember subgraphs v))
    unfolding connect_from
    connect_from-ok zero i g h =
        (g, refl, refl, λ u v e. e, λ j l m. absurd (omega arith), λ u v e. inl e)
    connect_from-ok (suc rounds) i g h =
        let (a, d, m) = pick-ok (2 * i) i (h i (omega arith)).0 in
        let (b, e, n) = pick-ok (2 * i + 1) (i + 1) (h i (omega arith)).1 in
        let (g', f, same, keeps, bridges, new) =
          connect_from-ok rounds (i + 1) (lib.add_edge a b g) (λ j l. h j (omega arith)) in
        (
          g',
          rw (d, e) f,
          same ∙ lib.vertices_added a b g,
          λ u v k. keeps u v ((lib.edges_added a b g u v).1 (inl k)),
          λ j l k. elim (Bool-cases (j == i)) [
            | inl y ↦
                let q : j ≡ i = ground arith in
                rw q
                  (a, b, m, n, keeps a b ((lib.edges_added a b g a b).1 (inr (inl (refl, refl)))))
            | inr o ↦ bridges j (ground arith) (omega arith)
          ],
          λ u v k. elim (new u v k) [
            | inr pair ↦ inr pair
            | inl k' ↦ elim ((lib.edges_added a b g u v).0 k') [
              | inl old ↦ inl old
              | inr (inl (p, q)) ↦ rw (p, q) (inr ((i, m), (i + 1, n)))
              | inr (inr (p, q)) ↦ rw (p, q) (inr ((i + 1, n), (i, m)))
            ]
          ],
        )
