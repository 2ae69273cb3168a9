-- ===== src/Topology/Lines/Valid.antt =====
-- utils/topology/rocketfuel-map-reader.cpp, GenerateFromMapsFile: what all lines keep.
use ndn_sim.Prelude.{
  ℕ, ◌≡◌, ◌⊎◌, refl, subst, sym, ◌||◌, List, [], ◌∷◌, ◌++◌, Option, none, some, ok, arith, ltb, All,
  Bool-cases, Option-cases, inl, inr, Ends, returns, Ends-bind,
}
use mathlib.Core.List.{Memᴰ}
use ndn_sim.Topology.Graph.{Graph, UndirectedGraphs, IsClosed}
use ndn_sim.Topology.Classes.{unknown}
use ndn_sim.Topology.Lines.{
  Text, eq_text, MapsLine, split_neighbors, atoi, drop_first, is_empty_text, is_space, Reader,
  find_node, add_node, find_or_add, add_neighbors, generate_from_maps_file, read_lines,
}

-- The edges have vertices as ends, no vertex has a type, and the vertices are those of the names.
pub record IsReader (r : Reader) : Type 0 where
  pub closed : IsClosed r.topology.graph
  pub fresh : (v : ℕ) → (r.topology.properties v).rank ≡ unknown
  pub named : All (λ e. Memᴰ e.1 r.topology.graph.vertices) r.graph_nodes

find_node-mem :
    (P : ℕ → Type 0) (uid : Text) (nodes : List (Text × ℕ)) (v : ℕ)
    → All (λ e. P e.1) nodes
    → find_node uid nodes ≡ some v
    → P v
find_node-mem P uid [] v a h = cc
find_node-mem P uid ((name, u) ∷ nodes) v a h = elim (Bool-cases (eq_text uid name)) [
  | inl y ↦ let same : u ≡ v = ground (arith, h, y) in subst P same a.0
  | inr n ↦ find_node-mem P uid nodes v a.1 (rw n at h)
]

All-snoc :
    (P Q : Text × ℕ → Type 0) (xs : List (Text × ℕ)) (x : Text × ℕ)
    → ((y : Text × ℕ) → P y → Q y)
    → All P xs
    → Q x
    → All Q (xs ++ x ∷ [])
All-snoc P Q [] x f a q = (q, tt)
All-snoc P Q (y ∷ xs) x f a q = (f y a.0, All-snoc P Q xs x f a.1 q)

module _ (lib : UndirectedGraphs) where
  add_node-IsReader :
      (uid : Text) (r : Reader)
      → IsReader r
      → IsReader (add_node lib uid r)
        × Memᴰ r.max_node_id (add_node lib uid r).topology.graph.vertices
  add_node-IsReader uid r h =
      let added = lib.vertex_added r.max_node_id r.topology.graph in
      let same = lib.no_edge_added r.max_node_id r.topology.graph in
      (
        record {
          closed = λ u v e.
              let (a, b) = h.closed u v (subst (λ es. Memᴰ (u, v) es ⊎ Memᴰ (v, u) es) same e) in
              ((added u).1 (inr a), (added v).1 (inr b));
          fresh = λ v. let f = h.fresh v in ground arith;
          named =
              All-snoc _ _ r.graph_nodes (uid, r.max_node_id) (λ y m. (added y.1).1 (inr m)) h.named
                ((added r.max_node_id).1 (inl refl));
        },
        (added r.max_node_id).1 (inl refl),
      )

  find_or_add-IsReader :
      (uid : Text) (r : Reader)
      → IsReader r
      → IsReader (find_or_add lib uid r).1
        × Memᴰ (find_or_add lib uid r).0 (find_or_add lib uid r).1.topology.graph.vertices
        × ((v : ℕ)
            → Memᴰ v r.topology.graph.vertices
            → Memᴰ v (find_or_add lib uid r).1.topology.graph.vertices)
  unfolding find_or_add
  find_or_add-IsReader uid r h = elim (Option-cases (find_node uid r.graph_nodes)) [
    | inr (v, e) ↦
        rw (e, find_or_add)
          (
            h,
            find_node-mem (λ x. Memᴰ x r.topology.graph.vertices) uid r.graph_nodes v h.named e,
            λ x m. m,
          )
    | inl e ↦
        let (k, m) = add_node-IsReader uid r h in
        rw (e, find_or_add)
          (k, m, λ x n. (lib.vertex_added r.max_node_id r.topology.graph x).1 (inr n))
  ]

  add_edge-IsClosed :
      (g : Graph) (a b : ℕ)
      → IsClosed g
      → Memᴰ a g.vertices
      → Memᴰ b g.vertices
      → IsClosed (lib.add_edge a b g)
  add_edge-IsClosed g a b c m n u v e =
      subst (λ vs. Memᴰ u vs × Memᴰ v vs) (sym (lib.vertices_added a b g))
        (elim ((lib.edges_added a b g u v).0 e) [
          | inl old ↦ c u v old
          | inr (inl (s, t)) ↦ rw (s, t) (m, n)
          | inr (inr (s, t)) ↦ rw (s, t) (n, m)
        ])

  add_neighbors-IsReader :
      (v : ℕ) (nuids : List Text) (r : Reader)
      → IsReader r
      → Memᴰ v r.topology.graph.vertices
      → IsReader (add_neighbors lib v nuids r)
  unfolding add_neighbors
  add_neighbors-IsReader v [] r h m = h
  add_neighbors-IsReader v (nuid ∷ nuids) r h m = elim (Bool-cases (is_empty_text nuid)) [
    | inl y ↦ rw (y, add_neighbors) (add_neighbors-IsReader v nuids r h m)
    | inr n ↦
        let (k, l, keeps) = find_or_add-IsReader nuid r h in
        let (u, r') = find_or_add lib nuid r in
        let vertices = lib.vertices_added v u r'.topology.graph in
        rw (n, add_neighbors)
          (add_neighbors-IsReader v nuids _
            (record {
              closed = add_edge-IsClosed r'.topology.graph v u k.closed (keeps v m) l;
              fresh = k.fresh;
              named = subst (λ vs. All (λ e. Memᴰ e.1 vs) r'.graph_nodes) (sym vertices) k.named;
            })
            (subst (Memᴰ v) (sym vertices) (keeps v m)))
  ]

  split_neighbors-Ends : (token text : Text) → Ends (λ _. Unit {0}) (split_neighbors token text)
  unfolding split_neighbors
  split_neighbors-Ends [] [] = Ends.stops tt
  split_neighbors-Ends (t ∷ ts) [] = returns tt
  split_neighbors-Ends token (c ∷ cs) = elim (Bool-cases (is_space c)) [
    | inl y ↦
        rw (y, split_neighbors)
          (Ends-bind (λ _. Unit {0}) (split_neighbors-Ends [] cs) (λ rest _. returns tt))
    | inr n ↦ rw (n, split_neighbors) (split_neighbors-Ends (token ++ c ∷ []) cs)
  ]

  generate_from_maps_file-Ends :
      (line : MapsLine) (r : Reader)
      → IsReader r
      → Ends IsReader (generate_from_maps_file lib line r)
  unfolding generate_from_maps_file
  generate_from_maps_file-Ends line r h =
      Ends-bind (λ _. Unit {0}) (neighbors line.neighbors)
        λ nuids _.
          elim (Bool-cases (ltb 0 (atoi 0 (drop_first line.radius)) || is_empty_text line.uid)) [
            | inl y ↦ rw y (returns h)
            | inr n ↦
                let (k, m, _) = find_or_add-IsReader line.uid r h in
                rw n (returns (add_neighbors-IsReader (find_or_add lib line.uid r).0 nuids _ k m))
          ]
    where
      neighbors :
          (group : Option Text)
          → Ends (λ _. Unit {0}) (elim group [ none ↦ ok [] | some text ↦ split_neighbors [] text ])
      neighbors none = returns tt
      neighbors (some text) = split_neighbors-Ends [] text

  -- The lines keep the graph valid, where they can be read.
  pub read_lines-Ends :
      (lines : List MapsLine) (r : Reader) → IsReader r → Ends IsReader (read_lines lib lines r)
  unfolding read_lines
  read_lines-Ends [] r h = returns h
  read_lines-Ends (line ∷ lines) r h =
      Ends-bind _ (generate_from_maps_file-Ends line r h) (read_lines-Ends lines)
