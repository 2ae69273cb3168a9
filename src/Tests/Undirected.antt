-- ===== src/Tests/Undirected.antt =====
-- An implementation of the undirected graphs that the topology reader uses: as lists.
use ndn_sim.Prelude.{
  ℕ, ◌≡◌, ◌≢◌, ◌↔◌, ◌⊎◌, refl, ap, Bool, true, false, not, List, [], ◌∷◌, ◌++◌, arith, filter,
  mem-filter, ◌==◌, Bool-cases, inl, inr, if◌then◌else◌,
}
use mathlib.Core.List.{Memᴰ}
use mathlib.Core.List.Memᴰ
use ndn_sim.Topology.Graph.{Graph, IsEdge, IsPair, UndirectedGraphs}

abbrev pub targets : ℕ → List (ℕ × ℕ) → List ℕ
targets u [] = []
targets u ((a, b) ∷ es) =
    (if a == u then b ∷ [] else []) ++ ((if b == u then a ∷ [] else []) ++ targets u es)

if_mem : (c : Bool) (x y : ℕ) → Memᴰ x (if c then y ∷ [] else []) → (c ≡ true) × (x ≡ y)
if_mem true x y m = (refl, Memᴰ.eq_of_singleton m)
if_mem false x y m = elim m [ ]

pub targets-mem :
    (u v : ℕ) (es : List (ℕ × ℕ)) → Memᴰ v (targets u es) → Memᴰ (u, v) es ⊎ Memᴰ (v, u) es
targets-mem u v [] m = elim m [ ]
targets-mem u v ((a, b) ∷ es) m = elim (Memᴰ.append_cases (if a == u then b ∷ [] else []) m) [
  | inl n ↦
      let (c, e) = if_mem (a == u) v b n in
      let q : u ≡ a = ground arith in inl (Memᴰ.head (λ i. (q i, e i)))
  | inr rest ↦ elim (Memᴰ.append_cases (if b == u then a ∷ [] else []) rest) [
    | inl n ↦
        let (c, e) = if_mem (b == u) v a n in
        let q : u ≡ b = ground arith in inr (Memᴰ.head (λ i. (e i, q i)))
    | inr n ↦ elim (targets-mem u v es n) [ inl k ↦ inl (Memᴰ.tail k) | inr k ↦ inr (Memᴰ.tail k) ]
  ]
]

pub mem-targets :
    (u v : ℕ) (es : List (ℕ × ℕ)) → Memᴰ (u, v) es ⊎ Memᴰ (v, u) es → Memᴰ v (targets u es)
mem-targets u v [] (inl m) = elim m [ ]
mem-targets u v [] (inr m) = elim m [ ]
mem-targets u v ((a, b) ∷ es) (inl m) = elim (Memᴰ.cases_cons m) [
  | inl e ↦
      let q : (a == u) ≡ true = let p = ap (λ x. x.0) e in ground arith in
      Memᴰ.append_left {s = if a == u then b ∷ [] else []}
        ((if b == u then a ∷ [] else []) ++ targets u es) (rw q (Memᴰ.head (ap (λ x. x.1) e)))
  | inr k ↦
      Memᴰ.append_right (if a == u then b ∷ [] else [])
        (Memᴰ.append_right (if b == u then a ∷ [] else []) (mem-targets u v es (inl k)))
]
mem-targets u v ((a, b) ∷ es) (inr m) = elim (Memᴰ.cases_cons m) [
  | inl e ↦
      let q : (b == u) ≡ true = let p = ap (λ x. x.1) e in ground arith in
      Memᴰ.append_right (if a == u then b ∷ [] else []) (
        Memᴰ.append_left {s = if b == u then a ∷ [] else []} (targets u es)
          (rw q (Memᴰ.head (ap (λ x. x.0) e))))
  | inr k ↦
      Memᴰ.append_right (if a == u then b ∷ [] else [])
        (Memᴰ.append_right (if b == u then a ∷ [] else []) (mem-targets u v es (inr k)))
]

abbrev pub touches : ℕ → ℕ × ℕ → Bool
touches x (a, b) = if a == x then true else b == x

abbrev pub same_edge : ℕ × ℕ → ℕ × ℕ → Bool
same_edge (a, b) (u, v) = if u == a then v == b else false

abbrev pub cleared : ℕ → Graph → Graph
cleared x g = record g { edges = filter (λ e. not (touches x e)) g.edges }

pub cleared-edges :
    (x : ℕ) (g : Graph) (u v : ℕ) → IsEdge (cleared x g) u v ↔ (IsEdge g u v × (u ≢ x) × (v ≢ x))
cleared-edges x g u v =
    let at = λ (a b : ℕ). mem-filter (λ e. not (touches x e)) g.edges (a, b) in
    (
      λ e. elim e [
        | inl m ↦
            let (n, k) = (at u v).0 m in
            (inl n, λ q. ground (arith, k, q), λ q. ground (arith, k, q))
        | inr m ↦
            let (n, k) = (at v u).0 m in
            (inr n, λ q. ground (arith, k, q), λ q. ground (arith, k, q))
      ],
      λ (e, p, q).
          let no_u : (u == x) ≡ false = other u x p in
          let no_v : (v == x) ≡ false = other v x q in
          elim e [
            | inl m ↦ inl ((at u v).1 (m, ground (arith, no_u, no_v)))
            | inr m ↦ inr ((at v u).1 (m, ground (arith, no_u, no_v)))
          ],
    )
  where
    other : (a b : ℕ) → a ≢ b → (a == b) ≡ false
    other a b n = elim (Bool-cases (a == b)) [ inl y ↦ absurd (n (ground arith)) | inr k ↦ k ]

pub added :
    (a b : ℕ) (g : Graph) (u v : ℕ)
    → IsEdge (record g { edges = (a, b) ∷ g.edges }) u v ↔ (IsEdge g u v ⊎ IsPair a b u v)
added a b g u v = (
  λ e. elim e [
    | inl m ↦ elim (Memᴰ.cases_cons m) [
      | inl q ↦ inr (inl (ap (λ x. x.0) q, ap (λ x. x.1) q))
      | inr n ↦ inl (inl n)
    ]
    | inr m ↦ elim (Memᴰ.cases_cons m) [
      | inl q ↦ inr (inr (ap (λ x. x.1) q, ap (λ x. x.0) q))
      | inr n ↦ inl (inr n)
    ]
  ],
  λ o. elim o [
    | inl (inl m) ↦ inl (Memᴰ.tail m)
    | inl (inr m) ↦ inr (Memᴰ.tail m)
    | inr (inl (p, q)) ↦ inl (Memᴰ.head (λ i. (p i, q i)))
    | inr (inr (p, q)) ↦ inr (Memᴰ.head (λ i. (q i, p i)))
  ],
)

pub removed :
    (a b : ℕ) (g : Graph) (u v : ℕ)
    → Memᴰ (u, v) (filter (λ f. not (same_edge (a, b) f)) g.edges)
      ↔ (Memᴰ (u, v) g.edges × ((u ≢ a) ⊎ (v ≢ b)))
removed a b g u v =
    let at = mem-filter (λ f. not (same_edge (a, b) f)) g.edges (u, v) in
    (
      λ m.
          let (n, k) = at.0 m in
          (
            n,
            elim (Bool-cases (u == a)) [
              | inr o ↦ inl (λ q. ground (arith, o, q))
              | inl y ↦ inr (λ q. ground (arith, k, y, q))
            ],
          ),
      λ (m, o). at.1 (
        m,
        elim o [
          | inl n ↦ elim (Bool-cases (u == a)) [
            | inl y ↦ absurd (n (ground arith))
            | inr k ↦ rw k refl
          ]
          | inr n ↦ elim (Bool-cases (v == b)) [
            | inl y ↦ absurd (n (ground arith))
            | inr k ↦ ground (arith, k)
          ]
        ],
      ),
    )

-- Graphs as they are, with a given search for components.
abbrev pub lists : (Graph → (ℕ → ℕ) × ℕ) → UndirectedGraphs
lists components = record {
  adjacent_vertices = λ g u. targets u g.edges;
  adjacent = λ g u v. (targets-mem u v g.edges, mem-targets u v g.edges);
  add_vertex = λ x g. record g { vertices = x ∷ g.vertices };
  vertex_added =
      λ x g v. (Memᴰ.cases_cons, λ o. elim o [ inl e ↦ Memᴰ.head e | inr m ↦ Memᴰ.tail m ]);
  no_edge_added = λ x g. refl;
  add_edge = λ a b g. record g { edges = (a, b) ∷ g.edges };
  vertices_added = λ a b g. refl;
  edges_added = added;
  clear_vertex = cleared;
  vertices_cleared = λ x g. refl;
  edges_cleared = cleared-edges;
  remove_vertex = λ x g. record g { vertices = filter (λ v. not (v == x)) g.vertices };
  vertices_removed = λ x g. refl;
  edges_kept = λ x g. refl;
  remove_edge = λ e g. record g { edges = filter (λ f. not (same_edge e f)) g.edges };
  vertices_kept = λ e g. refl;
  edges_removed = removed;
  connected_components = components;
}
