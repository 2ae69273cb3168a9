-- ===== src/Topology/Components/Removal.antt =====
-- utils/topology/rocketfuel-map-reader.cpp, KeepOnlyBiggestConnectedComponent: the loops that remove the other
-- components.
use ndn_sim.Prelude.{
  ℕ, ◌≡◌, refl, ◌∙◌, ap, Bool, true, not, ◌&&◌, ◌||◌, List, [], ◌∷◌, arith, ◌==◌, filter,
  Bool-cases, inl, inr,
}
use mathlib.Core.List.{Memᴰ}
use mathlib.Core.List.Memᴰ
use ndn_sim.Topology.Graph.{Graph, UndirectedGraphs, IsEdge}
use ndn_sim.Topology.Components.{is_listed, clear_others, remove_others}

pub filter-ext :
    (p q : ℕ → Bool) (xs : List ℕ) → ((x : ℕ) → Memᴰ x xs → p x ≡ q x) → filter p xs ≡ filter q xs
filter-ext p q [] h = refl
filter-ext p q (x ∷ xs) h =
    ground (arith, filter-ext p q xs (λ y m. h y (Memᴰ.tail m)), h x (Memᴰ.head refl))

filter-filter :
    (p q : ℕ → Bool) (xs : List ℕ) → filter p (filter q xs) ≡ filter (λ x. q x && p x) xs
filter-filter p q [] = refl
filter-filter p q (x ∷ xs) = ground (arith, filter-filter p q xs)

pub is_listed-mem : (x : ℕ) (ys : List ℕ) → Memᴰ x ys → is_listed x ys ≡ true
is_listed-mem x [] m = elim m [ ]
is_listed-mem x (y ∷ ys) (Memᴰ.head e) = ground (arith, e)
is_listed-mem x (y ∷ ys) (Memᴰ.tail m) = ground (arith, is_listed-mem x ys m)

module _ (lib : UndirectedGraphs) (label : ℕ → ℕ) (largest : ℕ) where
  pub clear_others-vertices :
      (vs : List ℕ) (g : Graph) → (clear_others lib label largest vs g).vertices ≡ g.vertices
  unfolding clear_others
  clear_others-vertices [] g = refl
  clear_others-vertices (v ∷ vs) g = elim (Bool-cases (label v == largest)) [
    | inl y ↦ rw (y, clear_others) (clear_others-vertices vs g)
    | inr n ↦
        rw (n, clear_others)
          (clear_others-vertices vs (lib.clear_vertex v g) ∙ lib.vertices_cleared v g)
  ]

  pub clear_others-edges :
      (vs : List ℕ) (g : Graph) (u v : ℕ)
      → IsEdge (clear_others lib label largest vs g) u v
      → IsEdge g u v × (Memᴰ u vs → label u ≡ largest) × (Memᴰ v vs → label v ≡ largest)
  unfolding clear_others
  clear_others-edges [] g u v e = (e, λ m. elim m [ ], λ m. elim m [ ])
  clear_others-edges (x ∷ xs) g u v e = elim (Bool-cases (label x == largest)) [
    | inl y ↦
        let (f, a, b) = clear_others-edges xs g u v (rw (y, clear_others) at e) in
        let low : label x ≡ largest = ground arith in
        (
          f,
          λ m. elim (Memᴰ.cases_cons m) [ inl s ↦ ap label s ∙ low | inr l ↦ a l ],
          λ m. elim (Memᴰ.cases_cons m) [ inl s ↦ ap label s ∙ low | inr l ↦ b l ],
        )
    | inr n ↦
        let (f, a, b) =
          clear_others-edges xs (lib.clear_vertex x g) u v (rw (n, clear_others) at e) in
        let (f', u_other, v_other) = (lib.edges_cleared x g u v).0 f in
        (
          f',
          λ m. elim (Memᴰ.cases_cons m) [ inl s ↦ absurd (u_other s) | inr l ↦ a l ],
          λ m. elim (Memᴰ.cases_cons m) [ inl s ↦ absurd (v_other s) | inr l ↦ b l ],
        )
  ]

  pub clear_others-keeps :
      (vs : List ℕ) (g : Graph) (u v : ℕ)
      → IsEdge g u v
      → label u ≡ largest
      → label v ≡ largest
      → IsEdge (clear_others lib label largest vs g) u v
  unfolding clear_others
  clear_others-keeps [] g u v e a b = e
  clear_others-keeps (x ∷ xs) g u v e a b = elim (Bool-cases (label x == largest)) [
    | inl y ↦ rw (y, clear_others) (clear_others-keeps xs g u v e a b)
    | inr n ↦
        rw (n, clear_others)
          (clear_others-keeps xs (lib.clear_vertex x g) u v
            ((lib.edges_cleared x g u v).1 (
              e,
              λ s. let q = ap label s in absurd (ground (arith, n, a, q)),
              λ s. let q = ap label s in absurd (ground (arith, n, b, q)),
            ))
            a b)
  ]

  pub remove_others-edges :
      (vs : List ℕ) (g : Graph) → (remove_others lib label largest vs g).edges ≡ g.edges
  unfolding remove_others
  remove_others-edges [] g = refl
  remove_others-edges (v ∷ vs) g = elim (Bool-cases (label v == largest)) [
    | inl y ↦ rw (y, remove_others) (remove_others-edges vs g)
    | inr n ↦
        rw (n, remove_others) (remove_others-edges vs (lib.remove_vertex v g) ∙ lib.edges_kept v g)
  ]

  abbrev pub is_kept : List ℕ → ℕ → Bool
  is_kept vs v = (label v == largest) || not (is_listed v vs)

  pub remove_others-vertices :
      (vs : List ℕ) (g : Graph)
      → (remove_others lib label largest vs g).vertices ≡ filter (is_kept vs) g.vertices
  unfolding remove_others
  remove_others-vertices [] g = all g.vertices
    where
      all : (xs : List ℕ) → xs ≡ filter (is_kept []) xs
      all [] = refl
      all (x ∷ xs) = ground (arith, all xs)
  remove_others-vertices (x ∷ xs) g = elim (Bool-cases (label x == largest)) [
    | inl y ↦
        rw (y, remove_others)
          (remove_others-vertices xs g
            ∙ filter-ext _ _ g.vertices (λ v m.
              let q : v ≡ x → label v ≡ label x = ap label in
              elim (Bool-cases (v == x)) [
                | inl same ↦ let e : v ≡ x = ground arith in ground (arith, q e, y)
                | inr other ↦ ground arith
              ]))
    | inr n ↦
        rw (n, remove_others)
          (remove_others-vertices xs (lib.remove_vertex x g)
            ∙ ap (filter (is_kept xs)) (lib.vertices_removed x g)
            ∙ filter-filter _ _ g.vertices
            ∙ filter-ext (λ v. not (v == x) && is_kept xs v) _ g.vertices
                (λ v m. elim (Bool-cases (v == x)) [
                  | inl same ↦
                      let e : v ≡ x = ground arith in let q = ap label e in ground (arith, q, n)
                  | inr other ↦ ground arith
                ]))
  ]
