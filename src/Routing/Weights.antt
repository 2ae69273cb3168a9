-- ===== src/Routing/Weights.antt =====
-- helper/boost-graph-ndn-global-routing-helper.hpp: the weights with which the shortest paths are
-- computed. The third part of a weight, a delay that is 0 for every link, is left out.
use ndn_sim.Prelude.{
  ℕ, ◌+◌, ◌^◌, ◌%◌, ◌<◌, ◌≡◌, refl, sym, ap, ◌∙◌, Bool, false, List, [], ◌∷◌, Option, none, some,
  arith, ltb, Option-cases, inl, inr,
}
use ndn_sim.Prelude.AssocMap.{lookup}
use ndn_sim.Routing.Network.{Face, Incidency}

pub record Weight : Type 0 where
  pub face : Option ℕ
  pub cost : ℕ

abbrev pub weight_zero : Weight
weight_zero = record { face = none; cost = 0 }

-- the maximum of uint16_t
abbrev pub inf_cost : ℕ
inf_cost = 65535

abbrev pub weight_inf : Weight
weight_inf = record { face = none; cost = inf_cost }

-- WeightCompare
unfoldable pub weight_compare : Weight → Weight → Bool
weight_compare a b = ltb a.cost b.cost

-- WeightCombine: the face of the first link stays; the cost is a uint32_t.
unfoldable pub weight_combine : Weight → Weight → Weight
weight_combine a b = elim a.face [
  | none ↦ record { face = b.face; cost = (a.cost + b.cost) % (2 ^ 32) }
  | some f ↦ record { face = some f; cost = (a.cost + b.cost) % (2 ^ 32) }
]

-- `get` of the weight of a link, whose metric is cast to uint16_t. Every face of a link is in the list.
unfoldable pub edge_weight : (List (ℕ × Face)) → Incidency → Weight
edge_weight faces edge = elim edge.face [
  | none ↦ weight_zero
  | some f ↦ elim (lookup f faces) [
    | none ↦ record { face = some f; cost = 0 }
    | some face ↦ record { face = some f; cost = face.metric % (2 ^ 16) }
  ]
]

-- The weight of a path: its links are combined from the start, as the search for shortest paths
-- does it.
unfoldable pub path_weight : List (ℕ × Face) → Weight → List Incidency → Weight
unfolding weight_combine edge_weight
path_weight faces start [] = start
path_weight faces start (edge ∷ edges) =
    path_weight faces (weight_combine start (edge_weight faces edge)) edges

-- The first face that a link of the path has.
abbrev pub first_face : List Incidency → Option ℕ
first_face [] = none
first_face (edge ∷ edges) = elim edge.face [ none ↦ first_face edges | some f ↦ some f ]

-- The metrics of the faces of a path, each cut to 16 bits, and nothing for a link without a face.
abbrev pub cut_metric : Option Face → ℕ
cut_metric none = 0
cut_metric (some face) = face.metric % 65536

abbrev pub total_cost : List (ℕ × Face) → List Incidency → ℕ
total_cost faces [] = 0
total_cost faces (edge ∷ edges) =
    elim edge.face [ none ↦ 0 | some f ↦ cut_metric (lookup f faces) ] + total_cost faces edges

edge_weight-cost :
    (faces : List (ℕ × Face)) (edge : Incidency)
    → (edge_weight faces edge).cost
      ≡ elim edge.face [ none ↦ 0 | some f ↦ cut_metric (lookup f faces) ]
unfolding edge_weight
edge_weight-cost faces edge = elim (Option-cases edge.face) [
  | inl e ↦ rw e refl
  | inr (f, e) ↦ ground (arith, e, Option-cases (lookup f faces))
]

edge_weight-face :
    (faces : List (ℕ × Face)) (edge : Incidency) → (edge_weight faces edge).face ≡ edge.face
unfolding edge_weight
edge_weight-face faces edge = elim (Option-cases edge.face) [
  | inl e ↦ rw e refl
  | inr (f, e) ↦ ground (arith, e, Option-cases (lookup f faces))
]

or_first : Option ℕ → Option ℕ → Option ℕ
or_first none b = b
or_first (some a) b = some a

weight_combine_lem :
    (a b : Weight)
    → ((weight_combine a b).face ≡ or_first a.face b.face)
      × ((weight_combine a b).cost ≡ (a.cost + b.cost) % (2 ^ 32))
unfolding weight_combine or_first
weight_combine_lem a b = elim (Option-cases a.face) [
  | inl e ↦ (rw e refl, rw e refl)
  | inr (f, e) ↦ (rw e refl, rw e refl)
]

or_first-none : (a : Option ℕ) → or_first a none ≡ a
unfolding or_first
or_first-none none = refl
or_first-none (some x) = refl

or_first_assoc : (a b c : Option ℕ) → or_first (or_first a b) c ≡ or_first a (or_first b c)
unfolding or_first
or_first_assoc none b c = refl
or_first_assoc (some x) b c = refl

first_face_cons :
    (edge : Incidency) (edges : List Incidency)
    → first_face (edge ∷ edges) ≡ or_first edge.face (first_face edges)
unfolding or_first
first_face_cons edge edges = ground (arith, Option-cases edge.face)

path_weight_from :
    (faces : List (ℕ × Face)) (start : Weight) (edges : List Incidency)
    → start.cost < 2 ^ 32
    → ((path_weight faces start edges).face ≡ or_first start.face (first_face edges))
      × ((path_weight faces start edges).cost ≡ (start.cost + total_cost faces edges) % (2 ^ 32))
unfolding path_weight
path_weight_from faces start [] b = (sym (or_first-none start.face), omega (arith, b))
path_weight_from faces start (edge ∷ edges) b =
    let w = edge_weight faces edge in
    let (face, cost) = weight_combine_lem start w in
    let (f, c) = path_weight_from faces (weight_combine start w) edges (omega (arith, cost)) in
    (
      f
          ∙ (ap (λ o. or_first o (first_face edges))
                (face ∙ ap (or_first start.face) (edge_weight-face faces edge))
              ∙ (or_first_assoc start.face edge.face (first_face edges)
                  ∙ ap (or_first start.face) (sym (first_face_cons edge edges)))),
      omega (arith, c, cost, edge_weight-cost faces edge),
    )

-- The weight of a path is the face of the first link that has one, and the sum of the costs of its
-- links modulo 2 ^ 32, where each cost is the metric of the link's face modulo 2 ^ 16.
pub path_weight_lem :
    (faces : List (ℕ × Face)) (edges : List Incidency)
    → ((path_weight faces weight_zero edges).face ≡ first_face edges)
      × ((path_weight faces weight_zero edges).cost ≡ total_cost faces edges % (2 ^ 32))
unfolding or_first
path_weight_lem faces edges =
    let (f, c) = path_weight_from faces weight_zero edges (omega arith) in (f, omega (arith, c))

-- A longer path is never the shorter one, as long as the costs do not wrap: WeightCompare does not
-- put a weight combined with a link's before the weight itself.
weight_compare-weight_combine :
    (faces : List (ℕ × Face)) (w : Weight) (edge : Incidency)
    → w.cost + (edge_weight faces edge).cost < 2 ^ 32
    → weight_compare (weight_combine w (edge_weight faces edge)) w ≡ false
unfolding weight_compare
weight_compare-weight_combine faces w edge b =
    let (face, cost) = weight_combine_lem w (edge_weight faces edge) in ground (arith, cost, b)
