-- ===== src/Tests/Paths.antt =====
-- Shortest paths of one link, an instance of what the routing helpers take from the Boost Graph
-- Library.
use ndn_sim.Prelude.{
  ℕ, ◌≡◌, refl, List, [], ◌∷◌, Option, none, some, arith, All, Option-cases, inl, inr,
}
use mathlib.Core.List.{Memᴰ}
use ndn_sim.Prelude.AssocMap.{lookup}
use ndn_sim.Routing.Network.{Face, Incidency, GlobalRouter}
use ndn_sim.Routing.Weights.{Weight, weight_zero, weight_combine, edge_weight, path_weight}
use ndn_sim.Routing.Routes.{IsReached, ShortestPaths}

abbrev to_neighbors : List (ℕ × Face) → List Incidency → List (ℕ × Weight)
to_neighbors faces [] = []
to_neighbors faces (edge ∷ edges) = (edge.other, edge_weight faces edge) ∷ to_neighbors faces edges

abbrev from_router : List (ℕ × Face) → ℕ → Option GlobalRouter → List (ℕ × Weight)
from_router faces source none = []
from_router faces source (some gr) = (source, weight_zero) ∷ to_neighbors faces gr.incidencies

abbrev one_link : List (ℕ × Face) → List (ℕ × GlobalRouter) → ℕ → List (ℕ × Weight)
one_link faces routers source = from_router faces source (lookup source routers)

combine_zero :
    (faces : List (ℕ × Face)) (edge : Incidency)
    → weight_combine weight_zero (edge_weight faces edge) ≡ edge_weight faces edge
unfolding weight_combine edge_weight
combine_zero faces edge = elim (Option-cases edge.face) [
  | inl e ↦ ground (arith, e)
  | inr (f, e) ↦ ground (arith, e, Option-cases (lookup f faces))
]

to_neighbors-IsReached :
    (faces : List (ℕ × Face)) (routers : List (ℕ × GlobalRouter)) (source : ℕ) (gr : GlobalRouter)
    (edges : List Incidency)
    → lookup source routers ≡ some gr
    → ((edge : Incidency) → Memᴰ edge edges → Memᴰ edge gr.incidencies)
    → All (IsReached faces routers source) (to_neighbors faces edges)
unfolding path_weight
to_neighbors-IsReached faces routers source gr [] k m = tt
to_neighbors-IsReached faces routers source gr (edge ∷ edges) k m = (
  λ f e. (edge ∷ [], (gr, k, m edge (Memᴰ.head refl), refl), combine_zero faces edge),
  to_neighbors-IsReached faces routers source gr edges k (λ x h. m x (Memᴰ.tail h)),
)

from_router-IsReached :
    (faces : List (ℕ × Face)) (routers : List (ℕ × GlobalRouter)) (source : ℕ)
    (o : Option GlobalRouter)
    → lookup source routers ≡ o
    → All (IsReached faces routers source) (from_router faces source o)
from_router-IsReached faces routers source none e = tt
from_router-IsReached faces routers source (some gr) e =
    ((λ f h. cc), to_neighbors-IsReached faces routers source gr gr.incidencies e (λ x h. h))

pub one_link-IsReached :
    (faces : List (ℕ × Face)) (routers : List (ℕ × GlobalRouter)) (source : ℕ)
    → All (IsReached faces routers source) (one_link faces routers source)
one_link-IsReached faces routers source =
    from_router-IsReached faces routers source (lookup source routers) refl

abbrev pub direct_paths : ShortestPaths
direct_paths = record { distances = one_link; reached = one_link-IsReached }
