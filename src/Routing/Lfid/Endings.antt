-- ===== src/Routing/Lfid/Endings.antt =====
-- helper/lfid/ndn-global-routing-helper-lfid.cpp, CalculateLfidRoutes: its calls end.
use ndn_sim.Prelude.{
  ℕ, ◌&&◌, ◌||◌, not, Bool, Bool-cases, inl, inr, List, [], ◌∷◌, length, Option, false, abort,
  verify, out_of_range, or_fail, ◌==◌, ltb, leb, Ends-bind, Ends-guard, Ends-or_fail, returns,
  stops,
}
use ndn_sim.Prelude.AssocMap.{lookup}
use ndn_sim.Lfid.NextHop.{FibNextHop, is_downward, max_cost}
use ndn_sim.Lfid.Fib.{
  AbstractFib, abstract_fib, check_inputs, max_size, check_fib, check_sets, check_set,
  check_nexthops, mem,
}
use ndn_sim.Routing.Network.{Face, Incidency, GlobalRouter}
use ndn_sim.Routing.Weights.{Weight, inf_cost}
use ndn_sim.Routing.Routes.{ShortestPaths}
use ndn_sim.Routing.FillFib.Validity.{AnyEnd, node_of-Ends}
use ndn_sim.Routing.Lfid.{Saved, cut_links, neighbor_distances, reset_links, neighbor_paths}

or_fail-Ends {ℓ} : {A : Type ℓ} (o : Option A) → AnyEnd (or_fail o abort)
or_fail-Ends o = Ends-or_fail o abort tt

pub cut_links-Ends :
    (routers : List (ℕ × GlobalRouter)) (node_id : ℕ) (neighbors : List Incidency) (saved : Saved)
    (faces : List (ℕ × Face))
    → AnyEnd (cut_links routers node_id neighbors saved faces)
unfolding cut_links
cut_links-Ends routers node_id [] saved faces = returns tt
cut_links-Ends routers node_id (neighbor ∷ neighbors) saved faces =
    Ends-bind (λ _. Unit {0}) (node_of-Ends routers neighbor.other)
      λ nb_id _. Ends-guard (not (nb_id == node_id)) abort tt λ _.
        Ends-bind (λ _. Unit {0}) (or_fail-Ends neighbor.face)
          λ id _.
            Ends-bind (λ _. Unit {0}) (or_fail-Ends (lookup id faces))
              λ face _. cut_links-Ends routers node_id neighbors _ _

pub neighbor_distances-Ends :
    (sp : ShortestPaths) (routers : List (ℕ × GlobalRouter)) (faces : List (ℕ × Face))
    (node_id source : ℕ) (neighbors : List Incidency) (sp_map : List (ℕ × List (ℕ × Weight)))
    → AnyEnd (neighbor_distances sp routers faces node_id source neighbors sp_map)
unfolding neighbor_distances
neighbor_distances-Ends sp routers faces node_id source [] sp_map = returns tt
neighbor_distances-Ends sp routers faces node_id source (neighbor ∷ neighbors) sp_map =
    Ends-bind (λ _. Unit {0}) (node_of-Ends routers neighbor.other)
      λ nb_id _. Ends-guard (not (neighbor.other == source) && not (nb_id == node_id)) abort tt λ _.
        Ends-guard (neighbor.own == source) abort tt
          λ _. neighbor_distances-Ends sp routers faces node_id source neighbors _

pub reset_links-Ends :
    (routers : List (ℕ × GlobalRouter)) (node_id : ℕ) (metrics : List (ℕ × ℕ))
    (neighbors : List Incidency) (faces : List (ℕ × Face))
    → AnyEnd (reset_links routers node_id metrics neighbors faces)
unfolding reset_links
reset_links-Ends routers node_id metrics [] faces = returns tt
reset_links-Ends routers node_id metrics (neighbor ∷ neighbors) faces =
    Ends-bind (λ _. Unit {0}) (node_of-Ends routers neighbor.other)
      λ nb_id _. Ends-guard (not (nb_id == node_id)) abort tt λ _.
        Ends-bind (λ _. Unit {0}) (or_fail-Ends neighbor.face)
          λ id _.
            Ends-bind (λ _. Unit {0}) (or_fail-Ends (lookup id faces))
              λ face _. Ends-guard (face.metric == inf_cost) abort tt λ _.
                Ends-bind (λ _. Unit {0}) (Ends-or_fail (lookup nb_id metrics) out_of_range tt)
                  λ metric _. reset_links-Ends routers node_id metrics neighbors _

check_nexthops-Ends :
    (seen : List ℕ) (down : Bool) (set : List FibNextHop) → AnyEnd (check_nexthops seen down set)
unfolding check_nexthops
check_nexthops-Ends seen down [] = returns tt
check_nexthops-Ends seen down (nh ∷ set) =
    Ends-guard (ltb 0 nh.cost && ltb nh.cost max_cost) verify tt λ _.
      Ends-guard (not (mem nh.nh_id seen)) verify tt
        λ _. check_nexthops-Ends (nh.nh_id ∷ seen) (down || is_downward nh.type) set

check_set-Ends : (set : List FibNextHop) → AnyEnd (check_set set)
unfolding check_set
check_set-Ends set =
    Ends-bind (λ _. Unit {0}) (check_nexthops-Ends [] false set)
      λ r _. Ends-guard (r.1 || (length set == 0)) verify tt λ _.
        elim (Bool-cases (length r.0 == length set)) [
          | inl e ↦ rw e (returns tt)
          | inr e ↦ rw e (stops tt)
        ]

check_sets-Ends : (m : List (ℕ × List FibNextHop)) → AnyEnd (check_sets m)
unfolding check_sets
check_sets-Ends [] = returns tt
check_sets-Ends ((dst, set) ∷ m) =
    Ends-bind (λ _. Unit {0}) (check_set-Ends set) λ u _. check_sets-Ends m

pub check_fib-Ends : (fib : AbstractFib) → AnyEnd (check_fib fib)
unfolding check_fib
check_fib-Ends fib =
    Ends-guard (ltb 0 (length fib.per_dst_fib)) verify tt λ _. check_sets-Ends fib.per_dst_fib

check_inputs-Ends : (fib : AbstractFib) → AnyEnd (check_inputs fib)
unfolding check_inputs
check_inputs-Ends fib = Ends-guard (leb fib.node_id max_size) abort tt λ _.
    Ends-guard (ltb 0 (length fib.node_name) && leb (length fib.node_name) max_size) abort tt λ _.
      Ends-guard (leb fib.node_degree max_size) abort tt λ _.
        elim (Bool-cases (ltb 1 fib.number_of_nodes && leb fib.number_of_nodes max_size)) [
          | inl e ↦ rw e (returns tt)
          | inr e ↦ rw e (stops tt)
        ]

pub abstract_fib-Ends :
    (node n degree router : ℕ) (name : List ℕ) → AnyEnd (abstract_fib node name n degree router)
unfolding abstract_fib
abstract_fib-Ends node n degree router name =
    Ends-bind (λ _. Unit {0}) (check_inputs-Ends _) λ u _. returns tt

pub neighbor_paths-Ends :
    (sp : ShortestPaths) (routers : List (ℕ × GlobalRouter)) (node_id source : ℕ)
    (neighbors : List Incidency) (faces : List (ℕ × Face))
    → AnyEnd (neighbor_paths sp routers node_id source neighbors faces)
unfolding neighbor_paths
neighbor_paths-Ends sp routers node_id source neighbors faces =
    Ends-bind (λ _. Unit {0}) (cut_links-Ends routers node_id neighbors _ faces)
      λ r _.
        Ends-bind (λ _. Unit {0})
          (neighbor_distances-Ends sp routers r.1 node_id source neighbors [])
          λ sp_map _.
            Ends-bind (λ _. Unit {0}) (reset_links-Ends routers node_id r.0.metrics neighbors r.1)
              λ faces' _. returns tt
