-- ===== src/Routing/FillFib/Validity.antt =====
-- helper/lfid/ndn-global-routing-helper-lfid.cpp, CalculateLfidRoutes: filling an abstract FIB
-- keeps it valid.
use ndn_sim.Prelude.{
  ℕ, ◌&&◌, ◌||◌, not, Bool-cases, inl, inr, List, [], ◌∷◌, Option, none, some, Result, abort,
  verify, out_of_range, ◌==◌, Ends, Ends-bind, Ends-guard, Ends-or_fail, Ends-from_eq, returns,
}
use ndn_sim.Prelude.Int.{ℤ, pos, ltb_ℤ, leb_ℤ, ◌+ℤ◌, ◌-ℤ◌}
use ndn_sim.Prelude.OrderedSet
use ndn_sim.Prelude.AssocMap.{lookup}
use ndn_sim.Lfid.NextHop.{
  FibNextHop, NextHopType, is_upward, is_downward, fib_next_hop, max_cost, node_id_limit, by_cost,
}
use ndn_sim.Lfid.Fib
use ndn_sim.Lfid.Fib.{AbstractFib, insert_upward}
use ndn_sim.Lfid.Fib.Invariant.{IsValid}
use ndn_sim.Lfid.Fib.Insertion.{insert-IsValid}
use ndn_sim.Routing.Network.{Face, GlobalRouter}
use ndn_sim.Routing.Weights.{Weight, inf_cost}
use ndn_sim.Routing.FillFib.{node_of, to_int, nexthop_by, insert_if_some, fill_dst, fill_fib}

abbrev pub AnyEnd {ℓ} : {A : Type ℓ} → Result A → Type ℓ
AnyEnd r = Ends (λ _. Unit {0}) r

insert_upward-Ends :
    (dst : ℕ) (nh : FibNextHop) (fib : AbstractFib) → AnyEnd (insert_upward dst nh fib)
unfolding insert_upward
insert_upward-Ends dst nh fib =
    Ends-bind (λ _. Unit {0}) (Ends-or_fail (lookup dst fib.upward_per_dst_fib) out_of_range tt)
      λ u _. Ends-guard (not (OrderedSet.has by_cost nh u)) verify tt λ _. returns tt

insert-Ends : (dst : ℕ) (nh : FibNextHop) (fib : AbstractFib) → AnyEnd (Fib.insert dst nh fib)
unfolding Fib.insert
insert-Ends dst nh fib = Ends-guard (is_downward nh.type || is_upward nh.type) abort tt λ _.
    Ends-guard (not (nh.nh_id == fib.node_id)) abort tt λ _.
      Ends-bind (λ _. Unit {0}) (Ends-or_fail (lookup dst fib.per_dst_fib) out_of_range tt)
        λ set _. Ends-guard (not (OrderedSet.has by_cost nh set)) verify tt λ _.
          elim (Bool-cases (is_upward nh.type)) [
            | inl e ↦ rw e (insert_upward-Ends dst nh _)
            | inr e ↦ rw e (returns tt)
          ]

fib_next_hop-Ends :
    (cost nh_id delta : ℤ) (type : NextHopType) → AnyEnd (fib_next_hop cost nh_id delta type)
unfolding fib_next_hop
fib_next_hop-Ends cost nh_id delta type =
    Ends-guard (ltb_ℤ (pos 0) cost && leb_ℤ cost (pos max_cost)) abort tt λ _.
      Ends-guard (leb_ℤ (pos 0) nh_id && leb_ℤ nh_id (pos node_id_limit)) abort tt λ _. returns tt

nexthop_by-Ends : (nb_id : ℕ) (c t s : ℤ) → AnyEnd (nexthop_by nb_id c t s)
unfolding nexthop_by
nexthop_by-Ends nb_id c t s = Ends-guard (leb_ℤ s t) abort tt λ _.
    elim (Bool-cases (leb_ℤ (pos inf_cost) t)) [
      | inl e ↦ rw e (returns tt)
      | inr e ↦ rw e (
          Ends-bind (λ _. Unit {0}) (fib_next_hop-Ends t (pos nb_id) (t -ℤ s) _) λ nh _. returns tt)
    ]

insert_if_some-Ends :
    (dst : ℕ) (nh : Option FibNextHop) (fib : AbstractFib)
    → IsValid fib
    → Ends IsValid (insert_if_some dst nh fib)
unfolding insert_if_some
insert_if_some-Ends dst none fib v = returns v
insert_if_some-Ends dst (some nh) fib v =
    Ends-from_eq (insert-Ends dst nh fib) λ fib' e. insert-IsValid dst nh fib fib' v e

module _ (face_map : List (ℕ × ℕ)) (faces : List (ℕ × Face)) where
  fill_dst-Ends :
      (router dst : ℕ) (s : ℤ) (sp_map : List (ℕ × List (ℕ × Weight))) (fib : AbstractFib)
      → IsValid fib
      → Ends IsValid (fill_dst face_map faces router dst s sp_map fib)
  unfolding fill_dst
  fill_dst-Ends router dst s [] fib v = returns v
  fill_dst-Ends router dst s ((nb_id, sp) ∷ sp_map) fib v =
      Ends-bind (λ _. Unit {0}) (Ends-or_fail (lookup router sp) out_of_range tt)
        λ w _.
          Ends-bind (λ _. Unit {0}) (Ends-or_fail (lookup nb_id face_map) out_of_range tt)
            λ id _.
              Ends-bind (λ _. Unit {0}) (Ends-or_fail (lookup id faces) abort tt)
                λ face _.
                  Ends-bind (λ _. Unit {0})
                    (nexthop_by-Ends nb_id (to_int w.cost) (to_int w.cost +ℤ to_int face.metric) s)
                    λ nh _.
                      Ends-bind IsValid (insert_if_some-Ends dst nh fib v)
                        λ fib' v'. fill_dst-Ends router dst s sp_map fib' v'

pub node_of-Ends :
    (routers : List (ℕ × GlobalRouter)) (router : ℕ) → AnyEnd (node_of routers router)
node_of-Ends routers router =
    Ends-bind (λ _. Unit {0}) (Ends-or_fail (lookup router routers) abort tt)
      λ gr _. Ends-or_fail gr.node abort tt

-- Filling ends, and keeps the FIB valid.
pub fill_fib-Ends :
    (routers : List (ℕ × GlobalRouter)) (source : ℕ) (face_map : List (ℕ × ℕ))
    (sp_map : List (ℕ × List (ℕ × Weight))) (faces : List (ℕ × Face)) (dists : List (ℕ × Weight))
    (fib : AbstractFib)
    → IsValid fib
    → Ends IsValid (fill_fib routers source face_map sp_map faces dists fib)
unfolding fill_fib
fill_fib-Ends routers source face_map sp_map faces [] fib v = returns v
fill_fib-Ends routers source face_map sp_map faces ((router, dist) ∷ dists) fib v =
    Ends-bind (λ _. Unit {0}) (node_of-Ends routers router)
      λ dst _. elim (Bool-cases (router == source)) [
        | inl e ↦ rw e (fill_fib-Ends routers source face_map sp_map faces dists fib v)
        | inr e ↦ rw e (
            Ends-bind IsValid
              (fill_dst-Ends face_map faces router dst (to_int dist.cost) sp_map fib v)
              λ fib' v'. fill_fib-Ends routers source face_map sp_map faces dists fib' v')
      ]
