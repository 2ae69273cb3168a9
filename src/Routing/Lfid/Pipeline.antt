-- ===== src/Routing/Lfid/Pipeline.antt =====
-- helper/lfid/ndn-global-routing-helper-lfid.cpp, CalculateLfidRoutes: filling, removal and
-- installation together.
use ndn_sim.Prelude.{
  ℕ, ◌<◌, ◌≡◌, refl, List, [], ◌∷◌, length, arith, Bool-cases, inl, inr, ok, abort, out_of_range,
  ◌==◌, Ends, Ends-bind, Ends-or_fail, Ends-with_eq, returns,
}
use ndn_sim.Prelude.AssocMap.{lookup}
use ndn_sim.Lfid.NextHop.{FibNextHop}
use ndn_sim.Lfid.AllNodes.{AllNodeFib, Erases, Erases-append}
use ndn_sim.Lfid.AllNodes.Downward.{downward_at, Erases-keeps}
use ndn_sim.Lfid.AllNodes.Shape.{
  Erases-AreKeyed, Erases-length, Erases-SetsAreDistinct, SetsAreDistinct-AreDistinct,
}
use ndn_sim.Lfid.Graph.{GraphLibrary}
use ndn_sim.Lfid.Loops.Run.{remove_loops-Erases}
use ndn_sim.Lfid.DeadEnds.Cleaned.{AreProper, IsClear, remove_dead_ends-Ends}
use ndn_sim.Routing.Network.{Face, GlobalRouter, Network}
use ndn_sim.Routing.Routes.{ShortestPaths, Command}
use ndn_sim.Routing.FillFib.Validity.{AnyEnd}
use ndn_sim.Routing.Lfid.{
  LfidState, fill_nodes, no_fibs, install_nexthops, install_dsts, install_all, remove_upward,
  calculate_lfid_routes,
}
use ndn_sim.Routing.Lfid.Filled.{IsFilled, fill_nodes-Ends}

-- Upward nexthops were erased, and no dead end is left; every node keeps its downward nexthops.
pub record IsPruned (fibs fibs' : AllNodeFib) : Type 0 where
  pub count : ℕ
  pub erases : Erases fibs count fibs'
  pub kept : (n d : ℕ) → downward_at n d fibs' ≡ downward_at n d fibs
  pub clear : (dst : ℕ) → dst < length fibs' → IsClear fibs' dst

remove_upward-Ends :
    (lib : GraphLibrary) (fibs : AllNodeFib)
    → IsFilled fibs
    → Ends (IsPruned fibs) (remove_upward lib fibs)
unfolding remove_upward
remove_upward-Ends lib fibs f =
    Ends-bind (λ r. Erases fibs r.1 r.0) (remove_loops-Erases lib fibs)
      λ r e.
        let valid = (Erases-keeps e f.valid).0 in
        let proper : AreProper r.0 = record {
          valid = valid;
          distinct = SetsAreDistinct-AreDistinct r.0 (Erases-SetsAreDistinct e f.valid f.distinct);
          keyed = Erases-AreKeyed e f.valid f.keyed;
        } in
        Ends-bind _ (remove_dead_ends-Ends r.0 proper) λ t c.
          let all = Erases-append e c.erases in
          returns (record {
            count = _;
            erases = all;
            kept = (Erases-keeps all f.valid).1;
            clear =
                λ dst b. c.clear dst (omega arith) (omega (arith, b, Erases-length c.erases valid));
          })

install_nexthops-Ends :
    (node_id : ℕ) (face_map : List (ℕ × ℕ)) (prefixes : List (List ℕ)) (nhs : List FibNextHop)
    → AnyEnd (install_nexthops node_id face_map prefixes nhs)
unfolding install_nexthops
install_nexthops-Ends node_id face_map prefixes [] = returns tt
install_nexthops-Ends node_id face_map prefixes (nh ∷ nhs) =
    elim (Bool-cases (length prefixes == 0)) [
      | inl e ↦ rw e (install_nexthops-Ends node_id face_map prefixes nhs)
      | inr e ↦ rw e (
          Ends-bind (λ _. Unit {0}) (Ends-or_fail (lookup nh.nh_id face_map) out_of_range tt)
            λ face _.
              Ends-bind (λ _. Unit {0}) (install_nexthops-Ends node_id face_map prefixes nhs)
                λ cs _. returns tt)
    ]

install_dsts-Ends :
    (routers : List (ℕ × GlobalRouter)) (fibs : AllNodeFib) (node_id : ℕ) (face_map : List (ℕ × ℕ))
    (sets : List (ℕ × List FibNextHop))
    → AnyEnd (install_dsts routers fibs node_id face_map sets)
unfolding install_dsts
install_dsts-Ends routers fibs node_id face_map [] = returns tt
install_dsts-Ends routers fibs node_id face_map ((dst, set) ∷ sets) =
    Ends-bind (λ _. Unit {0}) (Ends-or_fail (lookup dst fibs) out_of_range tt)
      λ fib _.
        Ends-bind (λ _. Unit {0}) (Ends-or_fail (lookup fib.own_router routers) abort tt)
          λ gr _.
            Ends-bind (λ _. Unit {0}) (install_nexthops-Ends node_id face_map gr.local_prefixes set)
              λ cs _.
                Ends-bind (λ _. Unit {0}) (install_dsts-Ends routers fibs node_id face_map sets)
                  λ rest _. returns tt

install_all-Ends :
    (routers : List (ℕ × GlobalRouter)) (face_maps : List (ℕ × List (ℕ × ℕ)))
    (fibs entries : AllNodeFib)
    → AnyEnd (install_all routers face_maps fibs entries)
unfolding install_all
install_all-Ends routers face_maps fibs [] = returns tt
install_all-Ends routers face_maps fibs ((node_id, fib) ∷ entries) =
    Ends-bind (λ _. Unit {0}) (Ends-or_fail (lookup node_id face_maps) out_of_range tt)
      λ face_map _.
        Ends-bind (λ _. Unit {0}) (install_dsts-Ends routers fibs node_id face_map fib.per_dst_fib)
          λ cs _.
            Ends-bind (λ _. Unit {0}) (install_all-Ends routers face_maps fibs entries)
              λ rest _. returns tt

-- The routes are those of FIBs that were filled, valid, and then pruned.
pub record IsLfidResult (sp : ShortestPaths) (net : Network) (r : List (ℕ × Face) × List Command)
    : Type 0 where
  pub state : LfidState
  pub filled : fill_nodes sp net.routers (length net.nodes) net.nodes (no_fibs net) ≡ ok state
  pub sound : IsFilled state.fibs
  pub fibs : AllNodeFib
  pub pruned : IsPruned state.fibs fibs
  pub faces : r.0 ≡ state.faces
  pub routes : install_all net.routers state.face_maps fibs fibs ≡ ok r.1

-- CalculateLfidRoutes does not run for ever. If it returns, the routes that it installs are those
-- of FIBs that come from the filled ones by erasing upward nexthops alone: every node keeps all its
-- downward nexthops for every destination, and no dead end is left for a destination below the
-- number of FIBs.
pub calculate_lfid_routes-Ends :
    (lib : GraphLibrary) (sp : ShortestPaths) (net : Network)
    → Ends (IsLfidResult sp net) (calculate_lfid_routes lib sp net)
unfolding calculate_lfid_routes
calculate_lfid_routes-Ends lib sp net =
    Ends-bind _
      (Ends-with_eq
        (fill_nodes-Ends sp net.routers (length net.nodes) net.nodes (no_fibs net) empty))
      λ s (e, f). Ends-bind (IsPruned s.fibs) (remove_upward-Ends lib s.fibs f) λ fibs p.
        Ends-bind _ (Ends-with_eq (install_all-Ends net.routers s.face_maps fibs fibs)) λ cs (i, u).
          returns (record {
            state = s;
            filled = e;
            sound = f;
            fibs = fibs;
            pruned = p;
            faces = refl;
            routes = i;
          })
  where
    empty : IsFilled []
    empty = record { valid = tt; distinct = tt; keyed = tt }
