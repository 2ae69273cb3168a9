-- ===== src/Routing/FillFib.antt =====
-- helper/lfid/ndn-global-routing-helper-lfid.cpp, CalculateLfidRoutes: step 4, which fills the
-- abstract FIB of a node from the distances. `int` sums do not overflow here.
pub mod Validity
use ndn_sim.Prelude.{
  ℕ, ◌+◌, ◌-◌, ◌^◌, ◌%◌, ◌≡◌, Bool, true, false, not, List, [], ◌∷◌, Option, none, some, arith, ltb,
  leb, ◌==◌, if◌then◌else◌, Result, ok, err, abort, out_of_range, ◌>>=◌, ◌>>◌, guard, or_fail,
}
use ndn_sim.Prelude.Int.{ℤ, pos, ◌+ℤ◌, ◌-ℤ◌, ltb_ℤ, leb_ℤ}
use ndn_sim.Prelude.AssocMap.{lookup}
use ndn_sim.Lfid.NextHop.{FibNextHop, NextHopType, downward, upward, fib_next_hop}
use ndn_sim.Lfid.Fib
use ndn_sim.Lfid.Fib.{AbstractFib}
use ndn_sim.Routing.Network.{Face, GlobalRouter}
use ndn_sim.Routing.Weights.{Weight, inf_cost}

-- `GetObject<Node>()->GetId()` of a router; a channel's router has no node.
abbrev pub node_of : List (ℕ × GlobalRouter) → ℕ → Result ℕ
node_of routers router = or_fail (lookup router routers) abort >>= λ gr. or_fail gr.node abort

-- `static_cast<int>` of an unsigned number
abbrev pub to_int : ℕ → ℤ
to_int n = if ltb (n % 2 ^ 32) (2 ^ 31) then pos (n % 2 ^ 32) else pos (n % 2 ^ 32) -ℤ pos (2 ^ 32)

-- The nexthop by a neighbour, from the costs; none where the way would lead back.
unfoldable pub nexthop_by : ℕ → ℤ → ℤ → ℤ → Result (Option FibNextHop)
nexthop_by nb_id neighbor_cost neighbor_total_cost sp_total_cost = do
  guard (leb_ℤ sp_total_cost neighbor_total_cost) abort
  let type = if ltb_ℤ neighbor_cost sp_total_cost then downward else upward
  if leb_ℤ (pos inf_cost) neighbor_total_cost
      then ok none
      else (fib_next_hop neighbor_total_cost (pos nb_id) (neighbor_total_cost -ℤ sp_total_cost) type
          >>= λ nh. ok (some nh))

unfoldable pub insert_if_some : ℕ → Option FibNextHop → AbstractFib → Result AbstractFib
insert_if_some dst none fib = ok fib
insert_if_some dst (some nh) fib = Fib.insert dst nh fib

module _ (face_map : List (ℕ × ℕ)) (faces : List (ℕ × Face)) where
  -- The loop over the neighbours, for one destination.
  unfoldable pub fill_dst :
      ℕ → ℕ → ℤ → List (ℕ × List (ℕ × Weight)) → AbstractFib → Result AbstractFib
  unfolding nexthop_by insert_if_some
  fill_dst dst_router dst_id sp_total_cost [] fib = ok fib
  fill_dst dst_router dst_id sp_total_cost ((nb_id, sp) ∷ sp_map) fib = do
    nb_dist ← or_fail (lookup dst_router sp) out_of_range
    id ← or_fail (lookup nb_id face_map) out_of_range
    face ← or_fail (lookup id faces) abort
    nh ←
        nexthop_by nb_id (to_int nb_dist.cost) (to_int nb_dist.cost +ℤ to_int face.metric)
          sp_total_cost
    fib' ← insert_if_some dst_id nh fib
    fill_dst dst_router dst_id sp_total_cost sp_map fib'

-- The loop over the destinations.
unfoldable pub fill_fib :
    List (ℕ × GlobalRouter)
    → ℕ
    → List (ℕ × ℕ)
    → List (ℕ × List (ℕ × Weight))
    → List (ℕ × Face)
    → List (ℕ × Weight)
    → AbstractFib
    → Result AbstractFib
unfolding fill_dst
fill_fib routers source face_map sp_map faces [] fib = ok fib
fill_fib routers source face_map sp_map faces ((router, dist) ∷ dists) fib = do
  dst_id ← node_of routers router
  fib' ←
      (if router == source
        then ok fib
        else fill_dst face_map faces router dst_id (to_int dist.cost) sp_map fib)
  fill_fib routers source face_map sp_map faces dists fib'
