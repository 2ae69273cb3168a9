-- ===== src/Lfid/Loops.antt =====
-- helper/lfid/remove-loops.cpp, getDigraphFromFib to removeLoops: upward nexthops through which a
-- packet could come back are taken out of the FIBs.
-- The priority queue is the list of its nodes; `remaining_nh` never falls below 0, since the
-- program stops at 0.
pub mod Termination
pub mod Run
pub mod Pending
pub mod Counted
pub mod Total
use ndn_sim.Prelude.{
  or_fail, ℕ, zero, suc, ◌+◌, ◌-◌, ◌^◌, ◌≡◌, Bool, true, false, not, ◌&&◌, ◌||◌, List, [], ◌∷◌,
  ◌++◌, Option, none, some, arith, ltb, leb, ◌==◌, if◌then◌else◌, length, Result, ok, err, Error,
  abort, out_of_range, no_fuel, ◌>>=◌, ◌>>◌, guard,
}
use ndn_sim.Prelude.OrderedSet
use ndn_sim.Lfid.NextHop.{FibNextHop, is_disabled, by_cost, lt_nh}
use ndn_sim.Lfid.Fib.{AbstractFib, get_nexthops, get_upward_nexthops, num_enabled_nh_per_dst}
use ndn_sim.Lfid.AllNodes.{AllNodeFib, erase_at}
use ndn_sim.Lfid.Graph.{GraphLibrary, has_edge}

pub record NodePrio : Type 0 where
  pub node_id : ℕ
  pub remaining_nh : ℕ
  pub uw_set : List FibNextHop

unfoldable pub node_prio : ℕ → ℕ → List FibNextHop → Result NodePrio
node_prio node_id remaining_nh nh_set = do
  guard (ltb 0 remaining_nh && ltb 0 (length nh_set)) abort
  guard (ltb (length nh_set) remaining_nh) abort
  ok (record { node_id = node_id; remaining_nh = remaining_nh; uw_set = nh_set })

-- `*std::prev(m_uwSet.end())`, the greatest element of a set.
unfoldable pub last : List FibNextHop → Option FibNextHop
last [] = none
last (nh ∷ set) = elim (last set) [ none ↦ some nh | some top ↦ some top ]

unfoldable pub get_highest_cost_uw : NodePrio → Result FibNextHop
unfolding last
get_highest_cost_uw node = or_fail (last node.uw_set) abort

-- The second component of the tuples that operator< compares. A node in the queue has an upward
-- nexthop, so the cases without one do not arise.
unfoldable pub lt_highest : Option FibNextHop → Option FibNextHop → Bool
lt_highest (some a) (some b) = lt_nh a b
lt_highest _ _ = false

unfoldable pub lt_prio : NodePrio → NodePrio → Bool
unfolding lt_highest last
lt_prio own other =
    let a = last own.uw_set in
    let b = last other.uw_set in
    ltb own.remaining_nh other.remaining_nh
    || ((own.remaining_nh == other.remaining_nh)
        && (lt_highest a b || (not (lt_highest b a) && ltb own.node_id other.node_id)))

unfoldable pub erase_uw : FibNextHop → NodePrio → Result NodePrio
erase_uw nh node = do
  guard (ltb 0 (length node.uw_set)) abort
  guard (OrderedSet.has by_cost nh node.uw_set) abort
  ok (record node { uw_set = OrderedSet.erase by_cost nh node.uw_set })

unfoldable pub pop_highest_cost_uw : NodePrio → Result (FibNextHop × NodePrio)
unfolding get_highest_cost_uw erase_uw
pop_highest_cost_uw node = do nh ← get_highest_cost_uw node; rest ← erase_uw nh node; ok (nh, rest)

unfoldable pub reduce_remaining_nh : NodePrio → Result NodePrio
reduce_remaining_nh node =
    let left = node.remaining_nh - 1 in
    do
      guard (ltb 0 left && ltb (length node.uw_set) left) abort
      ok (record node { remaining_nh = left })

-- `top` and `pop`: a node that no other exceeds, and the others.
unfoldable pub pop_top : NodePrio → List NodePrio → NodePrio × List NodePrio
unfolding lt_prio
pop_top best [] = (best, [])
pop_top best (node ∷ queue) =
    let (top, rest) = pop_top (if lt_prio best node then node else best) queue in
    (top, (if lt_prio best node then best else node) ∷ rest)

-- Step 2 of removeLoops, for one node: nothing, or its entry of the queue and how many upward
-- nexthops that has.
unfoldable pub queue_nonempty : ℕ → ℕ → AbstractFib → List FibNextHop → Result (List NodePrio × ℕ)
unfolding node_prio
queue_nonempty dst node fib uw_set = do
  size ← num_enabled_nh_per_dst fib dst
  prio ← node_prio node size uw_set
  ok (prio ∷ [], length uw_set)

unfoldable pub queue_node : ℕ → ℕ → AbstractFib → Result (List NodePrio × ℕ)
unfolding queue_nonempty
queue_node dst node fib =
    if node == dst
    then ok ([], 0)
    else get_upward_nexthops fib dst >>= λ uw_set.
        if length uw_set == 0 then ok ([], 0) else queue_nonempty dst node fib uw_set

unfoldable pub fill_queue : ℕ → AllNodeFib → Result (List NodePrio × ℕ)
unfolding queue_node
fill_queue dst [] = ok ([], 0)
fill_queue dst ((node, fib) ∷ fibs) = do
  (entry, found) ← queue_node dst node fib
  (queue, upward) ← fill_queue dst fibs
  ok (entry ++ queue, found + upward)

abbrev pub int_max : ℕ
int_max = 2 ^ 31 - 1

module _ (lib : GraphLibrary) where
  open lib use {DiGraph, empty, add_edge, remove_edge, num_vertices, distance}

  -- The inner loop of getDigraphFromFib.
  unfoldable pub add_arcs : ℕ → List FibNextHop → DiGraph → Result DiGraph
  add_arcs node [] dg = ok dg
  add_arcs node (nh ∷ set) dg = do
    guard (not (is_disabled nh.type)) abort
    add_arcs node set (add_edge node nh.nh_id dg)

  unfoldable pub fill_digraph : ℕ → AllNodeFib → DiGraph → Result DiGraph
  unfolding add_arcs
  fill_digraph dst [] dg = ok dg
  fill_digraph dst ((node, fib) ∷ fibs) dg =
      if dst == node
      then fill_digraph dst fibs dg
      else (do set ← get_nexthops fib dst; dg' ← add_arcs node set dg; fill_digraph dst fibs dg')

  unfoldable pub get_digraph_from_fib : AllNodeFib → ℕ → Result DiGraph
  unfolding fill_digraph
  get_digraph_from_fib fibs dst = fill_digraph dst fibs empty

  -- The variables of the loop over the queue.
  pub record LoopState : Type 0 where
    pub queue : List NodePrio
    pub dg : DiGraph
    pub fibs : AllNodeFib
    pub removed : ℕ

  -- The branch of a nexthop that loops back; `arc_exists` is the test that the source repeats here
  -- in place of one for the arc that it removes.
  unfoldable pub remove_nexthop :
      ℕ → ℕ → Bool → NodePrio → LoopState → Result (NodePrio × LoopState)
  unfolding reduce_remaining_nh
  remove_nexthop dst nh_id arc_exists node s = do
    node' ← reduce_remaining_nh node
    fibs' ← erase_at node.node_id dst nh_id s.fibs
    guard arc_exists abort
    ok (
      node',
      record s { dg = remove_edge node.node_id nh_id s.dg; fibs = fibs'; removed = suc s.removed },
    )

  -- The loop check, in the graph without the arc back.
  unfoldable pub test_loop : ℕ → ℕ → Bool → NodePrio → LoopState → Result (NodePrio × LoopState)
  unfolding remove_nexthop
  test_loop dst nh_id arc_exists node s =
      if ltb (distance s.dg nh_id node.node_id) (int_max - 1)
      then remove_nexthop dst nh_id arc_exists node s
      else ok (node, s)

  -- One round of the loop over the queue, for the node that was on top.
  unfoldable pub check_nexthop : ℕ → NodePrio → LoopState → Result LoopState
  unfolding pop_highest_cost_uw test_loop
  check_nexthop dst node s = do
    (nh, node') ← pop_highest_cost_uw node
    let arc_exists = has_edge lib nh.nh_id node.node_id s.dg
    let dg' : DiGraph = if arc_exists then remove_edge nh.nh_id node.node_id s.dg else s.dg
    guard (ltb node.node_id (num_vertices dg')) out_of_range
    (node'', s') ← test_loop dst nh.nh_id arc_exists node' (record s { dg = dg' })
    ok (record s' {
      dg = if arc_exists then add_edge nh.nh_id node.node_id s'.dg else s'.dg;
      queue = if ltb 0 (length node''.uw_set) then node'' ∷ s'.queue else s'.queue;
    })

  unfoldable pub drain_queue : ℕ → ℕ → LoopState → Result LoopState
  unfolding check_nexthop pop_top
  drain_queue zero dst s = elim s.queue [ [] ↦ ok s | _ ∷ _ ↦ err no_fuel ]
  drain_queue (suc fuel) dst s = elim s.queue [
    | [] ↦ ok s
    | first ∷ others ↦
        let (node, rest) = pop_top first others in
        check_nexthop dst node (record s { queue = rest }) >>= λ s'. drain_queue fuel dst s'
  ]

  -- The body of the loop over the destinations: the FIBs, and the two counters. A node leaves the
  -- queue once for each of its upward nexthops, so their number is fuel enough.
  unfoldable pub clean_dst : ℕ → AllNodeFib × ℕ × ℕ → Result (AllNodeFib × ℕ × ℕ)
  unfolding get_digraph_from_fib fill_queue drain_queue
  clean_dst dst (fibs, upward, removed) = do
    dg ← get_digraph_from_fib fibs dst
    (queue, found) ← fill_queue dst fibs
    s ← drain_queue found dst (record { queue = queue; dg = dg; fibs = fibs; removed = removed })
    ok (s.fibs, upward + found, s.removed)

  unfoldable pub clean_dsts : ℕ → ℕ → AllNodeFib × ℕ × ℕ → Result (AllNodeFib × ℕ × ℕ)
  unfolding clean_dst
  clean_dsts zero dst s = ok s
  clean_dsts (suc n) dst s = clean_dst dst s >>= λ s'. clean_dsts n (dst + 1) s'

  -- The FIBs afterwards, and the number of nexthops removed. The report is left out.
  unfoldable pub remove_loops : AllNodeFib → Result (AllNodeFib × ℕ)
  unfolding clean_dsts
  remove_loops fibs = do
    (fibs', upward, removed) ← clean_dsts (length fibs) 0 (fibs, 0, 0)
    guard (leb removed upward) abort
    ok (fibs', removed)
