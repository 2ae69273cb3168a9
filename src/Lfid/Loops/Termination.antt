-- ===== src/Lfid/Loops/Termination.antt =====
-- helper/lfid/remove-loops.cpp: the loop over the priority queue ends, and changes the FIBs by
-- counted erasures alone.
use ndn_sim.Prelude.{
  ◌>>=◌, ◌&&◌, subst, no_fuel, ◌∙◌, ◌-◌, returns, Ends-or_fail, abort, out_of_range, ap, ℕ, zero,
  suc, ◌+◌, ◌≤◌, ◌<◌, ◌≡◌, refl, Bool, true, false, List, [], ◌∷◌, arith, ltb, if◌then◌else◌,
  length, All, Bool-cases, inl, inr, ok, err, Ends, Ends-bind, Ends-bind_eq, Ends-guard, Ends-map,
}
use ndn_sim.Prelude.OrderedSet
use ndn_sim.Lfid.NextHop.{FibNextHop, by_cost}
use ndn_sim.Lfid.AllNodes.{Erases, done, next, Erases-append, erase_at-Ends}
use ndn_sim.Lfid.Graph.{GraphLibrary, has_edge}
use ndn_sim.Lfid.Loops.{
  last, int_max, test_loop, NodePrio, erase_uw, pop_top, pop_highest_cost_uw, reduce_remaining_nh,
  lt_prio, LoopState, remove_nexthop, check_nexthop, drain_queue,
}

abbrev pub AreQueued : List NodePrio → Type 0
AreQueued = All (λ n. 0 < length n.uw_set)

abbrev pub upward_left : List NodePrio → ℕ
upward_left [] = 0
upward_left (n ∷ q) = length n.uw_set + upward_left q

pop_top-measure :
    (best : NodePrio) (q : List NodePrio)
    → length (pop_top best q).0.uw_set + upward_left (pop_top best q).1
      ≡ length best.uw_set + upward_left q
unfolding pop_top
pop_top-measure best [] = refl
pop_top-measure best (n ∷ q) = elim (Bool-cases (lt_prio best n)) [
  | inl e ↦ rw e (omega (arith, pop_top-measure n q))
  | inr e ↦ rw e (omega (arith, pop_top-measure best q))
]

pop_top-AreQueued :
    (best : NodePrio) (q : List NodePrio)
    → AreQueued (best ∷ q)
    → AreQueued ((pop_top best q).0 ∷ (pop_top best q).1)
unfolding pop_top
pop_top-AreQueued best [] h = h
pop_top-AreQueued best (n ∷ q) h = elim (Bool-cases (lt_prio best n)) [
  | inl e ↦ rw e (let r = pop_top-AreQueued n q (h.1.0, h.1.1) in (r.0, (h.0, r.1)))
  | inr e ↦ rw e (let r = pop_top-AreQueued best q (h.0, h.1.1) in (r.0, (h.1.0, r.1)))
]

erase_uw-Ends :
    (nh : FibNextHop) (node : NodePrio)
    → Ends (λ n. suc (length n.uw_set) ≡ length node.uw_set) (erase_uw nh node)
unfolding erase_uw
erase_uw-Ends nh node = Ends-guard (ltb 0 (length node.uw_set)) abort tt λ _.
    Ends-guard (OrderedSet.has by_cost nh node.uw_set) abort tt
      λ h. returns (OrderedSet.length-erase by_cost nh node.uw_set h)

pop_highest-Ends :
    (node : NodePrio)
    → Ends (λ r. suc (length r.1.uw_set) ≡ length node.uw_set) (pop_highest_cost_uw node)
unfolding pop_highest_cost_uw
pop_highest-Ends node =
    Ends-bind (λ _. Unit {0}) (Ends-or_fail (last node.uw_set) abort tt)
      λ nh _.
        Ends-bind {A = NodePrio} (λ n. suc (length n.uw_set) ≡ length node.uw_set)
          (erase_uw-Ends nh node) λ rest e. returns e

reduce-Ends : (node : NodePrio) → Ends (λ n. n.uw_set ≡ node.uw_set) (reduce_remaining_nh node)
unfolding reduce_remaining_nh
reduce-Ends node =
    Ends-guard (ltb 0 (node.remaining_nh - 1) && ltb (length node.uw_set) (node.remaining_nh - 1))
      abort tt λ _. returns refl

module _ (lib : GraphLibrary) where
  abbrev pub ErasedBy : LoopState lib → LoopState lib → Type 0
  ErasedBy s s' = (k : ℕ) × (s'.removed ≡ s.removed + k) × Erases s.fibs k s'.fibs

  remove_nexthop-Ends :
      (dst nh_id : ℕ) (arc_exists : Bool) (node : NodePrio) (s : LoopState lib)
      → Ends
          (λ r. (length r.0.uw_set ≡ length node.uw_set) × (r.1.queue ≡ s.queue) × ErasedBy s r.1)
          (remove_nexthop lib dst nh_id arc_exists node s)
  unfolding remove_nexthop
  remove_nexthop-Ends dst nh_id arc_exists node s =
      Ends-bind {A = NodePrio} (λ n. n.uw_set ≡ node.uw_set) (reduce-Ends node)
        λ node' e. Ends-bind_eq (erase_at-Ends node.node_id dst nh_id s.fibs) λ fibs' h.
          Ends-guard arc_exists abort tt λ _.
            returns
              (ap length e, refl, (1, omega arith, next node.node_id dst nh_id h (done fibs')))

  abbrev Keeps : NodePrio → LoopState lib → NodePrio × LoopState lib → Type 0
  Keeps node s r = (length r.0.uw_set ≡ length node.uw_set) × (r.1.queue ≡ s.queue) × ErasedBy s r.1

  test_loop-Ends :
      (dst nh_id : ℕ) (arc_exists : Bool) (node : NodePrio) (s : LoopState lib)
      → Ends (Keeps node s) (test_loop lib dst nh_id arc_exists node s)
  unfolding test_loop
  test_loop-Ends dst nh_id arc_exists node s =
      choose (ltb (lib.distance s.dg nh_id node.node_id) (int_max - 1))
    where
      choose :
          (b : Bool)
          → Ends
              (Keeps node s)
              (if b then remove_nexthop lib dst nh_id arc_exists node s else ok (node, s))
      choose true = remove_nexthop-Ends dst nh_id arc_exists node s
      choose false = returns (refl, refl, (0, omega arith, done s.fibs))

  requeue :
      (node node' : NodePrio) (queue : List NodePrio)
      → suc (length node'.uw_set) ≡ length node.uw_set
      → AreQueued queue
      → let queue' = if ltb 0 (length node'.uw_set) then node' ∷ queue else queue in
        (suc (upward_left queue') ≡ length node.uw_set + upward_left queue) × AreQueued queue'
  requeue node node' queue e q = elim (Bool-cases (ltb 0 (length node'.uw_set))) [
    | inl h ↦ rw h (omega arith, (ground arith, q))
    | inr h ↦ rw h (ground arith, q)
  ]

  -- What a round leaves of the queue: one upward nexthop less.
  abbrev Advances : LoopState lib → ℕ → LoopState lib → Type 0
  Advances s n s' =
      (suc (upward_left s'.queue) ≡ n + upward_left s.queue) × AreQueued s'.queue × ErasedBy s s'

  opened : FibNextHop → NodePrio → lib.DiGraph → lib.DiGraph
  opened nh node dg =
      if has_edge lib nh.nh_id node.node_id dg then lib.remove_edge nh.nh_id node.node_id dg else dg

  check_nexthop-Ends :
      (dst : ℕ) (node : NodePrio) (s : LoopState lib)
      → AreQueued s.queue
      → Ends (Advances s (length node.uw_set)) (check_nexthop lib dst node s)
  unfolding check_nexthop opened
  check_nexthop-Ends dst node s q =
      Ends-bind {A = FibNextHop × NodePrio} (λ r. suc (length r.1.uw_set) ≡ length node.uw_set)
        (pop_highest-Ends node)
        λ r e.
          Ends-guard (ltb node.node_id (lib.num_vertices (opened r.0 node s.dg))) out_of_range tt
            λ _. Ends-bind (Keeps r.1 s) (test_loop-Ends dst r.0.nh_id _ r.1 _) λ t h.
              let (left, queued) = requeue node t.0 t.1.queue (omega arith) (rw h.1 q) in
              returns (
                left ∙ ap (λ (l : List NodePrio). length node.uw_set + upward_left l) h.1,
                queued,
                h.2,
              )

  pub drain_queue-Ends :
      (fuel dst : ℕ) (s : LoopState lib)
      → AreQueued s.queue
      → upward_left s.queue ≤ fuel
      → Ends (ErasedBy s) (drain_queue lib fuel dst s)
  unfolding drain_queue
  drain_queue-Ends zero dst s q m = walk s.queue refl
    where
      walk :
          (l : List NodePrio)
          → s.queue ≡ l
          → Ends (ErasedBy s) (elim l [ [] ↦ ok s | _ ∷ _ ↦ err no_fuel ])
      walk [] e = returns (0, omega arith, done s.fibs)
      walk (n ∷ l) e = absurd (omega (arith, ap upward_left e, (subst AreQueued e q).0))
  drain_queue-Ends (suc fuel) dst s q m = walk s.queue refl (drain_queue-Ends fuel dst)
    where
      walk :
          (l : List NodePrio)
          → s.queue ≡ l
          → ((t : LoopState lib)
              → AreQueued t.queue
              → upward_left t.queue ≤ fuel
              → Ends (ErasedBy t) (drain_queue lib fuel dst t))
          → Ends (ErasedBy s) (elim l [
            | [] ↦ ok s
            | first ∷ others ↦
                let (node, rest) = pop_top first others in
                check_nexthop lib dst node (record s { queue = rest }) >>= λ s'.
                drain_queue lib fuel dst s'
          ])
      walk [] e ih = returns (0, omega arith, done s.fibs)
      walk (n ∷ l) e ih =
          let queued = pop_top-AreQueued n l (subst AreQueued e q) in
          Ends-bind
            (Advances (record s { queue = (pop_top n l).1 }) (length (pop_top n l).0.uw_set))
            (check_nexthop-Ends dst (pop_top n l).0 (record s { queue = (pop_top n l).1 }) queued.1)
            λ t h. Ends-map (ih t h.1 (omega (arith, pop_top-measure n l, ap upward_left e))) λ u g.
              let (j, a, r) = h.2 in let (k, b, r') = g in (j + k, omega arith, Erases-append r r')
