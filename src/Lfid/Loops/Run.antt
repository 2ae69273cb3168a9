-- ===== src/Lfid/Loops/Run.antt =====
-- helper/lfid/remove-loops.cpp: removeLoops as a whole.
use ndn_sim.Prelude.{
  ℕ, zero, suc, ◌+◌, ◌≡◌, refl, ◌&&◌, not, List, [], ◌∷◌, ◌++◌, arith, ltb, leb, ◌==◌,
  if◌then◌else◌, length, Bool-cases, inl, inr, ok, abort, Ends, Ends-bind, Ends-guard, Ends-or_fail,
  Ends-map, returns, out_of_range, ap, subst, ◌<◌,
}
use ndn_sim.Prelude.AssocMap.{lookup}
use ndn_sim.Lfid.NextHop.{FibNextHop, is_disabled}
use ndn_sim.Lfid.Fib.{
  AbstractFib, contains, get_nexthops, get_upward_nexthops, num_enabled_nh_per_dst,
}
use ndn_sim.Lfid.AllNodes.{AllNodeFib, Erases, done, Erases-append}
use ndn_sim.Lfid.AllNodes.Downward.{AreValid, downward_at, Erases-keeps}
use ndn_sim.Lfid.Graph.{GraphLibrary}
use ndn_sim.Lfid.Loops.{
  NodePrio, node_prio, queue_nonempty, queue_node, fill_queue, add_arcs, fill_digraph, clean_dst,
  clean_dsts, remove_loops,
}
use ndn_sim.Lfid.Loops.Termination.{AreQueued, upward_left, drain_queue-Ends}

get_nexthops-Ends : (fib : AbstractFib) (dst : ℕ) → Ends (λ _. Unit {0}) (get_nexthops fib dst)
unfolding get_nexthops
get_nexthops-Ends fib dst = Ends-guard (not (dst == fib.node_id)) abort tt λ _.
    Ends-guard (contains fib dst) abort tt
      λ _. Ends-or_fail (lookup dst fib.per_dst_fib) out_of_range tt

get_upward-Ends : (fib : AbstractFib) (dst : ℕ) → Ends (λ _. Unit {0}) (get_upward_nexthops fib dst)
unfolding get_upward_nexthops
get_upward-Ends fib dst = Ends-guard (not (dst == fib.node_id)) abort tt λ _.
    Ends-guard (contains fib dst) abort tt
      λ _. Ends-or_fail (lookup dst fib.upward_per_dst_fib) out_of_range tt

num_enabled-Ends :
    (fib : AbstractFib) (dst : ℕ) → Ends (λ _. Unit {0}) (num_enabled_nh_per_dst fib dst)
unfolding num_enabled_nh_per_dst
num_enabled-Ends fib dst =
    Ends-guard (not (dst == fib.node_id)) abort tt
      λ _. Ends-bind (λ _. Unit {0}) (get_nexthops-Ends fib dst) λ set _. returns tt

-- The queue holds nodes with upward nexthops, and the count is the number of those.
abbrev Counted : List NodePrio × ℕ → Type 0
Counted r = AreQueued r.0 × (upward_left r.0 ≡ r.1)

node_prio-Ends :
    (node size : ℕ) (set : List FibNextHop)
    → Ends (λ p. (0 < length p.uw_set) × (p.uw_set ≡ set)) (node_prio node size set)
unfolding node_prio
node_prio-Ends node size set =
    Ends-guard (ltb 0 size && ltb 0 (length set)) abort tt
      λ h. Ends-guard (ltb (length set) size) abort tt λ _. returns (ground arith, refl)

queue_nonempty-Ends :
    (dst node : ℕ) (fib : AbstractFib) (set : List FibNextHop)
    → Ends Counted (queue_nonempty dst node fib set)
unfolding queue_nonempty
queue_nonempty-Ends dst node fib set =
    Ends-bind (λ _. Unit {0}) (num_enabled-Ends fib dst)
      λ size _.
        Ends-bind {A = NodePrio} (λ p. (0 < length p.uw_set) × (p.uw_set ≡ set))
          (node_prio-Ends node size set)
          λ p h. returns ((h.0, tt), omega (arith, ap (λ (l : List FibNextHop). length l) h.1))

queue_node-Ends : (dst node : ℕ) (fib : AbstractFib) → Ends Counted (queue_node dst node fib)
unfolding queue_node
queue_node-Ends dst node fib = elim (Bool-cases (node == dst)) [
  | inl e ↦ rw e (returns (tt, refl))
  | inr e ↦ rw e (Ends-bind (λ _. Unit {0}) (get_upward-Ends fib dst) λ set _. choose set)
]
  where
    choose :
        (set : List FibNextHop)
        → Ends Counted (if length set == 0 then ok ([], 0) else queue_nonempty dst node fib set)
    choose set = elim (Bool-cases (length set == 0)) [
      | inl e ↦ rw e (returns (tt, refl))
      | inr e ↦ rw e (queue_nonempty-Ends dst node fib set)
    ]

Counted-append :
    (q r : List NodePrio)
    → AreQueued q
    → AreQueued r
    → AreQueued (q ++ r) × (upward_left (q ++ r) ≡ upward_left q + upward_left r)
Counted-append [] r a b = (b, omega arith)
Counted-append (p ∷ q) r a b = let (c, e) = Counted-append q r a.1 b in ((a.0, c), omega arith)

fill_queue-Ends : (dst : ℕ) (fibs : AllNodeFib) → Ends Counted (fill_queue dst fibs)
unfolding fill_queue
fill_queue-Ends dst [] = returns (tt, refl)
fill_queue-Ends dst ((node, fib) ∷ fibs) = Ends-bind Counted (queue_node-Ends dst node fib) λ a h.
    Ends-bind Counted (fill_queue-Ends dst fibs)
      λ b k. let (q, e) = Counted-append a.0 b.0 h.0 k.0 in returns (q, omega arith)

module _ (lib : GraphLibrary) where
  add_arcs-Ends :
      (node : ℕ) (set : List FibNextHop) (dg : lib.DiGraph)
      → Ends (λ _. Unit {0}) (add_arcs lib node set dg)
  unfolding add_arcs
  add_arcs-Ends node [] dg = returns tt
  add_arcs-Ends node (nh ∷ set) dg =
      Ends-guard (not (is_disabled nh.type)) abort tt
        λ _. add_arcs-Ends node set (lib.add_edge node nh.nh_id dg)

  fill_digraph-Ends :
      (dst : ℕ) (fibs : AllNodeFib) (dg : lib.DiGraph)
      → Ends (λ _. Unit {0}) (fill_digraph lib dst fibs dg)
  unfolding fill_digraph
  fill_digraph-Ends dst [] dg = returns tt
  fill_digraph-Ends dst ((node, fib) ∷ fibs) dg = elim (Bool-cases (dst == node)) [
    | inl e ↦ rw e (fill_digraph-Ends dst fibs dg)
    | inr e ↦ rw e (
        Ends-bind (λ _. Unit {0}) (get_nexthops-Ends fib dst)
          λ set _.
            Ends-bind (λ _. Unit {0}) (add_arcs-Ends node set dg)
              λ dg' _. fill_digraph-Ends dst fibs dg')
  ]

  -- From the FIBs and the count of removals before to those after.
  abbrev pub Removes : AllNodeFib × ℕ × ℕ → AllNodeFib × ℕ × ℕ → Type 0
  Removes s t = (k : ℕ) × (t.2 ≡ s.2 + k) × Erases s.0 k t.0

  pub clean_dst-Ends : (dst : ℕ) (s : AllNodeFib × ℕ × ℕ) → Ends (Removes s) (clean_dst lib dst s)
  unfolding clean_dst
  clean_dst-Ends dst (fibs, upward, count) =
      Ends-bind (λ _. Unit {0}) (fill_digraph-Ends dst fibs lib.empty)
        λ dg _. Ends-bind Counted (fill_queue-Ends dst fibs) λ q h.
          Ends-bind _
            (drain_queue-Ends lib q.1 dst
              (record { queue = q.0; dg = dg; fibs = fibs; removed = count }) h.0 (omega arith))
            λ t g. returns g

  clean_dsts-Ends : (n dst : ℕ) (s : AllNodeFib × ℕ × ℕ) → Ends (Removes s) (clean_dsts lib n dst s)
  unfolding clean_dsts
  clean_dsts-Ends zero dst s = returns (0, omega arith, done s.0)
  clean_dsts-Ends (suc n) dst s = Ends-bind (Removes s) (clean_dst-Ends dst s) λ t h.
      Ends-map (clean_dsts-Ends n (dst + 1) t)
        λ u g. let (j, a, r) = h in let (k, b, r') = g in (j + k, omega arith, Erases-append r r')

  -- removeLoops ends: the fuel that the model gives to its loops is enough. The FIBs that it
  -- leaves are reached by as many calls of `erase` as it reports, and by nothing else.
  pub remove_loops-Erases :
      (fibs : AllNodeFib) → Ends (λ r. Erases fibs r.1 r.0) (remove_loops lib fibs)
  unfolding remove_loops
  remove_loops-Erases fibs =
      Ends-bind (Removes (fibs, 0, 0)) (clean_dsts-Ends (length fibs) 0 (fibs, 0, 0)) λ s h.
        Ends-guard (leb s.2 s.1) abort tt
          λ _. returns (let (k, e, r) = h in subst (λ n. Erases fibs n s.0) (omega arith) r)

  -- On valid FIBs removeLoops ends, and leaves valid FIBs in which every node has the downward
  -- nexthops that it had.
  pub remove_loops-keeps :
      (fibs : AllNodeFib)
      → AreValid fibs
      → Ends
          (λ r. AreValid r.0 × ((n d : ℕ) → downward_at n d r.0 ≡ downward_at n d fibs))
          (remove_loops lib fibs)
  remove_loops-keeps fibs v = Ends-map (remove_loops-Erases fibs) λ r e. Erases-keeps e v
