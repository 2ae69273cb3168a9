-- ===== src/Lfid/Loops/Counted.antt =====
-- helper/lfid/remove-loops.cpp: each removal that the loop over the queue counts takes an entry out
-- of the FIBs.
use ndn_sim.Prelude.{
  ℕ, zero, suc, ◌+◌, ◌-◌, ◌≡◌, ◌≢◌, ◌⊎◌, refl, ◌∙◌, sym, ap, subst, Bool, List, [], ◌∷◌, ok, err,
  some, abort, out_of_range, no_fuel, arith, ◌&&◌, ltb, if◌then◌else◌, length, ◌>>=◌, All,
  Bool-cases, Returns, Returns-bind, Returns-guard, Returns-ok, Ends-eq-ok, inl, inr,
}
use ndn_sim.Lfid.NextHop.{FibNextHop}
use ndn_sim.Lfid.AllNodes.{AllNodeFib, erase_at, next, done}
use ndn_sim.Lfid.AllNodes.Downward.{AreValid, Erases-keeps}
use ndn_sim.Lfid.AllNodes.Removal.{
  entry_at, all_entries, Taken, AreDistinct, Taken-AreDistinct, erase_at-Taken,
}
use ndn_sim.Lfid.Graph.{GraphLibrary, has_edge}
use ndn_sim.Lfid.Loops.{
  NodePrio, pop_highest_cost_uw, reduce_remaining_nh, pop_top, int_max, LoopState, remove_nexthop,
  test_loop, check_nexthop, drain_queue,
}
use ndn_sim.Lfid.Loops.Pending.{
  IsPending, AreApart, pop_top-All, pop_top-AreApart, erase-other_ids, IsPopped,
  pop_highest-IsPopped, IsPending-popped, IsPending-other, IsPending-rest, IsThere-mem,
}

reduce_remaining_nh-ok :
    (node : NodePrio)
    → Returns
        (λ n. (n.node_id ≡ node.node_id) × (n.uw_set ≡ node.uw_set))
        (reduce_remaining_nh node)
unfolding reduce_remaining_nh
reduce_remaining_nh-ok node =
    Returns-guard
      (ltb 0 (node.remaining_nh - 1) && ltb (length node.uw_set) (node.remaining_nh - 1)) abort
      (Returns-ok (λ (n : NodePrio). (n.node_id ≡ node.node_id) × (n.uw_set ≡ node.uw_set))
        (refl, refl))

module _ (lib : GraphLibrary) (dst : ℕ) where
  -- What the test of a nexthop does to the node and the state: nothing, or a counted removal.
  pub record IsTested (nh_id : ℕ) (node : NodePrio) (s : LoopState lib)
      (r : NodePrio × LoopState lib) : Type 0 where
    pub own : r.0.node_id ≡ node.node_id
    pub rest : r.0.uw_set ≡ node.uw_set
    pub queue : r.1.queue ≡ s.queue
    pub change :
        ((r.1.fibs ≡ s.fibs) × (r.1.removed ≡ s.removed))
        ⊎ (Taken node.node_id dst nh_id s.fibs r.1.fibs × (r.1.removed ≡ suc s.removed))

  remove_nexthop-IsTested :
      (nh_id : ℕ) (arc_exists : Bool) (node : NodePrio) (s : LoopState lib) (x : FibNextHop)
      → entry_at node.node_id dst nh_id s.fibs ≡ some x
      → AreValid s.fibs
      → Returns (IsTested nh_id node s) (remove_nexthop lib dst nh_id arc_exists node s)
  unfolding remove_nexthop
  remove_nexthop-IsTested nh_id arc_exists node s x there v =
      Returns-bind {A = NodePrio} (λ n. (n.node_id ≡ node.node_id) × (n.uw_set ≡ node.uw_set))
        (reduce_remaining_nh node) (reduce_remaining_nh-ok node)
        λ node' same.
          Returns-bind (Taken node.node_id dst nh_id s.fibs)
            (erase_at node.node_id dst nh_id s.fibs)
            (λ fibs' e. Ends-eq-ok (erase_at-Taken node.node_id dst nh_id s.fibs x v there) e)
            λ fibs' t. Returns-guard arc_exists abort (
              Returns-ok (IsTested nh_id node s)
                (record { own = same.0; rest = same.1; queue = refl; change = inr (t, refl) }))

  test_loop-IsTested :
      (nh_id : ℕ) (arc_exists : Bool) (node : NodePrio) (s : LoopState lib) (x : FibNextHop)
      → entry_at node.node_id dst nh_id s.fibs ≡ some x
      → AreValid s.fibs
      → Returns (IsTested nh_id node s) (test_loop lib dst nh_id arc_exists node s)
  unfolding test_loop
  test_loop-IsTested nh_id arc_exists node s x there v =
      elim (Bool-cases (ltb (lib.distance s.dg nh_id node.node_id) (int_max - 1))) [
        | inl y ↦ rw (test_loop, y) (remove_nexthop-IsTested nh_id arc_exists node s x there v)
        | inr n ↦
            rw (test_loop, n)
              (Returns-ok (IsTested nh_id node s)
                (record { own = refl; rest = refl; queue = refl; change = inl (refl, refl) }))
      ]

  -- What the rounds rely on: the FIBs, and that each nexthop of the queue is an entry of them.
  pub record IsDraining (queue : List NodePrio) (fibs : AllNodeFib) : Type 0 where
    pub valid : AreValid fibs
    pub distinct : AreDistinct fibs
    pub pending : All (IsPending dst fibs) queue
    pub apart : AreApart queue

  abbrev pub IsCounted : AllNodeFib → ℕ → LoopState lib → Type 0
  IsCounted fibs removed t =
      AreDistinct t.fibs × (all_entries t.fibs + t.removed ≡ all_entries fibs + removed)

  All-IsPending :
      {own nh_id : ℕ} {fibs fibs' : AllNodeFib} (t : Taken own dst nh_id fibs fibs')
      → AreDistinct fibs
      → (queue : List NodePrio) → All (λ x. x.node_id ≢ own) queue
      → All (IsPending dst fibs) queue
      → All (IsPending dst fibs') queue
  All-IsPending t u [] a h = tt
  All-IsPending t u (p ∷ queue) a h =
      (IsPending-other t u p a.0 h.0, All-IsPending t u queue a.1 h.1)

  -- The popped node and the others after the test.
  after_test :
      (node node' : NodePrio) (nh : FibNextHop) (s : LoopState lib) (r : NodePrio × LoopState lib)
      → IsPopped node nh node'
      → IsDraining (node ∷ s.queue) s.fibs
      → IsTested nh.nh_id node' s r
      → IsDraining (r.0 ∷ s.queue) r.1.fibs
        × (all_entries r.1.fibs + r.1.removed ≡ all_entries s.fibs + s.removed)
  after_test node node' nh s r p d t =
      let q = IsPending-popped node node' nh d.pending.0 p in
      let left : IsPending dst s.fibs r.0 = record {
        there = rw (t.own, t.rest) q.there;
        distinct = rw t.rest q.distinct;
      } in
      let apart : All (λ x. x.node_id ≢ r.0.node_id) s.queue =
        subst (λ k. All (λ x. x.node_id ≢ k) s.queue) (sym (t.own ∙ p.own)) d.apart.0 in
      elim t.change [
        | inl (same, count) ↦ (
          subst (λ fibs. IsDraining (r.0 ∷ s.queue) fibs) (sym same)
              (record {
                valid = d.valid;
                distinct = d.distinct;
                pending = (left, d.pending.1);
                apart = (apart, d.apart.1);
              }),
          omega (arith, ap all_entries same, count),
        )
        | inr (taken, count) ↦ (
          record {
            valid = (Erases-keeps (next _ _ _ taken.step (done r.1.fibs)) d.valid).0;
            distinct = Taken-AreDistinct taken d.distinct;
            pending = (
              IsPending-rest taken d.distinct r.0
                  (rw (t.rest, p.rest)
                    (erase-other_ids nh node.uw_set d.pending.0.distinct p.member))
                  left,
              All-IsPending taken d.distinct s.queue
                  (subst (λ k. All (λ x. x.node_id ≢ k) s.queue) (sym p.own) d.apart.0) d.pending.1,
            );
            apart = (apart, d.apart.1);
          },
          omega (arith, taken.fewer_all, count),
        )
      ]

  requeue :
      (p : NodePrio) (queue : List NodePrio) (fibs : AllNodeFib)
      → IsDraining (p ∷ queue) fibs
      → IsDraining (if ltb 0 (length p.uw_set) then p ∷ queue else queue) fibs
  requeue p queue fibs d = elim (Bool-cases (ltb 0 (length p.uw_set))) [
    | inl y ↦ rw y d
    | inr n ↦ rw n (record {
      valid = d.valid;
      distinct = d.distinct;
      pending = d.pending.1;
      apart = d.apart.1;
    })
  ]

  abbrev IsRound : LoopState lib → LoopState lib → Type 0
  IsRound s t =
      IsDraining t.queue t.fibs × (all_entries t.fibs + t.removed ≡ all_entries s.fibs + s.removed)

  check_nexthop-counts :
      (node : NodePrio) (s : LoopState lib)
      → IsDraining (node ∷ s.queue) s.fibs
      → Returns (IsRound s) (check_nexthop lib dst node s)
  unfolding check_nexthop
  check_nexthop-counts node s d =
      Returns-bind {A = FibNextHop × NodePrio} (λ r. IsPopped node r.0 r.1)
        (pop_highest_cost_uw node) (λ r e. pop_highest-IsPopped node r.1 r.0 e)
        λ r p.
          let back = has_edge lib r.0.nh_id node.node_id s.dg in
          let dg : lib.DiGraph =
            if back then lib.remove_edge r.0.nh_id node.node_id s.dg else s.dg in
          let s1 : LoopState lib = record s { dg = dg } in
          let (x, there) =
            IsThere-mem dst node.node_id s.fibs node.uw_set r.0 d.pending.0.there p.member in
          let here : entry_at r.1.node_id dst r.0.nh_id s.fibs ≡ some x = rw p.own there in
          Returns-guard (ltb node.node_id (lib.num_vertices dg)) out_of_range (
            Returns-bind (IsTested r.0.nh_id r.1 s1) (test_loop lib dst r.0.nh_id back r.1 s1)
              (test_loop-IsTested r.0.nh_id back r.1 s1 x here d.valid)
              λ t h.
                let (after, count) = after_test node r.1 r.0 s1 t p d h in
                Returns-ok (IsRound s) (
                  requeue t.0 t.1.queue t.1.fibs
                      (subst (λ q. IsDraining (t.0 ∷ q) t.1.fibs) (sym h.queue) after),
                  count,
                ))

  pub drain_queue-counts :
      (fuel : ℕ) (s : LoopState lib)
      → IsDraining s.queue s.fibs
      → Returns (IsCounted s.fibs s.removed) (drain_queue lib fuel dst s)
  unfolding drain_queue
  drain_queue-counts zero s d = walk s.queue
    where
      walk :
          (l : List NodePrio)
          → Returns (IsCounted s.fibs s.removed) (elim l [ [] ↦ ok s | _ ∷ _ ↦ err no_fuel ])
      walk [] = Returns-ok (IsCounted s.fibs s.removed) (d.distinct, refl)
      walk (n ∷ l) = λ b q. cc
  drain_queue-counts (suc fuel) s d = walk s.queue refl (drain_queue-counts fuel)
    where
      walk :
          (l : List NodePrio)
          → s.queue ≡ l
          → ((t : LoopState lib)
              → IsDraining t.queue t.fibs
              → Returns (IsCounted t.fibs t.removed) (drain_queue lib fuel dst t))
          → Returns (IsCounted s.fibs s.removed) (elim l [
            | [] ↦ ok s
            | first ∷ others ↦
                let (node, rest) = pop_top first others in
                check_nexthop lib dst node (record s { queue = rest }) >>= λ s'.
                drain_queue lib fuel dst s'
          ])
      walk [] e ih = Returns-ok (IsCounted s.fibs s.removed) (d.distinct, refl)
      walk (n ∷ l) e ih =
          let s1 : LoopState lib = record s { queue = (pop_top n l).1 } in
          Returns-bind (IsRound s1) (check_nexthop lib dst (pop_top n l).0 s1)
            (check_nexthop-counts (pop_top n l).0 s1 (record {
              valid = d.valid;
              distinct = d.distinct;
              pending =
                  pop_top-All (IsPending dst s.fibs) n l
                    (subst (All (IsPending dst s.fibs)) e d.pending);
              apart = pop_top-AreApart n l (subst AreApart e d.apart);
            }))
            λ t h b r. let (distinct, count) = ih t h.0 b r in (distinct, omega (arith, count, h.1))
