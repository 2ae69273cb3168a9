-- ===== src/Lfid/Loops/Total.antt =====
-- helper/lfid/remove-loops.cpp: the queue as it is filled from the FIBs, and the count of removals of
-- removeLoops as a whole.
use ndn_sim.Prelude.{
  ℕ, zero, suc, ◌+◌, ◌≡◌, ◌≢◌, refl, ◌∙◌, sym, subst, ◌&&◌, not, List, [], ◌∷◌, ◌++◌, some, arith,
  ok, abort, ltb, leb, ◌==◌, if◌then◌else◌, length, or_fail-some, All, All-map, All-zip, Bool-cases,
  Returns, Returns-bind, Returns-guard, Returns-ok, Ends, Ends-map, Ends-eq-ok, Ends-with_eq, inl,
  inr,
}
use ndn_sim.Prelude.AssocMap.{lookup}
use ndn_sim.Lfid.NextHop.{FibNextHop, is_upward}
use ndn_sim.Lfid.Fib.{
  AbstractFib, contains, nexthops_at, find_nexthop, get_nexthops, get_upward_nexthops,
  num_enabled_nh_per_dst,
}
use ndn_sim.Lfid.Fib.Invariant.{IsValid}
use ndn_sim.Lfid.Fib.Consistency.{HaveDistinctIds}
use ndn_sim.Lfid.Fib.Sets.{upward_only}
use ndn_sim.Lfid.Fib.Queries.{get_upward_nexthops_lem}
use ndn_sim.Lfid.AllNodes.{AllNodeFib, Erases}
use ndn_sim.Lfid.AllNodes.Downward.{AreValid, Erases-keeps}
use ndn_sim.Lfid.AllNodes.Removal.{entry_at, nexthops_of, all_entries, AreDistinct}
use ndn_sim.Lfid.AllNodes.Shape.{AreKeyed, Erases-AreKeyed}
use ndn_sim.Lfid.DeadEnds.Cleaned.{AreProper}
use ndn_sim.Lfid.Graph.{GraphLibrary}
use ndn_sim.Lfid.Loops.{
  NodePrio, node_prio, queue_nonempty, queue_node, fill_queue, get_digraph_from_fib, clean_dst,
  clean_dsts, remove_loops,
}
use ndn_sim.Lfid.Loops.Run.{clean_dst-Ends, remove_loops-Erases}
use ndn_sim.Lfid.Loops.Pending.{IsThere, IsPending, AreApart}
use ndn_sim.Lfid.Loops.Counted.{IsCounted, drain_queue-counts}

AreKeyed-lookup : (fibs : AllNodeFib) → AreKeyed fibs → All (λ e. lookup e.0 fibs ≡ some e.1) fibs
AreKeyed-lookup [] k = tt
AreKeyed-lookup ((n, f) ∷ fibs) k = (
  ground arith,
  All-zip (λ e. e.0 ≢ n) (λ e. lookup e.0 fibs ≡ some e.1)
      (λ e. lookup e.0 ((n, f) ∷ fibs) ≡ some e.1) fibs (λ e a b. ground (arith, a, b)) k.0
      (AreKeyed-lookup fibs k.1),
)

upward_only-All :
    (P : FibNextHop → Type 0) (set : List FibNextHop) → All P set → All P (upward_only set)
upward_only-All P [] a = tt
upward_only-All P (x ∷ set) a = elim (Bool-cases (is_upward x.type)) [
  | inl y ↦ rw y (a.0, upward_only-All P set a.1)
  | inr n ↦ rw n (upward_only-All P set a.1)
]

upward_only-HaveDistinctIds :
    (set : List FibNextHop) → HaveDistinctIds set → HaveDistinctIds (upward_only set)
upward_only-HaveDistinctIds [] d = tt
upward_only-HaveDistinctIds (x ∷ set) d = elim (Bool-cases (is_upward x.type)) [
  | inl y ↦
      rw y (upward_only-All (λ y. y.nh_id ≢ x.nh_id) set d.0, upward_only-HaveDistinctIds set d.1)
  | inr n ↦ rw n (upward_only-HaveDistinctIds set d.1)
]

-- Each element of a set is found by its neighbour, maybe as another element.
find_nexthop-own :
    (set : List FibNextHop) → All (λ x. (y : FibNextHop) × (find_nexthop x.nh_id set ≡ some y)) set
unfolding find_nexthop
find_nexthop-own [] = tt
find_nexthop-own (x ∷ set) = (
  (x, ground arith),
  All-map set
      (λ z (y, e). elim (Bool-cases (x.nh_id == z.nh_id)) [
        | inl same ↦ (x, rw same refl)
        | inr n ↦ (y, rw n e)
      ])
      (find_nexthop-own set),
)

All-append : {A : Type 0} (P : A → Type 0) (xs ys : List A) → All P xs → All P ys → All P (xs ++ ys)
All-append P [] ys h k = k
All-append P (x ∷ xs) ys h k = (h.0, All-append P xs ys h.1 k)

module _ (dst : ℕ) (fibs : AllNodeFib) (valid : AreValid fibs) (distinct : AreDistinct fibs) where
  get_upward-IsThere :
      (node : ℕ) (fib : AbstractFib)
      → lookup node fibs ≡ some fib
      → IsValid fib
      → Returns
          (λ set. All (IsThere dst fibs node) set × HaveDistinctIds set)
          (get_upward_nexthops fib dst)
  unfolding get_nexthops nexthops_at entry_at nexthops_of
  get_upward-IsThere node fib k v =
      subst (Returns (λ set. All (IsThere dst fibs node) set × HaveDistinctIds set))
        (sym (get_upward_nexthops_lem dst fib v))
        (Returns-bind (λ set. lookup dst fib.per_dst_fib ≡ some set) (get_nexthops fib dst)
          (Returns-guard (not (dst == fib.node_id)) abort
            (Returns-guard (contains fib dst) abort (λ set e. or_fail-some _ _ set e)))
          λ set e.
            Returns-ok (λ l. All (IsThere dst fibs node) l × HaveDistinctIds l)
              (
                upward_only-All (IsThere dst fibs node) set
                    (All-map set (λ x (y, f). (y, ground (arith, k, e, f))) (find_nexthop-own set)),
                upward_only-HaveDistinctIds set (distinct node dst set (ground (arith, k, e))),
              ))

  -- The entry of one node.
  abbrev IsEntry : ℕ → List NodePrio × ℕ → Type 0
  IsEntry node r = All (λ p. (p.node_id ≡ node) × IsPending dst fibs p) r.0 × AreApart r.0

  queue_node-IsEntry :
      (node : ℕ) (fib : AbstractFib)
      → lookup node fibs ≡ some fib
      → IsValid fib
      → Returns (IsEntry node) (queue_node dst node fib)
  unfolding queue_node queue_nonempty node_prio
  queue_node-IsEntry node fib k v = elim (Bool-cases (node == dst)) [
    | inl e ↦ rw (queue_node, e) (Returns-ok (IsEntry node) (tt, tt))
    | inr e ↦
        rw (queue_node, e)
          (Returns-bind (λ set. All (IsThere dst fibs node) set × HaveDistinctIds set)
            (get_upward_nexthops fib dst) (get_upward-IsThere node fib k v) choose)
  ]
    where
      choose :
          (set : List FibNextHop)
          → All (IsThere dst fibs node) set × HaveDistinctIds set
          → Returns
              (IsEntry node)
              (if length set == 0 then ok ([], 0) else queue_nonempty dst node fib set)
      choose set h = elim (Bool-cases (length set == 0)) [
        | inl e ↦ rw e (Returns-ok (IsEntry node) (tt, tt))
        | inr e ↦ rw e (
            Returns-bind (λ _. Unit {0}) (num_enabled_nh_per_dst fib dst) (λ _ _. tt)
              λ size _.
                Returns-bind {A = NodePrio} (λ p. (p.node_id ≡ node) × (p.uw_set ≡ set))
                  (node_prio node size set)
                  (Returns-guard (ltb 0 size && ltb 0 (length set)) abort (
                    Returns-guard (ltb (length set) size) abort (
                      Returns-ok (λ (p : NodePrio). (p.node_id ≡ node) × (p.uw_set ≡ set))
                        (refl, refl))))
                  λ p (i, same). Returns-ok (IsEntry node) (
                    ((i, record { there = rw (i, same) h.0; distinct = rw same h.1 }), tt),
                    (tt, tt),
                  ))
      ]

  AreApart-append :
      (node : ℕ) (entry queue : List NodePrio)
      → AreApart entry
      → All (λ p. p.node_id ≡ node) entry
      → All (λ p. p.node_id ≢ node) queue
      → AreApart queue
      → AreApart (entry ++ queue)
  AreApart-append node [] queue a e n q = q
  AreApart-append node (p ∷ entry) queue a e n q = (
    All-append (λ r. r.node_id ≢ p.node_id) entry queue a.0
        (subst (λ k. All (λ r. r.node_id ≢ k) queue) (sym e.0) n),
    AreApart-append node entry queue a.1 e.1 n q,
  )

  -- The queue for some of the FIBs.
  abbrev IsFilled : AllNodeFib → List NodePrio × ℕ → Type 0
  IsFilled l r =
      All (IsPending dst fibs) r.0
      × AreApart r.0
      × ((n : ℕ) → All (λ e. e.0 ≢ n) l → All (λ p. p.node_id ≢ n) r.0)

  fill_queue-pending :
      (l : AllNodeFib)
      → All (λ e. lookup e.0 fibs ≡ some e.1) l
      → AreValid l
      → AreKeyed l
      → Returns (IsFilled l) (fill_queue dst l)
  unfolding fill_queue
  fill_queue-pending [] k v keyed = Returns-ok (IsFilled []) (tt, tt, λ n a. tt)
  fill_queue-pending ((node, fib) ∷ l) k v keyed =
      Returns-bind (IsEntry node) (queue_node dst node fib) (queue_node-IsEntry node fib k.0 v.0)
        λ r h.
          Returns-bind (IsFilled l) (fill_queue dst l) (fill_queue-pending l k.1 v.1 keyed.1) λ t g.
            let own = All-map r.0 (λ p q. q.0) h.0 in
            Returns-ok (IsFilled ((node, fib) ∷ l)) (
              All-append (IsPending dst fibs) r.0 t.0 (All-map r.0 (λ p q. q.1) h.0) g.0,
              AreApart-append node r.0 t.0 h.1 own (g.2 node keyed.0) g.1,
              λ n a.
                  All-append (λ p. p.node_id ≢ n) r.0 t.0
                    (All-map r.0 (λ p same e. a.0 (sym same ∙ e)) own) (g.2 n a.1),
            )

module _ (lib : GraphLibrary) where
  -- From proper FIBs to proper ones, with as many entries fewer as removals are counted.
  abbrev Reduces : AllNodeFib × ℕ × ℕ → AllNodeFib × ℕ × ℕ → Type 0
  Reduces s t = AreProper t.0 × (all_entries t.0 + t.2 ≡ all_entries s.0 + s.2)

  clean_dst-counts :
      (dst : ℕ) (s : AllNodeFib × ℕ × ℕ)
      → AreProper s.0
      → Returns
          (λ t. AreDistinct t.0 × (all_entries t.0 + t.2 ≡ all_entries s.0 + s.2))
          (clean_dst lib dst s)
  unfolding clean_dst
  clean_dst-counts dst (fibs, upward, removed) p =
      Returns-bind (λ _. Unit {0}) (get_digraph_from_fib lib fibs dst) (λ _ _. tt)
        λ dg _.
          Returns-bind (IsFilled dst fibs p.valid p.distinct fibs) (fill_queue dst fibs)
            (fill_queue-pending dst fibs p.valid p.distinct fibs (AreKeyed-lookup fibs p.keyed)
              p.valid p.keyed)
            λ q h.
              Returns-bind (IsCounted lib dst fibs removed) _
                (drain_queue-counts lib dst q.1
                  (record { queue = q.0; dg = dg; fibs = fibs; removed = removed })
                  (record { valid = p.valid; distinct = p.distinct; pending = h.0; apart = h.1 }))
                λ t g.
                  Returns-ok
                    (λ (t : AllNodeFib × ℕ × ℕ).
                      AreDistinct t.0 × (all_entries t.0 + t.2 ≡ all_entries fibs + removed))
                    g

  clean_dst-Reduces :
      (dst : ℕ) (s : AllNodeFib × ℕ × ℕ) → AreProper s.0 → Returns (Reduces s) (clean_dst lib dst s)
  clean_dst-Reduces dst s p t e =
      let (distinct, count) = clean_dst-counts dst s p t e in
      let (k, a, r) = Ends-eq-ok (clean_dst-Ends lib dst s) e in
      (
        record {
          valid = (Erases-keeps r p.valid).0;
          distinct = distinct;
          keyed = Erases-AreKeyed r p.valid p.keyed;
        },
        count,
      )

  clean_dsts-Reduces :
      (n dst : ℕ) (s : AllNodeFib × ℕ × ℕ)
      → AreProper s.0
      → Returns (Reduces s) (clean_dsts lib n dst s)
  unfolding clean_dsts
  clean_dsts-Reduces zero dst s p = Returns-ok (Reduces s) (p, refl)
  clean_dsts-Reduces (suc n) dst s p =
      Returns-bind (Reduces s) (clean_dst lib dst s) (clean_dst-Reduces dst s p) λ t h u e.
        let (proper, count) = clean_dsts-Reduces n (dst + 1) t h.0 u e in (proper, count ∙ h.1)

  remove_loops-counts :
      (fibs : AllNodeFib)
      → AreProper fibs
      → Returns (λ r. all_entries r.0 + r.1 ≡ all_entries fibs) (remove_loops lib fibs)
  unfolding remove_loops
  remove_loops-counts fibs p =
      Returns-bind (Reduces (fibs, 0, 0)) (clean_dsts lib (length fibs) 0 (fibs, 0, 0))
        (clean_dsts-Reduces (length fibs) 0 (fibs, 0, 0) p)
        λ s h. Returns-guard (leb s.2 s.1) abort (
          Returns-ok (λ (r : AllNodeFib × ℕ). all_entries r.0 + r.1 ≡ all_entries fibs)
            (omega (arith, h.1)))

  -- Where the FIBs are valid, each set has one nexthop for each neighbour and each node one FIB,
  -- removeLoops ends: the fuel that the model gives to its loops is enough. Where it returns, the
  -- FIBs have exactly as many nexthops fewer as it reports, and each is gone by a call of `erase`.
  pub remove_loops_total :
      (fibs : AllNodeFib)
      → AreProper fibs
      → Ends
          (λ r. Erases fibs r.1 r.0 × (all_entries r.0 + r.1 ≡ all_entries fibs))
          (remove_loops lib fibs)
  remove_loops_total fibs p =
      Ends-map (Ends-with_eq (remove_loops-Erases lib fibs))
        λ r (e, erases). (erases, remove_loops-counts fibs p r e)
