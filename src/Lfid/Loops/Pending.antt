-- ===== src/Lfid/Loops/Pending.antt =====
-- helper/lfid/remove-loops.cpp: the upward nexthops in the priority queue are entries of the FIBs,
-- before and after one of them is taken out.
use ndn_sim.Prelude.{
  ℕ, ◌≡◌, ◌≢◌, refl, sym, subst, true, false, ◌&&◌, List, [], ◌∷◌, some, ok, arith, ◌==◌, All,
  All-map, abort, guard, ltb, length, Bool-cases, Option-cases, >>=-eq-ok, or_fail-some, inl, inr,
}
use ndn_sim.Prelude.OrderedSet
use mathlib.Core.List.{Memᴰ}
use mathlib.Core.List.Memᴰ
use ndn_sim.Lfid.NextHop.{FibNextHop, by_cost, lt_nh, lt_nh_irrefl}
use ndn_sim.Lfid.Fib.Consistency.{HaveDistinctIds}
use ndn_sim.Lfid.AllNodes.{AllNodeFib}
use ndn_sim.Lfid.AllNodes.Removal.{entry_at, Taken, AreDistinct, entry_at-Taken}
use ndn_sim.Lfid.Loops.{
  NodePrio, last, get_highest_cost_uw, erase_uw, pop_highest_cost_uw, lt_prio, pop_top,
}

-- The neighbour of the nexthop has an entry at the node.
abbrev pub IsThere : ℕ → AllNodeFib → ℕ → FibNextHop → Type 0
IsThere dst fibs node nh = (x : FibNextHop) × (entry_at node dst nh.nh_id fibs ≡ some x)

pub record IsPending (dst : ℕ) (fibs : AllNodeFib) (p : NodePrio) : Type 0 where
  pub there : All (IsThere dst fibs p.node_id) p.uw_set
  pub distinct : HaveDistinctIds p.uw_set

-- No two entries of the queue are of one node.
abbrev pub AreApart : List NodePrio → Type 0
AreApart [] = Unit
AreApart (p ∷ q) = All (λ r. r.node_id ≢ p.node_id) q × AreApart q

pub pop_top-All :
    (P : NodePrio → Type 0) (best : NodePrio) (q : List NodePrio)
    → All P (best ∷ q)
    → All P ((pop_top best q).0 ∷ (pop_top best q).1)
unfolding pop_top
pop_top-All P best [] h = h
pop_top-All P best (n ∷ q) h = elim (Bool-cases (lt_prio best n)) [
  | inl e ↦ rw e (let r = pop_top-All P n q (h.1.0, h.1.1) in (r.0, (h.0, r.1)))
  | inr e ↦ rw e (let r = pop_top-All P best q (h.0, h.1.1) in (r.0, (h.1.0, r.1)))
]

pop_top_passed :
    (best n : NodePrio) (q : List NodePrio)
    → lt_prio best n ≡ true
    → pop_top best (n ∷ q) ≡ ((pop_top n q).0, best ∷ (pop_top n q).1)
unfolding pop_top
pop_top_passed best n q e = rw (pop_top, e) refl

pop_top_kept :
    (best n : NodePrio) (q : List NodePrio)
    → lt_prio best n ≡ false
    → pop_top best (n ∷ q) ≡ ((pop_top best q).0, n ∷ (pop_top best q).1)
unfolding pop_top
pop_top_kept best n q e = rw (pop_top, e) refl

abbrev IsTopApart : NodePrio × List NodePrio → Type 0
IsTopApart r = AreApart (r.0 ∷ r.1)

pub pop_top-AreApart :
    (best : NodePrio) (q : List NodePrio) → AreApart (best ∷ q) → IsTopApart (pop_top best q)
unfolding pop_top
pop_top-AreApart best [] h = h
pop_top-AreApart best (n ∷ q) h = elim (Bool-cases (lt_prio best n)) [
  | inl e ↦
      let r = pop_top-AreApart n q h.1 in
      let a = pop_top-All (λ r. r.node_id ≢ best.node_id) n q h.0 in
      subst IsTopApart (sym (pop_top_passed best n q e)) ((λ same. a.0 (sym same), r.0), (a.1, r.1))
  | inr e ↦
      let r = pop_top-AreApart best q (h.0.1, h.1.1) in
      let a = pop_top-All (λ r. r.node_id ≢ n.node_id) best q ((λ same. h.0.0 (sym same)), h.1.0) in
      subst IsTopApart (sym (pop_top_kept best n q e)) ((λ same. a.0 (sym same), r.0), (a.1, r.1))
]

last-mem : (set : List FibNextHop) (nh : FibNextHop) → last set ≡ some nh → Memᴰ nh set
unfolding last
last-mem [] nh h = cc
last-mem (x ∷ set) nh h = elim (Option-cases (last set)) [
  | inl e ↦ Memᴰ.head (ground (arith, h, e))
  | inr (top, e) ↦ Memᴰ.tail (last-mem set nh (ground (arith, h, e)))
]

All-mem :
    (P : FibNextHop → Type 0) (set : List FibNextHop) (nh : FibNextHop)
    → All P set
    → Memᴰ nh set
    → P nh
All-mem P [] nh a m = elim m [ ]
All-mem P (x ∷ set) nh a (Memᴰ.head e) = subst P (sym e) a.0
All-mem P (x ∷ set) nh a (Memᴰ.tail m) = All-mem P set nh a.1 m

pub IsThere-mem :
    (dst node : ℕ) (fibs : AllNodeFib) (set : List FibNextHop) (nh : FibNextHop)
    → All (IsThere dst fibs node) set
    → Memᴰ nh set
    → IsThere dst fibs node nh
IsThere-mem dst node fibs set nh a m = All-mem (IsThere dst fibs node) set nh a m

equivalent-nh_id : (a b : FibNextHop) → OrderedSet.equivalent by_cost a b ≡ true → a.nh_id ≡ b.nh_id
unfolding lt_nh
equivalent-nh_id a b h = ground arith

-- What is left after the erasure of a member has other neighbours.
pub erase-other_ids :
    (nh : FibNextHop) (set : List FibNextHop)
    → HaveDistinctIds set
    → Memᴰ nh set
    → All (λ y. y.nh_id ≢ nh.nh_id) (OrderedSet.erase by_cost nh set)
unfolding OrderedSet.erase
erase-other_ids nh [] d m = elim m [ ]
erase-other_ids nh (x ∷ set) d m = elim (Bool-cases (OrderedSet.equivalent by_cost nh x)) [
  | inl e ↦ rw e (subst (λ k. All (λ y. y.nh_id ≢ k) set) (sym (equivalent-nh_id nh x e)) d.0)
  | inr n ↦ elim (Memᴰ.cases_cons m) [
    | inl same ↦
        let own = subst (λ y. OrderedSet.equivalent by_cost y x ≡ false) same n in
        absurd (ground (arith, lt_nh_irrefl x, own))
    | inr later ↦ rw n (
      λ q. All-mem (λ y. y.nh_id ≢ x.nh_id) set nh d.0 later (sym q),
      erase-other_ids nh set d.1 later,
    )
  ]
]

erase-HaveDistinctIds :
    (nh : FibNextHop) (set : List FibNextHop)
    → HaveDistinctIds set
    → HaveDistinctIds (OrderedSet.erase by_cost nh set)
unfolding OrderedSet.erase
erase-HaveDistinctIds nh [] d = tt
erase-HaveDistinctIds nh (x ∷ set) d = elim (Bool-cases (OrderedSet.equivalent by_cost nh x)) [
  | inl e ↦ rw e d.1
  | inr n ↦ rw n (
    OrderedSet.All-erase by_cost (λ y. y.nh_id ≢ x.nh_id) nh set d.0,
    erase-HaveDistinctIds nh set d.1,
  )
]

-- What a node is after its greatest upward nexthop is popped.
pub record IsPopped (node : NodePrio) (nh : FibNextHop) (node' : NodePrio) : Type 0 where
  pub own : node'.node_id ≡ node.node_id
  pub member : Memᴰ nh node.uw_set
  pub rest : node'.uw_set ≡ OrderedSet.erase by_cost nh node.uw_set

erase_uw-ok :
    (nh : FibNextHop) (node rest : NodePrio)
    → erase_uw nh node ≡ ok rest
    → (rest.node_id ≡ node.node_id) × (rest.uw_set ≡ OrderedSet.erase by_cost nh node.uw_set)
unfolding erase_uw
erase_uw-ok nh node rest h =
    let (u, a, k) = >>=-eq-ok (guard (ltb 0 (length node.uw_set)) abort) _ h in
    let (v, b, l) = >>=-eq-ok (guard (OrderedSet.has by_cost nh node.uw_set) abort) _ k in
    (ground (arith, l), ground (arith, l))

pub pop_highest-IsPopped :
    (node node' : NodePrio) (nh : FibNextHop)
    → pop_highest_cost_uw node ≡ ok (nh, node')
    → IsPopped node nh node'
unfolding pop_highest_cost_uw get_highest_cost_uw
pop_highest-IsPopped node node' nh h =
    let (top, a, b) = >>=-eq-ok (get_highest_cost_uw node) _ h in
    let (rest, c, d) = >>=-eq-ok (erase_uw top node) _ b in
    let (own, left) = erase_uw-ok top node rest c in
    let same : top ≡ nh = cc in
    let other : rest ≡ node' = cc in
    record {
      own = rw (← other) own;
      member =
          subst (λ x. Memᴰ x node.uw_set) same
            (last-mem node.uw_set top (or_fail-some (last node.uw_set) _ top a));
      rest = rw (← other, ← same) left;
    }

module _ {dst : ℕ} {fibs : AllNodeFib} where
  -- The rest of a popped node is pending before a removal.
  pub IsPending-popped :
      (node node' : NodePrio) (nh : FibNextHop)
      → IsPending dst fibs node
      → IsPopped node nh node'
      → IsPending dst fibs node'
  IsPending-popped node node' nh p h = record {
    there =
        rw (h.own, h.rest)
          (OrderedSet.All-erase by_cost (IsThere dst fibs node.node_id) nh node.uw_set p.there);
    distinct = rw h.rest (erase-HaveDistinctIds nh node.uw_set p.distinct);
  }

  module _ {own nh_id : ℕ} {fibs' : AllNodeFib} (t : Taken own dst nh_id fibs fibs')
      (u : AreDistinct fibs) where
    -- An entry of another node, or of another neighbour, is still there after the removal.
    IsThere-Taken :
        (node : ℕ) (nh : FibNextHop)
        → ((own == node) && (nh_id == nh.nh_id)) ≡ false
        → IsThere dst fibs node nh
        → IsThere dst fibs' node nh
    IsThere-Taken node nh n (x, e) = (x, ground (arith, entry_at-Taken t u node dst nh.nh_id, n, e))

    pub IsPending-other :
        (p : NodePrio) → p.node_id ≢ own → IsPending dst fibs p → IsPending dst fibs' p
    IsPending-other p n h = record {
      there = All-map p.uw_set (λ x e. IsThere-Taken p.node_id x (ground (arith, n)) e) h.there;
      distinct = h.distinct;
    }

    pub IsPending-rest :
        (p : NodePrio)
        → All (λ y. y.nh_id ≢ nh_id) p.uw_set
        → IsPending dst fibs p
        → IsPending dst fibs' p
    IsPending-rest p n h = record { there = both p.uw_set n h.there; distinct = h.distinct }
      where
        both :
            (set : List FibNextHop)
            → All (λ y. y.nh_id ≢ nh_id) set
            → All (IsThere dst fibs p.node_id) set
            → All (IsThere dst fibs' p.node_id) set
        both [] a b = tt
        both (x ∷ set) a b = (IsThere-Taken p.node_id x (ground (arith, a.0)) b.0, both set a.1 b.1)
