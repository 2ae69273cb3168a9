-- ===== src/Lfid/DeadEnds/Collect.antt =====
-- helper/lfid/remove-loops.cpp, removeDeadEnds: the set of all upward nexthops for a destination.
use ndn_sim.Prelude.{
  ℕ, ◌≡◌, ◌≢◌, refl, subst, true, List, [], ◌∷◌, some, arith, ◌==◌, All, All-map, Bool-cases,
  Option-cases, inl, inr, Ends, Ends-bind, Ends-map, returns,
}
use ndn_sim.Prelude.OrderedSet
use ndn_sim.Prelude.AssocMap.{lookup}
use ndn_sim.Lfid.NextHop.{FibNextHop, is_upward, by_cost}
use ndn_sim.Lfid.Fib.{AbstractFib, get_upward_nexthops, find_nexthop}
use ndn_sim.Lfid.Fib.Sets.{upward_only, find_nexthop-All}
use ndn_sim.Lfid.Fib.Invariant.{IsValid}
use ndn_sim.Lfid.Fib.Queries.{get_upward_nexthops_lem}
use ndn_sim.Lfid.Fib.Consistency.{HaveDistinctIds}
use ndn_sim.Lfid.AllNodes.{AllNodeFib}
use ndn_sim.Lfid.AllNodes.Downward.{AreValid}
use ndn_sim.Lfid.AllNodes.Removal.{nexthops_of, entry_at, AreDistinct}
use ndn_sim.Lfid.AllNodes.Shape.{AreKeyed}
use ndn_sim.Lfid.DeadEnds.{NodeNextHop, by_node, emplace_all, collect_node, collect_upward}
use ndn_sim.Lfid.DeadEnds.Pushes.{IsPresent, get_nexthops-Ends}
use ndn_sim.Lfid.DeadEnds.Loop.{IsDeadEnd, IsLoop}

-- What a lookup of every entry of a part of the map gives.
abbrev AreIn : AllNodeFib → AllNodeFib → Type 0
AreIn fibs = All (λ e. lookup e.0 fibs ≡ some e.1)

AreIn-cons :
    (node : ℕ) (fib : AbstractFib) (fibs rest : AllNodeFib)
    → All (λ e. e.0 ≢ node) rest
    → AreIn fibs rest
    → AreIn ((node, fib) ∷ fibs) rest
AreIn-cons node fib fibs [] a h = tt
AreIn-cons node fib fibs (e ∷ rest) a h =
    (ground (arith, a.0, h.0), AreIn-cons node fib fibs rest a.1 h.1)

AreKeyed-AreIn : (fibs : AllNodeFib) → AreKeyed fibs → AreIn fibs fibs
AreKeyed-AreIn [] u = tt
AreKeyed-AreIn ((node, fib) ∷ fibs) u =
    (ground arith, AreIn-cons node fib fibs fibs u.0 (AreKeyed-AreIn fibs u.1))

-- What holds of the upward nexthops holds of every nexthop that is upward.
All-upward_only :
    (P : FibNextHop → Type 0) (set : List FibNextHop)
    → All P (upward_only set)
    → All (λ nh. is_upward nh.type ≡ true → P nh) set
All-upward_only P [] a = tt
All-upward_only P (x ∷ set) a = elim (Bool-cases (is_upward x.type)) [
  | inl e ↦ let b = rw e at a in (λ u. b.0, All-upward_only P set b.1)
  | inr e ↦ (λ u. absurd (ground (arith, e, u)), All-upward_only P set (rw e at a))
]

abbrev AreFound : List FibNextHop → List FibNextHop → Type 0
AreFound set = All (λ nh. find_nexthop nh.nh_id set ≡ some nh)

AreFound-cons :
    (x : FibNextHop) (set rest : List FibNextHop)
    → All (λ nh. nh.nh_id ≢ x.nh_id) rest
    → AreFound set rest
    → AreFound (x ∷ set) rest
unfolding find_nexthop
AreFound-cons x set [] a h = tt
AreFound-cons x set (nh ∷ rest) a h = (ground (arith, a.0, h.0), AreFound-cons x set rest a.1 h.1)

HaveDistinctIds-AreFound : (set : List FibNextHop) → HaveDistinctIds set → AreFound set set
unfolding find_nexthop
HaveDistinctIds-AreFound [] h = tt
HaveDistinctIds-AreFound (x ∷ set) h =
    (ground arith, AreFound-cons x set set h.0 (HaveDistinctIds-AreFound set h.1))

module _ (dst : ℕ) (fibs : AllNodeFib) where
  -- From `set` to `set'` pairs came, all of entries that are there.
  record Extended (set set' : List NodeNextHop) : Type 0 where
    sorted : OrderedSet.IsSorted by_node set → OrderedSet.IsSorted by_node set'
    present : All (IsPresent dst fibs) set → All (IsPresent dst fibs) set'
    kept :
        (q : NodeNextHop)
        → OrderedSet.has by_node q set ≡ true
        → OrderedSet.has by_node q set' ≡ true

  Extended-refl : (set : List NodeNextHop) → Extended set set
  Extended-refl set = record { sorted = λ s. s; present = λ p. p; kept = λ q h. h }

  Extended-trans : {a b c : List NodeNextHop} → Extended a b → Extended b c → Extended a c
  Extended-trans g h = record {
    sorted = λ s. h.sorted (g.sorted s);
    present = λ p. h.present (g.present p);
    kept = λ q e. h.kept q (g.kept q e);
  }

  Extended-insert :
      (p : NodeNextHop) (set : List NodeNextHop)
      → IsPresent dst fibs p
      → Extended set (OrderedSet.insert by_node p set)
  Extended-insert p set h = record {
    sorted = OrderedSet.insert-IsSorted by_node p set;
    present = OrderedSet.All-insert by_node (IsPresent dst fibs) p set h;
    kept = λ q. OrderedSet.has-insert_kept by_node p q set;
  }

  abbrev IsIn : List NodeNextHop → ℕ → FibNextHop → Type 0
  IsIn set node nh = OrderedSet.has by_node (record { node = node; nh = nh }) set ≡ true

  emplace_all_lem :
      (node : ℕ) (nhs : List FibNextHop) (set : List NodeNextHop)
      → All (λ nh. entry_at node dst nh.nh_id fibs ≡ some nh) nhs
      → Extended set (emplace_all node nhs set) × All (IsIn (emplace_all node nhs set) node) nhs
  unfolding emplace_all
  emplace_all_lem node [] set a = (Extended-refl set, tt)
  emplace_all_lem node (nh ∷ nhs) set a =
      let p : NodeNextHop = record { node = node; nh = nh } in
      let (x, i) = emplace_all_lem node nhs (OrderedSet.insert by_node p set) a.1 in
      (
        Extended-trans (Extended-insert p set a.0) x,
        (x.kept p (OrderedSet.has-insert_self by_node p set), i),
      )

  -- The dead ends of a node are in the set.
  abbrev HasDeadEnds : List NodeNextHop → ℕ → Type 0
  HasDeadEnds set node =
      (nh : FibNextHop) → IsDeadEnd dst (record { node = node; nh = nh }) fibs → IsIn set node nh

  upward-Ends :
      (node : ℕ) (fib : AbstractFib)
      → IsValid fib
      → lookup node fibs ≡ some fib
      → Ends
          (λ ups. (all : _) × (nexthops_of node dst fibs ≡ some all) × (ups ≡ upward_only all))
          (get_upward_nexthops fib dst)
  upward-Ends node fib v k =
      rw (get_upward_nexthops_lem dst fib v)
        (Ends-bind _ (get_nexthops-Ends node dst fibs fib k) λ all a. returns (all, a, refl))

  upward_there :
      (node : ℕ) (all : List FibNextHop)
      → AreDistinct fibs
      → nexthops_of node dst fibs ≡ some all
      → All (λ nh. entry_at node dst nh.nh_id fibs ≡ some nh) (upward_only all)
  unfolding entry_at
  upward_there node all u a =
      OrderedSet.All-filter by_cost _ (λ nh. is_upward nh.type) all
        (All-map all (λ nh f. ground (arith, a, f))
          (HaveDistinctIds-AreFound all (u node dst all a)))

  emplaced-Ends :
      (node : ℕ) (all : List FibNextHop) (set : List NodeNextHop)
      → AreDistinct fibs
      → nexthops_of node dst fibs ≡ some all
      → Extended set (emplace_all node (upward_only all) set)
        × HasDeadEnds (emplace_all node (upward_only all) set) node
  unfolding entry_at
  emplaced-Ends node all set u a =
      let (x, i) = emplace_all_lem node (upward_only all) set (upward_there node all u a) in
      (
        x,
        λ nh d.
            let f = d.there in
            find_nexthop-All _ nh.nh_id all nh (ground (arith, a, f))
              (All-upward_only (IsIn (emplace_all node (upward_only all) set) node) all i) d.rises,
      )

  collect_node-Ends :
      (node : ℕ) (fib : AbstractFib) (set : List NodeNextHop)
      → IsValid fib
      → AreDistinct fibs
      → lookup node fibs ≡ some fib
      → Ends (λ set'. Extended set set' × HasDeadEnds set' node) (collect_node dst node fib set)
  unfolding collect_node
  collect_node-Ends node fib set v u k = elim (Bool-cases (node == dst)) [
    | inl e ↦
        rw e (returns (Extended-refl set, λ nh d. let a = d.apart in absurd (ground (arith, a))))
    | inr e ↦ rw e (
        Ends-bind _ (get_nexthops-Ends node dst fibs fib k) λ _ _.
          Ends-bind _ (upward-Ends node fib v k)
            λ ups (all, a, same). rw same (returns (emplaced-Ends node all set u a)))
  ]

  collect_upward-Ends :
      (rest : AllNodeFib) (set : List NodeNextHop)
      → AreValid rest
      → AreDistinct fibs
      → AreIn fibs rest
      → Ends
          (λ set'. Extended set set' × All (λ e. HasDeadEnds set' e.0) rest)
          (collect_upward dst rest set)
  unfolding collect_upward
  collect_upward-Ends [] set v u k = returns (Extended-refl set, tt)
  collect_upward-Ends ((node, fib) ∷ rest) set v u k =
      Ends-bind _ (collect_node-Ends node fib set v.0 u k.0) λ a g.
        Ends-map (collect_upward-Ends rest a v.1 u k.1)
          λ b h. (Extended-trans g.0 h.0, (λ nh d. h.0.kept _ (g.1 nh d), h.1))

  has_node :
      (P : ℕ → Type 0) (node : ℕ) (m : AllNodeFib) (fib : AbstractFib)
      → lookup node m ≡ some fib
      → All (λ e. P e.0) m
      → P node
  has_node P node [] fib h a = cc
  has_node P node ((n, f) ∷ m) fib h a = elim (Bool-cases (n == node)) [
    | inl e ↦ subst P (ground arith) a.0
    | inr e ↦ has_node P node m fib (ground arith) a.1
  ]

  collected-IsLoop :
      (set : List NodeNextHop)
      → AreValid fibs
      → AreDistinct fibs
      → Extended [] set
      → All (λ e. HasDeadEnds set e.0) fibs
      → IsLoop dst set fibs
  unfolding entry_at nexthops_of
  collected-IsLoop set v u x h = record {
    valid = v;
    distinct = u;
    sorted = x.sorted tt;
    present = x.present tt;
    waiting = λ q d. elim (Option-cases (lookup q.node fibs)) [
      | inl e ↦ let f = d.there in absurd (ground (arith, e, f))
      | inr (fib, e) ↦ has_node (HasDeadEnds set) q.node fibs fib e h q.nh d
    ];
  }

  pub collect_upward-IsLoop :
      AreValid fibs
      → AreDistinct fibs
      → AreKeyed fibs
      → Ends (λ set. IsLoop dst set fibs) (collect_upward dst fibs [])
  collect_upward-IsLoop v u k =
      Ends-map (collect_upward-Ends fibs [] v u (AreKeyed-AreIn fibs k))
        λ set h. collected-IsLoop set v u h.0 h.1
