-- ===== src/Lfid/DeadEnds/Pushes.antt =====
-- helper/lfid/remove-loops.cpp, removeDeadEnds: the pairs that a removal puts into the set.
use ndn_sim.Prelude.{
  ℕ, suc, ◌+◌, ◌≤◌, ◌≡◌, refl, true, false, not, ◌&&◌, List, [], ◌∷◌, some, arith, ◌==◌, All,
  length, Bool-cases, Option-cases, inl, inr, abort, Ends, Ends-bind, Ends-guard, Ends-map, returns,
  stops,
}
use ndn_sim.Prelude.OrderedSet
use ndn_sim.Prelude.AssocMap.{lookup}
use ndn_sim.Lfid.NextHop.{FibNextHop, is_upward, is_downward}
use ndn_sim.Lfid.Fib.{AbstractFib, get_nexthops, contains, nexthops_at, find_nexthop}
use ndn_sim.Lfid.AllNodes.{AllNodeFib, fib_at}
use ndn_sim.Lfid.AllNodes.Removal.{nexthops_of, entry_at}
use ndn_sim.Lfid.DeadEnds.{NodeNextHop, by_node, push_found, push_one, push_reverse}

pub find_nexthop-nh_id :
    (k : ℕ) (set : List FibNextHop) (nh : FibNextHop) → find_nexthop k set ≡ some nh → nh.nh_id ≡ k
unfolding find_nexthop
find_nexthop-nh_id k [] nh h = cc
find_nexthop-nh_id k (x ∷ set) nh h = ground (arith, find_nexthop-nh_id k set nh)

get_nexthops-lookup :
    (fib : AbstractFib) (dst : ℕ)
    → Ends (λ set. lookup dst fib.per_dst_fib ≡ some set) (get_nexthops fib dst)
unfolding get_nexthops nexthops_at
get_nexthops-lookup fib dst = Ends-guard (not (dst == fib.node_id)) abort tt λ _.
    Ends-guard (contains fib dst) abort tt λ _. elim (Option-cases (lookup dst fib.per_dst_fib)) [
      | inl e ↦ rw e (stops tt)
      | inr (set, e) ↦ rw e (returns refl)
    ]

pub get_nexthops-Ends :
    (node dst : ℕ) (fibs : AllNodeFib) (fib : AbstractFib)
    → lookup node fibs ≡ some fib
    → Ends (λ set. nexthops_of node dst fibs ≡ some set) (get_nexthops fib dst)
unfolding nexthops_of
get_nexthops-Ends node dst fibs fib k =
    Ends-map (get_nexthops-lookup fib dst) λ set e. ground (arith, k, e)

pub fib_at-Ends :
    (node : ℕ) (fibs : AllNodeFib) → Ends (λ fib. lookup node fibs ≡ some fib) (fib_at node fibs)
unfolding fib_at
fib_at-Ends node fibs = elim (Option-cases (lookup node fibs)) [
  | inl e ↦ rw e (stops tt)
  | inr (fib, e) ↦ rw e (returns refl)
]

abbrev pub IsPresent : ℕ → AllNodeFib → NodeNextHop → Type 0
IsPresent dst fibs p = entry_at p.node dst p.nh.nh_id fibs ≡ some p.nh

module _ (dst node : ℕ) (fibs : AllNodeFib) where
  -- From `set` to `set'` at most `n` pairs came, all of entries that are there.
  pub record Grown (n : ℕ) (set set' : List NodeNextHop) : Type 0 where
    pub sorted : OrderedSet.IsSorted by_node set → OrderedSet.IsSorted by_node set'
    pub present : All (IsPresent dst fibs) set → All (IsPresent dst fibs) set'
    pub kept :
        (q : NodeNextHop)
        → OrderedSet.has by_node q set ≡ true
        → OrderedSet.has by_node q set' ≡ true
    pub bounded : length set' ≤ length set + n

  Grown-refl : (n : ℕ) (set : List NodeNextHop) → Grown n set set
  Grown-refl n set = record {
    sorted = λ s. s;
    present = λ h. h;
    kept = λ q h. h;
    bounded = omega arith;
  }

  Grown-trans : {n : ℕ} {a b c : List NodeNextHop} → Grown 1 a b → Grown n b c → Grown (suc n) a c
  Grown-trans g h = record {
    sorted = λ s. h.sorted (g.sorted s);
    present = λ p. h.present (g.present p);
    kept = λ q e. h.kept q (g.kept q e);
    bounded = omega (arith, g.bounded, h.bounded);
  }

  Grown-insert :
      (p : NodeNextHop) (set : List NodeNextHop)
      → IsPresent dst fibs p
      → Grown 1 set (OrderedSet.insert by_node p set)
  Grown-insert p set h = record {
    sorted = OrderedSet.insert-IsSorted by_node p set;
    present = OrderedSet.All-insert by_node (IsPresent dst fibs) p set h;
    kept = λ q. OrderedSet.has-insert_kept by_node p q set;
    bounded = omega (arith, OrderedSet.length-insert-le by_node p set);
  }

  -- The pair of a neighbour's nexthop to this node is in the set.
  abbrev pub IsPushed : List NodeNextHop → FibNextHop → Type 0
  IsPushed set own =
      (y : FibNextHop)
      → is_downward own.type ≡ true
      → (own.nh_id == dst) ≡ false
      → entry_at own.nh_id dst node fibs ≡ some y
      → OrderedSet.has by_node (record { node = own.nh_id; nh = y }) set ≡ true

  push_found-Ends :
      (own : FibNextHop) (reverse : List FibNextHop) (set : List NodeNextHop)
      → nexthops_of own.nh_id dst fibs ≡ some reverse
      → Ends
          (λ set'. Grown 1 set set' × IsPushed set' own)
          (push_found own.nh_id (find_nexthop node reverse) set)
  unfolding push_found entry_at
  push_found-Ends own reverse set k = elim (Option-cases (find_nexthop node reverse)) [
    | inl e ↦ rw e (returns (Grown-refl 1 set, λ y d o f. absurd (ground (arith, k, e))))
    | inr (x, e) ↦ rw e (
        Ends-guard (is_upward x.type) abort tt λ _. returns (
          Grown-insert (record { node = own.nh_id; nh = x }) set
              (ground (arith, k, e, find_nexthop-nh_id node reverse x e)),
          λ y d o f.
              let same : x ≡ y = ground (arith, k, e) in
              rw (← same)
                (OrderedSet.has-insert_self by_node (record { node = own.nh_id; nh = x }) set),
        ))
  ]

  push_one-Ends :
      (own : FibNextHop) (set : List NodeNextHop)
      → Ends (λ set'. Grown 1 set set' × IsPushed set' own) (push_one dst node fibs own set)
  unfolding push_one
  push_one-Ends own set = elim (Bool-cases (is_downward own.type && not (own.nh_id == dst))) [
    | inr e ↦ rw e (returns (Grown-refl 1 set, λ y d o f. absurd (ground arith)))
    | inl e ↦ rw e (
        Ends-bind _ (fib_at-Ends own.nh_id fibs) λ fib k.
          Ends-bind _ (get_nexthops-Ends own.nh_id dst fibs fib k)
            λ reverse r. push_found-Ends own reverse set r)
  ]

  pub push_reverse-Ends :
      (owns : List FibNextHop) (set : List NodeNextHop)
      → Ends
          (λ set'. Grown (length owns) set set' × All (IsPushed set') owns)
          (push_reverse dst node fibs owns set)
  unfolding push_reverse
  push_reverse-Ends [] set = returns (Grown-refl 0 set, tt)
  push_reverse-Ends (own ∷ owns) set =
      Ends-bind (λ set'. Grown 1 set set' × IsPushed set' own) (push_one-Ends own set)
        λ a g.
          Ends-map (push_reverse-Ends owns a)
            λ b h. (Grown-trans g.0 h.0, (λ y d o f. h.0.kept _ (g.1 y d o f), h.1))
