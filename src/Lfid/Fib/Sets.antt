-- ===== src/Lfid/Fib/Sets.antt =====
-- helper/lfid/abstract-fib.cpp: what one write to the map of nexthop sets does to the sizes, to the
-- order, and to the map of upward nexthops that goes with it.

use ndn_sim.Prelude.{
  List, [], ◌∷◌, subst, ℕ, suc, ◌+◌, ◌≡◌, refl, ap, true, false, none, some, arith, ◌==◌, length,
  filter, All, Bool-cases, inl, inr,
}
use ndn_sim.Prelude.OrderedSet
use ndn_sim.Prelude.AssocMap.{lookup, update}
use ndn_sim.Lfid.NextHop.{FibNextHop, is_upward, by_cost, lt_nh, lt_nh_irrefl}
use ndn_sim.Lfid.Fib.{find_nexthop, erase_nexthop}

abbrev pub upward_only : List FibNextHop → List FibNextHop
upward_only = filter (λ nh. is_upward nh.type)

abbrev pub upward_part : List (ℕ × List FibNextHop) → List (ℕ × List FibNextHop)
upward_part [] = []
upward_part ((dst, set) ∷ m) = (dst, upward_only set) ∷ upward_part m

abbrev pub sizes : List (ℕ × List FibNextHop) → ℕ
sizes [] = 0
sizes ((dst, set) ∷ m) = length set + sizes m

abbrev pub AreSorted : List (ℕ × List FibNextHop) → Type 0
AreSorted = All (λ e. OrderedSet.IsSorted by_cost e.1)

pub lookup-AreSorted :
    (dst : ℕ) (m : List (ℕ × List FibNextHop)) (set : List FibNextHop)
    → AreSorted m
    → lookup dst m ≡ some set
    → OrderedSet.IsSorted by_cost set
lookup-AreSorted dst [] set s h = cc
lookup-AreSorted dst ((d, v) ∷ m) set s h = elim (Bool-cases (d == dst)) [
  | inl e ↦ subst (OrderedSet.IsSorted by_cost) (ground arith) s.0
  | inr e ↦ lookup-AreSorted dst m set s.1 (ground arith)
]

pub lookup-upward_part :
    (dst : ℕ) (m : List (ℕ × List FibNextHop)) (set : List FibNextHop)
    → lookup dst m ≡ some set
    → lookup dst (upward_part m) ≡ some (upward_only set)
lookup-upward_part dst [] set h = cc
lookup-upward_part dst ((d, v) ∷ m) set h = ground (arith, lookup-upward_part dst m set)

pub lookup-upward_part-none :
    (dst : ℕ) (m : List (ℕ × List FibNextHop))
    → lookup dst m ≡ none
    → lookup dst (upward_part m) ≡ none
lookup-upward_part-none dst [] h = refl
lookup-upward_part-none dst ((d, v) ∷ m) h = ground (arith, lookup-upward_part-none dst m)

module _ (dst : ℕ) (f : List FibNextHop → List FibNextHop) where
  pub sizes-update :
      (m : List (ℕ × List FibNextHop)) (set : List FibNextHop)
      → lookup dst m ≡ some set
      → sizes (update dst f m) + length set ≡ sizes m + length (f set)
  sizes-update [] set h = cc
  sizes-update ((d, v) ∷ m) set h = elim (Bool-cases (d == dst)) [
    | inl e ↦ rw e (ground arith)
    | inr e ↦ rw e (ground (arith, sizes-update m set))
  ]

  pub AreSorted-update :
      (m : List (ℕ × List FibNextHop))
      → ((set : List FibNextHop)
          → OrderedSet.IsSorted by_cost set
          → OrderedSet.IsSorted by_cost (f set))
      → AreSorted m
      → AreSorted (update dst f m)
  AreSorted-update [] k s = tt
  AreSorted-update ((d, v) ∷ m) k s = elim (Bool-cases (d == dst)) [
    | inl e ↦ rw e (k v s.0, s.1)
    | inr e ↦ rw e (s.0, AreSorted-update m k s.1)
  ]

  -- A write that the upward nexthops follow by `g`.
  pub upward_part-update :
      (g : List FibNextHop → List FibNextHop) (m : List (ℕ × List FibNextHop))
      (set : List FibNextHop)
      → lookup dst m ≡ some set
      → upward_only (f set) ≡ g (upward_only set)
      → upward_part (update dst f m) ≡ update dst g (upward_part m)
  upward_part-update g [] set h k = cc
  upward_part-update g ((d, v) ∷ m) set h k = elim (Bool-cases (d == dst)) [
    | inl e ↦ rw e (ground arith)
    | inr e ↦ rw e (ap (◌∷◌ (d, upward_only v)) (upward_part-update g m set (ground arith) k))
  ]

  -- A write that the upward nexthops do not notice.
  pub upward_part-update_same :
      (m : List (ℕ × List FibNextHop)) (set : List FibNextHop)
      → lookup dst m ≡ some set
      → upward_only (f set) ≡ upward_only set
      → upward_part (update dst f m) ≡ upward_part m
  upward_part-update_same [] set h k = cc
  upward_part-update_same ((d, v) ∷ m) set h k = elim (Bool-cases (d == dst)) [
    | inl e ↦ rw e (ground arith)
    | inr e ↦ rw e (ap (◌∷◌ (d, upward_only v)) (upward_part-update_same m set (ground arith) k))
  ]

pub has-upward_only :
    (nh : FibNextHop) (set : List FibNextHop)
    → OrderedSet.has by_cost nh set ≡ false
    → OrderedSet.has by_cost nh (upward_only set) ≡ false
unfolding OrderedSet.has
has-upward_only nh [] h = refl
has-upward_only nh (x ∷ set) h = ground (arith, has-upward_only nh set)

pub find_nexthop-All {ℓ} :
    (P : FibNextHop → Type ℓ) (nh_id : ℕ) (set : List FibNextHop) (nh : FibNextHop)
    → find_nexthop nh_id set ≡ some nh
    → All P set
    → P nh
unfolding find_nexthop
find_nexthop-All P nh_id [] nh h a = absurd (cc)
find_nexthop-All P nh_id (x ∷ set) nh h a = elim (Bool-cases (x.nh_id == nh_id)) [
  | inl e ↦ subst P (ground arith) a.0
  | inr e ↦ find_nexthop-All P nh_id set nh (ground arith) a.1
]

pub length-erase_nexthop :
    (nh_id : ℕ) (set : List FibNextHop) (nh : FibNextHop)
    → find_nexthop nh_id set ≡ some nh
    → suc (length (erase_nexthop nh_id set)) ≡ length set
unfolding find_nexthop erase_nexthop
length-erase_nexthop nh_id [] nh h = absurd (cc)
length-erase_nexthop nh_id (x ∷ set) nh h = ground (arith, length-erase_nexthop nh_id set nh)

pub All-erase_nexthop {ℓ} :
    (P : FibNextHop → Type ℓ) (nh_id : ℕ) (set : List FibNextHop)
    → All P set
    → All P (erase_nexthop nh_id set)
unfolding erase_nexthop
All-erase_nexthop P nh_id [] a = tt
All-erase_nexthop P nh_id (x ∷ set) a = elim (Bool-cases (x.nh_id == nh_id)) [
  | inl e ↦ rw e a.1
  | inr e ↦ rw e (a.0, All-erase_nexthop P nh_id set a.1)
]

pub erase_nexthop-IsSorted :
    (nh_id : ℕ) (set : List FibNextHop)
    → OrderedSet.IsSorted by_cost set
    → OrderedSet.IsSorted by_cost (erase_nexthop nh_id set)
unfolding erase_nexthop
erase_nexthop-IsSorted nh_id [] s = tt
erase_nexthop-IsSorted nh_id (x ∷ set) s = elim (Bool-cases (x.nh_id == nh_id)) [
  | inl e ↦ rw e s.1
  | inr e ↦ rw e (All-erase_nexthop _ nh_id set s.0, erase_nexthop-IsSorted nh_id set s.1)
]

-- The upward nexthop that the search finds in a set is the one that a search by key finds among
-- the upward nexthops.
module _ (nh_id : ℕ) (nh : FibNextHop) (up : is_upward nh.type ≡ true) where
  pub has_found :
      (set : List FibNextHop)
      → find_nexthop nh_id set ≡ some nh
      → OrderedSet.has by_cost nh (upward_only set) ≡ true
  unfolding OrderedSet.has find_nexthop
  has_found [] h = cc
  has_found (x ∷ set) h = ground (arith, has_found set, lt_nh_irrefl nh)

  pub upward_only-erase_nexthop :
      (set : List FibNextHop)
      → OrderedSet.IsSorted by_cost set
      → find_nexthop nh_id set ≡ some nh
      → upward_only (erase_nexthop nh_id set) ≡ OrderedSet.erase by_cost nh (upward_only set)
  unfolding OrderedSet.erase find_nexthop erase_nexthop
  upward_only-erase_nexthop [] s h = cc
  upward_only-erase_nexthop (x ∷ set) s h = elim (Bool-cases (x.nh_id == nh_id)) [
    | inl e ↦ ground (arith, lt_nh_irrefl nh)
    | inr e ↦ ground (
      arith,
      upward_only-erase_nexthop set s.1,
      find_nexthop-All (λ y. lt_nh x y ≡ true) nh_id set nh (ground arith) s.0,
    )
  ]
