-- ===== src/Tests/Lfid.antt =====
-- The LFID routing helper: a triangle of nodes 0, 1, 2, in which node 0 has an upward nexthop.
use ndn_sim.Prelude.{ℕ, ◌+◌, ◌<◌, length, ◌≡◌, ◌≢◌, ◌↔◌, refl, List, [], ◌∷◌, ok, Ends, All}
use ndn_sim.Prelude.Int.{pos, negsuc, ◌-ℤ◌}
use ndn_sim.Prelude.OrderedSet
use ndn_sim.Lfid.NextHop
use ndn_sim.Lfid.NextHop.{FibNextHop, NextHopType, downward, upward}
use ndn_sim.Lfid.Fib.{
  AbstractFib, get_nexthops, get_upward_nexthops, abstract_fib, check_inputs, check_fib,
}
use ndn_sim.Lfid.Fib
use ndn_sim.Lfid.Fib.Invariant.{IsValid, abstract_fib-IsValid}
use ndn_sim.Lfid.Fib.Insertion.{inserted, insert_lem, insert-IsInsertable, IsInsertable}
use ndn_sim.Lfid.Fib.Erasure.{Erasure, erase_total}
use ndn_sim.Lfid.Fib.Consistency.{IsConsistent, check_fib_iff}
use ndn_sim.Lfid.AllNodes.{AllNodeFib, Erases, fib_at, erase_at}
use ndn_sim.Lfid.AllNodes.Downward.{AreValid, downward_at}
use ndn_sim.Lfid.Loops.{remove_loops}
use ndn_sim.Lfid.Loops.Run.{remove_loops-keeps}
use ndn_sim.Lfid.AllNodes.Removal.{all_entries}
use ndn_sim.Lfid.AllNodes.Shape.{SetsAreDistinct-AreDistinct}
use ndn_sim.Lfid.DeadEnds.{remove_dead_ends, lt_pair}
use ndn_sim.Lfid.DeadEnds.Cleaned.{
  AreProper, IsClear, remove_dead_ends_total, remove_dead_ends_clear,
}
use ndn_sim.Tests.Graphs.{arc_counts}

abbrev pub nexthop : ℕ → ℕ → NextHopType → FibNextHop
nexthop cost nh_id type = record { cost = cost; nh_id = nh_id; type = type; cost_delta = negsuc 0 }

abbrev pub fib_of : ℕ → ℕ → List FibNextHop → ℕ → List FibNextHop → AbstractFib
fib_of node a sa b sb = record {
  node_id = node;
  node_name = 65 ∷ [];
  number_of_nodes = 3;
  node_degree = 2;
  own_router = node;
  upward_counter = pos 0;
  total_nh_counter = pos 2;
  per_dst_fib = (a, sa) ∷ (b, sb) ∷ [];
  upward_per_dst_fib = (a, []) ∷ (b, []) ∷ [];
}

-- the FIB of node 0 when it is new
abbrev new_fib : AbstractFib
new_fib = record (fib_of 0 1 [] 2 []) { total_nh_counter = pos 0 }

abbrev direct : FibNextHop
direct = nexthop 10 1 downward

abbrev around : FibNextHop
around = nexthop 20 2 upward

-- the FIB of node 0 with both nexthops for node 1, and one for node 2
abbrev full_fib : AbstractFib
full_fib = record (fib_of 0 1 (direct ∷ around ∷ []) 2 (nexthop 10 2 downward ∷ [])) {
  upward_counter = pos 1;
  total_nh_counter = pos 3;
  upward_per_dst_fib = (1, around ∷ []) ∷ (2, []) ∷ [];
}

abbrev triangle : AllNodeFib
triangle =
    (0, full_fib)
    ∷ (1, fib_of 1 0 (nexthop 10 0 downward ∷ []) 2 (nexthop 10 2 downward ∷ []))
    ∷ (2, fib_of 2 0 (nexthop 10 0 downward ∷ []) 1 (nexthop 10 1 downward ∷ []))
    ∷ []

-- Node 2 has no link but that to node 0.
abbrev stub : AllNodeFib
stub =
    (0, full_fib)
    ∷ (1, fib_of 1 0 (nexthop 10 0 downward ∷ []) 2 (nexthop 20 0 downward ∷ []))
    ∷ (2, fib_of 2 0 (nexthop 10 0 downward ∷ []) 1 (nexthop 20 0 downward ∷ []))
    ∷ []

new_fib-made : abstract_fib 0 (65 ∷ []) 3 2 0 ≡ ok new_fib
unfolding abstract_fib check_inputs Fib.empty_sets
new_fib-made = refl

abstract_fib-IsValid_example : IsValid new_fib
abstract_fib-IsValid_example = abstract_fib-IsValid 0 3 2 0 (65 ∷ []) new_fib new_fib-made

new_fib-IsValid : IsValid new_fib
new_fib-IsValid = record {
  sorted = (tt, (tt, tt));
  upward = refl;
  total = refl;
  upward_total = refl;
}

direct-IsInsertable : IsInsertable 1 direct new_fib []
unfolding OrderedSet.has
direct-IsInsertable = record { typed = refl; foreign = refl; known = refl; fresh = refl }

insert_lem_example :
    (Fib.insert 1 direct new_fib ≡ ok (inserted 1 direct new_fib))
    × IsValid (inserted 1 direct new_fib)
insert_lem_example = insert_lem 1 direct new_fib new_fib-IsValid [] direct-IsInsertable

direct-inserted : Fib.insert 1 direct new_fib ≡ ok (inserted 1 direct new_fib)
unfolding Fib.insert inserted OrderedSet.has
direct-inserted = refl

insert-IsInsertable_example : (set : List FibNextHop) × IsInsertable 1 direct new_fib set
insert-IsInsertable_example =
    insert-IsInsertable 1 direct new_fib (inserted 1 direct new_fib) direct-inserted

full_fib-IsValid : IsValid full_fib
unfolding NextHop.lt_nh
full_fib-IsValid = record {
  sorted = (((refl, tt), (tt, tt)), ((tt, tt), tt));
  upward = refl;
  total = refl;
  upward_total = refl;
}

erase_total_example : Erasure 1 2 full_fib
erase_total_example = erase_total 1 2 full_fib full_fib-IsValid

check_fib_iff_example :
    (check_fib full_fib ≡ ok tt)
    ↔ ((full_fib.per_dst_fib ≢ []) × All (λ e. IsConsistent e.1) full_fib.per_dst_fib)
check_fib_iff_example = check_fib_iff full_fib

triangle-AreValid : AreValid triangle
triangle-AreValid = (
  full_fib-IsValid,
  (
    record {
      sorted = ((tt, tt), ((tt, tt), tt));
      upward = refl;
      total = refl;
      upward_total = refl;
    },
    (
      record {
        sorted = ((tt, tt), ((tt, tt), tt));
        upward = refl;
        total = refl;
        upward_total = refl;
      },
      tt,
    ),
  ),
)

plain-IsValid :
    (node a b : ℕ) (x y : ℕ)
    → IsValid (fib_of node a (nexthop x 0 downward ∷ []) b (nexthop y 0 downward ∷ []))
plain-IsValid node a b x y = record {
  sorted = ((tt, tt), ((tt, tt), tt));
  upward = refl;
  total = refl;
  upward_total = refl;
}

stub-AreProper : AreProper stub
stub-AreProper = record {
  valid = (full_fib-IsValid, (plain-IsValid 1 0 2 10 20, (plain-IsValid 2 0 1 10 20, tt)));
  distinct = SetsAreDistinct-AreDistinct stub (
    ((((λ e. cc), tt), (tt, tt)), ((tt, tt), tt)),
    (((tt, tt), ((tt, tt), tt)), (((tt, tt), ((tt, tt), tt)), tt)),
  );
  keyed = (((λ e. cc), ((λ e. cc), tt)), (((λ e. cc), tt), (tt, tt)));
}

remove_dead_ends_total_example :
    Ends
      (λ r. Erases stub r.1 r.0 × (all_entries r.0 + r.1 ≡ all_entries stub))
      (remove_dead_ends stub)
remove_dead_ends_total_example = remove_dead_ends_total stub stub-AreProper

remove_dead_ends_clear_example :
    Ends
      (λ r. AreProper r.0 × ((dst : ℕ) → dst < length stub → IsClear r.0 dst))
      (remove_dead_ends stub)
remove_dead_ends_clear_example = remove_dead_ends_clear stub stub-AreProper

-- The way from node 0 round by node 2 is taken out.
stub_cleaned :
    remove_dead_ends stub
    ≡ ok (
      (0, fib_of 0 1 (direct ∷ []) 2 (nexthop 10 2 downward ∷ []))
          ∷ (1, fib_of 1 0 (nexthop 10 0 downward ∷ []) 2 (nexthop 20 0 downward ∷ []))
          ∷ (2, fib_of 2 0 (nexthop 10 0 downward ∷ []) 1 (nexthop 20 0 downward ∷ []))
          ∷ [],
      1,
    )
unfolding remove_dead_ends Fib.get_nexthops Fib.get_upward_nexthops Fib.num_enabled_nh_per_dst
    OrderedSet.has OrderedSet.insert NextHop.lt_nh OrderedSet.erase lt_pair fib_at erase_at
    Fib.erase ◌-ℤ◌
stub_cleaned = refl

remove_loops-keeps_example :
    Ends
      (λ r. AreValid r.0 × ((n d : ℕ) → downward_at n d r.0 ≡ downward_at n d triangle))
      (remove_loops arc_counts triangle)
remove_loops-keeps_example = remove_loops-keeps arc_counts triangle triangle-AreValid

-- Node 2 does not lead back to node 0 on its way to node 1.
triangle_kept : remove_loops arc_counts triangle ≡ ok (triangle, 0)
unfolding remove_loops Fib.get_nexthops Fib.get_upward_nexthops Fib.num_enabled_nh_per_dst
    OrderedSet.has NextHop.lt_nh OrderedSet.erase
triangle_kept = refl
