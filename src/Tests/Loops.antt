-- ===== src/Tests/Loops.antt =====
-- The removal of loops, on nodes with the numbers 1 to 3.
use ndn_sim.Prelude.{◌+◌, ◌≡◌, refl, [], ◌∷◌, ok, err, abort, ◌>>=◌, Ends}
use ndn_sim.Prelude.Int.{pos, ◌-ℤ◌}
use ndn_sim.Prelude.OrderedSet
use ndn_sim.Lfid.NextHop
use ndn_sim.Lfid.NextHop.{downward, upward}
use ndn_sim.Lfid.Fib
use ndn_sim.Lfid.AllNodes.{AllNodeFib, Erases, fib_at, erase_at}
use ndn_sim.Lfid.AllNodes.Removal.{all_entries}
use ndn_sim.Lfid.AllNodes.Shape.{SetsAreDistinct-AreDistinct}
use ndn_sim.Lfid.DeadEnds.Cleaned.{AreProper}
use ndn_sim.Lfid.Loops.{clean_dst, remove_loops}
use ndn_sim.Lfid.Loops.Total.{remove_loops_total}
use ndn_sim.Tests.Graphs.{arc_counts}
use ndn_sim.Tests.Lfid.{nexthop, fib_of}

-- Node 1 may send up to node 3, which has no arc back, but leads to node 1 by way of node 2.
abbrev ring : AllNodeFib
ring =
    (
      1,
      record (fib_of 1 0 (nexthop 10 0 downward ∷ nexthop 20 3 upward ∷ []) 2
          (nexthop 10 2 downward ∷ [])) {
            upward_per_dst_fib = (0, nexthop 20 3 upward ∷ []) ∷ (2, []) ∷ [];
            total_nh_counter = pos 3;
            upward_counter = pos 1;
          },
    )
    ∷ (2, fib_of 2 0 (nexthop 10 1 downward ∷ []) 1 (nexthop 10 1 downward ∷ []))
    ∷ (3, fib_of 3 0 (nexthop 10 2 downward ∷ []) 1 (nexthop 10 2 downward ∷ []))
    ∷ []

-- The program stops after the removal, where it asks for the arc back.
ring_stops : clean_dst arc_counts 0 (ring, 0, 0) ≡ err abort
unfolding clean_dst Fib.get_nexthops Fib.get_upward_nexthops Fib.num_enabled_nh_per_dst
    OrderedSet.has NextHop.lt_nh OrderedSet.erase Fib.erase fib_at erase_at ◌-ℤ◌
ring_stops = refl

-- Node 3 leads back to node 1 over the link between them, and by way of node 2.
abbrev square : AllNodeFib
square =
    (
      1,
      record (fib_of 1 0 (nexthop 10 0 downward ∷ nexthop 20 3 upward ∷ []) 2
          (nexthop 10 2 downward ∷ [])) {
            upward_per_dst_fib = (0, nexthop 20 3 upward ∷ []) ∷ (2, []) ∷ [];
            total_nh_counter = pos 3;
            upward_counter = pos 1;
          },
    )
    ∷ (2, fib_of 2 0 (nexthop 10 1 downward ∷ []) 1 (nexthop 10 1 downward ∷ []))
    ∷ (
      3,
      record (fib_of 3 0 [] 1 []) {
        per_dst_fib =
            (0, nexthop 10 1 downward ∷ nexthop 10 2 downward ∷ [])
            ∷ (1, nexthop 10 1 downward ∷ [])
            ∷ (2, nexthop 10 2 downward ∷ [])
            ∷ [];
        upward_per_dst_fib = (0, []) ∷ (1, []) ∷ (2, []) ∷ [];
        total_nh_counter = pos 4;
      },
    )
    ∷ []

square-AreProper : AreProper square
unfolding NextHop.lt_nh
square-AreProper = record {
  valid = (
    record {
      sorted = (((refl, tt), (tt, tt)), ((tt, tt), tt));
      upward = refl;
      total = refl;
      upward_total = refl;
    },
    (
      record {
        sorted = ((tt, tt), ((tt, tt), tt));
        upward = refl;
        total = refl;
        upward_total = refl;
      },
      (
        record {
          sorted = (((refl, tt), (tt, tt)), ((tt, tt), ((tt, tt), tt)));
          upward = refl;
          total = refl;
          upward_total = refl;
        },
        tt,
      ),
    ),
  );
  distinct = SetsAreDistinct-AreDistinct square (
    ((((λ e. cc), tt), (tt, tt)), ((tt, tt), tt)),
    (((tt, tt), ((tt, tt), tt)), (((((λ e. cc), tt), (tt, tt)), ((tt, tt), ((tt, tt), tt))), tt)),
  );
  keyed = (((λ e. cc), ((λ e. cc), tt)), (((λ e. cc), tt), (tt, tt)));
}

remove_loops_total_example :
    Ends
      (λ r. Erases square r.1 r.0 × (all_entries r.0 + r.1 ≡ all_entries square))
      (remove_loops arc_counts square)
remove_loops_total_example = remove_loops_total arc_counts square square-AreProper

-- The way up from node 1 to node 3 is taken out.
square_cleaned : (remove_loops arc_counts square >>= λ r. ok r.1) ≡ ok 1
unfolding remove_loops Fib.get_nexthops Fib.get_upward_nexthops Fib.num_enabled_nh_per_dst
    OrderedSet.has NextHop.lt_nh OrderedSet.erase Fib.erase fib_at erase_at ◌-ℤ◌
square_cleaned = refl
