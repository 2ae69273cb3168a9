-- ===== src/Lfid/Fib/Invariant.antt =====
-- helper/lfid/abstract-fib.cpp: the invariant of the abstract FIB, and the constructor.
use ndn_sim.Prelude.{ℕ, zero, suc, ◌+◌, ◌≡◌, refl, List, arith, ok}
use ndn_sim.Prelude.Int.{pos}
use ndn_sim.Lfid.Fib.{AbstractFib, empty_sets, check_inputs, abstract_fib}
use ndn_sim.Lfid.Fib.Sets.{upward_part, sizes, AreSorted}

-- Every set is in order and has no two equivalent nexthops, the second map holds the upward
-- nexthops of the first, and the counters count both.
pub record IsValid (fib : AbstractFib) : Type 0 where
  pub sorted : AreSorted fib.per_dst_fib
  pub upward : fib.upward_per_dst_fib ≡ upward_part fib.per_dst_fib
  pub total : fib.total_nh_counter ≡ pos (sizes fib.per_dst_fib)
  pub upward_total : fib.upward_counter ≡ pos (sizes fib.upward_per_dst_fib)

empty_sets-AreSorted : (node n dst : ℕ) → AreSorted (empty_sets node n dst)
unfolding empty_sets
empty_sets-AreSorted node zero dst = tt
empty_sets-AreSorted node (suc n) dst = ground (arith, empty_sets-AreSorted node n (dst + 1))

upward_part-empty_sets :
    (node n dst : ℕ) → upward_part (empty_sets node n dst) ≡ empty_sets node n dst
unfolding empty_sets
upward_part-empty_sets node zero dst = refl
upward_part-empty_sets node (suc n) dst = ground (arith, upward_part-empty_sets node n (dst + 1))

sizes-empty_sets : (node n dst : ℕ) → sizes (empty_sets node n dst) ≡ 0
unfolding empty_sets
sizes-empty_sets node zero dst = refl
sizes-empty_sets node (suc n) dst = ground (arith, sizes-empty_sets node n (dst + 1))

-- What the constructor builds is valid.
pub abstract_fib-IsValid :
    (node n degree router : ℕ) (name : List ℕ) (fib : AbstractFib)
    → abstract_fib node name n degree router ≡ ok fib
    → IsValid fib
unfolding abstract_fib check_inputs
abstract_fib-IsValid node n degree router name fib h = ground (
  arith,
  empty_sets-AreSorted node n 0,
  upward_part-empty_sets node n 0,
  sizes-empty_sets node n 0,
)
