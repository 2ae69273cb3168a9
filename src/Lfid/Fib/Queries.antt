-- ===== src/Lfid/Fib/Queries.antt =====
-- helper/lfid/abstract-fib.cpp: getNexthops and getUpwardNexthops of a valid FIB.
use ndn_sim.Prelude.{ℕ, ◌≡◌, ok, arith, ◌>>=◌, Option-cases, inl, inr}
use ndn_sim.Prelude.AssocMap.{lookup}
use ndn_sim.Lfid.Fib.{AbstractFib, contains, nexthops_at, get_nexthops, get_upward_nexthops}
use ndn_sim.Lfid.Fib.Sets.{upward_only, lookup-upward_part, lookup-upward_part-none}
use ndn_sim.Lfid.Fib.Invariant.{IsValid}

-- On a valid FIB getUpwardNexthops gives the upward ones among the nexthops that getNexthops gives,
-- in the same order, and fails exactly where getNexthops fails, with the same error.
pub get_upward_nexthops_lem :
    (dst : ℕ) (fib : AbstractFib)
    → IsValid fib
    → get_upward_nexthops fib dst ≡ (get_nexthops fib dst >>= λ set. ok (upward_only set))
unfolding get_upward_nexthops get_nexthops contains nexthops_at
get_upward_nexthops_lem dst fib v = elim (Option-cases (lookup dst fib.per_dst_fib)) [
  | inl e ↦ ground (arith, e, v.upward, lookup-upward_part-none dst fib.per_dst_fib e)
  | inr (set, e) ↦ ground (arith, e, v.upward, lookup-upward_part dst fib.per_dst_fib set e)
]
