-- ===== src/Lfid/Fib/Erasure.antt =====
-- helper/lfid/abstract-fib.cpp: `erase` and the invariant.
use ndn_sim.Prelude.{
  ℕ, suc, ◌≡◌, sym, true, false, inl, inr, List, none, some, arith, Bool-cases, Option-cases, ok,
  err, abort, out_of_range,
}
use ndn_sim.Prelude.Int.{pos, ◌-ℤ◌}
use ndn_sim.Prelude.OrderedSet
use ndn_sim.Prelude.AssocMap.{lookup, update}
use ndn_sim.Lfid.NextHop.{FibNextHop, is_upward, by_cost}
use ndn_sim.Lfid.Fib.{AbstractFib, find_nexthop, erase_nexthop, erase}
use ndn_sim.Lfid.Fib.Sets.{
  upward_only, lookup-AreSorted, lookup-upward_part, sizes-update, AreSorted-update,
  upward_part-update, length-erase_nexthop, erase_nexthop-IsSorted, has_found,
  upward_only-erase_nexthop,
}
use ndn_sim.Lfid.Fib.Invariant.{IsValid}

one_less : (n m : ℕ) → n ≡ suc m → pos n -ℤ pos 1 ≡ pos m
unfolding ◌-ℤ◌
one_less n m h = ground arith

-- The FIB after `erase` has found the upward nexthop.
unfoldable pub erased : ℕ → ℕ → FibNextHop → AbstractFib → AbstractFib
erased dst nh_id nh fib = record fib {
  total_nh_counter = fib.total_nh_counter -ℤ pos 1;
  per_dst_fib = update dst (erase_nexthop nh_id) fib.per_dst_fib;
  upward_per_dst_fib = update dst (OrderedSet.erase by_cost nh) fib.upward_per_dst_fib;
  upward_counter = fib.upward_counter -ℤ pos 1;
}

module _ (dst nh_id : ℕ) (fib : AbstractFib) (set : List FibNextHop) (v : IsValid fib)
    (known : lookup dst fib.per_dst_fib ≡ some set) where
  module _ (nh : FibNextHop) (found : find_nexthop nh_id set ≡ some nh)
      (up : is_upward nh.type ≡ true) where
    in_upward : lookup dst fib.upward_per_dst_fib ≡ some (upward_only set)
    in_upward = rw v.upward (lookup-upward_part dst fib.per_dst_fib set known)

    follows : upward_only (erase_nexthop nh_id set) ≡ OrderedSet.erase by_cost nh (upward_only set)
    follows =
        upward_only-erase_nexthop nh_id nh up set
          (lookup-AreSorted dst fib.per_dst_fib set v.sorted known) found

    pub erase-erased : erase dst nh_id fib ≡ ok (erased dst nh_id nh fib, 1)
    unfolding erase erased
    erase-erased = ground (arith, in_upward, has_found nh_id nh up set found)

    pub erased-IsValid : IsValid (erased dst nh_id nh fib)
    unfolding erased
    erased-IsValid = record {
      sorted = AreSorted-update dst _ fib.per_dst_fib (erase_nexthop-IsSorted nh_id) v.sorted;
      upward = rw v.upward (sym (upward_part-update dst _ _ fib.per_dst_fib set known follows));
      total = rw v.total (
          one_less _ _ (
            omega (
              arith,
              sizes-update dst (erase_nexthop nh_id) fib.per_dst_fib set known,
              length-erase_nexthop nh_id set nh found,
            )));
      upward_total = rw v.upward_total (
          one_less _ _ (
            omega (
              arith,
              sizes-update dst (OrderedSet.erase by_cost nh) fib.upward_per_dst_fib
                  (upward_only set) in_upward,
              OrderedSet.length-erase by_cost nh (upward_only set)
                  (has_found nh_id nh up set found),
            )));
    }

-- How a call of `erase` ends.
pub data Erasure (dst nh_id : ℕ) (fib : AbstractFib) : Type 0 where
  unknown :
      lookup dst fib.per_dst_fib ≡ none
      → erase dst nh_id fib ≡ err out_of_range
      → Erasure dst nh_id fib
  missing :
      (set : List FibNextHop)
      → lookup dst fib.per_dst_fib ≡ some set
      → find_nexthop nh_id set ≡ none
      → erase dst nh_id fib ≡ ok (fib, 0)
      → Erasure dst nh_id fib
  refused :
      (set : List FibNextHop) (nh : FibNextHop)
      → lookup dst fib.per_dst_fib ≡ some set
      → find_nexthop nh_id set ≡ some nh
      → is_upward nh.type ≡ false
      → erase dst nh_id fib ≡ err abort
      → Erasure dst nh_id fib
  removed :
      (set : List FibNextHop) (nh : FibNextHop)
      → lookup dst fib.per_dst_fib ≡ some set
      → find_nexthop nh_id set ≡ some nh
      → is_upward nh.type ≡ true
      → erase dst nh_id fib ≡ ok (erased dst nh_id nh fib, 1)
      → IsValid (erased dst nh_id nh fib)
      → Erasure dst nh_id fib

-- On a valid FIB `erase` throws on an unknown destination, changes nothing without a nexthop of
-- this id, stops the program on a nexthop that is not upward, and otherwise takes the nexthop out
-- of both maps and counters: its last check never fails, and the FIB stays valid.
pub erase_total : (dst nh_id : ℕ) (fib : AbstractFib) → IsValid fib → Erasure dst nh_id fib
unfolding erase
erase_total dst nh_id fib v = elim (Option-cases (lookup dst fib.per_dst_fib)) [
  | inl e ↦ unknown e (ground arith)
  | inr (set, e) ↦ elim (Option-cases (find_nexthop nh_id set)) [
    | inl f ↦ missing set e f (ground arith)
    | inr (nh, f) ↦ elim (Bool-cases (is_upward nh.type)) [
      | inl up ↦
          removed set nh e f up (erase-erased dst nh_id fib set v e nh f up)
            (erased-IsValid dst nh_id fib set v e nh f up)
      | inr down ↦ refused set nh e f down (ground arith)
    ]
  ]
]
