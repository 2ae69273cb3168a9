-- ===== src/Lfid/Fib/Insertion.antt =====
-- helper/lfid/abstract-fib.cpp: `insert` and the invariant.
use ndn_sim.Prelude.{
  ℕ, suc, ◌≡◌, sym, ap, subst, ◌∙◌, true, false, ◌||◌, inl, inr, List, some, arith, ◌==◌,
  if◌then◌else◌, Bool-cases, Option-cases, ok,
}
use ndn_sim.Prelude.Int.{pos, ◌+ℤ◌}
use ndn_sim.Prelude.OrderedSet
use ndn_sim.Prelude.AssocMap.{lookup, update}
use ndn_sim.Lfid.NextHop.{FibNextHop, is_upward, is_downward, by_cost}
use ndn_sim.Lfid.Fib.{AbstractFib, insert_upward, insert}
use ndn_sim.Lfid.Fib.Sets.{
  upward_only, sizes, AreSorted, lookup-AreSorted, lookup-upward_part, sizes-update,
  AreSorted-update, upward_part-update, upward_part-update_same, has-upward_only,
}
use ndn_sim.Lfid.Fib.Invariant.{IsValid}

add_one : (n : ℕ) → pos n +ℤ pos 1 ≡ pos (suc n)
unfolding ◌+ℤ◌
add_one n = ground arith

-- The FIB after a successful `insert`.
unfoldable pub inserted : ℕ → FibNextHop → AbstractFib → AbstractFib
inserted dst nh fib = record fib {
  per_dst_fib = update dst (OrderedSet.insert by_cost nh) fib.per_dst_fib;
  total_nh_counter = fib.total_nh_counter +ℤ pos 1;
  upward_per_dst_fib =
      if is_upward nh.type
      then update dst (OrderedSet.insert by_cost nh) fib.upward_per_dst_fib
      else fib.upward_per_dst_fib;
  upward_counter = if is_upward nh.type then fib.upward_counter +ℤ pos 1 else fib.upward_counter;
}

-- What `insert` asks for: a type, another node's id, a known destination, a nexthop that is new.
pub record IsInsertable (dst : ℕ) (nh : FibNextHop) (fib : AbstractFib) (set : List FibNextHop)
    : Type 0 where
  pub typed : (is_downward nh.type || is_upward nh.type) ≡ true
  pub foreign : (nh.nh_id == fib.node_id) ≡ false
  pub known : lookup dst fib.per_dst_fib ≡ some set
  pub fresh : OrderedSet.has by_cost nh set ≡ false

module _ (dst : ℕ) (nh : FibNextHop) (fib : AbstractFib) (v : IsValid fib) where
  module _ (set : List FibNextHop) (can : IsInsertable dst nh fib set) where
    known_upward : lookup dst fib.upward_per_dst_fib ≡ some (upward_only set)
    known_upward = rw v.upward (lookup-upward_part dst fib.per_dst_fib set can.known)

    insert-inserted : insert dst nh fib ≡ ok (inserted dst nh fib)
    unfolding insert inserted insert_upward
    insert-inserted = ground (
      arith,
      can.typed,
      can.foreign,
      can.known,
      can.fresh,
      known_upward,
      has-upward_only nh set can.fresh,
    )

    inserted-IsValid : IsValid (inserted dst nh fib)
    unfolding inserted
    inserted-IsValid = elim (Bool-cases (is_upward nh.type)) [
      | inl up ↦ rw up (record {
        sorted = sorted_after;
        upward = rw v.upward (
            sym (
              upward_part-update dst _ _ fib.per_dst_fib set can.known (
                OrderedSet.filter-insert_accepted by_cost (λ x. is_upward x.type) nh set up
                  sorted_set can.fresh)));
        total = total_after;
        upward_total = rw v.upward_total (
            add_one _
            ∙ ap pos (
                omega (
                  arith,
                  sizes-update dst (OrderedSet.insert by_cost nh) fib.upward_per_dst_fib
                      (upward_only set) known_upward,
                  OrderedSet.length-insert by_cost nh (upward_only set)
                      (has-upward_only nh set can.fresh),
                )));
      })
      | inr down ↦ rw down (record {
        sorted = sorted_after;
        upward =
            v.upward
            ∙ sym (
                upward_part-update_same dst _ fib.per_dst_fib set can.known (
                  OrderedSet.filter-insert_rejected by_cost (λ x. is_upward x.type) nh set down
                    can.fresh));
        total = total_after;
        upward_total = v.upward_total;
      })
    ]
      where
        sorted_set : OrderedSet.IsSorted by_cost set
        sorted_set = lookup-AreSorted dst fib.per_dst_fib set v.sorted can.known

        sorted_after : AreSorted (update dst (OrderedSet.insert by_cost nh) fib.per_dst_fib)
        sorted_after =
            AreSorted-update dst _ fib.per_dst_fib (OrderedSet.insert-IsSorted by_cost nh) v.sorted

        total_after :
            fib.total_nh_counter +ℤ pos 1
            ≡ pos (sizes (update dst (OrderedSet.insert by_cost nh) fib.per_dst_fib))
        total_after = rw v.total (
            add_one _
            ∙ ap pos (
                omega (
                  arith,
                  sizes-update dst (OrderedSet.insert by_cost nh) fib.per_dst_fib set can.known,
                  OrderedSet.length-insert by_cost nh set can.fresh,
                )))

  -- On a valid FIB `insert` puts a nexthop that may be inserted into the map, and an upward nexthop
  -- into the upward map as well, with the counters; the FIB stays valid.
  pub insert_lem :
      (set : List FibNextHop)
      → IsInsertable dst nh fib set
      → (insert dst nh fib ≡ ok (inserted dst nh fib)) × IsValid (inserted dst nh fib)
  insert_lem set can = (insert-inserted set can, inserted-IsValid set can)

-- `insert` returns only on a nexthop that may be inserted: one with a type, of another node, for a
-- known destination, that is new in the set.
pub insert-IsInsertable :
    (dst : ℕ) (nh : FibNextHop) (fib fib' : AbstractFib)
    → insert dst nh fib ≡ ok fib'
    → (set : List FibNextHop) × IsInsertable dst nh fib set
unfolding insert
insert-IsInsertable dst nh fib fib' h = elim (Option-cases (lookup dst fib.per_dst_fib)) [
  | inl e ↦ absurd (ground arith)
  | inr (set, e) ↦ (set, ground arith)
]

pub insert-IsValid :
    (dst : ℕ) (nh : FibNextHop) (fib fib' : AbstractFib)
    → IsValid fib
    → insert dst nh fib ≡ ok fib'
    → IsValid fib'
insert-IsValid dst nh fib fib' v h =
    let (set, can) = insert-IsInsertable dst nh fib fib' h in
    let (e, w) = insert_lem dst nh fib v set can in subst IsValid (cc) w
