-- ===== src/Lfid/Fib/Consistency.antt =====
-- helper/lfid/abstract-fib.cpp: what `checkFib` accepts.
use ndn_sim.Prelude.{
  guard, guard-eq-ok, verify, >>=-eq-ok, ltb, ℕ, ◌+◌, ◌≡◌, ◌<◌, ◌≢◌, refl, ◌↔◌, ◌⊎◌, inl, inr, true,
  false, Bool, ◌||◌, List, [], ◌∷◌, arith, length, All, ok, Bool-cases, ◌==◌,
}
use ndn_sim.Lfid.NextHop.{FibNextHop, is_downward, max_cost}
use ndn_sim.Lfid.Fib.{AbstractFib, mem, check_nexthops, check_set, check_sets, check_fib}

abbrev pub has_downward : List FibNextHop → Bool
has_downward [] = false
has_downward (nh ∷ set) = is_downward nh.type || has_downward set

abbrev pub HaveDistinctIds : List FibNextHop → Type 0
HaveDistinctIds [] = Unit
HaveDistinctIds (nh ∷ set) = All (λ y. y.nh_id ≢ nh.nh_id) set × HaveDistinctIds set

-- A cost in range for each nexthop, one nexthop for each neighbour, and a way down unless the set
-- is empty.
pub record IsConsistent (set : List FibNextHop) : Type 0 where
  pub costs : All (λ nh. (0 < nh.cost) × (nh.cost < max_cost)) set
  pub distinct : HaveDistinctIds set
  pub served : (has_downward set ≡ true) ⊎ (set ≡ [])

abbrev AreFresh : List ℕ → List FibNextHop → Type 0
AreFresh seen = All (λ nh. mem nh.nh_id seen ≡ false)

AreFresh-tail :
    (k : ℕ) (seen : List ℕ) (set : List FibNextHop)
    → AreFresh (k ∷ seen) set
    → AreFresh seen set × All (λ y. y.nh_id ≢ k) set
unfolding mem
AreFresh-tail k seen [] h = (tt, tt)
AreFresh-tail k seen (x ∷ set) h =
    let (a, b) = AreFresh-tail k seen set h.1 in ((ground arith, a), (ground arith, b))

AreFresh-cons :
    (k : ℕ) (seen : List ℕ) (set : List FibNextHop)
    → AreFresh seen set
    → All (λ y. y.nh_id ≢ k) set
    → AreFresh (k ∷ seen) set
unfolding mem
AreFresh-cons k seen [] h d = tt
AreFresh-cons k seen (x ∷ set) h d = (ground arith, AreFresh-cons k seen set h.1 d.1)

check_nexthops_sound :
    (seen : List ℕ) (down : Bool) (set : List FibNextHop) (seen' : List ℕ) (down' : Bool)
    → check_nexthops seen down set ≡ ok (seen', down')
    → All (λ nh. (0 < nh.cost) × (nh.cost < max_cost)) set
      × HaveDistinctIds set
      × AreFresh seen set
      × (down' ≡ (down || has_downward set))
unfolding check_nexthops
check_nexthops_sound seen down [] seen' down' h = (tt, tt, tt, ground arith)
check_nexthops_sound seen down (nh ∷ set) seen' down' h =
    let (costs, distinct, fresh, d) =
      check_nexthops_sound (nh.nh_id ∷ seen) (down || is_downward nh.type) set seen' down'
        (ground arith) in
    let (f, k) = AreFresh-tail nh.nh_id seen set fresh in
    ((ground arith, costs), (k, distinct), (ground arith, f), ground arith)

collected : List ℕ → List FibNextHop → List ℕ
collected seen [] = seen
collected seen (nh ∷ set) = collected (nh.nh_id ∷ seen) set

length-collected :
    (seen : List ℕ) (set : List FibNextHop) → length (collected seen set) ≡ length seen + length set
unfolding collected
length-collected seen [] = omega arith
length-collected seen (nh ∷ set) = omega (arith, length-collected (nh.nh_id ∷ seen) set)

check_nexthops_complete :
    (seen : List ℕ) (down : Bool) (set : List FibNextHop)
    → All (λ nh. (0 < nh.cost) × (nh.cost < max_cost)) set
    → HaveDistinctIds set
    → AreFresh seen set
    → check_nexthops seen down set ≡ ok (collected seen set, down || has_downward set)
unfolding check_nexthops collected
check_nexthops_complete seen down [] c d f = ground arith
check_nexthops_complete seen down (nh ∷ set) c d f = ground (
  arith,
  check_nexthops_complete (nh.nh_id ∷ seen) (down || is_downward nh.type) set c.1 d.1
      (AreFresh-cons nh.nh_id seen set f.1 d.0),
)

AreFresh-nil : (set : List FibNextHop) → AreFresh [] set
unfolding mem
AreFresh-nil [] = tt
AreFresh-nil (x ∷ set) = (refl, AreFresh-nil set)

empty_of_length : (set : List FibNextHop) → (length set == 0) ≡ true → set ≡ []
empty_of_length [] h = refl
empty_of_length (x ∷ set) h = ground arith

check_set_sound : (set : List FibNextHop) → check_set set ≡ ok tt → IsConsistent set
unfolding check_set
check_set_sound set h =
    let ((seen, down), walked, rest) = >>=-eq-ok (check_nexthops [] false set) _ h in
    let (costs, distinct, fresh, d) = check_nexthops_sound [] false set seen down walked in
    record {
      costs = costs;
      distinct = distinct;
      served = elim (Bool-cases (has_downward set)) [
        | inl e ↦ inl e
        | inr e ↦ inr (empty_of_length set (ground arith))
      ];
    }

served_test :
    (set : List FibNextHop)
    → (has_downward set ≡ true) ⊎ (set ≡ [])
    → (has_downward set || (length set == 0)) ≡ true
served_test [] h = refl
served_test (x ∷ set) h = ground arith

check_set_complete : (set : List FibNextHop) → IsConsistent set → check_set set ≡ ok tt
unfolding check_set
check_set_complete set c =
    rw (check_nexthops_complete [] false set c.costs c.distinct (AreFresh-nil set))
      (ground (arith, length-collected [] set, served_test set c.served))

pub check_sets-IsConsistent :
    (m : List (ℕ × List FibNextHop)) → (check_sets m ≡ ok tt) ↔ All (λ e. IsConsistent e.1) m
unfolding check_sets
check_sets-IsConsistent [] = (λ h. tt, λ c. refl)
check_sets-IsConsistent ((dst, set) ∷ m) = (
  λ h.
      let (u, a, b) = >>=-eq-ok (check_set set) _ h in
      (check_set_sound set a, (check_sets-IsConsistent m).0 b),
  λ c. rw (check_set_complete set c.0) ((check_sets-IsConsistent m).1 c.1),
)

nonempty_iff : (m : List (ℕ × List FibNextHop)) → (ltb 0 (length m) ≡ true) ↔ (m ≢ [])
nonempty_iff [] = (λ h. absurd (cc), λ h. absurd (h refl))
nonempty_iff (e ∷ m) = (λ h. ground arith, λ h. ground arith)

-- `checkFib` accepts a FIB exactly when it has an entry and each set is consistent: every cost is
-- above 0 and below the maximum, no two nexthops share an id, and there is a downward nexthop
-- unless the set is empty.
pub check_fib_iff :
    (fib : AbstractFib)
    → (check_fib fib ≡ ok tt)
      ↔ ((fib.per_dst_fib ≢ []) × All (λ e. IsConsistent e.1) fib.per_dst_fib)
unfolding check_fib
check_fib_iff fib = (
  λ h.
      let (u, a, b) = >>=-eq-ok (guard (ltb 0 (length fib.per_dst_fib)) verify) _ h in
      (
        (nonempty_iff fib.per_dst_fib).0 (guard-eq-ok _ verify a),
        (check_sets-IsConsistent fib.per_dst_fib).0 b,
      ),
  λ c. rw ((nonempty_iff fib.per_dst_fib).1 c.0) ((check_sets-IsConsistent fib.per_dst_fib).1 c.1),
)
