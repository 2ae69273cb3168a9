-- ===== src/Lfid/Fib.antt =====
-- helper/lfid/abstract-fib.hpp and .cpp: the abstract FIB of a node.
-- A std::set is a list in the order of operator<, an unordered_map an association list in
-- iteration order. The name is a list of bytes, and `own_router` stands for the router's pointer.
-- The warning that checkInputs prints is left out.
pub mod Sets
pub mod Invariant
pub mod Insertion
pub mod Erasure
pub mod Queries
pub mod Consistency
use ndn_sim.Prelude.{
  or_fail, Ends-or_fail, Ends, Ends-bind, Ends-guard, returns, stops, ℕ, zero, suc, ◌+◌, ◌≡◌, Bool,
  true, false, not, ◌&&◌, ◌||◌, List, [], ◌∷◌, Option, none, some, ltb, leb, ◌==◌, if◌then◌else◌,
  length, Result, ok, err, Error, abort, verify, out_of_range, ◌>>=◌, ◌>>◌, guard, ◌*◌,
}
use ndn_sim.Prelude.Int.{ℤ, pos, ◌+ℤ◌, ◌-ℤ◌}
use ndn_sim.Prelude.OrderedSet
use ndn_sim.Prelude.AssocMap.{lookup, update}
use ndn_sim.Lfid.NextHop.{FibNextHop, is_upward, is_downward, max_cost, by_cost}

pub record AbstractFib : Type 0 where
  pub node_id : ℕ
  pub node_name : List ℕ
  pub number_of_nodes : ℕ
  pub node_degree : ℕ
  pub own_router : ℕ
  pub upward_counter : ℤ
  pub total_nh_counter : ℤ
  pub per_dst_fib : List (ℕ × List FibNextHop)
  pub upward_per_dst_fib : List (ℕ × List FibNextHop)

-- A map with an empty set for every node but this one: `n` rounds from `dst` on.
unfoldable pub empty_sets : ℕ → ℕ → ℕ → List (ℕ × List FibNextHop)
empty_sets node_id zero dst = []
empty_sets node_id (suc n) dst =
    let rest = empty_sets node_id n (dst + 1) in if dst == node_id then rest else (dst, []) ∷ rest

abbrev pub max_size : ℕ
max_size = 100_000

-- checkInputs; the lower bounds of ids and degrees hold of natural numbers.
unfoldable pub check_inputs : AbstractFib → Result (Unit {0})
check_inputs fib = do
  guard (leb fib.node_id max_size) abort
  guard (ltb 0 (length fib.node_name) && leb (length fib.node_name) max_size) abort
  guard (leb fib.node_degree max_size) abort
  guard (ltb 1 fib.number_of_nodes && leb fib.number_of_nodes max_size) abort

-- The constructor, from what it reads of the router and its node.
unfoldable pub abstract_fib : ℕ → List ℕ → ℕ → ℕ → ℕ → Result AbstractFib
abstract_fib node_id node_name num_nodes degree router =
    let fib : AbstractFib = record {
      node_id = node_id;
      node_name = node_name;
      number_of_nodes = num_nodes;
      node_degree = degree;
      own_router = router;
      upward_counter = pos 0;
      total_nh_counter = pos 0;
      per_dst_fib = empty_sets node_id num_nodes 0;
      upward_per_dst_fib = empty_sets node_id num_nodes 0;
    } in
    check_inputs fib >>= λ _. ok fib

-- `at`
unfoldable pub nexthops_at : ℕ → List (ℕ × List FibNextHop) → Result (List FibNextHop)
nexthops_at dst m = or_fail (lookup dst m) out_of_range

-- The second half of `insert`, for an upward nexthop.
unfoldable pub insert_upward : ℕ → FibNextHop → AbstractFib → Result AbstractFib
unfolding nexthops_at
insert_upward dst nh fib = do
  upward ← nexthops_at dst fib.upward_per_dst_fib
  guard (not (OrderedSet.has by_cost nh upward)) verify
  ok (record fib {
    upward_per_dst_fib = update dst (OrderedSet.insert by_cost nh) fib.upward_per_dst_fib;
    upward_counter = fib.upward_counter +ℤ pos 1;
  })

unfoldable pub insert : ℕ → FibNextHop → AbstractFib → Result AbstractFib
unfolding nexthops_at insert_upward
insert dst nh fib = do
  guard (is_downward nh.type || is_upward nh.type) abort
  guard (not (nh.nh_id == fib.node_id)) abort
  set ← nexthops_at dst fib.per_dst_fib
  guard (not (OrderedSet.has by_cost nh set)) verify
  let fib' : AbstractFib = record fib {
    per_dst_fib = update dst (OrderedSet.insert by_cost nh) fib.per_dst_fib;
    total_nh_counter = fib.total_nh_counter +ℤ pos 1;
  }
  if is_upward nh.type then insert_upward dst nh fib' else ok fib'

-- The search of `erase`: the first nexthop with this id.
unfoldable pub find_nexthop : ℕ → List FibNextHop → Option FibNextHop
find_nexthop nh_id [] = none
find_nexthop nh_id (nh ∷ set) = if nh.nh_id == nh_id then some nh else find_nexthop nh_id set

-- `fib.erase(fibNh)`: the element that the search found.
unfoldable pub erase_nexthop : ℕ → List FibNextHop → List FibNextHop
erase_nexthop nh_id [] = []
erase_nexthop nh_id (nh ∷ set) = if nh.nh_id == nh_id then set else nh ∷ erase_nexthop nh_id set

-- `erase` once the nexthop is found. The source reads the nexthop through an iterator that
-- `fib.erase` has just invalidated; here it keeps the value that it had.
unfoldable pub erase_found : ℕ → ℕ → FibNextHop → AbstractFib → Result (AbstractFib × ℕ)
unfolding erase_nexthop nexthops_at
erase_found dst nh_id nh fib = do
  guard (is_upward nh.type) abort
  upward ← nexthops_at dst fib.upward_per_dst_fib
  guard (OrderedSet.has by_cost nh upward) abort
  ok (
    record fib {
      total_nh_counter = fib.total_nh_counter -ℤ pos 1;
      per_dst_fib = update dst (erase_nexthop nh_id) fib.per_dst_fib;
      upward_per_dst_fib = update dst (OrderedSet.erase by_cost nh) fib.upward_per_dst_fib;
      upward_counter = fib.upward_counter -ℤ pos 1;
    },
    1,
  )

-- The result is the number of nexthops erased, 0 if there is none with this id.
unfoldable pub erase : ℕ → ℕ → AbstractFib → Result (AbstractFib × ℕ)
unfolding find_nexthop erase_found
erase dst nh_id fib = do
  set ← nexthops_at dst fib.per_dst_fib
  elim (find_nexthop nh_id set) [ none ↦ ok (fib, 0) | some nh ↦ erase_found dst nh_id nh fib ]

erase_found-Ends :
    (dst nh_id : ℕ) (nh : FibNextHop) (fib : AbstractFib)
    → Ends (λ _. Unit {0}) (erase_found dst nh_id nh fib)
unfolding erase_found
erase_found-Ends dst nh_id nh fib = Ends-guard (is_upward nh.type) abort tt λ _.
    Ends-bind (λ _. Unit {0}) (Ends-or_fail (lookup dst fib.upward_per_dst_fib) out_of_range tt)
      λ u _. Ends-guard (OrderedSet.has by_cost nh u) abort tt λ _. returns tt

pub erase-Ends : (dst nh_id : ℕ) (fib : AbstractFib) → Ends (λ _. Unit {0}) (erase dst nh_id fib)
unfolding erase
erase-Ends dst nh_id fib =
    Ends-bind (λ _. Unit {0}) (Ends-or_fail (lookup dst fib.per_dst_fib) out_of_range tt)
      λ set _.
        elim (find_nexthop nh_id set)
          as (λ o.
            Ends (λ _. Unit {0})
              (elim o [ none ↦ ok (fib, 0) | some nh ↦ erase_found dst nh_id nh fib ])) [
                | none ↦ returns tt
                | some nh ↦ erase_found-Ends dst nh_id nh fib
              ]

unfoldable pub contains : AbstractFib → ℕ → Bool
contains fib dst = elim (lookup dst fib.per_dst_fib) [ none ↦ false | some _ ↦ true ]

unfoldable pub get_nexthops : AbstractFib → ℕ → Result (List FibNextHop)
unfolding contains nexthops_at
get_nexthops fib dst = do
  guard (not (dst == fib.node_id)) abort
  guard (contains fib dst) abort
  nexthops_at dst fib.per_dst_fib

unfoldable pub get_upward_nexthops : AbstractFib → ℕ → Result (List FibNextHop)
unfolding contains nexthops_at
get_upward_nexthops fib dst = do
  guard (not (dst == fib.node_id)) abort
  guard (contains fib dst) abort
  nexthops_at dst fib.upward_per_dst_fib

unfoldable pub num_enabled_nh_per_dst : AbstractFib → ℕ → Result ℕ
unfolding get_nexthops
num_enabled_nh_per_dst fib dst = do
  guard (not (dst == fib.node_id)) abort
  set ← get_nexthops fib dst
  ok (length set)

unfoldable pub mem : ℕ → List ℕ → Bool
mem k [] = false
mem k (x ∷ xs) = (x == k) || mem k xs

-- The loop of checkFib over one set: `seen` is nextHopSet, `down` is hasDownward.
unfoldable pub check_nexthops : List ℕ → Bool → List FibNextHop → Result (List ℕ × Bool)
unfolding mem
check_nexthops seen down [] = ok (seen, down)
check_nexthops seen down (nh ∷ set) =
    let rest = check_nexthops (nh.nh_id ∷ seen) (down || is_downward nh.type) set in
    do
      guard (ltb 0 nh.cost && ltb nh.cost max_cost) verify
      guard (not (mem nh.nh_id seen)) verify
      rest

unfoldable pub check_set : List FibNextHop → Result (Unit {0})
unfolding check_nexthops
check_set set = do
  (seen, down) ← check_nexthops [] false set
  guard (down || (length set == 0)) verify
  guard (length seen == length set) verify

unfoldable pub check_sets : List (ℕ × List FibNextHop) → Result (Unit {0})
unfolding check_set
check_sets [] = ok tt
check_sets ((dst, set) ∷ rest) = check_set set >>= λ _. check_sets rest

unfoldable pub check_fib : AbstractFib → Result (Unit {0})
unfolding check_sets
check_fib fib = do guard (ltb 0 (length fib.per_dst_fib)) verify; check_sets fib.per_dst_fib
