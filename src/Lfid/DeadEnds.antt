-- ===== src/Lfid/DeadEnds.antt =====
-- helper/lfid/remove-loops.cpp, removeDeadEnds: upward nexthops to a node that has no other way
-- than back are taken out of the FIBs.
-- The set of pairs is a list in the order of std::pair. The source reads a pair through an iterator
-- that it has just erased; here the pair keeps the value that it had. The counters of the report,
-- which the source only prints, are left out.
pub mod Pushes
pub mod Loop
pub mod Drain
pub mod Collect
pub mod Cleaned
use ndn_sim.Prelude.{
  ℕ, zero, suc, ◌+◌, ◌*◌, ◌≡◌, Bool, true, false, not, ◌&&◌, ◌||◌, List, [], ◌∷◌, Option, none,
  some, arith, ltb, leb, ◌==◌, if◌then◌else◌, length, Result, ok, err, abort, no_fuel, ◌>>=◌, ◌>>◌,
  guard,
}
use ndn_sim.Prelude.OrderedSet
use ndn_sim.Prelude.OrderedSet.{StrictOrder}
use ndn_sim.Lfid.NextHop.{FibNextHop, is_upward, is_downward, lt_nh, lt_nh_irrefl, lt_nh_trans}
use mathlib.Core.Option.{get_or}
use ndn_sim.Prelude.AssocMap.{lookup}
use ndn_sim.Lfid.Fib.{
  AbstractFib, get_nexthops, get_upward_nexthops, num_enabled_nh_per_dst, find_nexthop,
}
use ndn_sim.Lfid.AllNodes.{AllNodeFib, fib_at, erase_at}

-- A node and an upward nexthop of it.
pub record NodeNextHop : Type 0 where
  pub node : ℕ
  pub nh : FibNextHop

-- operator< of std::pair
unfoldable pub lt_pair : NodeNextHop → NodeNextHop → Bool
lt_pair a b = ltb a.node b.node || (not (ltb b.node a.node) && lt_nh a.nh b.nh)

pub lt_pair_irrefl : (a : NodeNextHop) → lt_pair a a ≡ false
unfolding lt_pair
lt_pair_irrefl a = ground (arith, lt_nh_irrefl a.nh)

pub lt_pair_trans :
    (a b c : NodeNextHop) → lt_pair a b ≡ true → lt_pair b c ≡ true → lt_pair a c ≡ true
unfolding lt_pair
lt_pair_trans a b c h k = ground (arith, lt_nh_trans a.nh b.nh c.nh)

abbrev pub by_node : StrictOrder NodeNextHop
by_node = record { lt = lt_pair; irrefl = lt_pair_irrefl; trans = lt_pair_trans }

unfoldable pub emplace_all : ℕ → List FibNextHop → List NodeNextHop → List NodeNextHop
emplace_all node [] set = set
emplace_all node (nh ∷ nhs) set =
    emplace_all node nhs (OrderedSet.insert by_node (record { node = node; nh = nh }) set)

-- Step 1: every upward nexthop of every node. The call of getNexthops feeds a counter, and stops
-- the program where it fails.
unfoldable pub collect_node : ℕ → ℕ → AbstractFib → List NodeNextHop → Result (List NodeNextHop)
unfolding emplace_all
collect_node dst node fib set =
    if node == dst
    then ok set
    else get_nexthops fib dst >>= λ all.
        get_upward_nexthops fib dst >>= λ uw_set. ok (emplace_all node uw_set set)

unfoldable pub collect_upward : ℕ → AllNodeFib → List NodeNextHop → Result (List NodeNextHop)
unfolding collect_node
collect_upward dst [] set = ok set
collect_upward dst ((node, fib) ∷ fibs) set =
    collect_node dst node fib set >>= λ set'. collect_upward dst fibs set'

-- The nexthop that leads from another node's set to this node, if it is there.
unfoldable pub push_found : ℕ → Option FibNextHop → List NodeNextHop → Result (List NodeNextHop)
push_found other none set = ok set
push_found other (some y) set = guard (is_upward y.type) abort >>= λ _.
    ok (OrderedSet.insert by_node (record { node = other; nh = y }) set)

-- The inner loop over the nexthops that are left: those that lead to this node are checked next.
unfoldable pub push_one :
    ℕ → ℕ → AllNodeFib → FibNextHop → List NodeNextHop → Result (List NodeNextHop)
unfolding push_found
push_one dst node fibs own set =
    if is_downward own.type && not (own.nh_id == dst)
    then (fib_at own.nh_id fibs >>= λ fib.
        get_nexthops fib dst >>= λ reverse. push_found own.nh_id (find_nexthop node reverse) set)
    else ok set

unfoldable pub push_reverse :
    ℕ → ℕ → AllNodeFib → List FibNextHop → List NodeNextHop → Result (List NodeNextHop)
unfolding push_one
push_reverse dst node fibs [] set = ok set
push_reverse dst node fibs (own ∷ owns) set =
    push_one dst node fibs own set >>= λ set'. push_reverse dst node fibs owns set'

-- The variables of the loop over the set.
pub record DeadState : Type 0 where
  pub fibs : AllNodeFib
  pub removed : ℕ

-- The branch of a dead end.
unfoldable pub remove_dead_end :
    ℕ → NodeNextHop → List NodeNextHop → DeadState → Result (List NodeNextHop × DeadState)
unfolding push_reverse
remove_dead_end dst p set s = do
  fibs' ← erase_at p.node dst p.nh.nh_id s.fibs
  fib ← fib_at p.node fibs'
  nexthops ← get_nexthops fib dst
  set' ← push_reverse dst p.node fibs' nexthops set
  ok (set', record { fibs = fibs'; removed = suc s.removed })

-- One round, for the pair that was first: a nexthop with at most one entry leads back.
unfoldable pub check_entries :
    ℕ → NodeNextHop → ℕ → List NodeNextHop → DeadState → Result (List NodeNextHop × DeadState)
unfolding remove_dead_end
check_entries dst p entries set s =
    if leb entries 1 then remove_dead_end dst p set s else ok (set, s)

unfoldable pub check_other :
    ℕ → NodeNextHop → List NodeNextHop → DeadState → Result (List NodeNextHop × DeadState)
unfolding check_entries
check_other dst p set s = do
  other ← fib_at p.nh.nh_id s.fibs
  entries ← num_enabled_nh_per_dst other dst
  guard (ltb 0 entries) abort
  check_entries dst p entries set s

unfoldable pub check_pair :
    ℕ → NodeNextHop → List NodeNextHop → DeadState → Result (List NodeNextHop × DeadState)
unfolding check_other
check_pair dst p set s = do
  own ← fib_at p.node s.fibs
  if p.nh.nh_id == dst then ok (set, s) else check_other dst p set s

unfoldable pub drain_pairs : ℕ → ℕ → List NodeNextHop → DeadState → Result DeadState
unfolding check_pair
drain_pairs zero dst [] s = ok s
drain_pairs zero dst (p ∷ set) s = err no_fuel
drain_pairs (suc fuel) dst [] s = ok s
drain_pairs (suc fuel) dst (p ∷ set) s =
    check_pair dst p set s >>= λ r. drain_pairs fuel dst r.0 r.1

-- All nexthops for a destination, of all nodes.
unfoldable pub entries_at : ℕ → AllNodeFib → ℕ
entries_at dst [] = 0
entries_at dst ((node, fib) ∷ fibs) =
    length (get_or (lookup dst fib.per_dst_fib) []) + entries_at dst fibs

-- The body of the loop over the destinations. Each pair in the set is in a FIB, each removal takes
-- one nexthop away and adds no more pairs than there are nexthops: hence the fuel.
unfoldable pub clean_dead_ends_at : ℕ → DeadState → Result DeadState
unfolding collect_upward drain_pairs entries_at
clean_dead_ends_at dst s =
    let n = entries_at dst s.fibs in
    collect_upward dst s.fibs [] >>= λ set. drain_pairs (n * (n + 1) + length set) dst set s

unfoldable pub clean_dead_ends : ℕ → ℕ → DeadState → Result DeadState
unfolding clean_dead_ends_at
clean_dead_ends zero dst s = ok s
clean_dead_ends (suc n) dst s = clean_dead_ends_at dst s >>= λ s'. clean_dead_ends n (dst + 1) s'

unfoldable pub remove_dead_ends : AllNodeFib → Result (AllNodeFib × ℕ)
unfolding clean_dead_ends
remove_dead_ends fibs =
    clean_dead_ends (length fibs) 0 (record { fibs = fibs; removed = 0 }) >>= λ s.
    ok (s.fibs, s.removed)
