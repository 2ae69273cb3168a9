-- ===== src/Lfid/NextHop.antt =====
-- helper/lfid/fib-nexthop.hpp and .cpp: a nexthop of the abstract FIB, and its order.
-- The constructor refuses a cost below 1 and an id below 0, so both are kept as natural numbers;
-- the cost difference is a C++ `int`, -1 where the caller gives none.
use ndn_sim.Prelude.{
  ℕ, ◌*◌, ◌≡◌, Bool, true, false, not, ◌&&◌, ◌||◌, arith, ltb, ◌==◌, if◌then◌else◌, Result, ok,
  abort, ◌>>◌, guard,
}
use ndn_sim.Prelude.Int.{ℤ, pos, pos_part, ltb_ℤ, leb_ℤ, eqb_ℤ}
use ndn_sim.Prelude.OrderedSet.{StrictOrder}

pub data NextHopType : Type 0 where
  downward upward disabled : NextHopType

abbrev pub is_upward : NextHopType → Bool
is_upward upward = true
is_upward _ = false

abbrev pub is_downward : NextHopType → Bool
is_downward downward = true
is_downward _ = false

abbrev pub is_disabled : NextHopType → Bool
is_disabled disabled = true
is_disabled _ = false

abbrev pub max_cost : ℕ
max_cost = 1 * 1000 * 1000

abbrev pub node_id_limit : ℕ
node_id_limit = 1000

pub record FibNextHop : Type 0 where
  pub cost : ℕ
  pub nh_id : ℕ
  pub type : NextHopType
  pub cost_delta : ℤ

unfoldable pub fib_next_hop : ℤ → ℤ → ℤ → NextHopType → Result FibNextHop
fib_next_hop cost nh_id cost_delta type = do
  guard (ltb_ℤ (pos 0) cost && leb_ℤ cost (pos max_cost)) abort
  guard (leb_ℤ (pos 0) nh_id && leb_ℤ nh_id (pos node_id_limit)) abort
  ok (record { cost = pos_part cost; nh_id = pos_part nh_id; type = type; cost_delta = cost_delta })

unfoldable pub set_type : NextHopType → FibNextHop → Result FibNextHop
set_type new_type nh = do
  guard (not (is_disabled new_type)) abort
  ok (record nh { type = new_type })

unfoldable pub set_cost : ℤ → ℤ → FibNextHop → Result FibNextHop
set_cost new_cost new_cost_delta nh = do
  guard (ltb_ℤ (pos 0) new_cost) abort
  guard (leb_ℤ (pos 0) new_cost_delta) abort
  ok (record nh { cost = pos_part new_cost; cost_delta = new_cost_delta })

-- operator<: the tuples (costDelta, cost, nhId) compared from the left. Its check that the id is
-- not -1 always passes here.
unfoldable pub lt_nh : FibNextHop → FibNextHop → Bool
lt_nh own other =
    ltb_ℤ own.cost_delta other.cost_delta
    || (eqb_ℤ own.cost_delta other.cost_delta
        && (ltb own.cost other.cost || ((own.cost == other.cost) && ltb own.nh_id other.nh_id)))

-- operator==: one id with two costs stops the program.
unfoldable pub eq_nh : FibNextHop → FibNextHop → Result Bool
eq_nh own other =
    if other.nh_id == own.nh_id
    then (do
      guard (other.cost == own.cost) abort
      guard (eqb_ℤ other.cost_delta own.cost_delta) abort
      ok true)
    else ok false

pub lt_nh_irrefl : (a : FibNextHop) → lt_nh a a ≡ false
unfolding lt_nh
lt_nh_irrefl a = ground arith

pub lt_nh_trans : (a b c : FibNextHop) → lt_nh a b ≡ true → lt_nh b c ≡ true → lt_nh a c ≡ true
unfolding lt_nh
lt_nh_trans a b c h k = ground arith

abbrev pub by_cost : StrictOrder FibNextHop
by_cost = record { lt = lt_nh; irrefl = lt_nh_irrefl; trans = lt_nh_trans }
