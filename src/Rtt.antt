-- ===== src/Rtt.antt =====
-- utils/ndn-rtt-estimator.hpp and .cpp: the state of the round-trip time estimators and the
-- operations of their base class; the estimator that the applications use is in the child module.
-- A time is a number of nanoseconds. `now` is Simulator::Now() of a call. ns3::SequenceNumber32 is
-- not part of the repository: its operations are a parameter.
pub mod MeanDeviation
pub mod History
pub mod Timeout
use ndn_sim.Prelude.{
  ℕ, suc, ◌+◌, ◌*◌, ◌≡◌, Bool, true, false, not, ◌&&◌, List, [], ◌∷◌, ◌++◌, ltb, ◌==◌,
  if◌then◌else◌,
}
use ndn_sim.Prelude.Int.{ℤ, pos, ◌-ℤ◌}

pub record RttHistory : Type 0 where
  pub seq : ℕ
  pub count : ℕ
  pub time : ℤ
  pub retx : Bool

-- A new record is not a retransmission.
abbrev pub rtt_history : ℕ → ℕ → ℤ → RttHistory
rtt_history s c t = record { seq = s; count = c; time = t; retx = false }

pub record RttEstimator : Type 0 where
  pub next : ℕ
  pub max_multiplier : ℕ
  pub initial_estimated_rtt : ℤ
  pub current_estimated_rtt : ℤ
  pub min_rto : ℤ
  pub max_rto : ℤ
  pub n_samples : ℕ
  pub multiplier : ℕ
  pub history : List RttHistory

-- The constructor, with the attributes' values.
unfoldable pub rtt_estimator : ℕ → ℤ → ℤ → ℤ → RttEstimator
rtt_estimator max_multiplier initial min_rto max_rto = record {
  next = 1;
  max_multiplier = max_multiplier;
  initial_estimated_rtt = initial;
  current_estimated_rtt = initial;
  min_rto = min_rto;
  max_rto = max_rto;
  n_samples = 0;
  multiplier = 1;
  history = [];
}

unfoldable pub clear_sent : RttEstimator → RttEstimator
clear_sent r = record r { next = 1; history = [] }

-- The multiplier and its bound are uint16_t; the product is an `int` and does not wrap.
unfoldable pub increase_multiplier : RttEstimator → RttEstimator
increase_multiplier r = record r {
  multiplier =
      if ltb (r.multiplier * 2) r.max_multiplier then r.multiplier * 2 else r.max_multiplier;
}

unfoldable pub reset_multiplier : RttEstimator → RttEstimator
reset_multiplier r = record r { multiplier = 1 }

unfoldable pub reset : RttEstimator → RttEstimator
unfolding reset_multiplier
reset r = reset_multiplier (record r {
  next = 1;
  current_estimated_rtt = r.initial_estimated_rtt;
  history = [];
  n_samples = 0;
})

-- What the base class uses of SequenceNumber32: `>=`, `<` and `>` are `geb` and its negations.
pub record SequenceNumbers : Type 0 where
  pub geb : ℕ → ℕ → Bool
  pub plus : ℕ → ℕ → ℕ
  pub minus : ℕ → ℕ → ℕ

module _ (sn : SequenceNumbers) where
  open sn use {geb, plus, minus}

  abbrev pub gtb : ℕ → ℕ → Bool
  gtb a b = not (geb b a)

  abbrev pub covers : RttHistory → ℕ → Bool
  covers h seq = geb seq h.seq && not (geb seq (plus h.seq h.count))

  -- The loop that looks for a retransmitted sequence number: the history and m_next.
  unfoldable pub mark_retx : ℕ → ℕ → ℕ → List RttHistory → List RttHistory × ℕ
  mark_retx seq size next [] = ([], next)
  mark_retx seq size next (h ∷ hs) =
      let (rest, next') = mark_retx seq size next hs in
      let marked : RttHistory = record h { retx = true } in
      let grown : RttHistory = record marked { count = minus (plus seq size) h.seq } in
      if covers h seq
      then (if gtb (plus seq size) next then (grown ∷ hs, plus seq size) else (marked ∷ hs, next))
      else (h ∷ rest, next')

  unfoldable pub base_sent_seq : ℕ → ℕ → ℤ → RttEstimator → RttEstimator
  unfolding mark_retx
  base_sent_seq seq size now r =
      if seq == r.next
      then record r { history = r.history ++ rtt_history seq size now ∷ []; next = plus seq size }
      else let (history, next) = mark_retx seq size r.next r.history in
        record r { history = history; next = next }

  -- "Now delete all ack history with seq <= ack".
  unfoldable pub drop_acked : ℕ → List RttHistory → List RttHistory
  drop_acked ack [] = []
  drop_acked ack (h ∷ hs) =
      let rest = drop_acked ack hs in if gtb (plus h.seq h.count) ack then h ∷ hs else rest

  -- AckSeq of the base class; Measurement is pure virtual there. The result is the sample.
  unfoldable pub base_ack_seq :
      (ℤ → RttEstimator → RttEstimator) → ℕ → ℤ → RttEstimator → ℤ × RttEstimator
  unfolding drop_acked reset_multiplier
  base_ack_seq measurement ack now r = elim r.history [
    | [] ↦ (pos 0, r)
    | h ∷ hs ↦
        let sampled : Bool = not h.retx && geb ack (plus h.seq h.count) in
        let m : ℤ = if sampled then now -ℤ h.time else pos 0 in
        let r' : RttEstimator = if sampled then reset_multiplier (measurement m r) else r in
        (m, record r' { history = drop_acked ack r'.history })
  ]
