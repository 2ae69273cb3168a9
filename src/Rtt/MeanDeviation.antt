-- ===== src/Rtt/MeanDeviation.antt =====
-- utils/ndn-rtt-mean-deviation.hpp and .cpp: the estimator of the applications.
-- `double` is a parameter: the model uses its order and the few operations that the source applies.
use ndn_sim.Prelude.{
  Option, some, none, ℕ, suc, ◌+◌, ◌≡◌, Bool, true, false, List, [], ◌∷◌, ◌++◌, ◌==◌, if◌then◌else◌,
}
use ndn_sim.Prelude.Int.{ℤ, pos, pos_part, neg_part, ◌-ℤ◌, ◌+ℤ◌}
use ndn_sim.Rtt.{RttHistory, rtt_history, RttEstimator, reset, reset_multiplier}

-- The doubles of the estimator and of the applications, none of them a NaN. `to_seconds` is Time::ToDouble(Time::S),
-- `from_seconds` is Seconds() and Time::FromDouble(_, Time::S), `times` multiplies by a whole number.
pub record Doubles : Type 1 where
  pub Double : Type 0
  pub lt : Double → Double → Bool
  pub plus : Double → Double → Double
  pub mul : Double → Double → Double
  pub times : ℕ → Double → Double
  pub half : Double → Double
  -- `decimal m e` is the literal for m / 10 ^ e, and `decimal n 0` the conversion of n
  pub decimal : ℕ → ℕ → Double
  pub minus : Double → Double → Double
  pub div : Double → Double → Double
  pub cbrt : Double → Double
  -- the third power
  pub cube : Double → Double
  -- std::numeric_limits<double>::max()
  pub largest : Double
  -- the conversion of `floor` to uint32_t
  pub floor : Double → ℕ
  pub to_seconds : ℤ → Double
  pub from_seconds : Double → ℤ
  pub irrefl : (a : Double) → lt a a ≡ false
  pub lt_trans : (a b c : Double) → lt a b ≡ true → lt b c ≡ true → lt a c ≡ true
  pub ge_trans : (a b c : Double) → lt b a ≡ false → lt c b ≡ false → lt c a ≡ false

abbrev pub abs : ℤ → ℤ
abs t = pos (pos_part t + neg_part t)

-- Mark the first record of this sequence number; the flag says that there is one.
unfoldable pub mark_sent : ℕ → List RttHistory → List RttHistory × Bool
mark_sent seq [] = ([], false)
mark_sent seq (h ∷ hs) =
    let (rest, found) = mark_sent seq hs in
    if seq == h.seq then (record h { retx = true } ∷ hs, true) else (h ∷ rest, found)

-- The search of AckSeq: the first record of this sequence number.
unfoldable pub find_sent : ℕ → List RttHistory → Option RttHistory
find_sent seq [] = none
find_sent seq (h ∷ hs) = if seq == h.seq then some h else find_sent seq hs

unfoldable pub erase_sent : ℕ → List RttHistory → List RttHistory
erase_sent seq [] = []
erase_sent seq (h ∷ hs) = if seq == h.seq then hs else h ∷ erase_sent seq hs

module _ (d : Doubles) where
  open d use {Double, lt, plus, mul, times, half, to_seconds, from_seconds}

  pub record RttMeanDeviation : Type 0 where
    pub base : RttEstimator
    pub open base use *
    pub gain : Double
    pub gain2 : Double
    pub variance : ℤ

  -- std::min and std::max
  abbrev pub min_double : Double → Double → Double
  min_double a b = if lt b a then b else a

  abbrev pub max_double : Double → Double → Double
  max_double a b = if lt a b then b else a

  unfoldable pub measurement : ℤ → RttMeanDeviation → RttMeanDeviation
  measurement m r =
      let err : ℤ = m -ℤ r.current_estimated_rtt in
      let difference : ℤ = abs err -ℤ r.variance in
      let later : RttMeanDeviation = record r {
        base = record (r.base) {
          current_estimated_rtt =
              r.current_estimated_rtt +ℤ from_seconds (mul (to_seconds err) r.gain);
          n_samples = suc r.n_samples;
        };
        variance = r.variance +ℤ from_seconds (mul (to_seconds difference) r.gain2);
      } in
      let first : RttMeanDeviation = record r {
        base = record (r.base) { current_estimated_rtt = m; n_samples = suc r.n_samples };
        variance = from_seconds (half (to_seconds m));
      } in
      if r.n_samples == 0 then first else later

  -- The value that RetransmitTimeout turns into a time.
  unfoldable pub retransmit_seconds : RttMeanDeviation → Double
  retransmit_seconds r = min_double (to_seconds r.max_rto) (
      max_double (times r.multiplier (to_seconds r.min_rto)) (
        times r.multiplier
          (plus (to_seconds r.current_estimated_rtt) (times 4 (to_seconds r.variance)))))

  unfoldable pub retransmit_timeout : RttMeanDeviation → ℤ
  unfolding retransmit_seconds
  retransmit_timeout r = from_seconds (retransmit_seconds r)

  unfoldable pub reset_mean : RttMeanDeviation → RttMeanDeviation
  reset_mean r = record r { variance = pos 0; base = reset r.base }

  unfoldable pub sent_seq : ℕ → ℕ → ℤ → RttMeanDeviation → RttMeanDeviation
  unfolding mark_sent
  sent_seq seq size now r =
      let (marked, found) = mark_sent seq r.history in
      record r {
        base = record (r.base) {
          history = if found then marked else marked ++ rtt_history seq size now ∷ [];
        };
      }

  -- A record that was not sent again gives a sample. The result is the sample, or 0.
  unfoldable pub ack_seq : ℕ → ℤ → RttMeanDeviation → ℤ × RttMeanDeviation
  unfolding find_sent erase_sent measurement reset_multiplier
  ack_seq seq now r = elim (find_sent seq r.history) [
    | none ↦ (pos 0, r)
    | some h ↦
        let m : ℤ = now -ℤ h.time in
        let measured : RttMeanDeviation = measurement m r in
        let r' : RttMeanDeviation =
          if h.retx then r else record measured { base = reset_multiplier (measured.base) } in
        (
          if h.retx then pos 0 else m,
          record r' { base = record (r'.base) { history = erase_sent seq r.history } },
        )
  ]
