-- ===== src/Tests/Rtt.antt =====
-- The round-trip time estimator, over whole numbers in place of doubles.
use ndn_sim.Prelude.{ℕ, ◌+◌, ◌-◌, ◌*◌, ◌/◌, ◌^◌, ◌≡◌, refl, false, [], ◌∷◌, arith, ltb, min}
use ndn_sim.Prelude.Int.{pos, pos_part, ◌-ℤ◌}
use ndn_sim.Rtt.{rtt_estimator, rtt_history, reset_multiplier}
use ndn_sim.Rtt.MeanDeviation.{
  Doubles, RttMeanDeviation, sent_seq, ack_seq, find_sent, erase_sent, retransmit_seconds,
  min_double,
}
use ndn_sim.Rtt.History.{
  HaveDistinctSeqs, sends, acks, apply_uses, ack_seq-sent_seq_new, ack_seq-sent_seq_again,
  apply_uses-HaveDistinctSeqs,
}
use ndn_sim.Rtt.Timeout.{backed_off, retransmit_seconds_bounds, multiplier-backed_off}

abbrev pub whole : Doubles
whole = record {
  Double = ℕ;
  lt = ltb;
  plus = λ a b. a + b;
  mul = λ a b. a * b;
  times = λ a b. a * b;
  half = λ a. a / 2;
  decimal = λ m e. m / 10 ^ e;
  minus = λ a b. a - b;
  div = λ a b. a / b;
  cbrt = λ a. a;
  cube = λ a. a ^ 3;
  largest = 2 ^ 64;
  floor = λ a. a;
  to_seconds = pos_part;
  from_seconds = pos;
  irrefl = λ a. ground arith;
  lt_trans = λ a b c h k. ground arith;
  ge_trans = λ a b c h k. ground arith;
}

abbrev pub estimator : RttMeanDeviation whole
estimator = record {
  base = record (rtt_estimator 64 (pos 1) (pos 2) (pos 200)) {
    history = rtt_history 7 1 (pos 3) ∷ [];
  };
  gain = 1;
  gain2 = 1;
  variance = pos 0;
}

ack_seq-sent_seq_new_example :
    let s = ack_seq whole 8 (pos 9) (sent_seq whole 8 1 (pos 4) estimator) in
    (s.0 ≡ pos 9 -ℤ pos 4) × (s.1.multiplier ≡ 1) × (s.1.history ≡ estimator.history)
unfolding find_sent
ack_seq-sent_seq_new_example = ack_seq-sent_seq_new whole 8 1 (pos 4) (pos 9) estimator refl

ack_seq-sent_seq_again_example :
    let s = ack_seq whole 7 (pos 9) (sent_seq whole 7 1 (pos 4) estimator) in
    (s.0 ≡ pos 0)
    × (s.1 ≡ record estimator {
      base = record (estimator.base) { history = erase_sent 7 estimator.history };
    })
unfolding find_sent
ack_seq-sent_seq_again_example =
    ack_seq-sent_seq_again whole 7 1 (pos 4) (pos 9) estimator (rtt_history 7 1 (pos 3)) refl

apply_uses-HaveDistinctSeqs_example :
    HaveDistinctSeqs
      (apply_uses whole (sends 7 (pos 5) ∷ sends 8 (pos 5) ∷ acks 7 (pos 6) ∷ []) estimator).history
apply_uses-HaveDistinctSeqs_example =
    apply_uses-HaveDistinctSeqs whole (sends 7 (pos 5) ∷ sends 8 (pos 5) ∷ acks 7 (pos 6) ∷ [])
      estimator (tt, tt)

retransmit_seconds_bounds_example :
    (ltb 200 (retransmit_seconds whole estimator) ≡ false)
    × (ltb (retransmit_seconds whole estimator) (min_double whole 200 2) ≡ false)
unfolding rtt_estimator
retransmit_seconds_bounds_example = retransmit_seconds_bounds whole estimator

multiplier-backed_off_example :
    (backed_off 3 (reset_multiplier (rtt_estimator 64 (pos 1) (pos 2) (pos 200)))).multiplier
    ≡ min (2 ^ 3) 64
unfolding rtt_estimator
multiplier-backed_off_example =
    multiplier-backed_off 3 (rtt_estimator 64 (pos 1) (pos 2) (pos 200)) (ground arith)
