-- ===== src/Rtt/Timeout.antt =====
-- utils/ndn-rtt-mean-deviation.cpp, RetransmitTimeout, and the multiplier of
-- utils/ndn-rtt-estimator.cpp.
use native.Mathlib.Nat.{pow-suc}
use ndn_sim.Prelude.{
  ℕ, zero, suc, ◌*◌, ◌^◌, ◌<◌, ◌≡◌, refl, true, false, arith, ltb, if◌then◌else◌, min, Bool-cases,
  inl, inr,
}
use ndn_sim.Rtt.{RttEstimator, increase_multiplier, reset_multiplier}
use ndn_sim.Rtt.MeanDeviation.{
  Doubles, RttMeanDeviation, retransmit_seconds, min_double, max_double,
}

module _ (d : Doubles) where
  open d use {Double, lt, plus, times, to_seconds}

  below : (high v : Double) → lt v high ≡ true → lt high v ≡ false
  below high v h = elim (Bool-cases (lt high v)) [
    | inl e ↦ ground (arith, d.lt_trans v high v h e, d.irrefl v)
    | inr e ↦ e
  ]

  clamp_lower :
      (high low v : Double)
      → lt v low ≡ false
      → (lt high (min_double d high v) ≡ false)
        × (lt (min_double d high v) (min_double d high low) ≡ false)
  clamp_lower high low v g = elim (Bool-cases (lt v high)) [
    | inl e ↦ elim (Bool-cases (lt low high)) [
      | inl f ↦ rw (e, f) (below high v e, g)
      | inr f ↦ rw (e, f) (below high v e, d.ge_trans high low v f g)
    ]
    | inr e ↦ elim (Bool-cases (lt low high)) [
      | inl f ↦ rw (e, f) (d.irrefl high, below high low f)
      | inr f ↦ rw (e, f) (d.irrefl high, d.irrefl high)
    ]
  ]

  max_ge : (low estimate : Double) → lt (max_double d low estimate) low ≡ false
  max_ge low estimate = elim (Bool-cases (lt low estimate)) [
    | inl e ↦ rw e (below estimate low e)
    | inr e ↦ rw e (d.irrefl low)
  ]

  clamp :
      (high low estimate : Double)
      → let v = min_double d high (max_double d low estimate) in
        (lt high v ≡ false) × (lt v (min_double d high low) ≡ false)
  clamp high low estimate = clamp_lower high low _ (max_ge low estimate)

  -- The timeout is at most MaxRTO, and at least the smaller of MaxRTO and MinRTO times the
  -- multiplier.
  pub retransmit_seconds_bounds :
      (r : RttMeanDeviation d)
      → (lt (to_seconds r.max_rto) (retransmit_seconds d r) ≡ false)
        × (lt
              (retransmit_seconds d r)
              (min_double d (to_seconds r.max_rto) (times r.multiplier (to_seconds r.min_rto)))
            ≡ false)
  unfolding retransmit_seconds
  retransmit_seconds_bounds r =
      clamp (to_seconds r.max_rto) (times r.multiplier (to_seconds r.min_rto)) (
        times r.multiplier
          (plus (to_seconds r.current_estimated_rtt) (times 4 (to_seconds r.variance))))

pub backed_off : ℕ → RttEstimator → RttEstimator
backed_off zero r = r
backed_off (suc n) r = increase_multiplier (backed_off n r)

backed_off_max : (n : ℕ) (r : RttEstimator) → (backed_off n r).max_multiplier ≡ r.max_multiplier
unfolding backed_off increase_multiplier
backed_off_max zero r = refl
backed_off_max (suc n) r = backed_off_max n r

doubled : (p m x : ℕ) → x ≡ min p m → (if ltb (x * 2) m then x * 2 else m) ≡ min (p * 2) m
doubled p m x e = ground arith

-- After `n` timeouts in a row the multiplier is 2 ^ n, or MaxMultiplier where that is less, if
-- MaxMultiplier is not 0.
pub multiplier-backed_off :
    (n : ℕ) (r : RttEstimator)
    → 0 < r.max_multiplier
    → (backed_off n (reset_multiplier r)).multiplier ≡ min (2 ^ n) r.max_multiplier
unfolding backed_off reset_multiplier increase_multiplier
multiplier-backed_off zero r h = ground arith
multiplier-backed_off (suc n) r h =
    rw (backed_off_max n (reset_multiplier r), pow-suc 2 n)
      (doubled (2 ^ n) r.max_multiplier _ (multiplier-backed_off n r h))
