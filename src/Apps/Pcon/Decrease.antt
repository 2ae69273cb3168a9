-- ===== src/Apps/Pcon/Decrease.antt =====
-- apps/ndn-consumer-pcon.cpp, WindowDecrease.
use ndn_sim.Prelude.{
  ℕ, ◌+◌, ◌-◌, ◌%◌, ◌^◌, ◌<◌, ◌≡◌, refl, true, false, not, ◌||◌, lt→ltb, if◌then◌else◌, ok, arith,
}
use ndn_sim.Rtt.MeanDeviation.{Doubles}
use ndn_sim.Apps.Pcon.{
  PconState, decreased, bic_decrease, cubic_decrease, whole_number, with_window, window_decrease,
}

module _ (d : Doubles) where
  open d use {Double, lt, plus, mul}

  initial-decreased :
      (clock : Double) (w : PconState d) → (decreased d clock w).initial_window ≡ w.initial_window
  unfolding decreased bic_decrease cubic_decrease
  initial-decreased clock w = ground arith

  -- the last step of WindowDecrease
  abbrev raised : PconState d → PconState d
  raised w =
      if lt w.window (whole_number d w.initial_window)
      then with_window d (whole_number d w.initial_window) w
      else w

  window-raised :
      (w : PconState d) (n : ℕ)
      → w.initial_window ≡ n
      → lt (raised w).window (whole_number d n) ≡ false
  window-raised w n e = ground (arith, d.irrefl (whole_number d n))

  -- Where a decrease is not suppressed, and the next sequence number is not that of the highest
  -- Data, WindowDecrease returns, and no algorithm leaves a window below the initial one.
  pub window_decrease_lem :
      (seq : ℕ) (clock : Double) (w : PconState d)
      → (not w.use_cwa || lt w.rec_point (whole_number d w.high_data)) ≡ true
      → 0 < (seq + 2 ^ 32 - w.high_data) % 2 ^ 32
      → (w' : PconState d) × (window_decrease d seq clock w ≡ ok w')
        × (lt w'.window (whole_number d w.initial_window) ≡ false)
  unfolding window_decrease
  window_decrease_lem seq clock w f h =
      let diff : ℕ = (seq + 2 ^ 32 - w.high_data) % 2 ^ 32 in
      let point : Double =
        plus (whole_number d seq) (mul w.add_rtt_suppress (whole_number d diff)) in
      let reduced : PconState d = decreased d clock (record w { rec_point = point }) in
      (
        raised reduced,
        rw (f, lt→ltb 0 diff h) refl,
        window-raised reduced w.initial_window
            (initial-decreased clock (record w { rec_point = point })),
      )
