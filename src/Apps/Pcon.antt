-- ===== src/Apps/Pcon.antt =====
-- apps/ndn-consumer-pcon.hpp and .cpp: the consumer with the window algorithms AIMD, BIC and CUBIC.
-- `clock` is time::steady_clock::now() in seconds. CheckRetxTimeout with this OnTimeout, which may
-- stop, is left out.
pub mod Handlers
pub mod Decrease
use ndn_sim.Prelude.{
  ℕ, ◌+◌, ◌-◌, ◌%◌, ◌^◌, Bool, true, false, not, ◌&&◌, ◌||◌, Option, none, some, ltb, ◌==◌,
  if◌then◌else◌, Result, ok, assertion, out_of_range, malformed, guard, or_fail, ◌>>=◌, ◌>>◌,
}
use ndn_sim.Prelude.Int.{ℤ}
use ndn_sim.Rtt.MeanDeviation.{Doubles, max_double}
use ndn_sim.Apps.Names.{last_component}
use ndn_sim.Apps.Platform.{Platform}
use ndn_sim.Apps.Consumer.{Consumer, Virtuals, Data, schedule_next_packet, on_timeout, on_data}
use ndn_sim.Apps.Window.{WindowState, one_less_in_flight, window_next_packet}

pub data CcAlgorithm : Type 0 where
  aimd bic cubic : CcAlgorithm

pub record PconState (d : Doubles) : Type 0 where
  pub base : WindowState d
  pub open base use *
  pub cc_algorithm : CcAlgorithm
  pub beta : d.Double
  pub add_rtt_suppress : d.Double
  pub react_to_congestion_marks : Bool
  pub use_cwa : Bool
  pub ssthresh : d.Double
  pub high_data : ℕ
  pub rec_point : d.Double
  pub use_cubic_fast_conv : Bool
  pub cubic_beta : d.Double
  pub cubic_wmax : d.Double
  pub cubic_last_wmax : d.Double
  pub cubic_last_decrease : d.Double
  pub bic_min_win : d.Double
  pub bic_max_win : d.Double
  pub bic_target_win : d.Double
  pub bic_ss_cwnd : d.Double
  pub bic_ss_target : d.Double
  pub is_bic_ss : Bool

abbrev pub bic_low_window : ℕ
bic_low_window = 14

abbrev pub bic_max_increment : ℕ
bic_max_increment = 16

module _ (d : Doubles) where
  open d use {Double, lt, plus, minus, mul, div, times, half, decimal, cbrt, cube, largest}

  abbrev pub whole_number : ℕ → Double
  whole_number n = decimal n 0

  abbrev pub with_window : Double → PconState d → PconState d
  with_window a w = record w { base = record (w.base) { window = a } }

  -- What the constructor sets, over the attributes' values.
  unfoldable pub pcon_state : Double → PconState d → PconState d
  pcon_state clock w = record w {
    ssthresh = largest;
    high_data = 0;
    rec_point = whole_number 0;
    cubic_wmax = whole_number 0;
    cubic_last_wmax = whole_number 0;
    cubic_last_decrease = clock;
    bic_min_win = whole_number 0;
    bic_max_win = largest;
    bic_target_win = whole_number 0;
    bic_ss_cwnd = whole_number 0;
    bic_ss_target = whole_number 0;
    is_bic_ss = false;
  }

  -- The growth of AIMD, which BIC has for small windows as well.
  unfoldable pub additive_increase : PconState d → PconState d
  additive_increase w =
      if lt w.window w.ssthresh
      then with_window (plus w.window (whole_number 1)) w
      else with_window (plus w.window (div (whole_number 1) w.window)) w

  -- The step of BIC's binary increase.
  unfoldable pub binary_step : PconState d → PconState d
  binary_step w =
      let distance : Double = minus w.bic_target_win w.window in
      let step : Double =
        if lt distance (whole_number bic_max_increment)
        then div distance w.window
        else div (whole_number bic_max_increment) w.window in
      with_window (plus w.window step) w

  unfoldable pub binary_increase : PconState d → PconState d
  unfolding binary_step
  binary_increase w =
      let w' : PconState d = binary_step w in
      if lt (plus w'.window (decimal 1 5)) w'.bic_max_win
      then record w' {
        bic_min_win = w'.window;
        bic_target_win = half (plus w'.bic_max_win w'.window);
      }
      else record w' {
        is_bic_ss = true;
        bic_ss_cwnd = whole_number 1;
        bic_ss_target = plus w'.window (whole_number 1);
        bic_max_win = largest;
      }

  unfoldable pub bic_slow_start : PconState d → PconState d
  bic_slow_start w =
      let w1 : PconState d = with_window (plus w.window (div w.bic_ss_cwnd w.window)) w in
      let doubled : Double = times 2 w1.bic_ss_cwnd in
      let w2 : PconState d =
        if lt w1.window w1.bic_ss_target
        then w1
        else record w1 { bic_ss_cwnd = doubled; bic_ss_target = plus w1.window doubled } in
      if lt w2.bic_ss_cwnd (whole_number bic_max_increment)
      then w2
      else record w2 { is_bic_ss = false }

  unfoldable pub bic_increase : PconState d → PconState d
  unfolding additive_increase binary_increase bic_slow_start
  bic_increase w =
      if lt w.window (whole_number bic_low_window)
      then additive_increase w
      else (if not w.is_bic_ss then binary_increase w else bic_slow_start w)

  unfoldable pub bic_decrease : PconState d → PconState d
  bic_decrease w =
      let reduced : Double = mul w.window w.cubic_beta in
      let middle : Double = half (plus w.window reduced) in
      let max_win : Double = if lt w.window w.bic_max_win then middle else w.window in
      if lt w.window (whole_number bic_low_window)
      then with_window reduced (record w { ssthresh = reduced })
      else with_window reduced (record w {
        bic_max_win = max_win;
        bic_min_win = reduced;
        bic_target_win = half (plus max_win reduced);
      })

  -- CUBIC's target after `t` seconds: C * (t - K) ^ 3 + W_max.
  unfoldable pub cubic_target : Double → PconState d → Double
  cubic_target t w =
      let c : Double = decimal 4 1 in
      let k : Double = cbrt (div (mul w.cubic_wmax (minus (whole_number 1) w.cubic_beta)) c) in
      plus (mul c (cube (minus t k))) w.cubic_wmax

  unfoldable pub cubic_increase : Double → PconState d → Result (PconState d)
  unfolding cubic_target
  cubic_increase clock w =
      let target : Double = cubic_target (minus clock w.cubic_last_decrease) w in
      let increment : Double = minus (max_double d target (whole_number 0)) w.window in
      let positive : Double = if lt increment (whole_number 0) then whole_number 0 else increment in
      if lt w.window w.ssthresh
      then ok (with_window (plus w.window (whole_number 1)) w)
      else (guard (lt (whole_number 0) w.cubic_wmax) assertion
          >> ok (with_window (plus w.window (div positive w.window)) w))

  unfoldable pub cubic_decrease : Double → PconState d → PconState d
  cubic_decrease clock w =
      let limit : Double =
        mul w.cubic_last_wmax (minus (whole_number 1) (div (whole_number 1) (whole_number 100))) in
      let wmax : Double =
        if w.use_cubic_fast_conv && lt w.window limit
        then half (mul w.window (plus (whole_number 1) w.cubic_beta))
        else w.window in
      let ssthresh : Double =
        max_double d (mul w.window w.cubic_beta) (whole_number w.initial_window) in
      with_window ssthresh (record w {
        cubic_last_wmax = w.window;
        cubic_wmax = wmax;
        ssthresh = ssthresh;
        cubic_last_decrease = clock;
      })

  unfoldable pub window_increase : Double → PconState d → Result (PconState d)
  unfolding additive_increase cubic_increase bic_increase
  window_increase clock w = elim w.cc_algorithm [
    | aimd ↦ ok (additive_increase w)
    | cubic ↦ cubic_increase clock w
    | bic ↦ ok (bic_increase w)
  ]

  -- The three ways to decrease the window.
  unfoldable pub decreased : Double → PconState d → PconState d
  unfolding cubic_decrease bic_decrease
  decreased clock w =
      let reduced : Double = mul w.window w.beta in
      elim w.cc_algorithm [
        | aimd ↦ with_window reduced (record w { ssthresh = reduced })
        | cubic ↦ cubic_decrease clock w
        | bic ↦ bic_decrease w
      ]

  -- WindowDecrease; `seq` is m_seq, and the difference that it takes is that of two uint32_t.
  unfoldable pub window_decrease : ℕ → Double → PconState d → Result (PconState d)
  unfolding decreased
  window_decrease seq clock w =
      let diff : ℕ = (seq + 2 ^ 32 - w.high_data) % 2 ^ 32 in
      let point : Double = plus (whole_number seq) (mul w.add_rtt_suppress (whole_number diff)) in
      let w' : PconState d = decreased clock (record w { rec_point = point }) in
      let initial : Double = whole_number w'.initial_window in
      if not w.use_cwa || lt w.rec_point (whole_number w.high_data)
      then (guard (ltb 0 diff) assertion
          >> ok (if lt w'.window initial then with_window initial w' else w'))
      else ok w
