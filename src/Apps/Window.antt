-- ===== src/Apps/Window.antt =====
-- apps/ndn-consumer-window.hpp and .cpp: the consumer with a window of outstanding Interests.
-- The window is a double, as in the source.
pub mod Limits
use ndn_sim.Prelude.{
  ℕ, suc, ◌+◌, ◌-◌, ◌%◌, ◌^◌, Bool, true, false, not, ◌&&◌, Option, none, some, ltb, ◌==◌,
  if◌then◌else◌, Result, ok, ◌>>=◌,
}
use ndn_sim.Prelude.Int.{ℤ, ◌+ℤ◌}
use ndn_sim.Rtt.MeanDeviation.{Doubles, min_double, retransmit_timeout}
use ndn_sim.Apps.Platform.{Platform}
use ndn_sim.Apps.Consumer.{Consumer, Virtuals, Data, uint32_max, schedule_next_packet, on_data}

pub record WindowState (d : Doubles) : Type 0 where
  pub payload_size : ℕ
  pub max_size : d.Double
  pub initial_window : ℕ
  pub window : d.Double
  pub in_flight : ℕ
  pub set_initial_window_on_timeout : Bool

-- The constructor, with the attributes' values. PayloadSize is 1040 if it is not set.
unfoldable pub window_state : (d : Doubles) → ℕ → d.Double → Bool → WindowState d
window_state d initial max_size on_timeout = record {
  payload_size = 1040;
  max_size = max_size;
  initial_window = initial;
  window = d.decimal initial 0;
  in_flight = 0;
  set_initial_window_on_timeout = on_timeout;
}

-- `if (m_inFlight > 0) m_inFlight--`
abbrev pub one_less_in_flight : {d : Doubles} → WindowState d → WindowState d
one_less_in_flight w = record w { in_flight = w.in_flight - 1 }

module _ (pf : Platform) where
  open (pf.doubles) use {Double, lt, plus, mul, div, half, decimal, to_seconds, from_seconds, floor}

  abbrev pub WindowConsumer : Type 0
  WindowConsumer = Consumer pf (WindowState pf.doubles)

  unfoldable pub set_window : ℕ → WindowConsumer → WindowConsumer
  set_window window c = record c {
    subclass = record (c.subclass) { initial_window = window; window = decimal window 0 };
  }

  unfoldable pub set_payload_size : ℕ → WindowConsumer → WindowConsumer
  set_payload_size payload c = record c {
    subclass = record (c.subclass) { payload_size = payload };
  }

  -- `none` stands for -1.0.
  unfoldable pub get_max_size : WindowConsumer → Option Double
  get_max_size c = if c.seq_max == 0 then none else some c.subclass.max_size

  unfoldable pub set_max_size : Double → WindowConsumer → WindowConsumer
  set_max_size max_size c =
      let megabytes : Double = mul (mul max_size (decimal 1024 0)) (decimal 1024 0) in
      let packets : Double = div megabytes (decimal c.subclass.payload_size 0) in
      record c {
        subclass = record (c.subclass) { max_size = max_size };
        seq_max =
            if lt max_size (decimal 0 0) then uint32_max else floor (plus (decimal 1 0) packets);
      }

  unfoldable pub set_seq_max : ℕ → WindowConsumer → WindowConsumer
  set_seq_max seq_max c =
      if lt c.subclass.max_size (decimal 0 0) then record c { seq_max = seq_max } else c

  -- `m_window == 0`
  abbrev pub is_zero : Double → Bool
  is_zero a = not (lt a (decimal 0 0)) && not (lt (decimal 0 0) a)

  -- The event that ConsumerWindow::ScheduleNextPacket leaves, from the retransmission timeout and the
  -- event that is pending.
  unfoldable pub window_due : ℤ → ℤ → Option ℤ → WindowState pf.doubles → Option ℤ
  window_due now rto pending w =
      let delay : Double = min_double pf.doubles (half (decimal 1 0)) (to_seconds rto) in
      let full : Bool = not (lt (decimal w.in_flight 0) w.window) in
      if is_zero w.window
      then some (now +ℤ from_seconds delay)
      else (if full then pending else some now)

  unfoldable pub window_next_packet : ℤ → WindowConsumer → WindowState pf.doubles × Option ℤ
  unfolding window_due
  window_next_packet now c =
      (c.subclass, window_due now (retransmit_timeout pf.doubles c.rtt) c.send_event c.subclass)

  -- The part of ConsumerWindow::OnTimeout before Consumer::OnTimeout.
  unfoldable pub window_timed_out : WindowConsumer → WindowState pf.doubles
  window_timed_out c =
      let w : WindowState pf.doubles = one_less_in_flight (c.subclass) in
      if w.set_initial_window_on_timeout
      then record w { window = decimal w.initial_window 0 }
      else w

  unfoldable pub window_will_send : WindowConsumer → WindowState pf.doubles
  window_will_send c = record (c.subclass) { in_flight = (c.subclass.in_flight + 1) % 2 ^ 32 }

  unfoldable pub window_virtuals : Virtuals pf (WindowState pf.doubles)
  unfolding window_next_packet window_timed_out window_will_send
  window_virtuals = record {
    before_send = window_will_send;
    before_timeout = window_timed_out;
    next_packet = window_next_packet;
  }

  -- The part of ConsumerWindow::OnData after Consumer::OnData.
  unfoldable pub window_received : ℤ → WindowConsumer → WindowConsumer
  unfolding window_virtuals
  window_received now c =
      let w : WindowState pf.doubles = record (c.subclass) {
        window = plus c.subclass.window (decimal 1 0);
      } in
      schedule_next_packet pf window_virtuals now (record c { subclass = one_less_in_flight w })

  unfoldable pub window_on_data : ℤ → Data pf → WindowConsumer → Result WindowConsumer
  unfolding window_received
  window_on_data now packet c = on_data pf now packet c >>= λ c'. ok (window_received now c')
