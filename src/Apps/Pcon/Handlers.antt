-- ===== src/Apps/Pcon/Handlers.antt =====
-- apps/ndn-consumer-pcon.cpp: OnData and OnTimeout.
use ndn_sim.Prelude.{
  ℕ, ◌+◌, ◌%◌, ◌^◌, Option, ltb, if◌then◌else◌, Result, ok, out_of_range, malformed, or_fail, ◌>>=◌,
}
use ndn_sim.Prelude.Int.{ℤ}
use ndn_sim.Rtt.MeanDeviation.{retransmit_timeout}
use ndn_sim.Apps.Names.{last_component}
use ndn_sim.Apps.Platform.{Platform}
use ndn_sim.Apps.Consumer.{Consumer, Virtuals, Data, schedule_next_packet, on_timeout, on_data}
use ndn_sim.Apps.Window.{window_due, one_less_in_flight}
use ndn_sim.Apps.Pcon.{PconState, window_increase, window_decrease}

module _ (pf : Platform) where
  open (pf.doubles) use {Double}
  open (pf.names) use {to_sequence_number}

  abbrev pub PconConsumer : Type 0
  PconConsumer = Consumer pf (PconState pf.doubles)

  abbrev pub landed : PconState pf.doubles → PconState pf.doubles
  landed w = record w { base = one_less_in_flight (w.base) }

  unfoldable pub pcon_next_packet : ℤ → PconConsumer → PconState pf.doubles × Option ℤ
  pcon_next_packet now c = (
    c.subclass,
    window_due pf now (retransmit_timeout pf.doubles c.rtt) c.send_event (c.subclass.base),
  )

  unfoldable pub pcon_will_send : PconConsumer → PconState pf.doubles
  pcon_will_send c = record (c.subclass) {
    base = record (c.subclass.base) { in_flight = (c.subclass.in_flight + 1) % 2 ^ 32 };
  }

  -- OnTimeout handles the window before it calls Consumer::OnTimeout with these.
  unfoldable pub pcon_virtuals : Virtuals pf (PconState pf.doubles)
  unfolding pcon_next_packet pcon_will_send
  pcon_virtuals = record {
    before_send = pcon_will_send;
    before_timeout = λ c. c.subclass;
    next_packet = pcon_next_packet;
  }

  -- "Set highest received Data to sequence number"; the number is a uint64_t.
  unfoldable pub note_high_data : ℕ → PconState pf.doubles → PconState pf.doubles
  note_high_data s w = record w {
    high_data = if ltb w.high_data s then s % 2 ^ 32 else w.high_data;
  }

  -- What a congestion mark, or none, does to the window.
  unfoldable pub react_to_mark :
      ℕ → ℕ → Double → PconState pf.doubles → Result (PconState pf.doubles)
  react_to_mark mark seq clock w =
      let decreased = window_decrease pf.doubles seq clock w in
      let increased = window_increase pf.doubles clock w in
      if ltb 0 mark then (if w.react_to_congestion_marks then decreased else ok w) else increased

  -- `get(-1).toSequenceNumber()`
  unfoldable pub pcon_seq_of_data : Data pf → Result ℕ
  pcon_seq_of_data packet = do
    component ← or_fail (last_component packet.name) out_of_range
    or_fail (to_sequence_number component) malformed

  unfoldable pub pcon_on_data : ℤ → Double → Data pf → PconConsumer → Result PconConsumer
  unfolding note_high_data react_to_mark pcon_seq_of_data pcon_virtuals
  pcon_on_data now clock packet c = do
    c' ← on_data pf now packet c
    s ← pcon_seq_of_data packet
    w ← react_to_mark packet.congestion_mark c'.seq clock (note_high_data s (c'.subclass))
    ok (schedule_next_packet pf pcon_virtuals now (record c' { subclass = landed w }))

  unfoldable pub pcon_on_timeout : ℕ → ℤ → Double → PconConsumer → Result PconConsumer
  unfolding pcon_virtuals
  pcon_on_timeout s now clock c = do
    w ← window_decrease pf.doubles c.seq clock (c.subclass)
    ok (on_timeout pf pcon_virtuals s now (record c { subclass = landed w }))
