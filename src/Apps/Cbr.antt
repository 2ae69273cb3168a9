-- ===== src/Apps/Cbr.antt =====
-- apps/ndn-consumer-cbr.hpp and .cpp: the consumer that sends at a constant or random rate.
-- `random` is the value that the random variable gives next, if there is one.
use ndn_sim.Prelude.{Bool, false, Option, none, some, if◌then◌else◌}
use ndn_sim.Prelude.Int.{ℤ, ◌+ℤ◌}
use ndn_sim.Rtt.MeanDeviation.{Doubles}
use ndn_sim.Apps.Platform.{Platform}
use ndn_sim.Apps.Consumer.{Consumer, Virtuals}

pub record CbrState (d : Doubles) : Type 0 where
  pub frequency : d.Double
  pub first_time : Bool
  pub random : Option d.Double

module _ (pf : Platform) where
  open (pf.doubles) use {Double, div, decimal, from_seconds}

  -- the time between two packets
  unfoldable pub interval : CbrState pf.doubles → ℤ
  interval s = elim s.random [
    | none ↦ from_seconds (div (decimal 1 0) s.frequency)
    | some value ↦ from_seconds value
  ]

  -- ConsumerCbr::ScheduleNextPacket
  unfoldable pub cbr_next_packet :
      ℤ → Consumer pf (CbrState pf.doubles) → CbrState pf.doubles × Option ℤ
  unfolding interval
  cbr_next_packet now c =
      let s : CbrState pf.doubles = c.subclass in
      let later : CbrState pf.doubles × Option ℤ = elim c.send_event [
        | some due ↦ (s, some due)
        | none ↦ (s, some (now +ℤ interval s))
      ] in
      if s.first_time then (record s { first_time = false }, some now) else later

  unfoldable pub cbr_virtuals : Virtuals pf (CbrState pf.doubles)
  unfolding cbr_next_packet
  cbr_virtuals = record {
    before_send = λ c. c.subclass;
    before_timeout = λ c. c.subclass;
    next_packet = cbr_next_packet;
  }
