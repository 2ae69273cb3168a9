-- ===== src/Apps/Batches.antt =====
-- apps/ndn-consumer-batches.hpp and .cpp: the consumer that requests batches at given times. Its own
-- state is m_initial.
use ndn_sim.Prelude.{
  ℕ, ◌+◌, ◌%◌, ◌^◌, ◌<◌, ◌≡◌, Bool, true, false, List, [], ◌∷◌, map, Option, none, some, arith,
  if◌then◌else◌, Result, ok, ◌>>=◌,
}
use ndn_sim.Prelude.Int.{ℤ, ◌+ℤ◌}
use ndn_sim.Rtt.{clear_sent}
use ndn_sim.Rtt.MeanDeviation.{retransmit_timeout}
use ndn_sim.Apps.Platform.{Platform}
use ndn_sim.Apps.Consumer.{Consumer, Virtuals, schedule_next_packet, start_application}

module _ (pf : Platform) where
  abbrev pub BatchConsumer : Type 0
  BatchConsumer = Consumer pf Bool

  -- ConsumerBatches::ScheduleNextPacket
  unfoldable pub batch_next_packet : ℤ → BatchConsumer → Bool × Option ℤ
  batch_next_packet now c = elim c.send_event [
    | some due ↦ (c.subclass, some due)
    | none ↦ (false, some (if c.subclass then now else now +ℤ retransmit_timeout pf.doubles c.rtt))
  ]

  unfoldable pub batch_virtuals : Virtuals pf Bool
  unfolding batch_next_packet
  batch_virtuals = record {
    before_send = λ c. c.subclass;
    before_timeout = λ c. c.subclass;
    next_packet = batch_next_packet;
  }

  unfoldable pub add_batch : ℤ → ℕ → BatchConsumer → BatchConsumer
  unfolding batch_virtuals
  add_batch now amount c = schedule_next_packet pf batch_virtuals now (record c {
    seq_max = (c.seq_max + amount) % 2 ^ 32;
    rtt = record (c.rtt) { base = clear_sent (c.rtt.base) };
    subclass = true;
  })

  -- ConsumerBatches::StartApplication, with the times at which the batches become due.
  unfoldable pub start_batches :
      ℤ → List (ℤ × ℕ) → BatchConsumer → Result (BatchConsumer × List (ℤ × ℕ))
  unfolding batch_virtuals
  start_batches now batches c = start_application pf batch_virtuals now c >>= λ c'.
      ok (c', map (λ (b : ℤ × ℕ). (now +ℤ b.0, b.1)) batches)

  -- The batches that become due, in order.
  pub add_batches : List (ℤ × ℕ) → BatchConsumer → BatchConsumer
  add_batches [] c = c
  add_batches (b ∷ batches) c = add_batches batches (add_batch b.0 b.1 c)

  pub sum : List (ℤ × ℕ) → ℕ
  sum [] = 0
  sum (b ∷ batches) = b.1 + sum batches

  -- The batches add up in the bound on the sequence numbers, modulo 2 ^ 32, whatever is pending.
  seq_max-add_batches :
      (batches : List (ℤ × ℕ)) (c : BatchConsumer)
      → c.seq_max < 2 ^ 32
      → (add_batches batches c).seq_max ≡ (c.seq_max + sum batches) % 2 ^ 32
  unfolding add_batches sum add_batch schedule_next_packet
  seq_max-add_batches [] c h = omega arith
  seq_max-add_batches (b ∷ batches) c h =
      omega (arith, seq_max-add_batches batches (add_batch b.0 b.1 c) (omega arith))
