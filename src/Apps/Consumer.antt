-- ===== src/Apps/Consumer.antt =====
-- apps/ndn-consumer.hpp and .cpp: the base of the applications that request numbered data.
-- A subclass has its own state and three virtual functions: what it does before a packet is sent and
-- before a timeout is handled, and when the next packet is due. An event is the time at which it is
-- due; `none` says that it is not running. `now` is Simulator::Now() of a call. The Interests sent
-- and the values traced are logs. An Interest is its name: nonce and lifetime are left out.
pub mod Retransmission
pub mod Replies
pub mod Tracking
use ndn_sim.Prelude.{
  ℕ, zero, suc, ◌+◌, ◌-◌, ◌%◌, ◌^◌, ◌≡◌, Bool, true, false, not, ◌&&◌, List, [], ◌∷◌, ◌++◌, Option,
  none, some, leb, ltb, ◌==◌, if◌then◌else◌, Result, ok, err, out_of_range, malformed, no_fuel,
  assertion, guard, ◌>>◌, or_fail, ◌>>=◌, arith,
}
use ndn_sim.Prelude.Int.{ℤ, pos, ◌+ℤ◌, ◌-ℤ◌, leb_ℤ}
use ndn_sim.Prelude.OrderedSet
use ndn_sim.Prelude.OrderedSet.{StrictOrder}
use ndn_sim.Prelude.AssocMap
use ndn_sim.Prelude.AssocMap.{lookup}
use ndn_sim.Rtt.{increase_multiplier}
use ndn_sim.Rtt.MeanDeviation.{RttMeanDeviation, sent_seq, ack_seq, retransmit_timeout}
use ndn_sim.Apps.Timeouts.{SeqTimeout}
use ndn_sim.Apps.Names.{before_last}
use ndn_sim.Apps.Platform.{Platform}

-- The order of std::set<uint32_t>.
pub ltb_irrefl : (a : ℕ) → ltb a a ≡ false
ltb_irrefl a = ground arith

pub ltb_trans : (a b c : ℕ) → ltb a b ≡ true → ltb b c ≡ true → ltb a c ≡ true
ltb_trans a b c h k = ground arith

abbrev pub by_number : StrictOrder ℕ
by_number = record { lt = ltb; irrefl = ltb_irrefl; trans = ltb_trans }

-- The values of the two trace sources: sequence number, delay, (retransmissions) and hops.
pub data Delay : Type 0 where
  last_retransmitted_interest_data_delay : ℕ → ℤ → ℕ → Delay
  first_interest_data_delay : ℕ → ℤ → ℕ → ℕ → Delay

-- The greatest uint32_t: no sequence number, or no bound on them.
abbrev pub uint32_max : ℕ
uint32_max = 2 ^ 32 - 1

abbrev pub or_zero : Option ℕ → ℕ
or_zero none = 0
or_zero (some n) = n

module _ (pf : Platform) where
  open (pf.timeouts) use {Container, empty, insert, erase, find, first, size}
  open (pf.names) use {Component, from_sequence_number, to_sequence_number}

  pub record Consumer (X : Type 0) : Type 0 where
    pub active : Bool
    pub seq : ℕ
    pub seq_max : ℕ
    pub send_event : Option ℤ
    pub retx_timer : ℤ
    pub retx_event : Option ℤ
    pub rtt : RttMeanDeviation pf.doubles
    pub interest_name : List Component
    pub retx_seqs : List ℕ
    pub seq_timeouts : Container
    pub seq_last_delay : Container
    pub seq_full_delay : Container
    pub seq_retx_counts : List (ℕ × ℕ)
    pub subclass : X
    pub transmitted_interests : List (List Component)
    pub delays : List Delay

  -- The virtual functions. A subclass changes its own state and the event, and nothing else.
  pub record Virtuals (X : Type 0) : Type 0 where
    pub before_send : Consumer X → X
    pub before_timeout : Consumer X → X
    pub next_packet : ℤ → Consumer X → X × Option ℤ

  pub record Data : Type 0 where
    pub name : List Component
    pub hop_count : Option ℕ
    pub congestion_mark : ℕ

  module _ {X : Type 0} where
    -- The constructor, with the estimator that it creates, the Prefix attribute and the state of
    -- the subclass. The attribute RetxTimer is set afterwards.
    unfoldable pub new_consumer : RttMeanDeviation pf.doubles → List Component → X → Consumer X
    new_consumer rtt prefix x = record {
      active = false;
      seq = 0;
      seq_max = 0;
      send_event = none;
      retx_timer = pos 0;
      retx_event = none;
      rtt = rtt;
      interest_name = prefix;
      retx_seqs = [];
      seq_timeouts = empty;
      seq_last_delay = empty;
      seq_full_delay = empty;
      seq_retx_counts = [];
      subclass = x;
      transmitted_interests = [];
      delays = [];
    }

    unfoldable pub set_retx_timer : ℤ → ℤ → Consumer X → Consumer X
    set_retx_timer now timer c = record c { retx_timer = timer; retx_event = some (now +ℤ timer) }

    unfoldable pub stop_application : Consumer X → Consumer X
    stop_application c = record c { send_event = none; active = false }

    -- Consumer::WillSendOutInterest
    unfoldable pub will_send_out_interest : ℕ → ℤ → Consumer X → Consumer X
    will_send_out_interest s now c =
        let entry : SeqTimeout = record { seq = s; time = now } in
        record c {
          seq_timeouts = insert entry c.seq_timeouts;
          seq_full_delay = insert entry c.seq_full_delay;
          seq_last_delay = insert entry (erase s c.seq_last_delay);
          seq_retx_counts =
              AssocMap.insert s ((or_zero (lookup s c.seq_retx_counts) + 1) % 2 ^ 32)
                c.seq_retx_counts;
          rtt = sent_seq pf.doubles s 1 now c.rtt;
        }

    -- The choice of SendPacket: a sequence number to retransmit, or else the next new one.
    unfoldable pub take_retx : Consumer X → ℕ × Consumer X
    take_retx c = elim c.retx_seqs [
      | [] ↦ (uint32_max, c)
      | s ∷ rest ↦ (s, record c { retx_seqs = rest })
    ]

    unfoldable pub next_seq : Consumer X → Option ℕ × Consumer X
    unfolding take_retx
    next_seq c =
        let (s, c') = take_retx c in
        let fresh : Consumer X = record c' { seq = (c'.seq + 1) % 2 ^ 32 } in
        if not (s == uint32_max)
        then (some s, c')
        else (if not (c'.seq_max == uint32_max) && leb c'.seq_max c'.seq
            then (none, c')
            else (some c'.seq, fresh))

  module _ {X : Type 0} (v : Virtuals X) where
    unfoldable pub schedule_next_packet : ℤ → Consumer X → Consumer X
    schedule_next_packet now c =
        let (x, event) = v.next_packet now c in record c { subclass = x; send_event = event }

    -- App::StartApplication asserts that the application is not running yet.
    unfoldable pub start_application : ℤ → Consumer X → Result (Consumer X)
    unfolding schedule_next_packet
    start_application now c = do
      guard (not c.active) assertion
      ok (schedule_next_packet now (record c { active = true }))

    -- SendPacket from the choice of the sequence number on.
    unfoldable pub send_seq : ℕ → ℤ → Consumer X → Consumer X
    unfolding will_send_out_interest schedule_next_packet
    send_seq s now c =
        let noted : Consumer X =
          will_send_out_interest s now (record c { subclass = v.before_send c }) in
        schedule_next_packet now (record noted {
          transmitted_interests =
              noted.transmitted_interests ++ (c.interest_name ++ from_sequence_number s ∷ []) ∷ [];
        })

    unfoldable pub send_chosen : ℤ → Option ℕ × Consumer X → Consumer X
    unfolding send_seq
    send_chosen now (none, c) = c
    send_chosen now (some s, c) = send_seq s now c

    unfoldable pub send_packet : ℤ → Consumer X → Consumer X
    unfolding next_seq send_chosen
    send_packet now c = if c.active then send_chosen now (next_seq c) else c

    -- The virtual OnTimeout, which ends with Consumer::OnTimeout.
    unfoldable pub on_timeout : ℕ → ℤ → Consumer X → Consumer X
    unfolding schedule_next_packet
    on_timeout s now c =
        let rtt' : RttMeanDeviation pf.doubles = record (c.rtt) {
          base = increase_multiplier (c.rtt.base);
        } in
        schedule_next_packet now (record c {
          subclass = v.before_timeout c;
          rtt = sent_seq pf.doubles s 1 now rtt';
          retx_seqs = OrderedSet.insert by_number s c.retx_seqs;
        })

    -- The loop of CheckRetxTimeout.
    unfoldable pub expire : ℕ → ℤ → ℤ → Consumer X → Result (Consumer X)
    unfolding on_timeout
    expire zero rto now c = elim (first c.seq_timeouts) [ none ↦ ok c | some _ ↦ err no_fuel ]
    expire (suc fuel) rto now c = elim (first c.seq_timeouts) [
      | none ↦ ok c
      | some entry ↦
          let rest = expire fuel rto now (
            on_timeout entry.seq now
              (record c { seq_timeouts = erase entry.seq c.seq_timeouts })) in
          if leb_ℤ (entry.time +ℤ rto) now then rest else ok c
    ]

    -- Each round takes an entry out of the container, so its size is fuel enough.
    unfoldable pub check_retx_timeout : ℤ → Consumer X → Result (Consumer X)
    unfolding expire retransmit_timeout
    check_retx_timeout now c =
        expire (size c.seq_timeouts) (retransmit_timeout pf.doubles c.rtt) now c >>= λ c'.
        ok (record c' { retx_event = some (now +ℤ c'.retx_timer) })

  -- `at(-2).toSequenceNumber()`, cut to 32 bits; either call may throw.
  unfoldable pub seq_of_data : Data → Result ℕ
  seq_of_data packet = do
    component ← or_fail (before_last packet.name) out_of_range
    s ← or_fail (to_sequence_number component) malformed
    ok (s % 2 ^ 32)

  module _ {X : Type 0} where
    -- The traces of OnData.
    unfoldable pub trace_delays : ℕ → ℕ → ℤ → Consumer X → List Delay
    trace_delays s hops now c =
        let last : List Delay = elim (find s c.seq_last_delay) [
          | none ↦ []
          | some entry ↦ last_retransmitted_interest_data_delay s (now -ℤ entry.time) hops ∷ []
        ] in
        let full : List Delay = elim (find s c.seq_full_delay) [
          | none ↦ []
          | some entry ↦
              first_interest_data_delay s (now -ℤ entry.time) (or_zero (lookup s c.seq_retx_counts))
                hops
              ∷ []
        ] in
        last ++ full

    -- OnData, once the sequence number is read.
    unfoldable pub receive_seq : ℕ → ℕ → ℤ → Consumer X → Consumer X
    unfolding trace_delays
    receive_seq s hops now c = record c {
      delays = c.delays ++ trace_delays s hops now c;
      seq_retx_counts = AssocMap.erase s c.seq_retx_counts;
      seq_full_delay = erase s c.seq_full_delay;
      seq_last_delay = erase s c.seq_last_delay;
      seq_timeouts = erase s c.seq_timeouts;
      retx_seqs = OrderedSet.erase by_number s c.retx_seqs;
      rtt = (ack_seq pf.doubles s now c.rtt).1;
    }

    unfoldable pub on_data : ℤ → Data → Consumer X → Result (Consumer X)
    unfolding receive_seq seq_of_data
    on_data now packet c =
        if c.active
        then (seq_of_data packet >>= λ s. ok (receive_seq s (or_zero packet.hop_count) now c))
        else ok c
