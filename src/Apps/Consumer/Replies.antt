-- ===== src/Apps/Consumer/Replies.antt =====
-- apps/ndn-consumer.cpp, OnData: what a reply does, and which reply it takes it for.
use ndn_sim.Prelude.{
  ℕ, ◌%◌, ◌^◌, ◌≡◌, refl, List, [], ◌∷◌, ◌++◌, Option, none, arith, ok, if◌then◌else◌, true, false,
  ltb, ◌==◌, All, or_fail, out_of_range, malformed, ◌>>=◌,
}
use ndn_sim.Prelude.OrderedSet
use ndn_sim.Prelude.Int.{ℤ}
use ndn_sim.Prelude.AssocMap.{lookup, lookup-erase}
use ndn_sim.Rtt.MeanDeviation.{find_sent}
use ndn_sim.Rtt.History.{HaveDistinctSeqs, find_sent-ack_seq}
use ndn_sim.Apps.Names.{last_component, before_last-append, before_last_pair}
use ndn_sim.Apps.Platform.{Platform}
use ndn_sim.Apps.Consumer.{by_number, Consumer, Data, seq_of_data, on_data, receive_seq, or_zero}

has_above :
    (s : ℕ) (xs : List ℕ) → All (λ y. ltb s y ≡ true) xs → OrderedSet.has by_number s xs ≡ false
unfolding OrderedSet.has
has_above s [] a = refl
has_above s (x ∷ xs) a = ground (arith, a, has_above s xs a.1)

has-erase :
    (s k : ℕ) (xs : List ℕ)
    → OrderedSet.IsSorted by_number xs
    → OrderedSet.has by_number k (OrderedSet.erase by_number s xs)
      ≡ (if s == k then false else OrderedSet.has by_number k xs)
unfolding OrderedSet.has OrderedSet.erase
has-erase s k [] sorted = ground arith
has-erase s k (x ∷ xs) sorted = ground (arith, has-erase s k xs sorted.1, has_above x xs sorted.0)

module _ (pf : Platform) {X : Type 0} where
  open (pf.timeouts) use {find}

  -- An application that runs takes a reply for sequence number `s` out of its timeouts, its delays,
  -- its counts of retransmissions, the numbers it is to send again and the history of its estimator,
  -- and leaves the other numbers in each of these as they are. The set of numbers is sorted and
  -- no two records of the history have one number.
  pub on_data_forgets :
      (now : ℤ) (packet : Data pf) (s : ℕ) (c : Consumer pf X)
      → OrderedSet.IsSorted by_number c.retx_seqs
      → HaveDistinctSeqs c.rtt.history
      → c.active ≡ true
      → seq_of_data pf packet ≡ ok s
      → (c' : Consumer pf X) × (on_data pf now packet c ≡ ok c')
        × ((k : ℕ)
            → (find k c'.seq_timeouts ≡ (if s == k then none else find k c.seq_timeouts))
              × (find k c'.seq_full_delay ≡ (if s == k then none else find k c.seq_full_delay))
              × (find k c'.seq_last_delay ≡ (if s == k then none else find k c.seq_last_delay))
              × (lookup k c'.seq_retx_counts
                  ≡ (if s == k then none else lookup k c.seq_retx_counts))
              × (OrderedSet.has by_number k c'.retx_seqs
                  ≡ (if s == k then false else OrderedSet.has by_number k c.retx_seqs))
              × (find_sent k c'.rtt.history ≡ (if s == k then none else find_sent k c.rtt.history)))
  unfolding on_data receive_seq
  on_data_forgets now packet s c sorted distinct a e = (
    receive_seq pf s (or_zero packet.hop_count) now c,
    ground (arith, a, e),
    λ k. (
      pf.timeouts.find-erase k s c.seq_timeouts,
      pf.timeouts.find-erase k s c.seq_full_delay,
      pf.timeouts.find-erase k s c.seq_last_delay,
      lookup-erase s k c.seq_retx_counts,
      has-erase s k c.retx_seqs sorted,
      find_sent-ack_seq pf.doubles s now c.rtt k distinct,
    ),
  )

module _ (pf : Platform) where
  open (pf.names) use {Component, from_sequence_number, to_sequence_number}

  -- For Data under a prefix and a sequence number, which is the name of an Interest, and the name
  -- under which the producer answers, OnData reads the last component of the prefix, or throws
  -- where there is none, or where it is no number. The sequence number, cut to 32 bits, is what it
  -- reads where the name has one more component.
  pub seq_of_data_prefix :
      (prefix : List Component) (s : ℕ) (more : Component) (hops : Option ℕ) (mark : ℕ)
      → (seq_of_data pf (record {
        name = prefix ++ from_sequence_number s ∷ [];
        hop_count = hops;
        congestion_mark = mark;
      })
          ≡ (or_fail (last_component prefix) out_of_range >>= λ component.
              or_fail (to_sequence_number component) malformed >>= λ n. ok (n % 2 ^ 32)))
        × (seq_of_data pf (record {
          name = prefix ++ from_sequence_number s ∷ more ∷ [];
          hop_count = hops;
          congestion_mark = mark;
        })
            ≡ ok (s % 2 ^ 32))
  unfolding seq_of_data
  seq_of_data_prefix prefix s more hops mark = (
    rw (before_last-append prefix (from_sequence_number s)) refl,
    rw (before_last_pair prefix (from_sequence_number s) more, pf.names.to_from s) refl,
  )
