-- ===== src/Rtt/History.antt =====
-- utils/ndn-rtt-mean-deviation.cpp: which acknowledgements give a sample of the round-trip time.
use ndn_sim.Prelude.{
  ℕ, ◌≡◌, ◌≢◌, refl, true, false, List, [], ◌∷◌, ◌++◌, none, some, arith, ◌==◌, All, Bool-cases,
  Option-cases, inl, inr, if◌then◌else◌,
}
use ndn_sim.Prelude.Int.{ℤ, pos, ◌-ℤ◌}
use ndn_sim.Rtt.{RttHistory, rtt_history}
use ndn_sim.Rtt.MeanDeviation.{
  Doubles, RttMeanDeviation, mark_sent, sent_seq, find_sent, erase_sent, ack_seq,
}

-- No two records have the same sequence number.
abbrev pub HaveDistinctSeqs : List RttHistory → Type 0
HaveDistinctSeqs [] = Unit
HaveDistinctSeqs (h ∷ hs) = All (λ g. g.seq ≢ h.seq) hs × HaveDistinctSeqs hs

mark_sent_new :
    (seq : ℕ) (hs : List RttHistory) → find_sent seq hs ≡ none → mark_sent seq hs ≡ (hs, false)
unfolding find_sent mark_sent
mark_sent_new seq [] e = refl
mark_sent_new seq (h ∷ hs) e = ground (arith, mark_sent_new seq hs)

find-mark_sent :
    (seq : ℕ) (hs : List RttHistory) (h : RttHistory)
    → find_sent seq hs ≡ some h
    → ((mark_sent seq hs).1 ≡ true)
      × (find_sent seq (mark_sent seq hs).0 ≡ some (record h { retx = true }))
      × (erase_sent seq (mark_sent seq hs).0 ≡ erase_sent seq hs)
unfolding find_sent mark_sent erase_sent
find-mark_sent seq [] h e = cc
find-mark_sent seq (x ∷ hs) h e = ground (arith, find-mark_sent seq hs h)

find_last :
    (seq size : ℕ) (now : ℤ) (hs : List RttHistory)
    → find_sent seq hs ≡ none
    → (find_sent seq (hs ++ rtt_history seq size now ∷ []) ≡ some (rtt_history seq size now))
      × (erase_sent seq (hs ++ rtt_history seq size now ∷ []) ≡ hs)
unfolding find_sent erase_sent
find_last seq size now [] e = ground arith
find_last seq size now (h ∷ hs) e = ground (arith, find_last seq size now hs)

All-mark_sent :
    (k seq : ℕ) (hs : List RttHistory)
    → All (λ g. g.seq ≢ k) hs
    → All (λ g. g.seq ≢ k) (mark_sent seq hs).0
unfolding mark_sent
All-mark_sent k seq [] a = tt
All-mark_sent k seq (h ∷ hs) a = elim (Bool-cases (seq == h.seq)) [
  | inl e ↦ rw e (a.0, a.1)
  | inr e ↦ rw e (a.0, All-mark_sent k seq hs a.1)
]

mark_sent-HaveDistinctSeqs :
    (seq : ℕ) (hs : List RttHistory) → HaveDistinctSeqs hs → HaveDistinctSeqs (mark_sent seq hs).0
unfolding mark_sent
mark_sent-HaveDistinctSeqs seq [] v = tt
mark_sent-HaveDistinctSeqs seq (h ∷ hs) v = elim (Bool-cases (seq == h.seq)) [
  | inl e ↦ rw e (v.0, v.1)
  | inr e ↦ rw e (All-mark_sent h.seq seq hs v.0, mark_sent-HaveDistinctSeqs seq hs v.1)
]

All-append_record :
    (k seq size : ℕ) (now : ℤ) (hs : List RttHistory)
    → seq ≢ k
    → All (λ g. g.seq ≢ k) hs
    → All (λ g. g.seq ≢ k) (hs ++ rtt_history seq size now ∷ [])
All-append_record k seq size now [] n a = (n, tt)
All-append_record k seq size now (h ∷ hs) n a = (a.0, All-append_record k seq size now hs n a.1)

HaveDistinctSeqs-append :
    (seq size : ℕ) (now : ℤ) (hs : List RttHistory)
    → find_sent seq hs ≡ none
    → HaveDistinctSeqs hs
    → HaveDistinctSeqs (hs ++ rtt_history seq size now ∷ [])
unfolding find_sent
HaveDistinctSeqs-append seq size now [] e v = (tt, tt)
HaveDistinctSeqs-append seq size now (h ∷ hs) e v = (
  All-append_record h.seq seq size now hs (ground arith) v.0,
  HaveDistinctSeqs-append seq size now hs (ground arith) v.1,
)

All-erase_sent :
    (k seq : ℕ) (hs : List RttHistory)
    → All (λ g. g.seq ≢ k) hs
    → All (λ g. g.seq ≢ k) (erase_sent seq hs)
unfolding erase_sent
All-erase_sent k seq [] a = tt
All-erase_sent k seq (h ∷ hs) a = elim (Bool-cases (seq == h.seq)) [
  | inl e ↦ rw e a.1
  | inr e ↦ rw e (a.0, All-erase_sent k seq hs a.1)
]

erase_sent-HaveDistinctSeqs :
    (seq : ℕ) (hs : List RttHistory) → HaveDistinctSeqs hs → HaveDistinctSeqs (erase_sent seq hs)
unfolding erase_sent
erase_sent-HaveDistinctSeqs seq [] v = tt
erase_sent-HaveDistinctSeqs seq (h ∷ hs) v = elim (Bool-cases (seq == h.seq)) [
  | inl e ↦ rw e v.1
  | inr e ↦ rw e (All-erase_sent h.seq seq hs v.0, erase_sent-HaveDistinctSeqs seq hs v.1)
]

find_sent-All :
    (seq : ℕ) (hs : List RttHistory) → All (λ g. g.seq ≢ seq) hs → find_sent seq hs ≡ none
unfolding find_sent
find_sent-All seq [] a = refl
find_sent-All seq (h ∷ hs) a = ground (arith, a, find_sent-All seq hs a.1)

find_sent-erase_sent :
    (seq k : ℕ) (hs : List RttHistory)
    → HaveDistinctSeqs hs
    → find_sent k (erase_sent seq hs) ≡ (if seq == k then none else find_sent k hs)
unfolding find_sent erase_sent
find_sent-erase_sent seq k [] v = ground arith
find_sent-erase_sent seq k (h ∷ hs) v =
    ground (arith, find_sent-erase_sent seq k hs v.1, find_sent-All h.seq hs v.0)

module _ (d : Doubles) where
  -- A sequence number without a record, which is sent and acknowledged, gives its delay as the
  -- sample, resets the multiplier, and leaves the history as it was before.
  pub ack_seq-sent_seq_new :
      (seq size : ℕ) (now later : ℤ) (r : RttMeanDeviation d)
      → find_sent seq r.history ≡ none
      → let s = ack_seq d seq later (sent_seq d seq size now r) in
        (s.0 ≡ later -ℤ now) × (s.1.multiplier ≡ 1) × (s.1.history ≡ r.history)
  unfolding ack_seq sent_seq
  ack_seq-sent_seq_new seq size now later r e =
      ground (arith, mark_sent_new seq r.history e, find_last seq size now r.history e)

  -- Karn's rule: the acknowledgement of a sequence number that was sent more than once gives no
  -- sample, and changes neither the estimate nor the multiplier; its record is dropped.
  pub ack_seq-sent_seq_again :
      (seq size : ℕ) (now later : ℤ) (r : RttMeanDeviation d) (h : RttHistory)
      → find_sent seq r.history ≡ some h
      → let s = ack_seq d seq later (sent_seq d seq size now r) in
        (s.0 ≡ pos 0)
        × (s.1 ≡ record r { base = record (r.base) { history = erase_sent seq r.history } })
  unfolding ack_seq sent_seq
  ack_seq-sent_seq_again seq size now later r h e = ground (arith, find-mark_sent seq r.history h e)

  sent_seq-HaveDistinctSeqs :
      (seq size : ℕ) (now : ℤ) (r : RttMeanDeviation d)
      → HaveDistinctSeqs r.history
      → HaveDistinctSeqs (sent_seq d seq size now r).history
  unfolding sent_seq
  sent_seq-HaveDistinctSeqs seq size now r v = elim (Option-cases (find_sent seq r.history)) [
    | inl e ↦
        rw (mark_sent_new seq r.history e) (HaveDistinctSeqs-append seq size now r.history e v)
    | inr (h, e) ↦
        rw ((find-mark_sent seq r.history h e).0) (mark_sent-HaveDistinctSeqs seq r.history v)
  ]

  ack_seq-HaveDistinctSeqs :
      (seq : ℕ) (now : ℤ) (r : RttMeanDeviation d)
      → HaveDistinctSeqs r.history
      → HaveDistinctSeqs (ack_seq d seq now r).1.history
  unfolding ack_seq
  ack_seq-HaveDistinctSeqs seq now r v = ground (arith, erase_sent-HaveDistinctSeqs seq r.history v)

  -- Where sequence numbers are distinct, an acknowledgement takes out the record of its own.
  pub find_sent-ack_seq :
      (seq : ℕ) (now : ℤ) (r : RttMeanDeviation d) (k : ℕ)
      → HaveDistinctSeqs r.history
      → find_sent k (ack_seq d seq now r).1.history
        ≡ (if seq == k then none else find_sent k r.history)
  unfolding ack_seq
  find_sent-ack_seq seq now r k v = elim (Option-cases (find_sent seq r.history)) [
    | inl e ↦ ground (arith, e)
    | inr (h, e) ↦ ground (arith, e, find_sent-erase_sent seq k r.history v)
  ]

  -- What an application does with its estimator: sequence numbers sent, acknowledged, timed out.
  pub data Use : Type 0 where
    sends acks : ℕ → ℤ → Use

  pub apply_use : Use → RttMeanDeviation d → RttMeanDeviation d
  apply_use (sends seq now) r = sent_seq d seq 1 now r
  apply_use (acks seq now) r = (ack_seq d seq now r).1

  pub apply_uses : List Use → RttMeanDeviation d → RttMeanDeviation d
  apply_uses [] r = r
  apply_uses (u ∷ us) r = apply_uses us (apply_use u r)

  -- However an estimator is used that has no two records of one sequence number, it never gets two.
  pub apply_uses-HaveDistinctSeqs :
      (us : List Use) (r : RttMeanDeviation d)
      → HaveDistinctSeqs r.history
      → HaveDistinctSeqs (apply_uses us r).history
  unfolding apply_uses apply_use
  apply_uses-HaveDistinctSeqs [] r v = v
  apply_uses-HaveDistinctSeqs (sends seq now ∷ us) r v =
      apply_uses-HaveDistinctSeqs us _ (sent_seq-HaveDistinctSeqs seq 1 now r v)
  apply_uses-HaveDistinctSeqs (acks seq now ∷ us) r v =
      apply_uses-HaveDistinctSeqs us _ (ack_seq-HaveDistinctSeqs seq now r v)
