-- ===== src/Apps/Consumer/Retransmission.antt =====
-- apps/ndn-consumer.cpp, CheckRetxTimeout: what a check of the timeouts leaves.
use ndn_sim.Prelude.{
  ℕ, zero, suc, ◌≤◌, ◌≡◌, refl, ap, ◌∙◌, true, false, ◌||◌, Bool, List, [], ◌∷◌, Option, none, some,
  ok, arith, ◌==◌, if◌then◌else◌, Bool-cases, Option-cases, inl, inr, Bool,
}
use ndn_sim.Prelude.Int.{ℤ, ◌+ℤ◌, ◌≤ℤ◌, leb_ℤ, +ℤ_parts}
use ndn_sim.Prelude.OrderedSet
use ndn_sim.Rtt.MeanDeviation.{retransmit_timeout}
use ndn_sim.Apps.Timeouts.{SeqTimeout}
use ndn_sim.Apps.Platform.{Platform}
use ndn_sim.Apps.Consumer.{
  by_number, Consumer, Virtuals, on_timeout, schedule_next_packet, expire, check_retx_timeout,
}

has-insert_number :
    (k s : ℕ) (xs : List ℕ)
    → OrderedSet.has by_number k (OrderedSet.insert by_number s xs)
      ≡ ((s == k) || OrderedSet.has by_number k xs)
unfolding OrderedSet.has OrderedSet.insert
has-insert_number k s [] = ground arith
has-insert_number k s (x ∷ xs) = ground (arith, has-insert_number k s xs)

later_kept : (a b r now : ℤ) → a ≤ℤ b → leb_ℤ (a +ℤ r) now ≡ false → leb_ℤ (b +ℤ r) now ≡ false
later_kept a b r now h k = ground (arith, +ℤ_parts a r, +ℤ_parts b r)

-- What the check leaves of an entry: nothing if it is overdue.
abbrev pub unexpired : ℤ → ℤ → Option SeqTimeout → Option SeqTimeout
unexpired rto now none = none
unexpired rto now (some entry) = if leb_ℤ (entry.time +ℤ rto) now then none else some entry

abbrev pub overdue : ℤ → ℤ → Option SeqTimeout → Bool
overdue rto now none = false
overdue rto now (some entry) = leb_ℤ (entry.time +ℤ rto) now

-- The overdue entries of a consumer are gone and the others are there, the queue for retransmission
-- holds the overdue numbers and those that it held, and no sequence number is used up.
pub record IsChecked (pf : Platform) {X : Type 0} (rto now : ℤ) (c c' : Consumer pf X)
    : Type 0 where
  pub kept :
      (k : ℕ)
      → pf.timeouts.find k c'.seq_timeouts ≡ unexpired rto now (pf.timeouts.find k c.seq_timeouts)
  pub queued :
      (k : ℕ)
      → OrderedSet.has by_number k c'.retx_seqs ≡ (
          overdue rto now (pf.timeouts.find k c.seq_timeouts)
          || OrderedSet.has by_number k c.retx_seqs)
  pub same_seq : c'.seq ≡ c.seq

module _ (pf : Platform) {X : Type 0} (v : Virtuals pf X) (rto now : ℤ) where
  open (pf.timeouts) use {Container, find, first, size, erase}

  -- the state in which the loop goes on after an overdue entry
  abbrev expired : ℕ → Consumer pf X → Consumer pf X
  expired s c = on_timeout pf v s now (record c { seq_timeouts = erase s c.seq_timeouts })

  timed_out_timeouts :
      (s : ℕ) (c : Consumer pf X) → (expired s c).seq_timeouts ≡ erase s c.seq_timeouts
  unfolding on_timeout schedule_next_packet
  timed_out_timeouts s c = refl

  timed_out_retx :
      (s : ℕ) (c : Consumer pf X)
      → (expired s c).retx_seqs ≡ OrderedSet.insert by_number s c.retx_seqs
  unfolding on_timeout schedule_next_packet
  timed_out_retx s c = refl

  timed_out_seq : (s : ℕ) (c : Consumer pf X) → (expired s c).seq ≡ c.seq
  unfolding on_timeout schedule_next_packet
  timed_out_seq s c = refl

  IsChecked-same :
      (c : Consumer pf X)
      → ((k : ℕ) → overdue rto now (find k c.seq_timeouts) ≡ false)
      → IsChecked pf rto now c c
  IsChecked-same c h = record {
    kept = λ k. ground (arith, h k);
    queued = λ k. ground (arith, h k);
    same_seq = refl;
  }

  IsChecked-step :
      (entry : SeqTimeout) (c c' : Consumer pf X)
      → first c.seq_timeouts ≡ some entry
      → leb_ℤ (entry.time +ℤ rto) now ≡ true
      → IsChecked pf rto now (expired entry.seq c) c'
      → IsChecked pf rto now c c'
  IsChecked-step entry c c' f o h = record {
    kept = λ k. ground (
      arith,
      h.kept k,
      timed_out_timeouts entry.seq c,
      pf.timeouts.find-erase k entry.seq c.seq_timeouts,
      pf.timeouts.first_some c.seq_timeouts entry f,
    );
    queued = λ k. ground (
      arith,
      h.queued k,
      timed_out_timeouts entry.seq c,
      timed_out_retx entry.seq c,
      has-insert_number k entry.seq c.retx_seqs,
      pf.timeouts.find-erase k entry.seq c.seq_timeouts,
      pf.timeouts.first_some c.seq_timeouts entry f,
    );
    same_seq = h.same_seq ∙ timed_out_seq entry.seq c;
  }

  nothing_left : (c : Consumer pf X) → first c.seq_timeouts ≡ none → IsChecked pf rto now c c
  nothing_left c f = IsChecked-same c λ k. ground (arith, pf.timeouts.first_none c.seq_timeouts f k)

  nothing_late :
      (entry : SeqTimeout) (c : Consumer pf X)
      → first c.seq_timeouts ≡ some entry
      → leb_ℤ (entry.time +ℤ rto) now ≡ false
      → IsChecked pf rto now c c
  nothing_late entry c f o = IsChecked-same c λ k. elim (Option-cases (find k c.seq_timeouts)) [
    | inl e ↦ rw e refl
    | inr (g, e) ↦ rw e (
        later_kept entry.time g.time rto now (pf.timeouts.first_least c.seq_timeouts entry f k g e)
          o)
  ]

  expire_lem :
      (fuel : ℕ) (c : Consumer pf X)
      → size c.seq_timeouts ≤ fuel
      → (c' : Consumer pf X) × (expire pf v fuel rto now c ≡ ok c') × IsChecked pf rto now c c'
  unfolding expire
  expire_lem zero c h = elim (Option-cases (first c.seq_timeouts)) [
    | inl f ↦ (c, rw (expire, f) refl, nothing_left c f)
    | inr (entry, f) ↦ absurd (
        omega (
          arith,
          pf.timeouts.size-erase c.seq_timeouts entry.seq entry
              (pf.timeouts.first_some c.seq_timeouts entry f),
        ))
  ]
  expire_lem (suc fuel) c h = elim (Option-cases (first c.seq_timeouts)) [
    | inl f ↦ (c, rw (expire, f) refl, nothing_left c f)
    | inr (entry, f) ↦ elim (Bool-cases (leb_ℤ (entry.time +ℤ rto) now)) [
      | inr o ↦ (c, rw (expire, f, o) refl, nothing_late entry c f o)
      | inl o ↦
          let (c', e, w) = expire_lem fuel (expired entry.seq c) (
            omega (
              arith,
              ap size (timed_out_timeouts entry.seq c),
              pf.timeouts.size-erase c.seq_timeouts entry.seq entry
                  (pf.timeouts.first_some c.seq_timeouts entry f),
            )) in
          (c', rw (expire, f, o) e, IsChecked-step entry c c' f o w)
    ]
  ]

-- CheckRetxTimeout ends. No entry older than the timeout is left and every other entry stays, the
-- queue for retransmission gains exactly the sequence numbers that timed out, and the next check is
-- due after the retransmission timer.
pub check_retx_timeout_lem :
    (pf : Platform) {X : Type 0} (v : Virtuals pf X) (now : ℤ) (c : Consumer pf X)
    → (c' : Consumer pf X) × (check_retx_timeout pf v now c ≡ ok c')
      × IsChecked pf (retransmit_timeout pf.doubles c.rtt) now c c'
      × (c'.retx_event ≡ some (now +ℤ c'.retx_timer))
unfolding check_retx_timeout
check_retx_timeout_lem pf v now c =
    let (c', e, w) =
      expire_lem pf v (retransmit_timeout pf.doubles c.rtt) now (pf.timeouts.size c.seq_timeouts) c
        (omega arith) in
    (
      record c' { retx_event = some (now +ℤ c'.retx_timer) },
      rw e refl,
      record { kept = w.kept; queued = w.queued; same_seq = w.same_seq },
      refl,
    )
