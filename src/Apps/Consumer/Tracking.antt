-- ===== src/Apps/Consumer/Tracking.antt =====
-- apps/ndn-consumer.cpp: the sequence numbers that were sent, over all runs of a consumer.
use ndn_sim.Prelude.{
  ℕ, ◌^◌, ◌<◌, ◌≡◌, ◌≢◌, refl, true, false, ◌||◌, List, [], ◌∷◌, Option, none, some, ok, arith,
  if◌then◌else◌, Bool-cases, Option-cases, inl, inr, ◌⊎◌, Bool, All,
}
use ndn_sim.Prelude.Int.{ℤ}
use ndn_sim.Prelude.OrderedSet
use ndn_sim.Apps.Platform.{Platform}
use ndn_sim.Apps.Consumer.{
  by_number, Consumer, Virtuals, Data, schedule_next_packet, start_application, stop_application,
  will_send_out_interest, take_retx, next_seq, send_seq, send_chosen, send_packet,
  check_retx_timeout, receive_seq, seq_of_data, on_data, or_zero,
}
use ndn_sim.Apps.Consumer.Retransmission.{check_retx_timeout_lem}

has-erase_other :
    (s k : ℕ) (xs : List ℕ)
    → s ≢ k
    → OrderedSet.has by_number k xs ≡ true
    → OrderedSet.has by_number k (OrderedSet.erase by_number s xs) ≡ true
unfolding OrderedSet.has OrderedSet.erase
has-erase_other s k [] n h = h
has-erase_other s k (x ∷ xs) n h = ground (arith, has-erase_other s k xs n)

abbrev is_some {ℓ} : {A : Type ℓ} → Option A → Bool
is_some none = false
is_some (some a) = true

module _ (pf : Platform) {X : Type 0} (v : Virtuals pf X) where
  open (pf.timeouts) use {find}

  -- The calls that the simulator makes, with the sequence numbers received, the last one first.
  pub data Run (c0 : Consumer pf X) : List ℕ → Consumer pf X → Type 0 where
    begins : Run c0 [] c0
    starts :
        {r : List ℕ} {c c' : Consumer pf X} (now : ℤ)
        → Run c0 r c
        → start_application pf v now c ≡ ok c'
        → Run c0 r c'
    stops : {r : List ℕ} {c : Consumer pf X} → Run c0 r c → Run c0 r (stop_application pf c)
    sends :
        {r : List ℕ} {c : Consumer pf X} (now : ℤ) → Run c0 r c → Run c0 r (send_packet pf v now c)
    checks :
        {r : List ℕ} {c c' : Consumer pf X} (now : ℤ)
        → Run c0 r c
        → check_retx_timeout pf v now c ≡ ok c'
        → Run c0 r c'
    receives :
        {r : List ℕ} {c c' : Consumer pf X} (now : ℤ) (packet : Data pf) (s : ℕ)
        → Run c0 r c
        → seq_of_data pf packet ≡ ok s
        → on_data pf now packet c ≡ ok c'
        → Run c0 (s ∷ r) c'

  -- The number waits for its timeout, or to be sent again.
  abbrev pub tracked : ℕ → Consumer pf X → Bool
  tracked k c = is_some (find k c.seq_timeouts) || OrderedSet.has by_number k c.retx_seqs

  take_retx-tracked :
      (c : Consumer pf X) (k : ℕ)
      → tracked k c ≡ true
      → (tracked k (take_retx pf c).1 ≡ true) ⊎ ((take_retx pf c).0 ≡ k)
  unfolding take_retx OrderedSet.has
  take_retx-tracked c k t = ground arith

  take_retx-seq : (c : Consumer pf X) → (take_retx pf c).1.seq ≡ c.seq
  unfolding take_retx
  take_retx-seq c = ground arith

  -- What the choice of the next number does to the number `k`.
  abbrev Chosen : ℕ → Consumer pf X → Option ℕ × Consumer pf X → Type 0
  Chosen k c r =
      (r.1.seq < 2 ^ 32)
      × (k < r.1.seq → (k < c.seq → tracked k c ≡ true) → (tracked k r.1 ≡ true) ⊎ (r.0 ≡ some k))

  next_seq-Chosen : (c : Consumer pf X) (k : ℕ) → c.seq < 2 ^ 32 → Chosen k c (next_seq pf c)
  unfolding next_seq
  next_seq-Chosen c k b = ground (arith, take_retx-tracked c k, take_retx-seq c)

  send_seq-tracked :
      (s k : ℕ) (now : ℤ) (c : Consumer pf X)
      → (tracked k c ≡ true) ⊎ (s ≡ k)
      → tracked k (send_seq pf v s now c) ≡ true
  unfolding send_seq will_send_out_interest schedule_next_packet
  send_seq-tracked s k now c h =
      ground (arith, pf.timeouts.find-insert k (record { seq = s; time = now }) c.seq_timeouts)

  send_seq-seq : (s : ℕ) (now : ℤ) (c : Consumer pf X) → (send_seq pf v s now c).seq ≡ c.seq
  unfolding send_seq will_send_out_interest schedule_next_packet
  send_seq-seq s now c = refl

  -- For one number: it is tracked if it was used and not received.
  abbrev Tracks : ℕ → List ℕ → Consumer pf X → Type 0
  Tracks k r c = (c.seq < 2 ^ 32) × (k < c.seq → All (λ s. s ≢ k) r → tracked k c ≡ true)

  send_chosen-Tracks :
      (k : ℕ) (r : List ℕ) (now : ℤ) (c : Consumer pf X) (chosen : Option ℕ × Consumer pf X)
      → Chosen k c chosen
      → Tracks k r c
      → Tracks k r (send_chosen pf v now chosen)
  unfolding send_chosen
  send_chosen-Tracks k r now c (none, d) h t = (h.0, λ b a. ground (arith, h.1 b λ o. t.1 o a))
  send_chosen-Tracks k r now c (some s, d) h t = (
    rw (send_seq-seq s now d) h.0,
    λ b a.
        send_seq-tracked s k now d
          (ground (arith, h.1 (ground (arith, send_seq-seq s now d)) λ o. t.1 o a)),
  )

  send_packet-Tracks :
      (k : ℕ) (r : List ℕ) (now : ℤ) (c : Consumer pf X)
      → Tracks k r c
      → Tracks k r (send_packet pf v now c)
  unfolding send_packet
  send_packet-Tracks k r now c t = choose c.active
    where
      choose : (b : Bool) → Tracks k r (if b then send_chosen pf v now (next_seq pf c) else c)
      choose true = send_chosen-Tracks k r now c (next_seq pf c) (next_seq-Chosen c k t.0) t
      choose false = t

  check-Tracks :
      (k : ℕ) (r : List ℕ) (now : ℤ) (c c' : Consumer pf X)
      → check_retx_timeout pf v now c ≡ ok c'
      → Tracks k r c
      → Tracks k r c'
  check-Tracks k r now c c' h t =
      let (d, e, w, due) = check_retx_timeout_lem pf v now c in
      let same : d ≡ c' = cc in
      rw (← same) (
        rw w.same_seq t.0,
        λ b a. elim (Option-cases (find k c.seq_timeouts)) [
          | inl f ↦ ground (arith, w.kept k, w.queued k, t.1 (ground (arith, w.same_seq)) a)
          | inr (entry, f) ↦ ground (arith, w.kept k, w.queued k)
        ],
      )

  receive_seq-tracked :
      (s k hops : ℕ) (now : ℤ) (c : Consumer pf X)
      → s ≢ k
      → tracked k c ≡ true
      → tracked k (receive_seq pf s hops now c) ≡ true
  unfolding receive_seq
  receive_seq-tracked s k hops now c n t =
      ground (arith, pf.timeouts.find-erase k s c.seq_timeouts, has-erase_other s k c.retx_seqs n)

  receive_seq-seq :
      (s hops : ℕ) (now : ℤ) (c : Consumer pf X) → (receive_seq pf s hops now c).seq ≡ c.seq
  unfolding receive_seq
  receive_seq-seq s hops now c = refl

  on_data-Tracks :
      (k s : ℕ) (r : List ℕ) (now : ℤ) (packet : Data pf) (c c' : Consumer pf X)
      → seq_of_data pf packet ≡ ok s
      → on_data pf now packet c ≡ ok c'
      → Tracks k r c
      → Tracks k (s ∷ r) c'
  unfolding on_data
  on_data-Tracks k s r now packet c c' e h t = elim (Bool-cases c.active) [
    | inr i ↦ let same : c ≡ c' = ground arith in rw (← same) (t.0, λ b a. t.1 b a.1)
    | inl i ↦
        let same : receive_seq pf s (or_zero packet.hop_count) now c ≡ c' = ground arith in
        rw (← same) (
          rw (receive_seq-seq s (or_zero packet.hop_count) now c) t.0,
          λ b a.
              receive_seq-tracked s k (or_zero packet.hop_count) now c a.0
                (t.1 (ground (arith, receive_seq-seq s (or_zero packet.hop_count) now c)) a.1),
        )
  ]

  start-Tracks :
      (k : ℕ) (r : List ℕ) (now : ℤ) (c c' : Consumer pf X)
      → start_application pf v now c ≡ ok c'
      → Tracks k r c
      → Tracks k r c'
  unfolding start_application schedule_next_packet
  start-Tracks k r now c c' h t = ground arith

  stop-Tracks :
      (k : ℕ) (r : List ℕ) (c : Consumer pf X) → Tracks k r c → Tracks k r (stop_application pf c)
  unfolding stop_application
  stop-Tracks k r c t = t

  Run-Tracks : {c0 c : Consumer pf X} {r : List ℕ} (k : ℕ) → c0.seq ≡ 0 → Run c0 r c → Tracks k r c
  Run-Tracks k z begins = (omega (arith, z), λ b a. absurd (omega (arith, z)))
  Run-Tracks k z (starts now u e) = start-Tracks k _ now _ _ e (Run-Tracks k z u)
  Run-Tracks k z (stops u) = stop-Tracks k _ _ (Run-Tracks k z u)
  Run-Tracks k z (sends now u) = send_packet-Tracks k _ now _ (Run-Tracks k z u)
  Run-Tracks k z (checks now u e) = check-Tracks k _ now _ _ e (Run-Tracks k z u)
  Run-Tracks k z (receives now packet s u e h) =
      on_data-Tracks k s _ now packet _ _ e h (Run-Tracks k z u)

  -- Whatever calls the simulator makes on a consumer that starts at sequence number 0: a number that
  -- was used and not received waits for its timeout or for its retransmission.
  pub Run-tracked :
      (c0 c : Consumer pf X) (r : List ℕ) (k : ℕ)
      → c0.seq ≡ 0
      → Run c0 r c
      → k < c.seq
      → All (λ s. s ≢ k) r
      → tracked k c ≡ true
  Run-tracked c0 c r k z u b a = (Run-Tracks k z u).1 b a
