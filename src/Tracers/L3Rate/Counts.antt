-- ===== src/Tracers/L3Rate/Counts.antt =====
-- utils/tracers/ndn-l3-rate-tracer.cpp: the counters over whole runs.
use ndn_sim.Prelude.{
  ℕ, suc, ◌+◌, ◌≡◌, refl, ap, ◌∙◌, Bool, true, false, List, [], ◌∷◌, Option, arith, ◌==◌,
  if◌then◌else◌, Option-cases, Bool-cases, inl, inr,
}
use mathlib.Core.Option.{get_or}
use ndn_sim.Prelude.AssocMap
use ndn_sim.Prelude.AssocMap.{lookup, lookup-insert}
use ndn_sim.Tracers.L3Rate.{
  Stats, Counter, field, add_to, in_interests, out_interests, in_data, out_data, in_nack, out_nack,
  satisfied_interests, timed_out_interests, out_satisfied_interests, out_timed_out_interests,
  TracedFace, Pair, zero_pair, zero_stats, L3RateTracer, stats_at, add_info, packet, count_one,
  count_records, satisfied, timed_out, reset_all, reset_tracer, Event, on_packet, on_satisfied,
  on_timed_out, on_period, handle, handle_all,
}

abbrev pub number : Counter → ℕ
number in_interests = 0
number out_interests = 1
number in_data = 2
number out_data = 3
number in_nack = 4
number out_nack = 5
number satisfied_interests = 6
number timed_out_interests = 7
number out_satisfied_interests = 8
number out_timed_out_interests = 9

-- `n` if two counters are the same, else 0
abbrev pub if_same : Counter → Counter → ℕ → ℕ
if_same j k n = if number j == number k then n else 0

field-add_to :
    (j k : Counter) (n : ℕ) (s : Stats) → field k (add_to j n s) ≡ field k s + if_same j k n
unfolding field add_to
field-add_to in_interests k n s = ground arith
field-add_to out_interests k n s = ground arith
field-add_to in_data k n s = ground arith
field-add_to out_data k n s = ground arith
field-add_to in_nack k n s = ground arith
field-add_to out_nack k n s = ground arith
field-add_to satisfied_interests k n s = ground arith
field-add_to timed_out_interests k n s = ground arith
field-add_to out_satisfied_interests k n s = ground arith
field-add_to out_timed_out_interests k n s = ground arith

-- Packets and bytes of a counter of a face.
unfoldable pub packets_of : Counter → ℕ → L3RateTracer → ℕ
packets_of k f t = field k (stats_at f t.stats).packets

unfoldable pub bytes_of : Counter → ℕ → L3RateTracer → ℕ
bytes_of k f t = field k (stats_at f t.stats).bytes

-- How often a face is among those of the records.
abbrev pub occurrences : ℕ → List TracedFace → ℕ
occurrences f [] = 0
occurrences f (face ∷ faces) =
    let rest = occurrences f faces in if face.id == f then suc rest else rest

pub stats_at-add_info : (face : TracedFace) (t : L3RateTracer) → (add_info face t).stats ≡ t.stats
unfolding add_info
stats_at-add_info face t = ground (arith, Option-cases (lookup face.id t.face_infos))

stats_at-insert :
    (id f : ℕ) (s : Pair) (stats : List (ℕ × Pair))
    → stats_at f (AssocMap.insert id s stats) ≡ (if id == f then s else stats_at f stats)
stats_at-insert id f s stats = ground (arith, lookup-insert id f s stats)

packets_of-count_one :
    (j k : Counter) (id f : ℕ) (t : L3RateTracer)
    → (packets_of k f (count_one j id t)
        ≡ packets_of k f t + (if id == f then if_same j k 1 else 0))
      × (bytes_of k f (count_one j id t) ≡ bytes_of k f t)
unfolding packets_of bytes_of count_one
packets_of-count_one j k id f t =
    let s = stats_at id t.stats in
    let at_f = stats_at-insert id f (record s { packets = add_to j 1 s.packets }) t.stats in
    elim (Bool-cases (id == f)) [
      | inl e ↦
          let same : id ≡ f = ground arith in
          let now = at_f ∙ (rw e refl) in
          (
            ap (λ x. field k x.packets) now
                ∙ (field-add_to j k 1 s.packets
                    ∙ rw e (ap (λ i. field k (stats_at i t.stats).packets + if_same j k 1) same)),
            ap (λ x. field k x.bytes) now ∙ ap (λ i. field k (stats_at i t.stats).bytes) same,
          )
      | inr e ↦
          let now : stats_at f (count_one j id t).stats ≡ stats_at f t.stats = at_f ∙ rw e refl in
          (ap (λ x. field k x.packets) now ∙ rw e (omega arith), ap (λ x. field k x.bytes) now)
    ]

packets_of-add_info :
    (k : Counter) (f : ℕ) (face : TracedFace) (t : L3RateTracer)
    → packets_of k f (add_info face t) ≡ packets_of k f t
unfolding packets_of
packets_of-add_info k f face t =
    ap (λ stats. field k (stats_at f stats).packets) (stats_at-add_info face t)

bytes_of-add_info :
    (k : Counter) (f : ℕ) (face : TracedFace) (t : L3RateTracer)
    → bytes_of k f (add_info face t) ≡ bytes_of k f t
unfolding bytes_of
bytes_of-add_info k f face t =
    ap (λ stats. field k (stats_at f stats).bytes) (stats_at-add_info face t)

counts_of-packet :
    (j k : Counter) (size : Option ℕ) (face : TracedFace) (f : ℕ) (t : L3RateTracer)
    → (packets_of k f (packet j size face t)
        ≡ packets_of k f t + (if face.id == f then if_same j k 1 else 0))
      × (bytes_of k f (packet j size face t)
          ≡ bytes_of k f t + (if face.id == f then if_same j k (get_or size 0) else 0))
unfolding packet packets_of bytes_of
counts_of-packet j k size face f t =
    let t' = add_info face t in
    let s = stats_at face.id t'.stats in
    let n = get_or size 0 in
    let at_f =
      stats_at-insert face.id f
        (record { packets = add_to j 1 s.packets; bytes = add_to j n s.bytes }) t'.stats in
    let there = ap (stats_at f) (stats_at-add_info face t) in
    elim (Bool-cases (face.id == f)) [
      | inl e ↦
          let same : face.id ≡ f = ground arith in
          let now = at_f ∙ rw e refl in
          let before = ap (λ i. stats_at i t'.stats) same ∙ there in
          (
            ap (λ x. field k x.packets) now
                ∙ (field-add_to j k 1 s.packets
                    ∙ rw e (ap (λ x. field k x.packets + if_same j k 1) before)),
            ap (λ x. field k x.bytes) now
                ∙ (field-add_to j k n s.bytes
                    ∙ rw e (ap (λ x. field k x.bytes + if_same j k n) before)),
          )
      | inr e ↦
          let now = at_f ∙ (rw e refl ∙ there) in
          (
            ap (λ x. field k x.packets) now ∙ rw e (omega arith),
            ap (λ x. field k x.bytes) now ∙ rw e (omega arith),
          )
    ]

counts_of-count_records :
    (j k : Counter) (f : ℕ) (faces : List TracedFace) (t : L3RateTracer)
    → (packets_of k f (count_records j faces t)
        ≡ packets_of k f t + if_same j k (occurrences f faces))
      × (bytes_of k f (count_records j faces t) ≡ bytes_of k f t)
unfolding count_records
counts_of-count_records j k f [] t = (ground arith, refl)
counts_of-count_records j k f (face ∷ faces) t =
    let t' = add_info face t in
    let (p, b) = packets_of-count_one j k face.id f t' in
    let (ps, bs) = counts_of-count_records j k f faces (count_one j face.id t') in
    (ground (arith, ps, p, packets_of-add_info k f face t), bs ∙ (b ∙ bytes_of-add_info k f face t))

reset_all-stats_at : (f : ℕ) (stats : List (ℕ × Pair)) → stats_at f (reset_all stats) ≡ zero_pair
unfolding reset_all
reset_all-stats_at f [] = refl
reset_all-stats_at f ((id, s) ∷ stats) = ground (arith, reset_all-stats_at f stats)

counts_of-reset_tracer :
    (k : Counter) (f : ℕ) (t : L3RateTracer)
    → (packets_of k f (reset_tracer t) ≡ 0) × (bytes_of k f (reset_tracer t) ≡ 0)
unfolding reset_tracer packets_of bytes_of field
counts_of-reset_tracer k f t =
    let e = reset_all-stats_at f t.stats in
    (ap (λ x. field k x.packets) e ∙ zero k, ap (λ x. field k x.bytes) e ∙ zero k)
  where
    zero : (k : Counter) → field k zero_stats ≡ 0
    zero k = ground arith

module _ (invalid_faceid : ℕ) (k : Counter) (f : ℕ) where
  -- What one event counts for this counter and face.
  abbrev pub event_packets : Event → ℕ
  event_packets (on_packet j size face) = if face.id == f then if_same j k 1 else 0
  event_packets (on_satisfied ins outs) =
      (if invalid_faceid == f then if_same satisfied_interests k 1 else 0)
      + if_same satisfied_interests k (occurrences f ins)
      + if_same out_satisfied_interests k (occurrences f outs)
  event_packets (on_timed_out ins outs) =
      (if invalid_faceid == f then if_same timed_out_interests k 1 else 0)
      + if_same timed_out_interests k (occurrences f ins)
      + if_same out_timed_out_interests k (occurrences f outs)
  event_packets on_period = 0

  abbrev pub event_bytes : Event → ℕ
  event_bytes (on_packet j size face) = if face.id == f then if_same j k (get_or size 0) else 0
  event_bytes _ = 0

  abbrev pub is_period : Event → Bool
  is_period on_period = true
  is_period _ = false

  -- The sum since the last period, on top of `n` for what was there before.
  abbrev pub since_period : (Event → ℕ) → List Event → ℕ → ℕ
  since_period count [] n = n
  since_period count (e ∷ es) n = since_period count es (if is_period e then 0 else n + count e)

  -- The three counts of a PIT entry.
  counts_of_entry :
      (j i : Counter) (ins outs : List TracedFace) (t : L3RateTracer)
      → (packets_of k f (count_records i outs (count_records j ins (count_one j invalid_faceid t)))
          ≡ packets_of k f t
            + ((if invalid_faceid == f then if_same j k 1 else 0)
                + if_same j k (occurrences f ins)
                + if_same i k (occurrences f outs)))
        × (bytes_of k f (count_records i outs (count_records j ins (count_one j invalid_faceid t)))
            ≡ bytes_of k f t + 0)
  counts_of_entry j i ins outs t =
      let a = count_one j invalid_faceid t in
      let b = count_records j ins a in
      let (p, x) = packets_of-count_one j k invalid_faceid f t in
      let (q, y) = counts_of-count_records j k f ins a in
      let (r, z) = counts_of-count_records i k f outs b in
      (omega (arith, r, q, p), omega (arith, z, y, x))

  counts_of-handle :
      (e : Event) (t : L3RateTracer)
      → (packets_of k f (handle invalid_faceid e t)
          ≡ (if is_period e then 0 else packets_of k f t + event_packets e))
        × (bytes_of k f (handle invalid_faceid e t)
            ≡ (if is_period e then 0 else bytes_of k f t + event_bytes e))
  unfolding satisfied timed_out
  counts_of-handle (on_packet j size face) t = counts_of-packet j k size face f t
  counts_of-handle (on_satisfied ins outs) t =
      counts_of_entry satisfied_interests out_satisfied_interests ins outs t
  counts_of-handle (on_timed_out ins outs) t =
      counts_of_entry timed_out_interests out_timed_out_interests ins outs t
  counts_of-handle on_period t = counts_of-reset_tracer k f t

  -- Whatever the tracer is told, the packets and the bytes that it holds for a face and a counter
  -- are those of the events since the last period, and those that it held before, if there was no
  -- period: an event of PIT records counts for each record of the face, and for all faces together.
  pub counts_of-handle_all :
      (es : List Event) (t : L3RateTracer)
      → (packets_of k f (handle_all invalid_faceid es t)
          ≡ since_period event_packets es (packets_of k f t))
        × (bytes_of k f (handle_all invalid_faceid es t)
            ≡ since_period event_bytes es (bytes_of k f t))
  counts_of-handle_all [] t = (refl, refl)
  counts_of-handle_all (e ∷ es) t =
      let (p, b) = counts_of-handle e t in
      let (ps, bs) = counts_of-handle_all es (handle invalid_faceid e t) in
      (ps ∙ ap (since_period event_packets es) p, bs ∙ ap (since_period event_bytes es) b)
