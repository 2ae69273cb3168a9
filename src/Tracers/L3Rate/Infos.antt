-- ===== src/Tracers/L3Rate/Infos.antt =====
-- utils/tracers/ndn-l3-rate-tracer.cpp: the descriptions of the faces that Print writes.
use ndn_sim.Prelude.{
  ℕ, ◌≡◌, refl, sym, subst, false, List, [], ◌∷◌, ◌++◌, some, arith, ◌==◌, All, All-map,
  Option-cases, Bool-cases, inl, inr, ok,
}
use ndn_sim.Prelude.Int.{ℤ}
use ndn_sim.Prelude.AssocMap
use ndn_sim.Prelude.AssocMap.{lookup, lookup-insert}
use ndn_sim.Rtt.MeanDeviation.{Doubles}
use ndn_sim.Tracers.L3Rate.{
  Counter, TracedFace, Pair, L3RateTracer, add_info, packet, count_one, count_records, satisfied,
  timed_out, reset_all, reset_tracer, Event, on_packet, on_satisfied, on_timed_out, on_period,
  handle, handle_all, new_tracer, satisfied_interests, timed_out_interests, out_satisfied_interests,
  out_timed_out_interests,
}
use ndn_sim.Tracers.L3Rate.Counts.{stats_at-add_info}
use ndn_sim.Tracers.L3Rate.Printing.{
  Averages, Line, print_counters, face_counters, print_faces, print_all, print, periodic_printer,
}

module _ (invalid_faceid : ℕ) where
  -- Every face that is counted has a description, but for the entry of all faces together.
  abbrev IsDescribed : List (ℕ × List ℕ) → ℕ → Type 0
  IsDescribed infos id =
      (id == invalid_faceid) ≡ false → (info : List ℕ) × (lookup id infos ≡ some info)

  abbrev AreDescribed : L3RateTracer → Type 0
  AreDescribed t = All (λ e. IsDescribed t.face_infos e.0) t.stats

  All-insert :
      (P : ℕ → Type 0) (id : ℕ) (s : Pair) (stats : List (ℕ × Pair))
      → P id
      → All (λ e. P e.0) stats
      → All (λ e. P e.0) (AssocMap.insert id s stats)
  All-insert P id s [] p a = (p, tt)
  All-insert P id s ((i, x) ∷ stats) p a = elim (Bool-cases (i == id)) [
    | inl e ↦ rw e a
    | inr e ↦ rw e (a.0, All-insert P id s stats p a.1)
  ]

  add_info-face_infos :
      (face : TracedFace) (t : L3RateTracer) (id : ℕ)
      → IsDescribed t.face_infos id
      → IsDescribed (add_info face t).face_infos id
  unfolding add_info
  add_info-face_infos face t id d = elim (Option-cases (lookup face.id t.face_infos)) [
    | inr (info, e) ↦ ground (arith, e, d)
    | inl e ↦ λ n. elim (Bool-cases (face.id == id)) [
      | inl same ↦ (
        face.local_uri,
        ground (arith, e, same, lookup-insert face.id id face.local_uri t.face_infos),
      )
      | inr other ↦
          let (info, k) = d n in
          (info, ground (arith, e, k, other, lookup-insert face.id id face.local_uri t.face_infos))
    ]
  ]

  add_info-IsDescribed :
      (face : TracedFace) (t : L3RateTracer) → IsDescribed (add_info face t).face_infos face.id
  unfolding add_info
  add_info-IsDescribed face t n = elim (Option-cases (lookup face.id t.face_infos)) [
    | inr (info, e) ↦ (info, ground (arith, e))
    | inl e ↦ (
      face.local_uri,
      ground (arith, e, lookup-insert face.id face.id face.local_uri t.face_infos),
    )
  ]

  add_info-AreDescribed :
      (face : TracedFace) (t : L3RateTracer) → AreDescribed t → AreDescribed (add_info face t)
  add_info-AreDescribed face t a =
      subst (All (λ e. IsDescribed (add_info face t).face_infos e.0))
        (sym (stats_at-add_info face t)) (All-map t.stats (λ e. add_info-face_infos face t e.0) a)

  count_one-AreDescribed :
      (k : Counter) (id : ℕ) (t : L3RateTracer)
      → IsDescribed t.face_infos id
      → AreDescribed t
      → AreDescribed (count_one k id t)
  unfolding count_one
  count_one-AreDescribed k id t d a = All-insert (IsDescribed t.face_infos) id _ t.stats d a

  count_records-AreDescribed :
      (k : Counter) (faces : List TracedFace) (t : L3RateTracer)
      → AreDescribed t
      → AreDescribed (count_records k faces t)
  unfolding count_records
  count_records-AreDescribed k [] t a = a
  count_records-AreDescribed k (face ∷ faces) t a =
      count_records-AreDescribed k faces (count_one k face.id (add_info face t)) (
        count_one-AreDescribed k face.id (add_info face t) (add_info-IsDescribed face t)
          (add_info-AreDescribed face t a))

  reset_all-AreDescribed :
      (infos : List (ℕ × List ℕ)) (stats : List (ℕ × Pair))
      → All (λ e. IsDescribed infos e.0) stats
      → All (λ e. IsDescribed infos e.0) (reset_all stats)
  unfolding reset_all
  reset_all-AreDescribed infos [] a = tt
  reset_all-AreDescribed infos ((id, s) ∷ stats) a = (a.0, reset_all-AreDescribed infos stats a.1)

  all_faces : (infos : List (ℕ × List ℕ)) → IsDescribed infos invalid_faceid
  all_faces infos n = absurd (ground arith)

  handle-AreDescribed :
      (e : Event) (t : L3RateTracer) → AreDescribed t → AreDescribed (handle invalid_faceid e t)
  unfolding packet satisfied timed_out reset_tracer
  handle-AreDescribed (on_packet k size face) t a =
      All-insert (IsDescribed (add_info face t).face_infos) face.id _ (add_info face t).stats
        (add_info-IsDescribed face t) (add_info-AreDescribed face t a)
  handle-AreDescribed (on_satisfied ins outs) t a =
      count_records-AreDescribed out_satisfied_interests outs _ (
        count_records-AreDescribed satisfied_interests ins _
          (count_one-AreDescribed satisfied_interests invalid_faceid t (all_faces t.face_infos) a))
  handle-AreDescribed (on_timed_out ins outs) t a =
      count_records-AreDescribed out_timed_out_interests outs _ (
        count_records-AreDescribed timed_out_interests ins _
          (count_one-AreDescribed timed_out_interests invalid_faceid t (all_faces t.face_infos) a))
  handle-AreDescribed on_period t a = reset_all-AreDescribed t.face_infos t.stats a

  handle_all-AreDescribed :
      (es : List Event) (t : L3RateTracer)
      → AreDescribed t
      → AreDescribed (handle_all invalid_faceid es t)
  handle_all-AreDescribed [] t a = a
  handle_all-AreDescribed (e ∷ es) t a =
      handle_all-AreDescribed es (handle invalid_faceid e t) (handle-AreDescribed e t a)

  module _ (d : Doubles) (period : ℤ) where
    print_faces-ok :
        (infos : List (ℕ × List ℕ)) (stats : List (ℕ × Pair)) (averages : Averages d)
        → All (λ e. IsDescribed infos e.0) stats
        → (r : Averages d × List (Line d)) × (print_faces d invalid_faceid period infos stats
              averages
            ≡ ok r)
    unfolding print_faces
    print_faces-ok infos [] averages a = ((averages, []), refl)
    print_faces-ok infos ((id, s) ∷ stats) averages a = elim (Bool-cases (id == invalid_faceid)) [
      | inl e ↦ let (r, k) = print_faces-ok infos stats averages a.1 in (r, rw e k)
      | inr e ↦
          let (info, i) = a.0 e in
          let printed = print_counters d period id (some (id, info)) (face_counters d) s averages in
          let (r, k) = print_faces-ok infos stats printed.0 a.1 in
          ((r.0, printed.1 ++ r.1), rw (e, i, k) refl)
    ]

    -- PeriodicPrinter never meets a face without a description, whatever the tracer was told
    -- since it was made: it returns, and the tracer that it leaves is the one that was reset.
    pub periodic_printer-ok :
        (es : List Event) (averages : Averages d)
        → (r : Averages d × List (Line d)) × (periodic_printer d invalid_faceid period
              (handle_all invalid_faceid es new_tracer)
              averages
            ≡ ok (
              handle_all invalid_faceid (on_period ∷ []) (handle_all invalid_faceid es new_tracer),
              r,
            ))
    unfolding periodic_printer print
    periodic_printer-ok es averages =
        let t = handle_all invalid_faceid es new_tracer in
        let ((averages', lines), e) =
          print_faces-ok t.face_infos t.stats averages (handle_all-AreDescribed es new_tracer tt) in
        let more = print_all d invalid_faceid period t.stats averages' in
        ((more.0, lines ++ more.1), rw e refl)
