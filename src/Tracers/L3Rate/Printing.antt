-- ===== src/Tracers/L3Rate/Printing.antt =====
-- utils/tracers/ndn-l3-rate-tracer.cpp: Print and PeriodicPrinter, with the averages that Print
-- keeps. Doubles are a parameter; the time and the node, which each line starts with, are left out.
use ndn_sim.Prelude.{
  ℕ, List, [], ◌∷◌, ◌++◌, Option, none, some, ◌&&◌, ◌==◌, if◌then◌else◌, Result, ok, assertion,
  ◌>>=◌, or_fail,
}
use ndn_sim.Prelude.Int.{ℤ}
use ndn_sim.Prelude.AssocMap.{lookup}
use ndn_sim.Rtt.MeanDeviation.{Doubles}
use ndn_sim.Tracers.L3Rate.{
  Counter, field, in_interests, out_interests, in_data, out_data, in_nack, out_nack,
  satisfied_interests, timed_out_interests, out_satisfied_interests, out_timed_out_interests, Pair,
  L3RateTracer, reset_tracer,
}
use ndn_sim.Tracers.L3Rate.Counts.{number}

module _ (d : Doubles) where
  -- The last two parts of m_stats: averages of packets and of kilobytes for each second.
  abbrev pub Averages : Type 0
  Averages = ℕ → Counter → d.Double × d.Double

  pub record Line : Type 0 where
    pub face : Option (ℕ × List ℕ)
    pub name : Counter
    pub average : d.Double × d.Double
    pub packets : ℕ
    pub kilobytes : d.Double

  abbrev pub alpha : d.Double
  alpha = d.decimal 8 1

  abbrev pub rate : ℤ → ℕ → d.Double
  rate period n = d.div (d.decimal n 0) (d.to_seconds period)

  abbrev pub older : d.Double → d.Double
  older old = d.mul (d.minus (d.decimal 1 0) alpha) old

  -- The first part of the macro PRINTER.
  unfoldable pub averaged : ℤ → Counter → Pair → d.Double × d.Double → d.Double × d.Double
  averaged period k s old = (
    d.plus (d.mul alpha (rate period (field k s.packets))) (older old.0),
    d.plus (d.div (d.mul alpha (rate period (field k s.bytes))) (d.decimal 1024 0)) (older old.1),
  )

  abbrev pub set_average : ℕ → Counter → d.Double × d.Double → Averages → Averages
  set_average id k new averages =
      λ i j. if (id == i) && (number k == number j) then new else averages i j

  -- The macro PRINTER.
  unfoldable pub printer : ℤ → ℕ → Option (ℕ × List ℕ) → Counter → Pair → Averages → Averages × Line
  unfolding averaged
  printer period id face k s averages =
      let new = averaged period k s (averages id k) in
      (
        set_average id k new averages,
        record {
          face = face;
          name = k;
          average = new;
          packets = field k s.packets;
          kilobytes = d.div (d.decimal (field k s.bytes) 0) (d.decimal 1024 0);
        },
      )

  unfoldable pub print_counters :
      ℤ → ℕ → Option (ℕ × List ℕ) → List Counter → Pair → Averages → Averages × List Line
  unfolding printer
  print_counters period id face [] s averages = (averages, [])
  print_counters period id face (k ∷ ks) s averages =
      let (averages', line) = printer period id face k s averages in
      let (averages'', lines) = print_counters period id face ks s averages' in
      (averages'', line ∷ lines)

  abbrev pub face_counters : List Counter
  face_counters =
      in_interests ∷ out_interests ∷ in_data ∷ out_data ∷ in_nack ∷ out_nack ∷ satisfied_interests
      ∷ timed_out_interests ∷ out_satisfied_interests ∷ out_timed_out_interests ∷ []

  module _ (invalid_faceid : ℕ) where
    -- The loop over the faces; the description of a face must be there.
    unfoldable pub print_faces :
        ℤ → List (ℕ × List ℕ) → List (ℕ × Pair) → Averages → Result (Averages × List Line)
    unfolding print_counters
    print_faces period infos [] averages = ok (averages, [])
    print_faces period infos ((id, s) ∷ stats) averages =
        if id == invalid_faceid
        then print_faces period infos stats averages
        else (or_fail (lookup id infos) assertion >>= λ info.
            print_faces period infos stats
              (print_counters period id (some (id, info)) face_counters s averages).0
            >>= λ r. ok (
              r.0,
              (print_counters period id (some (id, info)) face_counters s averages).1 ++ r.1,
            ))

    -- The block for all faces together.
    unfoldable pub print_all : ℤ → List (ℕ × Pair) → Averages → Averages × List Line
    unfolding print_counters
    print_all period stats averages = elim (lookup invalid_faceid stats) [
      | none ↦ (averages, [])
      | some s ↦
          print_counters period invalid_faceid none (satisfied_interests ∷ timed_out_interests ∷ [])
            s averages
    ]

    unfoldable pub print : ℤ → L3RateTracer → Averages → Result (Averages × List Line)
    unfolding print_faces print_all
    print period t averages =
        print_faces period t.face_infos t.stats averages >>= λ (averages', lines).
        let (averages'', more) = print_all period t.stats averages' in
        ok (averages'', lines ++ more)

    -- PeriodicPrinter; the event is due again after the period.
    unfoldable pub periodic_printer :
        ℤ → L3RateTracer → Averages → Result (L3RateTracer × (Averages × List Line))
    unfolding print
    periodic_printer period t averages = print period t averages >>= λ r. ok (reset_tracer t, r)
