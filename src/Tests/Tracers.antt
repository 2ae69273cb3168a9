-- ===== src/Tests/Tracers.antt =====
-- The rate tracer: two Interests on a face, with an answer, and a period.
use ndn_sim.Prelude.{◌≡◌, refl, List, [], ◌∷◌, none, some, ok}
use ndn_sim.Prelude.Int.{pos}
use ndn_sim.Tracers.L3Rate.{
  in_interests, in_data, TracedFace, packet, add_to, field, add_info, reset_tracer, satisfied,
  Event, on_packet, on_satisfied, on_period, handle_all, new_tracer,
}
use ndn_sim.Tracers.L3Rate.Counts.{
  packets_of, bytes_of, event_packets, event_bytes, since_period, counts_of-handle_all,
}
use ndn_sim.Tracers.L3Rate.Printing.{Averages, Line, periodic_printer}
use ndn_sim.Tracers.L3Rate.Infos.{periodic_printer-ok}
use ndn_sim.Tests.Rtt.{whole}

abbrev face : TracedFace
face = record { id = 256; local_uri = 100 ∷ [] }

abbrev events : List Event
events =
    on_packet in_interests (some 30) face
    ∷ on_period
    ∷ on_packet in_interests (some 40) face
    ∷ on_packet in_data none face
    ∷ on_satisfied (face ∷ []) []
    ∷ []

counts_of-handle_all_example :
    (packets_of in_interests 256 (handle_all 0 events new_tracer)
      ≡ since_period 0 in_interests 256
          (event_packets 0 in_interests 256)
          events
          (packets_of in_interests 256 new_tracer))
    × (bytes_of in_interests 256 (handle_all 0 events new_tracer)
        ≡ since_period 0 in_interests 256
            (event_bytes 0 in_interests 256)
            events
            (bytes_of in_interests 256 new_tracer))
counts_of-handle_all_example = counts_of-handle_all 0 in_interests 256 events new_tracer

one_packet : packets_of in_interests 256 (handle_all 0 events new_tracer) ≡ 1
unfolding packets_of packet add_to field reset_tracer satisfied add_info
one_packet = refl

forty_bytes : bytes_of in_interests 256 (handle_all 0 events new_tracer) ≡ 40
unfolding bytes_of packet add_to field reset_tracer satisfied add_info
forty_bytes = refl

abbrev no_averages : Averages whole
no_averages = λ id k. (0, 0)

periodic_printer-ok_example :
    (r : Averages whole × List (Line whole)) × (periodic_printer whole 0
        (pos 1)
        (handle_all 0 events new_tracer)
        no_averages
      ≡ ok (handle_all 0 (on_period ∷ []) (handle_all 0 events new_tracer), r))
periodic_printer-ok_example = periodic_printer-ok 0 whole (pos 1) events no_averages
