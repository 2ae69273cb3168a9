-- ===== src/Tracers/L3Rate.antt =====
-- utils/tracers/ndn-l3-rate-tracer.hpp and .cpp with ndn-l3-tracer.hpp: the rate tracer of the
-- network layer. The counters, doubles that are only counted up by whole numbers, are natural
-- numbers. A packet is the size of its wire encoding, if it has one, and a PIT entry the faces of
-- its records. INVALID_FACEID of NFD is a parameter.
pub mod Counts
pub mod Printing
pub mod Infos
use ndn_sim.Prelude.{
  ℕ, suc, ◌+◌, ◌≡◌, Bool, true, false, List, [], ◌∷◌, ◌++◌, Option, none, some, ◌==◌, if◌then◌else◌,
  Result, ok, assertion, ◌>>=◌, or_fail,
}
use mathlib.Core.Option.{get_or}
use ndn_sim.Prelude.AssocMap
use ndn_sim.Prelude.AssocMap.{lookup}

-- L3Tracer::Stats
pub record Stats : Type 0 where
  pub in_interests : ℕ
  pub out_interests : ℕ
  pub in_data : ℕ
  pub out_data : ℕ
  pub in_nack : ℕ
  pub out_nack : ℕ
  pub satisfied_interests : ℕ
  pub timed_out_interests : ℕ
  pub out_satisfied_interests : ℕ
  pub out_timed_out_interests : ℕ

abbrev pub zero_stats : Stats
zero_stats = record {
  in_interests = 0;
  out_interests = 0;
  in_data = 0;
  out_data = 0;
  in_nack = 0;
  out_nack = 0;
  satisfied_interests = 0;
  timed_out_interests = 0;
  out_satisfied_interests = 0;
  out_timed_out_interests = 0;
}

-- The names of the fields.
pub data Counter : Type 0 where
  in_interests out_interests in_data out_data in_nack out_nack satisfied_interests : Counter
  timed_out_interests out_satisfied_interests out_timed_out_interests : Counter

unfoldable pub field : Counter → Stats → ℕ
field in_interests s = s.in_interests
field out_interests s = s.out_interests
field in_data s = s.in_data
field out_data s = s.out_data
field in_nack s = s.in_nack
field out_nack s = s.out_nack
field satisfied_interests s = s.satisfied_interests
field timed_out_interests s = s.timed_out_interests
field out_satisfied_interests s = s.out_satisfied_interests
field out_timed_out_interests s = s.out_timed_out_interests

-- `+=` on a field
unfoldable pub add_to : Counter → ℕ → Stats → Stats
add_to in_interests n s = record s { in_interests = s.in_interests + n }
add_to out_interests n s = record s { out_interests = s.out_interests + n }
add_to in_data n s = record s { in_data = s.in_data + n }
add_to out_data n s = record s { out_data = s.out_data + n }
add_to in_nack n s = record s { in_nack = s.in_nack + n }
add_to out_nack n s = record s { out_nack = s.out_nack + n }
add_to satisfied_interests n s = record s { satisfied_interests = s.satisfied_interests + n }
add_to timed_out_interests n s = record s { timed_out_interests = s.timed_out_interests + n }
add_to out_satisfied_interests n s = record s {
  out_satisfied_interests = s.out_satisfied_interests + n;
}
add_to out_timed_out_interests n s = record s {
  out_timed_out_interests = s.out_timed_out_interests + n;
}

pub record TracedFace : Type 0 where
  pub id : ℕ
  pub local_uri : List ℕ

-- What m_stats holds of a face: packets and bytes. The averages are kept apart.
pub record Pair : Type 0 where
  pub packets : Stats
  pub bytes : Stats

abbrev pub zero_pair : Pair
zero_pair = record { packets = zero_stats; bytes = zero_stats }

pub record L3RateTracer : Type 0 where
  pub stats : List (ℕ × Pair)
  pub face_infos : List (ℕ × List ℕ)

-- `m_stats[id]`, which adds an entry where there is none
abbrev pub stats_at : ℕ → List (ℕ × Pair) → Pair
stats_at id stats = get_or (lookup id stats) zero_pair

abbrev pub count_packet : Counter → ℕ → Pair → Pair
count_packet k n s = record s { packets = add_to k n s.packets }

unfoldable pub add_info : TracedFace → L3RateTracer → L3RateTracer
add_info face t = elim (lookup face.id t.face_infos) [
  | none ↦ record t { face_infos = AssocMap.insert face.id face.local_uri t.face_infos }
  | some _ ↦ t
]

-- OutInterests, InInterests, OutData, InData, OutNack and InNack, by the field that they count.
unfoldable pub packet : Counter → Option ℕ → TracedFace → L3RateTracer → L3RateTracer
unfolding add_info add_to
packet k size face t =
    let t' = add_info face t in
    let s = stats_at face.id t'.stats in
    record t' {
      stats =
          AssocMap.insert face.id
            (record { packets = add_to k 1 s.packets; bytes = add_to k (get_or size 0) s.bytes })
            t'.stats;
    }

unfoldable pub count_one : Counter → ℕ → L3RateTracer → L3RateTracer
unfolding add_to
count_one k id t = record t {
  stats = AssocMap.insert id (count_packet k 1 (stats_at id t.stats)) t.stats;
}

-- The loop over the records of a PIT entry.
unfoldable pub count_records : Counter → List TracedFace → L3RateTracer → L3RateTracer
unfolding add_info count_one
count_records k [] t = t
count_records k (face ∷ faces) t = count_records k faces (count_one k face.id (add_info face t))

unfoldable pub reset_all : List (ℕ × Pair) → List (ℕ × Pair)
reset_all [] = []
reset_all ((id, s) ∷ stats) = (id, zero_pair) ∷ reset_all stats

unfoldable pub reset_tracer : L3RateTracer → L3RateTracer
unfolding reset_all
reset_tracer t = record t { stats = reset_all t.stats }

-- What can happen to a tracer; PeriodicPrinter resets it.
pub data Event : Type 0 where
  on_packet : Counter → Option ℕ → TracedFace → Event
  on_satisfied on_timed_out : List TracedFace → List TracedFace → Event
  on_period : Event

abbrev pub new_tracer : L3RateTracer
new_tracer = record { stats = []; face_infos = [] }

module _ (invalid_faceid : ℕ) where
  unfoldable pub satisfied : List TracedFace → List TracedFace → L3RateTracer → L3RateTracer
  unfolding count_one count_records
  satisfied ins outs t =
      count_records out_satisfied_interests outs
        (count_records satisfied_interests ins (count_one satisfied_interests invalid_faceid t))

  unfoldable pub timed_out : List TracedFace → List TracedFace → L3RateTracer → L3RateTracer
  unfolding count_one count_records
  timed_out ins outs t =
      count_records out_timed_out_interests outs
        (count_records timed_out_interests ins (count_one timed_out_interests invalid_faceid t))

  abbrev pub handle : Event → L3RateTracer → L3RateTracer
  handle (on_packet k size face) t = packet k size face t
  handle (on_satisfied ins outs) t = satisfied ins outs t
  handle (on_timed_out ins outs) t = timed_out ins outs t
  handle on_period t = reset_tracer t

  abbrev pub handle_all : List Event → L3RateTracer → L3RateTracer
  handle_all [] t = t
  handle_all (e ∷ es) t = handle_all es (handle e t)
