-- ===== src/Apps/Zipf.antt =====
-- apps/ndn-consumer-zipf-mandelbrot.hpp and .cpp: the consumer that asks for contents by their
-- popularity. std::pow is a parameter, and the random variable is the list of the values that it
-- gives next. The vector m_Pcum is a function of the index.
pub mod Tables
use ndn_sim.Prelude.{
  ℕ, zero, suc, ◌+◌, ◌-◌, ◌^◌, ◌%◌, ◌≡◌, Bool, true, false, not, ◌&&◌, ◌||◌, List, [], ◌∷◌, Option,
  none, some, leb, ◌==◌, if◌then◌else◌, Result, ok, err, no_fuel, ◌>>=◌,
}
use ndn_sim.Prelude.Int.{ℤ, ◌+ℤ◌}
use ndn_sim.Rtt.MeanDeviation.{Doubles}
use ndn_sim.Apps.Platform.{Platform}
use ndn_sim.Apps.Consumer.{Consumer, Virtuals, uint32_max, take_retx, send_chosen}
use ndn_sim.Apps.Cbr.{CbrState, interval}

pub record ZipfState (d : Doubles) : Type 0 where
  pub cbr : CbrState d
  pub number_of_contents : ℕ
  pub q : d.Double
  pub s : d.Double
  pub p_cum : ℕ → d.Double

module _ (d : Doubles) (pow : d.Double → d.Double → d.Double) where
  open d use {Double, plus, div, decimal, lt}

  abbrev pub set_at : ℕ → Double → (ℕ → Double) → ℕ → Double
  set_at i v table = λ j. if i == j then v else table j

  -- The term of a content in the sums.
  abbrev pub term : Double → Double → ℕ → Double
  term q s i = div (decimal 1 0) (pow (plus (decimal i 0) q) s)

  -- The first loop: `n` rounds from `i` on.
  unfoldable pub cumulate : Double → Double → ℕ → ℕ → (ℕ → Double) → ℕ → Double
  cumulate q s zero i table = table
  cumulate q s (suc n) i table =
      cumulate q s n (i + 1) (set_at i (plus (table (i - 1)) (term q s i)) table)

  -- The second loop, which reads the last sum in each round.
  unfoldable pub normalize : ℕ → ℕ → ℕ → (ℕ → Double) → ℕ → Double
  normalize last zero i table = table
  normalize last (suc n) i table =
      normalize last n (i + 1) (set_at i (div (table i) (table last)) table)

  unfoldable pub set_number_of_contents : ℕ → ZipfState d → ZipfState d
  unfolding cumulate normalize
  set_number_of_contents n z =
      let zeros = λ (j : ℕ). decimal 0 0 in
      record z { number_of_contents = n; p_cum = normalize n n 1 (cumulate z.q z.s n 1 zeros) }

  unfoldable pub set_q : Double → ZipfState d → ZipfState d
  unfolding set_number_of_contents
  set_q q z = set_number_of_contents z.number_of_contents (record z { q = q })

  unfoldable pub set_s : Double → ZipfState d → ZipfState d
  unfolding set_number_of_contents
  set_s s z = set_number_of_contents z.number_of_contents (record z { s = s })

module _ (d : Doubles) where
  open d use {Double, decimal, lt}

  -- `p == 0`, for a value that is not below 0
  abbrev pub is_nonzero : Double → Bool
  is_nonzero p = lt (decimal 0 0) p

  -- The loop that draws until a value is not 0; the values left over come after it.
  unfoldable pub draw : List Double → Result (Double × List Double)
  draw [] = err no_fuel
  draw (p ∷ ps) = let rest = draw ps in if is_nonzero p then ok (p, ps) else rest

  -- The search of GetNextSeq: `n` rounds from `i` on.
  unfoldable pub search_content : (ℕ → Double) → Double → ℕ → ℕ → ℕ
  search_content table p zero i = 1
  search_content table p (suc n) i =
      let rest = search_content table p n (i + 1) in if not (lt (table i) p) then i else rest

  unfoldable pub get_next_seq : Double → ZipfState d → ℕ
  unfolding search_content
  get_next_seq p z = search_content z.p_cum p z.number_of_contents 1

module _ (pf : Platform) where
  unfoldable pub zipf_next_packet :
      ℤ → Consumer pf (ZipfState pf.doubles) → ZipfState pf.doubles × Option ℤ
  unfolding interval
  zipf_next_packet now c =
      let z : ZipfState pf.doubles = c.subclass in
      let later : ZipfState pf.doubles × Option ℤ = elim c.send_event [
        | some due ↦ (z, some due)
        | none ↦ (z, some (now +ℤ interval pf z.cbr))
      ] in
      if z.cbr.first_time
      then (record z { cbr = record (z.cbr) { first_time = false } }, some now)
      else later

  unfoldable pub zipf_virtuals : Virtuals pf (ZipfState pf.doubles)
  unfolding zipf_next_packet
  zipf_virtuals = record {
    before_send = λ c. c.subclass;
    before_timeout = λ c. c.subclass;
    next_packet = zipf_next_packet;
  }

  -- The choice of SendPacket: a number to retransmit, or else a content. `m_seq` counts these.
  unfoldable pub zipf_next_seq :
      List (pf.doubles.Double)
      → Consumer pf (ZipfState pf.doubles)
      → Result (Option ℕ × (Consumer pf (ZipfState pf.doubles) × List (pf.doubles.Double)))
  unfolding draw get_next_seq take_retx
  zipf_next_seq ps c =
      let (s, c') = take_retx pf c in
      if not (s == uint32_max)
      then ok (some s, (c', ps))
      else (if not (c'.seq_max == uint32_max) && leb c'.seq_max c'.seq
          then ok (none, (c', ps))
          else (draw pf.doubles ps >>= λ r. ok (
            some (get_next_seq pf.doubles r.0 c'.subclass),
            (record c' { seq = (c'.seq + 1) % 2 ^ 32 }, r.1),
          )))

  unfoldable pub zipf_send_packet :
      ℤ
      → List (pf.doubles.Double)
      → Consumer pf (ZipfState pf.doubles)
      → Result (Consumer pf (ZipfState pf.doubles) × List (pf.doubles.Double))
  unfolding zipf_next_seq zipf_virtuals
  zipf_send_packet now ps c =
      if c.active
      then (zipf_next_seq ps c >>= λ r. ok (send_chosen pf zipf_virtuals now (r.0, r.1.0), r.1.1))
      else ok (c, ps)
