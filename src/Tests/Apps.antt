-- ===== src/Tests/Apps.antt =====
-- The applications, on a consumer that has sent the Interests 0 and 1.
use ndn_sim.Prelude.{
  ℕ, ◌≡◌, refl, true, false, [], ◌∷◌, none, some, arith, ok, ◌==◌, if◌then◌else◌, ◌⊎◌, ltb, ◌≤◌,
  ◌<◌, ◌/◌,
}
use ndn_sim.Prelude.Int.{pos, ◌+ℤ◌}
use ndn_sim.Prelude.AssocMap.{lookup}
use ndn_sim.Prelude.OrderedSet
use ndn_sim.Rtt.MeanDeviation.{retransmit_timeout, find_sent}
use ndn_sim.Apps.Platform.{Platform}
use ndn_sim.Apps.Consumer.{
  by_number, Consumer, Virtuals, Data, send_seq, send_packet, check_retx_timeout, seq_of_data,
  on_data,
}
use ndn_sim.Apps.Consumer.Retransmission.{IsChecked, check_retx_timeout_lem}
use ndn_sim.Apps.Consumer.Replies.{on_data_forgets, seq_of_data_prefix}
use ndn_sim.Apps.Consumer.Tracking.{begins, sends, tracked, Run-tracked}
use ndn_sim.Apps.Window.{WindowState, WindowConsumer, window_virtuals, window_on_data}
use ndn_sim.Apps.Window.Limits.{window_on_data-send_seq}
use ndn_sim.Apps.Zipf.{ZipfState, set_number_of_contents, get_next_seq}
use ndn_sim.Apps.Zipf.Tables.{IsChosen, set_number_of_contents_lem, get_next_seq_lem}
use ndn_sim.Apps.Pcon.{PconState, aimd, window_decrease}
use ndn_sim.Apps.Pcon.Decrease.{window_decrease_lem}
use ndn_sim.Tests.Rtt.{whole, estimator}
use ndn_sim.Tests.Containers.{slot_containers}

abbrev platform : Platform
platform = record {
  doubles = whole;
  timeouts = slot_containers;
  names = record {
    Component = ℕ;
    from_sequence_number = λ n. n;
    to_sequence_number = λ n. some n;
    to_from = λ n. refl;
  };
}

abbrev consumer : {X : Type 0} → X → ℕ → Consumer platform X
consumer x seq = record {
  active = true;
  seq = seq;
  seq_max = 10;
  send_event = none;
  retx_timer = pos 50;
  retx_event = none;
  rtt = estimator;
  interest_name = 3 ∷ [];
  retx_seqs = [];
  seq_timeouts = some (pos 1) ∷ some (pos 900) ∷ [];
  seq_last_delay = [];
  seq_full_delay = [];
  seq_retx_counts = (0, 1) ∷ (1, 1) ∷ [];
  subclass = x;
  transmitted_interests = [];
  delays = [];
}

abbrev sample_window : WindowState whole
sample_window = record {
  payload_size = 1040;
  max_size = 0;
  initial_window = 2;
  window = 4;
  in_flight = 2;
  set_initial_window_on_timeout = true;
}

abbrev windowed : WindowConsumer platform
windowed = consumer sample_window 2

abbrev plain : Virtuals platform (Unit {0})
plain = record {
  before_send = λ c. tt;
  before_timeout = λ c. tt;
  next_packet = λ now c. (tt, some now);
}

-- a reply for number 1, with one more component after it
abbrev reply : Data platform
reply = record { name = 3 ∷ 1 ∷ 0 ∷ []; hop_count = none; congestion_mark = 0 }

check_retx_timeout_lem_example :
    (c' : WindowConsumer platform) × (check_retx_timeout platform
        (window_virtuals platform)
        (pos 902)
        windowed
      ≡ ok c')
    × IsChecked platform (retransmit_timeout whole windowed.rtt) (pos 902) windowed c'
    × (c'.retx_event ≡ some (pos 902 +ℤ c'.retx_timer))
check_retx_timeout_lem_example =
    check_retx_timeout_lem platform (window_virtuals platform) (pos 902) windowed

on_data_forgets_example :
    (c' : WindowConsumer platform) × (on_data platform (pos 902) reply windowed ≡ ok c')
    × ((k : ℕ)
        → (slot_containers.find k c'.seq_timeouts
            ≡ (if 1 == k then none else slot_containers.find k windowed.seq_timeouts))
          × (slot_containers.find k c'.seq_full_delay
              ≡ (if 1 == k then none else slot_containers.find k windowed.seq_full_delay))
          × (slot_containers.find k c'.seq_last_delay
              ≡ (if 1 == k then none else slot_containers.find k windowed.seq_last_delay))
          × (lookup k c'.seq_retx_counts
              ≡ (if 1 == k then none else lookup k windowed.seq_retx_counts))
          × (OrderedSet.has by_number k c'.retx_seqs
              ≡ (if 1 == k then false else OrderedSet.has by_number k windowed.retx_seqs))
          × (find_sent k c'.rtt.history
              ≡ (if 1 == k then none else find_sent k windowed.rtt.history)))
unfolding seq_of_data
on_data_forgets_example = on_data_forgets platform (pos 902) reply 1 windowed tt (tt, tt) refl refl

-- The number of the Interest is 5, and the prefix ends with 3.
seq_of_data_prefix_example :
    (seq_of_data platform (record { name = 3 ∷ 5 ∷ []; hop_count = none; congestion_mark = 0 })
      ≡ ok 3)
    × (seq_of_data platform
          (record { name = 3 ∷ 5 ∷ 0 ∷ []; hop_count = none; congestion_mark = 0 })
        ≡ ok 5)
seq_of_data_prefix_example = seq_of_data_prefix platform (3 ∷ []) 5 0 none 0

abbrev sent_twice : Consumer platform (Unit {0})
unfolding send_packet
sent_twice = send_packet platform plain (pos 5) (send_packet platform plain (pos 4) (consumer tt 0))

Run-tracked_example : tracked platform plain 0 sent_twice ≡ true
unfolding send_packet
Run-tracked_example =
    Run-tracked platform plain (consumer tt 0) sent_twice [] 0 refl
      (sends (pos 5) (sends (pos 4) begins)) (ground arith) tt

window_on_data-send_seq_example :
    (c' : WindowConsumer platform) × (window_on_data platform
        (pos 9)
        reply
        (send_seq platform (window_virtuals platform) 2 (pos 8) windowed)
      ≡ ok c')
    × (c'.subclass.in_flight ≡ 2)
    × (c'.subclass.window ≡ 5)
unfolding seq_of_data
window_on_data-send_seq_example =
    window_on_data-send_seq platform 2 1 (pos 8) (pos 9) reply windowed refl (omega arith) refl

abbrev pcon : PconState whole
pcon = record {
  base = sample_window;
  cc_algorithm = aimd;
  beta = 0;
  add_rtt_suppress = 1;
  react_to_congestion_marks = true;
  use_cwa = true;
  ssthresh = 100;
  high_data = 7;
  rec_point = 3;
  use_cubic_fast_conv = false;
  cubic_beta = 1;
  cubic_wmax = 0;
  cubic_last_wmax = 0;
  cubic_last_decrease = 0;
  bic_min_win = 0;
  bic_max_win = 100;
  bic_target_win = 0;
  bic_ss_cwnd = 0;
  bic_ss_target = 0;
  is_bic_ss = false;
}

window_decrease_lem_example :
    (w' : PconState whole) × (window_decrease whole 9 5 pcon ≡ ok w') × (ltb w'.window 2 ≡ false)
window_decrease_lem_example = window_decrease_lem whole 9 5 pcon refl (omega arith)

-- Two contents, the terms of which are 10 for each.
abbrev popular : ZipfState whole
popular = record {
  cbr = record { frequency = 1; first_time = false; random = none };
  number_of_contents = 2;
  q = 0;
  s = 1;
  p_cum = λ j. if j == 1 then 10 else 20;
}

abbrev small_pow : ℕ → ℕ → ℕ
small_pow a b = 1

set_number_of_contents_lem_example :
    (set_number_of_contents whole small_pow 3 popular).p_cum 3 ≡ 3 / 3
set_number_of_contents_lem_example =
    set_number_of_contents_lem whole small_pow 3 popular 3 (omega arith) (omega arith)

get_next_seq_lem_example :
    IsChosen whole popular.p_cum 15 1 3 (get_next_seq whole 15 popular)
    ⊎ (((j : ℕ) → 1 ≤ j → j < 3 → ltb (popular.p_cum j) 15 ≡ true)
        × (get_next_seq whole 15 popular ≡ 1))
get_next_seq_lem_example = get_next_seq_lem whole 15 popular

-- The value 15 lies after the first entry, and not after the second.
second_content : get_next_seq whole 15 popular ≡ 2
unfolding get_next_seq
second_content = refl
