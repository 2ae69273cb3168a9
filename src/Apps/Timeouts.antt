-- ===== src/Apps/Timeouts.antt =====
-- apps/ndn-consumer.hpp, SeqTimeout and SeqTimeoutsContainer: a boost::multi_index_container, which
-- is not part of the repository, with a unique index by sequence number and one by time.
use ndn_sim.Prelude.{ℕ, suc, ◌≡◌, Option, none, some, ◌==◌, if◌then◌else◌}
use ndn_sim.Prelude.Int.{ℤ, ◌≤ℤ◌}

pub record SeqTimeout : Type 0 where
  pub seq : ℕ
  pub time : ℤ

-- The first of two entries of one sequence number stays.
abbrev pub keep_first : Option SeqTimeout → SeqTimeout → SeqTimeout
keep_first none e = e
keep_first (some old) e = old

pub record TimeoutContainers : Type 1 where
  pub Container : Type 0
  pub empty : Container
  pub insert : SeqTimeout → Container → Container
  -- `erase` by sequence number, which is also that of an entry
  pub erase : ℕ → Container → Container
  pub find : ℕ → Container → Option SeqTimeout
  -- the first entry of the index by time
  pub first : Container → Option SeqTimeout
  pub size : Container → ℕ
  pub find-empty : (k : ℕ) → find k empty ≡ none
  pub find-insert :
      (k : ℕ) (e : SeqTimeout) (c : Container)
      → find k (insert e c) ≡ (if e.seq == k then some (keep_first (find k c) e) else find k c)
  pub find-erase :
      (k s : ℕ) (c : Container) → find k (erase s c) ≡ (if s == k then none else find k c)
  pub first_none : (c : Container) → first c ≡ none → (k : ℕ) → find k c ≡ none
  pub first_some : (c : Container) (e : SeqTimeout) → first c ≡ some e → find e.seq c ≡ some e
  pub first_least :
      (c : Container) (e : SeqTimeout)
      → first c ≡ some e
      → (k : ℕ) (g : SeqTimeout) → find k c ≡ some g
      → e.time ≤ℤ g.time
  pub size-erase :
      (c : Container) (s : ℕ) (e : SeqTimeout) → find s c ≡ some e → suc (size (erase s c)) ≡ size c
