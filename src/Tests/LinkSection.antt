-- ===== src/Tests/LinkSection.antt =====
-- The section of links of an annotated topology: nodes "a" and "b", with a link in both directions.
use ndn_sim.Prelude.{
  ℕ, ◌≡◌, refl, List, [], ◌∷◌, Option, none, some, ◌==◌, if◌then◌else◌, ok, ◌>>=◌, length,
}
use ndn_sim.Topology.Annotated.{LinkLine, read_links, annotated_link}

-- The names are the first two letters of a line, and the metric is the third.
abbrev words : List ℕ → LinkLine
words (a ∷ b ∷ c ∷ cs) = record {
  from = a ∷ [];
  to = b ∷ [];
  capacity = [];
  metric = c ∷ [];
  delay = [];
  max_packets = [];
  loss_rate = [];
}
words _ = record {
  from = [];
  to = [];
  capacity = [];
  metric = [];
  delay = [];
  max_packets = [];
  loss_rate = [];
}

abbrev node_named : List ℕ → Option ℕ
node_named [] = none
node_named (c ∷ cs) = if c == 97 then some 0 else if c == 98 then some 1 else none

-- "#", "ab1", "", "ba1"
abbrev section : List (List ℕ)
section = (35 ∷ []) ∷ (97 ∷ 98 ∷ 49 ∷ []) ∷ [] ∷ (98 ∷ 97 ∷ 49 ∷ []) ∷ []

-- The line for the way back adds no link.
one_link : (read_links node_named words [] section >>= λ ls. ok (length ls)) ≡ ok 1
unfolding read_links annotated_link
one_link = refl

-- A line that stands there twice adds two links.
same_line_twice :
    (read_links node_named words [] ((97 ∷ 98 ∷ 49 ∷ []) ∷ (97 ∷ 98 ∷ 49 ∷ []) ∷ []) >>= λ ls.
    ok (length ls))
    ≡ ok 2
unfolding read_links annotated_link
same_line_twice = refl
