-- ===== src/Topology/Annotated.antt =====
-- utils/topology/annotated-topology-reader.cpp, Read: the section of links. A line is its text; the
-- split into words, and Names::Find, are parameters. processedLinks is the list of its pairs.
pub mod Duplicates
use ndn_sim.Prelude.{
  ℕ, Bool, true, false, ◌&&◌, ◌||◌, List, [], ◌∷◌, Option, none, some, ◌==◌, Result, ok, assertion,
  ◌>>=◌, or_fail,
}
use ndn_sim.Topology.Lines.{eq_text}

-- The words of a line; a word that is missing is empty.
pub record LinkLine : Type 0 where
  pub from : List ℕ
  pub to : List ℕ
  pub capacity : List ℕ
  pub metric : List ℕ
  pub delay : List ℕ
  pub max_packets : List ℕ
  pub loss_rate : List ℕ

-- A link with its nodes, their names, and the attributes that are set.
pub record AnnotatedLink : Type 0 where
  pub from_node : ℕ
  pub from_name : List ℕ
  pub to_node : ℕ
  pub to_name : List ℕ
  pub data_rate : List ℕ
  pub ospf : List ℕ
  pub link_delay : Option (List ℕ)
  pub queue_size : Option (List ℕ)
  pub loss : Option (List ℕ)

-- An empty line, or a comment.
abbrev pub is_skipped : List ℕ → Bool
is_skipped [] = true
is_skipped (c ∷ cs) = c == 35

-- The attribute is set unless the word is empty.
abbrev pub unless_empty : List ℕ → Option (List ℕ)
unless_empty [] = none
unless_empty (c ∷ cs) = some (c ∷ cs)

-- The test of processedLinks[a] for b.
abbrev pub is_processed : List ℕ → List ℕ → List (List ℕ × List ℕ) → Bool
is_processed a b [] = false
is_processed a b ((x, y) ∷ ps) = (eq_text x a && eq_text y b) || is_processed a b ps

-- The link of a line, between the nodes found for it.
abbrev pub link_of : ℕ → ℕ → LinkLine → AnnotatedLink
link_of from to e = record {
  from_node = from;
  from_name = e.from;
  to_node = to;
  to_name = e.to;
  data_rate = e.capacity;
  ospf = e.metric;
  link_delay = unless_empty e.delay;
  queue_size = unless_empty e.max_packets;
  loss = unless_empty e.loss_rate;
}

module _ (find : List ℕ → Option ℕ) where
  unfoldable pub annotated_link : LinkLine → Result AnnotatedLink
  annotated_link e = or_fail (find e.from) assertion >>= λ from.
      or_fail (find e.to) assertion >>= λ to. ok (link_of from to e)

  -- The loop over the lines of the section. The result is what AddLink adds.
  unfoldable pub read_links :
      (List ℕ → LinkLine) → List (List ℕ × List ℕ) → List (List ℕ) → Result (List AnnotatedLink)
  unfolding annotated_link
  read_links split processed [] = ok []
  read_links split processed (line ∷ lines) = elim (is_skipped line) [
    | true ↦ read_links split processed lines
    | false ↦ elim (is_processed (split line).to (split line).from processed) [
      | true ↦ read_links split processed lines
      | false ↦ annotated_link (split line) >>= λ l.
          read_links split (((split line).from, (split line).to) ∷ processed) lines >>= λ ls.
          ok (l ∷ ls)
    ]
  ]
