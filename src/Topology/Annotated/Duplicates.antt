-- ===== src/Topology/Annotated/Duplicates.antt =====
-- utils/topology/annotated-topology-reader.cpp, Read: the links that are made of the lines.
use ndn_sim.Prelude.{ℕ, ◌≡◌, ◌⊎◌, Bool, true, false, ◌&&◌, ◌||◌, List, [], ◌∷◌, Option, some, All}
use ndn_sim.Topology.Lines.{eq_text}
use ndn_sim.Topology.Annotated.{LinkLine, AnnotatedLink, is_skipped, is_processed}

-- The links lead from one to the other of two names in turn.
abbrev pub is_reverse : AnnotatedLink → AnnotatedLink → Bool
is_reverse l k = eq_text l.from_name k.to_name && eq_text l.to_name k.from_name

abbrev pub HasNoReverse : List AnnotatedLink → Type 0
HasNoReverse [] = Unit
HasNoReverse (l ∷ ls) = All (λ k. is_reverse l k ≡ false) ls × HasNoReverse ls

abbrev pub names_of : List AnnotatedLink → List (List ℕ × List ℕ)
names_of [] = []
names_of (l ∷ ls) = (l.from_name, l.to_name) ∷ names_of ls

-- Both names of the line are those of nodes.
pub record IsKnown (find : List ℕ → Option ℕ) (e : LinkLine) : Type 0 where
  pub from_key : ℕ
  pub to_key : ℕ
  pub from_found : find e.from ≡ some from_key
  pub to_found : find e.to ≡ some to_key

module _ (find : List ℕ → Option ℕ) (split : List ℕ → LinkLine) where
  -- There is a link between the nodes of the line, or a pair in `processed` for the way back.
  abbrev pub IsCovered : List (List ℕ × List ℕ) → List AnnotatedLink → List ℕ → Type 0
  IsCovered processed ls line =
      (is_skipped line ≡ true)
      ⊎ ((is_processed (split line).to (split line).from processed
            || (is_processed (split line).from (split line).to (names_of ls)
                || is_processed (split line).to (split line).from (names_of ls)))
          ≡ true)

  pub record IsRead (processed : List (List ℕ × List ℕ)) (lines : List (List ℕ))
      (ls : List AnnotatedLink) : Type 0 where
    pub fresh : All (λ l. is_processed l.to_name l.from_name processed ≡ false) ls
    pub no_reverse : HasNoReverse ls
    pub covered : All (IsCovered processed ls) lines
