-- ===== src/Apps/Names.antt =====
-- The names of ndn-cxx, which is not part of the repository, as the applications use them: a list of
-- components, some of which hold a sequence number.
use ndn_sim.Prelude.{ℕ, ◌≡◌, refl, Option, none, some, List, [], ◌∷◌, ◌++◌}

pub record NameComponents : Type 1 where
  pub Component : Type 0
  pub from_sequence_number : ℕ → Component
  -- `none` where toSequenceNumber throws
  pub to_sequence_number : Component → Option ℕ
  pub to_from : (n : ℕ) → to_sequence_number (from_sequence_number n) ≡ some n

module _ {ℓ} {A : Type ℓ} where
  abbrev pub last_component : List A → Option A
  last_component [] = none
  last_component (x ∷ []) = some x
  last_component (x ∷ y ∷ xs) = last_component (y ∷ xs)

  -- `at(-2)`
  abbrev pub before_last : List A → Option A
  before_last [] = none
  before_last (x ∷ []) = none
  before_last (x ∷ y ∷ []) = some x
  before_last (x ∷ y ∷ z ∷ xs) = before_last (y ∷ z ∷ xs)

  pub last_component-append : (xs : List A) (x : A) → last_component (xs ++ x ∷ []) ≡ some x
  last_component-append [] x = refl
  last_component-append (y ∷ []) x = refl
  last_component-append (y ∷ z ∷ xs) x = last_component-append (z ∷ xs) x

  pub before_last-append : (xs : List A) (x : A) → before_last (xs ++ x ∷ []) ≡ last_component xs
  before_last-append [] x = refl
  before_last-append (y ∷ []) x = refl
  before_last-append (y ∷ z ∷ []) x = refl
  before_last-append (y ∷ z ∷ w ∷ xs) x = before_last-append (z ∷ w ∷ xs) x

  pub before_last_pair : (xs : List A) (x y : A) → before_last (xs ++ x ∷ y ∷ []) ≡ some x
  before_last_pair [] x y = refl
  before_last_pair (z ∷ []) x y = refl
  before_last_pair (z ∷ w ∷ []) x y = refl
  before_last_pair (z ∷ w ∷ v ∷ xs) x y = before_last_pair (w ∷ v ∷ xs) x y
