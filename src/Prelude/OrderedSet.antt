-- ===== src/Prelude/OrderedSet.antt =====
-- std::set over a strict weak order: a list in rising order, with no two equivalent elements.
use mathlib.Core.Path.{◌≡◌, refl}
use mathlib.Core.Logic.{inl, inr}
use mathlib.Core.Bool.{Bool, true, false, not, ◌&&◌}
use mathlib.Core.List.{List, [], ◌∷◌}
use native.Mathlib.Omega.{arith}
use Prim.Native.Nat.{suc, ◌≤◌}
use ndn_sim.Prelude.Tests.{if◌then◌else◌, Bool-cases}
use ndn_sim.Prelude.Lists.{All, filter, length}

pub record StrictOrder {ℓ} (A : Type ℓ) : Type ℓ where
  pub lt : A → A → Bool
  pub irrefl : (a : A) → lt a a ≡ false
  pub trans : (a b c : A) → lt a b ≡ true → lt b c ≡ true → lt a c ≡ true

module _ {ℓ} {A : Type ℓ} (o : StrictOrder A) where
  open o use {lt, irrefl, trans}

  abbrev pub equivalent : A → A → Bool
  equivalent a b = not (lt a b) && not (lt b a)

  -- `count(a)`, as a test
  unfoldable pub has : A → List A → Bool
  has a [] = false
  has a (x ∷ xs) = if equivalent a x then true else has a xs

  -- `insert(a)`: nothing changes if an equivalent element is there.
  unfoldable pub insert : A → List A → List A
  insert a [] = a ∷ []
  insert a (x ∷ xs) = if lt a x then a ∷ x ∷ xs else (if lt x a then x ∷ insert a xs else x ∷ xs)

  -- `erase(a)`
  unfoldable pub erase : A → List A → List A
  erase a [] = []
  erase a (x ∷ xs) = if equivalent a x then xs else x ∷ erase a xs

  abbrev pub IsSorted : List A → Type ℓ
  IsSorted [] = Unit
  IsSorted (x ∷ xs) = All (λ y. lt x y ≡ true) xs × IsSorted xs

  module _ {κ} (P : A → Type κ) where
    pub All-insert : (a : A) (xs : List A) → P a → All P xs → All P (insert a xs)
    unfolding insert
    All-insert a [] p h = (p, tt)
    All-insert a (x ∷ xs) p h = ground (arith, All-insert a xs p)

    pub All-erase : (a : A) (xs : List A) → All P xs → All P (erase a xs)
    unfolding erase
    All-erase a [] h = tt
    All-erase a (x ∷ xs) h = ground (arith, All-erase a xs)

  All-lt_trans :
      (a b : A) (xs : List A)
      → lt a b ≡ true
      → All (λ y. lt b y ≡ true) xs
      → All (λ y. lt a y ≡ true) xs
  All-lt_trans a b [] h k = tt
  All-lt_trans a b (x ∷ xs) h k = (trans a b x h k.0, All-lt_trans a b xs h k.1)

  pub insert-IsSorted : (a : A) (xs : List A) → IsSorted xs → IsSorted (insert a xs)
  unfolding insert
  insert-IsSorted a [] s = (tt, tt)
  insert-IsSorted a (x ∷ xs) s = elim (Bool-cases (lt a x)) [
    | inl h ↦ rw h ((h, All-lt_trans a x xs h s.0), s)
    | inr h ↦ rw h (elim (Bool-cases (lt x a)) [
      | inl k ↦ rw k (All-insert (λ y. lt x y ≡ true) a xs k s.0, insert-IsSorted a xs s.1)
      | inr k ↦ rw k s
    ])
  ]

  pub erase-IsSorted : (a : A) (xs : List A) → IsSorted xs → IsSorted (erase a xs)
  unfolding erase
  erase-IsSorted a [] s = tt
  erase-IsSorted a (x ∷ xs) s =
      ground (arith, All-erase (λ y. lt x y ≡ true) a xs, erase-IsSorted a xs s.1)

  pub length-insert :
      (a : A) (xs : List A) → has a xs ≡ false → length (insert a xs) ≡ suc (length xs)
  unfolding insert has
  length-insert a [] h = refl
  length-insert a (x ∷ xs) h = ground (arith, length-insert a xs)

  pub length-erase : (a : A) (xs : List A) → has a xs ≡ true → suc (length (erase a xs)) ≡ length xs
  unfolding erase has
  length-erase a [] h = cc
  length-erase a (x ∷ xs) h = ground (arith, length-erase a xs)

  -- A least element goes to the front.
  pub insert_least : (a : A) (xs : List A) → All (λ y. lt a y ≡ true) xs → insert a xs ≡ a ∷ xs
  unfolding insert
  insert_least a [] h = refl
  insert_least a (x ∷ xs) h = rw h.0

  pub All-filter {κ} :
      (P : A → Type κ) (p : A → Bool) (xs : List A) → All P xs → All P (filter p xs)
  All-filter P p [] h = tt
  All-filter P p (x ∷ xs) h = ground (arith, All-filter P p xs)

  pub filter-insert_accepted :
      (p : A → Bool) (a : A) (xs : List A)
      → p a ≡ true
      → IsSorted xs
      → has a xs ≡ false
      → filter p (insert a xs) ≡ insert a (filter p xs)
  unfolding insert has
  filter-insert_accepted p a [] h s n = rw h
  filter-insert_accepted p a (x ∷ xs) h s n = ground (
    arith,
    filter-insert_accepted p a xs h s.1,
    insert_least a (filter p xs),
    All-filter (λ y. lt a y ≡ true) p xs,
    All-lt_trans a x xs,
  )

  pub filter-insert_rejected :
      (p : A → Bool) (a : A) (xs : List A)
      → p a ≡ false
      → has a xs ≡ false
      → filter p (insert a xs) ≡ filter p xs
  unfolding insert has
  filter-insert_rejected p a [] h n = rw h
  filter-insert_rejected p a (x ∷ xs) h n = ground (arith, filter-insert_rejected p a xs h)

  pub has-insert_self : (a : A) (xs : List A) → has a (insert a xs) ≡ true
  unfolding insert has
  has-insert_self a [] = ground (arith, irrefl a)
  has-insert_self a (x ∷ xs) = ground (arith, irrefl a, has-insert_self a xs)

  pub has-insert_kept : (a b : A) (xs : List A) → has b xs ≡ true → has b (insert a xs) ≡ true
  unfolding insert has
  has-insert_kept a b [] h = cc
  has-insert_kept a b (x ∷ xs) h = ground (arith, has-insert_kept a b xs)

  pub length-insert-le : (a : A) (xs : List A) → length (insert a xs) ≤ suc (length xs)
  unfolding insert
  length-insert-le a [] = omega arith
  length-insert-le a (x ∷ xs) = ground (arith, length-insert-le a xs)
