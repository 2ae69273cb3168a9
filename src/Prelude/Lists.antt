-- ===== src/Prelude/Lists.antt =====
-- Lists measured by native numbers, Boolean filters, and a predicate on all elements.
use Prim.Native.Nat.{ℕ, zero, suc, ◌+◌, ◌≤◌, ◌<◌}
use mathlib.Core.Path.{◌≡◌, refl, sym, ap, ◌∙◌}
use mathlib.Core.Logic.{◌↔◌, inl, inr}
use mathlib.Core.Bool.{Bool, true}
use mathlib.Core.Option.{Option, none, some}
use mathlib.Core.List.{List, [], ◌∷◌, ◌++◌, Memᴰ}
use mathlib.Core.List.Memᴰ
use native.Mathlib.Omega.{arith}
use ndn_sim.Prelude.Tests.{if◌then◌else◌, Bool-cases}

module _ {ℓ} {A : Type ℓ} where
  abbrev pub length : List A → ℕ
  length [] = 0
  length (x ∷ xs) = suc (length xs)

  pub length-append : (xs ys : List A) → length (xs ++ ys) ≡ length xs + length ys
  length-append [] ys = omega arith
  length-append (x ∷ xs) ys = omega (arith, length-append xs ys)

  -- The elements that pass a Boolean test, in order.
  abbrev pub filter : (A → Bool) → List A → List A
  filter p [] = []
  filter p (x ∷ xs) = if p x then x ∷ filter p xs else filter p xs

  pub length-filter-le : (p : A → Bool) (xs : List A) → length (filter p xs) ≤ length xs
  length-filter-le p [] = omega arith
  length-filter-le p (x ∷ xs) = ground (arith, length-filter-le p xs)

abbrev pub All {ℓ κ} : {A : Type ℓ} → (A → Type κ) → List A → Type κ
All P [] = Unit
All P (x ∷ xs) = P x × All P xs

abbrev pub get_elem? {ℓ} : {A : Type ℓ} → List A → ℕ → Option A
get_elem? [] i = none
get_elem? (x ∷ xs) zero = some x
get_elem? (x ∷ xs) (suc i) = get_elem? xs i

pub get_elem?-some {ℓ} :
    {A : Type ℓ} (xs : List A) (i : ℕ)
    → i < length xs
    → (x : A) × (get_elem? xs i ≡ some x) × Memᴰ x xs
get_elem?-some [] i h = absurd (omega arith)
get_elem?-some (x ∷ xs) zero h = (x, refl, Memᴰ.head refl)
get_elem?-some (x ∷ xs) (suc i) h =
    let (y, e, m) = get_elem?-some xs i (omega arith) in (y, e, Memᴰ.tail m)

-- What a filter keeps.
pub mem-filter {ℓ} :
    {A : Type ℓ} (p : A → Bool) (xs : List A) (x : A)
    → Memᴰ x (filter p xs) ↔ (Memᴰ x xs × (p x ≡ true))
mem-filter p [] x = (λ m. elim m [ ], λ m. elim m.0 [ ])
mem-filter p (y ∷ xs) x = elim (Bool-cases (p y)) [
  | inl e ↦ (
    λ m. elim (Memᴰ.cases_cons (rw e at m)) [
      | inl same ↦ (Memᴰ.head same, ap p same ∙ e)
      | inr later ↦ let (n, q) = (mem-filter p xs x).0 later in (Memᴰ.tail n, q)
    ],
    λ (m, q). elim (Memᴰ.cases_cons m) [
      | inl same ↦ rw e (Memᴰ.head same)
      | inr later ↦ rw e (Memᴰ.tail ((mem-filter p xs x).1 (later, q)))
    ],
  )
  | inr e ↦ (
    λ m. let (n, q) = (mem-filter p xs x).0 (rw e at m) in (Memᴰ.tail n, q),
    λ (m, q). elim (Memᴰ.cases_cons m) [
      | inl same ↦ (let bad = sym e ∙ (sym (ap p same) ∙ q) in cc)
      | inr later ↦ rw e ((mem-filter p xs x).1 (later, q))
    ],
  )
]

pub All-map {ℓ κ ι} :
    {A : Type ℓ} {P : A → Type κ} {Q : A → Type ι} (xs : List A)
    → ((x : A) → P x → Q x)
    → All P xs
    → All Q xs
All-map [] f h = tt
All-map (x ∷ xs) f h = (f x h.0, All-map xs f h.1)

pub All-zip {ℓ} :
    {A : Type ℓ} (P Q R : A → Type 0) (xs : List A)
    → ((x : A) → P x → Q x → R x)
    → All P xs
    → All Q xs
    → All R xs
All-zip P Q R [] f h k = tt
All-zip P Q R (x ∷ xs) f h k = (f x h.0 k.0, All-zip P Q R xs f h.1 k.1)
