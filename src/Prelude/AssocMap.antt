-- ===== src/Prelude/AssocMap.antt =====
-- std::map and std::unordered_map as association lists: the entries stand in iteration order.
use mathlib.Core.Path.{◌≡◌, refl, ◌∙◌}
use mathlib.Core.Bool.{false}
use mathlib.Core.Option.{Option, none, some}
use mathlib.Core.List.{List, [], ◌∷◌}
use native.Mathlib.Omega.{arith}
use Prim.Native.Nat.{ℕ}
use ndn_sim.Prelude.Tests.{◌==◌, if◌then◌else◌}

module _ {ℓ} {V : Type ℓ} where
  -- `find`
  abbrev pub lookup : ℕ → List (ℕ × V) → Option V
  lookup k [] = none
  lookup k ((j, v) ∷ m) = if j == k then some v else lookup k m

  -- A write through the reference that `at` returns; nothing without an entry.
  abbrev pub update : ℕ → (V → V) → List (ℕ × V) → List (ℕ × V)
  update k f [] = []
  update k f ((j, v) ∷ m) = if j == k then (j, f v) ∷ m else (j, v) ∷ update k f m

  -- `m[k] = v`
  abbrev pub insert : ℕ → V → List (ℕ × V) → List (ℕ × V)
  insert k v [] = (k, v) ∷ []
  insert k v ((j, w) ∷ m) = if j == k then (j, v) ∷ m else (j, w) ∷ insert k v m

  -- `erase(k)`
  abbrev pub erase : ℕ → List (ℕ × V) → List (ℕ × V)
  erase k [] = []
  erase k ((j, v) ∷ m) = if j == k then erase k m else (j, v) ∷ erase k m

  pub lookup-insert :
      (k i : ℕ) (v : V) (m : List (ℕ × V))
      → lookup i (insert k v m) ≡ (if k == i then some v else lookup i m)
  lookup-insert k i v [] = refl
  lookup-insert k i v ((j, w) ∷ m) = ground (arith, lookup-insert k i v m)

  pub lookup-erase :
      (k i : ℕ) (m : List (ℕ × V)) → lookup i (erase k m) ≡ (if k == i then none else lookup i m)
  lookup-erase k i [] = ground arith
  lookup-erase k i ((j, w) ∷ m) = ground (arith, lookup-erase k i m)

  pub lookup-update :
      (k i : ℕ) (f : V → V) (v : V) (m : List (ℕ × V))
      → lookup k m ≡ some v
      → lookup i (update k f m) ≡ (if k == i then some (f v) else lookup i m)
  lookup-update k i f v [] h = ground arith
  lookup-update k i f v ((j, w) ∷ m) h = ground (arith, lookup-update k i f v m)

abbrev pub map_option {ℓ κ} : {A : Type ℓ} {B : Type κ} → (A → B) → Option A → Option B
map_option f none = none
map_option f (some a) = some (f a)

-- The same write, whether or not there is an entry.
pub lookup-update_any {ℓ} :
    {V : Type ℓ} (k i : ℕ) (f : V → V) (m : List (ℕ × V))
    → lookup i (update k f m) ≡ (if k == i then map_option f (lookup i m) else lookup i m)
lookup-update_any k i f [] = ground arith
lookup-update_any k i f ((j, w) ∷ m) = ground (arith, lookup-update_any k i f m)

pub lookup-update_other {ℓ} :
    {V : Type ℓ} (k i : ℕ) (f : V → V) (m : List (ℕ × V))
    → (k == i) ≡ false
    → lookup i (update k f m) ≡ lookup i m
lookup-update_other k i f m n = lookup-update_any k i f m ∙ rw n refl
