-- ===== src/Topology/Components/Sizes.antt =====
-- utils/topology/rocketfuel-map-reader.cpp, KeepOnlyBiggestConnectedComponent: the sizes of the
-- components, and the greatest of them.
use ndn_sim.Prelude.{
  ℕ, zero, suc, ◌+◌, ◌≤◌, ◌<◌, ◌-◌, ◌≡◌, refl, ◌∙◌, ap, List, [], ◌∷◌, length, arith, ltb, ◌==◌,
  filter, if◌then◌else◌, Bool-cases, inl, inr,
}
use mathlib.Core.List.{Memᴰ}
use ndn_sim.Topology.Components.{count_up, zeros, count_sizes, max_from, max_element}

abbrev pub size_at : List ℕ → ℕ → ℕ
size_at [] i = 0
size_at (n ∷ ns) zero = n
size_at (n ∷ ns) (suc i) = size_at ns i

length-count_up : (i : ℕ) (ns : List ℕ) → length (count_up i ns) ≡ length ns
unfolding count_up
length-count_up i [] = refl
length-count_up zero (n ∷ ns) = refl
length-count_up (suc i) (n ∷ ns) = omega (arith, length-count_up i ns)

size_at-count_up :
    (j : ℕ) (ns : List ℕ) (i : ℕ)
    → j < length ns
    → size_at (count_up j ns) i ≡ (if j == i then suc (size_at ns i) else size_at ns i)
unfolding count_up
size_at-count_up j [] i h = absurd (omega arith)
size_at-count_up zero (n ∷ ns) zero h = refl
size_at-count_up zero (n ∷ ns) (suc i) h = ground arith
size_at-count_up (suc j) (n ∷ ns) zero h = ground arith
size_at-count_up (suc j) (n ∷ ns) (suc i) h = ground (arith, size_at-count_up j ns i)

-- How many vertices have a label.
abbrev pub members : (ℕ → ℕ) → ℕ → List ℕ → List ℕ
members label i = filter (λ v. label v == i)

size_at-count_sizes :
    (label : ℕ → ℕ) (vs sizes : List ℕ) (i : ℕ)
    → ((v : ℕ) → Memᴰ v vs → label v < length sizes)
    → size_at (count_sizes label vs sizes) i ≡ length (members label i vs) + size_at sizes i
unfolding count_sizes
size_at-count_sizes label [] sizes i h = omega arith
size_at-count_sizes label (v ∷ vs) sizes i h =
    let l = length-count_up (label v) sizes in
    let rest =
      size_at-count_sizes label vs (count_up (label v) sizes) i
        (λ w m. let b = h w (Memᴰ.tail m) in omega (arith, l, b)) in
    ground (arith, rest, size_at-count_up (label v) sizes i (h v (Memᴰ.head refl)))

size_at-zeros : (n i : ℕ) → size_at (zeros n) i ≡ 0
size_at-zeros zero i = refl
size_at-zeros (suc n) zero = refl
size_at-zeros (suc n) (suc i) = size_at-zeros n i

length-zeros : (n : ℕ) → length (zeros n) ≡ n
length-zeros zero = refl
length-zeros (suc n) = omega (arith, length-zeros n)

-- `f` gives the whole list, of which `ns` is what follows the first `i` elements.
max_from-lem :
    (f : ℕ → ℕ) (largest best i : ℕ) (ns : List ℕ)
    → f largest ≡ best
    → ((j : ℕ) → j < i → f j ≤ best)
    → ((k : ℕ) → f (i + k) ≡ size_at ns k)
    → (j : ℕ) → f j ≤ f (max_from largest best i ns)
unfolding max_from
max_from-lem f largest best i [] e below rest j = elim (Bool-cases (ltb j i)) [
  | inl y ↦ omega (arith, below j (ground arith), e)
  | inr n ↦
      let split : j ≡ i + (j - i) = ground arith in
      let gone : f j ≡ 0 = ap f split ∙ rest (j - i) in omega (arith, gone)
]
max_from-lem f largest best i (n ∷ ns) e below rest j =
    let here : f i ≡ n = ap f (let same : i ≡ i + 0 = omega arith in same) ∙ rest 0 in
    let next : (k : ℕ) → f (i + 1 + k) ≡ size_at ns k =
      λ k. ap f (let same : i + 1 + k ≡ i + suc k = omega arith in same) ∙ rest (suc k) in
    elim (Bool-cases (ltb best n)) [
      | inl y ↦ rw y (
          max_from-lem f i n (i + 1) ns here
            (λ m h. elim (Bool-cases (m == i)) [
              | inl same ↦ let q : m ≡ i = ground arith in omega (arith, ap f q, here)
              | inr other ↦ let b = below m (ground arith) in ground (arith, b)
            ])
            next j)
      | inr w ↦ rw w (
          max_from-lem f largest best (i + 1) ns e
            (λ m h. elim (Bool-cases (m == i)) [
              | inl same ↦ let q : m ≡ i = ground arith in ground (arith, ap f q, here)
              | inr other ↦ below m (ground arith)
            ])
            next j)
    ]

size_at-max_element : (ns : List ℕ) (j : ℕ) → size_at ns j ≤ size_at ns (max_element ns)
unfolding max_element
size_at-max_element [] j = omega arith
size_at-max_element (n ∷ ns) j =
    max_from-lem (size_at (n ∷ ns)) 0 n 1 ns refl
      (λ i h. let first : i ≡ 0 = omega arith in rw first (omega arith)) (λ k. rw (one-add k) refl)
      j
  where
    one-add : (k : ℕ) → 1 + k ≡ suc k
    one-add k = omega arith

-- The component that is chosen has at least as many vertices as any other.
pub max_element-count_sizes :
    (label : ℕ → ℕ) (number : ℕ) (vs : List ℕ) (i : ℕ)
    → ((v : ℕ) → Memᴰ v vs → label v < number)
    → length (members label i vs)
      ≤ length (members label (max_element (count_sizes label vs (zeros number))) vs)
max_element-count_sizes label number vs i h =
    let sizes = count_sizes label vs (zeros number) in
    let inside : (v : ℕ) → Memᴰ v vs → label v < length (zeros number) =
      λ v m. let b = h v m in omega (arith, length-zeros number, b) in
    omega (
      arith,
      size_at-max_element sizes i,
      size_at-count_sizes label vs (zeros number) i inside,
      size_at-count_sizes label vs (zeros number) (max_element sizes) inside,
      size_at-zeros number i,
      size_at-zeros number (max_element sizes),
    )
