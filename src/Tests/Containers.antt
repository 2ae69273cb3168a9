-- ===== src/Tests/Containers.antt =====
-- A container of timeouts: the time of the entry of each sequence number, if there is one, at that
-- position of a list.
use ndn_sim.Prelude.{
  ℕ, zero, suc, ◌+◌, ◌≡◌, refl, ap, List, [], ◌∷◌, Option, none, some, arith, ◌==◌, if◌then◌else◌,
  Option-cases, Bool-cases, inl, inr,
}
use ndn_sim.Prelude.Int.{ℤ, leb_ℤ, ◌≤ℤ◌}
use ndn_sim.Apps.Timeouts.{SeqTimeout, keep_first, TimeoutContainers}

abbrev Slots : Type 0
Slots = List (Option ℤ)

abbrev time_at : ℕ → Slots → Option ℤ
time_at k [] = none
time_at zero (x ∷ c) = x
time_at (suc k) (x ∷ c) = time_at k c

abbrev fill : Option ℤ → ℤ → Option ℤ
fill none t = some t
fill (some u) t = some u

abbrev put : ℕ → ℤ → Slots → Slots
put zero t [] = some t ∷ []
put zero t (x ∷ c) = fill x t ∷ c
put (suc k) t [] = none ∷ put k t []
put (suc k) t (x ∷ c) = x ∷ put k t c

abbrev drop_at : ℕ → Slots → Slots
drop_at k [] = []
drop_at zero (x ∷ c) = none ∷ c
drop_at (suc k) (x ∷ c) = x ∷ drop_at k c

abbrev at_position : ℕ → Option ℤ → Option SeqTimeout
at_position k none = none
at_position k (some t) = some (record { seq = k; time = t })

abbrev earlier : ℕ → ℤ → Option SeqTimeout → SeqTimeout
earlier n t none = record { seq = n; time = t }
earlier n t (some g) = if leb_ℤ t g.time then record { seq = n; time = t } else g

abbrev either_first : ℕ → Option ℤ → Option SeqTimeout → Option SeqTimeout
either_first n none rest = rest
either_first n (some t) rest = some (earlier n t rest)

abbrev first_from : ℕ → Slots → Option SeqTimeout
first_from n [] = none
first_from n (x ∷ c) = either_first n x (first_from (n + 1) c)

abbrev entries : Slots → ℕ
entries [] = 0
entries (none ∷ c) = entries c
entries (some t ∷ c) = suc (entries c)

time_at-put :
    (k s : ℕ) (t : ℤ) (c : Slots)
    → time_at k (put s t c) ≡ (if s == k then fill (time_at k c) t else time_at k c)
time_at-put zero zero t [] = refl
time_at-put zero zero t (x ∷ c) = refl
time_at-put zero (suc s) t [] = ground arith
time_at-put zero (suc s) t (x ∷ c) = ground arith
time_at-put (suc k) zero t [] = ground arith
time_at-put (suc k) zero t (x ∷ c) = ground arith
time_at-put (suc k) (suc s) t [] = ground (arith, time_at-put k s t [])
time_at-put (suc k) (suc s) t (x ∷ c) = ground (arith, time_at-put k s t c)

time_at-drop_at :
    (k s : ℕ) (c : Slots) → time_at k (drop_at s c) ≡ (if s == k then none else time_at k c)
time_at-drop_at k s [] = ground arith
time_at-drop_at zero zero (x ∷ c) = refl
time_at-drop_at zero (suc s) (x ∷ c) = ground arith
time_at-drop_at (suc k) zero (x ∷ c) = ground arith
time_at-drop_at (suc k) (suc s) (x ∷ c) = ground (arith, time_at-drop_at k s c)

first_from-none : (n : ℕ) (c : Slots) → first_from n c ≡ none → (k : ℕ) → time_at k c ≡ none
first_from-none n [] h k = refl
first_from-none n (none ∷ c) h zero = refl
first_from-none n (none ∷ c) h (suc k) = first_from-none (n + 1) c h k
first_from-none n (some t ∷ c) h k = cc

first_from-some :
    (n : ℕ) (c : Slots) (e : SeqTimeout)
    → first_from n c ≡ some e
    → (i : ℕ) × (e.seq ≡ n + i) × (time_at i c ≡ some e.time)
first_from-some n [] e h = cc
first_from-some n (none ∷ c) e h =
    let (i, p, q) = first_from-some (n + 1) c e h in (suc i, omega arith, q)
first_from-some n (some t ∷ c) e h = elim (Option-cases (first_from (n + 1) c)) [
  | inl f ↦ (0, ground arith, ground arith)
  | inr (g, f) ↦ elim (Bool-cases (leb_ℤ t g.time)) [
    | inl l ↦ (0, ground arith, ground arith)
    | inr l ↦ let (i, p, q) = first_from-some (n + 1) c g f in (suc i, ground arith, ground arith)
  ]
]

first_from-least :
    (n : ℕ) (c : Slots) (e : SeqTimeout)
    → first_from n c ≡ some e
    → (k : ℕ) (t : ℤ) → time_at k c ≡ some t
    → e.time ≤ℤ t
first_from-least n [] e h k t g = cc
first_from-least n (none ∷ c) e h zero t g = cc
first_from-least n (none ∷ c) e h (suc k) t g = first_from-least (n + 1) c e h k t g
first_from-least n (some u ∷ c) e h zero t g = ground arith
first_from-least n (some u ∷ c) e h (suc k) t g = elim (Option-cases (first_from (n + 1) c)) [
  | inl f ↦ absurd (ground (arith, first_from-none (n + 1) c f k))
  | inr (e', f) ↦ ground (arith, first_from-least (n + 1) c e' f k t g)
]

entries-drop_at :
    (s : ℕ) (c : Slots) (t : ℤ) → time_at s c ≡ some t → suc (entries (drop_at s c)) ≡ entries c
entries-drop_at s [] t h = cc
entries-drop_at zero (none ∷ c) t h = cc
entries-drop_at zero (some u ∷ c) t h = refl
entries-drop_at (suc s) (none ∷ c) t h = entries-drop_at s c t h
entries-drop_at (suc s) (some u ∷ c) t h = ap suc (entries-drop_at s c t h)

pub find-put :
    (k : ℕ) (e : SeqTimeout) (c : Slots)
    → at_position k (time_at k (put e.seq e.time c)) ≡ (
        if e.seq == k
        then some (keep_first (at_position k (time_at k c)) e)
        else at_position k (time_at k c))
find-put k e c = ground (arith, time_at-put k e.seq e.time c)

pub find-drop_at :
    (k s : ℕ) (c : Slots)
    → at_position k (time_at k (drop_at s c))
      ≡ (if s == k then none else at_position k (time_at k c))
find-drop_at k s c = ground (arith, time_at-drop_at k s c)

pub first_found_none :
    (c : Slots) → first_from 0 c ≡ none → (k : ℕ) → at_position k (time_at k c) ≡ none
first_found_none c h k = ground (arith, first_from-none 0 c h k)

pub first_found :
    (c : Slots) (e : SeqTimeout)
    → first_from 0 c ≡ some e
    → at_position e.seq (time_at e.seq c) ≡ some e
first_found c e h = let (i, p, q) = first_from-some 0 c e h in ground arith

pub first_found_least :
    (c : Slots) (e : SeqTimeout)
    → first_from 0 c ≡ some e
    → (k : ℕ) (g : SeqTimeout) → at_position k (time_at k c) ≡ some g
    → e.time ≤ℤ g.time
first_found_least c e h k g f = first_from-least 0 c e h k g.time (ground arith)

pub size-drop_at :
    (c : Slots) (s : ℕ) (e : SeqTimeout)
    → at_position s (time_at s c) ≡ some e
    → suc (entries (drop_at s c)) ≡ entries c
size-drop_at c s e h = entries-drop_at s c e.time (ground arith)

abbrev pub slot_containers : TimeoutContainers
slot_containers = record {
  Container = Slots;
  empty = [];
  insert = λ e c. put e.seq e.time c;
  erase = drop_at;
  find = λ k c. at_position k (time_at k c);
  first = first_from 0;
  size = entries;
  find-empty = λ k. refl;
  find-insert = find-put;
  find-erase = find-drop_at;
  first_none = first_found_none;
  first_some = first_found;
  first_least = first_found_least;
  size-erase = size-drop_at;
}
