-- ===== src/Lfid/DeadEnds/Drain.antt =====
-- helper/lfid/remove-loops.cpp, removeDeadEnds: the loop over the set of pairs, to its end.
use ndn_sim.Prelude.{
  ℕ, zero, suc, ◌+◌, ◌*◌, ◌≤◌, ◌≡◌, refl, ap, subst, ◌∙◌, false, List, [], ◌∷◌, some, arith, ◌==◌,
  length, ltb, leb, Bool-cases, inl, inr, abort, Ends, Ends-bind, Ends-guard, Ends-map, returns,
}
use native.Mathlib.Nat.{suc-mul}
use ndn_sim.Prelude.AssocMap.{lookup}
use ndn_sim.Lfid.Fib.{AbstractFib, num_enabled_nh_per_dst}
use ndn_sim.Lfid.AllNodes.{AllNodeFib, Erases, done, next}
use ndn_sim.Lfid.AllNodes.Downward.{Erases-keeps}
use ndn_sim.Lfid.AllNodes.Removal.{
  or_empty, nexthops_of, le_total, entries_of, all_entries, Taken, erase_at-Taken,
}
use ndn_sim.Lfid.DeadEnds.{
  NodeNextHop, DeadState, remove_dead_end, check_entries, check_other, check_pair, drain_pairs,
}
use ndn_sim.Lfid.DeadEnds.Pushes.{push_reverse-Ends, get_nexthops-Ends, fib_at-Ends}
use ndn_sim.Lfid.DeadEnds.Loop.{entries, IsLoop, IsLoop-tail, IsLoop-removed}

fuel_step :
    (e e' m n n' fuel : ℕ)
    → suc e' ≡ e
    → e ≤ m
    → n' ≤ n + e'
    → e * (m + 1) + suc n ≤ suc fuel
    → e' * (m + 1) + n' ≤ fuel
fuel_step e e' m n n' fuel h b g f =
    let step : e * (m + 1) ≡ e' * (m + 1) + (m + 1) = rw (← h, suc-mul) refl in
    omega (arith, step, h, b, g, f)

num_enabled-Ends :
    (node dst : ℕ) (fibs : AllNodeFib) (fib : AbstractFib)
    → lookup node fibs ≡ some fib
    → Ends
        (λ n. (set : _) × (nexthops_of node dst fibs ≡ some set) × (n ≡ length set))
        (num_enabled_nh_per_dst fib dst)
unfolding num_enabled_nh_per_dst
num_enabled-Ends node dst fibs fib k =
    Ends-guard _ abort tt
      λ _. Ends-bind _ (get_nexthops-Ends node dst fibs fib k) λ set e. returns (set, e, refl)

length-le-entries :
    (node dst : ℕ) (fibs : AllNodeFib) (fib : AbstractFib) (set : _)
    → lookup node fibs ≡ some fib
    → nexthops_of node dst fibs ≡ some set
    → length set ≤ entries dst fibs
unfolding nexthops_of
length-le-entries node dst fibs fib set k e =
    let same : lookup dst fib.per_dst_fib ≡ some set = ground (arith, k, e) in
    subst (λ o. length (or_empty o) ≤ entries dst fibs) same
      (le_total (entries_of dst) node fib fibs k)

module _ (dst : ℕ) where
  -- What a round does with the first pair: it drops it, or erases its nexthop.
  data Round (p : NodeNextHop) (set : List NodeNextHop) (s : DeadState)
      : List NodeNextHop × DeadState → Type 0 where
    kept : IsLoop dst set s.fibs → Round p set s (set, s)
    took :
        {set' : List NodeNextHop} {fibs' : AllNodeFib}
        → Taken p.node dst p.nh.nh_id s.fibs fibs'
        → IsLoop dst set' fibs'
        → length set' ≤ length set + entries dst fibs'
        → Round p set s (set', record { fibs = fibs'; removed = suc s.removed })

  remove_dead_end-Ends :
      (p : NodeNextHop) (set : List NodeNextHop) (s : DeadState)
      → IsLoop dst (p ∷ set) s.fibs
      → Ends (Round p set s) (remove_dead_end dst p set s)
  unfolding remove_dead_end
  remove_dead_end-Ends p set s l =
      Ends-bind _ (erase_at-Taken p.node dst p.nh.nh_id s.fibs p.nh l.valid l.present.0) λ fibs' t.
        let v = (Erases-keeps (next _ _ _ t.step (done fibs')) l.valid).0 in
        Ends-bind _ (fib_at-Ends p.node fibs') λ fib k.
          Ends-bind _ (get_nexthops-Ends p.node dst fibs' fib k) λ owns o.
            Ends-bind _ (push_reverse-Ends dst p.node fibs' owns set) λ set' g. returns (
              took t (IsLoop-removed dst p set set' s.fibs fibs' owns l v t o g.0 g.1)
                (omega (arith, g.0.bounded, length-le-entries p.node dst fibs' fib owns k o)))

  check_entries-Ends :
      (p : NodeNextHop) (n : ℕ) (set : List NodeNextHop) (s : DeadState) (others : _)
      → IsLoop dst (p ∷ set) s.fibs
      → nexthops_of p.nh.nh_id dst s.fibs ≡ some others
      → n ≡ length others
      → Ends (Round p set s) (check_entries dst p n set s)
  unfolding check_entries
  check_entries-Ends p n set s others l e c = elim (Bool-cases (leb n 1)) [
    | inl h ↦ rw h (remove_dead_end-Ends p set s l)
    | inr h ↦ rw h (
        returns (
          kept (
            IsLoop-tail dst p set s.fibs l (λ d.
              let o = d.only in
              let sole : others ≡ d.own ∷ [] = ground (arith, o, e) in
              ground (arith, c, h, ap length sole)))))
  ]

  check_other-Ends :
      (p : NodeNextHop) (set : List NodeNextHop) (s : DeadState)
      → IsLoop dst (p ∷ set) s.fibs
      → Ends (Round p set s) (check_other dst p set s)
  unfolding check_other
  check_other-Ends p set s l = Ends-bind _ (fib_at-Ends p.nh.nh_id s.fibs) λ other k.
      Ends-bind _ (num_enabled-Ends p.nh.nh_id dst s.fibs other k)
        λ n e. Ends-guard (ltb 0 n) abort tt λ _. check_entries-Ends p n set s e.0 l e.1 e.2

  check_pair-Ends :
      (p : NodeNextHop) (set : List NodeNextHop) (s : DeadState)
      → IsLoop dst (p ∷ set) s.fibs
      → Ends (Round p set s) (check_pair dst p set s)
  unfolding check_pair
  check_pair-Ends p set s l = Ends-bind _ (fib_at-Ends p.node s.fibs) λ own k.
      elim (Bool-cases (p.nh.nh_id == dst)) [
        | inl h ↦ rw h (
            returns (
              kept (
                IsLoop-tail dst p set s.fibs l
                  (λ d. let e = d.elsewhere in absurd (ground arith)))))
        | inr h ↦ rw h (check_other-Ends p set s l)
      ]

  -- From `s` to `t` erasures for this destination were made, and all were counted.
  pub record Progress (s t : DeadState) : Type 0 where
    pub count : ℕ
    pub erases : Erases s.fibs count t.fibs
    pub counted : t.removed ≡ s.removed + count
    pub smaller : all_entries t.fibs + count ≡ all_entries s.fibs
    pub others : (n d : ℕ) → (dst == d) ≡ false → nexthops_of n d t.fibs ≡ nexthops_of n d s.fibs

  Progress-refl : (s : DeadState) → Progress s s
  Progress-refl s = record {
    count = 0;
    erases = done s.fibs;
    counted = omega arith;
    smaller = omega arith;
    others = λ n d h. refl;
  }

  Progress-took :
      (p : NodeNextHop) (s t : DeadState) (fibs' : AllNodeFib)
      → Taken p.node dst p.nh.nh_id s.fibs fibs'
      → Progress (record { fibs = fibs'; removed = suc s.removed }) t
      → Progress s t
  Progress-took p s t fibs' k g = record {
    count = suc g.count;
    erases = next _ _ _ k.step g.erases;
    counted = omega (arith, g.counted);
    smaller = omega (arith, g.smaller, k.fewer_all);
    others = λ n d h. g.others n d h ∙ ground (arith, k.after n d, h);
  }

  abbrev Drained : DeadState → DeadState → Type 0
  Drained s t = IsLoop dst [] t.fibs × Progress s t

  pub drain_pairs-Ends :
      (fuel m : ℕ) (set : List NodeNextHop) (s : DeadState)
      → IsLoop dst set s.fibs
      → entries dst s.fibs ≤ m
      → entries dst s.fibs * (m + 1) + length set ≤ fuel
      → Ends (Drained s) (drain_pairs fuel dst set s)
  unfolding drain_pairs
  drain_pairs-Ends zero m [] s l b f = returns (l, Progress-refl s)
  drain_pairs-Ends zero m (p ∷ set) s l b f = absurd (omega (arith, f))
  drain_pairs-Ends (suc fuel) m [] s l b f = returns (l, Progress-refl s)
  drain_pairs-Ends (suc fuel) m (p ∷ set) s l b f =
      Ends-bind (Round p set s) (check_pair-Ends p set s l) λ r d. go (drain_pairs-Ends fuel m) r d
    where
      go :
          ((set' : List NodeNextHop) (s' : DeadState)
            → IsLoop dst set' s'.fibs
            → entries dst s'.fibs ≤ m
            → entries dst s'.fibs * (m + 1) + length set' ≤ fuel
            → Ends (Drained s') (drain_pairs fuel dst set' s'))
          → (r : List NodeNextHop × DeadState) → Round p set s r
          → Ends (Drained s) (drain_pairs fuel dst r.0 r.1)
      go rest r (kept l') = rest set s l' b (omega (arith, f))
      go rest r (took {set'} {fibs'} t l' c) =
          let s' : DeadState = record { fibs = fibs'; removed = suc s.removed } in
          Ends-map
            (rest set' s' l' (omega (arith, b, t.fewer))
              (fuel_step _ _ m (length set) (length set') fuel t.fewer b c f))
            λ u e. (e.0, Progress-took p s u fibs' t e.1)
