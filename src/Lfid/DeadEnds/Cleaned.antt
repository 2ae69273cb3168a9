-- ===== src/Lfid/DeadEnds/Cleaned.antt =====
-- helper/lfid/remove-loops.cpp, removeDeadEnds: the loop over the destinations, and its result.
use ndn_sim.Prelude.{
  ℕ, zero, suc, ◌+◌, ◌≤◌, ◌<◌, ◌≡◌, refl, ap, subst, ◌∙◌, [], ◌∷◌, arith, ◌==◌, length, Bool-cases,
  Option-cases, inl, inr, Ends, Ends-bind, Ends-map, returns,
}
use ndn_sim.Prelude.AssocMap.{lookup}
use ndn_sim.Prelude.OrderedSet
use ndn_sim.Lfid.AllNodes.{AllNodeFib, Erases, done, Erases-append}
use ndn_sim.Lfid.AllNodes.Downward.{AreValid}
use ndn_sim.Lfid.AllNodes.Removal.{nexthops_of, entry_at, all_entries, AreDistinct}
use ndn_sim.Lfid.DeadEnds.{
  NodeNextHop, DeadState, entries_at, clean_dead_ends_at, clean_dead_ends, remove_dead_ends,
}
use ndn_sim.Lfid.DeadEnds.Loop.{IsDeadEnd, IsLoop, entries}
use ndn_sim.Lfid.DeadEnds.Drain.{drain_pairs-Ends}
use ndn_sim.Lfid.AllNodes.Shape.{AreKeyed, Erases-AreKeyed}
use ndn_sim.Lfid.DeadEnds.Collect.{collect_upward-IsLoop}

entries_at-entries : (dst : ℕ) (fibs : AllNodeFib) → entries_at dst fibs ≡ entries dst fibs
unfolding entries_at
entries_at-entries dst [] = refl
entries_at-entries dst ((node, fib) ∷ fibs) = elim (Option-cases (lookup dst fib.per_dst_fib)) [
  | inl e ↦ rw e (omega (arith, entries_at-entries dst fibs))
  | inr (set, e) ↦ rw e (ap (λ n. length set + n) (entries_at-entries dst fibs))
]

-- What the loops need of the FIBs: they are valid, each set has one nexthop for each neighbour,
-- and each node has one FIB.
pub record AreProper (fibs : AllNodeFib) : Type 0 where
  pub valid : AreValid fibs
  pub distinct : AreDistinct fibs
  pub keyed : AreKeyed fibs

-- No dead end is left for a destination.
abbrev pub IsClear : AllNodeFib → ℕ → Type 0
IsClear fibs dst = (q : NodeNextHop) → ¬ IsDeadEnd dst q fibs

-- Dead ends for a destination depend on the nexthops for it alone.
IsClear-same :
    (dst : ℕ) (fibs fibs' : AllNodeFib)
    → ((n : ℕ) → nexthops_of n dst fibs' ≡ nexthops_of n dst fibs)
    → IsClear fibs dst
    → IsClear fibs' dst
unfolding entry_at
IsClear-same dst fibs fibs' s c q d = c q (record {
  there = let f = d.there in ground (arith, s q.node, f);
  rises = d.rises;
  apart = d.apart;
  elsewhere = d.elsewhere;
  own = d.own;
  only = let f = d.only in ground (arith, s q.nh.nh_id, f);
  back = d.back;
  falls = d.falls;
})

-- From `s` to `t` nexthops were erased, all were counted, and no dead end is left for the
-- destinations from `low` on, `n` of them.
pub record IsCleaned (low n : ℕ) (s t : DeadState) : Type 0 where
  pub proper : AreProper t.fibs
  pub count : ℕ
  pub erases : Erases s.fibs count t.fibs
  pub counted : t.removed ≡ s.removed + count
  pub smaller : all_entries t.fibs + count ≡ all_entries s.fibs
  pub clear : (dst : ℕ) → low ≤ dst → dst < low + n → IsClear t.fibs dst
  pub others : (dst : ℕ) → dst < low → (k : ℕ) → nexthops_of k dst t.fibs ≡ nexthops_of k dst s.fibs

IsLoop-IsClear : (dst : ℕ) (fibs : AllNodeFib) → IsLoop dst [] fibs → IsClear fibs dst
unfolding OrderedSet.has
IsLoop-IsClear dst fibs l q d = let w = l.waiting q d in cc

clean_dead_ends_at-Ends :
    (dst : ℕ) (s : DeadState)
    → AreProper s.fibs
    → Ends (IsCleaned dst 1 s) (clean_dead_ends_at dst s)
unfolding clean_dead_ends_at
clean_dead_ends_at-Ends dst s p =
    Ends-bind _ (collect_upward-IsLoop dst s.fibs p.valid p.distinct p.keyed) λ set l.
      rw (entries_at-entries dst s.fibs) (
        Ends-map (drain_pairs-Ends dst _ (entries dst s.fibs) set s l (omega arith) (omega arith))
          λ t (e, g). record {
            proper = record {
              valid = e.valid;
              distinct = e.distinct;
              keyed = Erases-AreKeyed g.erases p.valid p.keyed;
            };
            count = g.count;
            erases = g.erases;
            counted = g.counted;
            smaller = g.smaller;
            clear = λ d a b. subst (IsClear t.fibs) (ground arith) (IsLoop-IsClear dst t.fibs e);
            others = λ d a k. g.others k d (ground arith);
          })

IsCleaned-none : (dst : ℕ) (s : DeadState) → AreProper s.fibs → IsCleaned dst 0 s s
IsCleaned-none dst s p = record {
  proper = p;
  count = 0;
  erases = done s.fibs;
  counted = omega arith;
  smaller = omega arith;
  clear = λ d a b. absurd (omega (arith, a, b));
  others = λ d a k. refl;
}

IsCleaned-append :
    (dst n : ℕ) (s u t : DeadState)
    → IsCleaned dst 1 s u
    → IsCleaned (dst + 1) n u t
    → IsCleaned dst (suc n) s t
IsCleaned-append dst n s u t g h = record {
  proper = h.proper;
  count = g.count + h.count;
  erases = Erases-append g.erases h.erases;
  counted = omega (arith, g.counted, h.counted);
  smaller = omega (arith, g.smaller, h.smaller);
  clear = λ d a b. elim (Bool-cases (d == dst)) [
    | inl e ↦
        IsClear-same d u.fibs t.fibs (h.others d (ground (arith, e)))
          (g.clear d a (ground (arith, e)))
    | inr e ↦ h.clear d (ground (arith, e, a)) (omega (arith, b))
  ];
  others = λ d a k. h.others d (omega (arith, a)) k ∙ g.others d a k;
}

clean_dead_ends-Ends :
    (n dst : ℕ) (s : DeadState)
    → AreProper s.fibs
    → Ends (IsCleaned dst n s) (clean_dead_ends n dst s)
unfolding clean_dead_ends
clean_dead_ends-Ends zero dst s p = returns (IsCleaned-none dst s p)
clean_dead_ends-Ends (suc n) dst s p =
    Ends-bind (IsCleaned dst 1 s) (clean_dead_ends_at-Ends dst s p) λ u g.
      Ends-map (clean_dead_ends-Ends n (dst + 1) u g.proper) λ t h. IsCleaned-append dst n s u t g h

pub remove_dead_ends-Ends :
    (fibs : AllNodeFib)
    → AreProper fibs
    → Ends
        (λ r.
          IsCleaned 0
            (length fibs)
            (record { fibs = fibs; removed = 0 })
            (record { fibs = r.0; removed = r.1 }))
        (remove_dead_ends fibs)
unfolding remove_dead_ends
remove_dead_ends-Ends fibs p =
    Ends-bind _ (clean_dead_ends-Ends (length fibs) 0 (record { fibs = fibs; removed = 0 }) p)
      λ t h. returns h

-- Where the FIBs are valid, each set has one nexthop for each neighbour and each node one FIB,
-- removeDeadEnds does not run for ever. If it returns, what it did is as many successful erasures
-- as it reports, and the FIBs have that many nexthops fewer.
pub remove_dead_ends_total :
    (fibs : AllNodeFib)
    → AreProper fibs
    → Ends
        (λ r. Erases fibs r.1 r.0 × (all_entries r.0 + r.1 ≡ all_entries fibs))
        (remove_dead_ends fibs)
remove_dead_ends_total fibs p = Ends-map (remove_dead_ends-Ends fibs p) λ r h.
    let c : h.count ≡ r.1 = omega (arith, h.counted) in
    (subst (λ k. Erases fibs k r.0) c h.erases, omega (arith, h.counted, h.smaller))

-- Where the FIBs are valid, each set has one nexthop for each neighbour and each node one FIB,
-- what removeDeadEnds returns is such FIBs again, in which no node has an upward nexthop to a node
-- whose only nexthop for the destination leads down to where one came from, for any destination
-- below the number of nodes.
pub remove_dead_ends_clear :
    (fibs : AllNodeFib)
    → AreProper fibs
    → Ends
        (λ r. AreProper r.0 × ((dst : ℕ) → dst < length fibs → IsClear r.0 dst))
        (remove_dead_ends fibs)
remove_dead_ends_clear fibs p =
    Ends-map (remove_dead_ends-Ends fibs p)
      λ r h. (h.proper, λ dst b. h.clear dst (omega arith) (omega (arith, b)))
