-- ===== src/Lfid/AllNodes/Removal.antt =====
-- helper/lfid/remove-loops.cpp: one erasure of a nexthop that is there, among the FIBs of all nodes.
use ndn_sim.Prelude.{
  ℕ, suc, ◌+◌, ◌≤◌, ◌≡◌, ◌≢◌, refl, ap, true, ◌&&◌, List, [], ◌∷◌, Option, none, some, arith, ◌==◌,
  if◌then◌else◌, All, length, Bool-cases, Option-cases, inl, inr, ok, err, abort, Ends, returns,
  stops,
}
use ndn_sim.Prelude.AssocMap.{lookup, update, lookup-update}
use ndn_sim.Lfid.NextHop.{FibNextHop}
use ndn_sim.Lfid.Fib
use ndn_sim.Lfid.Fib.{AbstractFib, find_nexthop, erase_nexthop}
use ndn_sim.Lfid.Fib.Sets.{sizes, sizes-update, length-erase_nexthop, All-erase_nexthop}
use ndn_sim.Lfid.Fib.Consistency.{HaveDistinctIds}
use ndn_sim.Lfid.Fib.Erasure.{erased, unknown, missing, refused, removed, Erasure, erase_total}
use ndn_sim.Lfid.AllNodes.{AllNodeFib, erase_at}
use ndn_sim.Lfid.AllNodes.Downward.{AreValid, lookup-AreValid}

-- The nexthops of a node for a destination, if it has an entry for it.
unfoldable pub nexthops_of : ℕ → ℕ → AllNodeFib → Option (List FibNextHop)
nexthops_of node dst fibs = elim (lookup node fibs) [
  | none ↦ none
  | some fib ↦ lookup dst fib.per_dst_fib
]

unfoldable pub entry_at : ℕ → ℕ → ℕ → AllNodeFib → Option FibNextHop
unfolding nexthops_of
entry_at node dst nh_id fibs = elim (nexthops_of node dst fibs) [
  | none ↦ none
  | some set ↦ find_nexthop nh_id set
]

module _ (w : AbstractFib → ℕ) where
  abbrev pub total : AllNodeFib → ℕ
  total [] = 0
  total ((node, fib) ∷ fibs) = w fib + total fibs

  pub total-update :
      (node : ℕ) (fib fib' : AbstractFib) (fibs : AllNodeFib)
      → lookup node fibs ≡ some fib
      → total (update node (λ _. fib') fibs) + w fib ≡ total fibs + w fib'
  total-update node fib fib' [] h = cc
  total-update node fib fib' ((n, f) ∷ fibs) h = elim (Bool-cases (n == node)) [
    | inl e ↦ rw e (omega (arith, ap w (same e)))
    | inr e ↦ rw e (omega (arith, total-update node fib fib' fibs (ground arith)))
  ]
    where
      same : (n == node) ≡ true → f ≡ fib
      same e = ground arith

  pub le_total :
      (node : ℕ) (fib : AbstractFib) (fibs : AllNodeFib)
      → lookup node fibs ≡ some fib
      → w fib ≤ total fibs
  le_total node fib [] h = cc
  le_total node fib ((n, f) ∷ fibs) h = elim (Bool-cases (n == node)) [
    | inl e ↦ let same : f ≡ fib = ground arith in omega (arith, ap w same)
    | inr e ↦ omega (arith, le_total node fib fibs (ground arith))
  ]

-- All nexthops of all nodes: for one destination, and for all.
abbrev pub or_empty : Option (List FibNextHop) → List FibNextHop
or_empty none = []
or_empty (some set) = set

abbrev pub entries_of : ℕ → AbstractFib → ℕ
entries_of dst fib = length (or_empty (lookup dst fib.per_dst_fib))

abbrev pub all_entries : AllNodeFib → ℕ
all_entries = total (λ fib. sizes fib.per_dst_fib)

-- From `fibs` to `fibs'` one nexthop was taken out.
pub record Taken (node dst nh_id : ℕ) (fibs fibs' : AllNodeFib) : Type 0 where
  pub set : List FibNextHop
  pub known : nexthops_of node dst fibs ≡ some set
  pub after :
      (n d : ℕ)
      → nexthops_of n d fibs' ≡ (
          if (node == n) && (dst == d)
          then some (erase_nexthop nh_id set)
          else nexthops_of n d fibs)
  pub fewer : suc (total (entries_of dst) fibs') ≡ total (entries_of dst) fibs
  pub fewer_all : suc (all_entries fibs') ≡ all_entries fibs
  pub step : erase_at node dst nh_id fibs ≡ ok fibs'

module _ (node dst nh_id : ℕ) (fibs : AllNodeFib) where
  erased-Taken :
      (fib : AbstractFib) (set : List FibNextHop) (nh : FibNextHop)
      → lookup node fibs ≡ some fib
      → lookup dst fib.per_dst_fib ≡ some set
      → find_nexthop nh_id set ≡ some nh
      → erase_at node dst nh_id fibs ≡ ok (update node (λ _. erased dst nh_id nh fib) fibs)
      → Taken node dst nh_id fibs (update node (λ _. erased dst nh_id nh fib) fibs)
  unfolding erased nexthops_of
  erased-Taken fib set nh k e f s = record {
    set = set;
    known = ground (arith, k, e);
    after = λ n d. ground (
      arith,
      lookup-update node n (λ _. erased dst nh_id nh fib) fib fibs k,
      lookup-update dst d (erase_nexthop nh_id) set fib.per_dst_fib e,
      k,
    );
    fewer = omega (
      arith,
      total-update (entries_of dst) node fib (erased dst nh_id nh fib) fibs k,
      entries_after,
      entries_before,
      length-erase_nexthop nh_id set nh f,
    );
    fewer_all = omega (
      arith,
      total-update (λ fib. sizes fib.per_dst_fib) node fib (erased dst nh_id nh fib) fibs k,
      sizes-update dst (erase_nexthop nh_id) fib.per_dst_fib set e,
      length-erase_nexthop nh_id set nh f,
    );
    step = s;
  }
    where
      entries_before : entries_of dst fib ≡ length set
      entries_before = rw e refl

      entries_after : entries_of dst (erased dst nh_id nh fib) ≡ length (erase_nexthop nh_id set)
      entries_after =
          ground (arith, lookup-update dst dst (erase_nexthop nh_id) set fib.per_dst_fib e)

  erase_at-step :
      (fib fib' : AbstractFib) (m : ℕ)
      → lookup node fibs ≡ some fib
      → Fib.erase dst nh_id fib ≡ ok (fib', m)
      → erase_at node dst nh_id fibs ≡ ok (update node (λ _. fib') fibs)
  unfolding erase_at
  erase_at-step fib fib' m k e = ground (arith, k, e)

  erase_at-abort :
      (fib : AbstractFib)
      → lookup node fibs ≡ some fib
      → Fib.erase dst nh_id fib ≡ err abort
      → erase_at node dst nh_id fibs ≡ err abort
  unfolding erase_at
  erase_at-abort fib k e = ground (arith, k, e)

  -- A nexthop that is there is taken out, or the program stops.
  pub erase_at-Taken :
      (nh : FibNextHop)
      → AreValid fibs
      → entry_at node dst nh_id fibs ≡ some nh
      → Ends (Taken node dst nh_id fibs) (erase_at node dst nh_id fibs)
  unfolding entry_at nexthops_of
  erase_at-Taken nh v f = elim (Option-cases (lookup node fibs)) [
    | inl k ↦ absurd (ground (arith, k))
    | inr (fib, k) ↦
        go fib k (ground (arith, k)) (erase_total dst nh_id fib (lookup-AreValid node fibs fib v k))
  ]
    where
      go :
          (fib : AbstractFib)
          → lookup node fibs ≡ some fib
          → (elim (lookup dst fib.per_dst_fib) [ none ↦ none | some set ↦ find_nexthop nh_id set ])
            ≡ some nh
          → Erasure dst nh_id fib
          → Ends (Taken node dst nh_id fibs) (erase_at node dst nh_id fibs)
      go fib k g (unknown e r) = absurd (ground (arith, e))
      go fib k g (missing set e n r) = absurd (ground (arith, e, n))
      go fib k g (refused set x e h down r) = rw (erase_at-abort fib k r) (stops tt)
      go fib k g (removed set x e h up r w) =
          let s = erase_at-step fib (erased dst nh_id x fib) 1 k r in
          rw s (returns (erased-Taken fib set x k e h s))

abbrev pub AreDistinct : AllNodeFib → Type 0
AreDistinct fibs =
    (n d : ℕ) (set : List FibNextHop) → nexthops_of n d fibs ≡ some set → HaveDistinctIds set

pub erase_nexthop-HaveDistinctIds :
    (k : ℕ) (set : List FibNextHop) → HaveDistinctIds set → HaveDistinctIds (erase_nexthop k set)
unfolding erase_nexthop
erase_nexthop-HaveDistinctIds k [] h = tt
erase_nexthop-HaveDistinctIds k (x ∷ set) h = elim (Bool-cases (x.nh_id == k)) [
  | inl e ↦ rw e h.1
  | inr e ↦ rw e (
    All-erase_nexthop (λ y. y.nh_id ≢ x.nh_id) k set h.0,
    erase_nexthop-HaveDistinctIds k set h.1,
  )
]

find_nexthop-none :
    (k : ℕ) (set : List FibNextHop) → All (λ y. y.nh_id ≢ k) set → find_nexthop k set ≡ none
unfolding find_nexthop
find_nexthop-none k [] h = refl
find_nexthop-none k (x ∷ set) h = ground (arith, find_nexthop-none k set h.1)

pub find_nexthop-erase_nexthop :
    (i k : ℕ) (set : List FibNextHop)
    → HaveDistinctIds set
    → find_nexthop i (erase_nexthop k set) ≡ (if k == i then none else find_nexthop i set)
unfolding find_nexthop erase_nexthop
find_nexthop-erase_nexthop i k [] h = ground arith
find_nexthop-erase_nexthop i k (x ∷ set) h =
    ground (arith, find_nexthop-erase_nexthop i k set h.1, find_nexthop-none x.nh_id set h.0)

module _ {node dst nh_id : ℕ} {fibs fibs' : AllNodeFib} (t : Taken node dst nh_id fibs fibs')
    (u : AreDistinct fibs) where
  pub Taken-AreDistinct : AreDistinct fibs'
  Taken-AreDistinct n d set h = elim (Bool-cases ((node == n) && (dst == d))) [
    | inl e ↦
        let same : erase_nexthop nh_id t.set ≡ set = ground (arith, t.after n d) in
        rw (← same) (erase_nexthop-HaveDistinctIds nh_id t.set (u node dst t.set t.known))
    | inr e ↦ u n d set (ground (arith, t.after n d))
  ]

  -- Every other entry stays, and this one is gone.
  pub entry_at-Taken :
      (n d i : ℕ)
      → entry_at n d i fibs'
        ≡ (if (node == n) && ((dst == d) && (nh_id == i)) then none else entry_at n d i fibs)
  unfolding entry_at
  entry_at-Taken n d i = ground (
    arith,
    t.after n d,
    t.known,
    find_nexthop-erase_nexthop i nh_id t.set (u node dst t.set t.known),
  )
