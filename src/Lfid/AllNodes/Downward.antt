-- ===== src/Lfid/AllNodes/Downward.antt =====
-- helper/lfid/remove-loops.cpp: the downward nexthops of the nodes, over histories of erasures.
use ndn_sim.Prelude.{
  ℕ, ◌≡◌, refl, ◌∙◌, true, List, [], ◌∷◌, Option, none, some, arith, ◌==◌, All, filter, Bool-cases,
  Option-cases, inl, inr, ok, >>=-eq-ok,
}
use ndn_sim.Prelude.AssocMap.{lookup, update, lookup-update}
use ndn_sim.Lfid.NextHop.{FibNextHop, is_upward, is_downward}
use ndn_sim.Lfid.Fib.{AbstractFib, find_nexthop, erase_nexthop}
use ndn_sim.Lfid.Fib
use ndn_sim.Lfid.Fib.Invariant.{IsValid}
use ndn_sim.Lfid.Fib.Erasure.{erased, unknown, missing, refused, removed, Erasure, erase_total}
use ndn_sim.Lfid.AllNodes.{AllNodeFib, erase_at, Erases, done, next}

abbrev pub downward_only : List FibNextHop → List FibNextHop
downward_only = filter (λ nh. is_downward nh.type)

-- The downward nexthops for a destination, if there is an entry for it.
unfoldable pub downward_nexthops : ℕ → AbstractFib → Option (List FibNextHop)
downward_nexthops dst fib = elim (lookup dst fib.per_dst_fib) [
  | none ↦ none
  | some set ↦ some (downward_only set)
]

unfoldable pub downward_at : ℕ → ℕ → AllNodeFib → Option (List FibNextHop)
downward_at node dst fibs = elim (lookup node fibs) [
  | none ↦ none
  | some fib ↦ downward_nexthops dst fib
]

abbrev pub AreValid : AllNodeFib → Type 0
AreValid = All (λ e. IsValid e.1)

downward-erase_nexthop :
    (nh_id : ℕ) (set : List FibNextHop) (nh : FibNextHop)
    → find_nexthop nh_id set ≡ some nh
    → is_upward nh.type ≡ true
    → downward_only (erase_nexthop nh_id set) ≡ downward_only set
unfolding find_nexthop erase_nexthop
downward-erase_nexthop nh_id [] nh h up = refl
downward-erase_nexthop nh_id (x ∷ set) nh h up = ground (arith, downward-erase_nexthop nh_id set nh)

downward-erased :
    (dst nh_id : ℕ) (fib : AbstractFib) (set : List FibNextHop) (nh : FibNextHop) (d : ℕ)
    → lookup dst fib.per_dst_fib ≡ some set
    → find_nexthop nh_id set ≡ some nh
    → is_upward nh.type ≡ true
    → downward_nexthops d (erased dst nh_id nh fib) ≡ downward_nexthops d fib
unfolding downward_nexthops erased
downward-erased dst nh_id fib set nh d h f up = ground (
  arith,
  lookup-update dst d (erase_nexthop nh_id) set fib.per_dst_fib h,
  downward-erase_nexthop nh_id set nh f up,
)

abbrev Kept : AbstractFib → AbstractFib → Type 0
Kept fib fib' = IsValid fib' × ((d : ℕ) → downward_nexthops d fib' ≡ downward_nexthops d fib)

erase-Kept :
    (dst nh_id : ℕ) (fib fib' : AbstractFib) (n : ℕ)
    → IsValid fib
    → Fib.erase dst nh_id fib ≡ ok (fib', n)
    → Kept fib fib'
erase-Kept dst nh_id fib fib' n v h = go (erase_total dst nh_id fib v)
  where
    go : Erasure dst nh_id fib → Kept fib fib'
    go (unknown e r) = cc
    go (missing set e f r) = let same : fib ≡ fib' = cc in rw (← same) (v, λ d. refl)
    go (refused set nh e f down r) = cc
    go (removed set nh e f up r w) =
        let same : erased dst nh_id nh fib ≡ fib' = cc in
        rw (← same) (w, λ d. downward-erased dst nh_id fib set nh d e f up)

pub lookup-AreValid :
    (node : ℕ) (fibs : AllNodeFib) (fib : AbstractFib)
    → AreValid fibs
    → lookup node fibs ≡ some fib
    → IsValid fib
lookup-AreValid node [] fib v h = absurd (cc)
lookup-AreValid node ((n, f) ∷ fibs) fib v h = elim (Bool-cases (n == node)) [
  | inl e ↦ let same : f ≡ fib = ground arith in rw (← same) v.0
  | inr e ↦ lookup-AreValid node fibs fib v.1 (ground arith)
]

AreValid-update :
    (node : ℕ) (fib : AbstractFib) (fibs : AllNodeFib)
    → IsValid fib
    → AreValid fibs
    → AreValid (update node (λ _. fib) fibs)
AreValid-update node fib [] w v = tt
AreValid-update node fib ((n, f) ∷ fibs) w v = elim (Bool-cases (n == node)) [
  | inl e ↦ rw e (w, v.1)
  | inr e ↦ rw e (v.0, AreValid-update node fib fibs w v.1)
]

erase_at-keeps :
    (node dst nh_id : ℕ) (fibs fibs' : AllNodeFib)
    → AreValid fibs
    → erase_at node dst nh_id fibs ≡ ok fibs'
    → AreValid fibs' × ((n d : ℕ) → downward_at n d fibs' ≡ downward_at n d fibs)
unfolding erase_at downward_at
erase_at-keeps node dst nh_id fibs fibs' v h = elim (Option-cases (lookup node fibs)) [
  | inl e ↦ absurd (ground arith)
  | inr (fib, e) ↦
      let ((fib', m), r, s) =
        >>=-eq-ok (Fib.erase dst nh_id fib) (λ r. ok (update node (λ _. r.0) fibs)) {b = fibs'}
          (ground arith) in
      let (w, same) = erase-Kept dst nh_id fib fib' m (lookup-AreValid node fibs fib v e) r in
      let changed : update node (λ _. fib') fibs ≡ fibs' = cc in
      rw (← changed) (
        AreValid-update node fib' fibs w v,
        λ n d. ground (arith, lookup-update node n (λ _. fib') fib fibs e, same d),
      )
]

-- However many nexthops are erased, the FIBs stay valid and every node keeps its downward
-- nexthops, for every destination.
pub Erases-keeps :
    {fibs fibs' : AllNodeFib} {k : ℕ}
    → Erases fibs k fibs'
    → AreValid fibs
    → AreValid fibs' × ((n d : ℕ) → downward_at n d fibs' ≡ downward_at n d fibs)
Erases-keeps (done fibs) v = (v, λ n d. refl)
Erases-keeps (next node dst nh_id e r) v =
    let (w, same) = erase_at-keeps node dst nh_id _ _ v e in
    let (w', same') = Erases-keeps r w in (w', λ n d. same' n d ∙ same n d)
