-- ===== src/Lfid/AllNodes/Shape.antt =====
-- helper/lfid/remove-loops.cpp: what histories of erasures keep of the maps of FIBs and sets.
use ndn_sim.Prelude.{
  ℕ, ◌≡◌, ◌≢◌, refl, subst, List, [], ◌∷◌, some, arith, ◌==◌, All, length, Bool-cases, Option-cases,
  inl, inr, ok, >>=-eq-ok,
}
use ndn_sim.Prelude.AssocMap.{lookup, update}
use ndn_sim.Lfid.NextHop.{FibNextHop}
use ndn_sim.Lfid.Fib
use ndn_sim.Lfid.Fib.{AbstractFib, find_nexthop, erase_nexthop}
use ndn_sim.Lfid.Fib.Invariant.{IsValid}
use ndn_sim.Lfid.Fib.Consistency.{HaveDistinctIds}
use ndn_sim.Lfid.Fib.Erasure.{erased, unknown, missing, refused, removed, Erasure, erase_total}
use ndn_sim.Lfid.AllNodes.{AllNodeFib, erase_at, Erases, done, next}
use ndn_sim.Lfid.AllNodes.Downward.{AreValid, lookup-AreValid, Erases-keeps}
use ndn_sim.Lfid.AllNodes.Removal.{nexthops_of, AreDistinct, erase_nexthop-HaveDistinctIds}

-- An erasure that succeeds writes one FIB.
erase_at-update :
    (node dst nh_id : ℕ) (fibs fibs' : AllNodeFib)
    → erase_at node dst nh_id fibs ≡ ok fibs'
    → (fib fib' : AbstractFib) × (n : ℕ) × (lookup node fibs ≡ some fib)
      × (Fib.erase dst nh_id fib ≡ ok (fib', n))
      × (update node (λ _. fib') fibs ≡ fibs')
unfolding erase_at
erase_at-update node dst nh_id fibs fibs' h = elim (Option-cases (lookup node fibs)) [
  | inl e ↦ absurd (ground arith)
  | inr (fib, e) ↦
      let ((fib', n), r, s) =
        >>=-eq-ok (Fib.erase dst nh_id fib) (λ r. ok (update node (λ _. r.0) fibs)) {b = fibs'}
          (ground arith) in
      (fib, fib', n, e, r, cc)
]

-- What each write to a FIB keeps, a history of erasures keeps.
Erases-induct :
    (P : AllNodeFib → Type 0)
    → ((node dst nh_id : ℕ) (fib fib' : AbstractFib) (n : ℕ) (fibs : AllNodeFib)
        → AreValid fibs
        → lookup node fibs ≡ some fib
        → Fib.erase dst nh_id fib ≡ ok (fib', n)
        → P fibs
        → P (update node (λ _. fib') fibs))
    → {fibs fibs' : AllNodeFib} {k : ℕ} → Erases fibs k fibs'
    → AreValid fibs
    → P fibs
    → P fibs'
Erases-induct P step (done fibs) v p = p
Erases-induct P step {fibs} (next node dst nh_id {fibs' = mid} e r) v p =
    let (fib, fib', n, k, s, same) = erase_at-update node dst nh_id fibs mid e in
    Erases-induct P step r (Erases-keeps (next node dst nh_id e (done mid)) v).0
      (subst P same (step node dst nh_id fib fib' n fibs v k s p))

-- The keys of the map of FIBs are different from each other.
abbrev pub AreKeyed : AllNodeFib → Type 0
AreKeyed [] = Unit
AreKeyed ((node, fib) ∷ fibs) = All (λ e. e.0 ≢ node) fibs × AreKeyed fibs

All-update :
    (n k : ℕ) (fib : AbstractFib) (m : AllNodeFib)
    → All (λ e. e.0 ≢ n) m
    → All (λ e. e.0 ≢ n) (update k (λ _. fib) m)
All-update n k fib [] a = tt
All-update n k fib ((i, f) ∷ m) a = ground (arith, a, All-update n k fib m a.1)

AreKeyed-update :
    (k : ℕ) (fib : AbstractFib) (fibs : AllNodeFib)
    → AreKeyed fibs
    → AreKeyed (update k (λ _. fib) fibs)
AreKeyed-update k fib [] h = tt
AreKeyed-update k fib ((n, f) ∷ fibs) h = elim (Bool-cases (n == k)) [
  | inl e ↦ rw e h
  | inr e ↦ rw e (All-update n k fib fibs h.0, AreKeyed-update k fib fibs h.1)
]

pub Erases-AreKeyed :
    {fibs fibs' : AllNodeFib} {k : ℕ}
    → Erases fibs k fibs'
    → AreValid fibs
    → AreKeyed fibs
    → AreKeyed fibs'
Erases-AreKeyed =
    Erases-induct AreKeyed (λ node dst nh_id fib fib' n fibs v k e. AreKeyed-update node fib' fibs)

length-update :
    (k : ℕ) (fib : AbstractFib) (fibs : AllNodeFib)
    → length (update k (λ _. fib) fibs) ≡ length fibs
length-update k fib [] = refl
length-update k fib ((n, f) ∷ fibs) = ground (arith, length-update k fib fibs)

pub Erases-length :
    {fibs fibs' : AllNodeFib} {k : ℕ}
    → Erases fibs k fibs'
    → AreValid fibs
    → length fibs' ≡ length fibs
Erases-length {fibs} r v =
    Erases-induct (λ m. length m ≡ length fibs)
      (λ node dst nh_id fib fib' n m v k e h. rw (length-update node fib' m) h) r v refl

-- Each set has one nexthop for each neighbour.
abbrev HaveDistinctSets : AbstractFib → Type 0
HaveDistinctSets fib = All (λ s. HaveDistinctIds s.1) fib.per_dst_fib

abbrev pub SetsAreDistinct : AllNodeFib → Type 0
SetsAreDistinct = All (λ e. All (λ s. HaveDistinctIds s.1) e.1.per_dst_fib)

All-erased :
    (dst k : ℕ) (m : List (ℕ × List FibNextHop))
    → All (λ s. HaveDistinctIds s.1) m
    → All (λ s. HaveDistinctIds s.1) (update dst (erase_nexthop k) m)
All-erased dst k [] a = tt
All-erased dst k ((d, set) ∷ m) a = elim (Bool-cases (d == dst)) [
  | inl e ↦ rw e (erase_nexthop-HaveDistinctIds k set a.0, a.1)
  | inr e ↦ rw e (a.0, All-erased dst k m a.1)
]

erase-HaveDistinctSets :
    (dst nh_id : ℕ) (fib fib' : AbstractFib) (n : ℕ)
    → IsValid fib
    → Fib.erase dst nh_id fib ≡ ok (fib', n)
    → HaveDistinctSets fib
    → HaveDistinctSets fib'
unfolding erased
erase-HaveDistinctSets dst nh_id fib fib' n v h a = go (erase_total dst nh_id fib v)
  where
    go : Erasure dst nh_id fib → HaveDistinctSets fib'
    go (unknown e r) = cc
    go (missing set e f r) = let same : fib ≡ fib' = cc in subst HaveDistinctSets same a
    go (refused set nh e f down r) = cc
    go (removed set nh e f up r w) =
        let same : erased dst nh_id nh fib ≡ fib' = cc in
        subst HaveDistinctSets same (All-erased dst nh_id fib.per_dst_fib a)

lookup-HaveDistinctSets :
    (node : ℕ) (fibs : AllNodeFib) (fib : AbstractFib)
    → SetsAreDistinct fibs
    → lookup node fibs ≡ some fib
    → HaveDistinctSets fib
lookup-HaveDistinctSets node [] fib a h = cc
lookup-HaveDistinctSets node ((n, f) ∷ fibs) fib a h = elim (Bool-cases (n == node)) [
  | inl e ↦ let same : f ≡ fib = ground arith in subst HaveDistinctSets same a.0
  | inr e ↦ lookup-HaveDistinctSets node fibs fib a.1 (ground arith)
]

SetsAreDistinct-update :
    (k : ℕ) (fib : AbstractFib) (fibs : AllNodeFib)
    → HaveDistinctSets fib
    → SetsAreDistinct fibs
    → SetsAreDistinct (update k (λ _. fib) fibs)
SetsAreDistinct-update k fib [] h a = tt
SetsAreDistinct-update k fib ((n, f) ∷ fibs) h a = elim (Bool-cases (n == k)) [
  | inl e ↦ rw e (h, a.1)
  | inr e ↦ rw e (a.0, SetsAreDistinct-update k fib fibs h a.1)
]

pub Erases-SetsAreDistinct :
    {fibs fibs' : AllNodeFib} {k : ℕ}
    → Erases fibs k fibs'
    → AreValid fibs
    → SetsAreDistinct fibs
    → SetsAreDistinct fibs'
Erases-SetsAreDistinct = Erases-induct SetsAreDistinct λ node dst nh_id fib fib' n fibs v k e a.
    SetsAreDistinct-update node fib' fibs
      (erase-HaveDistinctSets dst nh_id fib fib' n (lookup-AreValid node fibs fib v k) e
        (lookup-HaveDistinctSets node fibs fib a k))
      a

lookup-HaveDistinctIds :
    (d : ℕ) (m : List (ℕ × List FibNextHop)) (set : List FibNextHop)
    → All (λ s. HaveDistinctIds s.1) m
    → lookup d m ≡ some set
    → HaveDistinctIds set
lookup-HaveDistinctIds d [] set a h = cc
lookup-HaveDistinctIds d ((k, s) ∷ m) set a h = elim (Bool-cases (k == d)) [
  | inl e ↦ subst HaveDistinctIds (ground arith) a.0
  | inr e ↦ lookup-HaveDistinctIds d m set a.1 (ground arith)
]

pub SetsAreDistinct-AreDistinct : (fibs : AllNodeFib) → SetsAreDistinct fibs → AreDistinct fibs
unfolding nexthops_of
SetsAreDistinct-AreDistinct fibs a n d set h = elim (Option-cases (lookup n fibs)) [
  | inl e ↦ absurd (ground arith)
  | inr (fib, e) ↦
      lookup-HaveDistinctIds d fib.per_dst_fib set (lookup-HaveDistinctSets n fibs fib a e)
        (ground arith)
]
