-- ===== src/Lfid/AllNodes.antt =====
-- AbstractFib::AllNodeFib of helper/lfid/abstract-fib.hpp: the FIBs of all nodes, in iteration
-- order, and the histories of erasures that removeLoops and removeDeadEnds make of them.
pub mod Downward
pub mod Removal
pub mod Shape
use ndn_sim.Prelude.{
  Ends, Ends-bind, Ends-or_fail, or_fail, returns, Ends, ℕ, suc, ◌+◌, ◌≡◌, refl, ap, List, [], ◌∷◌,
  none, some, arith, ◌==◌, if◌then◌else◌, All, Bool-cases, inl, inr, ◌>>=◌, Result, ok, err,
  out_of_range,
}
use native.Mathlib.Nat.{zero-add, suc-add}
use ndn_sim.Prelude.AssocMap.{lookup, update}
use ndn_sim.Lfid.Fib.{AbstractFib}
use ndn_sim.Lfid.Fib

abbrev pub AllNodeFib : Type 0
AllNodeFib = List (ℕ × AbstractFib)

-- `allNodeFIB.at(node)`
unfoldable pub fib_at : ℕ → AllNodeFib → Result AbstractFib
fib_at node fibs = or_fail (lookup node fibs) out_of_range

-- `allNodeFIB.at(node).erase(dst, nh_id)`
unfoldable pub erase_at : ℕ → ℕ → ℕ → AllNodeFib → Result AllNodeFib
unfolding fib_at
erase_at node dst nh_id fibs = do
  fib ← fib_at node fibs
  (fib', erased) ← Fib.erase dst nh_id fib
  ok (update node (λ _. fib') fibs)

-- `Erases fibs k fibs'`: `k` successful calls of `erase` lead from the one to the other.
pub data Erases : AllNodeFib → ℕ → AllNodeFib → Type 0 where
  done : (fibs : AllNodeFib) → Erases fibs 0 fibs
  next :
      (node dst nh_id : ℕ) {fibs fibs' fibs'' : AllNodeFib} {k : ℕ}
      → erase_at node dst nh_id fibs ≡ ok fibs'
      → Erases fibs' k fibs''
      → Erases fibs (suc k) fibs''

pub Erases-append :
    {fibs fibs' fibs'' : AllNodeFib} {j k : ℕ}
    → Erases fibs j fibs'
    → Erases fibs' k fibs''
    → Erases fibs (j + k) fibs''
Erases-append (done fibs) r = rw zero-add r
Erases-append (next node dst nh_id e l) r = rw suc-add (next node dst nh_id e (Erases-append l r))

pub erase_at-Ends :
    (node dst nh_id : ℕ) (fibs : AllNodeFib) → Ends (λ _. Unit {0}) (erase_at node dst nh_id fibs)
unfolding erase_at
erase_at-Ends node dst nh_id fibs =
    Ends-bind (λ _. Unit {0}) (Ends-or_fail (lookup node fibs) out_of_range tt)
      λ fib _. Ends-bind (λ _. Unit {0}) (Fib.erase-Ends dst nh_id fib) λ r _. returns tt
