-- ===== src/Routing/Lfid/Filled.antt =====
-- helper/lfid/ndn-global-routing-helper-lfid.cpp, CalculateLfidRoutes: the abstract FIBs that the
-- loop over the nodes builds.
use ndn_sim.Prelude.{
  ℕ, ◌≡◌, ◌≢◌, sym, List, [], ◌∷◌, ◌++◌, length, none, some, All, All-map, Option-cases, inl, inr,
  ok, abort, arith, Ends, Ends-bind, Ends-or_fail, Ends-from_eq, returns,
}
use ndn_sim.Prelude.AssocMap.{lookup}
use ndn_sim.Lfid.Fib.{AbstractFib, check_fib}
use ndn_sim.Lfid.Fib.Invariant.{IsValid, abstract_fib-IsValid}
use ndn_sim.Lfid.Fib.Consistency.{check_fib_iff, HaveDistinctIds}
use ndn_sim.Lfid.AllNodes.{AllNodeFib}
use ndn_sim.Lfid.AllNodes.Downward.{AreValid}
use ndn_sim.Lfid.AllNodes.Shape.{AreKeyed, SetsAreDistinct}
use ndn_sim.Routing.Network.{Face, GlobalRouter, Node}
use ndn_sim.Routing.Routes.{ShortestPaths}
use ndn_sim.Routing.Routes.Reach.{All-append}
use ndn_sim.Routing.FillFib.Validity.{fill_fib-Ends}
use ndn_sim.Routing.Lfid.{node_fib, emplace, LfidState, fill_routed, fill_node, fill_nodes}
use ndn_sim.Routing.Lfid.Endings.{abstract_fib-Ends, check_fib-Ends, neighbor_paths-Ends}

abbrev IsChecked : AbstractFib → Type 0
IsChecked fib = IsValid fib × All (λ s. HaveDistinctIds s.1) fib.per_dst_fib

check_fib-IsChecked : (fib : AbstractFib) → IsValid fib → Ends (λ _. IsChecked fib) (check_fib fib)
check_fib-IsChecked fib v =
    Ends-from_eq (check_fib-Ends fib)
      λ u e. (v, All-map fib.per_dst_fib (λ s c. c.distinct) ((check_fib_iff fib).0 e).1)

-- The FIBs are valid, with distinct ids in each set, and one FIB for each node.
pub record IsFilled (fibs : AllNodeFib) : Type 0 where
  pub valid : AreValid fibs
  pub distinct : SetsAreDistinct fibs
  pub keyed : AreKeyed fibs

module _ (sp : ShortestPaths) (routers : List (ℕ × GlobalRouter)) (num_nodes : ℕ) where
  node_fib-Ends :
      (node : Node) (source : ℕ) (gr : GlobalRouter) (faces : List (ℕ × Face))
      → Ends (λ r. IsChecked r.0) (node_fib sp routers num_nodes node source gr faces)
  unfolding node_fib
  node_fib-Ends node source gr faces =
      Ends-bind IsValid
        (Ends-from_eq
          (abstract_fib-Ends node.node_id num_nodes (length gr.incidencies) source node.name)
          λ fib e.
            abstract_fib-IsValid node.node_id num_nodes (length gr.incidencies) source node.name fib
              e)
        λ fib v.
          Ends-bind (λ _. Unit {0})
            (neighbor_paths-Ends sp routers node.node_id source gr.incidencies faces)
            λ r _.
              Ends-bind IsValid
                (fill_fib-Ends routers source r.0 r.1.0 r.1.1 (sp.distances faces routers source)
                  fib v)
                λ fib' v'. Ends-bind _ (check_fib-IsChecked fib' v') λ u c. returns c

  All-keys-none : (n : ℕ) (fibs : AllNodeFib) → lookup n fibs ≡ none → All (λ e. e.0 ≢ n) fibs
  All-keys-none n [] h = tt
  All-keys-none n ((k, f) ∷ fibs) h = ground (arith, All-keys-none n fibs)

  AreKeyed-append :
      (n : ℕ) (fib : AbstractFib) (fibs : AllNodeFib)
      → All (λ e. e.0 ≢ n) fibs
      → AreKeyed fibs
      → AreKeyed (fibs ++ ((n, fib) ∷ []))
  AreKeyed-append n fib [] a u = (tt, tt)
  AreKeyed-append n fib ((k, f) ∷ fibs) a u =
      (All-append _ fibs _ u.0 ((λ e. a.0 (sym e)), tt), AreKeyed-append n fib fibs a.1 u.1)

  emplace-IsFilled :
      (n : ℕ) (fib : AbstractFib) (fibs : AllNodeFib)
      → IsChecked fib
      → IsFilled fibs
      → IsFilled (emplace n fib fibs)
  emplace-IsFilled n fib fibs (v, d) f = elim (Option-cases (lookup n fibs)) [
    | inr (x, e) ↦ rw (emplace, e) f
    | inl e ↦
        rw (emplace, e)
          (record {
            valid = All-append _ fibs _ f.valid (v, tt);
            distinct = All-append _ fibs _ f.distinct (d, tt);
            keyed = AreKeyed-append n fib fibs (All-keys-none n fibs e) f.keyed;
          })
  ]

  fill_routed-Ends :
      (node : Node) (s : LfidState) (source : ℕ)
      → IsFilled s.fibs
      → Ends (λ t. IsFilled t.fibs) (fill_routed sp routers num_nodes node s source)
  unfolding fill_routed
  fill_routed-Ends node s source f =
      Ends-bind (λ _. Unit {0}) (Ends-or_fail (lookup source routers) abort tt)
        λ gr _.
          Ends-bind (λ r. IsChecked r.0) (node_fib-Ends node source gr s.faces)
            λ r c. returns (emplace-IsFilled node.node_id r.0 s.fibs c f)

  fill_node-Ends :
      (node : Node) (s : LfidState)
      → IsFilled s.fibs
      → Ends (λ t. IsFilled t.fibs) (fill_node sp routers num_nodes node s)
  unfolding fill_node
  fill_node-Ends node s f =
      elim node.router
        as (λ o.
          Ends (λ t. IsFilled t.fibs)
            (elim o [
              | none ↦ ok s
              | some source ↦ fill_routed sp routers num_nodes node s source
            ])) [ none ↦ returns f | some source ↦ fill_routed-Ends node s source f ]

  pub fill_nodes-Ends :
      (nodes : List Node) (s : LfidState)
      → IsFilled s.fibs
      → Ends (λ t. IsFilled t.fibs) (fill_nodes sp routers num_nodes nodes s)
  unfolding fill_nodes
  fill_nodes-Ends [] s f = returns f
  fill_nodes-Ends (node ∷ nodes) s f =
      Ends-bind (λ t. IsFilled t.fibs) (fill_node-Ends node s f) λ t g. fill_nodes-Ends nodes t g
