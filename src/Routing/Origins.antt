-- ===== src/Routing/Origins.antt =====
-- helper/ndn-global-routing-helper.cpp, AddOriginsForAll: the prefixes of all routers.
use ndn_sim.Prelude.{
  ℕ, ◌≡◌, refl, sym, ap, ◌∙◌, List, [], ◌∷◌, ◌++◌, Option, none, some, arith, ◌==◌, if◌then◌else◌,
  ok, Option-cases, Bool-cases, inl, inr,
}
use ndn_sim.Prelude.AssocMap.{lookup, map_option, lookup-update_any}
use mathlib.Core.List.{append_assoc, append-nil}
use ndn_sim.Routing.Network.{
  Node, Network, is_empty, slash, add_local_prefix, add_origin, add_named, add_each_named,
  add_origins_for_all, prefixes_of, named_prefixes,
}

abbrev pub append_prefixes : List (List ℕ) → Option (List (List ℕ)) → Option (List (List ℕ))
append_prefixes more = map_option (λ ps. ps ++ more)

prefixes_of-add_local_prefix :
    (router : ℕ) (prefix : List ℕ) (net : Network) (r : ℕ)
    → prefixes_of r (add_local_prefix router prefix net) ≡ (
        if router == r
        then append_prefixes (prefix ∷ []) (prefixes_of r net)
        else prefixes_of r net)
unfolding prefixes_of add_local_prefix
prefixes_of-add_local_prefix router prefix net r = ground (
  arith,
  lookup-update_any router r
      (λ gr. record gr { local_prefixes = gr.local_prefixes ++ (prefix ∷ []) }) net.routers,
  Option-cases (lookup r net.routers),
)

append_prefixes_append :
    (a b : List (List ℕ)) (o : Option (List (List ℕ)))
    → append_prefixes b (append_prefixes a o) ≡ append_prefixes (a ++ b) o
append_prefixes_append a b none = refl
append_prefixes_append a b (some ps) = ap some (append_assoc ps a b)

append_prefixes_nil : (o : Option (List (List ℕ))) → append_prefixes [] o ≡ o
append_prefixes_nil none = refl
append_prefixes_nil (some ps) = ap some (append-nil ps)

named_prefixes_cons :
    (r : ℕ) (node : Node) (nodes : List Node)
    → named_prefixes r (node ∷ []) ++ named_prefixes r nodes ≡ named_prefixes r (node ∷ nodes)
named_prefixes_cons r node nodes = elim (Option-cases node.router) [
  | inl e ↦ rw e refl
  | inr (gr, e) ↦ rw e (ground arith)
]

-- What `nodes` add to the prefixes of each router.
abbrev Added : List Node → Network → Network → Type 0
Added nodes net net' =
    (r : ℕ) → prefixes_of r net' ≡ append_prefixes (named_prefixes r nodes) (prefixes_of r net)

add_named_lem :
    (node : Node) (net : Network)
    → (net' : Network) × (add_named node net ≡ ok net') × Added (node ∷ []) net net'
unfolding add_named add_origin
add_named_lem node net = elim (Option-cases node.router) [
  | inl e ↦ (net, ground (arith, e), λ r. rw e (sym (append_prefixes_nil _)))
  | inr (gr, e) ↦ elim (Bool-cases (is_empty node.name)) [
    | inl n ↦
        (net, ground (arith, e, n), λ r. ground (arith, append_prefixes_nil (prefixes_of r net)))
    | inr n ↦ (
      add_local_prefix gr (slash ∷ node.name) net,
      ground (arith, e, n),
      λ r. ground (
        arith,
        prefixes_of-add_local_prefix gr (slash ∷ node.name) net r,
        append_prefixes_nil (prefixes_of r net),
      ),
    )
  ]
]

add_each_named_lem :
    (nodes : List Node) (net : Network)
    → (net' : Network) × (add_each_named nodes net ≡ ok net') × Added nodes net net'
unfolding add_each_named
add_each_named_lem [] net = (net, refl, λ r. sym (append_prefixes_nil _))
add_each_named_lem (node ∷ nodes) net =
    let (a, e, g) = add_named_lem node net in
    let (b, f, h) = add_each_named_lem nodes a in
    (
      b,
      rw e f,
      λ r.
          h r
          ∙ (ap (append_prefixes (named_prefixes r nodes)) (g r)
              ∙ (append_prefixes_append _ _ (prefixes_of r net)
                  ∙ ap (λ more. append_prefixes more (prefixes_of r net))
                      (named_prefixes_cons r node nodes))),
    )

-- AddOriginsForAll never fails. Each router has afterwards the prefixes that it had, and after them
-- "/" and the name of each node that is named and has this router, in the order of the nodes.
pub add_origins_for_all_lem :
    (net : Network)
    → (net' : Network) × (add_origins_for_all net ≡ ok net')
      × ((r : ℕ)
          → prefixes_of r net' ≡ append_prefixes (named_prefixes r net.nodes) (prefixes_of r net))
unfolding add_origins_for_all
add_origins_for_all_lem net = add_each_named_lem net.nodes net
