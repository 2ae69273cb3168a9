-- ===== src/Routing/Install/Whole.antt =====
-- helper/ndn-global-routing-helper.cpp, Install for one node or channel, and InstallAll.
use ndn_sim.Prelude.{
  ℕ, zero, suc, ◌≤◌, ◌<◌, ◌≡◌, refl, ◌∙◌, subst, List, [], ◌∷◌, length, Option, none, some, map,
  arith, ◌==◌, Result, ok, All, Bool-cases, inl, inr,
}
use mathlib.Core.List.{Memᴰ}
use ndn_sim.Routing.Network.{Network}
use ndn_sim.Routing.Install.{
  Place, a_node, a_channel, Simulation, is_routed, create, install_place, install, install_each,
  install_routers,
}
use ndn_sim.Routing.Install.Described.{
  place_ends, ends_of, link_all, link_ports_lem, link_owners_lem,
}
use ndn_sim.Routing.Install.Grown.{
  IsRouted, IsBare, Keeps, GrowsAt, Grows, Grows-refl, Grows-Keeps, GrowsAt-trans, lookup-create,
  lookup-create_own, lookup-IsRouted, is_routed-lookup, bare_places, bare_places-length,
  bare_places_falls,
}
use ndn_sim.Routing.Install.Linked.{LinksMade, IsEnd, Installs, link_all-ok}

-- A node has a stack.
abbrev pub HasStack : Place → Type 0
HasStack (a_node none) = ⊥
HasStack (a_node (some ports)) = Unit
HasStack (a_channel devices) = Unit

-- The nodes among the places have stacks, and every link of a place leads to one of the places.
abbrev pub AreClosed : Simulation → List ℕ → Type 0
AreClosed sim places =
    (key : ℕ) → Memᴰ key places → HasStack (sim.place key) × All (IsEnd places) (ends_of sim key)

module _ (sim : Simulation) (own : ℕ) (owner : Option ℕ) (net : Network) where
  create-Keeps : Keeps net (create own owner net)
  create-Keeps key h = elim (Bool-cases (own == key)) [
    | inl e ↦
        let (gr, l, _) = lookup-create_own own net owner in
        subst (λ k. IsRouted k (create own owner net)) (ground arith) (lookup-IsRouted own _ gr l)
    | inr n ↦ is_routed-lookup key net _ (lookup-create own net owner key n) ∙ h
  ]

  -- One place less is without a router.
  create_falls :
      (places : List ℕ)
      → Memᴰ own places
      → IsBare own net
      → bare_places places (create own owner net) < bare_places places net
  create_falls places m bare =
      let (gr, l, _) = lookup-create_own own net owner in
      bare_places_falls places net (create own owner net) own create-Keeps m bare
        (lookup-IsRouted own _ gr l)

  -- All links of a new router make the router complete.
  module _ (net' : Network) (bare : IsBare own net)
      (made : LinksMade sim own [] (ends_of sim own) (create own owner net) net') where
    install-Grows : Grows sim net net'
    install-Grows key = elim (Bool-cases (own == key)) [
      | inl e ↦
          subst (GrowsAt sim net net') (ground arith)
            (record { kept = λ h. cc; linked = λ b r. made.linked })
      | inr n ↦ record {
        kept =
            λ h. (made.grows key n).kept (create-Keeps key h) ∙ lookup-create own net owner key n;
        linked = λ b r.
            (made.grows key n).linked
              (is_routed-lookup key net _ (lookup-create own net owner key n) ∙ b) r;
      }
    ]

-- A place gets a router, and then its links in the one loop over its ends.
install_place-links :
    (sim : Simulation) (install_other : ℕ → Network → Result Network) (key : ℕ) (place : Place)
    (net : Network)
    → HasStack place
    → IsBare key net
    → (owner : Option ℕ) × (install_place sim install_other key place net
        ≡ link_all install_other key (place_ends sim place) (create key owner net))
unfolding install_place
install_place-links sim f key (a_node none) net stack bare = elim stack [ ]
install_place-links sim f key (a_node (some ports)) net stack bare =
    (some key, rw (install_place, bare) (link_ports_lem sim f key ports _))
install_place-links sim f key (a_channel devices) net stack bare =
    (none, rw (install_place, bare) (link_owners_lem sim f key devices _))

install_place-routed :
    (sim : Simulation) (install_other : ℕ → Network → Result Network) (key : ℕ) (place : Place)
    (net : Network)
    → HasStack place
    → IsRouted key net
    → install_place sim install_other key place net ≡ ok net
unfolding install_place
install_place-routed sim f key (a_node none) net stack r = elim stack [ ]
install_place-routed sim f key (a_node (some ports)) net stack r = rw (install_place, r) refl
install_place-routed sim f key (a_channel devices) net stack r = rw (install_place, r) refl

-- The networks that install may end with.
pub record IsInstalled (sim : Simulation) (keys : List ℕ) (net net' : Network) : Type 0 where
  pub routed : All (λ key. IsRouted key net') keys
  pub grows : Grows sim net net'

module _ (sim : Simulation) (places : List ℕ) (closed : AreClosed sim places) where
  install-Installs : (fuel : ℕ) → Installs sim places fuel (install sim fuel)
  unfolding install
  install-Installs zero key net m bare few =
      let impossible : ⊥ = omega (arith, create_falls sim key none net places m bare, few) in
      elim impossible [ ]
  install-Installs (suc fuel) key net m bare few =
      let (owner, e) =
        install_place-links sim (install sim fuel) key (sim.place key) net (closed key m).0 bare in
      let (gr, l, i) = lookup-create_own key net owner in
      let (net', f, made) =
        link_all-ok sim key places fuel (install sim fuel) (install-Installs fuel) (ends_of sim key)
          [] (create key owner net) (closed key m).1
          (omega (arith, create_falls sim key owner net places m bare, few)) ((gr, l, i), tt) in
      (
        net',
        e ∙ f,
        install-Grows sim key owner net net' bare made,
        made.keeps key (lookup-IsRouted key (create key owner net) gr l),
      )

  module _ (fuel : ℕ) (enough : length places ≤ fuel) where
    install-ok :
        (key : ℕ) (net : Network)
        → Memᴰ key places
        → (net' : Network) × (install sim (suc fuel) key net ≡ ok net')
          × Grows sim net net'
          × IsRouted key net'
    unfolding install
    install-ok key net m = elim (Bool-cases (is_routed key net)) [
      | inl y ↦ (
        net,
        install_place-routed sim (install sim fuel) key (sim.place key) net (closed key m).0 y,
        Grows-refl sim net,
        y,
      )
      | inr bare ↦
          install-Installs (suc fuel) key net m bare
            (omega (arith, enough, bare_places-length places net))
    ]

    install_each-ok :
        (keys : List ℕ) (net : Network)
        → All (λ key. Memᴰ key places) keys
        → (net' : Network) × (install_each sim (suc fuel) keys net ≡ ok net')
          × IsInstalled sim keys net net'
    unfolding install_each
    install_each-ok [] net ms = (net, refl, record { routed = tt; grows = Grows-refl sim net })
    install_each-ok (key ∷ keys) net (m, ms) =
        let (a, e, g, r) = install-ok key net m in
        let (b, f, h) = install_each-ok keys a ms in
        (
          b,
          rw e f,
          record {
            routed = (Grows-Keeps sim a b h.grows key r, h.routed);
            grows =
                λ k. GrowsAt-trans sim net a b k (Grows-Keeps sim a b h.grows) (g k) (h.grows k);
          },
        )

-- The keys of the nodes.
abbrev pub node_keys : Network → List ℕ
node_keys net = map (λ node. node.node_id) net.nodes

-- Where the nodes are among finitely many places, the nodes among these have stacks, and every link
-- of a place leads to one of the places, InstallAll returns with calls that are no deeper than there
-- are places, and one. Each node has a router then. The routers that were there are as they
-- were, and each new one has exactly the links of its node or channel, one by one in the
-- order of faces and devices, all of which lead to routers.
pub install_routers-ok :
    (sim : Simulation) (places : List ℕ) (net : Network)
    → AreClosed sim places
    → All (λ key. Memᴰ key places) (node_keys net)
    → (net' : Network) × (install_routers sim (suc (length places)) net ≡ ok net')
      × IsInstalled sim (node_keys net) net net'
unfolding install_routers
install_routers-ok sim places net closed known =
    install_each-ok sim places closed (length places) (omega arith) (node_keys net) net known
