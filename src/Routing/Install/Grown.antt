-- ===== src/Routing/Install/Grown.antt =====
-- helper/ndn-global-routing-helper.cpp, Install: what it leaves of the routers there are, the links
-- of the new ones, and the number of places without a router.
use ndn_sim.Prelude.{
  ℕ, suc, ◌≤◌, ◌<◌, ◌≡◌, refl, ◌∙◌, ap, true, false, List, [], ◌∷◌, length, Option, some, arith,
  ◌==◌, if◌then◌else◌, All, All-map, Bool-cases, Option-cases, inl, inr,
}
use ndn_sim.Prelude.AssocMap.{lookup, lookup-update_other}
use mathlib.Core.List.{Memᴰ}
use mathlib.Core.List.Memᴰ
use ndn_sim.Routing.Network.{Incidency, GlobalRouter, Network, new_router, add_incidency}
use ndn_sim.Routing.Install.{Simulation, is_set, is_routed, create}
use ndn_sim.Routing.Install.Described.{incidencies, ends_of}

abbrev pub IsRouted : ℕ → Network → Type 0
IsRouted key net = is_routed key net ≡ true

abbrev pub IsBare : ℕ → Network → Type 0
IsBare key net = is_routed key net ≡ false

-- The router with this key has these incidencies, which lead to routers.
abbrev pub IsLinked : ℕ → List Incidency → Network → Type 0
IsLinked key is net =
    ((gr : GlobalRouter) × (lookup key net.routers ≡ some gr) × (gr.incidencies ≡ is))
    × All (λ i. IsRouted i.other net) is

-- A router stays as it is, and a new one has the links it should get.
pub record GrowsAt (sim : Simulation) (net net' : Network) (key : ℕ) : Type 0 where
  pub kept : IsRouted key net → lookup key net'.routers ≡ lookup key net.routers
  pub linked :
      IsBare key net → IsRouted key net' → IsLinked key (incidencies key (ends_of sim key)) net'

abbrev pub Keeps : Network → Network → Type 0
Keeps net net' = (key : ℕ) → IsRouted key net → IsRouted key net'

-- `net'` has more routers than `net`, and no others are changed.
abbrev pub Grows : Simulation → Network → Network → Type 0
Grows sim net net' = (key : ℕ) → GrowsAt sim net net' key

-- The same, apart from one router.
abbrev pub GrowsBut : Simulation → ℕ → Network → Network → Type 0
GrowsBut sim own net net' = (key : ℕ) → (own == key) ≡ false → GrowsAt sim net net' key

pub is_routed-lookup :
    (key : ℕ) (a b : Network)
    → lookup key b.routers ≡ lookup key a.routers
    → is_routed key b ≡ is_routed key a
unfolding is_routed
is_routed-lookup key a b h = ap is_set h

pub lookup-IsRouted :
    (key : ℕ) (net : Network) (gr : GlobalRouter)
    → lookup key net.routers ≡ some gr
    → IsRouted key net
unfolding is_routed
lookup-IsRouted key net gr h = ap is_set h

pub IsRouted-lookup :
    (key : ℕ) (net : Network)
    → IsRouted key net
    → (gr : GlobalRouter) × (lookup key net.routers ≡ some gr)
unfolding is_routed
IsRouted-lookup key net h = elim (Option-cases (lookup key net.routers)) [
  | inl e ↦ let n = ap is_set e in cc
  | inr x ↦ x
]

pub Grows-refl : (sim : Simulation) (net : Network) → Grows sim net net
Grows-refl sim net key = record { kept = λ h. refl; linked = λ bare h. cc }

pub Grows-Keeps : (sim : Simulation) (a b : Network) → Grows sim a b → Keeps a b
Grows-Keeps sim a b g key h = is_routed-lookup key a b ((g key).kept h) ∙ h

pub IsLinked-Keeps :
    (key : ℕ) (is : List Incidency) (a b : Network)
    → lookup key b.routers ≡ lookup key a.routers
    → Keeps a b
    → IsLinked key is a
    → IsLinked key is b
IsLinked-Keeps key is a b same keeps ((gr, l, e), others) =
    ((gr, same ∙ l, e), All-map is (λ i h. keeps i.other h) others)

pub GrowsAt-trans :
    (sim : Simulation) (a b c : Network) (key : ℕ)
    → Keeps b c
    → GrowsAt sim a b key
    → GrowsAt sim b c key
    → GrowsAt sim a c key
GrowsAt-trans sim a b c key keeps f g = elim (Bool-cases (is_routed key b)) [
  | inl y ↦ record {
    kept = λ h. g.kept y ∙ f.kept h;
    linked = λ bare h. IsLinked-Keeps key _ b c (g.kept y) keeps (f.linked bare y);
  }
  | inr n ↦ record {
    kept = λ h. let r = is_routed-lookup key a b (f.kept h) ∙ h in cc;
    linked = λ bare h. g.linked n h;
  }
]

module _ (own : ℕ) (net : Network) where
  pub lookup-create :
      (owner : Option ℕ) (key : ℕ)
      → (own == key) ≡ false
      → lookup key (create own owner net).routers ≡ lookup key net.routers
  unfolding create new_router
  lookup-create owner key n = ground (arith, n)

  pub lookup-create_own :
      (owner : Option ℕ)
      → (gr : GlobalRouter) × (lookup own (create own owner net).routers ≡ some gr)
        × (gr.incidencies ≡ [])
  unfolding create new_router
  lookup-create_own owner = ((new_router owner net).0, ground arith, refl)

  pub lookup-add_incidency :
      (face : Option ℕ) (other key : ℕ)
      → (own == key) ≡ false
      → lookup key (add_incidency own face other net).routers ≡ lookup key net.routers
  unfolding add_incidency
  lookup-add_incidency face other key n = lookup-update_other own key _ net.routers n

-- The number of places without a router.
abbrev pub bare_places : List ℕ → Network → ℕ
bare_places [] net = 0
bare_places (p ∷ ps) net =
    let rest = bare_places ps net in if is_routed p net then rest else suc rest

pub bare_places-length : (ps : List ℕ) (net : Network) → bare_places ps net ≤ length ps
bare_places-length [] net = omega arith
bare_places-length (p ∷ ps) net = ground (arith, bare_places-length ps net)

pub bare_places-Keeps :
    (ps : List ℕ) (a b : Network) → Keeps a b → bare_places ps b ≤ bare_places ps a
bare_places-Keeps [] a b keeps = omega arith
bare_places-Keeps (p ∷ ps) a b keeps = ground (arith, bare_places-Keeps ps a b keeps, keeps p)

pub bare_places_falls :
    (ps : List ℕ) (a b : Network) (p : ℕ)
    → Keeps a b
    → Memᴰ p ps
    → IsBare p a
    → IsRouted p b
    → bare_places ps b < bare_places ps a
bare_places_falls [] a b p keeps m bare h = elim m [ ]
bare_places_falls (q ∷ ps) a b p keeps m bare h = elim (Memᴰ.cases_cons m) [
  | inl e ↦ ground (arith, bare_places-Keeps ps a b keeps, e, bare, h)
  | inr n ↦ ground (arith, bare_places_falls ps a b p keeps n bare h, keeps q)
]
