-- ===== src/Routing/Install/Linked.antt =====
-- helper/ndn-global-routing-helper.cpp, Install: one link of a router, and all its links.
use ndn_sim.Prelude.{
  ℕ, ◌≤◌, ◌≡◌, refl, ◌∙◌, sym, ap, subst, List, [], ◌∷◌, ◌++◌, Option, none, some, arith, ◌==◌,
  Result, ok, All, All-map, Bool-cases, inl, inr,
}
use ndn_sim.Prelude.AssocMap.{lookup, lookup-update}
use mathlib.Core.List.{Memᴰ, append_assoc, append-nil}
use ndn_sim.Routing.Network.{Incidency, GlobalRouter, Network, add_incidency}
use ndn_sim.Routing.Install.{Simulation, is_routed, add_link}
use ndn_sim.Routing.Install.Described.{End, incidencies, link_all}
use ndn_sim.Routing.Install.Grown.{
  IsRouted, IsBare, IsLinked, Keeps, Grows, GrowsBut, is_routed-lookup, lookup-IsRouted,
  IsRouted-lookup, Grows-refl, Grows-Keeps, IsLinked-Keeps, GrowsAt-trans, lookup-add_incidency,
  bare_places, bare_places-Keeps,
}

-- What `link_all` does to a router with the incidencies `is`.
pub record LinksMade (sim : Simulation) (own : ℕ) (is : List Incidency) (es : List End)
    (net net' : Network) : Type 0 where
  pub keeps : Keeps net net'
  pub grows : GrowsBut sim own net net'
  pub linked : IsLinked own (is ++ incidencies own es) net'

-- The end has a node or channel, which is one of the places.
abbrev pub IsEnd : List ℕ → End → Type 0
IsEnd places e = (other : ℕ) × (e.1 ≡ some other) × Memᴰ other places

-- On at most `n` places without a router, the function gives a place among them its router.
abbrev pub Installs : Simulation → List ℕ → ℕ → (ℕ → Network → Result Network) → Type 0
Installs sim places n install_other =
    (key : ℕ) (net : Network)
    → Memᴰ key places
    → IsBare key net
    → bare_places places net ≤ n
    → (net' : Network) × (install_other key net ≡ ok net') × Grows sim net net' × IsRouted key net'

All_append :
    {A : Type 0} (P : A → Type 0) (xs : List A) (y : A) → All P xs → P y → All P (xs ++ (y ∷ []))
All_append P [] y h p = (p, tt)
All_append P (x ∷ xs) y h p = (h.0, All_append P xs y h.1 p)

lookup-add_own :
    (own : ℕ) (face : Option ℕ) (other : ℕ) (net : Network) (gr : GlobalRouter)
    → lookup own net.routers ≡ some gr
    → (gr' : GlobalRouter) × (lookup own (add_incidency own face other net).routers ≡ some gr')
      × (gr'.incidencies
          ≡ gr.incidencies ++ (record { own = own; face = face; other = other } ∷ []))
unfolding add_incidency
lookup-add_own own face other net gr h = (
  record gr {
    incidencies = gr.incidencies ++ (record { own = own; face = face; other = other } ∷ []);
  },
  lookup-update own own _ gr net.routers h ∙ ground arith,
  refl,
)

add_incidency-Keeps :
    (own : ℕ) (face : Option ℕ) (other : ℕ) (net : Network)
    → IsRouted own net
    → Keeps net (add_incidency own face other net)
add_incidency-Keeps own face other net r key h = elim (Bool-cases (own == key)) [
  | inl e ↦
      let (gr, l) = IsRouted-lookup own net r in
      let (gr', l', _) = lookup-add_own own face other net gr l in
      subst (λ k. IsRouted k (add_incidency own face other net)) (ground arith)
        (lookup-IsRouted own _ gr' l')
  | inr n ↦ is_routed-lookup key net _ (lookup-add_incidency own net face other key n) ∙ h
]

module _ (sim : Simulation) (own : ℕ) where
  add_incidency-LinksMade :
      (face : Option ℕ) (other : ℕ) (is : List Incidency) (net : Network)
      → IsLinked own is net
      → IsRouted other net
      → LinksMade sim own is ((face, some other) ∷ []) net (add_incidency own face other net)
  add_incidency-LinksMade face other is net ((gr, l, e), others) r =
      let keeps = add_incidency-Keeps own face other net (lookup-IsRouted own net gr l) in
      let (gr', l', e') = lookup-add_own own face other net gr l in
      record {
        keeps = keeps;
        grows = λ key n. record {
          kept = λ h. lookup-add_incidency own net face other key n;
          linked = λ bare h.
              let same =
                is_routed-lookup key net (add_incidency own face other net)
                  (lookup-add_incidency own net face other key n) in
              cc;
        };
        linked = (
          (
            gr',
            l',
            e' ∙ ap (λ js. js ++ (record { own = own; face = face; other = other } ∷ [])) e,
          ),
          All_append _ is _ (All-map is (λ i h. keeps i.other h) others) (keeps other r),
        );
      }

  LinksMade-trans :
      (face : Option ℕ) (other : ℕ) (es : List End) (is : List Incidency) (a b c : Network)
      → LinksMade sim own is ((face, some other) ∷ []) a b
      → LinksMade sim own (is ++ incidencies own ((face, some other) ∷ [])) es b c
      → LinksMade sim own is ((face, some other) ∷ es) a c
  LinksMade-trans face other es is a b c f g = record {
    keeps = λ key h. g.keeps key (f.keeps key h);
    grows = λ key n. GrowsAt-trans sim a b c key g.keeps (f.grows key n) (g.grows key n);
    linked =
        subst (λ js. IsLinked own js c)
          (append_assoc is (incidencies own ((face, some other) ∷ [])) (incidencies own es))
          g.linked;
  }

  LinksMade-after :
      (es : List End) (is : List Incidency) (a b c : Network)
      → Grows sim a b
      → LinksMade sim own is es b c
      → LinksMade sim own is es a c
  LinksMade-after es is a b c f g = record {
    keeps = λ key h. g.keeps key (Grows-Keeps sim a b f key h);
    grows = λ key n. GrowsAt-trans sim a b c key g.keeps (f key) (g.grows key n);
    linked = g.linked;
  }

  IsLinked-Grows :
      (is : List Incidency) (a b : Network) → Grows sim a b → IsLinked own is a → IsLinked own is b
  IsLinked-Grows is a b g l =
      IsLinked-Keeps own is a b ((g own).kept (lookup-IsRouted own a l.0.0 l.0.1))
        (Grows-Keeps sim a b g) l

  module _ (places : List ℕ) (n : ℕ) (install_other : ℕ → Network → Result Network)
      (installs : Installs sim places n install_other) where
    add_link-ok :
        (face : Option ℕ) (other : ℕ) (is : List Incidency) (net : Network)
        → Memᴰ other places
        → bare_places places net ≤ n
        → IsLinked own is net
        → (net' : Network) × (add_link install_other own face other net ≡ ok net')
          × LinksMade sim own is ((face, some other) ∷ []) net net'
    unfolding add_link
    add_link-ok face other is net m few l = elim (Bool-cases (is_routed other net)) [
      | inl y ↦ (
        add_incidency own face other net,
        rw (add_link, y, y) refl,
        add_incidency-LinksMade face other is net l y,
      )
      | inr bare ↦
          let (net', e, g, r) = installs other net m bare few in
          (
            add_incidency own face other net',
            rw (add_link, bare, e, r) refl,
            LinksMade-after _ is net net' _ g
                (add_incidency-LinksMade face other is net' (IsLinked-Grows is net net' g l) r),
          )
    ]

    -- On closed links with enough fuel the loop over them makes each of them.
    pub link_all-ok :
        (es : List End) (is : List Incidency) (net : Network)
        → All (IsEnd places) es
        → bare_places places net ≤ n
        → IsLinked own is net
        → (net' : Network) × (link_all install_other own es net ≡ ok net')
          × LinksMade sim own is es net net'
    unfolding link_all
    link_all-ok [] is net ends few l = (
      net,
      refl,
      record {
        keeps = λ key h. h;
        grows = λ key n. Grows-refl sim net key;
        linked = subst (λ js. IsLinked own js net) (sym (append-nil is)) l;
      },
    )
    link_all-ok ((face, none) ∷ es) is net ((o, e, m), ends) few l = cc
    link_all-ok ((face, some other) ∷ es) is net ((o, e, m), ends) few l =
        let same : o ≡ other = cc in
        let (a, f, made) =
          add_link-ok face other is net (subst (λ k. Memᴰ k places) same m) few l in
        let (b, g, rest) =
          link_all-ok es (is ++ incidencies own ((face, some other) ∷ [])) a ends
            (omega (arith, few, bare_places-Keeps places net a made.keeps)) made.linked in
        (b, rw f g, LinksMade-trans face other es is net a b made rest)
