-- ===== src/Routing/AllRoutes/Rounds.antt =====
-- helper/ndn-global-routing-helper.cpp, CalculateAllPossibleRoutes: the rounds for the faces of a
-- node, for all faces of it, and for all nodes.
use ndn_sim.Prelude.{
  ℕ, ◌≡◌, refl, sym, ap, ◌∙◌, List, [], ◌∷◌, ◌++◌, some, arith, ◌==◌, All, All-map, ok,
  Option-cases, Bool-cases, inl, inr,
}
use mathlib.Core.Option.{get_or}
use mathlib.Core.List.{Memᴰ}
use ndn_sim.Prelude.AssocMap.{lookup, map_option}
use ndn_sim.Routing.Network.{Face, Incidency, GlobalRouter}
use ndn_sim.Routing.Weights.{Weight, path_weight_lem, first_face}
use ndn_sim.Routing.Routes.{
  IsPath, IsReached, ShortestPaths, Command, add_prefixes, local_prefixes_at,
}
use ndn_sim.Routing.AllRoutes.{
  disabled_metric, with_metric, set_metric, add_enabled, add_all_enabled, RouteState, enable_one,
  enable_each,
}
use ndn_sim.Routing.AllRoutes.Restored.{
  Faces, SameFaces, SameDevices, lookup-set_metric, set_metric-SameDevices, HasMetric,
}

abbrev pub IsThere : Faces → ℕ → Type 0
IsThere faces id = (x : Face) × (lookup id faces ≡ some x)

-- The faces of all links are there.
abbrev pub AreLinked : List (ℕ × GlobalRouter) → Faces → Type 0
AreLinked routers faces =
    (s : ℕ) (gr : GlobalRouter) (edge : Incidency) (f : ℕ)
    → lookup s routers ≡ some gr
    → Memᴰ edge gr.incidencies
    → edge.face ≡ some f
    → IsThere faces f

IsThere-SameDevices :
    (faces faces' : Faces) (id : ℕ)
    → SameDevices faces faces'
    → IsThere faces id
    → IsThere faces' id
IsThere-SameDevices faces faces' id s (x, e) = elim (Option-cases (lookup id faces')) [
  | inl n ↦ absurd (ground (arith, s id, e, n))
  | inr there ↦ there
]

pub AreLinked-SameDevices :
    (routers : List (ℕ × GlobalRouter)) (faces faces' : Faces)
    → SameDevices faces faces'
    → AreLinked routers faces
    → AreLinked routers faces'
AreLinked-SameDevices routers faces faces' s l r gr edge f a m e =
    IsThere-SameDevices faces faces' f s (l r gr edge f a m e)

first_face-IsThere :
    (routers : List (ℕ × GlobalRouter)) (faces : Faces) (source target f : ℕ)
    (edges : List Incidency)
    → AreLinked routers faces
    → IsPath routers source edges target
    → first_face edges ≡ some f
    → IsThere faces f
first_face-IsThere routers faces source target f [] l p h = cc
first_face-IsThere routers faces source target f (edge ∷ edges) l (gr, a, m, p) h =
    elim (Option-cases edge.face) [
      | inl e ↦
          first_face-IsThere routers faces edge.other target f edges l p (ground (arith, h, e))
      | inr (g, e) ↦ l source gr edge f a m (ground (arith, h, e))
    ]

reached-IsThere :
    (routers : List (ℕ × GlobalRouter)) (faces : Faces) (source f : ℕ) (dist : ℕ × Weight)
    → AreLinked routers faces
    → IsReached faces routers source dist
    → dist.1.face ≡ some f
    → IsThere faces f
reached-IsThere routers faces source f dist l r e =
    let (edges, path, w) = r f e in
    first_face-IsThere routers faces source dist.0 f edges l path
      (sym (path_weight_lem faces edges).0 ∙ (ap (λ x. x.face) w ∙ e))

pub SameFaces-SameDevices :
    (faces faces' : Faces) → SameFaces faces faces' → SameDevices faces faces'
SameFaces-SameDevices faces faces' s f = ap (map_option (with_metric 0)) (s f)

module _ (routers : List (ℕ × GlobalRouter)) (node source : ℕ) where
  add_enabled-ok :
      (faces : Faces) (dist : ℕ × Weight)
      → AreLinked routers faces
      → IsReached faces routers source dist
      → (cs : List Command) × (add_enabled faces node source routers dist ≡ ok cs)
  unfolding add_enabled
  add_enabled-ok faces dist l r = elim (Bool-cases (dist.0 == source)) [
    | inl e ↦ ([], rw e refl)
    | inr e ↦ elim (Option-cases dist.1.face) [
      | inl f ↦ ([], ground (arith, e, f))
      | inr (id, f) ↦
          let (x, k) = reached-IsThere routers faces source id dist l r f in
          elim (Bool-cases (x.metric == disabled_metric)) [
            | inl d ↦ ([], ground (arith, e, f, k, d))
            | inr d ↦ (
              add_prefixes node id dist.1.cost (local_prefixes_at routers dist.0),
              ground (arith, e, f, k, d),
            )
          ]
    ]
  ]

  add_all_enabled-ok :
      (faces : Faces) (dists : List (ℕ × Weight))
      → AreLinked routers faces
      → All (IsReached faces routers source) dists
      → (cs : List Command) × (add_all_enabled faces node source routers dists ≡ ok cs)
  unfolding add_all_enabled
  add_all_enabled-ok faces [] l a = ([], refl)
  add_all_enabled-ok faces (dist ∷ dists) l a =
      let (c, e) = add_enabled-ok faces dist l a.0 in
      let (cs, f) = add_all_enabled-ok faces dists l a.1 in (c ++ cs, rw (e, f) refl)

  module _ (sp : ShortestPaths) (original : List (ℕ × ℕ)) where
    -- A face that is disabled is disabled again after its round, and the others are as before.
    enable_one-ok :
        (id : ℕ) (s : RouteState)
        → AreLinked routers s.0
        → HasMetric s.0 (id, disabled_metric)
        → (t : RouteState) × (enable_one sp routers node source original id s ≡ ok t)
          × SameFaces s.0 t.0
    unfolding enable_one
    enable_one-ok id s l (x, e, m) =
        let faces = set_metric id (get_or (lookup id original) 0) s.0 in
        let (cs, f) =
          add_all_enabled-ok faces (sp.distances faces routers source)
            (AreLinked-SameDevices routers s.0 faces (set_metric-SameDevices id _ s.0) l)
            (sp.reached faces routers source) in
        (
          (set_metric id disabled_metric faces, s.1 ++ cs),
          rw f refl,
          λ g. ground (
            arith,
            lookup-set_metric id disabled_metric g faces,
            lookup-set_metric id (get_or (lookup id original) 0) g s.0,
            e,
            m,
          ),
        )

    HasMetric-SameFaces :
        (faces faces' : Faces) (ids : List ℕ)
        → SameFaces faces faces'
        → All (λ id. HasMetric faces (id, disabled_metric)) ids
        → All (λ id. HasMetric faces' (id, disabled_metric)) ids
    HasMetric-SameFaces faces faces' ids s = All-map ids (λ id (x, e, m). (x, s id ∙ e, m))

    pub enable_each-ok :
        (ids : List ℕ) (s : RouteState)
        → AreLinked routers s.0
        → All (λ id. HasMetric s.0 (id, disabled_metric)) ids
        → (t : RouteState) × (enable_each sp routers node source original ids s ≡ ok t)
          × SameFaces s.0 t.0
    unfolding enable_each
    enable_each-ok [] s l a = (s, refl, λ f. refl)
    enable_each-ok (id ∷ ids) s l a =
        let (x, e, m) = a.0 in
        elim (Bool-cases x.net_device) [
          | inr n ↦ let (t, g, h) = enable_each-ok ids s l a.1 in (t, rw (e, n) g, h)
          | inl n ↦
              let (u, k, same) = enable_one-ok id s l a.0 in
              let (t, g, h) =
                enable_each-ok ids u
                  (AreLinked-SameDevices routers s.0 u.0 (SameFaces-SameDevices s.0 u.0 same) l)
                  (HasMetric-SameFaces s.0 u.0 ids same a.1) in
              (t, rw (e, n, k) g, λ f. h f ∙ same f)
        ]
