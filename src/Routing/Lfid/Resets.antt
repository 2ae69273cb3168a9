-- ===== src/Routing/Lfid/Resets.antt =====
-- helper/lfid/ndn-global-routing-helper-lfid.cpp, CalculateLfidRoutes: the metrics of the faces after
-- the distances of the neighbours were computed.
use ndn_sim.Prelude.{
  ℕ, ◌≡◌, ◌≢◌, refl, sym, ap, subst, ◌∙◌, Bool, true, false, not, List, [], ◌∷◌, none, some, arith,
  ◌==◌, if◌then◌else◌, All, All-map, Bool-cases, inl, inr, ok, abort, out_of_range, Ends, Ends-bind,
  Ends-bind_eq, Ends-guard, Ends-map, Ends-or_fail, or_fail-some, returns,
}
use ndn_sim.Prelude.AssocMap
use ndn_sim.Prelude.AssocMap.{lookup, lookup-insert}
use ndn_sim.Routing.Network.{Face, Incidency, GlobalRouter}
use ndn_sim.Routing.Weights.{inf_cost}
use ndn_sim.Routing.Routes.{ShortestPaths}
use ndn_sim.Routing.AllRoutes.{set_metric}
use ndn_sim.Routing.AllRoutes.Restored.{
  Faces, SameFaces, SameDevices, lookup-set_metric, set_metric-SameDevices, SameDevices-trans,
}
use ndn_sim.Routing.FillFib.{node_of}
use ndn_sim.Routing.FillFib.Validity.{node_of-Ends}
use ndn_sim.Routing.Lfid.{Saved, cut_links, reset_links, neighbor_paths}
use ndn_sim.Routing.Lfid.Endings.{neighbor_distances-Ends}

module _ (routers : List (ℕ × GlobalRouter)) where
  -- No two links lead to one node or by one face.
  abbrev pub AreApart : List Incidency → Type 0
  AreApart [] = Unit
  AreApart (nb ∷ nbs) =
      All (λ o. (node_of routers o.other ≢ node_of routers nb.other) × (o.face ≢ nb.face)) nbs
      × AreApart nbs

  abbrev has_face : ℕ → List Incidency → Bool
  has_face f [] = false
  has_face f (nb ∷ nbs) = elim nb.face [
    | none ↦ has_face f nbs
    | some id ↦ if id == f then true else has_face f nbs
  ]

  -- A link with its node, its face, and the metric that the face had.
  pub record IsSaved (start : Faces) (metrics : List (ℕ × ℕ)) (nb : Incidency) : Type 0 where
    pub node : ℕ
    pub id : ℕ
    pub x : Face
    pub leads : node_of routers nb.other ≡ ok node
    pub by : nb.face ≡ some id
    pub was : lookup id start ≡ some x
    pub kept : lookup node metrics ≡ some x.metric

  -- The face of the first link has its metric back, and every other face is as it was.
  reset_one :
      (start faces : Faces) (nb : Incidency) (nbs : List Incidency) (id m : ℕ) (x y : Face) (f : ℕ)
      → SameDevices start faces
      → nb.face ≡ some id
      → lookup id start ≡ some x
      → lookup id faces ≡ some y
      → m ≡ x.metric
      → (if has_face f nbs then lookup f start else lookup f (set_metric id m faces))
        ≡ (if has_face f (nb ∷ nbs) then lookup f start else lookup f faces)
  reset_one start faces nb nbs id m x y f s i w h e =
      rw i (ground (arith, lookup-set_metric id m f faces, s id, w, h, e))

  reset_links-restores :
      (start : Faces) (node_id : ℕ) (metrics : List (ℕ × ℕ)) (nbs : List Incidency) (faces : Faces)
      → All (IsSaved start metrics) nbs
      → SameDevices start faces
      → Ends
          (λ faces'.
            (f : ℕ) → lookup f faces' ≡ (if has_face f nbs then lookup f start else lookup f faces))
          (reset_links routers node_id metrics nbs faces)
  unfolding reset_links
  reset_links-restores start node_id metrics [] faces a s = returns (λ f. refl)
  reset_links-restores start node_id metrics (nb ∷ nbs) faces a s =
      let k = a.0 in
      Ends-bind_eq (node_of-Ends routers nb.other) λ node e.
        Ends-guard (not (node == node_id)) abort tt λ _.
          Ends-bind_eq (Ends-or_fail nb.face abort tt) λ id i.
            Ends-bind_eq (Ends-or_fail (lookup id faces) abort tt) λ y h.
              Ends-guard (y.metric == inf_cost) abort tt λ _.
                Ends-bind_eq (Ends-or_fail (lookup node metrics) out_of_range tt) λ m g.
                  let faces1 = set_metric id m faces in
                  Ends-map
                    (reset_links-restores start node_id metrics nbs faces1 a.1
                      (SameDevices-trans start faces faces1 s (set_metric-SameDevices id m faces)))
                    λ faces' r f.
                      let face = or_fail-some nb.face abort id i in
                      let by = k.by in
                      let same_id : k.id ≡ id = cc in
                      let leads = k.leads in
                      let same_node : k.node ≡ node = cc in
                      let kept = or_fail-some (lookup node metrics) out_of_range m g in
                      let was = subst (λ j. lookup j start ≡ some k.x) same_id k.was in
                      let saved =
                        subst (λ j. lookup j metrics ≡ some k.x.metric) same_node k.kept in
                      let metric : m ≡ k.x.metric = cc in
                      r f
                      ∙ reset_one start faces nb nbs id m k.x y f s face was
                          (or_fail-some (lookup id faces) abort y h) metric

  has_face-cons :
      (f : ℕ) (nb : Incidency) (nbs : List Incidency) (id : ℕ)
      → nb.face ≡ some id
      → has_face f (nb ∷ nbs) ≡ (if id == f then true else has_face f nbs)
  has_face-cons f nb nbs id i = rw i refl

  other_node : (i j : ℕ) → i ≢ j → (i == j) ≡ false
  other_node i j n = ground (arith, n)

  record IsCut (start : Faces) (nbs : List Incidency) (saved : Saved) (faces : Faces)
      (r : Saved × Faces) : Type 0 where
    links : All (IsSaved start r.0.metrics) nbs
    rest : (f : ℕ) → has_face f nbs ≡ false → lookup f r.1 ≡ lookup f faces
    stays :
        (j : ℕ)
        → All (λ o. node_of routers o.other ≢ ok j) nbs
        → lookup j r.0.metrics ≡ lookup j saved.metrics
    devices : SameDevices faces r.1

  -- The faces of the links are as they were at the start.
  abbrev AreFresh : Faces → Faces → List Incidency → Type 0
  AreFresh start faces = All (λ nb. (f : ℕ) → nb.face ≡ some f → lookup f faces ≡ lookup f start)

  AreFresh-set_metric :
      (start faces : Faces) (nb : Incidency) (nbs : List Incidency) (id m : ℕ)
      → nb.face ≡ some id
      → All (λ o. (node_of routers o.other ≢ node_of routers nb.other) × (o.face ≢ nb.face)) nbs
      → AreFresh start faces nbs
      → AreFresh start (set_metric id m faces) nbs
  AreFresh-set_metric start faces nb [] id m i u a = tt
  AreFresh-set_metric start faces nb (o ∷ nbs) id m i u a = (
    (λ f e.
        let apart : (id == f) ≡ false = elim (Bool-cases (id == f)) [
          | inr n ↦ n
          | inl n ↦
              let same : id ≡ f = ground arith in absurd (u.0.1 (e ∙ (ap some (sym same) ∙ sym i)))
        ] in
        ground (arith, lookup-set_metric id m f faces, a.0 f e, apart)),
    AreFresh-set_metric start faces nb nbs id m i u.1 a.1,
  )

  cut_links-IsCut :
      (start : Faces) (node_id : ℕ) (nbs : List Incidency) (saved : Saved) (faces : Faces)
      → AreApart nbs
      → AreFresh start faces nbs
      → Ends (IsCut start nbs saved faces) (cut_links routers node_id nbs saved faces)
  unfolding cut_links
  cut_links-IsCut start node_id [] saved faces u a =
      returns (record { links = tt; rest = λ f n. refl; stays = λ j h. refl; devices = λ f. refl })
  cut_links-IsCut start node_id (nb ∷ nbs) saved faces u a =
      Ends-bind_eq (node_of-Ends routers nb.other) λ node e.
        Ends-guard (not (node == node_id)) abort tt λ _.
          Ends-bind_eq (Ends-or_fail nb.face abort tt) λ id i.
            Ends-bind_eq (Ends-or_fail (lookup id faces) abort tt) λ y h.
              let face = or_fail-some nb.face abort id i in
              let there = or_fail-some (lookup id faces) abort y h in
              let faces1 = set_metric id inf_cost faces in
              Ends-map
                (cut_links-IsCut start node_id nbs
                  (record {
                    metrics = AssocMap.insert node y.metric saved.metrics;
                    face_map = AssocMap.insert node id saved.face_map;
                  })
                  faces1 u.1 (AreFresh-set_metric start faces nb nbs id inf_cost face u.0 a.1))
                λ r g. record {
                  links = (
                    record {
                      node = node;
                      id = id;
                      x = y;
                      leads = e;
                      by = face;
                      was = sym (a.0 id face) ∙ there;
                      kept =
                          g.stays node (All-map nbs (λ o n same. n.0 (same ∙ sym e)) u.0)
                          ∙ ground (arith, lookup-insert node node y.metric saved.metrics);
                    },
                    g.links,
                  );
                  rest = λ f n.
                      let q = sym (has_face-cons f nb nbs id face) ∙ n in
                      g.rest f (ground arith)
                      ∙ ground (arith, lookup-set_metric id inf_cost f faces, q);
                  stays = λ j n.
                      g.stays j n.1
                      ∙ ground (
                        arith,
                        lookup-insert node j y.metric saved.metrics,
                        other_node node j (λ same. n.0 (e ∙ ap ok same)),
                      );
                  devices =
                      SameDevices-trans faces faces1 r.1 (set_metric-SameDevices id inf_cost faces)
                        g.devices;
                }

  -- Where no two links of a node lead to one node or by one face, all faces have after the
  -- computation of the neighbours' distances the metrics that they had before, if it returns.
  pub neighbor_paths-restores :
      (sp : ShortestPaths) (node_id source : ℕ) (neighbors : List Incidency) (faces : Faces)
      → AreApart neighbors
      → Ends (λ r. SameFaces faces r.1.1) (neighbor_paths sp routers node_id source neighbors faces)
  unfolding neighbor_paths
  neighbor_paths-restores sp node_id source neighbors faces u =
      Ends-bind _ (cut_links-IsCut faces node_id neighbors _ faces u (fresh neighbors)) λ r g.
        Ends-bind (λ _. Unit {0})
          (neighbor_distances-Ends sp routers r.1 node_id source neighbors [])
          λ sp_map _.
            Ends-bind _
              (reset_links-restores faces node_id r.0.metrics neighbors r.1 g.links g.devices)
              λ faces' h. returns (λ f. elim (Bool-cases (has_face f neighbors)) [
                | inl e ↦ h f ∙ rw e refl
                | inr e ↦ h f ∙ rw e (g.rest f e)
              ])
    where
      fresh : (nbs : List Incidency) → AreFresh faces faces nbs
      fresh [] = tt
      fresh (nb ∷ nbs) = ((λ f e. refl), fresh nbs)
