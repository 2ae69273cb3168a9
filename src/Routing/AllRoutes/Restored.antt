-- ===== src/Routing/AllRoutes/Restored.antt =====
-- helper/ndn-global-routing-helper.cpp, CalculateAllPossibleRoutes: the metrics that are
-- remembered, and their recovery.
use ndn_sim.Prelude.{
  ℕ, ◌^◌, ◌%◌, ◌<◌, ◌≡◌, ◌≢◌, refl, sym, subst, ◌∙◌, Bool, true, false, List, [], ◌∷◌, some, arith,
  ◌==◌, if◌then◌else◌, All, ok, Option-cases, Bool-cases, inl, inr,
}
use ndn_sim.Prelude.AssocMap
use ndn_sim.Prelude.AssocMap.{lookup, update, map_option, lookup-update_any}
use ndn_sim.Routing.Network.{Face}
use ndn_sim.Routing.AllRoutes.{disabled_metric, with_metric, set_metric, disable_all, recover}

abbrev pub Faces : Type 0
Faces = List (ℕ × Face)

abbrev pub SameFaces : Faces → Faces → Type 0
SameFaces faces faces' = (f : ℕ) → lookup f faces' ≡ lookup f faces

-- The same faces, up to their metrics.
abbrev pub SameDevices : Faces → Faces → Type 0
SameDevices faces faces' =
    (f : ℕ)
    → map_option (with_metric 0) (lookup f faces') ≡ map_option (with_metric 0) (lookup f faces)

pub lookup-set_metric :
    (id metric f : ℕ) (faces : Faces)
    → lookup f (set_metric id metric faces)
      ≡ (if id == f then map_option (with_metric metric) (lookup f faces) else lookup f faces)
lookup-set_metric id metric f faces = lookup-update_any id f (with_metric metric) faces

pub set_metric-SameDevices :
    (id metric : ℕ) (faces : Faces) → SameDevices faces (set_metric id metric faces)
set_metric-SameDevices id metric faces f =
    ground (arith, lookup-set_metric id metric f faces, Option-cases (lookup f faces))

pub SameDevices-trans : (a b c : Faces) → SameDevices a b → SameDevices b c → SameDevices a c
SameDevices-trans a b c g h f = h f ∙ g f

abbrev pub AreDistinctIds : List ℕ → Type 0
AreDistinctIds [] = Unit
AreDistinctIds (id ∷ ids) = All (λ i. i ≢ id) ids × AreDistinctIds ids

abbrev pub has_key : ℕ → List (ℕ × ℕ) → Bool
has_key k [] = false
has_key k ((i, m) ∷ ms) = if i == k then true else has_key k ms

has_key-insert :
    (k i m : ℕ) (ms : List (ℕ × ℕ))
    → has_key k (AssocMap.insert i m ms) ≡ (if i == k then true else has_key k ms)
has_key-insert k i m [] = refl
has_key-insert k i m ((j, v) ∷ ms) = ground (arith, has_key-insert k i m ms)

All-insert :
    (P : ℕ × ℕ → Type 0) (i m : ℕ) (ms : List (ℕ × ℕ))
    → P (i, m)
    → All P ms
    → All P (AssocMap.insert i m ms)
All-insert P i m [] h a = (h, tt)
All-insert P i m ((j, v) ∷ ms) h a = elim (Bool-cases (j == i)) [
  | inl e ↦ let same : i ≡ j = ground arith in rw e (subst (λ k. P (k, m)) same h, a.1)
  | inr e ↦ rw e (a.0, All-insert P i m ms h a.1)
]

-- A face that is there, with a metric that fits the map of the metrics.
abbrev pub IsBounded : Faces → ℕ → Type 0
IsBounded faces id = (x : Face) × (lookup id faces ≡ some x) × (x.metric < 2 ^ 16)

abbrev pub HasMetric : Faces → ℕ × ℕ → Type 0
HasMetric faces e = (x : Face) × (lookup e.0 faces ≡ some x) × (e.1 ≡ x.metric)

-- What disabling `ids` gives, where the faces were `start` before all.
pub record IsDisabled (start : Faces) (ids : List ℕ) (original : List (ℕ × ℕ)) (faces : Faces)
    (original' : List (ℕ × ℕ)) (faces' : Faces) : Type 0 where
  pub metrics : All (HasMetric start) original'
  pub keys :
      (f : ℕ) → has_key f original' ≡ false → All (λ i. i ≢ f) ids × (has_key f original ≡ false)
  pub rest : (f : ℕ) → All (λ i. i ≢ f) ids → lookup f faces' ≡ lookup f faces
  pub down : All (λ id. HasMetric faces' (id, disabled_metric)) ids
  pub devices : SameDevices faces faces'

untouched :
    (start faces : Faces) (id metric : ℕ) (ids : List ℕ)
    → All (λ i. i ≢ id) ids
    → All (λ i. lookup i faces ≡ lookup i start) ids
    → All (λ i. lookup i (set_metric id metric faces) ≡ lookup i start) ids
untouched start faces id metric [] d k = tt
untouched start faces id metric (i ∷ ids) d k = (
  ground (arith, lookup-set_metric id metric i faces, d.0, k.0),
  untouched start faces id metric ids d.1 k.1,
)

pub disable_all_lem :
    (start : Faces) (ids : List ℕ) (original : List (ℕ × ℕ)) (faces : Faces)
    → AreDistinctIds ids
    → All (IsBounded start) ids
    → All (λ id. lookup id faces ≡ lookup id start) ids
    → All (HasMetric start) original
    → (r : List (ℕ × ℕ) × Faces) × (disable_all ids original faces ≡ ok r)
      × IsDisabled start ids original faces r.0 r.1
unfolding disable_all
disable_all_lem start [] original faces d b k a = (
  (original, faces),
  refl,
  record { metrics = a; keys = λ f h. (tt, h); rest = λ f h. refl; down = tt; devices = λ f. refl },
)
disable_all_lem start (id ∷ ids) original faces d b k a =
    let (x, e, m) = b.0 in
    let faces1 = set_metric id disabled_metric faces in
    let original1 = AssocMap.insert id (x.metric % (2 ^ 16)) original in
    let (r, f, g) =
      disable_all_lem start ids original1 faces1 d.1 b.1
        (untouched start faces id disabled_metric ids d.0 k.1)
        (All-insert _ id _ original (x, e, omega (arith, m)) a) in
    let now : lookup id faces ≡ some x = k.0 ∙ e in
    (
      r,
      rw now f,
      record {
        metrics = g.metrics;
        keys = λ i h.
            let (p, q) = g.keys i h in
            let q' = sym (has_key-insert i id (x.metric % (2 ^ 16)) original) ∙ q in
            ((ground arith, p), ground arith);
        rest =
            λ i h. g.rest i h.1 ∙ ground (arith, lookup-set_metric id disabled_metric i faces, h.0);
        down = (
          (
            with_metric disabled_metric x,
            g.rest id d.0 ∙ ground (arith, lookup-set_metric id disabled_metric id faces, now),
            refl,
          ),
          g.down,
        );
        devices =
            SameDevices-trans faces faces1 r.1 (set_metric-SameDevices id disabled_metric faces)
              g.devices;
      },
    )

-- What recovering leaves: the metric of each face that was remembered.
pub recover_lem :
    (start : Faces) (original : List (ℕ × ℕ)) (faces : Faces)
    → All (HasMetric start) original
    → SameDevices start faces
    → (faces' : Faces) × (recover original faces ≡ ok faces')
      × ((f : ℕ)
          → lookup f faces' ≡ (if has_key f original then lookup f start else lookup f faces))
unfolding recover
recover_lem start [] faces a s = (faces, refl, λ f. refl)
recover_lem start ((id, metric) ∷ original) faces a s =
    let (x, e, m) = a.0 in
    elim (Option-cases (lookup id faces)) [
      | inl n ↦ absurd (ground (arith, s id, n, e))
      | inr (y, k) ↦
          let faces1 = set_metric id metric faces in
          let (r, f, g) =
            recover_lem start original faces1 a.1
              (SameDevices-trans start faces faces1 s (set_metric-SameDevices id metric faces)) in
          (r, rw k f, λ i. ground (arith, g i, lookup-set_metric id metric i faces, s id, k, e, m))
    ]
