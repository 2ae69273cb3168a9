-- ===== src/Routing/AllRoutes/CutOff.antt =====
-- helper/ndn-global-routing-helper.cpp, CalculateAllPossibleRoutes: the faces that are disabled.
use ndn_sim.Prelude.{
  ℕ, ◌≡◌, refl, true, false, List, [], ◌∷◌, some, arith, ◌==◌, All, Bool-cases, inl, inr, assertion,
  Ends, returns, Ends-bind, Ends-bind_eq, Ends-or_fail, Ends-map,
}
use mathlib.Core.List.{Memᴰ}
use ndn_sim.Prelude.AssocMap.{lookup}
use ndn_sim.Routing.Network.{Face}
use ndn_sim.Routing.AllRoutes.{disabled_metric, set_metric, disable_all, recover}
use ndn_sim.Routing.AllRoutes.Restored.{
  Faces, SameDevices, SameDevices-trans, lookup-set_metric, set_metric-SameDevices, HasMetric,
}

abbrev pub IsDown : Faces → ℕ → Type 0
IsDown faces id = HasMetric faces (id, disabled_metric)

-- All faces of a table but one are disabled.
abbrev pub AreDownBut : Faces → ℕ → List ℕ → Type 0
AreDownBut faces id = All (λ g. (g == id) ≡ false → IsDown faces g)

pub AreDownBut-enabled :
    (faces : Faces) (id f : ℕ) (x : Face) (ids : List ℕ)
    → AreDownBut faces id ids
    → lookup f faces ≡ some x
    → (x.metric == disabled_metric) ≡ false
    → Memᴰ f ids
    → (f == id) ≡ true
AreDownBut-enabled faces id f x [] d e n m = elim m [ ]
AreDownBut-enabled faces id f x (g ∷ ids) d e n (Memᴰ.head same) = elim (Bool-cases (f == id)) [
  | inl y ↦ y
  | inr y ↦
      let (z, h, k) = d.0 (ground (arith, same, y)) in absurd (ground (arith, e, n, h, k, same))
]
AreDownBut-enabled faces id f x (g ∷ ids) d e n (Memᴰ.tail m) =
    AreDownBut-enabled faces id f x ids d.1 e n m

set_metric-IsDown :
    (faces : Faces) (id g : ℕ) → IsDown faces g → IsDown (set_metric id disabled_metric faces) g
set_metric-IsDown faces id g (x, e, d) =
    ground (arith, lookup-set_metric id disabled_metric g faces, e, d)

-- What disabling the faces of a table gives.
pub record IsCutOff (ids : List ℕ) (faces faces' : Faces) : Type 0 where
  pub down : All (IsDown faces') ids
  pub keeps : (g : ℕ) → IsDown faces g → IsDown faces' g
  pub devices : SameDevices faces faces'

pub disable_all-IsCutOff :
    (ids : List ℕ) (original : List (ℕ × ℕ)) (faces : Faces)
    → Ends (λ r. IsCutOff ids faces r.1) (disable_all ids original faces)
unfolding disable_all
disable_all-IsCutOff [] original faces =
    returns (record { down = tt; keeps = λ g h. h; devices = λ f. refl })
disable_all-IsCutOff (id ∷ ids) original faces =
    Ends-bind_eq (Ends-or_fail (lookup id faces) assertion tt) λ x e.
      let faces1 = set_metric id disabled_metric faces in
      Ends-map (disable_all-IsCutOff ids _ faces1) λ r g. record {
        down =
            (g.keeps id (ground (arith, lookup-set_metric id disabled_metric id faces, e)), g.down);
        keeps = λ i h. g.keeps i (set_metric-IsDown faces id i h);
        devices =
            SameDevices-trans faces faces1 r.1 (set_metric-SameDevices id disabled_metric faces)
              g.devices;
      }

pub recover-SameDevices :
    (original : List (ℕ × ℕ)) (faces : Faces) → Ends (SameDevices faces) (recover original faces)
unfolding recover
recover-SameDevices [] faces = returns (λ f. refl)
recover-SameDevices ((id, metric) ∷ original) faces =
    Ends-bind (λ _. Unit {0}) (Ends-or_fail (lookup id faces) assertion tt)
      λ x _.
        let faces1 = set_metric id metric faces in
        Ends-map (recover-SameDevices original faces1)
          λ r d. SameDevices-trans faces faces1 r (set_metric-SameDevices id metric faces) d
