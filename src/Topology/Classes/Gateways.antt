-- ===== src/Topology/Classes/Gateways.antt =====
-- utils/topology/rocketfuel-map-reader.cpp, assignGw: it ends, and what it changes.
use ndn_sim.Prelude.{
  ℕ, zero, suc, ◌≤◌, ◌<◌, ◌≡◌, ◌⊎◌, refl, ◌∙◌, true, false, List, [], ◌∷◌, length, arith, ltb, ◌==◌,
  if◌then◌else◌, ok, Bool-cases, inl, inr,
}
use mathlib.Core.List.{Memᴰ}
use ndn_sim.Topology.Graph.{Graph, UndirectedGraphs, IsClosed}
use ndn_sim.Topology.Classes.{
  NodeType, backbone, is_unknown, green, Color, Properties, put_type, out_degree, visit, assign_gw,
}

-- The entries without a type.
abbrev pub unknowns : List ℕ → Properties → ℕ
unknowns [] s = 0
unknowns (v ∷ vs) s = if is_unknown (s v).rank then suc (unknowns vs s) else unknowns vs s

pub unknowns-le-length : (vs : List ℕ) (s : Properties) → unknowns vs s ≤ length vs
unknowns-le-length [] s = omega arith
unknowns-le-length (v ∷ vs) s = ground (arith, unknowns-le-length vs s)

pub unknowns-put_type-le :
    (vs : List ℕ) (u : ℕ) (t : NodeType) (c : Color) (s : Properties)
    → is_unknown t ≡ false
    → unknowns vs (put_type u t c s) ≤ unknowns vs s
unknowns-put_type-le [] u t c s k = omega arith
unknowns-put_type-le (v ∷ vs) u t c s k = ground (arith, unknowns-put_type-le vs u t c s)

unknowns-put_type-lt :
    (vs : List ℕ) (u : ℕ) (t : NodeType) (c : Color) (s : Properties)
    → is_unknown t ≡ false
    → is_unknown (s u).rank ≡ true
    → Memᴰ u vs
    → unknowns vs (put_type u t c s) < unknowns vs s
unknowns-put_type-lt [] u t c s k h m = elim m [ ]
unknowns-put_type-lt (v ∷ vs) u t c s k h (Memᴰ.head e) =
    ground (arith, unknowns-put_type-le vs u t c s, e)
unknowns-put_type-lt (v ∷ vs) u t c s k h (Memᴰ.tail m) =
    ground (arith, unknowns-put_type-lt vs u t c s k h m)

-- What a vertex without a type can have afterwards.
abbrev pub IsNew : List ℕ → NodeType → ℕ → NodeType → Type 0
IsNew us t x type = (is_unknown type ≡ true) ⊎ (type ≡ backbone) ⊎ ((type ≡ t) × Memᴰ x us)

IsNew-tail :
    (u : ℕ) (us : List ℕ) (t : NodeType) (x : ℕ) (type : NodeType)
    → IsNew us t x type
    → IsNew (u ∷ us) t x type
IsNew-tail u us t x type (inl k) = inl k
IsNew-tail u us t x type (inr (inl b)) = inr (inl b)
IsNew-tail u us t x type (inr (inr (r, m))) = inr (inr (r, Memᴰ.tail m))

module _ (lib : UndirectedGraphs) (g : Graph) where
  -- From `s` to `s'` only vertices without a type got one: `t`, those of `us`, or backbone.
  pub record Visited (us : List ℕ) (t : NodeType) (s s' : Properties) : Type 0 where
    pub keeps : (x : ℕ) → is_unknown (s x).rank ≡ false → (s' x).rank ≡ (s x).rank
    pub new : (x : ℕ) → is_unknown (s x).rank ≡ true → IsNew us t x (s' x).rank
    pub fewer : unknowns g.vertices s' ≤ unknowns g.vertices s

  Visited-nil : (t : NodeType) (s : Properties) → Visited [] t s s
  Visited-nil t s = record { keeps = λ x k. refl; new = λ x h. inl h; fewer = omega arith }

  Visited-skip :
      (u : ℕ) (us : List ℕ) (t : NodeType) (s s' : Properties)
      → Visited us t s s'
      → Visited (u ∷ us) t s s'
  Visited-skip u us t s s' v = record {
    keeps = v.keeps;
    new = λ x h. IsNew-tail u us t x (s' x).rank (v.new x h);
    fewer = v.fewer;
  }

  -- The vertex `u` gets the type `t`, then what its own visit gives to others, then the rest.
  Visited-cons :
      (u : ℕ) (us us' : List ℕ) (t : NodeType) (s s' s'' : Properties)
      → is_unknown t ≡ false
      → is_unknown (s u).rank ≡ true
      → Visited us' backbone (put_type u t green s) s'
      → Visited us t s' s''
      → Visited (u ∷ us) t s s''
  Visited-cons u us us' t s s' s'' k h v w = record {
    keeps = λ x e. elim (Bool-cases (x == u)) [
      | inl y ↦ let same : x ≡ u = ground arith in absurd (ground (arith, h, e, same))
      | inr n ↦
          let first : ((put_type u t green s) x).rank ≡ (s x).rank = rw n refl in
          let second = v.keeps x (ground (arith, first, e)) ∙ first in
          w.keeps x (ground (arith, second, e)) ∙ second
    ];
    new = λ x e. elim (Bool-cases (x == u)) [
      | inl y ↦
          let first : ((put_type u t green s) x).rank ≡ t = rw y refl in
          let second = v.keeps x (ground (arith, first, k)) ∙ first in
          let third = w.keeps x (ground (arith, second, k)) ∙ second in
          inr (inr (third, Memᴰ.head (ground arith)))
      | inr n ↦
          let first : ((put_type u t green s) x).rank ≡ (s x).rank = rw n refl in
          let settled = λ (q : (s' x).rank ≡ backbone). w.keeps x (ground (arith, q)) ∙ q in
          elim (v.new x (ground (arith, first, e))) [
            | inl o ↦ IsNew-tail u us t x (s'' x).rank (w.new x o)
            | inr (inl q) ↦ inr (inl (settled q))
            | inr (inr (q, m)) ↦ inr (inl (settled q))
          ]
    ];
    fewer = omega (arith, v.fewer, w.fewer, unknowns-put_type-le g.vertices u t green s k);
  }

  module _ (closed : IsClosed g) where
    visit-ok :
        (fuel degree : ℕ) (t : NodeType) (us : List ℕ) (s : Properties)
        → is_unknown t ≡ false
        → ((u : ℕ) (r : Properties)
            → unknowns g.vertices r < fuel
            → (r' : Properties) × (assign_gw lib g fuel degree backbone u r ≡ ok r')
              × Visited (lib.adjacent_vertices g u) backbone r r')
        → ((u : ℕ) → Memᴰ u us → Memᴰ u g.vertices)
        → unknowns g.vertices s < suc fuel
        → (s' : Properties) × (visit lib g (assign_gw lib g fuel degree backbone) degree t us s
            ≡ ok s')
          × Visited us t s s'
    unfolding visit
    visit-ok fuel degree t [] s k rec inside f = (s, refl, Visited-nil t s)
    visit-ok fuel degree t (u ∷ us) s k rec inside f =
        let rest = λ (r : Properties) (b : unknowns g.vertices r < suc fuel).
          visit-ok fuel degree t us r k rec (λ x m. inside x (Memᴰ.tail m)) b in
        elim (Bool-cases (is_unknown (s u).rank)) [
          | inr n ↦ let (s', e, v) = rest s f in (s', rw n e, Visited-skip u us t s s' v)
          | inl y ↦
              let s1 = put_type u t green s in
              let less =
                unknowns-put_type-lt g.vertices u t green s k y (inside u (Memᴰ.head refl)) in
              elim (Bool-cases (ltb (out_degree lib g u) degree)) [
                | inr n ↦
                    let (s', e, v) = rest s1 (omega (arith, less)) in
                    (
                      s',
                      rw (y, n) e,
                      Visited-cons u us [] t s s1 s' k y (Visited-nil backbone s1) v,
                    )
                | inl d ↦
                    let (s2, a, w) = rec u s1 (omega (arith, less)) in
                    let (s', e, v) = rest s2 (omega (arith, less, w.fewer)) in
                    (s', rw (y, d, a) e, Visited-cons u us _ t s s2 s' k y w v)
              ]
        ]

    -- With fuel for each vertex without a type, assignGw returns.
    pub assign_gw-ok :
        (fuel degree : ℕ) (t : NodeType) (v : ℕ) (s : Properties)
        → is_unknown t ≡ false
        → unknowns g.vertices s < fuel
        → (s' : Properties) × (assign_gw lib g fuel degree t v s ≡ ok s')
          × Visited (lib.adjacent_vertices g v) t s s'
    unfolding assign_gw
    assign_gw-ok zero degree t v s k f = absurd (omega arith)
    assign_gw-ok (suc fuel) degree t v s k f =
        visit-ok fuel degree t (lib.adjacent_vertices g v) s k
          (λ u r b. assign_gw-ok fuel degree backbone u r refl b)
          (λ u m. (closed v u ((lib.adjacent g v u).0 m)).1) f
