-- ===== src/Topology/Classes/Types.antt =====
-- utils/topology/rocketfuel-map-reader.cpp, Read: all vertices have a type when the links are read.
use ndn_sim.Prelude.{
  ℕ, ◌≡◌, ◌↔◌, refl, ◌∙◌, sym, true, false, List, [], ◌∷◌, arith, ◌==◌, if◌then◌else◌, ok,
  Bool-cases, inl, inr,
}
use mathlib.Core.List.{Memᴰ}
use mathlib.Core.List.Memᴰ
use ndn_sim.Topology.Graph.{Graph, UndirectedGraphs, IsClosed}
use ndn_sim.Topology.Classes.{
  unknown, client, gateway, backbone, is_unknown, blue, Properties, put_type, out_degree,
  assign_backbone, assign_types,
}
use ndn_sim.Topology.Classes.Clients.{IsLow, HasClient, IsSound, assign_degrees-ok}

assign_backbone-known :
    (vs : List ℕ) (s : Properties) (x : ℕ)
    → is_unknown (s x).rank ≡ false
    → (assign_backbone vs s x).rank ≡ (s x).rank
unfolding assign_backbone
assign_backbone-known [] s x k = refl
assign_backbone-known (v ∷ vs) s x k =
    let s1 = if is_unknown (s v).rank then put_type v backbone blue s else s in
    let first : (s1 x).rank ≡ (s x).rank = ground arith in
    assign_backbone-known vs s1 x (ground (arith, first, k)) ∙ first

assign_backbone-mem :
    (vs : List ℕ) (s : Properties) (x : ℕ)
    → Memᴰ x vs
    → is_unknown (s x).rank ≡ true
    → (assign_backbone vs s x).rank ≡ backbone
unfolding assign_backbone
assign_backbone-mem [] s x m u = elim m [ ]
assign_backbone-mem (v ∷ vs) s x m u =
    let s1 = if is_unknown (s v).rank then put_type v backbone blue s else s in
    elim (Bool-cases (x == v)) [
      | inl same ↦
          let e : x ≡ v = ground arith in
          let first : (s1 x).rank ≡ backbone = ground (arith, e, u) in
          assign_backbone-known vs s1 x (ground (arith, first)) ∙ first
      | inr other ↦
          let first : (s1 x).rank ≡ (s x).rank = ground arith in
          elim (Memᴰ.cases_cons m) [
            | inl e ↦ absurd (ground (arith, e, other))
            | inr later ↦ assign_backbone-mem vs s1 x later (ground (arith, first, u))
          ]
    ]

module _ (lib : UndirectedGraphs) (g : Graph) (bound : ℕ) where
  -- Each vertex has a type: the clients are the vertices with at least one link and at most `bound`
  -- links, and a gateway has a client among its neighbours.
  pub record IsClassified (s : Properties) : Type 0 where
    pub known : (v : ℕ) → Memᴰ v g.vertices → is_unknown (s v).rank ≡ false
    pub clients :
        (v : ℕ) → Memᴰ v g.vertices → ((s v).rank ≡ client) ↔ IsLow lib g bound (out_degree lib g v)
    pub gateways : (v : ℕ) → Memᴰ v g.vertices → (s v).rank ≡ gateway → HasClient lib g bound s v

  backbone-IsClassified :
      (s : Properties)
      → IsSound lib g bound s
      → ((v : ℕ) → Memᴰ v g.vertices → IsLow lib g bound (out_degree lib g v) → (s v).rank ≡ client)
      → IsClassified (assign_backbone g.vertices s)
  backbone-IsClassified s h all =
      let same =
        λ (v : ℕ) (k : is_unknown (s v).rank ≡ false). assign_backbone-known g.vertices s v k in
      let new = λ (v : ℕ) (m : Memᴰ v g.vertices) (u : is_unknown (s v).rank ≡ true).
        assign_backbone-mem g.vertices s v m u in
      record {
        known = λ v m. elim (Bool-cases (is_unknown (s v).rank)) [
          | inl u ↦ ground (arith, new v m u)
          | inr k ↦ ground (arith, same v k, k)
        ];
        clients = λ v m. (
          λ e. elim (Bool-cases (is_unknown (s v).rank)) [
            | inl u ↦ absurd (ground (arith, new v m u, e))
            | inr k ↦ h.clients v (sym (same v k) ∙ e)
          ],
          λ l. let c = all v m l in same v (ground (arith, c)) ∙ c,
        );
        gateways = λ v m e. elim (Bool-cases (is_unknown (s v).rank)) [
          | inl u ↦ absurd (ground (arith, new v m u, e))
          | inr k ↦
              let (c, r, n) = h.gateways v (sym (same v k) ∙ e) in
              (c, same c (ground (arith, r)) ∙ r, n)
        ];
      }

  -- Where the ends of edges are vertices and no vertex has a type, the types are assigned without
  -- running for ever. Then no vertex is without a type, the clients are the vertices whose degree is
  -- from 1 to the given one, and each gateway is a neighbour of a client.
  pub assign_types-ok :
      IsClosed g
      → (s : Properties) → ((v : ℕ) → (s v).rank ≡ unknown)
      → (s' : Properties) × (assign_types lib g bound s ≡ ok s') × IsClassified s'
  unfolding assign_types
  assign_types-ok closed s fresh =
      let (s1, e, h, kept, all) =
        assign_degrees-ok lib g bound closed bound 1 s (omega arith) (omega arith) (record {
          clients = λ x c. absurd (ground (arith, fresh x, c));
          gateways = λ x c. absurd (ground (arith, fresh x, c));
        }) in
      (
        assign_backbone g.vertices s1,
        rw e refl,
        backbone-IsClassified s1 h (λ v m l. all v m (omega (arith, l))),
      )
