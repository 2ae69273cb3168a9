-- ===== src/Topology/Classes/Clients.antt =====
-- utils/topology/rocketfuel-map-reader.cpp, AssignClients and Read: the types that all vertices get.
use ndn_sim.Prelude.{
  ℕ, zero, suc, ◌+◌, ◌≤◌, ◌<◌, ◌≡◌, refl, ◌∙◌, sym, min, List, [], ◌∷◌, arith, ◌==◌, ok, Bool-cases,
  inl, inr,
}
use mathlib.Core.List.{Memᴰ}
use mathlib.Core.List.Memᴰ
use ndn_sim.Topology.Graph.{Graph, UndirectedGraphs, IsClosed}
use ndn_sim.Topology.Classes.{
  client, gateway, is_unknown, red, Properties, put_type, out_degree, gw_fuel, assign_clients_of,
  assign_clients, assign_degrees,
}
use ndn_sim.Topology.Classes.Gateways.{unknowns-le-length, Visited, assign_gw-ok}

module _ (lib : UndirectedGraphs) (g : Graph) (bound : ℕ) where
  abbrev pub IsLow : ℕ → Type 0
  IsLow degree = (1 ≤ degree) × (degree ≤ bound)

  abbrev pub HasClient : Properties → ℕ → Type 0
  HasClient s x = (c : ℕ) × ((s c).rank ≡ client) × Memᴰ x (lib.adjacent_vertices g c)

  -- The types so far: no vertex above the bound is a client, and a gateway has a client.
  pub record IsSound (s : Properties) : Type 0 where
    pub clients : (x : ℕ) → (s x).rank ≡ client → IsLow (out_degree lib g x)
    pub gateways : (x : ℕ) → (s x).rank ≡ gateway → HasClient s x

  abbrev pub Kept : Properties → Properties → Type 0
  Kept s s' = (x : ℕ) → (s x).rank ≡ client → (s' x).rank ≡ client

  -- What the call for one client gives.
  Visited-IsSound :
      (v : ℕ) (s s' : Properties)
      → IsLow (out_degree lib g v)
      → IsSound s
      → Visited lib g (lib.adjacent_vertices g v) gateway (put_type v client red s) s'
      → IsSound s' × Kept s s' × ((s' v).rank ≡ client)
  Visited-IsSound v s s' low h w =
      let at_v : ((put_type v client red s) v).rank ≡ client = ground arith in
      let v_client = w.keeps v (ground (arith, at_v)) ∙ at_v in
      let kept = λ (x : ℕ) (e : (s x).rank ≡ client).
        let first : ((put_type v client red s) x).rank ≡ client = ground (arith, e) in
        w.keeps x (ground (arith, first)) ∙ first in
      (
        record {
          clients = λ x e. elim (Bool-cases (x == v)) [
            | inl y ↦ let same : v ≡ x = ground arith in rw (← same) low
            | inr n ↦
                let first : ((put_type v client red s) x).rank ≡ (s x).rank = rw n refl in
                elim (Bool-cases (is_unknown (s x).rank)) [
                  | inl u ↦ absurd (ground (arith, w.new x (ground (arith, first, u)), e))
                  | inr k ↦ h.clients x (sym (w.keeps x (ground (arith, first, k)) ∙ first) ∙ e)
                ]
          ];
          gateways = λ x e. elim (Bool-cases (x == v)) [
            | inl y ↦ let same : v ≡ x = ground arith in absurd (ground (arith, v_client, same, e))
            | inr n ↦
                let first : ((put_type v client red s) x).rank ≡ (s x).rank = rw n refl in
                elim (Bool-cases (is_unknown (s x).rank)) [
                  | inl u ↦ elim (w.new x (ground (arith, first, u))) [
                    | inl q ↦ absurd (ground (arith, q, e))
                    | inr (inl q) ↦ absurd (ground (arith, q, e))
                    | inr (inr (q, m)) ↦ (v, v_client, m)
                  ]
                  | inr k ↦
                      let (c, r, m) =
                        h.gateways x (sym (w.keeps x (ground (arith, first, k)) ∙ first) ∙ e) in
                      (c, kept c r, m)
                ]
          ];
        },
        kept,
        v_client,
      )

  module _ (closed : IsClosed g) where
    -- A loop over vertices keeps the clients and makes one of every vertex of its degree.
    assign_clients_of-ok :
        (d gw_degree : ℕ) (vs : List ℕ) (s : Properties)
        → IsLow d
        → IsSound s
        → (s' : Properties) × (assign_clients_of lib g d gw_degree vs s ≡ ok s')
          × IsSound s'
          × Kept s s'
          × ((v : ℕ) → Memᴰ v vs → out_degree lib g v ≡ d → (s' v).rank ≡ client)
    unfolding assign_clients_of
    assign_clients_of-ok d gw_degree [] s l h = (s, refl, h, λ x e. e, λ v m e. elim m [ ])
    assign_clients_of-ok d gw_degree (v ∷ vs) s l h = elim (Bool-cases (out_degree lib g v == d)) [
      | inr n ↦
          let (s', e, k, kept, all) = assign_clients_of-ok d gw_degree vs s l h in
          (
            s',
            rw n e,
            k,
            kept,
            λ x m low. elim (Memᴰ.cases_cons m) [
              | inl same ↦ absurd (ground (arith, n, low, same))
              | inr later ↦ all x later low
            ],
          )
      | inl y ↦
          let s1 = put_type v client red s in
          let enough = unknowns-le-length g.vertices s1 in
          let (s2, a, w) =
            assign_gw-ok lib g closed (gw_fuel lib g) (gw_degree + 1) gateway v s1 refl
              (omega (arith, enough)) in
          let degree : out_degree lib g v ≡ d = ground arith in
          let (h2, kept2, now) = Visited-IsSound v s s2 (rw degree l) h w in
          let (s', e, k, kept, all) = assign_clients_of-ok d gw_degree vs s2 l h2 in
          (
            s',
            rw (y, a) e,
            k,
            λ x c. kept x (kept2 x c),
            λ x m low. elim (Memᴰ.cases_cons m) [
              | inl same ↦ kept x (rw same now)
              | inr later ↦ all x later low
            ],
          )
    ]

    pub assign_degrees-ok :
        (rounds d : ℕ) (s : Properties)
        → 1 ≤ d
        → rounds + d ≤ bound + 1
        → IsSound s
        → (s' : Properties) × (assign_degrees lib g rounds d s ≡ ok s')
          × IsSound s'
          × Kept s s'
          × ((v : ℕ)
              → Memᴰ v g.vertices
              → (d ≤ out_degree lib g v) × (out_degree lib g v < rounds + d)
              → (s' v).rank ≡ client)
    unfolding assign_degrees assign_clients
    assign_degrees-ok zero d s o b h = (s, refl, h, λ x e. e, λ v m l. absurd (omega arith))
    assign_degrees-ok (suc rounds) d s o b h =
        let (s1, a, h1, kept1, all1) =
          assign_clients_of-ok d (min d 3) g.vertices s (o, omega arith) h in
        let (s', e, k, kept, all) =
          assign_degrees-ok rounds (d + 1) s1 (omega arith) (omega arith) h1 in
        (
          s',
          rw a e,
          k,
          λ x c. kept x (kept1 x c),
          λ v m l. elim (Bool-cases (out_degree lib g v == d)) [
            | inl y ↦ kept v (all1 v m (ground arith))
            | inr n ↦ all v m (ground arith, omega arith)
          ],
        )
