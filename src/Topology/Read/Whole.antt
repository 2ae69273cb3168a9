-- ===== src/Topology/Read/Whole.antt =====
-- utils/topology/rocketfuel-map-reader.cpp, Read: whole runs.
use ndn_sim.Prelude.{
  ℕ, ◌+◌, ◌≤◌, ◌≡◌, refl, ◌∙◌, sym, ap, mem-filter, subst, ◌==◌, Bool, true, false, List, [], ◌∷◌,
  ok, arith, if◌then◌else◌, inl, inr, Ends-eq-ok,
}
use mathlib.Core.List.{Memᴰ}
use ndn_sim.Topology.Graph.{UndirectedGraphs, IsEdge, IsClosed, IsComponents}
use ndn_sim.Topology.Classes.{unknown, client, gateway, backbone, is_unknown, Properties}
use ndn_sim.Topology.Classes.Types.{IsClassified, assign_types-ok}
use ndn_sim.Topology.Components.{
  Topology, is_backbone, node_map_of, renumber, backbone_graph, keep_component,
  keep_only_biggest_connected_component,
}
use ndn_sim.Topology.Components.Biggest.{keep_component-mem, keep_component-edges}
use ndn_sim.Topology.Components.Backbone.{connect_backbone_routers-ok}
use ndn_sim.Topology.Lines.{MapsLine, Reader, read_lines}
use ndn_sim.Topology.Lines.Valid.{IsReader, read_lines-Ends}
use ndn_sim.Topology.Read.{
  Link, Routers, remove_wrong_links, keep_if, classify, connect_if, build, empty_reader, read,
}
use ndn_sim.Topology.Read.Cleaning.{
  IsRight, is_right_link_comm, of_type, of_type_ranks, IsPrefixed, remove_wrong_links-vertices,
  remove_wrong_links-edges, AreLinks, create_nodes-ok, create_links-ok,
}

renumber-rank :
    (i : ℕ) (vs : List ℕ) (s : Properties) (x : ℕ) → (renumber i vs s x).rank ≡ (s x).rank
unfolding renumber
renumber-rank i [] s x = refl
renumber-rank i (v ∷ vs) s x =
    let s1 = λ (y : ℕ). if y == v then record (s y) { index = i } else s y in
    let first : (s1 x).rank ≡ (s x).rank = ground arith in renumber-rank (i + 1) vs s1 x ∙ first

-- What choosing a component leaves of a valid graph, whatever the components are.
pub record IsKept (t t' : Topology) : Type 0 where
  pub closed : IsClosed t'.graph
  pub part : (v : ℕ) → Memᴰ v t'.graph.vertices → Memᴰ v t.graph.vertices
  pub edges : (u v : ℕ) → IsEdge t'.graph u v → IsEdge t.graph u v
  pub ranks : (v : ℕ) → (t'.properties v).rank ≡ (t.properties v).rank

IsRight-comm : (s : Properties) (u v : ℕ) → IsRight s u v → IsRight s v u
IsRight-comm s u v h = is_right_link_comm (s u).rank (s v).rank h

-- Each container has the vertices of its type, in their order, and nothing else; each vertex has a
-- type, and a name with its prefix, and each edge became a link.
pub record IsBuilt (out : Topology × Routers × List Link) : Type 0 where
  pub known : (v : ℕ) → Memᴰ v out.0.graph.vertices → is_unknown (out.0.properties v).rank ≡ false
  pub backbones : out.1.backbones ≡ of_type backbone out.0.properties out.0.graph.vertices
  pub customers : out.1.customers ≡ of_type client out.0.properties out.0.graph.vertices
  pub gateways : out.1.gateways ≡ of_type gateway out.0.properties out.0.graph.vertices
  pub named : (v : ℕ) → Memᴰ v out.0.graph.vertices → IsPrefixed out.0.properties v
  pub linked : AreLinks out.0.properties out.0.graph.edges out.2

module _ (lib : UndirectedGraphs) where
  keep_if-IsKept : (keep : Bool) (t : Topology) → IsClosed t.graph → IsKept t (keep_if lib keep t)
  unfolding keep_if keep_only_biggest_connected_component
  keep_if-IsKept false t c = record {
    closed = c;
    part = λ v m. m;
    edges = λ u v e. e;
    ranks = λ v. refl;
  }
  keep_if-IsKept true t c = record {
    closed = λ u v e.
        let (f, a, b) = (keep_component-edges lib t.graph c u v).0 e in
        (
          (keep_component-mem lib t.graph c u).1 ((c u v f).0, a),
          (keep_component-mem lib t.graph c v).1 ((c u v f).1, b),
        );
    part = λ v m. ((keep_component-mem lib t.graph c v).0 m).0;
    edges = λ u v e. ((keep_component-edges lib t.graph c u v).0 e).0;
    ranks = λ v. renumber-rank 0 (keep_component lib t.graph).vertices t.properties v;
  }

  clean-IsKept :
      (t : Topology)
      → IsClosed t.graph
      → let g = remove_wrong_links lib t.properties t.graph.edges t.graph in
        IsKept t (record t { graph = g }) × ((u v : ℕ) → IsEdge g u v → IsRight t.properties u v)
  clean-IsKept t c =
      let same = remove_wrong_links-vertices lib t.properties t.graph.edges t.graph in
      let law = remove_wrong_links-edges lib t.properties t.graph.edges t.graph in
      let old : (u v : ℕ)
          → IsEdge (remove_wrong_links lib t.properties t.graph.edges t.graph) u v
          → IsEdge t.graph u v =
        λ u v e. elim e [ inl m ↦ inl ((law u v).0 m).0 | inr m ↦ inr ((law v u).0 m).0 ] in
      (
        record {
          closed = λ u v e. subst (λ vs. Memᴰ u vs × Memᴰ v vs) (sym same) (c u v (old u v e));
          part = λ v m. subst (Memᴰ v) same m;
          edges = old;
          ranks = λ v. refl;
        },
        λ u v e. elim e [
          | inl m ↦ let (n, f) = (law u v).0 m in f n
          | inr m ↦ let (n, f) = (law v u).0 m in IsRight-comm t.properties v u (f n)
        ],
      )

  build-ok :
      (keep : Bool) (t : Topology)
      → IsClosed t.graph
      → ((v : ℕ) → Memᴰ v t.graph.vertices → is_unknown (t.properties v).rank ≡ false)
      → (out : Topology × Routers × List Link) × (build lib keep t ≡ ok out) × IsBuilt out
  unfolding build
  build-ok keep t c k =
      let (clean, right) = clean-IsKept t c in
      let cleaned = record t {
        graph = remove_wrong_links lib t.properties t.graph.edges t.graph;
      } in
      let kept = keep_if lib keep cleaned in
      let h = keep_if-IsKept keep cleaned clean.closed in
      let known : (v : ℕ)
          → Memᴰ v kept.graph.vertices
          → is_unknown (kept.properties v).rank ≡ false =
        λ v m. ap is_unknown (h.ranks v) ∙ k v (clean.part v (h.part v m)) in
      let (s, routers, e, same, places, named) =
        create_nodes-ok kept.graph.vertices kept.properties
          (record { backbones = []; customers = []; gateways = [] }) known in
      let rank : (v : ℕ) → (s v).rank ≡ (t.properties v).rank = λ v. same v ∙ h.ranks v in
      let (links, f, linked) =
        create_links-ok s kept.graph.edges
          (λ u v m. rw (rank u, rank v) (right u v (h.edges u v (inl m)))) in
      (
        (record kept { properties = s }, routers, links),
        rw (e, f) refl,
        record {
          known = λ v m. ap is_unknown (same v) ∙ known v m;
          backbones =
              places.backbones
              ∙ sym (of_type_ranks kept.properties s backbone kept.graph.vertices same);
          customers =
              places.customers
              ∙ sym (of_type_ranks kept.properties s client kept.graph.vertices same);
          gateways =
              places.gateways
              ∙ sym (of_type_ranks kept.properties s gateway kept.graph.vertices same);
          named = λ v m. named v (inl m);
          linked = linked;
        },
      )

  module _ (get_integer : ℕ → ℕ → ℕ) (within : (draw n : ℕ) → get_integer draw n ≤ n) where
    connect_if-ok :
        (connect : Bool) (t : Topology)
        → IsClosed t.graph
        → ((v : ℕ) → Memᴰ v t.graph.vertices → is_unknown (t.properties v).rank ≡ false)
        → IsComponents
            (backbone_graph lib t)
            (lib.connected_components (backbone_graph lib t)).0
            (lib.connected_components (backbone_graph lib t)).1
        → (t' : Topology) × (connect_if lib get_integer connect t ≡ ok t')
          × IsClosed t'.graph
          × ((v : ℕ) → Memᴰ v t'.graph.vertices → is_unknown (t'.properties v).rank ≡ false)
    unfolding connect_if
    connect_if-ok false t c k right = (t, refl, c, k)
    connect_if-ok true t c k right =
        let (t', e, h) = connect_backbone_routers-ok lib get_integer t within right in
        let inside = λ (v : ℕ) (m : Memᴰ v (node_map_of t)).
          ((mem-filter (λ x. is_backbone (t.properties x).rank) t.graph.vertices v).0 m).0 in
        (
          t',
          e,
          λ u v i.
              subst (λ vs. Memᴰ u vs × Memᴰ v vs) (sym h.vertices)
                (elim (h.new u v i) [
                  | inl old ↦ c u v old
                  | inr (m, n) ↦ (inside u m, inside v n)
                ]),
          λ v m. ap (λ s. is_unknown (s v).rank) h.properties ∙ k v (subst (Memᴰ v) h.vertices m),
        )

    classify-ok :
        (degrees : ℕ) (keep : Bool) (t : Topology)
        → IsClosed t.graph
        → ((v : ℕ) → (t.properties v).rank ≡ unknown)
        → (t' : Topology) × (classify lib degrees keep t ≡ ok t')
          × IsClosed t'.graph
          × IsClassified lib t'.graph degrees t'.properties
    unfolding classify
    classify-ok degrees keep t c fresh =
        let h = keep_if-IsKept keep t c in
        let kept = keep_if lib keep t in
        let (s, e, k) =
          assign_types-ok lib kept.graph degrees h.closed kept.properties
            (λ v. h.ranks v ∙ fresh v) in
        (record { graph = kept.graph; properties = s }, rw e refl, h.closed, k)

empty-IsReader : IsReader empty_reader
empty-IsReader = record {
  closed = λ u v e. elim e [ inl m ↦ elim m [ ] | inr m ↦ elim m [ ] ];
  fresh = λ v. refl;
  named = tt;
}

-- Where the lines can be split, the random numbers are in their range, and the components of the
-- backbone graph are right, Read returns, whatever is kept and connected: no vertex is without a
-- type and no link has wrong ends when nodes and links are created. Each of the three containers
-- gets the vertices of its type and no other, in their order; each vertex ends with a name that has
-- the prefix of its type; and every edge, in order, becomes a link between the names of its ends with
-- the parameters for their types.
pub read-ok :
    (lib : UndirectedGraphs) (get_integer : ℕ → ℕ → ℕ) (degrees : ℕ) (keep connect : Bool)
    (lines : List MapsLine) (r : Reader)
    → ((draw n : ℕ) → get_integer draw n ≤ n)
    → read_lines lib lines empty_reader ≡ ok r
    → ((t : Topology)
        → classify lib degrees keep r.topology ≡ ok t
        → IsComponents
            (backbone_graph lib t)
            (lib.connected_components (backbone_graph lib t)).0
            (lib.connected_components (backbone_graph lib t)).1)
    → (out : Topology × Routers × List Link) × (read lib get_integer degrees keep connect lines
        ≡ ok out)
      × IsBuilt out
unfolding read
read-ok lib get_integer degrees keep connect lines r within e right =
    let valid = Ends-eq-ok (read_lines-Ends lib lines empty_reader empty-IsReader) e in
    let (t, f, c, k) =
      classify-ok lib get_integer within degrees keep r.topology valid.closed valid.fresh in
    let (t', g, c', known) = connect_if-ok lib get_integer within connect t c k.known (right t f) in
    let (out, h, built) = build-ok lib keep t' c' known in (out, rw (e, f, g) h, built)
