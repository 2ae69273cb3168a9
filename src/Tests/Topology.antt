-- ===== src/Tests/Topology.antt =====
-- The topology reader on small graphs and files.
use ndn_sim.Prelude.{
  ℕ, zero, suc, ◌*◌, ◌/◌, ◌≤◌, ◌<◌, ◌≡◌, refl, ◌∙◌, sym, ap, subst, true, List, [], ◌∷◌, map,
  length, some, ok, err, Result, arith, All, inl, inr,
}
use mathlib.Core.List.{Memᴰ}
use ndn_sim.Topology.Graph.{
  UndirectedGraphs, Graph, IsClosed, Connects, here, step, Connects-trans, Connects-sym,
  IsComponents,
}
use ndn_sim.Topology.Classes.{unknown, backbone, no_color, Properties, assign_types}
use ndn_sim.Topology.Classes.Types.{IsClassified, assign_types-ok}
use ndn_sim.Topology.Components.{
  Topology, keep_only_biggest_connected_component, largest_component, backbone_graph,
  connect_backbone_routers,
}
use ndn_sim.Topology.Components.Sizes.{members}
use ndn_sim.Topology.Components.Biggest.{IsBiggest, keep_only_biggest_connected_component_lem}
use ndn_sim.Topology.Components.Backbone.{IsConnected, connect_backbone_routers-ok}
use ndn_sim.Topology.Lines.{MapsLine, Reader, read_lines}
use ndn_sim.Topology.Read.{LinkKind, b2b, b2g, g2c, Link, Routers, empty_reader, classify, read}
use ndn_sim.Topology.Read.Whole.{IsBuilt, read-ok}
use ndn_sim.Tests.Undirected.{lists}

-- A predicate on an element of a list on which all elements have it.
all_mem {ℓ} : {A : Type ℓ} (P : A → Type 0) (xs : List A) (x : A) → All P xs → Memᴰ x xs → P x
all_mem P [] x a m = elim m [ ]
all_mem P (y ∷ xs) x a (Memᴰ.head e) = subst P (sym e) a.0
all_mem P (y ∷ xs) x a (Memᴰ.tail m) = all_mem P xs x a.1 m

edges-IsClosed :
    (g : Graph) → All (λ e. Memᴰ e.0 g.vertices × Memᴰ e.1 g.vertices) g.edges → IsClosed g
edges-IsClosed g a u v (inl m) =
    all_mem (λ e. Memᴰ e.0 g.vertices × Memᴰ e.1 g.vertices) g.edges (u, v) a m
edges-IsClosed g a u v (inr m) =
    let (p, q) = all_mem (λ e. Memᴰ e.0 g.vertices × Memᴰ e.1 g.vertices) g.edges (v, u) a m in
    (q, p)

-- Labels that are equal along edges, where each vertex is connected with the root of its label.
module _ (g : Graph) (label root : ℕ → ℕ) (number : ℕ)
    (along : All (λ e. label e.0 ≡ label e.1) g.edges)
    (rooted : All (λ v. Connects g v (root (label v)) × (label v < number)) g.vertices)
    (used : (i : ℕ) → i < number → (v : ℕ) × Memᴰ v g.vertices × (label v ≡ i)) where
  same_label : (u v : ℕ) → Connects g u v → label u ≡ label v
  same_label u v here = refl
  same_label u w (step {v = v} p (inl m)) =
      same_label u v p ∙ all_mem (λ e. label e.0 ≡ label e.1) g.edges (v, w) along m
  same_label u w (step {v = v} p (inr m)) =
      same_label u v p ∙ sym (all_mem (λ e. label e.0 ≡ label e.1) g.edges (w, v) along m)

  labels-IsComponents : IsComponents g label number
  labels-IsComponents = record {
    below = λ v m.
        (all_mem (λ x. Connects g x (root (label x)) × (label x < number)) g.vertices v rooted m).1;
    used = used;
    same = λ u v m n. (
      λ e.
          let at = all_mem (λ x. Connects g x (root (label x)) × (label x < number)) g.vertices in
          Connects-trans (at u rooted m).0 (
            subst (λ i. Connects g (root i) v) (sym e)
              (Connects-sym g v (root (label v)) (at v rooted n).0)),
      same_label u v,
    );
  }

abbrev fresh : Properties
fresh v = record { name = []; index = 0; rank = unknown; color = no_color }

abbrev second : {A : Type 0} (x y : A) (xs : List A) → Memᴰ y (x ∷ y ∷ xs)
second x y xs = Memᴰ.tail (Memᴰ.head refl)

-- A pair 0 - 1, and a vertex 2 of its own.
abbrev two_parts : Graph
two_parts = record { vertices = 2 ∷ 0 ∷ 1 ∷ []; edges = (0, 1) ∷ [] }

abbrev part_of : ℕ → ℕ
part_of v = v / 2

two_parts-IsClosed : IsClosed two_parts
two_parts-IsClosed =
    edges-IsClosed two_parts
      ((Memᴰ.tail (Memᴰ.head refl), Memᴰ.tail (Memᴰ.tail (Memᴰ.head refl))), tt)

two_parts-IsComponents : IsComponents two_parts part_of 2
two_parts-IsComponents =
    labels-IsComponents two_parts part_of (λ i. 2 * i) 2 (refl, tt)
      (
        (here, omega arith),
        ((here, omega arith), ((step here (inr (Memᴰ.head refl)), omega arith), tt)),
      )
      used
  where
    used : (i : ℕ) → i < 2 → (v : ℕ) × Memᴰ v two_parts.vertices × (part_of v ≡ i)
    used zero h = (0, second 2 0 _, refl)
    used (suc j) h = (2, Memᴰ.head refl, omega arith)

keep_only_biggest_connected_component_lem_example :
    IsBiggest two_parts
      (keep_only_biggest_connected_component
        (lists (λ g. (part_of, 2)))
        (record { graph = two_parts; properties = fresh })).graph
    × ((i : ℕ)
        → length (members part_of i two_parts.vertices)
          ≤ length
              (keep_only_biggest_connected_component
                (lists (λ g. (part_of, 2)))
                (record { graph = two_parts; properties = fresh })).graph.vertices)
keep_only_biggest_connected_component_lem_example =
    keep_only_biggest_connected_component_lem (lists (λ g. (part_of, 2)))
      (record { graph = two_parts; properties = fresh }) two_parts-IsClosed two_parts-IsComponents

-- A triangle with a leaf.
abbrev leaf_graph : Graph
leaf_graph = record {
  vertices = 3 ∷ 2 ∷ 1 ∷ 0 ∷ [];
  edges = (3, 0) ∷ (1, 2) ∷ (0, 2) ∷ (0, 1) ∷ [];
}

leaf_graph-IsClosed : IsClosed leaf_graph
leaf_graph-IsClosed =
    edges-IsClosed leaf_graph ((at_3, at_0), ((at_1, at_2), ((at_0, at_2), ((at_0, at_1), tt))))
  where
    at_3 : Memᴰ 3 leaf_graph.vertices
    at_3 = Memᴰ.head refl

    at_2 : Memᴰ 2 leaf_graph.vertices
    at_2 = Memᴰ.tail (Memᴰ.head refl)

    at_1 : Memᴰ 1 leaf_graph.vertices
    at_1 = Memᴰ.tail (Memᴰ.tail (Memᴰ.head refl))

    at_0 : Memᴰ 0 leaf_graph.vertices
    at_0 = Memᴰ.tail (Memᴰ.tail (Memᴰ.tail (Memᴰ.head refl)))

assign_types-ok_example :
    (s' : Properties) × (assign_types (lists (λ g. (part_of, 2))) leaf_graph 1 fresh ≡ ok s')
    × IsClassified (lists (λ g. (part_of, 2))) leaf_graph 1 s'
assign_types-ok_example =
    assign_types-ok (lists (λ g. (part_of, 2))) leaf_graph 1 leaf_graph-IsClosed fresh (λ v. refl)

-- The same pair and vertex as backbone routers.
abbrev routers : Properties
routers v = record { name = []; index = 0; rank = backbone; color = no_color }

abbrev split_backbone : Topology
split_backbone = record { graph = two_parts; properties = routers }

abbrev in_parts : UndirectedGraphs
in_parts = lists (λ g. (part_of, 2))

abbrev bb_of_parts : Graph
bb_of_parts = record { vertices = 1 ∷ 0 ∷ 2 ∷ []; edges = (0, 1) ∷ (1, 0) ∷ [] }

backbone_of_parts : backbone_graph in_parts split_backbone ≡ bb_of_parts
unfolding backbone_graph
backbone_of_parts = refl

bb_of_parts-IsComponents : IsComponents bb_of_parts part_of 2
bb_of_parts-IsComponents =
    labels-IsComponents bb_of_parts part_of (λ i. 2 * i) 2 (refl, (refl, tt))
      (
        (step here (inl (second (0, 1) (1, 0) _)), omega arith),
        ((here, omega arith), ((here, omega arith), tt)),
      )
      used
  where
    used : (i : ℕ) → i < 2 → (v : ℕ) × Memᴰ v bb_of_parts.vertices × (part_of v ≡ i)
    used zero h = (0, second 1 0 _, refl)
    used (suc j) h = (2, Memᴰ.tail (second 0 2 _), omega arith)

connect_backbone_routers-ok_example :
    (t' : Topology) × (connect_backbone_routers in_parts (λ draw n. 0) split_backbone ≡ ok t')
    × IsConnected split_backbone t'
connect_backbone_routers-ok_example =
    connect_backbone_routers-ok in_parts (λ draw n. 0) split_backbone (λ draw n. omega arith)
      (subst (λ bb. IsComponents bb part_of 2) (sym backbone_of_parts) bb_of_parts-IsComponents)

-- A file with a triangle a, b, c and a leaf d.
abbrev line_a : MapsLine
line_a = record {
  uid = b'a' ∷ [];
  neighbors = some (b'<' ∷ b'b' ∷ b'>' ∷ 32 ∷ b'<' ∷ b'c' ∷ b'>' ∷ 32 ∷ b'<' ∷ b'd' ∷ b'>' ∷ []);
  radius = b'0' ∷ [];
}

abbrev line_b : MapsLine
line_b = record { uid = b'b' ∷ []; neighbors = some (b'<' ∷ b'c' ∷ b'>' ∷ []); radius = b'1' ∷ [] }

abbrev whole : UndirectedGraphs
whole = lists (λ g. ((λ v. 0), 1))

abbrev from_ok : {A : Type 0} → A → Result A → A
from_ok a (ok b) = b
from_ok a (err e) = a

abbrev read_file : Reader
unfolding read_lines
read_file = from_ok empty_reader (read_lines whole (line_a ∷ line_b ∷ []) empty_reader)

file_read : read_lines whole (line_a ∷ line_b ∷ []) empty_reader ≡ ok read_file
unfolding read_lines read_file
file_read = refl

abbrev typed_file : Topology
typed_file = from_ok read_file.topology (classify whole 1 true read_file.topology)

abbrev bb_of_file : Graph
bb_of_file = record { vertices = 1 ∷ 2 ∷ []; edges = (2, 1) ∷ (1, 2) ∷ [] }

backbone_of_file : backbone_graph whole typed_file ≡ bb_of_file
unfolding backbone_graph classify read_lines read_file assign_types
    keep_only_biggest_connected_component largest_component
backbone_of_file = refl

bb_of_file-IsComponents : IsComponents bb_of_file (λ v. 0) 1
bb_of_file-IsComponents =
    labels-IsComponents bb_of_file (λ v. 0) (λ i. 1) 1 (refl, (refl, tt))
      ((here, omega arith), ((step here (inl (Memᴰ.head refl)), omega arith), tt))
      λ i h. (1, Memᴰ.head refl, omega arith)

read-ok_example :
    (out : Topology × Routers × List Link) × (read whole
        (λ draw n. 0)
        1
        true
        true
        (line_a ∷ line_b ∷ [])
      ≡ ok out)
    × IsBuilt out
read-ok_example =
    read-ok whole (λ draw n. 0) 1 true true (line_a ∷ line_b ∷ []) read_file (λ draw n. omega arith)
      file_read
      (λ t e.
        subst (λ x. IsComponents (backbone_graph whole x) (λ v. 0) 1)
          (ap (from_ok read_file.topology) e)
          (subst (λ bb. IsComponents bb (λ v. 0) 1) (sym backbone_of_file) bb_of_file-IsComponents))

abbrev kinds_of : Result (Topology × Routers × List Link) → List LinkKind
kinds_of (ok (t, r, links)) = map (λ l. l.kind) links
kinds_of (err e) = []

links_of_file :
    kinds_of (read whole (λ draw n. 0) 1 true true (line_a ∷ line_b ∷ []))
    ≡ b2b ∷ g2c ∷ b2g ∷ b2g ∷ []
unfolding read assign_types keep_only_biggest_connected_component largest_component
    connect_backbone_routers
links_of_file = refl
