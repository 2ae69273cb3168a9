-- ===== src/Topology/Read/Cleaning.antt =====
-- utils/topology/rocketfuel-map-reader.cpp, Read: the links that are removed, and the loops that
-- create nodes and links.
use ndn_sim.Prelude.{
  ℕ, ◌≡◌, ◌≢◌, ◌↔◌, ◌⊎◌, refl, ◌∙◌, ap, List, [], ◌∷◌, ◌++◌, some, ok, arith, ◌==◌, filter, sym,
  true, if◌then◌else◌, Bool-cases, inl, inr, false,
}
use mathlib.Core.List.{Memᴰ, append-nil, append_assoc}
use mathlib.Core.List.Memᴰ
use ndn_sim.Topology.Graph.{Graph, UndirectedGraphs}
use ndn_sim.Topology.Classes.{NodeType, unknown, client, gateway, backbone, is_unknown, Properties}
use ndn_sim.Topology.Lines.{Text}
use ndn_sim.Topology.Read.{
  LinkKind, b2b, b2g, g2c, eq_type, is_right_link, link_kind, Link, Routers, typed_name, rename,
  create_node, create_nodes, create_links, remove_wrong_links,
}

-- The types of the ends of a link, and the group of parameters that it should get.
pub data JoinsAs : NodeType → NodeType → LinkKind → Type 0 where
  both_backbones : JoinsAs backbone backbone b2b
  gateway_to_backbone : JoinsAs gateway backbone b2g
  backbone_to_gateway : JoinsAs backbone gateway b2g
  both_gateways : JoinsAs gateway gateway b2g
  gateway_to_client : JoinsAs gateway client g2c
  client_to_gateway : JoinsAs client gateway g2c

abbrev pub IsRight : Properties → ℕ → ℕ → Type 0
IsRight s u v = is_right_link (s u).rank (s v).rank ≡ true

pub is_right_link_comm : (a b : NodeType) → is_right_link a b ≡ true → is_right_link b a ≡ true
unfolding is_right_link
is_right_link_comm unknown _ h = cc
is_right_link_comm _ unknown h = cc
is_right_link_comm client client h = cc
is_right_link_comm client gateway h = refl
is_right_link_comm client backbone h = cc
is_right_link_comm gateway client h = refl
is_right_link_comm gateway gateway h = refl
is_right_link_comm gateway backbone h = refl
is_right_link_comm backbone client h = cc
is_right_link_comm backbone gateway h = refl
is_right_link_comm backbone backbone h = refl

-- The second chain has a kind for each link that the first one keeps.
link_kind-is_right_link :
    (a b : NodeType)
    → is_right_link a b ≡ true
    → (kind : LinkKind) × (link_kind a b ≡ some kind) × JoinsAs a b kind
unfolding is_right_link link_kind
link_kind-is_right_link unknown _ h = cc
link_kind-is_right_link _ unknown h = cc
link_kind-is_right_link client client h = cc
link_kind-is_right_link client gateway h = (g2c, refl, client_to_gateway)
link_kind-is_right_link client backbone h = cc
link_kind-is_right_link gateway client h = (g2c, refl, gateway_to_client)
link_kind-is_right_link gateway gateway h = (b2g, refl, both_gateways)
link_kind-is_right_link gateway backbone h = (b2g, refl, gateway_to_backbone)
link_kind-is_right_link backbone client h = cc
link_kind-is_right_link backbone gateway h = (b2g, refl, backbone_to_gateway)
link_kind-is_right_link backbone backbone h = (b2b, refl, both_backbones)

module _ (lib : UndirectedGraphs) (s : Properties) where
  pub remove_wrong_links-vertices :
      (es : List (ℕ × ℕ)) (g : Graph) → (remove_wrong_links lib s es g).vertices ≡ g.vertices
  unfolding remove_wrong_links
  remove_wrong_links-vertices [] g = refl
  remove_wrong_links-vertices ((u, v) ∷ es) g =
      elim (Bool-cases (is_right_link (s u).rank (s v).rank)) [
        | inl e ↦ rw (e, remove_wrong_links) (remove_wrong_links-vertices es g)
        | inr e ↦
            rw (e, remove_wrong_links)
              (remove_wrong_links-vertices es (lib.remove_edge (u, v) g)
                ∙ lib.vertices_kept (u, v) g)
      ]

  -- What is left are the links of a right type, of those that the loop meets.
  pub remove_wrong_links-edges :
      (es : List (ℕ × ℕ)) (g : Graph) (a b : ℕ)
      → Memᴰ (a, b) (remove_wrong_links lib s es g).edges
        ↔ (Memᴰ (a, b) g.edges × (Memᴰ (a, b) es → IsRight s a b))
  unfolding remove_wrong_links
  remove_wrong_links-edges [] g a b = (λ m. (m, λ n. elim n [ ]), λ (m, f). m)
  remove_wrong_links-edges ((u, v) ∷ es) g a b =
      elim (Bool-cases (is_right_link (s u).rank (s v).rank)) [
        | inl e ↦
            let ih = remove_wrong_links-edges es g a b in
            rw (e, remove_wrong_links)
              (
                λ m.
                    let (n, f) = ih.0 m in
                    (
                      n,
                      λ k. elim (Memᴰ.cases_cons k) [
                        | inl same ↦ rw (ap (λ x. x.0) same, ap (λ x. x.1) same) e
                        | inr later ↦ f later
                      ],
                    ),
                λ (m, f). ih.1 (m, λ k. f (Memᴰ.tail k)),
              )
        | inr e ↦
            let ih = remove_wrong_links-edges es (lib.remove_edge (u, v) g) a b in
            let law = lib.edges_removed u v g a b in
            rw (e, remove_wrong_links)
              (
                λ m.
                    let (n, f) = ih.0 m in
                    let (o, other) = law.0 n in
                    (
                      o,
                      λ k. elim (Memᴰ.cases_cons k) [
                        | inl same ↦ elim other [
                          | inl p ↦ absurd (p (ap (λ x. x.0) same))
                          | inr p ↦ absurd (p (ap (λ x. x.1) same))
                        ]
                        | inr later ↦ f later
                      ],
                    ),
                λ (m, f). ih.1 (law.1 (m, wrong_other u v es a b e f), λ k. f (Memᴰ.tail k)),
              )
      ]
    where
      wrong_other :
          (u v : ℕ) (es : List (ℕ × ℕ)) (a b : ℕ)
          → is_right_link (s u).rank (s v).rank ≡ false
          → (Memᴰ (a, b) ((u, v) ∷ es) → IsRight s a b)
          → (a ≢ u) ⊎ (b ≢ v)
      wrong_other u v es a b e f = elim (Bool-cases (a == u)) [
        | inr n ↦ inl (λ q. ground (arith, n, q))
        | inl y ↦ elim (Bool-cases (b == v)) [
          | inr n ↦ inr (λ q. ground (arith, n, q))
          | inl z ↦
              let p : a ≡ u = ground arith in
              let q : b ≡ v = ground arith in
              let k = f (Memᴰ.head (λ i. (p i, q i))) in absurd (ground (arith, k, e, p, q))
        ]
      ]

rename-rank : (v : ℕ) (s : Properties) (x : ℕ) → (rename v s x).rank ≡ (s x).rank
rename-rank v s x = ground arith

-- The vertices of a type.
abbrev pub of_type : NodeType → Properties → List ℕ → List ℕ
of_type type s = filter (λ v. eq_type (s v).rank type)

-- `r'` has, after what `r` has, in each container the vertices of its type.
pub record Places (s : Properties) (vs : List ℕ) (r r' : Routers) : Type 0 where
  pub backbones : r'.backbones ≡ r.backbones ++ of_type backbone s vs
  pub customers : r'.customers ≡ r.customers ++ of_type client s vs
  pub gateways : r'.gateways ≡ r.gateways ++ of_type gateway s vs

-- The name of a vertex has the prefix of its type.
abbrev pub IsPrefixed : Properties → ℕ → Type 0
IsPrefixed s v = (name : Text) × ((s v).name ≡ typed_name (s v).rank name)

create_node-ok :
    (v : ℕ) (s : Properties) (r : Routers) (type : NodeType)
    → (s v).rank ≡ type
    → is_unknown type ≡ false
    → (r' : Routers) × (create_node v s r ≡ ok (rename v s, r')) × Places s (v ∷ []) r r'
unfolding create_node
create_node-ok v s r unknown e k = cc
create_node-ok v s r client e k = (
  record r { customers = r.customers ++ v ∷ [] },
  rw (e, create_node) refl,
  record {
    backbones = rw e (sym (append-nil _));
    customers = rw e refl;
    gateways = rw e (sym (append-nil _));
  },
)
create_node-ok v s r gateway e k = (
  record r { gateways = r.gateways ++ v ∷ [] },
  rw (e, create_node) refl,
  record {
    backbones = rw e (sym (append-nil _));
    customers = rw e (sym (append-nil _));
    gateways = rw e refl;
  },
)
create_node-ok v s r backbone e k = (
  record r { backbones = r.backbones ++ v ∷ [] },
  rw (e, create_node) refl,
  record {
    backbones = rw e refl;
    customers = rw e (sym (append-nil _));
    gateways = rw e (sym (append-nil _));
  },
)

pub of_type_ranks :
    (s s' : Properties) (type : NodeType) (vs : List ℕ)
    → ((x : ℕ) → (s' x).rank ≡ (s x).rank)
    → of_type type s' vs ≡ of_type type s vs
of_type_ranks s s' type [] same = refl
of_type_ranks s s' type (x ∷ vs) same = rw (same x) (
    ap (λ rest. if eq_type (s x).rank type then x ∷ rest else rest)
      (of_type_ranks s s' type vs same))

of_type-cons :
    (v : ℕ) (s : Properties) (type : NodeType) (vs a b c : List ℕ)
    → b ≡ a ++ of_type type s (v ∷ [])
    → c ≡ b ++ of_type type (rename v s) vs
    → c ≡ a ++ of_type type s (v ∷ vs)
of_type-cons v s type vs a b c e f = elim (Bool-cases (eq_type (s v).rank type)) [
  | inl y ↦
      f
      ∙ (ap (λ l. b ++ l) (of_type_ranks s (rename v s) type vs (rename-rank v s))
          ∙ (ap (λ l. l ++ of_type type s vs) e
              ∙ rw y (append_assoc a (v ∷ []) (of_type type s vs))))
  | inr n ↦
      f
      ∙ (ap (λ l. b ++ l) (of_type_ranks s (rename v s) type vs (rename-rank v s))
          ∙ (ap (λ l. l ++ of_type type s vs) e ∙ rw n (append_assoc a [] (of_type type s vs))))
]

IsPrefixed-rename :
    (v : ℕ) (s : Properties) (x : ℕ) → (x ≡ v) ⊎ IsPrefixed s x → IsPrefixed (rename v s) x
IsPrefixed-rename v s x h = elim (Bool-cases (x == v)) [
  | inl y ↦ ((s x).name, rw y refl)
  | inr n ↦ elim h [ inl e ↦ absurd (ground (arith, n, e)) | inr (name, e) ↦ (name, rw n e) ]
]

-- The loop over the nodes returns where each has a type. Every node comes into the container of its
-- type, and its name gets the prefix.
pub create_nodes-ok :
    (vs : List ℕ) (s : Properties) (r : Routers)
    → ((v : ℕ) → Memᴰ v vs → is_unknown (s v).rank ≡ false)
    → (s' : Properties) × (r' : Routers) × (create_nodes vs s r ≡ ok (s', r'))
      × ((x : ℕ) → (s' x).rank ≡ (s x).rank)
      × Places s vs r r'
      × ((x : ℕ) → Memᴰ x vs ⊎ IsPrefixed s x → IsPrefixed s' x)
unfolding create_nodes
create_nodes-ok [] s r k = (
  s,
  r,
  refl,
  λ x. refl,
  record {
    backbones = sym (append-nil _);
    customers = sym (append-nil _);
    gateways = sym (append-nil _);
  },
  λ x h. elim h [ inl m ↦ elim m [ ] | inr p ↦ p ],
)
create_nodes-ok (v ∷ vs) s r k =
    let (r1, e, p) = create_node-ok v s r (s v).rank refl (k v (Memᴰ.head refl)) in
    let (s', r', f, same, q, named) =
      create_nodes-ok vs (rename v s) r1
        (λ x m. ground (arith, rename-rank v s x, k x (Memᴰ.tail m))) in
    (
      s',
      r',
      rw e f,
      λ x. same x ∙ rename-rank v s x,
      record {
        backbones = of_type-cons v s backbone vs _ _ _ p.backbones q.backbones;
        customers = of_type-cons v s client vs _ _ _ p.customers q.customers;
        gateways = of_type-cons v s gateway vs _ _ _ p.gateways q.gateways;
      },
      λ x h. named x (elim h [
        | inl m ↦ elim (Memᴰ.cases_cons m) [
          | inl same ↦ inr (IsPrefixed-rename v s x (inl same))
          | inr later ↦ inl later
        ]
        | inr old ↦ inr (IsPrefixed-rename v s x (inr old))
      ]),
    )

-- One link for each edge, with the parameters for the types of its ends.
abbrev pub AreLinks : Properties → List (ℕ × ℕ) → List Link → Type 0
AreLinks s [] [] = Unit
AreLinks s [] (l ∷ ls) = ⊥
AreLinks s (e ∷ es) [] = ⊥
AreLinks s (e ∷ es) (l ∷ ls) =
    JoinsAs (s e.0).rank (s e.1).rank l.kind
    × (l.from_name ≡ (s e.0).name)
    × (l.to_name ≡ (s e.1).name)
    × AreLinks s es ls

pub create_links-ok :
    (s : Properties) (es : List (ℕ × ℕ))
    → ((u v : ℕ) → Memᴰ (u, v) es → IsRight s u v)
    → (links : List Link) × (create_links s es ≡ ok links) × AreLinks s es links
unfolding create_links
create_links-ok s [] k = ([], refl, tt)
create_links-ok s ((u, v) ∷ es) k =
    let (kind, e, joins) = link_kind-is_right_link (s u).rank (s v).rank (k u v (Memᴰ.head refl)) in
    let (links, f, a) = create_links-ok s es (λ x y m. k x y (Memᴰ.tail m)) in
    (
      record { from_name = (s u).name; to_name = (s v).name; kind = kind } ∷ links,
      rw (e, f) refl,
      (joins, refl, refl, a),
    )
