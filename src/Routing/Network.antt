-- ===== src/Routing/Network.antt =====
-- model/ndn-global-router.cpp and .hpp, and what the routing helpers read and write of the
-- simulator: the list of nodes, their faces, and the routers that are aggregated to nodes and
-- channels. Pointers to faces and routers are keys of `faces` and `routers`. A prefix is kept as
-- the URI that the name is made of.
use ndn_sim.Prelude.{
  ℕ, ◌+◌, ◌^◌, ◌%◌, Bool, true, false, not, ◌&&◌, List, [], ◌∷◌, ◌++◌, Option, none, some, ◌==◌,
  if◌then◌else◌, Result, ok, assertion, ◌>>=◌, or_fail,
}
use ndn_sim.Prelude.AssocMap.{lookup, update}

pub record Face : Type 0 where
  pub metric : ℕ
  -- whether its transport is a NetDeviceTransport
  pub net_device : Bool

-- a link of a router, with no face where the router stands for a channel
pub record Incidency : Type 0 where
  pub own : ℕ
  pub face : Option ℕ
  pub other : ℕ

-- `node` is the node that the router is aggregated to, if it is one.
pub record GlobalRouter : Type 0 where
  pub id : ℕ
  pub node : Option ℕ
  pub local_prefixes : List (List ℕ)
  pub incidencies : List Incidency

-- `name` is what Names::FindName gives.
pub record Node : Type 0 where
  pub node_id : ℕ
  pub name : List ℕ
  pub router : Option ℕ
  pub face_table : List ℕ

pub record Network : Type 0 where
  pub id_counter : ℕ
  pub nodes : List Node
  pub routers : List (ℕ × GlobalRouter)
  pub faces : List (ℕ × Face)

-- The constructor of a router.
unfoldable pub new_router : Option ℕ → Network → GlobalRouter × Network
new_router node net = (
  record { id = net.id_counter; node = node; local_prefixes = []; incidencies = [] },
  record net { id_counter = (net.id_counter + 1) % (2 ^ 32) },
)

unfoldable pub clear : Network → Network
clear net = record net { id_counter = 0 }

unfoldable pub add_local_prefix : ℕ → List ℕ → Network → Network
add_local_prefix router prefix net = record net {
  routers =
      update router (λ gr. record gr { local_prefixes = gr.local_prefixes ++ (prefix ∷ []) })
        net.routers;
}

unfoldable pub add_incidency : ℕ → Option ℕ → ℕ → Network → Network
add_incidency router face other net = record net {
  routers =
      update router
        (λ gr. record gr {
          incidencies =
              gr.incidencies ++ (record { own = router; face = face; other = other } ∷ []);
        })
        net.routers;
}

-- operator== of incidencies, on pointers
abbrev pub eqb_face : Option ℕ → Option ℕ → Bool
eqb_face none none = true
eqb_face (some a) (some b) = a == b
eqb_face _ _ = false

unfoldable pub eqb_incidency : Incidency → Incidency → Bool
eqb_incidency a b = (a.own == b.own) && (eqb_face a.face b.face && (a.other == b.other))

-- GlobalRoutingHelper::AddOrigin, for a node
unfoldable pub add_origin : List ℕ → Node → Network → Result Network
unfolding add_local_prefix
add_origin prefix node net =
    or_fail node.router assertion >>= λ gr. ok (add_local_prefix gr prefix net)

-- The same for a node by its name, with Names::Find.
unfoldable pub add_origin_of : (List ℕ → Option Node) → List ℕ → List ℕ → Network → Result Network
unfolding add_origin
add_origin_of find prefix node_name net =
    or_fail (find node_name) assertion >>= λ node. add_origin prefix node net

unfoldable pub add_origins : List ℕ → List Node → Network → Result Network
unfolding add_origin
add_origins prefix [] net = ok net
add_origins prefix (node ∷ nodes) net =
    add_origin prefix node net >>= λ net'. add_origins prefix nodes net'

abbrev pub slash : ℕ
slash = 47

abbrev pub is_empty : List ℕ → Bool
is_empty [] = true
is_empty _ = false

abbrev pub has_router : Node → Bool
has_router node = elim node.router [ none ↦ false | some gr ↦ true ]

unfoldable pub add_named : Node → Network → Result Network
unfolding add_origin
add_named node net =
    if has_router node && not (is_empty node.name)
    then add_origin (slash ∷ node.name) node net
    else ok net

unfoldable pub add_each_named : List Node → Network → Result Network
unfolding add_named
add_each_named [] net = ok net
add_each_named (node ∷ nodes) net = add_named node net >>= λ net'. add_each_named nodes net'

unfoldable pub add_origins_for_all : Network → Result Network
unfolding add_each_named
add_origins_for_all net = add_each_named net.nodes net

-- The prefixes of a router.
unfoldable pub prefixes_of : ℕ → Network → Option (List (List ℕ))
prefixes_of router net = elim (lookup router net.routers) [
  | none ↦ none
  | some gr ↦ some gr.local_prefixes
]

-- The prefixes that the named nodes with this router stand for.
abbrev pub named_prefixes : ℕ → List Node → List (List ℕ)
named_prefixes router [] = []
named_prefixes router (node ∷ nodes) =
    let rest = named_prefixes router nodes in
    elim node.router [
      | none ↦ rest
      | some gr ↦
          if (gr == router) && not (is_empty node.name) then (slash ∷ node.name) ∷ rest else rest
    ]
