-- ===== src/Tests/Routing.antt =====
-- The routing helpers: two nodes with a link between them.
use ndn_sim.Prelude.{
  ℕ, ◌^◌, ◌%◌, ◌≡◌, ◌≢◌, refl, List, [], ◌∷◌, Option, some, true, false, ok, err, none, assertion,
  null_pointer, returned, if◌then◌else◌, ◌>>=◌, All, Ends, arith, subst, Bool-cases, inl, inr, ◌==◌,
}
use mathlib.Core.List.{Memᴰ}
use ndn_sim.Prelude.OrderedSet
use ndn_sim.Prelude.Int.{◌+ℤ◌}
use ndn_sim.Lfid.NextHop.{fib_next_hop}
use ndn_sim.Lfid.Fib.{
  abstract_fib, check_inputs, insert, empty_sets, check_fib, get_nexthops, get_upward_nexthops,
}
use ndn_sim.Lfid.Loops.{remove_loops}
use ndn_sim.Lfid.DeadEnds.{remove_dead_ends}
use ndn_sim.Routing.Network.{
  Face, Incidency, GlobalRouter, Network, slash, prefixes_of, named_prefixes, add_origins_for_all,
}
use ndn_sim.Routing.Origins.{append_prefixes, add_origins_for_all_lem}
use ndn_sim.Routing.Weights.{
  weight_zero, path_weight, path_weight_lem, first_face, total_cost, edge_weight,
}
use ndn_sim.Routing.Routes.{calculate_routes, add_route, add_prefixes}
use ndn_sim.Routing.Routes.Reach.{IsRoute, calculate_routes-All}
use ndn_sim.Routing.AllRoutes.{RouteState, calculate_all_possible_routes}
use ndn_sim.Routing.AllRoutes.Restored.{Faces, SameFaces}
use ndn_sim.Routing.AllRoutes.Rounds.{AreLinked, IsThere}
use ndn_sim.Routing.AllRoutes.Metrics.{IsTable, calculate_all_possible_routes-ok}
use ndn_sim.Routing.FillFib.{node_of}
use ndn_sim.Routing.AllRoutes.Enabled.{IsEnabledRoute, calculate_all_possible_routes-All}
use ndn_sim.Routing.Links.{Device, FaceEntry, Host, add_route_to, remove_route_to}
use ndn_sim.Routing.Links.Undo.{undo}
use ndn_sim.Routing.Links.Named.{
  add_route_by_id, remove_route_by_id, add_route_of, remove_route_of, add_route_between,
  remove_route_between, remove_routes_lem,
}
use ndn_sim.Prelude.AssocMap.{map_option}
use ndn_sim.Routing.Lfid.{calculate_lfid_routes, neighbor_paths}
use ndn_sim.Routing.Lfid.Resets.{neighbor_paths-restores}
use ndn_sim.Routing.Lfid.Pipeline.{IsLfidResult, calculate_lfid_routes-Ends}
use ndn_sim.Tests.Graphs.{arc_counts}
use ndn_sim.Tests.Paths.{direct_paths}
use ndn_sim.Routing.Install.{install_routers}
use ndn_sim.Routing.Install.Whole.{IsInstalled, install_routers-ok}
use ndn_sim.Tests.Simulations.{
  three_nodes, bare_network, all_places, bare_network-known, three_nodes-AreClosed,
}

abbrev face_of : ℕ → Face
face_of metric = record { metric = metric; net_device = true }

abbrev faces_1 : List (ℕ × Face)
faces_1 = (10, face_of 3) ∷ (20, face_of 4) ∷ []

abbrev link_1 : Incidency
link_1 = record { own = 100; face = some 10; other = 200 }

abbrev link_2 : Incidency
link_2 = record { own = 200; face = some 20; other = 100 }

abbrev pair : Network
pair = record {
  id_counter = 2;
  nodes =
      record { node_id = 0; name = 97 ∷ []; router = some 100; face_table = 10 ∷ [] }
      ∷ record { node_id = 1; name = 98 ∷ []; router = some 200; face_table = 20 ∷ [] }
      ∷ [];
  routers =
      (100, record { id = 0; node = some 0; local_prefixes = []; incidencies = link_1 ∷ [] })
      ∷ (
        200,
        record {
          id = 1;
          node = some 1;
          local_prefixes = (slash ∷ 112 ∷ []) ∷ [];
          incidencies = link_2 ∷ [];
        },
      )
      ∷ [];
  faces = faces_1;
}

add_origins_for_all_lem_example :
    (net' : Network) × (add_origins_for_all pair ≡ ok net')
    × ((r : ℕ)
        → prefixes_of r net' ≡ append_prefixes (named_prefixes r pair.nodes) (prefixes_of r pair))
add_origins_for_all_lem_example = add_origins_for_all_lem pair

path_weight_lem_example :
    ((path_weight faces_1 weight_zero (link_1 ∷ link_2 ∷ [])).face
      ≡ first_face (link_1 ∷ link_2 ∷ []))
    × ((path_weight faces_1 weight_zero (link_1 ∷ link_2 ∷ [])).cost
        ≡ total_cost faces_1 (link_1 ∷ link_2 ∷ []) % (2 ^ 32))
path_weight_lem_example = path_weight_lem faces_1 (link_1 ∷ link_2 ∷ [])

calculate_routes-All_example : All (IsRoute pair) (calculate_routes direct_paths pair)
calculate_routes-All_example = calculate_routes-All direct_paths pair

-- Node 0 has a route to the prefix of node 1.
pair_routes :
    calculate_routes direct_paths pair
    ≡ record { node = 0; name = slash ∷ 112 ∷ []; face_id = 10; cost = 3 } ∷ []
unfolding calculate_routes add_route edge_weight
pair_routes = refl

pair-IsTable : All (λ n. IsTable faces_1 n.face_table) pair.nodes
pair-IsTable = (
  ((tt, tt), ((face_of 3, refl, omega arith), tt)),
  (((tt, tt), ((face_of 4, refl, omega arith), tt)), tt),
)

-- The condition on the links, by going through the routers.
abbrev AreThere : Faces → List Incidency → Type 0
AreThere faces = All (λ edge. (f : ℕ) → edge.face ≡ some f → IsThere faces f)

AreThere-IsThere :
    (faces : Faces) (edges : List Incidency) (edge : Incidency) (f : ℕ)
    → AreThere faces edges
    → Memᴰ edge edges
    → edge.face ≡ some f
    → IsThere faces f
AreThere-IsThere faces [] edge f a m e = elim m [ ]
AreThere-IsThere faces (x ∷ edges) edge f a (Memᴰ.head same) e = a.0 f (ground (arith, e, same))
AreThere-IsThere faces (x ∷ edges) edge f a (Memᴰ.tail m) e =
    AreThere-IsThere faces edges edge f a.1 m e

AreThere-AreLinked :
    (routers : List (ℕ × GlobalRouter)) (faces : Faces)
    → All (λ e. AreThere faces e.1.incidencies) routers
    → AreLinked routers faces
AreThere-AreLinked [] faces a s gr edge f h m e = cc
AreThere-AreLinked ((k, r) ∷ routers) faces a s gr edge f h m e = elim (Bool-cases (k == s)) [
  | inl i ↦
      let same : r ≡ gr = ground (arith, h, i) in
      AreThere-IsThere faces gr.incidencies edge f
        (subst (λ g. AreThere faces g.incidencies) same a.0) m e
  | inr i ↦ AreThere-AreLinked routers faces a.1 s gr edge f (ground (arith, h, i)) m e
]

pair-AreLinked : AreLinked pair.routers faces_1
pair-AreLinked = AreThere-AreLinked pair.routers faces_1 (
  ((λ f e. let same : 10 ≡ f = cc in (face_of 3, ground (arith, same))), tt),
  (((λ f e. let same : 20 ≡ f = cc in (face_of 4, ground (arith, same))), tt), tt),
)

calculate_all_possible_routes-ok_example :
    (t : RouteState) × (calculate_all_possible_routes direct_paths pair ≡ ok t)
    × SameFaces faces_1 t.0
calculate_all_possible_routes-ok_example =
    calculate_all_possible_routes-ok direct_paths pair pair-AreLinked pair-IsTable

calculate_lfid_routes-Ends_example :
    Ends (IsLfidResult direct_paths pair) (calculate_lfid_routes arc_counts direct_paths pair)
calculate_lfid_routes-Ends_example = calculate_lfid_routes-Ends arc_counts direct_paths pair

pair_lfid_routes :
    calculate_lfid_routes arc_counts direct_paths pair
    ≡ ok (faces_1, record { node = 0; name = slash ∷ 112 ∷ []; face_id = 10; cost = 3 } ∷ [])
unfolding calculate_lfid_routes add_route edge_weight abstract_fib check_inputs ◌+ℤ◌ fib_next_hop
    insert empty_sets OrderedSet.has check_fib OrderedSet.insert remove_loops get_nexthops
    get_upward_nexthops remove_dead_ends add_prefixes
pair_lfid_routes = refl

abbrev third : GlobalRouter
third = record { id = 2; node = some 2; local_prefixes = []; incidencies = [] }

abbrev link_3 : Incidency
link_3 = record { own = 100; face = some 20; other = 300 }

abbrev fork_routers : List (ℕ × GlobalRouter)
fork_routers = (300, third) ∷ pair.routers

far : node_of fork_routers 300 ≢ node_of fork_routers 200
far e = ground (arith, e)

far_face : link_3.face ≢ link_1.face
far_face e = ground (arith, e)

-- Node 0 with the neighbours 1 and 2.
neighbor_paths-restores_example :
    Ends
      (λ r. SameFaces faces_1 r.1.1)
      (neighbor_paths direct_paths fork_routers 0 100 (link_1 ∷ link_3 ∷ []) faces_1)
neighbor_paths-restores_example =
    neighbor_paths-restores fork_routers direct_paths 0 100 (link_1 ∷ link_3 ∷ []) faces_1
      (((far, far_face), tt), (tt, tt))

calculate_all_possible_routes-All_example :
    Ends (λ t. All (IsEnabledRoute pair) t.1) (calculate_all_possible_routes direct_paths pair)
calculate_all_possible_routes-All_example = calculate_all_possible_routes-All direct_paths pair

abbrev link_device : Device
link_device = record { key = 7; p2p = true; channel = some (0, 1) }

abbrev host_table : List FaceEntry
host_table =
    record { face_id = 9; net_device = some 6 } ∷ record { face_id = 10; net_device = some 7 } ∷ []

abbrev host_1 : Host
host_1 = record {
  node_id = 0;
  devices = record { key = 6; p2p = false; channel = none } ∷ link_device ∷ [];
  table = some host_table;
}

abbrev get_entry : List FaceEntry → ℕ → Option FaceEntry
get_entry [] id = none
get_entry (entry ∷ entries) id =
    let rest = get_entry entries id in if entry.face_id == id then some entry else rest

-- The node is found by the name "a", and no other.
abbrev find_host : List ℕ → Option Host
find_host [] = none
find_host (c ∷ cs) = if c == 97 then some host_1 else none

remove_routes_lem_example :
    (remove_route_to host_1 (slash ∷ []) 1
      ≡ (add_route_to host_1 (slash ∷ []) 1 5 >>= λ c. ok (undo c)))
    × (remove_route_by_id get_entry host_1 (slash ∷ []) 9
        ≡ (add_route_by_id get_entry host_1 (slash ∷ []) 9 5 >>= λ c. ok (undo c)))
    × (returned (remove_route_of get_entry find_host (97 ∷ []) (slash ∷ []) 9)
        ≡ map_option undo (returned (add_route_of get_entry find_host (97 ∷ []) (slash ∷ []) 9 5)))
    × (returned (remove_route_between find_host (97 ∷ []) (slash ∷ []) (98 ∷ []))
        ≡ map_option undo
            (returned (add_route_between find_host (97 ∷ []) (slash ∷ []) (98 ∷ []) 5)))
remove_routes_lem_example =
    remove_routes_lem get_entry find_host host_1 (97 ∷ []) (98 ∷ []) (slash ∷ []) 1 9 5

-- A name that is not known stops AddRoute at its check, and RemoveRoute later.
unknown_node :
    (add_route_of get_entry find_host (98 ∷ []) (slash ∷ []) 9 5 ≡ err assertion)
    × (remove_route_of get_entry find_host (98 ∷ []) (slash ∷ []) 9 ≡ err null_pointer)
unfolding add_route_of remove_route_of
unknown_node = (refl, refl)

install_routers-ok_example :
    (net' : Network) × (install_routers three_nodes 5 bare_network ≡ ok net')
    × IsInstalled three_nodes (0 ∷ 1 ∷ 2 ∷ []) bare_network net'
install_routers-ok_example =
    install_routers-ok three_nodes all_places bare_network three_nodes-AreClosed bare_network-known
