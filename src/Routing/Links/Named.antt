-- ===== src/Routing/Links/Named.antt =====
-- helper/ndn-fib-helper.cpp: AddRoute and RemoveRoute for the number of a face, and for nodes by
-- their names, with getFaceById of model/ndn-l3-protocol.cpp. The search for a number in the face
-- table, and Names::Find of NS-3, are parameters.
use ndn_sim.Prelude.{
  ℕ, ◌≡◌, refl, List, Option, Result, ok, err, assertion, null_pointer, returned, ◌>>=◌, or_fail,
  Option-cases, inl, inr,
}
use ndn_sim.Prelude.AssocMap.{map_option}
use ndn_sim.Routing.Routes.{Command, add_route}
use ndn_sim.Routing.Links.{
  FaceEntry, Host, RemoveCommand, remove_route, add_route_to, remove_route_to,
}
use ndn_sim.Routing.Links.Undo.{undo, remove_route_to_lem}

module _ (get : List FaceEntry → ℕ → Option FaceEntry) where
  -- L3Protocol::getFaceById, which reads through the pointer that the table gives
  unfoldable pub get_face_by_id : List FaceEntry → ℕ → Result ℕ
  get_face_by_id table id = or_fail (get table id) null_pointer >>= λ entry. ok entry.face_id

  -- AddRoute and RemoveRoute for a node and the number of a face
  unfoldable pub add_route_by_id : Host → List ℕ → ℕ → ℕ → Result Command
  unfolding get_face_by_id
  add_route_by_id host prefix id metric = or_fail host.table assertion >>= λ table.
      get_face_by_id table id >>= λ face. ok (add_route host.node_id prefix face metric)

  unfoldable pub remove_route_by_id : Host → List ℕ → ℕ → Result RemoveCommand
  unfolding get_face_by_id
  remove_route_by_id host prefix id = or_fail host.table assertion >>= λ table.
      get_face_by_id table id >>= λ face. ok (remove_route host.node_id prefix face)

  module _ (find : List ℕ → Option Host) where
    -- The same for the name of a node. RemoveRoute does not check that the node was found, and
    -- calls GetObject on it.
    unfoldable pub add_route_of : List ℕ → List ℕ → ℕ → ℕ → Result Command
    unfolding add_route_by_id
    add_route_of node_name prefix id metric =
        or_fail (find node_name) assertion >>= λ host. add_route_by_id host prefix id metric

    unfoldable pub remove_route_of : List ℕ → List ℕ → ℕ → Result RemoveCommand
    unfolding remove_route_by_id
    remove_route_of node_name prefix id =
        or_fail (find node_name) null_pointer >>= λ host. remove_route_by_id host prefix id

module _ (find : List ℕ → Option Host) where
  -- AddRoute and RemoveRoute for the names of two nodes. Where the other node is not found,
  -- RemoveRoute finds no link to it, and calls GetId on it for the message of the error.
  unfoldable pub add_route_between : List ℕ → List ℕ → List ℕ → ℕ → Result Command
  unfolding add_route_to
  add_route_between node_name prefix other_name metric =
      or_fail (find node_name) assertion >>= λ host.
      or_fail (find other_name) assertion >>= λ other. add_route_to host prefix other.node_id metric

  unfoldable pub remove_route_between : List ℕ → List ℕ → List ℕ → Result RemoveCommand
  unfolding remove_route_to
  remove_route_between node_name prefix other_name =
      or_fail (find node_name) null_pointer >>= λ host.
      or_fail (find other_name) null_pointer >>= λ other. remove_route_to host prefix other.node_id

returned-undo :
    (r : Result Command) → returned (r >>= λ c. ok (undo c)) ≡ map_option undo (returned r)
returned-undo (ok c) = refl
returned-undo (err e) = refl

module _ (get : List FaceEntry → ℕ → Option FaceEntry) (prefix : List ℕ) (metric : ℕ) where
  remove_route_by_id_lem :
      (host : Host) (id : ℕ)
      → remove_route_by_id get host prefix id
        ≡ (add_route_by_id get host prefix id metric >>= λ c. ok (undo c))
  unfolding remove_route_by_id add_route_by_id get_face_by_id add_route
  remove_route_by_id_lem host id = elim (Option-cases host.table) [
    | inl t ↦ rw t refl
    | inr (table, t) ↦ elim (Option-cases (get table id)) [
      | inl g ↦ rw (t, g) refl
      | inr (entry, g) ↦ rw (t, g) refl
    ]
  ]

  remove_route_of_lem :
      (find : List ℕ → Option Host) (node_name : List ℕ) (id : ℕ)
      → returned (remove_route_of get find node_name prefix id)
        ≡ map_option undo (returned (add_route_of get find node_name prefix id metric))
  unfolding remove_route_of add_route_of
  remove_route_of_lem find node_name id = elim (Option-cases (find node_name)) [
    | inl f ↦ rw f refl
    | inr (host, f) ↦ rw (f, remove_route_by_id_lem host id) (returned-undo _)
  ]

module _ (find : List ℕ → Option Host) (node_name prefix other_name : List ℕ) (metric : ℕ) where
  remove_route_between_lem :
      returned (remove_route_between find node_name prefix other_name)
      ≡ map_option undo (returned (add_route_between find node_name prefix other_name metric))
  unfolding remove_route_between add_route_between
  remove_route_between_lem = elim (Option-cases (find node_name)) [
    | inl f ↦ rw f refl
    | inr (host, f) ↦ elim (Option-cases (find other_name)) [
      | inl g ↦ rw (f, g) refl
      | inr (other, g) ↦
          rw (f, g, remove_route_to_lem host prefix other.node_id metric) (returned-undo _)
    ]
  ]

-- For a node, and for the number of a face, RemoveRoute ends as AddRoute does, errors included, and
-- removes the nexthop that AddRoute adds, of the same node, face and name, whatever the metric. For
-- nodes given by their names, RemoveRoute returns exactly where AddRoute does, with that nexthop.
pub remove_routes_lem :
    (get : List FaceEntry → ℕ → Option FaceEntry) (find : List ℕ → Option Host) (host : Host)
    (node_name other_name prefix : List ℕ) (other id metric : ℕ)
    → (remove_route_to host prefix other
        ≡ (add_route_to host prefix other metric >>= λ c. ok (undo c)))
      × (remove_route_by_id get host prefix id
          ≡ (add_route_by_id get host prefix id metric >>= λ c. ok (undo c)))
      × (returned (remove_route_of get find node_name prefix id)
          ≡ map_option undo (returned (add_route_of get find node_name prefix id metric)))
      × (returned (remove_route_between find node_name prefix other_name)
          ≡ map_option undo (returned (add_route_between find node_name prefix other_name metric)))
remove_routes_lem get find host node_name other_name prefix other id metric = (
  remove_route_to_lem host prefix other metric,
  remove_route_by_id_lem get prefix metric host id,
  remove_route_of_lem get prefix metric find node_name id,
  remove_route_between_lem find node_name prefix other_name metric,
)
