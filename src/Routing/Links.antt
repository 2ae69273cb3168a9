-- ===== src/Routing/Links.antt =====
-- helper/ndn-fib-helper.cpp: AddRoute and RemoveRoute for a face, and for a node at the other end of
-- a link, with getFaceByNetDevice of model/ndn-l3-protocol.cpp. The devices and channels are those
-- of NS-3; nodes and devices are keys.
pub mod Undo
pub mod Found
pub mod Named
use ndn_sim.Prelude.{
  ℕ, ◌≡◌, Bool, true, false, ◌||◌, List, [], ◌∷◌, Option, none, some, ◌==◌, if◌then◌else◌, Result,
  err, ok, abort, assertion, ◌>>=◌, or_fail,
}
use ndn_sim.Routing.Routes.{Command, add_route}

-- `channel` holds the nodes of the two devices of a channel.
pub record Device : Type 0 where
  pub key : ℕ
  pub p2p : Bool
  pub channel : Option (ℕ × ℕ)

-- A face, with the device if its transport is a NetDeviceTransport.
pub record FaceEntry : Type 0 where
  pub face_id : ℕ
  pub net_device : Option ℕ

-- A node, with the face table of its L3Protocol if it has one.
pub record Host : Type 0 where
  pub node_id : ℕ
  pub devices : List Device
  pub table : Option (List FaceEntry)

-- L3Protocol::getFaceByNetDevice
unfoldable pub get_face_by_net_device : ℕ → List FaceEntry → Option ℕ
get_face_by_net_device device [] = none
get_face_by_net_device device (entry ∷ entries) =
    let rest = get_face_by_net_device device entries in
    elim entry.net_device [
      | none ↦ rest
      | some d ↦ if d == device then some entry.face_id else rest
    ]

-- The command "remove-nexthop" of a node.
pub record RemoveCommand : Type 0 where
  pub node : ℕ
  pub name : List ℕ
  pub face_id : ℕ

-- FibHelper::RemoveRoute for a face
abbrev pub remove_route : ℕ → List ℕ → ℕ → RemoveCommand
remove_route node prefix face = record { node = node; name = prefix; face_id = face }

-- The test of a channel, by its nodes.
abbrev pub connects : ℕ → ℕ × ℕ → Bool
connects other (a, b) = (a == other) || (b == other)

module _ (host : Host) (prefix : List ℕ) where
  -- The loop of AddRoute for a node. The metric, an int32_t, is modulo 2 ^ 32.
  unfoldable pub add_route_by : List Device → ℕ → ℕ → Result Command
  add_route_by [] other metric = err abort
  add_route_by (device ∷ devices) other metric =
      let rest = add_route_by devices other metric in
      if device.p2p
      then elim device.channel [
        | none ↦ rest
        | some channel ↦
            if connects other channel
            then (or_fail host.table assertion >>= λ table.
                or_fail (get_face_by_net_device device.key table) assertion >>= λ face.
                ok (add_route host.node_id prefix face metric))
            else rest
      ]
      else rest

  -- The loop of RemoveRoute for a node.
  unfoldable pub remove_route_by : List Device → ℕ → Result RemoveCommand
  remove_route_by [] other = err abort
  remove_route_by (device ∷ devices) other =
      let rest = remove_route_by devices other in
      if device.p2p
      then elim device.channel [
        | none ↦ rest
        | some channel ↦
            if connects other channel
            then (or_fail host.table assertion >>= λ table.
                or_fail (get_face_by_net_device device.key table) assertion >>= λ face.
                ok (remove_route host.node_id prefix face))
            else rest
      ]
      else rest

-- FibHelper::AddRoute and RemoveRoute for a node
unfoldable pub add_route_to : Host → List ℕ → ℕ → ℕ → Result Command
unfolding add_route_by
add_route_to host prefix other metric = add_route_by host prefix host.devices other metric

unfoldable pub remove_route_to : Host → List ℕ → ℕ → Result RemoveCommand
unfolding remove_route_by
remove_route_to host prefix other = remove_route_by host prefix host.devices other
