-- ===== src/Routing/Install.antt =====
-- helper/ndn-global-routing-helper.cpp: Install for a node and for a channel, for several nodes and
-- for all. Nodes, channels and devices are those of NS-3. A key stands for a node or a channel, and
-- for the router that is aggregated to it; `lookup` of a key in `routers` is GetObject<GlobalRouter>.
pub mod Described
pub mod Grown
pub mod Linked
pub mod Whole
use ndn_sim.Prelude.{
  ℕ, zero, suc, Bool, true, false, List, [], ◌∷◌, Option, none, some, length, map, ◌==◌,
  if◌then◌else◌, Result, ok, err, assertion, no_fuel, guard, ◌>>=◌, ◌>>◌, or_fail,
}
use ndn_sim.Prelude.AssocMap.{lookup}
use ndn_sim.Routing.Network.{Node, GlobalRouter, Network, new_router, add_incidency}

-- The transport of a face, with the device of a NetDeviceTransport.
pub data Transport : Type 0 where
  foreign : Transport
  over_device : Option ℕ → Transport

pub record Port : Type 0 where
  pub face : ℕ
  pub transport : Transport

-- A node with the face table of its L3Protocol, if it has one; a channel with its devices.
pub data Place : Type 0 where
  a_node : Option (List Port) → Place
  a_channel : List ℕ → Place

-- What the simulator knows of a key, and the channel and the node of a device.
pub record Simulation : Type 0 where
  pub place : ℕ → Place
  pub channel_of : ℕ → Option ℕ
  pub owner_of : ℕ → Option ℕ

abbrev pub devices_of : Place → List ℕ
devices_of (a_node table) = []
devices_of (a_channel devices) = devices

-- The test of a pointer to a router.
abbrev pub is_set : Option GlobalRouter → Bool
is_set none = false
is_set (some gr) = true

unfoldable pub is_routed : ℕ → Network → Bool
is_routed key net = is_set (lookup key net.routers)

-- AggregateObject, for the node with this key
abbrev pub aggregate : ℕ → Node → Node
aggregate key node = if node.node_id == key then record node { router = some key } else node

-- CreateObject<GlobalRouter> and AggregateObject
unfoldable pub create : ℕ → Option ℕ → Network → Network
unfolding new_router
create key node net =
    let (gr, net') = new_router node net in
    record net' { routers = (key, gr) ∷ net'.routers; nodes = map (aggregate key) net'.nodes }

-- The router at the other end is installed where it is missing, by `install_other`, and linked. A
-- null pointer to it fails here; the source has the assertion for nodes.
unfoldable pub add_link :
    (ℕ → Network → Result Network) → ℕ → Option ℕ → ℕ → Network → Result Network
unfolding is_routed add_incidency
add_link install_other own face other net =
    elim (is_routed other net) [ true ↦ ok net | false ↦ install_other other net ] >>= λ net'.
    guard (is_routed other net') assertion >> ok (add_incidency own face other net')

module _ (sim : Simulation) (install_other : ℕ → Network → Result Network) (own : ℕ) where
  -- The loop over the two devices of a channel.
  unfoldable pub link_sides : Option ℕ → ℕ → List ℕ → Network → Result Network
  unfolding add_link
  link_sides face device [] net = ok net
  link_sides face device (d ∷ ds) net =
      let rest = link_sides face device ds in
      if device == d
      then rest net
      else (or_fail (sim.owner_of d) assertion >>= λ other.
          add_link install_other own face other net >>= rest)

  -- A face with a device, by the channel of the device.
  unfoldable pub link_over : ℕ → ℕ → Option ℕ → Network → Result Network
  unfolding link_sides add_link
  link_over face device none net = ok net
  link_over face device (some ch) net =
      if length (devices_of (sim.place ch)) == 2
      then link_sides (some face) device (devices_of (sim.place ch)) net
      else add_link install_other own (some face) ch net

  unfoldable pub link_port : ℕ → Transport → Network → Result Network
  unfolding link_over
  link_port face foreign net = ok net
  link_port face (over_device none) net = ok net
  link_port face (over_device (some device)) net = link_over face device (sim.channel_of device) net

  unfoldable pub link_ports : List Port → Network → Result Network
  unfolding link_port
  link_ports [] net = ok net
  link_ports (port ∷ ports) net =
      link_port port.face port.transport net >>= λ net'. link_ports ports net'

  -- The loop over the devices of a channel that has a router of its own.
  unfoldable pub link_owners : List ℕ → Network → Result Network
  unfolding add_link
  link_owners [] net = ok net
  link_owners (d ∷ ds) net = or_fail (sim.owner_of d) assertion >>= λ other.
      add_link install_other own none other net >>= λ net'. link_owners ds net'

-- Install for a node, and for a channel, with what Install does at the other ends.
unfoldable pub install_place :
    Simulation → (ℕ → Network → Result Network) → ℕ → Place → Network → Result Network
unfolding is_routed create link_ports link_owners
install_place sim install_other key (a_node table) net = or_fail table assertion >>= λ ports.
    elim (is_routed key net) [
      | true ↦ ok net
      | false ↦ link_ports sim install_other key ports (create key (some key) net)
    ]
install_place sim install_other key (a_channel devices) net = elim (is_routed key net) [
  | true ↦ ok net
  | false ↦ link_owners sim install_other key devices (create key none net)
]

-- The fuel bounds the depth of the calls.
unfoldable pub install : Simulation → ℕ → ℕ → Network → Result Network
unfolding install_place
install sim zero key net = err no_fuel
install sim (suc fuel) key net = install_place sim (install sim fuel) key (sim.place key) net

-- Install for several nodes
unfoldable pub install_each : Simulation → ℕ → List ℕ → Network → Result Network
unfolding install
install_each sim fuel [] net = ok net
install_each sim fuel (key ∷ keys) net =
    install sim fuel key net >>= λ net'. install_each sim fuel keys net'

-- GlobalRoutingHelper::InstallAll
unfoldable pub install_routers : Simulation → ℕ → Network → Result Network
unfolding install_each
install_routers sim fuel net = install_each sim fuel (map (λ node. node.node_id) net.nodes) net
