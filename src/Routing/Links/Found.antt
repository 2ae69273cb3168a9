-- ===== src/Routing/Links/Found.antt =====
-- helper/ndn-fib-helper.cpp: the link by which AddRoute for a node leads.
use ndn_sim.Prelude.{ℕ, ◌≡◌, true, List, some}
use mathlib.Core.List.{Memᴰ}
use ndn_sim.Routing.Routes.{Command}
use ndn_sim.Routing.Links.{Device, FaceEntry, connects, get_face_by_net_device}

-- The device is that of a point-to-point link to the other node.
pub record IsLink (other : ℕ) (device : Device) : Type 0 where
  pub point_to_point : device.p2p ≡ true
  pub ends : ℕ × ℕ
  pub joined : device.channel ≡ some ends
  pub leads : connects other ends ≡ true

-- The face of the route is that of a device of such a link.
pub record IsLinkRoute (other : ℕ) (devices : List Device) (table : List FaceEntry) (c : Command)
    : Type 0 where
  pub device : Device
  pub member : Memᴰ device devices
  pub link : IsLink other device
  pub entry : FaceEntry
  pub listed : Memᴰ entry table
  pub own : entry.net_device ≡ some device.key
  pub face : entry.face_id ≡ c.face_id

-- There is a face for the device.
abbrev pub IsAttached : List FaceEntry → Device → Type 0
IsAttached table device = (f : ℕ) × (get_face_by_net_device device.key table ≡ some f)
