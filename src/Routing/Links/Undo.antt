-- ===== src/Routing/Links/Undo.antt =====
-- helper/ndn-fib-helper.cpp: RemoveRoute for a node, compared with AddRoute.
use ndn_sim.Prelude.{ℕ, ◌≡◌, refl, List, [], ◌∷◌, ok, ◌>>=◌, Option-cases, Bool-cases, inl, inr}
use ndn_sim.Routing.Routes.{Command, add_route}
use ndn_sim.Routing.Links.{
  Device, Host, RemoveCommand, remove_route, connects, get_face_by_net_device, add_route_by,
  remove_route_by, add_route_to, remove_route_to,
}

abbrev pub undo : Command → RemoveCommand
undo c = remove_route c.node c.name c.face_id

module _ (host : Host) (prefix : List ℕ) (other metric : ℕ) where
  remove_route_by_lem :
      (devices : List Device)
      → remove_route_by host prefix devices other
        ≡ (add_route_by host prefix devices other metric >>= λ c. ok (undo c))
  unfolding add_route_by remove_route_by add_route
  remove_route_by_lem [] = refl
  remove_route_by_lem (device ∷ devices) = elim (Bool-cases device.p2p) [
    | inr p ↦ rw p (remove_route_by_lem devices)
    | inl p ↦ elim (Option-cases device.channel) [
      | inl e ↦ rw (p, e) (remove_route_by_lem devices)
      | inr (channel, e) ↦ elim (Bool-cases (connects other channel)) [
        | inr c ↦ rw (p, e, c) (remove_route_by_lem devices)
        | inl c ↦ elim (Option-cases host.table) [
          | inl t ↦ rw (p, e, c, t) refl
          | inr (table, t) ↦ elim (Option-cases (get_face_by_net_device device.key table)) [
            | inl f ↦ rw (p, e, c, t, f) refl
            | inr (face, f) ↦ rw (p, e, c, t, f) refl
          ]
        ]
      ]
    ]
  ]

  -- RemoveRoute for a node ends as AddRoute for it does, errors included, and removes the face that
  -- AddRoute adds, of the same node and under the same name, whatever the metric.
  pub remove_route_to_lem :
      remove_route_to host prefix other
      ≡ (add_route_to host prefix other metric >>= λ c. ok (undo c))
  unfolding add_route_to remove_route_to
  remove_route_to_lem = remove_route_by_lem host.devices
