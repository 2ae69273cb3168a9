-- ===== src/Routing/Install/Described.antt =====
-- helper/ndn-global-routing-helper.cpp, Install: the links that a node or a channel should get, and
-- the loops as one loop over them.
use ndn_sim.Prelude.{
  ℕ, ◌≡◌, refl, sym, ap, ◌∙◌, List, [], ◌∷◌, ◌++◌, Option, none, some, length, ◌==◌, if◌then◌else◌,
  Result, ok, assertion, ◌>>=◌, or_fail, >>=_cong, >>=_assoc, >>=_one, Bool-cases, inl, inr,
}
use ndn_sim.Routing.Network.{Incidency, Network}
use ndn_sim.Routing.Install.{
  Transport, foreign, over_device, Port, Place, a_node, a_channel, Simulation, devices_of, add_link,
  link_sides, link_over, link_port, link_ports, link_owners,
}

-- A link by its face and the node or channel it leads to.
abbrev pub End : Type 0
End = Option ℕ × Option ℕ

module _ (sim : Simulation) where
  -- The ends at the devices of a channel other than `device`.
  abbrev pub far_ends : Option ℕ → ℕ → List ℕ → List End
  far_ends face device [] = []
  far_ends face device (d ∷ ds) =
      let rest = far_ends face device ds in
      if device == d then rest else (face, sim.owner_of d) ∷ rest

  abbrev pub channel_ends : List ℕ → List End
  channel_ends [] = []
  channel_ends (d ∷ ds) = (none, sim.owner_of d) ∷ channel_ends ds

  abbrev pub device_ends : ℕ → ℕ → Option ℕ → List End
  device_ends face device none = []
  device_ends face device (some ch) =
      if length (devices_of (sim.place ch)) == 2
      then far_ends (some face) device (devices_of (sim.place ch))
      else ((some face, some ch) ∷ [])

  abbrev pub port_ends : ℕ → Transport → List End
  port_ends face foreign = []
  port_ends face (over_device none) = []
  port_ends face (over_device (some device)) = device_ends face device (sim.channel_of device)

  abbrev pub table_ends : List Port → List End
  table_ends [] = []
  table_ends (port ∷ ports) = port_ends port.face port.transport ++ table_ends ports

  abbrev pub place_ends : Place → List End
  place_ends (a_node none) = []
  place_ends (a_node (some ports)) = table_ends ports
  place_ends (a_channel devices) = channel_ends devices

  -- The links that the router with this key should get.
  abbrev pub ends_of : ℕ → List End
  ends_of key = place_ends (sim.place key)

abbrev pub incidencies : ℕ → List End → List Incidency
incidencies own [] = []
incidencies own ((face, none) ∷ es) = incidencies own es
incidencies own ((face, some other) ∷ es) =
    record { own = own; face = face; other = other } ∷ incidencies own es

module _ (install_other : ℕ → Network → Result Network) (own : ℕ) where
  unfoldable pub link_all : List End → Network → Result Network
  link_all [] net = ok net
  link_all ((face, other) ∷ es) net =
      or_fail other assertion >>= λ o. add_link install_other own face o net >>= λ m. link_all es m

  link_all_append :
      (es fs : List End) (net : Network)
      → link_all (es ++ fs) net ≡ (link_all es net >>= λ m. link_all fs m)
  unfolding link_all
  link_all_append [] fs net = refl
  link_all_append ((face, none) ∷ es) fs net = refl
  link_all_append ((face, some o) ∷ es) fs net =
      >>=_cong (add_link install_other own face o net) (λ m. link_all_append es fs m)
      ∙ sym (>>=_assoc (add_link install_other own face o net) (link_all es) (link_all fs))

module _ (sim : Simulation) (install_other : ℕ → Network → Result Network) (own : ℕ) where
  link_sides_lem :
      (face : Option ℕ) (device : ℕ) (ds : List ℕ) (net : Network)
      → link_sides sim install_other own face device ds net
        ≡ link_all install_other own (far_ends sim face device ds) net
  unfolding link_sides link_all
  link_sides_lem face device [] net = refl
  link_sides_lem face device (d ∷ ds) net = elim (Bool-cases (device == d)) [
    | inl e ↦ rw e (link_sides_lem face device ds net)
    | inr n ↦ rw n (
        >>=_cong (or_fail (sim.owner_of d) assertion)
          λ o. >>=_cong (add_link install_other own face o net) (link_sides_lem face device ds))
  ]

  link_over_lem :
      (face device : ℕ) (channel : Option ℕ) (net : Network)
      → link_over sim install_other own face device channel net
        ≡ link_all install_other own (device_ends sim face device channel) net
  unfolding link_over link_all
  link_over_lem face device none net = refl
  link_over_lem face device (some ch) net =
      elim (Bool-cases (length (devices_of (sim.place ch)) == 2)) [
        | inl two ↦
            rw (link_over, two) (link_sides_lem (some face) device (devices_of (sim.place ch)) net)
        | inr n ↦ rw (link_over, n) (>>=_one (add_link install_other own (some face) ch net))
      ]

  link_port_lem :
      (face : ℕ) (transport : Transport) (net : Network)
      → link_port sim install_other own face transport net
        ≡ link_all install_other own (port_ends sim face transport) net
  unfolding link_port link_all
  link_port_lem face foreign net = refl
  link_port_lem face (over_device none) net = refl
  link_port_lem face (over_device (some device)) net =
      link_over_lem face device (sim.channel_of device) net

  -- The loop over the faces makes the links at the ends of the table.
  pub link_ports_lem :
      (ports : List Port) (net : Network)
      → link_ports sim install_other own ports net
        ≡ link_all install_other own (table_ends sim ports) net
  unfolding link_ports link_all
  link_ports_lem [] net = refl
  link_ports_lem (port ∷ ports) net =
      ap (λ r. r >>= link_ports sim install_other own ports)
        (link_port_lem port.face port.transport net)
      ∙ (>>=_cong (link_all install_other own (port_ends sim port.face port.transport) net)
            (link_ports_lem ports)
          ∙ sym (link_all_append install_other own _ (table_ends sim ports) net))

  pub link_owners_lem :
      (ds : List ℕ) (net : Network)
      → link_owners sim install_other own ds net
        ≡ link_all install_other own (channel_ends sim ds) net
  unfolding link_owners link_all
  link_owners_lem [] net = refl
  link_owners_lem (d ∷ ds) net =
      >>=_cong (or_fail (sim.owner_of d) assertion)
        λ o. >>=_cong (add_link install_other own none o net) (link_owners_lem ds)
