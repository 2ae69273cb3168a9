-- ===== src/Tests/Simulations.antt =====
-- Three nodes without routers: 0 and 1 are joined by the channel 10, of their devices 100 and 101,
-- and all of them by the channel 11, of the devices 110, 111 and 112.
use ndn_sim.Prelude.{
  ℕ, ◌≡◌, refl, sym, List, [], ◌∷◌, Option, none, some, Result, ok, ◌>>=◌, All, subst,
}
use ndn_sim.Prelude.AssocMap.{lookup, map_option}
use mathlib.Core.List.{Memᴰ}
use ndn_sim.Routing.Network.{Incidency, Node, Network}
use ndn_sim.Routing.Install.{
  foreign, over_device, Place, a_node, a_channel, Simulation, install_routers,
}
use ndn_sim.Routing.Install.Described.{ends_of}
use ndn_sim.Routing.Install.Linked.{IsEnd}
use ndn_sim.Routing.Install.Whole.{HasStack, AreClosed}

abbrev places : List (ℕ × Place)
places =
    (
      0,
      a_node (
          some (
            record { face = 1; transport = foreign }
            ∷ record { face = 2; transport = over_device (some 100) }
            ∷ record { face = 3; transport = over_device (some 110) }
            ∷ [])),
    )
    ∷ (
      1,
      a_node (
          some (
            record { face = 4; transport = over_device (some 101) }
            ∷ record { face = 5; transport = over_device (some 111) }
            ∷ [])),
    )
    ∷ (
      2,
      a_node (
          some (
            record { face = 6; transport = over_device none }
            ∷ record { face = 7; transport = over_device (some 112) }
            ∷ [])),
    )
    ∷ (10, a_channel (100 ∷ 101 ∷ []))
    ∷ (11, a_channel (110 ∷ 111 ∷ 112 ∷ []))
    ∷ []

-- A key that is not used stands for a node without a stack.
abbrev or_no_stack : Option Place → Place
or_no_stack none = a_node none
or_no_stack (some p) = p

abbrev channels : List (ℕ × ℕ)
channels = (100, 10) ∷ (101, 10) ∷ (110, 11) ∷ (111, 11) ∷ (112, 11) ∷ []

abbrev owners : List (ℕ × ℕ)
owners = (100, 0) ∷ (101, 1) ∷ (110, 0) ∷ (111, 1) ∷ (112, 2) ∷ []

abbrev pub three_nodes : Simulation
three_nodes = record {
  place = λ key. or_no_stack (lookup key places);
  channel_of = λ device. lookup device channels;
  owner_of = λ device. lookup device owners;
}

abbrev bare_node : ℕ → Node
bare_node key = record { node_id = key; name = []; router = none; face_table = [] }

abbrev pub bare_network : Network
bare_network = record {
  id_counter = 0;
  nodes = bare_node 0 ∷ bare_node 1 ∷ bare_node 2 ∷ [];
  routers = [];
  faces = [];
}

abbrev pub all_places : List ℕ
all_places = 0 ∷ 1 ∷ 2 ∷ 11 ∷ []

abbrev IsClosedAt : ℕ → Type 0
IsClosedAt key = HasStack (three_nodes.place key) × All (IsEnd all_places) (ends_of three_nodes key)

All-mem : {A : Type 0} (P : A → Type 0) (xs : List A) (x : A) → All P xs → Memᴰ x xs → P x
All-mem P [] x a m = elim m [ ]
All-mem P (y ∷ xs) x a (Memᴰ.head e) = subst P (sym e) a.0
All-mem P (y ∷ xs) x a (Memᴰ.tail m) = All-mem P xs x a.1 m

abbrev m0 : Memᴰ 0 all_places
m0 = Memᴰ.head refl

abbrev m1 : Memᴰ 1 all_places
m1 = Memᴰ.tail (Memᴰ.head refl)

abbrev m2 : Memᴰ 2 all_places
m2 = Memᴰ.tail (Memᴰ.tail (Memᴰ.head refl))

abbrev m3 : Memᴰ 11 all_places
m3 = Memᴰ.tail (Memᴰ.tail (Memᴰ.tail (Memᴰ.head refl)))

pub bare_network-known : All (λ key. Memᴰ key all_places) (0 ∷ 1 ∷ 2 ∷ [])
bare_network-known = (m0, (m1, (m2, tt)))

closed_each : All IsClosedAt all_places
closed_each = (
  (tt, ((1, refl, m1), ((11, refl, m3), tt))),
  (
    (tt, ((0, refl, m0), ((11, refl, m3), tt))),
    ((tt, ((11, refl, m3), tt)), ((tt, ((0, refl, m0), ((1, refl, m1), ((2, refl, m2), tt)))), tt)),
  ),
)

pub three_nodes-AreClosed : AreClosed three_nodes all_places
three_nodes-AreClosed key m = All-mem IsClosedAt all_places key closed_each m

abbrev faces_and_ends : List Incidency → List (Option ℕ × ℕ)
faces_and_ends [] = []
faces_and_ends (i ∷ is) = (i.face, i.other) ∷ faces_and_ends is

-- The links of the router with a key, by face and end, in the order in which they are made.
abbrev links_at : ℕ → Network → Option (List (Option ℕ × ℕ))
links_at key net = map_option (λ gr. faces_and_ends gr.incidencies) (lookup key net.routers)

abbrev links_after : ℕ → Result (Option (List (Option ℕ × ℕ)))
links_after key = install_routers three_nodes 5 bare_network >>= λ net. ok (links_at key net)

-- The channel that joins two nodes gets no router, the other one does.
installed_at_0 : links_after 0 ≡ ok (some ((some 2, 1) ∷ (some 3, 11) ∷ []))
unfolding install_routers
installed_at_0 = refl

installed_at_10 : links_after 10 ≡ ok none
unfolding install_routers
installed_at_10 = refl

installed_at_11 : links_after 11 ≡ ok (some ((none, 0) ∷ (none, 1) ∷ (none, 2) ∷ []))
unfolding install_routers
installed_at_11 = refl
