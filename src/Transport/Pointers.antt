-- ===== src/Transport/Pointers.antt =====
-- The pointers of a network, and what each write of `AddLine` does to them.
use learncppthroughprojects.Prelude.{
  ℕ, ◌&&◌, Option, none, some, List, [], ◌∷◌, ◌++◌, Text, ◌≡◌, ◌⊎◌, inl, inr, refl, arith, length,
  if◌then◌else◌, ◌==◌, eq_iff, text_eq, nat_eq, Option-cases,
}
use learncppthroughprojects.Map.{lookup, lookup-insert}
use learncppthroughprojects.Transport.Types.{RouteEdge, StationNode, TransportNetwork}
use learncppthroughprojects.Transport.Edge.{new_edge}
use learncppthroughprojects.Transport.Node.{get_or_make_edge, add_incoming_edge, get_edge}
use learncppthroughprojects.Transport.Network.{
  get_station_node, put_node, put_edge, make_edge, edge_pointer,
}

-- The edge that station `b` keeps as coming in from `a`.
unfoldable pub incoming_pointer : Text → Text → TransportNetwork → Option ℕ
incoming_pointer a b n = elim (get_station_node b n) [
  | none ↦ none
  | some node ↦ lookup a node.from_station_id_to_edge
]

pub get_station_node-put_node :
    (k j : Text) (node : StationNode) (n : TransportNetwork)
    → get_station_node j (put_node k node n) ≡ (if k == j then some node else get_station_node j n)
unfolding get_station_node put_node
get_station_node-put_node k j node n = lookup-insert k j node n.station_id_to_node

get_edge-get_or_make_edge :
    (cur b : Text) (node : StationNode) (edges : List RouteEdge)
    → get_edge b (get_or_make_edge cur node edges).1
      ≡ (if cur == b then some (get_or_make_edge cur node edges).0 else get_edge b node)
unfolding get_or_make_edge get_edge
get_edge-get_or_make_edge cur b node edges =
    ground (arith, lookup-insert cur b (length edges) node.to_station_id_to_edge, eq_iff cur b)

get_or_make_edge-rest :
    (cur : Text) (node : StationNode) (edges : List RouteEdge)
    → ((get_or_make_edge cur node edges).1.from_station_id_to_edge ≡ node.from_station_id_to_edge)
      × ((get_or_make_edge cur node edges).1.passengers ≡ node.passengers)
unfolding get_or_make_edge
get_or_make_edge-rest cur node edges = (ground arith, ground arith)

module _ (prev cur : Text) (node : StationNode) (n : TransportNetwork)
    (found : get_station_node prev n ≡ some node) where
  -- The pointer that `GetOrMakeEdge` returns: an old one, or a new one to a fresh edge.
  pub make_edge-cases :
      ((edge_pointer prev cur n ≡ some (make_edge prev cur node n).0)
        × ((make_edge prev cur node n).1.edges ≡ n.edges))
      ⊎ ((edge_pointer prev cur n ≡ none)
          × ((make_edge prev cur node n).0 ≡ length n.edges)
          × ((make_edge prev cur node n).1.edges ≡ n.edges ++ new_edge ∷ []))
  unfolding make_edge get_or_make_edge edge_pointer get_edge put_node
  make_edge-cases = elim (Option-cases (lookup cur node.to_station_id_to_edge)) [
    | inl e ↦ inr (ground arith, ground arith, ground arith)
    | inr (p, e) ↦ inl (ground arith, ground arith)
  ]

  pub edge_pointer-make_edge :
      (a b : Text)
      → edge_pointer a b (make_edge prev cur node n).1
        ≡ (if prev == a && cur == b then some (make_edge prev cur node n).0 else edge_pointer a b n)
  unfolding make_edge edge_pointer get_station_node
  edge_pointer-make_edge a b =
      let made = get_or_make_edge cur node n.edges in
      ground (
        arith,
        get_station_node-put_node prev a made.1 (record n { edges = made.2 }),
        get_edge-get_or_make_edge cur b node n.edges,
        eq_iff prev a,
        found,
      )

  pub incoming_pointer-make_edge :
      (a b : Text) → incoming_pointer a b (make_edge prev cur node n).1 ≡ incoming_pointer a b n
  unfolding make_edge incoming_pointer get_station_node
  incoming_pointer-make_edge a b =
      let made = get_or_make_edge cur node n.edges in
      ground (
        arith,
        get_station_node-put_node prev b made.1 (record n { edges = made.2 }),
        get_or_make_edge-rest cur node n.edges,
        eq_iff prev b,
        found,
      )

module _ (p : ℕ) (e : RouteEdge) (n : TransportNetwork) where
  pub edge_pointer-put_edge : (a b : Text) → edge_pointer a b (put_edge p e n) ≡ edge_pointer a b n
  unfolding edge_pointer put_edge get_station_node
  edge_pointer-put_edge a b = refl

  pub incoming_pointer-put_edge :
      (a b : Text) → incoming_pointer a b (put_edge p e n) ≡ incoming_pointer a b n
  unfolding incoming_pointer put_edge get_station_node
  incoming_pointer-put_edge a b = refl

-- `AddIncomingEdge` at a station that has no edge from `prev`, or has this one.
add_incoming_edge_lem :
    (prev a : Text) (p : ℕ) (node : StationNode)
    → ((lookup prev node.from_station_id_to_edge ≡ none)
        ⊎ (lookup prev node.from_station_id_to_edge ≡ some p))
    → (lookup a (add_incoming_edge prev p node).1.from_station_id_to_edge
        ≡ (if prev == a then some p else lookup a node.from_station_id_to_edge))
      × ((add_incoming_edge prev p node).1.to_station_id_to_edge ≡ node.to_station_id_to_edge)
      × ((add_incoming_edge prev p node).1.passengers ≡ node.passengers)
unfolding add_incoming_edge
add_incoming_edge_lem prev a p node h =
    let stored = lookup-insert prev a p node.from_station_id_to_edge in
    (ground (arith, stored), ground arith, ground arith)

-- The network after `AddIncomingEdge` on the node of `cur`.
abbrev pub received : Text → Text → ℕ → StationNode → TransportNetwork → TransportNetwork
received prev cur p node n = put_node cur (add_incoming_edge prev p node).1 n

module _ (prev cur : Text) (p : ℕ) (node : StationNode) (n : TransportNetwork)
    (found : get_station_node cur n ≡ some node)
    (free : (incoming_pointer prev cur n ≡ none) ⊎ (incoming_pointer prev cur n ≡ some p)) where
  free_at :
      (lookup prev node.from_station_id_to_edge ≡ none)
      ⊎ (lookup prev node.from_station_id_to_edge ≡ some p)
  unfolding incoming_pointer
  free_at = ground (arith, found)

  pub edge_pointer-received :
      (a b : Text) → edge_pointer a b (received prev cur p node n) ≡ edge_pointer a b n
  unfolding edge_pointer get_edge
  edge_pointer-received a b = ground (
    arith,
    get_station_node-put_node cur a (add_incoming_edge prev p node).1 n,
    add_incoming_edge_lem prev a p node free_at,
    eq_iff cur a,
    found,
  )

  pub incoming_pointer-received :
      (a b : Text)
      → incoming_pointer a b (received prev cur p node n)
        ≡ (if prev == a && cur == b then some p else incoming_pointer a b n)
  unfolding incoming_pointer
  incoming_pointer-received a b = ground (
    arith,
    get_station_node-put_node cur b (add_incoming_edge prev p node).1 n,
    add_incoming_edge_lem prev a p node free_at,
    eq_iff cur b,
    found,
  )
