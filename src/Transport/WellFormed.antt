-- ===== src/Transport/WellFormed.antt =====
-- The invariant of the pointers, kept by every operation.
use learncppthroughprojects.Prelude.{
  ℕ, ◌<◌, true, ◌&&◌, none, some, [], ◌∷◌, Text, ◌≡◌, ◌⊎◌, refl, elem, arith, length, length-append,
  length-set, if◌then◌else◌, ◌==◌, eq_iff, text_eq,
}
use learncppthroughprojects.Map.{lookup}
use learncppthroughprojects.Transport.Types.{RouteEdge, StationNode, TransportNetwork}
use learncppthroughprojects.Transport.Edge.{has_route, routes_of_line, add_route, new_edge}
use learncppthroughprojects.Transport.Network.{
  get_station_node, put_node, put_edge, make_edge, edge_pointer,
}
use learncppthroughprojects.Transport.Pointers.{
  incoming_pointer, make_edge-cases, edge_pointer-make_edge, incoming_pointer-make_edge,
  edge_pointer-received, incoming_pointer-received, received,
}

-- Every pointer is to an edge that was made; two pairs of stations never share an edge; and a
-- station keeps as coming in from another exactly the edge that the other keeps as going out to it.
pub record IsWellFormed (n : TransportNetwork) : Type 0 where
  pub bounded : (a b : Text) (p : ℕ) → edge_pointer a b n ≡ some p → p < length n.edges
  pub distinct :
      (a b c d : Text) (p : ℕ)
      → edge_pointer a b n ≡ some p
      → edge_pointer c d n ≡ some p
      → (a ≡ c) × (b ≡ d)
  pub mirrored : (a b : Text) → incoming_pointer a b n ≡ edge_pointer a b n

-- While `AddLine` is between its two writes, the edge from `prev` to `cur` may not be mirrored yet.
pub record IsHalfJoined (prev cur : Text) (p : ℕ) (n : TransportNetwork) : Type 0 where
  pub bounded : (a b : Text) (q : ℕ) → edge_pointer a b n ≡ some q → q < length n.edges
  pub distinct :
      (a b c d : Text) (q : ℕ)
      → edge_pointer a b n ≡ some q
      → edge_pointer c d n ≡ some q
      → (a ≡ c) × (b ≡ d)
  pub joined : edge_pointer prev cur n ≡ some p
  pub free : (incoming_pointer prev cur n ≡ none) ⊎ (incoming_pointer prev cur n ≡ some p)
  pub mirrored :
      (a b : Text)
      → edge_pointer a b n ≡ (if prev == a && cur == b then some p else incoming_pointer a b n)

module _ (prev cur : Text) (node : StationNode) (n : TransportNetwork)
    (found : get_station_node prev n ≡ some node) (w : IsWellFormed n) where
  pub make_edge-IsHalfJoined :
      IsHalfJoined prev cur (make_edge prev cur node n).0 (make_edge prev cur node n).1
  make_edge-IsHalfJoined = record {
    bounded = λ a b q h. ground (
      arith,
      make_edge-cases prev cur node n found,
      edge_pointer-make_edge prev cur node n found a b,
      w.bounded a b q,
      w.bounded prev cur q,
      length-append n.edges (new_edge ∷ []),
    );
    distinct = λ a b c d q h k. ground (
      arith,
      make_edge-cases prev cur node n found,
      edge_pointer-make_edge prev cur node n found a b,
      edge_pointer-make_edge prev cur node n found c d,
      w.distinct a b c d q,
      w.distinct a b prev cur q,
      w.distinct prev cur c d q,
      w.bounded a b q,
      w.bounded c d q,
      eq_iff prev a,
      eq_iff cur b,
      eq_iff prev c,
      eq_iff cur d,
    );
    joined = ground (
      arith,
      edge_pointer-make_edge prev cur node n found prev cur,
      eq_iff prev prev,
      eq_iff cur cur,
    );
    free = ground (
      arith,
      make_edge-cases prev cur node n found,
      incoming_pointer-make_edge prev cur node n found prev cur,
      w.mirrored prev cur,
    );
    mirrored = λ a b. ground (
      arith,
      edge_pointer-make_edge prev cur node n found a b,
      incoming_pointer-make_edge prev cur node n found a b,
      w.mirrored a b,
    );
  }

  -- Where the edge is an old one, nothing is half done.
  pub make_edge-IsWellFormed :
      edge_pointer prev cur n ≡ some (make_edge prev cur node n).0
      → (make_edge prev cur node n).1.edges ≡ n.edges
      → IsWellFormed (make_edge prev cur node n).1
  make_edge-IsWellFormed old same =
      let half = make_edge-IsHalfJoined in
      record {
        bounded = half.bounded;
        distinct = half.distinct;
        mirrored = λ a b. ground (
          arith,
          edge_pointer-make_edge prev cur node n found a b,
          incoming_pointer-make_edge prev cur node n found a b,
          w.mirrored a b,
          eq_iff prev a,
          eq_iff cur b,
        );
      }

pub put_edge-IsHalfJoined :
    (prev cur : Text) (p q : ℕ) (e : RouteEdge) (n : TransportNetwork)
    → IsHalfJoined prev cur p n
    → IsHalfJoined prev cur p (put_edge q e n)
unfolding put_edge edge_pointer incoming_pointer get_station_node
put_edge-IsHalfJoined prev cur p q e n h = record {
  bounded = λ a b r k. omega (arith, h.bounded a b r k, length-set n.edges q e);
  distinct = h.distinct;
  joined = h.joined;
  free = h.free;
  mirrored = h.mirrored;
}

pub put_edge-IsWellFormed :
    (q : ℕ) (e : RouteEdge) (n : TransportNetwork) → IsWellFormed n → IsWellFormed (put_edge q e n)
unfolding put_edge edge_pointer incoming_pointer get_station_node
put_edge-IsWellFormed q e n h = record {
  bounded = λ a b r k. omega (arith, h.bounded a b r k, length-set n.edges q e);
  distinct = h.distinct;
  mirrored = h.mirrored;
}

pub received-IsWellFormed :
    (prev cur : Text) (p : ℕ) (node : StationNode) (n : TransportNetwork)
    → get_station_node cur n ≡ some node
    → IsHalfJoined prev cur p n
    → IsWellFormed (received prev cur p node n)
unfolding put_node
received-IsWellFormed prev cur p node n found h =
    let out = edge_pointer-received prev cur p node n found h.free in
    let coming = incoming_pointer-received prev cur p node n found h.free in
    record {
      bounded = λ a b q k. ground (arith, out a b, h.bounded a b q);
      distinct = λ a b c d q k l. ground (arith, out a b, out c d, h.distinct a b c d q);
      mirrored = λ a b. ground (arith, out a b, coming a b, h.mirrored a b);
    }

-- A fresh edge takes any route.
pub add_route-new_edge : (route_id line_id : Text) → (add_route route_id line_id new_edge).0 ≡ true
unfolding add_route has_route routes_of_line lookup elem
add_route-new_edge route_id line_id = refl
