-- ===== src/Transport/Carrying.antt =====
-- What `AddLine` puts on the edges, and that nothing takes it off again.
use learncppthroughprojects.Prelude.{
  ℕ, true, ◌&&◌, ◌||◌, some, [], ◌∷◌, ◌++◌, Text, ◌≡◌, inl, inr, ap, ◌∙◌, arith, get_elem?,
  get_elem?-append_lt, get_elem?-set_self, get_elem?-set_ne, lt_of_get_elem?, ◌==◌, eq_iff, text_eq,
  nat_eq, elem, elem-append, Option-cases, Bool-cases,
}
use learncppthroughprojects.Map.{lookup, lookup-insert}
use learncppthroughprojects.Transport.Types.{RouteEdge, StationNode, TransportNetwork}
use learncppthroughprojects.Transport.Edge.{new_edge, add_route, has_route, routes_of_line}
use learncppthroughprojects.Transport.Network.{
  get_station_node, put_node, put_edge, edge_pointer, make_edge,
}
use learncppthroughprojects.Transport.Pointers.{
  make_edge-cases, edge_pointer-make_edge, edge_pointer-put_edge, edge_pointer-received, received,
}
use learncppthroughprojects.Transport.WellFormed.{IsHalfJoined}

-- The edge from `a` to `b` is there and has the route.
pub record Carries (line_id r a b : Text) (n : TransportNetwork) : Type 0 where
  pub pointer : ℕ
  pub edge : RouteEdge
  pub out : edge_pointer a b n ≡ some pointer
  pub at : get_elem? n.edges pointer ≡ some edge
  pub carried : has_route line_id r edge ≡ true

-- `AddRoute` adds the route, and keeps those that were there.
pub add_route-has_route :
    (route_id line_id : Text) (e : RouteEdge) (l r : Text)
    → has_route l r (add_route route_id line_id e).1
      ≡ (has_route l r e || line_id == l && route_id == r)
unfolding add_route has_route routes_of_line elem
add_route-has_route route_id line_id e l r =
    elim (Option-cases (lookup line_id e.line_to_route_ids)) [
      | inl missing ↦ ground (
        arith,
        lookup-insert line_id l (route_id ∷ []) e.line_to_route_ids,
        eq_iff line_id l,
        eq_iff r route_id,
        eq_iff route_id r,
      )
      | inr (ids, found) ↦ ground (
        arith,
        lookup-insert line_id l (ids ++ route_id ∷ []) e.line_to_route_ids,
        eq_iff line_id l,
        eq_iff r route_id,
        eq_iff route_id r,
        elem-append r ids (route_id ∷ []),
      )
    ]

-- Pointers stay, and the edges behind them keep their routes.
pub record Grows (n n' : TransportNetwork) : Type 0 where
  pub keeps : (a b : Text) (p : ℕ) → edge_pointer a b n ≡ some p → edge_pointer a b n' ≡ some p
  pub carries :
      (p : ℕ) (e : RouteEdge)
      → get_elem? n.edges p ≡ some e
      → (e' : RouteEdge) × (get_elem? n'.edges p ≡ some e')
        × ((l r : Text) → has_route l r e ≡ true → has_route l r e' ≡ true)

pub Grows-refl : (n : TransportNetwork) → Grows n n
Grows-refl n = record { keeps = λ a b p h. h; carries = λ p e at. (e, at, λ l r h. h) }

pub Grows-trans : (n n1 n2 : TransportNetwork) → Grows n n1 → Grows n1 n2 → Grows n n2
Grows-trans n n1 n2 g h = record {
  keeps = λ a b p out. h.keeps a b p (g.keeps a b p out);
  carries = λ p e at.
      let (e1, at1, more1) = g.carries p e at in
      let (e2, at2, more2) = h.carries p e1 at1 in (e2, at2, λ l r has. more2 l r (more1 l r has));
}

pub Carries-Grows :
    (l r a b : Text) (n n' : TransportNetwork) → Grows n n' → Carries l r a b n → Carries l r a b n'
Carries-Grows l r a b n n' g c =
    let (e', at', more) = g.carries c.pointer c.edge c.at in
    record {
      pointer = c.pointer;
      edge = e';
      out = g.keeps a b c.pointer c.out;
      at = at';
      carried = more l r c.carried;
    }

pub make_edge-Grows :
    (prev cur : Text) (node : StationNode) (n : TransportNetwork)
    → get_station_node prev n ≡ some node
    → Grows n (make_edge prev cur node n).1
make_edge-Grows prev cur node n found = record {
  keeps = λ a b p h. ground (
    arith,
    edge_pointer-make_edge prev cur node n found a b,
    make_edge-cases prev cur node n found,
    eq_iff prev a,
    eq_iff cur b,
  );
  carries = λ p e at. (
    e,
    elim (make_edge-cases prev cur node n found) [
      | inl old ↦ ap (λ es. get_elem? es p) old.1 ∙ at
      | inr (_, _, grown) ↦
          ap (λ es. get_elem? es p) grown
          ∙ get_elem?-append_lt n.edges (new_edge ∷ []) p (lt_of_get_elem? n.edges p at)
          ∙ at
    ],
    λ l r h. h,
  );
}

pub put_edge-Grows :
    (route_id line_id : Text) (p : ℕ) (edge : RouteEdge) (n : TransportNetwork)
    → get_elem? n.edges p ≡ some edge
    → Grows n (put_edge p (add_route route_id line_id edge).1 n)
unfolding put_edge
put_edge-Grows route_id line_id p edge n there = record {
  keeps = λ a b q h. edge_pointer-put_edge p (add_route route_id line_id edge).1 n a b ∙ h;
  carries = λ q e at. elim (Bool-cases (p == q)) [
    | inl same ↦ (
      (add_route route_id line_id edge).1,
      ground (
        arith,
        eq_iff p q,
        get_elem?-set_self n.edges p (add_route route_id line_id edge).1
            (lt_of_get_elem? n.edges p there),
      ),
      λ l r h. ground (arith, eq_iff p q, there, add_route-has_route route_id line_id edge l r),
    )
    | inr other ↦ (
      e,
      get_elem?-set_ne n.edges p q (add_route route_id line_id edge).1
            (λ same. absurd (ground (arith, eq_iff p q)))
          ∙ at,
      λ l r h. h,
    )
  ];
}

pub received-Grows :
    (prev cur : Text) (p : ℕ) (node : StationNode) (n : TransportNetwork)
    → get_station_node cur n ≡ some node
    → IsHalfJoined prev cur p n
    → Grows n (received prev cur p node n)
unfolding put_node
received-Grows prev cur p node n found half = record {
  keeps = λ a b q h. edge_pointer-received prev cur p node n found half.free a b ∙ h;
  carries = λ q e at. (e, at, λ l r h. h);
}
