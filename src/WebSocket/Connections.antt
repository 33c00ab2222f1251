-- ===== src/WebSocket/Connections.antt =====
-- Every `Connect` is reported once, and one read at most is pending for each.
use learncppthroughprojects.Prelude.{
  ℕ, ◌+◌, ◌≤◌, Bool, true, false, none, some, List, [], ◌∷◌, ◌++◌, Text, ◌≡◌, ◌⊎◌, refl, ap, ◌∙◌,
  arith, all, returns, Ensures, Ensures-then, ret, Ensures-returns, ◌>>=◌, >>=-eq-returns,
  get_elem?, Option-cases, inl, inr,
}
use learncppthroughprojects.WebSocket.Types.{
  WebSocketClient, Operation, resolve, write, close_ws, start, Effect, new_web_socket,
}
use learncppthroughprojects.WebSocket.Client.{connect, send, close}
use learncppthroughprojects.WebSocket.World.{
  World, Move, connects, sends, closes, ends, started, remove_at, after, move, run,
}
use learncppthroughprojects.WebSocket.Reports.{
  is_establishing, is_read, is_chain, is_call_connect, total, count, total-append, count-append,
  total-remove_at, Follows, complete-Follows,
}

module _ {F : Type 0} where
  abbrev pub connect_of : Move F → ℕ
  connect_of (connects _ _ _) = 1
  connect_of _ = 0

  -- The calls of `Connect`.
  abbrev pub connections : List (Move F) → ℕ
  connections [] = 0
  connections (m ∷ ms) = connect_of m + connections ms

  -- A `Connect` passes a function to report to.
  abbrev pub is_reporting : Move F → Bool
  is_reporting (connects none _ _) = false
  is_reporting _ = true

  -- After `k` calls of `Connect`, of which `calls` have been reported.
  record Book (k : ℕ) (calls : ℕ) (w : World F) : Type 0 where
    reported : total is_establishing w.pending + calls ≡ k
    chained : total is_chain w.pending ≤ k
    set : (total is_establishing w.pending ≡ 0) ⊎ ((f : F) × (w.client.on_connect ≡ some f))

  Booked : ℕ → ℕ → World F × List (Effect F) → Type 0
  Booked k calls (w, out) = Book k (calls + count is_call_connect out) w

  -- The end of a pending operation.
  after-Booked :
      (k calls i : ℕ) (op : Operation F) (w : World F) (r : WebSocketClient F × List (Effect F))
      → Book k calls w
      → get_elem? w.pending i ≡ some op
      → Follows op w.client r
      → Booked (k + 0) calls (after (remove_at i w.pending) r)
  unfolding Booked
  after-Booked k calls i op w (c, out) b at (same, follows, chain) =
      let rest = remove_at i w.pending in
      let est = total-append is_establishing rest (started out) in
      let chains = total-append is_chain rest (started out) in
      let est_at = total-remove_at is_establishing i w.pending at in
      let chain_at = total-remove_at is_chain i w.pending at in
      record {
        reported = omega (arith, b.reported, est, est_at, follows);
        chained = omega (arith, b.chained, chains, chain_at, chain);
        set = elim b.set [
          | inl zero_est ↦ inl (omega (arith, est, est_at, follows, zero_est))
          | inr (f, e) ↦ inr (f, same ∙ e)
        ];
      }

  -- An operation that does not count is started.
  started-Booked :
      (k calls : ℕ) (op : Operation F) (c : WebSocketClient F) (w : World F)
      → c.on_connect ≡ w.client.on_connect
      → is_establishing op ≡ 0
      → is_read op ≡ 0
      → Book k calls w
      → Booked (k + 0) calls (after w.pending (c, start op ∷ []))
  unfolding Booked
  started-Booked k calls op c w same no_est no_read b =
      let est = total-append is_establishing w.pending (op ∷ []) in
      record {
        reported = omega (arith, b.reported, est, no_est);
        chained =
            omega (arith, b.chained, total-append is_chain w.pending (op ∷ []), no_est, no_read);
        set = elim b.set [
          | inl zero_est ↦ inl (omega (arith, est, no_est, zero_est))
          | inr (f, e) ↦ inr (f, same ∙ e)
        ];
      }

  -- An operation of a connection is pending only while there is a function to report to.
  reports_to :
      (w : World F) (i : ℕ) (op : Operation F) (k calls : ℕ)
      → Book k calls w
      → get_elem? w.pending i ≡ some op
      → is_establishing op ≡ 1
      → (f : F) × (w.client.on_connect ≡ some f)
  reports_to w i op k calls b at one = elim b.set [
    | inl zero_est ↦
        absurd (omega (arith, zero_est, one, total-remove_at is_establishing i w.pending at))
    | inr found ↦ found
  ]

  move-Booked :
      (m : Move F) (k calls : ℕ) (w : World F)
      → is_reporting m ≡ true
      → Book k calls w
      → Ensures (Booked (k + connect_of m) calls) (move m w)
  unfolding move Booked connect send close
  move-Booked (connects none g h) k calls w reporting b = cc
  move-Booked (connects (some f) g h) k calls w reporting b =
      let op : Operation F = resolve w.client.url w.client.port in
      ret (record {
        reported = omega (arith, b.reported, total-append is_establishing w.pending (op ∷ []));
        chained = omega (arith, b.chained, total-append is_chain w.pending (op ∷ []));
        set = inr (f, refl);
      })
  move-Booked (sends message on_send) k calls w reporting b =
      ret (started-Booked k calls (write message on_send) w.client w refl refl refl b)
  move-Booked (closes on_close) k calls w reporting b = ret (
      started-Booked k calls (close_ws on_close) (record w.client { closed = true }) w refl refl
        refl b)
  move-Booked (ends i ec received) k calls w reporting b =
      elim (Option-cases (get_elem? w.pending i)) [
        | inl missing ↦
            rw (missing, move)
              (ret (record {
                reported = omega (arith, b.reported);
                chained = omega (arith, b.chained);
                set = b.set;
              }))
        | inr (op, at) ↦
            rw (at, move)
              (Ensures-then (λ r. returns (after (remove_at i w.pending) r))
                (complete-Follows op ec received w.client (reports_to w i op k calls b at))
                (λ r f. ret (after-Booked k calls i op w r b at f)))
      ]

  pub run-cons-returns :
      (m : Move F) (ms : List (Move F)) (w w' : World F) (out : List (Effect F))
      → run (m ∷ ms) w ≡ returns (w', out)
      → (w1 : World F) × (first : List (Effect F)) × (rest : List (Effect F)) × (move m w
          ≡ returns (w1, first))
        × (run ms w1 ≡ returns (w', rest))
        × (out ≡ first ++ rest)
  unfolding run
  run-cons-returns m ms w w' out h =
      let ((w1, first), here, later) =
        >>=-eq-returns (move m w) (λ r. run ms r.0 >>= λ q. returns (q.0, r.1 ++ q.1))
          {b = (w', out)} h in
      let ((w2, rest), there, last) =
        >>=-eq-returns (run ms w1) (λ q. returns (q.0, first ++ q.1)) {b = (w', out)} later in
      let ends : w2 ≡ w' = ground (arith, last) in
      (w1, first, rest, here, there ∙ ap (λ x. returns (x, rest)) ends, ground (arith, last))

  run-Book :
      (ms : List (Move F)) (k calls : ℕ) (w w' : World F) (out : List (Effect F))
      → all is_reporting ms ≡ true
      → Book k calls w
      → run ms w ≡ returns (w', out)
      → Book (k + connections ms) (calls + count is_call_connect out) w'
  unfolding run Booked
  run-Book [] k calls w w' out reporting b h =
      Ensures-returns {P = Booked (k + 0) calls}
        (ret {a = (w, [])} (record {
          reported = omega (arith, b.reported);
          chained = omega (arith, b.chained);
          set = b.set;
        }))
        h
  run-Book (m ∷ ms) k calls w w' out reporting b h =
      let (w1, first, rest, here, there, both) = run-cons-returns m ms w w' out h in
      let b1 = Ensures-returns (move-Booked m k calls w (ground arith) b) here in
      let b2 =
        run-Book ms (k + connect_of m) (calls + count is_call_connect first) w1 w' rest
          (ground arith) b1 there in
      let calls_of = ap (count is_call_connect) both in
      record {
        reported = omega (arith, b2.reported, calls_of, count-append is_call_connect first rest);
        chained = omega (arith, b2.chained);
        set = b2.set;
      }

  abbrev pub idle_world : Text → Text → Text → World F
  idle_world url endpoint port = record { client = new_web_socket url endpoint port; pending = [] }

  -- A new WebSocketClient, with any calls of its methods and any ends of its operations, in any
  -- order, where every Connect is given an onConnect: unless a call throws, the calls of onConnect
  -- and the pending operations that establish a connection are together as many as the calls of
  -- Connect were, so each Connect is reported exactly once when no such operation is left; and the
  -- pending reads and those operations together are no more than the calls of Connect, so with one
  -- Connect there is never more than one read at a time.
  pub run-connections :
      (url endpoint port : Text) (ms : List (Move F)) (w : World F) (out : List (Effect F))
      → all is_reporting ms ≡ true
      → run ms (idle_world url endpoint port) ≡ returns (w, out)
      → (total is_establishing w.pending + count is_call_connect out ≡ connections ms)
        × (total is_chain w.pending ≤ connections ms)
  run-connections url endpoint port ms w out reporting h =
      let b =
        run-Book ms 0 0 (idle_world url endpoint port) w out reporting
          (record { reported = refl; chained = omega arith; set = inl refl }) h in
      (omega (arith, b.reported), omega (arith, b.chained))
