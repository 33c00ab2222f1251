-- ===== src/Stack/Runs.antt =====
-- What holds of the two clients together, however they are called.
use learncppthroughprojects.Prelude.{
  true, false, not, Option, List, ◌∷◌, Text, ◌≡◌, refl, sym, ap, ◌∙◌, arith, all, returns,
  >>=-eq-returns, Ensures-returns,
}
use learncppthroughprojects.Client
use learncppthroughprojects.Client.Types.{StompClient, new_client}
use learncppthroughprojects.Client.Events.{Event}
use learncppthroughprojects.Client.Handlers.{close}
use learncppthroughprojects.Client.Runs.{disconnects}
use learncppthroughprojects.Client.Plain.{disconnects-IsPlain}
use learncppthroughprojects.WebSocket
use learncppthroughprojects.Stack.{
  Stack, Move, closes, call_ws, call_ws_all, receive, move, run, new_stack,
}
use learncppthroughprojects.Stack.Wiring.{IsWired, call_ws-IsWired}
use learncppthroughprojects.Stack.Told.{is_told}
use learncppthroughprojects.Stack.Projection.{is_connecting, run-Told}

module _ {F : Type 0} where
  -- A new StompClient over a new WebSocketClient, with any calls of Connect, Subscribe and Close and
  -- any ends of the pending operations, in any order, if no call throws: what the StompClient has
  -- done is what some sequence of its calls makes of a new StompClient, and none of them tells it of
  -- a failure to send.
  pub run-events :
      (url endpoint port : Text) (ms : List (Move F)) (s : Stack F)
      (out : List (Client.Types.Effect F))
      → run ms (new_stack url endpoint port) ≡ returns (s, out)
      → (es : List (Event F)) × (Client.Events.run es (new_client url endpoint)
          ≡ returns (s.stomp, out))
        × (all is_told es ≡ true)
  run-events url endpoint port ms s out h =
      let told =
        Ensures-returns
          (run-Told false ms (new_stack url endpoint port) ((tt, tt, tt), tt)
            (λ q. absurd (ground (arith, q))))
          h in
      (told.events, told.is_run, told.no_failures)

  run-closes :
      (f : Option F) (ms : List (Move F)) (s s' : Stack F) (out : List (Client.Types.Effect F))
      → run (closes f ∷ ms) s ≡ returns (s', out)
      → (s1 : Stack F) × (rest : List (Client.Types.Effect F)) × (s1.world.client.closed ≡ true)
        × (IsWired s.world → IsWired s1.world)
        × (run ms s1 ≡ returns (s', rest))
        × (disconnects out ≡ disconnects rest)
  unfolding run move receive close call_ws call_ws_all WebSocket.Client.close Client.Events.dispatch
  run-closes f ms s s' out h =
      let world = call_ws (Client.Types.close_ws f) s.world in
      let s1 : Stack F = record { stomp = s.stomp; world = world } in
      let ((s2, rest), runs, last) =
        >>=-eq-returns (run ms s1) (λ q. returns (q.0, Client.Types.close_ws f ∷ q.1))
          {b = (s', out)} h in
      let ends : s2 ≡ s' = ground (arith, last) in
      let both : Client.Types.close_ws f ∷ rest ≡ out = ground (arith, last) in
      (
        s1,
        rest,
        refl,
        call_ws-IsWired (Client.Types.close_ws f) s.world,
        runs ∙ ap (λ x. returns (x, rest)) ends,
        ap disconnects (sym both) ∙ omega arith,
      )

  -- Behind any such sequence, if Close is called and Connect is not called again: onDisconnect is
  -- not called any more, in whatever order the pending operations end and whatever they give.
  pub run-disconnects_none :
      (url endpoint port : Text) (before ms : List (Move F)) (f : Option F) (s s' : Stack F)
      (out0 out : List (Client.Types.Effect F))
      → run before (new_stack url endpoint port) ≡ returns (s, out0)
      → run (closes f ∷ ms) s ≡ returns (s', out)
      → all (λ m. not (is_connecting m)) ms ≡ true
      → disconnects out ≡ 0
  run-disconnects_none url endpoint port before ms f s s' out0 out h k none_again =
      let first =
        Ensures-returns
          (run-Told false before (new_stack url endpoint port) ((tt, tt, tt), tt)
            (λ q. absurd (ground (arith, q))))
          h in
      let (s1, rest, closed, keeps, runs, same) = run-closes f ms s s' out k in
      let told =
        Ensures-returns (run-Told true ms s1 (keeps first.wired) (λ q. (none_again, closed)))
          runs in
      same ∙ disconnects-IsPlain rest (told.stays_closed refl closed).1
