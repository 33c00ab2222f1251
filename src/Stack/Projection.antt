-- ===== src/Stack/Projection.antt =====
-- What the StompClient is told of while operations end and methods are called.
use learncppthroughprojects.Prelude.{
  ℕ, Bool, true, false, not, none, some, List, [], ◌∷◌, Text, ◌≡◌, refl, sym, ◌∙◌, subst, arith,
  all, All, All-get_elem?, get_elem?, returns, ◌>>=◌, Ensures, Ensures-then, ret, raised, lost,
  Option-cases, inl, inr,
}
use learncppthroughprojects.WebSocket
use learncppthroughprojects.Client.Events.{Event}
use learncppthroughprojects.WebSocket.Types.{
  ErrorCode, is_error, Effect, start, call_connect, call_message, call_disconnect, call_sent,
  call_closed,
}
use learncppthroughprojects.WebSocket.Client.{complete}
use learncppthroughprojects.Stack.{
  WsFunction, Stack, Moved, Move, connects, subscribes, closes, ends, ended_with, event_of, deliver,
  move, run,
}
use learncppthroughprojects.Stack.Wiring.{
  IsWired, IsWiredOp, IsFine, complete-Completed, remove_at-IsWired,
}
use learncppthroughprojects.Stack.Told.{Told, Told-refl, Told-start, receive-Told, then-Told}

module _ {F : Type 0} where
  -- The effects of an operation that ended while `closed` was as `quiet` says.
  module _ (username password : Text) (quiet closed : Bool)
      (is_quiet : quiet ≡ true → closed ≡ true) where
    deliver-Told :
        (es : List (Effect (WsFunction F))) (s : Stack F)
        → All (IsFine closed) es
        → IsWired s.world
        → Ensures (Told quiet s) (deliver username password es s)
    unfolding deliver event_of
    deliver-Told [] s fine wired = ret (Told-refl quiet s wired)
    deliver-Told (start op ∷ es) s (op_wired, fine) wired =
        then-Told quiet s _ (deliver username password es)
          (ret (Told-start quiet s op op_wired wired))
          (λ s1 first t. deliver-Told es s1 fine t.wired)
    deliver-Told (call_connect f ec ∷ es) s (is_f, fine) wired =
        then-Told quiet s _ (deliver username password es)
          (receive-Told quiet (event_of f ec [] username password) s wired (rw is_f refl)
            (λ q. rw is_f refl))
          (λ s1 first t. deliver-Told es s1 fine t.wired)
    deliver-Told (call_message f ec text ∷ es) s (is_f, fine) wired =
        then-Told quiet s _ (deliver username password es)
          (receive-Told quiet (event_of f ec text username password) s wired (rw is_f refl)
            (λ q. rw is_f refl))
          (λ s1 first t. deliver-Told es s1 fine t.wired)
    deliver-Told (call_disconnect f ec ∷ es) s ((is_f, open_), fine) wired =
        then-Told quiet s _ (deliver username password es)
          (receive-Told quiet (event_of f ec [] username password) s wired (rw is_f refl)
            (λ q. absurd (ground (arith, is_quiet, q, open_))))
          (λ s1 first t. deliver-Told es s1 fine t.wired)
    deliver-Told (call_sent f ec ∷ es) s (((h, is_f), ok), fine) wired =
        then-Told quiet s _ (deliver username password es)
          (receive-Told quiet (event_of f ec [] username password) s wired
            (rw is_f (ground (arith, ok))) (λ q. rw is_f refl))
          (λ s1 first t. deliver-Told es s1 fine t.wired)
    deliver-Told (call_closed f ec ∷ es) s ((g, is_f), fine) wired =
        then-Told quiet s _ (deliver username password es)
          (receive-Told quiet (event_of f ec [] username password) s wired (rw is_f refl)
            (λ q. rw is_f refl))
          (λ s1 first t. deliver-Told es s1 fine t.wired)

  abbrev pub is_connecting : Move F → Bool
  is_connecting (connects _ _) = true
  is_connecting _ = false

  ends-none :
      (i : ℕ) (ec : ErrorCode) (received username password : Text) (s : Stack F)
      → get_elem? s.world.pending i ≡ none
      → move (ends i ec received username password) s ≡ returns (s, [])
  unfolding move
  ends-none i ec received username password s h = ground (arith, h)

  pub ends-some :
      (i : ℕ) (ec : ErrorCode) (received username password : Text) (s : Stack F)
      (op : WebSocket.Types.Operation (WsFunction F))
      → get_elem? s.world.pending i ≡ some op
      → move (ends i ec received username password) s ≡ (
          complete op ec received s.world.client >>= λ (c, effects).
          deliver username password effects (ended_with c i s))
  unfolding move
  ends-some i ec received username password s op h = rw (h, move) refl

  ended_with-Told :
      (quiet : Bool) (c : WebSocket.Types.WebSocketClient (WsFunction F)) (i : ℕ) (s : Stack F)
      → c.closed ≡ s.world.client.closed
      → {r : Moved F} → Ensures (Told quiet (ended_with c i s)) r
      → Ensures (Told quiet s) r
  ended_with-Told quiet c i s same (ret t) = ret (record {
    events = t.events;
    is_run = t.is_run;
    no_failures = t.no_failures;
    wired = t.wired;
    stays_closed = λ q closed. t.stays_closed q (same ∙ closed);
  })
  ended_with-Told quiet c i s same raised = raised
  ended_with-Told quiet c i s same lost = lost

  move-Told :
      (quiet : Bool) (m : Move F) (s : Stack F)
      → IsWired s.world
      → (quiet ≡ true → (is_connecting m ≡ false) × (s.world.client.closed ≡ true))
      → Ensures (Told quiet s) (move m s)
  unfolding move
  move-Told quiet (connects f g) s wired q =
      receive-Told quiet (Event.connects f g) s wired refl (λ h. absurd (ground (arith, q h)))
  move-Told quiet (subscribes first second f g) s wired q =
      receive-Told quiet (Event.subscribes first second f g) s wired refl (λ h. refl)
  move-Told quiet (closes f) s wired q =
      receive-Told quiet (Event.closes f) s wired refl (λ h. refl)
  move-Told quiet (ends i ec received username password) s (set, ops) q =
      elim (Option-cases (get_elem? s.world.pending i)) [
        | inl missing ↦
            subst (Ensures (Told quiet s))
              (sym (ends-none i ec received username password s missing))
              (ret (Told-refl quiet s (set, ops)))
        | inr (op, at) ↦
            subst (Ensures (Told quiet s)) (sym (ends-some i ec received username password s op at))
              (Ensures-then _
                (complete-Completed op ec received s.world.client set
                  (All-get_elem? IsWiredOp s.world.pending i ops at))
                (λ (c, effects) (set', same, fine). ended_with-Told quiet c i s same (
                  deliver-Told username password quiet s.world.client.closed (λ h. (q h).1) effects
                    (ended_with c i s) fine (set', remove_at-IsWired i s.world.pending ops))))
      ]

  pub run-Told :
      (quiet : Bool) (ms : List (Move F)) (s : Stack F)
      → IsWired s.world
      → (quiet ≡ true
          → (all (λ m. not (is_connecting m)) ms ≡ true) × (s.world.client.closed ≡ true))
      → Ensures (Told quiet s) (run ms s)
  unfolding run
  run-Told quiet [] s wired q = ret (Told-refl quiet s wired)
  run-Told quiet (m ∷ ms) s wired q =
      then-Told quiet s (move m s) (run ms)
        (move-Told quiet m s wired (λ h. (ground (arith, q h), (q h).1)))
        (λ s1 first t.
          run-Told quiet ms s1 t.wired (λ h. (ground (arith, q h), (t.stays_closed h (q h).1).0)))
