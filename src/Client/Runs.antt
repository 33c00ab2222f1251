-- ===== src/Client/Runs.antt =====
-- What holds of every sequence of calls.
use learncppthroughprojects.Prelude.{
  ℕ, ◌+◌, ◌≤◌, Bool, true, false, not, ◌&&◌, Option, none, some, List, [], ◌∷◌, ◌++◌, Text, ◌≡◌,
  refl, sym, ap, subst, ◌∙◌, arith, returns, Ensures, ret, raised, lost, Ensures-if, Ensures-bind,
  Ensures-returns, ◌>>=◌, >>=-eq-returns, Bool-cases, inl, inr,
}
use learncppthroughprojects.Stomp.Types.{StompFrame, error_eq, command_eq}
use learncppthroughprojects.Client.Types.{
  StompClientError, StompClient, SendHandler, connect_sent, subscribe_sent, Effect, Handled,
  Callback, call, disconnect_callback,
}
use learncppthroughprojects.Client.Handlers.{
  connect, subscribe, close, on_ws_connected, on_ws_connect, on_ws_disconnected, message_handler,
  on_sent, on_closed, on_frame, on_receipt, on_message_frame, report, invoke, invoke_if_set,
  is_connected, is_subscribed,
}
use learncppthroughprojects.Client.Events.{
  Event, dispatch, run, connects, subscribes, closes, ws_connected, ws_message, ws_disconnected,
  ws_sent, ws_closed,
}

abbrev pub is_disconnect_role : Callback → Bool
is_disconnect_role disconnect_callback = true
is_disconnect_role _ = false

module _ {F : Type 0} where
  -- The calls of `onDisconnect` among the effects.
  abbrev pub is_disconnect : Effect F → ℕ
  is_disconnect (call disconnect_callback _ _ _) = 1
  is_disconnect _ = 0

  abbrev pub disconnects : List (Effect F) → ℕ
  disconnects [] = 0
  disconnects (e ∷ es) = is_disconnect e + disconnects es

  disconnects-append :
      (xs ys : List (Effect F)) → disconnects (xs ++ ys) ≡ disconnects xs + disconnects ys
  disconnects-append [] ys = omega arith
  disconnects-append (e ∷ xs) ys = omega (arith, disconnects-append xs ys)

  -- The flag stays, and `onDisconnect` is not called.
  abbrev Quiet : StompClient F → StompClient F × List (Effect F) → Type 0
  Quiet c (c', out) = (c'.disconnected ≡ c.disconnected) × (disconnects out ≡ 0)

  -- What a call may do to the flag: it is never reset, and `onDisconnect` is called at most once,
  -- and only while the flag is being set.
  abbrev Flagged : StompClient F → StompClient F × List (Effect F) → Type 0
  Flagged c (c', out) =
      (c.disconnected ≡ true → (c'.disconnected ≡ true) × (disconnects out ≡ 0))
      × (disconnects out ≤ 1)
      × (disconnects out ≡ 1 → c'.disconnected ≡ true)

  ret-Quiet :
      (c c' : StompClient F) (out : List (Effect F))
      → c'.disconnected ≡ c.disconnected
      → disconnects out ≡ 0
      → Ensures (Quiet c) (returns (c', out))
  ret-Quiet c c' out h k = ret (h, k)

  invoke-Quiet :
      (role : Callback) (f : Option F) (code : StompClientError) (text : Text)
      (c c' : StompClient F)
      → c'.disconnected ≡ c.disconnected
      → is_disconnect_role role ≡ false
      → Ensures (Quiet c) (invoke role f code text c')
  unfolding invoke
  invoke-Quiet role none code text c c' e h = raised
  invoke-Quiet role (some f) code text c c' e h = ret (e, ground arith)

  invoke_if_set-Quiet :
      (role : Callback) (f : Option F) (code : StompClientError) (text : Text)
      (c c' : StompClient F)
      → c'.disconnected ≡ c.disconnected
      → is_disconnect_role role ≡ false
      → Ensures (Quiet c) (invoke_if_set role f code text c')
  unfolding invoke_if_set
  invoke_if_set-Quiet role none code text c c' e h = ret (e, refl)
  invoke_if_set-Quiet role (some f) code text c c' e h = ret (e, ground arith)

  ruleset quiet = (refl, Ensures-if, ret-Quiet, invoke-Quiet, invoke_if_set-Quiet)

  report-Quiet :
      (msg body : Text) (otherwise : List (Effect F)) (c : StompClient F)
      → disconnects otherwise ≡ 0
      → Ensures (Quiet c) (report msg body otherwise c)
  unfolding report
  report-Quiet msg body otherwise c h = search (quiet, h)

  on_receipt-Quiet :
      (f : StompFrame) (msg : Text) (c : StompClient F) → Ensures (Quiet c) (on_receipt f msg c)
  unfolding on_receipt
  on_receipt-Quiet f msg c = search quiet

  on_message_frame-Quiet :
      (f : StompFrame) (msg : Text) (c : StompClient F)
      → Ensures (Quiet c) (on_message_frame f msg c)
  unfolding on_message_frame
  on_message_frame-Quiet f msg c = search quiet

  on_frame-Quiet :
      (f : StompFrame) (msg : Text) (c : StompClient F) → Ensures (Quiet c) (on_frame f msg c)
  unfolding on_frame
  on_frame-Quiet f msg c = search (quiet, report-Quiet, on_receipt-Quiet, on_message_frame-Quiet)

  message_handler-Quiet :
      (failed : Bool) (msg : Text) (c : StompClient F)
      → Ensures (Quiet c) (message_handler failed msg c)
  unfolding message_handler
  message_handler-Quiet failed msg c = search (quiet, Ensures-bind, on_frame-Quiet, report-Quiet)

  Flagged-Quiet : (c : StompClient F) {r : Handled F} → Ensures (Quiet c) r → Ensures (Flagged c) r
  Flagged-Quiet c (ret q) = ret ((λ h. (q.0 ∙ h, q.1)), omega arith, λ h. absurd (omega arith))
  Flagged-Quiet c raised = raised
  Flagged-Quiet c lost = lost

  invoke_disconnect-Flagged :
      (code : StompClientError) (f : Option F) (c : StompClient F)
      → c.disconnected ≡ false
      → Ensures
          (Flagged c)
          (invoke disconnect_callback f code [] (record c { disconnected = true }))
  unfolding invoke
  invoke_disconnect-Flagged code none c h = raised
  invoke_disconnect-Flagged code (some f) c h = ret ((λ k. cc), omega arith, λ k. refl)

  on_ws_disconnected-Flagged :
      (failed : Bool) (c : StompClient F) → Ensures (Flagged c) (on_ws_disconnected failed c)
  unfolding on_ws_disconnected
  on_ws_disconnected-Flagged failed c = elim (Bool-cases (c.connected && not c.disconnected)) [
    | inr e ↦ rw e (ret ((λ h. (h, refl)), omega arith, λ h. absurd (omega arith)))
    | inl e ↦ rw e (invoke_disconnect-Flagged _ c.on_disconnect c (ground arith))
  ]

  on_closed-Flagged :
      (failed : Bool) (f : Option F) (c : StompClient F)
      → Ensures (Flagged c) (on_closed f failed c)
  unfolding on_closed invoke
  on_closed-Flagged failed none c = raised
  on_closed-Flagged failed (some f) c = ret ((λ h. (refl, refl)), omega arith, λ h. refl)

  on_sent-Quiet :
      (failed : Bool) (handler : SendHandler) (c : StompClient F)
      → Ensures (Quiet c) (on_sent handler failed c)
  unfolding on_sent
  on_sent-Quiet failed connect_sent c = search quiet
  on_sent-Quiet failed subscribe_sent c = search quiet

  subscribe-Quiet :
      (first second : ℕ) (f g : Option F) (c : StompClient F)
      → Quiet c ((subscribe first second f g c).1, (subscribe first second f g c).2)
  unfolding subscribe
  subscribe-Quiet first second f g c = (ground arith, ground arith)

  dispatch-Flagged : (e : Event F) (c : StompClient F) → Ensures (Flagged c) (dispatch e c)
  unfolding dispatch connect close on_ws_connected on_ws_connect
  dispatch-Flagged (connects f g) c = Flagged-Quiet c (ret (refl, refl))
  dispatch-Flagged (subscribes first second f g) c =
      Flagged-Quiet c (ret (subscribe-Quiet first second f g c))
  dispatch-Flagged (closes f) c = Flagged-Quiet c (ret (refl, refl))
  dispatch-Flagged (ws_connected failed username password) c = Flagged-Quiet c (search quiet)
  dispatch-Flagged (ws_message failed msg) c = Flagged-Quiet c (message_handler-Quiet failed msg c)
  dispatch-Flagged (ws_disconnected failed) c = on_ws_disconnected-Flagged failed c
  dispatch-Flagged (ws_sent handler failed) c = Flagged-Quiet c (on_sent-Quiet failed handler c)
  dispatch-Flagged (ws_closed f failed) c = on_closed-Flagged failed f c

  Flagged-trans :
      (c c1 c2 : StompClient F) (xs ys : List (Effect F))
      → Flagged c (c1, xs)
      → Flagged c1 (c2, ys)
      → Flagged c (c2, xs ++ ys)
  Flagged-trans c c1 c2 xs ys (k1, l1, m1) (k2, l2, m2) =
      let both = disconnects-append xs ys in
      (
        (λ h. ((k2 (k1 h).0).0, omega (arith, both, (k1 h).1, (k2 (k1 h).0).1))),
        ground (arith, both, l1, l2, m1, k2),
        λ h. ground (arith, both, l1, l2, m1, m2, k2),
      )

  -- A run of two parts.
  pub run-cons-returns :
      (e : Event F) (es : List (Event F)) (c c' : StompClient F) (out : List (Effect F))
      → run (e ∷ es) c ≡ returns (c', out)
      → (c1 : StompClient F) × (first : List (Effect F)) × (rest : List (Effect F)) × (dispatch e c
          ≡ returns (c1, first))
        × (run es c1 ≡ returns (c', rest))
        × (out ≡ first ++ rest)
  unfolding run
  run-cons-returns e es c c' out h =
      let ((c1, first), here, later) =
        >>=-eq-returns (dispatch e c) (λ r. run es r.0 >>= λ q. returns (q.0, r.1 ++ q.1))
          {b = (c', out)} h in
      let ((c2, rest), there, last) =
        >>=-eq-returns (run es c1) (λ q. returns (q.0, first ++ q.1)) {b = (c', out)} later in
      let ends : c2 ≡ c' = ground (arith, last) in
      (c1, first, rest, here, there ∙ ap (λ x. returns (x, rest)) ends, ground (arith, last))

  run-Flagged :
      (es : List (Event F)) (c c' : StompClient F) (out : List (Effect F))
      → run es c ≡ returns (c', out)
      → Flagged c (c', out)
  unfolding run
  run-Flagged [] c c' out h =
      Ensures-returns {P = Flagged c}
        (ret {a = (c, [])} ((λ k. (k, refl)), omega arith, λ k. absurd (omega arith))) h
  run-Flagged (e ∷ es) c c' out h =
      let (c1, first, rest, here, there, both) = run-cons-returns e es c c' out h in
      subst (λ o. Flagged c (c', o)) (sym both)
        (Flagged-trans c c1 c' first rest (Ensures-returns (dispatch-Flagged e c) here)
          (run-Flagged es c1 c' rest there))

  -- However the methods and callbacks of a StompClient are called, if no call throws: onDisconnect
  -- is called at most once, and after it has been called, the client counts as disconnected.
  pub run-disconnects :
      (es : List (Event F)) (c c' : StompClient F) (out : List (Effect F))
      → run es c ≡ returns (c', out)
      → (disconnects out ≤ 1) × (disconnects out ≡ 1 → c'.disconnected ≡ true)
  run-disconnects es c c' out h = let (_, once, flag) = run-Flagged es c c' out h in (once, flag)

  -- Once disconnected_ is set, as it is when a close of the client has ended or its connection has
  -- been lost after the CONNECTED frame, no sequence of calls, another Connect and Subscribe
  -- included, makes IsConnected or IsSubscribed true again, nor calls onDisconnect.
  pub run-disconnected :
      (es : List (Event F)) (c c' : StompClient F) (out : List (Effect F))
      → c.disconnected ≡ true
      → run es c ≡ returns (c', out)
      → (is_connected c' ≡ false) × (is_subscribed c' ≡ false) × (disconnects out ≡ 0)
  unfolding is_connected is_subscribed
  run-disconnected es c c' out down h =
      let (stays, silent) = (run-Flagged es c c' out h).0 down in
      (ground arith, ground arith, silent)
