-- ===== src/Stack/Told.antt =====
-- What the StompClient is told of is a sequence of calls, in which no failed write is.
use mathlib.Core.List.{append-nil, append_assoc}
use learncppthroughprojects.Prelude.{
  Bool, true, not, ◌&&◌, List, [], ◌∷◌, ◌++◌, ◌≡◌, refl, ap, sym, ◌∙◌, subst, arith, all,
  All-append, returns, throws, undefined_behaviour, ◌>>=◌, Ensures, Ensures-then, Ensures-returns,
  ret, raised, lost,
}
use learncppthroughprojects.Client
use learncppthroughprojects.WebSocket
use learncppthroughprojects.Client.Types.{StompClient}
use learncppthroughprojects.Client.Events.{Event, dispatch}
use learncppthroughprojects.Client.Runs.{run-cons-returns}
use learncppthroughprojects.Client.Delivery.{run-cons}
use learncppthroughprojects.Client.Plain.{is_plain, is_plain_event, dispatch-IsPlain}
use learncppthroughprojects.WebSocket.Types.{
  ErrorCode, is_error, Effect, start, call_connect, call_message, call_disconnect, call_sent,
  call_closed,
}
use learncppthroughprojects.Stack.{WsFunction, Stack, Moved, call_ws_all, receive}
use learncppthroughprojects.Stack.Wiring.{
  IsWired, IsWiredOp, call_ws_all-IsWired, call_ws_all-closed,
}

all-append :
    {A : Type 0} (p : A → Bool) (xs ys : List A) → all p (xs ++ ys) ≡ (all p xs && all p ys)
all-append p [] ys = refl
all-append p (x ∷ xs) ys = ground (arith, all-append p xs ys)

module _ {F : Type 0} where
  -- No failed write.
  abbrev pub is_told : Event F → Bool
  is_told (Event.ws_sent _ failed) = not failed
  is_told _ = true

  -- The calls of the StompClient between two states; if `quiet`, none that connects, nor of a lost
  -- connection.
  pub record Told (quiet : Bool) (s : Stack F) (r : Stack F × List (Client.Types.Effect F))
      : Type 0 where
    pub events : List (Event F)
    pub is_run : Client.Events.run events s.stomp ≡ returns (r.0.stomp, r.1)
    pub no_failures : all is_told events ≡ true
    pub wired : IsWired r.0.world
    pub stays_closed :
        quiet ≡ true
        → s.world.client.closed ≡ true
        → (r.0.world.client.closed ≡ true) × (all is_plain r.1 ≡ true)

  run-append :
      (es fs : List (Event F)) (c c1 c2 : StompClient F) (xs ys : List (Client.Types.Effect F))
      → Client.Events.run es c ≡ returns (c1, xs)
      → Client.Events.run fs c1 ≡ returns (c2, ys)
      → Client.Events.run (es ++ fs) c ≡ returns (c2, xs ++ ys)
  unfolding Client.Events.run
  run-append [] fs c c1 c2 xs ys h k =
      let same : c ≡ c1 = ground (arith, h) in
      let none_out : xs ≡ [] = ground (arith, h) in
      rw none_out (subst (λ z. Client.Events.run fs z ≡ returns (c2, ys)) (sym same) k)
  run-append (e ∷ es) fs c c1 c2 xs ys h k =
      let (d, first, rest, here, there, both) = run-cons-returns e es c c1 xs h in
      subst (λ z. Client.Events.run (e ∷ (es ++ fs)) c ≡ returns (c2, z))
        (sym (append_assoc first rest ys) ∙ ap (λ z. z ++ ys) (sym both))
        (run-cons e (es ++ fs) c d c2 first (rest ++ ys) here
          (run-append es fs d c1 c2 rest ys there k))

  pub Told-refl : (quiet : Bool) (s : Stack F) → IsWired s.world → Told quiet s (s, [])
  unfolding Client.Events.run
  Told-refl quiet s wired = record {
    events = [];
    is_run = refl;
    no_failures = refl;
    wired = wired;
    stays_closed = λ q closed. (closed, refl);
  }

  pub Told-start :
      (quiet : Bool) (s : Stack F) (op : WebSocket.Types.Operation (WsFunction F))
      → IsWiredOp op
      → IsWired s.world
      → Told quiet s
          (record s { world = record s.world { pending = s.world.pending ++ op ∷ [] } }, [])
  unfolding Client.Events.run
  Told-start quiet s op op_wired (set, ops) = record {
    events = [];
    is_run = refl;
    no_failures = refl;
    wired = (set, All-append IsWiredOp s.world.pending (op ∷ []) ops (op_wired, tt));
    stays_closed = λ q closed. (closed, refl);
  }

  Told-trans :
      (quiet : Bool) (s s1 s2 : Stack F) (xs ys : List (Client.Types.Effect F))
      → Told quiet s (s1, xs)
      → Told quiet s1 (s2, ys)
      → Told quiet s (s2, xs ++ ys)
  Told-trans quiet s s1 s2 xs ys t u = record {
    events = t.events ++ u.events;
    is_run = run-append t.events u.events s.stomp s1.stomp s2.stomp xs ys t.is_run u.is_run;
    no_failures =
        ground (arith, all-append is_told t.events u.events, t.no_failures, u.no_failures);
    wired = u.wired;
    stays_closed = λ q closed.
        let (closed1, plain1) = t.stays_closed q closed in
        let (closed2, plain2) = u.stays_closed q closed1 in
        (closed2, ground (arith, all-append is_plain xs ys, plain1, plain2));
  }

  module _ (quiet : Bool) (e : Event F) (s : Stack F) (wired : IsWired s.world)
      (told : is_told e ≡ true) (plain : quiet ≡ true → is_plain_event e ≡ true) where
    after_dispatch :
        (r : Client.Types.Handled F)
        → dispatch e s.stomp ≡ r
        → Ensures (Told quiet s) (
            r >>= λ (c, effects).
            returns (record { stomp = c; world = call_ws_all effects s.world }, effects))
    unfolding Client.Events.run
    after_dispatch (returns (c, effects)) h = ret (record {
      events = e ∷ [];
      is_run =
          subst (λ z. Client.Events.run (e ∷ []) s.stomp ≡ returns (c, z)) (append-nil effects)
            (run-cons e [] s.stomp c c effects [] h refl);
      no_failures = ground (arith, told);
      wired = call_ws_all-IsWired effects s.world wired;
      stays_closed = λ q closed.
          let plainly : all is_plain effects ≡ true =
            Ensures-returns (dispatch-IsPlain e s.stomp (plain q)) h in
          (call_ws_all-closed effects s.world plainly closed, plainly);
    })
    after_dispatch (throws x) h = raised
    after_dispatch undefined_behaviour h = lost

    pub receive-Told : Ensures (Told quiet s) (receive e s)
    unfolding receive
    receive-Told = after_dispatch (dispatch e s.stomp) refl

  -- The rest of what a step does comes behind the first part.
  pub then-Told :
      (quiet : Bool) (s : Stack F) (r : Moved F) (f : Stack F → Moved F)
      → Ensures (Told quiet s) r
      → ((s1 : Stack F) (first : List (Client.Types.Effect F))
          → Told quiet s (s1, first)
          → Ensures (Told quiet s1) (f s1))
      → Ensures
          (Told quiet s)
          (r >>= λ (s1, first). f s1 >>= λ (s2, rest). returns (s2, first ++ rest))
  then-Told quiet s r f told h = Ensures-then _ told (λ (s1, first) t.
      Ensures-then _ (h s1 first t) (λ (s2, rest) u. ret (Told-trans quiet s s1 s2 first rest t u)))
