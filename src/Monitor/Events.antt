-- ===== src/Monitor/Events.antt =====
-- The monitor and its client together: what the WebSocket client tells them, one after another.
use learncppthroughprojects.Prelude.{
  ℕ, none, some, List, [], ◌∷◌, ◌++◌, Text, Outcome, returns, undefined_behaviour, ◌>>=◌,
}
use learncppthroughprojects.Client.Events.{Event, dispatch}
use learncppthroughprojects.Monitor.Types.{MonitorFunction, NetworkMonitor, Handled}
use learncppthroughprojects.Monitor.Handlers.{perform}

module _ (read_event : Text → Outcome (Text × Text)) where
  -- One call of the client; the numbers are those that `Subscribe` draws, if it is called.
  unfoldable pub handle : ℕ → ℕ → Event MonitorFunction → NetworkMonitor → Handled
  handle first second event m = elim m.client [
    | none ↦ undefined_behaviour
    | some c ↦ dispatch event c >>= λ (c', effects).
        perform read_event first second effects (record m { client = some c' })
  ]

  unfoldable pub run : ℕ → ℕ → List (Event MonitorFunction) → NetworkMonitor → Handled
  run first second [] m = returns (m, [])
  run first second (event ∷ events) m = handle first second event m >>= λ (m1, out).
      run first second events m1 >>= λ (m2, rest). returns (m2, out ++ rest)
