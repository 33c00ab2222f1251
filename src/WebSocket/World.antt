-- ===== src/WebSocket/World.antt =====
-- The client together with the operations that it has started and that have not ended: the user
-- calls its methods, and the environment ends the operations, in any order and with any result.
use learncppthroughprojects.Prelude.{
  ℕ, zero, suc, Option, none, some, List, [], ◌∷◌, ◌++◌, Text, Outcome, returns, ◌>>=◌, get_elem?,
}
use learncppthroughprojects.WebSocket.Types.{ErrorCode, WebSocketClient, Operation, Effect, start}
use learncppthroughprojects.WebSocket.Client.{connect, send, close, complete}

pub record World (F : Type 0) : Type 0 where
  pub client : WebSocketClient F
  pub pending : List (Operation F)

-- A call of a method, or the end of the pending operation at an index.
pub data Move (F : Type 0) : Type 0 where
  connects : Option F → Option F → Option F → Move F
  sends : Text → Option F → Move F
  closes : Option F → Move F
  ends : ℕ → ErrorCode → Text → Move F

module _ {F : Type 0} where
  -- The operations that are started among the effects.
  abbrev pub started : List (Effect F) → List (Operation F)
  started [] = []
  started (start op ∷ es) = op ∷ started es
  started (_ ∷ es) = started es

  abbrev pub remove_at : ℕ → List (Operation F) → List (Operation F)
  remove_at i [] = []
  remove_at zero (op ∷ ops) = ops
  remove_at (suc i) (op ∷ ops) = op ∷ remove_at i ops

  abbrev pub after :
      List (Operation F) → WebSocketClient F × List (Effect F) → World F × List (Effect F)
  after pending (c, out) = (record { client = c; pending = pending ++ started out }, out)

  -- No operation ends at an index where none is pending.
  unfoldable pub move : Move F → World F → Outcome (World F × List (Effect F))
  move (connects on_connect on_message on_disconnect) w =
      returns (after w.pending (connect on_connect on_message on_disconnect w.client))
  move (sends message on_send) w = returns (after w.pending (send message on_send w.client))
  move (closes on_close) w = returns (after w.pending (close on_close w.client))
  move (ends i ec received) w = elim (get_elem? w.pending i) [
    | none ↦ returns (w, [])
    | some op ↦ complete op ec received w.client >>= λ r. returns (after (remove_at i w.pending) r)
  ]

  unfoldable pub run : List (Move F) → World F → Outcome (World F × List (Effect F))
  run [] w = returns (w, [])
  run (m ∷ ms) w = move m w >>= λ r. run ms r.0 >>= λ q. returns (q.0, r.1 ++ q.1)
