-- ===== src/Stomp/Validate/Ack.antt =====
-- The second entry for MESSAGE in the table of optional headers.
use learncppthroughprojects.Prelude.{elem, true, false, ◌≡◌, refl, arith, returns, subst, sym}
use learncppthroughprojects.Map.{contains, all-contains}
use learncppthroughprojects.Stomp.Types.{StompCommand, StompHeader, StompFrame, header_eq}
use learncppthroughprojects.Stomp.Validate.{refuse, validate, required_of, optional_of, listed}
use learncppthroughprojects.Stomp.Validate.Counting.{classified}
use learncppthroughprojects.Stomp.Validate.Correct.{validate_lem}

ack_unknown :
    classified (required_of StompCommand.message) (optional_of StompCommand.message) StompHeader.ack
    ≡ false
unfolding required_of optional_of listed elem
ack_unknown = refl

-- A MESSAGE frame with an ack header is refused, although the table lists ack among the optional
-- headers of MESSAGE: the entry has the key of an earlier one.
pub validate-message_ack :
    (f : StompFrame)
    → f.command ≡ StompCommand.message
    → contains StompHeader.ack f.headers ≡ true
    → validate f ≡ returns (refuse f)
validate-message_ack f message found = ground (
  arith,
  validate_lem f,
  all-contains (classified (required_of f.command) (optional_of f.command)) StompHeader.ack
      f.headers,
  subst (λ c. classified (required_of c) (optional_of c) StompHeader.ack ≡ false) (sym message)
      ack_unknown,
)
