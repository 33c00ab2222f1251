-- ===== src/Stomp/Validate.antt =====
-- `StompFrame::Validate` of src/stomp-frame.cpp.
pub mod Counting
pub mod Correct
pub mod Ack
use learncppthroughprojects.Prelude.{
  ℕ, ◌+◌, Bool, true, false, not, ◌&&◌, ◌||◌, Option, none, some, List, [], ◌∷◌, Text, codes, elem,
  Outcome, returns, ◌>>=◌, length, if◌then◌else◌, ◌==◌, nat_eq, text_eq, Eq,
}
use learncppthroughprojects.Map.{Map, lookup, contains}
use learncppthroughprojects.Stomp.Types.{
  StompCommand, StompHeader, StompError, command_eq, header_eq, StompFrame,
}
use learncppthroughprojects.Stomp.Tables.{required_headers, optional_headers}
use learncppthroughprojects.Stomp.Stoi.{stoi, to_size_t}

-- The inner loops behind the test `it != end()`.
unfoldable pub listed : StompHeader → Option (List StompHeader) → Bool
listed h none = false
listed h (some hs) = elem h hs

-- The loop over `headers_`: the number of required headers found; `none` is the early return.
unfoldable pub classify :
    Option (List StompHeader) → Option (List StompHeader) → Map StompHeader Text → ℕ → Option ℕ
classify required optional [] found = some found
classify required optional ((header, _) ∷ rest) found =
    let next =
      classify required optional rest (if listed header required then found + 1 else found) in
    let skipped = classify required optional rest found in
    if header == StompHeader.content_length
    then skipped
    else if listed header required || listed header optional
    then next
    else none

abbrev pub refuse : StompFrame → StompFrame
refuse f = record f { state = StompError.validation }

-- `requiredHeadersIt == end() || requiredHeadersFound == requiredHeadersIt->second.size()`
unfoldable pub all_found : Option (List StompHeader) → ℕ → Bool
all_found none found = true
all_found (some hs) found = found == length hs

abbrev pub valid_states : List Text
valid_states = codes "auto" ∷ codes "client" ∷ codes "client-individual" ∷ []

unfoldable pub ack_is_valid : StompFrame → Bool
ack_is_valid f = elim (lookup StompHeader.ack f.headers) [
  | none ↦ false
  | some v ↦ elem v valid_states
]

-- The last test: `stoi` may throw.
unfoldable pub validate_length : StompFrame → Outcome StompFrame
validate_length f = elim (lookup StompHeader.content_length f.headers) [
  | none ↦ returns f
  | some v ↦ stoi v >>= λ n. if to_size_t n == f.body.size then returns f else returns (refuse f)
]

-- `requiredHeaders.find(command_)` and `optionalHeaders.find(command_)`
unfoldable pub required_of : StompCommand → Option (List StompHeader)
unfolding lookup
required_of c = lookup c required_headers

unfoldable pub optional_of : StompCommand → Option (List StompHeader)
unfolding lookup
optional_of c = lookup c optional_headers

unfoldable pub validate : StompFrame → Outcome StompFrame
validate f =
    let required = required_of f.command in
    let optional = optional_of f.command in
    elim (classify required optional f.headers 0) [
      | none ↦ returns (refuse f)
      | some found ↦
          if not (all_found required found)
          then returns (refuse f)
          else if f.command == StompCommand.subscribe && not (ack_is_valid f)
          then returns (refuse f)
          else validate_length f
    ]
