-- ===== src/Projection/InputRequests/Answering.antt =====
-- How requests are opened, answered and read: the parts of
-- internal/projection/message_reply_slot_state.go that the loop calls.
use tmux_a2a_postman.Base.{
  ◌>>=◌, not, ◌&&◌, Option, none, some, Text, [], ◌∷◌, ◌==◌, is_empty, if◌then◌else◌, Map, lookup,
  insert, delete,
}
use tmux_a2a_postman.Envelope.{Metadata}
use tmux_a2a_postman.Projection.InputRequests.{
  Detail, Open, RequestFold, decrement_count, input_request_key,
}

-- openInputRequest, on the detail
unfoldable pub open_request : Metadata → Detail → Open → Open
open_request m d o =
    if not (is_empty m.input_request_id)
    then record o { exact = insert m.input_request_id d o.exact }
    else record o { fallback = insert (input_request_key m.message_id m.to) d o.fallback }

-- findExactInputRequest
unfoldable pub find_exact : Map Detail → Text → Text → Text → Option Detail
find_exact requests id reply_to participant = lookup id requests >>= λ d.
    if not (d.recipient == participant)
    then none
    else if not (is_empty reply_to) && not (reply_to == d.message_id)
    then none
    else some d

unfoldable pub close_exact : Metadata → Open → Option (Detail × Open)
close_exact m o = find_exact o.exact m.fills_input_request_id m.reply_to m.from >>= λ d.
    some (d, record o { exact = delete m.fills_input_request_id o.exact })

-- findFallbackInputRequest and the delete behind it
unfoldable pub close_fallback : Metadata → Open → Option (Detail × Open)
close_fallback m o = lookup (input_request_key m.reply_to m.from) o.fallback >>= λ d.
    some (d, record o { fallback = delete (input_request_key m.reply_to m.from) o.fallback })

-- What resolveInboundInputRequest, resolveOutboundInputRequest and resolveRequestSatisfactionOpen have
-- in common: the open request that a message answers, and what stays open.
unfoldable pub close_answered : Metadata → Open → Option (Detail × Open)
close_answered m o =
    if not (is_empty m.fills_input_request_id)
    then close_exact m o
    else if is_empty m.reply_to
    then none
    else close_fallback m o

unfoldable pub resolve_inbound : Metadata → RequestFold → RequestFold
resolve_inbound m s = elim (close_answered m s.open_inbound) [
  | none ↦ s
  | some (d, o) ↦ record s {
    open_inbound = o;
    input_required_counts = decrement_count d.recipient s.input_required_counts;
  }
]

unfoldable pub resolve_outbound : Metadata → RequestFold → RequestFold
resolve_outbound m s = elim (close_answered m s.open_outbound) [
  | none ↦ s
  | some (d, o) ↦ record s {
    open_outbound = o;
    waiting_on_input_counts = decrement_count d.sender s.waiting_on_input_counts;
  }
]

abbrev pub marked : Text → Text → Detail → Detail
marked at event_id d = record d { read_at = at; read_event_id = event_id }

-- The loop of markInputRequestRead over the requests with an id: the first one of the message and the
-- recipient in the map's order, which is that of the list.
unfoldable pub mark_first : Metadata → (Detail → Detail) → Map Detail → Option (Map Detail)
mark_first m mark [] = none
mark_first m mark ((k, d) ∷ rest) =
    let later = mark_first m mark rest in
    if d.message_id == m.message_id && d.recipient == m.to
    then some ((k, mark d) ∷ rest)
    else elim later [ none ↦ none | some rest' ↦ some ((k, d) ∷ rest') ]

unfoldable pub mark_fallback : Metadata → (Detail → Detail) → Open → Open
mark_fallback m mark o =
    let key = input_request_key m.message_id m.to in
    elim (lookup key o.fallback) [
      | none ↦ o
      | some d ↦ record o { fallback = insert key (mark d) o.fallback }
    ]

unfoldable pub mark_by_message : Metadata → (Detail → Detail) → Open → Open
mark_by_message m mark o = elim (mark_first m mark o.exact) [
  | none ↦ mark_fallback m mark o
  | some exact ↦ record o { exact = exact }
]

-- markInputRequestRead
unfoldable pub mark_input_request_read : Metadata → Text → Text → Open → Open
mark_input_request_read m at event_id o =
    let mark = marked at event_id in
    if is_empty at
    then o
    else if is_empty m.input_request_id
    then mark_by_message m mark o
    else elim (lookup m.input_request_id o.exact) [
      | none ↦ mark_by_message m mark o
      | some d ↦ record o { exact = insert m.input_request_id (mark d) o.exact }
    ]
