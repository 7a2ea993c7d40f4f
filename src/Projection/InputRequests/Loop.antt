-- ===== src/Projection/InputRequests/Loop.antt =====
-- The loop of ProjectMessageInputRequestStateAt of internal/projection/message_reply_slot_state.go and
-- what it returns. Decoding a payload is `unmarshal`, json.Unmarshal; time is read as in Satisfied.
use tmux_a2a_postman.Base.{
  Bool, true, false, not, ◌&&◌, Option, none, some, Text, List, [], ◌∷◌, ◌++◌, ◌==◌, is_empty,
  if◌then◌else◌, Map, lookup, insert, delete, ℕ, text_lt, Result, ok, err, map,
}
use tmux_a2a_postman.Journal.{
  Event, EventType, type_text, CommittedRecord, SessionState, mailbox_post_consumed,
  mailbox_delivered, mailbox_read, mailbox_dead_lettered,
}
use tmux_a2a_postman.Journal.Replay.{ReplayError, replay}
use tmux_a2a_postman.Envelope.{Metadata}
use tmux_a2a_postman.Envelope.Policy.{resolve_reply_policy, is_required}
use tmux_a2a_postman.Projection.{see, saw_all, fold_current, load_current_session_state}
use tmux_a2a_postman.Projection.InputRequests.{
  RequestFold, MailboxEventPayload, empty_payload, Detail, Open, Satisfaction, no_requests, inbound,
  outbound, no_direction, increment_count, decrement_count, input_request_key, opened_detail,
  input_request_metadata_from_payload, simple_name_for_session,
}
use tmux_a2a_postman.Projection.InputRequests.Answering.{
  open_request, resolve_inbound, resolve_outbound, mark_input_request_read,
}
use tmux_a2a_postman.Projection.InputRequests.Satisfied.{
  Ledger, open_request_satisfaction, dead_letter_request_satisfaction, fill_request_satisfaction,
  finalize_request_satisfaction,
}

-- the part of the variables that the satisfaction is kept in, and a change of it
abbrev pub ledger : RequestFold → Ledger
ledger s = record { unsatisfied = s.unsatisfied; satisfaction = s.satisfaction }

abbrev pub with_ledger : RequestFold → Ledger → RequestFold
with_ledger s l = record s { unsatisfied = l.unsatisfied; satisfaction = l.satisfaction }

-- meta with its From and To simplified
unfoldable pub simplified : Text → Metadata → Metadata
simplified session_name m = record m {
  from = simple_name_for_session m.from session_name;
  to = simple_name_for_session m.to session_name;
}

-- what a required message opens in the session of its sender
unfoldable pub open_outbound_request : Metadata → Text → Text → Text → RequestFold → RequestFold
open_outbound_request m at source event_id s = record s {
  open_outbound = open_request m (opened_detail m outbound at source event_id) s.open_outbound;
  waiting_on_input_counts = increment_count m.from s.waiting_on_input_counts;
}

-- what a required message opens in the session of its recipient
unfoldable pub open_inbound_request : Metadata → Text → Text → Text → RequestFold → RequestFold
open_inbound_request m at source event_id s =
    let opened = record s {
      open_inbound = open_request m (opened_detail m inbound at source event_id) s.open_inbound;
      input_required_counts = increment_count m.to s.input_required_counts;
    } in
    with_ledger opened (open_request_satisfaction m at source event_id (ledger opened))

-- InputRequestDetail{MessageID: …, Sender: …, Recipient: …}; its reply policy, which nothing reads, is
-- that of the message
unfoldable pub info_detail : Metadata → Detail
info_detail m = record (opened_detail m no_direction [] [] []) { input_request_id = [] }

unfoldable pub note_info_unread : Metadata → RequestFold → RequestFold
note_info_unread m s = record s {
  info_unread = insert (input_request_key m.message_id m.to) (info_detail m) s.info_unread;
  info_unread_counts = increment_count m.to s.info_unread_counts;
}

unfoldable pub read_info : Metadata → RequestFold → RequestFold
read_info m s =
    let key = input_request_key m.message_id m.to in
    elim (lookup key s.info_unread) [
      | none ↦ s
      | some d ↦ record s {
        info_unread_counts = decrement_count d.recipient s.info_unread_counts;
        info_unread = delete key s.info_unread;
      }
    ]

-- the read case
unfoldable pub on_request_read : Metadata → Text → Text → RequestFold → RequestFold
on_request_read m at event_id s = read_info m (record s {
  unread_counts = decrement_count m.to s.unread_counts;
  open_inbound = mark_input_request_read m at event_id s.open_inbound;
  open_outbound = mark_input_request_read m at event_id s.open_outbound;
})

-- the dead-letter case
unfoldable pub on_request_dead_lettered : Metadata → Text → Text → Text → RequestFold → RequestFold
on_request_dead_lettered m at source event_id s =
    with_ledger s (dead_letter_request_satisfaction m at source event_id (ledger s))

-- the order of sortedInputRequestDetails
unfoldable pub detail_lt : Detail → Detail → Bool
detail_lt a b =
    if not (a.opened_at == b.opened_at)
    then text_lt a.opened_at b.opened_at
    else if not (a.message_id == b.message_id)
    then text_lt a.message_id b.message_id
    else if not (a.input_request_id == b.input_request_id)
    then text_lt a.input_request_id b.input_request_id
    else if not (a.sender == b.sender)
    then text_lt a.sender b.sender
    else text_lt a.recipient b.recipient

unfoldable pub insert_sorted : Detail → List Detail → List Detail
insert_sorted d [] = d ∷ []
insert_sorted d (e ∷ es) =
    let rest = insert_sorted d es in if detail_lt e d then e ∷ rest else d ∷ e ∷ es

unfoldable pub sort_details : List Detail → List Detail
sort_details [] = []
sort_details (d ∷ ds) = insert_sorted d (sort_details ds)

-- sortedInputRequestDetails. sort.Slice may leave details that its test does not tell apart in any
-- order; here they keep that of the maps.
unfoldable pub sorted_input_request_details : Open → List Detail
sorted_input_request_details o =
    sort_details (map (λ (k, d). d) o.exact ++ map (λ (k, d). d) o.fallback)

-- MessageInputRequestState
pub record MessageInputRequestState : Type 0 where
  pub unread_counts : Map ℕ
  pub input_required_counts : Map ℕ
  pub waiting_on_input_counts : Map ℕ
  pub info_unread_counts : Map ℕ
  pub input_required : List Detail
  pub waiting_on_input : List Detail
  pub request_satisfaction : Map Satisfaction

-- the events whose content must be there
abbrev pub needs_content : EventType → Bool
needs_content mailbox_post_consumed = true
needs_content mailbox_delivered = true
needs_content _ = false

-- the events that the loop goes on with
abbrev pub is_request_event : EventType → Bool
is_request_event mailbox_read = true
is_request_event mailbox_dead_lettered = true
is_request_event t = needs_content t

module _ {Raw : Type 0} (raw_is_empty : Raw → Bool)
    (unmarshal : Raw → Option MailboxEventPayload) where
  -- decodeMailboxEventPayload
  unfoldable pub decode_mailbox_event_payload : Raw → Option MailboxEventPayload
  decode_mailbox_event_payload raw = if raw_is_empty raw then some empty_payload else unmarshal raw

module _ (parse_time : Text → Option ℕ) (whole_seconds : ℕ → ℕ → ℕ) where
  abbrev fill : Metadata → Text → RequestFold → RequestFold
  fill m at s = with_ledger s (fill_request_satisfaction parse_time whole_seconds m at (ledger s))

  -- the variables that are returned
  unfoldable pub projected : ℕ → ℕ → RequestFold → MessageInputRequestState
  projected now stale s = record {
    unread_counts = s.unread_counts;
    input_required_counts = s.input_required_counts;
    waiting_on_input_counts = s.waiting_on_input_counts;
    info_unread_counts = s.info_unread_counts;
    input_required = sorted_input_request_details s.open_inbound;
    waiting_on_input = sorted_input_request_details s.open_outbound;
    request_satisfaction =
        finalize_request_satisfaction parse_time whole_seconds now stale (ledger s);
  }

  -- what stands behind the loop
  unfoldable pub finished : ℕ → ℕ → RequestFold → Option MessageInputRequestState
  finished now stale s =
      if saw_all s.seen && s.saw_complete_mailbox_event then some (projected now stale s) else none

  -- the case of a post that is consumed
  unfoldable pub on_post_consumed : Metadata → Text → Text → Text → RequestFold → RequestFold
  on_post_consumed m at source event_id s =
      let resolved = resolve_inbound m (fill m at s) in
      if is_required (resolve_reply_policy m)
      then open_outbound_request m at source event_id resolved
      else resolved

  -- the case of a delivery
  unfoldable pub on_request_delivered : Metadata → Text → Text → Text → RequestFold → RequestFold
  on_request_delivered m at source event_id s =
      let filled = fill m at (resolve_outbound m s) in
      let counted = record filled { unread_counts = increment_count m.to filled.unread_counts } in
      if is_required (resolve_reply_policy m)
      then open_inbound_request m at source event_id counted
      else note_info_unread m counted

  -- the second switch, on what the payload says of a message
  unfoldable pub on_mailbox_event : EventType → Metadata → Text → Text → RequestFold → RequestFold
  on_mailbox_event mailbox_post_consumed m at event_id s =
      on_post_consumed m at (type_text mailbox_post_consumed) event_id s
  on_mailbox_event mailbox_delivered m at event_id s =
      on_request_delivered m at (type_text mailbox_delivered) event_id s
  on_mailbox_event mailbox_read m at event_id s = on_request_read m at event_id s
  on_mailbox_event mailbox_dead_lettered m at event_id s =
      on_request_dead_lettered m at (type_text mailbox_dead_lettered) event_id s
  on_mailbox_event _ m at event_id s = s

  -- one turn of the loop on a mailbox event, from its decoded payload on
  unfoldable pub on_payload :
      Text → EventType → MailboxEventPayload → Text → Text → RequestFold → RequestFold
  on_payload session_name t p at event_id s =
      let m = input_request_metadata_from_payload p in
      if is_empty m.message_id
      then s
      else if needs_content t && is_empty p.content
      then s
      else on_mailbox_event t (simplified session_name m) at event_id
          (record s { saw_complete_mailbox_event = true })

  module _ {Raw : Type 0} (raw_is_empty : Raw → Bool)
      (unmarshal : Raw → Option MailboxEventPayload) where
    -- one turn of the loop, on an event of the current session
    unfoldable pub request_step : Text → RequestFold → Event Raw → Option RequestFold
    request_step session_name s e =
        if is_request_event e.type
        then (elim (decode_mailbox_event_payload raw_is_empty unmarshal e.payload) [
          | none ↦ some s
          | some p ↦ some (on_payload session_name e.type p e.occurred_at e.event_id s)
        ])
        else some (record s { seen = see e.type s.seen })

    -- ProjectMessageInputRequestStateAt, on what the journal and its session file hold
    unfoldable pub project_message_input_request_state :
        ℕ
        → ℕ
        → Option SessionState
        → Text
        → List (CommittedRecord Raw)
        → Result ReplayError (Option MessageInputRequestState)
    project_message_input_request_state now stale session_file session_name records =
        elim (load_current_session_state session_file) [
          | none ↦ ok none
          | some state ↦ elim (replay records) [
            | err x ↦ err x
            | ok events ↦ elim (fold_current (request_step session_name) state no_requests events) [
              | none ↦ ok none
              | some s ↦ ok (finished now stale s)
            ]
          ]
        ]
