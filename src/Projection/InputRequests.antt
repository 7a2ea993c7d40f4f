-- ===== src/Projection/InputRequests.antt =====
-- ProjectMessageInputRequestStateAt of internal/projection/message_reply_slot_state.go: which messages
-- of a session wait for an answer; the loop itself is in InputRequests/Loop.
pub mod Answering
pub mod Satisfied
pub mod Loop
pub mod Held
pub mod Ledgers
pub mod Covered
pub mod Counts
pub mod Consistent
pub mod Answers
pub mod Tests
use tmux_a2a_postman.Base.{
  ◌>>=◌, Bool, true, false, not, ◌&&◌, ◌||◌, Option, none, some, Text, codes, List, [], ◌∷◌, ◌++◌,
  ◌==◌, is_empty, if◌then◌else◌, Map, lookup, insert, delete, ℕ, suc, ◌+◌, ◌-◌, ◌/◌, ltb, leb, eqb,
  text_lt, Result, ok, err, map, is_nil,
}
use tmux_a2a_postman.Address.{full, split}
use tmux_a2a_postman.Journal.{
  Event, EventType, type_text, CommittedRecord, SessionState, mailbox_post_consumed,
  mailbox_delivered, mailbox_read, mailbox_dead_lettered,
}
use tmux_a2a_postman.Journal.Replay.{replay}
use tmux_a2a_postman.Envelope.{Metadata, only_body}
use tmux_a2a_postman.Envelope.Reading.{parse_metadata, body_from_content}
use tmux_a2a_postman.Envelope.Policy.{ReplyPolicy, resolve_reply_policy, is_required}
use tmux_a2a_postman.Projection.{
  Seen, unseen, see, saw_all, fold_current, load_current_session_state,
}

abbrev pub default_stale_after_seconds : ℕ
default_stale_after_seconds = 3600

-- MailboxEventPayload, with the fields that the projection reads
pub record MailboxEventPayload : Type 0 where
  pub context_id : Text
  pub message_id : Text
  pub from : Text
  pub to : Text
  pub reply_policy : Text
  pub reply_to : Text
  pub message_type : Text
  pub timestamp : Text
  pub input_request_id : Text
  pub fills_input_request_id : Text
  pub input_request_set_id : Text
  pub branch_id : Text
  pub completion_rule : Text
  pub thread_id : Text
  pub task_id : Text
  pub run_id : Text
  pub content : Text

abbrev pub empty_payload : MailboxEventPayload
empty_payload = record {
  context_id = [];
  message_id = [];
  from = [];
  to = [];
  reply_policy = [];
  reply_to = [];
  message_type = [];
  timestamp = [];
  input_request_id = [];
  fills_input_request_id = [];
  input_request_set_id = [];
  branch_id = [];
  completion_rule = [];
  thread_id = [];
  task_id = [];
  run_id = [];
  content = [];
}

pub data Direction : Type 0 where
  inbound outbound no_direction : Direction

-- InputRequestDetail
pub record Detail : Type 0 where
  pub direction : Direction
  pub message_id : Text
  pub input_request_id : Text
  pub sender : Text
  pub recipient : Text
  pub reply_policy : ReplyPolicy
  pub opened_at : Text
  pub opened_at_source : Text
  pub opened_event_id : Text
  pub read_at : Text
  pub read_event_id : Text

-- RequestSatisfaction
pub record Satisfaction : Type 0 where
  pub opened_count : ℕ
  pub filled_count : ℕ
  pub open_count : ℕ
  pub dead_lettered_count : ℕ
  pub stale_open_count : ℕ
  pub stale_after_seconds : ℕ
  pub total_time_to_fill_seconds : ℕ
  pub average_time_to_fill_seconds : ℕ
  pub longest_open_age_seconds : ℕ

abbrev pub no_satisfaction : Satisfaction
no_satisfaction = record {
  opened_count = 0;
  filled_count = 0;
  open_count = 0;
  dead_lettered_count = 0;
  stale_open_count = 0;
  stale_after_seconds = 0;
  total_time_to_fill_seconds = 0;
  average_time_to_fill_seconds = 0;
  longest_open_age_seconds = 0;
}

-- The requests that are open: those that an id names, and the others by message and recipient.
pub record Open : Type 0 where
  pub exact : Map Detail
  pub fallback : Map Detail

-- The variables of the loop. No count falls below zero, since decrementCount stops there.
pub record RequestFold : Type 0 where
  pub unread_counts : Map ℕ
  pub input_required_counts : Map ℕ
  pub waiting_on_input_counts : Map ℕ
  pub info_unread_counts : Map ℕ
  pub open_inbound : Open
  pub open_outbound : Open
  pub unsatisfied : Open
  pub satisfaction : Map Satisfaction
  pub info_unread : Map Detail
  pub seen : Seen
  pub saw_complete_mailbox_event : Bool

abbrev pub none_open : Open
none_open = record { exact = []; fallback = [] }

unfoldable pub no_requests : RequestFold
no_requests = record {
  unread_counts = [];
  input_required_counts = [];
  waiting_on_input_counts = [];
  info_unread_counts = [];
  open_inbound = none_open;
  open_outbound = none_open;
  unsatisfied = none_open;
  satisfaction = [];
  info_unread = [];
  seen = unseen;
  saw_complete_mailbox_event = false;
}

-- A missing key of a Go map reads as the zero value.
abbrev pub number_at : Text → Map ℕ → ℕ
number_at k m = elim (lookup k m) [ none ↦ 0 | some n ↦ n ]

abbrev pub satisfaction_at : Text → Map Satisfaction → Satisfaction
satisfaction_at k m = elim (lookup k m) [ none ↦ no_satisfaction | some s ↦ s ]

-- counts[key]++
unfoldable pub increment_count : Text → Map ℕ → Map ℕ
increment_count k m = insert k (suc (number_at k m)) m

-- decrementCount
unfoldable pub decrement_count : Text → Map ℕ → Map ℕ
decrement_count k m = if eqb (number_at k m) 0 then m else insert k (number_at k m - 1) m

-- inputRequestKey: "\x00" between the two
unfoldable pub input_request_key : Text → Text → Text
input_request_key message_id node_name = message_id ++ (0 ∷ node_name)

-- SimpleNameForSession
unfoldable pub simple_name_for_session : Text → Text → Text
simple_name_for_session name session_name =
    let parts = split (full name session_name) in
    if parts.has_session && parts.session_name == session_name then parts.node_name else name

-- `if x == "" { x = y }`
abbrev pub or_else : Text → Text → Text
or_else x y = if is_empty x then y else x

abbrev pub parsed_or_body : Text → Metadata
parsed_or_body content = elim (parse_metadata content) [
  | ok m ↦ m
  | err x ↦ only_body (body_from_content content)
]

-- inputRequestMetadataFromPayload
unfoldable pub input_request_metadata_from_payload : MailboxEventPayload → Metadata
input_request_metadata_from_payload p =
    let m = parsed_or_body p.content in
    record m {
      message_id = or_else m.message_id p.message_id;
      context_id = or_else m.context_id p.context_id;
      from = or_else m.from p.from;
      to = or_else m.to p.to;
      reply_policy = or_else m.reply_policy p.reply_policy;
      reply_to = or_else m.reply_to p.reply_to;
      message_type = or_else m.message_type p.message_type;
      timestamp = or_else m.timestamp p.timestamp;
      input_request_id = or_else m.input_request_id p.input_request_id;
      fills_input_request_id = or_else m.fills_input_request_id p.fills_input_request_id;
      input_request_set_id = or_else m.input_request_set_id p.input_request_set_id;
      branch_id = or_else m.branch_id p.branch_id;
      completion_rule = or_else m.completion_rule p.completion_rule;
    }

-- the detail that openInputRequest and openRequestSatisfaction build
unfoldable pub opened_detail : Metadata → Direction → Text → Text → Text → Detail
opened_detail m direction at source event_id = record {
  direction = direction;
  message_id = m.message_id;
  input_request_id = m.input_request_id;
  sender = m.from;
  recipient = m.to;
  reply_policy = resolve_reply_policy m;
  opened_at = at;
  opened_at_source = source;
  opened_event_id = event_id;
  read_at = [];
  read_event_id = [];
}
