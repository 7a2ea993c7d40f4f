-- ===== src/Envelope.antt =====
-- The metadata of a message: internal/envelope/metadata.go. Its reading is in Envelope/Reading.
pub mod Reading
pub mod Policy
pub mod Lines
pub mod RoundTrip
pub mod Tests
use tmux_a2a_postman.Base.{
  Bool, true, false, ◌&&◌, ◌||◌, not, Option, none, some, Text, codes, List, [], ◌∷◌, ◌==◌,
  is_empty, has_prefix, if◌then◌else◌, eqb, ltb, ℕ, suc, cut, trim_space, Map, lookup, Result, ok,
  err,
}

pub record Metadata : Type 0 where
  pub context_id : Text
  pub from : Text
  pub to : Text
  pub message_id : Text
  pub reply_policy : Text
  pub reply_to : Text
  pub message_type : Text
  pub timestamp : Text
  pub thread_id : Text
  pub task_id : Text
  pub run_id : Text
  pub input_request_id : Text
  pub fills_input_request_id : Text
  pub input_request_set_id : Text
  pub verdict : Text
  pub verdict_of : Text
  pub branch_id : Text
  pub completion_rule : Text
  pub runtime_context_id : Text
  pub runtime_context_scope : Text
  pub runtime_context_captured_at : Text
  pub runtime_context_hash : Text
  pub blocked_report_id : Text
  pub blocked_scope : Text
  pub blocked_scope_id : Text
  pub blocked_reason : Text
  pub body : Text

-- Metadata{Body: body}
abbrev pub only_body : Text → Metadata
only_body body = record {
  context_id = [];
  from = [];
  to = [];
  message_id = [];
  reply_policy = [];
  reply_to = [];
  message_type = [];
  timestamp = [];
  thread_id = [];
  task_id = [];
  run_id = [];
  input_request_id = [];
  fills_input_request_id = [];
  input_request_set_id = [];
  verdict = [];
  verdict_of = [];
  branch_id = [];
  completion_rule = [];
  runtime_context_id = [];
  runtime_context_scope = [];
  runtime_context_captured_at = [];
  runtime_context_hash = [];
  blocked_report_id = [];
  blocked_scope = [];
  blocked_scope_id = [];
  blocked_reason = [];
  body = body;
}

-- The fields that a params block can set
pub data Field : Type 0 where
  context_field from_field to_field message_field reply_policy_field reply_to_field : Field
  message_type_field timestamp_field thread_field task_field run_field input_request_field : Field
  fills_input_request_field input_request_set_field verdict_field verdict_of_field : Field
  branch_field completion_rule_field runtime_context_field runtime_scope_field : Field
  runtime_captured_at_field runtime_hash_field blocked_report_field blocked_scope_field : Field
  blocked_scope_id_field blocked_reason_field : Field

-- the cases of the switch on a key
abbrev pub field_keys : Map Field
field_keys =
    (codes "contextId", context_field)
    ∷ (codes "context_id", context_field)
    ∷ (codes "from", from_field)
    ∷ (codes "to", to_field)
    ∷ (codes "messageId", message_field)
    ∷ (codes "message_id", message_field)
    ∷ (codes "replyPolicy", reply_policy_field)
    ∷ (codes "reply_policy", reply_policy_field)
    ∷ (codes "replyTo", reply_to_field)
    ∷ (codes "reply_to", reply_to_field)
    ∷ (codes "messageType", message_type_field)
    ∷ (codes "message_type", message_type_field)
    ∷ (codes "timestamp", timestamp_field)
    ∷ (codes "thread_id", thread_field)
    ∷ (codes "task_id", task_field)
    ∷ (codes "run_id", run_field)
    ∷ (codes "input_request_id", input_request_field)
    ∷ (codes "fills_input_request_id", fills_input_request_field)
    ∷ (codes "input_request_set_id", input_request_set_field)
    ∷ (codes "verdict", verdict_field)
    ∷ (codes "verdictOf", verdict_of_field)
    ∷ (codes "verdict_of", verdict_of_field)
    ∷ (codes "branch_id", branch_field)
    ∷ (codes "completion_rule", completion_rule_field)
    ∷ (codes "runtimeContextId", runtime_context_field)
    ∷ (codes "runtime_context_id", runtime_context_field)
    ∷ (codes "runtimeContextScope", runtime_scope_field)
    ∷ (codes "runtime_context_scope", runtime_scope_field)
    ∷ (codes "runtimeContextCapturedAt", runtime_captured_at_field)
    ∷ (codes "runtime_context_captured_at", runtime_captured_at_field)
    ∷ (codes "runtimeContextHash", runtime_hash_field)
    ∷ (codes "runtime_context_hash", runtime_hash_field)
    ∷ (codes "blocked_report_id", blocked_report_field)
    ∷ (codes "blocked_scope", blocked_scope_field)
    ∷ (codes "blocked_scope_id", blocked_scope_id_field)
    ∷ (codes "blocked_reason", blocked_reason_field)
    ∷ []

unfoldable pub set_field : Field → Text → Metadata → Metadata
set_field context_field v m = record m { context_id = v }
set_field from_field v m = record m { from = v }
set_field to_field v m = record m { to = v }
set_field message_field v m = record m { message_id = v }
set_field reply_policy_field v m = record m { reply_policy = v }
set_field reply_to_field v m = record m { reply_to = v }
set_field message_type_field v m = record m { message_type = v }
set_field timestamp_field v m = record m { timestamp = v }
set_field thread_field v m = record m { thread_id = v }
set_field task_field v m = record m { task_id = v }
set_field run_field v m = record m { run_id = v }
set_field input_request_field v m = record m { input_request_id = v }
set_field fills_input_request_field v m = record m { fills_input_request_id = v }
set_field input_request_set_field v m = record m { input_request_set_id = v }
set_field verdict_field v m = record m { verdict = v }
set_field verdict_of_field v m = record m { verdict_of = v }
set_field branch_field v m = record m { branch_id = v }
set_field completion_rule_field v m = record m { completion_rule = v }
set_field runtime_context_field v m = record m { runtime_context_id = v }
set_field runtime_scope_field v m = record m { runtime_context_scope = v }
set_field runtime_captured_at_field v m = record m { runtime_context_captured_at = v }
set_field runtime_hash_field v m = record m { runtime_context_hash = v }
set_field blocked_report_field v m = record m { blocked_report_id = v }
set_field blocked_scope_field v m = record m { blocked_scope = v }
set_field blocked_scope_id_field v m = record m { blocked_scope_id = v }
set_field blocked_reason_field v m = record m { blocked_reason = v }

pub data EnvelopeError : Type 0 where
  not_closed no_frontmatter missing_from_or_to : EnvelopeError
