-- ===== src/Projection/InputRequests/Tests.antt =====
-- Runs of the input requests' projection on a concrete journal.
use tmux_a2a_postman.Base.{
  delete, any, cut, trim_space, trim_left, trim_left_rev, is_space, is_space2, is_space3,
  has_prefix, ℕ, Bool, true, false, Option, none, some, List, [], ◌∷◌, ◌≡◌, refl, codes, Text, ok,
  lookup, ◌==◌, ◌-◌,
}
use tmux_a2a_postman.Journal.{
  thread_missing, requires_thread_id, lease_acquired, session_resolved, mailbox_delivered,
  CommittedRecord,
}
use tmux_a2a_postman.Journal.Replay.{
  replay, check_all, sort_records, insert_record, record_lt, check_record, check_event, check_lease,
  collect,
}
use tmux_a2a_postman.Address.{full, split, cut_colon}
use tmux_a2a_postman.Envelope.{Metadata, only_body}
use tmux_a2a_postman.Envelope.Reading.{parse_metadata, scan_frontmatter, body_from_content}
use tmux_a2a_postman.Envelope.Policy.{next_fold, resolve_reply_policy, reads_as, next_lower}
use tmux_a2a_postman.Projection.InputRequests.Satisfied.{
  open_request_satisfaction, fill_request_satisfaction,
}
use tmux_a2a_postman.Projection.{
  see, saw_all, unseen, fold_current, load_current_session_state, is_current,
}
use tmux_a2a_postman.Projection.Tests.{main_session, record_of}
use tmux_a2a_postman.Projection.InputRequests.{
  MailboxEventPayload, RequestFold, Detail, no_requests, simple_name_for_session,
  input_request_metadata_from_payload, inbound, opened_detail,
}
use tmux_a2a_postman.Projection.InputRequests.Answering.{
  find_exact, close_exact, resolve_inbound, resolve_outbound, close_answered, open_request,
}
use tmux_a2a_postman.Projection.InputRequests.Loop.{
  on_post_consumed, request_step, decode_mailbox_event_payload, finished, on_mailbox_event,
  on_request_delivered, simplified, open_inbound_request, note_info_unread, projected, on_payload,
  project_message_input_request_state,
}
use tmux_a2a_postman.Projection.InputRequests.Consistent.{
  IsConsistent, project_message_input_request_state_counts,
}
use tmux_a2a_postman.Projection.InputRequests.Answers.{left_open, on_post_consumed-Answers}

abbrev ask : MailboxEventPayload
ask = record {
  context_id = [];
  message_id = codes "m1";
  from = codes "alice";
  to = codes "bob";
  reply_policy = codes "required";
  reply_to = [];
  message_type = [];
  timestamp = [];
  input_request_id = codes "i";
  fills_input_request_id = [];
  input_request_set_id = [];
  branch_id = [];
  completion_rule = [];
  thread_id = [];
  task_id = [];
  run_id = [];
  content = codes "?";
}

abbrev read_ask : ℕ → Option MailboxEventPayload
read_ask n = some ask

abbrev no_raw_is_empty : ℕ → Bool
no_raw_is_empty n = false

abbrev clock : Text → Option ℕ
clock t = some 5

abbrev seconds : ℕ → ℕ → ℕ
seconds a b = b - a

abbrev ask_records : List (CommittedRecord ℕ)
ask_records =
    record_of 1 lease_acquired []
    ∷ record_of 2 session_resolved []
    ∷ record_of 3 mailbox_delivered []
    ∷ []

abbrev asked : RequestFold
asked =
    on_payload clock seconds (codes "main") mailbox_delivered ask (codes "now") (codes "e")
      (record no_requests { seen = record { lease = true; resolution = true } })

asked-projected :
    project_message_input_request_state clock seconds no_raw_is_empty read_ask 9 0
      (some main_session)
      (codes "main")
      ask_records
    ≡ ok (some (projected clock seconds 9 0 asked))
unfolding project_message_input_request_state request_step decode_mailbox_event_payload finished
    no_requests on_payload on_mailbox_event on_request_delivered simplified simple_name_for_session
    open_inbound_request open_request_satisfaction resolve_outbound close_answered note_info_unread
    open_request fill_request_satisfaction input_request_metadata_from_payload resolve_reply_policy
    reads_as next_lower any parse_metadata scan_frontmatter body_from_content cut full split
    cut_colon has_prefix trim_space trim_left trim_left_rev is_space replay check_all sort_records
    insert_record record_lt check_record check_event thread_missing requires_thread_id check_lease
    collect load_current_session_state fold_current is_current see saw_all unseen ◌==◌ is_space2
    is_space3
asked-projected = refl

project_message_input_request_state_counts_example :
    IsConsistent (projected clock seconds 9 0 asked) (codes "bob")
project_message_input_request_state_counts_example =
    project_message_input_request_state_counts clock seconds no_raw_is_empty read_ask 9 0
      (some main_session) (codes "main") ask_records (projected clock seconds 9 0 asked)
      (codes "bob") asked-projected

abbrev request_of_alice : Metadata
request_of_alice = record (only_body []) {
  message_id = codes "m1";
  from = codes "alice";
  to = codes "bob";
  input_request_id = codes "i";
}

abbrev bob_answers : Metadata
bob_answers = record (only_body []) {
  message_id = codes "m2";
  from = codes "bob";
  to = codes "alice";
  reply_to = codes "m1";
  fills_input_request_id = codes "i";
}

abbrev bob_is_asked : Detail
bob_is_asked = opened_detail request_of_alice inbound (codes "now") (codes "source") (codes "e")

abbrev bob_waiting : RequestFold
bob_waiting = record no_requests {
  open_inbound = record { exact = (codes "i", bob_is_asked) ∷ []; fallback = [] };
}

-- the answer closes the request
bob_answered :
    lookup
      (codes "i")
      (on_post_consumed clock seconds bob_answers
        (codes "then")
        []
        []
        bob_waiting).open_inbound.exact
    ≡ none
unfolding on_post_consumed resolve_inbound close_answered close_exact find_exact opened_detail
    lookup delete ◌==◌ fill_request_satisfaction resolve_reply_policy reads_as next_lower any
    trim_space trim_left trim_left_rev is_space no_requests next_fold
bob_answered = refl

on_post_consumed-Answers_example :
    lookup
      (codes "i")
      (on_post_consumed clock seconds bob_answers
        (codes "then")
        []
        []
        bob_waiting).open_inbound.exact
    ≡ left_open bob_answers (codes "i") bob_is_asked
unfolding lookup ◌==◌
on_post_consumed-Answers_example =
    on_post_consumed-Answers clock seconds bob_answers (codes "then") [] [] bob_waiting (codes "i")
      bob_is_asked refl
