-- ===== src/Projection/Tests.antt =====
-- Runs of the projections on a concrete journal; a payload is a number.
use tmux_a2a_postman.Base.{
  trim_space, trim_left_rev, trim_left, is_space, ◌==◌, ℕ, Bool, false, Option, none, some, List,
  [], ◌∷◌, ◌≡◌, refl, codes, Text, ok, Map, ℤ, pos, lookup, insert,
}
use tmux_a2a_postman.Journal.{
  thread_missing, requires_thread_id, EventType, lease_acquired, session_resolved,
  mailbox_delivered, command_approval_requested, command_approval_decided, control_plane_only,
  SessionState, Event, CommittedRecord,
}
use tmux_a2a_postman.Journal.Replay.{
  replay, check_all, sort_records, insert_record, record_lt, check_record, check_event, check_lease,
  collect,
}
use tmux_a2a_postman.Address.{full, split, cut_colon}
use tmux_a2a_postman.Projection.{
  see, saw_all, unseen, fold_current, load_current_session_state, is_current,
}
use tmux_a2a_postman.Projection.Mailbox.{
  on_delivered, projected_mailbox_state_payload, projected_recipient_name,
  projected_message_identity, deliver_one, MailboxPayload, MailboxFold, mailbox_step, empty_fold,
  project_mailbox_state,
}
use tmux_a2a_postman.Projection.Mailbox.Counts.{IsCounted, project_mailbox_state_counts}
use tmux_a2a_postman.Projection.CommandApproval.{
  approval_step, apply_command_approval_request, apply_command_approval_decision, is_incomplete,
  requested_thread, decide, decide_thread, decided_status, expire, no_threads, RequestPayload,
  DecisionPayload, Thread, approve, approved, project_command_approval_state,
  command_approval_expired,
}
use tmux_a2a_postman.Projection.CommandApproval.Decided.{IsApprovedNow, approved_only_by_approver}

abbrev pub main_session : SessionState
main_session = record { session_key = codes "k"; tmux_session_name = codes "main"; generation = 1 }

abbrev pub record_of : ℕ → EventType → Text → CommittedRecord ℕ
record_of n t thread = record {
  name = codes "r";
  sequence = n;
  event = some (record {
    sequence = n;
    event_id = codes "e";
    type = t;
    visibility = control_plane_only;
    session_key = codes "k";
    tmux_session_name = codes "main";
    generation = 1;
    thread_id = thread;
    lease_id = codes "l";
    lease_epoch = 1;
    occurred_at = codes "now";
    payload = 0;
  });
}

abbrev mail_records : List (CommittedRecord ℕ)
mail_records =
    record_of 1 lease_acquired []
    ∷ record_of 2 session_resolved []
    ∷ record_of 3 mailbox_delivered []
    ∷ []

abbrev payload_empty : ℕ → Bool
payload_empty n = false

abbrev mail_payload : ℕ → Option MailboxPayload
mail_payload n = some (record { message_id = codes "m"; to = codes "bob"; path = [] })

abbrev mail_counts : Map ℤ
mail_counts = (codes "bob", pos 1) ∷ []

mail_projected :
    project_mailbox_state payload_empty mail_payload (some main_session) (codes "main") mail_records
    ≡ some mail_counts
unfolding project_mailbox_state mailbox_step on_delivered projected_mailbox_state_payload
    projected_recipient_name projected_message_identity deliver_one empty_fold full split cut_colon
    replay check_all sort_records insert_record record_lt check_record check_event thread_missing
    requires_thread_id check_lease collect load_current_session_state fold_current is_current see
    saw_all unseen insert lookup ◌==◌
mail_projected = refl

project_mailbox_state_counts_example :
    (state : SessionState) × (events : List (Event ℕ)) × (s : MailboxFold)
    × (load_current_session_state (some main_session) ≡ some state)
    × (replay mail_records ≡ ok events)
    × (fold_current (mailbox_step payload_empty mail_payload (codes "main")) state empty_fold events
        ≡ some s)
    × (mail_counts ≡ s.inbox_counts)
    × IsCounted s
project_mailbox_state_counts_example =
    project_mailbox_state_counts payload_empty mail_payload (some main_session) (codes "main")
      mail_records mail_counts mail_projected

abbrev pub approval_records : List (CommittedRecord ℕ)
approval_records =
    record_of 1 lease_acquired []
    ∷ record_of 2 session_resolved []
    ∷ record_of 3 command_approval_requested (codes "t")
    ∷ record_of 4 command_approval_decided (codes "t")
    ∷ []

abbrev pub request_payload : ℕ → Option RequestPayload
request_payload n = some (record {
  requester = codes "alice";
  reviewer = codes "alice";
  command_approver_node = codes "boss";
  mode = [];
  label = codes "rm";
  category = [];
  command_hash = codes "h";
  reason = [];
  expires_at = [];
})

abbrev pub decision_payload : ℕ → Option DecisionPayload
decision_payload n = some (record { reviewer = codes "boss"; decision = approve; reason = [] })

abbrev pub no_time : Text → Option Bool
no_time t = none

abbrev pub approved_thread : Thread
approved_thread = record {
  thread_id = codes "t";
  requester = codes "alice";
  reviewer = codes "alice";
  command_approver_node = codes "boss";
  mode = [];
  label = codes "rm";
  category = [];
  command_hash = codes "h";
  status = approved;
  reason = [];
  requested_at = codes "now";
  expires_at = [];
  decided_at = codes "now";
}

pub approval_projected :
    project_command_approval_state request_payload decision_payload false no_time
      (some main_session)
      approval_records
    ≡ ok (some ((codes "t", approved_thread) ∷ []))
unfolding project_command_approval_state approval_step apply_command_approval_request
    apply_command_approval_decision is_incomplete requested_thread decide decide_thread
    decided_status expire command_approval_expired no_threads replay check_all sort_records
    insert_record record_lt check_record check_event thread_missing requires_thread_id check_lease
    collect load_current_session_state fold_current is_current see saw_all unseen insert lookup ◌==◌
    trim_space trim_left_rev trim_left is_space
approval_projected = refl

approved_only_by_approver_example :
    IsApprovedNow request_payload decision_payload false no_time
      (some main_session)
      approval_records
      (codes "t")
      approved_thread
unfolding lookup ◌==◌
approved_only_by_approver_example =
    approved_only_by_approver request_payload decision_payload false no_time (some main_session)
      approval_records ((codes "t", approved_thread) ∷ []) (codes "t") approved_thread
      approval_projected refl refl
