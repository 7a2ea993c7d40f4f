-- ===== src/Projection/TaskRuns/Tests.antt =====
-- A task that waits for an answer, and one that ends.
use tmux_a2a_postman.Base.{
  insert_text, ℕ, ◌≤◌, ◌≡◌, refl, codes, Option, some, List, [], ◌∷◌, Bool, true, false, ◌&&◌, ◌==◌,
  count_if, ok, text_lt, lookup, insert, delete, any, cut, trim_space, trim_left, trim_left_rev,
  is_space, is_space2, is_space3, has_prefix,
}
use tmux_a2a_postman.Journal.{
  CommittedRecord, lease_acquired, session_resolved, mailbox_posted, mailbox_delivered,
  thread_missing, requires_thread_id,
}
use tmux_a2a_postman.Journal.Replay.{
  replay, check_all, sort_records, insert_record, record_lt, check_record, check_event, check_lease,
  collect,
}
use tmux_a2a_postman.Address.{full, split, cut_colon}
use tmux_a2a_postman.Envelope.{Metadata, only_body}
use tmux_a2a_postman.Envelope.Reading.{parse_metadata, scan_frontmatter, body_from_content}
use tmux_a2a_postman.Envelope.Policy.{next_fold, resolve_reply_policy, reads_as, next_lower}
use tmux_a2a_postman.Projection.{
  see, saw_all, unseen, fold_current, load_current_session_state, is_current,
}
use tmux_a2a_postman.Projection.InputRequests.{
  MailboxEventPayload, empty_payload, simple_name_for_session,
}
use tmux_a2a_postman.Projection.InputRequests.Loop.{simplified, decode_mailbox_event_payload}
use tmux_a2a_postman.Projection.TaskRuns.{
  TaskRunDetail, waiting_input, terminal_task, project_task_run_state, finished_task_run,
  note_task_event, new_task_run, task_run_step, on_task_payload, on_task_metadata,
  task_run_metadata_from_payload, task_run_at, task_run_key, note_first, note_latest, note_thread,
  note_opened, note_filled, finished_task_runs, insert_task_run, sorted_map_keys, no_task_runs,
}
use tmux_a2a_postman.Projection.TaskRuns.Distinct.{project_task_run_state-Distinct}
use tmux_a2a_postman.Projection.Tests.{main_session, record_of}

-- alice's request in task t, and what bob's answer makes of it
abbrev task_ask : MailboxEventPayload
task_ask = record empty_payload {
  message_id = codes "m1";
  from = codes "alice";
  to = codes "bob";
  reply_policy = codes "required";
  input_request_id = codes "i";
  task_id = codes "t";
  content = codes "?";
}

abbrev read_task_ask : ℕ → Option MailboxEventPayload
read_task_ask n = some task_ask

abbrev no_raw_is_empty : ℕ → Bool
no_raw_is_empty n = false

abbrev task_records : List (CommittedRecord ℕ)
task_records =
    record_of 1 lease_acquired []
    ∷ record_of 2 session_resolved []
    ∷ record_of 3 mailbox_posted []
    ∷ record_of 4 mailbox_delivered []
    ∷ []

abbrev task_t : TaskRunDetail
task_t = record {
  task_id = codes "t";
  run_id = [];
  originating_message_id = codes "m1";
  thread_id = [];
  assigned_node = codes "bob";
  latest_message_id = codes "m1";
  open_input_request_ids = codes "i" ∷ [];
  state = waiting_input;
  terminal_message_id = [];
  is_ambiguous = false;
  ambiguity_reason = [];
}

task_t-projected :
    project_task_run_state no_raw_is_empty read_task_ask
      (some main_session)
      (codes "main")
      task_records
    ≡ ok (some (task_t ∷ []))
unfolding project_task_run_state task_run_step decode_mailbox_event_payload on_task_payload
    on_task_metadata task_run_metadata_from_payload task_run_at task_run_key note_task_event
    note_first note_latest note_thread note_opened note_filled finished_task_runs finished_task_run
    insert_task_run sorted_map_keys no_task_runs new_task_run simplified simple_name_for_session
    insert_text text_lt lookup insert delete resolve_reply_policy reads_as next_lower any
    parse_metadata scan_frontmatter body_from_content cut full split cut_colon has_prefix trim_space
    trim_left trim_left_rev is_space replay check_all sort_records insert_record record_lt
    check_record check_event thread_missing requires_thread_id check_lease collect
    load_current_session_state fold_current is_current see saw_all unseen ◌==◌ is_space2 is_space3
task_t-projected = refl

-- The answer ends the task.
abbrev answer : Metadata
answer = record (only_body []) {
  message_id = codes "m2";
  from = codes "bob";
  to = codes "alice";
  task_id = codes "t";
  fills_input_request_id = codes "i";
}

ends_task :
    (finished_task_run (
      note_task_event answer (codes "z") (record (new_task_run answer (codes "a")) {
        open_requests = (codes "i", true) ∷ [];
      }))).state
    ≡ terminal_task
unfolding finished_task_run note_task_event note_first note_latest note_thread note_opened
    note_filled new_task_run text_lt delete ◌==◌ resolve_reply_policy reads_as next_lower any
    trim_space trim_left_rev trim_left next_fold
ends_task = refl

project_task_run_state-Distinct_example :
    count_if (λ t. t.task_id == codes "t" && t.run_id == []) (task_t ∷ []) ≤ 1
unfolding count_if ◌==◌
project_task_run_state-Distinct_example =
    project_task_run_state-Distinct no_raw_is_empty read_task_ask (some main_session) (codes "main")
      task_records (task_t ∷ []) (codes "t") [] task_t-projected
