-- ===== src/Projection/TaskRuns.antt =====
-- ProjectTaskRunState of internal/projection/task_run_state.go: the tasks that the messages of a session
-- name, with their open requests. Payloads are read as in InputRequests.

pub mod Distinct
pub mod Tests
use tmux_a2a_postman.Base.{
  insert_text, Bool, true, false, not, ◌&&◌, ◌||◌, Option, none, some, Text, List, [], ◌∷◌, ◌++◌,
  ◌==◌, is_empty, is_nil, ltb, length, if◌then◌else◌, Map, lookup, insert, delete, text_lt, Result,
  ok, err, codes,
}
use tmux_a2a_postman.Journal.{
  Event, EventType, CommittedRecord, SessionState, mailbox_posted, mailbox_post_consumed,
  mailbox_delivered, mailbox_read, mailbox_dead_lettered,
}
use tmux_a2a_postman.Journal.Replay.{replay, ReplayError}
use tmux_a2a_postman.Envelope.{Metadata}
use tmux_a2a_postman.Envelope.Policy.{resolve_reply_policy, is_required}
use tmux_a2a_postman.Projection.{
  Seen, unseen, see, saw_all, fold_current, load_current_session_state,
}
use tmux_a2a_postman.Projection.InputRequests.{MailboxEventPayload, parsed_or_body, or_else}
use tmux_a2a_postman.Projection.InputRequests.Loop.{simplified, decode_mailbox_event_payload}

pub data TaskState : Type 0 where
  active_task waiting_input terminal_task ambiguous_task : TaskState

pub record TaskRunDetail : Type 0 where
  pub task_id : Text
  pub run_id : Text
  pub originating_message_id : Text
  pub thread_id : Text
  pub assigned_node : Text
  pub latest_message_id : Text
  pub open_input_request_ids : List Text
  pub state : TaskState
  pub terminal_message_id : Text
  pub is_ambiguous : Bool
  pub ambiguity_reason : Text

pub record TaskRunAccumulator : Type 0 where
  pub detail : TaskRunDetail
  pub first_occurred_at : Text
  pub latest_at : Text
  pub thread_ids : Map Bool
  pub open_requests : Map Bool

-- The variables of the loop
pub record TaskRunFold : Type 0 where
  pub by_key : Map TaskRunAccumulator
  pub seen : Seen
  pub saw_task_metadata : Bool

unfoldable pub no_task_runs : TaskRunFold
no_task_runs = record { by_key = []; seen = unseen; saw_task_metadata = false }

unfoldable pub task_run_metadata_from_payload : MailboxEventPayload → Metadata
task_run_metadata_from_payload p =
    let m = parsed_or_body p.content in
    record m {
      message_id = or_else m.message_id p.message_id;
      from = or_else m.from p.from;
      to = or_else m.to p.to;
      reply_policy = or_else m.reply_policy p.reply_policy;
      reply_to = or_else m.reply_to p.reply_to;
      thread_id = or_else m.thread_id p.thread_id;
      task_id = or_else m.task_id p.task_id;
      run_id = or_else m.run_id p.run_id;
      input_request_id = or_else m.input_request_id p.input_request_id;
      fills_input_request_id = or_else m.fills_input_request_id p.fills_input_request_id;
    }

unfoldable pub task_run_key : Text → Text → Text
task_run_key task_id run_id = task_id ++ (0 ∷ run_id)

unfoldable pub new_task_run : Metadata → Text → TaskRunAccumulator
new_task_run m at = record {
  detail = record {
    task_id = m.task_id;
    run_id = m.run_id;
    originating_message_id = m.message_id;
    thread_id = m.thread_id;
    assigned_node = m.to;
    latest_message_id = m.message_id;
    open_input_request_ids = [];
    state = active_task;
    terminal_message_id = [];
    is_ambiguous = false;
    ambiguity_reason = [];
  };
  first_occurred_at = at;
  latest_at = [];
  thread_ids = [];
  open_requests = [];
}

unfoldable pub note_first : Metadata → Text → TaskRunAccumulator → TaskRunAccumulator
note_first m at a =
    if text_lt at a.first_occurred_at || is_empty a.first_occurred_at
    then record a {
      first_occurred_at = at;
      detail = record a.detail { originating_message_id = m.message_id; assigned_node = m.to };
    }
    else a

unfoldable pub note_latest : Metadata → Text → TaskRunAccumulator → TaskRunAccumulator
note_latest m at a =
    if text_lt at a.latest_at
    then a
    else record a { latest_at = at; detail = record a.detail { latest_message_id = m.message_id } }

unfoldable pub note_thread : Metadata → TaskRunAccumulator → TaskRunAccumulator
note_thread m a = if is_empty m.thread_id then a else record a {
  thread_ids = insert m.thread_id true a.thread_ids;
  detail =
      if is_empty a.detail.thread_id then record a.detail { thread_id = m.thread_id } else a.detail;
}

unfoldable pub note_opened : Metadata → TaskRunAccumulator → TaskRunAccumulator
note_opened m a =
    if is_required (resolve_reply_policy m) && not (is_empty m.input_request_id)
    then record a { open_requests = insert m.input_request_id true a.open_requests }
    else a

unfoldable pub note_filled : Metadata → TaskRunAccumulator → TaskRunAccumulator
note_filled m a = if is_empty m.fills_input_request_id then a else record a {
  open_requests = delete m.fills_input_request_id a.open_requests;
  detail = record a.detail { terminal_message_id = m.message_id };
}

unfoldable pub note_task_event : Metadata → Text → TaskRunAccumulator → TaskRunAccumulator
unfolding note_first note_latest note_thread note_opened note_filled
note_task_event m at a =
    note_filled m (note_opened m (note_thread m (note_latest m at (note_first m at a))))

-- byKey[key], or a new accumulator
unfoldable pub task_run_at : Metadata → Text → Map TaskRunAccumulator → TaskRunAccumulator
unfolding new_task_run
task_run_at m at by_key = elim (lookup (task_run_key m.task_id m.run_id) by_key) [
  | none ↦ new_task_run m at
  | some a ↦ a
]

-- the part of the loop behind the checks, on simplified metadata
unfoldable pub on_task_metadata : Metadata → Text → TaskRunFold → TaskRunFold
unfolding note_task_event task_run_at
on_task_metadata m at s = record s {
  by_key =
      insert (task_run_key m.task_id m.run_id) (note_task_event m at (task_run_at m at s.by_key))
        s.by_key;
  saw_task_metadata = true;
}

unfoldable pub on_task_payload : Text → MailboxEventPayload → Text → TaskRunFold → TaskRunFold
unfolding task_run_metadata_from_payload on_task_metadata simplified
on_task_payload session_name p at s =
    let m = task_run_metadata_from_payload p in
    if is_empty m.message_id || (is_empty m.task_id && is_empty m.run_id)
    then s
    else on_task_metadata (simplified session_name m) at s

abbrev pub is_task_event : EventType → Bool
is_task_event mailbox_posted = true
is_task_event mailbox_post_consumed = true
is_task_event mailbox_delivered = true
is_task_event mailbox_read = true
is_task_event mailbox_dead_lettered = true
is_task_event _ = false

unfoldable pub sorted_map_keys : Map Bool → List Text
unfolding insert_text
sorted_map_keys [] = []
sorted_map_keys ((k, b) ∷ m) = insert_text k (sorted_map_keys m)

unfoldable pub finished_task_run : TaskRunAccumulator → TaskRunDetail
unfolding sorted_map_keys
finished_task_run a =
    let d = record a.detail { open_input_request_ids = sorted_map_keys a.open_requests } in
    if ltb 1 (length a.thread_ids)
    then record d {
      is_ambiguous = true;
      state = ambiguous_task;
      ambiguity_reason = codes "multiple thread_id values for external task/run id";
    }
    else if not (is_nil a.open_requests)
    then record d { state = waiting_input }
    else if not (is_empty d.terminal_message_id)
    then record d { state = terminal_task }
    else record d { state = active_task }

unfoldable pub task_run_lt : TaskRunDetail → TaskRunDetail → Bool
task_run_lt a b =
    if not (a.task_id == b.task_id)
    then text_lt a.task_id b.task_id
    else if not (a.run_id == b.run_id)
    then text_lt a.run_id b.run_id
    else text_lt a.originating_message_id b.originating_message_id

unfoldable pub insert_task_run : TaskRunDetail → List TaskRunDetail → List TaskRunDetail
insert_task_run t [] = t ∷ []
insert_task_run t (u ∷ us) =
    let rest = insert_task_run t us in if task_run_lt u t then u ∷ rest else t ∷ u ∷ us

-- the tasks of the accumulators, sorted
unfoldable pub finished_task_runs : Map TaskRunAccumulator → List TaskRunDetail
unfolding finished_task_run insert_task_run
finished_task_runs [] = []
finished_task_runs ((k, a) ∷ m) = insert_task_run (finished_task_run a) (finished_task_runs m)

module _ {Raw : Type 0} (raw_is_empty : Raw → Bool)
    (unmarshal : Raw → Option MailboxEventPayload) where
  unfoldable pub task_run_step : Text → TaskRunFold → Event Raw → Option TaskRunFold
  task_run_step session_name s e =
      if is_task_event e.type
      then (elim (decode_mailbox_event_payload raw_is_empty unmarshal e.payload) [
        | none ↦ some s
        | some p ↦ some (on_task_payload session_name p e.occurred_at s)
      ])
      else some (record s { seen = see e.type s.seen })

  unfoldable pub project_task_run_state :
      Option SessionState
      → Text
      → List (CommittedRecord Raw)
      → Result ReplayError (Option (List TaskRunDetail))
  project_task_run_state session_file session_name records =
      elim (load_current_session_state session_file) [
        | none ↦ ok none
        | some state ↦ elim (replay records) [
          | err x ↦ err x
          | ok events ↦ elim (fold_current (task_run_step session_name) state no_task_runs events) [
            | none ↦ ok none
            | some s ↦
                if saw_all s.seen && s.saw_task_metadata
                then ok (some (finished_task_runs s.by_key))
                else ok none
          ]
        ]
      ]
