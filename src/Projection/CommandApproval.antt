-- ===== src/Projection/CommandApproval.antt =====
-- ProjectCommandApprovalState of internal/projection/command_approval.go: which commands are approved.
-- Decoding the payloads and reading the clock are parameters.
pub mod Decided
pub mod Requested
use tmux_a2a_postman.Base.{
  ◌>>=◌, Bool, true, false, not, ◌&&◌, ◌||◌, Option, none, some, Text, codes, List, [], ◌∷◌, ◌==◌,
  is_empty, if◌then◌else◌, Map, lookup, insert, ok, err, Result,
}
use tmux_a2a_postman.Journal.{
  Event, CommittedRecord, SessionState, command_approval_requested, command_approval_decided,
}
use tmux_a2a_postman.Journal.Replay.{replay}
use tmux_a2a_postman.Projection.{
  Seen, unseen, see, saw_all, fold_current, load_current_session_state,
}

pub data Status : Type 0 where
  pending approved rejected expired wrong_reviewer stale : Status

pub data Decision : Type 0 where
  approve reject : Decision
  unknown_decision : Text → Decision

-- CommandApprovalRequestPayload
pub record RequestPayload : Type 0 where
  pub requester : Text
  pub reviewer : Text
  pub command_approver_node : Text
  pub mode : Text
  pub label : Text
  pub category : Text
  pub command_hash : Text
  pub reason : Text
  pub expires_at : Text

-- CommandApprovalDecisionPayload
pub record DecisionPayload : Type 0 where
  pub reviewer : Text
  pub decision : Decision
  pub reason : Text

-- CommandApprovalThread
pub record Thread : Type 0 where
  pub thread_id : Text
  pub requester : Text
  pub reviewer : Text
  pub command_approver_node : Text
  pub mode : Text
  pub label : Text
  pub category : Text
  pub command_hash : Text
  pub status : Status
  pub reason : Text
  pub requested_at : Text
  pub expires_at : Text
  pub decided_at : Text

pub data ApprovalError : Type 0 where
  replay_failed bad_event : ApprovalError

pub record ApprovalFold : Type 0 where
  pub threads : Map Thread
  pub seen : Seen
  pub saw_command_approval : Bool

unfoldable pub no_threads : ApprovalFold
no_threads = record { threads = []; seen = unseen; saw_command_approval = false }

-- the thread of a request
unfoldable pub requested_thread : Text → Text → RequestPayload → Thread
requested_thread thread_id occurred_at p = record {
  thread_id = thread_id;
  requester = p.requester;
  reviewer = p.reviewer;
  command_approver_node = p.command_approver_node;
  mode = p.mode;
  label = p.label;
  category = p.category;
  command_hash = p.command_hash;
  status = pending;
  reason = p.reason;
  requested_at = occurred_at;
  expires_at = p.expires_at;
  decided_at = [];
}

-- the thread of a decision without a request
unfoldable pub stale_thread : Text → Text → DecisionPayload → Thread
stale_thread thread_id occurred_at p = record {
  thread_id = thread_id;
  requester = [];
  reviewer = p.reviewer;
  command_approver_node = [];
  mode = [];
  label = [];
  category = [];
  command_hash = [];
  status = stale;
  reason = p.reason;
  requested_at = [];
  expires_at = [];
  decided_at = occurred_at;
}

-- the status of a decision by the right reviewer; `none` for an unknown decision
unfoldable pub decided_status : Decision → Option Status
decided_status approve = some approved
decided_status reject = some rejected
decided_status (unknown_decision d) = none

-- a decision on a thread that was requested
unfoldable pub decide_thread : Text → DecisionPayload → Thread → Option Thread
decide_thread occurred_at p t =
    if is_empty t.command_approver_node || not (p.reviewer == t.command_approver_node)
    then some (record t { status = wrong_reviewer; reason = p.reason; decided_at = occurred_at })
    else decided_status p.decision >>= λ s.
        some (record t { status = s; reason = p.reason; decided_at = occurred_at })

-- a decision on what the map holds for its thread
unfoldable pub decide : Text → Text → DecisionPayload → Option Thread → Option Thread
decide thread_id occurred_at p none = some (stale_thread thread_id occurred_at p)
decide thread_id occurred_at p (some t) =
    if is_empty t.requester
    then some (stale_thread thread_id occurred_at p)
    else decide_thread occurred_at p t

unfoldable pub is_incomplete : RequestPayload → Bool
is_incomplete p =
    is_empty p.requester || (is_empty p.reviewer || (is_empty p.label || is_empty p.command_hash))

module _ {Raw : Type 0} (unmarshal_request : Raw → Option RequestPayload)
    (unmarshal_decision : Raw → Option DecisionPayload) where
  unfoldable pub apply_command_approval_request : Map Thread → Event Raw → Option (Map Thread)
  apply_command_approval_request threads e =
      if is_empty e.thread_id
      then none
      else unmarshal_request e.payload >>= λ p.
          if is_incomplete p
          then none
          else some (insert e.thread_id (requested_thread e.thread_id e.occurred_at p) threads)

  unfoldable pub apply_command_approval_decision : Map Thread → Event Raw → Option (Map Thread)
  apply_command_approval_decision threads e =
      if is_empty e.thread_id
      then none
      else unmarshal_decision e.payload >>= λ p.
          if is_empty p.reviewer
          then none
          else decide e.thread_id e.occurred_at p (lookup e.thread_id threads) >>= λ t.
              some (insert e.thread_id t threads)

  -- one turn of the loop, on an event of the current session
  unfoldable pub approval_step : ApprovalFold → Event Raw → Option ApprovalFold
  approval_step s e = elim e.type [
    | command_approval_requested ↦ apply_command_approval_request s.threads e >>= λ threads.
        some (record s { threads = threads; saw_command_approval = true })
    | command_approval_decided ↦ apply_command_approval_decision s.threads e >>= λ threads.
        some (record s { threads = threads; saw_command_approval = true })
    | t ↦ some (record s { seen = see t s.seen })
  ]

-- `time_reached` parses a time, and says whether it is reached now; `none` if it does not parse.
module _ (now_is_zero : Bool) (time_reached : Text → Option Bool) where
  unfoldable pub command_approval_expired : Thread → Bool
  command_approval_expired t =
      if is_empty t.expires_at || now_is_zero then false else elim t.status [
        | pending ↦ elim (time_reached t.expires_at) [ none ↦ false | some b ↦ b ]
        | approved ↦ elim (time_reached t.expires_at) [ none ↦ false | some b ↦ b ]
        | _ ↦ false
      ]

  -- the loop over the threads that sets the expired ones
  unfoldable pub expire : Map Thread → Map Thread
  expire [] = []
  expire ((k, t) ∷ m) =
      (k, if command_approval_expired t then record t { status = expired } else t) ∷ expire m

module _ {Raw : Type 0} (unmarshal_request : Raw → Option RequestPayload)
    (unmarshal_decision : Raw → Option DecisionPayload) where
  unfoldable pub project_command_approval_state :
      Bool
      → (Text → Option Bool)
      → Option SessionState
      → List (CommittedRecord Raw)
      → Result ApprovalError (Option (Map Thread))
  project_command_approval_state now_is_zero time_reached session_file records =
      elim (load_current_session_state session_file) [
        | none ↦ ok none
        | some state ↦ elim (replay records) [
          | err x ↦ err replay_failed
          | ok events ↦
              elim (fold_current (approval_step unmarshal_request unmarshal_decision) state
                no_threads events) [
                  | none ↦ err bad_event
                  | some s ↦
                      if saw_all s.seen && s.saw_command_approval
                      then ok (some (expire now_is_zero time_reached s.threads))
                      else ok none
                ]
        ]
      ]
