-- ===== src/Projection/ThreadApproval.antt =====
-- ProjectThreadApproval of internal/projection/thread_approval.go: the approvals that messages ask for.
-- Decoding the payloads is a parameter.
pub mod Final
use tmux_a2a_postman.Base.{
  ◌>>=◌, Bool, true, false, not, ◌&&◌, ◌||◌, Option, none, some, Text, List, [], ◌==◌, is_empty,
  if◌then◌else◌, Map, lookup, insert, ok, err, Result, has_key,
}
use tmux_a2a_postman.Journal.{
  Event, CommittedRecord, SessionState, approval_requested, approval_decided,
}
use tmux_a2a_postman.Journal.Replay.{replay}
use tmux_a2a_postman.Projection.{
  Seen, unseen, see, saw_all, fold_current, load_current_session_state,
}

pub data ApprovalStatus : Type 0 where
  pending approved rejected : ApprovalStatus

pub data Decision : Type 0 where
  approve reject : Decision
  unknown_decision : Text → Decision

-- ApprovalRequestPayload and ApprovalDecisionPayload
pub record ApprovalRequest : Type 0 where
  pub requester : Text
  pub reviewer : Text
  pub message_id : Text

pub record ApprovalDecision : Type 0 where
  pub reviewer : Text
  pub decision : Decision
  pub message_id : Text

pub record ApprovalThread : Type 0 where
  pub thread_id : Text
  pub requester : Text
  pub reviewer : Text
  pub status : ApprovalStatus
  pub request_message_id : Text
  pub decision_message_id : Text
  pub requested_at : Text
  pub decided_at : Text

pub record ThreadFold : Type 0 where
  pub threads : Map ApprovalThread
  pub seen : Seen
  pub saw_approval : Bool

unfoldable pub no_approvals : ThreadFold
no_approvals = record { threads = []; seen = unseen; saw_approval = false }

abbrev pub is_pending : ApprovalStatus → Bool
is_pending pending = true
is_pending _ = false

unfoldable pub status_of : Decision → Option ApprovalStatus
status_of approve = some approved
status_of reject = some rejected
status_of (unknown_decision d) = none

-- a decision on a thread; `none` for each of the errors
unfoldable pub decide_approval : Text → ApprovalDecision → ApprovalThread → Option ApprovalThread
decide_approval at p t =
    if is_empty p.reviewer
    then none
    else if not (p.reviewer == t.reviewer)
    then none
    else if not (is_pending t.status)
    then none
    else status_of p.decision >>= λ s.
        some (record t { status = s; decision_message_id = p.message_id; decided_at = at })

pub data ThreadApprovalError : Type 0 where
  replay_failed bad_event : ThreadApprovalError

-- the thread of a request
unfoldable pub requested_approval : Text → Text → ApprovalRequest → ApprovalThread
requested_approval thread_id at p = record {
  thread_id = thread_id;
  requester = p.requester;
  reviewer = p.reviewer;
  status = pending;
  request_message_id = p.message_id;
  decision_message_id = [];
  requested_at = at;
  decided_at = [];
}

module _ {Raw : Type 0} (unmarshal_request : Raw → Option ApprovalRequest)
    (unmarshal_decision : Raw → Option ApprovalDecision) where
  unfoldable pub apply_approval_request :
      Map ApprovalThread → Event Raw → Option (Map ApprovalThread)
  apply_approval_request threads e = unmarshal_request e.payload >>= λ p.
      if is_empty p.requester || is_empty p.reviewer
      then none
      else if has_key e.thread_id threads
      then none
      else some (insert e.thread_id (requested_approval e.thread_id e.occurred_at p) threads)

  unfoldable pub apply_approval_decision :
      Map ApprovalThread → Event Raw → Option (Map ApprovalThread)
  apply_approval_decision threads e = unmarshal_decision e.payload >>= λ p.
      lookup e.thread_id threads >>= λ t.
      decide_approval e.occurred_at p t >>= λ u. some (insert e.thread_id u threads)

  -- one turn of the loop, on an event of the current session
  unfoldable pub thread_step : ThreadFold → Event Raw → Option ThreadFold
  thread_step s e = elim e.type [
    | approval_requested ↦ apply_approval_request s.threads e >>= λ threads.
        some (record s { threads = threads; saw_approval = true })
    | approval_decided ↦ apply_approval_decision s.threads e >>= λ threads.
        some (record s { threads = threads; saw_approval = true })
    | t ↦ some (record s { seen = see t s.seen })
  ]

  unfoldable pub project_thread_approval :
      Option SessionState
      → List (CommittedRecord Raw)
      → Result ThreadApprovalError (Option (Map ApprovalThread))
  project_thread_approval session_file records = elim (load_current_session_state session_file) [
    | none ↦ ok none
    | some state ↦ elim (replay records) [
      | err x ↦ err replay_failed
      | ok events ↦ elim (fold_current thread_step state no_approvals events) [
        | none ↦ err bad_event
        | some s ↦ if saw_all s.seen && s.saw_approval then ok (some s.threads) else ok none
      ]
    ]
  ]
