-- ===== src/Projection/MoreTests.antt =====
-- Runs of the thread approvals and the automatic pings on a concrete journal; a payload is a number.
use tmux_a2a_postman.Base.{
  ℕ, ◌≤◌, true, false, some, Option, [], ◌∷◌, ◌≡◌, ◌↔◌, refl, codes, Text, lookup, insert, ◌==◌,
  List, err, trim_space, trim_left, trim_left_rev, is_space,
}
use tmux_a2a_postman.Journal.{
  EventType, CommittedRecord, thread_missing, requires_thread_id, session_resolved, lease_acquired,
  approval_requested, approval_decided, auto_ping_pending, control_plane_only, Event,
}
use tmux_a2a_postman.Projection.{see, unseen, fold_current, is_current, load_current_session_state}
use tmux_a2a_postman.Journal.Replay.{
  replay, check_all, sort_records, insert_record, record_lt, check_record, check_event, check_lease,
  collect,
}
use tmux_a2a_postman.Projection.Folds.{newest_first}
use tmux_a2a_postman.Projection.ThreadApproval.{
  ApprovalRequest, ApprovalDecision, ApprovalThread, ThreadFold, approved, approve, thread_step,
  project_thread_approval, bad_event,
}
use tmux_a2a_postman.Projection.ThreadApproval.Final.{decided_thread_final, decision_rejected}
use tmux_a2a_postman.Projection.AutoPing.{
  AutoPingPayload, AutoPingNode, AutoPingFold, no_pings, auto_ping_step, record_ping, WakeIdentity,
  Active, try_reserve, wake_key,
}
use tmux_a2a_postman.Projection.AutoPing.Exclusion.{
  Reachable, initially, reserve, holders, reservations_exclusive,
}
use tmux_a2a_postman.Projection.AutoPing.Laws.{auto_ping_newest_wins, last_told}
use tmux_a2a_postman.Projection.Tests.{main_session, record_of}

abbrev event_of : EventType → Text → Event ℕ
event_of t thread = record {
  sequence = 1;
  event_id = codes "e";
  type = t;
  visibility = control_plane_only;
  session_key = codes "k";
  tmux_session_name = codes "main";
  generation = 1;
  thread_id = thread;
  lease_id = codes "l";
  lease_epoch = 1;
  occurred_at = codes "now";
  payload = 0;
}

abbrev ask : ℕ → Option ApprovalRequest
ask n = some (record { requester = codes "alice"; reviewer = codes "bob"; message_id = codes "m" })

abbrev answer : ℕ → Option ApprovalDecision
answer n = some (record { reviewer = codes "bob"; decision = approve; message_id = codes "m2" })

abbrev done_thread : ApprovalThread
done_thread = record {
  thread_id = codes "t";
  requester = codes "alice";
  reviewer = codes "bob";
  status = approved;
  request_message_id = codes "m";
  decision_message_id = codes "m2";
  requested_at = codes "now";
  decided_at = codes "now";
}

abbrev done_fold : ThreadFold
done_fold = record { threads = (codes "t", done_thread) ∷ []; seen = unseen; saw_approval = true }

abbrev more_seen : ThreadFold
more_seen = record done_fold { seen = record { lease = true; resolution = false } }

decided_thread_final_example : lookup (codes "t") more_seen.threads ≡ some done_thread
unfolding lookup ◌==◌ fold_current is_current thread_step see unseen
decided_thread_final_example =
    decided_thread_final ask answer main_session (codes "t") done_thread done_fold more_seen
      (event_of lease_acquired [] ∷ []) refl refl refl

abbrev numbered : ℕ → EventType → Text → Event ℕ
numbered n t thread = record (event_of t thread) { sequence = n }

abbrev twice_decided : List (CommittedRecord ℕ)
twice_decided =
    record_of 1 lease_acquired []
    ∷ record_of 2 approval_requested (codes "t")
    ∷ record_of 3 approval_decided (codes "t")
    ∷ record_of 4 session_resolved []
    ∷ record_of 5 approval_decided (codes "t")
    ∷ []

decision_rejected_example :
    project_thread_approval ask answer (some main_session) twice_decided ≡ err bad_event
unfolding load_current_session_state is_current replay check_all sort_records insert_record
    record_lt check_record check_event thread_missing requires_thread_id check_lease collect ◌==◌
    trim_space trim_left_rev trim_left is_space
decision_rejected_example =
    decision_rejected ask answer (some main_session) main_session twice_decided
      (numbered 1 lease_acquired [] ∷ numbered 2 approval_requested (codes "t") ∷ [])
      (numbered 4 session_resolved [] ∷ []) [] (numbered 3 approval_decided (codes "t"))
      (numbered 5 approval_decided (codes "t")) refl refl refl refl refl refl refl

abbrev ping_payload : AutoPingPayload
ping_payload = record {
  node_key = codes "main:bob";
  session_name = codes "main";
  node_name = codes "bob";
  pane_id = codes "%1";
  reason = codes "new";
  resolution_reason = [];
  triggered_at = codes "now";
  delay_seconds = codes "1";
  not_before_at = codes "later";
  delivered_at = [];
}

abbrev read_ping : ℕ → Option AutoPingPayload
read_ping n = some ping_payload

abbrev pending_bob : AutoPingNode
pending_bob = record { payload = ping_payload; pending = true }

abbrev pinged : AutoPingFold
pinged = record { nodes = (codes "main:bob", pending_bob) ∷ []; seen = unseen }

auto_ping_newest_wins_example :
    lookup (codes "main:bob") pinged.nodes
    ≡ last_told read_ping main_session
        (codes "main:bob")
        (newest_first (event_of auto_ping_pending [] ∷ []) [])
unfolding fold_current is_current auto_ping_step record_ping insert ◌==◌ no_pings
auto_ping_newest_wins_example =
    auto_ping_newest_wins read_ping main_session pinged (event_of auto_ping_pending [] ∷ [])
      (codes "main:bob") refl

abbrev bob_identity : WakeIdentity
bob_identity = record {
  session_dir = codes "d";
  node_key = codes "main:bob";
  pane_id = codes "%1";
  reason = codes "new";
  triggered_at = codes "now";
  not_before_at = codes "later";
}

abbrev bob_key : Text
bob_key = wake_key bob_identity

abbrev bob_active : Active
bob_active = (bob_key, true) ∷ []

bob_reserved : Reachable bob_active (bob_key ∷ [])
unfolding try_reserve wake_key lookup insert
bob_reserved = reserve [] bob_active [] bob_identity bob_key initially refl

reservations_exclusive_example :
    (holders bob_key (bob_key ∷ []) ≤ 1)
    × (((try_reserve bob_identity bob_active).2 ≡ true) ↔ (holders bob_key (bob_key ∷ []) ≡ 0))
unfolding wake_key
reservations_exclusive_example =
    reservations_exclusive bob_active (bob_key ∷ []) bob_reserved bob_key bob_identity refl refl
