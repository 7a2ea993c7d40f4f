-- ===== src/Status/Derivation.antt =====
-- The severities of nodes and sessions: internal/cli/session_status_severity.go.
pub mod Worst
pub mod Nodes
use tmux_a2a_postman.Base.{
  ℕ, ◌+◌, Bool, true, false, not, ◌&&◌, ◌||◌, if◌then◌else◌, ltb, leb, eqb, Text, List, [], ◌∷◌, ℤ,
  pos, ◌==◌, is_empty, map,
}
use tmux_a2a_postman.Status.{
  State, no_state, active, pending, stale, unavailable, unowned, normalize_state, Severity,
  no_severity, other_severity, ok_severity, working, expected_wait, needs_action, blocked,
  attention_stale, delivery_stuck, delivery_failure, severity_rank, worse_severity, is_stale,
  is_no_state, is_positive, proven, inferred, unknown_level, EvidenceLevel, Source, from_session,
  from_delivery, from_node_flow, from_node_local, Reason, no_reason, healthy_session,
  unavailable_session, quiet_pane, stale_pane, unknown_pane, working_pane, live_pane, no_requests,
  open_blocked_report, open_input_request, unclassified_inbox, waiting_on_request, NodeLocal,
  BlockedReport, NodeFlow, NodeStatus,
}

abbrev pub is_active : State → Bool
is_active active = true
is_active _ = false

abbrev pub is_pending : State → Bool
is_pending pending = true
is_pending _ = false

abbrev pub is_unavailable : State → Bool
is_unavailable unavailable = true
is_unavailable unowned = true
is_unavailable _ = false

-- deriveNodeLocalStatus
unfoldable pub derive_node_local_status : NodeStatus → NodeLocal
derive_node_local_status n =
    if is_stale (normalize_state n.pane_state)
    then record { severity = attention_stale; evidence_level = proven; reason = stale_pane }
    else if is_no_state n.pane_state
    then record { severity = ok_severity; evidence_level = unknown_level; reason = unknown_pane }
    else if is_active n.pane_state || n.screen_changed
    then record { severity = working; evidence_level = inferred; reason = working_pane }
    else record { severity = ok_severity; evidence_level = proven; reason = live_pane }

-- deriveNodeFlowStatus
unfoldable pub derive_node_flow_status : NodeStatus → List BlockedReport → NodeFlow
derive_node_flow_status n (r ∷ rs) = record {
  severity = blocked;
  evidence_level = r.evidence_level;
  reason = open_blocked_report;
  blocked_items = r ∷ rs;
}
derive_node_flow_status n [] =
    if is_positive n.input_required_count
    then record {
      severity = needs_action;
      evidence_level = proven;
      reason = open_input_request;
      blocked_items = [];
    }
    else if is_pending n.visible_state && is_positive n.inbox_count
    then record {
      severity = needs_action;
      evidence_level = inferred;
      reason = unclassified_inbox;
      blocked_items = [];
    }
    else if is_positive n.waiting_on_input_count
    then record {
      severity = expected_wait;
      evidence_level = proven;
      reason = waiting_on_request;
      blocked_items = [];
    }
    else record {
      severity = ok_severity;
      evidence_level = proven;
      reason = no_requests;
      blocked_items = [];
    }

-- applyNodeSeverity, on a node whose local and flow statuses are set
unfoldable pub apply_node_severity : NodeStatus → NodeStatus
apply_node_severity n =
    if leb (severity_rank n.node_local.severity) (severity_rank n.flow.severity)
    then record n {
      severity = n.flow.severity;
      severity_source = from_node_flow;
      severity_reason = n.flow.reason;
    }
    else record n {
      severity = n.node_local.severity;
      severity_source = from_node_local;
      severity_reason = n.node_local.reason;
    }

-- DeliveryStatus, with the fields that the severity is computed from
pub record DeliveryStatus : Type 0 where
  pub severity : Severity
  pub reason : Reason
  pub post_count : ℕ
  pub dead_letter_count : ℕ
  pub oldest_post_age_seconds : ℕ

-- a severity with where it comes from
pub record Verdict : Type 0 where
  pub severity : Severity
  pub source : Source
  pub reason : Reason

-- SessionStatus, with the fields that the severity is computed from; the delivery status is given,
-- as its only caller gives it
pub record SessionStatus : Type 0 where
  pub visible_state : State
  pub verdict : Verdict
  pub delivery : DeliveryStatus
  pub nodes : List NodeStatus

-- The node part of applySessionStatusEnrichment, with the blocked reports of each node
unfoldable pub enrich_node : (Text → List BlockedReport) → NodeStatus → NodeStatus
enrich_node blocked_by_node n = apply_node_severity (record n {
  node_local = derive_node_local_status n;
  flow = derive_node_flow_status n (blocked_by_node n.name);
})

-- equality of the texts of two severities
unfoldable pub severity_code : Severity → ℕ
severity_code no_severity = 8
severity_code ok_severity = 0
severity_code (other_severity t) = 9
severity_code s = severity_rank s

abbrev other_text : Severity → Text
other_text (other_severity t) = t
other_text _ = []

unfoldable pub is_same_severity : Severity → Severity → Bool
is_same_severity a b = eqb (severity_code a) (severity_code b) && other_text a == other_text b

unfoldable pub session_verdict : State → Verdict
session_verdict s =
    if is_unavailable s
    then record { severity = attention_stale; source = from_session; reason = unavailable_session }
    else record { severity = ok_severity; source = from_session; reason = healthy_session }

-- The delivery part of applySessionSeverity: WorseSeverity takes the delivery's severity only if it
-- ranks higher, and the source follows if the two are then the same and not "ok".
unfoldable pub add_delivery : DeliveryStatus → Verdict → Verdict
add_delivery d v =
    let severity = worse_severity v.severity d.severity in
    if is_same_severity severity d.severity && not (is_same_severity d.severity ok_severity)
    then record { severity = severity; source = from_delivery; reason = d.reason }
    else record v { severity = severity }

-- The loop over the nodes
unfoldable pub add_nodes : Verdict → List NodeStatus → Verdict
add_nodes v [] = v
add_nodes v (n ∷ ns) =
    add_nodes
      (if ltb (severity_rank v.severity) (severity_rank n.severity)
        then record {
          severity = n.severity;
          source = n.severity_source;
          reason = n.severity_reason;
        }
        else v)
      ns

-- applySessionSeverity, but for the compact text
unfoldable pub apply_session_severity : SessionStatus → SessionStatus
apply_session_severity h = record h {
  verdict = add_nodes (add_delivery h.delivery (session_verdict h.visible_state)) h.nodes;
}

-- applySessionStatusEnrichment, but for the compact text
unfoldable pub apply_session_status_enrichment :
    SessionStatus → DeliveryStatus → (Text → List BlockedReport) → SessionStatus
apply_session_status_enrichment h delivery blocked_by_node =
    apply_session_severity
      (record h { delivery = delivery; nodes = map (enrich_node blocked_by_node) h.nodes })
