-- ===== src/Status/Tests.antt =====
-- Runs of the status derivations.
use tmux_a2a_postman.Base.{◌≤◌, ◌≡◌, ◌⊎◌, true, false, codes, List, [], ◌∷◌, All, pos, Text}
use tmux_a2a_postman.Status.{
  initial, no_state, stale, pending, active, ok_severity, proven, no_source, no_reason, NodeStatus,
  delivery_stuck, delivery_reason, severity_rank, state_rank, node_state, session_visible_state,
  BlockedReport,
}
use tmux_a2a_postman.Status.Derivation.{
  SessionStatus, apply_session_severity, session_verdict, enrich_node,
}
use tmux_a2a_postman.Status.Derivation.Worst.{
  has_state_rank, session_visible_state_worst, has_severity, apply_session_severity_worst,
}
use tmux_a2a_postman.Status.Derivation.Nodes.{expected_severity, enrich_node_severity}

abbrev busy_node : NodeStatus
busy_node = record {
  name = codes "alice";
  pane_state = active;
  visible_state = pending;
  severity = ok_severity;
  severity_source = no_source;
  severity_reason = no_reason;
  inbox_count = pos 1;
  input_required_count = pos 0;
  waiting_on_input_count = pos 0;
  screen_changed = false;
  node_local = record { severity = ok_severity; evidence_level = proven; reason = no_reason };
  flow = record {
    severity = ok_severity;
    evidence_level = proven;
    reason = no_reason;
    blocked_items = [];
  };
}

abbrev stale_node : NodeStatus
stale_node = record busy_node { name = codes "bob"; pane_state = stale; visible_state = no_state }

abbrev both_nodes : List NodeStatus
both_nodes = busy_node ∷ stale_node ∷ []

session_visible_state_worst_example :
    All (λ n. state_rank (node_state n) ≤ state_rank (session_visible_state both_nodes)) both_nodes
    × ((session_visible_state both_nodes ≡ initial)
        ⊎ (has_state_rank (session_visible_state both_nodes) both_nodes ≡ true))
session_visible_state_worst_example = session_visible_state_worst both_nodes

abbrev stuck_session : SessionStatus
stuck_session = record {
  visible_state = stale;
  verdict = session_verdict stale;
  delivery = record {
    severity = delivery_stuck;
    reason = delivery_reason (codes "old");
    post_count = 1;
    dead_letter_count = 0;
    oldest_post_age_seconds = 200;
  };
  nodes = both_nodes;
}

apply_session_severity_worst_example :
    let worst = (apply_session_severity stuck_session).verdict in
    (severity_rank (session_verdict stale).severity ≤ severity_rank worst.severity)
    × (severity_rank delivery_stuck ≤ severity_rank worst.severity)
    × All (λ n. severity_rank n.severity ≤ severity_rank worst.severity) both_nodes
    × ((worst.severity ≡ (session_verdict stale).severity)
        ⊎ ((worst.severity ≡ delivery_stuck) ⊎ (has_severity worst both_nodes ≡ true)))
apply_session_severity_worst_example = apply_session_severity_worst stuck_session

abbrev no_reports : Text → List BlockedReport
no_reports t = []

enrich_node_severity_example :
    (enrich_node no_reports busy_node).severity ≡ expected_severity busy_node []
enrich_node_severity_example = enrich_node_severity no_reports busy_node
