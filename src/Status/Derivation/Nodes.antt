-- ===== src/Status/Derivation/Nodes.antt =====
-- What the severity of a node comes to.
use tmux_a2a_postman.Base.{
  leb, Text, is_nil, not, ◌||◌, ◌&&◌, ◌≤◌, ◌≡◌, refl, Bool, arith, List, [], ◌∷◌, ltb,
  if◌then◌else◌,
}
use tmux_a2a_postman.Status.{
  ok_severity, blocked, BlockedReport, attention_stale, needs_action, expected_wait, working,
  is_positive, is_stale, is_no_state, Severity, severity_rank, normalize_state, NodeStatus,
}
use tmux_a2a_postman.Status.Derivation.{
  apply_node_severity, is_pending, is_active, enrich_node, derive_node_local_status,
  derive_node_flow_status,
}

-- what a node's severity comes to, worst first
abbrev pub expected_severity : NodeStatus → List BlockedReport → Severity
expected_severity n reports =
    if is_stale (normalize_state n.pane_state)
    then attention_stale
    else if not (is_nil reports)
    then blocked
    else if is_positive n.input_required_count
        || (is_pending n.visible_state && is_positive n.inbox_count)
    then needs_action
    else if is_positive n.waiting_on_input_count
    then expected_wait
    else if not (is_no_state n.pane_state) && (is_active n.pane_state || n.screen_changed)
    then working
    else ok_severity

-- the more severe of a pane's and a flow's severity, the flow's if they rank alike
abbrev worse_of : Severity → Severity → Severity
worse_of pane flow = if leb (severity_rank pane) (severity_rank flow) then flow else pane

worse_of_pane :
    (stale_pane working_pane : Bool) (flow : Severity)
    → severity_rank flow ≤ 4
    → worse_of
        (if stale_pane then attention_stale else if working_pane then working else ok_severity)
        flow
      ≡ (if stale_pane
          then attention_stale
          else if working_pane && ltb (severity_rank flow) 1
          then working
          else flow)
unfolding severity_rank
worse_of_pane stale_pane working_pane flow h = ground arith

local_severity :
    (n : NodeStatus)
    → (derive_node_local_status n).severity ≡ (
        if is_stale (normalize_state n.pane_state)
        then attention_stale
        else if not (is_no_state n.pane_state) && (is_active n.pane_state || n.screen_changed)
        then working
        else ok_severity)
unfolding derive_node_local_status
local_severity n = ground arith

-- the severity of a flow without reports
flow_severity :
    (n : NodeStatus)
    → (derive_node_flow_status n []).severity ≡ (
        if is_positive n.input_required_count
          || (is_pending n.visible_state && is_positive n.inbox_count)
        then needs_action
        else if is_positive n.waiting_on_input_count
        then expected_wait
        else ok_severity)
unfolding derive_node_flow_status
flow_severity n = ground arith

quiet_flow :
    (w action waits : Bool)
    → (if w
          && ltb
              (severity_rank
                (if action then needs_action else if waits then expected_wait else ok_severity))
              1
        then working
        else if action
        then needs_action
        else if waits
        then expected_wait
        else ok_severity)
      ≡ (if action
          then needs_action
          else if waits
          then expected_wait
          else if w
          then working
          else ok_severity)
unfolding severity_rank
quiet_flow w action waits = ground arith

flow_severity_bound :
    (a b : Bool)
    → severity_rank (if a then needs_action else if b then expected_wait else ok_severity) ≤ 4
unfolding severity_rank
flow_severity_bound a b = ground arith

apply_node_severity_worse :
    (n : NodeStatus)
    → (apply_node_severity n).severity ≡ worse_of n.node_local.severity n.flow.severity
unfolding apply_node_severity
apply_node_severity_worse n = ground arith

with_flow :
    (n : NodeStatus) (reports : List BlockedReport)
    → (apply_node_severity record n {
      node_local = derive_node_local_status n;
      flow = derive_node_flow_status n reports;
    }).severity
      ≡ expected_severity n reports
unfolding derive_node_flow_status severity_rank
with_flow n [] =
    rw
      (
        apply_node_severity_worse,
        local_severity,
        flow_severity,
        worse_of_pane _ _ _ (flow_severity_bound _ _),
        quiet_flow,
      )
      refl
with_flow n (r ∷ rs) =
    rw (apply_node_severity_worse, local_severity, worse_of_pane _ _ blocked (omega arith))
      (ground arith)

-- The severity of an enriched node is, in this order: stale if its pane is, blocked if it reported a
-- blocker, in need of action if a request or unclassified mail waits for it, waiting if it waits for
-- an answer, working if its pane is, and ok otherwise.
pub enrich_node_severity :
    (blocked_by_node : Text → List BlockedReport) (n : NodeStatus)
    → (enrich_node blocked_by_node n).severity ≡ expected_severity n (blocked_by_node n.name)
unfolding enrich_node
enrich_node_severity blocked_by_node n = with_flow n (blocked_by_node n.name)
