-- ===== src/Status.antt =====
-- The status contract: internal/status/contract.go. Here the states and the severities, their ranks,
-- and what is shown of a node; `Derivation` derives the severities of nodes and sessions.
pub mod Derivation
pub mod Tests
use tmux_a2a_postman.Base.{
  ℕ, zero, suc, ◌+◌, Bool, true, false, ◌&&◌, if◌then◌else◌, ltb, Text, List, [], ◌∷◌, ℤ, pos,
  negsuc,
}

-- The pane and visible states; `no_state` is the empty text.
pub data State : Type 0 where
  no_state initial ready active idle waiting pending stale unavailable unowned : State
  other_state : Text → State

-- NormalizeState and NormalizePaneState
unfoldable pub normalize_state : State → State
normalize_state active = ready
normalize_state idle = ready
normalize_state no_state = initial
normalize_state s = s

-- stateRank of a normalized state; a missing key of the map is 0.
unfoldable pub rank_of_state : State → ℕ
rank_of_state ready = 1
rank_of_state active = 1
rank_of_state idle = 1
rank_of_state waiting = 2
rank_of_state pending = 3
rank_of_state stale = 4
rank_of_state _ = 0

-- StateRank
unfoldable pub state_rank : State → ℕ
state_rank s = rank_of_state (normalize_state s)

-- The severities; `no_severity` is the empty text.
pub data Severity : Type 0 where
  no_severity ok_severity working expected_wait needs_action blocked : Severity
  attention_stale delivery_stuck delivery_failure : Severity
  other_severity : Text → Severity

-- SeverityRank
unfoldable pub severity_rank : Severity → ℕ
severity_rank working = 1
severity_rank expected_wait = 2
severity_rank needs_action = 3
severity_rank blocked = 4
severity_rank attention_stale = 5
severity_rank delivery_stuck = 6
severity_rank delivery_failure = 7
severity_rank _ = 0

abbrev pub is_no_severity : Severity → Bool
is_no_severity no_severity = true
is_no_severity _ = false

-- WorseSeverity
unfoldable pub worse_severity : Severity → Severity → Severity
worse_severity left right =
    if ltb (severity_rank left) (severity_rank right)
    then right
    else if is_no_severity left
    then right
    else left

abbrev pub is_stale : State → Bool
is_stale stale = true
is_stale _ = false

abbrev pub is_no_state : State → Bool
is_no_state no_state = true
is_no_state _ = false

-- n > 0 and n < 0
abbrev pub is_positive : ℤ → Bool
is_positive (pos zero) = false
is_positive (pos (suc n)) = true
is_positive (negsuc n) = false

abbrev pub is_negative : ℤ → Bool
is_negative (pos n) = false
is_negative (negsuc n) = true

-- VisibleStateWithInputRequests
unfoldable pub visible_state_with_input_requests : State → ℤ → ℤ → ℤ → State
visible_state_with_input_requests pane_state unread_count input_required_count
      waiting_on_input_count =
    let state = normalize_state pane_state in
    if is_stale state
    then state
    else if is_positive input_required_count
    then pending
    else if is_negative input_required_count && is_positive unread_count
    then pending
    else if is_positive waiting_on_input_count
    then waiting
    else state

-- VisibleState
unfoldable pub visible_state : State → ℤ → State
visible_state pane_state unread_count =
    visible_state_with_input_requests pane_state unread_count (negsuc 0) (pos 0)

pub data EvidenceLevel : Type 0 where
  proven inferred unknown_level : EvidenceLevel
  other_level : Text → EvidenceLevel

-- The severity sources, and the reasons that the derivations give.
pub data Source : Type 0 where
  no_source from_session from_delivery from_node_flow from_node_local : Source

pub data Reason : Type 0 where
  no_reason healthy_session unavailable_session : Reason
  quiet_pane stale_pane unknown_pane working_pane live_pane : Reason
  no_requests open_blocked_report open_input_request unclassified_inbox waiting_on_request : Reason
  delivery_reason : Text → Reason

pub record NodeLocal : Type 0 where
  pub severity : Severity
  pub evidence_level : EvidenceLevel
  pub reason : Reason

pub record BlockedReport : Type 0 where
  pub node : Text
  pub blocked_report_id : Text
  pub evidence_level : EvidenceLevel

pub record NodeFlow : Type 0 where
  pub severity : Severity
  pub evidence_level : EvidenceLevel
  pub reason : Reason
  pub blocked_items : List BlockedReport

-- NodeStatus, with the fields that the derivations read and write
pub record NodeStatus : Type 0 where
  pub name : Text
  pub pane_state : State
  pub visible_state : State
  pub severity : Severity
  pub severity_source : Source
  pub severity_reason : Reason
  pub inbox_count : ℤ
  pub input_required_count : ℤ
  pub waiting_on_input_count : ℤ
  -- ScreenProgress is given, and its evidence state is "changed"
  pub screen_changed : Bool
  pub node_local : NodeLocal
  pub flow : NodeFlow

-- the state of a node that the session state is computed from
unfoldable pub node_state : NodeStatus → State
node_state n =
    if is_no_state n.visible_state
    then visible_state n.pane_state n.inbox_count
    else n.visible_state

-- the loop of SessionVisibleState, from the worst state so far
unfoldable pub worst_state : State → List NodeStatus → State
worst_state worst [] = worst
worst_state worst (n ∷ ns) =
    worst_state
      (if ltb (state_rank worst) (state_rank (node_state n))
        then normalize_state (node_state n)
        else worst)
      ns

-- SessionVisibleState
unfoldable pub session_visible_state : List NodeStatus → State
session_visible_state nodes = worst_state initial nodes
