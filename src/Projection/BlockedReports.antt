-- ===== src/Projection/BlockedReports.antt =====
-- ProjectBlockedReportState of internal/projection/blocked_report_state.go: which nodes say that they are
-- blocked. Payloads are read as in InputRequests.
pub mod Cleared
pub mod Tests
use tmux_a2a_postman.Base.{
  Bool, true, false, not, ◌&&◌, ◌||◌, Option, none, some, Text, codes, List, [], ◌∷◌, ◌++◌, ◌==◌,
  is_empty, has_prefix, if◌then◌else◌, Map, lookup, insert, ℕ, ◌-◌, leb, text_lt, Result, ok, err,
  map, cut, trim_space, eqb,
}
use tmux_a2a_postman.Journal.{
  Event, EventType, CommittedRecord, SessionState, mailbox_posted, mailbox_post_consumed,
  mailbox_delivered, mailbox_read,
}
use tmux_a2a_postman.Journal.Replay.{replay, ReplayError}
use tmux_a2a_postman.Envelope.{Metadata}
use tmux_a2a_postman.Envelope.Reading.{split_lines}
use tmux_a2a_postman.Envelope.Policy.{lower_is, equal_fold}
use tmux_a2a_postman.Projection.{
  Seen, unseen, see, saw_all, fold_current, load_current_session_state,
}
use tmux_a2a_postman.Projection.InputRequests.{
  MailboxEventPayload, input_request_metadata_from_payload,
}
use tmux_a2a_postman.Projection.InputRequests.Loop.{simplified, decode_mailbox_event_payload}

pub data Evidence : Type 0 where
  proven inferred : Evidence

-- BlockedReport; the evidence level says what the evidence source is
pub record Report : Type 0 where
  pub node : Text
  pub message_id : Text
  pub blocked_report_id : Text
  pub scope : Text
  pub scope_id : Text
  pub reason : Text
  pub evidence_level : Evidence
  pub observed_at : Text

pub record ReportFold : Type 0 where
  pub reports : Map Report
  pub seen : Seen

unfoldable pub no_reports : ReportFold
no_reports = record { reports = []; seen = unseen }

-- the first line of a list that is not blank
unfoldable pub first_nonempty : List Text → Text
first_nonempty [] = []
first_nonempty (l ∷ ls) =
    let rest = first_nonempty ls in if is_empty (trim_space l) then rest else trim_space l

unfoldable pub first_nonempty_body_line : Text → Text
first_nonempty_body_line body = first_nonempty (split_lines body)

-- strings.ToUpper, as far as it comes to the letters of the states
unfoldable pub upper : Text → Text
upper s = map (λ c. if leb b'a' c && leb c b'z' then c - 32 else c) s

unfoldable pub starts_with_state_line : Text → Text → Bool
starts_with_state_line line state =
    let u = upper (trim_space line) in u == state || has_prefix (state ++ codes ":") u

unfoldable pub blocked_scope : Metadata → Text × Text
blocked_scope m =
    if not (is_empty m.blocked_scope_id)
    then (
      if is_empty (trim_space m.blocked_scope) then codes "custom" else trim_space m.blocked_scope,
      m.blocked_scope_id,
    )
    else if not (is_empty m.input_request_id)
    then (codes "input_request", m.input_request_id)
    else if not (is_empty m.fills_input_request_id)
    then (codes "input_request", m.fills_input_request_id)
    else if not (is_empty m.thread_id)
    then (codes "thread", m.thread_id)
    else if not (is_empty m.reply_to)
    then (codes "reply_to", m.reply_to)
    else (codes "node", m.from)

unfoldable pub blocked_report_key : Text → Text → Text → Text
blocked_report_key node scope scope_id = node ++ (0 ∷ scope ++ (0 ∷ scope_id))

-- the part behind a colon of the first line
unfoldable pub reason_of_line : Text → Text
reason_of_line line = elim (cut (codes ":") line) [
  | none ↦ []
  | some (before, after) ↦ trim_space after
]

unfoldable pub report_reason : Metadata → Text → Text
report_reason m line =
    let reason = trim_space m.blocked_reason in
    if is_empty reason && starts_with_state_line line (codes "BLOCKED")
    then reason_of_line line
    else reason

unfoldable pub report_with : Evidence → Metadata → Text → Report
report_with evidence m at = record {
  node = m.from;
  message_id = m.message_id;
  blocked_report_id = m.blocked_report_id;
  scope = (blocked_scope m).0;
  scope_id = (blocked_scope m).1;
  reason = report_reason m (first_nonempty_body_line m.body);
  evidence_level = evidence;
  observed_at = at;
}

unfoldable pub blocked_report_from_metadata : Metadata → Text → Option Report
blocked_report_from_metadata m at =
    if lower_is (trim_space m.message_type) (codes "blocked_report")
    then some (report_with proven m at)
    else if starts_with_state_line (first_nonempty_body_line m.body) (codes "BLOCKED")
    then some (report_with inferred m at)
    else none

unfoldable pub is_blocked_clear : Metadata → Bool
is_blocked_clear m = equal_fold (trim_space m.message_type) (codes "blocked_clear")

unfoldable pub is_terminal_blocked_clear : Metadata → Bool
is_terminal_blocked_clear m =
    let line = first_nonempty_body_line m.body in
    starts_with_state_line line (codes "DONE") || starts_with_state_line line (codes "UNBLOCKED")

-- the reports that a test does not take away
unfoldable pub remove_if : (Report → Bool) → Map Report → Map Report
remove_if p [] = []
remove_if p ((k, r) ∷ m) = let rest = remove_if p m in if p r then rest else (k, r) ∷ rest

abbrev has_scope : Text × Text → Report → Bool
has_scope (scope, scope_id) r = r.scope == scope && r.scope_id == scope_id

-- what clearBlockedReports takes away
unfoldable pub is_cleared : Metadata → Report → Bool
is_cleared m r =
    r.node == m.from
    && ((not (is_empty m.blocked_report_id) && r.blocked_report_id == m.blocked_report_id)
        || (not (is_empty (blocked_scope m).1) && has_scope (blocked_scope m) r))

abbrev is_inferred : Evidence → Bool
is_inferred inferred = true
is_inferred proven = false

-- what clearTerminalBlockedReports takes away
unfoldable pub is_cleared_at_end : Metadata → Report → Bool
is_cleared_at_end m r =
    let (scope, scope_id) = blocked_scope m in
    r.node == m.from
    && (if not (is_empty scope_id) && (not (scope == codes "node") || not (scope_id == m.from))
        then has_scope (scope, scope_id) r
        else has_scope (codes "node", m.from) r && is_inferred r.evidence_level)

unfoldable pub add_report : Option Report → Map Report → Map Report
add_report none m = m
add_report (some r) m = insert (blocked_report_key r.node r.scope r.scope_id) r m

-- one turn of the loop, on the simplified metadata
unfoldable pub on_report : Metadata → Text → Map Report → Map Report
on_report m at reports =
    if is_blocked_clear m
    then remove_if (is_cleared m) reports
    else if is_terminal_blocked_clear m
    then remove_if (is_cleared_at_end m) reports
    else add_report (blocked_report_from_metadata m at) reports

unfoldable pub on_report_payload : Text → MailboxEventPayload → Text → Map Report → Map Report
on_report_payload session_name p at reports =
    let parsed = input_request_metadata_from_payload p in
    let m = simplified session_name parsed in
    if is_empty p.content || (is_empty parsed.message_id || is_empty m.from)
    then reports
    else on_report m at reports

abbrev is_report_event : EventType → Bool
is_report_event mailbox_posted = true
is_report_event mailbox_post_consumed = true
is_report_event mailbox_delivered = true
is_report_event mailbox_read = true
is_report_event _ = false

unfoldable pub report_lt : Report → Report → Bool
report_lt a b =
    if not (a.observed_at == b.observed_at)
    then text_lt a.observed_at b.observed_at
    else text_lt a.message_id b.message_id

unfoldable pub insert_report : Report → List Report → List Report
insert_report r [] = r ∷ []
insert_report r (q ∷ qs) =
    let rest = insert_report r qs in if report_lt q r then q ∷ rest else r ∷ q ∷ qs

unfoldable pub sort_reports : Map Report → List Report
sort_reports [] = []
sort_reports ((k, r) ∷ m) = insert_report r (sort_reports m)

-- the reports of each node, in their order
unfoldable pub group_by_node : List Report → Map (List Report) → Map (List Report)
group_by_node [] m = m
group_by_node (r ∷ rs) m =
    group_by_node rs
      (insert r.node ((elim (lookup r.node m) [ none ↦ [] | some held ↦ held ]) ++ r ∷ []) m)

module _ {Raw : Type 0} (raw_is_empty : Raw → Bool)
    (unmarshal : Raw → Option MailboxEventPayload) where
  unfoldable pub report_step : Text → ReportFold → Event Raw → Option ReportFold
  report_step session_name s e =
      if is_report_event e.type
      then (elim (decode_mailbox_event_payload raw_is_empty unmarshal e.payload) [
        | none ↦ some s
        | some p ↦
            some (record s { reports = on_report_payload session_name p e.occurred_at s.reports })
      ])
      else some (record s { seen = see e.type s.seen })

  unfoldable pub project_blocked_report_state :
      Option SessionState
      → Text
      → List (CommittedRecord Raw)
      → Result ReplayError (Option (Map (List Report)))
  project_blocked_report_state session_file session_name records =
      elim (load_current_session_state session_file) [
        | none ↦ ok none
        | some state ↦ elim (replay records) [
          | err x ↦ err x
          | ok events ↦ elim (fold_current (report_step session_name) state no_reports events) [
            | none ↦ ok none
            | some s ↦
                if saw_all s.seen
                then ok (some (group_by_node (sort_reports s.reports) []))
                else ok none
          ]
        ]
      ]
