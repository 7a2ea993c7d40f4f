-- ===== src/Gate.antt =====
-- The command gate: internal/cli/execute_bash.go, which runs a shell command once its approval is
-- evaluated. `Policy` resolves the policy of a command. Digests are arguments.
pub mod Policy
pub mod Request
pub mod Safety
pub mod Delivered
pub mod Tests
use tmux_a2a_postman.Base.{
  ℕ, Bool, true, false, not, ◌&&◌, ◌||◌, if◌then◌else◌, Option, none, some, Text, List, [], ◌∷◌,
  ◌++◌, ◌==◌, is_empty, Map, lookup, ok, err, Result, trim_space, has_key, any, all, eqb, codes,
}
use tmux_a2a_postman.Address.{is_alnum}
use tmux_a2a_postman.Journal.{CommittedRecord, SessionState}
use tmux_a2a_postman.Projection.CommandApproval.{
  Status, pending, approved, rejected, expired, wrong_reviewer, stale, Thread, RequestPayload,
  DecisionPayload, ApprovalError, project_command_approval_state,
}
use tmux_a2a_postman.Gate.Policy.{Mode, advisory, warn_only, blocking, CommandPolicy}

-- Config.ResolveCommandApproverNode, on the configured name and the configured nodes
unfoldable pub resolve_command_approver_node : {N : Type 0} → Text → Map N → Text × Bool
resolve_command_approver_node configured nodes =
    let name = trim_space configured in
    if is_empty name then ([], false) else (name, has_key name nodes)

-- [A-Za-z0-9._-]
abbrev pub is_thread_id_byte : ℕ → Bool
is_thread_id_byte c = is_alnum c || (eqb c b'.' || (eqb c b'_' || eqb c b'-'))

-- validateCommandApprovalThreadID: whether it returns nil
unfoldable pub is_valid_thread_id : Text → Bool
is_valid_thread_id t = is_empty t || all is_thread_id_byte t

-- The decisions of an evaluation
pub data Verdict : Type 0 where
  auto_approved_no_reviewer digest_mismatch absent : Verdict
  of_status : Status → Verdict

pub record Evaluation : Type 0 where
  pub verdict : Verdict
  pub allowed : Bool
  pub thread : Option Thread

abbrev is_approved : Status → Bool
is_approved approved = true
is_approved _ = false

-- evaluationForThread; every status that it does not name counts as pending
unfoldable pub evaluation_for_thread : Thread → Evaluation
evaluation_for_thread t = record {
  verdict = of_status t.status;
  allowed = is_approved t.status;
  thread = some t;
}

-- sameCommandApprovalKey
unfoldable pub same_command_approval_key : Thread → CommandPolicy → Bool
same_command_approval_key t p =
    t.requester == p.requester
    && (t.reviewer == p.reviewer && (t.label == p.label && t.category == p.category))

-- The loop over the threads; the map's order is that of the list.
unfoldable pub find_other_digest : CommandPolicy → Text → Map Thread → Option Thread
find_other_digest p hash [] = none
find_other_digest p hash ((k, t) ∷ m) =
    let rest = find_other_digest p hash m in
    if same_command_approval_key t p && (not (t.command_hash == hash) && is_approved t.status)
    then some t
    else rest

abbrev mismatch_with : Thread → Evaluation
mismatch_with t = record { verdict = digest_mismatch; allowed = false; thread = some t }

-- The evaluation on the projected threads
unfoldable pub evaluate_threads : CommandPolicy → Text → Text → Map Thread → Evaluation
evaluate_threads p thread_id hash threads = elim (lookup thread_id threads) [
  | some t ↦
      if not (is_empty t.command_hash) && not (t.command_hash == hash)
      then mismatch_with t
      else evaluation_for_thread t
  | none ↦ elim (find_other_digest p hash threads) [
    | some t ↦ mismatch_with t
    | none ↦ record { verdict = absent; allowed = false; thread = none }
  ]
]

-- evaluateCommandApproval, on what ProjectCommandApprovalState returns
unfoldable pub evaluate_command_approval :
    CommandPolicy
    → Text
    → Text
    → Bool
    → Result ApprovalError (Option (Map Thread))
    → Result ApprovalError Evaluation
evaluate_command_approval p thread_id hash valid_reviewer projected =
    if not valid_reviewer
    then ok (record { verdict = auto_approved_no_reviewer; allowed = true; thread = none })
    else elim projected [
      | err x ↦ err x
      | ok none ↦ ok (record { verdict = absent; allowed = false; thread = none })
      | ok (some threads) ↦ ok (evaluate_threads p thread_id hash threads)
    ]

-- The decisions that are recorded of an execution
pub data ExecutionDecision : Type 0 where
  decided_auto_approved decided_approved advisory_unapproved warn_override : ExecutionDecision
  warn_missing_approval decided_blocked : ExecutionDecision

abbrev is_auto_approved : Verdict → Bool
is_auto_approved auto_approved_no_reviewer = true
is_auto_approved _ = false

-- decisionForPolicy
unfoldable pub decision_for_policy : Mode → Evaluation → Bool → ExecutionDecision
decision_for_policy mode e override =
    if is_auto_approved e.verdict
    then decided_auto_approved
    else if e.allowed
    then decided_approved
    else elim mode [
      | advisory ↦ advisory_unapproved
      | warn_only ↦ if override then warn_override else warn_missing_approval
      | blocking ↦ decided_blocked
    ]

abbrev pub is_advisory : Mode → Bool
is_advisory advisory = true
is_advisory _ = false

abbrev pub is_warn_only : Mode → Bool
is_warn_only warn_only = true
is_warn_only _ = false

-- blockedCommandApprovalReason: whether it gives a reason
unfoldable pub is_blocked : Mode → Evaluation → Bool → Bool
is_blocked mode e override =
    not (e.allowed || (is_advisory mode || (is_warn_only mode && override)))

-- What the wrapper does, in order. Recording appends an event to the journal.
pub data Effect : Type 0 where
  record_request deliver_request : Effect
  record_decision : ExecutionDecision → Effect
  run_bash : Effect
  record_completed : Effect

pub data Ending : Type 0 where
  evaluation_failed request_not_recorded decision_not_recorded refused finished : Ending

pub record Outcome : Type 0 where
  pub effects : List Effect
  pub ending : Ending

-- runExecuteBashWithContext once the evaluation is made; the two flags say whether the appends of
-- the request and of the decision succeed.
unfoldable pub execute_evaluated : Mode → Bool → Bool → Bool → Evaluation → Outcome
execute_evaluated mode override request_appends decision_appends e =
    let request = if e.allowed then [] else record_request ∷ deliver_request ∷ [] in
    let decision = record_decision (decision_for_policy mode e override) in
    if not e.allowed && not request_appends
    then record { effects = record_request ∷ []; ending = request_not_recorded }
    else if not decision_appends
    then record { effects = request ++ decision ∷ []; ending = decision_not_recorded }
    else if is_blocked mode e override
    then record { effects = request ++ decision ∷ []; ending = refused }
    else record {
      effects = request ++ decision ∷ run_bash ∷ record_completed ∷ [];
      ending = finished;
    }

-- runExecuteBashWithContext from the evaluation on
unfoldable pub execute_bash :
    CommandPolicy
    → Text
    → Text
    → Bool
    → Bool
    → Bool
    → Bool
    → Result ApprovalError (Option (Map Thread))
    → Outcome
execute_bash p thread_id hash valid_reviewer override request_appends decision_appends projected =
    elim (evaluate_command_approval p thread_id hash valid_reviewer projected) [
      | err x ↦ record { effects = []; ending = evaluation_failed }
      | ok e ↦ execute_evaluated p.mode override request_appends decision_appends e
    ]

-- What recordExecuteBashDecision does: append a decision under the caller's name, or refuse.
unfoldable pub record_decision_allowed :
    Text → Text → Text → Result ApprovalError (Option (Map Thread)) → Bool
record_decision_allowed caller thread_id decision projected =
    if is_empty (trim_space thread_id) || not (is_valid_thread_id (trim_space thread_id))
    then false
    else if not (trim_space decision == codes "approved")
        && not (trim_space decision == codes "rejected")
    then false
    else if is_empty (trim_space caller)
    then false
    else elim projected [
      | err x ↦ false
      | ok none ↦ false
      | ok (some threads) ↦ elim (lookup thread_id threads) [
        | none ↦ false
        | some t ↦
            not (is_empty t.command_approver_node) && trim_space caller == t.command_approver_node
      ]
    ]
