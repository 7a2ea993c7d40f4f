-- ===== src/Gate/Safety.antt =====
-- Which commands the gate runs.
use tmux_a2a_postman.Base.{
  refl, Bool, true, false, ◌&&◌, ◌||◌, Option, none, some, Text, List, ◌≡◌, ◌⊎◌, inl, inr, is_empty,
  Map, lookup, ok, err, Result, any, arith, beq_iff, Option-cases,
}
use tmux_a2a_postman.Journal.{CommittedRecord, SessionState}
use tmux_a2a_postman.Projection.CommandApproval.{
  approved, is_incomplete, Thread, RequestPayload, DecisionPayload, ApprovalError,
  project_command_approval_state,
}
use tmux_a2a_postman.Projection.CommandApproval.Decided.{IsApprovedNow, approved_only_by_approver}
use tmux_a2a_postman.Gate.Policy.{Mode, blocking, CommandPolicy}
use tmux_a2a_postman.Gate.{
  absent, auto_approved_no_reviewer, Evaluation, Effect, run_bash, Outcome, evaluation_for_thread,
  evaluate_threads, evaluate_command_approval, is_blocked, execute_evaluated, execute_bash,
  is_advisory, is_warn_only,
}

abbrev pub is_run : Effect → Bool
is_run run_bash = true
is_run _ = false

-- whether the command is run
abbrev pub runs : Outcome → Bool
runs o = any is_run o.effects

-- An evaluated command is run exactly if the appends succeed and it is allowed, or its mode is
-- advisory, or its mode is warn-only and the override is given.
pub runs-execute_evaluated :
    (mode : Mode) (override request_appends decision_appends : Bool) (e : Evaluation)
    → runs (execute_evaluated mode override request_appends decision_appends e) ≡ (
        (e.allowed || request_appends)
        && (decision_appends
            && (e.allowed || (is_advisory mode || (is_warn_only mode && override)))))
unfolding execute_evaluated is_blocked any
runs-execute_evaluated mode override request_appends decision_appends e = ground arith

evaluate_threads_allowed :
    (p : CommandPolicy) (thread_id hash : Text) (threads : Map Thread)
    → (evaluate_threads p thread_id hash threads).allowed ≡ true
    → (t : Thread) × (lookup thread_id threads ≡ some t)
      × (t.status ≡ approved)
      × ((is_empty t.command_hash ≡ true) ⊎ (t.command_hash ≡ hash))
unfolding evaluate_threads evaluation_for_thread
evaluate_threads_allowed p thread_id hash threads h =
    elim (Option-cases (lookup thread_id threads)) [
      | inl n ↦ ground arith
      | inr (t, e) ↦ (t, e, ground arith, ground (arith, beq_iff t.command_hash hash))
    ]

-- With a valid approver, a command in blocking mode is run only if its thread is approved, and for
-- this command if the thread names a digest.
blocking_runs_only_allowed :
    (p : CommandPolicy) (thread_id hash : Text) (override ra da : Bool)
    (projected : Result ApprovalError (Option (Map Thread)))
    → p.mode ≡ blocking
    → runs (execute_bash p thread_id hash true override ra da projected) ≡ true
    → (threads : Map Thread) × (t : Thread) × (projected ≡ ok (some threads))
      × (lookup thread_id threads ≡ some t)
      × (t.status ≡ approved)
      × ((is_empty t.command_hash ≡ true) ⊎ (t.command_hash ≡ hash))
unfolding execute_bash evaluate_command_approval any
blocking_runs_only_allowed p thread_id hash override ra da (err x) m h = ground arith
blocking_runs_only_allowed p thread_id hash override ra da (ok none) m h =
    let e : Evaluation = record { verdict = absent; allowed = false; thread = none } in
    let no : true ≡ false = ground (arith, runs-execute_evaluated p.mode override ra da e) in
    ground arith
blocking_runs_only_allowed p thread_id hash override ra da (ok (some threads)) m h =
    let e = evaluate_threads p thread_id hash threads in
    let (t, l, s, d) =
      evaluate_threads_allowed p thread_id hash threads
        (ground (arith, runs-execute_evaluated p.mode override ra da e)) in
    (threads, t, refl, l, s, d)

-- With a valid approver, a command in blocking mode is run only if the projection reports its thread,
-- and behind it stand, in the replayed journal of the session that the session file names, a newest
-- request on the thread that asks for the digest of this very command, and as the newest event on the
-- thread an approval by the approver node that this request names; and that request has not
-- expired: whatever override is asked for.
pub blocking_runs_only_approved :
    {Raw : Type 0} (f : Raw → Option RequestPayload) (g : Raw → Option DecisionPayload) (z : Bool)
    (r : Text → Option Bool) (file : Option SessionState) (records : List (CommittedRecord Raw))
    (p : CommandPolicy) (thread_id hash : Text) (override ra da : Bool)
    → p.mode ≡ blocking
    → runs (
        execute_bash p thread_id hash true override ra da
          (project_command_approval_state f g z r file records))
      ≡ true
    → (threads : Map Thread) × (t : Thread) × (project_command_approval_state f g z r file records
        ≡ ok (some threads))
      × (lookup thread_id threads ≡ some t)
      × (a : IsApprovedNow f g z r file records thread_id t) × (a.request.payload.command_hash
          ≡ hash)
unfolding is_incomplete
blocking_runs_only_approved f g z r file records p thread_id hash override ra da m h =
    let projected = project_command_approval_state f g z r file records in
    let (threads, t, e, l, s, d) =
      blocking_runs_only_allowed p thread_id hash override ra da projected m h in
    let a = approved_only_by_approver f g z r file records threads thread_id t e l s in
    let q = a.request in (threads, t, e, l, a, ground (arith, q.complete, q.digest, d))

-- Without a valid approver every command is run, whatever its mode, if its decision can be recorded.
no_approver_runs_all :
    (p : CommandPolicy) (thread_id hash : Text) (override ra da : Bool)
    (projected : Result ApprovalError (Option (Map Thread)))
    → runs (execute_bash p thread_id hash false override ra da projected) ≡ da
unfolding execute_bash evaluate_command_approval
no_approver_runs_all p thread_id hash override ra da projected =
    let e : Evaluation = record {
      verdict = auto_approved_no_reviewer;
      allowed = true;
      thread = none;
    } in
    ground (arith, runs-execute_evaluated p.mode override ra da e)
