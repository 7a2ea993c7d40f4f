-- ===== src/Projection/CommandApproval/Decided.antt =====
-- Who approves a command: what stands in the journal behind an approved thread.
use tmux_a2a_postman.Base.{
  ◌⊎◌, Bool-cases, ap, subst, ◌∙◌, Bool, true, false, ◌&&◌, Option, none, some, Text, List, [], ◌∷◌,
  ◌==◌, ◌≡◌, refl, is_empty, if◌then◌else◌, Map, lookup, ok, arith, beq_iff, lookup-insert,
  Option-cases, Result-cases, inl, inr,
}
use tmux_a2a_postman.Journal.{
  Event, CommittedRecord, SessionState, command_approval_requested, command_approval_decided,
}
use tmux_a2a_postman.Journal.Replay.{replay}
use tmux_a2a_postman.Projection.{is_current, fold_current, load_current_session_state}
use tmux_a2a_postman.Projection.Folds.{newest_first, fold_current_history}
use tmux_a2a_postman.Projection.CommandApproval.Requested.{
  is_approval_event, kind_of, IsRequestOf, approved-IsRequestOf,
}
use tmux_a2a_postman.Projection.CommandApproval.{
  expired, approved, approve, RequestPayload, DecisionPayload, Thread, ApprovalFold, no_threads,
  requested_thread, stale_thread, decided_status, decide_thread, decide,
  apply_command_approval_request, apply_command_approval_decision, approval_step, expire,
  command_approval_expired, project_command_approval_state,
}

-- the newest event of the current session on an approval thread
unfoldable pub latest : {Raw : Type 0} → SessionState → Text → List (Event Raw) → Option (Event Raw)
latest state id [] = none
latest state id (e ∷ h) =
    let rest = latest state id h in
    if is_current state e && (is_approval_event e.type && e.thread_id == id) then some e else rest

module _ {Raw : Type 0} (unmarshal_request : Raw → Option RequestPayload)
    (unmarshal_decision : Raw → Option DecisionPayload) (state : SessionState) where
  -- The newest event on a thread is a decision that approves it, by the approver that the
  -- configuration named when the thread was requested.
  pub record IsApproval (id approver : Text) (h : List (Event Raw)) : Type 0 where
    pub event : Event Raw
    pub decision : DecisionPayload
    pub is_latest : latest state id h ≡ some event
    pub is_decision : event.type ≡ command_approval_decided
    pub decoded : unmarshal_decision event.payload ≡ some decision
    pub approves : decision.decision ≡ approve
    pub by_approver : decision.reviewer ≡ approver
    pub approver_set : is_empty approver ≡ false

  abbrev pub IsBacked : List (Event Raw) → ApprovalFold → Type 0
  IsBacked h s =
      (id : Text) (t : Thread)
      → lookup id s.threads ≡ some t
      → t.status ≡ approved
      → IsApproval id t.command_approver_node h

  -- An event that is on no thread of an id changes nothing there.
  elsewhere :
      (id approver : Text) (h : List (Event Raw)) (e : Event Raw)
      → (is_current state e && (is_approval_event e.type && e.thread_id == id)) ≡ false
      → IsApproval id approver h
      → IsApproval id approver (e ∷ h)
  unfolding latest
  elsewhere id approver h e n a = record {
    event = a.event;
    decision = a.decision;
    is_latest = ground (arith, a.is_latest);
    is_decision = a.is_decision;
    decoded = a.decoded;
    approves = a.approves;
    by_approver = a.by_approver;
    approver_set = a.approver_set;
  }

  newest :
      (id approver : Text) (h : List (Event Raw)) (e : Event Raw) (p : DecisionPayload)
      → is_current state e ≡ true
      → (e.thread_id == id) ≡ true
      → e.type ≡ command_approval_decided
      → unmarshal_decision e.payload ≡ some p
      → p.decision ≡ approve
      → p.reviewer ≡ approver
      → is_empty approver ≡ false
      → IsApproval id approver (e ∷ h)
  unfolding latest
  newest id approver h e p c o t q a r n = record {
    event = e;
    decision = p;
    is_latest = ground arith;
    is_decision = t;
    decoded = q;
    approves = a;
    by_approver = r;
    approver_set = n;
  }

  decide_approved :
      (thread_id at : Text) (p : DecisionPayload) (o : Option Thread) (t : Thread)
      → decide thread_id at p o ≡ some t
      → t.status ≡ approved
      → (p.decision ≡ approve)
        × (p.reviewer ≡ t.command_approver_node)
        × (is_empty t.command_approver_node ≡ false)
  unfolding decide decide_thread decided_status stale_thread
  decide_approved thread_id at p none t e s = ground arith
  decide_approved thread_id at p (some u) t e s =
      ground (arith, beq_iff p.reviewer u.command_approver_node)

  IsBacked-request :
      (h : List (Event Raw)) (s s' : ApprovalFold) (e : Event Raw)
      → is_current state e ≡ true
      → e.type ≡ command_approval_requested
      → IsBacked h s
      → approval_step unmarshal_request unmarshal_decision s e ≡ some s'
      → IsBacked (e ∷ h) s'
  unfolding approval_step apply_command_approval_request requested_thread
  IsBacked-request h s s' e c t b eq id u l a = elim (Option-cases (unmarshal_request e.payload)) [
    | inl n ↦ ground arith
    | inr (p, q) ↦
        let m =
          lookup-insert e.thread_id id (requested_thread e.thread_id e.occurred_at p) s.threads in
        elsewhere id u.command_approver_node h e (ground (arith, m, beq_iff e.thread_id id))
          (b id u (ground (arith, m, beq_iff e.thread_id id)) a)
  ]

  IsBacked-decision :
      (h : List (Event Raw)) (s s' : ApprovalFold) (e : Event Raw)
      → is_current state e ≡ true
      → e.type ≡ command_approval_decided
      → IsBacked h s
      → approval_step unmarshal_request unmarshal_decision s e ≡ some s'
      → IsBacked (e ∷ h) s'
  unfolding approval_step apply_command_approval_decision
  IsBacked-decision h s s' e c t b eq id u l a =
      elim (Option-cases (unmarshal_decision e.payload)) [
        | inl n ↦ ground arith
        | inr (p, q) ↦
            elim (Option-cases
              (decide e.thread_id e.occurred_at p (lookup e.thread_id s.threads))) [
                | inl n ↦ ground arith
                | inr (v, r) ↦
                    let m = lookup-insert e.thread_id id v s.threads in
                    elim (Bool-cases (e.thread_id == id)) [
                      | inr o ↦
                          elsewhere id u.command_approver_node h e (ground arith)
                            (b id u (ground (arith, m)) a)
                      | inl o ↦
                          let same : v ≡ u = ground (arith, m) in
                          let (da, dr, dn) =
                            decide_approved e.thread_id e.occurred_at p
                              (lookup e.thread_id s.threads) u (r ∙ ap some same) a in
                          newest id u.command_approver_node h e p c o t q da dr dn
                    ]
              ]
      ]

  IsBacked-other :
      (h : List (Event Raw)) (s s' : ApprovalFold) (e : Event Raw)
      → is_approval_event e.type ≡ false
      → IsBacked h s
      → approval_step unmarshal_request unmarshal_decision s e ≡ some s'
      → IsBacked (e ∷ h) s'
  unfolding approval_step
  IsBacked-other h s s' e n b eq id u l a =
      elsewhere id u.command_approver_node h e (ground arith) (b id u (ground arith) a)

  step-IsBacked :
      (h : List (Event Raw)) (s s' : ApprovalFold) (e : Event Raw)
      → is_current state e ≡ true
      → IsBacked h s
      → approval_step unmarshal_request unmarshal_decision s e ≡ some s'
      → IsBacked (e ∷ h) s'
  step-IsBacked h s s' e c b eq = elim (kind_of e.type) [
    | inl t ↦ IsBacked-request h s s' e c t b eq
    | inr (inl t) ↦ IsBacked-decision h s s' e c t b eq
    | inr (inr n) ↦ IsBacked-other h s s' e n b eq
  ]

  skip-IsBacked :
      (h : List (Event Raw)) (s : ApprovalFold) (e : Event Raw)
      → is_current state e ≡ false
      → IsBacked h s
      → IsBacked (e ∷ h) s
  skip-IsBacked h s e n b id u l a =
      elsewhere id u.command_approver_node h e (ground arith) (b id u l a)

  no_threads-IsBacked : IsBacked [] no_threads
  unfolding no_threads lookup
  no_threads-IsBacked id t l a = ground arith

  fold-IsBacked :
      (s : ApprovalFold) (events : List (Event Raw))
      → fold_current (approval_step unmarshal_request unmarshal_decision) state no_threads events
        ≡ some s
      → IsBacked (newest_first events []) s
  fold-IsBacked s events eq =
      fold_current_history (approval_step unmarshal_request unmarshal_decision) state IsBacked
        step-IsBacked skip-IsBacked [] no_threads s events no_threads-IsBacked eq

lookup-expire :
    (z : Bool) (r : Text → Option Bool) (id : Text) (m : Map Thread)
    → lookup id (expire z r m) ≡ elim (lookup id m) [
      | none ↦ none
      | some t ↦ some (if command_approval_expired z r t then record t { status = expired } else t)
    ]
unfolding lookup expire
lookup-expire z r id [] = refl
lookup-expire z r id ((k, t) ∷ m) = ground (arith, lookup-expire z r id m)

-- an approved thread after the expiry loop: the same thread before it, not expired
pub approved_expire :
    (z : Bool) (r : Text → Option Bool) (id : Text) (m : Map Thread) (t : Thread)
    → lookup id (expire z r m) ≡ some t
    → t.status ≡ approved
    → (lookup id m ≡ some t) × (command_approval_expired z r t ≡ false)
approved_expire z r id m t l a = ground (arith, lookup-expire z r id m)

-- No time is given, or no expiry, or one that does not parse or is not reached.
abbrev pub IsLive : Bool → (Text → Option Bool) → Text → Type 0
IsLive z r expires_at =
    (is_empty expires_at ≡ true)
    ⊎ ((z ≡ true) ⊎ ((r expires_at ≡ none) ⊎ (r expires_at ≡ some false)))

not_expired-IsLive :
    (z : Bool) (r : Text → Option Bool) (t : Thread)
    → command_approval_expired z r t ≡ false
    → t.status ≡ approved
    → IsLive z r t.expires_at
unfolding command_approval_expired
not_expired-IsLive z r t h a = ground arith

-- What stands in a session's journal behind a thread that is approved now.
pub record IsApprovedNow {Raw : Type 0} (unmarshal_request : Raw → Option RequestPayload)
    (unmarshal_decision : Raw → Option DecisionPayload) (z : Bool) (r : Text → Option Bool)
    (file : Option SessionState) (records : List (CommittedRecord Raw)) (id : Text) (t : Thread)
    : Type 0 where
  pub state : SessionState
  pub events : List (Event Raw)
  pub session : load_current_session_state file ≡ some state
  pub replayed : replay records ≡ ok events
  pub request : IsRequestOf unmarshal_request unmarshal_decision state id t (newest_first events [])
  pub live : IsLive z r request.payload.expires_at
  pub approval :
      IsApproval unmarshal_request unmarshal_decision state id request.payload.command_approver_node
        (newest_first events [])

-- Behind a thread that the projection reports as approved stand, in the replayed journal of the
-- session that the session file names, a newest request on the thread, complete, whose requester,
-- reviewer, approver node, digest and expiry the thread holds, and as the newest event on the thread
-- a decision that approves it, made by the nonempty approver node that this request names, whoever it
-- names as its reviewer; and the expiry of this request is not reached, if it has one that parses and a
-- time is given.
pub approved_only_by_approver :
    {Raw : Type 0} (unmarshal_request : Raw → Option RequestPayload)
    (unmarshal_decision : Raw → Option DecisionPayload) (z : Bool) (r : Text → Option Bool)
    (file : Option SessionState) (records : List (CommittedRecord Raw)) (threads : Map Thread)
    (id : Text) (t : Thread)
    → project_command_approval_state unmarshal_request unmarshal_decision z r file records
      ≡ ok (some threads)
    → lookup id threads ≡ some t
    → t.status ≡ approved
    → IsApprovedNow unmarshal_request unmarshal_decision z r file records id t
unfolding project_command_approval_state
approved_only_by_approver f g z r file records threads id t eq l a =
    elim (Option-cases (load_current_session_state file)) [
      | inl n ↦ ground arith
      | inr (state, es) ↦ elim (Result-cases (replay records)) [
        | inl (x, ex) ↦ ground arith
        | inr (events, ev) ↦
            elim (Option-cases (fold_current (approval_step f g) state no_threads events)) [
              | inl n ↦ ground arith
              | inr (s, ef) ↦
                  let same : threads ≡ expire z r s.threads = ground arith in
                  let (before, live) =
                    approved_expire z r id s.threads t (ground (arith, same, l)) a in
                  let q = approved-IsRequestOf f g state s events id t ef before a in
                  record {
                    state = state;
                    events = events;
                    session = es;
                    replayed = ev;
                    request = q;
                    live = subst (IsLive z r) q.expiry (not_expired-IsLive z r t live a);
                    approval =
                        subst (λ n. IsApproval f g state id n (newest_first events [])) q.approver
                          (fold-IsBacked f g state s events ef id t before a);
                  }
            ]
      ]
    ]
