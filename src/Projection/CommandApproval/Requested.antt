-- ===== src/Projection/CommandApproval/Requested.antt =====
-- What a requested thread holds: an approved thread stands for the newest request on it.
use tmux_a2a_postman.Base.{
  ◌==◌, ◌&&◌, Bool-cases, subst, refl, Bool, true, false, Option, none, some, Text, List, [], ◌∷◌,
  ◌≡◌, ◌⊎◌, inl, inr, is_empty, if◌then◌else◌, lookup, arith, lookup-insert, Option-cases, beq_iff,
}
use tmux_a2a_postman.Journal.{
  Event, EventType, SessionState, command_approval_requested, command_approval_decided,
}
use tmux_a2a_postman.Projection.{is_current, fold_current}
use tmux_a2a_postman.Projection.Folds.{newest_first, fold_current_history}
use tmux_a2a_postman.Projection.CommandApproval.{
  approved, RequestPayload, DecisionPayload, Thread, ApprovalFold, no_threads, requested_thread,
  stale_thread, decided_status, decide_thread, decide, is_incomplete,
  apply_command_approval_request, apply_command_approval_decision, approval_step,
}

abbrev pub is_approval_event : EventType → Bool
is_approval_event command_approval_requested = true
is_approval_event command_approval_decided = true
is_approval_event _ = false

abbrev pub is_request_event : EventType → Bool
is_request_event command_approval_requested = true
is_request_event _ = false

-- the newest request of the current session on an approval thread
unfoldable pub latest_request :
    {Raw : Type 0} → SessionState → Text → List (Event Raw) → Option (Event Raw)
latest_request state id [] = none
latest_request state id (e ∷ h) =
    let rest = latest_request state id h in
    if is_current state e && (is_request_event e.type && e.thread_id == id) then some e else rest

-- what a decision leaves of a thread as it was requested
abbrev IsSameRequest : Thread → Thread → Type 0
IsSameRequest u t =
    (t.requester ≡ u.requester)
    × (t.reviewer ≡ u.reviewer)
    × (t.command_approver_node ≡ u.command_approver_node)
    × (t.command_hash ≡ u.command_hash)
    × (t.expires_at ≡ u.expires_at)

decide-IsSameRequest :
    (thread_id at : Text) (p : DecisionPayload) (u t : Thread)
    → decide thread_id at p (some u) ≡ some t
    → is_empty t.requester ≡ false
    → (is_empty u.requester ≡ false) × IsSameRequest u t
unfolding decide decide_thread decided_status stale_thread
decide-IsSameRequest thread_id at p u t e n = ground arith

-- A decided thread has a requester if it is approved.
decide-requester :
    (thread_id at : Text) (p : DecisionPayload) (o : Option Thread) (t : Thread)
    → decide thread_id at p o ≡ some t
    → t.status ≡ approved
    → is_empty t.requester ≡ false
unfolding decide decide_thread decided_status stale_thread
decide-requester thread_id at p none t e a = ground arith
decide-requester thread_id at p (some u) t e a = ground arith

decide-none :
    (thread_id at : Text) (p : DecisionPayload) (t : Thread)
    → decide thread_id at p none ≡ some t
    → is_empty t.requester ≡ true
unfolding decide stale_thread
decide-none thread_id at p t e = ground arith

pub kind_of :
    (t : EventType)
    → (t ≡ command_approval_requested)
      ⊎ ((t ≡ command_approval_decided) ⊎ (is_approval_event t ≡ false))
kind_of t = ground arith

module _ {Raw : Type 0} (f : Raw → Option RequestPayload) (g : Raw → Option DecisionPayload)
    (state : SessionState) where
  -- The newest request on a thread is complete, and the thread holds what it asks for: by whom, for
  -- which command, to be approved by which node, until when.
  pub record IsRequestOf (id : Text) (t : Thread) (h : List (Event Raw)) : Type 0 where
    pub event : Event Raw
    pub payload : RequestPayload
    pub is_latest_request : latest_request state id h ≡ some event
    pub decoded : f event.payload ≡ some payload
    pub complete : is_incomplete payload ≡ false
    pub requester : t.requester ≡ payload.requester
    pub reviewer : t.reviewer ≡ payload.reviewer
    pub approver : t.command_approver_node ≡ payload.command_approver_node
    pub digest : t.command_hash ≡ payload.command_hash
    pub expiry : t.expires_at ≡ payload.expires_at

  abbrev IsRequested : Text → Thread → List (Event Raw) → Type 0
  IsRequested id t h =
      (is_empty t.requester ≡ false → IsRequestOf id t h)
      × (t.status ≡ approved → is_empty t.requester ≡ false)

  abbrev AllRequested : List (Event Raw) → ApprovalFold → Type 0
  AllRequested h s = (id : Text) (t : Thread) → lookup id s.threads ≡ some t → IsRequested id t h

  -- An event that is no request on a thread leaves its newest request.
  request_stays :
      (id : Text) (u t : Thread) (h : List (Event Raw)) (e : Event Raw)
      → (is_current state e && (is_request_event e.type && e.thread_id == id)) ≡ false
      → IsSameRequest u t
      → IsRequestOf id u h
      → IsRequestOf id t (e ∷ h)
  unfolding latest_request
  request_stays id u t h e n same q = record {
    event = q.event;
    payload = q.payload;
    is_latest_request = ground (arith, q.is_latest_request);
    decoded = q.decoded;
    complete = q.complete;
    requester = cc (same.0, q.requester);
    reviewer = cc (same.1, q.reviewer);
    approver = cc (same.2, q.approver);
    digest = cc (same.3, q.digest);
    expiry = cc (same.4, q.expiry);
  }

  stays :
      (id : Text) (t : Thread) (h : List (Event Raw)) (e : Event Raw)
      → (is_current state e && (is_request_event e.type && e.thread_id == id)) ≡ false
      → IsRequested id t h
      → IsRequested id t (e ∷ h)
  stays id t h e n q = (λ r. request_stays id t t h e n (refl, refl, refl, refl, refl) (q.0 r), q.1)

  requested :
      (id : Text) (h : List (Event Raw)) (e : Event Raw) (p : RequestPayload)
      → is_current state e ≡ true
      → e.type ≡ command_approval_requested
      → (e.thread_id == id) ≡ true
      → f e.payload ≡ some p
      → is_incomplete p ≡ false
      → IsRequested id (requested_thread e.thread_id e.occurred_at p) (e ∷ h)
  unfolding requested_thread latest_request
  requested id h e p c t o q n = (
    λ r. record {
      event = e;
      payload = p;
      is_latest_request = ground arith;
      decoded = q;
      complete = n;
      requester = refl;
      reviewer = refl;
      approver = refl;
      digest = refl;
      expiry = refl;
    },
    λ a. absurd (ground arith),
  )

  decided :
      (id : Text) (h : List (Event Raw)) (e : Event Raw) (p : DecisionPayload) (o : Option Thread)
      (t : Thread)
      → e.type ≡ command_approval_decided
      → ((u : Thread) → o ≡ some u → IsRequested id u h)
      → decide e.thread_id e.occurred_at p o ≡ some t
      → IsRequested id t (e ∷ h)
  decided id h e p none t k b d = (
    λ r. let x = decide-none e.thread_id e.occurred_at p t d in absurd cc,
    decide-requester e.thread_id e.occurred_at p none t d,
  )
  decided id h e p (some u) t k b d = (
    λ r.
        let (n, same) = decide-IsSameRequest e.thread_id e.occurred_at p u t d r in
        request_stays id u t h e (ground arith) same ((b u refl).0 n),
    decide-requester e.thread_id e.occurred_at p (some u) t d,
  )

  AllRequested-request :
      (h : List (Event Raw)) (s s' : ApprovalFold) (e : Event Raw)
      → is_current state e ≡ true
      → e.type ≡ command_approval_requested
      → AllRequested h s
      → approval_step f g s e ≡ some s'
      → AllRequested (e ∷ h) s'
  unfolding approval_step apply_command_approval_request
  AllRequested-request h s s' e c t b eq id u l = elim (Option-cases (f e.payload)) [
    | inl n ↦ ground arith
    | inr (p, q) ↦
        let v = requested_thread e.thread_id e.occurred_at p in
        let m = lookup-insert e.thread_id id v s.threads in
        elim (Bool-cases (e.thread_id == id)) [
          | inl o ↦
              let same : v ≡ u = ground (arith, m) in
              subst (λ w. IsRequested id w (e ∷ h)) same (requested id h e p c t o q (ground arith))
          | inr o ↦ stays id u h e (ground arith) (b id u (ground (arith, m)))
        ]
  ]

  AllRequested-decision :
      (h : List (Event Raw)) (s s' : ApprovalFold) (e : Event Raw)
      → e.type ≡ command_approval_decided
      → AllRequested h s
      → approval_step f g s e ≡ some s'
      → AllRequested (e ∷ h) s'
  unfolding approval_step apply_command_approval_decision
  AllRequested-decision h s s' e t b eq id u l = elim (Option-cases (g e.payload)) [
    | inl n ↦ ground arith
    | inr (p, q) ↦
        elim (Option-cases (decide e.thread_id e.occurred_at p (lookup e.thread_id s.threads))) [
          | inl n ↦ ground arith
          | inr (v, r) ↦
              let m = lookup-insert e.thread_id id v s.threads in
              elim (Bool-cases (e.thread_id == id)) [
                | inl o ↦
                    let same : v ≡ u = ground (arith, m) in
                    let there : e.thread_id ≡ id = (beq_iff e.thread_id id).0 o in
                    subst (λ w. IsRequested id w (e ∷ h)) same
                      (decided id h e p (lookup e.thread_id s.threads) v t
                        (λ w k. b id w (subst (λ i. lookup i s.threads ≡ some w) there k)) r)
                | inr o ↦ stays id u h e (ground arith) (b id u (ground (arith, m)))
              ]
        ]
  ]

  step-AllRequested :
      (h : List (Event Raw)) (s s' : ApprovalFold) (e : Event Raw)
      → is_current state e ≡ true
      → AllRequested h s
      → approval_step f g s e ≡ some s'
      → AllRequested (e ∷ h) s'
  unfolding approval_step
  step-AllRequested h s s' e c b eq = elim (kind_of e.type) [
    | inl t ↦ AllRequested-request h s s' e c t b eq
    | inr (inl t) ↦ AllRequested-decision h s s' e t b eq
    | inr (inr n) ↦ λ id u l. stays id u h e (ground arith) (b id u (ground arith))
  ]

  skip-AllRequested :
      (h : List (Event Raw)) (s : ApprovalFold) (e : Event Raw)
      → is_current state e ≡ false
      → AllRequested h s
      → AllRequested (e ∷ h) s
  skip-AllRequested h s e n b id u l = stays id u h e (ground arith) (b id u l)

  no_threads-AllRequested : AllRequested [] no_threads
  unfolding no_threads lookup
  no_threads-AllRequested id t e = ground arith

  -- An approved thread of the loop stands for the newest request on it.
  pub approved-IsRequestOf :
      (s : ApprovalFold) (events : List (Event Raw)) (id : Text) (t : Thread)
      → fold_current (approval_step f g) state no_threads events ≡ some s
      → lookup id s.threads ≡ some t
      → t.status ≡ approved
      → IsRequestOf id t (newest_first events [])
  approved-IsRequestOf s events id t eq l a =
      let h =
        fold_current_history (approval_step f g) state AllRequested step-AllRequested
          skip-AllRequested [] no_threads s events no_threads-AllRequested eq id t l in
      h.0 (h.1 a)
