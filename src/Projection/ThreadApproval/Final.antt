-- ===== src/Projection/ThreadApproval/Final.antt =====
-- A thread that is decided stays as it is.
use tmux_a2a_postman.Base.{
  true, ok, err, [], ◌∷◌, ◌++◌, ◌∙◌, ◌>>=◌, refl, subst, if◌then◌else◌, lookup-insert_self, ◌≢◌,
  false, Option, none, some, Text, List, ◌≡◌, ◌⊎◌, inl, inr, Map, lookup, arith, beq_iff,
  lookup-insert, Option-cases,
}
use tmux_a2a_postman.Journal.{
  CommittedRecord, Event, EventType, SessionState, approval_requested, approval_decided,
}
use tmux_a2a_postman.Journal.Replay.{replay}
use tmux_a2a_postman.Projection.{fold_current, is_current, load_current_session_state}
use tmux_a2a_postman.Projection.Folds.{fold_current_keeps}
use tmux_a2a_postman.Projection.ThreadApproval.{
  requested_approval, ApprovalThread, ApprovalRequest, ApprovalDecision, ThreadFold, is_pending,
  decide_approval, apply_approval_request, apply_approval_decision, thread_step, status_of,
  no_approvals, project_thread_approval, bad_event,
}

kind_of :
    (t : EventType)
    → (t ≡ approval_requested)
      ⊎ ((t ≡ approval_decided) ⊎ ((t ≢ approval_requested) × (t ≢ approval_decided)))
kind_of t = ground arith

module _ {Raw : Type 0} (f : Raw → Option ApprovalRequest) (g : Raw → Option ApprovalDecision) where
  -- the thread of an id is decided, and is the given one
  abbrev IsDecided : Text → ApprovalThread → ThreadFold → Type 0
  IsDecided id t s = (lookup id s.threads ≡ some t) × (is_pending t.status ≡ false)

  request_keeps :
      (id : Text) (t : ApprovalThread) (m m' : Map ApprovalThread) (e : Event Raw)
      → lookup id m ≡ some t
      → apply_approval_request f g m e ≡ some m'
      → lookup id m' ≡ some t
  unfolding apply_approval_request
  request_keeps id t m m' e l eq = elim (Option-cases (f e.payload)) [
    | inl n ↦ ground arith
    | inr (p, q) ↦ ground (
      arith,
      lookup-insert e.thread_id id (requested_approval e.thread_id e.occurred_at p) m,
      beq_iff e.thread_id id,
    )
  ]

  decision_keeps :
      (id : Text) (t : ApprovalThread) (m m' : Map ApprovalThread) (e : Event Raw)
      → lookup id m ≡ some t
      → is_pending t.status ≡ false
      → apply_approval_decision f g m e ≡ some m'
      → lookup id m' ≡ some t
  unfolding apply_approval_decision decide_approval
  decision_keeps id t m m' e l d eq = elim (Option-cases (g e.payload)) [
    | inl n ↦ ground arith
    | inr (p, q) ↦ elim (Option-cases (lookup e.thread_id m)) [
      | inl n ↦ ground arith
      | inr (u, r) ↦ elim (Option-cases (decide_approval e.occurred_at p u)) [
        | inl n ↦ ground arith
        | inr (v, w) ↦ ground (arith, lookup-insert e.thread_id id v m, beq_iff e.thread_id id)
      ]
    ]
  ]

  step_keeps :
      (id : Text) (t : ApprovalThread) (s s' : ThreadFold) (e : Event Raw)
      → IsDecided id t s
      → thread_step f g s e ≡ some s'
      → IsDecided id t s'
  unfolding thread_step
  step_keeps id t s s' e d eq = elim (kind_of e.type) [
    | inl k ↦ (request_keeps id t s.threads s'.threads e d.0 (ground arith), d.1)
    | inr (inl k) ↦ (decision_keeps id t s.threads s'.threads e d.0 d.1 (ground arith), d.1)
    | inr (inr k) ↦ ground arith
  ]

  -- Once a thread is decided, no further event changes it: whatever the loop reads behind it, the
  -- thread stands in the end as it was decided, if the loop does not fail.
  pub decided_thread_final :
      (state : SessionState) (id : Text) (t : ApprovalThread) (s s' : ThreadFold)
      (es : List (Event Raw))
      → lookup id s.threads ≡ some t
      → is_pending t.status ≡ false
      → fold_current (thread_step f g) state s es ≡ some s'
      → lookup id s'.threads ≡ some t
  decided_thread_final state id t s s' es l d eq =
      (fold_current_keeps (thread_step f g) (IsDecided id t) (step_keeps id t) state s s' es (l, d)
        eq).0

  second_decision :
      (s : ThreadFold) (e : Event Raw) (p : ApprovalDecision) (t : ApprovalThread)
      → e.type ≡ approval_decided
      → g e.payload ≡ some p
      → lookup e.thread_id s.threads ≡ some t
      → is_pending t.status ≡ false
      → thread_step f g s e ≡ none
  unfolding thread_step apply_approval_decision decide_approval
  second_decision s e p t k q l r = ground arith

  decide_approval-decides :
      (at : Text) (p : ApprovalDecision) (t u : ApprovalThread)
      → decide_approval at p t ≡ some u
      → is_pending u.status ≡ false
  unfolding decide_approval status_of
  decide_approval-decides at p t u h = ground arith

  -- A decision that does not make the loop fail decides its thread.
  decision_decides :
      (s s' : ThreadFold) (e : Event Raw)
      → e.type ≡ approval_decided
      → thread_step f g s e ≡ some s'
      → (p : ApprovalDecision) × (t : ApprovalThread) × (g e.payload ≡ some p)
        × IsDecided e.thread_id t s'
  unfolding thread_step apply_approval_decision
  decision_decides s s' e k h = elim (Option-cases (g e.payload)) [
    | inl n ↦ absurd (ground (arith, h, k, n))
    | inr (p, q) ↦ elim (Option-cases (lookup e.thread_id s.threads)) [
      | inl n ↦ absurd (ground (arith, h, k, q, n))
      | inr (u, r) ↦ elim (Option-cases (decide_approval e.occurred_at p u)) [
        | inl n ↦ absurd (ground (arith, h, k, q, r, n))
        | inr (v, w) ↦ (
          p,
          v,
          q,
          (
            ground (arith, lookup-insert_self e.thread_id v s.threads),
            decide_approval-decides e.occurred_at p u v w,
          ),
        )
      ]
    ]
  ]

  fold_current-append :
      (state : SessionState) (s : ThreadFold) (xs ys : List (Event Raw))
      → fold_current (thread_step f g) state s (xs ++ ys)
        ≡ fold_current (thread_step f g) state s xs >>= λ t.
            fold_current (thread_step f g) state t ys
  unfolding fold_current
  fold_current-append state s [] ys = refl
  fold_current-append state s (e ∷ xs) ys =
      elim (Option-cases (if is_current state e then thread_step f g s e else some s)) [
        | inl n ↦ ground (arith, n)
        | inr (t, q) ↦ ground (arith, q, fold_current-append state t xs ys)
      ]

  first_step :
      (state : SessionState) (s : ThreadFold) (e : Event Raw) (es : List (Event Raw))
      → is_current state e ≡ true
      → fold_current (thread_step f g) state s (e ∷ es)
        ≡ thread_step f g s e >>= λ t. fold_current (thread_step f g) state t es
  unfolding fold_current
  first_step state s e es c = ground (arith, c)

  -- Behind a decided thread a decision on it makes the loop fail, wherever it stands.
  later_decision_fails :
      (state : SessionState) (t : ApprovalThread) (s : ThreadFold) (es rest : List (Event Raw))
      (d : Event Raw)
      → is_current state d ≡ true
      → d.type ≡ approval_decided
      → IsDecided d.thread_id t s
      → fold_current (thread_step f g) state s (es ++ d ∷ rest) ≡ none
  later_decision_fails state t s es rest d c k held =
      fold_current-append state s es (d ∷ rest)
      ∙ (elim (Option-cases (fold_current (thread_step f g) state s es)) [
        | inl n ↦ ground (arith, n)
        | inr (s', q) ↦
            let kept =
              fold_current_keeps (thread_step f g) (IsDecided d.thread_id t)
                (step_keeps d.thread_id t) state s s' es held q in
            let fails : thread_step f g s' d ≡ none = elim (Option-cases (thread_step f g s' d)) [
              | inl n ↦ n
              | inr (s'', r) ↦
                  let (p, v, u, w) = decision_decides s' s'' d k r in
                  second_decision s' d p t k u kept.0 kept.1
            ] in
            ground (arith, q, first_step state s' d rest c, fails)
      ])

  two_decisions :
      (state : SessionState) (s : ThreadFold) (before between rest : List (Event Raw))
      (e d : Event Raw)
      → is_current state e ≡ true
      → is_current state d ≡ true
      → e.type ≡ approval_decided
      → d.type ≡ approval_decided
      → e.thread_id ≡ d.thread_id
      → fold_current (thread_step f g) state s (before ++ e ∷ (between ++ d ∷ rest)) ≡ none
  two_decisions state s before between rest e d c c' k k' same =
      fold_current-append state s before (e ∷ (between ++ d ∷ rest))
      ∙ (elim (Option-cases (fold_current (thread_step f g) state s before)) [
        | inl n ↦ ground (arith, n)
        | inr (s', q) ↦ elim (Option-cases (thread_step f g s' e)) [
          | inl n ↦ ground (arith, q, first_step state s' e (between ++ d ∷ rest) c, n)
          | inr (s'', r) ↦
              let (p, t, u, held) = decision_decides s' s'' e k r in
              let held' : IsDecided d.thread_id t s'' = subst (λ i. IsDecided i t s'') same held in
              ground (
                arith,
                q,
                first_step state s' e (between ++ d ∷ rest) c,
                r,
                later_decision_fails state t s'' between rest d c' k' held',
              )
        ]
      ])

  -- Two decisions of the current session on one thread make the projection fail, wherever they stand
  -- in the journal, whatever they decide and whoever makes them.
  pub decision_rejected :
      (file : Option SessionState) (state : SessionState) (records : List (CommittedRecord Raw))
      (before between rest : List (Event Raw)) (e d : Event Raw)
      → load_current_session_state file ≡ some state
      → replay records ≡ ok (before ++ e ∷ (between ++ d ∷ rest))
      → is_current state e ≡ true
      → is_current state d ≡ true
      → e.type ≡ approval_decided
      → d.type ≡ approval_decided
      → e.thread_id ≡ d.thread_id
      → project_thread_approval f g file records ≡ err bad_event
  unfolding project_thread_approval
  decision_rejected file state records before between rest e d l r c c' k k' same =
      ground (arith, l, r, two_decisions state no_approvals before between rest e d c c' k k' same)
