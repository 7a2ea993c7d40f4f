-- ===== src/Projection/InputRequests/Consistent.antt =====
-- The counts of ProjectMessageInputRequestStateAt against the requests that are open.
use tmux_a2a_postman.Base.{
  Bool, Option, some, Text, List, [], ◌∷◌, ◌++◌, ◌≡◌, refl, inl, inr, ◌==◌, if◌then◌else◌, Map, ℕ,
  ◌+◌, ◌≤◌, arith, count_values, Option-cases, Result-cases, subst, ok, map, count_if, Bool-cases,
}
use tmux_a2a_postman.Journal.{Event, CommittedRecord, SessionState}
use tmux_a2a_postman.Journal.Replay.{replay}
use tmux_a2a_postman.Projection.{see, fold_current, load_current_session_state}
use tmux_a2a_postman.Projection.Folds.{fold_current_keeps}
use tmux_a2a_postman.Projection.InputRequests.{
  RequestFold, MailboxEventPayload, Detail, Open, no_requests, number_at, satisfaction_at,
}
use tmux_a2a_postman.Projection.InputRequests.Loop.{
  is_request_event, decode_mailbox_event_payload, ledger, insert_sorted, sort_details,
  sorted_input_request_details, MessageInputRequestState, projected, finished, on_payload,
  request_step, project_message_input_request_state,
}
use tmux_a2a_postman.Projection.InputRequests.Held.{held}
use tmux_a2a_postman.Projection.InputRequests.Ledgers.{finalize_request_satisfaction_counts}
use tmux_a2a_postman.Projection.InputRequests.Covered.{IsCovered}
use tmux_a2a_postman.Projection.InputRequests.Counts.{
  rest-IsCovered, no_requests-IsCovered, on_payload-IsCovered,
}

insert_sorted-count :
    (p : Detail → Bool) (d : Detail) (ds : List Detail)
    → count_if p (insert_sorted d ds) ≡ count_if p ds + (if p d then 1 else 0)
unfolding insert_sorted count_if
insert_sorted-count p d [] = ground arith
insert_sorted-count p d (e ∷ es) = ground (arith, insert_sorted-count p d es)

sort_details-count :
    (p : Detail → Bool) (ds : List Detail) → count_if p (sort_details ds) ≡ count_if p ds
unfolding sort_details count_if
sort_details-count p [] = refl
sort_details-count p (d ∷ ds) =
    ground (arith, sort_details-count p ds, insert_sorted-count p d (sort_details ds))

joined-count :
    (p : Detail → Bool) (m n : Map Detail)
    → count_if p (map (λ (k, d). d) m ++ map (λ (k, d). d) n) ≡ count_values p m + count_values p n
unfolding count_if count_values
joined-count p [] [] = refl
joined-count p [] ((k, d) ∷ n) = ground (arith, joined-count p [] n)
joined-count p ((k, d) ∷ m) n = ground (arith, joined-count p m n)

-- The sorted list has exactly the open requests.
sorted-count :
    (p : Detail → Bool) (o : Open) → count_if p (sorted_input_request_details o) ≡ held p o
unfolding sorted_input_request_details
sorted-count p o = rw (sort_details-count p) (joined-count p o.exact o.fallback)

-- What the projection reports of a node
abbrev pub IsConsistent : MessageInputRequestState → Text → Type 0
IsConsistent t r =
    let s = satisfaction_at r t.request_satisfaction in
    (count_if (λ d. d.recipient == r) t.input_required ≤ number_at r t.input_required_counts)
    × (count_if (λ d. d.sender == r) t.waiting_on_input ≤ number_at r t.waiting_on_input_counts)
    × (s.stale_open_count ≤ s.open_count)
    × (s.filled_count + s.open_count ≤ s.opened_count)

module _ (parse_time : Text → Option ℕ) (whole_seconds : ℕ → ℕ → ℕ) where
  projected-IsConsistent :
      (now stale : ℕ) (s : RequestFold) (r : Text)
      → IsCovered s
      → IsConsistent (projected parse_time whole_seconds now stale s) r
  unfolding projected
  projected-IsConsistent now stale s r h =
      let f =
        finalize_request_satisfaction_counts parse_time whole_seconds now stale (ledger s) r
          h.in_ledger in
      (
        omega (arith, h.in_counts.1 r, sorted-count (λ d. d.recipient == r) s.open_inbound),
        omega (arith, h.out_counts.1 r, sorted-count (λ d. d.sender == r) s.open_outbound),
        f.1,
        f.2,
      )

  module _ {Raw : Type 0} (raw_is_empty : Raw → Bool)
      (unmarshal : Raw → Option MailboxEventPayload) where
    request_step-IsCovered :
        (session_name : Text) (s s' : RequestFold) (e : Event Raw)
        → IsCovered s
        → request_step parse_time whole_seconds raw_is_empty unmarshal session_name s e ≡ some s'
        → IsCovered s'
    unfolding request_step
    request_step-IsCovered session_name s s' e h eq = elim (Bool-cases (is_request_event e.type)) [
      | inl b ↦
          elim (Option-cases (decode_mailbox_event_payload raw_is_empty unmarshal e.payload)) [
            | inl n ↦ let q : s ≡ s' = ground arith in subst IsCovered q h
            | inr (p, d) ↦
                let q : on_payload parse_time whole_seconds session_name e.type p e.occurred_at
                      e.event_id s
                    ≡ s' =
                  ground arith in
                subst IsCovered q (
                  on_payload-IsCovered parse_time whole_seconds session_name e.type p e.occurred_at
                    e.event_id s h)
          ]
      | inr b ↦
          let q : record s { seen = see e.type s.seen } ≡ s' = ground arith in
          subst IsCovered q
            (rest-IsCovered s s.unread_counts (see e.type s.seen) s.saw_complete_mailbox_event h)
    ]

    -- What the projection returns is consistent for every node: it counts at least the requests that
    -- it lists as waiting for the node's input and as waiting on others, no more of them are stale
    -- than open, and no more are filled or open than were opened.
    pub project_message_input_request_state_counts :
        (now stale : ℕ) (file : Option SessionState) (session_name : Text)
        (records : List (CommittedRecord Raw)) (t : MessageInputRequestState) (r : Text)
        → project_message_input_request_state parse_time whole_seconds raw_is_empty unmarshal now
            stale file session_name records
          ≡ ok (some t)
        → IsConsistent t r
    unfolding project_message_input_request_state finished
    project_message_input_request_state_counts now stale file session_name records t r eq =
        elim (Option-cases (load_current_session_state file)) [
          | inl n ↦ ground arith
          | inr (state, es) ↦ elim (Result-cases (replay records)) [
            | inl (x, ex) ↦ ground arith
            | inr (events, ev) ↦
                let step =
                  request_step parse_time whole_seconds raw_is_empty unmarshal session_name in
                elim (Option-cases (fold_current step state no_requests events)) [
                  | inl n ↦ ground arith
                  | inr (s, ef) ↦
                      let h =
                        fold_current_keeps step IsCovered (request_step-IsCovered session_name)
                          state no_requests s events no_requests-IsCovered ef in
                      let q : projected parse_time whole_seconds now stale s ≡ t = ground arith in
                      subst (λ u. IsConsistent u r) q (projected-IsConsistent now stale s r h)
                ]
          ]
        ]
