-- ===== src/Projection/PendingPost/Newest.antt =====
-- The newest event of a post file says whether it waits, and since when.
use tmux_a2a_postman.Base.{
  Bool, true, false, ◌&&◌, Option, none, some, Text, List, [], ◌∷◌, ◌≡◌, refl, inl, inr, ◌==◌,
  if◌then◌else◌, Map, lookup, arith, beq_iff, lookup-insert, lookup-delete, Option-cases,
  Result-cases, ok,
}
use tmux_a2a_postman.Journal.{
  Event, CommittedRecord, SessionState, mailbox_posted, mailbox_post_consumed,
  mailbox_dead_lettered,
}
use tmux_a2a_postman.Journal.Replay.{replay}
use tmux_a2a_postman.Projection.{is_current, fold_current, load_current_session_state}
use tmux_a2a_postman.Projection.Paths.{path_key, is_allowed_projection_path}
use tmux_a2a_postman.Projection.Folds.{newest_first, fold_current_history}
use tmux_a2a_postman.Projection.PendingPost.{
  PostPaths, PostFold, no_posts, on_posted, decode_paths, with_paths, post_step,
  project_pending_post_enqueue_times,
}

module _ {Raw : Type 0} (raw_is_empty : Raw → Bool) (unmarshal : Raw → Option PostPaths) where
  -- what an event says of a file, by the paths that it names: that it waits since a time, or no longer
  unfoldable pub named : Text → Event Raw → PostPaths → Option (Option Text)
  named k e p = elim e.type [
    | mailbox_posted ↦
        if is_allowed_projection_path p.path && path_key p.path == k
        then some (some e.occurred_at)
        else none
    | mailbox_post_consumed ↦ if path_key p.path == k then some none else none
    | mailbox_dead_lettered ↦ if path_key p.source_path == k then some none else none
    | t ↦ none
  ]

  unfoldable pub told_of : Text → Event Raw → Option (Option Text)
  told_of k e = elim (decode_paths raw_is_empty unmarshal e.payload) [
    | none ↦ none
    | some p ↦ named k e p
  ]

  module _ (state : SessionState) where
    -- what the newest event of the current session that names a file says of it
    unfoldable pub waits_since : Text → List (Event Raw) → Option Text
    waits_since k [] = none
    waits_since k (e ∷ h) =
        let rest = waits_since k h in
        elim (if is_current state e then told_of k e else none) [ none ↦ rest | some x ↦ x ]

    abbrev Waits : List (Event Raw) → PostFold → Type 0
    Waits h s = (k : Text) → lookup k s.enqueued_at ≡ waits_since k h

    step-Waits :
        (h : List (Event Raw)) (s s' : PostFold) (e : Event Raw)
        → is_current state e ≡ true
        → Waits h s
        → post_step raw_is_empty unmarshal s e ≡ some s'
        → Waits (e ∷ h) s'
    unfolding post_step with_paths on_posted waits_since told_of named
    step-Waits h s s' e c w eq k =
        elim (Option-cases (decode_paths raw_is_empty unmarshal e.payload)) [
          | inl n ↦ ground (arith, w k)
          | inr (p, q) ↦ ground (
            arith,
            w k,
            beq_iff (path_key p.path) k,
            lookup-insert (path_key p.path) k e.occurred_at s.enqueued_at,
            lookup-delete (path_key p.path) k s.enqueued_at,
            lookup-delete (path_key p.source_path) k s.enqueued_at,
          )
        ]

    skip-Waits :
        (h : List (Event Raw)) (s : PostFold) (e : Event Raw)
        → is_current state e ≡ false
        → Waits h s
        → Waits (e ∷ h) s
    unfolding waits_since
    skip-Waits h s e c w k = ground (arith, w k)

    no_posts-Waits : Waits [] no_posts
    unfolding no_posts lookup waits_since
    no_posts-Waits k = refl

    pub post_step-Waits :
        (s : PostFold) (events : List (Event Raw))
        → fold_current (post_step raw_is_empty unmarshal) state no_posts events ≡ some s
        → Waits (newest_first events []) s
    post_step-Waits s events eq =
        fold_current_history (post_step raw_is_empty unmarshal) state Waits step-Waits skip-Waits []
          no_posts s events no_posts-Waits eq

  -- A file waits since the time that is returned exactly if the newest event of the current session that
  -- names it is that it was posted then; no time is returned if it was consumed or dead-lettered since.
  pub pending_post_newest_wins :
      (file : Option SessionState) (records : List (CommittedRecord Raw)) (times : Map Text)
      (k : Text)
      → project_pending_post_enqueue_times raw_is_empty unmarshal file records ≡ ok (some times)
      → (state : SessionState) × (events : List (Event Raw)) × (load_current_session_state file
          ≡ some state)
        × (replay records ≡ ok events)
        × (lookup k times ≡ waits_since state k (newest_first events []))
  unfolding project_pending_post_enqueue_times
  pending_post_newest_wins file records times k eq =
      elim (Option-cases (load_current_session_state file)) [
        | inl n ↦ ground arith
        | inr (state, es) ↦ elim (Result-cases (replay records)) [
          | inl (x, ex) ↦ ground arith
          | inr (events, ev) ↦
              elim (Option-cases
                (fold_current (post_step raw_is_empty unmarshal) state no_posts events)) [
                  | inl n ↦ ground arith
                  | inr (s, ef) ↦
                      (state, events, es, ev, ground (arith, post_step-Waits state s events ef k))
                ]
        ]
      ]
