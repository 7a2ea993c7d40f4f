-- ===== src/Projection/PendingPost/Tests.antt =====
-- A post file that waits.
use tmux_a2a_postman.Base.{
  ℕ, Bool, false, Option, some, List, [], ◌∷◌, ◌≡◌, refl, codes, ok, lookup, insert, ◌==◌,
  path_clean, split_slash, join_slash, clean_elements, clean_element, any, has_prefix,
}
use tmux_a2a_postman.Journal.{
  thread_missing, requires_thread_id, lease_acquired, session_resolved, mailbox_posted,
  CommittedRecord, SessionState, Event,
}
use tmux_a2a_postman.Journal.Replay.{
  replay, check_all, sort_records, insert_record, record_lt, check_record, check_event, check_lease,
  collect,
}
use tmux_a2a_postman.Projection.{
  see, saw_all, unseen, fold_current, load_current_session_state, is_current,
}
use tmux_a2a_postman.Projection.Folds.{newest_first}
use tmux_a2a_postman.Projection.Paths.{path_key, is_allowed_projection_path}
use tmux_a2a_postman.Projection.Tests.{main_session, record_of}
use tmux_a2a_postman.Projection.PendingPost.{
  PostPaths, no_posts, on_posted, decode_paths, with_paths, post_step,
  project_pending_post_enqueue_times,
}
use tmux_a2a_postman.Projection.PendingPost.Newest.{waits_since, pending_post_newest_wins}

abbrev post_path : ℕ → Option PostPaths
post_path n = some (record { path = codes "post/a"; source_path = [] })

abbrev no_raw_is_empty : ℕ → Bool
no_raw_is_empty n = false

abbrev post_records : List (CommittedRecord ℕ)
post_records =
    record_of 1 lease_acquired []
    ∷ record_of 2 session_resolved []
    ∷ record_of 3 mailbox_posted []
    ∷ []

post-projected :
    project_pending_post_enqueue_times no_raw_is_empty post_path (some main_session) post_records
    ≡ ok (some ((codes "post/a", codes "now") ∷ []))
unfolding project_pending_post_enqueue_times post_step with_paths on_posted decode_paths no_posts
    path_key is_allowed_projection_path replay check_all sort_records insert_record record_lt
    check_record check_event thread_missing requires_thread_id check_lease collect
    load_current_session_state fold_current is_current see saw_all unseen insert ◌==◌ path_clean
    split_slash join_slash clean_elements clean_element any has_prefix
post-projected = refl

pending_post_newest_wins_example :
    (state : SessionState) × (events : List (Event ℕ)) × (load_current_session_state
        (some main_session)
      ≡ some state)
    × (replay post_records ≡ ok events)
    × (some (codes "now")
        ≡ waits_since no_raw_is_empty post_path state (codes "post/a") (newest_first events []))
unfolding lookup ◌==◌
pending_post_newest_wins_example =
    pending_post_newest_wins no_raw_is_empty post_path (some main_session) post_records
      ((codes "post/a", codes "now") ∷ []) (codes "post/a") post-projected
