-- ===== src/Projection/PendingPost.antt =====
-- ProjectPendingPostEnqueueTimes of internal/projection/pending_post_state.go: since when each post file
-- waits. Decoding a payload is `unmarshal`, json.Unmarshal.
pub mod Newest
pub mod Tests
use tmux_a2a_postman.Base.{
  ◌>>=◌, Bool, Option, none, some, Text, List, [], ◌∷◌, if◌then◌else◌, Map, insert, delete, Result,
  ok, err,
}
use tmux_a2a_postman.Journal.{
  Event, CommittedRecord, SessionState, mailbox_posted, mailbox_post_consumed,
  mailbox_dead_lettered,
}
use tmux_a2a_postman.Journal.Replay.{replay, ReplayError}
use tmux_a2a_postman.Projection.{
  Seen, unseen, see, saw_all, fold_current, load_current_session_state,
}
use tmux_a2a_postman.Projection.Paths.{path_key, is_allowed_projection_path}

-- MailboxEventPayload, with the two paths that are read
pub record PostPaths : Type 0 where
  pub path : Text
  pub source_path : Text

abbrev no_paths : PostPaths
no_paths = record { path = []; source_path = [] }

pub record PostFold : Type 0 where
  pub enqueued_at : Map Text
  pub seen : Seen

unfoldable pub no_posts : PostFold
no_posts = record { enqueued_at = []; seen = unseen }

unfoldable pub on_posted : Text → PostPaths → Map Text → Map Text
on_posted at p m = if is_allowed_projection_path p.path then insert (path_key p.path) at m else m

module _ {Raw : Type 0} (raw_is_empty : Raw → Bool) (unmarshal : Raw → Option PostPaths) where
  -- decodeMailboxEventPayload
  unfoldable pub decode_paths : Raw → Option PostPaths
  decode_paths raw = if raw_is_empty raw then some no_paths else unmarshal raw

  -- a change of the times by what a payload says, if it can be decoded
  unfoldable pub with_paths : (PostPaths → Map Text → Map Text) → PostFold → Raw → PostFold
  with_paths f s raw = elim (decode_paths raw) [
    | none ↦ s
    | some p ↦ record s { enqueued_at = f p s.enqueued_at }
  ]

  unfoldable pub post_step : PostFold → Event Raw → Option PostFold
  post_step s e = elim e.type [
    | mailbox_posted ↦ some (with_paths (on_posted e.occurred_at) s e.payload)
    | mailbox_post_consumed ↦ some (with_paths (λ p. delete (path_key p.path)) s e.payload)
    | mailbox_dead_lettered ↦ some (with_paths (λ p. delete (path_key p.source_path)) s e.payload)
    | t ↦ some (record s { seen = see t s.seen })
  ]

  unfoldable pub project_pending_post_enqueue_times :
      Option SessionState → List (CommittedRecord Raw) → Result ReplayError (Option (Map Text))
  project_pending_post_enqueue_times session_file records =
      elim (load_current_session_state session_file) [
        | none ↦ ok none
        | some state ↦ elim (replay records) [
          | err x ↦ err x
          | ok events ↦ elim (fold_current post_step state no_posts events) [
            | none ↦ ok none
            | some s ↦ if saw_all s.seen then ok (some s.enqueued_at) else ok none
          ]
        ]
      ]
