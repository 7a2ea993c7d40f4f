-- ===== src/Journal.antt =====
-- The event journal: internal/journal. Here its data; `Writer` appends under a lease, `Replay` reads
-- back and checks, and the other children are what they guarantee together.
pub mod Writer
pub mod Replay
pub mod Fencing
pub mod Ordering
pub mod Protocol
pub mod Consistency
pub mod Race
pub mod Tests
use tmux_a2a_postman.Base.{
  ℕ, Bool, true, false, ◌||◌, Option, none, some, Text, codes, has_prefix, ◌==◌, if◌then◌else◌,
  is_empty, ◌&&◌,
}

-- The event types that the code names; the rest are `other_type`.
pub data EventType : Type 0 where
  lease_acquired session_resolved : EventType
  mailbox_posted mailbox_post_consumed mailbox_delivered mailbox_read mailbox_dead_lettered :
      EventType
  approval_requested approval_decided : EventType
  command_approval_requested command_approval_decided : EventType
  auto_ping_pending auto_ping_delivered : EventType
  verdict_none_timeout : EventType
  other_type : Text → EventType

-- The text that a type is in the source.
unfoldable pub type_text : EventType → Text
type_text lease_acquired = codes "lease_acquired"
type_text session_resolved = codes "session_resolved"
type_text mailbox_posted = codes "mailbox_projection_posted"
type_text mailbox_post_consumed = codes "mailbox_projection_post_consumed"
type_text mailbox_delivered = codes "mailbox_projection_delivered"
type_text mailbox_read = codes "mailbox_projection_read"
type_text mailbox_dead_lettered = codes "mailbox_projection_dead_lettered"
type_text approval_requested = codes "approval_requested"
type_text approval_decided = codes "approval_decided"
type_text command_approval_requested = codes "command_approval_requested"
type_text command_approval_decided = codes "command_approval_decided"
type_text auto_ping_pending = codes "auto_ping_pending"
type_text auto_ping_delivered = codes "auto_ping_delivered"
type_text verdict_none_timeout = codes "verdict_none_timeout"
type_text (other_type t) = t

pub data Visibility : Type 0 where
  control_plane_only operator_visible mailbox_projection : Visibility
  other_visibility : Text → Visibility

pub record SessionState : Type 0 where
  pub session_key : Text
  pub tmux_session_name : Text
  pub generation : ℕ

pub record Lease : Type 0 where
  pub lease_id : Text
  pub lease_epoch : ℕ
  pub holder_context_id : Text
  pub holder_session_name : Text
  pub holder_pid : ℕ

-- `Raw` is the type of encoded payloads, json.RawMessage.
pub record Event (Raw : Type 0) : Type 0 where
  pub sequence : ℕ
  pub event_id : Text
  pub type : EventType
  pub visibility : Visibility
  pub session_key : Text
  pub tmux_session_name : Text
  pub generation : ℕ
  pub thread_id : Text
  pub lease_id : Text
  pub lease_epoch : ℕ
  pub occurred_at : Text
  pub payload : Raw

unfoldable pub requires_thread_id : EventType → Bool
unfolding type_text has_prefix
requires_thread_id t =
    has_prefix (codes "approval_") (type_text t)
    || (has_prefix (codes "command_approval_") (type_text t)
        || has_prefix (codes "review_") (type_text t))

-- validateThreadBinding: whether it returns an error
unfoldable pub thread_missing : EventType → Text → Bool
thread_missing t thread_id = requires_thread_id t && is_empty thread_id

unfoldable pub is_known_visibility : Visibility → Bool
is_known_visibility (other_visibility v) = false
is_known_visibility _ = true

-- A committed record: the sequence number in its file name, the name, and the decoded event (`none`
-- if it cannot be read).
pub record CommittedRecord (Raw : Type 0) : Type 0 where
  pub name : Text
  pub sequence : ℕ
  pub event : Option (Event Raw)
