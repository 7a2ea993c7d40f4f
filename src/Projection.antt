-- ===== src/Projection.antt =====
-- The projections: internal/projection, which read the state of a session off its journal. Here what
-- they share: the current session's events, and the flags that a journal must have set.
pub mod Paths
pub mod Folds
pub mod Mailbox
pub mod CommandApproval
pub mod AutoPing
pub mod ThreadApproval
pub mod PendingPost
pub mod InputRequests
pub mod VerdictDebt
pub mod BlockedReports
pub mod TaskRuns
pub mod Tests
pub mod MoreTests
use tmux_a2a_postman.Base.{
  ◌>>=◌, Bool, true, false, ◌&&◌, ◌||◌, not, Option, none, some, Text, List, [], ◌∷◌, ◌==◌, eqb, ok,
  err, if◌then◌else◌, is_empty, ltb,
}
use tmux_a2a_postman.Journal.{
  Event, EventType, lease_acquired, session_resolved, CommittedRecord, SessionState,
}
use tmux_a2a_postman.Journal.Replay.{replay}

-- event.SessionKey == state.SessionKey && event.Generation == state.Generation
unfoldable pub is_current : {Raw : Type 0} → SessionState → Event Raw → Bool
is_current state e = e.session_key == state.session_key && eqb e.generation state.generation

-- loadCurrentSessionState, on the decoded session file
unfoldable pub load_current_session_state : Option SessionState → Option SessionState
load_current_session_state none = none
load_current_session_state (some s) =
    if is_empty s.session_key || ltb s.generation 1 then none else some s

-- sawLease and sawResolution
pub record Seen : Type 0 where
  pub lease : Bool
  pub resolution : Bool

unfoldable pub unseen : Seen
unseen = record { lease = false; resolution = false }

unfoldable pub see : EventType → Seen → Seen
see lease_acquired s = record s { lease = true }
see session_resolved s = record s { resolution = true }
see _ s = s

unfoldable pub saw_all : Seen → Bool
saw_all s = s.lease && s.resolution

module _ {Raw : Type 0} {S : Type 0} (step : S → Event Raw → Option S) where
  -- The loop over the events; `none` is its early return. Events of other sessions are passed over.
  unfoldable pub fold_current : SessionState → S → List (Event Raw) → Option S
  fold_current state s [] = some s
  fold_current state s (e ∷ es) =
      (if is_current state e then step s e else some s) >>= λ s'. fold_current state s' es
