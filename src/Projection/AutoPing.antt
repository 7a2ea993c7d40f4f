-- ===== src/Projection/AutoPing.antt =====
-- The automatic pings: ProjectAutoPingState of internal/projection/auto_ping_state.go, and the
-- reservations of internal/autoping/reservation.go, which keep two workers from waking one pane.
pub mod Exclusion
pub mod Laws
use tmux_a2a_postman.Base.{
  ◌>>=◌, Bool, true, false, not, ◌&&◌, ◌||◌, Option, none, some, Text, List, [], ◌∷◌, ◌++◌, ◌==◌,
  is_empty, if◌then◌else◌, Map, lookup, insert, delete, has_key, ok, err,
}
use tmux_a2a_postman.Journal.{
  Event, CommittedRecord, SessionState, auto_ping_pending, auto_ping_delivered,
}
use tmux_a2a_postman.Journal.Replay.{replay}
use tmux_a2a_postman.Projection.{
  Seen, unseen, see, saw_all, fold_current, load_current_session_state,
}

-- AutoPingEventPayload; the delay is written as it is encoded
pub record AutoPingPayload : Type 0 where
  pub node_key : Text
  pub session_name : Text
  pub node_name : Text
  pub pane_id : Text
  pub reason : Text
  pub resolution_reason : Text
  pub triggered_at : Text
  pub delay_seconds : Text
  pub not_before_at : Text
  pub delivered_at : Text

-- AutoPingNodeState
pub record AutoPingNode : Type 0 where
  pub payload : AutoPingPayload
  pub pending : Bool

pub record AutoPingFold : Type 0 where
  pub nodes : Map AutoPingNode
  pub seen : Seen

unfoldable pub no_pings : AutoPingFold
no_pings = record { nodes = []; seen = unseen }

module _ {Raw : Type 0} (unmarshal : Raw → Option AutoPingPayload) where
  unfoldable pub record_ping : Bool → AutoPingFold → Raw → Option AutoPingFold
  record_ping is_pending s raw = unmarshal raw >>= λ p.
      if is_empty p.node_key
      then none
      else some (record s {
        nodes = insert p.node_key record { payload = p; pending = is_pending } s.nodes;
      })

  -- one turn of the loop, on an event of the current session
  unfoldable pub auto_ping_step : AutoPingFold → Event Raw → Option AutoPingFold
  auto_ping_step s e = elim e.type [
    | auto_ping_pending ↦ record_ping true s e.payload
    | auto_ping_delivered ↦ record_ping false s e.payload
    | t ↦ some (record s { seen = see t s.seen })
  ]

  unfoldable pub project_auto_ping_state :
      Option SessionState → List (CommittedRecord Raw) → Option (Map AutoPingNode)
  project_auto_ping_state session_file records =
      load_current_session_state session_file >>= λ state.
      (elim (replay records) [
        | err x ↦ none
        | ok events ↦ fold_current auto_ping_step state no_pings events
      ])
      >>= λ s. if saw_all s.seen then some s.nodes else none

-- WakeIdentity
pub record WakeIdentity : Type 0 where
  pub session_dir : Text
  pub node_key : Text
  pub pane_id : Text
  pub reason : Text
  pub triggered_at : Text
  pub not_before_at : Text

-- IdentityFromPending
unfoldable pub identity_from_pending : Text → Text → AutoPingNode → WakeIdentity
identity_from_pending session_dir node_key n = record {
  session_dir = session_dir;
  node_key = node_key;
  pane_id = n.payload.pane_id;
  reason = n.payload.reason;
  triggered_at = n.payload.triggered_at;
  not_before_at = n.payload.not_before_at;
}

-- CurrentPendingIdentity, on what ProjectAutoPingState returns
unfoldable pub current_pending_identity :
    Text → Text → Text → Option (Map AutoPingNode) → Option WakeIdentity
current_pending_identity session_dir node_key pane_id projected = projected >>= λ nodes.
    lookup node_key nodes >>= λ n.
    if not n.pending || not (n.payload.pane_id == pane_id)
    then none
    else some (identity_from_pending session_dir node_key n)

-- MatchesPending
unfoldable pub matches_pending : WakeIdentity → AutoPingNode → Bool
matches_pending i n =
    n.pending
    && (n.payload.pane_id == i.pane_id
        && (n.payload.reason == i.reason
            && (n.payload.triggered_at == i.triggered_at
                && n.payload.not_before_at == i.not_before_at)))

-- strings.Join of the parts with a zero byte
abbrev join_zero : List Text → Text
join_zero [] = []
join_zero (x ∷ []) = x
join_zero (x ∷ y ∷ xs) = x ++ (0 ∷ join_zero (y ∷ xs))

-- key: the empty text if a part is missing
unfoldable pub wake_key : WakeIdentity → Text
wake_key i =
    if is_empty i.session_dir
      || (is_empty i.node_key
          || (is_empty i.pane_id || (is_empty i.triggered_at || is_empty i.not_before_at)))
    then []
    else join_zero
        (i.session_dir ∷ i.node_key ∷ i.pane_id ∷ i.reason ∷ i.triggered_at ∷ i.not_before_at ∷ [])

-- wakeReservations.active: the reserved keys
abbrev pub Active : Type 0
Active = Map Bool

-- A reservation of a key; `no_reservation` is the nil pointer.
pub data Reservation : Type 0 where
  no_reservation : Reservation
  of_key : Text → Reservation

-- TryReserve, which runs whole under its lock
unfoldable pub try_reserve : WakeIdentity → Active → Active × Reservation × Bool
try_reserve i active =
    let key = wake_key i in
    if is_empty key
    then (active, no_reservation, true)
    else if has_key key active
    then (active, no_reservation, false)
    else (insert key true active, of_key key, true)

-- Release
unfoldable pub release : Reservation → Active → Active
release no_reservation active = active
release (of_key key) active = if is_empty key then active else delete key active
